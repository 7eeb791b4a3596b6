-- ===== src/Path/Splits.antt =====
-- The directory and the file name of a path.
use cocoyaxi.Base.{
  ℕ, Option, none, some, [], ◌∷◌, ◌++◌, if◌then◌else◌, Bytes, ◌≡◌, ◌⊎◌, inl, inr, refl, ap, arith,
  Bool-cases,
}
use cocoyaxi.Path.{is_slash, memrchr, split}
use cocoyaxi.Path.Clean.{IsPart}

-- Nothing, or a text that ends in a slash.
abbrev pub IsFolder : Bytes → Type 0
IsFolder d = (d ≡ []) ⊎ ((e : Bytes) × (d ≡ e ++ b'/' ∷ []))

abbrev pub Divides : Bytes → Bytes × Bytes → Type 0
Divides s (d, f) = (d ++ f ≡ s) × IsFolder d × IsPart f

abbrev Finds : Bytes → Option (Bytes × Bytes) → Type 0
Finds s none = IsPart s
Finds s (some (d, f)) = (d ++ f ≡ s) × ((e : Bytes) × (d ≡ e ++ b'/' ∷ [])) × IsPart f

abbrev next_found : ℕ → Bytes → Option (Bytes × Bytes) → Option (Bytes × Bytes)
next_found c s o = elim o [
  | some (before, behind) ↦ some (c ∷ before, behind)
  | none ↦ if is_slash c then some (c ∷ [], s) else none
]

next-Finds :
    (c : ℕ) (s : Bytes) (o : Option (Bytes × Bytes)) → Finds s o → Finds (c ∷ s) (next_found c s o)
next-Finds c s none h = elim (Bool-cases (is_slash c)) [
  | inl e ↦ rw e (refl, ([], ap (λ x. x ∷ []) (ground arith)), h)
  | inr e ↦ rw e (e, h)
]
next-Finds c s (some (d, f)) h = (ap (λ l. c ∷ l) h.0, (c ∷ (h.1).0, ap (λ l. c ∷ l) (h.1).1), h.2)

memrchr-Finds : (s : Bytes) → Finds s (memrchr s)
memrchr-Finds [] = tt
memrchr-Finds (c ∷ s) = next-Finds c s (memrchr s) (memrchr-Finds s)

found-Divides :
    (s : Bytes) (o : Option (Bytes × Bytes))
    → Finds s o
    → Divides s (elim o [ some (before, behind) ↦ (before, behind) | none ↦ ([], s) ])
found-Divides s none h = (refl, inl refl, h)
found-Divides s (some (d, f)) h = (h.0, inr h.1, h.2)

-- The two parts of `split` make up the path; the first is empty or ends in a slash, and the second
-- has no slash.
pub split-Divides : (s : Bytes) → Divides s (split s)
unfolding split
split-Divides s = found-Divides s (memrchr s) (memrchr-Finds s)
