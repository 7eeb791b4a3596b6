-- ===== src/Str/Split.antt =====
-- `split` and `replace` of src/str.cc. A search gives what is before the text that was looked for and
-- what is behind it: `memchr`, or the parameter `memmem`.
use cocoyaxi.Base.{
  ℕ, zero, suc, ◌-◌, Option, none, some, List, [], ◌∷◌, ◌++◌, ◌==◌, if◌then◌else◌, Bytes, length,
}

abbrev pub Search : Type 0
Search = Bytes → Option (Bytes × Bytes)

abbrev pub memchr : ℕ → Search
memchr c [] = none
memchr c (x ∷ s) =
    let later : Option (Bytes × Bytes) = elim (memchr c s) [
      | some (before, behind) ↦ some (x ∷ before, behind)
      | none ↦ none
    ] in
    if x == c then some ([], s) else later

-- `if (s < end) v.emplace_back(s, end - s)`.
abbrev pub rest_piece : Bytes → List Bytes
rest_piece [] = []
rest_piece (x ∷ s) = (x ∷ s) ∷ []

-- The loop with `size` pieces in the vector; a limit `t` of 0 is none.
unfoldable pub split_from : ℕ → Search → ℕ → ℕ → Bytes → List Bytes
split_from zero find t size s = rest_piece s
split_from (suc rounds) find t size s = elim (find s) [
  | none ↦ rest_piece s
  | some (before, behind) ↦
      let later = split_from rounds find t (suc size) behind in
      before ∷ (if suc size == t then rest_piece behind else later)
]

-- `split` at a byte.
unfoldable pub split : Bytes → ℕ → ℕ → List Bytes
split s c t = split_from (length s) (memchr c) t 0 s

-- `split` at a text, with `memmem`.
unfoldable pub split_at : (Bytes → Search) → Bytes → Bytes → ℕ → List Bytes
split_at memmem s [] t = []
split_at memmem s (x ∷ c) t = split_from (length s) (memmem (x ∷ c)) t 0 s

-- The loop of `replace`: `if (t && --t == 0) break`.
unfoldable pub replace_from : ℕ → Search → Bytes → ℕ → Bytes → Bytes
replace_from zero find to t s = s
replace_from (suc rounds) find to t s = elim (find s) [
  | none ↦ s
  | some (before, behind) ↦
      let later = replace_from rounds find to (t - 1) behind in
      before ++ (to ++ (if t == 1 then behind else later))
]

unfoldable pub replace : (Bytes → Search) → Bytes → Bytes → Bytes → ℕ → Bytes
replace memmem s [] to t = s
replace memmem s (x ∷ sub) to t = replace_from (length s) (memmem (x ∷ sub)) to t s
