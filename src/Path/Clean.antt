-- ===== src/Path/Clean.antt =====
-- `clean` against the elements of a path.
use cocoyaxi.Base.{
  ℕ, zero, suc, ◌≤◌, ◌<◌, Bool, true, false, ◌&&◌, List, [], ◌∷◌, ◌++◌, ◌==◌, ltb, if◌then◌else◌,
  Bytes, length, length-append, All, drop, reverse_aux, reverse_aux_front, length-reverse_aux, ◌≡◌,
  ◌⊎◌, inl, inr, refl, sym, ap, ◌∙◌, arith, Bool-cases, subst,
}
use cocoyaxi.Path.{is_slash, ends_at, dot_ends, backtrack, add_slash, parent, copy, clean_from}
use cocoyaxi.Path.Words.{
  dots, is_nil, is_dot, is_dots, words, up, resolve, word, after, length-after, resolve_dot,
  resolve_dots, resolve_name,
}

-- The buffer for these elements, last byte first.
abbrev pub buffer : Bool → List Bytes → Bytes
buffer rooted [] = if rooted then b'/' ∷ [] else []
buffer rooted (w ∷ st) = reverse_aux w (add_slash rooted (buffer rooted st))

abbrev pub IsPart : Bytes → Type 0
IsPart = All (λ c. is_slash c ≡ false)

-- An element that is a name: not empty, not a dot or two, and with no slash.
abbrev pub IsName : Bytes → Type 0
IsName w = IsPart w × (is_nil w ≡ false) × (is_dot w ≡ false) × (is_dots w ≡ false)

-- Names, behind `..` elements if the path does not start at the root.
abbrev pub AreNormal : Bool → List Bytes → Type 0
AreNormal rooted [] = Unit
AreNormal rooted (w ∷ st) =
    (IsName w × AreNormal rooted st) ⊎ ((rooted ≡ false) × All (λ v. v ≡ dots) (w ∷ st))

-- `dotdot` is where the `..` elements end.
abbrev pub Stops : Bool → List Bytes → ℕ → Type 0
Stops rooted [] d = d ≡ (if rooted then 1 else 0)
Stops rooted (w ∷ st) d =
    (IsName w × Stops rooted st d)
    ⊎ ((rooted ≡ false) × (d ≡ length (buffer rooted (w ∷ st))) × All (λ v. v ≡ dots) (w ∷ st))

pub Stops-AreNormal :
    (rooted : Bool) (st : List Bytes) (d : ℕ) → Stops rooted st d → AreNormal rooted st
Stops-AreNormal rooted [] d h = tt
Stops-AreNormal rooted (w ∷ st) d (inl h) = inl (h.0, Stops-AreNormal rooted st d h.1)
Stops-AreNormal rooted (w ∷ st) d (inr h) = inr (h.0, h.2)

abbrev pub base_len : Bool → ℕ
base_len rooted = if rooted then 1 else 0

pub length-add_slash : (rooted : Bool) (r : Bytes) → length r ≤ length (add_slash rooted r)
length-add_slash rooted r = elim (Bool-cases (length r == base_len rooted)) [
  | inl e ↦ rw e (omega arith)
  | inr e ↦ rw e (omega arith)
]

pub is_some : (w : Bytes) → is_nil w ≡ false → 0 < length w
is_some [] h = absurd (cc)
is_some (c ∷ w) h = omega arith

Stops-bound :
    (rooted : Bool) (st : List Bytes) (d : ℕ)
    → Stops rooted st d
    → (base_len rooted ≤ d) × (d ≤ length (buffer rooted st))
Stops-bound true [] d h = (omega arith, omega arith)
Stops-bound false [] d h = (omega arith, omega arith)
Stops-bound rooted (w ∷ st) d (inl h) =
    let (low, high) = Stops-bound rooted st d h.1 in
    (
      low,
      omega (
        arith,
        length-reverse_aux w (add_slash rooted (buffer rooted st)),
        length-add_slash rooted (buffer rooted st),
        high,
      ),
    )
Stops-bound rooted (w ∷ st) d (inr h) = (rw (h.0) (omega arith), omega (arith, h.1))

no_further : (b : Bool) (x y : Bytes) → (if b && false then x else y) ≡ y
no_further true x y = refl
no_further false x y = refl

-- Backtracking over an element, to the slash before it or to `dotdot`.
backtrack_part :
    (y : ℕ) (ys : Bytes) (r : Bytes) (rooted : Bool) (d : ℕ)
    → IsPart (y ∷ ys)
    → base_len rooted ≤ d
    → d ≤ length r
    → backtrack d (y ∷ ys ++ add_slash rooted r) ≡ r
backtrack_part y [] r rooted d h low high = elim (Bool-cases (length r == base_len rooted)) [
  | inl e ↦ let at_end : ltb d (length r) ≡ false = ground arith in rw e (rw at_end refl)
  | inr e ↦
      let past : ltb d (suc (length r)) ≡ true = ground arith in
      rw e (rw past (rw (h.0) (no_further (ltb d (length r)) (backtrack d r) r)))
]
backtrack_part y (z ∷ zs) r rooted d h low high =
    let past : ltb d (length (z ∷ zs ++ add_slash rooted r)) ≡ true =
      ground (arith, length-append zs (add_slash rooted r), length-add_slash rooted r) in
    rw past (rw (h.0) (backtrack_part z zs r rooted d h.1 low high))

reverse_aux-IsPart : (xs ys : Bytes) → IsPart xs → IsPart ys → IsPart (reverse_aux xs ys)
reverse_aux-IsPart [] ys h g = g
reverse_aux-IsPart (x ∷ xs) ys h g = reverse_aux-IsPart xs (x ∷ ys) h.1 (h.0, g)

backtrack_some :
    (v r : Bytes) (rooted : Bool) (d : ℕ)
    → IsPart v
    → 0 < length v
    → base_len rooted ≤ d
    → d ≤ length r
    → backtrack d (v ++ add_slash rooted r) ≡ r
backtrack_some [] r rooted d h g low high = absurd (omega arith)
backtrack_some (y ∷ ys) r rooted d h g low high = backtrack_part y ys r rooted d h low high

-- The element that is last in the buffer is taken off.
backtrack_name :
    (w r : Bytes) (rooted : Bool) (d : ℕ)
    → IsName w
    → base_len rooted ≤ d
    → d ≤ length r
    → backtrack d (reverse_aux w (add_slash rooted r)) ≡ r
backtrack_name w r rooted d h low high =
    ap (backtrack d) (reverse_aux_front w (add_slash rooted r))
    ∙ backtrack_some (reverse_aux w []) r rooted d (reverse_aux-IsPart w [] h.0 tt)
        (omega (arith, length-reverse_aux w [], is_some w h.1)) low high

abbrev Climbs : Bool → List Bytes → Bytes × ℕ → Type 0
Climbs rooted st p = (p.0 ≡ buffer rooted (up rooted st)) × Stops rooted (up rooted st) p.1

-- A `..` takes off the last element, is added to those at the beginning, or does nothing at the root.
parent-Climbs :
    (rooted : Bool) (st : List Bytes) (d : ℕ)
    → Stops rooted st d
    → Climbs rooted st (parent rooted (buffer rooted st) d)
unfolding parent
parent-Climbs true [] d h = let at_end : ltb d 1 ≡ false = ground arith in rw at_end (refl, h)
parent-Climbs false [] d h =
    let at_end : ltb d 0 ≡ false = ground arith in rw at_end (refl, inr (refl, refl, (refl, tt)))
parent-Climbs rooted (w ∷ st) d (inl h) =
    let (low, high) = Stops-bound rooted st d h.1 in
    let past : ltb d (length (buffer rooted (w ∷ st))) ≡ true = ground (
      arith,
      length-reverse_aux w (add_slash rooted (buffer rooted st)),
      length-add_slash rooted (buffer rooted st),
      is_some w (h.0).1,
    ) in
    rw past (rw ((h.0).3) (backtrack_name w (buffer rooted st) rooted d h.0 low high, h.1))
parent-Climbs rooted (w ∷ st) d (inr h) =
    let at_end : ltb d (length (buffer rooted (w ∷ st))) ≡ false = ground (arith, h.1) in
    let two : is_dots w ≡ true = ap is_dots (h.2).0 in
    rw at_end (rw two (rw (h.0) (refl, inr (refl, refl, (refl, h.2)))))

copy-word : (s r : Bytes) → copy s r ≡ (after s, reverse_aux (word s) r)
copy-word [] r = refl
copy-word (c ∷ s) r = elim (Bool-cases (is_slash c)) [
  | inl e ↦ rw e refl
  | inr e ↦ rw e (copy-word s (c ∷ r))
]

word-IsPart : (s : Bytes) → IsPart (word s)
word-IsPart [] = tt
word-IsPart (c ∷ s) = elim (Bool-cases (is_slash c)) [
  | inl e ↦ rw e tt
  | inr e ↦ rw e (e, word-IsPart s)
]

-- The loop has come to these elements, and has set `dotdot`.
abbrev pub Cleans : Bool → List Bytes → Bytes → Type 0
Cleans rooted st r = (r ≡ buffer rooted st) × (d : ℕ) × Stops rooted st d

if_below : (n : ℕ) (s : Bytes) → suc (length s) ≤ suc n → length (drop 1 s) ≤ n
if_below n [] h = omega arith
if_below n (c ∷ s) h = omega arith

pub clean_from-Cleans :
    (n : ℕ) (rooted : Bool) (s : Bytes) (st : List Bytes) (d : ℕ)
    → length s ≤ n
    → Stops rooted st d
    → Cleans rooted (resolve rooted (words s) st) (clean_from n rooted s (buffer rooted st) d)
unfolding clean_from
clean_from-Cleans zero rooted [] st d h g = (refl, d, g)
clean_from-Cleans zero rooted (c ∷ s) st d h g = absurd (omega arith)
clean_from-Cleans (suc n) rooted [] st d h g = (refl, d, g)
clean_from-Cleans (suc n) rooted (c ∷ s) st d h g = elim (Bool-cases (is_slash c)) [
  | inl e ↦ rw e (clean_from-Cleans n rooted s st d (omega arith) g)
  | inr e ↦ elim (Bool-cases (c == b'.' && ends_at s)) [
    | inl f ↦
        subst (λ st'. Cleans rooted st' (clean_from (suc n) rooted (c ∷ s) (buffer rooted st) d))
          (sym (resolve_dot rooted c s st e f))
          (rw e (rw f (clean_from-Cleans n rooted s st d (omega arith) g)))
    | inr f ↦ elim (Bool-cases (c == b'.' && dot_ends s)) [
      | inl k ↦
          let rest = if_below n s h in
          let (out, stops) = parent-Climbs rooted st d g in
          subst (λ st'. Cleans rooted st' (clean_from (suc n) rooted (c ∷ s) (buffer rooted st) d))
            (sym (resolve_dots rooted c s st e f k))
            (rw e (
              rw f (
                rw k (
                  rw out (
                    clean_from-Cleans n rooted (drop 1 s) (up rooted st)
                      (parent rooted (buffer rooted st) d).1 rest stops)))))
      | inr k ↦
          let (same, one, two) = resolve_name rooted c s st e f k in
          subst (λ st'. Cleans rooted st' (clean_from (suc n) rooted (c ∷ s) (buffer rooted st) d))
            (sym same)
            (rw e (
              rw f (
                rw k (
                  rw (copy-word s (c ∷ add_slash rooted (buffer rooted st))) (
                    clean_from-Cleans n rooted (after s) ((c ∷ word s) ∷ st) d
                      (omega (arith, length-after s))
                      (inl (((e, word-IsPart s), refl, one, two), g)))))))
    ]
  ]
]
