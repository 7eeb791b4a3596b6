-- ===== src/Str/Pieces.antt =====
-- The pieces between the places where a text is found.
use cocoyaxi.Base.{
  ℕ, zero, suc, ◌-◌, ◌<◌, ◌≤◌, none, some, Option-cases, List, [], ◌∷◌, ◌++◌, append-nil,
  append_assoc, Bytes, length, length-append, take, All, ◌==◌, ◌≡◌, ◌≢◌, ◌⊎◌, refl, sym, ap, ◌∙◌,
  arith, Bool-cases, inl, inr, subst,
}
use cocoyaxi.Str.Split.{Search, rest_piece, split_from}

-- `sep` does not occur in the text.
abbrev pub IsFree : Bytes → Bytes → Type 0
IsFree sep x = (before behind : Bytes) → before ++ (sep ++ behind) ≢ x

-- A search finds the first place where `sep` occurs.
pub record IsSearch (find : Search) (sep : Bytes) : Type 0 where
  pub found :
      (s before behind : Bytes) → find s ≡ some (before, behind) → before ++ (sep ++ behind) ≡ s
  pub first : (s before behind : Bytes) → find s ≡ some (before, behind) → IsFree sep before
  pub absent : (s : Bytes) → find s ≡ none → IsFree sep s

-- The pieces, each followed by `sep`.
abbrev pub terminated : Bytes → List Bytes → Bytes
terminated sep [] = []
terminated sep (p ∷ ps) = p ++ (sep ++ terminated sep ps)

abbrev pub last_piece : List Bytes → Bytes
last_piece [] = []
last_piece (p ∷ []) = p
last_piece (p ∷ q ∷ ps) = last_piece (q ∷ ps)

-- The pieces with `sep` behind each make up the text; or they make up the text with `sep` behind, and
-- the last piece is not empty.
abbrev pub IsWhole : Bytes → Bytes → List Bytes → Type 0
IsWhole sep s v =
    (terminated sep v ≡ s) ⊎ ((terminated sep v ≡ s ++ sep) × (0 < length (last_piece v)))

-- The pieces make up the text as above; there are at
-- most `t` and one more, and `sep` occurs in none of the first `t`, or in none at all if `t` is 0.
pub record IsSplit (sep : Bytes) (t : ℕ) (s : Bytes) (v : List Bytes) : Type 0 where
  pub whole : IsWhole sep s v
  pub few : t ≢ 0 → length v ≤ suc t
  pub free_all : t ≡ 0 → All (IsFree sep) v
  pub free_first : t ≢ 0 → All (IsFree sep) (take t v)

module _ (find : Search) (sep : Bytes) (h : IsSearch find sep) (some_sep : 0 < length sep) where
  pub shorter :
      (s before behind : Bytes) → find s ≡ some (before, behind) → length behind < length s
  shorter s before behind e = omega (
    arith,
    ap length (h.found s before behind e),
    length-append before (sep ++ behind),
    length-append sep behind,
  )

  rest-IsWhole : (s : Bytes) → IsWhole sep s (rest_piece s)
  rest-IsWhole [] = inl refl
  rest-IsWhole (x ∷ s) = inr (ap (λ l. (x ∷ s) ++ l) (append-nil sep), omega arith)

  rest_few : (s : Bytes) → length (rest_piece s) ≤ 1
  rest_few [] = omega arith
  rest_few (x ∷ s) = omega arith

  rest_free : (s : Bytes) → IsFree sep s → All (IsFree sep) (rest_piece s)
  rest_free [] f = tt
  rest_free (x ∷ s) f = (f, tt)

  take-free : (n : ℕ) (v : List Bytes) → All (IsFree sep) v → All (IsFree sep) (take n v)
  take-free zero v f = tt
  take-free (suc n) [] f = tt
  take-free (suc n) (x ∷ v) f = (f.0, take-free n v f.1)

  last_grown :
      (before : Bytes) (v : List Bytes)
      → 0 < length (last_piece v)
      → 0 < length (last_piece (before ∷ v))
  last_grown before [] n = absurd (omega arith)
  last_grown before (p ∷ v) n = n

  grown :
      (s before behind : Bytes) (v : List Bytes)
      → before ++ (sep ++ behind) ≡ s
      → IsWhole sep behind v
      → IsWhole sep s (before ∷ v)
  grown s before behind v e (inl k) = inl (ap (λ l. before ++ (sep ++ l)) k ∙ e)
  grown s before behind v e (inr (k, n)) = inr (
    ap (λ l. before ++ (sep ++ l)) k
        ∙ ap (λ l. before ++ l) (sym (append_assoc sep behind sep))
        ∙ sym (append_assoc before (sep ++ behind) sep)
        ∙ ap (λ l. l ++ sep) e,
    last_grown before v n,
  )

  -- What the loop gives with `size` pieces in the vector.
  record Pieces (t size : ℕ) (s : Bytes) (v : List Bytes) : Type 0 where
    whole : IsWhole sep s v
    few : size < t → length v ≤ suc (t - size)
    free_all : t ≡ 0 → All (IsFree sep) v
    free_first : size < t → All (IsFree sep) (take (t - size) v)

  rest-Pieces : (t size : ℕ) (s : Bytes) → IsFree sep s → Pieces t size s (rest_piece s)
  rest-Pieces t size s f = record {
    whole = rest-IsWhole s;
    few = λ g. omega (arith, rest_few s);
    free_all = λ g. rest_free s f;
    free_first = λ g. take-free (t - size) (rest_piece s) (rest_free s f);
  }

  last-Pieces :
      (t size : ℕ) (s before behind : Bytes)
      → suc size ≡ t
      → find s ≡ some (before, behind)
      → Pieces t size s (before ∷ rest_piece behind)
  last-Pieces t size s before behind e f = record {
    whole =
        grown s before behind (rest_piece behind) (h.found s before behind f) (rest-IsWhole behind);
    few = λ g. omega (arith, rest_few behind);
    free_all = λ g. absurd (omega arith);
    free_first =
        λ g. let one : t - size ≡ 1 = omega arith in rw one (h.first s before behind f, tt);
  }

  more-Pieces :
      (t size : ℕ) (s before behind : Bytes) (v : List Bytes)
      → suc size ≢ t
      → find s ≡ some (before, behind)
      → Pieces t (suc size) behind v
      → Pieces t size s (before ∷ v)
  more-Pieces t size s before behind v e f k = record {
    whole = grown s before behind v (h.found s before behind f) k.whole;
    few = λ g. omega (arith, k.few (omega arith));
    free_all = λ g. (h.first s before behind f, k.free_all g);
    free_first = λ g.
        let one : t - size ≡ suc (t - suc size) = omega arith in
        rw one (h.first s before behind f, k.free_first (omega arith));
  }

  split_from-Pieces :
      (rounds t size : ℕ) (s : Bytes)
      → length s ≤ rounds
      → Pieces t size s (split_from rounds find t size s)
  unfolding split_from
  split_from-Pieces zero t size [] b = rest-Pieces t size [] (λ b' a e.
      absurd (omega (arith, ap length e, length-append b' (sep ++ a), length-append sep a)))
  split_from-Pieces zero t size (x ∷ s) b = absurd (omega arith)
  split_from-Pieces (suc rounds) t size s b = elim (Option-cases (find s)) [
    | inl e ↦ rw (e, split_from) (rest-Pieces t size s (h.absent s e))
    | inr ((before, behind), e) ↦
        rw (e, split_from)
          (elim (Bool-cases (suc size == t)) [
            | inl f ↦ rw f (last-Pieces t size s before behind (ground arith) e)
            | inr f ↦ rw f (
                more-Pieces t size s before behind (split_from rounds find t (suc size) behind)
                  (ground arith) e
                  (split_from-Pieces rounds t (suc size) behind
                    (omega (arith, shorter s before behind e))))
          ])
  ]

  pub split_from-IsSplit : (t : ℕ) (s : Bytes) → IsSplit sep t s (split_from (length s) find t 0 s)
  split_from-IsSplit t s =
      let k = split_from-Pieces (length s) t 0 s (omega arith) in
      record {
        whole = k.whole;
        few = λ g. omega (arith, k.few (omega arith));
        free_all = k.free_all;
        free_first = λ g.
            let all : t - 0 ≡ t = omega arith in
            subst (λ n. All (IsFree sep) (take n (split_from (length s) find t 0 s))) all
              (k.free_first (omega arith));
      }
