-- ===== src/Str/Searches.antt =====
-- `split` at a byte, and `replace` with a search for a text.
use cocoyaxi.Base.{
  ℕ, zero, suc, ◌-◌, ◌<◌, ◌≤◌, false, Option, none, some, Option-cases, List, [], ◌∷◌, ◌++◌, Bytes,
  length, length-append, take, tail, All, ◌==◌, ==_iff, ◌≡◌, ◌≢◌, refl, sym, ap, ◌∙◌, arith,
  Bool-cases, inl, inr, subst,
}
use cocoyaxi.Str.Split.{Search, memchr, split, split_at, replace_from, replace}
use cocoyaxi.Str.Pieces.{IsFree, IsSearch, IsSplit, split_from-IsSplit, shorter}

abbrev NoByte : ℕ → Bytes → Type 0
NoByte c = All (λ x. (x == c) ≡ false)

abbrev first_or : ℕ → Bytes → ℕ
first_or d [] = d
first_or d (x ∷ s) = x

NoByte-IsFree : (c : ℕ) (s : Bytes) → NoByte c s → IsFree (c ∷ []) s
NoByte-IsFree c [] n [] a e = absurd (omega (arith, ap length e))
NoByte-IsFree c [] n (x ∷ b) a e = absurd (omega (arith, ap length e))
NoByte-IsFree c (y ∷ s) n [] a e = let same = ap (first_or c) e in absurd (ground (arith, n.0))
NoByte-IsFree c (y ∷ s) n (x ∷ b) a e = NoByte-IsFree c s n.1 b a (ap tail e)

abbrev FindsByte : ℕ → Bytes → Option (Bytes × Bytes) → Type 0
FindsByte c s none = NoByte c s
FindsByte c s (some (before, behind)) = (before ++ c ∷ behind ≡ s) × NoByte c before

next-FindsByte :
    (c x : ℕ) (s : Bytes) (o : Option (Bytes × Bytes))
    → (x == c) ≡ false
    → FindsByte c s o
    → FindsByte c
        (x ∷ s)
        (elim o [ some (before, behind) ↦ some (x ∷ before, behind) | none ↦ none ])
next-FindsByte c x s none e h = (e, h)
next-FindsByte c x s (some (b, a)) e h = (ap (λ l. x ∷ l) h.0, (e, h.1))

memchr-FindsByte : (c : ℕ) (s : Bytes) → FindsByte c s (memchr c s)
memchr-FindsByte c [] = tt
memchr-FindsByte c (x ∷ s) = elim (Bool-cases (x == c)) [
  | inl e ↦ rw e (ap (λ y. y ∷ s) (sym ((==_iff x c).0 e)), tt)
  | inr e ↦ rw e (next-FindsByte c x s (memchr c s) e (memchr-FindsByte c s))
]

pub memchr-IsSearch : (c : ℕ) → IsSearch (memchr c) (c ∷ [])
memchr-IsSearch c = record {
  found = λ s b a e. (subst (FindsByte c s) e (memchr-FindsByte c s)).0;
  first = λ s b a e. NoByte-IsFree c b (subst (FindsByte c s) e (memchr-FindsByte c s)).1;
  absent = λ s e. NoByte-IsFree c s (subst (FindsByte c s) e (memchr-FindsByte c s));
}

-- `split` at a byte: the pieces with the byte behind each make up the text, or the text with the byte
-- behind it, and then the last piece is not empty. There are at most `t` and one more pieces, and the byte occurs in none of the first `t`;
-- if `t` is 0, there is no limit, and the byte occurs in none.
pub split-IsSplit : (c t : ℕ) (s : Bytes) → IsSplit (c ∷ []) t s (split s c t)
unfolding split
split-IsSplit c t s = split_from-IsSplit (memchr c) (c ∷ []) (memchr-IsSearch c) (omega arith) t s

-- `split` at a text that is not empty, with a search that finds it, does the same.
pub split_at-IsSplit :
    (memmem : Bytes → Search) (x : ℕ) (sep : Bytes) (t : ℕ) (s : Bytes)
    → IsSearch (memmem (x ∷ sep)) (x ∷ sep)
    → IsSplit (x ∷ sep) t s (split_at memmem s (x ∷ sep) t)
unfolding split_at
split_at-IsSplit memmem x sep t s h =
    split_from-IsSplit (memmem (x ∷ sep)) (x ∷ sep) h (omega arith) t s

-- A piece, and more of them with a text before each.
abbrev pub between : Bytes → Bytes → List Bytes → Bytes
between sep p [] = p
between sep p (q ∷ ps) = p ++ (sep ++ between sep q ps)

-- The text with `sub` between pieces, and the result with `to` in its place; `sub` occurs in none of
-- the first `t` pieces, and there are at most `t` more; if `t` is 0, `sub` occurs in none.
pub record IsReplaced (sub to : Bytes) (t : ℕ) (s r : Bytes) : Type 0 where
  pub piece : Bytes
  pub pieces : List Bytes
  pub text_is : between sub piece pieces ≡ s
  pub result_is : between to piece pieces ≡ r
  pub few : t ≢ 0 → length pieces ≤ t
  pub free_all : t ≡ 0 → All (IsFree sub) (piece ∷ pieces)
  pub free_first : All (IsFree sub) (take t (piece ∷ pieces))

module _ (find : Search) (sub to : Bytes) (h : IsSearch find sub) (some_sub : 0 < length sub) where
  take_one : (t : ℕ) (s : Bytes) → IsFree sub s → All (IsFree sub) (take t (s ∷ []))
  take_one zero s f = tt
  take_one (suc zero) s f = (f, tt)
  take_one (suc (suc t)) s f = (f, tt)

  take_more :
      (t : ℕ) (p : Bytes) (ps : List Bytes)
      → IsFree sub p
      → All (IsFree sub) (take (t - 1) ps)
      → All (IsFree sub) (take t (p ∷ ps))
  take_more zero p ps f k = tt
  take_more (suc t) p ps f k =
      let less : suc t - 1 ≡ t = omega arith in
      (f, subst (λ n. All (IsFree sub) (take n ps)) less k)

  stays : (t : ℕ) (s : Bytes) → IsFree sub s → IsReplaced sub to t s s
  stays t s f = record {
    piece = s;
    pieces = [];
    text_is = refl;
    result_is = refl;
    few = λ g. omega arith;
    free_all = λ g. (f, tt);
    free_first = take_one t s f;
  }

  last_one :
      (t : ℕ) (s before behind : Bytes)
      → t ≡ 1
      → find s ≡ some (before, behind)
      → IsReplaced sub to t s (before ++ (to ++ behind))
  last_one t s before behind f e = record {
    piece = before;
    pieces = behind ∷ [];
    text_is = h.found s before behind e;
    result_is = refl;
    few = λ g. omega arith;
    free_all = λ g. absurd (omega arith);
    free_first = rw f (h.first s before behind e, tt);
  }

  one_more :
      (t : ℕ) (s before behind r : Bytes)
      → t ≢ 1
      → find s ≡ some (before, behind)
      → IsReplaced sub to (t - 1) behind r
      → IsReplaced sub to t s (before ++ (to ++ r))
  one_more t s before behind r f e k = record {
    piece = before;
    pieces = k.piece ∷ k.pieces;
    text_is = ap (λ l. before ++ (sub ++ l)) k.text_is ∙ h.found s before behind e;
    result_is = ap (λ l. before ++ (to ++ l)) k.result_is;
    few = λ g. omega (arith, k.few (omega arith));
    free_all = λ g. (h.first s before behind e, k.free_all (omega arith));
    free_first = take_more t before (k.piece ∷ k.pieces) (h.first s before behind e) k.free_first;
  }

  replace_from-IsReplaced :
      (rounds t : ℕ) (s : Bytes)
      → length s ≤ rounds
      → IsReplaced sub to t s (replace_from rounds find to t s)
  unfolding replace_from
  replace_from-IsReplaced zero t [] b = stays t [] (λ b' a e.
      absurd (omega (arith, ap length e, length-append b' (sub ++ a), length-append sub a)))
  replace_from-IsReplaced zero t (x ∷ s) b = absurd (omega arith)
  replace_from-IsReplaced (suc rounds) t s b = elim (Option-cases (find s)) [
    | inl e ↦ rw (e, replace_from) (stays t s (h.absent s e))
    | inr ((before, behind), e) ↦
        rw (e, replace_from)
          (elim (Bool-cases (t == 1)) [
            | inl f ↦ rw f (last_one t s before behind (ground arith) e)
            | inr f ↦ rw f (
                one_more t s before behind (replace_from rounds find to (t - 1) behind)
                  (ground arith) e
                  (replace_from-IsReplaced rounds (t - 1) behind
                    (omega (arith, shorter find sub h some_sub s before behind e))))
          ])
  ]

-- `replace` with a search that finds the text: the places where it is found are those of the result's
-- new text, from the first on; at most `t` are replaced, or all if `t` is 0.
pub replace-IsReplaced :
    (memmem : Bytes → Search) (x : ℕ) (sub to : Bytes) (t : ℕ) (s : Bytes)
    → IsSearch (memmem (x ∷ sub)) (x ∷ sub)
    → IsReplaced (x ∷ sub) to t s (replace memmem s (x ∷ sub) to t)
unfolding replace
replace-IsReplaced memmem x sub to t s h =
    replace_from-IsReplaced (memmem (x ∷ sub)) (x ∷ sub) to h (omega arith) (length s) t s
      (omega arith)
