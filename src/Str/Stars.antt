-- ===== src/Str/Stars.antt =====
-- Why the loop of `match` may go back to the last star only: what an earlier one can still match, the
-- last one can match too.
use cocoyaxi.Base.{
  ℕ, zero, suc, ◌+◌, ◌<◌, Bool, true, false, ◌&&◌, ◌||◌, [], ◌∷◌, ◌++◌, Bytes, length, drop, All,
  ◌≡◌, ◌⊎◌, refl, sym, ap, ◌∙◌, arith, inl, inr, if◌then◌else◌,
}
use cocoyaxi.Str.Match.{is_star, fits}
use cocoyaxi.Str.Glob.{any_suffix, one, glob}

abbrev pub NoStar : Bytes → Type 0
NoStar = All (λ c. is_star c ≡ false)

-- What is found from a later position on.
abbrev pub any_later : (Bytes → Bool) → Bytes → Bool
any_later f [] = false
any_later f (x ∷ t) = any_suffix f t

or_cases : (a b : Bool) → (a || b) ≡ true → (a ≡ true) ⊎ (b ≡ true)
or_cases true b h = inl refl
or_cases false b h = inr h

and_right : (a b : Bool) → (a && b) ≡ true → b ≡ true
and_right true b h = h
and_right false b h = absurd (cc)

pub any_suffix-at :
    (f : Bytes → Bool) (t : Bytes) → any_suffix f t ≡ true → (j : ℕ) × (f (drop j t) ≡ true)
any_suffix-at f [] h = (0, h)
any_suffix-at f (x ∷ t) h = elim (or_cases (f (x ∷ t)) (any_suffix f t) h) [
  | inl e ↦ (0, e)
  | inr e ↦ let (j, found) = any_suffix-at f t e in (suc j, found)
]

or_true : (a b : Bool) → b ≡ true → (a || b) ≡ true
or_true true b h = refl
or_true false b h = h

any_suffix-drop :
    (f : Bytes → Bool) (j : ℕ) (t : Bytes) → any_suffix f (drop j t) ≡ true → any_suffix f t ≡ true
any_suffix-drop f zero t h = h
any_suffix-drop f (suc j) [] h = h
any_suffix-drop f (suc j) (x ∷ t) h = or_true (f (x ∷ t)) (any_suffix f t) (any_suffix-drop f j t h)

unstar :
    (c : ℕ) (f : Bytes → Bool) (s : Bytes)
    → is_star c ≡ false
    → (if is_star c then any_suffix f s else one c f s) ≡ true
    → one c f s ≡ true
unstar c f s e h = rw e at h

starred :
    (c : ℕ) (f : Bytes → Bool) (s : Bytes)
    → is_star c ≡ true
    → (if is_star c then any_suffix f s else one c f s) ≡ true
    → any_suffix f s ≡ true
starred c f s e h = rw e at h

and_false : (b : Bool) → (b && false) ≡ false
and_false true = refl
and_false false = refl

-- Bytes that are no stars take as many bytes of the text.
glob-drop :
    (seg p u : Bytes) → NoStar seg → glob (seg ++ p) u ≡ true → glob p (drop (length seg) u) ≡ true
glob-drop [] p u n h = h
glob-drop (c ∷ seg) p [] n h = absurd (ground arith)
glob-drop (c ∷ seg) p (x ∷ u) n h =
    glob-drop seg p u n.1
      (and_right (fits c x) (glob (seg ++ p) u) (unstar c (glob (seg ++ p)) (x ∷ u) n.0 h))

-- and a text that is shorter does not match.
pub glob-short : (seg p u : Bytes) → NoStar seg → length u < length seg → glob (seg ++ p) u ≡ false
glob-short [] p u n h = absurd (omega arith)
glob-short (c ∷ seg) p [] n h = rw (n.0) refl
glob-short (c ∷ seg) p (x ∷ u) n h =
    rw (n.0) (ap (λ b. fits c x && b) (glob-short seg p u n.1 (omega arith)) ∙ and_false (fits c x))

drop-nil : (i : ℕ) → drop {A = ℕ} i [] ≡ []
drop-nil zero = refl
drop-nil (suc i) = refl

drop-drop : (i j : ℕ) (t : Bytes) → drop i (drop j t) ≡ drop (j + i) t
drop-drop i zero t = let none_more : 0 + i ≡ i = omega arith in ap (λ k. drop k t) (sym none_more)
drop-drop i (suc j) [] = drop-nil i ∙ sym (drop-nil (suc j + i))
drop-drop i (suc j) (x ∷ t) =
    let more : suc j + i ≡ suc (j + i) = omega arith in
    drop-drop i j t ∙ ap (λ k. drop k (x ∷ t)) (sym more)

drop_both : (i j : ℕ) (t : Bytes) → drop i (drop j t) ≡ drop j (drop i t)
drop_both i j t =
    let swapped : j + i ≡ i + j = omega arith in
    drop-drop i j t ∙ ap (λ k. drop k t) swapped ∙ sym (drop-drop j i t)

drop-front : (m s : Bytes) → drop (length m) (m ++ s) ≡ s
drop-front [] s = refl
drop-front (x ∷ m) s = drop-front m s

later-at : (f : Bytes → Bool) (t : Bytes) → any_later f t ≡ true → (j : ℕ) × (f (drop j t) ≡ true)
later-at f [] h = absurd (cc)
later-at f (x ∷ t) h = let (j, found) = any_suffix-at f t h in (suc j, found)

-- The rest of the pattern starts with a star: a later match from the star before gives one from here.
pub star_absorbs :
    (seg p m s : Bytes) (c : ℕ)
    → is_star c ≡ true
    → NoStar seg
    → length m ≡ length seg
    → any_later (glob (seg ++ c ∷ p)) (m ++ s) ≡ true
    → glob (c ∷ p) s ≡ true
star_absorbs seg p m s c e n l h =
    let (j, found) = later-at (glob (seg ++ c ∷ p)) (m ++ s) h in
    let moved : drop (length seg) (drop j (m ++ s)) ≡ drop j s =
      drop_both (length seg) j (m ++ s)
      ∙ ap (drop j) (ap (λ k. drop k (m ++ s)) (sym l) ∙ drop-front m s) in
    let here = ap (glob (c ∷ p)) (sym moved) ∙ glob-drop seg (c ∷ p) (drop j (m ++ s)) n found in
    rw e (any_suffix-drop (glob p) j s (starred c (glob p) (drop j s) e here))
