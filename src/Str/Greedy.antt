-- ===== src/Str/Greedy.antt =====
-- The second loop of `match`, which goes back to the last star.
use cocoyaxi.Base.{
  ℕ, zero, suc, ◌+◌, ◌*◌, ◌<◌, ◌≤◌, Bool, false, ◌||◌, Option, none, some, [], ◌∷◌, ◌++◌, Bytes,
  length, length-append, ◌≡◌, ◌≢◌, refl, sym, ap, ◌∙◌, arith, Bool-cases, inl, inr, subst,
}
use native.Mathlib.Nat.{suc-mul, mul-le-mul_right}
use cocoyaxi.Str.Match.{is_star, fits, retry, match_from}
use cocoyaxi.Str.Glob.{glob, or_false, glob-nil}
use cocoyaxi.Str.Stars.{NoStar}
use cocoyaxi.Str.Since.{
  later, EndsStar, Backs, room, EndsStar-append, fresh, after_star, cons_ends, step-Backs,
  Backs-ends, later_at_end, later_used_up, later_absorbed,
}

-- The pattern at the star is shorter than `n`.
abbrev pub IsShort : ℕ → Option (Bytes × Bytes) → Type 0
IsShort n none = Unit
IsShort n (some (t, q)) = length q < n

room-bound : (s p : Bytes) (b : Option (Bytes × Bytes)) → Backs s p b → length s ≤ room s b
room-bound s p none h = omega arith
room-bound s p (some (t, q)) h = omega (arith, ap length h.text_is, length-append h.m s)

room-step : (x : ℕ) (s : Bytes) (b : Option (Bytes × Bytes)) → room s b ≤ room (x ∷ s) b
room-step x s none = omega arith
room-step x s (some (t, q)) = omega arith

since_nonempty : (x : ℕ) (s m : Bytes) → [] ≢ m ++ x ∷ s
since_nonempty x s [] e = absurd (omega (arith, ap length e))
since_nonempty x s (y ∷ m) e = absurd (omega (arith, ap length e))

glob_no_text :
    (c : ℕ) (p seg : Bytes) → is_star c ≡ false → NoStar seg → glob (seg ++ c ∷ p) [] ≡ false
glob_no_text c p [] e n = rw e refl
glob_no_text c p (d ∷ seg) e n = rw (n.0) refl

abbrev go_on : ℕ → Option (Bytes × Bytes) → Option Bool
go_on k b = elim (retry b) [ some (t, q) ↦ match_from k t q (some (t, q)) | none ↦ some false ]

-- After a mismatch, the loop goes back to the last star or, with no text behind it, has failed.
missed :
    (n k x c : ℕ) (s p : Bytes) (b : Option (Bytes × Bytes))
    → is_star c ≡ false
    → Backs (x ∷ s) (c ∷ p) b
    → IsShort n b
    → room (x ∷ s) b * n + length (c ∷ p) < suc k
    → ((t q : Bytes)
        → Backs t q (some (t, q))
        → length q < n
        → length t * n + length q < k
        → match_from k t q (some (t, q)) ≡ some (glob q t || later (some (t, q))))
    → go_on k b ≡ some (later b)
missed n k x c s p none e h w r again = refl
missed n k x c s p (some ([], q)) e h w r again = absurd (since_nonempty x s h.m h.text_is)
missed n k x c s p (some (y ∷ [], q)) e h w r again =
    ap some (sym (ap (λ q'. glob q' []) h.pattern_is ∙ glob_no_text c p h.seg e h.no_star))
missed n k x c s p (some (y ∷ z ∷ t, q)) e h w r again =
    let stars = EndsStar-append h.seg (c ∷ p) (cons_ends c p h.seg h.ends) in
    again (z ∷ t) q (fresh (z ∷ t) q (inl (subst EndsStar (sym h.pattern_is) stars))) w
      (omega (arith, suc-mul (suc (length t)) n))

-- The loop has enough rounds, and says whether the rest matches or a later text from the last star.
pub match_from-glob :
    (n rounds : ℕ) (s p : Bytes) (b : Option (Bytes × Bytes))
    → Backs s p b
    → length p < n
    → IsShort n b
    → room s b * n + length p < rounds
    → match_from rounds s p b ≡ some (glob p s || later b)
unfolding match_from
match_from-glob n zero s p b h l w r = absurd (omega arith)
match_from-glob n (suc k) [] p b h l w r =
    ap some (sym (rw (later_at_end p b h) (or_false (glob p []) ∙ glob-nil p)))
match_from-glob n (suc k) (x ∷ s) [] b h l w r = ap some (sym (later_used_up x s b h))
match_from-glob n (suc k) (x ∷ s) (c ∷ p) b h l w r = elim (Bool-cases (is_star c)) [
  | inl e ↦
      let same = later_absorbed c (x ∷ s) p b e h in
      let again =
        match_from-glob n k (x ∷ s) p (some (x ∷ s, p))
          (fresh (x ∷ s) p (after_star c p (Backs-ends (x ∷ s) c p b h))) (omega arith)
          (omega arith) (omega (arith, mul-le-mul_right n (room-bound (x ∷ s) (c ∷ p) b h))) in
      subst (λ v. match_from (suc k) (x ∷ s) (c ∷ p) b ≡ some v) (sym same) (rw e again)
  | inr e ↦ elim (Bool-cases (fits c x)) [
    | inl f ↦ rw e (
        rw f (
          match_from-glob n k s p b (step-Backs x c s p b e h) (omega arith) w
            (omega (arith, mul-le-mul_right n (room-step x s b)))))
    | inr f ↦ rw e (
        rw f (
          missed n k x c s p b e h w r
            (λ (t q : Bytes) (h' : Backs t q (some (t, q))) (l' : length q < n)
                (r' : length t * n + length q < k).
              match_from-glob n k t q (some (t, q)) h' l' l' r')))
  ]
]
