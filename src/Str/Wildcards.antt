-- ===== src/Str/Wildcards.antt =====
-- `match` finds out whether the pattern matches the text.
use cocoyaxi.Base.{
  ℕ, zero, suc, ◌*◌, ◌<◌, true, false, ◌&&◌, Option, none, some, [], ◌∷◌, ◌++◌, Bytes, length,
  reverse_aux, reverse_aux_front, reverse_aux_twice, length-reverse_aux, ◌≡◌, ◌⊎◌, refl, sym, ap,
  ◌∙◌, arith, Bool-cases, inl, inr, subst,
}
use native.Mathlib.Nat.{suc-mul}
use cocoyaxi.Str.Match.{is_star, fits, match_end, match_from, is_nil, match_rest, match}
use cocoyaxi.Str.Glob.{glob, or_false, glob-nil, glob_last}
use cocoyaxi.Str.Greedy.{match_from-glob}
use cocoyaxi.Str.Since.{EndsStar, EndsStar-append}

abbrev turned : Bytes → Bytes
turned s = reverse_aux s []

abbrev StartsStar : Bytes → Type 0
StartsStar [] = ⊥
StartsStar (c ∷ p) = is_star c ≡ true

-- What the first loop leaves: a text and a pattern that match if the whole ones do.
abbrev Leaves : Bytes → Bytes → Option (Bytes × Bytes) → Type 0
Leaves s p none = glob (turned p) (turned s) ≡ false
Leaves s p (some (s', p')) =
    (glob (turned p) (turned s) ≡ glob (turned p') (turned s'))
    × ((s' ≡ []) ⊎ ((p' ≡ []) ⊎ StartsStar p'))

turned_last :
    (p s : Bytes) (c x : ℕ)
    → is_star c ≡ false
    → glob (turned (c ∷ p)) (turned (x ∷ s)) ≡ (fits c x && glob (turned p) (turned s))
turned_last p s c x e =
    ap (λ q. glob q (turned (x ∷ s))) (reverse_aux_front p (c ∷ []))
    ∙ ap (glob (turned p ++ c ∷ [])) (reverse_aux_front s (x ∷ []))
    ∙ glob_last (turned p) c (turned s) x e

next-Leaves :
    (s p : Bytes) (c x : ℕ) (o : Option (Bytes × Bytes))
    → is_star c ≡ false
    → fits c x ≡ true
    → Leaves s p o
    → Leaves (x ∷ s) (c ∷ p) o
next-Leaves s p c x none e f h = turned_last p s c x e ∙ rw f h
next-Leaves s p c x (some (s', p')) e f h = (turned_last p s c x e ∙ rw f h.0, h.1)

match_end-Leaves : (s p : Bytes) → Leaves s p (match_end s p)
match_end-Leaves [] p = (refl, inl refl)
match_end-Leaves (x ∷ s) [] = (refl, inr (inl refl))
match_end-Leaves (x ∷ s) (c ∷ p) = elim (Bool-cases (is_star c)) [
  | inl e ↦ rw e (refl, inr (inr e))
  | inr e ↦ elim (Bool-cases (fits c x)) [
    | inl f ↦ rw e (rw f (next-Leaves s p c x (match_end s p) e f (match_end-Leaves s p)))
    | inr f ↦ rw e (rw f (turned_last p s c x e ∙ rw f refl))
  ]
]

last_not_nil : (s : Bytes) (x : ℕ) → is_nil (s ++ x ∷ []) ≡ false
last_not_nil [] x = refl
last_not_nil (y ∷ s) x = refl

is_nil-turned : (s : Bytes) → is_nil (turned s) ≡ is_nil s
is_nil-turned [] = refl
is_nil-turned (x ∷ s) = ap is_nil (reverse_aux_front s (x ∷ [])) ∙ last_not_nil (turned s) x

no_text : (k : ℕ) (p : Bytes) → 0 < k → match_from k [] p none ≡ some (glob p [])
unfolding match_from
no_text zero p h = absurd (omega arith)
no_text (suc k) p h = ap some (sym (glob-nil p))

length-turned : (x : ℕ) (s : Bytes) → length (turned (x ∷ s)) ≡ suc (length s)
length-turned x s = omega (arith, length-reverse_aux s (x ∷ []))

match_rest-glob :
    (s p : Bytes)
    → ((s ≡ []) ⊎ ((p ≡ []) ⊎ StartsStar p))
    → match_rest s p ≡ some (glob (turned p) (turned s))
match_rest-glob s [] h = ap some (sym (is_nil-turned s))
match_rest-glob [] (c ∷ p) h =
    no_text (suc zero * suc (suc (length p))) (turned (c ∷ p))
      (omega (arith, suc-mul zero (suc (suc (length p)))))
match_rest-glob (x ∷ s) (c ∷ p) (inl h) = absurd (cc)
match_rest-glob (x ∷ s) (c ∷ p) (inr (inl h)) = absurd (cc)
match_rest-glob (x ∷ s) (c ∷ p) (inr (inr h)) =
    let n = suc (suc (length p)) in
    let stars : EndsStar (turned (c ∷ p)) =
      subst EndsStar (sym (reverse_aux_front p (c ∷ []))) (EndsStar-append (turned p) (c ∷ []) h) in
    match_from-glob n (suc (suc (length s)) * n) (turned (x ∷ s)) (turned (c ∷ p)) none stars
      (omega (arith, length-reverse_aux p (c ∷ []))) tt
      (omega (
        arith,
        length-reverse_aux p (c ∷ []),
        suc-mul (suc (length s)) n,
        ap (λ (k : ℕ). k * n) (length-turned x s),
      ))
    ∙ ap some (or_false (glob (turned (c ∷ p)) (turned (x ∷ s))))

ended :
    (s p : Bytes) (o : Option (Bytes × Bytes))
    → Leaves s p o
    → (elim o [ none ↦ some false | some (s', p') ↦ match_rest s' p' ])
      ≡ some (glob (turned p) (turned s))
ended s p none h = ap some (sym h)
ended s p (some (s', p')) h = match_rest-glob s' p' h.1 ∙ ap some (sym h.0)

-- `match` returns, and says whether the pattern matches the text, where a star matches any text, a
-- question mark any byte, and every other byte itself.
pub match-glob : (s p : Bytes) → match s p ≡ some (glob p s)
unfolding match
match-glob s p =
    ended (turned s) (turned p) (match_end (turned s) (turned p))
      (match_end-Leaves (turned s) (turned p))
    ∙ ap some (
        ap (λ q. glob q (turned (turned s))) (reverse_aux_twice p)
        ∙ ap (glob p) (reverse_aux_twice s))
