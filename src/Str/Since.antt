-- ===== src/Str/Since.antt =====
-- The bytes of the text and of the pattern since the last star that `match` met, and what an earlier star can still match.
use cocoyaxi.Base.{
  ℕ, suc, ◌<◌, Bool, true, false, ◌||◌, Option, none, some, [], ◌∷◌, ◌++◌, append-nil, append_assoc,
  Bytes, length, length-append, ◌≡◌, ◌⊎◌, refl, sym, ap, ◌∙◌, arith, Bool-cases, inl, inr, subst,
}
use cocoyaxi.Str.Match.{is_star}
use cocoyaxi.Str.Glob.{any_suffix, glob, or_false}
use cocoyaxi.Str.Stars.{NoStar, any_later, glob-short, star_absorbs}

-- What going back to the last star can still match.
abbrev pub later : Option (Bytes × Bytes) → Bool
later none = false
later (some (t, q)) = any_later (glob q) t

abbrev pub EndsStar : Bytes → Type 0
EndsStar [] = ⊥
EndsStar (c ∷ []) = is_star c ≡ true
EndsStar (c ∷ d ∷ p) = EndsStar (d ∷ p)

-- The bytes of the text and of the pattern since the last star.
pub record Since (s p t q : Bytes) : Type 0 where
  pub seg : Bytes
  pub m : Bytes
  pub pattern_is : q ≡ seg ++ p
  pub text_is : t ≡ m ++ s
  pub aligned : length m ≡ length seg
  pub no_star : NoStar seg
  pub ends : EndsStar p ⊎ ((p ≡ []) × (seg ≡ []))

abbrev pub Backs : Bytes → Bytes → Option (Bytes × Bytes) → Type 0
Backs s p none = EndsStar p
Backs s p (some (t, q)) = Since s p t q

-- How many positions of the text are left to go back to.
abbrev pub room : Bytes → Option (Bytes × Bytes) → ℕ
room s none = length s
room s (some (t, q)) = length t

pub EndsStar-append : (seg p : Bytes) → EndsStar p → EndsStar (seg ++ p)
EndsStar-append [] p h = h
EndsStar-append (c ∷ []) [] h = elim h [ ]
EndsStar-append (c ∷ []) (d ∷ p) h = h
EndsStar-append (c ∷ d ∷ seg) p h = EndsStar-append (d ∷ seg) p h

EndsStar-tail : (c : ℕ) (p : Bytes) → is_star c ≡ false → EndsStar (c ∷ p) → EndsStar p
EndsStar-tail c [] e h = absurd (cc)
EndsStar-tail c (d ∷ p) e h = h

NoStar-append : (seg : Bytes) (c : ℕ) → NoStar seg → is_star c ≡ false → NoStar (seg ++ c ∷ [])
NoStar-append [] c n e = (e, tt)
NoStar-append (d ∷ seg) c n e = (n.0, NoStar-append seg c n.1 e)

-- The last star was just met.
pub fresh : (s p : Bytes) → (EndsStar p ⊎ ((p ≡ []) × (◌≡◌ {A = Bytes} [] []))) → Since s p s p
fresh s p h = record {
  seg = [];
  m = [];
  pattern_is = refl;
  text_is = refl;
  aligned = refl;
  no_star = tt;
  ends = h;
}

pub after_star :
    (c : ℕ) (p : Bytes) → EndsStar (c ∷ p) → (EndsStar p ⊎ ((p ≡ []) × (◌≡◌ {A = Bytes} [] [])))
after_star c [] h = inr (refl, refl)
after_star c (d ∷ p) h = inl h

pub cons_ends :
    (c : ℕ) (p seg : Bytes) → (EndsStar (c ∷ p) ⊎ (((c ∷ p) ≡ []) × (seg ≡ []))) → EndsStar (c ∷ p)
cons_ends c p seg (inl h) = h
cons_ends c p seg (inr h) = absurd (cc)

-- One more byte of the text fits.
step-Since :
    (x c : ℕ) (s p t q : Bytes) → is_star c ≡ false → Since (x ∷ s) (c ∷ p) t q → Since s p t q
step-Since x c s p t q e h = record {
  seg = h.seg ++ c ∷ [];
  m = h.m ++ x ∷ [];
  pattern_is = h.pattern_is ∙ sym (append_assoc h.seg (c ∷ []) p);
  text_is = h.text_is ∙ sym (append_assoc h.m (x ∷ []) s);
  aligned = omega (arith, length-append h.m (x ∷ []), length-append h.seg (c ∷ []), h.aligned);
  no_star = NoStar-append h.seg c h.no_star e;
  ends = inl (EndsStar-tail c p e (cons_ends c p h.seg h.ends));
}

pub step-Backs :
    (x c : ℕ) (s p : Bytes) (b : Option (Bytes × Bytes))
    → is_star c ≡ false
    → Backs (x ∷ s) (c ∷ p) b
    → Backs s p b
step-Backs x c s p none e h = EndsStar-tail c p e h
step-Backs x c s p (some (t, q)) e h = step-Since x c s p t q e h

pub Backs-ends :
    (s : Bytes) (c : ℕ) (p : Bytes) (b : Option (Bytes × Bytes))
    → Backs s (c ∷ p) b
    → EndsStar (c ∷ p)
Backs-ends s c p none h = h
Backs-ends s c p (some (t, q)) h = cons_ends c p h.seg h.ends

-- At the end of the text, an earlier star is of no use.
any_suffix-short :
    (seg p t : Bytes) → NoStar seg → length t < length seg → any_suffix (glob (seg ++ p)) t ≡ false
any_suffix-short seg p [] n h = glob-short seg p [] n h
any_suffix-short seg p (x ∷ t) n h =
    rw (glob-short seg p (x ∷ t) n h) (any_suffix-short seg p t n (omega arith))

pub later_at_end : (p : Bytes) (b : Option (Bytes × Bytes)) → Backs [] p b → later b ≡ false
later_at_end p none h = refl
later_at_end p (some ([], q)) h = refl
later_at_end p (some (y ∷ t, q)) h =
    let few : suc (length t) ≡ length h.seg = ap length (h.text_is ∙ append-nil h.m) ∙ h.aligned in
    rw (h.pattern_is) (any_suffix-short h.seg p t h.no_star (omega arith))

-- The pattern is used up: it ended in a star, which matches the rest.
any_suffix-is_nil : (t : Bytes) → any_suffix (glob []) t ≡ true
any_suffix-is_nil [] = refl
any_suffix-is_nil (x ∷ t) = any_suffix-is_nil t

later-is_nil : (m : Bytes) (x : ℕ) (s : Bytes) → any_later (glob []) (m ++ x ∷ s) ≡ true
later-is_nil [] x s = any_suffix-is_nil s
later-is_nil (y ∷ m) x s = any_suffix-is_nil (m ++ x ∷ s)

pub later_used_up :
    (x : ℕ) (s : Bytes) (b : Option (Bytes × Bytes)) → Backs (x ∷ s) [] b → later b ≡ true
later_used_up x s none h = elim h [ ]
later_used_up x s (some (t, q)) h = elim h.ends [
  | inl e ↦ elim e [ ]
  | inr e ↦ rw (h.pattern_is) (rw (e.1) (rw (h.text_is) (later-is_nil h.m x s)))
]

or_absorbs : (a b : Bool) → a ≡ true → (a || b) ≡ a
or_absorbs true b h = refl
or_absorbs false b h = absurd (cc)

-- A star: going back to the star before is not needed.
pub later_absorbed :
    (c : ℕ) (s p : Bytes) (b : Option (Bytes × Bytes))
    → is_star c ≡ true
    → Backs s (c ∷ p) b
    → (glob (c ∷ p) s || later b) ≡ glob (c ∷ p) s
later_absorbed c s p none e h = or_false (glob (c ∷ p) s)
later_absorbed c s p (some (t, q)) e h = elim (Bool-cases (later (some (t, q)))) [
  | inl k ↦ or_absorbs (glob (c ∷ p) s) (later (some (t, q))) (
      star_absorbs h.seg p h.m s c e h.no_star h.aligned (
        subst (λ t'. any_later (glob (h.seg ++ c ∷ p)) t' ≡ true) h.text_is
          (subst (λ q'. any_later (glob q') t ≡ true) h.pattern_is k)))
  | inr k ↦ rw k (or_false (glob (c ∷ p) s))
]
