-- ===== src/Json/Escapes.antt =====
-- The text of a string: the unrolled search and the copying loop against a byte by byte description.
use cocoyaxi.Base.{
  ℕ, zero, suc, ◌<◌, false, [], ◌∷◌, ◌++◌, ◌==◌, if◌then◌else◌, Bytes, length, reverse_aux, ◌≡◌,
  refl, sym, ap, ◌∙◌, arith, Bool-cases, inl, inr, ◌⊎◌, reverse_aux-append,
}
use cocoyaxi.Json.Tables.{e2s}
use cocoyaxi.Json.Print.{
  Found, find_slow, probe, find_four, find_escapse, escape_next, escape_onto, print_string,
}

-- A byte with no escape stands for itself, any other is a backslash and its letter.
unfoldable pub escaped : Bytes → Bytes
escaped [] = []
escaped (c ∷ cs) = let more = escaped cs in if e2s c == 0 then c ∷ more else b'\\' ∷ e2s c ∷ more

find_four-slow : (s : Bytes) → find_four s ≡ find_slow s
unfolding find_four probe find_slow
find_four-slow (b0 ∷ b1 ∷ b2 ∷ b3 ∷ bs) = refl
find_four-slow _ = refl

probe-slow : (b : ℕ) (bs : Bytes) → probe b bs (find_slow bs) ≡ find_slow (b ∷ bs)
unfolding probe find_slow
probe-slow b bs = refl

-- The search that reads eight and four bytes at once finds what the plain loop finds.
pub find_escapse-slow : (s : Bytes) → find_escapse s ≡ find_slow s
unfolding find_escapse
find_escapse-slow (b0 ∷ b1 ∷ b2 ∷ b3 ∷ b4 ∷ b5 ∷ b6 ∷ b7 ∷ bs) =
    simp (find_escapse-slow bs, probe-slow)
find_escapse-slow s = find_four-slow s

-- What the plain loop finds, in terms of the escaped text.
find_slow-cases :
    (s : Bytes)
    → let f : Found = find_slow s in
      ((f.rest ≡ []) × (escaped s ≡ f.before))
      ⊎ ((p : ℕ) × (after : Bytes) × (f.rest ≡ p ∷ after)
          × (length after < length s)
          × (escaped s ≡ f.before ++ (b'\\' ∷ f.letter ∷ escaped after)))
unfolding find_slow escaped
find_slow-cases [] = inl (refl, refl)
find_slow-cases (c ∷ cs) = elim (Bool-cases (e2s c == 0)) [
  | inr special ↦ rw special (inr (c, cs, refl, omega arith, refl))
  | inl plain ↦ rw plain (elim (find_slow-cases cs) [
    | inl (e, e') ↦ inl (e, ap (◌∷◌ c) e')
    | inr (p, after, e, h, e') ↦ inr (p, after, e, omega arith, ap (◌∷◌ c) e')
  ])
]

-- With more rounds than bytes, the loop that copies the runs between two escapes appends the text
-- in which each byte is escaped by itself.
pub escape_onto-escaped :
    (rounds : ℕ) (s fs : Bytes)
    → length s < rounds
    → escape_onto rounds s fs ≡ reverse_aux (escaped s) fs
unfolding escape_onto escape_next
escape_onto-escaped zero s fs h = absurd (omega arith)
escape_onto-escaped (suc rounds) s fs h = rw (find_escapse-slow s) (elim (find_slow-cases s) [
  | inl (e, e') ↦ rw (e, e') refl
  | inr (p, after, e, less, e') ↦
      rw (e, e')
        (escape_onto-escaped rounds after _ (omega arith)
          ∙ sym (reverse_aux-append (find_slow s).before _ fs))
])

-- A whole string in quotes, where it is not cut.
pub print_string-escaped :
    (s fs : Bytes) → print_string false s fs ≡ b'"' ∷ reverse_aux (escaped s) (b'"' ∷ fs)
unfolding print_string
print_string-escaped s fs =
    ap (◌∷◌ b'"') (escape_onto-escaped (suc (length s)) s (b'"' ∷ fs) (omega arith))
