-- ===== src/Str/Match.antt =====
-- `str::match` of src/fastring.cc: a star in the pattern stands for any text, a question mark for any
-- byte.
use cocoyaxi.Base.{
  ℕ, zero, suc, ◌*◌, Bool, true, false, ◌&&◌, ◌||◌, Option, none, some, [], ◌∷◌, ◌==◌,
  if◌then◌else◌, Bytes, length, reverse_aux,
}

abbrev pub is_star : ℕ → Bool
is_star c = c == b'*'

-- `c == s[i] || c == '?'`.
abbrev pub fits : ℕ → ℕ → Bool
fits c x = c == x || c == b'?'

-- The first loop runs from the ends of the text and the pattern, which are reversed here: `none` if
-- bytes differ, or what is left of both.
abbrev pub match_end : Bytes → Bytes → Option (Bytes × Bytes)
match_end [] p = some ([], p)
match_end (x ∷ s) [] = some (x ∷ s, [])
match_end (x ∷ s) (c ∷ p) =
    if is_star c then some (x ∷ s, c ∷ p) else if fits c x then match_end s p else none

-- The last loop: only stars are left.
abbrev pub all_stars : Bytes → Bool
all_stars [] = true
all_stars (c ∷ p) = is_star c && all_stars p

-- Where the loop goes on after a mismatch: `if (sl != -1 && sl + 1 < n)`, then `++sl`. What is kept is
-- the text at `sl` and the pattern at `pl`, if a star was met.
abbrev pub retry : Option (Bytes × Bytes) → Option (Bytes × Bytes)
retry none = none
retry (some ([], q)) = none
retry (some (y ∷ [], q)) = none
retry (some (y ∷ z ∷ t, q)) = some (z ∷ t, q)

-- The second loop, on what is left of the text and of the pattern; `none` if it has no round left.
unfoldable pub match_from : ℕ → Bytes → Bytes → Option (Bytes × Bytes) → Option Bool
match_from zero s p back = none
match_from (suc rounds) [] p back = some (all_stars p)
match_from (suc rounds) (x ∷ s) [] back = some true
match_from (suc rounds) (x ∷ s) (c ∷ p) back =
    let starred = match_from rounds (x ∷ s) p (some (x ∷ s, p)) in
    let stepped = match_from rounds s p back in
    let retried : Option Bool = elim (retry back) [
      | some (t, q) ↦ match_from rounds t q (some (t, q))
      | none ↦ some false
    ] in
    if is_star c then starred else if fits c x then stepped else retried

abbrev pub is_nil : Bytes → Bool
is_nil [] = true
is_nil (x ∷ s) = false

-- As many rounds as there are positions in the text, for each in the pattern.
abbrev pub match_rest : Bytes → Bytes → Option Bool
match_rest s [] = some (is_nil s)
match_rest s (c ∷ p) =
    match_from (suc (length s) * suc (length (c ∷ p))) (reverse_aux s []) (reverse_aux (c ∷ p) [])
      none

unfoldable pub match : Bytes → Bytes → Option Bool
match s p = elim (match_end (reverse_aux s []) (reverse_aux p [])) [
  | none ↦ some false
  | some (s', p') ↦ match_rest s' p'
]
