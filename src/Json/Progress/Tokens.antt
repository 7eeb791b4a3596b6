-- ===== src/Json/Progress/Tokens.antt =====
-- Every token of the parser that is read leaves fewer bytes.
use cocoyaxi.Base.{
  ℕ, zero, suc, ◌-◌, ◌≤◌, ◌<◌, Option, none, some, [], ◌∷◌, ◌==◌, Bytes, length, tail, ◌≡◌, refl,
  arith, Bool-cases, Option-cases, inl, inr, reverse_aux,
}
use cocoyaxi.Json.Value.{FloatText}
use cocoyaxi.Json.Scan.{
  Token, token, endless, memchr, span, find_slash, find_quote, parse_hex, parse_low,
  join_surrogates, parse_unicode, escape_step, requote, string_loop, string_next, string_first,
  parse_string, parse_key, parse_false, parse_true, parse_null,
}
use cocoyaxi.Json.Machine.{parse_plain}
use cocoyaxi.Json.Progress.Numbers.{
  Shorter, length-tail, length-drop-le, memchr-le, parse_number-lt,
}

parse_hex-lt : (b : Bytes) → Shorter (length b) (parse_hex b)
unfolding parse_hex
parse_hex-lt (b0 ∷ b1 ∷ b2 ∷ b3 ∷ bs) = ground arith
parse_hex-lt _ = tt

parse_low-lt : (u : ℕ) (b : Bytes) → Shorter (length b) (parse_low u b)
unfolding parse_low join_surrogates
parse_low-lt u (d ∷ slash ∷ letter ∷ bs) = ground (arith, parse_hex-lt bs)
parse_low-lt u _ = tt

abbrev pub ShorterBy : ℕ → Option (Bytes × Bytes) → Type 0
ShorterBy n none = Unit
ShorterBy n (some (b, s)) = length b < n

parse_unicode-lt : (b s : Bytes) → ShorterBy (length b) (parse_unicode b s)
unfolding parse_unicode
parse_unicode-lt b s = elim (Option-cases (parse_hex b)) [
  | inl e ↦ rw e tt
  | inr ((u, b1), e) ↦ rw e (ground (arith, rw e at (parse_hex-lt b), parse_low-lt u b1))
]

pub escape_step-le : (b s : Bytes) → ShorterBy (suc (length b)) (escape_step b s)
unfolding escape_step
escape_step-le [] s = tt
escape_step-le (x ∷ bs) s = ground (arith, parse_unicode-lt bs s)

requote-le :
    (b p p' : Bytes)
    → requote b p ≡ some p'
    → 0 < length p
    → (length p' ≤ length b) × (0 < length p')
unfolding requote find_quote
requote-le b p p' e h = ground (arith, memchr-le b'"' b p')

pub find_slash-le : (b p q : Bytes) → find_slash b p ≡ some q → length q ≤ length b
unfolding find_slash
find_slash-le b p q e = elim (Option-cases (memchr b'\\' (span b p))) [
  | inl no_slash ↦ ground arith
  | inr (r, found) ↦ ground (arith, length-drop-le (length (span b p) - length r) b)
]

length-tail-lt : (p : Bytes) → 0 < length p → length (tail p) < length p
length-tail-lt [] h = elim h [ ]
length-tail-lt (c ∷ cs) h = omega arith

-- A token ends, and if there is one, it leaves fewer than `n` bytes.
abbrev pub Takes : ℕ → Token → Type 0
Takes n endless = ⊥
Takes n (token o) = Shorter n o

string_next-lt :
    (again : Bytes → Bytes → Bytes → Bytes → Token) (b p s : Bytes) (o : Option Bytes) (n : ℕ)
    → length p ≤ n
    → 0 < length p
    → ((q : Bytes) → o ≡ some q → Takes n (again b p q s))
    → Takes n (string_next again b p s o)
unfolding string_next
string_next-lt again b p s none n h pos later = omega (arith, length-tail-lt p pos)
string_next-lt again b p s (some q) n h pos later = later q refl

shorter_tail : (b : Bytes) → length (tail b) ≡ length b - 1
shorter_tail [] = omega arith
shorter_tail (c ∷ cs) = omega arith

-- The bytes behind an escape are fewer by two than from its backslash on.
pub behind_escape :
    (q s q' s' : Bytes) (n : ℕ)
    → escape_step (tail q) s ≡ some (q', s')
    → length q < suc n
    → length (tail q') < n
unfolding escape_step
behind_escape [] s q' s' n e h = cc
behind_escape (x ∷ []) s q' s' n e h = cc
behind_escape (x ∷ y ∷ q) s q' s' n e h =
    omega (arith, shorter_tail q', rw e at (escape_step-le (y ∷ q) s))

string_loop-lt :
    (f : ℕ) (b p q s : Bytes) (n : ℕ)
    → length q ≤ n
    → length q < f
    → 0 < length p
    → Takes n (string_loop f b p q s)
unfolding string_loop
string_loop-lt zero b p q s n hq hf h = absurd (omega arith)
string_loop-lt (suc f) b p q s n hq hf h =
    elim (Option-cases (escape_step (tail q) (reverse_aux (span b q) s))) [
      | inl e ↦ rw e tt
      | inr ((q', s'), e) ↦ rw e (elim (Option-cases (requote (tail q') p)) [
        | inl e' ↦ rw e' tt
        | inr (p', e') ↦ rw e' (
            let (le, pos) = requote-le (tail q') p p' e' h in
            let escaped = rw e at (escape_step-le (tail q) (reverse_aux (span b q) s)) in
            let bound : length (tail q') ≤ n =
              omega (arith, length-tail q, length-tail q', escaped) in
            let fewer : length (tail q') < f =
              behind_escape q (reverse_aux (span b q) s) q' s' f e hf in
            string_next-lt (string_loop f) (tail q') p' s' (find_slash (tail q') p') n (omega arith)
              pos
              λ q'' e''.
                string_loop-lt f (tail q') p' q'' s' n
                  (omega (arith, find_slash-le (tail q') p' q'' e''))
                  (omega (arith, find_slash-le (tail q') p' q'' e'', fewer)) pos)
      ])
    ]

string_first-lt :
    (b p : Bytes) (o : Option Bytes)
    → length p ≤ length b
    → 0 < length p
    → ((q : Bytes) → o ≡ some q → length q ≤ length b)
    → Takes (suc (length b)) (string_first b p o)
unfolding string_first
string_first-lt b p none h pos le = omega (arith, length-tail-lt p pos)
string_first-lt b p (some q) h pos le =
    string_loop-lt (suc (length b)) b p q [] (suc (length b)) (omega (arith, le q refl))
      (omega (arith, le q refl)) pos

parse_string-lt : (c : ℕ) (b : Bytes) → Takes (suc (length b)) (parse_string (c ∷ b))
unfolding parse_string find_quote
parse_string-lt c b = elim (Option-cases (memchr b'"' b)) [
  | inl e ↦ rw e tt
  | inr (p, e) ↦ rw e (
      let (le, pos) = memchr-le b'"' b p e in
      string_first-lt b p (find_slash b p) le pos (find_slash-le b p))
]

pub parse_key-lt : (b : Bytes) → Shorter (length b) (parse_key b)
unfolding parse_key
parse_key-lt [] = tt
parse_key-lt (c ∷ b) = elim (Bool-cases (c == b'"')) [
  | inr no_quote ↦ rw no_quote tt
  | inl quote ↦ rw quote (elim (Option-cases (memchr b'"' b)) [
    | inl e ↦ rw e tt
    | inr (p, e) ↦ rw e (omega (arith, memchr-le b'"' b p e, length-tail p))
  ])
]

parse_false-lt : (b : Bytes) → Shorter (length b) (parse_false b)
unfolding parse_false
parse_false-lt (b0 ∷ b1 ∷ b2 ∷ b3 ∷ b4 ∷ bs) = ground arith
parse_false-lt _ = tt

parse_true-lt : (b : Bytes) → Shorter (length b) (parse_true b)
unfolding parse_true
parse_true-lt (b0 ∷ b1 ∷ b2 ∷ b3 ∷ bs) = ground arith
parse_true-lt _ = tt

parse_null-lt : (b : Bytes) → Shorter (length b) (parse_null b)
unfolding parse_null
parse_null-lt (b0 ∷ b1 ∷ b2 ∷ b3 ∷ bs) = ground arith
parse_null-lt _ = tt

-- A plain value takes a byte at least.
pub parse_plain-lt :
    (k : FloatText) (c : ℕ) (b : Bytes) → Takes (suc (length b)) (parse_plain k c (c ∷ b))
unfolding parse_plain
parse_plain-lt k c b = ground (
  arith,
  parse_string-lt c b,
  parse_false-lt (c ∷ b),
  parse_true-lt (c ∷ b),
  parse_null-lt (c ∷ b),
  parse_number-lt k (c ∷ b),
)
