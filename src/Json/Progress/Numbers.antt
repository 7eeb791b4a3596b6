-- ===== src/Json/Progress/Numbers.antt =====
-- White space and numbers take bytes of the input (src/json.cc).
use Prim.Native.Nat.{Ordering}
use cocoyaxi.Base.{
  ℕ, zero, suc, ◌≤◌, ◌<◌, Bool, true, false, Option, none, some, [], ◌∷◌, ◌==◌, Bytes,
  if◌then◌else◌, length, tail, drop, ◌≡◌, arith, Bool-cases, Option-cases, inl, inr,
}
use cocoyaxi.Json.Value.{FloatText}
use cocoyaxi.Json.Scan.{memchr, span}
use cocoyaxi.Json.Number.{
  skip_digits, some_digits, skip_sign, scan_exponent, scan_fraction, scan_digits, scan_number,
  number_value, to_double, limited_value, memcmp, is_minus, min_text, max_text, parse_number,
}
use cocoyaxi.Json.Machine.{skip_white_space}

-- A result, if there is one, leaves fewer than `n` bytes.
abbrev pub Shorter {ℓ} : {A : Type ℓ} → ℕ → Option (A × Bytes) → Type 0
Shorter n none = Unit
Shorter n (some (a, b)) = length b < n

abbrev ShorterTo : ℕ → Option Bytes → Type 0
ShorterTo n none = Unit
ShorterTo n (some b) = length b < n

pub skip_white_space-le : (b : Bytes) → length (skip_white_space b) ≤ length b
unfolding skip_white_space
skip_white_space-le [] = omega arith
skip_white_space-le (c ∷ cs) = ground (arith, skip_white_space-le cs)

pub length-tail : (b : Bytes) → length (tail b) ≤ length b
length-tail [] = omega arith
length-tail (c ∷ cs) = omega arith

pub length-drop-le : (n : ℕ) (b : Bytes) → length (drop n b) ≤ length b
length-drop-le zero b = omega arith
length-drop-le (suc n) [] = omega arith
length-drop-le (suc n) (c ∷ cs) = omega (arith, length-drop-le n cs)

pub memchr-le : (c : ℕ) (b p : Bytes) → memchr c b ≡ some p → (length p ≤ length b) × (0 < length p)
unfolding memchr
memchr-le c [] p e = cc
memchr-le c (x ∷ xs) p e = ground (arith, memchr-le c xs p)

skip_digits-le : (b : Bytes) → length (skip_digits b) ≤ length b
unfolding skip_digits
skip_digits-le [] = omega arith
skip_digits-le (c ∷ cs) = ground (arith, skip_digits-le cs)

some_digits-lt : (b : Bytes) → ShorterTo (length b) (some_digits b)
unfolding some_digits
some_digits-lt [] = tt
some_digits-lt (c ∷ cs) = ground (arith, skip_digits-le cs)

skip_sign-le : (b : Bytes) → length (skip_sign b) ≤ length b
unfolding skip_sign
skip_sign-le [] = omega arith
skip_sign-le (c ∷ cs) = ground arith

scan_exponent-le : (d : Bool) (b : Bytes) → Shorter (suc (length b)) (scan_exponent d b)
unfolding scan_exponent
scan_exponent-le d [] = omega arith
scan_exponent-le d (c ∷ cs) = ground (arith, some_digits-lt (skip_sign cs), skip_sign-le cs)

scan_fraction-le : (b : Bytes) → Shorter (suc (length b)) (scan_fraction b)
unfolding scan_fraction
scan_fraction-le [] = omega arith
scan_fraction-le (c ∷ cs) = elim (Bool-cases (c == b'.')) [
  | inr no_point ↦ rw no_point (scan_exponent-le false (c ∷ cs))
  | inl point ↦ rw point (elim (Option-cases (some_digits cs)) [
    | inl e ↦ rw e tt
    | inr (p, e) ↦ rw e (fraction p (rw e at (some_digits-lt cs)))
  ])
]
  where
    fraction :
        (p : Bytes) → length p < length cs → Shorter (suc (length (c ∷ cs))) (scan_exponent true p)
    fraction p h = ground (arith, scan_exponent-le true p)

scan_digits-lt : (b : Bytes) → Shorter (length b) (scan_digits b)
unfolding scan_digits
scan_digits-lt [] = tt
scan_digits-lt (c ∷ cs) =
    ground (arith, scan_fraction-le cs, scan_fraction-le (skip_digits cs), skip_digits-le cs)

scan_number-lt : (b : Bytes) → Shorter (length b) (scan_number b)
unfolding scan_number
scan_number-lt [] = tt
scan_number-lt (c ∷ cs) = ground (arith, scan_digits-lt cs, scan_digits-lt (c ∷ cs))

limited_value-lt :
    (k : FloatText) (b p text : Bytes) (o : Ordering) (n : ℕ)
    → length p < n
    → Shorter n (limited_value k b p text o)
unfolding limited_value to_double
limited_value-lt k b p text Ordering.lt n h = h
limited_value-lt k b p text Ordering.eq n h = h
limited_value-lt k b p text Ordering.gt n h = ground arith

number_value-lt :
    (k : FloatText) (d : Bool) (b p : Bytes) (n : ℕ)
    → length p < n
    → Shorter n (number_value k d b p)
unfolding number_value to_double
number_value-lt k d b p n h = ground (
  arith,
  limited_value-lt k b p (span b p)
      (memcmp (span b p) (if is_minus (span b p) then min_text else max_text)) n h,
)

pub parse_number-lt : (k : FloatText) (b : Bytes) → Shorter (length b) (parse_number k b)
unfolding parse_number
parse_number-lt k b = elim (Option-cases (scan_number b)) [
  | inl e ↦ rw e tt
  | inr ((d, p), e) ↦ rw e (number_value-lt k d b p (length b) (rw e at (scan_number-lt b)))
]
