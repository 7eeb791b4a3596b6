-- ===== src/Json/Digits.antt =====
-- Scanning, converting and comparing decimal digits, for the numbers of json text (src/json.cc).
use Prim.Native.Nat.{compare, Ordering}
use cocoyaxi.Base.{
  ℕ, zero, suc, ◌+◌, ◌-◌, ◌*◌, ◌/◌, ◌%◌, ◌^◌, ◌≤◌, ◌<◌, false, some, [], ◌∷◌, ◌++◌, ◌==◌, ltb,
  Bytes, length, ◌≡◌, refl, ap, ◌∙◌, arith, Bool-cases, inl, inr,
}
use native.Mathlib.Nat.{pow-suc, one-le-pow}
use cocoyaxi.Fast.Decimal.{dec, dec_last, dec_step}
use cocoyaxi.Json.Number.{
  is_digit, skip_digits, scan_exponent, scan_fraction, scan_digits, accumulate, memcmp,
}

-- What may follow an integer: a byte that no number goes on with, or the end.
abbrev pub EndsNumber : Bytes → Type 0
EndsNumber [] = Unit
EndsNumber (c ∷ cs) =
    (is_digit c ≡ false) × ((c == b'.') ≡ false) × ((c == b'e') ≡ false) × ((c == b'E') ≡ false)

skip_digits_none : (r : Bytes) → EndsNumber r → skip_digits r ≡ r
unfolding skip_digits
skip_digits_none [] h = refl
skip_digits_none (c ∷ cs) h = rw (h.0) refl

scan_fraction_none : (r : Bytes) → EndsNumber r → scan_fraction r ≡ some (false, r)
unfolding scan_fraction scan_exponent
scan_fraction_none [] h = refl
scan_fraction_none (c ∷ cs) h = rw (h.1, h.2, h.3) refl

skip_digit : (d : ℕ) (r : Bytes) → d < 10 → skip_digits ((48 + d) ∷ r) ≡ skip_digits r
unfolding skip_digits
skip_digit d r h = ground arith

scan_digits_first :
    (d : ℕ) (r : Bytes)
    → 0 < d
    → d < 10
    → scan_digits ((48 + d) ∷ r) ≡ scan_fraction (skip_digits r)
unfolding scan_digits
scan_digits_first d r h h' = ground arith

scan_digits_zero : (r : Bytes) → scan_digits (48 ∷ r) ≡ scan_fraction r
unfolding scan_digits
scan_digits_zero r = refl

-- The scanner passes over the decimal digits of a number.
scan_digits-dec :
    (f n : ℕ) (r : Bytes) → n < f → 0 < n → scan_digits (dec f n r) ≡ scan_fraction (skip_digits r)
scan_digits-dec zero n r h h' = absurd (omega arith)
scan_digits-dec (suc f) n r h h' = elim (Bool-cases (ltb n 10)) [
  | inl small ↦ rw (dec_last f n r (ground arith)) (scan_digits_first n r h' (ground arith))
  | inr big ↦ rw (dec_step f n r (ground arith)) (
      scan_digits-dec f (n / 10) _ (ground arith) (ground arith)
      ∙ ap scan_fraction (skip_digit (n % 10) r (omega arith)))
]

pub scan_digits-decimal :
    (n : ℕ) (r : Bytes) → EndsNumber r → scan_digits (dec (suc n) n r) ≡ some (false, r)
scan_digits-decimal zero r h =
    rw (dec_last 0 0 r (omega arith)) (scan_digits_zero r ∙ scan_fraction_none r h)
scan_digits-decimal (suc n) r h =
    scan_digits-dec (suc (suc n)) (suc n) r (omega arith) (omega arith)
    ∙ ap scan_fraction (skip_digits_none r h)
    ∙ scan_fraction_none r h

pub dec-append : (f n : ℕ) (acc r : Bytes) → dec f n acc ++ r ≡ dec f n (acc ++ r)
unfolding dec
dec-append zero n acc r = refl
dec-append (suc f) n acc r = ground (arith, dec-append f (n / 10) ((48 + n % 10) ∷ acc) r)

-- A number below a power of ten has no more digits than its exponent.
pub length-dec :
    (k f n : ℕ) (acc : Bytes) → n < 10 ^ suc k → length (dec f n acc) ≤ suc k + length acc
length-dec k zero n acc h = unfold dec in omega arith
length-dec zero (suc f) n acc h = rw (dec_last f n acc (omega arith)) (omega arith)
length-dec (suc k) (suc f) n acc h = elim (Bool-cases (ltb n 10)) [
  | inl small ↦ rw (dec_last f n acc (ground arith)) (omega arith)
  | inr big ↦
      let bound : n < 10 ^ suc k * 10 = rw (pow-suc 10 (suc k)) at h in
      rw (dec_step f n acc (ground arith))
        (omega (arith, length-dec k f (n / 10) ((48 + n % 10) ∷ acc) (omega arith)))
]

accumulate_digit :
    (v d m : ℕ) (r : Bytes)
    → (v * 10 + (48 + d) + (2 ^ 64 - 48)) % 2 ^ 64 ≡ m
    → accumulate v ((48 + d) ∷ r) ≡ accumulate m r
unfolding accumulate
accumulate_digit v d m r e = rw e refl

-- The accumulator takes in the decimal digits of a number that fits.
pub accumulate-dec :
    (f n : ℕ) (r : Bytes) → n < f → n < 2 ^ 64 → accumulate 0 (dec f n r) ≡ accumulate n r
accumulate-dec zero n r h b = absurd (omega arith)
accumulate-dec (suc f) n r h b = elim (Bool-cases (ltb n 10)) [
  | inl small ↦ rw (dec_last f n r (ground arith)) (accumulate_digit 0 n n r (ground arith))
  | inr big ↦ rw (dec_step f n r (ground arith)) (
      accumulate-dec f (n / 10) _ (ground arith) (omega arith)
      ∙ accumulate_digit (n / 10) (n % 10) n r (omega arith))
]

pub dec-head :
    (f n : ℕ) (r : Bytes) → n < f → (d : ℕ) × (r' : Bytes) × (d < 10) × (dec f n r ≡ (48 + d) ∷ r')
dec-head zero n r h = absurd (omega arith)
dec-head (suc f) n r h = elim (Bool-cases (ltb n 10)) [
  | inl small ↦ (n, r, ground arith, dec_last f n r (ground arith))
  | inr big ↦
      let (d, r', lt, e) = dec-head f (n / 10) ((48 + n % 10) ∷ r) (ground arith) in
      (d, r', lt, dec_step f n r (ground arith) ∙ e)
]

abbrev pub then_order : Ordering → Ordering → Ordering
then_order Ordering.lt o = Ordering.lt
then_order Ordering.eq o = o
then_order Ordering.gt o = Ordering.gt

memcmp_digit :
    (d e : ℕ) (a b : Bytes)
    → memcmp ((48 + d) ∷ a) ((48 + e) ∷ b) ≡ then_order (compare d e) (memcmp a b)
unfolding memcmp
memcmp_digit d e a b = ground arith

compare-tenth :
    (n m : ℕ) (o : Ordering)
    → then_order (compare (n / 10) (m / 10)) (then_order (compare (n % 10) (m % 10)) o)
      ≡ then_order (compare n m) o
compare-tenth n m o = ground arith

-- The order of the texts of two numbers with equally many digits is their own.
pub memcmp-dec :
    (k f g n m : ℕ) (a b : Bytes)
    → k < f
    → k < g
    → 10 ^ k ≤ n
    → n < 10 ^ suc k
    → 10 ^ k ≤ m
    → m < 10 ^ suc k
    → memcmp (dec f n a) (dec g m b) ≡ then_order (compare n m) (memcmp a b)
memcmp-dec k zero g n m a b p q h1 h2 h3 h4 = absurd (omega arith)
memcmp-dec k (suc f) zero n m a b p q h1 h2 h3 h4 = absurd (omega arith)
memcmp-dec zero (suc f) (suc g) n m a b p q h1 h2 h3 h4 =
    rw (dec_last f n a (omega arith), dec_last g m b (omega arith)) (memcmp_digit n m a b)
memcmp-dec (suc k) (suc f) (suc g) n m a b p q h1 h2 h3 h4 =
    let low1 : 10 ^ k * 10 ≤ n = rw (pow-suc 10 k) at h1 in
    let low2 : 10 ^ k * 10 ≤ m = rw (pow-suc 10 k) at h3 in
    let high1 : n < 10 ^ suc k * 10 = rw (pow-suc 10 (suc k)) at h2 in
    let high2 : m < 10 ^ suc k * 10 = rw (pow-suc 10 (suc k)) at h4 in
    let pos : 1 ≤ 10 ^ k = one-le-pow k 10 (omega arith) in
    rw (dec_step f n a (omega arith), dec_step g m b (omega arith))
      (memcmp-dec k f g (n / 10) (m / 10) _ _ (omega arith) (omega arith) (omega arith)
          (omega arith) (omega arith) (omega arith)
        ∙ ap (then_order (compare (n / 10) (m / 10))) (memcmp_digit (n % 10) (m % 10) a b)
        ∙ compare-tenth n m (memcmp a b))
