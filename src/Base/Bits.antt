-- ===== src/Base/Bits.antt =====
-- Bit operations on parts of a word that lie side by side, as arithmetic.
use Prim.Native.Nat.{
  ℕ, zero, suc, ◌+◌, ◌-◌, ◌*◌, ◌/◌, ◌%◌, ◌^◌, ◌≤◌, ◌<◌, min, max, bit_and, bit_or, digits,
  bit_and-bitwise, bit_or-bitwise,
}
use mathlib.Core.Path.{◌≡◌, refl, ap, ◌∙◌}
use native.Mathlib.Omega.{arith}
use native.Mathlib.Nat.{
  pow-suc, one-le-pow, mod-lt, mod-eq_of_lt, add-mul-mod_self_right, div-add-mod',
  div-div-eq-div-mul, zero-div, zero-mod, mul_comm,
}

-- The recursions on binary digits that the operations stand for.
abbrev ors : ℕ → ℕ → ℕ → ℕ
ors = digits (λ y. y) max

abbrev ands : ℕ → ℕ → ℕ → ℕ
ands = digits (λ y. 0) min

ors-zero : (n y : ℕ) → ors n 0 y ≡ y
ors-zero zero y = refl
ors-zero (suc n) y = refl

ands-zero : (n y : ℕ) → ands n 0 y ≡ 0
ands-zero zero y = refl
ands-zero (suc n) y = refl

ors_digit : (n x y : ℕ) → ors (suc n) x y ≡ ors n (x / 2) (y / 2) * 2 + max (x % 2) (y % 2)
ors_digit n zero y = omega (arith, ors-zero n (y / 2))
ors_digit n (suc x) y = refl

ands_digit : (n x y : ℕ) → ands (suc n) x y ≡ ands n (x / 2) (y / 2) * 2 + min (x % 2) (y % 2)
ands_digit n zero y = omega (arith, ands-zero n (y / 2))
ands_digit n (suc x) y = refl

ors-nothing : (n x : ℕ) → x ≤ n → ors n x 0 ≡ x
ors-nothing zero x h = let e : x ≡ 0 = omega arith in rw e refl
ors-nothing (suc n) x h = omega (arith, ors_digit n x 0, ors-nothing n (x / 2) (omega arith))

ors_double : (n p y : ℕ) → ors n p (y / 2) ≡ p + y / 2 → ors (suc n) (p * 2) y ≡ p * 2 + y
ors_double n p y ih =
    let half : p * 2 / 2 ≡ p = omega arith in rw ors_digit (rw half (rw ih (omega arith)))

-- A lower part is added to an upper one.
ors-parts : (k n x y : ℕ) → x * 2 ^ k ≤ n → y < 2 ^ k → ors n (x * 2 ^ k) y ≡ x * 2 ^ k + y
ors-parts zero n x y h l =
    let e : y ≡ 0 = omega arith in rw e (ors-nothing n (x * 2 ^ 0) h ∙ omega arith)
ors-parts (suc k) zero x y h l = let e : x * 2 ^ suc k ≡ 0 = omega arith in rw e (omega arith)
ors-parts (suc k) (suc n) x y h l =
    let double : x * 2 ^ suc k ≡ x * 2 ^ k * 2 = rw pow-suc (omega arith) in
    let low : y < 2 ^ k * 2 = rw pow-suc at l in
    rw double
      (ors_double n (x * 2 ^ k) y (ors-parts k n x (y / 2) (omega (arith, double)) (omega arith)))

pub bit_or_parts : (k x y : ℕ) → y < 2 ^ k → bit_or (x * 2 ^ k) y ≡ x * 2 ^ k + y
bit_or_parts k x y l = bit_or-bitwise (x * 2 ^ k) y ∙ ors-parts k (x * 2 ^ k) x y (omega arith) l

mod-double : (x p : ℕ) → 0 < p → x % (p * 2) ≡ x / 2 % p * 2 + x % 2
mod-double x p h =
    let low : ℕ = x / 2 % p * 2 + x % 2 in
    let split : x ≡ low + x / 2 / p * (p * 2) = omega (arith, div-add-mod' (x / 2) p) in
    ap (λ t. t % (p * 2)) split
    ∙ add-mul-mod_self_right low (x / 2 / p) (p * 2)
    ∙ mod-eq_of_lt (omega (arith, mod-lt (x / 2) h))

ands_low :
    (n p x : ℕ)
    → 0 < p
    → ands n (x / 2) (p - 1) ≡ x / 2 % p
    → ands (suc n) x (p * 2 - 1) ≡ x % (p * 2)
ands_low n p x h ih =
    let half : (p * 2 - 1) / 2 ≡ p - 1 = omega arith in
    let odd : (p * 2 - 1) % 2 ≡ 1 = omega arith in
    rw ands_digit (rw half (rw (odd, ih) (omega (arith, mod-double x p h))))

ands-mask : (j n x : ℕ) → x ≤ n → ands n x (2 ^ j - 1) ≡ x % 2 ^ j
ands-mask zero zero x h = let e : x ≡ 0 = omega arith in rw e refl
ands-mask zero (suc n) x h = omega (arith, ands_digit n x 0, ands-mask zero n (x / 2) (omega arith))
ands-mask (suc j) zero x h = let e : x ≡ 0 = omega arith in rw e (omega arith)
ands-mask (suc j) (suc n) x h =
    rw pow-suc
      (ands_low n (2 ^ j) x (one-le-pow j 2 (omega arith)) (ands-mask j n (x / 2) (omega arith)))

-- A mask of the low `j` bits.
pub bit_and_mask : (j x : ℕ) → bit_and x (2 ^ j - 1) ≡ x % 2 ^ j
bit_and_mask j x = bit_and-bitwise x (2 ^ j - 1) ∙ ands-mask j x x (omega arith)

ands_double : (n m x r : ℕ) → ands n (x / 2) m ≡ r → ands (suc n) x (m * 2) ≡ r * 2
ands_double n m x r ih =
    let half : m * 2 / 2 ≡ m = omega arith in
    let even : m * 2 % 2 ≡ 0 = omega arith in rw ands_digit (rw half (rw (even, ih) (omega arith)))

ands-part : (j k n x : ℕ) → x ≤ n → ands n x ((2 ^ j - 1) * 2 ^ k) ≡ x / 2 ^ k % 2 ^ j * 2 ^ k
ands-part j zero n x h =
    let one : (2 ^ j - 1) * 2 ^ 0 ≡ 2 ^ j - 1 = omega arith in
    let same : x / 2 ^ 0 ≡ x = omega arith in rw (one, same) (ands-mask j n x h ∙ omega arith)
ands-part j (suc k) zero x h =
    let e : x ≡ 0 = omega arith in
    let none : 0 / 2 ^ suc k ≡ 0 = zero-div _ in
    let part : 0 % 2 ^ j ≡ 0 = zero-mod _ in rw (e, none, part) (omega arith)
ands-part j (suc k) (suc n) x h =
    let mask : (2 ^ j - 1) * 2 ^ suc k ≡ (2 ^ j - 1) * 2 ^ k * 2 = rw pow-suc (omega arith) in
    let up : x / 2 ^ suc k ≡ x / 2 / 2 ^ k =
      rw pow-suc (rw (mul_comm (2 ^ k) 2) (rw (div-div-eq-div-mul x 2 (2 ^ k)) refl)) in
    let double : x / 2 / 2 ^ k % 2 ^ j * 2 ^ suc k ≡ x / 2 / 2 ^ k % 2 ^ j * 2 ^ k * 2 =
      rw pow-suc (omega arith) in
    rw (mask, up, double)
      (ands_double n ((2 ^ j - 1) * 2 ^ k) x (x / 2 / 2 ^ k % 2 ^ j * 2 ^ k)
        (ands-part j k n (x / 2) (omega arith)))

-- A mask of `j` bits from bit `k` on.
pub bit_and_part : (j k x : ℕ) → bit_and x ((2 ^ j - 1) * 2 ^ k) ≡ x / 2 ^ k % 2 ^ j * 2 ^ k
bit_and_part j k x = bit_and-bitwise x ((2 ^ j - 1) * 2 ^ k) ∙ ands-part j k x x (omega arith)
