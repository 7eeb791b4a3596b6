-- ===== src/Fast/Decimal.antt =====
-- The text of `u32toa`, `u64toa` and `i64toa` against plain decimal notation.
use Prim.Native.Nat.{bit_or}
use cocoyaxi.Base.{
  ℕ, zero, suc, ◌+◌, ◌-◌, ◌*◌, ◌/◌, ◌%◌, ◌^◌, ◌≤◌, ◌<◌, true, [], ◌∷◌, ◌++◌, ltb, leb, ◌==◌,
  if◌then◌else◌, Bytes, drop, ◌≡◌, refl, sym, ◌∙◌, ap, inl, inr, arith, Bool-cases, holds_below,
  holds_below_at, ==_iff, append-nil,
}
use cocoyaxi.Fast.{g_itoa_tb, or_zeros, copy_digits, last_bytes, top_byte, u64toa, u32toa}

-- Decimal notation by division, in front of `acc`.
unfoldable pub dec : ℕ → ℕ → Bytes → Bytes
dec zero n acc = acc
dec (suc f) n acc =
    let more = dec f (n / 10) ((48 + n % 10) ∷ acc) in if ltb n 10 then (48 + n) ∷ acc else more

unfoldable pub decimal : ℕ → Bytes
unfolding dec
decimal n = dec (suc n) n []

pub dec_last : (f n : ℕ) (acc : Bytes) → n < 10 → dec (suc f) n acc ≡ (48 + n) ∷ acc
unfolding dec
dec_last f n acc h = ground arith

pub dec_step :
    (f n : ℕ) (acc : Bytes) → 10 ≤ n → dec (suc f) n acc ≡ dec f (n / 10) ((48 + n % 10) ∷ acc)
unfolding dec
dec_step f n acc h = ground arith

pub dec_fuel : (f g n : ℕ) (acc : Bytes) → n < f → n < g → dec f n acc ≡ dec g n acc
dec_fuel zero g n acc p q = absurd (omega arith)
dec_fuel (suc f) zero n acc p q = absurd (omega arith)
dec_fuel (suc f) (suc g) n acc p q = elim (Bool-cases (ltb n 10)) [
  | inl small ↦ dec_last f n acc (ground arith) ∙ sym (dec_last g n acc (ground arith))
  | inr big ↦
      dec_step f n acc (ground arith)
      ∙ dec_fuel f g (n / 10) _ (ground arith) (ground arith)
      ∙ sym (dec_step g n acc (ground arith))
]

-- Four digits, with leading zeros.
abbrev pub pad4 : ℕ → Bytes → Bytes
pad4 y acc = (48 + y / 1000) ∷ (48 + y / 100 % 10) ∷ (48 + y / 10 % 10) ∷ (48 + y % 10) ∷ acc

-- A step that names the quotient and the digit.
dec_step_to :
    (n m d : ℕ) (acc : Bytes)
    → 10 ≤ n
    → n / 10 ≡ m
    → n % 10 ≡ d
    → dec (suc n) n acc ≡ dec (suc m) m ((48 + d) ∷ acc)
dec_step_to n m d acc h q r =
    dec_step n n acc h
    ∙ dec_fuel n (suc (n / 10)) (n / 10) ((48 + n % 10) ∷ acc) (omega arith) (omega arith)
    ∙ rw (q, r) refl

pub dec_chunk :
    (n : ℕ) (acc : Bytes)
    → 10000 ≤ n
    → dec (suc n) n acc ≡ dec (suc (n / 10000)) (n / 10000) (pad4 (n - n / 10000 * 10000) acc)
dec_chunk n acc h =
    let y = n - n / 10000 * 10000 in
    dec_step_to n (n / 10) (y % 10) acc (omega arith) refl (omega arith)
    ∙ dec_step_to (n / 10) (n / 100) (y / 10 % 10) _ (omega arith) (omega arith) (omega arith)
    ∙ dec_step_to (n / 100) (n / 1000) (y / 100 % 10) _ (omega arith) (omega arith) (omega arith)
    ∙ dec_step_to (n / 1000) (n / 10000) (y / 1000) _ (omega arith) (omega arith) (omega arith)

copy_digits-drop :
    (k top a b c : ℕ) (low : Bytes)
    → top / 16 ≡ k
    → k ≤ 3
    → copy_digits (top ∷ a ∷ b ∷ c ∷ low) ≡ drop (3 - k) (top ∷ a ∷ b ∷ c ∷ low)
unfolding copy_digits last_bytes top_byte
copy_digits-drop k top a b c low e h =
    let bytes : Bytes = top ∷ a ∷ b ∷ c ∷ low in ap (λ n. drop n bytes) (omega arith)

-- The word of a leading chunk, less its zeros.
pub copy_digits-dec :
    (t : ℕ) (low : Bytes) → t < 10000 → copy_digits (g_itoa_tb t ++ low) ≡ dec (suc t) t low
unfolding g_itoa_tb
copy_digits-dec t low h = elim (Bool-cases (leb 1000 t)) [
  | inl big ↦ rw big (
      copy_digits-drop 3 (48 + t / 1000) _ _ _ low (ground arith) (omega arith)
      ∙ sym (
          dec_step_to t (t / 10) (t % 10) low (ground arith) refl refl
          ∙ dec_step_to (t / 10) (t / 100) (t / 10 % 10) _ (ground arith) (omega arith) refl
          ∙ dec_step_to (t / 100) (t / 1000) (t / 100 % 10) _ (ground arith) (omega arith) refl
          ∙ dec_last (t / 1000) (t / 1000) _ (omega arith)))
  | inr less ↦ rw less (elim (Bool-cases (leb 100 t)) [
    | inl three ↦ rw three (
        copy_digits-drop 2 0x20 _ _ _ low refl (omega arith)
        ∙ ap (λ d. (48 + d) ∷ (48 + t / 10 % 10) ∷ (48 + t % 10) ∷ low) (ground arith)
        ∙ sym (
            dec_step_to t (t / 10) (t % 10) low (ground arith) refl refl
            ∙ dec_step_to (t / 10) (t / 100) (t / 10 % 10) _ (ground arith) (omega arith) refl
            ∙ dec_last (t / 100) (t / 100) _ (ground arith)))
    | inr small ↦ rw small (elim (Bool-cases (leb 10 t)) [
      | inl two ↦ rw two (
          copy_digits-drop 1 0x10 _ _ _ low refl (omega arith)
          ∙ ap (λ d. (48 + d) ∷ (48 + t % 10) ∷ low) (ground arith)
          ∙ sym (
              dec_step_to t (t / 10) (t % 10) low (ground arith) refl refl
              ∙ dec_last (t / 10) (t / 10) _ (ground arith)))
      | inr one ↦ rw one (
          copy_digits-drop 0 0 _ _ _ low refl (omega arith)
          ∙ ap (λ d. (48 + d) ∷ low) (ground arith)
          ∙ sym (dec_last t t low (ground arith)))
    ])
  ])
]

or_zero_table : holds_below (λ d. bit_or 48 (48 + d) == 48 + d) 10 ≡ true
unfolding holds_below
or_zero_table = refl

or_digit : (d : ℕ) → d < 10 → bit_or 48 (48 + d) ≡ 48 + d
or_digit d h = (==_iff _ _).0 (holds_below_at _ 10 d or_zero_table h)

pub or_zeros-pad4 : (y : ℕ) → y < 10000 → or_zeros (g_itoa_tb y) ≡ pad4 y []
unfolding or_zeros g_itoa_tb
or_zeros-pad4 y h = ground (
  arith,
  or_digit (y / 1000) (omega arith),
  or_digit (y / 100 % 10) (omega arith),
  or_digit (y / 10 % 10) (omega arith),
  or_digit (y % 10) (omega arith),
)

-- A word behind the leading one, as `u64toa` fills it.
abbrev word : ℕ → Bytes
word n = or_zeros (g_itoa_tb (n - n / 10000 * 10000))

dec-word-append :
    (n : ℕ) (acc : Bytes)
    → 10000 ≤ n
    → dec (suc n) n acc ≡ dec (suc (n / 10000)) (n / 10000) (word n ++ acc)
dec-word-append n acc h =
    rw (or_zeros-pad4 (n - n / 10000 * 10000) (omega arith)) (dec_chunk n acc h)

dec-word : (n : ℕ) → 10000 ≤ n → dec (suc n) n [] ≡ dec (suc (n / 10000)) (n / 10000) (word n)
dec-word n h = rw (or_zeros-pad4 (n - n / 10000 * 10000) (omega arith)) (dec_chunk n [] h)

-- For every number below 2 ^ 32, `u32toa` writes its decimal digits, with no zeros in front.
pub u32toa-decimal : (v : ℕ) → v < 2 ^ 32 → u32toa v ≡ decimal v
unfolding u32toa decimal
u32toa-decimal v h =
    let b1 = v / 10000 in
    let b0 = b1 / 10000 in
    elim (Bool-cases (ltb 9999 v)) [
      | inr short ↦
          rw short (ap copy_digits (sym (append-nil _)) ∙ copy_digits-dec v [] (ground arith))
      | inl two ↦ rw two (elim (Bool-cases (ltb 9999 b1)) [
        | inr short ↦
            rw short (copy_digits-dec b1 (word v) (ground arith) ∙ sym (dec-word v (ground arith)))
        | inl three ↦ rw three (
            copy_digits-dec b0 (word b1 ++ word v) (omega arith)
            ∙ sym (dec-word v (ground arith) ∙ dec-word-append b1 (word v) (ground arith)))
      ])
    ]

-- For every number below 2 ^ 64, `u64toa` writes its decimal digits, with no zeros in front.
pub u64toa-decimal : (v : ℕ) → v < 2 ^ 64 → u64toa v ≡ decimal v
unfolding u64toa decimal
u64toa-decimal v h =
    let x1 = v / 10000 in
    let x2 = x1 / 10000 in
    let x3 = x2 / 10000 in
    let x4 = x3 / 10000 in
    let low3 = word x1 ++ word v in
    let low2 = word x2 ++ low3 in
    elim (Bool-cases (ltb 9999 v)) [
      | inr short ↦
          rw short (ap copy_digits (sym (append-nil _)) ∙ copy_digits-dec v [] (ground arith))
      | inl two ↦ rw two (elim (Bool-cases (ltb 9999 x1)) [
        | inr short ↦
            rw short (copy_digits-dec x1 (word v) (ground arith) ∙ sym (dec-word v (ground arith)))
        | inl three ↦ rw three (elim (Bool-cases (ltb 9999 x2)) [
          | inr short ↦ rw short (
              copy_digits-dec x2 low3 (ground arith)
              ∙ sym (dec-word v (ground arith) ∙ dec-word-append x1 (word v) (ground arith)))
          | inl four ↦ rw four (elim (Bool-cases (ltb 9999 x3)) [
            | inr short ↦ rw short (
                copy_digits-dec x3 low2 (ground arith)
                ∙ sym (
                    dec-word v (ground arith)
                    ∙ dec-word-append x1 (word v) (ground arith)
                    ∙ dec-word-append x2 low3 (ground arith)))
            | inl five ↦ rw five (
                copy_digits-dec x4 (word x3 ++ low2) (omega arith)
                ∙ sym (
                    dec-word v (ground arith)
                    ∙ dec-word-append x1 (word v) (ground arith)
                    ∙ dec-word-append x2 low3 (ground arith)
                    ∙ dec-word-append x3 low2 (ground arith)))
          ])
        ])
      ])
    ]
