-- ===== src/Fast/Hex.antt =====
-- The text of `u32toh` and `u64toh` against plain hexadecimal notation.
use cocoyaxi.Base.{
  ℕ, zero, suc, ◌-◌, ◌*◌, ◌/◌, ◌%◌, ◌^◌, ◌≤◌, ◌<◌, true, false, [], ◌∷◌, ◌++◌, ltb, ◌==◌,
  if◌then◌else◌, Bytes, length, ◌≡◌, refl, sym, ap, ◌∙◌, arith, Bool-cases, inl, inr,
}
use native.Mathlib.Nat.{pow-suc}
use cocoyaxi.Base.Bits.{bit_and_mask}
use cocoyaxi.Fast.{
  hex_char, g_itoh_tb, hex_entries, prefix_hex, top_byte, last_bytes, u32toh, u64toh,
}

-- Hexadecimal notation by division, in front of `acc`.
unfoldable pub hex : ℕ → ℕ → Bytes → Bytes
hex zero n acc = acc
hex (suc f) n acc =
    let more = hex f (n / 16) (hex_char (n % 16) ∷ acc) in
    if ltb n 16 then hex_char n ∷ acc else more

unfoldable pub hexadecimal : ℕ → Bytes
hexadecimal n = hex (suc n) n []

hex_last : (f n : ℕ) (acc : Bytes) → n < 16 → hex (suc f) n acc ≡ hex_char n ∷ acc
unfolding hex
hex_last f n acc h = ground arith

hex_step :
    (f n : ℕ) (acc : Bytes) → 16 ≤ n → hex (suc f) n acc ≡ hex f (n / 16) (hex_char (n % 16) ∷ acc)
unfolding hex
hex_step f n acc h = let large : ltb n 16 ≡ false = ground arith in rw large refl

hex_fuel : (f g n : ℕ) (acc : Bytes) → n < f → n < g → hex f n acc ≡ hex g n acc
hex_fuel zero g n acc p q = absurd (omega arith)
hex_fuel (suc f) zero n acc p q = absurd (omega arith)
hex_fuel (suc f) (suc g) n acc p q = elim (Bool-cases (ltb n 16)) [
  | inl small ↦ hex_last f n acc (ground arith) ∙ sym (hex_last g n acc (ground arith))
  | inr big ↦
      hex_step f n acc (ground arith)
      ∙ hex_fuel f g (n / 16) _ (ground arith) (ground arith)
      ∙ sym (hex_step g n acc (ground arith))
]

-- The bytes without a leading zero digit, as `prefix_hex` copies them.
abbrev trimmed : Bytes → Bytes
trimmed s = last_bytes (length s - (if top_byte s == b'0' then 1 else 0)) s

hex_char-zero : (d : ℕ) → d < 16 → 0 < d → (hex_char d == b'0') ≡ false
hex_char-zero d h p = ground arith

entry_trimmed : (v : ℕ) (out : Bytes) → v < 256 → trimmed (g_itoh_tb v ++ out) ≡ hex (suc v) v out
unfolding g_itoh_tb top_byte last_bytes
entry_trimmed v out h = elim (Bool-cases (ltb v 16)) [
  | inl small ↦
      let high : v / 16 ≡ 0 = ground arith in
      let low : v % 16 ≡ v = ground arith in
      let rest : suc (suc (length out)) - (suc (suc (length out)) - 1) ≡ 1 = omega arith in
      rw (high, low) (rw rest (sym (hex_last v v out (ground arith))))
  | inr large ↦
      let other : (hex_char (v / 16) == b'0') ≡ false =
        hex_char-zero (v / 16) (ground arith) (ground arith) in
      let all : suc (suc (length out)) - (suc (suc (length out)) - 0) ≡ 0 = omega arith in
      rw other (
        rw all (
          sym (hex_last (v / 16) (v / 16) _ (ground arith))
          ∙ hex_fuel (suc (v / 16)) v (v / 16) _ (omega arith) (ground arith)
          ∙ sym (hex_step v v out (ground arith))))
]

-- Two digits at once.
hex_entry :
    (v : ℕ) (out : Bytes)
    → 256 ≤ v
    → hex (suc (v / 256)) (v / 256) (g_itoh_tb (v % 256) ++ out) ≡ hex (suc v) v out
unfolding g_itoh_tb
hex_entry v out h =
    let high : v % 256 / 16 ≡ v / 16 % 16 = omega arith in
    let low : v % 256 % 16 ≡ v % 16 = omega arith in
    let up : v / 256 ≡ v / 16 / 16 = omega arith in
    rw (high, low)
      (rw up (
        hex_fuel (suc (v / 16 / 16)) (v / 16) (v / 16 / 16) _ (omega arith) (omega arith)
        ∙ sym (hex_step (v / 16) (v / 16) (hex_char (v % 16) ∷ out) (omega arith))
        ∙ hex_fuel (suc (v / 16)) v (v / 16) _ (omega arith) (omega arith)
        ∙ sym (hex_step v v out (omega arith))))

entries_trimmed :
    (n v : ℕ) (out : Bytes)
    → v < 256 ^ suc n
    → trimmed (hex_entries (suc n) v out) ≡ hex (suc v) v out
unfolding hex_entries
entries_trimmed zero v out h =
    let small : v < 256 = omega arith in
    let done : (v / 2 ^ 8 == 0) ≡ true = ground arith in
    let low : v % 256 ≡ v = omega arith in
    rw done (rw (bit_and_mask 8 v) (rw low (entry_trimmed v out small)))
entries_trimmed (suc n) v out h = elim (Bool-cases (v / 2 ^ 8 == 0)) [
  | inl done ↦
      let low : v % 256 ≡ v = ground arith in
      rw done (rw (bit_and_mask 8 v) (rw low (entry_trimmed v out (ground arith))))
  | inr on ↦
      let bound : v < 256 ^ suc n * 256 = rw pow-suc at h in
      rw on (
        rw (bit_and_mask 8 v) (
          entries_trimmed n (v / 256) (g_itoh_tb (v % 256) ++ out) (omega (arith, bound))
          ∙ hex_entry v out (ground arith)))
]

-- For every number below 2 ^ 64, `u64toh` writes "0x" and its hexadecimal digits, with no zeros in
-- front.
pub u64toh-hexadecimal : (v : ℕ) → v < 2 ^ 64 → u64toh v ≡ b'0' ∷ b'x' ∷ hexadecimal v
unfolding u64toh prefix_hex hexadecimal
u64toh-hexadecimal v h = ap (λ s. b'0' ∷ b'x' ∷ s) (entries_trimmed 7 v [] (omega arith))

-- For every number below 2 ^ 32, `u32toh` writes "0x" and its hexadecimal digits, with no zeros in
-- front.
pub u32toh-hexadecimal : (v : ℕ) → v < 2 ^ 32 → u32toh v ≡ b'0' ∷ b'x' ∷ hexadecimal v
unfolding u32toh prefix_hex hexadecimal
u32toh-hexadecimal v h = ap (λ s. b'0' ∷ b'x' ∷ s) (entries_trimmed 3 v [] (omega arith))
