-- ===== src/Base64/Groups.antt =====
-- A group of four symbols of base64 (src/hash/base64.cc) is decoded to its three bytes.
use Prim.Native.Nat.{bit_or, bit_and}
use cocoyaxi.Base.{
  ℕ, ◌+◌, ◌*◌, ◌/◌, ◌%◌, ◌^◌, ◌<◌, Bool, true, false, not, ◌&&◌, none, some, [], ◌∷◌, ◌==◌, ◌≡◌,
  refl, ap, ◌∙◌, arith, Bytes, holds_below, holds_below_at,
}
use cocoyaxi.Base.Bits.{bit_or_parts, bit_and_mask, bit_and_part}
use cocoyaxi.Base64.{
  symbol, value, encode_three, word, byte0, byte1, byte2, decode_four, fourth, third, decode_last,
}

symbol_fits : ℕ → Bool
symbol_fits v =
    elim (value (symbol v)) [ none ↦ false | some x ↦ x == v ]
    && not (symbol v == b'=')
    && not (symbol v == b'\r')

symbol_table : holds_below symbol_fits 64 ≡ true
unfolding holds_below symbol_fits value symbol
symbol_table = refl

value-symbol : (v : ℕ) → v < 64 → value (symbol v) ≡ some v
unfolding symbol_fits
value-symbol v h = ground (arith, holds_below_at symbol_fits 64 v symbol_table h)

pub symbol-no_padding : (v : ℕ) → v < 64 → (symbol v == b'=') ≡ false
unfolding symbol_fits
symbol-no_padding v h = ground (arith, holds_below_at symbol_fits 64 v symbol_table h)

pub symbol-no_return : (v : ℕ) → v < 64 → (symbol v == b'\r') ≡ false
unfolding symbol_fits
symbol-no_return v h = ground (arith, holds_below_at symbol_fits 64 v symbol_table h)

word-sum :
    (d0 d1 d2 d3 : ℕ)
    → d1 < 64
    → d2 < 64
    → d3 < 64
    → word d0 d1 d2 d3 ≡ d0 * 262144 + d1 * 4096 + d2 * 64 + d3
unfolding word
word-sum d0 d1 d2 d3 h1 h2 h3 =
    let first : bit_or (d0 * 2 ^ 18) (d1 * 2 ^ 12) ≡ (d0 * 64 + d1) * 2 ^ 12 =
      bit_or_parts 18 d0 (d1 * 2 ^ 12) (omega arith) ∙ omega arith in
    let second : bit_or ((d0 * 64 + d1) * 2 ^ 12) (d2 * 2 ^ 6)
        ≡ (d0 * 4096 + d1 * 64 + d2) * 2 ^ 6 =
      bit_or_parts 12 (d0 * 64 + d1) (d2 * 2 ^ 6) (omega arith) ∙ omega arith in
    rw first (rw second (bit_or_parts 6 (d0 * 4096 + d1 * 64 + d2) d3 h3 ∙ omega arith))

byte0-part : (m : ℕ) → byte0 m ≡ m / 65536 % 256
unfolding byte0
byte0-part m = omega (arith, bit_and_part 8 16 m)

byte1-part : (m : ℕ) → byte1 m ≡ m / 256 % 256
unfolding byte1
byte1-part m = omega (arith, bit_and_part 8 8 m)

byte2-part : (m : ℕ) → byte2 m ≡ m % 256
unfolding byte2
byte2-part m = bit_and_mask 8 m

-- The values of the symbols of three bytes.
second_value :
    (a b : ℕ) → b < 256 → bit_and (bit_or (a * 2 ^ 4) (b / 2 ^ 4)) 0x3f ≡ (a * 16 + b / 16) % 64
second_value a b h =
    bit_and_mask 6 _ ∙ ap (λ t. t % 64) (bit_or_parts 4 a (b / 2 ^ 4) (omega arith))

third_value :
    (b c : ℕ) → c < 256 → bit_and (bit_or (b * 2 ^ 2) (c / 2 ^ 6)) 0x3f ≡ (b * 4 + c / 64) % 64
third_value b c h = bit_and_mask 6 _ ∙ ap (λ t. t % 64) (bit_or_parts 2 b (c / 2 ^ 6) (omega arith))

module _ (a b c : ℕ) (ha : a < 256) (hb : b < 256) (hc : c < 256) where
  abbrev pub v1 : ℕ
  v1 = (a * 16 + b / 16) % 64

  abbrev pub v2 : ℕ
  v2 = (b * 4 + c / 64) % 64

  whole_word : word (a / 4) v1 v2 (c % 64) ≡ a * 65536 + b * 256 + c
  whole_word =
      word-sum (a / 4) v1 v2 (c % 64) (omega arith) (omega arith) (omega arith) ∙ omega arith

  pub encode_three-symbols :
      (rest : Bytes)
      → encode_three a b c rest ≡ symbol (a / 4) ∷ symbol v1 ∷ symbol v2 ∷ symbol (c % 64) ∷ rest
  unfolding encode_three
  encode_three-symbols rest = rw (second_value a b hb, third_value b c hc, bit_and_mask 6 c) refl

  three_bytes :
      (byte0 (word (a / 4) v1 v2 (c % 64)) ≡ a)
      × (byte1 (word (a / 4) v1 v2 (c % 64)) ≡ b)
      × (byte2 (word (a / 4) v1 v2 (c % 64)) ≡ c)
  three_bytes =
      rw whole_word
        (byte0-part _ ∙ omega arith, byte1-part _ ∙ omega arith, byte2-part _ ∙ omega arith)

  pub values :
      (value (symbol (a / 4)) ≡ some (a / 4))
      × (value (symbol v1) ≡ some v1)
      × (value (symbol v2) ≡ some v2)
      × (value (symbol (c % 64)) ≡ some (c % 64))
  values = (
    value-symbol _ (omega arith),
    value-symbol _ (omega arith),
    value-symbol _ (omega arith),
    value-symbol _ (omega arith),
  )

  pub four_symbols :
      (later : Bytes)
      → decode_four (symbol (a / 4)) (symbol v1) (symbol v2) (symbol (c % 64)) (some later)
        ≡ some (a ∷ b ∷ c ∷ later)
  unfolding decode_four
  four_symbols later =
      rw (values.0, values.1, values.2, values.3)
        (rw (three_bytes.0, three_bytes.1, three_bytes.2) refl)

  pub first_byte : byte0 (word (a / 4) v1 0 0) ≡ a
  first_byte =
      byte0-part _
      ∙ ap (λ m. m / 65536 % 256)
          (word-sum (a / 4) v1 0 0 (omega arith) (omega arith) (omega arith))
      ∙ omega arith

  pub second_byte : byte1 (word (a / 4) v1 v2 0) ≡ b
  second_byte =
      byte1-part _
      ∙ ap (λ m. m / 256 % 256) (word-sum (a / 4) v1 v2 0 (omega arith) (omega arith) (omega arith))
      ∙ omega arith

  pub last_three :
      decode_last (symbol (a / 4)) (symbol v1) (symbol v2) (symbol (c % 64)) ≡ some (a ∷ b ∷ c ∷ [])
  unfolding decode_last third fourth
  last_three =
      rw (symbol-no_padding v2 (omega arith), symbol-no_padding (c % 64) (omega arith))
        (rw (values.0, values.1, values.2, values.3)
          (rw (first_byte, second_byte, three_bytes.2) refl))
