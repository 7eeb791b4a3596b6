-- ===== src/Base64/RoundTrip.antt =====
-- `base64_decode` reads back what `base64_encode` wrote.
use Prim.Native.Nat.{bit_or, bit_and}
use cocoyaxi.Base.{
  ℕ, ◌*◌, ◌/◌, ◌%◌, ◌^◌, ◌<◌, false, some, [], ◌∷◌, ◌==◌, ltb, ◌≡◌, refl, ap, ◌∙◌, arith, Bytes,
  IsBytes, length, le→not_ltb,
}
use cocoyaxi.Base.Bits.{bit_or_parts, bit_and_mask}
use cocoyaxi.Base64.{
  encode_three, base64_encode, decode_four, fourth, third, decode_last, decode_end, decode_from,
  or_empty, base64_decode,
}
use cocoyaxi.Base64.Groups.{
  symbol-no_padding, symbol-no_return, v1, v2, encode_three-symbols, values, four_symbols,
  first_byte, second_byte, last_three,
}

-- Two bytes, whose third symbol is that of three bytes with a zero.
pub last_two :
    (a b : ℕ) → a < 256 → b < 256 → decode_from (base64_encode (a ∷ b ∷ [])) ≡ some (a ∷ b ∷ [])
unfolding decode_from decode_end decode_last third fourth base64_encode
last_two a b ha hb =
    let zero_lt : 0 < 256 = omega arith in
    let e1 : bit_or (bit_and a 0x03 * 2 ^ 4) (b / 2 ^ 4) ≡ v1 a b 0 ha hb zero_lt =
      ap (λ t. bit_or (t * 2 ^ 4) (b / 2 ^ 4)) (bit_and_mask 2 a)
      ∙ bit_or_parts 4 (a % 2 ^ 2) (b / 2 ^ 4) (omega arith)
      ∙ omega arith in
    let e2 : bit_and b 0x0f * 2 ^ 2 ≡ v2 a b 0 ha hb zero_lt =
      ap (λ t. t * 2 ^ 2) (bit_and_mask 4 b) ∙ omega arith in
    let known = values a b 0 ha hb zero_lt in
    rw (e1, e2)
      (rw (symbol-no_padding (v2 a b 0 ha hb zero_lt) (omega arith)) (
        rw (known.0, known.1, known.2)
          (rw (first_byte a b 0 ha hb zero_lt, second_byte a b 0 ha hb zero_lt) refl)))

pub last_one : (a : ℕ) → a < 256 → decode_from (base64_encode (a ∷ [])) ≡ some (a ∷ [])
unfolding decode_from decode_end decode_last third base64_encode
last_one a ha =
    let zero_lt : 0 < 256 = omega arith in
    let e1 : bit_and a 0x03 * 2 ^ 4 ≡ v1 a 0 0 ha zero_lt zero_lt =
      ap (λ t. t * 2 ^ 4) (bit_and_mask 2 a) ∙ omega arith in
    let known = values a 0 0 ha zero_lt zero_lt in
    rw e1 (rw (known.0, known.1) (rw (first_byte a 0 0 ha zero_lt zero_lt) refl))

-- A text that has four bytes at least and does not start with a line break.
pub record Group (s : Bytes) : Type 0 where
  pub x : ℕ
  pub y : ℕ
  pub z : ℕ
  pub w : ℕ
  pub more : Bytes
  pub splits : s ≡ x ∷ y ∷ z ∷ w ∷ more
  pub no_return : (x == b'\r') ≡ false

pub base64_encode-Group : (c : ℕ) (s : Bytes) → c < 256 → Group (base64_encode (c ∷ s))
unfolding base64_encode encode_three
base64_encode-Group c [] h = record {
  x = _;
  y = _;
  z = _;
  w = _;
  more = _;
  splits = refl;
  no_return = symbol-no_return (c / 4) (omega arith);
}
base64_encode-Group c (b ∷ []) h = record {
  x = _;
  y = _;
  z = _;
  w = _;
  more = _;
  splits = refl;
  no_return = symbol-no_return (c / 4) (omega arith);
}
base64_encode-Group c (b ∷ d ∷ s) h = record {
  x = _;
  y = _;
  z = _;
  w = _;
  more = _;
  splits = refl;
  no_return = symbol-no_return (c / 4) (omega arith);
}

-- The loop goes on behind four symbols with no line break.
pub decode_from-Group :
    (c0 c1 c2 c3 : ℕ) (s : Bytes)
    → Group s
    → decode_from (c0 ∷ c1 ∷ c2 ∷ c3 ∷ s) ≡ decode_four c0 c1 c2 c3 (decode_from s)
decode_from-Group c0 c1 c2 c3 s g = rw (g.splits) (unfold decode_from in rw (g.no_return) refl)

encode_step :
    (a b c : ℕ) (s : Bytes)
    → decode_from (base64_encode (a ∷ b ∷ c ∷ s))
      ≡ decode_from (encode_three a b c (base64_encode s))
unfolding base64_encode
encode_step a b c s = refl

pub decode_from-base64_encode :
    (c : ℕ) (s : Bytes) → IsBytes (c ∷ s) → decode_from (base64_encode (c ∷ s)) ≡ some (c ∷ s)
decode_from-base64_encode c [] h = last_one c h.0
decode_from-base64_encode c (b ∷ []) h = last_two c b h.0 h.1.0
decode_from-base64_encode a (b ∷ c ∷ []) h =
    unfold base64_encode in
    rw (encode_three-symbols a b c h.0 h.1.0 h.1.1.0 [])
      (unfold decode_from decode_end in last_three a b c h.0 h.1.0 h.1.1.0)
decode_from-base64_encode a (b ∷ c ∷ d ∷ s) h =
    let later = decode_from-base64_encode d s h.1.1.1 in
    let first = encode_three-symbols a b c h.0 h.1.0 h.1.1.0 (base64_encode (d ∷ s)) in
    encode_step a b c (d ∷ s)
    ∙ ap decode_from first
    ∙ decode_from-Group _ _ _ _ (base64_encode (d ∷ s)) (base64_encode-Group d s h.1.1.1.0)
    ∙ ap (decode_four _ _ _ _) later
    ∙ four_symbols a b c h.0 h.1.0 h.1.1.0 (d ∷ s)

-- Decoding an encoded string of bytes, each below 256, gives it back, for every number of bytes.
pub base64_decode-base64_encode : (s : Bytes) → IsBytes s → base64_decode (base64_encode s) ≡ s
base64_decode-base64_encode [] h = unfold base64_decode base64_encode in refl
base64_decode-base64_encode (c ∷ s) h =
    let g = base64_encode-Group c s h.0 in
    let long : ltb (length (base64_encode (c ∷ s))) 4 ≡ false =
      rw (g.splits) (le→not_ltb _ 4 (omega arith)) in
    unfold base64_decode in rw long (rw (decode_from-base64_encode c s h) (unfold or_empty in refl))
