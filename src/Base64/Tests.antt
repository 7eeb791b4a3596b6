-- ===== src/Base64/Tests.antt =====
-- Base64 on concrete inputs.
use cocoyaxi.Base.{◌++◌, [], ◌∷◌, ◌≡◌, refl, arith, Bytes}
use cocoyaxi.Base64.{
  symbol, value, encode_three, base64_encode, word, byte0, byte1, byte2, fourth, third, decode_last,
  decode_end, decode_from, or_empty, base64_decode,
}
use cocoyaxi.Base64.Breaks.{line_break, base64_decode-line_break}
use cocoyaxi.Base64.RoundTrip.{base64_decode-base64_encode}

-- Five bytes, for a whole group and one with padding.
abbrev five : Bytes
five = 0xff ∷ 0x00 ∷ b'a' ∷ 0x80 ∷ b'z' ∷ []

encoded_five : base64_encode five ≡ b'/' ∷ b'w' ∷ b'B' ∷ b'h' ∷ b'g' ∷ b'H' ∷ b'o' ∷ b'=' ∷ []
unfolding base64_encode encode_three symbol
encoded_five = refl

-- Behind the last four symbols, a carriage return and any byte pass for a line break.
half_break : base64_decode (b'Y' ∷ b'Q' ∷ b'=' ∷ b'=' ∷ b'\r' ∷ b'Q' ∷ []) ≡ b'a' ∷ []
unfolding base64_decode or_empty decode_from decode_end decode_last third fourth value word byte0
    byte1 byte2
half_break = refl

base64_decode-base64_encode_example : base64_decode (base64_encode five) ≡ five
base64_decode-base64_encode_example = base64_decode-base64_encode five (ground arith)

base64_decode-line_break_example : base64_decode (base64_encode five ++ line_break) ≡ five
base64_decode-line_break_example =
    base64_decode-line_break 0xff (0x00 ∷ b'a' ∷ 0x80 ∷ b'z' ∷ []) (ground arith)
