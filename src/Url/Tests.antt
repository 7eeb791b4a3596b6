-- ===== src/Url/Tests.antt =====
-- Percent-encoding on a concrete input.
use cocoyaxi.Base.{arith, [], ◌∷◌, ◌≡◌, refl, Bytes}
use cocoyaxi.Url.{unencoded, encode_byte, url_encode, decode_from, url_decode}
use cocoyaxi.Url.RoundTrip.{url_decode-url_encode}

-- A letter, a space, a percent sign and two bytes of UTF-8.
abbrev mixed : Bytes
mixed = b'a' ∷ b' ' ∷ b'%' ∷ 0xc3 ∷ 0xa9 ∷ []

encoded :
    url_encode mixed
    ≡ b'a' ∷ b'%' ∷ b'2' ∷ b'0' ∷ b'%' ∷ b'2' ∷ b'5' ∷ b'%' ∷ b'C' ∷ b'3' ∷ b'%' ∷ b'A' ∷ b'9' ∷ []
unfolding url_encode encode_byte unencoded
encoded = refl

cut_off : url_decode (b'a' ∷ b'%' ∷ b'2' ∷ []) ≡ []
unfolding url_decode decode_from
cut_off = refl

url_decode-url_encode_example : url_decode (url_encode mixed) ≡ mixed
url_decode-url_encode_example = url_decode-url_encode mixed (ground arith)
