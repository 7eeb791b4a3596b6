-- ===== src/Url/RoundTrip.antt =====
-- `url_decode` reads back what `url_encode` wrote.
use cocoyaxi.Base.{
  ℕ, ◌/◌, ◌%◌, ◌<◌, Bool, true, false, none, some, [], ◌∷◌, ◌==◌, ◌≡◌, refl, inl, inr, arith,
  Bool-cases, Bytes, IsBytes, holds_below, holds_below_at,
}
use cocoyaxi.Url.{
  unencoded, hex_digit, hex2int, encode_byte, url_encode, decode_pair, decode_from, url_decode,
}

-- The round trip of one byte through its two digits.
abbrev pair_ok : ℕ → Bool
pair_ok c = elim (decode_pair (hex_digit (c / 16)) (hex_digit (c % 16))) [
  | some x ↦ x == c
  | none ↦ false
]

pair_table : holds_below pair_ok 256 ≡ true
unfolding holds_below decode_pair hex2int
pair_table = refl

decode_pair-hex_digit :
    (c : ℕ) → c < 256 → decode_pair (hex_digit (c / 16)) (hex_digit (c % 16)) ≡ some c
decode_pair-hex_digit c h = ground (arith, holds_below_at pair_ok 256 c pair_table h)

unencoded-ne-escape : (c : ℕ) → unencoded c ≡ true → (c == b'%') ≡ false
unencoded-ne-escape c u = elim (Bool-cases (c == b'%')) [
  | inl same ↦
      let e : c ≡ b'%' = ground arith in
      let wrong : unencoded b'%' ≡ true = rw e at u in unfold unencoded in cc wrong
  | inr other ↦ other
]

decode_from_plain :
    (c : ℕ) (rest r : Bytes)
    → unencoded c ≡ true
    → decode_from rest ≡ some r
    → decode_from (c ∷ rest) ≡ some (c ∷ r)
unfolding decode_from
decode_from_plain c [] r u e = rw (unencoded-ne-escape c u) (cc e)
decode_from_plain c (h ∷ []) r u e = rw (unencoded-ne-escape c u) (rw e refl)
decode_from_plain c (h ∷ l ∷ cs) r u e = rw (unencoded-ne-escape c u) (rw e refl)

decode_from_escape :
    (c : ℕ) (rest r : Bytes)
    → c < 256
    → decode_from rest ≡ some r
    → decode_from (b'%' ∷ hex_digit (c / 16) ∷ hex_digit (c % 16) ∷ rest) ≡ some (c ∷ r)
unfolding decode_from
decode_from_escape c rest r h e = rw (decode_pair-hex_digit c h) (rw e refl)

decode_from-encode_byte :
    (c : ℕ) (rest r : Bytes)
    → c < 256
    → decode_from rest ≡ some r
    → decode_from (encode_byte c rest) ≡ some (c ∷ r)
unfolding encode_byte
decode_from-encode_byte c rest r h e = elim (Bool-cases (unencoded c)) [
  | inl plain ↦ rw plain (decode_from_plain c rest r plain e)
  | inr escaped ↦ rw escaped (decode_from_escape c rest r h e)
]

decode_from-url_encode : (s : Bytes) → IsBytes s → decode_from (url_encode s) ≡ some s
unfolding url_encode
decode_from-url_encode [] h = unfold decode_from in refl
decode_from-url_encode (c ∷ cs) h =
    decode_from-encode_byte c (url_encode cs) cs h.0 (decode_from-url_encode cs h.1)

-- Decoding an encoded string of bytes, each below 256, gives it back.
pub url_decode-url_encode : (s : Bytes) → IsBytes s → url_decode (url_encode s) ≡ s
unfolding url_decode
url_decode-url_encode s h = rw (decode_from-url_encode s h, url_decode) refl
