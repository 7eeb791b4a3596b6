-- ===== src/Base64/Breaks.antt =====
-- `base64_decode` on an encoded text with a line break at its end.
use cocoyaxi.Base.{
  ℕ, false, some, [], ◌∷◌, ◌++◌, ◌≡◌, refl, ap, ◌∙◌, arith, Bytes, IsBytes, length, ltb, le→not_ltb,
}
use cocoyaxi.Base64.{
  encode_three, base64_encode, decode_four, decode_end, decode_from, or_empty, base64_decode,
}
use cocoyaxi.Base64.RoundTrip.{
  Group, base64_encode-Group, decode_from-Group, last_one, last_two, decode_from-base64_encode,
}
use cocoyaxi.Base64.Groups.{encode_three-symbols, four_symbols}

abbrev pub line_break : Bytes
line_break = b'\r' ∷ b'\n' ∷ []

last_break :
    (x y z w : ℕ) → decode_from (x ∷ y ∷ z ∷ w ∷ line_break) ≡ decode_from (x ∷ y ∷ z ∷ w ∷ [])
unfolding decode_from decode_end
last_break x y z w = refl

Group-append : (s t : Bytes) → Group s → Group (s ++ t)
Group-append s t g = record {
  x = g.x;
  y = g.y;
  z = g.z;
  w = g.w;
  more = g.more ++ t;
  splits = ap (λ r. r ++ t) g.splits;
  no_return = g.no_return;
}

three_step :
    (a b c : ℕ) (s t : Bytes)
    → decode_from (base64_encode (a ∷ b ∷ c ∷ s) ++ t)
      ≡ decode_from (encode_three a b c (base64_encode s) ++ t)
unfolding base64_encode
three_step a b c s t = refl

decode_from-line_break :
    (c : ℕ) (s : Bytes)
    → IsBytes (c ∷ s)
    → decode_from (base64_encode (c ∷ s) ++ line_break) ≡ some (c ∷ s)
unfolding base64_encode encode_three
decode_from-line_break c [] h = last_break _ _ _ _ ∙ last_one c h.0
decode_from-line_break c (b ∷ []) h = last_break _ _ _ _ ∙ last_two c b h.0 h.1.0
decode_from-line_break a (b ∷ c ∷ []) h =
    last_break _ _ _ _ ∙ decode_from-base64_encode a (b ∷ c ∷ []) h
decode_from-line_break a (b ∷ c ∷ d ∷ s) h =
    let later = decode_from-line_break d s h.1.1.1 in
    let rest = base64_encode (d ∷ s) in
    let first = encode_three-symbols a b c h.0 h.1.0 h.1.1.0 rest in
    three_step a b c (d ∷ s) line_break
    ∙ ap (λ r. decode_from (r ++ line_break)) first
    ∙ decode_from-Group _ _ _ _ (rest ++ line_break)
        (Group-append rest line_break (base64_encode-Group d s h.1.1.1.0))
    ∙ ap (decode_four _ _ _ _) later
    ∙ four_symbols a b c h.0 h.1.0 h.1.1.0 (d ∷ s)

-- Decoding an encoded string of bytes, each below 256 and one at least, with a line break behind it
-- gives the string back.
pub base64_decode-line_break :
    (c : ℕ) (s : Bytes)
    → IsBytes (c ∷ s)
    → base64_decode (base64_encode (c ∷ s) ++ line_break) ≡ c ∷ s
base64_decode-line_break c s h =
    let g = Group-append (base64_encode (c ∷ s)) line_break (base64_encode-Group c s h.0) in
    let long : ltb (length (base64_encode (c ∷ s) ++ line_break)) 4 ≡ false =
      rw (g.splits) (le→not_ltb _ 4 (omega arith)) in
    unfold base64_decode in rw long (rw (decode_from-line_break c s h) (unfold or_empty in refl))
