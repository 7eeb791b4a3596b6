-- ===== src/Base64.antt =====
-- Base64: src/hash/base64.cc. `base64_decode` of the source returns an empty string for an invalid
-- input, and so does the model.
pub mod Groups
pub mod RoundTrip
pub mod Breaks
mod Tests
use Prim.Native.Nat.{bit_or, bit_and}
use cocoyaxi.Base.{
  ℕ, ◌*◌, ◌/◌, ◌^◌, Bool, not, ◌&&◌, [], ◌∷◌, Option, none, some, ◌==◌, ltb, if◌then◌else◌, ◌>>=◌,
  Bytes, get_or, length,
}

abbrev pub entab : Bytes
entab =
    65 ∷ 66 ∷ 67 ∷ 68 ∷ 69 ∷ 70 ∷ 71 ∷ 72 ∷ 73 ∷ 74 ∷ 75 ∷ 76 ∷ 77 ∷ 78 ∷ 79 ∷ 80 ∷ 81 ∷ 82 ∷ 83
    ∷ 84 ∷ 85 ∷ 86 ∷ 87 ∷ 88 ∷ 89 ∷ 90 ∷ 97 ∷ 98 ∷ 99 ∷ 100 ∷ 101 ∷ 102 ∷ 103 ∷ 104 ∷ 105 ∷ 106
    ∷ 107 ∷ 108 ∷ 109 ∷ 110 ∷ 111 ∷ 112 ∷ 113 ∷ 114 ∷ 115 ∷ 116 ∷ 117 ∷ 118 ∷ 119 ∷ 120 ∷ 121 ∷ 122
    ∷ 48 ∷ 49 ∷ 50 ∷ 51 ∷ 52 ∷ 53 ∷ 54 ∷ 55 ∷ 56 ∷ 57 ∷ 43 ∷ 47 ∷ []

-- The table, with -1 as its bits, 255.
abbrev pub detab : Bytes
detab =
    255 ∷ 255 ∷ 255 ∷ 255 ∷ 255 ∷ 255 ∷ 255 ∷ 255 ∷ 255 ∷ 255 ∷ 255 ∷ 255 ∷ 255 ∷ 255 ∷ 255 ∷ 255
    ∷ 255 ∷ 255 ∷ 255 ∷ 255 ∷ 255 ∷ 255 ∷ 255 ∷ 255 ∷ 255 ∷ 255 ∷ 255 ∷ 255 ∷ 255 ∷ 255 ∷ 255 ∷ 255
    ∷ 255 ∷ 255 ∷ 255 ∷ 255 ∷ 255 ∷ 255 ∷ 255 ∷ 255 ∷ 255 ∷ 255 ∷ 255 ∷ 62 ∷ 255 ∷ 255 ∷ 255 ∷ 63
    ∷ 52 ∷ 53 ∷ 54 ∷ 55 ∷ 56 ∷ 57 ∷ 58 ∷ 59 ∷ 60 ∷ 61 ∷ 255 ∷ 255 ∷ 255 ∷ 255 ∷ 255 ∷ 255 ∷ 255 ∷ 0
    ∷ 1 ∷ 2 ∷ 3 ∷ 4 ∷ 5 ∷ 6 ∷ 7 ∷ 8 ∷ 9 ∷ 10 ∷ 11 ∷ 12 ∷ 13 ∷ 14 ∷ 15 ∷ 16 ∷ 17 ∷ 18 ∷ 19 ∷ 20 ∷ 21
    ∷ 22 ∷ 23 ∷ 24 ∷ 25 ∷ 255 ∷ 255 ∷ 255 ∷ 255 ∷ 255 ∷ 255 ∷ 26 ∷ 27 ∷ 28 ∷ 29 ∷ 30 ∷ 31 ∷ 32 ∷ 33
    ∷ 34 ∷ 35 ∷ 36 ∷ 37 ∷ 38 ∷ 39 ∷ 40 ∷ 41 ∷ 42 ∷ 43 ∷ 44 ∷ 45 ∷ 46 ∷ 47 ∷ 48 ∷ 49 ∷ 50 ∷ 51 ∷ 255
    ∷ 255 ∷ 255 ∷ 255 ∷ 255 ∷ 255 ∷ 255 ∷ 255 ∷ 255 ∷ 255 ∷ 255 ∷ 255 ∷ 255 ∷ 255 ∷ 255 ∷ 255 ∷ 255
    ∷ 255 ∷ 255 ∷ 255 ∷ 255 ∷ 255 ∷ 255 ∷ 255 ∷ 255 ∷ 255 ∷ 255 ∷ 255 ∷ 255 ∷ 255 ∷ 255 ∷ 255 ∷ 255
    ∷ 255 ∷ 255 ∷ 255 ∷ 255 ∷ 255 ∷ 255 ∷ 255 ∷ 255 ∷ 255 ∷ 255 ∷ 255 ∷ 255 ∷ 255 ∷ 255 ∷ 255 ∷ 255
    ∷ 255 ∷ 255 ∷ 255 ∷ 255 ∷ 255 ∷ 255 ∷ 255 ∷ 255 ∷ 255 ∷ 255 ∷ 255 ∷ 255 ∷ 255 ∷ 255 ∷ 255 ∷ 255
    ∷ 255 ∷ 255 ∷ 255 ∷ 255 ∷ 255 ∷ 255 ∷ 255 ∷ 255 ∷ 255 ∷ 255 ∷ 255 ∷ 255 ∷ 255 ∷ 255 ∷ 255 ∷ 255
    ∷ 255 ∷ 255 ∷ 255 ∷ 255 ∷ 255 ∷ 255 ∷ 255 ∷ 255 ∷ 255 ∷ 255 ∷ 255 ∷ 255 ∷ 255 ∷ 255 ∷ 255 ∷ 255
    ∷ 255 ∷ 255 ∷ 255 ∷ 255 ∷ 255 ∷ 255 ∷ 255 ∷ 255 ∷ 255 ∷ 255 ∷ 255 ∷ 255 ∷ 255 ∷ 255 ∷ 255 ∷ 255
    ∷ 255 ∷ 255 ∷ 255 ∷ 255 ∷ 255 ∷ 255 ∷ 255 ∷ 255 ∷ 255 ∷ 255 ∷ 255 ∷ 255 ∷ 255 ∷ 255 ∷ 255 ∷ 255
    ∷ 255 ∷ 255 ∷ 255 ∷ 255 ∷ []

unfoldable pub symbol : ℕ → ℕ
symbol v = get_or entab v 0

-- The value of a symbol; `none` is -1, which makes the word that it is put into negative.
unfoldable pub value : ℕ → Option ℕ
value c = if get_or detab c 255 == 255 then none else some (get_or detab c 255)

-- Three bytes as four symbols, with what the later rounds write.
unfoldable pub encode_three : ℕ → ℕ → ℕ → Bytes → Bytes
encode_three a b c rest =
    symbol (a / 2 ^ 2)
    ∷ symbol (bit_and (bit_or (a * 2 ^ 4) (b / 2 ^ 4)) 0x3f)
    ∷ symbol (bit_and (bit_or (b * 2 ^ 2) (c / 2 ^ 6)) 0x3f)
    ∷ symbol (bit_and c 0x3f)
    ∷ rest

unfoldable pub base64_encode : Bytes → Bytes
base64_encode [] = []
base64_encode (c ∷ []) = symbol (c / 2 ^ 2) ∷ symbol (bit_and c 0x03 * 2 ^ 4) ∷ b'=' ∷ b'=' ∷ []
base64_encode (a ∷ b ∷ []) =
    symbol (a / 2 ^ 2)
    ∷ symbol (bit_or (bit_and a 0x03 * 2 ^ 4) (b / 2 ^ 4))
    ∷ symbol (bit_and b 0x0f * 2 ^ 2)
    ∷ b'='
    ∷ []
base64_encode (a ∷ b ∷ c ∷ s) = encode_three a b c (base64_encode s)

-- `m` of the values of four symbols.
unfoldable pub word : ℕ → ℕ → ℕ → ℕ → ℕ
word d0 d1 d2 d3 = bit_or (bit_or (bit_or (d0 * 2 ^ 18) (d1 * 2 ^ 12)) (d2 * 2 ^ 6)) d3

unfoldable pub byte0 : ℕ → ℕ
byte0 m = bit_and m 0x00ff0000 / 2 ^ 16

unfoldable pub byte1 : ℕ → ℕ
byte1 m = bit_and m 0x0000ff00 / 2 ^ 8

unfoldable pub byte2 : ℕ → ℕ
byte2 m = bit_and m 0x000000ff

-- The first part of the loop: four symbols, with the bytes of the later rounds.
unfoldable pub decode_four : ℕ → ℕ → ℕ → ℕ → Option Bytes → Option Bytes
decode_four c0 c1 c2 c3 later = do
  d0 ← value c0
  d1 ← value c1
  d2 ← value c2
  d3 ← value c3
  s ← later
  let m = word d0 d1 d2 d3
  some (byte0 m ∷ byte1 m ∷ byte2 m ∷ s)

-- The bytes of the last four symbols: the third, unless it is padding, and the fourth.
unfoldable pub fourth : ℕ → ℕ → ℕ → ℕ → Option Bytes
fourth d0 d1 d2 c3 =
    if c3 == b'='
    then some (byte1 (word d0 d1 d2 0) ∷ [])
    else (do d3 ← value c3; some (byte1 (word d0 d1 d2 0) ∷ byte2 (word d0 d1 d2 d3) ∷ []))

unfoldable pub third : ℕ → ℕ → ℕ → ℕ → Option Bytes
third d0 d1 c2 c3 =
    if c2 == b'='
    then if c3 == b'=' then some [] else none
    else (do d2 ← value c2; fourth d0 d1 d2 c3)

unfoldable pub decode_last : ℕ → ℕ → ℕ → ℕ → Option Bytes
decode_last c0 c1 c2 c3 = do
  d0 ← value c0
  d1 ← value c1
  s ← third d0 d1 c2 c3
  some (byte0 (word d0 d1 0 0) ∷ s)

-- The `switch` behind the loop: four symbols, or four symbols and a line break.
unfoldable pub decode_end : Bytes → Option Bytes
decode_end (c0 ∷ c1 ∷ c2 ∷ c3 ∷ []) = decode_last c0 c1 c2 c3
decode_end (c0 ∷ c1 ∷ c2 ∷ c3 ∷ x ∷ y ∷ []) =
    if not (x == b'\r') && not (y == b'\n') then none else decode_last c0 c1 c2 c3
decode_end s = none

-- The loop, while there are eight bytes: four symbols, and a line break if there is one.
unfoldable pub decode_from : Bytes → Option Bytes
decode_from (c0 ∷ c1 ∷ c2 ∷ c3 ∷ x ∷ y ∷ z ∷ w ∷ s) =
    let behind = decode_from (z ∷ w ∷ s) in
    let here = decode_from (x ∷ y ∷ z ∷ w ∷ s) in
    decode_four c0 c1 c2 c3 (if x == b'\r' then (if y == b'\n' then behind else none) else here)
decode_from s = decode_end s

unfoldable pub or_empty : Option Bytes → Bytes
or_empty none = []
or_empty (some s) = s

unfoldable pub base64_decode : Bytes → Bytes
base64_decode s = if ltb (length s) 4 then [] else or_empty (decode_from s)
