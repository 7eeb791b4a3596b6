-- ===== src/Json/Scan.antt =====
-- The tokens of src/json.cc: `Parser::parse_key`, `parse_string`, `parse_unicode`, `parse_number`,
-- and the literals. A position is the list of the bytes from it to the end of the input. The source
-- returns the position of a token's last byte, and every caller steps over that first; here a token
-- returns the position behind it. `none` is the null pointer.
use Prim.Native.Nat.{bit_and, bit_or}
use cocoyaxi.Base.{
  ℕ, zero, suc, ◌+◌, ◌-◌, ◌*◌, ◌/◌, ◌^◌, true, false, not, ◌&&◌, ◌||◌, Option, none, some, [], ◌∷◌,
  ltb, leb, ◌==◌, if◌then◌else◌, ◌>>=◌, Bytes, length, take, drop, tail, reverse_aux,
}
use cocoyaxi.Json.Tables.{s2e, hex_val}
use cocoyaxi.Json.Value.{Json, null, bool, string}

-- `memchr`: the position of the first `c`.
unfoldable pub memchr : ℕ → Bytes → Option Bytes
memchr c [] = none
memchr c (b ∷ bs) = let later = memchr c bs in if b == c then some (b ∷ bs) else later

-- The bytes from one position up to a later one.
abbrev pub span : Bytes → Bytes → Bytes
span b p = take (length b - length p) b

-- `find_slash(b, p)`: as `memchr`, up to the position `p` only.
unfoldable pub find_slash : Bytes → Bytes → Option Bytes
find_slash b p = do q ← memchr b'\\' (span b p); some (drop (length (span b p) - length q) b)

unfoldable pub find_quote : Bytes → Option Bytes
find_quote = memchr b'"'

-- The value and the position of the last digit.
unfoldable pub parse_hex : Bytes → Option (ℕ × Bytes)
parse_hex (b0 ∷ b1 ∷ b2 ∷ b3 ∷ bs) =
    let u0 = hex_val b0 in
    let u1 = hex_val b1 in
    let u2 = hex_val b2 in
    let u3 = hex_val b3 in
    if u0 == 16 || u1 == 16 || u2 == 16 || u3 == 16
    then none
    else some (bit_or (bit_or (bit_or (u0 * 2 ^ 12) (u1 * 2 ^ 8)) (u2 * 2 ^ 4)) u3, b3 ∷ bs)
parse_hex bs = none

-- The UTF-8 bytes of a code point, appended to a stream that is kept last byte first.
unfoldable pub put_utf8 : ℕ → Bytes → Bytes
put_utf8 u s =
    if leb u 0x7F
    then u ∷ s
    else if leb u 0x7FF
    then bit_or 0x80 (bit_and 0x3F u) ∷ bit_or 0xC0 (bit_and 0xFF (u / 2 ^ 6)) ∷ s
    else if leb u 0xFFFF
    then bit_or 0x80 (bit_and 0x3F u)
      ∷ bit_or 0x80 (bit_and 0x3F (u / 2 ^ 6))
      ∷ bit_or 0xE0 (bit_and 0xFF (u / 2 ^ 12))
      ∷ s
    else bit_or 0x80 (bit_and 0x3F u)
      ∷ bit_or 0x80 (bit_and 0x3F (u / 2 ^ 6))
      ∷ bit_or 0x80 (bit_and 0x3F (u / 2 ^ 12))
      ∷ bit_or 0xF0 (bit_and 0xFF (u / 2 ^ 18))
      ∷ s

-- The code point of a surrogate pair.
unfoldable pub join_surrogates : ℕ → ℕ × Bytes → Option (ℕ × Bytes)
join_surrogates u (v, b) =
    if ltb v 0xDC00 || ltb 0xDFFF v
    then none
    else some (0x10000 + bit_or ((u - 0xD800) * 2 ^ 10) (v - 0xDC00), b)

-- The second half of a surrogate pair, from the last digit of the first half.
unfoldable pub parse_low : ℕ → Bytes → Option (ℕ × Bytes)
parse_low u (d ∷ slash ∷ letter ∷ bs) =
    if not (slash == b'\\') || not (letter == b'u')
    then none
    else parse_hex bs >>= join_surrogates u
parse_low u bs = none

-- The position of the last digit, and the stream.
unfoldable pub parse_unicode : Bytes → Bytes → Option (Bytes × Bytes)
parse_unicode b s = do
  (u, b1) ← parse_hex b
  (code, b2) ← if leb 0xD800 u && leb u 0xDBFF then parse_low u b1 else some (u, b1)
  some (b2, put_utf8 code s)

-- One escape, from the byte behind the backslash: the position of its last byte, and the stream.
unfoldable pub escape_step : Bytes → Bytes → Option (Bytes × Bytes)
escape_step [] s = none
escape_step (x ∷ bs) s =
    if s2e x == 0
    then none
    else if not (x == b'u')
    then some (x ∷ bs, s2e x ∷ s)
    else parse_unicode bs s

-- The next quote, once the position has passed the last one.
unfoldable pub requote : Bytes → Bytes → Option Bytes
requote b p = if ltb (length b) (length p) then find_quote b else some p

-- What a token gives, unless the model runs out of rounds: `endless`.
pub data Token : Type 0 where
  token : Option (Json × Bytes) → Token
  endless : Token

-- The end of a round of the `do` loop, at `find_slash(b, p)`: the string is complete, or `again`
-- does the next round.
unfoldable pub string_next :
    (Bytes → Bytes → Bytes → Bytes → Token) → Bytes → Bytes → Bytes → Option Bytes → Token
string_next again b p s none =
    token (some (string (reverse_aux (reverse_aux (span b p) s) []), tail p))
string_next again b p s (some q) = again b p q s

-- The round behind the escape: with the next quote, or with none.
abbrev pub string_requoted :
    (Bytes → Bytes → Bytes → Bytes → Token) → Bytes → Bytes → Option Bytes → Token
string_requoted again b s none = token none
string_requoted again b s (some p) = string_next again b p s (find_slash b p)

abbrev pub string_behind :
    (Bytes → Bytes → Bytes → Bytes → Token) → Bytes → Option (Bytes × Bytes) → Token
string_behind again p none = token none
string_behind again p (some (q, s)) = string_requoted again (tail q) s (requote (tail q) p)

-- The `do` loop of `parse_string`, from a backslash at `q`. Each round takes two bytes at least.
unfoldable pub string_loop : ℕ → Bytes → Bytes → Bytes → Bytes → Token
string_loop zero b p q s = endless
string_loop (suc rounds) b p q s =
    string_behind (string_loop rounds) p (escape_step (tail q) (reverse_aux (span b q) s))

-- `parse_string` between its quotes.
unfoldable pub string_first : Bytes → Bytes → Option Bytes → Token
string_first b p none = token (some (string (span b p), tail p))
string_first b p (some q) = string_loop (suc (length b)) b p q []

abbrev pub string_closed : Bytes → Option Bytes → Token
string_closed b none = token none
string_closed b (some p) = string_first b p (find_slash b p)

-- From the opening quote.
unfoldable pub parse_string : Bytes → Token
parse_string start = string_closed (tail start) (find_quote (tail start))

unfoldable pub parse_key : Bytes → Option (Bytes × Bytes)
parse_key [] = none
parse_key (c ∷ b) =
    if not (c == b'"') then none else (do p ← memchr b'"' b; some (span b p, tail p))

-- `parse_false`, `parse_true` and `parse_null`, from their first letter.
unfoldable pub parse_false : Bytes → Option (Json × Bytes)
parse_false (b0 ∷ b1 ∷ b2 ∷ b3 ∷ b4 ∷ bs) =
    if b1 == b'a' && b2 == b'l' && b3 == b's' && b4 == b'e' then some (bool false, bs) else none
parse_false bs = none

unfoldable pub parse_true : Bytes → Option (Json × Bytes)
parse_true (b0 ∷ b1 ∷ b2 ∷ b3 ∷ bs) =
    if b1 == b'r' && b2 == b'u' && b3 == b'e' then some (bool true, bs) else none
parse_true bs = none

unfoldable pub parse_null : Bytes → Option (Json × Bytes)
parse_null (b0 ∷ b1 ∷ b2 ∷ b3 ∷ bs) =
    if b1 == b'u' && b2 == b'l' && b3 == b'l' then some (null, bs) else none
parse_null bs = none
