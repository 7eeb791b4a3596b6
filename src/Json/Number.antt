-- ===== src/Json/Number.antt =====
-- `Parser::parse_number`, `str2int` and `str2double` of src/json.cc. Positions are as in Json/Scan.
use Prim.Native.Nat.{compare, Ordering}
use cocoyaxi.Base.{
  ℕ, ◌+◌, ◌-◌, ◌*◌, ◌%◌, ◌^◌, Bool, true, false, ◌&&◌, ◌||◌, Option, none, some, [], ◌∷◌, ltb, leb,
  ◌==◌, if◌then◌else◌, ◌>>=◌, Bytes, length,
}
use cocoyaxi.Json.Scan.{span}
use cocoyaxi.Json.Value.{Json, int, double, FloatText}

abbrev pub is_digit : ℕ → Bool
is_digit c = leb b'0' c && leb c b'9'

unfoldable pub skip_digits : Bytes → Bytes
skip_digits [] = []
skip_digits (c ∷ cs) = let more = skip_digits cs in if is_digit c then more else c ∷ cs

-- A digit at least, and those behind it.
unfoldable pub some_digits : Bytes → Option Bytes
some_digits [] = none
some_digits (c ∷ cs) = if is_digit c then some (skip_digits cs) else none

unfoldable pub skip_sign : Bytes → Bytes
skip_sign [] = []
skip_sign (c ∷ cs) = if c == b'-' || c == b'+' then cs else c ∷ cs

-- The exponent part, if there is one: whether the number is a double, and the end of the number.
unfoldable pub scan_exponent : Bool → Bytes → Option (Bool × Bytes)
scan_exponent is_double [] = some (is_double, [])
scan_exponent is_double (c ∷ cs) =
    if c == b'e' || c == b'E'
    then (do p ← some_digits (skip_sign cs); some (true, p))
    else some (is_double, c ∷ cs)

unfoldable pub scan_fraction : Bytes → Option (Bool × Bytes)
scan_fraction [] = some (false, [])
scan_fraction (c ∷ cs) =
    if c == b'.'
    then (do p ← some_digits cs; scan_exponent true p)
    else scan_exponent false (c ∷ cs)

-- From the first digit.
unfoldable pub scan_digits : Bytes → Option (Bool × Bytes)
scan_digits [] = none
scan_digits (c ∷ cs) =
    if c == b'0'
    then scan_fraction cs
    else if ltb c b'1' || ltb b'9' c
    then none
    else scan_fraction (skip_digits cs)

unfoldable pub scan_number : Bytes → Option (Bool × Bytes)
scan_number [] = none
scan_number (c ∷ cs) = if c == b'-' then scan_digits cs else scan_digits (c ∷ cs)

-- `v = v * 10 + *p - '0'` in a `uint64_t`.
unfoldable pub accumulate : ℕ → Bytes → ℕ
accumulate v [] = v
accumulate v (c ∷ cs) = accumulate ((v * 10 + c + (2 ^ 64 - 48)) % 2 ^ 64) cs

unfoldable pub str2int : Bytes → ℕ
str2int [] = 0
str2int (c ∷ cs) = if c == b'-' then (2 ^ 64 - accumulate 0 cs) % 2 ^ 64 else accumulate 0 (c ∷ cs)

-- The order of two texts of one length.
unfoldable pub memcmp : Bytes → Bytes → Ordering
memcmp [] bs = Ordering.eq
memcmp (a ∷ as') [] = Ordering.eq
memcmp (a ∷ as') (b ∷ bs) =
    let later = memcmp as' bs in
    elim (compare a b) [
      | Ordering.lt ↦ Ordering.lt
      | Ordering.eq ↦ later
      | Ordering.gt ↦ Ordering.gt
    ]

-- UINT64_MAX and INT64_MIN.
abbrev pub max_text : Bytes
max_text =
    49 ∷ 56 ∷ 52 ∷ 52 ∷ 54 ∷ 55 ∷ 52 ∷ 52 ∷ 48 ∷ 55 ∷ 51 ∷ 55 ∷ 48 ∷ 57 ∷ 53 ∷ 53 ∷ 49 ∷ 54 ∷ 49
    ∷ 53 ∷ []

abbrev pub min_text : Bytes
min_text =
    45 ∷ 57 ∷ 50 ∷ 50 ∷ 51 ∷ 51 ∷ 55 ∷ 50 ∷ 48 ∷ 51 ∷ 54 ∷ 56 ∷ 53 ∷ 52 ∷ 55 ∷ 55 ∷ 53 ∷ 56 ∷ 48
    ∷ 56 ∷ []

abbrev pub is_minus : Bytes → Bool
is_minus [] = false
is_minus (c ∷ cs) = c == b'-'

unfoldable pub to_double : FloatText → Bytes → Bytes → Option (Json × Bytes)
to_double k b p = do d ← k.strtod b; some (double d, p)

-- The value of a text of 20 bytes, by its order against the limit of its sign.
unfoldable pub limited_value : FloatText → Bytes → Bytes → Bytes → Ordering → Option (Json × Bytes)
limited_value k b p text Ordering.lt = some (int (str2int text), p)
limited_value k b p text Ordering.eq = some (int (if is_minus text then 2 ^ 63 else 2 ^ 64 - 1), p)
limited_value k b p text Ordering.gt = to_double k b p

-- The value of a number from `b` up to `p`: a double if it has a fraction or an exponent, or if it
-- does not fit.
unfoldable pub number_value : FloatText → Bool → Bytes → Bytes → Option (Json × Bytes)
number_value k is_double b p =
    let text = span b p in
    let n = length text in
    if is_double || ltb 20 n
    then to_double k b p
    else if ltb n 20
    then some (int (str2int text), p)
    else limited_value k b p text (memcmp text (if is_minus text then min_text else max_text))

unfoldable pub parse_number : FloatText → Bytes → Option (Json × Bytes)
parse_number k b = do (is_double, p) ← scan_number b; number_value k is_double b p
