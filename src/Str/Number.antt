-- ===== src/Str/Number.antt =====
-- `to_bool` and the parsers of integers of src/str.cc, where `co::error` is `errno`. A 64-bit integer is
-- its bit pattern. A string holds no null byte.
use cocoyaxi.Base.{
  ℕ, suc, ◌-◌, ◌*◌, ◌%◌, ◌^◌, Bool, true, false, ◌&&◌, ◌||◌, not, [], ◌∷◌, ◌==◌, ltb, leb,
  if◌then◌else◌, Bytes, length,
}

abbrev pub einval : ℕ
einval = 22

abbrev pub erange : ℕ
erange = 34

-- What `strtoll` and `strtoull` give: the bits of the value, how many bytes they used, and `errno`.
pub record Parsed : Type 0 where
  pub value : ℕ
  pub used : ℕ
  pub errno : ℕ

-- A value and `co::error`.
pub record Result : Type 0 where
  pub value : ℕ
  pub error : ℕ

abbrev pub refuse : ℕ → Result
refuse e = record { value = 0; error = e }

abbrev pub accept : ℕ → Result
accept x = record { value = x; error = 0 }

abbrev pub is_negative : ℕ → Bool
is_negative x = leb (2 ^ 63) x

-- The absolute value of a signed integer, as a number.
abbrev pub magnitude : ℕ → ℕ
magnitude x = if is_negative x then 2 ^ 64 - x else x

-- `_Shift`.
abbrev pub shift_of : ℕ → ℕ
shift_of c =
    if c == b'k' || c == b'K'
    then 10
    else if c == b'm' || c == b'M'
    then 20
    else if c == b'g' || c == b'G'
    then 30
    else if c == b't' || c == b'T'
    then 40
    else if c == b'p' || c == b'P'
    then 50
    else 0

abbrev pub last_byte : Bytes → ℕ
last_byte [] = 0
last_byte (c ∷ []) = c
last_byte (c ∷ d ∷ s) = last_byte (d ∷ s)

-- `x < (INT64_MIN >> shift) || x > (INT64_MAX >> shift)`.
abbrev pub out_of_range : ℕ → ℕ → Bool
out_of_range shift x =
    if is_negative x then ltb (2 ^ (63 - shift)) (magnitude x) else leb (2 ^ (63 - shift)) x

-- A number with a unit behind it.
abbrev pub shift_int64 : ℕ → ℕ → Result
shift_int64 shift x =
    if x == 0
    then accept 0
    else if out_of_range shift x
    then refuse erange
    else accept (x * 2 ^ shift % 2 ^ 64)

abbrev pub with_unit : (ℕ → ℕ → Result) → Bytes → ℕ → Result
with_unit scale s x =
    if shift_of (last_byte s) == 0 then refuse einval else scale (shift_of (last_byte s)) x

abbrev pub whole_or_unit : (ℕ → ℕ → Result) → Bytes → Parsed → Result
whole_or_unit scale s p =
    if not (p.errno == 0)
    then refuse p.errno
    else if p.used == length s
    then accept p.value
    else if suc p.used == length s
    then with_unit scale s p.value
    else refuse einval

unfoldable pub to_int64 : (Bytes → Parsed) → Bytes → Result
to_int64 strtoll [] = accept 0
to_int64 strtoll (c ∷ s) = whole_or_unit shift_int64 (c ∷ s) (strtoll (c ∷ s))

-- `x > INT32_MAX || x < INT32_MIN`.
abbrev pub to_int32_value : Result → Result
to_int32_value r =
    if (if is_negative r.value then ltb (2 ^ 31) (magnitude r.value) else leb (2 ^ 31) r.value)
    then refuse erange
    else record { value = r.value % 2 ^ 32; error = r.error }

unfoldable pub to_int32 : (Bytes → Parsed) → Bytes → Result
to_int32 strtoll s = to_int32_value (to_int64 strtoll s)

-- `absx > (UINT64_MAX >> shift)`, with the absolute value of the bits taken as a signed integer.
abbrev pub shift_uint64 : ℕ → ℕ → Result
shift_uint64 shift x =
    if x == 0
    then accept 0
    else if leb (2 ^ (64 - shift)) (magnitude x)
    then refuse erange
    else accept (x * 2 ^ shift % 2 ^ 64)

unfoldable pub to_uint64 : (Bytes → Parsed) → Bytes → Result
to_uint64 strtoull [] = accept 0
to_uint64 strtoull (c ∷ s) = whole_or_unit shift_uint64 (c ∷ s) (strtoull (c ∷ s))

abbrev pub to_uint32_value : Result → Result
to_uint32_value r =
    if leb (2 ^ 32) (magnitude r.value)
    then refuse erange
    else record { value = r.value % 2 ^ 32; error = r.error }

unfoldable pub to_uint32 : (Bytes → Parsed) → Bytes → Result
to_uint32 strtoull s = to_uint32_value (to_uint64 strtoull s)

abbrev pub same_text : Bytes → Bytes → Bool
same_text [] [] = true
same_text [] (d ∷ t) = false
same_text (c ∷ s) [] = false
same_text (c ∷ s) (d ∷ t) = c == d && same_text s t

unfoldable pub to_bool : Bytes → Bool × ℕ
to_bool s =
    if same_text s (b'f' ∷ b'a' ∷ b'l' ∷ b's' ∷ b'e' ∷ []) || same_text s (b'0' ∷ [])
    then (false, 0)
    else if same_text s (b't' ∷ b'r' ∷ b'u' ∷ b'e' ∷ []) || same_text s (b'1' ∷ [])
    then (true, 0)
    else (false, einval)
