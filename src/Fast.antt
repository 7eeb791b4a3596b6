-- ===== src/Fast.antt =====
-- Numbers to text: src/fast.cc and the inline functions of include/co/fast.h. A buffer is the list
-- of the bytes written to it; an `int64_t` is its bit pattern, below 2 ^ 64.
pub mod Decimal
pub mod Hex
mod Tests
use Prim.Native.Nat.{bit_or, bit_and}
use cocoyaxi.Base.{
  ℕ, zero, suc, ◌+◌, ◌-◌, ◌*◌, ◌/◌, ◌%◌, ◌^◌, [], ◌∷◌, ◌++◌, map, ltb, leb, ◌==◌, if◌then◌else◌,
  Bytes, length, drop,
}

-- The four bytes of an entry of the table: below 1000, the first is 16 times the count of digits
-- less one, and stands for a leading zero.
unfoldable pub g_itoa_tb : ℕ → Bytes
g_itoa_tb v =
    (if leb 1000 v then 48 + v / 1000 else if leb 100 v then 0x20 else if leb 10 v then 0x10 else 0)
    ∷ (48 + v / 100 % 10)
    ∷ (48 + v / 10 % 10)
    ∷ (48 + v % 10)
    ∷ []

-- `| 0x30303030`
unfoldable pub or_zeros : Bytes → Bytes
or_zeros = map (λ c. bit_or 0x30 c)

unfoldable pub top_byte : Bytes → ℕ
top_byte [] = 0
top_byte (c ∷ cs) = c

-- The last `n` bytes.
unfoldable pub last_bytes : ℕ → Bytes → Bytes
last_bytes n s = drop (length s - n) s

-- The common end of `u32toa` and `u64toa`: the words from `p` on hold `bytes`, and `len` is one
-- more than the number of bytes behind the first, and the count that the first byte holds less
-- three.
unfoldable pub copy_digits : Bytes → Bytes
copy_digits bytes = last_bytes (length bytes - 3 + top_byte bytes / 16) bytes

unfoldable pub u64toa : ℕ → Bytes
unfolding g_itoa_tb or_zeros copy_digits
u64toa v =
    let x1 = v / 10000 in
    let x2 = x1 / 10000 in
    let x3 = x2 / 10000 in
    let x4 = x3 / 10000 in
    let low4 = or_zeros (g_itoa_tb (v - x1 * 10000)) in
    let low3 = or_zeros (g_itoa_tb (x1 - x2 * 10000)) in
    let low2 = or_zeros (g_itoa_tb (x2 - x3 * 10000)) in
    let low1 = or_zeros (g_itoa_tb (x3 - x4 * 10000)) in
    if ltb 9999 v
    then if ltb 9999 x1
      then if ltb 9999 x2
        then if ltb 9999 x3
          then copy_digits (g_itoa_tb x4 ++ (low1 ++ (low2 ++ (low3 ++ low4))))
          else copy_digits (g_itoa_tb x3 ++ (low2 ++ (low3 ++ low4)))
        else copy_digits (g_itoa_tb x2 ++ (low3 ++ low4))
      else copy_digits (g_itoa_tb x1 ++ low4)
    else copy_digits (g_itoa_tb v)

unfoldable pub u32toa : ℕ → Bytes
unfolding g_itoa_tb or_zeros copy_digits
u32toa v =
    let b1 = v / 10000 in
    let b0 = b1 / 10000 in
    let low2 = or_zeros (g_itoa_tb (v - b1 * 10000)) in
    let low1 = or_zeros (g_itoa_tb (b1 - b0 * 10000)) in
    if ltb 9999 v
    then if ltb 9999 b1
      then copy_digits (g_itoa_tb b0 ++ (low1 ++ low2))
      else copy_digits (g_itoa_tb b1 ++ low2)
    else copy_digits (g_itoa_tb v)

-- `v >= 0` reads the sign bit; `-v` is taken modulo 2 ^ 64.
unfoldable pub i64toa : ℕ → Bytes
i64toa v = if ltb v (2 ^ 63) then u64toa v else b'-' ∷ u64toa ((2 ^ 64 - v) % 2 ^ 64)

unfoldable pub i32toa : ℕ → Bytes
i32toa v = if ltb v (2 ^ 31) then u32toa v else b'-' ∷ u32toa ((2 ^ 32 - v) % 2 ^ 32)

abbrev pub hex_char : ℕ → ℕ
hex_char v = if ltb v 10 then 48 + v else 87 + v

-- The two bytes of an entry.
unfoldable pub g_itoh_tb : ℕ → Bytes
g_itoh_tb v = hex_char (v / 16) ∷ hex_char (v % 16) ∷ []

-- The loop of `u32toh` and `u64toh`, which writes entries downwards from the end of a buffer of
-- `n` entries.
unfoldable pub hex_entries : ℕ → ℕ → Bytes → Bytes
hex_entries zero v out = out
hex_entries (suc n) v out =
    let now = g_itoh_tb (bit_and v 0xff) ++ out in
    let later = hex_entries n (v / 2 ^ 8) now in if v / 2 ^ 8 == 0 then now else later

-- The entries behind "0x", less the first byte if that is a zero digit.
unfoldable pub prefix_hex : Bytes → Bytes
prefix_hex s = b'0' ∷ b'x' ∷ last_bytes (length s - (if top_byte s == b'0' then 1 else 0)) s

unfoldable pub u32toh : ℕ → Bytes
unfolding hex_entries g_itoh_tb prefix_hex top_byte last_bytes
u32toh v = prefix_hex (hex_entries 4 v [])

unfoldable pub u64toh : ℕ → Bytes
unfolding hex_entries g_itoh_tb prefix_hex top_byte last_bytes
u64toh v = prefix_hex (hex_entries 8 v [])
