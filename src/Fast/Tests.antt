-- ===== src/Fast/Tests.antt =====
-- Numbers to text on concrete inputs.
use cocoyaxi.Base.{◌-◌, ◌^◌, [], ◌∷◌, ◌≡◌, refl, arith}
use cocoyaxi.Fast.{g_itoa_tb, top_byte, last_bytes, copy_digits, u64toa, i64toa}
use cocoyaxi.Fast.Decimal.{decimal, u64toa-decimal}

minus_seven : i64toa (2 ^ 64 - 7) ≡ b'-' ∷ b'7' ∷ []
unfolding i64toa u64toa copy_digits last_bytes top_byte g_itoa_tb
minus_seven = refl

u64toa-decimal_example : u64toa 18446744073709551615 ≡ decimal 18446744073709551615
u64toa-decimal_example = u64toa-decimal 18446744073709551615 (omega arith)
