-- ===== src/Json/Integers.antt =====
-- `parse_number` reads back the text of an integer.
use Prim.Native.Nat.{compare, Ordering}
use cocoyaxi.Base.{
  ℕ, suc, ◌+◌, ◌-◌, ◌%◌, ◌^◌, ◌≤◌, ◌<◌, true, false, some, [], ◌∷◌, ◌++◌, ltb, Bytes, length,
  take_append, ◌≡◌, ◌⊎◌, refl, sym, ap, ◌∙◌, arith, Bool-cases, inl, inr, lt→ltb, le→not_ltb,
}
use cocoyaxi.Fast.{u64toa, i64toa}
use cocoyaxi.Fast.Decimal.{dec, decimal, u64toa-decimal}
use cocoyaxi.Json.Value.{int, FloatText}
use cocoyaxi.Json.Number.{
  is_digit, scan_digits, scan_number, accumulate, str2int, memcmp, min_text, number_value,
  limited_value, parse_number,
}
use cocoyaxi.Json.Digits.{
  EndsNumber, scan_digits-decimal, dec-append, length-dec, accumulate-dec, dec-head, then_order,
  memcmp-dec,
}

-- The text of a number below 2 ^ 63 + 1, and of its sign.
abbrev digits_of : ℕ → Bytes → Bytes
digits_of n r = dec (suc n) n r

scan_number_digit : (n : ℕ) (r : Bytes) → scan_number (digits_of n r) ≡ scan_digits (digits_of n r)
unfolding scan_number
scan_number_digit n r =
    let (d, r', lt, e) = dec-head (suc n) n r (omega arith) in rw e (ground arith)

str2int_digits : (n : ℕ) → n < 2 ^ 64 → str2int (digits_of n []) ≡ n
unfolding str2int
str2int_digits n h =
    let (d, r', lt, e) = dec-head (suc n) n [] (omega arith) in
    rw e (
      plain d r' lt (
        sym (ap (accumulate 0) e)
        ∙ accumulate-dec (suc n) n [] (omega arith) h
        ∙ unfold accumulate in refl))
  where
    plain :
        (d : ℕ) (r : Bytes) → d < 10 → accumulate 0 ((48 + d) ∷ r) ≡ n → str2int ((48 + d) ∷ r) ≡ n
    plain d r lt e = ground arith

number_value_short :
    (k : FloatText) (text r : Bytes) (v : ℕ)
    → length text < 20
    → str2int text ≡ v
    → number_value k false (text ++ r) r ≡ some (int v, r)
unfolding number_value
number_value_short k text r v h e =
    rw (take_append text r)
      (rw (le→not_ltb 20 (length text) (omega arith), lt→ltb (length text) 20 h, e) refl)

number_value_negative :
    (k : FloatText) (digits r : Bytes) (v : ℕ)
    → length digits ≡ 19
    → str2int (b'-' ∷ digits) ≡ v
    → ((memcmp (b'-' ∷ digits) min_text ≡ Ordering.lt)
        ⊎ ((memcmp (b'-' ∷ digits) min_text ≡ Ordering.eq) × (v ≡ 2 ^ 63)))
    → number_value k false (b'-' ∷ (digits ++ r)) r ≡ some (int v, r)
unfolding number_value limited_value
number_value_negative k digits r v h e o =
    let long : length (b'-' ∷ digits) ≡ 20 = omega arith in
    rw (take_append (b'-' ∷ digits) r) (rw long (case o))
  where
    case :
        ((memcmp (b'-' ∷ digits) min_text ≡ Ordering.lt)
          ⊎ ((memcmp (b'-' ∷ digits) min_text ≡ Ordering.eq) × (v ≡ 2 ^ 63)))
        → limited_value k (b'-' ∷ (digits ++ r)) r (b'-' ∷ digits) (memcmp (b'-' ∷ digits) min_text)
          ≡ some (int v, r)
    case (inl below) = rw below (rw e refl)
    case (inr (same, min)) = rw same (rw min refl)

min_digits : min_text ≡ b'-' ∷ dec 20 (2 ^ 63) []
unfolding dec
min_digits = refl

memcmp_minus : (a b : Bytes) → memcmp (b'-' ∷ a) (b'-' ∷ b) ≡ memcmp a b
unfolding memcmp
memcmp_minus a b = refl

str2int_negative : (n : ℕ) → n < 2 ^ 64 → str2int (b'-' ∷ digits_of n []) ≡ (2 ^ 64 - n) % 2 ^ 64
str2int_negative n h =
    unfold str2int in
    ap (λ t. (2 ^ 64 - t) % 2 ^ 64)
      (accumulate-dec (suc n) n [] (omega arith) h ∙ unfold accumulate in refl)

-- The order of a long negative text against the limit.
min_order :
    (n : ℕ)
    → n ≤ 2 ^ 63
    → 10 ^ 18 ≤ n
    → memcmp (b'-' ∷ digits_of n []) min_text ≡ then_order (compare n (2 ^ 63)) Ordering.eq
min_order n h lo = rw min_digits (
    memcmp_minus (digits_of n []) (dec 20 (2 ^ 63) [])
    ∙ memcmp-dec 18 (suc n) 20 n (2 ^ 63) [] [] (omega arith) (omega arith) lo (omega arith)
        (omega arith) (omega arith)
    ∙ ap (then_order (compare n (2 ^ 63))) (unfold memcmp in refl))

parse_number_positive :
    (k : FloatText) (n : ℕ) (r : Bytes)
    → n < 2 ^ 63
    → EndsNumber r
    → parse_number k (digits_of n [] ++ r) ≡ some (int n, r)
unfolding parse_number
parse_number_positive k n r h e =
    let whole : digits_of n [] ++ r ≡ digits_of n r = dec-append (suc n) n [] r in
    rw whole (
      rw (scan_number_digit n r ∙ scan_digits-decimal n r e) (
        rw (← whole) (
          number_value_short k (digits_of n []) r n
            (omega (arith, length-dec 18 (suc n) n [] (omega arith)))
            (str2int_digits n (omega arith)))))

-- A number of 19 digits or fewer, behind a minus sign.
negative_order :
    (n v : ℕ)
    → n ≤ 2 ^ 63
    → v ≡ (2 ^ 64 - n) % 2 ^ 64
    → 10 ^ 18 ≤ n
    → (memcmp (b'-' ∷ digits_of n []) min_text ≡ Ordering.lt)
      ⊎ ((memcmp (b'-' ∷ digits_of n []) min_text ≡ Ordering.eq) × (v ≡ 2 ^ 63))
negative_order n v h e lo = ground (arith, min_order n h lo)

parse_number_negative :
    (k : FloatText) (n : ℕ) (r : Bytes)
    → 0 < n
    → n ≤ 2 ^ 63
    → EndsNumber r
    → parse_number k (b'-' ∷ (digits_of n [] ++ r)) ≡ some (int ((2 ^ 64 - n) % 2 ^ 64), r)
unfolding parse_number
parse_number_negative k n r pos h e =
    let text : Bytes = digits_of n [] in
    let whole : text ++ r ≡ digits_of n r = dec-append (suc n) n [] r in
    let bound : length text ≤ 19 = omega (arith, length-dec 18 (suc n) n [] (omega arith)) in
    let v : ℕ = (2 ^ 64 - n) % 2 ^ 64 in
    let scanned : scan_number (b'-' ∷ (text ++ r)) ≡ some (false, r) =
      rw whole (scan_minus (digits_of n r) ∙ scan_digits-decimal n r e) in
    let value = str2int_negative n (omega arith) in
    rw scanned (elim (Bool-cases (ltb n (10 ^ 18))) [
      | inl few ↦
          let short : length text ≤ 18 = omega (arith, length-dec 17 (suc n) n [] (ground arith)) in
          number_value_short k (b'-' ∷ text) r v (omega arith) value
      | inr many ↦ elim (Bool-cases (ltb (length text) 19)) [
        | inl short ↦ number_value_short k (b'-' ∷ text) r v (ground arith) value
        | inr long ↦
            number_value_negative k text r v (ground arith) value
              (negative_order n v h refl (ground arith))
      ]
    ])
  where
    scan_minus : (b : Bytes) → scan_number (b'-' ∷ b) ≡ scan_digits b
    scan_minus b = unfold scan_number in refl

-- The text of every 64-bit pattern, read as a signed integer, is read back as that pattern, where a
-- byte follows that no number goes on with, or none.
pub parse_number-i64toa :
    (k : FloatText) (w : ℕ) (r : Bytes)
    → w < 2 ^ 64
    → EndsNumber r
    → parse_number k (i64toa w ++ r) ≡ some (int w, r)
unfolding i64toa
parse_number-i64toa k w r h e = elim (Bool-cases (ltb w (2 ^ 63))) [
  | inl positive ↦
      rw positive
        (rw (u64toa-decimal w h) (unfold decimal in parse_number_positive k w r (ground arith) e))
  | inr negative ↦
      let n : ℕ = 2 ^ 64 - w in
      let same : (2 ^ 64 - w) % 2 ^ 64 ≡ n = ground arith in
      let back : (2 ^ 64 - n) % 2 ^ 64 ≡ w = ground arith in
      rw negative (
        rw same (
          rw (u64toa-decimal n (ground arith)) (
            unfold decimal in
            parse_number_negative k n r (ground arith) (ground arith) e ∙ rw back refl)))
]

abbrev pub StartsNumber : ℕ → Type 0
StartsNumber c = (c ≡ b'-') ⊎ (is_digit c ≡ true)

-- The first byte of the text.
pub i64toa-head :
    (w : ℕ) → w < 2 ^ 64 → (c : ℕ) × (cs : Bytes) × (i64toa w ≡ c ∷ cs) × StartsNumber c
unfolding i64toa
i64toa-head w h = elim (Bool-cases (ltb w (2 ^ 63))) [
  | inl positive ↦
      let (d, cs, lt, e) = dec-head (suc w) w [] (omega arith) in
      (48 + d, cs, rw positive (u64toa-decimal w h ∙ unfold decimal in e), inr (ground arith))
  | inr negative ↦ (b'-', u64toa ((2 ^ 64 - w) % 2 ^ 64), rw negative refl, inl refl)
]
