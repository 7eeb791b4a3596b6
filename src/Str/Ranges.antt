-- ===== src/Str/Ranges.antt =====
-- The parsers of signed integers against the numbers that the texts stand for.
use cocoyaxi.Base.{
  ℕ, suc, ◌-◌, ◌*◌, ◌^◌, ◌<◌, Bool, false, ◌&&◌, not, [], ◌∷◌, ◌==◌, ltb, leb, if◌then◌else◌, Bytes,
  length, ◌≡◌, ◌⊎◌, inl, inr, refl, arith, Bool-cases,
}
use cocoyaxi.Str.Number.{
  einval, erange, Parsed, Result, refuse, accept, is_negative, magnitude, shift_of, last_byte,
  shift_int64, to_int64, whole_or_unit,
}

-- An integer of any size: whether it is negative, and its absolute value.
abbrev pub Signed : Type 0
Signed = Bool × ℕ

-- What a text stands for: no number; a number that has no 64 bits; or a number, with the unit behind
-- it, which is not bounded by a machine word.
pub data Meaning : Type 0 where
  no_number beyond : Meaning
  number : Signed → Meaning

-- `ERANGE` of `strtoll` stands for a number that has no 64 bits, and no bytes used for no number. An
-- empty text stands for 0.
abbrev pub denoted : Bytes → Parsed → Meaning
denoted [] p = number (false, 0)
denoted (c ∷ s) p =
    if p.errno == erange
    then beyond
    else if p.used == 0
    then no_number
    else if p.used == length (c ∷ s)
    then number (is_negative p.value, magnitude p.value)
    else if suc p.used == length (c ∷ s) && not (shift_of (last_byte (c ∷ s)) == 0)
    then number (is_negative p.value, magnitude p.value * 2 ^ shift_of (last_byte (c ∷ s)))
    else no_number

-- What `strtoll` is documented to give: a value of 64 bits, and no error, `ERANGE`, or `EINVAL` if it
-- used no bytes.
pub record IsDocumented (p : Parsed) : Type 0 where
  pub bits : p.value < 2 ^ 64
  pub errors : (p.errno ≡ 0) ⊎ ((p.errno ≡ erange) ⊎ ((p.errno ≡ einval) × (p.used ≡ 0)))

-- The text is a unit with no number before it.
abbrev pub is_lone_unit : Bytes → Bool
is_lone_unit [] = false
is_lone_unit (c ∷ []) = not (shift_of c == 0)
is_lone_unit (c ∷ d ∷ s) = false

-- The number is one of those of a signed integer, whose absolute values go up to `limit`.
abbrev pub is_within : ℕ → Signed → Bool
is_within limit (negative, m) = if negative then leb m limit else ltb m limit

-- The result of a parser of integers of `2 * limit` bit patterns: `EINVAL` and 0 for a text that is no
-- number; the number itself if it is in range; and `ERANGE` and 0 if it is not.
abbrev pub Gives : ℕ → Meaning → Result → Type 0
Gives limit no_number r = (r.value ≡ 0) × (r.error ≡ einval)
Gives limit beyond r = (r.value ≡ 0) × (r.error ≡ erange)
Gives limit (number n) r =
    if is_within limit n
    then (r.error ≡ 0)
      × (r.value < 2 * limit)
      × (n.0 ≡ leb limit r.value)
      × (n.1 ≡ (if leb limit r.value then 2 * limit - r.value else r.value))
    else (r.value ≡ 0) × (r.error ≡ erange)

scaled_10 :
    (x : ℕ)
    → x < 2 ^ 64
    → Gives (2 ^ 63) (number (is_negative x, magnitude x * 2 ^ 10)) (shift_int64 10 x)
scaled_10 x h = ground arith

scaled_20 :
    (x : ℕ)
    → x < 2 ^ 64
    → Gives (2 ^ 63) (number (is_negative x, magnitude x * 2 ^ 20)) (shift_int64 20 x)
scaled_20 x h = ground arith

scaled_30 :
    (x : ℕ)
    → x < 2 ^ 64
    → Gives (2 ^ 63) (number (is_negative x, magnitude x * 2 ^ 30)) (shift_int64 30 x)
scaled_30 x h = ground arith

scaled_40 :
    (x : ℕ)
    → x < 2 ^ 64
    → Gives (2 ^ 63) (number (is_negative x, magnitude x * 2 ^ 40)) (shift_int64 40 x)
scaled_40 x h = ground arith

scaled_50 :
    (x : ℕ)
    → x < 2 ^ 64
    → Gives (2 ^ 63) (number (is_negative x, magnitude x * 2 ^ 50)) (shift_int64 50 x)
scaled_50 x h = ground arith

unit_cases :
    (c : ℕ)
    → (shift_of c ≡ 0)
      ⊎ ((shift_of c ≡ 10)
          ⊎ ((shift_of c ≡ 20) ⊎ ((shift_of c ≡ 30) ⊎ ((shift_of c ≡ 40) ⊎ (shift_of c ≡ 50)))))
unit_cases c = ground arith

abbrev scaled_number : ℕ → ℕ → Meaning
scaled_number k x = if not (k == 0) then number (is_negative x, magnitude x * 2 ^ k) else no_number

abbrev scaled_result : ℕ → ℕ → Result
scaled_result k x = if k == 0 then refuse einval else shift_int64 k x

scaled_unit :
    (c x : ℕ)
    → x < 2 ^ 64
    → Gives (2 ^ 63) (scaled_number (shift_of c) x) (scaled_result (shift_of c) x)
scaled_unit c x h = elim (unit_cases c) [
  | inl e ↦ rw e (refl, refl)
  | inr (inl e) ↦ rw e (scaled_10 x h)
  | inr (inr (inl e)) ↦ rw e (scaled_20 x h)
  | inr (inr (inr (inl e))) ↦ rw e (scaled_30 x h)
  | inr (inr (inr (inr (inl e)))) ↦ rw e (scaled_40 x h)
  | inr (inr (inr (inr (inr e)))) ↦ rw e (scaled_50 x h)
]

plain_number :
    (x : ℕ) → x < 2 ^ 64 → Gives (2 ^ 63) (number (is_negative x, magnitude x)) (accept x)
plain_number x h = ground arith

nothing_used :
    (c : ℕ) (s : Bytes) (p : Parsed)
    → is_lone_unit (c ∷ s) ≡ false
    → (p.errno ≡ 0) ⊎ (p.errno ≡ einval)
    → p.used ≡ 0
    → Gives (2 ^ 63) no_number (whole_or_unit shift_int64 (c ∷ s) p)
nothing_used c s p alone (inr e) none = rw e (refl, refl)
nothing_used c [] p alone (inl e) none =
    let no_unit : shift_of c ≡ 0 = ground (arith, alone) in rw e (rw none (rw no_unit (refl, refl)))
nothing_used c (d ∷ s) p alone (inl e) none =
    let not_all : (0 == length (c ∷ d ∷ s)) ≡ false = ground arith in
    let not_but_one : (1 == length (c ∷ d ∷ s)) ≡ false = ground arith in
    rw e (rw none (rw (not_all, not_but_one) (refl, refl)))

read_number :
    (c : ℕ) (s : Bytes) (p : Parsed)
    → p.value < 2 ^ 64
    → p.errno ≡ 0
    → (p.used == 0) ≡ false
    → Gives (2 ^ 63) (denoted (c ∷ s) p) (whole_or_unit shift_int64 (c ∷ s) p)
read_number c s p h err some_used = rw err (
    rw some_used (elim (Bool-cases (p.used == length (c ∷ s))) [
      | inl f ↦ rw f (plain_number p.value h)
      | inr f ↦ elim (Bool-cases (suc p.used == length (c ∷ s))) [
        | inl g ↦ rw f (rw g (scaled_unit (last_byte (c ∷ s)) p.value h))
        | inr g ↦ rw f (rw g (refl, refl))
      ]
    ]))

read_or_nothing :
    (c : ℕ) (s : Bytes) (p : Parsed)
    → p.value < 2 ^ 64
    → is_lone_unit (c ∷ s) ≡ false
    → p.errno ≡ 0
    → Gives (2 ^ 63) (denoted (c ∷ s) p) (whole_or_unit shift_int64 (c ∷ s) p)
read_or_nothing c s p h alone err = elim (Bool-cases (p.used == 0)) [
  | inl none ↦
      let zero_errno : (p.errno == erange) ≡ false = ground (arith, err) in
      rw (zero_errno, none) (nothing_used c s p alone (inl err) (ground arith))
  | inr some_used ↦ read_number c s p h err some_used
]

-- `to_int64` gives the number that the text stands for, with its unit (k, m, g, t or p), if it is one
-- of 64 bits, and no error; for a number that is not, it gives 0 and ERANGE, and 0 and EINVAL for a
-- text that is no number, but for a unit alone. What `strtoll` gives is as it is documented.
pub to_int64-Gives :
    (strtoll : Bytes → Parsed) (s : Bytes)
    → IsDocumented (strtoll s)
    → is_lone_unit s ≡ false
    → Gives (2 ^ 63) (denoted s (strtoll s)) (to_int64 strtoll s)
unfolding to_int64
to_int64-Gives strtoll [] h alone = (refl, omega arith, refl, refl)
to_int64-Gives strtoll (c ∷ s) h alone =
    let p = strtoll (c ∷ s) in
    elim h.errors [
      | inl e ↦ read_or_nothing c s p h.bits alone e
      | inr (inl e) ↦ rw e (refl, refl)
      | inr (inr (e, none)) ↦ rw e (rw none (refl, refl))
    ]
