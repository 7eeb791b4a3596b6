-- ===== src/Str/Tests.antt =====
-- The string functions at short texts, and the theorems there.
use cocoyaxi.Base.{true, Option, some, none, [], ◌∷◌, ◌≡◌, refl, Bytes, ◌^◌, ◌-◌}
use cocoyaxi.Str.Split.{memchr, split_from, split, replace}
use cocoyaxi.Str.Searches.{memchr-IsSearch, split-IsSplit, IsReplaced, replace-IsReplaced}
use cocoyaxi.Str.Pieces.{IsSplit}
use cocoyaxi.Str.Match.{match_from, match}
use cocoyaxi.Str.Glob.{glob}
use cocoyaxi.Str.Wildcards.{match-glob}
use cocoyaxi.Str.Number.{Parsed, to_int64, to_int32, to_uint64}

-- `|x|y|`.
abbrev bars : Bytes
bars = b'|' ∷ b'x' ∷ b'|' ∷ b'y' ∷ b'|' ∷ []

-- `a*b?c*`.
abbrev pattern_text : Bytes
pattern_text = b'a' ∷ b'*' ∷ b'b' ∷ b'?' ∷ b'c' ∷ b'*' ∷ []

-- `axbxbycz`.
abbrev subject : Bytes
subject = b'a' ∷ b'x' ∷ b'b' ∷ b'x' ∷ b'b' ∷ b'y' ∷ b'c' ∷ b'z' ∷ []

three_pieces : split bars b'|' 0 ≡ [] ∷ (b'x' ∷ []) ∷ (b'y' ∷ []) ∷ []
unfolding split split_from
three_pieces = refl

limited_pieces : split bars b'|' 2 ≡ [] ∷ (b'x' ∷ []) ∷ (b'y' ∷ b'|' ∷ []) ∷ []
unfolding split split_from
limited_pieces = refl

matched : match subject pattern_text ≡ some true
unfolding match match_from
matched = refl

split-IsSplit_example : IsSplit (b'|' ∷ []) 2 bars (split bars b'|' 2)
split-IsSplit_example = split-IsSplit b'|' 2 bars

match-glob_example : match subject pattern_text ≡ some (glob pattern_text subject)
match-glob_example = match-glob subject pattern_text

-- A search for a text of one byte.
abbrev find_byte : Bytes → Bytes → Option (Bytes × Bytes)
find_byte [] s = none
find_byte (c ∷ sub) s = memchr c s

replace-IsReplaced_example :
    IsReplaced
      (b'|' ∷ [])
      (b',' ∷ b' ' ∷ [])
      0
      bars
      (replace find_byte bars (b'|' ∷ []) (b',' ∷ b' ' ∷ []) 0)
replace-IsReplaced_example =
    replace-IsReplaced find_byte b'|' [] (b',' ∷ b' ' ∷ []) 0 bars (memchr-IsSearch b'|')

-- `-2g`, where two bytes are used for the number -2.
abbrev minus_two : Bytes → Parsed
minus_two s = record { value = 2 ^ 64 - 2; used = 2; errno = 0 }

abbrev two_g : Bytes
two_g = b'-' ∷ b'2' ∷ b'g' ∷ []

lowest : to_int32 minus_two two_g ≡ record { value = 2 ^ 31; error = 0 }
unfolding to_int32 to_int64
lowest = refl

-- A unit alone, for which `strtoll` uses no bytes, is taken for 0 with no error.
unit_alone :
    to_int32 (λ s. record { value = 0; used = 0; errno = 0 }) (b'k' ∷ [])
    ≡ record { value = 0; error = 0 }
unfolding to_int32 to_int64
unit_alone = refl

-- The largest number of 64 bits with a unit behind it is not refused, and its bits wrap around.
wrapped :
    to_uint64
      (λ s. record { value = 2 ^ 64 - 1; used = 20; errno = 0 })
      (b'1' ∷ b'8' ∷ b'4' ∷ b'4' ∷ b'6' ∷ b'7' ∷ b'4' ∷ b'4' ∷ b'0' ∷ b'7' ∷ b'3' ∷ b'7' ∷ b'0'
        ∷ b'9' ∷ b'5' ∷ b'5' ∷ b'1' ∷ b'6' ∷ b'1' ∷ b'5' ∷ b'k' ∷ [])
    ≡ record { value = 2 ^ 64 - 1024; error = 0 }
unfolding to_uint64
wrapped = refl
