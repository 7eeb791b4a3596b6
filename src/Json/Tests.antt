-- ===== src/Json/Tests.antt =====
-- Json values and texts on concrete inputs, and the theorems applied there.
use Prim.Native.Char.{code}
use Prim.Native.String.{String}
use cocoyaxi.Base.{
  ◌-◌, ◌^◌, true, none, some, [], ◌∷◌, ◌++◌, ◌≡◌, ◌≢◌, refl, arith, Bytes, reverse_aux,
}
use cocoyaxi.Fast.{i64toa}
use cocoyaxi.Json.Value.{Json, null, int, string, array, object, nil, cons, end, field, FloatText}
use cocoyaxi.Json.Print.{escape_onto, str}
use cocoyaxi.Json.Scan.{memchr, find_slash, string_loop, parse_string, parse_null, token, endless}
use cocoyaxi.Json.Number.{
  skip_digits, scan_exponent, scan_fraction, scan_digits, scan_number, accumulate, str2int, memcmp,
  limited_value, number_value, parse_number,
}
use cocoyaxi.Json.Machine.{
  skip_white_space, Stacks, Label, arr_val_end, goto, push, open_with, to_items, fill, collect,
  pop_value, resume_in, resume, close_as, close, parse_plain, keep_value, value_at, at_arr_val_beg,
  at_arr_val_end, step, is_end, at_end, run, empty_stacks, dispatch, parse, result, parse_from,
}
use cocoyaxi.Json.Escapes.{escaped, escape_onto-escaped}
use cocoyaxi.Json.Strings.{parse_string-escaped}
use cocoyaxi.Json.Integers.{parse_number-i64toa}
use cocoyaxi.Json.Progress.Enough.{string_loop-find_slash}
use cocoyaxi.Json.Progress.{Advances, step-Advances}
use cocoyaxi.Json.Safety.{parse-IsClean}
use cocoyaxi.Json.Safety.Unwind.{IsClean}
use cocoyaxi.Json.Text.{text, str-text}
use cocoyaxi.Json.RoundTrip.{parse_from-str}

-- The code points of a text, which are its bytes if it is ASCII.
abbrev codes : String → Bytes
codes String.[] = []
codes (String.◌∷◌ c s) = code c ∷ codes s

abbrev no_floats : FloatText
no_floats = record { strtod = λ b. none; dtoa = λ m d. [] }

-- {"a":[1,-20,null],"b":"x\"\\\n","c":{}}
abbrev sample : Json
sample = object (
    field (codes "a") (array (cons (int 1) (cons (int (2 ^ 64 - 20)) (cons null nil))))
      (field (codes "b") (string (codes "x\"\\\n")) (field (codes "c") (object end) end)))

abbrev long_text : Bytes
long_text = codes "0123456789\t"

-- A comma before a closing bracket is accepted.
trailing_comma : parse_from no_floats (codes "[null,]") ≡ (array (cons null nil), true)
unfolding parse_from parse result skip_white_space dispatch run step at_arr_val_beg at_arr_val_end
    value_at parse_plain keep_value push open_with close close_as collect fill to_items resume
    resume_in pop_value at_end is_end parse_null
trailing_comma = refl

-- The largest unsigned number is kept as the bits of -1.
unsigned_kept : parse_number no_floats (codes "18446744073709551615") ≡ some (int (2 ^ 64 - 1), [])
unfolding parse_number scan_number scan_digits scan_fraction scan_exponent skip_digits number_value
    limited_value memcmp str2int accumulate
unsigned_kept = refl

parse_from-str_example : parse_from no_floats (str no_floats 16 sample) ≡ (sample, true)
parse_from-str_example = parse_from-str no_floats 16 sample (ground arith)

parse-IsClean_example : IsClean (parse no_floats (codes "{\"a\": [1, [2"))
parse-IsClean_example = parse-IsClean no_floats (codes "{\"a\": [1, [2")

str-text_example : str no_floats 16 sample ≡ text no_floats 16 sample []
str-text_example = str-text no_floats 16 sample

parse_string-escaped_example :
    parse_string (b'"' ∷ (escaped (codes "x\"\\\n") ++ b'"' ∷ codes ",1]"))
    ≡ token (some (string (codes "x\"\\\n"), codes ",1]"))
parse_string-escaped_example = parse_string-escaped (codes "x\"\\\n") (codes ",1]") (ground arith)

parse_number-i64toa_example :
    parse_number no_floats (i64toa (2 ^ 64 - 20) ++ codes ",1]")
    ≡ some (int (2 ^ 64 - 20), codes ",1]")
parse_number-i64toa_example =
    parse_number-i64toa no_floats (2 ^ 64 - 20) (codes ",1]") (omega arith) (refl, refl, refl, refl)

escape_onto-escaped_example :
    escape_onto 12 long_text (b'"' ∷ []) ≡ reverse_aux (escaped long_text) (b'"' ∷ [])
escape_onto-escaped_example = escape_onto-escaped 12 long_text (b'"' ∷ []) (omega arith)

abbrev in_list : Stacks
in_list = record {
  s = cocoyaxi.Json.Machine.val (array nil) ∷ [];
  u = [];
  size = 1;
  state = cocoyaxi.Json.Machine.in_array;
}

step-Advances_example : Advances 4 (step no_floats arr_val_end (codes " , 1") in_list)
step-Advances_example = step-Advances no_floats arr_val_end (codes " , 1") in_list

-- The bytes behind an opening quote, up to the closing one.
abbrev escaped_text : Bytes
escaped_text = codes "a\\n\""

slash_found : find_slash escaped_text (codes "\"") ≡ some (codes "\\n\"")
unfolding find_slash memchr
slash_found = refl

string_loop-find_slash_example :
    (string_loop 9 escaped_text (codes "\"") (codes "\\n\"") [] ≢ endless)
    × (string_loop 9 escaped_text (codes "\"") (codes "\\n\"") []
        ≡ string_loop 5 escaped_text (codes "\"") (codes "\\n\"") [])
string_loop-find_slash_example =
    string_loop-find_slash 9 escaped_text (codes "\"") (codes "\\n\"") [] slash_found (omega arith)
