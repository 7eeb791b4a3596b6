-- ===== src/Json/Machine.antt =====
-- `Parser::parse` of src/json.cc, a machine that goes from label to label over two stacks, and
-- `Json::parse_from`. Its parts are passed on from here.
mod Stack
mod Round
mod Unwind
unfoldable pub use Stack.*
unfoldable pub use Round.*
unfoldable pub use Unwind.*
use cocoyaxi.Base.{
  ℕ, zero, suc, ◌-◌, ◌%◌, Bool, true, false, ◌||◌, Option, none, some, List, [], ◌∷◌, ltb, ◌==◌,
  if◌then◌else◌, ◌>>=◌, Bytes, length, take, drop,
}
use cocoyaxi.Json.Value.{Json, null, array, object, Items, nil, cons, Fields, end, field, FloatText}
use cocoyaxi.Json.Scan.{
  Token, token, endless, parse_string, parse_key, parse_false, parse_true, parse_null,
}
use cocoyaxi.Json.Number.{parse_number}

abbrev pub outcome : (Label → Bytes → Stacks → Outcome) → Next → Outcome
outcome again (goto l b t) = again l b t
outcome again (finish v b t) = at_end v b t
outcome again (err t) = unwind (suc (length t.u)) t
outcome again fault = fault
outcome again stuck = unfinished

unfoldable pub run : FloatText → ℕ → Label → Bytes → Stacks → Outcome
run k zero l b t = unfinished
run k (suc rounds) l b t = outcome (run k rounds) (step k l b t)

-- `val_beg`, at the top level.
unfoldable pub top_value : Stacks → Token → Outcome
top_value t endless = unfinished
top_value t (token none) = unwind (suc (length t.u)) t
top_value t (token (some (v, b))) = at_end v b t

abbrev pub empty_stacks : Stacks
empty_stacks = record { s = []; u = []; size = 0; state = outside }

-- The first dispatch of `parse`. `false` with nothing parsed is `failed`, for the empty input too.
unfoldable pub dispatch : FloatText → Bytes → Outcome
dispatch k [] = failed empty_stacks
dispatch k (c ∷ cs) =
    if c == b'{'
    then run k (suc (length cs)) obj_val_beg cs (open_with (object end) in_object empty_stacks)
    else if c == b'['
    then run k (suc (length cs)) arr_val_beg cs (open_with (array nil) in_array empty_stacks)
    else top_value empty_stacks (parse_plain k c (c ∷ cs))

unfoldable pub parse : FloatText → Bytes → Outcome
parse k b = dispatch k (skip_white_space b)

-- `Json::parse_from`: the value, which a failed parse has reset to null, and the result.
unfoldable pub result : Outcome → Json × Bool
result (value true v t) = (v, true)
result _ = (null, false)

unfoldable pub parse_from : FloatText → Bytes → Json × Bool
parse_from k b = result (parse k b)
