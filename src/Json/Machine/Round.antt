-- ===== src/Json/Machine/Round.antt =====
-- The labels of `Parser::parse` in src/json.cc: one round of the machine from each of them.
use cocoyaxi.Base.{ℕ, Option, none, some, [], ◌∷◌, ◌==◌, if◌then◌else◌, Bytes}
use cocoyaxi.Json.Value.{array, object, nil, end, FloatText}
use cocoyaxi.Json.Scan.{
  Token, token, endless, parse_string, parse_key, parse_false, parse_true, parse_null,
}
use cocoyaxi.Json.Number.{parse_number}
use cocoyaxi.Json.Machine.Stack.{
  skip_white_space, Stacks, Label, Next, push, open_with, close, key, val, in_object, in_array,
  obj_val_beg, obj_val_end, arr_val_beg, arr_val_end, goto, err, stuck,
}

-- The token of a plain value.
unfoldable pub parse_plain : FloatText → ℕ → Bytes → Token
parse_plain k c b =
    if c == b'"'
    then parse_string b
    else if c == b'f'
    then token (parse_false b)
    else if c == b't'
    then token (parse_true b)
    else if c == b'n'
    then token (parse_null b)
    else token (parse_number k b)

-- A plain value inside a container.
unfoldable pub keep_value : Label → Stacks → Token → Next
keep_value l t endless = stuck
keep_value l t (token none) = err t
keep_value l t (token (some (v, b))) = goto l b (push (val v) t)

-- The `switch` on the first byte of a value inside a container; `l` is the label behind a plain one.
unfoldable pub value_at : FloatText → Label → Bytes → Stacks → Next
value_at k l [] t = err t
value_at k l (c ∷ cs) t =
    if c == b'{'
    then goto obj_val_beg cs (open_with (object end) in_object t)
    else if c == b'['
    then goto arr_val_beg cs (open_with (array nil) in_array t)
    else keep_value l t (parse_plain k c (c ∷ cs))

-- Behind a key, at its colon.
unfoldable pub colon_at : FloatText → Bytes → Stacks → Next
colon_at k [] t = err t
colon_at k (c ∷ cs) t = if c == b':' then value_at k obj_val_end (skip_white_space cs) t else err t

-- Behind a key, if there is one.
unfoldable pub named_at : FloatText → Stacks → Option (Bytes × Bytes) → Next
named_at k t none = err t
named_at k t (some (name, b)) = colon_at k (skip_white_space b) (push (key name) t)

-- The four labels, behind the white space.
unfoldable pub at_obj_val_beg : FloatText → Bytes → Stacks → Next
at_obj_val_beg k [] t = err t
at_obj_val_beg k (c ∷ cs) t = if c == b'}' then close cs t else named_at k t (parse_key (c ∷ cs))

unfoldable pub at_obj_val_end : Bytes → Stacks → Next
at_obj_val_end [] t = err t
at_obj_val_end (c ∷ cs) t =
    if c == b',' then goto obj_val_beg cs t else if c == b'}' then close cs t else err t

unfoldable pub at_arr_val_beg : FloatText → Bytes → Stacks → Next
at_arr_val_beg k [] t = err t
at_arr_val_beg k (c ∷ cs) t = if c == b']' then close cs t else value_at k arr_val_end (c ∷ cs) t

unfoldable pub at_arr_val_end : Bytes → Stacks → Next
at_arr_val_end [] t = err t
at_arr_val_end (c ∷ cs) t =
    if c == b',' then goto arr_val_beg cs t else if c == b']' then close cs t else err t

-- A round, from the label on.
unfoldable pub step : FloatText → Label → Bytes → Stacks → Next
step k obj_val_beg b t = at_obj_val_beg k (skip_white_space b) t
step k obj_val_end b t = at_obj_val_end (skip_white_space b) t
step k arr_val_beg b t = at_arr_val_beg k (skip_white_space b) t
step k arr_val_end b t = at_arr_val_end (skip_white_space b) t
