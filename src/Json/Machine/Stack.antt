-- ===== src/Json/Machine/Stack.antt =====
-- The stacks of `Parser::parse` in src/json.cc, the white space between its tokens, and the end of a
-- container. A position is as in Json/Scan: `skip_white_space` steps over one byte first in the
-- source, which the model has done already. Stacks are lists, the top first.
use cocoyaxi.Base.{
  ℕ, suc, ◌-◌, Bool, ◌||◌, Option, none, some, List, [], ◌∷◌, ltb, ◌==◌, if◌then◌else◌, ◌>>=◌,
  Bytes, length, take, drop,
}
use cocoyaxi.Json.Value.{Json, array, object, Items, nil, cons, Fields, end, field}

abbrev pub is_white_space : ℕ → Bool
is_white_space c = c == b' ' || c == b'\n' || c == b'\r' || c == b'\t'

unfoldable pub skip_white_space : Bytes → Bytes
skip_white_space [] = []
skip_white_space (c ∷ cs) =
    let more = skip_white_space cs in if is_white_space c then more else c ∷ cs

-- What a slot of the stack `s` holds: the text of a key, or a value.
pub data Slot : Type 0 where
  key : Bytes → Slot
  val : Json → Slot

-- `state`: 0, '{' or '['.
pub data State : Type 0 where
  outside in_object in_array : State

-- `s`, `u` (of pairs, as they are pushed and popped), `size` and `state`.
pub record Stacks : Type 0 where
  pub s : List Slot
  pub u : List (ℕ × State)
  pub size : ℕ
  pub state : State

-- The labels of the source at which a round starts.
pub data Label : Type 0 where
  obj_val_beg obj_val_end arr_val_beg arr_val_end : Label

-- How a round ends: at a label, with a value at the label `end`, at the label `err`, with a read of the
-- stacks that the program does not define, or not at all, in a token that does not end.
pub data Next : Type 0 where
  goto : Label → Bytes → Stacks → Next
  finish : Json → Bytes → Stacks → Next
  err : Stacks → Next
  fault stuck : Next

-- What `parse` returns, with the stacks as it leaves them: the value and whether the whole input was
-- read, or the label `err`; `fault` is a use of the stacks that is not defined, and `unfinished` is
-- said when the rounds have run out, also those of a token.
pub data Outcome : Type 0 where
  value : Bool → Json → Stacks → Outcome
  failed : Stacks → Outcome
  fault unfinished : Outcome

unfoldable pub push : Slot → Stacks → Stacks
push x t = record t { s = x ∷ t.s }

-- `obj_beg` and `arr_beg`.
unfoldable pub open_with : Json → State → Stacks → Stacks
open_with v st t = record {
  s = val v ∷ t.s;
  u = (t.size, t.state) ∷ t.u;
  size = suc (length t.s);
  state = st;
}

-- The slots above the container, the last first, as its contents.
unfoldable pub to_items : List Slot → Items → Option Items
to_items [] a = some a
to_items (val v ∷ r) a = to_items r (cons v a)
to_items (key k ∷ r) a = none

unfoldable pub to_fields : List Slot → Fields → Option Fields
to_fields [] f = some f
to_fields (val v ∷ key k ∷ r) f = to_fields r (field k v f)
to_fields s f = none

-- `((_H*)s.back())->p = p` for the container at the top.
unfoldable pub fill : List Slot → List Slot → Option (List Slot)
fill (val (array a) ∷ r) slots = do a' ← to_items slots nil; some (val (array a') ∷ r)
fill (val (object f) ∷ r) slots = do f' ← to_fields slots end; some (val (object f') ∷ r)
fill s slots = none

-- The `if` at `arr_end` and `obj_end`: the slots above `size` move to the container under them.
unfoldable pub collect : Stacks → Option Stacks
collect t =
    let n = length t.s - t.size in
    if ltb t.size (length t.s)
    then (do s' ← fill (drop n t.s) (take n t.s); some (record t { s = s' }))
    else some t

-- The top of `s` at the end of the outermost container.
unfoldable pub pop_value : Bytes → List Slot → List (ℕ × State) → ℕ → Next
pop_value b (val v ∷ s) u n = finish v b (record { s = s; u = u; size = n; state = outside })
pop_value b s u n = fault

-- The rest of `obj_end`: back to the container around, or to the end with the value.
unfoldable pub resume_in : State → Bytes → Stacks → List (ℕ × State) → ℕ → Next
resume_in in_object b t u n = goto obj_val_end b (record t { u = u; size = n; state = in_object })
resume_in in_array b t u n = goto arr_val_end b (record t { u = u; size = n; state = in_array })
resume_in outside b t u n = pop_value b t.s u t.size

unfoldable pub resume : Bytes → Stacks → List (ℕ × State) → Next
resume b t [] = fault
resume b t ((n, st) ∷ u) = resume_in st b t u n

unfoldable pub close_as : Bytes → Option Stacks → Next
close_as b none = fault
close_as b (some t) = resume b t t.u

unfoldable pub close : Bytes → Stacks → Next
close b t = close_as b (collect t)
