-- ===== src/Json/Machine/Unwind.antt =====
-- The labels `end` and `err` of `Parser::parse` in src/json.cc.
use cocoyaxi.Base.{
  ℕ, zero, suc, ◌-◌, ◌%◌, Bool, true, false, Option, none, some, List, [], ◌∷◌, ltb, ◌==◌,
  if◌then◌else◌, ◌>>=◌, Bytes, length, take, drop,
}
use cocoyaxi.Json.Value.{Json, null}
use cocoyaxi.Json.Machine.Stack.{
  skip_white_space, Slot, val, State, outside, in_object, in_array, Stacks, fill, Outcome, value,
  failed, fault, unfinished,
}

-- Whether the whole input was read.
unfoldable pub is_end : Bytes → Bool
is_end [] = true
is_end (c ∷ cs) = false

-- The label `end`.
unfoldable pub at_end : Json → Bytes → Stacks → Outcome
at_end v b t = value (is_end (skip_white_space b)) v t

-- The slots that the label `err` moves into a container: a key with no value gets a null one.
unfoldable pub patch : State → List Slot → List Slot
patch in_object slots = if length slots % 2 == 1 then val null ∷ slots else slots
patch in_array slots = slots
patch outside slots = slots

-- The first part of a round at `err`: the slots above `size` move to their container.
unfoldable pub gather : Stacks → Option (List Slot)
gather t =
    let n = length t.s - t.size in
    if ltb t.size (length t.s) then fill (drop n t.s) (patch t.state (take n t.s)) else some t.s

-- The second part: the stack `u` is popped, and outside of all containers the partial value too;
-- then the loop ends, which the flag says.
unfoldable pub leave : State → List Slot → List (ℕ × State) → ℕ → Option (Stacks × Bool)
leave in_object s u n = some (record { s = s; u = u; size = n; state = in_object }, false)
leave in_array s u n = some (record { s = s; u = u; size = n; state = in_array }, false)
leave outside [] u n = none
leave outside (v ∷ s) u n = some (record { s = s; u = u; size = n; state = outside }, true)

unfoldable pub pop_state : List Slot → List (ℕ × State) → Option (Stacks × Bool)
pop_state s [] = none
pop_state s ((n, st) ∷ u) = leave st s u n

unfoldable pub unwind_step : Stacks → Option (Stacks × Bool)
unwind_step t = do s ← gather t; pop_state s t.u

-- The loop at `err`, which ends at the outermost container.
unfoldable pub unwind_next : (Stacks → Outcome) → Option (Stacks × Bool) → Outcome
unwind_next again none = fault
unwind_next again (some (t, true)) = failed t
unwind_next again (some (t, false)) = again t

unfoldable pub is_empty : List Slot → Bool
is_empty [] = true
is_empty (x ∷ s) = false

unfoldable pub unwind : ℕ → Stacks → Outcome
unwind zero t = unfinished
unwind (suc rounds) t =
    let later = unwind_next (unwind rounds) (unwind_step t) in
    if is_empty t.s then failed t else later
