-- ===== src/Json/Safety.antt =====
-- The parser ends on every input, uses its stacks as they are defined, and leaves them empty.
pub mod Containers
pub mod Rounds
pub mod Unwind
use cocoyaxi.Base.{
  ℕ, zero, suc, ◌<◌, ◌≤◌, Bool, none, some, Option, [], ◌∷◌, ◌==◌, if◌then◌else◌, Bytes, length,
  ◌≡◌, refl, arith, Bool-cases, inl, inr,
}
use cocoyaxi.Json.Value.{Json, array, object, nil, end, FloatText}
use cocoyaxi.Json.Machine.{
  Outcome, in_object, in_array, Stacks, Label, obj_val_beg, arr_val_beg, Next, goto, finish, err,
  fault, stuck, step, at_end, outcome, run, open_with, parse_plain, top_value, empty_stacks,
  dispatch, skip_white_space, parse,
}
use cocoyaxi.Json.Scan.{Token, token, endless}
use cocoyaxi.Json.Progress.Tokens.{Takes, parse_plain-lt}
use cocoyaxi.Json.Progress.{Advances, step-Advances}
use cocoyaxi.Json.Stacks.{IsFull, IsWaiting, IsLoose, Split}
use Containers.{Inv, IsSafe, open_with-Inv}
use Rounds.{step-IsSafe}
use Unwind.{IsClean, unwind-IsClean}

outcome-IsClean :
    (again : Label → Bytes → Stacks → Outcome) (n : ℕ) (x : Next)
    → IsSafe x
    → Advances n x
    → ((l : Label) (b : Bytes) (t : Stacks) → length b < n → Inv l t → IsClean (again l b t))
    → IsClean (outcome again x)
unfolding at_end
outcome-IsClean again n (goto l b t) s a next = next l b t a s
outcome-IsClean again n (finish v b t) s a next = s
outcome-IsClean again n (err t) s a next = unwind-IsClean (suc (length t.u)) t (omega arith) s
outcome-IsClean again n fault s a next = absurd s
outcome-IsClean again n stuck s a next = absurd a

-- With more rounds than bytes the machine ends.
pub run-IsClean :
    (k : FloatText) (rounds : ℕ) (l : Label) (b : Bytes) (t : Stacks)
    → length b < rounds
    → Inv l t
    → IsClean (run k rounds l b t)
unfolding run
run-IsClean k zero l b t h i = absurd (omega arith)
run-IsClean k (suc rounds) l b t h i =
    outcome-IsClean (run k rounds) (length b) (step k l b t) (step-IsSafe k l b t i)
      (step-Advances k l b t) λ l' b' t' h' i'. run-IsClean k rounds l' b' t' (omega arith) i'

empty-Waiting : Split IsWaiting empty_stacks
empty-Waiting = record {
  held = [];
  under = [];
  splits = refl;
  context = (refl, refl, refl);
  fits = refl;
}

top_value-IsClean : (n : ℕ) (o : Token) → Takes n o → IsClean (top_value empty_stacks o)
unfolding top_value at_end
top_value-IsClean n endless h = absurd h
top_value-IsClean n (token none) h =
    unwind-IsClean 1 empty_stacks (omega arith) (record {
      held = [];
      under = [];
      splits = refl;
      context = (refl, refl, refl);
      fits = inl refl;
    })
top_value-IsClean n (token (some (v, b))) h = (refl, refl)

dispatch-IsClean : (k : FloatText) (b : Bytes) → IsClean (dispatch k b)
unfolding dispatch
dispatch-IsClean k [] = (refl, refl)
dispatch-IsClean k (c ∷ cs) = elim (Bool-cases (c == b'{')) [
  | inl brace ↦ rw brace (
      run-IsClean k (suc (length cs)) obj_val_beg cs _ (omega arith) (
        open_with-Inv obj_val_beg (object end) in_object empty_stacks refl (end, refl) tt
          empty-Waiting))
  | inr other ↦ rw other (elim (Bool-cases (c == b'[')) [
    | inl bracket ↦ rw bracket (
        run-IsClean k (suc (length cs)) arr_val_beg cs _ (omega arith) (
          open_with-Inv arr_val_beg (array nil) in_array empty_stacks refl (nil, refl) tt
            empty-Waiting))
    | inr plain ↦
        rw plain
          (top_value-IsClean (suc (length cs)) (parse_plain k c (c ∷ cs)) (parse_plain-lt k c cs))
  ])
]

-- On every input, valid or not, the parser returns, within as many rounds of its machine as there are
-- bytes and one more, and of the loop over a string's escapes as there are bytes behind its quote and
-- one more. It never pops an empty stack or takes a key for a value, and leaves both stacks, which the next
-- parse of the thread shares, empty.
pub parse-IsClean : (k : FloatText) (b : Bytes) → IsClean (parse k b)
unfolding parse
parse-IsClean k b = dispatch-IsClean k (skip_white_space b)
