-- ===== src/Json/Progress.antt =====
-- Every round of the parser that goes on reads a byte at least.
pub mod Numbers
pub mod Tokens
pub mod Enough
use Prim.Native.Nat.{Ordering}
use cocoyaxi.Base.{
  ℕ, zero, suc, ◌-◌, ◌≤◌, ◌<◌, Bool, true, false, Option, none, some, [], ◌∷◌, ◌==◌, Bytes, List,
  if◌then◌else◌, length, tail, drop, ◌≡◌, refl, arith, Bool-cases, Option-cases, inl, inr,
  reverse_aux,
}
use cocoyaxi.Json.Value.{Json, FloatText}
use cocoyaxi.Json.Scan.{
  memchr, span, find_slash, find_quote, parse_hex, parse_low, join_surrogates, parse_unicode,
  escape_step, requote, string_loop, string_next, string_first, parse_string, parse_key,
  parse_false, parse_true, parse_null,
}
use cocoyaxi.Json.Number.{
  skip_digits, some_digits, skip_sign, scan_exponent, scan_fraction, scan_digits, scan_number,
  number_value, to_double, limited_value, memcmp, is_minus, min_text, max_text, parse_number,
}
use cocoyaxi.Json.Machine.{
  State, at_obj_val_beg, at_obj_val_end, at_arr_val_beg, at_arr_val_end, named_at, close_as,
  resume_in, pop_value, Label, Stacks, Next, goto, finish, err, fault, stuck, skip_white_space,
  close, resume, collect, parse_plain, keep_value, value_at, push, key, colon_at, step, obj_val_end,
  obj_val_beg, arr_val_end, arr_val_beg,
}
use Numbers.{Shorter, skip_white_space-le}
use cocoyaxi.Json.Scan.{Token, token, endless}
use Tokens.{Takes, parse_key-lt, parse_plain-lt}

-- A round ends, and if it goes on to a label, it does so at a later position.
abbrev pub Advances : ℕ → Next → Type 0
Advances n (goto l b t) = length b < n
Advances n (finish v b t) = Unit
Advances n (err t) = Unit
Advances n fault = Unit
Advances n stuck = ⊥

resume-Advances :
    (b : Bytes) (t : Stacks) (u : List (ℕ × State)) → Advances (suc (length b)) (resume b t u)
unfolding resume resume_in pop_value
resume-Advances b t u = ground arith

close_as-Advances : (b : Bytes) (o : Option Stacks) → Advances (suc (length b)) (close_as b o)
unfolding close_as
close_as-Advances b none = tt
close_as-Advances b (some t) = resume-Advances b t t.u

close-Advances : (b : Bytes) (t : Stacks) → Advances (suc (length b)) (close b t)
unfolding close
close-Advances b t = close_as-Advances b (collect t)

keep_value-Advances :
    (n : ℕ) (l : Label) (t : Stacks) (o : Token) → Takes n o → Advances n (keep_value l t o)
unfolding keep_value
keep_value-Advances n l t endless h = h
keep_value-Advances n l t (token none) h = tt
keep_value-Advances n l t (token (some (v, b))) h = h

value_at-Advances :
    (k : FloatText) (l : Label) (b : Bytes) (t : Stacks) → Advances (length b) (value_at k l b t)
unfolding value_at
value_at-Advances k l [] t = tt
value_at-Advances k l (c ∷ cs) t = ground (
  arith,
  keep_value-Advances (suc (length cs)) l t (parse_plain k c (c ∷ cs)) (parse_plain-lt k c cs),
)

Advances-mono : (m n : ℕ) (x : Next) → m ≤ n → Advances m x → Advances n x
Advances-mono m n (goto l b t) h a = omega arith
Advances-mono m n (finish v b t) h a = tt
Advances-mono m n (err t) h a = tt
Advances-mono m n fault h a = tt
Advances-mono m n stuck h a = a

colon_at-Advances : (k : FloatText) (b : Bytes) (t : Stacks) → Advances (length b) (colon_at k b t)
unfolding colon_at
colon_at-Advances k [] t = tt
colon_at-Advances k (c ∷ cs) t = elim (Bool-cases (c == b':')) [
  | inr other ↦ rw other tt
  | inl colon ↦ rw colon (
      Advances-mono _ _ (value_at k obj_val_end (skip_white_space cs) t)
        (omega (arith, skip_white_space-le cs))
        (value_at-Advances k obj_val_end (skip_white_space cs) t))
]

named_at-Advances :
    (k : FloatText) (t : Stacks) (n : ℕ) (o : Option (Bytes × Bytes))
    → Shorter n o
    → Advances n (named_at k t o)
unfolding named_at
named_at-Advances k t n none h = tt
named_at-Advances k t n (some (name, b)) h =
    Advances-mono (length (skip_white_space b)) n _ (omega (arith, skip_white_space-le b))
      (colon_at-Advances k (skip_white_space b) (push (key name) t))

at_obj_val_beg-Advances :
    (k : FloatText) (b : Bytes) (t : Stacks) → Advances (length b) (at_obj_val_beg k b t)
unfolding at_obj_val_beg
at_obj_val_beg-Advances k [] t = tt
at_obj_val_beg-Advances k (c ∷ cs) t = elim (Bool-cases (c == b'}')) [
  | inl e ↦ rw e (close-Advances cs t)
  | inr e ↦
      rw e (named_at-Advances k t (suc (length cs)) (parse_key (c ∷ cs)) (parse_key-lt (c ∷ cs)))
]

at_obj_val_end-Advances : (b : Bytes) (t : Stacks) → Advances (length b) (at_obj_val_end b t)
unfolding at_obj_val_end
at_obj_val_end-Advances [] t = tt
at_obj_val_end-Advances (c ∷ cs) t = ground (arith, close-Advances cs t)

at_arr_val_beg-Advances :
    (k : FloatText) (b : Bytes) (t : Stacks) → Advances (length b) (at_arr_val_beg k b t)
unfolding at_arr_val_beg
at_arr_val_beg-Advances k [] t = tt
at_arr_val_beg-Advances k (c ∷ cs) t =
    ground (arith, close-Advances cs t, value_at-Advances k arr_val_end (c ∷ cs) t)

at_arr_val_end-Advances : (b : Bytes) (t : Stacks) → Advances (length b) (at_arr_val_end b t)
unfolding at_arr_val_end
at_arr_val_end-Advances [] t = tt
at_arr_val_end-Advances (c ∷ cs) t = ground (arith, close-Advances cs t)

-- From every label, position and stacks, a round that goes on to a label leaves fewer bytes than it
-- had.
pub step-Advances :
    (k : FloatText) (l : Label) (b : Bytes) (t : Stacks) → Advances (length b) (step k l b t)
unfolding step
step-Advances k obj_val_beg b t =
    Advances-mono _ (length b) _ (skip_white_space-le b)
      (at_obj_val_beg-Advances k (skip_white_space b) t)
step-Advances k obj_val_end b t =
    Advances-mono _ (length b) _ (skip_white_space-le b)
      (at_obj_val_end-Advances (skip_white_space b) t)
step-Advances k arr_val_beg b t =
    Advances-mono _ (length b) _ (skip_white_space-le b)
      (at_arr_val_beg-Advances k (skip_white_space b) t)
step-Advances k arr_val_end b t =
    Advances-mono _ (length b) _ (skip_white_space-le b)
      (at_arr_val_end-Advances (skip_white_space b) t)
