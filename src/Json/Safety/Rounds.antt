-- ===== src/Json/Safety/Rounds.antt =====
-- Every round of the parser uses its stacks as they are defined, and keeps them in order.
use cocoyaxi.Base.{
  Option, none, some, [], ◌∷◌, ◌==◌, Bytes, ◌≡◌, sym, ap, subst, Bool-cases, inl, inr,
}
use cocoyaxi.Json.Value.{FloatText}
use cocoyaxi.Json.Scan.{parse_key}
use cocoyaxi.Json.Machine.{
  key, in_object, Stacks, Label, obj_val_beg, obj_val_end, arr_val_beg, arr_val_end, push, colon_at,
  named_at, at_obj_val_beg, at_obj_val_end, at_arr_val_beg, at_arr_val_end, step, skip_white_space,
}
use cocoyaxi.Json.Stacks.{IsFull, IsWaiting, IsLoose, Split}
use cocoyaxi.Json.Safety.Containers.{Inv, IsSafe, close-IsSafe, value_at-IsSafe}

-- Stacks that are full, and so fit to be unwound.
full-IsLoose : {t : Stacks} → Split IsFull t → Split IsLoose t
full-IsLoose f = record {
  held = f.held;
  under = f.under;
  splits = f.splits;
  context = f.context;
  fits = inl f.fits;
}

waiting-IsLoose : {t : Stacks} → Split IsWaiting t → Split IsLoose t
waiting-IsLoose f = record {
  held = f.held;
  under = f.under;
  splits = f.splits;
  context = f.context;
  fits = inr f.fits;
}

colon_at-IsSafe :
    (k : FloatText) (b : Bytes) (t : Stacks)
    → Split IsWaiting t
    → t.state ≡ in_object
    → IsSafe (colon_at k b t)
unfolding colon_at
colon_at-IsSafe k [] t w e = waiting-IsLoose w
colon_at-IsSafe k (c ∷ cs) t w e = elim (Bool-cases (c == b':')) [
  | inl colon ↦ rw colon (value_at-IsSafe k obj_val_end (skip_white_space cs) t w e)
  | inr other ↦ rw other (waiting-IsLoose w)
]

named_at-IsSafe :
    (k : FloatText) (t : Stacks) (o : Option (Bytes × Bytes))
    → Inv obj_val_beg t
    → IsSafe (named_at k t o)
unfolding named_at push
named_at-IsSafe k t none i = full-IsLoose i.full
named_at-IsSafe k t (some (name, b)) i =
    colon_at-IsSafe k (skip_white_space b) _
      (record {
        held = key name ∷ i.full.held;
        under = i.full.under;
        splits = ap (◌∷◌ (key name)) i.full.splits;
        context = i.full.context;
        fits =
            subst (λ st. IsWaiting st (key name ∷ i.full.held)) (sym i.kind)
              (subst (λ st. IsFull st i.full.held) i.kind i.full.fits);
      })
      i.kind

at_obj_val_beg-IsSafe :
    (k : FloatText) (b : Bytes) (t : Stacks) → Inv obj_val_beg t → IsSafe (at_obj_val_beg k b t)
unfolding at_obj_val_beg
at_obj_val_beg-IsSafe k [] t i = full-IsLoose i.full
at_obj_val_beg-IsSafe k (c ∷ cs) t i = elim (Bool-cases (c == b'}')) [
  | inl brace ↦ rw brace (close-IsSafe cs obj_val_beg t i)
  | inr other ↦ rw other (named_at-IsSafe k t (parse_key (c ∷ cs)) i)
]

at_obj_val_end-IsSafe : (b : Bytes) (t : Stacks) → Inv obj_val_end t → IsSafe (at_obj_val_end b t)
unfolding at_obj_val_end
at_obj_val_end-IsSafe [] t i = full-IsLoose i.full
at_obj_val_end-IsSafe (c ∷ cs) t i = elim (Bool-cases (c == b',')) [
  | inl comma ↦ rw comma (record { full = i.full; kind = i.kind })
  | inr other ↦ rw other (elim (Bool-cases (c == b'}')) [
    | inl brace ↦ rw brace (close-IsSafe cs obj_val_end t i)
    | inr neither ↦ rw neither (full-IsLoose i.full)
  ])
]

at_arr_val_beg-IsSafe :
    (k : FloatText) (b : Bytes) (t : Stacks) → Inv arr_val_beg t → IsSafe (at_arr_val_beg k b t)
unfolding at_arr_val_beg
at_arr_val_beg-IsSafe k [] t i = full-IsLoose i.full
at_arr_val_beg-IsSafe k (c ∷ cs) t i = elim (Bool-cases (c == b']')) [
  | inl bracket ↦ rw bracket (close-IsSafe cs arr_val_beg t i)
  | inr other ↦ rw other (
      value_at-IsSafe k arr_val_end (c ∷ cs) t
        (record {
          held = i.full.held;
          under = i.full.under;
          splits = i.full.splits;
          context = i.full.context;
          fits =
              subst (λ st. IsWaiting st i.full.held) (sym i.kind)
                (subst (λ st. IsFull st i.full.held) i.kind i.full.fits);
        })
        i.kind)
]

at_arr_val_end-IsSafe : (b : Bytes) (t : Stacks) → Inv arr_val_end t → IsSafe (at_arr_val_end b t)
unfolding at_arr_val_end
at_arr_val_end-IsSafe [] t i = full-IsLoose i.full
at_arr_val_end-IsSafe (c ∷ cs) t i = elim (Bool-cases (c == b',')) [
  | inl comma ↦ rw comma (record { full = i.full; kind = i.kind })
  | inr other ↦ rw other (elim (Bool-cases (c == b']')) [
    | inl bracket ↦ rw bracket (close-IsSafe cs arr_val_end t i)
    | inr neither ↦ rw neither (full-IsLoose i.full)
  ])
]

pub step-IsSafe :
    (k : FloatText) (l : Label) (b : Bytes) (t : Stacks) → Inv l t → IsSafe (step k l b t)
unfolding step
step-IsSafe k obj_val_beg b t i = at_obj_val_beg-IsSafe k (skip_white_space b) t i
step-IsSafe k obj_val_end b t i = at_obj_val_end-IsSafe (skip_white_space b) t i
step-IsSafe k arr_val_beg b t i = at_arr_val_beg-IsSafe k (skip_white_space b) t i
step-IsSafe k arr_val_end b t i = at_arr_val_end-IsSafe (skip_white_space b) t i
