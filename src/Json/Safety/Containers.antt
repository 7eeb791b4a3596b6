-- ===== src/Json/Safety/Containers.antt =====
-- Opening and closing containers, and values, in a round of `Parser::parse` (src/json.cc).
use cocoyaxi.Base.{
  ℕ, none, some, List, [], ◌∷◌, ◌++◌, ◌==◌, Bytes, length, ◌≡◌, ◌≢◌, refl, sym, ap, ◌∙◌, subst,
  arith, Bool-cases, inl, inr,
}
use cocoyaxi.Json.Value.{Json, array, object, nil, end, FloatText}
use cocoyaxi.Json.Scan.{Token, token, endless}
use cocoyaxi.Json.Machine.{
  Slot, key, val, State, outside, in_object, in_array, Stacks, Label, obj_val_beg, obj_val_end,
  arr_val_beg, arr_val_end, Next, goto, finish, err, fault, stuck, push, open_with, pop_value,
  resume_in, resume, close_as, close, parse_plain, keep_value, value_at,
}
use cocoyaxi.Json.Stacks.{IsFull, IsWaiting, IsLoose, IsContainer, Context, Split, collect_into}

abbrev pub label_state : Label → State
label_state obj_val_beg = in_object
label_state obj_val_end = in_object
label_state arr_val_beg = in_array
label_state arr_val_end = in_array

-- Between rounds the open container is of the label's kind, and full.
pub record Inv (l : Label) (t : Stacks) : Type 0 where
  pub full : Split IsFull t
  pub kind : t.state ≡ label_state l

abbrev pub IsClear : Stacks → Type 0
IsClear t = (t.s ≡ []) × (t.u ≡ [])

abbrev pub IsSafe : Next → Type 0
IsSafe (goto l b t) = Inv l t
IsSafe (finish v b t) = IsClear t
IsSafe (err t) = Split IsLoose t
IsSafe fault = ⊥
IsSafe stuck = Unit

-- A value that waited for is put on the container's contents.
pub put-IsFull :
    (l : Label) (v : Json) (es : List Slot)
    → IsWaiting (label_state l) es
    → IsFull (label_state l) (val v ∷ es)
put-IsFull obj_val_beg v [] h = absurd h
put-IsFull obj_val_beg v (key k ∷ es) h = h
put-IsFull obj_val_beg v (val w ∷ es) h = absurd h
put-IsFull obj_val_end v [] h = absurd h
put-IsFull obj_val_end v (key k ∷ es) h = h
put-IsFull obj_val_end v (val w ∷ es) h = absurd h
put-IsFull arr_val_beg v es h = h
put-IsFull arr_val_end v es h = h

-- Under the outermost container the stacks are empty.
pub Context-outside :
    (r : List Slot) (n : ℕ) (u : List (ℕ × State)) → Context r n outside u → (r ≡ []) × (u ≡ [])
Context-outside r n [] (e, e', e'') = (e, refl)
Context-outside r n ((n', st') ∷ u) (v, es, r', e, size, c, w, x) = absurd c

resume_in-IsSafe :
    (st : State) (b : Bytes) (v : Json) (es r : List Slot) (u u' : List (ℕ × State)) (n n' : ℕ)
    (st' : State)
    → IsWaiting st es
    → Context r n st u
    → IsSafe (resume_in st b (record { s = val v ∷ (es ++ r); u = u'; size = n'; state = st' }) u n)
unfolding resume_in pop_value
resume_in-IsSafe in_object b v es r u u' n n' st' w c = record {
  full = record {
    held = val v ∷ es;
    under = r;
    splits = refl;
    context = c;
    fits = put-IsFull obj_val_end v es w;
  };
  kind = refl;
}
resume_in-IsSafe in_array b v es r u u' n n' st' w c = record {
  full = record { held = val v ∷ es; under = r; splits = refl; context = c; fits = w };
  kind = refl;
}
resume_in-IsSafe outside b v es r u u' n n' st' w c =
    let (no_slots, no_states) = Context-outside r n u c in (rw (w, no_slots) refl, no_states)

-- The end of a container that is full.
close-full :
    (b : Bytes) (st : State) (es r : List Slot) (n : ℕ) (u : List (ℕ × State))
    → st ≢ outside
    → IsFull st es
    → Context r n st u
    → IsSafe (close b (record { s = es ++ r; u = u; size = n; state = st }))
unfolding close close_as resume
close-full b st es r n [] inside h (e, e', e'') = absurd (inside e'')
close-full b st es r n ((n', st') ∷ u) inside h (v, es', r', e, size, c, w, x) =
    let (v', c', e') =
      collect_into st v es (es' ++ r') n ((n', st') ∷ u) (omega (arith, ap length e)) c h in
    rw e (rw e' (resume_in-IsSafe st' b v' es' r' u ((n', st') ∷ u) n' n st w x))

pub close-IsSafe : (b : Bytes) (l : Label) (t : Stacks) → Inv l t → IsSafe (close b t)
close-IsSafe b l t i = rw i.full.splits (
    close-full b t.state i.full.held i.full.under t.size t.u (λ e. inside l (sym i.kind ∙ e))
      i.full.fits i.full.context)
  where
    inside : (l : Label) → label_state l ≢ outside
    inside obj_val_beg e = cc
    inside obj_val_end e = cc
    inside arr_val_beg e = cc
    inside arr_val_end e = cc

keep_value-IsSafe :
    (l : Label) (t : Stacks) (o : Token)
    → Split IsWaiting t
    → t.state ≡ label_state l
    → IsSafe (keep_value l t o)
unfolding keep_value push
keep_value-IsSafe l t endless w e = tt
keep_value-IsSafe l t (token none) w e = record {
  held = w.held;
  under = w.under;
  splits = w.splits;
  context = w.context;
  fits = inr w.fits;
}
keep_value-IsSafe l t (token (some (v, b))) w e = record {
  full = record {
    held = val v ∷ w.held;
    under = w.under;
    splits = ap (◌∷◌ (val v)) w.splits;
    context = w.context;
    fits =
        subst (λ st. IsFull st (val v ∷ w.held)) (sym e)
          (put-IsFull l v w.held (subst (λ st. IsWaiting st w.held) e w.fits));
  };
  kind = e;
}

pub open_with-Inv :
    (l : Label) (v : Json) (st : State) (t : Stacks)
    → st ≡ label_state l
    → IsContainer st v
    → IsFull st []
    → Split IsWaiting t
    → Inv l (open_with v st t)
unfolding open_with
open_with-Inv l v st t e c h w = record {
  full = record {
    held = [];
    under = val v ∷ t.s;
    splits = refl;
    context = (v, w.held, w.under, ap (◌∷◌ (val v)) w.splits, refl, c, w.fits, w.context);
    fits = h;
  };
  kind = e;
}

pub value_at-IsSafe :
    (k : FloatText) (l : Label) (b : Bytes) (t : Stacks)
    → Split IsWaiting t
    → t.state ≡ label_state l
    → IsSafe (value_at k l b t)
unfolding value_at
value_at-IsSafe k l [] t w e = record {
  held = w.held;
  under = w.under;
  splits = w.splits;
  context = w.context;
  fits = inr w.fits;
}
value_at-IsSafe k l (c ∷ cs) t w e = elim (Bool-cases (c == b'{')) [
  | inl brace ↦ rw brace (open_with-Inv obj_val_beg (object end) in_object t refl (end, refl) tt w)
  | inr other ↦ rw other (elim (Bool-cases (c == b'[')) [
    | inl bracket ↦
        rw bracket (open_with-Inv arr_val_beg (array nil) in_array t refl (nil, refl) tt w)
    | inr plain ↦ rw plain (keep_value-IsSafe l t (parse_plain k c (c ∷ cs)) w e)
  ])
]
