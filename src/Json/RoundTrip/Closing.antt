-- ===== src/Json/RoundTrip/Closing.antt =====
-- The rounds at a comma and at a closing bracket, and what a container is filled with.
use cocoyaxi.Base.{ℕ, suc, some, List, [], ◌∷◌, ◌++◌, Bytes, length, ◌≡◌, refl, ap, ◌∙◌, arith}
use cocoyaxi.Json.Value.{Json, array, object, Items, nil, cons, Fields, end, field, FloatText}
use cocoyaxi.Json.Machine.{
  skip_white_space, Slot, key, val, State, in_object, in_array, outside, Stacks, Label, obj_val_beg,
  obj_val_end, arr_val_beg, arr_val_end, Next, goto, open_with, to_items, to_fields, fill,
  resume_in, pop_value, value_at, at_obj_val_beg, at_obj_val_end, at_arr_val_beg, at_arr_val_end,
  step, at_end, run,
}
use cocoyaxi.Json.Reach.{Closes, run-Closes, close-filled}

-- The slots of the elements in front of those already there, the last on top.
abbrev pub item_slots : Items → List Slot → List Slot
item_slots nil es = es
item_slots (cons v a) es = item_slots a (val v ∷ es)

join_items : Items → Items → Items
join_items nil a' = a'
join_items (cons v a) a' = cons v (join_items a a')

to_items-slots :
    (a a' : Items) (es : List Slot) → to_items (item_slots a es) a' ≡ to_items es (join_items a a')
unfolding to_items join_items
to_items-slots nil a' es = refl
to_items-slots (cons v a) a' es = to_items-slots a a' (val v ∷ es)

join_items-nil : (a : Items) → join_items a nil ≡ a
unfolding join_items
join_items-nil nil = refl
join_items-nil (cons v a) = ap (cons v) (join_items-nil a)

pub items_filled : (a : Items) → to_items (item_slots a []) nil ≡ some a
unfolding to_items
items_filled a = to_items-slots a nil [] ∙ ap some (join_items-nil a)

abbrev pub field_slots : Fields → List Slot → List Slot
field_slots end es = es
field_slots (field w v f) es = field_slots f (val v ∷ key w ∷ es)

join_fields : Fields → Fields → Fields
join_fields end f' = f'
join_fields (field w v f) f' = field w v (join_fields f f')

to_fields-slots :
    (f f' : Fields) (es : List Slot)
    → to_fields (field_slots f es) f' ≡ to_fields es (join_fields f f')
unfolding to_fields join_fields
to_fields-slots end f' es = refl
to_fields-slots (field w v f) f' es = to_fields-slots f f' (val v ∷ key w ∷ es)

join_fields-end : (f : Fields) → join_fields f end ≡ f
unfolding join_fields
join_fields-end end = refl
join_fields-end (field w v f) = ap (field w v) (join_fields-end f)

pub fields_filled : (f : Fields) → to_fields (field_slots f []) end ≡ some f
unfolding to_fields
fields_filled f = to_fields-slots f end [] ∙ ap some (join_fields-end f)

fill-items :
    (a : Items) (es s : List Slot)
    → to_items es nil ≡ some a
    → fill (val (array nil) ∷ s) es ≡ some (val (array a) ∷ s)
unfolding fill
fill-items a es s e = rw e refl

fill-fields :
    (f : Fields) (es s : List Slot)
    → to_fields es end ≡ some f
    → fill (val (object end) ∷ s) es ≡ some (val (object f) ∷ s)
unfolding fill
fill-fields f es s e = rw e refl

-- The stacks in a container that was opened on `s`, with the slots `es` above it.
abbrev pub inside : State → Json → List Slot → List Slot → ℕ → State → List (ℕ × State) → Stacks
inside st c es s n st0 u = record {
  s = es ++ val c ∷ s;
  u = (n, st0) ∷ u;
  size = suc (length s);
  state = st;
}

-- What closing it with the contents `c` goes on to.
abbrev pub closed : State → Json → List Slot → ℕ → State → List (ℕ × State) → Bytes → Next
closed st c s n st0 u r = resume_in st0 r (inside st c [] s n st0 u) u n

module _ (k : FloatText) where
  pub arr_end_step :
      (a : Items) (es s : List Slot) (n : ℕ) (st0 : State) (u : List (ℕ × State)) (r : Bytes)
      → to_items es nil ≡ some a
      → step k arr_val_end (b']' ∷ r) (inside in_array (array nil) es s n st0 u)
        ≡ closed in_array (array a) s n st0 u r
  unfolding step at_arr_val_end skip_white_space
  arr_end_step a es s n st0 u r e =
      close-filled r in_array st0 (array nil) (array a) es s n u
        (fill-items nil [] s (unfold to_items in refl)) (fill-items a es s e)

  pub arr_beg_step :
      (s : List Slot) (n : ℕ) (st0 : State) (u : List (ℕ × State)) (r : Bytes)
      → step k arr_val_beg (b']' ∷ r) (inside in_array (array nil) [] s n st0 u)
        ≡ closed in_array (array nil) s n st0 u r
  unfolding step at_arr_val_beg skip_white_space
  arr_beg_step s n st0 u r =
      let same = fill-items nil [] s (unfold to_items in refl) in
      close-filled r in_array st0 (array nil) (array nil) [] s n u same same

  pub obj_end_step :
      (f : Fields) (es s : List Slot) (n : ℕ) (st0 : State) (u : List (ℕ × State)) (r : Bytes)
      → to_fields es end ≡ some f
      → step k obj_val_end (b'}' ∷ r) (inside in_object (object end) es s n st0 u)
        ≡ closed in_object (object f) s n st0 u r
  unfolding step at_obj_val_end skip_white_space
  obj_end_step f es s n st0 u r e =
      close-filled r in_object st0 (object end) (object f) es s n u
        (fill-fields end [] s (unfold to_fields in refl)) (fill-fields f es s e)

  pub obj_beg_step :
      (s : List Slot) (n : ℕ) (st0 : State) (u : List (ℕ × State)) (r : Bytes)
      → step k obj_val_beg (b'}' ∷ r) (inside in_object (object end) [] s n st0 u)
        ≡ closed in_object (object end) s n st0 u r
  unfolding step at_obj_val_beg skip_white_space
  obj_beg_step s n st0 u r =
      let same = fill-fields end [] s (unfold to_fields in refl) in
      close-filled r in_object st0 (object end) (object end) [] s n u same same

  pub arr_comma : (b : Bytes) (t : Stacks) → step k arr_val_end (b',' ∷ b) t ≡ goto arr_val_beg b t
  unfolding step at_arr_val_end skip_white_space
  arr_comma b t = refl

  pub obj_comma : (b : Bytes) (t : Stacks) → step k obj_val_end (b',' ∷ b) t ≡ goto obj_val_beg b t
  unfolding step at_obj_val_end skip_white_space
  obj_comma b t = refl

  pub open_array :
      (b : Bytes) (t : Stacks) (l : Label)
      → value_at k l (b'[' ∷ b) t
        ≡ goto arr_val_beg b (inside in_array (array nil) [] t.s t.size t.state t.u)
  unfolding value_at open_with
  open_array b t l = refl

  pub open_object :
      (b : Bytes) (t : Stacks) (l : Label)
      → value_at k l (b'{' ∷ b) t
        ≡ goto obj_val_beg b (inside in_object (object end) [] t.s t.size t.state t.u)
  unfolding value_at open_with
  open_object b t l = refl

  -- A run that closes the outermost container, from enough rounds.
  pub run-closed :
      (st : State) (c : Json) (l : Label) (b : Bytes) (t : Stacks)
      → Closes k (closed st c [] 0 outside [] []) l b t
      → run k (suc (length b)) l b t
        ≡ at_end c [] (record { s = []; u = []; size = 1; state = outside })
  unfolding resume_in pop_value
  run-closed st c l b t h = run-Closes (suc (length b)) h (omega arith)
