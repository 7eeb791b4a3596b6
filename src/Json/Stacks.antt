-- ===== src/Json/Stacks.antt =====
-- What the parser's two stacks hold between rounds.
use cocoyaxi.Base.{
  ℕ, suc, ◌%◌, true, false, some, List, [], ◌∷◌, ◌++◌, ltb, ◌==◌, length, length-append,
  take_append, drop_append, ◌≡◌, refl, sym, ap, ◌∙◌, arith, lt→ltb, le→not_ltb, inl, inr, ◌⊎◌,
}
use cocoyaxi.Json.Value.{Json, array, object, Items, nil, cons, Fields, end, field}
use cocoyaxi.Json.Machine.{
  Slot, key, val, State, outside, in_object, in_array, Stacks, to_items, to_fields, fill, collect,
  patch, gather,
}

-- Values only: the elements of an array so far.
abbrev pub IsVals : List Slot → Type 0
IsVals [] = Unit
IsVals (val v ∷ r) = IsVals r
IsVals (key k ∷ r) = ⊥

-- Values, each with its key under it: the members of an object so far.
abbrev pub IsPairs : List Slot → Type 0
IsPairs [] = Unit
IsPairs (val v ∷ key k ∷ r) = IsPairs r
IsPairs (val v ∷ val w ∷ r) = ⊥
IsPairs (val v ∷ []) = ⊥
IsPairs (key k ∷ r) = ⊥

-- The contents of a container between two elements.
abbrev pub IsFull : State → List Slot → Type 0
IsFull in_array es = IsVals es
IsFull in_object es = IsPairs es
IsFull outside es = es ≡ []

-- The same where a value is read: in an object it follows its key.
abbrev pub IsWaiting : State → List Slot → Type 0
IsWaiting in_array es = IsVals es
IsWaiting in_object (key k ∷ es) = IsPairs es
IsWaiting in_object (val v ∷ es) = ⊥
IsWaiting in_object [] = ⊥
IsWaiting outside es = es ≡ []

-- Either of the two, where the parser gives up.
abbrev pub IsLoose : State → List Slot → Type 0
IsLoose st es = IsFull st es ⊎ IsWaiting st es

abbrev pub IsContainer : State → Json → Type 0
IsContainer in_array v = (a : Items) × (v ≡ array a)
IsContainer in_object v = (f : Fields) × (v ≡ object f)
IsContainer outside v = ⊥

-- The stack `s` up to the open container, which is its top; `u` has an entry for each container.
abbrev pub Context : List Slot → ℕ → State → List (ℕ × State) → Type 0
Context r n st [] = (r ≡ []) × (n ≡ 0) × (st ≡ outside)
Context r n st ((n', st') ∷ u) =
    (v : Json) × (es : List Slot) × (r' : List Slot) × (r ≡ val v ∷ (es ++ r'))
    × (n ≡ length r)
    × IsContainer st v
    × IsWaiting st' es
    × Context r' n' st' u

-- The stacks split into what the open container holds and what lies under it.
pub record Split (P : State → List Slot → Type 0) (t : Stacks) : Type 0 where
  pub held : List Slot
  pub under : List Slot
  pub splits : t.s ≡ held ++ under
  pub context : Context under t.size t.state t.u
  pub fits : P t.state held

pub Context-size :
    (r : List Slot) (n : ℕ) (st : State) (u : List (ℕ × State)) → Context r n st u → n ≡ length r
Context-size r n st [] (e, e', e'') = e' ∙ sym (ap length e)
Context-size r n st ((n', st') ∷ u) (v, es, r', e, size, c, w, x) = size

pub to_items-some :
    (es : List Slot) (a : Items) → IsVals es → (a' : Items) × (to_items es a ≡ some a')
unfolding to_items
to_items-some [] a h = (a, refl)
to_items-some (val v ∷ r) a h = to_items-some r (cons v a) h
to_items-some (key k ∷ r) a h = absurd h

pub to_fields-some :
    (es : List Slot) (f : Fields) → IsPairs es → (f' : Fields) × (to_fields es f ≡ some f')
unfolding to_fields
to_fields-some [] f h = (f, refl)
to_fields-some (val v ∷ []) f h = absurd h
to_fields-some (val v ∷ key k ∷ r) f h = to_fields-some r (field k v f) h
to_fields-some (val v ∷ val w ∷ r) f h = absurd h
to_fields-some (key k ∷ r) f h = absurd h

-- The container under full contents takes them up.
pub fill-some :
    (st : State) (v : Json) (es r : List Slot)
    → IsContainer st v
    → IsFull st es
    → (v' : Json) × IsContainer st v' × (fill (val v ∷ r) es ≡ some (val v' ∷ r))
unfolding fill
fill-some in_array v es r (a, e) h =
    let (a', e') = to_items-some es nil h in (array a', (a', refl), rw e (rw e' refl))
fill-some in_object v es r (f, e) h =
    let (f', e') = to_fields-some es end h in (object f', (f', refl), rw e (rw e' refl))
fill-some outside v es r c h = absurd c

-- `arr_end` and `obj_end` on a full container.
pub collect_into :
    (st : State) (v : Json) (es r : List Slot) (n : ℕ) (u : List (ℕ × State))
    → n ≡ suc (length r)
    → IsContainer st v
    → IsFull st es
    → (v' : Json) × IsContainer st v'
      × (collect (record { s = es ++ val v ∷ r; u = u; size = n; state = st })
          ≡ some (record { s = val v' ∷ r; u = u; size = n; state = st }))
unfolding collect
collect_into st v [] r n u size c h =
    (v, c, rw (le→not_ltb n (length (val v ∷ r)) (omega arith)) refl)
collect_into st v (x ∷ xs) r n u size c h =
    let (v', c', e) = fill-some st v (x ∷ xs) r c h in
    let more : ltb n (length ((x ∷ xs) ++ val v ∷ r)) ≡ true =
      lt→ltb _ _ (omega (arith, length-append (x ∷ xs) (val v ∷ r))) in
    (
      v',
      c',
      rw more (
          rw size
            (rw (take_append (x ∷ xs) (val v ∷ r), drop_append (x ∷ xs) (val v ∷ r)) (rw e refl))),
    )

length-IsPairs : (es : List Slot) → IsPairs es → length es % 2 ≡ 0
length-IsPairs [] h = refl
length-IsPairs (val v ∷ []) h = absurd h
length-IsPairs (val v ∷ key k ∷ r) h = omega (arith, length-IsPairs r h)
length-IsPairs (val v ∷ val w ∷ r) h = absurd h
length-IsPairs (key k ∷ r) h = absurd h

odd-not : (n : ℕ) → n % 2 ≡ 0 → (n % 2 == 1) ≡ false
odd-not n h = rw h refl

odd : (n : ℕ) → n % 2 ≡ 0 → (suc n % 2 == 1) ≡ true
odd n h = let e : suc n % 2 ≡ 1 = omega arith in rw e refl

-- The slots that the label `err` gathers are the contents of the container.
pub patch-IsFull : (st : State) (es : List Slot) → IsLoose st es → IsFull st (patch st es)
unfolding patch
patch-IsFull in_array es (inl h) = h
patch-IsFull in_array es (inr h) = h
patch-IsFull outside es (inl h) = h
patch-IsFull outside es (inr h) = h
patch-IsFull in_object es (inl h) = rw (odd-not (length es) (length-IsPairs es h)) h
patch-IsFull in_object [] (inr h) = absurd h
patch-IsFull in_object (val v ∷ es) (inr h) = absurd h
patch-IsFull in_object (key k ∷ es) (inr h) = rw (odd (length es) (length-IsPairs es h)) h

-- `err` on an open container.
pub gather_into :
    (st : State) (v : Json) (es r : List Slot) (n : ℕ) (u : List (ℕ × State))
    → n ≡ suc (length r)
    → IsContainer st v
    → IsLoose st es
    → (v' : Json) × IsContainer st v'
      × (gather (record { s = es ++ val v ∷ r; u = u; size = n; state = st }) ≡ some (val v' ∷ r))
unfolding gather
gather_into st v [] r n u size c h =
    (v, c, rw (le→not_ltb n (length (val v ∷ r)) (omega arith)) refl)
gather_into st v (x ∷ xs) r n u size c h =
    let (v', c', e) = fill-some st v (patch st (x ∷ xs)) r c (patch-IsFull st (x ∷ xs) h) in
    let more : ltb n (length ((x ∷ xs) ++ val v ∷ r)) ≡ true =
      lt→ltb _ _ (omega (arith, length-append (x ∷ xs) (val v ∷ r))) in
    (
      v',
      c',
      rw more (
          rw size
            (rw (take_append (x ∷ xs) (val v ∷ r), drop_append (x ∷ xs) (val v ∷ r)) (rw e refl))),
    )
