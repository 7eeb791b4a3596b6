-- ===== src/Json/Reach.antt =====
-- Runs of the parser from label to label, and the end of a container in them.
use cocoyaxi.Base.{
  ℕ, zero, suc, ◌<◌, some, List, [], ◌∷◌, ◌++◌, true, Bytes, length, length-append, take_append,
  drop_append, ltb, ◌≡◌, refl, ap, ◌∙◌, arith, lt→ltb, le→not_ltb,
}
use cocoyaxi.Json.Value.{Json, FloatText}
use cocoyaxi.Json.Machine.{
  Slot, val, State, Stacks, Label, Next, goto, finish, fill, collect, resume_in, resume, close_as,
  close, step, at_end, outcome, run,
}
use cocoyaxi.Json.Progress.{step-Advances}

-- Rounds that lead from one label, position and stacks to others.
pub data Reach (k : FloatText) (l' : Label) (b' : Bytes) (t' : Stacks)
    : Label → Bytes → Stacks → Type 0 where
  here : {l : Label} {b : Bytes} {t : Stacks} → l ≡ l' → b ≡ b' → t ≡ t' → Reach k l' b' t' l b t
  next :
      {l : Label} {b : Bytes} {t : Stacks} {l1 : Label} {b1 : Bytes} {t1 : Stacks}
      → step k l b t ≡ goto l1 b1 t1
      → Reach k l' b' t' l1 b1 t1
      → Reach k l' b' t' l b t

-- What `x` goes on to.
pub data Lands (k : FloatText) (l' : Label) (b' : Bytes) (t' : Stacks) (x : Next) : Type 0 where
  lands :
      {l : Label} {b : Bytes} {t : Stacks}
      → x ≡ goto l b t
      → Reach k l' b' t' l b t
      → Lands k l' b' t' x

-- A run whose last round gives `y`.
pub data Closes (k : FloatText) (y : Next) : Label → Bytes → Stacks → Type 0 where
  last : {l : Label} {b : Bytes} {t : Stacks} → step k l b t ≡ y → Closes k y l b t
  more :
      {l : Label} {b : Bytes} {t : Stacks} {l1 : Label} {b1 : Bytes} {t1 : Stacks}
      → step k l b t ≡ goto l1 b1 t1
      → Closes k y l1 b1 t1
      → Closes k y l b t

run-step :
    (k : FloatText) (x : Next) (l : Label) (b : Bytes) (t : Stacks) (rounds : ℕ)
    → step k l b t ≡ x
    → run k (suc rounds) l b t ≡ outcome (run k rounds) x
unfolding run
run-step k x l b t rounds e = ap (outcome (run k rounds)) e

module _ {k : FloatText} where
  pub Reach-Closes :
      {y : Next} {l' : Label} {b' : Bytes} {t' : Stacks} {l : Label} {b : Bytes} {t : Stacks}
      → Reach k l' b' t' l b t
      → Closes k y l' b' t'
      → Closes k y l b t
  Reach-Closes (here e1 e2 e3) c = rw (e1, e2, e3) c
  Reach-Closes (next e r) c = more e (Reach-Closes r c)

  -- A container that is read and then closed into another.
  pub Closes-Reach :
      {y : Next} {l' : Label} {b' : Bytes} {t' : Stacks} {l : Label} {b : Bytes} {t : Stacks}
      → y ≡ goto l' b' t'
      → Closes k y l b t
      → Reach k l' b' t' l b t
  Closes-Reach e (last s) = next (s ∙ e) (here refl refl refl)
  Closes-Reach e (more s c) = next s (Closes-Reach e c)

  pub step-Closes :
      {x y : Next} {l' : Label} {b' : Bytes} {t' : Stacks} (l : Label) (b : Bytes) (t : Stacks)
      → step k l b t ≡ x
      → Lands k l' b' t' x
      → Closes k y l' b' t'
      → Closes k y l b t
  step-Closes l b t e (lands g r) c = more (e ∙ g) (Reach-Closes r c)

  -- With more rounds than bytes, a run that ends with a value is complete.
  pub run-Closes :
      {v : Json} {b' : Bytes} {t' : Stacks} {l : Label} {b : Bytes} {t : Stacks} (rounds : ℕ)
      → Closes k (finish v b' t') l b t
      → length b < rounds
      → run k rounds l b t ≡ at_end v b' t'
  run-Closes zero c h = absurd (omega arith)
  run-Closes {l = l} {b = b} {t = t} (suc rounds) (last e) h = run-step k _ l b t rounds e
  run-Closes {l = l} {b = b} {t = t} (suc rounds) (more {b1 = b1} e c) h =
      let less : length b1 < length b = rw e at (step-Advances k l b t) in
      run-step k _ l b t rounds e ∙ run-Closes rounds c (omega arith)

-- The end of a container whose slots fill it.
pub close-filled :
    (b : Bytes) (st st' : State) (c c' : Json) (es s : List Slot) (n : ℕ) (u : List (ℕ × State))
    → fill (val c ∷ s) [] ≡ some (val c ∷ s)
    → fill (val c ∷ s) es ≡ some (val c' ∷ s)
    → close b (record { s = es ++ val c ∷ s; u = (n, st') ∷ u; size = suc (length s); state = st })
      ≡ resume_in st' b
          (record { s = val c' ∷ s; u = (n, st') ∷ u; size = suc (length s); state = st })
          u
          n
unfolding close close_as collect resume
close-filled b st st' c c' [] s n u e e' =
    let same : val c ∷ s ≡ val c' ∷ s = cc in
    rw (le→not_ltb (suc (length s)) (length (val c ∷ s)) (omega arith)) (rw same refl)
close-filled b st st' c c' (x ∷ xs) s n u e e' =
    let more : ltb (suc (length s)) (length ((x ∷ xs) ++ val c ∷ s)) ≡ true =
      lt→ltb _ _ (omega (arith, length-append (x ∷ xs) (val c ∷ s))) in
    rw more (rw (take_append (x ∷ xs) (val c ∷ s), drop_append (x ∷ xs) (val c ∷ s)) (rw e' refl))
