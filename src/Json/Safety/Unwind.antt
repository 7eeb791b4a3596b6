-- ===== src/Json/Safety/Unwind.antt =====
-- The loop at the label `err`: it ends, and leaves the stacks empty.
use cocoyaxi.Base.{
  ℕ, zero, suc, ◌<◌, false, List, [], ◌∷◌, ◌++◌, if◌then◌else◌, length, ◌≡◌, refl, ap, arith, inl,
  inr,
}
use cocoyaxi.Json.Value.{Json}
use cocoyaxi.Json.Machine.{
  Slot, val, State, outside, in_object, in_array, Stacks, obj_val_end, Outcome, value, failed,
  fault, unfinished, leave, pop_state, unwind_step, unwind_next, is_empty, unwind,
}
use cocoyaxi.Json.Stacks.{IsWaiting, IsLoose, Context, Split, gather_into}
use cocoyaxi.Json.Safety.Containers.{IsClear, Context-outside, put-IsFull}

-- The parser has returned, with both of its stacks empty.
abbrev pub IsClean : Outcome → Type 0
IsClean (value b v t) = IsClear t
IsClean (failed t) = IsClear t
IsClean fault = ⊥
IsClean unfinished = ⊥

leave-IsClean :
    (again : Stacks → Outcome) (st : State) (v : Json) (es r : List Slot) (u : List (ℕ × State))
    (n : ℕ)
    → IsWaiting st es
    → Context r n st u
    → ((t : Stacks) → t.u ≡ u → Split IsLoose t → IsClean (again t))
    → IsClean (unwind_next again (leave st (val v ∷ (es ++ r)) u n))
unfolding unwind_next leave
leave-IsClean again in_object v es r u n w c next = next _ refl (record {
  held = val v ∷ es;
  under = r;
  splits = refl;
  context = c;
  fits = inl (put-IsFull obj_val_end v es w);
})
leave-IsClean again in_array v es r u n w c next =
    next _ refl (record { held = val v ∷ es; under = r; splits = refl; context = c; fits = inl w })
leave-IsClean again outside v es r u n w c next =
    let (no_slots, no_states) = Context-outside r n u c in (rw (w, no_slots) refl, no_states)

Loose-outside : (st : State) (es : List Slot) → st ≡ outside → IsLoose st es → es ≡ []
Loose-outside outside es e (inl h) = h
Loose-outside outside es e (inr h) = h
Loose-outside in_object es e h = absurd (cc e)
Loose-outside in_array es e h = absurd (cc e)

is_empty-append : (es r : List Slot) (x : Slot) → is_empty (es ++ x ∷ r) ≡ false
unfolding is_empty
is_empty-append [] r x = refl
is_empty-append (y ∷ es) r x = refl

-- One round, by what the stack `u` holds.
round-IsClean :
    (again : Stacks → Outcome) (st : State) (es r : List Slot) (n : ℕ) (u : List (ℕ × State))
    → IsLoose st es
    → Context r n st u
    → ((t : Stacks) → suc (length t.u) ≡ length u → Split IsLoose t → IsClean (again t))
    → let t : Stacks = record { s = es ++ r; u = u; size = n; state = st } in
      IsClean (if is_empty (es ++ r) then failed t else unwind_next again (unwind_step t))
unfolding unwind_step pop_state
round-IsClean again st es r n [] h (e, e', e'') next =
    rw (Loose-outside st es e'' h) (rw e (unfold is_empty in (refl, refl)))
round-IsClean again st es r n ((n', st') ∷ u) h (v, es', r', e, size, c, w, x) next =
    let (v', c', e') =
      gather_into st v es (es' ++ r') n ((n', st') ∷ u) (omega (arith, ap length e)) c h in
    rw e (
      rw is_empty-append
        (rw e' (leave-IsClean again st' v' es' r' u n' w x λ t q. next t (ap suc (ap length q)))))

pub unwind-IsClean :
    (rounds : ℕ) (t : Stacks) → length t.u < rounds → Split IsLoose t → IsClean (unwind rounds t)
unfolding unwind
unwind-IsClean zero t h l = absurd (omega arith)
unwind-IsClean (suc rounds) t h l = rw l.splits (
    round-IsClean (unwind rounds) t.state l.held l.under t.size t.u l.fits l.context
      λ t' e l'. unwind-IsClean rounds t' (omega arith) l')
