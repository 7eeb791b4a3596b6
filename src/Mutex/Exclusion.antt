-- ===== src/Mutex/Exclusion.antt =====
-- The mutex with all coroutines and threads that use it: who has the lock, and who gets it next.
use cocoyaxi.Base.{
  ℕ, suc, ◌-◌, ◌≤◌, true, false, List, [], ◌∷◌, ◌++◌, ◌==◌, if◌then◌else◌, Bool-cases, ◌≡◌, ◌≢◌,
  inl, inr, refl, sym, arith, subst, ==_refl,
}
use cocoyaxi.Mutex.Queue.{Queue, push_back, pop_front}
use cocoyaxi.Mutex.Lock.{
  Mutex, Wakes, coroutine, one_thread, try_lock, lock, wake, hand_over, unlock,
}
use cocoyaxi.Mutex.Refinement.{Holds, push_back-Holds, pop_front-Holds}
use cocoyaxi.Mutex.System.{
  Sys, Event, tries, locks, wakes, unlocks, resumed, fire, Guard, Reach, begins, goes, nulls,
  Excludes, IsExclusive, left_waiting,
}

nulls-append :
    (co : ℕ) (xs : List ℕ) → nulls (xs ++ co ∷ []) ≡ (if co == 0 then suc (nulls xs) else nulls xs)
nulls-append co [] = ground arith
nulls-append co (x ∷ xs) = ground (arith, nulls-append co xs)

module _ (q : Queue) (locked owners threads : ℕ) (waiting : List ℕ)
    (h : Excludes q locked owners threads waiting) where
  takes_unlocked : locked ≡ 0 → Excludes q 1 (suc owners) threads waiting
  takes_unlocked e = record {
    queued = h.queued;
    range = omega arith;
    owned = ground (arith, h.owned);
    unlocked = λ g. omega arith;
    threads_wait = ground (arith, h.threads_wait);
  }

  takes_handed : locked ≡ 2 → Excludes q 1 (suc owners) (threads - 1) waiting
  takes_handed e = record {
    queued = h.queued;
    range = omega arith;
    owned = ground (arith, h.owned);
    unlocked = λ g. omega arith;
    threads_wait = ground (arith, h.threads_wait);
  }

  waits_behind :
      (co : ℕ)
      → locked ≢ 0
      → Excludes
          (push_back co q)
          locked
          owners
          (if co == 0 then suc threads else threads)
          (waiting ++ co ∷ [])
  waits_behind co e = record {
    queued = push_back-Holds co waiting q h.queued;
    range = h.range;
    owned = h.owned;
    unlocked = λ g. absurd (e g);
    threads_wait = ground (arith, nulls-append co waiting, h.threads_wait);
  }

  unlocks_idle : 1 ≤ owners → waiting ≡ [] → Excludes q 0 (owners - 1) threads waiting
  unlocks_idle g e = record {
    queued = h.queued;
    range = omega arith;
    owned = ground (arith, h.owned);
    unlocked = λ x. e;
    threads_wait = ground (arith, h.owned, h.threads_wait);
  }

is_locked :
    (locked owners : ℕ)
    → 1 ≤ owners
    → owners ≡ (if locked == 1 then 1 else 0)
    → (locked ≡ 1) × (owners ≡ 1)
is_locked locked owners g e = ground arith

hand_over-Excludes :
    (m : Mutex) (p : ℕ × Queue) (threads : ℕ) (xs : List ℕ)
    → m.locked ≡ 1
    → Holds p.1 xs
    → threads ≡ nulls (p.0 ∷ xs)
    → let r = hand_over m p in
      Excludes r.1.wq r.1.locked (resumed r.0 0) threads (left_waiting r.0 (p.0 ∷ xs))
unfolding hand_over
hand_over-Excludes m (co, q) threads xs l h t = elim (Bool-cases (co == 0)) [
  | inl e ↦ rw e (
      rw e (record {
        queued = h;
        range = omega arith;
        owned = ground arith;
        unlocked = λ g. absurd (omega (arith, g));
        threads_wait = ground arith;
      }))
  | inr e ↦
      rw (e, ==_refl co)
        (record {
          queued = h;
          range = omega (arith, l);
          owned = ground arith;
          unlocked = λ g. absurd (omega (arith, g, l));
          threads_wait = ground arith;
        })
]

unlock-Excludes :
    (m : Mutex) (owners threads : ℕ) (waiting : List ℕ)
    → 1 ≤ owners
    → Excludes m.wq m.locked owners threads waiting
    → let r = unlock m in
      Excludes r.1.wq r.1.locked (resumed r.0 (owners - 1)) threads (left_waiting r.0 waiting)
unfolding unlock
unlock-Excludes m owners threads [] g h =
    let none_in : (m.wq.size == 0) ≡ true = ground (arith, h.queued.sized) in
    rw none_in (unlocks_idle m.wq m.locked owners threads [] h g refl)
unlock-Excludes m owners threads (x ∷ xs) g h =
    let some_in : (m.wq.size == 0) ≡ false = ground (arith, h.queued.sized) in
    let (l, one) = is_locked m.locked owners g h.owned in
    let none_over : owners - 1 ≡ 0 = omega arith in
    let (first, rest) = pop_front-Holds (x ∷ xs) m.wq h.queued in
    rw some_in (
      rw none_over (
        subst
          (λ c.
            let r = hand_over m (pop_front m.wq) in
            Excludes r.1.wq r.1.locked (resumed r.0 0) threads (left_waiting r.0 (c ∷ xs)))
          first
          (hand_over-Excludes m (pop_front m.wq) threads xs l rest
            (subst (λ c. threads ≡ nulls (c ∷ xs)) (sym first) (ground (arith, h.threads_wait))))))

fire-IsExclusive : (e : Event) (y : Sys) → Guard e y → IsExclusive y → IsExclusive (fire e y)
unfolding try_lock lock wake
fire-IsExclusive tries y g h = elim (Bool-cases (y.mutex.locked == 0)) [
  | inl e ↦
      rw e (takes_unlocked y.mutex.wq y.mutex.locked y.owners y.threads y.waiting h (ground arith))
  | inr e ↦ rw e h
]
fire-IsExclusive (locks co) y g h = elim (Bool-cases (y.mutex.locked == 0)) [
  | inl e ↦
      rw e (takes_unlocked y.mutex.wq y.mutex.locked y.owners y.threads y.waiting h (ground arith))
  | inr e ↦
      rw e (waits_behind y.mutex.wq y.mutex.locked y.owners y.threads y.waiting h co (ground arith))
]
fire-IsExclusive wakes y g h = elim (Bool-cases (y.mutex.locked == 2)) [
  | inl e ↦
      rw e (takes_handed y.mutex.wq y.mutex.locked y.owners y.threads y.waiting h (ground arith))
  | inr e ↦ rw e h
]
fire-IsExclusive unlocks y g h = unlock-Excludes y.mutex y.owners y.threads y.waiting g h

-- In every state that locks, unlocks and wake-ups lead to: at most one coroutine or thread has the
-- mutex, and exactly one if `_lock` is 1; if it is 0, none that was refused by `lock` still waits; if
-- it is 2, a thread waits that can take it, beside those in the queue; the queue holds all that were
-- refused and not yet woken, in the order they came.
pub reached-IsExclusive : (y : Sys) → Reach y → IsExclusive y
reached-IsExclusive y (begins _ e) = subst IsExclusive (sym e) (record {
  queued = record { blocks_ok = inl tt; holding = refl; sized = refl };
  range = omega arith;
  owned = refl;
  unlocked = λ g. refl;
  threads_wait = omega arith;
})
reached-IsExclusive z (goes e y _ before g same) =
    subst IsExclusive (sym same) (fire-IsExclusive e y g (reached-IsExclusive y before))

abbrev pub wakes_first : ℕ → Wakes
wakes_first co = if co == 0 then one_thread else coroutine co
