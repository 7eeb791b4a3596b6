-- ===== src/Event/Heard.antt =====
-- Nobody that waits for `event_impl` of src/co/co.cc misses a signal, if no `waitx_t` is used again.
use cocoyaxi.Base.{
  ℕ, Bool, true, false, ◌&&◌, ◌||◌, List, [], ◌==◌, ltb, if◌then◌else◌, Bool-cases, All, ◌≡◌, inl,
  inr, refl, sym, ap, ◌∙◌, arith, subst,
}
use cocoyaxi.Event.Impl.{
  drop_timed_out, take_waitx, co_wait, thread_wait, thread_expires, is_some, signal, reset,
}
use cocoyaxi.Event.Signals.{
  signal_wakes_all, live_cos-append, live_cos-drop_timed_out, take_waitx_lem,
}
use cocoyaxi.Event.Runs.{
  Users, Act, co_waits, thread_waits, co_expires, expires, signals, resets, act, Guard, Reach,
  begins, goes,
}
use cocoyaxi.Event.Owned.{
  IsOwn, IsHeard, left_waiting_all, append-IsOwn, drop_timed_out-IsOwn, take_waitx-holder,
  expire_all-IsOwn, live_cos-expire_all,
}

co_wait-IsHeard :
    (co ms : ℕ) (y : Users)
    → Guard (co_waits co ms) y
    → IsHeard y
    → IsHeard (act (co_waits co ms) y)
unfolding co_wait
co_wait-IsHeard co ms y g h = elim (Bool-cases y.event.signaled) [
  | inl t ↦ rw t (record {
    own = h.own;
    live = h.live;
    sleeping = h.sleeping;
    range = h.range;
    nobody = λ s. h.nobody t;
  })
  | inr t ↦ rw t (elim (Bool-cases (ms == 0)) [
    | inl z ↦ rw z (record {
      own = h.own;
      live = h.live;
      sleeping = h.sleeping;
      range = h.range;
      nobody = λ s. absurd (ground arith);
    })
    | inr z ↦
        let (who, waits) = take_waitx_lem co y.event.wc in
        rw z (record {
          own =
              append-IsOwn (drop_timed_out y.event.wc) (take_waitx co y.event.wc)
                (drop_timed_out-IsOwn y.event.wc h.own)
                (take_waitx-holder co y.event.wc ∙ sym (who ∙ g));
          live =
              live_cos-append (drop_timed_out y.event.wc) (take_waitx co y.event.wc) waits
              ∙ rw (live_cos-drop_timed_out y.event.wc) (rw (who ∙ g) (rw h.live refl));
          sleeping = h.sleeping;
          range = h.range;
          nobody = λ s. absurd (ground arith);
        })
  ])
]

thread_wait-IsHeard :
    (ms : ℕ) (y : Users) → Guard (thread_waits ms) y → IsHeard y → IsHeard (act (thread_waits ms) y)
unfolding thread_wait
thread_wait-IsHeard ms y g h = elim (Bool-cases y.event.signaled) [
  | inl t ↦ rw t (record {
    own = h.own;
    live = h.live;
    sleeping = h.sleeping;
    range = h.range;
    nobody = λ s. h.nobody t;
  })
  | inr t ↦ rw t (elim (Bool-cases (ms == 0)) [
    | inl z ↦ rw z (record {
      own = h.own;
      live = h.live;
      sleeping = h.sleeping;
      range = h.range;
      nobody = λ s. absurd (ground arith);
    })
    | inr z ↦ rw z (record {
      own = h.own;
      live = h.live;
      sleeping = omega (arith, h.sleeping, g);
      range = g;
      nobody = λ s. absurd (ground arith);
    })
  ])
]

expires-IsHeard :
    (sn : ℕ) (y : Users) → Guard (expires sn) y → IsHeard y → IsHeard (act (expires sn) y)
unfolding thread_expires
expires-IsHeard sn y g h = elim (Bool-cases (sn == y.event.sn)) [
  | inl t ↦ rw t (record {
    own = h.own;
    live = h.live;
    sleeping = omega (arith, h.sleeping);
    range = omega (arith, h.range);
    nobody = λ s. let (w, z) = h.nobody s in (w, omega (arith, z));
  })
  | inr t ↦ rw t h
]

signal_leaves :
    (y : Users) → IsHeard y → ((act signals y).waiting ≡ []) × ((act signals y).asleep ≡ 0)
signal_leaves y h =
    let (ready, notified, _, _, _) = signal_wakes_all y.event in
    (rw (ready ∙ h.live) (left_waiting_all y.waiting), rw notified (ground (arith, h.sleeping)))

signal-IsHeard : (y : Users) → IsHeard y → IsHeard (act signals y)
signal-IsHeard y h =
    let (_, _, empty, none, _) = signal_wakes_all y.event in
    let (gone, awake) = signal_leaves y h in
    record {
      own = subst (All IsOwn) (sym empty) tt;
      live = rw empty (sym gone);
      sleeping = none ∙ sym awake;
      range = omega (arith, awake);
      nobody = λ s. (gone, awake);
    }

act-IsHeard : (a : Act) (y : Users) → Guard a y → IsHeard y → IsHeard (act a y)
unfolding reset
act-IsHeard (co_waits co ms) y g h = co_wait-IsHeard co ms y g h
act-IsHeard (thread_waits ms) y g h = thread_wait-IsHeard ms y g h
act-IsHeard (co_expires co) y g h = record {
  own = expire_all-IsOwn co y.event.wc h.own;
  live = rw (live_cos-expire_all co y.event.wc h.own) (rw h.live refl);
  sleeping = h.sleeping;
  range = h.range;
  nobody = λ s. let (w, t) = h.nobody s in (rw w refl, t);
}
act-IsHeard (expires sn) y g h = expires-IsHeard sn y g h
act-IsHeard signals y g h = signal-IsHeard y h
act-IsHeard resets y g h = record {
  own = h.own;
  live = h.live;
  sleeping = h.sleeping;
  range = h.range;
  nobody = λ s. absurd (ground arith);
}

-- In every state that waits, signals, timeouts and resets lead to, if no coroutine that waits uses the
-- waiter of one that has timed out, and fewer than 2 ^ 32 threads sleep: the waiters that have not timed
-- out are those of the coroutines that wait, in the order they came; `_wt` is the number of threads that
-- sleep; and if the event is signaled, no coroutine waits and no thread sleeps.
pub reached-IsHeard : (y : Users) → Reach y → IsHeard y
reached-IsHeard y (begins m s _ same) = subst IsHeard (sym same) (record {
  own = tt;
  live = refl;
  sleeping = refl;
  range = omega arith;
  nobody = λ g. (refl, refl);
})
reached-IsHeard z (goes a y _ before g same) =
    subst IsHeard (sym same) (act-IsHeard a y g (reached-IsHeard y before))

stays_signaled :
    (s m : Bool) (asleep : ℕ) (ws : List ℕ)
    → (s ≡ true → (ws ≡ []) × (asleep ≡ 0))
    → (if ltb 0 asleep || is_some ws then s && m else true)
      ≡ (if ltb 0 asleep || is_some ws then false else true)
stays_signaled false m asleep ws nobody = refl
stays_signaled true m asleep ws nobody =
    let (none_waits, none_sleeps) = nobody refl in rw (none_waits, none_sleeps) refl

-- In every state that waits, signals, timeouts and resets lead to, if no coroutine that waits uses the
-- waiter of one that has timed out, and fewer than 2 ^ 32 threads sleep: `signal` makes ready exactly
-- the coroutines that wait, in the order they came, and notifies the threads if some sleep; nobody waits or sleeps then. If it woke nobody, the event
-- is signaled, and if it woke somebody, it is not.
pub signal_wakes_waiting :
    (y : Users)
    → Reach y
    → ((signal y.event).ready ≡ y.waiting)
      × ((signal y.event).notifies ≡ ltb 0 y.asleep)
      × ((act signals y).waiting ≡ [])
      × ((act signals y).asleep ≡ 0)
      × ((signal y.event).after.signaled
          ≡ (if ltb 0 y.asleep || is_some y.waiting then false else true))
signal_wakes_waiting y r =
    let h = reached-IsHeard y r in
    let (ready, notified, _, _, kept) = signal_wakes_all y.event in
    let (gone, awake) = signal_leaves y h in
    (
      ready ∙ h.live,
      notified ∙ ap (λ n. ltb 0 n) h.sleeping,
      gone,
      awake,
      kept
          ∙ rw (h.live, h.sleeping)
              (stays_signaled y.event.signaled y.event.manual_reset y.asleep y.waiting h.nobody),
    )
