-- ===== src/Event/Signals.antt =====
-- What `event_impl::signal` of src/co/co.cc does for those that wait.
use cocoyaxi.Base.{
  ℕ, Bool, true, false, ◌&&◌, ◌||◌, List, [], ◌∷◌, ◌++◌, ◌==◌, ltb, if◌then◌else◌, Bool-cases, ◌≡◌,
  inl, inr, refl, arith,
}
use cocoyaxi.Chan.Waiters.{WaitState, st_wait, st_ready, st_timeout, is_wait}
use cocoyaxi.Event.Impl.{
  Waitx, EventImpl, is_timeout, drop_timed_out, take_waitx, co_wait, wake_first, wake_rest, is_some,
  signaled_after, signal,
}

-- The coroutines that the waiters which have not timed out stand for.
abbrev pub live_cos : List Waitx → List ℕ
live_cos [] = []
live_cos (w ∷ ws) = if is_wait w.state then w.co ∷ live_cos ws else live_cos ws

wake_rest_all : (ws : List Waitx) → wake_rest ws ≡ live_cos ws
unfolding wake_rest
wake_rest_all [] = refl
wake_rest_all (w ∷ ws) = rw (wake_rest_all ws) refl

wake_first_all :
    (ws : List Waitx)
    → let r = wake_first ws in
      (r.0 ++ wake_rest r.1 ≡ live_cos ws) × (is_some r.0 ≡ is_some (live_cos ws))
unfolding wake_first wake_rest
wake_first_all [] = (refl, refl)
wake_first_all (w ∷ ws) = elim (Bool-cases (is_wait w.state)) [
  | inl e ↦ rw e (rw (wake_rest_all ws) refl, refl)
  | inr e ↦ rw e (wake_first_all ws)
]

signaled_after_lem :
    (woken : Bool) (e : EventImpl)
    → signaled_after woken e ≡ (if woken then e.signaled && e.manual_reset else true)
signaled_after_lem woken e = ground arith

-- `signal` makes ready the coroutines that the waiters which have not timed out were made for, and
-- notifies the threads if `_wt` is not 0; no waiter is left. If it woke somebody, the event stays signaled
-- only if it was and is reset by hand; if not, it is signaled.
pub signal_wakes_all :
    (e : EventImpl)
    → let r = signal e in
      (r.ready ≡ live_cos e.wc)
      × (r.notifies ≡ ltb 0 e.wt)
      × (r.after.wc ≡ [])
      × (r.after.wt ≡ 0)
      × (r.after.signaled
          ≡ (if ltb 0 e.wt || is_some (live_cos e.wc) then e.signaled && e.manual_reset else true))
unfolding signal
signal_wakes_all e = elim (Bool-cases (ltb 0 e.wt)) [
  | inl t ↦ rw t (wake_rest_all e.wc, refl, refl, refl, signaled_after_lem true e)
  | inr t ↦
      let (all, some_woken) = wake_first_all e.wc in
      rw t (rw some_woken (all, refl, refl, refl, signaled_after_lem (is_some (live_cos e.wc)) e))
]

pub live_cos-append :
    (ws : List Waitx) (w : Waitx)
    → w.state ≡ st_wait
    → live_cos (ws ++ w ∷ []) ≡ live_cos ws ++ w.co ∷ []
live_cos-append [] w g = rw g refl
live_cos-append (v ∷ ws) w g = elim (Bool-cases (is_wait v.state)) [
  | inl e ↦ rw e (rw (live_cos-append ws w g) refl)
  | inr e ↦ rw e (live_cos-append ws w g)
]

drop_one :
    (s : WaitState) (co holder : ℕ) (later ws : List Waitx)
    → live_cos later ≡ live_cos ws
    → let w : Waitx = record { co = co; holder = holder; state = s } in
      live_cos (if is_timeout s then later else w ∷ ws) ≡ live_cos (w ∷ ws)
drop_one st_wait co holder later ws e = refl
drop_one st_ready co holder later ws e = refl
drop_one st_timeout co holder later ws e = e

pub live_cos-drop_timed_out : (ws : List Waitx) → live_cos (drop_timed_out ws) ≡ live_cos ws
unfolding drop_timed_out
live_cos-drop_timed_out [] = refl
live_cos-drop_timed_out (w ∷ ws) =
    drop_one w.state w.co w.holder (drop_timed_out ws) ws (live_cos-drop_timed_out ws)

-- The coroutine that is woken for one that waits: the one that the `waitx_t` used again was made for,
-- if the waiter at the front has timed out.
abbrev pub woken_for : ℕ → List Waitx → ℕ
woken_for co [] = co
woken_for co (w ∷ ws) = if is_timeout w.state then w.co else co

pub take_waitx_lem :
    (co : ℕ) (ws : List Waitx)
    → ((take_waitx co ws).co ≡ woken_for co ws) × ((take_waitx co ws).state ≡ st_wait)
unfolding take_waitx
take_waitx_lem co [] = (refl, refl)
take_waitx_lem co (w ∷ ws) = elim (Bool-cases (is_timeout w.state)) [
  | inl e ↦ rw e (refl, refl)
  | inr e ↦ rw e (refl, refl)
]

-- If the event is not signaled and a coroutine waits for some time, a signal wakes those that waited
-- before it, and last of all the coroutine that its `waitx_t` was made for: itself, or, if the waiter
-- at the front has timed out, the one that had waited there.
pub signal-co_wait :
    (co ms : ℕ) (e : EventImpl)
    → e.signaled ≡ false
    → (ms == 0) ≡ false
    → (signal (co_wait co ms e).1).ready ≡ live_cos e.wc ++ woken_for co e.wc ∷ []
unfolding co_wait
signal-co_wait co ms e g h =
    let (who, waits) = take_waitx_lem co e.wc in
    let (all, _, _, _, _) = signal_wakes_all (co_wait co ms e).1 in
    rw all (
      rw g (
        rw h (
          rw (live_cos-append (drop_timed_out e.wc) (take_waitx co e.wc) waits)
            (rw (live_cos-drop_timed_out e.wc) (rw who refl)))))
