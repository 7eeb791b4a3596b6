-- ===== src/Event/Runs.antt =====
-- `event_impl` of src/co/co.cc with all coroutines and threads that use it, and the states that waits,
-- signals, timeouts and resets bring them to.
use cocoyaxi.Base.{
  drop_first, ℕ, suc, ◌-◌, ◌<◌, ◌≤◌, ◌^◌, Bool, List, [], ◌∷◌, ◌++◌, ◌==◌, if◌then◌else◌, ◌≡◌,
}
use cocoyaxi.Event.Impl.{
  EventImpl, Waited, returns, yields, sleeps, new, co_wait, thread_wait, thread_expires, expire_all,
  signal, reset,
}
use cocoyaxi.Event.Signals.{woken_for}

-- `waiting` has the coroutines that yielded in `wait` and were neither made ready nor timed out since,
-- in the order they came, and `asleep` counts the threads that sleep in it and were not notified.
pub record Users : Type 0 where
  pub event : EventImpl
  pub waiting : List ℕ
  pub asleep : ℕ

pub data Act : Type 0 where
  co_waits : ℕ → ℕ → Act
  thread_waits : ℕ → Act
  co_expires : ℕ → Act
  expires : ℕ → Act
  signals : Act
  resets : Act

abbrev pub joined : ℕ → Waited → List ℕ → List ℕ
joined co yields ws = ws ++ co ∷ []
joined co (returns b) ws = ws
joined co (sleeps n) ws = ws

abbrev pub counted : Waited → ℕ → ℕ
counted (sleeps n) asleep = suc asleep
counted yields asleep = asleep
counted (returns b) asleep = asleep

-- A coroutine waits no more.
abbrev pub without : ℕ → List ℕ → List ℕ
without co [] = []
without co (x ∷ xs) = if x == co then without co xs else x ∷ without co xs

-- Those that were made ready wait no more, each one time.
abbrev pub left_waiting : List ℕ → List ℕ → List ℕ
left_waiting [] ws = ws
left_waiting (co ∷ ready) ws = left_waiting ready (drop_first co ws)

abbrev pub act : Act → Users → Users
act (co_waits co ms) y =
    let r = co_wait co ms y.event in record y { event = r.1; waiting = joined co r.0 y.waiting }
act (thread_waits ms) y =
    let r = thread_wait ms y.event in record y { event = r.1; asleep = counted r.0 y.asleep }
act (co_expires co) y = record y {
  event = record y.event { wc = expire_all co y.event.wc };
  waiting = without co y.waiting;
}
act (expires sn) y = record y {
  event = thread_expires sn y.event;
  asleep = if sn == y.event.sn then y.asleep - 1 else y.asleep;
}
act signals y =
    let r = signal y.event in
    record {
      event = r.after;
      waiting = left_waiting r.ready y.waiting;
      asleep = if r.notifies then 0 else y.asleep;
    }
act resets y = record y { event = reset y.event }

-- No `waitx_t` is used again: the waiter at the front has not timed out when a coroutine waits. The
-- threads that sleep are fewer than 2 ^ 32, and one that times out and saw the last signal sleeps.
abbrev pub Guard : Act → Users → Type 0
Guard (co_waits co ms) y = woken_for co y.event.wc ≡ co
Guard (thread_waits ms) y = suc y.asleep < 2 ^ 32
Guard (co_expires co) y = Unit
Guard (expires sn) y = sn ≡ y.event.sn → 1 ≤ y.asleep
Guard signals y = Unit
Guard resets y = Unit

abbrev pub start : Bool → Bool → Users
start m s = record { event = new m s; waiting = []; asleep = 0 }

pub data Reach : Users → Type 0 where
  begins : (m s : Bool) (y : Users) → y ≡ start m s → Reach y
  goes : (a : Act) (y z : Users) → Reach y → Guard a y → z ≡ act a y → Reach z
