-- ===== src/Event/Impl.antt =====
-- `wait`, `signal` and `reset` of `event_impl` in src/co/co.cc, each as far as it goes under its
-- mutex, and what the timers do to those that wait.
use cocoyaxi.Base.{
  ℕ, suc, ◌-◌, ◌^◌, ◌%◌, Bool, true, false, not, ◌&&◌, ◌||◌, List, [], ◌∷◌, ◌++◌, ◌==◌, ltb,
  if◌then◌else◌,
}
use cocoyaxi.Chan.Waiters.{WaitState, st_wait, st_ready, st_timeout, is_wait}

-- `waitx_t` of src/co/sched.h: `co` is the coroutine that it wakes, and `holder` the one whose field
-- `waitx` points to it.
pub record Waitx : Type 0 where
  pub co : ℕ
  pub holder : ℕ
  pub state : WaitState

-- `wt` and `sn` are of 32 bits.
pub record EventImpl : Type 0 where
  pub wc : List Waitx
  pub wt : ℕ
  pub sn : ℕ
  pub signaled : Bool
  pub manual_reset : Bool

-- `wait` returns, a coroutine yields, or a thread sleeps on `_cv` with the signal number it saw.
pub data Waited : Type 0 where
  returns : Bool → Waited
  yields : Waited
  sleeps : ℕ → Waited

-- The coroutines that are made ready, in order, and whether the threads are notified.
pub record Signal : Type 0 where
  pub ready : List ℕ
  pub notifies : Bool
  pub after : EventImpl

abbrev pub new : Bool → Bool → EventImpl
new m s = record { wc = []; wt = 0; sn = 0; signaled = s; manual_reset = m }

abbrev pub is_timeout : WaitState → Bool
is_timeout st_wait = false
is_timeout st_ready = false
is_timeout st_timeout = true

abbrev pub make_waitx : ℕ → Waitx
make_waitx co = record { co = co; holder = co; state = st_wait }

-- The loop of `wait` that pops the waiters at the front that have timed out.
unfoldable pub drop_timed_out : List Waitx → List Waitx
drop_timed_out [] = []
drop_timed_out (w ∷ ws) =
    let later = drop_timed_out ws in if is_timeout w.state then later else w ∷ ws

-- The first of them is used again, with a new state; without one a new `waitx_t` is made.
unfoldable pub take_waitx : ℕ → List Waitx → Waitx
take_waitx co [] = make_waitx co
take_waitx co (w ∷ ws) =
    if is_timeout w.state then record w { holder = co; state = st_wait } else make_waitx co

abbrev pub consume : EventImpl → EventImpl
consume e = record e { signaled = if not e.manual_reset then false else e.signaled }

-- `wait` in a coroutine.
unfoldable pub co_wait : ℕ → ℕ → EventImpl → Waited × EventImpl
co_wait co ms e =
    if e.signaled
    then (returns true, consume e)
    else (if ms == 0
        then (returns false, e)
        else (yields, record e { wc = drop_timed_out e.wc ++ take_waitx co e.wc ∷ [] }))

-- `wait` in a thread.
unfoldable pub thread_wait : ℕ → EventImpl → Waited × EventImpl
thread_wait ms e =
    if e.signaled
    then (returns true, consume e)
    else (if ms == 0
        then (returns false, e)
        else (sleeps e.sn, record e { wt = suc e.wt % 2 ^ 32 }))

-- `wait_for` of a thread that saw the signal number `sn` times out. The assertion there says that `wt`
-- is not 0.
unfoldable pub thread_expires : ℕ → EventImpl → EventImpl
thread_expires sn e = if sn == e.sn then record e { wt = e.wt - 1 } else e

-- The timer of a coroutine that waits runs out: `check_timeout` of src/co/sched.cc.
abbrev pub expire : ℕ → Waitx → Waitx
expire co w =
    if w.holder == co
    then record w { state = if is_wait w.state then st_timeout else w.state }
    else w

unfoldable pub expire_all : ℕ → List Waitx → List Waitx
expire_all co [] = []
expire_all co (w ∷ ws) = expire co w ∷ expire_all co ws

-- The loop under the mutex: it ends behind the first waiter that it makes ready.
unfoldable pub wake_first : List Waitx → List ℕ × List Waitx
wake_first [] = ([], [])
wake_first (w ∷ ws) =
    let later = wake_first ws in if is_wait w.state then (w.co ∷ [], ws) else later

-- The loop behind it.
unfoldable pub wake_rest : List Waitx → List ℕ
wake_rest [] = []
wake_rest (w ∷ ws) = let later = wake_rest ws in if is_wait w.state then w.co ∷ later else later

abbrev pub is_some : List ℕ → Bool
is_some [] = false
is_some (x ∷ xs) = true

-- `_signaled` behind a signal that woke somebody, or nobody.
abbrev pub signaled_after : Bool → EventImpl → Bool
signaled_after woken e =
    if woken then (if e.signaled && not e.manual_reset then false else e.signaled) else true

unfoldable pub signal : EventImpl → Signal
signal e =
    let has_wt = ltb 0 e.wt in
    let first = if has_wt then ([], e.wc) else wake_first e.wc in
    record {
      ready = first.0 ++ wake_rest first.1;
      notifies = has_wt;
      after = record {
        wc = [];
        wt = 0;
        sn = if has_wt then suc e.sn % 2 ^ 32 else e.sn;
        signaled = signaled_after (has_wt || is_some first.0) e;
        manual_reset = e.manual_reset;
      };
    }

unfoldable pub reset : EventImpl → EventImpl
reset e = record e { signaled = false }
