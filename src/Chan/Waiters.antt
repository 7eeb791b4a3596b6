-- ===== src/Chan/Waiters.antt =====
-- The wait queue of a channel, `waitx` of src/co/co.cc.
pub mod Kinds
use cocoyaxi.Base.{
  ℕ, Bool, true, false, ◌||◌, Option, none, some, List, [], ◌∷◌, ◌++◌, if◌then◌else◌, ◌==◌,
}

-- Which operation waits. The program does not keep this: it takes a waiter for what the state of
-- the buffer makes it.
pub data Kind : Type 0 where
  reader writer : Kind

-- `st_wait`, `st_ready` and `st_timeout` of src/co/sched.h.
pub data WaitState : Type 0 where
  st_wait st_ready st_timeout : WaitState

-- `buf` is the object that is written, or the one that is to be read into.
pub record Waiter (V : Type 0) : Type 0 where
  pub who : ℕ
  pub kind : Kind
  pub state : WaitState
  pub buf : V

-- What an operation does for its caller: an object read, an object written, the end (`_done` is
-- false), or a wait.
pub data Reply (V : Type 0) : Type 0 where
  got : V → Reply V
  wrote : Reply V
  ended : Reply V
  waits : Reply V

-- What it does for one who waits: an object is put in its buffer or taken from it (`done` is 1), or
-- the channel was closed (`done` is 2).
pub data Notice (V : Type 0) : Type 0 where
  given : ℕ → V → Notice V
  taken : ℕ → V → Notice V
  shut : ℕ → Notice V

pub record Result (V : Type 0) (S : Type 0) : Type 0 where
  pub reply : Reply V
  pub notices : List (Notice V)
  pub after : S

abbrev pub is_wait : WaitState → Bool
is_wait st_wait = true
is_wait st_ready = false
is_wait st_timeout = false

module _ {V : Type 0} where
  -- `_ms == -1 || state.compare_exchange_strong(st_wait, st_ready)`.
  abbrev pub is_live : Bool → Waiter V → Bool
  is_live infinite w = infinite || is_wait w.state

  -- The loop that pops waiters until one has not timed out.
  unfoldable pub pop_live : Bool → List (Waiter V) → Option (Waiter V × List (Waiter V))
  pop_live infinite [] = none
  pop_live infinite (w ∷ ws) =
      let later = pop_live infinite ws in if is_live infinite w then some (w, ws) else later

  -- The loop of `close` over all waiters.
  unfoldable pub shut_all : List (Waiter V) → List (Notice V)
  shut_all [] = []
  shut_all (w ∷ ws) =
      let later = shut_all ws in if is_wait w.state then shut w.who ∷ later else later

  -- The timer of a waiter runs out before it is popped.
  abbrev pub time_out : ℕ → Waiter V → Waiter V
  time_out who w =
      if w.who == who
      then record w { state = if is_wait w.state then st_timeout else w.state }
      else w

  unfoldable pub time_out_all : ℕ → List (Waiter V) → List (Waiter V)
  time_out_all who [] = []
  time_out_all who (w ∷ ws) = time_out who w ∷ time_out_all who ws

  -- The objects that waiting readers were given.
  abbrev pub notices_read : List (Notice V) → List V
  notices_read [] = []
  notices_read (given who v ∷ ns) = v ∷ notices_read ns
  notices_read (taken who v ∷ ns) = notices_read ns
  notices_read (shut who ∷ ns) = notices_read ns

  -- The objects that were taken from waiting writers.
  abbrev pub notices_written : List (Notice V) → List V
  notices_written [] = []
  notices_written (given who v ∷ ns) = notices_written ns
  notices_written (taken who v ∷ ns) = v ∷ notices_written ns
  notices_written (shut who ∷ ns) = notices_written ns
