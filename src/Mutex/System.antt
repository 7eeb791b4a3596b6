-- ===== src/Mutex/System.antt =====
-- The mutex with all coroutines and threads that use it, and the states that they can bring it to.
use cocoyaxi.Base.{
  drop_first, ℕ, suc, ◌+◌, ◌-◌, ◌≤◌, Bool, true, false, List, [], ◌∷◌, ◌++◌, ◌==◌, if◌then◌else◌,
  ◌≡◌, not, ◌&&◌,
}
use cocoyaxi.Mutex.Queue.{Queue}
use cocoyaxi.Mutex.Lock.{
  Mutex, Wakes, nobody, coroutine, one_thread, new, try_lock, lock, wake, unlock,
}
use cocoyaxi.Mutex.Refinement.{Holds}

-- `owners` counts those that were given the lock and did not unlock yet, `threads` the threads that
-- wait in `_cv.wait`, and `waiting` has those that were refused by `lock` and were not woken or notified
-- yet, in the order they came: coroutines, and 0 for a thread.
pub record Sys : Type 0 where
  pub mutex : Mutex
  pub owners : ℕ
  pub threads : ℕ
  pub waiting : List ℕ

pub data Event : Type 0 where
  tries : Event
  locks : ℕ → Event
  wakes : Event
  unlocks : Event

abbrev pub gain : Bool → ℕ → ℕ
gain true n = suc n
gain false n = n

-- A coroutine that is resumed has the lock.
abbrev pub resumed : Wakes → ℕ → ℕ
resumed nobody n = n
resumed (coroutine co) n = suc n
resumed one_thread n = n

-- One that waits is woken.
abbrev pub left_waiting : Wakes → List ℕ → List ℕ
left_waiting nobody ws = ws
left_waiting (coroutine co) ws = drop_first co ws
left_waiting one_thread ws = drop_first 0 ws

abbrev pub fire : Event → Sys → Sys
fire tries y = let r = try_lock y.mutex in record y { mutex = r.1; owners = gain r.0 y.owners }
fire (locks co) y =
    let r = lock co y.mutex in
    record {
      mutex = r.1;
      owners = gain r.0 y.owners;
      threads = if not r.0 && co == 0 then suc y.threads else y.threads;
      waiting = if r.0 then y.waiting else y.waiting ++ co ∷ [];
    }
fire wakes y =
    let r = wake y.mutex in
    record {
      mutex = r.1;
      owners = gain r.0 y.owners;
      threads = if r.0 then y.threads - 1 else y.threads;
      waiting = y.waiting;
    }
fire unlocks y =
    let r = unlock y.mutex in
    record {
      mutex = r.1;
      owners = resumed r.0 (y.owners - 1);
      threads = y.threads;
      waiting = left_waiting r.0 y.waiting;
    }

-- Only one that has the lock unlocks; only a thread that waits is woken, also when nobody notified it.
abbrev pub Guard : Event → Sys → Type 0
Guard tries y = Unit
Guard (locks co) y = Unit
Guard wakes y = 1 ≤ y.threads
Guard unlocks y = 1 ≤ y.owners

abbrev pub start : Sys
start = record { mutex = new; owners = 0; threads = 0; waiting = [] }

-- The states that the events lead to.
pub data Reach : Sys → Type 0 where
  begins : (y : Sys) → y ≡ start → Reach y
  goes : (e : Event) (y z : Sys) → Reach y → Guard e y → z ≡ fire e y → Reach z

abbrev pub nulls : List ℕ → ℕ
nulls [] = 0
nulls (x ∷ xs) = if x == 0 then suc (nulls xs) else nulls xs

-- At most one has the lock, and exactly one if it is locked; if it is not, nobody waits; if it is for
-- a thread to take, there is one that waits for that, beside those in the queue.
pub record Excludes (wq : Queue) (locked owners threads : ℕ) (waiting : List ℕ) : Type 0 where
  pub queued : Holds wq waiting
  pub range : locked ≤ 2
  pub owned : owners ≡ (if locked == 1 then 1 else 0)
  pub unlocked : locked ≡ 0 → waiting ≡ []
  pub threads_wait : threads ≡ nulls waiting + (if locked == 2 then 1 else 0)

abbrev pub IsExclusive : Sys → Type 0
IsExclusive y = Excludes y.mutex.wq y.mutex.locked y.owners y.threads y.waiting
