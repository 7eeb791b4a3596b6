-- ===== src/Mutex/Lock.antt =====
-- `lock`, `try_lock` and `unlock` of `mutex_impl` in src/co/co.cc, each as far as it goes under the
-- inner mutex.
use cocoyaxi.Base.{ℕ, Bool, true, false, [], ◌==◌, if◌then◌else◌}
use cocoyaxi.Mutex.Queue.{Queue, push_back, pop_front}

-- `locked` is `_lock`: 0 unlocked, 1 locked, 2 for a thread to take.
pub record Mutex : Type 0 where
  pub wq : Queue
  pub locked : ℕ

pub data Wakes : Type 0 where
  nobody : Wakes
  coroutine : ℕ → Wakes
  one_thread : Wakes

abbrev pub new : Mutex
new = record { wq = record { blocks = []; size = 0 }; locked = 0 }

unfoldable pub try_lock : Mutex → Bool × Mutex
try_lock m = if m.locked == 0 then (true, record m { locked = 1 }) else (false, m)

-- `lock`, by a coroutine or, with 0, by a thread: true if it has the lock, false if it waits.
unfoldable pub lock : ℕ → Mutex → Bool × Mutex
lock co m =
    if m.locked == 0
    then (true, record m { locked = 1 })
    else (false, record m { wq = push_back co m.wq })

-- A thread that waits is woken: true if it has the lock, false if it waits on.
unfoldable pub wake : Mutex → Bool × Mutex
wake m = if m.locked == 2 then (true, record m { locked = 1 }) else (false, m)

-- A coroutine is handed the lock, which stays locked; a thread finds it to be 2.
unfoldable pub hand_over : Mutex → ℕ × Queue → Wakes × Mutex
hand_over m (co, q) =
    if co == 0
    then (one_thread, record { wq = q; locked = 2 })
    else (coroutine co, record m { wq = q })

unfoldable pub unlock : Mutex → Wakes × Mutex
unlock m =
    if m.wq.size == 0 then (nobody, record m { locked = 0 }) else hand_over m (pop_front m.wq)
