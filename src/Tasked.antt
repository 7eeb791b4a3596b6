-- ===== src/Tasked.antt =====
-- Scheduled tasks: `TaskedImpl` of src/tasked.cc. A function is a number. The thread runs `loop`; a
-- round of it is one function, which is given the time that the round takes.
pub mod Sweep
pub mod Clock
mod Tests
use cocoyaxi.Base.{
  ℕ, zero, suc, ◌+◌, ◌-◌, ◌*◌, ◌/◌, Bool, true, false, List, [], ◌∷◌, ◌++◌, ltb, leb, if◌then◌else◌,
  length,
}

-- `int`; that its range is left is not modelled.
pub data ℤ : Type 0 where
  pos : ℕ → ℤ
  negsuc : ℕ → ℤ

abbrev pub minus : ℤ → ℕ → ℤ
minus (pos n) k = if ltb n k then negsuc (k - suc n) else pos (n - k)
minus (negsuc n) k = negsuc (n + k)

abbrev pub is_positive : ℤ → Bool
is_positive (pos zero) = false
is_positive (pos (suc n)) = true
is_positive (negsuc n) = false

pub record Task : Type 0 where
  pub fun : ℕ
  pub period : ℤ
  pub count : ℤ

-- `ms` and `sec` are variables of the loop.
pub record Tasked : Type 0 where
  pub tasks : List Task
  pub new_tasks : List Task
  pub ms : ℕ
  pub sec : ℕ

abbrev pub add_task : Task → Tasked → Tasked
add_task t s = record s { new_tasks = s.new_tasks ++ t ∷ [] }

-- With it, whether the loop is woken.
unfoldable pub run_in : ℕ → ℤ → Tasked → Bool × Tasked
run_in f sec s = (
  (if is_positive sec then false else true),
  add_task (record { fun = f; period = pos 0; count = sec }) s,
)

unfoldable pub run_every : ℕ → ℤ → Tasked → Tasked
run_every f sec s = add_task (record { fun = f; period = sec; count = sec }) s

-- The seconds from `now` on to a time of the day, of today or tomorrow.
abbrev pub wait_for : ℕ → ℕ → ℕ
wait_for now at_time = (if ltb at_time now then at_time + 86400 else at_time) - now

-- `now` is the second of the day.
unfoldable pub run_at : ℕ → ℕ → ℕ → ℕ → ℕ → Bool → Tasked → Tasked
run_at now f hour minute second daily s =
    add_task
      (record {
        fun = f;
        period = if daily then pos 86400 else pos 0;
        count = pos (wait_for now (hour * 3600 + minute * 60 + second));
      })
      s

-- `t.count -= sec`.
abbrev pub lower : ℕ → Task → Task
lower sec t = record t { count = minus t.count sec }

abbrev pub is_due : Task → Bool
is_due t = if is_positive t.count then false else true

abbrev pub again : Task → Task
again t = record t { count = t.period }

-- `_tasks.remove(i)`: the last one takes the place.
abbrev pub last_first : Task → List Task → List Task
last_first t [] = t ∷ []
last_first t (t' ∷ ts) =
    let moved = last_first t' ts in elim moved [ [] ↦ t ∷ [] | l ∷ rest ↦ l ∷ t ∷ rest ]

abbrev pub fill_gap : List Task → List Task
fill_gap [] = []
fill_gap (t ∷ ts) = last_first t ts

-- The loop over the tasks from `i` on: the functions that are run, and the tasks that stay.
unfoldable pub sweep : ℕ → ℕ → List Task → List ℕ × List Task
sweep zero sec ts = ([], ts)
sweep (suc rounds) sec [] = ([], [])
sweep (suc rounds) sec (t ∷ ts) =
    let kept = sweep rounds sec ts in
    let removed = sweep rounds sec (fill_gap ts) in
    if is_due (lower sec t)
    then if is_positive t.period
      then (t.fun ∷ kept.0, again (lower sec t) ∷ kept.1)
      else (t.fun ∷ removed.0, removed.1)
    else (kept.0, lower sec t ∷ kept.1)

-- `if (ms >= 1000)`: the whole seconds, and the milliseconds that are left.
abbrev pub tick : ℕ × ℕ → ℕ × ℕ
tick (ms, sec) = if leb 1000 ms then (ms - ms / 1000 * 1000, ms / 1000) else (ms, sec)

-- A round of the loop, which takes `elapsed` milliseconds.
unfoldable pub round : ℕ → Tasked → List ℕ × Tasked
round elapsed s =
    let all = s.tasks ++ s.new_tasks in
    let clock = tick (s.ms, s.sec) in
    let swept = sweep (length all) clock.1 all in
    (swept.0, record { tasks = swept.1; new_tasks = []; ms = clock.0 + elapsed; sec = clock.1 })
