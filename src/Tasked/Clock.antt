-- ===== src/Tasked/Clock.antt =====
-- The clock of the loop: which seconds the rounds take off the tasks.
use cocoyaxi.Base.{ℕ, zero, suc, ◌+◌, ◌*◌, ◌≤◌, ◌<◌, List, [], ◌∷◌, All, length, ◌++◌, ◌≡◌, arith}
use native.Mathlib.Nat.{suc-mul}
use cocoyaxi.Tasked.{Tasked, tick, sweep, round}

-- The state behind rounds that take these milliseconds.
abbrev pub rounds : List ℕ → Tasked → Tasked
rounds [] s = s
rounds (e ∷ es) s = rounds es (round e s).1

-- The seconds that those rounds take off every task that is not run.
abbrev pub seconds_taken : List ℕ → Tasked → ℕ
seconds_taken [] s = 0
seconds_taken (e ∷ es) s = (round e s).1.sec + seconds_taken es (round e s).1

abbrev pub sum : List ℕ → ℕ
sum [] = 0
sum (e ∷ es) = e + sum es

abbrev pub replicate : ℕ → ℕ → List ℕ
replicate zero e = []
replicate (suc n) e = e ∷ replicate n e

tick_whole :
    (ms sec : ℕ) → (ms < 1000 → sec ≡ 0) → (tick (ms, sec)).1 * 1000 + (tick (ms, sec)).0 ≡ ms
tick_whole ms sec h = ground arith

tick_early : (ms sec : ℕ) → ms < 1000 → tick (ms, sec) ≡ (ms, sec)
tick_early ms sec h = ground arith

-- If every round takes a second or more, and the loop comes from such a round or from its start, then
-- the seconds that are taken off, with the milliseconds that are left, are the time that has passed.
pub clock_exact :
    (es : List ℕ) (s : Tasked)
    → All (λ e. 1000 ≤ e) es
    → (s.ms < 1000 → s.sec ≡ 0)
    → seconds_taken es s * 1000 + (rounds es s).ms ≡ s.ms + sum es
unfolding round
clock_exact [] s h g = omega arith
clock_exact (e ∷ es) s h g = omega (
  arith,
  tick_whole s.ms s.sec g,
  clock_exact es (round e s).1 h.1
      (λ (k : (tick (s.ms, s.sec)).0 + e < 1000). absurd (omega (arith, h.0, k))),
)

-- After a round that has taken `sec` seconds off, every round that is woken at once takes as many off
-- again, although no time has passed.
pub clock_drift : (n : ℕ) (s : Tasked) → s.ms < 1000 → seconds_taken (replicate n 0) s ≡ n * s.sec
unfolding round
clock_drift zero s h = omega arith
clock_drift (suc n) s h =
    let all = s.tasks ++ s.new_tasks in
    let s' : Tasked = record {
      tasks = (sweep (length all) s.sec all).1;
      new_tasks = [];
      ms = s.ms + 0;
      sec = s.sec;
    } in
    rw (tick_early s.ms s.sec h) (omega (arith, clock_drift n s' (omega arith), suc-mul n s.sec))
