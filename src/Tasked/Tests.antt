-- ===== src/Tasked/Tests.antt =====
-- A few tasks, and the theorems there.
use cocoyaxi.Base.{◌+◌, ◌*◌, false, [], ◌∷◌, ◌++◌, ◌≡◌, refl, arith}
use cocoyaxi.Tasked.{Tasked, pos, run_at, sweep, round}
use cocoyaxi.Tasked.Sweep.{Sweeps, round-Sweeps}
use cocoyaxi.Tasked.Clock.{seconds_taken, rounds, replicate, clock_exact, clock_drift}

-- The function 1 once in a second, 2 every three seconds, and 3 once in five.
abbrev three : Tasked
three = record {
  tasks =
      record { fun = 1; period = pos 0; count = pos 1 }
      ∷ record { fun = 2; period = pos 3; count = pos 2 }
      ∷ record { fun = 3; period = pos 0; count = pos 5 }
      ∷ [];
  new_tasks = [];
  ms = 2100;
  sec = 0;
}

two_run : (round 1000 three).0 ≡ 1 ∷ 2 ∷ []
unfolding round sweep
two_run = refl

-- At 23:00:00, a task for 01:00:00 is two hours away.
tomorrow :
    (run_at 82800 4 1 0 0 false three).new_tasks
    ≡ record { fun = 4; period = pos 0; count = pos 7200 } ∷ []
unfolding run_at
tomorrow = refl

round-Sweeps_example :
    Sweeps 2 (three.tasks ++ []) ((round 1000 three).0, (round 1000 three).1.tasks)
round-Sweeps_example = round-Sweeps 1000 three

clock_exact_example :
    seconds_taken (1000 ∷ 1500 ∷ []) three * 1000 + (rounds (1000 ∷ 1500 ∷ []) three).ms ≡ 4600
clock_exact_example = clock_exact (1000 ∷ 1500 ∷ []) three (omega arith) (λ h. refl)

-- After a round of two seconds, three wake-ups take six more off.
clock_drift_example : seconds_taken (replicate 3 0) (record three { ms = 100; sec = 2 }) ≡ 6
clock_drift_example = clock_drift 3 (record three { ms = 100; sec = 2 }) (omega arith)
