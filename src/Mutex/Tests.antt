-- ===== src/Mutex/Tests.antt =====
-- A mutex that a coroutine has and for which another and a thread wait, and the theorems there.
use cocoyaxi.Base.{◌+◌, ◌*◌, [], ◌∷◌, ◌≡◌, refl, inr, arith}
use cocoyaxi.Mutex.Queue.{Queue, put_back, push_back, pop_front}
use cocoyaxi.Mutex.Lock.{Mutex, lock, unlock, hand_over}
use cocoyaxi.Mutex.Refinement.{Holds, push_back-Holds, pop_front-Holds}
use cocoyaxi.Mutex.Exclusion.{reached-IsExclusive}
use cocoyaxi.Mutex.System.{Sys, locks, unlocks, fire, start, begins, goes, IsExclusive}

-- The queue of the coroutines 5 and 7.
abbrev two : Queue
two = record { blocks = record { rx = 1; wx = 3; q = λ i. 3 + 2 * i } ∷ []; size = 2 }

two-Holds : Holds two (5 ∷ 7 ∷ [])
two-Holds = record { blocks_ok = inr (omega arith, omega arith); holding = refl; sized = refl }

-- Coroutine 5 locks, 7 waits, and 5 unlocks.
abbrev handed : Sys
handed = fire unlocks (fire (locks 7) (fire (locks 5) start))

push_pop : (pop_front (push_back 9 two)).0 ≡ 5
unfolding push_back put_back pop_front
push_pop = refl

push_back-Holds_example : Holds (push_back 9 two) (5 ∷ 7 ∷ 9 ∷ [])
push_back-Holds_example = push_back-Holds 9 (5 ∷ 7 ∷ []) two two-Holds

pop_front-Holds_example : ((pop_front two).0 ≡ 5) × Holds (pop_front two).1 (7 ∷ [])
pop_front-Holds_example = pop_front-Holds (5 ∷ 7 ∷ []) two two-Holds

reached-IsExclusive_example : IsExclusive handed
unfolding lock unlock hand_over
reached-IsExclusive_example = reached-IsExclusive handed (
    goes unlocks (fire (locks 7) (fire (locks 5) start)) handed
      (goes (locks 7) (fire (locks 5) start) (fire (locks 7) (fire (locks 5) start))
        (goes (locks 5) start (fire (locks 5) start) (begins start refl) tt refl) tt refl)
      (omega arith) refl)
