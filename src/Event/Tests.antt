-- ===== src/Event/Tests.antt =====
-- An event for which a coroutine waits behind another that has timed out, and the theorems there.
use cocoyaxi.Base.{true, false, [], ◌∷◌, ◌≡◌, refl, ◌++◌}
use cocoyaxi.Event.Impl.{
  EventImpl, drop_timed_out, take_waitx, co_wait, expire_all, wake_first, wake_rest, signal,
}
use cocoyaxi.Event.Signals.{live_cos, woken_for, signal-co_wait}
use cocoyaxi.Event.Runs.{Users, co_waits, co_expires, signals, act, start, Reach, begins, goes}
use cocoyaxi.Event.Heard.{reached-IsHeard, signal_wakes_waiting}
use cocoyaxi.Event.Owned.{IsHeard}

-- Coroutine 5 waits, and its time runs out.
abbrev lone : Users
lone = act (co_expires 5) (act (co_waits 5 10) (start false false))

abbrev timed_out : EventImpl
timed_out = lone.event

-- The coroutines 5 and 7 wait, and the time of 5 runs out.
abbrev two : Users
two = act (co_expires 5) (act (co_waits 7 10) (act (co_waits 5 10) (start false false)))

two-Reach : Reach two
unfolding co_wait drop_timed_out take_waitx
two-Reach =
    goes (co_expires 5) (act (co_waits 7 10) (act (co_waits 5 10) (start false false))) two
      (goes (co_waits 7 10) (act (co_waits 5 10) (start false false))
        (act (co_waits 7 10) (act (co_waits 5 10) (start false false)))
        (goes (co_waits 5 10) (start false false) (act (co_waits 5 10) (start false false))
          (begins false false (start false false) refl) refl refl)
        refl refl)
      tt refl

-- Coroutine 7 waits there, and the signal wakes 5.
wakes_other : (signal (co_wait 7 10 timed_out).1).ready ≡ 5 ∷ []
unfolding co_wait expire_all drop_timed_out take_waitx signal wake_first wake_rest
wakes_other = refl

-- Behind that signal another leaves the event signaled, and coroutine 7 waits on.
still_waits :
    let y = act signals (act signals (act (co_waits 7 10) lone)) in
    (y.event.signaled ≡ true) × (y.waiting ≡ 7 ∷ [])
unfolding co_wait expire_all drop_timed_out take_waitx signal wake_first wake_rest
still_waits = (refl, refl)

signal-co_wait_example :
    (signal (co_wait 7 10 timed_out).1).ready
    ≡ live_cos timed_out.wc ++ woken_for 7 timed_out.wc ∷ []
unfolding co_wait
signal-co_wait_example = signal-co_wait 7 10 timed_out refl refl

reached-IsHeard_example : IsHeard two
reached-IsHeard_example = reached-IsHeard two two-Reach

signal_wakes_waiting_example :
    ((signal two.event).ready ≡ two.waiting)
    × ((signal two.event).notifies ≡ false)
    × ((act signals two).waiting ≡ [])
    × ((act signals two).asleep ≡ 0)
    × ((signal two.event).after.signaled ≡ false)
unfolding co_wait drop_timed_out take_waitx
signal_wakes_waiting_example = signal_wakes_waiting two two-Reach
