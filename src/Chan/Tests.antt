-- ===== src/Chan/Tests.antt =====
-- Short runs of channels, and the theorems there.
use cocoyaxi.Base.{ℕ, ◌+◌, true, false, List, [], ◌∷◌, ◌≡◌, refl, arith}
use cocoyaxi.Chan.Waiters.{got, ended, writer, st_wait, st_timeout, pop_live}
use cocoyaxi.Chan.Runs.{Action, reads, writes, begins_close, ends_close, run, start, Fifo}
use cocoyaxi.Chan.Pipe
use cocoyaxi.Chan.Pipe.Queue.{IsFormed, contents}
use cocoyaxi.Chan.Pipe.Fifo as PipeFifo
use cocoyaxi.Chan.Pipe.Drain.{closed_drain, replies}
use cocoyaxi.Chan.PipeCap
use cocoyaxi.Chan.PipeCap.Formed as CapFormed
use cocoyaxi.Chan.PipeCap.Fifo as CapFifo

-- Two writes fill a channel of two, a third waits, and a read lets it in.
abbrev actions : List (Action ℕ)
actions =
    writes 1 5 ∷ writes 1 6 ∷ writes 3 7 ∷ reads 2 0 ∷ begins_close ∷ ends_close ∷ reads 2 0 ∷ []

first_two_read :
    (run PipeFifo.channel actions (start (Pipe.new (λ i. 0) 2 true))).received ≡ 5 ∷ 6 ∷ []
unfolding Pipe.new Pipe.read Pipe.write Pipe.give Pipe.write_full Pipe.admit Pipe.begin_close
    Pipe.end_close pop_live
first_two_read = refl

run_queue_example :
    Fifo
      (λ (n : ℕ) (t : Pipe.Pipe ℕ). IsFormed t)
      contents
      0
      (run PipeFifo.channel actions (start (Pipe.new (λ i. 0) 2 true)))
run_queue_example = PipeFifo.run_queue (λ i. 0) 2 true actions (omega arith)

run_list_queue_example :
    Fifo CapFormed.IsFormed CapFifo.objects 0
      (run CapFifo.channel actions (start (PipeCap.new 2 true)))
run_list_queue_example = CapFifo.run_list_queue 2 true actions (omega arith) (λ h. omega arith)

-- A closed channel that is full, with two writers, of which one has timed out.
abbrev closed_full : Pipe.Pipe ℕ
closed_full = record {
  cells = λ i. 10 + i;
  size = 2;
  rx = 1;
  wx = 1;
  full = true;
  infinite = false;
  wq =
      record { who = 1; kind = writer; state = st_timeout; buf = 20 }
      ∷ record { who = 2; kind = writer; state = st_wait; buf = 21 }
      ∷ [];
  closed = 2;
}

closed_full-IsFormed : IsFormed closed_full
closed_full-IsFormed = record {
  reads_in = omega arith;
  writes_in = omega arith;
  meets = λ h. refl;
  nobody = λ h. absurd (h refl);
  readers = λ h. ground arith;
  writers = λ h. (refl, (refl, tt));
}

closed_drain_example : replies 4 9 0 closed_full ≡ got 11 ∷ got 10 ∷ got 21 ∷ ended ∷ []
closed_drain_example = closed_drain 4 9 0 closed_full closed_full-IsFormed refl
