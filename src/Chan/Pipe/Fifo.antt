-- ===== src/Chan/Pipe/Fifo.antt =====
-- A channel with a buffer is a queue, in every run of its operations.
use cocoyaxi.Base.{
  ℕ, ◌<◌, Bool, List, [], append-nil, ◌==◌, Bool-cases, ◌≡◌, inl, inr, refl, ap, sym, ◌&&◌, not,
}
use cocoyaxi.Chan.Waiters.{notices_written, reader, writer}
use cocoyaxi.Chan.Waiters.Kinds.{time_out_all-AreAll, shut_all-silent, time_out_all-nil}
use cocoyaxi.Chan.Pipe.{Pipe, new, read, write, begin_close, end_close, expire}
use cocoyaxi.Chan.Pipe.Ring.{ring, dist_same}
use cocoyaxi.Chan.Pipe.Queue.{contents, IsFormed}
use cocoyaxi.Chan.Pipe.Reads.{read-Keeps, some_room}
use cocoyaxi.Chan.Pipe.Writes.{write-Keeps}
use cocoyaxi.Chan.Runs.{Action, Channel, run, start, Keeps, IsQueue, Fifo, run-Fifo}

module _ {V : Type 0} where
  -- `pipe_impl` as a channel.
  abbrev pub channel : Channel V (Pipe V)
  channel = record {
    read = read;
    write = write;
    begin_close = begin_close;
    end_close = end_close;
    expire = expire;
  }

  begin_close-IsFormed : (t : Pipe V) → IsFormed t → IsFormed (begin_close t)
  unfolding begin_close
  begin_close-IsFormed t h = record {
    reads_in = h.reads_in;
    writes_in = h.writes_in;
    meets = h.meets;
    nobody = h.nobody;
    readers = h.readers;
    writers = h.writers;
  }

  begin_close-contents : (t : Pipe V) → contents (begin_close t) ≡ contents t
  unfolding begin_close
  begin_close-contents t = refl

  expire-IsFormed : (who : ℕ) (t : Pipe V) → IsFormed t → IsFormed (expire who t)
  unfolding expire
  expire-IsFormed who t h = elim (Bool-cases t.infinite) [
    | inl e ↦ simp e h
    | inr e ↦ simp e (record {
      reads_in = h.reads_in;
      writes_in = h.writes_in;
      meets = h.meets;
      nobody = λ g. time_out_all-nil who t.wq (h.nobody g);
      readers = λ g. time_out_all-AreAll reader who t.wq (h.readers g);
      writers = λ g. time_out_all-AreAll writer who t.wq (h.writers g);
    })
  ]

  expire-contents : (who : ℕ) (t : Pipe V) → contents (expire who t) ≡ contents t
  unfolding expire
  expire-contents who t = elim (Bool-cases t.infinite) [ inl e ↦ simp e refl | inr e ↦ simp e refl ]

  end_close-Keeps :
      (t : Pipe V)
      → IsFormed t
      → Keeps IsFormed contents t (notices_written (end_close t).notices) (end_close t)
  unfolding end_close
  end_close-Keeps t h = elim (Bool-cases (t.closed == 1)) [
    | inl c ↦ elim (Bool-cases (t.rx == t.wx && not t.full)) [
      | inl e ↦ rw c (
          rw e (record {
            kept = record {
              reads_in = h.reads_in;
              writes_in = h.writes_in;
              meets = h.meets;
              nobody = λ g. refl;
              readers = λ g. tt;
              writers = λ g. tt;
            };
            moved =
                let (read, written) = shut_all-silent t.wq in rw read (rw written (append-nil _));
          }))
      | inr e ↦ rw c (
          rw e (record {
            kept = record {
              reads_in = h.reads_in;
              writes_in = h.writes_in;
              meets = h.meets;
              nobody = h.nobody;
              readers = h.readers;
              writers = h.writers;
            };
            moved = append-nil _;
          }))
    ]
    | inr c ↦ rw c (record { kept = h; moved = append-nil _ })
  ]

  channel-IsQueue : IsQueue channel (λ (n : ℕ) (t : Pipe V). IsFormed t) contents
  channel-IsQueue = record {
    reading = λ n who old t h. read-Keeps who old t h;
    writing = λ n who v t h. write-Keeps who v t h;
    beginning = λ n t h. (begin_close-IsFormed t h, begin_close-contents t);
    ending = λ n t h. end_close-Keeps t h;
    expiring = λ n who t h. (expire-IsFormed who t h, expire-contents who t);
  }

  new-IsFormed :
      (cells : ℕ → V) (size : ℕ) (infinite : Bool) → 0 < size → IsFormed (new cells size infinite)
  unfolding new
  new-IsFormed cells size infinite h = record {
    reads_in = h;
    writes_in = h;
    meets = λ g. refl;
    nobody = λ g. refl;
    readers = λ g. tt;
    writers = λ g. tt;
  }

  new-contents :
      (cells : ℕ → V) (size : ℕ) (infinite : Bool)
      → 0 < size
      → contents (new cells size infinite) ≡ []
  unfolding new
  new-contents cells size infinite h =
      rw (some_room size 0 h) (ap (ring size cells 0) (dist_same size 0))

  -- In every run of reads, writes, closing and timeouts on a new channel with a buffer, by any
  -- coroutines and threads in any order, the objects that were written are those that were read, in
  -- the same order, followed by those in the buffer; the positions stay in the buffer; readers wait
  -- only when the buffer is empty, and writers only when it is full.
  pub run_queue :
      (cells : ℕ → V) (size : ℕ) (infinite : Bool) (actions : List (Action V))
      → 0 < size
      → Fifo
          (λ (n : ℕ) (t : Pipe V). IsFormed t)
          contents
          0
          (run channel actions (start (new cells size infinite)))
  run_queue cells size infinite actions h =
      run-Fifo channel (λ (n : ℕ) (t : Pipe V). IsFormed t) contents channel-IsQueue actions
        (start (new cells size infinite))
        (record {
          formed = new-IsFormed cells size infinite h;
          ordered = sym (new-contents cells size infinite h);
        })
