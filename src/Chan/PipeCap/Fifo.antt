-- ===== src/Chan/PipeCap/Fifo.antt =====
-- A channel with a capacity is a queue, in every run of its operations.
use cocoyaxi.Base.{
  ℕ, ◌^◌, ◌<◌, Bool, List, [], append-nil, length, ◌==◌, Bool-cases, ◌≡◌, inl, inr, refl, arith,
}
use cocoyaxi.Chan.Waiters.{reader, writer, notices_written}
use cocoyaxi.Chan.Waiters.Kinds.{time_out_all-AreAll, time_out_all-nil, shut_all-silent}
use cocoyaxi.Chan.PipeCap.{PipeCap, new, empty, read, write, begin_close, end_close, expire}
use cocoyaxi.Chan.Runs.{Action, Channel, run, start, Keeps, IsQueue, Fifo, run-Fifo}
use cocoyaxi.Chan.PipeCap.Formed.{IsFormed, fewer}
use cocoyaxi.Chan.PipeCap.Reads.{read-Keeps}
use cocoyaxi.Chan.PipeCap.Writes.{write-Keeps}

module _ {V : Type 0} where
  -- `pipe_impl_cap` as a channel.
  abbrev pub channel : Channel V (PipeCap V)
  channel = record {
    read = read;
    write = write;
    begin_close = begin_close;
    end_close = end_close;
    expire = expire;
  }

  abbrev pub objects : PipeCap V → List V
  objects t = t.items

  begin_close-IsFormed : (n : ℕ) (t : PipeCap V) → IsFormed n t → IsFormed n (begin_close t)
  unfolding begin_close
  begin_close-IsFormed n t h = record {
    counted = h.counted;
    limited = h.limited;
    small = h.small;
    unlimited = h.unlimited;
    nobody = h.nobody;
    readers = h.readers;
    writers = h.writers;
  }

  begin_close-items : (t : PipeCap V) → objects (begin_close t) ≡ objects t
  unfolding begin_close
  begin_close-items t = refl

  expire-IsFormed : (n who : ℕ) (t : PipeCap V) → IsFormed n t → IsFormed n (expire who t)
  unfolding expire
  expire-IsFormed n who t h = elim (Bool-cases t.infinite) [
    | inl e ↦ simp e h
    | inr e ↦ simp e (record {
      counted = h.counted;
      limited = h.limited;
      small = h.small;
      unlimited = h.unlimited;
      nobody = λ g f. time_out_all-nil who t.wq (h.nobody g f);
      readers = λ g. time_out_all-AreAll reader who t.wq (h.readers g);
      writers = λ g. time_out_all-AreAll writer who t.wq (h.writers g);
    })
  ]

  expire-items : (who : ℕ) (t : PipeCap V) → objects (expire who t) ≡ objects t
  unfolding expire
  expire-items who t = elim (Bool-cases t.infinite) [ inl e ↦ simp e refl | inr e ↦ simp e refl ]

  end_close-Keeps :
      (n : ℕ) (t : PipeCap V)
      → IsFormed n t
      → Keeps (IsFormed n) objects t (notices_written (end_close t).notices) (end_close t)
  unfolding end_close
  end_close-Keeps n t h = elim (Bool-cases (t.closed == 1)) [
    | inl c ↦ elim (Bool-cases (empty t)) [
      | inl e ↦ rw c (
          rw e (record {
            kept = record {
              counted = h.counted;
              limited = h.limited;
              small = h.small;
              unlimited = h.unlimited;
              nobody = λ g f. refl;
              readers = λ g. tt;
              writers = λ g. tt;
            };
            moved =
                let (read, written) = shut_all-silent t.wq in rw read (rw written (append-nil _));
          }))
      | inr e ↦ rw c (
          rw e (record {
            kept = record {
              counted = h.counted;
              limited = h.limited;
              small = h.small;
              unlimited = h.unlimited;
              nobody = h.nobody;
              readers = h.readers;
              writers = h.writers;
            };
            moved = append-nil _;
          }))
    ]
    | inr c ↦ rw c (record { kept = h; moved = append-nil _ })
  ]

  channel-IsQueue : IsQueue channel IsFormed objects
  channel-IsQueue = record {
    reading = read-Keeps;
    writing = write-Keeps;
    beginning = λ n t h. (begin_close-IsFormed n t (fewer n t h), begin_close-items t);
    ending = λ n t h. end_close-Keeps n t (fewer n t h);
    expiring = λ n who t h. (expire-IsFormed n who t (fewer n t h), expire-items who t);
  }

  new-IsFormed :
      (n cap : ℕ) (infinite : Bool)
      → cap < 2 ^ 32
      → (cap ≡ 0 → n < 2 ^ 32)
      → IsFormed n (new {V = V} cap infinite)
  unfolding new
  new-IsFormed n cap infinite h g = record {
    counted = refl;
    limited = λ x. omega arith;
    small = h;
    unlimited = λ x. omega (arith, g x);
    nobody = λ x y. refl;
    readers = λ x. tt;
    writers = λ x. tt;
  }

  new-items : (cap : ℕ) (infinite : Bool) → [] ≡ objects (new {V = V} cap infinite)
  unfolding new
  new-items cap infinite = refl

  -- In every run of reads, writes, closing and timeouts on a new channel with a capacity, by any
  -- coroutines and threads in any order, the objects that were written are those that were read, in
  -- the same order, followed by those in the list; the list is never longer than a capacity that is
  -- not 0; readers wait only when the list is empty, and writers only when it is full. The capacity
  -- has 32 bits, and the run of a channel with no limit has fewer than 2 ^ 32 operations.
  pub run_list_queue :
      (cap : ℕ) (infinite : Bool) (actions : List (Action V))
      → cap < 2 ^ 32
      → (cap ≡ 0 → length actions < 2 ^ 32)
      → Fifo IsFormed objects 0 (run channel actions (start (new cap infinite)))
  run_list_queue cap infinite actions h g =
      run-Fifo channel IsFormed objects channel-IsQueue actions (start (new cap infinite)) (record {
        formed = new-IsFormed (length actions) cap infinite h g;
        ordered = new-items cap infinite;
      })
