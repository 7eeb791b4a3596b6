-- ===== src/Chan/PipeCap.antt =====
-- `pipe_impl_cap` of src/co/co.cc: a list of objects with a capacity, 0 for a channel with no limit.
pub mod Formed
pub mod Reads
pub mod Writes
pub mod Fifo
use cocoyaxi.Base.{
  ℕ, ◌+◌, ◌-◌, ◌%◌, ◌^◌, Bool, true, false, not, ◌&&◌, Option, none, some, List, [], ◌∷◌, ◌++◌,
  ◌==◌, if◌then◌else◌,
}
use cocoyaxi.Chan.Waiters.{
  reader, writer, st_wait, Waiter, Reply, got, wrote, ended, waits, given, taken, Result, pop_live,
  shut_all, time_out_all,
}

-- `items` are the objects of `_list`; `infinite` and `closed` are as in `Pipe`.
pub record PipeCap (V : Type 0) : Type 0 where
  pub items : List V
  pub cap : ℕ
  pub size : ℕ
  pub infinite : Bool
  pub wq : List (Waiter V)
  pub closed : ℕ

module _ {V : Type 0} where
  unfoldable pub new : ℕ → Bool → PipeCap V
  new cap infinite = record {
    items = [];
    cap = cap;
    size = 0;
    infinite = infinite;
    wq = [];
    closed = 0;
  }

  abbrev pub empty : PipeCap V → Bool
  empty t = t.size == 0

  abbrev pub full : PipeCap V → Bool
  full t = if t.cap == 0 then false else t.size == t.cap

  -- `_size` has 32 bits.
  abbrev pub append : V → PipeCap V → PipeCap V
  append v t = record t { items = t.items ++ v ∷ []; size = (t.size + 1) % 2 ^ 32 }

  abbrev pub wait_as : Waiter V → PipeCap V → PipeCap V
  wait_as w t = record t { wq = t.wq ++ w ∷ [] }

  -- The list was full, and its first object was read: the first writer's object goes to its end.
  unfoldable pub admit : V → PipeCap V → Option (Waiter V × List (Waiter V)) → Result V (PipeCap V)
  admit v t none = record { reply = got v; notices = []; after = record t { wq = [] } }
  admit v t (some (w, ws)) = record {
    reply = got v;
    notices = taken w.who w.buf ∷ [];
    after = append w.buf (record t { wq = ws });
  }

  unfoldable pub read_front : PipeCap V → PipeCap V → (v : V) → Result V (PipeCap V)
  read_front t t' v =
      if full t
      then admit v t' (pop_live t.infinite t.wq)
      else record { reply = got v; notices = []; after = t' }

  -- `_list.front()` is null only if the list is empty, and then it is not read.
  unfoldable pub read_items : ℕ → V → PipeCap V → List V → Result V (PipeCap V)
  read_items who old t [] = record { reply = ended; notices = []; after = t }
  read_items who old t (v ∷ vs) = read_front t (record t { items = vs; size = t.size - 1 }) v

  -- The list is empty; `old` is what the reader's object holds.
  unfoldable pub read_empty : ℕ → V → PipeCap V → Result V (PipeCap V)
  read_empty who old t =
      if t.closed == 0
      then record {
        reply = waits;
        notices = [];
        after = wait_as (record { who = who; kind = reader; state = st_wait; buf = old }) t;
      }
      else record { reply = ended; notices = []; after = t }

  unfoldable pub read : ℕ → V → PipeCap V → Result V (PipeCap V)
  read who old t =
      if empty t && not (full t) then read_empty who old t else read_items who old t t.items

  -- The list is empty: the object goes to the first reader, or to the list.
  unfoldable pub give : V → PipeCap V → Option (Waiter V × List (Waiter V)) → Result V (PipeCap V)
  give v t none = record { reply = wrote; notices = []; after = append v (record t { wq = [] }) }
  give v t (some (w, ws)) = record {
    reply = wrote;
    notices = given w.who v ∷ [];
    after = record t { wq = ws };
  }

  unfoldable pub write : ℕ → V → PipeCap V → Result V (PipeCap V)
  write who v t =
      if not (t.closed == 0)
      then record { reply = ended; notices = []; after = t }
      else if not (empty t) && not (full t)
      then record { reply = wrote; notices = []; after = append v t }
      else if empty t
      then give v t (pop_live t.infinite t.wq)
      else record {
        reply = waits;
        notices = [];
        after = wait_as (record { who = who; kind = writer; state = st_wait; buf = v }) t;
      }

  -- `close`: the flag is set first, with no lock.
  unfoldable pub begin_close : PipeCap V → PipeCap V
  begin_close t = record t { closed = if t.closed == 0 then 1 else t.closed }

  -- Under the lock, by the one that set the flag.
  unfoldable pub end_close : PipeCap V → Result V (PipeCap V)
  end_close t =
      if t.closed == 1
      then if empty t
        then record {
          reply = ended;
          notices = shut_all t.wq;
          after = record t { wq = []; closed = 2 };
        }
        else record { reply = ended; notices = []; after = record t { closed = 2 } }
      else record { reply = ended; notices = []; after = t }

  unfoldable pub expire : ℕ → PipeCap V → PipeCap V
  expire who t = if t.infinite then t else record t { wq = time_out_all who t.wq }
