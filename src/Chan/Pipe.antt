-- ===== src/Chan/Pipe.antt =====
-- `pipe_impl` of src/co/co.cc: a ring buffer of blocks. Positions and sizes are counted in blocks;
-- size 0 is a channel with no buffer (`_buf` is null).
pub mod Ring
pub mod Queue
pub mod Reads
pub mod Writes
pub mod Fifo
pub mod Drain
use cocoyaxi.Base.{
  ℕ, suc, Bool, true, false, not, ◌&&◌, ◌||◌, Option, none, some, List, [], ◌∷◌, ◌++◌, ◌==◌,
  if◌then◌else◌,
}
use cocoyaxi.Chan.Waiters.{
  reader, writer, st_wait, Waiter, Reply, got, wrote, ended, waits, given, taken, Result, pop_live,
  shut_all, time_out_all,
}

-- `infinite` is `_ms == -1`; `closed` is 0, 1 while `close` is at work, or 2.
pub record Pipe (V : Type 0) : Type 0 where
  pub cells : ℕ → V
  pub size : ℕ
  pub rx : ℕ
  pub wx : ℕ
  pub full : Bool
  pub infinite : Bool
  pub wq : List (Waiter V)
  pub closed : ℕ

-- `_rx += _blk_size; if (_rx == _buf_size) _rx = 0`.
abbrev pub next_pos : ℕ → ℕ → ℕ
next_pos size i = if suc i == size then 0 else suc i

abbrev pub put : {V : Type 0} → (ℕ → V) → ℕ → V → ℕ → V
put f a v i = if i == a then v else f i

module _ {V : Type 0} where
  unfoldable pub new : (ℕ → V) → ℕ → Bool → Pipe V
  new cells size infinite = record {
    cells = cells;
    size = size;
    rx = 0;
    wx = 0;
    full = size == 0;
    infinite = infinite;
    wq = [];
    closed = 0;
  }

  abbrev pub read_block : Pipe V → Pipe V
  read_block t = record t { rx = next_pos t.size t.rx }

  abbrev pub write_block : V → Pipe V → Pipe V
  write_block v t = record t { cells = put t.cells t.wx v; wx = next_pos t.size t.wx }

  abbrev pub wait_as_reader : ℕ → V → Pipe V → Pipe V
  wait_as_reader who old t = record t {
    wq = t.wq ++ record { who = who; kind = reader; state = st_wait; buf = old } ∷ [];
  }

  abbrev pub wait_as_writer : ℕ → V → Pipe V → Pipe V
  wait_as_writer who v t = record t {
    wq = t.wq ++ record { who = who; kind = writer; state = st_wait; buf = v } ∷ [];
  }

  -- The buffer is empty; `old` is what the reader's object holds.
  unfoldable pub read_empty : ℕ → V → Pipe V → Result V (Pipe V)
  read_empty who old t =
      if t.closed == 0
      then record { reply = waits; notices = []; after = wait_as_reader who old t }
      else record { reply = ended; notices = []; after = t }

  -- The buffer was full, and a block was read: the first writer's object takes its place.
  unfoldable pub admit : V → Pipe V → Option (Waiter V × List (Waiter V)) → Result V (Pipe V)
  admit v t none = record {
    reply = got v;
    notices = [];
    after = record t { wq = []; full = false };
  }
  admit v t (some (w, ws)) = record {
    reply = got v;
    notices = taken w.who w.buf ∷ [];
    after = record (write_block w.buf t) { wq = ws };
  }

  -- No buffer: the object is read from the first waiter.
  unfoldable pub read_direct :
      ℕ → V → Pipe V → Option (Waiter V × List (Waiter V)) → Result V (Pipe V)
  read_direct who old t none = read_empty who old (record t { wq = [] })
  read_direct who old t (some (w, ws)) = record {
    reply = got w.buf;
    notices = taken w.who w.buf ∷ [];
    after = record t { wq = ws };
  }

  unfoldable pub read : ℕ → V → Pipe V → Result V (Pipe V)
  read who old t =
      if not (t.rx == t.wx)
      then record { reply = got (t.cells t.rx); notices = []; after = read_block t }
      else if t.full
      then if t.size == 0
        then read_direct who old t (pop_live t.infinite t.wq)
        else admit (t.cells t.rx) (read_block t) (pop_live t.infinite t.wq)
      else read_empty who old t

  -- `_write_block`, and the buffer is full if the positions meet.
  abbrev pub store : V → Pipe V → Pipe V
  store v t =
      let t' = write_block v t in record t' { full = if t'.rx == t'.wx then true else t'.full }

  unfoldable pub write_full : ℕ → V → Pipe V → Result V (Pipe V)
  write_full who v t = record { reply = waits; notices = []; after = wait_as_writer who v t }

  -- The buffer is empty: the object goes to the first reader, or to the buffer if there is one.
  unfoldable pub give : ℕ → V → Pipe V → Option (Waiter V × List (Waiter V)) → Result V (Pipe V)
  give who v t none =
      if t.size == 0
      then write_full who v (record t { wq = [] })
      else record { reply = wrote; notices = []; after = store v (record t { wq = [] }) }
  give who v t (some (w, ws)) = record {
    reply = wrote;
    notices = given w.who v ∷ [];
    after = record t { wq = ws };
  }

  unfoldable pub write : ℕ → V → Pipe V → Result V (Pipe V)
  write who v t =
      if not (t.closed == 0)
      then record { reply = ended; notices = []; after = t }
      else if not (t.rx == t.wx)
      then record { reply = wrote; notices = []; after = store v t }
      else if t.size == 0 || not t.full
      then give who v t (pop_live t.infinite t.wq)
      else write_full who v t

  -- `close`: the flag is set first, with no lock.
  unfoldable pub begin_close : Pipe V → Pipe V
  begin_close t = record t { closed = if t.closed == 0 then 1 else t.closed }

  -- Under the lock, by the one that set the flag.
  unfoldable pub end_close : Pipe V → Result V (Pipe V)
  end_close t =
      if t.closed == 1
      then if t.rx == t.wx && not t.full
        then record {
          reply = ended;
          notices = shut_all t.wq;
          after = record t { wq = []; closed = 2 };
        }
        else record { reply = ended; notices = []; after = record t { closed = 2 } }
      else record { reply = ended; notices = []; after = t }

  -- A timer is set only if the wait is not infinite.
  unfoldable pub expire : ℕ → Pipe V → Pipe V
  expire who t = if t.infinite then t else record t { wq = time_out_all who t.wq }
