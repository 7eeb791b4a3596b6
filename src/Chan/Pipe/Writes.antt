-- ===== src/Chan/Pipe/Writes.antt =====
-- `write` on a channel with a buffer.
use cocoyaxi.Base.{
  ℕ, ◌<◌, Bool, true, false, Option, none, some, List, [], ◌∷◌, ◌++◌, append-nil, ◌==◌, Bool-cases,
  ◌≡◌, inl, inr, refl, sym, ◌∙◌, arith, subst, ==_iff,
}
use cocoyaxi.Chan.Waiters.{
  notices_written, reader, writer, Waiter, wrote, ended, st_wait, Result, pop_live,
}
use cocoyaxi.Chan.Waiters.Kinds.{AreAll, left_of, pop_live-AreAll, append-AreAll}
use cocoyaxi.Chan.Pipe.{Pipe, next_pos, store, give, write, write_full}
use cocoyaxi.Chan.Pipe.Ring.{dist, ring, ring-written, next_pos-bound, dist_same}
use cocoyaxi.Chan.Pipe.Queue.{contents, IsFormed}
use cocoyaxi.Chan.Pipe.Reads.{same, some_room}
use cocoyaxi.Chan.Runs.{Keeps, reply_written}

-- The fields of a channel, with its size and its positions in range.
module _ {V : Type 0} (v : V) (cells : ℕ → V) (size rx wx : ℕ) (infinite : Bool)
    (wq : List (Waiter V)) (closed : ℕ) (r : rx < size) (l : wx < size) where
  abbrev pipe : Bool → List (Waiter V) → Pipe V
  pipe full ws = record {
    cells = cells;
    size = size;
    rx = rx;
    wx = wx;
    full = full;
    infinite = infinite;
    wq = ws;
    closed = closed;
  }

  -- What a write keeps: the invariant and the order of the objects.
  abbrev WriteKeeps : Pipe V → Result V (Pipe V) → Type 0
  WriteKeeps t r =
      Keeps IsFormed contents t (reply_written v r.reply ++ notices_written r.notices) r

  store-Keeps :
      (ws : List (Waiter V))
      → WriteKeeps
          (pipe false ws)
          (record { reply = wrote; notices = []; after = store v (pipe false []) })
  store-Keeps ws = record {
    kept = record {
      reads_in = r;
      writes_in = next_pos-bound size wx l;
      meets = λ g. ground arith;
      nobody = λ g. refl;
      readers = λ g. tt;
      writers = λ g. tt;
    };
    moved =
        sym (ring-written size cells rx wx v r l)
        ∙ elim (Bool-cases (rx == next_pos size wx)) [ inl e ↦ rw e refl | inr e ↦ rw e refl ];
  }

  write_full-Keeps :
      (who : ℕ)
      → rx ≡ wx
      → AreAll writer wq
      → WriteKeeps (pipe true wq) (write_full who v (pipe true wq))
  unfolding write_full
  write_full-Keeps who e a = record {
    kept = record {
      reads_in = r;
      writes_in = l;
      meets = λ g. e;
      nobody = λ g. absurd (g e);
      readers = λ g. ground arith;
      writers = λ g.
          append-AreAll writer wq (record { who = who; kind = writer; state = st_wait; buf = v }) a
            refl;
    };
    moved = append-nil _;
  }

  give-Keeps :
      (who : ℕ) (o : Option (Waiter V × List (Waiter V)))
      → rx ≡ wx
      → AreAll reader (left_of o)
      → WriteKeeps (pipe false wq) (give who v (pipe false wq) o)
  unfolding give
  give-Keeps who none e a = rw (some_room size rx r) (store-Keeps wq)
  give-Keeps who (some (w, ws)) e a = record {
    kept = record {
      reads_in = r;
      writes_in = l;
      meets = λ g. ground arith;
      nobody = λ g. absurd (g e);
      readers = λ g. a;
      writers = λ g. ground arith;
    };
    moved =
        subst
          (λ x.
            ring size cells rx (dist size rx x) ++ v ∷ [] ≡ v ∷ ring size cells rx (dist size rx x))
          e (rw (dist_same size rx) refl);
  }

  refused-Keeps :
      (full : Bool)
      → IsFormed (pipe full wq)
      → WriteKeeps (pipe full wq) (record { reply = ended; notices = []; after = pipe full wq })
  refused-Keeps full h = record { kept = h; moved = append-nil _ }

  open_write-Keeps :
      (who : ℕ) (full : Bool)
      → (closed == 0) ≡ true
      → IsFormed (pipe full wq)
      → WriteKeeps (pipe full wq) (write who v (pipe full wq))
  unfolding write
  open_write-Keeps who false c h = elim (Bool-cases (rx == wx)) [
    | inl e ↦
        let met = (==_iff rx wx).0 e in
        rw c (
          rw e (
            rw (some_room size rx r) (
              give-Keeps who (pop_live infinite wq) met
                (pop_live-AreAll reader infinite wq (h.readers refl)))))
    | inr e ↦ rw c (
        rw e (
          subst
            (λ ws.
              WriteKeeps (pipe false wq)
                (record { reply = wrote; notices = []; after = store v (pipe false ws) }))
            (sym (h.nobody (ground arith))) (store-Keeps wq)))
  ]
  open_write-Keeps who true c h =
      let met = h.meets refl in
      rw c
        (rw (same rx wx met) (rw (some_room size rx r) (write_full-Keeps who met (h.writers refl))))

  write-Keeps_fields :
      (who : ℕ) (full : Bool)
      → IsFormed (pipe full wq)
      → WriteKeeps (pipe full wq) (write who v (pipe full wq))
  unfolding write
  write-Keeps_fields who full h = elim (Bool-cases (closed == 0)) [
    | inl c ↦ open_write-Keeps who full c h
    | inr c ↦ rw c (refused-Keeps full h)
  ]

module _ {V : Type 0} where
  -- A write on a channel with a buffer keeps the invariant and the order of the objects.
  pub write-Keeps :
      (who : ℕ) (v : V) (t : Pipe V)
      → IsFormed t
      → Keeps IsFormed contents t
          (reply_written v (write who v t).reply ++ notices_written (write who v t).notices)
          (write who v t)
  write-Keeps who v t h =
      write-Keeps_fields v t.cells t.size t.rx t.wx t.infinite t.wq t.closed h.reads_in h.writes_in
        who t.full h
