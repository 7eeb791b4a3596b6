-- ===== src/Chan/Pipe/Reads.antt =====
-- `read` on a channel with a buffer.
use cocoyaxi.Base.{
  ℕ, ◌<◌, Bool, true, false, Option, none, some, List, [], ◌∷◌, ◌++◌, append-nil, ◌==◌, Bool-cases,
  ◌≡◌, ◌≢◌, inl, inr, refl, ap, ◌∙◌, arith, subst, ==_iff,
}
use cocoyaxi.Chan.Waiters.{notices_written, reader, writer, Waiter, got, st_wait, Result, pop_live}
use cocoyaxi.Chan.Waiters.Kinds.{AreAll, left_of, pop_live-AreAll, append-AreAll}
use cocoyaxi.Chan.Pipe.{Pipe, next_pos, put, read, admit, read_empty, read_block}
use cocoyaxi.Chan.Pipe.Ring.{dist, ring, ring-front, ring-full, ring-turn, next_pos-bound}
use cocoyaxi.Chan.Pipe.Queue.{contents, IsFormed}
use cocoyaxi.Chan.Runs.{Keeps}

pub same : (a b : ℕ) → a ≡ b → (a == b) ≡ true
same a b e = ground arith

pub some_room : (size rx : ℕ) → rx < size → (size == 0) ≡ false
some_room size rx h = ground arith

-- The fields of a channel, with its size and its positions in range.
module _ {V : Type 0} (cells : ℕ → V) (size rx wx : ℕ) (infinite : Bool) (wq : List (Waiter V))
    (closed : ℕ) (r : rx < size) (l : wx < size) where
  abbrev pub pipe : Bool → Pipe V
  pipe full = record {
    cells = cells;
    size = size;
    rx = rx;
    wx = wx;
    full = full;
    infinite = infinite;
    wq = wq;
    closed = closed;
  }

  -- What a read keeps: the invariant and the order of the objects.
  abbrev pub ReadKeeps : Pipe V → Result V (Pipe V) → Type 0
  ReadKeeps t r = Keeps IsFormed contents t (notices_written r.notices) r

  read_some-Keeps :
      rx ≢ wx
      → IsFormed (pipe false)
      → ReadKeeps
          (pipe false)
          (record { reply = got (cells rx); notices = []; after = read_block (pipe false) })
  read_some-Keeps e h = record {
    kept = record {
      reads_in = next_pos-bound size rx r;
      writes_in = l;
      meets = λ g. ground arith;
      nobody = λ g. h.nobody e;
      readers = h.readers;
      writers = h.writers;
    };
    moved = append-nil _ ∙ ring-front size cells rx wx r l e;
  }

  read_empty-Keeps :
      (who : ℕ) (old : V)
      → rx ≡ wx
      → AreAll reader wq
      → ReadKeeps (pipe false) (read_empty who old (pipe false))
  unfolding read_empty
  read_empty-Keeps who old e a = elim (Bool-cases (closed == 0)) [
    | inl z ↦ rw z (record {
      kept = record {
        reads_in = r;
        writes_in = l;
        meets = λ g. ground arith;
        nobody = λ g. absurd (g e);
        readers = λ g.
            append-AreAll reader wq
              (record { who = who; kind = reader; state = st_wait; buf = old }) a refl;
        writers = λ g. ground arith;
      };
      moved = append-nil _;
    })
    | inr z ↦ rw z (record {
      kept = record {
        reads_in = r;
        writes_in = l;
        meets = λ g. ground arith;
        nobody = λ g. absurd (g e);
        readers = λ g. a;
        writers = λ g. ground arith;
      };
      moved = append-nil _;
    })
  ]

  admit-Keeps :
      (o : Option (Waiter V × List (Waiter V)))
      → rx ≡ wx
      → AreAll writer (left_of o)
      → ReadKeeps (pipe true) (admit (cells rx) (read_block (pipe true)) o)
  unfolding admit
  admit-Keeps none e a = record {
    kept = record {
      reads_in = next_pos-bound size rx r;
      writes_in = l;
      meets = λ g. ground arith;
      nobody = λ g. refl;
      readers = λ g. tt;
      writers = λ g. tt;
    };
    moved =
        append-nil _
        ∙ subst
            (λ x.
              ring size cells rx size
              ≡ cells rx ∷ ring size cells (next_pos size rx) (dist size (next_pos size rx) x))
            e (ring-full size cells rx r);
  }
  admit-Keeps (some (w, ws)) e a = record {
    kept = record {
      reads_in = next_pos-bound size rx r;
      writes_in = next_pos-bound size wx l;
      meets = λ g. ap (next_pos size) e;
      nobody = λ g. absurd (g (ap (next_pos size) e));
      readers = λ g. ground arith;
      writers = λ g. a;
    };
    moved =
        subst
          (λ x.
            ring size cells rx size ++ w.buf ∷ []
            ≡ cells rx ∷ ring size (put cells x w.buf) (next_pos size rx) size)
          e (ring-turn size cells rx w.buf r);
  }

  read-Keeps_fields :
      (who : ℕ) (old : V) (full : Bool)
      → IsFormed (pipe full)
      → ReadKeeps (pipe full) (read who old (pipe full))
  unfolding read
  read-Keeps_fields who old false h = elim (Bool-cases (rx == wx)) [
    | inl e ↦ rw e (read_empty-Keeps who old ((==_iff rx wx).0 e) (h.readers refl))
    | inr e ↦ rw e (read_some-Keeps (ground arith) h)
  ]
  read-Keeps_fields who old true h =
      let met = h.meets refl in
      rw (same rx wx met) (
        rw (some_room size rx r) (
          admit-Keeps (pop_live infinite wq) met
            (pop_live-AreAll writer infinite wq (h.writers refl))))

module _ {V : Type 0} where
  -- A read on a channel with a buffer keeps the invariant and the order of the objects.
  pub read-Keeps :
      (who : ℕ) (old : V) (t : Pipe V)
      → IsFormed t
      → Keeps IsFormed contents t (notices_written (read who old t).notices) (read who old t)
  read-Keeps who old t h =
      read-Keeps_fields t.cells t.size t.rx t.wx t.infinite t.wq t.closed h.reads_in h.writes_in who
        old t.full h
