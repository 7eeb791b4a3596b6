-- ===== src/Chan/Runs.antt =====
-- Runs of a channel: the operations of any coroutines and threads in any order, with what was written
-- and what was read, and the queue that a channel is.
use cocoyaxi.Base.{ℕ, suc, zero, List, [], ◌∷◌, ◌++◌, append_assoc, ◌≡◌, sym, ◌∙◌, ap, length}
use cocoyaxi.Chan.Waiters.{Reply, got, wrote, ended, waits, Result, notices_read, notices_written}

-- One operation, as far as it goes under the mutex, or the end of a waiter's time.
pub data Action (V : Type 0) : Type 0 where
  reads : ℕ → V → Action V
  writes : ℕ → V → Action V
  begins_close : Action V
  ends_close : Action V
  expires : ℕ → Action V

-- The operations of `pipe_impl` and of `pipe_impl_cap`.
pub record Channel (V : Type 0) (S : Type 0) : Type 0 where
  pub read : ℕ → V → S → Result V S
  pub write : ℕ → V → S → Result V S
  pub begin_close : S → S
  pub end_close : S → Result V S
  pub expire : ℕ → S → S

module _ {V : Type 0} where
  abbrev pub reply_read : Reply V → List V
  reply_read (got v) = v ∷ []
  reply_read wrote = []
  reply_read ended = []
  reply_read waits = []

  abbrev pub reply_written : V → Reply V → List V
  reply_written v (got x) = []
  reply_written v wrote = v ∷ []
  reply_written v ended = []
  reply_written v waits = []

-- A channel with the objects that were written to it and that were read from it so far.
pub record Sys (V : Type 0) (S : Type 0) : Type 0 where
  pub state : S
  pub sent : List V
  pub received : List V

module _ {V S : Type 0} where
  abbrev pub outs : Result V S → List V
  outs r = reply_read r.reply ++ notices_read r.notices

  abbrev pub record_step : List V → Result V S → Sys V S → Sys V S
  record_step written r y = record {
    state = r.after;
    sent = y.sent ++ written;
    received = y.received ++ outs r;
  }

  abbrev pub act : Channel V S → Action V → Sys V S → Sys V S
  act c (reads who old) y =
      let r = c.read who old y.state in record_step (notices_written r.notices) r y
  act c (writes who v) y =
      let r = c.write who v y.state in
      record_step (reply_written v r.reply ++ notices_written r.notices) r y
  act c begins_close y = record y { state = c.begin_close y.state }
  act c ends_close y = let r = c.end_close y.state in record_step (notices_written r.notices) r y
  act c (expires who) y = record y { state = c.expire who y.state }

  abbrev pub run : Channel V S → List (Action V) → Sys V S → Sys V S
  run c [] y = y
  run c (a ∷ actions) y = run c actions (act c a y)

  abbrev pub start : S → Sys V S
  start s = record { state = s; sent = []; received = [] }

  -- What goes in is behind what was there, and what comes out was before the rest.
  pub record Keeps (Inv : S → Type 0) (contents : S → List V) (s : S) (ins : List V)
      (r : Result V S) : Type 0 where
    pub kept : Inv r.after
    pub moved : contents s ++ ins ≡ outs r ++ contents r.after

-- A channel keeps an invariant, and its objects are a queue. `Inv n` allows for `n` more actions.
pub record IsQueue {V S : Type 0} (c : Channel V S) (Inv : ℕ → S → Type 0) (contents : S → List V)
    : Type 0 where
  pub reading :
      (n who : ℕ) (old : V) (s : S)
      → Inv (suc n) s
      → let r = c.read who old s in Keeps (Inv n) contents s (notices_written r.notices) r
  pub writing :
      (n who : ℕ) (v : V) (s : S)
      → Inv (suc n) s
      → let r = c.write who v s in
        Keeps (Inv n) contents s (reply_written v r.reply ++ notices_written r.notices) r
  pub beginning :
      (n : ℕ) (s : S)
      → Inv (suc n) s
      → Inv n (c.begin_close s) × (contents (c.begin_close s) ≡ contents s)
  pub ending :
      (n : ℕ) (s : S)
      → Inv (suc n) s
      → let r = c.end_close s in Keeps (Inv n) contents s (notices_written r.notices) r
  pub expiring :
      (n who : ℕ) (s : S)
      → Inv (suc n) s
      → Inv n (c.expire who s) × (contents (c.expire who s) ≡ contents s)

-- After a run, the channel is well formed and holds what was written and not read, in order.
pub record Fifo {V S : Type 0} (Inv : ℕ → S → Type 0) (contents : S → List V) (n : ℕ) (y : Sys V S)
    : Type 0 where
  pub formed : Inv n y.state
  pub ordered : y.sent ≡ y.received ++ contents y.state

module _ {V S : Type 0} (c : Channel V S) (Inv : ℕ → S → Type 0) (contents : S → List V)
    (q : IsQueue c Inv contents) where
  record_step-Fifo :
      (n : ℕ) (y : Sys V S) (ins : List V) (r : Result V S)
      → Fifo Inv contents (suc n) y
      → Keeps (Inv n) contents y.state ins r
      → Fifo Inv contents n (record_step ins r y)
  record_step-Fifo n y ins r h k = record {
    formed = k.kept;
    ordered =
        ap (λ (l : List V). l ++ ins) h.ordered
        ∙ append_assoc y.received (contents y.state) ins
        ∙ ap (λ (l : List V). y.received ++ l) k.moved
        ∙ sym (append_assoc y.received (outs r) (contents r.after));
  }

  act-Fifo :
      (n : ℕ) (a : Action V) (y : Sys V S)
      → Fifo Inv contents (suc n) y
      → Fifo Inv contents n (act c a y)
  act-Fifo n (reads who old) y h =
      record_step-Fifo n y _ (c.read who old y.state) h (q.reading n who old y.state h.formed)
  act-Fifo n (writes who v) y h =
      record_step-Fifo n y _ (c.write who v y.state) h (q.writing n who v y.state h.formed)
  act-Fifo n begins_close y h =
      let (kept, same) = q.beginning n y.state h.formed in
      record {
        formed = kept;
        ordered = h.ordered ∙ ap (λ (l : List V). y.received ++ l) (sym same);
      }
  act-Fifo n ends_close y h =
      record_step-Fifo n y _ (c.end_close y.state) h (q.ending n y.state h.formed)
  act-Fifo n (expires who) y h =
      let (kept, same) = q.expiring n who y.state h.formed in
      record {
        formed = kept;
        ordered = h.ordered ∙ ap (λ (l : List V). y.received ++ l) (sym same);
      }

  pub run-Fifo :
      (actions : List (Action V)) (y : Sys V S)
      → Fifo Inv contents (length actions) y
      → Fifo Inv contents zero (run c actions y)
  run-Fifo [] y h = h
  run-Fifo (a ∷ actions) y h = run-Fifo actions (act c a y) (act-Fifo (length actions) a y h)
