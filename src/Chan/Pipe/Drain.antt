-- ===== src/Chan/Pipe/Drain.antt =====
-- Reads on a closed channel with a buffer.
use cocoyaxi.Base.{
  ℕ, zero, suc, ◌<◌, Bool, true, false, Option, none, some, List, [], ◌∷◌, ◌++◌, append-nil,
  append_assoc, tail, ◌==◌, Bool-cases, if◌then◌else◌, ◌≡◌, inl, inr, refl, ap, sym, ◌∙◌, arith,
  subst, ==_iff,
}
use cocoyaxi.Chan.Waiters.{Waiter, Reply, got, ended, Result, is_live, pop_live}
use cocoyaxi.Chan.Pipe.{Pipe, next_pos, put, read, admit, read_empty, read_block}
use cocoyaxi.Chan.Pipe.Ring.{dist, ring, ring-front, ring-full, ring-turn, dist_same}
use cocoyaxi.Chan.Pipe.Queue.{contents, IsFormed}
use cocoyaxi.Chan.Pipe.Reads.{same, some_room, read-Keeps}

module _ {V : Type 0} where
  -- The objects of those in the queue that have not timed out.
  abbrev pub live_bufs : Bool → List (Waiter V) → List V
  live_bufs infinite [] = []
  live_bufs infinite (w ∷ ws) =
      let later = live_bufs infinite ws in if is_live infinite w then w.buf ∷ later else later

  abbrev popped_bufs : Bool → Option (Waiter V × List (Waiter V)) → List V
  popped_bufs infinite none = []
  popped_bufs infinite (some (w, ws)) = w.buf ∷ live_bufs infinite ws

  live_bufs-pop_live :
      (infinite : Bool) (ws : List (Waiter V))
      → live_bufs infinite ws ≡ popped_bufs infinite (pop_live infinite ws)
  unfolding pop_live
  live_bufs-pop_live infinite [] = refl
  live_bufs-pop_live infinite (w ∷ ws) = elim (Bool-cases (is_live infinite w)) [
    | inl e ↦ rw e refl
    | inr e ↦ rw e (live_bufs-pop_live infinite ws)
  ]

  -- What is in the buffer, and then what the writers that wait have.
  abbrev pub pending : Pipe V → List V
  pending t = contents t ++ (if t.full then live_bufs t.infinite t.wq else [])

  abbrev pub reply_of : List V → Reply V
  reply_of [] = ended
  reply_of (v ∷ vs) = got v

  -- One read took the first of `vs`, or found the end.
  abbrev Takes : ℕ → List V → Result V (Pipe V) → Type 0
  Takes closed vs r =
      (r.reply ≡ reply_of vs)
      × (pending r.after ≡ tail vs)
      × ((r.after.closed == 0) ≡ (closed == 0))

-- The fields of a channel, with its size and its positions in range.
module _ {V : Type 0} (cells : ℕ → V) (size rx wx : ℕ) (infinite : Bool) (wq : List (Waiter V))
    (closed : ℕ) (r : rx < size) (l : wx < size) where
  abbrev pipe : Bool → Pipe V
  pipe full = record {
    cells = cells;
    size = size;
    rx = rx;
    wx = wx;
    full = full;
    infinite = infinite;
    wq = wq;
    closed = closed;
  }

  admit-Takes :
      (o : Option (Waiter V × List (Waiter V)))
      → rx ≡ wx
      → Takes closed
          (ring size cells rx size ++ popped_bufs infinite o)
          (admit (cells rx) (read_block (pipe true)) o)
  unfolding admit
  admit-Takes none e =
      let front =
        append-nil _
        ∙ subst
            (λ x.
              ring size cells rx size
              ≡ cells rx ∷ ring size cells (next_pos size rx) (dist size (next_pos size rx) x))
            e (ring-full size cells rx r) in
      (ap reply_of (sym front), append-nil _ ∙ ap tail (sym front), refl)
  admit-Takes (some (w, ws)) e =
      let turn =
        subst
          (λ x.
            ring size cells rx size ++ w.buf ∷ []
            ≡ cells rx ∷ ring size (put cells x w.buf) (next_pos size rx) size)
          e (ring-turn size cells rx w.buf r) in
      let whole =
        sym (append_assoc (ring size cells rx size) (w.buf ∷ []) (live_bufs infinite ws))
        ∙ ap (λ (xs : List V). xs ++ live_bufs infinite ws) turn in
      (ap reply_of (sym whole), ap tail (sym whole), refl)

  read-Takes_fields :
      (who : ℕ) (old : V) (full : Bool)
      → (closed == 0) ≡ false
      → IsFormed (pipe full)
      → Takes closed (pending (pipe full)) (read who old (pipe full))
  unfolding read read_empty
  read-Takes_fields who old false c h = elim (Bool-cases (rx == wx)) [
    | inl e ↦
        let nothing =
          append-nil _
          ∙ subst (λ x. ring size cells rx (dist size rx x) ≡ []) ((==_iff rx wx).0 e)
              (ap (ring size cells rx) (dist_same size rx)) in
        rw e (rw c (ap reply_of (sym nothing), nothing ∙ ap tail (sym nothing), c))
    | inr e ↦
        let front = append-nil _ ∙ ring-front size cells rx wx r l (ground arith) in
        rw e (ap reply_of (sym front), append-nil _ ∙ ap tail (sym front), refl)
  ]
  read-Takes_fields who old true c h =
      let met = h.meets refl in
      rw (same rx wx met) (
        rw (some_room size rx r)
          (rw (live_bufs-pop_live infinite wq) (admit-Takes (pop_live infinite wq) met)))

module _ {V : Type 0} where
  read-Takes :
      (who : ℕ) (old : V) (t : Pipe V)
      → IsFormed t
      → (t.closed == 0) ≡ false
      → Takes t.closed (pending t) (read who old t)
  read-Takes who old t h c =
      read-Takes_fields t.cells t.size t.rx t.wx t.infinite t.wq t.closed h.reads_in h.writes_in who
        old t.full c h

  -- The replies of `n` reads, one after the other.
  abbrev pub replies : ℕ → ℕ → V → Pipe V → List (Reply V)
  replies zero who old t = []
  replies (suc n) who old t = let r = read who old t in r.reply ∷ replies n who old r.after

  -- `n` replies that give the objects and then the end.
  abbrev pub objects_then_end : ℕ → List V → List (Reply V)
  objects_then_end zero vs = []
  objects_then_end (suc n) vs = reply_of vs ∷ objects_then_end n (tail vs)

  -- On a closed channel with a buffer, reads do not wait: they give the objects in the buffer, then
  -- those of the writers that wait and have not timed out, all in order, and then the end, as often
  -- as they are asked.
  pub closed_drain :
      (n who : ℕ) (old : V) (t : Pipe V)
      → IsFormed t
      → (t.closed == 0) ≡ false
      → replies n who old t ≡ objects_then_end n (pending t)
  closed_drain zero who old t h c = refl
  closed_drain (suc n) who old t h c =
      let r = read who old t in
      let takes = read-Takes who old t h c in
      let later = closed_drain n who old r.after (read-Keeps who old t h).kept (takes.2 ∙ c) in
      rw (takes.0) (
        ap (λ (xs : List (Reply V)). reply_of (pending t) ∷ xs)
          (later ∙ ap (objects_then_end n) takes.1))
