-- ===== src/Chan/PipeCap/Writes.antt =====
-- `write` on a channel with a capacity.
use cocoyaxi.Base.{
  ℕ, suc, ◌≤◌, ◌<◌, true, false, Option, none, some, List, [], ◌∷◌, ◌++◌, append-nil, length, ◌==◌,
  Bool-cases, ◌≡◌, ◌≢◌, inl, inr, refl, sym, ◌∙◌, arith, ==_iff,
}
use cocoyaxi.Chan.Waiters.{
  reader, writer, st_wait, Waiter, Result, waits, wrote, pop_live, notices_written,
}
use cocoyaxi.Chan.Waiters.Kinds.{AreAll, left_of, pop_live-AreAll, append-AreAll}
use cocoyaxi.Chan.PipeCap.{PipeCap, full, empty, append, wait_as, give, write}
use cocoyaxi.Chan.Runs.{Keeps, reply_written}
use cocoyaxi.Chan.PipeCap.Formed.{IsFormed, fewer, not_full, append-IsFormed}

module _ {V : Type 0} where
  abbrev WriteKeeps : ℕ → V → PipeCap V → Result V (PipeCap V) → Type 0
  WriteKeeps n v t r =
      Keeps (IsFormed n) (λ (u : PipeCap V). u.items) t
        (reply_written v r.reply ++ notices_written r.notices) r

  nil_front : (v : V) (items : List V) → length items ≡ 0 → items ++ v ∷ [] ≡ v ∷ items
  nil_front v [] e = refl
  nil_front v (x ∷ items) e = absurd (omega arith)

  give-Keeps :
      (n : ℕ) (v : V) (t : PipeCap V) (o : Option (Waiter V × List (Waiter V)))
      → IsFormed (suc n) t
      → t.size ≡ 0
      → AreAll reader (left_of o)
      → WriteKeeps n v t (give v t o)
  unfolding give
  give-Keeps n v t none h e a = record {
    kept =
        append-IsFormed n v (record t { wq = [] })
          (record {
            counted = h.counted;
            room = λ g. omega arith;
            small = h.small;
            unlimited = h.unlimited;
          })
          tt (λ g. refl);
    moved = refl;
  }
  give-Keeps n v t (some (w, ws)) h e a = record {
    kept = record {
      counted = h.counted;
      limited = h.limited;
      small = h.small;
      unlimited = λ g. omega (arith, h.unlimited g);
      nobody = λ g f. absurd (g e);
      readers = λ g. a;
      writers = λ g. ground (arith, not_full t e);
    };
    moved = nil_front v t.items (sym h.counted ∙ e);
  }

  room_left : (t : PipeCap V) → full t ≡ false → t.cap ≢ 0 → t.size ≤ t.cap → t.size < t.cap
  room_left t f g e = ground arith

  room-Keeps :
      (n : ℕ) (v : V) (t : PipeCap V)
      → IsFormed (suc n) t
      → t.size ≢ 0
      → full t ≡ false
      → WriteKeeps n v t (record { reply = wrote; notices = []; after = append v t })
  room-Keeps n v t h g f = record {
    kept =
        append-IsFormed n v t
          (record {
            counted = h.counted;
            room = λ x. room_left t f x (h.limited x);
            small = h.small;
            unlimited = h.unlimited;
          })
          (rw (h.nobody g f) tt) (λ x. h.nobody g f);
    moved = refl;
  }

  wait-Keeps :
      (n who : ℕ) (v : V) (t : PipeCap V)
      → IsFormed (suc n) t
      → t.size ≢ 0
      → full t ≡ true
      → WriteKeeps n v t (record {
        reply = waits;
        notices = [];
        after = wait_as (record { who = who; kind = writer; state = st_wait; buf = v }) t;
      })
  wait-Keeps n who v t h g f = record {
    kept = record {
      counted = h.counted;
      limited = h.limited;
      small = h.small;
      unlimited = λ x. omega (arith, h.unlimited x);
      nobody = λ x y. ground arith;
      readers = λ x. absurd (g x);
      writers = λ x.
          append-AreAll writer t.wq (record { who = who; kind = writer; state = st_wait; buf = v })
            (h.writers f) refl;
    };
    moved = append-nil _;
  }

  pub write-Keeps :
      (n who : ℕ) (v : V) (t : PipeCap V) → IsFormed (suc n) t → WriteKeeps n v t (write who v t)
  unfolding write
  write-Keeps n who v t h = elim (Bool-cases (t.closed == 0)) [
    | inr c ↦ rw c (record { kept = fewer n t h; moved = append-nil _ })
    | inl c ↦ elim (Bool-cases (empty t)) [
      | inl e ↦
          let none_in = (==_iff t.size 0).0 e in
          rw c (
            rw e (
              give-Keeps n v t (pop_live t.infinite t.wq) h none_in
                (pop_live-AreAll reader t.infinite t.wq (h.readers none_in))))
      | inr e ↦ elim (Bool-cases (full t)) [
        | inl f ↦ rw c (rw e (rw f (wait-Keeps n who v t h (ground arith) f)))
        | inr f ↦ rw c (rw e (rw f (room-Keeps n v t h (ground arith) f)))
      ]
    ]
  ]
