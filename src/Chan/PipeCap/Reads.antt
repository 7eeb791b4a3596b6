-- ===== src/Chan/PipeCap/Reads.antt =====
-- `read` on a channel with a capacity.
use cocoyaxi.Base.{
  ℕ, suc, ◌-◌, true, Option, none, some, List, [], ◌∷◌, ◌++◌, append-nil, length, ◌==◌, Bool-cases,
  ◌≡◌, ◌≢◌, inl, inr, refl, ap, ◌∙◌, arith, ==_iff,
}
use cocoyaxi.Chan.Waiters.{reader, writer, st_wait, Waiter, Result, pop_live, notices_written}
use cocoyaxi.Chan.Waiters.Kinds.{AreAll, left_of, pop_live-AreAll, append-AreAll}
use cocoyaxi.Chan.PipeCap.{
  PipeCap, full, empty, append, admit, read_front, read_items, read_empty, read,
}
use cocoyaxi.Chan.Runs.{Keeps}
use cocoyaxi.Chan.PipeCap.Formed.{IsFormed, fewer, not_full, append-IsFormed}

module _ {V : Type 0} where
  abbrev ReadKeeps : ℕ → PipeCap V → Result V (PipeCap V) → Type 0
  ReadKeeps n t r = Keeps (IsFormed n) (λ (u : PipeCap V). u.items) t (notices_written r.notices) r

  read_empty-Keeps :
      (n who : ℕ) (old : V) (t : PipeCap V)
      → IsFormed (suc n) t
      → t.size ≡ 0
      → ReadKeeps n t (read_empty who old t)
  unfolding read_empty
  read_empty-Keeps n who old t h e = elim (Bool-cases (t.closed == 0)) [
    | inl c ↦ rw c (record {
      kept = record {
        counted = h.counted;
        limited = h.limited;
        small = h.small;
        unlimited = λ g. omega (arith, h.unlimited g);
        nobody = λ g f. absurd (g e);
        readers = λ g.
            append-AreAll reader t.wq
              (record { who = who; kind = reader; state = st_wait; buf = old }) (h.readers e) refl;
        writers = λ g. ground (arith, not_full t e);
      };
      moved = append-nil _;
    })
    | inr c ↦ rw c (record { kept = fewer n t h; moved = append-nil _ })
  ]

  front_size :
      (n : ℕ) (v : V) (vs : List V) (t : PipeCap V)
      → IsFormed n t
      → t.items ≡ v ∷ vs
      → t.size ≡ suc (length vs)
  front_size n v vs t h e = h.counted ∙ ap length e

  full_cap : (t : PipeCap V) → full t ≡ true → (t.cap ≢ 0) × (t.size ≡ t.cap)
  full_cap t f = ground arith

  cap_full : (t : PipeCap V) → t.cap ≢ 0 → t.size ≡ t.cap → full t ≡ true
  cap_full t g e = ground arith

  -- What is put in place of an object that was read leaves the list full.
  refilled :
      (n : ℕ) (v x : V) (vs : List V) (ws : List (Waiter V)) (t : PipeCap V)
      → IsFormed n t
      → t.items ≡ v ∷ vs
      → full t ≡ true
      → full (append x (record t { items = vs; size = t.size - 1; wq = ws })) ≡ true
  refilled n v x vs ws t h e f =
      let (limit, top) = full_cap t f in
      cap_full (append x (record t { items = vs; size = t.size - 1; wq = ws })) limit
        (omega (arith, front_size n v vs t h e, top, h.small))

  admit-Keeps :
      (n : ℕ) (v : V) (vs : List V) (t : PipeCap V) (o : Option (Waiter V × List (Waiter V)))
      → IsFormed (suc n) t
      → t.items ≡ v ∷ vs
      → full t ≡ true
      → AreAll writer (left_of o)
      → ReadKeeps n t (admit v (record t { items = vs; size = t.size - 1 }) o)
  unfolding admit
  admit-Keeps n v vs t none h e f a = record {
    kept = record {
      counted = omega (arith, front_size (suc n) v vs t h e);
      limited = λ g. omega (arith, h.limited g);
      small = h.small;
      unlimited = λ g. omega (arith, h.unlimited g);
      nobody = λ g x. refl;
      readers = λ g. tt;
      writers = λ g. tt;
    };
    moved = append-nil _ ∙ e;
  }
  admit-Keeps n v vs t (some (w, ws)) h e f a = record {
    kept =
        append-IsFormed n w.buf (record t { items = vs; size = t.size - 1; wq = ws })
          (record {
            counted = omega (arith, front_size (suc n) v vs t h e);
            room = λ g. omega (arith, h.limited g, front_size (suc n) v vs t h e);
            small = h.small;
            unlimited = λ g. omega (arith, h.unlimited g);
          })
          a (λ g. absurd (ground (arith, refilled (suc n) v w.buf vs ws t h e f)));
    moved = ap (λ (l : List V). l ++ w.buf ∷ []) e;
  }

  read_front-Keeps :
      (n : ℕ) (v : V) (vs : List V) (t : PipeCap V)
      → IsFormed (suc n) t
      → t.items ≡ v ∷ vs
      → ReadKeeps n t (read_front t (record t { items = vs; size = t.size - 1 }) v)
  unfolding read_front
  read_front-Keeps n v vs t h e = elim (Bool-cases (full t)) [
    | inl f ↦ rw f (
        admit-Keeps n v vs t (pop_live t.infinite t.wq) h e f
          (pop_live-AreAll writer t.infinite t.wq (h.writers f)))
    | inr f ↦
        let some : t.size ≢ 0 = omega (arith, front_size (suc n) v vs t h e) in
        rw f (record {
          kept = record {
            counted = omega (arith, front_size (suc n) v vs t h e);
            limited = λ g. omega (arith, h.limited g);
            small = h.small;
            unlimited = λ g. omega (arith, h.unlimited g);
            nobody = λ g x. h.nobody some f;
            readers = λ g. rw (h.nobody some f) tt;
            writers = λ g. rw (h.nobody some f) tt;
          };
          moved = append-nil _ ∙ e;
        })
  ]

  read_items-Keeps :
      (n who : ℕ) (old : V) (t : PipeCap V) (items : List V)
      → IsFormed (suc n) t
      → t.items ≡ items
      → t.size ≢ 0
      → ReadKeeps n t (read_items who old t items)
  unfolding read_items
  read_items-Keeps n who old t [] h e g = absurd (g (h.counted ∙ ap length e))
  read_items-Keeps n who old t (v ∷ vs) h e g = read_front-Keeps n v vs t h e

  pub read-Keeps :
      (n who : ℕ) (old : V) (t : PipeCap V) → IsFormed (suc n) t → ReadKeeps n t (read who old t)
  unfolding read
  read-Keeps n who old t h = elim (Bool-cases (empty t)) [
    | inl e ↦
        let none_in = (==_iff t.size 0).0 e in
        rw e (rw (not_full t none_in) (read_empty-Keeps n who old t h none_in))
    | inr e ↦ rw e (read_items-Keeps n who old t t.items h refl (ground arith))
  ]
