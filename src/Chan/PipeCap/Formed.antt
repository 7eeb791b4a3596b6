-- ===== src/Chan/PipeCap/Formed.antt =====
-- The invariant of a channel with a capacity, and an object that is added to its list.
use cocoyaxi.Base.{
  ℕ, suc, ◌+◌, ◌%◌, ◌^◌, ◌≤◌, ◌<◌, true, false, [], ◌∷◌, length, length-append, ◌==◌, Bool-cases,
  ◌≡◌, ◌≢◌, inl, inr, arith,
}
use cocoyaxi.Chan.Waiters.{reader, writer}
use cocoyaxi.Chan.Waiters.Kinds.{AreAll}
use cocoyaxi.Chan.PipeCap.{PipeCap, full, append}

module _ {V : Type 0} where
  -- Readers wait only on an empty list, and writers only on a full one; the size is that of the list
  -- and does not wrap around in `n` more actions.
  pub record IsFormed (n : ℕ) (t : PipeCap V) : Type 0 where
    pub counted : t.size ≡ length t.items
    pub limited : t.cap ≢ 0 → t.size ≤ t.cap
    pub small : t.cap < 2 ^ 32
    pub unlimited : t.cap ≡ 0 → t.size + n < 2 ^ 32
    pub nobody : t.size ≢ 0 → full t ≡ false → t.wq ≡ []
    pub readers : t.size ≡ 0 → AreAll reader t.wq
    pub writers : full t ≡ true → AreAll writer t.wq

  -- One action fewer is allowed for.
  pub fewer : (n : ℕ) (t : PipeCap V) → IsFormed (suc n) t → IsFormed n t
  fewer n t h = record {
    counted = h.counted;
    limited = h.limited;
    small = h.small;
    unlimited = λ g. omega (arith, h.unlimited g);
    nobody = h.nobody;
    readers = h.readers;
    writers = h.writers;
  }

  pub not_full : (t : PipeCap V) → t.size ≡ 0 → full t ≡ false
  not_full t e = ground arith

  -- A list with room for one more object.
  pub record HasRoom (n : ℕ) (t : PipeCap V) : Type 0 where
    pub counted : t.size ≡ length t.items
    pub room : t.cap ≢ 0 → t.size < t.cap
    pub small : t.cap < 2 ^ 32
    pub unlimited : t.cap ≡ 0 → t.size + suc n < 2 ^ 32

  pub append-size : (n : ℕ) (t : PipeCap V) → HasRoom n t → (t.size + 1) % 2 ^ 32 ≡ suc t.size
  append-size n t h = elim (Bool-cases (t.cap == 0)) [
    | inl e ↦ omega (arith, h.unlimited (ground arith))
    | inr e ↦ omega (arith, h.room (ground arith), h.small)
  ]

  pub append-IsFormed :
      (n : ℕ) (v : V) (t : PipeCap V)
      → HasRoom n t
      → AreAll writer t.wq
      → (full (append v t) ≡ false → t.wq ≡ [])
      → IsFormed n (append v t)
  append-IsFormed n v t h a b = record {
    counted = omega (arith, append-size n t h, h.counted, length-append t.items (v ∷ []));
    limited = λ g. omega (arith, append-size n t h, h.room g);
    small = h.small;
    unlimited = λ g. omega (arith, append-size n t h, h.unlimited g);
    nobody = λ g f. b f;
    readers = λ g. absurd (omega (arith, append-size n t h));
    writers = λ g. a;
  }
