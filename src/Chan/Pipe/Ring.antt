-- ===== src/Chan/Pipe/Ring.antt =====
-- The blocks of a ring buffer in the order in which they are read.
use cocoyaxi.Base.{
  ℕ, zero, suc, ◌+◌, ◌-◌, ◌≤◌, ◌<◌, List, [], ◌∷◌, ◌++◌, ◌==◌, leb, if◌then◌else◌, ◌≡◌, ◌≢◌, ap,
  refl, sym, ◌∙◌, arith,
}
use cocoyaxi.Chan.Pipe.{next_pos, put}

-- How far `a` is behind `i`, when the buffer is read on.
abbrev pub dist : ℕ → ℕ → ℕ → ℕ
dist size i a = if leb i a then a - i else a + size - i

pub next_pos-bound : (size i : ℕ) → i < size → next_pos size i < size
next_pos-bound size i h = ground arith

dist-next_pos :
    (size i a k : ℕ)
    → i < size
    → a < size
    → suc k ≤ dist size i a
    → suc (dist size (next_pos size i) a) ≡ dist size i a
dist-next_pos size i a k h l d = ground arith

pub dist-wrap : (size i : ℕ) → i < size → suc (dist size (next_pos size i) i) ≡ size
dist-wrap size i h = ground arith

pub dist_same : (size i : ℕ) → dist size i i ≡ 0
dist_same size i = ground arith

-- How many blocks there are after one is written at `a`.
pub dist-written :
    (size i a : ℕ)
    → i < size
    → a < size
    → (if i == next_pos size a then size else dist size i (next_pos size a)) ≡ suc (dist size i a)
dist-written size i a h l = ground arith

dist_pos : (size i a : ℕ) → i < size → i ≢ a → 1 ≤ dist size i a
dist_pos size i a h e = ground arith

module _ {V : Type 0} where
  abbrev pub ring : ℕ → (ℕ → V) → ℕ → ℕ → List V
  ring size cells i zero = []
  ring size cells i (suc k) = cells i ∷ ring size cells (next_pos size i) k

  put_miss : (f : ℕ → V) (a : ℕ) (v : V) (i : ℕ) → i ≢ a → put f a v i ≡ f i
  put_miss f a v i h = ground arith

  put_hit : (f : ℕ → V) (a : ℕ) (v : V) (i : ℕ) → i ≡ a → put f a v i ≡ v
  put_hit f a v i h = ground arith

  -- A block that is written outside is not seen.
  put-ring :
      (size : ℕ) (cells : ℕ → V) (a : ℕ) (v : V) (i k : ℕ)
      → i < size
      → a < size
      → k ≤ dist size i a
      → ring size (put cells a v) i k ≡ ring size cells i k
  put-ring size cells a v i zero h l d = refl
  put-ring size cells a v i (suc k) h l d = rw (put_miss cells a v i (ground arith)) (
      rw
        (put-ring size cells a v (next_pos size i) k (next_pos-bound size i h) l
          (omega (arith, dist-next_pos size i a k h l d)))
        refl)

  -- A block that is written at the end is the last.
  pub ring-append :
      (size : ℕ) (cells : ℕ → V) (a : ℕ) (v : V) (i k : ℕ)
      → i < size
      → a < size
      → dist size i a ≡ k
      → ring size (put cells a v) i (suc k) ≡ ring size cells i k ++ v ∷ []
  ring-append size cells a v i zero h l d = rw (put_hit cells a v i (ground arith)) refl
  ring-append size cells a v i (suc k) h l d = rw (put_miss cells a v i (ground arith)) (
      ap (λ (r : List V). cells i ∷ r)
        (ring-append size cells a v (next_pos size i) k (next_pos-bound size i h) l
          (omega (arith, dist-next_pos size i a k h l (omega arith), d))))

  pub ring-front :
      (size : ℕ) (cells : ℕ → V) (i a : ℕ)
      → i < size
      → a < size
      → i ≢ a
      → ring size cells i (dist size i a)
        ≡ cells i ∷ ring size cells (next_pos size i) (dist size (next_pos size i) a)
  ring-front size cells i a h l e =
      ap (ring size cells i) (sym (dist-next_pos size i a 0 h l (dist_pos size i a h e)))

  pub ring-full :
      (size : ℕ) (cells : ℕ → V) (i : ℕ)
      → i < size
      → ring size cells i size
        ≡ cells i ∷ ring size cells (next_pos size i) (dist size (next_pos size i) i)
  ring-full size cells i h = ap (ring size cells i) (sym (dist-wrap size i h))

  pub ring-written :
      (size : ℕ) (cells : ℕ → V) (i a : ℕ) (v : V)
      → i < size
      → a < size
      → ring size
          (put cells a v)
          i
          (if i == next_pos size a then size else dist size i (next_pos size a))
        ≡ ring size cells i (dist size i a) ++ v ∷ []
  ring-written size cells i a v h l =
      rw (dist-written size i a h l) (ring-append size cells a v i (dist size i a) h l refl)

  -- The first block of a full buffer is read, and its place is written.
  pub ring-turn :
      (size : ℕ) (cells : ℕ → V) (i : ℕ) (v : V)
      → i < size
      → ring size cells i size ++ v ∷ []
        ≡ cells i ∷ ring size (put cells i v) (next_pos size i) size
  ring-turn size cells i v h =
      let j = next_pos size i in
      ap (λ (xs : List V). xs ++ v ∷ []) (ring-full size cells i h)
      ∙ ap (λ (xs : List V). cells i ∷ xs)
          (sym (ring-append size cells i v j (dist size j i) (next_pos-bound size i h) h refl)
            ∙ ap (ring size (put cells i v) j) (dist-wrap size i h))
