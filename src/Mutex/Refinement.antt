-- ===== src/Mutex/Refinement.antt =====
-- The queue of blocks is a first-in first-out list.
use cocoyaxi.Base.{
  ℕ, zero, suc, ◌+◌, ◌-◌, ◌≤◌, ◌<◌, true, false, List, [], ◌∷◌, ◌++◌, append-nil, append_assoc,
  length, tail, ◌==◌, ltb, if◌then◌else◌, Bool-cases, ◌≡◌, ◌⊎◌, inl, inr, refl, sym, ap, ◌∙◌, arith,
  length-append, subst,
}
use cocoyaxi.Mutex.Queue.{
  capacity, Memb, Queue, put_in, put_last, put_back, push_blocks, push_back, drop_read, pop_blocks,
  pop_front,
}

-- The pointers of a block from `i` on.
abbrev pub slice : (ℕ → ℕ) → ℕ → ℕ → List ℕ
slice q i zero = []
slice q i (suc n) = q i ∷ slice q (suc i) n

abbrev pub inside : Memb → List ℕ
inside m = slice m.q m.rx (m.wx - m.rx)

abbrev pub all_inside : List Memb → List ℕ
all_inside [] = []
all_inside (m ∷ ms) = inside m ++ all_inside ms

-- Every block but the last is written to its end and not read to its end; the last is not empty,
-- unless it is the only one and cleared.
abbrev pub AreBlocks : Memb → List Memb → Type 0
AreBlocks m [] = (m.rx < m.wx) × (m.wx ≤ capacity)
AreBlocks m (m' ∷ ms) = (m.rx < m.wx) × (m.wx ≡ capacity) × AreBlocks m' ms

abbrev pub IsCleared : List Memb → Type 0
IsCleared [] = Unit
IsCleared (m ∷ []) = (m.rx ≡ 0) × (m.wx ≡ 0)
IsCleared (m ∷ m' ∷ ms) = ⊥

abbrev pub AreFilled : List Memb → Type 0
AreFilled [] = ⊥
AreFilled (m ∷ ms) = AreBlocks m ms

-- The queue holds the pointers `xs`, in order.
pub record Holds (q : Queue) (xs : List ℕ) : Type 0 where
  pub blocks_ok : IsCleared q.blocks ⊎ AreFilled q.blocks
  pub holding : all_inside q.blocks ≡ xs
  pub sized : q.size ≡ length xs

-- A pointer that is written behind the others is the last.
slice_next :
    (q : ℕ → ℕ) (a x i n : ℕ)
    → i + n ≡ a
    → slice (λ j. if j == a then x else q j) i (suc n) ≡ slice q i n ++ x ∷ []
slice_next q a x i zero h = let here : (i == a) ≡ true = ground arith in rw here refl
slice_next q a x i (suc n) h =
    let other : (i == a) ≡ false = ground arith in
    rw other (ap (λ (l : List ℕ). q i ∷ l) (slice_next q a x (suc i) n (omega arith)))

put_in-inside : (x : ℕ) (m : Memb) → m.rx ≤ m.wx → inside (put_in x m) ≡ inside m ++ x ∷ []
put_in-inside x m h =
    let more : suc m.wx - m.rx ≡ suc (m.wx - m.rx) = omega arith in
    ap (slice (put_in x m).q m.rx) more ∙ slice_next m.q m.wx x m.rx (m.wx - m.rx) (omega arith)

behind-AreBlocks :
    (m : Memb) (ms : List Memb) → m.rx < m.wx → m.wx ≡ capacity → AreFilled ms → AreBlocks m ms
behind-AreBlocks m [] h e f = elim f [ ]
behind-AreBlocks m (m' ∷ ms) h e f = (h, e, f)

put_last-room :
    (x : ℕ) (m : Memb)
    → m.rx ≤ m.wx
    → m.wx < capacity
    → AreFilled (put_last x m) × (all_inside (put_last x m) ≡ all_inside (m ∷ []) ++ x ∷ [])
put_last-room x m h g =
    let room : (m.wx == capacity) ≡ false = ground arith in
    rw room (
      (omega arith, omega arith),
      append-nil _ ∙ put_in-inside x m h ∙ sym (ap (λ l. l ++ x ∷ []) (append-nil (inside m))),
    )

put_back-inside :
    (x : ℕ) (m : Memb) (ms : List Memb)
    → AreBlocks m ms
    → AreFilled (put_back x m ms) × (all_inside (put_back x m ms) ≡ all_inside (m ∷ ms) ++ x ∷ [])
unfolding put_back
put_back-inside x m [] h = elim (Bool-cases (m.wx == capacity)) [
  | inl e ↦ rw e (
    (h.0, ground arith, (omega arith, omega arith)),
    sym (ap (λ l. l ++ x ∷ []) (append-nil (inside m))),
  )
  | inr e ↦ put_last-room x m (omega arith) (ground arith)
]
put_back-inside x m (m' ∷ ms) h =
    let (filled, behind) = put_back-inside x m' ms h.2 in
    (
      behind-AreBlocks m (put_back x m' ms) h.0 h.1 filled,
      ap (λ l. inside m ++ l) behind
          ∙ sym (append_assoc (inside m) (all_inside (m' ∷ ms)) (x ∷ [])),
    )

AreFilled-cons : (m : Memb) (ms : List Memb) → AreBlocks m ms → m.rx < m.wx
AreFilled-cons m [] h = h.0
AreFilled-cons m (m' ∷ ms) h = h.0

inside_front : (m : Memb) → m.rx < m.wx → inside m ≡ m.q m.rx ∷ inside (record m { rx = suc m.rx })
inside_front m h =
    let more : m.wx - m.rx ≡ suc (m.wx - suc m.rx) = omega arith in ap (slice m.q m.rx) more

inside_end : (m : Memb) → m.rx ≡ m.wx → inside m ≡ []
inside_end m h = let none_left : m.wx - m.rx ≡ 0 = omega arith in ap (slice m.q m.rx) none_left

push_blocks-inside :
    (x : ℕ) (ms : List Memb)
    → IsCleared ms ⊎ AreFilled ms
    → AreFilled (push_blocks x ms) × (all_inside (push_blocks x ms) ≡ all_inside ms ++ x ∷ [])
push_blocks-inside x [] h = ((omega arith, omega arith), refl)
push_blocks-inside x (m ∷ []) (inl h) =
    unfold put_back in put_last-room x m (omega (arith, h)) (omega (arith, h))
push_blocks-inside x (m ∷ m' ∷ ms) (inl h) = elim h [ ]
push_blocks-inside x (m ∷ ms) (inr h) = put_back-inside x m ms h

-- A queue that holds `xs` holds them with `x` behind after `push_back`.
pub push_back-Holds :
    (x : ℕ) (xs : List ℕ) (q : Queue) → Holds q xs → Holds (push_back x q) (xs ++ x ∷ [])
unfolding push_back
push_back-Holds x xs q h =
    let (filled, behind) = push_blocks-inside x q.blocks h.blocks_ok in
    record {
      blocks_ok = inr filled;
      holding = behind ∙ ap (λ l. l ++ x ∷ []) h.holding;
      sized = omega (arith, h.sized, length-append xs (x ∷ []));
    }

abbrev pub first_or_null : List ℕ → ℕ
first_or_null [] = 0
first_or_null (x ∷ xs) = x

drop_read-inside :
    (m : Memb) (ms : List Memb)
    → AreBlocks m ms
    → let ms' = drop_read (record m { rx = suc m.rx }) ms in
      (IsCleared ms' ⊎ AreFilled ms')
      × (all_inside ms' ≡ inside (record m { rx = suc m.rx }) ++ all_inside ms)
drop_read-inside m [] h = elim (Bool-cases (suc m.rx == m.wx)) [
  | inl e ↦ rw e (
    inl (refl, refl),
    ap (λ l. l ++ []) (sym (inside_end (record m { rx = suc m.rx }) (ground arith))),
  )
  | inr e ↦ rw e (inr (ground arith), refl)
]
drop_read-inside m (m' ∷ ms) h = elim (Bool-cases (suc m.rx == m.wx)) [
  | inl e ↦ rw e (
    inr h.2,
    ap (λ l. l ++ all_inside (m' ∷ ms))
        (sym (inside_end (record m { rx = suc m.rx }) (ground arith))),
  )
  | inr e ↦ rw e (inr (ground arith), refl)
]

length-tail : (xs : List ℕ) → length (tail xs) ≡ length xs - 1
length-tail [] = omega arith
length-tail (x ∷ xs) = omega arith

pop_cleared :
    (size : ℕ) (m : Memb) (ms : List Memb) (xs : List ℕ)
    → Holds (record { blocks = m ∷ ms; size = size }) xs
    → IsCleared (m ∷ ms)
    → ((pop_blocks size (m ∷ ms)).0 ≡ first_or_null xs)
      × Holds (pop_blocks size (m ∷ ms)).1 (tail xs)
pop_cleared size m [] xs h c =
    let read : ltb m.rx m.wx ≡ false = ground (arith, c) in
    let nothing = ap (λ l. l ++ []) (sym (inside_end m (omega (arith, c)))) ∙ h.holding in
    rw read (
      subst
        (λ ys. (0 ≡ first_or_null ys) × Holds (record { blocks = m ∷ []; size = size }) (tail ys))
        nothing
        (
          refl,
          record {
            blocks_ok = inl c;
            holding = h.holding ∙ sym nothing;
            sized = h.sized ∙ ap length (sym nothing);
          },
        ))
pop_cleared size m (m' ∷ ms) xs h c = elim c [ ]

pop_blocks-Holds :
    (size : ℕ) (ms : List Memb) (xs : List ℕ)
    → Holds (record { blocks = ms; size = size }) xs
    → ((pop_blocks size ms).0 ≡ first_or_null xs) × Holds (pop_blocks size ms).1 (tail xs)
pop_blocks-Holds size [] xs h =
    subst (λ ys. (0 ≡ first_or_null ys) × Holds (record { blocks = []; size = size }) (tail ys))
      h.holding
      (
        refl,
        record { blocks_ok = inl tt; holding = refl; sized = h.sized ∙ ap length (sym h.holding) },
      )
pop_blocks-Holds size (m ∷ ms) xs h = elim h.blocks_ok [
  | inl c ↦ pop_cleared size m ms xs h c
  | inr f ↦
      let unread : ltb m.rx m.wx ≡ true = ground (arith, AreFilled-cons m ms f) in
      let front =
        ap (λ l. l ++ all_inside ms) (sym (inside_front m (AreFilled-cons m ms f))) ∙ h.holding in
      let (ok, dropped) = drop_read-inside m ms f in
      rw unread (
        ap first_or_null front,
        record {
          blocks_ok = ok;
          holding = dropped ∙ ap tail front;
          sized = omega (arith, h.sized, length-tail xs);
        },
      )
]

-- `pop_front` takes off the first of `xs`, or returns null if there is none.
pub pop_front-Holds :
    (xs : List ℕ) (q : Queue)
    → Holds q xs
    → ((pop_front q).0 ≡ first_or_null xs) × Holds (pop_front q).1 (tail xs)
unfolding pop_front
pop_front-Holds xs q h = pop_blocks-Holds q.size q.blocks xs h
