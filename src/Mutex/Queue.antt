-- ===== src/Mutex/Queue.antt =====
-- `mutex_impl::queue` of src/co/co.cc: a list of blocks of 13 pointers. A pointer to a coroutine is a
-- number that is not 0, and null stands for a thread.
use cocoyaxi.Base.{ℕ, suc, ◌-◌, List, [], ◌∷◌, ◌==◌, ltb, if◌then◌else◌}

abbrev pub capacity : ℕ
capacity = 13

-- The pointers from `rx` up to `wx` are in the queue.
pub record Memb : Type 0 where
  pub rx : ℕ
  pub wx : ℕ
  pub q : ℕ → ℕ

-- `blocks` is `_q`, from its front to its back.
pub record Queue : Type 0 where
  pub blocks : List Memb
  pub size : ℕ

abbrev pub new_memb : Memb
new_memb = record { rx = 0; wx = 0; q = λ i. 0 }

-- `m->q[m->wx++] = x`.
abbrev pub put_in : ℕ → Memb → Memb
put_in x m = record m { wx = suc m.wx; q = λ i. if i == m.wx then x else m.q i }

-- What `push_back` makes of the block at the back: a full one gets another behind it.
abbrev pub put_last : ℕ → Memb → List Memb
put_last x m = if m.wx == capacity then m ∷ put_in x new_memb ∷ [] else put_in x m ∷ []

unfoldable pub put_back : ℕ → Memb → List Memb → List Memb
put_back x m [] = put_last x m
put_back x m (m' ∷ ms) = m ∷ put_back x m' ms

abbrev pub push_blocks : ℕ → List Memb → List Memb
push_blocks x [] = put_in x new_memb ∷ []
push_blocks x (m ∷ ms) = put_back x m ms

unfoldable pub push_back : ℕ → Queue → Queue
push_back x q = record { blocks = push_blocks x q.blocks; size = suc q.size }

-- After a pop: a block with no more pointers is cleared, and removed if it is not the last.
abbrev pub drop_read : Memb → List Memb → List Memb
drop_read m [] = if m.rx == m.wx then record m { rx = 0; wx = 0 } ∷ [] else m ∷ []
drop_read m (m' ∷ ms) = if m.rx == m.wx then m' ∷ ms else m ∷ m' ∷ ms

abbrev pub pop_blocks : ℕ → List Memb → ℕ × Queue
pop_blocks size [] = (0, record { blocks = []; size = size })
pop_blocks size (m ∷ ms) =
    if ltb m.rx m.wx
    then (m.q m.rx, record { blocks = drop_read (record m { rx = suc m.rx }) ms; size = size - 1 })
    else (0, record { blocks = m ∷ ms; size = size })

unfoldable pub pop_front : Queue → ℕ × Queue
pop_front q = pop_blocks q.size q.blocks
