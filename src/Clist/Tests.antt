-- ===== src/Clist/Tests.antt =====
-- A list of three nodes in memory, and the theorems applied there.
use cocoyaxi.Base.{ℕ, zero, suc, Option, none, some, List, [], ◌∷◌, ◌==◌, if◌then◌else◌, ◌≡◌, refl}
use cocoyaxi.Clist.{Clist, push_back, pop_front, erase, pop_back, move_front, move_back}
use cocoyaxi.Clist.Segments.{Holds}
use cocoyaxi.Clist.Ends.{Leaves, push_back-Holds, pop_front-Holds}
use cocoyaxi.Clist.Middle.{erase-Holds, Pops, pop_back-Holds}
use cocoyaxi.Clist.Moves.{move_front-Holds}

-- The nodes 1, 2 and 3.
abbrev three : Clist
three = record {
  head = 1;
  prev = λ x. if x == 1 then 3 else if x == 2 then 1 else 2;
  next = λ x. if x == 1 then 2 else if x == 2 then 3 else 0;
}

three-Holds : Holds three (1 ∷ 2 ∷ 3 ∷ [])
three-Holds = record {
  heads = refl;
  links = (refl, refl, (refl, refl, (refl, refl, tt)));
  distinct = (refl, (refl, (refl, tt)), (refl, (refl, tt), (refl, tt, tt)));
}

abbrev follow : ℕ → ℕ → Clist → List ℕ
follow zero x l = []
follow (suc steps) x l = let more = follow steps (l.next x) l in if x == 0 then [] else x ∷ more

-- The addresses that are met forward from the head, a few at most.
abbrev walk : ℕ → Option Clist → List ℕ
walk steps none = []
walk steps (some l) = follow steps l.head l

to_the_end : walk 5 (move_back 2 three) ≡ 1 ∷ 3 ∷ 2 ∷ []
unfolding move_back
to_the_end = refl

push_back-Holds_example : Leaves (push_back 7 three) (1 ∷ 2 ∷ 3 ∷ 7 ∷ [])
push_back-Holds_example =
    push_back-Holds 7 (1 ∷ 2 ∷ 3 ∷ []) three three-Holds refl (refl, (refl, (refl, tt)))

pop_front-Holds_example : ((pop_front three).0 ≡ 1) × Holds (pop_front three).1 (2 ∷ 3 ∷ [])
pop_front-Holds_example = pop_front-Holds (1 ∷ 2 ∷ 3 ∷ []) three three-Holds

erase-Holds_example : Leaves (erase 2 three) (1 ∷ 3 ∷ [])
erase-Holds_example = erase-Holds (1 ∷ []) 2 (3 ∷ []) three three-Holds

pop_back-Holds_example : Pops (pop_back three) 3 (1 ∷ 2 ∷ [])
pop_back-Holds_example = pop_back-Holds (1 ∷ 2 ∷ []) 3 three three-Holds

move_front-Holds_example : Leaves (move_front 2 three) (2 ∷ 1 ∷ 3 ∷ [])
move_front-Holds_example = move_front-Holds (1 ∷ []) 2 (3 ∷ []) three three-Holds
