-- ===== src/Clist/Segments.antt =====
-- Pieces of a list in memory: nodes in a row, with what the first points back to and what the last
-- points on to.
use cocoyaxi.Base.{ℕ, false, List, [], ◌∷◌, ◌++◌, All, ◌==◌, ◌≡◌, refl, ◌∙◌, arith, ==_refl}
use cocoyaxi.Clist.{Clist, put}

abbrev pub first : List ℕ → ℕ → ℕ
first [] q = q
first (x ∷ xs) q = x

abbrev pub last_of : ℕ → List ℕ → ℕ
last_of p [] = p
last_of p (x ∷ xs) = last_of x xs

-- The nodes `xs` lie between `p` and `q`.
abbrev pub Segment : (ℕ → ℕ) → (ℕ → ℕ) → ℕ → List ℕ → ℕ → Type 0
Segment prev next p [] q = Unit
Segment prev next p (x ∷ xs) q = (prev x ≡ p) × (next x ≡ first xs q) × Segment prev next x xs q

abbrev pub IsOther : ℕ → List ℕ → Type 0
IsOther a = All (λ x. (x == a) ≡ false)

-- Nodes with different addresses, none of them null.
abbrev pub IsDistinct : List ℕ → Type 0
IsDistinct [] = Unit
IsDistinct (x ∷ xs) = ((x == 0) ≡ false) × IsOther x xs × IsDistinct xs

-- The list in memory consists of the nodes `xs`.
pub record Holds (l : Clist) (xs : List ℕ) : Type 0 where
  pub heads : l.head ≡ first xs 0
  pub links : Segment l.prev l.next (last_of 0 xs) xs 0
  pub distinct : IsDistinct xs

pub put_same : (f : ℕ → ℕ) (a v : ℕ) → put f a v a ≡ v
put_same f a v = rw (==_refl a) refl

pub put_other : (f : ℕ → ℕ) (a v x : ℕ) → (x == a) ≡ false → put f a v x ≡ f x
put_other f a v x e = rw e refl

pub other_sym : (a x : ℕ) → (x == a) ≡ false → (a == x) ≡ false
other_sym a x e = ground arith

module _ (prev next : ℕ → ℕ) where
  pub put_prev-Segment :
      (a v p : ℕ) (xs : List ℕ) (q : ℕ)
      → IsOther a xs
      → Segment prev next p xs q
      → Segment (put prev a v) next p xs q
  put_prev-Segment a v p [] q o s = tt
  put_prev-Segment a v p (x ∷ xs) q o s =
      (put_other prev a v x o.0 ∙ s.0, s.1, put_prev-Segment a v x xs q o.1 s.2)

  pub put_next-Segment :
      (a v p : ℕ) (xs : List ℕ) (q : ℕ)
      → IsOther a xs
      → Segment prev next p xs q
      → Segment prev (put next a v) p xs q
  put_next-Segment a v p [] q o s = tt
  put_next-Segment a v p (x ∷ xs) q o s =
      (s.0, put_other next a v x o.0 ∙ s.1, put_next-Segment a v x xs q o.1 s.2)

  -- The first node points back to another.
  pub put_first-Segment :
      (p p' x : ℕ) (xs : List ℕ) (q : ℕ)
      → IsOther x xs
      → Segment prev next p (x ∷ xs) q
      → Segment (put prev x p') next p' (x ∷ xs) q
  put_first-Segment p p' x xs q o s = (put_same prev x p', s.1, put_prev-Segment x p' x xs q o s.2)

pub last_of-IsOther : (a x : ℕ) (xs : List ℕ) → IsOther a (x ∷ xs) → (last_of x xs == a) ≡ false
last_of-IsOther a x [] o = o.0
last_of-IsOther a x (y ∷ xs) o = last_of-IsOther a y xs o.1

module _ (prev next : ℕ → ℕ) where
  -- The last node points on to another.
  pub put_last-Segment :
      (p x : ℕ) (xs : List ℕ) (q q' : ℕ)
      → IsDistinct (x ∷ xs)
      → Segment prev next p (x ∷ xs) q
      → Segment prev (put next (last_of x xs) q') p (x ∷ xs) q'
  put_last-Segment p x [] q q' d s = (s.0, put_same next x q', tt)
  put_last-Segment p x (y ∷ xs) q q' d s =
      let other = other_sym x (last_of y xs) (last_of-IsOther x y xs d.1) in
      (s.0, put_other next (last_of y xs) q' x other ∙ s.1, put_last-Segment x y xs q q' d.2 s.2)

  pub join-Segment :
      (p : ℕ) (xs ys : List ℕ) (q : ℕ)
      → Segment prev next p xs (first ys q)
      → Segment prev next (last_of p xs) ys q
      → Segment prev next p (xs ++ ys) q
  join-Segment p [] ys q s t = t
  join-Segment p (x ∷ []) [] q s t = (s.0, s.1, tt)
  join-Segment p (x ∷ []) (y ∷ ys) q s t = (s.0, s.1, t)
  join-Segment p (x ∷ x' ∷ xs) ys q s t = (s.0, s.1, join-Segment x (x' ∷ xs) ys q s.2 t)

  pub split-Segment :
      (p : ℕ) (xs ys : List ℕ) (q : ℕ)
      → Segment prev next p (xs ++ ys) q
      → Segment prev next p xs (first ys q) × Segment prev next (last_of p xs) ys q
  split-Segment p [] ys q s = (tt, s)
  split-Segment p (x ∷ []) [] q s = ((s.0, s.1, tt), tt)
  split-Segment p (x ∷ []) (y ∷ ys) q s = ((s.0, s.1, tt), s.2)
  split-Segment p (x ∷ x' ∷ xs) ys q s =
      let rest = split-Segment x (x' ∷ xs) ys q s.2 in ((s.0, s.1, rest.0), rest.1)
