-- ===== src/Clist/Ends.antt =====
-- The operations at the ends of a list, on the nodes that it consists of.
use cocoyaxi.Base.{
  ℕ, false, Option, none, some, List, [], ◌∷◌, ◌++◌, tail, ◌==◌, if◌then◌else◌, ◌≡◌, refl, sym, ◌∙◌,
  subst,
}
use cocoyaxi.Clist.{Clist, put, push_only, push_front, push_back, pop_front}
use cocoyaxi.Clist.Segments.{
  first, last_of, Segment, IsOther, IsDistinct, Holds, put_same, put_other, other_sym,
  put_prev-Segment, put_next-Segment, put_first-Segment, last_of-IsOther, put_last-Segment,
  join-Segment,
}

-- An operation used no null pointer and left the nodes `xs`.
abbrev pub Leaves : Option Clist → List ℕ → Type 0
Leaves none xs = ⊥
Leaves (some l) xs = Holds l xs

push_only-Holds :
    (node : ℕ) (l : Clist) → (node == 0) ≡ false → Holds (push_only node l) (node ∷ [])
unfolding push_only
push_only-Holds node l h = record {
  heads = refl;
  links = (put_same l.prev node node, put_same l.next node 0, tt);
  distinct = (h, tt, tt);
}

pub head_of : (l : Clist) (x : ℕ) (xs : List ℕ) → Holds l (x ∷ xs) → (l.head == 0) ≡ false
head_of l x xs w = rw (w.heads) (w.distinct).0

pub pushed_front :
    (node x : ℕ) (xs : List ℕ) (l : Clist)
    → Holds l (x ∷ xs)
    → IsDistinct (node ∷ x ∷ xs)
    → Holds
        (record {
          head = node;
          prev = put (put l.prev node (l.prev x)) x node;
          next = put l.next node x;
        })
        (node ∷ x ∷ xs)
pushed_front node x xs l w d =
    let prev = put l.prev node (l.prev x) in
    let moved : Segment prev (put l.next node x) (last_of x xs) (x ∷ xs) 0 =
      put_next-Segment prev l.next node x (last_of x xs) (x ∷ xs) 0 d.1
        (put_prev-Segment l.prev l.next node (l.prev x) (last_of x xs) (x ∷ xs) 0 d.1 w.links) in
    record {
      heads = refl;
      links = (
        put_other prev x node node (other_sym node x (d.1).0)
            ∙ put_same l.prev node (l.prev x)
            ∙ w.links.0,
        put_same l.next node x,
        put_first-Segment prev (put l.next node x) (last_of x xs) node x xs 0 d.2.1 moved,
      );
      distinct = d;
    }

-- A node that is not null and not in the list becomes its first; the order of the others stays, and
-- no null pointer is used.
pub push_front-Holds :
    (node : ℕ) (xs : List ℕ) (l : Clist)
    → Holds l xs
    → IsDistinct (node ∷ xs)
    → Leaves (push_front node l) (node ∷ xs)
unfolding push_front push_only
push_front-Holds node [] l w d = rw (w.heads) (rw (d.0) (push_only-Holds node l d.0))
push_front-Holds node (x ∷ xs) l w d =
    rw (head_of l x xs w) (rw (d.0) (rw (w.heads) (pushed_front node x xs l w d)))

-- The list from the second node on.
pub popped :
    (x : ℕ) (xs : List ℕ) (l : Clist)
    → Holds l (x ∷ xs)
    → Holds
        (record l {
          head = l.next x;
          prev = if l.next x == 0 then l.prev else put l.prev (l.next x) (l.prev x);
        })
        xs
popped x [] l w = record { heads = w.links.1; links = tt; distinct = tt }
popped x (y ∷ ys) l w =
    let moved : (if l.next x == 0 then l.prev else put l.prev (l.next x) (l.prev x))
        ≡ put l.prev y (last_of y ys) =
      rw (w.links.1) (rw ((w.distinct).2.0) (rw (w.links.0) refl)) in
    record {
      heads = w.links.1;
      links =
          subst (λ p. Segment p l.next (last_of y ys) (y ∷ ys) 0) (sym moved)
            (put_first-Segment l.prev l.next x (last_of y ys) y ys 0 (w.distinct).2.1 w.links.2);
      distinct = (w.distinct).2;
    }

-- The first node is taken off and returned; an empty list stays as it is, and null is returned.
pub pop_front-Holds :
    (xs : List ℕ) (l : Clist)
    → Holds l xs
    → ((pop_front l).0 ≡ first xs 0) × Holds (pop_front l).1 (tail xs)
unfolding pop_front
pop_front-Holds [] l w = rw (w.heads) (refl, record { heads = refl; links = tt; distinct = tt })
pop_front-Holds (x ∷ xs) l w = rw (head_of l x xs w) (rw (w.heads) (refl, popped x xs l w))

pushed_back :
    (node x : ℕ) (xs : List ℕ) (l : Clist)
    → Holds l (x ∷ xs)
    → ((node == 0) ≡ false)
    → IsOther node (x ∷ xs)
    → Segment
        (put (put l.prev node (last_of x xs)) x node)
        (put (put l.next node 0) (last_of x xs) node)
        node
        ((x ∷ xs) ++ node ∷ [])
        0
pushed_back node x xs l w nonnull o =
    let last = last_of x xs in
    let p = put l.prev node last in
    let n = put l.next node 0 in
    let kept : Segment p n last (x ∷ xs) 0 =
      put_next-Segment p l.next node 0 last (x ∷ xs) 0 o
        (put_prev-Segment l.prev l.next node last last (x ∷ xs) 0 o w.links) in
    let linked : Segment p (put n last node) last (x ∷ xs) node =
      put_last-Segment p n last x xs 0 node w.distinct kept in
    join-Segment (put p x node) (put n last node) node (x ∷ xs) (node ∷ []) 0
      (put_first-Segment p (put n last node) last node x xs node (w.distinct).1 linked)
      (
        put_other p x node node (other_sym node x o.0) ∙ put_same l.prev node last,
        put_other n last node node (other_sym node last (last_of-IsOther node x xs o))
            ∙ put_same l.next node 0,
        tt,
      )

pub IsOther-append : (a : ℕ) (xs ys : List ℕ) → IsOther a xs → IsOther a ys → IsOther a (xs ++ ys)
IsOther-append a [] ys o o' = o'
IsOther-append a (x ∷ xs) ys o o' = (o.0, IsOther-append a xs ys o.1 o')

pub IsDistinct-append :
    (xs : List ℕ) (a : ℕ)
    → IsDistinct xs
    → (a == 0) ≡ false
    → IsOther a xs
    → IsDistinct (xs ++ a ∷ [])
IsDistinct-append [] a d h o = (h, tt, tt)
IsDistinct-append (x ∷ xs) a d h o = (
  d.0,
  IsOther-append x xs (a ∷ []) d.1 (other_sym a x o.0, tt),
  IsDistinct-append xs a d.2 h o.1,
)

pub last_of-append : (p : ℕ) (xs : List ℕ) (a : ℕ) → last_of p (xs ++ a ∷ []) ≡ a
last_of-append p [] a = refl
last_of-append p (x ∷ xs) a = last_of-append x xs a

pub last_of-not_null : (x : ℕ) (xs : List ℕ) → IsDistinct (x ∷ xs) → (last_of x xs == 0) ≡ false
last_of-not_null x [] d = d.0
last_of-not_null x (y ∷ xs) d = last_of-not_null y xs d.2

pub pushed_back-Holds :
    (node x : ℕ) (xs : List ℕ) (l : Clist)
    → Holds l (x ∷ xs)
    → ((node == 0) ≡ false)
    → IsOther node (x ∷ xs)
    → Holds
        (record {
          head = x;
          prev = put (put l.prev node (l.prev x)) x node;
          next = put (put l.next node 0) (l.prev x) node;
        })
        ((x ∷ xs) ++ node ∷ [])
pushed_back-Holds node x xs l w h o = record {
  heads = refl;
  links =
      subst
        (λ p.
          Segment (put (put l.prev node p) x node) (put (put l.next node 0) p node)
            (last_of 0 ((x ∷ xs) ++ node ∷ [])) ((x ∷ xs) ++ node ∷ []) 0)
        (sym w.links.0)
        (subst
          (λ q.
            Segment (put (put l.prev node (last_of x xs)) x node)
              (put (put l.next node 0) (last_of x xs) node) q ((x ∷ xs) ++ node ∷ []) 0)
          (sym (last_of-append 0 (x ∷ xs) node)) (pushed_back node x xs l w h o));
  distinct = IsDistinct-append (x ∷ xs) node w.distinct h o;
}

-- A node that is not null and not in the list becomes its last; the order of the others stays, and
-- no null pointer is used.
pub push_back-Holds :
    (node : ℕ) (xs : List ℕ) (l : Clist)
    → Holds l xs
    → (node == 0) ≡ false
    → IsOther node xs
    → Leaves (push_back node l) (xs ++ node ∷ [])
unfolding push_back push_only
push_back-Holds node [] l w h o = rw (w.heads) (rw h (push_only-Holds node l h))
push_back-Holds node (x ∷ xs) l w h o =
    let filled : (l.prev x == 0) ≡ false = rw (w.links.0) (last_of-not_null x xs w.distinct) in
    rw (head_of l x xs w) (rw h (rw (w.heads) (rw filled (pushed_back-Holds node x xs l w h o))))
