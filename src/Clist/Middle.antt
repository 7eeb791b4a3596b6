-- ===== src/Clist/Middle.antt =====
-- `erase` at any node of a list, and `pop_back`.
use cocoyaxi.Base.{
  ℕ, false, Option, none, some, List, [], ◌∷◌, ◌++◌, append-nil, ◌==◌, ◌>>=◌, ◌≡◌, refl, sym, ◌∙◌,
  subst, ==_refl,
}
use cocoyaxi.Clist.{Clist, put, back, erase, pop_back}
use cocoyaxi.Clist.Segments.{
  last_of, Segment, IsOther, IsDistinct, Holds, other_sym, put_prev-Segment, put_next-Segment,
  put_first-Segment, put_last-Segment, join-Segment, split-Segment,
}
use cocoyaxi.Clist.Ends.{Leaves, popped, last_of-not_null}

IsOther-left : (a : ℕ) (xs ys : List ℕ) → IsOther a (xs ++ ys) → IsOther a xs
IsOther-left a [] ys o = tt
IsOther-left a (x ∷ xs) ys o = (o.0, IsOther-left a xs ys o.1)

pub IsOther-right : (a : ℕ) (xs ys : List ℕ) → IsOther a (xs ++ ys) → IsOther a ys
IsOther-right a [] ys o = o
IsOther-right a (x ∷ xs) ys o = IsOther-right a xs ys o.1

IsOther-without :
    (a : ℕ) (xs : List ℕ) (y : ℕ) (ys : List ℕ) → IsOther a (xs ++ y ∷ ys) → IsOther a (xs ++ ys)
IsOther-without a [] y ys o = o.1
IsOther-without a (x ∷ xs) y ys o = (o.0, IsOther-without a xs y ys o.1)

pub IsDistinct-left : (xs ys : List ℕ) → IsDistinct (xs ++ ys) → IsDistinct xs
IsDistinct-left [] ys d = tt
IsDistinct-left (x ∷ xs) ys d = (d.0, IsOther-left x xs ys d.1, IsDistinct-left xs ys d.2)

pub IsDistinct-right : (xs ys : List ℕ) → IsDistinct (xs ++ ys) → IsDistinct ys
IsDistinct-right [] ys d = d
IsDistinct-right (x ∷ xs) ys d = IsDistinct-right xs ys d.2

IsDistinct-without :
    (xs : List ℕ) (y : ℕ) (ys : List ℕ) → IsDistinct (xs ++ y ∷ ys) → IsDistinct (xs ++ ys)
IsDistinct-without [] y ys d = d.2
IsDistinct-without (x ∷ xs) y ys d =
    (d.0, IsOther-without x xs y ys d.1, IsDistinct-without xs y ys d.2)

-- The node in the middle is other than those before it, and the last of those than all behind.
pub middle-IsOther : (xs : List ℕ) (y : ℕ) (ys : List ℕ) → IsDistinct (xs ++ y ∷ ys) → IsOther y xs
middle-IsOther [] y ys d = tt
middle-IsOther (x ∷ xs) y ys d =
    (other_sym x y (IsOther-right x xs (y ∷ ys) d.1).0, middle-IsOther xs y ys d.2)

before-IsOther : (x : ℕ) (xs ys : List ℕ) → IsDistinct ((x ∷ xs) ++ ys) → IsOther (last_of x xs) ys
before-IsOther x [] ys d = d.1
before-IsOther x (x' ∷ xs) ys d = before-IsOther x' xs ys d.2

pub last_of-middle :
    (p : ℕ) (xs : List ℕ) (y : ℕ) (ys : List ℕ) → last_of p (xs ++ y ∷ ys) ≡ last_of y ys
last_of-middle p [] y ys = refl
last_of-middle p (x ∷ xs) y ys = last_of-middle x xs y ys

-- The links without `node`, where `q` is what it pointed on to.
module _ (prev next : ℕ → ℕ) (a : ℕ) (before : List ℕ) (node : ℕ) where
  cut_last :
      (l : ℕ)
      → IsDistinct (a ∷ before)
      → Segment prev next l (a ∷ before) node
      → Segment
          (put prev a (last_of a before))
          (put next (last_of a before) 0)
          (last_of a before)
          (a ∷ before)
          0
  cut_last l d s =
      put_first-Segment prev (put next (last_of a before) 0) l (last_of a before) a before 0 d.1
        (put_last-Segment prev next l a before node 0 d s)

  cut_middle :
      (l b : ℕ) (after : List ℕ)
      → IsDistinct ((a ∷ before) ++ b ∷ after)
      → Segment prev next l (a ∷ before) node
      → Segment prev next node (b ∷ after) 0
      → Segment
          (put prev b (last_of a before))
          (put next (last_of a before) b)
          l
          ((a ∷ before) ++ b ∷ after)
          0
  cut_middle l b after d s t =
      let p = last_of a before in
      let n = put next p b in
      let other : IsOther b (a ∷ before) = middle-IsOther (a ∷ before) b after d in
      join-Segment (put prev b p) n l (a ∷ before) (b ∷ after) 0
        (put_prev-Segment prev n b p l (a ∷ before) b other (
          put_last-Segment prev next l a before node b (IsDistinct-left (a ∷ before) (b ∷ after) d)
            s))
        (put_first-Segment prev n node p b after 0 (IsDistinct-right (a ∷ before) (b ∷ after) d).1 (
          put_next-Segment prev next p b node (b ∷ after) 0 (before-IsOther a before (b ∷ after) d)
            t))

-- A node between others, and the list without it.
pub record Middle (a : ℕ) (before : List ℕ) (node b : ℕ) (after : List ℕ) (l : Clist) : Type 0 where
  pub other : (node == a) ≡ false
  pub nonnull : (node == 0) ≡ false
  pub points_back : l.prev node ≡ last_of a before
  pub points_on : l.next node ≡ b
  pub behind_nonnull : (b == 0) ≡ false
  pub before_nonnull : (last_of a before == 0) ≡ false
  pub without :
      Holds
        (record {
          head = a;
          prev = put l.prev b (last_of a before);
          next = put l.next (last_of a before) b;
        })
        ((a ∷ before) ++ b ∷ after)

pub cut-Middle :
    (a : ℕ) (before : List ℕ) (node b : ℕ) (after : List ℕ) (l : Clist)
    → Holds l ((a ∷ before) ++ node ∷ b ∷ after)
    → Middle a before node b after l
cut-Middle a before node b after l w =
    let d = w.distinct in
    let last = last_of 0 ((a ∷ before) ++ node ∷ b ∷ after) in
    let parts = split-Segment l.prev l.next last (a ∷ before) (node ∷ b ∷ after) 0 w.links in
    let right : IsDistinct (node ∷ b ∷ after) =
      IsDistinct-right (a ∷ before) (node ∷ b ∷ after) d in
    let left : IsDistinct (a ∷ before) = IsDistinct-left (a ∷ before) (node ∷ b ∷ after) d in
    let kept : IsDistinct ((a ∷ before) ++ b ∷ after) =
      IsDistinct-without (a ∷ before) node (b ∷ after) d in
    let same : last ≡ last_of 0 ((a ∷ before) ++ b ∷ after) =
      last_of-middle 0 (a ∷ before) node (b ∷ after)
      ∙ sym (last_of-middle 0 (a ∷ before) b after) in
    let p = last_of a before in
    record {
      other = (IsOther-right a before (node ∷ b ∷ after) d.1).0;
      nonnull = right.0;
      points_back = parts.1.0;
      points_on = parts.1.1;
      behind_nonnull = right.2.0;
      before_nonnull = last_of-not_null a before left;
      without = record {
        heads = refl;
        links =
            subst (λ q. Segment (put l.prev b p) (put l.next p b) q ((a ∷ before) ++ b ∷ after) 0)
              same (cut_middle l.prev l.next a before node last b after kept parts.0 parts.1.2);
        distinct = kept;
      };
    }

-- A node anywhere in the list is taken out, the others keep their order, and no null pointer is used.
pub erase-Holds :
    (before : List ℕ) (node : ℕ) (after : List ℕ) (l : Clist)
    → Holds l (before ++ node ∷ after)
    → Leaves (erase node l) (before ++ after)
unfolding erase
erase-Holds [] node after l w =
    rw (w.heads) (rw (==_refl node) (rw ((w.distinct).0) (popped node after l w)))
erase-Holds (a ∷ before) node [] l w =
    let d = w.distinct in
    let parts =
      split-Segment l.prev l.next (last_of 0 ((a ∷ before) ++ node ∷ [])) (a ∷ before) (node ∷ []) 0
        w.links in
    let other : (node == a) ≡ false = (IsOther-right a before (node ∷ []) d.1).0 in
    let nonnull : (node == 0) ≡ false = (IsDistinct-right (a ∷ before) (node ∷ []) d).0 in
    let left : IsDistinct (a ∷ before) = IsDistinct-left (a ∷ before) (node ∷ []) d in
    rw (append-nil (a ∷ before)) (
      rw (w.heads) (
        rw (other, nonnull)
          (rw (parts.1.0, parts.1.1)
            (rw (last_of-not_null a before left) (record {
              heads = refl;
              links = cut_last l.prev l.next a before node _ left parts.0;
              distinct = left;
            })))))
erase-Holds (a ∷ before) node (b ∷ after) l w =
    let d = w.distinct in
    let m = cut-Middle a before node b after l w in
    rw (w.heads) (
      rw (m.other, m.nonnull)
        (rw (m.points_back, m.points_on) (rw (m.behind_nonnull, m.before_nonnull) m.without)))

-- What `pop_back` took off, and what it left.
abbrev pub Pops : Option (ℕ × Clist) → ℕ → List ℕ → Type 0
Pops none node xs = ⊥
Pops (some r) node xs = (r.0 ≡ node) × Holds r.1 xs

taken :
    (node : ℕ) (xs : List ℕ) (o : Option Clist)
    → Leaves o xs
    → Pops (do l ← o; some (node, l)) node xs
taken node xs none h = h
taken node xs (some l) h = (refl, h)

pub back-last : (x : ℕ) (xs : List ℕ) (l : Clist) → Holds l (x ∷ xs) → back l ≡ last_of x xs
unfolding back
back-last x xs l w = rw (w.heads) (rw ((w.distinct).0) w.links.0)

back-end : (before : List ℕ) (node : ℕ) (l : Clist) → Holds l (before ++ node ∷ []) → back l ≡ node
back-end [] node l w = back-last node [] l w
back-end (a ∷ before) node l w =
    back-last a (before ++ node ∷ []) l w ∙ last_of-middle 0 (a ∷ before) node []

-- The last node is taken off and returned, and the others keep their order.
pub pop_back-Holds :
    (before : List ℕ) (node : ℕ) (l : Clist)
    → Holds l (before ++ node ∷ [])
    → Pops (pop_back l) node before
unfolding pop_back
pop_back-Holds before node l w =
    let nonnull : (node == 0) ≡ false = (IsDistinct-right before (node ∷ []) w.distinct).0 in
    let left : Leaves (erase node l) before =
      subst (Leaves (erase node l)) (append-nil before) (erase-Holds before node [] l w) in
    rw (back-end before node l w) (rw nonnull (taken node before (erase node l) left))
