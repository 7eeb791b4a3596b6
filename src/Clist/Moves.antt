-- ===== src/Clist/Moves.antt =====
-- `move_front` at any node of a list.
use cocoyaxi.Base.{ℕ, true, false, List, [], ◌∷◌, ◌++◌, append-nil, ◌==◌, ◌≡◌, refl, subst, ==_refl}
use cocoyaxi.Clist.{Clist, put, move_front}
use cocoyaxi.Clist.Segments.{
  last_of, Segment, IsOther, IsDistinct, Holds, put_same, put_next-Segment, put_last-Segment,
  split-Segment,
}
use cocoyaxi.Clist.Ends.{Leaves, last_of-not_null, pushed_front, IsOther-append}
use cocoyaxi.Clist.Middle.{
  cut-Middle, middle-IsOther, last_of-middle, IsOther-right, IsDistinct-left, IsDistinct-right,
}

-- The last node, which the circle of `prev` closes already.
last_moved :
    (a : ℕ) (before : List ℕ) (node : ℕ) (l : Clist)
    → Holds l ((a ∷ before) ++ node ∷ [])
    → Holds
        (record { head = node; prev = l.prev; next = put (put l.next (last_of a before) 0) node a })
        (node ∷ a ∷ before)
last_moved a before node l w =
    let d = w.distinct in
    let last = last_of 0 ((a ∷ before) ++ node ∷ []) in
    let parts = split-Segment l.prev l.next last (a ∷ before) (node ∷ []) 0 w.links in
    let left : IsDistinct (a ∷ before) = IsDistinct-left (a ∷ before) (node ∷ []) d in
    let right : IsDistinct (node ∷ []) = IsDistinct-right (a ∷ before) (node ∷ []) d in
    let other : IsOther node (a ∷ before) = middle-IsOther (a ∷ before) node [] d in
    let n = put l.next (last_of a before) 0 in
    let cut : Segment l.prev n last (a ∷ before) 0 =
      put_last-Segment l.prev l.next last a before node 0 left parts.0 in
    let same : last ≡ node = last_of-middle 0 (a ∷ before) node [] in
    record {
      heads = refl;
      links = (
        parts.1.0,
        put_same n node a,
        subst (λ q. Segment l.prev (put n node a) q (a ∷ before) 0) same
            (put_next-Segment l.prev n node a last (a ∷ before) 0 other cut),
      );
      distinct = (right.0, other, left);
    }

-- A node anywhere in the list becomes its first, the others keep their order, and no null pointer is
-- used.
pub move_front-Holds :
    (before : List ℕ) (node : ℕ) (after : List ℕ) (l : Clist)
    → Holds l (before ++ node ∷ after)
    → Leaves (move_front node l) (node ∷ (before ++ after))
unfolding move_front
move_front-Holds [] node after l w =
    let here : (node == l.head) ≡ true = rw (w.heads) (==_refl node) in rw here w
move_front-Holds (a ∷ before) node [] l w =
    let d = w.distinct in
    let last = last_of 0 ((a ∷ before) ++ node ∷ []) in
    let parts = split-Segment l.prev l.next last (a ∷ before) (node ∷ []) 0 w.links in
    let other : (node == a) ≡ false = (IsOther-right a before (node ∷ []) d.1).0 in
    let nonnull : (node == 0) ≡ false = (IsDistinct-right (a ∷ before) (node ∷ []) d).0 in
    let left : IsDistinct (a ∷ before) = IsDistinct-left (a ∷ before) (node ∷ []) d in
    rw (append-nil (a ∷ before)) (
      rw (w.heads) (
        rw (other, nonnull)
          (rw (parts.1.0, parts.1.1)
            (rw (last_of-not_null a before left) (last_moved a before node l w)))))
move_front-Holds (a ∷ before) node (b ∷ after) l w =
    let m = cut-Middle a before node b after l w in
    let d = w.distinct in
    let right : IsDistinct (node ∷ b ∷ after) =
      IsDistinct-right (a ∷ before) (node ∷ b ∷ after) d in
    let others : IsOther node ((a ∷ before) ++ b ∷ after) =
      IsOther-append node (a ∷ before) (b ∷ after) (middle-IsOther (a ∷ before) node (b ∷ after) d)
        right.1 in
    let distinct : IsDistinct (node ∷ a ∷ (before ++ b ∷ after)) =
      (m.nonnull, others, (m.without).distinct) in
    rw (w.heads) (
      rw (m.other, m.nonnull)
        (rw (m.points_back, m.points_on)
          (rw (m.behind_nonnull, m.before_nonnull)
            (pushed_front node a (before ++ b ∷ after) _ m.without distinct))))
