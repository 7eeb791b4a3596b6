-- ===== src/Clist/Back.antt =====
-- `move_back` at any node of a list.
use cocoyaxi.Base.{
  ℕ, true, false, List, [], ◌∷◌, ◌++◌, append-nil, ◌==◌, ◌≡◌, refl, sym, ◌∙◌, subst, ==_refl,
}
use cocoyaxi.Clist.{Clist, put, move_back}
use cocoyaxi.Clist.Segments.{
  last_of, Segment, IsOther, IsDistinct, Holds, put_same, other_sym, last_of-IsOther,
  put_next-Segment, put_last-Segment, join-Segment,
}
use cocoyaxi.Clist.Ends.{
  Leaves, last_of-not_null, IsOther-append, IsDistinct-append, last_of-append, pushed_back-Holds,
  head_of,
}
use cocoyaxi.Clist.Middle.{cut-Middle, middle-IsOther, last_of-middle, IsDistinct-right}

-- The head, which is the last node's neighbour in the circle.
head_moved :
    (node b : ℕ) (after : List ℕ) (l : Clist)
    → Holds l (node ∷ b ∷ after)
    → Holds
        (record { head = b; prev = l.prev; next = put (put l.next (last_of b after) node) node 0 })
        ((b ∷ after) ++ node ∷ [])
head_moved node b after l w =
    let d = w.distinct in
    let n = put l.next (last_of b after) node in
    let kept : Segment l.prev (put n node 0) node (b ∷ after) node =
      put_next-Segment l.prev n node 0 node (b ∷ after) node d.1
        (put_last-Segment l.prev l.next node b after 0 node d.2 w.links.2) in
    record {
      heads = refl;
      links =
          subst (λ q. Segment l.prev (put n node 0) q ((b ∷ after) ++ node ∷ []) 0)
            (sym (last_of-append 0 (b ∷ after) node))
            (join-Segment l.prev (put n node 0) node (b ∷ after) (node ∷ []) 0 kept
              (w.links.0, put_same n node 0, tt));
      distinct = IsDistinct-append (b ∷ after) node d.2 d.0 d.1;
    }

last_stays :
    (x : ℕ) (xs : List ℕ) (node : ℕ) (l : Clist)
    → Holds l (x ∷ xs)
    → last_of x xs ≡ node
    → Leaves (move_back node l) (x ∷ xs)
unfolding move_back
last_stays x xs node l w e =
    let ends : (node == l.prev l.head) ≡ true =
      rw (w.heads) (rw (w.links.0) (rw e (==_refl node))) in
    rw ends (rw (head_of l x xs w) w)

-- A node anywhere in the list becomes its last, the others keep their order, and no null pointer is
-- used.
pub move_back-Holds :
    (before : List ℕ) (node : ℕ) (after : List ℕ) (l : Clist)
    → Holds l (before ++ node ∷ after)
    → Leaves (move_back node l) ((before ++ after) ++ node ∷ [])
move_back-Holds [] node [] l w = last_stays node [] node l w refl
move_back-Holds (a ∷ before) node [] l w =
    subst (λ ys. Leaves (move_back node l) (ys ++ node ∷ [])) (sym (append-nil (a ∷ before)))
      (last_stays a (before ++ node ∷ []) node l w (last_of-middle 0 (a ∷ before) node []))
move_back-Holds [] node (b ∷ after) l w =
    let d = w.distinct in
    let unlike : (node == last_of b after) ≡ false =
      other_sym node _ (last_of-IsOther node b after d.1) in
    unfold move_back in
    rw (w.heads) (
      rw (w.links.0) (
        rw (unlike, ==_refl node)
          (rw (d.0, last_of-not_null b after d.2) (rw (w.links.1) (head_moved node b after l w)))))
move_back-Holds (a ∷ before) node (b ∷ after) l w =
    let m = cut-Middle a before node b after l w in
    let d = w.distinct in
    let right : IsDistinct (node ∷ b ∷ after) =
      IsDistinct-right (a ∷ before) (node ∷ b ∷ after) d in
    let others : IsOther node ((a ∷ before) ++ b ∷ after) =
      IsOther-append node (a ∷ before) (b ∷ after) (middle-IsOther (a ∷ before) node (b ∷ after) d)
        right.1 in
    let end : l.prev a ≡ last_of b after =
      w.links.0 ∙ last_of-middle 0 (a ∷ before) node (b ∷ after) in
    let unlike : (node == l.prev a) ≡ false =
      rw end (other_sym node _ (last_of-IsOther node b after right.1)) in
    unfold move_back in
    rw (w.heads) (
      rw (unlike, m.other)
        (rw (d.0) (
          rw (m.points_back, m.points_on)
            (rw (m.behind_nonnull, m.before_nonnull)
              (pushed_back-Holds node a (before ++ b ∷ after) _ m.without m.nonnull others)))))
