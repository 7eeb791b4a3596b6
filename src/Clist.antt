-- ===== src/Clist.antt =====
-- The intrusive list of include/co/clist.h: nodes that the caller owns are linked through memory,
-- forward to null and backward in a circle. A pointer is an address, with 0 as null; `none` is the
-- use of a field of the null pointer.
pub mod Segments
pub mod Ends
pub mod Middle
pub mod Moves
pub mod Back
mod Tests
use cocoyaxi.Base.{ℕ, Bool, true, false, Option, none, some, ◌==◌, if◌then◌else◌, ◌>>=◌}

-- The field `_head`, and the fields `prev` and `next` of all nodes.
pub record Clist : Type 0 where
  pub head : ℕ
  pub prev : ℕ → ℕ
  pub next : ℕ → ℕ

-- An assignment to a field of the node at `a`.
abbrev pub put : (ℕ → ℕ) → ℕ → ℕ → ℕ → ℕ
put f a v x = if x == a then v else f x

-- A node that fields are used of.
abbrev pub node_at : ℕ → Clist → Option Clist
node_at a l = if a == 0 then none else some l

unfoldable pub front : Clist → ℕ
front l = l.head

unfoldable pub back : Clist → ℕ
back l = if l.head == 0 then 0 else l.prev l.head

unfoldable pub empty : Clist → Bool
empty l = l.head == 0

unfoldable pub clear : Clist → Clist
clear l = record l { head = 0 }

-- The branch of both `push` operations on an empty list.
unfoldable pub push_only : ℕ → Clist → Clist
push_only node l = record { head = node; prev = put l.prev node node; next = put l.next node 0 }

unfoldable pub push_front : ℕ → Clist → Option Clist
push_front node l =
    if l.head == 0
    then node_at node (push_only node l)
    else node_at node (record {
      head = node;
      prev = put (put l.prev node (l.prev l.head)) l.head node;
      next = put l.next node l.head;
    })

unfoldable pub push_back : ℕ → Clist → Option Clist
push_back node l = if l.head == 0 then node_at node (push_only node l) else (do
  l' ← node_at node (record l {
    prev = put (put l.prev node (l.prev l.head)) l.head node;
    next = put (put l.next node 0) (l.prev l.head) node;
  })
  node_at (l.prev l.head) l')

-- The head, which is no longer in the list, and the list.
unfoldable pub pop_front : Clist → ℕ × Clist
pop_front l = if l.head == 0 then (l.head, l) else (
  l.head,
  record l {
    head = l.next l.head;
    prev = if l.next l.head == 0 then l.prev else put l.prev (l.next l.head) (l.prev l.head);
  },
)

-- The node behind `node`, or the head.
abbrev pub behind : ℕ → Clist → ℕ
behind node l = if l.next node == 0 then l.head else l.next node

unfoldable pub erase : ℕ → Clist → Option Clist
erase node l =
    if node == l.head
    then node_at l.head (record l {
      head = l.next l.head;
      prev = if l.next l.head == 0 then l.prev else put l.prev (l.next l.head) (l.prev node);
    })
    else (do
      l' ← node_at node (record l {
        prev = put l.prev (behind node l) (l.prev node);
        next = put l.next (l.prev node) (l.next node);
      })
      node_at (l.prev node) l')

unfoldable pub pop_back : Clist → Option (ℕ × Clist)
pop_back l = if back l == 0 then some (back l, l) else (do l' ← erase (back l) l; some (back l, l'))

unfoldable pub move_front : ℕ → Clist → Option Clist
move_front node l = if node == l.head then some l else (do
  l' ← node_at node (record {
    head = node;
    prev =
        if l.next node == 0
        then l.prev
        else put
            (put (put l.prev (l.next node) (l.prev node)) node
              (put l.prev (l.next node) (l.prev node) l.head))
            l.head node;
    next = put (put l.next (l.prev node) (l.next node)) node l.head;
  })
  node_at (l.prev node) l')

-- Behind the head or another node, to the end.
unfoldable pub move_back : ℕ → Clist → Option Clist
move_back node l =
    if node == l.prev l.head
    then node_at l.head l
    else if node == l.head
    then (do
      l' ←
          node_at l.head
            (record l { head = l.next l.head; next = put (put l.next (l.prev node) node) node 0 })
      node_at (l.prev node) l')
    else (do
      l' ← node_at l.head (record l {
        prev =
            put
              (put (put l.prev (l.next node) (l.prev node)) node
                (put l.prev (l.next node) (l.prev node) l.head))
              l.head node;
        next =
            put (put (put l.next (l.prev node) (l.next node)) node 0)
              (put l.prev (l.next node) (l.prev node) l.head) node;
      })
      l'' ← node_at (l.prev node) l'
      node_at (l.next node) l'')

-- Two lists whose nodes are in the same memory.
unfoldable pub swap : ℕ × ℕ → ℕ × ℕ
swap (head, head') = (head', head)
