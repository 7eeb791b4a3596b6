-- ===== src/Path.antt =====
-- File paths: src/path.cc and include/co/path.h, on systems other than Windows, with `memrchr` of
-- src/fastring.cc. A path is the list of its bytes.
pub mod Words
pub mod Clean
pub mod Normal
pub mod Splits
mod Tests
use cocoyaxi.Base.{
  ℕ, zero, suc, ◌+◌, Bool, true, false, ◌&&◌, ◌||◌, not, Option, none, some, List, [], ◌∷◌, ◌++◌,
  ◌==◌, leb, ltb, if◌then◌else◌, Bytes, length, take, drop, reverse_aux,
}

abbrev pub dot_path : Bytes
dot_path = b'.' ∷ []

abbrev pub is_slash : ℕ → Bool
is_slash c = c == b'/'

-- `i == n || s[i] == '/'`.
abbrev pub ends_at : Bytes → Bool
ends_at [] = true
ends_at (c ∷ s) = is_slash c

-- `s[i] == '.' && (i + 1 == n || s[i + 1] == '/')`.
abbrev pub dot_ends : Bytes → Bool
dot_ends [] = false
dot_ends (c ∷ s) = c == b'.' && ends_at s

-- `r` up to `p`, last byte first: `for (--p; p > dotdot && r[p] != '/'; --p);`.
abbrev pub backtrack : ℕ → Bytes → Bytes
backtrack dotdot [] = []
backtrack dotdot (c ∷ r) =
    let further = backtrack dotdot r in
    if ltb dotdot (length r) && not (is_slash c) then further else r

-- `r[p++] = '/'` if something is before it.
abbrev pub add_slash : Bool → Bytes → Bytes
add_slash rooted r = if length r == (if rooted then 1 else 0) then r else b'/' ∷ r

-- `r[p++] = '.'; r[p++] = '.'; dotdot = p`.
abbrev pub put_dots : Bytes → Bytes × ℕ
put_dots r = (b'.' ∷ b'.' ∷ r, suc (suc (length r)))

-- A `..` element: the buffer and `dotdot`.
unfoldable pub parent : Bool → Bytes → ℕ → Bytes × ℕ
parent rooted r dotdot =
    if ltb dotdot (length r)
    then (backtrack dotdot r, dotdot)
    else if not rooted
    then put_dots (add_slash false r)
    else (r, dotdot)

-- The loop that copies an element: what is left of the path, and the buffer.
abbrev pub copy : Bytes → Bytes → Bytes × Bytes
copy [] r = ([], r)
copy (c ∷ s) r = if is_slash c then (c ∷ s, r) else copy s (c ∷ r)

-- The loop of `clean` over the rest of the path.
unfoldable pub clean_from : ℕ → Bool → Bytes → Bytes → ℕ → Bytes
clean_from zero rooted s r dotdot = r
clean_from (suc rounds) rooted [] r dotdot = r
clean_from (suc rounds) rooted (c ∷ s) r dotdot =
    let skipped = clean_from rounds rooted s r dotdot in
    let up = parent rooted r dotdot in
    let climbed = clean_from rounds rooted (drop 1 s) up.0 up.1 in
    let copied = copy (c ∷ s) (add_slash rooted r) in
    let element = clean_from rounds rooted copied.0 copied.1 dotdot in
    if is_slash c || c == b'.' && ends_at s
    then skipped
    else if c == b'.' && dot_ends s
    then climbed
    else element

abbrev pub dot_if_empty : Bytes → Bytes
dot_if_empty [] = dot_path
dot_if_empty (c ∷ r) = reverse_aux (c ∷ r) []

unfoldable pub clean : Bytes → Bytes
clean [] = dot_path
clean (c ∷ s) =
    if is_slash c
    then dot_if_empty (clean_from (length s) true s (c ∷ []) 1)
    else dot_if_empty (clean_from (suc (length s)) false (c ∷ s) [] 0)

-- What is behind the last slash, and what is before it with the slash, if there is one.
abbrev pub memrchr : Bytes → Option (Bytes × Bytes)
memrchr [] = none
memrchr (c ∷ s) = elim (memrchr s) [
  | some (before, behind) ↦ some (c ∷ before, behind)
  | none ↦ if is_slash c then some (c ∷ [], s) else none
]

unfoldable pub split : Bytes → Bytes × Bytes
split s = elim (memrchr s) [ some (before, behind) ↦ (before, behind) | none ↦ ([], s) ]

unfoldable pub dir : Bytes → Bytes
dir s = elim (memrchr s) [ some (before, behind) ↦ clean before | none ↦ dot_path ]

-- The loops of `base` run from the end, here over the reversed path.
abbrev pub skip_slashes : Bytes → Bytes
skip_slashes [] = []
skip_slashes (c ∷ s) = if is_slash c then skip_slashes s else c ∷ s

abbrev pub to_slash : Bytes → Bytes → Bytes
to_slash [] acc = acc
to_slash (c ∷ s) acc = if is_slash c then acc else to_slash s (c ∷ acc)

abbrev pub base_of : Bytes → Bytes
base_of [] = b'/' ∷ []
base_of (c ∷ s) = to_slash (c ∷ s) []

unfoldable pub base : Bytes → Bytes
base [] = dot_path
base (c ∷ s) = base_of (skip_slashes (reverse_aux (c ∷ s) []))

abbrev pub to_dot : Bytes → Bytes → Bytes
to_dot [] acc = []
to_dot (c ∷ s) acc =
    let further = to_dot s (c ∷ acc) in
    if is_slash c then [] else if c == b'.' then c ∷ acc else further

unfoldable pub ext : Bytes → Bytes
ext s = to_dot (reverse_aux s []) []

-- `xx::join`: an element that is not empty is put behind, with a slash.
abbrev pub join_onto : Bytes → List Bytes → Bytes
join_onto f [] = f
join_onto f ([] ∷ ss) = join_onto f ss
join_onto f ((c ∷ s) ∷ ss) = join_onto (f ++ (c ∷ s) ++ b'/' ∷ []) ss

abbrev pub clean_some : Bytes → Bytes
clean_some [] = []
clean_some (c ∷ v) = clean (c ∷ v)

unfoldable pub join : List Bytes → Bytes
join ss = clean_some (join_onto [] ss)
