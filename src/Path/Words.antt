-- ===== src/Path/Words.antt =====
-- The shortest equivalent of a path, given by its elements: what `clean` is compared with.
use cocoyaxi.Base.{
  ℕ, Bool, true, false, ◌&&◌, List, [], ◌∷◌, ◌++◌, ◌==◌, if◌then◌else◌, Bytes, length, drop, ◌≤◌,
  arith, ◌≡◌, refl, sym, ap, ◌∙◌, Bool-cases, inl, inr,
}
use cocoyaxi.Path.{is_slash, ends_at, dot_ends, dot_path}

abbrev pub dots : Bytes
dots = b'.' ∷ b'.' ∷ []

abbrev pub is_nil : Bytes → Bool
is_nil [] = true
is_nil (c ∷ w) = false

abbrev pub is_dot : Bytes → Bool
is_dot [] = false
is_dot (c ∷ w) = c == b'.' && is_nil w

abbrev pub is_dots : Bytes → Bool
is_dots [] = false
is_dots (c ∷ w) = c == b'.' && is_dot w

abbrev pub onto : ℕ → List Bytes → List Bytes
onto c [] = (c ∷ []) ∷ []
onto c (w ∷ ws) = (c ∷ w) ∷ ws

-- The elements between the slashes, empty ones too.
abbrev pub words : Bytes → List Bytes
words [] = [] ∷ []
words (c ∷ s) = let ws = words s in if is_slash c then [] ∷ ws else onto c ws

-- A `..` takes off the element before it, unless that is itself a `..`; at the root it does nothing.
abbrev pub up : Bool → List Bytes → List Bytes
up rooted [] = if rooted then [] else dots ∷ []
up rooted (w ∷ st) = if is_dots w then dots ∷ w ∷ st else st

-- One more element, with the last one at the head of the list.
abbrev pub enter : Bool → List Bytes → Bytes → List Bytes
enter rooted st w =
    if is_nil w then st else if is_dot w then st else if is_dots w then up rooted st else w ∷ st

abbrev pub resolve : Bool → List Bytes → List Bytes → List Bytes
resolve rooted [] st = st
resolve rooted (w ∷ ws) st = resolve rooted ws (enter rooted st w)

abbrev pub joined : List Bytes → Bytes
joined [] = []
joined (w ∷ []) = w
joined (w ∷ w' ∷ st) = joined (w' ∷ st) ++ b'/' ∷ w

-- The text of a path with these elements, the last one at the head.
abbrev pub shown : Bool → List Bytes → Bytes
shown true st = b'/' ∷ joined st
shown false [] = dot_path
shown false (w ∷ st) = joined (w ∷ st)

abbrev pub starts_at_root : Bytes → Bool
starts_at_root [] = false
starts_at_root (c ∷ s) = is_slash c

abbrev pub elements : Bytes → List Bytes
elements s = resolve (starts_at_root s) (words s) []

-- The first element, and what is behind it.
abbrev pub word : Bytes → Bytes
word [] = []
word (c ∷ s) = let w = word s in if is_slash c then [] else c ∷ w

abbrev pub after : Bytes → Bytes
after [] = []
after (c ∷ s) = let s' = after s in if is_slash c then c ∷ s else s'

abbrev more : Bytes → List Bytes
more [] = []
more (c ∷ s) = words s

words_cons : (s : Bytes) → words s ≡ word s ∷ more (after s)
words_cons [] = refl
words_cons (c ∷ s) = elim (Bool-cases (is_slash c)) [
  | inl e ↦ rw e refl
  | inr e ↦ rw e (rw (words_cons s) refl)
]

resolve-after :
    (rooted : Bool) (s : Bytes) (st : List Bytes)
    → resolve rooted (words (after s)) st ≡ resolve rooted (more (after s)) st
resolve-after rooted [] st = refl
resolve-after rooted (c ∷ s) st = elim (Bool-cases (is_slash c)) [
  | inl e ↦ rw e (rw e refl)
  | inr e ↦ rw e (resolve-after rooted s st)
]

-- The elements are taken one by one.
pub resolve-words :
    (rooted : Bool) (s : Bytes) (st : List Bytes)
    → resolve rooted (words s) st ≡ resolve rooted (words (after s)) (enter rooted st (word s))
resolve-words rooted s st =
    ap (λ ws. resolve rooted ws st) (words_cons s)
    ∙ sym (resolve-after rooted s (enter rooted st (word s)))

pub length-after : (s : Bytes) → length (after s) ≤ length s
length-after [] = omega arith
length-after (c ∷ s) = elim (Bool-cases (is_slash c)) [
  | inl e ↦ rw e (omega arith)
  | inr e ↦ rw e (omega (arith, length-after s))
]

pub ends_at-word : (s : Bytes) → is_nil (word s) ≡ ends_at s
ends_at-word [] = refl
ends_at-word (c ∷ s) = elim (Bool-cases (is_slash c)) [ inl e ↦ rw e refl | inr e ↦ rw e refl ]

pub dot_ends-word : (s : Bytes) → is_dot (word s) ≡ dot_ends s
dot_ends-word [] = refl
dot_ends-word (c ∷ s) = elim (Bool-cases (is_slash c)) [
  | inl e ↦ ground arith
  | inr e ↦ rw e (ap (λ b. c == b'.' && b) (ends_at-word s))
]

pub ends_at-after : (s : Bytes) → ends_at s ≡ true → (word s ≡ []) × (after s ≡ s)
ends_at-after [] h = (refl, refl)
ends_at-after (c ∷ s) h = rw h (refl, refl)

resolve_next :
    (rooted : Bool) (c : ℕ) (s : Bytes) (st : List Bytes)
    → is_slash c ≡ false
    → resolve rooted (words (c ∷ s)) st
      ≡ resolve rooted (words (after s)) (enter rooted st (c ∷ word s))
resolve_next rooted c s st e = resolve-words rooted (c ∷ s) st ∙ rw e refl

pub resolve_dot :
    (rooted : Bool) (c : ℕ) (s : Bytes) (st : List Bytes)
    → is_slash c ≡ false
    → (c == b'.' && ends_at s) ≡ true
    → resolve rooted (words (c ∷ s)) st ≡ resolve rooted (words s) st
resolve_dot rooted c s st e f =
    let (nothing, same) = ends_at-after s (ground arith) in
    let one : is_dot (c ∷ word s) ≡ true = ap (λ b. c == b'.' && b) (ends_at-word s) ∙ f in
    resolve_next rooted c s st e ∙ rw one (rw same refl)

drop-after : (s : Bytes) → dot_ends s ≡ true → after s ≡ drop 1 s
drop-after [] h = absurd (cc)
drop-after (c ∷ s) h =
    let stays : is_slash c ≡ false = ground arith in rw stays (ends_at-after s (ground arith)).1

pub resolve_dots :
    (rooted : Bool) (c : ℕ) (s : Bytes) (st : List Bytes)
    → is_slash c ≡ false
    → (c == b'.' && ends_at s) ≡ false
    → (c == b'.' && dot_ends s) ≡ true
    → resolve rooted (words (c ∷ s)) st ≡ resolve rooted (words (drop 1 s)) (up rooted st)
resolve_dots rooted c s st e f g =
    let one : is_dot (c ∷ word s) ≡ false = ap (λ b. c == b'.' && b) (ends_at-word s) ∙ f in
    let two : is_dots (c ∷ word s) ≡ true = ap (λ b. c == b'.' && b) (dot_ends-word s) ∙ g in
    resolve_next rooted c s st e ∙ rw one (rw two (rw (drop-after s (ground arith)) refl))

pub resolve_name :
    (rooted : Bool) (c : ℕ) (s : Bytes) (st : List Bytes)
    → is_slash c ≡ false
    → (c == b'.' && ends_at s) ≡ false
    → (c == b'.' && dot_ends s) ≡ false
    → (resolve rooted (words (c ∷ s)) st ≡ resolve rooted (words (after s)) ((c ∷ word s) ∷ st))
      × (is_dot (c ∷ word s) ≡ false)
      × (is_dots (c ∷ word s) ≡ false)
resolve_name rooted c s st e f g =
    let one : is_dot (c ∷ word s) ≡ false = ap (λ b. c == b'.' && b) (ends_at-word s) ∙ f in
    let two : is_dots (c ∷ word s) ≡ false = ap (λ b. c == b'.' && b) (dot_ends-word s) ∙ g in
    (resolve_next rooted c s st e ∙ rw one (rw two refl), one, two)
