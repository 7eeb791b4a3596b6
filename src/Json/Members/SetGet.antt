-- ===== src/Json/Members/SetGet.antt =====
-- `get` after `set`: at the same path, and at another member.
use cocoyaxi.Base.{
  true, false, none, some, List, [], ◌∷◌, if◌then◌else◌, Option, Option-cases, Bool, Bytes, ◌≡◌,
  refl, ap, ◌∙◌, Bool-cases, inl, inr,
}
use cocoyaxi.Json.Value.{Json, null, object, Fields, end, field}
use cocoyaxi.Json.Print.{c_str}
use cocoyaxi.Json.Pairs
use cocoyaxi.Json.Pairs.{same_bytes, strcmp_eq, has_field, find_field, assign_field}
use cocoyaxi.Json.Members.{
  is_null, Step, at_key, or_null, get_one, get, or_more, set_key, set_one, set, with_member,
}
use cocoyaxi.Json.Members.Finds.{c_str_twice, strcmp_both}
use cocoyaxi.Json.Members.Placed.{set_one-Placed}

-- No index of the path meets an array with no elements.
abbrev pub open_at : (Json → Bool) → Option Json → Bool
open_at more none = false
open_at more (some r) = more r

abbrev pub is_open : List Step → Json → Bool
is_open [] j = true
is_open (s ∷ ss) j = open_at (is_open ss) (get_one s j)

-- What is set at a step is no null.
abbrev NotNull : List Step → Json → Type 0
NotNull [] r = Unit
NotNull (s ∷ ss) r = is_null r ≡ false

get-set_placed :
    (p : List Step) (v j : Json)
    → is_open p j ≡ true
    → (r : Json) × (set p v j ≡ some r) × (get p r ≡ some v) × NotNull p r
unfolding get set
get-set_placed [] v j h = (v, refl, refl, tt)
get-set_placed (s ∷ []) v j h = elim (Option-cases (get_one s j)) [
  | inl e ↦ let never : false ≡ true = rw e at h in cc
  | inr (x, e) ↦
      let (r, done, there, full) = set_one-Placed s (λ w. some v) j x v e refl in
      let got : or_more (λ w. some w) (some v) ≡ some v = elim (Bool-cases (is_null v)) [
        | inl n ↦ rw n refl
        | inr n ↦ rw n refl
      ] in
      (r, done, rw there got, full)
]
get-set_placed (s ∷ s' ∷ ss) v j h = elim (Option-cases (get_one s j)) [
  | inl e ↦ let never : false ≡ true = rw e at h in cc
  | inr (x, e) ↦
      let behind : is_open (s' ∷ ss) x ≡ true = rw e at h in
      let (y, made, got, some_y) = get-set_placed (s' ∷ ss) v x behind in
      let (r, done, there, full) = set_one-Placed s (set (s' ∷ ss) v) j x y e made in
      (r, done, rw there (rw some_y got), full)
]

-- If no index of the path meets an array with no elements, `set` returns, and what is set is got there,
-- whatever else was in its way before: a value that is no container of the right kind is replaced, an
-- array is filled with nulls, and a member is added.
pub get-set :
    (p : List Step) (v j : Json)
    → is_open p j ≡ true
    → (r : Json) × (set p v j ≡ some r) × (get p r ≡ some v)
get-set p v j h = let (r, done, got, _) = get-set_placed p v j h in (r, done, got)

find-assign_other :
    (f : Fields) (key other : Bytes) (g : Json → Json)
    → strcmp_eq other key ≡ false
    → find_field (assign_field f key g) other ≡ find_field f other
unfolding find_field assign_field
find-assign_other end key other g e = refl
find-assign_other (field k v f) key other g e = elim (Bool-cases (strcmp_eq key k)) [
  | inl here ↦ rw here (elim (Bool-cases (strcmp_eq other k)) [
    | inl both ↦ let same = strcmp_both other key k both here in cc (same, e)
    | inr unlike ↦ rw unlike refl
  ])
  | inr on ↦
      rw on (ap (λ r. if strcmp_eq other k then some v else r) (find-assign_other f key other g e))
]

find-push_back_other :
    (f : Fields) (key other : Bytes) (x : Json)
    → strcmp_eq other key ≡ false
    → find_field (Pairs.push_back f key x) other ≡ find_field f other
unfolding find_field Pairs.push_back
find-push_back_other end key other x e = rw e refl
find-push_back_other (field k v f) key other x e =
    ap (λ r. if strcmp_eq other k then some v else r) (find-push_back_other f key other x e)

strcmp_eq-c_str' : (a b : Bytes) → strcmp_eq a (c_str b) ≡ strcmp_eq a b
unfolding strcmp_eq
strcmp_eq-c_str' a b = ap (same_bytes (c_str a)) (c_str_twice b)

with_member-some :
    (put : Json → Fields) (o : Option Json) (r : Json)
    → with_member put o ≡ some r
    → (y : Json) × (r ≡ object (put y))
with_member-some put none r e = cc
with_member-some put (some y) r e = (y, cc e)

set_key-get_other :
    (f : Fields) (key other : Bytes) (g : Json → Option Json) (r : Json)
    → strcmp_eq other key ≡ false
    → set_key key g (object f) ≡ some r
    → get_one (at_key other) r ≡ get_one (at_key other) (object f)
unfolding set_key get_one
set_key-get_other f key other g r e h = elim (Bool-cases (has_field f key)) [
  | inl there ↦
      let (y, same) =
        with_member-some (λ y. assign_field f key (λ x. y)) (g (or_null (find_field f key))) r
          (rw there at h) in
      rw same (rw (find-assign_other f key other (λ x. y) e) refl)
  | inr absent ↦
      let (y, same) =
        with_member-some (λ y. Pairs.push_back f (c_str key) y) (g null) r (rw absent at h) in
      let e' : strcmp_eq other (c_str key) ≡ false = strcmp_eq-c_str' other key ∙ e in
      rw same (rw (find-push_back_other f (c_str key) other y e') refl)
]

-- If no index behind a member meets an array with no elements, setting a value behind the member of an
-- object returns, and leaves what is got behind every member whose key is another C string as it was.
pub get-set_other :
    (f : Fields) (key other : Bytes) (p q : List Step) (v : Json)
    → strcmp_eq other key ≡ false
    → is_open (at_key key ∷ p) (object f) ≡ true
    → (r : Json) × (set (at_key key ∷ p) v (object f) ≡ some r)
      × (get (at_key other ∷ q) r ≡ get (at_key other ∷ q) (object f))
unfolding get
get-set_other f key other p q v e h =
    let (r, done, _) = get-set (at_key key ∷ p) v (object f) h in
    let set_there : set_key key (set p v) (object f) ≡ some r = (unfold set set_one in done) in
    (r, done, rw (set_key-get_other f key other (set p v) r e set_there) refl)
