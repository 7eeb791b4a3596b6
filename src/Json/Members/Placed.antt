-- ===== src/Json/Members/Placed.antt =====
-- A value that is set at one index or key (src/json.cc) is there.
use cocoyaxi.Base.{
  ℕ, zero, suc, ◌+◌, ◌-◌, ◌<◌, true, false, none, some, ltb, Option, Bytes, ◌≡◌, refl, sym, ap, ◌∙◌,
  arith, Bool-cases, inl, inr,
}
use cocoyaxi.Json.Value.{
  Json, null, bool, int, double, string, array, object, Items, nil, cons, Fields, end, field,
}
use cocoyaxi.Json.Print.{c_str}
use cocoyaxi.Json.Array
use cocoyaxi.Json.Pairs
use cocoyaxi.Json.Pairs.{same_bytes, strcmp_eq, has_field, find_field, assign_field}
use cocoyaxi.Json.Members.{
  is_null, Step, at_index, at_key, or_null, get_one, pad_nulls, set_index, set_key, set_one,
  set_element, with_member,
}
use cocoyaxi.Json.Members.Finds.{strcmp_same, c_str_twice, at-assign, at-push_null, size-push_back}

at-pad_nulls : (n : ℕ) (a : Items) (i : ℕ) → Array.at (pad_nulls n a) i ≡ Array.at a i
unfolding pad_nulls
at-pad_nulls zero a i = refl
at-pad_nulls (suc n) a i = at-pad_nulls n (Array.push_back a null) i ∙ at-push_null a i

size-pad_nulls : (n : ℕ) (a : Items) → Array.size (pad_nulls n a) ≡ n + Array.size a
unfolding pad_nulls
size-pad_nulls zero a = omega arith
size-pad_nulls (suc n) a =
    omega (arith, size-pad_nulls n (Array.push_back a null), size-push_back a null)

find-assign :
    (f : Fields) (key : Bytes) (g : Json → Json)
    → has_field f key ≡ true
    → or_null (find_field (assign_field f key g) key) ≡ g (or_null (find_field f key))
unfolding has_field find_field assign_field or_null
find-assign end key g e = cc
find-assign (field k v f) key g e = elim (Bool-cases (strcmp_eq key k)) [
  | inl here ↦ rw here (rw here refl)
  | inr on ↦
      let later : has_field f key ≡ true = rw on at e in rw on (rw on (find-assign f key g later))
]

find-push_back :
    (f : Fields) (key : Bytes) (x : Json)
    → has_field f key ≡ false
    → (find_field f key ≡ none) × (find_field (Pairs.push_back f (c_str key) x) key ≡ some x)
unfolding has_field find_field Pairs.push_back
find-push_back end key x e = (refl, rw (strcmp_same key (c_str key) (sym (c_str_twice key))) refl)
find-push_back (field k v f) key x e = elim (Bool-cases (strcmp_eq key k)) [
  | inl here ↦ let never : true ≡ false = rw here at e in cc
  | inr on ↦
      let later : has_field f key ≡ false = rw on at e in rw on (find-push_back f key x later)
]

-- The result has `y` at the step, and is not null.
abbrev pub Placed : Step → Json → Option Json → Type 0
Placed s y o = (j : Json) × (o ≡ some j) × (get_one s j ≡ some y) × (is_null j ≡ false)

set_element-Placed :
    (i : ℕ) (g : Json → Option Json) (a : Items) (y : Json)
    → i < Array.size a
    → g (Array.at a i) ≡ some y
    → Placed (at_index i) y (set_element i g a)
unfolding get_one is_null Array.assign Array.size
set_element-Placed i g nil y h e = absurd (omega arith)
set_element-Placed zero g (cons x a) y h e =
    rw e (_, refl, ap some (at-assign (cons x a) 0 (λ z. y) (unfold Array.size in h)), refl)
set_element-Placed (suc i) g (cons x a) y h e =
    rw e (_, refl, ap some (at-assign (cons x a) (suc i) (λ z. y) (unfold Array.size in h)), refl)

set_padded-Placed :
    (n i : ℕ) (g : Json → Option Json) (a : Items) (y : Json)
    → i < n + Array.size a
    → g (Array.at a i) ≡ some y
    → Placed (at_index i) y (set_element i g (pad_nulls n a))
set_padded-Placed n i g a y h e =
    set_element-Placed i g (pad_nulls n a) y (omega (arith, size-pad_nulls n a, h))
      (ap g (at-pad_nulls n a i) ∙ e)

fresh_index :
    (i : ℕ) (g : Json → Option Json) (y : Json)
    → g null ≡ some y
    → Placed (at_index i) y (set_element i g (pad_nulls (suc i) nil))
unfolding Array.at
fresh_index i g y e = set_padded-Placed (suc i) i g nil y (omega arith) e

fresh_key :
    (key : Bytes) (g : Json → Option Json) (y : Json)
    → g null ≡ some y
    → Placed (at_key key) y (with_member (λ z. field (c_str key) z end) (g null))
unfolding get_one is_null find_field or_null
fresh_key key g y e =
    rw e (_, refl, rw (strcmp_same key (c_str key) (sym (c_str_twice key))) refl, refl)

set_index-Placed :
    (i : ℕ) (g : Json → Option Json) (j x y : Json)
    → get_one (at_index i) j ≡ some x
    → g x ≡ some y
    → Placed (at_index i) y (set_index i g j)
unfolding set_index get_one
set_index-Placed i g (array nil) x y r e = cc
set_index-Placed i g (array (cons w a)) x y r e =
    let here : Array.at (cons w a) i ≡ x = cc r in
    let made : g (Array.at (cons w a) i) ≡ some y = ap g here ∙ e in
    elim (Bool-cases (ltb i (Array.size (cons w a)))) [
      | inl inside ↦ rw inside (set_element-Placed i g (cons w a) y (ground arith) made)
      | inr beyond ↦
          rw beyond
            (set_padded-Placed (suc i - Array.size (cons w a)) i g (cons w a) y (ground arith) made)
    ]
set_index-Placed i g null x y r e = fresh_index i g y (cc (r, e))
set_index-Placed i g (bool v) x y r e = fresh_index i g y (cc (r, e))
set_index-Placed i g (int v) x y r e = fresh_index i g y (cc (r, e))
set_index-Placed i g (double v) x y r e = fresh_index i g y (cc (r, e))
set_index-Placed i g (string v) x y r e = fresh_index i g y (cc (r, e))
set_index-Placed i g (object v) x y r e = fresh_index i g y (cc (r, e))

set_object-Placed :
    (key : Bytes) (g : Json → Option Json) (f : Fields) (y : Json)
    → g (or_null (find_field f key)) ≡ some y
    → Placed (at_key key) y (set_key key g (object f))
unfolding set_key get_one is_null
set_object-Placed key g f y e = elim (Bool-cases (has_field f key)) [
  | inl there ↦ rw (there, e) (_, refl, ap some (find-assign f key (λ z. y) there), refl)
  | inr absent ↦
      let (none_there, found) = find-push_back f key y absent in
      let made : g null ≡ some y = (unfold or_null in rw none_there at e) in
      rw (absent, made) (_, refl, rw found (unfold or_null in refl), refl)
]

set_key-Placed :
    (key : Bytes) (g : Json → Option Json) (j x y : Json)
    → get_one (at_key key) j ≡ some x
    → g x ≡ some y
    → Placed (at_key key) y (set_key key g j)
unfolding set_key get_one
set_key-Placed key g (object f) x y r e =
    let here : or_null (find_field f key) ≡ x = cc r in set_object-Placed key g f y (ap g here ∙ e)
set_key-Placed key g null x y r e = fresh_key key g y (cc (r, e))
set_key-Placed key g (bool v) x y r e = fresh_key key g y (cc (r, e))
set_key-Placed key g (int v) x y r e = fresh_key key g y (cc (r, e))
set_key-Placed key g (double v) x y r e = fresh_key key g y (cc (r, e))
set_key-Placed key g (string v) x y r e = fresh_key key g y (cc (r, e))
set_key-Placed key g (array v) x y r e = fresh_key key g y (cc (r, e))

pub set_one-Placed :
    (s : Step) (g : Json → Option Json) (j x y : Json)
    → get_one s j ≡ some x
    → g x ≡ some y
    → Placed s y (set_one s g j)
unfolding set_one
set_one-Placed (at_index i) g j x y r e = set_index-Placed i g j x y r e
set_one-Placed (at_key key) g j x y r e = set_key-Placed key g j x y r e
