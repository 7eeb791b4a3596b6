-- ===== src/Json/Members/Removal.antt =====
-- `remove`, which moves the last element to the hole, against `erase`, which moves all behind it.
use cocoyaxi.Base.{
  ℕ, zero, suc, ◌+◌, ◌-◌, ◌<◌, Bool, false, ◌==◌, if◌then◌else◌, Bytes, ◌≡◌, refl, ap, ◌∙◌, arith,
  Bool-cases, inl, inr, ==_iff,
}
use cocoyaxi.Json.Value.{Json, Items, nil, cons, Fields, end, field}
use cocoyaxi.Json.Array
use cocoyaxi.Json.Pairs
use cocoyaxi.Json.Pairs.{strcmp_eq, has_field, remove_field, erase_field}

-- How many elements pass a test: the elements without their order.
unfoldable pub count_items : (Json → Bool) → Items → ℕ
count_items p nil = 0
count_items p (cons v a) = (if p v then 1 else 0) + count_items p a

unfoldable pub count_fields : (Bytes → Json → Bool) → Fields → ℕ
count_fields p end = 0
count_fields p (field k v f) = (if p k v then 1 else 0) + count_fields p f

abbrev one_if : Bool → ℕ
one_if b = if b then 1 else 0

module _ (p : Json → Bool) where
  count_pop_back :
      (v : Json) (a : Items)
      → count_items p (Array.pop_back (cons v a)) + one_if (p (Array.at (cons v a) (Array.size a)))
        ≡ count_items p (cons v a)
  unfolding count_items Array.pop_back Array.at Array.size
  count_pop_back v nil = omega arith
  count_pop_back v (cons w a) = omega (arith, count_pop_back w a)

  count_assign :
      (a : Items) (i : ℕ) (x : Json)
      → i < Array.size a
      → count_items p (Array.assign a i (λ v. x)) + one_if (p (Array.at a i))
        ≡ count_items p a + one_if (p x)
  unfolding count_items Array.assign Array.at Array.size
  count_assign nil i x h = absurd (omega arith)
  count_assign (cons v a) zero x h = omega arith
  count_assign (cons v a) (suc i) x h = omega (arith, count_assign a i x (omega arith))

  count_erase :
      (a : Items) (i : ℕ)
      → i < Array.size a
      → count_items p (Array.erase a i) + one_if (p (Array.at a i)) ≡ count_items p a
  unfolding count_items Array.erase Array.at Array.size
  count_erase nil i h = absurd (omega arith)
  count_erase (cons v a) zero h = omega arith
  count_erase (cons v a) (suc i) h = omega (arith, count_erase a i (omega arith))

size-assign : (a : Items) (i : ℕ) (g : Json → Json) → Array.size (Array.assign a i g) ≡ Array.size a
unfolding Array.size Array.assign
size-assign nil i g = refl
size-assign (cons v a) zero g = refl
size-assign (cons v a) (suc i) g = ap suc (size-assign a i g)

at-assign_other :
    (a : Items) (i n : ℕ) (g : Json → Json)
    → (i == n) ≡ false
    → Array.at (Array.assign a i g) n ≡ Array.at a n
unfolding Array.at Array.assign
at-assign_other nil i n g e = refl
at-assign_other (cons v a) zero zero g e = cc
at-assign_other (cons v a) zero (suc n) g e = refl
at-assign_other (cons v a) (suc i) zero g e = refl
at-assign_other (cons v a) (suc i) (suc n) g e = at-assign_other a i n g (ground arith)

-- `count_pop_back` for an array that is not empty.
count_popped :
    (p : Json → Bool) (a : Items)
    → 0 < Array.size a
    → count_items p (Array.pop_back a) + one_if (p (Array.at a (Array.size a - 1)))
      ≡ count_items p a
unfolding Array.size
count_popped p nil h = absurd (omega arith)
count_popped p (cons v a) h =
    let n : suc (Array.size a) - 1 ≡ Array.size a = omega arith in rw n (count_pop_back p v a)

-- At an index in range, `remove` and `erase` leave equally many elements that pass any test: the same
-- elements, up to their order.
pub remove-erase :
    (p : Json → Bool) (a : Items) (i : ℕ)
    → i < Array.size a
    → count_items p (Array.remove a i) ≡ count_items p (Array.erase a i)
unfolding Array.remove
remove-erase p a i h = elim (Bool-cases (i == Array.size a - 1)) [
  | inl last ↦
      let same : i ≡ Array.size a - 1 = (==_iff _ _).0 last in
      rw last (
        omega (
          arith,
          count_popped p a (omega arith),
          count_erase p a i h,
          ap (λ n. one_if (p (Array.at a n))) same,
        ))
  | inr before ↦
      let x : Json = Array.at a (Array.size a - 1) in
      let moved : Items = Array.assign a i (λ v. x) in
      let size : Array.size moved ≡ Array.size a = size-assign a i (λ v. x) in
      let last : Array.at moved (Array.size moved - 1) ≡ x =
        ap (λ n. Array.at moved (n - 1)) size
        ∙ at-assign_other a i (Array.size a - 1) (λ v. x) before in
      rw before (
        omega (
          arith,
          count_popped p moved (omega (arith, size)),
          ap (λ v. one_if (p v)) last,
          count_assign p a i x h,
          count_erase p a i h,
        ))
]

module _ (p : Bytes → Json → Bool) where
  count_pairs_popped :
      (k : Bytes) (v : Json) (f : Fields)
      → let last : Bytes × Json = Pairs.back f k v in
        count_fields p (Pairs.pop_back (field k v f)) + one_if (p last.0 last.1)
        ≡ count_fields p (field k v f)
  unfolding count_fields Pairs.pop_back Pairs.back
  count_pairs_popped k v end = omega arith
  count_pairs_popped k v (field k' v' f) = omega (arith, count_pairs_popped k' v' f)

  count_remove_first :
      (k : Bytes) (v : Json) (f : Fields)
      → count_fields p (Pairs.remove_first (field k v f)) ≡ count_fields p f
  unfolding count_fields Pairs.remove_first
  count_remove_first k v end = refl
  count_remove_first k v (field k' v' f) = omega (arith, count_pairs_popped k' v' f)

  -- At every key, `remove` and `erase` leave equally many members that pass any test: the same members,
  -- up to their order.
  pub remove_field-erase_field :
      (f : Fields) (key : Bytes)
      → count_fields p (remove_field f key) ≡ count_fields p (erase_field f key)
  unfolding remove_field erase_field count_fields
  remove_field-erase_field end key = refl
  remove_field-erase_field (field k v f) key = elim (Bool-cases (strcmp_eq key k)) [
    | inl here ↦ rw here (count_remove_first k v f)
    | inr on ↦ rw on (ap (λ n. one_if (p k v) + n) (remove_field-erase_field f key))
  ]
