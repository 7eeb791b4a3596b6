-- ===== src/Json/Members/Finds.antt =====
-- Keys that are the same, and elements that are assigned (src/json.cc).
use cocoyaxi.Base.{
  ℕ, zero, suc, ◌<◌, true, false, [], ◌∷◌, ◌==◌, Bytes, ◌≡◌, refl, sym, ap, ◌∙◌, arith, Bool-cases,
  inl, inr, ==_iff, ==_refl,
}
use cocoyaxi.Json.Value.{Json, null, Items, nil, cons}
use cocoyaxi.Json.Print.{c_str}
use cocoyaxi.Json.Array
use cocoyaxi.Json.Pairs.{same_bytes, strcmp_eq}

same_bytes_refl : (a : Bytes) → same_bytes a a ≡ true
unfolding same_bytes
same_bytes_refl [] = refl
same_bytes_refl (x ∷ a) = rw (==_refl x) (same_bytes_refl a)

same_bytes_eq : (a b : Bytes) → same_bytes a b ≡ true → a ≡ b
unfolding same_bytes
same_bytes_eq [] [] e = refl
same_bytes_eq [] (y ∷ b) e = cc
same_bytes_eq (x ∷ a) [] e = cc
same_bytes_eq (x ∷ a) (y ∷ b) e = elim (Bool-cases (x == y)) [
  | inl same ↦
      let rest : same_bytes a b ≡ true = rw same at e in
      let head : x ≡ y = (==_iff x y).0 same in rw (head, same_bytes_eq a b rest) refl
  | inr other ↦ let never : false ≡ true = rw other at e in cc
]

pub strcmp_same : (a b : Bytes) → c_str a ≡ c_str b → strcmp_eq a b ≡ true
unfolding strcmp_eq
strcmp_same a b e = rw e (same_bytes_refl (c_str b))

pub strcmp_eq-c_str : (a b : Bytes) → strcmp_eq a b ≡ true → c_str a ≡ c_str b
unfolding strcmp_eq
strcmp_eq-c_str a b e = same_bytes_eq (c_str a) (c_str b) e

pub c_str_twice : (a : Bytes) → c_str (c_str a) ≡ c_str a
unfolding c_str
c_str_twice [] = refl
c_str_twice (x ∷ a) = elim (Bool-cases (x == 0)) [
  | inl stop ↦ rw stop refl
  | inr go ↦ rw go (rw go (ap (λ r. x ∷ r) (c_str_twice a)))
]

-- A key that two others are equal to.
pub strcmp_both :
    (a b k : Bytes) → strcmp_eq a k ≡ true → strcmp_eq b k ≡ true → strcmp_eq a b ≡ true
strcmp_both a b k p q = strcmp_same a b (strcmp_eq-c_str a k p ∙ sym (strcmp_eq-c_str b k q))

pub at-assign :
    (a : Items) (i : ℕ) (g : Json → Json)
    → i < Array.size a
    → Array.at (Array.assign a i g) i ≡ g (Array.at a i)
unfolding Array.at Array.assign Array.size
at-assign nil i g h = absurd (omega arith)
at-assign (cons v a) zero g h = refl
at-assign (cons v a) (suc i) g h = at-assign a i g (omega arith)

pub at-push_null : (a : Items) (i : ℕ) → Array.at (Array.push_back a null) i ≡ Array.at a i
unfolding Array.at Array.push_back
at-push_null nil zero = refl
at-push_null nil (suc i) = refl
at-push_null (cons v a) zero = refl
at-push_null (cons v a) (suc i) = at-push_null a i

pub size-push_back : (a : Items) (v : Json) → Array.size (Array.push_back a v) ≡ suc (Array.size a)
unfolding Array.size Array.push_back
size-push_back nil v = refl
size-push_back (cons w a) v = ap suc (size-push_back a v)
