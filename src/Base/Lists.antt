-- ===== src/Base/Lists.antt =====
-- Lists measured and indexed by native numbers, under the library's names.
use Prim.Native.Nat.{ℕ, zero, suc, ◌+◌, ◌-◌, ◌<◌}
use mathlib.Core.Path.{◌≡◌, refl, sym, ap, ◌∙◌}
use mathlib.Core.List.{List, [], ◌∷◌, ◌++◌, append-nil, append_assoc}
use mathlib.Core.Option.{Option, none, some}
use native.Mathlib.Omega.{arith}

-- A byte string: the source's `char` and `uint8_t` buffers.
abbrev pub Bytes : Type 0
Bytes = List ℕ

module _ {ℓ} {A : Type ℓ} where
  abbrev pub length : List A → ℕ
  length [] = 0
  length (x ∷ xs) = suc (length xs)

  abbrev pub get_elem? : List A → ℕ → Option A
  get_elem? [] i = none
  get_elem? (x ∷ xs) zero = some x
  get_elem? (x ∷ xs) (suc i) = get_elem? xs i

  abbrev pub get_or : List A → ℕ → A → A
  get_or [] i d = d
  get_or (x ∷ xs) zero d = x
  get_or (x ∷ xs) (suc i) d = get_or xs i d

  abbrev pub take : ℕ → List A → List A
  take zero xs = []
  take (suc n) [] = []
  take (suc n) (x ∷ xs) = x ∷ take n xs

  abbrev pub drop : ℕ → List A → List A
  drop zero xs = xs
  drop (suc n) [] = []
  drop (suc n) (x ∷ xs) = drop n xs

  abbrev pub tail : List A → List A
  tail [] = []
  tail (x ∷ xs) = xs

  -- What is appended to a buffer that is kept last byte first.
  abbrev pub reverse_aux : List A → List A → List A
  reverse_aux [] ys = ys
  reverse_aux (x ∷ xs) ys = reverse_aux xs (x ∷ ys)

  abbrev pub All {κ} : (A → Type κ) → List A → Type κ
  All P [] = Unit
  All P (x ∷ xs) = P x × All P xs

  pub length-append : (xs ys : List A) → length (xs ++ ys) ≡ length xs + length ys
  length-append [] ys = omega arith
  length-append (x ∷ xs) ys = omega (arith, length-append xs ys)

-- Every element is a byte.
abbrev pub IsBytes : Bytes → Type 0
IsBytes = All (λ c. c < 256)

module _ {ℓ} {A : Type ℓ} where
  pub take-length : (xs ys : List A) → take (length xs) (xs ++ ys) ≡ xs
  take-length [] ys = refl
  take-length (x ∷ xs) ys = ap (◌∷◌ x) (take-length xs ys)

  pub drop-length : (xs ys : List A) → drop (length xs) (xs ++ ys) ≡ ys
  drop-length [] ys = refl
  drop-length (x ∷ xs) ys = drop-length xs ys

  -- The parts of a list on the two sides of a position, which is given by what lies behind it.
  pub take_append : (xs ys : List A) → take (length (xs ++ ys) - length ys) (xs ++ ys) ≡ xs
  take_append xs ys = rw (length-append xs ys) (
      let e : length xs + length ys - length ys ≡ length xs = omega arith in
      rw e (take-length xs ys))

  pub drop_append : (xs ys : List A) → drop (length (xs ++ ys) - length ys) (xs ++ ys) ≡ ys
  drop_append xs ys = rw (length-append xs ys) (
      let e : length xs + length ys - length ys ≡ length xs = omega arith in
      rw e (drop-length xs ys))

  pub take-longer :
      (m : ℕ) (xs ys : List A) (y : A)
      → take (length xs + suc m) (xs ++ y ∷ ys) ≡ xs ++ y ∷ take m ys
  take-longer m [] ys y = let e : 0 + suc m ≡ suc m = omega arith in rw e refl
  take-longer m (x ∷ xs) ys y =
      let e : suc (length xs) + suc m ≡ suc (length xs + suc m) = omega arith in
      rw e (ap (◌∷◌ x) (take-longer m xs ys y))

  pub reverse_aux-append :
      (xs ys zs : List A) → reverse_aux (xs ++ ys) zs ≡ reverse_aux ys (reverse_aux xs zs)
  reverse_aux-append [] ys zs = refl
  reverse_aux-append (x ∷ xs) ys zs = reverse_aux-append xs ys (x ∷ zs)

  pub reverse_aux_both :
      (xs ys zs : List A) → reverse_aux (reverse_aux xs ys) zs ≡ reverse_aux ys (xs ++ zs)
  reverse_aux_both [] ys zs = refl
  reverse_aux_both (x ∷ xs) ys zs = reverse_aux_both xs (x ∷ ys) zs

  -- A buffer that is kept last element first reads, turned round, what was appended to it.
  pub reverse_aux_twice : (xs : List A) → reverse_aux (reverse_aux xs []) [] ≡ xs
  reverse_aux_twice xs = reverse_aux_both xs [] [] ∙ append-nil xs

  pub reverse_aux_front : (xs ys : List A) → reverse_aux xs ys ≡ reverse_aux xs [] ++ ys
  reverse_aux_front [] ys = refl
  reverse_aux_front (x ∷ xs) ys =
      reverse_aux_front xs (x ∷ ys)
      ∙ sym (append_assoc (reverse_aux xs []) (x ∷ []) ys)
      ∙ ap (λ l. l ++ ys) (sym (reverse_aux_front xs (x ∷ [])))

  pub length-reverse_aux : (xs ys : List A) → length (reverse_aux xs ys) ≡ length xs + length ys
  length-reverse_aux [] ys = omega arith
  length-reverse_aux (x ∷ xs) ys = omega (arith, length-reverse_aux xs (x ∷ ys))
