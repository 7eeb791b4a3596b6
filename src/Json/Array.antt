-- ===== src/Json/Array.antt =====
-- `xx::Array` of include/co/json.h as an array of values: its elements from the first on.
use cocoyaxi.Base.{ℕ, zero, suc, ◌-◌, ◌==◌, if◌then◌else◌}
use cocoyaxi.Json.Value.{Json, null, Items, nil, cons}

unfoldable pub size : Items → ℕ
size nil = 0
size (cons v a) = suc (size a)

unfoldable pub push_back : Items → Json → Items
push_back nil x = cons x nil
push_back (cons v a) x = cons v (push_back a x)

-- `a[i]`, with null out of range.
unfoldable pub at : Items → ℕ → Json
at nil i = null
at (cons v a) zero = v
at (cons v a) (suc i) = at a i

unfoldable pub assign : Items → ℕ → (Json → Json) → Items
assign nil i f = nil
assign (cons v a) zero f = cons (f v) a
assign (cons v a) (suc i) f = cons v (assign a i f)

unfoldable pub pop_back : Items → Items
pop_back nil = nil
pop_back (cons v nil) = nil
pop_back (cons v (cons w a)) = cons v (pop_back (cons w a))

-- The last element takes the place of the one at `i`.
unfoldable pub remove : Items → ℕ → Items
remove a i =
    let n = size a - 1 in if i == n then pop_back a else pop_back (assign a i (λ v. at a n))

unfoldable pub erase : Items → ℕ → Items
erase nil i = nil
erase (cons v a) zero = a
erase (cons v a) (suc i) = cons v (erase a i)
