-- ===== src/Json/Pairs.antt =====
-- `xx::Array` of include/co/json.h as the array of an object, whose elements are keys and values in
-- turn: `push_back` twice, `remove_pair`, and the loops that look for a key.
use cocoyaxi.Base.{
  ℕ, suc, Bool, true, false, ◌&&◌, Option, none, some, [], ◌∷◌, ◌==◌, if◌then◌else◌, Bytes,
}
use cocoyaxi.Json.Value.{Json, Fields, end, field}
use cocoyaxi.Json.Print.{c_str}

-- `strcmp(a, b) == 0`.
unfoldable pub same_bytes : Bytes → Bytes → Bool
same_bytes [] [] = true
same_bytes (a ∷ rest) (b ∷ others) = a == b && same_bytes rest others
same_bytes _ _ = false

unfoldable pub strcmp_eq : Bytes → Bytes → Bool
strcmp_eq a b = same_bytes (c_str a) (c_str b)

unfoldable pub size : Fields → ℕ
size end = 0
size (field k v f) = suc (size f)

unfoldable pub push_back : Fields → Bytes → Json → Fields
push_back end k x = field k x end
push_back (field k' v f) k x = field k' v (push_back f k x)

unfoldable pub pop_back : Fields → Fields
pop_back end = end
pop_back (field k v end) = end
pop_back (field k v (field k' w f)) = field k v (pop_back (field k' w f))

unfoldable pub back : Fields → Bytes → Json → Bytes × Json
back end k v = (k, v)
back (field k' v' f) k v = back f k' v'

-- What is left from the first pair on when the last pair takes its place.
unfoldable pub remove_first : Fields → Fields
remove_first end = end
remove_first (field k v end) = end
remove_first (field k v (field k' v' f)) =
    let last = back f k' v' in field last.0 last.1 (pop_back (field k' v' f))

-- The search for a key, which ends at its first member.
unfoldable pub has_field : Fields → Bytes → Bool
has_field end key = false
has_field (field k v f) key = let later = has_field f key in if strcmp_eq key k then true else later

unfoldable pub find_field : Fields → Bytes → Option Json
find_field end key = none
find_field (field k v f) key =
    let later = find_field f key in if strcmp_eq key k then some v else later

unfoldable pub assign_field : Fields → Bytes → (Json → Json) → Fields
assign_field end key g = end
assign_field (field k v f) key g =
    let later = assign_field f key g in if strcmp_eq key k then field k (g v) f else field k v later

-- `remove_pair` and `erase_pair` at the first member with the key.
unfoldable pub remove_field : Fields → Bytes → Fields
remove_field end key = end
remove_field (field k v f) key =
    let later = remove_field f key in
    if strcmp_eq key k then remove_first (field k v f) else field k v later

unfoldable pub erase_field : Fields → Bytes → Fields
erase_field end key = end
erase_field (field k v f) key =
    let later = erase_field f key in if strcmp_eq key k then f else field k v later
