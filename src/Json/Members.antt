-- ===== src/Json/Members.antt =====
-- The operations on a value of include/co/json.h and src/json.cc: reading, adding, setting, removing
-- and duplicating its elements and members. A reference that an operation returns is a function on
-- what it refers to. A `const char*` is the bytes up to its first zero.
pub mod Finds
pub mod Placed
pub mod SetGet
mod Tests
pub mod Copies
pub mod Removal
use cocoyaxi.Base.{
  ℕ, zero, suc, ◌+◌, ◌-◌, Bool, true, false, ◌&&◌, Option, none, some, List, [], ◌∷◌, ◌==◌, ltb,
  if◌then◌else◌, Bytes, length,
}
use cocoyaxi.Json.Value.{
  Json, null, bool, int, double, string, array, object, Items, nil, cons, Fields, end, field,
}
use cocoyaxi.Json.Print.{c_str}
use cocoyaxi.Json.Array
use cocoyaxi.Json.Pairs
use cocoyaxi.Json.Pairs.{has_field, find_field, assign_field, remove_field, erase_field}

unfoldable pub is_null : Json → Bool
is_null null = true
is_null _ = false

-- `size`, `array_size`, `object_size`, `string_size` and `empty`.
unfoldable pub size : Json → ℕ
size (array a) = Array.size a
size (object f) = Pairs.size f
size (string s) = length s
size _ = 0

unfoldable pub array_size : Json → ℕ
array_size (array a) = Array.size a
array_size _ = 0

unfoldable pub object_size : Json → ℕ
object_size (object f) = Pairs.size f
object_size _ = 0

unfoldable pub string_size : Json → ℕ
string_size (string s) = length s
string_size _ = 0

unfoldable pub empty : Json → Bool
empty j = size j == 0

unfoldable pub has_member : Bytes → Json → Bool
has_member key (object f) = has_field f key
has_member key _ = false

-- An index or a key.
pub data Step : Type 0 where
  at_index : ℕ → Step
  at_key : Bytes → Step

unfoldable pub or_null : Option Json → Json
or_null none = null
or_null (some v) = v

-- `none` is a read through null: `get(i)` and `_set(i)` read the size of an array whose pointer `p` may
-- be null, as that of `json::array()` and of a parsed `[]` is. `Json` does not tell such an array from
-- one that has lost its elements, so both have no result here.
unfoldable pub get_one : Step → Json → Option Json
get_one (at_index i) (array nil) = none
get_one (at_index i) (array (cons x a)) = some (Array.at (cons x a) i)
get_one (at_key key) (object f) = some (or_null (find_field f key))
get_one _ _ = some null

abbrev pub or_more : (Json → Option Json) → Option Json → Option Json
or_more more none = none
or_more more (some r) = if is_null r then some r else more r

unfoldable pub get : List Step → Json → Option Json
get [] j = some j
get (s ∷ ss) j = or_more (get ss) (get_one s j)

unfoldable pub push_back : Json → Json → Json
push_back v (array a) = array (Array.push_back a v)
push_back v _ = array (cons v nil)

unfoldable pub add_member : Bytes → Json → Json → Json
add_member key v (object f) = object (Pairs.push_back f (c_str key) v)
add_member key v _ = object (field (c_str key) v end)

unfoldable pub remove_index : ℕ → Json → Json
remove_index i (array a) = if ltb i (Array.size a) then array (Array.remove a i) else array a
remove_index i j = j

unfoldable pub erase_index : ℕ → Json → Json
erase_index i (array a) = if ltb i (Array.size a) then array (Array.erase a i) else array a
erase_index i j = j

unfoldable pub remove_key : Bytes → Json → Json
remove_key key (object f) = object (remove_field f key)
remove_key key j = j

unfoldable pub erase_key : Bytes → Json → Json
erase_key key (object f) = object (erase_field f key)
erase_key key j = j

-- `operator[](key)`: a member with the key is added to an object and to null; the assertion is `none`.
unfoldable pub member_of : Bytes → (Json → Json) → Json → Option Json
member_of key g null = some (object (field (c_str key) (g null) end))
member_of key g (object f) =
    if has_field f key
    then some (object (assign_field f key g))
    else some (object (Pairs.push_back f (c_str key) (g null)))
member_of key g _ = none

-- The loop of `_set(i)`: nulls are pushed until the element at `i` is there.
unfoldable pub pad_nulls : ℕ → Items → Items
pad_nulls zero a = a
pad_nulls (suc n) a = pad_nulls n (Array.push_back a null)

-- The element at `i` is what `g` makes of it.
abbrev pub with_element : Items → ℕ → Option Json → Option Json
with_element a i none = none
with_element a i (some y) = some (array (Array.assign a i (λ x. y)))

abbrev pub set_element : ℕ → (Json → Option Json) → Items → Option Json
set_element i g a = with_element a i (g (Array.at a i))

unfoldable pub set_index : ℕ → (Json → Option Json) → Json → Option Json
set_index i g (array nil) = none
set_index i g (array (cons x a)) =
    if ltb i (Array.size (cons x a))
    then set_element i g (cons x a)
    else set_element i g (pad_nulls (suc i - Array.size (cons x a)) (cons x a))
set_index i g _ = set_element i g (pad_nulls (suc i) nil)

abbrev pub with_member : (Json → Fields) → Option Json → Option Json
with_member put none = none
with_member put (some y) = some (object (put y))

unfoldable pub set_key : Bytes → (Json → Option Json) → Json → Option Json
set_key key g (object f) =
    if has_field f key
    then with_member (λ y. assign_field f key (λ x. y)) (g (or_null (find_field f key)))
    else with_member (λ y. Pairs.push_back f (c_str key) y) (g null)
set_key key g _ = with_member (λ y. field (c_str key) y end) (g null)

unfoldable pub set_one : Step → (Json → Option Json) → Json → Option Json
set_one (at_index i) g j = set_index i g j
set_one (at_key key) g j = set_key key g j

unfoldable pub set : List Step → Json → Json → Option Json
set [] v j = some v
set (s ∷ ss) v j = set_one s (set ss v) j

-- `_dup`: a key is copied up to its first zero.
unfoldable mutual
  pub dup : Json → Json
  dup (array a) = array (dup_items a)
  dup (object f) = object (dup_fields f)
  dup (string s) = string s
  dup null = null
  dup (bool v) = bool v
  dup (int i) = int i
  dup (double d) = double d

  pub dup_items : Items → Items
  dup_items nil = nil
  dup_items (cons v a) = cons (dup v) (dup_items a)

  pub dup_fields : Fields → Fields
  dup_fields end = end
  dup_fields (field k v f) = field (c_str k) (dup v) (dup_fields f)

-- The initializer list: an object if every element is an array of a string and a value. The bytes of
-- the string become the key.
unfoldable pub as_pair : Json → Option (Bytes × Json)
as_pair (array (cons (string s) (cons v nil))) = some (s, v)
as_pair _ = none

unfoldable pub pairs_of : Items → Option Fields
pairs_of nil = some end
pairs_of (cons x a) = elim (as_pair x) [
  | none ↦ none
  | some p ↦ elim (pairs_of a) [ none ↦ none | some f ↦ some (field p.0 p.1 f) ]
]

unfoldable pub list_value : Option Fields → Items → Json
list_value (some f) a = object f
list_value none a = array a

unfoldable pub from_list : Items → Json
from_list a = list_value (pairs_of a) a

-- `json::array` and `json::object` of an initializer list; `none` is a failed assertion.
unfoldable pub array_of : Items → Json
array_of a = array a

unfoldable pub object_of : Items → Option Json
object_of a = elim (pairs_of a) [ none ↦ none | some f ↦ some (object f) ]

-- `reset`, which gives the memory of the value back.
unfoldable pub reset : Json → Json
reset j = null
