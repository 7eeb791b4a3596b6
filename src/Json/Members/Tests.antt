-- ===== src/Json/Members/Tests.antt =====
-- Operations on concrete json values, and the theorems applied there.
use cocoyaxi.Base.{true, false, none, some, [], ◌∷◌, ◌≡◌, refl, arith, Bytes}
use cocoyaxi.Json.Value.{
  Json, null, int, string, array, object, nil, cons, Fields, Items, end, field, FloatText,
}
use cocoyaxi.Json.Print.{str, c_str}
use cocoyaxi.Json.Array
use cocoyaxi.Json.Pairs.{same_bytes, strcmp_eq, find_field, remove_field, erase_field}
use cocoyaxi.Json.Members.{
  at_index, at_key, get, set, set_one, set_index, set_key, pad_nulls, get_one, or_null, dup,
  from_list, is_null,
}
use cocoyaxi.Json.Members.SetGet.{is_open, get-set, get-set_other}
use cocoyaxi.Json.Members.Removal.{
  count_items, count_fields, remove-erase, remove_field-erase_field,
}
use cocoyaxi.Json.Members.Copies.{str-dup, pair_items, from_list-pair_items}

abbrev no_floats : FloatText
no_floats = record { strtod = λ b. none; dtoa = λ m d. [] }

abbrev members : Fields
members =
    field (b'a' ∷ []) (int 1)
      (field (b'b' ∷ []) null (field (b'c' ∷ 0 ∷ []) (string (b'x' ∷ [])) end))

abbrev numbers : Items
numbers = cons (int 1) (cons null (cons (int 3) nil))

abbrev deep : Bytes
deep = b'd' ∷ []

-- {"d":[null,3]} from null.
set_from_null :
    set (at_key deep ∷ at_index 1 ∷ []) (int 3) null
    ≡ some (object (field deep (array (cons null (cons (int 3) nil))) end))
unfolding set set_one set_index set_key pad_nulls c_str Array.push_back Array.assign
set_from_null = refl

last_moves : Array.remove numbers 0 ≡ cons (int 3) (cons null nil)
unfolding Array.remove Array.size Array.at Array.assign Array.pop_back
last_moves = refl

-- `_set(0)` of an array with no elements reads through null, if its `p` is null.
set_in_empty : set (at_index 0 ∷ []) (int 3) (array nil) ≡ none
unfolding set set_one set_index
set_in_empty = refl

members_open : is_open (at_key deep ∷ at_index 1 ∷ []) (object members) ≡ true
unfolding get_one or_null find_field strcmp_eq same_bytes c_str
members_open = refl

get-set_example :
    (r : Json) × (set (at_key deep ∷ at_index 1 ∷ []) (int 3) (object members) ≡ some r)
    × (get (at_key deep ∷ at_index 1 ∷ []) r ≡ some (int 3))
get-set_example = get-set (at_key deep ∷ at_index 1 ∷ []) (int 3) (object members) members_open

not_same : strcmp_eq (b'a' ∷ []) deep ≡ false
unfolding strcmp_eq same_bytes c_str
not_same = refl

get-set_other_example :
    (r : Json) × (set (at_key deep ∷ at_index 1 ∷ []) (int 3) (object members) ≡ some r)
    × (get (at_key (b'a' ∷ []) ∷ []) r ≡ get (at_key (b'a' ∷ []) ∷ []) (object members))
get-set_other_example =
    get-set_other members deep (b'a' ∷ []) (at_index 1 ∷ []) [] (int 3) not_same members_open

remove-erase_example :
    count_items is_null (Array.remove numbers 1) ≡ count_items is_null (Array.erase numbers 1)
remove-erase_example = remove-erase is_null numbers 1 (unfold Array.size in omega arith)

remove_field-erase_field_example :
    count_fields (λ k v. is_null v) (remove_field members (b'a' ∷ []))
    ≡ count_fields (λ k v. is_null v) (erase_field members (b'a' ∷ []))
remove_field-erase_field_example = remove_field-erase_field (λ k v. is_null v) members (b'a' ∷ [])

str-dup_example : str no_floats 16 (dup (object members)) ≡ str no_floats 16 (object members)
str-dup_example = str-dup no_floats 16 (object members)

from_list-pair_items_example : from_list (pair_items members) ≡ object members
from_list-pair_items_example = from_list-pair_items members
