-- ===== src/Json/Members/Copies.antt =====
-- The printed text of a copy, and initializer lists.
use cocoyaxi.Base.{ℕ, some, [], ◌∷◌, ◌++◌, Bytes, ◌≡◌, refl, sym, ap, ◌∙◌}
use cocoyaxi.Json.Value.{
  Json, null, bool, int, double, string, array, object, Items, nil, cons, Fields, end, field,
  FloatText,
}
use cocoyaxi.Json.Print.{str, c_str}
use cocoyaxi.Json.Text.{text, items_text, items_more, fields_text, fields_more, str-text}
use cocoyaxi.Json.Members.{dup, dup_items, dup_fields, pairs_of, as_pair, list_value, from_list}
use cocoyaxi.Json.Members.Finds.{c_str_twice}

module _ (k : FloatText) (mdp : ℕ) where
  mutual
    unfolding text items_text items_more fields_text fields_more dup dup_items dup_fields

    text-dup : (v : Json) (r : Bytes) → text k mdp (dup v) r ≡ text k mdp v r
    text-dup null r = refl
    text-dup (bool b) r = refl
    text-dup (int i) r = refl
    text-dup (double d) r = refl
    text-dup (string s) r = refl
    text-dup (array a) r = ap (λ t. b'[' ∷ t) (items_text-dup a r)
    text-dup (object f) r = ap (λ t. b'{' ∷ t) (fields_text-dup f r)

    items_text-dup :
        (a : Items) (r : Bytes) → items_text k mdp (dup_items a) r ≡ items_text k mdp a r
    items_text-dup nil r = refl
    items_text-dup (cons v a) r =
        text-dup v (items_more k mdp (dup_items a) r) ∙ ap (text k mdp v) (items_more-dup a r)

    items_more-dup :
        (a : Items) (r : Bytes) → items_more k mdp (dup_items a) r ≡ items_more k mdp a r
    items_more-dup nil r = refl
    items_more-dup (cons v a) r =
        ap (λ t. b',' ∷ t)
          (text-dup v (items_more k mdp (dup_items a) r) ∙ ap (text k mdp v) (items_more-dup a r))

    fields_text-dup :
        (f : Fields) (r : Bytes) → fields_text k mdp (dup_fields f) r ≡ fields_text k mdp f r
    fields_text-dup end r = refl
    fields_text-dup (field w v f) r =
        ap
          (λ t. b'"' ∷ (t ++ b'"' ∷ b':' ∷ text k mdp (dup v) (fields_more k mdp (dup_fields f) r)))
          (c_str_twice w)
        ∙ ap (λ t. b'"' ∷ (c_str w ++ b'"' ∷ b':' ∷ t))
            (text-dup v (fields_more k mdp (dup_fields f) r)
              ∙ ap (text k mdp v) (fields_more-dup f r))

    fields_more-dup :
        (f : Fields) (r : Bytes) → fields_more k mdp (dup_fields f) r ≡ fields_more k mdp f r
    fields_more-dup end r = refl
    fields_more-dup (field w v f) r =
        ap
          (λ t.
            b','
            ∷ b'"'
            ∷ (t ++ b'"' ∷ b':' ∷ text k mdp (dup v) (fields_more k mdp (dup_fields f) r)))
          (c_str_twice w)
        ∙ ap (λ t. b',' ∷ b'"' ∷ (c_str w ++ b'"' ∷ b':' ∷ t))
            (text-dup v (fields_more k mdp (dup_fields f) r)
              ∙ ap (text k mdp v) (fields_more-dup f r))

  -- A duplicate of any value is printed as the value is, although a key is copied only up to its
  -- first zero byte.
  pub str-dup : (v : Json) → str k mdp (dup v) ≡ str k mdp v
  str-dup v = str-text k mdp (dup v) ∙ text-dup v [] ∙ sym (str-text k mdp v)

-- The list of arrays of a key and a value from which an object is written.
unfoldable pub pair_items : Fields → Items
pair_items end = nil
pair_items (field key v f) = cons (array (cons (string key) (cons v nil))) (pair_items f)

pairs_of-pair_items : (f : Fields) → pairs_of (pair_items f) ≡ some f
unfolding pairs_of pair_items as_pair
pairs_of-pair_items end = refl
pairs_of-pair_items (field key v f) = rw (pairs_of-pair_items f) refl

-- The initializer list of the pairs of an object's keys and values gives the object, whose members
-- are in the order of the list and may repeat a key.
pub from_list-pair_items : (f : Fields) → from_list (pair_items f) ≡ object f
unfolding from_list
from_list-pair_items f = rw (pairs_of-pair_items f) (unfold list_value in refl)
