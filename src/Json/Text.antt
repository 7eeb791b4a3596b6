-- ===== src/Json/Text.antt =====
-- The minified text of a value by recursion on the value, and the printer, which appends to a buffer
-- and overwrites the last comma, against it.
use cocoyaxi.Base.{
  ℕ, ◌^◌, ◌<◌, true, false, [], ◌∷◌, ◌++◌, ◌==◌, if◌then◌else◌, Bytes, IsBytes, All, reverse_aux,
  reverse_aux_both, ◌≡◌, refl, ap, ◌∙◌,
}
use cocoyaxi.Fast.{i64toa}
use cocoyaxi.Json.Value.{
  Json, null, bool, int, double, string, array, object, Items, nil, cons, Fields, end, field,
  FloatText,
}
use cocoyaxi.Json.Print.{
  json2str, items2str, fields2str, close_with, c_str, str, true_text, false_text, null_text,
}
use cocoyaxi.Json.Escapes.{escaped, print_string-escaped}

module _ (k : FloatText) (mdp : ℕ) where
  -- The text of a value in front of `r`.
  unfoldable mutual
    pub text : Json → Bytes → Bytes
    text null r = null_text ++ r
    text (bool v) r = (if v then true_text else false_text) ++ r
    text (int i) r = i64toa i ++ r
    text (double d) r = k.dtoa mdp d ++ r
    text (string s) r = b'"' ∷ (escaped s ++ b'"' ∷ r)
    text (array a) r = b'[' ∷ items_text a r
    text (object f) r = b'{' ∷ fields_text f r

    -- The elements of an array from the first on, and its bracket.
    pub items_text : Items → Bytes → Bytes
    items_text nil r = b']' ∷ r
    items_text (cons v a) r = text v (items_more a r)

    -- The same behind an element.
    pub items_more : Items → Bytes → Bytes
    items_more nil r = b']' ∷ r
    items_more (cons v a) r = b',' ∷ text v (items_more a r)

    pub fields_text : Fields → Bytes → Bytes
    fields_text end r = b'}' ∷ r
    fields_text (field key v f) r = b'"' ∷ (c_str key ++ b'"' ∷ b':' ∷ text v (fields_more f r))

    pub fields_more : Fields → Bytes → Bytes
    fields_more end r = b'}' ∷ r
    fields_more (field key v f) r =
        b',' ∷ b'"' ∷ (c_str key ++ b'"' ∷ b':' ∷ text v (fields_more f r))

  mutual
    unfolding json2str items2str fields2str text items_text items_more fields_text fields_more
        close_with

    json2str-rev :
        (v : Json) (fs r : Bytes)
        → reverse_aux (json2str k false mdp v fs) r ≡ reverse_aux fs (text v r)
    json2str-rev null fs r = refl
    json2str-rev (bool true) fs r = refl
    json2str-rev (bool false) fs r = refl
    json2str-rev (int i) fs r = reverse_aux_both (i64toa i) fs r
    json2str-rev (double d) fs r = reverse_aux_both (k.dtoa mdp d) fs r
    json2str-rev (string s) fs r =
        ap (λ out. reverse_aux out r) (print_string-escaped s fs)
        ∙ reverse_aux_both (escaped s) (b'"' ∷ fs) (b'"' ∷ r)
    json2str-rev (array a) fs r = items2str-rev a fs r
    json2str-rev (object f) fs r = fields2str-rev f fs r

    items2str-rev :
        (a : Items) (fs r : Bytes)
        → reverse_aux (close_with b']' (items2str k false mdp a (b'[' ∷ fs))) r
          ≡ reverse_aux fs (b'[' ∷ items_text a r)
    items2str-rev nil fs r = refl
    items2str-rev (cons v a) fs r =
        items_more-rev a (json2str k false mdp v (b'[' ∷ fs)) r
        ∙ json2str-rev v (b'[' ∷ fs) (items_more a r)

    items_more-rev :
        (a : Items) (fs r : Bytes)
        → reverse_aux (close_with b']' (items2str k false mdp a (b',' ∷ fs))) r
          ≡ reverse_aux fs (items_more a r)
    items_more-rev nil fs r = refl
    items_more-rev (cons v a) fs r =
        items_more-rev a (json2str k false mdp v (b',' ∷ fs)) r
        ∙ json2str-rev v (b',' ∷ fs) (items_more a r)

    fields2str-rev :
        (f : Fields) (fs r : Bytes)
        → reverse_aux (close_with b'}' (fields2str k false mdp f (b'{' ∷ fs))) r
          ≡ reverse_aux fs (b'{' ∷ fields_text f r)
    fields2str-rev end fs r = refl
    fields2str-rev (field key v f) fs r =
        let before : Bytes = b':' ∷ b'"' ∷ reverse_aux (c_str key) (b'"' ∷ b'{' ∷ fs) in
        fields_more-rev f (json2str k false mdp v before) r
        ∙ json2str-rev v before (fields_more f r)
        ∙ reverse_aux_both (c_str key) (b'"' ∷ b'{' ∷ fs) _

    fields_more-rev :
        (f : Fields) (fs r : Bytes)
        → reverse_aux (close_with b'}' (fields2str k false mdp f (b',' ∷ fs))) r
          ≡ reverse_aux fs (fields_more f r)
    fields_more-rev end fs r = refl
    fields_more-rev (field key v f) fs r =
        let before : Bytes = b':' ∷ b'"' ∷ reverse_aux (c_str key) (b'"' ∷ b',' ∷ fs) in
        fields_more-rev f (json2str k false mdp v before) r
        ∙ json2str-rev v before (fields_more f r)
        ∙ reverse_aux_both (c_str key) (b'"' ∷ b',' ∷ fs) _

  -- On every value, with every float printer and number of decimals, `str` writes what `text` says by
  -- recursion on the value, with commas between elements only: the printer writes one behind each
  -- element and the closing bracket over the last.
  pub str-text : (v : Json) → str k mdp v ≡ text v []
  unfolding str
  str-text v = json2str-rev v [] []

-- A key that its C string and its text keep whole: no zero byte and no quote.
abbrev pub IsKey : Bytes → Type 0
IsKey = All (λ c. ((c == 0) ≡ false) × ((c == b'"') ≡ false))

-- The values that are given back by their text: 64-bit integers, strings of bytes, keys as above, and
-- no double.
abbrev mutual
  pub IsStorable : Json → Type 0
  IsStorable null = Unit
  IsStorable (bool v) = Unit
  IsStorable (int i) = i < 2 ^ 64
  IsStorable (double d) = ⊥
  IsStorable (string s) = IsBytes s
  IsStorable (array a) = AllItems a
  IsStorable (object f) = AllFields f

  pub AllItems : Items → Type 0
  AllItems nil = Unit
  AllItems (cons v a) = IsStorable v × AllItems a

  pub AllFields : Fields → Type 0
  AllFields end = Unit
  AllFields (field key v f) = IsKey key × IsStorable v × AllFields f
