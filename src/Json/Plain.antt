-- ===== src/Json/Plain.antt =====
-- The values with no children: their texts as tokens.
use cocoyaxi.Base.{
  ℕ, true, false, some, ◌∷◌, ◌++◌, ◌==◌, Bytes, ◌≡◌, refl, sym, ap, ◌∙◌, arith, inl, inr,
}
use cocoyaxi.Json.Value.{Json, null, bool, int, double, string, array, object, FloatText}
use cocoyaxi.Json.Scan.{parse_false, parse_true, parse_null}
use cocoyaxi.Json.Number.{parse_number}
use cocoyaxi.Json.Scan.{token}
use cocoyaxi.Json.Machine.{is_white_space, parse_plain}
use cocoyaxi.Json.Escapes.{escaped}
use cocoyaxi.Json.Strings.{parse_string-escaped}
use cocoyaxi.Json.Integers.{StartsNumber, parse_number-i64toa, i64toa-head}
use cocoyaxi.Json.Digits.{EndsNumber}
use cocoyaxi.Json.Text.{text, IsStorable}

-- The first byte of a value: no white space and no closing bracket.
abbrev pub IsStart : ℕ → Type 0
IsStart c = (is_white_space c ≡ false) × ((c == b']') ≡ false)

abbrev pub IsPlainValue : Json → Type 0
IsPlainValue (array a) = ⊥
IsPlainValue (object f) = ⊥
IsPlainValue _ = Unit

-- A text that starts a plain value and is read as `v`, with `r` left.
pub record ReadsAs (k : FloatText) (b : Bytes) (v : Json) (r : Bytes) : Type 0 where
  pub first : ℕ
  pub others : Bytes
  pub begins : b ≡ first ∷ others
  pub no_object : (first == b'{') ≡ false
  pub no_array : (first == b'[') ≡ false
  pub start : IsStart first
  pub reads : parse_plain k first (first ∷ others) ≡ token (some (v, r))

reads_int :
    (k : FloatText) (c : ℕ) (b : Bytes)
    → StartsNumber c
    → ((c == b'{') ≡ false)
      × ((c == b'[') ≡ false)
      × IsStart c
      × (parse_plain k c b ≡ token (parse_number k b))
unfolding parse_plain
reads_int k c b (inl e) = rw e (refl, refl, (refl, refl), refl)
reads_int k c b (inr e) = (ground arith, ground arith, (ground arith, ground arith), ground arith)

pub plain-ReadsAs :
    (k : FloatText) (mdp : ℕ) (v : Json) (r : Bytes)
    → IsPlainValue v
    → IsStorable v
    → EndsNumber r
    → ReadsAs k (text k mdp v r) v r
unfolding text parse_plain
plain-ReadsAs k mdp null r p s e = record {
  first = b'n';
  others = b'u' ∷ b'l' ∷ b'l' ∷ r;
  begins = refl;
  no_object = refl;
  no_array = refl;
  start = (refl, refl);
  reads = unfold parse_null in refl;
}
plain-ReadsAs k mdp (bool true) r p s e = record {
  first = b't';
  others = b'r' ∷ b'u' ∷ b'e' ∷ r;
  begins = refl;
  no_object = refl;
  no_array = refl;
  start = (refl, refl);
  reads = unfold parse_true in refl;
}
plain-ReadsAs k mdp (bool false) r p s e = record {
  first = b'f';
  others = b'a' ∷ b'l' ∷ b's' ∷ b'e' ∷ r;
  begins = refl;
  no_object = refl;
  no_array = refl;
  start = (refl, refl);
  reads = unfold parse_false in refl;
}
plain-ReadsAs k mdp (string w) r p s e = record {
  first = b'"';
  others = escaped w ++ b'"' ∷ r;
  begins = refl;
  no_object = refl;
  no_array = refl;
  start = (refl, refl);
  reads = parse_string-escaped w r s;
}
plain-ReadsAs k mdp (int i) r p s e =
    let (c, cs, head, starts) = i64toa-head i s in
    let (no_object, no_array, start, same) = reads_int k c (c ∷ (cs ++ r)) starts in
    record {
      first = c;
      others = cs ++ r;
      begins = rw head refl;
      no_object = no_object;
      no_array = no_array;
      start = start;
      reads =
          same
          ∙ ap (λ (t : Bytes). token (parse_number k (t ++ r))) (sym head)
          ∙ ap token (parse_number-i64toa k i r s e);
    }
plain-ReadsAs k mdp (double d) r p s e = absurd s
plain-ReadsAs k mdp (array a) r p s e = absurd p
plain-ReadsAs k mdp (object f) r p s e = absurd p
