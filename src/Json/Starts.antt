-- ===== src/Json/Starts.antt =====
-- The rounds of the parser at the start of a value and of a key, on the printed text.
use cocoyaxi.Base.{
  ℕ, false, some, [], ◌∷◌, ◌++◌, ◌==◌, Bytes, ◌≡◌, refl, ap, ◌∙◌, take_append, List, All,
}
use cocoyaxi.Json.Value.{
  Json, null, bool, int, double, string, array, object, Items, nil, cons, Fields, end, field,
  FloatText,
}
use cocoyaxi.Json.Print.{c_str}
use cocoyaxi.Json.Scan.{memchr, parse_key}
use cocoyaxi.Json.Machine.{
  skip_white_space, key, State, in_object, in_array, outside, Stacks, Label, obj_val_beg,
  obj_val_end, arr_val_beg, arr_val_end, goto, push, resume_in, value_at, colon_at, named_at,
  at_obj_val_beg, at_arr_val_beg, step,
}
use cocoyaxi.Json.Digits.{EndsNumber}
use cocoyaxi.Json.Text.{text, items_text, items_more, fields_text, fields_more, IsKey, IsStorable}
use cocoyaxi.Json.Plain.{IsStart, ReadsAs, plain-ReadsAs}

-- The label behind a value inside a container.
abbrev pub IsBehind : Label → State → Type 0
IsBehind arr_val_end in_array = Unit
IsBehind obj_val_end in_object = Unit
IsBehind _ _ = ⊥

pub resume_behind :
    (l : Label) (st : State) (b : Bytes) (t : Stacks) (u : List (ℕ × State)) (n : ℕ)
    → IsBehind l st
    → resume_in st b t u n ≡ goto l b (record t { u = u; size = n; state = st })
unfolding resume_in
resume_behind arr_val_end in_array b t u n h = refl
resume_behind obj_val_end in_object b t u n h = refl
resume_behind arr_val_end in_object b t u n h = absurd h
resume_behind arr_val_end outside b t u n h = absurd h
resume_behind obj_val_end in_array b t u n h = absurd h
resume_behind obj_val_end outside b t u n h = absurd h
resume_behind arr_val_beg st b t u n h = absurd h
resume_behind obj_val_beg st b t u n h = absurd h

memchr_after :
    (c : ℕ) (w r : Bytes) → All (λ x. (x == c) ≡ false) w → memchr c (w ++ r) ≡ memchr c r
unfolding memchr
memchr_after c [] r h = refl
memchr_after c (x ∷ w) r h = rw (h.0) (memchr_after c w r h.1)

key_no_quote : (w : Bytes) → IsKey w → All (λ x. (x == b'"') ≡ false) w
key_no_quote [] h = tt
key_no_quote (x ∷ w) h = (h.0.1, key_no_quote w h.1)

c_str-key : (w : Bytes) → IsKey w → c_str w ≡ w
unfolding c_str
c_str-key [] h = refl
c_str-key (x ∷ w) h = rw (h.0.0) (ap (λ r. x ∷ r) (c_str-key w h.1))

-- A key in quotes is read back, and what follows is left.
pub parse_key-c_str :
    (w r : Bytes) → IsKey w → parse_key (b'"' ∷ (c_str w ++ b'"' ∷ r)) ≡ some (w, r)
unfolding parse_key
parse_key-c_str w r h = rw (c_str-key w h) (
    rw (memchr_after b'"' w (b'"' ∷ r) (key_no_quote w h))
      (unfold memchr in rw (take_append w (b'"' ∷ r)) refl))

module _ (k : FloatText) (mdp : ℕ) where
  pub items_more-EndsNumber : (a : Items) (r : Bytes) → EndsNumber (items_more k mdp a r)
  unfolding items_more
  items_more-EndsNumber nil r = (refl, refl, refl, refl)
  items_more-EndsNumber (cons v a) r = (refl, refl, refl, refl)

  pub fields_more-EndsNumber : (f : Fields) (r : Bytes) → EndsNumber (fields_more k mdp f r)
  unfolding fields_more
  fields_more-EndsNumber end r = (refl, refl, refl, refl)
  fields_more-EndsNumber (field w v f) r = (refl, refl, refl, refl)

  plain-IsStart :
      (v : Json) (r : Bytes)
      → ReadsAs k (text k mdp v r) v r
      → (c : ℕ) × (cs : Bytes) × (text k mdp v r ≡ c ∷ cs) × IsStart c
  plain-IsStart v r p = (p.first, p.others, p.begins, p.start)

  -- The text of a value starts with a byte that is no white space and no bracket.
  pub text-IsStart :
      (v : Json) (r : Bytes)
      → IsStorable v
      → EndsNumber r
      → (c : ℕ) × (cs : Bytes) × (text k mdp v r ≡ c ∷ cs) × IsStart c
  text-IsStart null r s e = plain-IsStart null r (plain-ReadsAs k mdp null r tt s e)
  text-IsStart (bool x) r s e = plain-IsStart (bool x) r (plain-ReadsAs k mdp (bool x) r tt s e)
  text-IsStart (int i) r s e = plain-IsStart (int i) r (plain-ReadsAs k mdp (int i) r tt s e)
  text-IsStart (double d) r s e = absurd s
  text-IsStart (string w) r s e =
      plain-IsStart (string w) r (plain-ReadsAs k mdp (string w) r tt s e)
  text-IsStart (array a) r s e = (b'[', items_text k mdp a r, unfold text in refl, (refl, refl))
  text-IsStart (object f) r s e = (b'{', fields_text k mdp f r, unfold text in refl, (refl, refl))

  pub skip-text :
      (v : Json) (r : Bytes)
      → IsStorable v
      → EndsNumber r
      → skip_white_space (text k mdp v r) ≡ text k mdp v r
  skip-text v r s e =
      let (c, cs, same, start) = text-IsStart v r s e in
      rw same (unfold skip_white_space in rw (start.0) refl)

  -- A value in an array, behind the bracket or a comma.
  pub step-item :
      (v : Json) (r : Bytes) (t : Stacks)
      → IsStorable v
      → EndsNumber r
      → step k arr_val_beg (text k mdp v r) t ≡ value_at k arr_val_end (text k mdp v r) t
  unfolding step
  step-item v r t s e =
      let (c, cs, same, start) = text-IsStart v r s e in
      rw (skip-text v r s e) (rw same (unfold at_arr_val_beg in rw (start.1) refl))

  -- A key and its colon in an object, behind the brace or a comma.
  pub step-field :
      (w : Bytes) (v : Json) (r : Bytes) (t : Stacks)
      → IsKey w
      → IsStorable v
      → EndsNumber r
      → step k obj_val_beg (b'"' ∷ (c_str w ++ b'"' ∷ b':' ∷ text k mdp v r)) t
        ≡ value_at k obj_val_end (text k mdp v r) (push (key w) t)
  unfolding step at_obj_val_beg named_at colon_at skip_white_space
  step-field w v r t q s e =
      ap (named_at k t) (parse_key-c_str w (b':' ∷ text k mdp v r) q)
      ∙ ap (λ b. value_at k obj_val_end b (push (key w) t)) (skip-text v r s e)
