-- ===== src/Json/RoundTrip.antt =====
-- `Json::parse_from` on what `Json::str` writes, by induction on the value: the machine reads a value
-- of a container and is behind it, and reads a container and closes it.
pub mod Closing
use cocoyaxi.Base.{
  ℕ, suc, true, some, List, [], ◌∷◌, ◌++◌, Bytes, length, ◌≡◌, refl, ap, ◌∙◌, arith,
}
use cocoyaxi.Json.Value.{
  Json, null, bool, int, double, string, array, object, Items, nil, cons, Fields, end, field,
  FloatText,
}
use cocoyaxi.Json.Print.{str}
use cocoyaxi.Json.Machine.{
  skip_white_space, Slot, key, val, State, in_object, in_array, outside, Stacks, Label, obj_val_beg,
  obj_val_end, arr_val_beg, arr_val_end, Next, goto, push, open_with, to_items, to_fields, fill,
  resume_in, pop_value, keep_value, value_at, at_obj_val_beg, at_obj_val_end, at_arr_val_beg,
  at_arr_val_end, step, at_end, is_end, run, top_value, empty_stacks, dispatch, parse, result,
  parse_from,
}
use cocoyaxi.Json.Digits.{EndsNumber}
use cocoyaxi.Json.Text.{
  text, items_text, items_more, fields_text, fields_more, IsStorable, AllItems, AllFields, str-text,
}
use cocoyaxi.Json.Plain.{ReadsAs, plain-ReadsAs}
use cocoyaxi.Json.Starts.{
  IsBehind, resume_behind, items_more-EndsNumber, fields_more-EndsNumber, skip-text, step-item,
  step-field,
}
use cocoyaxi.Json.Reach.{
  here, Lands, lands, Closes, last, more, Closes-Reach, step-Closes, run-Closes, close-filled,
}
use Closing.{
  item_slots, items_filled, field_slots, fields_filled, inside, closed, arr_end_step, arr_beg_step,
  obj_end_step, obj_beg_step, arr_comma, obj_comma, open_array, open_object, run-closed,
}

module _ (k : FloatText) (mdp : ℕ) where
  plain-Lands :
      (v : Json) (r : Bytes) (t : Stacks) (l : Label)
      → ReadsAs k (text k mdp v r) v r
      → Lands k l r (push (val v) t) (value_at k l (text k mdp v r) t)
  unfolding value_at keep_value
  plain-Lands v r t l p =
      lands (rw (p.begins, p.no_object, p.no_array, p.reads) refl) (here refl refl refl)

  -- The members of the induction: a value that is read, an array from its bracket on and behind
  -- an element, and an object in the same way.
  mutual
    unfolding text items_text items_more fields_text fields_more push

    value-Lands :
        (v : Json) (r : Bytes) (t : Stacks) (l : Label)
        → IsStorable v
        → EndsNumber r
        → IsBehind l t.state
        → Lands k l r (push (val v) t) (value_at k l (text k mdp v r) t)
    value-Lands null r t l s e h = plain-Lands null r t l (plain-ReadsAs k mdp null r tt s e)
    value-Lands (bool x) r t l s e h =
        plain-Lands (bool x) r t l (plain-ReadsAs k mdp (bool x) r tt s e)
    value-Lands (int i) r t l s e h =
        plain-Lands (int i) r t l (plain-ReadsAs k mdp (int i) r tt s e)
    value-Lands (string w) r t l s e h =
        plain-Lands (string w) r t l (plain-ReadsAs k mdp (string w) r tt s e)
    value-Lands (double d) r t l s e h = absurd s
    value-Lands (array a) r t l s e h = lands (open_array k _ t l) (
        Closes-Reach (resume_behind l t.state r _ t.u t.size h)
          (items_close a r t.s t.size t.state t.u s))
    value-Lands (object f) r t l s e h = lands (open_object k _ t l) (
        Closes-Reach (resume_behind l t.state r _ t.u t.size h)
          (fields_close f r t.s t.size t.state t.u s))

    items_close :
        (a : Items) (r : Bytes) (s : List Slot) (n : ℕ) (st0 : State) (u : List (ℕ × State))
        → AllItems a
        → Closes k
            (closed in_array (array a) s n st0 u r)
            arr_val_beg
            (items_text k mdp a r)
            (inside in_array (array nil) [] s n st0 u)
    items_close nil r s n st0 u h = last (arr_beg_step k s n st0 u r)
    items_close (cons v a) r s n st0 u h =
        let ends = items_more-EndsNumber k mdp a r in
        let t : Stacks = inside in_array (array nil) [] s n st0 u in
        step-Closes arr_val_beg (text k mdp v (items_more k mdp a r)) t
          (step-item k mdp v (items_more k mdp a r) t h.0 ends)
          (value-Lands v (items_more k mdp a r) t arr_val_end h.0 ends tt)
          (items_more_close a (cons v a) r (val v ∷ []) s n st0 u h.1 (items_filled (cons v a)))

    items_more_close :
        (a whole : Items) (r : Bytes) (es s : List Slot) (n : ℕ) (st0 : State)
        (u : List (ℕ × State))
        → AllItems a
        → to_items (item_slots a es) nil ≡ some whole
        → Closes k
            (closed in_array (array whole) s n st0 u r)
            arr_val_end
            (items_more k mdp a r)
            (inside in_array (array nil) es s n st0 u)
    items_more_close nil whole r es s n st0 u h e = last (arr_end_step k whole es s n st0 u r e)
    items_more_close (cons v a) whole r es s n st0 u h e =
        let ends = items_more-EndsNumber k mdp a r in
        let t : Stacks = inside in_array (array nil) es s n st0 u in
        more (arr_comma k _ t) (
          step-Closes arr_val_beg (text k mdp v (items_more k mdp a r)) t
            (step-item k mdp v (items_more k mdp a r) t h.0 ends)
            (value-Lands v (items_more k mdp a r) t arr_val_end h.0 ends tt)
            (items_more_close a whole r (val v ∷ es) s n st0 u h.1 e))

    fields_close :
        (f : Fields) (r : Bytes) (s : List Slot) (n : ℕ) (st0 : State) (u : List (ℕ × State))
        → AllFields f
        → Closes k
            (closed in_object (object f) s n st0 u r)
            obj_val_beg
            (fields_text k mdp f r)
            (inside in_object (object end) [] s n st0 u)
    fields_close end r s n st0 u h = last (obj_beg_step k s n st0 u r)
    fields_close (field w v f) r s n st0 u h =
        let ends = fields_more-EndsNumber k mdp f r in
        let t : Stacks = inside in_object (object end) [] s n st0 u in
        step-Closes obj_val_beg _ t (step-field k mdp w v (fields_more k mdp f r) t h.0 h.1 ends)
          (value-Lands v (fields_more k mdp f r) (push (key w) t) obj_val_end h.1 ends tt)
          (fields_more_close f (field w v f) r (val v ∷ key w ∷ []) s n st0 u h.2
            (fields_filled (field w v f)))

    fields_more_close :
        (f whole : Fields) (r : Bytes) (es s : List Slot) (n : ℕ) (st0 : State)
        (u : List (ℕ × State))
        → AllFields f
        → to_fields (field_slots f es) end ≡ some whole
        → Closes k
            (closed in_object (object whole) s n st0 u r)
            obj_val_end
            (fields_more k mdp f r)
            (inside in_object (object end) es s n st0 u)
    fields_more_close end whole r es s n st0 u h e = last (obj_end_step k whole es s n st0 u r e)
    fields_more_close (field w v f) whole r es s n st0 u h e =
        let ends = fields_more-EndsNumber k mdp f r in
        let t : Stacks = inside in_object (object end) es s n st0 u in
        more (obj_comma k _ t) (
          step-Closes obj_val_beg _ t (step-field k mdp w v (fields_more k mdp f r) t h.0 h.1 ends)
            (value-Lands v (fields_more k mdp f r) (push (key w) t) obj_val_end h.1 ends tt)
            (fields_more_close f whole r (val v ∷ key w ∷ es) s n st0 u h.2 e))

  plain_dispatch :
      (v : Json)
      → ReadsAs k (text k mdp v []) v []
      → dispatch k (text k mdp v []) ≡ at_end v [] empty_stacks
  unfolding dispatch top_value
  plain_dispatch v p = rw (p.begins, p.no_object, p.no_array, p.reads) refl

  outer : Stacks
  outer = record { s = []; u = []; size = 1; state = outside }

  dispatch-text :
      (v : Json) → IsStorable v → (t : Stacks) × (dispatch k (text k mdp v []) ≡ at_end v [] t)
  unfolding dispatch text open_with outer
  dispatch-text null s = (empty_stacks, plain_dispatch null (plain-ReadsAs k mdp null [] tt s tt))
  dispatch-text (bool x) s =
      (empty_stacks, plain_dispatch (bool x) (plain-ReadsAs k mdp (bool x) [] tt s tt))
  dispatch-text (int i) s =
      (empty_stacks, plain_dispatch (int i) (plain-ReadsAs k mdp (int i) [] tt s tt))
  dispatch-text (string w) s =
      (empty_stacks, plain_dispatch (string w) (plain-ReadsAs k mdp (string w) [] tt s tt))
  dispatch-text (double d) s = absurd s
  dispatch-text (array a) s =
      (outer, run-closed k in_array (array a) arr_val_beg _ _ (items_close a [] [] 0 outside [] s))
  dispatch-text (object f) s = (
    outer,
    run-closed k in_object (object f) obj_val_beg _ _ (fields_close f [] [] 0 outside [] s),
  )

-- A value of null, booleans, 64-bit integers, strings of bytes, and arrays and objects of such values
-- whose keys have no zero byte and no quote, printed by `str` and parsed again, gives the same value
-- and success, whatever `strtod` and the printer of doubles are.
pub parse_from-str :
    (k : FloatText) (mdp : ℕ) (v : Json) → IsStorable v → parse_from k (str k mdp v) ≡ (v, true)
unfolding parse_from parse
parse_from-str k mdp v s =
    let (t, e) = dispatch-text k mdp v s in
    rw (str-text k mdp v)
      (rw (skip-text k mdp v [] s tt) (rw e (unfold at_end is_end skip_white_space result in refl)))
