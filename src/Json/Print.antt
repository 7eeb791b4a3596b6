-- ===== src/Json/Print.antt =====
-- Values to text: `find_escapse`, `Json::_json2str` and `Json::_json2pretty` of src/json.cc. The
-- stream `fs` is kept last byte first, so that its head is `fs.back()`.
use cocoyaxi.Base.{
  ℕ, zero, suc, ◌+◌, ◌-◌, Bool, true, false, ◌&&◌, [], ◌∷◌, ltb, ◌==◌, if◌then◌else◌, Bytes, length,
  take, reverse_aux,
}
use cocoyaxi.Fast.{i64toa}
use cocoyaxi.Json.Tables.{e2s}
use cocoyaxi.Json.Value.{
  Json, null, bool, int, double, string, array, object, Items, nil, cons, Fields, end, field,
  FloatText,
}

-- The bytes up to the first that needs an escape, that byte's letter (0 at the end), and the rest.
pub record Found : Type 0 where
  pub before : Bytes
  pub letter : ℕ
  pub rest : Bytes

abbrev pub put_before : ℕ → Found → Found
put_before c f = record f { before = c ∷ f.before }

-- The loop behind `#else`, and the tail of the one that is used: a byte at a time.
unfoldable pub find_slow : Bytes → Found
find_slow [] = record { before = []; letter = 0; rest = [] }
find_slow (b ∷ bs) =
    let more = put_before b (find_slow bs) in
    if e2s b == 0 then more else record { before = []; letter = e2s b; rest = b ∷ bs }

-- One test of the unrolled loops.
unfoldable pub probe : ℕ → Bytes → Found → Found
probe b bs more =
    if e2s b == 0 then put_before b more else record { before = []; letter = e2s b; rest = b ∷ bs }

-- The tail of the unrolled loop: four bytes at once if there are so many, then one by one.
unfoldable pub find_four : Bytes → Found
find_four (b0 ∷ b1 ∷ b2 ∷ b3 ∷ bs) =
    probe b0 (b1 ∷ b2 ∷ b3 ∷ bs)
      (probe b1 (b2 ∷ b3 ∷ bs) (probe b2 (b3 ∷ bs) (probe b3 bs (find_slow bs))))
find_four bs = find_slow bs

unfoldable pub find_escapse : Bytes → Found
find_escapse (b0 ∷ b1 ∷ b2 ∷ b3 ∷ b4 ∷ b5 ∷ b6 ∷ b7 ∷ bs) =
    let later = find_escapse bs in
    probe b0 (b1 ∷ b2 ∷ b3 ∷ b4 ∷ b5 ∷ b6 ∷ b7 ∷ bs) (
      probe b1 (b2 ∷ b3 ∷ b4 ∷ b5 ∷ b6 ∷ b7 ∷ bs) (
        probe b2 (b3 ∷ b4 ∷ b5 ∷ b6 ∷ b7 ∷ bs) (
          probe b3 (b4 ∷ b5 ∷ b6 ∷ b7 ∷ bs) (
            probe b4 (b5 ∷ b6 ∷ b7 ∷ bs)
              (probe b5 (b6 ∷ b7 ∷ bs) (probe b6 (b7 ∷ bs) (probe b7 bs later)))))))
find_escapse bs = find_four bs

-- A round of the loop of `case t_string`: the bytes before an escape and the escape go to the stream,
-- and `again` does what is left; at the end, all that is left goes there.
unfoldable pub escape_next : (Bytes → Bytes → Bytes) → Bytes → ℕ → Bytes → Bytes → Bytes
escape_next again before letter [] fs = reverse_aux before fs
escape_next again before letter (p ∷ after) fs =
    again after (letter ∷ b'\\' ∷ reverse_aux before fs)

-- Each round but the last takes a byte at least, so that one more round than bytes is enough.
unfoldable pub escape_onto : ℕ → Bytes → Bytes → Bytes
escape_onto zero s fs = fs
escape_onto (suc rounds) s fs =
    let f = find_escapse s in escape_next (escape_onto rounds) f.before f.letter f.rest fs

-- `case t_string` of `_json2str`.
unfoldable pub print_string : Bool → Bytes → Bytes → Bytes
print_string debug s fs =
    let trunc = debug && ltb 512 (length s) in
    let shown = if trunc then take 32 s else s in
    let out = escape_onto (suc (length shown)) shown (b'"' ∷ fs) in
    b'"' ∷ (if trunc then reverse_aux (b'.' ∷ b'.' ∷ b'.' ∷ []) out else out)

-- A key is a C string: it ends before its first zero byte.
unfoldable pub c_str : Bytes → Bytes
c_str [] = []
c_str (c ∷ cs) = let rest = c ∷ c_str cs in if c == 0 then [] else rest

-- The closing byte takes the place of a comma at the end.
unfoldable pub close_with : ℕ → Bytes → Bytes
close_with c [] = c ∷ []
close_with c (b ∷ fs) = if b == b',' then c ∷ fs else c ∷ b ∷ fs

abbrev pub true_text : Bytes
true_text = b't' ∷ b'r' ∷ b'u' ∷ b'e' ∷ []

abbrev pub false_text : Bytes
false_text = b'f' ∷ b'a' ∷ b'l' ∷ b's' ∷ b'e' ∷ []

abbrev pub null_text : Bytes
null_text = b'n' ∷ b'u' ∷ b'l' ∷ b'l' ∷ []

module _ (k : FloatText) (debug : Bool) (mdp : ℕ) where
  unfoldable mutual
    pub json2str : Json → Bytes → Bytes
    json2str null fs = reverse_aux null_text fs
    json2str (string s) fs = print_string debug s fs
    json2str (object f) fs = close_with b'}' (fields2str f (b'{' ∷ fs))
    json2str (array a) fs = close_with b']' (items2str a (b'[' ∷ fs))
    json2str (int i) fs = reverse_aux (i64toa i) fs
    json2str (bool v) fs = reverse_aux (if v then true_text else false_text) fs
    json2str (double d) fs = reverse_aux (k.dtoa mdp d) fs

    -- The loop of `case t_array`.
    pub items2str : Items → Bytes → Bytes
    items2str nil fs = fs
    items2str (cons v a) fs = items2str a (b',' ∷ json2str v fs)

    -- The loop of `case t_object`.
    pub fields2str : Fields → Bytes → Bytes
    fields2str end fs = fs
    fields2str (field key v f) fs =
        fields2str f (b',' ∷ json2str v (b':' ∷ b'"' ∷ reverse_aux (c_str key) (b'"' ∷ fs)))

abbrev pub spaces : ℕ → Bytes → Bytes
spaces zero fs = fs
spaces (suc n) fs = b' ' ∷ spaces n fs

-- The line break in place of the last comma, with the closing byte's indentation.
unfoldable pub close_line : ℕ → ℕ → Bytes → Bytes
close_line indent n [] = []
close_line indent n (b ∷ fs) =
    if b == b','
    then (if ltb indent n then spaces (n - indent) (b'\n' ∷ fs) else b'\n' ∷ fs)
    else b ∷ fs

module _ (k : FloatText) (indent mdp : ℕ) where
  unfoldable mutual
    pub json2pretty : Json → ℕ → Bytes → Bytes
    json2pretty (object f) n fs = b'}' ∷ close_line indent n (fields2pretty f n (b'{' ∷ fs))
    json2pretty (array a) n fs = b']' ∷ close_line indent n (items2pretty a n (b'[' ∷ fs))
    json2pretty null n fs = reverse_aux null_text fs
    json2pretty (string s) n fs = json2str k false mdp (string s) fs
    json2pretty (int i) n fs = json2str k false mdp (int i) fs
    json2pretty (bool v) n fs = json2str k false mdp (bool v) fs
    json2pretty (double d) n fs = json2str k false mdp (double d) fs

    pub items2pretty : Items → ℕ → Bytes → Bytes
    items2pretty nil n fs = fs
    items2pretty (cons v a) n fs =
        items2pretty a n (b',' ∷ json2pretty v (n + indent) (spaces n (b'\n' ∷ fs)))

    pub fields2pretty : Fields → ℕ → Bytes → Bytes
    fields2pretty end n fs = fs
    fields2pretty (field key v f) n fs = fields2pretty f n (
        b','
        ∷ json2pretty v (n + indent)
            (b' ' ∷ b':' ∷ b'"' ∷ reverse_aux (c_str key) (b'"' ∷ spaces n (b'\n' ∷ fs))))

-- `Json::str`, `Json::dbg` and `Json::pretty` on an empty stream.
unfoldable pub str : FloatText → ℕ → Json → Bytes
str k mdp v = reverse_aux (json2str k false mdp v []) []

unfoldable pub dbg : FloatText → ℕ → Json → Bytes
dbg k mdp v = reverse_aux (json2str k true mdp v []) []

unfoldable pub pretty : FloatText → ℕ → Json → Bytes
pretty k mdp v = reverse_aux (json2pretty k 4 mdp v 4 []) []
