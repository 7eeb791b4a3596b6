-- ===== src/Json/Strings.antt =====
-- `parse_string` reads back the text of a string.
use cocoyaxi.Base.{
  ℕ, zero, suc, ◌+◌, ◌-◌, ◌≤◌, ◌<◌, Bool, true, false, not, Option, none, some, [], ◌∷◌, ◌++◌, ◌==◌,
  if◌then◌else◌, Bytes, IsBytes, All, length, length-append, take, take_append, take-longer,
  drop-length, reverse_aux, reverse_aux-append, reverse_aux_twice, append-nil, append_assoc, ◌≡◌,
  refl, sym, ap, ◌∙◌, arith, Bool-cases, inl, inr, holds_below, holds_below_at, lt→ltb, le→not_ltb,
  ◌&&◌,
}
use cocoyaxi.Json.Tables.{e2s, s2e}
use cocoyaxi.Json.Value.{string}
use cocoyaxi.Json.Scan.{
  memchr, span, find_slash, find_quote, escape_step, requote, string_next, string_loop,
  string_first, parse_string, token,
}
use cocoyaxi.Json.Escapes.{escaped}

-- A byte with no escape is no quote and no backslash, and any other is given back by its letter.
escape_fits : ℕ → Bool
escape_fits c =
    if e2s c == 0
    then not (c == b'"') && not (c == b'\\')
    else s2e (e2s c) == c && not (c == 0) && not (e2s c == b'u')

escape_table : holds_below escape_fits 256 ≡ true
unfolding holds_below escape_fits e2s s2e
escape_table = refl

abbrev IsPlain : ℕ → Type 0
IsPlain c = ((c == b'"') ≡ false) × ((c == b'\\') ≡ false)

no_escape-IsPlain : (c : ℕ) → c < 256 → (e2s c == 0) ≡ true → IsPlain c
unfolding escape_fits
no_escape-IsPlain c h e = ground (arith, holds_below_at escape_fits 256 c escape_table h)

escape_step-letter :
    (c : ℕ) (r s : Bytes)
    → c < 256
    → (e2s c == 0) ≡ false
    → escape_step (e2s c ∷ r) s ≡ some (e2s c ∷ r, c ∷ s)
unfolding escape_step escape_fits
escape_step-letter c r s h e = ground (arith, holds_below_at escape_fits 256 c escape_table h)

quote_skip : (pre r : Bytes) → All IsPlain pre → memchr b'"' (pre ++ r) ≡ memchr b'"' r
unfolding memchr
quote_skip [] r h = refl
quote_skip (c ∷ pre) r h = rw (h.0.0) (quote_skip pre r h.1)

slash_skip : (pre r : Bytes) → All IsPlain pre → memchr b'\\' (pre ++ r) ≡ memchr b'\\' r
unfolding memchr
slash_skip [] r h = refl
slash_skip (c ∷ pre) r h = rw (h.0.1) (slash_skip pre r h.1)

memchr_le : (c : ℕ) (b p : Bytes) → memchr c b ≡ some p → length p ≤ length b
unfolding memchr
memchr_le c [] p e = cc
memchr_le c (x ∷ xs) p e = ground (arith, memchr_le c xs p)

quote_found : (xs r : Bytes) → (p : Bytes) × (memchr b'"' (xs ++ b'"' ∷ r) ≡ some p)
unfolding memchr
quote_found [] r = (b'"' ∷ r, refl)
quote_found (c ∷ xs) r = elim (Bool-cases (c == b'"')) [
  | inl here ↦ (c ∷ (xs ++ b'"' ∷ r), rw here refl)
  | inr later ↦ let (p, e) = quote_found xs r in (p, rw later e)
]

find_slash-none : (pre r : Bytes) → All IsPlain pre → find_slash (pre ++ r) r ≡ none
unfolding find_slash
find_slash-none pre r h =
    rw (take_append pre r)
      (rw (← append-nil pre) (rw (slash_skip pre [] h) (unfold memchr in refl)))

find_slash_hit :
    (pre r p : Bytes)
    → All IsPlain pre
    → length p ≤ length r
    → find_slash (pre ++ b'\\' ∷ r) p ≡ some (b'\\' ∷ r)
unfolding find_slash
find_slash_hit pre r p h le =
    let z : Bytes = take (length r - length p) r in
    let e : length (pre ++ b'\\' ∷ r) - length p ≡ length pre + suc (length r - length p) =
      omega (arith, length-append pre (b'\\' ∷ r)) in
    let cut : span (pre ++ b'\\' ∷ r) p ≡ pre ++ b'\\' ∷ z =
      rw e (take-longer (length r - length p) pre r b'\\') in
    rw cut (
      rw (slash_skip pre (b'\\' ∷ z) h) (
        unfold memchr in
        let gone : length (pre ++ b'\\' ∷ z) - length (b'\\' ∷ z) ≡ length pre =
          omega (arith, length-append pre (b'\\' ∷ z)) in
        ap some (rw gone (drop-length pre (b'\\' ∷ r)))))

-- The next quote is the first one behind the escape, whether or not the escape was one.
requote-quote :
    (l : ℕ) (r p p' : Bytes)
    → memchr b'"' (l ∷ r) ≡ some p
    → memchr b'"' r ≡ some p'
    → requote r p ≡ some p'
unfolding requote find_quote memchr
requote-quote l r p p' e e' = elim (Bool-cases (l == b'"')) [
  | inl here ↦
      let same : some (l ∷ r) ≡ some p = rw (here, memchr) at e in
      let longer : length (l ∷ r) ≡ length p = ground arith in
      rw (lt→ltb (length r) (length p) (omega arith)) e'
  | inr later ↦
      let same : memchr b'"' r ≡ some p = rw (later, memchr) at e in
      rw (le→not_ltb (length r) (length p) (memchr_le b'"' r p same)) (sym same ∙ e')
]

memchr_behind : (r : Bytes) → memchr b'"' (b'\\' ∷ r) ≡ memchr b'"' r
unfolding memchr
memchr_behind r = refl

memchr_quote : (r : Bytes) → memchr b'"' (b'"' ∷ r) ≡ some (b'"' ∷ r)
unfolding memchr
memchr_quote r = refl

escaped_ordinary : (c : ℕ) (w : Bytes) → (e2s c == 0) ≡ true → escaped (c ∷ w) ≡ c ∷ escaped w
unfolding escaped
escaped_ordinary c w e = rw e refl

escaped_special :
    (c : ℕ) (w : Bytes) → (e2s c == 0) ≡ false → escaped (c ∷ w) ≡ b'\\' ∷ e2s c ∷ escaped w
unfolding escaped
escaped_special c w e = rw e refl

All-append : (xs : Bytes) (c : ℕ) → All IsPlain xs → IsPlain c → All IsPlain (xs ++ c ∷ [])
All-append [] c h k = (k, tt)
All-append (x ∷ xs) c h k = (h.0, All-append xs c h.1 k)

-- The rest of an escaped text, with its closing quote.
abbrev quoted : Bytes → Bytes → Bytes
quoted w rest = escaped w ++ b'"' ∷ rest

-- The text read by one round at an escape, and by the rounds behind it.
string_next-escape :
    (f : ℕ) (c : ℕ) (pre r p p' s : Bytes)
    → c < 256
    → (e2s c == 0) ≡ false
    → All IsPlain pre
    → memchr b'"' (pre ++ b'\\' ∷ e2s c ∷ r) ≡ some p
    → memchr b'"' r ≡ some p'
    → (let b : Bytes = pre ++ b'\\' ∷ e2s c ∷ r in
        string_next (string_loop (suc f)) b p s (find_slash b p))
      ≡ string_next (string_loop f) r p' (c ∷ reverse_aux pre s) (find_slash r p')
string_next-escape f c pre r p p' s h special plain e e' =
    let behind : memchr b'"' (e2s c ∷ r) ≡ some p =
      sym (quote_skip pre (b'\\' ∷ e2s c ∷ r) plain ∙ memchr_behind (e2s c ∷ r)) ∙ e in
    rw (find_slash_hit pre (e2s c ∷ r) p plain (memchr_le b'"' (e2s c ∷ r) p behind)) (
      unfold string_next string_loop in
      rw (take_append pre (b'\\' ∷ e2s c ∷ r)) (
        rw (escape_step-letter c r (reverse_aux pre s) h special)
          (rw (requote-quote (e2s c) r p p' behind e') refl)))

string_next_end :
    (pre : Bytes) (f : ℕ) (p s rest : Bytes)
    → All IsPlain pre
    → memchr b'"' (pre ++ b'"' ∷ rest) ≡ some p
    → string_next (string_loop f) (pre ++ b'"' ∷ rest) p s (find_slash (pre ++ b'"' ∷ rest) p)
      ≡ token (some (string (reverse_aux (reverse_aux pre s) []), rest))
string_next_end pre f p s rest plain e =
    let found : some (b'"' ∷ rest) ≡ some p =
      sym (quote_skip pre (b'"' ∷ rest) plain ∙ memchr_quote rest) ∙ e in
    let here : b'"' ∷ rest ≡ p = cc found in
    rw (← here) (
      rw (find_slash-none pre (b'"' ∷ rest) plain)
        (unfold string_next in rw (take_append pre (b'"' ∷ rest)) refl))

string_next-escaped :
    (w pre : Bytes) (f : ℕ) (p s rest : Bytes)
    → IsBytes w
    → All IsPlain pre
    → length w ≤ f
    → memchr b'"' (pre ++ quoted w rest) ≡ some p
    → string_next (string_loop f) (pre ++ quoted w rest) p s (find_slash (pre ++ quoted w rest) p)
      ≡ token (some (string (reverse_aux (reverse_aux (pre ++ w) s) []), rest))
string_next-escaped [] pre f p s rest bytes plain h e =
    rw (append-nil pre) (unfold escaped in string_next_end pre f p s rest plain e)
string_next-escaped (c ∷ w) pre zero p s rest bytes plain h e = absurd (omega arith)
string_next-escaped (c ∷ w) pre (suc f) p s rest bytes plain h e = elim (Bool-cases (e2s c == 0)) [
  | inl ordinary ↦
      let shift : pre ++ quoted (c ∷ w) rest ≡ (pre ++ c ∷ []) ++ quoted w rest =
        rw (escaped_ordinary c w ordinary) (sym (append_assoc pre (c ∷ []) (quoted w rest))) in
      rw shift (
        string_next-escaped w (pre ++ c ∷ []) (suc f) p s rest bytes.1
          (All-append pre c plain (no_escape-IsPlain c bytes.0 ordinary)) (omega arith)
          (rw shift at e)
        ∙ rw (append_assoc pre (c ∷ []) w) refl)
  | inr special ↦
      let (p', e') = quote_found (escaped w) rest in
      let split : pre ++ quoted (c ∷ w) rest ≡ pre ++ b'\\' ∷ e2s c ∷ quoted w rest =
        rw (escaped_special c w special) refl in
      rw split (
        string_next-escape f c pre (quoted w rest) p p' s bytes.0 special plain (rw split at e) e'
        ∙ string_next-escaped w [] f p' (c ∷ reverse_aux pre s) rest bytes.1 tt (omega arith) e'
        ∙ ap (λ r. token (some (string (reverse_aux r []), rest)))
            (sym (reverse_aux-append pre (c ∷ w) s)))
]

length-quoted : (w rest : Bytes) → length w ≤ length (quoted w rest)
unfolding escaped
length-quoted [] rest = omega arith
length-quoted (c ∷ w) rest = ground (arith, length-quoted w rest)

string_first-next :
    (b p : Bytes) (o : Option Bytes)
    → string_first b p o ≡ string_next (string_loop (suc (length b))) b p [] o
unfolding string_first string_next
string_first-next b p none = rw (reverse_aux_twice (span b p)) refl
string_first-next b p (some q) = refl

-- Whatever bytes below 256 a string holds, its escaped text in quotes is read back, and what follows
-- is left.
pub parse_string-escaped :
    (w rest : Bytes)
    → IsBytes w
    → parse_string (b'"' ∷ (escaped w ++ b'"' ∷ rest)) ≡ token (some (string w, rest))
unfolding parse_string find_quote
parse_string-escaped w rest bytes =
    let (p, e) = quote_found (escaped w) rest in
    rw e (
      string_first-next (quoted w rest) p (find_slash (quoted w rest) p)
      ∙ string_next-escaped w [] (suc (length (quoted w rest))) p [] rest bytes tt
          (omega (arith, length-quoted w rest)) e
      ∙ rw (reverse_aux_twice w) refl)
