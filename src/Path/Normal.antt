-- ===== src/Path/Normal.antt =====
-- The path that `clean` returns.
use cocoyaxi.Base.{
  ℕ, suc, ◌≤◌, ◌<◌, Bool, true, false, List, [], ◌∷◌, ◌++◌, append-nil, ◌==◌, if◌then◌else◌, Bytes,
  length, reverse_aux, reverse_aux_both, length-reverse_aux, reverse_aux_front, ◌≡◌, inl, inr, refl,
  sym, ap, ◌∙◌, arith, Bool-cases, subst, ==_iff,
}
use cocoyaxi.Path.{is_slash, add_slash, clean_from, dot_if_empty, clean}
use cocoyaxi.Path.Words.{words, resolve, joined, shown, starts_at_root, elements}
use cocoyaxi.Path.Clean.{
  buffer, AreNormal, Stops-AreNormal, base_len, length-add_slash, is_some, Cleans,
  clean_from-Cleans,
}

abbrev plain : Bool → List Bytes → Bytes
plain rooted st = if rooted then b'/' ∷ joined st else joined st

buffer_low : (rooted : Bool) (st : List Bytes) → base_len rooted ≤ length (buffer rooted st)
buffer_low true [] = omega arith
buffer_low false [] = omega arith
buffer_low rooted (w ∷ st) = omega (
  arith,
  length-reverse_aux w (add_slash rooted (buffer rooted st)),
  length-add_slash rooted (buffer rooted st),
  buffer_low rooted st,
)

head_some : (rooted : Bool) (w : Bytes) (st : List Bytes) → AreNormal rooted (w ∷ st) → 0 < length w
head_some rooted w st (inl h) = is_some w (h.0).1
head_some rooted w st (inr h) = rw ((h.1).0) (omega arith)

below :
    (rooted : Bool) (w : Bytes) (st : List Bytes) → AreNormal rooted (w ∷ st) → AreNormal rooted st
below rooted w st (inl h) = h.1
below rooted w [] (inr h) = tt
below rooted w (v ∷ st) (inr h) = inr (h.0, h.1.1)

buffer_over :
    (rooted : Bool) (w : Bytes) (st : List Bytes)
    → AreNormal rooted (w ∷ st)
    → base_len rooted < length (buffer rooted (w ∷ st))
buffer_over rooted w st h = omega (
  arith,
  length-reverse_aux w (add_slash rooted (buffer rooted st)),
  length-add_slash rooted (buffer rooted st),
  buffer_low rooted st,
  head_some rooted w st h,
)

plain_append :
    (rooted : Bool) (xs ys : Bytes)
    → (if rooted then b'/' ∷ xs else xs) ++ ys ≡ (if rooted then b'/' ∷ xs ++ ys else xs ++ ys)
plain_append true xs ys = refl
plain_append false xs ys = refl

reverse_aux-buffer :
    (rooted : Bool) (st : List Bytes)
    → AreNormal rooted st
    → reverse_aux (buffer rooted st) [] ≡ plain rooted st
reverse_aux-buffer true [] h = refl
reverse_aux-buffer false [] h = refl
reverse_aux-buffer true (w ∷ []) h =
    reverse_aux_both w (b'/' ∷ []) [] ∙ ap (λ l. b'/' ∷ l) (append-nil w)
reverse_aux-buffer false (w ∷ []) h = reverse_aux_both w [] [] ∙ append-nil w
reverse_aux-buffer rooted (w ∷ w' ∷ st) h =
    let low = below rooted w (w' ∷ st) h in
    let over = buffer_over rooted w' st low in
    let longer : (length (buffer rooted (w' ∷ st)) == base_len rooted) ≡ false = ground arith in
    rw longer (
      reverse_aux_both w (b'/' ∷ buffer rooted (w' ∷ st)) []
      ∙ ap (λ l. reverse_aux (buffer rooted (w' ∷ st)) (b'/' ∷ l)) (append-nil w)
      ∙ reverse_aux_front (buffer rooted (w' ∷ st)) (b'/' ∷ w)
      ∙ ap (λ l. l ++ b'/' ∷ w) (reverse_aux-buffer rooted (w' ∷ st) low)
      ∙ plain_append rooted (joined (w' ∷ st)) (b'/' ∷ w))

dot_if_empty_some : (r : Bytes) → 0 < length r → dot_if_empty r ≡ reverse_aux r []
dot_if_empty_some [] h = absurd (omega arith)
dot_if_empty_some (c ∷ r) h = refl

dot_if_empty-shown :
    (rooted : Bool) (st : List Bytes)
    → AreNormal rooted st
    → dot_if_empty (buffer rooted st) ≡ shown rooted st
dot_if_empty-shown true st h =
    dot_if_empty_some (buffer true st) (buffer_low true st) ∙ reverse_aux-buffer true st h
dot_if_empty-shown false [] h = refl
dot_if_empty-shown false (w ∷ st) h =
    dot_if_empty_some (buffer false (w ∷ st)) (buffer_over false w st h)
    ∙ reverse_aux-buffer false (w ∷ st) h

-- The text and the elements of a cleaned path.
abbrev pub IsCleaned : Bool → List Bytes → Bytes → Type 0
IsCleaned rooted st r = (r ≡ shown rooted st) × AreNormal rooted st

Cleans-IsCleaned :
    (rooted : Bool) (st : List Bytes) (r : Bytes)
    → Cleans rooted st r
    → IsCleaned rooted st (dot_if_empty r)
Cleans-IsCleaned rooted st r h =
    let normal = Stops-AreNormal rooted st h.1 h.2 in
    (ap dot_if_empty h.0 ∙ dot_if_empty-shown rooted st normal, normal)

clean_relative :
    (c : ℕ) (s : Bytes)
    → is_slash c ≡ false
    → clean (c ∷ s) ≡ dot_if_empty (clean_from (suc (length s)) false (c ∷ s) [] 0)
unfolding clean
clean_relative c s e = rw e refl

-- `clean` gives the text of the elements of the path, where an empty element and a dot are left out,
-- and `..` takes off the element before it or, at the root, does nothing; the text is a dot if none
-- is left. Of what is left, no element is empty, is a dot or has a slash, and `..` stands only at the
-- beginning of a path that does not start with a slash.
pub clean-shown : (s : Bytes) → IsCleaned (starts_at_root s) (elements s) (clean s)
unfolding clean
clean-shown [] = (refl, tt)
clean-shown (c ∷ s) = elim (Bool-cases (is_slash c)) [
  | inl e ↦ rw e (
      Cleans-IsCleaned true (resolve true (words s) []) (clean_from (length s) true s (c ∷ []) 1) (
        subst
          (λ x. Cleans true (resolve true (words s) []) (clean_from (length s) true s (x ∷ []) 1))
          (sym ((==_iff c b'/').0 e))
          (clean_from-Cleans (length s) true s [] 1 (omega arith) refl)))
  | inr e ↦
      subst (λ b. IsCleaned b (resolve b (words (c ∷ s)) []) (clean (c ∷ s))) (sym e)
        (subst (IsCleaned false (resolve false (words (c ∷ s)) [])) (sym (clean_relative c s e)) (
          Cleans-IsCleaned false (resolve false (words (c ∷ s)) [])
            (clean_from (suc (length s)) false (c ∷ s) [] 0)
            (clean_from-Cleans (suc (length s)) false (c ∷ s) [] 0 (omega arith) refl)))
]
