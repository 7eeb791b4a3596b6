-- ===== src/Json/Progress/Enough.antt =====
-- The rounds that the model gives the loop of `parse_string` are enough.
use cocoyaxi.Base.{
  ℕ, zero, suc, ◌<◌, ◌≢◌, Option, none, some, Bytes, length, tail, reverse_aux, ◌≡◌, refl, arith,
  Option-cases, inl, inr,
}
use cocoyaxi.Json.Scan.{
  Token, endless, span, find_slash, escape_step, requote, string_loop, string_next,
}
use cocoyaxi.Json.Progress.Tokens.{find_slash-le, behind_escape}

string_next_same :
    (again again' : Bytes → Bytes → Bytes → Bytes → Token) (b p s : Bytes) (o : Option Bytes)
    → ((q : Bytes) → o ≡ some q → (again b p q s ≡ again' b p q s) × (again b p q s ≢ endless))
    → (string_next again b p s o ≡ string_next again' b p s o)
      × (string_next again b p s o ≢ endless)
unfolding string_next
string_next_same again again' b p s none same = (refl, λ e. cc)
string_next_same again again' b p s (some q) same = same q refl

loops_same :
    (f g : ℕ) (b p q s : Bytes)
    → length q < f
    → length q < g
    → (string_loop f b p q s ≡ string_loop g b p q s) × (string_loop f b p q s ≢ endless)
unfolding string_loop
loops_same zero g b p q s h h' = absurd (omega arith)
loops_same (suc f) zero b p q s h h' = absurd (omega arith)
loops_same (suc f) (suc g) b p q s h h' =
    elim (Option-cases (escape_step (tail q) (reverse_aux (span b q) s))) [
      | inl e ↦ rw e (refl, λ n. cc)
      | inr ((q', s'), e) ↦ rw e (elim (Option-cases (requote (tail q') p)) [
        | inl e' ↦ rw e' (refl, λ n. cc)
        | inr (p', e') ↦ rw e' (
            string_next_same (string_loop f) (string_loop g) (tail q') p' s'
              (find_slash (tail q') p')
              λ q'' e''.
                let le = find_slash-le (tail q') p' q'' e'' in
                loops_same f g (tail q') p' q'' s'
                  (omega (arith, le, behind_escape q (reverse_aux (span b q) s) q' s' f e h))
                  (omega (arith, le, behind_escape q (reverse_aux (span b q) s) q' s' g e h')))
      ])
    ]

-- From a backslash that is found in `b`, the loop of `parse_string` ends, with an error or a string, if
-- it is given more rounds than there are bytes in `b`, and how many more does not matter.
pub string_loop-find_slash :
    (rounds : ℕ) (b p q s : Bytes)
    → find_slash b p ≡ some q
    → length b < rounds
    → (string_loop rounds b p q s ≢ endless)
      × (string_loop rounds b p q s ≡ string_loop (suc (length b)) b p q s)
string_loop-find_slash rounds b p q s e h =
    let le = find_slash-le b p q e in
    let (same, ended) = loops_same rounds (suc (length b)) b p q s (omega arith) (omega arith) in
    (ended, same)
