-- ===== src/Str/Glob.antt =====
-- What a pattern with wildcards matches: what `match` is compared with.
use cocoyaxi.Base.{
  ℕ, Bool, true, false, ◌&&◌, ◌||◌, [], ◌∷◌, ◌++◌, Bytes, ◌≡◌, refl, sym, ap, ◌∙◌, Bool-cases, inl,
  inr, if◌then◌else◌,
}
use cocoyaxi.Str.Match.{is_star, fits, all_stars, is_nil}

-- Whether a test holds of the text from some position on, the end too.
abbrev pub any_suffix : (Bytes → Bool) → Bytes → Bool
any_suffix f [] = f []
any_suffix f (x ∷ s) = f (x ∷ s) || any_suffix f s

abbrev pub one : ℕ → (Bytes → Bool) → Bytes → Bool
one c f [] = false
one c f (x ∷ s) = fits c x && f s

-- A star matches any text, a question mark any byte, and every other byte itself.
abbrev pub glob : Bytes → Bytes → Bool
glob [] s = is_nil s
glob (c ∷ p) s = if is_star c then any_suffix (glob p) s else one c (glob p) s

pub or_false : (b : Bool) → (b || false) ≡ b
or_false true = refl
or_false false = refl

and_false : (b : Bool) → (b && false) ≡ false
and_false true = refl
and_false false = refl

pub glob-nil : (p : Bytes) → glob p [] ≡ all_stars p
glob-nil [] = refl
glob-nil (c ∷ p) = elim (Bool-cases (is_star c)) [ inl e ↦ rw e (glob-nil p) | inr e ↦ rw e refl ]

and_or : (b x y : Bool) → ((b && x) || (b && y)) ≡ (b && (x || y))
and_or true x y = refl
and_or false x y = refl

and_swap : (a b x : Bool) → (a && (b && x)) ≡ (b && (a && x))
and_swap true b x = refl
and_swap false b x = sym (and_false b)

any_suffix-append :
    (f g : Bytes → Bool) (b : Bool) (x : ℕ) (s : Bytes)
    → ((u : Bytes) → f (u ++ x ∷ []) ≡ (b && g u))
    → f [] ≡ false
    → any_suffix f (s ++ x ∷ []) ≡ (b && any_suffix g s)
any_suffix-append f g b x [] h e = ap (λ z. f (x ∷ []) || z) e ∙ or_false (f (x ∷ [])) ∙ h []
any_suffix-append f g b x (y ∷ s) h e =
    rw (h (y ∷ s)) (rw (any_suffix-append f g b x s h e) (and_or b (g (y ∷ s)) (any_suffix g s)))

glob_last_nil : (p : Bytes) (c : ℕ) → is_star c ≡ false → glob (p ++ c ∷ []) [] ≡ false
glob_last_nil [] c h = rw h refl
glob_last_nil (d ∷ p) c h = elim (Bool-cases (is_star d)) [
  | inl e ↦ rw e (glob_last_nil p c h)
  | inr e ↦ rw e refl
]

is_nil-last : (s : Bytes) (x : ℕ) → is_nil (s ++ x ∷ []) ≡ false
is_nil-last [] x = refl
is_nil-last (y ∷ s) x = refl

one_last :
    (d c : ℕ) (s : Bytes) (x : ℕ) (h : is_star c ≡ false) (f g : Bytes → Bool)
    → f [] ≡ false
    → ((u : Bytes) → f (u ++ x ∷ []) ≡ (fits c x && g u))
    → one d f (s ++ x ∷ []) ≡ (fits c x && one d g s)
one_last d c [] x h f g e k =
    ap (λ b. fits d x && b) e ∙ and_false (fits d x) ∙ sym (and_false (fits c x))
one_last d c (y ∷ s) x h f g e k =
    ap (λ b. fits d y && b) (k s) ∙ and_swap (fits d y) (fits c x) (g s)

-- A last byte that is no star matches the last byte of the text.
pub glob_last :
    (p : Bytes) (c : ℕ) (s : Bytes) (x : ℕ)
    → is_star c ≡ false
    → glob (p ++ c ∷ []) (s ++ x ∷ []) ≡ (fits c x && glob p s)
glob_last [] c [] x h = rw h refl
glob_last [] c (y ∷ s) x h =
    rw h (
      ap (λ b. fits c y && b) (is_nil-last s x) ∙ and_false (fits c y) ∙ sym (and_false (fits c x)))
glob_last (d ∷ p) c s x h = elim (Bool-cases (is_star d)) [
  | inl e ↦ rw e (
      any_suffix-append (glob (p ++ c ∷ [])) (glob p) (fits c x) x s (λ u. glob_last p c u x h)
        (glob_last_nil p c h))
  | inr e ↦ rw e (
      one_last d c s x h (glob (p ++ c ∷ [])) (glob p) (glob_last_nil p c h)
        (λ u. glob_last p c u x h))
]
