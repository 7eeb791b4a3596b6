-- ===== src/Path/Tests.antt =====
-- The examples of include/co/path.h, and the theorems at paths.
use cocoyaxi.Base.{[], ◌∷◌, ◌≡◌, refl, true, Bytes}
use cocoyaxi.Path.{parent, clean_from, clean, dir, base, ext, join}
use cocoyaxi.Path.Words.{dots}
use cocoyaxi.Path.Normal.{IsCleaned, clean-shown}

-- `/a/./b//../c`.
abbrev long_path : Bytes
long_path = b'/' ∷ b'a' ∷ b'/' ∷ b'.' ∷ b'/' ∷ b'b' ∷ b'/' ∷ b'/' ∷ b'.' ∷ b'.' ∷ b'/' ∷ b'c' ∷ []

-- `./x/../..` is `..`.
dots_kept : clean (b'.' ∷ b'/' ∷ b'x' ∷ b'/' ∷ b'.' ∷ b'.' ∷ b'/' ∷ b'.' ∷ b'.' ∷ []) ≡ dots
unfolding clean clean_from parent
dots_kept = refl

-- `/x/../..` is `/`.
root_kept : clean (b'/' ∷ b'x' ∷ b'/' ∷ b'.' ∷ b'.' ∷ b'/' ∷ b'.' ∷ b'.' ∷ []) ≡ b'/' ∷ []
unfolding clean clean_from parent
root_kept = refl

-- The directory of `/a/` is `/a`, and its last element `a`.
dir_slash : dir (b'/' ∷ b'a' ∷ b'/' ∷ []) ≡ b'/' ∷ b'a' ∷ []
unfolding dir clean clean_from parent
dir_slash = refl

base_slash : base (b'/' ∷ b'a' ∷ b'/' ∷ b'b' ∷ b'/' ∷ []) ≡ b'b' ∷ []
unfolding base
base_slash = refl

ext_c : ext (b'x' ∷ b'/' ∷ b'x' ∷ b'.' ∷ b'c' ∷ []) ≡ b'.' ∷ b'c' ∷ []
unfolding ext
ext_c = refl

-- `/x/` and `y` are joined to `/x/y`.
join_two : join ((b'/' ∷ b'x' ∷ b'/' ∷ []) ∷ (b'y' ∷ []) ∷ []) ≡ b'/' ∷ b'x' ∷ b'/' ∷ b'y' ∷ []
unfolding join clean clean_from parent
join_two = refl

clean-shown_example : IsCleaned true ((b'c' ∷ []) ∷ (b'a' ∷ []) ∷ []) (clean long_path)
clean-shown_example = clean-shown long_path
