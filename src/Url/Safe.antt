-- ===== src/Url/Safe.antt =====
-- Which bytes `url_encode` writes.
use cocoyaxi.Base.{ℕ, Bool, true, ◌||◌, ◌==◌, ◌≡◌}
use cocoyaxi.Url.{unencoded, hex_digit}

-- Written by the encoder: a byte that needs no encoding, or the escape sign.
abbrev pub IsUrlByte : ℕ → Type 0
IsUrlByte c = (unencoded c || c == b'%') ≡ true

abbrev is_hex_safe : ℕ → Bool
is_hex_safe v = unencoded (hex_digit v)
