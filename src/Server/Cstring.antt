-- ===== src/Server/Cstring.antt =====
-- The functions of the C library on text that the server and the client call. A C string is the list
-- of its bytes, without the zero byte at its end.
use lso_project.Prelude.{
  ℕ, zero, suc, ◌+◌, ◌-◌, ◌*◌, ◌≡◌, refl, Bool, true, false, ◌&&◌, ◌||◌, Option, none, some, [],
  ◌∷◌, ◌++◌, arith, leb, ◌==◌, if◌then◌else◌, Text, Avoids, digit, strip_prefix,
}

-- `strncmp(s, p, strlen(p)) == 0`: p is a beginning of s.
abbrev pub is_some {ℓ} : {A : Type ℓ} → Option A → Bool
is_some none = false
is_some (some a) = true

abbrev pub begins : Text → Text → Bool
begins p s = is_some (strip_prefix p s)

-- `strtok_r` with one delimiter, on what it has left: a token and the rest behind its delimiter, or
-- `none` for NULL.
abbrev pub skip : ℕ → Text → Text
skip sep [] = []
skip sep (c ∷ s) = if c == sep then skip sep s else c ∷ s

abbrev pub token : ℕ → Text → Text × Text
token sep [] = ([], [])
token sep (c ∷ s) = let rest = token sep s in if c == sep then ([], s) else (c ∷ rest.0, rest.1)

abbrev pub token_of : ℕ → Text → Option (Text × Text)
token_of sep [] = none
token_of sep (c ∷ s) = some (token sep (c ∷ s))

unfoldable pub strtok_r : ℕ → Text → Option (Text × Text)
strtok_r sep s = token_of sep (skip sep s)

abbrev pub is_space : ℕ → Bool
is_space c = c == 32 || leb 9 c && leb c 13

abbrev pub skip_spaces : Text → Text
skip_spaces [] = []
skip_spaces (c ∷ s) = if is_space c then skip_spaces s else c ∷ s

-- The digits at the beginning: their number, and what follows them.
abbrev pub digits_at : ℕ → Text → ℕ × Text
digits_at n [] = (n, [])
digits_at n (c ∷ s) =
    let rest = digits_at (n * 10 + (c - b'0')) s in if digit c then rest else (n, c ∷ s)

abbrev pub starts_digit : Text → Bool
starts_digit [] = false
starts_digit (c ∷ s) = digit c

-- The sign of a number, true for minus, and what follows it.
abbrev pub sign_at : Text → Bool × Text
sign_at [] = (false, [])
sign_at (c ∷ s) = if c == b'-' then (true, s) else if c == b'+' then (false, s) else (false, c ∷ s)

-- A `long` of 64 bits, by its sign and its size.
pub record Long : Type 0 where
  pub minus : Bool
  pub size : ℕ

abbrev pub min : ℕ → ℕ → ℕ
min a b = if leb a b then a else b

abbrev pub long_max : Bool → ℕ
long_max true = 0x8000000000000000
long_max false = 0x7fffffffffffffff

-- `strtol(s, &end, 10)`: the number, cut at the bounds of `long`, and `end`; 0 and the whole text where
-- no digit stands.
unfoldable pub strtol : Text → Long × Text
strtol s =
    let r = sign_at (skip_spaces s) in
    let d = digits_at 0 r.1 in
    if starts_digit r.1
    then (record { minus = r.0; size = min d.0 (long_max r.0) }, d.1)
    else (record { minus = false; size = 0 }, s)

-- The first bytes of a text, and the others.
abbrev pub take : ℕ → Text → Text
take zero s = []
take (suc n) [] = []
take (suc n) (c ∷ s) = c ∷ take n s

abbrev pub drop : ℕ → Text → Text
drop zero s = s
drop (suc n) [] = []
drop (suc n) (c ∷ s) = drop n s

-- The bytes up to a zero byte: what memory holds as a C string.
abbrev pub c_string : Text → Text
c_string [] = []
c_string (c ∷ s) = if c == 0 then [] else c ∷ c_string s

-- A text is one token, and behind it, where a delimiter and more follow, stands the rest.
pub strtok_r-Avoids :
    (sep c : ℕ) (s : Text) → Avoids sep (c ∷ s) → strtok_r sep (c ∷ s) ≡ some (c ∷ s, [])
unfolding strtok_r
strtok_r-Avoids sep c s h = rw (h.0, h.0, go s h.1) refl
  where
    go : (s : Text) → Avoids sep s → token sep s ≡ (s, [])
    go [] h = refl
    go (d ∷ s) h = rw (h.0, go s h.1) refl

pub strtok_r-append :
    (sep c : ℕ) (s t : Text)
    → Avoids sep (c ∷ s)
    → strtok_r sep ((c ∷ s) ++ sep ∷ t) ≡ some (c ∷ s, t)
unfolding strtok_r
strtok_r-append sep c s t h = rw (h.0, h.0, go s h.1) refl
  where
    go : (s : Text) → Avoids sep s → token sep (s ++ sep ∷ t) ≡ (s, t)
    go [] h = ground arith
    go (d ∷ s) h = rw (h.0, go s h.1) refl
