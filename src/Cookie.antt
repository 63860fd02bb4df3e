-- ===== src/Cookie.antt =====
-- The cookie helpers `getCookie` and `setCookie`, which FIGC_ads.js and jquery.cookiesDirective.js
-- both hold with the same text, and the browser's `document.cookie` that they read and assign.
pub mod Jar
pub mod RoundTrip
use lso_project.Prelude.{
  Bool, true, false, ℕ, ◌+◌, ◌*◌, Option, none, some, List, [], ◌∷◌, ◌++◌, Text, codes, split,
  strip_prefix, if◌then◌else◌, ◌==◌,
}

-- `while (c.charAt(0)==' ') c = c.substring(1,c.length);`
unfoldable pub skip_spaces : Text → Text
skip_spaces [] = []
skip_spaces (c ∷ s) = if c == b' ' then skip_spaces s else c ∷ s

-- The loop of `getCookie` over the pieces of `document.cookie`.
unfoldable pub get_cookie_in : Text → List Text → Option Text
unfolding skip_spaces
get_cookie_in name_eq [] = none
get_cookie_in name_eq (c ∷ ca) = elim (strip_prefix name_eq (skip_spaces c)) [
  | some value ↦ some value
  | none ↦ get_cookie_in name_eq ca
]

-- `getCookie(name)` at a value of `document.cookie`; `none` is `null`.
unfoldable pub get_cookie : Text → Text → Option Text
unfolding get_cookie_in split strip_prefix
get_cookie cookie name = get_cookie_in (name ++ codes "=") (split b';' cookie)

-- The expiry part of `setCookie`: empty for `days` 0. `gmt` is `Date.toGMTString`, of milliseconds.
abbrev pub expires_text : (ℕ → Text) → ℕ → ℕ → Text
expires_text gmt now days =
    if days == 0 then [] else codes "; expires=" ++ gmt (now + days * 24 * 60 * 60 * 1000)

-- The text that `setCookie(name, value, days)` assigns to `document.cookie`.
unfoldable pub set_cookie : (ℕ → Text) → ℕ → Text → Text → ℕ → Text
set_cookie gmt now name value days =
    name ++ b'=' ∷ value ++ expires_text gmt now days ++ codes "; path=/"

-- `!getCookie(...)`: `null` and the empty text are false.
abbrev pub is_unset : Option Text → Bool
is_unset none = true
is_unset (some []) = true
is_unset (some (c ∷ s)) = false
