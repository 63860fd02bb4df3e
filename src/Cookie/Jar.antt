-- ===== src/Cookie/Jar.antt =====
-- The browser's side of `document.cookie`, as the web platform documents it, for the pairs that `Sound`
-- describes, which the browser neither trims nor refuses, of a size that it takes: reading joins the pairs by "; ", assigning replaces the pair of that name in
-- place or adds one at the end.
use lso_project.Prelude.{
  ℕ, ◌≡◌, ◌≢◌, Bool, true, false, not, ◌&&◌, ◌||◌, ltb, All, Option, none, some, List, [], ◌∷◌,
  ◌++◌, Text, text_eq, split, if◌then◌else◌, ◌==◌, Avoids,
}

pub record Pair : Type 0 where
  pub name : Text
  pub value : Text

abbrev pub pair_text : Pair → Text
pair_text p = p.name ++ b'=' ∷ p.value

abbrev pub Jar : Type 0
Jar = List Pair

-- `document.cookie` as read.
unfoldable pub print : Jar → Text
print [] = []
print (p ∷ []) = pair_text p
print (p ∷ q ∷ ps) = pair_text p ++ b';' ∷ b' ' ∷ print (q ∷ ps)

unfoldable pub find : Text → Jar → Option Text
find name [] = none
find name (p ∷ ps) = if text_eq name p.name then some p.value else find name ps

unfoldable pub put : Pair → Jar → Jar
put p [] = p ∷ []
put p (q ∷ qs) = if text_eq p.name q.name then p ∷ qs else q ∷ put p qs

-- A text cut at its first '='.
abbrev pub cons_name : ℕ → Pair → Pair
cons_name c p = record p { name = c ∷ p.name }

unfoldable pub cut : Text → Pair
cut [] = record { name = []; value = [] }
cut (c ∷ s) = if c == b'=' then record { name = []; value = s } else cons_name c (cut s)

abbrev pub first_piece : List Text → Text
first_piece [] = []
first_piece (p ∷ ps) = p

-- `document.cookie = text`, for a text with no expiry in the past.
unfoldable pub assign : Text → Jar → Jar
unfolding cut put split
assign text jar = put (cut (first_piece (split b';' text))) jar

-- The control characters, the tab among them, with which browsers refuse a cookie, and the blanks that they cut
-- off.
abbrev pub is_control : ℕ → Bool
is_control c = ltb c 32 || c == 127

abbrev starts_blank : Text → Bool
starts_blank [] = false
starts_blank (c ∷ s) = c == b' '

abbrev pub ends_blank : Text → Bool
ends_blank [] = false
ends_blank (c ∷ []) = c == b' '
ends_blank (c ∷ d ∷ s) = ends_blank (d ∷ s)

abbrev pub is_trimmed : Text → Bool
is_trimmed s = not (starts_blank s) && not (ends_blank s)

-- Texts that a cookie can carry as they are: a name that is not empty and has no '=', ';' or blank, a value with
-- no ';' that neither begins nor ends with a blank, and no control character.
pub record Sound (p : Pair) : Type 0 where
  pub name_eq : Avoids b'=' p.name
  pub name_semi : Avoids b';' p.name
  pub name_space : Avoids b' ' p.name
  pub value_semi : Avoids b';' p.value
  pub name_some : p.name ≢ []
  pub value_trimmed : is_trimmed p.value ≡ true
  pub printable : All (λ c. is_control c ≡ false) (pair_text p)
