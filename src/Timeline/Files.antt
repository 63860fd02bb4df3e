-- ===== src/Timeline/Files.antt =====
-- `_addFile`: the style sheet and the plugins that the timelines of a page load from elsewhere, once
-- for all of them, and which of them a timeline asks for.
pub mod Once
use lso_project.Prelude.{
  Bool, true, false, not, ◌&&◌, Option, none, some, List, [], ◌∷◌, ◌++◌, if◌then◌else◌, Text, codes,
  strip_prefix,
}
use lso_project.Timeline.{Settings, ◌>>=◌}
use lso_project.Timeline.Life.{in_array}

pub data FileType : Type 0 where
  js : FileType
  css : FileType

-- The page: the list that the body's data hold, the addresses in its `script` and `link` tags, the
-- scripts that `$.getScript` was asked for, and those whose callback was called at once.
pub record Files : Type 0 where
  pub loaded_file : Option (List Text)
  pub scripts : List Text
  pub links : List Text
  pub fetches : List Text
  pub ran : List Text

abbrev pub or_later : Option Text → Option Text → Option Text
or_later none later = later
or_later (some r) later = some r

-- `s.split(sep)[1]` begins behind the first separator, if there is one, and a piece ends before the
-- next.
unfoldable pub behind : Text → Text → Option Text
unfolding strip_prefix
behind sep [] = strip_prefix sep []
behind sep (c ∷ s) = or_later (strip_prefix sep (c ∷ s)) (behind sep s)

abbrev pub is_some : Option Text → Bool
is_some none = false
is_some (some r) = true

unfoldable pub ahead : Text → Text → Text
unfolding strip_prefix
ahead sep [] = []
ahead sep (c ∷ s) =
    let rest = ahead sep s in if is_some (strip_prefix sep (c ∷ s)) then [] else c ∷ rest

-- The name in the address; without "libs/" in it the code throws.
unfoldable pub library_name : Text → Option Text
unfolding behind ahead
library_name url = do
  r ← behind (codes "libs/") url
  some (ahead (codes "/") (ahead (codes "libs/") r))

-- The selector `[src*="…"]`, which no element fits for an empty name.
abbrev pub has_part : Text → Text → Bool
has_part [] s = false
has_part (c ∷ n) s = is_some (behind (c ∷ n) s)

abbrev pub any_part : Text → List Text → Bool
any_part n [] = false
any_part n (s ∷ ss) = if has_part n s then true else any_part n ss

unfoldable pub file_exists : FileType → Text → Files → Bool
unfolding behind
file_exists js n f = any_part n f.scripts
file_exists css n f = any_part n f.links

-- The callback; the style sheet has none.
abbrev pub called : FileType → Text → Files → Files
called js url f = record f { ran = f.ran ++ url ∷ [] }
called css url f = f

-- A style sheet is put behind the last link, if there is one.
abbrev pub behind_last : Text → List Text → List Text
behind_last url [] = []
behind_last url (l ∷ ls) = l ∷ ls ++ url ∷ []

abbrev pub fetched : FileType → Text → Files → Files
fetched js url f = record f { fetches = f.fetches ++ url ∷ [] }
fetched css url f = record f { links = behind_last url f.links }

abbrev pub or_empty : Option (List Text) → List Text
or_empty none = []
or_empty (some l) = l

unfoldable pub add_named : Text → FileType → Text → Files → Files
unfolding file_exists
add_named name type url f =
    let l = or_empty f.loaded_file in
    let known = in_array url l in
    let exists = file_exists type name f in
    if not known && not exists
    then record (fetched type url f) { loaded_file = some (l ++ url ∷ []) }
    else if exists && not known
    then record (called type url f) { loaded_file = some (l ++ url ∷ []) }
    else record (called type url f) { loaded_file = some l }

-- `_addFile`, where the setting `addRequiredFile` is on or off.
unfoldable pub add_file : Bool → FileType → Text → Files → Option Files
unfolding library_name add_named
add_file required type url f =
    if required
    then (do name ← library_name url; some (add_named name type url f))
    else some (called type url f)

-- What a timeline asks for at its start, in order.
abbrev pub font_awesome : Text
font_awesome = codes "https://cdnjs.cloudflare.com/ajax/libs/font-awesome/5.8.2/css/all.min.css"

abbrev pub mouse_wheel : Text
mouse_wheel =
    codes "https://cdnjs.cloudflare.com/ajax/libs/jquery-mousewheel/3.1.13/jquery.mousewheel.min.js"

abbrev pub touch_swipe : Text
touch_swipe =
    codes "https://cdnjs.cloudflare.com/ajax/libs/jquery.touchswipe/1.6.18/jquery.touchSwipe.min.js"

abbrev pub asks_if : Bool → Text → List (FileType × Text)
asks_if true url = (js, url) ∷ []
asks_if false url = []

abbrev pub required_files : Settings → List (FileType × Text)
required_files s =
    (css, font_awesome) ∷ asks_if s.use_scroll_wheel mouse_wheel
    ++ asks_if s.use_touch_swipe touch_swipe

abbrev pub add_files : Bool → List (FileType × Text) → Files → Option Files
add_files required [] f = some f
add_files required ((type, url) ∷ rs) f = do
  f' ← add_file required type url f
  add_files required rs f'

-- The timelines of a page, one after the other.
abbrev pub start_all : List Settings → Files → Option Files
start_all [] f = some f
start_all (s ∷ ss) f = do f' ← add_files s.add_required_file (required_files s) f; start_all ss f'
