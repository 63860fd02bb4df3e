-- ===== src/Lazy.antt =====
-- The handler of `resize` and `scroll` in FIGC_Script.js: the images and the social wall that load when
-- they come into sight. The places of the elements are taken not to move.
pub mod Seen
use lso_project.Prelude.{
  ℕ, ◌+◌, Bool, true, false, ◌&&◌, Option, none, some, List, [], ◌∷◌, ◌++◌, map, ltb, Text,
}

-- The window's part of the document, and an element's.
pub record View : Type 0 where
  pub view_top : ℕ
  pub view_height : ℕ

-- `isInViewport`, of the element's place and outer height.
unfoldable pub is_in_viewport : View → ℕ → ℕ → Bool
is_in_viewport v top height = ltb v.view_top (top + height) && ltb top (v.view_top + v.view_height)

abbrev pub is_truthy : Text → Bool
is_truthy [] = false
is_truthy (c ∷ s) = true

-- `lazy` is the attribute `data-figc-src`. `removeData` takes a value out of jQuery's cache, and `data`
-- reads the attribute again, so it stays.
pub record Image : Type 0 where
  pub image_top : ℕ
  pub image_height : ℕ
  pub lazy : Text
  pub src : Option Text

abbrev pub load_by : Bool → Image → Image
load_by true i = record i { src = some i.lazy }
load_by false i = i

unfoldable pub load_image : View → Image → Image
load_image v i = load_by (is_truthy i.lazy && is_in_viewport v i.image_top i.image_height) i

-- `loadLazyImages`
unfoldable pub load_lazy_images : View → List Image → List Image
load_lazy_images v = map (load_image v)

-- The wall, the query that `data` holds, and the queries that were loaded.
pub record Wall : Type 0 where
  pub wall_top : ℕ
  pub wall_height : ℕ
  pub query : Option Text
  pub loaded : List Text

abbrev pub load_wall : Bool → Text → Wall → Wall
load_wall true q w = record w { query = none; loaded = w.loaded ++ q ∷ [] }
load_wall false q w = w

unfoldable pub show_wall : View → Wall → Wall
show_wall v w = elim w.query [
  | none ↦ w
  | some q ↦ load_wall (is_truthy q && is_in_viewport v w.wall_top w.wall_height) q w
]

pub record Page : Type 0 where
  pub images : List Image
  pub wall : Wall

-- The handler, at one place of the window.
unfoldable pub scrolled : View → Page → Page
scrolled v p = record p { images = load_lazy_images v p.images; wall = show_wall v p.wall }
