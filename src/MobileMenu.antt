-- ===== src/MobileMenu.antt =====
-- The mobile menu of FIGC_Script.js, `loadMenuMobileHtml` and what calls it. A value of `data` that counts as false is
-- `none`.
pub mod Once
use lso_project.Prelude.{
  Bool, true, Option, none, some, List, [], ◌∷◌, ◌++◌, if◌then◌else◌, Text, codes,
}

-- Whether the button is visible, its data `figc-currentnode`, whether it has its handler, and the addresses
-- that the menu was loaded from.
pub record MobileMenu : Type 0 where
  pub button_visible : Bool
  pub current_node : Option Text
  pub has_handler : Bool
  pub loads : List Text

abbrev pub address : Text → Text
address id = codes "/utility/menumobile?rootnodeid=" ++ id

abbrev pub load_node : Option Text → MobileMenu → MobileMenu
load_node none m = m
load_node (some id) m = record m { current_node = none; loads = m.loads ++ address id ∷ [] }

unfoldable pub load_menu_mobile_html : MobileMenu → MobileMenu
load_menu_mobile_html m = load_node m.current_node m

-- The page is ready.
unfoldable pub ready : MobileMenu → MobileMenu
unfolding load_menu_mobile_html
ready m = if m.button_visible then load_menu_mobile_html m else record m { has_handler = true }

unfoldable pub click : MobileMenu → MobileMenu
unfolding load_menu_mobile_html
click m = if m.has_handler then load_menu_mobile_html m else m
