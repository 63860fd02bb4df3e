-- ===== src/Nav.antt =====
-- The menu of SupportTestDirectory/yo/FIGC_files/FIGC_Script.js that keeps the links for which it
-- has room and hides the others behind a button: `updateNav` and its variables.
pub mod Order
pub mod Passes
pub mod Totality
pub mod Gap
pub mod Visit
use lso_project.Prelude.{
  ℕ, zero, suc, ◌+◌, Bool, true, false, not, Option, none, some, List, [], ◌∷◌, ◌++◌, if◌then◌else◌,
  length, init, last?, to_list,
}
use lso_project.Prelude.Int.{ℤ, pos, sub_ℕ, ltb_ℤ}

-- The two lists of links, by number; `breaks`, its last entry first; the class `hidden` of the
-- button and of the hidden list; and the button's attribute `count`.
pub record Nav : Type 0 where
  pub visible : List ℕ
  pub hidden : List ℕ
  pub breaks : List ℕ
  pub button_hidden : Bool
  pub list_hidden : Bool
  pub count : ℕ

-- What the browser measures: the width of a visible list, of the menu and of the button.
pub record Measures : Type 0 where
  pub width : List ℕ → ℕ
  pub nav_width : ℕ
  pub button_width : ℕ

-- `availableSpace`
unfoldable pub available_space : Measures → Bool → ℤ
available_space m button_hidden =
    if button_hidden then pos m.nav_width else sub_ℕ m.nav_width (m.button_width + 30)

-- `$vlinks.width() > availableSpace`
unfoldable pub overflows : Measures → List ℕ → ℤ → Bool
overflows m visible space = ltb_ℤ space (pos (m.width visible))

-- `$vlinks.children().last().prependTo($hlinks)`, under a recorded break, and the button shows.
unfoldable pub hide_last : Measures → Nav → Nav
hide_last m n = record n {
  breaks = m.width n.visible ∷ n.breaks;
  visible = init n.visible;
  hidden = to_list (last? n.visible) ++ n.hidden;
  button_hidden = false;
}

-- `$hlinks.children().first().appendTo($vlinks); breaks.pop();`
abbrev pub first_of : List ℕ → List ℕ
first_of [] = []
first_of (x ∷ xs) = x ∷ []

abbrev pub rest_of : List ℕ → List ℕ
rest_of [] = []
rest_of (x ∷ xs) = xs

unfoldable pub show_first : Nav → Nav
show_first n = record n {
  visible = n.visible ++ first_of n.hidden;
  hidden = rest_of n.hidden;
  breaks = rest_of n.breaks;
}

-- `availableSpace > breaks[breaks.length - 1]`, false where there is no break.
abbrev pub has_room : ℤ → List ℕ → Bool
has_room space [] = false
has_room space (b ∷ bs) = ltb_ℤ (pos b) space

abbrev pub is_empty : List ℕ → Bool
is_empty [] = true
is_empty (x ∷ xs) = false

abbrev pub hide_button : Nav → Nav
hide_button n =
    if is_empty n.breaks then record n { button_hidden = true; list_hidden = true } else n

unfoldable pub show_if_room : ℤ → Nav → Nav
show_if_room space n = hide_button (if has_room space n.breaks then show_first n else n)

-- One pass of `updateNav`, for the space measured at its beginning.
unfoldable pub pass : Measures → ℤ → Nav → Nav
pass m space n =
    let n' = if overflows m n.visible space then hide_last m n else show_if_room space n in
    record n' { count = length n'.breaks }

-- `updateNav`: it calls itself while the list overflows the space that this pass measured. `none`
-- says that the fuel, a bound on the passes, ran out.
unfoldable pub update_nav : ℕ → Measures → Nav → Option Nav
update_nav zero m n = none
update_nav (suc fuel) m n =
    let space = available_space m n.button_hidden in
    let n' = pass m space n in
    let rest = update_nav fuel m n' in if overflows m n'.visible space then rest else some n'

-- A click on the button, which needs it to be shown: `$hlinks.toggleClass('hidden')`.
unfoldable pub click_button : Nav → Nav
click_button n = if n.button_hidden then n else record n { list_hidden = not n.list_hidden }
