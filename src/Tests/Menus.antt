-- ===== src/Tests/Menus.antt =====
-- Nav.antt at a menu of three links, of 100 pixels each.
use lso_project.Prelude.{ℕ, ◌*◌, ◌≤◌, ◌≡◌, refl, true, false, some, [], ◌∷◌, ◌++◌, arith, length}
use lso_project.Nav.{Nav, Measures, available_space, overflows, hide_last, pass, update_nav}
use lso_project.Nav.Visit.{resize, click, inputs, Sound, inputs-Sound}
use lso_project.Nav.Totality.{update_nav_fits}

abbrev measures : ℕ → Measures
measures nav = record { width = λ xs. 100 * length xs; nav_width = nav; button_width = 40 }

abbrev menu : Nav
menu = record {
  visible = 1 ∷ 2 ∷ 3 ∷ [];
  hidden = [];
  breaks = [];
  button_hidden = true;
  list_hidden = true;
  count = 0;
}

abbrev folded : Nav
folded = record {
  visible = 1 ∷ 2 ∷ [];
  hidden = 3 ∷ [];
  breaks = 300 ∷ [];
  button_hidden = false;
  list_hidden = true;
  count = 1;
}

update_nav_folds : update_nav 6 (measures 290) menu ≡ some folded
unfolding update_nav overflows available_space pass hide_last
update_nav_folds = refl

update_nav_fits_example :
    (n' : Nav) × (update_nav 6 (measures 290) menu ≡ some n') × (100 * length n'.visible ≤ 290)
update_nav_fits_example =
    update_nav_fits (measures 290) menu (record { empty = refl; room = omega arith })

-- The window gets narrow, the visitor opens the list, and the window gets wide.
inputs-Sound_example :
    (n' : Nav) × (inputs (resize (measures 290) ∷ click ∷ resize (measures 500) ∷ []) menu
      ≡ some n')
    × Sound n'
    × (n'.visible ++ n'.hidden ≡ menu.visible ++ menu.hidden)
inputs-Sound_example =
    inputs-Sound (resize (measures 290) ∷ click ∷ resize (measures 500) ∷ []) menu
      (
        record { empty = refl; room = omega arith },
        (tt, (record { empty = refl; room = omega arith }, tt)),
      )
      (record { breaks = refl; count = refl; button = refl; list = refl })
