-- ===== src/Nav/Gap.antt =====
-- Where `updateNav` stops too early.
use lso_project.Prelude.{ℕ, suc, ◌+◌, ◌≤◌, ◌<◌, ◌≡◌, Bool, true, false, some, List, arith, init}
use lso_project.Nav.{Nav, Measures, available_space, overflows, pass, update_nav}
use lso_project.Nav.Passes.{pass_over, update_nav_ends}

menu_overflows :
    (m : Measures) (xs : List ℕ) (b : Bool)
    → b ≡ true
    → (m.nav_width < m.width xs → overflows m xs (available_space m b) ≡ true)
      × (m.width xs ≤ m.nav_width → overflows m xs (available_space m b) ≡ false)
unfolding overflows available_space
menu_overflows m xs b e = rw e (λ h. ground arith, λ h. ground arith)

beside_button :
    (m : Measures) (xs : List ℕ)
    → m.nav_width < m.width xs + m.button_width + 30
    → overflows m xs (available_space m false) ≡ true
unfolding overflows available_space
beside_button m xs h = ground arith

-- The space is measured before the button shows. If the button is hidden, the list overflows the
-- menu, and without its last link it fits the menu but not the space beside the button, then the
-- update stops after one pass with a list that overflows the space that is left.
pub update_nav-overflows :
    (fuel : ℕ) (m : Measures) (n : Nav)
    → n.button_hidden ≡ true
    → m.nav_width < m.width n.visible
    → m.width (init n.visible) ≤ m.nav_width
    → m.nav_width < m.width (init n.visible) + m.button_width + 30
    → (n' : Nav) × (update_nav (suc fuel) m n ≡ some n')
      × (overflows m n'.visible (available_space m n'.button_hidden) ≡ true)
update_nav-overflows fuel m n b over fits tight =
    let space = available_space m n.button_hidden in
    let wide = menu_overflows m n.visible n.button_hidden b in
    let (shorter, shown, _) = pass_over m space n (wide.0 over) in
    let ends = menu_overflows m (init n.visible) n.button_hidden b in
    (
      pass m space n,
      update_nav_ends fuel m n (rw shorter (ends.1 fits)),
      rw (shorter, shown) (beside_button m (init n.visible) tight),
    )
