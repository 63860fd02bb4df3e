-- ===== src/Nav/Passes.antt =====
-- What one pass of `updateNav` does, over a list that fits and one that does not.
use lso_project.Prelude.{
  ℕ, suc, ◌+◌, ◌≤◌, ◌≡◌, refl, ap, ◌⊎◌, Bool, true, false, some, List, [], ◌∷◌, ◌++◌, arith,
  if◌then◌else◌, length, init,
}
use lso_project.Prelude.Int.{ℤ, ◌≤ℤ◌}
use lso_project.Nav.{
  Nav, Measures, available_space, overflows, hide_last, first_of, rest_of, show_first, has_room,
  show_if_room, pass, update_nav,
}

-- An empty list has no width, and the button has its place in the menu.
pub record Sane (m : Measures) : Type 0 where
  pub empty : m.width [] ≡ 0
  pub room : m.button_width + 30 ≤ m.nav_width

pub overflows-space :
    (m : Measures) (visible : List ℕ) (a b : ℤ)
    → a ≤ℤ b
    → overflows m visible b ≡ true
    → overflows m visible a ≡ true
unfolding overflows
overflows-space m visible a b h e = ground arith

pub overflows_empty :
    (m : Measures) (b : Bool) → Sane m → overflows m [] (available_space m b) ≡ false
unfolding overflows available_space
overflows_empty m b v = ground arith

pub available_space_shown :
    (m : Measures) (b : Bool) → available_space m false ≤ℤ available_space m b
unfolding available_space
available_space_shown m b = ground arith

pub length-init : (x : ℕ) (xs : List ℕ) → suc (length (init (x ∷ xs))) ≡ length (x ∷ xs)
length-init x [] = refl
length-init x (y ∷ xs) = ap suc (length-init y xs)

-- A pass over a list that overflows.
pub pass_over :
    (m : Measures) (space : ℤ) (n : Nav)
    → overflows m n.visible space ≡ true
    → ((pass m space n).visible ≡ init n.visible)
      × ((pass m space n).button_hidden ≡ false)
      × (length (pass m space n).breaks ≡ suc (length n.breaks))
unfolding pass hide_last
pass_over m space n over = ground arith

-- A pass over a list that fits.
pub pass_fits :
    (m : Measures) (space : ℤ) (n : Nav)
    → overflows m n.visible space ≡ false
    → ((pass m space n).visible
        ≡ (if has_room space n.breaks then n.visible ++ first_of n.hidden else n.visible))
      × ((pass m space n).breaks ≡ (if has_room space n.breaks then rest_of n.breaks else n.breaks))
      × (((pass m space n).button_hidden ≡ n.button_hidden) ⊎ ((pass m space n).breaks ≡ []))
unfolding pass show_if_room show_first
pass_fits m space n fits = ground arith

-- One step of the recursion.
pub update_nav_more :
    (fuel : ℕ) (m : Measures) (n : Nav)
    → let space = available_space m n.button_hidden in
      overflows m (pass m space n).visible space ≡ true
      → update_nav (suc fuel) m n ≡ update_nav fuel m (pass m space n)
unfolding update_nav
update_nav_more fuel m n over = rw over

pub update_nav_ends :
    (fuel : ℕ) (m : Measures) (n : Nav)
    → let space = available_space m n.button_hidden in
      overflows m (pass m space n).visible space ≡ false
      → update_nav (suc fuel) m n ≡ some (pass m space n)
unfolding update_nav
update_nav_ends fuel m n fits = rw fits
