-- ===== src/Nav/Order.antt =====
-- No link of the menu is lost, doubled or moved past another.
use lso_project.Prelude.{
  ℕ, zero, suc, ◌≡◌, refl, sym, ap, ◌∙◌, inl, inr, some, List, [], ◌∷◌, ◌++◌, append_assoc, arith,
  Bool-cases, init, last?, to_list, init-append-last,
}
use lso_project.Prelude.Int.{ℤ}
use lso_project.Nav.{
  Nav, Measures, available_space, overflows, hide_last, first_of, rest_of, show_first, show_if_room,
  pass, update_nav,
}

hide_last-links :
    (m : Measures) (n : Nav)
    → (hide_last m n).visible ++ (hide_last m n).hidden ≡ n.visible ++ n.hidden
unfolding hide_last
hide_last-links m n =
    sym (append_assoc (init n.visible) (to_list (last? n.visible)) n.hidden)
    ∙ init-append-last n.visible n.hidden

first-append-rest : (xs : List ℕ) → first_of xs ++ rest_of xs ≡ xs
first-append-rest [] = refl
first-append-rest (x ∷ xs) = refl

show_if_room-links :
    (space : ℤ) (n : Nav)
    → (show_if_room space n).visible ++ (show_if_room space n).hidden ≡ n.visible ++ n.hidden
unfolding show_if_room show_first
show_if_room-links space n = ground (
  arith,
  append_assoc n.visible (first_of n.hidden) (rest_of n.hidden),
  first-append-rest n.hidden,
)

pass-links :
    (m : Measures) (space : ℤ) (n : Nav)
    → (pass m space n).visible ++ (pass m space n).hidden ≡ n.visible ++ n.hidden
unfolding pass
pass-links m space n = ground (arith, hide_last-links m n, show_if_room-links space n)

-- However the widths are measured, an update that ends keeps all links, in their order: the visible
-- ones followed by the hidden ones.
pub update_nav-links :
    (fuel : ℕ) (m : Measures) (n : Nav) {n' : Nav}
    → update_nav fuel m n ≡ some n'
    → n'.visible ++ n'.hidden ≡ n.visible ++ n.hidden
unfolding update_nav
update_nav-links zero m n e = cc
update_nav-links (suc fuel) m n {n'} e =
    let space = available_space m n.button_hidden in
    elim (Bool-cases (overflows m (pass m space n).visible space)) [
      | inl over ↦ update_nav-links fuel m (pass m space n) (rw over at e) ∙ pass-links m space n
      | inr fits ↦
          let same : pass m space n ≡ n' = ground arith in
          ap (λ (k : Nav). k.visible ++ k.hidden) (sym same) ∙ pass-links m space n
    ]
