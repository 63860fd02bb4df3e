-- ===== src/Nav/Totality.antt =====
-- `updateNav` ends, with a list that fits.
use lso_project.Prelude.{
  ℕ, zero, suc, ◌+◌, ◌≤◌, ◌<◌, ◌≡◌, refl, sym, ap, ◌∙◌, inl, inr, Bool, true, false, some, List, [],
  ◌∷◌, ◌++◌, arith, Bool-cases, length, init, length-append,
}
use lso_project.Prelude.Int.{ℤ}
use mathlib.Core.Path.{subst}
use lso_project.Nav.{
  Nav, Measures, available_space, overflows, first_of, has_room, pass, update_nav,
}
use lso_project.Nav.Passes.{
  Sane, overflows-space, overflows_empty, available_space_shown, length-init, pass_over, pass_fits,
  update_nav_more, update_nav_ends,
}

abbrev pub Ends : ℕ → Measures → Nav → Type 0
Ends fuel m n = (n' : Nav) × (update_nav fuel m n ≡ some n')

step-Ends :
    (fuel : ℕ) (m : Measures) (n : Nav)
    → let space = available_space m n.button_hidden in
      (overflows m (pass m space n).visible space ≡ true → Ends fuel m (pass m space n))
      → Ends (suc fuel) m n
step-Ends fuel m n more =
    let space = available_space m n.button_hidden in
    elim (Bool-cases (overflows m (pass m space n).visible space)) [
      | inl over ↦ let (n', p) = more over in (n', update_nav_more fuel m n over ∙ p)
      | inr fits ↦ (pass m space n, update_nav_ends fuel m n fits)
    ]

pub not-overflows_empty :
    (m : Measures) (n : Nav)
    → Sane m
    → overflows m n.visible (available_space m n.button_hidden) ≡ true
    → 0 < length n.visible
not-overflows_empty m n v over = go n.visible over
  where
    go : (xs : List ℕ) → overflows m xs (available_space m n.button_hidden) ≡ true → 0 < length xs
    go [] over = cc (overflows_empty m n.button_hidden v)
    go (x ∷ xs) over = omega arith

length-init_lt : (xs : List ℕ) → 0 < length xs → suc (length (init xs)) ≡ length xs
length-init_lt [] h = absurd (omega arith)
length-init_lt (x ∷ xs) h = length-init x xs

overflow_again :
    (m : Measures) (n : Nav)
    → let space = available_space m n.button_hidden in
      let n' = pass m space n in
      overflows m n.visible space ≡ true
      → overflows m n'.visible space ≡ true
      → overflows m n'.visible (available_space m n'.button_hidden) ≡ true
overflow_again m n over more =
    let space = available_space m n.button_hidden in
    let n' = pass m space n in
    overflows-space m n'.visible (available_space m n'.button_hidden) space
      (rw ((pass_over m space n over).1) (available_space_shown m n.button_hidden)) more

-- While the list overflows, each pass hides one link.
over-Ends :
    (fuel : ℕ) (m : Measures) (n : Nav)
    → Sane m
    → overflows m n.visible (available_space m n.button_hidden) ≡ true
    → length n.visible ≤ fuel
    → Ends (suc fuel) m n
over-Ends zero m n v over h = absurd (omega (arith, not-overflows_empty m n v over))
over-Ends (suc fuel) m n v over h =
    let space = available_space m n.button_hidden in
    let shorter = length-init_lt n.visible (not-overflows_empty m n v over) in
    step-Ends (suc fuel) m n λ more.
      over-Ends fuel m (pass m space n) v (overflow_again m n over more)
        (rw (pass_over m space n over).0 (omega (arith, shorter)))

length-append-first : (xs ys : List ℕ) → length (xs ++ first_of ys) ≤ suc (length xs)
length-append-first xs [] = omega (arith, length-append xs [])
length-append-first xs (y ∷ ys) = omega (arith, length-append xs (y ∷ []))

no_room : (space : ℤ) (bs : List ℕ) → bs ≡ [] → has_room space bs ≡ false
no_room space [] e = refl
no_room space (b ∷ bs) e = cc

-- A list that fits takes back one link at most. If it overflows then, passes that hide follow, or
-- the button has gone, and the next pass is the last.
fits-Ends :
    (fuel : ℕ) (m : Measures) (n : Nav)
    → Sane m
    → overflows m n.visible (available_space m n.button_hidden) ≡ false
    → suc (length n.visible) ≤ fuel
    → Ends (suc (suc fuel)) m n
fits-Ends fuel m n v fits h =
    let space = available_space m n.button_hidden in
    let n' = pass m space n in
    let (shown, kept, button) = pass_fits m space n fits in
    step-Ends (suc fuel) m n λ more.
      elim (Bool-cases (overflows m n'.visible (available_space m n'.button_hidden))) [
        | inl over ↦
            over-Ends fuel m n' v over
              (ground (arith, length-append-first n.visible n.hidden, shown, h))
        | inr room ↦
            let (shown', _, _) = pass_fits m (available_space m n'.button_hidden) n' room in
            (
              pass m (available_space m n'.button_hidden) n',
              update_nav_ends fuel m n' (elim button [
                | inl same ↦ cc (ap (λ b. overflows m n'.visible (available_space m b)) same)
                | inr none_left ↦
                    rw (shown', no_room (available_space m n'.button_hidden) n'.breaks none_left)
                      room
              ]),
            )
      ]

-- Three passes more than there are visible links are always enough.
pub update_nav_total : (m : Measures) (n : Nav) → Sane m → Ends (length n.visible + 3) m n
update_nav_total m n v =
    let over_or_not = Bool-cases (overflows m n.visible (available_space m n.button_hidden)) in
    let three : length n.visible + 3 ≡ suc (suc (suc (length n.visible))) = omega arith in
    rw three (elim over_or_not [
      | inl over ↦ over-Ends (suc (suc (length n.visible))) m n v over (omega arith)
      | inr fits ↦ fits-Ends (suc (length n.visible)) m n v fits (omega arith)
    ])

narrow :
    (m : Measures) (xs : List ℕ) (b : Bool)
    → overflows m xs (available_space m b) ≡ false
    → m.width xs ≤ m.nav_width
unfolding overflows available_space
narrow m xs b h = ground arith

result_fits :
    (fuel : ℕ) (m : Measures) (n : Nav) {n' : Nav}
    → update_nav fuel m n ≡ some n'
    → m.width n'.visible ≤ m.nav_width
result_fits zero m n e = unfold update_nav in cc
result_fits (suc fuel) m n {n'} e =
    let space = available_space m n.button_hidden in
    elim (Bool-cases (overflows m (pass m space n).visible space)) [
      | inl over ↦ result_fits fuel m (pass m space n) (sym (update_nav_more fuel m n over) ∙ e)
      | inr fits ↦
          let same : pass m space n ≡ n' = cc (update_nav_ends fuel m n fits) in
          subst (λ (k : Nav). m.width k.visible ≤ m.nav_width) same
            (narrow m (pass m space n).visible n.button_hidden fits)
    ]

-- Where an empty list has no width and the button and its margin have their place in the menu,
-- `updateNav` ends, on any state of the menu, within three passes more than there are visible
-- links, and the visible list that it leaves is not wider than the menu.
pub update_nav_fits :
    (m : Measures) (n : Nav)
    → Sane m
    → (n' : Nav) × (update_nav (length n.visible + 3) m n ≡ some n')
      × (m.width n'.visible ≤ m.nav_width)
update_nav_fits m n v =
    let (n', p) = update_nav_total m n v in (n', p, result_fits (length n.visible + 3) m n p)
