-- ===== src/Nav/Visit.antt =====
-- The menu under any resizes of the window and clicks on the button.
use lso_project.Prelude.{
  ℕ, zero, suc, ◌+◌, ◌≡◌, refl, sym, ap, ◌∙◌, inl, inr, Bool, true, false, not, ◌&&◌, Option, some,
  List, [], ◌∷◌, ◌++◌, ◌>>=◌, ◌<◌, All, if◌then◌else◌, arith, length, last?, to_list, Bool-cases,
}
use mathlib.Core.Path.{subst}
use lso_project.Prelude.Int.{ℤ}
use lso_project.Nav.{
  Nav, Measures, available_space, overflows, hide_last, rest_of, show_first, has_room, is_empty,
  hide_button, show_if_room, pass, update_nav, click_button,
}
use lso_project.Nav.Order.{update_nav-links}
use lso_project.Nav.Passes.{Sane, update_nav_more, update_nav_ends}
use lso_project.Nav.Totality.{update_nav_total, not-overflows_empty}

pub data Input : Type 0 where
  resize : Measures → Input
  click : Input

abbrev pub input : Input → Nav → Option Nav
input (resize m) n = update_nav (length n.visible + 3) m n
input click n = some (click_button n)

abbrev pub inputs : List Input → Nav → Option Nav
inputs [] n = some n
inputs (i ∷ is) n = do n' ← input i n; inputs is n'

-- The counter is the number of hidden links, and the button and the list are hidden where there is none;
-- the button only there.
pub record Sound (n : Nav) : Type 0 where
  pub breaks : length n.breaks ≡ length n.hidden
  pub count : n.count ≡ length n.hidden
  pub button : n.button_hidden ≡ is_empty n.hidden
  pub list : (is_empty n.hidden && not n.list_hidden) ≡ false

counted : Nav → Nav
counted n = record n { count = length n.breaks }

-- The end of a pass.
hide_button-Sound :
    (n : Nav)
    → length n.breaks ≡ length n.hidden
    → (is_empty n.breaks ≡ false → n.button_hidden ≡ false)
    → Sound (counted (hide_button n))
unfolding counted
hide_button-Sound n e h =
    by_lists n.breaks n.hidden n.visible n.button_hidden n.list_hidden n.count e h
  where
    by_lists :
        (bs hs vs : List ℕ) (b l : Bool) (k : ℕ)
        → length bs ≡ length hs
        → (is_empty bs ≡ false → b ≡ false)
        → Sound (
            counted (
              hide_button (record {
                visible = vs;
                hidden = hs;
                breaks = bs;
                button_hidden = b;
                list_hidden = l;
                count = k;
              })))
    by_lists [] [] vs b l k e h = record { breaks = refl; count = refl; button = refl; list = refl }
    by_lists [] (x ∷ hs) vs b l k e h = absurd (omega (arith, e))
    by_lists (x ∷ bs) [] vs b l k e h = absurd (omega (arith, e))
    by_lists (x ∷ bs) (y ∷ hs) vs b l k e h = record {
      breaks = e;
      count = e;
      button = h refl;
      list = refl;
    }

is_empty-length : (bs hs : List ℕ) → length bs ≡ length hs → is_empty bs ≡ is_empty hs
is_empty-length [] [] e = refl
is_empty-length [] (h ∷ hs) e = absurd (omega (arith, e))
is_empty-length (b ∷ bs) [] e = absurd (omega (arith, e))
is_empty-length (b ∷ bs) (h ∷ hs) e = refl

length-rest_of :
    (bs hs : List ℕ) → length bs ≡ length hs → length (rest_of bs) ≡ length (rest_of hs)
length-rest_of [] [] e = refl
length-rest_of [] (h ∷ hs) e = absurd (omega (arith, e))
length-rest_of (b ∷ bs) [] e = absurd (omega (arith, e))
length-rest_of (b ∷ bs) (h ∷ hs) e = omega (arith, e)

some_rest : (bs : List ℕ) → is_empty (rest_of bs) ≡ false → is_empty bs ≡ false
some_rest [] h = h
some_rest (b ∷ bs) h = refl

show_if_room-Sound : (space : ℤ) (n : Nav) → Sound n → Sound (counted (show_if_room space n))
unfolding show_if_room show_first
show_if_room-Sound space n s = by_room (has_room space n.breaks)
  where
    shown : is_empty n.breaks ≡ false → n.button_hidden ≡ false
    shown h = s.button ∙ sym (is_empty-length n.breaks n.hidden s.breaks) ∙ h

    by_room : (b : Bool) → Sound (counted (hide_button (if b then show_first n else n)))
    by_room false = hide_button-Sound n s.breaks shown
    by_room true =
        hide_button-Sound (show_first n) (length-rest_of n.breaks n.hidden s.breaks)
          (λ h. shown (some_rest n.breaks h))

last-some : (x : ℕ) (xs : List ℕ) → (y : ℕ) × (last? (x ∷ xs) ≡ some y)
last-some x [] = (x, refl)
last-some x (y ∷ xs) = last-some y xs

hide_last-Sound :
    (m : Measures) (n : Nav) (x : ℕ) (xs : List ℕ)
    → n.visible ≡ x ∷ xs
    → Sound n
    → Sound (counted (hide_last m n))
unfolding hide_last counted
hide_last-Sound m n x xs e s =
    let (y, q) = last-some x xs in
    let hid : to_list (last? n.visible) ++ n.hidden ≡ y ∷ n.hidden =
      ap (λ v. to_list (last? v) ++ n.hidden) e ∙ ap (λ o. to_list o ++ n.hidden) q in
    record {
      breaks = ap suc s.breaks ∙ ap length (sym hid);
      count = ap suc s.breaks ∙ ap length (sym hid);
      button = ap is_empty (sym hid);
      list = ap (λ h. is_empty h && not n.list_hidden) hid;
    }

pass-Sound :
    (m : Measures) (n : Nav)
    → Sane m
    → Sound n
    → Sound (pass m (available_space m n.button_hidden) n)
unfolding pass counted
pass-Sound m n v s =
    let space = available_space m n.button_hidden in
    elim (Bool-cases (overflows m n.visible space)) [
      | inl over ↦ rw over (some_visible n.visible refl (not-overflows_empty m n v over))
      | inr fits ↦ rw fits (show_if_room-Sound space n s)
    ]
  where
    some_visible : (vs : List ℕ) → n.visible ≡ vs → 0 < length vs → Sound (counted (hide_last m n))
    some_visible [] e h = absurd (omega (arith, h))
    some_visible (x ∷ xs) e h = hide_last-Sound m n x xs e s

update_nav-Sound :
    (fuel : ℕ) (m : Measures) (n : Nav) {n' : Nav}
    → Sane m
    → Sound n
    → update_nav fuel m n ≡ some n'
    → Sound n'
update_nav-Sound zero m n v s e = unfold update_nav in cc
update_nav-Sound (suc fuel) m n {n'} v s e =
    let space = available_space m n.button_hidden in
    let s' = pass-Sound m n v s in
    elim (Bool-cases (overflows m (pass m space n).visible space)) [
      | inl over ↦
          update_nav-Sound fuel m (pass m space n) v s' (sym (update_nav_more fuel m n over) ∙ e)
      | inr fits ↦
          let same : pass m space n ≡ n' = cc (update_nav_ends fuel m n fits) in subst Sound same s'
    ]

click_button-Sound : (n : Nav) → Sound n → Sound (click_button n)
unfolding click_button
click_button-Sound n s = by_button n.button_hidden refl
  where
    by_button :
        (b : Bool)
        → n.button_hidden ≡ b
        → Sound (if b then n else record n { list_hidden = not n.list_hidden })
    by_button true e = s
    by_button false e = record {
      breaks = s.breaks;
      count = s.count;
      button = s.button;
      list = ap (λ h. h && not (not n.list_hidden)) (sym s.button ∙ e);
    }

-- The inputs that a browser gives: an empty list has no width, and the button has its place.
abbrev pub IsSane : Input → Type 0
IsSane (resize m) = Sane m
IsSane click = Unit

abbrev Leads : Nav → Option Nav → Type 0
Leads n o =
    (n' : Nav) × (o ≡ some n') × Sound n' × (n'.visible ++ n'.hidden ≡ n.visible ++ n.hidden)

click_button-links :
    (n : Nav) → (click_button n).visible ++ (click_button n).hidden ≡ n.visible ++ n.hidden
unfolding click_button
click_button-links n = by_button n.button_hidden
  where
    by_button :
        (b : Bool)
        → (if b then n else record n { list_hidden = not n.list_hidden }).visible
            ++ (if b then n else record n { list_hidden = not n.list_hidden }).hidden
          ≡ n.visible ++ n.hidden
    by_button true = refl
    by_button false = refl

input-Leads : (i : Input) (n : Nav) → IsSane i → Sound n → Leads n (input i n)
input-Leads (resize m) n v s =
    let (n', e) = update_nav_total m n v in
    (
      n',
      e,
      update_nav-Sound (length n.visible + 3) m n v s e,
      update_nav-links (length n.visible + 3) m n e,
    )
input-Leads click n v s = (click_button n, refl, click_button-Sound n s, click_button-links n)

-- From a menu whose counter, button and list are as they should be, whatever the resizes of the window
-- and the clicks on the button, where an empty list has no width and the button has its place in the
-- menu: every update ends, no link is lost and none moves past another, the counter is the number of
-- hidden links, the button is hidden exactly where there is none, and the hidden list is too then.
pub inputs-Sound :
    (is : List Input) (n : Nav)
    → All IsSane is
    → Sound n
    → (n' : Nav) × (inputs is n ≡ some n')
      × Sound n'
      × (n'.visible ++ n'.hidden ≡ n.visible ++ n.hidden)
inputs-Sound [] n v s = (n, refl, s, refl)
inputs-Sound (i ∷ is) n v s =
    let (n1, e1, s1, l1) = input-Leads i n v.0 s in
    let (n2, e2, s2, l2) = inputs-Sound is n1 v.1 s1 in
    (n2, ap (λ o. o >>= inputs is) e1 ∙ e2, s2, l2 ∙ l1)
