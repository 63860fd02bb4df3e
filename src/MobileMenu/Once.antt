-- ===== src/MobileMenu/Once.antt =====
-- The mobile menu is loaded once.
use lso_project.Prelude.{
  ℕ, zero, suc, ◌≡◌, refl, sym, ap, arith, ◌∙◌, Bool, true, false, ◌||◌, Option, none, some, List,
  [], ◌∷◌, ◌++◌, ltb, if◌then◌else◌, append-nil, Text,
}
use lso_project.MobileMenu.{MobileMenu, address, load_node, load_menu_mobile_html, ready, click}

abbrev pub clicks : ℕ → MobileMenu → MobileMenu
clicks zero m = m
clicks (suc n) m = clicks n (click m)

abbrev pub addresses : Option Text → List Text
addresses none = []
addresses (some id) = address id ∷ []

-- A click where nothing is left to load.
clicks-loaded : (n : ℕ) (m : MobileMenu) → m.current_node ≡ none → clicks n m ≡ m
unfolding click load_menu_mobile_html
clicks-loaded zero m h = refl
clicks-loaded (suc n) m h = ap (clicks n) (one m.has_handler) ∙ clicks-loaded n m h
  where
    one : (b : Bool) → (if b then load_menu_mobile_html m else m) ≡ m
    one false = refl
    one true = ap (λ o. load_node o m) h

-- The first load and any clicks after it.
load-once :
    (n : ℕ) (o : Option Text) (m : MobileMenu)
    → m.current_node ≡ o
    → (clicks n (load_node o m)).loads ≡ m.loads ++ addresses o
load-once n none m h =
    ap (λ (m : MobileMenu). m.loads) (clicks-loaded n m h) ∙ sym (append-nil m.loads)
load-once n (some id) m h =
    ap (λ (m : MobileMenu). m.loads) (clicks-loaded n (load_node (some id) m) refl)

-- The menu is loaded once, from the address of the current node if there is one: at the start if the
-- button is visible then, and else at the first click on it, however many clicks follow.
pub ready-loads :
    (n : ℕ) (m : MobileMenu)
    → m.has_handler ≡ false
    → (clicks n (ready m)).loads
      ≡ m.loads ++ (if m.button_visible || ltb 0 n then addresses m.current_node else [])
unfolding ready click load_menu_mobile_html
ready-loads n m h = by_button n m.button_visible
  where
    by_button :
        (n : ℕ) (b : Bool)
        → (clicks n (if b then load_menu_mobile_html m else record m { has_handler = true })).loads
          ≡ m.loads ++ (if b || ltb 0 n then addresses m.current_node else [])
    by_button n true = load-once n m.current_node m refl
    by_button zero false = sym (append-nil m.loads)
    by_button (suc n) false =
        let some_click : ltb 0 (suc n) ≡ true = ground arith in
        rw some_click (load-once n m.current_node (record m { has_handler = true }) refl)
