-- ===== src/Sliders/Fits.antt =====
-- What every slider shows, whatever the window's width.
use lso_project.Prelude.{
  ℕ, ◌≤◌, ◌≡◌, refl, sym, ◌⊎◌, inl, inr, Option, none, some, List, [], ◌∷◌, arith, ◌==◌, ==_iff,
  All, Bool-cases,
}
use mathlib.Core.Path.{subst}
use lso_project.Sliders.{
  Breakpoint, Slider, Widget, e_commerce, e_commerce2, calciatori, calciatori_col8, tecnici,
  content_int, tecnici_slider, slider_of,
}

-- The entry is one of the list.
abbrev pub Listed : Breakpoint → List Breakpoint → Type 0
Listed b [] = ⊥
Listed b (x ∷ xs) = (b ≡ x) ⊎ Listed b xs

-- The settings in force, where lightSlider has chosen an entry or none, and `default_move` is its
-- own `slideMove`.
abbrev pub shown_items : Slider → Option Breakpoint → ℕ
shown_items s none = s.item
shown_items s (some b) = b.item

abbrev pub or_else : ℕ → Option ℕ → ℕ
or_else n none = n
or_else n (some m) = m

abbrev pub move_length : ℕ → Slider → Option Breakpoint → ℕ
move_length default_move s none = or_else default_move s.slide_move
move_length default_move s (some b) = or_else (or_else default_move s.slide_move) b.slide_move

-- A move passes at least one item and none unseen, and no more are shown than at first.
abbrev pub Seen : ℕ → Slider → Option Breakpoint → Type 0
Seen default_move s b =
    (1 ≤ move_length default_move s b)
    × (move_length default_move s b ≤ shown_items s b)
    × (shown_items s b ≤ s.item)

abbrev pub AtLeastThree : Widget → Type 0
AtLeastThree (tecnici (some n)) = 3 ≤ n
AtLeastThree w = Unit

All-Listed :
    (P : Breakpoint → Type 0) (b : Breakpoint) (bs : List Breakpoint) → All P bs → Listed b bs → P b
All-Listed P b [] h l = absurd l
All-Listed P b (x ∷ xs) h (inl e) = subst P (sym e) h.0
All-Listed P b (x ∷ xs) h (inr l) = All-Listed P b xs h.1 l

tecnici-Seen :
    (n : ℕ)
    → 3 ≤ n
    → Seen 1 (tecnici_slider n) none
      × All (λ b. Seen 1 (tecnici_slider n) (some b)) (tecnici_slider n).responsive
tecnici-Seen n h = elim (Bool-cases (n == 3)) [
  | inl three ↦ rw three ((omega arith, omega arith, omega arith), omega arith)
  | inr more ↦
      let ne = ==_iff n 3 in
      let four : 4 ≤ n = grind arith in
      rw more ((omega arith, omega arith, omega arith), omega arith)
]

slider_of-Seen :
    (w : Widget)
    → AtLeastThree w
    → Seen 1 (slider_of w) none × All (λ b. Seen 1 (slider_of w) (some b)) (slider_of w).responsive
unfolding slider_of
slider_of-Seen e_commerce h = omega arith
slider_of-Seen e_commerce2 h = omega arith
slider_of-Seen calciatori h = omega arith
slider_of-Seen calciatori_col8 h = omega arith
slider_of-Seen (tecnici none) h = tecnici-Seen 5 (omega arith)
slider_of-Seen (tecnici (some n)) h = tecnici-Seen n h
slider_of-Seen content_int h = omega arith

-- Where lightSlider uses, at a width of the window, an entry of the list it was given or none, and
-- moves by one item where no setting says otherwise, every slider of the page, at every width,
-- moves by at least one item and by no more than it shows, so that none is passed unseen, and it
-- shows no more than at first. For the coaches' widget this supposes that an attribute, where it
-- is there, asks for three items or more.
pub slider_of-fits :
    (choose : ℕ → List Breakpoint → Option Breakpoint) (default_move width : ℕ) (w : Widget)
    → ((n : ℕ) (bs : List Breakpoint) (b : Breakpoint) → choose n bs ≡ some b → Listed b bs)
    → default_move ≡ 1
    → AtLeastThree w
    → Seen default_move (slider_of w) (choose width (slider_of w).responsive)
slider_of-fits choose default_move width w listed one three =
    subst (λ m. Seen m (slider_of w) (choose width (slider_of w).responsive)) (sym one)
      (chosen (choose width (slider_of w).responsive) (listed width (slider_of w).responsive)
        (slider_of-Seen w three))
  where
    chosen :
        (o : Option Breakpoint)
        → ((b : Breakpoint) → o ≡ some b → Listed b (slider_of w).responsive)
        → Seen 1 (slider_of w) none
          × All (λ b. Seen 1 (slider_of w) (some b)) (slider_of w).responsive
        → Seen 1 (slider_of w) o
    chosen none l s = s.0
    chosen (some b) l s =
        All-Listed (λ b. Seen 1 (slider_of w) (some b)) b (slider_of w).responsive s.1 (l b refl)
