-- ===== src/Timeline/Frame/Offers.antt =====
-- Which buttons a timeline offers.
use lso_project.Prelude.{
  ℕ, suc, ◌≡◌, refl, Bool, true, false, List, [], ◌∷◌, ◌++◌, ◌==◌, if◌then◌else◌,
}
use lso_project.Timeline.{Settings}
use lso_project.Timeline.Handlers.{
  Button, next_button, prev_button, scroll_right_button, scroll_left_button,
}
use lso_project.Timeline.Frame.{left_buttons, right_buttons, create_frame}

abbrev code_of : Button → ℕ
code_of next_button = 0
code_of prev_button = 1
code_of scroll_right_button = 2
code_of scroll_left_button = 3

-- How often a button stands in a list.
unfoldable pub count : Button → List Button → ℕ
count b [] = 0
count b (c ∷ cs) = if code_of b == code_of c then suc (count b cs) else count b cs

abbrev pub once_if : Bool → ℕ
once_if true = 1
once_if false = 0

abbrev pub enabled : Button → Settings → Bool
enabled next_button s = s.use_nav_btns
enabled prev_button s = s.use_nav_btns
enabled scroll_right_button s = s.use_scroll_btns
enabled scroll_left_button s = s.use_scroll_btns

counted :
    (b : Button) (navs scrolls : Bool)
    → count b (left_buttons navs scrolls ++ right_buttons navs scrolls)
      ≡ once_if (elim b [
        | next_button ↦ navs
        | prev_button ↦ navs
        | scroll_right_button ↦ scrolls
        | scroll_left_button ↦ scrolls
      ])
unfolding count
counted next_button true true = refl
counted next_button true false = refl
counted next_button false true = refl
counted next_button false false = refl
counted prev_button true true = refl
counted prev_button true false = refl
counted prev_button false true = refl
counted prev_button false false = refl
counted scroll_right_button true true = refl
counted scroll_right_button true false = refl
counted scroll_right_button false true = refl
counted scroll_right_button false false = refl
counted scroll_left_button true true = refl
counted scroll_left_button true false = refl
counted scroll_left_button false true = refl
counted scroll_left_button false false = refl

-- Whatever the settings, each of the four buttons stands in the timeline exactly once if the setting
-- of its pair is on, and not at all if it is off.
pub count-create_frame :
    (b : Button) (s : Settings)
    → count b ((create_frame s).left_nav ++ (create_frame s).right_nav) ≡ once_if (enabled b s)
unfolding create_frame
count-create_frame next_button s = counted next_button s.use_nav_btns s.use_scroll_btns
count-create_frame prev_button s = counted prev_button s.use_nav_btns s.use_scroll_btns
count-create_frame scroll_right_button s =
    counted scroll_right_button s.use_nav_btns s.use_scroll_btns
count-create_frame scroll_left_button s =
    counted scroll_left_button s.use_nav_btns s.use_scroll_btns
