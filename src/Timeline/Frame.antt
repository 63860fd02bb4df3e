-- ===== src/Timeline/Frame.antt =====
-- `_create`: the buttons around the wrapper of the events.
pub mod Offers
use lso_project.Prelude.{Bool, true, false, List, [], ◌∷◌}
use lso_project.Timeline.{Settings, Buttons}
use lso_project.Timeline.Handlers.{
  Button, next_button, prev_button, scroll_right_button, scroll_left_button,
}

-- The buttons of `#leftNav` and `#rightNav`, in order, and whether there is a pause button.
pub record Frame : Type 0 where
  pub left_nav : List Button
  pub right_nav : List Button
  pub has_pause : Bool

abbrev pub left_buttons : Bool → Bool → List Button
left_buttons false true = scroll_left_button ∷ []
left_buttons true false = prev_button ∷ []
left_buttons true true = scroll_left_button ∷ prev_button ∷ []
left_buttons false false = []

abbrev pub right_buttons : Bool → Bool → List Button
right_buttons false true = scroll_right_button ∷ []
right_buttons true false = next_button ∷ []
right_buttons true true = next_button ∷ scroll_right_button ∷ []
right_buttons false false = []

unfoldable pub create_frame : Settings → Frame
create_frame s = record {
  left_nav = left_buttons s.use_nav_btns s.use_scroll_btns;
  right_nav = right_buttons s.use_nav_btns s.use_scroll_btns;
  has_pause = s.autoplay;
}

-- The classes that the texts of the buttons have.
abbrev pub created_buttons : Buttons
created_buttons = record {
  prev_inactive = true;
  next_inactive = false;
  left_inactive = true;
  right_inactive = false;
}
