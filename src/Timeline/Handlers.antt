-- ===== src/Timeline/Handlers.antt =====
-- What the user does: the buttons, the wheel, the keys and a swipe over the contents.
pub mod Arrivals
use lso_project.Prelude.{
  ℕ, ◌+◌, Bool, ◌&&◌, Option, none, some, List, [], ◌∷◌, ltb, ◌==◌, if◌then◌else◌,
}
use lso_project.Timeline.{Buttons, Timeline, ◌>>=◌, up}
use lso_project.Timeline.Scroll.{scroll_left, scroll_right, update_slide}
use lso_project.Timeline.Layout.{set_timeline_width}
use lso_project.Timeline.Select.{Step, next, prev, show_new_content}

pub data Button : Type 0 where
  next_button : Button
  prev_button : Button
  scroll_right_button : Button
  scroll_left_button : Button

abbrev pub is_inactive : Button → Buttons → Bool
is_inactive next_button b = b.next_inactive
is_inactive prev_button b = b.prev_inactive
is_inactive scroll_right_button b = b.right_inactive
is_inactive scroll_left_button b = b.left_inactive

abbrev pub press : Button → Timeline → Option Timeline
press next_button t = show_new_content t.total_width next t
press prev_button t = show_new_content t.total_width prev t
press scroll_right_button t = some (update_slide t.total_width scroll_right t)
press scroll_left_button t = some (update_slide t.total_width scroll_left t)

-- A click on a button: one that is inactive stops it, before the width is measured.
unfoldable pub click_button : Button → Timeline → Option Timeline
click_button b t =
    if is_inactive b t.buttons then some t else (do t' ← set_timeline_width t; press b t')

abbrev pub choose : Step → Timeline → Option Timeline
choose s t = show_new_content t.total_width s t

-- `mousewheel`, upwards where `deltaY` is positive.
unfoldable pub mousewheel : Bool → Timeline → Option Timeline
mousewheel up t = do t' ← set_timeline_width t; choose (if up then prev else next) t'

-- `swipe`
unfoldable pub swipe : Step → Timeline → Option Timeline
swipe direction t = do t' ← set_timeline_width t; choose direction t'

-- `_elementInViewport`: the offsets of the element and of its offset parents, its size, and the
-- window.
pub record Box : Type 0 where
  pub tops : List ℕ
  pub lefts : List ℕ
  pub box_width : ℕ
  pub box_height : ℕ

pub record Window : Type 0 where
  pub page_x : ℕ
  pub page_y : ℕ
  pub inner_width : ℕ
  pub inner_height : ℕ

abbrev pub sum : List ℕ → ℕ
sum [] = 0
sum (n ∷ ns) = n + sum ns

unfoldable pub element_in_viewport : Window → Box → Bool
element_in_viewport w b =
    ltb (sum b.tops) (w.page_y + w.inner_height)
    && ltb (sum b.lefts) (w.page_x + w.inner_width)
    && ltb w.page_y (sum b.tops + b.box_height)
    && ltb w.page_x (sum b.lefts + b.box_width)

-- `keyboardKeys`: the arrows to the left and to the right, where the timeline is in sight.
unfoldable pub key_step : Bool → ℕ → Option Step
key_step visible which =
    if which == 37 && visible then some prev else if which == 39 && visible then some next else none

abbrev pub choose_if : Option Step → Timeline → Option Timeline
choose_if none t = some t
choose_if (some s) t = choose s t

unfoldable pub keyboard_keys : Window → Box → ℕ → Timeline → Option Timeline
keyboard_keys w b which t = do
  t' ← set_timeline_width t
  choose_if (key_step (element_in_viewport w b) which) t'
