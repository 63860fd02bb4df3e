-- ===== src/Timeline/Session.antt =====
-- A visit to the page: what the visitor and the page do to a timeline, one after the other. Each
-- input calls the handler that the page installs for it, or a public method.
pub mod Kept
pub mod Counted
pub mod Changes
pub mod Sound
pub mod Visit
pub mod Playing
pub mod Liveness
use lso_project.Prelude.{
  ℕ, ◌<◌, ◌≡◌, ◌⊎◌, true, false, Option, some, length, get_elem?, Text, ◌==◌, if◌then◌else◌,
}
use lso_project.Timeline.{Media, Content, Timeline, ◌>>=◌}
use lso_project.Timeline.Scroll.{Direction, swipe_wrapper}
use lso_project.Timeline.Layout.{set_timeline_width}
use lso_project.Timeline.Cycle.{
  ButtonEvent, click_pause, click_play, mouse_enter, mouse_leave, change_buttons,
}
use lso_project.Timeline.Select.{is_selected, click_event}
use lso_project.Timeline.Select.Classes.{event_dates}
use lso_project.Timeline.Select.Shows.{Differs}
use lso_project.Timeline.Advance.{interval}
use lso_project.Timeline.Handlers.{Box, Window}
use lso_project.Timeline.Handlers.Arrivals.{Action, act}
use lso_project.Timeline.Goto.{GotoData, goto_timeline}
use lso_project.Timeline.Labels.{InsertMethod}
use lso_project.Timeline.Labels.Dates.{Labelled}
use lso_project.Timeline.Life.{in_array, mobile_resize_fix, add_event, remove_event}
use lso_project.Timeline.Life.Addition.{Beside}

pub data Input : Type 0 where
  acted : Window → Box → Action → Input
  picked : ℕ → Input
  followed : Text → GotoData → Input
  ticked : ℕ → Input
  cycle_button : ButtonEvent → Input
  dragged : ℕ → Direction → ℕ → Input
  resized : ℕ → ℕ → ℕ → Media → Input
  added : (Text → ℕ) → InsertMethod → Content → Input
  removed : Text → Input

abbrev pub followed_by : Text → GotoData → Timeline → Option Timeline
followed_by href d t = do r ← goto_timeline href (some d) t; some r.1

abbrev pub with_buttons : ButtonEvent → Timeline → Timeline
with_buttons e t = record t { autoplay = change_buttons e t.autoplay }

-- The buttons of the cycle. A click on them is one on a link of the navigation as well, whose handler
-- measures the width.
unfoldable pub press_cycle : ButtonEvent → Timeline → Option Timeline
press_cycle click_pause t = do t' ← set_timeline_width t; some (with_buttons click_pause t')
press_cycle click_play t = do t' ← set_timeline_width t; some (with_buttons click_play t')
press_cycle mouse_enter t = some (with_buttons mouse_enter t)
press_cycle mouse_leave t = some (with_buttons mouse_leave t)

-- The window gets another width, and with it the wrapper and the device; then the debounced handler runs.
abbrev pub in_window : ℕ → ℕ → ℕ → Media → Timeline → Timeline
in_window old new wrapper media t =
    if new == old then t else record t { wrapper_width = wrapper; media = media }

abbrev pub perform : Input → Timeline → Option Timeline
perform (acted w b a) t = act w b a t
perform (picked j) t = click_event j t
perform (followed href d) t = followed_by href d t
perform (ticked total) t = interval total t
perform (cycle_button e) t = press_cycle e t
perform (dragged total d distance) t = some (swipe_wrapper total d distance t)
perform (resized old new wrapper media) t =
    mobile_resize_fix old new (in_window old new wrapper media t)
perform (added measure method c) t = add_event measure method c t
perform (removed d) t = remove_event d t

-- One of the timeline's dates.
abbrev pub Present : Text → Timeline → Type 0
Present d t = (j : ℕ) × (get_elem? (event_dates t.events) j ≡ some d)

-- A content that can be added: its place is beside a date that there is, it is not selected, its
-- date has a text and is either noted as existing or none of those that there are.
pub record Addable (method : InsertMethod) (c : Content) (t : Timeline) : Type 0 where
  pub anchor : Text
  pub anchor_at : ℕ
  pub place : ℕ
  pub anchored : get_elem? (event_dates t.events) anchor_at ≡ some anchor
  pub beside : Beside method anchor anchor_at place
  pub labelled : Labelled t.settings.date_display c
  pub plain : c.selected ≡ false
  pub fresh : (in_array c.date t.existing_dates ≡ true) ⊎ Differs c.date (event_dates t.events)

-- When an input can come: a click is on the date of an event other than the selected one, links and
-- removals name a date that there is, and a swipe of the wrapper comes as long as the width that a handler
-- measured last is that of the timeline.
abbrev pub Enabled : Input → Timeline → Type 0
Enabled (picked j) t = (j < length t.events) × (is_selected j t.events ≡ false)
Enabled (followed href d) t = Present d.goto_date t
Enabled (added measure method c) t = Addable method c t
Enabled (removed d) t = Present d t
Enabled (acted w b a) t = Unit
Enabled (ticked total) t = Unit
Enabled (cycle_button e) t = Unit
Enabled (dragged total d distance) t = total ≡ t.total_width
Enabled (resized old new wrapper media) t = Unit

-- The timelines that a visit leads to.
pub data Reach : Timeline → Timeline → Type 0 where
  done : {t : Timeline} → Reach t t
  then_input :
      {t t' t'' : Timeline} (i : Input)
      → Enabled i t
      → perform i t ≡ some t'
      → Reach t' t''
      → Reach t t''
