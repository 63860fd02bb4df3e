-- ===== src/Timeline.antt =====
-- The horizontal timeline of SupportTestDirectory/yo/FIGC_files/horizontal_timeline.2.0.js: the
-- state that one instance of the plugin keeps in its settings, its object data and the page.
pub mod Flags
pub mod Holds
pub mod Scroll
pub mod Layout
pub mod Cycle
pub mod Select
pub mod Advance
pub mod Handlers
pub mod Labels
pub mod Frame
pub mod Life
pub mod Goto
pub mod Debounce
pub mod Files
pub mod Session
pub mod Plugin
use lso_project.Prelude.{
  ℕ, suc, Bool, true, false, Option, none, some, List, [], ◌∷◌, map, if◌then◌else◌, Text,
}
pub use lso_project.Prelude.{◌>>=◌}
use lso_project.Prelude.Int.{ℤ}

-- The values of the setting `dateDisplay`.
pub data DateDisplay : Type 0 where
  date_time : DateDisplay
  date : DateDisplay
  time : DateDisplay
  day_month : DateDisplay
  month_year : DateDisplay
  year : DateDisplay

-- `defaults`, without the classes of the icons.
pub record Settings : Type 0 where
  pub desktop_date_intervals : ℕ
  pub tablet_date_intervals : ℕ
  pub mobile_date_intervals : ℕ
  pub minimal_first_date_interval : Bool
  pub date_display : DateDisplay
  pub autoplay : Bool
  pub autoplay_speed : ℕ
  pub autoplay_pause_on_hover : Bool
  pub use_scroll_wheel : Bool
  pub use_touch_swipe : Bool
  pub use_keyboard_keys : Bool
  pub add_required_file : Bool
  pub use_font_awesome_icons : Bool
  pub use_nav_btns : Bool
  pub use_scroll_btns : Bool

abbrev pub defaults : Settings
defaults = record {
  desktop_date_intervals = 200;
  tablet_date_intervals = 150;
  mobile_date_intervals = 120;
  minimal_first_date_interval = true;
  date_display = date_time;
  autoplay = false;
  autoplay_speed = 8;
  autoplay_pause_on_hover = false;
  use_scroll_wheel = false;
  use_touch_swipe = true;
  use_keyboard_keys = false;
  add_required_file = true;
  use_font_awesome_icons = false;
  use_nav_btns = true;
  use_scroll_btns = true;
}

-- What `_checkMQ` reads from the style sheet.
pub data Media : Type 0 where
  tiny_mobile : Media
  mobile : Media
  small_tablet : Media
  tablet : Media
  desktop : Media
  other : Media

-- A link `a` of `.events`: its date, its text, its classes, and its place and width in pixels.
pub record Event : Type 0 where
  pub date : Text
  pub label : Text
  pub selected : Bool
  pub older_event : Bool
  pub first : Bool
  pub last : Bool
  pub left : ℕ
  pub width : ℕ

-- An `li` of `.events-content`: its date, its custom text, its id and its classes.
pub record Content : Type 0 where
  pub date : Text
  pub custom_display : Option Text
  pub selected : Bool
  pub id_first : Bool
  pub id_last : Bool
  pub enter_left : Bool
  pub enter_right : Bool
  pub leave_left : Bool
  pub leave_right : Bool

-- The class `inactive` of the four buttons.
pub record Buttons : Type 0 where
  pub prev_inactive : Bool
  pub next_inactive : Bool
  pub left_inactive : Bool
  pub right_inactive : Bool

-- `mouseEvent` of the plugin's data.
pub data MouseEvent : Type 0 where
  no_mouse : MouseEvent
  click : MouseEvent
  hover : MouseEvent

-- The variables of `autoplay`. `progress` is `percentTime * speed`, and `intervals` the number of
-- intervals that are set and not cleared; `shows_play` says that the button is the play button,
-- `clicked` that its wrapper has the class of that name.
pub record Autoplay : Type 0 where
  pub progress : ℕ
  pub is_paused : Bool
  pub shows_play : Bool
  pub clicked : Bool
  pub mouse_event : MouseEvent
  pub intervals : ℕ

-- One instance. `wrapper_width` is the measured width of `.events-wrapper`, `total_width` the width
-- set on `.events`, `translate` its `translateX` in half pixels, `filling` the scale of the filling
-- line as a fraction.
pub record Timeline : Type 0 where
  pub settings : Settings
  pub media : Media
  pub events : List Event
  pub contents : List Content
  pub date_intervals : Option ℕ
  pub wrapper_width : ℕ
  pub total_width : ℕ
  pub translate : ℤ
  pub filling : ℕ × ℕ
  pub buttons : Buttons
  pub autoplay : Autoplay
  pub existing_dates : List Text

abbrev pub up : Option ℕ → Option ℕ
up none = none
up (some k) = some (suc k)

-- `.find('.selected')` of the links: the place of the first one.
unfoldable pub find_index : List Bool → Option ℕ
find_index [] = none
find_index (b ∷ bs) = if b then some 0 else up (find_index bs)

abbrev pub event_flags : List Event → List Bool
event_flags = map (λ (e : Event). e.selected)

abbrev pub content_flags : List Content → List Bool
content_flags = map (λ (c : Content). c.selected)
