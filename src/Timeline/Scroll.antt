-- ===== src/Timeline/Scroll.antt =====
-- Scrolling: the translation of `.events`, its limits, and the buttons that it enables. All
-- translations are in half pixels, so that half of the wrapper's width is a whole number.
pub mod Bounds
use lso_project.Prelude.{
  ℕ, ◌*◌, Bool, true, false, ◌&&◌, ◌||◌, Option, none, some, List, [], ◌∷◌, ◌==◌, if◌then◌else◌,
  length,
}
use lso_project.Timeline.{Event, Buttons, Timeline}
use lso_project.Prelude.Int.{ℤ, pos, sub_ℕ, pos_part, neg_part, ◌+ℤ◌, ◌-ℤ◌, ltb_ℤ}

-- `_getTranslateValue` reads back what `_translateTimeline` set.
abbrev pub get_translate_value : Timeline → ℤ
get_translate_value t = t.translate

-- Equality of numbers in JavaScript, also with `undefined`.
abbrev pub eqb_ℤ : ℤ → ℤ → Bool
eqb_ℤ a b = pos_part a == pos_part b && neg_part a == neg_part b

abbrev pub equals : ℤ → Option ℤ → Bool
equals v none = false
equals v (some limit) = eqb_ℤ v limit

-- The class `inactive` of the previous and the next button.
abbrev pub first_selected : List Event → Bool
first_selected [] = false
first_selected (e ∷ es) = (e.first && e.selected) || first_selected es

abbrev pub last_selected : List Event → Bool
last_selected [] = false
last_selected (e ∷ es) = (e.last && e.selected) || last_selected es

-- `_buttonDisable`. The first test is overruled by the last two.
abbrev pub disable_scroll : Bool → Buttons → Buttons
disable_scroll fits b = if fits then record b { left_inactive = true; right_inactive = true } else b

unfoldable pub button_disable : ℤ → Option ℤ → Timeline → Timeline
button_disable value limit t =
    let single = length t.contents == 1 in
    let b = disable_scroll (t.wrapper_width == t.total_width) t.buttons in
    record t {
      buttons = record b {
        prev_inactive = if single then true else first_selected t.events;
        next_inactive = if single then true else last_selected t.events;
        left_inactive = equals value (some (pos 0));
        right_inactive = equals value limit;
      };
    }

-- `value > 0 ? 0 : value`
abbrev pub at_most_zero : ℤ → ℤ
at_most_zero value = if ltb_ℤ (pos 0) value then pos 0 else value

-- `value < totalTranslateValue ? totalTranslateValue : value`, where that is defined.
abbrev pub at_least : Option ℤ → ℤ → ℤ
at_least none value = value
at_least (some limit) value = if ltb_ℤ value limit then limit else value

-- `_translateTimeline`
unfoldable pub translate_timeline : ℤ → Option ℤ → Timeline → Timeline
unfolding button_disable
translate_timeline value limit t =
    let v = at_least limit (at_most_zero value) in
    button_disable v limit (record t { translate = v })

-- `wrapperWidth - timelineTotalWidth`
abbrev pub limit_of : ℕ → ℕ → ℤ
limit_of wrapper total = sub_ℕ (2 * wrapper) (2 * total)

pub data Direction : Type 0 where
  scroll_left : Direction
  scroll_right : Direction

-- `_updateSlide`; to the left it gives no limit.
unfoldable pub update_slide : ℕ → Direction → Timeline → Timeline
unfolding translate_timeline
update_slide total scroll_right t =
    translate_timeline (get_translate_value t -ℤ pos (2 * t.wrapper_width))
      (some (limit_of t.wrapper_width total)) t
update_slide total scroll_left t =
    translate_timeline (get_translate_value t +ℤ pos (2 * t.wrapper_width)) none t

-- A swipe of the wrapper over a distance in pixels.
unfoldable pub swipe_wrapper : ℕ → Direction → ℕ → Timeline → Timeline
unfolding translate_timeline
swipe_wrapper total scroll_left distance t =
    translate_timeline (pos (2 * distance) +ℤ get_translate_value t)
      (some (limit_of t.wrapper_width total)) t
swipe_wrapper total scroll_right distance t =
    translate_timeline (get_translate_value t -ℤ pos (2 * distance))
      (some (limit_of t.wrapper_width total)) t

-- `_updateTimelinePosition`: the event comes to the middle of the wrapper, as far as the limits allow.
unfoldable pub update_timeline_position : Event → Timeline → Timeline
unfolding translate_timeline
update_timeline_position event t =
    translate_timeline (sub_ℕ t.wrapper_width (2 * event.left))
      (some (limit_of t.wrapper_width t.total_width)) t
