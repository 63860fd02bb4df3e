-- ===== src/Timeline/Goto.antt =====
-- `gotoTimeline`: a link from elsewhere in the page, whose data name a date and how to scroll to it.
pub mod Found
use lso_project.Prelude.{
  ℕ, Bool, Option, none, some, List, map, if◌then◌else◌, Text, codes, text_eq,
}
use lso_project.Timeline.{Event, Timeline, ◌>>=◌, find_index}
use lso_project.Timeline.Select.{translate_goto_timeline}

-- The object of `data-gototimeline`; a key that it does not have is `none`.
pub record GotoData : Type 0 where
  pub goto_date : Text
  pub scroll_speed : Option ℕ
  pub scroll_offset : Option ℕ
  pub scroll_easing : Option Text

-- How the document scrolls, where it has to.
pub record Scroll : Type 0 where
  pub speed : ℕ
  pub offset : ℕ
  pub easing : Text

abbrev pub or_default {ℓ} : {A : Type ℓ} → A → Option A → A
or_default a none = a
or_default a (some b) = b

unfoldable pub scroll_of : GotoData → Scroll
scroll_of d = record {
  speed = or_default 500 d.scroll_speed;
  offset = or_default 0 d.scroll_offset;
  easing = or_default (codes "linear") d.scroll_easing;
}

-- A link whose `href` is "#" lies in the timeline itself, and nothing scrolls.
abbrev pub scroll_to : Text → GotoData → Option Scroll
scroll_to href d = if text_eq href (codes "#") then none else some (scroll_of d)

abbrev pub date_flags : Text → List Event → List Bool
date_flags d = map (λ (e : Event). text_eq d e.date)

-- `gotoTimeline`: it throws without the attribute, and where no event has the date.
unfoldable pub goto_timeline : Text → Option GotoData → Timeline → Option (Option Scroll × Timeline)
goto_timeline href none t = none
goto_timeline href (some d) t = do
  k ← find_index (date_flags d.goto_date t.events)
  t' ← translate_goto_timeline k t
  some (scroll_to href d, t')
