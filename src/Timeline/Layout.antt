-- ===== src/Timeline/Layout.antt =====
-- Where the events stand: the intervals between the dates, their places, and the width of all.
pub mod Spacing
use lso_project.Prelude.{
  ℕ, ◌+◌, Bool, true, false, ◌||◌, Option, none, some, List, [], ◌∷◌, ltb, if◌then◌else◌, last?,
}
use lso_project.Timeline.{
  Settings, Media, tiny_mobile, mobile, small_tablet, tablet, desktop, other, Event, Timeline,
  ◌>>=◌,
}
use lso_project.Timeline.Scroll.{update_timeline_position}

-- `if (dateIntervals < minimumInterval) dateIntervals = minimumInterval;`
abbrev pub at_least_minimum : ℕ → ℕ
at_least_minimum n = if ltb n 120 then 120 else n

-- `checkMQ == 'tinyMobile' || checkMQ == 'mobile'`
abbrev pub is_phone : Media → Bool
is_phone tiny_mobile = true
is_phone mobile = true
is_phone _ = false

-- The choice by device; on a device that is none of these the variable keeps its value.
abbrev pub interval_for : Settings → Media → Option ℕ → Option ℕ
interval_for s tiny_mobile old = some s.mobile_date_intervals
interval_for s mobile old = some s.mobile_date_intervals
interval_for s small_tablet old = some s.tablet_date_intervals
interval_for s tablet old = some s.tablet_date_intervals
interval_for s desktop old = some s.desktop_date_intervals
interval_for s other old = old

abbrev pub clamp_interval : Option ℕ → Option ℕ
clamp_interval none = none
clamp_interval (some n) = some (at_least_minimum n)

-- `_setDateIntervals`
unfoldable pub set_date_intervals : Timeline → Timeline
set_date_intervals t = record t {
  date_intervals = clamp_interval (interval_for t.settings t.media t.date_intervals);
}

-- The loop of `_setDatePosition`: each event one interval behind `distprev`.
unfoldable pub place_from : ℕ → ℕ → List Event → List Event
place_from interval distprev [] = []
place_from interval distprev (e ∷ es) =
    record e { left = distprev + interval } ∷ place_from interval (distprev + interval) es

-- With `startingNum` 1 the first event stands at 0.
unfoldable pub place : Bool → ℕ → List Event → List Event
unfolding place_from
place minimal interval [] = []
place true interval (e ∷ es) = record e { left = 0 } ∷ place_from interval 0 es
place false interval (e ∷ es) = place_from interval 0 (e ∷ es)

-- Where the interval is undefined the loop sets "NaNpx", which the browser drops.
abbrev pub zero_first : List Event → List Event
zero_first [] = []
zero_first (e ∷ es) = record e { left = 0 } ∷ es

abbrev pub place_by : Bool → Option ℕ → List Event → List Event
place_by minimal (some interval) es = place minimal interval es
place_by true none es = zero_first es
place_by false none es = es

-- `_setDatePosition`
unfoldable pub set_date_position : Timeline → Timeline
unfolding set_date_intervals place
set_date_position t =
    let t' = set_date_intervals t in
    record t' {
      events =
          place_by (t.settings.minimal_first_date_interval || is_phone t.media) t'.date_intervals
            t.events;
    }

abbrev pub selected_event : List Event → Option Event
selected_event [] = none
selected_event (e ∷ es) = if e.selected then some e else selected_event es

abbrev pub total_of : ℕ → Event → ℕ
total_of wrapper e = if ltb (e.left + 100) wrapper then wrapper else e.left + 100

-- `_setTimelineWidth`: it throws where there is no event, or none is selected.
unfoldable pub set_timeline_width : Timeline → Option Timeline
unfolding update_timeline_position
set_timeline_width t = do
  e ← last? t.events
  selected ← selected_event t.events
  some (update_timeline_position selected (record t { total_width = total_of t.wrapper_width e }))
