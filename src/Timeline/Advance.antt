-- ===== src/Timeline/Advance.antt =====
-- The interval of `autoplay`: the time that passes, and the event that follows.
pub mod Cycling
pub mod Machine
use lso_project.Prelude.{
  ℕ, ◌+◌, ◌*◌, Bool, false, Option, none, some, List, leb, ◌==◌, if◌then◌else◌, length,
}
use lso_project.Timeline.{Media, Event, Timeline, find_index, event_flags, up}
use lso_project.Timeline.Layout.{is_phone}
use lso_project.Timeline.Select.{Step, next, start, show_new_content}

-- What a round of the interval adds to `percentTime * speed`.
abbrev pub increment : Media → ℕ
increment m = if is_phone m then 3 else 1

-- `.find('.selected').index()` among the children of `.events`, of which the first is the filling
-- line; `none` stands for -1.
unfoldable pub current_index : List Event → Option ℕ
current_index es = up (find_index (event_flags es))

abbrev pub is_index : Option ℕ → ℕ → Bool
is_index none n = false
is_index (some i) n = i == n

-- The step at the end of the time: back to the start from the last event, or to the next one.
unfoldable pub next_step : List Event → Step
unfolding current_index
next_step es = if is_index (current_index es) (length es) then start else next

abbrev pub passed : Timeline → ℕ
passed t = t.autoplay.progress + increment t.media

abbrev pub with_progress : ℕ → Timeline → Timeline
with_progress p t = record t { autoplay = record t.autoplay { progress = p } }

-- `interval`, every 10 ms: `percentTime >= 100` is `100 * speed <= progress`.
unfoldable pub interval : ℕ → Timeline → Option Timeline
interval total t =
    if t.autoplay.is_paused
    then some t
    else (let t' = with_progress (passed t) t in
        if leb (100 * t.settings.autoplay_speed) (passed t)
        then show_new_content total (next_step t.events) t'
        else some t')
