-- ===== src/Timeline/Cycle.antt =====
-- The part of `autoplay` that the choice of an event calls: the cycle's start, its restart, and
-- the functions that pause and resume it.
use lso_project.Prelude.{◌+◌, ◌-◌, true, false, Option, some, if◌then◌else◌}
use lso_project.Timeline.{no_mouse, click, hover, Autoplay, Timeline, ◌>>=◌}
use lso_project.Timeline.Layout.{set_timeline_width}

-- `start`: the time begins at 0, unpaused, the width is measured, and one more interval is set.
abbrev pub restarted : Timeline → Timeline
restarted t = record t {
  autoplay = record t.autoplay {
    progress = 0;
    is_paused = false;
    intervals = t.autoplay.intervals + 1;
  };
}

unfoldable pub start : Timeline → Option Timeline
start t = do t' ← set_timeline_width t; some (restarted t')

-- `clearInterval(tick)`
abbrev pub clear_interval : Autoplay → Autoplay
clear_interval a = record a { intervals = a.intervals - 1 }

abbrev pub stopped : Timeline → Timeline
stopped t = record t { autoplay = clear_interval t.autoplay }

-- `moved`: after another event was chosen the cycle begins anew, unless the user has paused it.
unfoldable pub moved : Timeline → Option Timeline
unfolding start
moved t = if t.autoplay.clicked then some t else start (stopped t)

-- `pause` and `resume`
abbrev pub pause : Autoplay → Autoplay
pause a = record a { is_paused = true }

abbrev pub resume : Autoplay → Autoplay
resume a = record a { is_paused = false }

-- The events for which `changeButtons` is installed.
pub data ButtonEvent : Type 0 where
  click_pause : ButtonEvent
  click_play : ButtonEvent
  mouse_enter : ButtonEvent
  mouse_leave : ButtonEvent

-- `changeButtons`
unfoldable pub change_buttons : ButtonEvent → Autoplay → Autoplay
change_buttons click_pause a =
    pause (record a { clicked = true; mouse_event = click; shows_play = true })
change_buttons click_play a =
    resume (record a { clicked = false; mouse_event = no_mouse; shows_play = false })
change_buttons mouse_enter a =
    if a.clicked then a else pause (record a { mouse_event = hover; shows_play = true })
change_buttons mouse_leave a =
    if a.clicked then a else resume (record a { mouse_event = no_mouse; shows_play = false })

-- `destroy` of the cycle.
unfoldable pub destroy : Autoplay → Autoplay
destroy a = clear_interval a
