-- ===== src/Timeline/Plugin.antt =====
-- The plugin on an element of the page: `$.fn.horizontalTimeline` and `destroy`. The element keeps its
-- contents, the instance in its data, and the intervals of the instances that have gone.
pub mod Destroyed
use lso_project.Prelude.{
  ℕ, ◌+◌, Bool, false, Option, none, some, List, [], map, if◌then◌else◌, Text,
}
use lso_project.Prelude.Int.{pos}
use lso_project.Timeline.{Settings, Media, Content, no_mouse, Timeline, ◌>>=◌}
use lso_project.Timeline.Cycle
use lso_project.Timeline.Frame.{created_buttons}
use lso_project.Timeline.Life.{init_timeline}

pub record Instance : Type 0 where
  pub original_events_content : List Content
  pub timeline : Timeline

pub record Element : Type 0 where
  pub events_content : List Content
  pub instance_of : Option Instance
  pub left_running : ℕ

-- The window and the page around the element: its device, the width of the wrapper, and the width of
-- a text in it.
pub record Surroundings : Type 0 where
  pub media : Media
  pub wrapper_width : ℕ
  pub measure : Text → ℕ

-- The new instance before `init`, with the dates that `dateExists` finds.
abbrev pub new_timeline : Surroundings → Settings → List Content → Timeline
new_timeline w s cs = record {
  settings = s;
  media = w.media;
  events = [];
  contents = cs;
  date_intervals = none;
  wrapper_width = w.wrapper_width;
  total_width = 0;
  translate = pos 0;
  filling = (0, 1);
  buttons = created_buttons;
  autoplay = record {
    progress = 0;
    is_paused = false;
    shows_play = false;
    clicked = false;
    mouse_event = no_mouse;
    intervals = 0;
  };
  existing_dates = map (λ (c : Content). c.date) cs;
}

-- The call of `autoplay` in `_setup`.
abbrev pub set_up_cycle : Timeline → Option Timeline
set_up_cycle t = if t.settings.autoplay then Cycle.start t else some t

unfoldable pub construct : Surroundings → Settings → List Content → Option Timeline
unfolding init_timeline
construct w s cs = do t ← init_timeline w.measure (new_timeline w s cs); set_up_cycle t

-- The element while an instance is there: the contents are the timeline's, and cs those from before.
abbrev pub with_instance : List Content → Element → Timeline → Element
with_instance cs e t = record e {
  events_content = t.contents;
  instance_of = some (record { original_events_content = cs; timeline = t });
}

-- A call with options: the element gets an instance, unless it has one.
unfoldable pub horizontal_timeline : Surroundings → Settings → Element → Option Element
unfolding construct
horizontal_timeline w s e = elim e.instance_of [
  | some i ↦ some e
  | none ↦ do t ← construct w s e.events_content; some (with_instance e.events_content e t)
]

-- `destroy` returns, or throws where `swipe` of the TouchSwipe plugin is not there: by then the
-- contents are the old ones again, and the instance and its interval still there.
pub data Outcome : Type 0 where
  returned : Element → Outcome
  thrown : Element → Outcome

abbrev pub destroy_cycle : Timeline → Timeline
destroy_cycle t =
    if t.settings.autoplay then record t { autoplay = Cycle.destroy t.autoplay } else t

abbrev pub restored : Instance → Element → Element
restored i e = record e { events_content = i.original_events_content }

unfoldable pub destroy_instance : Bool → Instance → Element → Outcome
unfolding Cycle.destroy
destroy_instance has_swipe i e =
    if has_swipe
    then returned (record (restored i e) {
      instance_of = none;
      left_running = e.left_running + (destroy_cycle i.timeline).autoplay.intervals;
    })
    else thrown (restored i e)

-- The call of the public method: without an instance it throws at once.
unfoldable pub destroy : Bool → Element → Outcome
unfolding destroy_instance
destroy has_swipe e = elim e.instance_of [
  | none ↦ thrown e
  | some i ↦ destroy_instance has_swipe i e
]
