-- ===== src/Tests/Lives.antt =====
-- Timeline/Labels.antt and Timeline/Life.antt at two contents with full dates.
use lso_project.Prelude.{
  ℕ, ◌*◌, ◌≡◌, refl, Bool, true, false, Option, none, some, List, [], ◌∷◌, ◌++◌, arith, length, All,
  Text, codes, text_eq,
}
use lso_project.Timeline.{
  DateDisplay, desktop, Content, no_mouse, Timeline, find_index, event_flags, content_flags,
}
use lso_project.Prelude.Int.{pos}
use lso_project.Timeline.{defaults}
use lso_project.Timeline.Flags.{IsAt}
use lso_project.Timeline.Select.Classes.{content_dates}
use lso_project.Timeline.Select.Shows.{Unique, Shows}
use lso_project.Timeline.Select.Steps.{firsts}
use lso_project.Timeline.Labels.{label_of}
use lso_project.Timeline.Labels.Dates.{Labelled}
use lso_project.Timeline.Life.{add_ids_and_classes, lay_out, init_timeline, refresh, remove_event}
use lso_project.Timeline.Layout.{set_timeline_width, set_date_position}
use lso_project.Timeline.Select.{update_older_events, update_filling}
use lso_project.Timeline.Life.Begin.{init_timeline-Shows}
use lso_project.Tests.Timelines.{three}

abbrev pub item : Text → Content
item d = record {
  date = d;
  custom_display = none;
  selected = false;
  id_first = false;
  id_last = false;
  enter_left = false;
  enter_right = false;
  leave_left = false;
  leave_right = false;
}

abbrev pub items : List Content
items = item (codes "02/01/1990") ∷ item (codes "23/11/1991T14:30") ∷ []

abbrev page : Timeline
page = record {
  settings = record defaults { date_display = DateDisplay.day_month };
  media = desktop;
  events = [];
  contents = items;
  date_intervals = none;
  wrapper_width = 300;
  total_width = 0;
  translate = pos 0;
  filling = (0, 1);
  buttons = record {
    prev_inactive = true;
    next_inactive = false;
    left_inactive = true;
    right_inactive = false;
  };
  autoplay = record {
    progress = 0;
    is_paused = false;
    shows_play = false;
    clicked = false;
    mouse_event = no_mouse;
    intervals = 0;
  };
  existing_dates = codes "02/01/1990" ∷ codes "23/11/1991T14:30" ∷ [];
}

abbrev pub measure : Text → ℕ
measure s = 8 * length s

label_day :
    label_of DateDisplay.day_month (item (codes "02/01/1990"))
    ≡ some (some (codes "2nd<br>January"))
unfolding label_of
label_day = refl

pub items-Labelled : All (Labelled DateDisplay.day_month) items
unfolding label_of
items-Labelled = ((codes "2nd<br>January", refl), ((codes "23rd<br>November", refl), tt))

pub items-Unique : Unique (content_dates items)
unfolding text_eq
items-Unique = ((refl, refl, tt), (tt, tt))

init_timeline-Shows_example :
    (t' : Timeline) × (init_timeline measure page ≡ some t')
    × Shows 0 t'
    × IsAt 0 (firsts t'.events)
init_timeline-Shows_example =
    init_timeline-Shows measure page refl (omega arith) items-Unique items-Labelled
      (refl, (refl, tt))

abbrev flags : Option Timeline → List Bool
flags none = []
flags (some t) = event_flags t.events ++ content_flags t.contents

remove_selected_event : flags (remove_event (codes "1990") three) ≡ true ∷ false ∷ true ∷ false ∷ []
unfolding remove_event refresh lay_out set_timeline_width set_date_position add_ids_and_classes
    find_index text_eq update_older_events update_filling
remove_selected_event = refl
