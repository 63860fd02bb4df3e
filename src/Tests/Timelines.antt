-- ===== src/Tests/Timelines.antt =====
-- Timeline.antt and its children at a timeline of three events, the first of them selected.
use lso_project.Prelude.{
  ℕ, ◌≡◌, refl, Bool, true, false, none, some, [], ◌∷◌, arith, Text, codes, text_eq,
}
use lso_project.Timeline.{desktop, Event, Content, no_mouse, Timeline}
use lso_project.Prelude.Int.{pos, negsuc}
use lso_project.Timeline.{defaults}
use lso_project.Timeline.Scroll.{translate_timeline, scroll_left, scroll_right}
use lso_project.Timeline.Scroll.Bounds.{InRange, slide, swipe, show, scroll_all, scroll_all-InRange}
use lso_project.Timeline.Select.Shows.{Shows}
use lso_project.Timeline.Select.Steps.{destination}
use lso_project.Timeline.Handlers.{element_in_viewport, Window, Box}
use lso_project.Timeline.Handlers.Arrivals.{key, act, act-Shows}
use lso_project.Timeline.Goto.{GotoData, scroll_of, goto_timeline}
use lso_project.Timeline.Goto.Found.{goto_timeline-Shows}

abbrev pub event : Text → Bool → Bool → Bool → ℕ → Event
event d s f l x = record {
  date = d;
  label = d;
  selected = s;
  older_event = false;
  first = f;
  last = l;
  left = x;
  width = 80;
}

abbrev pub content : Text → Bool → Content
content d s = record {
  date = d;
  custom_display = none;
  selected = s;
  id_first = false;
  id_last = false;
  enter_left = false;
  enter_right = false;
  leave_left = false;
  leave_right = false;
}

abbrev first_event : Event
first_event = event (codes "1990") true true false 0

abbrev pub three : Timeline
three = record {
  settings = defaults;
  media = desktop;
  events =
      first_event
      ∷ event (codes "1991") false false false 200
      ∷ event (codes "1992") false false true 400
      ∷ [];
  contents =
      content (codes "1990") true
      ∷ content (codes "1991") false
      ∷ content (codes "1992") false
      ∷ [];
  date_intervals = some 200;
  wrapper_width = 300;
  total_width = 500;
  translate = pos 0;
  filling = (80, 1000);
  buttons = record {
    prev_inactive = true;
    next_inactive = false;
    left_inactive = true;
    right_inactive = false;
  };
  autoplay = record {
    progress = 0;
    is_paused = false;
    shows_play = false;
    clicked = false;
    mouse_event = no_mouse;
    intervals = 0;
  };
  existing_dates = codes "1990" ∷ codes "1991" ∷ codes "1992" ∷ [];
}

three-InRange : InRange three
three-InRange = omega arith

pub three-Shows : Shows 0 three
unfolding text_eq
three-Shows = record {
  event_at = (refl, (refl, (refl, tt)));
  content_at = (refl, (refl, (refl, tt)));
  older = (refl, (refl, (refl, tt)));
  dates = refl;
  unique = ((refl, refl, (refl, refl, tt)), ((refl, refl, tt), (tt, tt)));
  in_range = three-InRange;
}

scroll_all-InRange_example : InRange (
    scroll_all three.total_width three
      (slide scroll_right ∷ swipe scroll_left 999 ∷ show first_event ∷ []))
scroll_all-InRange_example =
    scroll_all-InRange (slide scroll_right ∷ swipe scroll_left 999 ∷ show first_event ∷ [])
      three.total_width three refl three-InRange

abbrev moved_right : Timeline
moved_right = translate_timeline (negsuc 899) (some (negsuc 399)) three

abbrev almost : Timeline
almost = record three { autoplay = record three.autoplay { progress = 799 } }

almost-Shows : Shows 0 almost
almost-Shows = record {
  event_at = three-Shows.event_at;
  content_at = three-Shows.content_at;
  older = three-Shows.older;
  dates = three-Shows.dates;
  unique = three-Shows.unique;
  in_range = omega arith;
}

abbrev screen : Window
screen = record { page_x = 0; page_y = 500; inner_width = 1200; inner_height = 800 }

abbrev box : Box
box = record { tops = 40 ∷ 700 ∷ []; lefts = 100 ∷ []; box_width = 900; box_height = 400 }

in_sight : element_in_viewport screen box ≡ true
unfolding element_in_viewport
in_sight = refl

act-Shows_example : (t' : Timeline) × (act screen box (key 39) three ≡ some t') × Shows 1 t'
unfolding element_in_viewport destination
act-Shows_example = act-Shows screen box (key 39) 0 three three-Shows (refl, (refl, (refl, tt)))

abbrev to_last : GotoData
to_last = record {
  goto_date = codes "1992";
  scroll_speed = some 900;
  scroll_offset = none;
  scroll_easing = none;
}

goto_timeline-Shows_example :
    (t' : Timeline) × (goto_timeline (codes "#news") (some to_last) three
      ≡ some (some (record { speed = 900; offset = 0; easing = codes "linear" }), t'))
    × Shows 2 t'
unfolding scroll_of text_eq
goto_timeline-Shows_example = goto_timeline-Shows (codes "#news") to_last 2 0 three three-Shows refl
