-- ===== src/Timeline/Life.antt =====
-- The life of a timeline: its start, `refresh`, and the public methods that add and remove events.
-- The links and the contents are taken to stand in the same order, with different dates, so that a
-- date names one link and the content of the same number.
pub mod Placed
pub mod Begin
pub mod Again
pub mod Flagged
pub mod Passed
pub mod Removal
pub mod Addition
pub mod Untouched
pub mod Returned
use lso_project.Prelude.{
  ℕ, zero, suc, ◌-◌, Bool, true, false, ◌||◌, Option, none, some, List, [], ◌∷◌, ◌++◌, map, ltb,
  ◌==◌, if◌then◌else◌, length, Text, text_eq,
}
use lso_project.Timeline.{Event, Content, Timeline, ◌>>=◌, find_index, event_flags}
use lso_project.Timeline.Layout.{set_date_position, set_timeline_width, selected_event}
use lso_project.Timeline.Select.{is_selected, add_selected, update_older_events, update_filling}
use lso_project.Timeline.Labels.{
  InsertMethod, append, after, before, insert_after, insert_before, create_date,
}

abbrev pub set_first : List Event → List Event
set_first [] = []
set_first (e ∷ es) = record e { first = true } ∷ es

abbrev pub set_last : List Event → List Event
set_last [] = []
set_last (e ∷ []) = record e { last = true } ∷ []
set_last (e ∷ d ∷ es) = e ∷ set_last (d ∷ es)

abbrev pub set_id_first : List Content → List Content
set_id_first [] = []
set_id_first (c ∷ cs) = record c { id_first = true } ∷ cs

abbrev pub set_id_last : List Content → List Content
set_id_last [] = []
set_id_last (c ∷ []) = record c { id_last = true } ∷ []
set_id_last (c ∷ d ∷ cs) = c ∷ set_id_last (d ∷ cs)

-- `addIdsAndClasses`
unfoldable pub add_ids_and_classes : Timeline → Timeline
add_ids_and_classes t =
    if length t.contents == 1
    then record t { contents = set_id_first t.contents; events = set_first t.events }
    else record t {
      contents = set_id_last (set_id_first t.contents);
      events = set_last (set_first t.events);
    }

-- The layout that the start and `refresh` share: the places, the width and the filling line.
unfoldable pub lay_out : Timeline → Option Timeline
lay_out t = do
  t' ← set_timeline_width (set_date_position t)
  e ← selected_event t'.events
  some (update_filling e t'.total_width t')

abbrev pub select_content : ℕ → List Content → List Content
select_content k [] = []
select_content zero (c ∷ cs) = record c { selected = true } ∷ cs
select_content (suc k) (c ∷ cs) = c ∷ select_content k cs

-- The class `selected` of the links of a date.
abbrev pub select_date : Text → List Event → List Event
select_date d = map λ (e : Event). record e { selected = e.selected || text_eq d e.date }

abbrev pub selected_date : List Content → Option Text
selected_date [] = none
selected_date (c ∷ cs) = if c.selected then some c.date else selected_date cs

abbrev pub older_before : Option ℕ → List Event → List Event
older_before none es = es
older_before (some k) es = update_older_events k es

-- The correct event of the start: the one of the selected content, or the first one.
abbrev pub select_by : Option Text → Timeline → Timeline
select_by (some d) t =
    let es = select_date d t.events in
    record t { events = older_before (find_index (event_flags es)) es }
select_by none t = record t {
  contents = select_content 0 t.contents;
  events = add_selected 0 t.events;
}

unfoldable pub select_event : Timeline → Timeline
select_event t = select_by (selected_date t.contents) t

-- `init`, from the elements in the page to the first layout.
unfoldable pub init_timeline : (Text → ℕ) → Timeline → Option Timeline
init_timeline measure t = do
  es ← create_date measure t.settings.date_display append t.contents t.events
  lay_out (select_event (add_ids_and_classes (record t { events = es })))

-- `refresh`
abbrev pub clear_ids : Timeline → Timeline
clear_ids t = record t {
  contents = map (λ (c : Content). record c { id_first = false; id_last = false }) t.contents;
  events = map (λ (e : Event). record e { first = false; last = false }) t.events;
}

abbrev pub refresh_cycle : Timeline → Option Timeline
refresh_cycle t = if t.settings.autoplay then set_timeline_width t else some t

unfoldable pub refresh : Timeline → Option Timeline
refresh t = do t' ← lay_out (add_ids_and_classes (clear_ids t)); refresh_cycle t'

-- `_mobileResizeFix`: only another width of the window refreshes.
unfoldable pub mobile_resize_fix : ℕ → ℕ → Timeline → Option Timeline
mobile_resize_fix window_width new_width t = if new_width == window_width then some t else refresh t

-- `addEvent`, for the content that the browser makes of the text.
abbrev pub insert_content : InsertMethod → Content → List Content → List Content
insert_content append x cs = cs
insert_content (after d) x cs = insert_after (λ (c : Content). c.date) d x cs
insert_content (before d) x cs = insert_before (λ (c : Content). c.date) d x cs

abbrev pub in_array : Text → List Text → Bool
in_array d [] = false
in_array d (x ∷ xs) = text_eq d x || in_array d xs

unfoldable pub add_event : (Text → ℕ) → InsertMethod → Content → Timeline → Option Timeline
add_event measure method c t = if in_array c.date t.existing_dates then some t else (do
  let cs = insert_content method c t.contents
  es ← create_date measure t.settings.date_display method cs t.events
  refresh (record t {
    existing_dates = t.existing_dates ++ c.date ∷ [];
    contents = cs;
    events = older_before (find_index (event_flags es)) es;
  }))

-- `removeEvent`: if the event is selected, the next one is selected in its place, or the previous
-- one; `existing_dates` stays.
abbrev pub neighbour : ℕ → ℕ → ℕ
neighbour n i = if ltb (suc i) n then suc i else i - 1

abbrev pub without {ℓ} : {A : Type ℓ} → (A → Text) → Text → List A → List A
without date_of d [] = []
without date_of d (x ∷ xs) =
    if text_eq d (date_of x) then without date_of d xs else x ∷ without date_of d xs

abbrev pub without_event : Text → List Event → List Event
without_event = without (λ (e : Event). e.date)

abbrev pub without_content : Text → List Content → List Content
without_content = without (λ (c : Content). c.date)

abbrev pub pass_events : Option ℕ → List Event → List Event
pass_events none es = es
pass_events (some i) es = if is_selected i es then add_selected (neighbour (length es) i) es else es

abbrev pub pass_contents : Option ℕ → List Event → List Content → List Content
pass_contents none es cs = cs
pass_contents (some i) es cs =
    if is_selected i es then select_content (neighbour (length es) i) cs else cs

abbrev pub new_place : Option ℕ → List Event → Option ℕ
new_place none es = find_index (event_flags es)
new_place (some i) es =
    if is_selected i es then some (neighbour (length es) i) else find_index (event_flags es)

abbrev pub find_date : Text → List Event → Option ℕ
find_date d es = find_index (map (λ (e : Event). text_eq d e.date) es)

abbrev pub drop_event : Text → Option ℕ → Timeline → Timeline
drop_event d i t = record t {
  events = without_event d (older_before (new_place i t.events) (pass_events i t.events));
  contents = without_content d (pass_contents i t.events t.contents);
}

unfoldable pub remove_event : Text → Timeline → Option Timeline
remove_event d t =
    if ltb 1 (length t.events) then refresh (drop_event d (find_date d t.events) t) else some t
