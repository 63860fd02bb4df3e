-- ===== src/Timeline/Select.antt =====
-- The choice of an event: by the buttons, by a click on its date, and by a link to it. A link `a`
-- stands for its place in the list; jQuery's empty set is `none`.
pub mod Classes
pub mod Shows
pub mod Notice
pub mod Moves
pub mod Steps
pub mod Clicks
pub mod Links
use lso_project.Prelude.{
  ℕ, zero, suc, ◌+◌, ◌-◌, ◌*◌, Bool, true, false, not, ◌&&◌, ◌||◌, Option, none, some, List, [],
  ◌∷◌, map, ltb, if◌then◌else◌, length, get_elem?, Text, text_eq,
}
use lso_project.Timeline.{
  Event, Content, no_mouse, Timeline, ◌>>=◌, find_index, event_flags, content_flags,
}
use lso_project.Timeline.Scroll.{update_timeline_position}
use lso_project.Timeline.Layout.{set_timeline_width}
use lso_project.Timeline.Cycle.{moved}

-- `addClass('selected')`
abbrev pub add_selected : ℕ → List Event → List Event
add_selected k [] = []
add_selected zero (e ∷ es) = record e { selected = true } ∷ es
add_selected (suc k) (e ∷ es) = e ∷ add_selected k es

abbrev pub is_selected : ℕ → List Event → Bool
is_selected k [] = false
is_selected zero (e ∷ es) = e.selected
is_selected (suc k) (e ∷ es) = is_selected k es

-- `removeClass('selected')` on the elements that had the class before.
abbrev pub remove_selected : List Bool → List Event → List Event
remove_selected [] es = es
remove_selected (b ∷ bs) [] = []
remove_selected (b ∷ bs) (e ∷ es) =
    record e { selected = if b then false else e.selected } ∷ remove_selected bs es

-- `find('a').removeClass('selected')`
abbrev pub remove_all : List Event → List Event
remove_all = map (λ (e : Event). record e { selected = false })

-- `_updateOlderEvents`: all links before the event are older, none after it, nor itself if selected.
unfoldable pub update_older_events : ℕ → List Event → List Event
update_older_events k [] = []
update_older_events zero (e ∷ es) =
    record e { older_event = if e.selected then false else e.older_event }
    ∷ map (λ (d : Event). record d { older_event = false }) es
update_older_events (suc k) (e ∷ es) = record e { older_event = true } ∷ update_older_events k es

-- `_updateFilling`: the middle of the event, as a part of the width.
unfoldable pub update_filling : Event → ℕ → Timeline → Timeline
update_filling e total t = record t { filling = (2 * e.left + e.width, 2 * total) }

-- `selectedContent.index() > visibleContent.index()`, where the index of no element is -1.
abbrev pub after : Option ℕ → Option ℕ → Bool
after none j = false
after (some i) none = true
after (some i) (some j) = ltb j i

-- `_updateVisibleContent` at one content: the classes of the chosen content and of the visible one.
unfoldable pub show_content : Text → Bool → Content → Content
show_content date right c =
    let target = text_eq date c.date in
    record c {
      selected = if c.selected then false else target;
      enter_right = c.enter_right || (target && right);
      enter_left = c.enter_left || (target && not right);
      leave_left = c.leave_left || (c.selected && right);
      leave_right = c.leave_right || (c.selected && not right);
    }

abbrev pub targets : Text → List Content → List Bool
targets date = map (λ (c : Content). text_eq date c.date)

abbrev pub notify_autoplay : Timeline → Option Timeline
notify_autoplay t = elim t.autoplay.mouse_event [
  | no_mouse ↦ if t.settings.autoplay then moved t else some t
  | _ ↦ some t
]

-- `_updateVisibleContent`, for the date of the chosen event.
unfoldable pub update_visible_content : Text → Timeline → Option Timeline
unfolding show_content find_index moved
update_visible_content date t =
    let right =
      after (find_index (targets date t.contents)) (find_index (content_flags t.contents)) in
    notify_autoplay (record t { contents = map (show_content date right) t.contents })

-- `animationend`: the class of the movement goes.
unfoldable pub animation_end : Content → Content
animation_end c = record c {
  enter_left = false;
  enter_right = false;
  leave_left = false;
  leave_right = false;
}

pub data Step : Type 0 where
  next : Step
  prev : Step
  start : Step

-- `visibleContent.next()` or `.prev()` is not empty.
unfoldable pub has_next : List Bool → Bool
has_next [] = false
has_next (b ∷ []) = false
has_next (b ∷ c ∷ bs) = b || has_next (c ∷ bs)

abbrev pub anything : List Bool → Bool
anything [] = false
anything (b ∷ bs) = b || anything bs

abbrev pub has_prev : List Bool → Bool
has_prev [] = false
has_prev (b ∷ bs) = anything bs

unfoldable pub has_content : Step → List Bool → Bool
unfolding has_next
has_content next bs = has_next bs
has_content prev bs = has_prev bs
has_content start bs = has_prev bs

-- `newEvent`: the first event, or the link before or behind the selected one.
unfoldable pub new_event : Step → List Event → Option ℕ
unfolding find_index
new_event start es = find_index (map (λ (e : Event). e.first) es)
new_event next es = do
  k ← find_index (event_flags es)
  if ltb (suc k) (length es) then some (suc k) else none
new_event prev es = do k ← find_index (event_flags es); if ltb 0 k then some (k - 1) else none

-- The rest of a choice, once the classes of the links are set: the filling line, the older events
-- and the translation.
abbrev pub settle : ℕ → Event → ℕ → Timeline → Timeline
settle k e total t =
    let t' = update_filling e total t in
    update_timeline_position e (record t' { events = update_older_events k t'.events })

-- `_showNewContent` where a content exists. Without a link for it the filling line throws.
unfoldable pub show_event : ℕ → ℕ → Timeline → Option Timeline
unfolding update_visible_content update_filling update_older_events update_timeline_position
show_event total k t = do
  e ← get_elem? t.events k
  t' ← update_visible_content e.date t
  some (
      settle k e total
        (record t' { events = remove_selected (event_flags t'.events) (add_selected k t'.events) }))

-- `_showNewContent`
unfoldable pub show_new_content : ℕ → Step → Timeline → Option Timeline
unfolding has_content new_event show_event
show_new_content total step t =
    if has_content step (content_flags t.contents)
    then (do k ← new_event step t.events; show_event total k t)
    else some t

-- A click on a date, in the handler's order: the classes, the width, the filling line, the content
-- and the translation.
abbrev pub click_end : Event → Timeline → Option Timeline
click_end e t = some (update_timeline_position e t)

abbrev pub click_shown : Event → Timeline → Option Timeline
click_shown e t = do
  t' ← update_visible_content e.date (update_filling e t.total_width t)
  click_end e t'

abbrev pub choose_link : ℕ → Timeline → Timeline
choose_link k t = record t { events = update_older_events k (add_selected k (remove_all t.events)) }

unfoldable pub click_event : ℕ → Timeline → Option Timeline
unfolding update_older_events set_timeline_width update_filling update_visible_content
    update_timeline_position
click_event k t = do
  e ← get_elem? t.events k
  t' ← set_timeline_width (choose_link k t)
  click_shown e t'

-- `translate_gotoTimeline`: a link to the event that is selected only scrolls.
unfoldable pub translate_goto_timeline : ℕ → Timeline → Option Timeline
unfolding update_older_events update_filling update_visible_content update_timeline_position
translate_goto_timeline k t = do
  e ← get_elem? t.events k
  if e.selected then click_end e t else click_shown e (choose_link k t)
