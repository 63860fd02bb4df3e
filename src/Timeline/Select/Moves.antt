-- ===== src/Timeline/Select/Moves.antt =====
-- Where the selection goes: by the buttons to the neighbour, by a click or a link to the event.
use mathlib.Core.Path.{subst}
use lso_project.Prelude.{
  ℕ, zero, suc, ◌*◌, ◌≤◌, ◌<◌, ◌≡◌, refl, sym, ap, ◌∙◌, ◌≢◌, Bool, true, false, some, List, [], ◌∷◌,
  map, arith, ltb, length, get_elem?, length-map, Text,
}
use lso_project.Timeline.{Event, Content, Timeline, find_index, event_flags, content_flags}
use lso_project.Prelude.Int.{sub_ℕ}
use lso_project.Timeline.Flags.{AllFalse, IsAt, toggled, toggled-IsAt}
use lso_project.Timeline.Scroll.{update_timeline_position}
use lso_project.Timeline.Scroll.Bounds.{translate_timeline-InRange}
use lso_project.Timeline.Select.{
  add_selected, remove_selected, update_older_events, update_filling, show_content, targets, after,
  update_visible_content, has_next, has_prev, anything, settle, show_event,
}
use lso_project.Timeline.Select.Classes.{
  event_dates, content_dates, single, IsAt-single, length-single, event_flags-reselect,
  update_older_events_lem, event_dates-add_selected, event_dates-remove_selected,
  content_flags-show,
}
use lso_project.Timeline.Select.Shows.{Unique, Shows, targets-IsAt}
use lso_project.Timeline.Select.Notice.{notify_autoplay-Noticed}

-- The last part of a choice brings a timeline with the classes in place to show the event.
settle-Shows :
    (j : ℕ) (e : Event) (total : ℕ) (t : Timeline)
    → IsAt j (event_flags t.events)
    → IsAt j (content_flags t.contents)
    → content_dates t.contents ≡ event_dates t.events
    → Unique (event_dates t.events)
    → t.wrapper_width ≤ t.total_width
    → Shows j (settle j e total t)
unfolding update_filling update_timeline_position
settle-Shows j e total t h c d u w =
    let (p, q, r) = update_older_events_lem j t.events h in
    record {
      event_at = rw p h;
      content_at = c;
      older = r;
      dates = d ∙ sym q;
      unique = rw q u;
      in_range =
          translate_timeline-InRange (sub_ℕ t.wrapper_width (2 * e.left))
            (record (update_filling e total t) { events = update_older_events j t.events }) w;
    }

pub has_next-IsAt : (k : ℕ) (bs : List Bool) → IsAt k bs → has_next bs ≡ ltb (suc k) (length bs)
unfolding has_next
has_next-IsAt k [] h = absurd h
has_next-IsAt zero (b ∷ []) h = refl
has_next-IsAt (suc k) (b ∷ []) h = absurd h.1
has_next-IsAt zero (b ∷ c ∷ bs) h = ground arith
has_next-IsAt (suc k) (b ∷ c ∷ bs) h = ground (arith, has_next-IsAt k (c ∷ bs) h.1)

anything-IsAt : (k : ℕ) (bs : List Bool) → IsAt k bs → anything bs ≡ true
anything-IsAt k [] h = absurd h
anything-IsAt zero (b ∷ bs) h = ground arith
anything-IsAt (suc k) (b ∷ bs) h = ground (arith, anything-IsAt k bs h.1)

pub anything-AllFalse : (bs : List Bool) → AllFalse bs → anything bs ≡ false
anything-AllFalse [] h = refl
anything-AllFalse (b ∷ bs) h = ground (arith, anything-AllFalse bs h.1)

pub has_prev-IsAt : (k : ℕ) (bs : List Bool) → IsAt k bs → has_prev bs ≡ ltb 0 k
has_prev-IsAt k [] h = absurd h
has_prev-IsAt zero (b ∷ bs) h = ground (arith, anything-AllFalse bs h.1)
has_prev-IsAt (suc k) (b ∷ bs) h = ground (arith, anything-IsAt k bs h.1)

-- What `_updateVisibleContent` does where some event is selected and the timeline is wide enough.
pub update_visible_content_lem :
    (k : ℕ) (date : Text) (t : Timeline)
    → IsAt k (event_flags t.events)
    → t.wrapper_width ≤ t.total_width
    → (t' : Timeline) × (update_visible_content date t ≡ some t')
      × (t'.events ≡ t.events)
      × (content_flags t'.contents ≡ toggled (content_flags t.contents) (targets date t.contents))
      × (content_dates t'.contents ≡ content_dates t.contents)
      × (t'.wrapper_width ≤ t'.total_width)
unfolding update_visible_content
update_visible_content_lem k date t h w =
    let right =
      after (find_index (targets date t.contents)) (find_index (content_flags t.contents)) in
    let (p, q) = content_flags-show date right t.contents in
    let (t', r, n) =
      notify_autoplay-Noticed k (record t { contents = map (show_content date right) t.contents }) h
        w in
    (t', r, n.events, ap content_flags n.contents ∙ p, ap content_dates n.contents ∙ q, n.wide)

pub length-targets :
    (d : Text) (cs : List Content) → length (targets d cs) ≡ length (content_flags cs)
length-targets d cs = length-map _ cs ∙ sym (length-map _ cs)

pub show_event-Shows :
    (total j k : ℕ) (e : Event) (t : Timeline)
    → Shows k t
    → get_elem? t.events j ≡ some e
    → j ≢ k
    → j < length t.events
    → (t' : Timeline) × (show_event total j t ≡ some t') × Shows j t'
unfolding show_event
show_event-Shows total j k e t v h ne lt =
    let (t', p, es, cs, ds, w) = update_visible_content_lem k e.date t v.event_at v.in_range.wide in
    let moved_to = record t' {
      events = remove_selected (event_flags t'.events) (add_selected j t'.events);
    } in
    let dates =
      event_dates-remove_selected (event_flags t'.events) (add_selected j t'.events)
      ∙ event_dates-add_selected j t'.events
      ∙ ap event_dates es in
    (
      settle j e total moved_to,
      rw (h, p),
      settle-Shows j e total moved_to
          (subst
            (λ (xs : List Event).
              IsAt j (event_flags (remove_selected (event_flags xs) (add_selected j xs))))
            (sym es)
            (rw (event_flags-reselect j t.events) (
              toggled-IsAt j k (event_flags t.events) (single j t.events) v.event_at
                (IsAt-single j t.events lt) (length-single j t.events) ne)))
          (rw cs (
            toggled-IsAt j k (content_flags t.contents) (targets e.date t.contents) v.content_at
              (targets-IsAt j e v h) (length-targets e.date t.contents) ne))
          (ds ∙ v.dates ∙ sym dates) (rw dates v.unique) w,
    )
