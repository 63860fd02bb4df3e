-- ===== src/Timeline/Select/Clicks.antt =====
-- A click on a date and a link to one. A link spares the event that is already selected; a click
-- does not, and leaves no content selected then.
use lso_project.Prelude.{
  ℕ, ◌*◌, ◌≤◌, ◌<◌, ◌≡◌, refl, sym, ap, ◌∙◌, ◌≢◌, Bool, false, some, List, [], ◌∷◌, arith, length,
  get_elem?,
}
use lso_project.Timeline.{Event, Timeline, ◌>>=◌, event_flags, content_flags}
use lso_project.Prelude.Int.{sub_ℕ}
use lso_project.Timeline.Flags.{AllFalse, IsAt, IsBelow, toggled, toggled-IsAt, toggled_same}
use lso_project.Timeline.Scroll.{update_timeline_position}
use lso_project.Timeline.Scroll.Bounds.{InRange, translate_timeline-InRange}
use lso_project.Timeline.Layout.{set_timeline_width}
use lso_project.Timeline.Layout.Spacing.{set_timeline_width-InRange}
use lso_project.Timeline.Select.{
  add_selected, remove_all, update_older_events, update_filling, targets, update_visible_content,
  Step, next, prev, start, has_next, has_content, show_new_content, choose_link, click_shown,
  click_end, click_event,
}
use lso_project.Timeline.Select.Classes.{
  older_flags, event_dates, content_dates, IsAt-single, event_flags-remove_all,
  update_older_events_lem, event_dates-add_selected, event_dates-remove_all,
}
use lso_project.Timeline.Select.Shows.{
  Shows, get_elem?-of_lt, targets-IsAt, selected_event-IsAt, last?-IsAt,
}
use lso_project.Timeline.Layout.Spacing.{set_timeline_width-InRange}
use lso_project.Timeline.Select.Steps.{lt_length, show_new_content_stays}
use lso_project.Timeline.Select.Moves.{
  anything-AllFalse, update_visible_content_lem, length-targets,
}

-- The classes that a click gives the links, whatever they had before.
unfoldable pub clicked_events : ℕ → List Event → List Event
clicked_events k es = update_older_events k (add_selected k (remove_all es))

clicked_events_lem :
    (j : ℕ) (es : List Event)
    → j < length es
    → IsAt j (event_flags (clicked_events j es))
      × (event_dates (clicked_events j es) ≡ event_dates es)
      × IsBelow j (older_flags (clicked_events j es))
unfolding clicked_events
clicked_events_lem j es lt =
    let at : IsAt j (event_flags (add_selected j (remove_all es))) =
      rw (event_flags-remove_all j es) (IsAt-single j es lt) in
    let (p, q, r) = update_older_events_lem j (add_selected j (remove_all es)) at in
    (rw p at, q ∙ event_dates-add_selected j (remove_all es) ∙ event_dates-remove_all es, r)

-- A timeline after a choice of event j: its links show it, and its contents are toggled.
pub record Chosen (j : ℕ) (e : Event) (t t' : Timeline) : Type 0 where
  pub event_at : IsAt j (event_flags t'.events)
  pub content_at :
      content_flags t'.contents ≡ toggled (content_flags t.contents) (targets e.date t.contents)
  pub older : IsBelow j (older_flags t'.events)
  pub dates : content_dates t'.contents ≡ content_dates t.contents
  pub event_dates_kept : event_dates t'.events ≡ event_dates t.events
  pub in_range : InRange t'

-- The contents and the translation, once the links have their classes.
pub finish :
    (j : ℕ) (e : Event) (t u : Timeline)
    → j < length t.events
    → u.events ≡ clicked_events j t.events
    → u.contents ≡ t.contents
    → u.wrapper_width ≤ u.total_width
    → (t' : Timeline) × (update_visible_content e.date u ≡ some t')
      × Chosen j e t (update_timeline_position e t')
unfolding update_timeline_position
finish j e t u lt es cs w =
    let (at, ds, below) = clicked_events_lem j t.events lt in
    let (t', p, es', fs, cd, w') = update_visible_content_lem j e.date u (rw es at) w in
    (
      t',
      p,
      record {
        event_at = rw (es' ∙ es) at;
        content_at = fs ∙ ap (λ xs. toggled (content_flags xs) (targets e.date xs)) cs;
        older = rw (es' ∙ es) below;
        dates = cd ∙ ap content_dates cs;
        event_dates_kept = ap event_dates (es' ∙ es) ∙ ds;
        in_range = translate_timeline-InRange (sub_ℕ t'.wrapper_width (2 * e.left)) t' w';
      },
    )

click_event-Chosen :
    (j k : ℕ) (e : Event) (t : Timeline)
    → Shows k t
    → get_elem? t.events j ≡ some e
    → j < length t.events
    → (t' : Timeline) × (click_event j t ≡ some t') × Chosen j e t t'
unfolding click_event clicked_events
click_event-Chosen j k e t v h lt =
    let (at, _, _) = clicked_events_lem j t.events lt in
    let t0 = record t { events = clicked_events j t.events } in
    let (s, p) = selected_event-IsAt j t0.events at in
    let (l, q) = last?-IsAt j t0.events at in
    let (t1, r, range, _, es, cs) = set_timeline_width-InRange t0 s l p q in
    let (t2, m, c) = finish j e t (update_filling e t1.total_width t1) lt es cs range.wide in
    (
      update_timeline_position e t2,
      ap (λ o. o >>= λ e'. set_timeline_width (choose_link j t) >>= click_shown e') h
          ∙ ap (λ o. o >>= click_shown e) r
          ∙ ap (λ o. o >>= click_end e) m,
      c,
    )

-- Toggled towards another event the contents show it.
pub Chosen-Shows :
    {j k : ℕ} {e : Event} {t t' : Timeline}
    → Shows k t
    → get_elem? t.events j ≡ some e
    → j ≢ k
    → Chosen j e t t'
    → Shows j t'
Chosen-Shows {j} {k} {e} {t} v h ne c = record {
  event_at = c.event_at;
  content_at = rw c.content_at (
      toggled-IsAt j k (content_flags t.contents) (targets e.date t.contents) v.content_at
        (targets-IsAt j e v h) (length-targets e.date t.contents) ne);
  older = c.older;
  dates = c.dates ∙ v.dates ∙ sym c.event_dates_kept;
  unique = rw c.event_dates_kept v.unique;
  in_range = c.in_range;
}

-- On a timeline that shows event k, a click on the date of another event j succeeds and leads to a
-- timeline that shows event j.
pub click_event-Shows :
    (j k : ℕ) (t : Timeline)
    → Shows k t
    → j < length t.events
    → j ≢ k
    → (t' : Timeline) × (click_event j t ≡ some t') × Shows j t'
click_event-Shows j k t v lt ne =
    let (e, h) = get_elem?-of_lt t.events j lt in
    let (t', p, c) = click_event-Chosen j k e t v h lt in (t', p, Chosen-Shows v h ne c)

has_content-AllFalse : (s : Step) (bs : List Bool) → AllFalse bs → has_content s bs ≡ false
unfolding has_content has_next
has_content-AllFalse next [] h = refl
has_content-AllFalse next (b ∷ []) h = refl
has_content-AllFalse next (b ∷ c ∷ bs) h = ground (arith, has_content-AllFalse next (c ∷ bs) h.1)
has_content-AllFalse prev [] h = refl
has_content-AllFalse prev (b ∷ bs) h = anything-AllFalse bs h.1
has_content-AllFalse start [] h = refl
has_content-AllFalse start (b ∷ bs) h = anything-AllFalse bs h.1

-- On a timeline that shows event k, a click on the date of k, which is already selected, leaves no
-- content selected, and from then on no step changes anything, be it from the buttons, the keys,
-- the wheel or a swipe.
pub click_event-same :
    (k : ℕ) (t : Timeline)
    → Shows k t
    → (t' : Timeline) × (click_event k t ≡ some t')
      × IsAt k (event_flags t'.events)
      × AllFalse (content_flags t'.contents)
      × ((total : ℕ) (s : Step) → show_new_content total s t' ≡ some t')
click_event-same k t v =
    let (e, h) = get_elem?-of_lt t.events k (lt_length t v) in
    let (t', p, c) = click_event-Chosen k k e t v h (lt_length t v) in
    let off : AllFalse (content_flags t'.contents) = rw c.content_at (
      toggled_same k (content_flags t.contents) (targets e.date t.contents) v.content_at
        (targets-IsAt k e v h)) in
    (
      t',
      p,
      c.event_at,
      off,
      λ total s.
          show_new_content_stays total s t'
            (has_content-AllFalse s (content_flags t'.contents) off),
    )
