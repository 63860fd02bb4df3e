-- ===== src/Timeline/Goto/Found.antt =====
-- A link whose date an event has.
use lso_project.Prelude.{
  ℕ, ◌<◌, ◌≡◌, ap, ◌∙◌, none, some, arith, if◌then◌else◌, length, get_elem?, length-map, Text,
  codes, text_eq,
}
use lso_project.Timeline.{Event, Timeline, ◌>>=◌}
use lso_project.Timeline.Flags.{find_index-IsAt, lt_of_IsAt}
use lso_project.Timeline.Select.{translate_goto_timeline}
use lso_project.Timeline.Select.Classes.{event_dates}
use lso_project.Timeline.Select.Shows.{Shows, date_flags-IsAt}
use lso_project.Timeline.Select.Links.{translate_goto_timeline-Shows}
use lso_project.Timeline.Goto.{GotoData, scroll_of, scroll_to, date_flags, goto_timeline}

-- On a timeline that shows an event, a link that names the date of event j succeeds: the timeline
-- shows event j, and the document scrolls as the link says, with the defaults for what it leaves
-- out, unless the link lies in the timeline.
pub goto_timeline-Shows :
    (href : Text) (d : GotoData) (j k : ℕ) (t : Timeline)
    → Shows k t
    → get_elem? (event_dates t.events) j ≡ some d.goto_date
    → (t' : Timeline) × (goto_timeline href (some d) t
        ≡ some ((if text_eq href (codes "#") then none else some (scroll_of d)), t'))
      × Shows j t'
unfolding goto_timeline
goto_timeline-Shows href d j k t v h =
    let at = date_flags-IsAt d.goto_date j t.events v.unique h in
    let lt : j < length t.events = omega (
      arith,
      lt_of_IsAt j (date_flags d.goto_date t.events) at,
      length-map (λ (e : Event). text_eq d.goto_date e.date) t.events,
    ) in
    let (t', p, w) = translate_goto_timeline-Shows j k t v lt in
    (
      t',
      ap (λ o. o >>= λ k. translate_goto_timeline k t >>= λ t'. some (scroll_to href d, t'))
            (find_index-IsAt j (date_flags d.goto_date t.events) at)
          ∙ ap (λ o. o >>= λ t'. some (scroll_to href d, t')) p,
      w,
    )
