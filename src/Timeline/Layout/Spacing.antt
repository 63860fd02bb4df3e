-- ===== src/Timeline/Layout/Spacing.antt =====
-- The places of the events in closed form, and what the width guarantees.
use lso_project.Prelude.{
  ℕ, zero, suc, ◌+◌, ◌*◌, ◌≤◌, ◌<◌, ◌≡◌, refl, ap, ◌∙◌, Bool, true, false, ◌||◌, some, List, [],
  ◌∷◌, map, arith, if◌then◌else◌, length, get_elem?, last?,
}
use lso_project.Timeline.{Event, Timeline}
use lso_project.Prelude.Int.{sub_ℕ}
use lso_project.Timeline.Scroll.{update_timeline_position, translate_timeline}
use lso_project.Timeline.Scroll.Bounds.{InRange, translate_timeline-InRange}
use lso_project.Timeline.Layout.{
  at_least_minimum, is_phone, interval_for, set_date_intervals, place_from, place,
  set_date_position, selected_event, total_of, set_timeline_width,
}

abbrev pub lefts : List Event → List ℕ
lefts = map (λ (e : Event). e.left)

place_from-lefts :
    (interval distprev i : ℕ) (es : List Event)
    → i < length es
    → get_elem? (lefts (place_from interval distprev es)) i ≡ some (distprev + suc i * interval)
unfolding place_from
place_from-lefts interval distprev i [] h = absurd (omega arith)
place_from-lefts interval distprev zero (e ∷ es) h = ap some (omega arith)
place_from-lefts interval distprev (suc i) (e ∷ es) h =
    place_from-lefts interval (distprev + interval) i es (omega arith) ∙ ap some (omega arith)

place-lefts :
    (minimal : Bool) (interval i : ℕ) (es : List Event)
    → i < length es
    → get_elem? (lefts (place minimal interval es)) i
      ≡ some ((if minimal then i else suc i) * interval)
unfolding place
place-lefts minimal interval i [] h = absurd (omega arith)
place-lefts true interval zero (e ∷ es) h = ap some (omega arith)
place-lefts true interval (suc i) (e ∷ es) h =
    place_from-lefts interval 0 i es (omega arith) ∙ ap some (omega arith)
place-lefts false interval i (e ∷ es) h =
    place_from-lefts interval 0 i (e ∷ es) h ∙ ap some (omega arith)

-- Where an interval n is known for the device, event number i stands at i intervals, or at i + 1
-- where neither the setting nor a phone puts the first one at 0; the interval is n, but at least
-- 120.
pub set_date_position-left :
    (t : Timeline) (i n : ℕ)
    → i < length t.events
    → interval_for t.settings t.media t.date_intervals ≡ some n
    → (get_elem? (lefts (set_date_position t).events) i
        ≡ some (
            (if t.settings.minimal_first_date_interval || is_phone t.media then i else suc i)
            * at_least_minimum n))
      × (120 ≤ at_least_minimum n)
      × (n ≤ at_least_minimum n)
unfolding set_date_position set_date_intervals
set_date_position-left t i n h e = (
  rw e (
      place-lefts (t.settings.minimal_first_date_interval || is_phone t.media) (at_least_minimum n)
        i t.events h),
  ground arith,
  ground arith,
)

-- Where there is a last event and one is selected the width is set without an error, whatever the
-- places were, to at least the wrapper's width and the last event's place and 100 pixels; the
-- translation is then in range, and the events and the contents are as before.
pub set_timeline_width-InRange :
    (t : Timeline) (e last : Event)
    → selected_event t.events ≡ some e
    → last? t.events ≡ some last
    → (t' : Timeline) × (set_timeline_width t ≡ some t')
      × InRange t'
      × (last.left + 100 ≤ t'.total_width)
      × (t'.events ≡ t.events)
      × (t'.contents ≡ t.contents)
unfolding set_timeline_width translate_timeline
set_timeline_width-InRange t e last p q =
    let t0 = record t { total_width = total_of t.wrapper_width last } in
    (
      update_timeline_position e t0,
      rw (p, q),
      translate_timeline-InRange (sub_ℕ t.wrapper_width (2 * e.left)) t0 (ground arith),
      ground arith,
      refl,
      refl,
    )
