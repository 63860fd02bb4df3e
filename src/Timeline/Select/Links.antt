-- ===== src/Timeline/Select/Links.antt =====
-- Links to an event, `translate_gotoTimeline`.
use mathlib.Core.Path.{subst}
use lso_project.Prelude.{
  ℕ, zero, suc, ◌*◌, ◌<◌, ◌≡◌, refl, sym, ap, ◌∙◌, ◌≢◌, ◌⊎◌, inl, inr, Bool, true, false, Option,
  some, List, [], ◌∷◌, arith, if◌then◌else◌, length, get_elem?,
}
use lso_project.Timeline.{Event, Timeline, ◌>>=◌, event_flags}
use lso_project.Prelude.Int.{sub_ℕ}
use lso_project.Timeline.Flags.{AllFalse, IsAt}
use lso_project.Timeline.Scroll.{update_timeline_position}
use lso_project.Timeline.Scroll.Bounds.{translate_timeline-InRange}
use lso_project.Timeline.Select.{
  update_filling, choose_link, click_shown, click_end, translate_goto_timeline,
}
use lso_project.Timeline.Select.Shows.{Shows, get_elem?-of_lt}
use lso_project.Timeline.Select.Clicks.{clicked_events, finish, Chosen-Shows}

selected_at :
    (j k : ℕ) (es : List Event) (e : Event)
    → IsAt k (event_flags es)
    → get_elem? es j ≡ some e
    → ((j ≡ k) × (e.selected ≡ true)) ⊎ ((j ≢ k) × (e.selected ≡ false))
selected_at j k [] e h p = absurd h
selected_at zero zero (d ∷ es) e h p = inl (refl, ground arith)
selected_at zero (suc k) (d ∷ es) e h p = inr (omega arith, ground arith)
selected_at (suc j) zero (d ∷ es) e h p = inr (omega arith, unselected j es h.1 p)
  where
    unselected :
        (j : ℕ) (es : List Event)
        → AllFalse (event_flags es)
        → get_elem? es j ≡ some e
        → e.selected ≡ false
    unselected j [] h p = cc
    unselected zero (d ∷ es) h p = ground arith
    unselected (suc j) (d ∷ es) h p = unselected j es h.1 p
selected_at (suc j) (suc k) (d ∷ es) e h p = elim (selected_at j k es e h.1 p) [
  | inl (q, b) ↦ inl (ap suc q, b)
  | inr (q, b) ↦ inr (omega arith, b)
]

-- A timeline that shows an event still does when an event comes to the middle.
centred : {k : ℕ} {t : Timeline} (e : Event) → Shows k t → Shows k (update_timeline_position e t)
unfolding update_timeline_position
centred {t} e v = record {
  event_at = v.event_at;
  content_at = v.content_at;
  older = v.older;
  dates = v.dates;
  unique = v.unique;
  in_range = translate_timeline-InRange (sub_ℕ t.wrapper_width (2 * e.left)) t v.in_range.wide;
}

chosen_events :
    (j : ℕ) (e : Event) (t : Timeline)
    → (update_filling e t.total_width (choose_link j t)).events ≡ clicked_events j t.events
unfolding clicked_events update_filling
chosen_events j e t = refl

goto_by : ℕ → Event → Timeline → Bool → Option Timeline
goto_by j e t b = if b then click_end e t else click_shown e (choose_link j t)

goto_lem :
    (j : ℕ) (e : Event) (t : Timeline)
    → get_elem? t.events j ≡ some e
    → translate_goto_timeline j t ≡ goto_by j e t e.selected
unfolding translate_goto_timeline goto_by
goto_lem j e t h = ap (λ o. o >>= λ e'. goto_by j e' t e'.selected) h

-- On a timeline that shows event k, a link to any event j, also to k itself, succeeds and leads to
-- a timeline that shows event j.
pub translate_goto_timeline-Shows :
    (j k : ℕ) (t : Timeline)
    → Shows k t
    → j < length t.events
    → (t' : Timeline) × (translate_goto_timeline j t ≡ some t') × Shows j t'
unfolding goto_by update_filling
translate_goto_timeline-Shows j k t v lt =
    let (e, h) = get_elem?-of_lt t.events j lt in
    elim (selected_at j k t.events e v.event_at h) [
      | inl (same, b) ↦ (
        update_timeline_position e t,
        goto_lem j e t h ∙ ap (goto_by j e t) b,
        subst (λ i. Shows i (update_timeline_position e t)) (sym same) (centred e v),
      )
      | inr (ne, b) ↦
          let u = update_filling e t.total_width (choose_link j t) in
          let (t', m, c) = finish j e t u lt (chosen_events j e t) refl v.in_range.wide in
          (
            update_timeline_position e t',
            goto_lem j e t h ∙ ap (goto_by j e t) b ∙ ap (λ o. o >>= click_end e) m,
            Chosen-Shows v h ne c,
          )
    ]
