-- ===== src/Timeline/Session/Changes.antt =====
-- Changes of the page and of the cycle keep a timeline sound: the window, the wrapper, the events and the buttons.
use lso_project.Prelude.{
  ℕ, ◌≡◌, refl, sym, ap, ◌∙◌, inl, inr, some, arith, ltb, ◌==◌, ltb→lt, Bool-cases, length, Text,
}
use lso_project.Timeline.Scroll.{
  Direction, scroll_left, scroll_right, swipe_wrapper, translate_timeline, button_disable,
}
use lso_project.Timeline.Scroll.Bounds.{swipe_wrapper-InRange}
use lso_project.Timeline.Layout.{set_timeline_width}
use lso_project.Timeline.{Media, Autoplay, Content, Timeline, ◌>>=◌}
use mathlib.Core.Path.{subst}
use lso_project.Timeline.Flags.{IsAt}
use lso_project.Timeline.Cycle.{change_buttons}
use lso_project.Timeline.Select.Shows.{Shows}
use lso_project.Timeline.Select.Steps.{firsts}
use lso_project.Timeline.Advance.Cycling.{autoplay-Shows}
use lso_project.Timeline.Handlers.Arrivals.{Shows-same}
use lso_project.Timeline.Labels.{InsertMethod}
use lso_project.Timeline.Life.{in_array, mobile_resize_fix, add_event, remove_event}
use lso_project.Timeline.Life.Placed.{Classed-Shows, width-Classed}
use lso_project.Timeline.Life.Again.{refresh-Ready}
use lso_project.Timeline.Life.Addition.{add_event-Ready}
use lso_project.Timeline.Life.Removal.{remove_event-Ready}
use lso_project.Timeline.Session.{with_buttons, press_cycle, in_window, Present, Addable}
use lso_project.Timeline.Holds.{Holds}
use lso_project.Timeline.Cycle.{ButtonEvent, click_pause, click_play, mouse_enter, mouse_leave}
use lso_project.Timeline.Life.{refresh}
use lso_project.Timeline.Life.Untouched.{
  Untouched, width-Untouched, Untouched-SameCycle, refresh-Untouched, remove_event-Untouched,
  add_event-SameCycle,
}
use lso_project.Timeline.Session.Counted.{Counted, Sound, Counted-SameCycle, Ready-Sound}

pub resized-Sound :
    (old new wrapper : ℕ) (media : Media) (k : ℕ) (t : Timeline)
    → Shows k t
    → IsAt 0 (firsts t.events)
    → Counted t.settings t.autoplay
    → (t' : Timeline) × (mobile_resize_fix old new (in_window old new wrapper media t) ≡ some t')
      × Sound t'
unfolding mobile_resize_fix
resized-Sound old new wrapper media k t v f n = elim (Bool-cases (new == old)) [
  | inl same ↦ (t, rw same refl, (k, v, f, n))
  | inr wide ↦
      let u : Timeline = record t { wrapper_width = wrapper; media = media } in
      let (t', p, r) = refresh-Ready k u (Classed-Shows v) in
      (
        t',
        rw wide p,
        Ready-Sound u (refresh u) (Untouched-SameCycle u (refresh u) (refresh-Untouched u)) p n r,
      )
]

pub dragged-Sound :
    (d : Direction) (n k : ℕ) (t : Timeline)
    → Shows k t
    → Shows k (swipe_wrapper t.total_width d n t)
unfolding swipe_wrapper translate_timeline button_disable
dragged-Sound scroll_left n k t v =
    Shows-same v refl refl (swipe_wrapper-InRange scroll_left n t v.in_range)
dragged-Sound scroll_right n k t v =
    Shows-same v refl refl (swipe_wrapper-InRange scroll_right n t v.in_range)

pub added-Sound :
    (measure : Text → ℕ) (method : InsertMethod) (c : Content) (k : ℕ) (t : Timeline)
    → Shows k t
    → IsAt 0 (firsts t.events)
    → Counted t.settings t.autoplay
    → Addable method c t
    → (t' : Timeline) × (add_event measure method c t ≡ some t') × Sound t'
added-Sound measure method c k t v f n a = elim (Bool-cases (in_array c.date t.existing_dates)) [
  | inl there ↦ (t, unfold add_event in rw there refl, (k, v, f, n))
  | inr absent ↦ elim a.fresh [
    | inl there ↦ cc
    | inr fresh ↦
        let (t', p, r) =
          add_event-Ready measure method a.anchor a.anchor_at k a.place c t v a.anchored a.beside
            absent fresh a.labelled a.plain in
        (
          t',
          p,
          Ready-Sound t (add_event measure method c t) (add_event-SameCycle measure method c t) p n
              r,
        )
  ]
]

pub removed-Sound :
    (d : Text) (k : ℕ) (t : Timeline)
    → Shows k t
    → IsAt 0 (firsts t.events)
    → Counted t.settings t.autoplay
    → Present d t
    → (t' : Timeline) × (remove_event d t ≡ some t') × Sound t'
removed-Sound d k t v f n (j, h) = elim (Bool-cases (ltb 1 (length t.events))) [
  | inl more ↦
      let (t', p, r) = remove_event-Ready j k d t v h (ltb→lt 1 (length t.events) more) in
      (
        t',
        p,
        Ready-Sound t (remove_event d t)
            (Untouched-SameCycle t (remove_event d t) (remove_event-Untouched d t)) p n r,
      )
  | inr few ↦ (t, unfold remove_event in rw few refl, (k, v, f, n))
]

intervals-change_buttons :
    (e : ButtonEvent) (a : Autoplay) → (change_buttons e a).intervals ≡ a.intervals
unfolding change_buttons
intervals-change_buttons click_pause a = refl
intervals-change_buttons click_play a = refl
intervals-change_buttons mouse_enter a = ground arith
intervals-change_buttons mouse_leave a = ground arith

with_buttons-Sound :
    (e : ButtonEvent) (k : ℕ) (t : Timeline)
    → Shows k t
    → IsAt 0 (firsts t.events)
    → Counted t.settings t.autoplay
    → Sound (with_buttons e t)
with_buttons-Sound e k t v f n = (
  k,
  autoplay-Shows k (change_buttons e t.autoplay) t v,
  f,
  intervals-change_buttons e t.autoplay ∙ n,
)

pub press_cycle-Sound :
    (e : ButtonEvent) (k : ℕ) (t : Timeline)
    → Shows k t
    → IsAt 0 (firsts t.events)
    → Counted t.settings t.autoplay
    → (t' : Timeline) × (press_cycle e t ≡ some t') × Sound t'
unfolding press_cycle
press_cycle-Sound e k t v f n = by_event e
  where
    clicked :
        (e : ButtonEvent)
        → (t' : Timeline) × ((set_timeline_width t >>= λ u. some (with_buttons e u)) ≡ some t')
          × Sound t'
    clicked e =
        let (u, p, w, es) = width-Classed k t (Classed-Shows v) in
        let kept : Untouched t u = subst (Holds (Untouched t)) p (width-Untouched t) in
        (
          with_buttons e u,
          ap (λ o. o >>= λ u. some (with_buttons e u)) p,
          with_buttons-Sound e k u w (subst (λ xs. IsAt 0 (firsts xs)) (sym es) f)
              (Counted-SameCycle t u (kept.settings, kept.autoplay) n),
        )

    by_event : (e : ButtonEvent) → (t' : Timeline) × (press_cycle e t ≡ some t') × Sound t'
    by_event click_pause = clicked click_pause
    by_event click_play = clicked click_play
    by_event mouse_enter =
        (with_buttons mouse_enter t, refl, with_buttons-Sound mouse_enter k t v f n)
    by_event mouse_leave =
        (with_buttons mouse_leave t, refl, with_buttons-Sound mouse_leave k t v f n)
