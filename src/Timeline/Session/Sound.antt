-- ===== src/Timeline/Session/Sound.antt =====
-- Every input keeps a timeline sound.
use lso_project.Prelude.{
  ℕ, ◌*◌, ◌<◌, ◌≡◌, refl, sym, ap, ◌∙◌, ◌≢◌, inl, inr, Bool, true, false, Option, some, arith, leb,
  ◌==◌, if◌then◌else◌, Bool-cases, ==_iff, length, Text,
}
use lso_project.Timeline.Scroll.{
  scroll_left, scroll_right, swipe_wrapper, translate_timeline, button_disable,
}
use lso_project.Timeline.{Settings, Autoplay, Event, Timeline, ◌>>=◌, find_index}
use mathlib.Core.Path.{subst}
use lso_project.Timeline.Flags.{IsAt}
use lso_project.Timeline.Select.{
  is_selected, click_event, translate_goto_timeline, show_new_content,
}
use lso_project.Timeline.Select.Classes.{is_selected-IsAt}
use lso_project.Timeline.Select.Shows.{Shows}
use lso_project.Timeline.Select.Steps.{firsts}
use lso_project.Timeline.Select.Clicks.{click_event-Shows}
use lso_project.Timeline.Advance.{interval, passed, with_progress, next_step}
use lso_project.Timeline.Advance.Cycling.{interval-Shows, autoplay-Shows}
use lso_project.Timeline.Handlers.Arrivals.{act, act-Shows}
use lso_project.Timeline.Goto.{GotoData, date_flags, goto_timeline}
use lso_project.Timeline.Goto.Found.{goto_timeline-Shows}
use lso_project.Timeline.Session.{
  Input, acted, picked, followed, ticked, cycle_button, dragged, resized, added, removed,
  followed_by, perform, Enabled,
}
use lso_project.Timeline.Holds.{Holds, bind-Holds, bind_any-Holds}
use lso_project.Timeline.Session.Kept.{
  Kept, act-Kept, click_event-Kept, translate_goto_timeline-Kept, interval-Kept,
}
use lso_project.Timeline.Session.Kept.{begun}
use lso_project.Timeline.Cycle.{clear_interval}
use lso_project.Timeline.Session.Counted.{Counted, Sound}
use lso_project.Timeline.Session.Changes.{
  resized-Sound, dragged-Sound, added-Sound, removed-Sound, press_cycle-Sound,
}

Counted-begun :
    (s : Settings) (a : Autoplay)
    → s.autoplay ≡ true
    → Counted s a
    → Counted s (begun (clear_interval a))
Counted-begun s a on h = ground (arith, on, h)

abbrev first_of : Event → Bool
first_of e = e.first

abbrev SameFirsts : Timeline → Timeline → Type 0
SameFirsts t = Kept first_of (λ e b. refl) (λ e b. refl) Counted (firsts t.events)

Sound-by :
    {k : ℕ} {t' : Timeline} (t : Timeline) (o : Option Timeline)
    → Holds (SameFirsts t) o
    → o ≡ some t'
    → IsAt 0 (firsts t.events)
    → Shows k t'
    → Sound t'
Sound-by {k} {t'} t o h p f v =
    let (same, n) = subst (Holds (SameFirsts t)) p h in (k, v, subst (IsAt 0) (sym same) f, n)

followed_by-SameFirsts :
    (href : Text) (d : GotoData) (t : Timeline)
    → Counted t.settings t.autoplay
    → Holds (SameFirsts t) (followed_by href d t)
unfolding goto_timeline
followed_by-SameFirsts href d t n =
    bind-Holds (λ r. SameFirsts t r.1) (SameFirsts t) (goto_timeline href (some d) t) _
      (bind_any-Holds (λ r. SameFirsts t r.1) (find_index (date_flags d.goto_date t.events)) _
        (λ k.
          bind-Holds (SameFirsts t) (λ r. SameFirsts t r.1) (translate_goto_timeline k t) _
            (translate_goto_timeline-Kept first_of (λ e b. refl) (λ e b. refl) Counted Counted-begun
              (λ s a p h. h) (firsts t.events) k t (refl, n))
            (λ u h. h)))
      (λ r h. h)

interval_paused :
    (total : ℕ) (t : Timeline) → t.autoplay.is_paused ≡ true → interval total t ≡ some t
unfolding interval
interval_paused total t h =
    ap
      (λ b.
        if b
        then some t
        else (let t' = with_progress (passed t) t in
            if leb (100 * t.settings.autoplay_speed) (passed t)
            then show_new_content total (next_step t.events) t'
            else some t'))
      h

ticked-Sound :
    (total k : ℕ) (t : Timeline)
    → Shows k t
    → IsAt 0 (firsts t.events)
    → Counted t.settings t.autoplay
    → (t' : Timeline) × (interval total t ≡ some t') × Sound t'
ticked-Sound total k t v f n = elim (Bool-cases t.autoplay.is_paused) [
  | inl paused ↦ (t, interval_paused total t paused, (k, v, f, n))
  | inr runs ↦ elim (interval-Shows total k t v f runs) [
    | inl (_, p) ↦ (with_progress (passed t) t, p, (k, autoplay-Shows k _ t v, f, n))
    | inr (_, (t', p, w)) ↦ (
      t',
      p,
      Sound-by t (interval total t)
          (interval-Kept first_of (λ e b. refl) (λ e b. refl) Counted Counted-begun (λ s a p h. h)
            (firsts t.events) total t (refl, n))
          p f w,
    )
  ]
]

picked-Sound :
    (j k : ℕ) (t : Timeline)
    → Shows k t
    → IsAt 0 (firsts t.events)
    → Counted t.settings t.autoplay
    → j < length t.events
    → is_selected j t.events ≡ false
    → (t' : Timeline) × (click_event j t ≡ some t') × Sound t'
picked-Sound j k t v f n lt off =
    let away : (j == k) ≡ false = sym (is_selected-IsAt j k t.events v.event_at) ∙ off in
    let ne : j ≢ k = grind (arith, ==_iff j k) in
    let (t', p, w) = click_event-Shows j k t v lt ne in
    (
      t',
      p,
      Sound-by t (click_event j t)
          (click_event-Kept first_of (λ e b. refl) (λ e b. refl) Counted Counted-begun
            (λ s a p h. h) (firsts t.events) j t (refl, n))
          p f w,
    )

pub perform-Sound :
    (i : Input) (t : Timeline)
    → Enabled i t
    → Sound t
    → (t' : Timeline) × (perform i t ≡ some t') × Sound t'
unfolding swipe_wrapper translate_timeline button_disable
perform-Sound (acted w b a) t en (k, v, f, n) =
    let (t', p, x) = act-Shows w b a k t v f in
    (
      t',
      p,
      Sound-by t (act w b a t)
          (act-Kept first_of (λ e b. refl) (λ e b. refl) Counted Counted-begun (λ s a p h. h)
            (firsts t.events) w b a t (refl, n))
          p f x,
    )
perform-Sound (picked j) t en (k, v, f, n) = picked-Sound j k t v f n en.0 en.1
perform-Sound (followed href d) t (j, h) (k, v, f, n) =
    let (t', p, w) = goto_timeline-Shows href d j k t v h in
    let q : followed_by href d t ≡ some t' = ap (λ o. o >>= λ r. some r.1) p in
    (t', q, Sound-by t (followed_by href d t) (followed_by-SameFirsts href d t n) q f w)
perform-Sound (ticked total) t en (k, v, f, n) = ticked-Sound total k t v f n
perform-Sound (cycle_button e) t en (k, v, f, n) = press_cycle-Sound e k t v f n
perform-Sound (dragged total scroll_left m) t en (k, v, f, n) = (
  swipe_wrapper total scroll_left m t,
  refl,
  (
    k,
    subst (λ w. Shows k (swipe_wrapper w scroll_left m t)) (sym en)
        (dragged-Sound scroll_left m k t v),
    f,
    n,
  ),
)
perform-Sound (dragged total scroll_right m) t en (k, v, f, n) = (
  swipe_wrapper total scroll_right m t,
  refl,
  (
    k,
    subst (λ w. Shows k (swipe_wrapper w scroll_right m t)) (sym en)
        (dragged-Sound scroll_right m k t v),
    f,
    n,
  ),
)
perform-Sound (resized old new wrapper media) t en (k, v, f, n) =
    resized-Sound old new wrapper media k t v f n
perform-Sound (added measure method c) t en (k, v, f, n) = added-Sound measure method c k t v f n en
perform-Sound (removed d) t en (k, v, f, n) = removed-Sound d k t v f n en
