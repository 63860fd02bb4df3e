-- ===== src/Timeline/Handlers/Arrivals.antt =====
-- What each of the user's actions leads to.
use lso_project.Prelude.{
  ℕ, ◌≡◌, refl, sym, ap, ◌∙◌, inl, inr, Bool, true, false, Option, none, some, arith, ◌==◌,
  if◌then◌else◌, Bool-cases, length,
}
use lso_project.Timeline.{Timeline, ◌>>=◌, event_flags, content_flags}
use mathlib.Core.Path.{subst}
use lso_project.Timeline.Flags.{IsAt}
use lso_project.Timeline.Scroll.{
  translate_timeline, button_disable, Direction, scroll_left, scroll_right, update_slide,
}
use lso_project.Timeline.Scroll.Bounds.{InRange, update_slide-InRange}
use lso_project.Timeline.Layout.{set_timeline_width}
use lso_project.Timeline.Layout.Spacing.{set_timeline_width-InRange}
use lso_project.Timeline.Select.{Step, next, prev}
use lso_project.Timeline.Select.Classes.{event_dates, content_dates}
use lso_project.Timeline.Select.Shows.{Unique, Shows, selected_event-IsAt, last?-IsAt}
use lso_project.Timeline.Select.Steps.{destination, firsts, show_new_content-Shows}
use lso_project.Timeline.Handlers.{
  Button, next_button, prev_button, scroll_right_button, scroll_left_button, is_inactive, press,
  click_button, mousewheel, swipe, Box, Window, element_in_viewport, key_step, choose_if,
  keyboard_keys,
}

pub data Action : Type 0 where
  click_on : Button → Action
  wheel : Bool → Action
  swiped : Step → Action
  key : ℕ → Action

abbrev pub act : Window → Box → Action → Timeline → Option Timeline
act w b (click_on button) t = click_button button t
act w b (wheel upwards) t = mousewheel upwards t
act w b (swiped direction) t = swipe direction t
act w b (key which) t = keyboard_keys w b which t

-- The step that an action means, if any.
abbrev button_step : Button → Option Step
button_step next_button = some next
button_step prev_button = some prev
button_step scroll_right_button = none
button_step scroll_left_button = none

abbrev pub arrow : Bool → ℕ → Option Step
arrow false which = none
arrow true which = if which == 37 then some prev else if which == 39 then some next else none

key_step-arrow : (visible : Bool) (which : ℕ) → key_step visible which ≡ arrow visible which
unfolding key_step
key_step-arrow false which = ground arith
key_step-arrow true which = ground arith

abbrev pub step_of : Window → Box → Timeline → Action → Option Step
step_of w b t (click_on button) = if is_inactive button t.buttons then none else button_step button
step_of w b t (wheel upwards) = some (if upwards then prev else next)
step_of w b t (swiped direction) = some direction
step_of w b t (key which) = arrow (element_in_viewport w b) which

abbrev pub arrival : Option Step → ℕ → ℕ → ℕ
arrival none n k = k
arrival (some s) n k = destination s n k

pub Shows-same :
    {k : ℕ} {t u : Timeline}
    → Shows k t
    → u.events ≡ t.events
    → u.contents ≡ t.contents
    → InRange u
    → Shows k u
Shows-same {k} v es cs r = record {
  event_at = subst (λ x. IsAt k (event_flags x)) (sym es) v.event_at;
  content_at = subst (λ x. IsAt k (content_flags x)) (sym cs) v.content_at;
  older = rw es v.older;
  dates = ap content_dates cs ∙ v.dates ∙ sym (ap event_dates es);
  unique = subst (λ x. Unique (event_dates x)) (sym es) v.unique;
  in_range = r;
}

-- After the width is measured, the timeline shows the same event.
set_timeline_width-Shows :
    (k : ℕ) (t : Timeline)
    → Shows k t
    → (t' : Timeline) × (set_timeline_width t ≡ some t') × Shows k t' × (t'.events ≡ t.events)
set_timeline_width-Shows k t v =
    let (e, p) = selected_event-IsAt k t.events v.event_at in
    let (l, q) = last?-IsAt k t.events v.event_at in
    let (t', r, range, _, es, cs) = set_timeline_width-InRange t e l p q in
    (t', r, Shows-same v es cs range, es)

update_slide-Shows :
    (d : Direction) (k : ℕ) (t : Timeline) → Shows k t → Shows k (update_slide t.total_width d t)
unfolding update_slide translate_timeline button_disable
update_slide-Shows scroll_left k t v =
    Shows-same v refl refl (update_slide-InRange scroll_left t v.in_range)
update_slide-Shows scroll_right k t v =
    Shows-same v refl refl (update_slide-InRange scroll_right t v.in_range)

choose_if-Shows :
    (s : Option Step) (k : ℕ) (t : Timeline)
    → Shows k t
    → IsAt 0 (firsts t.events)
    → (t' : Timeline) × (choose_if s t ≡ some t') × Shows (arrival s (length t.events) k) t'
choose_if-Shows none k t v f = (t, refl, v)
choose_if-Shows (some s) k t v f = show_new_content-Shows t.total_width k s t v f

press-Shows :
    (b : Button) (k : ℕ) (t : Timeline)
    → Shows k t
    → IsAt 0 (firsts t.events)
    → (t' : Timeline) × (press b t ≡ some t')
      × Shows (arrival (button_step b) (length t.events) k) t'
press-Shows next_button k t v f = choose_if-Shows (some next) k t v f
press-Shows prev_button k t v f = choose_if-Shows (some prev) k t v f
press-Shows scroll_right_button k t v f =
    (update_slide t.total_width scroll_right t, refl, update_slide-Shows scroll_right k t v)
press-Shows scroll_left_button k t v f =
    (update_slide t.total_width scroll_left t, refl, update_slide-Shows scroll_left k t v)

-- An action that measures the width first.
measured :
    (s : Option Step) (go : Timeline → Option Timeline) (k : ℕ) (t : Timeline)
    → ((u : Timeline)
        → Shows k u
        → IsAt 0 (firsts u.events)
        → (t' : Timeline) × (go u ≡ some t') × Shows (arrival s (length u.events) k) t')
    → Shows k t
    → IsAt 0 (firsts t.events)
    → (t' : Timeline) × ((set_timeline_width t >>= go) ≡ some t')
      × Shows (arrival s (length t.events) k) t'
measured s go k t goes v f =
    let (u, p, w, es) = set_timeline_width-Shows k t v in
    let (t', q, x) = goes u w (subst (λ x. IsAt 0 (firsts x)) (sym es) f) in
    (t', ap (λ o. o >>= go) p ∙ q, subst (λ es. Shows (arrival s (length es) k) t') es x)

click_button-Shows :
    (w : Window) (b : Box) (button : Button) (k : ℕ) (t : Timeline)
    → Shows k t
    → IsAt 0 (firsts t.events)
    → (t' : Timeline) × (click_button button t ≡ some t')
      × Shows (arrival (step_of w b t (click_on button)) (length t.events) k) t'
unfolding click_button
click_button-Shows w b button k t v f = elim (Bool-cases (is_inactive button t.buttons)) [
  | inl off ↦ rw off (t, refl, v)
  | inr on ↦ rw on (measured (button_step button) (press button) k t (press-Shows button k) v f)
]

-- On a timeline that shows event k of n, with the class `first` on its first event alone, every
-- click on a button, turn of the wheel, swipe over the contents and key succeeds. It leads to a
-- timeline that shows the destination of the step that the action means, and still event k where it
-- means none: a scroll, a button that is inactive, another key, or a timeline out of sight.
pub act-Shows :
    (w : Window) (b : Box) (a : Action) (k : ℕ) (t : Timeline)
    → Shows k t
    → IsAt 0 (firsts t.events)
    → (t' : Timeline) × (act w b a t ≡ some t')
      × Shows (arrival (step_of w b t a) (length t.events) k) t'
unfolding mousewheel swipe keyboard_keys
act-Shows w b (click_on button) k t v f = click_button-Shows w b button k t v f
act-Shows w b (wheel upwards) k t v f =
    let s = some (if upwards then prev else next) in
    measured s (choose_if s) k t (choose_if-Shows s k) v f
act-Shows w b (swiped direction) k t v f =
    let s = some direction in measured s (choose_if s) k t (choose_if-Shows s k) v f
act-Shows w b (key which) k t v f =
    let s = key_step (element_in_viewport w b) which in
    let (t', p, x) = measured s (choose_if s) k t (choose_if-Shows s k) v f in
    (
      t',
      p,
      subst (λ s. Shows (arrival s (length t.events) k) t')
          (key_step-arrow (element_in_viewport w b) which) x,
    )
