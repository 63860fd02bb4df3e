-- ===== src/Timeline/Plugin/Destroyed.antt =====
-- What an instance leaves when it goes.
use lso_project.Prelude.{
  ℕ, ◌+◌, ◌-◌, ◌<◌, ◌≡◌, refl, sym, ap, ◌∙◌, inl, inr, Bool, true, false, none, some, List, arith,
  if◌then◌else◌, Bool-cases, length, All,
}
use lso_project.Timeline.{Settings, Content, Timeline, ◌>>=◌, content_flags}
use mathlib.Core.Path.{subst}
use lso_project.Timeline.Holds.{Holds}
use lso_project.Timeline.Flags.{IsAt, AllFalse}
use lso_project.Timeline.Cycle
use lso_project.Timeline.Cycle.{restarted}
use lso_project.Timeline.Select.Classes.{content_dates}
use lso_project.Timeline.Select.Shows.{Shows, Unique}
use lso_project.Timeline.Select.Steps.{firsts}
use lso_project.Timeline.Advance.Cycling.{autoplay-Shows}
use lso_project.Timeline.Labels.Dates.{Labelled}
use lso_project.Timeline.Life.Begin.{init_timeline-Shows}
use lso_project.Timeline.Life.Placed.{Classed-Shows, width-Classed}
use lso_project.Timeline.Life.Untouched.{Untouched, width-Untouched, init_timeline-Untouched}
use lso_project.Timeline.Session.{Reach, cycle_button}
use lso_project.Timeline.Session.Counted.{Sound, Counted}
use lso_project.Timeline.Session.Visit.{Reach-Sound}
use lso_project.Timeline.Plugin.{
  Element, Surroundings, new_timeline, set_up_cycle, construct, with_instance, returned, thrown,
  destroy_cycle, destroy_instance, destroy, horizontal_timeline,
}

start-Sound :
    (k : ℕ) (t : Timeline)
    → Shows k t
    → IsAt 0 (firsts t.events)
    → t.autoplay.intervals ≡ 0
    → t.settings.autoplay ≡ true
    → (t' : Timeline) × (Cycle.start t ≡ some t') × Sound t'
unfolding Cycle.start
start-Sound k t v f none_set on =
    let (u, p, w, es) = width-Classed k t (Classed-Shows v) in
    let kept : Untouched t u = subst (Holds (Untouched t)) p (width-Untouched t) in
    let counted : Counted u.settings (restarted u).autoplay =
      ap (λ a. a.intervals + 1) kept.autoplay
      ∙ ap (λ i. i + 1) none_set
      ∙ sym
          (ap (λ s. if s.autoplay then 1 else 0) kept.settings ∙ ap (λ b. if b then 1 else 0) on) in
    (
      restarted u,
      ap (λ o. o >>= λ x. some (restarted x)) p,
      (k, autoplay-Shows k _ u w, subst (λ xs. IsAt 0 (firsts xs)) (sym es) f, counted),
    )

set_up_cycle-Sound :
    (k : ℕ) (t : Timeline)
    → Shows k t
    → IsAt 0 (firsts t.events)
    → t.autoplay.intervals ≡ 0
    → (t' : Timeline) × (set_up_cycle t ≡ some t') × Sound t'
set_up_cycle-Sound k t v f none_set = elim (Bool-cases t.settings.autoplay) [
  | inl on ↦
      let (t', p, s) = start-Sound k t v f none_set on in
      (t', ap (λ b. if b then Cycle.start t else some t) on ∙ p, s)
  | inr off ↦ (
    t,
    ap (λ b. if b then Cycle.start t else some t) off,
    (k, v, f, none_set ∙ sym (ap (λ b. if b then 1 else 0) off)),
  )
]

pub construct-Sound :
    (w : Surroundings) (s : Settings) (cs : List Content)
    → 0 < length cs
    → Unique (content_dates cs)
    → All (Labelled s.date_display) cs
    → AllFalse (content_flags cs)
    → (t : Timeline) × (construct w s cs ≡ some t) × Sound t
unfolding construct
construct-Sound w s cs n u l a =
    let blank : Timeline = new_timeline w s cs in
    let (t, p, v, f) = init_timeline-Shows w.measure blank refl n u l a in
    let kept : Untouched blank t =
      subst (Holds (Untouched blank)) p (init_timeline-Untouched w.measure blank) in
    let (t', q, sound) = set_up_cycle-Sound 0 t v f (ap (λ a. a.intervals) kept.autoplay) in
    (t', ap (λ o. o >>= set_up_cycle) p ∙ q, sound)

intervals-destroy_cycle :
    (t : Timeline) → Counted t.settings t.autoplay → (destroy_cycle t).autoplay.intervals ≡ 0
unfolding Cycle.destroy
intervals-destroy_cycle t n = elim (Bool-cases t.settings.autoplay) [
  | inl on ↦
      ap
        (λ (b : Bool).
          (if b then record t { autoplay = Cycle.destroy t.autoplay } else t).autoplay.intervals)
        on
      ∙ ap (λ i. i - 1) (n ∙ ap (λ b. if b then 1 else 0) on)
  | inr off ↦
      ap
        (λ (b : Bool).
          (if b then record t { autoplay = Cycle.destroy t.autoplay } else t).autoplay.intervals)
        off
      ∙ n
      ∙ ap (λ b. if b then 1 else 0) off
]

-- The page before: the contents, and no instance.
abbrev pub untouched_page : List Content → Element
untouched_page cs = record { events_content = cs; instance_of = none; left_running = 0 }

-- What a visit makes of the instance that the call with options gives an element.
pub data FromPage (w : Surroundings) (s : Settings) (cs : List Content) (t' : Timeline)
    : Type 0 where
  visited : {t : Timeline} → construct w s cs ≡ some t → Reach t t' → FromPage w s cs t'

FromPage-Sound :
    (w : Surroundings) (s : Settings) (cs : List Content) (t' : Timeline)
    → 0 < length cs
    → Unique (content_dates cs)
    → All (Labelled s.date_display) cs
    → AllFalse (content_flags cs)
    → FromPage w s cs t'
    → Sound t'
FromPage-Sound w s cs t' n u l a (visited {t} made reached) =
    let (t0, p, sound) = construct-Sound w s cs n u l a in
    let sound' : Sound t = subst (Holds Sound) (sym p ∙ made) sound in
    (Reach-Sound t t' (cycle_button Cycle.click_pause) sound' reached tt).0

-- For contents with different dates, at least one, of which each has a text in the chosen display and none is
-- selected: the call with options succeeds and gives the element an instance. After any visit to it, by the inputs
-- of Timeline/Session, `destroy` leaves the element as it was before the call, with no interval running. Where the
-- swipe plugin is not loaded it throws instead: the old contents are back, but the instance is still
-- there, with its interval if the setting `autoplay` is on.
pub destroy-visited :
    (w : Surroundings) (s : Settings) (cs : List Content) (t' : Timeline)
    → 0 < length cs
    → Unique (content_dates cs)
    → All (Labelled s.date_display) cs
    → AllFalse (content_flags cs)
    → FromPage w s cs t'
    → ((t : Timeline) × (horizontal_timeline w s (untouched_page cs)
          ≡ some (with_instance cs (untouched_page cs) t)))
      × (destroy true (with_instance cs (untouched_page cs) t') ≡ returned (untouched_page cs))
      × (destroy false (with_instance cs (untouched_page cs) t')
          ≡ thrown (record (with_instance cs (untouched_page cs) t') { events_content = cs }))
      × (t'.autoplay.intervals ≡ (if t'.settings.autoplay then 1 else 0))
unfolding destroy destroy_instance horizontal_timeline
destroy-visited w s cs t' n u l a visit =
    let (t, p, _) = construct-Sound w s cs n u l a in
    let (_, _, _, counted) = FromPage-Sound w s cs t' n u l a visit in
    let over : 0 + (destroy_cycle t').autoplay.intervals ≡ 0 =
      omega (arith, intervals-destroy_cycle t' counted) in
    (
      (t, ap (λ o. o >>= λ x. some (with_instance cs (untouched_page cs) x)) p),
      ap (λ i. returned (record { events_content = cs; instance_of = none; left_running = i }))
          over,
      refl,
      counted,
    )
