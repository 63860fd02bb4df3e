-- ===== src/Timeline/Life/Placed.antt =====
-- The layout keeps the classes and the dates.
use lso_project.Prelude.{
  ℕ, ◌+◌, ◌≡◌, refl, sym, ap, ◌∙◌, Bool, true, false, ◌||◌, Option, none, some, List, [], ◌∷◌, map,
  Text,
}
use lso_project.Timeline.{Event, Content, Timeline, ◌>>=◌, event_flags, content_flags}
use mathlib.Core.Path.{subst}
use lso_project.Timeline.Flags.{IsAt, IsBelow}
use lso_project.Timeline.Scroll.Bounds.{InRange}
use lso_project.Timeline.Layout.{
  selected_event, set_timeline_width, set_date_intervals, place_from, place, place_by,
  set_date_position, is_phone,
}
use lso_project.Timeline.Layout.Spacing.{set_timeline_width-InRange}
use lso_project.Timeline.Select.{update_filling}
use lso_project.Timeline.Select.Classes.{older_flags, event_dates, content_dates}
use lso_project.Timeline.Select.Shows.{Unique, Shows, selected_event-IsAt, last?-IsAt}
use lso_project.Timeline.Select.Steps.{firsts}
use lso_project.Timeline.Life.{lay_out}

-- What `Shows` says of the links and the contents.
pub record Classed (k : ℕ) (es : List Event) (cs : List Content) : Type 0 where
  pub event_at : IsAt k (event_flags es)
  pub content_at : IsAt k (content_flags cs)
  pub older : IsBelow k (older_flags es)
  pub dates : content_dates cs ≡ event_dates es
  pub unique : Unique (event_dates es)

pub Classed-Shows : {k : ℕ} {t : Timeline} → Shows k t → Classed k t.events t.contents
Classed-Shows v = record {
  event_at = v.event_at;
  content_at = v.content_at;
  older = v.older;
  dates = v.dates;
  unique = v.unique;
}

Shows-Classed : {k : ℕ} {t : Timeline} → Classed k t.events t.contents → InRange t → Shows k t
Shows-Classed c r = record {
  event_at = c.event_at;
  content_at = c.content_at;
  older = c.older;
  dates = c.dates;
  unique = c.unique;
  in_range = r;
}

-- The timeline shows event k of those with the dates ds, and the class `first` is on the first alone.
pub record Ready (k : ℕ) (ds : List Text) (t : Timeline) : Type 0 where
  pub shows : Shows k t
  pub home : IsAt 0 (firsts t.events)
  pub has_dates : event_dates t.events ≡ ds

-- Lists with the same flags and dates.
pub Classed-same :
    {k : ℕ} {es es' : List Event} {cs cs' : List Content}
    → Classed k es cs
    → event_flags es' ≡ event_flags es
    → older_flags es' ≡ older_flags es
    → event_dates es' ≡ event_dates es
    → content_flags cs' ≡ content_flags cs
    → content_dates cs' ≡ content_dates cs
    → Classed k es' cs'
Classed-same {k} c p q r s d = record {
  event_at = subst (IsAt k) (sym p) c.event_at;
  content_at = subst (IsAt k) (sym s) c.content_at;
  older = subst (IsBelow k) (sym q) c.older;
  dates = d ∙ c.dates ∙ sym r;
  unique = subst Unique (sym r) c.unique;
}

-- What the places do not enter.
module _ {A : Type 0} (f : Event → A)
    (kept : (e : Event) (x : ℕ) → f (record e { left = x }) ≡ f e) where
  map-place_from : (i d : ℕ) (es : List Event) → map f (place_from i d es) ≡ map f es
  unfolding place_from
  map-place_from i d [] = refl
  map-place_from i d (e ∷ es) = cc (kept e (d + i), map-place_from i (d + i) es)

  map-place : (b : Bool) (i : ℕ) (es : List Event) → map f (place b i es) ≡ map f es
  unfolding place
  map-place b i [] = refl
  map-place true i (e ∷ es) = cc (kept e 0, map-place_from i 0 es)
  map-place false i (e ∷ es) = map-place_from i 0 (e ∷ es)

  map-place_by : (b : Bool) (i : Option ℕ) (es : List Event) → map f (place_by b i es) ≡ map f es
  map-place_by b (some i) es = map-place b i es
  map-place_by true none [] = refl
  map-place_by true none (e ∷ es) = ap (λ x. x ∷ map f es) (kept e 0)
  map-place_by false none es = refl

  map-set_date_position : (t : Timeline) → map f (set_date_position t).events ≡ map f t.events
  unfolding set_date_position
  map-set_date_position t =
      map-place_by (t.settings.minimal_first_date_interval || is_phone t.media)
        (set_date_intervals t).date_intervals t.events

contents-set_date_position : (t : Timeline) → (set_date_position t).contents ≡ t.contents
unfolding set_date_position set_date_intervals
contents-set_date_position t = refl

set_date_position-Classed :
    (k : ℕ) (t : Timeline)
    → Classed k t.events t.contents
    → Classed k (set_date_position t).events (set_date_position t).contents
set_date_position-Classed k t c =
    Classed-same c (map-set_date_position (λ e. e.selected) (λ e x. refl) t)
      (map-set_date_position (λ e. e.older_event) (λ e x. refl) t)
      (map-set_date_position (λ e. e.date) (λ e x. refl) t)
      (ap content_flags (contents-set_date_position t))
      (ap content_dates (contents-set_date_position t))

-- The width is measured without an error, and brings the translation into range.
pub width-Classed :
    (k : ℕ) (t : Timeline)
    → Classed k t.events t.contents
    → (t' : Timeline) × (set_timeline_width t ≡ some t') × Shows k t' × (t'.events ≡ t.events)
width-Classed k t c =
    let (e, p) = selected_event-IsAt k t.events c.event_at in
    let (l, q) = last?-IsAt k t.events c.event_at in
    let (t', r, range, _, es, cs) = set_timeline_width-InRange t e l p q in
    (
      t',
      r,
      Shows-Classed
          (Classed-same c (ap event_flags es) (ap older_flags es) (ap event_dates es)
            (ap content_flags cs) (ap content_dates cs))
          range,
      es,
    )

filling-Shows : (k n : ℕ) (e : Event) (t : Timeline) → Shows k t → Shows k (update_filling e n t)
unfolding update_filling
filling-Shows k n e t v =
    Shows-Classed
      (record {
        event_at = v.event_at;
        content_at = v.content_at;
        older = v.older;
        dates = v.dates;
        unique = v.unique;
      })
      (record {
        wide = v.in_range.wide;
        not_right = v.in_range.not_right;
        not_left = v.in_range.not_left;
      })

events-update_filling :
    (n : ℕ) (e : Event) (t : Timeline) → (update_filling e n t).events ≡ t.events
unfolding update_filling
events-update_filling n e t = refl

-- From any timeline with the classes of event k the layout leads to one that shows event k.
pub lay_out-Shows :
    (k : ℕ) (t : Timeline)
    → Classed k t.events t.contents
    → (t' : Timeline) × (lay_out t ≡ some t')
      × Shows k t'
      × (firsts t'.events ≡ firsts t.events)
      × (event_dates t'.events ≡ event_dates t.events)
unfolding lay_out
lay_out-Shows k t c =
    let (u, p, v, es) = width-Classed k (set_date_position t) (set_date_position-Classed k t c) in
    let (e, q) = selected_event-IsAt k u.events v.event_at in
    let fill : Event → Option Timeline = λ e. some (update_filling e u.total_width u) in
    (
      update_filling e u.total_width u,
      ap
            (λ o. o >>= λ t'.
              selected_event t'.events >>= λ e. some (update_filling e t'.total_width t'))
            p
          ∙ ap (λ o. o >>= fill) q,
      filling-Shows k u.total_width e u v,
      ap firsts (events-update_filling u.total_width e u)
          ∙ ap firsts es
          ∙ map-set_date_position (λ e. e.first) (λ e x. refl) t,
      ap event_dates (events-update_filling u.total_width e u)
          ∙ ap event_dates es
          ∙ map-set_date_position (λ e. e.date) (λ e x. refl) t,
    )
