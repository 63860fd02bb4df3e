-- ===== src/Timeline/Life/Again.antt =====
-- `refresh` on a timeline that shows an event.
use lso_project.Prelude.{
  ℕ, ◌<◌, ◌≡◌, refl, sym, ap, ◌∙◌, inl, inr, true, false, some, List, [], ◌∷◌, map, arith, ◌==◌,
  if◌then◌else◌, Text, Bool-cases, length, length-map,
}
use lso_project.Timeline.{Event, Content, Timeline, ◌>>=◌, event_flags, content_flags}
use mathlib.Core.Path.{subst}
use lso_project.Timeline.Flags.{AllFalse, IsAt, lt_of_IsAt}
use lso_project.Timeline.Layout.{set_timeline_width}
use lso_project.Timeline.Select.Classes.{older_flags, event_dates, content_dates}
use lso_project.Timeline.Select.Shows.{Shows}
use lso_project.Timeline.Select.Steps.{firsts}
use lso_project.Timeline.Life.{
  set_first, set_last, set_id_first, set_id_last, add_ids_and_classes, clear_ids, refresh_cycle,
  refresh,
}
use lso_project.Timeline.Life.Placed.{
  Ready, Classed, Classed-Shows, Classed-same, width-Classed, lay_out-Shows,
}

map-kept :
    {B A : Type 0} (f : B → A) (g : B → B)
    → ((b : B) → f (g b) ≡ f b)
    → (bs : List B) → map f (map g bs) ≡ map f bs
map-kept f g kept [] = refl
map-kept f g kept (b ∷ bs) = cc (kept b, map-kept f g kept bs)

map-set_first :
    {A : Type 0} (f : Event → A)
    → ((e : Event) → f (record e { first = true }) ≡ f e)
    → (es : List Event) → map f (set_first es) ≡ map f es
map-set_first f kept [] = refl
map-set_first f kept (e ∷ es) = ap (λ x. x ∷ map f es) (kept e)

map-set_last :
    {A : Type 0} (f : Event → A)
    → ((e : Event) → f (record e { last = true }) ≡ f e)
    → (es : List Event) → map f (set_last es) ≡ map f es
map-set_last f kept [] = refl
map-set_last f kept (e ∷ []) = ap (λ x. x ∷ []) (kept e)
map-set_last f kept (e ∷ d ∷ es) = ap (λ xs. f e ∷ xs) (map-set_last f kept (d ∷ es))

map-set_id_first :
    {A : Type 0} (f : Content → A)
    → ((c : Content) → f (record c { id_first = true }) ≡ f c)
    → (cs : List Content) → map f (set_id_first cs) ≡ map f cs
map-set_id_first f kept [] = refl
map-set_id_first f kept (c ∷ cs) = ap (λ x. x ∷ map f cs) (kept c)

map-set_id_last :
    {A : Type 0} (f : Content → A)
    → ((c : Content) → f (record c { id_last = true }) ≡ f c)
    → (cs : List Content) → map f (set_id_last cs) ≡ map f cs
map-set_id_last f kept [] = refl
map-set_id_last f kept (c ∷ []) = ap (λ x. x ∷ []) (kept c)
map-set_id_last f kept (c ∷ d ∷ cs) = ap (λ xs. f c ∷ xs) (map-set_id_last f kept (d ∷ cs))

-- The same flags and dates.
pub record Same (es : List Event) (cs : List Content) (es' : List Event) (cs' : List Content)
    : Type 0 where
  pub flags : event_flags es' ≡ event_flags es
  pub older : older_flags es' ≡ older_flags es
  pub dates : event_dates es' ≡ event_dates es
  pub shown : content_flags cs' ≡ content_flags cs
  pub shown_dates : content_dates cs' ≡ content_dates cs

Classed-Same :
    {k : ℕ} {es es' : List Event} {cs cs' : List Content}
    → Classed k es cs
    → Same es cs es' cs'
    → Classed k es' cs'
Classed-Same c s = Classed-same c s.flags s.older s.dates s.shown s.shown_dates

-- The ids and the classes `first` and `last` are all that changes.
set_last-Same :
    (es : List Event) (cs : List Content)
    → Same es cs (set_last (set_first es)) (set_id_last (set_id_first cs))
set_last-Same es cs = record {
  flags =
      map-set_last (λ e. e.selected) (λ e. refl) (set_first es)
      ∙ map-set_first (λ e. e.selected) (λ e. refl) es;
  older =
      map-set_last (λ e. e.older_event) (λ e. refl) (set_first es)
      ∙ map-set_first (λ e. e.older_event) (λ e. refl) es;
  dates =
      map-set_last (λ e. e.date) (λ e. refl) (set_first es)
      ∙ map-set_first (λ e. e.date) (λ e. refl) es;
  shown =
      map-set_id_last (λ c. c.selected) (λ c. refl) (set_id_first cs)
      ∙ map-set_id_first (λ c. c.selected) (λ c. refl) cs;
  shown_dates =
      map-set_id_last (λ c. c.date) (λ c. refl) (set_id_first cs)
      ∙ map-set_id_first (λ c. c.date) (λ c. refl) cs;
}

set_first-Same : (es : List Event) (cs : List Content) → Same es cs (set_first es) (set_id_first cs)
set_first-Same es cs = record {
  flags = map-set_first (λ e. e.selected) (λ e. refl) es;
  older = map-set_first (λ e. e.older_event) (λ e. refl) es;
  dates = map-set_first (λ e. e.date) (λ e. refl) es;
  shown = map-set_id_first (λ c. c.selected) (λ c. refl) cs;
  shown_dates = map-set_id_first (λ c. c.date) (λ c. refl) cs;
}

firsts-set_first :
    (es : List Event) → 0 < length es → AllFalse (firsts es) → IsAt 0 (firsts (set_first es))
firsts-set_first [] h a = absurd (omega arith)
firsts-set_first (e ∷ es) h a = (refl, a.1)

pub add_ids_and_classes-Same :
    (t : Timeline)
    → 0 < length t.events
    → AllFalse (firsts t.events)
    → Same t.events t.contents (add_ids_and_classes t).events (add_ids_and_classes t).contents
      × IsAt 0 (firsts (add_ids_and_classes t).events)
unfolding add_ids_and_classes
add_ids_and_classes-Same t h a =
    let at = firsts-set_first t.events h a in
    elim (Bool-cases (length t.contents == 1)) [
      | inl one ↦ rw one (set_first-Same t.events t.contents, at)
      | inr more ↦ rw more (
        set_last-Same t.events t.contents,
        subst (IsAt 0) (sym (map-set_last (λ e. e.first) (λ e. refl) (set_first t.events))) at,
      )
    ]

clear_ids-Classed :
    (k : ℕ) (t : Timeline)
    → Classed k t.events t.contents
    → Classed k (clear_ids t).events (clear_ids t).contents
clear_ids-Classed k t c =
    Classed-same c (map-kept (λ e. e.selected) _ (λ e. refl) t.events)
      (map-kept (λ e. e.older_event) _ (λ e. refl) t.events)
      (map-kept (λ e. e.date) _ (λ e. refl) t.events)
      (map-kept (λ c. c.selected) _ (λ c. refl) t.contents)
      (map-kept (λ c. c.date) _ (λ c. refl) t.contents)

firsts-clear_ids :
    (es : List Event)
    → AllFalse (firsts (map (λ (e : Event). record e { first = false; last = false }) es))
firsts-clear_ids [] = tt
firsts-clear_ids (e ∷ es) = (refl, firsts-clear_ids es)

refresh_cycle-Ready :
    (k : ℕ) (ds : List Text) (t : Timeline)
    → Ready k ds t
    → (t' : Timeline) × (refresh_cycle t ≡ some t') × Ready k ds t'
refresh_cycle-Ready k ds t r = elim (Bool-cases t.settings.autoplay) [
  | inl on ↦
      let (u, p, w, es) = width-Classed k t (Classed-Shows r.shows) in
      (
        u,
        ap (λ b. if b then set_timeline_width t else some t) on ∙ p,
        record {
          shows = w;
          home = subst (λ xs. IsAt 0 (firsts xs)) (sym es) r.home;
          has_dates = ap event_dates es ∙ r.has_dates;
        },
      )
  | inr off ↦ (t, ap (λ b. if b then set_timeline_width t else some t) off, r)
]

pub refresh-Ready :
    (k : ℕ) (t : Timeline)
    → Classed k t.events t.contents
    → (t' : Timeline) × (refresh t ≡ some t') × Ready k (event_dates t.events) t'
unfolding refresh
refresh-Ready k t c =
    let cleared = clear_ids-Classed k t c in
    let many : 0 < length (clear_ids t).events = omega (
      arith,
      lt_of_IsAt k (event_flags t.events) c.event_at,
      length-map (λ (e : Event). e.selected) t.events,
      length-map (λ (e : Event). record e { first = false; last = false }) t.events,
    ) in
    let (s, f) = add_ids_and_classes-Same (clear_ids t) many (firsts-clear_ids t.events) in
    let (u, p, w, same, dates) =
      lay_out-Shows k (add_ids_and_classes (clear_ids t)) (Classed-Same cleared s) in
    let (t', q, r) = refresh_cycle-Ready k (event_dates t.events) u (record {
      shows = w;
      home = subst (IsAt 0) (sym same) f;
      has_dates = dates ∙ s.dates ∙ map-kept (λ e. e.date) _ (λ e. refl) t.events;
    }) in
    (t', ap (λ o. o >>= refresh_cycle) p ∙ q, r)

-- On a timeline that shows event k, `refresh` succeeds: the timeline still shows event k, and the
-- class `first` is on its first event alone, wherever it was before.
pub refresh-Shows :
    (k : ℕ) (t : Timeline)
    → Shows k t
    → (t' : Timeline) × (refresh t ≡ some t') × Shows k t' × IsAt 0 (firsts t'.events)
refresh-Shows k t v =
    let (t', p, r) = refresh-Ready k t (Classed-Shows v) in (t', p, r.shows, r.home)
