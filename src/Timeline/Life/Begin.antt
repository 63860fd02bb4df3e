-- ===== src/Timeline/Life/Begin.antt =====
-- The start of a timeline where no content has the class `selected`.
use lso_project.Prelude.{
  ℕ, ◌<◌, ◌≡◌, refl, sym, ap, ◌∙◌, Option, none, some, List, [], ◌∷◌, arith, length, length-map,
  All, Text,
}
use lso_project.Timeline.{Event, Content, Timeline, ◌>>=◌, event_flags, content_flags}
use mathlib.Core.Path.{subst}
use lso_project.Timeline.Flags.{AllFalse, IsAt}
use lso_project.Timeline.Select.{add_selected}
use lso_project.Timeline.Select.Classes.{
  older_flags, event_dates, content_dates, event_dates-add_selected,
}
use lso_project.Timeline.Select.Shows.{Unique, Shows}
use lso_project.Timeline.Select.Steps.{firsts}
use lso_project.Timeline.Labels.{append, create_date}
use lso_project.Timeline.Labels.Dates.{Labelled, create_date-dates}
use lso_project.Timeline.Life.{
  add_ids_and_classes, select_content, selected_date, select_by, select_event, lay_out,
  init_timeline,
}
use lso_project.Timeline.Life.Placed.{Classed, lay_out-Shows}
use lso_project.Timeline.Life.Again.{Same, add_ids_and_classes-Same}

selected_date-AllFalse : (cs : List Content) → AllFalse (content_flags cs) → selected_date cs ≡ none
selected_date-AllFalse [] a = refl
selected_date-AllFalse (c ∷ cs) a = rw (a.0) (selected_date-AllFalse cs a.1)

first_event :
    (es : List Event)
    → 0 < length es
    → AllFalse (event_flags es)
    → IsAt 0 (event_flags (add_selected 0 es))
first_event [] h a = absurd (omega arith)
first_event (e ∷ es) h a = (refl, a.1)

first_content :
    (cs : List Content)
    → 0 < length cs
    → AllFalse (content_flags cs)
    → IsAt 0 (content_flags (select_content 0 cs))
first_content [] h a = absurd (omega arith)
first_content (c ∷ cs) h a = (refl, a.1)

content_dates-select : (cs : List Content) → content_dates (select_content 0 cs) ≡ content_dates cs
content_dates-select [] = refl
content_dates-select (c ∷ cs) = refl

older_flags-add_selected : (es : List Event) → older_flags (add_selected 0 es) ≡ older_flags es
older_flags-add_selected [] = refl
older_flags-add_selected (e ∷ es) = refl

firsts-add_selected : (es : List Event) → firsts (add_selected 0 es) ≡ firsts es
firsts-add_selected [] = refl
firsts-add_selected (e ∷ es) = refl

abbrev with_first : Timeline → Timeline
with_first t = record t { contents = select_content 0 t.contents; events = add_selected 0 t.events }

select_event-none :
    (t : Timeline) → AllFalse (content_flags t.contents) → select_event t ≡ with_first t
unfolding select_event
select_event-none t a = ap (λ o. select_by o t) (selected_date-AllFalse t.contents a)

with_first-Classed :
    (t : Timeline)
    → 0 < length t.events
    → 0 < length t.contents
    → AllFalse (event_flags t.events)
    → AllFalse (older_flags t.events)
    → AllFalse (content_flags t.contents)
    → content_dates t.contents ≡ event_dates t.events
    → Unique (event_dates t.events)
    → Classed 0 (with_first t).events (with_first t).contents
with_first-Classed t n m a o c d u = record {
  event_at = first_event t.events n a;
  content_at = first_content t.contents m c;
  older = subst AllFalse (sym (older_flags-add_selected t.events)) o;
  dates = content_dates-select t.contents ∙ d ∙ sym (event_dates-add_selected 0 t.events);
  unique = subst Unique (sym (event_dates-add_selected 0 t.events)) u;
}

same_length :
    (es : List Event) (cs : List Content)
    → content_dates cs ≡ event_dates es
    → length cs ≡ length es
same_length es cs e =
    sym (length-map (λ (c : Content). c.date) cs)
    ∙ ap length e
    ∙ length-map (λ (e : Event). e.date) es

marked-Classed :
    (t : Timeline) {es : List Event} {cs : List Content}
    → Same es cs t.events t.contents
    → 0 < length cs
    → AllFalse (event_flags es)
    → AllFalse (older_flags es)
    → AllFalse (content_flags cs)
    → event_dates es ≡ content_dates cs
    → Unique (content_dates cs)
    → Classed 0 (with_first t).events (with_first t).contents
marked-Classed t {es} {cs} s n a o c d u =
    let e : content_dates t.contents ≡ event_dates t.events = s.shown_dates ∙ sym d ∙ sym s.dates in
    let l = same_length t.events t.contents e in
    let m : length t.contents ≡ length cs =
      sym (length-map (λ (c : Content). c.date) t.contents)
      ∙ ap length s.shown_dates
      ∙ length-map (λ (c : Content). c.date) cs in
    with_first-Classed t (omega (arith, l, m, n)) (omega (arith, m, n))
      (subst AllFalse (sym s.flags) a) (subst AllFalse (sym s.older) o)
      (subst AllFalse (sym s.shown) c) e (subst Unique (sym (s.dates ∙ d)) u)

-- From contents with different dates, of which each has a text in the chosen display and none has
-- the class `selected`, and at least one of them, the start makes the links, does not throw, and
-- ends in a timeline that shows the first event, with the class `first` on its first event alone.
pub init_timeline-Shows :
    (measure : Text → ℕ) (t : Timeline)
    → t.events ≡ []
    → 0 < length t.contents
    → Unique (content_dates t.contents)
    → All (Labelled t.settings.date_display) t.contents
    → AllFalse (content_flags t.contents)
    → (t' : Timeline) × (init_timeline measure t ≡ some t') × Shows 0 t' × IsAt 0 (firsts t'.events)
unfolding init_timeline
init_timeline-Shows measure t none_yet n u l a =
    let (es, p, d, plain) = create_date-dates measure t.settings.date_display t.contents u l in
    let t0 = record t { events = es } in
    let many : 0 < length es = omega (arith, same_length es t.contents (sym d)) in
    let (s, f) = add_ids_and_classes-Same t0 many (plain (λ e. e.first) (λ d text. refl)) in
    let t1 = add_ids_and_classes t0 in
    let c =
      marked-Classed t1 s n (plain (λ e. e.selected) (λ d text. refl))
        (plain (λ e. e.older_event) (λ d text. refl)) a d u in
    let (t', q, v, g, _) = lay_out-Shows 0 (with_first t1) c in
    let none_selected = subst AllFalse (sym s.shown) a in
    let go : List Event → Option Timeline =
      λ es. lay_out (select_event (add_ids_and_classes (record t { events = es }))) in
    (
      t',
      ap (λ xs. create_date measure t.settings.date_display append t.contents xs >>= go) none_yet
          ∙ ap (λ o. o >>= go) p
          ∙ ap lay_out (select_event-none t1 none_selected)
          ∙ q,
      v,
      subst (IsAt 0) (sym (g ∙ firsts-add_selected t1.events)) f,
    )
