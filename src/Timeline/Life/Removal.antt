-- ===== src/Timeline/Life/Removal.antt =====
-- `removeEvent` of an event that there is.
use lso_project.Prelude.{
  ℕ, zero, suc, ◌<◌, ◌≡◌, refl, sym, ap, ◌∙◌, true, some, List, [], ◌∷◌, map, lt→ltb, length,
  get_elem?, Text, text_eq, text_eq_refl,
}
use lso_project.Timeline.{Event, Content, Timeline}
use mathlib.Core.Path.{subst}
use lso_project.Timeline.Flags.{find_index-IsAt}
use lso_project.Timeline.Select.Classes.{event_dates, content_dates}
use lso_project.Timeline.Select.Shows.{Differs, Unique, Shows, Differs-get, date_flags-IsAt}
use lso_project.Timeline.Life.{without, find_date, drop_event, remove_event}
use lso_project.Timeline.Life.Placed.{Classed, Ready, Classed-Shows}
use lso_project.Timeline.Life.Again.{refresh-Ready}
use lso_project.Timeline.Life.Flagged.{remove_at, map-remove_at}
use lso_project.Timeline.Life.Passed.{seat, passed, passed_contents, Passed-any}

without-Differs {ℓ} :
    {A : Type ℓ} (f : A → Text) (d : Text) (xs : List A)
    → Differs d (map f xs)
    → without f d xs ≡ xs
without-Differs f d [] u = refl
without-Differs f d (x ∷ xs) u = rw (u.0) (ap (λ ys. x ∷ ys) (without-Differs f d xs u.2))

without-remove_at {ℓ} :
    {A : Type ℓ} (f : A → Text) (d : Text) (j : ℕ) (xs : List A)
    → Unique (map f xs)
    → get_elem? (map f xs) j ≡ some d
    → without f d xs ≡ remove_at j xs
without-remove_at f d j [] u h = refl
without-remove_at f d zero (x ∷ xs) u h =
    let q : f x ≡ d = cc in
    let e : text_eq d (f x) ≡ true = ap (λ s. text_eq d s) q ∙ text_eq_refl d in
    rw e (without-Differs f d xs (subst (λ s. Differs s (map f xs)) q u.0))
without-remove_at f d (suc j) (x ∷ xs) u h =
    rw (Differs-get (f x) d (map f xs) j u.0 h)
      (ap (λ ys. x ∷ ys) (without-remove_at f d j xs u.1 h))

drop_event-Classed :
    (j k : ℕ) (d : Text) (t : Timeline)
    → Shows k t
    → get_elem? (event_dates t.events) j ≡ some d
    → 1 < length t.events
    → Classed
        (seat (length t.events) j k)
        (drop_event d (some j) t).events
        (drop_event d (some j) t).contents
      × (event_dates (drop_event d (some j) t).events ≡ remove_at j (event_dates t.events))
drop_event-Classed j k d t v h more =
    let p = Passed-any j k t.events t.contents (Classed-Shows v) more in
    let cs = passed_contents j t.events t.contents in
    let at : get_elem? (event_dates (passed j t.events)) j ≡ some d =
      ap (λ ds. get_elem? ds j) p.dates ∙ h in
    let at' : get_elem? (content_dates cs) j ≡ some d =
      ap (λ ds. get_elem? ds j) (p.shown_dates ∙ v.dates) ∙ h in
    rw
      (
        without-remove_at (λ (e : Event). e.date) d j (passed j t.events)
            (subst Unique (sym p.dates) v.unique) at,
        without-remove_at (λ (c : Content). c.date) d j cs
            (subst Unique (sym (p.shown_dates ∙ v.dates)) v.unique) at',
      )
      (
        p.left,
        map-remove_at (λ (e : Event). e.date) j (passed j t.events) ∙ ap (remove_at j) p.dates,
      )

-- On a timeline of two events or more that shows event k, `removeEvent` of the date of event j
-- succeeds: exactly that event is gone, the class `first` is on the first event alone, and the
-- timeline shows the event that was selected, now at k - 1 where j stood before it; where the
-- selected event itself goes, it shows the one after it, or the one before it where there is none
-- after.
pub remove_event-Ready :
    (j k : ℕ) (d : Text) (t : Timeline)
    → Shows k t
    → get_elem? (event_dates t.events) j ≡ some d
    → 1 < length t.events
    → (t' : Timeline) × (remove_event d t ≡ some t')
      × Ready (seat (length t.events) j k) (remove_at j (event_dates t.events)) t'
unfolding remove_event
remove_event-Ready j k d t v h more =
    let found : find_date d t.events ≡ some j =
      find_index-IsAt j (map (λ (e : Event). text_eq d e.date) t.events)
        (date_flags-IsAt d j t.events v.unique h) in
    let (c, dates) = drop_event-Classed j k d t v h more in
    let (t', p, r) = refresh-Ready (seat (length t.events) j k) (drop_event d (some j) t) c in
    (
      t',
      rw (lt→ltb 1 (length t.events) more, found) p,
      subst (λ ds. Ready (seat (length t.events) j k) ds t') dates r,
    )
