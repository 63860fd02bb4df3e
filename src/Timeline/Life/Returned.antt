-- ===== src/Timeline/Life/Returned.antt =====
-- `addEvent` of a date that `removeEvent` took away.
use lso_project.Prelude.{
  ℕ, zero, suc, ◌<◌, ◌≡◌, refl, sym, ap, ◌∙◌, true, some, List, [], ◌∷◌, arith, length, get_elem?,
  Text, text_eq, text_eq_refl,
}
use lso_project.Timeline.{Content, Timeline}
use mathlib.Core.Path.{subst}
use lso_project.Timeline.Select.Classes.{event_dates}
use lso_project.Timeline.Select.Shows.{Shows}
use lso_project.Timeline.Life.{remove_event}
use lso_project.Timeline.Life.Flagged.{remove_at}
use lso_project.Timeline.Labels.{InsertMethod}
use lso_project.Timeline.Life.{in_array, add_event}
use lso_project.Timeline.Holds.{Holds}
use lso_project.Timeline.Life.Untouched.{Untouched, remove_event-Untouched}
use lso_project.Timeline.Life.Removal.{remove_event-Ready}

in_array-get : (d : Text) (ds : List Text) (j : ℕ) → get_elem? ds j ≡ some d → in_array d ds ≡ true
in_array-get d [] j h = cc
in_array-get d (x ∷ ds) zero h =
    let q : d ≡ x = cc in
    let e : text_eq d x ≡ true = ap (λ s. text_eq d s) (sym q) ∙ text_eq_refl d in ground (arith, e)
in_array-get d (x ∷ ds) (suc j) h = ground (arith, in_array-get d ds j h)

-- On a timeline of two events or more that shows event k, after `removeEvent` of the date of event
-- j, which is one of those noted as existing, `addEvent` of a content with that date leaves the
-- timeline as it is, without the date, whatever the place asked for: an event that was removed
-- cannot come back.
pub add_event-removed :
    (measure : Text → ℕ) (method : InsertMethod) (j k i : ℕ) (c : Content) (t : Timeline)
    → Shows k t
    → get_elem? (event_dates t.events) j ≡ some c.date
    → get_elem? t.existing_dates i ≡ some c.date
    → 1 < length t.events
    → (t' : Timeline) × (remove_event c.date t ≡ some t')
      × (add_event measure method c t' ≡ some t')
      × (event_dates t'.events ≡ remove_at j (event_dates t.events))
unfolding add_event
add_event-removed measure method j k i c t v h noted more =
    let (t', p, r) = remove_event-Ready j k c.date t v h more in
    let kept : Untouched t t' = subst (Holds (Untouched t)) p (remove_event-Untouched c.date t) in
    let same : t'.existing_dates ≡ t.existing_dates = kept.existing_dates in
    let there : in_array c.date t'.existing_dates ≡ true =
      ap (in_array c.date) same ∙ in_array-get c.date t.existing_dates i noted in
    (t', p, rw there refl, r.has_dates)
