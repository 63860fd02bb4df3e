-- ===== src/Timeline/Select/Classes.antt =====
-- What the choice of an event does to the classes of the links and of the contents.
use lso_project.Prelude.{
  ◌==◌, ℕ, zero, suc, ◌<◌, ◌≡◌, refl, sym, ap, ◌∙◌, Bool, true, false, List, [], ◌∷◌, map, arith,
  if◌then◌else◌, length, length-map, Text, text_eq,
}
use lso_project.Timeline.{Event, Content, event_flags, content_flags}
use lso_project.Timeline.Flags.{AllFalse, IsAt, IsBelow, toggled}
use lso_project.Timeline.Select.{
  is_selected, add_selected, remove_selected, remove_all, update_older_events, show_content,
  targets,
}

abbrev pub older_flags : List Event → List Bool
older_flags = map (λ (e : Event). e.older_event)

abbrev pub event_dates : List Event → List Text
event_dates = map (λ (e : Event). e.date)

abbrev pub content_dates : List Content → List Text
content_dates = map (λ (c : Content). c.date)

-- The list of flags with number k set.
abbrev pub single : ℕ → List Event → List Bool
single k [] = []
single zero (e ∷ es) = true ∷ map (λ _. false) es
single (suc k) (e ∷ es) = false ∷ single k es

pub IsAt-single : (k : ℕ) (es : List Event) → k < length es → IsAt k (single k es)
IsAt-single k [] h = absurd (omega arith)
IsAt-single zero (e ∷ es) h = (refl, none_set es)
  where
    none_set : (es : List Event) → AllFalse (map (λ (_ : Event). false) es)
    none_set [] = tt
    none_set (e ∷ es) = (refl, none_set es)
IsAt-single (suc k) (e ∷ es) h = (refl, IsAt-single k es (omega arith))

pub length-single : (k : ℕ) (es : List Event) → length (single k es) ≡ length (event_flags es)
length-single k [] = refl
length-single zero (e ∷ es) = ap suc (length-map _ es ∙ sym (length-map _ es))
length-single (suc k) (e ∷ es) = ap suc (length-single k es)

remove_selected-none :
    (es : List Event)
    → event_flags (remove_selected (event_flags es) es)
      ≡ toggled (event_flags es) (map (λ _. false) es)
remove_selected-none [] = refl
remove_selected-none (e ∷ es) = ground (arith, remove_selected-none es)

-- `addClass` at number k and then `removeClass` where the class was.
pub event_flags-reselect :
    (k : ℕ) (es : List Event)
    → event_flags (remove_selected (event_flags es) (add_selected k es))
      ≡ toggled (event_flags es) (single k es)
event_flags-reselect k [] = refl
event_flags-reselect zero (e ∷ es) = ground (arith, remove_selected-none es)
event_flags-reselect (suc k) (e ∷ es) = ground (arith, event_flags-reselect k es)

pub event_flags-remove_all :
    (k : ℕ) (es : List Event) → event_flags (add_selected k (remove_all es)) ≡ single k es
event_flags-remove_all k [] = refl
event_flags-remove_all zero (e ∷ es) = ap (λ bs. true ∷ bs) (go es)
  where
    go : (es : List Event) → event_flags (remove_all es) ≡ map (λ _. false) es
    go [] = refl
    go (e ∷ es) = ap (λ bs. false ∷ bs) (go es)
event_flags-remove_all (suc k) (e ∷ es) = ap (λ bs. false ∷ bs) (event_flags-remove_all k es)

abbrev unolder : Event → Event
unolder e = record e { older_event = false }

map-unolder :
    (es : List Event)
    → (event_flags (map unolder es) ≡ event_flags es)
      × (event_dates (map unolder es) ≡ event_dates es)
      × AllFalse (older_flags (map unolder es))
map-unolder [] = (refl, refl, tt)
map-unolder (e ∷ es) =
    let (p, q, r) = map-unolder es in
    (ap (λ bs. e.selected ∷ bs) p, ap (λ ds. e.date ∷ ds) q, (refl, r))

-- The older events leave the selection and the dates, and are those before number k, where that is
-- selected.
pub update_older_events-selected :
    (k : ℕ) (es : List Event)
    → is_selected k es ≡ true
    → (event_flags (update_older_events k es) ≡ event_flags es)
      × (event_dates (update_older_events k es) ≡ event_dates es)
      × IsBelow k (older_flags (update_older_events k es))
unfolding update_older_events
update_older_events-selected k [] h = cc
update_older_events-selected zero (e ∷ es) h =
    let (p, q, r) = map-unolder es in
    (ap (λ bs. e.selected ∷ bs) p, ap (λ ds. e.date ∷ ds) q, (rw h, r))
update_older_events-selected (suc k) (e ∷ es) h =
    let (p, q, r) = update_older_events-selected k es h in
    (ap (λ bs. e.selected ∷ bs) p, ap (λ ds. e.date ∷ ds) q, (refl, r))

none_selected : (j : ℕ) (es : List Event) → AllFalse (event_flags es) → is_selected j es ≡ false
none_selected j [] h = refl
none_selected zero (e ∷ es) h = h.0
none_selected (suc j) (e ∷ es) h = none_selected j es h.1

pub is_selected-IsAt :
    (j k : ℕ) (es : List Event) → IsAt k (event_flags es) → is_selected j es ≡ (j == k)
is_selected-IsAt j k [] h = absurd h
is_selected-IsAt zero zero (e ∷ es) h = h.0
is_selected-IsAt (suc j) zero (e ∷ es) h = none_selected j es h.1 ∙ ground arith
is_selected-IsAt zero (suc k) (e ∷ es) h = h.0 ∙ ground arith
is_selected-IsAt (suc j) (suc k) (e ∷ es) h = is_selected-IsAt j k es h.1 ∙ ground arith

pub update_older_events_lem :
    (k : ℕ) (es : List Event)
    → IsAt k (event_flags es)
    → (event_flags (update_older_events k es) ≡ event_flags es)
      × (event_dates (update_older_events k es) ≡ event_dates es)
      × IsBelow k (older_flags (update_older_events k es))
update_older_events_lem k es h =
    update_older_events-selected k es (is_selected-IsAt k k es h ∙ ground arith)

pub event_dates-add_selected :
    (k : ℕ) (es : List Event) → event_dates (add_selected k es) ≡ event_dates es
event_dates-add_selected k [] = refl
event_dates-add_selected zero (e ∷ es) = refl
event_dates-add_selected (suc k) (e ∷ es) = ap (λ ds. e.date ∷ ds) (event_dates-add_selected k es)

pub event_dates-remove_selected :
    (bs : List Bool) (es : List Event) → event_dates (remove_selected bs es) ≡ event_dates es
event_dates-remove_selected [] es = refl
event_dates-remove_selected (b ∷ bs) [] = refl
event_dates-remove_selected (b ∷ bs) (e ∷ es) =
    ap (λ ds. e.date ∷ ds) (event_dates-remove_selected bs es)

pub event_dates-remove_all : (es : List Event) → event_dates (remove_all es) ≡ event_dates es
event_dates-remove_all [] = refl
event_dates-remove_all (e ∷ es) = ap (λ ds. e.date ∷ ds) (event_dates-remove_all es)

-- The contents: the chosen one gets the class, the visible one loses it.
pub content_flags-show :
    (date : Text) (right : Bool) (cs : List Content)
    → (content_flags (map (show_content date right) cs)
        ≡ toggled (content_flags cs) (targets date cs))
      × (content_dates (map (show_content date right) cs) ≡ content_dates cs)
unfolding show_content
content_flags-show date right [] = (refl, refl)
content_flags-show date right (c ∷ cs) =
    let (p, q) = content_flags-show date right cs in
    (
      ap (λ bs. (if c.selected then false else text_eq date c.date) ∷ bs) p,
      ap (λ ds. c.date ∷ ds) q,
    )
