-- ===== src/Timeline/Select/Shows.antt =====
-- When a timeline shows an event, and what the choice of another one has to rely on.
use mathlib.Core.Path.{subst}
use lso_project.Prelude.{
  ℕ, zero, suc, ◌<◌, ◌≡◌, refl, sym, ap, Bool, false, some, List, [], ◌∷◌, map, arith, length,
  get_elem?, last?, Text, text_eq, text_eq_refl,
}
use lso_project.Timeline.{Event, Content, Timeline, event_flags, content_flags}
use lso_project.Timeline.Flags.{AllFalse, IsAt, IsBelow}
use lso_project.Timeline.Scroll.Bounds.{InRange}
use lso_project.Timeline.Layout.{selected_event}
use lso_project.Timeline.Select.{targets}
use lso_project.Timeline.Select.Classes.{older_flags, event_dates, content_dates}

-- No date stands twice.
abbrev pub Differs : Text → List Text → Type 0
Differs d [] = Unit
Differs d (x ∷ xs) = (text_eq d x ≡ false) × (text_eq x d ≡ false) × Differs d xs

abbrev pub Unique : List Text → Type 0
Unique [] = Unit
Unique (d ∷ ds) = Differs d ds × Unique ds

-- Event number k and its content are the selected ones, the events before it the older ones, and
-- the timeline is in range. Links and contents have the same dates, all different.
pub record Shows (k : ℕ) (t : Timeline) : Type 0 where
  pub event_at : IsAt k (event_flags t.events)
  pub content_at : IsAt k (content_flags t.contents)
  pub older : IsBelow k (older_flags t.events)
  pub dates : content_dates t.contents ≡ event_dates t.events
  pub unique : Unique (event_dates t.events)
  pub in_range : InRange t

-- The contents that a date names.
abbrev pub hits : Text → List Text → List Bool
hits d = map (text_eq d)

hits-Differs : (d : Text) (ds : List Text) → Differs d ds → AllFalse (hits d ds)
hits-Differs d [] u = tt
hits-Differs d (x ∷ xs) u = (u.0, hits-Differs d xs u.2)

pub Differs-get :
    (d x : Text) (ds : List Text) (j : ℕ)
    → Differs d ds
    → get_elem? ds j ≡ some x
    → text_eq x d ≡ false
Differs-get d x [] j u e = cc
Differs-get d x (y ∷ ds) zero u e = ground (arith, u.1)
Differs-get d x (y ∷ ds) (suc j) u e = Differs-get d x ds j u.2 e

pub IsAt-hits :
    (j : ℕ) (ds : List Text) (d : Text) → Unique ds → get_elem? ds j ≡ some d → IsAt j (hits d ds)
IsAt-hits j [] d u e = cc
IsAt-hits zero (x ∷ xs) d u e =
    let q : x ≡ d = cc in
    subst (λ y. IsAt zero (hits y (x ∷ xs))) q (text_eq_refl x, hits-Differs x xs u.0)
IsAt-hits (suc j) (x ∷ xs) d u e = (Differs-get x d xs j u.0 e, IsAt-hits j xs d u.1 e)

targets-hits : (d : Text) (cs : List Content) → targets d cs ≡ hits d (content_dates cs)
targets-hits d [] = refl
targets-hits d (c ∷ cs) = ap (λ bs. text_eq d c.date ∷ bs) (targets-hits d cs)

get_elem?-event_dates :
    (es : List Event) (j : ℕ) (e : Event)
    → get_elem? es j ≡ some e
    → get_elem? (event_dates es) j ≡ some e.date
get_elem?-event_dates [] j e h = cc
get_elem?-event_dates (x ∷ es) zero e h = ground arith
get_elem?-event_dates (x ∷ es) (suc j) e h = get_elem?-event_dates es j e h

pub get_elem?-of_lt {ℓ} :
    {A : Type ℓ} (xs : List A) (j : ℕ) → j < length xs → (x : A) × (get_elem? xs j ≡ some x)
get_elem?-of_lt [] j h = absurd (omega arith)
get_elem?-of_lt (x ∷ xs) zero h = (x, refl)
get_elem?-of_lt (x ∷ xs) (suc j) h = get_elem?-of_lt xs j (omega arith)

-- In a timeline that shows an event the targets of event number j are content number j alone.
pub targets-IsAt :
    {k : ℕ} {t : Timeline} (j : ℕ) (e : Event)
    → Shows k t
    → get_elem? t.events j ≡ some e
    → IsAt j (targets e.date t.contents)
targets-IsAt {t} j e v h =
    rw (targets-hits e.date t.contents, v.dates)
      (IsAt-hits j (event_dates t.events) e.date v.unique (get_elem?-event_dates t.events j e h))

pub selected_event-IsAt :
    (k : ℕ) (es : List Event) → IsAt k (event_flags es) → (e : Event) × (selected_event es ≡ some e)
selected_event-IsAt k [] h = absurd h
selected_event-IsAt zero (e ∷ es) h = (e, rw h.0)
selected_event-IsAt (suc k) (e ∷ es) h = let (d, p) = selected_event-IsAt k es h.1 in (d, rw h.0 p)

pub last?-IsAt :
    (k : ℕ) (es : List Event) → IsAt k (event_flags es) → (e : Event) × (last? es ≡ some e)
last?-IsAt k [] h = absurd h
last?-IsAt k (e ∷ []) h = (e, refl)
last?-IsAt zero (e ∷ d ∷ es) h = go (d ∷ es) (omega arith)
  where
    go : (es : List Event) → 0 < length es → (e : Event) × (last? es ≡ some e)
    go [] h = absurd (omega arith)
    go (e ∷ []) h = (e, refl)
    go (e ∷ d ∷ es) h = go (d ∷ es) (omega arith)
last?-IsAt (suc k) (e ∷ d ∷ es) h = last?-IsAt k (d ∷ es) h.1

date_flags-hits :
    (d : Text) (es : List Event)
    → map (λ (e : Event). text_eq d e.date) es ≡ hits d (event_dates es)
date_flags-hits d [] = refl
date_flags-hits d (e ∷ es) = ap (λ bs. text_eq d e.date ∷ bs) (date_flags-hits d es)

-- The place of a date among links with different dates.
pub date_flags-IsAt :
    (d : Text) (j : ℕ) (es : List Event)
    → Unique (event_dates es)
    → get_elem? (event_dates es) j ≡ some d
    → IsAt j (map (λ (e : Event). text_eq d e.date) es)
date_flags-IsAt d j es u h =
    subst (IsAt j) (sym (date_flags-hits d es)) (IsAt-hits j (event_dates es) d u h)
