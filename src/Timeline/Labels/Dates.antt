-- ===== src/Timeline/Labels/Dates.antt =====
-- The dates of the links that are made.
use lso_project.Prelude.{
  ℕ, ◌≡◌, refl, sym, ap, ◌∙◌, Bool, false, some, List, [], ◌∷◌, ◌++◌, map, append_assoc, append-nil,
  arith, All, Text, text_eq,
}
use lso_project.Timeline.{DateDisplay, Event, Content, ◌>>=◌}
use lso_project.Timeline.Select.Classes.{event_dates, content_dates}
use lso_project.Timeline.Flags.{AllFalse}
use lso_project.Timeline.Select.Shows.{Differs, Unique}
use lso_project.Timeline.Labels.{
  label_of, link, append, insert, date_exists, insert_label, event_date_display, create_date,
}

-- The content's date has a text, in the chosen display.
abbrev pub Labelled : DateDisplay → Content → Type 0
Labelled display c = (text : Text) × (label_of display c ≡ some (some text))

-- None of the dates has a link.
abbrev Fresh : List Text → List Event → Type 0
Fresh [] es = Unit
Fresh (d ∷ ds) es = (date_exists d es ≡ false) × Fresh ds es

date_exists-append :
    (d : Text) (es : List Event) (x : Event)
    → date_exists d es ≡ false
    → text_eq d x.date ≡ false
    → date_exists d (es ++ x ∷ []) ≡ false
date_exists-append d [] x h e = ground (arith, e)
date_exists-append d (y ∷ es) x h e =
    let front : text_eq d y.date ≡ false = ground (arith, h) in
    let back : date_exists d es ≡ false = ground (arith, h) in
    ground (arith, front, date_exists-append d es x back e)

Fresh-append :
    (ds : List Text) (es : List Event) (x : Event)
    → Fresh ds es
    → Differs x.date ds
    → Fresh ds (es ++ x ∷ [])
Fresh-append [] es x f u = tt
Fresh-append (d ∷ ds) es x f u = (date_exists-append d es x f.0 u.1, Fresh-append ds es x f.1 u.2)

Fresh-none : (ds : List Text) → Fresh ds []
Fresh-none [] = tt
Fresh-none (d ∷ ds) = (refl, Fresh-none ds)

event_dates-append :
    (es : List Event) (x : Event) → event_dates (es ++ x ∷ []) ≡ event_dates es ++ x.date ∷ []
event_dates-append [] x = refl
event_dates-append (e ∷ es) x = ap (λ ds. e.date ∷ ds) (event_dates-append es x)

new_link :
    (measure : Text → ℕ) (display : DateDisplay) (c : Content) (es : List Event)
    → date_exists c.date es ≡ false
    → (l : Labelled display c)
    → event_date_display measure display append c es ≡ some (es ++ link measure c.date l.0 ∷ [])
unfolding event_date_display insert
new_link measure display c es h l =
    rw h (ap (λ o. o >>= λ text. some (insert_label measure append c.date text es)) (l.1))

-- A flag that no new link has.
abbrev pub Plain : (Text → ℕ) → (Event → Bool) → Type 0
Plain measure f = (d text : Text) → f (link measure d text) ≡ false

AllFalse-append :
    (f : Event → Bool) (es : List Event) (x : Event)
    → AllFalse (map f es)
    → f x ≡ false
    → AllFalse (map f (es ++ x ∷ []))
AllFalse-append f [] x a p = (p, tt)
AllFalse-append f (e ∷ es) x a p = (a.0, AllFalse-append f es x a.1 p)

create_from :
    (measure : Text → ℕ) (display : DateDisplay) (cs : List Content) (es : List Event)
    → Unique (content_dates cs)
    → Fresh (content_dates cs) es
    → All (Labelled display) cs
    → (es' : List Event) × (create_date measure display append cs es ≡ some es')
      × (event_dates es' ≡ event_dates es ++ content_dates cs)
      × ((f : Event → Bool) → Plain measure f → AllFalse (map f es) → AllFalse (map f es'))
unfolding create_date
create_from measure display [] es u f l =
    (es, refl, sym (append-nil (event_dates es)), λ g plain a. a)
create_from measure display (c ∷ cs) es u f l =
    let x = link measure c.date l.0.0 in
    let (es', p, q, r) =
      create_from measure display cs (es ++ x ∷ []) u.1
        (Fresh-append (content_dates cs) es x f.1 u.0) l.1 in
    (
      es',
      ap (λ o. o >>= create_date measure display append cs) (new_link measure display c es f.0 l.0)
          ∙ p,
      q
          ∙ ap (λ ds. ds ++ content_dates cs) (event_dates-append es x)
          ∙ append_assoc (event_dates es) (c.date ∷ []) (content_dates cs),
      λ g plain a. r g plain (AllFalse-append g es x a (plain c.date l.0.0)),
    )

-- If the contents' dates are all different and each has a text in the chosen display, `_create`
-- makes exactly one link for each content, in their order and with their dates, and does not throw;
-- a class that no new link has is on none of them.
pub create_date-dates :
    (measure : Text → ℕ) (display : DateDisplay) (cs : List Content)
    → Unique (content_dates cs)
    → All (Labelled display) cs
    → (es : List Event) × (create_date measure display append cs [] ≡ some es)
      × (event_dates es ≡ content_dates cs)
      × ((f : Event → Bool) → Plain measure f → AllFalse (map f es))
create_date-dates measure display cs u l =
    let (es, p, q, r) = create_from measure display cs [] u (Fresh-none (content_dates cs)) l in
    (es, p, q, λ f plain. r f plain tt)
