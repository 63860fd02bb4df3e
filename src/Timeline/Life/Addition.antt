-- ===== src/Timeline/Life/Addition.antt =====
-- `addEvent` of an event whose date is new.
use lso_project.Prelude.{
  ℕ, zero, suc, ◌≡◌, refl, sym, ap, ◌∙◌, inl, inr, Bool, true, false, some, List, [], ◌∷◌, ◌++◌,
  map, arith, leb, if◌then◌else◌, leb→le, Bool-cases, get_elem?, Text, text_eq, text_eq_refl,
}
use lso_project.Timeline.{DateDisplay, Event, Content, Timeline, event_flags, content_flags}
use mathlib.Core.Path.{subst}
use lso_project.Timeline.Flags.{IsAt, find_index-IsAt}
use lso_project.Timeline.Select.{update_older_events}
use lso_project.Timeline.Select.Classes.{event_dates, content_dates, update_older_events_lem}
use lso_project.Timeline.Select.Shows.{Differs, Unique, Shows, Differs-get}
use lso_project.Timeline.Life.Placed.{Classed, Ready, Classed-Shows}
use lso_project.Timeline.Life.Again.{refresh-Ready}
use lso_project.Timeline.Labels.{
  link, InsertMethod, append, after, before, insert_after, insert_before, insert, date_exists,
  event_date_display, create_date,
}
use lso_project.Timeline.Labels.Dates.{Labelled}
use lso_project.Timeline.Life.{insert_content, in_array, add_event}
use lso_project.Timeline.Life.Flagged.{
  insert_at, map-insert_at, IsAt-insert_front, IsAt-insert_back,
}

-- The place of an element that is inserted beside element j, which has the date d.
abbrev pub Beside : InsertMethod → Text → ℕ → ℕ → Type 0
Beside append d j p = ⊥
Beside (after e) d j p = (e ≡ d) × (p ≡ suc j)
Beside (before e) d j p = (e ≡ d) × (p ≡ j)

module _ {ℓ} {A : Type ℓ} (f : A → Text) (d : Text) (x : A) where
  insert_after-Differs : (ys : List A) → Differs d (map f ys) → insert_after f d x ys ≡ ys
  insert_after-Differs [] u = refl
  insert_after-Differs (y ∷ ys) u = rw (u.0) (ap (λ zs. y ∷ zs) (insert_after-Differs ys u.2))

  insert_before-Differs : (ys : List A) → Differs d (map f ys) → insert_before f d x ys ≡ ys
  insert_before-Differs [] u = refl
  insert_before-Differs (y ∷ ys) u = rw (u.0) (ap (λ zs. y ∷ zs) (insert_before-Differs ys u.2))

  same_date :
      (y : A) (ys : List A)
      → some (f y) ≡ some d
      → Differs (f y) (map f ys)
      → (text_eq d (f y) ≡ true) × Differs d (map f ys)
  same_date y ys h u =
      let q : f y ≡ d = cc in
      (ap (λ s. text_eq d s) q ∙ text_eq_refl d, subst (λ s. Differs s (map f ys)) q u)

  insert_after-at :
      (j : ℕ) (ys : List A)
      → Unique (map f ys)
      → get_elem? (map f ys) j ≡ some d
      → insert_after f d x ys ≡ insert_at (suc j) x ys
  insert_after-at j [] u h = cc
  insert_after-at zero (y ∷ ys) u h =
      let (e, v) = same_date y ys h u.0 in rw (e, insert_after-Differs ys v) refl
  insert_after-at (suc j) (y ∷ ys) u h =
      rw (Differs-get (f y) d (map f ys) j u.0 h) (ap (λ zs. y ∷ zs) (insert_after-at j ys u.1 h))

  insert_before-at :
      (j : ℕ) (ys : List A)
      → Unique (map f ys)
      → get_elem? (map f ys) j ≡ some d
      → insert_before f d x ys ≡ insert_at j x ys
  insert_before-at j [] u h = cc
  insert_before-at zero (y ∷ ys) u h =
      let (e, v) = same_date y ys h u.0 in rw (e, insert_before-Differs ys v) refl
  insert_before-at (suc j) (y ∷ ys) u h =
      rw (Differs-get (f y) d (map f ys) j u.0 h) (ap (λ zs. y ∷ zs) (insert_before-at j ys u.1 h))

insert_content-Beside :
    (method : InsertMethod) (d : Text) (j p : ℕ) (c : Content) (cs : List Content)
    → Beside method d j p
    → Unique (content_dates cs)
    → get_elem? (content_dates cs) j ≡ some d
    → insert_content method c cs ≡ insert_at p c cs
insert_content-Beside append d j p c cs b u h = absurd b
insert_content-Beside (after e) d j p c cs b u h =
    rw (b.0, b.1) (insert_after-at (λ (c : Content). c.date) d c j cs u h)
insert_content-Beside (before e) d j p c cs b u h =
    rw (b.0, b.1) (insert_before-at (λ (c : Content). c.date) d c j cs u h)

insert-Beside :
    (method : InsertMethod) (d : Text) (j p : ℕ) (e : Event) (es : List Event)
    → Beside method d j p
    → Unique (event_dates es)
    → get_elem? (event_dates es) j ≡ some d
    → insert method e es ≡ insert_at p e es
unfolding insert
insert-Beside append d j p e es b u h = absurd b
insert-Beside (after x) d j p e es b u h =
    rw (b.0, b.1) (insert_after-at (λ (e : Event). e.date) d e j es u h)
insert-Beside (before x) d j p e es b u h =
    rw (b.0, b.1) (insert_before-at (λ (e : Event). e.date) d e j es u h)

-- Each of the dates has a link.
abbrev Known : List Text → List Event → Type 0
Known [] es = Unit
Known (d ∷ ds) es = (date_exists d es ≡ true) × Known ds es

Known-cons : (e : Event) (ds : List Text) (es : List Event) → Known ds es → Known ds (e ∷ es)
Known-cons e [] es k = tt
Known-cons e (d ∷ ds) es k = (ground (arith, k.0), Known-cons e ds es k.1)

Known-dates : (es : List Event) → Known (event_dates es) es
Known-dates [] = tt
Known-dates (e ∷ es) =
    (ground (arith, text_eq_refl e.date), Known-cons e (event_dates es) es (Known-dates es))

date_exists-insert_at :
    (p : ℕ) (x : Event) (d : Text) (es : List Event)
    → date_exists d es ≡ true
    → date_exists d (insert_at p x es) ≡ true
date_exists-insert_at zero x d es h = ground (arith, h)
date_exists-insert_at (suc p) x d [] h = cc
date_exists-insert_at (suc p) x d (e ∷ es) h = elim (Bool-cases (text_eq d e.date)) [
  | inl is ↦ ground (arith, is)
  | inr is_not ↦
      let rest : date_exists d es ≡ true = ground (arith, h, is_not) in
      ground (arith, date_exists-insert_at p x d es rest)
]

Known-insert_at :
    (p : ℕ) (x : Event) (ds : List Text) (es : List Event)
    → Known ds es
    → Known ds (insert_at p x es)
Known-insert_at p x [] es k = tt
Known-insert_at p x (d ∷ ds) es k =
    (date_exists-insert_at p x d es k.0, Known-insert_at p x ds es k.1)

date_exists-Differs :
    (d : Text) (es : List Event) → Differs d (event_dates es) → date_exists d es ≡ false
date_exists-Differs d [] u = refl
date_exists-Differs d (e ∷ es) u = ground (arith, u.0, date_exists-Differs d es u.2)

module _ (measure : Text → ℕ) (display : DateDisplay) (method : InsertMethod) where
  create_date-Known :
      (cs : List Content) (es : List Event)
      → Known (content_dates cs) es
      → create_date measure display method cs es ≡ some es
  unfolding create_date event_date_display
  create_date-Known [] es k = refl
  create_date-Known (c ∷ cs) es k = rw (k.0) (create_date-Known cs es k.1)

  -- Of the contents only one has no link yet.
  create_date-one :
      (q p : ℕ) (c : Content) (cs : List Content) (es : List Event)
      → (l : Labelled display c) → date_exists c.date es ≡ false
      → insert method (link measure c.date l.0) es ≡ insert_at p (link measure c.date l.0) es
      → Known (content_dates cs) es
      → create_date measure display method (insert_at q c cs) es
        ≡ some (insert_at p (link measure c.date l.0) es)
  unfolding create_date event_date_display
  create_date-one zero p c cs es l new at k =
      rw (new, l.1, at) (create_date-Known cs _ (Known-insert_at p _ (content_dates cs) es k))
  create_date-one (suc q) p c [] es l new at k = rw (new, l.1, at) refl
  create_date-one (suc q) p c (x ∷ cs) es l new at k =
      rw (k.0) (create_date-one q p c cs es l new at k.1)

-- Where event k is after another one has come to place p.
abbrev pub moved : ℕ → ℕ → ℕ
moved p k = if leb p k then suc k else k

IsAt-moved : (p k : ℕ) (bs : List Bool) → IsAt k bs → IsAt (moved p k) (insert_at p false bs)
IsAt-moved p k bs h = elim (Bool-cases (leb p k)) [
  | inl le ↦ rw le (IsAt-insert_front p k bs (leb→le p k le) h)
  | inr gt ↦ rw gt (IsAt-insert_back p k bs (ground arith) h)
]

Differs-insert_at :
    (p : ℕ) (x d : Text) (ds : List Text)
    → Differs x ds
    → text_eq x d ≡ false
    → text_eq d x ≡ false
    → Differs x (insert_at p d ds)
Differs-insert_at zero x d ds u a b = (a, b, u)
Differs-insert_at (suc p) x d [] u a b = (a, b, tt)
Differs-insert_at (suc p) x d (y ∷ ds) u a b = (u.0, u.1, Differs-insert_at p x d ds u.2 a b)

Unique-insert_at :
    (p : ℕ) (d : Text) (ds : List Text) → Unique ds → Differs d ds → Unique (insert_at p d ds)
Unique-insert_at zero d ds u n = (n, u)
Unique-insert_at (suc p) d [] u n = (tt, tt)
Unique-insert_at (suc p) d (y ∷ ds) u n =
    (Differs-insert_at p y d ds u.0 n.1 n.0, Unique-insert_at p d ds u.1 n.2)

Classed-insert_at :
    (p k : ℕ) (x : Event) (c : Content) (es : List Event) (cs : List Content)
    → Classed k es cs
    → x.selected ≡ false
    → c.selected ≡ false
    → x.date ≡ c.date
    → Differs c.date (event_dates es)
    → Classed (moved p k) (update_older_events (moved p k) (insert_at p x es)) (insert_at p c cs)
      × (event_dates (update_older_events (moved p k) (insert_at p x es))
          ≡ insert_at p c.date (event_dates es))
      × IsAt (moved p k) (event_flags (insert_at p x es))
Classed-insert_at p k x c es cs h xs cs' same new =
    let flags : event_flags (insert_at p x es) ≡ insert_at p false (event_flags es) =
      map-insert_at (λ (e : Event). e.selected) p x es
      ∙ ap (λ b. insert_at p b (event_flags es)) xs in
    let shown : content_flags (insert_at p c cs) ≡ insert_at p false (content_flags cs) =
      map-insert_at (λ (c : Content). c.selected) p c cs
      ∙ ap (λ b. insert_at p b (content_flags cs)) cs' in
    let dates : event_dates (insert_at p x es) ≡ insert_at p c.date (event_dates es) =
      map-insert_at (λ (e : Event). e.date) p x es
      ∙ ap (λ d. insert_at p d (event_dates es)) same in
    let at = subst (IsAt (moved p k)) (sym flags) (IsAt-moved p k (event_flags es) h.event_at) in
    let (a, b, o) = update_older_events_lem (moved p k) (insert_at p x es) at in
    (
      record {
        event_at = subst (IsAt (moved p k)) (sym a) at;
        content_at =
            subst (IsAt (moved p k)) (sym shown) (IsAt-moved p k (content_flags cs) h.content_at);
        older = o;
        dates =
            map-insert_at (λ (c : Content). c.date) p c cs
            ∙ ap (insert_at p c.date) h.dates
            ∙ sym dates
            ∙ sym b;
        unique =
            subst Unique (sym (b ∙ dates))
              (Unique-insert_at p c.date (event_dates es) h.unique new);
      },
      b ∙ dates,
      at,
    )

-- On a timeline that shows event k, `addEvent` of a content before or after event j, which does not have the class
-- `selected` and whose date is new and has a text in the chosen display, succeeds: the timeline has one event more, with that
-- date, at the place asked for; it still shows the same event, now at k + 1 where the new one
-- stands before it, and the class `first` is on the first event alone.
pub add_event-Ready :
    (measure : Text → ℕ) (method : InsertMethod) (d : Text) (j k p : ℕ) (c : Content) (t : Timeline)
    → Shows k t
    → get_elem? (event_dates t.events) j ≡ some d
    → Beside method d j p
    → in_array c.date t.existing_dates ≡ false
    → Differs c.date (event_dates t.events)
    → Labelled t.settings.date_display c
    → c.selected ≡ false
    → (t' : Timeline) × (add_event measure method c t ≡ some t')
      × Ready (moved p k) (insert_at p c.date (event_dates t.events)) t'
unfolding add_event
add_event-Ready measure method d j k p c t v h b absent new l plain =
    let x = link measure c.date l.0 in
    let (classed, dates, at) =
      Classed-insert_at p k x c t.events t.contents (Classed-Shows v) refl plain refl new in
    let contents : insert_content method c t.contents ≡ insert_at p c t.contents =
      insert_content-Beside method d j p c t.contents b (subst Unique (sym v.dates) v.unique)
        (ap (λ ds. get_elem? ds j) v.dates ∙ h) in
    let made : create_date measure t.settings.date_display method (insert_at p c t.contents)
          t.events
        ≡ some (insert_at p x t.events) =
      create_date-one measure t.settings.date_display method p p c t.contents t.events l
        (date_exists-Differs c.date t.events new)
        (insert-Beside method d j p x t.events b v.unique h)
        (subst (λ ds. Known ds t.events) (sym v.dates) (Known-dates t.events)) in
    let whole = record t {
      existing_dates = t.existing_dates ++ c.date ∷ [];
      contents = insert_at p c t.contents;
      events = update_older_events (moved p k) (insert_at p x t.events);
    } in
    let (t', q, r) = refresh-Ready (moved p k) whole classed in
    (
      t',
      rw
          (
            absent,
            contents,
            made,
            find_index-IsAt (moved p k) (event_flags (insert_at p x t.events)) at,
          )
          q,
      subst (λ ds. Ready (moved p k) ds t') dates r,
    )
