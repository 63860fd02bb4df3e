-- ===== src/Timeline/Life/Passed.antt =====
-- What `removeEvent` leaves of the classes of the links and the contents.
use lso_project.Prelude.{
  ℕ, zero, suc, ◌-◌, ◌≤◌, ◌<◌, ◌≡◌, refl, sym, ap, ◌∙◌, ◌⊎◌, inl, inr, Bool, true, false, some,
  List, [], ◌∷◌, arith, ltb, ◌==◌, if◌then◌else◌, ltb→lt, Bool-cases, length, length-map, Text,
}
use lso_project.Timeline.{Event, Content, find_index, event_flags, content_flags}
use mathlib.Core.Path.{subst}
use lso_project.Timeline.Flags.{IsAt, IsBelow, find_index-IsAt, lt_of_IsAt}
use lso_project.Timeline.Select.{is_selected, add_selected, update_older_events}
use lso_project.Timeline.Select.Classes.{
  older_flags, event_dates, content_dates, update_older_events_lem, update_older_events-selected,
  is_selected-IsAt, event_dates-add_selected,
}
use lso_project.Timeline.Select.Shows.{Differs, Unique}
use lso_project.Timeline.Life.{
  select_content, older_before, neighbour, pass_events, pass_contents, new_place,
}
use lso_project.Timeline.Life.Placed.{Classed}
use lso_project.Timeline.Life.Flagged.{
  remove_at, map-remove_at, IsAt-remove_front, IsAt-remove_back, IsBelow-remove_front,
  IsBelow-remove_back, set_at, IsAt-hand_on, IsAt-hand_back,
}

-- Where the selection is after event j of n has gone, if it was at event k.
abbrev pub seat : ℕ → ℕ → ℕ → ℕ
seat n j k = if ltb j k then k - 1 else if ltb k j then k else if ltb (suc k) n then k else k - 1

Differs-remove_at : (x : Text) (j : ℕ) (ds : List Text) → Differs x ds → Differs x (remove_at j ds)
Differs-remove_at x j [] u = tt
Differs-remove_at x zero (d ∷ ds) u = u.2
Differs-remove_at x (suc j) (d ∷ ds) u = (u.0, u.1, Differs-remove_at x j ds u.2)

Unique-remove_at : (j : ℕ) (ds : List Text) → Unique ds → Unique (remove_at j ds)
Unique-remove_at j [] u = tt
Unique-remove_at zero (d ∷ ds) u = u.1
Unique-remove_at (suc j) (d ∷ ds) u = (Differs-remove_at d j ds u.0, Unique-remove_at j ds u.1)

Classed-remove_at :
    (k j : ℕ) (es : List Event) (cs : List Content)
    → IsAt k (remove_at j (event_flags es))
    → IsAt k (remove_at j (content_flags cs))
    → IsBelow k (remove_at j (older_flags es))
    → content_dates cs ≡ event_dates es
    → Unique (event_dates es)
    → Classed k (remove_at j es) (remove_at j cs)
Classed-remove_at k j es cs a c o d u = record {
  event_at = subst (IsAt k) (sym (map-remove_at (λ (e : Event). e.selected) j es)) a;
  content_at = subst (IsAt k) (sym (map-remove_at (λ (c : Content). c.selected) j cs)) c;
  older = subst (IsBelow k) (sym (map-remove_at (λ (e : Event). e.older_event) j es)) o;
  dates =
      map-remove_at (λ (c : Content). c.date) j cs
      ∙ ap (remove_at j) d
      ∙ sym (map-remove_at (λ (e : Event). e.date) j es);
  unique =
      subst Unique (sym (map-remove_at (λ (e : Event). e.date) j es))
        (Unique-remove_at j (event_dates es) u);
}

event_flags-add_selected :
    (k : ℕ) (es : List Event) → event_flags (add_selected k es) ≡ set_at k (event_flags es)
event_flags-add_selected k [] = refl
event_flags-add_selected zero (e ∷ es) = refl
event_flags-add_selected (suc k) (e ∷ es) =
    ap (λ bs. e.selected ∷ bs) (event_flags-add_selected k es)

content_flags-select :
    (k : ℕ) (cs : List Content) → content_flags (select_content k cs) ≡ set_at k (content_flags cs)
content_flags-select k [] = refl
content_flags-select zero (c ∷ cs) = refl
content_flags-select (suc k) (c ∷ cs) = ap (λ bs. c.selected ∷ bs) (content_flags-select k cs)

content_dates-select :
    (k : ℕ) (cs : List Content) → content_dates (select_content k cs) ≡ content_dates cs
content_dates-select k [] = refl
content_dates-select zero (c ∷ cs) = refl
content_dates-select (suc k) (c ∷ cs) = ap (λ ds. c.date ∷ ds) (content_dates-select k cs)

is_selected-add_selected :
    (k : ℕ) (es : List Event) → k < length es → is_selected k (add_selected k es) ≡ true
is_selected-add_selected k [] h = absurd (omega arith)
is_selected-add_selected zero (e ∷ es) h = refl
is_selected-add_selected (suc k) (e ∷ es) h = is_selected-add_selected k es (omega arith)

-- Another event than the selected one goes.
remaining :
    (j k : ℕ) (es : List Event) (cs : List Content)
    → Classed k es cs
    → (ltb j k ≡ true) ⊎ (k < j)
    → Classed
        (if ltb j k then k - 1 else k)
        (remove_at j (update_older_events k es))
        (remove_at j cs)
remaining j zero es cs c (inl lt) = absurd (ground arith)
remaining j (suc k) es cs c (inl lt) =
    let (p, q, r) = update_older_events_lem (suc k) es c.event_at in
    let le : j ≤ k = ground arith in
    let same : suc k - 1 ≡ k = omega arith in
    rw (lt, same)
      (Classed-remove_at k j (update_older_events (suc k) es) cs
        (rw p (IsAt-remove_front j k (event_flags es) le c.event_at))
        (IsAt-remove_front j k (content_flags cs) le c.content_at) (IsBelow-remove_front j k _ le r)
        (c.dates ∙ sym q) (subst Unique (sym q) c.unique))
remaining j k es cs c (inr gt) =
    let (p, q, r) = update_older_events_lem k es c.event_at in
    let not_lt : ltb j k ≡ false = ground arith in
    rw not_lt (
      Classed-remove_at k j (update_older_events k es) cs
        (rw p (IsAt-remove_back j k (event_flags es) gt c.event_at))
        (IsAt-remove_back j k (content_flags cs) gt c.content_at)
        (IsBelow-remove_back j k _ (omega arith) r) (c.dates ∙ sym q)
        (subst Unique (sym q) c.unique))

-- The selected event goes, and hands its classes to event m before.
handed :
    (m k k' : ℕ) (es : List Event) (cs : List Content)
    → Classed k es cs
    → m < length es
    → IsAt k' (remove_at k (set_at m (event_flags es)))
    → IsAt k' (remove_at k (set_at m (content_flags cs)))
    → ((bs : List Bool) → IsBelow m bs → IsBelow k' (remove_at k bs))
    → Classed k'
        (remove_at k (update_older_events m (add_selected m es)))
        (remove_at k (select_content m cs))
handed m k k' es cs c lt a b below =
    let (p, q, r) =
      update_older_events-selected m (add_selected m es) (is_selected-add_selected m es lt) in
    let q' = q ∙ event_dates-add_selected m es in
    Classed-remove_at k' k (update_older_events m (add_selected m es)) (select_content m cs)
      (subst (λ bs. IsAt k' (remove_at k bs)) (sym (p ∙ event_flags-add_selected m es)) a)
      (subst (λ bs. IsAt k' (remove_at k bs)) (sym (content_flags-select m cs)) b) (below _ r)
      (content_dates-select m cs ∙ c.dates ∙ sym q') (subst Unique (sym q') c.unique)

-- The links before the event goes.
abbrev pub passed : ℕ → List Event → List Event
passed j es = older_before (new_place (some j) es) (pass_events (some j) es)

abbrev pub passed_contents : ℕ → List Event → List Content → List Content
passed_contents j es cs = pass_contents (some j) es cs

-- The links es' and the contents cs' are those that event j leaves, apart from event j itself.
pub record Passed (j k : ℕ) (es : List Event) (cs : List Content) (es' : List Event)
    (cs' : List Content) : Type 0 where
  pub left : Classed (seat (length es) j k) (remove_at j es') (remove_at j cs')
  pub dates : event_dates es' ≡ event_dates es
  pub shown_dates : content_dates cs' ≡ content_dates cs

passed-by :
    (b : Bool) (m j k : ℕ) (es : List Event) (cs : List Content)
    → is_selected j es ≡ b
    → neighbour (length es) j ≡ m
    → find_index (event_flags es) ≡ some k
    → (passed j es
        ≡ (if b then update_older_events m (add_selected m es) else update_older_events k es))
      × (passed_contents j es cs ≡ (if b then select_content m cs else cs))
passed-by true m j k es cs s n f = rw (s, n) (refl, refl)
passed-by false m j k es cs s n f = rw (s, f) (refl, refl)

Passed-other :
    (j k : ℕ) (es : List Event) (cs : List Content)
    → Classed k es cs
    → (ltb j k ≡ true) ⊎ (k < j)
    → Passed j k es cs (passed j es) (passed_contents j es cs)
Passed-other j k es cs c side =
    let away : (j == k) ≡ false = elim side [ inl lt ↦ ground arith | inr gt ↦ ground arith ] in
    let (p, q) =
      passed-by false _ j k es cs (is_selected-IsAt j k es c.event_at ∙ away) refl
        (find_index-IsAt k (event_flags es) c.event_at) in
    let same : seat (length es) j k ≡ (if ltb j k then k - 1 else k) = elim side [
      | inl lt ↦ ground arith
      | inr gt ↦ ground arith
    ] in
    subst (λ xs. Passed j k es cs xs (passed_contents j es cs)) (sym p)
      (subst (λ ys. Passed j k es cs (update_older_events k es) ys) (sym q)
        (record {
          left =
              subst (λ i. Classed i (remove_at j (update_older_events k es)) (remove_at j cs))
                (sym same) (remaining j k es cs c side);
          dates = (update_older_events_lem k es c.event_at).1;
          shown_dates = refl;
        }))

Passed-handed :
    (m k k' : ℕ) (es : List Event) (cs : List Content)
    → Classed k es cs
    → neighbour (length es) k ≡ m
    → seat (length es) k k ≡ k'
    → m < length es
    → Classed k'
        (remove_at k (update_older_events m (add_selected m es)))
        (remove_at k (select_content m cs))
    → Passed k k es cs (passed k es) (passed_contents k es cs)
Passed-handed m k k' es cs c n s lt h =
    let (p, q) =
      passed-by true m k k es cs (is_selected-IsAt k k es c.event_at ∙ ground arith) n
        (find_index-IsAt k (event_flags es) c.event_at) in
    subst (λ xs. Passed k k es cs xs (passed_contents k es cs)) (sym p)
      (subst (λ ys. Passed k k es cs (update_older_events m (add_selected m es)) ys) (sym q)
        (record {
          left =
              subst
                (λ i.
                  Classed i (remove_at k (update_older_events m (add_selected m es)))
                    (remove_at k (select_content m cs)))
                (sym s) h;
          dates =
              (update_older_events-selected m (add_selected m es)
                (is_selected-add_selected m es lt)).1
              ∙ event_dates-add_selected m es;
          shown_dates = content_dates-select m cs;
        }))

Passed-selected :
    (k : ℕ) (es : List Event) (cs : List Content)
    → Classed k es cs
    → 1 < length es
    → Passed k k es cs (passed k es) (passed_contents k es cs)
Passed-selected k es cs c more = elim (Bool-cases (ltb (suc k) (length es))) [
  | inl next ↦
      let lt : suc k < length es = ltb→lt (suc k) (length es) next in
      let flags : length (event_flags es) ≡ length es = length-map (λ (e : Event). e.selected) es in
      let shown : length (content_flags cs) ≡ length es =
        length-map (λ (c : Content). c.selected) cs
        ∙ sym (length-map (λ (c : Content). c.date) cs)
        ∙ ap length c.dates
        ∙ length-map (λ (e : Event). e.date) es in
      Passed-handed (suc k) k k es cs c (rw next refl) (ground arith) lt (
        handed (suc k) k k es cs c lt
          (IsAt-hand_on k (event_flags es) (omega (arith, flags)) c.event_at)
          (IsAt-hand_on k (content_flags cs) (omega (arith, shown)) c.content_at)
          (λ bs h. IsBelow-remove_front k k bs (omega arith) h))
  | inr last ↦ hand_back k c last
]
  where
    hand_back :
        (k : ℕ)
        → Classed k es cs
        → ltb (suc k) (length es) ≡ false
        → Passed k k es cs (passed k es) (passed_contents k es cs)
    hand_back zero c last = absurd (ground arith)
    hand_back (suc k) c last =
        let lt : k < length es = omega (
          arith,
          lt_of_IsAt (suc k) (event_flags es) c.event_at,
          length-map (λ (e : Event). e.selected) es,
        ) in
        Passed-handed k (suc k) k es cs c (rw last (omega arith)) (ground arith) lt (
          handed k (suc k) k es cs c lt (IsAt-hand_back k (event_flags es) c.event_at)
            (IsAt-hand_back k (content_flags cs) c.content_at)
            (λ bs h. IsBelow-remove_back (suc k) k bs (omega arith) h))

pub Passed-any :
    (j k : ℕ) (es : List Event) (cs : List Content)
    → Classed k es cs
    → 1 < length es
    → Passed j k es cs (passed j es) (passed_contents j es cs)
Passed-any j k es cs c more = elim (Bool-cases (ltb j k)) [
  | inl lt ↦ Passed-other j k es cs c (inl lt)
  | inr ge ↦ elim (Bool-cases (ltb k j)) [
    | inl gt ↦ Passed-other j k es cs c (inr (ltb→lt k j gt))
    | inr le ↦
        let e : k ≡ j = ground arith in
        subst (λ i. Passed i k es cs (passed i es) (passed_contents i es cs)) e
          (Passed-selected k es cs c more)
  ]
]
