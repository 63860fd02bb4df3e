-- ===== src/Timeline/Select/Steps.antt =====
-- The buttons, the keys, the wheel and the swipe: the selection moves to the neighbour.
use lso_project.Prelude.{
  ℕ, zero, suc, ◌-◌, ◌<◌, ◌≡◌, sym, ap, ◌∙◌, ◌≢◌, inl, inr, Bool, true, false, some, List, map,
  arith, ltb, if◌then◌else◌, ltb→lt, Bool-cases, length, length-map,
}
use lso_project.Timeline.{Event, Content, Timeline, ◌>>=◌, event_flags, content_flags}
use lso_project.Timeline.Flags.{IsAt, lt_of_IsAt, find_index-IsAt}
use lso_project.Timeline.Select.{
  Step, next, prev, start, has_content, new_event, show_event, show_new_content,
}
use lso_project.Timeline.Select.Shows.{Shows, get_elem?-of_lt}
use lso_project.Timeline.Select.Moves.{has_next-IsAt, has_prev-IsAt, show_event-Shows}

-- Where a step leads from event k of n.
unfoldable pub destination : Step → ℕ → ℕ → ℕ
destination next n k = if ltb (suc k) n then suc k else k
destination prev n k = k - 1
destination start n k = 0

abbrev pub firsts : List Event → List Bool
firsts = map (λ (e : Event). e.first)

show_new_content_moves :
    (total j : ℕ) (s : Step) (t : Timeline)
    → has_content s (content_flags t.contents) ≡ true
    → new_event s t.events ≡ some j
    → show_new_content total s t ≡ show_event total j t
unfolding show_new_content
show_new_content_moves total j s t p q =
    ap (λ b. if b then (new_event s t.events >>= λ k. show_event total k t) else some t) p
    ∙ ap (λ o. o >>= λ k. show_event total k t) q

pub show_new_content_stays :
    (total : ℕ) (s : Step) (t : Timeline)
    → has_content s (content_flags t.contents) ≡ false
    → show_new_content total s t ≡ some t
unfolding show_new_content
show_new_content_stays total s t p =
    ap (λ b. if b then (new_event s t.events >>= λ k. show_event total k t) else some t) p

length-contents :
    {k : ℕ} (t : Timeline) → Shows k t → length (content_flags t.contents) ≡ length t.events
length-contents t v =
    length-map (λ (c : Content). c.selected) t.contents
    ∙ sym (length-map (λ (c : Content). c.date) t.contents)
    ∙ ap length v.dates
    ∙ length-map (λ (e : Event). e.date) t.events

pub lt_length : {k : ℕ} (t : Timeline) → Shows k t → k < length t.events
lt_length {k} t v = omega (
  arith,
  lt_of_IsAt k (event_flags t.events) v.event_at,
  length-map (λ (e : Event). e.selected) t.events,
)

new_event-next :
    (k : ℕ) (es : List Event)
    → IsAt k (event_flags es)
    → suc k < length es
    → new_event next es ≡ some (suc k)
unfolding new_event
new_event-next k es h lt = rw (find_index-IsAt k (event_flags es) h) (ground arith)

new_event-prev :
    (k : ℕ) (es : List Event) → IsAt (suc k) (event_flags es) → new_event prev es ≡ some k
unfolding new_event
new_event-prev k es h = rw (find_index-IsAt (suc k) (event_flags es) h) (ground arith)

new_event-start : (es : List Event) → IsAt 0 (firsts es) → new_event start es ≡ some 0
unfolding new_event
new_event-start es h = find_index-IsAt 0 (firsts es) h

-- A move to event j, where the step has a content to go to.
go_to :
    (total j k : ℕ) (s : Step) (t : Timeline)
    → Shows k t
    → has_content s (content_flags t.contents) ≡ true
    → new_event s t.events ≡ some j
    → j ≢ k
    → j < length t.events
    → (t' : Timeline) × (show_new_content total s t ≡ some t') × Shows j t'
go_to total j k s t v p q ne lt =
    let (e, h) = get_elem?-of_lt t.events j lt in
    let (t', r, w) = show_event-Shows total j k e t v h ne lt in
    (t', show_new_content_moves total j s t p q ∙ r, w)

has_content-next :
    {k : ℕ} (t : Timeline)
    → Shows k t
    → has_content next (content_flags t.contents) ≡ ltb (suc k) (length t.events)
unfolding has_content
has_content-next {k} t v =
    has_next-IsAt k (content_flags t.contents) v.content_at ∙ ap (ltb (suc k)) (length-contents t v)

has_content-prev :
    {k : ℕ} (t : Timeline)
    → Shows k t
    → (has_content prev (content_flags t.contents) ≡ ltb 0 k)
      × (has_content start (content_flags t.contents) ≡ ltb 0 k)
unfolding has_content
has_content-prev {k} t v = let p = has_prev-IsAt k (content_flags t.contents) v.content_at in (p, p)

suc-sub : (k : ℕ) → suc k - 1 ≡ k
suc-sub k = omega arith

-- On a timeline that shows event k of n, with the class `first` on its first event alone, every
-- step succeeds and leads to a timeline that shows its destination: the next event or the last one,
-- the previous one or the first one, or the first; with the same content selected, the events
-- before it older, and the translation in range.
pub show_new_content-Shows :
    (total k : ℕ) (s : Step) (t : Timeline)
    → Shows k t
    → IsAt 0 (firsts t.events)
    → (t' : Timeline) × (show_new_content total s t ≡ some t')
      × Shows (destination s (length t.events) k) t'
unfolding destination
show_new_content-Shows total k next t v f = elim (Bool-cases (ltb (suc k) (length t.events))) [
  | inl more ↦ rw more (
      go_to total (suc k) k next t v (has_content-next t v ∙ more)
        (new_event-next k t.events v.event_at (ltb→lt (suc k) (length t.events) more)) (omega arith)
        (ltb→lt (suc k) (length t.events) more))
  | inr end ↦ rw end (t, show_new_content_stays total next t (has_content-next t v ∙ end), v)
]
show_new_content-Shows total zero prev t v f =
    (t, show_new_content_stays total prev t ((has_content-prev t v).0 ∙ ground arith), v)
show_new_content-Shows total (suc k) prev t v f = rw (suc-sub k) (
    go_to total k (suc k) prev t v ((has_content-prev t v).0 ∙ ground arith)
      (new_event-prev k t.events v.event_at) (omega arith) (omega (arith, lt_length t v)))
show_new_content-Shows total zero start t v f =
    (t, show_new_content_stays total start t ((has_content-prev t v).1 ∙ ground arith), v)
show_new_content-Shows total (suc k) start t v f =
    go_to total 0 (suc k) start t v ((has_content-prev t v).1 ∙ ground arith)
      (new_event-start t.events f) (omega arith) (omega (arith, lt_length t v))
