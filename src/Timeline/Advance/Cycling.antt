-- ===== src/Timeline/Advance/Cycling.antt =====
-- What one round of the interval does to a timeline that shows an event.
use lso_project.Prelude.{
  ℕ, suc, ◌*◌, ◌≤◌, ◌<◌, ◌≡◌, ap, ◌∙◌, ◌⊎◌, inl, inr, false, some, List, arith, leb, ◌==◌,
  if◌then◌else◌, lt→ltb, leb→le, ==_iff, Bool-cases, length,
}
use lso_project.Timeline.{Autoplay, Event, Timeline, event_flags, up}
use mathlib.Core.Path.{subst}
use lso_project.Timeline.Flags.{IsAt, find_index-IsAt}
use lso_project.Timeline.Select.{next, start, show_new_content}
use lso_project.Timeline.Select.Shows.{Shows}
use lso_project.Timeline.Select.Steps.{destination, firsts, lt_length, show_new_content-Shows}
use lso_project.Timeline.Advance.{
  current_index, is_index, next_step, passed, with_progress, interval,
}

-- The event after number k of n, with the first one after the last.
unfoldable pub follower : ℕ → ℕ → ℕ
follower n k = if suc k == n then 0 else suc k

next_step-IsAt :
    (k : ℕ) (es : List Event)
    → IsAt k (event_flags es)
    → next_step es ≡ (if suc k == length es then start else next)
unfolding next_step current_index
next_step-IsAt k es h =
    ap (λ i. if is_index (up i) (length es) then start else next)
      (find_index-IsAt k (event_flags es) h)

destination-next_step :
    (n k : ℕ) → k < n → destination (if suc k == n then start else next) n k ≡ follower n k
unfolding destination follower
destination-next_step n k h = elim (Bool-cases (suc k == n)) [
  | inl last ↦ rw last
  | inr more ↦ rw (more, lt→ltb (suc k) n (grind (arith, ==_iff (suc k) n)))
]

pub autoplay-Shows :
    (k : ℕ) (a : Autoplay) (t : Timeline) → Shows k t → Shows k (record t { autoplay = a })
autoplay-Shows k a t v = record {
  event_at = v.event_at;
  content_at = v.content_at;
  older = v.older;
  dates = v.dates;
  unique = v.unique;
  in_range = record {
    wide = v.in_range.wide;
    not_right = v.in_range.not_right;
    not_left = v.in_range.not_left;
  };
}

interval_early :
    (total : ℕ) (t : Timeline)
    → t.autoplay.is_paused ≡ false
    → passed t < 100 * t.settings.autoplay_speed
    → interval total t ≡ some (with_progress (passed t) t)
unfolding interval
interval_early total t p h = ground (arith, p)

interval_due :
    (total : ℕ) (t : Timeline)
    → t.autoplay.is_paused ≡ false
    → 100 * t.settings.autoplay_speed ≤ passed t
    → interval total t ≡ show_new_content total (next_step t.events) (with_progress (passed t) t)
unfolding interval
interval_due total t p h = ground (arith, p)

round_due :
    (total k : ℕ) (t : Timeline)
    → Shows k t
    → IsAt 0 (firsts t.events)
    → t.autoplay.is_paused ≡ false
    → 100 * t.settings.autoplay_speed ≤ passed t
    → (t' : Timeline) × (interval total t ≡ some t') × Shows (follower (length t.events) k) t'
round_due total k t v f p due =
    let n = length t.events in
    let s = if suc k == n then start else next in
    let u = with_progress (passed t) t in
    let (t', r, w) = show_new_content-Shows total k s u (autoplay-Shows k _ t v) f in
    (
      t',
      interval_due total t p due
          ∙ ap (λ s. show_new_content total s u) (next_step-IsAt k t.events v.event_at)
          ∙ r,
      subst (λ j. Shows j t') (destination-next_step n k (lt_length t v)) w,
    )

-- While the cycle is not paused, a round of the interval on a timeline that shows event k, with the
-- class `first` on its first event alone, does not fail: either the time with this round is still
-- below 100 times the speed, and nothing but the time changes, or it has come that far, and the
-- timeline then shows the event after k, or the first event if k is the last one.
pub interval-Shows :
    (total k : ℕ) (t : Timeline)
    → Shows k t
    → IsAt 0 (firsts t.events)
    → t.autoplay.is_paused ≡ false
    → ((passed t < 100 * t.settings.autoplay_speed)
        × (interval total t ≡ some (with_progress (passed t) t)))
      ⊎ ((100 * t.settings.autoplay_speed ≤ passed t)
          × ((t' : Timeline) × (interval total t ≡ some t')
              × Shows (follower (length t.events) k) t'))
interval-Shows total k t v f p =
    elim (Bool-cases (leb (100 * t.settings.autoplay_speed) (passed t))) [
      | inl due ↦
          let le = leb→le (100 * t.settings.autoplay_speed) (passed t) due in
          inr (le, round_due total k t v f p le)
      | inr early ↦
          let lt : passed t < 100 * t.settings.autoplay_speed = ground arith in
          inl (lt, interval_early total t p lt)
    ]
