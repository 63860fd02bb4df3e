-- ===== src/Timeline/Select/Notice.antt =====
-- The notice to the cycle that `_updateVisibleContent` ends with.
use lso_project.Prelude.{
  ℕ, ◌≤◌, ◌≡◌, refl, ap, ◌∙◌, ◌⊎◌, inl, inr, Bool, true, false, some, arith, if◌then◌else◌,
  Bool-cases,
}
use lso_project.Timeline.{MouseEvent, no_mouse, click, hover, Timeline, ◌>>=◌, event_flags}
use lso_project.Timeline.Flags.{IsAt}
use lso_project.Timeline.Layout.{set_timeline_width}
use lso_project.Timeline.Layout.Spacing.{set_timeline_width-InRange}
use lso_project.Timeline.Cycle
use lso_project.Timeline.Cycle.{moved, stopped, restarted}
use lso_project.Timeline.Select.{notify_autoplay}
use lso_project.Timeline.Select.Shows.{selected_event-IsAt, last?-IsAt}

-- A timeline after a notice to the cycle: the same events and contents, and wide enough.
pub record Noticed (t t' : Timeline) : Type 0 where
  pub events : t'.events ≡ t.events
  pub contents : t'.contents ≡ t.contents
  pub wide : t'.wrapper_width ≤ t'.total_width

start_lem :
    (t : Timeline) {t' : Timeline}
    → set_timeline_width t ≡ some t'
    → Cycle.start t ≡ some (restarted t')
unfolding Cycle.start
start_lem t p = ap (λ o. o >>= λ t'. some (restarted t')) p

moved_clicked : (t : Timeline) → t.autoplay.clicked ≡ true → moved t ≡ some t
unfolding moved
moved_clicked t p = ap (λ b. if b then some t else Cycle.start (stopped t)) p

moved_restarts : (t : Timeline) → t.autoplay.clicked ≡ false → moved t ≡ Cycle.start (stopped t)
unfolding moved
moved_restarts t p = ap (λ b. if b then some t else Cycle.start (stopped t)) p

moved-Noticed :
    (k : ℕ) (t : Timeline)
    → IsAt k (event_flags t.events)
    → t.wrapper_width ≤ t.total_width
    → (t' : Timeline) × (moved t ≡ some t') × Noticed t t'
moved-Noticed k t h w = elim (Bool-cases t.autoplay.clicked) [
  | inl still ↦ (t, moved_clicked t still, record { events = refl; contents = refl; wide = w })
  | inr goes ↦
      let (e, p) = selected_event-IsAt k t.events h in
      let (l, q) = last?-IsAt k t.events h in
      let (t', r, range, _, es, cs) = set_timeline_width-InRange (stopped t) e l p q in
      (
        restarted t',
        moved_restarts t goes ∙ start_lem (stopped t) r,
        record { events = es; contents = cs; wide = range.wide },
      )
]

pub notify_autoplay_lem :
    (t : Timeline) (m : MouseEvent) (b : Bool)
    → t.autoplay.mouse_event ≡ m
    → t.settings.autoplay ≡ b
    → ((notify_autoplay t ≡ moved t) × (t.settings.autoplay ≡ true)) ⊎ (notify_autoplay t ≡ some t)
notify_autoplay_lem t no_mouse true e f = inl (ground (arith, e, f), f)
notify_autoplay_lem t no_mouse false e f = inr (ground (arith, e, f))
notify_autoplay_lem t click b e f = inr (ground (arith, e))
notify_autoplay_lem t hover b e f = inr (ground (arith, e))

-- The notice to the cycle changes no event and no content, and never fails.
pub notify_autoplay-Noticed :
    (k : ℕ) (t : Timeline)
    → IsAt k (event_flags t.events)
    → t.wrapper_width ≤ t.total_width
    → (t' : Timeline) × (notify_autoplay t ≡ some t') × Noticed t t'
notify_autoplay-Noticed k t h w = elim (notify_autoplay_lem t _ _ refl refl) [
  | inl (e, _) ↦ let (t', p, n) = moved-Noticed k t h w in (t', e ∙ p, n)
  | inr e ↦ (t, e, record { events = refl; contents = refl; wide = w })
]
