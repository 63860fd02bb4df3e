-- ===== src/Timeline/Session/Playing.antt =====
-- The choice of an event leaves a cycle that runs running, on one interval.
use lso_project.Prelude.{ℕ, ◌+◌, ◌-◌, ◌≡◌, refl, ap, false}
use lso_project.Timeline.{Settings, no_mouse, Timeline}
use lso_project.Timeline.Advance.{interval}
use lso_project.Prelude.{Option, none, some, ◌-◌, ◌+◌}
use lso_project.Timeline.{Autoplay}
use lso_project.Timeline.Select.Steps.{firsts}
use lso_project.Timeline.Session.Kept.{Kept, interval-Kept}
use lso_project.Timeline.Holds.{Holds}

-- The user has neither paused the cycle nor holds it by the mouse, and one interval is set.
pub record Plays (s : Settings) (t : Timeline) : Type 0 where
  pub settings : t.settings ≡ s
  pub running : t.autoplay.is_paused ≡ false
  pub unclicked : t.autoplay.clicked ≡ false
  pub untouched : t.autoplay.mouse_event ≡ no_mouse
  pub one_interval : t.autoplay.intervals ≡ 1

abbrev PlaysBy : Settings → Settings → Autoplay → Type 0
PlaysBy s s' a =
    (s' ≡ s)
    × (a.is_paused ≡ false)
    × (a.clicked ≡ false)
    × (a.mouse_event ≡ no_mouse)
    × (a.intervals ≡ 1)

-- A round of the interval leaves a cycle that plays playing.
pub interval-Plays :
    (s : Settings) (total : ℕ) (t : Timeline) → Plays s t → Holds (Plays s) (interval total t)
interval-Plays s total t h = plays (interval total t) (
    interval-Kept (λ e. e.first) (λ e b. refl) (λ e b. refl) (PlaysBy s)
      (λ s' a on (p, q, r, m, n). (p, refl, r, m, ap (λ i. i - 1 + 1) n)) (λ s' a p q. q)
      (firsts t.events) total t
      (refl, (h.settings, h.running, h.unclicked, h.untouched, h.one_interval)))
  where
    plays :
        (o : Option Timeline)
        → Holds (Kept (λ e. e.first) (λ e b. refl) (λ e b. refl) (PlaysBy s) (firsts t.events)) o
        → Holds (Plays s) o
    plays none k = tt
    plays (some u) (_, (p, q, r, m, n)) = record {
      settings = p;
      running = q;
      unclicked = r;
      untouched = m;
      one_interval = n;
    }
