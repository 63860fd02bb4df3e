-- ===== src/Timeline/Session/Counted.antt =====
-- What every visit keeps of a timeline.
use lso_project.Prelude.{ℕ, ◌≡◌, sym, Option, some, List, if◌then◌else◌, Text}
use lso_project.Timeline.{Settings, Autoplay, Timeline}
use mathlib.Core.Path.{subst}
use lso_project.Timeline.Flags.{IsAt}
use lso_project.Timeline.Select.Shows.{Shows}
use lso_project.Timeline.Select.Steps.{firsts}
use lso_project.Timeline.Life.Placed.{Ready}
use lso_project.Timeline.Holds.{Holds}
use lso_project.Timeline.Life.Untouched.{SameCycle}

-- One interval is set where the setting `autoplay` is on, and none elsewhere.
abbrev pub Counted : Settings → Autoplay → Type 0
Counted s a = a.intervals ≡ (if s.autoplay then 1 else 0)

-- The timeline shows an event, the class `first` is on its first event alone, and its intervals are
-- counted.
abbrev pub Sound : Timeline → Type 0
Sound t = (k : ℕ) × Shows k t × IsAt 0 (firsts t.events) × Counted t.settings t.autoplay

pub Counted-SameCycle :
    (t u : Timeline) → SameCycle t u → Counted t.settings t.autoplay → Counted u.settings u.autoplay
Counted-SameCycle t u (p, q) n =
    subst (λ s. Counted s u.autoplay) (sym p) (subst (Counted t.settings) (sym q) n)

pub Ready-Sound :
    {k : ℕ} {ds : List Text} {t' : Timeline} (t : Timeline) (o : Option Timeline)
    → Holds (SameCycle t) o
    → o ≡ some t'
    → Counted t.settings t.autoplay
    → Ready k ds t'
    → Sound t'
Ready-Sound {k} {t'} t o h p n r =
    let same : SameCycle t t' = subst (Holds (SameCycle t)) p h in
    (k, r.shows, r.home, Counted-SameCycle t t' same n)
