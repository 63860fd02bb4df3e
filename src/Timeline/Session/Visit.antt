-- ===== src/Timeline/Session/Visit.antt =====
-- Every visit keeps the timeline sound.
use lso_project.Prelude.{◌≡◌, sym, ◌∙◌, some}
use mathlib.Core.Path.{subst}
use lso_project.Timeline.{Timeline}
use lso_project.Timeline.Holds.{Holds}
use lso_project.Timeline.Session.{Input, perform, Enabled, Reach, done, then_input}
use lso_project.Timeline.Session.Counted.{Sound}
use lso_project.Timeline.Session.Sound.{perform-Sound}

-- From a timeline that shows an event, with the class `first` on its first event alone and one
-- interval set if its setting `autoplay` is on and else none, every sequence of inputs leads only
-- to timelines of which all this holds too, and there every further input that can come succeeds:
-- clicks on the buttons and on the dates of other events, the wheel, the keys, swipes over the contents,
-- swipes of the wrapper as long as the width that a handler measured last is that of the timeline, links to dates,
-- rounds and buttons of the cycle, changes of the window's width, each with its debounced handler before the
-- next input, and events that are added and removed, where an added content does not have the class `selected`,
-- has a text in the chosen display and a date that is noted as existing or new, and stands beside a date that there is.
pub Reach-Sound :
    (t t' : Timeline) (i : Input)
    → Sound t
    → Reach t t'
    → Enabled i t'
    → Sound t' × ((t'' : Timeline) × (perform i t' ≡ some t'') × Sound t'')
Reach-Sound t t' i s done en = (s, perform-Sound i t en s)
Reach-Sound t t' i s (then_input j able p r) en =
    let (u, q, w) = perform-Sound j t able s in
    Reach-Sound _ t' i (subst (λ o. Holds Sound o) (sym q ∙ p) w) r en
