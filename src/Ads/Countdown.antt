-- ===== src/Ads/Countdown.antt =====
-- `startCountdown`: an interval that calls back every 100 ms until its time is over.
pub mod Firing
use lso_project.Prelude.{
  ℕ, zero, suc, ◌+◌, ◌-◌, ◌*◌, ◌/◌, Bool, true, false, not, Option, none, some, List, [], ◌∷◌, leb,
  if◌then◌else◌,
}
use lso_project.Prelude.Int.{ℤ, pos, negsuc}

-- What the countdown last wrote to its span.
pub data Shown : Type 0 where
  unchanged : Shown
  seconds : ℤ → Shown
  not_a_number : Shown

-- `deadline` is `countdownDate`, `none` where it is NaN, because no interval was given; `live`
-- says that the interval `x` runs, `fired` counts the calls of `func`.
pub record Countdown : Type 0 where
  pub has_span : Bool
  pub deadline : Option ℕ
  pub live : Bool
  pub fired : ℕ
  pub shown : Shown

abbrev pub deadline_of : ℕ → Option ℕ → Option ℕ
deadline_of now none = none
deadline_of now (some interval) = some (now + interval * 1000)

-- `startCountdown(countdownSpan, interval, func)` at the time `now`.
unfoldable pub start_countdown : Bool → Option ℕ → ℕ → Countdown
start_countdown has_span interval now = record {
  has_span = has_span;
  deadline = deadline_of now interval;
  live = true;
  fired = 0;
  shown = unchanged;
}

abbrev pub negated : ℕ → ℤ
negated zero = pos 0
negated (suc n) = negsuc n

-- `Math.trunc(countdownDate - ora)` in seconds: the fraction is cut towards zero.
unfoldable pub distance : ℕ → ℕ → ℤ
distance deadline now =
    if leb now deadline then pos ((deadline - now) / 1000) else negated ((now - deadline) / 1000)

abbrev pub is_negative : ℤ → Bool
is_negative (pos n) = false
is_negative (negsuc n) = true

-- `distance < 0`, which is false of NaN.
unfoldable pub is_over : Option ℕ → ℕ → Bool
unfolding distance
is_over none now = false
is_over (some deadline) now = is_negative (distance deadline now)

abbrev pub written : Option ℕ → ℕ → Shown
written none now = not_a_number
written (some deadline) now = seconds (distance deadline now)

-- The interval's function at the time `now`; a cleared interval does not call it.
unfoldable pub tick : ℕ → Countdown → Countdown
unfolding is_over
tick now c =
    if c.live
    then record c {
      live = not (is_over c.deadline now);
      fired = if is_over c.deadline now then c.fired + 1 else c.fired;
      shown = if c.has_span then written c.deadline now else c.shown;
    }
    else c

unfoldable pub run : List ℕ → Countdown → Countdown
run [] c = c
run (now ∷ times) c = run times (tick now c)
