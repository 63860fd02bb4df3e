-- ===== src/Ads/Countdown/Firing.antt =====
-- When a countdown calls back: once, a whole second after its time.
use lso_project.Prelude.{
  ℕ, zero, suc, ◌+◌, ◌-◌, ◌/◌, ◌≡◌, refl, Bool, true, false, not, ◌||◌, Option, none, some, List,
  [], ◌∷◌, arith, ltb, leb, if◌then◌else◌,
}
use lso_project.Ads.Countdown.{
  Countdown, start_countdown, distance, is_over, deadline_of, tick, run, negated, is_negative,
}

-- The time is a second or more after the deadline; never, where there is none.
abbrev pub is_late : Option ℕ → ℕ → Bool
is_late none now = false
is_late (some deadline) now = leb (deadline + 1000) now

-- One of the times is that late.
unfoldable pub reached : Option ℕ → List ℕ → Bool
reached deadline [] = false
reached deadline (now ∷ times) = is_late deadline now || reached deadline times

is_negative-negated : (n : ℕ) → is_negative (negated n) ≡ ltb 0 n
is_negative-negated zero = refl
is_negative-negated (suc n) = ground arith

-- Cutting towards zero delays the end: the distance is negative from one second on.
pub is_over_lem : (deadline : Option ℕ) (now : ℕ) → is_over deadline now ≡ is_late deadline now
unfolding is_over distance
is_over_lem none now = refl
is_over_lem (some deadline) now = ground (arith, is_negative-negated ((now - deadline) / 1000))

run-dead : (times : List ℕ) (c : Countdown) → c.live ≡ false → run times c ≡ c
unfolding run tick
run-dead [] c h = refl
run-dead (now ∷ times) c h = ground (arith, run-dead times c h)

tick-live :
    (now : ℕ) (c : Countdown)
    → c.live ≡ true
    → ((tick now c).live ≡ not (is_late c.deadline now))
      × ((tick now c).fired ≡ (if is_late c.deadline now then c.fired + 1 else c.fired))
      × ((tick now c).deadline ≡ c.deadline)
unfolding tick
tick-live now c h = rw (h, is_over_lem c.deadline now) (refl, refl, refl)

run-fired :
    (times : List ℕ) (c : Countdown)
    → c.live ≡ true
    → ((run times c).fired ≡ (if reached c.deadline times then c.fired + 1 else c.fired))
      × ((run times c).live ≡ not (reached c.deadline times))
unfolding run reached
run-fired [] c h = (refl, h)
run-fired (now ∷ times) c h =
    ground (arith, tick-live now c h, run-dead times (tick now c), run-fired times (tick now c))

-- Whatever the times at which the interval runs, the function is called once if one of them is a
-- second or more after the deadline, and never otherwise or where no interval was given; the
-- interval is cleared exactly then.
pub run-start_countdown :
    (has_span : Bool) (interval : Option ℕ) (now : ℕ) (times : List ℕ)
    → let c = run times (start_countdown has_span interval now) in
      let late = reached (deadline_of now interval) times in
      (c.fired ≡ (if late then 1 else 0)) × (c.live ≡ not late)
unfolding start_countdown
run-start_countdown has_span interval now times = run-fired times _ refl
