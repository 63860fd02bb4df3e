-- ===== src/Ads/Modal/Closing.antt =====
-- When the dialog without a video closes, and when its close button appears.
use lso_project.Prelude.{
  ℕ, ◌≡◌, refl, ◌∙◌, true, false, not, ◌&&◌, some, List, [], ◌∷◌, arith, if◌then◌else◌,
}
use lso_project.Ads.Countdown.{Countdown, start_countdown, deadline_of, tick}
use lso_project.Ads.Countdown.Firing.{is_late, reached, is_over_lem}
use lso_project.Ads.Modal.{
  AdData, Modal, Timer, show_close_btn, close_modal, auto_close_of, open_image, interval,
  tick_timer, intervals, tick_timers, run_timers,
}

abbrev first_timer : AdData → ℕ → Timer
first_timer ad now = record {
  countdown = start_countdown false ad.close_button_show_countdown now;
  callback = show_close_btn;
}

abbrev second_timer : AdData → ℕ → Timer
second_timer ad now = record {
  countdown = start_countdown true (some (auto_close_of ad)) now;
  callback = close_modal;
}

tick_live :
    (now : ℕ) (c : Countdown)
    → ((tick now c).live ≡ (if is_late c.deadline now then false else c.live))
      × ((tick now c).deadline ≡ c.deadline)
unfolding tick
tick_live now c = ground (arith, is_over_lem c.deadline now)

interval_dialog :
    (now : ℕ) (t : Timer) (m : Modal)
    → t.callback ≡ close_modal
    → ((interval now t m).dialog
        ≡ (if t.countdown.live && is_late t.countdown.deadline now then false else m.dialog))
      × ((interval now t m).close_button ≡ m.close_button)
      × ((interval now t m).timers ≡ m.timers)
unfolding interval
interval_dialog now t m e = ground (arith, is_over_lem t.countdown.deadline now)

interval_close_button :
    (now : ℕ) (t : Timer) (m : Modal)
    → t.callback ≡ show_close_btn
    → ((interval now t m).close_button
        ≡ (if t.countdown.live && is_late t.countdown.deadline now then true else m.close_button))
      × ((interval now t m).dialog ≡ m.dialog)
      × ((interval now t m).timers ≡ m.timers)
unfolding interval
interval_close_button now t m e = ground (arith, is_over_lem t.countdown.deadline now)

-- A round of the two countdowns of one opening.
tick_timers_lem :
    (now : ℕ) (m : Modal) (t u : Timer)
    → m.timers ≡ t ∷ u ∷ []
    → t.callback ≡ show_close_btn
    → u.callback ≡ close_modal
    → let m' = tick_timers now m in
      (m'.timers ≡ tick_timer now t ∷ tick_timer now u ∷ [])
      × (m'.close_button
          ≡ (if t.countdown.live && is_late t.countdown.deadline now then true else m.close_button))
      × (m'.dialog
          ≡ (if u.countdown.live && is_late u.countdown.deadline now then false else m.dialog))
unfolding tick_timers intervals
tick_timers_lem now m t u e p q =
    let m0 = record m { timers = tick_timer now t ∷ tick_timer now u ∷ [] } in
    let first = interval_close_button now t m0 p in
    let second = interval_dialog now u (interval now t m0) q in
    rw e (second.2 ∙ first.2, second.1 ∙ first.0, ground (arith, first, second))

run_timers_lem :
    (times : List ℕ) (m : Modal) (t u : Timer)
    → m.timers ≡ t ∷ u ∷ []
    → t.callback ≡ show_close_btn
    → u.callback ≡ close_modal
    → ((run_timers times m).close_button
        ≡ (if t.countdown.live && reached t.countdown.deadline times then true else m.close_button))
      × ((run_timers times m).dialog
          ≡ (if u.countdown.live && reached u.countdown.deadline times then false else m.dialog))
unfolding run_timers reached
run_timers_lem [] m t u e p q = ground arith
run_timers_lem (now ∷ times) m t u e p q =
    let step = tick_timers_lem now m t u e p q in
    ground (
      arith,
      step,
      run_timers_lem times (tick_timers now m) (tick_timer now t) (tick_timer now u) step.0 p q,
      tick_live now t.countdown,
      tick_live now u.countdown,
    )

-- A dialog without a video that opens at `now`, with no countdown before it and the close button
-- hidden, closes by itself exactly if a round of the countdowns comes a second or more after the
-- closing time, and its close button appears exactly if one comes as late after the button's own
-- time. Where the page gives no such time, the button never appears.
pub run_timers-open_image :
    (ad : AdData) (now : ℕ) (m : Modal) (times : List ℕ)
    → m.timers ≡ []
    → m.close_button ≡ false
    → ((run_timers times (open_image ad now m)).dialog
        ≡ not (reached (deadline_of now (some (auto_close_of ad))) times))
      × ((run_timers times (open_image ad now m)).close_button
          ≡ reached (deadline_of now ad.close_button_show_countdown) times)
unfolding open_image start_countdown
run_timers-open_image ad now m times e h = ground (
  arith,
  run_timers_lem times (open_image ad now m) (first_timer ad now) (second_timer ad now) (rw e) refl
      refl,
)
