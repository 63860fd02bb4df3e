-- ===== src/Tests/Ads.antt =====
-- Ads.antt and its children: a dialog whose button appears after 5 seconds and which closes after 20.
use lso_project.Prelude.{
  ℕ, ◌≡◌, refl, true, false, not, none, some, [], ◌∷◌, arith, if◌then◌else◌, Text, codes,
}
use lso_project.Prelude.Int.{pos, negsuc}
use lso_project.Cookie.Jar.{Sound}
use lso_project.Ads.Countdown.{unchanged, start_countdown, deadline_of, distance, run}
use lso_project.Ads.Countdown.Firing.{reached, run-start_countdown}
use lso_project.Ads.Modal.{AdData, Modal, ready, handle, ended, open_image, run_timers}
use lso_project.Ads.Modal.Consent.{ready-ended}

abbrev ad : AdData
ad = record {
  cookie_name = codes "ad";
  cookie_duration = some 7;
  close_button_show_countdown = some 5;
  auto_close_countdown = none;
  has_video = true;
}

abbrev page : Modal
page = record {
  dialog = false;
  close_button = false;
  message = false;
  unmute_button = false;
  mute_button = false;
  seconds_text = unchanged;
  volume = none;
  handlers = true;
  timers = [];
  cookies = [];
}

abbrev day : ℕ → Text
day ms = codes "Thu, 01 Jan"

-- Half a second after the deadline the distance is 0, and a second after it -1.
distance_runs : distance 5000 5500 ≡ pos 0
unfolding distance
distance_runs = refl

distance_late : distance 5000 6000 ≡ negsuc 0
unfolding distance
distance_late = refl

run-start_countdown_example :
    let c = run (900 ∷ 2000 ∷ 2100 ∷ []) (start_countdown false (some 1) 0) in
    let late = reached (deadline_of 0 (some 1)) (900 ∷ 2000 ∷ 2100 ∷ []) in
    (c.fired ≡ (if late then 1 else 0)) × (c.live ≡ not late)
run-start_countdown_example = run-start_countdown false (some 1) 0 (900 ∷ 2000 ∷ 2100 ∷ [])

ad-Sound : Sound (record { name = ad.cookie_name; value = codes "true" })
ad-Sound = ground arith

ready-ended_example : ready ad 90 (handle day ad page (ended 10)) ≡ handle day ad page (ended 10)
ready-ended_example =
    ready-ended day ad 10 90 page (handle day ad page (ended 10)) ad-Sound tt refl (omega arith)
      refl

run_timers_closes : (run_timers (4000 ∷ 6000 ∷ 21000 ∷ []) (open_image ad 0 page)).dialog ≡ false
unfolding run_timers open_image start_countdown
run_timers_closes = refl
