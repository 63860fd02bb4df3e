-- ===== src/Ads/Modal.antt =====
-- The ready handler of FIGC_ads.js and the callbacks that it installs, over the visible state of
-- the dialog. The player of player.js is outside: its events arrive as values of `Event`.
pub mod Consent
pub mod Closing
use lso_project.Prelude.{
  ℕ, Bool, true, false, ◌&&◌, ◌||◌, Option, none, some, List, [], ◌∷◌, ◌++◌, map, ltb, ◌==◌,
  if◌then◌else◌, Text, codes,
}
use lso_project.Cookie.{is_unset, get_cookie, set_cookie}
use lso_project.Cookie.Jar.{Jar, print, assign}
use lso_project.Ads.Countdown.{Countdown, Shown, seconds, start_countdown, is_over, tick}
use lso_project.Prelude.Int.{pos}

-- The data attributes of the element `.ad-modal.modal`; a missing one is `none`.
pub record AdData : Type 0 where
  pub cookie_name : Text
  pub cookie_duration : Option ℕ
  pub close_button_show_countdown : Option ℕ
  pub auto_close_countdown : Option ℕ
  pub has_video : Bool

-- The functions that the countdowns call: `showCloseBtnFnc` and `closeModalFnc`.
pub data Callback : Type 0 where
  show_close_btn : Callback
  close_modal : Callback

pub record Timer : Type 0 where
  pub countdown : Countdown
  pub callback : Callback

pub record Modal : Type 0 where
  pub dialog : Bool
  pub close_button : Bool
  pub message : Bool
  pub unmute_button : Bool
  pub mute_button : Bool
  pub seconds_text : Shown
  pub volume : Option ℕ
  pub handlers : Bool
  pub timers : List Timer
  pub cookies : Jar

-- `if (!cookieduration) cookieduration = 0;`
abbrev pub duration_of : AdData → ℕ
duration_of ad = elim ad.cookie_duration [ none ↦ 0 | some days ↦ days ]

-- `if (!autoclosecountdown) autoclosecountdown = 20;`
abbrev pub or_twenty : ℕ → ℕ
or_twenty n = if n == 0 then 20 else n

abbrev pub auto_close_of : AdData → ℕ
auto_close_of ad = elim ad.auto_close_countdown [ none ↦ 20 | some n ↦ or_twenty n ]

-- The guard of the ready handler.
unfoldable pub wants_ad : AdData → Jar → Bool
wants_ad ad jar = is_unset (get_cookie (print jar) ad.cookie_name) || duration_of ad == 0

abbrev pub timers_at : AdData → ℕ → List Timer
timers_at ad now =
    record {
      countdown = start_countdown false ad.close_button_show_countdown now;
      callback = show_close_btn;
    }
    ∷ record {
      countdown = start_countdown true (some (auto_close_of ad)) now;
      callback = close_modal;
    }
    ∷ []

-- The branch without a video opens the dialog at once.
unfoldable pub open_image : AdData → ℕ → Modal → Modal
open_image ad now m = record m {
  dialog = true;
  message = true;
  timers = m.timers ++ timers_at ad now;
}

-- The ready handler, where the page has the element.
unfoldable pub ready : AdData → ℕ → Modal → Modal
unfolding wants_ad open_image
ready ad now m =
    let hidden = record m { close_button = false } in
    if wants_ad ad m.cookies
    then (if ad.has_video then record hidden { handlers = true } else open_image ad now hidden)
    else m

pub data Event : Type 0 where
  buffer_end : Event
  play : ℕ → Event
  ended : ℕ → Event
  click_unmute : Event
  click_mute : Event

-- `vimeoPlayer.on('play', ...)`
unfoldable pub on_play : AdData → ℕ → Modal → Modal
on_play ad now m = record m {
  unmute_button = true;
  message = true;
  seconds_text = seconds (pos (auto_close_of ad));
  timers = m.timers ++ timers_at ad now;
}

-- `vimeoPlayer.on('ended', ...)`
unfoldable pub on_ended : (ℕ → Text) → AdData → ℕ → Modal → Modal
on_ended gmt ad now m = record m {
  cookies =
      if ltb 0 (duration_of ad)
      then assign (set_cookie gmt now ad.cookie_name (codes "true") (duration_of ad)) m.cookies
      else m.cookies;
  unmute_button = false;
  mute_button = false;
  close_button = true;
}

-- `unmute` and `mute`: the buttons, and the volume that the player is asked for.
unfoldable pub unmute : Modal → Modal
unmute m = record m { unmute_button = false; mute_button = true; volume = some 1 }

unfoldable pub mute : Modal → Modal
mute m = record m { unmute_button = true; mute_button = false; volume = some 0 }

-- The player's callbacks, which only the video branch installs.
unfoldable pub handle : (ℕ → Text) → AdData → Modal → Event → Modal
unfolding on_play on_ended unmute mute
handle gmt ad m buffer_end = if m.handlers then record m { dialog = true } else m
handle gmt ad m (play now) = if m.handlers then on_play ad now m else m
handle gmt ad m (ended now) = if m.handlers then on_ended gmt ad now m else m
handle gmt ad m click_unmute = if m.handlers then unmute m else m
handle gmt ad m click_mute = if m.handlers then mute m else m

-- The interval functions of all countdowns at one time: what each writes and calls.
abbrev pub call : Callback → Modal → Modal
call show_close_btn m = record m { close_button = true }
call close_modal m = record m { dialog = false }

abbrev pub text_after : ℕ → Timer → Modal → Modal
text_after now t m =
    if t.countdown.live && t.countdown.has_span
    then record m { seconds_text = (tick now t.countdown).shown }
    else m

unfoldable pub interval : ℕ → Timer → Modal → Modal
interval now t m =
    let m' = text_after now t m in
    if t.countdown.live && is_over t.countdown.deadline now then call t.callback m' else m'

unfoldable pub intervals : ℕ → List Timer → Modal → Modal
unfolding interval
intervals now [] m = m
intervals now (t ∷ ts) m = intervals now ts (interval now t m)

abbrev pub tick_timer : ℕ → Timer → Timer
tick_timer now t = record t { countdown = tick now t.countdown }

unfoldable pub tick_timers : ℕ → Modal → Modal
unfolding intervals tick
tick_timers now m = intervals now m.timers (record m { timers = map (tick_timer now) m.timers })

unfoldable pub run_timers : List ℕ → Modal → Modal
unfolding tick_timers
run_timers [] m = m
run_timers (now ∷ times) m = run_timers times (tick_timers now m)
