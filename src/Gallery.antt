-- ===== src/Gallery.antt =====
-- The media gallery of FIGC_Script.js: the videos in the slides of slick-lightbox, which load when their
-- slide comes and are cleared when it has gone. slick calls `init` and `beforeChange`, and keeps the
-- number of the current slide.
pub mod Videos
use lso_project.Prelude.{
  ℕ, zero, suc, ◌+◌, Bool, true, false, Option, none, some, List, [], ◌∷◌, ◌++◌, map, leb,
  if◌then◌else◌, Text,
}

-- An iframe `.slick-lightbox-slick-iframe`: its attributes `src` and `data-src`.
pub record Frame : Type 0 where
  pub src : Text
  pub data_src : Text

-- A slide has one or none. A timer is the time when it is due and the number of its slide.
pub record Gallery : Type 0 where
  pub slides : List (Option Frame)
  pub timers : List (ℕ × ℕ)
  pub current : ℕ

-- The address moves from `src` to `data-src`.
abbrev pub prepare : Option Text → Option Frame
prepare none = none
prepare (some s) = some (record { src = []; data_src = s })

abbrev pub has_iframe : ℕ → List (Option Frame) → Bool
has_iframe i [] = false
has_iframe zero (none ∷ fs) = false
has_iframe zero (some f ∷ fs) = true
has_iframe (suc i) (f ∷ fs) = has_iframe i fs

-- `$iframe.attr('src', …)` on the iframe of a slide: its own address or none.
abbrev pub on_slide : (Frame → Frame) → ℕ → List (Option Frame) → List (Option Frame)
on_slide g i [] = []
on_slide g zero (none ∷ fs) = none ∷ fs
on_slide g zero (some f ∷ fs) = some (g f) ∷ fs
on_slide g (suc i) (f ∷ fs) = f ∷ on_slide g i fs

abbrev pub loaded : Frame → Frame
loaded f = record f { src = f.data_src }

abbrev pub emptied : Frame → Frame
emptied f = record f { src = [] }

-- `loadIframe`
unfoldable pub load_iframe : ℕ → Gallery → Gallery
load_iframe i g =
    if has_iframe i g.slides then record g { slides = on_slide loaded i g.slides } else g

-- `clearIframe`, at the time `now`: the iframe is emptied after the time that slick's animation takes.
unfoldable pub clear_iframe : ℕ → ℕ → ℕ → Gallery → Gallery
clear_iframe speed now i g =
    if has_iframe i g.slides then record g { timers = g.timers ++ (now + speed, i) ∷ [] } else g

-- The timers that are due by `now` run in their order.
abbrev pub fire : ℕ → List (ℕ × ℕ) → List (Option Frame) → List (Option Frame)
fire now [] fs = fs
fire now ((due, i) ∷ ts) fs = fire now ts (if leb due now then on_slide emptied i fs else fs)

abbrev pub pending : ℕ → List (ℕ × ℕ) → List (ℕ × ℕ)
pending now [] = []
pending now ((due, i) ∷ ts) =
    let rest = pending now ts in if leb due now then rest else (due, i) ∷ rest

unfoldable pub run_timers : ℕ → Gallery → Gallery
run_timers now g = record g { slides = fire now g.timers g.slides; timers = pending now g.timers }

-- `slick` and its event `init`, on the addresses of the videos.
unfoldable pub open_gallery : ℕ → List (Option Text) → Gallery
unfolding load_iframe
open_gallery first srcs =
    load_iframe first (record { slides = map prepare srcs; timers = []; current = first })

-- `beforeChange`, after the timers that were due before; then slick's current slide is the next one.
unfoldable pub before_change : ℕ → ℕ → ℕ → Gallery → Gallery
unfolding load_iframe clear_iframe run_timers
before_change speed now next g =
    let g' = load_iframe next (clear_iframe speed now g.current (run_timers now g)) in
    record g' { current = next }

-- The changes of a visit: when they come, and to which slide.
abbrev pub change_slides : ℕ → List (ℕ × ℕ) → Gallery → Gallery
change_slides speed [] g = g
change_slides speed ((now, next) ∷ ms) g = change_slides speed ms (before_change speed now next g)
