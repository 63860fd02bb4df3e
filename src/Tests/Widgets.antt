-- ===== src/Tests/Widgets.antt =====
-- Poll.antt, Carousel.antt, Sliders.antt, Gallery.antt, Timeline/Debounce.antt and Timeline/Files.antt at concrete inputs.
use lso_project.Prelude.{
  ℕ, ◌≡◌, refl, inl, inr, Bool, true, false, Option, none, some, List, [], ◌∷◌, arith, ltb, Text,
  codes,
}
use lso_project.Timeline.{◌>>=◌}
use lso_project.Timeline.{defaults}
use lso_project.Prelude.{strip_prefix, text_eq}
use lso_project.Timeline.Files.{
  Files, touch_swipe, start_all, add_file, library_name, behind, ahead, add_named, file_exists,
}
use lso_project.Sliders.{Breakpoint, calciatori, tecnici, slider_of}
use lso_project.Sliders.Fits.{Listed}
use lso_project.Gallery.{
  run_timers, open_gallery, before_change, change_slides, load_iframe, clear_iframe,
}
use lso_project.Gallery.Videos.{still, change_slides-still}
use lso_project.Poll.{Poll, click}
use lso_project.Poll.Chosen.{clicks, only, clicks-last}
use lso_project.Carousel.{Carousel}
use lso_project.Carousel.Quiet.{play, go, inputs, Quiet, inputs-Quiet}
use lso_project.Timeline.Debounce.{runs_of}
use lso_project.Timeline.Debounce.Bursts.{runs_of-bursts}

abbrev no_files : Files
no_files = record { loaded_file = none; scripts = []; links = []; fetches = []; ran = [] }

-- The last entry for windows that are wider.
abbrev or_this : Option Breakpoint → Bool → Breakpoint → Option Breakpoint
or_this (some c) t b = some c
or_this none true b = some b
or_this none false b = none

abbrev last_wider : ℕ → List Breakpoint → Option Breakpoint
last_wider w [] = none
last_wider w (b ∷ bs) = or_this (last_wider w bs) (ltb w b.breakpoint) b

or_this-Listed :
    (b c : Breakpoint) (bs : List Breakpoint) (o : Option Breakpoint) (t : Bool)
    → ((d : Breakpoint) → o ≡ some d → Listed d bs)
    → or_this o t b ≡ some c
    → Listed c (b ∷ bs)
or_this-Listed b c bs (some d) t h e = inr (h c e)
or_this-Listed b c bs none true h e = let q : c ≡ b = cc in inl q
or_this-Listed b c bs none false h e = cc

last_wider-Listed :
    (w : ℕ) (bs : List Breakpoint) (b : Breakpoint) → last_wider w bs ≡ some b → Listed b bs
last_wider-Listed w [] b e = cc
last_wider-Listed w (x ∷ bs) b e =
    or_this-Listed x b bs (last_wider w bs) (ltb w x.breakpoint) (λ d. last_wider-Listed w bs d) e

abbrev items_at : ℕ → Option ℕ
items_at w = (last_wider w (slider_of calciatori).responsive) >>= (λ (b : Breakpoint). some b.item)

more_on_a_phone : items_at 700 ≡ some 4
unfolding slider_of
more_on_a_phone = refl

fewer_on_a_tablet : items_at 800 ≡ some 3
unfolding slider_of
fewer_on_a_tablet = refl

-- The coaches' slider with two items shows four of them in a window narrower than 1200 pixels.
two_coaches :
    ((last_wider 1100 (slider_of (tecnici (some 2))).responsive)
      >>= (λ (b : Breakpoint). some b.item))
    ≡ some 4
unfolding slider_of
two_coaches = refl

abbrev videos : List (Option Text)
videos = some (codes "first") ∷ none ∷ some (codes "last") ∷ []

change_slides-still_example :
    run_timers 1000 (change_slides 500 ((0, 1) ∷ (500, 2) ∷ []) (open_gallery 0 videos))
    ≡ still 2 videos
change_slides-still_example =
    change_slides-still 500 0 1000 videos ((0, 1) ∷ (500, 2) ∷ []) (omega arith) (omega arith)

-- Back within the animation's time, the video of the slide that is shown is emptied.
too_quick :
    (run_timers 1000 (change_slides 500 ((0, 2) ∷ (100, 0) ∷ []) (open_gallery 0 videos))).slides
    ≡ (still 1 videos).slides
unfolding run_timers before_change open_gallery load_iframe clear_iframe
too_quick = refl

runs_of-bursts_example : runs_of 250 false (0 ∷ 100 ∷ 400 ∷ []) ≡ 350 ∷ 650 ∷ []
runs_of-bursts_example = runs_of-bursts 250 false (0 ∷ 100 ∷ 400 ∷ [])

abbrev fetched_and_ran : Option Files → List Text × List Text
fetched_and_ran none = ([], [])
fetched_and_ran (some f) = (f.fetches, f.ran)

second_at_once :
    fetched_and_ran (start_all (defaults ∷ defaults ∷ []) no_files)
    ≡ (touch_swipe ∷ [], touch_swipe ∷ [])
unfolding add_file library_name behind ahead add_named file_exists text_eq strip_prefix
second_at_once = refl

abbrev poll : Poll
poll = record {
  cards =
      record { answer = some (codes "yes"); selected = true }
      ∷ record { answer = some (codes "no"); selected = false }
      ∷ record { answer = none; selected = false }
      ∷ [];
  selected_answer = codes "yes";
}

clicks-last_example :
    click 1 (clicks (2 ∷ 0 ∷ []) poll)
    ≡ record { cards = only 1 poll.cards; selected_answer = codes "no" }
clicks-last_example = clicks-last (2 ∷ 0 ∷ []) 1 (codes "no") poll refl

-- A video, an iframe and a video.
abbrev videos_and_iframe : Carousel
videos_and_iframe = record {
  items =
      record { videos = false ∷ []; iframes = [] }
      ∷ record { videos = []; iframes = [] ∷ [] }
      ∷ record { videos = false ∷ []; iframes = [] }
      ∷ [];
  posts = true ∷ false ∷ false ∷ [];
  current = 0;
}

inputs-Quiet_example : Quiet (inputs (play 0 ∷ go 1 ∷ go 2 ∷ play 0 ∷ []) videos_and_iframe)
inputs-Quiet_example = inputs-Quiet (play 0 ∷ go 1 ∷ go 2 ∷ play 0 ∷ []) videos_and_iframe (record {
  single = (omega arith, (omega arith, (omega arith, tt)));
  elsewhere = (tt, ((refl, tt), tt));
})
