-- ===== src/Gallery/Videos.antt =====
-- Which videos are loaded.
use lso_project.Prelude.{
  ℕ, zero, suc, ◌+◌, ◌≤◌, ◌≡◌, refl, sym, ap, ◌∙◌, ◌≢◌, inl, inr, Bool, true, false, Option, none,
  some, List, [], ◌∷◌, map, arith, leb, ◌==◌, Bool-cases, if◌then◌else◌, Text,
}
use mathlib.Core.Path.{subst}
use lso_project.Gallery.{
  Frame, Gallery, prepare, has_iframe, on_slide, loaded, emptied, load_iframe, clear_iframe,
  run_timers, open_gallery, before_change, change_slides,
}

-- The slides where exactly the videos that p names are loaded.
abbrev pub frame : Bool → Option Text → Option Frame
frame b none = none
frame b (some s) = some (record { src = if b then s else []; data_src = s })

abbrev pub frames : (ℕ → Bool) → List (Option Text) → List (Option Frame)
frames p [] = []
frames p (o ∷ os) = frame (p 0) o ∷ frames (λ i. p (suc i)) os

abbrev has_video : ℕ → List (Option Text) → Bool
has_video i [] = false
has_video zero (none ∷ os) = false
has_video zero (some s ∷ os) = true
has_video (suc i) (o ∷ os) = has_video i os

has_iframe-frames :
    (i : ℕ) (p : ℕ → Bool) (os : List (Option Text)) → has_iframe i (frames p os) ≡ has_video i os
has_iframe-frames i p [] = refl
has_iframe-frames zero p (none ∷ os) = refl
has_iframe-frames zero p (some s ∷ os) = refl
has_iframe-frames (suc i) p (o ∷ os) = has_iframe-frames i (λ j. p (suc j)) os

-- Only the videos that there are count.
frames-same :
    (p q : ℕ → Bool) (os : List (Option Text))
    → ((i : ℕ) → has_video i os ≡ true → p i ≡ q i)
    → frames p os ≡ frames q os
frames-same p q [] h = refl
frames-same p q (none ∷ os) h =
    ap (λ fs. none ∷ fs) (frames-same (λ i. p (suc i)) (λ i. q (suc i)) os (λ i v. h (suc i) v))
frames-same p q (some s ∷ os) h =
    cc (h 0 refl, frames-same (λ i. p (suc i)) (λ i. q (suc i)) os (λ i v. h (suc i) v))

-- A video is loaded or emptied.
module _ (g : Frame → Frame) (b : Bool)
    (sets : (c : Bool) (s : Text)
      → g (record { src = if c then s else []; data_src = s })
        ≡ record { src = if b then s else []; data_src = s }) where
  on_slide-frames :
      (i : ℕ) (p : ℕ → Bool) (os : List (Option Text))
      → on_slide g i (frames p os) ≡ frames (λ j. if j == i then b else p j) os
  on_slide-frames i p [] = refl
  on_slide-frames zero p (none ∷ os) =
      ap (λ fs. none ∷ fs) (frames-same _ _ os (λ i v. ground arith))
  on_slide-frames zero p (some s ∷ os) =
      let rest : frames (λ i. p (suc i)) os ≡ frames (λ i. if suc i == 0 then b else p (suc i)) os =
        frames-same _ _ os (λ i v. ground arith) in
      cc (sets (p 0) s, rest)
  on_slide-frames (suc i) p (o ∷ os) =
      let first : p 0 ≡ (if 0 == suc i then b else p 0) = ground arith in
      let rest : frames (λ j. if j == i then b else p (suc j)) os
          ≡ frames (λ j. if suc j == suc i then b else p (suc j)) os =
        frames-same _ _ os (λ j v. ground arith) in
      cc (ap (λ c. frame c o) first, on_slide-frames i (λ j. p (suc j)) os, rest)

-- The gallery stands still: the video of the current slide is loaded and no other one, and no timer
-- is set.
abbrev pub still : ℕ → List (Option Text) → Gallery
still k os = record { slides = frames (λ i. i == k) os; timers = []; current = k }

-- From `time` on the timers bring the gallery to stand still.
abbrev Settles : ℕ → ℕ → List (Option Text) → Gallery → Type 0
Settles time k os g = (now : ℕ) → time ≤ now → run_timers now g ≡ still k os

run_timers-still : (now k : ℕ) (os : List (Option Text)) → run_timers now (still k os) ≡ still k os
unfolding run_timers
run_timers-still now k os = refl

load_iframe-frames :
    (k : ℕ) (p : ℕ → Bool) (os : List (Option Text)) (ts : List (ℕ × ℕ)) (c : ℕ)
    → load_iframe k (record { slides = frames p os; timers = ts; current = c })
      ≡ record { slides = frames (λ j. if j == k then true else p j) os; timers = ts; current = c }
unfolding load_iframe
load_iframe-frames k p os ts c = elim (Bool-cases (has_video k os)) [
  | inl there ↦
      rw (has_iframe-frames k p os, there)
        (ap (λ fs. record { slides = fs; timers = ts; current = c })
          (on_slide-frames loaded true (λ b s. refl) k p os))
  | inr absent ↦
      rw (has_iframe-frames k p os, absent)
        (ap (λ fs. record { slides = fs; timers = ts; current = c })
          (frames-same _ _ os (λ i v. other_slide i v absent)))
]
  where
    other_slide :
        (i : ℕ)
        → has_video i os ≡ true
        → has_video k os ≡ false
        → p i ≡ (if i == k then true else p i)
    other_slide i v absent = elim (Bool-cases (i == k)) [
      | inl same ↦ let e : i ≡ k = ground arith in cc (ap (λ j. has_video j os) e, v, absent)
      | inr differs ↦ rw differs refl
    ]

map-prepare : (os : List (Option Text)) → map prepare os ≡ frames (λ i. false) os
map-prepare [] = refl
map-prepare (none ∷ os) = ap (λ fs. none ∷ fs) (map-prepare os)
map-prepare (some s ∷ os) =
    ap (λ fs. some (record { src = []; data_src = s }) ∷ fs) (map-prepare os)

open_gallery-still : (k : ℕ) (os : List (Option Text)) → open_gallery k os ≡ still k os
unfolding open_gallery
open_gallery-still k os =
    ap (λ fs. load_iframe k (record { slides = fs; timers = []; current = k })) (map-prepare os)
    ∙ load_iframe-frames k (λ i. false) os [] k
    ∙ ap (λ fs. record { slides = fs; timers = []; current = k })
        (frames-same _ _ os (λ i v. ground arith))

-- The gallery while slick moves from slide k to slide j.
abbrev moving : ℕ → ℕ → ℕ → List (Option Text) → Bool → Gallery
moving due k j os b = record {
  slides = frames (λ i. if i == j then true else i == k) os;
  timers = if b then (due, k) ∷ [] else [];
  current = j;
}

clear_iframe-still :
    (speed t k : ℕ) (os : List (Option Text))
    → clear_iframe speed t k (still k os)
      ≡ record (still k os) { timers = if has_video k os then (t + speed, k) ∷ [] else [] }
unfolding clear_iframe
clear_iframe-still speed t k os = elim (Bool-cases (has_video k os)) [
  | inl there ↦ rw (has_iframe-frames k (λ i. i == k) os, there) refl
  | inr absent ↦ rw (has_iframe-frames k (λ i. i == k) os, absent) refl
]

before_change-still :
    (speed t j k : ℕ) (os : List (Option Text)) (g : Gallery)
    → run_timers t g ≡ still k os
    → before_change speed t j g ≡ moving (t + speed) k j os (has_video k os)
unfolding before_change
before_change-still speed t j k os g h =
    let at : g.current ≡ k = unfold run_timers in ap (λ (x : Gallery). x.current) h in
    let ts : List (ℕ × ℕ) = if has_video k os then (t + speed, k) ∷ [] else [] in
    ap (λ (x : Gallery). record (load_iframe j (clear_iframe speed t g.current x)) { current = j })
      h
    ∙ ap (λ i. record (load_iframe j (clear_iframe speed t i (still k os))) { current = j }) at
    ∙ ap (λ (x : Gallery). record (load_iframe j x) { current = j })
        (clear_iframe-still speed t k os)
    ∙ ap (λ (x : Gallery). record x { current = j }) (load_iframe-frames j (λ i. i == k) os ts k)

moving-Settles :
    (due k j : ℕ) (os : List (Option Text)) (b : Bool)
    → has_video k os ≡ b
    → j ≢ k
    → Settles due j os (moving due k j os b)
unfolding run_timers
moving-Settles due k j os true v ne now le =
    let is_due : leb due now ≡ true = ground arith in
    rw is_due (
      ap (λ fs. record { slides = fs; timers = []; current = j })
        (on_slide-frames emptied false (λ c s. refl) k (λ i. if i == j then true else i == k) os
          ∙ frames-same _ _ os (λ i w. ground arith)))
moving-Settles due k j os false v ne now le =
    ap (λ fs. record { slides = fs; timers = []; current = j })
      (frames-same _ _ os (λ i w. only i w))
  where
    only : (i : ℕ) → has_video i os ≡ true → (if i == j then true else i == k) ≡ (i == j)
    only i w = elim (Bool-cases (i == k)) [
      | inl same ↦ let e : i ≡ k = ground arith in cc (ap (λ x. has_video x os) e, w, v)
      | inr differs ↦ ground (arith, differs)
    ]

-- The changes of a visit come one after the other, to another slide each, and never before the
-- animation of the last one has ended.
abbrev pub Calm : ℕ → ℕ → ℕ → List (ℕ × ℕ) → Type 0
Calm speed time k [] = Unit
Calm speed time k ((now, next) ∷ ms) = (time ≤ now) × (next ≢ k) × Calm speed (now + speed) next ms

abbrev pub last_slide : ℕ → List (ℕ × ℕ) → ℕ
last_slide k [] = k
last_slide k ((now, next) ∷ ms) = last_slide next ms

abbrev pub end_time : ℕ → ℕ → List (ℕ × ℕ) → ℕ
end_time speed time [] = time
end_time speed time ((now, next) ∷ ms) = end_time speed (now + speed) ms

change_slides-Settles :
    (speed time k : ℕ) (os : List (Option Text)) (ms : List (ℕ × ℕ)) (g : Gallery)
    → Settles time k os g
    → Calm speed time k ms
    → Settles (end_time speed time ms) (last_slide k ms) os (change_slides speed ms g)
change_slides-Settles speed time k os [] g h c = h
change_slides-Settles speed time k os ((now, next) ∷ ms) g h c =
    let after_change = before_change-still speed now next k os g (h now c.0) in
    change_slides-Settles speed (now + speed) next os ms (before_change speed now next g)
      (subst (Settles (now + speed) next os) (sym after_change)
        (moving-Settles (now + speed) k next os (has_video k os) refl c.1))
      c.2

-- If slick changes to another slide each time, and not before the animation of the last change has
-- ended, then after any number of changes and once that time has passed again, the video of the
-- current slide is the only one that is loaded, with its own address, and no timer is left.
pub change_slides-still :
    (speed k now : ℕ) (os : List (Option Text)) (ms : List (ℕ × ℕ))
    → Calm speed 0 k ms
    → end_time speed 0 ms ≤ now
    → run_timers now (change_slides speed ms (open_gallery k os)) ≡ still (last_slide k ms) os
change_slides-still speed k now os ms c le =
    change_slides-Settles speed 0 k os ms (open_gallery k os)
      (λ t _. ap (run_timers t) (open_gallery-still k os) ∙ run_timers-still t k os) c now le
