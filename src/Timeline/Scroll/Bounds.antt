-- ===== src/Timeline/Scroll/Bounds.antt =====
-- The timeline never leaves its wrapper: the translation stays between the limit and 0.
use lso_project.Prelude.{
  ℕ, ◌*◌, ◌≤◌, ◌≡◌, refl, sym, ◌∙◌, ◌↔◌, true, false, Option, none, some, List, [], ◌∷◌, arith,
}
use mathlib.Core.Path.{subst}
use lso_project.Timeline.{Event, Timeline}
use lso_project.Prelude.Int.{ℤ, pos, sub_ℕ, ◌+ℤ◌, ◌-ℤ◌, ◌≤ℤ◌, int_laws}
use lso_project.Timeline.Scroll.{
  limit_of, at_most_zero, at_least, equals, button_disable, translate_timeline, Direction,
  scroll_left, scroll_right, update_slide, swipe_wrapper, update_timeline_position,
}

-- The events are at least as wide as the wrapper, and no empty strip is in sight at either end.
pub record InRange (t : Timeline) : Type 0 where
  pub wide : t.wrapper_width ≤ t.total_width
  pub not_right : t.translate ≤ℤ pos 0
  pub not_left : limit_of t.wrapper_width t.total_width ≤ℤ t.translate

-- What a translation leaves alone.
translate_timeline_frame :
    (v : ℤ) (l : Option ℤ) (t : Timeline)
    → ((translate_timeline v l t).wrapper_width ≡ t.wrapper_width)
      × ((translate_timeline v l t).total_width ≡ t.total_width)
      × ((translate_timeline v l t).translate ≡ at_least l (at_most_zero v))
unfolding translate_timeline button_disable
translate_timeline_frame v l t = (refl, refl, refl)

at_least_bounds :
    (v l : ℤ)
    → l ≤ℤ pos 0
    → (at_least (some l) (at_most_zero v) ≤ℤ pos 0) × (l ≤ℤ at_least (some l) (at_most_zero v))
at_least_bounds v l h = ground arith

pub translate_timeline-InRange :
    (v : ℤ) (t : Timeline)
    → t.wrapper_width ≤ t.total_width
    → InRange (translate_timeline v (some (limit_of t.wrapper_width t.total_width)) t)
unfolding translate_timeline button_disable
translate_timeline-InRange v t h =
    let b = at_least_bounds v (limit_of t.wrapper_width t.total_width) (ground arith) in
    record { wide = h; not_right = b.0; not_left = b.1 }

translate_timeline_left-InRange :
    (v : ℤ) (t : Timeline)
    → t.wrapper_width ≤ t.total_width
    → limit_of t.wrapper_width t.total_width ≤ℤ v
    → InRange (translate_timeline v none t)
unfolding translate_timeline button_disable
translate_timeline_left-InRange v t h k = ground arith

pub update_slide-InRange :
    (d : Direction) (t : Timeline) → InRange t → InRange (update_slide t.total_width d t)
unfolding update_slide
update_slide-InRange scroll_right t v =
    translate_timeline-InRange (t.translate -ℤ pos (2 * t.wrapper_width)) t v.wide
update_slide-InRange scroll_left t v =
    translate_timeline_left-InRange (t.translate +ℤ pos (2 * t.wrapper_width)) t v.wide
      (omega (int_laws, v.not_left))

-- What a user can do to the translation: the scroll buttons, which measure the width first, a swipe of the
-- wrapper, which takes the width that a handler measured last, `timelineTotalWidth`, and the choice of an
-- event, which is brought to the middle.
pub data Scrolling : Type 0 where
  slide : Direction → Scrolling
  swipe : Direction → ℕ → Scrolling
  show : Event → Scrolling

unfoldable pub scroll : ℕ → Timeline → Scrolling → Timeline
unfolding update_slide swipe_wrapper update_timeline_position
scroll total t (slide d) = update_slide t.total_width d t
scroll total t (swipe d n) = swipe_wrapper total d n t
scroll total t (show e) = update_timeline_position e t

pub swipe_wrapper-InRange :
    (d : Direction) (n : ℕ) (t : Timeline) → InRange t → InRange (swipe_wrapper t.total_width d n t)
unfolding swipe_wrapper
swipe_wrapper-InRange scroll_left n t v =
    translate_timeline-InRange (pos (2 * n) +ℤ t.translate) t v.wide
swipe_wrapper-InRange scroll_right n t v =
    translate_timeline-InRange (t.translate -ℤ pos (2 * n)) t v.wide

scroll-InRange :
    (total : ℕ) (t : Timeline) (s : Scrolling)
    → total ≡ t.total_width
    → InRange t
    → InRange (scroll total t s)
unfolding scroll
scroll-InRange total t (slide d) e v = update_slide-InRange d t v
scroll-InRange total t (swipe d n) e v =
    subst (λ w. InRange (swipe_wrapper w d n t)) (sym e) (swipe_wrapper-InRange d n t v)
scroll-InRange total t (show x) e v =
    translate_timeline-InRange (sub_ℕ t.wrapper_width (2 * x.left)) t v.wide

scroll-total_width :
    (total : ℕ) (t : Timeline) (s : Scrolling) → (scroll total t s).total_width ≡ t.total_width
unfolding scroll update_slide swipe_wrapper update_timeline_position translate_timeline
    button_disable
scroll-total_width total t (slide scroll_left) = refl
scroll-total_width total t (slide scroll_right) = refl
scroll-total_width total t (swipe scroll_left n) = refl
scroll-total_width total t (swipe scroll_right n) = refl
scroll-total_width total t (show x) = refl

unfoldable pub scroll_all : ℕ → Timeline → List Scrolling → Timeline
scroll_all total t [] = t
scroll_all total t (s ∷ rest) = scroll_all total (scroll total t s) rest

-- From a timeline in range, and as long as the width that a handler measured last is still that of the
-- timeline, every sequence of scrolls, swipes of the wrapper and choices, of any distance, leads to a
-- timeline in range.
pub scroll_all-InRange :
    (rest : List Scrolling) (total : ℕ) (t : Timeline)
    → total ≡ t.total_width
    → InRange t
    → InRange (scroll_all total t rest)
unfolding scroll_all
scroll_all-InRange [] total t e v = v
scroll_all-InRange (s ∷ rest) total t e v =
    scroll_all-InRange rest total (scroll total t s) (e ∙ sym (scroll-total_width total t s))
      (scroll-InRange total t s e v)

eqb_ℤ_iff : (a b : ℤ) → (equals a (some b) ≡ true) ↔ (a ≡ b)
eqb_ℤ_iff a b = ground arith

-- After a translation with a limit the left button is inactive exactly at 0, and the right button
-- exactly at the limit.
pub translate_timeline-buttons :
    (v l : ℤ) (t : Timeline)
    → let t' = translate_timeline v (some l) t in
      ((t'.buttons.left_inactive ≡ true) ↔ (t'.translate ≡ pos 0))
      × ((t'.buttons.right_inactive ≡ true) ↔ (t'.translate ≡ l))
unfolding translate_timeline button_disable
translate_timeline-buttons v l t = (
  eqb_ℤ_iff (at_least (some l) (at_most_zero v)) (pos 0),
  eqb_ℤ_iff (at_least (some l) (at_most_zero v)) l,
)

-- On a timeline in range that fits its wrapper exactly, a scroll to the left makes the right button
-- active, since it gives no limit, though nothing can be scrolled: the next scroll to the right
-- moves nothing.
pub update_slide-fits :
    (t : Timeline)
    → InRange t
    → t.wrapper_width ≡ t.total_width
    → let t' = update_slide t.total_width scroll_left t in
      (t'.buttons.right_inactive ≡ false)
      × (t'.translate ≡ pos 0)
      × ((update_slide t.total_width scroll_right t').translate ≡ pos 0)
unfolding update_slide translate_timeline button_disable ◌+ℤ◌ ◌-ℤ◌
update_slide-fits t v e =
    (refl, ground (arith, v.not_right, v.not_left), ground (arith, v.not_right, v.not_left))
