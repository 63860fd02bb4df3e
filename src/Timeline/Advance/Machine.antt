-- ===== src/Timeline/Advance/Machine.antt =====
-- The events of `changeButtons`, in any order: what the user did last decides the pause, the icon and
-- the class of the button.
use lso_project.Prelude.{◌≡◌, refl, sym, Bool, true, false, List, [], ◌∷◌, arith}
use lso_project.Timeline.{MouseEvent, no_mouse, click, hover, Autoplay}
use mathlib.Core.Path.{subst}
use lso_project.Timeline.Cycle.{
  ButtonEvent, click_pause, click_play, mouse_enter, mouse_leave, change_buttons,
}

-- Who holds the cycle after an event: nobody, the mouse over the content, or a click on the button,
-- which only another click ends.
unfoldable pub holder : ButtonEvent → MouseEvent → MouseEvent
holder click_pause m = click
holder click_play m = no_mouse
holder mouse_enter click = click
holder mouse_enter hover = hover
holder mouse_enter no_mouse = hover
holder mouse_leave click = click
holder mouse_leave hover = no_mouse
holder mouse_leave no_mouse = no_mouse

abbrev pub holders : MouseEvent → List ButtonEvent → MouseEvent
holders m [] = m
holders m (b ∷ bs) = holders (holder b m) bs

abbrev pub change_all : Autoplay → List ButtonEvent → Autoplay
change_all a [] = a
change_all a (b ∷ bs) = change_all (change_buttons b a) bs

abbrev pub held : MouseEvent → Bool
held no_mouse = false
held click = true
held hover = true

abbrev pub by_click : MouseEvent → Bool
by_click no_mouse = false
by_click click = true
by_click hover = false

-- The cycle is held by m: it is paused and offers the play button unless m is nobody, and its
-- button has the class of a click only if m is one.
pub record Held (m : MouseEvent) (a : Autoplay) : Type 0 where
  pub mouse : a.mouse_event ≡ m
  pub paused : a.is_paused ≡ held m
  pub icon : a.shows_play ≡ held m
  pub class : a.clicked ≡ by_click m

hover_enter-Held :
    (m : MouseEvent) (a : Autoplay)
    → Held m a
    → Held (holder mouse_enter m) (change_buttons mouse_enter a)
unfolding change_buttons holder
hover_enter-Held click a h =
    let same : change_buttons mouse_enter a ≡ a = ground (arith, h.class) in
    subst (Held click) (sym same) h
hover_enter-Held hover a h =
    rw (h.class) (record { mouse = refl; paused = refl; icon = refl; class = refl })
hover_enter-Held no_mouse a h =
    rw (h.class) (record { mouse = refl; paused = refl; icon = refl; class = refl })

hover_leave-Held :
    (m : MouseEvent) (a : Autoplay)
    → Held m a
    → Held (holder mouse_leave m) (change_buttons mouse_leave a)
unfolding change_buttons holder
hover_leave-Held click a h =
    let same : change_buttons mouse_leave a ≡ a = ground (arith, h.class) in
    subst (Held click) (sym same) h
hover_leave-Held hover a h =
    rw (h.class) (record { mouse = refl; paused = refl; icon = refl; class = refl })
hover_leave-Held no_mouse a h =
    rw (h.class) (record { mouse = refl; paused = refl; icon = refl; class = refl })

change_buttons-Held :
    (b : ButtonEvent) (m : MouseEvent) (a : Autoplay)
    → Held m a
    → Held (holder b m) (change_buttons b a)
unfolding change_buttons holder
change_buttons-Held click_pause m a h = record {
  mouse = refl;
  paused = refl;
  icon = refl;
  class = refl;
}
change_buttons-Held click_play m a h = record {
  mouse = refl;
  paused = refl;
  icon = refl;
  class = refl;
}
change_buttons-Held mouse_enter m a h = hover_enter-Held m a h
change_buttons-Held mouse_leave m a h = hover_leave-Held m a h

-- After any sequence of clicks on the button and moves of the mouse onto and off the content, a
-- cycle that was held by m is held by who the sequence leaves it to: its pause, its icon and its
-- class say so, and a pause by a click outlasts the mouse.
pub change_all-Held :
    (bs : List ButtonEvent) (m : MouseEvent) (a : Autoplay)
    → Held m a
    → Held (holders m bs) (change_all a bs)
change_all-Held [] m a h = h
change_all-Held (b ∷ bs) m a h =
    change_all-Held bs (holder b m) (change_buttons b a) (change_buttons-Held b m a h)
