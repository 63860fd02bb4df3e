-- ===== src/Timeline/Session/Kept.antt =====
-- What the choice of an event keeps: what the links have apart from the classes `selected` and
-- `older_event`, and what the restarts of the cycle keep of its state.
use lso_project.Prelude.{
  ℕ, zero, suc, ◌+◌, ◌*◌, ◌≡◌, refl, sym, ap, ◌∙◌, inl, inr, Bool, true, false, Option, none, some,
  List, [], ◌∷◌, map, leb, if◌then◌else◌, get_elem?, last?, Text,
}
use lso_project.Timeline.{
  Settings, Autoplay, Event, Timeline, ◌>>=◌, find_index, event_flags, content_flags,
}
use mathlib.Core.Path.{subst}
use lso_project.Timeline.Scroll.{
  update_timeline_position, translate_timeline, button_disable, update_slide,
}
use lso_project.Timeline.Holds.{Holds, bind-Holds, bind_any-Holds, if-Holds}
use lso_project.Timeline.Layout.{set_timeline_width, selected_event}
use lso_project.Timeline.Cycle
use lso_project.Timeline.Cycle.{moved, stopped, clear_interval}
use lso_project.Timeline.Select.{
  Step, new_event, has_content, add_selected, remove_selected, remove_all, update_older_events,
  update_filling, show_content, update_visible_content, show_event, show_new_content, click_shown,
  choose_link, click_event, translate_goto_timeline,
}
use lso_project.Timeline.Handlers.{
  Button, next_button, prev_button, scroll_right_button, scroll_left_button, is_inactive, press,
  click_button, mousewheel, swipe, choose_if, keyboard_keys, Window, Box,
}
use lso_project.Timeline.Handlers.Arrivals.{Action, click_on, wheel, swiped, key, act}
use lso_project.Timeline.Select.{targets, after}
use lso_project.Timeline.Select.Notice.{notify_autoplay_lem}
use lso_project.Timeline.Advance.{interval, with_progress, next_step, passed}

-- The cycle as `start` leaves it.
abbrev pub begun : Autoplay → Autoplay
begun a = record a { progress = 0; is_paused = false; intervals = a.intervals + 1 }

-- The same links, settings and cycle.
abbrev SameLinks : Timeline → Timeline → Type 0
SameLinks t u = (u.events ≡ t.events) × (u.settings ≡ t.settings) × (u.autoplay ≡ t.autoplay)

width-SameLinks : (t : Timeline) → Holds (SameLinks t) (set_timeline_width t)
unfolding set_timeline_width update_timeline_position translate_timeline button_disable
width-SameLinks t =
    bind_any-Holds (SameLinks t) (last? t.events) _
      (λ e. bind_any-Holds (SameLinks t) (selected_event t.events) _ (λ s. (refl, refl, refl)))

module _ {A : Type 0} (f : Event → A)
    (select : (e : Event) (b : Bool) → f (record e { selected = b }) ≡ f e)
    (age : (e : Event) (b : Bool) → f (record e { older_event = b }) ≡ f e) where
  map-add_selected : (k : ℕ) (es : List Event) → map f (add_selected k es) ≡ map f es
  map-add_selected k [] = refl
  map-add_selected zero (e ∷ es) = ap (λ x. x ∷ map f es) (select e true)
  map-add_selected (suc k) (e ∷ es) = ap (λ xs. f e ∷ xs) (map-add_selected k es)

  map-remove_selected :
      (bs : List Bool) (es : List Event) → map f (remove_selected bs es) ≡ map f es
  map-remove_selected [] es = refl
  map-remove_selected (b ∷ bs) [] = refl
  map-remove_selected (b ∷ bs) (e ∷ es) =
      cc (select e (if b then false else e.selected), map-remove_selected bs es)

  map-remove_all : (es : List Event) → map f (remove_all es) ≡ map f es
  map-remove_all [] = refl
  map-remove_all (e ∷ es) = cc (select e false, map-remove_all es)

  map-younger :
      (es : List Event)
      → map f (map (λ (e : Event). record e { older_event = false }) es) ≡ map f es
  map-younger [] = refl
  map-younger (e ∷ es) = cc (age e false, map-younger es)

  map-update_older_events : (k : ℕ) (es : List Event) → map f (update_older_events k es) ≡ map f es
  unfolding update_older_events
  map-update_older_events k [] = refl
  map-update_older_events zero (e ∷ es) =
      cc (age e (if e.selected then false else e.older_event), map-younger es)
  map-update_older_events (suc k) (e ∷ es) = cc (age e true, map-update_older_events k es)

  -- The timeline's links have the values of `f` that are given, and its settings and cycle are as Q says.
  abbrev pub Kept : (Settings → Autoplay → Type 0) → List A → Timeline → Type 0
  Kept Q xs t = (map f t.events ≡ xs) × Q t.settings t.autoplay

  module _ (Q : Settings → Autoplay → Type 0)
      (restart : (s : Settings) (a : Autoplay)
        → s.autoplay ≡ true
        → Q s a
        → Q s (begun (clear_interval a)))
      (advance : (s : Settings) (a : Autoplay) (p : ℕ) → Q s a → Q s (record a { progress = p }))
      (xs : List A) where
    set_timeline_width-Kept :
        (t : Timeline) → Kept Q xs t → Holds (Kept Q xs) (set_timeline_width t)
    unfolding set_timeline_width update_timeline_position translate_timeline button_disable
    set_timeline_width-Kept t h =
        bind_any-Holds (Kept Q xs) (last? t.events) _
          (λ e. bind_any-Holds (Kept Q xs) (selected_event t.events) _ (λ s. h))

    moved-Kept :
        (t : Timeline) → t.settings.autoplay ≡ true → Kept Q xs t → Holds (Kept Q xs) (moved t)
    unfolding moved Cycle.start
    moved-Kept t on h = if-Holds (Kept Q xs) t.autoplay.clicked _ _ h (
        bind-Holds (SameLinks (stopped t)) (Kept Q xs) (set_timeline_width (stopped t)) _
          (width-SameLinks (stopped t))
          (λ u (es, p, q). (
            ap (map f) es ∙ h.0,
            subst (λ s. Q s (begun u.autoplay)) (sym p)
                (subst (λ a. Q t.settings (begun a)) (sym q)
                  (restart t.settings t.autoplay on h.1)),
          )))

    update_visible_content-Kept :
        (d : Text) (t : Timeline) → Kept Q xs t → Holds (Kept Q xs) (update_visible_content d t)
    unfolding update_visible_content
    update_visible_content-Kept d t h =
        let right =
          after (find_index (targets d t.contents)) (find_index (content_flags t.contents)) in
        let u = record t { contents = map (show_content d right) t.contents } in
        elim (notify_autoplay_lem u _ _ refl refl) [
          | inl (goes, on) ↦ subst (Holds (Kept Q xs)) (sym goes) (moved-Kept u on h)
          | inr stays ↦ subst (Holds (Kept Q xs)) (sym stays) h
        ]

    show_event-Kept :
        (total k : ℕ) (t : Timeline) → Kept Q xs t → Holds (Kept Q xs) (show_event total k t)
    unfolding show_event update_filling update_timeline_position translate_timeline button_disable
    show_event-Kept total k t h = bind_any-Holds (Kept Q xs) (get_elem? t.events k) _ (λ e.
        bind-Holds (Kept Q xs) (Kept Q xs) (update_visible_content e.date t) _
          (update_visible_content-Kept e.date t h)
          (λ u p. (
            map-update_older_events k
                  (remove_selected (event_flags u.events) (add_selected k u.events))
                ∙ map-remove_selected (event_flags u.events) (add_selected k u.events)
                ∙ map-add_selected k u.events
                ∙ p.0,
            p.1,
          )))

    show_new_content-Kept :
        (total : ℕ) (s : Step) (t : Timeline)
        → Kept Q xs t
        → Holds (Kept Q xs) (show_new_content total s t)
    unfolding show_new_content
    show_new_content-Kept total s t h =
        if-Holds (Kept Q xs) (has_content s (content_flags t.contents)) _ _
          (bind_any-Holds (Kept Q xs) (new_event s t.events) _ (λ k. show_event-Kept total k t h)) h

    click_shown-Kept :
        (e : Event) (t : Timeline) → Kept Q xs t → Holds (Kept Q xs) (click_shown e t)
    unfolding update_filling update_timeline_position translate_timeline button_disable
    click_shown-Kept e t h =
        bind-Holds (Kept Q xs) (Kept Q xs)
          (update_visible_content e.date (update_filling e t.total_width t)) _
          (update_visible_content-Kept e.date (update_filling e t.total_width t) h) (λ u k. k)

    choose_link-Kept : (k : ℕ) (t : Timeline) → Kept Q xs t → Kept Q xs (choose_link k t)
    choose_link-Kept k t h = (
      map-update_older_events k (add_selected k (remove_all t.events))
          ∙ map-add_selected k (remove_all t.events)
          ∙ map-remove_all t.events
          ∙ h.0,
      h.1,
    )

    pub click_event-Kept :
        (k : ℕ) (t : Timeline) → Kept Q xs t → Holds (Kept Q xs) (click_event k t)
    unfolding click_event
    click_event-Kept k t h = bind_any-Holds (Kept Q xs) (get_elem? t.events k) _ (λ e.
        bind-Holds (Kept Q xs) (Kept Q xs) (set_timeline_width (choose_link k t)) _
          (set_timeline_width-Kept (choose_link k t) (choose_link-Kept k t h))
          (λ u p. click_shown-Kept e u p))

    pub translate_goto_timeline-Kept :
        (k : ℕ) (t : Timeline) → Kept Q xs t → Holds (Kept Q xs) (translate_goto_timeline k t)
    unfolding translate_goto_timeline update_timeline_position translate_timeline button_disable
    translate_goto_timeline-Kept k t h = bind_any-Holds (Kept Q xs) (get_elem? t.events k) _ (λ e.
        if-Holds (Kept Q xs) e.selected _ _ h
          (click_shown-Kept e (choose_link k t) (choose_link-Kept k t h)))

    pub interval-Kept :
        (total : ℕ) (t : Timeline) → Kept Q xs t → Holds (Kept Q xs) (interval total t)
    unfolding interval
    interval-Kept total t h =
        let timed : Kept Q xs (with_progress (passed t) t) =
          (h.0, advance t.settings t.autoplay (passed t) h.1) in
        if-Holds (Kept Q xs) t.autoplay.is_paused _ _ h (
          if-Holds (Kept Q xs) (leb (100 * t.settings.autoplay_speed) (passed t)) _ _
            (show_new_content-Kept total (next_step t.events) (with_progress (passed t) t) timed)
            timed)

    measured-Kept :
        (go : Timeline → Option Timeline) (t : Timeline)
        → ((u : Timeline) → Kept Q xs u → Holds (Kept Q xs) (go u))
        → Kept Q xs t
        → Holds (Kept Q xs) (set_timeline_width t >>= go)
    measured-Kept go t k h =
        bind-Holds (Kept Q xs) (Kept Q xs) (set_timeline_width t) go (set_timeline_width-Kept t h) k

    press-Kept : (b : Button) (t : Timeline) → Kept Q xs t → Holds (Kept Q xs) (press b t)
    unfolding update_slide translate_timeline button_disable
    press-Kept next_button t h = show_new_content-Kept t.total_width Step.next t h
    press-Kept prev_button t h = show_new_content-Kept t.total_width Step.prev t h
    press-Kept scroll_right_button t h = h
    press-Kept scroll_left_button t h = h

    choose_if-Kept :
        (s : Option Step) (t : Timeline) → Kept Q xs t → Holds (Kept Q xs) (choose_if s t)
    choose_if-Kept none t h = h
    choose_if-Kept (some s) t h = show_new_content-Kept t.total_width s t h

    pub act-Kept :
        (w : Window) (b : Box) (a : Action) (t : Timeline)
        → Kept Q xs t
        → Holds (Kept Q xs) (act w b a t)
    unfolding click_button mousewheel swipe keyboard_keys
    act-Kept w b (click_on button) t h =
        if-Holds (Kept Q xs) (is_inactive button t.buttons) _ _ h
          (measured-Kept (press button) t (press-Kept button) h)
    act-Kept w b (wheel upwards) t h =
        measured-Kept (choose_if (some (if upwards then Step.prev else Step.next))) t
          (choose_if-Kept (some (if upwards then Step.prev else Step.next))) h
    act-Kept w b (swiped direction) t h =
        measured-Kept (choose_if (some direction)) t (choose_if-Kept (some direction)) h
    act-Kept w b (key which) t h = measured-Kept _ t (λ u k. choose_if-Kept _ u k) h
