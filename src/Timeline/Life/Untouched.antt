-- ===== src/Timeline/Life/Untouched.antt =====
-- What `refresh`, `removeEvent` and `addEvent` leave alone.
use lso_project.Prelude.{ℕ, ◌≡◌, refl, ◌∙◌, Option, none, some, arith, ltb, length, last?, Text}
use lso_project.Timeline.{Content, Timeline, ◌>>=◌}
use lso_project.Timeline.Holds.{Holds, bind_any-Holds, if-Holds}
use lso_project.Timeline.Labels.{InsertMethod, create_date}
use lso_project.Timeline.Layout.{
  set_timeline_width, selected_event, set_date_position, set_date_intervals,
}
use lso_project.Timeline.Scroll.{update_timeline_position, translate_timeline, button_disable}
use lso_project.Timeline.Select.{update_filling}
use lso_project.Timeline.Labels.{append}
use lso_project.Timeline.Life.{selected_date, select_by, select_event, init_timeline}
use lso_project.Timeline.Life.{
  refresh, remove_event, in_array, add_event, find_date, drop_event, refresh_cycle, lay_out,
  clear_ids, add_ids_and_classes,
}

-- The settings, the cycle and the dates noted as existing.
pub record Untouched (t u : Timeline) : Type 0 where
  pub settings : u.settings ≡ t.settings
  pub autoplay : u.autoplay ≡ t.autoplay
  pub existing_dates : u.existing_dates ≡ t.existing_dates

then_Untouched : {t u v : Timeline} → Untouched t u → Untouched u v → Untouched t v
then_Untouched a b = record {
  settings = b.settings ∙ a.settings;
  autoplay = b.autoplay ∙ a.autoplay;
  existing_dates = b.existing_dates ∙ a.existing_dates;
}

pub bind-Untouched :
    (t : Timeline) (o : Option Timeline) (f : Timeline → Option Timeline)
    → Holds (Untouched t) o
    → ((u : Timeline) → Holds (Untouched u) (f u))
    → Holds (Untouched t) (o >>= f)
bind-Untouched t none f h k = tt
bind-Untouched t (some u) f h k = go (f u) (k u)
  where
    go : (o : Option Timeline) → Holds (Untouched u) o → Holds (Untouched t) o
    go none l = tt
    go (some v) l = then_Untouched h l

pub width-Untouched : (t : Timeline) → Holds (Untouched t) (set_timeline_width t)
unfolding set_timeline_width update_timeline_position translate_timeline button_disable
width-Untouched t = bind_any-Holds (Untouched t) (last? t.events) _ (λ e.
    bind_any-Holds (Untouched t) (selected_event t.events) _
      (λ s. record { settings = refl; autoplay = refl; existing_dates = refl }))

set_date_position-Untouched : (t : Timeline) → Untouched t (set_date_position t)
unfolding set_date_position set_date_intervals
set_date_position-Untouched t = record { settings = refl; autoplay = refl; existing_dates = refl }

pub lay_out-Untouched : (t : Timeline) → Holds (Untouched t) (lay_out t)
unfolding lay_out update_filling
lay_out-Untouched t =
    bind-Untouched t (some (set_date_position t)) _ (set_date_position-Untouched t) (λ p.
      bind-Untouched p (set_timeline_width p) _ (width-Untouched p) (λ u.
        bind_any-Holds (Untouched u) (selected_event u.events)
          (λ e. some (update_filling e u.total_width u))
          (λ e. record { settings = refl; autoplay = refl; existing_dates = refl })))

pub add_ids_and_classes-Untouched : (t : Timeline) → Untouched t (add_ids_and_classes (clear_ids t))
unfolding add_ids_and_classes
add_ids_and_classes-Untouched t = record {
  settings = ground arith;
  autoplay = ground arith;
  existing_dates = ground arith;
}

refresh_cycle-Untouched : (t : Timeline) → Holds (Untouched t) (refresh_cycle t)
refresh_cycle-Untouched t =
    if-Holds (Untouched t) t.settings.autoplay _ _ (width-Untouched t)
      (record { settings = refl; autoplay = refl; existing_dates = refl })

pub refresh-Untouched : (t : Timeline) → Holds (Untouched t) (refresh t)
unfolding refresh
refresh-Untouched t =
    bind-Untouched t (some (add_ids_and_classes (clear_ids t))) _ (add_ids_and_classes-Untouched t)
      (λ u.
        bind-Untouched u (lay_out u) refresh_cycle (lay_out-Untouched u) refresh_cycle-Untouched)

pub remove_event-Untouched : (d : Text) (t : Timeline) → Holds (Untouched t) (remove_event d t)
unfolding remove_event
remove_event-Untouched d t =
    if-Holds (Untouched t) (ltb 1 (length t.events)) _ _
      (bind-Untouched t (some (drop_event d (find_date d t.events) t)) refresh
        (record { settings = refl; autoplay = refl; existing_dates = refl }) refresh-Untouched)
      (record { settings = refl; autoplay = refl; existing_dates = refl })

ids-Untouched : (t : Timeline) → Untouched t (add_ids_and_classes t)
unfolding add_ids_and_classes
ids-Untouched t = record {
  settings = ground arith;
  autoplay = ground arith;
  existing_dates = ground arith;
}

select_event-Untouched : (t : Timeline) → Untouched t (select_event t)
unfolding select_event
select_event-Untouched t = by_date (selected_date t.contents)
  where
    by_date : (o : Option Text) → Untouched t (select_by o t)
    by_date none = record { settings = refl; autoplay = refl; existing_dates = refl }
    by_date (some d) = record { settings = refl; autoplay = refl; existing_dates = refl }

pub init_timeline-Untouched :
    (measure : Text → ℕ) (t : Timeline) → Holds (Untouched t) (init_timeline measure t)
unfolding init_timeline
init_timeline-Untouched measure t =
    bind_any-Holds (Untouched t)
      (create_date measure t.settings.date_display append t.contents t.events) _
      (λ es.
        let u = record t { events = es } in
        bind-Untouched t (some u) (λ u. lay_out (select_event (add_ids_and_classes u)))
          (record { settings = refl; autoplay = refl; existing_dates = refl })
          (λ u.
            bind-Untouched u (some (select_event (add_ids_and_classes u))) lay_out
              (then_Untouched (ids-Untouched u) (select_event-Untouched (add_ids_and_classes u)))
              lay_out-Untouched))

-- Adding an event notes its date, so only the settings and the cycle stay.
abbrev pub SameCycle : Timeline → Timeline → Type 0
SameCycle t u = (u.settings ≡ t.settings) × (u.autoplay ≡ t.autoplay)

pub Untouched-SameCycle :
    (t : Timeline) (o : Option Timeline) → Holds (Untouched t) o → Holds (SameCycle t) o
Untouched-SameCycle t none h = tt
Untouched-SameCycle t (some u) h = (h.settings, h.autoplay)

pub add_event-SameCycle :
    (measure : Text → ℕ) (method : InsertMethod) (c : Content) (t : Timeline)
    → Holds (SameCycle t) (add_event measure method c t)
unfolding add_event
add_event-SameCycle measure method c t =
    if-Holds (SameCycle t) (in_array c.date t.existing_dates) _ _ (refl, refl)
      (bind_any-Holds (SameCycle t) (create_date measure t.settings.date_display method _ t.events)
        _ (λ es. Untouched-SameCycle _ _ (refresh-Untouched _)))
