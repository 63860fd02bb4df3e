-- ===== src/Tests/Plugins.antt =====
-- Timeline/Plugin.antt at the page of Tests/Lives.antt.
use lso_project.Prelude.{◌≡◌, refl, true, false, some, arith, if◌then◌else◌}
use lso_project.Timeline.{desktop, Settings, Timeline}
use lso_project.Timeline.{defaults, DateDisplay}
use lso_project.Timeline.Session.{done, then_input, cycle_button, with_buttons, press_cycle}
use lso_project.Timeline.Cycle.{mouse_enter}
use lso_project.Timeline.Session.Counted.{Sound}
use lso_project.Timeline.Plugin.{
  Surroundings, construct, with_instance, returned, thrown, destroy, horizontal_timeline,
}
use lso_project.Timeline.Plugin.Destroyed.{
  visited, untouched_page, construct-Sound, destroy-visited,
}
use lso_project.Tests.Lives.{items, items-Unique, items-Labelled, measure}

abbrev room : Surroundings
room = record { media = desktop; wrapper_width = 300; measure = measure }

abbrev plays : Settings
plays = record defaults { date_display = DateDisplay.day_month; autoplay = true }

abbrev made : (t : Timeline) × (construct room plays items ≡ some t) × Sound t
made = construct-Sound room plays items (omega arith) items-Unique items-Labelled (refl, (refl, tt))

-- The mouse comes over the button of the cycle.
abbrev paused : Timeline
paused = with_buttons mouse_enter made.0

destroy-visited_example :
    ((t : Timeline) × (horizontal_timeline room plays (untouched_page items)
        ≡ some (with_instance items (untouched_page items) t)))
    × (destroy true (with_instance items (untouched_page items) paused)
        ≡ returned (untouched_page items))
    × (destroy false (with_instance items (untouched_page items) paused)
        ≡ thrown
            (record (with_instance items (untouched_page items) paused) { events_content = items }))
    × (paused.autoplay.intervals ≡ (if paused.settings.autoplay then 1 else 0))
unfolding press_cycle
destroy-visited_example =
    destroy-visited room plays items paused (omega arith) items-Unique items-Labelled
      (refl, (refl, tt)) (visited made.1 (then_input (cycle_button mouse_enter) tt refl done))
