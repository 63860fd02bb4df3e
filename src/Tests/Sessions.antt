-- ===== src/Tests/Sessions.antt =====
-- Timeline/Life/Removal.antt, Addition.antt and Returned.antt and Timeline/Session at three events.
use lso_project.Prelude.{
  ℕ, ◌*◌, ◌≤◌, ◌≡◌, refl, ap, true, false, some, [], ◌∷◌, arith, length, get_elem?, Text, codes,
  text_eq,
}
use lso_project.Timeline.{Content, Timeline}
use lso_project.Timeline.{defaults}
use lso_project.Timeline.Select.Classes.{event_dates}
use lso_project.Timeline.Select.Shows.{Differs, Shows}
use lso_project.Timeline.Labels.{after, label_of}
use lso_project.Timeline.Life.{add_event, remove_event}
use lso_project.Timeline.Life.Placed.{Ready}
use lso_project.Timeline.Life.Removal.{remove_event-Ready}
use lso_project.Timeline.Life.Addition.{add_event-Ready}
use lso_project.Timeline.Life.Returned.{add_event-removed}
use lso_project.Timeline.Session.{removed, perform, done, then_input}
use lso_project.Timeline.Session.Counted.{Sound}
use lso_project.Timeline.Session.Visit.{Reach-Sound}
use lso_project.Timeline.Session.Playing.{Plays}
use lso_project.Timeline.Session.Liveness.{rounds, rounds-Shows}
use lso_project.Tests.Timelines.{three, three-Shows, content}

abbrev measure : Text → ℕ
measure s = 8 * length s

-- The selected event goes.
remove_event-Ready_example :
    (t' : Timeline) × (remove_event (codes "1990") three ≡ some t')
    × Ready 0 (codes "1991" ∷ codes "1992" ∷ []) t'
remove_event-Ready_example =
    remove_event-Ready 0 0 (codes "1990") three three-Shows refl (omega arith)

abbrev from_1989 : Content
from_1989 = content (codes "01/01/1989") false

differs : Differs from_1989.date (event_dates three.events)
unfolding text_eq
differs = (refl, refl, (refl, refl, (refl, refl, tt)))

add_event-Ready_example :
    (t' : Timeline) × (add_event measure (after (codes "1990")) from_1989 three ≡ some t')
    × Ready 0 (codes "1990" ∷ codes "01/01/1989" ∷ codes "1991" ∷ codes "1992" ∷ []) t'
unfolding text_eq label_of
add_event-Ready_example =
    add_event-Ready measure (after (codes "1990")) (codes "1990") 0 0 1 from_1989 three three-Shows
      refl (refl, refl) refl differs (codes "01/01/1989", refl) refl

add_event-removed_example :
    (t' : Timeline) × (remove_event (codes "1991") three ≡ some t')
    × (add_event measure (after (codes "1990")) (content (codes "1991") false) t' ≡ some t')
    × (event_dates t'.events ≡ codes "1990" ∷ codes "1992" ∷ [])
add_event-removed_example =
    add_event-removed measure (after (codes "1990")) 1 0 1 (content (codes "1991") false) three
      three-Shows refl refl (omega arith)

abbrev without_1990 :
    (t' : Timeline) × (remove_event (codes "1990") three ≡ some t')
    × Ready 0 (codes "1991" ∷ codes "1992" ∷ []) t'
without_1990 = remove_event-Ready 0 0 (codes "1990") three three-Shows refl (omega arith)

Reach-Sound_example :
    Sound without_1990.0
    × ((t' : Timeline) × (perform (removed (codes "1992")) without_1990.0 ≡ some t') × Sound t')
Reach-Sound_example =
    Reach-Sound three without_1990.0 (removed (codes "1992"))
      (0, three-Shows, (refl, (refl, (refl, tt))), refl)
      (then_input (removed (codes "1990")) (0, refl) without_1990.1 done)
      (1, ap (λ ds. get_elem? ds 1) without_1990.2.has_dates)

abbrev playing : Timeline
playing = record three {
  settings = record defaults { autoplay = true };
  autoplay = record three.autoplay { intervals = 1 };
}

playing-Shows : Shows 0 playing
playing-Shows = record {
  event_at = three-Shows.event_at;
  content_at = three-Shows.content_at;
  older = three-Shows.older;
  dates = three-Shows.dates;
  unique = three-Shows.unique;
  in_range = omega arith;
}

rounds-Shows_example :
    (r : ℕ) × (t' : Timeline) × (rounds 500 r playing ≡ some t')
    × Shows 2 t'
    × Plays playing.settings t'
    × (r ≤ 3 * 800)
rounds-Shows_example =
    rounds-Shows 500 2 0 playing playing-Shows (refl, (refl, (refl, tt)))
      (record {
        settings = refl;
        running = refl;
        unclicked = refl;
        untouched = refl;
        one_interval = refl;
      })
      (omega arith) (omega arith)
