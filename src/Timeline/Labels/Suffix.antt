-- ===== src/Timeline/Labels/Suffix.antt =====
-- The suffix of the day.
use lso_project.Prelude.{ℕ, ◌/◌, ◌%◌, ◌<◌, ◌≡◌, some, arith, ◌==◌, if◌then◌else◌, codes}
use lso_project.Timeline.Labels.{by_last_digit, num_suffix}

-- For every number below 111 the suffix is the English one: "th" from 11 to 19, where the tens digit
-- is 1, and otherwise the last digit decides.
pub num_suffix-english :
    (n : ℕ)
    → n < 111
    → num_suffix (some n) ≡ (if n / 10 == 1 then codes "th" else by_last_digit (n % 10))
unfolding num_suffix
num_suffix-english n h = ground arith
