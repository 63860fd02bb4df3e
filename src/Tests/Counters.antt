-- ===== src/Tests/Counters.antt =====
-- Counter.antt and its children at concrete numbers.
use lso_project.Prelude.{ℕ, ◌+◌, ◌-◌, ◌/◌, ◌≡◌, refl, true, arith, codes, split}
use lso_project.Counter.{Arithmetic, Settings, defaults, loops, count_to, rounds}
use lso_project.Counter.Final.{Done, rounds-count_to}
use lso_project.Counter.Format.{is_digit, format, without_commas, Grouped, format-Grouped}

-- Numbers whose quotients are rounded down.
abbrev rounded : Arithmetic
rounded = record {
  Number = ℕ;
  number = λ n. n;
  plus = λ a b. a + b;
  minus = λ a b. a - b;
  over = λ a b. a / b;
}

abbrev settings : Settings rounded
settings = record (defaults rounded) { to = 1255; has_on_complete = true }

rounds-count_to_example :
    Done settings (loops settings) (rounds settings (2 + loops settings) (count_to settings))
rounds-count_to_example = rounds-count_to settings 2 (omega arith) (omega arith)

format_groups : format (codes "1234567") ≡ codes "1,234,567"
unfolding format
format_groups = refl

format-Grouped_example :
    (without_commas (format (codes "1234567")) ≡ codes "1234567")
    × Grouped 1 (split b',' (format (codes "1234567")))
unfolding is_digit
format-Grouped_example =
    format-Grouped b'1' (codes "234567") (refl, (refl, (refl, (refl, (refl, (refl, (refl, tt)))))))
