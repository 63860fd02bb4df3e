-- ===== src/Directive/Count.antt =====
-- The count that the cookie keeps.
use lso_project.Prelude.{
  ℕ, zero, suc, ◌+◌, ◌≡◌, refl, sym, ap, ◌∙◌, false, Option, none, some, arith, if◌then◌else◌, All,
  Text, codes, text_eq,
}
use lso_project.Prelude.{read_number}
use lso_project.Prelude.Decimal.{
  digits_of, show_number, read_number-show_number, show_number-Avoids, show_number-digits,
  show_number-cons,
}
use lso_project.Cookie.{get_cookie, is_unset}
use lso_project.Cookie.Jar.{Pair, Jar, print, Sound}
use lso_project.Cookie.RoundTrip.{
  get_cookie-set_cookie, set_cookie-Sound, digits-trimmed, digits-printable,
}
use lso_project.Directive.{main_name, count_name, increased, next_count, count_view}

-- The value of the cookie after i views.
abbrev pub count_text : ℕ → Option Text
count_text zero = none
count_text (suc i) = some (show_number (suc i))

-- No consent is recorded, and i views are.
pub record Counted (i : ℕ) (jar : Jar) : Type 0 where
  pub sound : All Sound jar
  pub unaccepted : get_cookie (print jar) main_name ≡ none
  pub count : get_cookie (print jar) count_name ≡ count_text i

is_unset-show : (n : ℕ) → is_unset (some (show_number n)) ≡ false
is_unset-show n = let (d, t, e) = show_number-cons n in ap (λ s. is_unset (some s)) e

show_one : show_number 1 ≡ codes "1"
unfolding show_number digits_of
show_one = refl

next_count-text : (i : ℕ) → next_count (count_text i) ≡ show_number (suc i)
unfolding next_count
next_count-text zero = sym show_one
next_count-text (suc i) =
    let more : suc i + 1 ≡ suc (suc i) = omega arith in
    ap (λ b. if b then codes "1" else increased (read_number 0 (show_number (suc i))))
      (is_unset-show (suc i))
    ∙ ap increased (read_number-show_number (suc i))
    ∙ ap show_number more

abbrev count_pair : ℕ → Pair
count_pair i = record { name = count_name; value = show_number (suc i) }

count_pair-Sound : (i : ℕ) → Sound (count_pair i)
count_pair-Sound i = record {
  name_eq = ground arith;
  name_semi = ground arith;
  name_space = ground arith;
  value_semi = show_number-Avoids (suc i);
  name_some = λ e. cc;
  value_trimmed = digits-trimmed (show_number (suc i)) (show_number-digits (suc i));
  printable = ground (arith, digits-printable (show_number (suc i)) (show_number-digits (suc i)));
}

-- One view more.
pub count_view-Counted :
    (gmt : ℕ → Text) (now i : ℕ) (jar : Jar)
    → Counted i jar
    → Counted (suc i) (count_view gmt now jar)
unfolding count_view text_eq
count_view-Counted gmt now i jar c =
    let e : next_count (get_cookie (print jar) count_name) ≡ show_number (suc i) =
      ap next_count c.count ∙ next_count-text i in
    let v = count_pair-Sound i in
    rw e (record {
      sound = set_cookie-Sound gmt now (count_pair i) 1 jar v c.sound;
      unaccepted =
          get_cookie-set_cookie gmt now main_name (count_pair i) 1 jar (ground arith) v c.sound
          ∙ c.unaccepted;
      count =
          get_cookie-set_cookie gmt now count_name (count_pair i) 1 jar (ground arith) v c.sound;
    })
