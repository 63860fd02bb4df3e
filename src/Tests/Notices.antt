-- ===== src/Tests/Notices.antt =====
-- Directive.antt at a page with no cookies.
use lso_project.Prelude.{ℕ, ◌≡◌, refl, false, none, some, [], ◌∷◌, arith, Text, codes, split}
use lso_project.Directive.{Settings, Page, scripts_disclosure, implied_submit}
use lso_project.Cookie.{get_cookie}
use lso_project.Cookie.Jar.{print}
use lso_project.Directive.Limit.{loads, loads-limit, loads-implied_submit}

abbrev twice : Settings
twice = record { explicit_consent = false; limit = 2; message = none; cookie_scripts = none }

abbrev page : Page
page = record {
  cookies = [];
  overlay = false;
  asks_tick = false;
  disclosures = 0;
  script_calls = 0;
}

abbrev gmt : ℕ → Text
gmt ms = codes "Thu, 01 Jan"

scripts_two :
    scripts_disclosure (some (codes "a,b,c"))
    ≡ codes " We use a, b and c scripts, which all set cookies. "
unfolding scripts_disclosure split
scripts_two = refl

loads-limit_example : (loads gmt twice (10 ∷ 20 ∷ 30 ∷ []) page).disclosures ≡ 2
unfolding get_cookie print
loads-limit_example = loads-limit gmt twice (10 ∷ 20 ∷ 30 ∷ []) page (omega arith) tt refl refl

loads-implied_submit_example :
    ((loads gmt twice (20 ∷ 30 ∷ []) (implied_submit gmt 10 page)).disclosures ≡ 0)
    × ((loads gmt twice (20 ∷ 30 ∷ []) (implied_submit gmt 10 page)).script_calls ≡ 2)
loads-implied_submit_example = loads-implied_submit gmt 10 twice (20 ∷ 30 ∷ []) page tt
