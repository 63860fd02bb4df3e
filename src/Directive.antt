-- ===== src/Directive.antt =====
-- jquery.cookiesdirective.js: the notice about cookies, how often it shows, and how it is accepted.
pub mod Count
pub mod Limit
use lso_project.Prelude.{
  ℕ, ◌+◌, Bool, true, false, Option, none, some, List, [], ◌∷◌, ◌++◌, ltb, leb, if◌then◌else◌, init,
  Text, codes, split,
}
use lso_project.Prelude.{read_number}
use lso_project.Prelude.Decimal.{show_number}
use lso_project.Cookie.{get_cookie, set_cookie, is_unset}
use lso_project.Cookie.Jar.{Jar, print, assign}

-- The settings that decide; the others are colours and fonts.
pub record Settings : Type 0 where
  pub explicit_consent : Bool
  pub limit : ℕ
  pub message : Option Text
  pub cookie_scripts : Option Text

-- The cookies, whether the overlay is in the page and asks for the tick, and how often the notice
-- was disclosed and the wrapped scripts were called.
pub record Page : Type 0 where
  pub cookies : Jar
  pub overlay : Bool
  pub asks_tick : Bool
  pub disclosures : ℕ
  pub script_calls : ℕ

abbrev pub main_name : Text
main_name = codes "cookiesDirective"

abbrev pub count_name : Text
count_name = codes "cookiesDisclosureCount"

-- `disclosureCount ++` on the text of a cookie, and the text of the result.
abbrev pub increased : Option ℕ → Text
increased none = codes "NaN"
increased (some n) = show_number (n + 1)

abbrev pub number_of : Option Text → Option ℕ
number_of none = some 0
number_of (some s) = read_number 0 s

unfoldable pub next_count : Option Text → Text
next_count v = if is_unset v then codes "1" else increased (number_of v)

unfoldable pub count_view : (ℕ → Text) → ℕ → Jar → Jar
count_view gmt now jar =
    assign (set_cookie gmt now count_name (next_count (get_cookie (print jar) count_name)) 1) jar

-- `settings.limit >= getCookie('cookiesDisclosureCount')`, false of NaN.
abbrev pub at_most : ℕ → Option ℕ → Bool
at_most limit none = false
at_most limit (some n) = leb n limit

abbrev pub disclose : Page → Page
disclose p = record p { overlay = true; disclosures = p.disclosures + 1 }

abbrev pub disclose_within : ℕ → Page → Page
disclose_within limit p =
    if at_most limit (number_of (get_cookie (print p.cookies) count_name)) then disclose p else p

unfoldable pub notice : (ℕ → Text) → ℕ → Settings → Page → Page
unfolding count_view
notice gmt now s p =
    if ltb 0 s.limit
    then disclose_within s.limit (record p { cookies = count_view gmt now p.cookies })
    else disclose p

abbrev pub call_scripts : Page → Page
call_scripts p = record p { script_calls = p.script_calls + 1 }

-- `$.cookiesDirective`, on a load of the page.
unfoldable pub load : (ℕ → Text) → ℕ → Settings → Page → Page
load gmt now s p =
    if is_unset (get_cookie (print p.cookies) main_name)
    then (let p' = notice gmt now s p in if s.explicit_consent then p' else call_scripts p')
    else call_scripts p

-- The buttons. With explicit consent the box has to be ticked, and the page is loaded again.
abbrev pub record_consent : (ℕ → Text) → ℕ → Page → Page
record_consent gmt now p = record p {
  cookies = assign (set_cookie gmt now main_name (codes "1") 365) p.cookies;
  overlay = false;
}

unfoldable pub implied_submit : (ℕ → Text) → ℕ → Page → Page
implied_submit gmt now p = record_consent gmt now p

unfoldable pub explicit_submit : (ℕ → Text) → ℕ → Settings → Bool → Page → Page
explicit_submit gmt now s ticked p =
    if ticked then load gmt now s (record_consent gmt now p) else record p { asks_tick = true }

-- The sentence on the scripts: all but the last joined by ", ", and the last behind "and".
abbrev pub joined : List Text → Text
joined [] = []
joined (s ∷ []) = []
joined (s ∷ r ∷ rest) = s ++ codes ", " ++ joined (r ∷ rest)

abbrev pub last_script : List Text → Text
last_script [] = []
last_script (s ∷ []) = s
last_script (s ∷ r ∷ rest) = last_script (r ∷ rest)

abbrev pub scripts_text : List Text → Text
scripts_text [] = []
scripts_text (s ∷ []) = codes " We use a " ++ s ++ codes " script which sets cookies."
scripts_text (s ∷ r ∷ rest) =
    codes " We use "
    ++ init (init (joined (s ∷ r ∷ rest)))
    ++ codes " and "
    ++ last_script (r ∷ rest)
    ++ codes " scripts, which all set cookies. "

unfoldable pub scripts_disclosure : Option Text → Text
scripts_disclosure none = []
scripts_disclosure (some []) = []
scripts_disclosure (some (c ∷ s)) = scripts_text (split b',' (c ∷ s))

-- The message, where the settings have none.
unfoldable pub message_of : Settings → Text
message_of s = elim s.message [
  | some (c ∷ text) ↦ c ∷ text
  | _ ↦
      if s.explicit_consent
      then codes
          "This site uses cookies. Some of the cookies we use are essential for parts of the site to operate and have already been set."
      else codes "We have placed cookies on your computer to help make this website better."
]
