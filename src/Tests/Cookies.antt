-- ===== src/Tests/Cookies.antt =====
-- Cookie.antt and its children at a jar of two cookies.
use lso_project.Prelude.{ℕ, ◌≡◌, refl, some, [], ◌∷◌, arith, if◌then◌else◌, Text, codes, text_eq}
use lso_project.Cookie.{get_cookie, set_cookie}
use lso_project.Cookie.Jar.{Pair, Jar, print, assign, Sound}
use lso_project.Cookie.RoundTrip.{get_cookie-set_cookie}

abbrev lang : Pair
lang = record { name = codes "lang"; value = codes "it" }

abbrev seen : Pair
seen = record { name = codes "ad"; value = codes "true" }

abbrev jar : Jar
jar = lang ∷ seen ∷ []

abbrev day : ℕ → Text
day ms = codes "Thu, 01 Jan"

lang-Sound : Sound lang
lang-Sound = ground arith

seen-Sound : Sound seen
seen-Sound = ground arith

get_cookie_runs : get_cookie (codes "lang=it; ad=true") (codes "ad") ≡ some (codes "true")
unfolding get_cookie
get_cookie_runs = refl

get_cookie-set_cookie_example :
    get_cookie
      (print (assign (set_cookie day 5 (codes "ad") (codes "true") 7) (lang ∷ [])))
      (codes "ad")
    ≡ (if text_eq (codes "ad") (codes "ad")
        then some (codes "true")
        else get_cookie (print (lang ∷ [])) (codes "ad"))
get_cookie-set_cookie_example =
    get_cookie-set_cookie day 5 (codes "ad") seen 7 (lang ∷ []) (ground arith) seen-Sound
      (lang-Sound, tt)
