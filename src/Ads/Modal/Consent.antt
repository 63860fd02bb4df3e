-- ===== src/Ads/Modal/Consent.antt =====
-- Who sees the advertisement, and what the end of the video changes for the next visit.
use lso_project.Prelude.{ℕ, ◌<◌, ◌≡◌, true, arith, All, Text, codes, text_eq_refl}
use lso_project.Cookie.Jar.{Pair, Sound}
use lso_project.Cookie.RoundTrip.{get_cookie-set_cookie}
use lso_project.Ads.Modal.{AdData, Modal, duration_of, wants_ad, ready, handle, ended, on_ended}

-- The cookie that `ended` sets is a sound one.
abbrev seen : AdData → Pair
seen ad = record { name = ad.cookie_name; value = codes "true" }

-- With sound cookies, once the video has ended and the advertisement has a positive duration, the
-- next load of the page, with the cookies that this one leaves, does nothing: no dialog, no
-- handler, no countdown.
pub ready-ended :
    (gmt : ℕ → Text) (ad : AdData) (now later : ℕ) (m next : Modal)
    → Sound (seen ad)
    → All Sound m.cookies
    → m.handlers ≡ true
    → 0 < duration_of ad
    → next.cookies ≡ (handle gmt ad m (ended now)).cookies
    → ready ad later next ≡ next
unfolding ready wants_ad handle on_ended
ready-ended gmt ad now later m next v vs armed h e = ground (
  arith,
  get_cookie-set_cookie gmt now ad.cookie_name (seen ad) (duration_of ad) m.cookies v.name_eq v vs,
  text_eq_refl ad.cookie_name,
)
