-- ===== src/Directive/Limit.antt =====
-- How often the notice shows, over any number of loads of the page.
use lso_project.Prelude.{
  ℕ, suc, ◌+◌, ◌<◌, ◌≡◌, refl, sym, ap, ◌∙◌, false, none, some, List, [], ◌∷◌, arith, leb,
  if◌then◌else◌, length, All, Text, codes, text_eq_refl,
}
use mathlib.Core.Path.{subst}
use lso_project.Prelude.Decimal.{read_number-show_number}
use lso_project.Cookie.{get_cookie, is_unset}
use lso_project.Cookie.Jar.{Pair, print, Sound}
use lso_project.Cookie.RoundTrip.{get_cookie-set_cookie}
use lso_project.Directive.{
  Settings, Page, main_name, count_name, number_of, count_view, at_most, notice, call_scripts, load,
  record_consent, implied_submit,
}
use lso_project.Directive.Count.{count_text, Counted, count_view-Counted}

-- Loads of the page at these times.
abbrev pub loads : (ℕ → Text) → Settings → List ℕ → Page → Page
loads gmt s [] p = p
loads gmt s (now ∷ times) p = loads gmt s times (load gmt now s p)

abbrev pub least : ℕ → ℕ → ℕ
least a b = if leb a b then a else b

load_open :
    (gmt : ℕ → Text) (now : ℕ) (s : Settings) (p : Page)
    → get_cookie (print p.cookies) main_name ≡ none
    → ((load gmt now s p).cookies ≡ (notice gmt now s p).cookies)
      × ((load gmt now s p).disclosures ≡ (notice gmt now s p).disclosures)
unfolding load
load_open gmt now s p h = ground (arith, ap is_unset h)

notice_counts :
    (gmt : ℕ → Text) (now : ℕ) (s : Settings) (p : Page)
    → 0 < s.limit
    → let seen = number_of (get_cookie (print (count_view gmt now p.cookies)) count_name) in
      ((notice gmt now s p).cookies ≡ count_view gmt now p.cookies)
      × ((notice gmt now s p).disclosures
          ≡ (if at_most s.limit seen then p.disclosures + 1 else p.disclosures))
unfolding notice
notice_counts gmt now s p h = ground arith

number_of-count_text : (i : ℕ) → number_of (count_text (suc i)) ≡ some (suc i)
number_of-count_text i = read_number-show_number (suc i)

load-Counted :
    (gmt : ℕ → Text) (now i : ℕ) (s : Settings) (p : Page)
    → 0 < s.limit
    → Counted i p.cookies
    → Counted (suc i) (load gmt now s p).cookies
      × ((load gmt now s p).disclosures
          ≡ (if leb (suc i) s.limit then p.disclosures + 1 else p.disclosures))
load-Counted gmt now i s p h c =
    let (kept, shown) = load_open gmt now s p c.unaccepted in
    let (kept', shown') = notice_counts gmt now s p h in
    let c' = count_view-Counted gmt now i p.cookies c in
    (
      subst (Counted (suc i)) (sym (kept ∙ kept')) c',
      shown
          ∙ shown'
          ∙ ap (λ o. if at_most s.limit o then p.disclosures + 1 else p.disclosures)
              (ap number_of c'.count ∙ number_of-count_text i),
    )

loads-from :
    (gmt : ℕ → Text) (s : Settings) (times : List ℕ) (i : ℕ) (p : Page)
    → 0 < s.limit
    → Counted i p.cookies
    → (loads gmt s times p).disclosures + least i s.limit
      ≡ p.disclosures + least (i + length times) s.limit
loads-from gmt s [] i p h c = ground arith
loads-from gmt s (now ∷ times) i p h c =
    let (c', d) = load-Counted gmt now i s p h c in
    let ih = loads-from gmt s times (suc i) (load gmt now s p) h c' in ground (arith, d, ih)

-- With a positive limit and sound cookies, of which none records a consent or a view, and as long as
-- the browser keeps the cookies, n loads of the page disclose the notice n times, but no more often
-- than the limit says.
pub loads-limit :
    (gmt : ℕ → Text) (s : Settings) (times : List ℕ) (p : Page)
    → 0 < s.limit
    → All Sound p.cookies
    → get_cookie (print p.cookies) main_name ≡ none
    → get_cookie (print p.cookies) count_name ≡ none
    → (loads gmt s times p).disclosures ≡ p.disclosures + least (length times) s.limit
loads-limit gmt s times p h v m c =
    ground (arith, loads-from gmt s times 0 p h (record { sound = v; unaccepted = m; count = c }))

load_accepted :
    (gmt : ℕ → Text) (now : ℕ) (s : Settings) (p : Page)
    → is_unset (get_cookie (print p.cookies) main_name) ≡ false
    → load gmt now s p ≡ call_scripts p
unfolding load
load_accepted gmt now s p h =
    ap
      (λ b.
        if b
        then (let p' = notice gmt now s p in if s.explicit_consent then p' else call_scripts p')
        else call_scripts p)
      h

loads_accepted :
    (gmt : ℕ → Text) (s : Settings) (times : List ℕ) (p : Page)
    → is_unset (get_cookie (print p.cookies) main_name) ≡ false
    → ((loads gmt s times p).disclosures ≡ p.disclosures)
      × ((loads gmt s times p).script_calls ≡ p.script_calls + length times)
loads_accepted gmt s [] p h = (refl, omega arith)
loads_accepted gmt s (now ∷ times) p h =
    let (d, n) = loads_accepted gmt s times (call_scripts p) h in
    subst
      (λ q.
        ((loads gmt s times q).disclosures ≡ p.disclosures)
        × ((loads gmt s times q).script_calls ≡ p.script_calls + suc (length times)))
      (sym (load_accepted gmt now s p h)) (d, omega (arith, n))

-- With sound cookies, and as long as the browser keeps them, once the button of the notice is clicked
-- no later load of the page discloses it again, whatever the settings, and each of them calls the
-- wrapped scripts.
pub loads-implied_submit :
    (gmt : ℕ → Text) (now : ℕ) (s : Settings) (times : List ℕ) (p : Page)
    → All Sound p.cookies
    → ((loads gmt s times (implied_submit gmt now p)).disclosures ≡ p.disclosures)
      × ((loads gmt s times (implied_submit gmt now p)).script_calls
          ≡ p.script_calls + length times)
unfolding implied_submit
loads-implied_submit gmt now s times p v =
    let consent : Pair = record { name = main_name; value = codes "1" } in
    let sound : Sound consent = record {
      name_eq = ground arith;
      name_semi = ground arith;
      name_space = ground arith;
      value_semi = ground arith;
      name_some = λ e. cc;
      value_trimmed = refl;
      printable = ground arith;
    } in
    loads_accepted gmt s times (record_consent gmt now p) (
      ap is_unset (
        get_cookie-set_cookie gmt now main_name consent 365 p.cookies (ground arith) sound v
        ∙ ap (λ b. if b then some (codes "1") else get_cookie (print p.cookies) main_name)
            (text_eq_refl main_name)))
