-- ===== src/Cookie/RoundTrip.antt =====
-- What `getCookie` reads back from `document.cookie`, also after `setCookie`.
use lso_project.Prelude.{
  ℕ, true, false, digit, ◌+◌, ◌*◌, ◌≡◌, refl, ap, ◌∙◌, inl, inr, none, some, List, [], ◌∷◌, ◌++◌,
  map, append_assoc, append-nil, arith, ◌==◌, if◌then◌else◌, Bool-cases, All, Text, codes, text_eq,
  text_eq_iff, strip_prefix, cons_first, split, Avoids, split-Avoids, split-append,
}
use lso_project.Cookie.{skip_spaces, get_cookie_in, get_cookie, set_cookie}
use lso_project.Cookie.Jar.{
  Pair, pair_text, Jar, print, find, put, cut, assign, Sound, is_control, ends_blank, is_trimmed,
}

Avoids-append : (sep : ℕ) (s t : Text) → Avoids sep s → Avoids sep t → Avoids sep (s ++ t)
Avoids-append sep [] t hs ht = ht
Avoids-append sep (c ∷ s) t hs ht = (hs.0, Avoids-append sep s t hs.1 ht)

pair_text-Avoids : (p : Pair) → Sound p → Avoids b';' (pair_text p)
pair_text-Avoids p v = Avoids-append b';' p.name _ v.name_semi (refl, v.value_semi)

split-space : (t : Text) → split b';' (b' ' ∷ t) ≡ cons_first b' ' (split b';' t)
unfolding split
split-space t = refl

-- The pieces of a printed jar: the pairs, all but the first behind a blank.
split-print :
    (p : Pair) (ps : Jar)
    → All Sound (p ∷ ps)
    → split b';' (print (p ∷ ps)) ≡ pair_text p ∷ map (λ q. b' ' ∷ pair_text q) ps
unfolding print
split-print p [] v = split-Avoids b';' (pair_text p) (pair_text-Avoids p v.0)
split-print p (q ∷ ps) v =
    split-append b';' (pair_text p) _ (pair_text-Avoids p v.0)
    ∙ ap (λ r. pair_text p ∷ r) (split-space _ ∙ ap (cons_first b' ') (split-print q ps v.1))

skip_spaces-pair : (p : Pair) → Avoids b' ' p.name → skip_spaces (pair_text p) ≡ pair_text p
unfolding skip_spaces
skip_spaces-pair p h = go p.name p.value h
  where
    go : (n v : Text) → Avoids b' ' n → skip_spaces (n ++ b'=' ∷ v) ≡ n ++ b'=' ∷ v
    go [] v h = refl
    go (c ∷ n) v h = rw h.0

skip_spaces-blank : (p : Pair) → Sound p → skip_spaces (b' ' ∷ pair_text p) ≡ pair_text p
unfolding skip_spaces
skip_spaces-blank p v = skip_spaces-pair p v.name_space

get_cookie_in-empty : (name : Text) → get_cookie_in (name ++ codes "=") ([] ∷ []) ≡ none
unfolding get_cookie_in strip_prefix
get_cookie_in-empty [] = refl
get_cookie_in-empty (c ∷ name) = refl

-- A pair begins with `name=` exactly if that is its name.
strip_prefix-pair :
    (name n v : Text)
    → Avoids b'=' name
    → Avoids b'=' n
    → strip_prefix (name ++ codes "=") (n ++ b'=' ∷ v) ≡ (if text_eq name n then some v else none)
unfolding strip_prefix text_eq
strip_prefix-pair [] [] v h k = refl
strip_prefix-pair [] (d ∷ n) v h k = ground arith
strip_prefix-pair (c ∷ name) [] v h k = ground arith
strip_prefix-pair (c ∷ name) (d ∷ n) v h k = ground (arith, strip_prefix-pair name n v h.1 k.1)

-- The first piece, and each other piece behind its blank, is tested against the name of its pair.
get_cookie_in-cons :
    (name : Text) (p : Pair) (b : Text) (rest : List Text)
    → Avoids b'=' name
    → Sound p
    → skip_spaces b ≡ pair_text p
    → get_cookie_in (name ++ codes "=") (b ∷ rest)
      ≡ (if text_eq name p.name then some p.value else get_cookie_in (name ++ codes "=") rest)
unfolding get_cookie_in
get_cookie_in-cons name p b rest h v e =
    ground (arith, e, strip_prefix-pair name p.name p.value h v.name_eq)

get_cookie_in-map :
    (name : Text) (ps : Jar)
    → Avoids b'=' name
    → All Sound ps
    → get_cookie_in (name ++ codes "=") (map (λ q. b' ' ∷ pair_text q) ps) ≡ find name ps
unfolding find
get_cookie_in-map name [] h v = unfold get_cookie_in in refl
get_cookie_in-map name (p ∷ ps) h v =
    get_cookie_in-cons name p _ _ h v.0 (skip_spaces-blank p v.0)
    ∙ ap (λ r. if text_eq name p.name then some p.value else r) (get_cookie_in-map name ps h v.1)

-- On any jar of sound pairs and for a name without '=', `getCookie` finds the value of the first
-- pair of that name, and `null` exactly if there is none.
pub get_cookie-print :
    (name : Text) (jar : Jar)
    → Avoids b'=' name
    → All Sound jar
    → get_cookie (print jar) name ≡ find name jar
unfolding get_cookie print find
get_cookie-print name [] h v = get_cookie_in-empty name
get_cookie-print name (p ∷ ps) h v =
    ap (get_cookie_in (name ++ codes "=")) (split-print p ps v)
    ∙ get_cookie_in-cons name p (pair_text p) _ h v.0 (skip_spaces-pair p v.0.name_space)
    ∙ ap (λ r. if text_eq name p.name then some p.value else r) (get_cookie_in-map name ps h v.1)

cut-pair : (n v : Text) → Avoids b'=' n → cut (n ++ b'=' ∷ v) ≡ record { name = n; value = v }
unfolding cut
cut-pair [] v h = refl
cut-pair (c ∷ n) v h = rw (h.0, cut-pair n v h.1)

find-put :
    (m : Text) (p : Pair) (jar : Jar)
    → find m (put p jar) ≡ (if text_eq m p.name then some p.value else find m jar)
unfolding find put
find-put m p [] = refl
find-put m p (q ∷ qs) =
    ground (
      arith,
      text_eq_iff m p.name,
      text_eq_iff m q.name,
      text_eq_iff p.name q.name,
      find-put m p qs,
    )

put-Sound : (p : Pair) (jar : Jar) → Sound p → All Sound jar → All Sound (put p jar)
unfolding put
put-Sound p [] v vs = (v, tt)
put-Sound p (q ∷ qs) v vs = elim (Bool-cases (text_eq p.name q.name)) [
  | inl same ↦ rw same (v, vs.1)
  | inr other ↦ rw other (vs.0, put-Sound p qs v vs.1)
]

-- Whatever the expiry, a ';' ends the value.
set_cookie-tail :
    (gmt : ℕ → Text) (now : ℕ) (name value : Text) (days : ℕ)
    → (rest : Text) × (set_cookie gmt now name value days ≡ (name ++ b'=' ∷ value) ++ b';' ∷ rest)
unfolding set_cookie
set_cookie-tail gmt now name value days = elim (Bool-cases (days == 0)) [
  | inl e ↦ (codes " path=/", rw (e, append-nil))
  | inr e ↦ (
    codes " expires=" ++ gmt (now + days * 24 * 60 * 60 * 1000) ++ codes "; path=/",
    rw (e, append_assoc),
  )
]

assign-set_cookie :
    (gmt : ℕ → Text) (now : ℕ) (p : Pair) (days : ℕ) (jar : Jar)
    → Sound p
    → assign (set_cookie gmt now p.name p.value days) jar ≡ put p jar
unfolding assign
assign-set_cookie gmt now p days jar v =
    let (rest, e) = set_cookie-tail gmt now p.name p.value days in
    rw (
      e,
      split-append b';' (pair_text p) rest (pair_text-Avoids p v),
      cut-pair p.name p.value v.name_eq,
    )

-- On a jar of sound pairs, after `setCookie` of a sound pair, `getCookie` of that name gives the new value,
-- and of any other name without '=' what it gave before. A pair is sound if its name is not empty and has no '=',
-- ';' or blank, its value has no ';' and neither begins nor ends with a blank, and neither has a control
-- character.
pub get_cookie-set_cookie :
    (gmt : ℕ → Text) (now : ℕ) (m : Text) (p : Pair) (days : ℕ) (jar : Jar)
    → Avoids b'=' m
    → Sound p
    → All Sound jar
    → get_cookie (print (assign (set_cookie gmt now p.name p.value days) jar)) m
      ≡ (if text_eq m p.name then some p.value else get_cookie (print jar) m)
get_cookie-set_cookie gmt now m p days jar hm v vs =
    rw
      (
        assign-set_cookie gmt now p days jar v,
        get_cookie-print m (put p jar) hm (put-Sound p jar v vs),
        get_cookie-print m jar hm vs,
      )
      (find-put m p jar)

pub set_cookie-Sound :
    (gmt : ℕ → Text) (now : ℕ) (p : Pair) (days : ℕ) (jar : Jar)
    → Sound p
    → All Sound jar
    → All Sound (assign (set_cookie gmt now p.name p.value days) jar)
set_cookie-Sound gmt now p days jar v vs =
    rw (assign-set_cookie gmt now p days jar v) (put-Sound p jar v vs)

-- A number can stand in a cookie.
digits-ends : (s : Text) → All (λ c. digit c ≡ true) s → ends_blank s ≡ false
digits-ends [] h = refl
digits-ends (c ∷ []) h = ground (arith, h.0)
digits-ends (c ∷ d ∷ s) h = digits-ends (d ∷ s) h.1

pub digits-trimmed : (s : Text) → All (λ c. digit c ≡ true) s → is_trimmed s ≡ true
digits-trimmed [] h = refl
digits-trimmed (c ∷ s) h =
    let plain : (c == b' ') ≡ false = ground (arith, h.0) in rw (plain, digits-ends (c ∷ s) h) refl

pub digits-printable : (s : Text) → All (λ c. digit c ≡ true) s → All (λ c. is_control c ≡ false) s
digits-printable [] h = tt
digits-printable (c ∷ s) h = (ground (arith, h.0), digits-printable s h.1)
