-- ===== src/Lazy/Seen.antt =====
-- What is loaded after any sequence of scrolls.
use mathlib.Core.Path.{subst}
use lso_project.Prelude.{
  ℕ, ◌+◌, ◌<◌, ◌≢◌, ◌⊎◌, ◌↔◌, ◌≡◌, refl, sym, ap, ◌∙◌, inl, inr, Bool, true, false, ◌&&◌, ◌||◌,
  none, some, List, [], ◌∷◌, ◌++◌, map, append-nil, arith, if◌then◌else◌, Bool-cases, Text,
}
use lso_project.Lazy.{
  View, is_in_viewport, is_truthy, Image, load_by, load_image, load_lazy_images, Wall, load_wall,
  show_wall, Page, scrolled,
}

abbrev pub scrolled_all : List View → Page → Page
scrolled_all [] p = p
scrolled_all (v ∷ vs) p = scrolled_all vs (scrolled v p)

-- Some view shows the element.
abbrev pub seen : List View → ℕ → ℕ → Bool
seen [] top height = false
seen (v ∷ vs) top height = is_in_viewport v top height || seen vs top height

abbrev pub wanted : List View → Image → Bool
wanted vs i = is_truthy i.lazy && seen vs i.image_top i.image_height

abbrev pub show_seen : List View → Image → Image
show_seen vs i = load_by (wanted vs i) i

wanted-load_by : (vs : List View) (b : Bool) (i : Image) → wanted vs (load_by b i) ≡ wanted vs i
wanted-load_by vs true i = refl
wanted-load_by vs false i = refl

load_by-load_by : (a b : Bool) (i : Image) → load_by a (load_by b i) ≡ load_by (b || a) i
load_by-load_by true true i = refl
load_by-load_by false true i = refl
load_by-load_by true false i = refl
load_by-load_by false false i = refl

and_or : (t a b : Bool) → (t && a) || (t && b) ≡ t && (a || b)
and_or true a b = refl
and_or false a b = refl

show_seen-load_image :
    (v : View) (vs : List View) (i : Image) → show_seen vs (load_image v i) ≡ show_seen (v ∷ vs) i
unfolding load_image
show_seen-load_image v vs i =
    let b = is_truthy i.lazy && is_in_viewport v i.image_top i.image_height in
    ap (λ a. load_by a (load_by b i)) (wanted-load_by vs b i)
    ∙ load_by-load_by (wanted vs i) b i
    ∙ ap (λ a. load_by a i)
        (and_or (is_truthy i.lazy) (is_in_viewport v i.image_top i.image_height)
          (seen vs i.image_top i.image_height))

map-show_seen :
    (v : View) (vs : List View) (is : List Image)
    → map (show_seen vs) (load_lazy_images v is) ≡ map (show_seen (v ∷ vs)) is
unfolding load_lazy_images
map-show_seen v vs [] = refl
map-show_seen v vs (i ∷ is) = cc (show_seen-load_image v vs i, map-show_seen v vs is)

map-show_none : (is : List Image) → is ≡ map (show_seen []) is
map-show_none [] = refl
map-show_none (i ∷ is) = cc (none_wanted i, map-show_none is)
  where
    none_wanted : (i : Image) → i ≡ show_seen [] i
    none_wanted i = elim (Bool-cases (is_truthy i.lazy)) [
      | inl e ↦ sym (ap (λ b. load_by (b && false) i) e)
      | inr e ↦ sym (ap (λ b. load_by (b && false) i) e)
    ]

scrolled_all-shown :
    (vs : List View) (p : Page) → (scrolled_all vs p).images ≡ map (show_seen vs) p.images
unfolding scrolled
scrolled_all-shown [] p = map-show_none p.images
scrolled_all-shown (v ∷ vs) p = scrolled_all-shown vs (scrolled v p) ∙ map-show_seen v vs p.images

-- A part of the window and an element, from its top on as high as it is, have a line in common.
abbrev pub Meets : View → ℕ → ℕ → Type 0
Meets v top height = (v.view_top < top + height) × (top < v.view_top + v.view_height)

abbrev pub InSight : List View → ℕ → ℕ → Type 0
InSight [] top height = ⊥
InSight (v ∷ vs) top height = Meets v top height ⊎ InSight vs top height

-- What becomes of an image.
pub record Loads (vs : List View) (i j : Image) : Type 0 where
  pub in_place : (j.image_top ≡ i.image_top) × (j.image_height ≡ i.image_height) × (j.lazy ≡ i.lazy)
  pub source :
      (i.lazy ≢ [] × InSight vs i.image_top i.image_height × (j.src ≡ some i.lazy))
      ⊎ (((i.lazy ≡ []) ⊎ ¬ InSight vs i.image_top i.image_height) × (j.src ≡ i.src))

abbrev pub AllLoad : List View → List Image → List Image → Type 0
AllLoad vs [] [] = Unit
AllLoad vs [] (j ∷ js) = ⊥
AllLoad vs (i ∷ is) [] = ⊥
AllLoad vs (i ∷ is) (j ∷ js) = Loads vs i j × AllLoad vs is js

is_in_viewport-Meets :
    (v : View) (top height : ℕ) → (is_in_viewport v top height ≡ true) ↔ Meets v top height
unfolding is_in_viewport
is_in_viewport-Meets v top height = ground arith

seen-InSight :
    (vs : List View) (top height : ℕ) → (seen vs top height ≡ true) ↔ InSight vs top height
seen-InSight [] top height = ((λ e. cc), λ e. elim e [ ])
seen-InSight (v ∷ vs) top height =
    let here = is_in_viewport-Meets v top height in
    let later = seen-InSight vs top height in
    elim (Bool-cases (is_in_viewport v top height)) [
      | inl shown ↦ ((λ e. inl (here.0 shown)), λ e. rw shown refl)
      | inr hidden ↦ (
        (λ e. inr (later.0 (sym (ap (λ b. b || seen vs top height) hidden) ∙ e))),
        λ e.
            ap (λ b. b || seen vs top height) hidden
            ∙ elim e [ inl m ↦ cc (here.1 m) | inr m ↦ later.1 m ],
      )
    ]

show_seen-Loads : (vs : List View) (i : Image) → Loads vs i (show_seen vs i)
show_seen-Loads vs i = by_test (is_truthy i.lazy) (seen vs i.image_top i.image_height) refl refl
  where
    some_address : (s : Text) → is_truthy s ≡ true → s ≢ []
    some_address s h e = cc (ap is_truthy e)

    no_address : (s : Text) → is_truthy s ≡ false → s ≡ []
    no_address [] h = refl
    no_address (c ∷ s) h = cc

    by_test :
        (a b : Bool)
        → is_truthy i.lazy ≡ a
        → seen vs i.image_top i.image_height ≡ b
        → Loads vs i (load_by (a && b) i)
    by_test true true p q = record {
      in_place = (refl, refl, refl);
      source = inl (some_address i.lazy p, (seen-InSight vs i.image_top i.image_height).0 q, refl);
    }
    by_test true false p q = record {
      in_place = (refl, refl, refl);
      source = inr (inr (λ m. cc ((seen-InSight vs i.image_top i.image_height).1 m, q)), refl);
    }
    by_test false b p q = record {
      in_place = (refl, refl, refl);
      source = inr (inl (no_address i.lazy p), refl);
    }

map-AllLoad : (vs : List View) (is : List Image) → AllLoad vs is (map (show_seen vs) is)
map-AllLoad vs [] = tt
map-AllLoad vs (i ∷ is) = (show_seen-Loads vs i, map-AllLoad vs is)

-- After any sequence of scrolls every image is where it was, with its address for later. If the address is
-- not empty and in some view the image and the window had a line in common, the address is its source;
-- else its source is as before.
pub scrolled_all-AllLoad :
    (vs : List View) (p : Page) → AllLoad vs p.images (scrolled_all vs p).images
scrolled_all-AllLoad vs p =
    subst (AllLoad vs p.images) (sym (scrolled_all-shown vs p)) (map-AllLoad vs p.images)

show_wall-none : (v : View) (w : Wall) → w.query ≡ none → show_wall v w ≡ w
unfolding show_wall
show_wall-none v w e = ground (arith, e)

show_wall-some :
    (v : View) (w : Wall) (q : Text)
    → w.query ≡ some q
    → show_wall v w ≡ load_wall (is_truthy q && is_in_viewport v w.wall_top w.wall_height) q w
unfolding show_wall
show_wall-some v w q e = ground (arith, e)

wall_rests : (vs : List View) (p : Page) → p.wall.query ≡ none → (scrolled_all vs p).wall ≡ p.wall
unfolding scrolled
wall_rests [] p e = refl
wall_rests (v ∷ vs) p e =
    let same = show_wall-none v p.wall e in
    wall_rests vs (scrolled v p) (ap (λ (w : Wall). w.query) same ∙ e) ∙ same

-- After any sequence of scrolls a wall with a query that is not empty has loaded it once if some view
-- showed it, and nothing otherwise.
pub scrolled_all-wall :
    (vs : List View) (p : Page) (c : ℕ) (s : Text)
    → p.wall.query ≡ some (c ∷ s)
    → (scrolled_all vs p).wall.loaded
      ≡ p.wall.loaded ++ (if seen vs p.wall.wall_top p.wall.wall_height then (c ∷ s) ∷ [] else [])
unfolding scrolled
scrolled_all-wall [] p c s e = sym (append-nil p.wall.loaded)
scrolled_all-wall (v ∷ vs) p c s e =
    elim (Bool-cases (is_in_viewport v p.wall.wall_top p.wall.wall_height)) [
      | inl shown ↦
          let done : show_wall v p.wall ≡ load_wall true (c ∷ s) p.wall =
            show_wall-some v p.wall (c ∷ s) e ∙ ap (λ b. load_wall b (c ∷ s) p.wall) shown in
          ap (λ (w : Wall). w.loaded)
            (wall_rests vs (scrolled v p) (ap (λ (w : Wall). w.query) done) ∙ done)
          ∙ ap
              (λ b.
                p.wall.loaded
                ++ (if b || seen vs p.wall.wall_top p.wall.wall_height then (c ∷ s) ∷ [] else []))
              (sym shown)
      | inr hidden ↦
          let same : show_wall v p.wall ≡ p.wall =
            show_wall-some v p.wall (c ∷ s) e ∙ ap (λ b. load_wall b (c ∷ s) p.wall) hidden in
          scrolled_all-wall vs (scrolled v p) c s (ap (λ (w : Wall). w.query) same ∙ e)
          ∙ ap
              (λ (w : Wall).
                w.loaded ++ (if seen vs w.wall_top w.wall_height then (c ∷ s) ∷ [] else []))
              same
          ∙ ap
              (λ b.
                p.wall.loaded
                ++ (if b || seen vs p.wall.wall_top p.wall.wall_height then (c ∷ s) ∷ [] else []))
              (sym hidden)
    ]
