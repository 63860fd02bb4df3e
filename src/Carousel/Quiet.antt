-- ===== src/Carousel/Quiet.antt =====
-- No video plays in an item that is not shown.
use lso_project.Prelude.{
  ℕ, zero, suc, ◌≤◌, ◌≡◌, refl, ap, Bool, true, false, List, [], ◌∷◌, arith, length, All, Text,
}
use lso_project.Carousel.{Item, Carousel, pause, on_item, slide}

-- A visitor starts a video of the item that is shown, by its number there, or goes to another item.
pub data Input : Type 0 where
  play : ℕ → Input
  go : ℕ → Input

abbrev start : ℕ → List Bool → List Bool
start k [] = []
start zero (v ∷ vs) = true ∷ vs
start (suc k) (v ∷ vs) = v ∷ start k vs

abbrev start_in : ℕ → Item → Item
start_in k x = record x { videos = start k x.videos }

abbrev pub input : Input → Carousel → Carousel
input (play k) c = record c { items = on_item (start_in k) c.current c.items }
input (go to) c = slide to c

abbrev pub inputs : List Input → Carousel → Carousel
inputs [] c = c
inputs (i ∷ is) c = inputs is (input i c)

abbrev pub Still : Item → Type 0
Still x = All (λ v. v ≡ false) x.videos

abbrev pub Single : Item → Type 0
Single x = length x.videos ≤ 1

-- The items but the one that is shown are still.
abbrev pub Elsewhere : ℕ → List Item → Type 0
Elsewhere i [] = Unit
Elsewhere zero (x ∷ xs) = All Still xs
Elsewhere (suc i) (x ∷ xs) = Still x × Elsewhere i xs

pub record Quiet (c : Carousel) : Type 0 where
  pub single : All Single c.items
  pub elsewhere : Elsewhere c.current c.items

Elsewhere-Still : (i : ℕ) (xs : List Item) → All Still xs → Elsewhere i xs
Elsewhere-Still i [] h = tt
Elsewhere-Still zero (x ∷ xs) h = h.1
Elsewhere-Still (suc i) (x ∷ xs) h = (h.0, Elsewhere-Still i xs h.1)

pause-Still : (x : Item) → Single x → Still (pause x)
unfolding pause
pause-Still x h = by_videos x.videos x.iframes h
  where
    by_videos :
        (vs : List Bool) (fs : List (List Text))
        → length vs ≤ 1
        → Still (pause (record { videos = vs; iframes = fs }))
    by_videos [] fs h = tt
    by_videos (v ∷ []) fs h = (refl, tt)
    by_videos (v ∷ w ∷ vs) fs h = absurd (omega arith)

pause-Single : (x : Item) → Single x → Single (pause x)
unfolding pause
pause-Single x h = omega (arith, same x.videos x.iframes, h)
  where
    same :
        (vs : List Bool) (fs : List (List Text))
        → length (pause (record { videos = vs; iframes = fs })).videos ≡ length vs
    same [] fs = refl
    same (v ∷ vs) fs = refl

on_item-pause :
    (i : ℕ) (xs : List Item) → All Single xs → Elsewhere i xs → All Still (on_item pause i xs)
on_item-pause i [] s h = tt
on_item-pause zero (x ∷ xs) s h = (pause-Still x s.0, h)
on_item-pause (suc i) (x ∷ xs) s h = (h.0, on_item-pause i xs s.1 h.1)

on_item-Elsewhere :
    (f : Item → Item) (i : ℕ) (xs : List Item) → Elsewhere i xs → Elsewhere i (on_item f i xs)
on_item-Elsewhere f i [] h = tt
on_item-Elsewhere f zero (x ∷ xs) h = h
on_item-Elsewhere f (suc i) (x ∷ xs) h = (h.0, on_item-Elsewhere f i xs h.1)

on_item-Single :
    (f : Item → Item)
    → ((x : Item) → Single x → Single (f x))
    → (i : ℕ) (xs : List Item) → All Single xs
    → All Single (on_item f i xs)
on_item-Single f k i [] h = tt
on_item-Single f k zero (x ∷ xs) h = (k x h.0, h.1)
on_item-Single f k (suc i) (x ∷ xs) h = (h.0, on_item-Single f k i xs h.1)

length-start : (k : ℕ) (vs : List Bool) → length (start k vs) ≡ length vs
length-start k [] = refl
length-start zero (v ∷ vs) = refl
length-start (suc k) (v ∷ vs) = ap suc (length-start k vs)

input-Quiet : (i : Input) (c : Carousel) → Quiet c → Quiet (input i c)
unfolding slide
input-Quiet (play k) c q = record {
  single =
      on_item-Single (start_in k) (λ x h. omega (arith, length-start k x.videos, h)) c.current
        c.items q.single;
  elsewhere = on_item-Elsewhere (start_in k) c.current c.items q.elsewhere;
}
input-Quiet (go to) c q = record {
  single = on_item-Single pause pause-Single c.current c.items q.single;
  elsewhere =
      Elsewhere-Still to (on_item pause c.current c.items)
        (on_item-pause c.current c.items q.single q.elsewhere);
}

-- In a carousel with one video in an item at most, and none that plays but in the item that is shown,
-- whatever a visitor plays and wherever he goes, no video plays but in the item that is shown.
pub inputs-Quiet : (is : List Input) (c : Carousel) → Quiet c → Quiet (inputs is c)
inputs-Quiet [] c q = q
inputs-Quiet (i ∷ is) c q = inputs-Quiet is (input i c) (input-Quiet i c q)
