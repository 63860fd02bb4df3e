-- ===== src/Timeline/Life/Flagged.antt =====
-- Flags in a list from which an element goes, or into which one comes.
use lso_project.Prelude.{
  ℕ, zero, suc, ◌≤◌, ◌<◌, ◌≡◌, refl, ap, Bool, true, false, List, [], ◌∷◌, map, arith, length,
}
use lso_project.Timeline.Flags.{AllFalse, IsAt, IsBelow}

module _ {ℓ} {A : Type ℓ} where
  abbrev pub remove_at : ℕ → List A → List A
  remove_at k [] = []
  remove_at zero (x ∷ xs) = xs
  remove_at (suc k) (x ∷ xs) = x ∷ remove_at k xs

  abbrev pub insert_at : ℕ → A → List A → List A
  insert_at zero a xs = a ∷ xs
  insert_at (suc k) a [] = a ∷ []
  insert_at (suc k) a (x ∷ xs) = x ∷ insert_at k a xs

pub map-remove_at {ℓ κ} :
    {A : Type ℓ} {B : Type κ} (f : A → B) (k : ℕ) (xs : List A)
    → map f (remove_at k xs) ≡ remove_at k (map f xs)
map-remove_at f k [] = refl
map-remove_at f zero (x ∷ xs) = refl
map-remove_at f (suc k) (x ∷ xs) = ap (λ ys. f x ∷ ys) (map-remove_at f k xs)

pub map-insert_at {ℓ κ} :
    {A : Type ℓ} {B : Type κ} (f : A → B) (k : ℕ) (a : A) (xs : List A)
    → map f (insert_at k a xs) ≡ insert_at k (f a) (map f xs)
map-insert_at f zero a xs = refl
map-insert_at f (suc k) a [] = refl
map-insert_at f (suc k) a (x ∷ xs) = ap (λ ys. f x ∷ ys) (map-insert_at f k a xs)

AllFalse-remove_at : (j : ℕ) (bs : List Bool) → AllFalse bs → AllFalse (remove_at j bs)
AllFalse-remove_at j [] h = tt
AllFalse-remove_at zero (b ∷ bs) h = h.1
AllFalse-remove_at (suc j) (b ∷ bs) h = (h.0, AllFalse-remove_at j bs h.1)

pub IsAt-remove_front :
    (j k : ℕ) (bs : List Bool) → j ≤ k → IsAt (suc k) bs → IsAt k (remove_at j bs)
IsAt-remove_front j k [] le h = absurd h
IsAt-remove_front zero k (b ∷ bs) le h = h.1
IsAt-remove_front (suc j) zero (b ∷ bs) le h = absurd (omega arith)
IsAt-remove_front (suc j) (suc k) (b ∷ bs) le h = (h.0, IsAt-remove_front j k bs (omega arith) h.1)

pub IsAt-remove_back : (j k : ℕ) (bs : List Bool) → k < j → IsAt k bs → IsAt k (remove_at j bs)
IsAt-remove_back j k [] lt h = absurd h
IsAt-remove_back zero k (b ∷ bs) lt h = absurd (omega arith)
IsAt-remove_back (suc j) zero (b ∷ bs) lt h = (h.0, AllFalse-remove_at j bs h.1)
IsAt-remove_back (suc j) (suc k) (b ∷ bs) lt h = (h.0, IsAt-remove_back j k bs (omega arith) h.1)

pub IsBelow-remove_front :
    (j k : ℕ) (bs : List Bool) → j ≤ k → IsBelow (suc k) bs → IsBelow k (remove_at j bs)
IsBelow-remove_front j k [] le h = absurd h
IsBelow-remove_front zero k (b ∷ bs) le h = h.1
IsBelow-remove_front (suc j) zero (b ∷ bs) le h = absurd (omega arith)
IsBelow-remove_front (suc j) (suc k) (b ∷ bs) le h =
    (h.0, IsBelow-remove_front j k bs (omega arith) h.1)

pub IsBelow-remove_back :
    (j k : ℕ) (bs : List Bool) → k ≤ j → IsBelow k bs → IsBelow k (remove_at j bs)
IsBelow-remove_back j zero bs le h = AllFalse-remove_at j bs h
IsBelow-remove_back j (suc k) [] le h = absurd h
IsBelow-remove_back zero (suc k) (b ∷ bs) le h = absurd (omega arith)
IsBelow-remove_back (suc j) (suc k) (b ∷ bs) le h =
    (h.0, IsBelow-remove_back j k bs (omega arith) h.1)

-- A flag that is set.
abbrev pub set_at : ℕ → List Bool → List Bool
set_at k [] = []
set_at zero (b ∷ bs) = true ∷ bs
set_at (suc k) (b ∷ bs) = b ∷ set_at k bs

-- The flag moves on to the next element, or back to the one before, and its own element goes.
pub IsAt-hand_on :
    (k : ℕ) (bs : List Bool)
    → suc k < length bs
    → IsAt k bs
    → IsAt k (remove_at k (set_at (suc k) bs))
IsAt-hand_on k [] lt h = absurd h
IsAt-hand_on zero (b ∷ []) lt h = absurd (omega arith)
IsAt-hand_on zero (b ∷ c ∷ bs) lt h = (refl, h.1.1)
IsAt-hand_on (suc k) (b ∷ bs) lt h = (h.0, IsAt-hand_on k bs (omega arith) h.1)

pub IsAt-hand_back :
    (k : ℕ) (bs : List Bool) → IsAt (suc k) bs → IsAt k (remove_at (suc k) (set_at k bs))
IsAt-hand_back k [] h = absurd h
IsAt-hand_back zero (b ∷ []) h = absurd h.1
IsAt-hand_back zero (b ∷ c ∷ bs) h = (refl, h.1.1)
IsAt-hand_back (suc k) (b ∷ bs) h = (h.0, IsAt-hand_back k bs h.1)

AllFalse-insert_at : (p : ℕ) (bs : List Bool) → AllFalse bs → AllFalse (insert_at p false bs)
AllFalse-insert_at zero bs h = (refl, h)
AllFalse-insert_at (suc p) [] h = (refl, tt)
AllFalse-insert_at (suc p) (b ∷ bs) h = (h.0, AllFalse-insert_at p bs h.1)

pub IsAt-insert_front :
    (p k : ℕ) (bs : List Bool) → p ≤ k → IsAt k bs → IsAt (suc k) (insert_at p false bs)
IsAt-insert_front zero k bs le h = (refl, h)
IsAt-insert_front (suc p) k [] le h = absurd h
IsAt-insert_front (suc p) zero (b ∷ bs) le h = absurd (omega arith)
IsAt-insert_front (suc p) (suc k) (b ∷ bs) le h = (h.0, IsAt-insert_front p k bs (omega arith) h.1)

pub IsAt-insert_back :
    (p k : ℕ) (bs : List Bool) → k < p → IsAt k bs → IsAt k (insert_at p false bs)
IsAt-insert_back zero k bs lt h = absurd (omega arith)
IsAt-insert_back (suc p) k [] lt h = absurd h
IsAt-insert_back (suc p) zero (b ∷ bs) lt h = (h.0, AllFalse-insert_at p bs h.1)
IsAt-insert_back (suc p) (suc k) (b ∷ bs) lt h = (h.0, IsAt-insert_back p k bs (omega arith) h.1)
