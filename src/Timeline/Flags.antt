-- ===== src/Timeline/Flags.antt =====
-- A class on the elements of a list, as the list of its flags: at most one element has the class
-- `selected`, and the code moves it.
use lso_project.Prelude.{
  ℕ, zero, suc, ◌<◌, ◌≡◌, refl, ap, ◌≢◌, Bool, true, false, some, List, [], ◌∷◌, arith,
  if◌then◌else◌, length,
}
use lso_project.Timeline.{find_index}

abbrev pub AllFalse : List Bool → Type 0
AllFalse [] = Unit
AllFalse (b ∷ bs) = (b ≡ false) × AllFalse bs

-- The flag number k is the only one that is set.
abbrev pub IsAt : ℕ → List Bool → Type 0
IsAt k [] = ⊥
IsAt zero (b ∷ bs) = (b ≡ true) × AllFalse bs
IsAt (suc k) (b ∷ bs) = (b ≡ false) × IsAt k bs

-- Exactly the flags below number k are set.
abbrev pub IsBelow : ℕ → List Bool → Type 0
IsBelow zero bs = AllFalse bs
IsBelow (suc k) [] = ⊥
IsBelow (suc k) (b ∷ bs) = (b ≡ true) × IsBelow k bs

-- The class is added where the second list says so, and then removed where it was before.
abbrev pub toggled : List Bool → List Bool → List Bool
toggled [] ms = []
toggled (b ∷ bs) [] = false ∷ toggled bs []
toggled (b ∷ bs) (m ∷ ms) = (if b then false else m) ∷ toggled bs ms

pub lt_of_IsAt : (k : ℕ) (bs : List Bool) → IsAt k bs → k < length bs
lt_of_IsAt k [] h = absurd h
lt_of_IsAt zero (b ∷ bs) h = omega arith
lt_of_IsAt (suc k) (b ∷ bs) h = omega (arith, lt_of_IsAt k bs h.1)

pub find_index-IsAt : (k : ℕ) (bs : List Bool) → IsAt k bs → find_index bs ≡ some k
unfolding find_index
find_index-IsAt k [] h = absurd h
find_index-IsAt zero (b ∷ bs) h = rw h.0
find_index-IsAt (suc k) (b ∷ bs) h = rw (h.0, find_index-IsAt k bs h.1)

toggled-AllFalse : (bs ms : List Bool) → AllFalse ms → AllFalse (toggled bs ms)
toggled-AllFalse [] ms h = tt
toggled-AllFalse (b ∷ bs) [] h = (refl, toggled-AllFalse bs [] tt)
toggled-AllFalse (true ∷ bs) (m ∷ ms) h = (refl, toggled-AllFalse bs ms h.1)
toggled-AllFalse (false ∷ bs) (m ∷ ms) h = (h.0, toggled-AllFalse bs ms h.1)

toggled_from_none :
    (j : ℕ) (bs ms : List Bool)
    → AllFalse bs
    → IsAt j ms
    → length ms ≡ length bs
    → IsAt j (toggled bs ms)
toggled_from_none j [] [] h m e = absurd m
toggled_from_none j [] (c ∷ ms) h m e = absurd (omega arith)
toggled_from_none j (b ∷ bs) [] h m e = absurd m
toggled_from_none zero (b ∷ bs) (c ∷ ms) h m e = (rw (h.0) m.0, toggled-AllFalse bs ms m.1)
toggled_from_none (suc j) (b ∷ bs) (c ∷ ms) h m e =
    (rw (h.0) m.0, toggled_from_none j bs ms h.1 m.1 (omega arith))

-- To another element the class moves.
pub toggled-IsAt :
    (j k : ℕ) (bs ms : List Bool)
    → IsAt k bs
    → IsAt j ms
    → length ms ≡ length bs
    → j ≢ k
    → IsAt j (toggled bs ms)
toggled-IsAt j k [] ms h m e ne = absurd h
toggled-IsAt j k (b ∷ bs) [] h m e ne = absurd m
toggled-IsAt zero zero (b ∷ bs) (c ∷ ms) h m e ne = absurd (ne refl)
toggled-IsAt zero (suc k) (b ∷ bs) (c ∷ ms) h m e ne = (rw (h.0, m.0), toggled-AllFalse bs ms m.1)
toggled-IsAt (suc j) zero (b ∷ bs) (c ∷ ms) h m e ne =
    (rw (h.0), toggled_from_none j bs ms h.1 m.1 (omega arith))
toggled-IsAt (suc j) (suc k) (b ∷ bs) (c ∷ ms) h m e ne =
    (rw (h.0, m.0), toggled-IsAt j k bs ms h.1 m.1 (omega arith) (λ q. ne (ap suc q)))

-- At the same element it is added and then removed.
pub toggled_same : (k : ℕ) (bs ms : List Bool) → IsAt k bs → IsAt k ms → AllFalse (toggled bs ms)
toggled_same k [] ms h m = absurd h
toggled_same k (b ∷ bs) [] h m = absurd m
toggled_same zero (b ∷ bs) (c ∷ ms) h m = (rw h.0, toggled-AllFalse bs ms m.1)
toggled_same (suc k) (b ∷ bs) (c ∷ ms) h m = (rw (h.0, m.0), toggled_same k bs ms h.1 m.1)
