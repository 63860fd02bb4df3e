-- ===== src/Timeline/Debounce/Bursts.antt =====
-- When a debounced function runs.
use lso_project.Prelude.{
  ℕ, ◌+◌, ◌≡◌, refl, sym, ap, ◌∙◌, inl, inr, Bool, true, false, some, List, [], ◌∷◌, ◌++◌,
  append_assoc, append-nil, leb, Bool-cases, if◌then◌else◌,
}
use lso_project.Timeline.Debounce.{Debounced, call, calls, run_out, runs_of}

-- A burst of calls goes on as long as each call comes within the wait of the one before. The ends of the
-- bursts, with the wait, after a call at the time p.
abbrev pub ends : ℕ → ℕ → List ℕ → List ℕ
ends wait p [] = (p + wait) ∷ []
ends wait p (t ∷ ts) =
    let rest = ends wait t ts in if leb (p + wait) t then (p + wait) ∷ rest else rest

-- The beginnings of the bursts after a call at the time p.
abbrev pub starts : ℕ → ℕ → List ℕ → List ℕ
starts wait p [] = []
starts wait p (t ∷ ts) = let rest = starts wait t ts in if leb (p + wait) t then t ∷ rest else rest

abbrev pub bursts : ℕ → Bool → List ℕ → List ℕ
bursts wait immediate [] = []
bursts wait immediate (t ∷ ts) = if immediate then t ∷ starts wait t ts else ends wait t ts

-- From a timer that is set by a call at the time p.
abbrev pending : ℕ → ℕ → List ℕ → Debounced
pending wait p rs = record { timeout = some (p + wait); runs = rs }

call-pending :
    (wait p t : ℕ) (immediate due : Bool) (rs : List ℕ)
    → leb (p + wait) t ≡ due
    → call wait immediate t (pending wait p rs)
      ≡ pending wait t (if due then rs ++ (if immediate then t else p + wait) ∷ [] else rs)
unfolding call
call-pending wait p t true true rs h = rw h refl
call-pending wait p t true false rs h = rw h refl
call-pending wait p t false true rs h = rw h refl
call-pending wait p t false false rs h = rw h refl

finished : ℕ → Bool → List ℕ → Debounced → List ℕ
finished wait immediate ts s =
    let u = calls wait immediate ts s in (run_out immediate u.timeout u).runs

finished-pending :
    (wait p : ℕ) (immediate : Bool) (ts rs : List ℕ)
    → finished wait immediate ts (pending wait p rs)
      ≡ rs ++ (if immediate then starts wait p ts else ends wait p ts)
unfolding finished
finished-pending wait p true [] rs = sym (append-nil rs)
finished-pending wait p false [] rs = refl
finished-pending wait p immediate (t ∷ ts) rs = elim (Bool-cases (leb (p + wait) t)) [
  | inl due ↦
      ap (finished wait immediate ts) (call-pending wait p t immediate true rs due)
      ∙ finished-pending wait t immediate ts (rs ++ (if immediate then t else p + wait) ∷ [])
      ∙ append_assoc rs ((if immediate then t else p + wait) ∷ [])
          (if immediate then starts wait t ts else ends wait t ts)
      ∙ ap (λ xs. rs ++ xs) (by_mode immediate due)
  | inr early ↦
      ap (finished wait immediate ts) (call-pending wait p t immediate false rs early)
      ∙ finished-pending wait t immediate ts rs
      ∙ ap (λ xs. rs ++ xs) (same immediate early)
]
  where
    by_mode :
        (b : Bool)
        → leb (p + wait) t ≡ true
        → (if b then t else p + wait) ∷ [] ++ (if b then starts wait t ts else ends wait t ts)
          ≡ (if b then starts wait p (t ∷ ts) else ends wait p (t ∷ ts))
    by_mode true due = rw due refl
    by_mode false due = rw due refl

    same :
        (b : Bool)
        → leb (p + wait) t ≡ false
        → (if b then starts wait t ts else ends wait t ts)
          ≡ (if b then starts wait p (t ∷ ts) else ends wait p (t ∷ ts))
    same true early = rw early refl
    same false early = rw early refl

-- Whenever a debounced function is called, it runs exactly once for each burst of calls: without
-- `immediate` at the end of the burst, the wait after its last call, and with it at the burst's
-- first call.
pub runs_of-bursts :
    (wait : ℕ) (immediate : Bool) (ts : List ℕ)
    → runs_of wait immediate ts ≡ bursts wait immediate ts
unfolding finished call
runs_of-bursts wait immediate [] = refl
runs_of-bursts wait true (t ∷ ts) = finished-pending wait t true ts (t ∷ [])
runs_of-bursts wait false (t ∷ ts) = finished-pending wait t false ts []
