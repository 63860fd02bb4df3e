-- ===== src/Timeline/Debounce.antt =====
-- `debounce` of `_setup`, by which a resize of the window reaches `_mobileResizeFix` only once it ends.
pub mod Bursts
use lso_project.Prelude.{
  ℕ, ◌+◌, Bool, true, false, not, ◌&&◌, Option, none, some, List, [], ◌∷◌, ◌++◌, leb, if◌then◌else◌,
}

-- The variable `timeout`, as the time when its timer is due, and when the function has run.
pub record Debounced : Type 0 where
  pub timeout : Option ℕ
  pub runs : List ℕ

abbrev pub fresh : Debounced
fresh = record { timeout = none; runs = [] }

-- `later`, which the timer calls.
abbrev pub later : Bool → ℕ → Debounced → Debounced
later immediate due s =
    let s' = record s { timeout = none } in
    if not immediate then record s' { runs = s'.runs ++ due ∷ [] } else s'

-- What the timer does up to the time `now`.
abbrev pub wait_until : Bool → ℕ → Option ℕ → Debounced → Debounced
wait_until immediate now none s = s
wait_until immediate now (some due) s = if leb due now then later immediate due s else s

abbrev pub is_unset : Option ℕ → Bool
is_unset none = true
is_unset (some due) = false

-- A call at the time `now`, once the timer has run where it was due: the timer is set anew.
unfoldable pub call : ℕ → Bool → ℕ → Debounced → Debounced
call wait immediate now s0 =
    let s = wait_until immediate now s0.timeout s0 in
    let call_now = immediate && is_unset s.timeout in
    let s' = record s { timeout = some (now + wait) } in
    if call_now then record s' { runs = s'.runs ++ now ∷ [] } else s'

-- The calls at the times of the list, and the timer that is left at the end.
abbrev pub calls : ℕ → Bool → List ℕ → Debounced → Debounced
calls wait immediate [] s = s
calls wait immediate (now ∷ ts) s = calls wait immediate ts (call wait immediate now s)

abbrev pub run_out : Bool → Option ℕ → Debounced → Debounced
run_out immediate none s = s
run_out immediate (some due) s = later immediate due s

abbrev pub runs_of : ℕ → Bool → List ℕ → List ℕ
runs_of wait immediate ts =
    let s = calls wait immediate ts fresh in (run_out immediate s.timeout s).runs
