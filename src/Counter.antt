-- ===== src/Counter.antt =====
-- The animated counter `countTo` of SupportTestDirectory/yo/FIGC_files/FIGC_Script.js. Its numbers are those of
-- JavaScript, whose sums and quotients are rounded: they are a parameter. The speed and the interval are whole
-- milliseconds.
pub mod Format
pub mod Final
use lso_project.Prelude.{
  ℕ, zero, suc, ◌+◌, ◌-◌, ◌/◌, Bool, true, false, List, [], ◌∷◌, leb, if◌then◌else◌,
}

-- The numbers, with the operations that the counter uses. They need not be exact.
pub record Arithmetic : Type 1 where
  pub Number : Type 0
  pub number : ℕ → Number
  pub plus : Number → Number → Number
  pub minus : Number → Number → Number
  pub over : Number → Number → Number

pub record Settings (A : Arithmetic) : Type 0 where
  pub from : A.Number
  pub to : A.Number
  pub speed : ℕ
  pub refresh_interval : ℕ
  pub decimals : ℕ
  pub has_on_update : Bool
  pub has_on_complete : Bool

-- `$.fn.countTo.defaults`, with its own formatter.
abbrev pub defaults : (A : Arithmetic) → Settings A
defaults A = record {
  from = A.number 0;
  to = A.number 0;
  speed = 1000;
  refresh_interval = 100;
  decimals = 0;
  has_on_update = false;
  has_on_complete = false;
}

-- `Math.ceil(settings.speed / settings.refreshInterval)`
unfoldable pub loops : {A : Arithmetic} → Settings A → ℕ
loops s = (s.speed + (s.refresh_interval - 1)) / s.refresh_interval

unfoldable pub increment : {A : Arithmetic} → (s : Settings A) → A.Number
unfolding loops
increment {A} s = A.over (A.minus s.to s.from) (A.number (loops s))

-- The variables of one element. `rendered` holds what `render` was given, the last one first; `live`
-- says that the interval runs; `updates` counts the calls of `onUpdate`, and `completed` holds what
-- `onComplete` was given.
pub record Counter (A : Arithmetic) : Type 0 where
  pub value : A.Number
  pub loop_count : ℕ
  pub rendered : List A.Number
  pub live : Bool
  pub updates : ℕ
  pub completed : List A.Number

-- `countTo` up to the first rendering.
unfoldable pub count_to : {A : Arithmetic} → Settings A → Counter A
count_to s = record {
  value = s.from;
  loop_count = 0;
  rendered = s.from ∷ [];
  live = true;
  updates = 0;
  completed = [];
}

unfoldable pub one_if : Bool → ℕ
one_if b = if b then 1 else 0

-- The end of `updateTimer`, in the last round.
abbrev pub complete : {A : Arithmetic} → Settings A → Counter A → Counter A
complete s c = record c {
  live = false;
  value = s.to;
  completed = if s.has_on_complete then s.to ∷ c.completed else c.completed;
}

-- `updateTimer`; a cleared interval does not call it.
abbrev pub update : {A : Arithmetic} → Settings A → Counter A → Counter A
update {A} s c = record c {
  value = A.plus c.value (increment s);
  loop_count = c.loop_count + 1;
  rendered = A.plus c.value (increment s) ∷ c.rendered;
  updates = c.updates + one_if s.has_on_update;
}

unfoldable pub update_timer : {A : Arithmetic} → Settings A → Counter A → Counter A
unfolding increment one_if
update_timer s c =
    if c.live
    then (let c' = update s c in if leb (loops s) c'.loop_count then complete s c' else c')
    else c

-- The interval's rounds.
unfoldable pub rounds : {A : Arithmetic} → Settings A → ℕ → Counter A → Counter A
unfolding update_timer
rounds s zero c = c
rounds s (suc n) c = update_timer s (rounds s n c)
