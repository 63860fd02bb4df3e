-- ===== src/Timeline/Holds.antt =====
-- A predicate on what a call returns, if it returns.
use lso_project.Prelude.{Bool, true, false, if◌then◌else◌, Option, none, some}
use lso_project.Timeline.{◌>>=◌}

abbrev pub Holds {ℓ} : {A : Type ℓ} → (A → Type 0) → Option A → Type 0
Holds P none = Unit
Holds P (some a) = P a

pub bind-Holds {ℓ κ} :
    {A : Type ℓ} {B : Type κ} (Q : A → Type 0) (P : B → Type 0) (o : Option A) (f : A → Option B)
    → Holds Q o
    → ((a : A) → Q a → Holds P (f a))
    → Holds P (o >>= f)
bind-Holds Q P none f h k = tt
bind-Holds Q P (some a) f h k = k a h

pub bind_any-Holds {ℓ κ} :
    {A : Type ℓ} {B : Type κ} (P : B → Type 0) (o : Option A) (f : A → Option B)
    → ((a : A) → Holds P (f a))
    → Holds P (o >>= f)
bind_any-Holds P none f k = tt
bind_any-Holds P (some a) f k = k a

pub if-Holds {ℓ} :
    {A : Type ℓ} (P : A → Type 0) (b : Bool) (o p : Option A)
    → Holds P o
    → Holds P p
    → Holds P (if b then o else p)
if-Holds P true o p h k = h
if-Holds P false o p h k = k
