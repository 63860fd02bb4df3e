-- ===== src/Server/Manager/Tracks.antt =====
-- No client is lost: each stands in the set, in the queue or in the pipe.
use lso_project.Prelude.{
  ℕ, suc, ◌+◌, ◌≤◌, ◌<◌, ◌≡◌, refl, sym, ap, ◌∙◌, ◌⊎◌, inl, inr, Bool, true, false, ◌||◌, none,
  some, List, [], ◌∷◌, arith, ◌==◌, if◌then◌else◌, length, Bool-cases, ==_iff,
}
use mathlib.Core.Path.{subst}
use lso_project.Server.Manager.{
  Fds, Manager, count, fd_set, fd_clr, Event, connect, ask, lost, answer, leave, wake, hang_up,
  interrupt, watch, step,
}
use lso_project.Server.Manager.Sets.{count-fd_set, count-fd_clr_self, count-fd_clr_other}

abbrev pub is_fixed : Fds → ℕ → Bool
is_fixed f x =
    x == f.fd_server || x == f.pipe_fd || x == f.pipe_sighup || x == f.pipe_sigint_sigquit

-- The descriptors of a set that are those of clients.
abbrev pub clients : Fds → List ℕ → List ℕ
clients f [] = []
clients f (x ∷ s) = let rest = clients f s in if is_fixed f x then rest else x ∷ rest

-- A descriptor stands in one place at most; the four of the server are watched; `fd_max` is the largest
-- one that is watched; and `nclient` counts the clients that are watched, wait for a worker, or were
-- answered.
pub record Tracks (f : Fds) (m : Manager) : Type 0 where
  pub once : (x : ℕ) → count x m.set + (count x m.queue + count x m.pipe) ≤ 1
  pub fixed : (x : ℕ) → is_fixed f x ≡ true → 0 < count x m.set
  pub top : 0 < count m.fd_max m.set
  pub above : (x : ℕ) → m.fd_max < x → count x m.set ≡ 0
  pub counted : length (clients f m.set) + (length m.queue + length m.pipe) ≡ m.nclient

-- When an event can happen: the system gives a new connection a descriptor that is not in use.
abbrev pub Enabled : Fds → Event → Manager → Type 0
Enabled f (connect fd) m = (count fd m.set ≡ 0) × (count fd m.queue ≡ 0) × (count fd m.pipe ≡ 0)
Enabled f (ask fd) m = (0 < count fd m.set) × (is_fixed f fd ≡ false)
Enabled f (lost fd) m = (0 < count fd m.set) × (is_fixed f fd ≡ false)
Enabled f answer m = 0 < length m.queue
Enabled f leave m = 0 < length m.queue
Enabled f wake m = 0 < length m.pipe
Enabled f hang_up m = Unit
Enabled f interrupt m = Unit

pub clients-fd_clr :
    (f : Fds) (fd : ℕ) (s : List ℕ)
    → is_fixed f fd ≡ false
    → length (clients f (fd_clr fd s)) + count fd s ≡ length (clients f s)
clients-fd_clr f fd [] h = omega arith
clients-fd_clr f fd (x ∷ s) h = elim (Bool-cases (fd == x)) [
  | inl same ↦
      let e : fd ≡ x = (==_iff fd x).0 same in
      let other : is_fixed f x ≡ false = ap (is_fixed f) (sym e) ∙ h in
      rw (same, other) (omega (arith, clients-fd_clr f fd s h))
  | inr differ ↦ rw differ (elim (Bool-cases (is_fixed f x)) [
    | inl is ↦ rw is (omega (arith, clients-fd_clr f fd s h))
    | inr other ↦ rw other (omega (arith, clients-fd_clr f fd s h))
  ])
]

clients-fd_set :
    (f : Fds) (fd : ℕ) (s : List ℕ)
    → is_fixed f fd ≡ false
    → count fd s ≡ 0
    → length (clients f (fd_set fd s)) ≡ suc (length (clients f s))
clients-fd_set f fd s h z = rw z (rw h refl)

pub count-fd_clr :
    (x fd : ℕ) (s : List ℕ) → count x (fd_clr fd s) ≡ (if x == fd then 0 else count x s)
count-fd_clr x fd s = elim (Bool-cases (x == fd)) [
  | inl same ↦
      let e : x ≡ fd = (==_iff x fd).0 same in
      rw same (ap (λ x. count x (fd_clr fd s)) e ∙ count-fd_clr_self fd s)
  | inr differ ↦
      rw differ (
        count-fd_clr_other x fd s
          (λ e. let t : (x == fd) ≡ true = (==_iff x fd).1 e in ne t differ))
]
  where
    ne : {b : Bool} → b ≡ true → b ≡ false → ⊥
    ne p q = ground (arith, p, q)

-- A client that stands nowhere in the set is watched.
pub watched-Tracks :
    (f : Fds) (fd k : ℕ) (m : Manager)
    → count fd m.set ≡ 0
    → ((x : ℕ)
        → (if x == fd then 1 else 0) + count x m.set + (count x m.queue + count x m.pipe) ≤ 1)
    → ((x : ℕ) → is_fixed f x ≡ true → 0 < count x m.set)
    → 0 < count m.fd_max m.set
    → ((x : ℕ) → m.fd_max < x → count x m.set ≡ 0)
    → suc (length (clients f m.set)) + (length m.queue + length m.pipe) ≡ k
    → Tracks f (record (watch fd m) { nclient = k })
watched-Tracks f fd k m z once fixed top above counted =
    let c = λ (x : ℕ). count-fd_set x fd m.set z in
    let client = not_fixed (Bool-cases (is_fixed f fd)) in
    record {
      once = λ x. omega (arith, c x, once x);
      fixed = λ x h. omega (arith, c x, fixed x h);
      top = ground (arith, c fd, c m.fd_max);
      above = λ x h. ground (arith, c x, above x, h);
      counted = omega (arith, clients-fd_set f fd m.set client z, counted);
    }
  where
    not_fixed : (is_fixed f fd ≡ true) ⊎ (is_fixed f fd ≡ false) → is_fixed f fd ≡ false
    not_fixed (inr no_one) = no_one
    not_fixed (inl is) = absurd (omega (arith, z, fixed fd is))

-- The invariant after each event.
abbrev pub Keeps : Fds → Event → Manager → Type 0
Keeps f e m = (m' : Manager) × (step e m ≡ some m') × Tracks f m'

-- The events that end the process: a connection after SIGHUP, and a client that ends without
-- `closeConnection`.
abbrev pub is_fatal : Event → Manager → Bool
is_fatal (connect fd) m = m.sighup
is_fatal (lost fd) m = true
is_fatal (ask fd) m = false
is_fatal answer m = false
is_fatal leave m = false
is_fatal wake m = false
is_fatal hang_up m = false
is_fatal interrupt m = false

-- What comes of an event.
abbrev pub Handled : Bool → Fds → Event → Manager → Type 0
Handled true f e m = step e m ≡ none
Handled false f e m = Keeps f e m

pub connect-Tracks :
    (f : Fds) (fd : ℕ) (m : Manager)
    → m.sighup ≡ false
    → Tracks f m
    → Enabled f (connect fd) m
    → Keeps f (connect fd) m
unfolding step
connect-Tracks f fd m quiet s (z, q, p) = (
  record (watch fd m) { nclient = m.nclient + 1 },
  rw quiet refl,
  watched-Tracks f fd (m.nclient + 1) m z (λ x. free x (Bool-cases (x == fd))) s.fixed s.top s.above
      (omega (arith, s.counted)),
)
  where
    free :
        (x : ℕ)
        → ((x == fd) ≡ true) ⊎ ((x == fd) ≡ false)
        → (if x == fd then 1 else 0) + count x m.set + (count x m.queue + count x m.pipe) ≤ 1
    free x (inr differ) = rw differ (omega (arith, s.once x))
    free x (inl same) =
        let e : x ≡ fd = (==_iff x fd).0 same in
        rw same (
          subst (λ y. 1 + count y m.set + (count y m.queue + count y m.pipe) ≤ 1) (sym e)
            (omega (arith, z, q, p)))
