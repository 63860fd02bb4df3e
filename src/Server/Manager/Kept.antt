-- ===== src/Server/Manager/Kept.antt =====
-- The invariant of the manager after each event.
use lso_project.Prelude.{
  ℕ, ◌+◌, ◌-◌, ◌≤◌, ◌<◌, ◌≡◌, refl, sym, ap, ◌⊎◌, inl, inr, Bool, true, false, some, List, [], ◌∷◌,
  ◌++◌, ◌>>=◌, arith, ltb, ◌==◌, length, length-append, Bool-cases, ==_iff, ltb→lt,
}
use mathlib.Core.Path.{subst}
use lso_project.Server.Manager.{
  Fds, Manager, count, fd_clr, Event, connect, ask, lost, answer, leave, wake, hang_up, interrupt,
  new_max, watch, answer_to, leave_from, wake_from, step,
}
use lso_project.Server.Manager.Sets.{count-append, updatemax-largest}
use lso_project.Server.Manager.Tracks.{
  is_fixed, Tracks, Enabled, clients-fd_clr, count-fd_clr, watched-Tracks, Keeps, connect-Tracks,
  is_fatal, Handled,
}

-- A client is not the listening socket, which lies below the largest descriptor if that is the client's.
server_other : (f : Fds) (fd : ℕ) → is_fixed f fd ≡ false → (f.fd_server == fd) ≡ false
server_other f fd client = ground (arith, client)

server_below :
    (f : Fds) (fd : ℕ) (m : Manager)
    → Tracks f m
    → fd ≡ m.fd_max
    → is_fixed f fd ≡ false
    → f.fd_server < m.fd_max
server_below f fd m s e client =
    let own : is_fixed f f.fd_server ≡ true = ground arith in
    let w : 0 < count f.fd_server m.set = s.fixed f.fd_server own in
    let other : (f.fd_server == fd) ≡ false = server_other f fd client in
    elim (Bool-cases (ltb m.fd_max f.fd_server)) [
      | inl big ↦ absurd (omega (arith, s.above f.fd_server (ltb→lt m.fd_max f.fd_server big), w))
      | inr small ↦ ground (arith, other, small, e)
    ]

cleared_above :
    (fd top x : ℕ) (m : Manager)
    → fd ≡ m.fd_max
    → ((y : ℕ) → m.fd_max < y → count y m.set ≡ 0)
    → (x < m.fd_max → count x (fd_clr fd m.set) ≡ 0)
    → count x (fd_clr fd m.set) ≡ 0
cleared_above fd top x m e above below = elim (Bool-cases (ltb x m.fd_max)) [
  | inl small ↦ below (ltb→lt x m.fd_max small)
  | inr big ↦ ground (arith, count-fd_clr x fd m.set, above x, big, e)
]

-- The largest one when a client is cleared.
cleared-max :
    (f : Fds) (fd : ℕ) (m : Manager)
    → Tracks f m
    → 0 < count fd m.set
    → is_fixed f fd ≡ false
    → (top : ℕ) × (new_max fd m (fd_clr fd m.set) ≡ some top)
      × (0 < count top (fd_clr fd m.set))
      × ((x : ℕ) → top < x → count x (fd_clr fd m.set) ≡ 0)
cleared-max f fd m s is client = elim (Bool-cases (fd == m.fd_max)) [
  | inr differ ↦
      let e : (m.fd_max == fd) ≡ false = ground arith in
      (
        m.fd_max,
        rw differ refl,
        rw (count-fd_clr m.fd_max fd m.set, e) s.top,
        λ x h. ground (arith, count-fd_clr x fd m.set, s.above x),
      )
  | inl same ↦
      let e : fd ≡ m.fd_max = (==_iff fd m.fd_max).0 same in
      let own : is_fixed f f.fd_server ≡ true = ground arith in
      let other : (f.fd_server == fd) ≡ false = server_other f fd client in
      let left : 0 < count f.fd_server (fd_clr fd m.set) =
        rw (count-fd_clr f.fd_server fd m.set, other) (s.fixed f.fd_server own) in
      let (top, p, l, w, a) =
        updatemax-largest (fd_clr fd m.set) f.fd_server m.fd_max left
          (server_below f fd m s e client) in
      (top, rw same p, w, λ x h. cleared_above fd top x m e s.above (a x h))
]

ask-Tracks :
    (f : Fds) (fd : ℕ) (m : Manager) → Tracks f m → Enabled f (ask fd) m → Keeps f (ask fd) m
unfolding step
ask-Tracks f fd m s (is, client) =
    let (top, e, w, a) = cleared-max f fd m s is client in
    let set : List ℕ = fd_clr fd m.set in
    (
      record m { set = set; fd_max = top; queue = m.queue ++ fd ∷ [] },
      ap (λ o. o >>= λ top. some (record m { set = set; fd_max = top; queue = m.queue ++ fd ∷ [] }))
          e,
      record {
        once = λ x. moved x (Bool-cases (x == fd));
        fixed = λ x h. ground (arith, count-fd_clr x fd m.set, s.fixed x h, h, client);
        top = w;
        above = a;
        counted = omega (
          arith,
          s.counted,
          clients-fd_clr f fd m.set client,
          length-append m.queue (fd ∷ []),
          is,
          s.once fd,
        );
      },
    )
  where
    moved :
        (x : ℕ)
        → ((x == fd) ≡ true) ⊎ ((x == fd) ≡ false)
        → count x (fd_clr fd m.set) + (count x (m.queue ++ fd ∷ []) + count x m.pipe) ≤ 1
    moved x (inr differ) =
        rw (count-fd_clr x fd m.set, count-append x m.queue (fd ∷ []), differ)
          (omega (arith, s.once x))
    moved x (inl same) =
        let e : x ≡ fd = (==_iff x fd).0 same in
        rw (count-fd_clr x fd m.set, count-append x m.queue (fd ∷ []), same)
          (subst (λ y. 0 + (count y m.queue + 1 + count y m.pipe) ≤ 1) (sym e)
            (omega (arith, s.once fd, is)))

module _ (f : Fds) (m : Manager) (s : Tracks f m) where
  answer-Tracks : (q : List ℕ) → m.queue ≡ q → 0 < length q → Keeps f answer m
  unfolding step
  answer-Tracks [] e h = absurd (omega arith)
  answer-Tracks (fd ∷ q) e h = (
    record m { queue = q; pipe = m.pipe ++ fd ∷ [] },
    ap (λ q. answer_to q m) e,
    record {
      once = λ x. omega (arith, s.once x, ap (count x) e, count-append x m.pipe (fd ∷ []));
      fixed = s.fixed;
      top = s.top;
      above = s.above;
      counted = omega (arith, s.counted, ap length e, length-append m.pipe (fd ∷ []));
    },
  )

  leave-Tracks : (q : List ℕ) → m.queue ≡ q → 0 < length q → Keeps f leave m
  unfolding step
  leave-Tracks [] e h = absurd (omega arith)
  leave-Tracks (fd ∷ q) e h = (
    record m { queue = q; nclient = m.nclient - 1 },
    ap (λ q. leave_from q m) e,
    record {
      once = λ x. omega (arith, s.once x, ap (count x) e);
      fixed = s.fixed;
      top = s.top;
      above = s.above;
      counted = omega (arith, s.counted, ap length e);
    },
  )

  wake-Tracks : (q : List ℕ) → m.pipe ≡ q → 0 < length q → Keeps f wake m
  unfolding step
  wake-Tracks [] e h = absurd (omega arith)
  wake-Tracks (fd ∷ q) e h =
      let self : (fd == fd) ≡ true = ground arith in
      let here : count fd (fd ∷ q) ≡ 1 + count fd q = rw self refl in
      (
        watch fd (record m { pipe = q }),
        ap (λ q. wake_from q m) e,
        watched-Tracks f fd m.nclient (record m { pipe = q })
            (omega (arith, s.once fd, ap (count fd) e, here))
            (λ x. omega (arith, s.once x, ap (count x) e)) s.fixed s.top s.above
            (omega (arith, s.counted, ap length e)),
      )

-- Each event that can happen is handled without a failed assertion, and the invariant holds again,
-- unless it ends the process.
pub step-Tracks :
    (f : Fds) (e : Event) (m : Manager) → Tracks f m → Enabled f e m → Handled (is_fatal e m) f e m
unfolding step
step-Tracks f (connect fd) m s h = by_signal m.sighup refl
  where
    by_signal : (b : Bool) → m.sighup ≡ b → Handled b f (connect fd) m
    by_signal true e = rw e refl
    by_signal false e = connect-Tracks f fd m e s h
step-Tracks f (ask fd) m s h = ask-Tracks f fd m s h
step-Tracks f (lost fd) m s h = refl
step-Tracks f answer m s h = answer-Tracks f m s m.queue refl h
step-Tracks f leave m s h = leave-Tracks f m s m.queue refl h
step-Tracks f wake m s h = wake-Tracks f m s m.pipe refl h
step-Tracks f hang_up m s h = (
  record m { sighup = true },
  refl,
  record { once = s.once; fixed = s.fixed; top = s.top; above = s.above; counted = s.counted },
)
step-Tracks f interrupt m s h = (
  record m { sigint_sigquit = true },
  refl,
  record { once = s.once; fixed = s.fixed; top = s.top; above = s.above; counted = s.counted },
)
