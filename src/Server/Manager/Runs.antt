-- ===== src/Server/Manager/Runs.antt =====
-- The server from its start to its end.
use lso_project.Prelude.{ℕ, ◌≡◌, true, false, some, List, [], ◌∷◌, ◌==◌}
use lso_project.Server.Manager.{Fds, Manager, Event, step}
use lso_project.Server.Manager.Tracks.{clients, Tracks, Enabled}

-- The four descriptors of the server differ.
abbrev pub Distinct : Fds → Type 0
Distinct f =
    ((f.pipe_fd == f.fd_server) ≡ false)
    × ((f.pipe_sighup == f.fd_server) ≡ false)
    × ((f.pipe_sighup == f.pipe_fd) ≡ false)
    × ((f.pipe_sigint_sigquit == f.fd_server) ≡ false)
    × ((f.pipe_sigint_sigquit == f.pipe_fd) ≡ false)
    × ((f.pipe_sigint_sigquit == f.pipe_sighup) ≡ false)

-- What the server can come to.
pub data Reach (f : Fds) (m : Manager) : Manager → Type 0 where
  here : Reach f m m
  next :
      {t u : Manager} → Reach f m t → (e : Event) → Enabled f e t → step e t ≡ some u → Reach f m u

four : Fds → List ℕ
four f = f.pipe_sigint_sigquit ∷ f.pipe_sighup ∷ f.pipe_fd ∷ f.fd_server ∷ []

abbrev one : Fds → List ℕ
one f = f.fd_server ∷ []

abbrev two : Fds → List ℕ
two f = f.pipe_fd ∷ one f

abbrev three : Fds → List ℕ
three f = f.pipe_sighup ∷ two f

-- SIGHUP was caught and no client is left: none is watched, no request waits in the queue, and no answered
-- client in the pipe.
abbrev pub Emptied : Fds → Manager → Type 0
Emptied f m = (m.sighup ≡ true) × (clients f m.set ≡ []) × (m.queue ≡ []) × (m.pipe ≡ [])
