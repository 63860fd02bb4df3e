-- ===== src/Server/Manager.antt =====
-- The life cycle of the server, main of server.c: the manager watches the connections with `select`, hands requests to
-- the queue and watches a client again when a worker has answered it. A set of descriptors is a list;
-- the requests in the queue and the answered clients in the pipe are the descriptors of their clients,
-- the oldest first.
pub mod Sets
pub mod Tracks
pub mod Kept
pub mod Runs
use lso_project.Prelude.{
  ℕ, zero, suc, ◌+◌, ◌-◌, Bool, true, false, not, ◌&&◌, ◌||◌, Option, none, some, List, [], ◌∷◌,
  ◌++◌, ◌>>=◌, ltb, ◌==◌, if◌then◌else◌,
}

-- The listening socket, and the reading ends of the three pipes.
pub record Fds : Type 0 where
  pub fd_server : ℕ
  pub pipe_fd : ℕ
  pub pipe_sighup : ℕ
  pub pipe_sigint_sigquit : ℕ

pub record Manager : Type 0 where
  pub set : List ℕ
  pub fd_max : ℕ
  pub nclient : ℕ
  pub sighup : Bool
  pub sigint_sigquit : Bool
  pub queue : List ℕ
  pub pipe : List ℕ

abbrev pub count : ℕ → List ℕ → ℕ
count x [] = 0
count x (y ∷ ys) = (if x == y then 1 else 0) + count x ys

-- `FD_ISSET`, `FD_SET` and `FD_CLR`.
abbrev pub fd_isset : ℕ → List ℕ → Bool
fd_isset fd s = ltb 0 (count fd s)

abbrev pub fd_set : ℕ → List ℕ → List ℕ
fd_set fd s = if fd_isset fd s then s else fd ∷ s

abbrev pub fd_clr : ℕ → List ℕ → List ℕ
fd_clr fd [] = []
fd_clr fd (x ∷ xs) = let rest = fd_clr fd xs in if fd == x then rest else x ∷ rest

-- The largest descriptor below `fdmax`; where there is none the assertion fails.
unfoldable pub updatemax : List ℕ → ℕ → Option ℕ
updatemax set zero = none
updatemax set (suc i) = let rest = updatemax set i in if fd_isset i set then some i else rest

abbrev pub larger : ℕ → ℕ → ℕ
larger fd fd_max = if ltb fd_max fd then fd else fd_max

-- Before the loop.
abbrev pub initial : Fds → Manager
initial f = record {
  set =
      fd_set f.pipe_sigint_sigquit
        (fd_set f.pipe_sighup (fd_set f.pipe_fd (fd_set f.fd_server [])));
  fd_max =
      larger f.pipe_sigint_sigquit (larger f.pipe_sighup (larger f.pipe_fd (larger f.fd_server 0)));
  nclient = 0;
  sighup = false;
  sigint_sigquit = false;
  queue = [];
  pipe = [];
}

-- What happens: a new connection waits at the listening socket; a request of a client is
-- ready; a client ends without `closeConnection`, so that its descriptor is ready with no bytes; a worker takes the oldest request and answers it, or it is the end of the connection; a
-- client that was answered comes out of the pipe; a signal.
pub data Event : Type 0 where
  connect : ℕ → Event
  ask : ℕ → Event
  lost : ℕ → Event
  answer : Event
  leave : Event
  wake : Event
  hang_up : Event
  interrupt : Event

abbrev pub new_max : ℕ → Manager → List ℕ → Option ℕ
new_max fd m set = if fd == m.fd_max then updatemax set m.fd_max else some m.fd_max

abbrev pub watch : ℕ → Manager → Manager
watch fd m = record m { set = fd_set fd m.set; fd_max = larger fd m.fd_max }

abbrev pub answer_to : List ℕ → Manager → Option Manager
answer_to [] m = none
answer_to (fd ∷ fds) m = some (record m { queue = fds; pipe = m.pipe ++ fd ∷ [] })

abbrev pub leave_from : List ℕ → Manager → Option Manager
leave_from [] m = none
leave_from (fd ∷ fds) m = some (record m { queue = fds; nclient = m.nclient - 1 })

abbrev pub wake_from : List ℕ → Manager → Option Manager
wake_from [] m = none
wake_from (fd ∷ fds) m = some (watch fd (record m { pipe = fds }))

-- One event in the loop; `none` where the process ends at once. After SIGHUP a new connection falls through to
-- the branch of a request: `readn` of the listening socket fails, and `recievedMsg` exits. The message
-- of a client that has ended is empty: it has no token, and `strtol` of the null pointer crashes.
unfoldable pub step : Event → Manager → Option Manager
unfolding updatemax
step (connect fd) m =
    if m.sighup then none else some (record (watch fd m) { nclient = m.nclient + 1 })
step (lost fd) m = none
step (ask fd) m = do
  let set = fd_clr fd m.set
  top ← new_max fd m set
  some (record m { set = set; fd_max = top; queue = m.queue ++ fd ∷ [] })
step answer m = answer_to m.queue m
step leave m = leave_from m.queue m
step wake m = wake_from m.pipe m
step hang_up m = some (record m { sighup = true })
step interrupt m = some (record m { sigint_sigquit = true })

-- The server stops.
abbrev pub stops : Manager → Bool
stops m = m.sigint_sigquit || m.sighup && (m.nclient == 0)
