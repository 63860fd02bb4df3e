-- ===== src/Tests/Servers.antt =====
-- Conn.antt, Request.antt, Queue.antt, Manager.antt and Config.antt of the server at small inputs.
use lso_project.Prelude.{
  ℕ, ◌≡◌, refl, Bool, true, false, not, ◌&&◌, Avoids, none, some, List, [], ◌∷◌, ◌++◌, arith, ◌==◌,
  Text, codes,
}
use lso_project.Prelude.Int.{pos}
use lso_project.Prelude.Decimal.{show_number, digits_of}
use lso_project.Server.Conn.{moved, interrupted, done, writen, readn}
use lso_project.Server.Conn.Whole.{readn-writen}
use lso_project.Server.Cstring.{strtok_r}
use lso_project.Server.Wire.{recieved_msg}
use lso_project.Server.Request.{Request, call, append_to_file, of_message, read_request}
use lso_project.Server.Request.Agreed.{request, read_request-call}
use lso_project.Server.Queue.{Op, take, create_queue, run, Queue}
use lso_project.Server.Queue.Linked.{Queued}
use lso_project.Server.Queue.Fifo.{Agrees, run-fifo}
use lso_project.Server.Manager.{Fds, Manager, initial, connect, lost, step}
use lso_project.Server.Manager.Tracks.{Tracks}
use lso_project.Server.Config.{configuration}
use lso_project.Server.Config.File.{Lines, printed, file_of, configuration-printed}

-- A text without a character, by a test.
unfoldable pub avoids : ℕ → Text → Bool
avoids sep [] = true
avoids sep (c ∷ s) = not (c == sep) && avoids sep s

pub without : (sep : ℕ) (s : Text) → avoids sep s ≡ true → Avoids sep s
unfolding avoids
without sep [] h = tt
without sep (c ∷ s) h = ground (arith, without sep s)

readn-writen_example :
    (writen (interrupted ∷ moved 2 ∷ moved 5 ∷ moved 1 ∷ []) (codes "abc")
      ≡ some (done, codes "abc"))
    × (readn (moved 1 ∷ moved 9 ∷ interrupted ∷ moved 9 ∷ []) 3 (codes "abc" ++ codes "xy")
        ≡ some (pos 3, codes "abc", codes "xy"))
readn-writen_example =
    readn-writen (interrupted ∷ moved 2 ∷ moved 5 ∷ moved 1 ∷ [])
      (moved 1 ∷ moved 9 ∷ interrupted ∷ moved 9 ∷ []) (codes "abc") (codes "xy") (omega arith) tt
      tt

read_request-call_example :
    read_request false 7 (call (append_to_file (codes "/d") (codes "more")) ++ codes "rest")
    ≡ some (request 5 (codes "/d") (codes "more") 7, codes "rest")
unfolding show_number digits_of avoids
read_request-call_example =
    read_request-call false 7 (append_to_file (codes "/d") (codes "more")) (codes "rest") (
      (omega arith, without 0 (b'0' ∷ b',' ∷ codes "/d,4") refl),
      (λ e. cc, without b',' (codes "/d") refl, omega arith),
    )

abbrev first : Request
first = request 3 (codes "/a") [] 7

abbrev second : Request
second = request 6 (codes "/d") [] 8

abbrev ops : List Op
ops = Op.put 4 first ∷ Op.put 5 second ∷ take ∷ Op.put 4 second ∷ take ∷ []

abbrev empty : Queue
empty = create_queue (λ a. none)

empty-Queued : Queued [] empty
empty-Queued = record { chain = tt; apart = tt; at_head = refl; at_last = refl; count = refl }

run-fifo_example : Agrees ops [] (run ops empty)
run-fifo_example =
    run-fifo ops [] empty empty-Queued
      (tt, (((λ e. absurd (omega arith)), tt), (((λ e. absurd (omega arith)), tt), tt)))

abbrev fds : Fds
fds = record { fd_server = 4; pipe_fd = 5; pipe_sighup = 3; pipe_sigint_sigquit = 7 }

-- A client connects, and is cleared while its request waits.
abbrev connected : Manager
connected = record (initial fds) { set = 9 ∷ 7 ∷ 3 ∷ 5 ∷ 4 ∷ []; fd_max = 9; nclient = 1 }

abbrev asking : Manager
asking = record connected { set = 7 ∷ 3 ∷ 5 ∷ 4 ∷ []; fd_max = 7; queue = 9 ∷ [] }

abbrev left : Manager
left = record asking { queue = []; nclient = 0 }

abbrev stopped : Manager
stopped = record left { sighup = true }

-- The message of a client that has ended, and any end without `closeConnection` while it is watched.
lost_message : read_request true 9 [] ≡ none
unfolding read_request recieved_msg of_message strtok_r
lost_message = refl

lost_client : step (lost 9) connected ≡ none
unfolding step
lost_client = refl

after_hang_up : step (connect 9) (record (initial fds) { sighup = true }) ≡ none
unfolding step
after_hang_up = refl

-- The file config.txt, with shorter comments.
abbrev config : Lines
config = record {
  threads = 1;
  files = 10000;
  memory = 128000000;
  socket = codes "./cs_sock";
  log = codes "logfile.txt";
  comments = λ i. codes "# x";
}

configuration-printed_example :
    configuration (printed (file_of config))
    ≡ some (record {
      threads = pos 1;
      files = pos 10000;
      memory = pos 128000000;
      socket = codes "./cs_sock";
      log = codes "logfile.txt";
    })
unfolding show_number digits_of avoids
configuration-printed_example =
    configuration-printed config
      (
        (without b'\n' (codes "N_THREAD 1 # x") refl, omega arith),
        (
          (without b'\n' (codes "N_FILE 10000 # x") refl, omega arith),
          (
            (without b'\n' (codes "MEM_SIZE 128000000 # x") refl, omega arith),
            (
              (without b'\n' (codes "SOCKNAME ./cs_sock # x") refl, omega arith),
              ((without b'\n' (codes "LOGFILE logfile.txt # x") refl, omega arith), tt),
            ),
          ),
        ),
      )
      (omega arith)
      ((without 32 (codes "./cs_sock") refl, refl), (without 32 (codes "logfile.txt") refl, refl))
