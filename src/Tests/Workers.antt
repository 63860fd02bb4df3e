-- ===== src/Tests/Workers.antt =====
-- Server/Worker.antt and Server/Client.antt at the storage of two files in Storages.
use lso_project.Prelude.{
  ◌-◌, ◌≡◌, refl, inr, true, false, not, some, List, [], ◌∷◌, ◌++◌, arith, ◌==◌, length, Text,
  codes, strip_prefix,
}
use lso_project.Prelude.Int.{pos}
use lso_project.Prelude.Decimal.{show_number, digits_of}
use lso_project.Storage.{Storage, begins}
use lso_project.Storage.Chain.{Entry, Stored}
use lso_project.Tests.Storages.{file, mine, busy, busy-Stored}
use lso_project.Server.Cstring.{strtol}
use lso_project.Server.Request.{open_file, append_to_file, read_file, close_file}
use lso_project.Server.Request.Agreed.{request}
use lso_project.Server.Worker.{Server, ok, ko, ok_removed, measured, put, serve, answered}
use lso_project.Server.Worker as Worker
use lso_project.Server.Worker.Held.{refused, Opens, open_file-Opens}
use lso_project.Server.Worker.Trip.{left_file}
use lso_project.Server.Client.Session.{remote, read_whole, visit-returned}
use lso_project.Server.Worker.Several.{closed, filled_files}
use lso_project.Server.Client as Client
use lso_project.Server.Client.Answers.{Sends, chosen, read_n_files-received}
use lso_project.Server.Client.Returns.{answered-returned}
use lso_project.Tests.Servers.{avoids, without}

abbrev server : Server
server = record {
  storage = busy;
  nclient = 2;
  max_nfile = 2;
  max_mem_used = 4;
  cnt_file_removed = 0;
}

abbrev files : List Entry
files = (0, mine) ∷ (1, file (codes "/a")) ∷ []

-- The client 8 asks for a file that the client 7 has open.
refused_example :
    (Worker.read_file (request 5 (codes "/d") (codes "x") 8) server ≡ some (ko, server))
    × (Worker.append_to_file (request 5 (codes "/d") (codes "x") 8) server
        ≡ some (ko, measured server))
    × (Worker.close_file (request 5 (codes "/d") (codes "x") 8) server ≡ some (ko, server))
unfolding begins strip_prefix
refused_example =
    refused b'/' (codes "d") files (request 5 (codes "/d") (codes "x") 8) server refl
      (refl, (refl, tt)) busy-Stored
      (inr ([], 0, mine, (1, file (codes "/a")) ∷ [], refl, (tt, refl), refl))

open_file-Opens_example :
    Opens false 9
      ((0, mine) ∷ [])
      1
      (file (codes "/a"))
      []
      server
      (Worker.open_file 5 (request 2 (codes "/a,0") [] 9) server)
unfolding begins strip_prefix
open_file-Opens_example =
    open_file-Opens 5 1 b'/' 9 (codes "a") false ((0, mine) ∷ []) [] (file (codes "/a"))
      (request 2 (codes "/a,0") [] 9) server refl refl (refl, (refl, tt)) busy-Stored
      ((refl, tt), refl)

visit-returned_example :
    (v1 : Server) × (v2 : Server) × (v3 : Server) × (remote
        (codes "./cs_sock")
        5
        9
        (Client.open_file false)
        (open_file (codes "/n") true)
        server
      ≡ some (pos 0, v1))
    × (remote
          (codes "./cs_sock")
          5
          9
          (Client.append_to_file false)
          (append_to_file (codes "/n") (codes "ok"))
          v1
        ≡ some (true, v2))
    × (remote (codes "./cs_sock") 5 9 read_whole (read_file (codes "/n")) v2
        ≡ some ((true, some (codes "ok")), v2))
    × (remote (codes "./cs_sock") 5 9 (Client.close_file false) (close_file (codes "/n")) v2
        ≡ some (true, v3))
    × Stored ((5, left_file (codes "/n") (codes "ok")) ∷ files) v3.storage
unfolding begins strip_prefix show_number digits_of avoids
visit-returned_example =
    visit-returned (codes "./cs_sock") 5 b'/' 9 (codes "n") (codes "ok") files server
      (record {
        no_comma = (refl, (refl, tt));
        sendable = (omega arith, without 0 (codes "1,/n,2") refl);
        small = omega arith;
      })
      busy-Stored refl ((λ e. absurd (omega arith)), ((λ e. absurd (omega arith)), tt))
      (omega arith) (omega arith)

mine-Sends : Sends mine
unfolding show_number digits_of avoids
mine-Sends = record {
  named = λ e. cc;
  no_comma = without b',' mine.pathname refl;
  sendable = (
    omega arith,
    without 0 (b'1' ∷ b',' ∷ (mine.pathname ++ b',' ∷ show_number (length mine.content_file))) refl,
  );
  small = omega arith;
  sized = refl;
}

other-Sends : Sends (file (codes "/a"))
unfolding show_number digits_of avoids
other-Sends = record {
  named = λ e. cc;
  no_comma = without b',' (codes "/a") refl;
  sendable = (omega arith, without 0 (codes "1,/a,2") refl);
  small = omega arith;
  sized = refl;
}

-- One of the two files is read, the newest one with a content.
read_n_files-received_example :
    (answer : Text) × (s : Storage) × (Worker.read_n_files (request 4 (codes "1") [] 9) server
      ≡ some (answer, Worker.put s server))
    × (Client.read_n_files 3 false (answer ++ codes "rest")
        ≡ some (chosen 1 files, not ((1 - filled_files files) == 1), codes "rest"))
    × Stored (closed 1 files) s
unfolding strtol
read_n_files-received_example =
    read_n_files-received (request 4 (codes "1") [] 9) files server 1 (codes "rest") busy-Stored
      (mine-Sends, (other-Sends, tt)) refl

-- An append that removed two files.
abbrev removed : Storage
removed = record busy { rm_path = codes "/b" ∷ codes "/c" ∷ [] }

answered-returned_example :
    (Client.open_file false ((answered server (true, removed)).0 ++ codes "rest")
      ≡ some (pos 0, codes "rest"))
    × (Client.append_to_file false ((answered server (true, removed)).0 ++ codes "rest")
        ≡ some (true, codes "rest"))
unfolding avoids
answered-returned_example =
    answered-returned false server true removed (codes "rest")
      (omega arith, without 0 (codes ",/b,/c") refl)
