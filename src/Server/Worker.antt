-- ===== src/Server/Worker.antt =====
-- What a worker thread does with a request, threadF of includes/util_server.c: one handler for each operation. A
-- wait of up to `TIMER` rounds tests again what no other thread changes, since one request is handled
-- after the other; so it is one test here.
pub mod Held
pub mod Visit
pub mod Trip
pub mod Several
use lso_project.Prelude.{
  ℕ, zero, suc, ◌+◌, ◌-◌, Bool, true, false, not, ◌&&◌, ◌||◌, Option, none, some, List, [], ◌∷◌,
  ◌++◌, ◌>>=◌, ltb, ◌==◌, if◌then◌else◌, length, Text, codes,
}
use lso_project.Prelude.Decimal.{show_number}
use lso_project.Storage.{
  File, Node, Storage, update, store, create_file_node, is_closed, search_file_node,
  insert_create_file,
}
use lso_project.Storage.Memory.{is_fd, update_file}
use lso_project.Server.Cstring.{begins, strtok_r, strtol, Long}
use lso_project.Server.Wire.{send, send_msg_file_content}
use lso_project.Server.Request.{Request, is_api, read_request}

-- The storage, the connected clients, and `statistics_t`.
pub record Server : Type 0 where
  pub storage : Storage
  pub nclient : ℕ
  pub max_nfile : ℕ
  pub max_mem_used : ℕ
  pub cnt_file_removed : ℕ

-- What goes to the client, and the server behind it.
abbrev pub Result : Type 0
Result = Option (Text × Server)

unfoldable pub ok : Text
unfolding send
ok = send (codes "0")

unfoldable pub ko : Text
unfolding send
ko = send (codes "-1")

-- `buf_rm_path`, and the answer with it and the two bytes of zero that are counted for its end.
abbrev pub removed_text : List Text → Text
removed_text [] = []
removed_text (path ∷ paths) = (b',' ∷ path) ++ removed_text paths

unfoldable pub ok_removed : List Text → Text
unfolding send
ok_removed paths = send (b'0' ∷ (removed_text paths ++ 0 ∷ 0 ∷ []))

-- The server after an operation of the storage, and the files that it removed counted.
abbrev pub after : Storage → Server → Server
after s v = record v { storage = s; cnt_file_removed = v.cnt_file_removed + length s.rm_path }

abbrev pub put : Storage → Server → Server
put s v = record v { storage = s }

-- A storage with an empty buffer for removed paths.
abbrev pub emptied : Storage → Storage
emptied s = record s { rm_path = [] }

abbrev pub close_connection : Text → Request → Server → Result
close_connection sockname r v = do
  t ← strtok_r b',' r.sms_info
  some (if begins sockname t.0 then ok else ko, record v { nclient = v.nclient - 1 })

abbrev pub answered : Server → Bool × Storage → Text × Server
answered v (true, s) = (ok_removed s.rm_path, after s v)
answered v (false, s) = (ko, after s v)

-- The node that `malloc` puts at the address a.
abbrev pub create : ℕ → Text → Request → Server → Result
create a path r v = do
  let s = emptied v.storage
  u ← insert_create_file a (store a (create_file_node path r.fd_client_id) s)
  some (answered v u)

abbrev pub set_fd : ℕ → Node → Option ℕ → Storage → Storage
set_fd b n fd s = store b (record n { file = record n.file { fd_client_id = fd } }) s

abbrev pub open_node : ℕ → Request → Server → Result
open_node b r v = do
  n ← v.storage.heap b
  if is_closed n.file.fd_client_id
      then some (ok, put (set_fd b n (some r.fd_client_id) v.storage) v)
      else some (ko, v)

abbrev pub open_found : ℕ → Text → Bool → Bool → Option ℕ → Request → Server → Result
open_found a path one nought (some b) r v = if one then some (ko, v) else open_node b r v
open_found a path one nought none r v = if nought then some (ko, v) else create a path r v

unfoldable pub open_file : ℕ → Request → Server → Result
unfolding ok ko
open_file a r v = do
  t ← strtok_r b',' r.sms_info
  found ← search_file_node t.0 v.storage
  flag ← strtok_r b',' t.1
  open_found a t.0 (begins (codes "1") flag.0) (begins (codes "0") flag.0) found r v

-- The node of a path, if the client of the request has it open.
abbrev pub held : Request → Node → (Text × Server) → Result → Result
held r n refusal x = if is_fd r.fd_client_id n.file.fd_client_id then x else some refusal

abbrev pub file_answer : File → Text
file_answer x = send_msg_file_content (codes "1,") x.pathname (show_number x.file_sz) x.content_file

abbrev pub read_found : Option ℕ → Request → Server → Result
read_found none r v = some (ko, v)
read_found (some b) r v = do n ← v.storage.heap b; held r n (ko, v) (some (file_answer n.file, v))

unfoldable pub read_file : Request → Server → Result
unfolding ok ko
read_file r v = do
  t ← strtok_r b',' r.sms_info
  found ← search_file_node t.0 v.storage
  read_found found r v

-- The loop over the nodes from `current` on, with the files that are still to be read: what is sent,
-- how many are left, and the storage. The fuel bounds the nodes.
abbrev pub and_then : Text → Option (Text × ℕ × Storage) → Option (Text × ℕ × Storage)
and_then t none = none
and_then t (some (u, n, s)) = some (t ++ u, n, s)

abbrev pub read_loop : ℕ → ℕ → Option ℕ → Storage → Option (Text × ℕ × Storage)
read_loop fuel zero current s = some ([], 0, s)
read_loop fuel (suc n) none s = some ([], suc n, s)
read_loop zero (suc n) (some b) s = none
read_loop (suc fuel) (suc n) (some b) s = do
  x ← s.heap b
  elim x.file.modified [
    | false ↦ read_loop fuel (suc n) x.son s
    | true ↦ and_then (file_answer x.file) (read_loop fuel n x.son (set_fd b x none s))
  ]

-- How many files are asked for: 0 stands for the number of files that there is room for.
abbrev pub wanted : Long → Storage → ℕ
wanted n s = if n.minus then 0 else if n.size == 0 then s.nfile_dispo else n.size

unfoldable pub read_n_files : Request → Server → Result
unfolding ok ko strtol
read_n_files r v = do
  let n = wanted (strtol r.sms_info).0 v.storage
  e ← read_loop v.storage.nfile_tot n v.storage.head v.storage
  some (e.0 ++ (if e.1 == n then ko else ok), put e.2 v)

abbrev pub max : ℕ → ℕ → ℕ
max a b = if ltb a b then b else a

abbrev pub measured : Server → Server
measured v =
    let s = v.storage in
    record v {
      max_mem_used = max v.max_mem_used (s.ram_tot - s.ram_dispo);
      max_nfile = max v.max_nfile (s.nfile_tot - s.nfile_dispo);
    }

abbrev pub append_found : Option ℕ → Request → Server → Result
append_found none r v = some (ko, v)
append_found (some b) r v = do
  n ← v.storage.heap b
  held r n (ko, v)
      (do u ← update_file b r.fd_client_id r.sms_content (emptied v.storage); some (answered v u))

unfoldable pub append_to_file : Request → Server → Result
unfolding ok ko ok_removed
append_to_file r v = do
  t ← strtok_r b',' r.sms_info
  found ← search_file_node t.0 v.storage
  e ← append_found found r v
  some (e.0, measured e.1)

abbrev pub close_found : Option ℕ → Request → Server → Result
close_found none r v = some (ko, v)
close_found (some b) r v = do
  n ← v.storage.heap b
  held r n (ko, v) (some (ok, put (set_fd b n none v.storage) v))

unfoldable pub close_file : Request → Server → Result
unfolding ok ko
close_file r v = do found ← search_file_node r.sms_info v.storage; close_found found r v

-- The handler by `api_id`; any other number is answered with nothing.
unfoldable pub handle : Text → ℕ → Request → Server → Result
unfolding open_file read_file read_n_files append_to_file close_file strtok_r
handle sockname a r v =
    if is_api 1 r.api_id
    then close_connection sockname r v
    else if is_api 2 r.api_id
    then open_file a r v
    else if is_api 3 r.api_id
    then read_file r v
    else if is_api 4 r.api_id
    then read_n_files r v
    else if is_api 5 r.api_id
    then append_to_file r v
    else if is_api 6 r.api_id
    then close_file r v
    else some ([], v)

-- A request that stands in the pipe of the client `fd`, read by the server and handled.
unfoldable pub serve : Text → ℕ → Bool → ℕ → Text → Server → Result
unfolding read_request handle
serve sockname a closed fd p v = do q ← read_request closed fd p; handle sockname a q.0 v
