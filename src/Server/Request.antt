-- ===== src/Server/Request.antt =====
-- The requests of the client, includes/API.c, and how the server reads them, server.c.
pub mod Agreed
use lso_project.Prelude.{
  ℕ, Bool, true, false, not, ◌&&◌, Option, none, some, [], leb, ◌==◌, if◌then◌else◌, length, Text,
  codes,
}
use lso_project.Prelude.Decimal.{show_number}
use lso_project.Server.Cstring.{strtok_r, Long, strtol}
use lso_project.Server.Conn.{is_error}
use lso_project.Server.Wire.{◌>>=◌, recieved_msg, read_content, send_msg, send_msg_file_content}

-- `sms_request`: `size_buf` is the length of `sms_content`.
pub record Request : Type 0 where
  pub api_id : Long
  pub sms_info : Text
  pub sms_content : Text
  pub fd_client_id : ℕ

-- The calls of the API that send a request. `create` is O_CREATE, and else O_OPEN.
pub data Call : Type 0 where
  close_connection : Text → Call
  open_file : Text → Bool → Call
  read_file : Text → Call
  read_n_files : ℕ → Call
  append_to_file : Text → Text → Call
  close_file : Text → Call

abbrev pub flag : Bool → Text
flag true = codes "1"
flag false = codes "0"

-- What each function of the API writes to the server.
abbrev pub closing : Text → Text
closing sockname = send_msg (codes "1,") (some sockname) none

abbrev pub opening : Text → Bool → Text
opening pathname create = send_msg (codes "2,") (some pathname) (some (flag create))

abbrev pub reading : Text → Text
reading pathname = send_msg (codes "3,") (some pathname) none

abbrev pub reading_n : ℕ → Text
reading_n n = send_msg (codes "4,") (some (show_number n)) none

abbrev pub appending : Text → Text → Text
appending pathname buf = send_msg_file_content (codes "5,") pathname (show_number (length buf)) buf

abbrev pub closing_file : Text → Text
closing_file pathname = send_msg (codes "6,") (some pathname) none

unfoldable pub call : Call → Text
unfolding send_msg_file_content
call (close_connection sockname) = closing sockname
call (open_file pathname create) = opening pathname create
call (read_file pathname) = reading pathname
call (read_n_files n) = reading_n n
call (append_to_file pathname buf) = appending pathname buf
call (close_file pathname) = closing_file pathname

abbrev pub is_api : ℕ → Long → Bool
is_api k n = not n.minus && (n.size == k)

-- A size that is negative cannot be allocated, and the server exits.
abbrev pub to_length : Long → Option ℕ
to_length n = if n.minus then none else some n.size

-- The content of an append; the process exits where `readn` returns a size that is -1 as an `int`, and where the
-- client has ended the bytes that are missing are zero. The second `strtok_r` ends `sms_info` behind the path;
-- delimiters before the path stay in it, but the handler skips them again.
abbrev pub with_content : Bool → Long → ℕ → Text → Text → Option (Request × Text)
with_content closed api fd info p = do
  t ← strtok_r b',' info
  n ← to_length (strtol t.1).0
  r ← read_content closed n p
  if leb n (length p) && is_error n
      then none
      else some (record { api_id = api; sms_info = t.0; sms_content = r.0; fd_client_id = fd }, r.1)

-- The server's reading of a message: an empty one has no token, and `strtol` of a null pointer no
-- result.
unfoldable pub of_message : Bool → ℕ → Text × Text → Option (Request × Text)
unfolding strtok_r strtol
of_message closed fd m = do
  t ← strtok_r b',' m.0
  let api = (strtol t.0).0
  if is_api 5 api
      then with_content closed api fd t.1 m.1
      else some (record { api_id = api; sms_info = t.1; sms_content = []; fd_client_id = fd }, m.1)

unfoldable pub read_request : Bool → ℕ → Text → Option (Request × Text)
unfolding recieved_msg of_message
read_request closed fd p = recieved_msg closed p >>= of_message closed fd
