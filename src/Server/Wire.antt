-- ===== src/Server/Wire.antt =====
-- includes/util.c: the messages between the client and the server. A message is its length, 8 bytes with the lowest
-- first, and its text; the content of a file follows without a length. The bytes that were sent and
-- not yet read stand in a pipe; `closed` says that its other end sends no more.
pub mod Sizes
pub mod Exchange
use lso_project.Prelude.{
  ℕ, zero, suc, ◌+◌, ◌-◌, ◌*◌, ◌/◌, ◌%◌, Bool, not, ◌&&◌, Option, none, some, [], ◌∷◌, ◌++◌, leb,
  ltb, if◌then◌else◌, length, Text,
}
pub use lso_project.Prelude.{◌>>=◌}
use lso_project.Server.Conn.{is_error}
use lso_project.Server.Cstring.{begins, take, drop, c_string, strtok_r, Long, strtol}

-- A `size_t` in memory, in so many bytes.
abbrev pub size_bytes : ℕ → ℕ → Text
size_bytes zero n = []
size_bytes (suc k) n = (n % 256) ∷ size_bytes k (n / 256)

abbrev pub size_of : Text → ℕ
size_of [] = 0
size_of (c ∷ s) = c + 256 * size_of s

-- The two calls of `writen` for a message.
unfoldable pub send : Text → Text
send s = size_bytes 8 (length s) ++ s

-- `recievedMsg`: the text, as a C string, and what is left. At the end of the pipe both calls of `readn`
-- return 0, and the bytes that are missing are those of `memset` and `calloc`. Where `readn` returns a length
-- that is -1 as an `int`, the process exits.
unfoldable pub recieved_msg : Bool → Text → Option (Text × Text)
recieved_msg closed p =
    let n = size_of (take 8 p) in
    let rest = drop 8 p in
    if (if leb 8 (length p) && leb n (length rest) then not (is_error n) else closed)
    then some (c_string (take n rest), drop n rest)
    else none

abbrev pub with_arg2 : Text → Option Text → Text
with_arg2 s none = s
with_arg2 s (some a) = s ++ b',' ∷ a

-- `sendMsg`, for an `api_id` of two characters.
abbrev pub message : Text → Option Text → Option Text → Text
message api_id none none = api_id
message api_id none (some b) = api_id ++ b
message api_id (some a) arg2 = api_id ++ with_arg2 a arg2

abbrev pub send_msg : Text → Option Text → Option Text → Text
send_msg api_id arg1 arg2 = send (message api_id arg1 arg2)

abbrev pub size_arg : Text → ℕ
size_arg s = (strtol s).0.size

-- `sendMsg_File_Content`, for a size that is not negative.
unfoldable pub send_msg_file_content : Text → Text → Text → Text → Text
unfolding send
send_msg_file_content api_id arg1 arg2 content =
    send_msg api_id (some arg1) (some arg2) ++ take (size_arg arg2) content

-- What `receivedMsg_File_Content` sets: `check` 1 with a file, 0 or -1.
pub data Received : Type 0 where
  file : Text → Text → Received
  no_more : Received
  refused : Received

-- The cast to `int`: a size that gets negative cannot be allocated, and the process exits.
abbrev pub to_size : Long → Option ℕ
to_size n = let m = n.size % 0x100000000 in if not n.minus && ltb m 0x80000000 then some m else none

-- `calloc` and `readn` of a content: the bytes and what is left. At the end of the pipe `readn` returns 0, and the
-- bytes that are missing are zero; before it the call waits.
abbrev pub zeros : ℕ → Text
zeros zero = []
zeros (suc n) = 0 ∷ zeros n

abbrev pub read_content : Bool → ℕ → Text → Option (Text × Text)
read_content closed n p =
    if leb n (length p)
    then some (take n p, drop n p)
    else if closed
    then some (p ++ zeros (n - length p), [])
    else none

abbrev pub content_after : Bool → Text → ℕ → Text → Option (Received × Text)
content_after closed path n p = do r ← read_content closed n p; some (file path r.0, r.1)

-- `receivedMsg_File_Content`. A call on a null pointer has no result.
abbrev pub file_after : Bool → Text × Text → Option (Received × Text)
file_after closed m = do
  path ← strtok_r b',' m.0
  size ← strtok_r b',' path.1
  n ← to_size (strtol size.0).0
  content_after closed path.0 n m.1

unfoldable pub of_answer : Bool → Text × Text → Option (Received × Text)
unfolding strtok_r strtol
of_answer closed m = do
  t ← strtok_r b',' m.0
  if begins (b'1' ∷ []) t.0
      then file_after closed (t.1, m.1)
      else if begins (b'0' ∷ []) t.0
      then some (no_more, m.1)
      else some (refused, m.1)

unfoldable pub received_msg_file_content : Bool → Text → Option (Received × Text)
unfolding recieved_msg of_answer
received_msg_file_content closed p = recieved_msg closed p >>= of_answer closed
