-- ===== src/Server/Client.antt =====
-- What the functions of the API, includes/API.c, make of the answers of the server. The list of the removed files
-- is only printed.
pub mod Answers
pub mod Returns
pub mod Session
use lso_project.Prelude.{
  ℕ, zero, suc, Bool, true, false, not, ◌&&◌, Option, none, some, List, [], ◌∷◌, ◌>>=◌, ◌==◌, ltb,
  ◌-◌, ◌%◌, if◌then◌else◌, Text,
}
use lso_project.Prelude.Int.{ℤ, pos, negsuc}
use lso_project.Server.Cstring.{begins, strtok_r, strtol, Long}
use lso_project.Server.Wire.{
  recieved_msg, Received, file, no_more, refused, received_msg_file_content,
}

-- `(int) strtol` of an answer, as gcc casts.
abbrev pub signed : ℕ → ℤ
signed n = if ltb n 0x80000000 then pos n else negsuc (0xffffffff - n)

abbrev pub to_int : Long → ℤ
to_int n =
    let m = n.size % 0x100000000 in signed (if n.minus then (0x100000000 - m) % 0x100000000 else m)

abbrev pub number : Text → ℤ
number s = to_int (strtol s).0

unfoldable pub close_connection : Bool → Text → Option (ℤ × Text)
unfolding recieved_msg strtol
close_connection closed p = do m ← recieved_msg closed p; some (number m.0, m.1)

-- `strtok_r` ends the answer behind its first token; a comma before it stays, and no number is read.
abbrev pub first_token : Text → Text
first_token s =
    if begins (b',' ∷ []) s then s else elim (strtok_r b',' s) [ none ↦ s | some t ↦ t.0 ]

unfoldable pub open_file : Bool → Text → Option (ℤ × Text)
unfolding recieved_msg strtol strtok_r
open_file closed p = do m ← recieved_msg closed p; some (number (first_token m.0), m.1)

-- 0 (true) or -1.
abbrev pub is_zero : Long → Bool
is_zero n = n.size == 0

unfoldable pub append_to_file : Bool → Text → Option (Bool × Text)
unfolding recieved_msg strtol strtok_r
append_to_file closed p = do
  m ← recieved_msg closed p
  t ← strtok_r b',' m.0
  some (is_zero (strtol t.0).0, m.1)

abbrev pub is_minus_one : Long → Bool
is_minus_one n = n.minus && (n.size == 1)

unfoldable pub close_file : Bool → Text → Option (Bool × Text)
unfolding recieved_msg strtol
close_file closed p = do m ← recieved_msg closed p; some (not (is_minus_one (strtol m.0).0), m.1)

-- What `buf` is set to, `none` for NULL.
abbrev pub content_of : Received → Option Text
content_of (file path buf) = some buf
content_of no_more = none
content_of refused = none

abbrev pub is_there : Received → Bool
is_there (file path buf) = true
is_there no_more = true
is_there refused = false

unfoldable pub read_file : Bool → Text → Option (Bool × Option Text × Text)
unfolding received_msg_file_content
read_file closed p = do
  r ← received_msg_file_content closed p
  some (is_there r.0, content_of r.0, r.1)

-- The loop of `readNFiles`: the files that came, whether it returns 0, and what is left in the pipe. The
-- fuel bounds the messages.
abbrev pub with_file :
    Text × Text
    → Option (List (Text × Text) × Bool × Text)
    → Option (List (Text × Text) × Bool × Text)
with_file f none = none
with_file f (some (fs, b, p)) = some (f ∷ fs, b, p)

unfoldable pub read_n_files : ℕ → Bool → Text → Option (List (Text × Text) × Bool × Text)
unfolding received_msg_file_content
read_n_files zero closed p = none
read_n_files (suc n) closed p = do
  r ← received_msg_file_content closed p
  elim r.0 [
    | file path buf ↦ with_file (path, buf) (read_n_files n closed r.1)
    | no_more ↦ some ([], true, r.1)
    | refused ↦ some ([], false, r.1)
  ]
