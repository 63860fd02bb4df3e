-- ===== src/Server/Config.antt =====
-- The configuration file of the server, includes/configuration.c: lines of a word, a space, a value and what may
-- follow behind another space. The file is its text without zero bytes; the messages on stderr are not
-- modelled.
pub mod Lines
pub mod File
use lso_project.Prelude.{
  ℕ, zero, suc, ◌+◌, ◌-◌, ◌%◌, Bool, true, false, not, ◌&&◌, ◌||◌, Option, none, some, List, [],
  ◌∷◌, ◌++◌, ◌>>=◌, ltb, ◌==◌, if◌then◌else◌, Text, codes,
}
use lso_project.Prelude.Int.{ℤ, pos, negsuc}
use lso_project.Server.Cstring.{begins, strtok_r, strtol, Long}

-- `config_t` while it is filled: 0 and NULL are for what was not read.
pub record Config : Type 0 where
  pub n_thread : ℤ
  pub n_file : ℤ
  pub mem_size : ℤ
  pub sockname : Option Text
  pub logfile : Option Text

abbrev pub is_end : Text → Bool
is_end [] = true
is_end (c ∷ s) = false

-- `fgets` up to the end of the file, with a buffer of 256 bytes: lines with their newline, and longer
-- ones in pieces of 255. `room` is what the piece can still take.
abbrev pub lines_from : ℕ → Text → Text → List Text
lines_from room line [] = if is_end line then [] else line ∷ []
lines_from room line (c ∷ s) =
    let l = line ++ c ∷ [] in
    let full = c == b'\n' || room == 1 in
    let rest = lines_from (if full then 255 else room - 1) (if full then [] else l) s in
    if full then l ∷ rest else rest

abbrev pub lines : Text → List Text
lines = lines_from 255 []

-- The cast of a positive `long` to `int`.
abbrev pub to_int : ℕ → ℤ
to_int n = let m = n % 0x100000000 in if ltb m 0x80000000 then pos m else negsuc (0xffffffff - m)

abbrev pub positive : Long → Bool
positive n = not n.minus && not (n.size == 0)

-- A value that is a positive number to its very end, and else the default.
abbrev pub number_or : ℕ → Text → ℤ
number_or default value =
    let r = strtol value in if is_end r.1 && positive r.0 then to_int r.0.size else pos default

-- A name, and else the default where there is none or a comment begins.
abbrev pub name_or : Text → Option (Text × Text) → Option Text
name_or default none = some default
name_or default (some t) = if begins (codes "#") t.0 then some default else some t.0

-- One line. `strncmp` or `strtol` of a null pointer has no result.
unfoldable pub config_line : Text → Config → Option Config
unfolding strtok_r strtol
config_line line c = do
  t ← strtok_r 32 line
  let value = strtok_r 32 t.1
  if begins (codes "N_THREAD") t.0
      then (value >>= λ u. some (record c { n_thread = number_or 1 u.0 }))
      else if begins (codes "N_FILE") t.0
      then (value >>= λ u. some (record c { n_file = number_or 50 u.0 }))
      else if begins (codes "MEM_SIZE") t.0
      then (value >>= λ u. some (record c { mem_size = number_or 128000 u.0 }))
      else if begins (codes "SOCKNAME") t.0
      then some (record c { sockname = name_or (codes "./cs_sock") value })
      else if begins (codes "LOGFILE") t.0
      then some (record c { logfile = name_or (codes "logfile.txt") value })
      else some c

abbrev pub read_lines : List Text → Config → Option Config
read_lines [] c = some c
read_lines (l ∷ ls) c = config_line l c >>= read_lines ls

-- `config_t` at the end, with the defaults for what no line gave.
pub record Settings : Type 0 where
  pub threads : ℤ
  pub files : ℤ
  pub memory : ℤ
  pub socket : Text
  pub log : Text

abbrev pub or_default : ℕ → ℤ → ℤ
or_default default (pos zero) = pos default
or_default default (pos (suc n)) = pos (suc n)
or_default default (negsuc n) = negsuc n

abbrev pub or_name : Text → Option Text → Text
or_name default none = default
or_name default (some s) = s

abbrev pub finished : Config → Settings
finished c = record {
  threads = or_default 1 c.n_thread;
  files = or_default 50 c.n_file;
  memory = or_default 128000 c.mem_size;
  socket = or_name (codes "./cs_sock") c.sockname;
  log = or_name (codes "logfile.txt") c.logfile;
}

abbrev pub unread : Config
unread = record {
  n_thread = pos 0;
  n_file = pos 0;
  mem_size = pos 0;
  sockname = none;
  logfile = none;
}

unfoldable pub configuration : Text → Option Settings
unfolding config_line
configuration s = do c ← read_lines (lines s) unread; some (finished c)
