-- ===== src/Storage/Memory.antt =====
-- UpdateFile of includes/file_storage.c: a content is added to a file, and older files make room for it.
use lso_project.Prelude.{
  ℕ, zero, suc, ◌+◌, ◌-◌, Bool, true, false, ◌&&◌, Option, none, some, ◌++◌, ◌==◌, if◌then◌else◌,
  Text, ltb, length, not,
}
use lso_project.Storage.{File, Node, Storage, ◌>>=◌, store, kept, gone, remove_file}

-- The inner loop of `UpdateFile`, from the file `is_removable` on: where `removeFile` returns -1, the next one
-- is `current_file`, as an earlier step left it, and `none` while no step has set it. The C
-- language gives the use of such a variable no meaning, and so the loop has no result then. Each step
-- frees a node, ends the loop or repeats itself for ever: where the fuel is used up, there is no result.
abbrev pub make_memory :
    ℕ → ℕ → Option ℕ → Option (Option ℕ) → Storage → Option (Option (Option ℕ) × Storage)
make_memory size zero removable current s = none
make_memory size (suc n) none current s = some (current, s)
make_memory size (suc n) (some a) current s =
    if ltb s.ram_dispo size
    then (do
      r ← remove_file a s
      elim r [
        | kept ↦ current >>= λ c. make_memory size n c current s
        | gone next s' ↦ make_memory size n next (some next) s'
      ])
    else some (current, s)

-- The outer loop, with the rounds that are left of `TIMER`.
abbrev pub memory_rounds : ℕ → ℕ → Option (Option ℕ) → Storage → Option Storage
memory_rounds size zero current s = some s
memory_rounds size (suc k) current s =
    if ltb s.ram_dispo size
    then (do r ← make_memory size (s.nfile_tot + 1) s.last current s; memory_rounds size k r.0 r.1)
    else some s

abbrev pub is_fd : ℕ → Option ℕ → Bool
is_fd fd none = false
is_fd fd (some c) = fd == c

abbrev pub filled : Text → File → File
filled content x = record x {
  content_file = x.content_file ++ content;
  file_sz = x.file_sz + length content;
  modified = true;
}

-- The end of `UpdateFile`: the content is added, if the client has the file open.
abbrev pub fill : ℕ → ℕ → Text → Storage → Option (Bool × Storage)
fill a fd content s = do
  n ← s.heap a
  if is_fd fd n.file.fd_client_id
      then some (
        true,
        record (store a (record n { file = filled content n.file }) s) {
          ram_dispo = s.ram_dispo - length content;
        },
      )
      else some (false, s)

-- A file that is larger than the whole storage goes again.
abbrev pub given_up : ℕ → Node → Storage → Option (Bool × Storage)
given_up a n s = do
  let z = store a (record n { file = record n.file { fd_client_id = none; modified = true } }) s
  r ← remove_file a z
  elim r [ kept ↦ some (false, z) | gone next s' ↦ some (false, s') ]

-- The part of `UpdateFile` behind the test of the whole storage.
abbrev pub make_and_fill : ℕ → ℕ → Text → Storage → Option (Bool × Storage)
make_and_fill a fd content s = do
  s' ← memory_rounds (length content) 30 none s
  if ltb s'.ram_dispo (length content) then some (false, s') else fill a fd content s'

-- `UpdateFile`: 0 (true) or -1.
unfoldable pub update_file : ℕ → ℕ → Text → Storage → Option (Bool × Storage)
unfolding remove_file
update_file a fd content s = do
  n ← s.heap a
  if ltb s.ram_tot (length content) && not n.file.modified
      then given_up a n s
      else make_and_fill a fd content s
