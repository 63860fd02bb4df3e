-- ===== src/Storage.antt =====
-- The storage of the server, includes/file_storage.c: a list of the files that are linked both ways, from
-- the newest to the oldest, with the number of files and the bytes that there is room for. A pointer is
-- an address, and the access to a node that was freed gives `none`. The lock is held around each
-- operation that is modelled, and one operation runs after the other.
pub mod Chain
pub mod Search
pub mod Unlinked
pub mod Removed
pub mod Insert
pub mod Memory
pub mod Filled
pub mod Update
pub mod Refilled
use lso_project.Prelude.{
  ℕ, zero, suc, ◌+◌, ◌-◌, Bool, true, false, ◌&&◌, Option, none, some, List, [], ◌∷◌, ◌++◌, ◌==◌,
  if◌then◌else◌, Text, strip_prefix,
}
pub use lso_project.Prelude.{◌>>=◌}

-- What a node says of its file. The descriptor of the client that has it open is `none` for -1, and
-- `modified` is -1 (false) until it has a content.
pub record File : Type 0 where
  pub file_sz : ℕ
  pub pathname : Text
  pub fd_client_id : Option ℕ
  pub modified : Bool
  pub content_file : Text

pub record Node : Type 0 where
  pub file : File
  pub son : Option ℕ
  pub father : Option ℕ

abbrev pub Heap : Type 0
Heap = ℕ → Option Node

-- `info_storage_t`, the heap, and the paths in the buffer of the removed files.
pub record Storage : Type 0 where
  pub ram_tot : ℕ
  pub ram_dispo : ℕ
  pub nfile_tot : ℕ
  pub nfile_dispo : ℕ
  pub head : Option ℕ
  pub last : Option ℕ
  pub heap : Heap
  pub rm_path : List Text

abbrev pub update : ℕ → Option Node → Heap → Heap
update a n h b = if b == a then n else h b

abbrev pub store : ℕ → Node → Storage → Storage
store a n s = record s { heap = update a (some n) s.heap }

abbrev pub set_son : ℕ → Option ℕ → Storage → Option Storage
set_son a p s = do n ← s.heap a; some (store a (record n { son = p }) s)

abbrev pub set_father : ℕ → Option ℕ → Storage → Option Storage
set_father a p s = do n ← s.heap a; some (store a (record n { father = p }) s)

-- `createFileNode`
abbrev pub create_file_node : Text → ℕ → Node
create_file_node name fd = record {
  file = record {
    file_sz = 0;
    pathname = name;
    fd_client_id = some fd;
    modified = false;
    content_file = [];
  };
  son = none;
  father = none;
}

-- `createStorage`
abbrev pub create_storage : ℕ → ℕ → Heap → Storage
create_storage ram nfile h = record {
  ram_tot = ram;
  ram_dispo = ram;
  nfile_tot = nfile;
  nfile_dispo = nfile;
  head = none;
  last = none;
  heap = h;
  rm_path = [];
}

abbrev pub is_closed : Option ℕ → Bool
is_closed none = true
is_closed (some fd) = false

abbrev pub is_removable : File → Bool
is_removable f = is_closed f.fd_client_id && f.modified

-- The links of the node at the address a, by its son and its father: the storage, and the new value of
-- `current_file`. In the middle the node's own two pointers are set, and those of its neighbours not.
abbrev pub unlink : ℕ → Option ℕ → Option ℕ → Storage → Option (Option ℕ × Storage)
unlink a none none s = some (none, record s { head = none; last = none })
unlink a none (some f) s = do s' ← set_son f none (record s { last = some f }); some (some f, s')
unlink a (some b) none s = do s' ← set_father b none (record s { head = some b }); some (none, s')
unlink a (some b) (some f) s = do
  s' ← set_father a (some b) s
  s'' ← set_son a (some b) s'
  some (some b, s'')

-- The log of the path, the room, and `free`.
abbrev pub freed : ℕ → File → Storage → Storage
freed a x s = record s {
  rm_path = s.rm_path ++ x.pathname ∷ [];
  ram_dispo = s.ram_dispo + x.file_sz;
  nfile_dispo = s.nfile_dispo + 1;
  heap = update a none s.heap;
}

pub data Removal : Type 0 where
  kept : Removal
  gone : Option ℕ → Storage → Removal

abbrev pub remove_node : ℕ → Node → Storage → Option Removal
remove_node a n s = do r ← unlink a n.son n.father s; some (gone r.0 (freed a n.file r.1))

-- `removeFile`: 0 with the next `current_file`, or -1 for a file that is open or empty.
unfoldable pub remove_file : ℕ → Storage → Option Removal
remove_file a s = do n ← s.heap a; if is_removable n.file then remove_node a n s else some kept

-- `strncmp(…, pathname, strlen(pathname)) == 0`: the path is a beginning of the file's.
abbrev pub is_some : Option Text → Bool
is_some none = false
is_some (some r) = true

unfoldable pub begins : Text → Text → Bool
unfolding strip_prefix
begins p path = is_some (strip_prefix p path)

-- The loop of `searchFileNode` over as many nodes as there are files: the address, or none for -1.
abbrev pub search_from : ℕ → Text → Option ℕ → Heap → Option (Option ℕ)
search_from zero p current h = some none
search_from (suc n) p none h = none
search_from (suc n) p (some a) h = do
  x ← h a
  let rest = search_from n p x.son h
  if begins p x.file.pathname then some (some a) else rest

unfoldable pub search_file_node : Text → Storage → Option (Option ℕ)
unfolding begins
search_file_node p s = search_from (s.nfile_tot - s.nfile_dispo) p s.head s.heap

-- The inner loop of `insertCreateFile`: from the oldest file on, until there is room for one file or no
-- file is left. The fuel bounds its steps.
abbrev pub make_room : ℕ → Option ℕ → Storage → Option Storage
make_room zero current s = some s
make_room (suc n) none s = some s
make_room (suc n) (some a) s =
    if s.nfile_dispo == 0
    then (do
      x ← s.heap a
      r ← remove_file a s
      elim r [ kept ↦ make_room n x.father s | gone next s' ↦ make_room n next s' ])
    else some s

-- The outer loop, with the rounds that are left of `TIMER`.
abbrev pub room_rounds : ℕ → Storage → Option Storage
room_rounds zero s = some s
room_rounds (suc k) s =
    if s.nfile_dispo == 0
    then (do s' ← make_room (s.nfile_tot + 1) s.last s; room_rounds k s')
    else some s

-- The new node becomes the head; where there is a last node and no head, the code follows a null pointer.
abbrev pub link : ℕ → Option ℕ → Option ℕ → Storage → Option Storage
link a none none s = some (record s { head = some a; last = some a })
link a none (some l) s = none
link a (some h) l s = do
  s' ← set_son a (some h) (record s { head = some a })
  set_father h (some a) s'

abbrev pub take_place : Storage → Storage
take_place s = record s { nfile_dispo = s.nfile_dispo - 1 }

-- `insertCreateFile`: 0 (true) and the storage with the new node, or -1 and the storage without it.
unfoldable pub insert_create_file : ℕ → Storage → Option (Bool × Storage)
unfolding remove_file
insert_create_file a s = do
  s' ← room_rounds 30 s
  if s'.nfile_dispo == 0
      then some (false, s')
      else (do u ← link a s'.head s'.last s'; some (true, take_place u))
