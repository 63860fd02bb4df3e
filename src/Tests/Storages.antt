-- ===== src/Tests/Storages.antt =====
-- Storage.antt at a storage of three files, full, and a new node.
use lso_project.Prelude.{
  ℕ, ◌+◌, ◌≡◌, refl, inr, Bool, true, Option, none, some, List, [], ◌∷◌, arith, Text, codes,
  strip_prefix,
}
use lso_project.Storage.{
  File, Node, Heap, Storage, update, gone, remove_file, begins, search_file_node,
  insert_create_file, create_file_node,
}
use lso_project.Storage.Memory.{update_file}
use lso_project.Storage.Chain.{Entry, Stored}
use lso_project.Storage.Search.{search_file_node-newest}
use lso_project.Storage.Removed.{remove_file-ends, remove_file-middle}
use lso_project.Storage.Insert.{insert_create_file-Stored}
use lso_project.Storage.Update.{Goes, update_file-Goes}

abbrev pub file : Text → File
file path = record {
  file_sz = 2;
  pathname = path;
  fd_client_id = none;
  modified = true;
  content_file = codes "ok";
}

abbrev node : Text → Option ℕ → Option ℕ → Option Node
node path s f = some (record { file = file path; son = s; father = f })

abbrev heap : Heap
heap = update 0 (node (codes "/b.txt") (some 1) none) (
    update 1 (node (codes "/a.txt") (some 2) (some 0)) (
      update 2 (node (codes "/a") none (some 1))
        (update 3 (some (create_file_node (codes "/c") 7)) (λ a. none))))

abbrev full : Storage
full = record {
  ram_tot = 100;
  ram_dispo = 94;
  nfile_tot = 3;
  nfile_dispo = 0;
  head = some 0;
  last = some 2;
  heap = heap;
  rm_path = [];
}

abbrev entries : List Entry
entries = (0, file (codes "/b.txt")) ∷ (1, file (codes "/a.txt")) ∷ (2, file (codes "/a")) ∷ []

full-Stored : Stored entries full
full-Stored = record {
  chain = (refl, (refl, (refl, tt)));
  apart = omega arith;
  at_head = refl;
  at_last = refl;
  files = refl;
  bytes = refl;
}

-- The search for "/a" finds "/a.txt".
search_file_node-newest_example : search_file_node (codes "/a") full ≡ some (some 1)
unfolding begins strip_prefix
search_file_node-newest_example = search_file_node-newest (codes "/a") entries full full-Stored

remove_file-ends_example :
    (cur : Option ℕ) × (s' : Storage) × (remove_file 2 full ≡ some (gone cur s'))
    × Stored ((0, file (codes "/b.txt")) ∷ (1, file (codes "/a.txt")) ∷ []) s'
    × (s'.rm_path ≡ codes "/a" ∷ [])
    × (s'.nfile_dispo ≡ 0 + 1)
remove_file-ends_example =
    remove_file-ends ((0, file (codes "/b.txt")) ∷ (1, file (codes "/a.txt")) ∷ []) [] 2
      (file (codes "/a")) full full-Stored refl (inr refl)

remove_file-middle_example :
    (cur : Option ℕ) × (s' : Storage) × (remove_file 1 full ≡ some (gone cur s'))
    × (s'.heap 1 ≡ none)
    × (search_file_node (codes "/a") s' ≡ none)
unfolding begins strip_prefix
remove_file-middle_example =
    remove_file-middle [] [] (0, file (codes "/b.txt")) (2, file (codes "/a")) 1
      (file (codes "/a.txt")) (codes "/a") full full-Stored refl (refl, tt)

insert_create_file-Stored_example :
    (s' : Storage) × (insert_create_file 3 full ≡ some (true, s'))
    × Stored
        ((3, (create_file_node (codes "/c") 7).file)
          ∷ (0, file (codes "/b.txt"))
          ∷ (1, file (codes "/a.txt"))
          ∷ [])
        s'
insert_create_file-Stored_example =
    insert_create_file-Stored 3 (create_file_node (codes "/c") 7).file entries
      ((0, file (codes "/b.txt")) ∷ (1, file (codes "/a.txt")) ∷ []) full full-Stored refl refl
      (omega arith) (inr (refl, (2, file (codes "/a"), refl, refl)))

abbrev pub mine : File
mine = record (file (codes "/d")) { fd_client_id = some 7 }

-- A file that a client has open and an older one that nobody has, and room for three bytes.
abbrev pub busy : Storage
busy = record {
  ram_tot = 7;
  ram_dispo = 3;
  nfile_tot = 3;
  nfile_dispo = 1;
  head = some 0;
  last = some 1;
  heap =
      update 0 (some (record { file = mine; son = some 1; father = none }))
        (update 1 (node (codes "/a") none (some 0)) (λ a. none));
  rm_path = [];
}

pub busy-Stored : Stored ((0, mine) ∷ (1, file (codes "/a")) ∷ []) busy
busy-Stored = record {
  chain = (refl, (refl, tt));
  apart = omega arith;
  at_head = refl;
  at_last = refl;
  files = refl;
  bytes = refl;
}

-- The older file goes.
update_file-Goes_example :
    Goes
      (codes "more")
      []
      (0, mine)
      []
      (1, file (codes "/a"))
      busy
      (update_file 0 7 (codes "more") busy)
update_file-Goes_example =
    update_file-Goes 0 7 1 (codes "more") mine (file (codes "/a")) [] [] busy busy-Stored refl
      (omega arith) (omega arith)

abbrev seen : Option (Bool × Storage) → Option (ℕ × Option Node × Option Node × List Text)
seen none = none
seen (some (b, s)) = some (s.ram_dispo, s.heap 0, s.heap 1, s.rm_path)

update_file-evicts :
    seen (update_file 0 7 (codes "more") busy)
    ≡ some (
      1,
      some (record {
        file = record mine { file_sz = 6; content_file = codes "okmore" };
        son = none;
        father = none;
      }),
      none,
      codes "/a" ∷ [],
    )
unfolding update_file remove_file
update_file-evicts = refl
