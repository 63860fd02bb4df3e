-- ===== src/Storage/Refilled.antt =====
-- A file that is found, and changed in its place.
use lso_project.Prelude.{
  ℕ, ◌-◌, ◌≤◌, ◌≡◌, refl, ap, ◌∙◌, true, false, none, some, List, [], ◌∷◌, ◌++◌, arith, length,
  Text, All,
}
use mathlib.Core.Path.{subst}
use lso_project.Storage.{File, Node, Storage, store, begins, search_file_node}
use lso_project.Storage.Memory.{is_fd, filled, update_file}
use lso_project.Storage.Chain.{Entry, last_or, son_of, Stored, Chain-split}
use lso_project.Storage.Search.{newest, search_file_node-newest}
use lso_project.Storage.Filled.{written, written-Stored, make_and_fill-room}
use lso_project.Storage.Update.{update_file-behind}

-- The node of the file x between the files `pre` and `post`.
abbrev pub node_of : List Entry → File → List Entry → Node
node_of pre x post = record { file = x; son = son_of post none; father = last_or none pre }

pub heap-Stored :
    (pre post : List Entry) (a : ℕ) (x : File) (s : Storage)
    → Stored (pre ++ (a, x) ∷ post) s
    → s.heap a ≡ some (node_of pre x post)
heap-Stored pre post a x s v =
    let (_, r) = Chain-split s.heap none none pre ((a, x) ∷ post) v.chain in r.0

-- Another file of the same size.
pub store-Stored :
    (pre post : List Entry) (a : ℕ) (x y : File) (s : Storage)
    → Stored (pre ++ (a, x) ∷ post) s
    → y.file_sz ≡ x.file_sz
    → Stored (pre ++ (a, y) ∷ post) (store a (node_of pre y post) s)
store-Stored pre post a x y s v same =
    let e : s.ram_dispo - 0 ≡ s.ram_dispo = omega arith in
    subst
      (λ k.
        Stored (pre ++ (a, y) ∷ post) (record (store a (node_of pre y post) s) { ram_dispo = k }))
      e
      (written-Stored a 0 x y pre post (node_of pre x post) s v (heap-Stored pre post a x s v) refl
        (omega (arith, same)) (omega arith))

-- The path leads to the file x: it is a beginning of its path, and of no newer file's.
abbrev pub Leads : Text → List Entry → File → Type 0
Leads p pre x = All (λ e. begins p e.1.pathname ≡ false) pre × (begins p x.pathname ≡ true)

newest-Leads :
    (p : Text) (pre post : List Entry) (a : ℕ) (x : File)
    → Leads p pre x
    → newest p (pre ++ (a, x) ∷ post) ≡ some a
newest-Leads p [] post a x (_, h) = rw h refl
newest-Leads p ((b, y) ∷ pre) post a x (n, h) = rw n.0 (newest-Leads p pre post a x (n.1, h))

pub search_file_node-Leads :
    (p : Text) (pre post : List Entry) (a : ℕ) (x : File) (s : Storage)
    → Stored (pre ++ (a, x) ∷ post) s
    → Leads p pre x
    → search_file_node p s ≡ some (some a)
search_file_node-Leads p pre post a x s v l =
    search_file_node-newest p (pre ++ (a, x) ∷ post) s v ∙ ap some (newest-Leads p pre post a x l)

-- An append where there is room.
pub update_file-room :
    (pre post : List Entry) (a fd : ℕ) (content : Text) (x : File) (s : Storage)
    → Stored (pre ++ (a, x) ∷ post) s
    → is_fd fd x.fd_client_id ≡ true
    → length content ≤ s.ram_dispo
    → (s' : Storage) × (update_file a fd content s ≡ some (true, s'))
      × Stored (pre ++ (a, filled content x) ∷ post) s'
      × (s'.rm_path ≡ s.rm_path)
update_file-room pre post a fd content x s v mine room =
    let at = heap-Stored pre post a x s v in
    let n : Node = node_of pre x post in
    (
      written a n (filled content x) (length content) s,
      update_file-behind a fd content n s at (omega (arith, v.bytes))
          ∙ make_and_fill-room a fd content n s at mine room,
      written-Stored a (length content) x (filled content x) pre post n s v at refl refl room,
      refl,
    )
