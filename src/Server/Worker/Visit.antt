-- ===== src/Server/Worker/Visit.antt =====
-- A visit of a client: it creates a file, fills it, reads it and closes it.
use lso_project.Prelude.{
  ℕ, ◌≤◌, ◌<◌, ◌≡◌, refl, ap, ◌∙◌, true, none, some, List, [], ◌∷◌, ◌++◌, ◌>>=◌, arith, Text,
  Avoids, strip_prefix, length, ◌==◌,
}
use lso_project.Storage.{File, Node, Storage, store, begins, create_file_node, search_file_node}
use lso_project.Storage.Memory.{is_fd, filled, update_file}
use lso_project.Storage.Chain.{Entry, Off, Stored, Chain-update, update-same}
use lso_project.Storage.Search.{newest, search_file_node-newest}
use lso_project.Storage.Insert.{insert_create_file-room}
use lso_project.Storage.Refilled.{
  node_of, heap-Stored, store-Stored, Leads, search_file_node-Leads, update_file-room,
}
use lso_project.Storage.Filled.{if_yes}
use lso_project.Server.Cstring.{strtok_r-Avoids}
use lso_project.Server.Request.{Request, open_file, append_to_file, read_file, close_file}
use lso_project.Server.Request.Agreed.{asked}
use lso_project.Server.Worker.{
  Server, Result, ok, ko, ok_removed, put, after, set_fd, emptied, answered, create, held,
  open_found, measured, read_found, append_found, close_found, file_answer, handle, serve,
}
use lso_project.Server.Worker as W
use lso_project.Server.Worker.Held.{open_file-found}

emptied-Stored : (es : List Entry) (s : Storage) → Stored es s → Stored es (emptied s)
emptied-Stored es s v = record {
  chain = v.chain;
  apart = v.apart;
  at_head = v.at_head;
  at_last = v.at_last;
  files = v.files;
  bytes = v.bytes;
}

pub begins_self : (p : Text) → begins p p ≡ true
unfolding begins strip_prefix
begins_self [] = refl
begins_self (c ∷ p) = let e : (c == c) ≡ true = ground arith in rw e (begins_self p)

-- A client creates a file.
pub created :
    (a c fd : ℕ) (p : Text) (es : List Entry) (v : Server)
    → Avoids b',' (c ∷ p)
    → Stored es v.storage
    → newest (c ∷ p) es ≡ none
    → Off a es
    → 0 < v.storage.nfile_dispo
    → (s : Storage) × (W.open_file a (asked fd (open_file (c ∷ p) true)) v
        ≡ some (ok_removed [], after s v))
      × Stored ((a, (create_file_node (c ∷ p) fd).file) ∷ es) s
      × (s.ram_dispo ≡ v.storage.ram_dispo)
created a c fd p es v h s missing off room =
    let n : Node = create_file_node (c ∷ p) fd in
    let z : Storage = store a n (emptied v.storage) in
    let sz : Stored es z = record {
      chain = Chain-update a (some n) v.storage.heap none none es off s.chain;
      apart = s.apart;
      at_head = s.at_head;
      at_last = s.at_last;
      files = s.files;
      bytes = s.bytes;
    } in
    let (s', i, k, q, d) =
      insert_create_file-room a n.file es z sz refl (update-same a (some n) v.storage.heap) off
        room in
    let r : Request = asked fd (open_file (c ∷ p) true) in
    let missed = search_file_node-newest (c ∷ p) es v.storage s ∙ ap some missing in
    (
      s',
      open_file-found a c p true none r v refl h missed
          ∙ ap (λ o. o >>= λ u. some (answered v u)) i
          ∙ ap (λ paths. some (ok_removed paths, after s' v)) q,
      k,
      d,
    )

-- It appends to a file that it has open.
pub appended :
    (a c fd : ℕ) (p buf : Text) (pre post : List Entry) (x : File) (v : Server)
    → Avoids b',' (c ∷ p)
    → Stored (pre ++ (a, x) ∷ post) v.storage
    → Leads (c ∷ p) pre x
    → is_fd fd x.fd_client_id ≡ true
    → length buf ≤ v.storage.ram_dispo
    → (s : Storage) × (W.append_to_file (asked fd (append_to_file (c ∷ p) buf)) v
        ≡ some (ok_removed [], measured (after s v)))
      × Stored (pre ++ (a, filled buf x) ∷ post) s
unfolding W.append_to_file
appended a c fd p buf pre post x v h s l mine room =
    let r : Request = asked fd (append_to_file (c ∷ p) buf) in
    let (s', u, k, q) =
      update_file-room pre post a fd buf x (emptied v.storage)
        (emptied-Stored (pre ++ (a, x) ∷ post) v.storage s) mine room in
    let done : Result → Result = λ o. o >>= λ e. some (e.0, measured e.1) in
    let changed : Result = update_file a fd buf (emptied v.storage) >>= λ u. some (answered v u) in
    (
      s',
      ap (λ o. o >>= λ t. search_file_node t.0 v.storage >>= λ f. done (append_found f r v))
            (strtok_r-Avoids b',' c p h)
          ∙ ap (λ o. o >>= λ f. done (append_found f r v))
              (search_file_node-Leads (c ∷ p) pre post a x v.storage s l)
          ∙ ap (λ o. done (o >>= λ n. held r n (ko, v) changed))
              (heap-Stored pre post a x v.storage s)
          ∙ ap done (if_yes changed (some (ko, v)) mine)
          ∙ ap (λ o. done (o >>= λ u. some (answered v u))) u
          ∙ ap (λ paths. some (ok_removed paths, measured (after s' v))) q,
      k,
    )

-- It reads such a file.
pub reads :
    (a c fd : ℕ) (p : Text) (pre post : List Entry) (x : File) (v : Server)
    → Avoids b',' (c ∷ p)
    → Stored (pre ++ (a, x) ∷ post) v.storage
    → Leads (c ∷ p) pre x
    → is_fd fd x.fd_client_id ≡ true
    → W.read_file (asked fd (read_file (c ∷ p))) v ≡ some (file_answer x, v)
unfolding W.read_file
reads a c fd p pre post x v h s l mine =
    let r : Request = asked fd (read_file (c ∷ p)) in
    ap (λ o. o >>= λ t. search_file_node t.0 v.storage >>= λ f. read_found f r v)
      (strtok_r-Avoids b',' c p h)
    ∙ ap (λ o. o >>= λ f. read_found f r v)
        (search_file_node-Leads (c ∷ p) pre post a x v.storage s l)
    ∙ ap (λ o. o >>= λ n. held r n (ko, v) (some (file_answer n.file, v)))
        (heap-Stored pre post a x v.storage s)
    ∙ if_yes (some (file_answer x, v)) (some (ko, v)) mine

-- It closes such a file.
pub closed_by :
    (a c fd : ℕ) (p : Text) (pre post : List Entry) (x : File) (v : Server)
    → Stored (pre ++ (a, x) ∷ post) v.storage
    → Leads (c ∷ p) pre x
    → is_fd fd x.fd_client_id ≡ true
    → (s : Storage) × (W.close_file (asked fd (close_file (c ∷ p))) v ≡ some (ok, put s v))
      × Stored (pre ++ (a, record x { fd_client_id = none }) ∷ post) s
unfolding W.close_file
closed_by a c fd p pre post x v s l mine =
    let r : Request = asked fd (close_file (c ∷ p)) in
    let s' : Storage = set_fd a (node_of pre x post) none v.storage in
    (
      s',
      ap (λ o. o >>= λ f. close_found f r v)
            (search_file_node-Leads (c ∷ p) pre post a x v.storage s l)
          ∙ ap (λ o. o >>= λ n. held r n (ko, v) (some (ok, put (set_fd a n none v.storage) v)))
              (heap-Stored pre post a x v.storage s)
          ∙ if_yes (some (ok, put s' v)) (some (ko, v)) mine,
      store-Stored pre post a x (record x { fd_client_id = none }) v.storage s refl,
    )
