-- ===== src/Server/Worker/Held.antt =====
-- Who may use a file: one client has it open, and the others are refused.
use lso_project.Prelude.{
  ℕ, ◌≡◌, refl, sym, ap, ◌∙◌, ◌⊎◌, inl, inr, Bool, true, false, not, Option, none, some, List, [],
  ◌∷◌, ◌++◌, ◌>>=◌, if◌then◌else◌, Bool-cases, Text, Avoids, codes, strip_prefix,
}
use mathlib.Core.Path.{subst}
use lso_project.Storage.{File, Heap, Node, Storage, is_closed, search_file_node}
use lso_project.Storage.Memory.{is_fd, update_file}
use lso_project.Storage.Chain.{Entry, Stored}
use lso_project.Storage.Search.{newest, search_file_node-newest}
use lso_project.Storage.Refilled.{node_of, heap-Stored, store-Stored, Leads, search_file_node-Leads}
use lso_project.Storage.Filled.{if_no, if_yes}
use lso_project.Server.Cstring.{strtok_r, strtok_r-Avoids, strtok_r-append, begins}
use lso_project.Server.Request.{Request, flag}
use lso_project.Server.Worker.{
  Server, Result, ok, ko, put, set_fd, open_node, open_found, open_file, held, file_answer,
  read_found, read_file, answered, emptied, append_found, append_to_file, measured, close_found,
  close_file,
}

-- No file has the path as a beginning, or the newest one that has it is not open by this client.
abbrev pub Barred : Text → ℕ → List Entry → Type 0
Barred p fd es =
    (newest p es ≡ none)
    ⊎ ((pre : List Entry) × (a : ℕ) × (x : File) × (post : List Entry) × (es ≡ pre ++ (a, x) ∷ post)
        × Leads p pre x
        × (is_fd fd x.fd_client_id ≡ false))

-- What a search gives to a client that may not use the file.
Lost : ℕ → Server → Option ℕ → Type 0
Lost fd v found =
    (found ≡ none)
    ⊎ ((b : ℕ) × (n : Node) × (found ≡ some b)
        × (v.storage.heap b ≡ some n)
        × (is_fd fd n.file.fd_client_id ≡ false))

lost :
    (p : Text) (fd : ℕ) (es : List Entry) (v : Server)
    → Stored es v.storage
    → Barred p fd es
    → (found : Option ℕ) × (search_file_node p v.storage ≡ some found) × Lost fd v found
unfolding Lost
lost p fd es v s (inl missing) =
    (none, search_file_node-newest p es v.storage s ∙ ap some missing, inl refl)
lost p fd es v s (inr (pre, a, x, post, same, l, other)) =
    let s' = subst (λ es. Stored es v.storage) same s in
    (
      some a,
      search_file_node-Leads p pre post a x v.storage s' l,
      inr (a, node_of pre x post, refl, heap-Stored pre post a x v.storage s', other),
    )

-- The three handlers of a file that is open, behind the search.
Refuses : (Option ℕ → Request → Server → Result) → Request → Server → Option ℕ → Type 0
Refuses handler r v found = handler found r v ≡ some (ko, v)

held_refused :
    (use_of : Node → Result) (b : ℕ) (n : Node) (r : Request) (v : Server)
    → v.storage.heap b ≡ some n
    → is_fd r.fd_client_id n.file.fd_client_id ≡ false
    → (v.storage.heap b >>= λ n. held r n (ko, v) (use_of n)) ≡ some (ko, v)
held_refused use_of b n r v at other =
    ap (λ o. o >>= λ n. held r n (ko, v) (use_of n)) at ∙ if_no (use_of n) (some (ko, v)) other

found_refused :
    (r : Request) (v : Server) (found : Option ℕ)
    → Lost r.fd_client_id v found
    → Refuses read_found r v found × Refuses append_found r v found × Refuses close_found r v found
unfolding Lost Refuses
found_refused r v found (inl e) = rw e (refl, refl, refl)
found_refused r v found (inr (b, n, e, at, other)) = rw e (
  held_refused (λ n. some (file_answer n.file, v)) b n r v at other,
  held_refused
      (λ n.
        update_file b r.fd_client_id r.sms_content (emptied v.storage) >>= λ u. some (answered v u))
      b n r v at other,
  held_refused (λ n. some (ok, put (set_fd b n none v.storage) v)) b n r v at other,
)

-- On a sound storage a read, an append and a close of a path that is not empty and has no comma, and that
-- no file begins with or whose newest file the client does not have open, are answered with -1, and the storage stays as it was: only an
-- append takes the measures for the statistics.
pub refused :
    (c : ℕ) (p : Text) (es : List Entry) (r : Request) (v : Server)
    → r.sms_info ≡ c ∷ p
    → Avoids b',' (c ∷ p)
    → Stored es v.storage
    → Barred (c ∷ p) r.fd_client_id es
    → (read_file r v ≡ some (ko, v))
      × (append_to_file r v ≡ some (ko, measured v))
      × (close_file r v ≡ some (ko, v))
unfolding read_file append_to_file close_file Refuses
refused c p es r v e a s barred =
    let (found, at, l) = lost (c ∷ p) r.fd_client_id es v s barred in
    let (x, y, z) = found_refused r v found l in
    let t : strtok_r b',' r.sms_info ≡ some (c ∷ p, []) =
      ap (strtok_r b',') e ∙ strtok_r-Avoids b',' c p a in
    (
      ap (λ o. o >>= λ t. search_file_node t.0 v.storage >>= λ f. read_found f r v) t
          ∙ ap (λ o. o >>= λ f. read_found f r v) at
          ∙ x,
      ap
            (λ o. o >>= λ t. search_file_node t.0 v.storage >>= λ f.
              append_found f r v >>= λ e. some (e.0, measured e.1))
            t
          ∙ ap (λ o. o >>= λ f. append_found f r v >>= λ e. some (e.0, measured e.1)) at
          ∙ ap (λ o. o >>= λ e. some (e.0, measured e.1)) y,
      ap (λ p. search_file_node p v.storage >>= λ f. close_found f r v) e
          ∙ ap (λ o. o >>= λ f. close_found f r v) at
          ∙ z,
    )

-- How an open of a file that is there can end.
abbrev pub Opens : Bool → ℕ → List Entry → ℕ → File → List Entry → Server → Result → Type 0
Opens create fd pre a x post v result =
    (((create ≡ true) ⊎ (is_closed x.fd_client_id ≡ false)) × (result ≡ some (ko, v)))
    ⊎ ((create ≡ false)
        × (is_closed x.fd_client_id ≡ true)
        × ((h : Heap) × (result ≡ some (ok, put (record v.storage { heap = h }) v))
            × Stored (pre ++ (a, record x { fd_client_id = some fd }) ∷ post)
                (record v.storage { heap = h })))

open_node-Opens :
    (pre post : List Entry) (b : ℕ) (x : File) (r : Request) (v : Server)
    → Stored (pre ++ (b, x) ∷ post) v.storage
    → Opens false r.fd_client_id pre b x post v (open_node b r v)
open_node-Opens pre post b x r v s =
    let n : Node = node_of pre x post in
    let s' : Storage = set_fd b n (some r.fd_client_id) v.storage in
    let start =
      ap
        (λ o. o >>= λ n.
          if is_closed n.file.fd_client_id
          then some (ok, put (set_fd b n (some r.fd_client_id) v.storage) v)
          else some (ko, v))
        (heap-Stored pre post b x v.storage s) in
    elim (Bool-cases (is_closed x.fd_client_id)) [
      | inl free ↦ inr (
        refl,
        free,
        (
          s'.heap,
          start ∙ if_yes (some (ok, put s' v)) (some (ko, v)) free,
          store-Stored pre post b x (record x { fd_client_id = some r.fd_client_id }) v.storage s
              refl,
        ),
      )
      | inr taken ↦ inl (inr taken, start ∙ if_no (some (ok, put s' v)) (some (ko, v)) taken)
    ]

-- An open behind its search.
pub open_file-found :
    (a c : ℕ) (p : Text) (create : Bool) (found : Option ℕ) (r : Request) (v : Server)
    → r.sms_info ≡ (c ∷ p) ++ b',' ∷ flag create
    → Avoids b',' (c ∷ p)
    → search_file_node (c ∷ p) v.storage ≡ some found
    → open_file a r v ≡ open_found a (c ∷ p) create (not create) found r v
unfolding open_file
open_file-found a c p create found r v e h at =
    let rest : Text × Text → Option ℕ → Result = λ t found. strtok_r b',' t.1 >>= λ flag.
    open_found a t.0 (begins (codes "1") flag.0) (begins (codes "0") flag.0) found r v in
    ap (λ i. strtok_r b',' i >>= λ t. search_file_node t.0 v.storage >>= λ found. rest t found) e
    ∙ ap (λ o. o >>= λ t. search_file_node t.0 v.storage >>= λ found. rest t found)
        (strtok_r-append b',' c p (flag create) h)
    ∙ ap (λ o. o >>= λ found. rest (c ∷ p, flag create) found) at
    ∙ by_flag create
  where
    by_flag :
        (create : Bool)
        → (strtok_r b',' (flag create) >>= λ flag.
            open_found a (c ∷ p) (begins (codes "1") flag.0) (begins (codes "0") flag.0) found r v)
          ≡ open_found a (c ∷ p) create (not create) found r v
    by_flag true = unfold strtok_r strip_prefix in refl
    by_flag false = unfold strtok_r strip_prefix in refl

-- On a sound storage an open of a path that is not empty, has no comma and leads to a file is answered with
-- 0 exactly where it is not to create it and no client has it open: then this client has it, and the other
-- files, the head and the end of the list, the totals, the free memory, the buffer and the statistics stay. In any
-- other case the answer is -1 and nothing changes.
pub open_file-Opens :
    (a b c fd : ℕ) (p : Text) (create : Bool) (pre post : List Entry) (x : File) (r : Request)
    (v : Server)
    → r.sms_info ≡ (c ∷ p) ++ b',' ∷ flag create
    → r.fd_client_id ≡ fd
    → Avoids b',' (c ∷ p)
    → Stored (pre ++ (b, x) ∷ post) v.storage
    → Leads (c ∷ p) pre x
    → Opens create fd pre b x post v (open_file a r v)
open_file-Opens a b c fd p create pre post x r v e f h s l =
    let at = search_file_node-Leads (c ∷ p) pre post b x v.storage s l in
    subst (λ fd. Opens create fd pre b x post v (open_file a r v)) f
      (subst (Opens create r.fd_client_id pre b x post v)
        (sym (open_file-found a c p create (some b) r v e h at)) (by_flag create))
  where
    by_flag :
        (create : Bool)
        → Opens create r.fd_client_id pre b x post v
            (open_found a (c ∷ p) create (not create) (some b) r v)
    by_flag true = inl (inl refl, refl)
    by_flag false = open_node-Opens pre post b x r v s
