-- ===== src/Server/Worker/Several.antt =====
-- The reading of several files, whichever the storage has.
use lso_project.Prelude.{
  ℕ, zero, suc, ◌+◌, ◌-◌, ◌≤◌, ◌≡◌, refl, sym, ap, ◌∙◌, Bool, true, false, Option, none, some, List,
  [], ◌∷◌, ◌++◌, ◌>>=◌, arith, ◌==◌, if◌then◌else◌, length, append_assoc, Text,
}
use mathlib.Core.Path.{subst}
use lso_project.Storage.{File, Node, Storage}
use lso_project.Storage.Chain.{Entry, first, son_of, Stored}
use lso_project.Storage.Refilled.{node_of, heap-Stored, store-Stored}
use lso_project.Server.Cstring.{strtol}
use lso_project.Server.Request.{Request}
use lso_project.Server.Worker.{
  Server, Result, ok, ko, put, set_fd, file_answer, and_then, read_loop, wanted, read_n_files,
}

-- The messages with the first n files that have a content, from the newest on.
abbrev pub shown : ℕ → List Entry → Text
shown zero es = []
shown (suc n) [] = []
shown (suc n) ((a, x) ∷ es) = elim x.modified [
  | false ↦ shown (suc n) es
  | true ↦ file_answer x ++ shown n es
]

-- These files are closed, whoever had them open.
abbrev pub closed : ℕ → List Entry → List Entry
closed zero es = es
closed (suc n) [] = []
closed (suc n) ((a, x) ∷ es) = elim x.modified [
  | false ↦ (a, x) ∷ closed (suc n) es
  | true ↦ (a, record x { fd_client_id = none }) ∷ closed n es
]

abbrev pub filled_files : List Entry → ℕ
filled_files [] = 0
filled_files ((a, x) ∷ es) = (if x.modified then 1 else 0) + filled_files es

Reads : ℕ → List Entry → List Entry → Option (Text × ℕ × Storage) → Type 0
Reads n pre es result =
    (s : Storage) × (result ≡ some (shown n es, n - filled_files es, s))
    × Stored (pre ++ closed n es) s

first-son_of : (es : List Entry) → son_of es none ≡ first es
first-son_of [] = refl
first-son_of (e ∷ es) = refl

-- A list with an entry moved from its second part to the first.
shift : (pre es : List Entry) (e : Entry) → pre ++ e ∷ es ≡ (pre ++ e ∷ []) ++ es
shift pre es e = sym (append_assoc pre (e ∷ []) es)

module _ (fuel n a : ℕ) (x : File) (pre es : List Entry) (s : Storage) where
  -- What the loop and its description do by the test of the file.
  abbrev branch : Node → Bool → Option (Text × ℕ × Storage)
  branch y b = elim b [
    | false ↦ read_loop fuel (suc n) y.son s
    | true ↦ and_then (file_answer y.file) (read_loop fuel n y.son (set_fd a y none s))
  ]

  abbrev shown_by : Bool → Text
  shown_by b = elim b [ false ↦ shown (suc n) es | true ↦ file_answer x ++ shown n es ]

  abbrev closed_by : Bool → List Entry
  closed_by b = elim b [
    | false ↦ (a, x) ∷ closed (suc n) es
    | true ↦ (a, record x { fd_client_id = none }) ∷ closed n es
  ]

  ReadsBy : Bool → Option (Text × ℕ × Storage) → Type 0
  ReadsBy b result =
      (z : Storage) × (result
        ≡ some (shown_by b, suc n - ((if b then 1 else 0) + filled_files es), z))
      × Stored (pre ++ closed_by b) z

  at_file :
      Stored (pre ++ (a, x) ∷ es) s
      → ((m : ℕ) (y : File) (z : Storage)
          → Stored ((pre ++ (a, y) ∷ []) ++ es) z
          → Reads m (pre ++ (a, y) ∷ []) es (read_loop fuel m (first es) z))
      → (b : Bool) → ReadsBy b (branch (node_of pre x es) b)
  unfolding Reads ReadsBy
  at_file v go false =
      let (z, p, w) = go (suc n) x s (subst (λ es. Stored es s) (shift pre es (a, x)) v) in
      (
        z,
        ap (λ c. read_loop fuel (suc n) c s) (first-son_of es)
            ∙ p
            ∙ ap (λ k. some (shown (suc n) es, k, z)) (omega arith),
        subst (λ es. Stored es z) (sym (shift pre (closed (suc n) es) (a, x))) w,
      )
  at_file v go true =
      let y : File = record x { fd_client_id = none } in
      let s' : Storage = set_fd a (node_of pre x es) none s in
      let v' = store-Stored pre es a x y s v refl in
      let (z, p, w) = go n y s' (subst (λ es. Stored es s') (shift pre es (a, y)) v') in
      (
        z,
        ap (λ c. and_then (file_answer x) (read_loop fuel n c s')) (first-son_of es)
            ∙ ap (and_then (file_answer x)) p
            ∙ ap (λ k. some (file_answer x ++ shown n es, k, z)) (omega arith),
        subst (λ es. Stored es z) (sym (shift pre (closed n es) (a, y))) w,
      )

read_loop-Reads :
    (fuel n : ℕ) (pre es : List Entry) (s : Storage)
    → Stored (pre ++ es) s
    → length es ≤ fuel
    → Reads n pre es (read_loop fuel n (first es) s)
unfolding Reads ReadsBy
read_loop-Reads fuel zero pre es s v h = (s, ap (λ k. some ([], k, s)) (omega arith), v)
read_loop-Reads fuel (suc n) pre [] s v h = (s, ap (λ k. some ([], k, s)) (omega arith), v)
read_loop-Reads zero (suc n) pre (e ∷ es) s v h = absurd (omega arith)
read_loop-Reads (suc fuel) (suc n) pre ((a, x) ∷ es) s v h =
    let (z, p, w) =
      at_file fuel n a x pre es s v
        (λ m y z v. read_loop-Reads fuel m (pre ++ (a, y) ∷ []) es z v (omega arith)) x.modified in
    (
      z,
      ap (λ o. o >>= λ y. branch fuel n a x pre es s y y.file.modified) (heap-Stored pre es a x s v)
          ∙ p,
      w,
    )

-- On a sound storage a client asks for n files, and 0 stands for as many as there is room for: the
-- newest ones with a content are sent to it, n at most, and then 0, or -1 where there was none or none
-- was asked for. The storage is sound again, and each file that was sent is closed, also where another
-- client has it open.
pub read_n_files-sent :
    (r : Request) (es : List Entry) (v : Server) (n : ℕ)
    → Stored es v.storage
    → wanted (strtol r.sms_info).0 v.storage ≡ n
    → (s : Storage) × (read_n_files r v
        ≡ some (shown n es ++ (if (n - filled_files es) == n then ko else ok), put s v))
      × Stored (closed n es) s
unfolding read_n_files Reads
read_n_files-sent r es v n s e =
    let fuel : ℕ = v.storage.nfile_tot in
    let (z, p, w) = read_loop-Reads fuel n [] es v.storage s (omega (arith, s.files)) in
    let answer : ℕ → Option (Text × ℕ × Storage) → Result =
      λ n o. o >>= λ e. some (e.0 ++ (if e.1 == n then ko else ok), put e.2 v) in
    (
      z,
      ap (λ n. answer n (read_loop fuel n v.storage.head v.storage)) e
          ∙ ap (λ h. answer n (read_loop fuel n h v.storage)) s.at_head
          ∙ ap (answer n) p,
      w,
    )
