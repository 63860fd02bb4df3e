-- ===== src/Storage/Update.antt =====
-- A content that is added to a file of the storage.
use lso_project.Prelude.{
  ℕ, suc, ◌+◌, ◌-◌, ◌≤◌, ◌<◌, ◌≡◌, refl, sym, ap, ◌∙◌, ◌⊎◌, inl, inr, Bool, true, false, ◌&&◌, not,
  Option, none, some, List, [], ◌∷◌, ◌++◌, arith, if◌then◌else◌, ltb, length, Text, Bool-cases,
  ltb→lt, append_assoc, append-nil, length-append,
}
use mathlib.Core.Path.{subst}
use lso_project.Storage.{
  File, Node, Storage, ◌>>=◌, is_removable, Removal, kept, gone, remove_node, remove_file,
}
use lso_project.Storage.Memory.{
  make_memory, make_and_fill, memory_rounds, is_fd, fill, given_up, update_file,
}
use lso_project.Storage.Chain.{Entry, last_or, son_of, Stored, Chain-split, last_or-append}
use lso_project.Storage.Filled.{if_no, if_yes, Filled, make_and_fill-Filled, memory_rounds-enough}
use lso_project.Storage.Removed.{ends-Leaves}

not_larger : (t n : ℕ) (b : Bool) → n ≤ t → (ltb t n && b) ≡ false
not_larger t n b h = let e : ltb t n ≡ false = ground arith in rw e refl

pub update_file-behind :
    (a fd : ℕ) (content : Text) (n : Node) (s : Storage)
    → s.heap a ≡ some n
    → length content ≤ s.ram_tot
    → update_file a fd content s ≡ make_and_fill a fd content s
unfolding update_file
update_file-behind a fd content n s at fits =
    let body : Node → Option (Bool × Storage) = λ n.
      if ltb s.ram_tot (length content) && not n.file.modified
      then given_up a n s
      else make_and_fill a fd content s in
    ap (λ o. o >>= body) at
    ∙ if_no (given_up a n s) (make_and_fill a fd content s)
        (not_larger s.ram_tot (length content) (not n.file.modified) fits)

make_and_fill-stuck :
    (a fd b : ℕ) (content : Text) (s : Storage)
    → s.ram_dispo < length content
    → s.last ≡ some b
    → remove_file b s ≡ some kept
    → make_and_fill a fd content s ≡ none
make_and_fill-stuck a fd b content s full l r =
    let size : ℕ = length content in
    let no_room : ltb s.ram_dispo size ≡ true = ground arith in
    let end : Storage → Option (Bool × Storage) =
      λ z. if ltb z.ram_dispo size then some (false, z) else fill a fd content z in
    let fuel : s.nfile_tot + 1 ≡ suc s.nfile_tot = omega arith in
    let step : Option Removal → Option (Option (Option ℕ) × Storage) = λ o. o >>= λ r. elim r [
      | kept ↦ none
      | gone next s' ↦ make_memory size s.nfile_tot next (some next) s'
    ] in
    let inner : make_memory size (s.nfile_tot + 1) s.last none s ≡ none =
      ap (λ n. make_memory size n s.last none s) fuel
      ∙ ap (λ c. make_memory size (suc s.nfile_tot) c none s) l
      ∙ if_yes (step (remove_file b s)) (some (none, s)) no_room
      ∙ ap step r in
    let after : Option (Option (Option ℕ) × Storage) → Option Storage =
      λ o. o >>= λ r. memory_rounds size 29 r.0 r.1 in
    ap (λ o. o >>= end)
      (if_yes (after (make_memory size (s.nfile_tot + 1) s.last none s)) (some s) no_room
        ∙ ap after inner)

lt_or_le : (m n : ℕ) → (m < n) ⊎ (n ≤ m)
lt_or_le m n = elim (Bool-cases (ltb m n)) [
  | inl e ↦ inl (ltb→lt m n e)
  | inr e ↦ inr (ground arith)
]

remove_file-held :
    (b : ℕ) (n : Node) (s : Storage)
    → s.heap b ≡ some n
    → is_removable n.file ≡ false
    → remove_file b s ≡ some kept
unfolding remove_file
remove_file-held b n s at held =
    ap (λ o. o >>= λ n. if is_removable n.file then remove_node b n s else some kept) at
    ∙ if_no (remove_node b n s) (some kept) held

make_memory-enough :
    (size m : ℕ) (c : Option ℕ) (cur : Option (Option ℕ)) (s : Storage)
    → size ≤ s.ram_dispo
    → make_memory size (suc m) c cur s ≡ some (cur, s)
make_memory-enough size m none cur s room = refl
make_memory-enough size m (some a) cur s room =
    let enough : ltb s.ram_dispo size ≡ false = ground arith in rw enough refl

-- The oldest file leaves room enough.
memory_rounds-last :
    (size k b : ℕ) (next : Option ℕ) (s s' : Storage)
    → s.ram_dispo < size
    → 0 < s.nfile_tot
    → s.last ≡ some b
    → remove_file b s ≡ some (gone next s')
    → size ≤ s'.ram_dispo
    → memory_rounds size (suc k) none s ≡ some s'
memory_rounds-last size k b next s s' full any l r room =
    let no_room : ltb s.ram_dispo size ≡ true = ground arith in
    let enough : ltb s'.ram_dispo size ≡ false = ground arith in
    let m : ℕ = s.nfile_tot - 1 in
    let fuel : s.nfile_tot + 1 ≡ suc (suc m) = omega (arith, any) in
    let step : Option Removal → Option (Option (Option ℕ) × Storage) = λ o. o >>= λ r. elim r [
      | kept ↦ none
      | gone next z ↦ make_memory size (suc m) next (some next) z
    ] in
    let after : Option (Option (Option ℕ) × Storage) → Option Storage =
      λ o. o >>= λ r. memory_rounds size k r.0 r.1 in
    let inner : make_memory size (s.nfile_tot + 1) s.last none s ≡ some (some next, s') =
      ap (λ n. make_memory size n s.last none s) fuel
      ∙ ap (λ c. make_memory size (suc (suc m)) c none s) l
      ∙ if_yes (step (remove_file b s)) (some (none, s)) no_room
      ∙ ap step r
      ∙ make_memory-enough size m next (some next) s' room in
    if_yes (after (make_memory size (s.nfile_tot + 1) s.last none s)) (some s) no_room
    ∙ ap after inner
    ∙ memory_rounds-enough size k (some next) s' room

-- How `UpdateFile` goes: there is room, the oldest file makes room, or it cannot be removed.
abbrev pub Goes :
    Text → List Entry → Entry → List Entry → Entry → Storage → Option (Bool × Storage) → Type 0
Goes content pre e mid old s result =
    ((length content ≤ s.ram_dispo) × Filled pre e.0 e.1 (mid ++ old ∷ []) content result)
    ⊎ (((s.ram_dispo < length content)
          × (is_removable old.1 ≡ true)
          × Filled pre e.0 e.1 mid content result)
        ⊎ ((s.ram_dispo < length content) × (is_removable old.1 ≡ false) × (result ≡ none)))

make_and_fill-evicted :
    (a fd b : ℕ) (content : Text) (x y : File) (pre mid : List Entry) (s : Storage)
    → Stored (pre ++ (a, x) ∷ (mid ++ (b, y) ∷ [])) s
    → is_fd fd x.fd_client_id ≡ true
    → length content ≤ s.ram_dispo + y.file_sz
    → s.ram_dispo < length content
    → is_removable y ≡ true
    → Filled pre a x mid content (make_and_fill a fd content s)
make_and_fill-evicted a fd b content x y pre mid s v mine big full r =
    let keep : List Entry = pre ++ (a, x) ∷ mid in
    let w : Stored (keep ++ (b, y) ∷ []) s =
      subst (λ es. Stored es s) (sym (append_assoc pre ((a, x) ∷ mid) ((b, y) ∷ []))) v in
    let (next, z, p, k, _, more, _) = ends-Leaves keep [] b y s w r (inr refl) in
    let k' : Stored keep z = subst (λ es. Stored es z) (append-nil keep) k in
    let room : length content ≤ z.ram_dispo = omega (arith, big, more.1) in
    let any : 0 < s.nfile_tot = omega (arith, w.files, length-append keep ((b, y) ∷ [])) in
    let rounds =
      memory_rounds-last (length content) 29 b next s z full any
        (w.at_last ∙ last_or-append none keep ((b, y) ∷ [])) p room in
    let end : Storage → Option (Bool × Storage) =
      λ z. if ltb z.ram_dispo (length content) then some (false, z) else fill a fd content z in
    let same : make_and_fill a fd content z ≡ make_and_fill a fd content s =
      ap (λ o. o >>= end) (memory_rounds-enough (length content) 30 none z room)
      ∙ sym (ap (λ o. o >>= end) rounds) in
    subst (Filled pre a x mid content) same
      (make_and_fill-Filled a fd content x pre mid z k' mine room)

-- On a sound storage a client that has a file open, which is not the oldest one, adds to it a content
-- that is not larger than the whole storage, and for which there is room at least once the oldest
-- file is gone. Where there is room, or where the oldest file can be removed, `UpdateFile`
-- succeeds: the storage is sound and holds the same files, in the second case less the oldest one,
-- with the content at the end of the client's file. Where the oldest file is open or has no content
-- yet and there is no room, `UpdateFile` has no result: it goes on with `current_file`, which was
-- not set.
pub update_file-Goes :
    (a fd b : ℕ) (content : Text) (x y : File) (pre mid : List Entry) (s : Storage)
    → Stored (pre ++ (a, x) ∷ (mid ++ (b, y) ∷ [])) s
    → is_fd fd x.fd_client_id ≡ true
    → length content ≤ s.ram_tot
    → length content ≤ s.ram_dispo + y.file_sz
    → Goes content pre (a, x) mid (b, y) s (update_file a fd content s)
update_file-Goes a fd b content x y pre mid s v mine fits big =
    let old : List Entry = (b, y) ∷ [] in
    let (_, r) = Chain-split s.heap none none pre ((a, x) ∷ (mid ++ old)) v.chain in
    let n : Node = record { file = x; son = son_of (mid ++ old) none; father = last_or none pre } in
    let (_, m) = Chain-split s.heap (some a) none mid old r.1 in
    subst (Goes content pre (a, x) mid (b, y) s)
      (sym (update_file-behind a fd content n s r.0 fits))
      (elim (lt_or_le s.ram_dispo (length content)) [
        | inr room ↦ inl (room, make_and_fill-Filled a fd content x pre (mid ++ old) s v mine room)
        | inl full ↦ elim (Bool-cases (is_removable y)) [
          | inl free ↦ inr (
              inl (
                full,
                free,
                make_and_fill-evicted a fd b content x y pre mid s v mine big full free,
              ))
          | inr held ↦ inr (
              inr (
                full,
                held,
                make_and_fill-stuck a fd b content s full
                    (v.at_last
                      ∙ last_or-append none pre ((a, x) ∷ (mid ++ old))
                      ∙ last_or-append (some a) mid old)
                    (remove_file-held b _ s m.0 held),
              ))
        ]
      ])
