-- ===== src/Storage/Insert.antt =====
-- A new file in the storage.
use lso_project.Prelude.{
  ℕ, zero, suc, ◌+◌, ◌<◌, ◌≡◌, refl, sym, ap, ◌∙◌, ◌≢◌, ◌⊎◌, inl, inr, Bool, true, false, Option,
  none, some, List, [], ◌∷◌, ◌++◌, arith, ◌==◌, if◌then◌else◌, append-nil,
}
use mathlib.Core.Path.{subst}
use lso_project.Storage.{
  File, Node, Heap, Storage, ◌>>=◌, store, set_father, is_removable, Removal, kept, gone,
  remove_file, make_room, room_rounds, link, take_place, insert_create_file,
}
use lso_project.Storage.Chain.{
  Entry, Off, son_of, Chain, Stored, update-same, update-other, Chain-update, last_or-append,
}
use lso_project.Storage.Removed.{ends-Leaves}

-- A node that was just created, off the list.
abbrev pub fresh_node : File → Node
fresh_node x = record { file = x; son = none; father = none }

Linked : List Entry → Storage → Option (Bool × Storage) → Type 0
Linked es s o =
    (s' : Storage) × (o ≡ some (true, s'))
    × Stored es s'
    × (s'.rm_path ≡ s.rm_path)
    × (s'.ram_dispo ≡ s.ram_dispo)

-- The end of `insertCreateFile`, where there is room.
finish : ℕ → Storage → Option (Bool × Storage)
finish a s =
    if s.nfile_dispo == 0
    then some (false, s)
    else (do u ← link a s.head s.last s; some (true, take_place u))

finish-room :
    (a : ℕ) (s u : Storage)
    → 0 < s.nfile_dispo
    → link a s.head s.last s ≡ some u
    → finish a s ≡ some (true, take_place u)
unfolding finish
finish-room a s u room l =
    let more : (s.nfile_dispo == 0) ≡ false = ground arith in
    ap
      (λ b.
        if b then some (false, s) else (do u ← link a s.head s.last s; some (true, take_place u)))
      more
    ∙ ap (λ o. o >>= λ u. some (true, take_place u)) l

finish-Linked :
    (a : ℕ) (x : File) (es : List Entry) (s : Storage)
    → Stored es s
    → x.file_sz ≡ 0
    → s.heap a ≡ some (fresh_node x)
    → Off a es
    → 0 < s.nfile_dispo
    → Linked ((a, x) ∷ es) s (finish a s)
unfolding Linked
finish-Linked a x [] s v empty at off room =
    let u : Storage = record s { head = some a; last = some a } in
    (
      take_place u,
      finish-room a s u room
          (ap (λ h. link a h s.last s) v.at_head ∙ ap (λ l. link a none l s) v.at_last),
      record {
        chain = (at, tt);
        apart = (tt, tt);
        at_head = refl;
        at_last = refl;
        files = omega (arith, v.files);
        bytes = omega (arith, v.bytes, empty);
      },
      refl,
      refl,
    )
finish-Linked a x ((b, y) ∷ es) s v empty at off room =
    let n : Node = record (fresh_node x) { son = some b } in
    let m : Node = record { file = y; son = son_of es none; father = none } in
    let m' : Node = record m { father = some a } in
    let w : Storage = store a n (record s { head = some a }) in
    let u : Storage = store b m' w in
    let old : w.heap b ≡ some m = update-other a b (some n) s.heap off.0 ∙ v.chain.0 in
    let linked : link a s.head s.last s ≡ some u =
      ap (λ h. link a h s.last s) v.at_head
      ∙ ap
          (λ o.
            o
            >>= (λ n. some (store a (record n { son = some b }) (record s { head = some a })))
            >>= λ z. set_father b (some a) z)
          at
      ∙ ap (λ o. o >>= λ n. some (store b (record n { father = some a }) w)) old in
    let rest : Chain u.heap (some b) es none =
      Chain-update b (some m') w.heap (some b) none es v.apart.0
        (Chain-update a (some n) s.heap (some b) none es off.1 v.chain.1) in
    (
      take_place u,
      finish-room a s u room linked,
      record {
        chain = (
          update-other b a (some m') w.heap (λ q. off.0 (sym q)) ∙ update-same a (some n) s.heap,
          (update-same b (some m') w.heap, rest),
        );
        apart = (off, v.apart);
        at_head = refl;
        at_last = v.at_last;
        files = omega (arith, v.files);
        bytes = omega (arith, v.bytes, empty);
      },
      refl,
      refl,
    )

make_room-enough :
    (n : ℕ) (c : Option ℕ) (s : Storage) → 0 < s.nfile_dispo → make_room n c s ≡ some s
make_room-enough zero c s room = refl
make_room-enough (suc n) none s room = refl
make_room-enough (suc n) (some a) s room =
    let more : (s.nfile_dispo == 0) ≡ false = ground arith in rw more refl

room_rounds-enough : (k : ℕ) (s : Storage) → 0 < s.nfile_dispo → room_rounds k s ≡ some s
room_rounds-enough zero s room = refl
room_rounds-enough (suc k) s room =
    let more : (s.nfile_dispo == 0) ≡ false = ground arith in rw more refl

-- The oldest file makes room.
make_room-last :
    (n b : ℕ) (m : Node) (cur : Option ℕ) (s s' : Storage)
    → s.nfile_dispo ≡ 0
    → s.heap b ≡ some m
    → remove_file b s ≡ some (gone cur s')
    → 0 < s'.nfile_dispo
    → make_room (suc n) (some b) s ≡ some s'
make_room-last n b m cur s s' full h r room =
    let no_room : (s.nfile_dispo == 0) ≡ true = ground arith in
    let body : Node → Removal → Option Storage =
      λ x r. elim r [ kept ↦ make_room n x.father s | gone next z ↦ make_room n next z ] in
    ap (λ b'. if b' then (s.heap b >>= λ x. remove_file b s >>= λ r. body x r) else some s) no_room
    ∙ ap (λ o. o >>= λ x. remove_file b s >>= λ r. body x r) h
    ∙ ap (λ o. o >>= λ r. body m r) r
    ∙ make_room-enough n cur s' room

room_rounds-last :
    (k b : ℕ) (m : Node) (cur : Option ℕ) (s s' : Storage)
    → s.nfile_dispo ≡ 0
    → s.last ≡ some b
    → s.heap b ≡ some m
    → remove_file b s ≡ some (gone cur s')
    → 0 < s'.nfile_dispo
    → room_rounds (suc k) s ≡ some s'
room_rounds-last k b m cur s s' full l h r room =
    let no_room : (s.nfile_dispo == 0) ≡ true = ground arith in
    let fuel : s.nfile_tot + 1 ≡ suc s.nfile_tot = omega arith in
    ap
      (λ b'. if b' then (make_room (s.nfile_tot + 1) s.last s >>= λ z. room_rounds k z) else some s)
      no_room
    ∙ ap (λ n. make_room n s.last s >>= λ z. room_rounds k z) fuel
    ∙ ap (λ c. make_room (suc s.nfile_tot) c s >>= λ z. room_rounds k z) l
    ∙ ap (λ o. o >>= λ z. room_rounds k z) (make_room-last s.nfile_tot b m cur s s' full h r room)
    ∙ room_rounds-enough k s' room

last_node :
    (h : Heap) (p : Option ℕ) (fs : List Entry) (b : ℕ) (y : File)
    → Chain h p (fs ++ (b, y) ∷ []) none
    → (m : Node) × (h b ≡ some m)
last_node h p [] b y c = (_, c.0)
last_node h p (e ∷ fs) b y c = last_node h (some e.0) fs b y c.1

-- Which files stay: all where there is room, and all but the oldest one, which nobody has open and
-- which has a content, where the storage is full.
abbrev pub Stays : List Entry → List Entry → Storage → Type 0
Stays es keep s =
    ((0 < s.nfile_dispo) × (keep ≡ es))
    ⊎ ((s.nfile_dispo ≡ 0)
        × ((b : ℕ) × (y : File) × (es ≡ keep ++ (b, y) ∷ []) × (is_removable y ≡ true)))

evicted :
    (a b : ℕ) (x y : File) (keep : List Entry) (s : Storage)
    → Stored (keep ++ (b, y) ∷ []) s
    → x.file_sz ≡ 0
    → s.heap a ≡ some (fresh_node x)
    → Off a (keep ++ (b, y) ∷ [])
    → s.nfile_dispo ≡ 0
    → is_removable y ≡ true
    → (s' : Storage) × (insert_create_file a s ≡ some (true, s')) × Stored ((a, x) ∷ keep) s'
unfolding insert_create_file finish Linked
evicted a b x y keep s v empty at off full r =
    let (m, h) = last_node s.heap none keep b y v.chain in
    let (cur, z, p, w, q, one, others) = ends-Leaves keep [] b y s v r (inr refl) in
    let w' : Stored keep z = subst (λ es. Stored es z) (append-nil keep) w in
    let room : 0 < z.nfile_dispo = omega (arith, one.0) in
    let rounds =
      room_rounds-last 29 b m cur s z full (v.at_last ∙ last_or-append none keep ((b, y) ∷ [])) h p
        room in
    let there : z.heap a ≡ some (fresh_node x) =
      others a (differs keep off) (subst (Off a) (sym (append-nil keep)) (front keep off)) ∙ at in
    let (s', l, k, _, _) = finish-Linked a x keep z w' empty there (front keep off) room in
    (s', ap (λ o. o >>= finish a) rounds ∙ l, k)
  where
    differs : (keep : List Entry) → Off a (keep ++ (b, y) ∷ []) → b ≢ a
    differs [] h = λ q. h.0 (sym q)
    differs (e ∷ es) h = differs es h.1

    front : (keep : List Entry) → Off a (keep ++ (b, y) ∷ []) → Off a keep
    front [] h = tt
    front (e ∷ es) h = (h.0, front es h.1)

-- Where there is room, no file goes and no byte is taken.
pub insert_create_file-room :
    (a : ℕ) (x : File) (es : List Entry) (s : Storage)
    → Stored es s
    → x.file_sz ≡ 0
    → s.heap a ≡ some (fresh_node x)
    → Off a es
    → 0 < s.nfile_dispo
    → (s' : Storage) × (insert_create_file a s ≡ some (true, s'))
      × Stored ((a, x) ∷ es) s'
      × (s'.rm_path ≡ s.rm_path)
      × (s'.ram_dispo ≡ s.ram_dispo)
unfolding insert_create_file finish Linked
insert_create_file-room a x es s v empty at off room =
    let (s', l, k, q, d) = finish-Linked a x es s v empty at off room in
    (s', ap (λ o. o >>= finish a) (room_rounds-enough 30 s room) ∙ l, k, q, d)

-- On a sound storage `insertCreateFile` of a new, empty node succeeds, where there is room for a file or
-- the oldest file can be removed: the storage is sound, the new file is its newest one, and behind
-- it stand the files from before, all of them where there was room, and all but the oldest one
-- where the storage was full.
pub insert_create_file-Stored :
    (a : ℕ) (x : File) (es keep : List Entry) (s : Storage)
    → Stored es s
    → x.file_sz ≡ 0
    → s.heap a ≡ some (fresh_node x)
    → Off a es
    → Stays es keep s
    → (s' : Storage) × (insert_create_file a s ≡ some (true, s')) × Stored ((a, x) ∷ keep) s'
unfolding insert_create_file finish Linked
insert_create_file-Stored a x es keep s v empty at off (inl (room, same)) =
    let (s', l, k, _, _) = insert_create_file-room a x es s v empty at off room in
    (s', l, subst (λ fs. Stored ((a, x) ∷ fs) s') (sym same) k)
insert_create_file-Stored a x es keep s v empty at off (inr (full, (b, y, same, r))) =
    evicted a b x y keep s (subst (λ fs. Stored fs s) same v) empty at (subst (Off a) same off) full
      r
