-- ===== src/Storage/Unlinked.antt =====
-- The steps of a removal at an end of the list.
use lso_project.Prelude.{
  ℕ, ◌+◌, ◌≡◌, refl, sym, ap, ◌∙◌, ◌≢◌, true, Option, none, some, List, [], ◌∷◌, ◌++◌, arith,
  if◌then◌else◌, All, length-append,
}
use lso_project.Storage.{
  File, Node, Storage, ◌>>=◌, update, store, is_removable, unlink, freed, Removal, kept, gone,
  remove_node, remove_file,
}
use lso_project.Storage.Chain.{
  Entry, last_or, Off, son_of, Chain, Stored, update-same, update-other, Chain-update, Chain-split,
  Apart-split, Chain-join, Apart-join, Off-All, All-less, last_or-append, first-append,
  sizes-append,
}

-- A removal of the node a that leaves a sound storage with the files es, room for one file more, the
-- path in the buffer, and all other nodes as they were.
abbrev pub Leaves : List Entry → ℕ → File → Storage → Option Removal → Type 0
Leaves es a x s o =
    (cur : Option ℕ) × (s' : Storage) × (o ≡ some (gone cur s'))
    × Stored es s'
    × (s'.rm_path ≡ s.rm_path ++ x.pathname ∷ [])
    × ((s'.nfile_dispo ≡ s.nfile_dispo + 1) × (s'.ram_dispo ≡ s.ram_dispo + x.file_sz))
    × ((c : ℕ) → a ≢ c → Off c es → s'.heap c ≡ s.heap c)

pub by_unlink :
    (a : ℕ) (n : Node) (s : Storage) {cur : Option ℕ} {u : Storage}
    → s.heap a ≡ some n
    → is_removable n.file ≡ true
    → unlink a n.son n.father s ≡ some (cur, u)
    → remove_file a s ≡ some (gone cur (freed a n.file u))
unfolding remove_file
by_unlink a n s h r l =
    ap (λ o. o >>= λ n. if is_removable n.file then remove_node a n s else some kept) h
    ∙ ap (λ b. if b then remove_node a n s else some kept) r
    ∙ ap (λ o. o >>= λ r. some (gone r.0 (freed a n.file r.1))) l

pub remove-only :
    (a : ℕ) (x : File) (s : Storage)
    → Stored ((a, x) ∷ []) s
    → is_removable x ≡ true
    → Leaves [] a x s (remove_file a s)
remove-only a x s v r = (
  none,
  freed a x (record s { head = none; last = none }),
  by_unlink a (record { file = x; son = none; father = none }) s v.chain.0 r refl,
  record {
    chain = tt;
    apart = tt;
    at_head = refl;
    at_last = refl;
    files = omega (arith, v.files);
    bytes = omega (arith, v.bytes);
  },
  refl,
  (refl, refl),
  λ c ne off. update-other a c none s.heap ne,
)

pub remove-head :
    (a b : ℕ) (x y : File) (es : List Entry) (s : Storage)
    → Stored ((a, x) ∷ (b, y) ∷ es) s
    → is_removable x ≡ true
    → Leaves ((b, y) ∷ es) a x s (remove_file a s)
remove-head a b x y es s v r =
    let m : Node = record { file = y; son = son_of es none; father = some a } in
    let h' = update b (some (record m { father = none })) s.heap in
    let linked : unlink a (some b) none s
        ≡ some (none, store b (record m { father = none }) (record s { head = some b })) =
      ap
        (λ o.
          o
          >>= (λ n. some (store b (record n { father = none }) (record s { head = some b })))
          >>= λ u. some (none, u))
        v.chain.1.0 in
    (
      none,
      freed a x (store b (record m { father = none }) (record s { head = some b })),
      by_unlink a (record { file = x; son = some b; father = none }) s v.chain.0 r linked,
      record {
        chain = Chain-update a none h' none none ((b, y) ∷ es) v.apart.0 (
          update-same b (some (record m { father = none })) s.heap,
          Chain-update b (some (record m { father = none })) s.heap (some b) none es v.apart.1.0
              v.chain.1.1,
        );
        apart = v.apart.1;
        at_head = refl;
        at_last = v.at_last;
        files = omega (arith, v.files);
        bytes = omega (arith, v.bytes);
      },
      refl,
      (refl, refl),
      λ c ne off.
          update-other a c none h' ne
          ∙ update-other b c (some (record m { father = none })) s.heap (λ q. off.0 (sym q)),
    )

pub remove-last :
    (pre : List Entry) (a f : ℕ) (x y : File) (s : Storage)
    → Stored (pre ++ (f, y) ∷ (a, x) ∷ []) s
    → is_removable x ≡ true
    → Leaves (pre ++ (f, y) ∷ []) a x s (remove_file a s)
remove-last pre a f x y s v r =
    let (l, c) = Chain-split s.heap none none pre ((f, y) ∷ (a, x) ∷ []) v.chain in
    let (la, ra, o) = Apart-split pre ((f, y) ∷ (a, x) ∷ []) v.apart in
    let m : Node = record { file = y; son = some a; father = last_or none pre } in
    let m' : Node = record m { son = none } in
    let u : Storage = store f m' (record s { last = some f }) in
    let linked : unlink a none (some f) s ≡ some (some f, u) =
      ap
        (λ o.
          o
          >>= (λ n. some (store f (record n { son = none }) (record s { last = some f })))
          >>= λ u. some (some f, u))
        c.0 in
    let fs : List Entry = (f, y) ∷ [] in
    let off_a : Off a fs = (λ q. ra.0.0 (sym q), tt) in
    let pre_kept : Chain (update f (some m') s.heap) none pre (some f) =
      Chain-update f (some m') s.heap none (some f) pre (Off-All f y ((a, x) ∷ []) pre o) l in
    let less = All-less f y ((a, x) ∷ []) pre o in
    (
      some f,
      freed a x u,
      by_unlink a (record { file = x; son = none; father = some f }) s c.1.0 r linked,
      record {
        chain =
            Chain-join (update a none u.heap) none none pre fs
              (Chain-update a none u.heap none (some f) pre (Off-All a x [] pre less) pre_kept)
              (Chain-update a none u.heap (last_or none pre) none fs off_a
                (update-same f (some m') s.heap, tt));
        apart = Apart-join pre fs la (tt, tt) (only pre o);
        at_head = v.at_head ∙ first-append pre ((f, y) ∷ (a, x) ∷ []) ∙ sym (first-append pre fs);
        at_last = sym (last_or-append none pre fs);
        files =
            omega (arith, v.files, length-append pre ((f, y) ∷ (a, x) ∷ []), length-append pre fs);
        bytes =
            omega (arith, v.bytes, sizes-append pre ((f, y) ∷ (a, x) ∷ []), sizes-append pre fs);
      },
      refl,
      (refl, refl),
      λ c ne off.
          update-other a c none u.heap ne
          ∙ update-other f c (some m') s.heap (apart_from_last c pre off),
    )
  where
    only :
        (pre : List Entry)
        → All (λ e. Off e.0 ((f, y) ∷ (a, x) ∷ [])) pre
        → All (λ e. Off e.0 ((f, y) ∷ [])) pre
    only [] h = tt
    only (e ∷ es) h = ((h.0.0, tt), only es h.1)

    apart_from_last : (c : ℕ) (pre : List Entry) → Off c (pre ++ (f, y) ∷ []) → f ≢ c
    apart_from_last c [] h = λ q. h.0 (sym q)
    apart_from_last c (e ∷ es) h = apart_from_last c es h.1
