-- ===== src/Storage/Filled.antt =====
-- The end of UpdateFile, where there is room for the content.
use lso_project.Prelude.{
  ℕ, zero, suc, ◌+◌, ◌-◌, ◌≤◌, ◌≡◌, refl, sym, ap, ◌∙◌, Bool, true, false, Option, none, some, List,
  [], ◌∷◌, ◌++◌, arith, if◌then◌else◌, ltb, length, Text,
}
use lso_project.Storage.{File, Node, Storage, ◌>>=◌, update, store}
use lso_project.Storage.Memory.{make_and_fill, memory_rounds, is_fd, filled, fill}
use lso_project.Storage.Chain.{
  Entry, last_or, son_of, Stored, update-same, Chain-update, Chain-split, Apart-split, Chain-join,
  Apart-join, Off-All, last_or-append, first-append, sizes-append,
}

pub if_no {ℓ} : {A : Type ℓ} {b : Bool} (x y : A) → b ≡ false → (if b then x else y) ≡ y
if_no x y e = ap (λ b. if b then x else y) e

pub if_yes {ℓ} : {A : Type ℓ} {b : Bool} (x y : A) → b ≡ true → (if b then x else y) ≡ x
if_yes x y e = ap (λ b. if b then x else y) e

-- The storage after a file of the list got another content, of which the room is taken.
abbrev pub written : ℕ → Node → File → ℕ → Storage → Storage
written a n y size s = record (store a (record n { file = y }) s) { ram_dispo = s.ram_dispo - size }

length-replace :
    (a : ℕ) (x y : File) (pre post : List Entry)
    → length (pre ++ (a, y) ∷ post) ≡ length (pre ++ (a, x) ∷ post)
length-replace a x y [] post = refl
length-replace a x y (e ∷ pre) post = ap suc (length-replace a x y pre post)

pub written-Stored :
    (a size : ℕ) (x y : File) (pre post : List Entry) (n : Node) (s : Storage)
    → Stored (pre ++ (a, x) ∷ post) s
    → s.heap a ≡ some n
    → n ≡ record { file = x; son = son_of post none; father = last_or none pre }
    → y.file_sz ≡ x.file_sz + size
    → size ≤ s.ram_dispo
    → Stored (pre ++ (a, y) ∷ post) (written a n y size s)
written-Stored a size x y pre post n s v at same more room =
    let (l, r) = Chain-split s.heap none none pre ((a, x) ∷ post) v.chain in
    let (al, ar, o) = Apart-split pre ((a, x) ∷ post) v.apart in
    let refill : Node → Option Node = λ n. some (record n { file = y }) in
    let new : Option Node = refill n in
    record {
      chain =
          Chain-join (update a new s.heap) none none pre ((a, y) ∷ post)
            (Chain-update a new s.heap none (some a) pre (Off-All a x post pre o) l)
            (
              update-same a new s.heap ∙ ap refill same,
              Chain-update a new s.heap (some a) none post ar.0 r.1,
            );
      apart = Apart-join pre ((a, y) ∷ post) al ar o;
      at_head =
          v.at_head ∙ first-append pre ((a, x) ∷ post) ∙ sym (first-append pre ((a, y) ∷ post));
      at_last =
          v.at_last
          ∙ last_or-append none pre ((a, x) ∷ post)
          ∙ sym (last_or-append none pre ((a, y) ∷ post));
      files = omega (arith, v.files, length-replace a x y pre post);
      bytes = omega (
        arith,
        v.bytes,
        more,
        room,
        sizes-append pre ((a, x) ∷ post),
        sizes-append pre ((a, y) ∷ post),
      );
    }

pub memory_rounds-enough :
    (size k : ℕ) (cur : Option (Option ℕ)) (s : Storage)
    → size ≤ s.ram_dispo
    → memory_rounds size k cur s ≡ some s
memory_rounds-enough size zero cur s room = refl
memory_rounds-enough size (suc k) cur s room =
    let enough : ltb s.ram_dispo size ≡ false = ground arith in rw enough refl

pub make_and_fill-room :
    (a fd : ℕ) (content : Text) (n : Node) (s : Storage)
    → s.heap a ≡ some n
    → is_fd fd n.file.fd_client_id ≡ true
    → length content ≤ s.ram_dispo
    → make_and_fill a fd content s
      ≡ some (true, written a n (filled content n.file) (length content) s)
make_and_fill-room a fd content n s at mine room =
    let size : ℕ = length content in
    let enough : ltb s.ram_dispo size ≡ false = ground arith in
    let end : Storage → Option (Bool × Storage) =
      λ z. if ltb z.ram_dispo size then some (false, z) else fill a fd content z in
    let w : Storage = record (store a (record n { file = filled content n.file }) s) {
      ram_dispo = s.ram_dispo - size;
    } in
    ap (λ o. o >>= end) (if_no _ (some s) enough)
    ∙ if_no (some (false, s)) (fill a fd content s) enough
    ∙ ap
        (λ o. o >>= λ n.
          if is_fd fd n.file.fd_client_id
          then some (
            true,
            record (store a (record n { file = filled content n.file }) s) {
              ram_dispo = s.ram_dispo - size;
            },
          )
          else some (false, s))
        at
    ∙ if_yes (some (true, w)) (some (false, s)) mine

-- The file at the end of its list has the content, and its room is taken.
abbrev pub Filled : List Entry → ℕ → File → List Entry → Text → Option (Bool × Storage) → Type 0
Filled pre a x post content result =
    (s' : Storage) × (result ≡ some (true, s')) × Stored (pre ++ (a, filled content x) ∷ post) s'

pub make_and_fill-Filled :
    (a fd : ℕ) (content : Text) (x : File) (pre post : List Entry) (s : Storage)
    → Stored (pre ++ (a, x) ∷ post) s
    → is_fd fd x.fd_client_id ≡ true
    → length content ≤ s.ram_dispo
    → Filled pre a x post content (make_and_fill a fd content s)
make_and_fill-Filled a fd content x pre post s v mine room =
    let (_, r) = Chain-split s.heap none none pre ((a, x) ∷ post) v.chain in
    let n : Node = record { file = x; son = son_of post none; father = last_or none pre } in
    (
      written a n (filled content x) (length content) s,
      make_and_fill-room a fd content n s r.0 mine room,
      written-Stored a (length content) x (filled content x) pre post n s v r.0 refl refl room,
    )
