-- ===== src/Storage/Removed.antt =====
-- The removal of a file.
use lso_project.Prelude.{
  ℕ, suc, ◌+◌, ◌-◌, ◌≡◌, refl, sym, ap, ◌∙◌, ◌⊎◌, inl, inr, Bool, true, false, Option, none, some,
  List, [], ◌∷◌, ◌++◌, arith, if◌then◌else◌, length, Text, All, length-append, append_assoc,
  append-nil,
}
use mathlib.Core.Path.{subst}
use lso_project.Storage.{
  File, Node, Heap, Storage, ◌>>=◌, store, set_son, is_removable, unlink, freed, gone, remove_file,
  begins, search_from, search_file_node,
}
use lso_project.Storage.Chain.{
  Entry, last_or, Off, son_of, Chain, Stored, update-same, Chain-update, Chain-split, Apart-split,
  Off-All,
}
use lso_project.Storage.Unlinked.{Leaves, by_unlink, remove-only, remove-head, remove-last}

-- A list is empty, or it has a last element.
abbrev Ended : List Entry → Type 0
Ended es = (es ≡ []) ⊎ ((fs : List Entry) × (e : Entry) × (es ≡ fs ++ e ∷ []))

ended : (es : List Entry) → Ended es
ended [] = inl refl
ended (e ∷ es) = elim (ended es) [
  | inl none_left ↦ inr ([], e, ap (λ xs. e ∷ xs) none_left)
  | inr (fs, f, p) ↦ inr (e ∷ fs, f, ap (λ xs. e ∷ xs) p)
]

pub ends-Leaves :
    (pre post : List Entry) (a : ℕ) (x : File) (s : Storage)
    → Stored (pre ++ (a, x) ∷ post) s
    → is_removable x ≡ true
    → (pre ≡ []) ⊎ (post ≡ [])
    → Leaves (pre ++ post) a x s (remove_file a s)
ends-Leaves [] [] a x s v r side = remove-only a x s v r
ends-Leaves [] ((b, y) ∷ es) a x s v r side = remove-head a b x y es s v r
ends-Leaves (e ∷ es) (f ∷ fs) a x s v r side = elim side [ inl h ↦ cc | inr h ↦ cc ]
ends-Leaves (e ∷ es) [] a x s v r side = last_one (ended (e ∷ es)) (e ∷ es) refl v
  where
    last_one :
        Ended (e ∷ es)
        → (pre : List Entry) → e ∷ es ≡ pre
        → Stored (pre ++ (a, x) ∷ []) s
        → Leaves (pre ++ []) a x s (remove_file a s)
    last_one (inl h) pre q w = cc
    last_one (inr (fs, (f, y), p)) pre q w =
        let shape : pre ≡ fs ++ (f, y) ∷ [] = sym q ∙ p in
        let full : pre ++ (a, x) ∷ [] ≡ fs ++ (f, y) ∷ (a, x) ∷ [] =
          ap (λ xs. xs ++ (a, x) ∷ []) shape ∙ append_assoc fs ((f, y) ∷ []) ((a, x) ∷ []) in
        subst (λ xs. Leaves xs a x s (remove_file a s)) (sym (append-nil pre ∙ shape))
          (remove-last fs a f x y s (subst (λ xs. Stored xs s) full w) r)

-- On a sound storage `removeFile` of the newest or the oldest file, if nobody has it open and it has
-- a content, succeeds: the storage is sound and holds the other files in their order, so there is
-- room for its bytes and for one file more, and its path is in the buffer.
pub remove_file-ends :
    (pre post : List Entry) (a : ℕ) (x : File) (s : Storage)
    → Stored (pre ++ (a, x) ∷ post) s
    → is_removable x ≡ true
    → (pre ≡ []) ⊎ (post ≡ [])
    → (cur : Option ℕ) × (s' : Storage) × (remove_file a s ≡ some (gone cur s'))
      × Stored (pre ++ post) s'
      × (s'.rm_path ≡ s.rm_path ++ x.pathname ∷ [])
      × (s'.nfile_dispo ≡ s.nfile_dispo + 1)
remove_file-ends pre post a x s v r side =
    let (cur, s', p, w, q, m, _) = ends-Leaves pre post a x s v r side in (cur, s', p, w, q, m.0)

-- A search that comes to a node that was freed.
search_from-freed :
    (p : Text) (h : Heap) (father : Option ℕ) (pre : List Entry) (a m : ℕ)
    → Chain h father pre (some a)
    → All (λ e. begins p e.1.pathname ≡ false) pre
    → h a ≡ none
    → search_from (length pre + suc m) p (son_of pre (some a)) h ≡ none
search_from-freed p h father [] a m c away lost =
    let n : 0 + suc m ≡ suc m = omega arith in
    ap (λ n. search_from n p (some a) h) n
    ∙ ap
        (λ o.
          o >>= λ x. if begins p x.file.pathname then some (some a) else search_from m p x.son h)
        lost
search_from-freed p h father ((b, y) ∷ es) a m c away lost =
    let n : length ((b, y) ∷ es) + suc m ≡ suc (length es + suc m) = omega arith in
    ap (λ n. search_from n p (some b) h) n
    ∙ ap
        (λ o. o >>= λ x.
          if begins p x.file.pathname
          then some (some b)
          else search_from (length es + suc m) p x.son h)
        c.0
    ∙ ap
        (λ (t : Bool).
          if t then some (some b) else search_from (length es + suc m) p (son_of es (some a)) h)
        away.0
    ∙ search_from-freed p h (some b) es a m c.1 away.1 lost

-- The storage after the two pointers of the node itself were set, and the node was freed.
abbrev unlinked : ℕ → ℕ → Node → Storage → Storage
unlinked a b n s =
    store a (record n { father = some b; son = some b }) (store a (record n { father = some b }) s)

unlink-middle :
    (a b f : ℕ) (n : Node) (s : Storage)
    → s.heap a ≡ some n
    → unlink a (some b) (some f) s ≡ some (some b, unlinked a b n s)
unlink-middle a b f n s h =
    let n' : Node = record n { father = some b } in
    ap
      (λ o. o >>= (λ n. some (store a (record n { father = some b }) s)) >>= λ u.
        set_son a (some b) u >>= λ w. some (some b, w))
      h
    ∙ ap
        (λ o. o >>= (λ n. some (store a (record n { son = some b }) (store a n' s))) >>= λ w.
          some (some b, w))
        (update-same a (some n') s.heap)

last_of_cons :
    (p : Option ℕ) (c : Entry) (es : List Entry) → (f : ℕ) × (last_or p (c ∷ es) ≡ some f)
last_of_cons p c [] = (c.0, refl)
last_of_cons p c (e ∷ es) = last_of_cons (some c.0) e es

-- On a sound storage `removeFile` of a file between two others, if nobody has it open and it has a
-- content, frees its node and leaves it in the list: every search for a path with which the path of
-- no newer file begins then comes to the freed node.
pub remove_file-middle :
    (pre post : List Entry) (c d : Entry) (a : ℕ) (x : File) (p : Text) (s : Storage)
    → Stored ((c ∷ pre) ++ (a, x) ∷ d ∷ post) s
    → is_removable x ≡ true
    → All (λ e. begins p e.1.pathname ≡ false) (c ∷ pre)
    → (cur : Option ℕ) × (s' : Storage) × (remove_file a s ≡ some (gone cur s'))
      × (s'.heap a ≡ none)
      × (search_file_node p s' ≡ none)
unfolding search_file_node
remove_file-middle pre post c d a x p s v r away =
    let (l, m) = Chain-split s.heap none none (c ∷ pre) ((a, x) ∷ d ∷ post) v.chain in
    let (_, _, o) = Apart-split (c ∷ pre) ((a, x) ∷ d ∷ post) v.apart in
    let off : Off a (c ∷ pre) = Off-All a x (d ∷ post) (c ∷ pre) o in
    let (f, q) = last_of_cons none c pre in
    let n : Node = record { file = x; son = some d.0; father = some f } in
    let at : s.heap a ≡ some n =
      m.0 ∙ ap (λ i. some (record { file = x; son = some d.0; father = i })) q in
    let s' : Storage = freed a x (unlinked a d.0 n s) in
    let b : Node = record n { father = some d.0 } in
    let kept_front : Chain s'.heap none (c ∷ pre) (some a) =
      Chain-update a none (unlinked a d.0 n s).heap none (some a) (c ∷ pre) off (
        Chain-update a (some (record b { son = some d.0 })) (store a b s).heap none (some a)
          (c ∷ pre) off (Chain-update a (some b) s.heap none (some a) (c ∷ pre) off l)) in
    let lost : s'.heap a ≡ none = update-same a none (unlinked a d.0 n s).heap in
    let many : s'.nfile_tot - s'.nfile_dispo ≡ length (c ∷ pre) + suc (length post) =
      omega (arith, v.files, length-append (c ∷ pre) ((a, x) ∷ d ∷ post)) in
    (
      some d.0,
      s',
      by_unlink a n s at r (unlink-middle a d.0 f n s at),
      lost,
      ap (λ n. search_from n p s'.head s'.heap) many
          ∙ ap (λ i. search_from (length (c ∷ pre) + suc (length post)) p i s'.heap) v.at_head
          ∙ search_from-freed p s'.heap none (c ∷ pre) a (length post) kept_front away lost,
    )
