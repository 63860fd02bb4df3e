-- ===== src/Storage/Chain.antt =====
-- A storage whose list is sound, and what it holds from the newest file to the oldest.
use lso_project.Prelude.{
  ℕ, ◌+◌, ◌≡◌, refl, sym, ap, ◌∙◌, ◌≢◌, false, Option, none, some, List, [], ◌∷◌, ◌++◌, arith, ◌==◌,
  ==_iff, length, All,
}
use lso_project.Storage.{File, Node, Heap, Storage, update}

abbrev pub Entry : Type 0
Entry = ℕ × File

abbrev pub first : List Entry → Option ℕ
first [] = none
first (e ∷ es) = some e.0

abbrev pub last_or : Option ℕ → List Entry → Option ℕ
last_or p [] = p
last_or p (e ∷ es) = last_or (some e.0) es

abbrev pub sizes : List Entry → ℕ
sizes [] = 0
sizes (e ∷ es) = e.1.file_sz + sizes es

abbrev pub Off : ℕ → List Entry → Type 0
Off a [] = Unit
Off a (e ∷ es) = (a ≢ e.0) × Off a es

abbrev pub Apart : List Entry → Type 0
Apart [] = Unit
Apart (e ∷ es) = Off e.0 es × Apart es

-- From the father `p` on, the nodes hold the files in order, and each points to its neighbours; behind
-- the last one comes `q`.
abbrev pub son_of : List Entry → Option ℕ → Option ℕ
son_of [] q = q
son_of (e ∷ es) q = some e.0

abbrev pub Chain : Heap → Option ℕ → List Entry → Option ℕ → Type 0
Chain h p [] q = Unit
Chain h p ((a, x) ∷ es) q =
    (h a ≡ some (record { file = x; son = son_of es q; father = p })) × Chain h (some a) es q

pub record Stored (es : List Entry) (s : Storage) : Type 0 where
  pub chain : Chain s.heap none es none
  pub apart : Apart es
  pub at_head : s.head ≡ first es
  pub at_last : s.last ≡ last_or none es
  pub files : s.nfile_dispo + length es ≡ s.nfile_tot
  pub bytes : s.ram_dispo + sizes es ≡ s.ram_tot

pub update-same : (a : ℕ) (n : Option Node) (h : Heap) → update a n h a ≡ n
update-same a n h = ground arith

pub update-other : (a b : ℕ) (n : Option Node) (h : Heap) → a ≢ b → update a n h b ≡ h b
update-other a b n h ne = let e : (b == a) ≡ false = grind (arith, ==_iff b a) in rw e refl

-- What is written off the list does not enter it.
pub Chain-update :
    (a : ℕ) (n : Option Node) (h : Heap) (p q : Option ℕ) (es : List Entry)
    → Off a es
    → Chain h p es q
    → Chain (update a n h) p es q
Chain-update a n h p q [] o c = tt
Chain-update a n h p q ((b, x) ∷ es) o c =
    (update-other a b n h o.0 ∙ c.0, Chain-update a n h (some b) q es o.1 c.1)

-- A list in two parts.
pub Chain-split :
    (h : Heap) (p q : Option ℕ) (es fs : List Entry)
    → Chain h p (es ++ fs) q
    → Chain h p es (son_of fs q) × Chain h (last_or p es) fs q
Chain-split h p q [] fs c = (tt, c)
Chain-split h p q ((a, x) ∷ es) fs c =
    let (l, r) = Chain-split h (some a) q es fs c.1 in
    ((c.0 ∙ ap (λ i. some (record { file = x; son = i; father = p })) (joint es fs), l), r)
  where
    joint : (es fs : List Entry) → son_of (es ++ fs) q ≡ son_of es (son_of fs q)
    joint [] fs = refl
    joint (e ∷ es) fs = refl

pub Apart-split :
    (es fs : List Entry) → Apart (es ++ fs) → Apart es × Apart fs × All (λ e. Off e.0 fs) es
Apart-split [] fs h = (tt, h, tt)
Apart-split (e ∷ es) fs h =
    let (l, r, o) = Apart-split es fs h.1 in
    let (a, b) = Off-split e.0 es fs h.0 in ((a, l), r, (b, o))
  where
    Off-split : (a : ℕ) (es fs : List Entry) → Off a (es ++ fs) → Off a es × Off a fs
    Off-split a [] fs h = (tt, h)
    Off-split a (e ∷ es) fs h = let (l, r) = Off-split a es fs h.1 in ((h.0, l), r)

pub Chain-join :
    (h : Heap) (p q : Option ℕ) (es fs : List Entry)
    → Chain h p es (son_of fs q)
    → Chain h (last_or p es) fs q
    → Chain h p (es ++ fs) q
Chain-join h p q [] fs l r = r
Chain-join h p q ((a, x) ∷ es) fs l r = (
  l.0 ∙ ap (λ i. some (record { file = x; son = i; father = p })) (sym (joint es fs)),
  Chain-join h (some a) q es fs l.1 r,
)
  where
    joint : (es fs : List Entry) → son_of (es ++ fs) q ≡ son_of es (son_of fs q)
    joint [] fs = refl
    joint (e ∷ es) fs = refl

pub Apart-join :
    (es fs : List Entry) → Apart es → Apart fs → All (λ e. Off e.0 fs) es → Apart (es ++ fs)
Apart-join [] fs l r o = r
Apart-join (e ∷ es) fs l r o = (Off-join e.0 es fs l.0 o.0, Apart-join es fs l.1 r o.1)
  where
    Off-join : (a : ℕ) (es fs : List Entry) → Off a es → Off a fs → Off a (es ++ fs)
    Off-join a [] fs l r = r
    Off-join a (e ∷ es) fs l r = (l.0, Off-join a es fs l.1 r)

-- An address that none of the list has.
pub Off-All :
    (a : ℕ) (x : File) (fs es : List Entry) → All (λ e. Off e.0 ((a, x) ∷ fs)) es → Off a es
Off-All a x fs [] h = tt
Off-All a x fs (e ∷ es) h = (λ q. h.0.0 (sym q), Off-All a x fs es h.1)

pub All-less :
    (a : ℕ) (x : File) (fs es : List Entry)
    → All (λ e. Off e.0 ((a, x) ∷ fs)) es
    → All (λ e. Off e.0 fs) es
All-less a x fs [] h = tt
All-less a x fs (e ∷ es) h = (h.0.1, All-less a x fs es h.1)

pub last_or-append :
    (p : Option ℕ) (es fs : List Entry) → last_or p (es ++ fs) ≡ last_or (last_or p es) fs
last_or-append p [] fs = refl
last_or-append p (e ∷ es) fs = last_or-append (some e.0) es fs

pub first-append : (es fs : List Entry) → first (es ++ fs) ≡ son_of es (first fs)
first-append [] fs = refl
first-append (e ∷ es) fs = refl

pub sizes-append : (es fs : List Entry) → sizes (es ++ fs) ≡ sizes es + sizes fs
sizes-append [] fs = omega arith
sizes-append (e ∷ es) fs = omega (arith, sizes-append es fs)
