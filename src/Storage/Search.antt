-- ===== src/Storage/Search.antt =====
-- What a search finds.
use lso_project.Prelude.{
  ℕ, ◌-◌, ◌≡◌, refl, Option, none, some, List, [], ◌∷◌, arith, if◌then◌else◌, length, Text,
}
use lso_project.Storage.{Heap, Storage, begins, search_from, search_file_node}
use lso_project.Storage.Chain.{Entry, Chain, Stored, first}

-- The newest file whose path begins with the one asked for.
abbrev pub newest : Text → List Entry → Option ℕ
newest p [] = none
newest p ((a, x) ∷ es) = let rest = newest p es in if begins p x.pathname then some a else rest

search_from-Chain :
    (p : Text) (h : Heap) (father : Option ℕ) (es : List Entry)
    → Chain h father es none
    → search_from (length es) p (first es) h ≡ some (newest p es)
search_from-Chain p h father [] c = refl
search_from-Chain p h father ((a, x) ∷ []) c = rw (c.0) (ground arith)
search_from-Chain p h father ((a, x) ∷ (b, y) ∷ es) c =
    let ih = search_from-Chain p h (some a) ((b, y) ∷ es) c.1 in rw (c.0, ih) (ground arith)

-- On a sound storage a search ends without touching memory that was freed: it finds the newest file
-- whose path begins with the text asked for, which need not be the whole path, and nothing exactly
-- where there is none.
pub search_file_node-newest :
    (p : Text) (es : List Entry) (s : Storage)
    → Stored es s
    → search_file_node p s ≡ some (newest p es)
unfolding search_file_node
search_file_node-newest p es s v =
    let many : s.nfile_tot - s.nfile_dispo ≡ length es = omega (arith, v.files) in
    rw (many, v.at_head) (search_from-Chain p s.heap none es v.chain)
