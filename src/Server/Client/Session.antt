-- ===== src/Server/Client/Session.antt =====
-- Whole calls of the API: the request, its handling by the worker, and what the call returns.
use lso_project.Prelude.{
  ℕ, ◌≤◌, ◌<◌, ◌≡◌, sym, ap, ◌∙◌, Bool, true, false, Option, none, some, List, [], ◌∷◌, ◌++◌, ◌>>=◌,
  arith, append-nil, length, Text, codes, not,
}
use lso_project.Prelude.Int.{pos}
use lso_project.Storage.Chain.{Entry, Off, Stored}
use lso_project.Storage.Search.{newest}
use lso_project.Server.Cstring.{strtol}
use lso_project.Server.Wire.{Received}
use lso_project.Server.Wire.Sizes.{recieved_msg-c_string}
use lso_project.Server.Request.{Call, call}
use lso_project.Server.Request as Request
use lso_project.Server.Worker.{Server, ok, ok_removed, emptied, serve}
use lso_project.Server.Worker.Trip.{Fits, left_file, visit-reads_back}
use lso_project.Server.Client.{
  open_file, append_to_file, read_file, close_file, is_there, content_of, is_minus_one,
}
use lso_project.Server.Client.Returns.{answered-returned}

-- A call of the client `fd`, by how it reads the answer: what it returns, and the server behind it.
abbrev pub remote {ℓ} :
    {R : Type ℓ} → Text → ℕ → ℕ → (Text → Option (R × Text)) → Call → Server → Option (R × Server)
remote sockname a fd reader c v = do
  done ← serve sockname a false fd (call c) v
  result ← reader done.0
  some (result.0, done.1)

-- The content that `readFile` hands over, with what it returns.
abbrev pub read_whole : Text → Option ((Bool × Option Text) × Text)
read_whole p = do r ← read_file false p; some ((r.0, r.1), r.2)

remote-done {ℓ} :
    {R : Type ℓ} (sockname : Text) (a fd : ℕ) (reader : Text → Option (R × Text)) (c : Call)
    (v w : Server) (answer rest : Text) (x : R)
    → serve sockname a false fd (call c ++ []) v ≡ some (answer, w)
    → reader (answer ++ []) ≡ some (x, rest)
    → remote sockname a fd reader c v ≡ some (x, w)
remote-done {R = R} sockname a fd reader c v w answer rest x e h =
    let finish : Text × Server → Option (R × Server) =
      λ done. reader done.0 >>= λ result. some (result.0, done.1) in
    ap (λ p. serve sockname a false fd p v >>= finish) (sym (append-nil (call c)))
    ∙ ap (λ o. o >>= finish) e
    ∙ ap (λ p. reader p >>= λ result. some (result.0, w)) (sym (append-nil answer))
    ∙ ap (λ o. o >>= λ result. some (result.0, w)) h

close_file-ok : (p : Text) → close_file false (ok ++ p) ≡ some (true, p)
unfolding close_file ok strtol
close_file-ok p =
    ap (λ o. o >>= λ m. some (not (is_minus_one (strtol m.0).0), m.1))
      (recieved_msg-c_string false (codes "0") p (omega arith))

-- A client creates a file, with a path that is not empty, has no comma and no zero byte and fits into a
-- message, that no file of the storage begins with, and for which there is room; it appends a content of
-- fewer than 2 ^ 31 bytes for which there is room, reads the file and closes it. `openFile`, `appendToFile`,
-- `readFile` and `closeFile` all return 0, `readFile` hands over the content that was appended,
-- and the storage of the server is sound again and holds the file, with that content and closed, in
-- front of the files from before.
pub visit-returned :
    (sockname : Text) (a c fd : ℕ) (p buf : Text) (es : List Entry) (v : Server)
    → Fits (c ∷ p) buf
    → Stored es v.storage
    → newest (c ∷ p) es ≡ none
    → Off a es
    → 0 < v.storage.nfile_dispo
    → length buf ≤ v.storage.ram_dispo
    → (v1 : Server) × (v2 : Server) × (v3 : Server) × (remote sockname a fd
          (open_file false)
          (Request.open_file (c ∷ p) true)
          v
        ≡ some (pos 0, v1))
      × (remote sockname a fd (append_to_file false) (Request.append_to_file (c ∷ p) buf) v1
          ≡ some (true, v2))
      × (remote sockname a fd read_whole (Request.read_file (c ∷ p)) v2
          ≡ some ((true, some buf), v2))
      × (remote sockname a fd (close_file false) (Request.close_file (c ∷ p)) v2 ≡ some (true, v3))
      × Stored ((a, left_file (c ∷ p) buf) ∷ es) v3.storage
unfolding read_file
visit-returned sockname a c fd p buf es v f s missing off room bytes =
    let (v1, v2, v3, answer, e1, e2, e3, got, e4, k) =
      visit-reads_back sockname a c fd p buf [] es v f s missing off room bytes in
    let there : Received × Text → Option (Bool × Option Text × Text) =
      λ r. some (is_there r.0, content_of r.0, r.1) in
    let whole : Bool × Option Text × Text → Option ((Bool × Option Text) × Text) =
      λ r. some ((r.0, r.1), r.2) in
    let zero_back = answered-returned false v true (emptied v.storage) [] (omega arith, tt) in
    (
      v1,
      v2,
      v3,
      remote-done sockname a fd (open_file false) (Request.open_file (c ∷ p) true) v v1
          (ok_removed []) [] (pos 0) e1 zero_back.0,
      remote-done sockname a fd (append_to_file false) (Request.append_to_file (c ∷ p) buf) v1 v2
          (ok_removed []) [] true e2 zero_back.1,
      remote-done sockname a fd read_whole (Request.read_file (c ∷ p)) v2 v2 answer []
          (true, some buf) e3 (ap (λ o. (o >>= there) >>= whole) got),
      remote-done sockname a fd (close_file false) (Request.close_file (c ∷ p)) v2 v3 ok [] true e4
          (close_file-ok []),
      k,
    )
