-- ===== src/Server/Worker/Trip.antt =====
-- The requests of a visit, from the bytes that the client writes to those that it reads.
use lso_project.Prelude.{
  ℕ, ◌≤◌, ◌<◌, ◌≡◌, refl, ap, ◌∙◌, Bool, true, false, none, some, List, [], ◌∷◌, ◌++◌, ◌>>=◌, arith,
  Text, Avoids, length, length-append, ◌==◌,
}
use mathlib.Core.Path.{subst}
use lso_project.Prelude.Decimal.{show_number, show_number-cons}
use lso_project.Storage.{File, create_file_node}
use lso_project.Storage.Memory.{filled}
use lso_project.Storage.Chain.{Entry, Off, Stored}
use lso_project.Storage.Search.{newest}
use lso_project.Storage.Refilled.{Leads}
use lso_project.Server.Wire.{file, received_msg_file_content}
use lso_project.Server.Wire.Sizes.{Sendable}
use lso_project.Server.Wire.Exchange.{received_msg_file_content-send}
use lso_project.Server.Request.{Call, call, open_file, append_to_file, read_file, close_file}
use lso_project.Server.Request.Agreed.{asked, IsFair, read_request-call}
use lso_project.Server.Worker.{
  Server, ok, ok_removed, put, after, measured, file_answer, handle, serve,
}
use lso_project.Server.Worker.Visit.{begins_self, created, appended, reads, closed_by}

-- The path and the content fit into messages: no comma or zero byte in the path, and a content that an
-- `int` can count.
pub record Fits (p buf : Text) : Type 0 where
  pub no_comma : Avoids b',' p
  pub sendable : Sendable (b'1' ∷ b',' ∷ (p ++ b',' ∷ show_number (length buf)))
  pub small : length buf < 0x80000000

-- The file that is left: with the content, and closed.
abbrev pub left_file : Text → Text → File
left_file p buf = record {
  file_sz = length buf;
  pathname = p;
  fd_client_id = none;
  modified = true;
  content_file = buf;
}

Avoids-front : (sep : ℕ) (s t : Text) → Avoids sep (s ++ t) → Avoids sep s
Avoids-front sep [] t h = tt
Avoids-front sep (c ∷ s) t h = (h.0, Avoids-front sep s t h.1)

Avoids-join : (sep : ℕ) (s t : Text) → Avoids sep s → Avoids sep t → Avoids sep (s ++ t)
Avoids-join sep [] t h k = k
Avoids-join sep (c ∷ s) t h k = (h.0, Avoids-join sep s t h.1 k)

-- The messages of a visit can be sent.
fair_path : (p buf : Text) → Fits p buf → Sendable (b'0' ∷ b',' ∷ p)
fair_path p buf f = (
  omega (arith, f.sendable.0, length-append p (b',' ∷ show_number (length buf))),
  (refl, (refl, Avoids-front 0 p (b',' ∷ show_number (length buf)) f.sendable.1.1.1)),
)

fair_open : (p buf : Text) → Fits p buf → Sendable (b'0' ∷ b',' ∷ (p ++ b',' ∷ b'1' ∷ []))
fair_open p buf f =
    let (c, s, e) = show_number-cons (length buf) in
    (
      omega (
        arith,
        f.sendable.0,
        length-append p (b',' ∷ show_number (length buf)),
        length-append p (b',' ∷ b'1' ∷ []),
        ap length e,
      ),
      (
        refl,
        (refl, Avoids-join 0 p (b',' ∷ b'1' ∷ []) (fair_path p buf f).1.1.1 (refl, (refl, tt))),
      ),
    )

served :
    (sockname : Text) (a : ℕ) (closed : Bool) (fd : ℕ) (c : Call) (q : Text) (v : Server)
    → IsFair c
    → serve sockname a closed fd (call c ++ q) v ≡ handle sockname a (asked fd c) v
unfolding serve
served sockname a closed fd c q v h =
    ap (λ o. o >>= λ r. handle sockname a r.0 v) (read_request-call closed fd c q h)

-- What the client reads of a file that the server sends.
answer-read :
    (c : ℕ) (p buf q : Text) (x : File)
    → Fits (c ∷ p) buf
    → x.pathname ≡ c ∷ p
    → x.content_file ≡ buf
    → x.file_sz ≡ length buf
    → received_msg_file_content false (file_answer x ++ q) ≡ some (file (c ∷ p) buf, q)
answer-read c p buf q x f path content size =
    rw (path, content, size)
      (received_msg_file_content-send false (c ∷ p) buf q (λ e. cc) f.no_comma f.sendable f.small)

-- A client creates a file, with a path that no file of the storage begins with and for which there is
-- room, appends a content for which there is room, reads the file and closes it. The bytes that it
-- writes are served one request after the other: each is answered with 0, and no file goes; the answer to
-- the read is received as the path and the content that was appended; and the storage is sound
-- again and holds the file, closed, in front of the files from before.
pub visit-reads_back :
    (sockname : Text) (a c fd : ℕ) (p buf q : Text) (es : List Entry) (v : Server)
    → Fits (c ∷ p) buf
    → Stored es v.storage
    → newest (c ∷ p) es ≡ none
    → Off a es
    → 0 < v.storage.nfile_dispo
    → length buf ≤ v.storage.ram_dispo
    → (v1 : Server) × (v2 : Server) × (v3 : Server) × (answer : Text) × (serve sockname a false fd
          (call (open_file (c ∷ p) true) ++ q)
          v
        ≡ some (ok_removed [], v1))
      × (serve sockname a false fd (call (append_to_file (c ∷ p) buf) ++ q) v1
          ≡ some (ok_removed [], v2))
      × (serve sockname a false fd (call (read_file (c ∷ p)) ++ q) v2 ≡ some (answer, v2))
      × (received_msg_file_content false (answer ++ q) ≡ some (file (c ∷ p) buf, q))
      × (serve sockname a false fd (call (close_file (c ∷ p)) ++ q) v2 ≡ some (ok, v3))
      × Stored ((a, left_file (c ∷ p) buf) ∷ es) v3.storage
unfolding handle
visit-reads_back sockname a c fd p buf q es v f s missing off room bytes =
    let mine : (fd == fd) ≡ true = ground arith in
    let x : File = (create_file_node (c ∷ p) fd).file in
    let (s1, e1, k1, d) = created a c fd p es v f.no_comma s missing off room in
    let v1 : Server = after s1 v in
    let l : Leads (c ∷ p) [] x = (tt, begins_self (c ∷ p)) in
    let (s2, e2, k2) =
      appended a c fd p buf [] es x v1 f.no_comma k1 l mine (omega (arith, d, bytes)) in
    let v2 : Server = measured (after s2 v1) in
    let y : File = filled buf x in
    let e3 = reads a c fd p [] es y v2 f.no_comma k2 l mine in
    let (s3, e4, k3) = closed_by a c fd p [] es y v2 k2 l mine in
    let path = fair_path (c ∷ p) buf f in
    let size : y.file_sz ≡ length buf = omega arith in
    (
      v1,
      v2,
      put s3 v2,
      file_answer y,
      served sockname a false fd (open_file (c ∷ p) true) q v (fair_open (c ∷ p) buf f, tt) ∙ e1,
      served sockname a false fd (append_to_file (c ∷ p) buf) q v1 (
        (f.sendable.0, (refl, (refl, f.sendable.1.1.1))),
        (λ e. cc, f.no_comma, omega (arith, f.small)),
      )
          ∙ e2,
      served sockname a false fd (read_file (c ∷ p)) q v2 (path, tt) ∙ e3,
      answer-read c p buf q y f refl refl size,
      served sockname a false fd (close_file (c ∷ p)) q v2 (path, tt) ∙ e4,
      subst (λ z. Stored ((a, record (left_file (c ∷ p) buf) { file_sz = z }) ∷ es) s3) size k3,
    )
