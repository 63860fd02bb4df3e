-- ===== src/Server/Client/Answers.antt =====
-- The client gets what the server sent.
use lso_project.Prelude.{
  ℕ, zero, suc, ◌-◌, ◌≤◌, ◌<◌, ◌≡◌, refl, ap, ◌∙◌, ◌≢◌, Bool, true, false, not, Option, some, List,
  [], ◌∷◌, ◌++◌, ◌>>=◌, arith, if◌then◌else◌, ◌==◌, append_assoc, Text, Avoids, All, codes, length,
  strip_prefix, Bool-cases, inl, inr,
}
use lso_project.Prelude.Decimal.{show_number}
use lso_project.Storage.{File, Storage}
use lso_project.Storage.Chain.{Entry, Stored}
use lso_project.Server.Cstring.{strtol, strtok_r}
use lso_project.Server.Wire.{
  Received, file, no_more, refused, of_answer, received_msg_file_content, send_msg_file_content,
}
use lso_project.Server.Wire.Sizes.{Sendable, recieved_msg-send}
use lso_project.Server.Wire.Exchange.{received_msg_file_content-send}
use lso_project.Server.Request.{Request}
use lso_project.Server.Worker.{Server, ok, ko, put, file_answer, wanted}
use lso_project.Server.Worker as Worker
use lso_project.Server.Worker.Several.{shown, closed, filled_files, read_n_files-sent}
use lso_project.Server.Client.{with_file, read_n_files}

-- A file that can be sent: its path and content fit into messages, and its size is that of its content.
pub record Sends (x : File) : Type 0 where
  pub named : x.pathname ≢ []
  pub no_comma : Avoids b',' x.pathname
  pub sendable : Sendable (b'1' ∷ b',' ∷ (x.pathname ++ b',' ∷ show_number (length x.content_file)))
  pub small : length x.content_file < 0x80000000
  pub sized : x.file_sz ≡ length x.content_file

-- The first n files with a content, the newest first.
abbrev pub chosen : ℕ → List Entry → List (Text × Text)
chosen zero es = []
chosen (suc n) [] = []
chosen (suc n) ((a, x) ∷ es) = elim x.modified [
  | false ↦ chosen (suc n) es
  | true ↦ (x.pathname, x.content_file) ∷ chosen n es
]

-- What the loop does with an answer.
abbrev take_answer : ℕ → Received × Text → Option (List (Text × Text) × Bool × Text)
take_answer m r = elim r.0 [
  | file path buf ↦ with_file (path, buf) (read_n_files m false r.1)
  | no_more ↦ some ([], true, r.1)
  | refused ↦ some ([], false, r.1)
]

-- The loop at a file.
read_file_answer :
    (m : ℕ) (x : File) (p : Text)
    → Sends x
    → read_n_files (suc m) false (file_answer x ++ p)
      ≡ with_file (x.pathname, x.content_file) (read_n_files m false p)
unfolding read_n_files
read_file_answer m x p s =
    let got =
      received_msg_file_content-send false x.pathname x.content_file p s.named s.no_comma s.sendable
        s.small in
    ap
      (λ k.
        received_msg_file_content false
          (send_msg_file_content (codes "1,") x.pathname (show_number k) x.content_file ++ p)
        >>= take_answer m)
      s.sized
    ∙ ap (λ o. o >>= take_answer m) got

last_answer :
    (m : ℕ) (b : Bool) (p : Text)
    → read_n_files (suc m) false ((if b then ko else ok) ++ p) ≡ some ([], not b, p)
unfolding read_n_files received_msg_file_content of_answer strip_prefix ok ko strtok_r
last_answer m true p =
    ap (λ o. (o >>= of_answer false) >>= take_answer m)
      (recieved_msg-send false (codes "-1") p (omega arith, (refl, (refl, tt))))
last_answer m false p =
    ap (λ o. (o >>= of_answer false) >>= take_answer m)
      (recieved_msg-send false (codes "0") p (omega arith, (refl, tt)))

-- The loop at the answers to a request.
answers :
    (m n : ℕ) (es : List Entry) (b : Bool) (p : Text)
    → All (λ e. Sends e.1) es
    → length es ≤ m
    → read_n_files (suc m) false (shown n es ++ ((if b then ko else ok) ++ p))
      ≡ some (chosen n es, not b, p)
answers m zero es b p a h = last_answer m b p
answers m (suc n) [] b p a h = last_answer m b p
answers zero (suc n) (e ∷ es) b p a h = absurd (omega arith)
answers (suc m) (suc n) ((k, x) ∷ es) b p a h = elim (Bool-cases x.modified) [
  | inl filled ↦ rw filled (
      ap (read_n_files (suc (suc m)) false)
        (append_assoc (file_answer x) (shown n es) ((if b then ko else ok) ++ p))
      ∙ read_file_answer (suc m) x (shown n es ++ ((if b then ko else ok) ++ p)) a.0
      ∙ ap (with_file (x.pathname, x.content_file)) (answers m n es b p a.1 (omega arith)))
  | inr empty ↦ rw empty (answers (suc m) (suc n) es b p a.1 (omega arith))
]

-- On a sound storage whose files can be sent, a client asks for n files, and 0 stands for as many as
-- there is room for. The loop of the client reads from the answer the newest n files with a content,
-- each with its path and content, and returns 0 unless there was none of them or none was asked
-- for. Nothing of the answer stays in the pipe, and the loop ends within one round more than there are
-- files. The storage is sound again, and each file that was sent is closed, also where another client
-- has it open.
pub read_n_files-received :
    (r : Request) (es : List Entry) (v : Server) (n : ℕ) (p : Text)
    → Stored es v.storage
    → All (λ e. Sends e.1) es
    → wanted (strtol r.sms_info).0 v.storage ≡ n
    → (answer : Text) × (s : Storage) × (Worker.read_n_files r v ≡ some (answer, put s v))
      × (read_n_files (suc (length es)) false (answer ++ p)
          ≡ some (chosen n es, not ((n - filled_files es) == n), p))
      × Stored (closed n es) s
read_n_files-received r es v n p st a e =
    let (s, q, w) = read_n_files-sent r es v n st e in
    let b : Bool = (n - filled_files es) == n in
    (
      shown n es ++ (if b then ko else ok),
      s,
      q,
      ap (read_n_files (suc (length es)) false) (append_assoc (shown n es) (if b then ko else ok) p)
          ∙ answers (length es) n es b p a (omega arith),
      w,
    )
