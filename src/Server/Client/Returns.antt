-- ===== src/Server/Client/Returns.antt =====
-- What the calls of the API return by the answers of the worker.
use lso_project.Prelude.{
  ◌<◌, ◌≡◌, refl, ap, ◌∙◌, Bool, true, false, none, some, List, [], ◌∷◌, ◌++◌, ◌>>=◌, arith,
  if◌then◌else◌, length, length-append, Text, Avoids, codes, strip_prefix,
}
use lso_project.Prelude.Int.{pos, negsuc}
use lso_project.Storage.{Storage}
use lso_project.Server.Cstring.{strtok_r, strtok_r-append, strtol}
use lso_project.Server.Wire.{recieved_msg}
use lso_project.Server.Wire.Sizes.{recieved_msg-c_string, c_string-append}
use lso_project.Server.Worker.{Server, ok_removed, removed_text, ko, answered}
use lso_project.Server.Client.{open_file, append_to_file, number, first_token, is_zero}

-- The list of removed paths fits into a message.
abbrev pub Listed : List Text → Type 0
Listed paths = (length (removed_text paths) < 0xfffffff0) × Avoids 0 (removed_text paths)

received_ok :
    (closed : Bool) (paths : List Text) (p : Text)
    → Listed paths
    → recieved_msg closed (ok_removed paths ++ p) ≡ some (b'0' ∷ removed_text paths, p)
unfolding ok_removed
received_ok closed paths p h =
    let s : Text = b'0' ∷ removed_text paths in
    recieved_msg-c_string closed (s ++ 0 ∷ 0 ∷ []) p
      (omega (arith, length-append (removed_text paths) (0 ∷ 0 ∷ []), h.0))
    ∙ ap (λ t. some (t, p)) (c_string-append s (0 ∷ []) (refl, h.1))

received_ko : (closed : Bool) (p : Text) → recieved_msg closed (ko ++ p) ≡ some (codes "-1", p)
unfolding ko
received_ko closed p = recieved_msg-c_string closed (codes "-1") p (omega arith)

-- The first token of an answer.
zero_first :
    (paths : List Text)
    → (rest : Text) × (strtok_r b',' (b'0' ∷ removed_text paths) ≡ some (codes "0", rest))
unfolding strtok_r
zero_first [] = ([], refl)
zero_first (path ∷ paths) = (
  path ++ removed_text paths,
  strtok_r-append b',' b'0' [] (path ++ removed_text paths) (refl, tt),
)

-- Whatever the storage did at an open that creates or at an append, the client returns 0 exactly where it
-- succeeded and else -1, with any files removed, if the list of their paths fits into a message and has no zero byte, and nothing
-- of the answer stays in the pipe.
pub answered-returned :
    (closed : Bool) (v : Server) (success : Bool) (s : Storage) (p : Text)
    → Listed s.rm_path
    → (open_file closed ((answered v (success, s)).0 ++ p)
        ≡ some (if success then pos 0 else negsuc 0, p))
      × (append_to_file closed ((answered v (success, s)).0 ++ p) ≡ some (success, p))
unfolding open_file append_to_file strip_prefix strtol
answered-returned closed v true s p h =
    let (rest, e) = zero_first s.rm_path in
    let t : Text = b'0' ∷ removed_text s.rm_path in
    let got = received_ok closed s.rm_path p h in
    (
      ap (λ o. o >>= λ m. some (number (first_token m.0), m.1)) got
          ∙ ap (λ o. some (number (elim o [ none ↦ t | some r ↦ r.0 ]), p)) e,
      ap (λ o. o >>= λ m. strtok_r b',' m.0 >>= λ r. some (is_zero (strtol r.0).0, m.1)) got
          ∙ ap (λ o. o >>= λ r. some (is_zero (strtol r.0).0, p)) e,
    )
answered-returned closed v false s p h = (
  rw (received_ko closed p) (unfold strtok_r in refl),
  rw (received_ko closed p) (unfold strtok_r in refl),
)
