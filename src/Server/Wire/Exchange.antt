-- ===== src/Server/Wire/Exchange.antt =====
-- The content of a file arrives as it was sent.
use lso_project.Prelude.{
  ℕ, ◌%◌, ◌≤◌, ◌<◌, ◌≡◌, refl, sym, ap, ◌∙◌, ◌≢◌, Bool, true, false, some, [], ◌∷◌, ◌++◌, arith,
  length, length-append, leb, ltb, append_assoc, append-nil, Text, Avoids, codes, strip_prefix,
}
use lso_project.Prelude.Decimal.{show_number, show_number-cons}
use lso_project.Server.Cstring.{take, strtok_r, strtok_r-append, strtok_r-Avoids, Long}
use lso_project.Server.Conn.Whole.{take_drop-append}
use lso_project.Server.Wire.{
  ◌>>=◌, send, send_msg_file_content, file, to_size, content_after, file_after, of_answer,
  received_msg_file_content,
}
use lso_project.Server.Wire.Sizes.{
  Sendable, recieved_msg-send, strtol-show_number, show_number-without,
}
use mathlib.Core.Path.{subst}

-- What `sendMsg_File_Content` writes for a whole content.
pub file_bytes :
    (api_id path buf : Text)
    → length buf ≤ 0x7fffffffffffffff
    → send_msg_file_content api_id path (show_number (length buf)) buf
      ≡ send (api_id ++ (path ++ b',' ∷ show_number (length buf))) ++ buf
unfolding send_msg_file_content
file_bytes api_id path buf small =
    let t : Text = send (api_id ++ (path ++ b',' ∷ show_number (length buf))) in
    let whole : take (length buf) buf ≡ buf =
      ap (take (length buf)) (sym (append-nil buf))
      ∙ ap (λ (t : Text × Text). t.0) (take_drop-append buf []) in
    ap (λ n. t ++ take n buf)
      (ap (λ (r : Long × Text). r.0.size) (strtol-show_number (length buf) small))
    ∙ ap (λ s. t ++ s) whole

content_after-append :
    (closed : Bool) (path buf p : Text)
    → content_after closed path (length buf) (buf ++ p) ≡ some (file path buf, p)
content_after-append closed path buf p =
    let enough : leb (length buf) (length (buf ++ p)) ≡ true =
      ground (arith, length-append buf p) in
    rw enough (ap (λ (t : Text × Text). some (file path t.0, t.1)) (take_drop-append buf p))

to_size-small : (n : ℕ) → n < 0x80000000 → to_size (record { minus = false; size = n }) ≡ some n
to_size-small n h =
    let e : n % 0x100000000 ≡ n = omega arith in
    let small : ltb n 0x80000000 ≡ true = ground arith in rw (e, small) refl

file_after-append :
    (closed : Bool) (path buf p : Text)
    → path ≢ []
    → Avoids b',' path
    → length buf < 0x80000000
    → file_after closed (path ++ b',' ∷ show_number (length buf), buf ++ p)
      ≡ some (file path buf, p)
file_after-append closed [] buf p some_path a small = absurd (some_path refl)
file_after-append closed (c ∷ s) buf p some_path a small =
    let (d, r, e) = show_number-cons (length buf) in
    let number : strtok_r b',' (show_number (length buf)) ≡ some (show_number (length buf), []) =
      ap (strtok_r b',') e
      ∙ strtok_r-Avoids b',' d r
          (subst (Avoids b',') e (show_number-without b',' (length buf) refl))
      ∙ ap (λ t. some (t, [])) (sym e) in
    rw
      (
        strtok_r-append b',' c s (show_number (length buf)) a,
        number,
        strtol-show_number (length buf) (omega arith),
        to_size-small (length buf) small,
      )
      (content_after-append closed (c ∷ s) buf p)

of_answer-file :
    (closed : Bool) (t q : Text) → of_answer closed (b'1' ∷ b',' ∷ t, q) ≡ file_after closed (t, q)
unfolding of_answer strip_prefix
of_answer-file closed t q = refl

-- A file that the server sends is received with its path and its content, and what the pipe holds
-- behind it stays: the path is not empty and has no comma and no zero byte, and the content is shorter
-- than an `int` can count.
pub received_msg_file_content-send :
    (closed : Bool) (path buf p : Text)
    → path ≢ []
    → Avoids b',' path
    → Sendable (b'1' ∷ b',' ∷ (path ++ b',' ∷ show_number (length buf)))
    → length buf < 0x80000000
    → received_msg_file_content closed
        (send_msg_file_content (codes "1,") path (show_number (length buf)) buf ++ p)
      ≡ some (file path buf, p)
unfolding received_msg_file_content
received_msg_file_content-send closed path buf p some_path a s small =
    let t : Text = path ++ b',' ∷ show_number (length buf) in
    ap (λ q. received_msg_file_content closed (q ++ p))
      (file_bytes (codes "1,") path buf (omega arith))
    ∙ ap (received_msg_file_content closed) (append_assoc (send (b'1' ∷ b',' ∷ t)) buf p)
    ∙ ap (λ o. o >>= of_answer closed) (recieved_msg-send closed (b'1' ∷ b',' ∷ t) (buf ++ p) s)
    ∙ of_answer-file closed t (buf ++ p)
    ∙ file_after-append closed path buf p some_path a small
