-- ===== src/Server/Request/Agreed.antt =====
-- The server reads each request of the client as it was meant.
use lso_project.Prelude.{
  ℕ, ◌≤◌, ◌<◌, ◌≡◌, refl, sym, ap, ◌∙◌, ◌≢◌, Bool, true, false, some, [], ◌∷◌, ◌++◌, arith,
  length-append, leb, ◌==◌, if◌then◌else◌, length, append_assoc, append-nil, Text, Avoids,
}
use lso_project.Prelude.Decimal.{show_number}
use lso_project.Server.Cstring.{take, strtol, strtok_r-append, Long}
use lso_project.Server.Conn.Whole.{take_drop-append}
use lso_project.Server.Wire.{◌>>=◌, send, send_msg_file_content}
use lso_project.Server.Wire.Sizes.{Sendable, recieved_msg-send, strtol-show_number, not_error}
use lso_project.Server.Request.{
  Request, Call, close_connection, open_file, read_file, read_n_files, append_to_file, close_file,
  flag, call, is_api, with_content, of_message, read_request,
}

abbrev pub request : ℕ → Text → Text → ℕ → Request
request api info content fd = record {
  api_id = record { minus = false; size = api };
  sms_info = info;
  sms_content = content;
  fd_client_id = fd;
}

-- What a call asks of the server.
abbrev pub asked : ℕ → Call → Request
asked fd (close_connection sockname) = request 1 sockname [] fd
asked fd (open_file pathname create) = request 2 (pathname ++ b',' ∷ flag create) [] fd
asked fd (read_file pathname) = request 3 pathname [] fd
asked fd (read_n_files n) = request 4 (show_number n) [] fd
asked fd (append_to_file pathname buf) = request 5 pathname buf fd
asked fd (close_file pathname) = request 6 pathname [] fd

-- The message that a call sends, behind the number of its operation.
abbrev body : Call → Text
body (close_connection sockname) = sockname
body (open_file pathname create) = pathname ++ b',' ∷ flag create
body (read_file pathname) = pathname
body (read_n_files n) = show_number n
body (append_to_file pathname buf) = pathname ++ b',' ∷ show_number (length buf)
body (close_file pathname) = pathname

-- The message can be sent; the path of an append is not empty and has no comma, and its content has fewer
-- than 2 ^ 32 - 1 bytes.
abbrev pub Plain : Call → Type 0
Plain (append_to_file pathname buf) =
    (pathname ≢ []) × Avoids b',' pathname × (length buf < 0xffffffff)
Plain _ = Unit

abbrev pub IsFair : Call → Type 0
IsFair c = Sendable (b'0' ∷ b',' ∷ body c) × Plain c

read_request-send :
    (closed : Bool) (fd : ℕ) (s p : Text)
    → Sendable s
    → read_request closed fd (send s ++ p) ≡ of_message closed fd (s, p)
unfolding read_request
read_request-send closed fd s p h =
    ap (λ o. o >>= of_message closed fd) (recieved_msg-send closed s p h)

of_message-tail :
    (closed : Bool) (fd c : ℕ) (t p : Text)
    → Avoids b',' (c ∷ [])
    → of_message closed fd (c ∷ b',' ∷ t, p) ≡ (
        if is_api 5 (strtol (c ∷ [])).0
        then with_content closed (strtol (c ∷ [])).0 fd t p
        else some (
          record {
            api_id = (strtol (c ∷ [])).0;
            sms_info = t;
            sms_content = [];
            fd_client_id = fd;
          },
          p,
        ))
unfolding of_message
of_message-tail closed fd c t p h = rw (strtok_r-append b',' c [] t h) refl

with_content-append :
    (closed : Bool) (fd : ℕ) (pathname buf p : Text) (n : Long)
    → pathname ≢ []
    → Avoids b',' pathname
    → length buf < 0xffffffff
    → with_content closed n fd (pathname ++ b',' ∷ show_number (length buf)) (buf ++ p)
      ≡ some (record { api_id = n; sms_info = pathname; sms_content = buf; fd_client_id = fd }, p)
with_content-append closed fd [] buf p n some_path a small = absurd (some_path refl)
with_content-append closed fd (c ∷ s) buf p n some_path a small =
    let e = take_drop-append buf p in
    let enough : leb (length buf) (length (buf ++ p)) ≡ true =
      ground (arith, length-append buf p) in
    rw
      (
        strtok_r-append b',' c s (show_number (length buf)) a,
        strtol-show_number (length buf) (omega (arith, small)),
        enough,
        not_error (length buf) small,
      )
      (ap
        (λ (t : Text × Text).
          some (record { api_id = n; sms_info = c ∷ s; sms_content = t.0; fd_client_id = fd }, t.1))
        e)

read_request-short :
    (closed : Bool) (fd d : ℕ) (t p : Text)
    → Sendable (b'0' ∷ b',' ∷ t)
    → Avoids b',' (d ∷ [])
    → (d == 0) ≡ false
    → is_api 5 (strtol (d ∷ [])).0 ≡ false
    → read_request closed fd (send (d ∷ b',' ∷ t) ++ p)
      ≡ some (
        record { api_id = (strtol (d ∷ [])).0; sms_info = t; sms_content = []; fd_client_id = fd },
        p,
      )
read_request-short closed fd d t p h a z other =
    read_request-send closed fd (d ∷ b',' ∷ t) p (h.0, (z, h.1.1))
    ∙ of_message-tail closed fd d t p a
    ∙ rw other refl

-- The text of an append, and its content behind it.
append_bytes :
    (pathname buf : Text)
    → length buf ≤ 0x7fffffffffffffff
    → call (append_to_file pathname buf)
      ≡ send (b'5' ∷ b',' ∷ (pathname ++ b',' ∷ show_number (length buf))) ++ buf
unfolding call send_msg_file_content
append_bytes pathname buf small =
    let whole : take (length buf) buf ≡ buf =
      ap (take (length buf)) (sym (append-nil buf))
      ∙ ap (λ (t : Text × Text). t.0) (take_drop-append buf []) in
    ap (λ n. send (b'5' ∷ b',' ∷ (pathname ++ b',' ∷ show_number (length buf))) ++ take n buf)
      (ap (λ (r : Long × Text). r.0.size) (strtol-show_number (length buf) small))
    ∙ ap (λ s. send (b'5' ∷ b',' ∷ (pathname ++ b',' ∷ show_number (length buf))) ++ s) whole

-- What a call of the API writes, the server reads as the request that it stands for: its number, its
-- argument, the content of an append, and nothing of what the pipe holds behind it. The message must
-- have fewer than 2 ^ 32 - 1 bytes and no zero byte; the path of an append must not be empty and must have no
-- comma, and its content must have fewer than 2 ^ 32 - 1 bytes.
pub read_request-call :
    (closed : Bool) (fd : ℕ) (c : Call) (p : Text)
    → IsFair c
    → read_request closed fd (call c ++ p) ≡ some (asked fd c, p)
unfolding call strtol
read_request-call closed fd (close_connection s) p h =
    read_request-short closed fd b'1' s p h.0 (refl, tt) refl refl
read_request-call closed fd (open_file s create) p h =
    read_request-short closed fd b'2' (s ++ b',' ∷ flag create) p h.0 (refl, tt) refl refl
read_request-call closed fd (read_file s) p h =
    read_request-short closed fd b'3' s p h.0 (refl, tt) refl refl
read_request-call closed fd (read_n_files n) p h =
    read_request-short closed fd b'4' (show_number n) p h.0 (refl, tt) refl refl
read_request-call closed fd (append_to_file s buf) p h =
    let t : Text = s ++ b',' ∷ show_number (length buf) in
    ap (λ q. read_request closed fd (q ++ p)) (append_bytes s buf (omega (arith, h.1.2)))
    ∙ ap (read_request closed fd) (append_assoc (send (b'5' ∷ b',' ∷ t)) buf p)
    ∙ read_request-send closed fd (b'5' ∷ b',' ∷ t) (buf ++ p) (h.0.0, (refl, h.0.1.1))
    ∙ of_message-tail closed fd b'5' t (buf ++ p) (refl, tt)
    ∙ with_content-append closed fd s buf p (record { minus = false; size = 5 }) h.1.0 h.1.1 h.1.2
read_request-call closed fd (close_file s) p h =
    read_request-short closed fd b'6' s p h.0 (refl, tt) refl refl
