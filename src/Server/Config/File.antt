-- ===== src/Server/Config/File.antt =====
-- A configuration file of five lines, and a line that ends too soon.
use lso_project.Prelude.{
  ℕ, zero, suc, ◌-◌, ◌≤◌, ◌<◌, ◌≡◌, refl, sym, ap, ◌∙◌, false, ◌&&◌, Option, some, List, [], ◌∷◌,
  ◌++◌, ◌>>=◌, arith, ◌==◌, if◌then◌else◌, Text, Avoids, codes, length, append_assoc, strip_prefix,
}
use lso_project.Prelude.Int.{ℤ, pos}
use lso_project.Prelude.Decimal.{show_number, show_number-cons}
use mathlib.Core.Path.{subst}
use lso_project.Server.Cstring.{begins, strtok_r, strtok_r-Avoids, Long}
use lso_project.Server.Wire.Sizes.{strtol-shown, show_number-without}
use lso_project.Server.Config.{
  Config, lines_from, lines, to_int, number_or, config_line, read_lines, Settings, finished, unread,
  configuration, or_default, is_end, positive,
}
use lso_project.Server.Config.Lines.{Int32, valued, number_set, name_set}

-- The five lines of a file that says the settings, each with a comment.
pub record Lines : Type 0 where
  pub threads : ℕ
  pub files : ℕ
  pub memory : ℕ
  pub socket : Text
  pub log : Text
  pub comments : ℕ → Text

abbrev pub n_thread_line : Lines → Text
n_thread_line l = codes "N_THREAD " ++ valued (show_number l.threads) (l.comments 0)

abbrev pub n_file_line : Lines → Text
n_file_line l = codes "N_FILE " ++ valued (show_number l.files) (l.comments 1)

abbrev pub mem_size_line : Lines → Text
mem_size_line l = codes "MEM_SIZE " ++ valued (show_number l.memory) (l.comments 2)

abbrev pub sockname_line : Lines → Text
sockname_line l = codes "SOCKNAME " ++ valued l.socket (l.comments 3)

abbrev pub logfile_line : Lines → Text
logfile_line l = codes "LOGFILE " ++ valued l.log (l.comments 4)

-- A line ends with a newline, and `fgets` reads it at once.
abbrev pub IsLine : Text → Type 0
IsLine s = Avoids b'\n' s × (length s < 255)

abbrev pub IsName : Text → Type 0
IsName [] = ⊥
IsName (c ∷ s) = Avoids 32 (c ∷ s) × ((c == b'#') ≡ false)

abbrev pub printed : List Text → Text
printed [] = []
printed (s ∷ ss) = s ++ b'\n' ∷ printed ss

abbrev pub file_of : Lines → List Text
file_of l =
    n_thread_line l ∷ n_file_line l ∷ mem_size_line l ∷ sockname_line l ∷ logfile_line l ∷ []

abbrev pub ended : List Text → List Text
ended [] = []
ended (s ∷ ss) = (s ++ b'\n' ∷ []) ∷ ended ss

abbrev pub AreLines : List Text → Type 0
AreLines [] = Unit
AreLines (s ∷ ss) = IsLine s × AreLines ss

lines_from-line :
    (room : ℕ) (line s t : Text)
    → Avoids b'\n' s
    → length s < room
    → lines_from room line (s ++ b'\n' ∷ t) ≡ (line ++ (s ++ b'\n' ∷ [])) ∷ lines t
lines_from-line room line [] t h r = refl
lines_from-line room line (c ∷ s) t h r =
    let more : (room == 1) ≡ false = ground arith in
    rw (h.0, more)
      (lines_from-line (room - 1) (line ++ c ∷ []) s t h.1 (omega arith)
        ∙ ap (λ l. l ∷ lines t) (append_assoc line (c ∷ []) (s ++ b'\n' ∷ [])))

lines-printed : (ss : List Text) → AreLines ss → lines (printed ss) ≡ ended ss
lines-printed [] h = refl
lines-printed (s ∷ ss) h =
    lines_from-line 255 [] s (printed ss) h.0.0 h.0.1
    ∙ ap (λ ls. (s ++ b'\n' ∷ []) ∷ ls) (lines-printed ss h.1)

-- Each line, with what stands behind the space after its value.
number_lines :
    (n : ℕ) (end : Text) (c : Config)
    → Int32 n
    → (config_line (codes "N_THREAD " ++ valued (show_number n) end) c
        ≡ some (record c { n_thread = pos n }))
      × (config_line (codes "N_FILE " ++ valued (show_number n) end) c
          ≡ some (record c { n_file = pos n }))
      × (config_line (codes "MEM_SIZE " ++ valued (show_number n) end) c
          ≡ some (record c { mem_size = pos n }))
unfolding config_line strip_prefix
number_lines n end c h = (
  number_set 1 n end (λ z. record c { n_thread = z }) h,
  number_set 50 n end (λ z. record c { n_file = z }) h,
  number_set 128000 n end (λ z. record c { mem_size = z }) h,
)

name_lines :
    (s end : Text) (c : Config)
    → IsName s
    → (config_line (codes "SOCKNAME " ++ valued s end) c ≡ some (record c { sockname = some s }))
      × (config_line (codes "LOGFILE " ++ valued s end) c ≡ some (record c { logfile = some s }))
unfolding config_line strip_prefix
name_lines [] end c h = elim h [ ]
name_lines (d ∷ s) end c h =
    let plain : begins (codes "#") (d ∷ s) ≡ false = first_plain d s h.1 in
    (
      name_set (codes "./cs_sock") d s end (λ v. record c { sockname = v }) h.0 plain,
      name_set (codes "logfile.txt") d s end (λ v. record c { logfile = v }) h.0 plain,
    )
  where
    first_plain : (d : ℕ) (s : Text) → (d == b'#') ≡ false → begins (codes "#") (d ∷ s) ≡ false
    first_plain d s h = ground (arith, h)

step :
    (l l' : Text) (ls : List Text) (c c' : Config)
    → l ≡ l'
    → config_line l' c ≡ some c'
    → read_lines (l ∷ ls) c ≡ read_lines ls c'
step l l' ls c c' e h =
    ap (λ l. config_line l c >>= read_lines ls) e ∙ ap (λ o. o >>= read_lines ls) h

-- A newline behind a line is one behind its comment.
behind :
    (key value comment : Text)
    → (key ++ valued value comment) ++ b'\n' ∷ [] ≡ key ++ valued value (comment ++ b'\n' ∷ [])
behind key value comment =
    append_assoc key (valued value comment) (b'\n' ∷ [])
    ∙ ap (λ s. key ++ s) (append_assoc value (32 ∷ comment) (b'\n' ∷ []))

or_default-pos : (default n : ℕ) → 0 < n → or_default default (pos n) ≡ pos n
or_default-pos default zero h = absurd (omega arith)
or_default-pos default (suc n) h = refl

-- A file of the five lines, with numbers that are positive and in the range of `int`, names that are not empty, have
-- no space and do not begin with '#', and comments that leave the lines shorter than the buffer, is read
-- as exactly these settings.
pub configuration-printed :
    (l : Lines)
    → AreLines (file_of l)
    → Int32 l.threads × Int32 l.files × Int32 l.memory
    → IsName l.socket × IsName l.log
    → configuration (printed (file_of l))
      ≡ some (record {
        threads = pos l.threads;
        files = pos l.files;
        memory = pos l.memory;
        socket = l.socket;
        log = l.log;
      })
unfolding configuration
configuration-printed l lines_ok (ht, hf, hm) (hs, hl) =
    let nl : ℕ → Text = λ i. l.comments i ++ b'\n' ∷ [] in
    let c1 : Config = record unread { n_thread = pos l.threads } in
    let c2 : Config = record c1 { n_file = pos l.files } in
    let c3 : Config = record c2 { mem_size = pos l.memory } in
    let c4 : Config = record c3 { sockname = some l.socket } in
    let c5 : Config = record c4 { logfile = some l.log } in
    let e1 = behind (codes "N_THREAD ") (show_number l.threads) (l.comments 0) in
    let e2 = behind (codes "N_FILE ") (show_number l.files) (l.comments 1) in
    let e3 = behind (codes "MEM_SIZE ") (show_number l.memory) (l.comments 2) in
    let e4 = behind (codes "SOCKNAME ") l.socket (l.comments 3) in
    let e5 = behind (codes "LOGFILE ") l.log (l.comments 4) in
    let t1 : List Text =
      ended (n_file_line l ∷ mem_size_line l ∷ sockname_line l ∷ logfile_line l ∷ []) in
    let t2 : List Text = ended (mem_size_line l ∷ sockname_line l ∷ logfile_line l ∷ []) in
    let t3 : List Text = ended (sockname_line l ∷ logfile_line l ∷ []) in
    let t4 : List Text = ended (logfile_line l ∷ []) in
    let read : read_lines (ended (file_of l)) unread ≡ some c5 =
      step _ _ t1 unread c1 e1 (number_lines l.threads (nl 0) unread ht).0
      ∙ step _ _ t2 c1 c2 e2 (number_lines l.files (nl 1) c1 hf).1
      ∙ step _ _ t3 c2 c3 e3 (number_lines l.memory (nl 2) c2 hm).2
      ∙ step _ _ t4 c3 c4 e4 (name_lines l.socket (nl 3) c3 hs).0
      ∙ step _ _ [] c4 c5 e5 (name_lines l.log (nl 4) c4 hl).1 in
    let done : Option Config → Option Settings = λ o. o >>= λ c. some (finished c) in
    ap (λ ls. done (read_lines ls unread)) (lines-printed (file_of l) lines_ok)
    ∙ ap done read
    ∙ rw
        (
          or_default-pos 1 l.threads ht.0,
          or_default-pos 50 l.files hf.0,
          or_default-pos 128000 l.memory hm.0,
        )
        refl

Avoids-newline : (s : Text) → Avoids 32 s → Avoids 32 (s ++ b'\n' ∷ [])
Avoids-newline [] h = (refl, tt)
Avoids-newline (c ∷ s) h = (h.0, Avoids-newline s h.1)

unread_number :
    (default n : ℕ) (set : ℤ → Config)
    → n ≤ 0x7fffffffffffffff
    → (strtok_r 32 (show_number n ++ b'\n' ∷ []) >>= λ u. some (set (number_or default u.0)))
      ≡ some (set (pos default))
unread_number default n set h =
    let (d, s, e) = show_number-cons n in
    let v : Text = show_number n ++ b'\n' ∷ [] in
    let token : strtok_r 32 v ≡ some (v, []) =
      ap (λ v. strtok_r 32 (v ++ b'\n' ∷ [])) e
      ∙ strtok_r-Avoids 32 d (s ++ b'\n' ∷ [])
          (Avoids-newline (d ∷ s) (subst (Avoids 32) e (show_number-without 32 n refl)))
      ∙ ap (λ v. some (v ++ b'\n' ∷ [], [])) (sym e) in
    ap (λ o. o >>= λ u. some (set (number_or default u.0))) token
    ∙ ap
        (λ (r : Long × Text).
          some (set (if is_end r.1 && positive r.0 then to_int r.0.size else pos default)))
        (strtol-shown n (b'\n' ∷ []) h refl)

-- Where the newline follows at once on a number, that number is not read: the line sets the default,
-- whatever the number is.
pub config_line-newline :
    (n : ℕ) (c : Config)
    → n ≤ 0x7fffffffffffffff
    → (config_line (codes "N_THREAD " ++ (show_number n ++ b'\n' ∷ [])) c
        ≡ some (record c { n_thread = pos 1 }))
      × (config_line (codes "N_FILE " ++ (show_number n ++ b'\n' ∷ [])) c
          ≡ some (record c { n_file = pos 50 }))
      × (config_line (codes "MEM_SIZE " ++ (show_number n ++ b'\n' ∷ [])) c
          ≡ some (record c { mem_size = pos 128000 }))
unfolding config_line strip_prefix
config_line-newline n c h = (
  unread_number 1 n (λ z. record c { n_thread = z }) h,
  unread_number 50 n (λ z. record c { n_file = z }) h,
  unread_number 128000 n (λ z. record c { mem_size = z }) h,
)
