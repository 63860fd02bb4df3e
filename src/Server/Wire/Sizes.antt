-- ===== src/Server/Wire/Sizes.antt =====
-- Sizes and numbers that arrive as they were sent.
use lso_project.Prelude.{
  ℕ, zero, suc, ◌+◌, ◌-◌, ◌*◌, ◌/◌, ◌≤◌, ◌<◌, ◌≡◌, refl, sym, ap, ◌∙◌, inl, inr, Bool, true, false,
  ◌%◌, not, Option, none, some, [], ◌∷◌, ◌++◌, arith, leb, ◌==◌, if◌then◌else◌, length,
  length-append, append_assoc, append-nil, Text, Avoids, digit, read_number, Bool-cases, ==_iff,
}
use mathlib.Core.Path.{subst}
use lso_project.Prelude.Decimal.{show_number, read_number-show_number, show_number-cons}
use lso_project.Server.Cstring.{
  take, drop, c_string, is_space, digits_at, starts_digit, min, strtol,
}
use lso_project.Server.Conn.{is_error}
use lso_project.Server.Wire.{size_bytes, size_of, send, recieved_msg}
use lso_project.Server.Conn.Whole.{take_drop-append}

-- A number of so many bytes.
abbrev Fits : ℕ → ℕ → Type 0
Fits zero n = n ≡ 0
Fits (suc k) n = Fits k (n / 256)

size_of-size_bytes : (k n : ℕ) → Fits k n → size_of (size_bytes k n) ≡ n
size_of-size_bytes zero n h = sym h
size_of-size_bytes (suc k) n h = let ih = size_of-size_bytes k (n / 256) h in omega (arith, ih)

length-size_bytes : (k n : ℕ) → length (size_bytes k n) ≡ k
length-size_bytes zero n = refl
length-size_bytes (suc k) n = ap suc (length-size_bytes k (n / 256))

-- A text of fewer than 2 ^ 32 - 1 bytes, without a zero byte.
abbrev pub Sendable : Text → Type 0
Sendable s = (length s < 0xffffffff) × Avoids 0 s

c_string-Avoids : (s : Text) → Avoids 0 s → c_string s ≡ s
c_string-Avoids [] h = refl
c_string-Avoids (c ∷ s) h = rw h.0 (ap (λ t. c ∷ t) (c_string-Avoids s h.1))

-- A length that is smaller is no -1.
pub not_error : (n : ℕ) → n < 0xffffffff → is_error n ≡ false
not_error n h = let e : n % 0x100000000 ≡ n = omega arith in rw e (ground arith)

-- What a size and the rest of the pipe are read as.
read_size : Bool → ℕ → Text → Option (Text × Text)
read_size closed n rest =
    if (if leb n (length rest) then not (is_error n) else closed)
    then some (c_string (take n rest), drop n rest)
    else none

read_size-message :
    (closed : Bool) (s p : Text)
    → length s < 0xffffffff
    → read_size closed (length s) (s ++ p) ≡ some (c_string s, p)
unfolding read_size
read_size-message closed s p h =
    let e = take_drop-append s p in
    let enough : leb (length s) (length (s ++ p)) ≡ true = ground (arith, length-append s p) in
    let small : is_error (length s) ≡ false = not_error (length s) h in
    rw (enough, small) (ap (λ (t : Text × Text). some (c_string t.0, t.1)) e)

received_size :
    (closed : Bool) (z rest : Text)
    → length z ≡ 8
    → recieved_msg closed (z ++ rest) ≡ read_size closed (size_of z) rest
unfolding recieved_msg read_size
received_size closed z rest e =
    let parts =
      subst (λ n. ◌≡◌ {A = Text × Text} (take n (z ++ rest), drop n (z ++ rest)) (z, rest)) e
        (take_drop-append z rest) in
    let enough : leb 8 (length (z ++ rest)) ≡ true = ground (arith, length-append z rest, e) in
    rw (ap (λ (t : Text × Text). t.0) parts, ap (λ (t : Text × Text). t.1) parts, enough) refl

-- A message that was sent is received up to its first zero byte, at an open pipe and at a closed one.
pub recieved_msg-c_string :
    (closed : Bool) (s p : Text)
    → length s < 0xffffffff
    → recieved_msg closed (send s ++ p) ≡ some (c_string s, p)
unfolding send
recieved_msg-c_string closed s p h =
    let z : Text = size_bytes 8 (length s) in
    ap (recieved_msg closed) (append_assoc z s p)
    ∙ received_size closed z (s ++ p) (length-size_bytes 8 (length s))
    ∙ ap (λ n. read_size closed n (s ++ p)) (size_of-size_bytes 8 (length s) (omega (arith, h)))
    ∙ read_size-message closed s p h

pub recieved_msg-send :
    (closed : Bool) (s p : Text) → Sendable s → recieved_msg closed (send s ++ p) ≡ some (s, p)
recieved_msg-send closed s p h =
    recieved_msg-c_string closed s p h.0 ∙ ap (λ t. some (t, p)) (c_string-Avoids s h.1)

-- What stands before a zero byte.
pub c_string-append : (s t : Text) → Avoids 0 s → c_string (s ++ 0 ∷ t) ≡ s
c_string-append [] t h = refl
c_string-append (c ∷ s) t h = rw h.0 (ap (λ s. c ∷ s) (c_string-append s t h.1))

digits_at-stops : (a : ℕ) (t : Text) → starts_digit t ≡ false → digits_at a t ≡ (a, t)
digits_at-stops a [] h = refl
digits_at-stops a (c ∷ t) h = rw h refl

read_number-digits_at :
    (a n : ℕ) (s t : Text)
    → starts_digit t ≡ false
    → read_number a s ≡ some n
    → digits_at a (s ++ t) ≡ (n, t)
unfolding read_number
read_number-digits_at a n [] t stop h = digits_at-stops a t stop ∙ ap (λ n. (n, t)) (cc)
read_number-digits_at a n (c ∷ s) t stop h = elim (Bool-cases (digit c)) [
  | inl is ↦ rw is (read_number-digits_at (a * 10 + (c - b'0')) n s t stop (sym (rw is refl) ∙ h))
  | inr no_digit ↦ ground (arith, h)
]

-- The first character of a number is a digit.
read_number-first : (a n c : ℕ) (s : Text) → read_number a (c ∷ s) ≡ some n → digit c ≡ true
unfolding read_number
read_number-first a n c s h = ground arith

strtol-digits :
    (n c : ℕ) (s t : Text)
    → n ≤ 0x7fffffffffffffff
    → digit c ≡ true
    → digits_at 0 (c ∷ s) ≡ (n, t)
    → strtol (c ∷ s) ≡ (record { minus = false; size = n }, t)
unfolding strtol
strtol-digits n c s t h is e =
    let space : is_space c ≡ false = ground arith in
    let dash : (c == b'-') ≡ false = ground arith in
    let plus : (c == b'+') ≡ false = ground arith in
    let small : min n 0x7fffffffffffffff ≡ n = ground arith in
    let rest : digits_at (0 * 10 + (c - b'0')) s ≡ (n, t) = sym (rw is refl) ∙ e in
    rw (space, dash, plus, is, rest, small) refl

-- A number that was printed is read, up to what follows it.
pub strtol-shown :
    (n : ℕ) (t : Text)
    → n ≤ 0x7fffffffffffffff
    → starts_digit t ≡ false
    → strtol (show_number n ++ t) ≡ (record { minus = false; size = n }, t)
strtol-shown n t h stop =
    let (c, s, e) = show_number-cons n in
    ap (λ d. strtol (d ++ t)) e
    ∙ strtol-digits n c (s ++ t) t h
        (read_number-first 0 n c s (ap (read_number 0) (sym e) ∙ read_number-show_number n))
        (ap (λ d. digits_at 0 (d ++ t)) (sym e)
          ∙ read_number-digits_at 0 n (show_number n) t stop (read_number-show_number n))

pub strtol-show_number :
    (n : ℕ)
    → n ≤ 0x7fffffffffffffff
    → strtol (show_number n) ≡ (record { minus = false; size = n }, [])
strtol-show_number n h = ap strtol (sym (append-nil (show_number n))) ∙ strtol-shown n [] h refl

-- A text of digits avoids what is no digit.
read_number-Avoids :
    (sep a n : ℕ) (s : Text) → digit sep ≡ false → read_number a s ≡ some n → Avoids sep s
unfolding read_number
read_number-Avoids sep a n [] h e = tt
read_number-Avoids sep a n (c ∷ s) h e = elim (Bool-cases (digit c)) [
  | inl is ↦ (
    ground (arith, is, h, ==_iff c sep),
    read_number-Avoids sep (a * 10 + (c - b'0')) n s h (sym (rw is refl) ∙ e),
  )
  | inr no_digit ↦ absurd (ground (arith, e))
]

pub show_number-without : (sep n : ℕ) → digit sep ≡ false → Avoids sep (show_number n)
show_number-without sep n h =
    read_number-Avoids sep 0 n (show_number n) h (read_number-show_number n)
