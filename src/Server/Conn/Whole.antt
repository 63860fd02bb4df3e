-- ===== src/Server/Conn/Whole.antt =====
-- Whatever pieces the system takes the bytes in, all of them pass, once and in order.
use lso_project.Prelude.{
  ℕ, zero, suc, ◌-◌, ◌%◌, ◌<◌, ◌>>=◌, true, ltb, ◌≤◌, ◌≡◌, refl, ap, ◌∙◌, Option, none, some, List,
  [], ◌∷◌, ◌++◌, arith, length, Text, append_assoc, length-append,
}
use mathlib.Core.Path.{subst}
use lso_project.Server.Cstring.{min, take, drop}
use lso_project.Prelude.Int.{pos}
use lso_project.Server.Conn.{
  Answer, moved, interrupted, failed, Status, done, ended, error, sent, writen, got, read_on, readn,
  as_int, returned,
}

-- No answer is an error or the end, and k of them move bytes.
abbrev pub Moves : ℕ → List Answer → Type 0
Moves zero os = Unit
Moves (suc k) [] = ⊥
Moves (suc k) (interrupted ∷ os) = Moves (suc k) os
Moves (suc k) (failed ∷ os) = ⊥
Moves (suc k) (moved zero ∷ os) = ⊥
Moves (suc k) (moved (suc n) ∷ os) = Moves k os

Moves-le : (j k : ℕ) (os : List Answer) → j ≤ k → Moves k os → Moves j os
Moves-le zero k os h m = tt
Moves-le (suc j) zero os h m = absurd (omega arith)
Moves-le (suc j) (suc k) [] h m = elim m [ ]
Moves-le (suc j) (suc k) (interrupted ∷ os) h m = Moves-le (suc j) (suc k) os h m
Moves-le (suc j) (suc k) (failed ∷ os) h m = elim m [ ]
Moves-le (suc j) (suc k) (moved zero ∷ os) h m = elim m [ ]
Moves-le (suc j) (suc k) (moved (suc n) ∷ os) h m = Moves-le j k os (omega arith) m

take-drop : (n : ℕ) (s : Text) → take n s ++ drop n s ≡ s
take-drop zero s = refl
take-drop (suc n) [] = refl
take-drop (suc n) (c ∷ s) = ap (λ t. c ∷ t) (take-drop n s)

length-drop : (n : ℕ) (s : Text) → length (drop n s) ≤ length s
length-drop zero s = omega arith
length-drop (suc n) [] = omega arith
length-drop (suc n) (c ∷ s) = omega (arith, length-drop n s)

writen-whole : (os : List Answer) (s : Text) → Moves (length s) os → writen os s ≡ some (done, s)
unfolding writen
writen-whole [] [] m = refl
writen-whole [] (c ∷ s) m = elim m [ ]
writen-whole (interrupted ∷ os) [] m = refl
writen-whole (interrupted ∷ os) (c ∷ s) m = writen-whole os (c ∷ s) m
writen-whole (failed ∷ os) [] m = refl
writen-whole (failed ∷ os) (c ∷ s) m = elim m [ ]
writen-whole (moved zero ∷ os) [] m = refl
writen-whole (moved zero ∷ os) (c ∷ s) m = elim m [ ]
writen-whole (moved (suc n) ∷ os) [] m = refl
writen-whole (moved (suc n) ∷ os) (c ∷ s) m =
    let ih =
      writen-whole os (drop n s) (Moves-le (length (drop n s)) (length s) os (length-drop n s) m) in
    ap (sent (c ∷ take n s)) ih ∙ ap (λ t. some (done, c ∷ t)) (take-drop n s)

-- Two reads are one.
take_drop-twice :
    (j k : ℕ) (p : Text)
    → j ≤ k
    → ◌≡◌ {A = Text × Text}
        (take j p ++ take (k - j) (drop j p), drop (k - j) (drop j p))
        (take k p, drop k p)
take_drop-twice zero k p h = let e : k - 0 ≡ k = omega arith in rw e refl
take_drop-twice (suc j) zero p h = absurd (omega arith)
take_drop-twice (suc j) (suc k) [] h = nothing (suc k - suc j)
  where
    nothing : (i : ℕ) → ◌≡◌ {A = Text × Text} (take i [], drop i []) ([], [])
    nothing zero = refl
    nothing (suc i) = refl
take_drop-twice (suc j) (suc k) (c ∷ p) h =
    let e : suc k - suc j ≡ k - j = omega arith in
    rw e (ap (λ t. (c ∷ t.0, t.1)) (take_drop-twice j k p (omega arith)))

le-length-drop : (j k : ℕ) (p : Text) → k ≤ length p → k - j ≤ length (drop j p)
le-length-drop zero k p h = omega arith
le-length-drop (suc j) k [] h = omega arith
le-length-drop (suc j) k (c ∷ p) h =
    let ih = le-length-drop j (k - 1) p (omega arith) in omega arith

read_on-whole :
    (os : List Answer) (k : ℕ) (p : Text)
    → k ≤ length p
    → Moves k os
    → read_on os k p ≡ some (done, take k p, drop k p)
unfolding read_on
read_on-whole os zero p h m = elim os [ [] ↦ refl | _ ∷ _ ↦ refl ]
read_on-whole [] (suc k) p h m = elim m [ ]
read_on-whole (interrupted ∷ os) (suc k) p h m = read_on-whole os (suc k) p h m
read_on-whole (failed ∷ os) (suc k) p h m = elim m [ ]
read_on-whole (moved zero ∷ os) (suc k) p h m = elim m [ ]
read_on-whole (moved (suc n) ∷ os) (suc k) [] h m = absurd (omega arith)
read_on-whole (moved (suc n) ∷ os) (suc k) (c ∷ p) h m =
    let ih =
      read_on-whole os (k - min n k) (drop (min n k) p) (le-length-drop (min n k) k p (omega arith))
        (Moves-le (k - min n k) k os (omega arith) m) in
    ap (got (c ∷ take (min n k) p)) ih
    ∙ ap (λ t. some (done, c ∷ t.0, t.1)) (take_drop-twice (min n k) k p (ground arith))

pub take_drop-append :
    (s p : Text) → ◌≡◌ {A = Text × Text} (take (length s) (s ++ p), drop (length s) (s ++ p)) (s, p)
take_drop-append [] p = refl
take_drop-append (c ∷ s) p = ap (λ t. (c ∷ t.0, t.1)) (take_drop-append s p)

-- Where the system moves bytes often enough, in pieces of any size and with interruptions, and neither
-- ends nor fails, `writen` returns 1 with all bytes sent, and `readn` of as many bytes, fewer than 2 ^ 31, from
-- a pipe in which they stand returns their number with these bytes and leaves what stands behind them.
pub readn-writen :
    (os os' : List Answer) (s p : Text)
    → length s < 0x80000000
    → Moves (length s) os
    → Moves (length s) os'
    → (writen os s ≡ some (done, s)) × (readn os' (length s) (s ++ p) ≡ some (pos (length s), s, p))
unfolding readn
readn-writen os os' s p small m m' =
    let e : length s % 0x100000000 ≡ length s = omega arith in
    let fits : ltb (length s) 0x80000000 ≡ true = ground arith in
    let int : as_int (length s) ≡ pos (length s) = rw (e, fits) refl in
    (
      writen-whole os s m,
      ap (λ o. o >>= λ r. some (returned (length s) r.0, r.1, r.2))
            (read_on-whole os' (length s) (s ++ p) (omega (arith, length-append s p)) m'
              ∙ ap (λ t. some (done, t.0, t.1)) (take_drop-append s p))
          ∙ ap (λ n. some (n, s, p)) int,
    )

-- What went out, by the status: everything with 1, and with 0 and -1 a part that something follows.
abbrev pub Sent : Text → Option (Status × Text) → Type 0
Sent s none = Unit
Sent s (some (done, t)) = t ≡ s
Sent s (some (ended, t)) = (c : ℕ) × (u : Text) × (t ++ c ∷ u ≡ s)
Sent s (some (error, t)) = (c : ℕ) × (u : Text) × (t ++ c ∷ u ≡ s)

sent-Sent : (s t : Text) (r : Option (Status × Text)) → Sent t r → Sent (s ++ t) (sent s r)
sent-Sent s t none h = tt
sent-Sent s t (some (done, v)) h = ap (λ v. s ++ v) h
sent-Sent s t (some (ended, v)) (c, u, e) = (c, u, append_assoc s v (c ∷ u) ∙ ap (λ v. s ++ v) e)
sent-Sent s t (some (error, v)) (c, u, e) = (c, u, append_assoc s v (c ∷ u) ∙ ap (λ v. s ++ v) e)

-- Whatever the system answers, the bytes that `writen` sends are the first ones of the text, each once
-- and in order, and it returns 1 exactly where they are all of them.
pub writen-Sent : (os : List Answer) (s : Text) → Sent s (writen os s)
unfolding writen
writen-Sent [] [] = refl
writen-Sent [] (c ∷ s) = tt
writen-Sent (interrupted ∷ os) [] = refl
writen-Sent (interrupted ∷ os) (c ∷ s) = writen-Sent os (c ∷ s)
writen-Sent (failed ∷ os) [] = refl
writen-Sent (failed ∷ os) (c ∷ s) = (c, s, refl)
writen-Sent (moved zero ∷ os) [] = refl
writen-Sent (moved zero ∷ os) (c ∷ s) = (c, s, refl)
writen-Sent (moved (suc n) ∷ os) [] = refl
writen-Sent (moved (suc n) ∷ os) (c ∷ s) =
    subst (λ t. Sent (c ∷ t) (writen (moved (suc n) ∷ os) (c ∷ s))) (take-drop n s)
      (sent-Sent (c ∷ take n s) (drop n s) (writen os (drop n s)) (writen-Sent os (drop n s)))
