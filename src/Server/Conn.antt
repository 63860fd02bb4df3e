-- ===== src/Server/Conn.antt =====
-- includes/conn.c: readn and writen go on until all bytes have passed. What the operating system answers to each
-- `read` and `write` is a list; where it ends, the call still waits, and there is no result.
pub mod Whole
use lso_project.Prelude.{
  ℕ, zero, suc, ◌-◌, ◌%◌, Bool, Option, none, some, List, [], ◌∷◌, ◌++◌, ◌>>=◌, ltb, ◌==◌,
  if◌then◌else◌, Text,
}
use lso_project.Prelude.Int.{ℤ, pos, negsuc}
use lso_project.Server.Cstring.{min, take, drop}

-- `moved n`: the system has room for n bytes, or n bytes at hand, and it takes as many as are asked for
-- at most. 0 is the end of the file.
pub data Answer : Type 0 where
  moved : ℕ → Answer
  interrupted : Answer
  failed : Answer

-- How the two loops end.
pub data Status : Type 0 where
  done : Status
  ended : Status
  error : Status

abbrev pub sent : Text → Option (Status × Text) → Option (Status × Text)
sent s none = none
sent s (some (r, t)) = some (r, s ++ t)

-- `writen`: the status, and the bytes that went out.
unfoldable pub writen : List Answer → Text → Option (Status × Text)
writen os [] = some (done, [])
writen [] (c ∷ s) = none
writen (interrupted ∷ os) (c ∷ s) = writen os (c ∷ s)
writen (failed ∷ os) (c ∷ s) = some (error, [])
writen (moved zero ∷ os) (c ∷ s) = some (ended, [])
writen (moved (suc n) ∷ os) (c ∷ s) = sent (c ∷ take n s) (writen os (drop n s))

abbrev pub got : Text → Option (Status × Text × Text) → Option (Status × Text × Text)
got s none = none
got s (some (r, t, rest)) = some (r, s ++ t, rest)

-- The loop of `readn` for as many bytes, from what stands in the pipe: the status, the bytes, and what
-- is left. A read where nothing stands in the pipe waits.
unfoldable pub read_on : List Answer → ℕ → Text → Option (Status × Text × Text)
read_on os zero p = some (done, [], p)
read_on [] (suc k) p = none
read_on (interrupted ∷ os) (suc k) p = read_on os (suc k) p
read_on (failed ∷ os) (suc k) p = some (error, [], p)
read_on (moved zero ∷ os) (suc k) p = some (ended, [], p)
read_on (moved (suc n) ∷ os) (suc k) [] = none
read_on (moved (suc n) ∷ os) (suc k) (c ∷ p) =
    got (c ∷ take (min n k) p) (read_on os (k - min n k) (drop (min n k) p))

-- `(int) size`, in two's complement.
abbrev pub as_int : ℕ → ℤ
as_int n = let m = n % 0x100000000 in if ltb m 0x80000000 then pos m else negsuc (0xffffffff - m)

abbrev pub returned : ℕ → Status → ℤ
returned size done = as_int size
returned size ended = pos 0
returned size error = negsuc 0

-- `readn`: what it returns, the bytes, and what is left.
unfoldable pub readn : List Answer → ℕ → Text → Option (ℤ × Text × Text)
unfolding read_on
readn os size p = do r ← read_on os size p; some (returned size r.0, r.1, r.2)

-- The size is -1 as an `int`, which the callers of `readn` take for an error.
abbrev pub is_error : ℕ → Bool
is_error n = n % 0x100000000 == 0xffffffff
