-- ===== src/Server/Config/Lines.antt =====
-- What a configuration file says is what the server reads, where a space follows each value.
use lso_project.Prelude.{
  ℕ, ◌%◌, ◌<◌, ◌≡◌, refl, sym, ap, ◌∙◌, true, false, Option, some, ◌∷◌, ◌++◌, ◌>>=◌, arith, ltb,
  ◌==◌, if◌then◌else◌, Text, Avoids, codes,
}
use lso_project.Prelude.Int.{ℤ, pos}
use lso_project.Prelude.Decimal.{show_number, show_number-cons}
use mathlib.Core.Path.{subst}
use lso_project.Server.Cstring.{begins, strtok_r, strtok_r-append}
use lso_project.Server.Wire.Sizes.{strtol-show_number, show_number-without}
use lso_project.Server.Config.{Config, to_int, number_or, name_or}

-- A number that `int` can hold, and is not 0.
abbrev pub Int32 : ℕ → Type 0
Int32 n = (0 < n) × (n < 0x80000000)

to_int-small : (n : ℕ) → Int32 n → to_int n ≡ pos n
to_int-small n h =
    let e : n % 0x100000000 ≡ n = omega arith in
    let small : ltb n 0x80000000 ≡ true = ground arith in rw (e, small) refl

number_or-shown : (default n : ℕ) → Int32 n → number_or default (show_number n) ≡ pos n
number_or-shown default n h =
    let more : (n == 0) ≡ false = ground arith in
    rw (strtol-show_number n (omega arith), more) (to_int-small n h)

-- A value, a space and a comment.
abbrev pub valued : Text → Text → Text
valued value comment = value ++ 32 ∷ comment

value_token :
    (c : ℕ) (v comment : Text)
    → Avoids 32 (c ∷ v)
    → strtok_r 32 (valued (c ∷ v) comment) ≡ some (c ∷ v, comment)
value_token c v comment h = strtok_r-append 32 c v comment h

number_token :
    (n : ℕ) (comment : Text)
    → strtok_r 32 (valued (show_number n) comment) ≡ some (show_number n, comment)
number_token n comment =
    let (c, v, e) = show_number-cons n in
    ap (λ v. strtok_r 32 (valued v comment)) e
    ∙ strtok_r-append 32 c v comment (subst (Avoids 32) e (show_number-without 32 n refl))
    ∙ ap (λ v. some (v, comment)) (sym e)

-- Behind the key, a number or a name is set.
pub number_set :
    (default n : ℕ) (comment : Text) (set : ℤ → Config)
    → Int32 n
    → (strtok_r 32 (valued (show_number n) comment) >>= λ u. some (set (number_or default u.0)))
      ≡ some (set (pos n))
number_set default n comment set h =
    ap (λ o. o >>= λ u. some (set (number_or default u.0))) (number_token n comment)
    ∙ ap (λ z. some (set z)) (number_or-shown default n h)

pub name_set :
    (default : Text) (c : ℕ) (v comment : Text) (set : Option Text → Config)
    → Avoids 32 (c ∷ v)
    → begins (codes "#") (c ∷ v) ≡ false
    → ◌≡◌ {A = Option Config}
        (some (set (name_or default (strtok_r 32 (valued (c ∷ v) comment)))))
        (some (set (some (c ∷ v))))
name_set default c v comment set h plain =
    ap (λ o. some (set (name_or default o))) (value_token c v comment h)
    ∙ ap (λ b. some (set (if b then some default else some (c ∷ v)))) plain
