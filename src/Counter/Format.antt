-- ===== src/Counter/Format.antt =====
-- The formatter of `.count-number`: the text of the number with a comma at each match of
-- `/\B(?=(?:\d{3})+(?!\d))/g`.
use lso_project.Prelude.{
  ℕ, suc, ◌%◌, ◌≡◌, refl, ap, inl, inr, Bool, true, false, ◌&&◌, List, [], ◌∷◌, arith, ltb, leb,
  ◌==◌, if◌then◌else◌, Bool-cases, length, Text, codes, cons_first, split, Avoids,
}
use mathlib.Core.Path.{subst}

unfoldable pub is_digit : ℕ → Bool
is_digit c = leb b'0' c && leb c b'9'

-- The number of digits at the beginning of a text.
unfoldable pub digits_run : Text → ℕ
digits_run [] = 0
digits_run (c ∷ s) = if is_digit c then suc (digits_run s) else 0

-- The lookahead: a positive number of groups of three digits, and no digit behind them.
unfoldable pub ahead : Text → Bool
ahead s = ltb 0 (digits_run s) && digits_run s % 3 == 0

-- The replacement from a place on; `inside` says that a word character stands before it, and the
-- place is no word boundary then, since a digit follows. The texts are those of `toFixed`, whose
-- word characters are digits.
unfoldable pub commas : Bool → Text → Text
commas inside [] = []
commas inside (c ∷ s) =
    if inside && ahead (c ∷ s) then b',' ∷ c ∷ commas (is_digit c) s else c ∷ commas (is_digit c) s

unfoldable pub format : Text → Text
unfolding commas ahead digits_run is_digit
format s = commas false s

format_runs : format (codes "-1234567.5") ≡ codes "-1,234,567.5"
unfolding format
format_runs = refl

format_fraction : format (codes "1234.5678") ≡ codes "1,234.5,678"
unfolding format
format_fraction = refl

-- `replace(/,/g, '')`
unfoldable pub without_commas : Text → Text
without_commas [] = []
without_commas (c ∷ s) = if c == b',' then without_commas s else c ∷ without_commas s

without_commas-commas :
    (inside : Bool) (s : Text) → Avoids b',' s → without_commas (commas inside s) ≡ s
unfolding commas without_commas
without_commas-commas inside [] h = refl
without_commas-commas inside (c ∷ s) h =
    ground (arith, h.0, without_commas-commas (is_digit c) s h.1)

abbrev pub AllDigits : Text → Type 0
AllDigits [] = Unit
AllDigits (c ∷ s) = (is_digit c ≡ true) × AllDigits s

digits_run-AllDigits : (s : Text) → AllDigits s → digits_run s ≡ length s
unfolding digits_run
digits_run-AllDigits [] h = refl
digits_run-AllDigits (c ∷ s) h = rw h.0 (ap suc (digits_run-AllDigits s h.1))

-- The first group has n characters, and the others have three.
abbrev pub AllThree : List Text → Type 0
AllThree [] = Unit
AllThree (g ∷ gs) = (length g ≡ 3) × AllThree gs

abbrev pub Grouped : ℕ → List Text → Type 0
Grouped n [] = ⊥
Grouped n (g ∷ gs) = (length g ≡ n) × AllThree gs

Grouped-cons : (c n : ℕ) (gs : List Text) → Grouped n gs → Grouped (suc n) (cons_first c gs)
Grouped-cons c n [] h = absurd h
Grouped-cons c n (g ∷ gs) h = (ap suc h.0, h.1)

AllThree-cons : (c : ℕ) (gs : List Text) → Grouped 2 gs → AllThree (cons_first c gs)
AllThree-cons c [] h = absurd h
AllThree-cons c (g ∷ gs) h = (ap suc h.0, h.1)

digit_no_comma : (c : ℕ) → is_digit c ≡ true → (c == b',') ≡ false
unfolding is_digit
digit_no_comma c h = ground arith

AllDigits-Avoids : (s : Text) → AllDigits s → Avoids b',' s
AllDigits-Avoids [] h = tt
AllDigits-Avoids (c ∷ s) h = (digit_no_comma c h.0, AllDigits-Avoids s h.1)

split-digit :
    (c : ℕ) (s : Text) → is_digit c ≡ true → split b',' (c ∷ s) ≡ cons_first c (split b',' s)
unfolding split
split-digit c s h = rw (digit_no_comma c h)

split-comma : (s : Text) → split b',' (b',' ∷ s) ≡ [] ∷ split b',' s
unfolding split
split-comma s = refl

ahead-AllDigits : (c : ℕ) (s : Text) → AllDigits (c ∷ s) → ahead (c ∷ s) ≡ (suc (length s) % 3 == 0)
unfolding ahead
ahead-AllDigits c s h = ground (arith, digits_run-AllDigits (c ∷ s) h)

commas_step :
    (c : ℕ) (s : Text)
    → is_digit c ≡ true
    → commas true (c ∷ s) ≡ (if ahead (c ∷ s) then b',' ∷ c ∷ commas true s else c ∷ commas true s)
unfolding commas
commas_step c s h = rw h

commas-Grouped : (s : Text) → AllDigits s → Grouped (length s % 3) (split b',' (commas true s))
commas-Grouped [] h = unfold commas split in (refl, tt)
commas-Grouped (c ∷ s) h =
    let ih = commas-Grouped s h.1 in
    rw (commas_step c s h.0, ahead-AllDigits c s h)
      (elim (Bool-cases (suc (length s) % 3 == 0)) [
        | inl full ↦
            rw (full, split-comma (c ∷ commas true s), split-digit c (commas true s) h.0)
              (ground arith, AllThree-cons c (split b',' (commas true s)) (two full ih))
        | inr more ↦
            rw (more, split-digit c (commas true s) h.0)
              (one_more more (Grouped-cons c (length s % 3) (split b',' (commas true s)) ih))
      ])
  where
    two :
        (suc (length s) % 3 == 0) ≡ true
        → Grouped (length s % 3) (split b',' (commas true s))
        → Grouped 2 (split b',' (commas true s))
    two e = subst (λ n. Grouped n (split b',' (commas true s))) (ground arith)

    one_more :
        (suc (length s) % 3 == 0) ≡ false
        → Grouped (suc (length s % 3)) (cons_first c (split b',' (commas true s)))
        → Grouped (suc (length s) % 3) (cons_first c (split b',' (commas true s)))
    one_more e = subst (λ n. Grouped n (cons_first c (split b',' (commas true s)))) (ground arith)

-- In a text of n + 1 digits and nothing else the commas are only added: without them the text is
-- the given one. They cut off a first group of n % 3 + 1 digits, and then groups of three.
pub format-Grouped :
    (c : ℕ) (s : Text)
    → AllDigits (c ∷ s)
    → (without_commas (format (c ∷ s)) ≡ c ∷ s)
      × Grouped (suc (length s % 3)) (split b',' (format (c ∷ s)))
unfolding format
format-Grouped c s h = (
  without_commas-commas false (c ∷ s) (AllDigits-Avoids (c ∷ s) h),
  rw (h.0, split-digit c (commas true s) h.0)
      (Grouped-cons c (length s % 3) (split b',' (commas true s)) (commas-Grouped s h.1)),
)
