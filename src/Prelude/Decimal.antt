-- ===== src/Prelude/Decimal.antt =====
-- The decimal text of a number, as JavaScript writes it.
use lso_project.Prelude.{
  ℕ, zero, suc, ◌+◌, ◌-◌, ◌*◌, ◌/◌, ◌%◌, ◌<◌, ◌≡◌, refl, ap, ◌∙◌, inl, inr, false, Option, none,
  some, List, All, digit, true, [], ◌∷◌, ◌++◌, arith, ltb, ◌==◌, if◌then◌else◌, ltb→lt, Bool-cases,
  Text, Avoids,
}
use lso_project.Prelude.{digit, read_number}

-- Enough fuel is more than the number.
unfoldable pub digits_of : ℕ → ℕ → Text
digits_of zero n = []
digits_of (suc fuel) n =
    let rest = digits_of fuel (n / 10) in
    if ltb n 10 then (b'0' + n) ∷ [] else rest ++ (b'0' + n % 10) ∷ []

unfoldable pub show_number : ℕ → Text
show_number n = digits_of (suc n) n

-- A text of digits: its number goes on with one more.
abbrev next_digit : ℕ → Option ℕ → Option ℕ
next_digit d none = none
next_digit d (some n) = some (n * 10 + d)

read_number-snoc :
    (a d : ℕ) (s : Text)
    → d < 10
    → read_number a (s ++ (b'0' + d) ∷ []) ≡ next_digit d (read_number a s)
unfolding read_number
read_number-snoc a d [] h = ground arith
read_number-snoc a d (c ∷ s) h = elim (Bool-cases (digit c)) [
  | inl is ↦ rw is (read_number-snoc (a * 10 + (c - b'0')) d s h)
  | inr not_one ↦ rw not_one refl
]

digits_of-small : (fuel n : ℕ) → n < 10 → read_number 0 (digits_of (suc fuel) n) ≡ some n
unfolding digits_of read_number
digits_of-small fuel n h = ground arith

read_number-digits_of : (fuel n : ℕ) → n < fuel → read_number 0 (digits_of fuel n) ≡ some n
read_number-digits_of zero n h = absurd (omega arith)
read_number-digits_of (suc fuel) n h = elim (Bool-cases (ltb n 10)) [
  | inl small ↦ digits_of-small fuel n (ltb→lt n 10 small)
  | inr big ↦
      let ih = read_number-digits_of fuel (n / 10) (ground arith) in
      let e : digits_of (suc fuel) n ≡ digits_of fuel (n / 10) ++ (b'0' + n % 10) ∷ [] =
        unfold digits_of in rw big refl in
      ap (read_number 0) e
      ∙ read_number-snoc 0 (n % 10) (digits_of fuel (n / 10)) (omega arith)
      ∙ ap (next_digit (n % 10)) ih
      ∙ ap some (omega arith)
]

pub read_number-show_number : (n : ℕ) → read_number 0 (show_number n) ≡ some n
unfolding show_number
read_number-show_number n = read_number-digits_of (suc n) n (omega arith)

All-snoc {ℓ κ} :
    {A : Type ℓ} (P : A → Type κ) (x : A) (xs : List A) → All P xs → P x → All P (xs ++ x ∷ [])
All-snoc P x [] h p = (p, tt)
All-snoc P x (y ∷ xs) h p = (h.0, All-snoc P x xs h.1 p)

digits_of-digits : (fuel n : ℕ) → All (λ c. digit c ≡ true) (digits_of fuel n)
unfolding digits_of
digits_of-digits zero n = tt
digits_of-digits (suc fuel) n = elim (Bool-cases (ltb n 10)) [
  | inl small ↦ rw small (ground arith, tt)
  | inr big ↦ rw big (
      All-snoc (λ c. digit c ≡ true) (b'0' + n % 10) (digits_of fuel (n / 10))
        (digits_of-digits fuel (n / 10)) (ground arith))
]

pub show_number-digits : (n : ℕ) → All (λ c. digit c ≡ true) (show_number n)
unfolding show_number
show_number-digits n = digits_of-digits (suc n) n

Avoids-snoc : (sep c : ℕ) (s : Text) → Avoids sep s → (c == sep) ≡ false → Avoids sep (s ++ c ∷ [])
Avoids-snoc sep c [] a h = (h, tt)
Avoids-snoc sep c (d ∷ s) a h = (a.0, Avoids-snoc sep c s a.1 h)

digits_of-Avoids : (fuel n : ℕ) → Avoids b';' (digits_of fuel n)
unfolding digits_of
digits_of-Avoids zero n = tt
digits_of-Avoids (suc fuel) n = elim (Bool-cases (ltb n 10)) [
  | inl small ↦ rw small (ground arith, tt)
  | inr big ↦ rw big (
      Avoids-snoc b';' (b'0' + n % 10) (digits_of fuel (n / 10)) (digits_of-Avoids fuel (n / 10))
        (ground arith))
]

pub show_number-Avoids : (n : ℕ) → Avoids b';' (show_number n)
unfolding show_number
show_number-Avoids n = digits_of-Avoids (suc n) n

snoc-cons : (c : ℕ) (s : Text) → (d : ℕ) × (t : Text) × (s ++ c ∷ [] ≡ d ∷ t)
snoc-cons c [] = (c, [], refl)
snoc-cons c (d ∷ s) = (d, s ++ c ∷ [], refl)

pub show_number-cons : (n : ℕ) → (d : ℕ) × (t : Text) × (show_number n ≡ d ∷ t)
unfolding show_number digits_of
show_number-cons n = elim (Bool-cases (ltb n 10)) [
  | inl small ↦ (b'0' + n, [], rw small refl)
  | inr big ↦ let (d, t, e) = snoc-cons (b'0' + n % 10) (digits_of n (n / 10)) in (d, t, rw big e)
]
