-- ===== src/Server/Manager/Sets.antt =====
-- Sets of descriptors, and the largest of them.
use lso_project.Prelude.{
  ℕ, zero, suc, ◌+◌, ◌<◌, ◌≡◌, refl, ap, ◌∙◌, ◌≢◌, inl, inr, true, false, some, List, [], ◌∷◌, ◌++◌,
  arith, ltb, ◌==◌, if◌then◌else◌, Bool-cases, ltb→lt,
}
use lso_project.Server.Manager.{count, fd_isset, fd_set, fd_clr, updatemax}

pub count-append : (x : ℕ) (xs ys : List ℕ) → count x (xs ++ ys) ≡ count x xs + count x ys
count-append x [] ys = omega arith
count-append x (y ∷ xs) ys = omega (arith, count-append x xs ys)

pub count-fd_set :
    (x fd : ℕ) (s : List ℕ)
    → count fd s ≡ 0
    → count x (fd_set fd s) ≡ (if x == fd then 1 else 0) + count x s
count-fd_set x fd s h = rw h refl

pub count-fd_clr_self : (fd : ℕ) (s : List ℕ) → count fd (fd_clr fd s) ≡ 0
count-fd_clr_self fd [] = refl
count-fd_clr_self fd (x ∷ s) = ground (arith, count-fd_clr_self fd s)

pub count-fd_clr_other : (x fd : ℕ) (s : List ℕ) → x ≢ fd → count x (fd_clr fd s) ≡ count x s
count-fd_clr_other x fd [] h = refl
count-fd_clr_other x fd (y ∷ s) h = ground (arith, count-fd_clr_other x fd s h)

-- A descriptor of the set that is not its bound lies below it.
below : (s : List ℕ) (x n : ℕ) → count n s ≡ 0 → 0 < count x s → x < suc n → x < n
below s x n e h b = elim (Bool-cases (ltb x n)) [
  | inl lt ↦ ltb→lt x n lt
  | inr ge ↦ let same : x ≡ n = ground arith in absurd (omega (arith, ap (λ y. count y s) same))
]

upto : (s : List ℕ) (y n : ℕ) → count n s ≡ 0 → (y < n → count y s ≡ 0) → y < suc n → count y s ≡ 0
upto s y n e t q = elim (Bool-cases (ltb y n)) [
  | inl lt ↦ t (ltb→lt y n lt)
  | inr ge ↦ let same : y ≡ n = ground arith in ap (λ y. count y s) same ∙ e
]

-- The largest descriptor of the set that lies below a bound.
pub updatemax-largest :
    (s : List ℕ) (x n : ℕ)
    → 0 < count x s
    → x < n
    → (m : ℕ) × (updatemax s n ≡ some m)
      × (m < n)
      × (0 < count m s)
      × ((y : ℕ) → m < y → y < n → count y s ≡ 0)
unfolding updatemax
updatemax-largest s x zero h b = absurd (omega arith)
updatemax-largest s x (suc n) h b = elim (Bool-cases (fd_isset n s)) [
  | inl is ↦ (n, found is, omega arith, ground arith, λ y p q. absurd (omega arith))
  | inr is_not ↦
      let none_at : count n s ≡ 0 = ground arith in
      let (m, e, l, w, top) = updatemax-largest s x n h (below s x n none_at h b) in
      (m, missed is_not ∙ e, omega arith, w, λ y p q. upto s y n none_at (top y p) q)
]
  where
    found : fd_isset n s ≡ true → updatemax s (suc n) ≡ some n
    found is = rw is refl

    missed : fd_isset n s ≡ false → updatemax s (suc n) ≡ updatemax s n
    missed is_not = rw is_not refl
