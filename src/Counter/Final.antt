-- ===== src/Counter/Final.antt =====
-- What the counter renders, and how it ends.
use lso_project.Prelude.{
  ℕ, zero, suc, ◌+◌, ◌-◌, ◌*◌, ◌≤◌, ◌<◌, ◌≡◌, refl, sym, ap, ◌∙◌, true, false, List, [], ◌∷◌, arith,
  if◌then◌else◌,
}
use mathlib.Core.Path.{subst}
use Prim.Native.Nat.add
use lso_project.Counter.{
  Arithmetic, Settings, loops, increment, Counter, count_to, one_if, complete, update, update_timer,
  rounds,
}

-- k increments, one after the other, behind the first number.
abbrev pub sum_of : {A : Arithmetic} → Settings A → ℕ → A.Number
sum_of s zero = s.from
sum_of {A} s (suc k) = A.plus (sum_of s k) (increment s)

-- The sums of up to k increments, the last one first.
abbrev pub sums : {A : Arithmetic} → Settings A → ℕ → List A.Number
sums s zero = s.from ∷ []
sums s (suc k) = sum_of s (suc k) ∷ sums s k

-- Before the last round the counter is on its way.
record Running {A : Arithmetic} (s : Settings A) (k : ℕ) (c : Counter A) : Type 0 where
  value : c.value ≡ sum_of s k
  loop_count : c.loop_count ≡ k
  rendered : c.rendered ≡ sums s k
  live : c.live ≡ true
  updates : c.updates ≡ k * one_if s.has_on_update
  completed : c.completed ≡ []

-- After the last round, and after any more.
pub record Done {A : Arithmetic} (s : Settings A) (n : ℕ) (c : Counter A) : Type 0 where
  pub rendered : c.rendered ≡ sums s n
  pub value : c.value ≡ s.to
  pub live : c.live ≡ false
  pub updates : c.updates ≡ n * one_if s.has_on_update
  pub completed : c.completed ≡ (if s.has_on_complete then s.to ∷ [] else [])

module _ {A : Arithmetic} (s : Settings A) where
  count_to-Running : Running s 0 (count_to s)
  unfolding count_to
  count_to-Running = record {
    value = refl;
    loop_count = refl;
    rendered = refl;
    live = refl;
    updates = omega arith;
    completed = refl;
  }

  running :
      (c : Counter A) → c.live ≡ true → c.loop_count + 1 < loops s → update_timer s c ≡ update s c
  unfolding update_timer
  running c e lt = ground arith

  ending :
      (c : Counter A)
      → c.live ≡ true
      → loops s ≤ c.loop_count + 1
      → update_timer s c ≡ complete s (update s c)
  unfolding update_timer
  ending c e le = ground arith

  dead : (c : Counter A) → c.live ≡ false → update_timer s c ≡ c
  unfolding update_timer
  dead c e = ground arith

  one_more : (k : ℕ) (c : Counter A) → Running s k c → (update s c).rendered ≡ sums s (suc k)
  one_more k c v =
      ap (λ x. A.plus x (increment s) ∷ c.rendered) v.value
      ∙ ap (λ xs. sum_of s (suc k) ∷ xs) v.rendered

  update-Running :
      (k : ℕ) (c : Counter A)
      → Running s k c
      → suc k < loops s
      → Running s (suc k) (update_timer s c)
  update-Running k c v lt = rw (running c v.live (omega (arith, v.loop_count))) (record {
    value = ap (λ x. A.plus x (increment s)) v.value;
    loop_count = omega (arith, v.loop_count);
    rendered = one_more k c v;
    live = v.live;
    updates = omega (arith, v.updates);
    completed = v.completed;
  })

  rounds-Running : (k : ℕ) → k < loops s → Running s k (rounds s k (count_to s))
  unfolding rounds
  rounds-Running zero lt = count_to-Running
  rounds-Running (suc k) lt =
      update-Running k (rounds s k (count_to s)) (rounds-Running k (omega arith)) lt

  ending-Done :
      (k : ℕ) (c : Counter A) → Running s k c → suc k ≡ loops s → Done s (suc k) (update_timer s c)
  ending-Done k c v e = rw (ending c v.live (omega (arith, v.loop_count))) (record {
    rendered = one_more k c v;
    value = refl;
    live = refl;
    updates = omega (arith, v.updates);
    completed = ap (λ xs. if s.has_on_complete then s.to ∷ xs else xs) v.completed;
  })

  update_timer-Done : (n : ℕ) (c : Counter A) → Done s n c → Done s n (update_timer s c)
  update_timer-Done n c v = subst (Done s n) (sym (dead c v.live)) v

  rounds-Done :
      (n extra : ℕ) → suc n ≡ loops s → Done s (suc n) (rounds s (extra + suc n) (count_to s))
  unfolding rounds
  rounds-Done n zero e =
      rw (add.zero (suc n))
        (ending-Done n (rounds s n (count_to s)) (rounds-Running n (omega arith)) e)
  rounds-Done n (suc extra) e =
      rw (add.suc extra (suc n))
        (update_timer-Done (suc n) (rounds s (extra + suc n) (count_to s)) (rounds-Done n extra e))

  loops_pos : 0 < s.speed → 0 < s.refresh_interval → 0 < loops s
  unfolding loops
  loops_pos p q = grind arith

-- With a positive speed and a positive interval, and however the numbers round, the counter ends after `loops`
-- rounds, however many more the clock would give: it has rendered the first number, and then in each round the sum
-- with one increment more, in this order and nothing else, so that the last text shows the sum and not the number
-- `to`; it has updated in each round, its value is `to`, which `onComplete` was given once, and its
-- interval is cleared.
pub rounds-count_to :
    {A : Arithmetic} (s : Settings A) (extra : ℕ)
    → 0 < s.speed
    → 0 < s.refresh_interval
    → Done s (loops s) (rounds s (extra + loops s) (count_to s))
rounds-count_to s extra p q =
    let e : suc (loops s - 1) ≡ loops s = omega (arith, loops_pos s p q) in
    subst (λ n. Done s n (rounds s (extra + n) (count_to s))) e
      (rounds-Done s (loops s - 1) extra e)
