-- ===== src/Timeline/Session/Liveness.antt =====
-- The cycle comes to every event.
use lso_project.Prelude.{
  ℕ, zero, suc, ◌+◌, ◌-◌, ◌*◌, ◌≤◌, ◌<◌, ◌≡◌, refl, sym, ap, ◌∙◌, inl, inr, Option, none, some,
  arith, ltb, ltb→lt, Bool-cases, length, length-map,
}
use lso_project.Timeline.{Settings, Media, Event, Timeline, ◌>>=◌}
use mathlib.Core.Path.{subst}
use lso_project.Timeline.Flags.{IsAt}
use lso_project.Timeline.Layout.{is_phone}
use lso_project.Timeline.Select.Shows.{Shows}
use lso_project.Timeline.Select.Steps.{firsts, lt_length}
use lso_project.Timeline.Advance.{interval, passed, with_progress, increment}
use lso_project.Timeline.Advance.Cycling.{interval-Shows, autoplay-Shows, follower}
use lso_project.Timeline.Holds.{Holds}
use lso_project.Timeline.Session.Kept.{Kept, interval-Kept}
use lso_project.Timeline.Session.Playing.{Plays, interval-Plays}

-- Rounds of the interval, one after the other.
abbrev pub rounds : ℕ → ℕ → Timeline → Option Timeline
rounds total zero t = some t
rounds total (suc r) t = interval total t >>= λ u. rounds total r u

bind-inv :
    {A B : Type 0} (o : Option A) (f : A → Option B) (b : B)
    → (o >>= f) ≡ some b
    → (a : A) × (o ≡ some a) × (f a ≡ some b)
bind-inv none f b h = cc
bind-inv (some a) f b h = (a, refl, h)

rounds-add :
    (total a b : ℕ) (t u : Timeline)
    → rounds total a t ≡ some u
    → rounds total (a + b) t ≡ rounds total b u
rounds-add total zero b t u h =
    let none_more : 0 + b ≡ b = omega arith in
    ap (λ m. rounds total m t) none_more ∙ ap (λ o. o >>= λ x. rounds total b x) h
rounds-add total (suc a) b t u h =
    let (x, e, q) = bind-inv (interval total t) (λ x. rounds total a x) u h in
    let one_more : suc a + b ≡ suc (a + b) = omega arith in
    ap (λ m. rounds total m t) one_more
    ∙ ap (λ o. o >>= λ x. rounds total (a + b) x) e
    ∙ rounds-add total a b x u q

-- A timeline of n events that shows event k, with the cycle running.
record Cycles (s : Settings) (n k : ℕ) (t : Timeline) : Type 0 where
  shows : Shows k t
  home : IsAt 0 (firsts t.events)
  many : length t.events ≡ n
  plays : Plays s t

increment_positive : (m : Media) → 0 < increment m
increment_positive m = elim (Bool-cases (is_phone m)) [
  | inl phone ↦ rw phone (omega arith)
  | inr wide ↦ rw wide (omega arith)
]

abbrev SameFirsts : Timeline → Option Timeline → Type 0
SameFirsts t =
    Holds (Kept (λ e. e.first) (λ e b. refl) (λ e b. refl) (λ s a. Unit) (firsts t.events))

Cycles-by :
    (s : Settings) (total n k j : ℕ) (t t' : Timeline)
    → Cycles s n k t
    → interval total t ≡ some t'
    → Shows j t'
    → Cycles s n j t'
Cycles-by s total n k j t t' c p v =
    let kept = subst (SameFirsts t) p (
      interval-Kept (λ e. e.first) (λ e b. refl) (λ e b. refl) (λ s a. Unit) (λ s a on h. tt)
        (λ s a p h. tt) (firsts t.events) total t (refl, tt)) in
    let same : firsts t'.events ≡ firsts t.events = kept.0 in
    record {
      shows = v;
      home = subst (IsAt 0) (sym same) c.home;
      many =
          sym (length-map (λ (e : Event). e.first) t'.events)
          ∙ ap length same
          ∙ length-map (λ (e : Event). e.first) t.events
          ∙ c.many;
      plays = subst (Holds (Plays s)) p (interval-Plays s total t c.plays);
    }

Arrives : Settings → ℕ → ℕ → ℕ → ℕ → Timeline → Type 0
Arrives s total n j g t =
    (r : ℕ) × (t' : Timeline) × (rounds total r t ≡ some t') × Cycles s n j t' × (r ≤ g)

-- The next event comes within g rounds, if the time and g rounds make up the speed.
hop :
    (s : Settings) (total n k g : ℕ) (t : Timeline)
    → Cycles s n k t
    → 100 * s.autoplay_speed ≤ t.autoplay.progress + g
    → 0 < g
    → Arrives s total n (follower n k) g t
unfolding Arrives
hop s total n k zero t c time some_left = absurd (omega arith)
hop s total n k (suc g) t c time some_left =
    elim (interval-Shows total k t c.shows c.home c.plays.running) [
      | inl (early, p) ↦
          let u = with_progress (passed t) t in
          let d : Cycles s n k u = Cycles-by s total n k k t u c p (autoplay-Shows k _ t c.shows) in
          let speed : t.settings.autoplay_speed ≡ s.autoplay_speed =
            ap (λ x. x.autoplay_speed) c.plays.settings in
          let (r, t', q, e, le) =
            hop s total n k g u d (omega (arith, increment_positive t.media))
              (omega (arith, speed, early, increment_positive t.media)) in
          (suc r, t', ap (λ o. o >>= λ x. rounds total r x) p ∙ q, e, omega arith)
      | inr (due, (t', p, v)) ↦ (
        1,
        t',
        ap (λ o. o >>= λ x. rounds total 0 x) p,
        Cycles-by s total n k (follower n k) t t' c p
            (subst (λ i. Shows (follower i k) t') c.many v),
        omega arith,
      )
    ]

Arrives-then :
    (s : Settings) (total n j i g g' : ℕ) (t : Timeline)
    → Arrives s total n j g t
    → ((u : Timeline) → Cycles s n j u → Arrives s total n i g' u)
    → Arrives s total n i (g + g') t
unfolding Arrives
Arrives-then s total n j i g g' t (r, u, p, c, le) then_on =
    let (q, t', p', d, le') = then_on u c in
    (r + q, t', rounds-add total r q t u p ∙ p', d, omega arith)

module _ (s : Settings) (total n : ℕ) (positive : 0 < s.autoplay_speed) where
  abbrev longest : ℕ
  longest = 100 * s.autoplay_speed

  hop_once : (k : ℕ) (t : Timeline) → Cycles s n k t → Arrives s total n (follower n k) longest t
  hop_once k t c = hop s total n k longest t c (omega arith) (omega arith)

  climb :
      (d k : ℕ) (t : Timeline)
      → Cycles s n k t
      → k + d < n
      → Arrives s total n (k + d) (d * longest) t
  unfolding Arrives
  climb zero k t c lt = (0, t, refl, subst (λ i. Cycles s n i t) (omega arith) c, omega arith)
  climb (suc d) k t c lt =
      let up : follower n k ≡ suc k = unfold follower in ground arith in
      let lt' : suc k + d < n = omega arith in
      let sum : suc k + d ≡ k + suc d = omega arith in
      let (r, t', p, e, le) =
        Arrives-then s total n (suc k) (suc k + d) longest (d * longest) t
          (subst (λ i. Arrives s total n i longest t) up (hop_once k t c))
          (λ u e. climb d (suc k) u e lt') in
      (r, t', p, subst (λ i. Cycles s n i t') sum e, omega (arith, le))

  -- Past the last event and up to event j again.
  climb_round :
      (j k d : ℕ) (t : Timeline)
      → Cycles s n k t
      → suc (k + d) ≡ n
      → j < n
      → Arrives s total n j (d * longest + (longest + j * longest)) t
  climb_round j k d t c last lt =
      let over : follower n (k + d) ≡ 0 = unfold follower in ground arith in
      let from_start : 0 + j ≡ j = omega arith in
      Arrives-then s total n (k + d) j (d * longest) (longest + j * longest) t
        (climb d k t c (omega arith))
        (λ u e.
          Arrives-then s total n 0 j longest (j * longest) u
            (subst (λ i. Arrives s total n i longest u) over (hop_once (k + d) u e))
            (λ x f.
              subst (λ i. Arrives s total n i (j * longest) x) from_start
                (climb j 0 x f (omega arith))))

grows : (a b g : ℕ) → a ≤ b → a * g ≤ b * g
grows a b g h = grind arith

summed : (d j g : ℕ) → d * g + (g + j * g) ≡ (d + suc j) * g
summed d j g = grind arith

-- While the cycle plays at a positive speed and nobody touches the timeline, it comes to every
-- event: from a timeline that shows event k of n, with the class `first` on its first event alone,
-- at most n times 100 times the speed rounds of the interval, and no error, lead to one that shows
-- event j, and one interval is still all that is set.
pub rounds-Shows :
    (total j k : ℕ) (t : Timeline)
    → Shows k t
    → IsAt 0 (firsts t.events)
    → Plays t.settings t
    → 0 < t.settings.autoplay_speed
    → j < length t.events
    → (r : ℕ) × (t' : Timeline) × (rounds total r t ≡ some t')
      × Shows j t'
      × Plays t.settings t'
      × (r ≤ length t.events * (100 * t.settings.autoplay_speed))
unfolding Arrives
rounds-Shows total j k t v f p positive lt =
    let n = length t.events in
    let g = 100 * t.settings.autoplay_speed in
    let c : Cycles t.settings n k t = record { shows = v; home = f; many = refl; plays = p } in
    elim (Bool-cases (ltb j k)) [
      | inl below ↦
          let (r, t', q, e, le) =
            climb_round t.settings total n positive j k (n - 1 - k) t c
              (omega (arith, lt_length t v)) lt in
          let j_below : j < k = ltb→lt j k below in
          let fits = grows (n - 1 - k + suc j) n g (omega (arith, lt_length t v)) in
          (r, t', q, e.shows, e.plays, omega (arith, le, fits, summed (n - 1 - k) j g))
      | inr above ↦
          let at_most : k ≤ j = ground arith in
          let same : k + (j - k) ≡ j = omega arith in
          let (r, t', q, e, le) = climb t.settings total n positive (j - k) k t c (omega arith) in
          (
            r,
            t',
            q,
            subst (λ i. Shows i t') same e.shows,
            e.plays,
            omega (arith, le, grows (j - k) n g (omega arith)),
          )
    ]
