-- ===== src/Server/Queue/Popped.antt =====
-- The oldest request of a sound queue is taken.
use lso_project.Prelude.{
  ℕ, ◌-◌, ◌≡◌, refl, sym, ap, ◌∙◌, ◌≢◌, Option, none, some, List, [], ◌∷◌, ◌++◌, ◌>>=◌, arith,
  length-append, append_assoc,
}
use mathlib.Core.Path.{subst}
use lso_project.Server.Request.{Request}
use lso_project.Server.Queue.{Link, Heap, Queue, update, unlink, pop}
use lso_project.Server.Queue.Linked.{
  Entry, first, last_or, Off, Apart, Chain, Queued, update-same, update-other,
}

-- An entry in the list.
Chain-at :
    (h : Heap) (p : Option ℕ) (es fs : List Entry) (a : ℕ) (r : Request)
    → Chain h p (es ++ (a, r) ∷ fs)
    → h a ≡ some (record { request = r; son = first fs; father = last_or p es })
Chain-at h p [] fs a r c = c.0
Chain-at h p (e ∷ es) fs a r c = Chain-at h (some e.0) es fs a r c.1

last_or-append : (p : Option ℕ) (es : List Entry) (e : Entry) → last_or p (es ++ e ∷ []) ≡ some e.0
last_or-append p [] e = refl
last_or-append p (d ∷ es) e = last_or-append (some d.0) es e

-- The list without its last entry, where the one before it has no son any more.
Chain-cut :
    (h : Heap) (p : Option ℕ) (es : List Entry) (b : ℕ) (s : Request) (e : Entry)
    → Apart (es ++ (b, s) ∷ [])
    → Chain h p (es ++ (b, s) ∷ e ∷ [])
    → Chain
        (update b (record { request = s; son = none; father = last_or p es }) h)
        p
        (es ++ (b, s) ∷ [])
Chain-cut h p [] b s e o c = (update-same b _ h, tt)
Chain-cut h p ((d, t) ∷ []) b s e o c =
    (update-other b d _ h (λ q. o.0.0 (sym q)) ∙ c.0, Chain-cut h (some d) [] b s e o.1 c.1)
Chain-cut h p ((d, t) ∷ f ∷ es) b s e o c = (
  update-other b d _ h (λ q. off-last (f ∷ es) o.0 (sym q)) ∙ c.0,
  Chain-cut h (some d) (f ∷ es) b s e o.1 c.1,
)
  where
    off-last : (es : List Entry) → Off d (es ++ (b, s) ∷ []) → d ≢ b
    off-last [] h = h.0
    off-last (g ∷ es) h = off-last es h.1

Apart-front : (es fs : List Entry) → Apart (es ++ fs) → Apart es
Apart-front [] fs h = tt
Apart-front (e ∷ es) fs h = (off es h.0, Apart-front es fs h.1)
  where
    off : (es : List Entry) → Off e.0 (es ++ fs) → Off e.0 es
    off [] h = tt
    off (d ∷ es) h = (h.0, off es h.1)

first-append : (es : List Entry) (e d : Entry) → first (es ++ e ∷ d ∷ []) ≡ first (es ++ e ∷ [])
first-append [] e d = refl
first-append (c ∷ es) e d = refl

-- The request of the last entry, and the queue without it.
Popped : Request → List Entry → Option (Request × Queue) → Type 0
Popped r es o = (q : Queue) × (o ≡ some (r, q)) × Queued es q

uncounted : Request → Queue → Option (Request × Queue)
uncounted r q = some (r, record q { count_rq = q.count_rq - 1 })

pop_behind :
    (a : ℕ) (n : Link) (q : Queue)
    → q.last ≡ some a
    → q.heap a ≡ some n
    → pop q ≡ (unlink n.father q >>= uncounted n.request)
unfolding pop uncounted
pop_behind a n q l h =
    let rest : Link → Option (Request × Queue) = λ n. unlink n.father q >>= uncounted n.request in
    ap (λ l. l >>= λ a. q.heap a >>= rest) l ∙ ap (λ o. o >>= rest) h

pop-one : (a : ℕ) (r : Request) (q : Queue) → Queued ((a, r) ∷ []) q → Popped r [] (pop q)
unfolding Popped uncounted
pop-one a r q v = (
  record q { head = none; last = none; count_rq = q.count_rq - 1 },
  pop_behind a (record { request = r; son = none; father = none }) q v.at_last v.chain.0,
  record { chain = tt; apart = tt; at_head = refl; at_last = refl; count = omega (arith, v.count) },
)

pop-more :
    (es : List Entry) (b a : ℕ) (s r : Request) (q : Queue)
    → Queued (es ++ (b, s) ∷ (a, r) ∷ []) q
    → Popped r (es ++ (b, s) ∷ []) (pop q)
unfolding Popped uncounted
pop-more es b a s r q v =
    let shape = append_assoc es ((b, s) ∷ []) ((a, r) ∷ []) in
    let w = subst (λ fs. Queued fs q) (sym shape) v in
    let n : Link = record { request = r; son = none; father = last_or none (es ++ (b, s) ∷ []) } in
    let m : Link = record { request = s; son = none; father = last_or none es } in
    let u : Queue = record q { heap = update b m q.heap; last = some b } in
    let cut : Link → Option Queue =
      λ n. some (record q { heap = update b (record n { son = none }) q.heap }) in
    let linked : unlink (some b) q ≡ some u =
      ap (λ o. (o >>= cut) >>= λ q. some (record q { last = some b }))
        (Chain-at q.heap none es ((a, r) ∷ []) b s v.chain) in
    (
      record u { count_rq = q.count_rq - 1 },
      pop_behind a n q (w.at_last ∙ last_or-append none (es ++ (b, s) ∷ []) (a, r))
            (Chain-at q.heap none (es ++ (b, s) ∷ []) [] a r w.chain)
          ∙ ap (λ f. unlink f q >>= uncounted r) (last_or-append none es (b, s))
          ∙ ap (λ o. o >>= uncounted r) linked,
      record {
        chain =
            Chain-cut q.heap none es b s (a, r)
              (Apart-front (es ++ (b, s) ∷ []) ((a, r) ∷ []) w.apart) v.chain;
        apart = Apart-front (es ++ (b, s) ∷ []) ((a, r) ∷ []) w.apart;
        at_head = v.at_head ∙ first-append es (b, s) (a, r);
        at_last = sym (last_or-append none es (b, s));
        count = omega (
          arith,
          v.count,
          length-append es ((b, s) ∷ (a, r) ∷ []),
          length-append es ((b, s) ∷ []),
        );
      },
    )

pub pop-Queued :
    (es : List Entry) (a : ℕ) (r : Request) (q : Queue)
    → Queued (es ++ (a, r) ∷ []) q
    → (q' : Queue) × (pop q ≡ some (r, q')) × Queued es q'
unfolding Popped
pop-Queued [] a r q v = pop-one a r q v
pop-Queued (e ∷ es) a r q v =
    let (fs, (b, s), p) = last_of e es in
    let shape : (e ∷ es) ++ (a, r) ∷ [] ≡ fs ++ (b, s) ∷ (a, r) ∷ [] =
      ap (λ xs. xs ++ (a, r) ∷ []) p ∙ append_assoc fs ((b, s) ∷ []) ((a, r) ∷ []) in
    subst (λ xs. Popped r xs (pop q)) (sym p)
      (pop-more fs b a s r q (subst (λ xs. Queued xs q) shape v))
  where
    last_of :
        (e : Entry) (es : List Entry) → (fs : List Entry) × (d : Entry) × (e ∷ es ≡ fs ++ d ∷ [])
    last_of e [] = ([], e, refl)
    last_of e (d ∷ es) = let (fs, f, p) = last_of d es in (e ∷ fs, f, ap (λ xs. e ∷ xs) p)
