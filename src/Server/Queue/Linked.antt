-- ===== src/Server/Queue/Linked.antt =====
-- A queue whose list is sound, and its two operations on it.
use lso_project.Prelude.{
  ℕ, ◌+◌, ◌≡◌, refl, sym, ap, ◌∙◌, ◌≢◌, false, Option, none, some, List, [], ◌∷◌, ◌>>=◌, arith,
  ◌==◌, ==_iff, length,
}
use lso_project.Server.Request.{Request}
use lso_project.Server.Queue.{Link, Heap, Queue, update, set_father, link, push, made}

abbrev pub Entry : Type 0
Entry = ℕ × Request

abbrev pub first : List Entry → Option ℕ
first [] = none
first (e ∷ es) = some e.0

abbrev pub last_or : Option ℕ → List Entry → Option ℕ
last_or p [] = p
last_or p (e ∷ es) = last_or (some e.0) es

abbrev pub Off : ℕ → List Entry → Type 0
Off a [] = Unit
Off a (e ∷ es) = (a ≢ e.0) × Off a es

abbrev pub Apart : List Entry → Type 0
Apart [] = Unit
Apart (e ∷ es) = Off e.0 es × Apart es

-- From the father `p` on, the nodes hold the requests in order, from the newest to the oldest.
abbrev pub Chain : Heap → Option ℕ → List Entry → Type 0
Chain h p [] = Unit
Chain h p ((a, r) ∷ es) =
    (h a ≡ some (record { request = r; son = first es; father = p })) × Chain h (some a) es

pub record Queued (es : List Entry) (q : Queue) : Type 0 where
  pub chain : Chain q.heap none es
  pub apart : Apart es
  pub at_head : q.head ≡ first es
  pub at_last : q.last ≡ last_or none es
  pub count : q.count_rq ≡ length es

pub update-same : (a : ℕ) (n : Link) (h : Heap) → update a n h a ≡ some n
update-same a n h = ground arith

pub update-other : (a b : ℕ) (n : Link) (h : Heap) → a ≢ b → update a n h b ≡ h b
update-other a b n h ne = let e : (b == a) ≡ false = grind (arith, ==_iff b a) in rw e refl

pub Chain-update :
    (a : ℕ) (n : Link) (h : Heap) (p : Option ℕ) (es : List Entry)
    → Off a es
    → Chain h p es
    → Chain (update a n h) p es
Chain-update a n h p [] o c = tt
Chain-update a n h p ((b, r) ∷ es) o c =
    (update-other a b n h o.0 ∙ c.0, Chain-update a n h (some b) es o.1 c.1)

-- What one of the two operations gives.
abbrev pub Gives {ℓ} : {A : Type ℓ} → Option A → (A → Type 0) → Type ℓ
Gives {A = A} o P = (x : A) × (o ≡ some x) × P x

counted : Queue → Option Queue
counted q = some (record q { count_rq = q.count_rq + 1 })

pub push-Queued :
    (a : ℕ) (r : Request) (es : List Entry) (q : Queue)
    → Queued es q
    → Off a es
    → Gives (push a (made a r q)) (Queued ((a, r) ∷ es))
unfolding push counted
push-Queued a r [] q v off =
    let u : Queue = record (made a r q) { head = some a; last = some a } in
    let linked : link a q.head q.last (made a r q) ≡ some u =
      ap (λ h. link a h q.last (made a r q)) v.at_head
      ∙ ap (λ l. link a none l (made a r q)) v.at_last in
    (
      record u { count_rq = u.count_rq + 1 },
      ap (λ o. o >>= counted) linked,
      record {
        chain = (update-same a (record { request = r; son = none; father = none }) q.heap, tt);
        apart = (tt, tt);
        at_head = refl;
        at_last = refl;
        count = omega (arith, v.count);
      },
    )
push-Queued a r ((b, s) ∷ es) q v off =
    let n : Link = record { request = r; son = none; father = none } in
    let n' : Link = record n { son = some b } in
    let m : Link = record { request = s; son = first es; father = none } in
    let m' : Link = record m { father = some a } in
    let h1 : Heap = update a n q.heap in
    let h2 : Heap = update a n' h1 in
    let h3 : Heap = update b m' h2 in
    let w : Queue = record q { heap = h2; head = some a } in
    let u : Queue = record q { heap = h3; head = some a } in
    let with_son : Link → Option Queue =
      λ n. some (record q { heap = update a (record n { son = some b }) h1; head = some a }) in
    let with_father : Link → Option Queue =
      λ n. some (record q { heap = update b (record n { father = some a }) h2; head = some a }) in
    let old : h2 b ≡ some m =
      update-other a b n' h1 off.0 ∙ update-other a b n q.heap off.0 ∙ v.chain.0 in
    let linked : link a q.head q.last (made a r q) ≡ some u =
      ap (λ h. link a h q.last (made a r q)) v.at_head
      ∙ ap (λ o. (o >>= with_son) >>= set_father b (some a)) (update-same a n q.heap)
      ∙ ap (λ o. o >>= with_father) old in
    (
      record u { count_rq = u.count_rq + 1 },
      ap (λ o. o >>= counted) linked,
      record {
        chain = (
          update-other b a m' h2 (λ e. off.0 (sym e)) ∙ update-same a n' h1,
          (
            update-same b m' h2,
            Chain-update b m' h2 (some b) es v.apart.0 (
                Chain-update a n' h1 (some b) es off.1
                  (Chain-update a n q.heap (some b) es off.1 v.chain.1)),
          ),
        );
        apart = (off, v.apart);
        at_head = refl;
        at_last = v.at_last;
        count = omega (arith, v.count);
      },
    )
