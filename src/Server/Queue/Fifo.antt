-- ===== src/Server/Queue/Fifo.antt =====
-- The requests are taken in the order of their arrival.
use lso_project.Prelude.{
  ◌≡◌, refl, sym, ap, ◌∙◌, true, false, Option, some, List, [], ◌∷◌, ◌++◌, ◌>>=◌, init,
}
use mathlib.Core.Path.{subst}
use lso_project.Server.Request.{Request}
use lso_project.Server.Queue.{Queue, pop, Op, put, take, is_empty, taken, run}
use lso_project.Server.Queue.Linked.{Entry, Off, Queued, push-Queued}
use lso_project.Server.Queue.Popped.{pop-Queued}

-- A queue as a list, the oldest request first: what is taken from it, and what is left.
abbrev pub fifo : List Op → List Request → List Request × List Request
fifo [] rs = ([], rs)
fifo (put a r ∷ ops) rs = fifo ops (rs ++ r ∷ [])
fifo (take ∷ ops) [] = fifo ops []
fifo (take ∷ ops) (r ∷ rs) = (r ∷ (fifo ops rs).0, (fifo ops rs).1)

abbrev pub oldest_first : List Entry → List Request
oldest_first [] = []
oldest_first (e ∷ es) = oldest_first es ++ e.1 ∷ []

-- No request is made at an address that the queue holds.
abbrev pub Fresh : List Op → List Entry → Type 0
Fresh [] es = Unit
Fresh (put a r ∷ ops) es = Off a es × Fresh ops ((a, r) ∷ es)
Fresh (take ∷ ops) es = Fresh ops (init es)

oldest_first-append :
    (es : List Entry) (e : Entry) → oldest_first (es ++ e ∷ []) ≡ e.1 ∷ oldest_first es
oldest_first-append [] e = refl
oldest_first-append (d ∷ es) e = ap (λ rs. rs ++ d.1 ∷ []) (oldest_first-append es e)

init-append : (es : List Entry) (e : Entry) → init (es ++ e ∷ []) ≡ es
init-append [] e = refl
init-append (d ∷ []) e = refl
init-append (d ∷ c ∷ es) e = ap (λ xs. d ∷ xs) (init-append (c ∷ es) e)

abbrev Ended : List Entry → Type 0
Ended es = (fs : List Entry) × (e : Entry) × (es ≡ fs ++ e ∷ [])

ended : (e : Entry) (es : List Entry) → Ended (e ∷ es)
ended e [] = ([], e, refl)
ended e (d ∷ es) = let (fs, f, p) = ended d es in (e ∷ fs, f, ap (λ xs. e ∷ xs) p)

-- The queue and the list agree.
abbrev pub Agrees : List Op → List Entry → Option (List Request × Queue) → Type 0
Agrees ops es result =
    (fs : List Entry) × (q : Queue) × (result ≡ some ((fifo ops (oldest_first es)).0, q))
    × Queued fs q
    × (oldest_first fs ≡ (fifo ops (oldest_first es)).1)

-- A request is taken from the end of the list.
take_last :
    (ops : List Op) (es : List Entry) (e : Entry) (q : Queue)
    → Queued (es ++ e ∷ []) q
    → ((q : Queue) → Queued es q → Agrees ops es (run ops q))
    → Agrees (take ∷ ops) (es ++ e ∷ []) (pop q >>= λ t. taken t.0 (run ops t.1))
take_last ops es e q v go =
    let (q', p, w) = pop-Queued es e.0 e.1 q v in
    let (fs, u, i, k, same) = go q' w in
    let shape = oldest_first-append es e in
    (
      fs,
      u,
      ap (λ o. o >>= λ t. taken t.0 (run ops t.1)) p
          ∙ ap (taken e.1) i
          ∙ ap (λ rs. some ((fifo (take ∷ ops) rs).0, u)) (sym shape),
      k,
      same ∙ ap (λ rs. (fifo (take ∷ ops) rs).1) (sym shape),
    )

-- On a sound queue, whatever the threads do to it in turn, with requests at addresses that it does not
-- hold, no null pointer is followed: what the workers take is what they take from a list to whose
-- end the manager adds and from whose front they take, and the queue is sound and holds what is left
-- of that list.
pub run-fifo :
    (ops : List Op) (es : List Entry) (q : Queue)
    → Queued es q
    → Fresh ops es
    → Agrees ops es (run ops q)
unfolding run
run-fifo [] es q v f = (es, q, refl, v, refl)
run-fifo (put a r ∷ ops) es q v f =
    let (q', p, w) = push-Queued a r es q v f.0 in
    let (fs, u, i, k, same) = run-fifo ops ((a, r) ∷ es) q' w f.1 in
    (fs, u, ap (λ o. o >>= run ops) p ∙ i, k, same)
run-fifo (take ∷ ops) [] q v f =
    let (fs, u, i, k, same) = run-fifo ops [] q v f in
    (
      fs,
      u,
      ap
            (λ h. elim (is_empty h) [
              | true ↦ run ops q
              | false ↦ pop q >>= λ t. taken t.0 (run ops t.1)
            ])
            v.at_head
          ∙ i,
      k,
      same,
    )
run-fifo (take ∷ ops) (e ∷ es) q v f =
    let (fs, d, shape) = ended e es in
    let w = subst (λ xs. Queued xs q) shape v in
    let f' : Fresh ops fs = subst (Fresh ops) (ap init shape ∙ init-append fs d) f in
    subst (Agrees (take ∷ ops) (e ∷ es))
      (sym (
        ap
          (λ h. elim (is_empty h) [
            | true ↦ run ops q
            | false ↦ pop q >>= λ t. taken t.0 (run ops t.1)
          ])
          v.at_head))
      (subst (λ xs. Agrees (take ∷ ops) xs (pop q >>= λ t. taken t.0 (run ops t.1))) (sym shape)
        (take_last ops fs d q w (λ q' w'. run-fifo ops fs q' w' f')))
