-- ===== src/Server/Queue.antt =====
-- The queue of requests, includes/util_server.c: a list linked both ways, into which the manager pushes at the head
-- and from whose end the workers pop, each under the lock.
pub mod Linked
pub mod Popped
pub mod Fifo
use lso_project.Prelude.{
  ℕ, zero, suc, ◌+◌, ◌-◌, Bool, true, false, Option, none, some, List, [], ◌∷◌, ◌>>=◌, ◌==◌,
  if◌then◌else◌,
}
use lso_project.Server.Request.{Request}

-- `sms_request` with its two pointers.
pub record Link : Type 0 where
  pub request : Request
  pub son : Option ℕ
  pub father : Option ℕ

abbrev pub Heap : Type 0
Heap = ℕ → Option Link

-- `queue_t`, and the heap.
pub record Queue : Type 0 where
  pub count_rq : ℕ
  pub head : Option ℕ
  pub last : Option ℕ
  pub heap : Heap

abbrev pub create_queue : Heap → Queue
create_queue h = record { count_rq = 0; head = none; last = none; heap = h }

abbrev pub update : ℕ → Link → Heap → Heap
update a n h b = if b == a then some n else h b

abbrev pub set_son : ℕ → Option ℕ → Queue → Option Queue
set_son a p q = do n ← q.heap a; some (record q { heap = update a (record n { son = p }) q.heap })

abbrev pub set_father : ℕ → Option ℕ → Queue → Option Queue
set_father a p q = do
  n ← q.heap a
  some (record q { heap = update a (record n { father = p }) q.heap })

-- By the head and the last of the queue. Where there is a last and no head, the code follows a null
-- pointer.
abbrev pub link : ℕ → Option ℕ → Option ℕ → Queue → Option Queue
link a none none q = some (record q { head = some a; last = some a })
link a none (some l) q = none
link a (some h) l q = do
  q' ← set_son a (some h) (record q { head = some a })
  set_father h (some a) q'

unfoldable pub push : ℕ → Queue → Option Queue
push a q = do q' ← link a q.head q.last q; some (record q' { count_rq = q'.count_rq + 1 })

abbrev pub unlink : Option ℕ → Queue → Option Queue
unlink none q = some (record q { head = none; last = none })
unlink (some f) q = do q' ← set_son f none q; some (record q' { last = some f })

unfoldable pub pop : Queue → Option (Request × Queue)
pop q = do
  a ← q.last
  n ← q.heap a
  q' ← unlink n.father q
  some (n.request, record q' { count_rq = q'.count_rq - 1 })

-- What the threads do to the queue: the manager puts a request that it made at the address a, or a
-- worker takes one, where there is one, and else waits.
pub data Op : Type 0 where
  put : ℕ → Request → Op
  take : Op

abbrev pub made : ℕ → Request → Queue → Queue
made a r q = record q { heap = update a (record { request = r; son = none; father = none }) q.heap }

abbrev pub is_empty : Option ℕ → Bool
is_empty none = true
is_empty (some a) = false

abbrev pub taken : Request → Option (List Request × Queue) → Option (List Request × Queue)
taken r none = none
taken r (some (rs, q)) = some (r ∷ rs, q)

-- The requests that the workers take, in order.
unfoldable pub run : List Op → Queue → Option (List Request × Queue)
unfolding push pop
run [] q = some ([], q)
run (put a r ∷ ops) q = do q' ← push a (made a r q); run ops q'
run (take ∷ ops) q = elim (is_empty q.head) [
  | true ↦ run ops q
  | false ↦ pop q >>= λ t. taken t.0 (run ops t.1)
]
