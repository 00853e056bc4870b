-- ===== src/Queue.antt =====
-- src/queue.h and src/queue.c: a queue as a linked list whose nodes hold the exclusive or of the
-- addresses of their two neighbours, over an explicit memory. A `struct queue` lives outside that
-- memory: a function that changes one returns the new value.
pub mod Links
pub mod Fifo
use Prim.Native.Nat.{bit_xor}
use spead.Base.{ℕ, zero, suc, Option, none, some, ◌==◌, if◌then◌else◌}
use spead.Base.Int.{ℤ, pos, negsuc}

abbrev pub Ptr : Type 0
Ptr = ℕ

abbrev pub null : Ptr
null = 0

-- `struct queue_o`; the object is the address that `data` holds.
pub record QueueNode : Type 0 where
  pub o_xor : Ptr
  pub object : ℕ

abbrev pub queue_node : Ptr → ℕ → QueueNode
queue_node x v = record { o_xor = x; object = v }

abbrev pub Memory : Type 0
Memory = Ptr → Option QueueNode

unfoldable pub write : Memory → Ptr → QueueNode → Memory
write m p n a = if a == p then some n else m a

-- `*p`; `none` is a read through NULL or of an address that holds no node.
unfoldable pub load : Ptr → Memory → Option QueueNode
load p m = if p == null then none else m p

-- `struct queue`
pub record Queue : Type 0 where
  pub q_id : ℕ
  pub q_front : Ptr
  pub q_back : Ptr

-- `create_queue`, with what `shared_malloc` says.
unfoldable pub create_queue : Ptr → ℕ → Option Queue
create_queue fresh pid =
    if fresh == null then none else some (record { q_id = pid; q_front = null; q_back = null })

-- `new_node_xll`, where `shared_malloc` returns `fresh`: the address of the node and the memory.
unfoldable pub new_node_xll : Ptr → Ptr → Ptr → ℕ → Memory → Option (Ptr × Memory)
new_node_xll fresh prev cur object m =
    if fresh == null
    then some (null, m)
    else if cur == null
    then some (fresh, write m fresh (queue_node cur object))
    else elim (load cur (write m fresh (queue_node cur object))) [
      | none ↦ none
      | some node ↦ some (
        fresh,
        (if prev == null
            then write
                (write (write m fresh (queue_node cur object)) cur (queue_node fresh node.object))
                fresh (queue_node cur object)
            else write (write m fresh (queue_node cur object)) cur
                (queue_node (bit_xor prev fresh) node.object)),
      )
    ]

-- `q->q_back ? q->q_back->o_xor : NULL`
unfoldable pub before_back : Ptr → Memory → Option Ptr
before_back back m =
    if back == null then some null else elim (load back m) [ none ↦ none | some n ↦ some n.o_xor ]

-- `enqueue` on a queue that is not NULL: it always returns 0.
unfoldable pub enqueue : Ptr → Queue → ℕ → Memory → Option (ℤ × Queue × Memory)
enqueue fresh q o m =
    if q.q_front == null
    then elim (new_node_xll fresh null null o m) [
      | none ↦ none
      | some (p, m') ↦ some (pos 0, record q { q_front = p; q_back = p }, m')
    ]
    else elim (before_back q.q_back m) [
      | none ↦ none
      | some prev ↦ elim (new_node_xll fresh prev q.q_back o m) [
        | none ↦ none
        | some (p, m') ↦ some (pos 0, record q { q_back = p }, m')
      ]
    ]

-- The second half of `dequeue`, behind the front node at `qo`, which has been read.
unfoldable pub unlink_front : Ptr → QueueNode → Queue → Memory → Option (Queue × Memory)
unlink_front qo node q m =
    if node.o_xor == null
    then some (record q { q_front = null; q_back = null }, m)
    else elim (load node.o_xor m) [
      | none ↦ none
      | some cur ↦ some (
        record q { q_front = node.o_xor },
        write m node.o_xor (queue_node (bit_xor cur.o_xor qo) cur.object),
      )
    ]

-- `dequeue` on a queue that is not NULL: nothing is stored where it returns -1.
unfoldable pub dequeue : Queue → Memory → Option (ℤ × Option ℕ × Queue × Memory)
dequeue q m = if q.q_front == null then some (negsuc 0, none, q, m) else elim (load q.q_front m) [
  | none ↦ none
  | some node ↦ elim (unlink_front q.q_front node q m) [
    | none ↦ none
    | some (q', m') ↦ some (pos 0, some node.object, q', m')
  ]
]

module _ {κ} {S : Type κ} where
  -- The `while` of `destroy_queue`, on fuel: the callback is called with each object.
  unfoldable pub destroy_loop : ℕ → (ℕ → S → S) → Queue → Memory → S → Option (Queue × Memory × S)
  destroy_loop zero call q m st = none
  destroy_loop (suc fuel) call q m st = elim (dequeue q m) [
    | none ↦ none
    | some (r, none, q', m') ↦ some (q', m', st)
    | some (r, some o, q', m') ↦ destroy_loop fuel call q' m' (call o st)
  ]
