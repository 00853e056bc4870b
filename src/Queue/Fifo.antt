-- ===== src/Queue/Fifo.antt =====
-- src/queue.c: `enqueue` and `dequeue` refine a first-in first-out list.
use Prim.Native.Nat.{bit_xor}
use spead.Base.{
  ℕ, zero, suc, ◌<◌, ◌≡◌, ◌≢◌, refl, sym, ap, ◌∙◌, true, false, none, some, [], ◌∷◌, ◌++◌, ◌==◌,
  arith, Bool-cases, inl, inr, length,
}
use spead.Base.Bits.{bit_xor-cancel, bit_xor_comm, zero-bit_xor}
use spead.Base.Int.{pos, negsuc}
use spead.Queue.{
  Ptr, null, QueueNode, queue_node, Memory, write, load, Queue, new_node_xll, before_back, enqueue,
  unlink_front, dequeue, destroy_loop,
}
use spead.Queue.Links.{
  Cells, has, addr, last_addr, Linked, IsQueue, Linked-frame, before_last, last_object, last_node,
  has-last, Linked-snoc, not-has_of_free, last_addr-snoc,
}

-- The outcome of `enqueue`: it returns 0, the queue holds the old nodes and the new one behind them,
-- and only the nodes of that queue have been written.
abbrev pub Enqueued : Memory → Queue → Cells → Ptr → ℕ → Type 0
Enqueued m q cells fresh o =
    (q' : Queue) × (g : Memory) × (enqueue fresh q o m ≡ some (pos 0, q', g))
    × IsQueue g q' (cells ++ (fresh, o) ∷ [])
    × ((a : Ptr) → has a cells ≡ false → a ≢ fresh → g a ≡ m a)

new_node-first :
    (fresh : Ptr) (o : ℕ) (m : Memory)
    → fresh ≢ null
    → new_node_xll fresh null null o m ≡ some (fresh, write m fresh (queue_node null o))
unfolding new_node_xll
new_node-first fresh o m ne = ground arith

-- What `new_node_xll` writes behind the node `cur`.
new_node-behind :
    (fresh prev cur : Ptr) (o v : ℕ) (m : Memory)
    → fresh ≢ null
    → cur ≢ null
    → cur ≢ fresh
    → m cur ≡ some (queue_node prev v)
    → (g : Memory) × (new_node_xll fresh prev cur o m ≡ some (fresh, g))
      × (g fresh ≡ some (queue_node cur o))
      × (g cur ≡ some (queue_node (bit_xor prev fresh) v))
      × ((a : Ptr) → a ≢ fresh → a ≢ cur → g a ≡ m a)
unfolding new_node_xll load write
new_node-behind fresh prev cur o v m ne cur_ne apart held = elim (Bool-cases (prev == null)) [
  | inl no_prev ↦
      let e : prev ≡ 0 = ground arith in
      (
        write (write (write m fresh (queue_node cur o)) cur (queue_node fresh v)) fresh
            (queue_node cur o),
        ground arith,
        ground arith,
        ground (arith, zero-bit_xor fresh),
        λ a h k. ground arith,
      )
  | inr prev_there ↦ (
    write (write m fresh (queue_node cur o)) cur (queue_node (bit_xor prev fresh) v),
    ground arith,
    ground arith,
    ground arith,
    λ a h k. ground arith,
  )
]

enqueue-first :
    (m : Memory) (q : Queue) (fresh : Ptr) (o : ℕ)
    → fresh ≢ null
    → IsQueue m q []
    → Enqueued m q [] fresh o
unfolding enqueue
enqueue-first m q fresh o ne is =
    let empty : (q.q_front == null) ≡ true = ground (arith, is.front) in
    (
      record q { q_front = fresh; q_back = fresh },
      write m fresh (queue_node null o),
      rw (empty, new_node-first fresh o m ne),
      record { front = refl; back = refl; linked = (ne, unfold write in ground arith, refl, tt) },
      λ a out apart. unfold write in ground arith,
    )

before_back-some :
    (b : Ptr) (m : Memory) (n : QueueNode)
    → b ≢ null
    → m b ≡ some n
    → before_back b m ≡ some n.o_xor
unfolding before_back load
before_back-some b m n ne h = ground arith

enqueue-behind :
    (m : Memory) (q : Queue) (p : Ptr) (v : ℕ) (rest : Cells) (fresh : Ptr) (o : ℕ)
    → fresh ≢ null
    → m fresh ≡ none
    → IsQueue m q ((p, v) ∷ rest)
    → Enqueued m q ((p, v) ∷ rest) fresh o
unfolding enqueue
enqueue-behind m q p v rest fresh o ne free is =
    let l = is.linked in
    let last = last_node m null p v rest l in
    let out = not-has_of_free m null ((p, v) ∷ rest) fresh free l in
    let apart : last_addr p rest ≢ fresh =
      λ e. cc (has-last p v rest, ap (λ a. has a ((p, v) ∷ rest)) e, out) in
    let back : q.q_back ≡ last_addr p rest = is.back in
    let filled : (q.q_front == null) ≡ false = ground (arith, is.front, l.0) in
    let read : before_back q.q_back m ≡ some (before_last null (p, v) rest) =
      rw back (before_back-some (last_addr p rest) m _ last.0 last.1) in
    let (g, run, at_fresh, at_last, same) =
      new_node-behind fresh (before_last null (p, v) rest) (last_addr p rest) o
        (last_object (p, v) rest) m ne last.0 apart last.1 in
    (
      record q { q_back = fresh },
      g,
      rw (filled, read, enqueue) (rw (back, run)),
      record {
        front = is.front;
        back = sym (last_addr-snoc null ((p, v) ∷ rest) fresh o);
        linked = Linked-snoc m g null p v rest fresh o ne out l at_fresh at_last same;
      },
      λ a h k. same a k (λ e. cc (has-last p v rest, ap (λ b. has b ((p, v) ∷ rest)) e, h)),
    )

-- Given memory, `enqueue` returns 0 and puts the object behind the others; it writes no address
-- outside the queue and the new node.
pub enqueue-IsQueue :
    (m : Memory) (q : Queue) (cells : Cells) (fresh : Ptr) (o : ℕ)
    → fresh ≢ null
    → m fresh ≡ none
    → IsQueue m q cells
    → Enqueued m q cells fresh o
enqueue-IsQueue m q [] fresh o ne free is = enqueue-first m q fresh o ne is
enqueue-IsQueue m q ((p, v) ∷ rest) fresh o ne free is =
    enqueue-behind m q p v rest fresh o ne free is

abbrev pub Dequeued : Memory → Queue → ℕ → Cells → Type 0
Dequeued m q v rest =
    (q' : Queue) × (g : Memory) × (dequeue q m ≡ some (pos 0, some v, q', g))
    × IsQueue g q' rest
    × ((a : Ptr) → has a rest ≡ false → g a ≡ m a)

write-ne : (m : Memory) (p : Ptr) (n : QueueNode) (a : Ptr) → a ≢ p → write m p n a ≡ m a
unfolding write
write-ne m p n a h = ground arith

load-some : (p : Ptr) (m : Memory) (n : QueueNode) → p ≢ null → m p ≡ some n → load p m ≡ some n
unfolding load
load-some p m n ne h = ground arith

-- On a queue with nodes `dequeue` returns 0 and the object of the first node, and leaves the queue of
-- the others; it writes no address outside them.
pub dequeue-IsQueue :
    (m : Memory) (q : Queue) (p : Ptr) (v : ℕ) (rest : Cells)
    → IsQueue m q ((p, v) ∷ rest)
    → Dequeued m q v rest
unfolding dequeue unlink_front
dequeue-IsQueue m q p v [] is =
    let l = is.linked in
    let filled : (q.q_front == null) ≡ false = ground (arith, is.front, l.0) in
    let read : load q.q_front m ≡ some (queue_node null v) =
      rw is.front (load-some p m _ (l.0) (l.1)) in
    (
      record q { q_front = null; q_back = null },
      m,
      rw (filled, read, dequeue),
      record { front = refl; back = refl; linked = tt },
      λ a out. refl,
    )
dequeue-IsQueue m q p v ((n, w) ∷ r) is =
    let l = is.linked in
    let k = l.3 in
    let filled : (q.q_front == null) ≡ false = ground (arith, is.front, l.0) in
    let front_holds : m p ≡ some (queue_node n v) =
      l.1 ∙ ap (λ x. some (queue_node x v)) (zero-bit_xor n) in
    let read : load q.q_front m ≡ some (queue_node n v) =
      rw is.front (load-some p m _ (l.0) front_holds) in
    let there : (n == null) ≡ false = ground (arith, k.0) in
    let read_next = load-some n m _ (k.0) (k.1) in
    let taken : bit_xor (bit_xor p (addr r)) q.q_front ≡ bit_xor null (addr r) = rw is.front (
      ap (λ x. bit_xor x p) (bit_xor_comm p (addr r))
      ∙ bit_xor-cancel (addr r) p
      ∙ sym (zero-bit_xor (addr r))) in
    let g = write m n (queue_node (bit_xor null (addr r)) w) in
    (
      record q { q_front = n },
      g,
      rw (filled, read, dequeue, there, read_next, taken),
      record {
        front = refl;
        back = is.back;
        linked = (
          k.0,
          unfold write in ground arith,
          k.2,
          Linked-frame m g n r (λ a i. unfold write in ground (arith, k.2)) (k.3),
        );
      },
      λ a out. unfold write in ground arith,
    )

-- On an empty queue `dequeue` returns -1, stores nothing and changes nothing.
pub dequeue-empty :
    (m : Memory) (q : Queue) → IsQueue m q [] → dequeue q m ≡ some (negsuc 0, none, q, m)
unfolding dequeue
dequeue-empty m q is = ground (arith, is.front)

-- Where `shared_malloc` has no memory for a queue with nodes, `enqueue` still returns 0, drops the
-- object and forgets the back of the queue. The next object, for which there is memory, then gets a
-- node that is not linked to the queue: again `enqueue` returns 0, and the queue from its front is
-- that of the old nodes alone.
pub enqueue-no_memory :
    (m : Memory) (q : Queue) (p : Ptr) (v : ℕ) (rest : Cells) (fresh : Ptr) (o o' : ℕ)
    → fresh ≢ null
    → m fresh ≡ none
    → IsQueue m q ((p, v) ∷ rest)
    → (enqueue null q o m ≡ some (pos 0, record q { q_back = null }, m))
      × (g : Memory) × (enqueue fresh (record q { q_back = null }) o' m
          ≡ some (pos 0, record q { q_back = fresh }, g))
      × Linked g null ((p, v) ∷ rest)
      × (has fresh ((p, v) ∷ rest) ≡ false)
unfolding enqueue
enqueue-no_memory m q p v rest fresh o o' ne free is =
    let l = is.linked in
    let last = last_node m null p v rest l in
    let out = not-has_of_free m null ((p, v) ∷ rest) fresh free l in
    let filled : (q.q_front == null) ≡ false = ground (arith, is.front, l.0) in
    let read : before_back q.q_back m ≡ some (before_last null (p, v) rest) =
      rw is.back (before_back-some (last_addr p rest) m _ last.0 last.1) in
    let g = write m fresh (queue_node null o') in
    (
      rw (filled, read, enqueue) (unfold new_node_xll in refl),
      g,
      rw filled (unfold before_back in rw (new_node-first fresh o' m ne)),
      Linked-frame m g null ((p, v) ∷ rest)
          (λ a i. write-ne m fresh _ a (λ e. cc (i, ap (λ b. has b ((p, v) ∷ rest)) e, out))) l,
      out,
    )

abbrev pub deliver {κ} : {S : Type κ} → (ℕ → S → S) → Cells → S → S
deliver call [] st = st
deliver call ((p, v) ∷ rest) st = deliver call rest (call v st)

-- The loop of `destroy_queue` ends, having called back with every object from the front to the back.
pub destroy-deliver {κ} :
    {S : Type κ} (call : ℕ → S → S) (cells : Cells) (fuel : ℕ) (m : Memory) (q : Queue) (st : S)
    → length cells < fuel
    → IsQueue m q cells
    → (q' : Queue) × (g : Memory) × (destroy_loop fuel call q m st
        ≡ some (q', g, deliver call cells st))
      × IsQueue g q' []
unfolding destroy_loop
destroy-deliver call cells zero m q st h is = absurd (omega arith)
destroy-deliver call [] (suc fuel) m q st h is = (q, m, rw (dequeue-empty m q is, destroy_loop), is)
destroy-deliver call ((p, v) ∷ rest) (suc fuel) m q st h is =
    let (q', g, run, is', same) = dequeue-IsQueue m q p v rest is in
    let (q'', g', run', empty) =
      destroy-deliver call rest fuel g q' (call v st) (omega arith) is' in
    (q'', g', rw (run, destroy_loop) run', empty)
