-- ===== src/Tests/QueueTests.antt =====
-- The theorems about src/queue.c on a queue of two nodes at the addresses 16 and 32.
use spead.Base.{◌≡◌, refl, false, none, some, [], ◌∷◌, ◌==◌, arith, if◌then◌else◌}
use spead.Base.Int.{pos}
use spead.Queue.{null, queue_node, Memory, Queue, enqueue}
use spead.Queue.Links.{Cells, Linked, IsQueue, has}
use spead.Queue.Fifo.{Enqueued, enqueue-IsQueue, Dequeued, dequeue-IsQueue, enqueue-no_memory}

abbrev cells : Cells
cells = (16, 7) ∷ (32, 9) ∷ []

abbrev memory : Memory
memory a =
    if a == 16 then some (queue_node 32 7) else if a == 32 then some (queue_node 16 9) else none

abbrev queue : Queue
queue = record { q_id = 1; q_front = 16; q_back = 32 }

queue-IsQueue : IsQueue memory queue cells
queue-IsQueue = record {
  front = refl;
  back = refl;
  linked = (omega arith, refl, refl, (omega arith, refl, refl, tt));
}

enqueue-IsQueue_example : Enqueued memory queue cells 48 5
enqueue-IsQueue_example = enqueue-IsQueue memory queue cells 48 5 (omega arith) refl queue-IsQueue

dequeue-IsQueue_example : Dequeued memory queue 7 ((32, 9) ∷ [])
dequeue-IsQueue_example = dequeue-IsQueue memory queue 16 7 ((32, 9) ∷ []) queue-IsQueue

enqueue-no_memory_example :
    (enqueue null queue 4 memory ≡ some (pos 0, record queue { q_back = null }, memory))
    × (g : Memory) × (enqueue 48 (record queue { q_back = null }) 5 memory
        ≡ some (pos 0, record queue { q_back = 48 }, g))
    × Linked g null cells
    × (has 48 cells ≡ false)
enqueue-no_memory_example =
    enqueue-no_memory memory queue 16 7 ((32, 9) ∷ []) 48 4 5 (omega arith) refl queue-IsQueue
