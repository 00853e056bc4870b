-- ===== src/Tests/HeapTests.antt =====
-- Two packets of one heap, and the theorems about src/spead_packet.c's heap functions at them.
use mathlib.Core.List.{Perm}
use spead.Base.{◌-◌, ◌≡◌, ◌≢◌, ◌⊎◌, refl, true, false, some, [], ◌∷◌, take, drop, arith}
use spead.Base.Int.{ℤ, pos, is_neg}
use spead.Packet.{SpeadPacket, spead_err}
use spead.SpeadHeap.{
  SpeadHeap, spead_heap_init, spead_heap_add_packet, finish_add, add_to_chain, link_packet,
  insert_behind, inserted_last, joined, check_packets, got_all, spead_heap_got_all_packets,
}
use spead.SpeadHeap.Order.{IsWellFormed, add_packet-IsWellFormed, add_packet-perm}
use spead.SpeadHeap.Complete.{
  IsComplete, add_packet-IsComplete, complete_without_start, count_holding,
}
use spead.SpeadHeap.Finalize.{copy_val}
use spead.SpeadHeap.Finalize.Extract.{AllHavePayload, chain_bytes, copy_val-chain}

abbrev first : SpeadPacket
first = record {
  heap_cnt = pos 7;
  heap_len = pos 5;
  n_items = 1;
  is_stream_ctrl_term = 0;
  payload_len = 3;
  payload_off = 0;
  data_addr = 4096;
  bytes = 1 ∷ 2 ∷ 3 ∷ [];
  payload = some 4096;
}

abbrev second : SpeadPacket
second = record first { payload_off = 3; payload_len = 2; data_addr = 8192; payload = some 8193 }

abbrev started : SpeadHeap
started = record spead_heap_init {
  heap_cnt = pos 7;
  heap_len = pos 5;
  has_all_packets = pos 0;
  packets = second ∷ [];
  last_pkt = some second;
}

abbrev whole : SpeadHeap
whole = record started { has_all_packets = pos 1; packets = first ∷ second ∷ [] }

run : Unit {0}
unfolding spead_heap_init spead_heap_add_packet finish_add add_to_chain link_packet insert_behind
    inserted_last joined check_packets got_all spead_heap_got_all_packets
run = tt

-- The packets arrive in the wrong order.
adds_first : spead_heap_add_packet started first ≡ some (pos 1, whole)
unfolding run
adds_first = refl

started-IsWellFormed : IsWellFormed started
unfolding run
started-IsWellFormed = record {
  ordered = (tt, tt);
  one_heap = (refl, tt);
  last = refl;
  started = λ _ h. cc h;
}

add_packet-IsWellFormed_example :
    (r : ℤ) × (h : SpeadHeap) × (spead_heap_add_packet started first ≡ some (r, h)) × IsWellFormed h
add_packet-IsWellFormed_example = add_packet-IsWellFormed started first started-IsWellFormed

add_packet-perm_example :
    ((first.n_items ≡ 0) ⊎ ((is_neg started.heap_cnt ≡ false) × (started.heap_cnt ≢ first.heap_cnt))
      → spead_heap_add_packet started first ≡ some (spead_err, started))
    × (first.n_items ≢ 0
        → is_neg started.heap_cnt ≡ false
        → started.heap_cnt ≡ first.heap_cnt
        → (r : ℤ) × (h : SpeadHeap) × (spead_heap_add_packet started first ≡ some (r, h))
          × Perm h.packets (first ∷ started.packets)
          × (h.heap_cnt ≡ started.heap_cnt))
    × (first.n_items ≢ 0
        → is_neg started.heap_cnt ≡ true
        → (r : ℤ) × (h : SpeadHeap) × (spead_heap_add_packet started first ≡ some (r, h))
          × Perm h.packets (first ∷ [])
          × (h.heap_cnt ≡ first.heap_cnt))
add_packet-perm_example = add_packet-perm started first started-IsWellFormed

add_packet-IsComplete_example : IsComplete whole
add_packet-IsComplete_example = add_packet-IsComplete started first whole adds_first

complete_without_start_example :
    (h : SpeadHeap) × (spead_heap_add_packet spead_heap_init second ≡ some (pos 1, h))
    × (count_holding 0 h.packets ≡ 0)
unfolding spead_heap_init
complete_without_start_example =
    complete_without_start spead_heap_init second refl (omega arith) (omega arith) refl

joined_run : joined (pos 5) first (second ∷ []) ≡ true
unfolding run
joined_run = refl

payloads : AllHavePayload (first ∷ second ∷ [])
payloads = (
  record { start = 4096; points = refl; inside = omega arith; fits = omega arith },
  (record { start = 8193; points = refl; inside = omega arith; fits = omega arith }, tt),
)

copy_val-chain_example :
    copy_val 3 1 (first ∷ second ∷ [])
    ≡ some (take 3 (drop (1 - first.payload_off) (chain_bytes (first ∷ second ∷ []))), true)
copy_val-chain_example =
    copy_val-chain 5 first (second ∷ []) 3 1 joined_run payloads (omega arith) (omega arith)
