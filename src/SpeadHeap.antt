-- ===== src/SpeadHeap.antt =====
-- src/spead_packet.c: `struct spead_heap`, the packets of one heap in the order of their payloads.
-- The chain from `head_pkt` along `next` is a list, and an inserted packet comes with `next` NULL,
-- as `spead_packet_init` and `spead_packet_copy` leave it. `last_pkt` is the packet that the pointer
-- designates; its payload's place never changes once it is in the chain.
pub mod Order
pub mod Complete
pub mod Item
pub mod Finalize
use spead.Base.{
  ℕ, ◌+◌, Bool, true, false, not, Option, none, some, List, [], ◌∷◌, ◌==◌, ltb, if◌then◌else◌,
}
use spead.Base.Int.{ℤ, pos, negsuc, is_neg, ◌==ℤ◌}
use spead.Packet.{SpeadPacket, spead_err}
use spead.SpeadHeap.Item.{SpeadItem}

-- `is_valid` holds 0 or 1; `has_all_packets` also holds -1, for "not known".
pub record SpeadHeap : Type 0 where
  pub is_valid : Bool
  pub heap_cnt : ℤ
  pub heap_len : ℤ
  pub has_all_packets : ℤ
  pub packets : List SpeadPacket
  pub last_pkt : Option SpeadPacket
  pub items : List SpeadItem

-- `spead_heap_init`
unfoldable pub spead_heap_init : SpeadHeap
spead_heap_init = record {
  is_valid = false;
  heap_cnt = spead_err;
  heap_len = spead_err;
  has_all_packets = spead_err;
  packets = [];
  last_pkt = none;
  items = [];
}

-- The walk from `_pkt = head_pkt` while the next packet's payload starts before the new one's, and
-- the insertion there; `rest` is the chain behind the head.
unfoldable pub insert_behind : SpeadPacket → List SpeadPacket → List SpeadPacket
insert_behind pkt [] = pkt ∷ []
insert_behind pkt (q ∷ rest) =
    if ltb q.payload_off pkt.payload_off then q ∷ insert_behind pkt rest else pkt ∷ q ∷ rest

-- `pkt->next == NULL` after the walk: the packet has become the last one.
unfoldable pub inserted_last : SpeadPacket → List SpeadPacket → Bool
inserted_last pkt [] = true
inserted_last pkt (q ∷ rest) =
    if ltb q.payload_off pkt.payload_off then inserted_last pkt rest else false

-- The insertion of a packet into a chain that is not empty.
unfoldable pub link_packet : SpeadPacket → SpeadPacket → List SpeadPacket → SpeadHeap → SpeadHeap
link_packet pkt head rest heap =
    if ltb pkt.payload_off head.payload_off
    then record heap { packets = pkt ∷ head ∷ rest }
    else record heap {
      packets = head ∷ insert_behind pkt rest;
      last_pkt = if inserted_last pkt rest then some pkt else heap.last_pkt;
    }

-- The loop of `spead_heap_got_all_packets`: each payload ends where the next one starts, and the
-- last one ends at the length of the heap.
unfoldable pub joined : ℤ → SpeadPacket → List SpeadPacket → Bool
joined len pkt [] = pos (pkt.payload_off + pkt.payload_len) ==ℤ len
joined len pkt (q ∷ rest) =
    if not (pkt.payload_off + pkt.payload_len == q.payload_off) then false else joined len q rest

-- `spead_heap_got_all_packets` on a chain that is not empty.
unfoldable pub check_packets : SpeadPacket → List SpeadPacket → SpeadHeap → ℤ × SpeadHeap
check_packets pkt rest heap =
    if heap.heap_len ==ℤ spead_err
    then (pos 0, heap)
    else if not (heap.has_all_packets ==ℤ spead_err)
    then (heap.has_all_packets, heap)
    else if joined heap.heap_len pkt rest
    then (pos 1, record heap { has_all_packets = pos 1 })
    else (pos 0, record heap { has_all_packets = pos 0 })

unfoldable pub got_all : List SpeadPacket → SpeadHeap → ℤ × SpeadHeap
got_all [] heap = (pos 0, heap)
got_all (pkt ∷ rest) heap = check_packets pkt rest heap

-- `spead_heap_got_all_packets`
unfoldable pub spead_heap_got_all_packets : SpeadHeap → ℤ × SpeadHeap
spead_heap_got_all_packets heap = got_all heap.packets heap

-- What `spead_heap_add_packet` does behind the insertion.
unfoldable pub finish_add : SpeadPacket → SpeadHeap → ℤ × SpeadHeap
finish_add pkt heap =
    let len = if not (pkt.heap_len ==ℤ spead_err) then pkt.heap_len else heap.heap_len in
    spead_heap_got_all_packets (record heap { heap_len = len; has_all_packets = spead_err })

-- The insertion into a heap that has a number already; `none` is a NULL pointer that is read.
unfoldable pub add_to_chain : SpeadPacket → List SpeadPacket → SpeadHeap → Option (ℤ × SpeadHeap)
add_to_chain pkt [] heap = none
add_to_chain pkt (head ∷ rest) heap = some (finish_add pkt (link_packet pkt head rest heap))

-- `spead_heap_add_packet`: the packets of a heap whose number is still negative are dropped.
unfoldable pub spead_heap_add_packet : SpeadHeap → SpeadPacket → Option (ℤ × SpeadHeap)
spead_heap_add_packet heap pkt =
    if pkt.n_items == 0
    then some (spead_err, heap)
    else if is_neg heap.heap_cnt
    then some (
        finish_add pkt
          (record heap { heap_cnt = pkt.heap_cnt; packets = pkt ∷ []; last_pkt = some pkt }))
    else if not (heap.heap_cnt ==ℤ pkt.heap_cnt)
    then some (spead_err, heap)
    else add_to_chain pkt heap.packets heap
