-- ===== src/SpeadHeap/Finalize.antt =====
-- src/spead_packet.c: `spead_heap_wipe` and `spead_heap_finalize`, which takes the items out of the
-- packets of a heap. `none` is an access outside an array or through NULL.
pub mod Extract
use spead.Base.{
  ℕ, zero, suc, ◌+◌, ◌-◌, ◌*◌, ◌/◌, ◌%◌, ◌^◌, Bool, true, false, not, ◌&&◌, ◌||◌, Option, none,
  some, List, [], ◌∷◌, ◌++◌, ◌==◌, ltb, leb, if◌then◌else◌, get_elem?,
}
use Prim.Native.Nat.{bit_and}
use spead.Base.Int.{ℤ, pos, negsuc, is_neg, ◌==ℤ◌, sub_ℕ, to_ℕ}
use spead.Packet.Word.{spead_item, item_id, item_mode, item_addr, directaddr, spead_addrlen}
use spead.Packet.{
  SpeadPacket, spead_err, heap_cnt_id, payload_off_id, payload_len_id, stream_ctrl_id,
}
use spead.SpeadHeap.Item.{SpeadItem, spead_item_init, spead_item_wipe}
use spead.SpeadHeap.{SpeadHeap, spead_heap_init}

-- `spead_heap_wipe`: the items, wiped one by one, and the packets are given to `free`, and the heap
-- starts again. The result has the freed values of the items, the number of freed packets and the heap.
unfoldable pub wipe_items : List SpeadItem → List (Option (List ℕ))
wipe_items [] = []
wipe_items (item ∷ items) = (spead_item_wipe item).0 ∷ wipe_items items

unfoldable pub free_packets : List SpeadPacket → ℕ
free_packets [] = 0
free_packets (pkt ∷ rest) = suc (free_packets rest)

unfoldable pub spead_heap_wipe : SpeadHeap → List (Option (List ℕ)) × ℕ × SpeadHeap
spead_heap_wipe heap = (wipe_items heap.items, free_packets heap.packets, spead_heap_init)

-- The item ids that describe the packet and not the heap.
unfoldable pub is_packet_id : ℕ → Bool
is_packet_id id =
    id == heap_cnt_id || (id == payload_off_id || (id == payload_len_id || id == stream_ctrl_id))

-- The search for the next direct item pointer in one packet, from index `j` with `n` rounds left:
-- its address if there is one.
unfoldable pub next_direct_in : ℕ → ℕ → List ℕ → Option (Option ℕ)
next_direct_in zero j bytes = some none
next_direct_in (suc n) j bytes = elim (spead_item bytes j) [
  | none ↦ none
  | some item ↦
      let later = next_direct_in n (suc j) bytes in
      if item_mode item == directaddr then some (some (item_addr item)) else later
]

-- The same in the packets that follow, each from its first item pointer.
unfoldable pub next_direct : List SpeadPacket → Option (Option ℕ)
next_direct [] = some none
next_direct (pkt ∷ rest) = elim (next_direct_in pkt.n_items 1 pkt.bytes) [
  | none ↦ none
  | some none ↦ next_direct rest
  | some (some a) ↦ some (some a)
]

-- `len - off`
abbrev pub minus_off : ℤ → ℕ → ℤ
minus_off (pos n) off = sub_ℕ n off
minus_off (negsuc n) off = negsuc (n + off)

-- `item->len` of the direct item pointer before index `j`, at address `off`: up to the next direct
-- item pointer, or else to the end of the heap.
unfoldable pub item_len : ℤ → ℕ → SpeadPacket → ℕ → List SpeadPacket → Option ℤ
item_len heap_len off pkt j rest = elim (next_direct_in (pkt.n_items + 1 - j) j pkt.bytes) [
  | none ↦ none
  | some (some a) ↦ some (sub_ℕ a off)
  | some none ↦ elim (next_direct rest) [
    | none ↦ none
    | some (some a) ↦ some (sub_ℕ a off)
    | some none ↦ some (minus_off heap_len off)
  ]
]

-- The inner `while`: past the packets whose payload ends at or before address `a`.
unfoldable pub skip_before : ℕ → List SpeadPacket → List SpeadPacket
skip_before a [] = []
skip_before a (p ∷ rest) =
    if leb (p.payload_off + p.payload_len) a then skip_before a rest else p ∷ rest

-- `payload[i]`
unfoldable pub payload_byte : SpeadPacket → ℕ → Option ℕ
payload_byte p i = elim p.payload [
  | none ↦ none
  | some a ↦ if ltb a p.data_addr then none else get_elem? p.bytes (a - p.data_addr + i)
]

-- The byte at address `a`, from the packet that the `while` stops at: `some none` where no packet
-- carries it.
unfoldable pub byte_in : ℕ → List SpeadPacket → Option (Option ℕ)
byte_in a [] = some none
byte_in a (p ∷ rest) =
    if ltb a p.payload_off
    then some none
    else elim (payload_byte p (a - p.payload_off)) [ none ↦ none | some b ↦ some (some b) ]

-- What one round does with its byte, before the bytes that the later rounds copy: a missing one is 0
-- and makes the item invalid.
unfoldable pub put_byte : Option ℕ → List ℕ × Bool → List ℕ × Bool
put_byte none (val, valid) = (0 ∷ val, false)
put_byte (some b) (val, valid) = (b ∷ val, valid)

unfoldable pub then_byte : Option (Option ℕ) → Option (List ℕ × Bool) → Option (List ℕ × Bool)
unfolding put_byte
then_byte none later = none
then_byte (some b) none = none
then_byte (some b) (some r) = some (put_byte b r)

-- The loop that copies an item's value, with `n` bytes left, at address `a`, with the cursor `pkt2`.
unfoldable pub copy_val : ℕ → ℕ → List SpeadPacket → Option (List ℕ × Bool)
copy_val zero a cur = some ([], true)
copy_val (suc n) a cur =
    then_byte (byte_in a (skip_before a cur)) (copy_val n (suc a) (skip_before a cur))

-- The five bytes of an immediate item: byte `o` is `0xFF & (itemptr >> (8 * (4 - o)))`.
unfoldable pub immediate_val : ℕ → ℕ → List ℕ
immediate_val item zero = []
immediate_val item (suc k) = bit_and 0xff (item / 2 ^ (8 * k)) ∷ immediate_val item k

-- Where a loop stands: it goes on, or it has returned.
pub data Progress : Type 0 where
  going : ℕ → SpeadHeap → Progress
  returned : ℤ → SpeadHeap → Progress

-- `malloc` of the C library: whether its `k`-th call in one run returns a block. The functions below
-- thread the number of the next call.
module _ (malloc : ℕ → Bool) where
  -- The value of a direct item once its length is known.
  unfoldable pub take_value : ℕ → ℕ → ℕ → ℤ → List SpeadPacket → Option (ℕ × Option SpeadItem)
  take_value k id off len chain =
      if is_neg len
      then some (k, some (record { is_valid = false; id = pos id; val = none; len = len }))
      else if not (malloc k)
      then some (suc k, none)
      else elim (copy_val (to_ℕ len) off chain) [
        | none ↦ none
        | some (val, valid) ↦
            some (suc k, some (record { is_valid = valid; id = pos id; val = some val; len = len }))
      ]

  -- One item pointer, the `i`-th of `pkt`, with the packets `rest` behind it: the item, or nothing
  -- where `malloc` fails.
  unfoldable pub build_item :
      ℕ
      → ℤ
      → List SpeadPacket
      → SpeadPacket
      → ℕ
      → List SpeadPacket
      → ℕ
      → Option (ℕ × Option SpeadItem)
  build_item k heap_len chain pkt i rest item =
      if not (malloc k)
      then some (suc k, none)
      else if item_mode item == directaddr
      then elim (item_len heap_len (item_addr item) pkt (i + 1) rest) [
        | none ↦ none
        | some len ↦ take_value (suc k) (item_id item) (item_addr item) len chain
      ]
      else if not (malloc (suc k))
      then some (suc (suc k), none)
      else some (
        suc (suc k),
        some (record {
          is_valid = true;
          id = pos (item_id item);
          val = some (immediate_val item spead_addrlen);
          len = pos spead_addrlen;
        }),
      )

  -- `Link this new item into the heap`
  abbrev pub link_item : SpeadHeap → SpeadItem → SpeadHeap
  link_item heap item = record heap {
    is_valid = elim heap.items [ [] ↦ item.is_valid | _ ∷ _ ↦ heap.is_valid && item.is_valid ];
    items = heap.items ++ item ∷ [];
  }

  -- The `for` over the item pointers of one packet, from index `i` with `n` rounds left.
  unfoldable pub finalize_items :
      ℕ
      → ℕ
      → ℕ
      → ℤ
      → List SpeadPacket
      → SpeadPacket
      → List SpeadPacket
      → SpeadHeap
      → Option Progress
  finalize_items zero i k heap_len chain pkt rest heap = some (going k heap)
  finalize_items (suc n) i k heap_len chain pkt rest heap = elim (spead_item pkt.bytes i) [
    | none ↦ none
    | some item ↦ elim (is_packet_id (item_id item)) [
      | true ↦ finalize_items n (suc i) k heap_len chain pkt rest heap
      | false ↦ elim (build_item k heap_len chain pkt i rest item) [
        | none ↦ none
        | some (k', none) ↦ some (returned spead_err heap)
        | some (k', some made) ↦
            finalize_items n (suc i) k' heap_len chain pkt rest (link_item heap made)
      ]
    ]
  ]

  -- The `while` over the packets.
  unfoldable pub finalize_packets :
      ℕ → ℤ → List SpeadPacket → List SpeadPacket → SpeadHeap → Option (ℤ × SpeadHeap)
  finalize_packets k heap_len chain [] heap = some (pos 0, heap)
  finalize_packets k heap_len chain (pkt ∷ rest) heap =
      elim (finalize_items pkt.n_items 1 k heap_len chain pkt rest heap) [
        | none ↦ none
        | some (returned r h) ↦ some (r, h)
        | some (going k' h) ↦ finalize_packets k' heap_len chain rest h
      ]

  -- `heap->heap_len`, or where it is not known the end of the last packet.
  unfoldable pub known_len : SpeadHeap → Option ℤ
  known_len heap =
      if heap.heap_len ==ℤ spead_err
      then elim heap.last_pkt [ none ↦ none | some p ↦ some (pos (p.payload_off + p.payload_len)) ]
      else some heap.heap_len

  -- `spead_heap_finalize`: what the heap had as items is unlinked first.
  unfoldable pub spead_heap_finalize : SpeadHeap → Option (ℤ × SpeadHeap)
  spead_heap_finalize heap = elim heap.packets [
    | [] ↦ some (pos 0, heap)
    | pkt ∷ rest ↦ elim (known_len heap) [
      | none ↦ none
      | some len ↦
          finalize_packets 0 len (pkt ∷ rest) (pkt ∷ rest)
            (record heap { items = []; heap_len = len })
    ]
  ]
