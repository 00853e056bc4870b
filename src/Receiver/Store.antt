-- ===== src/Receiver/Store.antt =====
-- src/spead.c: the store of heaps, a table for each slot of the backlog, and the way of a packet through
-- it: `process_packet_hs` and `store_packet_hs`. Each function is one critical section.
pub mod Table
pub mod Complete
use spead.Base.{
  ℕ, suc, ◌+◌, ◌-◌, ◌%◌, ◌^◌, Bool, true, false, not, ◌&&◌, Option, none, some, List, ◌==◌,
  if◌then◌else◌, get_elem?, set, ltb,
}
use spead.Base.Int.{ℤ, pos, negsuc, is_neg, ◌==ℤ◌}
use spead.Packet.{SpeadPacket, spead_err, spead_packet_unpack_header, spead_packet_unpack_items}
use spead.HashTable.{HashObject, ObjectBank, HashTable, error, empty_hash_table, add_o_ht}
use spead.ItemGroup.{SpeadItemGroup, is_item_descriptor_item_group}
use spead.Receiver.Process.{Surroundings, process_items}

-- `struct spead_heap_store`
pub record HeapStore : Type 0 where
  pub s_backlog : ℕ
  pub s_hash : List (HashTable SpeadPacket)
  pub s_list : ObjectBank SpeadPacket

-- The fields of `struct u_server` that the functions change. The counters are of the type `int`; they start
-- at 0, and nothing subtracts from them.
pub record Server : Type 0 where
  pub s_hs : HeapStore
  pub s_hpcount : ℕ
  pub s_hdcount : ℕ

-- `INT_MAX`
abbrev pub int_max : ℕ
int_max = 2 ^ 31 - 1

-- `++` on such a counter; `none` is the overflow, which C does not define.
unfoldable pub int_suc : ℕ → Option ℕ
int_suc n = if ltb n int_max then some (suc n) else none

-- An `int64_t` as a `uint64_t`.
abbrev pub to_u64 : ℤ → ℕ
to_u64 (pos n) = n % 2 ^ 64
to_u64 (negsuc n) = (2 ^ 64 - 1 - n) % 2 ^ 64

-- `hash_fn_spead_packet` on a table of length `len`, where `scale off heap_len len` is the quotient that
-- the source computes in floating point. A conversion of -1 is the result for NULL.
unfoldable pub hash_fn_spead_packet : (ℕ → ℕ → ℕ → ℕ) → ℕ → HashObject SpeadPacket → ℕ
hash_fn_spead_packet scale len none = 2 ^ 64 - 1
hash_fn_spead_packet scale len (some p) =
    if to_u64 p.heap_len == 0
    then 0
    else if len == 0
    then 2 ^ 64 - 1
    else scale p.payload_off (to_u64 p.heap_len) len

-- `hash_heap_hs`: the remainder has the sign of the heap's number.
unfoldable pub hash_heap_hs : ℕ → ℤ → ℤ
hash_heap_hs backlog (pos n) = pos (n % backlog)
hash_heap_hs backlog (negsuc n) =
    if suc n % backlog == 0 then pos 0 else negsuc (suc n % backlog - 1)

-- `hs->s_hash[id]`; `none` is an access outside the array.
unfoldable pub table_at : List (HashTable SpeadPacket) → ℤ → Option (ℕ × HashTable SpeadPacket)
table_at tables (negsuc n) = none
table_at tables (pos i) = elim (get_elem? tables i) [ none ↦ none | some ht ↦ some (i, ht) ]

-- The table takes the number of the heap where it has none.
unfoldable pub claim_table : HashTable SpeadPacket → ℤ → HashTable SpeadPacket
claim_table ht hid = if is_neg ht.t_data_id then record ht { t_data_id = hid } else ht

-- The end of `get_ht_hs`: a table of another heap is emptied. The result `none` is NULL; the Boolean
-- says whether a heap has been dropped.
unfoldable pub evict :
    HashTable SpeadPacket
    → ℤ
    → ObjectBank SpeadPacket
    → Option (Option (HashTable SpeadPacket) × Bool × ObjectBank SpeadPacket)
evict ht hid bank =
    if ht.t_data_id ==ℤ hid then some (some ht, false, bank) else elim (empty_hash_table ht bank) [
      | none ↦ none
      | some (negsuc n, ht', bank') ↦ some (none, false, bank')
      | some (pos n, ht', bank') ↦ some (some ht', true, bank')
    ]

-- `get_ht_hs` for a server: the place of the table, the table, and the server with the bank and the
-- count of dropped heaps that it leaves. The table itself is put back by `put_table`. `none` is an access
-- outside the array, a division by 0, or the overflow of the count.
unfoldable pub get_ht_hs : Server → ℤ → Option (ℕ × Option (HashTable SpeadPacket) × Server)
unfolding table_at claim_table evict int_suc
get_ht_hs s hid =
    if s.s_hs.s_backlog == 0
    then none
    else elim (table_at s.s_hs.s_hash (hash_heap_hs s.s_hs.s_backlog hid)) [
      | none ↦ none
      | some (i, ht) ↦ elim (evict (claim_table ht hid) hid s.s_hs.s_list) [
        | none ↦ none
        | some (got, false, bank) ↦
            some (i, got, record s { s_hs = record s.s_hs { s_list = bank } })
        | some (got, true, bank) ↦ elim (int_suc s.s_hdcount) [
          | none ↦ none
          | some count ↦
              some (i, got, record s { s_hs = record s.s_hs { s_list = bank }; s_hdcount = count })
        ]
      ]
    ]

unfoldable pub put_table : Server → ℕ → HashTable SpeadPacket → Server
put_table s i ht = record s { s_hs = record s.s_hs { s_hash = set s.s_hs.s_hash i ht } }

-- The counters of a table after a packet.
unfoldable pub count_packet : HashTable SpeadPacket → SpeadPacket → HashTable SpeadPacket
count_packet ht p = record ht {
  t_data_count = (ht.t_data_count + p.payload_len) % 2 ^ 64;
  t_items = (ht.t_items + p.n_items) % 2 ^ 64;
}

-- `ht->t_data_count == p->heap_len && !ht->t_processing`
unfoldable pub heap_ready : HashTable SpeadPacket → SpeadPacket → Bool
heap_ready ht p = (ht.t_data_count == to_u64 p.heap_len) && (ht.t_processing == 0)

abbrev pub failed_heap : ℤ
failed_heap = negsuc 1

-- What `store_packet_hs` does with the group that `process_items` has made, behind the emptying of the
-- table: the result, the server, and the group that the pipeline's callbacks are run on.
unfoldable pub finish_heap :
    Server → SpeadPacket → Option SpeadItemGroup → Option (ℤ × Server × Option SpeadItemGroup)
unfolding int_suc
finish_heap s p none =
    if not (p.is_stream_ctrl_term == 0)
    then elim (int_suc s.s_hpcount) [
      | none ↦ none
      | some count ↦ some (pos 0, record s { s_hpcount = count }, none)
    ]
    else elim (int_suc s.s_hdcount) [
      | none ↦ none
      | some count ↦ some (failed_heap, record s { s_hdcount = count }, none)
    ]
finish_heap s p (some ig) = elim (int_suc s.s_hpcount) [
  | none ↦ none
  | some count ↦ some (
    pos 0,
    record s { s_hpcount = count },
    if is_item_descriptor_item_group ig == 0 then some ig else none,
  )
]

module _ (scale : ℕ → ℕ → ℕ → ℕ) (e : Surroundings) where
  -- `process_items` and the emptying of a table whose heap is there.
  unfoldable pub process_heap :
      Server → ℕ → HashTable SpeadPacket → SpeadPacket → Option (ℤ × Server × Option SpeadItemGroup)
  unfolding put_table finish_heap
  process_heap s i ht p = elim ht.t_os [
    | none ↦ none
    | some os ↦ elim (process_items e ht.t_len os ht.t_data_count) [
      | none ↦ none
      | some ig ↦ elim (empty_hash_table ht s.s_hs.s_list) [
        | none ↦ none
        | some (negsuc n, ht', bank) ↦ some (failed_heap, put_table s i ht, none)
        | some (pos n, ht', bank) ↦
            finish_heap (put_table (record s { s_hs = record s.s_hs { s_list = bank } }) i ht') p ig
      ]
    ]
  ]

  -- `store_packet_hs` once the packet is in its table.
  unfoldable pub after_add :
      Server → ℕ → HashTable SpeadPacket → SpeadPacket → Option (ℤ × Server × Option SpeadItemGroup)
  unfolding process_heap count_packet heap_ready
  after_add s i ht p =
      if heap_ready (count_packet ht p) p
      then process_heap s i (record (count_packet ht p) { t_processing = 1 }) p
      else some (pos 0, put_table s i (count_packet ht p), none)

  -- `store_packet_hs`: the result, the server, and the group that goes to the callbacks; `none` where an
  -- array is left, a fuel has run out, the backlog is 0, or a counter overflows.
  unfoldable pub store_packet_hs :
      Server → HashObject SpeadPacket → Option (ℤ × Server × Option SpeadItemGroup)
  unfolding get_ht_hs after_add
  store_packet_hs s none = some (error, s, none)
  store_packet_hs s (some p) = elim (get_ht_hs s p.heap_cnt) [
    | none ↦ none
    | some (i, none, s') ↦ some (error, s', none)
    | some (i, some ht, s') ↦ elim (add_o_ht (hash_fn_spead_packet scale ht.t_len) ht (some p)) [
      | none ↦ none
      | some (negsuc n, ht') ↦ some (error, put_table s' i ht', none)
      | some (pos n, ht') ↦ after_add s' i ht' p
    ]
  ]

  -- `process_packet_hs` once the header is unpacked.
  unfoldable pub store_unpacked :
      Server → Option (ℤ × SpeadPacket) → Option (ℤ × Server × Option SpeadItemGroup)
  unfolding store_packet_hs
  store_unpacked s none = none
  store_unpacked s (some (r, p)) =
      if r ==ℤ spead_err then some (error, s, none) else store_packet_hs s (some p)

  unfoldable pub unpack_rest :
      Server → Option (ℤ × SpeadPacket) → Option (ℤ × Server × Option SpeadItemGroup)
  unfolding store_unpacked
  unpack_rest s none = none
  unpack_rest s (some (r, p)) =
      if r ==ℤ spead_err
      then some (error, s, none)
      else store_unpacked s (spead_packet_unpack_items p)

  -- `process_packet_hs`
  unfoldable pub process_packet_hs :
      Server → HashObject SpeadPacket → Option (ℤ × Server × Option SpeadItemGroup)
  unfolding unpack_rest
  process_packet_hs s none = some (error, s, none)
  process_packet_hs s (some p) = unpack_rest s (spead_packet_unpack_header p)
