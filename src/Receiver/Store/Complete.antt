-- ===== src/Receiver/Store/Complete.antt =====
-- src/spead.c: what `store_packet_hs` does with the packet that completes a heap.
use spead.Base.{ℕ, ◌+◌, ◌≡◌, some, List, length, suc}
use spead.Base.Int.{pos}
use spead.Packet.{SpeadPacket}
use spead.HashTable.{ObjectBank, HashTable, create_hash_table}
use spead.Receiver.Items.Whole.{Listed, tables, flat, heap_bytes}
use spead.Receiver.Store.{Server, put_table}

-- The server behind a heap: the table is as it was made, the objects are in the bank, and one heap more
-- is counted.
abbrev pub delivered_server : Server → ℕ → HashTable SpeadPacket → ObjectBank SpeadPacket → Server
delivered_server s i ht bank =
    record (put_table (record s { s_hs = record s.s_hs { s_list = bank } }) i
      (create_hash_table {P = SpeadPacket} ht.t_id ht.t_len)) { s_hpcount = suc s.s_hpcount }

-- The table with this packet holds the whole heap.
pub record IsLast (ht : HashTable SpeadPacket) (p : SpeadPacket) (heap : List (List Listed))
    : Type 0 where
  pub has_chains : ht.t_os ≡ some (tables heap)
  pub has_length : ht.t_len ≡ length (tables heap)
  pub all_bytes : ht.t_data_count + p.payload_len ≡ heap_bytes (flat heap)
  pub announced : p.heap_len ≡ pos (heap_bytes (flat heap))
  pub not_begun : ht.t_processing ≡ 0
