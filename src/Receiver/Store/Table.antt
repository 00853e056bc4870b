-- ===== src/Receiver/Store/Table.antt =====
-- src/spead.c: which table `get_ht_hs` gives to the packets of a heap.
use mathlib.Core.List.{reverse_aux}
use spead.Base.{
  ℕ, suc, ◌+◌, ◌%◌, ◌^◌, ◌<◌, ◌≡◌, ◌≢◌, refl, true, false, none, some, List, ◌==◌, get_elem?, arith,
  length,
}
use spead.Base.Int.{pos, negsuc, is_neg, ◌==ℤ◌}
use spead.Packet.{SpeadPacket}
use spead.HashTable.{HashObject, ObjectBank, HashTable, create_hash_table}
use spead.HashTable.Bank.{IsCounted, objects, empty-Returned}
use spead.Receiver.Store.{
  Server, hash_heap_hs, table_at, claim_table, evict, int_max, int_suc, get_ht_hs,
}

==ℤ_refl : (n : ℕ) → (pos n ==ℤ pos n) ≡ true
==ℤ_refl n = ground arith

-- A counter below the greatest `int` goes on by one.
pub int_suc-below : (n : ℕ) → n < int_max → int_suc n ≡ some (suc n)
unfolding int_suc
int_suc-below n below = ground arith

-- The server with another bank, and one heap more that was dropped.
abbrev pub dropped : Server → ObjectBank SpeadPacket → Server
dropped s bank = record s { s_hs = record s.s_hs { s_list = bank }; s_hdcount = suc s.s_hdcount }

-- `get_ht_hs` for heap `n`, with the table `ht` at `n` modulo the backlog. A table without a heap takes
-- the number `n`, and one of heap `n` is given as it is. A table of another heap gives all its objects
-- back to the bank, one dropped heap is counted, and what is given is a new table that is still
-- without a heap. For a negative number that the backlog does not divide, the access is outside the
-- array. The count of dropped heaps is below the greatest `int`, the table has an array of its length,
-- the backlog is not 0, and the bank counts its objects and has room for those of the table.
pub get_ht_hs-tables :
    (s : Server) (n : ℕ) (ht : HashTable SpeadPacket) (os : List (List (HashObject SpeadPacket)))
    → (s.s_hs.s_backlog == 0) ≡ false
    → get_elem? s.s_hs.s_hash (n % s.s_hs.s_backlog) ≡ some ht
    → ht.t_os ≡ some os
    → ht.t_len ≡ length os
    → s.s_hdcount < int_max
    → IsCounted s.s_hs.s_list
    → s.s_hs.s_list.l_len + length (objects os) < 2 ^ 64
    → (ht.t_data_id ≡ negsuc 0
        → get_ht_hs s (pos n)
          ≡ some (n % s.s_hs.s_backlog, some (record ht { t_data_id = pos n }), s))
      × (ht.t_data_id ≡ pos n → get_ht_hs s (pos n) ≡ some (n % s.s_hs.s_backlog, some ht, s))
      × ((m : ℕ)
          → ht.t_data_id ≡ pos m
          → m ≢ n
          → (bank : ObjectBank SpeadPacket) × (get_ht_hs s (pos n)
              ≡ some (
                n % s.s_hs.s_backlog,
                some (create_hash_table {P = SpeadPacket} ht.t_id ht.t_len),
                dropped s bank,
              ))
            × (bank.l_top ≡ reverse_aux (objects os) s.s_hs.s_list.l_top))
      × ((k : ℕ) → (suc k % s.s_hs.s_backlog == 0) ≡ false → get_ht_hs s (negsuc k) ≡ none)
unfolding get_ht_hs hash_heap_hs table_at evict claim_table
get_ht_hs-tables s n ht os some_tables at chains len below counted room = (
  (λ fresh.
      let free : is_neg ht.t_data_id ≡ true = rw fresh refl in
      rw (some_tables, at, free, ==ℤ_refl n, get_ht_hs)),
  (λ same.
      let taken : is_neg ht.t_data_id ≡ false = rw same refl in
      let own : (ht.t_data_id ==ℤ pos n) ≡ true = rw same (==ℤ_refl n) in
      rw (some_tables, at, taken, own, get_ht_hs)),
  (λ m other apart.
      let taken : is_neg ht.t_data_id ≡ false = rw other refl in
      let ne : (ht.t_data_id ==ℤ pos n) ≡ false = rw other (ground arith) in
      let (bank, run, top, kept, count) =
        empty-Returned ht os s.s_hs.s_list chains len counted room in
      (
        bank,
        rw (some_tables, at, taken, ne, run, get_ht_hs, int_suc-below s.s_hdcount below),
        top,
      )),
  (λ k out. rw (some_tables, out, get_ht_hs)),
)
