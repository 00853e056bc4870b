-- ===== src/Sender/Packets.antt =====
-- src/spead.c: what `packetize_item_group` returns, and what it leaves in the store.
use spead.Base.{
  none, ℕ, zero, suc, ◌+◌, ◌*◌, ◌^◌, ◌≤◌, ◌<◌, ◌≡◌, refl, ap, ◌∙◌, some, Option, List, [], ◌∷◌,
  ◌++◌, length, drop, arith, map,
}
use spead.SpeadHeap.Finalize.Extract.{chain_bytes}
use spead.Base.Int.{pos}
use spead.Packet.{SpeadPacket}
use spead.HashTable.{HashObject, ObjectBank, HashTable}
use spead.ItemGroup.{SpeadItemGroup}
use spead.ItemGroup.Walk.{start-Walks}
use spead.Receiver.Store.{Server, get_ht_hs, put_table}
use spead.Sender.State.{measure_items}
use spead.Sender.Loop.{
  no_count, fresh_packetizer, pz_loop, to_i64, put_bank, packetize_table, packetize_item_group,
}
use spead.Sender.Open.{all_data, data_total, pointers, measure_items-total}
use spead.Sender.Rounds.{table_of, bank_of}
use spead.Sender.Cut.{Chunks, Chunks-bytes, all_placed}
use spead.Sender.Whole.{IsSendable, IsTable, HasSpare, loop_runs}

-- The server once `get_ht_hs` has been called without one.
abbrev pub uncounted : Server → Server → Server
uncounted s s' = record s' { s_hdcount = s.s_hdcount }

-- The packets that have been put into the table, in their order, and what is left of the bank.
pub record IsPacketized (hfn : HashObject SpeadPacket → ℕ) (ig : SpeadItemGroup) (pkt_size hid : ℕ)
    (os : List (List (HashObject SpeadPacket))) (free : List SpeadPacket)
    (others : List (HashObject SpeadPacket)) (chains : List (List (HashObject SpeadPacket)))
    (bank : ObjectBank SpeadPacket) : Type 0 where
  pub packets : List SpeadPacket
  pub chunks :
      Chunks pkt_size hid
        (data_total ig.g_map)
        (length ig.g_map)
        (pointers ig.g_map 0)
        0
        (all_data ig.g_map)
        packets
  pub joined : chain_bytes packets ≡ all_data ig.g_map
  pub stored : chains ≡ all_placed hfn os packets
  pub spare : bank.l_top ≡ map (λ (p : SpeadPacket). some p) (drop (length packets) free) ++ others

module _ (hfn : HashObject SpeadPacket → ℕ) (fuel cursor n hid i : ℕ) (s : Server)
    (ig : SpeadItemGroup) (ht : HashTable SpeadPacket) (os : List (List (HashObject SpeadPacket)))
    (others : List (HashObject SpeadPacket)) where
  packetize_table-packets :
      (p : SpeadPacket) (free : List SpeadPacket) (c : ℕ)
      → IsSendable ig n
      → hid < 2 ^ 40
      → IsTable hfn ht os (data_total ig.g_map)
      → HasSpare s.s_hs.s_list (p ∷ free) others n (data_total ig.g_map)
      → 4 * length free + length ig.g_map + 6 ≤ fuel
      → measure_items fuel ig none cursor 0 4
        ≡ some (0 + data_total ig.g_map, 4 + length ig.g_map, c)
      → (chains : List (List (HashObject SpeadPacket))) × (bank : ObjectBank SpeadPacket)
        × (packetize_table hfn ig fuel cursor n hid i ht s
            ≡ some (some (table_of ht chains), put_table (put_bank s bank) i (table_of ht chains)))
        × IsPacketized hfn ig n hid os (p ∷ free) others chains bank
  unfolding packetize_table
  packetize_table-packets p free c is hid_fits t bank ample measured =
      let total = data_total ig.g_map in
      let l = s.s_hs.s_list in
      let sent =
        loop_runs hfn ig fuel n hid l.l_len l.l_olen ht os p free others is hid_fits t bank.spare
          (omega (arith, bank.enough)) (omega arith) c in
      let packets = sent.first ∷ sent.more in
      let number = 4 + length ig.g_map in
      let sum : 0 + total ≡ total = omega arith in
      let heap_len = measured ∙ ap (λ (k : ℕ). some (k, number, c)) sum in
      let looped =
        ap
          (λ (top : List (HashObject SpeadPacket)).
            pz_loop hfn ig fuel n hid total fuel
              (fresh_packetizer (record l { l_top = top }) ht number c))
          bank.top
        ∙ ap
            (λ (chains : Option (List (List (HashObject SpeadPacket)))).
              pz_loop hfn ig fuel n hid total fuel (
                fresh_packetizer
                  (bank_of l.l_len l.l_olen
                    (map (λ (p : SpeadPacket). some p) (p ∷ free) ++ others))
                  (record ht { t_os = chains }) number c))
            t.there
        ∙ sent.runs fuel (omega (arith, sent.cheap)) in
      (
        all_placed hfn os packets,
        sent.final.bank,
        rw (heap_len, packetize_table, looped)
            (λ j.
              some (some (sent.table j), put_table (put_bank s sent.final.bank) i (sent.table j))),
        record {
          packets = packets;
          chunks = sent.chunks;
          joined =
              Chunks-bytes n hid total (length ig.g_map) 0 (pointers ig.g_map 0) (all_data ig.g_map)
                packets sent.chunks;
          stored = refl;
          spare = sent.spare;
        },
      )

-- `packetize_item_group` for packets of `n` bytes, `n` not 0, of a heap with a number below 2 ^ 40, on a
-- group with at least one item, whose items stand one behind the other in its mapping, which ends behind
-- the last or has zeros for another structure there. A packet has room for the items' pointers and `n`
-- bytes, and some to spare; the items' ids are above 6, the greatest that the packets use themselves, and
-- below 2 ^ 23; they hold their data, which is shorter than 2 ^ 40. The hash function of the table stays
-- inside it, the table has at most 2 ^ 63 chains, and the bank has packets for all the data, at least one,
-- with arrays of 9200 bytes. With fuel for four passes for each of those packets, one for each item,
-- and two, it returns the table that `get_ht_hs` gave, with packets more, each put in the chain at its
-- hash function's index, in their order. The packets' payloads, one behind the other, are the items'
-- data: each has `n` bytes at its offset, but the last, which has the rest; each has the heap's number
-- and length, and the first has a pointer to each item, with its id and the offset of its data. The
-- packets were the first of the bank, which keeps the others.
pub packetize_item_group-cuts :
    (hfn : HashObject SpeadPacket → ℕ) (fuel cursor n hid i : ℕ) (s s' : Server)
    (ig : SpeadItemGroup) (ht : HashTable SpeadPacket) (os : List (List (HashObject SpeadPacket)))
    (free : List SpeadPacket) (others : List (HashObject SpeadPacket))
    → get_ht_hs (no_count s) (to_i64 hid) ≡ some (i, some ht, s')
    → IsSendable ig n
    → hid < 2 ^ 40
    → IsTable hfn ht os (data_total ig.g_map)
    → HasSpare s'.s_hs.s_list free others n (data_total ig.g_map)
    → 4 * length free + length ig.g_map + 2 ≤ fuel
    → (chains : List (List (HashObject SpeadPacket))) × (bank : ObjectBank SpeadPacket)
      × (packetize_item_group hfn fuel cursor s ig (pos n) hid
          ≡ some (
            some (table_of ht chains),
            put_table (put_bank (uncounted s s') bank) i (table_of ht chains),
          ))
      × IsPacketized hfn ig n hid os free others chains bank
unfolding packetize_item_group
packetize_item_group-cuts hfn fuel cursor zero hid i s s' ig ht os free others found is hid_fits t
      bank ample =
    absurd (omega (arith, is.some_size))
packetize_item_group-cuts hfn fuel cursor (suc n) hid i s s' ig ht os [] others found is hid_fits t
      bank ample =
    absurd (omega (arith, bank.some_packet))
packetize_item_group-cuts hfn fuel cursor (suc n) hid i s s' ig ht os (p ∷ free) others found is
      hid_fits t bank ample =
    let measured =
      measure_items-total ig fuel none cursor 0 4 ig.g_map
        (start-Walks ig cursor is.group is.readable) (omega arith) (omega (arith, is.few_bytes)) in
    let result =
      packetize_table-packets hfn fuel cursor (suc n) hid i (uncounted s s') ig ht os others p free
        (measured.0) is hid_fits t bank (omega (arith, ample)) (measured.1) in
    (result.0, result.1, rw (found, packetize_item_group) (result.2), result.3)
