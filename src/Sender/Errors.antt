-- ===== src/Sender/Errors.antt =====
-- src/spead.c: what `packetize_item_group` does where it has no packet to fill or nothing to fill it with.
use spead.Base.{
  subst, false, ℕ, suc, ◌+◌, ◌-◌, ◌%◌, ◌^◌, ◌≤◌, ◌<◌, ◌≡◌, refl, ap, ◌∙◌, some, none, List, [], ◌∷◌,
  length, arith,
}
use spead.Base.Int.{pos}
use spead.Packet.{SpeadPacket}
use spead.HashTable.{HashObject, ObjectBank, HashTable, pop_hash_o, pop_top}
use spead.ItemGroup.{SpeadItemGroup, get_next_spead_item}
use spead.Packet.Unpack.{items_from}
use spead.ItemGroup.Cut.{IsGroup}
use spead.ItemGroup.Find.{IsReadable}
use spead.ItemGroup.Walk.{Walks, start-Walks, next-end}
use spead.Receiver.Store.{Server, get_ht_hs, put_table}
use spead.Sender.State.{
  pz_end, pz_getpacket, pz_copydata, pz_init_packet, Packetizer, open_packet, measure_items,
}
use spead.Sender.Loop.{
  no_count, copy_data, copy_next, pz_switch, pz_loop, fresh_packetizer, to_i64, put_bank,
  packetize_table, packetize_item_group,
}
use spead.Sender.Open.{data_total, measure_items-total}
use spead.Sender.Start.{started, start_packet-started, IsStarted-IsFramed}
use spead.Sender.Copy.{Runs-step, Runs-end}
use spead.Sender.Fill.{pz}
use spead.Sender.Rounds.{bank_of, waiting, step_get, step_init}
use spead.Sender.Packets.{uncounted}

module _ (hfn : HashObject SpeadPacket → ℕ) (fuel cursor n hid i : ℕ) (s s' : Server)
    (ig : SpeadItemGroup) (ht : HashTable SpeadPacket) where
  -- What is returned where the loop ends with the table as it was.
  abbrev Unchanged : List (HashObject SpeadPacket) → Type 0
  Unchanged top =
      (bank : ObjectBank SpeadPacket) × (packetize_item_group hfn fuel cursor s ig (pos (suc n)) hid
        ≡ some (some ht, put_table (put_bank (uncounted s s') bank) i ht))
      × (bank.l_top ≡ top)

  ends-Unchanged :
      (c heap_len nitems : ℕ) (z : Packetizer)
      → get_ht_hs (no_count s) (to_i64 hid) ≡ some (i, some ht, s')
      → measure_items fuel ig none cursor 0 4 ≡ some (heap_len, nitems, c)
      → pz_loop hfn ig fuel (suc n) hid heap_len fuel (fresh_packetizer s'.s_hs.s_list ht nitems c)
        ≡ some z
      → z.table ≡ ht
      → Unchanged z.bank.l_top
  unfolding packetize_item_group packetize_table
  ends-Unchanged c heap_len nitems z found measured run same = (
    z.bank,
    rw (found, packetize_item_group, packetize_table, measured, run)
        (λ j. some (some (same j), put_table (put_bank (uncounted s s') z.bank) i (same j))),
    refl,
  )

  -- `packetize_item_group` with an empty bank: whatever the group holds, it returns the table as it was,
  -- and nothing says that the data is not in it.
  pub packetize-empty_bank :
      IsGroup ig
      → IsReadable ig
      → data_total ig.g_map < 2 ^ 64
      → get_ht_hs (no_count s) (to_i64 hid) ≡ some (i, some ht, s')
      → s'.s_hs.s_list.l_top ≡ []
      → length ig.g_map + 2 ≤ fuel
      → Unchanged []
  unfolding pz_switch open_packet pop_hash_o pop_top
  packetize-empty_bank is r few found no_packet ample =
      let (c, measured) =
        measure_items-total ig fuel none cursor 0 4 ig.g_map (start-Walks ig cursor is r)
          (omega arith) (omega (arith, few)) in
      let total = 0 + data_total ig.g_map in
      let l = s'.s_hs.s_list in
      let nitems = 4 + length ig.g_map in
      let z = fresh_packetizer (bank_of l.l_len l.l_olen []) ht nitems c in
      let ended = record z { state = pz_end } in
      let run =
        Runs-step hfn ig fuel (suc n) hid total pz_getpacket z ended ended 1 (λ e. cc) refl
          (Runs-end hfn ig fuel (suc n) hid total ended) fuel (omega arith) in
      let looped =
        ap
          (λ (top : List (HashObject SpeadPacket)).
            pz_loop hfn ig fuel (suc n) hid total fuel
              (fresh_packetizer (record l { l_top = top }) ht nitems c))
          no_packet
        ∙ run in
      ends-Unchanged c total nitems ended found measured looped refl

  step_nothing :
      (q : SpeadPacket) (bank : ObjectBank SpeadPacket) (c at : ℕ)
      → get_next_spead_item ig none c ≡ (some none, at)
      → pz_switch hfn ig fuel
          (suc n)
          hid
          0
          pz_copydata
          (some q)
          (pz hfn ig fuel (suc n) hid 0 bank ht 0 0 pz_copydata q none c 0 0 0 0 0)
        ≡ some (pz hfn ig fuel (suc n) hid 0 bank ht 0 0 pz_end q none at 0 0 0 0 0)
  unfolding pz_switch copy_data copy_next
  step_nothing q bank c at none_next = rw none_next refl

  -- `packetize_item_group` on a group with no items, with a packet in the bank: it returns the table as it
  -- was, and the packet is neither in the bank any more nor in the table.
  pub packetize-no_items :
      (p : SpeadPacket) (top : List (HashObject SpeadPacket))
      → IsGroup ig
      → IsReadable ig
      → ig.g_map ≡ []
      → get_ht_hs (no_count s) (to_i64 hid) ≡ some (i, some ht, s')
      → s'.s_hs.s_list.l_top ≡ some p ∷ top
      → length p.bytes ≡ 9200
      → suc n < 9160
      → 4 ≤ fuel
      → Unchanged top
  unfolding items_from
  packetize-no_items p top is r no_item found has_packet full fits ample =
      let w = subst (λ l. Walks ig none cursor l) no_item (start-Walks ig cursor is r) in
      let (c, measured) =
        measure_items-total ig fuel none cursor 0 4 [] w (omega arith) (omega arith) in
      let w' = subst (λ l. Walks ig none c l) no_item (start-Walks ig c is r) in
      let l = s'.s_hs.s_list in
      let behind = bank_of ((l.l_len + 2 ^ 64 - 1) % 2 ^ 64) l.l_olen top in
      let start =
        waiting hfn ig fuel (suc n) hid 0 4 (bank_of l.l_len l.l_olen (some p ∷ top)) ht none none c
          0 0 0 0 in
      let p' = record p { bytes = started 4 hid 0 0 p.bytes } in
      let get =
        step_get hfn ig fuel (suc n) hid 0 4 l.l_len l.l_olen p top ht none none c 0 0 0 0 false
          full refl in
      let framed =
        IsStarted-IsFramed 4 hid 0 0 0 p'.bytes [] refl (start_packet-started 4 hid 0 0 p full).1
          refl in
      let (q, init, filling) =
        step_init hfn ig fuel (suc n) hid 0 behind ht 0 0 [] (omega arith) p' none c 0 0 0 framed in
      let z0 = pz hfn ig fuel (suc n) hid 0 behind ht 0 0 pz_init_packet p' none c 0 0 0 0 0 in
      let z1 = pz hfn ig fuel (suc n) hid 0 behind ht 0 0 pz_copydata q none c 0 0 0 0 0 in
      let z2 = pz hfn ig fuel (suc n) hid 0 behind ht 0 0 pz_end q none w'.at 0 0 0 0 0 in
      let next = step_nothing q behind c w'.at (next-end ig none c w') in
      let run =
        Runs-step hfn ig fuel (suc n) hid 0 pz_getpacket start z0 z2 3 (λ e. cc) get
          (Runs-step hfn ig fuel (suc n) hid 0 pz_init_packet z0 z1 z2 2 (λ e. cc) init
            (Runs-step hfn ig fuel (suc n) hid 0 pz_copydata z1 z2 z2 1 (λ e. cc) next
              (Runs-end hfn ig fuel (suc n) hid 0 z2)))
          fuel ample in
      let looped =
        ap
          (λ (top : List (HashObject SpeadPacket)).
            pz_loop hfn ig fuel (suc n) hid 0 fuel
              (fresh_packetizer (record l { l_top = top }) ht 4 c))
          has_packet
        ∙ run in
      ends-Unchanged c 0 4 z2 found measured looped refl
