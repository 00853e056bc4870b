-- ===== src/Sender/Sent.antt =====
-- src/spead.c: the loop of `packetize_item_group` from a packet that is opened to its end.
use native.Mathlib.Nat.{mul-suc}
use spead.Base.{
  ℕ, suc, ◌+◌, ◌-◌, ◌*◌, ◌%◌, ◌^◌, ◌≤◌, ◌<◌, ◌≡◌, refl, sym, ◌∙◌, false, ◌&&◌, some, Option, List,
  [], ◌∷◌, ◌++◌, ◌==◌, length, take, drop, arith, map, inl, inr, ◌⊎◌, Bool-cases, leb, leb→le,
  length-drop, length-take, length-set,
}
use spead.Packet.{SpeadPacket}
use spead.Packet.Unpack.{items_from, last_addr}
use spead.HashTable.{HashObject, ObjectBank, HashTable}
use spead.ItemGroup.{SpeadApiItem, SpeadItemGroup}
use spead.Sender.State.{pz_getpacket, pz_copydata, pz_init_packet, pz_hashpacket, Packetizer}
use spead.Sender.Frame.{IsFilling, base}
use spead.Sender.Start.{started, start_packet-started, IsStarted-IsFramed}
use spead.Sender.Close.{LeavesAlone}
use spead.Sender.Copy.{Runs, Runs-step}
use spead.Sender.Fill.{Stands, pz, Full}
use spead.Sender.Passes.{fill}
use spead.Sender.Rounds.{placed, table_of, waiting, step_get, step_init}
use spead.Sender.Cut.{AllSpare, IsHashed, bank, Sent, Sent-weaken, step_place, Sent-last}

no_pointers : LeavesAlone []
unfolding last_addr
no_pointers id low = refl

module _ (hfn : HashObject SpeadPacket → ℕ) (ig : SpeadItemGroup) (fuel pkt_size hid total olen : ℕ)
    (ht : HashTable SpeadPacket) (others : List (HashObject SpeadPacket)) (some_size : 0 < pkt_size)
    (hid_fits : hid < 2 ^ 40) (total_fits : total < 2 ^ 40) (small : ht.t_len ≤ 2 ^ 63)
    (hashed : IsHashed hfn total ht.t_len) where
  abbrev bank_at : ℕ → List SpeadPacket → ObjectBank SpeadPacket
  bank_at =
      bank hfn ig fuel pkt_size hid total olen ht others some_size hid_fits total_fits small hashed

  abbrev Done :
      Packetizer
      → List (List (HashObject SpeadPacket))
      → List SpeadPacket
      → ℕ
      → ℕ
      → List ℕ
      → List ℕ
      → ℕ
      → Type 0
  Done =
      Sent hfn ig fuel pkt_size hid total olen ht others some_size hid_fits total_fits small hashed

  -- The next packet is opened.
  open_next :
      (len : ℕ) (p : SpeadPacket) (free : List SpeadPacket) (table : HashTable SpeadPacket)
      (old : Option SpeadPacket) (itm : Option SpeadApiItem) (cursor at count ioff remain : ℕ)
      → length p.bytes ≡ 9200
      → 40 + pkt_size < 9200
      → (q : SpeadPacket) × ((n : ℕ) (r : Packetizer)
          → Runs hfn ig fuel pkt_size hid total
              (pz hfn ig fuel pkt_size hid total
                (bank_at ((len + 2 ^ 64 - 1) % 2 ^ 64) free)
                table
                0
                at
                pz_copydata
                q
                itm
                cursor
                count
                0
                ioff
                remain
                0)
              n
              r
          → Runs hfn ig fuel pkt_size hid total
              (waiting hfn ig fuel pkt_size hid total 4
                (bank_at len (p ∷ free))
                table
                old
                itm
                cursor
                at
                count
                ioff
                remain)
              (n + 2)
              r)
        × IsFilling q 0 hid total at [] []
  unfolding items_from
  open_next len p free table old itm cursor at count ioff remain full room =
      let len' = (len + 2 ^ 64 - 1) % 2 ^ 64 in
      let top = map (λ (p : SpeadPacket). some p) free ++ others in
      let p' = record p { bytes = started 4 hid total at p.bytes } in
      let s = start_packet-started 4 hid total at p full in
      let framed = IsStarted-IsFramed 4 hid total at 0 p'.bytes [] refl s.1 refl in
      let get =
        step_get hfn ig fuel pkt_size hid total 4 len olen p top table old itm cursor at count ioff
          remain false full refl in
      let (q, init, filling) =
        step_init hfn ig fuel pkt_size hid total (bank_at len' free) table 0 at [] (omega arith) p'
          itm cursor count ioff remain framed in
      let z =
        pz hfn ig fuel pkt_size hid total (bank_at len' free) table 0 at pz_copydata q itm cursor
          count 0 ioff remain 0 in
      let z' =
        pz hfn ig fuel pkt_size hid total (bank_at len' free) table 0 at pz_init_packet p' itm
          cursor count 0 ioff remain 0 in
      (
        q,
        (λ n r h rounds enough.
            Runs-step hfn ig fuel pkt_size hid total pz_getpacket
              (waiting hfn ig fuel pkt_size hid total 4 (bank_at len (p ∷ free)) table old itm
                cursor at count ioff remain)
              z' r (suc n) (λ e. cc) get
              (Runs-step hfn ig fuel pkt_size hid total pz_init_packet z' z r n (λ e. cc) init h)
              rounds (omega arith)),
        filling,
      )

  -- A packet that is full, and then the others.
  Sent-next :
      (p : SpeadPacket) (free : List SpeadPacket) (len m at : ℕ) (ws : List ℕ)
      (os : List (List (HashObject SpeadPacket))) (start : Packetizer) (left : List ℕ) (budget : ℕ)
      → base m + pkt_size < 9200
      → LeavesAlone ws
      → ht.t_len ≡ length os
      → length p.bytes ≡ 9200
      → (full : Full hfn ig fuel pkt_size hid total
          (bank_at len (p ∷ free))
          (table_of ht os)
          m
          at
          start
          budget
          ws
          (take pkt_size left)
          (drop pkt_size left))
      → pkt_size < length left
      → at + length left ≡ total
      → ((q : SpeadPacket) (os' : List (List (HashObject SpeadPacket)))
          → ht.t_len ≡ length os'
          → IsFilling q 0 hid total (at + pkt_size) [] []
          → Done
              (pz hfn ig fuel pkt_size hid total
                (bank_at ((len + 2 ^ 64 - 1) % 2 ^ 64) free)
                (table_of ht os')
                0
                (at + pkt_size)
                pz_copydata
                q
                full.itm
                full.cursor
                (length (drop pkt_size left))
                0
                full.ioff
                full.remain
                0)
              os'
              free
              0
              (at + pkt_size)
              []
              (drop pkt_size left)
              (4 * length free + length full.rest + 3))
      → Done start os (p ∷ free) m at ws left (4 * length free + budget + 6)
  Sent-next p free len m at ws os start left budget room alone sized size full more sum later =
      let left' = drop pkt_size left in
      let (q, run, conveys) =
        step_place hfn ig fuel pkt_size hid total olen ht others some_size hid_fits total_fits small
          hashed len m at ws os (p ∷ free) room alone sized full.packet full.itm full.cursor
          (length left') full.off full.ioff full.remain full.didcopy (take pkt_size left)
          full.filling full.measured (omega (arith, length-take pkt_size left)) (omega arith)
          (inr (omega arith)) in
      let going : ((length left' == 0) && (full.remain == 0)) ≡ false =
        ground (arith, length-drop pkt_size left) in
      let goes_on = rw going at run in
      let os' = placed hfn os q in
      let same : ht.t_len ≡ length os' = sized ∙ sym (length-set os (hfn (some q)) _) in
      let at_start = full.next_off (omega (arith, length-drop pkt_size left)) in
      let (q', open_it, filling) =
        open_next len p free (table_of ht os') (some q) full.itm full.cursor (at + pkt_size)
          (length left') full.ioff full.remain size (omega (arith, room)) in
      let rest = later q' os' same filling in
      let z =
        pz hfn ig fuel pkt_size hid total (bank_at len (p ∷ free)) (table_of ht os) m at
          pz_hashpacket full.packet full.itm full.cursor (length left') full.off full.ioff
          full.remain full.didcopy in
      let z' =
        waiting hfn ig fuel pkt_size hid total 4 (bank_at len (p ∷ free)) (table_of ht os') (some q)
          full.itm full.cursor (at + pkt_size) (length left') full.ioff full.remain in
      record {
        first = q;
        more = rest.first ∷ rest.more;
        final = rest.final;
        chunks = (conveys, more, rest.chunks);
        table = rest.table;
        spare = rest.spare;
        cost = full.cost + suc (rest.cost + 2);
        cheap = omega (arith, full.cheap, rest.cheap);
        runs = full.runs (suc (rest.cost + 2)) rest.final (
            Runs-step hfn ig fuel pkt_size hid total pz_hashpacket z z' rest.final (rest.cost + 2)
              (λ e. cc) (goes_on ∙ (λ j. some (record z' { off = at_start j })))
              (open_it rest.cost rest.final rest.runs));
      }

  -- From a packet that is opened on.
  pub rounds :
      (free : List SpeadPacket) (len m at : ℕ) (ws : List ℕ)
      (os : List (List (HashObject SpeadPacket))) (p : SpeadPacket) (itm : Option SpeadApiItem)
      (cursor ioff remain : ℕ) (rest : List SpeadApiItem) (left : List ℕ)
      → base m + pkt_size < 9200
      → LeavesAlone ws
      → ht.t_len ≡ length os
      → AllSpare free
      → IsFilling p m hid total at ws []
      → Stands ig itm cursor ioff remain rest left
      → 0 < length left + length rest
      → at + length left ≡ total
      → (total ≡ 0) ⊎ (at < total)
      → length left ≤ pkt_size * suc (length free)
      → Done
          (pz hfn ig fuel pkt_size hid total
            (bank_at len free)
            (table_of ht os)
            m
            at
            pz_copydata
            p
            itm
            cursor
            (length left)
            0
            ioff
            remain
            0)
          os
          free
          m
          at
          ws
          left
          (4 * length free + length rest + 3)
  rounds [] len m at ws os p itm cursor ioff remain rest left room alone sized spare f s more sum
        on_way enough =
      let start =
        pz hfn ig fuel pkt_size hid total (bank_at len []) (table_of ht os) m at pz_copydata p itm
          cursor (length left) 0 ioff remain 0 in
      let full =
        fill hfn ig fuel pkt_size hid total (bank_at len []) (table_of ht os) m at ws room p itm
          cursor ioff remain rest left f some_size s (omega (arith, sum)) more in
      Sent-weaken hfn ig fuel pkt_size hid total olen ht others some_size hid_fits total_fits small
        hashed start os [] m at ws left (suc (length rest) + 2) (4 * 0 + length rest + 3)
        (Sent-last hfn ig fuel pkt_size hid total olen ht others some_size hid_fits total_fits small
          hashed len m at ws os [] room alone sized start (suc (length rest)) left full
          (omega (arith, enough)) (omega arith) on_way)
        (omega arith)
  rounds (p' ∷ free) len m at ws os p itm cursor ioff remain rest left room alone sized spare f s
        more sum on_way enough =
      let start =
        pz hfn ig fuel pkt_size hid total (bank_at len (p' ∷ free)) (table_of ht os) m at
          pz_copydata p itm cursor (length left) 0 ioff remain 0 in
      let full =
        fill hfn ig fuel pkt_size hid total (bank_at len (p' ∷ free)) (table_of ht os) m at ws room
          p itm cursor ioff remain rest left f some_size s (omega (arith, sum)) more in
      let all = suc (length free) in
      elim (Bool-cases (leb (length left) pkt_size)) [
        | inl last ↦
            Sent-weaken hfn ig fuel pkt_size hid total olen ht others some_size hid_fits total_fits
              small hashed start os (p' ∷ free) m at ws left (suc (length rest) + 2)
              (4 * all + length rest + 3)
              (Sent-last hfn ig fuel pkt_size hid total olen ht others some_size hid_fits total_fits
                small hashed len m at ws os (p' ∷ free) room alone sized start (suc (length rest))
                left full (leb→le _ _ last) (omega arith) on_way)
              (omega arith)
        | inr longer ↦
            let more_left : pkt_size < length left = ground arith in
            let left' = drop pkt_size left in
            let less : length left' ≡ length left - pkt_size = length-drop pkt_size left in
            let each = mul-suc pkt_size all in
            Sent-weaken hfn ig fuel pkt_size hid total olen ht others some_size hid_fits total_fits
              small hashed start os (p' ∷ free) m at ws left
              (4 * length free + suc (length rest) + 6) (4 * all + length rest + 3)
              (Sent-next p' free len m at ws os start left (suc (length rest)) room alone sized
                spare.0 full more_left sum
                (λ q os' same filling.
                  rounds free ((len + 2 ^ 64 - 1) % 2 ^ 64) 0 (at + pkt_size) [] os' q full.itm
                    full.cursor full.ioff full.remain full.rest left' (omega (arith, room))
                    no_pointers same spare.1 filling full.stands (omega (arith, less))
                    (omega (arith, less)) (inr (omega arith)) (omega (arith, less, each))))
              (omega arith)
      ]
