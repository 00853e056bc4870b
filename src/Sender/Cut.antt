-- ===== src/Sender/Cut.antt =====
-- src/spead.c: the packets into which `packetize_item_group` cuts the data of a group.
use mathlib.Core.List.{append-nil}
use spead.SpeadHeap.Finalize.Extract.{chain_bytes, payload_bytes}
use spead.Base.{
  take-append-drop, ℕ, ◌+◌, ◌%◌, ◌^◌, ◌≤◌, ◌<◌, ◌≡◌, refl, ap, ◌∙◌, true, ◌&&◌, some, Option, List,
  [], ◌∷◌, ◌++◌, ◌==◌, if◌then◌else◌, length, take, drop, arith, map, inl, inr, ◌⊎◌, length-drop,
  length-take, length-append,
}
use spead.Base.Int.{pos}
use spead.Base.Slices.{take_all}
use spead.Packet.{SpeadPacket}
use spead.Packet.Word.{spead_item}
use spead.HashTable.{HashObject, ObjectBank, HashTable}
use spead.ItemGroup.{SpeadApiItem, SpeadItemGroup}
use spead.Sender.State.{PzState, pz_end, pz_getpacket, pz_hashpacket, Packetizer}
use spead.Sender.Loop.{hash_added, pz_switch}
use spead.Sender.Frame.{IsFilling, base}
use spead.Sender.Open.{all_data}
use spead.Sender.Close.{Conveys, LeavesAlone}
use spead.Sender.Copy.{Runs, Runs-step, Runs-end, len_word, piece}
use spead.Sender.Fill.{Stands, pz, Full}
use spead.Sender.Rounds.{placed, table_of, bank_of, add-placed, step_hash}

-- Packets that convey, one behind the other, `pkt_size` bytes each of the data `left`, and the last of
-- them the rest: the first has `m` pointers `ws`, the others have none.
abbrev pub Chunks : ℕ → ℕ → ℕ → ℕ → List ℕ → ℕ → List ℕ → List SpeadPacket → Type 0
Chunks pkt_size hid total m ws at left [] = ⊥
Chunks pkt_size hid total m ws at left (p ∷ []) =
    Conveys p m hid total at ws left × (length left ≤ pkt_size)
Chunks pkt_size hid total m ws at left (p ∷ q ∷ rest) =
    Conveys p m hid total at ws (take pkt_size left)
    × (pkt_size < length left)
    × Chunks pkt_size hid total 0 [] (at + pkt_size) (drop pkt_size left) (q ∷ rest)

-- Their payloads, joined, are that data.
pub Chunks-bytes :
    (pkt_size hid total m at : ℕ) (ws left : List ℕ) (packets : List SpeadPacket)
    → Chunks pkt_size hid total m ws at left packets
    → chain_bytes packets ≡ left
Chunks-bytes pkt_size hid total m at ws left [] c = elim c [ ]
Chunks-bytes pkt_size hid total m at ws left (p ∷ []) (c, last) =
    append-nil (payload_bytes p) ∙ c.carries
Chunks-bytes pkt_size hid total m at ws left (p ∷ q ∷ rest) (c, longer, more) =
    rw (c.carries) (
      ap (λ t. take pkt_size left ++ t)
        (Chunks-bytes pkt_size hid total 0 (at + pkt_size) [] (drop pkt_size left) (q ∷ rest) more))
    ∙ take-append-drop pkt_size left

-- The packets are put into the table's array in their order.
abbrev pub all_placed :
    (HashObject SpeadPacket → ℕ)
    → List (List (HashObject SpeadPacket))
    → List SpeadPacket
    → List (List (HashObject SpeadPacket))
all_placed hfn os [] = os
all_placed hfn os (p ∷ rest) = all_placed hfn (placed hfn os p) rest

-- Packets of the bank, with arrays of the source's size.
abbrev pub AllSpare : List SpeadPacket → Type 0
AllSpare [] = Unit
AllSpare (p ∷ rest) = (length p.bytes ≡ 9200) × AllSpare rest

-- The hash function stays inside the table for the packets of the heap.
abbrev pub IsHashed : (HashObject SpeadPacket → ℕ) → ℕ → ℕ → Type 0
IsHashed hfn total len =
    (p : SpeadPacket)
    → p.heap_len ≡ pos total
    → (total ≡ 0) ⊎ (p.payload_off < total)
    → hfn (some p) < len

-- With no data left, no item is under way.
Stands-ended :
    (ig : SpeadItemGroup) (itm : Option SpeadApiItem) (cursor ioff remain : ℕ)
    (rest : List SpeadApiItem) (left : List ℕ)
    → Stands ig itm cursor ioff remain rest left
    → length left ≡ 0
    → (remain == 0) ≡ true
Stands-ended ig itm cursor ioff remain rest left s ended = elim (s.under_way) [
  | inl (none_left, all_left) ↦ ground arith
  | inr u ↦ absurd (
      omega (
        arith,
        ended,
        ap length u.data_left,
        u.some_left,
        u.readable,
        length-append (piece u.item ioff remain) (all_data rest),
        length-take remain (drop ioff u.item.i_data),
        length-drop ioff u.item.i_data,
      ))
]

module _ (hfn : HashObject SpeadPacket → ℕ) (ig : SpeadItemGroup) (fuel pkt_size hid total olen : ℕ)
    (ht : HashTable SpeadPacket) (others : List (HashObject SpeadPacket)) (some_size : 0 < pkt_size)
    (hid_fits : hid < 2 ^ 40) (total_fits : total < 2 ^ 40) (small : ht.t_len ≤ 2 ^ 63)
    (hashed : IsHashed hfn total ht.t_len) where
  abbrev pub bank : ℕ → List SpeadPacket → ObjectBank SpeadPacket
  bank len free = bank_of len olen (map (λ (p : SpeadPacket). some p) free ++ others)

  -- From `start` the loop ends, and the data `left` has been put into the table in packets, the first of
  -- which is at hand and the others of which are the first of `free`.
  pub record Sent (start : Packetizer) (os : List (List (HashObject SpeadPacket)))
      (free : List SpeadPacket) (m at : ℕ) (ws left : List ℕ) (budget : ℕ) : Type 0 where
    pub first : SpeadPacket
    pub more : List SpeadPacket
    pub final : Packetizer
    pub chunks : Chunks pkt_size hid total m ws at left (first ∷ more)
    pub table : final.table ≡ table_of ht (all_placed hfn os (first ∷ more))
    pub spare :
        final.bank.l_top ≡ map (λ (p : SpeadPacket). some p) (drop (length more) free) ++ others
    pub cost : ℕ
    pub cheap : cost ≤ budget
    pub runs : Runs hfn ig fuel pkt_size hid total start cost final

  pub Sent-weaken :
      (start : Packetizer) (os : List (List (HashObject SpeadPacket))) (free : List SpeadPacket)
      (m at : ℕ) (ws left : List ℕ) (budget more : ℕ)
      → Sent start os free m at ws left budget
      → budget ≤ more
      → Sent start os free m at ws left more
  Sent-weaken start os free m at ws left budget more s h = record {
    first = s.first;
    more = s.more;
    final = s.final;
    chunks = s.chunks;
    table = s.table;
    spare = s.spare;
    cost = s.cost;
    cheap = omega (arith, s.cheap);
    runs = s.runs;
  }

  module _ (len m at : ℕ) (ws : List ℕ) (os : List (List (HashObject SpeadPacket)))
      (free : List SpeadPacket) (room : base m + pkt_size < 9200) (alone : LeavesAlone ws)
      (sized : ht.t_len ≡ length os) where
    abbrev var : PzState → SpeadPacket → Option SpeadApiItem → ℕ → ℕ → ℕ → ℕ → ℕ → ℕ → Packetizer
    var = pz hfn ig fuel pkt_size hid total (bank len free) (table_of ht os) m at

    -- `PZ_HASHPACKET` puts the packet into the table, and the loop ends or goes on.
    pub step_place :
        (p : SpeadPacket) (itm : Option SpeadApiItem) (cursor count off ioff remain did : ℕ)
        (payload : List ℕ)
        → IsFilling p m hid total at ws payload
        → spead_item p.bytes 4 ≡ some (len_word (length payload))
        → length payload ≤ pkt_size
        → at ≤ total
        → (total ≡ 0) ⊎ (at < total)
        → (q : SpeadPacket) × (pz_switch hfn ig fuel pkt_size hid total pz_hashpacket
              (some p)
              (var pz_hashpacket p itm cursor count off ioff remain did)
            ≡ (if (count == 0) && (remain == 0)
                then some (record (var pz_end q itm cursor count off ioff remain did) {
                  table = table_of ht (placed hfn os q);
                })
                else some (record (var pz_getpacket q itm cursor count off ioff remain 0) {
                  table = table_of ht (placed hfn os q);
                  payload_off = at + pkt_size;
                })))
          × Conveys q m hid total at ws payload
    unfolding hash_added
    step_place p itm cursor count off ioff remain did payload f word short inside on_way =
        let z = var pz_hashpacket p itm cursor count off ioff remain did in
        let (q, run, conveys) =
          step_hash hfn ig fuel pkt_size hid total (bank len free) (table_of ht os) m at ws room p
            payload z f word short alone hid_fits total_fits (omega arith) in
        let there =
          add-placed hfn ht os q sized small
            (hashed q conveys.heap_len (rw (conveys.payload_off) on_way)) in
        let next : (at + pkt_size) % 2 ^ 64 ≡ at + pkt_size = omega arith in
        (q, run ∙ rw (there, hash_added, next) refl, conveys)

    -- The packet that is at hand, filled.
    abbrev Filled : Packetizer → ℕ → List ℕ → Type 0
    Filled start budget left =
        Full hfn ig fuel pkt_size hid total (bank len free) (table_of ht os) m at start budget ws
          (take pkt_size left) (drop pkt_size left)

    -- It is the last one.
    pub Sent-last :
        (start : Packetizer) (budget : ℕ) (left : List ℕ)
        → Filled start budget left
        → length left ≤ pkt_size
        → at ≤ total
        → (total ≡ 0) ⊎ (at < total)
        → Sent start os free m at ws left (budget + 2)
    Sent-last start budget left full last inside on_way =
        let did = full.didcopy in
        let (q, run, conveys) =
          step_place full.packet full.itm full.cursor (length (drop pkt_size left)) full.off
            full.ioff full.remain did (take pkt_size left) full.filling full.measured
            (omega (arith, length-take pkt_size left)) inside on_way in
        let none_left : (length (drop pkt_size left) == 0) ≡ true =
          ground (arith, length-drop pkt_size left) in
        let none_under_way =
          Stands-ended ig full.itm full.cursor full.ioff full.remain full.rest (drop pkt_size left)
            full.stands (ground arith) in
        let ends = rw (none_left, none_under_way) at run in
        let final =
          record (var pz_end q full.itm full.cursor (length (drop pkt_size left)) full.off full.ioff
            full.remain did) { table = table_of ht (placed hfn os q) } in
        record {
          first = q;
          more = [];
          final = final;
          chunks = (rw (take_all left pkt_size last) at conveys, last);
          table = refl;
          spare = refl;
          cost = full.cost + 2;
          cheap = omega (arith, full.cheap);
          runs = full.runs 2 final (
              Runs-step hfn ig fuel pkt_size hid total pz_hashpacket
                (var pz_hashpacket full.packet full.itm full.cursor (length (drop pkt_size left))
                  full.off full.ioff full.remain did)
                final final 1 (λ e. cc) ends (Runs-end hfn ig fuel pkt_size hid total final));
        }
