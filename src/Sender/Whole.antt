-- ===== src/Sender/Whole.antt =====
-- src/spead.c: `packetize_item_group` as a whole.
use spead.Base.{
  ℕ, zero, suc, ◌+◌, ◌-◌, ◌*◌, ◌%◌, ◌^◌, ◌≤◌, ◌<◌, ◌≡◌, refl, sym, ◌∙◌, true, ◌&&◌, some, none,
  List, ◌∷◌, ◌++◌, ◌==◌, ltb, length, arith, map, inl, inr, ◌⊎◌,
}
use spead.Packet.{SpeadPacket}
use spead.HashTable.{HashObject, ObjectBank, HashTable}
use spead.ItemGroup.{SpeadItemGroup}
use spead.ItemGroup.Cut.{IsGroup}
use spead.ItemGroup.Find.{IsReadable}
use spead.ItemGroup.Walk.{start-Walks}
use spead.Sender.State.{
  PzState, pz_getpacket, pz_copydata, pz_addig_items, pz_init_packet, Packetizer, add_items,
}
use spead.Sender.Loop.{pz_switch}
use spead.Sender.Frame.{base}
use spead.Sender.Open.{
  all_data, data_total, AllHeld, length-all_data, pointers, pointed, add_pointers-pointed,
}
use spead.Sender.Start.{started, start_packet-started, pointed-IsFramed}
use spead.Sender.Close.{AllOrdinary, LeavesAlone, last_addr-pointers}
use spead.Sender.Copy.{Runs, Runs-step}
use spead.Sender.Fill.{Stands, pz}
use spead.Sender.Rounds.{table_of, bank_of, waiting, step_get, step_init}
use spead.Sender.Cut.{AllSpare, IsHashed, Sent}
use spead.Sender.Sent.{rounds}

-- A group whose items can be sent, in packets of `pkt_size` bytes.
pub record IsSendable (ig : SpeadItemGroup) (pkt_size : ℕ) : Type 0 where
  pub group : IsGroup ig
  pub readable : IsReadable ig
  pub some_item : 0 < length ig.g_map
  pub held : AllHeld ig.g_map
  pub ordinary : AllOrdinary ig.g_map
  pub few_bytes : data_total ig.g_map < 2 ^ 40
  pub some_size : 0 < pkt_size
  pub fits : base (length ig.g_map) + pkt_size < 9200

-- A table that takes the packets of a heap with `total` bytes.
pub record IsTable (hfn : HashObject SpeadPacket → ℕ) (ht : HashTable SpeadPacket)
    (os : List (List (HashObject SpeadPacket))) (total : ℕ) : Type 0 where
  pub there : ht.t_os ≡ some os
  pub sized : ht.t_len ≡ length os
  pub small : ht.t_len ≤ 2 ^ 63
  pub hashed : IsHashed hfn total ht.t_len

-- A bank with packets to spare, enough of them for `total` bytes.
pub record HasSpare (l : ObjectBank SpeadPacket) (free : List SpeadPacket)
    (others : List (HashObject SpeadPacket)) (pkt_size total : ℕ) : Type 0 where
  pub top : l.l_top ≡ map (λ (p : SpeadPacket). some p) free ++ others
  pub spare : AllSpare free
  pub some_packet : 0 < length free
  pub enough : total ≤ pkt_size * length free

zero_or_more : (n : ℕ) → (n ≡ 0) ⊎ (0 < n)
zero_or_more zero = inl refl
zero_or_more (suc n) = inr (omega arith)

module _ (hfn : HashObject SpeadPacket → ℕ) (ig : SpeadItemGroup) (fuel pkt_size hid len olen : ℕ)
    (ht : HashTable SpeadPacket) (os : List (List (HashObject SpeadPacket))) (p : SpeadPacket)
    (free : List SpeadPacket) (others : List (HashObject SpeadPacket)) (is : IsSendable ig pkt_size)
    (hid_fits : hid < 2 ^ 40) (t : IsTable hfn ht os (data_total ig.g_map))
    (spare : AllSpare (p ∷ free)) (enough : data_total ig.g_map ≤ pkt_size * suc (length free))
    (ample : length ig.g_map < fuel) where
  abbrev total : ℕ
  total = data_total ig.g_map

  abbrev m : ℕ
  m = length ig.g_map

  abbrev bank_at : ℕ → List SpeadPacket → ObjectBank SpeadPacket
  bank_at n ps = bank_of n olen (map (λ (p : SpeadPacket). some p) ps ++ others)

  abbrev behind : ℕ
  behind = (len + 2 ^ 64 - 1) % 2 ^ 64

  -- The first packet with its words, and then with its pointers.
  abbrev opened : SpeadPacket
  opened = record p { bytes = started (4 + m) hid total 0 p.bytes }

  abbrev with_pointers : SpeadPacket
  with_pointers = record p { bytes = pointed ig.g_map 5 0 opened.bytes }

  -- The variables behind `PZ_GETPACKET`.
  abbrev adding : ℕ → Packetizer
  adding cursor =
      record (waiting hfn ig fuel pkt_size hid total (4 + m) (bank_at behind free) (table_of ht os)
        none none cursor 0 0 0 0) { state = pz_addig_items; packet = some opened }

  abbrev var : PzState → SpeadPacket → ℕ → ℕ → Packetizer
  var st q cursor count =
      pz hfn ig fuel pkt_size hid total (bank_at behind free) (table_of ht os) m 0 st q none cursor
        count 0 0 0 0

  step_add :
      (cursor : ℕ)
      → (c : ℕ) × (pz_switch hfn ig fuel pkt_size hid total pz_addig_items
            (some opened)
            (adding cursor)
          ≡ some (var pz_init_packet with_pointers c total))
  unfolding pz_switch add_items
  step_add cursor =
      let s = start_packet-started (4 + m) hid total 0 p spare.0 in
      let (c, run) =
        add_pointers-pointed ig fuel none cursor opened 5 0 ig.g_map
          (start-Walks ig cursor is.group is.readable) ample (omega (arith, is.few_bytes))
          (omega (arith, is.fits, s.1.sized)) in
      let sum : 0 + total ≡ total = omega arith in (c, rw (run, add_items, sum) refl)

  alone : (at : ℕ) → LeavesAlone (pointers ig.g_map at)
  alone at id low = last_addr-pointers id ig.g_map at low is.ordinary

  -- The two passes behind the first.
  three :
      (n : ℕ) (r : Packetizer) (c : ℕ) (q : SpeadPacket) (cursor size : ℕ)
      → pz_switch hfn ig fuel pkt_size hid total pz_addig_items (some opened) (adding cursor)
        ≡ some (var pz_init_packet with_pointers c total)
      → pz_switch hfn ig fuel pkt_size hid total pz_init_packet
          (some with_pointers)
          (var pz_init_packet with_pointers c total)
        ≡ some (var pz_copydata q c total)
      → total ≡ size
      → Runs hfn ig fuel pkt_size hid total (var pz_copydata q c size) n r
      → Runs hfn ig fuel pkt_size hid total (adding cursor) (n + 2) r
  three n r c q cursor size add init same runs rounds enough =
      Runs-step hfn ig fuel pkt_size hid total pz_addig_items (adding cursor)
        (var pz_init_packet with_pointers c total) r (suc n) (λ e. cc) add
        (Runs-step hfn ig fuel pkt_size hid total pz_init_packet
          (var pz_init_packet with_pointers c total) (var pz_copydata q c size) r n (λ e. cc)
          (init ∙ (λ j. some (var pz_copydata q c (same j)))) runs)
        rounds (omega arith)

  -- From the start of the loop to its end.
  pub loop_runs :
      (cursor : ℕ)
      → Sent hfn ig fuel pkt_size hid total olen ht others is.some_size hid_fits is.few_bytes
          t.small t.hashed
          (waiting hfn ig fuel pkt_size hid total
            (4 + m)
            (bank_at len (p ∷ free))
            (table_of ht os)
            none
            none
            cursor
            0
            0
            0
            0)
          os
          free
          m
          0
          (pointers ig.g_map 0)
          (all_data ig.g_map)
          (4 * length free + m + 6)
  loop_runs cursor =
      let s = start_packet-started (4 + m) hid total 0 p spare.0 in
      let room : base m + pkt_size < 9200 = is.fits in
      let framed =
        pointed-IsFramed (4 + m) hid total 0 ig.g_map opened.bytes (omega arith) s.1
          (omega arith) in
      let first : (ltb 4 (4 + m) && (0 == 0)) ≡ true = ground (arith, is.some_item) in
      let top = map (λ (p : SpeadPacket). some p) free ++ others in
      let get =
        step_get hfn ig fuel pkt_size hid total (4 + m) len olen p top (table_of ht os) none none
          cursor 0 0 0 0 true spare.0 first in
      let (c, add) = step_add cursor in
      let (q, init, filling) =
        step_init hfn ig fuel pkt_size hid total (bank_at behind free) (table_of ht os) m 0
          (pointers ig.g_map 0) room with_pointers none c total 0 0 framed in
      let stands : Stands ig none c 0 0 ig.g_map (all_data ig.g_map) = record {
        walk = start-Walks ig c is.group is.readable;
        all_held = is.held;
        under_way = inl (refl, refl);
      } in
      let size = length-all_data ig.g_map is.held in
      let some_room = is.some_item in
      let sent =
        rounds hfn ig fuel pkt_size hid total olen ht others is.some_size hid_fits is.few_bytes
          t.small t.hashed free behind m 0 (pointers ig.g_map 0) os q none c 0 0 ig.g_map
          (all_data ig.g_map) room (alone 0) t.sized spare.1 filling stands (omega arith)
          (omega (arith, size)) (zero_or_more total) (omega (arith, size, enough)) in
      let z = var pz_copydata q c (length (all_data ig.g_map)) in
      let z' = var pz_init_packet with_pointers c total in
      let start =
        waiting hfn ig fuel pkt_size hid total (4 + m) (bank_at len (p ∷ free)) (table_of ht os)
          none none cursor 0 0 0 0 in
      record {
        first = sent.first;
        more = sent.more;
        final = sent.final;
        chunks = sent.chunks;
        table = sent.table;
        spare = sent.spare;
        cost = sent.cost + 3;
        cheap = omega (arith, sent.cheap);
        runs = λ rounds enough.
            Runs-step hfn ig fuel pkt_size hid total pz_getpacket start (adding cursor) sent.final
              (sent.cost + 2) (λ e. cc) get
              (three sent.cost sent.final c q cursor (length (all_data ig.g_map)) add init
                (sym size) sent.runs)
              rounds (omega arith);
      }
