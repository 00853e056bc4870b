-- ===== src/Sender/Rounds.antt =====
-- src/spead.c: the passes of `packetize_item_group` around `PZ_COPYDATA`: a packet is taken from the bank,
-- unpacked, and once it is filled put into the table.
use spead.Base.{
  ℕ, zero, suc, ◌+◌, ◌-◌, ◌*◌, ◌%◌, ◌^◌, ◌≤◌, ◌<◌, ◌≡◌, refl, Bool, false, ◌&&◌, ◌||◌, some, Option,
  List, [], ◌∷◌, ◌++◌, ◌==◌, ltb, leb, if◌then◌else◌, length, set, get_elem?, get_or, arith,
}
use spead.Base.Int.{pos}
use spead.Packet.{SpeadPacket}
use spead.Packet.Word.{spead_item}
use spead.Packet.Unpack.{spead_item-total}
use spead.HashTable.{HashObject, ObjectBank, HashTable, pop_hash_o, pop_top, store_at, add_o_ht}
use spead.ItemGroup.{SpeadApiItem, SpeadItemGroup}
use spead.Sender.State.{
  PzState, pz_getpacket, pz_copydata, pz_addig_items, pz_init_packet, pz_hashpacket, Packetizer,
  open_packet,
}
use spead.Sender.Loop.{
  init_packet, init_unpacked, hash_packet, hash_unpacked, hash_added, pz_switch,
}
use spead.Sender.Frame.{IsFramed, IsFilling, base}
use spead.Sender.Start.{start_packet-started, started}
use spead.Sender.Close.{
  Conveys, LeavesAlone, header-accepted, items-IsUnpacked, unpacked-IsFilling, unpacked-Conveys,
}
use spead.Sender.Copy.{len_word}
use spead.Sender.Fill.{pz}

-- A table's array with a packet more, at the place that its hash function gives.
abbrev pub placed :
    (HashObject SpeadPacket → ℕ)
    → List (List (HashObject SpeadPacket))
    → SpeadPacket
    → List (List (HashObject SpeadPacket))
placed hfn os p = set os (hfn (some p)) (get_or os (hfn (some p)) [] ++ some p ∷ [])

abbrev pub table_of :
    HashTable SpeadPacket → List (List (HashObject SpeadPacket)) → HashTable SpeadPacket
table_of ht os = record ht { t_os = some os }

abbrev pub bank_of : ℕ → ℕ → List (HashObject SpeadPacket) → ObjectBank SpeadPacket
bank_of len olen top = record { l_len = len; l_olen = olen; l_top = top }

get_elem?-get_or {ℓ} :
    {A : Type ℓ} (xs : List A) (i : ℕ) (d : A)
    → i < length xs
    → get_elem? xs i ≡ some (get_or xs i d)
get_elem?-get_or [] i d h = absurd (omega arith)
get_elem?-get_or (x ∷ xs) zero d h = refl
get_elem?-get_or (x ∷ xs) (suc i) d h = get_elem?-get_or xs i d (omega arith)

pub add-placed :
    (hfn : HashObject SpeadPacket → ℕ) (ht : HashTable SpeadPacket)
    (os : List (List (HashObject SpeadPacket))) (p : SpeadPacket)
    → ht.t_len ≡ length os
    → ht.t_len ≤ 2 ^ 63
    → hfn (some p) < ht.t_len
    → add_o_ht hfn (table_of ht os) (some p) ≡ some (pos 0, table_of ht (placed hfn os p))
unfolding add_o_ht store_at
add-placed hfn ht os p sized small inside =
    let fits : (leb (2 ^ 63) (hfn (some p)) || leb ht.t_len (hfn (some p))) ≡ false =
      ground arith in
    rw (fits, get_elem?-get_or os (hfn (some p)) [] (omega (arith, sized))) refl

module _ (hfn : HashObject SpeadPacket → ℕ) (ig : SpeadItemGroup)
    (fuel pkt_size hid heap_len : ℕ) where
  -- The variables in front of `PZ_GETPACKET`.
  abbrev pub waiting :
      ℕ
      → ObjectBank SpeadPacket
      → HashTable SpeadPacket
      → Option SpeadPacket
      → Option SpeadApiItem
      → ℕ
      → ℕ
      → ℕ
      → ℕ
      → ℕ
      → Packetizer
  waiting nitems bank ht packet itm cursor at count ioff remain = record {
    state = pz_getpacket;
    bank = bank;
    table = ht;
    packet = packet;
    itm = itm;
    cursor = cursor;
    payload_off = at;
    count = count;
    off = 0;
    ioff = ioff;
    remain = remain;
    didcopy = 0;
    nitems = nitems;
  }

  pub step_get :
      (nitems len olen : ℕ) (p : SpeadPacket) (top : List (HashObject SpeadPacket))
      (ht : HashTable SpeadPacket) (packet : Option SpeadPacket) (itm : Option SpeadApiItem)
      (cursor at count ioff remain : ℕ) (first : Bool)
      → length p.bytes ≡ 9200
      → (ltb 4 nitems && (count == 0)) ≡ first
      → pz_switch hfn ig fuel pkt_size hid heap_len pz_getpacket packet (
          waiting nitems
            (bank_of len olen (some p ∷ top))
            ht
            packet
            itm
            cursor
            at
            count
            ioff
            remain)
        ≡ some
            (record (waiting nitems
              (bank_of ((len + 2 ^ 64 - 1) % 2 ^ 64) olen top)
              ht
              packet
              itm
              cursor
              at
              count
              ioff
              remain) {
                state = if first then pz_addig_items else pz_init_packet;
                packet = some (record p { bytes = started nitems hid heap_len at p.bytes });
              })
  unfolding pz_switch open_packet pop_hash_o pop_top
  step_get nitems len olen p top ht packet itm cursor at count ioff remain first full test =
      rw ((start_packet-started nitems hid heap_len at p full).0, open_packet, test) refl

  module _ (bank : ObjectBank SpeadPacket) (ht : HashTable SpeadPacket) (m at : ℕ) (ws : List ℕ)
      (room : base m + pkt_size < 9200) where
    abbrev var : PzState → SpeadPacket → Option SpeadApiItem → ℕ → ℕ → ℕ → ℕ → ℕ → ℕ → Packetizer
    var = pz hfn ig fuel pkt_size hid heap_len bank ht m at

    -- `PZ_INIT_PACKET` on a framed packet.
    pub step_init :
        (p : SpeadPacket) (itm : Option SpeadApiItem) (cursor count ioff remain : ℕ)
        → IsFramed p.bytes m hid heap_len at ws
        → (q : SpeadPacket) × (pz_switch hfn ig fuel pkt_size hid heap_len pz_init_packet
              (some p)
              (var pz_init_packet p itm cursor count 0 ioff remain 0)
            ≡ some (var pz_copydata q itm cursor count 0 ioff remain 0))
          × IsFilling q m hid heap_len at ws []
    unfolding pz_switch init_packet init_unpacked
    step_init p itm cursor count ioff remain f =
        let few : m < 1145 = omega (arith, room) in
        let (word, there) = spead_item-total p.bytes 4 (omega (arith, f.sized)) in
        let (q, run, u) = items-IsUnpacked p m hid heap_len at ws f few word there in
        let fits : leb 9200 (8 + q.n_items * 8 + pkt_size) ≡ false =
          ground (arith, u.n_items, room) in
        (
          q,
          rw (header-accepted p m hid heap_len at ws f few, init_packet, run, fits) refl,
          unpacked-IsFilling p m hid heap_len at ws f few q word u,
        )

    -- `PZ_HASHPACKET` up to `add_o_ht`.
    pub step_hash :
        (p : SpeadPacket) (payload : List ℕ) (z : Packetizer)
        → IsFilling p m hid heap_len at ws payload
        → spead_item p.bytes 4 ≡ some (len_word (length payload))
        → length payload ≤ pkt_size
        → LeavesAlone ws
        → hid < 2 ^ 40
        → heap_len < 2 ^ 40
        → at < 2 ^ 40
        → (q : SpeadPacket) × (pz_switch hfn ig fuel pkt_size hid heap_len pz_hashpacket (some p) z
            ≡ hash_added pkt_size z q (add_o_ht hfn z.table (some q)))
          × Conveys q m hid heap_len at ws payload
    unfolding pz_switch hash_packet hash_unpacked
    step_hash p payload z f there short alone hid_fits len_fits off_fits =
        let few : m < 1145 = omega (arith, room) in
        let (q, run, u) =
          items-IsUnpacked p m hid heap_len at ws f.framed few (len_word (length payload)) there in
        (
          q,
          rw (header-accepted p m hid heap_len at ws f.framed few, hash_packet, run) refl,
          unpacked-Conveys p q m hid heap_len at ws payload f there alone hid_fits len_fits off_fits
              (omega arith) u,
        )
