-- ===== src/Sender/Loop.antt =====
-- src/spead.c, `packetize_item_group`: the cases of its `switch` that unpack and fill a packet, its `while`,
-- and the function around it.
use spead.Base.{
  ℕ, zero, suc, ◌+◌, ◌-◌, ◌*◌, ◌%◌, ◌^◌, ◌&&◌, Option, none, some, ◌==◌, ltb, leb, if◌then◌else◌,
}
use spead.Base.Int.{ℤ, pos, negsuc, is_neg, ◌==ℤ◌}
use spead.Packet.{
  SpeadPacket, spead_err, payload_len_id, spead_packet_unpack_header, spead_packet_unpack_items,
}
use spead.Packet.Word.{spead_headerlen, spead_itemlen, spead_max_packet_len, item_build}
use spead.HashTable.{HashObject, ObjectBank, HashTable, pop_hash_o, add_o_ht}
use spead.ItemGroup.{SpeadApiItem, SpeadItemGroup, get_next_spead_item}
use spead.Receiver.Store.{Server, get_ht_hs, put_table}
use spead.Sender.State.{
  Packetizer, PzState, add_items, copy_payload, immediateaddr, measure_items, open_packet,
  pz_addig_items, pz_copydata, pz_end, pz_getpacket, pz_hashpacket, pz_init_packet, then_put,
}

-- `PZ_INIT_PACKET` behind `spead_packet_unpack_items`.
unfoldable pub init_unpacked : ℕ → Packetizer → Option (ℤ × SpeadPacket) → Option Packetizer
init_unpacked pkt_size z none = none
init_unpacked pkt_size z (some (r, p)) = some (record z {
  state =
      if r ==ℤ spead_err
      then pz_end
      else if leb spead_max_packet_len (spead_headerlen + p.n_items * spead_itemlen + pkt_size)
      then pz_end
      else pz_copydata;
  packet = some p;
})

-- `PZ_INIT_PACKET`, with what `spead_packet_unpack_header` gives.
unfoldable pub init_packet : ℕ → Packetizer → Option (ℤ × SpeadPacket) → Option Packetizer
unfolding init_unpacked
init_packet pkt_size z none = none
init_packet pkt_size z (some (r, p)) =
    if r ==ℤ spead_err
    then some (record z { state = pz_end; packet = some p })
    else init_unpacked pkt_size z (spead_packet_unpack_items p)

-- `pkt_size - off` and the like.
abbrev pub minus : ℕ → ℕ → ℕ
minus a b = (a + 2 ^ 64 - b) % 2 ^ 64

-- `PZ_COPYDATA` where the rest of the item fits and the packet is not full.
unfoldable pub copy_rest : SpeadPacket → SpeadApiItem → ℕ → ℕ → ℕ → Packetizer → Option Packetizer
copy_rest p x off ioff remain z =
    elim (then_put
      (then_put (copy_payload p off x.i_data ioff remain) 4
        (item_build immediateaddr payload_len_id (off + remain)))
      4 (item_build immediateaddr payload_len_id ((z.didcopy + remain) % 2 ^ 64))) [
        | none ↦ none
        | some p' ↦ some (record z {
          state = if ltb 0 (minus z.count remain) then pz_copydata else pz_hashpacket;
          packet = some p';
          count = minus z.count remain;
          off = (off + remain) % 2 ^ 64;
          ioff = (ioff + remain) % 2 ^ 64;
          remain = 0;
          didcopy = (z.didcopy + remain) % 2 ^ 64;
        })
      ]

-- `PZ_COPYDATA` where the item fills the packet, `cancopy` being what is copied.
unfoldable pub copy_full :
    ℕ → SpeadPacket → SpeadApiItem → ℕ → ℕ → ℕ → ℕ → Packetizer → Option Packetizer
copy_full pkt_size p x off ioff remain cancopy z =
    elim (then_put (copy_payload p off x.i_data ioff cancopy) 4
      (item_build immediateaddr payload_len_id ((z.didcopy + cancopy) % 2 ^ 64))) [
        | none ↦ none
        | some p' ↦ some (record z {
          state = pz_hashpacket;
          packet = some p';
          count = minus z.count cancopy;
          off = 0;
          ioff = (ioff + cancopy) % 2 ^ 64;
          remain = if ltb remain (minus pkt_size off) then 0 else minus remain (minus pkt_size off);
          didcopy = (z.didcopy + cancopy) % 2 ^ 64;
        })
      ]

-- `PZ_COPYDATA` once it has an item.
unfoldable pub copy_item :
    ℕ → SpeadPacket → SpeadApiItem → ℕ → ℕ → ℕ → Packetizer → Option Packetizer
unfolding copy_rest copy_full
copy_item pkt_size p x off ioff remain z =
    if ltb ((off + remain) % 2 ^ 64) pkt_size
    then copy_rest p x off ioff remain z
    else copy_full pkt_size p x off ioff remain
        (if ltb remain (minus pkt_size off) then remain else minus pkt_size off) z

-- `PZ_COPYDATA` where no item is under way, with what `get_next_spead_item` gives.
unfoldable pub copy_next :
    ℕ → SpeadPacket → Packetizer → Option (Option SpeadApiItem) × ℕ → Option Packetizer
unfolding copy_item
copy_next pkt_size p z (none, cursor) = none
copy_next pkt_size p z (some none, cursor) =
    some (record z { state = pz_end; itm = none; cursor = cursor })
copy_next pkt_size p z (some (some x), cursor) =
    copy_item pkt_size p x z.off 0 x.i_data_len (record z { itm = some x; cursor = cursor })

-- `PZ_COPYDATA` where an item is under way.
unfoldable pub copy_on : ℕ → SpeadPacket → Packetizer → Option SpeadApiItem → Option Packetizer
unfolding copy_item
copy_on pkt_size p z none = none
copy_on pkt_size p z (some x) = copy_item pkt_size p x 0 z.ioff z.remain z

-- `PZ_COPYDATA`
unfoldable pub copy_data : ℕ → SpeadItemGroup → SpeadPacket → Packetizer → Option Packetizer
unfolding copy_next copy_on
copy_data pkt_size ig p z =
    if z.remain == 0
    then copy_next pkt_size p z (get_next_spead_item ig z.itm z.cursor)
    else copy_on pkt_size p z z.itm

-- `PZ_HASHPACKET` behind `add_o_ht`.
unfoldable pub hash_added :
    ℕ → Packetizer → SpeadPacket → Option (ℤ × HashTable SpeadPacket) → Option Packetizer
hash_added pkt_size z p none = none
hash_added pkt_size z p (some (r, ht)) =
    if is_neg r
    then some (record z { state = pz_end; table = ht; packet = some p })
    else if (z.count == 0) && (z.remain == 0)
    then some (record z { state = pz_end; table = ht; packet = some p })
    else some (record z {
      state = pz_getpacket;
      table = ht;
      packet = some p;
      payload_off = (z.payload_off + pkt_size) % 2 ^ 64;
      didcopy = 0;
    })

-- `PZ_HASHPACKET` behind `spead_packet_unpack_items`.
unfoldable pub hash_unpacked :
    (HashObject SpeadPacket → ℕ) → ℕ → Packetizer → Option (ℤ × SpeadPacket) → Option Packetizer
unfolding hash_added
hash_unpacked hfn pkt_size z none = none
hash_unpacked hfn pkt_size z (some (r, p)) =
    if r ==ℤ spead_err
    then some (record z { state = pz_end; packet = some p })
    else hash_added pkt_size z p (add_o_ht hfn z.table (some p))

-- `PZ_HASHPACKET`, with what `spead_packet_unpack_header` gives.
unfoldable pub hash_packet :
    (HashObject SpeadPacket → ℕ) → ℕ → Packetizer → Option (ℤ × SpeadPacket) → Option Packetizer
unfolding hash_unpacked
hash_packet hfn pkt_size z none = none
hash_packet hfn pkt_size z (some (r, p)) =
    if is_neg r
    then some (record z { state = pz_end; packet = some p })
    else hash_unpacked hfn pkt_size z (spead_packet_unpack_items p)

module _ (hfn : HashObject SpeadPacket → ℕ) (ig : SpeadItemGroup)
    (fuel pkt_size hid heap_len : ℕ) where
  -- The `switch`.
  unfoldable pub pz_switch : PzState → Option SpeadPacket → Packetizer → Option Packetizer
  unfolding open_packet add_items init_packet copy_data hash_packet
  pz_switch pz_end p z = some z
  pz_switch pz_getpacket p z = open_packet hid heap_len z (pop_hash_o z.bank)
  pz_switch pz_addig_items none z = none
  pz_switch pz_addig_items (some p) z = add_items fuel ig p z
  pz_switch pz_init_packet none z = none
  pz_switch pz_init_packet (some p) z = init_packet pkt_size z (spead_packet_unpack_header p)
  pz_switch pz_copydata none z = none
  pz_switch pz_copydata (some p) z = copy_data pkt_size ig p z
  pz_switch pz_hashpacket none z = none
  pz_switch pz_hashpacket (some p) z = hash_packet hfn pkt_size z (spead_packet_unpack_header p)

  -- `while (state)`, on fuel.
  unfoldable pub pz_loop : ℕ → Packetizer → Option Packetizer
  unfolding pz_switch
  pz_loop zero z = none
  pz_loop (suc rounds) z = elim (z.state) [
    | pz_end ↦ some z
    | _ ↦ elim (pz_switch z.state z.packet z) [ none ↦ none | some z' ↦ pz_loop rounds z' ]
  ]

-- The variables at the start of the loop.
abbrev pub fresh_packetizer : ObjectBank SpeadPacket → HashTable SpeadPacket → ℕ → ℕ → Packetizer
fresh_packetizer bank ht nitems cursor = record {
  state = pz_getpacket;
  bank = bank;
  table = ht;
  packet = none;
  itm = none;
  cursor = cursor;
  payload_off = 0;
  count = 0;
  off = 0;
  ioff = 0;
  remain = 0;
  didcopy = 0;
  nitems = nitems;
}

-- A `uint64_t` as an `int64_t`.
abbrev pub to_i64 : ℕ → ℤ
to_i64 n = if ltb n (2 ^ 63) then pos n else negsuc (2 ^ 64 - 1 - n)

abbrev pub put_bank : Server → ObjectBank SpeadPacket → Server
put_bank s l = record s { s_hs = record s.s_hs { s_list = l } }

-- The loop of `packetize_item_group` and its `return`: the table is the store's `i`-th.
unfoldable pub packetize_table :
    (HashObject SpeadPacket → ℕ)
    → SpeadItemGroup
    → ℕ
    → ℕ
    → ℕ
    → ℕ
    → ℕ
    → HashTable SpeadPacket
    → Server
    → Option (Option (HashTable SpeadPacket) × Server)
unfolding measure_items pz_loop
packetize_table hfn ig fuel cursor pkt_size hid i ht s =
    elim (measure_items fuel ig none cursor 0 4) [
      | none ↦ none
      | some (heap_len, nitems, cursor') ↦
          elim (pz_loop hfn ig fuel pkt_size hid heap_len fuel
            (fresh_packetizer s.s_hs.s_list ht nitems cursor')) [
              | none ↦ none
              | some z ↦ some (some z.table, put_table (put_bank s z.bank) i z.table)
            ]
    ]

-- The store in a server that has not dropped a heap.
abbrev pub no_count : Server → Server
no_count s = record s { s_hdcount = 0 }

-- `packetize_item_group`, where `hfn` is the table's hash function: the table it returns, `none` for
-- NULL, and the store, which stands in a server whose counters play no part: with a NULL server
-- `get_ht_hs` counts nothing, so that its count is put back and cannot overflow.
unfoldable pub packetize_item_group :
    (HashObject SpeadPacket → ℕ)
    → ℕ
    → ℕ
    → Server
    → SpeadItemGroup
    → ℤ
    → ℕ
    → Option (Option (HashTable SpeadPacket) × Server)
unfolding packetize_table
packetize_item_group hfn fuel cursor s ig (negsuc n) hid = some (none, s)
packetize_item_group hfn fuel cursor s ig (pos zero) hid = some (none, s)
packetize_item_group hfn fuel cursor s ig (pos (suc n)) hid =
    elim (get_ht_hs (no_count s) (to_i64 hid)) [
      | none ↦ none
      | some (i, none, s') ↦ some (none, record s' { s_hdcount = s.s_hdcount })
      | some (i, some ht, s') ↦
          packetize_table hfn ig fuel cursor (suc n) hid i ht
            (record s' { s_hdcount = s.s_hdcount })
    ]
