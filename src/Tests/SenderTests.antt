-- ===== src/Tests/SenderTests.antt =====
-- The sender on a group of two items, in packets of five bytes.
use spead.Base.{
  ℕ, ◌*◌, ◌/◌, ◌<◌, ◌≡◌, inl, inr, arith, refl, none, some, Option, List, [], ◌∷◌, ◌++◌, length,
  replicate, length-replicate, true, false,
}
use spead.Base.Int.{pos, negsuc}
use spead.Packet.Header.{announced}
use spead.Sender.Errors.{packetize-empty_bank, packetize-no_items}
use spead.Sender.Terminator.{send_spead_stream_terminator, IsEnded, terminator-ends_stream}
use spead.Packet.{SpeadPacket, spead_err}
use spead.HashTable.{HashObject, ObjectBank, HashTable, create_hash_table}
use spead.ItemGroup.{SpeadApiItem, SpeadItemGroup, blank_item}
use spead.Receiver.Store.{
  Server, hash_fn_spead_packet, get_ht_hs, hash_heap_hs, table_at, claim_table, evict, put_table,
}
use mathlib.Core.Option
use spead.SpeadHeap.Finalize.Extract.{payload_bytes}
use spead.ItemGroup.{get_next_spead_item, with_len, item_at}
use spead.HashTable.{pop_hash_o, pop_top, add_o_ht, store_at}
use spead.Sender.State.{start_packet, put_item, add_pointers, copy_payload, copy_at, splice}
use spead.Packet.Word.{
  set_item, to_network, from_network, spead_item, header_build, item_build, item_id, item_addr,
  get_magic, get_version, get_itemsize, get_addrsize, get_nitems,
}
use spead.Packet.{
  spead_packet_unpack_header, spead_packet_unpack_items, accept_header, header_bad, unpack_item,
  unpack_loop,
}
use spead.Sender.Loop.{packetize_item_group, put_bank}
use spead.Sender.Rounds.{table_of}
use spead.Sender.Cut.{IsHashed}
use spead.Sender.Whole.{IsSendable, IsTable}
use spead.Sender.Packets.{uncounted, IsPacketized, packetize_item_group-cuts}

abbrev three : SpeadApiItem
three = record (blank_item 3) { i_id = 0x21; i_data_len = 3; i_data = 1 ∷ 2 ∷ 3 ∷ [] }

abbrev four : SpeadApiItem
four = record (blank_item 4) { i_id = 0x22; i_data_len = 4; i_data = 4 ∷ 5 ∷ 6 ∷ 7 ∷ [] }

abbrev pair : SpeadItemGroup
pair = record { g_cd = 0; g_items = 2; g_size = 87; g_off = 87; g_map = three ∷ four ∷ [] }

pair-IsSendable : IsSendable pair 5
pair-IsSendable = record {
  group = record {
    counted = refl;
    packed = refl;
    inside = omega arith;
    small = omega arith;
    sized = (omega arith, omega arith, refl, (omega arith, omega arith, refl, tt));
  };
  readable = inl refl;
  some_item = omega arith;
  held = (omega arith, (omega arith, tt));
  ordinary = (omega arith, omega arith, (omega arith, omega arith, tt));
  few_bytes = omega arith;
  some_size = omega arith;
  fits = omega arith;
}

abbrev scaled : ℕ → ℕ → ℕ → ℕ
scaled off heap_len len = off * len / heap_len

-- A packet with an array of some length.
abbrev blank : ℕ → SpeadPacket
blank n = record {
  heap_cnt = spead_err;
  heap_len = spead_err;
  n_items = 0;
  is_stream_ctrl_term = 0;
  payload_len = 0;
  payload_off = 0;
  data_addr = 4096;
  bytes = replicate n 0;
  payload = none;
}

abbrev empty_table : HashTable SpeadPacket
empty_table = create_hash_table 1 4

abbrev chosen : HashTable SpeadPacket
chosen = record empty_table { t_data_id = pos 7 }

abbrev store : ℕ → Server
store n = record {
  s_hs = record {
    s_backlog = 2;
    s_hash = create_hash_table 0 4 ∷ empty_table ∷ [];
    s_list = record {
      l_len = 3;
      l_olen = 9400;
      l_top = some (blank n) ∷ some (blank n) ∷ some (blank n) ∷ [];
    };
  };
  s_hpcount = 0;
  s_hdcount = 0;
}

found : (n : ℕ) → get_ht_hs (store n) (pos 7) ≡ some (1, some chosen, store n)
unfolding get_ht_hs hash_heap_hs table_at claim_table evict create_hash_table
found n = refl

scaled-lt : (off : ℕ) → off < 7 → scaled off 7 4 < 4
scaled-lt off h = omega arith

seven-IsHashed : IsHashed (hash_fn_spead_packet scaled 4) 7 4
unfolding hash_fn_spead_packet
seven-IsHashed p len on_way = rw len (elim on_way [
  | inl none_long ↦ absurd (omega arith)
  | inr inside ↦ scaled-lt p.payload_off inside
])

chosen-IsTable : IsTable (hash_fn_spead_packet scaled 4) chosen (replicate 4 []) 7
unfolding create_hash_table
chosen-IsTable = record { there = refl; sized = refl; small = omega arith; hashed = seven-IsHashed }

packetize_item_group-cuts_example :
    (chains : List (List (HashObject SpeadPacket))) × (bank : ObjectBank SpeadPacket)
    × (packetize_item_group (hash_fn_spead_packet scaled 4) 20 0 (store 9200) pair (pos 5) 7
        ≡ some (
          some (table_of chosen chains),
          put_table
              (put_bank (uncounted (store 9200) (store 9200)) bank)
              1
              (table_of chosen chains),
        ))
    × IsPacketized
        (hash_fn_spead_packet scaled 4)
        pair
        5
        7
        (replicate 4 [])
        (blank 9200 ∷ blank 9200 ∷ blank 9200 ∷ [])
        []
        chains
        bank
packetize_item_group-cuts_example =
    packetize_item_group-cuts (hash_fn_spead_packet scaled 4) 20 0 5 7 1 (store 9200) (store 9200)
      pair chosen (replicate 4 []) (blank 9200 ∷ blank 9200 ∷ blank 9200 ∷ []) [] (found 9200)
      pair-IsSendable (omega arith) chosen-IsTable
      (record {
        top = refl;
        spare = (full, (full, (full, tt)));
        some_packet = omega arith;
        enough = omega arith;
      })
      (omega arith)
  where
    full : length (blank 9200).bytes ≡ 9200
    full = length-replicate {A = ℕ} 9200 0

-- The bytes of the packets that a run puts into the table, with their offsets.
abbrev chain_parts : List (HashObject SpeadPacket) → List (ℕ × List ℕ)
chain_parts [] = []
chain_parts (none ∷ l) = chain_parts l
chain_parts (some p ∷ l) = (p.payload_off, payload_bytes p) ∷ chain_parts l

abbrev parts : List (List (HashObject SpeadPacket)) → List (ℕ × List ℕ)
parts [] = []
parts (chain ∷ os) = chain_parts chain ++ parts os

abbrev result_parts : Option (Option (HashTable SpeadPacket) × Server) → Option (List (ℕ × List ℕ))
result_parts none = none
result_parts (some (none, s)) = none
result_parts (some (some ht, s)) = Option.map parts ht.t_os

two_packets :
    result_parts
      (packetize_item_group (hash_fn_spead_packet scaled 4) 20 0 (store 64) pair (pos 5) 7)
    ≡ some ((0, 1 ∷ 2 ∷ 3 ∷ 4 ∷ 5 ∷ []) ∷ (5, 6 ∷ 7 ∷ []) ∷ [])
unfolding packetize_item_group hash_fn_spead_packet get_ht_hs create_hash_table hash_heap_hs
    get_next_spead_item with_len item_at pop_hash_o pop_top start_packet put_item set_item
    to_network from_network add_pointers spead_packet_unpack_header spead_packet_unpack_items
    accept_header header_bad unpack_item unpack_loop spead_item header_build item_build item_id
    item_addr get_magic get_version get_itemsize get_addrsize get_nitems add_o_ht store_at put_table
    copy_payload copy_at splice
two_packets = refl

-- A store whose bank has some packets.
abbrev holding : List (HashObject SpeadPacket) → Server
holding top = record (store 0) {
  s_hs = record (store 0).s_hs { s_list = record { l_len = 3; l_olen = 9400; l_top = top } };
}

found_in :
    (top : List (HashObject SpeadPacket))
    → get_ht_hs (holding top) (pos 7) ≡ some (1, some chosen, holding top)
unfolding get_ht_hs hash_heap_hs table_at claim_table evict create_hash_table
found_in top = refl

abbrev no_items : SpeadItemGroup
no_items = record { g_cd = 0; g_items = 0; g_size = 80; g_off = 0; g_map = [] }

packetize-empty_bank_example :
    (bank : ObjectBank SpeadPacket) × (packetize_item_group
        (hash_fn_spead_packet scaled 4)
        4
        0
        (holding [])
        pair
        (pos 5)
        7
      ≡ some
          (some chosen, put_table (put_bank (uncounted (holding []) (holding [])) bank) 1 chosen))
    × (bank.l_top ≡ [])
packetize-empty_bank_example =
    packetize-empty_bank (hash_fn_spead_packet scaled 4) 4 0 4 7 1 (holding []) (holding []) pair
      chosen pair-IsSendable.group pair-IsSendable.readable (omega arith) (found_in []) refl
      (omega arith)

abbrev lone : List (HashObject SpeadPacket)
lone = some (blank 9200) ∷ []

packetize-no_items_example :
    (bank : ObjectBank SpeadPacket) × (packetize_item_group
        (hash_fn_spead_packet scaled 4)
        4
        0
        (holding lone)
        no_items
        (pos 5)
        7
      ≡ some (
        some chosen,
        put_table (put_bank (uncounted (holding lone) (holding lone)) bank) 1 chosen,
      ))
    × (bank.l_top ≡ [])
packetize-no_items_example =
    packetize-no_items (hash_fn_spead_packet scaled 4) 4 0 4 7 1 (holding lone) (holding lone)
      no_items chosen (blank 9200) []
      (record {
        counted = refl;
        packed = refl;
        inside = omega arith;
        small = omega arith;
        sized = tt;
      })
      (inr (omega arith)) refl (found_in lone) refl (length-replicate {A = ℕ} 9200 0) (omega arith)
      (omega arith)

-- A socket that takes every packet.
terminator-ends_stream_example :
    ((p : SpeadPacket) × (send_spead_stream_terminator (λ q. pos 0) true 4096 ≡ some (pos 0))
      × ((pkt : SpeadPacket)
          → pkt.bytes ≡ p.bytes
          → (q : SpeadPacket) × (spead_packet_unpack_header pkt ≡ some (pos 8, announced 3 pkt))
            × (spead_packet_unpack_items (announced 3 pkt) ≡ some (pos 24, q))
            × IsEnded q
            × (q.bytes ≡ pkt.bytes)))
    × (send_spead_stream_terminator (λ q. pos 0) false 4096 ≡ some (negsuc 0))
terminator-ends_stream_example = terminator-ends_stream (λ q. pos 0) 4096
