-- ===== src/Tests/PacketTests.antt =====
-- A packet of two items, and the theorems about src/spead_packet.c's packet functions at it.
use spead.Base.{
  ◌+◌, ◌*◌, ℕ, ◌*◌, ◌/◌, ◌%◌, ◌^◌, ◌≤◌, ◌<◌, ◌≡◌, ◌≢◌, refl, none, some, List, [], ◌∷◌, length,
  replicate,
}
use spead.Base.Int.{pos}
use spead.Packet.Word.{header_build, spead_item, spead_itemlen}
use spead.Packet.{
  SpeadPacket, spead_err, spead_packet_copy, spead_packet_unpack_header, spead_packet_unpack_items,
}
use spead.Packet.Unpack.{unpack_items_bounds, unpack_items-last, items_from, IsUnpacked}
use spead.Packet.Header.{flavour, announced, unpack_header-flavour}
use spead.Packet.Copy.{copy_of, copy-prefix}

abbrev header_word : ℕ
header_word = 0x5304_0305_0000_0002

abbrev items : List ℕ
items = 0x8000_0100_0000_0009 ∷ 0x8000_0400_0000_0003 ∷ []

abbrev data_bytes : List ℕ
data_bytes =
    0x53 ∷ 4 ∷ 3 ∷ 5 ∷ 0 ∷ 0 ∷ 0 ∷ 2 ∷ 0x80 ∷ 0 ∷ 1 ∷ 0 ∷ 0 ∷ 0 ∷ 0 ∷ 9 ∷ 0x80 ∷ 0 ∷ 4 ∷ 0 ∷ 0 ∷ 0
    ∷ 0 ∷ 3 ∷ 0xaa ∷ 0xbb ∷ 0xcc ∷ []

abbrev packet : SpeadPacket
packet = record {
  heap_cnt = spead_err;
  heap_len = spead_err;
  n_items = 2;
  is_stream_ctrl_term = 0;
  payload_len = 3;
  payload_off = 0;
  data_addr = 4096;
  bytes = data_bytes;
  payload = some 4120;
}

abbrev other : SpeadPacket
other = record packet { n_items = 0; payload_len = 0; bytes = replicate 27 0; data_addr = 8192 }

abbrev full_packet : SpeadPacket
full_packet = record packet { bytes = replicate 9200 0 }

built_header : header_build 2 ≡ header_word
unfolding header_build
built_header = refl

read_items : items_from 2 1 data_bytes ≡ some items
unfolding items_from spead_item
read_items = refl

unpack_items_bounds_example :
    (full_packet.n_items ≤ 1149
      → (p : SpeadPacket) × (spead_packet_unpack_items full_packet
          ≡ some (pos (full_packet.n_items * spead_itemlen), p)))
    × (1149 < full_packet.n_items → spead_packet_unpack_items full_packet ≡ none)
unpack_items_bounds_example = unpack_items_bounds full_packet refl

unpack_items-last_example :
    (p : SpeadPacket) × (spead_packet_unpack_items packet
      ≡ some (pos (packet.n_items * spead_itemlen), p))
    × IsUnpacked packet items p
unpack_items-last_example = unpack_items-last packet items read_items

read_header : spead_item data_bytes 0 ≡ some header_word
unfolding spead_item
read_header = refl

unpack_header-flavour_example :
    (header_word / 2 ^ 32 % 2 ^ 32 ≡ flavour
      → spead_packet_unpack_header packet ≡ some (pos 8, announced (header_word % 2 ^ 16) packet))
    × (header_word / 2 ^ 32 % 2 ^ 32 ≢ flavour
        → spead_packet_unpack_header packet ≡ some (spead_err, packet))
unpack_header-flavour_example = unpack_header-flavour packet header_word read_header

copy-prefix_example :
    (8 * packet.n_items + packet.payload_len ≤ length packet.bytes
      → spead_packet_copy packet other
        ≡ some (copy_of (8 * packet.n_items + packet.payload_len) packet other))
    × (length packet.bytes < 8 * packet.n_items + packet.payload_len
        → spead_packet_copy packet other ≡ none)
copy-prefix_example = copy-prefix packet other refl
