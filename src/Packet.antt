-- ===== src/Packet.antt =====
-- src/spead_packet.h: the constants and bit macros of the SPEAD wire format, and `struct
-- spead_packet`; src/spead_packet.c: the functions that start, copy and unpack one packet.
pub mod Word
pub mod Unpack
pub mod Header
pub mod Copy
use Prim.Native.Nat.{min, max}
use spead.Base.{
  ℕ, zero, suc, ◌+◌, ◌-◌, ◌*◌, ◌≡◌, Bool, true, false, ◌&&◌, ◌||◌, not, Option, none, some, List,
  [], ◌∷◌, ◌++◌, ◌==◌, ltb, if◌then◌else◌, length, take, drop, replicate, arith,
}
use spead.Base.Int.{ℤ, pos, negsuc}
use Word.{
  spead_item, item_id, item_addr, get_magic, get_version, get_itemsize, get_addrsize, get_nitems,
  spead_magic, spead_version, spead_item_ptr_width, spead_heap_addr_width, spead_headerlen,
  spead_itemlen,
}

-- `SPEAD_ERR`
abbrev pub spead_err : ℤ
spead_err = negsuc 0

-- The reserved item ids that a packet's own header carries.
abbrev pub heap_cnt_id : ℕ
heap_cnt_id = 0x01

abbrev pub heap_len_id : ℕ
heap_len_id = 0x02

abbrev pub payload_off_id : ℕ
payload_off_id = 0x03

abbrev pub payload_len_id : ℕ
payload_len_id = 0x04

abbrev pub stream_ctrl_id : ℕ
stream_ctrl_id = 0x06

abbrev pub stream_ctrl_term_val : ℕ
stream_ctrl_term_val = 0x02

-- `payload_len` and `payload_off` only ever hold 0 or a 40-bit address, so they are naturals.
-- `bytes` is the array `data`, and `data_addr` where it stands in memory: `payload` is an address,
-- with `none` for NULL. The link `next` is the list that a heap keeps.
pub record SpeadPacket : Type 0 where
  pub heap_cnt : ℤ
  pub heap_len : ℤ
  pub n_items : ℕ
  pub is_stream_ctrl_term : ℕ
  pub payload_len : ℕ
  pub payload_off : ℕ
  pub data_addr : ℕ
  pub bytes : List ℕ
  pub payload : Option ℕ

-- `spead_packet_init`: everything but the data.
unfoldable pub spead_packet_init : SpeadPacket → SpeadPacket
spead_packet_init pkt = record {
  heap_cnt = spead_err;
  heap_len = spead_err;
  n_items = 0;
  is_stream_ctrl_term = 0;
  payload_len = 0;
  payload_off = 0;
  data_addr = pkt.data_addr;
  bytes = pkt.bytes;
  payload = none;
}

-- The bytes that the loop of `spead_packet_copy` moves.
abbrev pub copied : SpeadPacket → ℕ
copied pkt = spead_itemlen * pkt.n_items + pkt.payload_len

-- The loop of `spead_packet_copy` from index `j`, with `n` rounds left, on the two data arrays:
-- `none` is an access outside one of them.
unfoldable pub copy_loop : ℕ → List ℕ → List ℕ → Option (List ℕ)
copy_loop zero src dst = some dst
copy_loop (suc n) [] dst = none
copy_loop (suc n) (b ∷ src) [] = none
copy_loop (suc n) (b ∷ src) (_ ∷ dst) = elim (copy_loop n src dst) [
  | none ↦ none
  | some rest ↦ some (b ∷ rest)
]

-- `spead_packet_copy`: `heap_len` of the target is left as it was, as in the source.
unfoldable pub spead_packet_copy : SpeadPacket → SpeadPacket → Option SpeadPacket
unfolding copy_loop
spead_packet_copy pkt1 pkt2 = elim (copy_loop (copied pkt1) pkt1.bytes pkt2.bytes) [
  | none ↦ none
  | some d ↦ some (record {
    heap_cnt = pkt1.heap_cnt;
    heap_len = pkt2.heap_len;
    n_items = pkt1.n_items;
    is_stream_ctrl_term = pkt1.is_stream_ctrl_term;
    payload_len = pkt1.payload_len;
    payload_off = pkt1.payload_off;
    data_addr = pkt2.data_addr;
    bytes = d;
    payload = pkt1.payload;
  })
]

-- The test on the four fields of the header word.
unfoldable pub header_bad : ℕ → Bool
header_bad hdr =
    not (get_magic hdr == spead_magic)
    || (not (get_version hdr == spead_version)
        || (not (get_itemsize hdr == spead_item_ptr_width)
            || not (get_addrsize hdr == spead_heap_addr_width)))

-- `spead_packet_unpack_header` once the header word is read.
unfoldable pub accept_header : ℕ → SpeadPacket → ℤ × SpeadPacket
accept_header hdr pkt = if header_bad hdr then (spead_err, pkt) else (
  pos spead_headerlen,
  record pkt {
    n_items = get_nitems hdr;
    payload = some (pkt.data_addr + spead_headerlen + get_nitems hdr * spead_itemlen);
  },
)

-- `spead_packet_unpack_header`; `none` is a read outside the data.
unfoldable pub spead_packet_unpack_header : SpeadPacket → Option (ℤ × SpeadPacket)
unfolding accept_header header_bad
spead_packet_unpack_header pkt = elim (spead_item pkt.bytes 0) [
  | none ↦ none
  | some hdr ↦ some (accept_header hdr pkt)
]

-- The `switch` of `spead_packet_unpack_items` on one item pointer.
unfoldable pub unpack_item : ℕ → SpeadPacket → SpeadPacket
unpack_item item pkt =
    if item_id item == heap_cnt_id
    then record pkt { heap_cnt = pos (item_addr item) }
    else if item_id item == heap_len_id
    then record pkt { heap_len = pos (item_addr item) }
    else if item_id item == payload_off_id
    then record pkt { payload_off = item_addr item }
    else if item_id item == payload_len_id
    then record pkt { payload_len = item_addr item }
    else if item_id item == stream_ctrl_id
    then (if item_addr item == stream_ctrl_term_val
        then record pkt { is_stream_ctrl_term = 1 }
        else pkt)
    else pkt

-- The loop of `spead_packet_unpack_items` from item `i`, with `n` rounds left.
unfoldable pub unpack_loop : ℕ → ℕ → SpeadPacket → Option SpeadPacket
unpack_loop zero i pkt = some pkt
unpack_loop (suc n) i pkt = elim (spead_item pkt.bytes i) [
  | none ↦ none
  | some item ↦ unpack_loop n (suc i) (unpack_item item pkt)
]

-- `spead_packet_unpack_items`; `none` is a read outside the data.
unfoldable pub spead_packet_unpack_items : SpeadPacket → Option (ℤ × SpeadPacket)
unfolding unpack_loop unpack_item
spead_packet_unpack_items pkt = elim (unpack_loop pkt.n_items 1 pkt) [
  | none ↦ none
  | some p ↦ some (pos (p.n_items * spead_itemlen), p)
]
