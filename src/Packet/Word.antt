-- ===== src/Packet/Word.antt =====
-- src/spead_packet.h: the macros that build and read the 64-bit words of a packet. A word is a
-- number below 2 ^ 64; `<<` and `>>` are written as multiplication and division.
pub mod Fields
pub mod Network
use Prim.Native.Nat.{bit_and, bit_or}
use spead.Base.{
  ℕ, zero, suc, ◌+◌, ◌-◌, ◌*◌, ◌/◌, ◌%◌, ◌^◌, Option, none, some, List, [], ◌∷◌, ◌++◌, ◌==◌,
  if◌then◌else◌, length, take, drop,
}

abbrev pub spead_magic : ℕ
spead_magic = 0x53

abbrev pub spead_version : ℕ
spead_version = 4

abbrev pub spead_itemsize : ℕ
spead_itemsize = 64

abbrev pub spead_addrsize : ℕ
spead_addrsize = 40

abbrev pub spead_heap_addr_width : ℕ
spead_heap_addr_width = spead_addrsize / 8

abbrev pub spead_item_ptr_width : ℕ
spead_item_ptr_width = (spead_itemsize - spead_addrsize) / 8

abbrev pub spead_itemlen : ℕ
spead_itemlen = spead_itemsize / 8

abbrev pub spead_addrlen : ℕ
spead_addrlen = spead_addrsize / 8

abbrev pub spead_headerlen : ℕ
spead_headerlen = 8

abbrev pub spead_max_packet_len : ℕ
spead_max_packet_len = 9200

abbrev pub itemmask : ℕ
itemmask = 2 ^ 64 - 1

-- `SPEAD_ADDRMASK`, `SPEAD_IDMASK` and `SPEAD_ADDRMODEMASK`.
abbrev pub addrmask : ℕ
addrmask = itemmask / 2 ^ (spead_itemsize - spead_addrsize)

abbrev pub idmask : ℕ
idmask = itemmask / 2 ^ (spead_addrsize + 1)

abbrev pub addrmodemask : ℕ
addrmodemask = 1

abbrev pub directaddr : ℕ
directaddr = 0

-- `SPEAD_HEADER_BUILD(nitems)`
unfoldable pub header_build : ℕ → ℕ
header_build nitems =
    bit_or
      (bit_or
        (bit_or (bit_or (spead_magic * 2 ^ 56) (spead_version * 2 ^ 48))
          (spead_item_ptr_width * 2 ^ 40))
        (spead_heap_addr_width * 2 ^ 32))
      (bit_and 0xffff nitems)

-- `SPEAD_GET_MAGIC` to `SPEAD_GET_NITEMS`
unfoldable pub get_magic : ℕ → ℕ
get_magic hdr = bit_and 0xff (hdr / 2 ^ 56)

unfoldable pub get_version : ℕ → ℕ
get_version hdr = bit_and 0xff (hdr / 2 ^ 48)

unfoldable pub get_itemsize : ℕ → ℕ
get_itemsize hdr = bit_and 0xff (hdr / 2 ^ 40)

unfoldable pub get_addrsize : ℕ → ℕ
get_addrsize hdr = bit_and 0xff (hdr / 2 ^ 32)

unfoldable pub get_nitems : ℕ → ℕ
get_nitems hdr = bit_and 0xffff hdr

-- `SPEAD_ITEM_BUILD(mode, id, val)`
unfoldable pub item_build : ℕ → ℕ → ℕ → ℕ
item_build mode id val =
    bit_or
      (bit_or (bit_and addrmodemask mode * 2 ^ (spead_itemsize - 1))
        (bit_and idmask id * 2 ^ spead_addrsize))
      (bit_and addrmask val)

-- `SPEAD_ITEM_MODE`, `SPEAD_ITEM_ID` and `SPEAD_ITEM_ADDR`
unfoldable pub item_mode : ℕ → ℕ
item_mode item = bit_and addrmodemask (item / 2 ^ (spead_itemsize - 1))

unfoldable pub item_id : ℕ → ℕ
item_id item = bit_and idmask (item / 2 ^ spead_addrsize)

unfoldable pub item_addr : ℕ → ℕ
item_addr item = bit_and addrmask item

-- The number that bytes in network order stand for: what `ntohll` makes of the word in memory.
unfoldable pub from_network : ℕ → List ℕ → ℕ
from_network acc [] = acc
from_network acc (b ∷ bs) = from_network (acc * 256 + b) bs

-- The `k` bytes of a number in network order: what `htonll` puts into memory.
unfoldable pub to_network : ℕ → ℕ → List ℕ
to_network zero x = []
to_network (suc k) x = (x / 256 ^ k % 256) ∷ to_network k x

-- `SPEAD_ITEM(data, n)`, and at 0 `SPEAD_HEADER(data)`; `none` is a read past the end of the array.
unfoldable pub spead_item : List ℕ → ℕ → Option ℕ
unfolding from_network
spead_item bytes n =
    let word = take spead_itemlen (drop (n * spead_itemlen) bytes) in
    if length word == spead_itemlen then some (from_network 0 word) else none

-- `SPEAD_SET_ITEM(data, n, pkitem)`, for an index inside the array.
unfoldable pub set_item : List ℕ → ℕ → ℕ → List ℕ
unfolding to_network
set_item bytes n pkitem =
    take (n * spead_itemlen) bytes
    ++ (to_network spead_itemlen pkitem ++ drop (n * spead_itemlen + spead_itemlen) bytes)
