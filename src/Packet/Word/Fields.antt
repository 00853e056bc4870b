-- ===== src/Packet/Word/Fields.antt =====
-- The round trips of the word macros in src/spead_packet.h: a field that is built into a header or
-- an item pointer is read back, and a word that is stored in the array is read back.
use Prim.Native.Nat.{bit_or}
use spead.Base.{ℕ, ◌+◌, ◌*◌, ◌%◌, ◌^◌, ◌<◌, ◌≡◌, ap, ◌∙◌, arith}
use spead.Base.Bits.{bit_and-mask, bit_or-shifted}
use spead.Packet.Word.{
  header_build, get_magic, get_version, get_itemsize, get_addrsize, get_nitems, item_build,
  item_mode, item_id, item_addr, spead_magic, spead_version, spead_item_ptr_width,
  spead_heap_addr_width,
}

header_build_sum : (n : ℕ) → header_build n ≡ 0x53_04_03_05 * 2 ^ 32 + n % 2 ^ 16
unfolding header_build
header_build_sum n =
    rw (bit_and-mask 16 n) (bit_or-shifted 32 0x53_04_03_05 (n % 2 ^ 16) (omega arith))

-- The header word of `n` items reads back as the four constants and `n` modulo 2 ^ 16.
pub header_round_trip :
    (n : ℕ)
    → (get_magic (header_build n) ≡ spead_magic)
      × (get_version (header_build n) ≡ spead_version)
      × (get_itemsize (header_build n) ≡ spead_item_ptr_width)
      × (get_addrsize (header_build n) ≡ spead_heap_addr_width)
      × (get_nitems (header_build n) ≡ n % 2 ^ 16)
unfolding get_magic get_version get_itemsize get_addrsize get_nitems
header_round_trip n = rw (header_build_sum n) (
  bit_and-mask 8 _ ∙ omega arith,
  bit_and-mask 8 _ ∙ omega arith,
  bit_and-mask 8 _ ∙ omega arith,
  bit_and-mask 8 _ ∙ omega arith,
  bit_and-mask 16 _ ∙ omega arith,
)

item_build_sum :
    (m i v : ℕ) → item_build m i v ≡ (m % 2 * 2 ^ 23 + i % 2 ^ 23) * 2 ^ 40 + v % 2 ^ 40
unfolding item_build
item_build_sum m i v =
    rw (bit_and-mask 1 m, bit_and-mask 23 i, bit_and-mask 40 v)
      (ap (λ t. bit_or t (v % 2 ^ 40))
          (bit_or-shifted 63 (m % 2) (i % 2 ^ 23 * 2 ^ 40) (omega arith) ∙ omega arith)
        ∙ bit_or-shifted 40 (m % 2 * 2 ^ 23 + i % 2 ^ 23) (v % 2 ^ 40) (omega arith))

-- The mode, the id and the address of an item pointer read back, each modulo the width of its field;
-- the pointer is a 64-bit word.
pub item_round_trip :
    (m i v : ℕ)
    → (item_mode (item_build m i v) ≡ m % 2)
      × (item_id (item_build m i v) ≡ i % 2 ^ 23)
      × (item_addr (item_build m i v) ≡ v % 2 ^ 40)
      × (item_build m i v < 2 ^ 64)
unfolding item_mode item_id item_addr
item_round_trip m i v = rw (item_build_sum m i v) (
  bit_and-mask 1 _ ∙ omega arith,
  bit_and-mask 23 _ ∙ omega arith,
  bit_and-mask 40 _ ∙ omega arith,
  omega arith,
)

-- An address is below 2 ^ 40.
pub item_addr-lt : (item : ℕ) → item_addr item < 2 ^ 40
unfolding item_addr
item_addr-lt item = rw (bit_and-mask 40 item) (omega arith)

pub header_build-lt : (n : ℕ) → header_build n < 2 ^ 64
header_build-lt n = rw (header_build_sum n) (omega arith)
