-- ===== src/Sender/State.antt =====
-- src/spead.c, `packetize_item_group`: its variables, the record `Packetizer`, and what it does before it
-- copies: the walks over the items, and the words of a packet. A result `none` is an access outside an
-- array, a NULL that is read, or fuel that has run out.
use spead.Base.{
  ℕ, zero, suc, ◌+◌, ◌-◌, ◌*◌, ◌%◌, ◌^◌, ◌&&◌, Option, none, some, List, ◌++◌, ◌==◌, ltb, leb,
  if◌then◌else◌, length, take, drop,
}
use spead.Packet.{SpeadPacket, heap_cnt_id, heap_len_id, payload_off_id}
use spead.Packet.Word.{spead_itemlen, directaddr, header_build, item_build, set_item}
use spead.HashTable.{HashObject, ObjectBank, HashTable}
use spead.ItemGroup.{SpeadApiItem, SpeadItemGroup, get_next_spead_item}

abbrev pub immediateaddr : ℕ
immediateaddr = 1

-- The `PZ_` states.
pub data PzState : Type 0 where
  pz_end pz_getpacket pz_copydata pz_addig_items pz_init_packet pz_hashpacket : PzState

-- The variables that the loop changes. `packet` is `p`, and with it the object `o`, whose `o` it is;
-- `cursor` is the static offset of `get_next_spead_item`.
pub record Packetizer : Type 0 where
  pub state : PzState
  pub bank : ObjectBank SpeadPacket
  pub table : HashTable SpeadPacket
  pub packet : Option SpeadPacket
  pub itm : Option SpeadApiItem
  pub cursor : ℕ
  pub payload_off : ℕ
  pub count : ℕ
  pub off : ℕ
  pub ioff : ℕ
  pub remain : ℕ
  pub didcopy : ℕ
  pub nitems : ℕ

-- `SPEAD_SET_ITEM(p->data, n, word)`
unfoldable pub put_item : SpeadPacket → ℕ → ℕ → Option SpeadPacket
put_item p n word =
    if leb (n * spead_itemlen + spead_itemlen) (length p.bytes)
    then some (record p { bytes = set_item p.bytes n word })
    else none

abbrev pub then_put : Option SpeadPacket → ℕ → ℕ → Option SpeadPacket
then_put none n word = none
then_put (some p) n word = put_item p n word

-- The bytes of an array from `at` on are replaced by `src`.
unfoldable pub splice : List ℕ → ℕ → List ℕ → List ℕ
splice bytes at src = take at bytes ++ (src ++ drop (at + length src) bytes)

-- `memcpy(payload + off, src + ioff, n)` into the packet's array.
unfoldable pub copy_at : Option ℕ → SpeadPacket → ℕ → List ℕ → ℕ → ℕ → Option SpeadPacket
unfolding splice
copy_at none p off src ioff n = none
copy_at (some a) p off src ioff n =
    if leb (ioff + n) (length src) && leb (a - p.data_addr + off + n) (length p.bytes)
    then some (record p { bytes = splice p.bytes (a - p.data_addr + off) (take n (drop ioff src)) })
    else none

-- `memcpy(p->payload + off, itm->i_data + ioff, n)`
unfoldable pub copy_payload : SpeadPacket → ℕ → List ℕ → ℕ → ℕ → Option SpeadPacket
unfolding copy_at
copy_payload p off src ioff n = copy_at p.payload p off src ioff n

-- The first `while` over the items: their data's length and their number, on fuel.
unfoldable pub measure_items :
    ℕ → SpeadItemGroup → Option SpeadApiItem → ℕ → ℕ → ℕ → Option (ℕ × ℕ × ℕ)
measure_items zero ig itm cursor heap_len nitems = none
measure_items (suc fuel) ig itm cursor heap_len nitems =
    let next = get_next_spead_item ig itm cursor in
    elim (next.0) [
      | none ↦ none
      | some none ↦ some (heap_len, nitems, next.1)
      | some (some x) ↦
          measure_items fuel ig (some x) (next.1) ((heap_len + x.i_data_len) % 2 ^ 64) (suc nitems)
    ]

-- The `while` of `PZ_ADDIG_ITEMS`, on fuel: an item pointer for each item, with the offset of its data.
unfoldable pub add_pointers :
    ℕ
    → SpeadItemGroup
    → Option SpeadApiItem
    → ℕ
    → SpeadPacket
    → ℕ
    → ℕ
    → Option (SpeadPacket × ℕ × ℕ)
add_pointers zero ig itm cursor p nitems count = none
add_pointers (suc fuel) ig itm cursor p nitems count =
    let next = get_next_spead_item ig itm cursor in
    elim (next.0) [
      | none ↦ none
      | some none ↦ some (p, count, next.1)
      | some (some x) ↦ elim (put_item p nitems (item_build directaddr x.i_id count)) [
        | none ↦ none
        | some p' ↦
            add_pointers fuel ig (some x) (next.1) p' (suc nitems) ((count + x.i_data_len) % 2 ^ 64)
      ]
    ]

-- The words that `PZ_GETPACKET` writes.
unfoldable pub start_packet : ℕ → ℕ → ℕ → ℕ → SpeadPacket → Option SpeadPacket
unfolding put_item
start_packet nitems hid heap_len payload_off p =
    then_put
      (then_put
        (then_put (put_item p 0 (header_build nitems)) 1 (item_build immediateaddr heap_cnt_id hid))
        2 (item_build immediateaddr heap_len_id heap_len))
      3 (item_build immediateaddr payload_off_id payload_off)

-- `PZ_GETPACKET` with what the bank gives.
unfoldable pub open_packet :
    ℕ
    → ℕ
    → Packetizer
    → Option (HashObject SpeadPacket) × ObjectBank SpeadPacket
    → Option Packetizer
open_packet hid heap_len z (none, l) = some (record z { state = pz_end; bank = l })
open_packet hid heap_len z (some none, l) =
    some (record z { state = pz_end; bank = l; packet = none })
open_packet hid heap_len z (some (some p), l) =
    elim (start_packet z.nitems hid heap_len z.payload_off p) [
      | none ↦ none
      | some p' ↦ some (record z {
        state = if ltb 4 z.nitems && (z.count == 0) then pz_addig_items else pz_init_packet;
        bank = l;
        packet = some p';
      })
    ]

-- `PZ_ADDIG_ITEMS`
unfoldable pub add_items : ℕ → SpeadItemGroup → SpeadPacket → Packetizer → Option Packetizer
add_items fuel ig p z = elim (add_pointers fuel ig none z.cursor p 5 0) [
  | none ↦ none
  | some (p', count, cursor) ↦ some (record z {
    state = pz_init_packet;
    packet = some p';
    itm = none;
    cursor = cursor;
    count = count;
    nitems = 4;
  })
]
