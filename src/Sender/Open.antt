-- ===== src/Sender/Open.antt =====
-- src/spead.c: the walks of `packetize_item_group` over the items before it copies, and the words with
-- which it opens a packet.
use spead.Base.{
  ℕ, zero, suc, ◌+◌, ◌*◌, ◌%◌, ◌^◌, ◌≤◌, ◌<◌, ◌≡◌, refl, ap, ◌∙◌, some, Option, List, [], ◌∷◌, ◌++◌,
  true, length, arith, leb, length-append, length-take,
}
use spead.Packet.{SpeadPacket}
use spead.Packet.Word.{spead_item, set_item, item_build, directaddr}
use spead.Packet.Word.Fields.{item_round_trip}
use spead.Packet.Word.Network.{item-set_ne}
use spead.Packet.Unpack.{items_from}
use spead.ItemGroup.{SpeadApiItem, SpeadItemGroup}
use spead.ItemGroup.Fill.{held}
use spead.ItemGroup.Walk.{Walks, next-item, next-end, Walks-behind}
use spead.Sender.State.{put_item, measure_items, add_pointers}
use spead.Sender.Frame.{length-set_item, item-set_word}

-- The data of the items of a group, joined, and its length.
abbrev pub all_data : List SpeadApiItem → List ℕ
all_data [] = []
all_data (x ∷ rest) = held x ++ all_data rest

abbrev pub data_total : List SpeadApiItem → ℕ
data_total [] = 0
data_total (x ∷ rest) = x.i_data_len + data_total rest

-- Every item has its data in its bytes.
abbrev pub AllHeld : List SpeadApiItem → Type 0
AllHeld [] = Unit
AllHeld (x ∷ rest) = (x.i_data_len ≤ length x.i_data) × AllHeld rest

pub length-all_data :
    (items : List SpeadApiItem) → AllHeld items → length (all_data items) ≡ data_total items
length-all_data [] a = refl
length-all_data (x ∷ rest) a = omega (
  arith,
  length-append (held x) (all_data rest),
  length-take x.i_data_len x.i_data,
  length-all_data rest a.1,
)

-- The item pointers of a group's items: each with its id, and the offset of its data.
abbrev pub pointers : List SpeadApiItem → ℕ → List ℕ
pointers [] at = []
pointers (x ∷ rest) at = item_build directaddr x.i_id at ∷ pointers rest (at + x.i_data_len)

-- The first walk measures the items.
pub measure_items-total :
    (ig : SpeadItemGroup) (fuel : ℕ) (itm : Option SpeadApiItem) (cursor heap_len nitems : ℕ)
    (rest : List SpeadApiItem)
    → Walks ig itm cursor rest
    → length rest < fuel
    → heap_len + data_total rest < 2 ^ 64
    → (c : ℕ) × (measure_items fuel ig itm cursor heap_len nitems
        ≡ some (heap_len + data_total rest, nitems + length rest, c))
unfolding measure_items
measure_items-total ig zero itm cursor heap_len nitems rest w enough small = absurd (omega arith)
measure_items-total ig (suc fuel) itm cursor heap_len nitems [] w enough small =
    let none_more : heap_len + 0 ≡ heap_len = omega arith in
    let same : nitems + 0 ≡ nitems = omega arith in
    (
      w.at,
      rw (next-end ig itm cursor w, measure_items, next-end ig itm cursor w, none_more, same) refl,
    )
measure_items-total ig (suc fuel) itm cursor heap_len nitems (x ∷ rest) w enough small =
    let (c, run) =
      measure_items-total ig fuel (some x) w.at (heap_len + x.i_data_len) (suc nitems) rest
        (Walks-behind ig itm cursor x rest w) (omega arith) (omega arith) in
    let no_wrap : (heap_len + x.i_data_len) % 2 ^ 64 ≡ heap_len + x.i_data_len = omega arith in
    let sum : heap_len + x.i_data_len + data_total rest
        ≡ heap_len + (x.i_data_len + data_total rest) =
      omega arith in
    let number : suc nitems + length rest ≡ nitems + suc (length rest) = omega arith in
    (
      c,
      rw
            (
              next-item ig itm cursor x rest w,
              measure_items,
              next-item ig itm cursor x rest w,
              no_wrap,
            )
            run
          ∙ ap (λ (t : ℕ × ℕ × ℕ). some t) (λ i. (sum i, number i, c)),
    )

-- The array with the pointers of items from index `i` on.
abbrev pub pointed : List SpeadApiItem → ℕ → ℕ → List ℕ → List ℕ
pointed [] i at bytes = bytes
pointed (x ∷ rest) i at bytes =
    pointed rest (suc i) (at + x.i_data_len) (set_item bytes i (item_build directaddr x.i_id at))

pub length-pointed :
    (items : List SpeadApiItem) (i at : ℕ) (bytes : List ℕ)
    → (i + length items) * 8 ≤ length bytes
    → length (pointed items i at bytes) ≡ length bytes
length-pointed [] i at bytes room = refl
length-pointed (x ∷ rest) i at bytes room =
    let word = item_build directaddr x.i_id at in
    let same = length-set_item bytes i word (omega arith) in
    length-pointed rest (suc i) (at + x.i_data_len) (set_item bytes i word) (omega (arith, same))
    ∙ same

-- Words in front of them stay.
pub item-pointed :
    (items : List SpeadApiItem) (i at : ℕ) (bytes : List ℕ) (k : ℕ)
    → (i + length items) * 8 ≤ length bytes
    → k < i
    → spead_item (pointed items i at bytes) k ≡ spead_item bytes k
item-pointed [] i at bytes k room h = refl
item-pointed (x ∷ rest) i at bytes k room h =
    let word = item_build directaddr x.i_id at in
    item-pointed rest (suc i) (at + x.i_data_len) (set_item bytes i word) k
      (omega (arith, length-set_item bytes i word (omega arith))) (omega arith)
    ∙ item-set_ne bytes i word (omega arith) k (omega arith)

pub items_from-pointed :
    (items : List SpeadApiItem) (i at : ℕ) (bytes : List ℕ)
    → (i + length items) * 8 ≤ length bytes
    → items_from (length items) i (pointed items i at bytes) ≡ some (pointers items at)
unfolding items_from
items_from-pointed [] i at bytes room = refl
items_from-pointed (x ∷ rest) i at bytes room =
    let word = item_build directaddr x.i_id at in
    let fits = item_round_trip directaddr x.i_id at in
    let same = length-set_item bytes i word (omega arith) in
    let first =
      item-pointed rest (suc i) (at + x.i_data_len) (set_item bytes i word) i (omega (arith, same))
        (omega arith)
      ∙ item-set_word bytes i word (omega arith) fits.3 in
    let others =
      items_from-pointed rest (suc i) (at + x.i_data_len) (set_item bytes i word)
        (omega (arith, same)) in
    rw (first, items_from, others) refl

-- The walk of `PZ_ADDIG_ITEMS` writes them.
pub add_pointers-pointed :
    (ig : SpeadItemGroup) (fuel : ℕ) (itm : Option SpeadApiItem) (cursor : ℕ) (p : SpeadPacket)
    (i at : ℕ) (rest : List SpeadApiItem)
    → Walks ig itm cursor rest
    → length rest < fuel
    → at + data_total rest < 2 ^ 64
    → (i + length rest) * 8 ≤ length p.bytes
    → (c : ℕ) × (add_pointers fuel ig itm cursor p i at
        ≡ some (record p { bytes = pointed rest i at p.bytes }, at + data_total rest, c))
unfolding add_pointers
add_pointers-pointed ig zero itm cursor p i at rest w enough small room = absurd (omega arith)
add_pointers-pointed ig (suc fuel) itm cursor p i at [] w enough small room =
    let same : at + 0 ≡ at = omega arith in
    (w.at, rw (next-end ig itm cursor w, add_pointers, next-end ig itm cursor w, same) refl)
add_pointers-pointed ig (suc fuel) itm cursor p i at (x ∷ rest) w enough small room =
    let word = item_build directaddr x.i_id at in
    let p' = record p { bytes = set_item p.bytes i word } in
    let (c, run) =
      add_pointers-pointed ig fuel (some x) w.at p' (suc i) (at + x.i_data_len) rest
        (Walks-behind ig itm cursor x rest w) (omega arith) (omega arith)
        (omega (arith, length-set_item p.bytes i word (omega arith))) in
    let fits : leb (i * 8 + 8) (length p.bytes) ≡ true = ground arith in
    let put : put_item p i word ≡ some p' = unfold put_item in rw fits refl in
    let no_wrap : (at + x.i_data_len) % 2 ^ 64 ≡ at + x.i_data_len = omega arith in
    let sum : at + x.i_data_len + data_total rest ≡ at + (x.i_data_len + data_total rest) =
      omega arith in
    (
      c,
      rw
            (
              next-item ig itm cursor x rest w,
              add_pointers,
              put,
              next-item ig itm cursor x rest w,
              no_wrap,
            )
            run
          ∙ ap (λ (t : ℕ). some (record p { bytes = pointed (x ∷ rest) i at p.bytes }, t, c)) sum,
    )
