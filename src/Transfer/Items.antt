-- ===== src/Transfer/Items.antt =====
-- src/spead.c: the items that a receiver reads from the pointers that `packetize_item_group` writes.
use mathlib.Core.List.{append_assoc}
use spead.Base.{
  ℕ, suc, ◌+◌, ◌-◌, ◌%◌, ◌^◌, ◌<◌, ◌≡◌, refl, ap, sym, ◌∙◌, false, List, [], ◌∷◌, ◌++◌, ◌==◌,
  if◌then◌else◌, length, take, drop, arith, length-append, length-take,
}
use spead.Base.Slices.{drop-append_right, take-append, take_all}
use spead.Packet.Word.{directaddr}
use spead.Packet.Word.Fields.{item_round_trip}
use spead.ItemGroup.{SpeadApiItem}
use spead.ItemGroup.Fill.{held}
use spead.Receiver.Items.{SpeadApiItem2, is_header_id, new_item2}
use spead.Receiver.Items.Collect.{kept}
use spead.Receiver.Items.Lengths.{starts, Ascending}
use spead.Receiver.Process.Sliced.{sliced}
use spead.Sender.Open.{all_data, data_total, AllHeld, pointers}
use spead.Sender.Close.{AllOrdinary}

-- The items as the receiver has them before their lengths are known.
abbrev pub sent_items : List SpeadApiItem → ℕ → List SpeadApiItem2
sent_items [] at = []
sent_items (x ∷ rest) at =
    record { i_id = x.i_id; i_mode = directaddr; i_off = at; i_len = 0 }
    ∷ sent_items rest (at + x.i_data_len)

-- The ids and the data of the items that have some.
abbrev pub with_data : List SpeadApiItem → List (ℕ × List ℕ)
with_data [] = []
with_data (x ∷ rest) =
    if x.i_data_len == 0 then with_data rest else (x.i_id, held x) ∷ with_data rest

pub kept-pointers :
    (items : List SpeadApiItem) (at : ℕ)
    → AllOrdinary items
    → at + data_total items < 2 ^ 40
    → kept (pointers items at) ≡ sent_items items at
unfolding is_header_id new_item2
kept-pointers [] at a small = refl
kept-pointers (x ∷ rest) at a small =
    let (mode, id, addr, fits) = item_round_trip directaddr x.i_id at in
    let own : x.i_id % 2 ^ 23 ≡ x.i_id = omega (arith, a.1) in
    let inside : at % 2 ^ 40 ≡ at = omega arith in
    let ordinary : is_header_id x.i_id ≡ false = ground (arith, a.0) in
    rw
      (
        id,
        own,
        ordinary,
        mode,
        addr,
        inside,
        kept-pointers rest (at + x.i_data_len) a.2 (omega arith),
      )
      refl

pub starts-sent :
    (items : List SpeadApiItem) (at total : ℕ)
    → at + data_total items ≡ total
    → starts total (sent_items items at) ≡ at
starts-sent [] at total h = omega arith
starts-sent (x ∷ rest) at total h = refl

pub sent-Ascending :
    (items : List SpeadApiItem) (at total : ℕ)
    → at + data_total items ≡ total
    → Ascending total (sent_items items at)
sent-Ascending [] at total h = tt
sent-Ascending (x ∷ rest) at total h = (
  (λ d. omega (arith, starts-sent rest (at + x.i_data_len) total (omega arith))),
  sent-Ascending rest (at + x.i_data_len) total (omega arith),
)

pub length-sent_items :
    (items : List SpeadApiItem) (at : ℕ) → length (sent_items items at) ≡ length items
length-sent_items [] at = refl
length-sent_items (x ∷ rest) at = ap suc (length-sent_items rest (at + x.i_data_len))

pub sliced-sent :
    (items : List SpeadApiItem) (at total : ℕ) (front : List ℕ)
    → AllHeld items
    → at + data_total items ≡ total
    → length front ≡ at
    → sliced total (front ++ all_data items) (sent_items items at) ≡ with_data items
sliced-sent [] at total front a h len = refl
sliced-sent (x ∷ rest) at total front a h len =
    let tail = all_data rest in
    let long : length (held x) ≡ x.i_data_len =
      omega (arith, a.0, length-take x.i_data_len x.i_data) in
    let behind = starts-sent rest (at + x.i_data_len) total (omega arith) in
    let size : at + x.i_data_len - at ≡ x.i_data_len = omega arith in
    let start : at - length front ≡ 0 = omega (arith, len) in
    let bytes =
      ap (take x.i_data_len) (
        drop-append_right front (held x ++ tail) at (omega (arith, len))
        ∙ ap (λ k. drop k (held x ++ tail)) start)
      ∙ take-append (held x) tail x.i_data_len (omega (arith, long))
      ∙ take_all (held x) x.i_data_len (omega (arith, long)) in
    let others =
      ap (λ p. sliced total p (sent_items rest (at + x.i_data_len)))
        (sym (append_assoc front (held x) tail))
      ∙ sliced-sent rest (at + x.i_data_len) total (front ++ held x) a.1 (omega arith)
          (omega (arith, len, long, length-append front (held x))) in
    rw (behind, size, others, bytes) refl
