-- ===== src/Transfer/Delivered.antt =====
-- src/spead.c: `process_items` of the receiver on the packets of `packetize_item_group`.
use mathlib.Core.List.{append-nil}
use spead.Base.{
  ℕ, suc, ◌+◌, ◌*◌, ◌^◌, ◌≤◌, ◌<◌, ◌≡◌, refl, ap, ◌∙◌, Option, some, none, List, [], ◌∷◌, ◌++◌,
  length, arith, length-append,
}
use spead.Packet.{SpeadPacket}
use spead.SpeadHeap.Finalize.Extract.{chain_bytes, payload_bytes, length-payload_bytes}
use spead.ItemGroup.{SpeadApiItem, SpeadItemGroup}
use spead.Receiver.Items.Collect.{kept}
use spead.Receiver.Items.Whole.{Listed, AllListed, flat, heap_items, heap_bytes, pointer_count}
use spead.Receiver.Convert.Place.{AllPlain, table_payload}
use spead.Receiver.Convert.Deliver.{contents}
use spead.Receiver.Process.{Surroundings, process_items}
use spead.Receiver.Process.Group.{IsHeap, IsAmple, process_items-delivers}
use spead.Sender.Open.{all_data, data_total, AllHeld, length-all_data, pointers}
use spead.Sender.Close.{AllOrdinary}
use spead.Sender.Cut.{Chunks, Chunks-bytes}
use spead.Transfer.Items.{
  sent_items, with_data, kept-pointers, starts-sent, sent-Ascending, length-sent_items, sliced-sent,
}
use spead.Transfer.Slots.{
  in_slots, slot_table, AllSent, Chunks-AllSent, slot_heap, tables-slot_heap, payload-slots,
  sent-Listed, sent-Carries, sent_len, kept-own,
}

slots-Listed :
    (hid total m : ℕ) (ws : List ℕ) (slots : List (Option SpeadPacket))
    → AllSent hid total m ws (in_slots slots)
    → AllListed (flat (slot_heap hid total ws slots))
slots-Listed hid total m ws [] a = tt
slots-Listed hid total m ws (none ∷ slots) a = slots-Listed hid total m ws slots a
slots-Listed hid total m ws (some p ∷ slots) (s, a) =
    let (len, all) = sent-Listed hid total m ws p s in
    (len, all, slots-Listed hid total 0 [] slots a)

slots-Plain :
    (hid total m : ℕ) (ws : List ℕ) (slots : List (Option SpeadPacket))
    → AllSent hid total m ws (in_slots slots)
    → AllPlain (slot_table slots)
slots-Plain hid total m ws [] a = tt
slots-Plain hid total m ws (none ∷ slots) a = (tt, slots-Plain hid total m ws slots a)
slots-Plain hid total m ws (some p ∷ slots) (s, a) =
    (sent-Carries hid total m ws p s, slots-Plain hid total 0 [] slots a)

items-later :
    (hid total : ℕ) (slots : List (Option SpeadPacket))
    → heap_items (flat (slot_heap hid total [] slots)) ≡ []
items-later hid total [] = refl
items-later hid total (none ∷ slots) = items-later hid total slots
items-later hid total (some p ∷ slots) =
    ap (λ xs. xs ++ heap_items (flat (slot_heap hid total [] slots)))
      (kept-own hid total p.payload_off p.payload_len [])
    ∙ items-later hid total slots

items-slots :
    (hid total : ℕ) (ws : List ℕ) (slots : List (Option SpeadPacket))
    → 0 < length (in_slots slots)
    → heap_items (flat (slot_heap hid total ws slots)) ≡ kept ws
items-slots hid total ws [] some_packet = absurd (omega (arith, some_packet))
items-slots hid total ws (none ∷ slots) some_packet = items-slots hid total ws slots some_packet
items-slots hid total ws (some p ∷ slots) some_packet =
    ap (λ xs. xs ++ heap_items (flat (slot_heap hid total [] slots)))
      (kept-own hid total p.payload_off p.payload_len ws)
    ∙ ap (λ xs. kept ws ++ xs) (items-later hid total slots)
    ∙ append-nil (kept ws)

bytes-slots :
    (hid total m : ℕ) (ws : List ℕ) (slots : List (Option SpeadPacket))
    → AllSent hid total m ws (in_slots slots)
    → heap_bytes (flat (slot_heap hid total ws slots)) ≡ length (chain_bytes (in_slots slots))
bytes-slots hid total m ws [] a = refl
bytes-slots hid total m ws (none ∷ slots) a = bytes-slots hid total m ws slots a
bytes-slots hid total m ws (some p ∷ slots) (s, a) = omega (
  arith,
  bytes-slots hid total 0 [] slots a,
  length-append (payload_bytes p) (chain_bytes (in_slots slots)),
  length-payload_bytes p s.conveys.has_payload,
)

pointers-slots :
    (hid total m : ℕ) (ws : List ℕ) (slots : List (Option SpeadPacket))
    → AllSent hid total m ws (in_slots slots)
    → pointer_count (flat (slot_heap hid total ws slots))
      ≤ length ws + 4 * heap_bytes (flat (slot_heap hid total ws slots))
pointers-slots hid total m ws [] a = omega arith
pointers-slots hid total m ws (none ∷ slots) a = pointers-slots hid total m ws slots a
pointers-slots hid total m ws (some p ∷ slots) (s, a) =
    omega (arith, pointers-slots hid total 0 [] slots a, sent_len hid total m ws p s, s.some_bytes)

length-pointers : (items : List SpeadApiItem) (at : ℕ) → length (pointers items at) ≡ length items
length-pointers [] at = refl
length-pointers (x ∷ rest) at = ap suc (length-pointers rest (at + x.i_data_len))

-- The slots hold the packets of a group, in their order.
pub record IsTransfer (items : List SpeadApiItem) (n hid : ℕ) (slots : List (Option SpeadPacket))
    : Type 0 where
  pub held : AllHeld items
  pub ordinary : AllOrdinary items
  pub some_item : 0 < length items
  pub few_items : length items < 2 ^ 40
  pub some_bytes : 0 < data_total items
  pub few_bytes : data_total items < 2 ^ 40
  pub some_size : 0 < n
  pub small_size : n < 2 ^ 31
  pub cut :
      Chunks n hid
        (data_total items)
        (length items)
        (pointers items 0)
        0
        (all_data items)
        (in_slots slots)

-- The table of these slots, with the item pointers of its packets.
abbrev pub transfer_heap : List SpeadApiItem → ℕ → List (Option SpeadPacket) → List (List Listed)
transfer_heap items hid slots = slot_heap hid (data_total items) (pointers items 0) slots

Chunks-some :
    (n hid total m at : ℕ) (ws left : List ℕ) (packets : List SpeadPacket)
    → Chunks n hid total m ws at left packets
    → 0 < length packets
Chunks-some n hid total m at ws left [] c = elim c [ ]
Chunks-some n hid total m at ws left (p ∷ rest) c = omega arith

module _ (items : List SpeadApiItem) (n hid : ℕ) (slots : List (Option SpeadPacket))
    (t : IsTransfer items n hid slots) where
  all_sent : AllSent hid (data_total items) (length items) (pointers items 0) (in_slots slots)
  all_sent =
      Chunks-AllSent n hid (data_total items) (length items) 0 (pointers items 0) (all_data items)
        (in_slots slots) t.some_size t.small_size
        (omega (arith, t.some_bytes, length-all_data items t.held)) t.cut

  joined : chain_bytes (in_slots slots) ≡ all_data items
  joined =
      Chunks-bytes n hid (data_total items) (length items) 0 (pointers items 0) (all_data items)
        (in_slots slots) t.cut

  transfer_bytes : heap_bytes (flat (transfer_heap items hid slots)) ≡ data_total items
  transfer_bytes =
      bytes-slots hid (data_total items) (length items) (pointers items 0) slots all_sent
      ∙ ap length joined
      ∙ length-all_data items t.held

  transfer_items : heap_items (flat (transfer_heap items hid slots)) ≡ sent_items items 0
  transfer_items =
      items-slots hid (data_total items) (pointers items 0) slots (
        Chunks-some n hid (data_total items) (length items) 0 (pointers items 0) (all_data items)
          (in_slots slots) t.cut)
      ∙ kept-pointers items 0 t.ordinary (omega (arith, t.few_bytes))

  pub transfer-IsHeap : IsHeap (transfer_heap items hid slots)
  transfer-IsHeap =
      let total = data_total items in
      let start : 0 + total ≡ total = omega arith in
      record {
        listed = slots-Listed hid total (length items) (pointers items 0) slots all_sent;
        plain =
            rw (tables-slot_heap hid total (pointers items 0) slots)
              (slots-Plain hid total (length items) (pointers items 0) slots all_sent);
        ascending = rw (transfer_bytes, transfer_items) (sent-Ascending items 0 total start);
        from_zero = rw (transfer_bytes, transfer_items) (starts-sent items 0 total start);
        some_item = rw transfer_items (omega (arith, length-sent_items items 0, t.some_item));
        few_pointers = omega (
          arith,
          pointers-slots hid total (length items) (pointers items 0) slots all_sent,
          transfer_bytes,
          length-pointers items 0,
          t.few_items,
          t.few_bytes,
        );
        few_bytes = omega (arith, transfer_bytes, t.few_bytes);
      }

  transfer_payload : table_payload (slot_table slots) ≡ all_data items
  transfer_payload = payload-slots slots ∙ joined

-- When the slots of a table hold, one a slot and in their order, packets with a group's item pointers
-- and its data cut into pieces of `n` bytes, `process_items` on that table, with the data's length as
-- the heap's, with every request for memory granted and enough fuel, returns an item group whose items
-- are, in their order, those of the sent group that have data: each has its id and its data. The ids of
-- the sent items are above 6, the greatest that the packets use themselves, and below 2 ^ 23; the items
-- hold their data, which is not empty in all and shorter than 2 ^ 40; they are at least one and fewer than
-- 2 ^ 40; and `n` is from 1 to 2 ^ 31 - 1.
pub packetized-delivers :
    (items : List SpeadApiItem) (n hid : ℕ) (slots : List (Option SpeadPacket)) (e : Surroundings)
    → IsTransfer items n hid slots
    → IsAmple e (transfer_heap items hid slots)
    → (ig : SpeadItemGroup) × (process_items e
          (length (slot_table slots))
          (slot_table slots)
          (data_total items)
        ≡ some (some ig))
      × (contents ig.g_map ≡ with_data items)
packetized-delivers items n hid slots e t ample =
    let total = data_total items in
    let same = tables-slot_heap hid total (pointers items 0) slots in
    let (ig, run, holds) =
      process_items-delivers (transfer_heap items hid slots) e (transfer-IsHeap items n hid slots t)
        ample in
    (
      ig,
      rw (same, transfer_bytes items n hid slots t) at run,
      rw
            (
              same,
              transfer_bytes items n hid slots t,
              transfer_items items n hid slots t,
              transfer_payload items n hid slots t,
            )
            at holds
          ∙ sliced-sent items 0 total [] t.held (omega arith) refl,
    )
