-- ===== src/Tests/TransferTests.antt =====
-- A group of two items, sent in two packets that a receiver has in a table of four slots.
use spead.Base.{
  ℕ, ◌+◌, ◌≡◌, refl, ap, arith, some, none, Option, List, [], ◌∷◌, ◌++◌, length, replicate,
  length-replicate,
}
use spead.Base.Int.{pos}
use spead.Packet.{SpeadPacket}
use spead.Packet.Word.{
  header_build, item_build, to_network, from_network, spead_item, item_id, item_mode, item_addr,
}
use spead.Packet.Unpack.{items_from}
use spead.ItemGroup.{SpeadApiItem, SpeadItemGroup, blank_item}
use spead.Receiver.Items.{is_header_id, new_item2}
use spead.Receiver.Convert.Deliver.{contents}
use spead.Receiver.Process.{process_items}
use spead.Receiver.Process.Group.{IsAmple}
use spead.Sender.Open.{data_total, pointers}
use spead.Sender.Close.{Conveys}
use spead.Transfer.Items.{with_data}
use spead.Transfer.Slots.{slot_table}
use spead.Transfer.Delivered.{IsTransfer, transfer_heap, packetized-delivers}
use spead.Tests.ReceiverTests.{raw, plenty}

abbrev items : List SpeadApiItem
items =
    record (blank_item 3) { i_id = 0x21; i_data_len = 3; i_data = 1 ∷ 2 ∷ 3 ∷ [] }
    ∷ record (blank_item 4) { i_id = 0x22; i_data_len = 4; i_data = 4 ∷ 5 ∷ 6 ∷ 7 ∷ [] }
    ∷ []

abbrev first_sent : SpeadPacket
first_sent =
    record (raw
      (item_build 1 1 7 ∷ item_build 1 2 7 ∷ item_build 1 3 0 ∷ item_build 1 4 5 ∷ pointers items 0)
      ((1 ∷ 2 ∷ 3 ∷ 4 ∷ 5 ∷ []) ++ replicate 9139 0)) {
        heap_cnt = pos 7;
        heap_len = pos 7;
        n_items = 6;
        payload_len = 5;
        payload = some (4096 + 56);
      }

abbrev second_sent : SpeadPacket
second_sent =
    record (raw (item_build 1 1 7 ∷ item_build 1 2 7 ∷ item_build 1 3 5 ∷ item_build 1 4 2 ∷ [])
      ((6 ∷ 7 ∷ []) ++ replicate 9158 0)) {
        heap_cnt = pos 7;
        heap_len = pos 7;
        n_items = 4;
        payload_len = 2;
        payload_off = 5;
        payload = some (4096 + 40);
      }

abbrev slots : List (Option SpeadPacket)
slots = some first_sent ∷ none ∷ some second_sent ∷ none ∷ []

first-Conveys : Conveys first_sent 2 7 7 0 (pointers items 0) (1 ∷ 2 ∷ 3 ∷ 4 ∷ 5 ∷ [])
unfolding header_build item_build to_network from_network spead_item item_id item_mode item_addr
    items_from
first-Conveys = record {
  framed = record {
    sized = ap (λ (k : ℕ). 61 + k) (length-replicate {A = ℕ} 9139 0);
    header = refl;
    heap = refl;
    len = refl;
    off = refl;
    pointers = refl;
  };
  measured = refl;
  n_items = refl;
  heap_cnt = refl;
  heap_len = refl;
  payload_off = refl;
  has_payload = record {
    start = 4096 + 56;
    points = refl;
    inside = omega arith;
    fits = omega (arith, length-replicate {A = ℕ} 9139 0);
  };
  carries = refl;
}

second-Conveys : Conveys second_sent 0 7 7 5 [] (6 ∷ 7 ∷ [])
unfolding header_build item_build to_network from_network spead_item item_id item_mode item_addr
    items_from
second-Conveys = record {
  framed = record {
    sized = ap (λ (k : ℕ). 42 + k) (length-replicate {A = ℕ} 9158 0);
    header = refl;
    heap = refl;
    len = refl;
    off = refl;
    pointers = refl;
  };
  measured = refl;
  n_items = refl;
  heap_cnt = refl;
  heap_len = refl;
  payload_off = refl;
  has_payload = record {
    start = 4096 + 40;
    points = refl;
    inside = omega arith;
    fits = omega (arith, length-replicate {A = ℕ} 9158 0);
  };
  carries = refl;
}

slots-IsTransfer : IsTransfer items 5 7 slots
slots-IsTransfer = record {
  held = (omega arith, (omega arith, tt));
  ordinary = (omega arith, omega arith, (omega arith, omega arith, tt));
  some_item = omega arith;
  few_items = omega arith;
  some_bytes = omega arith;
  few_bytes = omega arith;
  some_size = omega arith;
  small_size = omega arith;
  cut = (first-Conveys, omega arith, (second-Conveys, omega arith));
}

slots-IsAmple : IsAmple plenty (transfer_heap items 7 slots)
unfolding header_build item_build to_network from_network spead_item item_id item_mode item_addr
    is_header_id new_item2
slots-IsAmple = record {
  items = λ k. refl;
  stacks = λ k. refl;
  group = refl;
  mapping = refl;
  visits = refl;
  copies = omega arith;
}

packetized-delivers_example :
    (ig : SpeadItemGroup) × (process_items plenty
        (length (slot_table slots))
        (slot_table slots)
        (data_total items)
      ≡ some (some ig))
    × (contents ig.g_map ≡ with_data items)
packetized-delivers_example =
    packetized-delivers items 5 7 slots plenty slots-IsTransfer slots-IsAmple
