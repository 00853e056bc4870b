-- ===== src/Tests/ReceiverTests.antt =====
-- The receiver on a heap of two packets with three items.
use spead.Base.{ℕ, ◌+◌, arith, ◌≡◌, refl, true, none, some, List, [], ◌∷◌, ◌++◌, length}
use spead.Base.Int.{pos}
use spead.Packet.{SpeadPacket, spead_err}
use spead.Packet.Word.{
  header_build, item_build, to_network, from_network, spead_item, item_id, item_mode, item_addr,
}
use spead.Receiver.Items.{SpeadApiItem2, CoalesceData, is_header_id, new_item2}
use spead.Receiver.Items.Whole.{Listed, tables, flat, heap_items, heap_bytes}
use spead.Receiver.Convert.{le_bytes}
use spead.Receiver.Convert.Place.{table_payload}
use spead.Receiver.Convert.Part.{Carries}
use spead.Receiver.Process.{Surroundings, start_data}
use spead.Receiver.Process.Sliced.{sliced}
use spead.Receiver.Process.Group.{IsHeap, IsAmple}

abbrev pub words : List ℕ → List ℕ
words [] = []
words (w ∷ ws) = to_network 8 w ++ words ws

abbrev pub raw : List ℕ → List ℕ → SpeadPacket
raw ws payload = record {
  heap_cnt = spead_err;
  heap_len = spead_err;
  n_items = 0;
  is_stream_ctrl_term = 0;
  payload_len = 0;
  payload_off = 0;
  data_addr = 4096;
  bytes = words (header_build (length ws) ∷ ws) ++ payload;
  payload = none;
}

abbrev pub first_raw : SpeadPacket
first_raw =
    raw
      (item_build 1 1 7
        ∷ item_build 1 2 5
        ∷ item_build 1 3 0
        ∷ item_build 1 4 3
        ∷ item_build 0 0x21 0
        ∷ item_build 0 0x22 2
        ∷ item_build 1 0x23 513
        ∷ [])
      (0xaa ∷ 0xbb ∷ 0xcc ∷ [])

abbrev pub second_raw : SpeadPacket
second_raw =
    raw (item_build 1 1 7 ∷ item_build 1 2 5 ∷ item_build 1 3 3 ∷ item_build 1 4 2 ∷ [])
      (0xdd ∷ 0xee ∷ [])

abbrev pub plenty : Surroundings
plenty = record {
  item_memory = λ k. true;
  stack_memory = λ k. true;
  group_memory = true;
  group_mapping = true;
  visit_fuel = 10;
  copy_fuel = 20;
}

-- The packets once their items are unpacked, with their item pointers.
abbrev pub first_pointers : List ℕ
first_pointers =
    item_build 1 1 7
    ∷ item_build 1 2 5
    ∷ item_build 1 3 0
    ∷ item_build 1 4 3
    ∷ item_build 0 0x21 0
    ∷ item_build 0 0x22 2
    ∷ item_build 1 0x23 513
    ∷ []

abbrev pub second_pointers : List ℕ
second_pointers = item_build 1 1 7 ∷ item_build 1 2 5 ∷ item_build 1 3 3 ∷ item_build 1 4 2 ∷ []

abbrev pub first : SpeadPacket
first = record first_raw {
  heap_cnt = pos 7;
  heap_len = pos 5;
  n_items = 7;
  payload_len = 3;
  payload = some (4096 + 64);
}

abbrev pub second : SpeadPacket
second = record second_raw {
  heap_cnt = pos 7;
  heap_len = pos 5;
  n_items = 4;
  payload_len = 2;
  payload_off = 3;
  payload = some (4096 + 40);
}

abbrev pub heap : List (List Listed)
heap = ((first, first_pointers) ∷ []) ∷ [] ∷ ((second, second_pointers) ∷ []) ∷ [] ∷ []

first-Carries : Carries first
unfolding header_build item_build to_network from_network spead_item item_id item_mode item_addr
    is_header_id new_item2
first-Carries = record {
  some_bytes = omega arith;
  few_bytes = omega arith;
  has_payload = record {
    start = 4096 + 64;
    points = refl;
    inside = omega arith;
    fits = omega arith;
  };
}

second-Carries : Carries second
unfolding header_build item_build to_network from_network spead_item item_id item_mode item_addr
    is_header_id new_item2
second-Carries = record {
  some_bytes = omega arith;
  few_bytes = omega arith;
  has_payload = record {
    start = 4096 + 40;
    points = refl;
    inside = omega arith;
    fits = omega arith;
  };
}

pub heap-IsHeap : IsHeap heap
unfolding header_build item_build to_network from_network spead_item item_id item_mode item_addr
    is_header_id new_item2
heap-IsHeap = record {
  listed = (
    refl,
    (refl, (refl, (refl, (refl, (refl, (refl, (refl, tt))))))),
    (refl, (refl, (refl, (refl, (refl, tt)))), tt),
  );
  plain = (first-Carries, (tt, (second-Carries, (tt, tt))));
  ascending = ((λ e. omega arith), ((λ e. omega arith), ((λ e. absurd (cc e)), tt)));
  from_zero = refl;
  some_item = omega arith;
  few_pointers = omega arith;
  few_bytes = omega arith;
}

pub plenty-IsAmple : IsAmple plenty heap
unfolding header_build item_build to_network from_network spead_item item_id item_mode item_addr
    is_header_id new_item2
plenty-IsAmple = record {
  items = λ k. refl;
  stacks = λ k. refl;
  group = refl;
  mapping = refl;
  visits = refl;
  copies = omega arith;
}

-- What these items hold.
heap_slices :
    sliced (heap_bytes (flat heap)) (table_payload (tables heap)) (heap_items (flat heap))
    ≡ (0x21, 0xaa ∷ 0xbb ∷ [])
      ∷ (0x22, 0xcc ∷ 0xdd ∷ 0xee ∷ [])
      ∷ (0x23, 1 ∷ 2 ∷ 0 ∷ 0 ∷ 0 ∷ 0 ∷ 0 ∷ 0 ∷ [])
      ∷ []
unfolding header_build item_build to_network from_network spead_item item_id item_mode item_addr
    is_header_id new_item2 le_bytes
heap_slices = refl

-- Three items of a payload of 20 bytes, one of them a value.
abbrev three_items : List SpeadApiItem2
three_items =
    record { i_id = 1; i_mode = 0; i_off = 0; i_len = 0 }
    ∷ record { i_id = 2; i_mode = 1; i_off = 99; i_len = 0 }
    ∷ record { i_id = 3; i_mode = 0; i_off = 12; i_len = 0 }
    ∷ []

abbrev before_lengths : CoalesceData
before_lengths = record (start_data 20) { d_off = 20; d_items = three_items }
