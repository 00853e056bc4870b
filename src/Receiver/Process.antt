-- ===== src/Receiver/Process.antt =====
-- src/spead.c: `process_items`, which turns the packets of a heap into an item group. The two stacks of
-- the table are empty when it begins, and empty again when it returns.
pub mod Sliced
pub mod Group
use spead.Base.{ℕ, ◌+◌, ◌*◌, ◌%◌, ◌^◌, Bool, Option, none, some, List, []}
use spead.Base.Int.{pos, negsuc}
use spead.Packet.{SpeadPacket}
use spead.Stack.{Stack, funnel_stack, get_size_stack}
use spead.HashTable.{HashObject, inorder_traverse}
use spead.HashTable.Single.{end_single_traverse}
use spead.ItemGroup.{SpeadItemGroup, create_item_group}
use spead.Receiver.Items.{CoalesceData, int64_len, coalesce_spead_items, calculate_lengths}
use spead.Receiver.Convert.{convert_to_ig}

abbrev pub no_objects : Stack ℕ
no_objects = record { s_data = []; s_size = 0 }

-- The fields of `cd` at the start.
abbrev pub start_data : ℕ → CoalesceData
start_data count = record {
  d_stack = no_objects;
  d_imm = 0;
  d_len = count;
  d_off = 0;
  d_remaining = 0;
  d_items = [];
  d_calls = 0;
}

-- What `shared_malloc` answers to the callback of the traversal and to the first `funnel_stack`, what
-- `malloc` and `mmap` answer to `create_item_group`, and the fuel of the two traversals.
pub record Surroundings : Type 0 where
  pub item_memory : ℕ → Bool
  pub stack_memory : ℕ → Bool
  pub group_memory : Bool
  pub group_mapping : Bool
  pub visit_fuel : ℕ
  pub copy_fuel : ℕ

module _ (e : Surroundings) (len : ℕ) (os : List (List (HashObject SpeadPacket))) where
  -- From the group on: the item group, `none` for NULL.
  unfoldable pub fill_group :
      CoalesceData → Option (Stack ℕ) → SpeadItemGroup → Option (Option SpeadItemGroup)
  fill_group cd temp ig =
      elim (funnel_stack e.stack_memory temp none (some (convert_to_ig len os e.copy_fuel)) (
        some (record { p_c = record cd { d_off = 0 }; p_ig = ig; p_i = 0 }, end_single_traverse))) [
          | none ↦ none
          | some (r, s, t, none) ↦ none
          | some (negsuc n, s, t, some (cp, c)) ↦ some none
          | some (pos n, s, t, some (cp, c)) ↦ some (some cp.p_ig)
        ]

  -- From `create_item_group` on, with the items on the stack `temp`.
  unfoldable pub make_group : CoalesceData → Option (Stack ℕ) → Option (Option SpeadItemGroup)
  unfolding fill_group
  make_group cd temp =
      elim (create_item_group e.group_memory e.group_mapping
        ((cd.d_len + cd.d_imm * int64_len) % 2 ^ 64) (get_size_stack temp)) [
          | none ↦ some none
          | some ig ↦ fill_group cd temp ig
        ]

  -- From the first `funnel_stack` on.
  unfoldable pub size_items : CoalesceData → Option (Option SpeadItemGroup)
  unfolding make_group
  size_items cd =
      elim (funnel_stack e.stack_memory (some cd.d_stack) (some no_objects) (some calculate_lengths)
        cd) [
          | none ↦ none
          | some (negsuc n, s, t, cd') ↦ some none
          | some (pos n, s, t, cd') ↦ make_group cd' t
        ]

  -- `process_items` on a table with an array, of the given data count; `none` where a fuel has run out
  -- or something outside an array has been read.
  unfoldable pub process_items : ℕ → Option (Option SpeadItemGroup)
  unfolding size_items
  process_items count =
      elim (inorder_traverse e.visit_fuel (coalesce_spead_items e.item_memory) len os
        (some (start_data count))) [
          | none ↦ none
          | some (r, none) ↦ none
          | some (negsuc n, some cd) ↦ some none
          | some (pos n, some cd) ↦ size_items cd
        ]
