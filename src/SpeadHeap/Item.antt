-- ===== src/SpeadHeap/Item.antt =====
-- src/spead_packet.h and src/spead_packet.c: `struct spead_item`, an item taken out of a heap.
use spead.Base.{ℕ, Bool, false, Option, none, List}
use spead.Base.Int.{ℤ, negsuc}

-- `is_valid` holds 0 or 1; `val` is the block that `val` points at, `none` for NULL. The link `next`
-- is the list that a heap keeps.
pub record SpeadItem : Type 0 where
  pub is_valid : Bool
  pub id : ℤ
  pub val : Option (List ℕ)
  pub len : ℤ

-- `spead_item_init`
unfoldable pub spead_item_init : SpeadItem
spead_item_init = record { is_valid = false; id = negsuc 0; val = none; len = negsuc 0 }

-- `spead_item_wipe`: the block that is given to `free`, and the item afterwards.
unfoldable pub spead_item_wipe : SpeadItem → Option (List ℕ) × SpeadItem
unfolding spead_item_init
spead_item_wipe item = (item.val, spead_item_init)
