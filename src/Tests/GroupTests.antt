-- ===== src/Tests/GroupTests.antt =====
-- The theorems about src/itemgroup.c on a group of two items, with room for a third.
use spead.Base.{ℕ, ◌+◌, ◌≤◌, ◌<◌, ◌≡◌, refl, none, some, [], ◌∷◌, ◌++◌, arith, inr}
use spead.ItemGroup.{
  SpeadApiItem, SpeadItemGroup, item_struct, blank_item, new_item_from_group,
  get_spead_item_with_id,
}
use spead.ItemGroup.Cut.{IsGroup, new-IsGroup}
use spead.ItemGroup.Find.{with_id-find_id}

abbrev five : SpeadApiItem
five = record (blank_item 5) { i_id = 21; i_data_len = 2; i_data = 1 ∷ 2 ∷ 0 ∷ 0 ∷ 0 ∷ [] }

abbrev group : SpeadItemGroup
group = record { g_cd = 0; g_items = 2; g_size = 200; g_off = 88; g_map = blank_item 3 ∷ five ∷ [] }

group-IsGroup : IsGroup group
group-IsGroup = record {
  counted = refl;
  packed = refl;
  inside = omega arith;
  small = omega arith;
  sized = (omega arith, omega arith, refl, (omega arith, omega arith, refl, tt));
}

new-IsGroup_example :
    (0 < 4
      → group.g_off + (4 + item_struct) ≤ group.g_size
      → (g : SpeadItemGroup) × (new_item_from_group group 4 ≡ (some (blank_item 4), g))
        × IsGroup g
        × (g.g_map ≡ group.g_map ++ blank_item 4 ∷ [])
        × (g.g_off ≡ group.g_off + (4 + item_struct)))
    × (group.g_size < group.g_off + (4 + item_struct) → new_item_from_group group 4 ≡ (none, group))
    × (new_item_from_group group 0 ≡ (none, group))
new-IsGroup_example = new-IsGroup group 4 group-IsGroup (omega arith)

-- Behind the two items there are zeros, where a length can be read.
with_id-find_id_example : (off : ℕ) × (get_spead_item_with_id 3 group 21 9 ≡ some (some five, off))
with_id-find_id_example =
    with_id-find_id group 3 21 9 group-IsGroup (inr (omega arith)) (omega arith)
