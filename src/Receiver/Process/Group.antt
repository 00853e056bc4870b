-- ===== src/Receiver/Process/Group.antt =====
-- src/spead.c: the item group that `process_items` makes of a complete heap.
use spead.Base.{
  ℕ, zero, suc, ◌+◌, ◌%◌, ◌*◌, ◌^◌, ◌≤◌, ◌<◌, ◌≡◌, refl, ap, ◌∙◌, true, false, some, List, [], ◌∷◌,
  ◌==◌, length, drop, arith, length-append,
}
use spead.SpeadHeap.Finalize.Extract.{payload_bytes, length-payload_bytes}
use spead.Stack.{get_size_stack}
use spead.Stack.Lifo.{of_list}
use spead.Stack.Funnel.{funnel-drained}
use spead.HashTable.Traverse.{rounds}
use spead.HashTable.Single.{end_single_traverse}
use spead.ItemGroup.{SpeadItemGroup, create_item_group}
use spead.Receiver.Items.{SpeadApiItem2, int64_len, CoalesceData, coalesce_spead_items}
use spead.Receiver.Items.Lengths.{
  starts, tiled, Ascending, values, in_order, addresses, tiled-total, calculate_lengths-tile,
}
use spead.Receiver.Items.Whole.{
  Listed, AllListed, tables, flat, objects, heap_items, heap_bytes, pointer_count,
  length-heap_items, heap_bytes-append, heap-collects,
}
use spead.Receiver.Convert.{Parcel, convert_to_ig}
use spead.Receiver.Convert.Place.{AllPlain, IsPlain, chain_payload, table_payload, at_start}
use spead.Receiver.Convert.Deliver.{Delivered, contents, space, deliver_all}
use spead.Receiver.Process.{
  Surroundings, start_data, fill_group, make_group, size_items, process_items,
}
use spead.Receiver.Process.Sliced.{sliced, delivered-sliced, tiled-AllSupplied, space-tiled}

-- The heap is complete and well formed: the item pointers are known, at most one packet stands at an
-- index and carries some bytes, the items' offsets ascend from 0 to the end of the payload, there is an item, and the group
-- is not too large.
pub record IsHeap (heap : List (List Listed)) : Type 0 where
  pub listed : AllListed (flat heap)
  pub plain : AllPlain (tables heap)
  pub ascending : Ascending (heap_bytes (flat heap)) (heap_items (flat heap))
  pub from_zero : starts (heap_bytes (flat heap)) (heap_items (flat heap)) ≡ 0
  pub some_item : 0 < length (heap_items (flat heap))
  pub few_pointers : pointer_count (flat heap) < 2 ^ 56
  pub few_bytes : heap_bytes (flat heap) < 2 ^ 61

-- Every request for memory is granted, and the fuel is that of the traversal and of the longest copy.
pub record IsAmple (e : Surroundings) (heap : List (List Listed)) : Type 0 where
  pub items : (k : ℕ) → e.item_memory k ≡ true
  pub stacks : (k : ℕ) → e.stack_memory k ≡ true
  pub group : e.group_memory ≡ true
  pub mapping : e.group_mapping ≡ true
  pub visits : e.visit_fuel ≡ rounds (coalesce_spead_items e.item_memory) (tables heap)
  pub copies : heap_bytes (flat heap) ≤ e.copy_fuel

length-in_order : (base n : ℕ) → length (in_order base n) ≡ n
length-in_order base zero = refl
length-in_order base (suc n) = ap suc (length-in_order (suc base) n)

length-tiled : (total : ℕ) (xs : List SpeadApiItem2) → length (tiled total xs) ≡ length xs
length-tiled total [] = refl
length-tiled total (x ∷ xs) = ap suc (length-tiled total xs)

values-bound : (xs : List SpeadApiItem2) → values xs ≤ length xs
values-bound [] = omega arith
values-bound (x ∷ xs) = ground (arith, values-bound xs)

chain-length :
    (l : List Listed) → IsPlain (objects l) → length (chain_payload (objects l)) ≡ heap_bytes l
chain-length [] a = refl
chain-length ((p, ws) ∷ []) a =
    length-append (payload_bytes p) [] ∙ omega (arith, length-payload_bytes p a.has_payload)
chain-length ((p, ws) ∷ (q, vs) ∷ l) a = elim a [ ]

payload-length :
    (heap : List (List Listed))
    → AllPlain (tables heap)
    → length (table_payload (tables heap)) ≡ heap_bytes (flat heap)
payload-length [] a = refl
payload-length (l ∷ heap) a =
    length-append (chain_payload (objects l)) (table_payload (tables heap))
    ∙ omega
        (arith, chain-length l (a.0), payload-length heap (a.1), heap_bytes-append l (flat heap))

module _ (heap : List (List Listed)) (h : IsHeap heap) (e : Surroundings)
    (ample : IsAmple e heap) where
  -- The heap's items and payload.
  abbrev items : List SpeadApiItem2
  items = heap_items (flat heap)

  abbrev total : ℕ
  total = heap_bytes (flat heap)

  abbrev count : ℕ
  count = length items

  -- The state after the lengths are known.
  abbrev sized : CoalesceData
  sized = record (start_data total) {
    d_stack = of_list (addresses 0 count);
    d_imm = values items;
    d_off = 0;
    d_items = tiled total items;
    d_calls = 2 * count;
  }

  abbrev room : SpeadItemGroup
  room = record {
    g_cd = 0;
    g_items = 0;
    g_size = total + values items * 8 + count * 40;
    g_off = 0;
    g_map = [];
  }

  abbrev fresh : Parcel
  fresh = record { p_c = sized; p_ig = room; p_i = 0 }

  room_small : total + values items * 8 + count * 40 < 2 ^ 63
  room_small =
      omega (arith, h.few_bytes, h.few_pointers, values-bound items, length-heap_items (flat heap))

  all-Delivered :
      Delivered
        (tables heap)
        e.copy_fuel
        0
        (tiled total items)
        (table_payload (tables heap))
        fresh
        end_single_traverse
  unfolding end_single_traverse
  all-Delivered =
      let payload = table_payload (tables heap) in
      let whole : drop (starts total items) payload ≡ payload =
        ap (λ k. drop k payload) h.from_zero in
      let supplied = rw whole at (
        tiled-AllSupplied e.copy_fuel total payload items h.ascending
          (payload-length heap (h.plain)) ample.copies) in
      let needed : space (tiled total items) ≤ total + values items * 8 + count * 40 =
        omega (arith, space-tiled total items, tiled-total total items h.ascending) in
      deliver_all (tables heap) e.copy_fuel [] (tiled total items) payload fresh end_single_traverse
        refl (at_start (tables heap) refl refl refl h.plain refl) refl supplied
        (omega (arith, needed)) room_small

  filled :
      (ig : SpeadItemGroup) × (fill_group e
          (length (tables heap))
          (tables heap)
          sized
          (some (of_list (in_order 0 count)))
          room
        ≡ some (some ig))
      × (contents ig.g_map ≡ sliced total (table_payload (tables heap)) items)
  unfolding fill_group
  filled =
      let payload = table_payload (tables heap) in
      let d = all-Delivered in
      let len = length-tiled total items in
      let drained =
        funnel-drained (some (convert_to_ig (length (tables heap)) (tables heap) e.copy_fuel))
          e.stack_memory (in_order 0 count) (some (fresh, end_single_traverse))
          (rw len at (d.accepts)) in
      let after = rw len at (d.after) in
      let whole : drop (starts total items) payload ≡ payload =
        ap (λ k. drop k payload) h.from_zero in
      (
        d.parcel.p_ig,
        rw (fill_group, drained, after) refl,
        d.holds ∙ rw whole at (delivered-sliced total payload items h.ascending),
      )

  created :
      create_item_group e.group_memory e.group_mapping
        ((total + (0 + values items) * int64_len) % 2 ^ 64)
        (length (in_order 0 count))
      ≡ some room
  unfolding create_item_group
  created =
      let n = length-in_order 0 count in
      let not_empty : (count == 0) ≡ false = ground (arith, h.some_item) in
      let size : ((total + (0 + values items) * 8) % 2 ^ 64 + count * 40) % 2 ^ 64
          ≡ total + values items * 8 + count * 40 =
        omega (arith, room_small) in
      rw (n, not_empty, ample.group, ample.mapping, size)

  -- The funnel of the lengths, and the group.
  made :
      (ig : SpeadItemGroup) × (size_items e
          (length (tables heap))
          (tables heap)
          (record (start_data total) {
            d_stack = of_list (addresses 0 count);
            d_off = total;
            d_items = items;
            d_calls = 2 * count;
          })
        ≡ some (some ig))
      × (contents ig.g_map ≡ sliced total (table_payload (tables heap)) items)
  unfolding size_items make_group get_size_stack
  made =
      let (ig, run, holds) = filled in
      let (funnel, sum) =
        calculate_lengths-tile e.stack_memory
          (record (start_data total) {
            d_stack = of_list (addresses 0 count);
            d_off = total;
            d_items = items;
            d_calls = 2 * count;
          })
          ample.stacks h.ascending (omega (arith, h.few_bytes))
          (omega (arith, h.few_pointers, length-heap_items (flat heap))) in
      let imm : 0 + values items ≡ values items = omega arith in
      (ig, rw (size_items, funnel) (rw (make_group, created, h.from_zero, imm) run), holds)

pub process_items-delivers :
    (heap : List (List Listed)) (e : Surroundings)
    → IsHeap heap
    → IsAmple e heap
    → (ig : SpeadItemGroup) × (process_items e
          (length (tables heap))
          (tables heap)
          (heap_bytes (flat heap))
        ≡ some (some ig))
      × (contents ig.g_map
          ≡ sliced (heap_bytes (flat heap)) (table_payload (tables heap)) (heap_items (flat heap)))
unfolding process_items
process_items-delivers heap e h ample =
    let (ig, run, holds) = made heap h e ample in
    let bytes : (0 + heap_bytes (flat heap)) % 2 ^ 64 ≡ heap_bytes (flat heap) =
      omega (arith, h.few_bytes) in
    let calls : 0 + 2 * length (heap_items (flat heap)) ≡ 2 * length (heap_items (flat heap)) =
      omega arith in
    let collects =
      heap-collects e.item_memory ample.items heap (start_data (heap_bytes (flat heap))) h.listed
        refl (omega arith) (omega (arith, h.few_pointers)) in
    (ig, rw (ample.visits, process_items, collects) (rw (bytes, calls) run), holds)
