-- ===== src/SharedMem/Blocks.antt =====
-- src/sharedmem.c: where the blocks are that `shared_malloc` cuts from the regions.
use spead.Base.{
  ℕ, ap, ◌∙◌, suc, ◌+◌, ◌-◌, ◌*◌, ◌%◌, ◌^◌, ◌≤◌, ◌<◌, ◌≡◌, true, false, Option, none, some, List,
  ◌∷◌, ltb, leb, arith,
}
use spead.Base.Int.{pos, negsuc}
use spead.SharedMem.{
  SharedMemRegion, SharedMem, region_size, create_shared_mem_region, add_shared_mem_region,
  pop_free, cut_from, bump_from, shared_malloc, compare_shared_mem_size,
}
use spead.Avl.Add.{find_data_avltree}

-- The region with a block cut from it.
abbrev pub cut : SharedMemRegion → ℕ → SharedMemRegion
cut r size = record r { r_off = r.r_off + size }

-- The region that a mapping makes.
abbrev pub new_region : SharedMem → ℕ → SharedMemRegion
new_region m ptr = record { r_id = m.m_next_id; r_size = region_size; r_off = 0; r_ptr = ptr }

module _ (area : ℕ → Option ℕ) (m : SharedMem) where
  add_region-none :
      area m.m_maps ≡ none
      → add_shared_mem_region area m region_size ≡ (negsuc 0, record m { m_maps = suc m.m_maps })
  unfolding add_shared_mem_region create_shared_mem_region
  add_region-none failed = rw failed

  add_region-some :
      (ptr : ℕ)
      → area m.m_maps ≡ some ptr
      → add_shared_mem_region area m region_size ≡ (
        pos 0,
        record m {
          m_current = new_region m ptr ∷ m.m_current;
          m_next_id = (m.m_next_id + 1) % 2 ^ 64;
          m_maps = suc m.m_maps;
        },
      )
  unfolding add_shared_mem_region create_shared_mem_region
  add_region-some ptr mapped = rw mapped

  -- Where no block of the size is free, the list of regions decides.
  malloc-bump :
      (l : List SharedMemRegion) (size : ℕ)
      → m.m_current ≡ l
      → 8 ≤ size
      → pop_free m (find_data_avltree compare_shared_mem_size m.m_free size) ≡ none
      → shared_malloc area m size ≡ bump_from area m l size
  unfolding shared_malloc
  malloc-bump l size now least none_free =
      let large : ltb size 8 ≡ false = ground arith in
      rw (large, none_free, shared_malloc) (ap (λ t. bump_from area m t size) now)

-- `shared_malloc` of 8 bytes or more where no block of that size is free, on a current region of less
-- than 2 ^ 63 bytes that is not overrun: a block that fits is cut from the region, behind all blocks
-- before and up to the end at most. Where it does not fit, and the offset and the size together are
-- below 2 ^ 64, a region of 1 MB is mapped; the result is NULL if that fails, and else a block from the
-- start of the new region, which is inside it exactly if it has 1 MB at most. Where they are 2 ^ 64 or more,
-- nothing is mapped: the result is a block at the region's offset, and the offset goes down.
pub shared_malloc-cuts :
    (area : ℕ → Option ℕ) (m : SharedMem) (r : SharedMemRegion) (rest : List SharedMemRegion)
    (size : ℕ)
    → m.m_current ≡ r ∷ rest
    → r.r_off ≤ r.r_size
    → r.r_size < 2 ^ 63
    → 8 ≤ size
    → size < 2 ^ 64
    → pop_free m (find_data_avltree compare_shared_mem_size m.m_free size) ≡ none
    → (r.r_off + size ≤ r.r_size
        → shared_malloc area m size
          ≡ (some (r.r_ptr + r.r_off), record m { m_current = cut r size ∷ rest }))
      × (r.r_size < r.r_off + size
          → r.r_off + size < 2 ^ 64
          → area m.m_maps ≡ none
          → shared_malloc area m size ≡ (none, record m { m_maps = suc m.m_maps }))
      × (r.r_size < r.r_off + size
          → r.r_off + size < 2 ^ 64
          → (ptr : ℕ) → area m.m_maps ≡ some ptr
          → (shared_malloc area m size ≡ (
            some ptr,
            record m {
              m_current = cut (new_region m ptr) size ∷ m.m_current;
              m_next_id = (m.m_next_id + 1) % 2 ^ 64;
              m_maps = suc m.m_maps;
            },
          ))
            × (leb (cut (new_region m ptr) size).r_off region_size ≡ leb size (1024 * 1024)))
      × (2 ^ 64 ≤ r.r_off + size
          → (shared_malloc area m size ≡ (
            some (r.r_ptr + r.r_off),
            record m { m_current = record r { r_off = r.r_off + size - 2 ^ 64 } ∷ rest },
          ))
            × (r.r_off + size - 2 ^ 64 < r.r_off))
unfolding bump_from cut_from
shared_malloc-cuts area m r rest size now inside few least small none_free =
    let bumped = malloc-bump area m (r ∷ rest) size now least none_free in
    (
      (λ fits.
          let sum : (size + r.r_off) % 2 ^ 64 ≡ size + r.r_off = omega arith in
          let end : (r.r_off + size) % 2 ^ 64 ≡ r.r_off + size = omega arith in
          let ok : ltb r.r_size (size + r.r_off) ≡ false = ground arith in
          bumped ∙ rw (bump_from, sum, ok, end)),
      (λ full whole failed.
          let sum : (size + r.r_off) % 2 ^ 64 ≡ size + r.r_off = omega arith in
          let over : ltb r.r_size (size + r.r_off) ≡ true = ground arith in
          let added = add_region-none area m failed in
          bumped ∙ rw (bump_from, sum, over, added) (rw added)),
      (λ full whole ptr mapped.
          let sum : (size + r.r_off) % 2 ^ 64 ≡ size + r.r_off = omega arith in
          let over : ltb r.r_size (size + r.r_off) ≡ true = ground arith in
          let start : (0 + size) % 2 ^ 64 ≡ 0 + size = omega arith in
          let place : ptr + 0 ≡ ptr = omega arith in
          let added = add_region-some area m ptr mapped in
          let off : 0 + size ≡ size = omega arith in
          (
            bumped ∙ rw (bump_from, sum, over, added) (rw (added, start, place)),
            ap (λ k. leb k region_size) off,
          )),
      (λ wraps.
          let sum : (size + r.r_off) % 2 ^ 64 ≡ size + r.r_off - 2 ^ 64 = omega arith in
          let end : (r.r_off + size) % 2 ^ 64 ≡ r.r_off + size - 2 ^ 64 = omega arith in
          let ok : ltb r.r_size (size + r.r_off - 2 ^ 64) ≡ false = ground arith in
          (bumped ∙ rw (bump_from, sum, ok, end), omega arith)),
    )
