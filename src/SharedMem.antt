-- ===== src/SharedMem.antt =====
-- src/sharedmem.c: blocks of shared memory, cut one behind the other from mapped regions, and kept for
-- each size in a list of free blocks once they are given back. `area k` is where the k-th `mmap` of a
-- region stands, `none` where a mapping fails. The groups of free blocks are kept in the tree of
-- src/avltree.c by their size; the tree holds the place of a group in `m_sizes`. A free block holds
-- the link of its list, `f_next`: the links are a function from addresses, and a list is the address of
-- its first block, 0 for NULL. What else is written into blocks is left out. Each function is one
-- critical section.
pub mod Blocks
pub mod Free
use spead.Base.{
  ℕ, zero, suc, ◌+◌, ◌*◌, ◌-◌, ◌%◌, ◌^◌, Bool, true, false, ◌||◌, Option, none, some, List, [], ◌∷◌,
  ◌++◌, ◌==◌, ltb, if◌then◌else◌, length, get_elem?, set,
}
use spead.Base.Int.{ℤ, pos, negsuc}
use spead.Avl.{AvlTree}
use spead.Avl.Add.{find_data_avltree, add_node_avltree}

-- `SHARED_MEM_REGION_SIZE`, and the sizes of `struct shared_mem_free`, `struct shared_mem_size` and
-- `struct avl_node`.
abbrev pub region_size : ℕ
region_size = 1024 * 1024

abbrev pub free_struct : ℕ
free_struct = 8

abbrev pub size_struct : ℕ
size_struct = 24

abbrev pub node_struct : ℕ
node_struct = 48

-- `struct shared_mem_region`
pub record SharedMemRegion : Type 0 where
  pub r_id : ℕ
  pub r_size : ℕ
  pub r_off : ℕ
  pub r_ptr : ℕ

-- `struct shared_mem`: the regions from `m_current` along `r_next`, the tree `m_free` with the first
-- blocks `s_top` of its groups, the field `f_next` of each block, and the number of mappings so far.
pub record SharedMem : Type 0 where
  pub m_current : List SharedMemRegion
  pub m_next_id : ℕ
  pub m_free : AvlTree ℕ ℕ
  pub m_sizes : List ℕ
  pub m_links : ℕ → ℕ
  pub m_maps : ℕ

-- `compare_shared_mem_size`
unfoldable pub compare_shared_mem_size : ℕ → ℕ → ℤ
compare_shared_mem_size a b = if ltb a b then negsuc 0 else if ltb b a then pos 1 else pos 0

-- `create_shared_mem_region`
unfoldable pub create_shared_mem_region : Option ℕ → ℕ → ℕ → Option SharedMemRegion
create_shared_mem_region none mid size = none
create_shared_mem_region (some ptr) mid size =
    if size == 0 then none else some (record { r_id = mid; r_size = size; r_off = 0; r_ptr = ptr })

-- The cut of a block from the current region, the first of these.
unfoldable pub cut_from : SharedMem → List SharedMemRegion → ℕ → Option ℕ × SharedMem
cut_from m [] size = (none, m)
cut_from m (r ∷ rest) size = (
  some (r.r_ptr + r.r_off),
  record m { m_current = record r { r_off = (r.r_off + size) % 2 ^ 64 } ∷ rest },
)

-- A write of `f_next` in a block.
abbrev pub link : (ℕ → ℕ) → ℕ → ℕ → ℕ → ℕ
link links ptr next k = if k == ptr then next else links k

-- The block at the top of a group's list.
unfoldable pub pop_free : SharedMem → Option ℕ → Option (ℕ × SharedMem)
pop_free m none = none
pop_free m (some g) = elim (get_elem? m.m_sizes g) [
  | none ↦ none
  | some ptr ↦
      if ptr == 0 then none else some (ptr, record m { m_sizes = set m.m_sizes g (m.m_links ptr) })
]

-- A block on top of a group's list.
unfoldable pub push_free : SharedMem → ℕ → ℕ → SharedMem
push_free m g ptr = elim (get_elem? m.m_sizes g) [
  | none ↦ m
  | some top ↦ record m { m_sizes = set m.m_sizes g ptr; m_links = link m.m_links ptr top }
]

module _ (area : ℕ → Option ℕ) where
  -- `add_shared_mem_region`
  unfoldable pub add_shared_mem_region : SharedMem → ℕ → ℤ × SharedMem
  unfolding create_shared_mem_region
  add_shared_mem_region m size =
      if size == 0
      then (negsuc 0, m)
      else elim (create_shared_mem_region (area m.m_maps) m.m_next_id size) [
        | none ↦ (negsuc 0, record m { m_maps = suc m.m_maps })
        | some r ↦ (
          pos 0,
          record m {
            m_current = r ∷ m.m_current;
            m_next_id = (m.m_next_id + 1) % 2 ^ 64;
            m_maps = suc m.m_maps;
          },
        )
      ]

  -- A block from the current region, the first of these, or from a new one where that is full.
  unfoldable pub bump_from : SharedMem → List SharedMemRegion → ℕ → Option ℕ × SharedMem
  unfolding add_shared_mem_region cut_from
  bump_from m [] size = (none, m)
  bump_from m (r ∷ rest) size =
      let added = add_shared_mem_region m region_size in
      if ltb r.r_size ((size + r.r_off) % 2 ^ 64)
      then elim (added.0) [
        | negsuc n ↦ (none, added.1)
        | pos n ↦ cut_from (added.1) (added.1).m_current size
      ]
      else cut_from m (r ∷ rest) size

  -- `shared_malloc`, once `create_shared_mem` has been called.
  unfoldable pub shared_malloc : SharedMem → ℕ → Option ℕ × SharedMem
  unfolding bump_from pop_free compare_shared_mem_size
  shared_malloc m size =
      if ltb size free_struct
      then (none, m)
      else elim (pop_free m (find_data_avltree compare_shared_mem_size m.m_free size)) [
        | some (ptr, m') ↦ (some ptr, m')
        | none ↦ bump_from m m.m_current size
      ]

  -- `shared_free` on fuel, for its calls of itself where there is no memory for a node; `none`: the
  -- fuel ran out, or NULL is read in the tree.
  unfoldable pub shared_free : ℕ → SharedMem → ℕ → ℕ → Option SharedMem
  unfolding shared_malloc push_free
  shared_free zero m ptr size = none
  shared_free (suc fuel) m ptr size =
      let got = shared_malloc m size_struct in
      let ends = record (got.1) { m_links = link (got.1).m_links ptr 0 } in
      let node = shared_malloc ends node_struct in
      if ptr == 0 || size == 0
      then some m
      else elim (find_data_avltree compare_shared_mem_size m.m_free size) [
        | some g ↦ some (push_free m g ptr)
        | none ↦ elim (got.0) [
          | none ↦ some (got.1)
          | some s ↦ elim (ltb size free_struct) [
            | true ↦ some (got.1)
            | false ↦ elim (node.0) [
              | none ↦ shared_free fuel (node.1) s size_struct
              | some n ↦
                  elim (add_node_avltree compare_shared_mem_size (node.1).m_free size
                    (length (node.1).m_sizes)) [
                      | none ↦ none
                      | some (negsuc k, t) ↦ elim (shared_free fuel (node.1) n node_struct) [
                        | none ↦ none
                        | some m3 ↦ shared_free fuel m3 s size_struct
                      ]
                      | some (pos k, t) ↦
                          some
                            (record (node.1) { m_free = t; m_sizes = (node.1).m_sizes ++ ptr ∷ [] })
                    ]
            ]
          ]
        ]
      ]
