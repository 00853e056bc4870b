-- ===== src/Tests/SharedTests.antt =====
-- Blocks of 16 bytes of a region of 1 MB that has 8 bytes left, and of one with room.
use spead.Base.{ℕ, ◌+◌, ◌≤◌, ◌<◌, ◌≡◌, refl, arith, leb, Option, none, some, [], ◌∷◌, ◌*◌, ◌-◌, ◌^◌}
use spead.Base.Int.{pos}
use spead.Avl.{leaf, node}
use spead.Avl.Add.{find_data_avltree, find_name_node_avltree, get_node_data_avltree}
use spead.SharedMem.{
  SharedMemRegion, SharedMem, region_size, shared_malloc, compare_shared_mem_size, pop_free,
}
use spead.SharedMem.Blocks.{cut, new_region, shared_malloc-cuts}

abbrev filled : SharedMemRegion
filled = record { r_id = 0; r_size = 1048576; r_off = 1048568; r_ptr = 4096 }

abbrev memory : SharedMem
memory = record {
  m_current = filled ∷ [];
  m_next_id = 1;
  m_free = record { t_root = node leaf 24 0 (pos 0) leaf; t_ncount = 1 };
  m_sizes = 5000 ∷ [];
  m_links = λ k. 0;
  m_maps = 1;
}

abbrev areas : ℕ → Option ℕ
areas k = some ((k + 1) * 2097152)

none_free : pop_free memory (find_data_avltree compare_shared_mem_size memory.m_free 16) ≡ none
unfolding pop_free find_data_avltree find_name_node_avltree get_node_data_avltree
    compare_shared_mem_size
none_free = refl

shared_malloc-cuts_example :
    (1048568 + 16 ≤ 1048576
      → shared_malloc areas memory 16
        ≡ (some (4096 + 1048568), record memory { m_current = cut filled 16 ∷ [] }))
    × (1048576 < 1048568 + 16
        → 1048568 + 16 < 2 ^ 64
        → areas 1 ≡ none
        → shared_malloc areas memory 16 ≡ (none, record memory { m_maps = 2 }))
    × (1048576 < 1048568 + 16
        → 1048568 + 16 < 2 ^ 64
        → (ptr : ℕ) → areas 1 ≡ some ptr
        → (shared_malloc areas memory 16 ≡ (
          some ptr,
          record memory {
            m_current = cut (new_region memory ptr) 16 ∷ memory.m_current;
            m_next_id = 2;
            m_maps = 2;
          },
        ))
          × (leb (cut (new_region memory ptr) 16).r_off region_size ≡ leb 16 (1024 * 1024)))
    × (2 ^ 64 ≤ 1048568 + 16
        → (shared_malloc areas memory 16 ≡ (
          some (4096 + 1048568),
          record memory { m_current = record filled { r_off = 1048568 + 16 - 2 ^ 64 } ∷ [] },
        ))
          × (1048568 + 16 - 2 ^ 64 < 1048568))
shared_malloc-cuts_example =
    shared_malloc-cuts areas memory filled [] 16 refl (omega arith) (omega arith) (omega arith)
      (omega arith) none_free
