-- ===== src/Receiver/Items.antt =====
-- src/spead.c: the callbacks that collect a heap's item pointers on a stack and then compute their
-- lengths. A `struct spead_api_item2` lives in shared memory and the stacks hold its address; here it
-- stands in the list `d_items`, and its address is its place there. `malloc k` is what the k-th call of
-- `shared_malloc` answers.
pub mod Lengths
pub mod Collect
pub mod Whole
use spead.Base.{
  ℕ, zero, suc, ◌+◌, ◌-◌, ◌%◌, ◌^◌, Bool, true, false, not, ◌||◌, Option, none, some, List, [], ◌∷◌,
  ◌++◌, ◌==◌, ltb, if◌then◌else◌, length, get_elem?, set,
}
use spead.Base.Int.{ℤ, pos, negsuc, is_neg}
use spead.Packet.{
  SpeadPacket, heap_cnt_id, heap_len_id, payload_off_id, payload_len_id, stream_ctrl_id,
}
use spead.Packet.Word.{spead_item, item_id, item_mode, item_addr, directaddr}
use spead.Stack.{Stack, error, push_stack}

-- `struct spead_api_item2`
pub record SpeadApiItem2 : Type 0 where
  pub i_id : ℕ
  pub i_mode : ℕ
  pub i_off : ℕ
  pub i_len : ℕ

-- `struct coalesce_spead_data` but for its item group, with the memory of the items and the number of
-- calls of `shared_malloc` so far.
pub record CoalesceData : Type 0 where
  pub d_stack : Stack ℕ
  pub d_imm : ℕ
  pub d_len : ℕ
  pub d_off : ℕ
  pub d_remaining : ℕ
  pub d_items : List SpeadApiItem2
  pub d_calls : ℕ

-- The ids at which the `switch` of `coalesce_spead_items` continues with the next item.
unfoldable pub is_header_id : ℕ → Bool
is_header_id id =
    (id == heap_cnt_id)
    || ((id == heap_len_id)
        || ((id == payload_off_id) || ((id == payload_len_id) || (id == stream_ctrl_id))))

-- The structure for one item pointer.
unfoldable pub new_item2 : ℕ → SpeadApiItem2
new_item2 iptr = record {
  i_id = item_id iptr;
  i_mode = item_mode iptr;
  i_off = item_addr iptr;
  i_len = 0;
}

-- `sizeof(int64_t)`
abbrev pub int64_len : ℕ
int64_len = 8

-- What follows the `push_stack` of a new item.
unfoldable pub keep_pushed : ℕ → CoalesceData → ℤ × Option (Stack ℕ) → ℤ × CoalesceData
unfolding new_item2
keep_pushed iptr cd (r, none) = (error, record cd { d_calls = suc (suc cd.d_calls) })
keep_pushed iptr cd (r, some s) =
    if is_neg r then (error, record cd { d_calls = suc (suc cd.d_calls) }) else (
      pos 0,
      record cd {
        d_stack = s;
        d_items = cd.d_items ++ new_item2 iptr ∷ [];
        d_calls = suc (suc cd.d_calls);
      },
    )

module _ (malloc : ℕ → Bool) where
  -- The body of the `for` of `coalesce_spead_items`, for an item pointer that is kept.
  unfoldable pub push_item : ℕ → CoalesceData → ℤ × CoalesceData
  unfolding keep_pushed
  push_item iptr cd =
      if not (malloc cd.d_calls)
      then (error, record cd { d_calls = suc cd.d_calls })
      else keep_pushed iptr cd
          (push_stack (malloc (suc cd.d_calls)) (some cd.d_stack) (length cd.d_items))

  -- The `for` of `coalesce_spead_items` from index `j`, with `n` rounds left; `none` is a read past the
  -- packet's array.
  unfoldable pub coalesce_loop : ℕ → ℕ → List ℕ → CoalesceData → Option (ℤ × CoalesceData)
  unfolding push_item is_header_id
  coalesce_loop zero j bytes cd = some (pos 0, cd)
  coalesce_loop (suc n) j bytes cd = elim (spead_item bytes (suc j)) [
    | none ↦ none
    | some iptr ↦ elim (is_header_id (item_id iptr)) [
      | true ↦ coalesce_loop n (suc j) bytes cd
      | false ↦ elim (is_neg (push_item iptr cd).0) [
        | true ↦ some (error, (push_item iptr cd).1)
        | false ↦ coalesce_loop n (suc j) bytes (push_item iptr cd).1
      ]
    ]
  ]

  -- `coalesce_spead_items`, a callback of the traversal of a table. Its state is `none` once something
  -- outside the packet's array has been read.
  unfoldable pub coalesce_spead_items : SpeadPacket → Option CoalesceData → ℤ × Option CoalesceData
  unfolding coalesce_loop
  coalesce_spead_items p none = (error, none)
  coalesce_spead_items p (some cd) = elim (coalesce_loop p.n_items 0 p.bytes cd) [
    | none ↦ (error, none)
    | some (negsuc n, cd') ↦ (error, some cd')
    | some (pos n, cd') ↦
        (pos 0, some (record cd' { d_off = (cd'.d_off + p.payload_len) % 2 ^ 64 }))
  ]

-- What `calculate_lengths` makes of an item: an item of the payload reaches from its offset to where
-- the item behind it starts.
unfoldable pub sized_item : SpeadApiItem2 → CoalesceData → SpeadApiItem2
sized_item itm cd =
    if itm.i_mode == directaddr
    then (if ltb 0 cd.d_off
        then record itm { i_len = (cd.d_off + 2 ^ 64 - itm.i_off) % 2 ^ 64 }
        else record itm { i_len = 0 })
    else record itm { i_len = int64_len }

-- `calculate_lengths` on the item at place `k`.
unfoldable pub size_at : ℕ → SpeadApiItem2 → CoalesceData → CoalesceData
unfolding sized_item
size_at k itm cd =
    let itm' = sized_item itm cd in
    if itm.i_mode == directaddr
    then (if ltb 0 cd.d_off
        then record cd {
          d_items = set cd.d_items k itm';
          d_off = (cd.d_off + 2 ^ 64 - itm'.i_len) % 2 ^ 64;
        }
        else record cd { d_items = set cd.d_items k itm' })
    else record cd { d_items = set cd.d_items k itm'; d_imm = cd.d_imm + 1 }

-- `calculate_lengths`, a callback of `funnel_stack`; NULL for an address that is no item.
unfoldable pub calculate_lengths : ℕ → CoalesceData → ℤ × CoalesceData
unfolding size_at
calculate_lengths k cd = elim (get_elem? cd.d_items k) [
  | none ↦ (error, cd)
  | some itm ↦ (pos 0, size_at k itm cd)
]
