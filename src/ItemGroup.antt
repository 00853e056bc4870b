-- ===== src/ItemGroup.antt =====
-- src/itemgroup.c with the structures of src/spead_api.h: a mapping of memory from which items are cut
-- one behind the other, and the functions that fill an item's data. An item's `i_data` is the list of
-- its `i_len` bytes. `i_id` is the number that the source's int is as an unsigned 64-bit one. NULL
-- arguments are left out, except where a NULL is part of how a function is used.
pub mod Find
pub mod Walk
pub mod Cut
pub mod Fill
use spead.Base.{
  ℕ, zero, suc, ◌+◌, ◌-◌, ◌*◌, ◌/◌, ◌%◌, ◌^◌, Bool, true, false, Option, none, some, List, [], ◌∷◌,
  ◌++◌, ◌==◌, ltb, leb, if◌then◌else◌, length, take, drop, replicate,
}
use spead.Base.Int.{ℤ, pos, negsuc}

-- `sizeof(struct spead_api_item)`, and the end of its `i_len`.
abbrev pub item_struct : ℕ
item_struct = 40

abbrev pub len_end : ℕ
len_end = 32

abbrev pub spead_zeros_id : ℕ
spead_zeros_id = 0x112

abbrev pub spead_ones_id : ℕ
spead_ones_id = 0x113

abbrev pub spead_ramp_id : ℕ
spead_ramp_id = 0x114

-- `struct spead_api_item`
pub record SpeadApiItem : Type 0 where
  pub i_valid : ℕ
  pub i_id : ℕ
  pub io_data : ℕ
  pub io_size : ℕ
  pub i_len : ℕ
  pub i_data_len : ℕ
  pub i_data : List ℕ

-- `struct spead_item_group`. The mapping is the list of the items cut from it, from its start; the
-- bytes behind them are still zero.
pub record SpeadItemGroup : Type 0 where
  pub g_cd : ℕ
  pub g_items : ℕ
  pub g_size : ℕ
  pub g_off : ℕ
  pub g_map : List SpeadApiItem

-- A conversion to int.
abbrev pub to_int : ℕ → ℤ
to_int n = if ltb (n % 2 ^ 32) (2 ^ 31) then pos (n % 2 ^ 32) else negsuc (2 ^ 32 - 1 - n % 2 ^ 32)

-- `create_item_group`, with what `malloc` and `mmap` say.
unfoldable pub create_item_group : Bool → Bool → ℕ → ℕ → Option SpeadItemGroup
create_item_group alloc mapped datasize nitems =
    if nitems == 0
    then none
    else if alloc
    then (if mapped
        then some (record {
          g_cd = 0;
          g_items = 0;
          g_size = (datasize + nitems * item_struct) % 2 ^ 64;
          g_off = 0;
          g_map = [];
        })
        else none)
    else none

abbrev pub blank_item : ℕ → SpeadApiItem
blank_item size = record {
  i_valid = 0;
  i_id = 0;
  io_data = 0;
  io_size = 0;
  i_len = size;
  i_data_len = 0;
  i_data = replicate size 0;
}

-- `item_size` of `new_item_from_group`, and the step of `get_next_spead_item`.
abbrev pub item_size : ℕ → ℕ
item_size size = (size + item_struct) % 2 ^ 64

-- `new_item_from_group`: the item, `none` for NULL, and the group afterwards.
unfoldable pub new_item_from_group : SpeadItemGroup → ℕ → Option SpeadApiItem × SpeadItemGroup
new_item_from_group ig size =
    if size == 0
    then (none, ig)
    else if ltb ig.g_size ((ig.g_off + item_size size) % 2 ^ 64)
    then (none, ig)
    else (
      some (blank_item size),
      record ig {
        g_off = (ig.g_off + item_size size) % 2 ^ 64;
        g_items = (ig.g_items + 1) % 2 ^ 64;
        g_map = ig.g_map ++ blank_item size ∷ [];
      },
    )

-- The `struct spead_api_item` at an offset of the mapping: `some none` in the zero bytes behind the
-- items, `none` inside an item, where the bytes are no such structure.
unfoldable pub item_at : List SpeadApiItem → ℕ → Option (Option SpeadApiItem)
item_at [] off = some none
item_at (x ∷ rest) off =
    let behind = item_at rest (off - item_size x.i_len) in
    if off == 0 then some (some x) else if ltb off (item_size x.i_len) then none else behind

-- What `get_spead_item_at_off` makes of the structure there: `none` where its `i_len` is read past
-- the end of the mapping.
unfoldable pub with_len : ℕ → ℕ → Option (Option SpeadApiItem) → Option (Option SpeadApiItem)
with_len size off none = none
with_len size off (some none) = if ltb size (off + len_end) then none else some none
with_len size off (some (some x)) = some (if x.i_len == 0 then none else some x)

-- `get_spead_item_at_off`
unfoldable pub get_spead_item_at_off : SpeadItemGroup → ℕ → Option (Option SpeadApiItem)
get_spead_item_at_off ig off =
    if leb ig.g_size off then some none else with_len ig.g_size off (item_at ig.g_map off)

-- `get_next_spead_item`: `cursor` is its static `off`, returned with the item.
unfoldable pub get_next_spead_item :
    SpeadItemGroup → Option SpeadApiItem → ℕ → Option (Option SpeadApiItem) × ℕ
unfolding get_spead_item_at_off
get_next_spead_item ig none cursor = (get_spead_item_at_off ig 0, 0)
get_next_spead_item ig (some x) cursor =
    let off = (cursor + item_size x.i_len) % 2 ^ 64 in (get_spead_item_at_off ig off, off)

-- The `while` of `get_spead_item_with_id`, on fuel: `none` where the fuel runs out or something is
-- read that is no item.
unfoldable pub find_loop :
    ℕ → SpeadItemGroup → ℕ → Option SpeadApiItem → ℕ → Option (Option SpeadApiItem × ℕ)
unfolding get_next_spead_item
find_loop zero ig iid itm cursor = none
find_loop (suc fuel) ig iid itm cursor =
    let next = get_next_spead_item ig itm cursor in
    elim (next.0) [
      | none ↦ none
      | some none ↦ some (none, next.1)
      | some (some x) ↦ elim (x.i_id == iid) [
        | true ↦ some (some x, next.1)
        | false ↦ find_loop fuel ig iid (some x) (next.1)
      ]
    ]

-- `get_spead_item_with_id`, on fuel.
unfoldable pub get_spead_item_with_id :
    ℕ → SpeadItemGroup → ℕ → ℕ → Option (Option SpeadApiItem × ℕ)
unfolding find_loop
get_spead_item_with_id fuel ig iid cursor = find_loop fuel ig iid none cursor

-- `set_spead_item_io_data`
unfoldable pub set_spead_item_io_data : SpeadApiItem → ℕ → ℕ → ℤ × SpeadApiItem
set_spead_item_io_data itm ptr size =
    if ptr == itm.io_data
    then (pos 0, itm)
    else (pos 0, record itm { io_data = ptr; io_size = size })

-- `copy_to_spead_item`, `src` being the bytes copied.
unfoldable pub copy_to_spead_item : SpeadApiItem → List ℕ → ℤ × SpeadApiItem
copy_to_spead_item itm src =
    if leb (length src) itm.i_len
    then (
      to_int (length src),
      record itm { i_data = src ++ drop (length src) itm.i_data; i_data_len = length src },
    )
    else (negsuc 0, itm)

-- `append_copy_to_spead_item`, `src` being the bytes copied.
unfoldable pub append_copy_to_spead_item : SpeadApiItem → List ℕ → ℤ × SpeadApiItem
append_copy_to_spead_item itm src =
    if leb ((length src + itm.i_data_len) % 2 ^ 64) itm.i_len
    then (
      to_int (length src),
      record itm {
        i_data =
            take itm.i_data_len itm.i_data
            ++ (src ++ drop (itm.i_data_len + length src) itm.i_data);
        i_data_len = (itm.i_data_len + length src) % 2 ^ 64;
      },
    )
    else (negsuc 0, itm)

-- `set_item_data_ones` and `set_item_data_zeros`
unfoldable pub set_item_data_ones : SpeadApiItem → ℤ × SpeadApiItem
set_item_data_ones itm = (
  pos 0,
  record itm { i_id = spead_ones_id; i_data_len = itm.i_len; i_data = replicate itm.i_len 0x11 },
)

unfoldable pub set_item_data_zeros : SpeadApiItem → ℤ × SpeadApiItem
set_item_data_zeros itm = (
  pos 0,
  record itm { i_id = spead_zeros_id; i_data_len = itm.i_len; i_data = replicate itm.i_len 0 },
)

-- The numbers from `c` on.
unfoldable pub count_up : ℕ → ℕ → List ℕ
count_up c zero = []
count_up c (suc n) = c ∷ count_up (suc c) n

-- The passes of the `do` of `set_item_data_ramp` behind the first.
unfoldable pub passes : ℕ → List ℕ
unfolding count_up
passes zero = []
passes (suc n) = count_up 0 16 ++ passes n

-- The passes that the int `n` allows behind the first.
abbrev pub more_passes : ℕ → ℕ
more_passes n = if ltb (n % 2 ^ 32) (2 ^ 31) then n % 2 ^ 32 - 1 else 0

-- The first pass: the `switch` enters the `do` so that `count % 16` bytes are written, all 16 where
-- that is 0.
unfoldable pub first_pass : ℕ → List ℕ
unfolding count_up
first_pass count =
    if count % 16 == 0 then count_up 0 16 else count_up (16 - count % 16) (count % 16)

-- The bytes that `set_item_data_ramp` writes.
unfoldable pub ramp_bytes : ℕ → List ℕ
unfolding first_pass passes
ramp_bytes count = first_pass count ++ passes (more_passes ((count + 15) % 2 ^ 64 / 16))

-- `set_item_data_ramp`; `none` where it writes past the item.
unfoldable pub set_item_data_ramp : SpeadApiItem → Option (ℤ × SpeadApiItem)
unfolding ramp_bytes
set_item_data_ramp itm =
    if ltb itm.i_len (length (ramp_bytes itm.i_len))
    then none
    else some (
      pos 0,
      record itm {
        i_id = spead_ramp_id;
        i_data_len = itm.i_len;
        i_data = ramp_bytes itm.i_len ++ drop (length (ramp_bytes itm.i_len)) itm.i_data;
      },
    )

-- `set_descriptor_flag_item_group` and `is_item_descriptor_item_group`
unfoldable pub set_descriptor_flag_item_group : SpeadItemGroup → SpeadItemGroup
set_descriptor_flag_item_group ig = record ig { g_cd = 1 }

unfoldable pub is_item_descriptor_item_group : SpeadItemGroup → ℕ
is_item_descriptor_item_group ig = ig.g_cd
