-- ===== src/Receiver/Convert.antt =====
-- src/spead.c: `process_items` and the callbacks that copy the payload of a heap into an item group.
pub mod Part
pub mod Place
pub mod Copy
pub mod Single
pub mod Deliver
pub mod Zero
use spead.Base.{
  ℕ, zero, suc, ◌+◌, ◌-◌, ◌/◌, ◌%◌, ◌^◌, Option, none, some, List, [], ◌∷◌, ◌==◌, ltb, leb,
  if◌then◌else◌, length, take, drop, get_elem?, set,
}
use spead.Base.Int.{ℤ, pos, negsuc, is_neg}
use spead.Packet.{SpeadPacket}
use spead.Packet.Word.{directaddr}
use spead.Stack.{error}
use spead.HashTable.{HashObject}
use spead.HashTable.Single.{Cursor, single_traverse}
use spead.ItemGroup.{
  SpeadApiItem, SpeadItemGroup, new_item_from_group, copy_to_spead_item, append_copy_to_spead_item,
  set_descriptor_flag_item_group,
}
use spead.Receiver.Items.{SpeadApiItem2, CoalesceData, int64_len}

-- `SPEAD_DESCRIPTOR_ID`
abbrev pub descriptor_id : ℕ
descriptor_id = 0x05

-- `struct coalesce_parcel` with what it points at; `p_i` is the place of the active item in the group.
pub record Parcel : Type 0 where
  pub p_c : CoalesceData
  pub p_ig : SpeadItemGroup
  pub p_i : ℕ

-- The `n` bytes at `p->payload + off`; `none` where they are not inside the packet's array.
unfoldable pub payload_at : SpeadPacket → ℕ → ℕ → Option (List ℕ)
payload_at p off n = elim p.payload [
  | none ↦ none
  | some a ↦
      if ltb a p.data_addr
      then none
      else if leb (a - p.data_addr + off + n) (length p.bytes)
      then some (take n (drop (a - p.data_addr + off) p.bytes))
      else none
]

-- The append to the active item, and what the callback then returns and does: `off` and `remaining` are
-- the fields where the append succeeds.
unfoldable pub append_active :
    Parcel → SpeadApiItem → Option (List ℕ) → ℕ → ℕ → ℤ → ℤ × Option Parcel
append_active cp itm none off remaining r = (error, none)
append_active cp itm (some bytes) off remaining r =
    let (n, itm') = append_copy_to_spead_item itm bytes in
    if is_neg n then (error, some cp) else (
      r,
      some (record cp {
        p_c = record cp.p_c { d_off = off; d_remaining = remaining };
        p_ig = record cp.p_ig { g_map = set cp.p_ig.g_map cp.p_i itm' };
      }),
    )

-- `copy_direct_spead_item` once its locals are computed: `cc` bytes can be copied, `mc` must be.
unfoldable pub copy_part : SpeadPacket → Parcel → SpeadApiItem → ℕ → ℕ → ℕ → ℤ × Option Parcel
unfolding append_active payload_at
copy_part p cp itm cc mc remaining =
    if cc == 0
    then (pos 3, some (record cp { p_c = record cp.p_c { d_remaining = remaining } }))
    else if ltb p.payload_len cc
    then (error, some (record cp { p_c = record cp.p_c { d_remaining = remaining } }))
    else if ltb mc cc
    then append_active (record cp { p_c = record cp.p_c { d_remaining = remaining } }) itm
        (payload_at p cp.p_c.d_off mc) ((cp.p_c.d_off + mc) % 2 ^ 64) 0 (pos 2)
    else append_active (record cp { p_c = record cp.p_c { d_remaining = remaining } }) itm
        (payload_at p cp.p_c.d_off cc) 0 ((remaining + 2 ^ 64 - cc) % 2 ^ 64)
        (if (remaining + 2 ^ 64 - cc) % 2 ^ 64 == 0 then pos 0 else pos 1)

-- `copy_direct_spead_item`, a callback of the traversal that goes object by object. Its state is `none`
-- once something outside a packet's array has been read.
unfoldable pub copy_direct_spead_item : SpeadPacket → Option Parcel → ℤ × Option Parcel
unfolding copy_part
copy_direct_spead_item p none = (error, none)
copy_direct_spead_item p (some cp) = elim (get_elem? cp.p_ig.g_map cp.p_i) [
  | none ↦ (error, some cp)
  | some itm ↦
      let cc = (p.payload_len + 2 ^ 64 - cp.p_c.d_off) % 2 ^ 64 in
      let remaining = if cp.p_c.d_remaining == 0 then itm.i_len else cp.p_c.d_remaining in
      copy_part p cp itm cc (if leb p.payload_len remaining then cc else remaining) remaining
]

-- The bytes of an `int64_t` in memory, the lowest first.
unfoldable pub le_bytes : ℕ → ℕ → List ℕ
le_bytes zero x = []
le_bytes (suc n) x = (x % 256) ∷ le_bytes n (x / 256)

module _ (len : ℕ) (os : List (List (HashObject SpeadPacket))) where
  -- The `while` of `convert_to_ig`, on fuel. `none`: the fuel ran out, or a read outside an array.
  unfoldable pub copy_loop : ℕ → Cursor SpeadPacket → Parcel → Option (Cursor SpeadPacket × Parcel)
  copy_loop zero c cp = none
  copy_loop (suc fuel) c cp = elim (single_traverse copy_direct_spead_item len os c (some cp)) [
    | none ↦ none
    | some (r, c', none) ↦ none
    | some (pos (suc n), c', some cp') ↦ copy_loop fuel c' cp'
    | some (pos zero, c', some cp') ↦ some (c', cp')
    | some (negsuc n, c', some cp') ↦ some (c', cp')
  ]

  -- The `switch (i2->i_mode)`: the result, where it is negative the function returns.
  unfoldable pub fill_active :
      ℕ
      → SpeadApiItem2
      → SpeadApiItem
      → Cursor SpeadPacket
      → Parcel
      → ℤ × Option (Parcel × Cursor SpeadPacket)
  unfolding copy_loop le_bytes
  fill_active fuel i2 itm c cp =
      if i2.i_mode == directaddr
      then elim (copy_loop fuel c cp) [
        | none ↦ (error, none)
        | some (c', cp') ↦ (pos 0, some (cp', c'))
      ]
      else (let (n, itm') = copy_to_spead_item itm (le_bytes int64_len i2.i_off) in
          if is_neg n then (error, some (cp, c)) else (
            pos 0,
            some (record cp { p_ig = record cp.p_ig { g_map = set cp.p_ig.g_map cp.p_i itm' } }, c),
          ))

  -- `switch (i2->i_id)` at the end.
  unfoldable pub flag_descriptor :
      ℕ → ℤ × Option (Parcel × Cursor SpeadPacket) → ℤ × Option (Parcel × Cursor SpeadPacket)
  flag_descriptor id (pos n, some (cp, c)) =
      if id == descriptor_id
      then (pos 0, some (record cp { p_ig = set_descriptor_flag_item_group cp.p_ig }, c))
      else (pos 0, some (cp, c))
  flag_descriptor id (pos n, none) = (error, none)
  flag_descriptor id (negsuc n, st) = (error, st)

  -- `convert_to_ig` behind `new_item_from_group`, for the item at `place`.
  unfoldable pub convert_new :
      ℕ
      → SpeadApiItem2
      → ℕ
      → Parcel
      → Cursor SpeadPacket
      → Option SpeadApiItem × SpeadItemGroup
      → ℤ × Option (Parcel × Cursor SpeadPacket)
  unfolding fill_active flag_descriptor
  convert_new fuel i2 place cp c (none, ig) = (error, some (record cp { p_ig = ig }, c))
  convert_new fuel i2 place cp c (some new, ig) =
      let itm = record new { i_id = i2.i_id; i_valid = i2.i_mode } in
      flag_descriptor i2.i_id (
        fill_active fuel i2 itm c
          (record cp { p_ig = record ig { g_map = set ig.g_map place itm }; p_i = place }))

  -- `convert_to_ig` on an item that is there.
  unfoldable pub convert_item :
      ℕ → SpeadApiItem2 → Parcel → Cursor SpeadPacket → ℤ × Option (Parcel × Cursor SpeadPacket)
  unfolding convert_new
  convert_item fuel i2 cp c =
      if i2.i_len == 0
      then (pos 0, some (cp, c))
      else convert_new fuel i2 (length cp.p_ig.g_map) cp c (new_item_from_group cp.p_ig i2.i_len)

  -- `convert_to_ig`, a callback of `funnel_stack`, with the fuel for the copy of one item. Its state is
  -- `none` once the fuel has run out or something outside an array has been read.
  unfoldable pub convert_to_ig :
      ℕ → ℕ → Option (Parcel × Cursor SpeadPacket) → ℤ × Option (Parcel × Cursor SpeadPacket)
  unfolding convert_item
  convert_to_ig fuel k none = (error, none)
  convert_to_ig fuel k (some (cp, c)) = elim (get_elem? cp.p_c.d_items k) [
    | none ↦ (error, some (cp, c))
    | some i2 ↦ convert_item fuel i2 cp c
  ]
