-- ===== src/Receiver/Convert/Single.antt =====
-- src/spead.c: `convert_to_ig` on one item.
use spead.Base.{
  ℕ, zero, suc, ◌+◌, ◌/◌, ◌%◌, ◌^◌, ◌≤◌, ◌<◌, ◌≡◌, refl, ap, true, false, Option, some, List, [],
  ◌∷◌, ◌++◌, ◌==◌, ltb, if◌then◌else◌, length, set, take, drop, arith, Bool-cases, inl, inr,
  length-replicate,
}
use spead.Base.Int.{ℤ, pos, is_neg}
use spead.Packet.{SpeadPacket}
use spead.Packet.Word.{directaddr}
use spead.HashTable.{HashObject}
use spead.HashTable.Single.{Cursor}
use spead.ItemGroup.{
  SpeadApiItem, blank_item, to_int, new_item_from_group, copy_to_spead_item,
  set_descriptor_flag_item_group,
}
use spead.ItemGroup.Fill.{IsItem, held, copy_to-held}
use spead.Receiver.Items.{SpeadApiItem2, int64_len}
use spead.Receiver.Items.Lengths.{set-append_exact, get_elem?-append_exact}
use spead.Receiver.Convert.{
  Parcel, descriptor_id, le_bytes, fill_active, flag_descriptor, convert_new, convert_item,
}
use spead.Receiver.Convert.Part.{Wants, advanced}
use spead.Receiver.Convert.Place.{Before}
use spead.Receiver.Convert.Copy.{copy_loop-copies}

-- The bytes of an item's pointer that is a value, or of the payload from `left` on.
abbrev pub item_bytes : SpeadApiItem2 → List ℕ → List ℕ
item_bytes x left = if x.i_mode == directaddr then take x.i_len left else le_bytes int64_len x.i_off

abbrev pub behind_item : SpeadApiItem2 → List ℕ → List ℕ
behind_item x left = if x.i_mode == directaddr then drop x.i_len left else left

-- The group has got one item more, with these bytes.
pub record Converted (os : List (List (HashObject SpeadPacket))) (x : SpeadApiItem2) (cp : Parcel)
    (left : List ℕ) (r : ℤ × Option (Parcel × Cursor SpeadPacket)) : Type 0 where
  pub parcel : Parcel
  pub cursor : Cursor SpeadPacket
  pub item : SpeadApiItem
  pub done : r ≡ (pos 0, some (parcel, cursor))
  pub holds : held item ≡ item_bytes x left
  pub named : item.i_id ≡ x.i_id
  pub added : parcel.p_ig.g_map ≡ cp.p_ig.g_map ++ item ∷ []
  pub used : parcel.p_ig.g_off ≡ cp.p_ig.g_off + x.i_len + 40
  pub same_size : parcel.p_ig.g_size ≡ cp.p_ig.g_size
  pub same_items : parcel.p_c.d_items ≡ cp.p_c.d_items
  pub none_asked : parcel.p_c.d_remaining ≡ 0
  pub stands : Before os cursor parcel.p_c.d_off (behind_item x left)

-- The new item, and the parcel that works on it.
abbrev pub begun : SpeadApiItem2 → SpeadApiItem
begun x = record (blank_item x.i_len) { i_id = x.i_id; i_valid = x.i_mode }

abbrev pub with_new : SpeadApiItem2 → Parcel → Parcel
with_new x cp = record cp {
  p_ig = record cp.p_ig {
    g_off = cp.p_ig.g_off + x.i_len + 40;
    g_items = (cp.p_ig.g_items + 1) % 2 ^ 64;
    g_map = cp.p_ig.g_map ++ begun x ∷ [];
  };
  p_i = length cp.p_ig.g_map;
}

begun-IsItem : (x : SpeadApiItem2) → x.i_len < 2 ^ 63 → IsItem (begun x)
begun-IsItem x h = record { whole = length-replicate x.i_len 0; within = omega arith; small = h }

is_neg-to_int : (n : ℕ) → n < 2 ^ 31 → is_neg (to_int n) ≡ false
is_neg-to_int n h = ground arith

module _ (os : List (List (HashObject SpeadPacket))) where
  -- The `switch` at the end changes no more than the group's flag.
  flagged :
      (x : SpeadApiItem2) (cp : Parcel) (left : List ℕ)
      (r : ℤ × Option (Parcel × Cursor SpeadPacket))
      → Converted os x cp left r
      → Converted os x cp left (flag_descriptor (length os) os x.i_id r)
  unfolding flag_descriptor set_descriptor_flag_item_group
  flagged x cp left r h = rw (h.done) (elim (Bool-cases (x.i_id == descriptor_id)) [
    | inl descriptor ↦ record {
      cursor = h.cursor;
      item = h.item;
      holds = h.holds;
      named = h.named;
      added = h.added;
      used = h.used;
      same_size = h.same_size;
      same_items = h.same_items;
      none_asked = h.none_asked;
      stands = h.stands;
      parcel = record h.parcel { p_ig = set_descriptor_flag_item_group h.parcel.p_ig };
      done = rw (descriptor, flag_descriptor);
    }
    | inr other ↦ record {
      cursor = h.cursor;
      item = h.item;
      holds = h.holds;
      named = h.named;
      added = h.added;
      used = h.used;
      same_size = h.same_size;
      same_items = h.same_items;
      none_asked = h.none_asked;
      stands = h.stands;
      parcel = h.parcel;
      done = rw (other, flag_descriptor);
    }
  ])

  filled_direct :
      (fuel : ℕ) (x : SpeadApiItem2) (cp : Parcel) (c : Cursor SpeadPacket) (left : List ℕ)
      → Before os c cp.p_c.d_off left
      → cp.p_c.d_remaining ≡ 0
      → (x.i_mode == directaddr) ≡ true
      → 0 < x.i_len
      → x.i_len < 2 ^ 63
      → x.i_len ≤ length left
      → x.i_len ≤ fuel
      → Converted os x cp left (fill_active (length os) os fuel x (begun x) c (with_new x cp))
  unfolding fill_active
  filled_direct fuel x cp c left b rem direct more small there enough =
      let none_yet : (cp.p_c.d_remaining == 0) ≡ true = rw rem refl in
      let w : Wants (with_new x cp) (begun x) x.i_len = record {
        active = get_elem?-append_exact cp.p_ig.g_map (begun x) [];
        is_item = begun-IsItem x small;
        left = omega arith;
        asked = rw none_yet refl;
      } in
      let run =
        copy_loop-copies os fuel x.i_len c (with_new x cp) (begun x) left b w more there enough in
      record {
        parcel = advanced (with_new x cp) run.offset 0 run.result;
        cursor = run.cursor;
        item = run.result;
        done = rw (direct, fill_active, run.runs);
        holds = rw direct (run.got.holds);
        named = run.got.same_id;
        added = set-append_exact cp.p_ig.g_map (begun x) run.result [];
        used = refl;
        same_size = refl;
        same_items = refl;
        none_asked = refl;
        stands = rw direct (run.stands);
      }

  length-le_bytes : (n v : ℕ) → length (le_bytes n v) ≡ n
  unfolding le_bytes
  length-le_bytes zero v = refl
  length-le_bytes (suc n) v = ap suc (length-le_bytes n (v / 256))

  filled_value :
      (fuel : ℕ) (x : SpeadApiItem2) (cp : Parcel) (c : Cursor SpeadPacket) (left : List ℕ)
      → Before os c cp.p_c.d_off left
      → cp.p_c.d_remaining ≡ 0
      → (x.i_mode == directaddr) ≡ false
      → x.i_len ≡ int64_len
      → Converted os x cp left (fill_active (length os) os fuel x (begun x) c (with_new x cp))
  unfolding fill_active
  filled_value fuel x cp c left b rem value len =
      let size = length-le_bytes int64_len x.i_off in
      let bytes = le_bytes int64_len x.i_off in
      let (answer, holds, is', same, id) =
        (copy_to-held (begun x) bytes (begun-IsItem x (omega (arith, len)))).0
          (omega (arith, len, size)) in
      let item = (copy_to_spead_item (begun x) bytes).1 in
      let fine : is_neg (copy_to_spead_item (begun x) bytes).0 ≡ false =
        rw answer (is_neg-to_int (length bytes) (omega (arith, size))) in
      record {
        parcel = record (with_new x cp) {
          p_ig = record (with_new x cp).p_ig {
            g_map = set (with_new x cp).p_ig.g_map (length cp.p_ig.g_map) item;
          };
        };
        cursor = c;
        item = item;
        done = rw (value, fill_active, fine);
        holds = rw value holds;
        named = id;
        added = set-append_exact cp.p_ig.g_map (begun x) item [];
        used = refl;
        same_size = refl;
        same_items = refl;
        none_asked = rem;
        stands = rw value b;
      }

  -- `convert_to_ig` on an item with a length, where the group has room for it and the cursor stands in
  -- front of the payload's bytes `left`: the group gets an item with this id that holds the next bytes
  -- of the payload, as many as the length says, or the eight bytes of the value; and the cursor stands
  -- in front of the others.
  pub convert_item-converts :
      (fuel : ℕ) (x : SpeadApiItem2) (cp : Parcel) (c : Cursor SpeadPacket) (left : List ℕ)
      → Before os c cp.p_c.d_off left
      → cp.p_c.d_remaining ≡ 0
      → 0 < x.i_len
      → ((x.i_mode == directaddr) ≡ true → (x.i_len ≤ length left) × (x.i_len ≤ fuel))
      → ((x.i_mode == directaddr) ≡ false → x.i_len ≡ int64_len)
      → cp.p_ig.g_off + x.i_len + 40 ≤ cp.p_ig.g_size
      → cp.p_ig.g_size < 2 ^ 63
      → Converted os x cp left (convert_item (length os) os fuel x cp c)
  unfolding convert_item convert_new new_item_from_group
  convert_item-converts fuel x cp c left b rem more direct value room small =
      let n1 : (x.i_len == 0) ≡ false = ground arith in
      let step : (x.i_len + 40) % 2 ^ 64 ≡ x.i_len + 40 = omega arith in
      let sum : (cp.p_ig.g_off + (x.i_len + 40)) % 2 ^ 64 ≡ cp.p_ig.g_off + x.i_len + 40 =
        omega arith in
      let fits : ltb cp.p_ig.g_size (cp.p_ig.g_off + x.i_len + 40) ≡ false = ground arith in
      let twice = set-append_exact cp.p_ig.g_map (blank_item x.i_len) (begun x) [] in
      rw (n1, step, sum, fits, twice)
        (flagged x cp left _ (elim (Bool-cases (x.i_mode == directaddr)) [
          | inl here ↦
              filled_direct fuel x cp c left b rem here more (omega arith) (direct here).0
                (direct here).1
          | inr here ↦ filled_value fuel x cp c left b rem here (value here)
        ]))
