-- ===== src/ItemGroup/Cut.antt =====
-- src/itemgroup.c: the items cut from a group lie one behind the other inside its mapping.
use spead.Base.{
  Bool-cases, inl, inr, ℕ, ◌+◌, ◌*◌, ◌%◌, ◌^◌, ◌≤◌, ◌<◌, ◌≡◌, refl, ap, ◌∙◌, sym, true, false, none,
  some, List, [], ◌∷◌, ◌++◌, arith, length, length-append, ltb, ◌==◌, length-replicate,
}
use spead.ItemGroup.{
  SpeadApiItem, SpeadItemGroup, item_struct, item_size, blank_item, create_item_group,
  new_item_from_group,
}

-- The bytes that the items take.
abbrev pub taken : List SpeadApiItem → ℕ
taken [] = 0
taken (x ∷ rest) = item_size x.i_len + taken rest

-- Every item has data, of a length that does not wrap with the structure.
abbrev pub AllSized : List SpeadApiItem → Type 0
AllSized [] = Unit
AllSized (x ∷ rest) =
    (0 < x.i_len) × (x.i_len + item_struct < 2 ^ 64) × (length x.i_data ≡ x.i_len) × AllSized rest

pub record IsGroup (ig : SpeadItemGroup) : Type 0 where
  pub counted : ig.g_items ≡ length ig.g_map
  pub packed : ig.g_off ≡ taken ig.g_map
  pub inside : ig.g_off ≤ ig.g_size
  pub small : ig.g_size < 2 ^ 63
  pub sized : AllSized ig.g_map

taken-snoc :
    (xs : List SpeadApiItem) (x : SpeadApiItem)
    → taken (xs ++ x ∷ []) ≡ taken xs + item_size x.i_len
taken-snoc [] x = omega arith
taken-snoc (y ∷ xs) x = omega (arith, taken-snoc xs x)

AllSized-snoc :
    (xs : List SpeadApiItem) (size : ℕ)
    → AllSized xs
    → 0 < size
    → size + item_struct < 2 ^ 64
    → AllSized (xs ++ blank_item size ∷ [])
AllSized-snoc [] size a h k = (h, k, length-replicate size 0, tt)
AllSized-snoc (x ∷ xs) size a h k = (a.0, a.1, a.2, AllSized-snoc xs size a.3 h k)

length-taken : (xs : List SpeadApiItem) → AllSized xs → length xs ≤ taken xs
length-taken [] a = omega arith
length-taken (x ∷ xs) a = omega (arith, length-taken xs a.3, a.0, a.1)

-- `new_item_from_group` on a group whose items lie one behind the other, for a size below
-- 2 ^ 63 - 40: where the item and its structure fit behind the others, it is returned, empty and of
-- that size, is the last item of the group, and the items still lie inside the mapping; where they do
-- not fit, and for size 0, it returns NULL and changes nothing.
pub new-IsGroup :
    (ig : SpeadItemGroup) (size : ℕ)
    → IsGroup ig
    → size + item_struct < 2 ^ 63
    → (0 < size
        → ig.g_off + (size + item_struct) ≤ ig.g_size
        → (g : SpeadItemGroup) × (new_item_from_group ig size ≡ (some (blank_item size), g))
          × IsGroup g
          × (g.g_map ≡ ig.g_map ++ blank_item size ∷ [])
          × (g.g_off ≡ ig.g_off + (size + item_struct)))
      × (ig.g_size < ig.g_off + (size + item_struct) → new_item_from_group ig size ≡ (none, ig))
      × (new_item_from_group ig 0 ≡ (none, ig))
unfolding new_item_from_group
new-IsGroup ig size is room = (
  (λ more fits.
      let off : (ig.g_off + item_size size) % 2 ^ 64 ≡ ig.g_off + (size + item_struct) =
        omega (arith, is.small) in
      let whole : item_size size ≡ size + item_struct = omega arith in
      let sized : (size == 0) ≡ false = ground arith in
      let room_left : ltb ig.g_size (ig.g_off + (size + item_struct)) ≡ false = ground arith in
      let count = length-taken ig.g_map is.sized in
      (
        record ig {
          g_off = ig.g_off + (size + item_struct);
          g_items = ig.g_items + 1;
          g_map = ig.g_map ++ blank_item size ∷ [];
        },
        rw (sized, off, room_left)
            (let items : (ig.g_items + 1) % 2 ^ 64 ≡ ig.g_items + 1 =
                omega (arith, count, is.counted, is.packed, is.inside, is.small) in
              rw items refl),
        record {
          counted =
              ap (λ n. n + 1) is.counted ∙ sym (length-append ig.g_map (blank_item size ∷ []));
          packed = omega (arith, is.packed, taken-snoc ig.g_map (blank_item size));
          inside = fits;
          small = is.small;
          sized = AllSized-snoc ig.g_map size is.sized more (omega arith);
        },
        refl,
        refl,
      )),
  (λ full.
      let off : (ig.g_off + item_size size) % 2 ^ 64 ≡ ig.g_off + (size + item_struct) =
        omega (arith, is.small, is.inside) in
      let none_left : ltb ig.g_size (ig.g_off + (size + item_struct)) ≡ true = ground arith in
      elim (Bool-cases (size == 0)) [ inl e ↦ rw e | inr e ↦ rw (e, off, none_left) ]),
  refl,
)

-- A new group for at least one item whose size fits 63 bits is empty, and its items lie inside it.
pub create-IsGroup :
    (datasize nitems : ℕ)
    → 0 < nitems
    → datasize + nitems * item_struct < 2 ^ 63
    → (g : SpeadItemGroup) × (create_item_group true true datasize nitems ≡ some g)
      × IsGroup g
      × (g.g_size ≡ datasize + nitems * item_struct)
unfolding create_item_group
create-IsGroup datasize nitems h k = (
  record { g_cd = 0; g_items = 0; g_size = datasize + nitems * item_struct; g_off = 0; g_map = [] },
  (let some_items : (nitems == 0) ≡ false = ground arith in
      let size : (datasize + nitems * item_struct) % 2 ^ 64 ≡ datasize + nitems * item_struct =
        omega arith in
      rw (some_items, size)),
  record { counted = refl; packed = refl; inside = omega arith; small = k; sized = tt },
  refl,
)
