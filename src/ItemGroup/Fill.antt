-- ===== src/ItemGroup/Fill.antt =====
-- src/itemgroup.c: the functions that fill an item's data stay inside it.
use spead.Base.{
  ℕ, ◌+◌, ◌%◌, ◌^◌, ◌≤◌, ◌<◌, ◌≡◌, refl, ap, ◌∙◌, true, false, List, ◌++◌, arith, length,
  length-append, leb, take, drop, subst, length-drop, length-take,
}
use mathlib.Core.List.{append_assoc}
use spead.Base.Slices.{take-append_exact}
use spead.Base.Int.{ℤ, negsuc}
use spead.ItemGroup.{SpeadApiItem, to_int, copy_to_spead_item, append_copy_to_spead_item}

-- An item whose data length lies inside its allocated length.
pub record IsItem (itm : SpeadApiItem) : Type 0 where
  pub whole : length itm.i_data ≡ itm.i_len
  pub within : itm.i_data_len ≤ itm.i_len
  pub small : itm.i_len < 2 ^ 63

-- The data an item holds.
abbrev pub held : SpeadApiItem → List ℕ
held itm = take itm.i_data_len itm.i_data

-- The outcome of a fill: the number of bytes is answered, the item holds `bytes`, and its other fields
-- are as they were.
abbrev pub Filled : SpeadApiItem → List ℕ → List ℕ → ℤ × SpeadApiItem → Type 0
Filled itm src bytes r =
    (r.0 ≡ to_int (length src))
    × (held (r.1) ≡ bytes)
    × IsItem (r.1)
    × (r.1.i_len ≡ itm.i_len)
    × (r.1.i_id ≡ itm.i_id)

-- `copy_to_spead_item`: bytes that fit replace what the item held, and others are refused with -1 and
-- change nothing.
pub copy_to-held :
    (itm : SpeadApiItem) (src : List ℕ)
    → IsItem itm
    → (length src ≤ itm.i_len → Filled itm src src (copy_to_spead_item itm src))
      × (itm.i_len < length src → copy_to_spead_item itm src ≡ (negsuc 0, itm))
unfolding copy_to_spead_item
copy_to-held itm src is = (
  (λ fits.
      let yes : leb (length src) itm.i_len ≡ true = ground arith in
      rw yes (
        refl,
        take-append_exact src (drop (length src) itm.i_data),
        record {
          whole =
              length-append src (drop (length src) itm.i_data)
              ∙ omega (arith, length-drop (length src) itm.i_data, is.whole);
          within = fits;
          small = is.small;
        },
        refl,
        refl,
      )),
  (λ large. let no : leb (length src) itm.i_len ≡ false = ground arith in rw no),
)

-- `append_copy_to_spead_item`: bytes that fit behind what the item holds are added to it, and others
-- are refused with -1 and change nothing.
pub append-held :
    (itm : SpeadApiItem) (src : List ℕ)
    → IsItem itm
    → length src < 2 ^ 63
    → (itm.i_data_len + length src ≤ itm.i_len
        → Filled itm src (held itm ++ src) (append_copy_to_spead_item itm src))
      × (itm.i_len < itm.i_data_len + length src
          → append_copy_to_spead_item itm src ≡ (negsuc 0, itm))
unfolding append_copy_to_spead_item
append-held itm src is room = (
  (λ fits.
      let sum : (length src + itm.i_data_len) % 2 ^ 64 ≡ itm.i_data_len + length src =
        omega (arith, is.small) in
      let new : (itm.i_data_len + length src) % 2 ^ 64 ≡ itm.i_data_len + length src =
        omega (arith, is.small) in
      let yes : leb (itm.i_data_len + length src) itm.i_len ≡ true = ground arith in
      let rest = drop (itm.i_data_len + length src) itm.i_data in
      let count : length (held itm) ≡ itm.i_data_len =
        length-take itm.i_data_len itm.i_data ∙ omega (arith, is.whole, is.within) in
      let front : length (held itm ++ src) ≡ itm.i_data_len + length src =
        length-append (held itm) src ∙ ap (λ n. n + length src) count in
      let whole : length (held itm ++ (src ++ rest)) ≡ itm.i_len =
        length-append (held itm) (src ++ rest)
        ∙ omega (
          arith,
          count,
          length-append src rest,
          length-drop (itm.i_data_len + length src) itm.i_data,
          is.whole,
        ) in
      let holds : take (itm.i_data_len + length src) (held itm ++ (src ++ rest)) ≡ held itm ++ src =
        subst (λ n. take n (held itm ++ (src ++ rest)) ≡ held itm ++ src) front
          (subst (λ l. take (length (held itm ++ src)) l ≡ held itm ++ src)
            (append_assoc (held itm) src rest) (take-append_exact (held itm ++ src) rest)) in
      rw (sum, yes, new)
        (refl, holds, record { whole = whole; within = fits; small = is.small }, refl, refl)),
  (λ large.
      let no : leb ((length src + itm.i_data_len) % 2 ^ 64) itm.i_len ≡ false =
        ground (arith, is.small, is.within) in
      rw no),
)
