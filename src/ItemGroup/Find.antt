-- ===== src/ItemGroup/Find.antt =====
-- src/itemgroup.c: `get_spead_item_with_id` walks the items of a group.
use spead.Base.{
  ℕ, zero, suc, ◌+◌, ◌-◌, ◌%◌, ◌^◌, ◌≤◌, ◌<◌, ◌≡◌, refl, ap, ◌∙◌, true, false, Option, none, some,
  List, [], ◌∷◌, arith, length, ltb, leb, ◌==◌, if◌then◌else◌, subst, Bool-cases, inl, inr, ◌⊎◌,
}
use spead.ItemGroup.{
  SpeadApiItem, SpeadItemGroup, item_struct, item_size, len_end, item_at, with_len,
  get_spead_item_at_off, get_next_spead_item, find_loop, get_spead_item_with_id,
}
use spead.ItemGroup.Cut.{taken, AllSized, IsGroup}

-- The first item with an id.
abbrev pub find_id : ℕ → List SpeadApiItem → Option SpeadApiItem
find_id iid [] = none
find_id iid (x ∷ rest) = if x.i_id == iid then some x else find_id iid rest

-- From an offset on, the mapping holds these items and then zero bytes.
abbrev pub Holds : List SpeadApiItem → ℕ → List SpeadApiItem → Type 0
Holds xs off rest = (k : ℕ) → item_at xs (off + k) ≡ item_at rest k

pub Holds-head :
    (xs : List SpeadApiItem) (off : ℕ) (x : SpeadApiItem) (rest : List SpeadApiItem)
    → Holds xs off (x ∷ rest)
    → item_at xs off ≡ some (some x)
unfolding item_at
Holds-head xs off x rest h = let e : off + 0 ≡ off = omega arith in rw e at (h 0)

pub Holds-next :
    (xs : List SpeadApiItem) (off : ℕ) (x : SpeadApiItem) (rest : List SpeadApiItem)
    → 0 < item_size x.i_len
    → Holds xs off (x ∷ rest)
    → Holds xs (off + item_size x.i_len) rest
unfolding item_at
Holds-next xs off x rest more h k =
    let n = item_size x.i_len in
    let e : off + n + k ≡ off + (n + k) = omega arith in
    let back : (n + k) - n ≡ k = omega arith in
    let there : (n + k == 0) ≡ false = ground arith in
    let behind : ltb (n + k) n ≡ false = ground arith in
    rw e (h (n + k) ∙ rw (there, behind, back) refl)

-- What is read behind the last item: the end of the mapping, or a structure of zeros.
abbrev pub IsReadable : SpeadItemGroup → Type 0
IsReadable ig = (ig.g_off ≡ ig.g_size) ⊎ (ig.g_off + len_end ≤ ig.g_size)

pub at_end :
    (ig : SpeadItemGroup)
    → IsReadable ig
    → Holds ig.g_map ig.g_off []
    → get_spead_item_at_off ig ig.g_off ≡ some none
unfolding get_spead_item_at_off with_len item_at
at_end ig r h = elim r [
  | inl full ↦ let past : leb ig.g_size ig.g_off ≡ true = ground arith in rw past
  | inr room ↦
      let inside : leb ig.g_size ig.g_off ≡ false = ground arith in
      let read : ltb ig.g_size (ig.g_off + len_end) ≡ false = ground arith in
      let e : ig.g_off + 0 ≡ ig.g_off = omega arith in
      let at : item_at ig.g_map ig.g_off ≡ some none = rw e at (h 0) in rw (inside, at, read)
]

pub at_item :
    (ig : SpeadItemGroup) (off : ℕ) (x : SpeadApiItem) (rest : List SpeadApiItem)
    → off < ig.g_size
    → 0 < x.i_len
    → Holds ig.g_map off (x ∷ rest)
    → get_spead_item_at_off ig off ≡ some (some x)
unfolding get_spead_item_at_off with_len
at_item ig off x rest lt more h =
    let inside : leb ig.g_size off ≡ false = ground arith in
    let sized : (x.i_len == 0) ≡ false = ground arith in
    rw (inside, Holds-head ig.g_map off x rest h, sized)

-- The outcome of the search among the items that are left.
abbrev Found : SpeadItemGroup → ℕ → ℕ → Option SpeadApiItem → ℕ → List SpeadApiItem → Type 0
Found ig fuel iid itm cursor rest =
    (off : ℕ) × (find_loop fuel ig iid itm cursor ≡ some (find_id iid rest, off))

find_rest :
    (ig : SpeadItemGroup) (iid : ℕ) (rest : List SpeadApiItem) (fuel off cursor : ℕ)
    (itm : Option SpeadApiItem)
    → length rest < fuel
    → ig.g_size < 2 ^ 63
    → ig.g_off ≤ ig.g_size
    → IsReadable ig
    → AllSized rest
    → off + taken rest ≡ ig.g_off
    → Holds ig.g_map off rest
    → get_next_spead_item ig itm cursor ≡ (get_spead_item_at_off ig off, off)
    → Found ig fuel iid itm cursor rest
unfolding find_loop get_next_spead_item
find_rest ig iid rest zero off cursor itm enough small inside r sized end h next =
    absurd (omega arith)
find_rest ig iid [] (suc fuel) off cursor itm enough small inside r sized end h next =
    let e : off ≡ ig.g_off = omega (arith, end) in
    let at : get_spead_item_at_off ig off ≡ some none =
      rw e (at_end ig r (subst (λ o. Holds ig.g_map o []) e h)) in
    (off, rw (next, find_loop, at, next))
find_rest ig iid (x ∷ rest) (suc fuel) off cursor itm enough small inside r sized end h next =
    let step : item_size x.i_len ≡ x.i_len + item_struct = omega (arith, sized.1) in
    let at = at_item ig off x rest (omega (arith, end, inside)) sized.0 h in
    let onward : (off + item_size x.i_len) % 2 ^ 64 ≡ off + item_size x.i_len =
      omega (arith, end, inside) in
    elim (Bool-cases (x.i_id == iid)) [
      | inl same ↦ (off, rw (next, find_loop, at, same, next))
      | inr differs ↦
          let (o, run) =
            find_rest ig iid rest fuel (off + item_size x.i_len) off (some x) (omega arith) small
              inside r sized.3 (omega (arith, end)) (Holds-next ig.g_map off x rest (omega arith) h)
              (rw onward refl) in
          (o, rw (next, find_loop, at, differs, next, run))
    ]

-- `get_spead_item_with_id` on a group of less than 2 ^ 63 bytes whose items have some bytes each and lie
-- one behind the other, and behind whose items either the mapping ends or a length of zero can be
-- read: whatever the static offset was, the search ends,
-- within a round more than there are items, with the first item that has the id, and with NULL where
-- none has it.
pub with_id-find_id :
    (ig : SpeadItemGroup) (fuel iid cursor : ℕ)
    → IsGroup ig
    → IsReadable ig
    → length ig.g_map < fuel
    → (off : ℕ) × (get_spead_item_with_id fuel ig iid cursor ≡ some (find_id iid ig.g_map, off))
unfolding get_spead_item_with_id get_next_spead_item
with_id-find_id ig fuel iid cursor is r enough =
    find_rest ig iid ig.g_map fuel 0 cursor none enough is.small is.inside r is.sized
      (omega (arith, is.packed)) (λ k. ap (item_at ig.g_map) (omega arith)) refl
