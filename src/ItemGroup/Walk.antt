-- ===== src/ItemGroup/Walk.antt =====
-- src/itemgroup.c: the walk over the items of a group by repeated `get_next_spead_item`.
use spead.Base.{
  ℕ, ◌+◌, ◌%◌, ◌^◌, ◌≤◌, ◌<◌, ◌≡◌, refl, ap, Option, none, some, List, [], ◌∷◌, arith, subst,
}
use spead.ItemGroup.{
  SpeadApiItem, SpeadItemGroup, item_struct, item_size, item_at, get_spead_item_at_off,
  get_next_spead_item,
}
use spead.ItemGroup.Cut.{taken, AllSized, IsGroup}
use spead.ItemGroup.Find.{Holds, Holds-next, IsReadable, at_end, at_item}

-- A cursor in front of the items `rest` of a group.
pub record Walks (ig : SpeadItemGroup) (itm : Option SpeadApiItem) (cursor : ℕ)
    (rest : List SpeadApiItem) : Type 0 where
  pub at : ℕ
  pub next : get_next_spead_item ig itm cursor ≡ (get_spead_item_at_off ig at, at)
  pub readable : IsReadable ig
  pub small : ig.g_size < 2 ^ 63
  pub inside : ig.g_off ≤ ig.g_size
  pub sized : AllSized rest
  pub end : at + taken rest ≡ ig.g_off
  pub holds : Holds ig.g_map at rest

-- A NULL starts the walk in front of all the items.
pub start-Walks :
    (ig : SpeadItemGroup) (cursor : ℕ) → IsGroup ig → IsReadable ig → Walks ig none cursor ig.g_map
unfolding get_next_spead_item
start-Walks ig cursor is r = record {
  at = 0;
  next = refl;
  readable = r;
  small = is.small;
  inside = is.inside;
  sized = is.sized;
  end = omega (arith, is.packed);
  holds = λ k. ap (item_at ig.g_map) (omega arith);
}

-- An item that is left is the next one.
pub next-item :
    (ig : SpeadItemGroup) (itm : Option SpeadApiItem) (cursor : ℕ) (x : SpeadApiItem)
    (rest : List SpeadApiItem) (w : Walks ig itm cursor (x ∷ rest))
    → get_next_spead_item ig itm cursor ≡ (some (some x), w.at)
next-item ig itm cursor x rest w =
    let there =
      at_item ig w.at x rest (omega (arith, w.end, w.inside, w.sized.0, w.sized.1)) (w.sized.0)
        w.holds in
    rw (w.next) (ap (λ r. (r, w.at)) there)

-- Behind it the walk goes on with the others.
pub Walks-behind :
    (ig : SpeadItemGroup) (itm : Option SpeadApiItem) (cursor : ℕ) (x : SpeadApiItem)
    (rest : List SpeadApiItem) (w : Walks ig itm cursor (x ∷ rest))
    → Walks ig (some x) w.at rest
unfolding get_next_spead_item
Walks-behind ig itm cursor x rest w =
    let step : item_size x.i_len ≡ x.i_len + item_struct = omega (arith, w.sized.1) in
    let onward : (w.at + item_size x.i_len) % 2 ^ 64 ≡ w.at + item_size x.i_len =
      omega (arith, w.end, w.inside, w.small) in
    record {
      at = w.at + item_size x.i_len;
      next = rw onward refl;
      readable = w.readable;
      small = w.small;
      inside = w.inside;
      sized = w.sized.3;
      end = omega (arith, w.end);
      holds = Holds-next ig.g_map w.at x rest (omega (arith, step)) w.holds;
    }

-- Behind the last item comes NULL.
pub next-end :
    (ig : SpeadItemGroup) (itm : Option SpeadApiItem) (cursor : ℕ) (w : Walks ig itm cursor [])
    → get_next_spead_item ig itm cursor ≡ (some none, w.at)
next-end ig itm cursor w =
    let e : w.at ≡ ig.g_off = omega (arith, w.end) in
    let there : get_spead_item_at_off ig w.at ≡ some none =
      rw e (at_end ig w.readable (subst (λ o. Holds ig.g_map o []) e w.holds)) in
    rw (w.next) (ap (λ r. (r, w.at)) there)
