-- ===== src/Receiver/Convert/Deliver.antt =====
-- src/spead.c: `convert_to_ig` on all the items of a heap, in the order in which they were found.
use mathlib.Core.List.{append-nil, append_assoc}
use spead.Base.{
  ℕ, suc, ◌+◌, ◌^◌, ◌≤◌, ◌<◌, ◌≡◌, refl, ap, sym, ◌∙◌, true, false, some, List, [], ◌∷◌, ◌++◌, ◌==◌,
  if◌then◌else◌, length, get_elem?, arith, length-append, Bool-cases, inl, inr,
}
use spead.Base.Int.{pos}
use spead.Packet.{SpeadPacket}
use spead.Packet.Word.{directaddr}
use spead.Stack.{ask}
use spead.Stack.Funnel.{Accepts, state_after}
use spead.HashTable.{HashObject}
use spead.HashTable.Single.{Cursor}
use spead.ItemGroup.{SpeadApiItem}
use spead.ItemGroup.Fill.{held}
use spead.Receiver.Items.{SpeadApiItem2, int64_len}
use spead.Receiver.Items.Lengths.{in_order, get_elem?-append_exact}
use spead.Receiver.Convert.{Parcel, convert_item, convert_to_ig}
use spead.Receiver.Convert.Place.{Before}
use spead.Receiver.Convert.Single.{item_bytes, behind_item, convert_item-converts}

-- The ids and the data of the items of a group.
abbrev pub contents : List SpeadApiItem → List (ℕ × List ℕ)
contents [] = []
contents (itm ∷ l) = (itm.i_id, held itm) ∷ contents l

-- What the items are to deliver from the payload `left`; an item with no length is left out.
abbrev pub delivered : List SpeadApiItem2 → List ℕ → List (ℕ × List ℕ)
delivered [] left = []
delivered (x ∷ xs) left =
    if x.i_len == 0
    then delivered xs (behind_item x left)
    else (x.i_id, item_bytes x left) ∷ delivered xs (behind_item x left)

-- The bytes of the group that they need.
abbrev pub space : List SpeadApiItem2 → ℕ
space [] = 0
space (x ∷ xs) = if x.i_len == 0 then space xs else x.i_len + 40 + space xs

-- The payload has the bytes of the items, the fuel is enough for each, and a value has 8 bytes.
abbrev pub AllSupplied : ℕ → List SpeadApiItem2 → List ℕ → Type 0
AllSupplied fuel [] left = Unit
AllSupplied fuel (x ∷ xs) left =
    ((x.i_mode == directaddr) ≡ true → (x.i_len ≤ length left) × (x.i_len ≤ fuel))
    × ((x.i_mode == directaddr) ≡ false → x.i_len ≡ int64_len)
    × AllSupplied fuel xs (behind_item x left)

contents-append : (l m : List SpeadApiItem) → contents (l ++ m) ≡ contents l ++ contents m
contents-append [] m = refl
contents-append (itm ∷ l) m = ap (λ t. (itm.i_id, held itm) ∷ t) (contents-append l m)

contents-more :
    (g g' : List SpeadApiItem) (itm : SpeadApiItem) (x : SpeadApiItem2) (xs : List SpeadApiItem2)
    (left : List ℕ)
    → g' ≡ g ++ itm ∷ []
    → itm.i_id ≡ x.i_id
    → held itm ≡ item_bytes x left
    → (x.i_len == 0) ≡ false
    → contents g' ++ delivered xs (behind_item x left) ≡ contents g ++ delivered (x ∷ xs) left
contents-more g g' itm x xs left added named holds full =
    let rest = delivered xs (behind_item x left) in
    rw (full, added)
      (ap (λ t. t ++ rest) (contents-append g (itm ∷ []))
        ∙ append_assoc (contents g) ((itm.i_id, held itm) ∷ []) rest
        ∙ rw (named, holds) refl)

-- The group after all the items.
pub record Delivered (os : List (List (HashObject SpeadPacket))) (fuel base : ℕ)
    (xs : List SpeadApiItem2) (left : List ℕ) (cp : Parcel) (c : Cursor SpeadPacket) : Type 0 where
  pub parcel : Parcel
  pub cursor : Cursor SpeadPacket
  pub accepts :
      Accepts (some (convert_to_ig (length os) os fuel)) (in_order base (length xs)) (some (cp, c))
  pub after :
      state_after
        (some (convert_to_ig (length os) os fuel))
        (in_order base (length xs))
        (some (cp, c))
      ≡ some (parcel, cursor)
  pub holds : contents parcel.p_ig.g_map ≡ contents cp.p_ig.g_map ++ delivered xs left

module _ (os : List (List (HashObject SpeadPacket))) (fuel : ℕ) where
  -- The callback on the item at a place.
  convert_at :
      (pre : List SpeadApiItem2) (x : SpeadApiItem2) (xs : List SpeadApiItem2) (cp : Parcel)
      (c : Cursor SpeadPacket)
      → cp.p_c.d_items ≡ pre ++ x ∷ xs
      → convert_to_ig (length os) os fuel (length pre) (some (cp, c))
        ≡ convert_item (length os) os fuel x cp c
  unfolding convert_to_ig
  convert_at pre x xs cp c here =
      let found = ap (λ l. get_elem? l (length pre)) here ∙ get_elem?-append_exact pre x xs in
      rw (found, convert_to_ig)

  skip_empty :
      (x : SpeadApiItem2) (cp : Parcel) (c : Cursor SpeadPacket)
      → (x.i_len == 0) ≡ true
      → convert_item (length os) os fuel x cp c ≡ (pos 0, some (cp, c))
  unfolding convert_item
  skip_empty x cp c h = rw h

  -- One item, and then the others.
  next_item :
      (pre : List SpeadApiItem2) (x : SpeadApiItem2) (xs : List SpeadApiItem2) (left left' : List ℕ)
      (cp cp' : Parcel) (c c' : Cursor SpeadPacket)
      → convert_to_ig (length os) os fuel (length pre) (some (cp, c)) ≡ (pos 0, some (cp', c'))
      → (rest : Delivered os fuel (length (pre ++ x ∷ [])) xs left' cp' c')
      → contents rest.parcel.p_ig.g_map ≡ contents cp.p_ig.g_map ++ delivered (x ∷ xs) left
      → Delivered os fuel (length pre) (x ∷ xs) left cp c
  unfolding ask
  next_item pre x xs left left' cp cp' c c' run rest holds =
      let f = some (convert_to_ig (length os) os fuel) in
      let len : length (pre ++ x ∷ []) ≡ suc (length pre) =
        omega (arith, length-append pre (x ∷ [])) in
      record {
        parcel = rest.parcel;
        cursor = rest.cursor;
        accepts = rw run (refl, rw len at (rest.accepts));
        after =
            ap (λ r. state_after f (in_order (suc (length pre)) (length xs)) (r.1)) run
            ∙ rw len at (rest.after);
        holds = holds;
      }

  behind_empty :
      (x : SpeadApiItem2) (left : List ℕ) → (x.i_len == 0) ≡ true → behind_item x left ≡ left
  behind_empty x left empty =
      let none_long : x.i_len ≡ 0 = ground arith in
      elim (Bool-cases (x.i_mode == directaddr)) [
        | inl direct ↦ rw (direct, none_long) refl
        | inr value ↦ rw value refl
      ]

  -- `convert_to_ig` on all the items of a heap in their order, from the one behind `pre` on, where the
  -- cursor stands in front of the payload's bytes `left`, which are enough for the items, and the group
  -- has room: no item is refused, and the group's items are then those that it had, and one for
  -- each item with a length, with its id and its bytes of the payload or of the value.
  pub deliver_all :
      (pre xs : List SpeadApiItem2) (left : List ℕ) (cp : Parcel) (c : Cursor SpeadPacket)
      → cp.p_c.d_items ≡ pre ++ xs
      → Before os c cp.p_c.d_off left
      → cp.p_c.d_remaining ≡ 0
      → AllSupplied fuel xs left
      → cp.p_ig.g_off + space xs ≤ cp.p_ig.g_size
      → cp.p_ig.g_size < 2 ^ 63
      → Delivered os fuel (length pre) xs left cp c
  deliver_all pre [] left cp c here b rem a room small = record {
    parcel = cp;
    cursor = c;
    accepts = tt;
    after = refl;
    holds = sym (append-nil (contents cp.p_ig.g_map));
  }
  deliver_all pre (x ∷ xs) left cp c here b rem (direct, value, a) room small =
      let split = sym (append_assoc pre (x ∷ []) xs) in
      let at = convert_at pre x xs cp c here in
      let then_left = behind_item x left in
      elim (Bool-cases (x.i_len == 0)) [
        | inl empty ↦
            let rest =
              deliver_all (pre ++ x ∷ []) xs then_left cp c (here ∙ split)
                (rw (behind_empty x left empty) b) rem a (rw empty at (room)) small in
            next_item pre x xs left then_left cp cp c c (at ∙ skip_empty x cp c empty) rest
              (rw empty (rest.holds))
        | inr full ↦
            let needs : space (x ∷ xs) ≡ x.i_len + 40 + space xs = rw full refl in
            let one =
              convert_item-converts os fuel x cp c left b rem (ground arith) direct value
                (omega (arith, needs)) small in
            let rest =
              deliver_all (pre ++ x ∷ []) xs then_left one.parcel one.cursor
                (one.same_items ∙ here ∙ split) one.stands one.none_asked a
                (omega (arith, needs, one.used, one.same_size)) (omega (arith, one.same_size)) in
            next_item pre x xs left then_left cp one.parcel c one.cursor (at ∙ one.done) rest (
              rest.holds
              ∙ contents-more cp.p_ig.g_map one.parcel.p_ig.g_map one.item x xs left one.added
                  one.named one.holds full)
      ]
