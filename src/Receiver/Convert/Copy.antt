-- ===== src/Receiver/Convert/Copy.antt =====
-- src/spead.c: the copy of one item's bytes in `convert_to_ig`, from as many packets as it spans.
use mathlib.Core.List.{append-nil, append_assoc}
use spead.Base.{
  ℕ, zero, suc, ◌+◌, ◌-◌, ◌≤◌, ◌<◌, ◌≡◌, refl, ap, ◌∙◌, true, false, some, List, [], ◌∷◌, ◌++◌,
  ◌==◌, ltb, length, take, drop, arith, length-append, length-drop, Bool-cases, inl, inr, set-set,
  get_elem?-bound, get_elem?-set_self,
}
use spead.Base.Slices.{
  drop-cons, drop-drop, take-append, take-append_right, drop-append_left, drop-append_right,
}
use spead.Packet.{SpeadPacket}
use spead.SpeadHeap.Finalize.Extract.{payload_bytes, length-payload_bytes}
use spead.HashTable.{HashObject, s_get_object, s_next_packet}
use spead.HashTable.Single.{Cursor, seek, after_call, visit_place, single_traverse}
use spead.ItemGroup.{SpeadApiItem}
use spead.Receiver.Convert.{Parcel, copy_loop}
use spead.Receiver.Convert.Part.{Wants, Grown, advanced, grown, copy_direct-part, copy_direct-whole}
use spead.Receiver.Convert.Place.{Before, inside, behind, IsNext, seek-IsNext, table_payload}

-- The copy ends: the item has got these bytes, and the cursor stands in front of the others.
pub record Copied (len : ℕ) (os : List (List (HashObject SpeadPacket))) (fuel : ℕ)
    (c : Cursor SpeadPacket) (cp : Parcel) (itm : SpeadApiItem) (bytes rest : List ℕ) : Type 0 where
  pub cursor : Cursor SpeadPacket
  pub offset : ℕ
  pub result : SpeadApiItem
  pub got : Grown itm result bytes
  pub stands : Before os cursor offset rest
  pub runs : copy_loop len os fuel c cp ≡ some (cursor, advanced cp offset 0 result)

Grown-append :
    (a b c : SpeadApiItem) (xs ys : List ℕ) → Grown a b xs → Grown b c ys → Grown a c (xs ++ ys)
Grown-append a b c xs ys g h = record {
  holds = h.holds ∙ ap (λ t. t ++ ys) g.holds ∙ append_assoc _ xs ys;
  still = h.still;
  same_len = h.same_len ∙ g.same_len;
  same_id = h.same_id ∙ g.same_id;
  data_len = omega (arith, length-append xs ys, h.data_len, g.data_len);
}

-- What an item still wants after a part of it.
Wants-more :
    (cp : Parcel) (itm itm' : SpeadApiItem) (m n : ℕ) (bytes : List ℕ)
    → Wants cp itm m
    → Grown itm itm' bytes
    → length bytes ≡ n
    → n < m
    → Wants (advanced cp 0 (m - n) itm') itm' (m - n)
Wants-more cp itm itm' m n bytes w g len lt =
    let still_some : (m - n == 0) ≡ false = ground arith in
    record {
      active =
          get_elem?-set_self cp.p_ig.g_map cp.p_i itm'
            (get_elem?-bound cp.p_ig.g_map cp.p_i itm w.active);
      is_item = g.still;
      left = omega (arith, g.data_len, g.same_len, w.left, len);
      asked = rw still_some refl;
    }

module _ (os : List (List (HashObject SpeadPacket))) where
  -- One call that ends inside a packet.
  Copied-part :
      (fuel m : ℕ) (c : Cursor SpeadPacket) (cp : Parcel) (itm : SpeadApiItem) (left : List ℕ)
      (next : IsNext os cp.p_c.d_off left (seek c.cstate c.coi c.co (length os) os))
      → Wants cp itm m
      → 0 < m
      → cp.p_c.d_off + m < next.packet.payload_len
      → Copied (length os) os (suc fuel) c cp itm (take m left) (drop m left)
  unfolding copy_loop single_traverse visit_place after_call
  Copied-part fuel m c cp itm left next w more short =
      let p = next.packet in
      let (g, run) = copy_direct-part p cp itm m next.carries w more short in
      let size = length-drop cp.p_c.d_off (payload_bytes p) in
      let len = length-payload_bytes p next.carries.has_payload in
      let first =
        take-append (drop cp.p_c.d_off (payload_bytes p)) (table_payload next.others) m
          (omega (arith, size, len)) in
      let others =
        drop-append_left (drop cp.p_c.d_off (payload_bytes p)) (table_payload next.others) m
          (omega (arith, size, len)) in
      record {
        cursor = record { cstate = s_get_object; coi = next.index; co = some p ∷ [] };
        offset = cp.p_c.d_off + m;
        result = grown itm (take m (drop cp.p_c.d_off (payload_bytes p)));
        got = rw (next.begins, first) g;
        stands =
            inside p next.others refl next.stands next.carries next.plain short
              (rw (next.begins, others, drop-drop (payload_bytes p) m cp.p_c.d_off) refl);
        runs = rw (next.place, copy_loop, single_traverse, run) (rw run);
      }

  -- The bytes of the packet that the place is in, where the item wants all of them.
  whole_bytes :
      (m off : ℕ) (left : List ℕ) (found : _) (next : IsNext os off left found)
      → next.packet.payload_len ≤ off + m
      → (length (drop off (payload_bytes next.packet)) ≡ next.packet.payload_len - off)
        × (take m left
            ≡ drop off (payload_bytes next.packet)
              ++ take (m - (next.packet.payload_len - off)) (table_payload next.others))
        × (drop m left ≡ drop (m - (next.packet.payload_len - off)) (table_payload next.others))
  whole_bytes m off left found next beyond =
      let bytes = drop off (payload_bytes next.packet) in
      let len : length bytes ≡ next.packet.payload_len - off =
        length-drop off (payload_bytes next.packet)
        ∙ ap (λ k. k - off) (length-payload_bytes next.packet next.carries.has_payload) in
      let within : length bytes ≤ m = omega (arith, len) in
      (
        len,
        rw (next.begins) (
            take-append_right bytes (table_payload next.others) m within
            ∙ ap (λ k. bytes ++ take (m - k) (table_payload next.others)) len),
        rw (next.begins) (
            drop-append_right bytes (table_payload next.others) m within
            ∙ ap (λ k. drop (m - k) (table_payload next.others)) len),
      )

  -- The cursor behind that packet.
  behind_packet :
      (off : ℕ) (left : List ℕ) (found : _) (next : IsNext os off left found)
      → Before os
          (record { cstate = s_next_packet; coi = next.index; co = some next.packet ∷ [] })
          0
          (table_payload next.others)
  behind_packet off left found next =
      behind (some next.packet) next.others refl refl refl
        (drop-cons os next.index (some next.packet ∷ []) next.others next.stands).1 next.plain refl

  -- One call that ends with a packet.
  Copied-whole :
      (fuel m : ℕ) (c : Cursor SpeadPacket) (cp : Parcel) (itm : SpeadApiItem) (left : List ℕ)
      (next : IsNext os cp.p_c.d_off left (seek c.cstate c.coi c.co (length os) os))
      → Wants cp itm m
      → m ≡ next.packet.payload_len - cp.p_c.d_off
      → Copied (length os) os (suc fuel) c cp itm (take m left) (drop m left)
  unfolding copy_loop single_traverse visit_place after_call
  Copied-whole fuel m c cp itm left next w exact =
      let p = next.packet in
      let bytes = drop cp.p_c.d_off (payload_bytes p) in
      let lt = next.before_end in
      let (g, run) = copy_direct-whole p cp itm m next.carries w lt (omega arith) in
      let (len, first, others) = whole_bytes m cp.p_c.d_off left _ next (omega arith) in
      let ends : (m == p.payload_len - cp.p_c.d_off) ≡ true = ground arith in
      let none_left : m - (p.payload_len - cp.p_c.d_off) ≡ 0 = omega arith in
      record {
        cursor = record { cstate = s_next_packet; coi = next.index; co = some p ∷ [] };
        offset = 0;
        result = grown itm bytes;
        got = rw (first, none_left, append-nil bytes) g;
        stands = rw (others, none_left) (behind_packet cp.p_c.d_off left _ next);
        runs =
            let done = rw (ends, none_left) at (run) in
            rw (next.place, copy_loop, single_traverse, done) (rw done);
      }

  -- One call that ends with a packet where the item wants more, and the copy of the rest.
  Copied-more :
      (fuel m : ℕ) (c : Cursor SpeadPacket) (cp : Parcel) (itm : SpeadApiItem) (left : List ℕ)
      (next : IsNext os cp.p_c.d_off left (seek c.cstate c.coi c.co (length os) os))
      → Wants cp itm m
      → next.packet.payload_len - cp.p_c.d_off < m
      → Copied
          (length os)
          os
          fuel
          (record { cstate = s_next_packet; coi = next.index; co = some next.packet ∷ [] })
          (advanced cp 0
            (m - (next.packet.payload_len - cp.p_c.d_off))
            (grown itm (drop cp.p_c.d_off (payload_bytes next.packet))))
          (grown itm (drop cp.p_c.d_off (payload_bytes next.packet)))
          (take (m - (next.packet.payload_len - cp.p_c.d_off)) (table_payload next.others))
          (drop (m - (next.packet.payload_len - cp.p_c.d_off)) (table_payload next.others))
      → Copied (length os) os (suc fuel) c cp itm (take m left) (drop m left)
  unfolding copy_loop single_traverse visit_place after_call
  Copied-more fuel m c cp itm left next w more rest =
      let p = next.packet in
      let bytes = drop cp.p_c.d_off (payload_bytes p) in
      let lt = next.before_end in
      let (g, run) = copy_direct-whole p cp itm m next.carries w lt (omega arith) in
      let (len, first, others) = whole_bytes m cp.p_c.d_off left _ next (omega arith) in
      let wants : (m == p.payload_len - cp.p_c.d_off) ≡ false = ground arith in
      let on = rw wants at (run) in
      let twice = set-set cp.p_ig.g_map cp.p_i (grown itm bytes) rest.result in
      record {
        cursor = rest.cursor;
        offset = rest.offset;
        result = rest.result;
        got = rw first (Grown-append itm (grown itm bytes) rest.result bytes _ g rest.got);
        stands = rw others rest.stands;
        runs = rw (next.place, copy_loop, single_traverse, on) (rw on (rw twice at (rest.runs)));
      }

  -- The `while` of `convert_to_ig` on a table with at most one packet at each index, each of them with
  -- a payload of from 1 to 2 ^ 31 - 1 bytes in its array, with the cursor in front of the bytes `left`
  -- and an item that wants `m` of them, from 1 to as many as there are: with fuel `m` it ends, the item
  -- holds the first `m` bytes of `left` behind what it held, and the cursor stands in front of the others.
  pub copy_loop-copies :
      (fuel m : ℕ) (c : Cursor SpeadPacket) (cp : Parcel) (itm : SpeadApiItem) (left : List ℕ)
      → Before os c cp.p_c.d_off left
      → Wants cp itm m
      → 0 < m
      → m ≤ length left
      → m ≤ fuel
      → Copied (length os) os fuel c cp itm (take m left) (drop m left)
  copy_loop-copies zero m c cp itm left b w some_more there enough = absurd (omega arith)
  copy_loop-copies (suc fuel) m c cp itm left b w some_more there enough =
      let next = seek-IsNext os c cp.p_c.d_off left b (omega arith) in
      let p = next.packet in
      elim (Bool-cases (ltb (cp.p_c.d_off + m) p.payload_len)) [
        | inl part ↦ Copied-part fuel m c cp itm left next w some_more (ground arith)
        | inr whole ↦ elim (Bool-cases (m == p.payload_len - cp.p_c.d_off)) [
          | inl exact ↦ Copied-whole fuel m c cp itm left next w (ground arith)
          | inr more ↦
              let lt = next.before_end in
              let (len, first, others) = whole_bytes m cp.p_c.d_off left _ next (ground arith) in
              let (g, run) = copy_direct-whole p cp itm m next.carries w lt (ground arith) in
              let less : p.payload_len - cp.p_c.d_off < m = ground arith in
              Copied-more fuel m c cp itm left next w less (
                copy_loop-copies fuel (m - (p.payload_len - cp.p_c.d_off))
                  (record { cstate = s_next_packet; coi = next.index; co = some p ∷ [] })
                  (advanced cp 0 (m - (p.payload_len - cp.p_c.d_off))
                    (grown itm (drop cp.p_c.d_off (payload_bytes p))))
                  (grown itm (drop cp.p_c.d_off (payload_bytes p))) (table_payload next.others)
                  (behind_packet cp.p_c.d_off left _ next)
                  (Wants-more cp itm (grown itm (drop cp.p_c.d_off (payload_bytes p))) m
                    (p.payload_len - cp.p_c.d_off) (drop cp.p_c.d_off (payload_bytes p)) w g len
                    less)
                  (omega (arith, less))
                  (omega (
                    arith,
                    there,
                    len,
                    ap length next.begins,
                    length-append (drop cp.p_c.d_off (payload_bytes p)) (table_payload next.others),
                  ))
                  (omega (arith, less)))
        ]
      ]
