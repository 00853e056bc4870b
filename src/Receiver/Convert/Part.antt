-- ===== src/Receiver/Convert/Part.antt =====
-- src/spead.c: one call of `copy_direct_spead_item`, on a packet that carries bytes.
use spead.Base.{
  ℕ, zero, suc, ◌+◌, ◌-◌, ◌%◌, ◌^◌, ◌≤◌, ◌<◌, ◌≡◌, refl, ap, sym, ◌∙◌, true, false, some, List, [],
  ◌∷◌, ◌++◌, ◌==◌, ltb, leb, if◌then◌else◌, length, get_elem?, set, take, drop, arith,
  length-append, length-take, length-drop, Bool-cases, inl, inr,
}
use spead.Base.Int.{ℤ, pos, is_neg}
use spead.Base.Slices.{range-take, drop-drop}
use spead.Packet.{SpeadPacket}
use spead.SpeadHeap.Finalize.Extract.{payload_bytes, HasPayload, length-payload_bytes}
use spead.ItemGroup.{SpeadApiItem, append_copy_to_spead_item}
use spead.ItemGroup.Fill.{IsItem, held, append-held}
use spead.Receiver.Convert.{Parcel, payload_at, append_active, copy_part, copy_direct_spead_item}

-- A packet with a payload of from 1 to 2 ^ 31 - 1 bytes, which lies in its array.
pub record Carries (p : SpeadPacket) : Type 0 where
  pub some_bytes : 0 < p.payload_len
  pub few_bytes : p.payload_len < 2 ^ 31
  pub has_payload : HasPayload p

-- The parcel is at work on an item that wants `m` bytes more.
pub record Wants (cp : Parcel) (itm : SpeadApiItem) (m : ℕ) : Type 0 where
  pub active : get_elem? cp.p_ig.g_map cp.p_i ≡ some itm
  pub is_item : IsItem itm
  pub left : itm.i_data_len + m ≡ itm.i_len
  pub asked : (if cp.p_c.d_remaining == 0 then itm.i_len else cp.p_c.d_remaining) ≡ m

-- The item that an item has become, with these bytes behind those it held.
pub record Grown (itm itm' : SpeadApiItem) (bytes : List ℕ) : Type 0 where
  pub holds : held itm' ≡ held itm ++ bytes
  pub still : IsItem itm'
  pub same_len : itm'.i_len ≡ itm.i_len
  pub same_id : itm'.i_id ≡ itm.i_id
  pub data_len : itm'.i_data_len ≡ itm.i_data_len + length bytes

-- The parcel with its active item replaced, and the two fields of the place in the payload.
abbrev pub advanced : Parcel → ℕ → ℕ → SpeadApiItem → Parcel
advanced cp off remaining itm = record cp {
  p_c = record cp.p_c { d_off = off; d_remaining = remaining };
  p_ig = record cp.p_ig { g_map = set cp.p_ig.g_map cp.p_i itm };
}

-- The active item with these bytes appended.
abbrev pub grown : SpeadApiItem → List ℕ → SpeadApiItem
grown itm bytes = (append_copy_to_spead_item itm bytes).1

length-held : (itm : SpeadApiItem) → IsItem itm → length (held itm) ≡ itm.i_data_len
length-held itm is = length-take itm.i_data_len itm.i_data ∙ omega (arith, is.whole, is.within)

take-all {ℓ} : {A : Type ℓ} (n : ℕ) (xs : List A) → length xs ≤ n → take n xs ≡ xs
take-all zero [] h = refl
take-all zero (x ∷ xs) h = absurd (omega arith)
take-all (suc n) [] h = refl
take-all (suc n) (x ∷ xs) h = ap (λ t. x ∷ t) (take-all n xs (omega arith))

payload_at-bytes :
    (p : SpeadPacket) (off n : ℕ)
    → HasPayload p
    → off + n ≤ p.payload_len
    → payload_at p off n ≡ some (take n (drop off (payload_bytes p)))
unfolding payload_at
payload_at-bytes p off n h within =
    let own : ltb h.start p.data_addr ≡ false = ground (arith, h.inside) in
    let fits : leb (h.start - p.data_addr + off + n) (length p.bytes) ≡ true =
      ground (arith, h.fits) in
    let at = drop-drop p.bytes off (h.start - p.data_addr) in
    let part = range-take (drop (h.start - p.data_addr) p.bytes) off p.payload_len n within in
    rw (h.points, own, fits, part, at)

append_active-grown :
    (cp : Parcel) (itm : SpeadApiItem) (bytes : List ℕ) (off remaining : ℕ) (r : ℤ)
    → IsItem itm
    → itm.i_data_len + length bytes ≤ itm.i_len
    → length bytes < 2 ^ 31
    → Grown itm (grown itm bytes) bytes
      × (append_active cp itm (some bytes) off remaining r
          ≡ (r, some (advanced cp off remaining (grown itm bytes))))
unfolding append_active
append_active-grown cp itm bytes off remaining r is room few =
    let (answer, holds, is', len, id) = (append-held itm bytes is (omega arith)).0 room in
    let new = (append_copy_to_spead_item itm bytes).1 in
    let count : new.i_data_len ≡ itm.i_data_len + length bytes =
      sym (length-held new is')
      ∙ ap length holds
      ∙ length-append (held itm) bytes
      ∙ ap (λ n. n + length bytes) (length-held itm is) in
    let fine : is_neg (append_copy_to_spead_item itm bytes).0 ≡ false = rw answer (ground arith) in
    (record { holds = holds; still = is'; same_len = len; same_id = id; data_len = count }, rw fine)

-- A packet that holds more bytes than the item wants: those are copied, the item is done, and the
-- place is inside this packet.
pub copy_direct-part :
    (p : SpeadPacket) (cp : Parcel) (itm : SpeadApiItem) (m : ℕ)
    → Carries p
    → Wants cp itm m
    → 0 < m
    → cp.p_c.d_off + m < p.payload_len
    → Grown itm
        (grown itm (take m (drop cp.p_c.d_off (payload_bytes p))))
        (take m (drop cp.p_c.d_off (payload_bytes p)))
      × (copy_direct_spead_item p (some cp) ≡ (
        pos 2,
        some (
            advanced cp
              (cp.p_c.d_off + m)
              0
              (grown itm (take m (drop cp.p_c.d_off (payload_bytes p))))),
      ))
unfolding copy_direct_spead_item copy_part
copy_direct-part p cp itm m c w more inside =
    let bytes = take m (drop cp.p_c.d_off (payload_bytes p)) in
    let len : length bytes ≡ m =
      length-take m (drop cp.p_c.d_off (payload_bytes p))
      ∙ omega (
        arith,
        length-drop cp.p_c.d_off (payload_bytes p),
        length-payload_bytes p c.has_payload,
      ) in
    let cc : (p.payload_len + 2 ^ 64 - cp.p_c.d_off) % 2 ^ 64 ≡ p.payload_len - cp.p_c.d_off =
      omega (arith, c.few_bytes) in
    let off : (cp.p_c.d_off + m) % 2 ^ 64 ≡ cp.p_c.d_off + m = omega (arith, c.few_bytes) in
    let at = payload_at-bytes p cp.p_c.d_off m c.has_payload (omega arith) in
    let (more_held, done) =
      append_active-grown (record cp { p_c = record cp.p_c { d_remaining = m } }) itm bytes
        (cp.p_c.d_off + m) 0 (pos 2) w.is_item (omega (arith, len, w.left))
        (omega (arith, len, c.few_bytes)) in
    let short : leb p.payload_len m ≡ false = ground arith in
    let n1 : (p.payload_len - cp.p_c.d_off == 0) ≡ false = ground arith in
    let n2 : ltb p.payload_len (p.payload_len - cp.p_c.d_off) ≡ false = ground arith in
    let n3 : ltb m (p.payload_len - cp.p_c.d_off) ≡ true = ground arith in
    (
      more_held,
      rw (w.active, copy_direct_spead_item, w.asked, cc, short) (rw (n1, n2, n3, at, off) done),
    )

-- A packet that does not: the rest of it is copied, and the place is the start of the next packet. The
-- answer is 0 where the item is done, and 1 where it wants more.
pub copy_direct-whole :
    (p : SpeadPacket) (cp : Parcel) (itm : SpeadApiItem) (m : ℕ)
    → Carries p
    → Wants cp itm m
    → cp.p_c.d_off < p.payload_len
    → p.payload_len ≤ cp.p_c.d_off + m
    → Grown itm
        (grown itm (drop cp.p_c.d_off (payload_bytes p)))
        (drop cp.p_c.d_off (payload_bytes p))
      × (copy_direct_spead_item p (some cp) ≡ (
        if m == p.payload_len - cp.p_c.d_off then pos 0 else pos 1,
        some (
            advanced cp 0
              (m - (p.payload_len - cp.p_c.d_off))
              (grown itm (drop cp.p_c.d_off (payload_bytes p)))),
      ))
unfolding copy_direct_spead_item copy_part
copy_direct-whole p cp itm m c w before beyond =
    let n = p.payload_len - cp.p_c.d_off in
    let bytes = drop cp.p_c.d_off (payload_bytes p) in
    let len : length bytes ≡ n =
      length-drop cp.p_c.d_off (payload_bytes p)
      ∙ ap (λ k. k - cp.p_c.d_off) (length-payload_bytes p c.has_payload) in
    let cc : (p.payload_len + 2 ^ 64 - cp.p_c.d_off) % 2 ^ 64 ≡ n = omega (arith, c.few_bytes) in
    let small : m < 2 ^ 63 = omega (arith, w.left, w.is_item.small) in
    let rest : (m + 2 ^ 64 - n) % 2 ^ 64 ≡ m - n = omega arith in
    let ends : (m - n == 0) ≡ (m == n) = ground arith in
    let at =
      payload_at-bytes p cp.p_c.d_off n c.has_payload (omega arith)
      ∙ ap some (take-all n bytes (omega (arith, len))) in
    let (more_held, done) =
      append_active-grown (record cp { p_c = record cp.p_c { d_remaining = m } }) itm bytes 0
        (m - n) (if m == n then pos 0 else pos 1) w.is_item (omega (arith, len, w.left))
        (omega (arith, len, c.few_bytes)) in
    let n1 : (n == 0) ≡ false = ground arith in
    let n2 : ltb p.payload_len n ≡ false = ground arith in
    let n3 : ltb n n ≡ false = ground arith in
    let n4 : ltb m n ≡ false = ground arith in
    (
      more_held,
      rw (w.active, copy_direct_spead_item, w.asked, cc)
          (elim (Bool-cases (leb p.payload_len m)) [
            | inl all_of_it ↦ rw (all_of_it, n1, n2, n3, rest, ends, at) done
            | inr less ↦ rw (less, n1, n2, n4, rest, ends, at) done
          ]),
    )
