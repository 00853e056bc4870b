-- ===== src/Packet/Unpack.antt =====
-- src/spead_packet.c: what `spead_packet_unpack_items` reads, and what it makes of the items.
use spead.Base.{
  ℕ, zero, suc, ◌+◌, ◌*◌, ◌≤◌, ◌<◌, ◌≡◌, refl, subst, ◌∙◌, inl, inr, Bool, false, ◌&&◌, ◌||◌,
  Option-cases, subst, Option, none, some, List, [], ◌∷◌, ◌==◌, if◌then◌else◌, length, take, drop,
  arith, length-take, length-drop,
}
use spead.Base.Int.{ℤ, pos}
use spead.Packet.Word.{
  from_network, spead_item, item_id, item_addr, spead_itemlen, spead_max_packet_len,
}
use spead.Packet.{
  SpeadPacket, heap_cnt_id, heap_len_id, payload_off_id, payload_len_id, stream_ctrl_id,
  stream_ctrl_term_val, unpack_item, unpack_loop, spead_packet_unpack_items,
}

-- A word is read exactly where all of its bytes lie in the array.
pub spead_item-total :
    (bytes : List ℕ) (n : ℕ) → n * 8 + 8 ≤ length bytes → (w : ℕ) × (spead_item bytes n ≡ some w)
unfolding spead_item
spead_item-total bytes n h =
    let whole : length (take 8 (drop (n * 8) bytes)) ≡ 8 =
      omega (arith, length-take 8 (drop (n * 8) bytes), length-drop (n * 8) bytes) in
    (from_network 0 (take 8 (drop (n * 8) bytes)), rw whole)

spead_item-none : (bytes : List ℕ) (n : ℕ) → length bytes < n * 8 + 8 → spead_item bytes n ≡ none
unfolding spead_item
spead_item-none bytes n h =
    let part : length (take 8 (drop (n * 8) bytes)) < 8 =
      omega (arith, length-take 8 (drop (n * 8) bytes), length-drop (n * 8) bytes) in
    ground arith

-- One item changes neither the array nor the number of items.
pub unpack_item-frame :
    (item : ℕ) (pkt : SpeadPacket)
    → ((unpack_item item pkt).bytes ≡ pkt.bytes) × ((unpack_item item pkt).n_items ≡ pkt.n_items)
unfolding unpack_item
unpack_item-frame item pkt = ground arith

unpack_loop-total :
    (n i : ℕ) (pkt : SpeadPacket)
    → (i + n) * 8 ≤ length pkt.bytes
    → (p : SpeadPacket) × (unpack_loop n i pkt ≡ some p) × (p.n_items ≡ pkt.n_items)
unfolding unpack_loop
unpack_loop-total zero i pkt h = (pkt, refl, refl)
unpack_loop-total (suc n) i pkt h =
    let (w, e) = spead_item-total pkt.bytes i (omega arith) in
    let (same, kept) = unpack_item-frame w pkt in
    let (p, run, items) = unpack_loop-total n (suc i) (unpack_item w pkt) (rw same (omega arith)) in
    (p, rw (e, unpack_loop) run, items ∙ kept)

unpack_loop-none :
    (n i : ℕ) (pkt : SpeadPacket)
    → 0 < n
    → length pkt.bytes < (i + n) * 8
    → unpack_loop n i pkt ≡ none
unfolding unpack_loop
unpack_loop-none zero i pkt more h = absurd (omega arith)
unpack_loop-none (suc zero) i pkt more h =
    rw (spead_item-none pkt.bytes i (omega arith), unpack_loop)
unpack_loop-none (suc (suc n)) i pkt more h = elim (Option-cases (spead_item pkt.bytes i)) [
  | inl e ↦ rw (e, unpack_loop)
  | inr (w, e) ↦
      let same = unpack_item-frame w pkt in
      rw (e, unpack_loop)
        (unpack_loop-none (suc n) (suc i) (unpack_item w pkt) (omega arith)
          (rw (same.0) (omega arith)))
]

-- On a packet with the array of the source, `spead_packet_unpack_items` stays inside the array and
-- returns eight times the number of items if the header announced at most 1149 of them; with more,
-- up to the 65535 that the header can announce, it reads past the end.
pub unpack_items_bounds :
    (pkt : SpeadPacket)
    → length pkt.bytes ≡ spead_max_packet_len
    → (pkt.n_items ≤ 1149
        → (p : SpeadPacket) × (spead_packet_unpack_items pkt
            ≡ some (pos (pkt.n_items * spead_itemlen), p)))
      × (1149 < pkt.n_items → spead_packet_unpack_items pkt ≡ none)
unfolding spead_packet_unpack_items
unpack_items_bounds pkt h = (
  (λ few.
      let (p, run, items) = unpack_loop-total pkt.n_items 1 pkt (omega arith) in
      (p, rw (run, spead_packet_unpack_items, items))),
  (λ many.
      rw (
        unpack_loop-none pkt.n_items 1 pkt (omega arith) (omega arith),
        spead_packet_unpack_items,
      )),
)

-- The item pointers of indices `i` to `i + n - 1`.
unfoldable pub items_from : ℕ → ℕ → List ℕ → Option (List ℕ)
items_from zero i bytes = some []
items_from (suc n) i bytes = elim (spead_item bytes i) [
  | none ↦ none
  | some item ↦ elim (items_from n (suc i) bytes) [ none ↦ none | some items ↦ some (item ∷ items) ]
]

-- The address of the last item pointer with a given id.
unfoldable pub last_addr : ℕ → List ℕ → Option ℕ
last_addr id [] = none
last_addr id (item ∷ items) = elim (last_addr id items) [
  | none ↦ if item_id item == id then some (item_addr item) else none
  | some a ↦ some a
]

abbrev pub or_signed : ℤ → Option ℕ → ℤ
or_signed d none = d
or_signed d (some a) = pos a

abbrev pub or_addr : ℕ → Option ℕ → ℕ
or_addr d none = d
or_addr d (some a) = a

-- Some item pointer is the stream's end.
unfoldable pub has_term : List ℕ → Bool
has_term [] = false
has_term (item ∷ items) =
    (item_id item == stream_ctrl_id && item_addr item == stream_ctrl_term_val) || has_term items

-- What a packet holds after its items are unpacked, field by field.
pub record IsUnpacked (pkt : SpeadPacket) (items : List ℕ) (p : SpeadPacket) : Type 0 where
  pub heap_cnt : p.heap_cnt ≡ or_signed pkt.heap_cnt (last_addr heap_cnt_id items)
  pub heap_len : p.heap_len ≡ or_signed pkt.heap_len (last_addr heap_len_id items)
  pub payload_off : p.payload_off ≡ or_addr pkt.payload_off (last_addr payload_off_id items)
  pub payload_len : p.payload_len ≡ or_addr pkt.payload_len (last_addr payload_len_id items)
  pub term : p.is_stream_ctrl_term ≡ (if has_term items then 1 else pkt.is_stream_ctrl_term)
  pub bytes : p.bytes ≡ pkt.bytes
  pub n_items : p.n_items ≡ pkt.n_items
  pub payload : p.payload ≡ pkt.payload
  pub data_addr : p.data_addr ≡ pkt.data_addr

unpack_item-IsUnpacked :
    (item : ℕ) (items : List ℕ) (pkt p : SpeadPacket)
    → IsUnpacked (unpack_item item pkt) items p
    → IsUnpacked pkt (item ∷ items) p
unfolding unpack_item last_addr has_term
unpack_item-IsUnpacked item items pkt p u = record {
  heap_cnt = ground arith;
  heap_len = ground arith;
  payload_off = ground arith;
  payload_len = ground arith;
  term = ground arith;
  bytes = ground arith;
  n_items = ground arith;
  payload = ground arith;
  data_addr = ground arith;
}

-- The loop over the items that the array holds gives the fields their values.
unpack_loop-IsUnpacked :
    (n i : ℕ) (pkt : SpeadPacket) (items : List ℕ)
    → items_from n i pkt.bytes ≡ some items
    → (p : SpeadPacket) × (unpack_loop n i pkt ≡ some p) × IsUnpacked pkt items p
unfolding unpack_loop items_from last_addr has_term
unpack_loop-IsUnpacked zero i pkt [] h = (
  pkt,
  refl,
  record {
    heap_cnt = refl;
    heap_len = refl;
    payload_off = refl;
    payload_len = refl;
    term = refl;
    bytes = refl;
    n_items = refl;
    payload = refl;
    data_addr = refl;
  },
)
unpack_loop-IsUnpacked zero i pkt (item ∷ items) h = cc
unpack_loop-IsUnpacked (suc n) i pkt items h = elim (Option-cases (spead_item pkt.bytes i)) [
  | inl e ↦ cc (rw (e, items_from) at h)
  | inr (w, e) ↦ elim (Option-cases (items_from n (suc i) pkt.bytes)) [
    | inl none_left ↦ cc (rw (e, none_left, items_from) at h)
    | inr (rest, f) ↦
        let same = unpack_item-frame w pkt in
        let (p, run, u) =
          unpack_loop-IsUnpacked n (suc i) (unpack_item w pkt) rest (rw (same.0) f) in
        let whole : w ∷ rest ≡ items = ground arith in
        (
          p,
          rw (e, unpack_loop) run,
          subst (λ t. IsUnpacked pkt t p) whole (unpack_item-IsUnpacked w rest pkt p u),
        )
  ]
]

-- Where the array holds the items that the header announced, `spead_packet_unpack_items` returns
-- eight times their number, and each field of the packet is the address of the last item pointer
-- with the field's id, or what it was if there is none; the packet is marked as the stream's end if
-- some item says so, and keeps the mark that it had if none does; the array, the number of items and the payload stay.
pub unpack_items-last :
    (pkt : SpeadPacket) (items : List ℕ)
    → items_from pkt.n_items 1 pkt.bytes ≡ some items
    → (p : SpeadPacket) × (spead_packet_unpack_items pkt
        ≡ some (pos (pkt.n_items * spead_itemlen), p))
      × IsUnpacked pkt items p
unfolding spead_packet_unpack_items
unpack_items-last pkt items h =
    let (p, run, u) = unpack_loop-IsUnpacked pkt.n_items 1 pkt items h in
    (p, rw (run, spead_packet_unpack_items, u.n_items), u)
