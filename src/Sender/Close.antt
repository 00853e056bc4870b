-- ===== src/Sender/Close.antt =====
-- src/spead.c: what `packetize_item_group` has the packet's fields set to by unpacking it, before its
-- payload is copied and behind that.
use spead.Base.{
  ℕ, ◌+◌, ◌-◌, ◌*◌, ◌%◌, ◌^◌, ◌≤◌, ◌<◌, ◌≡◌, refl, ap, ◌∙◌, none, some, List, [], ◌∷◌, ◌==◌,
  if◌then◌else◌, false, length, arith,
}
use spead.Base.Int.{pos}
use spead.Packet.{
  SpeadPacket, heap_cnt_id, heap_len_id, payload_off_id, payload_len_id, stream_ctrl_id,
  spead_packet_unpack_header, spead_packet_unpack_items,
}
use spead.Packet.Header.{announced, header_build-accepted}
use spead.Packet.Unpack.{items_from, last_addr, or_signed, or_addr, IsUnpacked, unpack_items-last}
use spead.Packet.Word.{spead_item, item_build, item_id, item_addr, directaddr}
use spead.Packet.Word.Fields.{item_round_trip}
use spead.SpeadHeap.Finalize.Extract.{payload_bytes, HasPayload}
use spead.ItemGroup.{SpeadApiItem}
use spead.Sender.State.{immediateaddr}
use spead.Sender.Frame.{IsFramed, IsFilling, announces, base}
use spead.Sender.Open.{pointers}

-- No item has one of the ids that the packets use themselves, or one too wide for its field.
abbrev pub AllOrdinary : List SpeadApiItem → Type 0
AllOrdinary [] = Unit
AllOrdinary (x ∷ rest) = (stream_ctrl_id < x.i_id) × (x.i_id < 2 ^ 23) × AllOrdinary rest

last_addr-front :
    (id i a w : ℕ) (items : List ℕ)
    → item_id w ≡ i
    → item_addr w ≡ a
    → last_addr id items ≡ none
    → last_addr id (w ∷ items) ≡ (if i == id then some a else none)
unfolding last_addr
last_addr-front id i a w items named at before = rw (before, named, at) refl

last_addr-behind :
    (id a w : ℕ) (items : List ℕ) → last_addr id items ≡ some a → last_addr id (w ∷ items) ≡ some a
unfolding last_addr
last_addr-behind id a w items there = rw there refl

pub last_addr-pointers :
    (id : ℕ) (items : List SpeadApiItem) (at : ℕ)
    → id ≤ stream_ctrl_id
    → AllOrdinary items
    → last_addr id (pointers items at) ≡ none
unfolding last_addr
last_addr-pointers id [] at low a = refl
last_addr-pointers id (x ∷ rest) at low a =
    let fields = item_round_trip directaddr x.i_id at in
    let other : (x.i_id % 2 ^ 23 == id) ≡ false = ground (arith, a.0, a.1) in
    last_addr-front id (x.i_id % 2 ^ 23) (at % 2 ^ 40) (item_build directaddr x.i_id at)
      (pointers rest (at + x.i_data_len)) fields.1 fields.2
      (last_addr-pointers id rest (at + x.i_data_len) low a.2)
    ∙ rw other refl

-- The item pointers of a packet, `word` being that of its payload's length.
abbrev pub own_words : ℕ → ℕ → ℕ → ℕ → List ℕ → List ℕ
own_words hid heap_len payload_off word ws =
    item_build immediateaddr heap_cnt_id hid
    ∷ item_build immediateaddr heap_len_id heap_len
    ∷ item_build immediateaddr payload_off_id payload_off
    ∷ word
    ∷ ws

-- The words of a framed packet from the first on.
framed-items :
    (bytes : List ℕ) (m hid heap_len payload_off word : ℕ) (ws : List ℕ)
    → IsFramed bytes m hid heap_len payload_off ws
    → spead_item bytes 4 ≡ some word
    → items_from (announces m) 1 bytes ≡ some (own_words hid heap_len payload_off word ws)
unfolding items_from
framed-items bytes m hid heap_len payload_off word ws f there =
    rw (f.heap, items_from, f.len, items_from, f.off, items_from, there, items_from, f.pointers)
      refl

-- Unpacking a framed packet, whatever the word of its payload's length is.
module _ (p : SpeadPacket) (m hid heap_len payload_off : ℕ) (ws : List ℕ)
    (f : IsFramed p.bytes m hid heap_len payload_off ws) (few : m < 1145) where
  pub header-accepted : spead_packet_unpack_header p ≡ some (pos 8, announced (announces m) p)
  header-accepted = header_build-accepted p (announces m) f.header (omega arith)

  pub items-IsUnpacked :
      (word : ℕ)
      → spead_item p.bytes 4 ≡ some word
      → (q : SpeadPacket) × (spead_packet_unpack_items (announced (announces m) p)
          ≡ some (pos (announces m * 8), q))
        × IsUnpacked (announced (announces m) p) (own_words hid heap_len payload_off word ws) q
  items-IsUnpacked word there =
      unpack_items-last (announced (announces m) p) (own_words hid heap_len payload_off word ws)
        (framed-items p.bytes m hid heap_len payload_off word ws f there)

  -- A packet that is unpacked is still framed, and its payload begins behind the words.
  pub unpacked-IsFilling :
      (q : SpeadPacket) (word : ℕ)
      → IsUnpacked (announced (announces m) p) (own_words hid heap_len payload_off word ws) q
      → IsFilling q m hid heap_len payload_off ws []
  unpacked-IsFilling q word u = record {
    framed = rw (u.bytes) f;
    counted = u.n_items;
    points = u.payload ∙ ap some (omega (arith, u.data_addr));
    written = refl;
  }

-- What a packet conveys: `m` item pointers, and bytes at an offset of its heap's payload.
pub record Conveys (p : SpeadPacket) (m hid total at : ℕ) (ws bytes : List ℕ) : Type 0 where
  pub framed : IsFramed p.bytes m hid total at ws
  pub measured :
      spead_item p.bytes 4 ≡ some (item_build immediateaddr payload_len_id (length bytes))
  pub n_items : p.n_items ≡ announces m
  pub heap_cnt : p.heap_cnt ≡ pos hid
  pub heap_len : p.heap_len ≡ pos total
  pub payload_off : p.payload_off ≡ at
  pub has_payload : HasPayload p
  pub carries : payload_bytes p ≡ bytes

-- The pointers of the group leave the packet's own items alone.
abbrev pub LeavesAlone : List ℕ → Type 0
LeavesAlone ws = (id : ℕ) → id ≤ stream_ctrl_id → last_addr id ws ≡ none

module _ (hid heap_len payload_off len : ℕ) (ws : List ℕ) (alone : LeavesAlone ws)
    (hid_fits : hid < 2 ^ 40) (len_fits : heap_len < 2 ^ 40) (off_fits : payload_off < 2 ^ 40)
    (short : len < 2 ^ 40) where
  abbrev closing : List ℕ
  closing = own_words hid heap_len payload_off (item_build immediateaddr payload_len_id len) ws

  last_len :
      (id : ℕ)
      → id ≤ stream_ctrl_id
      → last_addr id (item_build immediateaddr payload_len_id len ∷ ws)
        ≡ (if payload_len_id == id then some len else none)
  last_len id low =
      let fields = item_round_trip immediateaddr payload_len_id len in
      last_addr-front id payload_len_id len (item_build immediateaddr payload_len_id len) ws
        fields.1 (fields.2 ∙ omega arith) (alone id low)

  closing_len : last_addr payload_len_id closing ≡ some len
  closing_len = last_addr-behind payload_len_id len _ _ (
      last_addr-behind payload_len_id len _ _
        (last_addr-behind payload_len_id len _ _ (last_len payload_len_id (omega arith))))

  last_off :
      (id : ℕ)
      → id ≤ stream_ctrl_id
      → (payload_len_id == id) ≡ false
      → last_addr id (
          item_build immediateaddr payload_off_id payload_off
          ∷ item_build immediateaddr payload_len_id len
          ∷ ws)
        ≡ (if payload_off_id == id then some payload_off else none)
  last_off id low other =
      let fields = item_round_trip immediateaddr payload_off_id payload_off in
      last_addr-front id payload_off_id payload_off
        (item_build immediateaddr payload_off_id payload_off)
        (item_build immediateaddr payload_len_id len ∷ ws) fields.1 (fields.2 ∙ omega arith)
        (last_len id low ∙ rw other refl)

  closing_off : last_addr payload_off_id closing ≡ some payload_off
  closing_off =
      last_addr-behind payload_off_id payload_off _ _ (
        last_addr-behind payload_off_id payload_off _ _
          (last_off payload_off_id (omega arith) refl))

  last_heap_len :
      (id : ℕ)
      → id ≤ stream_ctrl_id
      → (payload_len_id == id) ≡ false
      → (payload_off_id == id) ≡ false
      → last_addr id (
          item_build immediateaddr heap_len_id heap_len
          ∷ item_build immediateaddr payload_off_id payload_off
          ∷ item_build immediateaddr payload_len_id len
          ∷ ws)
        ≡ (if heap_len_id == id then some heap_len else none)
  last_heap_len id low other another =
      let fields = item_round_trip immediateaddr heap_len_id heap_len in
      last_addr-front id heap_len_id heap_len (item_build immediateaddr heap_len_id heap_len)
        (item_build immediateaddr payload_off_id payload_off
          ∷ item_build immediateaddr payload_len_id len
          ∷ ws)
        fields.1 (fields.2 ∙ omega arith) (last_off id low other ∙ rw another refl)

  closing_heap_len : last_addr heap_len_id closing ≡ some heap_len
  closing_heap_len =
      last_addr-behind heap_len_id heap_len _ _ (last_heap_len heap_len_id (omega arith) refl refl)

  closing_heap_cnt : last_addr heap_cnt_id closing ≡ some hid
  closing_heap_cnt =
      let fields = item_round_trip immediateaddr heap_cnt_id hid in
      last_addr-front heap_cnt_id heap_cnt_id hid (item_build immediateaddr heap_cnt_id hid)
        (item_build immediateaddr heap_len_id heap_len
          ∷ item_build immediateaddr payload_off_id payload_off
          ∷ item_build immediateaddr payload_len_id len
          ∷ ws)
        fields.1 (fields.2 ∙ omega arith) (last_heap_len heap_cnt_id (omega arith) refl refl)

-- A packet that is filled and whose payload's length is set, once it is unpacked.
module _ (p q : SpeadPacket) (m hid heap_len payload_off : ℕ) (ws done : List ℕ)
    (f : IsFilling p m hid heap_len payload_off ws done)
    (word : spead_item p.bytes 4 ≡ some (item_build immediateaddr payload_len_id (length done)))
    (alone : LeavesAlone ws) (hid_fits : hid < 2 ^ 40) (len_fits : heap_len < 2 ^ 40)
    (off_fits : payload_off < 2 ^ 40) (room : base m + length done ≤ 9200)
    (u : IsUnpacked
      (announced (announces m) p)
      (own_words hid heap_len payload_off
        (item_build immediateaddr payload_len_id (length done))
        ws)
      q) where
  new_len : q.payload_len ≡ length done
  new_len =
      u.payload_len
      ∙ ap (or_addr p.payload_len) (
          closing_len hid heap_len payload_off (length done) ws alone hid_fits len_fits off_fits
            (omega arith))

  new_payload : q.payload ≡ some (q.data_addr + base m)
  new_payload = u.payload ∙ ap some (omega (arith, u.data_addr))

  pub unpacked-Conveys : Conveys q m hid heap_len payload_off ws done
  unpacked-Conveys =
      let at : q.data_addr + base m - q.data_addr ≡ base m = omega arith in
      record {
        framed = rw (u.bytes) (f.framed);
        measured = rw (u.bytes) word;
        n_items = u.n_items;
        heap_cnt =
            u.heap_cnt
            ∙ ap (or_signed p.heap_cnt) (
                closing_heap_cnt hid heap_len payload_off (length done) ws alone hid_fits len_fits
                  off_fits (omega arith));
        heap_len =
            u.heap_len
            ∙ ap (or_signed p.heap_len) (
                closing_heap_len hid heap_len payload_off (length done) ws alone hid_fits len_fits
                  off_fits (omega arith));
        payload_off =
            u.payload_off
            ∙ ap (or_addr p.payload_off) (
                closing_off hid heap_len payload_off (length done) ws alone hid_fits len_fits
                  off_fits (omega arith));
        has_payload = record {
          start = q.data_addr + base m;
          points = new_payload;
          inside = omega arith;
          fits = omega (arith, new_len, at, room, f.framed.sized, ap length u.bytes);
        };
        carries = rw (new_payload, at, new_len, u.bytes) (f.written);
      }
