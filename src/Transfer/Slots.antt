-- ===== src/Transfer/Slots.antt =====
-- src/spead.c: packets of a heap in a receiver's table, at most one at an index.
use mathlib.Core.List.{append-nil}
use spead.Base.{
  ℕ, zero, suc, ◌+◌, ◌^◌, ◌<◌, ◌≡◌, refl, ap, sym, ◌∙◌, Option, some, none, List, [], ◌∷◌, ◌++◌,
  length, take, drop, arith, length-take, length-drop, Option-cases, inl, inr, eq_of_some,
}
use spead.Packet.{SpeadPacket, payload_len_id, heap_cnt_id, heap_len_id, payload_off_id}
use spead.Packet.Unpack.{items_from}
use spead.Packet.Word.{spead_item, item_build}
use spead.Packet.Word.Fields.{item_round_trip}
use spead.SpeadHeap.Finalize.Extract.{payload_bytes, length-payload_bytes, chain_bytes}
use spead.HashTable.{HashObject}
use spead.Receiver.Items.{is_header_id}
use spead.Receiver.Items.Collect.{Pointers, kept}
use spead.Receiver.Items.Whole.{Listed, tables}
use spead.Receiver.Convert.Part.{Carries}
use spead.Receiver.Convert.Place.{table_payload}
use spead.Sender.State.{immediateaddr}
use spead.Sender.Close.{Conveys, own_words}
use spead.Sender.Cut.{Chunks}

-- The packets in the slots, and the slots as a table.
abbrev pub in_slots : List (Option SpeadPacket) → List SpeadPacket
in_slots [] = []
in_slots (none ∷ slots) = in_slots slots
in_slots (some p ∷ slots) = p ∷ in_slots slots

abbrev pub slot_table : List (Option SpeadPacket) → List (List (HashObject SpeadPacket))
slot_table [] = []
slot_table (none ∷ slots) = [] ∷ slot_table slots
slot_table (some p ∷ slots) = (some p ∷ []) ∷ slot_table slots

-- A packet that conveys some bytes.
pub record IsSent (hid total m : ℕ) (ws : List ℕ) (p : SpeadPacket) : Type 0 where
  pub at : ℕ
  pub bytes : List ℕ
  pub conveys : Conveys p m hid total at ws bytes
  pub some_bytes : 0 < length bytes
  pub few_bytes : length bytes < 2 ^ 31

abbrev pub AllSent : ℕ → ℕ → ℕ → List ℕ → List SpeadPacket → Type 0
AllSent hid total m ws [] = Unit
AllSent hid total m ws (p ∷ rest) = IsSent hid total m ws p × AllSent hid total 0 [] rest

pub Chunks-AllSent :
    (pkt_size hid total m at : ℕ) (ws left : List ℕ) (packets : List SpeadPacket)
    → 0 < pkt_size
    → pkt_size < 2 ^ 31
    → 0 < length left
    → Chunks pkt_size hid total m ws at left packets
    → AllSent hid total m ws packets
Chunks-AllSent pkt_size hid total m at ws left [] more few some_left c = elim c [ ]
Chunks-AllSent pkt_size hid total m at ws left (p ∷ []) more few some_left (c, last) = (
  record { at = at; bytes = left; conveys = c; some_bytes = some_left; few_bytes = omega arith },
  tt,
)
Chunks-AllSent pkt_size hid total m at ws left (p ∷ q ∷ rest) more few some_left
      (c, longer, others) =
    (
      record {
        at = at;
        bytes = take pkt_size left;
        conveys = c;
        some_bytes = omega (arith, length-take pkt_size left);
        few_bytes = omega (arith, length-take pkt_size left);
      },
      Chunks-AllSent pkt_size hid total 0 (at + pkt_size) [] (drop pkt_size left) (q ∷ rest) more
          few (omega (arith, length-drop pkt_size left)) others,
    )

-- The item pointers of a packet, with what its fields say.
abbrev pub words_of : ℕ → ℕ → List ℕ → SpeadPacket → List ℕ
words_of hid total ws p =
    own_words hid total p.payload_off (item_build immediateaddr payload_len_id p.payload_len) ws

-- The slots with these pointers; the first packet has `ws` behind its own.
abbrev pub slot_heap : ℕ → ℕ → List ℕ → List (Option SpeadPacket) → List (List Listed)
slot_heap hid total ws [] = []
slot_heap hid total ws (none ∷ slots) = [] ∷ slot_heap hid total ws slots
slot_heap hid total ws (some p ∷ slots) =
    ((p, words_of hid total ws p) ∷ []) ∷ slot_heap hid total [] slots

pub tables-slot_heap :
    (hid total : ℕ) (ws : List ℕ) (slots : List (Option SpeadPacket))
    → tables (slot_heap hid total ws slots) ≡ slot_table slots
tables-slot_heap hid total ws [] = refl
tables-slot_heap hid total ws (none ∷ slots) =
    ap (λ t. [] ∷ t) (tables-slot_heap hid total ws slots)
tables-slot_heap hid total ws (some p ∷ slots) =
    ap (λ t. (some p ∷ []) ∷ t) (tables-slot_heap hid total [] slots)

pub payload-slots :
    (slots : List (Option SpeadPacket))
    → table_payload (slot_table slots) ≡ chain_bytes (in_slots slots)
payload-slots [] = refl
payload-slots (none ∷ slots) = payload-slots slots
payload-slots (some p ∷ slots) =
    rw (append-nil (payload_bytes p)) (ap (λ t. payload_bytes p ++ t) (payload-slots slots))

items_from-Pointers :
    (n j : ℕ) (bytes ws : List ℕ)
    → items_from n (suc j) bytes ≡ some ws
    → (length ws ≡ n) × Pointers bytes j ws
unfolding items_from
items_from-Pointers zero j bytes [] h = (refl, tt)
items_from-Pointers zero j bytes (w ∷ ws) h = cc
items_from-Pointers (suc n) j bytes ws h = elim (Option-cases (spead_item bytes (suc j))) [
  | inl e ↦ cc (rw (e, items_from) at h)
  | inr (w, e) ↦ elim (Option-cases (items_from n (suc (suc j)) bytes)) [
    | inl e' ↦ cc (rw (e, items_from, e') at h)
    | inr (rest, e') ↦
        let (len, all) = items_from-Pointers n (suc j) bytes rest e' in
        let same : w ∷ rest ≡ ws = eq_of_some (rw (e, items_from, e') at h) in
        rw (← same) (ap suc len, (e, all))
  ]
]

module _ (hid total m : ℕ) (ws : List ℕ) (p : SpeadPacket) (s : IsSent hid total m ws p) where
  pub sent_len : p.payload_len ≡ length s.bytes
  sent_len = sym (length-payload_bytes p s.conveys.has_payload) ∙ ap length s.conveys.carries

  pub sent-Listed :
      (length (words_of hid total ws p) ≡ p.n_items) × Pointers p.bytes 0 (words_of hid total ws p)
  sent-Listed =
      let c = s.conveys in
      let (len, all) = items_from-Pointers m 4 p.bytes ws c.framed.pointers in
      (
        omega (arith, len, c.n_items),
        (
          c.framed.heap,
          (c.framed.len, (rw (c.payload_off) (c.framed.off), (rw sent_len (c.measured), all))),
        ),
      )

  pub sent-Carries : Carries p
  sent-Carries = record {
    some_bytes = omega (arith, sent_len, s.some_bytes);
    few_bytes = omega (arith, sent_len, s.few_bytes);
    has_payload = s.conveys.has_payload;
  }

pub kept-own :
    (hid total at len : ℕ) (ws : List ℕ)
    → kept (own_words hid total at (item_build immediateaddr payload_len_id len) ws) ≡ kept ws
unfolding is_header_id
kept-own hid total at len ws =
    let (m1, cnt, a1, f1) = item_round_trip immediateaddr heap_cnt_id hid in
    let (m2, all, a2, f2) = item_round_trip immediateaddr heap_len_id total in
    let (m3, off, a3, f3) = item_round_trip immediateaddr payload_off_id at in
    let (m4, own, a4, f4) = item_round_trip immediateaddr payload_len_id len in
    rw (cnt, all, off, own) refl
