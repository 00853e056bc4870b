-- ===== src/Receiver/Convert/Place.antt =====
-- src/hash.c: where `single_traverse_hash_table` stands in the payload of a table with at most one
-- packet at each index.
use mathlib.Core.List.{append-nil}
use spead.Base.{
  ℕ, suc, ◌-◌, ◌<◌, ◌≡◌, ap, sym, ◌∙◌, Option, none, some, List, [], ◌∷◌, ◌++◌, length, drop, arith,
  length-drop,
}
use spead.Base.Slices.{drop-cons}
use spead.Packet.{SpeadPacket}
use spead.SpeadHeap.Finalize.Extract.{payload_bytes}
use spead.HashTable.{HashObject, s_get_object, s_get_packet, s_next_packet}
use spead.HashTable.Single.{Cursor, find_object, next_object, seek}
use spead.Receiver.Convert.Part.{Carries}

-- A chain with no packet, or one that carries bytes.
abbrev pub IsPlain : List (HashObject SpeadPacket) → Type 0
IsPlain [] = Unit
IsPlain (none ∷ chain) = ⊥
IsPlain (some p ∷ []) = Carries p
IsPlain (some p ∷ y ∷ chain) = ⊥

abbrev pub AllPlain : List (List (HashObject SpeadPacket)) → Type 0
AllPlain [] = Unit
AllPlain (chain ∷ os) = IsPlain chain × AllPlain os

-- The payload of such a table, in its order.
abbrev pub chain_payload : List (HashObject SpeadPacket) → List ℕ
chain_payload [] = []
chain_payload (none ∷ chain) = chain_payload chain
chain_payload (some p ∷ chain) = payload_bytes p ++ chain_payload chain

abbrev pub table_payload : List (List (HashObject SpeadPacket)) → List ℕ
table_payload [] = []
table_payload (chain ∷ os) = chain_payload chain ++ table_payload os

-- The cursor, with the offset `off` in the next packet, stands in front of the bytes `left`: at the
-- start of the packets from index `i` on, inside the packet at index `i`, or behind it.
pub data Before (os : List (List (HashObject SpeadPacket))) (c : Cursor SpeadPacket) (off : ℕ)
    (left : List ℕ) : Type 0 where
  at_start :
      (rest : List (List (HashObject SpeadPacket)))
      → c.cstate ≡ s_get_object
      → off ≡ 0
      → drop c.coi os ≡ rest
      → AllPlain rest
      → left ≡ table_payload rest
      → Before os c off left
  inside :
      (p : SpeadPacket) (rest : List (List (HashObject SpeadPacket)))
      → c.cstate ≡ s_get_object
      → drop c.coi os ≡ (some p ∷ []) ∷ rest
      → Carries p
      → AllPlain rest
      → off < p.payload_len
      → left ≡ drop off (payload_bytes p) ++ table_payload rest
      → Before os c off left
  behind :
      (x : HashObject SpeadPacket) (rest : List (List (HashObject SpeadPacket)))
      → c.cstate ≡ s_next_packet
      → c.co ≡ x ∷ []
      → off ≡ 0
      → drop (suc c.coi) os ≡ rest
      → AllPlain rest
      → left ≡ table_payload rest
      → Before os c off left

-- The packet at index `j`, from its byte `off` on, begins the bytes `left`, and `found` is the place
-- that the machine has found.
pub record IsNext (os : List (List (HashObject SpeadPacket))) (off : ℕ) (left : List ℕ)
    (found : Option (Cursor SpeadPacket)) : Type 0 where
  pub index : ℕ
  pub packet : SpeadPacket
  pub others : List (List (HashObject SpeadPacket))
  pub place : found ≡ some (record { cstate = s_get_packet; coi = index; co = some packet ∷ [] })
  pub stands : drop index os ≡ (some packet ∷ []) ∷ others
  pub carries : Carries packet
  pub plain : AllPlain others
  pub before_end : off < packet.payload_len
  pub begins : left ≡ drop off (payload_bytes packet) ++ table_payload others

find_object-IsNext :
    (os rest : List (List (HashObject SpeadPacket))) (i : ℕ)
    → drop i os ≡ rest
    → AllPlain rest
    → 0 < length (table_payload rest)
    → IsNext os 0 (table_payload rest) (find_object (length rest) i os)
unfolding find_object
find_object-IsNext os [] i at a more = absurd (omega arith)
find_object-IsNext os ([] ∷ rest) i at a more =
    let (here, next) = drop-cons os i [] rest at in
    rw (here, find_object) (find_object-IsNext os rest (suc i) next (a.1) more)
find_object-IsNext os ((none ∷ chain) ∷ rest) i at a more = elim (a.0) [ ]
find_object-IsNext os ((some p ∷ []) ∷ rest) i at a more = record {
  index = i;
  packet = p;
  others = rest;
  place = rw ((drop-cons os i (some p ∷ []) rest at).0, find_object);
  stands = at;
  carries = a.0;
  plain = a.1;
  before_end = a.0.some_bytes;
  begins = ap (λ t. t ++ table_payload rest) (append-nil (payload_bytes p));
}
find_object-IsNext os ((some p ∷ y ∷ chain) ∷ rest) i at a more = elim (a.0) [ ]

-- The machine finds the packet with the next byte.
pub seek-IsNext :
    (os : List (List (HashObject SpeadPacket))) (c : Cursor SpeadPacket) (off : ℕ) (left : List ℕ)
    → Before os c off left
    → 0 < length left
    → IsNext os off left (seek c.cstate c.coi c.co (length os) os)
unfolding seek next_object
seek-IsNext os c off left (at_start rest st none_read at a here) more =
    let n : length os - c.coi ≡ length rest = sym (length-drop c.coi os) ∙ ap length at in
    rw (st, none_read, here, seek, n) (find_object-IsNext os rest c.coi at a (rw here at (more)))
seek-IsNext os c off left (inside p rest st at carries a lt here) more =
    let (found, next) = drop-cons os c.coi (some p ∷ []) rest at in
    let n : length os - c.coi ≡ suc (length rest) = sym (length-drop c.coi os) ∙ ap length at in
    record {
      index = c.coi;
      packet = p;
      others = rest;
      place = rw (st, seek, n) (unfold find_object in rw (found, find_object));
      stands = at;
      carries = carries;
      plain = a;
      before_end = lt;
      begins = here;
    }
seek-IsNext os c off left (behind x rest st co none_read at a here) more =
    let n : length os - suc c.coi ≡ length rest = sym (length-drop (suc c.coi) os) ∙ ap length at in
    rw (st, co, none_read, here, seek, next_object, n)
      (find_object-IsNext os rest (suc c.coi) at a (rw here at (more)))
