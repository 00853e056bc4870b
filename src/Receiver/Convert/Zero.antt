-- ===== src/Receiver/Convert/Zero.antt =====
-- src/spead.c: the copy in `convert_to_ig` where the first packet of the table carries no bytes.
use spead.Base.{
  ℕ, zero, suc, ◌+◌, ◌-◌, ◌%◌, ◌^◌, ◌≡◌, refl, ◌∙◌, none, some, List, [], ◌∷◌, ◌==◌, if◌then◌else◌,
  length, get_elem?, arith,
}
use spead.Base.Int.{pos}
use spead.Packet.{SpeadPacket}
use spead.HashTable.{HashObject, s_get_object, s_get_packet}
use spead.HashTable.Single.{Cursor, find_object, seek, after_call, visit_place, single_traverse}
use spead.ItemGroup.{SpeadApiItem}
use spead.Receiver.Convert.{Parcel, copy_part, copy_direct_spead_item, copy_loop}

-- At the start of the table and of the payload, at work on the item `itm`.
pub record AtStart (c : Cursor SpeadPacket) (cp : Parcel) (itm : SpeadApiItem) : Type 0 where
  pub looking : c.cstate ≡ s_get_object
  pub first_chain : c.coi ≡ 0
  pub first_byte : cp.p_c.d_off ≡ 0
  pub active : get_elem? cp.p_ig.g_map cp.p_i ≡ some itm

module _ (p : SpeadPacket) (chain : List (HashObject SpeadPacket))
    (os : List (List (HashObject SpeadPacket))) where
  -- The callback asks for the traversal to begin again.
  asks_again :
      (cp : Parcel) (itm : SpeadApiItem)
      → p.payload_len ≡ 0
      → cp.p_c.d_off ≡ 0
      → get_elem? cp.p_ig.g_map cp.p_i ≡ some itm
      → copy_direct_spead_item p (some cp) ≡ (
        pos 3,
        some (record cp {
          p_c = record cp.p_c {
            d_remaining = if cp.p_c.d_remaining == 0 then itm.i_len else cp.p_c.d_remaining;
          };
        }),
      )
  unfolding copy_direct_spead_item copy_part
  asks_again cp itm no_bytes start active =
      let cc : (0 + 2 ^ 64 - 0) % 2 ^ 64 ≡ 0 = omega arith in
      rw (active, copy_direct_spead_item, no_bytes, start, cc)

  abbrev restarted : Cursor SpeadPacket
  restarted = record { cstate = s_get_object; coi = 0; co = [] }

  abbrev asked : Parcel → SpeadApiItem → Parcel
  asked cp itm = record cp {
    p_c = record cp.p_c {
      d_remaining = if cp.p_c.d_remaining == 0 then itm.i_len else cp.p_c.d_remaining;
    };
  }

  asked-AtStart :
      (c : Cursor SpeadPacket) (cp : Parcel) (itm : SpeadApiItem)
      → AtStart c cp itm
      → AtStart restarted (asked cp itm) itm
  asked-AtStart c cp itm s = record {
    looking = refl;
    first_chain = refl;
    first_byte = s.first_byte;
    active = s.active;
  }

  round_again :
      (c : Cursor SpeadPacket) (cp : Parcel) (itm : SpeadApiItem)
      → p.payload_len ≡ 0
      → AtStart c cp itm
      → single_traverse copy_direct_spead_item (suc (length os)) ((some p ∷ chain) ∷ os) c (some cp)
        ≡ some (pos 3, restarted, some (asked cp itm))
  unfolding single_traverse visit_place after_call
  round_again c cp itm no_bytes s =
      let again = asks_again cp itm no_bytes s.first_byte s.active in
      let len : suc (length os) - 0 ≡ suc (length os) = omega arith in
      let found : seek c.cstate c.coi c.co (suc (length os)) ((some p ∷ chain) ∷ os)
          ≡ some (record { cstate = s_get_packet; coi = 0; co = some p ∷ chain }) =
        unfold seek find_object in rw (s.looking, s.first_chain, seek, len) refl in
      rw (found, single_traverse, again) refl

  loop_again :
      (n : ℕ) (c : Cursor SpeadPacket) (cp : Parcel) (itm : SpeadApiItem)
      → p.payload_len ≡ 0
      → AtStart c cp itm
      → copy_loop (suc (length os)) ((some p ∷ chain) ∷ os) (suc n) c cp
        ≡ copy_loop (suc (length os)) ((some p ∷ chain) ∷ os) n restarted (asked cp itm)
  unfolding copy_loop
  loop_again n c cp itm no_bytes s = rw (round_again c cp itm no_bytes s, copy_loop) refl

  loop_none :
      (n : ℕ) (c : Cursor SpeadPacket) (cp : Parcel) (itm : SpeadApiItem)
      → p.payload_len ≡ 0
      → AtStart c cp itm
      → copy_loop (suc (length os)) ((some p ∷ chain) ∷ os) n c cp ≡ none
  unfolding copy_loop
  loop_none zero c cp itm no_bytes s = refl
  loop_none (suc n) c cp itm no_bytes s =
      loop_again n c cp itm no_bytes s
      ∙ loop_none n restarted (asked cp itm) itm no_bytes (asked-AtStart c cp itm s)

  -- Where the first packet of a table carries no bytes, the `while` of `convert_to_ig`, from the start
  -- of the table and of the payload, never ends, for any item: its round calls the callback and gets the
  -- answer 3, with which the `while` goes on, and no byte of the group has changed; the traversal and
  -- the payload are at their start again, so that this holds for the next round too. On `n` rounds more
  -- the loop does what it does from there on `n`, and no fuel is enough.
  pub copy_loop-stuck :
      (c : Cursor SpeadPacket) (cp : Parcel) (itm : SpeadApiItem)
      → p.payload_len ≡ 0
      → AtStart c cp itm
      → (c' : Cursor SpeadPacket) × (cp' : Parcel) × (single_traverse copy_direct_spead_item
            (suc (length os))
            ((some p ∷ chain) ∷ os)
            c
            (some cp)
          ≡ some (pos 3, c', some cp'))
        × AtStart c' cp' itm
        × (cp'.p_ig ≡ cp.p_ig)
        × (cp'.p_i ≡ cp.p_i)
        × ((n : ℕ)
            → (copy_loop (suc (length os)) ((some p ∷ chain) ∷ os) (suc n) c cp
                ≡ copy_loop (suc (length os)) ((some p ∷ chain) ∷ os) n c' cp')
              × (copy_loop (suc (length os)) ((some p ∷ chain) ∷ os) n c cp ≡ none))
  copy_loop-stuck c cp itm no_bytes s =
      let run = round_again c cp itm no_bytes s in
      (
        restarted,
        asked cp itm,
        run,
        asked-AtStart c cp itm s,
        refl,
        refl,
        λ n. (loop_again n c cp itm no_bytes s, loop_none n c cp itm no_bytes s),
      )
