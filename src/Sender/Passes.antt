-- ===== src/Sender/Passes.antt =====
-- src/spead.c: `PZ_COPYDATA`, all the passes that fill one packet.
use spead.Base.{
  ℕ, suc, ◌+◌, ◌-◌, ◌^◌, ◌≤◌, ◌<◌, ◌≡◌, refl, ap, false, some, Option, List, [], ◌∷◌, ◌++◌, inl,
  inr, ◌==◌, ltb, length, take, drop, arith, length-append, length-take, length-drop, Bool-cases,
  ltb→lt,
}
use spead.Packet.{SpeadPacket}
use spead.HashTable.{HashObject, ObjectBank, HashTable}
use spead.ItemGroup.{SpeadApiItem, SpeadItemGroup}
use spead.ItemGroup.Fill.{held}
use spead.ItemGroup.Walk.{Walks, next-item, Walks-behind}
use spead.Sender.State.{PzState, pz_copydata, Packetizer}
use spead.Sender.Loop.{copy_item, copy_next, copy_on, copy_data, pz_switch}
use spead.Sender.Frame.{IsFilling, base}
use spead.Sender.Open.{all_data, AllHeld}
use spead.Sender.Copy.{piece, rest_packet, rest_packet-IsFilling}
use spead.Sender.Fill.{Stands, pz, Full, Full-weaken}
use spead.Sender.Pass.{pass_more, pass_end, pass_full}

some_items : (rest : List SpeadApiItem) → 0 < length (all_data rest) → 0 < length rest
some_items [] h = h
some_items (x ∷ rest) h = omega arith

some_items_left :
    (rest : List SpeadApiItem) → 0 < length (all_data rest) + length rest → 0 < length rest
some_items_left [] h = absurd (omega arith)
some_items_left (x ∷ rest) h = omega arith

module _ (hfn : HashObject SpeadPacket → ℕ) (ig : SpeadItemGroup) (fuel pkt_size hid heap_len : ℕ)
    (bank : ObjectBank SpeadPacket) (ht : HashTable SpeadPacket) (m at : ℕ) (ws : List ℕ)
    (room : base m + pkt_size < 9200) where
  abbrev var : PzState → SpeadPacket → Option SpeadApiItem → ℕ → ℕ → ℕ → ℕ → ℕ → ℕ → Packetizer
  var = pz hfn ig fuel pkt_size hid heap_len bank ht m at

  abbrev Reaches : Packetizer → ℕ → List ℕ → List ℕ → Type 0
  Reaches z budget payload left =
      Full hfn ig fuel pkt_size hid heap_len bank ht m at z budget ws payload left

  -- The next item is fetched.
  step_next :
      (x : SpeadApiItem) (rest : List SpeadApiItem) (p : SpeadPacket) (itm : Option SpeadApiItem)
      (cursor ioff : ℕ) (done : List ℕ) (w : Walks ig itm cursor (x ∷ rest))
      → x.i_data_len ≤ length x.i_data
      → pz_switch hfn ig fuel pkt_size hid heap_len pz_copydata (some p) (
          var pz_copydata p itm cursor
            (length (held x ++ all_data rest))
            (length done)
            ioff
            0
            (length done))
        ≡ copy_item pkt_size p x (length done) 0 x.i_data_len (
            var pz_copydata p
              (some x)
              w.at
              (x.i_data_len + length (all_data rest))
              (length done)
              ioff
              0
              (length done))
  unfolding pz_switch copy_data copy_next
  step_next x rest p itm cursor ioff done w in_bytes =
      let count : length (held x ++ all_data rest) ≡ x.i_data_len + length (all_data rest) =
        omega (arith, length-append (held x) (all_data rest), length-take x.i_data_len x.i_data) in
      rw (next-item ig itm cursor x rest w, count) refl

  -- From an item on, with `done` in the packet.
  fill_next :
      (rest : List SpeadApiItem) (p : SpeadPacket) (itm : Option SpeadApiItem) (cursor ioff : ℕ)
      (done : List ℕ)
      → IsFilling p m hid heap_len at ws done
      → length done < pkt_size
      → Walks ig itm cursor rest
      → AllHeld rest
      → length (all_data rest) < 2 ^ 60
      → 0 < length rest
      → Reaches
          (var pz_copydata p itm cursor (length (all_data rest)) (length done) ioff 0 (length done))
          (length rest)
          (done ++ take (pkt_size - length done) (all_data rest))
          (drop (pkt_size - length done) (all_data rest))
  fill_next [] p itm cursor ioff done f begun w a few more = absurd (omega arith)
  fill_next (x ∷ rest) p itm cursor ioff done f begun w a few more =
      let z =
        var pz_copydata p itm cursor (length (held x ++ all_data rest)) (length done) ioff 0
          (length done) in
      let step = step_next x rest p itm cursor ioff done w a.0 in
      let behind = Walks-behind ig itm cursor x rest w in
      let size : x.i_data_len + length (all_data rest) < 2 ^ 60 = omega (
        arith,
        few,
        length-append (held x) (all_data rest),
        length-take x.i_data_len x.i_data,
        a.0,
      ) in
      let bounded : length x.i_data < 2 ^ 64 = omega (arith, w.sized.1, w.sized.2) in
      let readable : 0 + x.i_data_len ≤ length x.i_data = omega (arith, a.0) in
      elim (Bool-cases (ltb (length done + x.i_data_len) pkt_size)) [
        | inl fits ↦
            let fit : length done + x.i_data_len < pkt_size = ltb→lt _ _ fits in
            elim (Bool-cases (ltb 0 (length (all_data rest)))) [
              | inl goes_on ↦
                  let filling =
                    rest_packet-IsFilling pkt_size p m hid heap_len at ws done f x 0 x.i_data_len
                      (var pz_copydata p itm cursor x.i_data_len 0 0 0 (length done)) refl readable
                      room (omega arith) (omega arith) bounded (ground arith) in
                  pass_more hfn ig fuel pkt_size hid heap_len bank ht m at ws done p x rest w.at 0
                    x.i_data_len (length done) ioff 0 f begun room readable bounded behind (a.1)
                    size z step (length rest) (ground arith) (ground arith)
                    (fill_next rest (rest_packet p m (length done) x 0 x.i_data_len) (some x) w.at
                      (0 + x.i_data_len) (done ++ held x) filling
                      (omega (
                        arith,
                        fit,
                        length-append done (held x),
                        length-take x.i_data_len x.i_data,
                      ))
                      behind (a.1) (omega arith) (some_items rest (ground arith)))
              | inr ends ↦
                  pass_end hfn ig fuel pkt_size hid heap_len bank ht m at ws done p x rest w.at 0
                    x.i_data_len (length done) ioff 0 f begun room readable bounded behind (a.1)
                    size z step (length rest) (omega arith) (ground arith) (ground arith)
            ]
        | inr fills ↦
            pass_full hfn ig fuel pkt_size hid heap_len bank ht m at ws done p x rest w.at 0
              x.i_data_len (length done) ioff 0 f begun room readable bounded behind (a.1) size z
              step (length rest) (omega arith) (ground arith)
      ]

  -- An item that is under way goes on.
  step_on :
      (x : SpeadApiItem) (rest : List SpeadApiItem) (p : SpeadPacket)
      (cursor count off ioff remain : ℕ)
      → 0 < remain
      → count ≡ remain + length (all_data rest)
      → pz_switch hfn ig fuel pkt_size hid heap_len pz_copydata
          (some p)
          (var pz_copydata p (some x) cursor count off ioff remain 0)
        ≡ copy_item pkt_size p x 0 ioff remain
            (var pz_copydata p (some x) cursor (remain + length (all_data rest)) off ioff remain 0)
  unfolding pz_switch copy_data copy_on
  step_on x rest p cursor count off ioff remain more sum =
      let going : (remain == 0) ≡ false = ground arith in rw (going, sum) refl

  fill_on :
      (x : SpeadApiItem) (rest : List SpeadApiItem) (p : SpeadPacket) (cursor off ioff remain : ℕ)
      → IsFilling p m hid heap_len at ws []
      → 0 < pkt_size
      → Walks ig (some x) cursor rest
      → AllHeld rest
      → remain + length (all_data rest) < 2 ^ 60
      → 0 < remain
      → ioff + remain ≤ length x.i_data
      → length x.i_data < 2 ^ 64
      → Reaches
          (var pz_copydata p
            (some x)
            cursor
            (length (piece x ioff remain ++ all_data rest))
            off
            ioff
            remain
            0)
          (suc (length rest))
          (take (pkt_size - 0) (piece x ioff remain ++ all_data rest))
          (drop (pkt_size - 0) (piece x ioff remain ++ all_data rest))
  fill_on x rest p cursor off ioff remain f begun w a few more readable bounded =
      let count = length (piece x ioff remain ++ all_data rest) in
      let z = var pz_copydata p (some x) cursor count off ioff remain 0 in
      let sum : count ≡ remain + length (all_data rest) = omega (
        arith,
        length-append (piece x ioff remain) (all_data rest),
        length-take remain (drop ioff x.i_data),
        length-drop ioff x.i_data,
      ) in
      let step = step_on x rest p cursor count off ioff remain more sum in
      elim (Bool-cases (ltb remain pkt_size)) [
        | inl fits ↦
            let fit : 0 + remain < pkt_size = ground arith in
            elim (Bool-cases (ltb 0 (length (all_data rest)))) [
              | inl goes_on ↦
                  let filling =
                    rest_packet-IsFilling pkt_size p m hid heap_len at ws [] f x ioff remain
                      (var pz_copydata p (some x) cursor remain 0 0 0 0) refl readable room
                      (omega arith) (omega arith) bounded fit in
                  pass_more hfn ig fuel pkt_size hid heap_len bank ht m at ws [] p x rest cursor
                    ioff remain off ioff remain f begun room readable bounded w a few z step
                    (length rest) fit (ground arith)
                    (fill_next rest (rest_packet p m 0 x ioff remain) (some x) cursor
                      (ioff + remain) (piece x ioff remain) filling
                      (omega (arith, fit, length-take remain (drop ioff x.i_data))) w a
                      (omega arith) (some_items rest (ground arith)))
              | inr ends ↦
                  pass_end hfn ig fuel pkt_size hid heap_len bank ht m at ws [] p x rest cursor ioff
                    remain off ioff remain f begun room readable bounded w a few z step
                    (length rest) (omega arith) fit (ground arith)
            ]
        | inr fills ↦
            pass_full hfn ig fuel pkt_size hid heap_len bank ht m at ws [] p x rest cursor ioff
              remain off ioff remain f begun room readable bounded w a few z step (length rest)
              (omega arith) (ground arith)
      ]

  -- From the first pass on a packet with no payload to its `PZ_HASHPACKET`: it holds the first
  -- `pkt_size` bytes of the data that was left.
  pub fill :
      (p : SpeadPacket) (itm : Option SpeadApiItem) (cursor ioff remain : ℕ)
      (rest : List SpeadApiItem) (left : List ℕ)
      → IsFilling p m hid heap_len at ws []
      → 0 < pkt_size
      → Stands ig itm cursor ioff remain rest left
      → length left < 2 ^ 60
      → 0 < length left + length rest
      → Reaches
          (var pz_copydata p itm cursor (length left) 0 ioff remain 0)
          (suc (length rest))
          (take pkt_size left)
          (drop pkt_size left)
  fill p itm cursor ioff remain rest left f begun s few more =
      let whole : pkt_size - 0 ≡ pkt_size = omega arith in
      elim (s.under_way) [
        | inl (ended, all_left) ↦
            let z = var pz_copydata p itm cursor (length (all_data rest)) 0 ioff 0 0 in
            let next =
              fill_next rest p itm cursor ioff [] f begun s.walk s.all_held (rw all_left at few)
                (some_items_left rest (rw all_left at more)) in
            rw (ended, all_left)
              (rw whole at (
                Full-weaken hfn ig fuel pkt_size hid heap_len bank ht m at z (length rest)
                  (suc (length rest)) ws (take (pkt_size - 0) (all_data rest))
                  (drop (pkt_size - 0) (all_data rest)) next (omega arith)))
        | inr u ↦
            let size : remain + length (all_data rest) < 2 ^ 60 = omega (
              arith,
              few,
              ap length u.data_left,
              u.readable,
              length-append (piece u.item ioff remain) (all_data rest),
              length-take remain (drop ioff u.item.i_data),
              length-drop ioff u.item.i_data,
            ) in
            let walk = rw (u.current) at (s.walk) in
            rw (u.current, u.data_left)
              (rw whole at (
                fill_on u.item rest p cursor 0 ioff remain f begun walk s.all_held size u.some_left
                  u.readable u.bounded))
      ]
