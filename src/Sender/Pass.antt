-- ===== src/Sender/Pass.antt =====
-- src/spead.c: what one pass of `PZ_COPYDATA` leaves: the item ends and another one follows, the item
-- ends with the data, or the packet is full.
use spead.Base.{
  ℕ, suc, ◌+◌, ◌-◌, ◌^◌, ◌≤◌, ◌<◌, ◌≡◌, refl, ap, ◌∙◌, true, false, some, List, ◌++◌, inl, inr,
  ◌==◌, ltb, if◌then◌else◌, length, take, drop, arith, length-append, length-take, length-drop,
  Bool-cases,
}
use spead.Base.Slices.{take-append, drop-append_left, drop-drop, drop-take, take-take}
use spead.Packet.{SpeadPacket}
use spead.Packet.Word.{spead_item}
use spead.HashTable.{HashObject, ObjectBank, HashTable}
use spead.ItemGroup.{SpeadApiItem, SpeadItemGroup}
use spead.ItemGroup.Walk.{Walks}
use spead.Sender.State.{PzState, pz_copydata, pz_hashpacket, Packetizer}
use spead.Sender.Loop.{copy_item, pz_switch}
use spead.Sender.Frame.{IsFilling, base}
use spead.Sender.Open.{all_data, AllHeld}
use spead.Sender.Copy.{
  len_word, piece, rest_packet, full_packet, rest_packet-IsFilling, rest_packet-measured,
  copy_rest-copies, full_packet-IsFilling, full_packet-measured, copy_full-copies,
}
use spead.Sender.Fill.{Stands, pz, Full, Full-step}
use spead.Sender.Room.{take_through, drop_through, take_whole, drop_whole}

module _ (hfn : HashObject SpeadPacket → ℕ) (ig : SpeadItemGroup) (fuel pkt_size hid heap_len : ℕ)
    (bank : ObjectBank SpeadPacket) (ht : HashTable SpeadPacket) (m at : ℕ) (ws done : List ℕ)
    (p : SpeadPacket) (x : SpeadApiItem) (rest : List SpeadApiItem) (cursor ioff remain o i d : ℕ)
    (f : IsFilling p m hid heap_len at ws done) (begun : length done < pkt_size)
    (room : base m + pkt_size < 9200) (readable : ioff + remain ≤ length x.i_data)
    (bounded : length x.i_data < 2 ^ 64) (walk : Walks ig (some x) cursor rest)
    (all_held : AllHeld rest) (few : remain + length (all_data rest) < 2 ^ 60) (z : Packetizer)
    (step : pz_switch hfn ig fuel pkt_size hid heap_len pz_copydata z.packet
        (record z { state = pz_copydata })
      ≡ copy_item pkt_size p x (length done) ioff remain (
          pz hfn ig fuel pkt_size hid heap_len bank ht m at pz_copydata p
            (some x)
            cursor
            (remain + length (all_data rest))
            o
            i
            d
            (length done))) where
  abbrev behind : PzState → SpeadPacket → ℕ → ℕ → ℕ → ℕ → ℕ → Packetizer
  behind st q count off io rem did =
      pz hfn ig fuel pkt_size hid heap_len bank ht m at st q (some x) cursor count off io rem did

  abbrev cur : List ℕ
  cur = piece x ioff remain

  length-cur : length cur ≡ remain
  length-cur = omega (arith, length-take remain (drop ioff x.i_data), length-drop ioff x.i_data)

  -- The outcome of the passes that begin with this one.
  abbrev Outcome : ℕ → Type 0
  Outcome budget =
      Full hfn ig fuel pkt_size hid heap_len bank ht m at (record z { state = pz_copydata })
        (suc budget) ws (done ++ take (pkt_size - length done) (cur ++ all_data rest))
        (drop (pkt_size - length done) (cur ++ all_data rest))

  abbrev whole : ℕ
  whole = remain + length (all_data rest)

  abbrev before : Packetizer
  before = behind pz_copydata p whole o i d (length done)

  kept : remain ≤ whole
  kept = omega arith

  abbrev Lands : Packetizer → Type 0
  Lands z' =
      pz_switch hfn ig fuel pkt_size hid heap_len pz_copydata z.packet
        (record z { state = pz_copydata })
      ≡ some z'

  abbrev rest_q : SpeadPacket
  rest_q = rest_packet p m (length done) x ioff remain

  sum_done : length done + remain ≡ length (done ++ cur)
  sum_done = omega (arith, length-append done cur, length-cur)

  Lands-rest :
      length done + remain < pkt_size
      → Lands (
          behind
            (if ltb 0 (length (all_data rest)) then pz_copydata else pz_hashpacket)
            rest_q
            (length (all_data rest))
            (length (done ++ cur))
            (ioff + remain)
            0
            (length (done ++ cur)))
  Lands-rest fits =
      let copied =
        copy_rest-copies pkt_size p m hid heap_len at ws done f x ioff remain before refl readable
          room kept few bounded fits in
      let less : whole - remain ≡ length (all_data rest) = omega arith in
      step ∙ copied ∙ rw (less, sum_done) refl

  -- The item ends, and `PZ_COPYDATA` goes on.
  pub pass_more :
      (budget : ℕ)
      → length done + remain < pkt_size
      → 0 < length (all_data rest)
      → Full hfn ig fuel pkt_size hid heap_len bank ht m at
          (behind pz_copydata
            (rest_packet p m (length done) x ioff remain)
            (length (all_data rest))
            (length (done ++ cur))
            (ioff + remain)
            0
            (length (done ++ cur)))
          budget
          ws
          ((done ++ cur) ++ take (pkt_size - length (done ++ cur)) (all_data rest))
          (drop (pkt_size - length (done ++ cur)) (all_data rest))
      → Outcome budget
  pass_more budget fits more full =
      let going : ltb 0 (length (all_data rest)) ≡ true = ground arith in
      let lands = rw going at (Lands-rest fits) in
      let n = pkt_size - length done in
      let short : length cur ≤ n = omega (arith, length-cur) in
      rw
        (
          take_through cur (all_data rest) n done pkt_size short refl,
          drop_through cur (all_data rest) n done pkt_size short refl,
        )
        at
        (Full-step hfn ig fuel pkt_size hid heap_len bank ht m at z
          (behind pz_copydata rest_q (length (all_data rest)) (length (done ++ cur)) (ioff + remain)
            0 (length (done ++ cur)))
          budget ws ((done ++ cur) ++ take (pkt_size - length (done ++ cur)) (all_data rest))
          (drop (pkt_size - length (done ++ cur)) (all_data rest)) lands full)

  -- `PZ_HASHPACKET` is next.
  abbrev Hashed : SpeadPacket → List ℕ → List ℕ → ℕ → ℕ → ℕ → ℕ → ℕ → Type 0
  Hashed q payload left off io rem did budget =
      IsFilling q m hid heap_len at ws payload
      → spead_item q.bytes 4 ≡ some (len_word (length payload))
      → Stands ig (some x) cursor io rem rest left
      → (0 < length left → off ≡ 0)
      → length rest ≤ budget
      → Full hfn ig fuel pkt_size hid heap_len bank ht m at
          (behind pz_hashpacket q (length left) off io rem did) budget ws payload left

  hashed :
      (q : SpeadPacket) (payload left : List ℕ) (off io rem did budget : ℕ)
      → Hashed q payload left off io rem did budget
  hashed q payload left off io rem did budget filling word stands next_off enough = record {
    packet = q;
    itm = some x;
    cursor = cursor;
    off = off;
    ioff = io;
    remain = rem;
    didcopy = did;
    rest = rest;
    filling = filling;
    measured = word;
    stands = stands;
    next_off = next_off;
    cost = 0;
    cheap = omega arith;
    runs = λ n r h rounds ample. h rounds (omega arith);
  }

  -- The item ends, and with it the data.
  pub pass_end :
      (budget : ℕ)
      → length rest ≤ budget
      → length done + remain < pkt_size
      → length (all_data rest) ≡ 0
      → Outcome budget
  pass_end budget enough fits none_left =
      let stop : ltb 0 (length (all_data rest)) ≡ false = ground arith in
      let lands = rw stop at (Lands-rest fits) in
      let n = pkt_size - length done in
      let short : length cur ≤ n = omega (arith, length-cur) in
      let filling =
        rest_packet-IsFilling pkt_size p m hid heap_len at ws done f x ioff remain before refl
          readable room kept few bounded fits in
      let word =
        rest_packet-measured pkt_size p m hid heap_len at ws done f x ioff remain before refl
          readable room kept few bounded fits in
      let sum = length (done ++ cur) in
      rw
        (
          take_whole cur (all_data rest) n short none_left,
          drop_whole cur (all_data rest) n short none_left,
        )
        (Full-step hfn ig fuel pkt_size hid heap_len bank ht m at z
          (behind pz_hashpacket rest_q (length (all_data rest)) sum (ioff + remain) 0 sum) budget ws
          (done ++ cur) (all_data rest) lands
          (hashed rest_q (done ++ cur) (all_data rest) sum (ioff + remain) 0 sum budget filling
            (word ∙ ap (λ k. some (len_word k)) sum_done)
            (record { walk = walk; all_held = all_held; under_way = inl (refl, refl) })
            (nothing_left none_left) enough))
    where
      nothing_left :
          length (all_data rest) ≡ 0 → 0 < length (all_data rest) → length (done ++ cur) ≡ 0
      nothing_left e h = absurd (omega arith)

  abbrev n : ℕ
  n = pkt_size - length done

  left_behind :
      n ≤ remain → drop n (cur ++ all_data rest) ≡ piece x (ioff + n) (remain - n) ++ all_data rest
  left_behind h =
      drop-append_left cur (all_data rest) n (omega (arith, length-cur))
      ∙ ap (λ t. t ++ all_data rest)
          (drop-take (drop ioff x.i_data) n remain
            ∙ ap (take (remain - n)) (drop-drop x.i_data n ioff))

  taken : n ≤ remain → take n (cur ++ all_data rest) ≡ piece x ioff n
  taken h =
      take-append cur (all_data rest) n (omega (arith, length-cur))
      ∙ take-take (drop ioff x.i_data) remain n h

  Stands-behind :
      n ≤ remain
      → Stands ig
          (some x)
          cursor
          (ioff + n)
          (remain - n)
          rest
          (piece x (ioff + n) (remain - n) ++ all_data rest)
  Stands-behind h = record {
    walk = walk;
    all_held = all_held;
    under_way = elim (Bool-cases (remain - n == 0)) [
      | inl ended ↦ let e : remain - n ≡ 0 = ground arith in inl (e, rw e refl)
      | inr goes_on ↦ inr (record {
        item = x;
        current = refl;
        some_left = ground arith;
        readable = omega arith;
        bounded = bounded;
        data_left = refl;
      })
    ];
  }

  abbrev full_q : SpeadPacket
  full_q = full_packet p m (length done) x ioff n

  abbrev left : List ℕ
  left = piece x (ioff + n) (remain - n) ++ all_data rest

  Lands-full :
      n ≤ remain
      → pkt_size ≤ length done + remain
      → Lands
          (behind pz_hashpacket full_q (length left) 0 (ioff + n) (remain - n) (length done + n))
  Lands-full h fills =
      let copied =
        copy_full-copies pkt_size p m hid heap_len at ws done f x ioff remain before refl readable
          room kept few bounded n refl (omega arith) fills in
      let count : whole - n ≡ length left = omega (
        arith,
        length-append (piece x (ioff + n) (remain - n)) (all_data rest),
        length-take (remain - n) (drop (ioff + n) x.i_data),
        length-drop (ioff + n) x.i_data,
      ) in
      step ∙ copied ∙ rw count refl

  -- The packet is full.
  pub pass_full :
      (budget : ℕ) → length rest ≤ budget → pkt_size ≤ length done + remain → Outcome budget
  pass_full budget enough fills =
      let h : n ≤ remain = omega arith in
      let fits : length done + n ≤ pkt_size = omega arith in
      let sum : length done + n ≡ length (done ++ piece x ioff n) = omega (
        arith,
        length-append done (piece x ioff n),
        length-take n (drop ioff x.i_data),
        length-drop ioff x.i_data,
      ) in
      let filling =
        full_packet-IsFilling pkt_size p m hid heap_len at ws done f x ioff remain before refl
          readable room kept few bounded n h fits in
      let word =
        full_packet-measured pkt_size p m hid heap_len at ws done f x ioff remain before refl
          readable room kept few bounded n h fits in
      rw (taken h, left_behind h)
        (Full-step hfn ig fuel pkt_size hid heap_len bank ht m at z
          (behind pz_hashpacket full_q (length left) 0 (ioff + n) (remain - n) (length done + n))
          budget ws (done ++ piece x ioff n) left (Lands-full h fills)
          (hashed full_q (done ++ piece x ioff n) left 0 (ioff + n) (remain - n) (length done + n)
            budget filling (word ∙ ap (λ k. some (len_word k)) sum) (Stands-behind h) (λ _. refl)
            enough))
