-- ===== src/Sender/Copy.antt =====
-- src/spead.c: `PZ_COPYDATA`, one pass, while a packet is being filled.
use spead.Base.{
  ℕ, zero, suc, ◌+◌, ◌-◌, ◌%◌, ◌^◌, ◌≤◌, ◌<◌, ◌≡◌, ◌≢◌, refl, true, false, some, List, ◌++◌, ltb,
  if◌then◌else◌, length, take, drop, arith, length-take, length-drop,
}
use spead.Packet.{SpeadPacket, payload_len_id}
use spead.Packet.Word.{spead_item, item_build}
use spead.Packet.Word.Fields.{item_round_trip}
use spead.HashTable.{HashObject}
use spead.ItemGroup.{SpeadApiItem, SpeadItemGroup}
use spead.Sender.State.{
  PzState, pz_end, pz_getpacket, pz_copydata, pz_addig_items, pz_init_packet, pz_hashpacket,
  Packetizer, immediateaddr, copy_payload,
}
use spead.Sender.Loop.{copy_rest, copy_full, copy_item, pz_switch, pz_loop}
use spead.Sender.Frame.{
  IsFilling, base, with_length, put_length, with_length-IsFilling, with_more, copy_payload_more,
  with_more-IsFilling, item-set_word,
}

-- The pass through the loop from a state, with rounds to spare, ends with a result.
abbrev pub Runs :
    (HashObject SpeadPacket → ℕ)
    → SpeadItemGroup
    → ℕ
    → ℕ
    → ℕ
    → ℕ
    → Packetizer
    → ℕ
    → Packetizer
    → Type 0
Runs hfn ig fuel pkt_size hid heap_len z n r =
    (rounds : ℕ) → n ≤ rounds → pz_loop hfn ig fuel pkt_size hid heap_len rounds z ≡ some r

module _ (hfn : HashObject SpeadPacket → ℕ) (ig : SpeadItemGroup)
    (fuel pkt_size hid heap_len : ℕ) where
  -- One round.
  pub Runs-step :
      (st : PzState) (z z' r : Packetizer) (n : ℕ)
      → st ≢ pz_end
      → pz_switch hfn ig fuel pkt_size hid heap_len st z.packet (record z { state = st }) ≡ some z'
      → Runs hfn ig fuel pkt_size hid heap_len z' n r
      → Runs hfn ig fuel pkt_size hid heap_len (record z { state = st }) (suc n) r
  unfolding pz_loop
  Runs-step st z z' r n going step runs zero enough = absurd (omega arith)
  Runs-step pz_end z z' r n going step runs (suc rounds) enough = absurd (going refl)
  Runs-step pz_getpacket z z' r n going step runs (suc rounds) enough =
      rw (step, pz_loop) (runs rounds (omega arith))
  Runs-step pz_copydata z z' r n going step runs (suc rounds) enough =
      rw (step, pz_loop) (runs rounds (omega arith))
  Runs-step pz_addig_items z z' r n going step runs (suc rounds) enough =
      rw (step, pz_loop) (runs rounds (omega arith))
  Runs-step pz_init_packet z z' r n going step runs (suc rounds) enough =
      rw (step, pz_loop) (runs rounds (omega arith))
  Runs-step pz_hashpacket z z' r n going step runs (suc rounds) enough =
      rw (step, pz_loop) (runs rounds (omega arith))

  pub Runs-end :
      (z : Packetizer)
      → Runs hfn ig fuel pkt_size hid heap_len
          (record z { state = pz_end })
          1
          (record z { state = pz_end })
  unfolding pz_loop
  Runs-end z zero enough = absurd (omega arith)
  Runs-end z (suc rounds) enough = refl

-- The item pointer of a payload's length.
abbrev pub len_word : ℕ → ℕ
len_word n = item_build immediateaddr payload_len_id n

-- `n` bytes of an item from `ioff` on.
abbrev pub piece : SpeadApiItem → ℕ → ℕ → List ℕ
piece x ioff n = take n (drop ioff x.i_data)

-- A packet that holds `len` bytes of payload behind `m` pointers, with those bytes more.
abbrev pub filled : SpeadPacket → ℕ → ℕ → SpeadApiItem → ℕ → ℕ → SpeadPacket
filled p m len x ioff n = with_more p (base m + len) (piece x ioff n)

-- The packet behind a pass that ends the item, and behind one that fills it with `n` bytes.
abbrev pub rest_packet : SpeadPacket → ℕ → ℕ → SpeadApiItem → ℕ → ℕ → SpeadPacket
rest_packet p m len x ioff n =
    with_length (with_length (filled p m len x ioff n) (len_word (len + n))) (len_word (len + n))

abbrev pub full_packet : SpeadPacket → ℕ → ℕ → SpeadApiItem → ℕ → ℕ → SpeadPacket
full_packet p m len x ioff n = with_length (filled p m len x ioff n) (len_word (len + n))

-- One pass of `PZ_COPYDATA` on what is left of an item.
module _ (pkt_size : ℕ) (p : SpeadPacket) (m hid heap_len at : ℕ) (ws done : List ℕ)
    (f : IsFilling p m hid heap_len at ws done) (x : SpeadApiItem) (ioff remain : ℕ)
    (z : Packetizer) (copied : z.didcopy ≡ length done) (readable : ioff + remain ≤ length x.i_data)
    (room : base m + pkt_size < 9200) (counted : remain ≤ z.count) (small : z.count < 2 ^ 60)
    (bounded : length x.i_data < 2 ^ 64) where
  length-piece : (n : ℕ) → n ≤ remain → length (piece x ioff n) ≡ n
  length-piece n h = omega (arith, length-take n (drop ioff x.i_data), length-drop ioff x.i_data)

  filled-IsFilling :
      (n : ℕ)
      → n ≤ remain
      → length done + n ≤ pkt_size
      → IsFilling (filled p m (length done) x ioff n) m hid heap_len at ws (done ++ piece x ioff n)
  filled-IsFilling n h fits =
      with_more-IsFilling p f (piece x ioff n) (omega (arith, length-piece n h))

  copied_more :
      (n : ℕ)
      → n ≤ remain
      → length done + n ≤ pkt_size
      → copy_payload p (length done) x.i_data ioff n ≡ some (filled p m (length done) x ioff n)
  copied_more n h fits =
      copy_payload_more p f x.i_data (length done) ioff n refl (omega arith) (omega arith)

  pub rest_packet-IsFilling :
      length done + remain < pkt_size
      → IsFilling
          (rest_packet p m (length done) x ioff remain)
          m
          hid
          heap_len
          at
          ws
          (done ++ piece x ioff remain)
  rest_packet-IsFilling fits =
      let g = filled-IsFilling remain (omega arith) (omega arith) in
      let w = len_word (length done + remain) in
      with_length-IsFilling (with_length (filled p m (length done) x ioff remain) w)
        (with_length-IsFilling (filled p m (length done) x ioff remain) g w) w

  pub copy_rest-copies :
      length done + remain < pkt_size
      → copy_item pkt_size p x (length done) ioff remain z
        ≡ some (record z {
          state = if ltb 0 (z.count - remain) then pz_copydata else pz_hashpacket;
          packet = some (rest_packet p m (length done) x ioff remain);
          count = z.count - remain;
          off = length done + remain;
          ioff = ioff + remain;
          remain = 0;
          didcopy = length done + remain;
        })
  unfolding copy_item copy_rest
  copy_rest-copies fits =
      let g = filled-IsFilling remain (omega arith) (omega arith) in
      let w = len_word (length done + remain) in
      let off : (length done + remain) % 2 ^ 64 ≡ length done + remain = omega arith in
      let did : (z.didcopy + remain) % 2 ^ 64 ≡ length done + remain = omega (arith, copied) in
      let less : (z.count + 2 ^ 64 - remain) % 2 ^ 64 ≡ z.count - remain = omega arith in
      let more : (ioff + remain) % 2 ^ 64 ≡ ioff + remain = omega arith in
      let test : ltb (length done + remain) pkt_size ≡ true = ground arith in
      rw
        (
          off,
          test,
          copy_rest,
          copied_more remain (omega arith) (omega arith),
          put_length (filled p m (length done) x ioff remain) g w,
          did,
          put_length (with_length (filled p m (length done) x ioff remain) w)
              (with_length-IsFilling (filled p m (length done) x ioff remain) g w) w,
          less,
          off,
          more,
          did,
        )
        refl

  pub full_packet-IsFilling :
      (n : ℕ)
      → n ≤ remain
      → length done + n ≤ pkt_size
      → IsFilling
          (full_packet p m (length done) x ioff n)
          m
          hid
          heap_len
          at
          ws
          (done ++ piece x ioff n)
  full_packet-IsFilling n h fits =
      with_length-IsFilling (filled p m (length done) x ioff n) (filled-IsFilling n h fits)
        (len_word (length done + n))

  pub copy_full-copies :
      (n : ℕ)
      → n ≡ pkt_size - length done
      → length done ≤ pkt_size
      → pkt_size ≤ length done + remain
      → copy_item pkt_size p x (length done) ioff remain z
        ≡ some (record z {
          state = pz_hashpacket;
          packet = some (full_packet p m (length done) x ioff n);
          count = z.count - n;
          off = 0;
          ioff = ioff + n;
          remain = remain - n;
          didcopy = length done + n;
        })
  unfolding copy_item copy_full
  copy_full-copies n whole inside fills =
      let g = filled-IsFilling n (omega arith) (omega arith) in
      let w = len_word (length done + n) in
      let off : (length done + remain) % 2 ^ 64 ≡ length done + remain = omega arith in
      let test : ltb (length done + remain) pkt_size ≡ false = ground arith in
      let left : (pkt_size + 2 ^ 64 - length done) % 2 ^ 64 ≡ n = omega arith in
      let not_less : ltb remain n ≡ false = ground arith in
      let did : (z.didcopy + n) % 2 ^ 64 ≡ length done + n = omega (arith, copied) in
      let less : (z.count + 2 ^ 64 - n) % 2 ^ 64 ≡ z.count - n = omega arith in
      let more : (ioff + n) % 2 ^ 64 ≡ ioff + n = omega arith in
      let rest : (remain + 2 ^ 64 - n) % 2 ^ 64 ≡ remain - n = omega arith in
      rw
        (
          off,
          test,
          left,
          not_less,
          copy_full,
          copied_more n (omega arith) (omega arith),
          did,
          put_length (filled p m (length done) x ioff n) g w,
          left,
          not_less,
          less,
          more,
          rest,
          did,
        )
        refl

  -- Both leave the length of what is copied in the packet's word for it.
  pub rest_packet-measured :
      length done + remain < pkt_size
      → spead_item (rest_packet p m (length done) x ioff remain).bytes 4
        ≡ some (len_word (length done + remain))
  rest_packet-measured fits =
      let g = filled-IsFilling remain (omega arith) (omega arith) in
      let w = len_word (length done + remain) in
      let word = item_round_trip immediateaddr payload_len_id (length done + remain) in
      item-set_word (with_length (filled p m (length done) x ioff remain) w).bytes 4 w
        (omega (
          arith,
          (with_length-IsFilling (filled p m (length done) x ioff remain) g w).framed.sized,
        ))
        word.3

  pub full_packet-measured :
      (n : ℕ)
      → n ≤ remain
      → length done + n ≤ pkt_size
      → spead_item (full_packet p m (length done) x ioff n).bytes 4
        ≡ some (len_word (length done + n))
  full_packet-measured n h fits =
      let word = item_round_trip immediateaddr payload_len_id (length done + n) in
      item-set_word (filled p m (length done) x ioff n).bytes 4 (len_word (length done + n))
        (omega (arith, (filled-IsFilling n h fits).framed.sized)) word.3
