-- ===== src/Sender/Frame.antt =====
-- src/spead.c: what `packetize_item_group` has in a packet's array while it fills it.
use spead.Base.{
  ℕ, suc, ◌+◌, ◌-◌, ◌*◌, ◌^◌, ◌≤◌, ◌<◌, ◌≡◌, refl, ap, ◌∙◌, some, List, ◌++◌, true, length, take,
  drop, arith, length-append, leb,
}
use spead.Packet.{SpeadPacket, heap_cnt_id, heap_len_id, payload_off_id}
use spead.Packet.Word.{spead_item, set_item, header_build, item_build, to_network}
use spead.Packet.Word.Network.{item-set_self, item-set_ne, length-to_network}
use spead.Packet.Unpack.{items_from}
use spead.Sender.State.{immediateaddr, splice, put_item, copy_at, copy_payload}
use spead.Sender.Words.{
  length-splice, drop-splice_after, range-splice, item-splice, set_item-splice, items_from-cong,
}

-- The number of items that a packet with `m` items of the group announces.
abbrev pub announces : ℕ → ℕ
announces m = suc (suc (suc (suc m)))

-- Where its payload starts.
abbrev pub base : ℕ → ℕ
base m = 40 + m * 8

-- The words of a packet but that of its payload's length: `m` pointers `ws` behind the four.
pub record IsFramed (bytes : List ℕ) (m hid heap_len payload_off : ℕ) (ws : List ℕ) : Type 0 where
  pub sized : length bytes ≡ 9200
  pub header : spead_item bytes 0 ≡ some (header_build (announces m))
  pub heap : spead_item bytes 1 ≡ some (item_build immediateaddr heap_cnt_id hid)
  pub len : spead_item bytes 2 ≡ some (item_build immediateaddr heap_len_id heap_len)
  pub off : spead_item bytes 3 ≡ some (item_build immediateaddr payload_off_id payload_off)
  pub pointers : items_from m 5 bytes ≡ some ws

-- A packet that is being filled: `done` is what its payload holds so far.
pub record IsFilling (p : SpeadPacket) (m hid heap_len payload_off : ℕ) (ws done : List ℕ)
    : Type 0 where
  pub framed : IsFramed p.bytes m hid heap_len payload_off ws
  pub counted : p.n_items ≡ announces m
  pub points : p.payload ≡ some (p.data_addr + base m)
  pub written : take (length done) (drop (base m) p.bytes) ≡ done

pub length-set_item :
    (bytes : List ℕ) (n word : ℕ)
    → n * 8 + 8 ≤ length bytes
    → length (set_item bytes n word) ≡ length bytes
length-set_item bytes n word h =
    rw (set_item-splice bytes n word)
      (length-splice bytes (to_network 8 word) (n * 8) (omega (arith, length-to_network 8 word)))

pub item-set_word :
    (bytes : List ℕ) (n word : ℕ)
    → n * 8 + 8 ≤ length bytes
    → word < 2 ^ 64
    → spead_item (set_item bytes n word) n ≡ some word
item-set_word bytes n word h small = item-set_self bytes n word h ∙ ap some (omega arith)

module _ {bytes : List ℕ} {m hid heap_len payload_off : ℕ} {ws : List ℕ}
    (f : IsFramed bytes m hid heap_len payload_off ws) where
  -- Where the words are the same, so is the frame.
  IsFramed-cong :
      (bytes' : List ℕ)
      → length bytes' ≡ 9200
      → ((k : ℕ) → k < 4 → spead_item bytes' k ≡ spead_item bytes k)
      → ((k : ℕ) → 5 ≤ k → k < 5 + m → spead_item bytes' k ≡ spead_item bytes k)
      → IsFramed bytes' m hid heap_len payload_off ws
  IsFramed-cong bytes' sized front behind = record {
    sized = sized;
    header = front 0 (omega arith) ∙ f.header;
    heap = front 1 (omega arith) ∙ f.heap;
    len = front 2 (omega arith) ∙ f.len;
    off = front 3 (omega arith) ∙ f.off;
    pointers = items_from-cong m 5 bytes bytes' behind ∙ f.pointers;
  }

  IsFramed-set : (word : ℕ) → IsFramed (set_item bytes 4 word) m hid heap_len payload_off ws
  IsFramed-set word =
      let room : 40 ≤ length bytes = omega (arith, f.sized) in
      IsFramed-cong (set_item bytes 4 word) (length-set_item bytes 4 word room ∙ f.sized)
        (λ k low. item-set_ne bytes 4 word room k (omega arith))
        (λ k low high. item-set_ne bytes 4 word room k (omega arith))

  IsFramed-splice :
      (src : List ℕ) (at : ℕ)
      → base m ≤ at
      → at + length src ≤ 9200
      → IsFramed (splice bytes at src) m hid heap_len payload_off ws
  IsFramed-splice src at behind fits =
      let room : at + length src ≤ length bytes = omega (arith, f.sized) in
      IsFramed-cong (splice bytes at src) (length-splice bytes src at room ∙ f.sized)
        (λ k low. item-splice bytes src at k room (omega arith))
        (λ k low high. item-splice bytes src at k room (omega arith))

-- A packet with the word of its payload's length set, and with bytes in its payload.
abbrev pub with_length : SpeadPacket → ℕ → SpeadPacket
with_length p word = record p { bytes = set_item p.bytes 4 word }

abbrev pub with_more : SpeadPacket → ℕ → List ℕ → SpeadPacket
with_more p at src = record p { bytes = splice p.bytes at src }

module _ (p : SpeadPacket) {m hid heap_len payload_off : ℕ} {ws done : List ℕ}
    (f : IsFilling p m hid heap_len payload_off ws done) where
  pub put_length : (word : ℕ) → put_item p 4 word ≡ some (with_length p word)
  unfolding put_item
  put_length word =
      let room : leb 40 (length p.bytes) ≡ true = ground (arith, f.framed.sized) in rw room refl

  pub with_length-IsFilling :
      (word : ℕ) → IsFilling (with_length p word) m hid heap_len payload_off ws done
  with_length-IsFilling word = record {
    framed = IsFramed-set f.framed word;
    counted = f.counted;
    points = f.points;
    written =
        rw (set_item-splice p.bytes 4 word) (
          ap (take (length done)) (
            drop-splice_after p.bytes (to_network 8 word) 32
              (omega (arith, f.framed.sized, length-to_network 8 word)) (base m)
              (omega (arith, length-to_network 8 word))))
        ∙ f.written;
  }

  pub copy_payload_more :
      (src : List ℕ) (off ioff n : ℕ)
      → off ≡ length done
      → ioff + n ≤ length src
      → base m + off + n ≤ 9200
      → copy_payload p off src ioff n
        ≡ some (with_more p (base m + length done) (take n (drop ioff src)))
  unfolding copy_payload copy_at
  copy_payload_more src off ioff n here enough fits =
      let at : p.data_addr + base m - p.data_addr + off ≡ base m + length done =
        omega (arith, here) in
      let readable : leb (ioff + n) (length src) ≡ true = ground arith in
      let room : leb (base m + length done + n) (length p.bytes) ≡ true =
        ground (arith, f.framed.sized) in
      ap (λ a. copy_at a p off src ioff n) f.points ∙ rw (at, readable, room) refl

  pub with_more-IsFilling :
      (src : List ℕ)
      → base m + length done + length src ≤ 9200
      → IsFilling
          (with_more p (base m + length done) src)
          m
          hid
          heap_len
          payload_off
          ws
          (done ++ src)
  with_more-IsFilling src fits =
      let room : base m + length done + length src ≤ length p.bytes =
        omega (arith, f.framed.sized) in
      record {
        framed = IsFramed-splice f.framed src (base m + length done) (omega arith) fits;
        counted = f.counted;
        points = f.points;
        written =
            rw (length-append done src)
              (range-splice p.bytes src (base m + length done) room (base m) (length done) refl)
            ∙ ap (λ t. t ++ src) f.written;
      }
