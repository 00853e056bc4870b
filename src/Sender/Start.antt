-- ===== src/Sender/Start.antt =====
-- src/spead.c: the words with which `packetize_item_group` opens a packet.
use spead.Base.{ℕ, ◌+◌, ◌*◌, ◌≤◌, ◌<◌, ◌≡◌, refl, ap, ◌∙◌, some, List, true, length, arith, leb}
use spead.Packet.{SpeadPacket, heap_cnt_id, heap_len_id, payload_off_id}
use spead.Packet.Word.{spead_item, set_item, header_build, item_build}
use spead.Packet.Word.Fields.{header_build-lt, item_round_trip}
use spead.Packet.Word.Network.{item-set_ne}
use spead.Packet.Unpack.{items_from}
use spead.ItemGroup.{SpeadApiItem}
use spead.Sender.State.{immediateaddr, put_item, start_packet}
use spead.Sender.Frame.{IsFramed, announces, length-set_item, item-set_word}
use spead.Sender.Open.{pointers, pointed, length-pointed, item-pointed, items_from-pointed}

-- The four words of a packet that announces `n` items, but that of its payload's length.
pub record IsStarted (bytes : List ℕ) (n hid heap_len payload_off : ℕ) : Type 0 where
  pub sized : length bytes ≡ 9200
  pub header : spead_item bytes 0 ≡ some (header_build n)
  pub heap : spead_item bytes 1 ≡ some (item_build immediateaddr heap_cnt_id hid)
  pub len : spead_item bytes 2 ≡ some (item_build immediateaddr heap_len_id heap_len)
  pub off : spead_item bytes 3 ≡ some (item_build immediateaddr payload_off_id payload_off)

-- The array of a packet that is opened.
abbrev pub started : ℕ → ℕ → ℕ → ℕ → List ℕ → List ℕ
started n hid heap_len payload_off bytes =
    set_item
      (set_item
        (set_item (set_item bytes 0 (header_build n)) 1 (item_build immediateaddr heap_cnt_id hid))
        2 (item_build immediateaddr heap_len_id heap_len))
      3 (item_build immediateaddr payload_off_id payload_off)

pub length-set_full :
    (bytes : List ℕ) (k word : ℕ)
    → length bytes ≡ 9200
    → k < 1000
    → length (set_item bytes k word) ≡ 9200
length-set_full bytes k word full low = length-set_item bytes k word (omega arith) ∙ full

module _ (n hid heap_len payload_off : ℕ) where
  started-IsStarted :
      (bytes : List ℕ)
      → length bytes ≡ 9200
      → IsStarted (started n hid heap_len payload_off bytes) n hid heap_len payload_off
  started-IsStarted bytes full =
      let cnt = item_build immediateaddr heap_cnt_id hid in
      let len = item_build immediateaddr heap_len_id heap_len in
      let off = item_build immediateaddr payload_off_id payload_off in
      let b0 = set_item bytes 0 (header_build n) in
      let b1 = set_item b0 1 cnt in
      let b2 = set_item b1 2 len in
      let l0 = length-set_full bytes 0 (header_build n) full (omega arith) in
      let l1 = length-set_full b0 1 cnt l0 (omega arith) in
      let l2 = length-set_full b1 2 len l1 (omega arith) in
      let cnt_fits = item_round_trip immediateaddr heap_cnt_id hid in
      let len_fits = item_round_trip immediateaddr heap_len_id heap_len in
      let off_fits = item_round_trip immediateaddr payload_off_id payload_off in
      record {
        sized = length-set_full b2 3 off l2 (omega arith);
        header =
            item-set_ne b2 3 off (omega (arith, l2)) 0 (omega arith)
            ∙ item-set_ne b1 2 len (omega (arith, l1)) 0 (omega arith)
            ∙ item-set_ne b0 1 cnt (omega (arith, l0)) 0 (omega arith)
            ∙ item-set_word bytes 0 (header_build n) (omega (arith, full)) (header_build-lt n);
        heap =
            item-set_ne b2 3 off (omega (arith, l2)) 1 (omega arith)
            ∙ item-set_ne b1 2 len (omega (arith, l1)) 1 (omega arith)
            ∙ item-set_word b0 1 cnt (omega (arith, l0)) (cnt_fits.3);
        len =
            item-set_ne b2 3 off (omega (arith, l2)) 2 (omega arith)
            ∙ item-set_word b1 2 len (omega (arith, l1)) (len_fits.3);
        off = item-set_word b2 3 off (omega (arith, l2)) (off_fits.3);
      }

  pub start_packet-started :
      (p : SpeadPacket)
      → length p.bytes ≡ 9200
      → (start_packet n hid heap_len payload_off p
          ≡ some (record p { bytes = started n hid heap_len payload_off p.bytes }))
        × IsStarted (started n hid heap_len payload_off p.bytes) n hid heap_len payload_off
  unfolding start_packet put_item
  start_packet-started p full =
      let cnt = item_build immediateaddr heap_cnt_id hid in
      let len = item_build immediateaddr heap_len_id heap_len in
      let b0 = set_item p.bytes 0 (header_build n) in
      let b1 = set_item b0 1 cnt in
      let b2 = set_item b1 2 len in
      let l0 = length-set_full p.bytes 0 (header_build n) full (omega arith) in
      let l1 = length-set_full b0 1 cnt l0 (omega arith) in
      let l2 = length-set_full b1 2 len l1 (omega arith) in
      let fits : leb 8 (length p.bytes) ≡ true = rw full refl in
      let fits0 : leb 16 (length b0) ≡ true = rw l0 refl in
      let fits1 : leb 24 (length b1) ≡ true = rw l1 refl in
      let fits2 : leb 32 (length b2) ≡ true = rw l2 refl in
      (rw (fits, fits0, fits1, fits2) refl, started-IsStarted p.bytes full)

  -- A packet with no pointers is framed then.
  pub IsStarted-IsFramed :
      (m : ℕ) (bytes : List ℕ) (ws : List ℕ)
      → n ≡ announces m
      → IsStarted bytes n hid heap_len payload_off
      → items_from m 5 bytes ≡ some ws
      → IsFramed bytes m hid heap_len payload_off ws
  IsStarted-IsFramed m bytes ws number s there = record {
    sized = s.sized;
    header = s.header ∙ ap (λ k. some (header_build k)) number;
    heap = s.heap;
    len = s.len;
    off = s.off;
    pointers = there;
  }

  -- With the pointers of the items it is framed, too.
  pub pointed-IsFramed :
      (items : List SpeadApiItem) (bytes : List ℕ)
      → n ≡ announces (length items)
      → IsStarted bytes n hid heap_len payload_off
      → (5 + length items) * 8 ≤ 9200
      → IsFramed
          (pointed items 5 0 bytes)
          (length items)
          hid
          heap_len
          payload_off
          (pointers items 0)
  pointed-IsFramed items bytes number s room =
      let fits : (5 + length items) * 8 ≤ length bytes = omega (arith, s.sized) in
      IsStarted-IsFramed (length items) (pointed items 5 0 bytes) (pointers items 0) number
        (record {
          sized = length-pointed items 5 0 bytes fits ∙ s.sized;
          header = item-pointed items 5 0 bytes 0 fits (omega arith) ∙ s.header;
          heap = item-pointed items 5 0 bytes 1 fits (omega arith) ∙ s.heap;
          len = item-pointed items 5 0 bytes 2 fits (omega arith) ∙ s.len;
          off = item-pointed items 5 0 bytes 3 fits (omega arith) ∙ s.off;
        })
        (items_from-pointed items 5 0 bytes fits)
