-- ===== src/Sender/Terminator.antt =====
-- src/spead.c: `send_spead_stream_terminator`, and what a receiver makes of the packet that it sends.
use spead.Base.{
  ℕ, ◌≡◌, refl, ap, ◌∙◌, Bool, true, false, Option, none, some, List, [], ◌∷◌, leb, if◌then◌else◌,
  length, replicate, arith, length-replicate,
}
use spead.Base.Int.{ℤ, pos, negsuc, is_neg}
use spead.Packet.{
  SpeadPacket, heap_cnt_id, heap_len_id, stream_ctrl_id, stream_ctrl_term_val, spead_packet_init,
  spead_packet_unpack_header, spead_packet_unpack_items,
}
use spead.Packet.Header.{announced, header_build-accepted}
use spead.Packet.Unpack.{items_from, last_addr, has_term, unpack_items-last}
use spead.Packet.Word.{
  spead_max_packet_len, spead_item, set_item, header_build, item_build, item_id, item_addr,
}
use spead.Packet.Word.Fields.{header_build-lt, item_round_trip}
use spead.Packet.Word.Network.{item-set_ne}
use spead.Sender.State.{immediateaddr, put_item, then_put}
use spead.Sender.Frame.{item-set_word}
use spead.Sender.Start.{length-set_full}

-- The packet on the stack at an address, behind `bzero`, `spead_packet_init` and the two assignments.
cleared_packet : ℕ → SpeadPacket
unfolding spead_packet_init
cleared_packet addr =
    record (spead_packet_init (record {
      heap_cnt = pos 0;
      heap_len = pos 0;
      n_items = 0;
      is_stream_ctrl_term = 0;
      payload_len = 0;
      payload_off = 0;
      data_addr = addr;
      bytes = replicate spead_max_packet_len 0;
      payload = none;
    })) { n_items = 3; is_stream_ctrl_term = stream_ctrl_term_val }

abbrev term_word : ℕ
term_word = item_build immediateaddr stream_ctrl_id stream_ctrl_term_val

abbrev no_len_word : ℕ
no_len_word = item_build immediateaddr heap_len_id 0

abbrev last_heap_word : ℕ
last_heap_word = item_build immediateaddr heap_cnt_id 0xffffffff

-- The words that it gets.
write_words : SpeadPacket → Option SpeadPacket
unfolding put_item
write_words p =
    then_put (then_put (then_put (put_item p 0 (header_build p.n_items)) 1 term_word) 2 no_len_word)
      3 last_heap_word

-- It is unpacked; the answers of the two functions are not used.
unpack_again : Option (ℤ × SpeadPacket) → Option SpeadPacket
unpack_again none = none
unpack_again (some (r, p)) = elim (spead_packet_unpack_items p) [
  | none ↦ none
  | some (n, q) ↦ some q
]

unpack_written : Option SpeadPacket → Option SpeadPacket
unfolding unpack_again
unpack_written none = none
unpack_written (some p) = unpack_again (spead_packet_unpack_header p)

terminator : ℕ → Option SpeadPacket
unfolding cleared_packet write_words unpack_written
terminator addr = unpack_written (write_words (cleared_packet addr))

-- `send_spead_stream_terminator`, where `there` says that there is a transmitter with a socket, and `send`
-- is what `send_packet_spead_socket` answers for a packet.
pub send_spead_stream_terminator : (SpeadPacket → ℤ) → Bool → ℕ → Option ℤ
unfolding terminator
send_spead_stream_terminator send there addr =
    if there
    then (elim (terminator addr) [
      | none ↦ none
      | some p ↦ some (if is_neg (send p) then negsuc 0 else pos 0)
    ])
    else some (negsuc 0)

abbrev b0 : List ℕ
b0 = set_item (replicate 9200 0) 0 (header_build 3)

abbrev b1 : List ℕ
b1 = set_item b0 1 term_word

abbrev b2 : List ℕ
b2 = set_item b1 2 no_len_word

abbrev b3 : List ℕ
b3 = set_item b2 3 last_heap_word

full : length (replicate {A = ℕ} 9200 0) ≡ 9200
full = length-replicate {A = ℕ} 9200 0

l0 : length b0 ≡ 9200
l0 = length-set_full (replicate 9200 0) 0 (header_build 3) full (omega arith)

l1 : length b1 ≡ 9200
l1 = length-set_full b0 1 term_word l0 (omega arith)

l2 : length b2 ≡ 9200
l2 = length-set_full b1 2 no_len_word l1 (omega arith)

-- What a packet that ends a stream has in its array, and what a receiver has once it has unpacked it.
pub record IsTerminator (p : SpeadPacket) : Type 0 where
  pub sized : length p.bytes ≡ 9200
  pub header : spead_item p.bytes 0 ≡ some (header_build 3)
  pub words : items_from 3 1 p.bytes ≡ some (term_word ∷ no_len_word ∷ last_heap_word ∷ [])

pub record IsEnded (q : SpeadPacket) : Type 0 where
  pub term : q.is_stream_ctrl_term ≡ 1
  pub heap_cnt : q.heap_cnt ≡ pos 0xffffffff
  pub heap_len : q.heap_len ≡ pos 0
  pub n_items : q.n_items ≡ 3

b3-IsTerminator : (p : SpeadPacket) → p.bytes ≡ b3 → IsTerminator p
unfolding items_from
b3-IsTerminator p e =
    let header =
      item-set_ne b2 3 last_heap_word (omega (arith, l2)) 0 (omega arith)
      ∙ item-set_ne b1 2 no_len_word (omega (arith, l1)) 0 (omega arith)
      ∙ item-set_ne b0 1 term_word (omega (arith, l0)) 0 (omega arith)
      ∙ item-set_word (replicate 9200 0) 0 (header_build 3) (omega (arith, full))
          (header_build-lt 3) in
    let term =
      item-set_ne b2 3 last_heap_word (omega (arith, l2)) 1 (omega arith)
      ∙ item-set_ne b1 2 no_len_word (omega (arith, l1)) 1 (omega arith)
      ∙ item-set_word b0 1 term_word (omega (arith, l0))
          (item_round_trip immediateaddr stream_ctrl_id stream_ctrl_term_val).3 in
    let no_len =
      item-set_ne b2 3 last_heap_word (omega (arith, l2)) 2 (omega arith)
      ∙ item-set_word b1 2 no_len_word (omega (arith, l1))
          (item_round_trip immediateaddr heap_len_id 0).3 in
    let last =
      item-set_word b2 3 last_heap_word (omega (arith, l2))
        (item_round_trip immediateaddr heap_cnt_id 0xffffffff).3 in
    record {
      sized = ap length e ∙ length-set_full b2 3 last_heap_word l2 (omega arith);
      header = rw e header;
      words = rw e (rw (term, items_from, no_len, items_from, last, items_from) refl);
    }

-- Whatever a receiver's packet was before, with the bytes of a terminator it is unpacked as one.
received-IsEnded :
    (pkt : SpeadPacket)
    → IsTerminator pkt
    → (q : SpeadPacket) × (spead_packet_unpack_header pkt ≡ some (pos 8, announced 3 pkt))
      × (spead_packet_unpack_items (announced 3 pkt) ≡ some (pos 24, q))
      × IsEnded q
      × (q.bytes ≡ pkt.bytes)
unfolding last_addr has_term item_id item_addr item_build
received-IsEnded pkt t =
    let (q, run, u) =
      unpack_items-last (announced 3 pkt) (term_word ∷ no_len_word ∷ last_heap_word ∷ []) t.words in
    (
      q,
      header_build-accepted pkt 3 t.header (omega arith),
      run,
      record { term = u.term; heap_cnt = u.heap_cnt; heap_len = u.heap_len; n_items = u.n_items },
      u.bytes,
    )

abbrev written : ℕ → SpeadPacket
written addr = record (cleared_packet addr) { bytes = b3 }

write_words-written : (addr : ℕ) → write_words (cleared_packet addr) ≡ some (written addr)
unfolding write_words cleared_packet put_item
write_words-written addr =
    let fits0 : leb 16 (length b0) ≡ true = rw l0 refl in
    let fits1 : leb 24 (length b1) ≡ true = rw l1 refl in
    let fits2 : leb 32 (length b2) ≡ true = rw l2 refl in rw (fits0, fits1, fits2) refl

-- `send_spead_stream_terminator` hands the socket one packet and answers -1 where the socket refuses it,
-- else 0. Any packet of a receiver that has the bytes of it is accepted when it is unpacked, with three
-- items; it then marks the end of the stream and has the heap number 0xffffffff and the length 0.
-- Without a transmitter or a socket the answer is -1.
pub terminator-ends_stream :
    (send : SpeadPacket → ℤ) (addr : ℕ)
    → ((p : SpeadPacket) × (send_spead_stream_terminator send true addr
          ≡ some (if is_neg (send p) then negsuc 0 else pos 0))
        × ((pkt : SpeadPacket)
            → pkt.bytes ≡ p.bytes
            → (q : SpeadPacket) × (spead_packet_unpack_header pkt ≡ some (pos 8, announced 3 pkt))
              × (spead_packet_unpack_items (announced 3 pkt) ≡ some (pos 24, q))
              × IsEnded q
              × (q.bytes ≡ pkt.bytes)))
      × (send_spead_stream_terminator send false addr ≡ some (negsuc 0))
unfolding send_spead_stream_terminator terminator unpack_written unpack_again
terminator-ends_stream send addr =
    let own = received-IsEnded (written addr) (b3-IsTerminator (written addr) refl) in
    (
      (
        own.0,
        rw (write_words-written addr, own.1, unpack_again, own.2) refl,
        (λ pkt same. received-IsEnded pkt (b3-IsTerminator pkt (same ∙ own.4))),
      ),
      refl,
    )
