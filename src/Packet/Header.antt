-- ===== src/Packet/Header.antt =====
-- src/spead_packet.c: which header words `spead_packet_unpack_header` accepts, and what it makes of
-- the word that `SPEAD_HEADER_BUILD` builds.
use spead.Base.{
  ℕ, ◌+◌, ◌*◌, ◌/◌, ◌%◌, ◌^◌, ◌≤◌, ◌<◌, ◌≡◌, ◌≢◌, ◌↔◌, inl, inr, Bool-cases, false, some, length,
  ap, ◌∙◌, arith,
}
use spead.Base.Bits.{bit_and-mask}
use spead.Base.Int.{pos}
use spead.Packet.Word.{
  spead_item, set_item, header_build, get_magic, get_version, get_itemsize, get_addrsize,
  get_nitems, spead_headerlen, spead_itemlen,
}
use spead.Packet.Word.Fields.{header_round_trip, header_build-lt}
use spead.Packet.Word.Network.{item-set_self}
use spead.Packet.{SpeadPacket, spead_err, header_bad, spead_packet_unpack_header}

-- The upper half of a header word that the library accepts: magic, version and the two widths.
abbrev pub flavour : ℕ
flavour = 0x53_04_03_05

header_bad-flavour : (hdr : ℕ) → (header_bad hdr ≡ false) ↔ (hdr / 2 ^ 32 % 2 ^ 32 ≡ flavour)
unfolding header_bad get_magic get_version get_itemsize get_addrsize
header_bad-flavour hdr =
    rw
      (
        bit_and-mask 8 (hdr / 2 ^ 56),
        bit_and-mask 8 (hdr / 2 ^ 48),
        bit_and-mask 8 (hdr / 2 ^ 40),
        bit_and-mask 8 (hdr / 2 ^ 32),
      )
      ((λ h. ground arith), (λ h. ground arith))

-- What a packet becomes when its header announces `n` items.
abbrev pub announced : ℕ → SpeadPacket → SpeadPacket
announced n pkt = record pkt {
  n_items = n;
  payload = some (pkt.data_addr + spead_headerlen + n * spead_itemlen);
}

-- `spead_packet_unpack_header` accepts a packet exactly if the upper half of its header word is the
-- magic 0x53, version 4 and the widths 3 and 5: it then returns 8, the number of items is the lower
-- 16 bits, the payload starts behind them, and all other fields are kept. On any other word it returns the
-- error and leaves the packet alone. Neither way is the packet wiped.
pub unpack_header-flavour :
    (pkt : SpeadPacket) (hdr : ℕ)
    → spead_item pkt.bytes 0 ≡ some hdr
    → (hdr / 2 ^ 32 % 2 ^ 32 ≡ flavour
        → spead_packet_unpack_header pkt ≡ some (pos 8, announced (hdr % 2 ^ 16) pkt))
      × (hdr / 2 ^ 32 % 2 ^ 32 ≢ flavour → spead_packet_unpack_header pkt ≡ some (spead_err, pkt))
unfolding spead_packet_unpack_header get_nitems
unpack_header-flavour pkt hdr h = (
  (λ e. rw (h, spead_packet_unpack_header, (header_bad-flavour hdr).1 e, bit_and-mask 16 hdr)),
  (λ ne. elim (Bool-cases (header_bad hdr)) [
    | inl bad ↦ rw (h, spead_packet_unpack_header, bad)
    | inr good ↦ absurd (ne ((header_bad-flavour hdr).0 good))
  ]),
)

-- A packet whose header word is the one built for `n` items, below 2 ^ 16, is accepted.
pub header_build-accepted :
    (pkt : SpeadPacket) (n : ℕ)
    → spead_item pkt.bytes 0 ≡ some (header_build n)
    → n < 2 ^ 16
    → spead_packet_unpack_header pkt ≡ some (pos 8, announced n pkt)
unfolding spead_packet_unpack_header
header_build-accepted pkt n word small =
    let (magic, version, itemsize, addrsize, nitems) = header_round_trip n in
    let low : n % 2 ^ 16 ≡ n = omega arith in
    rw (word, spead_packet_unpack_header, magic, version, itemsize, addrsize, nitems, low)

-- A packet that starts with the header built for `n` items, below 2 ^ 16, is accepted and announces
-- `n` items.
pub unpack_header-header_build :
    (pkt : SpeadPacket) (n : ℕ)
    → 8 ≤ length pkt.bytes
    → n < 2 ^ 16
    → (let built = record pkt { bytes = set_item pkt.bytes 0 (header_build n) } in
        spead_packet_unpack_header built ≡ some (pos 8, announced n built))
unpack_header-header_build pkt n room small =
    let fits = header_build-lt n in
    let word : header_build n % 2 ^ 64 ≡ header_build n = omega arith in
    header_build-accepted (record pkt { bytes = set_item pkt.bytes 0 (header_build n) }) n
      (item-set_self pkt.bytes 0 (header_build n) (omega arith) ∙ ap some word) small
