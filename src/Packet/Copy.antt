-- ===== src/Packet/Copy.antt =====
-- src/spead_packet.c: what `spead_packet_copy` copies, and what it leaves behind.
use spead.Base.{
  ℕ, zero, suc, ◌+◌, ◌*◌, ◌≤◌, ◌<◌, ◌≡◌, refl, none, some, List, [], ◌∷◌, ◌++◌, length, take, drop,
  arith,
}
use spead.Packet.{SpeadPacket, copied, copy_loop, spead_packet_copy}

copy_loop-split :
    (n : ℕ) (src dst : List ℕ)
    → n ≤ length src
    → n ≤ length dst
    → copy_loop n src dst ≡ some (take n src ++ drop n dst)
unfolding copy_loop
copy_loop-split zero src dst h k = refl
copy_loop-split (suc n) [] dst h k = absurd (omega arith)
copy_loop-split (suc n) (b ∷ src) [] h k = absurd (omega arith)
copy_loop-split (suc n) (b ∷ src) (_ ∷ dst) h k =
    rw (copy_loop-split n src dst (omega arith) (omega arith))

copy_loop-short :
    (n : ℕ) (src dst : List ℕ)
    → length dst ≡ length src
    → length src < n
    → copy_loop n src dst ≡ none
unfolding copy_loop
copy_loop-short zero src dst e h = absurd (omega arith)
copy_loop-short (suc n) [] dst e h = refl
copy_loop-short (suc n) (b ∷ src) [] e h = refl
copy_loop-short (suc n) (b ∷ src) (_ ∷ dst) e h =
    rw (copy_loop-short n src dst (omega arith) (omega arith))

-- The target with the fields of the source, but for `heap_len`, and with its first `n` bytes.
abbrev pub copy_of : ℕ → SpeadPacket → SpeadPacket → SpeadPacket
copy_of n pkt1 pkt2 = record pkt1 {
  heap_len = pkt2.heap_len;
  data_addr = pkt2.data_addr;
  bytes = take n pkt1.bytes ++ drop n pkt2.bytes;
}

-- Between arrays of one length, `spead_packet_copy` copies the fields but `heap_len`, and exactly the
-- first `8 * n_items + payload_len` bytes: the target keeps its own bytes behind them, and the
-- copied payload pointer still points into the source's array. If the array is shorter than that,
-- the copy leaves it.
pub copy-prefix :
    (pkt1 pkt2 : SpeadPacket)
    → length pkt2.bytes ≡ length pkt1.bytes
    → (8 * pkt1.n_items + pkt1.payload_len ≤ length pkt1.bytes
        → spead_packet_copy pkt1 pkt2
          ≡ some (copy_of (8 * pkt1.n_items + pkt1.payload_len) pkt1 pkt2))
      × (length pkt1.bytes < 8 * pkt1.n_items + pkt1.payload_len
          → spead_packet_copy pkt1 pkt2 ≡ none)
unfolding spead_packet_copy
copy-prefix pkt1 pkt2 e = (
  (λ h.
      rw (copy_loop-split (copied pkt1) pkt1.bytes pkt2.bytes h (omega arith), spead_packet_copy)),
  (λ h. rw (copy_loop-short (copied pkt1) pkt1.bytes pkt2.bytes e h, spead_packet_copy)),
)
