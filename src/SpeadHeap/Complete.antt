-- ===== src/SpeadHeap/Complete.antt =====
-- src/spead_packet.c: what it means that `spead_heap_got_all_packets` says that all packets are there.
use spead.Base.{
  eq_of_some, ℕ, ◌+◌, ◌≤◌, ◌<◌, ◌≡◌, ◌≢◌, inl, inr, refl, subst, Bool, true, false, not, ◌&&◌, some,
  List, [], ◌∷◌, ◌==◌, ltb, leb, if◌then◌else◌, arith, Bool-cases, ap, ◌∙◌, sym,
}
use spead.Base.Int.{ℤ, pos, negsuc, is_neg, ◌==ℤ◌}
use spead.Packet.{SpeadPacket, spead_err}
use spead.SpeadHeap.{
  SpeadHeap, joined, check_packets, got_all, spead_heap_got_all_packets, finish_add, add_to_chain,
  spead_heap_add_packet, link_packet,
}

-- How many packets of a chain carry the byte at address `a` of the heap.
abbrev pub count_holding : ℕ → List SpeadPacket → ℕ
count_holding a [] = 0
count_holding a (p ∷ rest) =
    (if leb p.payload_off a && ltb a (p.payload_off + p.payload_len) then 1 else 0)
    + count_holding a rest

-- Where the first payload starts.
abbrev pub first_off : List SpeadPacket → ℕ
first_off [] = 0
first_off (p ∷ rest) = p.payload_off

joined-le :
    (len : ℕ) (p : SpeadPacket) (rest : List SpeadPacket)
    → joined (pos len) p rest ≡ true
    → p.payload_off ≤ len
unfolding joined
joined-le len p [] h = ground arith
joined-le len p (q ∷ rest) h = ground (arith, joined-le len q rest)

joined-count :
    (len : ℕ) (p : SpeadPacket) (rest : List SpeadPacket) (a : ℕ)
    → joined (pos len) p rest ≡ true
    → count_holding a (p ∷ rest) ≡ (if leb p.payload_off a && ltb a len then 1 else 0)
unfolding joined
joined-count len p [] a h = ground arith
joined-count len p (q ∷ rest) a h =
    let (step, later) =
      both (p.payload_off + p.payload_len) q.payload_off (joined (pos len) q rest) h in
    rw (joined-count len q rest a later) (ground (arith, joined-le len q rest later))
  where
    both : (e o : ℕ) (b : Bool) → (if not (e == o) then false else b) ≡ true → (e ≡ o) × (b ≡ true)
    both e o b h = ground arith

-- The packets carry each byte from the first payload's start up to the heap's length exactly once,
-- and no byte beyond.
abbrev pub IsComplete : SpeadHeap → Type 0
IsComplete h =
    (len : ℕ) × (h.heap_len ≡ pos len)
    × ((a : ℕ)
        → count_holding a h.packets ≡ (if leb (first_off h.packets) a && ltb a len then 1 else 0))

joined-pos :
    (z : ℤ) (p : SpeadPacket) (rest : List SpeadPacket)
    → joined z p rest ≡ true
    → (len : ℕ) × (z ≡ pos len)
unfolding joined
joined-pos (pos n) p rest h = (n, refl)
joined-pos (negsuc n) p [] h = cc
joined-pos (negsuc n) p (q ∷ rest) h = joined-pos (negsuc n) q rest (ground arith)

-- The check that ran anew and said 1.
check_packets-one :
    (p : SpeadPacket) (rest : List SpeadPacket) (g : SpeadHeap)
    → g.packets ≡ p ∷ rest
    → g.has_all_packets ≡ spead_err
    → (check_packets p rest g).0 ≡ pos 1
    → (joined g.heap_len p rest ≡ true)
      × ((check_packets p rest g).1 ≡ record g { has_all_packets = pos 1 })
unfolding check_packets
check_packets-one p rest g e unknown h = (ground arith, ground arith)

got_all-IsComplete :
    (ps : List SpeadPacket) (g : SpeadHeap)
    → g.packets ≡ ps
    → g.has_all_packets ≡ spead_err
    → (got_all ps g).0 ≡ pos 1
    → IsComplete (got_all ps g).1
unfolding got_all
got_all-IsComplete [] g e unknown h = cc
got_all-IsComplete (p ∷ rest) g e unknown h =
    let (run, after) = check_packets-one p rest g e unknown h in
    let (len, known) = joined-pos g.heap_len p rest run in
    let run' = subst (λ z. joined z p rest ≡ true) known run in
    subst IsComplete (sym after) (
      len,
      known,
      λ a.
          subst (λ ps. count_holding a ps ≡ (if leb (first_off ps) a && ltb a len then 1 else 0))
            (sym e) (joined-count len p rest a run'),
    )

finish_add-IsComplete :
    (pkt : SpeadPacket) (g : SpeadHeap) (r : ℤ × SpeadHeap)
    → finish_add pkt g ≡ r
    → r.0 ≡ pos 1
    → IsComplete r.1
unfolding finish_add spead_heap_got_all_packets
finish_add-IsComplete pkt g r e one =
    subst (λ t. IsComplete t.1) e (got_all-IsComplete g.packets _ refl refl (ap (λ t. t.0) e ∙ one))

add_to_chain-IsComplete :
    (pkt : SpeadPacket) (ps : List SpeadPacket) (g h : SpeadHeap)
    → add_to_chain pkt ps g ≡ some (pos 1, h)
    → IsComplete h
unfolding add_to_chain
add_to_chain-IsComplete pkt [] g h e = cc
add_to_chain-IsComplete pkt (head ∷ rest) g h e =
    finish_add-IsComplete pkt (link_packet pkt head rest g) (pos 1, h) (eq_of_some e) refl

-- When `spead_heap_add_packet` answers 1, the packets of the heap carry each byte from the start of
-- the first payload up to the heap's length exactly once, and no byte beyond it.
pub add_packet-IsComplete :
    (heap : SpeadHeap) (pkt : SpeadPacket) (h : SpeadHeap)
    → spead_heap_add_packet heap pkt ≡ some (pos 1, h)
    → IsComplete h
unfolding spead_heap_add_packet
add_packet-IsComplete heap pkt h e = elim (Bool-cases (pkt.n_items == 0)) [
  | inl empty ↦ cc (rw (empty, spead_heap_add_packet) at e)
  | inr full ↦ elim (Bool-cases (is_neg heap.heap_cnt)) [
    | inl fresh ↦
        finish_add-IsComplete pkt _ (pos 1, h)
          (eq_of_some (rw (full, fresh, spead_heap_add_packet) at e)) refl
    | inr known ↦ elim (Bool-cases (not (heap.heap_cnt ==ℤ pkt.heap_cnt))) [
      | inl other ↦ cc (rw (full, known, other, spead_heap_add_packet) at e)
      | inr same ↦
          add_to_chain-IsComplete pkt heap.packets heap h
            (rw (full, known, same, spead_heap_add_packet) at e)
    ]
  ]
]

-- The answer 1 does not mean that the heap is there from its start: a heap that is not started and
-- gets one packet with items, a number, and a payload that starts behind byte 0 and ends at the heap's
-- length answers 1, and no packet carries byte 0.
pub complete_without_start :
    (heap : SpeadHeap) (pkt : SpeadPacket)
    → is_neg heap.heap_cnt ≡ true
    → pkt.n_items ≢ 0
    → 0 < pkt.payload_off
    → pkt.heap_len ≡ pos (pkt.payload_off + pkt.payload_len)
    → (h : SpeadHeap) × (spead_heap_add_packet heap pkt ≡ some (pos 1, h))
      × (count_holding 0 h.packets ≡ 0)
unfolding spead_heap_add_packet finish_add spead_heap_got_all_packets got_all check_packets joined
complete_without_start heap pkt fresh full late len = (
  record heap {
    heap_cnt = pkt.heap_cnt;
    packets = pkt ∷ [];
    last_pkt = some pkt;
    heap_len = pkt.heap_len;
    has_all_packets = pos 1;
  },
  ground arith,
  ground arith,
)
