-- ===== src/SpeadHeap/Order.antt =====
-- src/spead_packet.c: the packets of a heap stay in the order of their payloads, whatever order they
-- arrive in, and none is lost or doubled.
use mathlib.Core.List.{Perm}
use mathlib.Core.List.Perm
use spead.Base.{
  ◌≤◌, ◌≡◌, ◌≢◌, ◌⊎◌, inl, inr, refl, subst, true, false, not, Option, none, some, List, [], ◌∷◌,
  ◌==◌, ltb, if◌then◌else◌, arith, Bool-cases, ap, ◌∙◌, sym,
}
use spead.Base.Int.{ℤ, is_neg, ◌==ℤ◌, ==ℤ→eq, ==ℤ_refl, ==ℤ_ne}
use spead.Packet.{SpeadPacket, spead_err}
use spead.SpeadHeap.{
  SpeadHeap, spead_heap_init, insert_behind, inserted_last, link_packet, check_packets, got_all,
  spead_heap_got_all_packets, finish_add, add_to_chain, spead_heap_add_packet,
}

-- The payload of a packet starts no later than the next one's.
abbrev pub StartsBefore : SpeadPacket → List SpeadPacket → Type 0
StartsBefore p [] = Unit
StartsBefore p (q ∷ rest) = p.payload_off ≤ q.payload_off

abbrev pub IsOrdered : List SpeadPacket → Type 0
IsOrdered [] = Unit
IsOrdered (p ∷ rest) = StartsBefore p rest × IsOrdered rest

-- Every packet of a chain carries the number `cnt`.
abbrev pub AllOf : ℤ → List SpeadPacket → Type 0
AllOf cnt [] = Unit
AllOf cnt (p ∷ rest) = (p.heap_cnt ≡ cnt) × AllOf cnt rest

abbrev pub last_of : SpeadPacket → List SpeadPacket → SpeadPacket
last_of p [] = p
last_of p (q ∷ rest) = last_of q rest

-- The last packet of a chain.
abbrev pub chain_last : List SpeadPacket → Option SpeadPacket
chain_last [] = none
chain_last (p ∷ rest) = some (last_of p rest)

pub record IsWellFormed (heap : SpeadHeap) : Type 0 where
  pub ordered : IsOrdered heap.packets
  pub one_heap : AllOf heap.heap_cnt heap.packets
  pub last : heap.last_pkt ≡ chain_last heap.packets
  pub started : is_neg heap.heap_cnt ≡ false → heap.packets ≢ []

insert_behind-StartsBefore :
    (head pkt : SpeadPacket) (rest : List SpeadPacket)
    → head.payload_off ≤ pkt.payload_off
    → StartsBefore head rest
    → StartsBefore head (insert_behind pkt rest)
unfolding insert_behind
insert_behind-StartsBefore head pkt [] h s = h
insert_behind-StartsBefore head pkt (q ∷ rest) h s =
    elim (Bool-cases (ltb q.payload_off pkt.payload_off)) [
      | inl before ↦ rw before s
      | inr behind ↦ rw behind h
    ]

insert_behind-IsOrdered :
    (pkt : SpeadPacket) (rest : List SpeadPacket)
    → IsOrdered rest
    → IsOrdered (insert_behind pkt rest)
unfolding insert_behind
insert_behind-IsOrdered pkt [] s = (tt, tt)
insert_behind-IsOrdered pkt (q ∷ rest) s = elim (Bool-cases (ltb q.payload_off pkt.payload_off)) [
  | inl before ↦ rw before (
    insert_behind-StartsBefore q pkt rest (ground arith) s.0,
    insert_behind-IsOrdered pkt rest s.1,
  )
  | inr behind ↦ rw behind (ground arith, s)
]

insert_behind-AllOf :
    (pkt : SpeadPacket) (rest : List SpeadPacket) (cnt : ℤ)
    → pkt.heap_cnt ≡ cnt
    → AllOf cnt rest
    → AllOf cnt (insert_behind pkt rest)
unfolding insert_behind
insert_behind-AllOf pkt [] cnt e s = (e, tt)
insert_behind-AllOf pkt (q ∷ rest) cnt e s = elim (Bool-cases (ltb q.payload_off pkt.payload_off)) [
  | inl before ↦ rw before (s.0, insert_behind-AllOf pkt rest cnt e s.1)
  | inr behind ↦ rw behind (e, s)
]

insert_behind-last :
    (pkt head : SpeadPacket) (rest : List SpeadPacket)
    → last_of head (insert_behind pkt rest)
      ≡ (if inserted_last pkt rest then pkt else last_of head rest)
unfolding insert_behind inserted_last
insert_behind-last pkt head [] = refl
insert_behind-last pkt head (q ∷ rest) = elim (Bool-cases (ltb q.payload_off pkt.payload_off)) [
  | inl before ↦ rw before (insert_behind-last pkt q rest)
  | inr behind ↦ rw behind
]

insert_behind-perm :
    (pkt : SpeadPacket) (rest : List SpeadPacket) → Perm (insert_behind pkt rest) (pkt ∷ rest)
unfolding insert_behind
insert_behind-perm pkt [] = Perm.refl _
insert_behind-perm pkt (q ∷ rest) = elim (Bool-cases (ltb q.payload_off pkt.payload_off)) [
  | inl before ↦
      rw before (Perm.trans (Perm.cons q (insert_behind-perm pkt rest)) (Perm.swap pkt q rest))
  | inr behind ↦ rw behind (Perm.refl _)
]

-- The insertion keeps the invariant.
link_packet-IsWellFormed :
    (pkt head : SpeadPacket) (rest : List SpeadPacket) (heap : SpeadHeap)
    → heap.packets ≡ head ∷ rest
    → pkt.heap_cnt ≡ heap.heap_cnt
    → IsWellFormed heap
    → IsWellFormed (link_packet pkt head rest heap)
unfolding link_packet
link_packet-IsWellFormed pkt head rest heap e same w =
    let ordered = subst IsOrdered e w.ordered in
    let numbered = subst (AllOf heap.heap_cnt) e w.one_heap in
    let tail : heap.last_pkt ≡ some (last_of head rest) = w.last ∙ ap chain_last e in
    elim (Bool-cases (ltb pkt.payload_off head.payload_off)) [
      | inl first ↦ rw first (record {
        ordered = (ground arith, ordered);
        one_heap = (same, numbered);
        last = tail;
        started = λ _ h. cc h;
      })
      | inr later ↦ rw later (record {
        ordered = (
          insert_behind-StartsBefore head pkt rest (ground arith) ordered.0,
          insert_behind-IsOrdered pkt rest ordered.1,
        );
        one_heap = (numbered.0, insert_behind-AllOf pkt rest heap.heap_cnt same numbered.1);
        last = ground (arith, insert_behind-last pkt head rest);
        started = λ _ h. cc h;
      })
    ]

-- What the check for completeness leaves alone.
abbrev Keeps : SpeadHeap → SpeadHeap → Type 0
Keeps g h =
    (g.packets ≡ h.packets)
    × (g.last_pkt ≡ h.last_pkt)
    × (g.heap_cnt ≡ h.heap_cnt)
    × (g.heap_len ≡ h.heap_len)

got_all-Keeps : (ps : List SpeadPacket) (heap : SpeadHeap) → Keeps (got_all ps heap).1 heap
unfolding got_all check_packets
got_all-Keeps [] heap = (refl, refl, refl, refl)
got_all-Keeps (p ∷ rest) heap = ground arith

finish_add-IsWellFormed :
    (pkt : SpeadPacket) (heap : SpeadHeap)
    → IsWellFormed heap
    → IsWellFormed (finish_add pkt heap).1
unfolding finish_add spead_heap_got_all_packets
finish_add-IsWellFormed pkt heap w =
    let k = got_all-Keeps heap.packets _ in
    record {
      ordered = rw (k.0) w.ordered;
      one_heap = rw (k.0, k.2) w.one_heap;
      last = k.1 ∙ w.last ∙ ap chain_last (sym (k.0));
      started = rw (k.0, k.2) w.started;
    }

-- What the heap is when its first packet has been put in.
abbrev started_with : SpeadPacket → SpeadHeap → SpeadHeap
started_with pkt heap = record heap {
  heap_cnt = pkt.heap_cnt;
  packets = pkt ∷ [];
  last_pkt = some pkt;
}

started_with-IsWellFormed :
    (pkt : SpeadPacket) (heap : SpeadHeap) → IsWellFormed (started_with pkt heap)
started_with-IsWellFormed pkt heap = record {
  ordered = (tt, tt);
  one_heap = (refl, tt);
  last = refl;
  started = λ _ h. cc h;
}

-- A heap that has a number has a first packet.
chain_of :
    (heap : SpeadHeap)
    → IsWellFormed heap
    → is_neg heap.heap_cnt ≡ false
    → (head : SpeadPacket) × (rest : List SpeadPacket) × (heap.packets ≡ head ∷ rest)
chain_of heap w h = go heap.packets refl
  where
    go :
        (ps : List SpeadPacket)
        → heap.packets ≡ ps
        → (head : SpeadPacket) × (rest : List SpeadPacket) × (heap.packets ≡ head ∷ rest)
    go [] e = absurd (w.started h e)
    go (head ∷ rest) e = (head, rest, e)

-- The test of the heap number.
same-number : (a b : ℤ) → not (a ==ℤ b) ≡ false → a ≡ b
same-number a b h = ==ℤ→eq a b (ground arith)

-- `spead_heap_add_packet` never reads a NULL pointer in a well-formed heap, and leaves a well-formed
-- heap: in the order of the payloads, all of one heap number, with `last_pkt` the last of the chain.
pub add_packet-IsWellFormed :
    (heap : SpeadHeap) (pkt : SpeadPacket)
    → IsWellFormed heap
    → (r : ℤ) × (h : SpeadHeap) × (spead_heap_add_packet heap pkt ≡ some (r, h)) × IsWellFormed h
unfolding spead_heap_add_packet add_to_chain
add_packet-IsWellFormed heap pkt w = elim (Bool-cases (pkt.n_items == 0)) [
  | inl empty ↦ (spead_err, heap, rw empty, w)
  | inr full ↦ elim (Bool-cases (is_neg heap.heap_cnt)) [
    | inl fresh ↦ (
      (finish_add pkt (started_with pkt heap)).0,
      (finish_add pkt (started_with pkt heap)).1,
      rw (full, fresh),
      finish_add-IsWellFormed pkt _ (started_with-IsWellFormed pkt heap),
    )
    | inr known ↦ elim (Bool-cases (not (heap.heap_cnt ==ℤ pkt.heap_cnt))) [
      | inl other ↦ (spead_err, heap, rw (full, known, other), w)
      | inr same ↦
          let (head, rest, e) = chain_of heap w known in
          let linked = link_packet pkt head rest heap in
          (
            (finish_add pkt linked).0,
            (finish_add pkt linked).1,
            rw (full, known, same, e),
            finish_add-IsWellFormed pkt linked
                (link_packet-IsWellFormed pkt head rest heap e (sym (same-number _ _ same)) w),
          )
    ]
  ]
]

link_packet-perm :
    (pkt head : SpeadPacket) (rest : List SpeadPacket) (heap : SpeadHeap)
    → Perm (link_packet pkt head rest heap).packets (pkt ∷ head ∷ rest)
unfolding link_packet
link_packet-perm pkt head rest heap = elim (Bool-cases (ltb pkt.payload_off head.payload_off)) [
  | inl first ↦ rw first (Perm.refl _)
  | inr later ↦
      rw later (Perm.trans (Perm.cons head (insert_behind-perm pkt rest)) (Perm.swap pkt head rest))
]

link_packet-cnt :
    (pkt head : SpeadPacket) (rest : List SpeadPacket) (heap : SpeadHeap)
    → (link_packet pkt head rest heap).heap_cnt ≡ heap.heap_cnt
unfolding link_packet
link_packet-cnt pkt head rest heap = ground arith

finish_add-perm :
    (pkt : SpeadPacket) (heap : SpeadHeap) (ps : List SpeadPacket)
    → Perm heap.packets ps
    → Perm (finish_add pkt heap).1.packets ps
unfolding finish_add spead_heap_got_all_packets
finish_add-perm pkt heap ps h = rw ((got_all-Keeps heap.packets _).0) h

finish_add-cnt :
    (pkt : SpeadPacket) (heap : SpeadHeap) → (finish_add pkt heap).1.heap_cnt ≡ heap.heap_cnt
unfolding finish_add spead_heap_got_all_packets
finish_add-cnt pkt heap = (got_all-Keeps heap.packets _).2

-- On a well-formed heap: a packet without items, or of another heap than the one that has been
-- started, is refused with the error, and the heap stays as it was. A packet with items that has the
-- heap's number joins the packets that are there; on a heap that is not started it becomes the only
-- packet and gives the heap its number.
pub add_packet-perm :
    (heap : SpeadHeap) (pkt : SpeadPacket)
    → IsWellFormed heap
    → ((pkt.n_items ≡ 0) ⊎ ((is_neg heap.heap_cnt ≡ false) × (heap.heap_cnt ≢ pkt.heap_cnt))
        → spead_heap_add_packet heap pkt ≡ some (spead_err, heap))
      × (pkt.n_items ≢ 0
          → is_neg heap.heap_cnt ≡ false
          → heap.heap_cnt ≡ pkt.heap_cnt
          → (r : ℤ) × (h : SpeadHeap) × (spead_heap_add_packet heap pkt ≡ some (r, h))
            × Perm h.packets (pkt ∷ heap.packets)
            × (h.heap_cnt ≡ heap.heap_cnt))
      × (pkt.n_items ≢ 0
          → is_neg heap.heap_cnt ≡ true
          → (r : ℤ) × (h : SpeadHeap) × (spead_heap_add_packet heap pkt ≡ some (r, h))
            × Perm h.packets (pkt ∷ [])
            × (h.heap_cnt ≡ pkt.heap_cnt))
unfolding spead_heap_add_packet add_to_chain
add_packet-perm heap pkt w = (
  elim [
    | inl none_in ↦ rw none_in
    | inr (known, other) ↦ elim (Bool-cases (pkt.n_items == 0)) [
      | inl empty ↦ rw empty
      | inr full ↦ rw (full, known, ==ℤ_ne _ _ other)
    ]
  ],
  (λ full known same.
      let (head, rest, e) = chain_of heap w known in
      let linked = link_packet pkt head rest heap in
      let some_in : (pkt.n_items == 0) ≡ false = ground arith in
      let equal : (heap.heap_cnt ==ℤ pkt.heap_cnt) ≡ true = rw same (==ℤ_refl pkt.heap_cnt) in
      (
        (finish_add pkt linked).0,
        (finish_add pkt linked).1,
        rw (some_in, known, equal, e),
        finish_add-perm pkt linked _ (
            subst (λ ps. Perm linked.packets (pkt ∷ ps)) (sym e)
              (link_packet-perm pkt head rest heap)),
        finish_add-cnt pkt linked ∙ link_packet-cnt pkt head rest heap,
      )),
  (λ full fresh.
      let some_in : (pkt.n_items == 0) ≡ false = ground arith in
      (
        (finish_add pkt (started_with pkt heap)).0,
        (finish_add pkt (started_with pkt heap)).1,
        rw (some_in, fresh),
        finish_add-perm pkt (started_with pkt heap) _ (Perm.refl _),
        finish_add-cnt pkt (started_with pkt heap),
      )),
)

pub init-IsWellFormed : IsWellFormed spead_heap_init
unfolding spead_heap_init
init-IsWellFormed = record { ordered = tt; one_heap = tt; last = refl; started = λ h. cc h }
