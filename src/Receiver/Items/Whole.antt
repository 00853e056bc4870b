-- ===== src/Receiver/Items/Whole.antt =====
-- src/spead.c: the first traversal of `process_items`, which collects the items of all the packets.
use mathlib.Core.List.{append-nil, append_assoc}
use spead.Base.{
  ℕ, ◌+◌, ◌%◌, ◌^◌, ◌≤◌, ◌<◌, ◌≡◌, refl, ap, sym, ◌∙◌, Bool, true, false, some, List, [], ◌∷◌, ◌++◌,
  length, arith, length-append, ◌*◌,
}
use spead.Base.Int.{pos}
use spead.Packet.{SpeadPacket}
use spead.HashTable.{HashObject, inorder_traverse}
use spead.HashTable.Traverse.{visit_chain, visit_chains, rounds, inorder_visits}
use spead.Receiver.Items.{SpeadApiItem2, CoalesceData, coalesce_spead_items}
use spead.Receiver.Items.Collect.{Pointers, kept, collected, IsStacked, coalesce-collects}

-- A packet with its item pointers.
abbrev pub Listed : Type 0
Listed = SpeadPacket × List ℕ

-- The pointers are those that stand in the packet.
abbrev pub AllListed : List Listed → Type 0
AllListed [] = Unit
AllListed ((p, ws) ∷ l) = (length ws ≡ p.n_items) × Pointers p.bytes 0 ws × AllListed l

-- The objects of a chain, and of a table.
abbrev pub objects : List Listed → List (HashObject SpeadPacket)
objects [] = []
objects ((p, ws) ∷ l) = some p ∷ objects l

abbrev pub tables : List (List Listed) → List (List (HashObject SpeadPacket))
tables [] = []
tables (l ∷ os) = objects l ∷ tables os

-- The packets in the order of the table.
abbrev pub flat : List (List Listed) → List Listed
flat [] = []
flat (l ∷ os) = l ++ flat os

-- Their items, and the length of their payload.
abbrev pub heap_items : List Listed → List SpeadApiItem2
heap_items [] = []
heap_items ((p, ws) ∷ l) = kept ws ++ heap_items l

abbrev pub heap_bytes : List Listed → ℕ
heap_bytes [] = 0
heap_bytes ((p, ws) ∷ l) = p.payload_len + heap_bytes l

abbrev pub pointer_count : List Listed → ℕ
pointer_count [] = 0
pointer_count ((p, ws) ∷ l) = length ws + pointer_count l

-- The state with the packets collected.
abbrev pub all_collected : CoalesceData → List Listed → CoalesceData
all_collected cd l = record (collected cd (heap_items l)) {
  d_off = (cd.d_off + heap_bytes l) % 2 ^ 64;
}

AllListed-append : (l m : List Listed) → AllListed (l ++ m) → AllListed l × AllListed m
AllListed-append [] m a = (tt, a)
AllListed-append ((p, ws) ∷ l) m (n, ps, a) = let (b, c) = AllListed-append l m a in ((n, ps, b), c)

heap_items-append : (l m : List Listed) → heap_items (l ++ m) ≡ heap_items l ++ heap_items m
heap_items-append [] m = refl
heap_items-append ((p, ws) ∷ l) m =
    ap (λ t. kept ws ++ t) (heap_items-append l m)
    ∙ sym (append_assoc (kept ws) (heap_items l) (heap_items m))

pub heap_bytes-append : (l m : List Listed) → heap_bytes (l ++ m) ≡ heap_bytes l + heap_bytes m
heap_bytes-append [] m = omega arith
heap_bytes-append ((p, ws) ∷ l) m = omega (arith, heap_bytes-append l m)

pointer_count-append :
    (l m : List Listed) → pointer_count (l ++ m) ≡ pointer_count l + pointer_count m
pointer_count-append [] m = omega arith
pointer_count-append ((p, ws) ∷ l) m = omega (arith, pointer_count-append l m)

length-kept : (ws : List ℕ) → length (kept ws) ≤ length ws
length-kept [] = omega arith
length-kept (w ∷ ws) = ground (arith, length-kept ws)

pub length-heap_items : (l : List Listed) → length (heap_items l) ≤ pointer_count l
length-heap_items [] = omega arith
length-heap_items ((p, ws) ∷ l) =
    omega (arith, length-append (kept ws) (heap_items l), length-kept ws, length-heap_items l)

collected-more :
    (cd : CoalesceData) (xs : List SpeadApiItem2) (n : ℕ) (l : List Listed)
    → all_collected (record (collected cd xs) { d_off = (cd.d_off + n) % 2 ^ 64 }) l
      ≡ record (collected cd (xs ++ heap_items l)) {
        d_off = (cd.d_off + (n + heap_bytes l)) % 2 ^ 64;
      }
collected-more cd xs n l =
    let joined = append_assoc cd.d_items xs (heap_items l) in
    let calls : cd.d_calls + 2 * length xs + 2 * length (heap_items l)
        ≡ cd.d_calls + 2 * length (xs ++ heap_items l) =
      omega (arith, length-append xs (heap_items l)) in
    let bytes : ((cd.d_off + n) % 2 ^ 64 + heap_bytes l) % 2 ^ 64
        ≡ (cd.d_off + (n + heap_bytes l)) % 2 ^ 64 =
      omega arith in
    rw (bytes, joined, calls)

all_collected-append :
    (cd : CoalesceData) (l m : List Listed)
    → all_collected (all_collected cd l) m ≡ all_collected cd (l ++ m)
all_collected-append cd l m =
    rw (heap_items-append l m, heap_bytes-append l m)
      (collected-more cd (heap_items l) (heap_bytes l) m)

module _ (malloc : ℕ → Bool) (memory : (k : ℕ) → malloc k ≡ true) where
  chain-collected :
      (l : List Listed) (cd : CoalesceData)
      → AllListed l
      → IsStacked cd
      → cd.d_off < 2 ^ 64
      → length cd.d_items + pointer_count l < 2 ^ 64
      → visit_chain (coalesce_spead_items malloc) (objects l) (some cd)
        ≡ (false, some (all_collected cd l))
  chain-collected [] cd a st small room =
      let same : (cd.d_off + 0) % 2 ^ 64 ≡ cd.d_off = omega arith in
      let no_more = append-nil cd.d_items in
      let calls : cd.d_calls + 2 * 0 ≡ cd.d_calls = omega arith in rw (no_more, calls, sym st, same)
  chain-collected ((p, ws) ∷ l) cd (n, ps, a) st small room =
      let here = coalesce-collects malloc memory p ws cd n ps st (omega arith) in
      let st1 : CoalesceData = record (collected cd (kept ws)) {
        d_off = (cd.d_off + p.payload_len) % 2 ^ 64;
      } in
      let count : length (cd.d_items ++ kept ws) ≤ length cd.d_items + length ws =
        omega (arith, length-append cd.d_items (kept ws), length-kept ws) in
      rw here (
        chain-collected l st1 a refl (omega arith) (omega (arith, count))
        ∙ ap (λ t. (false, some t)) (collected-more cd (kept ws) p.payload_len l))

  chains-collected :
      (os : List (List Listed)) (cd : CoalesceData)
      → AllListed (flat os)
      → IsStacked cd
      → cd.d_off < 2 ^ 64
      → length cd.d_items + pointer_count (flat os) < 2 ^ 64
      → visit_chains (coalesce_spead_items malloc) (tables os) (some cd)
        ≡ (false, some (all_collected cd (flat os)))
  chains-collected [] cd a st small room =
      let same : (cd.d_off + 0) % 2 ^ 64 ≡ cd.d_off = omega arith in
      let no_more = append-nil cd.d_items in
      let calls : cd.d_calls + 2 * 0 ≡ cd.d_calls = omega arith in rw (no_more, calls, sym st, same)
  chains-collected (l ∷ os) cd a st small room =
      let (b, c) = AllListed-append l (flat os) a in
      let counts = pointer_count-append l (flat os) in
      let here = chain-collected l cd b st small (omega (arith, counts)) in
      let count : length (cd.d_items ++ heap_items l) ≤ length cd.d_items + pointer_count l =
        omega (arith, length-append cd.d_items (heap_items l), length-heap_items l) in
      rw here (
        chains-collected os (all_collected cd l) c refl (omega arith) (omega (arith, counts, count))
        ∙ ap (λ t. (false, some t)) (all_collected-append cd l (flat os)))

  -- The traversal of a table with `coalesce_spead_items`, where the item pointers of each packet are
  -- known, with memory, fewer than 2 ^ 64 pointers, and a stack that holds the addresses of the items
  -- found so far: it ends with 0, and has collected the items that are not of the header of all the
  -- packets, in the order of the table, with their addresses on the stack, and added the lengths of
  -- the payloads.
  pub heap-collects :
      (os : List (List Listed)) (cd : CoalesceData)
      → AllListed (flat os)
      → IsStacked cd
      → cd.d_off < 2 ^ 64
      → length cd.d_items + pointer_count (flat os) < 2 ^ 64
      → inorder_traverse
          (rounds (coalesce_spead_items malloc) (tables os))
          (coalesce_spead_items malloc)
          (length (tables os))
          (tables os)
          (some cd)
        ≡ some (pos 0, some (all_collected cd (flat os)))
  heap-collects os cd a st small room =
      let run = inorder_visits (coalesce_spead_items malloc) (tables os) (some cd) in
      rw (chains-collected os cd a st small room) at (run)
