-- ===== src/Receiver/Items/Collect.antt =====
-- src/spead.c: what `coalesce_spead_items` collects from the packets of a heap.
use mathlib.Core.List.{append-nil, append_assoc}
use spead.Base.{
  ℕ, zero, suc, ◌+◌, ◌%◌, ◌^◌, ◌<◌, ◌≡◌, refl, ap, sym, ◌∙◌, Bool, true, some, List, [], ◌∷◌, ◌++◌,
  if◌then◌else◌, length, arith, length-append, Bool-cases, inl, inr, ◌*◌,
}
use spead.Base.Int.{pos}
use spead.Packet.{SpeadPacket}
use spead.Packet.Word.{spead_item, item_id}
use spead.Stack.{push_stack}
use spead.Stack.Lifo.{of_list}
use spead.Receiver.Items.{
  SpeadApiItem2, CoalesceData, is_header_id, new_item2, keep_pushed, push_item, coalesce_loop,
  coalesce_spead_items,
}
use spead.Receiver.Items.Lengths.{addresses, length-addresses}

-- The item pointers of a packet from the one at index `j` on.
abbrev pub Pointers : List ℕ → ℕ → List ℕ → Type 0
Pointers bytes j [] = Unit
Pointers bytes j (w ∷ ws) = (spead_item bytes (suc j) ≡ some w) × Pointers bytes (suc j) ws

-- The items that are not of the header.
abbrev pub kept : List ℕ → List SpeadApiItem2
kept [] = []
kept (w ∷ ws) = if is_header_id (item_id w) then kept ws else new_item2 w ∷ kept ws

-- The state with these items added to it, their addresses on the stack.
abbrev pub collected : CoalesceData → List SpeadApiItem2 → CoalesceData
collected cd xs = record cd {
  d_stack = of_list (addresses 0 (length (cd.d_items ++ xs)));
  d_items = cd.d_items ++ xs;
  d_calls = cd.d_calls + 2 * length xs;
}

-- The stack holds the addresses of the items found so far, the last on top.
abbrev pub IsStacked : CoalesceData → Type 0
IsStacked cd = cd.d_stack ≡ of_list (addresses 0 (length cd.d_items))

addresses-suc : (base n : ℕ) → addresses base (suc n) ≡ (base + n) ∷ addresses base n
addresses-suc base zero = ap (λ k. k ∷ []) (omega arith)
addresses-suc base (suc n) =
    ap (λ l. l ++ base ∷ []) (addresses-suc (suc base) n)
    ∙ ap (λ k. (k ∷ []) ++ addresses base (suc n)) (omega arith)

push-address :
    (n : ℕ)
    → n + 1 < 2 ^ 64
    → push_stack true (some (of_list (addresses 0 n))) n
      ≡ (pos 0, some (of_list (addresses 0 (suc n))))
unfolding push_stack
push-address n room =
    let top = addresses-suc 0 n in
    let e : 0 + n ≡ n = omega arith in
    let size : (length (addresses 0 n) + 1) % 2 ^ 64 ≡ suc (length (addresses 0 n)) =
      omega (arith, length-addresses 0 n) in
    rw (top, e, size)

pub collected-append :
    (cd : CoalesceData) (xs ys : List SpeadApiItem2)
    → collected (collected cd xs) ys ≡ collected cd (xs ++ ys)
collected-append cd xs ys =
    let joined = append_assoc cd.d_items xs ys in
    let calls : cd.d_calls + 2 * length xs + 2 * length ys ≡ cd.d_calls + 2 * length (xs ++ ys) =
      omega (arith, length-append xs ys) in
    rw (joined, calls)

pub collected-none : (cd : CoalesceData) → IsStacked cd → collected cd [] ≡ cd
collected-none cd st =
    let same = append-nil cd.d_items in
    let calls : cd.d_calls + 2 * 0 ≡ cd.d_calls = omega arith in rw (same, calls, sym st)

module _ (malloc : ℕ → Bool) (memory : (k : ℕ) → malloc k ≡ true) where
  push_item-collected :
      (w : ℕ) (cd : CoalesceData)
      → IsStacked cd
      → length cd.d_items + 1 < 2 ^ 64
      → push_item malloc w cd ≡ (pos 0, collected cd (new_item2 w ∷ []))
  unfolding push_item keep_pushed
  push_item-collected w cd st room =
      let more : length (cd.d_items ++ new_item2 w ∷ []) ≡ suc (length cd.d_items) =
        omega (arith, length-append cd.d_items (new_item2 w ∷ [])) in
      let pushed = push-address (length cd.d_items) room in
      let calls : cd.d_calls + 2 * 1 ≡ suc (suc cd.d_calls) = omega arith in
      rw (memory cd.d_calls, memory (suc cd.d_calls), st, pushed, more, calls)

  loop-collected :
      (bytes ws : List ℕ) (j : ℕ) (cd : CoalesceData)
      → Pointers bytes j ws
      → IsStacked cd
      → length cd.d_items + length ws < 2 ^ 64
      → coalesce_loop malloc (length ws) j bytes cd ≡ some (pos 0, collected cd (kept ws))
  unfolding coalesce_loop
  loop-collected bytes [] j cd ps st room = rw (collected-none cd st)
  loop-collected bytes (w ∷ ws) j cd ps st room = elim (Bool-cases (is_header_id (item_id w))) [
    | inl header ↦
        rw (ps.0, header, coalesce_loop)
          (loop-collected bytes ws (suc j) cd (ps.1) st (omega arith))
    | inr item ↦
        let pushed = push_item-collected w cd st (omega arith) in
        let more : length (cd.d_items ++ new_item2 w ∷ []) ≡ suc (length cd.d_items) =
          omega (arith, length-append cd.d_items (new_item2 w ∷ [])) in
        rw (ps.0, item, pushed, coalesce_loop)
          (rw pushed (
            loop-collected bytes ws (suc j) (collected cd (new_item2 w ∷ [])) (ps.1) refl
              (omega (arith, more))
            ∙ ap (λ t. some (pos 0, t)) (collected-append cd (new_item2 w ∷ []) (kept ws))))
  ]

  -- `coalesce_spead_items` on a packet whose item pointers are `ws`, with memory and fewer than 2 ^ 64
  -- items, where the stack holds the addresses of the items found so far: it succeeds, adds the
  -- items that are not of the header in their order and puts their addresses on the stack, asks for
  -- memory twice for each, and adds the length of the payload.
  pub coalesce-collects :
      (p : SpeadPacket) (ws : List ℕ) (cd : CoalesceData)
      → length ws ≡ p.n_items
      → Pointers p.bytes 0 ws
      → IsStacked cd
      → length cd.d_items + length ws < 2 ^ 64
      → coalesce_spead_items malloc p (some cd) ≡ (
        pos 0,
        some (record (collected cd (kept ws)) { d_off = (cd.d_off + p.payload_len) % 2 ^ 64 }),
      )
  unfolding coalesce_spead_items
  coalesce-collects p ws cd n ps st room =
      rw (sym n, loop-collected p.bytes ws 0 cd ps st room, coalesce_spead_items)
