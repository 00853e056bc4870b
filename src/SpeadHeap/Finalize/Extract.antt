-- ===== src/SpeadHeap/Finalize/Extract.antt =====
-- src/spead_packet.c: the copy loop of `spead_heap_finalize`. Its cursor only moves forward; the
-- value is still that of a search from the first packet for each byte, and on a complete chain it is
-- the range of the joined payloads.
use spead.Base.{
  ℕ, zero, suc, ◌+◌, ◌-◌, ◌≤◌, ◌<◌, ◌≡◌, refl, sym, ap, ◌∙◌, inl, inr, Bool, true, false, Option,
  none, some, List, [], ◌∷◌, ◌++◌, ltb, leb, if◌then◌else◌, length, take, drop, get_elem?, arith,
  Bool-cases, length-take, length-drop, not, ◌==◌,
}
use spead.Base.Int.{pos}
use spead.Base.Slices.{
  get_elem?-append_left, get_elem?-append_right, get_elem?-take, get_elem?-drop, get_elem?-total,
  range-suc,
}
use spead.Packet.{SpeadPacket}
use spead.SpeadHeap.{joined}
use spead.SpeadHeap.Finalize.{skip_before, payload_byte, byte_in, then_byte, copy_val}

-- A cursor that was moved for an earlier byte stops where a search from the start stops.
skip_before-skip_before :
    (a b : ℕ) (chain : List SpeadPacket)
    → a ≤ b
    → skip_before b (skip_before a chain) ≡ skip_before b chain
unfolding skip_before
skip_before-skip_before a b [] h = refl
skip_before-skip_before a b (p ∷ rest) h =
    elim (Bool-cases (leb (p.payload_off + p.payload_len) a)) [
      | inl past ↦
          let beyond : leb (p.payload_off + p.payload_len) b ≡ true = ground arith in
          rw (past, beyond) (skip_before-skip_before a b rest h)
      | inr held ↦ rw held
    ]

-- The value read by a search from the first packet for each byte.
pub reference_val : ℕ → ℕ → List SpeadPacket → Option (List ℕ × Bool)
reference_val zero a chain = some ([], true)
reference_val (suc n) a chain =
    then_byte (byte_in a (skip_before a chain)) (reference_val n (suc a) chain)

copy_val-skip :
    (n a b : ℕ) (chain : List SpeadPacket)
    → a ≤ b
    → copy_val n b (skip_before a chain) ≡ copy_val n b chain
unfolding copy_val
copy_val-skip zero a b chain h = refl
copy_val-skip (suc n) a b chain h = rw (skip_before-skip_before a b chain h)

-- The loop with the moving cursor copies what a search from the first packet finds for each byte.
pub copy_val-reference_val :
    (n a : ℕ) (chain : List SpeadPacket) → copy_val n a chain ≡ reference_val n a chain
unfolding copy_val reference_val
copy_val-reference_val zero a chain = refl
copy_val-reference_val (suc n) a chain =
    rw (copy_val-skip n a (suc a) chain (omega arith), copy_val-reference_val n (suc a) chain)

-- The bytes that a packet carries.
abbrev pub payload_bytes : SpeadPacket → List ℕ
payload_bytes p = elim p.payload [
  | none ↦ []
  | some a ↦ take p.payload_len (drop (a - p.data_addr) p.bytes)
]

abbrev pub chain_bytes : List SpeadPacket → List ℕ
chain_bytes [] = []
chain_bytes (p ∷ rest) = payload_bytes p ++ chain_bytes rest

-- The payload of a packet lies in its own array.
pub record HasPayload (p : SpeadPacket) : Type 0 where
  pub start : ℕ
  pub points : p.payload ≡ some start
  pub inside : p.data_addr ≤ start
  pub fits : start - p.data_addr + p.payload_len ≤ length p.bytes

abbrev pub AllHavePayload : List SpeadPacket → Type 0
AllHavePayload [] = Unit
AllHavePayload (p ∷ rest) = HasPayload p × AllHavePayload rest

pub length-payload_bytes :
    (p : SpeadPacket) → HasPayload p → length (payload_bytes p) ≡ p.payload_len
length-payload_bytes p h = rw (h.points) (
    omega (
      arith,
      h.fits,
      length-take p.payload_len (drop (h.start - p.data_addr) p.bytes),
      length-drop (h.start - p.data_addr) p.bytes,
    ))

payload_byte-bytes :
    (p : SpeadPacket) (i : ℕ)
    → HasPayload p
    → i < p.payload_len
    → payload_byte p i ≡ get_elem? (payload_bytes p) i
unfolding payload_byte
payload_byte-bytes p i h lt =
    let own : ltb h.start p.data_addr ≡ false = ground (arith, h.inside) in
    rw (h.points, own)
      (sym (
        get_elem?-take (drop (h.start - p.data_addr) p.bytes) p.payload_len i lt
        ∙ get_elem?-drop p.bytes (h.start - p.data_addr) i))

-- The byte of a chain at an address that its first packet carries.
held_byte :
    (p : SpeadPacket) (rest : List SpeadPacket) (a : ℕ)
    → HasPayload p
    → p.payload_off ≤ a
    → a < p.payload_off + p.payload_len
    → (b : ℕ) × (byte_in a (skip_before a (p ∷ rest)) ≡ some (some b))
      × (get_elem? (chain_bytes (p ∷ rest)) (a - p.payload_off) ≡ some b)
unfolding byte_in skip_before
held_byte p rest a h lo hi =
    let size = length-payload_bytes p h in
    let inside : a - p.payload_off < p.payload_len = omega arith in
    let (b, e) = get_elem?-total (payload_bytes p) (a - p.payload_off) (rw size inside) in
    let held : leb (p.payload_off + p.payload_len) a ≡ false = ground arith in
    let started : ltb a p.payload_off ≡ false = ground arith in
    (
      b,
      rw (held, started, byte_in, payload_byte-bytes p (a - p.payload_off) h inside, e),
      get_elem?-append_left (payload_bytes p) (chain_bytes rest) (a - p.payload_off)
            (rw size inside)
          ∙ e,
    )

joined-next :
    (len : ℕ) (p q : SpeadPacket) (rest : List SpeadPacket)
    → joined (pos len) p (q ∷ rest) ≡ true
    → (p.payload_off + p.payload_len ≡ q.payload_off) × (joined (pos len) q rest ≡ true)
unfolding joined
joined-next len p q rest h = both (p.payload_off + p.payload_len) q.payload_off _ h
  where
    both : (e o : ℕ) (b : Bool) → (if not (e == o) then false else b) ≡ true → (e ≡ o) × (b ≡ true)
    both e o b h = ground arith

-- The byte of a complete chain at an address of the heap.
chain_byte :
    (len : ℕ) (p : SpeadPacket) (rest : List SpeadPacket) (a : ℕ)
    → joined (pos len) p rest ≡ true
    → AllHavePayload (p ∷ rest)
    → p.payload_off ≤ a
    → a < len
    → (b : ℕ) × (byte_in a (skip_before a (p ∷ rest)) ≡ some (some b))
      × (get_elem? (chain_bytes (p ∷ rest)) (a - p.payload_off) ≡ some b)
unfolding joined skip_before
chain_byte len p [] a j h lo hi = held_byte p [] a (h.0) lo (ground arith)
chain_byte len p (q ∷ rest) a j h lo hi =
    let (step, later) = joined-next len p q rest j in
    elim (Bool-cases (leb (p.payload_off + p.payload_len) a)) [
      | inl past ↦
          let size = length-payload_bytes p (h.0) in
          let from : q.payload_off ≤ a = ground arith in
          let (b, found, at) = chain_byte len q rest a later (h.1) from hi in
          let shift : a - p.payload_off - length (payload_bytes p) ≡ a - q.payload_off =
            omega arith in
          (
            b,
            rw past found,
            get_elem?-append_right (payload_bytes p) (chain_bytes (q ∷ rest)) (a - p.payload_off)
                  (omega arith)
                ∙ ap (get_elem? (chain_bytes (q ∷ rest))) shift
                ∙ at,
          )
      | inr held ↦ held_byte p (q ∷ rest) a (h.0) lo (ground arith)
    ]

reference_val-chain :
    (len : ℕ) (p : SpeadPacket) (rest : List SpeadPacket) (n a : ℕ)
    → joined (pos len) p rest ≡ true
    → AllHavePayload (p ∷ rest)
    → p.payload_off ≤ a
    → a + n ≤ len
    → reference_val n a (p ∷ rest)
      ≡ some (take n (drop (a - p.payload_off) (chain_bytes (p ∷ rest))), true)
unfolding reference_val then_byte
reference_val-chain len p rest zero a j h lo hi = refl
reference_val-chain len p rest (suc n) a j h lo hi =
    let (b, found, at) = chain_byte len p rest a j h lo (omega arith) in
    let step : suc a - p.payload_off ≡ suc (a - p.payload_off) = omega arith in
    rw (
      found,
      reference_val-chain len p rest n (suc a) j h (omega arith) (omega arith),
      step,
      range-suc (chain_bytes (p ∷ rest)) (a - p.payload_off) n b at,
    )

-- On packets whose payloads lie in their arrays and meet end to end up to the heap's length, the copy
-- loop takes an item of length `n` at address `a` as the range of the joined payloads, marks it
-- valid, and reads nothing outside the arrays.
pub copy_val-chain :
    (len : ℕ) (p : SpeadPacket) (rest : List SpeadPacket) (n a : ℕ)
    → joined (pos len) p rest ≡ true
    → AllHavePayload (p ∷ rest)
    → p.payload_off ≤ a
    → a + n ≤ len
    → copy_val n a (p ∷ rest)
      ≡ some (take n (drop (a - p.payload_off) (chain_bytes (p ∷ rest))), true)
copy_val-chain len p rest n a j h lo hi =
    copy_val-reference_val n a (p ∷ rest) ∙ reference_val-chain len p rest n a j h lo hi
