-- ===== src/Sender/Words.antt =====
-- src/spead_packet.h and src/spead.c: the words in front of a packet's payload, while words are set and
-- payload is copied.
use spead.Base.{
  ℕ, zero, suc, ◌+◌, ◌-◌, ◌*◌, ◌≤◌, ◌<◌, ◌≡◌, refl, ap, sym, ◌∙◌, some, none, List, ◌∷◌, ◌++◌,
  length, take, drop, arith, length-append, length-take, length-drop,
}
use spead.Base.Slices.{
  take-append, take-append_right, drop-append_left, drop-append_right, range-append_left,
  range-take, drop-drop, take_all,
}
use spead.Packet.Word.{spead_item, set_item, to_network}
use spead.Packet.Word.Network.{length-to_network}
use spead.Packet.Unpack.{items_from}
use spead.Sender.State.{splice}

module _ (bytes src : List ℕ) (at : ℕ) (fits : at + length src ≤ length bytes) where
  length-front : length (take at bytes) ≡ at
  length-front = omega (arith, length-take at bytes)

  pub length-splice : length (splice bytes at src) ≡ length bytes
  unfolding splice
  length-splice = omega (
    arith,
    length-append (take at bytes) (src ++ drop (at + length src) bytes),
    length-append src (drop (at + length src) bytes),
    length-front,
    length-drop (at + length src) bytes,
  )

  -- What lies in front of the bytes replaced stays.
  pub range-splice_before :
      (i k : ℕ) → i + k ≤ at → take k (drop i (splice bytes at src)) ≡ take k (drop i bytes)
  unfolding splice
  range-splice_before i k h =
      range-append_left (take at bytes) (src ++ drop (at + length src) bytes) i k
        (omega (arith, length-front))
      ∙ range-take bytes i at k h

  -- What lies behind them stays.
  pub drop-splice_after :
      (i : ℕ) → at + length src ≤ i → drop i (splice bytes at src) ≡ drop i bytes
  unfolding splice
  drop-splice_after i h =
      drop-append_right (take at bytes) (src ++ drop (at + length src) bytes) i
        (omega (arith, length-front))
      ∙ drop-append_right src (drop (at + length src) bytes) (i - length (take at bytes))
          (omega (arith, length-front))
      ∙ drop-drop bytes (i - length (take at bytes) - length src) (at + length src)
      ∙ ap (λ t. drop t bytes) (omega (arith, length-front))

  -- Bytes from `i` to the replaced ones, and these.
  pub range-splice :
      (i k : ℕ)
      → i + k ≡ at
      → take (k + length src) (drop i (splice bytes at src)) ≡ take k (drop i bytes) ++ src
  unfolding splice
  range-splice i k h =
      let rest = drop (at + length src) bytes in
      let before : i ≤ length (take at bytes) = omega (arith, length-front) in
      let left = drop i (take at bytes) in
      let long : length left ≡ k = omega (arith, length-front, length-drop i (take at bytes)) in
      let more : k + length src - length left ≡ length src = omega (arith, long) in
      let kept : left ≡ take k (drop i bytes) =
        sym (take_all left k (omega (arith, long))) ∙ range-take bytes i at k (omega (arith, h)) in
      ap (take (k + length src)) (drop-append_left (take at bytes) (src ++ rest) i before)
      ∙ take-append_right left (src ++ rest) (k + length src) (omega (arith, long))
      ∙ ap (λ t. left ++ t)
          (ap (λ t. take t (src ++ rest)) more
            ∙ take-append src rest (length src) (omega arith)
            ∙ take_all src (length src) (omega arith))
      ∙ ap (λ t. t ++ src) kept

-- Words that lie in front of the replaced bytes are read as before.
pub item-splice :
    (bytes src : List ℕ) (at n : ℕ)
    → at + length src ≤ length bytes
    → n * 8 + 8 ≤ at
    → spead_item (splice bytes at src) n ≡ spead_item bytes n
unfolding spead_item
item-splice bytes src at n fits h = rw (range-splice_before bytes src at fits (n * 8) 8 h)

-- A word that is set replaces eight bytes.
pub set_item-splice :
    (bytes : List ℕ) (n word : ℕ) → set_item bytes n word ≡ splice bytes (n * 8) (to_network 8 word)
unfolding set_item splice
set_item-splice bytes n word =
    ap (λ t. take (n * 8) bytes ++ (to_network 8 word ++ drop (n * 8 + t) bytes))
      (sym (length-to_network 8 word))

-- Pointers are the same where the words are.
pub items_from-cong :
    (n i : ℕ) (bytes bytes' : List ℕ)
    → ((k : ℕ) → i ≤ k → k < i + n → spead_item bytes' k ≡ spead_item bytes k)
    → items_from n i bytes' ≡ items_from n i bytes
unfolding items_from
items_from-cong zero i bytes bytes' same = refl
items_from-cong (suc n) i bytes bytes' same =
    let rest =
      items_from-cong n (suc i) bytes bytes' (λ k low high. same k (omega arith) (omega arith)) in
    λ j. elim (same i (omega arith) (omega arith) j) [
      | none ↦ none
      | some item ↦ elim (rest j) [ none ↦ none | some items ↦ some (item ∷ items) ]
    ]
