-- ===== src/Receiver/Process/Sliced.antt =====
-- src/spead.c: the data of a heap's items as ranges of its payload.
use spead.Base.{
  ℕ, ◌+◌, ◌-◌, ◌*◌, ◌≤◌, ◌≡◌, refl, ap, ◌∙◌, true, List, [], ◌∷◌, ◌==◌, if◌then◌else◌, length, take,
  drop, arith, length-drop, Bool-cases, inl, inr,
}
use spead.Base.Slices.{drop-drop}
use spead.Packet.Word.{directaddr}
use spead.Receiver.Items.{SpeadApiItem2, int64_len}
use spead.Receiver.Items.Lengths.{starts, tiled, Ascending, values, direct_bytes, starts-bound}
use spead.Receiver.Convert.{le_bytes}
use spead.Receiver.Convert.Deliver.{delivered, space, AllSupplied}

-- The ids and the data of the items: the range of the payload from an item's offset to where the next
-- one starts, if it is not empty, or the eight bytes of a value.
abbrev pub sliced : ℕ → List ℕ → List SpeadApiItem2 → List (ℕ × List ℕ)
sliced total payload [] = []
sliced total payload (x ∷ xs) =
    if x.i_mode == directaddr
    then (if starts total xs - x.i_off == 0
        then sliced total payload xs
        else (x.i_id, take (starts total xs - x.i_off) (drop x.i_off payload))
          ∷ sliced total payload xs)
    else (x.i_id, le_bytes int64_len x.i_off) ∷ sliced total payload xs

behind_tiled :
    (total : ℕ) (payload : List ℕ) (x : SpeadApiItem2) (xs : List SpeadApiItem2)
    → (x.i_mode == directaddr) ≡ true
    → x.i_off ≤ starts total xs
    → drop (starts total xs - x.i_off) (drop x.i_off payload) ≡ drop (starts total xs) payload
behind_tiled total payload x xs direct below =
    drop-drop payload (starts total xs - x.i_off) x.i_off
    ∙ ap (λ k. drop k payload) (omega (arith, below))

pub delivered-sliced :
    (total : ℕ) (payload : List ℕ) (xs : List SpeadApiItem2)
    → Ascending total xs
    → delivered (tiled total xs) (drop (starts total xs) payload) ≡ sliced total payload xs
delivered-sliced total payload [] a = refl
delivered-sliced total payload (x ∷ xs) (below, a) =
    let rest = delivered-sliced total payload xs a in
    elim (Bool-cases (x.i_mode == directaddr)) [
      | inr value ↦ rw (value, rest) refl
      | inl direct ↦ rw (direct, behind_tiled total payload x xs direct (below direct), rest) refl
    ]

pub tiled-AllSupplied :
    (fuel total : ℕ) (payload : List ℕ) (xs : List SpeadApiItem2)
    → Ascending total xs
    → length payload ≡ total
    → total ≤ fuel
    → AllSupplied fuel (tiled total xs) (drop (starts total xs) payload)
tiled-AllSupplied fuel total payload [] a len enough = tt
tiled-AllSupplied fuel total payload (x ∷ xs) (below, a) len enough =
    let rest = tiled-AllSupplied fuel total payload xs a len enough in
    let bound = starts-bound total xs a in
    elim (Bool-cases (x.i_mode == directaddr)) [
      | inr value ↦ rw value ((λ d. absurd (cc)), (λ v. refl), rest)
      | inl direct ↦
          rw (direct, behind_tiled total payload x xs direct (below direct))
            (
              (λ d. (
                omega (arith, below direct, bound, length-drop x.i_off payload),
                omega (arith, bound),
              )),
              (λ v. absurd (cc)),
              rest,
            )
    ]

-- The room that the items need.
pub space-tiled :
    (total : ℕ) (xs : List SpeadApiItem2)
    → space (tiled total xs) ≤ direct_bytes (tiled total xs) + values xs * 8 + length xs * 40
space-tiled total [] = omega arith
space-tiled total (x ∷ xs) =
    let rest = space-tiled total xs in
    elim (Bool-cases (x.i_mode == directaddr)) [
      | inr value ↦ rw value (omega (arith, rest))
      | inl direct ↦ elim (Bool-cases (starts total xs - x.i_off == 0)) [
        | inl empty ↦ rw (direct, empty) (omega (arith, rest))
        | inr full ↦ rw (direct, full) (omega (arith, rest))
      ]
    ]
