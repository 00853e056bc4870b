-- ===== src/HashTable/Single.antt =====
-- src/hash.c: `single_traverse_hash_table`, which visits one object of a table at each call and keeps
-- its place in static variables. An object that a static pointer points at is the chain that begins
-- there; `none` as a result is NULL that is read, or an access past the array.
use spead.Base.{ℕ, zero, suc, ◌-◌, Option, none, some, List, [], ◌∷◌, get_elem?}
use spead.Base.Int.{ℤ, pos, negsuc}
use spead.HashTable.{HashObject, Phase, s_end, s_get_object, s_get_packet, s_next_packet, error}

module _ {ℓ} (P : Type ℓ) where
  -- The static variables `cstate`, `coi` and `co`.
  pub record Cursor : Type ℓ where
    pub cstate : Phase
    pub coi : ℕ
    pub co : List (HashObject P)

module _ {ℓ} {P : Type ℓ} where
  -- `end_single_traverse_hash_table`
  unfoldable pub end_single_traverse : Cursor P
  end_single_traverse = record { cstate = s_get_object; coi = 0; co = [] }

  -- The rounds of the `while` in S_GET_OBJECT, with `n` entries left from index `i`.
  unfoldable pub find_object : ℕ → ℕ → List (List (HashObject P)) → Option (Cursor P)
  find_object zero i os = some (record { cstate = s_end; coi = i; co = [] })
  find_object (suc n) i os = elim (get_elem? os i) [
    | none ↦ none
    | some [] ↦ find_object n (suc i) os
    | some (x ∷ chain) ↦ some (record { cstate = s_get_packet; coi = i; co = x ∷ chain })
  ]

  -- S_NEXT_PACKET, from the object that `co` points at.
  unfoldable pub next_object :
      ℕ → ℕ → List (HashObject P) → List (List (HashObject P)) → Option (Cursor P)
  unfolding find_object
  next_object len i [] os = none
  next_object len i (x ∷ []) os = find_object (len - suc i) (suc i) os
  next_object len i (x ∷ y ∷ chain) os =
      some (record { cstate = s_get_packet; coi = i; co = y ∷ chain })

  -- The `while`: to the next object, or to the end.
  unfoldable pub seek :
      Phase → ℕ → List (HashObject P) → ℕ → List (List (HashObject P)) → Option (Cursor P)
  unfolding find_object next_object
  seek s_get_object i co len os = find_object (len - i) i os
  seek s_next_packet i co len os = next_object len i co os
  seek s_get_packet i co len os = some (record { cstate = s_get_packet; coi = i; co = co })
  seek s_end i co len os = some (record { cstate = s_end; coi = i; co = co })

  -- The `switch (rtn)` behind the callback: what is returned, and the next place.
  unfoldable pub after_call : ℤ → ℕ → List (HashObject P) → ℤ × Cursor P
  after_call (negsuc n) i co = (error, record { cstate = s_get_packet; coi = i; co = co })
  after_call (pos zero) i co = (pos 0, record { cstate = s_next_packet; coi = i; co = co })
  after_call (pos (suc zero)) i co = (pos 1, record { cstate = s_next_packet; coi = i; co = co })
  after_call (pos (suc (suc zero))) i co =
      (pos 0, record { cstate = s_get_object; coi = i; co = co })
  after_call (pos (suc (suc (suc zero)))) i co =
      (pos 3, record { cstate = s_get_object; coi = 0; co = [] })
  after_call (pos (suc (suc (suc (suc n))))) i co =
      (pos (suc (suc (suc (suc n)))), record { cstate = s_get_packet; coi = i; co = co })

module _ {ℓ κ} {P : Type ℓ} {S : Type κ} where
  -- What the function does at the place that the `while` has found.
  unfoldable pub visit_place :
      (P → S → ℤ × S) → Phase → ℕ → List (HashObject P) → S → Option (ℤ × Cursor P × S)
  unfolding after_call
  visit_place call s_get_packet i [] st = none
  visit_place call s_get_packet i (none ∷ chain) st =
      some (pos 0, record { cstate = s_next_packet; coi = i; co = none ∷ chain }, st)
  visit_place call s_get_packet i (some p ∷ chain) st =
      let r = after_call (call p st).0 i (some p ∷ chain) in some (r.0, r.1, (call p st).1)
  visit_place call phase i co st = some (pos 0, record { cstate = phase; coi = i; co = co }, st)

  -- `single_traverse_hash_table` on a table of `len` entries, for a callback that is not NULL.
  unfoldable pub single_traverse :
      (P → S → ℤ × S) → ℕ → List (List (HashObject P)) → Cursor P → S → Option (ℤ × Cursor P × S)
  unfolding seek visit_place
  single_traverse call len os c st = elim (seek c.cstate c.coi c.co len os) [
    | none ↦ none
    | some place ↦ visit_place call place.cstate place.coi place.co st
  ]
