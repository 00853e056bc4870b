-- ===== src/HashTable/Traverse.antt =====
-- src/hash.c: `inorder_traverse_hash_table`. Its state machine visits the objects chain by chain.
use spead.Base.{
  ℕ, suc, ◌+◌, ◌≡◌, refl, subst, ◌∙◌, sym, Bool, true, false, Bool-cases, inl, inr, none, some,
  List, [], ◌∷◌, length, drop, arith, ltb, if◌then◌else◌,
}
use spead.Base.Int.{ℤ, pos, is_neg}
use spead.Base.Slices.{drop-cons}
use spead.HashTable.{HashObject, s_get_object, s_get_packet, error, traverse_loop, inorder_traverse}

module _ {ℓ κ} {P : Type ℓ} {S : Type κ} (call : P → S → ℤ × S) where
  -- What the callback makes of some objects in turn, objects without data left out: whether it was
  -- stopped by a negative answer, and its state.
  abbrev pub visit_chain : List (HashObject P) → S → Bool × S
  visit_chain [] st = (false, st)
  visit_chain (none ∷ chain) st = visit_chain chain st
  visit_chain (some p ∷ chain) st =
      if is_neg (call p st).0 then (true, (call p st).1) else visit_chain chain (call p st).1

  abbrev pub visit_chains : List (List (HashObject P)) → S → Bool × S
  visit_chains [] st = (false, st)
  visit_chains (chain ∷ os) st =
      if (visit_chain chain st).0
      then (true, (visit_chain chain st).1)
      else visit_chains os (visit_chain chain st).1

  -- The rounds of the machine: two for each object of a chain, before `fuel` others.
  abbrev pub chain_rounds : List (HashObject P) → ℕ → ℕ
  chain_rounds [] fuel = fuel
  chain_rounds (x ∷ chain) fuel = suc (suc (chain_rounds chain fuel))

  -- One more for each chain, and two for the end.
  abbrev pub rounds : List (List (HashObject P)) → ℕ
  rounds [] = 2
  rounds (chain ∷ os) = suc (chain_rounds chain (rounds os))

  -- One chain, from its first object.
  chain_run :
      (x : HashObject P) (chain : List (HashObject P)) (fuel len : ℕ)
      (os : List (List (HashObject P))) (i : ℕ) (st : S)
      → (y : List (HashObject P)) × (traverse_loop
            (chain_rounds (x ∷ chain) fuel)
            call
            len
            os
            s_get_packet
            i
            (x ∷ chain)
            st
          ≡ (if (visit_chain (x ∷ chain) st).0
              then some (error, (visit_chain (x ∷ chain) st).1)
              else traverse_loop fuel call len os s_get_object
                  (suc i)
                  y
                  (visit_chain (x ∷ chain) st).1))
  unfolding traverse_loop
  chain_run none [] fuel len os i st = (none ∷ [], refl)
  chain_run (some p) [] fuel len os i st = elim (Bool-cases (is_neg (call p st).0)) [
    | inl stop ↦ (some p ∷ [], rw (stop, traverse_loop))
    | inr on ↦ (some p ∷ [], rw (on, traverse_loop))
  ]
  chain_run none (y ∷ chain) fuel len os i st = chain_run y chain fuel len os i st
  chain_run (some p) (y ∷ chain) fuel len os i st = elim (Bool-cases (is_neg (call p st).0)) [
    | inl stop ↦ (some p ∷ [], rw (stop, traverse_loop))
    | inr on ↦
        let (z, run) = chain_run y chain fuel len os i (call p st).1 in
        (z, rw (on, traverse_loop) run)
  ]

  chains_run :
      (rest : List (List (HashObject P))) (os : List (List (HashObject P))) (i : ℕ)
      (o : List (HashObject P)) (st : S)
      → drop i os ≡ rest
      → traverse_loop (rounds rest) call (i + length rest) os s_get_object i o st
        ≡ some (if (visit_chains rest st).0 then error else pos 0, (visit_chains rest st).1)
  unfolding traverse_loop
  chains_run [] os i o st at =
      let past : ltb i (i + 0) ≡ false = ground arith in rw (past, traverse_loop)
  chains_run ([] ∷ rest) os i o st at =
      let (found, next) = drop-cons os i [] rest at in
      let inside : ltb i (i + suc (length rest)) ≡ true = ground arith in
      let e : i + suc (length rest) ≡ suc i + length rest = omega arith in
      rw (inside, found, traverse_loop, e) (chains_run rest os (suc i) [] st next)
  chains_run ((x ∷ chain) ∷ rest) os i o st at =
      let (found, next) = drop-cons os i (x ∷ chain) rest at in
      let inside : ltb i (i + suc (length rest)) ≡ true = ground arith in
      let e : i + suc (length rest) ≡ suc i + length rest = omega arith in
      let (y, run) = chain_run x chain (rounds rest) (i + suc (length rest)) os i st in
      let st1 = (visit_chain (x ∷ chain) st).1 in
      let then_rest =
        subst
          (λ n.
            traverse_loop (rounds rest) call n os s_get_object (suc i) y st1
            ≡ some (if (visit_chains rest st1).0 then error else pos 0, (visit_chains rest st1).1))
          (sym e) (chains_run rest os (suc i) y st1 next) in
      rw (inside, found, traverse_loop)
        (run ∙ (elim (Bool-cases (visit_chain (x ∷ chain) st).0) [
          | inl stop ↦ rw stop
          | inr on ↦ rw (on, then_rest)
        ]))

  -- `inorder_traverse_hash_table` ends: it calls back with the data of every object, chain by chain and
  -- in the order of each chain, objects without data left out, until the callback answers with a
  -- negative number; then it returns -1, and 0 if that never happens.
  pub inorder_visits :
      (os : List (List (HashObject P))) (st : S)
      → inorder_traverse (rounds os) call (length os) os st
        ≡ some (if (visit_chains os st).0 then error else pos 0, (visit_chains os st).1)
  unfolding inorder_traverse
  inorder_visits os st =
      let e : 0 + length os ≡ length os = omega arith in
      subst
        (λ n.
          traverse_loop (rounds os) call n os s_get_object 0 [] st
          ≡ some (if (visit_chains os st).0 then error else pos 0, (visit_chains os st).1))
        e (chains_run os os 0 [] st refl)
