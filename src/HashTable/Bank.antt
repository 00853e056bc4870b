-- ===== src/HashTable/Bank.antt =====
-- src/hash.c: the objects that the bank and the tables hand to one another.
use mathlib.Core.List.{reverse_aux}
use spead.Base.{
  Option-cases, eq_of_some, inl, inr, ℕ, zero, suc, ◌+◌, ◌^◌, ◌≤◌, ◌<◌, ◌≡◌, ◌≢◌, refl, ap, ◌∙◌,
  sym, Option, none, some, List, [], ◌∷◌, ◌++◌, length, drop, arith, length-append,
}
use spead.Base.Int.{pos}
use spead.Base.Slices.{drop-cons}
use spead.HashTable.{
  HashObject, ObjectBank, HashTable, push_hash_o, pop_top, pop_hash_o, fill_bank, create_o_list,
  create_hash_table, push_chain, push_chains, empty_hash_table, push_first, push_firsts,
  destroy_hash_table,
}

module _ {ℓ} {P : Type ℓ} where
  -- `l_len` counts the objects of the bank.
  pub record IsCounted (l : ObjectBank P) : Type ℓ where
    pub counted : l.l_len ≡ length l.l_top
    pub bounded : l.l_len < 2 ^ 64

  -- All objects of an array of chains, chain by chain.
  abbrev pub objects : List (List (HashObject P)) → List (HashObject P)
  objects [] = []
  objects (chain ∷ os) = chain ++ objects os

  -- The first object of each chain that has one.
  abbrev pub firsts : List (List (HashObject P)) → List (HashObject P)
  firsts [] = []
  firsts ([] ∷ os) = firsts os
  firsts ((o ∷ chain) ∷ os) = o ∷ firsts os

  -- A counted bank with room for one more: a pushed object is the next that is popped, and leaves the
  -- bank as it was; the counts fit on the way; an empty bank pops NULL and stays.
  pub pop-push :
      (l : ObjectBank P) (o : HashObject P)
      → IsCounted l
      → l.l_len + 1 < 2 ^ 64
      → IsCounted (push_hash_o l o)
        × (pop_hash_o (push_hash_o l o) ≡ (some o, l))
        × (l.l_top ≡ [] → pop_hash_o l ≡ (none, l))
  unfolding push_hash_o pop_hash_o
  pop-push l o c room = (
    record { counted = omega (arith, c.counted); bounded = omega arith },
    ground arith,
    λ e. rw (e, pop_top) refl,
  )

  fill_bank-total :
      (made : ℕ → Option (HashObject P)) (n : ℕ) (top : List (HashObject P))
      → ((k : ℕ) → k < n → made k ≢ none)
      → (l : List (HashObject P)) × (fill_bank made n top ≡ some l) × (length l ≡ length top + n)
  unfolding fill_bank
  fill_bank-total made zero top all = (top, refl, omega arith)
  fill_bank-total made (suc n) top all = elim (Option-cases (made n)) [
    | inl failed ↦ absurd (all n (omega arith) failed)
    | inr (o, got) ↦
        let (l, run, len) = fill_bank-total made n (o ∷ top) (λ k h. all k (omega arith)) in
        (l, rw (got, fill_bank) run, omega arith)
  ]

  fill_bank-fails :
      (made : ℕ → Option (HashObject P)) (n : ℕ) (top : List (HashObject P)) (k : ℕ)
      → k < n
      → made k ≡ none
      → fill_bank made n top ≡ none
  unfolding fill_bank
  fill_bank-fails made zero top k h e = absurd (omega arith)
  fill_bank-fails made (suc n) top k h e = elim (Option-cases (made n)) [
    | inl failed ↦ rw (failed, fill_bank)
    | inr (o, got) ↦
        let below : k ≢ n = λ same. cc (got, e, same) in
        rw (got, fill_bank) (fill_bank-fails made n (o ∷ top) k (omega arith) e)
  ]

  push_chain-reverse :
      (chain : List (HashObject P)) (l : ObjectBank P)
      → IsCounted l
      → l.l_len + length chain < 2 ^ 64
      → ((push_chain chain l).l_top ≡ reverse_aux chain l.l_top)
        × IsCounted (push_chain chain l)
        × ((push_chain chain l).l_len ≡ l.l_len + length chain)
  unfolding push_chain push_hash_o
  push_chain-reverse [] l c room = (refl, c, omega arith)
  push_chain-reverse (o ∷ chain) l c room =
      let pushed : IsCounted (push_hash_o l o) = record {
        counted = omega (arith, c.counted);
        bounded = omega arith;
      } in
      let (top, kept, len) = push_chain-reverse chain (push_hash_o l o) pushed (omega arith) in
      (top, kept, omega arith)

  reverse_aux-append :
      (xs ys zs : List (HashObject P))
      → reverse_aux (xs ++ ys) zs ≡ reverse_aux ys (reverse_aux xs zs)
  reverse_aux-append [] ys zs = refl
  reverse_aux-append (x ∷ xs) ys zs = reverse_aux-append xs ys (x ∷ zs)

  -- What a loop over the chains has done to the bank.
  abbrev pub Returned : List (HashObject P) → ObjectBank P → Option (ObjectBank P) → Type ℓ
  Returned given l r =
      (l' : ObjectBank P) × (r ≡ some l')
      × (l'.l_top ≡ reverse_aux given l.l_top)
      × IsCounted l'
      × (l'.l_len ≡ l.l_len + length given)

  push_chains-Returned :
      (rest : List (List (HashObject P))) (i : ℕ) (os : List (List (HashObject P)))
      (l : ObjectBank P)
      → drop i os ≡ rest
      → IsCounted l
      → l.l_len + length (objects rest) < 2 ^ 64
      → Returned (objects rest) l (push_chains (length rest) i os l)
  unfolding push_chains
  push_chains-Returned [] i os l at c room = (l, refl, refl, c, omega arith)
  push_chains-Returned (chain ∷ rest) i os l at c room =
      let (found, next) = drop-cons os i chain rest at in
      let size = length-append chain (objects rest) in
      let (top, kept, len) = push_chain-reverse chain l c (omega arith) in
      let (l', run, top', kept', len') =
        push_chains-Returned rest (suc i) os (push_chain chain l) next kept (omega arith) in
      (
        l',
        rw (found, push_chains) run,
        top'
            ∙ ap (reverse_aux (objects rest)) top
            ∙ sym (reverse_aux-append chain (objects rest) l.l_top),
        kept',
        omega arith,
      )

  -- `empty_hash_table` on a table with its array returns 0, gives every object of the table to the
  -- bank, whose count grows by their number, and leaves the table with empty chains and its counters
  -- as they were made.
  pub empty-Returned :
      (ht : HashTable P) (os : List (List (HashObject P))) (l : ObjectBank P)
      → ht.t_os ≡ some os
      → ht.t_len ≡ length os
      → IsCounted l
      → l.l_len + length (objects os) < 2 ^ 64
      → (l' : ObjectBank P) × (empty_hash_table ht l
          ≡ some (pos 0, create_hash_table {P = P} ht.t_id ht.t_len, l'))
        × (l'.l_top ≡ reverse_aux (objects os) l.l_top)
        × IsCounted l'
        × (l'.l_len ≡ l.l_len + length (objects os))
  unfolding empty_hash_table create_hash_table
  empty-Returned ht os l there len c room =
      let (l', run, top, kept, count) = push_chains-Returned os 0 os l refl c room in
      let whole : push_chains ht.t_len 0 os l ≡ some l' = rw len run in
      (l', rw (there, empty_hash_table, whole), top, kept, count)

  push_first-Returned :
      (chain : List (HashObject P)) (l : ObjectBank P)
      → IsCounted l
      → l.l_len + 1 < 2 ^ 64
      → Returned (firsts (chain ∷ [])) l (some (push_first chain l))
  unfolding push_first push_hash_o
  push_first-Returned [] l c room = (l, refl, refl, c, omega arith)
  push_first-Returned (o ∷ chain) l c room = (
    _,
    refl,
    refl,
    record { counted = omega (arith, c.counted); bounded = omega arith },
    omega arith,
  )

  firsts-cons :
      (chain : List (HashObject P)) (rest : List (List (HashObject P))) (top : List (HashObject P))
      → reverse_aux (firsts (chain ∷ rest)) top
        ≡ reverse_aux (firsts rest) (reverse_aux (firsts (chain ∷ [])) top)
  firsts-cons [] rest top = refl
  firsts-cons (o ∷ chain) rest top = refl

  length-firsts-cons :
      (chain : List (HashObject P)) (rest : List (List (HashObject P)))
      → length (firsts (chain ∷ rest)) ≡ length (firsts (chain ∷ [])) + length (firsts rest)
  length-firsts-cons [] rest = omega arith
  length-firsts-cons (o ∷ chain) rest = omega arith

  length-firsts-le : (os : List (List (HashObject P))) → length (firsts os) ≤ length os
  length-firsts-le [] = omega arith
  length-firsts-le ([] ∷ os) = omega (arith, length-firsts-le os)
  length-firsts-le ((o ∷ chain) ∷ os) = omega (arith, length-firsts-le os)

  push_firsts-Returned :
      (rest : List (List (HashObject P))) (i : ℕ) (os : List (List (HashObject P)))
      (l : ObjectBank P)
      → drop i os ≡ rest
      → IsCounted l
      → l.l_len + length rest < 2 ^ 64
      → Returned (firsts rest) l (push_firsts (length rest) i os l)
  unfolding push_firsts
  push_firsts-Returned [] i os l at c room = (l, refl, refl, c, omega arith)
  push_firsts-Returned (chain ∷ rest) i os l at c room =
      let (found, next) = drop-cons os i chain rest at in
      let (m, same, top, kept, len) = push_first-Returned chain l c (omega arith) in
      let one = length-firsts-le (chain ∷ []) in
      let small : m.l_len + length rest < 2 ^ 64 = omega arith in
      let (l', run, top', kept', len') = push_firsts-Returned rest (suc i) os m next kept small in
      (
        l',
        rw (found, push_firsts) (rw (eq_of_some same) run),
        top' ∙ ap (reverse_aux (firsts rest)) top ∙ sym (firsts-cons chain rest l.l_top),
        kept',
        omega (arith, length-firsts-cons chain rest),
      )

  -- `destroy_hash_table` gives only the first object of each chain back to the bank: the others of
  -- a chain with more than one are lost.
  pub destroy-firsts :
      (t : HashTable P) (os : List (List (HashObject P))) (l : ObjectBank P)
      → t.t_os ≡ some os
      → t.t_len ≡ length os
      → IsCounted l
      → l.l_len + length os < 2 ^ 64
      → (l' : ObjectBank P) × (destroy_hash_table t l ≡ some l')
        × (l'.l_top ≡ reverse_aux (firsts os) l.l_top)
        × (l'.l_len ≡ l.l_len + length (firsts os))
  unfolding destroy_hash_table
  destroy-firsts t os l there len c room =
      let (l', run, top, kept, count) = push_firsts-Returned os 0 os l refl c room in
      let whole : push_firsts t.t_len 0 os l ≡ some l' = rw len run in
      (l', rw (there, destroy_hash_table, whole), top, count)

  -- `create_o_list` makes a bank whose count is that of its objects and the length asked for, where
  -- every `create_hash_o` gives an object; where one of them fails it makes none.
  pub create-IsCounted :
      (made : ℕ → Option (HashObject P)) (len size : ℕ)
      → len < 2 ^ 64
      → (((k : ℕ) → k < len → made k ≢ none)
          → (l : ObjectBank P) × (create_o_list made len size ≡ some l)
            × IsCounted l
            × (l.l_len ≡ len))
        × ((k : ℕ) → k < len → made k ≡ none → create_o_list made len size ≡ none)
  unfolding create_o_list
  create-IsCounted made len size room = (
    (λ all.
        let (top, run, n) = fill_bank-total made len [] all in
        (
          record { l_len = len; l_olen = size; l_top = top },
          rw (run, create_o_list),
          record { counted = omega (arith, n); bounded = room },
          refl,
        )),
    (λ k h e. let failed = fill_bank-fails made len [] k h e in rw (failed, create_o_list)),
  )
