-- ===== src/HashTable/Store.antt =====
-- src/hash.c: `add_o_ht` and `get_o_ht`.
use spead.Base.{
  ℕ, ◌^◌, ◌≤◌, ◌<◌, ◌≡◌, ◌≢◌, refl, ◌∙◌, sym, true, false, ◌||◌, none, some, List, [], ◌∷◌, ◌++◌,
  length, get_elem?, set, arith, leb, ltb, get_elem?-set_self, get_elem?-set_ne, length-set,
}
use spead.Base.Int.{pos}
use spead.Base.Slices.{get_elem?-total}
use spead.HashTable.{HashObject, HashTable, error, get_o_ht, store_at, add_o_ht}

get_elem?-end {ℓ} : {A : Type ℓ} (xs : List A) → get_elem? xs (length xs) ≡ none
get_elem?-end [] = refl
get_elem?-end (x ∷ xs) = get_elem?-end xs

module _ {ℓ} {P : Type ℓ} where
  -- A table with an array of its length, short enough for its indices to fit a signed number.
  pub record IsReady (t : HashTable P) (os : List (List (HashObject P))) : Type ℓ where
    pub there : t.t_os ≡ some os
    pub sized : t.t_len ≡ length os
    pub small : t.t_len ≤ 2 ^ 63

  -- `get_o_ht` on a ready table: below the length it is the chain at the index, and above the length
  -- it is NULL; at the length itself, which its test lets through, it reads past the array.
  pub get-cases :
      (t : HashTable P) (os : List (List (HashObject P))) (id : ℕ)
      → IsReady t os
      → (id < t.t_len
          → (chain : List (HashObject P)) × (get_elem? os id ≡ some chain)
            × (get_o_ht t id ≡ some chain))
        × (id ≡ t.t_len → get_o_ht t id ≡ none)
        × (t.t_len < id → get_o_ht t id ≡ some [])
  unfolding get_o_ht
  get-cases t os id r = (
    (λ lt.
        let (chain, e) = get_elem?-total os id (omega (arith, r.sized)) in
        let inside : ltb t.t_len id ≡ false = ground arith in (chain, e, rw (inside, r.there, e))),
    (λ same.
        let inside : ltb t.t_len id ≡ false = ground arith in
        rw (inside, r.there, same, r.sized) (get_elem?-end os)),
    (λ gt. let outside : ltb t.t_len id ≡ true = ground arith in rw outside),
  )

  -- The table with an object more in one chain.
  abbrev pub stored :
      HashTable P
      → List (List (HashObject P))
      → ℕ
      → List (HashObject P)
      → HashObject P
      → HashTable P
  stored t os id chain o = record t { t_os = some (set os id (chain ++ o ∷ [])) }

  -- `add_o_ht` on a ready table: where the hash function stays below the length, it returns 0, the
  -- object is the last of the chain at that index, every other chain is as it was, and the table is
  -- ready again; else it returns the error and changes nothing.
  pub add-stored :
      (hfn : HashObject P → ℕ) (t : HashTable P) (os : List (List (HashObject P)))
      (o : HashObject P)
      → IsReady t os
      → (hfn o < t.t_len
          → (chain : List (HashObject P)) × (t' : HashTable P) × (get_o_ht t (hfn o) ≡ some chain)
            × (add_o_ht hfn t o ≡ some (pos 0, t'))
            × (get_o_ht t' (hfn o) ≡ some (chain ++ o ∷ []))
            × ((j : ℕ) → j ≢ hfn o → get_o_ht t' j ≡ get_o_ht t j)
            × IsReady t' (set os (hfn o) (chain ++ o ∷ [])))
        × (t.t_len ≤ hfn o → add_o_ht hfn t o ≡ some (error, t))
  unfolding add_o_ht store_at get_o_ht
  add-stored hfn t os o r = (
    (λ lt.
        let (chain, at, got) = (get-cases t os (hfn o) r).0 lt in
        let fits : (leb (2 ^ 63) (hfn o) || leb t.t_len (hfn o)) ≡ false =
          ground (arith, r.small) in
        let inside : ltb t.t_len (hfn o) ≡ false = ground arith in
        let there = r.there in
        (
          chain,
          stored t os (hfn o) chain o,
          got,
          rw (there, fits, at),
          rw inside (get_elem?-set_self os (hfn o) (chain ++ o ∷ []) (omega (arith, r.sized))),
          (λ j ne. rw (there, get_elem?-set_ne os (chain ++ o ∷ []) (λ e. ne (sym e)))),
          record {
            there = refl;
            sized = r.sized ∙ sym (length-set os (hfn o) (chain ++ o ∷ []));
            small = r.small;
          },
        )),
    (λ ge.
        let there = r.there in
        let outside : (leb (2 ^ 63) (hfn o) || leb t.t_len (hfn o)) ≡ true = ground arith in
        rw (there, outside)),
  )
