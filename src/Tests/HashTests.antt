-- ===== src/Tests/HashTests.antt =====
-- The theorems about src/hash.c on a table of three chains whose objects hold numbers.
use mathlib.Core.List.{reverse_aux}
use spead.Base.{
  ℕ, ◌+◌, ◌%◌, ◌≤◌, ◌<◌, ◌≡◌, ◌≢◌, refl, none, some, List, [], ◌∷◌, ◌++◌, ◌==◌, arith, length,
  if◌then◌else◌, set, get_elem?,
}
use spead.Base.Int.{ℤ, pos}
use spead.HashTable.{
  HashObject, ObjectBank, HashTable, create_hash_table, empty_hash_table, destroy_hash_table,
  get_o_ht, add_o_ht, error, inorder_traverse,
}
use spead.HashTable.Bank.{IsCounted, objects, firsts, empty-Returned, destroy-firsts}
use spead.HashTable.Store.{IsReady, get-cases, add-stored}
use spead.HashTable.Traverse.{visit_chains, rounds, inorder_visits}

abbrev chains : List (List (HashObject ℕ))
chains = (some 3 ∷ some 6 ∷ []) ∷ [] ∷ (some 5 ∷ none ∷ []) ∷ []

abbrev table : HashTable ℕ
table = record {
  t_processing = 0;
  t_id = 4;
  t_len = 3;
  t_data_count = 3;
  t_data_id = pos 8;
  t_items = 2;
  t_os = some chains;
}

abbrev bank : ObjectBank ℕ
bank = record { l_len = 1; l_olen = 64; l_top = none ∷ [] }

bank-IsCounted : IsCounted bank
bank-IsCounted = record { counted = refl; bounded = omega arith }

table-IsReady : IsReady table chains
table-IsReady = record { there = refl; sized = refl; small = omega arith }

empty-Returned_example :
    (l' : ObjectBank ℕ) × (empty_hash_table table bank
      ≡ some (pos 0, create_hash_table {P = ℕ} 4 3, l'))
    × (l'.l_top ≡ reverse_aux (objects chains) bank.l_top)
    × IsCounted l'
    × (l'.l_len ≡ bank.l_len + length (objects chains))
empty-Returned_example = empty-Returned table chains bank refl refl bank-IsCounted (omega arith)

destroy-firsts_example :
    (l' : ObjectBank ℕ) × (destroy_hash_table table bank ≡ some l')
    × (l'.l_top ≡ reverse_aux (firsts chains) bank.l_top)
    × (l'.l_len ≡ bank.l_len + length (firsts chains))
destroy-firsts_example = destroy-firsts table chains bank refl refl bank-IsCounted (omega arith)

get-cases_example :
    (1 < table.t_len
      → (chain : List (HashObject ℕ)) × (get_elem? chains 1 ≡ some chain)
        × (get_o_ht table 1 ≡ some chain))
    × (1 ≡ table.t_len → get_o_ht table 1 ≡ none)
    × (table.t_len < 1 → get_o_ht table 1 ≡ some [])
get-cases_example = get-cases table chains 1 table-IsReady

abbrev by_number : HashObject ℕ → ℕ
by_number none = 0
by_number (some n) = n % 3

add-stored_example :
    (2 < table.t_len
      → (chain : List (HashObject ℕ)) × (t' : HashTable ℕ) × (get_o_ht table 2 ≡ some chain)
        × (add_o_ht by_number table (some 8) ≡ some (pos 0, t'))
        × (get_o_ht t' 2 ≡ some (chain ++ some 8 ∷ []))
        × ((j : ℕ) → j ≢ 2 → get_o_ht t' j ≡ get_o_ht table j)
        × IsReady t' (set chains 2 (chain ++ some 8 ∷ [])))
    × (table.t_len ≤ 2 → add_o_ht by_number table (some 8) ≡ some (error, table))
add-stored_example = add-stored by_number table chains (some 8) table-IsReady

abbrev add_up : ℕ → ℕ → ℤ × ℕ
add_up o total = if o == 0 then (error, total) else (pos 0, total + o)

inorder_visits_example :
    inorder_traverse (rounds add_up chains) add_up (length chains) chains 0
    ≡ some (
      if (visit_chains add_up chains 0).0 then error else pos 0,
      (visit_chains add_up chains 0).1,
    )
inorder_visits_example = inorder_visits add_up chains 0
