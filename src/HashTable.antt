-- ===== src/HashTable.antt =====
-- src/hash.h and src/hash.c: the bank of packet objects (`struct hash_o_list`) and the hash tables
-- that the objects move to and from. An object is in one chain at a time, so a chain along `o_next`
-- is a list; an object stands for its `o`, `none` where that is NULL. The mutexes are left out: each
-- function is one critical section.
pub mod Bank
pub mod Store
pub mod Traverse
pub mod Single
use spead.Base.{
  ℕ, zero, suc, ◌+◌, ◌-◌, ◌%◌, ◌^◌, Bool, true, false, not, ◌||◌, Option, none, some, List, [], ◌∷◌,
  ◌++◌, ◌==◌, leb, ltb, if◌then◌else◌, length, get_elem?, set, replicate,
}
use spead.Base.Int.{ℤ, pos, negsuc, is_neg}

abbrev pub error : ℤ
error = negsuc 0

module _ {ℓ} (P : Type ℓ) where
  -- `struct hash_o`
  abbrev pub HashObject : Type ℓ
  HashObject = Option P

  -- `struct hash_o_list`
  pub record ObjectBank : Type ℓ where
    pub l_len : ℕ
    pub l_olen : ℕ
    pub l_top : List HashObject

  -- `struct hash_table` but for its list, its hash function, its mutex and its stacks. `t_os` is the
  -- array, `none` for NULL.
  pub record HashTable : Type ℓ where
    pub t_processing : ℕ
    pub t_id : ℕ
    pub t_len : ℕ
    pub t_data_count : ℕ
    pub t_data_id : ℤ
    pub t_items : ℕ
    pub t_os : Option (List (List HashObject))

module _ {ℓ} {P : Type ℓ} where
  -- `push_hash_o`: the number of objects wraps at 2 ^ 64.
  unfoldable pub push_hash_o : ObjectBank P → HashObject P → ObjectBank P
  push_hash_o l o = record l { l_top = o ∷ l.l_top; l_len = (l.l_len + 1) % 2 ^ 64 }

  unfoldable pub pop_top : List (HashObject P) → ObjectBank P → Option (HashObject P) × ObjectBank P
  pop_top [] l = (none, l)
  pop_top (o ∷ rest) l =
      (some o, record l { l_top = rest; l_len = (l.l_len + 2 ^ 64 - 1) % 2 ^ 64 })

  -- `pop_hash_o`; `none` is NULL.
  unfoldable pub pop_hash_o : ObjectBank P → Option (HashObject P) × ObjectBank P
  unfolding pop_top
  pop_hash_o l = pop_top l.l_top l

  -- The `for` of `create_o_list`: `made k` is what `create_hash_o` returns at the `k`-th call from the
  -- end, `none` where it fails.
  unfoldable pub fill_bank :
      (ℕ → Option (HashObject P)) → ℕ → List (HashObject P) → Option (List (HashObject P))
  fill_bank made zero top = some top
  fill_bank made (suc n) top = elim (made n) [ none ↦ none | some o ↦ fill_bank made n (o ∷ top) ]

  -- `create_o_list`, given the block for the list itself.
  unfoldable pub create_o_list : (ℕ → Option (HashObject P)) → ℕ → ℕ → Option (ObjectBank P)
  create_o_list made len size = elim (fill_bank made len []) [
    | none ↦ none
    | some top ↦ some (record { l_len = len; l_olen = size; l_top = top })
  ]

  -- `create_hash_table`, given its blocks.
  unfoldable pub create_hash_table : ℕ → ℕ → HashTable P
  create_hash_table id len = record {
    t_processing = 0;
    t_id = id;
    t_len = len;
    t_data_count = 0;
    t_data_id = negsuc 0;
    t_items = 0;
    t_os = some (replicate len []);
  }

  -- `get_o_ht`: the chain at an index, empty for NULL; `none` is a read past the array.
  unfoldable pub get_o_ht : HashTable P → ℕ → Option (List (HashObject P))
  get_o_ht t id =
      if ltb t.t_len id then some [] else elim t.t_os [ none ↦ none | some os ↦ get_elem? os id ]

  -- What `add_o_ht` does once the hash function has given the index: `none` is an access past the
  -- array. A chain that is there gets the object behind its last one.
  unfoldable pub store_at :
      ℕ → HashObject P → HashTable P → List (List (HashObject P)) → Option (ℤ × HashTable P)
  store_at id o t os =
      if leb (2 ^ 63) id || leb t.t_len id then some (error, t) else elim (get_elem? os id) [
        | none ↦ none
        | some chain ↦ some (pos 0, record t { t_os = some (set os id (chain ++ o ∷ [])) })
      ]

  -- `add_o_ht`, where `hfn` is the table's hash function.
  unfoldable pub add_o_ht :
      (HashObject P → ℕ) → HashTable P → HashObject P → Option (ℤ × HashTable P)
  unfolding store_at
  add_o_ht hfn t o = elim t.t_os [ none ↦ some (error, t) | some os ↦ store_at (hfn o) o t os ]

  -- The `do` of `empty_hash_table` on one chain.
  unfoldable pub push_chain : List (HashObject P) → ObjectBank P → ObjectBank P
  push_chain [] l = l
  push_chain (o ∷ chain) l = push_chain chain (push_hash_o l o)

  -- The `for` of `empty_hash_table`, with `n` rounds left at index `i`.
  unfoldable pub push_chains :
      ℕ → ℕ → List (List (HashObject P)) → ObjectBank P → Option (ObjectBank P)
  push_chains zero i os l = some l
  push_chains (suc n) i os l = elim (get_elem? os i) [
    | none ↦ none
    | some chain ↦ push_chains n (suc i) os (push_chain chain l)
  ]

  -- `empty_hash_table`
  unfoldable pub empty_hash_table :
      HashTable P → ObjectBank P → Option (ℤ × HashTable P × ObjectBank P)
  empty_hash_table ht l = elim ht.t_os [
    | none ↦ some (error, ht, l)
    | some os ↦ elim (push_chains ht.t_len 0 os l) [
      | none ↦ none
      | some l' ↦ some (
        pos 0,
        record ht {
          t_data_count = 0;
          t_data_id = negsuc 0;
          t_items = 0;
          t_processing = 0;
          t_os = some (replicate ht.t_len []);
        },
        l',
      )
    ]
  ]

  -- The `for` of `destroy_hash_table`: only the first object of each chain is pushed.
  unfoldable pub push_first : List (HashObject P) → ObjectBank P → ObjectBank P
  push_first [] l = l
  push_first (o ∷ chain) l = push_hash_o l o

  unfoldable pub push_firsts :
      ℕ → ℕ → List (List (HashObject P)) → ObjectBank P → Option (ObjectBank P)
  push_firsts zero i os l = some l
  push_firsts (suc n) i os l = elim (get_elem? os i) [
    | none ↦ none
    | some chain ↦ push_firsts n (suc i) os (push_first chain l)
  ]

  -- `destroy_hash_table`, as far as it concerns the objects.
  unfoldable pub destroy_hash_table : HashTable P → ObjectBank P → Option (ObjectBank P)
  destroy_hash_table t l = elim t.t_os [ none ↦ some l | some os ↦ push_firsts t.t_len 0 os l ]

-- The states of the traversals.
pub data Phase : Type 0 where
  s_end s_get_object s_get_packet s_next_packet : Phase

module _ {ℓ κ} {P : Type ℓ} {S : Type κ} where
  -- The `while` of `inorder_traverse_hash_table`, on fuel: `i` and `o` are its variables, `o` as the
  -- chain that begins there; the callback returns a number and changes the state that `data` points
  -- at. `none`: the fuel ran out, NULL is read, or the array is left.
  unfoldable pub traverse_loop :
      ℕ
      → (P → S → ℤ × S)
      → ℕ
      → List (List (HashObject P))
      → Phase
      → ℕ
      → List (HashObject P)
      → S
      → Option (ℤ × S)
  traverse_loop zero call len os phase i o st = none
  traverse_loop (suc fuel) call len os s_end i o st = some (pos 0, st)
  traverse_loop (suc fuel) call len os s_get_object i o st = elim (ltb i len) [
    | false ↦ traverse_loop fuel call len os s_end i o st
    | true ↦ elim (get_elem? os i) [
      | none ↦ none
      | some [] ↦ traverse_loop fuel call len os s_get_object (suc i) [] st
      | some (x ∷ chain) ↦ traverse_loop fuel call len os s_get_packet i (x ∷ chain) st
    ]
  ]
  traverse_loop (suc fuel) call len os s_get_packet i [] st = none
  traverse_loop (suc fuel) call len os s_get_packet i (none ∷ chain) st =
      traverse_loop fuel call len os s_next_packet i (none ∷ chain) st
  traverse_loop (suc fuel) call len os s_get_packet i (some p ∷ chain) st =
      elim (is_neg (call p st).0) [
        | true ↦ some (error, (call p st).1)
        | false ↦ traverse_loop fuel call len os s_next_packet i (some p ∷ chain) (call p st).1
      ]
  traverse_loop (suc fuel) call len os s_next_packet i [] st = none
  traverse_loop (suc fuel) call len os s_next_packet i (x ∷ []) st =
      traverse_loop fuel call len os s_get_object (suc i) (x ∷ []) st
  traverse_loop (suc fuel) call len os s_next_packet i (x ∷ y ∷ chain) st =
      traverse_loop fuel call len os s_get_packet i (y ∷ chain) st

  -- `inorder_traverse_hash_table` on fuel, for a table with an array.
  unfoldable pub inorder_traverse :
      ℕ → (P → S → ℤ × S) → ℕ → List (List (HashObject P)) → S → Option (ℤ × S)
  unfolding traverse_loop
  inorder_traverse fuel call len os st = traverse_loop fuel call len os s_get_object 0 [] st
