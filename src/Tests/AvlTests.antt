-- ===== src/Tests/AvlTests.antt =====
-- The theorems about src/avltree.c on a tree of numbers that an insertion has to turn.
use spead.Base.{
  ◌∷◌, ◌++◌, arith, ◌<◌, Bool-cases, inl, inr, ℕ, ◌+◌, ◌%◌, ◌^◌, ◌≡◌, refl, some, ltb, ◌==◌,
  if◌then◌else◌, ◌⊎◌, true, false,
}
use spead.Base.Int.{ℤ, pos, negsuc}
use spead.Avl.Order.{inorder}
use spead.Avl.Place.{IsOrder, IsSorted, Cut, add_node-IsSorted}
use spead.Avl.{sign, negative, positive, AvlNode, leaf, node, AvlTree}
use spead.Avl.Add.{find_data_avltree, add_node_avltree}
use spead.Avl.Balance.{IsAvl}
use spead.Avl.Find.{Has, find-add_node}
use spead.Avl.Insert.{add_node-IsAvl}

abbrev by_number : ℕ → ℕ → ℤ
by_number m n = if ltb m n then negsuc 0 else if m == n then pos 0 else pos 1

abbrev leaning : AvlNode ℕ ℕ
leaning = node leaf 4 40 (pos 1) (node leaf 9 90 (pos 0) leaf)

abbrev two_nodes : AvlTree ℕ ℕ
two_nodes = record { t_root = leaning; t_ncount = 2 }

turned :
    add_node_avltree by_number two_nodes 6 60
    ≡ some (
      pos 0,
      record {
        t_root = node (node leaf 4 40 (pos 0) leaf) 6 60 (pos 0) (node leaf 9 90 (pos 0) leaf);
        t_ncount = 3;
      },
    )
unfolding add_node_avltree
turned = refl

add_node-IsAvl_example :
    (add_node_avltree by_number two_nodes 6 60 ≡ some (negsuc 0, two_nodes))
    ⊎ ((t' : AvlTree ℕ ℕ) × (add_node_avltree by_number two_nodes 6 60 ≡ some (pos 0, t'))
        × (t'.t_ncount ≡ (two_nodes.t_ncount + 1) % 2 ^ 64)
        × (g : ℕ) × IsAvl t'.t_root g)
add_node-IsAvl_example =
    add_node-IsAvl by_number two_nodes 2 6 60
      (0, 1, refl, (0, 0, refl, refl, (refl, refl)), (refl, refl))

lt_of_negative : (a b : ℕ) → sign (by_number a b) ≡ negative → a < b
lt_of_negative a b h = elim (Bool-cases (ltb a b)) [
  | inl lt ↦ ground arith
  | inr ge ↦ elim (Bool-cases (a == b)) [
    | inl same ↦ cc (rw (ge, same) at h)
    | inr other ↦ cc (rw (ge, other) at h)
  ]
]

negative_of_lt : (a b : ℕ) → a < b → sign (by_number a b) ≡ negative
negative_of_lt a b h = let lt : ltb a b ≡ true = ground arith in rw lt

lt_of_positive : (a b : ℕ) → sign (by_number a b) ≡ positive → b < a
lt_of_positive a b h = elim (Bool-cases (ltb a b)) [
  | inl lt ↦ cc (rw lt at h)
  | inr ge ↦ elim (Bool-cases (a == b)) [
    | inl same ↦ cc (rw (ge, same) at h)
    | inr other ↦ ground arith
  ]
]

by_number-IsOrder : IsOrder by_number
by_number-IsOrder = record {
  trans =
      λ a b c h k. negative_of_lt a c (omega (arith, lt_of_negative a b h, lt_of_negative b c k));
  flip = λ a b h. negative_of_lt b a (lt_of_positive a b h);
  turn = λ a b h.
      let lt = lt_of_negative a b h in
      let behind : ltb b a ≡ false = ground arith in
      let apart : (b == a) ≡ false = ground arith in rw (behind, apart);
  same = λ a.
      let level : ltb a a ≡ false = ground arith in
      let equal : (a == a) ≡ true = ground arith in rw (level, equal);
}

add_node-IsSorted_example :
    (add_node_avltree by_number two_nodes 6 60 ≡ some (negsuc 0, two_nodes))
    ⊎ ((t' : AvlTree ℕ ℕ) × (add_node_avltree by_number two_nodes 6 60 ≡ some (pos 0, t'))
        × (c : Cut by_number 6 (inorder leaning)) × (inorder t'.t_root
            ≡ c.left ++ (6, 60) ∷ c.right)
        × IsSorted by_number (inorder t'.t_root)
        × (g : ℕ) × IsAvl t'.t_root g)
add_node-IsSorted_example =
    add_node-IsSorted by_number two_nodes 2 6 60 by_number-IsOrder ((refl, tt), (tt, tt))
      (0, 1, refl, (0, 0, refl, refl, (refl, refl)), (refl, refl))

find-add_node_example :
    (add_node_avltree by_number two_nodes 6 60 ≡ some (negsuc 0, two_nodes))
    ⊎ ((t' : AvlTree ℕ ℕ) × (add_node_avltree by_number two_nodes 6 60 ≡ some (pos 0, t'))
        × (find_data_avltree by_number t' 6 ≡ some 60)
        × ((k v : ℕ) → Has (inorder leaning) (k, v) → find_data_avltree by_number t' k ≡ some v))
find-add_node_example =
    find-add_node by_number two_nodes 2 6 60 by_number-IsOrder ((refl, tt), (tt, tt))
      (0, 1, refl, (0, 0, refl, refl, (refl, refl)), (refl, refl))
