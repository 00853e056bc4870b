-- ===== src/Avl/Add.antt =====
-- src/avltree.c: the functions that go down and up a tree.
use spead.Base.{
  ℕ, ◌+◌, ◌%◌, ◌^◌, Bool, true, false, Option, none, some, List, [], ◌∷◌, leb, if◌then◌else◌,
}
use spead.Base.Int.{ℤ, pos, negsuc}
use spead.Avl.{
  inc, dec, negative, nil, positive, sign, too_high, AvlNode, leaf, node, Parent, from_left,
  from_right, AvlTree, rebalance,
}

module _ {ℓ} {K V : Type ℓ} where
  -- `create_avltree`, with what `shared_malloc` says.
  unfoldable pub create_avltree : Bool → Option (AvlTree K V)
  create_avltree true = some (record { t_root = leaf; t_ncount = 0 })
  create_avltree false = none

  -- `create_node_avltree`, with what `shared_malloc` says.
  unfoldable pub create_node_avltree : Bool → K → V → Option (AvlNode K V)
  create_node_avltree true k v = some (node leaf k v (pos 0) leaf)
  create_node_avltree false k v = none

  -- The new child of the first parent: whether the parent is balanced by it, which is the `flag` of
  -- `add_node_avltree`, and its balance is changed only then.
  unfoldable pub attach : List (Parent K V) → Bool × List (Parent K V)
  attach [] = (false, [])
  attach (from_left k v b r ∷ up) = elim (sign (dec b)) [
    | nil ↦ (true, from_left k v (pos 0) r ∷ up)
    | negative ↦ (false, from_left k v b r ∷ up)
    | positive ↦ (false, from_left k v b r ∷ up)
  ]
  attach (from_right l k v b ∷ up) = elim (sign (inc b)) [
    | nil ↦ (true, from_right l k v (pos 0) ∷ up)
    | negative ↦ (false, from_right l k v b ∷ up)
    | positive ↦ (false, from_right l k v b ∷ up)
  ]

  -- The first `while` of `add_node_avltree`: `none` where the key is there already.
  unfoldable pub descend :
      (K → K → ℤ) → K → AvlNode K V → List (Parent K V) → Option (Bool × List (Parent K V))
  unfolding attach
  descend cmp key leaf up = some (attach up)
  descend cmp key (node l k v b r) up =
      let right = descend cmp key r (from_right l k v b ∷ up) in
      let left = descend cmp key l (from_left k v b r ∷ up) in
      elim (sign (cmp k key)) [ negative ↦ right | positive ↦ left | nil ↦ none ]

  -- The last `while`: up to the root.
  unfoldable pub to_root : AvlNode K V → List (Parent K V) → AvlNode K V
  to_root c [] = c
  to_root c (from_left k v b r ∷ up) = to_root (node c k v b r) up
  to_root c (from_right l k v b ∷ up) = to_root (node l k v b c) up

  -- The second `while` at a parent whose balance has been changed: stop where it is 0, rebalance and
  -- stop where it is too high, and else go on.
  unfoldable pub settle :
      AvlNode K V → ℤ → List (Parent K V) → Option (AvlNode K V) → Option (AvlNode K V)
  unfolding to_root rebalance
  settle c b up higher = elim (sign b) [
    | nil ↦ some (to_root c up)
    | negative ↦
        if too_high b
        then elim (rebalance c) [ none ↦ none | some c' ↦ some (to_root c' up) ]
        else higher
    | positive ↦
        if too_high b
        then elim (rebalance c) [ none ↦ none | some c' ↦ some (to_root c' up) ]
        else higher
  ]

  -- The second and the last `while` of `add_node_avltree`: the root, `none` where NULL is read.
  unfoldable pub climb : AvlNode K V → List (Parent K V) → Option (AvlNode K V)
  unfolding settle
  climb c [] = some c
  climb c (from_left k v b r ∷ up) =
      settle (node c k v (dec b) r) (dec b) up (climb (node c k v (dec b) r) up)
  climb c (from_right l k v b ∷ up) =
      settle (node l k v (inc b) c) (inc b) up (climb (node l k v (inc b) c) up)

  -- What `add_node_avltree` does with the parents of the new node.
  unfoldable pub link_node : AvlNode K V → Bool × List (Parent K V) → Option (AvlNode K V)
  unfolding climb to_root
  link_node n (flag, up) = if flag then some (to_root n up) else climb n up

  -- `add_node_avltree` with the comparison of the tree, for a node that `create_node_avltree` has
  -- made: 0 with the tree that holds it, or -1 with the tree as it was where the key is there.
  unfoldable pub add_node_avltree : (K → K → ℤ) → AvlTree K V → K → V → Option (ℤ × AvlTree K V)
  unfolding descend link_node
  add_node_avltree cmp t key value = elim (descend cmp key t.t_root []) [
    | none ↦ some (negsuc 0, t)
    | some path ↦ elim (link_node (node leaf key value (pos 0) leaf) path) [
      | none ↦ none
      | some root ↦ some (pos 0, record { t_root = root; t_ncount = (t.t_ncount + 1) % 2 ^ 64 })
    ]
  ]

  -- `find_name_node_avltree`: the node's subtree, `leaf` for NULL.
  unfoldable pub find_name_node_avltree : (K → K → ℤ) → K → AvlNode K V → AvlNode K V
  find_name_node_avltree cmp key leaf = leaf
  find_name_node_avltree cmp key (node l k v b r) =
      let left = find_name_node_avltree cmp key l in
      let right = find_name_node_avltree cmp key r in
      elim (sign (cmp key k)) [ nil ↦ node l k v b r | negative ↦ left | positive ↦ right ]

  -- `get_node_data_avltree`
  unfoldable pub get_node_data_avltree : AvlNode K V → Option V
  get_node_data_avltree leaf = none
  get_node_data_avltree (node l k v b r) = some v

  -- `find_data_avltree`
  unfoldable pub find_data_avltree : (K → K → ℤ) → AvlTree K V → K → Option V
  unfolding find_name_node_avltree get_node_data_avltree
  find_data_avltree cmp t key = get_node_data_avltree (find_name_node_avltree cmp key t.t_root)

  -- `check_balances_avltree` where it does not report: the height.
  unfoldable pub check_balances_avltree : AvlNode K V → ℕ
  check_balances_avltree leaf = 0
  check_balances_avltree (node l k v b r) =
      (if leb (check_balances_avltree r) (check_balances_avltree l)
        then check_balances_avltree l
        else check_balances_avltree r)
      + 1
