-- ===== src/Avl.antt =====
-- src/avltree.h and src/avltree.c: a search tree whose nodes keep the difference of the heights of
-- their subtrees. A node belongs to one tree, so a tree is the data below its root; the way up along
-- `n_parent` is the list of the nodes passed on the way down, each with the side taken. `shared_malloc`
-- is what it answers.
pub mod Add
pub mod Balance
pub mod Insert
pub mod Order
pub mod Place
pub mod Find
use spead.Base.{
  ℕ, zero, suc, ◌+◌, ◌%◌, ◌^◌, Bool, true, false, Option, none, some, List, [], ◌∷◌, ◌++◌, leb,
  if◌then◌else◌,
}
use spead.Base.Int.{ℤ, pos, negsuc}

-- One more and one less.
abbrev pub inc : ℤ → ℤ
inc (pos n) = pos (suc n)
inc (negsuc zero) = pos 0
inc (negsuc (suc n)) = negsuc n

abbrev pub dec : ℤ → ℤ
dec (pos zero) = negsuc 0
dec (pos (suc n)) = pos n
dec (negsuc n) = negsuc (suc n)

-- What a comparison or a balance is, as far as the source tells them apart.
pub data Sign : Type 0 where
  negative nil positive : Sign

abbrev pub sign : ℤ → Sign
sign (pos zero) = nil
sign (pos (suc n)) = positive
sign (negsuc n) = negative

-- `abs(b) > 1`
abbrev pub too_high : ℤ → Bool
too_high (pos zero) = false
too_high (pos (suc zero)) = false
too_high (pos (suc (suc n))) = true
too_high (negsuc zero) = false
too_high (negsuc (suc n)) = true

module _ {ℓ} (K V : Type ℓ) where
  -- `struct avl_node`; `leaf` is NULL.
  pub data AvlNode : Type ℓ where
    leaf : AvlNode
    node : AvlNode → K → V → ℤ → AvlNode → AvlNode

  -- A parent whose left or right child is what it was reached from.
  pub data Parent : Type ℓ where
    from_left : K → V → ℤ → AvlNode → Parent
    from_right : AvlNode → K → V → ℤ → Parent

  -- `struct avl_tree`
  pub record AvlTree : Type ℓ where
    pub t_root : AvlNode
    pub t_ncount : ℕ

-- The balances that a double rotation leaves on the two outer nodes, the left one first. Other
-- values of the middle node's balance leave them as they were.
unfoldable pub outer_balances : ℤ → ℤ → ℤ → ℤ × ℤ
outer_balances (pos zero) left right = (pos 0, pos 0)
outer_balances (negsuc zero) left right = (pos 0, pos 1)
outer_balances (pos (suc zero)) left right = (negsuc 0, pos 0)
outer_balances (pos (suc (suc n))) left right = (left, right)
outer_balances (negsuc (suc n)) left right = (left, right)

module _ {ℓ} {K V : Type ℓ} where
  -- `rotate_rightright_avltree`; `none` is NULL, or NULL that is read.
  unfoldable pub rotate_rightright : AvlNode K V → Option (AvlNode K V)
  rotate_rightright leaf = none
  rotate_rightright (node l k v b leaf) = none
  rotate_rightright (node l k v b (node rl rk rv rb rr)) = some (elim (sign rb) [
    | nil ↦ node (node l k v (pos 1) rl) rk rv (negsuc 0) rr
    | negative ↦ node (node l k v (pos 0) rl) rk rv (pos 0) rr
    | positive ↦ node (node l k v (pos 0) rl) rk rv (pos 0) rr
  ])

  -- `rotate_leftleft_avltree`
  unfoldable pub rotate_leftleft : AvlNode K V → Option (AvlNode K V)
  rotate_leftleft leaf = none
  rotate_leftleft (node leaf k v b r) = none
  rotate_leftleft (node (node ll lk lv lb lr) k v b r) = some (elim (sign lb) [
    | nil ↦ node ll lk lv (pos 1) (node lr k v (negsuc 0) r)
    | negative ↦ node ll lk lv (pos 0) (node lr k v (pos 0) r)
    | positive ↦ node ll lk lv (pos 0) (node lr k v (pos 0) r)
  ])

  -- `rotate_leftright_avltree`
  unfoldable pub rotate_leftright : AvlNode K V → Option (AvlNode K V)
  unfolding outer_balances
  rotate_leftright leaf = none
  rotate_leftright (node leaf k v b r) = none
  rotate_leftright (node (node ll lk lv lb leaf) k v b r) = none
  rotate_leftright (node (node ll lk lv lb (node cl ck cv cb cr)) k v b r) = some (
      node (node ll lk lv (outer_balances cb lb b).0 cl) ck cv (pos 0)
        (node cr k v (outer_balances cb lb b).1 r))

  -- `rotate_rightleft_avltree`
  unfoldable pub rotate_rightleft : AvlNode K V → Option (AvlNode K V)
  unfolding outer_balances
  rotate_rightleft leaf = none
  rotate_rightleft (node l k v b leaf) = none
  rotate_rightleft (node l k v b (node leaf rk rv rb rr)) = none
  rotate_rightleft (node l k v b (node (node cl ck cv cb cr) rk rv rb rr)) = some (
      node (node l k v (outer_balances cb b rb).0 cl) ck cv (pos 0)
        (node cr rk rv (outer_balances cb b rb).1 rr))

  -- `rebalance_avltree` where the left child is the high one, by that child's balance.
  unfoldable pub rebalance_left : ℤ → AvlNode K V → Option (AvlNode K V)
  unfolding rotate_leftleft rotate_leftright
  rebalance_left (pos zero) n = rotate_leftleft n
  rebalance_left (negsuc zero) n = rotate_leftleft n
  rebalance_left (pos (suc b)) n = rotate_leftright n
  rebalance_left (negsuc (suc b)) n = rotate_leftright n

  -- The same for the right child.
  unfoldable pub rebalance_right : ℤ → AvlNode K V → Option (AvlNode K V)
  unfolding rotate_rightright rotate_rightleft
  rebalance_right (pos b) n = rotate_rightright n
  rebalance_right (negsuc zero) n = rotate_rightleft n
  rebalance_right (negsuc (suc b)) n = rotate_rightright n

  -- `c->n_balance` of a child, for what follows; NULL there is read.
  unfoldable pub by_balance :
      (ℤ → AvlNode K V → Option (AvlNode K V)) → AvlNode K V → AvlNode K V → Option (AvlNode K V)
  by_balance rotate leaf n = none
  by_balance rotate (node l k v b r) n = rotate b n

  -- `rebalance_avltree`: by the child on the left where the balance is -2, and else on the right.
  unfoldable pub rebalance : AvlNode K V → Option (AvlNode K V)
  unfolding rebalance_left rebalance_right by_balance
  rebalance leaf = none
  rebalance (node l k v (negsuc (suc zero)) r) =
      by_balance rebalance_left l (node l k v (negsuc 1) r)
  rebalance (node l k v (negsuc zero) r) = by_balance rebalance_right r (node l k v (negsuc 0) r)
  rebalance (node l k v (negsuc (suc (suc b))) r) =
      by_balance rebalance_right r (node l k v (negsuc (suc (suc b))) r)
  rebalance (node l k v (pos b) r) = by_balance rebalance_right r (node l k v (pos b) r)
