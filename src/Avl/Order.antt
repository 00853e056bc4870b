-- ===== src/Avl/Order.antt =====
-- src/avltree.c: rotations keep the order of the nodes, and insertion puts the new node in its place.
use mathlib.Core.List.{append_assoc}
use spead.Base.{
  zero, suc, ◌≡◌, refl, ap, sym, ◌∙◌, Option, none, some, List, [], ◌∷◌, ◌++◌, inl, inr,
  Option-cases, eq_of_some,
}
use spead.Base.Int.{ℤ, pos, negsuc}
use spead.Avl.{
  inc, dec, AvlNode, leaf, node, Parent, from_left, from_right, rotate_rightright, rotate_leftleft,
  rotate_leftright, rotate_rightleft, rebalance_left, rebalance_right, by_balance, rebalance,
}
use spead.Avl.Add.{to_root, settle, climb}

module _ {ℓ} {K V : Type ℓ} where
  -- Keys and data from left to right.
  abbrev pub inorder : AvlNode K V → List (K × V)
  inorder leaf = []
  inorder (node l k v b r) = inorder l ++ (k, v) ∷ inorder r

  -- What stands around a subtree's contents.
  abbrev pub around : List (Parent K V) → List (K × V) → List (K × V)
  around [] xs = xs
  around (from_left k v b r ∷ up) xs = around up (xs ++ (k, v) ∷ inorder r)
  around (from_right l k v b ∷ up) xs = around up (inorder l ++ (k, v) ∷ xs)

  pub to_root-inorder :
      (c : AvlNode K V) (up : List (Parent K V)) → inorder (to_root c up) ≡ around up (inorder c)
  unfolding to_root
  to_root-inorder c [] = refl
  to_root-inorder c (from_left k v b r ∷ up) = to_root-inorder (node c k v b r) up
  to_root-inorder c (from_right l k v b ∷ up) = to_root-inorder (node l k v b c) up

  rightright-inorder : (n t : AvlNode K V) → rotate_rightright n ≡ some t → inorder t ≡ inorder n
  unfolding rotate_rightright
  rightright-inorder leaf t h = cc h
  rightright-inorder (node l k v b leaf) t h = cc h
  rightright-inorder (node l k v b (node rl rk rv (pos zero) rr)) t h =
      ap inorder (sym (eq_of_some h))
      ∙ append_assoc (inorder l) ((k, v) ∷ inorder rl) ((rk, rv) ∷ inorder rr)
  rightright-inorder (node l k v b (node rl rk rv (pos (suc n)) rr)) t h =
      ap inorder (sym (eq_of_some h))
      ∙ append_assoc (inorder l) ((k, v) ∷ inorder rl) ((rk, rv) ∷ inorder rr)
  rightright-inorder (node l k v b (node rl rk rv (negsuc n) rr)) t h =
      ap inorder (sym (eq_of_some h))
      ∙ append_assoc (inorder l) ((k, v) ∷ inorder rl) ((rk, rv) ∷ inorder rr)

  leftleft-inorder : (n t : AvlNode K V) → rotate_leftleft n ≡ some t → inorder t ≡ inorder n
  unfolding rotate_leftleft
  leftleft-inorder leaf t h = cc h
  leftleft-inorder (node leaf k v b r) t h = cc h
  leftleft-inorder (node (node ll lk lv (pos zero) lr) k v b r) t h =
      ap inorder (sym (eq_of_some h))
      ∙ sym (append_assoc (inorder ll) ((lk, lv) ∷ inorder lr) ((k, v) ∷ inorder r))
  leftleft-inorder (node (node ll lk lv (pos (suc n)) lr) k v b r) t h =
      ap inorder (sym (eq_of_some h))
      ∙ sym (append_assoc (inorder ll) ((lk, lv) ∷ inorder lr) ((k, v) ∷ inorder r))
  leftleft-inorder (node (node ll lk lv (negsuc n) lr) k v b r) t h =
      ap inorder (sym (eq_of_some h))
      ∙ sym (append_assoc (inorder ll) ((lk, lv) ∷ inorder lr) ((k, v) ∷ inorder r))

  leftright-inorder : (n t : AvlNode K V) → rotate_leftright n ≡ some t → inorder t ≡ inorder n
  unfolding rotate_leftright
  leftright-inorder leaf t h = cc h
  leftright-inorder (node leaf k v b r) t h = cc h
  leftright-inorder (node (node ll lk lv lb leaf) k v b r) t h = cc h
  leftright-inorder (node (node ll lk lv lb (node cl ck cv cb cr)) k v b r) t h =
      let left = inorder ll in
      let right = (k, v) ∷ inorder r in
      ap inorder (sym (eq_of_some h))
      ∙ append_assoc left ((lk, lv) ∷ inorder cl) ((ck, cv) ∷ (inorder cr ++ right))
      ∙ sym (
          append_assoc left ((lk, lv) ∷ (inorder cl ++ (ck, cv) ∷ inorder cr)) right
          ∙ ap (λ z. left ++ (lk, lv) ∷ z)
              (append_assoc (inorder cl) ((ck, cv) ∷ inorder cr) right))

  rightleft-inorder : (n t : AvlNode K V) → rotate_rightleft n ≡ some t → inorder t ≡ inorder n
  unfolding rotate_rightleft
  rightleft-inorder leaf t h = cc h
  rightleft-inorder (node l k v b leaf) t h = cc h
  rightleft-inorder (node l k v b (node leaf rk rv rb rr)) t h = cc h
  rightleft-inorder (node l k v b (node (node cl ck cv cb cr) rk rv rb rr)) t h =
      let right = (rk, rv) ∷ inorder rr in
      ap inorder (sym (eq_of_some h))
      ∙ append_assoc (inorder l) ((k, v) ∷ inorder cl) ((ck, cv) ∷ (inorder cr ++ right))
      ∙ sym (
          ap (λ z. inorder l ++ (k, v) ∷ z)
            (append_assoc (inorder cl) ((ck, cv) ∷ inorder cr) right))

  left-inorder :
      (c n t : AvlNode K V) → by_balance rebalance_left c n ≡ some t → inorder t ≡ inorder n
  unfolding by_balance rebalance_left
  left-inorder leaf n t h = cc h
  left-inorder (node l k v (pos zero) r) n t h = leftleft-inorder n t h
  left-inorder (node l k v (pos (suc b)) r) n t h = leftright-inorder n t h
  left-inorder (node l k v (negsuc zero) r) n t h = leftleft-inorder n t h
  left-inorder (node l k v (negsuc (suc b)) r) n t h = leftright-inorder n t h

  right-inorder :
      (c n t : AvlNode K V) → by_balance rebalance_right c n ≡ some t → inorder t ≡ inorder n
  unfolding by_balance rebalance_right
  right-inorder leaf n t h = cc h
  right-inorder (node l k v (pos b) r) n t h = rightright-inorder n t h
  right-inorder (node l k v (negsuc zero) r) n t h = rightleft-inorder n t h
  right-inorder (node l k v (negsuc (suc b)) r) n t h = rightright-inorder n t h

  -- `rebalance_avltree` keeps the order of the nodes, whichever rotation it takes.
  pub rebalance-inorder : (n t : AvlNode K V) → rebalance n ≡ some t → inorder t ≡ inorder n
  unfolding rebalance
  rebalance-inorder leaf t h = cc h
  rebalance-inorder (node l k v (pos b) r) t h = right-inorder r (node l k v (pos b) r) t h
  rebalance-inorder (node l k v (negsuc zero) r) t h = right-inorder r (node l k v (negsuc 0) r) t h
  rebalance-inorder (node l k v (negsuc (suc zero)) r) t h =
      left-inorder l (node l k v (negsuc 1) r) t h
  rebalance-inorder (node l k v (negsuc (suc (suc b))) r) t h =
      right-inorder r (node l k v (negsuc (suc (suc b))) r) t h

  turn-inorder :
      (c : AvlNode K V) (up : List (Parent K V)) (t : AvlNode K V)
      → elim (rebalance c) [ none ↦ none | some c' ↦ some (to_root c' up) ] ≡ some t
      → inorder t ≡ around up (inorder c)
  turn-inorder c up t h = elim (Option-cases (rebalance c)) [
    | inl failed ↦ cc (rw failed at h)
    | inr (c', got) ↦
        ap inorder (sym (eq_of_some (rw got at h)))
        ∙ to_root-inorder c' up
        ∙ ap (around up) (rebalance-inorder c c' got)
  ]

  settle-inorder :
      (c : AvlNode K V) (b : ℤ) (up : List (Parent K V)) (higher : Option (AvlNode K V))
      (t : AvlNode K V)
      → (higher ≡ some t → inorder t ≡ around up (inorder c))
      → settle c b up higher ≡ some t
      → inorder t ≡ around up (inorder c)
  unfolding settle
  settle-inorder c (pos zero) up higher t go h =
      ap inorder (sym (eq_of_some h)) ∙ to_root-inorder c up
  settle-inorder c (pos (suc zero)) up higher t go h = go h
  settle-inorder c (pos (suc (suc n))) up higher t go h = turn-inorder c up t h
  settle-inorder c (negsuc zero) up higher t go h = go h
  settle-inorder c (negsuc (suc n)) up higher t go h = turn-inorder c up t h

  -- The climb to the root, with its rotation, keeps the order of the nodes.
  pub climb-inorder :
      (up : List (Parent K V)) (c t : AvlNode K V)
      → climb c up ≡ some t
      → inorder t ≡ around up (inorder c)
  unfolding climb
  climb-inorder [] c t h = ap inorder (sym (eq_of_some h))
  climb-inorder (from_left k v b r ∷ up) c t h =
      settle-inorder (node c k v (dec b) r) (dec b) up _ t (climb-inorder up _ t) h
  climb-inorder (from_right l k v b ∷ up) c t h =
      settle-inorder (node l k v (inc b) c) (inc b) up _ t (climb-inorder up _ t) h
