-- ===== src/Avl/Place.antt =====
-- src/avltree.c: where `add_node_avltree` puts a node.
use mathlib.Core.List.{append_assoc}
use spead.Base.{
  ℕ, zero, suc, ◌≡◌, refl, ap, sym, ◌∙◌, subst, Bool, true, false, Option, none, some, List, [],
  ◌∷◌, ◌++◌, ◌⊎◌, inl, inr, Option-cases, eq_of_some,
}
use spead.Base.Int.{ℤ, pos, negsuc}
use spead.Avl.{
  Sign, negative, nil, positive, sign, AvlNode, leaf, node, Parent, from_left, from_right, AvlTree,
}
use spead.Avl.Add.{attach, descend, link_node, add_node_avltree}
use spead.Avl.Balance.{IsAvl}
use spead.Avl.Insert.{add_node-IsAvl}
use spead.Avl.Order.{inorder, around, to_root-inorder, climb-inorder}

module _ {ℓ} {K : Type ℓ} (cmp : K → K → ℤ) where
  abbrev pub Below : K → K → Type 0
  Below a b = sign (cmp a b) ≡ negative

  -- A comparison that orders the keys.
  pub record IsOrder : Type ℓ where
    pub trans : (a b c : K) → Below a b → Below b c → Below a c
    pub flip : (a b : K) → sign (cmp a b) ≡ positive → Below b a
    pub turn : (a b : K) → Below a b → sign (cmp b a) ≡ positive
    pub same : (a : K) → sign (cmp a a) ≡ nil

module _ {ℓ} {K V : Type ℓ} (cmp : K → K → ℤ) where
  abbrev pub AllBelow : List (K × V) → K → Type 0
  AllBelow [] key = Unit
  AllBelow (x ∷ xs) key = Below cmp x.0 key × AllBelow xs key

  abbrev pub AllAbove : K → List (K × V) → Type 0
  AllAbove key [] = Unit
  AllAbove key (x ∷ xs) = Below cmp key x.0 × AllAbove key xs

  -- Each key is below all that follow.
  abbrev pub IsSorted : List (K × V) → Type 0
  IsSorted [] = Unit
  IsSorted (x ∷ xs) = AllAbove x.0 xs × IsSorted xs

  pub AllAbove-append :
      (key : K) (xs ys : List (K × V)) → AllAbove key (xs ++ ys) → AllAbove key xs × AllAbove key ys
  AllAbove-append key [] ys a = (tt, a)
  AllAbove-append key (x ∷ xs) ys a = let (b, c) = AllAbove-append key xs ys (a.1) in ((a.0, b), c)

  AllAbove-join :
      (key : K) (xs ys : List (K × V)) → AllAbove key xs → AllAbove key ys → AllAbove key (xs ++ ys)
  AllAbove-join key [] ys a b = b
  AllAbove-join key (x ∷ xs) ys a b = (a.0, AllAbove-join key xs ys (a.1) b)

  AllBelow-join :
      (key : K) (xs ys : List (K × V)) → AllBelow xs key → AllBelow ys key → AllBelow (xs ++ ys) key
  AllBelow-join key [] ys a b = b
  AllBelow-join key (x ∷ xs) ys a b = (a.0, AllBelow-join key xs ys (a.1) b)

  pub IsSorted-split :
      (xs : List (K × V)) (y : K × V) (ys : List (K × V))
      → IsSorted (xs ++ y ∷ ys)
      → IsSorted xs × AllBelow xs (y.0) × IsSorted (y ∷ ys)
  IsSorted-split [] y ys s = (tt, tt, s)
  IsSorted-split (x ∷ xs) y ys s =
      let (a, b, c) = IsSorted-split xs y ys (s.1) in
      let (d, e) = AllAbove-append (x.0) xs (y ∷ ys) (s.0) in ((d, a), (e.0, b), c)

  IsSorted-insert :
      (xs : List (K × V)) (y : K × V) (ys : List (K × V))
      → IsSorted (xs ++ ys)
      → AllBelow xs (y.0)
      → AllAbove (y.0) ys
      → IsSorted (xs ++ y ∷ ys)
  IsSorted-insert [] y ys s b a = (a, s)
  IsSorted-insert (x ∷ xs) y ys s b a =
      let (d, e) = AllAbove-append (x.0) xs ys (s.0) in
      (AllAbove-join (x.0) xs (y ∷ ys) d (b.0, e), IsSorted-insert xs y ys (s.1) (b.1) a)

  AllBelow-trans :
      IsOrder cmp → (xs : List (K × V)) (a b : K) → AllBelow xs a → Below cmp a b → AllBelow xs b
  AllBelow-trans o [] a b h k = tt
  AllBelow-trans o (x ∷ xs) a b h k = (o.trans (x.0) a b (h.0) k, AllBelow-trans o xs a b (h.1) k)

  AllAbove-trans :
      IsOrder cmp → (xs : List (K × V)) (a b : K) → AllAbove a xs → Below cmp b a → AllAbove b xs
  AllAbove-trans o [] a b h k = tt
  AllAbove-trans o (x ∷ xs) a b h k = (o.trans b a (x.0) k (h.0), AllAbove-trans o xs a b (h.1) k)

  attach-around :
      (up : List (Parent K V)) (xs : List (K × V)) → around (attach up).1 xs ≡ around up xs
  unfolding attach
  attach-around [] xs = refl
  attach-around (from_left k v (pos zero) r ∷ up) xs = refl
  attach-around (from_left k v (pos (suc zero)) r ∷ up) xs = refl
  attach-around (from_left k v (pos (suc (suc b))) r ∷ up) xs = refl
  attach-around (from_left k v (negsuc b) r ∷ up) xs = refl
  attach-around (from_right l k v (pos b) ∷ up) xs = refl
  attach-around (from_right l k v (negsuc zero) ∷ up) xs = refl
  attach-around (from_right l k v (negsuc (suc b)) ∷ up) xs = refl

  -- A list cut in two at the place of a key.
  pub record Cut (key : K) (xs : List (K × V)) : Type ℓ where
    pub left : List (K × V)
    pub right : List (K × V)
    pub whole : xs ≡ left ++ right
    pub below : AllBelow left key
    pub above : AllAbove key right

  -- The way down cuts the contents of the subtree at the place of the key.
  abbrev pub Goes : K → AvlNode K V → List (Parent K V) → Option (Bool × List (Parent K V)) → Type ℓ
  Goes key t up o =
      (path : Bool × List (Parent K V))
      → o ≡ some path
      → (c : Cut key (inorder t)) × ((e : K × V)
          → around path.1 (e ∷ []) ≡ around up (c.left ++ e ∷ c.right))

  node-Goes :
      (w : Sign) (key : K) (l : AvlNode K V) (k : K) (v : V) (b : ℤ) (r : AvlNode K V)
      (up : List (Parent K V)) (left right : Option (Bool × List (Parent K V)))
      → IsOrder cmp
      → sign (cmp k key) ≡ w
      → IsSorted (inorder (node l k v b r))
      → Goes key l (from_left k v b r ∷ up) left
      → Goes key r (from_right l k v b ∷ up) right
      → Goes key (node l k v b r) up (elim w [ negative ↦ right | positive ↦ left | nil ↦ none ])
  node-Goes nil key l k v b r up left right o at s gl gr path h = cc h
  node-Goes negative key l k v b r up left right o at s gl gr path h =
      let (sl, bl, sr) = IsSorted-split (inorder l) (k, v) (inorder r) s in
      let (c, puts) = gr path h in
      (
        record {
          left = inorder l ++ (k, v) ∷ c.left;
          right = c.right;
          whole =
              ap (λ z. inorder l ++ (k, v) ∷ z) c.whole
              ∙ sym (append_assoc (inorder l) ((k, v) ∷ c.left) c.right);
          below =
              AllBelow-join key (inorder l) ((k, v) ∷ c.left)
                (AllBelow-trans o (inorder l) k key bl at) (at, c.below);
          above = c.above;
        },
        λ e.
            puts e
            ∙ ap (around up) (sym (append_assoc (inorder l) ((k, v) ∷ c.left) (e ∷ c.right))),
      )
  node-Goes positive key l k v b r up left right o at s gl gr path h =
      let (sl, bl, sr) = IsSorted-split (inorder l) (k, v) (inorder r) s in
      let (c, puts) = gl path h in
      let over = o.flip k key at in
      (
        record {
          left = c.left;
          right = c.right ++ (k, v) ∷ inorder r;
          whole =
              ap (λ z. z ++ (k, v) ∷ inorder r) c.whole
              ∙ append_assoc c.left c.right ((k, v) ∷ inorder r);
          below = c.below;
          above =
              AllAbove-join key c.right ((k, v) ∷ inorder r) c.above
                (over, AllAbove-trans o (inorder r) k key (sr.0) over);
        },
        λ e. puts e ∙ ap (around up) (append_assoc c.left (e ∷ c.right) ((k, v) ∷ inorder r)),
      )

  descend-Goes :
      IsOrder cmp
      → (key : K) (t : AvlNode K V) (up : List (Parent K V)) → IsSorted (inorder t)
      → Goes key t up (descend cmp key t up)
  unfolding descend
  descend-Goes o key leaf up s = λ path h. (
    record { left = []; right = []; whole = refl; below = tt; above = tt },
    λ e. ap (λ p. around p.1 (e ∷ [])) (sym (eq_of_some h)) ∙ attach-around up (e ∷ []),
  )
  descend-Goes o key (node l k v b r) up s =
      let (sl, bl, sr) = IsSorted-split (inorder l) (k, v) (inorder r) s in
      node-Goes (sign (cmp k key)) key l k v b r up _ _ o refl s
        (descend-Goes o key l (from_left k v b r ∷ up) sl)
        (descend-Goes o key r (from_right l k v b ∷ up) (sr.1))

  link_node-inorder :
      (k : K) (v : V) (path : Bool × List (Parent K V)) (t : AvlNode K V)
      → link_node (node leaf k v (pos 0) leaf) path ≡ some t
      → inorder t ≡ around path.1 ((k, v) ∷ [])
  unfolding link_node
  link_node-inorder k v (true, up) t h =
      ap inorder (sym (eq_of_some h)) ∙ to_root-inorder (node leaf k v (pos 0) leaf) up
  link_node-inorder k v (false, up) t h = climb-inorder up (node leaf k v (pos 0) leaf) t h

  placed-IsSorted :
      (t t' : AvlTree K V) (key : K) (value : V)
      → IsOrder cmp
      → IsSorted (inorder t.t_root)
      → add_node_avltree cmp t key value ≡ some (pos 0, t')
      → (c : Cut key (inorder t.t_root)) × (inorder t'.t_root ≡ c.left ++ (key, value) ∷ c.right)
        × IsSorted (inorder t'.t_root)
  unfolding add_node_avltree
  placed-IsSorted t t' key value o s h = elim (Option-cases (descend cmp key t.t_root [])) [
    | inl there ↦ cc (rw (there, add_node_avltree) at h)
    | inr (path, new) ↦ elim (Option-cases (link_node (node leaf key value (pos 0) leaf) path)) [
      | inl failed ↦ cc (rw (new, add_node_avltree, failed) at h)
      | inr (root, linked) ↦
          let e = ap (λ r. r.1.t_root) (eq_of_some (rw (new, add_node_avltree, linked) at h)) in
          let (c, puts) = descend-Goes o key t.t_root [] s path new in
          let put : inorder t'.t_root ≡ c.left ++ (key, value) ∷ c.right =
            ap inorder (sym e) ∙ link_node-inorder key value path root linked ∙ puts (key, value) in
          (
            c,
            put,
            subst IsSorted (sym put) (
                IsSorted-insert c.left (key, value) c.right (subst IsSorted c.whole s) c.below
                  c.above),
          )
    ]
  ]

  -- On a balanced tree whose keys ascend from left to right under a comparison that orders them,
  -- `add_node_avltree` returns: -1, and then the tree is as it was, or 0. Then the new node stands
  -- between the nodes of smaller and those of greater keys, which are all there as before; the keys
  -- ascend again, and the tree is balanced.
  pub add_node-IsSorted :
      (t : AvlTree K V) (h : ℕ) (key : K) (value : V)
      → IsOrder cmp
      → IsSorted (inorder t.t_root)
      → IsAvl t.t_root h
      → (add_node_avltree cmp t key value ≡ some (negsuc 0, t))
        ⊎ ((t' : AvlTree K V) × (add_node_avltree cmp t key value ≡ some (pos 0, t'))
            × (c : Cut key (inorder t.t_root)) × (inorder t'.t_root
                ≡ c.left ++ (key, value) ∷ c.right)
            × IsSorted (inorder t'.t_root)
            × (g : ℕ) × IsAvl t'.t_root g)
  add_node-IsSorted t h key value o s a = elim (add_node-IsAvl cmp t h key value a) [
    | inl there ↦ inl there
    | inr (t', run, count, g, at) ↦
        let (c, put, up) = placed-IsSorted t t' key value o s run in
        inr (t', run, c, put, up, g, at)
  ]
