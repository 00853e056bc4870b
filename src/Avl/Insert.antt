-- ===== src/Avl/Insert.antt =====
-- src/avltree.c: `add_node_avltree` keeps the tree balanced.
use spead.Base.{
  ℕ, zero, suc, ◌+◌, ◌%◌, ◌^◌, ◌≡◌, refl, subst, Bool, true, false, Option, none, some, List, [],
  ◌∷◌, arith, ◌⊎◌, inl, inr, Option-cases,
}
use spead.Base.Int.{ℤ, pos, negsuc}
use spead.Avl.{
  negative, nil, positive, sign, AvlNode, leaf, node, Parent, from_left, from_right, AvlTree,
}
use spead.Avl.Add.{attach, descend, settle, climb, link_node, add_node_avltree}
use spead.Avl.Balance.{IsAvl, Fits, Leaning, to_root-IsAvl, rebalance-left, rebalance-right}

module _ {ℓ} {K V : Type ℓ} where
  -- The root that a climb ends with.
  abbrev pub Ends : Option (AvlNode K V) → Type ℓ
  Ends o = (t : AvlNode K V) × (o ≡ some t) × (h : ℕ) × IsAvl t h

  -- A subtree that has grown by one ends in a balanced tree: it is a new node, or leans to a side.
  climb-IsAvl :
      (up : List (Parent K V)) (c : AvlNode K V) (h : ℕ)
      → IsAvl c (suc h)
      → Fits up h
      → (h ≡ 0) ⊎ Leaning c
      → Ends (climb c up)
  unfolding climb settle
  climb-IsAvl [] c h a f lean = (c, refl, suc h, a)
  climb-IsAvl (from_left k v (pos zero) r ∷ up) c h a (hr, g, ar, s, f) lean =
      climb-IsAvl up (node c k v (negsuc 0) r) g
        (suc h, hr, a, ar, (omega (arith, s.0, s.1), omega (arith, s.0, s.1))) f (inr tt)
  climb-IsAvl (from_left k v (pos (suc zero)) r ∷ up) c h a (hr, g, ar, s, f) lean =
      let (n, whole) =
        to_root-IsAvl (node c k v (pos 0) r) up g
          (suc h, hr, a, ar, (omega (arith, s.0, s.1), omega (arith, s.0, s.1))) f in
      (_, refl, n, whole)
  climb-IsAvl (from_left k v (pos (suc (suc b))) r ∷ up) c h a (hr, g, ar, s, f) lean = absurd s
  climb-IsAvl (from_left k v (negsuc zero) r ∷ up) c h a (hr, g, ar, s, f) (inl new) =
      absurd (omega (arith, s.0))
  climb-IsAvl (from_left k v (negsuc zero) r ∷ up) c h a (hr, g, ar, s, f) (inr lean) =
      let high : IsAvl c (suc (suc hr)) = subst (λ n. IsAvl c (suc n)) s.0 a in
      let (t, run, at) = rebalance-left c r k v hr high ar lean in
      let e : suc (suc hr) ≡ g = omega (arith, s.0, s.1) in
      let (n, whole) = to_root-IsAvl t up g (subst (IsAvl t) e at) f in (_, rw run, n, whole)
  climb-IsAvl (from_left k v (negsuc (suc b)) r ∷ up) c h a (hr, g, ar, s, f) lean = absurd s
  climb-IsAvl (from_right l k v (pos zero) ∷ up) c h a (hl, g, al, s, f) lean =
      climb-IsAvl up (node l k v (pos 1) c) g
        (hl, suc h, al, a, (omega (arith, s.0, s.1), omega (arith, s.0, s.1))) f (inr tt)
  climb-IsAvl (from_right l k v (negsuc zero) ∷ up) c h a (hl, g, al, s, f) lean =
      let (n, whole) =
        to_root-IsAvl (node l k v (pos 0) c) up g
          (hl, suc h, al, a, (omega (arith, s.0, s.1), omega (arith, s.0, s.1))) f in
      (_, refl, n, whole)
  climb-IsAvl (from_right l k v (negsuc (suc b)) ∷ up) c h a (hl, g, al, s, f) lean = absurd s
  climb-IsAvl (from_right l k v (pos (suc zero)) ∷ up) c h a (hl, g, al, s, f) (inl new) =
      absurd (omega (arith, s.0))
  climb-IsAvl (from_right l k v (pos (suc zero)) ∷ up) c h a (hl, g, al, s, f) (inr lean) =
      let high : IsAvl c (suc (suc hl)) = subst (λ n. IsAvl c (suc n)) s.0 a in
      let (t, run, at) = rebalance-right l c k v hl al high lean in
      let e : suc (suc hl) ≡ g = omega (arith, s.0, s.1) in
      let (n, whole) = to_root-IsAvl t up g (subst (IsAvl t) e at) f in (_, rw run, n, whole)
  climb-IsAvl (from_right l k v (pos (suc (suc b))) ∷ up) c h a (hl, g, al, s, f) lean = absurd s

  -- The parents of the new node: of a subtree that has height 1 where the flag is set, and 0 else.
  abbrev pub Placed : Bool × List (Parent K V) → Type 0
  Placed (true, up) = Fits up 1
  Placed (false, up) = Fits up 0

  attach-Placed : (up : List (Parent K V)) → Fits up 0 → Placed (attach up)
  unfolding attach
  attach-Placed [] f = f
  attach-Placed (from_left k v (pos zero) r ∷ up) f = f
  attach-Placed (from_left k v (pos (suc zero)) r ∷ up) (hr, g, ar, s, f) =
      (hr, g, ar, (omega (arith, s.0, s.1), omega (arith, s.0, s.1)), f)
  attach-Placed (from_left k v (pos (suc (suc b))) r ∷ up) f = f
  attach-Placed (from_left k v (negsuc b) r ∷ up) f = f
  attach-Placed (from_right l k v (pos b) ∷ up) f = f
  attach-Placed (from_right l k v (negsuc zero) ∷ up) (hl, g, al, s, f) =
      (hl, g, al, (omega (arith, s.0, s.1), omega (arith, s.0, s.1)), f)
  attach-Placed (from_right l k v (negsuc (suc b)) ∷ up) f = f

  -- What the way down ends with, where it does not find the key.
  abbrev pub Way : Option (Bool × List (Parent K V)) → Type 0
  Way none = Unit
  Way (some path) = Placed path

  descend-Way :
      (cmp : K → K → ℤ) (key : K) (t : AvlNode K V) (up : List (Parent K V)) (h : ℕ)
      → IsAvl t h
      → Fits up h
      → Way (descend cmp key t up)
  unfolding descend
  descend-Way cmp key leaf up h a f = attach-Placed up (subst (Fits up) a f)
  descend-Way cmp key (node l k v b r) up h (hl, hr, al, ar, s) f =
      elim (sign (cmp k key))
        as (λ w. Way (elim w [
          | negative ↦ descend cmp key r (from_right l k v b ∷ up)
          | positive ↦ descend cmp key l (from_left k v b r ∷ up)
          | nil ↦ none
        ])) [
          | negative ↦ descend-Way cmp key r (from_right l k v b ∷ up) hr ar (hl, h, al, s, f)
          | positive ↦ descend-Way cmp key l (from_left k v b r ∷ up) hl al (hr, h, ar, s, f)
          | nil ↦ tt
        ]

  link_node-IsAvl :
      (k : K) (v : V) (path : Bool × List (Parent K V))
      → Placed path
      → Ends (link_node (node leaf k v (pos 0) leaf) path)
  unfolding link_node
  link_node-IsAvl k v (true, up) p =
      let (n, whole) =
        to_root-IsAvl (node leaf k v (pos 0) leaf) up 1 (0, 0, refl, refl, (refl, refl)) p in
      (_, refl, n, whole)
  link_node-IsAvl k v (false, up) p =
      climb-IsAvl up (node leaf k v (pos 0) leaf) 0 (0, 0, refl, refl, (refl, refl)) p (inl refl)

  -- `add_node_avltree` on a balanced tree, one whose balances are the differences of its subtrees'
  -- heights and at most one, never reads NULL, whatever the comparison, and leaves a balanced tree: it
  -- returns 0 and counts one node more, or returns -1 and leaves the tree as it was.
  pub add_node-IsAvl :
      (cmp : K → K → ℤ) (t : AvlTree K V) (h : ℕ) (key : K) (value : V)
      → IsAvl t.t_root h
      → (add_node_avltree cmp t key value ≡ some (negsuc 0, t))
        ⊎ ((t' : AvlTree K V) × (add_node_avltree cmp t key value ≡ some (pos 0, t'))
            × (t'.t_ncount ≡ (t.t_ncount + 1) % 2 ^ 64)
            × (g : ℕ) × IsAvl t'.t_root g)
  unfolding add_node_avltree
  add_node-IsAvl cmp t h key value a =
      let way = descend-Way cmp key t.t_root [] h a tt in
      elim (Option-cases (descend cmp key t.t_root [])) [
        | inl there ↦ inl (rw (there, add_node_avltree))
        | inr (path, new) ↦
            let (root, run, g, at) = link_node-IsAvl key value path (rw new at way) in
            inr (
              record { t_root = root; t_ncount = (t.t_ncount + 1) % 2 ^ 64 },
              rw (new, add_node_avltree, run),
              refl,
              g,
              at,
            )
      ]
