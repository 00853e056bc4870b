-- ===== src/Avl/Find.antt =====
-- src/avltree.c: a search finds what was inserted.
use spead.Base.{ℕ, ◌≡◌, refl, ap, sym, subst, some, List, [], ◌∷◌, ◌++◌, ◌⊎◌, inl, inr}
use mathlib.Core.Logic.{Lift}
use spead.Base.Int.{ℤ, pos, negsuc}
use spead.Avl.{negative, nil, positive, sign, AvlNode, leaf, node, AvlTree}
use spead.Avl.Add.{
  find_name_node_avltree, get_node_data_avltree, find_data_avltree, add_node_avltree,
}
use spead.Avl.Balance.{IsAvl}
use spead.Avl.Order.{inorder}
use spead.Avl.Place.{
  Below, IsOrder, AllBelow, AllAbove, IsSorted, IsSorted-split, add_node-IsSorted,
}

module _ {ℓ} {A : Type ℓ} where
  abbrev pub Has : List A → A → Type ℓ
  Has [] e = Lift ⊥
  Has (x ∷ xs) e = (x ≡ e) ⊎ Has xs e

  Has-split :
      (xs : List A) (y : A) (ys : List A) (e : A)
      → Has (xs ++ y ∷ ys) e
      → Has xs e ⊎ ((y ≡ e) ⊎ Has ys e)
  Has-split [] y ys e h = inr h
  Has-split (x ∷ xs) y ys e (inl same) = inl (inl same)
  Has-split (x ∷ xs) y ys e (inr h) = elim (Has-split xs y ys e h) [
    | inl left ↦ inl (inr left)
    | inr right ↦ inr right
  ]

  Has-mid : (xs : List A) (y : A) (ys : List A) → Has (xs ++ y ∷ ys) y
  Has-mid [] y ys = inl refl
  Has-mid (x ∷ xs) y ys = inr (Has-mid xs y ys)

  Has-insert : (xs : List A) (y : A) (ys : List A) (e : A) → Has (xs ++ ys) e → Has (xs ++ y ∷ ys) e
  Has-insert [] y ys e h = inr h
  Has-insert (x ∷ xs) y ys e (inl same) = inl same
  Has-insert (x ∷ xs) y ys e (inr h) = inr (Has-insert xs y ys e h)

module _ {ℓ} {K V : Type ℓ} (cmp : K → K → ℤ) where
  AllBelow-Has :
      (xs : List (K × V)) (k : K) (e : K × V) → AllBelow cmp xs k → Has xs e → Below cmp (e.0) k
  AllBelow-Has [] k e a h = absurd (h.lower)
  AllBelow-Has (x ∷ xs) k e a (inl same) = subst (λ y. Below cmp (y.0) k) same (a.0)
  AllBelow-Has (x ∷ xs) k e a (inr h) = AllBelow-Has xs k e (a.1) h

  AllAbove-Has :
      (xs : List (K × V)) (k : K) (e : K × V) → AllAbove cmp k xs → Has xs e → Below cmp k (e.0)
  AllAbove-Has [] k e a h = absurd (h.lower)
  AllAbove-Has (x ∷ xs) k e a (inl same) = subst (λ y. Below cmp k (y.0)) same (a.0)
  AllAbove-Has (x ∷ xs) k e a (inr h) = AllAbove-Has xs k e (a.1) h

  -- On a tree whose keys ascend, the search finds each node's data by its key.
  pub find-Has :
      (t : AvlNode K V) (key : K) (value : V)
      → IsOrder cmp
      → IsSorted cmp (inorder t)
      → Has (inorder t) (key, value)
      → get_node_data_avltree (find_name_node_avltree cmp key t) ≡ some value
  unfolding find_name_node_avltree get_node_data_avltree
  find-Has leaf key value o s h = absurd (h.lower)
  find-Has (node l k v b r) key value o s h =
      let (sl, bl, sr) = IsSorted-split cmp (inorder l) (k, v) (inorder r) s in
      elim (Has-split (inorder l) (k, v) (inorder r) (key, value) h) [
        | inl left ↦
            let below : sign (cmp key k) ≡ negative =
              AllBelow-Has (inorder l) k (key, value) bl left in
            rw (below, get_node_data_avltree, find_name_node_avltree)
              (find-Has l key value o sl left)
        | inr (inl here) ↦
            let there : sign (cmp key k) ≡ nil =
              subst (λ z. sign (cmp key z) ≡ nil) (sym (ap (λ e. e.0) here)) (o.same key) in
            rw (there, get_node_data_avltree, find_name_node_avltree) (ap (λ e. some (e.1)) here)
        | inr (inr right) ↦
            let over : sign (cmp key k) ≡ positive =
              o.turn k key (AllAbove-Has (inorder r) k (key, value) (sr.0) right) in
            rw (over, get_node_data_avltree, find_name_node_avltree)
              (find-Has r key value o (sr.1) right)
      ]

  -- On a balanced tree whose keys ascend under a comparison that orders them: where
  -- `add_node_avltree` does not return -1 and leave the tree as it was, `find_data_avltree` finds the
  -- new data by its key, and the data of every node that was there by that node's key.
  pub find-add_node :
      (t : AvlTree K V) (h : ℕ) (key : K) (value : V)
      → IsOrder cmp
      → IsSorted cmp (inorder t.t_root)
      → IsAvl t.t_root h
      → (add_node_avltree cmp t key value ≡ some (negsuc 0, t))
        ⊎ ((t' : AvlTree K V) × (add_node_avltree cmp t key value ≡ some (pos 0, t'))
            × (find_data_avltree cmp t' key ≡ some value)
            × ((k : K) (v : V)
                → Has (inorder t.t_root) (k, v)
                → find_data_avltree cmp t' k ≡ some v))
  unfolding find_data_avltree
  find-add_node t h key value o s a = elim (add_node-IsSorted cmp t h key value o s a) [
    | inl there ↦ inl there
    | inr (t', run, c, put, up, g, at) ↦ inr (
      t',
      run,
      find-Has t'.t_root key value o up
          (subst (λ l. Has l (key, value)) (sym put) (Has-mid c.left (key, value) c.right)),
      λ k v old. find-Has t'.t_root k v o up (
          subst (λ l. Has l (k, v)) (sym put)
            (Has-insert c.left (key, value) c.right (k, v)
              (subst (λ l. Has l (k, v)) c.whole old))),
    )
  ]
