-- ===== src/Avl/Balance.antt =====
-- src/avltree.c: insertion keeps the tree balanced, and every rotation it asks for finds its nodes.
use spead.Base.{ℕ, zero, suc, ◌≡◌, refl, sym, Option, some, List, [], ◌∷◌, arith}
use spead.Base.Int.{ℤ, pos, negsuc}
use spead.Avl.{
  AvlNode, leaf, node, Parent, from_left, from_right, rotate_rightright, rotate_leftleft,
  rotate_leftright, rotate_rightleft, rebalance_left, rebalance_right, rebalance, outer_balances,
  by_balance,
}
use spead.Avl.Add.{check_balances_avltree, to_root}

-- A balance that says how much higher the right subtree is, by at most one, and the height.
abbrev pub Skew : ℤ → ℕ → ℕ → ℕ → Type 0
Skew (pos zero) hl hr h = (hl ≡ hr) × (h ≡ suc hl)
Skew (pos (suc zero)) hl hr h = (hr ≡ suc hl) × (h ≡ suc hr)
Skew (pos (suc (suc n))) hl hr h = ⊥
Skew (negsuc zero) hl hr h = (hl ≡ suc hr) × (h ≡ suc hl)
Skew (negsuc (suc n)) hl hr h = ⊥

module _ {ℓ} {K V : Type ℓ} where
  -- A tree of a height whose balances are all true and at most one.
  abbrev pub IsAvl : AvlNode K V → ℕ → Type 0
  IsAvl leaf h = h ≡ 0
  IsAvl (node l k v b r) h = (hl : ℕ) × (hr : ℕ) × IsAvl l hl × IsAvl r hr × Skew b hl hr h

  -- Parents above a subtree of a height, which complete it to a balanced tree.
  abbrev pub Fits : List (Parent K V) → ℕ → Type 0
  Fits [] h = Unit
  Fits (from_left k v b r ∷ up) h = (hr : ℕ) × (g : ℕ) × IsAvl r hr × Skew b h hr g × Fits up g
  Fits (from_right l k v b ∷ up) h = (hl : ℕ) × (g : ℕ) × IsAvl l hl × Skew b hl h g × Fits up g

  pub to_root-IsAvl :
      (c : AvlNode K V) (up : List (Parent K V)) (h : ℕ)
      → IsAvl c h
      → Fits up h
      → (g : ℕ) × IsAvl (to_root c up) g
  unfolding to_root
  to_root-IsAvl c [] h a f = (h, a)
  to_root-IsAvl c (from_left k v b r ∷ up) h a (hr, g, ar, s, f) =
      to_root-IsAvl (node c k v b r) up g (h, hr, a, ar, s) f
  to_root-IsAvl c (from_right l k v b ∷ up) h a (hl, g, al, s, f) =
      to_root-IsAvl (node l k v b c) up g (hl, h, al, a, s) f

  abbrev pub Leaning : AvlNode K V → Type 0
  Leaning leaf = ⊥
  Leaning (node l k v (pos zero) r) = ⊥
  Leaning (node l k v (pos (suc n)) r) = Unit
  Leaning (node l k v (negsuc n) r) = Unit

  -- A tree that a function returns, of a height.
  abbrev pub Gives : Option (AvlNode K V) → ℕ → Type ℓ
  Gives o h = (t : AvlNode K V) × (o ≡ some t) × IsAvl t h

  leftright-IsAvl :
      (ll lr r : AvlNode K V) (lk k : K) (lv v : V) (hr hll hlr : ℕ)
      → IsAvl ll hll
      → IsAvl lr hlr
      → IsAvl r hr
      → hll ≡ hr
      → hlr ≡ suc hr
      → Gives (rotate_leftright (node (node ll lk lv (pos 1) lr) k v (negsuc 1) r)) (suc (suc hr))
  unfolding rotate_leftright outer_balances
  leftright-IsAvl ll leaf r lk k lv v hr hll hlr al ac ar e f = absurd (omega (arith, ac))
  leftright-IsAvl ll (node cl ck cv (pos zero) cr) r lk k lv v hr hll hlr al (a, b, ca, cb, s) ar e
        f =
      (
        _,
        refl,
        (
          suc hll,
          suc b,
          (hll, a, al, ca, (omega (arith, s.0, s.1), refl)),
          (b, hr, cb, ar, (omega (arith, s.0, s.1), refl)),
          (omega (arith, s.0, s.1), omega (arith, s.0, s.1)),
        ),
      )
  leftright-IsAvl ll (node cl ck cv (pos (suc zero)) cr) r lk k lv v hr hll hlr al (a, b, ca, cb, s)
        ar e f =
      (
        _,
        refl,
        (
          suc hll,
          suc b,
          (hll, a, al, ca, (omega (arith, s.0, s.1), refl)),
          (b, hr, cb, ar, (omega (arith, s.0, s.1), refl)),
          (omega (arith, s.0, s.1), omega (arith, s.0, s.1)),
        ),
      )
  leftright-IsAvl ll (node cl ck cv (pos (suc (suc n))) cr) r lk k lv v hr hll hlr al
        (a, b, ca, cb, s) ar e f =
      absurd s
  leftright-IsAvl ll (node cl ck cv (negsuc zero) cr) r lk k lv v hr hll hlr al (a, b, ca, cb, s) ar
        e f =
      (
        _,
        refl,
        (
          suc hll,
          suc hr,
          (hll, a, al, ca, (omega (arith, s.0, s.1), refl)),
          (b, hr, cb, ar, (omega (arith, s.0, s.1), refl)),
          (omega (arith, s.0, s.1), omega (arith, s.0, s.1)),
        ),
      )
  leftright-IsAvl ll (node cl ck cv (negsuc (suc n)) cr) r lk k lv v hr hll hlr al (a, b, ca, cb, s)
        ar e f =
      absurd s

  rightleft-IsAvl :
      (l rl rr : AvlNode K V) (k rk : K) (v rv : V) (hl hrl hrr : ℕ)
      → IsAvl l hl
      → IsAvl rl hrl
      → IsAvl rr hrr
      → hrr ≡ hl
      → hrl ≡ suc hl
      → Gives (rotate_rightleft (node l k v (pos 2) (node rl rk rv (negsuc 0) rr))) (suc (suc hl))
  unfolding rotate_rightleft outer_balances
  rightleft-IsAvl l leaf rr k rk v rv hl hrl hrr al ac ar e f = absurd (omega (arith, ac))
  rightleft-IsAvl l (node cl ck cv (pos zero) cr) rr k rk v rv hl hrl hrr al (a, b, ca, cb, s) ar e
        f =
      (
        _,
        refl,
        (
          suc hl,
          suc b,
          (hl, a, al, ca, (omega (arith, s.0, s.1), refl)),
          (b, hrr, cb, ar, (omega (arith, s.0, s.1), refl)),
          (omega (arith, s.0, s.1), omega (arith, s.0, s.1)),
        ),
      )
  rightleft-IsAvl l (node cl ck cv (pos (suc zero)) cr) rr k rk v rv hl hrl hrr al (a, b, ca, cb, s)
        ar e f =
      (
        _,
        refl,
        (
          suc hl,
          suc b,
          (hl, a, al, ca, (omega (arith, s.0, s.1), refl)),
          (b, hrr, cb, ar, (omega (arith, s.0, s.1), refl)),
          (omega (arith, s.0, s.1), omega (arith, s.0, s.1)),
        ),
      )
  rightleft-IsAvl l (node cl ck cv (pos (suc (suc n))) cr) rr k rk v rv hl hrl hrr al
        (a, b, ca, cb, s) ar e f =
      absurd s
  rightleft-IsAvl l (node cl ck cv (negsuc zero) cr) rr k rk v rv hl hrl hrr al (a, b, ca, cb, s) ar
        e f =
      (
        _,
        refl,
        (
          suc hl,
          suc hrr,
          (hl, a, al, ca, (omega (arith, s.0, s.1), refl)),
          (b, hrr, cb, ar, (omega (arith, s.0, s.1), refl)),
          (omega (arith, s.0, s.1), omega (arith, s.0, s.1)),
        ),
      )
  rightleft-IsAvl l (node cl ck cv (negsuc (suc n)) cr) rr k rk v rv hl hrl hrr al (a, b, ca, cb, s)
        ar e f =
      absurd s

  pub rebalance-left :
      (c r : AvlNode K V) (k : K) (v : V) (hr : ℕ)
      → IsAvl c (suc (suc hr))
      → IsAvl r hr
      → Leaning c
      → Gives (rebalance (node c k v (negsuc 1) r)) (suc (suc hr))
  unfolding rebalance rebalance_left by_balance rotate_leftleft
  rebalance-left leaf r k v hr a ar lean = absurd lean
  rebalance-left (node ll lk lv (pos zero) lr) r k v hr a ar lean = absurd lean
  rebalance-left (node ll lk lv (pos (suc zero)) lr) r k v hr (hll, hlr, al, ac, s) ar lean =
      leftright-IsAvl ll lr r lk k lv v hr hll hlr al ac ar (omega (arith, s.0, s.1))
        (omega (arith, s.0, s.1))
  rebalance-left (node ll lk lv (pos (suc (suc n))) lr) r k v hr (hll, hlr, al, ac, s) ar lean =
      absurd s
  rebalance-left (node ll lk lv (negsuc zero) lr) r k v hr (hll, hlr, al, ac, s) ar lean = (
    _,
    refl,
    (
      hll,
      suc hlr,
      al,
      (hlr, hr, ac, ar, (omega (arith, s.0, s.1), refl)),
      (omega (arith, s.0, s.1), omega (arith, s.0, s.1)),
    ),
  )
  rebalance-left (node ll lk lv (negsuc (suc n)) lr) r k v hr (hll, hlr, al, ac, s) ar lean =
      absurd s

  pub rebalance-right :
      (l c : AvlNode K V) (k : K) (v : V) (hl : ℕ)
      → IsAvl l hl
      → IsAvl c (suc (suc hl))
      → Leaning c
      → Gives (rebalance (node l k v (pos 2) c)) (suc (suc hl))
  unfolding rebalance rebalance_right by_balance rotate_rightright
  rebalance-right l leaf k v hl al a lean = absurd lean
  rebalance-right l (node rl rk rv (pos zero) rr) k v hl al a lean = absurd lean
  rebalance-right l (node rl rk rv (pos (suc zero)) rr) k v hl al (hrl, hrr, ac, ar, s) lean = (
    _,
    refl,
    (
      suc hl,
      hrr,
      (hl, hrl, al, ac, (omega (arith, s.0, s.1), refl)),
      ar,
      (omega (arith, s.0, s.1), omega (arith, s.0, s.1)),
    ),
  )
  rebalance-right l (node rl rk rv (pos (suc (suc n))) rr) k v hl al (hrl, hrr, ac, ar, s) lean =
      absurd s
  rebalance-right l (node rl rk rv (negsuc zero) rr) k v hl al (hrl, hrr, ac, ar, s) lean =
      rightleft-IsAvl l rl rr k rk v rv hl hrl hrr al ac ar (omega (arith, s.0, s.1))
        (omega (arith, s.0, s.1))
  rebalance-right l (node rl rk rv (negsuc (suc n)) rr) k v hl al (hrl, hrr, ac, ar, s) lean =
      absurd s

  -- `check_balances_avltree` computes the height of a balanced tree.
  pub check_balances-IsAvl : (t : AvlNode K V) (h : ℕ) → IsAvl t h → check_balances_avltree t ≡ h
  unfolding check_balances_avltree
  check_balances-IsAvl leaf h a = sym a
  check_balances-IsAvl (node l k v (pos zero) r) h (hl, hr, al, ar, s) =
      ground (arith, s.0, s.1, check_balances-IsAvl l hl al, check_balances-IsAvl r hr ar)
  check_balances-IsAvl (node l k v (pos (suc zero)) r) h (hl, hr, al, ar, s) =
      ground (arith, s.0, s.1, check_balances-IsAvl l hl al, check_balances-IsAvl r hr ar)
  check_balances-IsAvl (node l k v (pos (suc (suc n))) r) h (hl, hr, al, ar, s) = absurd s
  check_balances-IsAvl (node l k v (negsuc zero) r) h (hl, hr, al, ar, s) =
      ground (arith, s.0, s.1, check_balances-IsAvl l hl al, check_balances-IsAvl r hr ar)
  check_balances-IsAvl (node l k v (negsuc (suc n)) r) h (hl, hr, al, ar, s) = absurd s
