-- ===== src/Stack/Funnel.antt =====
-- src/stack.c: `funnel_stack` between two stacks that are not the same.
use mathlib.Core.List.{reverse_aux, append-nil}
use spead.Base.{
  Option, subst, length-append, ◌∷◌, ℕ, zero, suc, ◌+◌, ◌<◌, ◌≡◌, refl, subst, Bool, true, false,
  Option, none, some, List, [], ◌∷◌, ◌++◌, length, arith, length-append, ◌^◌,
}
use spead.Base.Int.{ℤ, pos, is_neg}
use spead.Stack.{Stack, error, push_stack, pop_stack, ask, push_dst, funnel_loop, funnel_stack}
use spead.Stack.Lifo.{of_list, pop-of_list}

module _ {ℓ κ} {A : Type ℓ} {S : Type κ} (call : Option (A → S → ℤ × S)) where
  -- The callback refuses none of the objects, called on each in turn.
  abbrev pub Accepts : List A → S → Type 0
  Accepts [] st = Unit
  Accepts (o ∷ l) st = (is_neg (ask call o st).0 ≡ false) × Accepts l (ask call o st).1

  -- The callback's state after those calls.
  abbrev pub state_after : List A → S → S
  state_after [] st = st
  state_after (o ∷ l) st = state_after l (ask call o st).1

  -- `shared_malloc` has memory for the calls from `k` on, as many as there are objects.
  abbrev pub HasMemory : (ℕ → Bool) → ℕ → List A → Type 0
  HasMemory alloc k [] = Unit
  HasMemory alloc k (o ∷ l) = (alloc k ≡ true) × HasMemory alloc (suc k) l

  push_dst-room :
      (alloc : ℕ → Bool) (k : ℕ) (d : List A) (o : A)
      → alloc k ≡ true
      → length d + 1 < 2 ^ 64
      → push_dst alloc k (some (of_list d)) o ≡ (pos 0, some (of_list (o ∷ d)))
  unfolding push_dst push_stack
  push_dst-room alloc k d o h room = rw h (ground arith)

  push_dst-full :
      (alloc : ℕ → Bool) (k : ℕ) (d : List A) (o : A)
      → alloc k ≡ false
      → push_dst alloc k (some (of_list d)) o ≡ (error, some (of_list d))
  unfolding push_dst push_stack
  push_dst-full alloc k d o h = rw h

  -- The rounds that the callback accepts.
  funnel_loop-accepted :
      (alloc : ℕ → Bool) (l tail d : List A) (fuel k : ℕ) (st : S)
      → Accepts l st
      → HasMemory alloc k l
      → length l + length d < 2 ^ 64
      → funnel_loop (length l + fuel) alloc k (of_list (l ++ tail)) (some (of_list d)) call st
        ≡ funnel_loop fuel alloc
            (length l + k)
            (of_list tail)
            (some (of_list (reverse_aux l d)))
            call
            (state_after l st)
  unfolding funnel_loop
  funnel_loop-accepted alloc [] tail d fuel k st a m room =
      let e : 0 + fuel ≡ fuel = omega arith in let f : 0 + k ≡ k = omega arith in rw (e, f)
  funnel_loop-accepted alloc (o ∷ l) tail d fuel k st a m room =
      let e : suc (length l) + fuel ≡ suc (length l + fuel) = omega arith in
      let f : suc (length l) + k ≡ length l + suc k = omega arith in
      let pushed = push_dst-room alloc k d o (m.0) (omega arith) in
      rw (e, f, pop-of_list o (l ++ tail), funnel_loop, a.0, pushed)
        (rw pushed (
          funnel_loop-accepted alloc l tail (o ∷ d) fuel (suc k) (ask call o st).1 (a.1) (m.1)
            (omega arith)))

  stop-refused :
      (alloc : ℕ → Bool) (o : A) (rest : List A) (dst : Option (Stack A)) (fuel k : ℕ) (st : S)
      → is_neg (ask call o st).0 ≡ true
      → funnel_loop (suc fuel) alloc k (of_list (o ∷ rest)) dst call st
        ≡ some (error, of_list rest, dst, (ask call o st).1)
  unfolding funnel_loop
  stop-refused alloc o rest dst fuel k st h = rw (pop-of_list o rest, funnel_loop, h)

  stop-no_memory :
      (alloc : ℕ → Bool) (o : A) (rest d : List A) (fuel k : ℕ) (st : S)
      → is_neg (ask call o st).0 ≡ false
      → alloc k ≡ false
      → funnel_loop (suc fuel) alloc k (of_list (o ∷ rest)) (some (of_list d)) call st
        ≡ some (error, of_list rest, some (of_list d), (ask call o st).1)
  unfolding funnel_loop
  stop-no_memory alloc o rest d fuel k st h full =
      let kept = push_dst-full alloc k d o full in
      rw (pop-of_list o rest, funnel_loop, h, kept) (rw kept)

  -- With memory and no refusal, `funnel_stack` ends with 0: the source is empty, and its objects
  -- stand on the destination in reverse order, above what was there.
  pub funnel-accepted :
      (alloc : ℕ → Bool) (l d : List A) (st : S)
      → Accepts l st
      → HasMemory alloc 0 l
      → length l + length d < 2 ^ 64
      → funnel_stack alloc (some (of_list l)) (some (of_list d)) call st
        ≡ some (pos 0, some (of_list []), some (of_list (reverse_aux l d)), state_after l st)
  unfolding funnel_stack
  funnel-accepted alloc l d st a m room =
      let e : suc (length l) ≡ length l + 1 = omega arith in
      let run =
        subst
          (λ t.
            funnel_loop (length l + 1) alloc 0 (of_list t) (some (of_list d)) call st
            ≡ funnel_loop 1 alloc (length l + 0) (of_list []) (some (of_list (reverse_aux l d)))
                call (state_after l st))
          (append-nil l) (funnel_loop-accepted alloc l [] d 1 0 st a m room) in
      rw (e, run, funnel_stack) (unfold funnel_loop pop_stack in refl)

  funnel_loop-drained :
      (alloc : ℕ → Bool) (l : List A) (fuel k : ℕ) (st : S)
      → Accepts l st
      → length l < fuel
      → funnel_loop fuel alloc k (of_list l) none call st
        ≡ some (pos 0, of_list [], none, state_after l st)
  unfolding funnel_loop push_dst
  funnel_loop-drained alloc l zero k st a enough = absurd (omega arith)
  funnel_loop-drained alloc [] (suc fuel) k st a enough = unfold pop_stack in refl
  funnel_loop-drained alloc (o ∷ l) (suc fuel) k st a enough =
      rw (pop-of_list o l, funnel_loop, a.0)
        (funnel_loop-drained alloc l fuel (suc k) (ask call o st).1 (a.1) (omega arith))

  -- With no destination and no refusal, `funnel_stack` ends with 0 and empties the source.
  pub funnel-drained :
      (alloc : ℕ → Bool) (l : List A) (st : S)
      → Accepts l st
      → funnel_stack alloc (some (of_list l)) none call st
        ≡ some (pos 0, some (of_list []), none, state_after l st)
  unfolding funnel_stack
  funnel-drained alloc l st a =
      rw (funnel_loop-drained alloc l (suc (length l)) 0 st a (omega arith), funnel_stack)

  -- Where the callback refuses an object, `funnel_stack` returns the error: the objects before it
  -- have moved, those behind it are still in the source, and the refused object is in neither stack.
  pub funnel-refused :
      (alloc : ℕ → Bool) (l : List A) (o : A) (rest d : List A) (st : S)
      → Accepts l st
      → is_neg (ask call o (state_after l st)).0 ≡ true
      → HasMemory alloc 0 l
      → length l + length d < 2 ^ 64
      → funnel_stack alloc (some (of_list (l ++ o ∷ rest))) (some (of_list d)) call st
        ≡ some (
          error,
          some (of_list rest),
          some (of_list (reverse_aux l d)),
          (ask call o (state_after l st)).1,
        )
  unfolding funnel_stack
  funnel-refused alloc l o rest d st a refused m room =
      let e : suc (length (l ++ o ∷ rest)) ≡ length l + suc (suc (length rest)) =
        omega (arith, length-append l (o ∷ rest)) in
      rw
        (
          e,
          funnel_loop-accepted alloc l (o ∷ rest) d (suc (suc (length rest))) 0 st a m room,
          funnel_stack,
        )
        (rw (
          stop-refused alloc o rest (some (of_list (reverse_aux l d))) (suc (length rest))
            (length l + 0) (state_after l st) refused))

  -- Where `shared_malloc` has no memory for an object that the callback accepts, `funnel_stack`
  -- returns the error, and that object is in neither stack.
  pub funnel-no_memory :
      (alloc : ℕ → Bool) (l : List A) (o : A) (rest d : List A) (st : S)
      → Accepts l st
      → is_neg (ask call o (state_after l st)).0 ≡ false
      → HasMemory alloc 0 l
      → alloc (length l) ≡ false
      → length l + length d < 2 ^ 64
      → funnel_stack alloc (some (of_list (l ++ o ∷ rest))) (some (of_list d)) call st
        ≡ some (
          error,
          some (of_list rest),
          some (of_list (reverse_aux l d)),
          (ask call o (state_after l st)).1,
        )
  unfolding funnel_stack
  funnel-no_memory alloc l o rest d st a accepted m full room =
      let e : suc (length (l ++ o ∷ rest)) ≡ length l + suc (suc (length rest)) =
        omega (arith, length-append l (o ∷ rest)) in
      let k : length l + 0 ≡ length l = omega arith in
      let stop =
        stop-no_memory alloc o rest (reverse_aux l d) (suc (length rest)) (length l)
          (state_after l st) accepted full in
      rw
        (
          e,
          funnel_loop-accepted alloc l (o ∷ rest) d (suc (suc (length rest))) 0 st a m room,
          k,
          funnel_stack,
        )
        (rw stop)
