-- ===== src/Stack/Lifo.antt =====
-- src/stack.c: the stack refines a list, with its size.
use spead.Base.{
  ℕ, zero, suc, ◌+◌, ◌^◌, ◌<◌, ◌≡◌, refl, true, false, none, some, List, [], ◌∷◌, length, arith,
}
use spead.Base.Int.{pos}
use spead.Stack.{
  Stack, error, create_stack, push_stack, pop_stack, get_size_stack, empty_loop, empty_stack,
  destroy_stack, traverse_loop, traverse_stack,
}

-- The stack that holds the objects of a list, its top first.
abbrev pub of_list {ℓ} : {A : Type ℓ} → List A → Stack A
of_list l = record { s_data = l; s_size = length l }

module _ {ℓ} {A : Type ℓ} where
  -- `create_stack`, `push_stack`, `pop_stack` and `get_size_stack` on the stack of a list `l` with
  -- fewer than 2 ^ 64 - 1 objects: a new stack is that of no objects; a push gives the stack of
  -- `o ∷ l`, or fails and changes nothing where there is no memory; a pop fails on no objects, and
  -- else returns the object on top and leaves the stack of the others; the size is that of the list.
  pub stack-list :
      (l : List A) (o : A)
      → length l + 1 < 2 ^ 64
      → (create_stack true ≡ some (of_list {A = A} []))
        × (push_stack true (some (of_list l)) o ≡ (pos 0, some (of_list (o ∷ l))))
        × (push_stack false (some (of_list l)) o ≡ (error, some (of_list l)))
        × (pop_stack (some (of_list (o ∷ l))) ≡ some (o, of_list l))
        × (pop_stack (some (of_list {A = A} [])) ≡ none)
        × (get_size_stack (some (of_list l)) ≡ length l)
  unfolding create_stack push_stack pop_stack get_size_stack
  stack-list l o h = (refl, ground arith, refl, ground arith, refl, refl)

  pub pop-of_list : (o : A) (l : List A) → pop_stack (some (of_list (o ∷ l))) ≡ some (o, of_list l)
  unfolding pop_stack
  pop-of_list o l = ground arith

module _ {ℓ κ} {A : Type ℓ} {S : Type κ} where
  pub visit : (A → S → S) → List A → S → S
  visit call [] st = st
  visit call (o ∷ l) st = visit call l (call o st)

  traverse_loop-visit :
      (call : A → S → S) (l : List A) (st : S)
      → traverse_loop (length l) call l st ≡ visit call l st
  unfolding traverse_loop visit
  traverse_loop-visit call [] st = refl
  traverse_loop-visit call (o ∷ l) st = traverse_loop-visit call l (call o st)

  empty_loop-visit :
      (call : A → S → S) (l : List A) (fuel : ℕ) (st : S)
      → length l < fuel
      → empty_loop fuel (some call) (of_list l) st ≡ some (of_list [], visit call l st)
  unfolding empty_loop visit
  empty_loop-visit call l zero st h = absurd (omega arith)
  empty_loop-visit call [] (suc fuel) st h = unfold pop_stack in refl
  empty_loop-visit call (o ∷ l) (suc fuel) st h =
      rw (pop-of_list o l, empty_loop) (empty_loop-visit call l fuel (call o st) (omega arith))

  -- `traverse_stack` calls back with each object from the top down and leaves the stack;
  -- `empty_stack` ends, calls back with the same objects in the same order, and leaves no object.
  pub stack_visits :
      (call : A → S → S) (l : List A) (st : S)
      → (traverse_stack (some (of_list l)) (some call) st ≡ visit call l st)
        × (empty_stack (some call) (some (of_list l)) st
            ≡ some (some (of_list []), visit call l st))
        × (destroy_stack (some call) (some (of_list l)) st ≡ some (visit call l st))
  unfolding traverse_stack empty_stack destroy_stack
  stack_visits call l st =
      let run = empty_loop-visit call l (suc (length l)) st (omega arith) in
      (traverse_loop-visit call l st, rw (run, empty_stack), rw (run, empty_stack, destroy_stack))
