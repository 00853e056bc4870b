-- ===== src/Stack.antt =====
-- src/stack.h and src/stack.c: a stack of object pointers in shared memory. `struct stack_o` cells are
-- owned by one stack each, so the chain from `s_data` is a list; NULL for a stack is `none`.
pub mod Lifo
pub mod Funnel
use spead.Base.{
  ℕ, zero, suc, ◌+◌, ◌-◌, ◌%◌, ◌^◌, Bool, true, false, not, Option, none, some, List, [], ◌∷◌, ◌==◌,
  if◌then◌else◌, length, ◌||◌,
}
use spead.Base.Int.{ℤ, pos, negsuc, is_neg}

pub record Stack {ℓ} (A : Type ℓ) : Type ℓ where
  pub s_data : List A
  pub s_size : ℕ

abbrev pub error : ℤ
error = negsuc 0

-- Calls to a callback `void (*call)(void *so, void *data)` are a function on the state that `data`
-- points at; `int (*call)(…)` also returns a number.
module _ {ℓ} {A : Type ℓ} where
  -- `create_stack`, with what `shared_malloc` says.
  unfoldable pub create_stack : Bool → Option (Stack A)
  create_stack true = some (record { s_data = []; s_size = 0 })
  create_stack false = none

  -- `push_stack`, with what `shared_malloc` says; `s_size` wraps at 2 ^ 64.
  unfoldable pub push_stack : Bool → Option (Stack A) → A → ℤ × Option (Stack A)
  push_stack alloc none o = (error, none)
  push_stack alloc (some s) o =
      if not alloc
      then (error, some s)
      else (pos 0, some (record { s_data = o ∷ s.s_data; s_size = (s.s_size + 1) % 2 ^ 64 }))

  -- `pop_stack` on the fields of a stack.
  unfoldable pub pop_cells : List A → ℕ → Option (A × Stack A)
  pop_cells [] size = none
  pop_cells (o ∷ rest) size =
      if size == 0 then none else some (o, record { s_data = rest; s_size = size - 1 })

  -- `pop_stack` with a place for the object: what is stored there, and the stack afterwards; `none` is
  -- the result -1, which leaves both as they were.
  unfoldable pub pop_stack : Option (Stack A) → Option (A × Stack A)
  unfolding pop_cells
  pop_stack none = none
  pop_stack (some s) = pop_cells s.s_data s.s_size

  -- `get_size_stack`; -1 as a `uint64_t` for NULL.
  unfoldable pub get_size_stack : Option (Stack A) → ℕ
  get_size_stack none = 2 ^ 64 - 1
  get_size_stack (some s) = s.s_size

  -- The push of `funnel_stack`, where there is a destination; `k` counts the calls of `shared_malloc`.
  unfoldable pub push_dst : (ℕ → Bool) → ℕ → Option (Stack A) → A → ℤ × Option (Stack A)
  push_dst alloc k none o = (pos 0, none)
  push_dst alloc k (some d) o = push_stack (alloc k) (some d) o

module _ {ℓ κ} {A : Type ℓ} {S : Type κ} where
  -- The `while` of `empty_stack`, on fuel; the callback may be NULL. `none`: the fuel ran out.
  unfoldable pub empty_loop : ℕ → Option (A → S → S) → Stack A → S → Option (Stack A × S)
  empty_loop zero call s st = none
  empty_loop (suc fuel) call s st = elim (pop_stack (some s)) [
    | none ↦ some (s, st)
    | some (d, s') ↦ elim call [
      | none ↦ empty_loop fuel none s' st
      | some f ↦ empty_loop fuel (some f) s' (f d st)
    ]
  ]

  -- `empty_stack`, and `destroy_stack` before it frees the stack itself.
  unfoldable pub empty_stack :
      Option (A → S → S) → Option (Stack A) → S → Option (Option (Stack A) × S)
  empty_stack call none st = some (none, st)
  empty_stack call (some s) st = elim (empty_loop (suc (length s.s_data)) call s st) [
    | none ↦ none
    | some (s', st') ↦ some (some s', st')
  ]

  unfoldable pub destroy_stack : Option (A → S → S) → Option (Stack A) → S → Option S
  destroy_stack call s st = elim (empty_stack call s st) [ none ↦ none | some (_, st') ↦ some st' ]

  -- The `for` of `traverse_stack`, with `n` rounds left at the cell `so`.
  unfoldable pub traverse_loop : ℕ → (A → S → S) → List A → S → S
  traverse_loop zero call so st = st
  traverse_loop (suc n) call [] st = traverse_loop n call [] st
  traverse_loop (suc n) call (o ∷ so) st = traverse_loop n call so (call o st)

  unfoldable pub traverse_stack : Option (Stack A) → Option (A → S → S) → S → S
  traverse_stack (some s) (some call) st = traverse_loop s.s_size call s.s_data st
  traverse_stack none call st = st
  traverse_stack (some s) none st = st

  -- What the callback of `funnel_stack` says about an object, 0 where it is NULL.
  unfoldable pub ask : Option (A → S → ℤ × S) → A → S → ℤ × S
  ask none o st = (pos 0, st)
  ask (some call) o st = call o st

  -- The `while` of `funnel_stack`, on fuel, for two stacks that are not the same: the result, and the
  -- two stacks and the callback's state afterwards. `none`: the fuel ran out.
  unfoldable pub funnel_loop :
      ℕ
      → (ℕ → Bool)
      → ℕ
      → Stack A
      → Option (Stack A)
      → Option (A → S → ℤ × S)
      → S
      → Option (ℤ × Stack A × Option (Stack A) × S)
  funnel_loop zero alloc k src dst call st = none
  funnel_loop (suc fuel) alloc k src dst call st = elim (pop_stack (some src)) [
    | none ↦ some (pos 0, src, dst, st)
    | some (o, src') ↦ elim (is_neg (ask call o st).0) [
      | true ↦ some (error, src', dst, (ask call o st).1)
      | false ↦ elim (is_neg (push_dst alloc k dst o).0) [
        | true ↦ some (error, src', (push_dst alloc k dst o).1, (ask call o st).1)
        | false ↦
            funnel_loop fuel alloc (suc k) src' (push_dst alloc k dst o).1 call (ask call o st).1
      ]
    ]
  ]

  -- `funnel_stack`
  unfoldable pub funnel_stack :
      (ℕ → Bool)
      → Option (Stack A)
      → Option (Stack A)
      → Option (A → S → ℤ × S)
      → S
      → Option (ℤ × Option (Stack A) × Option (Stack A) × S)
  funnel_stack alloc none dst call st = some (error, none, dst, st)
  funnel_stack alloc (some src) dst call st =
      elim (funnel_loop (suc (length src.s_data)) alloc 0 src dst call st) [
        | none ↦ none
        | some (r, src', dst', st') ↦ some (r, some src', dst', st')
      ]
