-- ===== src/Tests/StackTests.antt =====
-- The theorems about src/stack.c at small stacks; the callback refuses 0 and adds up the others.
use spead.Base.{ℕ, ◌+◌, ◌≡◌, refl, Bool, true, some, List, [], ◌∷◌, arith, ◌==◌, if◌then◌else◌}
use mathlib.Core.List.{reverse_aux}
use spead.Base.Int.{ℤ, pos}
use spead.Stack.{error, ask, funnel_stack}
use spead.Stack.Lifo.{of_list}
use spead.Stack.Funnel.{state_after, funnel-refused}

abbrev three : List ℕ
three = 1 ∷ 2 ∷ 3 ∷ []

abbrev add_up : ℕ → ℕ → ℤ × ℕ
add_up o total = if o == 0 then (error, total) else (pos 0, total + o)

abbrev plenty : ℕ → Bool
plenty k = true

funnel-refused_example :
    funnel_stack plenty
      (some (of_list (1 ∷ 2 ∷ 0 ∷ 5 ∷ [])))
      (some (of_list (8 ∷ [])))
      (some add_up)
      0
    ≡ some (
      error,
      some (of_list (5 ∷ [])),
      some (of_list (reverse_aux (1 ∷ 2 ∷ []) (8 ∷ []))),
      (ask (some add_up) 0 (state_after (some add_up) (1 ∷ 2 ∷ []) 0)).1,
    )
unfolding ask
funnel-refused_example =
    funnel-refused (some add_up) plenty (1 ∷ 2 ∷ []) 0 (5 ∷ []) (8 ∷ []) 0 (refl, (refl, tt)) refl
      (refl, (refl, tt)) (omega arith)
