-- ===== src/Receiver/Items/Lengths.antt =====
-- src/spead.c: the lengths that `calculate_lengths` gives to the items of a heap, called by
-- `funnel_stack` on the item that was pushed last first.
use mathlib.Core.List.{reverse_aux, append-nil, append_assoc}
use spead.Base.{
  ℕ, zero, suc, ◌+◌, ◌-◌, ◌%◌, ◌^◌, ◌≤◌, ◌<◌, ◌≡◌, refl, ap, sym, ◌∙◌, Bool, true, Option, some,
  List, [], ◌∷◌, ◌++◌, ◌==◌, ltb, if◌then◌else◌, length, get_elem?, set, arith, length-append,
  Bool-cases, inl, inr,
}
use spead.Base.Int.{ℤ, pos}
use spead.Packet.Word.{directaddr}
use spead.Stack.{ask, funnel_stack}
use spead.Stack.Lifo.{of_list}
use spead.Stack.Funnel.{Accepts, state_after, HasMemory, funnel-accepted}
use spead.Receiver.Items.{
  SpeadApiItem2, CoalesceData, int64_len, sized_item, size_at, calculate_lengths,
}

-- The addresses of `n` items from `base` on, in the order in which they leave the stack.
abbrev pub addresses : ℕ → ℕ → List ℕ
addresses base zero = []
addresses base (suc n) = addresses (suc base) n ++ base ∷ []

-- They in the order in which they were found.
abbrev pub in_order : ℕ → ℕ → List ℕ
in_order base zero = []
in_order base (suc n) = base ∷ in_order (suc base) n

-- Where the payload in front of the items ends: at the first of them that lies in the payload.
abbrev pub starts : ℕ → List SpeadApiItem2 → ℕ
starts total [] = total
starts total (x ∷ xs) = if x.i_mode == directaddr then x.i_off else starts total xs

-- An item of the payload reaches to where the next one starts, and a value has the size of an
-- `int64_t`.
abbrev pub tiled : ℕ → List SpeadApiItem2 → List SpeadApiItem2
tiled total [] = []
tiled total (x ∷ xs) =
    record x { i_len = if x.i_mode == directaddr then starts total xs - x.i_off else int64_len }
    ∷ tiled total xs

-- The offsets of the items in the payload ascend and are inside it.
abbrev pub Ascending : ℕ → List SpeadApiItem2 → Type 0
Ascending total [] = Unit
Ascending total (x ∷ xs) =
    ((x.i_mode == directaddr) ≡ true → x.i_off ≤ starts total xs) × Ascending total xs

-- How many of the items are values.
abbrev pub values : List SpeadApiItem2 → ℕ
values [] = 0
values (x ∷ xs) = if x.i_mode == directaddr then values xs else suc (values xs)

-- The state with the items sized.
abbrev pub all_sized : List SpeadApiItem2 → List SpeadApiItem2 → CoalesceData → CoalesceData
all_sized pre xs cd = record cd {
  d_items = pre ++ tiled cd.d_off xs;
  d_off = starts cd.d_off xs;
  d_imm = cd.d_imm + values xs;
}

pub starts-bound :
    (total : ℕ) (xs : List SpeadApiItem2) → Ascending total xs → starts total xs ≤ total
starts-bound total [] a = omega arith
starts-bound total (x ∷ xs) a = elim (Bool-cases (x.i_mode == directaddr)) [
  | inl direct ↦ rw direct (omega (arith, a.0 direct, starts-bound total xs (a.1)))
  | inr value ↦ rw value (starts-bound total xs (a.1))
]

pub set-append_exact {ℓ} :
    {A : Type ℓ} (pre : List A) (x y : A) (post : List A)
    → set (pre ++ x ∷ post) (length pre) y ≡ pre ++ y ∷ post
set-append_exact [] x y post = refl
set-append_exact (z ∷ pre) x y post = ap (λ t. z ∷ t) (set-append_exact pre x y post)

pub get_elem?-append_exact {ℓ} :
    {A : Type ℓ} (pre : List A) (x : A) (post : List A)
    → get_elem? (pre ++ x ∷ post) (length pre) ≡ some x
get_elem?-append_exact [] x post = refl
get_elem?-append_exact (z ∷ pre) x post = get_elem?-append_exact pre x post

module _ {ℓ κ} {A : Type ℓ} {S : Type κ} (call : Option (A → S → ℤ × S)) where
  Accepts-append :
      (l m : List A) (st : S)
      → Accepts call l st
      → Accepts call m (state_after call l st)
      → Accepts call (l ++ m) st
  Accepts-append [] m st a b = b
  Accepts-append (o ∷ l) m st a b = (a.0, Accepts-append l m (ask call o st).1 (a.1) b)

  state_after-append :
      (l m : List A) (st : S)
      → state_after call (l ++ m) st ≡ state_after call m (state_after call l st)
  state_after-append [] m st = refl
  state_after-append (o ∷ l) m st = state_after-append l m (ask call o st).1

-- One item, with the end of its payload in `d_off`.
size_first :
    (pre : List SpeadApiItem2) (x : SpeadApiItem2) (post : List SpeadApiItem2) (cd : CoalesceData)
    → ((x.i_mode == directaddr) ≡ true → x.i_off ≤ cd.d_off)
    → cd.d_off < 2 ^ 64
    → calculate_lengths (length pre) (record cd { d_items = pre ++ x ∷ post }) ≡ (
      pos 0,
      record cd {
        d_items =
            pre
            ++ record x { i_len = if x.i_mode == directaddr then cd.d_off - x.i_off else int64_len }
              ∷ post;
        d_off = if x.i_mode == directaddr then x.i_off else cd.d_off;
        d_imm = if x.i_mode == directaddr then cd.d_imm else cd.d_imm + 1;
      },
    )
unfolding calculate_lengths size_at sized_item
size_first pre x post cd below small =
    rw (get_elem?-append_exact pre x post, calculate_lengths)
      (elim (Bool-cases (x.i_mode == directaddr)) [
        | inr value ↦ rw (value, set-append_exact pre x)
        | inl direct ↦ elim (Bool-cases (ltb 0 cd.d_off)) [
          | inl some_left ↦
              let len : (cd.d_off + 2 ^ 64 - x.i_off) % 2 ^ 64 ≡ cd.d_off - x.i_off =
                omega (arith, below direct) in
              let back : (cd.d_off + 2 ^ 64 - (cd.d_off - x.i_off)) % 2 ^ 64 ≡ x.i_off =
                omega (arith, below direct) in
              rw (direct, some_left, len, back, set-append_exact pre x)
          | inr none_left ↦
              let none_here : cd.d_off - x.i_off ≡ 0 = ground arith in
              let same : cd.d_off ≡ x.i_off = ground (arith, below direct) in
              rw (direct, none_left, none_here, set-append_exact pre x, same)
        ]
      ])

-- All items, the last first.
size_all :
    (pre xs : List SpeadApiItem2) (cd : CoalesceData)
    → cd.d_items ≡ pre ++ xs
    → Ascending cd.d_off xs
    → cd.d_off < 2 ^ 64
    → Accepts (some calculate_lengths) (addresses (length pre) (length xs)) cd
      × (state_after (some calculate_lengths) (addresses (length pre) (length xs)) cd
          ≡ all_sized pre xs cd)
unfolding ask
size_all pre [] cd here a small =
    (tt, let e : cd.d_imm + 0 ≡ cd.d_imm = omega arith in rw (e, sym here) refl)
size_all pre (x ∷ xs) cd here a small =
    let len : length (pre ++ x ∷ []) ≡ suc (length pre) =
      omega (arith, length-append pre (x ∷ [])) in
    let split : cd.d_items ≡ (pre ++ x ∷ []) ++ xs = here ∙ sym (append_assoc pre (x ∷ []) xs) in
    let (accepts, after) = size_all (pre ++ x ∷ []) xs cd split (a.1) small in
    let f = some calculate_lengths in
    let l = addresses (suc (length pre)) (length xs) in
    let joined = append_assoc pre (x ∷ []) (tiled cd.d_off xs) in
    let before : state_after f l cd
        ≡ record (all_sized pre xs cd) { d_items = pre ++ x ∷ tiled cd.d_off xs } =
      rw (len, joined) at (after) in
    let step =
      size_first pre x (tiled cd.d_off xs) (all_sized pre xs cd) (a.0)
        (omega (arith, starts-bound cd.d_off xs (a.1))) in
    (
      Accepts-append f l (length pre ∷ []) cd (rw len at (accepts)) (rw (before, step) (refl, tt)),
      state_after-append f l (length pre ∷ []) cd
          ∙ ap (state_after f (length pre ∷ [])) before
          ∙ ap (λ r. r.1) step
          ∙ elim (Bool-cases (x.i_mode == directaddr)) [
            | inl direct ↦ rw direct refl
            | inr value ↦
                let e : cd.d_imm + values xs + 1 ≡ cd.d_imm + suc (values xs) = omega arith in
                rw (value, e) refl
          ],
    )

-- The bytes of the payload that the items have.
abbrev pub direct_bytes : List SpeadApiItem2 → ℕ
direct_bytes [] = 0
direct_bytes (x ∷ xs) =
    if x.i_mode == directaddr then x.i_len + direct_bytes xs else direct_bytes xs

pub tiled-total :
    (total : ℕ) (xs : List SpeadApiItem2)
    → Ascending total xs
    → starts total xs + direct_bytes (tiled total xs) ≡ total
tiled-total total [] a = omega arith
tiled-total total (x ∷ xs) a = elim (Bool-cases (x.i_mode == directaddr)) [
  | inl direct ↦ rw direct (omega (arith, a.0 direct, tiled-total total xs (a.1)))
  | inr value ↦ rw value (tiled-total total xs (a.1))
]

reverse-addresses :
    (base n : ℕ) (acc : List ℕ) → reverse_aux (addresses base n) acc ≡ in_order base n ++ acc
reverse-addresses base zero acc = refl
reverse-addresses base (suc n) acc =
    reverse_aux-append (addresses (suc base) n) base acc
    ∙ ap (λ t. base ∷ t) (reverse-addresses (suc base) n acc)
  where
    reverse_aux-append :
        (l : List ℕ) (b : ℕ) (acc : List ℕ) → reverse_aux (l ++ b ∷ []) acc ≡ b ∷ reverse_aux l acc
    reverse_aux-append [] b acc = refl
    reverse_aux-append (y ∷ l) b acc = reverse_aux-append l b (y ∷ acc)

all_memory :
    (alloc : ℕ → Bool)
    → ((k : ℕ) → alloc k ≡ true)
    → (l : List ℕ) (k : ℕ) → HasMemory (some calculate_lengths) alloc k l
all_memory alloc h [] k = tt
all_memory alloc h (o ∷ l) k = (h k, all_memory alloc h l (suc k))

pub length-addresses : (base n : ℕ) → length (addresses base n) ≡ n
length-addresses base zero = refl
length-addresses base (suc n) =
    length-append (addresses (suc base) n) (base ∷ [])
    ∙ omega (arith, length-addresses (suc base) n)

pub calculate_lengths-tile :
    (alloc : ℕ → Bool) (cd : CoalesceData)
    → ((k : ℕ) → alloc k ≡ true)
    → Ascending cd.d_off cd.d_items
    → cd.d_off < 2 ^ 64
    → length cd.d_items < 2 ^ 64
    → (funnel_stack alloc
          (some (of_list (addresses 0 (length cd.d_items))))
          (some (of_list []))
          (some calculate_lengths)
          cd
        ≡ some (
          pos 0,
          some (of_list []),
          some (of_list (in_order 0 (length cd.d_items))),
          record cd {
            d_items = tiled cd.d_off cd.d_items;
            d_off = starts cd.d_off cd.d_items;
            d_imm = cd.d_imm + values cd.d_items;
          },
        ))
      × (starts cd.d_off cd.d_items + direct_bytes (tiled cd.d_off cd.d_items) ≡ cd.d_off)
calculate_lengths-tile alloc cd memory a small few =
    let n = length cd.d_items in
    let (accepts, after) = size_all [] cd.d_items cd refl a small in
    let turned = reverse-addresses 0 n [] ∙ append-nil (in_order 0 n) in
    let run =
      funnel-accepted (some calculate_lengths) alloc (addresses 0 n) [] cd accepts
        (all_memory alloc memory (addresses 0 n) 0) (omega (arith, length-addresses 0 n)) in
    (rw (turned, after) at (run), tiled-total cd.d_off cd.d_items a)
