-- ===== src/Base/Slices.antt =====
-- Ranges of a list, `take k (drop i xs)`: how they lie in a concatenation and in a prefix.
use Prim.Native.Nat.{ℕ, zero, suc, ◌+◌, ◌-◌, ◌≤◌, ◌<◌}
use mathlib.Core.Path.{◌≡◌, refl, ap}
use mathlib.Core.List.{List, [], ◌∷◌, ◌++◌}
use mathlib.Core.Option.{none, some}
use native.Mathlib.Omega.{arith}
use spead.Base.Lists.{length, take, drop, get_elem?}

module _ {ℓ} {A : Type ℓ} where
  pub take-append : (xs ys : List A) (k : ℕ) → k ≤ length xs → take k (xs ++ ys) ≡ take k xs
  take-append xs ys zero h = refl
  take-append [] ys (suc k) h = absurd (omega arith)
  take-append (x ∷ xs) ys (suc k) h = ap (λ t. x ∷ t) (take-append xs ys k (omega arith))

  pub take-append_exact : (xs ys : List A) → take (length xs) (xs ++ ys) ≡ xs
  take-append_exact [] ys = refl
  take-append_exact (x ∷ xs) ys = ap (λ t. x ∷ t) (take-append_exact xs ys)

  pub drop-append_exact : (xs ys : List A) → drop (length xs) (xs ++ ys) ≡ ys
  drop-append_exact [] ys = refl
  drop-append_exact (x ∷ xs) ys = drop-append_exact xs ys

  pub take_all : (xs : List A) (n : ℕ) → length xs ≤ n → take n xs ≡ xs
  take_all [] zero h = refl
  take_all [] (suc n) h = refl
  take_all (x ∷ xs) zero h = absurd (omega arith)
  take_all (x ∷ xs) (suc n) h = ap (λ t. x ∷ t) (take_all xs n (omega arith))

  pub drop_all : (xs : List A) (n : ℕ) → length xs ≤ n → drop n xs ≡ []
  drop_all [] zero h = refl
  drop_all [] (suc n) h = refl
  drop_all (x ∷ xs) zero h = absurd (omega arith)
  drop_all (x ∷ xs) (suc n) h = drop_all xs n (omega arith)

  pub drop-take : (xs : List A) (n k : ℕ) → drop n (take k xs) ≡ take (k - n) (drop n xs)
  drop-take xs zero k = ap (λ t. take t xs) (omega arith)
  drop-take xs (suc n) zero = let e : 0 - suc n ≡ 0 = omega arith in rw e refl
  drop-take [] (suc n) (suc k) = take-nil (suc k - suc n)
    where
      take-nil : (i : ℕ) → [] ≡ take {A = A} i []
      take-nil zero = refl
      take-nil (suc i) = refl
  drop-take (x ∷ xs) (suc n) (suc k) =
      let e : suc k - suc n ≡ k - n = omega arith in rw e (drop-take xs n k)

  pub nil_of_length : (xs : List A) → length xs ≡ 0 → xs ≡ []
  nil_of_length [] h = refl
  nil_of_length (x ∷ xs) h = absurd (omega arith)

  -- A prefix that reaches into the second part, and the rest of a prefix of the first.
  pub take-append_right :
      (xs ys : List A) (k : ℕ) → length xs ≤ k → take k (xs ++ ys) ≡ xs ++ take (k - length xs) ys
  take-append_right [] ys k h = ap (λ t. take t ys) (omega arith)
  take-append_right (x ∷ xs) ys zero h = absurd (omega arith)
  take-append_right (x ∷ xs) ys (suc k) h =
      let e : suc k - suc (length xs) ≡ k - length xs = omega arith in
      rw e (ap (λ t. x ∷ t) (take-append_right xs ys k (omega arith)))

  pub drop-append_left :
      (xs ys : List A) (k : ℕ) → k ≤ length xs → drop k (xs ++ ys) ≡ drop k xs ++ ys
  drop-append_left xs ys zero h = refl
  drop-append_left [] ys (suc k) h = absurd (omega arith)
  drop-append_left (x ∷ xs) ys (suc k) h = drop-append_left xs ys k (omega arith)

  -- A range inside the first part.
  pub range-append_left :
      (xs ys : List A) (i k : ℕ)
      → i + k ≤ length xs
      → take k (drop i (xs ++ ys)) ≡ take k (drop i xs)
  range-append_left xs ys zero k h = take-append xs ys k (omega arith)
  range-append_left [] ys (suc i) k h = absurd (omega arith)
  range-append_left (x ∷ xs) ys (suc i) k h = range-append_left xs ys i k (omega arith)

  -- What follows the first part.
  pub drop-append_right :
      (xs ys : List A) (i : ℕ) → length xs ≤ i → drop i (xs ++ ys) ≡ drop (i - length xs) ys
  drop-append_right [] ys i h = ap (λ t. drop t ys) (omega arith)
  drop-append_right (x ∷ xs) ys zero h = absurd (omega arith)
  drop-append_right (x ∷ xs) ys (suc i) h =
      let e : suc i - suc (length xs) ≡ i - length xs = omega arith in
      rw e (drop-append_right xs ys i (omega arith))

  pub take-take : (xs : List A) (j k : ℕ) → k ≤ j → take k (take j xs) ≡ take k xs
  take-take xs j zero h = refl
  take-take xs zero (suc k) h = absurd (omega arith)
  take-take [] (suc j) (suc k) h = refl
  take-take (x ∷ xs) (suc j) (suc k) h = ap (λ t. x ∷ t) (take-take xs j k (omega arith))

  -- A range inside a prefix.
  pub range-take :
      (xs : List A) (i j k : ℕ) → i + k ≤ j → take k (drop i (take j xs)) ≡ take k (drop i xs)
  range-take xs zero j k h = take-take xs j k (omega arith)
  range-take xs (suc i) zero k h = absurd (omega arith)
  range-take [] (suc i) (suc j) k h = refl
  range-take (x ∷ xs) (suc i) (suc j) k h = range-take xs i j k (omega arith)

  pub drop-drop : (xs : List A) (i j : ℕ) → drop i (drop j xs) ≡ drop (j + i) xs
  drop-drop xs i zero = ap (λ t. drop t xs) (omega arith)
  drop-drop [] zero (suc j) = drop-nil (suc j + 0)
    where
      drop-nil : (n : ℕ) → [] ≡ drop {A = A} n []
      drop-nil zero = refl
      drop-nil (suc n) = refl
  drop-drop [] (suc i) (suc j) = drop-nil (suc j + suc i)
    where
      drop-nil : (n : ℕ) → [] ≡ drop {A = A} n []
      drop-nil zero = refl
      drop-nil (suc n) = refl
  drop-drop (x ∷ xs) i (suc j) =
      let e : suc j + i ≡ suc (j + i) = omega arith in rw e (drop-drop xs i j)

  pub get_elem?-append_left :
      (xs ys : List A) (i : ℕ) → i < length xs → get_elem? (xs ++ ys) i ≡ get_elem? xs i
  get_elem?-append_left [] ys i h = absurd (omega arith)
  get_elem?-append_left (x ∷ xs) ys zero h = refl
  get_elem?-append_left (x ∷ xs) ys (suc i) h = get_elem?-append_left xs ys i (omega arith)

  pub get_elem?-append_right :
      (xs ys : List A) (i : ℕ)
      → length xs ≤ i
      → get_elem? (xs ++ ys) i ≡ get_elem? ys (i - length xs)
  get_elem?-append_right [] ys i h = ap (get_elem? ys) (omega arith)
  get_elem?-append_right (x ∷ xs) ys zero h = absurd (omega arith)
  get_elem?-append_right (x ∷ xs) ys (suc i) h =
      let e : suc i - suc (length xs) ≡ i - length xs = omega arith in
      rw e (get_elem?-append_right xs ys i (omega arith))

  pub get_elem?-take : (xs : List A) (k i : ℕ) → i < k → get_elem? (take k xs) i ≡ get_elem? xs i
  get_elem?-take xs zero i h = absurd (omega arith)
  get_elem?-take [] (suc k) i h = refl
  get_elem?-take (x ∷ xs) (suc k) zero h = refl
  get_elem?-take (x ∷ xs) (suc k) (suc i) h = get_elem?-take xs k i (omega arith)

  pub get_elem?-drop : (xs : List A) (j i : ℕ) → get_elem? (drop j xs) i ≡ get_elem? xs (j + i)
  get_elem?-drop xs zero i = ap (get_elem? xs) (omega arith)
  get_elem?-drop [] (suc j) i = refl
  get_elem?-drop (x ∷ xs) (suc j) i =
      let e : suc j + i ≡ suc (j + i) = omega arith in rw e (get_elem?-drop xs j i)

  pub get_elem?-total : (xs : List A) (i : ℕ) → i < length xs → (x : A) × (get_elem? xs i ≡ some x)
  get_elem?-total [] i h = absurd (omega arith)
  get_elem?-total (x ∷ xs) zero h = (x, refl)
  get_elem?-total (x ∷ xs) (suc i) h = get_elem?-total xs i (omega arith)

  -- A range begins with the element at its start.
  pub range-suc :
      (xs : List A) (i n : ℕ) (x : A)
      → get_elem? xs i ≡ some x
      → take (suc n) (drop i xs) ≡ x ∷ take n (drop (suc i) xs)
  range-suc [] i n x h = absurd (none_ne h)
    where
      none_ne : {y : A} → none ≡ some y → ⊥
      none_ne e = cc
  range-suc (y ∷ ys) zero n x h = cc
  range-suc (y ∷ ys) (suc i) n x h = range-suc ys i n x h

  -- What a rest of a list that is not empty says of the list.
  pub drop-cons :
      (xs : List A) (i : ℕ) (x : A) (rest : List A)
      → drop i xs ≡ x ∷ rest
      → (get_elem? xs i ≡ some x) × (drop (suc i) xs ≡ rest)
  drop-cons [] zero x rest h = absurd (cc h)
  drop-cons [] (suc i) x rest h = absurd (cc h)
  drop-cons (y ∷ ys) zero x rest h = (cc, cc)
  drop-cons (y ∷ ys) (suc i) x rest h = drop-cons ys i x rest h

  pub length-drop_rest :
      (xs : List A) (i : ℕ) (rest : List A) → drop i xs ≡ rest → length xs ≤ i + length rest
  length-drop_rest [] i rest h = omega arith
  length-drop_rest (x ∷ xs) zero rest h = omega (arith, ap length h)
  length-drop_rest (x ∷ xs) (suc i) rest h = omega (arith, length-drop_rest xs i rest h)
