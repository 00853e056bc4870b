-- ===== src/Base/Bits.antt =====
-- The masks, shifts and disjoint unions of fields that the packet macros are written with.
use Prim.Native.Nat.{
  ℕ, zero, suc, ◌+◌, ◌-◌, ◌*◌, ◌/◌, ◌%◌, ◌^◌, ◌≤◌, ◌<◌, min, max, bit_and, bit_or, digits, bit_xor,
  differ, bit_and-bitwise, bit_or-bitwise, bit_xor-bitwise,
}
use mathlib.Core.Path.{◌≡◌, refl, sym, ◌∙◌, ap}
use native.Mathlib.Nat.{pow-suc, mod-lt, mod-eq_of_lt, div-add-mod, mul-add-mod_self_left}
use native.Mathlib.Omega.{arith}

-- The recursion on digits gives one result for every count of digits that covers the number.
digits_count :
    (z : ℕ → ℕ) (f : ℕ → ℕ → ℕ) (n m a b : ℕ) → a ≤ n → a ≤ m → digits z f n a b ≡ digits z f m a b
digits_count z f zero zero a b p q = refl
digits_count z f zero (suc m) zero b p q = refl
digits_count z f zero (suc m) (suc a) b p q = absurd (omega arith)
digits_count z f (suc n) zero zero b p q = refl
digits_count z f (suc n) zero (suc a) b p q = absurd (omega arith)
digits_count z f (suc n) (suc m) zero b p q = refl
digits_count z f (suc n) (suc m) (suc a) b p q =
    ap (λ t. t * 2 + f (suc a % 2) (b % 2))
      (digits_count z f n m (suc a / 2) (b / 2) (omega arith) (omega arith))

bit_or-zero_left : (b : ℕ) → bit_or 0 b ≡ b
bit_or-zero_left b = bit_or-bitwise 0 b

bit_and-zero_left : (b : ℕ) → bit_and 0 b ≡ 0
bit_and-zero_left b = bit_and-bitwise 0 b

-- The lowest digit of a disjunction.
bit_or_step : (a b : ℕ) → bit_or a b ≡ bit_or (a / 2) (b / 2) * 2 + max (a % 2) (b % 2)
bit_or_step zero b = omega (arith, bit_or-zero_left b, bit_or-zero_left (b / 2))
bit_or_step (suc a) b =
    bit_or-bitwise (suc a) b
    ∙ ap (λ t. t * 2 + max (suc a % 2) (b % 2))
        (digits_count _ max a (suc a / 2) (suc a / 2) (b / 2) (omega arith) (omega arith)
          ∙ sym (bit_or-bitwise (suc a / 2) (b / 2)))

-- The lowest digit of a conjunction.
bit_and_step : (a b : ℕ) → bit_and a b ≡ bit_and (a / 2) (b / 2) * 2 + min (a % 2) (b % 2)
bit_and_step zero b = omega (arith, bit_and-zero_left b, bit_and-zero_left (b / 2))
bit_and_step (suc a) b =
    bit_and-bitwise (suc a) b
    ∙ ap (λ t. t * 2 + min (suc a % 2) (b % 2))
        (digits_count _ min a (suc a / 2) (suc a / 2) (b / 2) (omega arith) (omega arith)
          ∙ sym (bit_and-bitwise (suc a / 2) (b / 2)))

bit_or-zero_bound : (n a : ℕ) → a ≤ n → bit_or a 0 ≡ a
bit_or-zero_bound zero zero h = refl
bit_or-zero_bound zero (suc a) h = absurd (omega arith)
bit_or-zero_bound (suc n) a h = omega (arith, bit_or_step a 0, bit_or-zero_bound n (a / 2))

pub pow_double : (k : ℕ) → 2 ^ suc k ≡ 2 * 2 ^ k
pow_double k = omega (arith, pow-suc 2 k)

pub pow_pos : (k : ℕ) → 0 < 2 ^ k
pow_pos zero = omega arith
pow_pos (suc k) = omega (arith, pow_double k, pow_pos k)

div_mod_double : (p a : ℕ) → 0 < p → a % (2 * p) ≡ a / 2 % p * 2 + a % 2
div_mod_double p a h =
    let q = a / 2 / p in
    let r = a / 2 % p * 2 + a % 2 in
    let small : r < 2 * p = omega (arith, mod-lt (a / 2) h) in
    let split : a ≡ 2 * p * q + r = omega (arith, div-add-mod (a / 2) p) in
    ap (λ t. t % (2 * p)) split ∙ mul-add-mod_self_left (2 * p) q r ∙ mod-eq_of_lt small

half_shifted : (p a : ℕ) → a * (2 * p) / 2 ≡ a * p
half_shifted p a = omega arith

-- A field above bit `k` joined by `|` with one below it is their sum.
pub bit_or-shifted : (k a b : ℕ) → b < 2 ^ k → bit_or (a * 2 ^ k) b ≡ a * 2 ^ k + b
bit_or-shifted zero a b h =
    let e : b ≡ 0 = omega arith in
    rw e (bit_or-zero_bound (a * 1) (a * 1) (omega arith) ∙ omega arith)
bit_or-shifted (suc k) a b h = rw (pow_double k) (
    bit_or_step (a * (2 * 2 ^ k)) b
    ∙ rw (half_shifted (2 ^ k) a) (omega (arith, bit_or-shifted k a (b / 2), pow_double k)))

-- A mask of `k` ones keeps the remainder modulo `2 ^ k`.
pub bit_and-mask : (k a : ℕ) → bit_and (2 ^ k - 1) a ≡ a % 2 ^ k
bit_and-mask zero a = bit_and-zero_left a ∙ omega arith
bit_and-mask (suc k) a =
    let e : (2 ^ suc k - 1) / 2 ≡ 2 ^ k - 1 = omega (arith, pow_double k, pow_pos k) in
    bit_and_step (2 ^ suc k - 1) a
    ∙ rw (e, bit_and-mask k (a / 2), pow_double k)
        (omega (arith, div_mod_double (2 ^ k) a (pow_pos k), pow_pos k))

-- Exclusive or of two binary digits.
differ-zero_left : (b : ℕ) → differ 0 b ≡ b
differ-zero_left b = refl

bit_xor-zero_left : (b : ℕ) → bit_xor 0 b ≡ b
bit_xor-zero_left b = bit_xor-bitwise 0 b

bit_xor_step : (a b : ℕ) → bit_xor a b ≡ bit_xor (a / 2) (b / 2) * 2 + differ (a % 2) (b % 2)
bit_xor_step zero b =
    omega (arith, bit_xor-zero_left b, bit_xor-zero_left (b / 2), differ-zero_left (b % 2))
bit_xor_step (suc a) b =
    bit_xor-bitwise (suc a) b
    ∙ ap (λ t. t * 2 + differ (suc a % 2) (b % 2))
        (digits_count _ differ a (suc a / 2) (suc a / 2) (b / 2) (omega arith) (omega arith)
          ∙ sym (bit_xor-bitwise (suc a / 2) (b / 2)))

differ_digit : (x y : ℕ) → x < 2 → y < 2 → differ x y < 2
differ_digit zero y hx hy = hy
differ_digit (suc x) zero hx hy = hx
differ_digit (suc zero) (suc y) hx hy = omega arith
differ_digit (suc (suc x)) (suc y) hx hy = absurd (omega arith)

differ-cancel : (x y : ℕ) → x < 2 → y < 2 → differ (differ x y) y ≡ x
differ-cancel zero zero hx hy = refl
differ-cancel zero (suc zero) hx hy = refl
differ-cancel (suc zero) zero hx hy = refl
differ-cancel (suc zero) (suc zero) hx hy = refl
differ-cancel zero (suc (suc y)) hx hy = absurd (omega arith)
differ-cancel (suc zero) (suc (suc y)) hx hy = absurd (omega arith)
differ-cancel (suc (suc x)) y hx hy = absurd (omega arith)

differ_comm : (x y : ℕ) → differ x y ≡ differ y x
differ_comm zero zero = refl
differ_comm zero (suc y) = refl
differ_comm (suc x) zero = refl
differ_comm (suc x) (suc y) = differ_comm x y

bit_xor-half : (a b : ℕ) → bit_xor a b / 2 ≡ bit_xor (a / 2) (b / 2)
bit_xor-half a b =
    omega (arith, bit_xor_step a b, differ_digit (a % 2) (b % 2) (omega arith) (omega arith))

bit_xor-low : (a b : ℕ) → bit_xor a b % 2 ≡ differ (a % 2) (b % 2)
bit_xor-low a b =
    omega (arith, bit_xor_step a b, differ_digit (a % 2) (b % 2) (omega arith) (omega arith))

bit_xor-cancel_bound : (n a b : ℕ) → a ≤ n → b ≤ n → bit_xor (bit_xor a b) b ≡ a
bit_xor-cancel_bound zero a b ha hb =
    let e : a ≡ 0 = omega arith in let f : b ≡ 0 = omega arith in rw (e, f) refl
bit_xor-cancel_bound (suc n) a b ha hb =
    bit_xor_step (bit_xor a b) b
    ∙ rw (bit_xor-half a b, bit_xor-low a b)
        (omega (
          arith,
          bit_xor-cancel_bound n (a / 2) (b / 2) (omega arith) (omega arith),
          differ-cancel (a % 2) (b % 2) (omega arith) (omega arith),
        ))

-- What `^` put in, `^` takes out.
pub bit_xor-cancel : (a b : ℕ) → bit_xor (bit_xor a b) b ≡ a
bit_xor-cancel a b = bit_xor-cancel_bound (a + b) a b (omega arith) (omega arith)

bit_xor_comm_bound : (n a b : ℕ) → a ≤ n → b ≤ n → bit_xor a b ≡ bit_xor b a
bit_xor_comm_bound zero a b ha hb =
    let e : a ≡ 0 = omega arith in let f : b ≡ 0 = omega arith in rw (e, f) refl
bit_xor_comm_bound (suc n) a b ha hb = omega (
  arith,
  bit_xor_step a b,
  bit_xor_step b a,
  bit_xor_comm_bound n (a / 2) (b / 2) (omega arith) (omega arith),
  differ_comm (a % 2) (b % 2),
)

pub bit_xor_comm : (a b : ℕ) → bit_xor a b ≡ bit_xor b a
bit_xor_comm a b = bit_xor_comm_bound (a + b) a b (omega arith) (omega arith)

-- `a ^ NULL` is `a`, on both sides.
pub bit_xor-zero : (a : ℕ) → bit_xor a 0 ≡ a
bit_xor-zero a = bit_xor_comm a 0 ∙ bit_xor-zero_left a

pub zero-bit_xor : (a : ℕ) → bit_xor 0 a ≡ a
zero-bit_xor a = bit_xor-zero_left a
