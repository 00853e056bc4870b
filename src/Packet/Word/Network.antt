-- ===== src/Packet/Word/Network.antt =====
-- src/spead_packet.h: `SPEAD_ITEM` and `SPEAD_SET_ITEM` as a store and a load of words in network
-- order.
use spead.Base.{
  ℕ, zero, suc, ◌+◌, ◌-◌, ◌*◌, ◌/◌, ◌%◌, ◌^◌, ◌≤◌, ◌<◌, ◌≡◌, refl, sym, ap, ◌∙◌, ◌≢◌, ◌⊎◌, inl, inr,
  some, List, ◌++◌, length, take, drop, arith, length-take,
}
use native.Mathlib.Nat.{mod-lt, mod-eq_of_lt, div-add-mod, mul-add-mod_self_left, pow-suc}
use spead.Base.Slices.{
  take-append_exact, range-append_left, drop-append_right, range-take, drop-drop,
}
use spead.Packet.Word.{from_network, to_network, spead_item, set_item}

digit_bound : (p q s r : ℕ) → s < q → r < p → s * p + r < p * q
digit_bound p q s r h k = grind arith

mod_split : (p q a : ℕ) → 0 < p → 0 < q → a % (p * q) ≡ a / p % q * p + a % p
mod_split p q a hp hq =
    let t = a / p / q in
    let r = a / p % q * p + a % p in
    let small : r < p * q = digit_bound p q (a / p % q) (a % p) (mod-lt (a / p) hq) (mod-lt a hp) in
    let split : a ≡ p * q * t + r =
      omega (arith, div-add-mod a p, ap (λ s. p * s) (div-add-mod (a / p) q)) in
    ap (λ s. s % (p * q)) split ∙ mul-add-mod_self_left (p * q) t r ∙ mod-eq_of_lt small

base_pow_pos : (k : ℕ) → 0 < 256 ^ k
base_pow_pos zero = omega arith
base_pow_pos (suc k) = omega (arith, pow-suc 256 k, base_pow_pos k)

pub length-to_network : (k x : ℕ) → length (to_network k x) ≡ k
unfolding to_network
length-to_network zero x = refl
length-to_network (suc k) x = ap suc (length-to_network k x)

shift_digit : (acc d p r : ℕ) → (acc * 256 + d) * p + r ≡ acc * (p * 256) + (d * p + r)
shift_digit acc d p r = grind arith

-- Reading the `k` bytes of `x` in network order, after `acc`.
pub from_network-to_network :
    (k acc x : ℕ) → from_network acc (to_network k x) ≡ acc * 256 ^ k + x % 256 ^ k
unfolding from_network to_network
from_network-to_network zero acc x = omega arith
from_network-to_network (suc k) acc x =
    from_network-to_network k (acc * 256 + x / 256 ^ k % 256) x
    ∙ shift_digit acc (x / 256 ^ k % 256) (256 ^ k) (x % 256 ^ k)
    ∙ rw (pow-suc 256 k) (
        ap (λ t. acc * (256 ^ k * 256) + t)
          (sym (mod_split (256 ^ k) 256 x (base_pow_pos k) (omega arith))))

lt-or-gt : (m n : ℕ) → m ≢ n → (m < n) ⊎ (n < m)
lt-or-gt m n h = omega arith

-- The word of index `m` is where the source's macros take it from.
abbrev word_at : List ℕ → ℕ → List ℕ
word_at bytes m = take 8 (drop (m * 8) bytes)

module _ (bytes : List ℕ) (n x : ℕ) (room : n * 8 + 8 ≤ length bytes) where
  front : length (take (n * 8) bytes) ≡ n * 8
  front = omega (arith, length-take (n * 8) bytes)

  word_at-set_self : word_at (set_item bytes n x) n ≡ to_network 8 x
  unfolding set_item
  word_at-set_self =
      let rest = drop (n * 8 + 8) bytes in
      let start : n * 8 - length (take (n * 8) bytes) ≡ 0 = omega (arith, front) in
      rw
        (
          drop-append_right (take (n * 8) bytes) (to_network 8 x ++ rest) (n * 8)
              (omega (arith, front)),
          start,
        )
        (ap (λ t. take t (to_network 8 x ++ rest)) (sym (length-to_network 8 x))
          ∙ take-append_exact (to_network 8 x) rest)

  word_at-set_before : (m : ℕ) → m < n → word_at (set_item bytes n x) m ≡ word_at bytes m
  unfolding set_item
  word_at-set_before m h =
      range-append_left (take (n * 8) bytes) (to_network 8 x ++ drop (n * 8 + 8) bytes) (m * 8) 8
        (omega (arith, front))
      ∙ range-take bytes (m * 8) (n * 8) 8 (omega arith)

  word_at-set_after : (m : ℕ) → n < m → word_at (set_item bytes n x) m ≡ word_at bytes m
  unfolding set_item
  word_at-set_after m h =
      let rest = drop (n * 8 + 8) bytes in
      ap (take 8) (
        drop-append_right (take (n * 8) bytes) (to_network 8 x ++ rest) (m * 8)
          (omega (arith, front))
        ∙ drop-append_right (to_network 8 x) rest (m * 8 - length (take (n * 8) bytes))
            (omega (arith, front, length-to_network 8 x))
        ∙ drop-drop bytes (m * 8 - length (take (n * 8) bytes) - length (to_network 8 x))
            (n * 8 + 8)
        ∙ ap (λ t. drop t bytes) (omega (arith, front, length-to_network 8 x)))

  -- A word stored in the array is read back modulo 2 ^ 64.
  pub item-set_self : spead_item (set_item bytes n x) n ≡ some (x % 2 ^ 64)
  unfolding spead_item
  item-set_self =
      rw (word_at-set_self, length-to_network 8 x)
        (ap some (from_network-to_network 8 0 x ∙ omega arith))

  -- Every other word of the array stays as it was.
  pub item-set_ne : (m : ℕ) → m ≢ n → spead_item (set_item bytes n x) m ≡ spead_item bytes m
  unfolding spead_item
  item-set_ne m h = elim (lt-or-gt m n h) [
    | inl before ↦ rw (word_at-set_before m before)
    | inr after ↦ rw (word_at-set_after m after)
  ]
