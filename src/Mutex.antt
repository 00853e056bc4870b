-- ===== src/Mutex.antt =====
-- src/mutex.c and src/mutex.h: a mutex of one int in shared memory, with the instructions that the
-- processes execute on it. A process is at one of the places of `Pc`; `advance` is what it does there
-- in one atomic access to the int.
pub mod System
pub mod Exclusion
pub mod Wakeup
use spead.Base.{ℕ, suc, Bool, true, false, ◌==◌, if◌then◌else◌}

-- `cmpxchg` and `xchg`: the result, and the int afterwards.
unfoldable pub cmpxchg : ℕ → ℕ → ℕ → ℕ × ℕ
cmpxchg m old new = (m, if m == old then new else m)

unfoldable pub xchg : ℕ → ℕ → ℕ × ℕ
xchg m x = (m, x)

-- The rounds of the two `for`.
abbrev pub lock_rounds : ℕ
lock_rounds = 100

abbrev pub unlock_rounds : ℕ
unlock_rounds = 200

-- Outside; in `lock_mutex` at the `cmpxchg` of a round, at the `xchg` (the first one and those of the
-- `while`), at the call of FUTEX_WAIT, and asleep in it; behind `lock_mutex`; in `unlock_mutex` at the
-- first read, at the write of 0, at the `xchg`, at the read and the `cmpxchg` of a round, and at the
-- call of FUTEX_WAKE.
pub data Pc : Type 0 where
  outside : Pc
  lock_round : ℕ → Pc
  lock_swap : Pc
  lock_wait : Pc
  asleep : Pc
  critical : Pc
  unlock_read : Pc
  unlock_store : Pc
  unlock_swap : Pc
  wake_read : ℕ → Pc
  wake_round : ℕ → Pc
  wake_call : Pc

-- Where `lock_mutex` goes on behind the `cmpxchg` of round `i` and its result `c`.
unfoldable pub after_round : ℕ → ℕ → Pc
after_round i c =
    if c == 0
    then critical
    else if suc i == lock_rounds
    then (if c == 1 then lock_swap else lock_wait)
    else lock_round (suc i)

-- The test of the `while` on the result of the `xchg`.
unfoldable pub after_swap : ℕ → Pc
after_swap c = if c == 0 then critical else lock_wait

-- The end of a round of `unlock_mutex`.
unfoldable pub next_round : ℕ → Pc
next_round i = if suc i == unlock_rounds then wake_call else wake_read (suc i)

-- The places at which a process reads or writes the int.
unfoldable pub is_access : Pc → Bool
is_access outside = false
is_access (lock_round i) = true
is_access lock_swap = true
is_access lock_wait = false
is_access asleep = false
is_access critical = false
is_access unlock_read = true
is_access unlock_store = true
is_access unlock_swap = true
is_access (wake_read i) = true
is_access (wake_round i) = true
is_access wake_call = false

-- The access: the int afterwards, and the next place.
unfoldable pub advance : ℕ → Pc → ℕ × Pc
unfolding cmpxchg xchg after_round after_swap next_round
advance m (lock_round i) = ((cmpxchg m 0 1).1, after_round i (cmpxchg m 0 1).0)
advance m lock_swap = ((xchg m 2).1, after_swap (xchg m 2).0)
advance m unlock_read = (m, if m == 2 then unlock_store else unlock_swap)
advance m unlock_store = (0, wake_read 0)
advance m unlock_swap = ((xchg m 0).1, if (xchg m 0).0 == 1 then outside else wake_read 0)
advance m (wake_read i) = (m, if m == 0 then next_round i else wake_round i)
advance m (wake_round i) =
    ((cmpxchg m 1 2).1, if (cmpxchg m 1 2).0 == 0 then next_round i else outside)
advance m outside = (m, outside)
advance m lock_wait = (m, lock_wait)
advance m asleep = (m, asleep)
advance m critical = (m, critical)
advance m wake_call = (m, wake_call)
