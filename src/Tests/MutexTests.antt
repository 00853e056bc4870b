-- ===== src/Tests/MutexTests.antt =====
-- Two processes at one mutex: the first has it and the second sleeps.
use spead.Base.{ℕ, zero, suc, ◌<◌, ◌≤◌, ◌==◌, arith, ◌≡◌, ◌≢◌, ◌⊎◌, refl, true, false}
use spead.Mutex.{
  Pc, lock_round, lock_swap, asleep, critical, is_access, advance, cmpxchg, xchg, after_round,
  after_swap,
}
use spead.Mutex.System.{
  System, update, Act, locks, access, sleeps, acts, start, later, Reach, start_system,
}
use spead.Mutex.Exclusion.{owns, lock_mutex-excludes}
use spead.Mutex.Wakeup.{stirs, sleeper-has_waker}

-- Process 0 has locked the mutex.
abbrev locked : System
locked = record { mem = 1; pc = update (update start_system.pc 0 (lock_round 0)) 0 critical }

locked-Reach : Reach false locked
unfolding advance is_access cmpxchg after_round
locked-Reach = later (later start (acts 0 (locks refl))) (acts 0 (access refl))

lock_mutex-excludes_example :
    ((i j : ℕ) → owns (locked.pc i) ≡ true → owns (locked.pc j) ≡ true → i ≡ j)
    × (locked.mem ≡ 0 → (i : ℕ) → owns (locked.pc i) ≡ false)
    × (locked.mem ≢ 0 → (locked.mem ≤ 2) × ((i : ℕ) × (owns (locked.pc i) ≡ true)))
lock_mutex-excludes_example = lock_mutex-excludes locked locked-Reach

-- A state that is reached, with the int and the place of process 1.
abbrev Reached : ℕ → Pc → Type 0
Reached m p = (s : System) × Reach false s × (s.mem ≡ m) × (s.pc 1 ≡ p)

-- One access of process 1.
one_access :
    (m : ℕ) (p : Pc) → is_access p ≡ true → Reached m p → Reached (advance m p).0 (advance m p).1
one_access m p a (s, r, mem, at) =
    (_, later r (acts 1 (access (rw at a))), rw (mem, at) refl, rw (mem, at) refl)

-- Process 1 fails in its first rounds.
spins : (k : ℕ) → k < 100 → Reached 1 (lock_round k)
unfolding advance is_access cmpxchg after_round
spins zero h = (_, later locked-Reach (acts 1 (locks refl)), refl, refl)
spins (suc k) h =
    let next = one_access 1 (lock_round k) refl (spins k (omega arith)) in
    let not_last : (suc k == 100) ≡ false = ground arith in rw not_last at (next)

-- It sleeps behind the last of them and the write of 2.
sleeping : Reached 2 asleep
unfolding advance is_access cmpxchg xchg after_round after_swap
sleeping =
    let swapped =
      one_access 1 lock_swap refl (one_access 1 (lock_round 99) refl (spins 99 (omega arith))) in
    (_, later (swapped.1) (acts 1 (sleeps (swapped.3) (swapped.2))), swapped.2, refl)

sleeper-has_waker_example :
    (k : ℕ) × (((sleeping.0.mem ≡ 2) × (owns (sleeping.0.pc k) ≡ true))
      ⊎ (stirs (sleeping.0.pc k) ≡ true))
    × ((t : System) × Act false k sleeping.0 t)
sleeper-has_waker_example = sleeper-has_waker sleeping.0 1 sleeping.1 sleeping.3
