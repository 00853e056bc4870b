-- ===== src/Mutex/Wakeup.antt =====
-- src/mutex.c: no process sleeps for ever because of a lost wake-up.
use spead.Base.{
  ℕ, suc, ◌≤◌, ◌≡◌, ◌≢◌, refl, sym, ap, ◌∙◌, ◌⊎◌, inl, inr, Bool, true, false, ◌==◌, Bool-cases,
  arith,
}
use spead.Mutex.{
  Pc, outside, lock_round, lock_swap, lock_wait, asleep, critical, unlock_read, unlock_store,
  unlock_swap, wake_read, wake_round, wake_call, is_access, advance, cmpxchg, xchg, after_round,
  next_round,
}
use spead.Mutex.System.{
  System, update, Act, locks, unlocks, access, sleeps, again, wakes, wakes_none, wait_refused,
  wake_refused, acts, interrupted, Reach, start, later,
}
use spead.Mutex.Exclusion.{owns, update_same, update_other, Reach-IsExclusive}

-- On the way to write 2 into the int, or to wake a sleeper.
abbrev pub stirs : Pc → Bool
stirs outside = false
stirs (lock_round i) = false
stirs lock_swap = true
stirs lock_wait = true
stirs asleep = false
stirs critical = false
stirs unlock_read = false
stirs unlock_store = false
stirs unlock_swap = false
stirs (wake_read i) = true
stirs (wake_round i) = true
stirs wake_call = true

abbrev pub IsWatched : ℕ → (ℕ → Pc) → Type 0
IsWatched m pc = (m ≡ 2) ⊎ ((k : ℕ) × (stirs (pc k) ≡ true))

-- While a process sleeps, the int is 2 or another process stirs.
abbrev pub NoneLost : ℕ → (ℕ → Pc) → Type 0
NoneLost m pc = (j : ℕ) → pc j ≡ asleep → IsWatched m pc

clash : false ≡ true → ⊥
clash e = cc

-- A process that did not stir, and leaves a 2 as it is.
quiet :
    (m m' : ℕ) (pc : ℕ → Pc) (i : ℕ) (p : Pc)
    → NoneLost m pc
    → stirs (pc i) ≡ false
    → p ≢ asleep
    → (m ≡ 2 → m' ≡ 2)
    → NoneLost m' (update pc i p)
quiet m m' pc i p n still awake full j at = elim (Bool-cases (j == i)) [
  | inl e ↦ let h : j ≡ i = ground arith in absurd (awake (sym (update_same pc i p) ∙ rw h at (at)))
  | inr e ↦ elim (n j (rw e at (at))) [
    | inl two ↦ inl (full two)
    | inr (k, s) ↦
        let apart : k ≢ i = λ h. clash (sym still ∙ ap (λ t. stirs (pc t)) (sym h) ∙ s) in
        inr (k, ap stirs (update_other pc i p k apart) ∙ s)
  ]
]

-- A process that begins to stir.
loud : (m : ℕ) (pc : ℕ → Pc) (i : ℕ) (p : Pc) → stirs p ≡ true → NoneLost m (update pc i p)
loud m pc i p s j at = inr (i, ap stirs (update_same pc i p) ∙ s)

after_round_ne : (k c : ℕ) → after_round k c ≢ asleep
unfolding after_round
after_round_ne k c = elim (Bool-cases (c == 0)) [
  | inl e ↦ rw e (λ h. cc)
  | inr e ↦ elim (Bool-cases (suc k == 100)) [
    | inr more ↦ rw (e, more) (λ h. cc)
    | inl last ↦ elim (Bool-cases (c == 1)) [
      | inl one ↦ rw (e, last, one) (λ h. cc)
      | inr two ↦ rw (e, last, two) (λ h. cc)
    ]
  ]
]

stirs-next_round : (k : ℕ) → stirs (next_round k) ≡ true
unfolding next_round
stirs-next_round k = elim (Bool-cases (suc k == 200)) [
  | inl last ↦ rw last refl
  | inr more ↦ rw more refl
]

access-NoneLost :
    (m : ℕ) (pc : ℕ → Pc) (i : ℕ) (p : Pc)
    → pc i ≡ p
    → NoneLost m pc
    → m ≤ 2
    → is_access p ≡ true
    → NoneLost (advance m p).0 (update pc i (advance m p).1)
unfolding advance cmpxchg xchg is_access
access-NoneLost m pc i outside at n low a = absurd (cc a)
access-NoneLost m pc i lock_wait at n low a = absurd (cc a)
access-NoneLost m pc i asleep at n low a = absurd (cc a)
access-NoneLost m pc i critical at n low a = absurd (cc a)
access-NoneLost m pc i wake_call at n low a = absurd (cc a)
access-NoneLost m pc i (lock_round k) at n low a =
    quiet m _ pc i (after_round k m) n (rw at refl) (after_round_ne k m) (λ two. rw two refl)
access-NoneLost m pc i lock_swap at n low a = λ j h. inl refl
access-NoneLost m pc i unlock_read at n low a = elim (Bool-cases (m == 2)) [
  | inl e ↦ rw e (quiet m m pc i unlock_store n (rw at refl) (λ h. cc) (λ two. two))
  | inr e ↦ rw e (quiet m m pc i unlock_swap n (rw at refl) (λ h. cc) (λ two. two))
]
access-NoneLost m pc i unlock_store at n low a = loud 0 pc i (wake_read 0) refl
access-NoneLost m pc i unlock_swap at n low a = elim (Bool-cases (m == 1)) [
  | inl e ↦ rw e (quiet m 0 pc i outside n (rw at refl) (λ h. cc) (λ two. absurd (ground arith)))
  | inr e ↦ rw e (loud 0 pc i (wake_read 0) refl)
]
access-NoneLost m pc i (wake_read k) at n low a = elim (Bool-cases (m == 0)) [
  | inl e ↦ rw e (loud m pc i (next_round k) (stirs-next_round k))
  | inr e ↦ rw e (loud m pc i (wake_round k) refl)
]
access-NoneLost m pc i (wake_round k) at n low a = elim (Bool-cases (m == 0)) [
  | inl e ↦ let z : m ≡ 0 = ground arith in rw z (loud 0 pc i (next_round k) (stirs-next_round k))
  | inr e ↦ λ j h. inl (ground (arith, low))
]

Act-NoneLost :
    (i : ℕ) (s t : System) → NoneLost s.mem s.pc → s.mem ≤ 2 → Act false i s t → NoneLost t.mem t.pc
Act-NoneLost i s _ n low (locks at) =
    quiet s.mem s.mem s.pc i (lock_round 0) n (rw at refl) (λ h. cc) (λ two. two)
Act-NoneLost i s _ n low (unlocks at) =
    quiet s.mem s.mem s.pc i unlock_read n (rw at refl) (λ h. cc) (λ two. two)
Act-NoneLost i s _ n low (access a) = access-NoneLost s.mem s.pc i (s.pc i) refl n low a
Act-NoneLost i s _ n low (sleeps at full) = λ j h. inl full
Act-NoneLost i s _ n low (again at other) = loud s.mem s.pc i lock_swap refl
Act-NoneLost i s _ n low (wakes j at sleeper) = loud s.mem (update s.pc i outside) j lock_swap refl
Act-NoneLost i s _ n low (wakes_none at none_asleep) = λ j h. elim (Bool-cases (j == i)) [
  | inl e ↦
      let same : j ≡ i = ground arith in
      absurd (outside_ne (sym (update_same s.pc i outside) ∙ rw same at (h)))
  | inr e ↦ absurd (none_asleep j (rw e at (h)))
]
  where
    outside_ne : outside ≡ asleep → ⊥
    outside_ne e = cc
Act-NoneLost i s _ n low (wait_refused e at) = absurd (cc e)
Act-NoneLost i s _ n low (wake_refused e at) = absurd (cc e)

Reach-NoneLost : (s : System) → Reach false s → NoneLost s.mem s.pc
Reach-NoneLost _ start = λ j at. absurd (cc at)
Reach-NoneLost _ (later {s = s} r (acts i a)) =
    Act-NoneLost i s _ (Reach-NoneLost s r) (Reach-IsExclusive s r).low a
Reach-NoneLost _ (later {s = s} r (interrupted i at)) = loud s.mem s.pc i lock_swap refl

-- A process that is inside the mutex or stirs can go on, where one sleeps.
can-Act :
    (s : System) (i k : ℕ) (p : Pc)
    → s.pc k ≡ p
    → s.pc i ≡ asleep
    → (owns p ≡ true) ⊎ (stirs p ≡ true)
    → (t : System) × Act false k s t
unfolding is_access
can-Act s i k outside at sleeper h = elim h [ inl e ↦ absurd (cc e) | inr e ↦ absurd (cc e) ]
can-Act s i k (lock_round j) at sleeper h = (_, access (rw at refl))
can-Act s i k lock_swap at sleeper h = (_, access (rw at refl))
can-Act s i k lock_wait at sleeper h = elim (Bool-cases (s.mem == 2)) [
  | inl e ↦ (_, sleeps at (ground arith))
  | inr e ↦ (_, again at (λ two. absurd (ground arith)))
]
can-Act s i k asleep at sleeper h = elim h [ inl e ↦ absurd (cc e) | inr e ↦ absurd (cc e) ]
can-Act s i k critical at sleeper h = (_, unlocks at)
can-Act s i k unlock_read at sleeper h = (_, access (rw at refl))
can-Act s i k unlock_store at sleeper h = (_, access (rw at refl))
can-Act s i k unlock_swap at sleeper h = (_, access (rw at refl))
can-Act s i k (wake_read j) at sleeper h = (_, access (rw at refl))
can-Act s i k (wake_round j) at sleeper h = (_, access (rw at refl))
can-Act s i k wake_call at sleeper h = (_, wakes i at sleeper)

-- In every state that processes reach which lock and unlock a mutex in any order, with a kernel that
-- does not answer EINVAL, where a process sleeps in FUTEX_WAIT, there is another process that can go on
-- without a signal: it is inside the mutex and the int is 2, so that its `unlock_mutex` goes on to the
-- wake-up, or it is already on its way to the `xchg` that writes 2 or to FUTEX_WAKE.
pub sleeper-has_waker :
    (s : System) (i : ℕ)
    → Reach false s
    → s.pc i ≡ asleep
    → (k : ℕ) × (((s.mem ≡ 2) × (owns (s.pc k) ≡ true)) ⊎ (stirs (s.pc k) ≡ true))
      × ((t : System) × Act false k s t)
sleeper-has_waker s i r at = elim (Reach-NoneLost s r i at) [
  | inl two ↦
      let (k, o) = (Reach-IsExclusive s r).held (λ z. absurd (omega arith)) in
      (k, inl (two, o), can-Act s i k (s.pc k) refl at (inl o))
  | inr (k, h) ↦ (k, inr h, can-Act s i k (s.pc k) refl at (inr h))
]
