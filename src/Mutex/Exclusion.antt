-- ===== src/Mutex/Exclusion.antt =====
-- src/mutex.c: at most one process has the mutex.
use spead.Base.{
  ℕ, suc, ◌≤◌, ◌≡◌, ◌≢◌, refl, sym, ap, ◌∙◌, inl, inr, Bool, true, false, ◌==◌, Bool-cases, arith,
}
use spead.Mutex.{
  Pc, outside, lock_round, lock_swap, lock_wait, asleep, critical, unlock_read, unlock_store,
  unlock_swap, wake_read, wake_round, wake_call, is_access, advance, cmpxchg, xchg, after_round,
  after_swap, next_round,
}
use spead.Mutex.System.{
  System, update, Act, locks, unlocks, access, sleeps, again, wakes, wakes_none, wait_refused,
  wake_refused, acts, interrupted, Reach, start, later,
}

-- From the return of `lock_mutex` to the write of 0 in `unlock_mutex`.
abbrev pub owns : Pc → Bool
owns outside = false
owns (lock_round i) = false
owns lock_swap = false
owns lock_wait = false
owns asleep = false
owns critical = true
owns unlock_read = true
owns unlock_store = true
owns unlock_swap = true
owns (wake_read i) = false
owns (wake_round i) = false
owns wake_call = false

-- The int is 0 where nobody has the mutex, and one process has it else.
pub record IsExclusive (m : ℕ) (pc : ℕ → Pc) : Type 0 where
  pub low : m ≤ 2
  pub unique : (i j : ℕ) → owns (pc i) ≡ true → owns (pc j) ≡ true → i ≡ j
  pub free : m ≡ 0 → (i : ℕ) → owns (pc i) ≡ false
  pub held : m ≢ 0 → (i : ℕ) × (owns (pc i) ≡ true)

pub update_same : (pc : ℕ → Pc) (i : ℕ) (p : Pc) → update pc i p i ≡ p
update_same pc i p = let e : (i == i) ≡ true = ground arith in rw e

pub update_other : (pc : ℕ → Pc) (i : ℕ) (p : Pc) (j : ℕ) → j ≢ i → update pc i p j ≡ pc j
update_other pc i p j h = let e : (j == i) ≡ false = ground arith in rw e

-- A process that moves without a change of who has the mutex.
keeps :
    (m m' : ℕ) (pc : ℕ → Pc) (i : ℕ) (p : Pc)
    → IsExclusive m pc
    → owns p ≡ owns (pc i)
    → m' ≤ 2
    → (m ≡ 0 → m' ≡ 0)
    → (m' ≡ 0 → m ≡ 0)
    → IsExclusive m' (update pc i p)
keeps m m' pc i p x same low zero_on zero_back =
    let view : (j : ℕ) → owns (update pc i p j) ≡ owns (pc j) = λ j. elim (Bool-cases (j == i)) [
      | inl e ↦ let h : j ≡ i = ground arith in rw (h, update_same pc i p, same)
      | inr e ↦ rw e
    ] in
    record {
      low = low;
      unique = λ j k a b. x.unique j k (sym (view j) ∙ a) (sym (view k) ∙ b);
      free = λ e j. view j ∙ x.free (zero_back e) j;
      held = λ e. let (j, a) = x.held (λ z. e (zero_on z)) in (j, view j ∙ a);
    }

-- A process that takes the mutex.
takes :
    (m m' : ℕ) (pc : ℕ → Pc) (i : ℕ) (p : Pc)
    → IsExclusive m pc
    → m ≡ 0
    → owns p ≡ true
    → m' ≤ 2
    → m' ≢ 0
    → IsExclusive m' (update pc i p)
takes m m' pc i p x zero_before o low some_after =
    let only : (j : ℕ) → owns (update pc i p j) ≡ true → j ≡ i = λ j a. elim (Bool-cases (j == i)) [
      | inl e ↦ ground arith
      | inr e ↦ absurd (cc (x.free zero_before j, rw e at (a)))
    ] in
    record {
      low = low;
      unique = λ j k a b. only j a ∙ sym (only k b);
      free = λ e. absurd (some_after e);
      held = λ e. (i, ap owns (update_same pc i p) ∙ o);
    }

-- A process that gives it back.
gives :
    (m : ℕ) (pc : ℕ → Pc) (i : ℕ) (p : Pc)
    → IsExclusive m pc
    → owns (pc i) ≡ true
    → owns p ≡ false
    → IsExclusive 0 (update pc i p)
gives m pc i p x o none_now =
    let none_left : (j : ℕ) → owns (update pc i p j) ≡ false = λ j. elim (Bool-cases (j == i)) [
      | inl e ↦ rw (e, none_now)
      | inr e ↦ elim (Bool-cases (owns (pc j))) [
        | inl b ↦ let h = x.unique j i b o in absurd (ground arith)
        | inr b ↦ rw (e, b)
      ]
    ] in
    record {
      low = omega arith;
      unique = λ j k a b. absurd (cc (none_left j));
      free = λ e. none_left;
      held = λ e. absurd (e refl);
    }

pub owns-after_round : (k c : ℕ) → (c == 0) ≡ false → owns (after_round k c) ≡ false
unfolding after_round
owns-after_round k c h = elim (Bool-cases (suc k == 100)) [
  | inr more ↦ rw (h, more) refl
  | inl last ↦ elim (Bool-cases (c == 1)) [
    | inl e ↦ rw (h, last, e) refl
    | inr e ↦ rw (h, last, e) refl
  ]
]

owns-next_round : (k : ℕ) → owns (next_round k) ≡ false
unfolding next_round
owns-next_round k = elim (Bool-cases (suc k == 200)) [
  | inl last ↦ rw last refl
  | inr more ↦ rw more refl
]

-- One access.
accesses :
    (m : ℕ) (pc : ℕ → Pc) (i : ℕ) (p : Pc)
    → pc i ≡ p
    → IsExclusive m pc
    → is_access p ≡ true
    → IsExclusive (advance m p).0 (update pc i (advance m p).1)
unfolding advance cmpxchg xchg after_swap is_access
accesses m pc i outside at x a = absurd (cc a)
accesses m pc i lock_wait at x a = absurd (cc a)
accesses m pc i asleep at x a = absurd (cc a)
accesses m pc i critical at x a = absurd (cc a)
accesses m pc i wake_call at x a = absurd (cc a)
accesses m pc i (lock_round k) at x a = elim (Bool-cases (m == 0)) [
  | inl e ↦
      let z : m ≡ 0 = ground arith in
      rw z (
        takes m 1 pc i _ x z (unfold after_round in refl) (omega arith) (λ h. absurd (omega arith)))
  | inr e ↦
      let kept =
        keeps m m pc i (after_round k m) x (rw at (owns-after_round k m e)) x.low (λ h. h)
          (λ h. h) in
      rw e (unfold after_round in rw e at (kept))
]
accesses m pc i lock_swap at x a = elim (Bool-cases (m == 0)) [
  | inl e ↦
      let z : m ≡ 0 = ground arith in
      rw e (takes m 2 pc i critical x z refl (omega arith) (λ h. absurd (omega arith)))
  | inr e ↦ rw e (
      keeps m 2 pc i lock_wait x (rw at refl) (omega arith) (λ h. absurd (ground arith))
        (λ h. absurd (omega arith)))
]
accesses m pc i unlock_read at x a = elim (Bool-cases (m == 2)) [
  | inl e ↦ rw e (keeps m m pc i unlock_store x (rw at refl) x.low (λ h. h) (λ h. h))
  | inr e ↦ rw e (keeps m m pc i unlock_swap x (rw at refl) x.low (λ h. h) (λ h. h))
]
accesses m pc i unlock_store at x a = gives m pc i (wake_read 0) x (rw at refl) refl
accesses m pc i unlock_swap at x a = elim (Bool-cases (m == 1)) [
  | inl e ↦ rw e (gives m pc i outside x (rw at refl) refl)
  | inr e ↦ rw e (gives m pc i (wake_read 0) x (rw at refl) refl)
]
accesses m pc i (wake_read k) at x a = elim (Bool-cases (m == 0)) [
  | inl e ↦
      rw e (keeps m m pc i (next_round k) x (rw at (owns-next_round k)) x.low (λ h. h) (λ h. h))
  | inr e ↦ rw e (keeps m m pc i (wake_round k) x (rw at refl) x.low (λ h. h) (λ h. h))
]
accesses m pc i (wake_round k) at x a = elim (Bool-cases (m == 0)) [
  | inl e ↦
      let z : m ≡ 0 = ground arith in
      rw z (
        rw⁻¹ z
          (keeps m m pc i (next_round k) x (rw at (owns-next_round k)) x.low (λ h. h) (λ h. h)))
  | inr e ↦ elim (Bool-cases (m == 1)) [
    | inl one ↦
        rw (e, one)
          (keeps m 2 pc i outside x (rw at refl) (omega arith) (λ h. absurd (ground arith))
            (λ h. absurd (omega arith)))
    | inr two ↦ rw (e, two) (keeps m m pc i outside x (rw at refl) x.low (λ h. h) (λ h. h))
  ]
]

-- A process that moves outside of the mutex, or inside it, without an access.
moves :
    (m : ℕ) (pc : ℕ → Pc) (i : ℕ) (p q : Pc)
    → IsExclusive m pc
    → pc i ≡ p
    → owns q ≡ owns p
    → IsExclusive m (update pc i q)
moves m pc i p q x at same = keeps m m pc i q x (same ∙ sym (ap owns at)) x.low (λ h. h) (λ h. h)

Act-IsExclusive :
    (i : ℕ) (s t : System) → IsExclusive s.mem s.pc → Act false i s t → IsExclusive t.mem t.pc
Act-IsExclusive i s _ x (locks at) = moves s.mem s.pc i outside (lock_round 0) x at refl
Act-IsExclusive i s _ x (unlocks at) = moves s.mem s.pc i critical unlock_read x at refl
Act-IsExclusive i s _ x (access a) = accesses s.mem s.pc i (s.pc i) refl x a
Act-IsExclusive i s _ x (sleeps at full) = moves s.mem s.pc i lock_wait asleep x at refl
Act-IsExclusive i s _ x (again at other) = moves s.mem s.pc i lock_wait lock_swap x at refl
Act-IsExclusive i s _ x (wakes j at sleeper) =
    let first = moves s.mem s.pc i wake_call outside x at refl in
    let apart : j ≢ i = λ e. asleep_ne_wake (sym sleeper ∙ ap s.pc e ∙ at) in
    moves s.mem (update s.pc i outside) j asleep lock_swap first
      (update_other s.pc i outside j apart ∙ sleeper) refl
  where
    asleep_ne_wake : asleep ≡ wake_call → ⊥
    asleep_ne_wake e = cc
Act-IsExclusive i s _ x (wakes_none at none_asleep) = moves s.mem s.pc i wake_call outside x at refl
Act-IsExclusive i s _ x (wait_refused e at) = absurd (cc e)
Act-IsExclusive i s _ x (wake_refused e at) = absurd (cc e)

pub Reach-IsExclusive : (s : System) → Reach false s → IsExclusive s.mem s.pc
Reach-IsExclusive _ start = record {
  low = omega arith;
  unique = λ i j a b. absurd (cc a);
  free = λ e i. refl;
  held = λ h. absurd (h refl);
}
Reach-IsExclusive _ (later {s = s} r (acts i a)) = Act-IsExclusive i s _ (Reach-IsExclusive s r) a
Reach-IsExclusive _ (later {s = s} r (interrupted i at)) =
    moves s.mem s.pc i asleep lock_swap (Reach-IsExclusive s r) at refl

-- In every state that processes reach which lock and unlock a mutex in any order, with a kernel that
-- does not answer EINVAL, no two processes are between the return of `lock_mutex` and the write of 0
-- in `unlock_mutex`; the int is 0 where no process is, and it is 1 or 2 where one is.
pub lock_mutex-excludes :
    (s : System)
    → Reach false s
    → ((i j : ℕ) → owns (s.pc i) ≡ true → owns (s.pc j) ≡ true → i ≡ j)
      × (s.mem ≡ 0 → (i : ℕ) → owns (s.pc i) ≡ false)
      × (s.mem ≢ 0 → (s.mem ≤ 2) × ((i : ℕ) × (owns (s.pc i) ≡ true)))
lock_mutex-excludes s r =
    let x = Reach-IsExclusive s r in (x.unique, x.free, λ h. (x.low, x.held h))
