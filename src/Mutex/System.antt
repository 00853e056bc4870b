-- ===== src/Mutex/System.antt =====
-- src/mutex.c: processes that lock and unlock one mutex, interleaved in any order. The futex calls are
-- the kernel's: FUTEX_WAIT sleeps where the int is 2 and else answers EAGAIN at once, a sleeper is
-- woken by FUTEX_WAKE, which wakes one if there is one, or by a signal. Where `invalid` holds, the
-- kernel may answer EINVAL.
use spead.Base.{ℕ, ◌≡◌, ◌≢◌, Bool, true, ◌==◌, if◌then◌else◌}
use spead.Mutex.{
  Pc, outside, lock_round, lock_swap, lock_wait, asleep, critical, unlock_read, wake_call,
  is_access, advance,
}

pub record System : Type 0 where
  pub mem : ℕ
  pub pc : ℕ → Pc

-- One process goes to another place.
abbrev pub update : (ℕ → Pc) → ℕ → Pc → ℕ → Pc
update pc i p j = if j == i then p else pc j

-- What process `i` does by itself.
pub data Act (invalid : Bool) (i : ℕ) (s : System) : System → Type 0 where
  locks : s.pc i ≡ outside → Act invalid i s (record s { pc = update s.pc i (lock_round 0) })
  unlocks : s.pc i ≡ critical → Act invalid i s (record s { pc = update s.pc i unlock_read })
  access :
      is_access (s.pc i) ≡ true
      → Act invalid i s (record {
        mem = (advance s.mem (s.pc i)).0;
        pc = update s.pc i (advance s.mem (s.pc i)).1;
      })
  sleeps : s.pc i ≡ lock_wait → s.mem ≡ 2 → Act invalid i s (record s { pc = update s.pc i asleep })
  again :
      s.pc i ≡ lock_wait → s.mem ≢ 2 → Act invalid i s (record s { pc = update s.pc i lock_swap })
  wakes :
      (j : ℕ)
      → s.pc i ≡ wake_call
      → s.pc j ≡ asleep
      → Act invalid i s (record s { pc = update (update s.pc i outside) j lock_swap })
  wakes_none :
      s.pc i ≡ wake_call
      → ((j : ℕ) → s.pc j ≢ asleep)
      → Act invalid i s (record s { pc = update s.pc i outside })
  wait_refused :
      invalid ≡ true
      → s.pc i ≡ lock_wait
      → Act invalid i s (record s { pc = update s.pc i critical })
  wake_refused :
      invalid ≡ true
      → s.pc i ≡ wake_call
      → Act invalid i s (record s { pc = update s.pc i outside })

-- A step: what a process does, or a signal that ends its sleep.
pub data Step (invalid : Bool) (s : System) : System → Type 0 where
  acts : (i : ℕ) {t : System} → Act invalid i s t → Step invalid s t
  interrupted :
      (i : ℕ) → s.pc i ≡ asleep → Step invalid s (record s { pc = update s.pc i lock_swap })

-- A mutex that nobody has.
abbrev pub start_system : System
start_system = record { mem = 0; pc = λ i. outside }

pub data Reach (invalid : Bool) : System → Type 0 where
  start : Reach invalid start_system
  later : {s t : System} → Reach invalid s → Step invalid s t → Reach invalid t
