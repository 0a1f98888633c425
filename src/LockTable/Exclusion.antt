-- ===== src/LockTable/Exclusion.antt =====
-- Threads that call the lock functions in any order: who can hold a lock at the same time.
mod Invariant
pub mod Safety
use nerv_fs.Base.{ℕ, ◌≤◌, ◌<◌, ◌≡◌, refl, ◌⊎◌, ◌≢◌, List, [], Bytes, length, assign, true}
use nerv_fs.LockTable.{
  Table, Attempt, entered, waits, acquire_write, release_write, acquire_read, release_read,
}

-- A thread between two calls, or asleep in one, or between `acquire` and `release` of a name.
pub data Thread : Type 0 where
  idle : Thread
  waiting_write : (name : Bytes) → Thread
  writing : (name : Bytes) → Thread
  waiting_read : (name : Bytes) → Thread
  reading : (name : Bytes) → Thread

-- What one thread does under the mutex. A sleeper wakes at any time: a broadcast or a spurious
-- wake-up makes it test its condition again. Names are those that `safe_resolve_path` accepts, and
-- `malloc` grants an entry.
pub data Move (t : Table) : Thread → Table → Thread → Type 0 where
  start_write :
      {name : Bytes} {t' : Table}
      → length name ≤ 255
      → acquire_write true name t ≡ entered t'
      → Move t idle t' (writing name)
  sleep_write :
      {name : Bytes} {t' : Table}
      → length name ≤ 255
      → acquire_write true name t ≡ waits t'
      → Move t idle t' (waiting_write name)
  wake_write :
      {name : Bytes} {t' : Table}
      → acquire_write true name t ≡ entered t'
      → Move t (waiting_write name) t' (writing name)
  again_write :
      {name : Bytes} {t' : Table}
      → acquire_write true name t ≡ waits t'
      → Move t (waiting_write name) t' (waiting_write name)
  end_write : {name : Bytes} → Move t (writing name) (release_write true name t) idle
  start_read :
      {name : Bytes} {t' : Table}
      → length name ≤ 255
      → acquire_read true name t ≡ entered t'
      → Move t idle t' (reading name)
  sleep_read :
      {name : Bytes} {t' : Table}
      → length name ≤ 255
      → acquire_read true name t ≡ waits t'
      → Move t idle t' (waiting_read name)
  wake_read :
      {name : Bytes} {t' : Table}
      → acquire_read true name t ≡ entered t'
      → Move t (waiting_read name) t' (reading name)
  again_read :
      {name : Bytes} {t' : Table}
      → acquire_read true name t ≡ waits t'
      → Move t (waiting_read name) t' (waiting_read name)
  end_read : {name : Bytes} → Move t (reading name) (release_read true name t) idle

pub record System : Type 0 where
  pub table : Table
  pub threads : ℕ → Thread

-- At the start the table is empty and no thread has called.
abbrev pub start_system : System
start_system = record { table = []; threads = λ _. idle }

-- One of `n` threads moves.
pub data Step (n : ℕ) (s : System) : System → Type 0 where
  step :
      (i : ℕ) {t' : Table} {th : Thread}
      → i < n
      → Move s.table (s.threads i) t' th
      → Step n s (record { table = t'; threads = assign s.threads i th })

pub data Reach (n : ℕ) : System → Type 0 where
  here : Reach n start_system
  next : {s u : System} → Reach n s → Step n s u → Reach n u
