-- ===== src/LockTable/Exclusion/Safety.antt =====
-- What the locks guarantee to threads that call them in any interleaving.
use nerv_fs.Base.{
  ℕ, ◌≤◌, ◌<◌, ◌≡◌, ◌+◌, refl, sym, subst, ◌≢◌, arith, Bytes, length, assign, weight-le-tally,
  weights-le-tally, str_eq_refl, some,
}
use nerv_fs.LockTable.{Table, Attempt, entered, waits, unlocked}
use nerv_fs.LockTable.Refinement.{
  Held, view, Implements, spec_acquire_read, acquire_read-Implements,
}
use nerv_fs.LockTable.Exclusion.{
  Thread, idle, waiting_write, writing, reading, Move, start_read, System, Step, step, Reach,
}
use nerv_fs.LockTable.Exclusion.Invariant.{Inv, holds_write, holds_read, Reach-Inv, name_of}

-- While one thread is between `fileops_lock_acquire_write` and the release of a name, no other
-- thread is between acquire and release of that name, neither as a writer nor as a reader, in any
-- interleaving of threads with names of at most 255 bytes whose table entries `malloc` grants.
pub mutual_exclusion :
    {n : ℕ} {s : System} (r : Reach n s) (i j : ℕ) (name : Bytes)
    → i < n
    → j < n
    → i ≢ j
    → s.threads i ≡ writing name
    → (s.threads j ≢ writing name) × (s.threads j ≢ reading name)
mutual_exclusion {n} {s} r i j name li lj apart wi =
    (λ wj. absurd (two_writers wj), λ rj. absurd (both rj))
  where
    inv : Inv n s
    inv = Reach-Inv r

    own : holds_write name (s.threads i) ≡ 1
    own = rw (wi, str_eq_refl name)

    two_writers : s.threads j ≡ writing name → ⊥
    two_writers wj =
        let other : holds_write name (s.threads j) ≡ 1 = rw (wj, str_eq_refl name) in
        ground (
          arith,
          own,
          other,
          inv.writers name,
          inv.exclusive name,
          weights-le-tally (holds_write name) n s.threads i j,
          weights-le-tally (holds_write name) n s.threads j i,
        )

    both : s.threads j ≡ reading name → ⊥
    both rj =
        let other : holds_read name (s.threads j) ≡ 1 = rw (rj, str_eq_refl name) in
        ground (
          arith,
          own,
          other,
          inv.writers name,
          inv.readers name,
          inv.exclusive name,
          weight-le-tally (holds_write name) n s.threads i li,
          weight-le-tally (holds_read name) n s.threads j lj,
        )

named_short :
    {n : ℕ} {s : System} {i : ℕ} {p : Thread} → Inv n s → s.threads i ≡ p → length (name_of p) ≤ 255
named_short {i} inv e = subst (λ p. length (name_of p) ≤ 255) e (inv.short i)

Implements-some :
    (t : Table) (name : Bytes) (v : Held) (a : Attempt)
    → Implements t name (some v) a
    → (t' : Table) × (a ≡ entered t')
Implements-some t name v (entered t') h = (t', refl)
Implements-some t name v (waits t') h = absurd h
Implements-some t name v (unlocked t') h = absurd h

-- A writer that sleeps does not hold readers up: whenever no writer has the lock, a thread that asks
-- to read can get it at once, and the sleeper stays asleep.
pub reader_passes_waiting_writer :
    {n : ℕ} {s : System} (r : Reach n s) (i j : ℕ) (name : Bytes)
    → j < n
    → s.threads i ≡ waiting_write name
    → s.threads j ≡ idle
    → (view s.table name).writers ≡ 0
    → (u : System) × Step n s u × (u.threads j ≡ reading name) × (u.threads i ≡ waiting_write name)
reader_passes_waiting_writer {n} {s} r i j name lj wait is_idle free =
    let apart : j ≢ i =
      λ same. ground (arith, subst (λ k. s.threads k ≡ waiting_write name) (sym same) wait) in
    let short = named_short (Reach-Inv r) wait in
    let open_lock : spec_acquire_read (view s.table name)
        ≡ some (record (view s.table name) { readers = (view s.table name).readers + 1 }) =
      ground arith in
    let (t', e) =
      Implements-some s.table name
        (record (view s.table name) { readers = (view s.table name).readers + 1 }) _
        (rw open_lock at (acquire_read-Implements name s.table short)) in
    (
      record { table = t'; threads = assign s.threads j (reading name) },
      step j lj (subst (λ p. Move s.table p t' (reading name)) (sym is_idle) (start_read short e)),
      ground arith,
      ground arith,
    )
