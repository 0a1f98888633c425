-- ===== src/Tests/Locks.antt =====
-- The lock table at concrete inputs.
use nerv_fs.Base.{ℕ, ◌≡◌, refl, ◌≢◌, true, [], ◌∷◌, arith, Bytes, assign, str_eq, ℕ_discrete}
use nerv_fs.FileOps.Resolve.{codes}
use nerv_fs.LockTable.{Table, find, acquire_write, release_write, acquire_read, release_read}
use nerv_fs.LockTable.Refinement.{
  Implements, view, update, spec_acquire_write, spec_acquire_read, spec_release_write,
  spec_release_read, lock_calls-Implement,
}
use nerv_fs.LockTable.Exclusion.{
  writing, reading, waiting_write, start_write, sleep_write, start_read, System, start_system, Step,
  step, Reach, here, next,
}
use nerv_fs.LockTable.Exclusion.Safety.{mutual_exclusion, reader_passes_waiting_writer}

abbrev name : Bytes
name = codes "a"

abbrev table_of : ℕ → ℕ → Table
table_of w r = record { name = name; writers = w; readers = r } ∷ []

-- Thread 0 writes.
abbrev one_writer : System
one_writer = record { table = table_of 1 0; threads = assign start_system.threads 0 (writing name) }

one_writer-reached : Reach 3 one_writer
unfolding acquire_write str_eq ℕ_discrete
one_writer-reached = next here (step 0 (omega arith) (start_write {name = name} (omega arith) refl))

mutual_exclusion_example :
    (one_writer.threads 1 ≢ writing name) × (one_writer.threads 1 ≢ reading name)
unfolding ℕ_discrete
mutual_exclusion_example =
    mutual_exclusion one_writer-reached 0 1 name (omega arith) (omega arith) (omega arith) refl

-- Thread 0 reads, and thread 1 sleeps until it can write.
abbrev one_reader : System
one_reader = record { table = table_of 0 1; threads = assign start_system.threads 0 (reading name) }

abbrev reader_and_sleeper : System
reader_and_sleeper = record {
  table = table_of 0 1;
  threads = assign one_reader.threads 1 (waiting_write name);
}

reader_and_sleeper-reached : Reach 3 reader_and_sleeper
unfolding acquire_write acquire_read str_eq ℕ_discrete
reader_and_sleeper-reached =
    next
      (next {u = one_reader} here
        (step 0 (omega arith) (start_read {name = name} (omega arith) refl)))
      (step 1 (omega arith) (sleep_write {name = name} (omega arith) refl))

reader_passes_waiting_writer_example :
    (u : System) × Step 3 reader_and_sleeper u
    × (u.threads 2 ≡ reading name)
    × (u.threads 1 ≡ waiting_write name)
unfolding find str_eq ℕ_discrete
reader_passes_waiting_writer_example =
    reader_passes_waiting_writer reader_and_sleeper-reached 1 2 name (omega arith) refl refl refl

lock_calls-Implement_example :
    Implements
      (table_of 0 2)
      name
      (spec_acquire_write (view (table_of 0 2) name))
      (acquire_write true name (table_of 0 2))
    × Implements
        (table_of 0 2)
        name
        (spec_acquire_read (view (table_of 0 2) name))
        (acquire_read true name (table_of 0 2))
    × ((m : Bytes)
        → view (release_write true name (table_of 0 2)) m
          ≡ update (view (table_of 0 2)) name (spec_release_write (view (table_of 0 2) name)) m)
    × ((m : Bytes)
        → view (release_read true name (table_of 0 2)) m
          ≡ update (view (table_of 0 2)) name (spec_release_read (view (table_of 0 2) name)) m)
lock_calls-Implement_example = lock_calls-Implement name (table_of 0 2) (omega arith)
