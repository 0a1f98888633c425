-- ===== src/LockTable/Exclusion/Invariant.antt =====
-- The counts in the table are those of the threads that hold the lock.
use nerv_fs.Base.{
  ℕ, ◌+◌, ◌-◌, ◌≤◌, ◌<◌, ◌≡◌, refl, sym, subst, ◌⊎◌, ap, str_eq_refl, [], arith, Bytes, length,
  assign, tally, tally-assign, tally_zero, weight-le-tally, str_eq, str_eq_iff, if◌then◌else◌, true,
}
use nerv_fs.LockTable.{find, Table, entered, waits, acquire_write, acquire_read}
use nerv_fs.LockTable.Refinement.{
  Held, view, update, Implements-entered, Implements-waits, acquire_write-Implements,
  acquire_read-Implements, release_write-view, release_read-view,
}
use nerv_fs.LockTable.Exclusion.{
  Thread, idle, waiting_write, writing, waiting_read, reading, Move, start_write, sleep_write,
  wake_write, again_write, end_write, start_read, sleep_read, wake_read, again_read, end_read,
  System, start_system, step, Reach, here, next,
}

abbrev pub holds_write : Bytes → Thread → ℕ
holds_write m (writing name) = if str_eq name m then 1 else 0
holds_write m _ = 0

abbrev pub holds_read : Bytes → Thread → ℕ
holds_read m (reading name) = if str_eq name m then 1 else 0
holds_read m _ = 0

abbrev pub name_of : Thread → Bytes
name_of idle = []
name_of (waiting_write name) = name
name_of (writing name) = name
name_of (waiting_read name) = name
name_of (reading name) = name

abbrev IsExclusive : Held → Type 0
IsExclusive v = (v.writers ≤ 1) × ((v.writers ≡ 0) ⊎ (v.readers ≡ 0))

pub record Inv (n : ℕ) (s : System) : Type 0 where
  pub writers : (m : Bytes) → (view s.table m).writers ≡ tally (holds_write m) n s.threads
  pub readers : (m : Bytes) → (view s.table m).readers ≡ tally (holds_read m) n s.threads
  pub exclusive : (m : Bytes) → IsExclusive (view s.table m)
  pub short : (i : ℕ) → length (name_of (s.threads i)) ≤ 255

-- The counts of one name, before and after a move.
record Change (name : Bytes) (t t' : Table) (w r : ℕ) : Type 0 where
  writers : (m : Bytes) → (view t' m).writers ≡ (if str_eq name m then w else (view t m).writers)
  readers : (m : Bytes) → (view t' m).readers ≡ (if str_eq name m then r else (view t m).readers)

update-Change :
    (name : Bytes) (t t' : Table) (v : Held)
    → ((m : Bytes) → view t' m ≡ update (view t) name v m)
    → Change name t t' v.writers v.readers
update-Change name t t' v h = record {
  writers = λ m. ground (arith, h m);
  readers = λ m. ground (arith, h m);
}

module _ (name : Bytes) (t t' : Table) (short : length name ≤ 255) where
  entered_write :
      acquire_write true name t ≡ entered t'
      → ((view t name).writers ≡ 0) × ((view t name).readers ≡ 0) × Change name t t' 1 0
  entered_write e =
      let (v, found, seen) =
        Implements-entered t t' name _ (rw e at (acquire_write-Implements name t short)) in
      let v_eq : v ≡ record { writers = 1; readers = 0 } = ground arith in
      (
        ground arith,
        ground arith,
        update-Change name t t' (record { writers = 1; readers = 0 }) (rw v_eq at seen),
      )

  waits_write : acquire_write true name t ≡ waits t' → (m : Bytes) → view t' m ≡ view t m
  waits_write e = (Implements-waits t t' name _ (rw e at (acquire_write-Implements name t short))).1

  entered_read :
      acquire_read true name t ≡ entered t'
      → ((view t name).writers ≡ 0) × Change name t t' 0 ((view t name).readers + 1)
  entered_read e =
      let (v, found, seen) =
        Implements-entered t t' name _ (rw e at (acquire_read-Implements name t short)) in
      let v_eq : v ≡ record { writers = 0; readers = (view t name).readers + 1 } = ground arith in
      (
        ground arith,
        update-Change name t t' (record { writers = 0; readers = (view t name).readers + 1 })
            (rw v_eq at seen),
      )

  waits_read : acquire_read true name t ≡ waits t' → (m : Bytes) → view t' m ≡ view t m
  waits_read e = (Implements-waits t t' name _ (rw e at (acquire_read-Implements name t short))).1

same-Change :
    (name : Bytes) (t t' : Table)
    → ((m : Bytes) → view t' m ≡ view t m)
    → Change name t t' (view t name).writers (view t name).readers
same-Change name t t' h = record {
  writers = λ m. ground (arith, h m, str_eq_iff name m);
  readers = λ m. ground (arith, h m, str_eq_iff name m);
}

module _ {n : ℕ} {s : System} (inv : Inv n s) (i : ℕ) (lt : i < n) where
  -- Thread `i` goes from `p` to `q`, and the counts of `name` become `w` and `r`. The counts move as
  -- the thread's share of them does.
  Change-Inv :
      (name : Bytes) (w r : ℕ) {t' : Table} {p : Thread} (q : Thread)
      → s.threads i ≡ p
      → Change name s.table t' w r
      → length (name_of q) ≤ 255
      → IsExclusive (record { writers = w; readers = r })
      → ((m : Bytes)
          → ((if str_eq name m then w else (view s.table m).writers) + holds_write m p
              ≡ (view s.table m).writers + holds_write m q)
            × ((if str_eq name m then r else (view s.table m).readers) + holds_read m p
                ≡ (view s.table m).readers + holds_read m q))
      → Inv n (record { table = t'; threads = assign s.threads i q })
  Change-Inv name w r {t'} {p} q at_p c short_q ex share = record {
    writers = λ m. omega (
      arith,
      c.writers m,
      (share m).0,
      inv.writers m,
      tally-assign (holds_write m) n s.threads i q lt,
      ap (holds_write m) at_p,
    );
    readers = λ m. omega (
      arith,
      c.readers m,
      (share m).1,
      inv.readers m,
      tally-assign (holds_read m) n s.threads i q lt,
      ap (holds_read m) at_p,
    );
    exclusive = λ m. ground (arith, c.writers m, c.readers m, inv.exclusive m);
    short = λ j. ground (arith, inv.short j);
  }

  named_short : {p : Thread} → s.threads i ≡ p → length (name_of p) ≤ 255
  named_short e = subst (λ p. length (name_of p) ≤ 255) e (inv.short i)

  -- A thread that goes to sleep, or on sleeping, holds what it held: nothing.
  asleep :
      (name : Bytes) {t' : Table} {p : Thread} (q : Thread)
      → s.threads i ≡ p
      → ((m : Bytes) → view t' m ≡ view s.table m)
      → length (name_of q) ≤ 255
      → ((m : Bytes) → (holds_write m p ≡ holds_write m q) × (holds_read m p ≡ holds_read m q))
      → Inv n (record { table = t'; threads = assign s.threads i q })
  asleep name {t'} {p} q at_p same short_q shares =
      Change-Inv name (view s.table name).writers (view s.table name).readers q at_p
        (same-Change name s.table t' same) short_q (inv.exclusive name)
        (λ m. ground (arith, str_eq_iff name m, shares m))

  -- The counts of a thread that holds a lock.
  writer-counts :
      (name : Bytes)
      → s.threads i ≡ writing name
      → ((view s.table name).writers ≡ 1) × ((view s.table name).readers ≡ 0)
  writer-counts name e = ground (
    arith,
    inv.writers name,
    inv.exclusive name,
    weight-le-tally (holds_write name) n s.threads i lt,
    str_eq_refl name,
    ap (holds_write name) e,
  )

  reader-counts :
      (name : Bytes)
      → s.threads i ≡ reading name
      → ((view s.table name).writers ≡ 0) × (0 < (view s.table name).readers)
  reader-counts name e = ground (
    arith,
    inv.readers name,
    inv.exclusive name,
    weight-le-tally (holds_read name) n s.threads i lt,
    str_eq_refl name,
    ap (holds_read name) e,
  )

  Move-Inv :
      {p q : Thread} {t' : Table}
      → Move s.table p t' q
      → s.threads i ≡ p
      → Inv n (record { table = t'; threads = assign s.threads i q })
  Move-Inv (start_write {name} {t'} short e) at_p =
      let (w, r, c) = entered_write name s.table t' short e in
      Change-Inv name 1 0 (writing name) at_p c short (omega arith)
        (λ m. ground (arith, str_eq_iff name m))
  Move-Inv (wake_write {name} {t'} e) at_p =
      let short = named_short at_p in
      let (w, r, c) = entered_write name s.table t' short e in
      Change-Inv name 1 0 (writing name) at_p c short (omega arith)
        (λ m. ground (arith, str_eq_iff name m))
  Move-Inv (sleep_write {name} {t'} short e) at_p =
      asleep name (waiting_write name) at_p (waits_write name s.table t' short e) short
        (λ m. omega arith)
  Move-Inv (again_write {name} {t'} e) at_p =
      let short = named_short at_p in
      asleep name (waiting_write name) at_p (waits_write name s.table t' short e) short
        (λ m. omega arith)
  Move-Inv (end_write {name}) at_p =
      let (w, r) = writer-counts name at_p in
      Change-Inv name 0 (view s.table name).readers idle at_p
        (update-Change name s.table _ _ (release_write-view name s.table (named_short at_p)))
        (omega arith) (omega arith) (λ m. ground (arith, str_eq_iff name m))
  Move-Inv (start_read {name} {t'} short e) at_p =
      let (w, c) = entered_read name s.table t' short e in
      Change-Inv name 0 ((view s.table name).readers + 1) (reading name) at_p c short (omega arith)
        (λ m. ground (arith, str_eq_iff name m))
  Move-Inv (wake_read {name} {t'} e) at_p =
      let short = named_short at_p in
      let (w, c) = entered_read name s.table t' short e in
      Change-Inv name 0 ((view s.table name).readers + 1) (reading name) at_p c short (omega arith)
        (λ m. ground (arith, str_eq_iff name m))
  Move-Inv (sleep_read {name} {t'} short e) at_p =
      asleep name (waiting_read name) at_p (waits_read name s.table t' short e) short
        (λ m. omega arith)
  Move-Inv (again_read {name} {t'} e) at_p =
      let short = named_short at_p in
      asleep name (waiting_read name) at_p (waits_read name s.table t' short e) short
        (λ m. omega arith)
  Move-Inv (end_read {name}) at_p =
      let (w, r) = reader-counts name at_p in
      Change-Inv name (view s.table name).writers ((view s.table name).readers - 1) idle at_p
        (update-Change name s.table _ _ (release_read-view name s.table (named_short at_p)))
        (omega arith) (omega arith) (λ m. ground (arith, str_eq_iff name m))

start_system-Inv : (n : ℕ) → Inv n start_system
unfolding find
start_system-Inv n = record {
  writers = λ m. sym (tally_zero (holds_write m) n idle refl);
  readers = λ m. sym (tally_zero (holds_read m) n idle refl);
  exclusive = λ m. omega arith;
  short = λ i. omega arith;
}

-- In every reachable state the counts of each entry are the numbers of threads that hold its lock,
-- and a writer holds it alone.
pub Reach-Inv : {n : ℕ} {s : System} → Reach n s → Inv n s
Reach-Inv {n} here = start_system-Inv n
Reach-Inv (next r (step i lt mv)) = Move-Inv (Reach-Inv r) i lt mv refl
