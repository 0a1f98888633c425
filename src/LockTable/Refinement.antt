-- ===== src/LockTable/Refinement.antt =====
-- The table implements a map from names to the numbers of writers and readers that hold the lock.
use nerv_fs.Base.{
  ℕ, ◌+◌, ◌-◌, ◌≤◌, ◌≡◌, refl, ap, inl, inr, true, ◌||◌, Option, none, some, [], ◌∷◌, arith, Bytes,
  take_all, length, ltb, str_eq, str_eq_refl, str_eq_iff, if◌then◌else◌, Bool-cases, Option-cases,
}
use nerv_fs.LockTable.{
  Entry, Table, find, new_entry, add_entry, get_entry_locked, set_entry, Attempt, entered, waits,
  try_write, acquire_write, clear_writer, release_write, try_read, acquire_read, drop_reader,
  release_read,
}

-- The abstract state of one name's lock.
pub record Held : Type 0 where
  pub writers : ℕ
  pub readers : ℕ

abbrev held_by : Option Entry → Held
held_by none = record { writers = 0; readers = 0 }
held_by (some e) = record { writers = e.writers; readers = e.readers }

-- A name that was never locked is free.
abbrev pub view : Table → Bytes → Held
view t name = held_by (find name t)

abbrev pub update : (Bytes → Held) → Bytes → Held → Bytes → Held
update f name v m = if str_eq name m then v else f m

-- The abstract calls on one lock; `none` waits.
abbrev pub spec_acquire_write : Held → Option Held
spec_acquire_write v =
    if ltb 0 v.writers || ltb 0 v.readers then none else some (record v { writers = 1 })

abbrev pub spec_acquire_read : Held → Option Held
spec_acquire_read v = if ltb 0 v.writers then none else some (record v { readers = v.readers + 1 })

abbrev pub spec_release_write : Held → Held
spec_release_write v = record v { writers = 0 }

abbrev pub spec_release_read : Held → Held
spec_release_read v = record v { readers = v.readers - 1 }

-- An attempt does what the specification says for its name and nothing to any other name.
abbrev pub Implements : Table → Bytes → Option Held → Attempt → Type 0
Implements t name none (waits t') = (m : Bytes) → view t' m ≡ view t m
Implements t name (some v) (entered t') = (m : Bytes) → view t' m ≡ update (view t) name v m
Implements t name _ _ = ⊥

find-name : (name : Bytes) (t : Table) {e : Entry} → find name t ≡ some e → e.name ≡ name
unfolding find
find-name name [] h = cc
find-name name (x ∷ t) {e} h = ground (arith, str_eq_iff x.name name, find-name name t {e = e})

find-set_entry :
    (name m : Bytes) (w r : ℕ) (t : Table) {e : Entry}
    → find name t ≡ some e
    → find m (set_entry name w r t)
      ≡ (if str_eq name m then some (record e { writers = w; readers = r }) else find m t)
unfolding find set_entry
find-set_entry name m w r [] h = cc
find-set_entry name m w r (x ∷ t) {e} h = ground (
  arith,
  str_eq_iff x.name name,
  str_eq_iff x.name m,
  str_eq_iff name m,
  find-set_entry name m w r t {e = e},
)

-- After the look-up the entry of the name is in the table, and every lock is as it was.
record Located (name : Bytes) (t : Table) (e : Entry) (t' : Table) : Type 0 where
  there : find name t' ≡ some e
  named : e.name ≡ name
  counts : view t name ≡ record { writers = e.writers; readers = e.readers }
  same : (m : Bytes) → view t' m ≡ view t m

get_entry_locked-Located :
    (name : Bytes) (t : Table)
    → length name ≤ 255
    → (e : Entry) × (t' : Table) × (get_entry_locked true name t ≡ (some e, t'))
      × Located name t e t'
unfolding get_entry_locked
get_entry_locked-Located name t short = elim (Option-cases (find name t)) [
  | inl missing ↦ (
    new_entry name,
    new_entry name ∷ t,
    ap (add_entry true name t) missing,
    record {
      there = rw (take_all 255 name short, str_eq_refl name);
      named = take_all 255 name short;
      counts = rw missing;
      same = λ m. rw (take_all 255 name short) (ground (arith, str_eq_iff name m, missing));
    },
  )
  | inr (e, found) ↦ (
    e,
    t,
    ap (add_entry true name t) found,
    record { there = found; named = find-name name t found; counts = rw found; same = λ m. refl },
  )
]

-- What a call does that writes the counts of the entry it has looked up.
view-set_entry :
    (name : Bytes) (t t' : Table) (e : Entry) (w r : ℕ)
    → Located name t e t'
    → (m : Bytes)
    → view (set_entry e.name w r t') m
      ≡ update (view t) name (record { writers = w; readers = r }) m
view-set_entry name t t' e w r l m =
    rw (l.named, find-set_entry name m w r t' l.there) (ground (arith, l.same m))

abbrev counts_of : Entry → Held
counts_of e = record { writers = e.writers; readers = e.readers }

module _ (name : Bytes) (t t' : Table) (e : Entry) (l : Located name t e t') where
  try_write-Implements :
      Implements t name (spec_acquire_write (counts_of e)) (try_write (some e, t'))
  unfolding try_write
  try_write-Implements = elim (Bool-cases (ltb 0 e.writers || ltb 0 e.readers)) [
    | inl b ↦ rw (b, try_write) l.same
    | inr b ↦ rw (b, try_write) (view-set_entry name t t' e 1 e.readers l)
  ]

  try_read-Implements : Implements t name (spec_acquire_read (counts_of e)) (try_read (some e, t'))
  unfolding try_read
  try_read-Implements = elim (Bool-cases (ltb 0 e.writers)) [
    | inl b ↦ rw (b, try_read) l.same
    | inr b ↦ rw (b, try_read) (view-set_entry name t t' e e.writers (e.readers + 1) l)
  ]

  clear_writer-view :
      (m : Bytes)
      → view (clear_writer (some e, t')) m
        ≡ update (view t) name (record { writers = 0; readers = e.readers }) m
  unfolding clear_writer
  clear_writer-view = view-set_entry name t t' e 0 e.readers l

  drop_reader-view :
      (m : Bytes)
      → view (drop_reader (some e, t')) m
        ≡ update (view t) name (record { writers = e.writers; readers = e.readers - 1 }) m
  unfolding drop_reader
  drop_reader-view m = elim (Bool-cases (ltb 0 e.readers)) [
    | inl b ↦ rw (b, drop_reader) (view-set_entry name t t' e e.writers (e.readers - 1) l m)
    | inr b ↦ rw (b, drop_reader) (ground (arith, l.same m, l.counts, str_eq_iff name m))
  ]

module _ (name : Bytes) (t : Table) (short : length name ≤ 255) where
  pub acquire_write-Implements :
      Implements t name (spec_acquire_write (view t name)) (acquire_write true name t)
  unfolding acquire_write
  acquire_write-Implements =
      let (e, t', run, l) = get_entry_locked-Located name t short in
      rw (run, l.counts) (try_write-Implements name t t' e l)

  pub acquire_read-Implements :
      Implements t name (spec_acquire_read (view t name)) (acquire_read true name t)
  unfolding acquire_read
  acquire_read-Implements =
      let (e, t', run, l) = get_entry_locked-Located name t short in
      rw (run, l.counts) (try_read-Implements name t t' e l)

  pub release_write-view :
      (m : Bytes)
      → view (release_write true name t) m
        ≡ update (view t) name (record (view t name) { writers = 0 }) m
  unfolding release_write
  release_write-view m =
      let (e, t', run, l) = get_entry_locked-Located name t short in
      rw (run, l.counts) (clear_writer-view name t t' e l m)

  pub release_read-view :
      (m : Bytes)
      → view (release_read true name t) m
        ≡ update (view t) name (record (view t name) { readers = (view t name).readers - 1 }) m
  unfolding release_read
  release_read-view m =
      let (e, t', run, l) = get_entry_locked-Located name t short in
      rw (run, l.counts) (drop_reader-view name t t' e l m)

-- The four lock calls on a name of at most 255 bytes, given memory for an entry, against counts of
-- holders for each name: `fileops_lock_acquire_write` lets the caller in exactly when no one holds
-- the name's lock, `fileops_lock_acquire_read` exactly when no writer does, and else they wait and
-- change no count; the releases take the holder off; and no call changes the counts of another name.
pub lock_calls-Implement :
    (name : Bytes) (t : Table)
    → length name ≤ 255
    → Implements t name (spec_acquire_write (view t name)) (acquire_write true name t)
      × Implements t name (spec_acquire_read (view t name)) (acquire_read true name t)
      × ((m : Bytes)
          → view (release_write true name t) m
            ≡ update (view t) name (spec_release_write (view t name)) m)
      × ((m : Bytes)
          → view (release_read true name t) m
            ≡ update (view t) name (spec_release_read (view t name)) m)
lock_calls-Implement name t short = (
  acquire_write-Implements name t short,
  acquire_read-Implements name t short,
  release_write-view name t short,
  release_read-view name t short,
)

-- What an attempt has found and done, from its outcome.
pub Implements-entered :
    (t t' : Table) (name : Bytes) (o : Option Held)
    → Implements t name o (entered t')
    → (v : Held) × (o ≡ some v) × ((m : Bytes) → view t' m ≡ update (view t) name v m)
Implements-entered t t' name none h = absurd h
Implements-entered t t' name (some v) h = (v, refl, h)

pub Implements-waits :
    (t t' : Table) (name : Bytes) (o : Option Held)
    → Implements t name o (waits t')
    → (o ≡ none) × ((m : Bytes) → view t' m ≡ view t m)
Implements-waits t t' name none h = (refl, h)
Implements-waits t t' name (some v) h = absurd h
