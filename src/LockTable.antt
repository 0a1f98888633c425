-- ===== src/LockTable.antt =====
-- The in-process lock table of src/fileops.c: a linked list with an entry for each file name ever
-- locked, under one mutex and one condition variable. A call is what it does while it holds the
-- mutex. Entries are never removed, and a new one is made only for a name that has none, so a pointer
-- to an entry is named by the entry's name.
pub mod Refinement
pub mod Exclusion
use nerv_fs.Base.{
  ℕ, ◌+◌, ◌-◌, Bool, true, false, ◌||◌, Option, none, some, List, [], ◌∷◌, Bytes, take, ltb, str_eq,
  if◌then◌else◌,
}
use nerv_fs.FileOps.Resolve.{nervfs_max_name_len}

-- `file_lock_entry_t`
pub record Entry : Type 0 where
  pub name : Bytes
  pub writers : ℕ
  pub readers : ℕ

abbrev pub Table : Type 0
Table = List Entry

unfoldable pub find : Bytes → Table → Option Entry
find name [] = none
find name (e ∷ t) = if str_eq e.name name then some e else find name t

-- The entry of a new name. `strncpy` keeps at most 255 bytes of it.
abbrev pub new_entry : Bytes → Entry
new_entry name = record { name = take nervfs_max_name_len name; writers = 0; readers = 0 }

-- What is left to do if no entry was found: `malloc` may refuse one.
add_entry : Bool → Bytes → Table → Option Entry → Option Entry × Table
add_entry granted name t (some e) = (some e, t)
add_entry true name t none = (some (new_entry name), new_entry name ∷ t)
add_entry false name t none = (none, t)

pub get_entry_locked : Bool → Bytes → Table → Option Entry × Table
unfolding find add_entry
get_entry_locked granted name t = add_entry granted name t (find name t)

-- A write through a pointer to the entry of that name.
pub set_entry : Bytes → ℕ → ℕ → Table → Table
set_entry name w r [] = []
set_entry name w r (e ∷ t) =
    if str_eq e.name name
    then record e { writers = w; readers = r } ∷ t
    else e ∷ set_entry name w r t

-- An acquiring call goes on with the lock, goes to sleep on the condition variable (and starts
-- again when it is woken), or, having no entry, goes on without any lock.
pub data Attempt : Type 0 where
  entered : Table → Attempt
  waits : Table → Attempt
  unlocked : Table → Attempt

try_write : Option Entry × Table → Attempt
unfolding set_entry
try_write (none, t) = unlocked t
try_write (some e, t) =
    if ltb 0 e.writers || ltb 0 e.readers then waits t else entered (set_entry e.name 1 e.readers t)

unfoldable pub acquire_write : Bool → Bytes → Table → Attempt
unfolding get_entry_locked try_write
acquire_write granted name t = try_write (get_entry_locked granted name t)

clear_writer : Option Entry × Table → Table
unfolding set_entry
clear_writer (none, t) = t
clear_writer (some e, t) = set_entry e.name 0 e.readers t

unfoldable pub release_write : Bool → Bytes → Table → Table
unfolding get_entry_locked clear_writer
release_write granted name t = clear_writer (get_entry_locked granted name t)

try_read : Option Entry × Table → Attempt
unfolding set_entry
try_read (none, t) = unlocked t
try_read (some e, t) =
    if ltb 0 e.writers then waits t else entered (set_entry e.name e.writers (e.readers + 1) t)

unfoldable pub acquire_read : Bool → Bytes → Table → Attempt
unfolding get_entry_locked try_read
acquire_read granted name t = try_read (get_entry_locked granted name t)

drop_reader : Option Entry × Table → Table
unfolding set_entry
drop_reader (none, t) = t
drop_reader (some e, t) =
    if ltb 0 e.readers then set_entry e.name e.writers (e.readers - 1) t else t

unfoldable pub release_read : Bool → Bytes → Table → Table
unfolding get_entry_locked drop_reader
release_read granted name t = drop_reader (get_entry_locked granted name t)
