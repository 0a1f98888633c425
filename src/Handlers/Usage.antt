-- ===== src/Handlers/Usage.antt =====
-- What a thread holds after a history of its calls, and which histories use locks and files properly.
use nerv_fs.Base.{ℕ, ◌≡◌, Option, none, some, [], ◌∷◌, ◌++◌, Bytes}
use nerv_fs.Os.{
  History, Env, open_write, open_read, fstat, mmap, setlkw, setlk_unlock, fsync, close, unlink,
  chmod, acquire_write, release_write, acquire_read, release_read, fault,
}
use nerv_fs.Protocol.Transfer.{send_full}
use nerv_fs.Protocol.Transfer.Send.{send_full-keeps}

pub data Lock : Type 0 where
  exclusive : (name : Bytes) → Lock
  shared : (name : Bytes) → Lock

-- The name that the thread is at work on: it has called the acquiring function and not yet the release.
-- It has the lock if the call could give it, which needs an entry for the name.
abbrev pub held : History → Option Lock
held [] = none
held (acquire_write name locked ∷ h) = some (exclusive name)
held (acquire_read name locked ∷ h) = some (shared name)
held (release_write name ∷ h) = none
held (release_read name ∷ h) = none
held (_ ∷ h) = held h

-- The storage file that the thread has open.
abbrev pub open_file : History → Option ℕ
open_file [] = none
open_file (open_write path (some fd) ∷ h) = some fd
open_file (open_read path (some fd) ∷ h) = some fd
open_file (close fd ∷ h) = none
open_file (_ ∷ h) = open_file h

-- The file that the lock lets its holder change, and the file that it lets its holder read.
abbrev pub writable : Bytes → Option Lock → Option Bytes
writable root (some (exclusive name)) = some (root ++ b'/' ∷ name)
writable root _ = none

abbrev pub readable : Bytes → Option Lock → Option Bytes
readable root (some (shared name)) = some (root ++ b'/' ∷ name)
readable root _ = none

-- Every call was in order: at most one locked name and one file at a time; a release or a close of
-- just what is held; a file opened for writing, removed or changed in mode under the exclusive lock
-- of its name, and opened for reading under the shared one, in the sense of `held`; file locks,
-- `fstat`, `mmap` and `fsync` on the open file; and no access outside a buffer.
abbrev pub Proper : Bytes → History → Type 0
Proper root [] = Unit
Proper root (acquire_write name locked ∷ h) = (held h ≡ none) × Proper root h
Proper root (acquire_read name locked ∷ h) = (held h ≡ none) × Proper root h
Proper root (release_write name ∷ h) = (held h ≡ some (exclusive name)) × Proper root h
Proper root (release_read name ∷ h) = (held h ≡ some (shared name)) × Proper root h
Proper root (open_write path fd ∷ h) =
    (writable root (held h) ≡ some path) × (open_file h ≡ none) × Proper root h
Proper root (open_read path fd ∷ h) =
    (readable root (held h) ≡ some path) × (open_file h ≡ none) × Proper root h
Proper root (unlink path done ∷ h) = (writable root (held h) ≡ some path) × Proper root h
Proper root (chmod path mode done ∷ h) = (writable root (held h) ≡ some path) × Proper root h
Proper root (close fd ∷ h) = (open_file h ≡ some fd) × Proper root h
Proper root (fstat fd size ∷ h) = (open_file h ≡ some fd) × Proper root h
Proper root (mmap fd size mapped ∷ h) = (open_file h ≡ some fd) × Proper root h
Proper root (setlkw fd kind granted ∷ h) = (open_file h ≡ some fd) × Proper root h
Proper root (setlk_unlock fd done ∷ h) = (open_file h ≡ some fd) × Proper root h
Proper root (fsync fd ∷ h) = (open_file h ≡ some fd) × Proper root h
Proper root (fault ∷ h) = ⊥
Proper root (_ ∷ h) = Proper root h

-- After a proper history the thread holds this lock and this file.
pub record Holds (root : Bytes) (lock : Option Lock) (file : Option ℕ) (h : History) : Type 0 where
  pub proper : Proper root h
  pub lock_eq : held h ≡ lock
  pub file_eq : open_file h ≡ file

module _ (root : Bytes) (lock : Option Lock) (file : Option ℕ) (env : Env) (fd : ℕ) where
  -- Sending changes neither.
  pub send_full-Holds :
      (buf : Bytes) (h : History)
      → Holds root lock file h
      → Holds root lock file (send_full env fd buf h).1
  send_full-Holds =
      send_full-keeps (Holds root lock file) env fd
        (λ h bs n s. record { proper = s.proper; lock_eq = s.lock_eq; file_eq = s.file_eq })
