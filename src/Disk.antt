-- ===== src/Disk.antt =====
-- What the files of the storage directory hold after the calls of a history, by the documented effects of
-- open with O_TRUNC, write and unlink.
use nerv_fs.Base.{
  ℕ, true, Option, none, some, [], ◌∷◌, ◌++◌, Bytes, take, ◌==◌, str_eq, if◌then◌else◌,
}
use nerv_fs.Os.{History, open_write, open_read, write, close, unlink}

-- The path that a descriptor is open on for writing.
abbrev pub target : ℕ → History → Option Bytes
target fd [] = none
target fd (open_write path (some g) ∷ h) = if fd == g then some path else target fd h
target fd (open_read path (some g) ∷ h) = if fd == g then none else target fd h
target fd (close g ∷ h) = if fd == g then none else target fd h
target fd (e ∷ h) = target fd h

-- A write to a descriptor that is open on `path`, as far as the file `q` goes.
abbrev pub appended : Bytes → Option Bytes → Bytes → Option Bytes → Option Bytes
appended q none bytes content = content
appended q (some path) bytes none = none
appended q (some path) bytes (some content) =
    if str_eq q path then some (content ++ bytes) else some content

-- The content of the file `q`, which is `start q` before the history.
abbrev pub file : (Bytes → Option Bytes) → Bytes → History → Option Bytes
file start q [] = start q
file start q (open_write path (some fd) ∷ h) = if str_eq q path then some [] else file start q h
file start q (write fd bytes (some n) ∷ h) =
    appended q (target fd h) (take n bytes) (file start q h)
file start q (unlink path true ∷ h) = if str_eq q path then none else file start q h
file start q (e ∷ h) = file start q h
