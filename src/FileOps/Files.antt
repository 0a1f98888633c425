-- ===== src/FileOps/Files.antt =====
-- The file operations of src/fileops.c that the handlers use. A function takes the history of calls and
-- returns the longer one.
use nerv_fs.Base.{ℕ, Bool, Option, none, some, ◌∷◌, Bytes, ltb, ◌==◌, if◌then◌else◌}
use nerv_fs.Os.{
  History, Env, LockKind, open_read, fstat, mmap, munmap, setlkw, setlk_unlock, close, unlink,
  chmod,
}

-- `fileops_open_for_mmap_read` returns 0 with the map (null for an empty file), the size and the
-- descriptor, or -1, or -2.
pub data Opened : Type 0 where
  opened : (map : Option Bytes) → (size fd : ℕ) → Opened
  open_failed : Opened
  map_failed : Opened

unfoldable pub map_file : ℕ → ℕ → Option Bytes → History → Opened × History
map_file size fd none h = (map_failed, close fd ∷ h)
map_file size fd (some bytes) h = (opened (some bytes) size fd, h)

unfoldable pub map_sized : Env → ℕ → Option ℕ → History → Opened × History
unfolding map_file
map_sized env fd none h = (open_failed, close fd ∷ h)
map_sized env fd (some size) h =
    if size == 0
    then (opened none 0 fd, h)
    else map_file size fd (env.mmap h fd size) (mmap fd size (env.mmap h fd size) ∷ h)

unfoldable pub map_opened : Env → Option ℕ → History → Opened × History
unfolding map_sized
map_opened env none h = (open_failed, h)
map_opened env (some fd) h = map_sized env fd (env.fstat h fd) (fstat fd (env.fstat h fd) ∷ h)

unfoldable pub fileops_open_for_mmap_read : Env → Bytes → History → Opened × History
unfolding map_opened
fileops_open_for_mmap_read env path h =
    map_opened env (env.open_read h path) (open_read path (env.open_read h path) ∷ h)

unfoldable pub fileops_close_mmap : Option Bytes → ℕ → ℕ → History → History
fileops_close_mmap none size fd h = close fd ∷ h
fileops_close_mmap (some bytes) size fd h = close fd ∷ (if ltb 0 size then munmap size ∷ h else h)

unfoldable pub fileops_delete_file : Env → Bytes → History → Bool × History
fileops_delete_file env path h = (env.unlink h path, unlink path (env.unlink h path) ∷ h)

unfoldable pub fileops_chmod_file : Env → Bytes → ℕ → History → Bool × History
fileops_chmod_file env path mode h =
    (env.chmod h path mode, chmod path mode (env.chmod h path mode) ∷ h)

unfoldable pub fileops_lock_fd : Env → ℕ → LockKind → History → Bool × History
fileops_lock_fd env fd kind h = (env.setlkw h fd kind, setlkw fd kind (env.setlkw h fd kind) ∷ h)

unfoldable pub fileops_unlock_fd : Env → ℕ → History → Bool × History
fileops_unlock_fd env fd h = (env.setlk_unlock h fd, setlk_unlock fd (env.setlk_unlock h fd) ∷ h)
