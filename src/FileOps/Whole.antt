-- ===== src/FileOps/Whole.antt =====
-- The operations of src/fileops.c on whole files, and `fileops_init`. The handlers do not use the former.
pub mod Writes
pub mod Reads
use nerv_fs.Base.{
  ℕ, zero, suc, ◌+◌, ◌-◌, Bool, true, false, Option, none, some, [], ◌∷◌, ◌++◌, Bytes, length, drop,
  ltb, if◌then◌else◌,
}
use nerv_fs.Os.{
  History, Env, Stat, malloc, open_write, open_read, fstat, read, write, close, stat, mkdir,
  realpath,
}
use nerv_fs.Protocol.Transfer.{Received, received}

-- A return of 0 or -1; `unfinished` if the fuel runs out.
pub data Written : Type 0 where
  done : Written
  failed : Written
  unfinished : Written

-- After `write`, with the rest of the loop.
abbrev pub write_step :
    (ℕ → History → Written × History) → ℕ → History → Option ℕ → Written × History
write_step next total h none = (failed, h)
write_step next total h (some n) = next (total + n) h

unfoldable pub write_rest : Env → ℕ → Bytes → ℕ → ℕ → History → Written × History
write_rest env fd content zero total h = (unfinished, h)
write_rest env fd content (suc fuel) total h =
    let bytes = drop total content in
    if ltb total (length content)
    then write_step (λ total' h'. write_rest env fd content fuel total' h') total
        (write fd bytes (env.write h fd bytes) ∷ h) (env.write h fd bytes)
    else (done, h)

-- The fuel lasts if each `write` that succeeds takes a byte.
unfoldable pub fileops_write_fd : Env → ℕ → Bytes → History → Written × History
unfolding write_rest
fileops_write_fd env fd content h = write_rest env fd content (suc (length content)) 0 h

unfoldable pub fileops_open_for_write : Env → Bytes → History → Option ℕ × History
fileops_open_for_write env path h =
    (env.open_write h path, open_write path (env.open_write h path) ∷ h)

-- After the file has been opened.
unfoldable pub write_opened : Env → Bytes → Option ℕ × History → Written × History
unfolding fileops_write_fd
write_opened env content (none, h) = (failed, h)
write_opened env content (some fd, h) =
    let r = fileops_write_fd env fd content h in (r.0, close fd ∷ r.1)

unfoldable pub fileops_write_file : Env → Bytes → Bytes → History → Written × History
unfolding write_opened fileops_open_for_write
fileops_write_file env path content h = write_opened env content (fileops_open_for_write env path h)

-- After `read`: the end of the file is a failure here.
abbrev pub read_step :
    (Bytes → History → Received × History) → Bytes → History → Option Bytes → Received × History
read_step next acc h none = (Received.failed, h)
read_step next acc h (some []) = (Received.failed, h)
read_step next acc h (some (b ∷ bs)) = next (acc ++ b ∷ bs) h

unfoldable pub read_rest : Env → ℕ → ℕ → ℕ → Bytes → History → Received × History
read_rest env fd size zero acc h = (Received.spinning, h)
read_rest env fd size (suc fuel) acc h =
    let count = size - length acc in
    if ltb (length acc) size
    then read_step (λ acc' h'. read_rest env fd size fuel acc' h') acc
        (read fd count (env.read h fd count) ∷ h) (env.read h fd count)
    else (received acc, h)

-- After `malloc` of the buffer.
unfoldable pub read_allocated : Env → ℕ → ℕ → Bool → History → Received × History
unfolding read_rest
read_allocated env fd size false h = (Received.failed, close fd ∷ h)
read_allocated env fd size true h =
    let r = read_rest env fd size (suc size) [] h in (r.0, close fd ∷ r.1)

-- After `fstat`. No buffer is allocated for an empty file.
unfoldable pub read_sized : Env → ℕ → Option ℕ → History → Received × History
unfolding read_allocated
read_sized env fd none h = (Received.failed, close fd ∷ h)
read_sized env fd (some size) h =
    if ltb 0 size
    then read_allocated env fd size (env.malloc h size) (malloc size (env.malloc h size) ∷ h)
    else (received [], close fd ∷ h)

unfoldable pub read_opened : Env → Option ℕ → History → Received × History
unfolding read_sized
read_opened env none h = (Received.failed, h)
read_opened env (some fd) h = read_sized env fd (env.fstat h fd) (fstat fd (env.fstat h fd) ∷ h)

unfoldable pub fileops_read_file : Env → Bytes → History → Received × History
unfolding read_opened
fileops_read_file env path h =
    read_opened env (env.open_read h path) (open_read path (env.open_read h path) ∷ h)

-- `realpath` of a root that is there: the variable `storage_root_real`, or -1.
unfoldable pub resolve_root : Env → Bytes → History → Option Bytes × History
resolve_root env root_dir h =
    (env.realpath h root_dir, realpath root_dir (env.realpath h root_dir) ∷ h)

-- After `mkdir`.
unfoldable pub root_made : Env → Bytes → Bool → History → Option Bytes × History
unfolding resolve_root
root_made env root_dir false h = (none, h)
root_made env root_dir true h = resolve_root env root_dir h

-- After `stat`.
unfoldable pub root_looked_up : Env → Bytes → Option Stat → History → Option Bytes × History
unfolding root_made
root_looked_up env root_dir (some st) h = resolve_root env root_dir h
root_looked_up env root_dir none h =
    root_made env root_dir (env.mkdir h root_dir) (mkdir root_dir (env.mkdir h root_dir) ∷ h)

unfoldable pub fileops_init : Env → Bytes → History → Option Bytes × History
unfolding root_looked_up
fileops_init env root_dir h =
    root_looked_up env root_dir (env.stat h root_dir) (stat root_dir (env.stat h root_dir) ∷ h)
