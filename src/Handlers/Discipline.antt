-- ===== src/Handlers/Discipline.antt =====
-- However the system answers, a handler releases what it takes, and touches a file only between the
-- lock calls for it: the responses and the upload. The other requests are in child modules.
pub mod Download
pub mod Rest
pub mod Listing
pub mod Dispatch
use nerv_fs.Base.{
  ℕ, ◌+◌, ◌%◌, ◌^◌, ◌≤◌, ◌<◌, ◌≡◌, refl, sym, ap, ◌∙◌, ◌≢◌, inl, inr, Bool, true, false, Option,
  none, some, List, [], ◌∷◌, ◌++◌, arith, Bytes, length, take, ltb, ◌==◌, if◌then◌else◌, Bool-cases,
  length-append, length-take,
}
use nerv_fs.Os.{
  Timespec, History, Env, malloc, clock_gettime, lock_write, lock_read, acquire_write,
  release_write, acquire_read, release_read, open_write, write, fsync, close,
}
use nerv_fs.Wire.{write_u16, write_u64, length-write_u16, length-write_u64}
use nerv_fs.Wire.Buffer.{load, load_total}
use nerv_fs.Protocol.Header.{Header, serialize_header}
use nerv_fs.Protocol.Transfer.{send_full}
use nerv_fs.FileOps.Resolve.{codes}
use nerv_fs.FileOps.Files.{
  Opened, opened, open_failed, map_failed, fileops_open_for_mmap_read, map_opened, map_sized,
  map_file, fileops_close_mmap, fileops_lock_fd, fileops_unlock_fd, fileops_delete_file,
  fileops_chmod_file,
}
use nerv_fs.Handlers.Usage.{
  Lock, exclusive, shared, held, open_file, Proper, writable, readable, Holds, send_full-Holds,
}
use nerv_fs.Handlers.Respond.{
  response_header, send_bytes, send_payload, send_message, send_ok, send_allocated, send_error,
  error_payload,
}
use nerv_fs.Handlers.Request.{Checked, good, bad, broken, Upload, Named, Chmod}
use nerv_fs.Handlers.Upload.{
  let_go, metrics, upload_synced, upload_written, upload_locked, upload_opened, upload_file,
}
use nerv_fs.Handlers.Sound.{Sound, IsPathOf}

pub length-error_payload :
    (err_code : ℕ) (msg : Bytes) → length (error_payload err_code msg) ≡ 2 + 2 + length msg % 2 ^ 16
unfolding error_payload
length-error_payload err_code msg =
    let n = length msg % 2 ^ 16 in
    omega (
      arith,
      length-append (write_u16 err_code) (write_u16 n ++ take n msg),
      length-append (write_u16 n) (take n msg),
      length-write_u16 err_code,
      length-write_u16 n,
      length-take n msg,
    )

pub length-metrics :
    (network_us write_us sync_us : ℕ) → length (metrics network_us write_us sync_us) ≡ 24
unfolding metrics
length-metrics network_us write_us sync_us = omega (
  arith,
  length-append (write_u64 network_us) (write_u64 write_us ++ write_u64 sync_us),
  length-append (write_u64 write_us) (write_u64 sync_us),
  length-write_u64 network_us,
  length-write_u64 write_us,
  length-write_u64 sync_us,
)

module _ (root : Bytes) (lock : Option Lock) (file : Option ℕ) (env : Env) (fd : ℕ) where
  send_message-Holds :
      (opcode : ℕ) (payload : Bytes) (len elapsed_us : ℕ) (h : History)
      → length payload ≡ len
      → Holds root lock file h
      → Holds root lock file (send_message env fd opcode (some payload) len elapsed_us h)
  unfolding send_message
  send_message-Holds opcode payload len elapsed_us h e s =
      let s₁ =
        send_full-Holds root lock file env fd
          (serialize_header (response_header opcode len elapsed_us)) h s in
      elim (Bool-cases (ltb 0 len)) [
        | inl some_bytes ↦
            rw (some_bytes, send_payload, load_total payload 0 len (omega arith))
              (send_full-Holds root lock file env fd _ _ s₁)
        | inr empty ↦ rw (empty, send_payload) s₁
      ]

  send_ok-Holds :
      (elapsed_us : ℕ) (h : History)
      → Holds root lock file h
      → Holds root lock file (send_ok env fd elapsed_us h)
  unfolding send_ok send_message
  send_ok-Holds elapsed_us h s = send_full-Holds root lock file env fd _ h s

  send_allocated-Holds :
      (err_code : ℕ) (msg : Bytes) (granted : Bool) (h : History)
      → Holds root lock file h
      → Holds root lock file (send_allocated env fd err_code msg granted h)
  unfolding send_allocated
  send_allocated-Holds err_code msg false h s = s
  send_allocated-Holds err_code msg true h s =
      send_message-Holds _ (error_payload err_code msg) _ 0 h (length-error_payload err_code msg) s

  send_error-Holds :
      (err_code : ℕ) (msg : Bytes) (h : History)
      → Holds root lock file h
      → Holds root lock file (send_error env fd err_code msg h)
  unfolding send_error
  send_error-Holds err_code msg h s =
      let n = 2 + 2 + length msg % 2 ^ 16 in
      send_allocated-Holds err_code msg (env.malloc h n) (malloc n (env.malloc h n) ∷ h)
        (record { proper = s.proper; lock_eq = s.lock_eq; file_eq = s.file_eq })

module _ (root : Bytes) (env : Env) (client : ℕ) where
  abbrev pub Free : History → Type 0
  Free h = Holds root none none h

  abbrev Writing : Bytes → Option ℕ → History → Type 0
  Writing name file h = Holds root (some (exclusive name)) file h

  error :
      (err_code : ℕ) (msg : Bytes) (h : History)
      → Free h
      → Free (send_error env client err_code msg h)
  error = send_error-Holds root none none env client

  let_go-Free :
      (fd : ℕ) (name : Bytes) (h : History) → Writing name (some fd) h → Free (let_go env fd name h)
  unfolding fileops_unlock_fd
  let_go-Free fd name h s = record {
    proper = (s.lock_eq, (s.file_eq, (s.file_eq, s.proper)));
    lock_eq = refl;
    file_eq = refl;
  }

  -- A reading of the clock changes nothing.
  pub tick :
      (t : Timespec) {lock : Option Lock} {file : Option ℕ} {h : History}
      → Holds root lock file h
      → Holds root lock file (clock_gettime t ∷ h)
  tick t s = record { proper = s.proper; lock_eq = s.lock_eq; file_eq = s.file_eq }

  upload_synced-Free :
      (network_us write_us : ℕ) (write_end : Timespec) (fd : ℕ) (name : Bytes) (h : History)
      → Writing name (some fd) h
      → Free (upload_synced env client network_us write_us write_end fd name h)
  unfolding upload_synced
  upload_synced-Free network_us write_us write_end fd name h s =
      send_message-Holds root none none env client _ (metrics _ _ _) 24 _ _
        (length-metrics network_us write_us _)
        (let_go-Free fd name _
          (record { proper = (s.file_eq, s.proper); lock_eq = s.lock_eq; file_eq = s.file_eq }))

  upload_written-Free :
      (network_us : ℕ) (write_start : Timespec) (fd : ℕ) (u : Upload) (count : Option ℕ)
      (h : History)
      → Writing u.name (some fd) h
      → Free (upload_written env client network_us write_start fd u count h)
  unfolding upload_written
  upload_written-Free network_us write_start fd u none h s =
      error _ _ _ (let_go-Free fd u.name _ (tick _ s))
  upload_written-Free network_us write_start fd u (some n) h s =
      elim (Bool-cases (n == length u.body)) [
        | inl whole ↦
            rw (whole, upload_written) (upload_synced-Free network_us _ _ fd u.name _ (tick _ s))
        | inr part ↦ rw (part, upload_written) (error _ _ _ (let_go-Free fd u.name _ (tick _ s)))
      ]

  upload_locked-Free :
      (network_us : ℕ) (write_start : Timespec) (fd : ℕ) (u : Upload) (granted : Bool) (h : History)
      → Writing u.name (some fd) h
      → Free (upload_locked env client network_us write_start fd u (granted, h))
  unfolding upload_locked
  upload_locked-Free network_us write_start fd u false h s =
      error _ _ _
        (record { proper = (s.lock_eq, (s.file_eq, s.proper)); lock_eq = refl; file_eq = refl })
  upload_locked-Free network_us write_start fd u true h s =
      upload_written-Free network_us write_start fd u _ _
        (record { proper = s.proper; lock_eq = s.lock_eq; file_eq = s.file_eq })

  allowed :
      (u : Upload) {h : History} {file : Option ℕ}
      → IsPathOf root u.path u.name
      → Writing u.name file h
      → writable root (held h) ≡ some u.path
  allowed u ok s = ap (writable root) s.lock_eq ∙ ap some (sym ok.path_eq)

  upload_opened-Free :
      (network_us : ℕ) (write_start : Timespec) (u : Upload) (fd : Option ℕ) (h : History)
      → IsPathOf root u.path u.name
      → Writing u.name none h
      → Free (upload_opened env client network_us write_start u fd (open_write u.path fd ∷ h))
  unfolding upload_opened fileops_lock_fd
  upload_opened-Free network_us write_start u none h ok s = error _ _ _ (record {
    proper = (s.lock_eq, (allowed u ok s, s.file_eq, s.proper));
    lock_eq = refl;
    file_eq = s.file_eq;
  })
  upload_opened-Free network_us write_start u (some fd) h ok s =
      upload_locked-Free network_us write_start fd u _ _ (record {
        proper = (refl, (allowed u ok s, s.file_eq, s.proper));
        lock_eq = s.lock_eq;
        file_eq = refl;
      })

  upload_file-Free :
      (network_us : ℕ) (r : Checked Upload) (h : History)
      → Sound (λ u. IsPathOf root u.path u.name) r
      → Free h
      → Free (upload_file env client network_us r h)
  unfolding upload_file
  upload_file-Free network_us (bad err_code msg) h ok s = error err_code msg h s
  upload_file-Free network_us broken h ok s = absurd ok
  upload_file-Free network_us (good u) h ok s =
      upload_opened-Free network_us _ u _ _ ok
        (record { proper = (s.lock_eq, s.proper); lock_eq = refl; file_eq = s.file_eq })
