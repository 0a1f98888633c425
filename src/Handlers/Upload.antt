-- ===== src/Handlers/Upload.antt =====
-- `handle_upload_timed` of src/handlers.c. A helper by clauses takes the answer of a call, and what was
-- learnt before it.
use nerv_fs.Base.{
  ℕ, ◌+◌, ◌%◌, ◌^◌, Bool, true, false, Option, none, some, ◌∷◌, ◌++◌, Bytes, length, ◌==◌,
  if◌then◌else◌,
}
use nerv_fs.Os.{
  History, Env, Timespec, lock_write, clock_gettime, open_write, write, fsync, close, acquire_write,
  release_write, fault,
}
use nerv_fs.Wire.{write_u64}
use nerv_fs.Clock.{elapsed_microseconds}
use nerv_fs.Protocol.{op_resp_ok, err_internal}
use nerv_fs.FileOps.Resolve.{codes}
use nerv_fs.FileOps.Files.{fileops_lock_fd, fileops_unlock_fd}
use nerv_fs.Handlers.Respond.{send_message, send_error}
use nerv_fs.Handlers.Request.{Checked, good, bad, broken, Upload, parse_upload}

-- `fileops_unlock_fd`, `close`, `fileops_lock_release_write`
abbrev pub let_go : Env → ℕ → Bytes → History → History
let_go env fd name h = release_write name ∷ close fd ∷ (fileops_unlock_fd env fd h).1

-- The 24 bytes of the metrics payload.
unfoldable pub metrics : ℕ → ℕ → ℕ → Bytes
metrics network_us write_us sync_us =
    write_u64 network_us ++ (write_u64 write_us ++ write_u64 sync_us)

-- From `fsync` on. `h` ends with the reading of `write_end`.
unfoldable pub upload_synced : Env → ℕ → ℕ → ℕ → Timespec → ℕ → Bytes → History → History
unfolding elapsed_microseconds
upload_synced env client_fd network_us write_us write_end fd name h =
    let sync_end = env.clock_gettime (fsync fd ∷ h) in
    let sync_us = elapsed_microseconds write_end sync_end in
    send_message env client_fd op_resp_ok (some (metrics network_us write_us sync_us)) 24
      ((network_us + write_us + sync_us) % 2 ^ 64)
      (let_go env fd name (clock_gettime sync_end ∷ fsync fd ∷ h))

-- After `write`, with its answer and the reading of `write_start`.
unfoldable pub upload_written : Env → ℕ → ℕ → Timespec → ℕ → Upload → Option ℕ → History → History
upload_written env client_fd network_us write_start fd u none h =
    send_error env client_fd err_internal (codes "failed to write file body")
      (let_go env fd u.name (clock_gettime (env.clock_gettime h) ∷ h))
upload_written env client_fd network_us write_start fd u (some bytes_written) h =
    let write_end = env.clock_gettime h in
    let write_us = elapsed_microseconds write_start write_end in
    if bytes_written == length u.body
    then upload_synced env client_fd network_us write_us write_end fd u.name
        (clock_gettime write_end ∷ h)
    else send_error env client_fd err_internal (codes "failed to write file body")
        (let_go env fd u.name (clock_gettime write_end ∷ h))

-- After `fileops_lock_fd` of the open file.
unfoldable pub upload_locked : Env → ℕ → ℕ → Timespec → ℕ → Upload → Bool × History → History
unfolding upload_written
upload_locked env client_fd network_us write_start fd u (false, h) =
    send_error env client_fd err_internal (codes "failed to lock file")
      (release_write u.name ∷ close fd ∷ h)
upload_locked env client_fd network_us write_start fd u (true, h) =
    upload_written env client_fd network_us write_start fd u (env.write h fd u.body)
      (write fd u.body (env.write h fd u.body) ∷ h)

-- After `open`.
unfoldable pub upload_opened : Env → ℕ → ℕ → Timespec → Upload → Option ℕ → History → History
unfolding upload_locked
upload_opened env client_fd network_us write_start u none h =
    send_error env client_fd err_internal (codes "failed to open file") (release_write u.name ∷ h)
upload_opened env client_fd network_us write_start u (some fd) h =
    upload_locked env client_fd network_us write_start fd u (fileops_lock_fd env fd lock_write h)

-- From `fileops_lock_acquire_write` on.
unfoldable pub upload_file : Env → ℕ → ℕ → Checked Upload → History → History
unfolding upload_opened
upload_file env client_fd network_us (bad err_code msg) h = send_error env client_fd err_code msg h
upload_file env client_fd network_us broken h = fault ∷ h
upload_file env client_fd network_us (good u) h =
    let h₁ : History = acquire_write u.name (env.acquire_write h u.name) ∷ h in
    let write_start = env.clock_gettime h₁ in
    let h₂ : History = clock_gettime write_start ∷ h₁ in
    upload_opened env client_fd network_us write_start u (env.open_write h₂ u.path)
      (open_write u.path (env.open_write h₂ u.path) ∷ h₂)

unfoldable pub handle_upload_timed : Env → Bytes → ℕ → Bytes → ℕ → Timespec → History → History
unfolding upload_file
handle_upload_timed env root client_fd payload payload_len net_start h =
    let net_end = env.clock_gettime h in
    upload_file env client_fd (elapsed_microseconds net_start net_end)
      (parse_upload root payload payload_len) (clock_gettime net_end ∷ h)
