-- ===== src/Handlers/Download.antt =====
-- `handle_download` of src/handlers.c.
use nerv_fs.Base.{ℕ, ◌+◌, ◌%◌, ◌^◌, Option, none, some, ◌∷◌, Bytes, ltb, if◌then◌else◌}
use nerv_fs.Os.{History, Env, Timespec, lock_read, clock_gettime, acquire_read, release_read, fault}
use nerv_fs.Wire.{write_u64}
use nerv_fs.Wire.Buffer.{load}
use nerv_fs.Clock.{elapsed_microseconds}
use nerv_fs.Protocol.{op_resp_file_data, err_internal, err_not_found}
use nerv_fs.Protocol.Header.{serialize_header}
use nerv_fs.Protocol.Transfer.{send_full}
use nerv_fs.FileOps.Resolve.{codes}
use nerv_fs.FileOps.Files.{
  Opened, opened, open_failed, map_failed, fileops_open_for_mmap_read, fileops_close_mmap,
  fileops_lock_fd, fileops_unlock_fd,
}
use nerv_fs.Handlers.Respond.{response_header, send_bytes, send_error}
use nerv_fs.Handlers.Request.{Checked, good, bad, broken, Named, parse_download}

-- The bytes of the map; a null map is not read.
unfoldable pub send_mapped : Env → ℕ → Option Bytes → ℕ → History → History
send_mapped env client_fd none size h = if ltb 0 size then fault ∷ h else h
send_mapped env client_fd (some bytes) size h =
    if ltb 0 size then send_bytes env client_fd (load bytes 0 size) h else h

-- The three pieces of the response.
unfoldable pub send_file : Env → ℕ → ℕ → Option Bytes → ℕ → History → History
unfolding send_mapped
send_file env client_fd elapsed_us mapped size h =
    let header = response_header op_resp_file_data ((8 + size) % 2 ^ 32) elapsed_us in
    let h₁ = (send_full env client_fd (serialize_header header) h).1 in
    let h₂ = (send_full env client_fd (write_u64 size) h₁).1 in
    send_mapped env client_fd mapped size h₂

-- After `fileops_open_for_mmap_read` and the second reading of the clock.
unfoldable pub download_opened : Env → ℕ → Bytes → ℕ → Opened → History → History
unfolding send_file
download_opened env client_fd name elapsed_us open_failed h =
    send_error env client_fd err_not_found (codes "file not found") (release_read name ∷ h)
download_opened env client_fd name elapsed_us map_failed h =
    send_error env client_fd err_internal (codes "failed to map file") (release_read name ∷ h)
download_opened env client_fd name elapsed_us (opened mapped size fd) h =
    let h₁ = (fileops_lock_fd env fd lock_read h).1 in
    let h₂ = send_file env client_fd elapsed_us mapped size h₁ in
    let h₃ = (fileops_unlock_fd env fd h₂).1 in
    release_read name ∷ fileops_close_mmap mapped size fd h₃

unfoldable pub download_timed : Env → ℕ → Bytes → Timespec → Opened × History → History
unfolding download_opened
download_timed env client_fd name start (o, h) =
    let end = env.clock_gettime h in
    download_opened env client_fd name (elapsed_microseconds start end) o (clock_gettime end ∷ h)

-- From `fileops_lock_acquire_read` on.
unfoldable pub download_file : Env → ℕ → Checked Named → History → History
unfolding download_timed
download_file env client_fd (bad err_code msg) h = send_error env client_fd err_code msg h
download_file env client_fd broken h = fault ∷ h
download_file env client_fd (good r) h =
    let h₁ : History = acquire_read r.name (env.acquire_read h r.name) ∷ h in
    let start = env.clock_gettime h₁ in
    download_timed env client_fd r.name start
      (fileops_open_for_mmap_read env r.path (clock_gettime start ∷ h₁))

unfoldable pub handle_download : Env → Bytes → ℕ → Bytes → ℕ → History → History
unfolding download_file
handle_download env root client_fd payload payload_len h =
    download_file env client_fd (parse_download root payload payload_len) h
