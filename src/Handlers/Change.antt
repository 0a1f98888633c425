-- ===== src/Handlers/Change.antt =====
-- `handle_delete` and `handle_chmod` of src/handlers.c.
use nerv_fs.Base.{ℕ, Bool, true, false, ◌∷◌, Bytes}
use nerv_fs.Os.{History, Env, Timespec, clock_gettime, acquire_write, release_write, fault}
use nerv_fs.Clock.{elapsed_microseconds}
use nerv_fs.Protocol.{err_not_found}
use nerv_fs.FileOps.Resolve.{codes}
use nerv_fs.FileOps.Files.{fileops_delete_file, fileops_chmod_file}
use nerv_fs.Handlers.Respond.{send_ok, send_error}
use nerv_fs.Handlers.Request.{Checked, good, bad, broken, Named, Chmod, parse_delete, parse_chmod}

-- What both do after the call: read the clock, release the lock, respond.
unfoldable pub change_done : Env → ℕ → Bytes → Timespec → Bool × History → History
change_done env client_fd name start (true, h) =
    let end = env.clock_gettime h in
    send_ok env client_fd (elapsed_microseconds start end)
      (release_write name ∷ clock_gettime end ∷ h)
change_done env client_fd name start (false, h) =
    send_error env client_fd err_not_found (codes "file not found")
      (release_write name ∷ clock_gettime (env.clock_gettime h) ∷ h)

unfoldable pub delete_file : Env → ℕ → Checked Named → History → History
unfolding change_done fileops_delete_file
delete_file env client_fd (bad err_code msg) h = send_error env client_fd err_code msg h
delete_file env client_fd broken h = fault ∷ h
delete_file env client_fd (good r) h =
    let h₁ : History = acquire_write r.name (env.acquire_write h r.name) ∷ h in
    let start = env.clock_gettime h₁ in
    change_done env client_fd r.name start
      (fileops_delete_file env r.path (clock_gettime start ∷ h₁))

unfoldable pub handle_delete : Env → Bytes → ℕ → Bytes → ℕ → History → History
unfolding delete_file
handle_delete env root client_fd payload payload_len h =
    delete_file env client_fd (parse_delete root payload payload_len) h

unfoldable pub chmod_file : Env → ℕ → Checked Chmod → History → History
unfolding change_done fileops_chmod_file
chmod_file env client_fd (bad err_code msg) h = send_error env client_fd err_code msg h
chmod_file env client_fd broken h = fault ∷ h
chmod_file env client_fd (good r) h =
    let h₁ : History = acquire_write r.name (env.acquire_write h r.name) ∷ h in
    let start = env.clock_gettime h₁ in
    change_done env client_fd r.name start
      (fileops_chmod_file env r.path r.mode (clock_gettime start ∷ h₁))

unfoldable pub handle_chmod : Env → Bytes → ℕ → Bytes → ℕ → History → History
unfolding chmod_file
handle_chmod env root client_fd payload payload_len h =
    chmod_file env client_fd (parse_chmod root payload payload_len) h
