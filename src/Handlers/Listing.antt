-- ===== src/Handlers/Listing.antt =====
-- `handle_list` of src/handlers.c.
use nerv_fs.Base.{
  ℕ, ◌+◌, ◌%◌, ◌^◌, Bool, true, false, Option, none, some, List, [], ◌∷◌, ◌>>=◌, Bytes, length,
  take, replicate,
}
use nerv_fs.Os.{History, Env, Timespec, clock_gettime, malloc, fault}
use nerv_fs.Wire.{write_u16, write_u32, write_u64}
use nerv_fs.Wire.Buffer.{store}
use nerv_fs.Clock.{elapsed_microseconds}
use nerv_fs.Protocol.{op_resp_list_data, err_internal}
use nerv_fs.FileOps.Resolve.{codes}
use nerv_fs.FileOps.Listing.{Dirent, Listed, listed, list_failed, fileops_list_dir}
use nerv_fs.Handlers.Respond.{send_message, send_error}

-- The first loop: the payload's length, of type uint32_t.
unfoldable pub list_len : ℕ → List Dirent → ℕ
list_len payload_len [] = payload_len
list_len payload_len (e ∷ entries) =
    list_len ((payload_len + (2 + length e.name + 8 + 4)) % 2 ^ 32) entries

-- The second loop: the entries into the buffer, from offset `off` on.
unfoldable pub fill_entries : List Dirent → ℕ → Bytes → Option Bytes
unfolding store
fill_entries [] off buf = some buf
fill_entries (e ∷ entries) off buf = do
  let nlen = length e.name % 2 ^ 16
  buf₁ ← store buf off (write_u16 nlen)
  buf₂ ← store buf₁ (off + 2) (take nlen e.name)
  buf₃ ← store buf₂ (off + 2 + nlen) (write_u64 e.size)
  buf₄ ← store buf₃ (off + 2 + nlen + 8) (write_u32 e.mode)
  fill_entries entries (off + 2 + nlen + 8 + 4) buf₄

-- The buffer after both loops; `none` is a write outside of it.
unfoldable pub fill_list : List Dirent → ℕ → Option Bytes
unfolding fill_entries
fill_list entries payload_len = do
  buf ← store (replicate payload_len 0) 0 (write_u32 (length entries))
  fill_entries entries 4 buf

unfoldable pub send_list : Env → ℕ → ℕ → ℕ → Option Bytes → History → History
send_list env client_fd elapsed_us payload_len none h = fault ∷ h
send_list env client_fd elapsed_us payload_len (some buf) h =
    send_message env client_fd op_resp_list_data (some buf) payload_len elapsed_us h

unfoldable pub list_allocated : Env → ℕ → ℕ → List Dirent → Bool → History → History
unfolding send_list
list_allocated env client_fd elapsed_us entries false h =
    send_error env client_fd err_internal (codes "response allocation failed") h
list_allocated env client_fd elapsed_us entries true h =
    send_list env client_fd elapsed_us (list_len 4 entries) (fill_list entries (list_len 4 entries))
      h

-- After `fileops_list_dir` and the second reading of the clock.
unfoldable pub list_response : Env → ℕ → ℕ → Listed → History → History
unfolding list_allocated
list_response env client_fd elapsed_us list_failed h =
    send_error env client_fd err_internal (codes "failed to list storage directory") h
list_response env client_fd elapsed_us (listed entries) h =
    list_allocated env client_fd elapsed_us entries (env.malloc h (list_len 4 entries))
      (malloc (list_len 4 entries) (env.malloc h (list_len 4 entries)) ∷ h)

unfoldable pub list_timed : Env → ℕ → Timespec → Listed × History → History
unfolding list_response
list_timed env client_fd start (l, h) =
    let end = env.clock_gettime h in
    list_response env client_fd (elapsed_microseconds start end) l (clock_gettime end ∷ h)

unfoldable pub handle_list : Env → Bytes → ℕ → History → History
unfolding list_timed
handle_list env root client_fd h =
    let start = env.clock_gettime h in
    list_timed env client_fd start (fileops_list_dir env root (clock_gettime start ∷ h))
