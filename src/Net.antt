-- ===== src/Net.antt =====
-- `handle_client_readable` of src/net.c: the accept loop reads a header and hands the connection over.
pub mod Request
pub mod Handled
pub mod Select
pub mod Listener
pub mod Echo
use nerv_fs.Base.{ℕ, Bool, true, false, Option, none, some, ◌∷◌, Bytes, length, ltb, if◌then◌else◌}
use nerv_fs.Os.{History, Env, fault}
use nerv_fs.Protocol.Header.{Header, nervfs_header_size, parse_header}
use nerv_fs.Protocol.Transfer.{Received, received, recv_full}
use nerv_fs.ThreadPool.{Pool, threadpool_submit}

-- A return of 1, on which the caller closes the connection, or of 2, or none: an access outside the
-- buffer, or out of fuel.
pub data Readable : Type 0 where
  closing : Readable
  handed_over : Readable
  stuck : Readable

-- `recv_full` of `len` bytes into a buffer of `room` bytes.
unfoldable pub recv_into : ℕ → Env → ℕ → ℕ → History → Received × History
recv_into room env fd len h =
    if ltb room len then (Received.spinning, fault ∷ h) else recv_full env fd len h

-- After `parse_header`; `block` is what `malloc` answers in `threadpool_submit`.
unfoldable pub header_parsed :
    ℕ → Option ℕ → Pool → Option (Bool × Header) → History → Readable × (Pool × History)
header_parsed client_fd block s none h = (stuck, (s, h))
header_parsed client_fd block s (some (false, header)) h = (closing, (s, h))
header_parsed client_fd block s (some (true, header)) h =
    (handed_over, threadpool_submit block client_fd header s h)

-- After `recv_full`.
unfoldable pub header_received :
    ℕ → Option ℕ → Pool → Received × History → Readable × (Pool × History)
unfolding header_parsed
header_received client_fd block s (Received.failed, h) = (closing, (s, h))
header_received client_fd block s (Received.spinning, h) = (stuck, (s, h))
header_received client_fd block s (received header_buf, h) =
    if ltb (length header_buf) nervfs_header_size
    then (closing, (s, h))
    else header_parsed client_fd block s (parse_header header_buf) h

unfoldable pub handle_client_readable :
    Env → ℕ → Option ℕ → Pool → History → Readable × (Pool × History)
unfolding header_received recv_into
handle_client_readable env client_fd block s h =
    header_received client_fd block s
      (recv_into nervfs_header_size env client_fd nervfs_header_size h)
