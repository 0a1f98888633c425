-- ===== src/Client.antt =====
-- client/nervfs_client.c: first the payloads that it builds for an upload, a download or a deletion, and
-- a change of mode. `none` is a write outside the buffer. The exchange with the server, the commands and
-- `main` are in child modules.
pub mod Exchange
pub mod Listing
pub mod Commands
pub mod Main
pub mod Decode
pub mod Answers
pub mod EndToEnd
pub mod Requests
use nerv_fs.Base.{ℕ, ◌+◌, ◌%◌, ◌^◌, Option, ◌>>=◌, Bytes, length, take, replicate}
use nerv_fs.Wire.{write_u16, write_u32, write_u64}
use nerv_fs.Wire.Buffer.{store}

-- `payload_len` of `do_upload`, of type uint32_t; `size` is of type long and not negative.
abbrev pub upload_payload_len : Bytes → ℕ → ℕ
upload_payload_len remote_name size = (2 + length remote_name % 2 ^ 16 + 8 + size % 2 ^ 32) % 2 ^ 32

-- `do_upload` up to `fread`.
unfoldable pub upload_head : Bytes → ℕ → Option Bytes
unfolding store
upload_head remote_name size = do
  let name_len : ℕ = length remote_name % 2 ^ 16
  buf₁ ← store (replicate (upload_payload_len remote_name size) 0) 0 (write_u16 name_len)
  buf₂ ← store buf₁ 2 (take name_len remote_name)
  store buf₂ (2 + name_len) (write_u64 size)

-- `body` is what `fread` puts into the buffer.
unfoldable pub upload_payload : Bytes → Bytes → Option Bytes
unfolding upload_head
upload_payload remote_name body = do
  buf ← upload_head remote_name (length body)
  store buf (2 + length remote_name % 2 ^ 16 + 8) body

-- `do_delete`, and `do_download` in the same words.
unfoldable pub named_payload : Bytes → Option Bytes
unfolding store
named_payload remote_name = do
  let name_len : ℕ = length remote_name % 2 ^ 16
  buf₁ ← store (replicate (2 + name_len) 0) 0 (write_u16 name_len)
  store buf₁ 2 (take name_len remote_name)

-- `do_chmod`
unfoldable pub chmod_payload : Bytes → ℕ → Option Bytes
unfolding store
chmod_payload remote_name mode = do
  let name_len : ℕ = length remote_name % 2 ^ 16
  buf₁ ← store (replicate (2 + name_len + 4) 0) 0 (write_u16 name_len)
  buf₂ ← store buf₁ 2 (take name_len remote_name)
  store buf₂ (2 + name_len) (write_u32 mode)
