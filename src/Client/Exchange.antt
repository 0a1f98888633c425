-- ===== src/Client/Exchange.antt =====
-- `send_request`, `read_response_header` and `print_simple_result` of client/nervfs_client.c.
use nerv_fs.Base.{
  ℕ, Bool, true, false, ◌||◌, Option, none, some, List, ◌∷◌, ◌>>=◌, Bytes, length, take, drop, ltb,
  ◌==◌, if◌then◌else◌,
}
use nerv_fs.Os.{History, Env, malloc, fault}
use nerv_fs.Wire.{read_u16, read_u64}
use nerv_fs.Wire.Buffer.{load}
use nerv_fs.Protocol.{op_resp_ok, op_resp_err}
use nerv_fs.Protocol.Header.{
  Header, nervfs_magic, nervfs_version, nervfs_header_size, parse_header, serialize_header,
}
use nerv_fs.Protocol.Transfer.{Received, received, recv_full, Sent, sent, send_full}
use nerv_fs.FileOps.Resolve.{c_str, contains}
use nerv_fs.FileOps.Listing.{Dirent}

-- What a command prints on the standard output. `nothing` stands for a message on the standard error
-- only, `faulty` for an access outside a buffer, and `hanging` for a send that does not end.
pub data Shown : Type 0 where
  ok_metrics : (total_us network_us write_us sync_us : ℕ) → Shown
  ok_timed : (total_us : ℕ) → Shown
  error_message : (err_code : ℕ) → (msg : Bytes) → Shown
  listing : (count elapsed_us : ℕ) → (entries : List Dirent) → Shown
  downloaded : (size elapsed_us : ℕ) → Shown
  nothing : Shown
  faulty : Shown
  hanging : Shown

-- The status with which the command ends: 0 after a success.
abbrev pub exit_code : Shown → ℕ
exit_code (ok_metrics total_us network_us write_us sync_us) = 0
exit_code (ok_timed total_us) = 0
exit_code (listing count elapsed_us entries) = 0
exit_code (downloaded size elapsed_us) = 0
exit_code _ = 1

abbrev pub request_header : ℕ → ℕ → Header
request_header opcode payload_len = record {
  magic = nervfs_magic;
  version = nervfs_version;
  opcode = opcode;
  payload_len = payload_len;
  reserved = 0;
}

-- `sent 0` is a return of 0.
unfoldable pub payload_sent : Sent × History → Sent × History
payload_sent (sent n, h) = (sent 0, h)
payload_sent (Sent.failed, h) = (Sent.failed, h)
payload_sent (Sent.spinning, h) = (Sent.spinning, h)

unfoldable pub send_loaded : Env → ℕ → Option Bytes → History → Sent × History
unfolding payload_sent
send_loaded env fd none h = (Sent.failed, fault ∷ h)
send_loaded env fd (some bytes) h = payload_sent (send_full env fd bytes h)

-- After `send_full` of the header.
unfoldable pub header_sent : Env → ℕ → Bytes → ℕ → Sent × History → Sent × History
unfolding send_loaded
header_sent env fd payload payload_len (Sent.failed, h) = (Sent.failed, h)
header_sent env fd payload payload_len (Sent.spinning, h) = (Sent.spinning, h)
header_sent env fd payload payload_len (sent n, h) =
    if ltb 0 payload_len then send_loaded env fd (load payload 0 payload_len) h else (sent 0, h)

unfoldable pub send_request : Env → ℕ → ℕ → Bytes → ℕ → History → Sent × History
unfolding header_sent
send_request env fd opcode payload payload_len h =
    header_sent env fd payload payload_len
      (send_full env fd (serialize_header (request_header opcode payload_len)) h)

abbrev pub accepted : Option (Bool × Header) → Option Header
accepted (some (true, header)) = some header
accepted _ = none

-- The header if `parse_header` returns 0. A full header is never out of its buffer.
unfoldable pub response_received : Received → Option Header
response_received (received buf) =
    if length buf == nervfs_header_size then accepted (parse_header buf) else none
response_received _ = none

unfoldable pub read_response_header : Env → ℕ → History → Option Header × History
unfolding response_received
read_response_header env fd h =
    let r = recv_full env fd nervfs_header_size h in (response_received r.0, r.1)

-- A buffer of `len` bytes that `recv_full` has filled.
abbrev pub filled : ℕ → Received → Option Bytes
filled len (received buf) = if length buf == len then some buf else none
filled len _ = none

-- `malloc` of a buffer, and `recv_full` that has to fill it; `none` for a failure of either.
unfoldable pub recv_allocated : Env → ℕ → ℕ → Bool → History → Option Bytes × History
recv_allocated env fd len false h = (none, h)
recv_allocated env fd len true h = let r = recv_full env fd len h in (filled len r.0, r.1)

unfoldable pub recv_body : Env → ℕ → ℕ → History → Option Bytes × History
unfolding recv_allocated
recv_body env fd len h =
    recv_allocated env fd len (env.malloc h len) (malloc len (env.malloc h len) ∷ h)

-- `printf` with `%.*s`: at most `n` bytes, up to a NUL, from offset `off` on.
unfoldable pub print_text : Bytes → ℕ → ℕ → Option Bytes
print_text buf off n =
    let text = take n (drop off buf) in
    if length text == n || contains 0 text then some (c_str text) else none

abbrev pub shown_or_faulty : Option Shown → Shown
shown_or_faulty none = faulty
shown_or_faulty (some s) = s

unfoldable pub show_error : Option Bytes → Shown
unfolding print_text
show_error none = nothing
show_error (some buf) = shown_or_faulty do
  err_code ← read_u16 buf 0
  msg_len ← read_u16 buf 2
  msg ← print_text buf 4 msg_len
  some (error_message err_code msg)

-- The metrics, or the total alone if they cannot be read.
unfoldable pub show_metrics : ℕ → Option Bytes → Shown
show_metrics total_us none = ok_timed total_us
show_metrics total_us (some buf) = shown_or_faulty do
  network_us ← read_u64 buf 0
  write_us ← read_u64 buf 8
  sync_us ← read_u64 buf 16
  some (ok_metrics total_us network_us write_us sync_us)

unfoldable pub print_ok : Env → ℕ → Header → History → Shown × History
unfolding show_metrics
print_ok env fd resp h =
    let r = recv_full env fd 24 h in
    if resp.payload_len == 24
    then (show_metrics resp.reserved (filled 24 r.0), r.1)
    else (ok_timed resp.reserved, h)

unfoldable pub print_error : Env → ℕ → Header → History → Shown × History
unfolding recv_body show_error
print_error env fd resp h = let r = recv_body env fd resp.payload_len h in (show_error r.0, r.1)

unfoldable pub print_simple_result : Env → ℕ → Header → History → Shown × History
unfolding print_ok print_error
print_simple_result env fd resp h =
    if resp.opcode == op_resp_ok
    then print_ok env fd resp h
    else if resp.opcode == op_resp_err
    then print_error env fd resp h
    else (nothing, h)

-- `read_response_header`, and `print_simple_result` of a good header.
unfoldable pub result_of : Env → ℕ → Option Header × History → Shown × History
unfolding print_simple_result
result_of env fd (none, h) = (nothing, h)
result_of env fd (some resp, h) = print_simple_result env fd resp h

-- What follows `send_request` in three of the commands.
unfoldable pub simple_exchange : Env → ℕ → Sent × History → Shown × History
unfolding result_of
simple_exchange env fd (Sent.failed, h) = (nothing, h)
simple_exchange env fd (Sent.spinning, h) = (hanging, h)
simple_exchange env fd (sent n, h) = result_of env fd (read_response_header env fd h)
