-- ===== src/Handlers/Respond.antt =====
-- `send_message`, `send_ok` and `send_error` of src/handlers.c.
use nerv_fs.Base.{
  ℕ, ◌+◌, ◌%◌, ◌^◌, Bool, true, false, Option, none, some, ◌∷◌, ◌++◌, Bytes, length, take, ltb,
  if◌then◌else◌,
}
use nerv_fs.Os.{History, Env, malloc, fault}
use nerv_fs.Wire.{write_u16}
use nerv_fs.Wire.Buffer.{load}
use nerv_fs.Protocol.{op_resp_ok, op_resp_err}
use nerv_fs.Protocol.Header.{Header, nervfs_magic, nervfs_version, serialize_header}
use nerv_fs.Protocol.Transfer.{send_full}

abbrev pub response_header : ℕ → ℕ → ℕ → Header
response_header opcode payload_len elapsed_us = record {
  magic = nervfs_magic;
  version = nervfs_version;
  opcode = opcode;
  payload_len = payload_len;
  reserved = elapsed_us;
}

-- `send_full` of the bytes that a pointer and a length give; the result is not looked at.
unfoldable pub send_bytes : Env → ℕ → Option Bytes → History → History
send_bytes env client_fd none h = fault ∷ h
send_bytes env client_fd (some bytes) h = (send_full env client_fd bytes h).1

unfoldable pub send_payload : Env → ℕ → Option Bytes → ℕ → History → History
unfolding send_bytes
send_payload env client_fd none payload_len h = h
send_payload env client_fd (some payload) payload_len h =
    if ltb 0 payload_len then send_bytes env client_fd (load payload 0 payload_len) h else h

-- The payload is `none` for a null pointer.
unfoldable pub send_message : Env → ℕ → ℕ → Option Bytes → ℕ → ℕ → History → History
unfolding send_payload
send_message env client_fd opcode payload payload_len elapsed_us h =
    send_payload env client_fd payload payload_len
      (send_full env client_fd (serialize_header (response_header opcode payload_len elapsed_us))
        h).1

unfoldable pub send_ok : Env → ℕ → ℕ → History → History
send_ok env client_fd elapsed_us h = send_message env client_fd op_resp_ok none 0 elapsed_us h

-- The payload of an error: code, length of the message, and the message.
unfoldable pub error_payload : ℕ → Bytes → Bytes
error_payload err_code msg =
    let msg_len = length msg % 2 ^ 16 in
    write_u16 err_code ++ (write_u16 msg_len ++ take msg_len msg)

unfoldable pub send_allocated : Env → ℕ → ℕ → Bytes → Bool → History → History
send_allocated env client_fd err_code msg false h = h
send_allocated env client_fd err_code msg true h =
    send_message env client_fd op_resp_err (some (error_payload err_code msg))
      (2 + 2 + length msg % 2 ^ 16) 0 h

unfoldable pub send_error : Env → ℕ → ℕ → Bytes → History → History
unfolding send_allocated
send_error env client_fd err_code msg h =
    let payload_len = 2 + 2 + length msg % 2 ^ 16 in
    send_allocated env client_fd err_code msg (env.malloc h payload_len)
      (malloc payload_len (env.malloc h payload_len) ∷ h)
