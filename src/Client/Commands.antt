-- ===== src/Client/Commands.antt =====
-- `do_upload`, `do_download`, `do_delete` and `do_chmod` of client/nervfs_client.c.
use nerv_fs.Base.{
  ℕ, ◌+◌, ◌%◌, ◌^◌, Bool, true, false, Option, none, some, [], ◌∷◌, Bytes, length, ltb, ◌==◌,
  if◌then◌else◌,
}
use nerv_fs.Os.{History, Env, malloc, fopen_read, fopen_write, ftell, fread, fwrite, fclose, fault}
use nerv_fs.Wire.{read_u64}
use nerv_fs.Wire.Buffer.{store}
use nerv_fs.Protocol.{
  op_req_upload, op_req_download, op_req_delete, op_req_chmod, op_resp_file_data,
}
use nerv_fs.Protocol.Header.{Header}
use nerv_fs.Protocol.Transfer.{Sent, sent, recv_full}
use nerv_fs.Client.{upload_payload_len, upload_head, named_payload, chmod_payload}
use nerv_fs.Client.Exchange.{
  Shown, downloaded, nothing, faulty, hanging, send_request, read_response_header, recv_body,
  filled, print_simple_result, simple_exchange,
}

-- A request whose payload is in a buffer, and the simple answer to it.
unfoldable pub send_built : Env → ℕ → ℕ → ℕ → Option Bytes → History → Shown × History
unfolding simple_exchange
send_built env fd opcode payload_len none h = (faulty, fault ∷ h)
send_built env fd opcode payload_len (some payload) h =
    simple_exchange env fd (send_request env fd opcode payload payload_len h)

-- After `malloc` of the payload.
unfoldable pub send_allocated_request :
    Env → ℕ → ℕ → ℕ → Option Bytes → Bool → History → Shown × History
unfolding send_built
send_allocated_request env fd opcode payload_len payload false h = (nothing, h)
send_allocated_request env fd opcode payload_len payload true h =
    send_built env fd opcode payload_len payload h

unfoldable pub do_delete : Env → ℕ → Bytes → History → Shown × History
unfolding send_allocated_request named_payload
do_delete env fd remote_name h =
    let len = 2 + length remote_name % 2 ^ 16 in
    send_allocated_request env fd op_req_delete len (named_payload remote_name) (env.malloc h len)
      (malloc len (env.malloc h len) ∷ h)

-- `mode` is what `strtol` reads, of type uint32_t.
unfoldable pub do_chmod : Env → ℕ → Bytes → ℕ → History → Shown × History
unfolding send_allocated_request chmod_payload
do_chmod env fd remote_name mode h =
    let len = 2 + length remote_name % 2 ^ 16 + 4 in
    send_allocated_request env fd op_req_chmod len (chmod_payload remote_name mode)
      (env.malloc h len) (malloc len (env.malloc h len) ∷ h)

-- After `fread` and `fclose`, with the bytes that were read.
unfoldable pub upload_read : Env → ℕ → Bytes → ℕ → Bytes → Bytes → History → Shown × History
unfolding send_built
upload_read env fd remote_name size head bytes h =
    if length bytes == size
    then send_built env fd op_req_upload (upload_payload_len remote_name size)
        (store head (2 + length remote_name % 2 ^ 16 + 8) bytes) (fclose ∷ h)
    else (nothing, fclose ∷ h)

-- After the name and the size are in the buffer. An empty file is not read.
unfoldable pub upload_started : Env → ℕ → Bytes → ℕ → Option Bytes → History → Shown × History
unfolding upload_read
upload_started env fd remote_name size none h = (faulty, fault ∷ h)
upload_started env fd remote_name size (some head) h =
    if ltb 0 size
    then upload_read env fd remote_name size head (env.fread h size)
        (fread size (env.fread h size) ∷ h)
    else upload_read env fd remote_name size head [] h

unfoldable pub upload_allocated : Env → ℕ → Bytes → ℕ → Bool → History → Shown × History
unfolding upload_started
upload_allocated env fd remote_name size false h = (nothing, fclose ∷ h)
upload_allocated env fd remote_name size true h =
    upload_started env fd remote_name size (upload_head remote_name size) h

unfoldable pub upload_measured : Env → ℕ → Bytes → Option ℕ → History → Shown × History
unfolding upload_allocated
upload_measured env fd remote_name none h = (nothing, fclose ∷ h)
upload_measured env fd remote_name (some size) h =
    let len = upload_payload_len remote_name size in
    upload_allocated env fd remote_name size (env.malloc h len) (malloc len (env.malloc h len) ∷ h)

unfoldable pub local_opened : Env → ℕ → Bytes → Bool → History → Shown × History
unfolding upload_measured
local_opened env fd remote_name false h = (nothing, h)
local_opened env fd remote_name true h =
    upload_measured env fd remote_name (env.ftell h) (ftell (env.ftell h) ∷ h)

unfoldable pub do_upload : Env → ℕ → Bytes → Bytes → History → Shown × History
unfolding local_opened
do_upload env fd local_file remote_name h =
    local_opened env fd remote_name (env.fopen_read h local_file)
      (fopen_read local_file (env.fopen_read h local_file) ∷ h)

-- After `fopen` of the local file; what `fwrite` returns is not looked at, and `data` of an empty
-- file is not written.
unfoldable pub save_opened : Env → ℕ → ℕ → Bytes → Bool → History → Shown × History
save_opened env size elapsed_us bytes false h = (nothing, h)
save_opened env size elapsed_us bytes true h = (
  downloaded size elapsed_us,
  fclose ∷ (if ltb 0 size then fwrite bytes (env.fwrite h bytes) ∷ h else h),
)

-- After the body has been read.
unfoldable pub save_file : Env → Bytes → ℕ → ℕ → Option Bytes × History → Shown × History
unfolding save_opened
save_file env local_file size elapsed_us (none, h) = (nothing, h)
save_file env local_file size elapsed_us (some bytes, h) =
    save_opened env size elapsed_us bytes (env.fopen_write h local_file)
      (fopen_write local_file (env.fopen_write h local_file) ∷ h)

-- After the size has been read.
unfoldable pub download_sized : Env → ℕ → Bytes → ℕ → Option ℕ → History → Shown × History
unfolding save_file
download_sized env fd local_file elapsed_us none h = (faulty, fault ∷ h)
download_sized env fd local_file elapsed_us (some size) h =
    save_file env local_file size elapsed_us
      (if ltb 0 size then recv_body env fd size h else (some [], h))

unfoldable pub download_prefix : Env → ℕ → Bytes → ℕ → Option Bytes × History → Shown × History
unfolding download_sized
download_prefix env fd local_file elapsed_us (none, h) = (nothing, h)
download_prefix env fd local_file elapsed_us (some size_buf, h) =
    download_sized env fd local_file elapsed_us (read_u64 size_buf 0) h

unfoldable pub download_answered : Env → ℕ → Bytes → Option Header × History → Shown × History
unfolding download_prefix
download_answered env fd local_file (none, h) = (nothing, h)
download_answered env fd local_file (some resp, h) =
    let r = recv_full env fd 8 h in
    if resp.opcode == op_resp_file_data
    then download_prefix env fd local_file resp.reserved (filled 8 r.0, r.1)
    else print_simple_result env fd resp h

unfoldable pub download_requested : Env → ℕ → Bytes → Sent × History → Shown × History
unfolding download_answered
download_requested env fd local_file (Sent.failed, h) = (nothing, h)
download_requested env fd local_file (Sent.spinning, h) = (hanging, h)
download_requested env fd local_file (sent n, h) =
    download_answered env fd local_file (read_response_header env fd h)

unfoldable pub download_built : Env → ℕ → Bytes → ℕ → Option Bytes → History → Shown × History
unfolding download_requested
download_built env fd local_file len none h = (faulty, fault ∷ h)
download_built env fd local_file len (some payload) h =
    download_requested env fd local_file (send_request env fd op_req_download payload len h)

unfoldable pub download_allocated :
    Env → ℕ → Bytes → ℕ → Option Bytes → Bool → History → Shown × History
unfolding download_built
download_allocated env fd local_file len payload false h = (nothing, h)
download_allocated env fd local_file len payload true h =
    download_built env fd local_file len payload h

unfoldable pub do_download : Env → ℕ → Bytes → Bytes → History → Shown × History
unfolding download_allocated named_payload
do_download env fd remote_name local_file h =
    let len = 2 + length remote_name % 2 ^ 16 in
    download_allocated env fd local_file len (named_payload remote_name) (env.malloc h len)
      (malloc len (env.malloc h len) ∷ h)
