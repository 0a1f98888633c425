-- ===== src/Handlers.antt =====
-- src/handlers.c: a function for each request, from the payload to the response. Each takes the
-- environment that answers its calls, and the history of calls, which it makes longer.
pub mod Respond
pub mod Request
pub mod Upload
pub mod Download
pub mod Listing
pub mod Change
pub mod Usage
pub mod Sound
pub mod ListPayload
pub mod Reply
pub mod Discipline
pub mod Answer
pub mod Stores
pub mod Returns
use nerv_fs.Base.{ℕ, ◌==◌, Bytes, if◌then◌else◌}
use nerv_fs.Os.{History, Env, Timespec}
use nerv_fs.Protocol.{
  op_req_upload, op_req_download, op_req_list, op_req_delete, op_req_chmod, err_bad_request,
}
use nerv_fs.Protocol.Header.{Header}
use nerv_fs.FileOps.Resolve.{codes}
use Respond.{send_error}
use Upload.{handle_upload_timed}
use Download.{handle_download}
use Listing.{handle_list}
use Change.{handle_delete, handle_chmod}

-- `root` is the variable `storage_root_real` of src/fileops.c.
unfoldable pub dispatch_request_timed :
    Env → Bytes → ℕ → Header → Bytes → Timespec → History → History
dispatch_request_timed env root client_fd header payload net_start h =
    if header.opcode == op_req_upload
    then handle_upload_timed env root client_fd payload header.payload_len net_start h
    else if header.opcode == op_req_download
    then handle_download env root client_fd payload header.payload_len h
    else if header.opcode == op_req_list
    then handle_list env root client_fd h
    else if header.opcode == op_req_delete
    then handle_delete env root client_fd payload header.payload_len h
    else if header.opcode == op_req_chmod
    then handle_chmod env root client_fd payload header.payload_len h
    else send_error env client_fd err_bad_request (codes "unknown opcode") h
