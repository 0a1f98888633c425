-- ===== src/Protocol.antt =====
-- src/protocol.c and include/protocol.h: the message header, and full transfers over a socket.
pub mod Header
pub mod RoundTrip
pub mod Typed
pub mod Transfer
use nerv_fs.Base.{ℕ}

abbrev pub op_req_upload : ℕ
op_req_upload = 0x01

abbrev pub op_req_download : ℕ
op_req_download = 0x02

abbrev pub op_req_list : ℕ
op_req_list = 0x03

abbrev pub op_req_delete : ℕ
op_req_delete = 0x04

abbrev pub op_req_chmod : ℕ
op_req_chmod = 0x05

abbrev pub op_resp_ok : ℕ
op_resp_ok = 0x80

abbrev pub op_resp_err : ℕ
op_resp_err = 0x81

abbrev pub op_resp_file_data : ℕ
op_resp_file_data = 0x82

abbrev pub op_resp_list_data : ℕ
op_resp_list_data = 0x83

abbrev pub err_not_found : ℕ
err_not_found = 404

abbrev pub err_forbidden : ℕ
err_forbidden = 403

abbrev pub err_internal : ℕ
err_internal = 500

abbrev pub err_bad_request : ℕ
err_bad_request = 400
