-- ===== src/Handlers/Discipline/Dispatch.antt =====
-- The handlers and `dispatch_request_timed` of src/handlers.c: what they take, they give back.
use nerv_fs.Base.{ℕ, ◌≡◌, Bytes, length, ◌==◌, inl, inr, Bool-cases, none}
use nerv_fs.Os.{History, Env, Timespec}
use nerv_fs.Protocol.{op_req_upload, op_req_download, op_req_list, op_req_delete, op_req_chmod}
use nerv_fs.Protocol.Header.{Header}
use nerv_fs.Handlers.{dispatch_request_timed}
use nerv_fs.Handlers.Usage.{Holds}
use nerv_fs.Handlers.Sound.{
  parse_download-Sound, parse_delete-Sound, parse_chmod-Sound, parse_upload-Sound,
}
use nerv_fs.Handlers.Upload.{handle_upload_timed}
use nerv_fs.Handlers.Download.{handle_download}
use nerv_fs.Handlers.Change.{handle_delete, handle_chmod}
use nerv_fs.Handlers.Discipline.{Free, tick, error, upload_file-Free}
use nerv_fs.Handlers.Discipline.Download.{Maps, download_file-Free}
use nerv_fs.Handlers.Discipline.Rest.{delete_file-Free, chmod_file-Free}
use nerv_fs.Handlers.Discipline.Listing.{IsListable, handle_list-Free}

module _ (root : Bytes) (env : Env) (client : ℕ) (payload : Bytes) (len : ℕ)
    (len_eq : length payload ≡ len) where
  upload-Free :
      (net_start : Timespec) (h : History)
      → Free root env client h
      → Free root env client (handle_upload_timed env root client payload len net_start h)
  unfolding handle_upload_timed
  upload-Free net_start h s =
      upload_file-Free root env client _ _ _ (parse_upload-Sound root payload len len_eq)
        (tick root env client _ s)

  download-Free :
      Maps env
      → (h : History) → Free root env client h
      → Free root env client (handle_download env root client payload len h)
  unfolding handle_download
  download-Free maps h s =
      download_file-Free root env client maps _ h (parse_download-Sound root payload len len_eq) s

  delete-Free :
      (h : History)
      → Free root env client h
      → Free root env client (handle_delete env root client payload len h)
  unfolding handle_delete
  delete-Free h s =
      delete_file-Free root env client _ h (parse_delete-Sound root payload len len_eq) s

  chmod-Free :
      (h : History)
      → Free root env client h
      → Free root env client (handle_chmod env root client payload len h)
  unfolding handle_chmod
  chmod-Free h s = chmod_file-Free root env client _ h (parse_chmod-Sound root payload len len_eq) s

pub dispatch-Holds :
    (env : Env)
    → Maps env
    → IsListable env
    → (root : Bytes) (client : ℕ) (header : Header) (payload : Bytes) (net_start : Timespec)
      (h : History)
    → length payload ≡ header.payload_len
    → Holds root none none h
    → Holds root none none (dispatch_request_timed env root client header payload net_start h)
unfolding dispatch_request_timed
dispatch-Holds env maps listable root client header payload net_start h len_eq s =
    elim (Bool-cases (header.opcode == op_req_upload)) [
      | inl e ↦ rw e (upload-Free root env client payload _ len_eq net_start h s)
      | inr n₁ ↦ elim (Bool-cases (header.opcode == op_req_download)) [
        | inl e ↦ rw (n₁, e) (download-Free root env client payload _ len_eq maps h s)
        | inr n₂ ↦ elim (Bool-cases (header.opcode == op_req_list)) [
          | inl e ↦ rw (n₁, n₂, e) (handle_list-Free root env client listable h s)
          | inr n₃ ↦ elim (Bool-cases (header.opcode == op_req_delete)) [
            | inl e ↦ rw (n₁, n₂, n₃, e) (delete-Free root env client payload _ len_eq h s)
            | inr n₄ ↦ elim (Bool-cases (header.opcode == op_req_chmod)) [
              | inl e ↦ rw (n₁, n₂, n₃, n₄, e) (chmod-Free root env client payload _ len_eq h s)
              | inr n₅ ↦ rw (n₁, n₂, n₃, n₄, n₅) (error root env client _ _ h s)
            ]
          ]
        ]
      ]
    ]
