-- ===== src/Handlers/Answer/Dispatch.antt =====
-- `dispatch_request_timed` of src/handlers.c answers each request once.
use nerv_fs.Base.{ℕ, ◌≡◌, refl, ◌∷◌, Bytes, length, ◌==◌, inl, inr, Bool-cases, none, if◌then◌else◌}
use nerv_fs.Os.{History, Env, Timespec, clock_gettime}
use nerv_fs.Clock.{elapsed_microseconds, elapsed_microseconds-lt}
use nerv_fs.Protocol.{op_req_upload, op_req_download, op_req_list, op_req_delete, op_req_chmod}
use nerv_fs.Protocol.Header.{Header}
use nerv_fs.Protocol.Transfer.{written}
use nerv_fs.Handlers.{dispatch_request_timed}
use nerv_fs.Handlers.Usage.{Holds}
use nerv_fs.Handlers.Sound.{
  IsPathOf, parse_download-Sound, parse_delete-Sound, parse_chmod-Sound, parse_upload-Sound,
}
use nerv_fs.Handlers.Request.{parse_upload}
use nerv_fs.Handlers.Upload.{handle_upload_timed}
use nerv_fs.Handlers.Download.{handle_download}
use nerv_fs.Handlers.Change.{handle_delete, handle_chmod}
use nerv_fs.Handlers.Discipline.Download.{Maps}
use nerv_fs.Handlers.Discipline.Listing.{IsListable}
use nerv_fs.Handlers.Answer.{
  IsReliable, Answered, send_error-Answered, delete_file-Answered, chmod_file-Answered,
}
use nerv_fs.Handlers.Answer.Download.{HasShortFiles, download_file-Answered}
use nerv_fs.Handlers.Answer.Listing.{IsStorage, handle_list-Answered}
use nerv_fs.Handlers.Answer.Upload.{upload_file-Answered}
use nerv_fs.Handlers.Reply.{
  Kind, upload_kind, download_kind, list_kind, change_kind, unknown_kind, literal,
}

module _ (root : Bytes) (env : Env) (client : ℕ) (ok : IsReliable env client) (payload : Bytes)
    (len : ℕ) (len_eq : length payload ≡ len) (h : History) where
  upload-Answered :
      (net_start : Timespec)
      → Answered client
          (written client h)
          upload_kind
          (handle_upload_timed env root client payload len net_start h)
  unfolding handle_upload_timed
  upload-Answered net_start =
      let net_end = env.clock_gettime h in
      upload_file-Answered env client ok (written client h) (λ u. IsPathOf root u.path u.name)
        (elapsed_microseconds net_start net_end) (parse_upload root payload len)
        (clock_gettime net_end ∷ h) (elapsed_microseconds-lt _ _)
        (parse_upload-Sound root payload len len_eq) refl

  download-Answered :
      Maps env
      → HasShortFiles env
      → Answered client
          (written client h)
          download_kind
          (handle_download env root client payload len h)
  unfolding handle_download
  download-Answered maps files =
      download_file-Answered env client ok maps files (written client h)
        (λ q. IsPathOf root q.path q.name) _ h (parse_download-Sound root payload len len_eq) refl

  delete-Answered :
      Answered client (written client h) change_kind (handle_delete env root client payload len h)
  unfolding handle_delete
  delete-Answered =
      delete_file-Answered env client ok (written client h) change_kind (λ elapsed_us. refl)
        (λ q. IsPathOf root q.path q.name) _ h (parse_delete-Sound root payload len len_eq) refl

  chmod-Answered :
      Answered client (written client h) change_kind (handle_chmod env root client payload len h)
  unfolding handle_chmod
  chmod-Answered =
      chmod_file-Answered env client ok (written client h) change_kind (λ elapsed_us. refl)
        (λ q. IsPathOf root q.path q.name) _ h (parse_chmod-Sound root payload len len_eq) refl

-- The kind of a request, from its opcode.
abbrev pub kind_of : ℕ → Kind
kind_of opcode =
    if opcode == 1
    then upload_kind
    else if opcode == 2
    then download_kind
    else if opcode == 3
    then list_kind
    else if opcode == 4
    then change_kind
    else if opcode == 5
    then change_kind
    else unknown_kind

-- If the client takes all that is written to it, `malloc` grants all requests, a file opened for
-- writing gets another descriptor than the client's, a map has the size asked for, files are at most
-- 2^32 - 9 bytes long, the directory has at most 15,000,000 names, which are C strings, file sizes
-- are below 2^64, the payload has the length in the header, and the thread holds no lock and no
-- file: every request, good or not, is answered with exactly one response, an error or the one for
-- its opcode, whose fields fit: magic 0xAE, version 1, the opcode, the length of the body and the
-- time, and then the body.
pub dispatch-Answered :
    (env : Env) (client : ℕ)
    → IsReliable env client
    → Maps env
    → HasShortFiles env
    → IsListable env
    → IsStorage env
    → (root : Bytes) (header : Header) (payload : Bytes) (net_start : Timespec) (h : History)
    → length payload ≡ header.payload_len
    → Holds root none none h
    → Answered client
        (written client h)
        (kind_of header.opcode)
        (dispatch_request_timed env root client header payload net_start h)
unfolding dispatch_request_timed
dispatch-Answered env client ok maps files listable storage root header payload net_start h len_eq
      s =
    elim (Bool-cases (header.opcode == op_req_upload)) [
      | inl e ↦ rw e (upload-Answered root env client ok payload _ len_eq h net_start)
      | inr n₁ ↦ elim (Bool-cases (header.opcode == op_req_download)) [
        | inl e ↦ rw (n₁, e) (download-Answered root env client ok payload _ len_eq h maps files)
        | inr n₂ ↦ elim (Bool-cases (header.opcode == op_req_list)) [
          | inl e ↦
              rw (n₁, n₂, e) (handle_list-Answered env root client ok _ storage listable h s refl)
          | inr n₃ ↦ elim (Bool-cases (header.opcode == op_req_delete)) [
            | inl e ↦ rw (n₁, n₂, n₃, e) (delete-Answered root env client ok payload _ len_eq h)
            | inr n₄ ↦ elim (Bool-cases (header.opcode == op_req_chmod)) [
              | inl e ↦
                  rw (n₁, n₂, n₃, n₄, e) (chmod-Answered root env client ok payload _ len_eq h)
              | inr n₅ ↦
                  rw (n₁, n₂, n₃, n₄, n₅)
                    (send_error-Answered env client ok _ unknown_kind _ _ h (literal _ _ refl) refl)
            ]
          ]
        ]
      ]
    ]
