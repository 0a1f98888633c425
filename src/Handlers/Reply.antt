-- ===== src/Handlers/Reply.antt =====
-- The responses that src/handlers.c sends, as values, against docs/api_reference.md: what each says, how
-- it looks on the wire, and when its fields fit.
use nerv_fs.Base.{
  refl, take_all, ◌%◌, ℕ, ◌+◌, ◌^◌, ◌≤◌, ◌<◌, ◌≢◌, ◌≡◌, Bool, true, false, not, ◌&&◌, ltb, arith,
  List, [], ◌++◌, All, Bytes, length,
}
use nerv_fs.Wire.{write_u16, write_u32, write_u64}
use nerv_fs.Protocol.Header.{serialize_header}
use nerv_fs.Protocol.RoundTrip.{wire_header}
use nerv_fs.FileOps.Resolve.{contains}
use nerv_fs.FileOps.Resolve.Safe.{contains-none}
use nerv_fs.FileOps.Listing.{Dirent}
use nerv_fs.Handlers.Respond.{response_header, error_payload}
use nerv_fs.Handlers.ListPayload.{encode_entries, entries_size}

pub data Reply : Type 0 where
  ok_reply : (total_us : ℕ) → Reply
  metrics_reply : (total_us network_us write_us sync_us : ℕ) → Reply
  error_reply : (err_code : ℕ) → (msg : Bytes) → Reply
  listing_reply : (total_us : ℕ) → (entries : List Dirent) → Reply
  file_reply : (total_us : ℕ) → (bytes : Bytes) → Reply

abbrev pub reply_opcode : Reply → ℕ
reply_opcode (ok_reply total_us) = 0x80
reply_opcode (metrics_reply total_us network_us write_us sync_us) = 0x80
reply_opcode (error_reply err_code msg) = 0x81
reply_opcode (listing_reply total_us entries) = 0x83
reply_opcode (file_reply total_us bytes) = 0x82

-- The field `reserved`.
abbrev pub reply_us : Reply → ℕ
reply_us (ok_reply total_us) = total_us
reply_us (metrics_reply total_us network_us write_us sync_us) = total_us
reply_us (error_reply err_code msg) = 0
reply_us (listing_reply total_us entries) = total_us
reply_us (file_reply total_us bytes) = total_us

abbrev pub reply_body : Reply → Bytes
reply_body (ok_reply total_us) = []
reply_body (metrics_reply total_us network_us write_us sync_us) =
    write_u64 network_us ++ (write_u64 write_us ++ write_u64 sync_us)
reply_body (error_reply err_code msg) = write_u16 err_code ++ (write_u16 (length msg) ++ msg)
reply_body (listing_reply total_us entries) = write_u32 (length entries) ++ encode_entries entries
reply_body (file_reply total_us bytes) = write_u64 (length bytes) ++ bytes

abbrev pub reply_bytes : Reply → Bytes
reply_bytes r = wire_header (reply_opcode r) (length (reply_body r)) (reply_us r) ++ reply_body r

pub response_header-wire_header :
    (opcode payload_len elapsed_us : ℕ)
    → serialize_header (response_header opcode payload_len elapsed_us)
      ≡ wire_header opcode payload_len elapsed_us
unfolding serialize_header
response_header-wire_header opcode payload_len elapsed_us = refl

-- An error code with a C string whose length fits its field.
pub record IsMessage (err_code : ℕ) (msg : Bytes) : Type 0 where
  pub code_fits : err_code < 2 ^ 16
  pub msg_fits : length msg < 2 ^ 16
  pub no_nul : All (λ b. b ≢ 0) msg

pub error_payload-IsMessage :
    (err_code : ℕ) (msg : Bytes)
    → IsMessage err_code msg
    → error_payload err_code msg ≡ reply_body (error_reply err_code msg)
unfolding error_payload
error_payload-IsMessage err_code msg fit =
    let n_eq : length msg % 2 ^ 16 ≡ length msg = omega (arith, fit.msg_fits) in
    rw (n_eq, take_all (length msg) msg (omega arith)) refl

-- A test for the messages that are literals.
abbrev fits_message : ℕ → Bytes → Bool
fits_message err_code msg =
    ltb err_code (2 ^ 16) && (ltb (length msg) (2 ^ 16) && not (contains 0 msg))

pub literal :
    (err_code : ℕ) (msg : Bytes) → fits_message err_code msg ≡ true → IsMessage err_code msg
literal err_code msg h = record {
  code_fits = ground arith;
  msg_fits = ground arith;
  no_nul = contains-none 0 msg (ground arith);
}

-- An entry whose name is a C string of at most 255 bytes, with numbers within their types.
pub record IsListed (e : Dirent) : Type 0 where
  pub short : length e.name ≤ 255
  pub no_nul : All (λ b. b ≢ 0) e.name
  pub size_fits : e.size < 2 ^ 64
  pub mode_fits : e.mode < 2 ^ 32

-- All numbers fit their fields, and texts are C strings.
abbrev pub IsFit : Reply → Type 0
IsFit (ok_reply total_us) = total_us < 2 ^ 64
IsFit (metrics_reply total_us network_us write_us sync_us) =
    (total_us < 2 ^ 64) × (network_us < 2 ^ 64) × (write_us < 2 ^ 64) × (sync_us < 2 ^ 64)
IsFit (error_reply err_code msg) = IsMessage err_code msg
IsFit (listing_reply total_us entries) =
    (total_us < 2 ^ 64) × All IsListed entries × (4 + entries_size entries < 2 ^ 32)
IsFit (file_reply total_us bytes) = (total_us < 2 ^ 64) × (8 + length bytes < 2 ^ 32)

-- What a request asks for.
pub data Kind : Type 0 where
  upload_kind : Kind
  download_kind : Kind
  list_kind : Kind
  change_kind : Kind
  unknown_kind : Kind

-- An error answers any request; each other response answers one kind.
abbrev pub suits : Kind → Reply → Bool
suits k (error_reply err_code msg) = true
suits upload_kind (metrics_reply total_us network_us write_us sync_us) = true
suits download_kind (file_reply total_us bytes) = true
suits list_kind (listing_reply total_us entries) = true
suits change_kind (ok_reply total_us) = true
suits k r = false
