-- ===== src/Handlers/Request.antt =====
-- How the handlers of src/handlers.c take a request's payload apart, up to the first lock.
use Prim.Native.String.{String}
use nerv_fs.Base.{
  ℕ, ◌+◌, ◌-◌, Bool, true, false, not, Option, none, some, Bytes, ltb, ◌==◌, if◌then◌else◌,
}
use nerv_fs.Wire.{read_u16, read_u32, read_u64}
use nerv_fs.Wire.Buffer.{load}
use nerv_fs.Protocol.{err_bad_request, err_forbidden}
use nerv_fs.FileOps.Resolve.{
  codes, nervfs_max_name_len, Resolved, resolved, refused, faulty, safe_resolve_path,
}
use nerv_fs.FileOps.Listing.{path_max}

-- The request is good so far, is answered with an error, or leads to an access outside a buffer.
pub data Checked {ℓ} (A : Type ℓ) : Type ℓ where
  good : A → Checked A
  bad : (err_code : ℕ) → (msg : Bytes) → Checked A
  broken : Checked A

infixl 5 ◌>>=◌ ◌>>◌
abbrev pub ◌>>=◌ {ℓ κ} : {A : Type ℓ} {B : Type κ} → Checked A → (A → Checked B) → Checked B
good a >>= f = f a
bad err_code msg >>= f = bad err_code msg
broken >>= f = broken

abbrev pub ◌>>◌ {ℓ} : {B : Type ℓ} → Checked (Unit {0}) → Checked B → Checked B
m >> k = m >>= λ _. k

-- `if (test) { send_error(...); return; }`
abbrev pub refuse_if : Bool → ℕ → String → Checked (Unit {0})
refuse_if true err_code msg = bad err_code (codes msg)
refuse_if false err_code msg = good tt

abbrev pub inside {ℓ} : {A : Type ℓ} → Option A → Checked A
inside none = broken
inside (some a) = good a

-- The outcome of `safe_resolve_path` with a buffer of PATH_MAX bytes.
abbrev pub resolve_or_refuse : Resolved → Checked Bytes
resolve_or_refuse refused = bad err_forbidden (codes "invalid filename")
resolve_or_refuse (resolved path) = good path
resolve_or_refuse faulty = broken

-- The copy goes into a buffer of 256 bytes, with a NUL behind it.
unfoldable pub extract_name : Bytes → ℕ → ℕ → Option Bytes
extract_name payload off name_len =
    if ltb nervfs_max_name_len name_len then none else load payload off name_len

-- What a handler knows of an accepted request: the path, the name, and the file's bytes or the mode.
pub record Upload : Type 0 where
  pub path : Bytes
  pub name : Bytes
  pub body : Bytes

pub record Named : Type 0 where
  pub path : Bytes
  pub name : Bytes

pub record Chmod : Type 0 where
  pub path : Bytes
  pub name : Bytes
  pub mode : ℕ

unfoldable pub parse_upload : Bytes → Bytes → ℕ → Checked Upload
parse_upload root payload payload_len = do
  refuse_if (ltb payload_len 2) err_bad_request "upload payload too short"
  name_len ← inside (read_u16 payload 0)
  refuse_if (ltb payload_len (2 + name_len + 8)) err_bad_request "upload payload truncated"
  file_size ← inside (read_u64 payload (2 + name_len))
  refuse_if (not (payload_len - (2 + name_len + 8) == file_size)) err_bad_request
      "declared file size does not match payload"
  path ← resolve_or_refuse (safe_resolve_path root payload 2 name_len path_max)
  name ← inside (extract_name payload 2 name_len)
  body ← inside (load payload (2 + name_len + 8) file_size)
  good (record { path = path; name = name; body = body })

-- The requests that hold a name and nothing else; the messages differ.
unfoldable pub parse_named : String → String → Bytes → Bytes → ℕ → Checked Named
parse_named too_short malformed root payload payload_len = do
  refuse_if (ltb payload_len 2) err_bad_request too_short
  name_len ← inside (read_u16 payload 0)
  refuse_if (not (payload_len == 2 + name_len)) err_bad_request malformed
  path ← resolve_or_refuse (safe_resolve_path root payload 2 name_len path_max)
  name ← inside (extract_name payload 2 name_len)
  good (record { path = path; name = name })

unfoldable pub parse_download : Bytes → Bytes → ℕ → Checked Named
unfolding parse_named
parse_download = parse_named "download payload too short" "download payload malformed"

unfoldable pub parse_delete : Bytes → Bytes → ℕ → Checked Named
unfolding parse_named
parse_delete = parse_named "delete payload too short" "delete payload malformed"

unfoldable pub parse_chmod : Bytes → Bytes → ℕ → Checked Chmod
parse_chmod root payload payload_len = do
  refuse_if (ltb payload_len 2) err_bad_request "chmod payload too short"
  name_len ← inside (read_u16 payload 0)
  refuse_if (not (payload_len == 2 + name_len + 4)) err_bad_request "chmod payload malformed"
  path ← resolve_or_refuse (safe_resolve_path root payload 2 name_len path_max)
  mode ← inside (read_u32 payload (2 + name_len))
  name ← inside (extract_name payload 2 name_len)
  good (record { path = path; name = name; mode = mode })
