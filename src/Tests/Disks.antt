-- ===== src/Tests/Disks.antt =====
-- An upload and a download at concrete inputs.
use nerv_fs.Base.{
  ℕ, ◌+◌, ◌^◌, ◌<◌, ◌≤◌, ◌≡◌, ◌≢◌, refl, subst, Bool, true, false, Option, none, some, [], ◌∷◌,
  arith, Bytes, length, replicate, length-replicate, ltb, ◌==◌, ==_iff, ==_refl, lt→ltb,
  if◌then◌else◌, Bool-cases, inl, inr, str_eq,
}
use mathlib.Core.Option.{some-injective}
use nerv_fs.Os.{History, Env}
use nerv_fs.Disk.{file}
use nerv_fs.FileOps.Resolve.{codes}
use nerv_fs.Wire.{read_u16, read_u64}
use nerv_fs.FileOps.Resolve.{safe_resolve_path}
use nerv_fs.Protocol.Transfer.{written}
use nerv_fs.Protocol.Transfer.Peer.{TakesAll}
use nerv_fs.Handlers.Request.{good, extract_name, parse_upload, parse_download}
use nerv_fs.Handlers.Upload.{handle_upload_timed}
use nerv_fs.Handlers.Download.{handle_download}
use nerv_fs.Handlers.Answer.{IsReliable}
use nerv_fs.Handlers.Answer.Download.{HasShortFiles}
use nerv_fs.Handlers.Discipline.Download.{Maps}
use nerv_fs.Handlers.Stores.{IsObliging, Thanked, replaced, handle_upload_timed-stores}
use nerv_fs.Handlers.Returns.{IsHonest, Delivered, handle_download-handle_upload_timed}
use nerv_fs.Tests.Samples.{calm, tick_at}

-- An upload of two bytes to the name "a", and a download of that name.
abbrev upload_payload : Bytes
upload_payload = 0 ∷ 1 ∷ b'a' ∷ 0 ∷ 0 ∷ 0 ∷ 0 ∷ 0 ∷ 0 ∷ 0 ∷ 2 ∷ codes "hi"

abbrev download_payload : Bytes
download_payload = 0 ∷ 1 ∷ b'a' ∷ []

abbrev path : Bytes
path = codes "/srv/a"

-- The file is there from the start.
abbrev start : Bytes → Option Bytes
start q = some (codes "old")

abbrev size_of : Option Bytes → Option ℕ
size_of none = some 0
size_of (some bs) = if ltb (8 + length bs) (2 ^ 32) then some (length bs) else none

abbrev picked : Bool → Bytes → ℕ → Option Bytes
picked true bs size = some bs
picked false bs size = some (replicate size 0)

abbrev map_of : ℕ → Option Bytes → Option Bytes
map_of size none = some (replicate size 0)
map_of size (some bs) = picked (length bs == size) bs size

-- A system that keeps the file at `path`.
abbrev disk_env : Env
disk_env = record calm {
  fstat = λ h fd. size_of (file start path h);
  mmap = λ h fd size. map_of size (file start path h);
  write = λ h fd bs. some (length bs);
}

size_of-short : (c : Option Bytes) (size : ℕ) → size_of c ≡ some size → 8 + size < 2 ^ 32
size_of-short none size e = subst (λ x. 8 + x < 2 ^ 32) (some-injective _ _ e) (omega arith)
size_of-short (some bs) size e = elim (Bool-cases (ltb (8 + length bs) (2 ^ 32))) [
  | inl short ↦ ground arith
  | inr long ↦ absurd (ground arith)
]

picked-length :
    (whole : Bool) (bs : Bytes) (size : ℕ) (bytes : Bytes)
    → (whole ≡ true → length bs ≡ size)
    → picked whole bs size ≡ some bytes
    → length bytes ≡ size
picked-length true bs size bytes same e =
    subst (λ x. length x ≡ size) (some-injective _ _ e) (same refl)
picked-length false bs size bytes same e =
    subst (λ x. length x ≡ size) (some-injective _ _ e) (length-replicate size 0)

map_of-length :
    (c : Option Bytes) (size : ℕ) (bytes : Bytes) → map_of size c ≡ some bytes → length bytes ≡ size
map_of-length none size bytes e =
    subst (λ x. length x ≡ size) (some-injective _ _ e) (length-replicate size 0)
map_of-length (some bs) size bytes e =
    picked-length (length bs == size) bs size bytes (==_iff (length bs) size).0 e

disk-Maps : Maps disk_env
disk-Maps = record { size_eq = λ h fd size bytes e. map_of-length (file start path h) size bytes e }

disk-HasShortFiles : HasShortFiles disk_env
disk-HasShortFiles h fd size e = size_of-short (file start path h) size e

disk-TakesAll : TakesAll disk_env 4
disk-TakesAll = record {
  sink = record {
    bounded = λ h bs n e. subst (λ x. x ≤ length bs) (some-injective _ _ e) (omega arith);
    progress = λ h bs n pos e. subst (λ x. 0 < x) (some-injective _ _ e) pos;
  };
  takes = λ h bs e. absurd (cc e);
}

disk-IsReliable : IsReliable disk_env 4
disk-IsReliable = record {
  taker = disk-TakesAll;
  grants = λ h n. refl;
  apart = λ h p fd e. subst (λ x. x ≢ 4) (some-injective _ _ e) (omega arith);
}

disk-IsObliging : IsObliging disk_env 9 (codes "hi")
disk-IsObliging = record { opens = λ h p. refl; locks = λ h. refl; whole = λ h. refl }

size_of-known :
    (c : Option Bytes) (bs : Bytes)
    → 8 + length bs < 2 ^ 32
    → c ≡ some bs
    → size_of c ≡ some (length bs)
size_of-known c bs short e = rw (e, lt→ltb (8 + length bs) (2 ^ 32) short) refl

map_of-known : (c : Option Bytes) (bs : Bytes) → c ≡ some bs → map_of (length bs) c ≡ some bs
map_of-known c bs e = rw (e, ==_refl (length bs)) refl

disk-IsHonest : IsHonest start disk_env path 9
disk-IsHonest = record {
  opens = λ h bytes short e. refl;
  sized = λ h bytes short e. size_of-known (file start path h) bytes short e;
  maps = λ h bytes short e. map_of-known (file start path h) bytes e;
}

upload_parsed :
    parse_upload (codes "/srv") upload_payload 13
    ≡ good (record { path = path; name = codes "a"; body = codes "hi" })
unfolding parse_upload read_u16 read_u64 safe_resolve_path str_eq extract_name
upload_parsed = refl

download_parsed :
    parse_download (codes "/srv") download_payload 3
    ≡ good (record { path = path; name = codes "a" })
unfolding parse_download read_u16 safe_resolve_path str_eq extract_name
download_parsed = refl

abbrev uploaded : History
uploaded = handle_upload_timed disk_env (codes "/srv") 4 upload_payload 13 tick_at []

handle_upload_timed-stores_example :
    Thanked 4 (written 4 []) uploaded
    × ((q : Bytes) → file start q uploaded ≡ replaced path (codes "hi") q (file start q []))
handle_upload_timed-stores_example =
    handle_upload_timed-stores start disk_env (codes "/srv") 4 9 upload_payload 13
      (record { path = path; name = codes "a"; body = codes "hi" }) tick_at [] disk-IsReliable
      disk-IsObliging upload_parsed refl

handle_download-handle_upload_timed_example :
    Delivered start disk_env 4 9 disk-IsReliable disk-Maps disk-HasShortFiles
      (written 4 uploaded)
      (codes "hi")
      (handle_download disk_env (codes "/srv") 4 download_payload 3 uploaded)
handle_download-handle_upload_timed_example =
    handle_download-handle_upload_timed start disk_env (codes "/srv") 4 9 9 upload_payload
      download_payload 13 3 (record { path = path; name = codes "a"; body = codes "hi" })
      (record { path = path; name = codes "a" }) tick_at [] disk-IsReliable disk-Maps
      disk-HasShortFiles disk-IsObliging disk-IsHonest upload_parsed download_parsed refl
      (omega arith) refl
