-- ===== src/Handlers/Returns.antt =====
-- A download sends what the disk holds, and so what an upload has stored.
use nerv_fs.Base.{
  ℕ, ◌+◌, ◌^◌, ◌<◌, ◌≡◌, refl, ◌∙◌, false, Option, none, some, [], ◌∷◌, ◌++◌, arith, Bytes, length,
  ◌==◌, str_eq_refl,
}
use nerv_fs.Os.{
  Timespec, History, Env, lock_read, clock_gettime, acquire_read, open_read, fstat, mmap,
}
use nerv_fs.Clock.{elapsed_microseconds}
use nerv_fs.Disk.{target, file}
use nerv_fs.Protocol.Transfer.{written}
use nerv_fs.FileOps.Files.{
  opened, fileops_open_for_mmap_read, map_opened, map_sized, map_file, fileops_lock_fd,
  fileops_unlock_fd,
}
use nerv_fs.Handlers.Request.{good, Named, Upload, parse_upload, parse_download}
use nerv_fs.Handlers.Upload.{handle_upload_timed}
use nerv_fs.Handlers.Download.{
  send_file, download_opened, download_timed, download_file, handle_download,
}
use nerv_fs.Handlers.Reply.{file_reply, reply_bytes}
use nerv_fs.Handlers.Answer.{IsReliable}
use nerv_fs.Handlers.Answer.Download.{
  HasShortFiles, Fits, content, send_file-written, close_mmap-written,
}
use nerv_fs.Handlers.Discipline.Download.{Maps}
use nerv_fs.Handlers.Stores.{IsObliging, handle_upload_timed-stores}

-- The file at `path`, once it is there and short enough for a response, is opened as `fd` for reading,
-- and `fstat` and `mmap` of it tell what the disk holds.
pub record IsHonest (start : Bytes → Option Bytes) (env : Env) (path : Bytes) (fd : ℕ)
    : Type 0 where
  pub opens :
      (h : History) (bytes : Bytes)
      → 8 + length bytes < 2 ^ 32
      → file start path h ≡ some bytes
      → env.open_read h path ≡ some fd
  pub sized :
      (h : History) (bytes : Bytes)
      → 8 + length bytes < 2 ^ 32
      → file start path h ≡ some bytes
      → env.fstat h fd ≡ some (length bytes)
  pub maps :
      (h : History) (bytes : Bytes)
      → 8 + length bytes < 2 ^ 32
      → file start path h ≡ some bytes
      → env.mmap h fd (length bytes) ≡ some bytes

module _ (start : Bytes → Option Bytes) (env : Env) (client fd : ℕ) (ok : IsReliable env client)
    (maps : Maps env) (files : HasShortFiles env) where
  -- A response that carries the file has been sent after `before`.
  abbrev pub Delivered : Bytes → Bytes → History → Type 0
  Delivered before bytes h =
      (elapsed_us : ℕ) × (written client h ≡ before ++ reply_bytes (file_reply elapsed_us bytes))

  opened-Delivered :
      (mapped : Option Bytes) (size : ℕ) (name before : Bytes) (at : Timespec) (h : History)
      → Fits env client ok maps files before mapped size
      → written client h ≡ before
      → Delivered before
          (content env client ok maps files before mapped)
          (download_timed env client name at (opened mapped size fd, h))
  unfolding download_timed download_opened fileops_lock_fd fileops_unlock_fd
  opened-Delivered mapped size name before at h fits at_h =
      let end = env.clock_gettime h in
      let us = elapsed_microseconds at end in
      let h₁ = (fileops_lock_fd env fd lock_read (clock_gettime end ∷ h)).1 in
      let h₂ = send_file env client us mapped size h₁ in
      (
        us,
        close_mmap-written env client ok maps files before mapped size fd
              (fileops_unlock_fd env fd h₂).1
            ∙ send_file-written env client ok maps files before us mapped size h₁ fits at_h,
      )

  module _ (path : Bytes) (honest : IsHonest start env path fd) where
    file-Delivered :
        (bytes name before : Bytes) (at : Timespec) (h : History)
        → 8 + length bytes < 2 ^ 32
        → file start path h ≡ some bytes
        → written client h ≡ before
        → Delivered before bytes
            (download_timed env client name at (fileops_open_for_mmap_read env path h))
    unfolding fileops_open_for_mmap_read map_opened map_sized
    file-Delivered [] name before at h short there at_h =
        let h₁ : History = open_read path (some fd) ∷ h in
        rw (honest.opens h [] short there, map_opened, honest.sized h₁ [] short there)
          (opened-Delivered none 0 name before at (fstat fd (some 0) ∷ h₁) refl at_h)
    file-Delivered (b ∷ bs) name before at h short there at_h =
        let h₁ : History = open_read path (some fd) ∷ h in
        let size = length (b ∷ bs) in
        let h₂ : History = fstat fd (some size) ∷ h₁ in
        let some_bytes : (size == 0) ≡ false = ground arith in
        rw
          (
            honest.opens h (b ∷ bs) short there,
            map_opened,
            honest.sized h₁ (b ∷ bs) short there,
            map_sized,
            some_bytes,
            honest.maps h₂ (b ∷ bs) short there,
            map_file,
          )
          (opened-Delivered (some (b ∷ bs)) size name before at (mmap fd size (some (b ∷ bs)) ∷ h₂)
            (refl, short) at_h)

-- A file that is there is sent whole.
pub handle_download-returns :
    (start : Bytes → Option Bytes) (env : Env) (root : Bytes) (client fd : ℕ) (payload : Bytes)
    (len : ℕ) (q : Named) (bytes : Bytes) (h : History)
    → (ok : IsReliable env client) → (maps : Maps env) → (files : HasShortFiles env)
    → IsHonest start env q.path fd
    → parse_download root payload len ≡ good q
    → 8 + length bytes < 2 ^ 32
    → file start q.path h ≡ some bytes
    → Delivered start env client fd ok maps files
        (written client h)
        bytes
        (handle_download env root client payload len h)
unfolding handle_download download_file
handle_download-returns start env root client fd payload len q bytes h ok maps files honest parsed
      short there =
    let h₁ : History = acquire_read q.name (env.acquire_read h q.name) ∷ h in
    let at = env.clock_gettime h₁ in
    rw parsed (
      file-Delivered start env client fd ok maps files q.path honest bytes q.name (written client h)
        at (clock_gettime at ∷ h₁) short there refl)

-- Under the conditions of an upload that succeeds, and if reading the path finds what the disk
-- holds: a download of the uploaded path sends the client exactly the body that was uploaded, if it
-- is short enough for one response.
pub handle_download-handle_upload_timed :
    (start : Bytes → Option Bytes) (env : Env) (root : Bytes) (client fd read_fd : ℕ)
    (payload request : Bytes) (len request_len : ℕ) (u : Upload) (q : Named) (net_start : Timespec)
    (h : History)
    → (ok : IsReliable env client) → (maps : Maps env) → (files : HasShortFiles env)
    → IsObliging env fd u.body
    → IsHonest start env q.path read_fd
    → parse_upload root payload len ≡ good u
    → parse_download root request request_len ≡ good q
    → q.path ≡ u.path
    → 8 + length u.body < 2 ^ 32
    → target client h ≡ none
    → Delivered start env client read_fd ok maps files
        (written client (handle_upload_timed env root client payload len net_start h))
        u.body
        (handle_download env root client request request_len
          (handle_upload_timed env root client payload len net_start h))
handle_download-handle_upload_timed start env root client fd read_fd payload request len request_len
      u q net_start h ok maps files fs honest parsed_upload parsed_download same short no_file =
    let h₁ = handle_upload_timed env root client payload len net_start h in
    let (thanked, stored) =
      handle_upload_timed-stores start env root client fd payload len u net_start h ok fs
        parsed_upload no_file in
    let there : file start q.path h₁ ≡ some u.body =
      stored q.path ∙ rw same (rw (str_eq_refl u.path) refl) in
    handle_download-returns start env root client read_fd request request_len q u.body h₁ ok maps
      files honest parsed_download short there
