-- ===== src/Handlers/Answer/Download.antt =====
-- The response to a download: the file's size and its bytes.
use nerv_fs.Base.{
  ℕ, ◌+◌, ◌%◌, ◌^◌, ◌<◌, ◌≡◌, refl, sym, ap, ◌∙◌, inl, inr, Option, none, some, [], ◌∷◌, ◌++◌,
  arith, append-nil, append_assoc, Bytes, length, length-append, take_all, ltb, ◌==◌, Bool-cases,
}
use nerv_fs.Clock.{elapsed_microseconds, elapsed_microseconds-lt}
use nerv_fs.Handlers.Reply.{
  response_header-wire_header, file_reply, reply_bytes, literal, download_kind,
}
use nerv_fs.Protocol.Transfer.Peer.{send_full-written}
use nerv_fs.Os.{Timespec, History, Env, mmap, fstat, lock_read, clock_gettime}
use nerv_fs.Wire.{write_u64, length-write_u64}
use nerv_fs.Wire.Buffer.{load_total}
use nerv_fs.Protocol.{op_resp_file_data}
use nerv_fs.Protocol.Header.{serialize_header}
use nerv_fs.Protocol.Transfer.{send_full, written}
use nerv_fs.FileOps.Files.{
  Opened, opened, open_failed, map_failed, fileops_open_for_mmap_read, map_opened, map_sized,
  map_file, fileops_close_mmap, fileops_lock_fd, fileops_unlock_fd,
}
use nerv_fs.Handlers.Respond.{response_header, send_bytes}
use nerv_fs.Handlers.Request.{Checked, good, bad, broken, Named}
use nerv_fs.Handlers.Download.{
  send_mapped, send_file, download_opened, download_timed, download_file,
}
use nerv_fs.Handlers.Sound.{Sound}
use nerv_fs.Handlers.Answer.{IsReliable, Answered, send_error-Answered, nil_of}
use nerv_fs.Handlers.Discipline.Download.{Maps}

-- The files that the storage directory holds are short enough for the header's length field.
abbrev pub HasShortFiles : Env → Type 0
HasShortFiles env = (h : History) (fd size : ℕ) → env.fstat h fd ≡ some size → 8 + size < 2 ^ 32

module _ (env : Env) (client : ℕ) (ok : IsReliable env client) (maps : Maps env)
    (files : HasShortFiles env) (before : Bytes) where
  abbrev pub Fits : Option Bytes → ℕ → Type 0
  Fits none size = size ≡ 0
  Fits (some bytes) size = (length bytes ≡ size) × (8 + size < 2 ^ 32)

  abbrev Ready : Opened × History → Type 0
  Ready (opened mapped size fd, h) = (written client h ≡ before) × Fits mapped size
  Ready (open_failed, h) = written client h ≡ before
  Ready (map_failed, h) = written client h ≡ before

  map_file-Ready :
      (size fd : ℕ) (h : History) (bytes : Option Bytes)
      → env.mmap h fd size ≡ bytes
      → 8 + size < 2 ^ 32
      → written client h ≡ before
      → Ready (map_file size fd bytes (mmap fd size bytes ∷ h))
  unfolding map_file
  map_file-Ready size fd h none e small at_h = at_h
  map_file-Ready size fd h (some bytes) e small at_h =
      (at_h, (maps.size_eq h fd size bytes e, small))

  map_sized-Ready :
      (fd : ℕ) (h : History) (size : Option ℕ)
      → env.fstat h fd ≡ size
      → written client h ≡ before
      → Ready (map_sized env fd size (fstat fd size ∷ h))
  unfolding map_sized
  map_sized-Ready fd h none e at_h = at_h
  map_sized-Ready fd h (some size) e at_h = elim (Bool-cases (size == 0)) [
    | inl empty ↦ rw (empty, map_sized) (at_h, refl)
    | inr some_bytes ↦
        rw (some_bytes, map_sized) (map_file-Ready size fd _ _ refl (files h fd size e) at_h)
  ]

  map_opened-Ready :
      (fd : Option ℕ) (h : History) → written client h ≡ before → Ready (map_opened env fd h)
  unfolding map_opened
  map_opened-Ready none h at_h = at_h
  map_opened-Ready (some fd) h at_h = map_sized-Ready fd h _ refl at_h

  abbrev pub content : Option Bytes → Bytes
  content none = []
  content (some bytes) = bytes

  send_mapped-written :
      (mapped : Option Bytes) (size : ℕ) (h : History)
      → Fits mapped size
      → written client (send_mapped env client mapped size h) ≡ written client h ++ content mapped
  unfolding send_mapped send_bytes
  send_mapped-written none size h e = rw e (sym (append-nil (written client h)))
  send_mapped-written (some bytes) size h (e, small) = elim (Bool-cases (ltb 0 size)) [
    | inl some_bytes ↦
        rw
          (
            some_bytes,
            load_total bytes 0 size (omega arith),
            take_all size bytes (omega (arith, e)),
          )
          (send_full-written env client ok.taker bytes h)
    | inr empty ↦ rw empty (
        sym (
          ap (◌++◌ (written client h)) (nil_of bytes (ground arith))
          ∙ append-nil (written client h)))
  ]

  content-length :
      (mapped : Option Bytes) (size : ℕ)
      → Fits mapped size
      → (length (content mapped) ≡ size) × (8 + size < 2 ^ 32)
  content-length none size e = (omega (arith, e), omega (arith, e))
  content-length (some bytes) size f = f

  pub send_file-written :
      (elapsed_us : ℕ) (mapped : Option Bytes) (size : ℕ) (h : History)
      → Fits mapped size
      → written client h ≡ before
      → written client (send_file env client elapsed_us mapped size h)
        ≡ before ++ reply_bytes (file_reply elapsed_us (content mapped))
  unfolding send_file
  send_file-written elapsed_us mapped size h fits at_h =
      let (len, small) = content-length mapped size fits in
      let bytes = content mapped in
      let body_len : length (write_u64 size ++ bytes) ≡ 8 + size =
        omega (arith, len, length-append (write_u64 size) bytes, length-write_u64 size) in
      let field : (8 + size) % 2 ^ 32 ≡ length (write_u64 size ++ bytes) =
        omega (arith, body_len, small) in
      let hd =
        serialize_header (response_header op_resp_file_data ((8 + size) % 2 ^ 32) elapsed_us) in
      let h₁ = (send_full env client hd h).1 in
      let h₂ = (send_full env client (write_u64 size) h₁).1 in
      let together : ((before ++ hd) ++ write_u64 size) ++ bytes
          ≡ before ++ (hd ++ (write_u64 size ++ bytes)) =
        simp append_assoc in
      send_mapped-written mapped size h₂ fits
      ∙ ap (λ w. w ++ bytes)
          (send_full-written env client ok.taker (write_u64 size) h₁
            ∙ ap (λ w. w ++ write_u64 size)
                (send_full-written env client ok.taker hd h ∙ ap (λ w. w ++ hd) at_h))
      ∙ together
      ∙ ap
          (λ n.
            before
            ++ (serialize_header (response_header op_resp_file_data n elapsed_us)
                ++ (write_u64 size ++ bytes)))
          field
      ∙ ap
          (λ n.
            before
            ++ (serialize_header
                  (response_header op_resp_file_data (length (write_u64 n ++ bytes)) elapsed_us)
                ++ (write_u64 n ++ bytes)))
          (sym len)
      ∙ ap (λ hd'. before ++ (hd' ++ (write_u64 (length bytes) ++ bytes)))
          (response_header-wire_header op_resp_file_data
            (length (write_u64 (length bytes) ++ bytes)) elapsed_us)

  send_file-Answered :
      (elapsed_us : ℕ) (mapped : Option Bytes) (size : ℕ) (h : History)
      → elapsed_us < 2 ^ 64
      → Fits mapped size
      → written client h ≡ before
      → Answered client before download_kind (send_file env client elapsed_us mapped size h)
  send_file-Answered elapsed_us mapped size h in_time fits at_h =
      let (len, small) = content-length mapped size fits in
      (
        file_reply elapsed_us (content mapped),
        (in_time, omega (arith, len, small)),
        refl,
        send_file-written elapsed_us mapped size h fits at_h,
      )

  pub close_mmap-written :
      (mapped : Option Bytes) (size fd : ℕ) (h : History)
      → written client (fileops_close_mmap mapped size fd h) ≡ written client h
  unfolding fileops_close_mmap
  close_mmap-written none size fd h = refl
  close_mmap-written (some bytes) size fd h = elim (Bool-cases (ltb 0 size)) [
    | inl mapped_some ↦ rw mapped_some refl
    | inr mapped_none ↦ rw mapped_none refl
  ]

  -- What happens after the response leaves it as it is.
  still-Answered :
      (h h' : History)
      → written client h' ≡ written client h
      → Answered client before download_kind h
      → Answered client before download_kind h'
  still-Answered h h' same (r, fit, suited, e) = (r, fit, suited, same ∙ e)

  download_timed-Answered :
      (name : Bytes) (start : Timespec) (r : Opened × History)
      → Ready r
      → Answered client before download_kind (download_timed env client name start r)
  unfolding download_timed download_opened fileops_lock_fd fileops_unlock_fd
  download_timed-Answered name start (open_failed, h) at_h =
      send_error-Answered env client ok before download_kind _ _ _ (literal _ _ refl) at_h
  download_timed-Answered name start (map_failed, h) at_h =
      send_error-Answered env client ok before download_kind _ _ _ (literal _ _ refl) at_h
  download_timed-Answered name start (opened mapped size fd, h) (at_h, fits) =
      let end = env.clock_gettime h in
      let h₁ = (fileops_lock_fd env fd lock_read (clock_gettime end ∷ h)).1 in
      let h₂ = send_file env client (elapsed_microseconds start end) mapped size h₁ in
      let h₃ = (fileops_unlock_fd env fd h₂).1 in
      still-Answered h₂ (fileops_close_mmap mapped size fd h₃)
        (close_mmap-written mapped size fd h₃)
        (send_file-Answered _ mapped size h₁ (elapsed_microseconds-lt _ _) fits at_h)

  pub download_file-Answered :
      (P : Named → Type 0) (r : Checked Named) (h : History)
      → Sound P r
      → written client h ≡ before
      → Answered client before download_kind (download_file env client r h)
  unfolding download_file fileops_open_for_mmap_read
  download_file-Answered P (bad err_code msg) h sound at_h =
      send_error-Answered env client ok before download_kind err_code msg h sound at_h
  download_file-Answered P broken h sound at_h = absurd sound
  download_file-Answered P (good q) h sound at_h =
      download_timed-Answered q.name _ _ (map_opened-Ready _ _ at_h)
