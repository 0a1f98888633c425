-- ===== src/Handlers/Discipline/Download.antt =====
-- The download's use of its lock and its file.
use nerv_fs.Base.{
  ℕ, ◌≡◌, refl, sym, ap, ◌∙◌, Option, none, some, ◌∷◌, Bytes, length, ltb, ◌==◌, inl, inr,
  Bool-cases, arith,
}
use nerv_fs.Os.{
  History, Env, Timespec, lock_read, clock_gettime, acquire_read, release_read, open_read, mmap,
  setlkw,
}
use nerv_fs.Wire.Buffer.{load_total}
use nerv_fs.FileOps.Files.{
  Opened, opened, open_failed, map_failed, fileops_open_for_mmap_read, map_opened, map_sized,
  map_file, fileops_close_mmap, fileops_lock_fd, fileops_unlock_fd,
}
use nerv_fs.Handlers.Usage.{shared, held, readable, Holds, send_full-Holds}
use nerv_fs.Handlers.Respond.{send_bytes}
use nerv_fs.Handlers.Request.{Checked, good, bad, broken, Named}
use nerv_fs.Handlers.Download.{send_mapped, send_file, download_opened, download_file}
use nerv_fs.Handlers.Sound.{Sound, IsPathOf}
use nerv_fs.Handlers.Discipline.{Free, error, tick}

-- A map has as many bytes as were asked for.
pub record Maps (env : Env) : Type 0 where
  pub size_eq :
      (h : History) (fd size : ℕ) (bytes : Bytes)
      → env.mmap h fd size ≡ some bytes
      → length bytes ≡ size

module _ (root : Bytes) (env : Env) (client : ℕ) (maps : Maps env) where
  abbrev Reading : Bytes → Option ℕ → History → Type 0
  Reading name file h = Holds root (some (shared name)) file h

  abbrev MapFits : Option Bytes → ℕ → Type 0
  MapFits none size = size ≡ 0
  MapFits (some bytes) size = length bytes ≡ size

  abbrev AfterOpen : Bytes → Opened × History → Type 0
  AfterOpen name (opened mapped size fd, h) = Reading name (some fd) h × MapFits mapped size
  AfterOpen name (open_failed, h) = Reading name none h
  AfterOpen name (map_failed, h) = Reading name none h

  map_file-AfterOpen :
      (name : Bytes) (size fd : ℕ) (h : History) (bytes : Option Bytes)
      → env.mmap h fd size ≡ bytes
      → Reading name (some fd) h
      → AfterOpen name (map_file size fd bytes (mmap fd size bytes ∷ h))
  unfolding map_file
  map_file-AfterOpen name size fd h none e s = record {
    proper = (s.file_eq, (s.file_eq, s.proper));
    lock_eq = s.lock_eq;
    file_eq = refl;
  }
  map_file-AfterOpen name size fd h (some bytes) e s = (
    record { proper = (s.file_eq, s.proper); lock_eq = s.lock_eq; file_eq = s.file_eq },
    maps.size_eq h fd size bytes e,
  )

  map_sized-AfterOpen :
      (name : Bytes) (fd : ℕ) (size : Option ℕ) (h : History)
      → Reading name (some fd) h
      → AfterOpen name (map_sized env fd size h)
  unfolding map_sized
  map_sized-AfterOpen name fd none h s = record {
    proper = (s.file_eq, s.proper);
    lock_eq = s.lock_eq;
    file_eq = refl;
  }
  map_sized-AfterOpen name fd (some size) h s = elim (Bool-cases (size == 0)) [
    | inl empty ↦ rw (empty, map_sized) (s, refl)
    | inr more ↦
        rw (more, map_sized) (map_file-AfterOpen name size fd h (env.mmap h fd size) refl s)
  ]

  allowed :
      (path : Bytes) {name : Bytes} {file : Option ℕ} {h : History}
      → IsPathOf root path name
      → Reading name file h
      → readable root (held h) ≡ some path
  allowed path ok s = ap (readable root) s.lock_eq ∙ ap some (sym ok.path_eq)

  map_opened-AfterOpen :
      (path name : Bytes) (fd : Option ℕ) (h : History)
      → IsPathOf root path name
      → Reading name none h
      → AfterOpen name (map_opened env fd (open_read path fd ∷ h))
  unfolding map_opened
  map_opened-AfterOpen path name none h ok s = record {
    proper = (allowed path ok s, s.file_eq, s.proper);
    lock_eq = s.lock_eq;
    file_eq = s.file_eq;
  }
  map_opened-AfterOpen path name (some fd) h ok s =
      map_sized-AfterOpen name fd (env.fstat (open_read path (some fd) ∷ h) fd) _ (record {
        proper = (refl, (allowed path ok s, s.file_eq, s.proper));
        lock_eq = s.lock_eq;
        file_eq = refl;
      })

  send_mapped-Holds :
      (name : Bytes) (file : Option ℕ) (mapped : Option Bytes) (size : ℕ) (h : History)
      → MapFits mapped size
      → Reading name file h
      → Reading name file (send_mapped env client mapped size h)
  unfolding send_mapped send_bytes
  send_mapped-Holds name file none size h fits s = rw fits s
  send_mapped-Holds name file (some bytes) size h fits s = elim (Bool-cases (ltb 0 size)) [
    | inl more ↦
        rw (more, send_mapped, load_total bytes 0 size (omega arith))
          (send_full-Holds root _ file env client _ h s)
    | inr empty ↦ rw (empty, send_mapped) s
  ]

  send_file-Holds :
      (name : Bytes) (file : Option ℕ) (elapsed_us : ℕ) (mapped : Option Bytes) (size : ℕ)
      (h : History)
      → MapFits mapped size
      → Reading name file h
      → Reading name file (send_file env client elapsed_us mapped size h)
  unfolding send_file
  send_file-Holds name file elapsed_us mapped size h fits s =
      send_mapped-Holds name file mapped size _ fits
        (send_full-Holds root _ file env client _ _ (send_full-Holds root _ file env client _ h s))

  close_mmap-Free :
      (name : Bytes) (mapped : Option Bytes) (size fd : ℕ) (h : History)
      → Reading name (some fd) h
      → Reading name none (fileops_close_mmap mapped size fd h)
  unfolding fileops_close_mmap
  close_mmap-Free name none size fd h s = record {
    proper = (s.file_eq, s.proper);
    lock_eq = s.lock_eq;
    file_eq = refl;
  }
  close_mmap-Free name (some bytes) size fd h s = elim (Bool-cases (ltb 0 size)) [
    | inl more ↦
        rw (more, fileops_close_mmap)
          (record { proper = (s.file_eq, s.proper); lock_eq = s.lock_eq; file_eq = refl })
    | inr empty ↦
        rw (empty, fileops_close_mmap)
          (record { proper = (s.file_eq, s.proper); lock_eq = s.lock_eq; file_eq = refl })
  ]

  release :
      (name : Bytes) {h : History}
      → Reading name none h
      → Free root env client (release_read name ∷ h)
  release name s = record { proper = (s.lock_eq, s.proper); lock_eq = refl; file_eq = s.file_eq }

  download_opened-Free :
      (name : Bytes) (elapsed_us : ℕ) (o : Opened) (h : History)
      → AfterOpen name (o, h)
      → Free root env client (download_opened env client name elapsed_us o h)
  unfolding download_opened fileops_lock_fd fileops_unlock_fd
  download_opened-Free name elapsed_us open_failed h s =
      error root env client _ _ _ (release name s)
  download_opened-Free name elapsed_us map_failed h s = error root env client _ _ _ (release name s)
  download_opened-Free name elapsed_us (opened mapped size fd) h (s, fits) =
      let h₁ : History = setlkw fd lock_read (env.setlkw h fd lock_read) ∷ h in
      let s₁ : Reading name (some fd) h₁ = record {
        proper = (s.file_eq, s.proper);
        lock_eq = s.lock_eq;
        file_eq = s.file_eq;
      } in
      let s₂ = send_file-Holds name (some fd) elapsed_us mapped size h₁ fits s₁ in
      release name (
        close_mmap-Free name mapped size fd _
          (record { proper = (s₂.file_eq, s₂.proper); lock_eq = s₂.lock_eq; file_eq = s₂.file_eq }))

  AfterOpen-tick :
      (name : Bytes) (t : Timespec) (o : Opened) (h : History)
      → AfterOpen name (o, h)
      → AfterOpen name (o, clock_gettime t ∷ h)
  AfterOpen-tick name t (opened mapped size fd) h (s, fits) = (tick root env client t s, fits)
  AfterOpen-tick name t open_failed h s = tick root env client t s
  AfterOpen-tick name t map_failed h s = tick root env client t s

  pub download_file-Free :
      (r : Checked Named) (h : History)
      → Sound (λ q. IsPathOf root q.path q.name) r
      → Free root env client h
      → Free root env client (download_file env client r h)
  unfolding download_file fileops_open_for_mmap_read
  download_file-Free (bad err_code msg) h ok s = error root env client err_code msg h s
  download_file-Free broken h ok s = absurd ok
  download_file-Free (good q) h ok s =
      let locked : Reading q.name none (acquire_read q.name (env.acquire_read h q.name) ∷ h) =
        record { proper = (s.lock_eq, s.proper); lock_eq = refl; file_eq = s.file_eq } in
      download_opened-Free q.name _ _ _ (
        AfterOpen-tick q.name _ _ _
          (map_opened-AfterOpen q.path q.name _ _ ok (tick root env client _ locked)))
