-- ===== src/Handlers/Answer/Upload.antt =====
-- The response to an upload: the three times, or an error.
use nerv_fs.Base.{
  ℕ, ◌+◌, ◌%◌, ◌^◌, ◌<◌, ◌≡◌, refl, ◌∙◌, ◌≢◌, inl, inr, Bool, true, false, Option, none, some, ◌∷◌,
  arith, Bytes, length, ◌==◌, Bool-cases,
}
use nerv_fs.Os.{Timespec, History, Env, write, fsync}
use nerv_fs.Clock.{elapsed_microseconds, elapsed_microseconds-lt}
use nerv_fs.Protocol.Transfer.{written}
use nerv_fs.FileOps.Files.{fileops_lock_fd, fileops_unlock_fd}
use nerv_fs.Handlers.Request.{Checked, good, bad, broken, Upload}
use nerv_fs.Handlers.Upload.{
  metrics, upload_synced, upload_written, upload_locked, upload_opened, upload_file,
}
use nerv_fs.Handlers.Discipline.{length-metrics}
use nerv_fs.Handlers.Sound.{Sound}
use nerv_fs.Handlers.Reply.{metrics_reply, literal, upload_kind}
use nerv_fs.Handlers.Answer.{IsReliable, Answered, send_message-written, send_error-Answered}

module _ (env : Env) (client : ℕ) (ok : IsReliable env client) (before : Bytes) where
  upload_synced-Answered :
      (network_us write_us : ℕ) (write_end : Timespec) (fd : ℕ) (name : Bytes) (h : History)
      → network_us < 2 ^ 64
      → write_us < 2 ^ 64
      → written client h ≡ before
      → Answered client before upload_kind
          (upload_synced env client network_us write_us write_end fd name h)
  unfolding upload_synced fileops_unlock_fd metrics
  upload_synced-Answered network_us write_us write_end fd name h net_fits write_fits at_h =
      let sync_us = elapsed_microseconds write_end (env.clock_gettime (fsync fd ∷ h)) in
      let len = length-metrics network_us write_us sync_us in
      (
        metrics_reply ((network_us + write_us + sync_us) % 2 ^ 64) network_us write_us sync_us,
        (omega arith, net_fits, write_fits, elapsed_microseconds-lt _ _),
        refl,
        send_message-written env client ok before upload_kind _
            (metrics network_us write_us sync_us) 24 _ _ len at_h,
      )

  upload_written-Answered :
      (network_us : ℕ) (write_start : Timespec) (fd : ℕ) (u : Upload) (count : Option ℕ)
      (h : History)
      → network_us < 2 ^ 64
      → written client h ≡ before
      → Answered client before upload_kind
          (upload_written env client network_us write_start fd u count h)
  unfolding upload_written fileops_unlock_fd
  upload_written-Answered network_us write_start fd u none h fits at_h =
      send_error-Answered env client ok before upload_kind _ _ _ (literal _ _ refl) at_h
  upload_written-Answered network_us write_start fd u (some n) h fits at_h =
      elim (Bool-cases (n == length u.body)) [
        | inl whole ↦
            rw (whole, upload_written)
              (upload_synced-Answered network_us _ _ fd u.name _ fits (elapsed_microseconds-lt _ _)
                at_h)
        | inr part ↦
            rw (part, upload_written)
              (send_error-Answered env client ok before upload_kind _ _ _ (literal _ _ refl) at_h)
      ]

  -- A write to another descriptor.
  other_write :
      (fd : ℕ) (bs : Bytes) (count : Option ℕ) (h : History)
      → fd ≢ client
      → written client (write fd bs count ∷ h) ≡ written client h
  other_write fd bs none h other = refl
  other_write fd bs (some n) h other = ground arith

  upload_locked-Answered :
      (network_us : ℕ) (write_start : Timespec) (fd : ℕ) (u : Upload) (granted : Bool) (h : History)
      → network_us < 2 ^ 64
      → fd ≢ client
      → written client h ≡ before
      → Answered client before upload_kind
          (upload_locked env client network_us write_start fd u (granted, h))
  unfolding upload_locked
  upload_locked-Answered network_us write_start fd u false h fits other at_h =
      send_error-Answered env client ok before upload_kind _ _ _ (literal _ _ refl) at_h
  upload_locked-Answered network_us write_start fd u true h fits other at_h =
      upload_written-Answered network_us write_start fd u _ _ fits
        (other_write fd u.body _ h other ∙ at_h)

  upload_opened-Answered :
      (network_us : ℕ) (write_start : Timespec) (u : Upload) (fd : Option ℕ) (h : History)
      → network_us < 2 ^ 64
      → ((n : ℕ) → fd ≡ some n → n ≢ client)
      → written client h ≡ before
      → Answered client before upload_kind (upload_opened env client network_us write_start u fd h)
  unfolding upload_opened fileops_lock_fd
  upload_opened-Answered network_us write_start u none h fits other at_h =
      send_error-Answered env client ok before upload_kind _ _ _ (literal _ _ refl) at_h
  upload_opened-Answered network_us write_start u (some fd) h fits other at_h =
      upload_locked-Answered network_us write_start fd u _ _ fits (other fd refl) at_h

  pub upload_file-Answered :
      (P : Upload → Type 0) (network_us : ℕ) (r : Checked Upload) (h : History)
      → network_us < 2 ^ 64
      → Sound P r
      → written client h ≡ before
      → Answered client before upload_kind (upload_file env client network_us r h)
  unfolding upload_file
  upload_file-Answered P network_us (bad err_code msg) h fits sound at_h =
      send_error-Answered env client ok before upload_kind err_code msg h sound at_h
  upload_file-Answered P network_us broken h fits sound at_h = absurd sound
  upload_file-Answered P network_us (good u) h fits sound at_h =
      upload_opened-Answered network_us _ u _ _ fits (ok.apart _ u.path) at_h
