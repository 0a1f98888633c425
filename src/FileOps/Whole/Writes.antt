-- ===== src/FileOps/Whole/Writes.antt =====
-- `fileops_write_fd` against `send_full` of src/protocol.c, and what `fileops_write_file` writes.
use nerv_fs.Base.{
  ℕ, zero, suc, ◌+◌, ◌≡◌, refl, ap, ◌∙◌, Option, none, some, inl, inr, ◌∷◌, ◌++◌, Bytes, length,
  ltb, Bool-cases,
}
use nerv_fs.Os.{History, Env, open_write, close}
use nerv_fs.Protocol.Transfer.{Sent, sent, send_chunk, send_loop, send_full, written}
use nerv_fs.Protocol.Transfer.Peer.{TakesAll, send_full-whole}
use nerv_fs.FileOps.Whole.{
  Written, write_step, done, failed, unfinished, write_rest, fileops_write_fd,
  fileops_open_for_write, write_opened, fileops_write_file,
}

-- The return value of `fileops_write_fd` for that of `send_full`.
abbrev pub written_of : Sent → Written
written_of (sent n) = done
written_of Sent.failed = failed
written_of Sent.spinning = unfinished

abbrev pub like_send : Sent × History → Written × History
like_send (r, h) = (written_of r, h)

module _ (env : Env) (fd : ℕ) (content : Bytes) where
  write_chunk-like_send :
      (next : ℕ → History → Sent × History) (step : ℕ → History → Written × History)
      → ((total : ℕ) (h : History) → step total h ≡ like_send (next total h))
      → (total : ℕ) (h : History) (answer : Option ℕ)
      → write_step step total h answer ≡ like_send (send_chunk next total h answer)
  unfolding send_chunk
  write_chunk-like_send next step same total h none = refl
  write_chunk-like_send next step same total h (some n) = same (total + n) h

  write_rest-like_send :
      (fuel total : ℕ) (h : History)
      → write_rest env fd content fuel total h ≡ like_send (send_loop env fd content fuel total h)
  unfolding write_rest send_loop
  write_rest-like_send zero total h = refl
  write_rest-like_send (suc fuel) total h = elim (Bool-cases (ltb total (length content))) [
    | inl more ↦
        rw (more, write_rest, send_loop)
          (write_chunk-like_send (λ t h'. send_loop env fd content fuel t h')
            (λ t h'. write_rest env fd content fuel t h') (λ t h'. write_rest-like_send fuel t h')
            total _ _)
    | inr over ↦ rw (over, write_rest, send_loop) refl
  ]

-- `fileops_write_fd` makes the same calls as `send_full` on the same descriptor and bytes, and
-- returns 0 exactly when it succeeds.
pub fileops_write_fd-send_full :
    (env : Env) (fd : ℕ) (content : Bytes) (h : History)
    → fileops_write_fd env fd content h ≡ like_send (send_full env fd content h)
unfolding fileops_write_fd send_full
fileops_write_fd-send_full env fd content h =
    write_rest-like_send env fd content (suc (length content)) 0 h

write_opened-whole :
    (env : Env) (fd : ℕ) (content : Bytes) (h : History)
    → TakesAll env fd
    → ((write_opened env content (some fd, h)).0 ≡ done)
      × ((h' : History) × ((write_opened env content (some fd, h)).1 ≡ close fd ∷ h')
          × (written fd h' ≡ written fd h ++ content))
unfolding write_opened
write_opened-whole env fd content h ok =
    let (all, through) = send_full-whole env fd ok content h in
    let same = fileops_write_fd-send_full env fd content h in
    (
      ap (λ r. r.0) same ∙ ap written_of all,
      ((fileops_write_fd env fd content h).1, refl, ap (λ r. written fd r.1) same ∙ through),
    )

-- A file that can be opened and whose writes do not fail gets exactly the bytes, and is closed.
pub fileops_write_file-whole :
    (env : Env) (path content : Bytes) (fd : ℕ) (h : History)
    → env.open_write h path ≡ some fd
    → TakesAll env fd
    → ((fileops_write_file env path content h).0 ≡ done)
      × ((h' : History) × ((fileops_write_file env path content h).1 ≡ close fd ∷ h')
          × (written fd h' ≡ written fd h ++ content))
unfolding fileops_write_file fileops_open_for_write
fileops_write_file-whole env path content fd h e ok =
    rw e (write_opened-whole env fd content (open_write path (some fd) ∷ h) ok)
