-- ===== src/Handlers/Answer.antt =====
-- Each request is answered with one response, whose header has the length of what follows it: the
-- responses themselves, the deletion and the change of mode.
pub mod Upload
pub mod Download
pub mod Listing
pub mod Dispatch
use nerv_fs.Base.{
  ℕ, zero, suc, ◌+◌, ◌%◌, ◌^◌, ◌<◌, ◌≡◌, refl, sym, ap, ◌∙◌, ◌≢◌, inl, inr, Bool, true, false,
  Option, none, some, ◌∷◌, [], ◌++◌, arith, append-nil, append_assoc, Bytes, length, take, drop,
  take_all, ltb, ◌==◌, Bool-cases,
}
use nerv_fs.Os.{Timespec, History, Env, write, clock_gettime, malloc, lock_write}
use nerv_fs.Wire.Buffer.{load, load_total}
use nerv_fs.Protocol.{op_resp_ok}
use nerv_fs.Protocol.Header.{Header, serialize_header}
use nerv_fs.Protocol.Transfer.{written, send_full}
use nerv_fs.Protocol.Transfer.Peer.{TakesAll, send_full-written}
use nerv_fs.FileOps.Files.{
  fileops_lock_fd, fileops_unlock_fd, fileops_delete_file, fileops_chmod_file,
}
use nerv_fs.Handlers.Respond.{
  response_header, send_payload, send_bytes, send_message, send_ok, send_allocated, send_error,
  error_payload,
}
use nerv_fs.Handlers.Request.{Checked, good, bad, broken, Named, Chmod}
use nerv_fs.Handlers.Upload.{
  let_go, metrics, upload_synced, upload_written, upload_locked, upload_opened, upload_file,
}
use nerv_fs.Handlers.Change.{change_done, delete_file, chmod_file}
use nerv_fs.Handlers.Discipline.{length-error_payload, length-metrics}
use nerv_fs.Handlers.Sound.{Sound}
use nerv_fs.Clock.{elapsed_microseconds-lt}
use nerv_fs.Protocol.RoundTrip.{wire_header}
use nerv_fs.Handlers.Reply.{
  response_header-wire_header, error_payload-IsMessage, Reply, ok_reply, metrics_reply, error_reply,
  reply_bytes, IsFit, IsMessage, literal, Kind, upload_kind, suits,
}

-- A client that takes all that is written to it, and memory that is granted.
pub record IsReliable (env : Env) (client : ℕ) : Type 0 where
  pub taker : TakesAll env client
  pub grants : (h : History) (n : ℕ) → env.malloc h n ≡ true
  pub apart : (h : History) (path : Bytes) (fd : ℕ) → env.open_write h path ≡ some fd → fd ≢ client

-- One response, which suits the kind of the request, has got through after the bytes `before`.
abbrev pub Answered : ℕ → Bytes → Kind → History → Type 0
Answered client before k h =
    (r : Reply) × IsFit r × (suits k r ≡ true) × (written client h ≡ before ++ reply_bytes r)

pub nil_of : (p : Bytes) → length p ≡ 0 → p ≡ []
nil_of [] e = refl
nil_of (b ∷ p) e = absurd (omega arith)

module _ (env : Env) (client : ℕ) (ok : IsReliable env client) (before : Bytes) (k : Kind) where
  send_message-bytes :
      (opcode : ℕ) (payload : Bytes) (len elapsed_us : ℕ) (h : History)
      → length payload ≡ len
      → written client h ≡ before
      → written client (send_message env client opcode (some payload) len elapsed_us h)
        ≡ before
          ++ (serialize_header (response_header opcode (length payload) elapsed_us) ++ payload)
  unfolding send_message
  send_message-bytes opcode payload len elapsed_us h e at_h =
      let hd = serialize_header (response_header opcode len elapsed_us) in
      let h₁ = (send_full env client hd h).1 in
      let first : written client h₁ ≡ before ++ hd =
        send_full-written env client ok.taker hd h ∙ ap (λ w. w ++ hd) at_h in
      rw e (elim (Bool-cases (ltb 0 len)) [
        | inl some_bytes ↦
            rw
              (
                some_bytes,
                send_payload,
                load_total payload 0 len (omega arith),
                take_all len payload (omega (arith, e)),
              )
              (send_full-written env client ok.taker payload h₁
                ∙ ap (λ w. w ++ payload) first
                ∙ append_assoc before hd payload)
        | inr empty ↦
            rw (empty, send_payload)
              (first
                ∙ ap (◌++◌ before)
                    (sym (append-nil hd) ∙ ap (◌++◌ hd) (sym (nil_of payload (ground arith)))))
      ])

  pub send_message-written :
      (opcode : ℕ) (payload : Bytes) (len elapsed_us : ℕ) (h : History)
      → length payload ≡ len
      → written client h ≡ before
      → written client (send_message env client opcode (some payload) len elapsed_us h)
        ≡ before ++ (wire_header opcode (length payload) elapsed_us ++ payload)
  send_message-written opcode payload len elapsed_us h e at_h =
      send_message-bytes opcode payload len elapsed_us h e at_h
      ∙ ap (λ hd. before ++ (hd ++ payload))
          (response_header-wire_header opcode (length payload) elapsed_us)

  send_ok-Answered :
      (elapsed_us : ℕ) (h : History)
      → elapsed_us < 2 ^ 64
      → suits k (ok_reply elapsed_us) ≡ true
      → written client h ≡ before
      → Answered client before k (send_ok env client elapsed_us h)
  unfolding send_ok send_message
  send_ok-Answered elapsed_us h fit suited at_h =
      let hd = serialize_header (response_header op_resp_ok 0 elapsed_us) in
      (
        ok_reply elapsed_us,
        fit,
        suited,
        send_full-written env client ok.taker hd h
            ∙ ap (λ w. w ++ hd) at_h
            ∙ ap (◌++◌ before) (
                response_header-wire_header op_resp_ok 0 elapsed_us
                ∙ sym (append-nil (wire_header op_resp_ok 0 elapsed_us))),
      )

  error_suits :
      (kind : Kind) (err_code : ℕ) (msg : Bytes) → suits kind (error_reply err_code msg) ≡ true
  error_suits kind err_code msg = refl

  pub send_error-Answered :
      (err_code : ℕ) (msg : Bytes) (h : History)
      → IsMessage err_code msg
      → written client h ≡ before
      → Answered client before k (send_error env client err_code msg h)
  unfolding send_error send_allocated
  send_error-Answered err_code msg h fit at_h =
      let n = 2 + 2 + length msg % 2 ^ 16 in
      (
        error_reply err_code msg,
        fit,
        error_suits k err_code msg,
        rw (ok.grants h n) (
            send_message-written _ (error_payload err_code msg) n 0 (malloc n true ∷ h)
              (length-error_payload err_code msg) at_h
            ∙ ap (λ p. before ++ (wire_header 0x81 (length p) 0 ++ p))
                (error_payload-IsMessage err_code msg fit)),
      )

  change_done-Answered :
      (name : Bytes) (start : Timespec) (done : Bool) (h : History)
      → ((elapsed_us : ℕ) → suits k (ok_reply elapsed_us) ≡ true)
      → written client h ≡ before
      → Answered client before k (change_done env client name start (done, h))
  unfolding change_done
  change_done-Answered name start true h suited at_h =
      send_ok-Answered _ _ (elapsed_microseconds-lt _ _) (suited _) at_h
  change_done-Answered name start false h suited at_h =
      send_error-Answered _ _ _ (literal _ _ refl) at_h

  pub delete_file-Answered :
      ((elapsed_us : ℕ) → suits k (ok_reply elapsed_us) ≡ true)
      → (P : Named → Type 0) (r : Checked Named) (h : History) → Sound P r
      → written client h ≡ before
      → Answered client before k (delete_file env client r h)
  unfolding delete_file
  delete_file-Answered suited P (bad err_code msg) h sound at_h =
      send_error-Answered err_code msg h sound at_h
  delete_file-Answered suited P broken h sound at_h = absurd sound
  delete_file-Answered suited P (good q) h sound at_h =
      change_done-Answered q.name _ _ _ suited at_h

  pub chmod_file-Answered :
      ((elapsed_us : ℕ) → suits k (ok_reply elapsed_us) ≡ true)
      → (P : Chmod → Type 0) (r : Checked Chmod) (h : History) → Sound P r
      → written client h ≡ before
      → Answered client before k (chmod_file env client r h)
  unfolding chmod_file
  chmod_file-Answered suited P (bad err_code msg) h sound at_h =
      send_error-Answered err_code msg h sound at_h
  chmod_file-Answered suited P broken h sound at_h = absurd sound
  chmod_file-Answered suited P (good q) h sound at_h = change_done-Answered q.name _ _ _ suited at_h
