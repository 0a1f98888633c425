-- ===== src/Handlers/Stores.antt =====
-- What an upload and a deletion leave on disk.
use nerv_fs.Base.{
  ℕ, ◌+◌, ◌%◌, ◌^◌, ◌<◌, ◌≡◌, ◌≢◌, refl, ap, ◌∙◌, Bool, true, false, Option, none, some, [], ◌∷◌,
  ◌++◌, arith, Bytes, length, take, take_all, ltb, ◌==◌, ==_refl, str_eq, if◌then◌else◌, Bool-cases,
  inl, inr,
}
use nerv_fs.Os.{
  Timespec, History, Env, lock_write, clock_gettime, acquire_write, open_write, setlkw, write,
  fsync,
}
use nerv_fs.Clock.{elapsed_microseconds, elapsed_microseconds-lt}
use nerv_fs.Disk.{target, appended, file}
use nerv_fs.Wire.Buffer.{load_total}
use nerv_fs.Protocol.{op_resp_ok}
use nerv_fs.Protocol.Header.{serialize_header}
use nerv_fs.Protocol.Transfer.{send_full, written}
use nerv_fs.Protocol.Transfer.Send.{send_full-keeps}
use nerv_fs.FileOps.Files.{fileops_lock_fd, fileops_unlock_fd}
use nerv_fs.Handlers.Respond.{response_header, send_payload, send_message}
use nerv_fs.Handlers.Request.{good, Upload, parse_upload}
use nerv_fs.Handlers.Upload.{
  let_go, metrics, upload_synced, upload_written, upload_locked, upload_opened, upload_file,
  handle_upload_timed,
}
use nerv_fs.Handlers.Discipline.{length-metrics}
use nerv_fs.Handlers.Reply.{metrics_reply, IsFit, reply_bytes}
use nerv_fs.Handlers.Answer.{IsReliable, send_message-written}
use nerv_fs.Handlers.Reply.{upload_kind}

module _ (start : Bytes → Option Bytes) (q : Bytes) (env : Env) (client : ℕ) where
  -- The client's descriptor is no file's, and the file holds `content`.
  abbrev Quiet : Option Bytes → History → Type 0
  Quiet content h = (target client h ≡ none) × (file start q h ≡ content)

  send_full-Quiet :
      (content : Option Bytes) (bytes : Bytes) (h : History)
      → Quiet content h
      → Quiet content (send_full env client bytes h).1
  send_full-Quiet content =
      send_full-keeps (Quiet content) env client (λ h bs n k. client_write content h bs n k)
    where
      client_write :
          (content : Option Bytes) (h : History) (bs : Bytes) (n : Option ℕ)
          → Quiet content h
          → Quiet content (write client bs n ∷ h)
      client_write content h bs none k = k
      client_write content h bs (some n) (no_file, holds) =
          (no_file, ap (λ t. appended q t (take n bs) (file start q h)) no_file ∙ holds)

  send_message-Quiet :
      (content : Option Bytes) (opcode : ℕ) (payload : Bytes) (len elapsed_us : ℕ) (h : History)
      → length payload ≡ len
      → Quiet content h
      → Quiet content (send_message env client opcode (some payload) len elapsed_us h)
  unfolding send_message
  send_message-Quiet content opcode payload len elapsed_us h e k =
      let k₁ =
        send_full-Quiet content (serialize_header (response_header opcode len elapsed_us)) h k in
      elim (Bool-cases (ltb 0 len)) [
        | inl some_bytes ↦
            rw (some_bytes, send_payload, load_total payload 0 len (omega arith))
              (send_full-Quiet content _ _ k₁)
        | inr empty ↦ rw (empty, send_payload) k₁
      ]

  if_none : (b : Bool) (t : Option Bytes) → t ≡ none → (if b then none else t) ≡ none
  if_none true t e = refl
  if_none false t e = e

  let_go-Quiet :
      (content : Option Bytes) (fd : ℕ) (name : Bytes) (h : History)
      → Quiet content h
      → Quiet content (let_go env fd name h)
  unfolding fileops_unlock_fd
  let_go-Quiet content fd name h (no_file, holds) =
      (if_none (client == fd) (target client h) no_file, holds)

  module _ (ok : IsReliable env client) (fd : ℕ) where
    upload_synced-stores :
        (content : Option Bytes) (network_us write_us : ℕ) (write_end : Timespec) (name : Bytes)
        (h : History)
        → Quiet content h
        → Quiet content (upload_synced env client network_us write_us write_end fd name h)
    unfolding upload_synced
    upload_synced-stores content network_us write_us write_end name h k =
        let sync_end = env.clock_gettime (fsync fd ∷ h) in
        let sync_us = elapsed_microseconds write_end sync_end in
        send_message-Quiet content op_resp_ok (metrics network_us write_us sync_us) 24 _ _
          (length-metrics network_us write_us sync_us)
          (let_go-Quiet content fd name (clock_gettime sync_end ∷ fsync fd ∷ h) k)

-- A file system that opens files and grants locks, and writes a body at once.
pub record IsObliging (env : Env) (fd : ℕ) (body : Bytes) : Type 0 where
  pub opens : (h : History) (path : Bytes) → env.open_write h path ≡ some fd
  pub locks : (h : History) → env.setlkw h fd lock_write ≡ true
  pub whole : (h : History) → env.write h fd body ≡ some (length body)

-- The file at `path` holds `body`, and the others what they held.
abbrev pub replaced : Bytes → Bytes → Bytes → Option Bytes → Option Bytes
replaced path body q content = if str_eq q path then some body else content

appended-replaced :
    (q path body : Bytes) (content : Option Bytes)
    → appended q (some path) (take (length body) body) (replaced path [] q content)
      ≡ replaced path body q content
appended-replaced q path body none = elim (Bool-cases (str_eq q path)) [
  | inl same ↦ rw (same, same, take_all (length body) body (omega arith)) refl
  | inr other ↦ rw other refl
]
appended-replaced q path body (some content) = elim (Bool-cases (str_eq q path)) [
  | inl same ↦ rw (same, same, take_all (length body) body (omega arith)) refl
  | inr other ↦ rw (other, other) refl
]

-- A response with the metrics has been sent after `before`.
abbrev pub Thanked : ℕ → Bytes → History → Type 0
Thanked client before h =
    (total_us : ℕ) × (network_us : ℕ) × (write_us : ℕ) × (sync_us : ℕ) × IsFit
      (metrics_reply total_us network_us write_us sync_us)
    × (written client h
        ≡ before ++ reply_bytes (metrics_reply total_us network_us write_us sync_us))

module _ (start : Bytes → Option Bytes) (env : Env) (client : ℕ) (ok : IsReliable env client)
    (u : Upload) (fd : ℕ) (fs : IsObliging env fd u.body) where
  upload_synced-Thanked :
      (network_us write_us : ℕ) (write_end : Timespec) (before : Bytes) (h : History)
      → network_us < 2 ^ 64
      → write_us < 2 ^ 64
      → written client h ≡ before
      → Thanked client before (upload_synced env client network_us write_us write_end fd u.name h)
  unfolding upload_synced fileops_unlock_fd metrics
  upload_synced-Thanked network_us write_us write_end before h net_fits write_fits at_h =
      let sync_us = elapsed_microseconds write_end (env.clock_gettime (fsync fd ∷ h)) in
      (
        (network_us + write_us + sync_us) % 2 ^ 64,
        network_us,
        write_us,
        sync_us,
        (omega arith, net_fits, write_fits, elapsed_microseconds-lt _ _),
        send_message-written env client ok before upload_kind _
            (metrics network_us write_us sync_us) 24 _ _
            (length-metrics network_us write_us sync_us) at_h,
      )

  -- What the disk and the client have after the upload, from a disk and a client before it.
  abbrev Stored : Bytes → Option Bytes → Bytes → History → Type 0
  Stored q content before h =
      Thanked client before h × (file start q h ≡ replaced u.path u.body q content)

  upload_written-Stored :
      (q : Bytes) (content : Option Bytes) (before : Bytes) (network_us : ℕ)
      (write_start : Timespec) (h : History)
      → network_us < 2 ^ 64
      → Quiet start q env client (replaced u.path u.body q content) h
      → written client h ≡ before
      → Stored q content before
          (upload_written env client network_us write_start fd u (some (length u.body)) h)
  unfolding upload_written
  upload_written-Stored q content before network_us write_start h fits k at_h =
      let now = env.clock_gettime h in
      rw (==_refl (length u.body), upload_written)
        (
          upload_synced-Thanked network_us (elapsed_microseconds write_start now) now before
              (clock_gettime now ∷ h) fits (elapsed_microseconds-lt _ _) at_h,
          (upload_synced-stores start q env client ok fd (replaced u.path u.body q content)
              network_us (elapsed_microseconds write_start now) now u.name (clock_gettime now ∷ h)
              k).1,
        )

  other_write :
      (h : History)
      → fd ≢ client
      → written client (write fd u.body (some (length u.body)) ∷ h) ≡ written client h
  other_write h other = ground arith

  -- From the open file on.
  upload_locked-Stored :
      (q : Bytes) (content : Option Bytes) (before : Bytes) (network_us : ℕ)
      (write_start : Timespec) (h : History)
      → network_us < 2 ^ 64
      → fd ≢ client
      → target fd h ≡ some u.path
      → Quiet start q env client (replaced u.path [] q content) h
      → written client h ≡ before
      → Stored q content before (upload_locked env client network_us write_start fd u (true, h))
  unfolding upload_locked
  upload_locked-Stored q content before network_us write_start h fits other open_at (no_file, holds)
        at_h =
      let n = length u.body in
      let stored : file start q (write fd u.body (some n) ∷ h) ≡ replaced u.path u.body q content =
        ap (λ t. appended q t (take n u.body) (file start q h)) open_at
        ∙ ap (appended q (some u.path) (take n u.body)) holds
        ∙ appended-replaced q u.path u.body content in
      rw (fs.whole h) (
        upload_written-Stored q content before network_us write_start (write fd u.body (some n) ∷ h)
          fits (no_file, stored) (other_write h other ∙ at_h))

  if_other :
      (b : Bool) (path : Bytes) (t : Option Bytes)
      → b ≡ false
      → t ≡ none
      → (if b then some path else t) ≡ none
  if_other b path t e no_file = rw e no_file

  pub upload_file-Stored :
      (q : Bytes) (network_us : ℕ) (h : History)
      → network_us < 2 ^ 64
      → target client h ≡ none
      → Stored q (file start q h) (written client h) (upload_file env client network_us (good u) h)
  unfolding upload_file upload_opened fileops_lock_fd
  upload_file-Stored q network_us h fits no_file =
      let h₁ : History = acquire_write u.name (env.acquire_write h u.name) ∷ h in
      let write_start = env.clock_gettime h₁ in
      let h₂ : History = clock_gettime write_start ∷ h₁ in
      let other : fd ≢ client = ok.apart h₂ u.path fd (fs.opens h₂ u.path) in
      let h₃ : History = open_write u.path (some fd) ∷ h₂ in
      let apart : (client == fd) ≡ false = ground arith in
      rw (fs.opens h₂ u.path, upload_opened, fs.locks h₃)
        (upload_locked-Stored q (file start q h) (written client h) network_us write_start
          (setlkw fd lock_write true ∷ h₃) fits other (rw (==_refl fd) refl)
          (if_other (client == fd) u.path (target client h) apart no_file, refl) refl)

-- If the payload parses, the client takes all that is written to it and is no file's descriptor,
-- `malloc` grants all requests, and the file system opens the file, grants the lock and writes the
-- body at once: afterwards the file at the request's path holds exactly the body, every other file
-- holds what it held, and the client has got the metrics as its response.
pub handle_upload_timed-stores :
    (start : Bytes → Option Bytes) (env : Env) (root : Bytes) (client fd : ℕ) (payload : Bytes)
    (len : ℕ) (u : Upload) (net_start : Timespec) (h : History)
    → IsReliable env client
    → IsObliging env fd u.body
    → parse_upload root payload len ≡ good u
    → target client h ≡ none
    → Thanked client
        (written client h)
        (handle_upload_timed env root client payload len net_start h)
      × ((q : Bytes)
          → file start q (handle_upload_timed env root client payload len net_start h)
            ≡ replaced u.path u.body q (file start q h))
unfolding handle_upload_timed
handle_upload_timed-stores start env root client fd payload len u net_start h ok fs parsed no_file =
    let now = env.clock_gettime h in
    rw parsed (
      (upload_file-Stored start env client ok u fd fs [] (elapsed_microseconds net_start now)
          (clock_gettime now ∷ h) (elapsed_microseconds-lt _ _) no_file).0,
      λ q.
          (upload_file-Stored start env client ok u fd fs q (elapsed_microseconds net_start now)
            (clock_gettime now ∷ h) (elapsed_microseconds-lt _ _) no_file).1,
    )
