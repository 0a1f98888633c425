-- ===== src/ThreadPool/Answers.antt =====
-- `process_job` of src/threadpool.c answers the request of its job.
use nerv_fs.Base.{
  ◌≤◌, ◌≡◌, refl, ap, ◌∙◌, ◌∷◌, ◌++◌, [], arith, Bytes, length, take, length-take, ltb, ℕ,
  Bool-cases, inl, inr, true, le→ltb_false, none,
}
use nerv_fs.Os.{History, Env, Timespec, clock_gettime, malloc, close}
use nerv_fs.Protocol.Transfer.{Received, received, recv_full, written}
use nerv_fs.Protocol.Transfer.Receive.{recv_full-keeps}
use nerv_fs.Protocol.Transfer.Peer.{IsPeer, recv_full-peer}
use nerv_fs.Handlers.{dispatch_request_timed}
use nerv_fs.Handlers.Usage.{Holds}
use nerv_fs.Handlers.Reply.{reply_bytes}
use nerv_fs.Handlers.Discipline.Download.{Maps}
use nerv_fs.Handlers.Discipline.Listing.{IsListable}
use nerv_fs.Handlers.Answer.{IsReliable, Answered}
use nerv_fs.Handlers.Answer.Download.{HasShortFiles}
use nerv_fs.Handlers.Answer.Listing.{IsStorage}
use nerv_fs.Handlers.Answer.Dispatch.{kind_of, dispatch-Answered}
use nerv_fs.ThreadPool.{Job}
use nerv_fs.ThreadPool.Process.{job_received, job_allocated, process_job}

-- What the system and the storage directory have to grant for every request to be answered.
pub record IsServer (env : Env) (client : ℕ) (pending : History → Bytes) : Type 0 where
  pub peer : IsPeer env client pending
  pub reliable : IsReliable env client
  pub maps : Maps env
  pub short_files : HasShortFiles env
  pub listable : IsListable env
  pub storage : IsStorage env

module _ (env : Env) (root : Bytes) (job : Job) (pending : History → Bytes)
    (ok : IsServer env job.client_fd pending) (before : Bytes) where
  abbrev IsAnswer : History → Type 0
  IsAnswer h =
      (h' : History) × (h ≡ close job.client_fd ∷ h')
      × Answered job.client_fd before (kind_of job.header.opcode) h'

  abbrev IsIdle : History → Type 0
  IsIdle h = Holds root none none h × (written job.client_fd h ≡ before)

  dispatch-IsAnswer :
      (net_start : Timespec) (payload : Bytes) (h : History)
      → length payload ≡ job.header.payload_len
      → IsIdle h
      → IsAnswer (
          close job.client_fd
          ∷ dispatch_request_timed env root job.client_fd job.header payload net_start h)
  dispatch-IsAnswer net_start payload h len (s, at_h) =
      let (r, fit, suited, e) =
        dispatch-Answered env job.client_fd ok.reliable ok.maps ok.short_files ok.listable
          ok.storage root job.header payload net_start h len s in
      (_, refl, (r, fit, suited, e ∙ ap (λ w. w ++ reply_bytes r) at_h))

  job_received-IsAnswer :
      (net_start : Timespec) (payload : Bytes) (r : Received × History)
      → r.0 ≡ received payload
      → length payload ≡ job.header.payload_len
      → IsIdle r.1
      → IsAnswer (job_received env root job net_start r)
  unfolding job_received
  job_received-IsAnswer net_start payload (x, h) e len idle =
      rw (e, le→ltb_false (length payload) job.header.payload_len (omega (arith, len)))
        (dispatch-IsAnswer net_start payload h len idle)

  recv_full-IsIdle :
      (h : History) → IsIdle h → IsIdle (recv_full env job.client_fd job.header.payload_len h).1
  recv_full-IsIdle =
      recv_full-keeps IsIdle env job.client_fd
        (λ h n bs (s, at_h).
          (record { proper = s.proper; lock_eq = s.lock_eq; file_eq = s.file_eq }, at_h))
        job.header.payload_len

  process_job-IsAnswer :
      (h : History)
      → job.header.payload_len ≤ length (pending h)
      → IsIdle h
      → IsAnswer (process_job env root job h)
  unfolding process_job job_allocated
  process_job-IsAnswer h enough (s, at_h) = elim (Bool-cases (ltb 0 job.header.payload_len)) [
    | inl some_bytes ↦
        let now = env.clock_gettime h in
        let len = job.header.payload_len in
        let h₂ : History = malloc len true ∷ clock_gettime now ∷ h in
        let (got, left) = recv_full-peer ok.peer len h₂ in
        let same : pending h₂ ≡ pending h =
          ok.peer.steady (clock_gettime now ∷ h) len true ∙ ok.peer.timeless h now in
        rw (some_bytes, ok.reliable.grants (clock_gettime now ∷ h) len)
          (job_received-IsAnswer now (take len (pending h)) (recv_full env job.client_fd len h₂)
            (got ∙ ap (λ p. received (take len p)) same)
            (length-take len (pending h) ∙ omega (arith, enough))
            (recv_full-IsIdle h₂
              (record { proper = s.proper; lock_eq = s.lock_eq; file_eq = s.file_eq }, at_h)))
    | inr empty ↦ rw empty (
        dispatch-IsAnswer (env.clock_gettime h) [] (clock_gettime (env.clock_gettime h) ∷ h)
          (ground arith)
          (record { proper = s.proper; lock_eq = s.lock_eq; file_eq = s.file_eq }, at_h))
  ]

-- Under the conditions of a reliable server (a connection and memory that do not fail, a map of the
-- size asked for, files of at most 2^32 - 9 bytes, at most 15,000,000 names that are C strings),
-- with the payload that the job's header announces on the connection and a worker that holds no lock
-- and no file: `process_job` sends exactly one response, an error or the one for the job's opcode,
-- and its last call closes the connection.
pub process_job-answers :
    (env : Env) (root : Bytes) (job : Job) (pending : History → Bytes) (h : History)
    → IsServer env job.client_fd pending
    → Holds root none none h
    → job.header.payload_len ≤ length (pending h)
    → (h' : History) × (process_job env root job h ≡ close job.client_fd ∷ h')
      × Answered job.client_fd (written job.client_fd h) (kind_of job.header.opcode) h'
process_job-answers env root job pending h ok s enough =
    process_job-IsAnswer env root job pending ok (written job.client_fd h) h enough (s, refl)
