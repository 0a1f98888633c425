-- ===== src/ThreadPool/Process.antt =====
-- `process_job` of src/threadpool.c: a worker reads the payload of its job, has it dispatched, and
-- closes the connection. Its log messages are left out.
use nerv_fs.Base.{
  ◌≤◌, ◌≡◌, refl, ◌⊎◌, inl, inr, Bool, true, false, none, [], ◌∷◌, arith, Bytes, length, take,
  length-take, ltb, if◌then◌else◌, Bool-cases,
}
use nerv_fs.Os.{History, Env, Timespec, clock_gettime, malloc, close}
use nerv_fs.Protocol.Transfer.{Received, received, recv_full}
use nerv_fs.Protocol.Transfer.Receive.{IsStream, recv_full-keeps, recv_full_lem}
use nerv_fs.Handlers.{dispatch_request_timed}
use nerv_fs.Handlers.Usage.{Holds}
use nerv_fs.Handlers.Discipline.Download.{Maps}
use nerv_fs.Handlers.Discipline.Listing.{IsListable}
use nerv_fs.Handlers.Discipline.Dispatch.{dispatch-Holds}
use nerv_fs.ThreadPool.{Job}

-- After `recv_full`. Out of fuel, the call has not returned.
unfoldable pub job_received : Env → Bytes → Job → Timespec → Received × History → History
job_received env root job net_start (Received.failed, h) = close job.client_fd ∷ h
job_received env root job net_start (Received.spinning, h) = h
job_received env root job net_start (received payload, h) =
    if ltb (length payload) job.header.payload_len
    then close job.client_fd ∷ h
    else close job.client_fd
      ∷ dispatch_request_timed env root job.client_fd job.header payload net_start h

-- After `malloc` of the payload.
unfoldable pub job_allocated : Env → Bytes → Job → Timespec → Bool → History → History
unfolding job_received
job_allocated env root job net_start false h = close job.client_fd ∷ h
job_allocated env root job net_start true h =
    job_received env root job net_start (recv_full env job.client_fd job.header.payload_len h)

-- A payload of length 0 is a null pointer, of which no handler reads a byte.
unfoldable pub process_job : Env → Bytes → Job → History → History
unfolding job_allocated
process_job env root job h =
    let net_start = env.clock_gettime h in
    let h₁ : History = clock_gettime net_start ∷ h in
    let len = job.header.payload_len in
    if ltb 0 len
    then job_allocated env root job net_start (env.malloc h₁ len)
        (malloc len (env.malloc h₁ len) ∷ h₁)
    else close job.client_fd
      ∷ dispatch_request_timed env root job.client_fd job.header [] net_start h₁

module _ (env : Env) (maps : Maps env) (listable : IsListable env) (root : Bytes) (job : Job) where
  -- The last call closes the connection, and before it nothing was held.
  abbrev Ends : History → Type 0
  Ends h = (h' : History) × (h ≡ close job.client_fd ∷ h') × Holds root none none h'

  received-Ends :
      (net_start : Timespec) (payload : Bytes) (h : History)
      → length payload ≤ job.header.payload_len
      → Holds root none none h
      → Ends (job_received env root job net_start (received payload, h))
  unfolding job_received
  received-Ends net_start payload h fits s =
      elim (Bool-cases (ltb (length payload) job.header.payload_len)) [
        | inl short ↦ rw short (h, refl, s)
        | inr whole ↦ rw whole (
          dispatch_request_timed env root job.client_fd job.header payload net_start h,
          refl,
          dispatch-Holds env maps listable root job.client_fd job.header payload net_start h
              (ground arith) s,
        )
      ]

  job_received-Ends :
      (net_start : Timespec) (r : Received) (h : History)
      → (r ≡ Received.failed)
        ⊎ ((bytes : Bytes) × (r ≡ received bytes) × (length bytes ≤ job.header.payload_len))
      → Holds root none none h
      → Ends (job_received env root job net_start (r, h))
  unfolding job_received
  job_received-Ends net_start r h (inl e) s = rw e (h, refl, s)
  job_received-Ends net_start r h (inr (bytes, e, fits)) s =
      rw e (received-Ends net_start bytes h fits s)

  module _ {pending : History → Bytes} (stream : IsStream env job.client_fd pending) where
    recv_full-fits :
        (h : History)
        → ((recv_full env job.client_fd job.header.payload_len h).0 ≡ Received.failed)
          ⊎ ((bytes : Bytes) × ((recv_full env job.client_fd job.header.payload_len h).0
                ≡ received bytes)
              × (length bytes ≤ job.header.payload_len))
    recv_full-fits h = elim (recv_full_lem stream job.header.payload_len h) [
      | inl (e, lost) ↦ inl e
      | inr (e, rest) ↦ inr (
        take job.header.payload_len (pending h),
        e,
        omega (arith, length-take job.header.payload_len (pending h)),
      )
    ]

    recv_full-Holds :
        (h : History)
        → Holds root none none h
        → Holds root none none (recv_full env job.client_fd job.header.payload_len h).1
    recv_full-Holds =
        recv_full-keeps (Holds root none none) env job.client_fd
          (λ h n bs s. record { proper = s.proper; lock_eq = s.lock_eq; file_eq = s.file_eq })
          job.header.payload_len

    job_allocated-Ends :
        (net_start : Timespec) (granted : Bool) (h : History)
        → Holds root none none h
        → Ends (job_allocated env root job net_start granted h)
    unfolding job_allocated
    job_allocated-Ends net_start false h s = (h, refl, s)
    job_allocated-Ends net_start true h s =
        job_received-Ends net_start _ _ (recv_full-fits h) (recv_full-Holds h s)

    process_job-Ends : (h : History) → Holds root none none h → Ends (process_job env root job h)
    unfolding process_job
    process_job-Ends h s = elim (Bool-cases (ltb 0 job.header.payload_len)) [
      | inl some_bytes ↦ rw some_bytes (
          job_allocated-Ends _ _ _
            (record { proper = s.proper; lock_eq = s.lock_eq; file_eq = s.file_eq }))
      | inr empty ↦ rw empty (
        dispatch_request_timed env root job.client_fd job.header [] _ _,
        refl,
        dispatch-Holds env maps listable root job.client_fd job.header [] _ _ (ground arith)
            (record { proper = s.proper; lock_eq = s.lock_eq; file_eq = s.file_eq }),
      )
    ]

-- On a stream socket, if a map has the size asked for, the storage directory has at most 15,000,000
-- names and the worker holds neither a lock nor a storage file: whatever the job holds and the
-- system answers, `process_job` ends, its last call closes the job's connection, and before that
-- call the worker holds neither a lock nor a storage file and has used them properly all along.
pub process_job-closes :
    (env : Env) (pending : History → Bytes) (root : Bytes) (job : Job) (h : History)
    → Maps env
    → IsListable env
    → IsStream env job.client_fd pending
    → Holds root none none h
    → (h' : History) × (process_job env root job h ≡ close job.client_fd ∷ h')
      × Holds root none none h'
process_job-closes env pending root job h maps listable stream s =
    process_job-Ends env maps listable root job stream h s
