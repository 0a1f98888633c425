-- ===== src/Tests/Queues.antt =====
-- The thread pool at concrete inputs.
use nerv_fs.Base.{
  ℕ, ◌≡◌, refl, true, false, none, some, List, [], ◌∷◌, ◌++◌, arith, assign, ℕ_discrete,
}
use nerv_fs.Os.{History, close}
use nerv_fs.FileOps.Resolve.{codes}
use nerv_fs.Wire.{write_u16, write_u32, write_u64}
use nerv_fs.Protocol.Header.{Header, serialize_header}
use nerv_fs.Handlers.Usage.{Holds}
use nerv_fs.Net.{handle_client_readable}
use nerv_fs.Net.Request.{Accepts, handle_client_readable_lem}
use nerv_fs.ThreadPool.Process.{process_job, process_job-closes}
use nerv_fs.Tests.Samples.{stream_bytes, calm, pending, calm-IsStream, calm-Maps, calm-IsListable}
use nerv_fs.ThreadPool.{Job, Node, Pool, threadpool_submit, takes, worker_turn, stop_pool}
use nerv_fs.ThreadPool.Queue.{Represents, IsFreshFor, submit-Represents, worker_turn-takes}
use nerv_fs.ThreadPool.Workers.{
  looking, busy, exited, Server, Step, submit, stop_accepting, shutdown, take, exit, Reach, here,
  next, jobs_in_order, exited_worker_drained, waiting_job_taken,
}

abbrev list_request : Header
list_request = record { magic = 0xAE; version = 1; opcode = 3; payload_len = 0; reserved = 0 }

abbrev job : ℕ → Job
job fd = record { client_fd = fd; header = list_request }

-- Memory before the first job.
abbrev blank : ℕ → Node
blank p = record { job = job 0; next = none }

abbrev empty_pool : Pool
empty_pool = record {
  head = none;
  tail = none;
  running = true;
  node = blank;
  signals = 0;
  broadcasts = 0;
}

empty-Represents : Represents empty_pool []
empty-Represents = ([], record { chain = refl; distinct = tt; tail_last = refl }, refl)

empty-fresh : (p : ℕ) → IsFreshFor p empty_pool
empty-fresh p [] q = tt
empty-fresh p (a ∷ ps) q = absurd (cc q.chain.0)

submit-Represents_example :
    Represents (threadpool_submit (some 40) 7 list_request empty_pool []).0 ([] ++ job 7 ∷ [])
submit-Represents_example =
    submit-Represents empty_pool 40 7 list_request [] [] empty-Represents (empty-fresh 40)

abbrev one_job : Pool
one_job = record {
  head = some 40;
  tail = some 40;
  running = true;
  signals = 0;
  broadcasts = 0;
  node = λ p. record { job = job 7; next = none };
}

one_job-Represents : Represents one_job (job 7 ∷ [])
one_job-Represents =
    (40 ∷ [], record { chain = (refl, refl); distinct = (tt, tt); tail_last = refl }, refl)

worker_turn-takes_example :
    (s : Pool) × (worker_turn one_job ≡ takes (job 7) s)
    × Represents s []
    × (s.running ≡ one_job.running)
worker_turn-takes_example = worker_turn-takes one_job (job 7) [] one_job-Represents

handle_client_readable_lem_example :
    Accepts 4 pending
      ([] ++ job 4 ∷ [])
      (codes "hello")
      (handle_client_readable calm 4 (some 40) empty_pool [])
unfolding serialize_header write_u16 write_u32 write_u64
handle_client_readable_lem_example =
    handle_client_readable_lem calm pending 4 40 empty_pool [] list_request (codes "hello") []
      (calm-IsStream stream_bytes) refl
      (record {
        magic_fits = omega arith;
        version_fits = omega arith;
        opcode_fits = omega arith;
        payload_len_fits = omega arith;
        reserved_fits = omega arith;
      })
      refl refl empty-Represents (empty-fresh 40)

-- A download request whose payload has three bytes.
abbrev short_download : Job
short_download = record {
  client_fd = 4;
  header = record list_request { opcode = 2; payload_len = 3 };
}

process_job-closes_example :
    (h : History) × (process_job calm (codes "/srv") short_download [] ≡ close 4 ∷ h)
    × Holds (codes "/srv") none none h
process_job-closes_example =
    process_job-closes calm pending (codes "/srv") short_download [] (calm-Maps stream_bytes)
      (calm-IsListable stream_bytes) (calm-IsStream stream_bytes)
      (record { proper = tt; lock_eq = refl; file_eq = refl })

-- A server after its first connection.
abbrev submitted_one : Server
submitted_one = record {
  pool = (threadpool_submit (some 40) 7 list_request empty_pool []).0;
  workers = λ _. looking;
  accepting = true;
  submitted = job 7 ∷ [];
  taken = [];
}

submitted_one-reached : Reach 2 submitted_one
submitted_one-reached = next (here blank) (submit 40 (job 7) refl (empty-fresh 40))

jobs_in_order_example :
    (queued : List Job) × Represents submitted_one.pool queued
    × (submitted_one.submitted ≡ submitted_one.taken ++ queued)
jobs_in_order_example = jobs_in_order submitted_one-reached

waiting_job_taken_example :
    (u : Server) × Step 2 submitted_one u × ((j : Job) × (u.taken ≡ submitted_one.taken ++ j ∷ []))
waiting_job_taken_example =
    waiting_job_taken submitted_one-reached 1 (omega arith) refl (λ e. absurd (cc e))

-- A worker takes the job, and the server stops: the other worker returns.
abbrev taken_one : Server
taken_one = record submitted_one {
  pool = record submitted_one.pool { head = none; tail = none };
  workers = assign submitted_one.workers 0 (busy (job 7));
  taken = job 7 ∷ [];
}

taken_one-reached : Reach 2 taken_one
unfolding threadpool_submit worker_turn
taken_one-reached = next submitted_one-reached (take 0 (omega arith) refl refl)

abbrev stopped : Server
stopped = record taken_one { accepting = false; pool = stop_pool taken_one.pool }

abbrev one_exited : Server
one_exited = record stopped { workers = assign stopped.workers 1 exited }

one_exited-reached : Reach 2 one_exited
unfolding threadpool_submit stop_pool worker_turn ℕ_discrete
one_exited-reached =
    next (next (next taken_one-reached stop_accepting) (shutdown refl))
      (exit 1 (omega arith) refl refl)

exited_worker_drained_example : one_exited.taken ≡ one_exited.submitted
unfolding ℕ_discrete
exited_worker_drained_example = exited_worker_drained one_exited-reached 1 refl
