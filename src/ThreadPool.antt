-- ===== src/ThreadPool.antt =====
-- The job queue of src/threadpool.c: a linked list of jobs with a head and a tail pointer, under one
-- mutex and one condition variable. A function is what its caller does while it holds the mutex.
pub mod Queue
pub mod Workers
pub mod Process
pub mod Answers
use nerv_fs.Base.{
  zero, suc, ◌+◌, ◌&&◌, ℕ, Bool, true, false, Option, none, some, List, ◌∷◌, ◌==◌, if◌then◌else◌,
}
use nerv_fs.Os.{History, close}
use nerv_fs.Protocol.Header.{Header}

-- What a job is about: `client_fd` and `header` of `nervfs_job_t`.
pub record Job : Type 0 where
  pub client_fd : ℕ
  pub header : Header

-- `nervfs_job_t` in memory
pub record Node : Type 0 where
  pub job : Job
  pub next : Option ℕ

-- The variables of the file: `queue_head`, `queue_tail`, `pool_running`, the memory of the nodes, and
-- how often `queue_cond` has been signalled and broadcast.
pub record Pool : Type 0 where
  pub head : Option ℕ
  pub tail : Option ℕ
  pub running : Bool
  pub node : ℕ → Node
  pub signals : ℕ
  pub broadcasts : ℕ

abbrev pub put_node : (ℕ → Node) → ℕ → Node → ℕ → Node
put_node f p n q = if p == q then n else f q

-- The two ways to link node `p` in, by `queue_tail`.
link : ℕ → Option ℕ → Pool → Pool
link p none s = record s { head = some p; tail = some p }
link p (some q) s = record s {
  tail = some p;
  node = put_node s.node q (record (s.node q) { next = some p });
}

-- The first argument is the answer of `malloc`.
unfoldable pub threadpool_submit : Option ℕ → ℕ → Header → Pool → History → Pool × History
unfolding link
threadpool_submit none client_fd header s h = (s, close client_fd ∷ h)
threadpool_submit (some p) client_fd header s h = (
  record (link p s.tail (record s {
    node =
        put_node s.node p
          (record { job = record { client_fd = client_fd; header = header }; next = none });
  })) { signals = s.signals + 1 },
  h,
)

-- What a worker does with the mutex: it sleeps on the condition variable, leaves its loop, or takes
-- the job at the head of the queue.
pub data Turn : Type 0 where
  sleeps : Turn
  exits : Turn
  takes : Job → Pool → Turn

-- `queue_tail` is cleared when the new head is null.
abbrev pub tail_after : Option ℕ → Option ℕ → Option ℕ
tail_after none tail = none
tail_after (some q) tail = tail

take_head : Option ℕ → Pool → Turn
take_head none s = if s.running then sleeps else exits
take_head (some p) s =
    takes (s.node p).job
      (record s { head = (s.node p).next; tail = tail_after (s.node p).next s.tail })

unfoldable pub worker_turn : Pool → Turn
unfolding take_head
worker_turn s = take_head s.head s

-- The part of `threadpool_shutdown` under the mutex.
unfoldable pub stop_pool : Pool → Pool
stop_pool s = record s { running = false; broadcasts = s.broadcasts + 1 }

-- `pthread_join` of `n` workers: whether all of them return in the end.
abbrev pub join_workers : (ℕ → Bool) → ℕ → Bool
join_workers joins zero = true
join_workers joins (suc n) = joins n && join_workers joins n

-- `joins` tells which workers return, from the pool as they find it; `none` if the call never returns.
unfoldable pub threadpool_shutdown : (Pool → ℕ → Bool) → ℕ → Pool → Option Pool
unfolding stop_pool
threadpool_shutdown joins active_workers s =
    if join_workers (joins (stop_pool s)) active_workers then some (stop_pool s) else none
