-- ===== src/ThreadPool/Workers.antt =====
-- The pool's threads and the accept loop of src/net.c, which submits: any interleaving of what they do
-- under the mutex. src/main.c stops the accept loop before it calls `threadpool_shutdown`.
use nerv_fs.Base.{
  ℕ, ◌<◌, ◌≡◌, refl, sym, subst, ap, ◌∙◌, ◌≢◌, Bool, true, false, none, some, List, [], ◌∷◌, ◌++◌,
  append-nil, append_assoc, arith, assign,
}
use nerv_fs.ThreadPool.{Job, Node, Pool, threadpool_submit, exits, takes, worker_turn, stop_pool}
use nerv_fs.ThreadPool.Queue.{
  Represents, IsFreshFor, submit-Represents, worker_turn-takes, worker_turn-empty,
}

-- Where `worker_main` stands: at the top of its loop or asleep, in `process_job`, or returned.
pub data Worker : Type 0 where
  looking : Worker
  busy : Job → Worker
  exited : Worker

-- `accepting` holds while the accept loop runs. The last two fields record what went in and out.
pub record Server : Type 0 where
  pub pool : Pool
  pub workers : ℕ → Worker
  pub accepting : Bool
  pub submitted : List Job
  pub taken : List Job

pub data Step (n : ℕ) (s : Server) : Server → Type 0 where
  submit :
      (p : ℕ) (j : Job)
      → s.accepting ≡ true
      → IsFreshFor p s.pool
      → Step n s (record s {
        pool = (threadpool_submit (some p) j.client_fd j.header s.pool []).0;
        submitted = s.submitted ++ j ∷ [];
      })
  stop_accepting : Step n s (record s { accepting = false })
  shutdown : s.accepting ≡ false → Step n s (record s { pool = stop_pool s.pool })
  take :
      (i : ℕ) {j : Job} {pool' : Pool}
      → i < n
      → s.workers i ≡ looking
      → worker_turn s.pool ≡ takes j pool'
      → Step n s (record s {
        pool = pool';
        workers = assign s.workers i (busy j);
        taken = s.taken ++ j ∷ [];
      })
  finish :
      (i : ℕ) {j : Job}
      → i < n
      → s.workers i ≡ busy j
      → Step n s (record s { workers = assign s.workers i looking })
  exit :
      (i : ℕ)
      → i < n
      → s.workers i ≡ looking
      → worker_turn s.pool ≡ exits
      → Step n s (record s { workers = assign s.workers i exited })

-- The pool after `threadpool_init`: an empty queue and workers at the top of their loops.
abbrev pub start_server : (ℕ → Node) → Server
start_server node = record {
  pool = record {
    head = none;
    tail = none;
    running = true;
    node = node;
    signals = 0;
    broadcasts = 0;
  };
  workers = λ _. looking;
  accepting = true;
  submitted = [];
  taken = [];
}

pub data Reach (n : ℕ) : Server → Type 0 where
  here : (node : ℕ → Node) → Reach n (start_server node)
  next : {s u : Server} → Reach n s → Step n s u → Reach n u

record Inv (s : Server) : Type 0 where
  queued : List Job
  represents : Represents s.pool queued
  conserved : s.submitted ≡ s.taken ++ queued
  running : s.accepting ≡ true → s.pool.running ≡ true
  drained : (i : ℕ) → s.workers i ≡ exited → (queued ≡ []) × (s.pool.running ≡ false)

submit-running :
    (p : ℕ) (j : Job) (s : Pool)
    → (threadpool_submit (some p) j.client_fd j.header s []).0.running ≡ s.running
unfolding threadpool_submit
submit-running p j s = ground arith

shutdown-Represents : (s : Pool) (js : List Job) → Represents s js → Represents (stop_pool s) js
unfolding stop_pool
shutdown-Represents s js (ps, q, e) =
    (ps, record { chain = q.chain; distinct = q.distinct; tail_last = q.tail_last }, e)

shutdown_stops : (s : Pool) → (stop_pool s).running ≡ false
unfolding stop_pool
shutdown_stops s = refl

-- A worker that takes a job has taken the head of the queue.
takes-head :
    (s s' : Pool) (j : Job) (js : List Job)
    → Represents s js
    → worker_turn s ≡ takes j s'
    → (rest : List Job) × (js ≡ j ∷ rest) × Represents s' rest × (s'.running ≡ s.running)
takes-head s s' j [] r e = absurd (ground (arith, worker_turn-empty s r))
takes-head s s' j (k ∷ rest) r e =
    let (found, turn, r', same) = worker_turn-takes s k rest r in
    let job_eq : k ≡ j = cc turn in
    let pool_eq : found ≡ s' = cc turn in
    (
      rest,
      ap (λ x. x ∷ rest) job_eq,
      subst (λ p. Represents p rest) pool_eq r',
      subst (λ p. p.running ≡ s.running) pool_eq same,
    )

-- A worker that leaves its loop has found the queue empty and the pool stopped.
exits-empty :
    (s : Pool) (js : List Job)
    → Represents s js
    → worker_turn s ≡ exits
    → (js ≡ []) × (s.running ≡ false)
exits-empty s [] r e = (refl, ground (arith, worker_turn-empty s r))
exits-empty s (k ∷ rest) r e =
    let (found, turn, r', same) = worker_turn-takes s k rest r in absurd (cc turn)

Step-Inv : {n : ℕ} {s u : Server} → Step n s u → Inv s → Inv u
Step-Inv {s} (submit p j open_ fresh) v = record {
  queued = v.queued ++ j ∷ [];
  represents = submit-Represents s.pool p j.client_fd j.header [] v.queued v.represents fresh;
  conserved = ap (λ js. js ++ j ∷ []) v.conserved ∙ append_assoc s.taken v.queued (j ∷ []);
  running = λ e. submit-running p j s.pool ∙ v.running e;
  drained = λ i e. ground (arith, v.drained i e, v.running open_);
}
Step-Inv stop_accepting v = record {
  queued = v.queued;
  represents = v.represents;
  conserved = v.conserved;
  running = λ e. cc;
  drained = v.drained;
}
Step-Inv {s} (shutdown e) v = record {
  queued = v.queued;
  represents = shutdown-Represents s.pool v.queued v.represents;
  conserved = v.conserved;
  running = λ e'. cc;
  drained = λ i e'. ((v.drained i e').0, shutdown_stops s.pool);
}
Step-Inv {s} (take i {j} {pool'} lt at_i e) v =
    let (rest, queue_eq, r, same) = takes-head s.pool pool' j v.queued v.represents e in
    record {
      queued = rest;
      represents = r;
      conserved =
          v.conserved ∙ ap (◌++◌ s.taken) queue_eq ∙ sym (append_assoc s.taken (j ∷ []) rest);
      running = λ e'. same ∙ v.running e';
      drained = λ k e'. ground (arith, v.drained k, queue_eq);
    }
Step-Inv (finish i {j} lt at_i) v = record {
  queued = v.queued;
  represents = v.represents;
  conserved = v.conserved;
  running = v.running;
  drained = λ k e. v.drained k (ground arith);
}
Step-Inv {s} (exit i lt at_i e) v =
    let (none_left, stopped) = exits-empty s.pool v.queued v.represents e in
    record {
      queued = v.queued;
      represents = v.represents;
      conserved = v.conserved;
      running = v.running;
      drained = λ k e'. (none_left, stopped);
    }

start_server-Inv : (node : ℕ → Node) → Inv (start_server node)
start_server-Inv node = record {
  queued = [];
  represents = ([], record { chain = refl; distinct = tt; tail_last = refl }, refl);
  conserved = refl;
  running = λ e. refl;
  drained = λ i e. absurd (ground arith);
}

Reach-Inv : {n : ℕ} {s : Server} → Reach n s → Inv s
Reach-Inv (here node) = start_server-Inv node
Reach-Inv (next r st) = Step-Inv st (Reach-Inv r)

-- In every state that workers and an accept loop whose jobs get memory can reach, the jobs submitted
-- so far are those that workers took, in the same order, followed by those in the linked list: none
-- is lost, taken twice or overtaken.
pub jobs_in_order :
    {n : ℕ} {s : Server} (r : Reach n s)
    → (queued : List Job) × Represents s.pool queued × (s.submitted ≡ s.taken ++ queued)
jobs_in_order r = let v = Reach-Inv r in (v.queued, v.represents, v.conserved)

-- In every state that workers and an accept loop whose jobs get memory can reach: once any worker
-- has returned from its loop, every submitted job has been taken.
pub exited_worker_drained :
    {n : ℕ} {s : Server} (r : Reach n s) (i : ℕ) → s.workers i ≡ exited → s.taken ≡ s.submitted
exited_worker_drained {s} r i e =
    let v = Reach-Inv r in
    sym (v.conserved ∙ ap (◌++◌ s.taken) (v.drained i e).0 ∙ append-nil s.taken)

-- In every state that workers and an accept loop whose jobs get memory can reach, a worker that
-- looks at the queue never sleeps or returns while there is a job in it: it can take one.
pub waiting_job_taken :
    {n : ℕ} {s : Server} (r : Reach n s) (i : ℕ)
    → i < n
    → s.workers i ≡ looking
    → s.submitted ≢ s.taken
    → (u : Server) × Step n s u × ((j : Job) × (u.taken ≡ s.taken ++ j ∷ []))
waiting_job_taken {n} {s} r i lt at_i more = next_job (v.queued) refl
  where
    v : Inv s
    v = Reach-Inv r

    next_job :
        (js : List Job)
        → v.queued ≡ js
        → (u : Server) × Step n s u × ((j : Job) × (u.taken ≡ s.taken ++ j ∷ []))
    next_job [] e = absurd (more (v.conserved ∙ ap (◌++◌ s.taken) e ∙ append-nil s.taken))
    next_job (j ∷ js) e =
        let (pool', turn, r', same) =
          worker_turn-takes s.pool j js (subst (Represents s.pool) e v.represents) in
        (_, take i lt at_i turn, (j, refl))
