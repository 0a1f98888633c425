-- ===== src/Server.antt =====
-- `main` of src/main.c, with the C library's `atoi` as a parameter. What is printed is left out, and so are
-- the signals: `handle_sigint` clears `nervfs_running`, which the environment gives.
use nerv_fs.Base.{
  zero, suc, ℕ, ◌+◌, ◌∙◌, ◌<◌, ◌≡◌, refl, subst, ap, Bool, true, false, ◌||◌, Option, none, some,
  List, [], ◌∷◌, ◌>>=◌, arith, Bytes, ltb, ◌==◌, if◌then◌else◌, Bool-cases, inl, inr,
}
use mathlib.Core.Option.{some-injective}
use nerv_fs.Os.{History, Env, Stat, close, stat, mkdir}
use nerv_fs.FileOps.Resolve.{codes}
use nerv_fs.FileOps.Whole.{resolve_root, root_made, root_looked_up, fileops_init}
use nerv_fs.ThreadPool.{Node, Pool, stop_pool, join_workers, threadpool_shutdown}
use nerv_fs.ThreadPool.Workers.{start_server}
use nerv_fs.Net.Select.{Surroundings, Loop, watched, started, net_run_select_loop}
use nerv_fs.Net.Select.Balance.{one, count, gained, closed}
use nerv_fs.Net.Select.Ends.{
  Settled, after_rounds, net_run_select_loop-Settled, net_run_select_loop-ends,
}
use nerv_fs.Net.Listener.{Owned, net_create_listener, net_create_listener-Owned}

abbrev pub nervfs_thread_pool_size : ℕ
nervfs_thread_pool_size = 8

-- The exit status 1 or 0, with the state that is left.
pub data Exit : Type 0 where
  start_failed : History → Exit
  shut_down : Loop → Exit

-- After `threadpool_shutdown`.
unfoldable pub loop_left : ℕ → Loop → Exit
loop_left listen_fd s = shut_down (record s { calls = close listen_fd ∷ s.calls })

-- After the select loop has returned. What the workers take from the queue before they return is not
-- followed.
unfoldable pub loop_ended : Surroundings → ℕ → Loop → Option Exit
unfolding loop_left threadpool_shutdown
loop_ended around listen_fd s = do
  pool ← threadpool_shutdown around.pthread_join nervfs_thread_pool_size s.pool
  some (loop_left listen_fd (record s { pool = pool }))

-- After `net_create_listener`; the pool is as `threadpool_init` leaves it.
unfoldable pub listener_up : Env → Surroundings → ℕ → (ℕ → Node) → Option ℕ × History → Option Exit
unfolding loop_ended
listener_up env around rounds node (none, h) = some (start_failed h)
listener_up env around rounds node (some listen_fd, h) = do
  s ← net_run_select_loop env around listen_fd rounds (start_server node).pool h
  loop_ended around listen_fd s

-- After `fileops_init`.
unfoldable pub root_set :
    Env → Surroundings → ℕ → (ℕ → Node) → ℕ → Option Bytes × History → Option Exit
unfolding listener_up
root_set env around rounds node port (none, h) = some (start_failed h)
root_set env around rounds node port (some root, h) =
    listener_up env around rounds node (net_create_listener env port h)

-- `port` is `none` for a negative number.
unfoldable pub port_read : Env → Surroundings → ℕ → (ℕ → Node) → Option ℕ → History → Option Exit
unfolding root_set
port_read env around rounds node none h = some (start_failed h)
port_read env around rounds node (some port) h =
    if port == 0 || ltb 65535 port
    then some (start_failed h)
    else root_set env around rounds node port (fileops_init env (codes "storage") h)

-- `args` is `argv` without the program's name; `none` if the select loop is still running after `rounds`.
unfoldable pub server_main :
    Env → (Bytes → Option ℕ) → Surroundings → ℕ → (ℕ → Node) → List Bytes → History → Option Exit
unfolding port_read
server_main env atoi around rounds node (port ∷ []) h =
    port_read env around rounds node (atoi port) h
server_main env atoi around rounds node _ h = some (start_failed h)

-- Every descriptor that `main` got has been closed or is the pool's.
abbrev pub Tidy : ℕ → Exit → Type 0
Tidy fd (start_failed h) = gained fd h ≡ closed fd h
Tidy fd (shut_down s) =
    (watched s.slots ≡ []) × (gained fd s.calls ≡ count fd s.handed + closed fd s.calls)

module _ (env : Env) (around : Surroundings) (rounds : ℕ) (node : ℕ → Node) (fd : ℕ) where
  abbrev IsTidy : Option Exit → Type 0
  IsTidy r = (end : Exit) → r ≡ some end → Tidy fd end

  failed-IsTidy : (h : History) → gained fd h ≡ closed fd h → IsTidy (some (start_failed h))
  failed-IsTidy h even end e = subst (Tidy fd) (some-injective _ _ e) even

  loop_left-Tidy :
      (listen_fd : ℕ) (s : Loop) → Settled fd (one fd listen_fd) s → Tidy fd (loop_left listen_fd s)
  unfolding loop_left
  loop_left-Tidy listen_fd s (none_left, sum) = (none_left, omega (arith, sum))

  shut_pool-IsTidy :
      (listen_fd : ℕ) (s : Loop) (pool : Option Pool)
      → Settled fd (one fd listen_fd) s
      → IsTidy (pool >>= λ p. some (loop_left listen_fd (record s { pool = p })))
  shut_pool-IsTidy listen_fd s none settled end e = absurd (cc e)
  shut_pool-IsTidy listen_fd s (some p) settled end e =
      subst (Tidy fd) (some-injective _ _ e)
        (loop_left-Tidy listen_fd (record s { pool = p }) settled)

  looped-IsTidy :
      (listen_fd : ℕ) (r : Option Loop)
      → ((s : Loop) → r ≡ some s → Settled fd (one fd listen_fd) s)
      → IsTidy (r >>= λ s. loop_ended around listen_fd s)
  unfolding loop_ended
  looped-IsTidy listen_fd none settled end e = absurd (cc e)
  looped-IsTidy listen_fd (some s) settled end e =
      shut_pool-IsTidy listen_fd s _ (settled s refl) end e

  listener_up-IsTidy :
      (h : History) (r : Option ℕ × History)
      → gained fd h ≡ closed fd h
      → Owned fd h r
      → IsTidy (listener_up env around rounds node r)
  unfolding listener_up
  listener_up-IsTidy h (none, h₁) even owned = failed-IsTidy h₁ (omega (arith, even, owned))
  listener_up-IsTidy h (some listen_fd, h₁) even owned = looped-IsTidy listen_fd _ (λ s.
      net_run_select_loop-Settled env around listen_fd rounds (start_server node).pool h₁ s fd
        (one fd listen_fd) (omega (arith, even, owned)))

  -- `fileops_init` opens and closes nothing.
  abbrev StillEven : Option Bytes × History → Type 0
  StillEven r = gained fd r.1 ≡ closed fd r.1

  root_made-StillEven :
      (root_dir : Bytes) (made : Bool) (h : History)
      → gained fd h ≡ closed fd h
      → StillEven (root_made env root_dir made h)
  unfolding root_made resolve_root
  root_made-StillEven root_dir false h even = even
  root_made-StillEven root_dir true h even = even

  root_looked_up-StillEven :
      (root_dir : Bytes) (found : Option Stat) (h : History)
      → gained fd h ≡ closed fd h
      → StillEven (root_looked_up env root_dir found h)
  unfolding root_looked_up resolve_root
  root_looked_up-StillEven root_dir (some st) h even = even
  root_looked_up-StillEven root_dir none h even =
      root_made-StillEven root_dir (env.mkdir h root_dir)
        (mkdir root_dir (env.mkdir h root_dir) ∷ h) even

  root_set-IsTidy :
      (port : ℕ) (r : Option Bytes × History)
      → StillEven r
      → IsTidy (root_set env around rounds node port r)
  unfolding root_set
  root_set-IsTidy port (none, h) even = failed-IsTidy h even
  root_set-IsTidy port (some root, h) even =
      listener_up-IsTidy h (net_create_listener env port h) even
        (net_create_listener-Owned env port fd h)

  port_read-IsTidy :
      (port : Option ℕ) (h : History)
      → gained fd h ≡ closed fd h
      → IsTidy (port_read env around rounds node port h)
  unfolding port_read fileops_init
  port_read-IsTidy none h even = failed-IsTidy h even
  port_read-IsTidy (some port) h even = elim (Bool-cases (port == 0 || ltb 65535 port)) [
    | inl bad ↦ rw bad (failed-IsTidy h even)
    | inr good ↦ rw good (
        root_set-IsTidy port (fileops_init env (codes "storage") h) (
          root_looked_up-StillEven (codes "storage") (env.stat h (codes "storage"))
            (stat (codes "storage") (env.stat h (codes "storage")) ∷ h) even))
  ]

server_main-Tidy :
    (env : Env) (atoi : Bytes → Option ℕ) (around : Surroundings) (rounds : ℕ) (node : ℕ → Node)
    (args : List Bytes) (h : History) (fd : ℕ) (end : Exit)
    → gained fd h ≡ closed fd h
    → server_main env atoi around rounds node args h ≡ some end
    → Tidy fd end
unfolding server_main
server_main-Tidy env atoi around rounds node [] h fd end even =
    failed-IsTidy env around rounds node fd h even end
server_main-Tidy env atoi around rounds node (port ∷ []) h fd end even =
    port_read-IsTidy env around rounds node fd (atoi port) h even end
server_main-Tidy env atoi around rounds node (port ∷ arg ∷ args) h fd end even =
    failed-IsTidy env around rounds node fd h even end

module _ (env : Env) (around : Surroundings) (rounds : ℕ) (node : ℕ → Node)
    (stops : (listen_fd : ℕ) (h : History)
      → (n : ℕ) × (n < rounds)
        × (env.nervfs_running
              (after_rounds env around listen_fd n (started (start_server node).pool h)).calls
            ≡ false))
    (returns : (s : Pool) (i : ℕ)
      → s.running ≡ false
      → 0 < s.broadcasts
      → around.pthread_join s i ≡ true) where
  all_join :
      (s : Pool) (n : ℕ)
      → s.running ≡ false
      → 0 < s.broadcasts
      → join_workers (around.pthread_join s) n ≡ true
  all_join s zero off woken = refl
  all_join s (suc n) off woken = rw (returns s n off woken) (all_join s n off woken)

  loop_ended-Ends :
      (listen_fd : ℕ) (s : Loop) → (end : Exit) × (loop_ended around listen_fd s ≡ some end)
  unfolding loop_ended threadpool_shutdown
  loop_ended-Ends listen_fd s = (
    loop_left listen_fd (record s { pool = stop_pool s.pool }),
    rw (all_join (stop_pool s.pool) 8 refl (omega arith)) refl,
  )

  abbrev Ends : Option Exit → Type 0
  Ends r = (end : Exit) × (r ≡ some end)

  listener_up-Ends : (r : Option ℕ × History) → Ends (listener_up env around rounds node r)
  unfolding listener_up
  listener_up-Ends (none, h) = (start_failed h, refl)
  listener_up-Ends (some listen_fd, h) =
      let (n, enough, off) = stops listen_fd h in
      let (s, e, settled) =
        net_run_select_loop-ends env around listen_fd n rounds (start_server node).pool h off
          enough in
      let (end, ended) = loop_ended-Ends listen_fd s in
      (end, ap (λ r. r >>= λ x. loop_ended around listen_fd x) e ∙ ended)

  root_set-Ends :
      (port : ℕ) (r : Option Bytes × History) → Ends (root_set env around rounds node port r)
  unfolding root_set
  root_set-Ends port (none, h) = (start_failed h, refl)
  root_set-Ends port (some root, h) = listener_up-Ends (net_create_listener env port h)

  port_read-Ends : (port : Option ℕ) (h : History) → Ends (port_read env around rounds node port h)
  unfolding port_read
  port_read-Ends none h = (start_failed h, refl)
  port_read-Ends (some port) h = elim (Bool-cases (port == 0 || ltb 65535 port)) [
    | inl bad ↦ rw bad (start_failed h, refl)
    | inr good ↦ rw good (root_set-Ends port (fileops_init env (codes "storage") h))
  ]

  server_main-Ends :
      (atoi : Bytes → Option ℕ) (args : List Bytes) (h : History)
      → Ends (server_main env atoi around rounds node args h)
  unfolding server_main
  server_main-Ends atoi [] h = (start_failed h, refl)
  server_main-Ends atoi (port ∷ []) h = port_read-Ends (atoi port) h
  server_main-Ends atoi (port ∷ arg ∷ args) h = (start_failed h, refl)

  -- If the select loop, from any state of start-up, finds `nervfs_running` cleared within the given
  -- number of rounds, and each of the eight workers returns once `pool_running` is cleared and the
  -- condition variable has been broadcast: `main` returns, and every descriptor that it got from
  -- `socket` or `accept` has been closed as often, or it is the pool's; when start-up fails, all are
  -- closed.
  pub server_main-ends :
      (atoi : Bytes → Option ℕ) (args : List Bytes) (h : History)
      → (end : Exit) × (server_main env atoi around rounds node args h ≡ some end)
        × ((fd : ℕ) → gained fd h ≡ closed fd h → Tidy fd end)
  server_main-ends atoi args h =
      let (end, e) = server_main-Ends atoi args h in
      (end, e, λ fd even. server_main-Tidy env atoi around rounds node args h fd end even e)
