-- ===== src/Net/Select.antt =====
-- `net_run_select_loop` of src/net.c: the slots of the clients, a round of the loop, and the whole loop.
-- Its log messages are left out.
pub mod Balance
pub mod Ends
pub mod Faults
pub mod Slots
use nerv_fs.Base.{
  ℕ, zero, suc, ◌+◌, Bool, true, false, ◌||◌, Option, none, some, List, [], ◌∷◌, map, replicate,
  ltb, ◌==◌, if◌then◌else◌, ◌>>=◌,
}
use nerv_fs.Os.{History, Env, accept, select, close, fault}
use nerv_fs.ThreadPool.{Pool}
use nerv_fs.Net.{Readable, closing, handed_over, stuck, handle_client_readable}

abbrev pub nervfs_max_clients : ℕ
nervfs_max_clients = 1024

-- `client_fds`; `none` stands for -1.
abbrev pub Slots : Type 0
Slots = List (Option ℕ)

-- What the C library and the other threads do around the loop: the size of an `fd_set` (FD_SETSIZE), the
-- queue of jobs as the workers have left it when the loop comes to it, the address of a new job, and
-- whether a worker returns once `main` waits for it with the pool in that state.
pub record Surroundings : Type 0 where
  pub fd_setsize : ℕ
  pub left_by_workers : Pool → History → Pool
  pub malloc_job : Pool → History → Option ℕ
  pub pthread_join : Pool → ℕ → Bool

-- The state between two rounds. The code does not keep `handed`: the connections that the pool owns.
pub record Loop : Type 0 where
  pub slots : Slots
  pub pool : Pool
  pub handed : List ℕ
  pub calls : History

-- The connections that are watched, in the order of their slots.
abbrev pub watched : Slots → List ℕ
watched [] = []
watched (none ∷ slots) = watched slots
watched (some fd ∷ slots) = fd ∷ watched slots

abbrev pub max_fd : ℕ → List ℕ → ℕ
max_fd m [] = m
max_fd m (fd ∷ fds) = max_fd (if ltb m fd then fd else m) fds

-- `FD_SET` or `FD_ISSET` of each descriptor: a number from FD_SETSIZE on is outside the set.
unfoldable pub fd_access : ℕ → List ℕ → History → History
fd_access fd_setsize [] h = h
fd_access fd_setsize (fd ∷ fds) h =
    fd_access fd_setsize fds (if ltb fd fd_setsize then h else fault ∷ h)

abbrev pub fd_isset : ℕ → List ℕ → Bool
fd_isset fd [] = false
fd_isset fd (a ∷ set) = fd == a || fd_isset fd set

-- The first free slot is filled; `none` if there is none.
unfoldable pub place : ℕ → Slots → Option Slots
place fd [] = none
place fd (none ∷ slots) = some (some fd ∷ slots)
place fd (some a ∷ slots) = do placed ← place fd slots; some (some a ∷ placed)

unfoldable pub client_placed : ℕ → Option Slots → Loop → Loop
client_placed fd none s = record s { calls = close fd ∷ s.calls }
client_placed fd (some slots) s = record s { slots = slots }

-- After `accept`.
unfoldable pub client_accepted : Option ℕ → Loop → Loop
unfolding client_placed place
client_accepted none s = s
client_accepted (some fd) s = client_placed fd (place fd s.slots) s

unfoldable pub listener_ready : Env → ℕ → List ℕ → Loop → Loop
unfolding client_accepted
listener_ready env listen_fd ready s =
    let fd = env.accept s.calls listen_fd in
    if fd_isset listen_fd ready
    then client_accepted fd (record s { calls = accept listen_fd fd ∷ s.calls })
    else s

-- After `handle_client_readable`. With no memory for a job, `threadpool_submit` has closed the connection.
unfoldable pub client_served : ℕ → Option ℕ → Readable × (Pool × History) → Loop → Loop
client_served fd block (closing, (pool, h)) s = record s { pool = pool; calls = close fd ∷ h }
client_served fd none (handed_over, (pool, h)) s = record s { pool = pool; calls = h }
client_served fd (some p) (handed_over, (pool, h)) s = record s {
  pool = pool;
  handed = fd ∷ s.handed;
  calls = h;
}
client_served fd block (stuck, (pool, h)) s = record s { pool = pool; calls = fault ∷ h }

unfoldable pub serve_client : Env → Surroundings → ℕ → Loop → Loop
unfolding client_served
serve_client env around fd s =
    let pool = around.left_by_workers s.pool s.calls in
    let block = around.malloc_job pool s.calls in
    client_served fd block (handle_client_readable env fd block pool s.calls) s

-- The last loop of a round, from one slot on: the slots that are left, and the rest of the state.
unfoldable pub serve_slots : Env → Surroundings → List ℕ → Slots → Loop → Slots × Loop
unfolding serve_client fd_access
serve_slots env around ready [] s = ([], s)
serve_slots env around ready (none ∷ slots) s =
    let rest = serve_slots env around ready slots s in (none ∷ rest.0, rest.1)
serve_slots env around ready (some fd ∷ slots) s =
    let looked : Loop = record s { calls = fd_access around.fd_setsize (fd ∷ []) s.calls } in
    let rest =
      serve_slots env around ready slots
        (if fd_isset fd ready then serve_client env around fd looked else looked) in
    ((if fd_isset fd ready then none else some fd) ∷ rest.0, rest.1)

abbrev pub with_slots : Slots × Loop → Loop
with_slots (slots, s) = record s { slots = slots }

-- After `select`.
unfoldable pub selected : Env → Surroundings → ℕ → Option (List ℕ) → Loop → Loop
unfolding listener_ready serve_slots fd_access
selected env around listen_fd none s = s
selected env around listen_fd (some ready) s =
    let s₁ : Loop =
      listener_ready env listen_fd ready
        (record s { calls = fd_access around.fd_setsize (listen_fd ∷ []) s.calls }) in
    with_slots (serve_slots env around ready s₁.slots s₁)

unfoldable pub round : Env → Surroundings → ℕ → Loop → Loop
unfolding selected fd_access
round env around listen_fd s =
    let read_set = listen_fd ∷ watched s.slots in
    let nfds = max_fd listen_fd (watched s.slots) + 1 in
    let h = fd_access around.fd_setsize read_set s.calls in
    let ready = env.select h nfds read_set in
    selected env around listen_fd ready (record s { calls = select nfds read_set ready ∷ h })

-- `rounds` bounds the number of rounds; `none` if `nervfs_running` is still set after them.
unfoldable pub run_rounds : Env → Surroundings → ℕ → ℕ → Loop → Option Loop
unfolding round
run_rounds env around listen_fd zero s = none
run_rounds env around listen_fd (suc rounds) s =
    let rest = run_rounds env around listen_fd rounds (round env around listen_fd s) in
    if env.nervfs_running s.calls then rest else some s

-- The connections left are closed.
abbrev pub close_all : Slots → History → History
close_all [] h = h
close_all (none ∷ slots) h = close_all slots h
close_all (some fd ∷ slots) h = close_all slots (close fd ∷ h)

abbrev pub cleared : Slots → Slots
cleared slots = map (λ _. none) slots

unfoldable pub stopped : Loop → Loop
stopped s = record s { slots = cleared s.slots; calls = close_all s.slots s.calls }

unfoldable pub started : Pool → History → Loop
started pool h = record {
  slots = replicate nervfs_max_clients none;
  pool = pool;
  handed = [];
  calls = h;
}

unfoldable pub net_run_select_loop : Env → Surroundings → ℕ → ℕ → Pool → History → Option Loop
unfolding run_rounds stopped started
net_run_select_loop env around listen_fd rounds pool h = do
  s ← run_rounds env around listen_fd rounds (started pool h)
  some (stopped s)
