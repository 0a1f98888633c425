-- ===== src/Tests/Loops.antt =====
-- The accept loop, the listener and `main` at concrete inputs.
use nerv_fs.Base.{
  ℕ, ◌+◌, ◌≡◌, ◌<◌, ◌⊎◌, refl, subst, true, false, Option, none, some, [], ◌∷◌, ◌++◌, arith, Bytes,
  length, ltb, All,
}
use mathlib.Core.Option.{some-injective}
use nerv_fs.Os.{History, Env, close}
use nerv_fs.ThreadPool.{Pool}
use nerv_fs.Net.Select.{
  Slots, Surroundings, Loop, client_accepted, round, started, net_run_select_loop,
}
use nerv_fs.Net.Select.Balance.{gained, closed}
use nerv_fs.Net.Select.Ends.{Settled, after_rounds, net_run_select_loop-ends}
use nerv_fs.Net.Select.Faults.{faults, net_run_select_loop-safe}
use nerv_fs.Net.Select.Slots.{Taken, client_accepted_lem}
use nerv_fs.Wire.{read_u16, read_u32, read_u64}
use nerv_fs.Protocol.Header.{parse_header}
use nerv_fs.Protocol.Transfer.{recv_full}
use nerv_fs.ThreadPool.{threadpool_submit}
use nerv_fs.Net.{handle_client_readable}
use nerv_fs.FileOps.Resolve.{codes}
use nerv_fs.Server.{Exit, Tidy, server_main, server_main-ends}
use nerv_fs.Tests.Samples.{calm}

-- The flag is cleared after a few calls; the listener and all connections are always ready.
abbrev env : Env
env = record calm { nervfs_running = λ h. ltb (length h) 4 }

abbrev around : Surroundings
around = record {
  fd_setsize = 1024;
  pthread_join = λ s i. true;
  left_by_workers = λ pool h. pool;
  malloc_job = λ pool h. some (length h);
}

abbrev pool : Pool
pool = record {
  head = none;
  tail = none;
  running = true;
  signals = 0;
  broadcasts = 0;
  node = λ p. record {
    job = record {
      client_fd = 0;
      header = record { magic = 0; version = 0; opcode = 0; payload_len = 0; reserved = 0 };
    };
    next = none;
  };
}

off_after_two : env.nervfs_running (after_rounds env around 3 2 (started pool [])).calls ≡ false
unfolding started round handle_client_readable recv_full parse_header read_u16 read_u32 read_u64
    threadpool_submit
off_after_two = refl

net_run_select_loop-ends_example :
    (end : Loop) × (net_run_select_loop env around 3 5 pool [] ≡ some end)
    × ((fd n : ℕ) → gained fd [] ≡ n + closed fd [] → Settled fd n end)
net_run_select_loop-ends_example =
    net_run_select_loop-ends env around 3 2 5 pool [] off_after_two (omega arith)

accepted_small : (h : History) (listen_fd fd : ℕ) → env.accept h listen_fd ≡ some fd → fd < 1024
accepted_small h listen_fd fd e = subst (λ x. x < 1024) (some-injective _ _ e) (omega arith)

net_run_select_loop-safe_example :
    (end : Loop) × (net_run_select_loop env around 3 5 pool [] ≡ some end)
    × (faults end.calls ≡ faults [])
net_run_select_loop-safe_example =
    net_run_select_loop-safe env around accepted_small 3 2 5 pool [] (omega arith) off_after_two
      (omega arith)

abbrev half_full : Loop
half_full = record { slots = some 5 ∷ none ∷ none ∷ []; pool = pool; handed = []; calls = [] }

client_accepted_lem_example :
    (All Taken half_full.slots
      × (client_accepted (some 8) half_full ≡ record half_full { calls = close 8 ∷ [] }))
    ⊎ ((front : Slots) × (back : Slots) × (half_full.slots ≡ front ++ none ∷ back)
        × All Taken front
        × (client_accepted (some 8) half_full
            ≡ record half_full { slots = front ++ some 8 ∷ back }))
client_accepted_lem_example = client_accepted_lem 8 half_full

-- SIGINT arrives before the first round.
abbrev stopped_env : Env
stopped_env = record calm { nervfs_running = λ h. false }

abbrev port_of : Bytes → Option ℕ
port_of text = some 4000

server_main-ends_example :
    (end : Exit) × (server_main stopped_env port_of around 1 pool.node (codes "4000" ∷ []) []
      ≡ some end)
    × ((fd : ℕ) → gained fd [] ≡ closed fd [] → Tidy fd end)
server_main-ends_example =
    server_main-ends stopped_env around 1 pool.node (λ listen_fd h. (0, omega arith, refl))
      (λ s i off woken. refl) port_of (codes "4000" ∷ []) []
