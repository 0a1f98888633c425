-- ===== src/Net/Select/Ends.antt =====
-- The select loop ends when `nervfs_running` is cleared, and every connection has an owner then.
use nerv_fs.Base.{
  ℕ, zero, suc, ◌+◌, ◌≡◌, ◌<◌, refl, subst, ap, inl, inr, false, Option, none, some, [], arith,
  Bool-cases, ◌>>=◌,
}
use nerv_fs.Os.{History, Env}
use nerv_fs.ThreadPool.{Pool}
use mathlib.Core.Option.{some-injective}
use nerv_fs.Net.Select.{
  Surroundings, Loop, watched, round, run_rounds, stopped, started, net_run_select_loop,
}
use nerv_fs.Net.Select.Balance.{
  count, gained, closed, Balanced, watched-cleared, watched-replicate, stopped-Balanced,
  run_rounds-Balanced,
}

started-Balanced :
    (fd n : ℕ) (pool : Pool) (h : History)
    → gained fd h ≡ n + closed fd h
    → Balanced fd n (started pool h)
unfolding started
started-Balanced fd n pool h e = omega (arith, e, ap (count fd) (watched-replicate 1024))

-- What is left when the loop has returned.
abbrev pub Settled : ℕ → ℕ → Loop → Type 0
Settled fd n s =
    (watched s.slots ≡ []) × (gained fd s.calls ≡ n + count fd s.handed + closed fd s.calls)

stopped-Settled : (fd n : ℕ) (s : Loop) → Balanced fd n s → Settled fd n (stopped s)
unfolding stopped
stopped-Settled fd n s b =
    let none_left = watched-cleared s.slots in
    let sum : Balanced fd n (stopped s) = stopped-Balanced fd n s b in
    (none_left, omega (arith, sum, ap (count fd) none_left))

stopped_one-Settled :
    (fd n : ℕ) (answer : Option Loop) (end : Loop)
    → ((s : Loop) → answer ≡ some s → Balanced fd n s)
    → (answer >>= λ s. some (stopped s)) ≡ some end
    → Settled fd n end
stopped_one-Settled fd n none end b e = absurd (cc e)
stopped_one-Settled fd n (some s) end b e =
    subst (Settled fd n) (some-injective _ _ e) (stopped-Settled fd n s (b s refl))

pub net_run_select_loop-Settled :
    (env : Env) (around : Surroundings) (listen_fd rounds : ℕ) (pool : Pool) (h : History)
    (end : Loop) (fd n : ℕ)
    → gained fd h ≡ n + closed fd h
    → net_run_select_loop env around listen_fd rounds pool h ≡ some end
    → Settled fd n end
unfolding net_run_select_loop
net_run_select_loop-Settled env around listen_fd rounds pool h end fd n even e =
    stopped_one-Settled fd n (run_rounds env around listen_fd rounds (started pool h)) end
      (λ s.
        run_rounds-Balanced fd n env around listen_fd rounds (started pool h) s
          (started-Balanced fd n pool h even))
      e

-- The state after some rounds.
abbrev pub after_rounds : Env → Surroundings → ℕ → ℕ → Loop → Loop
after_rounds env around listen_fd zero s = s
after_rounds env around listen_fd (suc n) s =
    after_rounds env around listen_fd n (round env around listen_fd s)

run_rounds-ends :
    (env : Env) (around : Surroundings) (listen_fd n rounds : ℕ) (s : Loop)
    → env.nervfs_running (after_rounds env around listen_fd n s).calls ≡ false
    → n < rounds
    → (end : Loop) × (run_rounds env around listen_fd rounds s ≡ some end)
unfolding run_rounds
run_rounds-ends env around listen_fd n zero s off enough = absurd (omega arith)
run_rounds-ends env around listen_fd zero (suc rounds) s off enough = (s, rw off refl)
run_rounds-ends env around listen_fd (suc n) (suc rounds) s off enough =
    let (end, e) =
      run_rounds-ends env around listen_fd n rounds (round env around listen_fd s) off
        (omega arith) in
    elim (Bool-cases (env.nervfs_running s.calls)) [
      | inl on ↦ (end, rw (on, run_rounds) e)
      | inr stop ↦ (s, rw (stop, run_rounds) refl)
    ]

-- If `nervfs_running` is found cleared after some number of rounds, the select loop returns,
-- whatever the connections deliver, the workers do to the queue and the calls answer; then no slot
-- holds a connection, and every descriptor is closed by the loop or the pool's, as often as it was
-- accepted, beside those that had another owner before.
pub net_run_select_loop-ends :
    (env : Env) (around : Surroundings) (listen_fd n rounds : ℕ) (pool : Pool) (h : History)
    → env.nervfs_running (after_rounds env around listen_fd n (started pool h)).calls ≡ false
    → n < rounds
    → (end : Loop) × (net_run_select_loop env around listen_fd rounds pool h ≡ some end)
      × ((fd n : ℕ) → gained fd h ≡ n + closed fd h → Settled fd n end)
net_run_select_loop-ends env around listen_fd n rounds pool h off enough =
    let (s, e) = run_rounds-ends env around listen_fd n rounds (started pool h) off enough in
    let whole : net_run_select_loop env around listen_fd rounds pool h ≡ some (stopped s) =
      unfold net_run_select_loop in ap (λ r. r >>= λ x. some (stopped x)) e in
    (
      stopped s,
      whole,
      λ fd n even.
          net_run_select_loop-Settled env around listen_fd rounds pool h (stopped s) fd n even
            whole,
    )
