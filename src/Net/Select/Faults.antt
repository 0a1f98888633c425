-- ===== src/Net/Select/Faults.antt =====
-- The descriptor sets of the select loop are accessed within their size.
use nerv_fs.Base.{
  ℕ, zero, suc, ◌+◌, ◌≡◌, ◌<◌, refl, subst, sym, ap, ◌∙◌, inl, inr, false, Option, none, some, List,
  [], ◌∷◌, All, lt→ltb, Bool-cases, ◌>>=◌,
}
use mathlib.Core.Option.{some-injective}
use nerv_fs.Os.{History, Env, accept, select, close, fault}
use nerv_fs.ThreadPool.{Pool}
use nerv_fs.Net.{Readable, closing, handed_over, stuck}
use nerv_fs.Net.Handled.{Handled, handle_client_readable-Handled}
use nerv_fs.Net.Select.{
  Slots, Surroundings, Loop, max_fd, watched, fd_access, fd_isset, place, client_placed,
  client_accepted, listener_ready, client_served, serve_client, serve_slots, selected, round,
  run_rounds, close_all, stopped, started, net_run_select_loop,
}
use nerv_fs.Net.Select.Balance.{ended_one_of, watched-replicate}
use nerv_fs.Net.Select.Ends.{after_rounds, net_run_select_loop-ends}

-- The accesses outside a descriptor set or a buffer.
abbrev pub faults : History → ℕ
faults [] = 0
faults (fault ∷ h) = suc (faults h)
faults (e ∷ h) = faults h

module _ (env : Env) (around : Surroundings)
    (small : (h : History) (listen_fd fd : ℕ)
      → env.accept h listen_fd ≡ some fd
      → fd < around.fd_setsize) where
  abbrev size : ℕ
  size = around.fd_setsize

  abbrev AreSmall : Slots → Type 0
  AreSmall slots = All (λ fd. fd < around.fd_setsize) (watched slots)

  -- No access outside, from a history with `n` of them on.
  abbrev IsSafe : ℕ → Loop → Type 0
  IsSafe n s = (faults s.calls ≡ n) × AreSmall s.slots

  fd_access-small :
      (fds : List ℕ) (h : History)
      → All (λ fd. fd < around.fd_setsize) fds
      → fd_access around.fd_setsize fds h ≡ h
  unfolding fd_access
  fd_access-small [] h all_small = refl
  fd_access-small (fd ∷ fds) h (lt, all_small) =
      rw (lt→ltb fd around.fd_setsize lt, fd_access) (fd_access-small fds h all_small)

  place_again-AreSmall :
      (b : ℕ) (answer : Option Slots) (placed : Slots)
      → b < around.fd_setsize
      → ((more : Slots) → answer ≡ some more → AreSmall more)
      → (answer >>= λ more. some (some b ∷ more)) ≡ some placed
      → AreSmall placed
  place_again-AreSmall b none placed lt later e = absurd (cc e)
  place_again-AreSmall b (some more) placed lt later e =
      subst AreSmall (some-injective _ _ e) (lt, later more refl)

  place-AreSmall :
      (fd : ℕ) (slots placed : Slots)
      → fd < around.fd_setsize
      → AreSmall slots
      → place fd slots ≡ some placed
      → AreSmall placed
  unfolding place
  place-AreSmall fd [] placed lt ok e = absurd (cc e)
  place-AreSmall fd (none ∷ slots) placed lt ok e = subst AreSmall (some-injective _ _ e) (lt, ok)
  place-AreSmall fd (some b ∷ slots) placed lt (b_small, ok) e =
      place_again-AreSmall b (place fd slots) placed b_small
        (λ more. place-AreSmall fd slots more lt ok) e

  client_placed-IsSafe :
      (n fd : ℕ) (answer : Option Slots) (s : Loop)
      → fd < around.fd_setsize
      → place fd s.slots ≡ answer
      → IsSafe n s
      → IsSafe n (client_placed fd answer s)
  unfolding client_placed
  client_placed-IsSafe n fd none s lt e safe = safe
  client_placed-IsSafe n fd (some slots) s lt e (none_bad, ok) =
      (none_bad, place-AreSmall fd s.slots slots lt ok e)

  client_accepted-IsSafe :
      (n : ℕ) (answer : Option ℕ) (s : Loop)
      → ((fd : ℕ) → answer ≡ some fd → fd < around.fd_setsize)
      → IsSafe n s
      → IsSafe n (client_accepted answer s)
  unfolding client_accepted
  client_accepted-IsSafe n none s lt safe = safe
  client_accepted-IsSafe n (some fd) s lt safe =
      client_placed-IsSafe n fd _ s (lt fd refl) refl safe

  listener_ready-IsSafe :
      (n listen_fd : ℕ) (ready : List ℕ) (s : Loop)
      → IsSafe n s
      → IsSafe n (listener_ready env listen_fd ready s)
  unfolding listener_ready
  listener_ready-IsSafe n listen_fd ready s safe = elim (Bool-cases (fd_isset listen_fd ready)) [
    | inl there ↦
        let answer = env.accept s.calls listen_fd in
        rw (there, listener_ready)
          (client_accepted-IsSafe n answer (record s { calls = accept listen_fd answer ∷ s.calls })
            (λ fd. small s.calls listen_fd fd) safe)
    | inr missing ↦ rw (missing, listener_ready) safe
  ]

  client_served-faults :
      (n a : ℕ) (block : Option ℕ) (r : Readable × (Pool × History)) (s : Loop)
      → Handled (λ h. faults h ≡ n) a block r
      → faults (client_served a block r s).calls ≡ n
  unfolding client_served
  client_served-faults n a block (closing, (pool, h)) s e = e
  client_served-faults n a none (handed_over, (pool, h)) s (h', e, none_bad) = rw e none_bad
  client_served-faults n a (some p) (handed_over, (pool, h)) s e = e
  client_served-faults n a none (stuck, (pool, h)) s none_such = absurd none_such
  client_served-faults n a (some p) (stuck, (pool, h)) s none_such = absurd none_such

  serve_client-faults :
      (a : ℕ) (s : Loop) → faults (serve_client env around a s).calls ≡ faults s.calls
  unfolding serve_client
  serve_client-faults a s = client_served-faults (faults s.calls) a _ _ s (
      handle_client_readable-Handled (λ h. faults h ≡ faults s.calls) a env (λ h n bs e. e) _ _
        s.calls refl)

  abbrev SafelyServed : Loop → Slots × Loop → Type 0
  SafelyServed s r = (faults r.1.calls ≡ faults s.calls) × AreSmall r.0

  serve_slots-SafelyServed :
      (ready : List ℕ) (slots : Slots) (s : Loop)
      → AreSmall slots
      → SafelyServed s (serve_slots env around ready slots s)
  unfolding serve_slots
  serve_slots-SafelyServed ready [] s ok = (refl, ok)
  serve_slots-SafelyServed ready (none ∷ slots) s ok = serve_slots-SafelyServed ready slots s ok
  serve_slots-SafelyServed ready (some a ∷ slots) s (lt, ok) =
      let looked : Loop = record s { calls = fd_access around.fd_setsize (a ∷ []) s.calls } in
      let same : faults looked.calls ≡ faults s.calls =
        ap faults (fd_access-small (a ∷ []) s.calls (lt, tt)) in
      elim (Bool-cases (fd_isset a ready)) [
        | inl there ↦
            let (e, rest_ok) =
              serve_slots-SafelyServed ready slots (serve_client env around a looked) ok in
            rw (there, serve_slots) (e ∙ serve_client-faults a looked ∙ same, rest_ok)
        | inr quiet ↦
            let (e, rest_ok) = serve_slots-SafelyServed ready slots looked ok in
            rw (quiet, serve_slots) (e ∙ same, (lt, rest_ok))
      ]

  selected-IsSafe :
      (n listen_fd : ℕ) (answer : Option (List ℕ)) (s : Loop)
      → listen_fd < around.fd_setsize
      → IsSafe n s
      → IsSafe n (selected env around listen_fd answer s)
  unfolding selected
  selected-IsSafe n listen_fd none s lt safe = safe
  selected-IsSafe n listen_fd (some ready) s lt (none_bad, ok) =
      let looked : Loop = record s {
        calls = fd_access around.fd_setsize (listen_fd ∷ []) s.calls;
      } in
      let same : faults looked.calls ≡ faults s.calls =
        ap faults (fd_access-small (listen_fd ∷ []) s.calls (lt, tt)) in
      let s₁ = listener_ready env listen_fd ready looked in
      let (none_bad₁, ok₁) = listener_ready-IsSafe n listen_fd ready looked (same ∙ none_bad, ok) in
      let (e, ok₂) = serve_slots-SafelyServed ready s₁.slots s₁ ok₁ in (e ∙ none_bad₁, ok₂)

  round-IsSafe :
      (n listen_fd : ℕ) (s : Loop)
      → listen_fd < around.fd_setsize
      → IsSafe n s
      → IsSafe n (round env around listen_fd s)
  unfolding round
  round-IsSafe n listen_fd s lt (none_bad, ok) =
      let same = fd_access-small (listen_fd ∷ watched s.slots) s.calls (lt, ok) in
      let h = fd_access around.fd_setsize (listen_fd ∷ watched s.slots) s.calls in
      let nfds = max_fd listen_fd (watched s.slots) + 1 in
      let ready = env.select h nfds (listen_fd ∷ watched s.slots) in
      selected-IsSafe n listen_fd ready
        (record s { calls = select nfds (listen_fd ∷ watched s.slots) ready ∷ h }) lt
        (ap faults same ∙ none_bad, ok)

  run_rounds-IsSafe :
      (n listen_fd rounds : ℕ) (s end : Loop)
      → listen_fd < around.fd_setsize
      → IsSafe n s
      → run_rounds env around listen_fd rounds s ≡ some end
      → IsSafe n end
  unfolding run_rounds
  run_rounds-IsSafe n listen_fd zero s end lt safe e = absurd (cc e)
  run_rounds-IsSafe n listen_fd (suc rounds) s end lt safe e =
      ended_one_of (IsSafe n) (env.nervfs_running s.calls) _ s end safe
        (run_rounds-IsSafe n listen_fd rounds (round env around listen_fd s) end lt
          (round-IsSafe n listen_fd s lt safe))
        e

  close_all-faults : (slots : Slots) (h : History) → faults (close_all slots h) ≡ faults h
  close_all-faults [] h = refl
  close_all-faults (none ∷ slots) h = close_all-faults slots h
  close_all-faults (some a ∷ slots) h = close_all-faults slots (close a ∷ h)

  stopped-faults :
      (n : ℕ) (answer : Option Loop) (end : Loop)
      → ((s : Loop) → answer ≡ some s → IsSafe n s)
      → (answer >>= λ s. some (stopped s)) ≡ some end
      → faults end.calls ≡ n
  unfolding stopped
  stopped-faults n none end safe e = absurd (cc e)
  stopped-faults n (some s) end safe e =
      subst (λ x. faults x.calls ≡ n) (some-injective _ _ e)
        (close_all-faults s.slots s.calls ∙ (safe s refl).0)

  net_run_select_loop-faults :
      (listen_fd rounds : ℕ) (pool : Pool) (h : History) (end : Loop)
      → listen_fd < around.fd_setsize
      → net_run_select_loop env around listen_fd rounds pool h ≡ some end
      → faults end.calls ≡ faults h
  unfolding net_run_select_loop started
  net_run_select_loop-faults listen_fd rounds pool h end lt e =
      stopped-faults (faults h) (run_rounds env around listen_fd rounds (started pool h)) end
        (λ s.
          run_rounds-IsSafe (faults h) listen_fd rounds (started pool h) s lt
            (refl, subst (All (λ fd. fd < around.fd_setsize)) (sym (watched-replicate 1024)) tt))
        e

  -- If the listener and all accepted descriptors are below FD_SETSIZE and `nervfs_running` is found
  -- cleared after some number of rounds: the select loop returns and has accessed nothing outside a
  -- descriptor set or the buffer of 16 bytes that it receives headers in.
  pub net_run_select_loop-safe :
      (listen_fd n rounds : ℕ) (pool : Pool) (h : History)
      → listen_fd < around.fd_setsize
      → env.nervfs_running (after_rounds env around listen_fd n (started pool h)).calls ≡ false
      → n < rounds
      → (end : Loop) × (net_run_select_loop env around listen_fd rounds pool h ≡ some end)
        × (faults end.calls ≡ faults h)
  net_run_select_loop-safe listen_fd n rounds pool h lt off enough =
      let (end, e, settled) =
        net_run_select_loop-ends env around listen_fd n rounds pool h off enough in
      (end, e, net_run_select_loop-faults listen_fd rounds pool h end lt e)
