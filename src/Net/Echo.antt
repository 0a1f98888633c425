-- ===== src/Net/Echo.antt =====
-- `net_run_echo_loop` of src/net.c: one client, whose bytes are written back to it. The loop over clients
-- has no end. Nothing calls it, and its log messages are left out.
use nerv_fs.Base.{
  ℕ, zero, suc, ◌<◌, ◌≡◌, ◌≢◌, refl, subst, ==_refl, sym, ap, ◌∙◌, Option, none, some, [], ◌∷◌,
  ◌++◌, ◌>>=◌, append_assoc, append-nil, arith, Bytes, length, take_all, length-append,
}
use nerv_fs.Os.{History, Env, accept, read, write, close}
use nerv_fs.Protocol.Transfer.{written}
use nerv_fs.Protocol.Transfer.Receive.{IsStream}

abbrev pub nervfs_buffer_size : ℕ
nervfs_buffer_size = 4096

-- After `write`: a failure ends the client's loop, a short count does not matter.
abbrev echo_written : (History → Option History) → Option ℕ → History → Option History
echo_written next none h = some h
echo_written next (some n) h = next h

-- After `read`.
abbrev echo_read : Env → ℕ → (History → Option History) → Option Bytes → History → Option History
echo_read env client_fd next none h = some h
echo_read env client_fd next (some []) h = some h
echo_read env client_fd next (some (b ∷ bs)) h =
    let answer = env.write h client_fd (b ∷ bs) in
    echo_written next answer (write client_fd (b ∷ bs) answer ∷ h)

-- The rounds for one client; `none` if the fuel does not last.
unfoldable pub echo_rounds : Env → ℕ → ℕ → History → Option History
echo_rounds env client_fd zero h = none
echo_rounds env client_fd (suc fuel) h =
    let answer = env.read h client_fd nervfs_buffer_size in
    echo_read env client_fd (λ h'. echo_rounds env client_fd fuel h') answer
      (read client_fd nervfs_buffer_size answer ∷ h)

-- `inet_ntop` and the messages are left out.
abbrev echo_accepted : Env → ℕ → Option ℕ → History → Option History
echo_accepted env fuel none h = some h
echo_accepted env fuel (some client_fd) h = do
  h' ← echo_rounds env client_fd fuel h
  some (close client_fd ∷ h')

-- A round of the outer loop.
unfoldable pub echo_client : Env → ℕ → ℕ → History → Option History
unfolding echo_rounds
echo_client env listen_fd fuel h =
    echo_accepted env fuel (env.accept h listen_fd) (accept listen_fd (env.accept h listen_fd) ∷ h)

module _ (env : Env) (fd : ℕ) (pending : History → Bytes) (stream : IsStream env fd pending)
    (answers : (h : History) (n : ℕ) → env.read h fd n ≢ none)
    (whole : (h : History) (bs : Bytes) → env.write h fd bs ≡ some (length bs))
    (steady : (h : History) (bs : Bytes) (n : Option ℕ)
      → pending (write fd bs n ∷ h) ≡ pending h) where
  abbrev pub Echoes : Bytes → Option History → Type 0
  Echoes bytes r = (h' : History) × (r ≡ some h') × (written fd h' ≡ bytes)

  echo_read-Echoes :
      (next : History → Option History) (h : History) (answer : Option Bytes)
      → env.read h fd 4096 ≡ answer
      → ((h' : History)
          → length (pending h') < length (pending h)
          → Echoes (written fd h' ++ pending h') (next h'))
      → Echoes (written fd h ++ pending h) (echo_read env fd next answer (read fd 4096 answer ∷ h))
  echo_read-Echoes next h none e later = absurd (answers h 4096 e)
  echo_read-Echoes next h (some []) e later =
      let over : pending h ≡ [] = stream.ends h 4096 (omega arith) e in
      (
        read fd 4096 (some []) ∷ h,
        refl,
        sym (append-nil (written fd h)) ∙ ap (◌++◌ (written fd h)) (sym over),
      )
  echo_read-Echoes next h (some (b ∷ bs)) e later =
      let h₁ : History = read fd 4096 (some (b ∷ bs)) ∷ h in
      let h₂ : History = write fd (b ∷ bs) (some (length (b ∷ bs))) ∷ h₁ in
      let same : pending h₂ ≡ pending h₁ = steady h₁ (b ∷ bs) (some (length (b ∷ bs))) in
      let split : pending h ≡ (b ∷ bs) ++ pending h₁ = stream.in_order h 4096 (b ∷ bs) e in
      let through : written fd h₂ ≡ written fd h ++ (b ∷ bs) =
        rw (==_refl fd)
          (ap (◌++◌ (written fd h)) (take_all (length (b ∷ bs)) (b ∷ bs) (omega arith))) in
      let fewer : length (pending h₂) < length (pending h) =
        omega (arith, ap length same, ap length split, length-append (b ∷ bs) (pending h₁)) in
      let all : written fd h₂ ++ pending h₂ ≡ written fd h ++ pending h =
        ap (λ w. w ++ pending h₂) through
        ∙ ap (λ p. (written fd h ++ (b ∷ bs)) ++ p) same
        ∙ append_assoc (written fd h) (b ∷ bs) (pending h₁)
        ∙ ap (◌++◌ (written fd h)) (sym split) in
      rw (whole h₁ (b ∷ bs)) (subst (λ bytes. Echoes bytes (next h₂)) all (later h₂ fewer))

  echo_rounds-Echoes :
      (fuel : ℕ) (h : History)
      → length (pending h) < fuel
      → Echoes (written fd h ++ pending h) (echo_rounds env fd fuel h)
  unfolding echo_rounds
  echo_rounds-Echoes zero h enough = absurd (omega arith)
  echo_rounds-Echoes (suc fuel) h enough =
      echo_read-Echoes (λ h'. echo_rounds env fd fuel h') h (env.read h fd 4096) refl
        (λ h' fewer. echo_rounds-Echoes fuel h' (omega (arith, fewer, enough)))

  -- All bytes that the client sends are written back if writes are whole, and it is closed last.
  pub echo_client-Echoes :
      (listen_fd fuel : ℕ) (h : History)
      → env.accept h listen_fd ≡ some fd
      → length (pending (accept listen_fd (some fd) ∷ h)) < fuel
      → (h' : History) × (echo_client env listen_fd fuel h ≡ some (close fd ∷ h'))
        × (written fd h' ≡ written fd h ++ pending (accept listen_fd (some fd) ∷ h))
  unfolding echo_client
  echo_client-Echoes listen_fd fuel h e enough =
      let (h', ends, echoed) = echo_rounds-Echoes fuel (accept listen_fd (some fd) ∷ h) enough in
      (h', rw (e, ends) refl, echoed)
