-- ===== src/Net/Listener.antt =====
-- `net_create_listener` of src/net.c. Its log messages are left out.
use nerv_fs.Base.{ℕ, ◌+◌, ◌%◌, ◌^◌, ◌≡◌, refl, Bool, true, false, Option, none, some, ◌∷◌, arith}
use nerv_fs.Os.{History, Env, socket, setsockopt, bind, listen, close}
use nerv_fs.Net.Select.Balance.{one, gained, closed}

abbrev pub nervfs_default_backlog : ℕ
nervfs_default_backlog = 16

-- After `listen`.
unfoldable pub listening : ℕ → Bool → History → Option ℕ × History
listening listen_fd false h = (none, close listen_fd ∷ h)
listening listen_fd true h = (some listen_fd, h)

-- After `bind`.
unfoldable pub bound : Env → ℕ → Bool → History → Option ℕ × History
unfolding listening
bound env listen_fd false h = (none, close listen_fd ∷ h)
bound env listen_fd true h =
    let ok = env.listen h listen_fd nervfs_default_backlog in
    listening listen_fd ok (listen listen_fd nervfs_default_backlog ok ∷ h)

-- After `setsockopt`.
unfoldable pub reusable : Env → ℕ → ℕ → Bool → History → Option ℕ × History
unfolding bound
reusable env port listen_fd false h = (none, close listen_fd ∷ h)
reusable env port listen_fd true h =
    let ok = env.bind h listen_fd (port % 2 ^ 16) in
    bound env listen_fd ok (bind listen_fd (port % 2 ^ 16) ok ∷ h)

-- After `socket`.
unfoldable pub listener_made : Env → ℕ → Option ℕ → History → Option ℕ × History
unfolding reusable
listener_made env port none h = (none, h)
listener_made env port (some listen_fd) h =
    let ok = env.setsockopt h listen_fd in
    reusable env port listen_fd ok (setsockopt listen_fd ok ∷ h)

unfoldable pub net_create_listener : Env → ℕ → History → Option ℕ × History
unfolding listener_made
net_create_listener env port h = listener_made env port (env.socket h) (socket (env.socket h) ∷ h)

abbrev pub kept : ℕ → Option ℕ → ℕ
kept fd none = 0
kept fd (some a) = one fd a

-- The socket is the caller's or it has been closed.
abbrev pub Owned : ℕ → History → Option ℕ × History → Type 0
Owned fd h r = gained fd r.1 + closed fd h ≡ gained fd h + kept fd r.0 + closed fd r.1

-- A socket has been made in `h₁`, and nothing has been closed.
abbrev Fresh : ℕ → ℕ → History → History → Type 0
Fresh fd a h h₁ = (gained fd h₁ ≡ one fd a + gained fd h) × (closed fd h₁ ≡ closed fd h)

module _ (env : Env) (fd a : ℕ) (h : History) where
  listening-Owned : (ok : Bool) (h₁ : History) → Fresh fd a h h₁ → Owned fd h (listening a ok h₁)
  unfolding listening
  listening-Owned true h₁ (made, same) = omega (arith, made, same)
  listening-Owned false h₁ (made, same) = omega (arith, made, same)

  bound-Owned : (ok : Bool) (h₁ : History) → Fresh fd a h h₁ → Owned fd h (bound env a ok h₁)
  unfolding bound
  bound-Owned true h₁ fresh =
      listening-Owned (env.listen h₁ a 16) (listen a 16 (env.listen h₁ a 16) ∷ h₁) fresh
  bound-Owned false h₁ (made, same) = omega (arith, made, same)

  reusable-Owned :
      (port : ℕ) (ok : Bool) (h₁ : History)
      → Fresh fd a h h₁
      → Owned fd h (reusable env port a ok h₁)
  unfolding reusable
  reusable-Owned port true h₁ fresh =
      bound-Owned (env.bind h₁ a (port % 2 ^ 16))
        (bind a (port % 2 ^ 16) (env.bind h₁ a (port % 2 ^ 16)) ∷ h₁) fresh
  reusable-Owned port false h₁ (made, same) = omega (arith, made, same)

listener_made-Owned :
    (env : Env) (port fd : ℕ) (answer : Option ℕ) (h : History)
    → Owned fd h (listener_made env port answer (socket answer ∷ h))
unfolding listener_made
listener_made-Owned env port fd none h = omega arith
listener_made-Owned env port fd (some a) h =
    let h₁ : History = socket (some a) ∷ h in
    reusable-Owned env fd a h port (env.setsockopt h₁ a) (setsockopt a (env.setsockopt h₁ a) ∷ h₁)
      (refl, refl)

-- Whichever call fails, no socket is lost.
pub net_create_listener-Owned :
    (env : Env) (port fd : ℕ) (h : History) → Owned fd h (net_create_listener env port h)
unfolding net_create_listener
net_create_listener-Owned env port fd h = listener_made-Owned env port fd (env.socket h) h
