-- ===== src/Net/Select/Balance.antt =====
-- Who owns the descriptors that the select loop gets.
use nerv_fs.Base.{
  ℕ, zero, suc, ◌+◌, ◌≡◌, refl, subst, ap, ◌∙◌, inl, inr, Bool, true, false, Option, none, some,
  List, [], ◌∷◌, arith, replicate, ltb, ◌==◌, if◌then◌else◌, Bool-cases, ◌>>=◌,
}
use nerv_fs.Os.{History, Env, socket, accept, select, close, fault}
use nerv_fs.ThreadPool.{Pool}
use nerv_fs.Net.{Readable, closing, handed_over, stuck}
use nerv_fs.Net.Handled.{Handled, handle_client_readable-Handled}
use mathlib.Core.Option.{some-injective}
use nerv_fs.Net.Select.{
  Slots, Surroundings, Loop, max_fd, watched, fd_access, fd_isset, place, client_placed,
  client_accepted, listener_ready, client_served, serve_client, serve_slots, selected, round,
  run_rounds, close_all, cleared, stopped,
}

abbrev pub one : ℕ → ℕ → ℕ
one fd a = if fd == a then 1 else 0

-- How often `fd` is in a list, has come from `accept` or `socket`, and has been closed.
abbrev pub count : ℕ → List ℕ → ℕ
count fd [] = 0
count fd (a ∷ fds) = one fd a + count fd fds

abbrev pub gained : ℕ → History → ℕ
gained fd [] = 0
gained fd (accept listen_fd (some a) ∷ h) = one fd a + gained fd h
gained fd (socket (some a) ∷ h) = one fd a + gained fd h
gained fd (e ∷ h) = gained fd h

abbrev pub closed : ℕ → History → ℕ
closed fd [] = 0
closed fd (close a ∷ h) = one fd a + closed fd h
closed fd (e ∷ h) = closed fd h

-- Every descriptor is watched, the pool's, or closed, as often as it was gained; `n` others have an owner
-- outside the loop.
abbrev pub Balanced : ℕ → ℕ → Loop → Type 0
Balanced fd n s =
    gained fd s.calls ≡ n + count fd (watched s.slots) + count fd s.handed + closed fd s.calls

-- The numbers of the history of one call, against the history before.
record Same (fd : ℕ) (h h' : History) : Type 0 where
  acc : gained fd h' ≡ gained fd h
  clo : closed fd h' ≡ closed fd h

fd_access-Same : (fd size : ℕ) (fds : List ℕ) (h : History) → Same fd h (fd_access size fds h)
unfolding fd_access
fd_access-Same fd size [] h = record { acc = refl; clo = refl }
fd_access-Same fd size (a ∷ fds) h = elim (Bool-cases (ltb a size)) [
  | inl inside ↦ rw (inside, fd_access) (fd_access-Same fd size fds h)
  | inr outside ↦
      let later = fd_access-Same fd size fds (fault ∷ h) in
      rw (outside, fd_access) (record { acc = later.acc; clo = later.clo })
]

-- The numbers of the slots after `place`.
place_again-count :
    (fd a b : ℕ) (slots : Slots) (answer : Option Slots) (placed : Slots)
    → ((more : Slots)
        → answer ≡ some more
        → count fd (watched more) ≡ one fd a + count fd (watched slots))
    → (answer >>= λ more. some (some b ∷ more)) ≡ some placed
    → count fd (watched placed) ≡ one fd a + count fd (watched (some b ∷ slots))
place_again-count fd a b slots none placed later e = absurd (cc e)
place_again-count fd a b slots (some more) placed later e =
    subst (λ x. count fd (watched x) ≡ one fd a + count fd (watched (some b ∷ slots)))
      (some-injective _ _ e) (omega (arith, later more refl))

pub place-count :
    (fd a : ℕ) (slots placed : Slots)
    → place a slots ≡ some placed
    → count fd (watched placed) ≡ one fd a + count fd (watched slots)
unfolding place
place-count fd a [] placed e = absurd (cc e)
place-count fd a (none ∷ slots) placed e =
    subst (λ x. count fd (watched x) ≡ one fd a + count fd (watched slots)) (some-injective _ _ e)
      refl
place-count fd a (some b ∷ slots) placed e =
    place_again-count fd a b slots (place a slots) placed (λ more. place-count fd a slots more) e

pub watched-cleared : (slots : Slots) → watched (cleared slots) ≡ []
watched-cleared [] = refl
watched-cleared (slot ∷ slots) = watched-cleared slots

-- The loop ends with the state that it has, or with one that later rounds reach.
pub ended_one_of :
    (P : Loop → Type 0) (running : Bool) (later : Option Loop) (s end : Loop)
    → P s
    → (later ≡ some end → P end)
    → (if running then later else some s) ≡ some end
    → P end
ended_one_of P true later s end p rest e = rest e
ended_one_of P false later s end p rest e = subst P (some-injective _ _ e) p

module _ (fd n : ℕ) where
  client_placed-Balanced :
      (a : ℕ) (answer : Option Slots) (s : Loop)
      → place a s.slots ≡ answer
      → gained fd s.calls
        ≡ n + one fd a + (count fd (watched s.slots) + count fd s.handed + closed fd s.calls)
      → Balanced fd n (client_placed a answer s)
  unfolding client_placed
  client_placed-Balanced a none s e sum = omega (arith, sum)
  client_placed-Balanced a (some slots) s e sum =
      omega (arith, sum, place-count fd a s.slots slots e)

  client_accepted-Balanced :
      (listen_fd : ℕ) (answer : Option ℕ) (s : Loop)
      → Balanced fd n s
      → Balanced fd n
          (client_accepted answer (record s { calls = accept listen_fd answer ∷ s.calls }))
  unfolding client_accepted
  client_accepted-Balanced listen_fd none s b = b
  client_accepted-Balanced listen_fd (some a) s b =
      client_placed-Balanced a _ (record s { calls = accept listen_fd (some a) ∷ s.calls }) refl
        (omega (arith, b))

  listener_ready-Balanced :
      (env : Env) (listen_fd : ℕ) (ready : List ℕ) (s : Loop)
      → Balanced fd n s
      → Balanced fd n (listener_ready env listen_fd ready s)
  unfolding listener_ready
  listener_ready-Balanced env listen_fd ready s b = elim (Bool-cases (fd_isset listen_fd ready)) [
    | inl there ↦
        rw (there, listener_ready)
          (client_accepted-Balanced listen_fd (env.accept s.calls listen_fd) s b)
    | inr missing ↦ rw (missing, listener_ready) b
  ]

  -- What is the pool's, or closed.
  abbrev gone : Loop → ℕ
  gone s = count fd s.handed + closed fd s.calls

  client_served-gone :
      (a : ℕ) (block : Option ℕ) (r : Readable × (Pool × History)) (s : Loop)
      → Handled (Same fd s.calls) a block r
      → (gained fd (client_served a block r s).calls ≡ gained fd s.calls)
        × (gone (client_served a block r s) ≡ one fd a + gone s)
  unfolding client_served
  client_served-gone a block (closing, (pool, h)) s same = (same.acc, omega (arith, same.clo))
  client_served-gone a none (handed_over, (pool, h)) s (h', e, same) =
      rw e (same.acc, omega (arith, same.clo))
  client_served-gone a (some p) (handed_over, (pool, h)) s same =
      (same.acc, omega (arith, same.clo))
  client_served-gone a none (stuck, (pool, h)) s none_such = absurd none_such
  client_served-gone a (some p) (stuck, (pool, h)) s none_such = absurd none_such

  serve_client-gone :
      (env : Env) (around : Surroundings) (a : ℕ) (s : Loop)
      → (gained fd (serve_client env around a s).calls ≡ gained fd s.calls)
        × (gone (serve_client env around a s) ≡ one fd a + gone s)
  unfolding serve_client
  serve_client-gone env around a s = client_served-gone a _ _ s (
      handle_client_readable-Handled (Same fd s.calls) a env
        (λ h n bs same. record { acc = same.acc; clo = same.clo }) _ _ s.calls
        (record { acc = refl; clo = refl }))

  -- A round's last loop moves connections from the slots to the pool or has them closed.
  abbrev Kept : Slots → Loop → Slots × Loop → Type 0
  Kept slots s r =
      (gained fd r.1.calls ≡ gained fd s.calls)
      × (count fd (watched r.0) + gone r.1 ≡ count fd (watched slots) + gone s)

  looked-gone :
      (size a : ℕ) (s : Loop)
      → (gained fd (fd_access size (a ∷ []) s.calls) ≡ gained fd s.calls)
        × (closed fd (fd_access size (a ∷ []) s.calls) ≡ closed fd s.calls)
  looked-gone size a s = let same = fd_access-Same fd size (a ∷ []) s.calls in (same.acc, same.clo)

  serve_slots-Kept :
      (env : Env) (around : Surroundings) (ready : List ℕ) (slots : Slots) (s : Loop)
      → Kept slots s (serve_slots env around ready slots s)
  unfolding serve_slots
  serve_slots-Kept env around ready [] s = (refl, refl)
  serve_slots-Kept env around ready (none ∷ slots) s = serve_slots-Kept env around ready slots s
  serve_slots-Kept env around ready (some a ∷ slots) s =
      let looked : Loop = record s { calls = fd_access around.fd_setsize (a ∷ []) s.calls } in
      let (acc, clo) = looked-gone around.fd_setsize a s in
      elim (Bool-cases (fd_isset a ready)) [
        | inl there ↦
            let (acc₁, gone₁) = serve_client-gone env around a looked in
            let (acc₂, gone₂) =
              serve_slots-Kept env around ready slots (serve_client env around a looked) in
            rw (there, serve_slots) (acc₂ ∙ acc₁ ∙ acc, omega (arith, gone₂, gone₁, clo))
        | inr quiet ↦
            let (acc₂, gone₂) = serve_slots-Kept env around ready slots looked in
            rw (quiet, serve_slots) (acc₂ ∙ acc, omega (arith, gone₂, clo))
      ]

  selected-Balanced :
      (env : Env) (around : Surroundings) (listen_fd : ℕ) (answer : Option (List ℕ)) (s : Loop)
      → Balanced fd n s
      → Balanced fd n (selected env around listen_fd answer s)
  unfolding selected
  selected-Balanced env around listen_fd none s b = b
  selected-Balanced env around listen_fd (some ready) s b =
      let (acc, clo) = looked-gone around.fd_setsize listen_fd s in
      let looked : Loop = record s {
        calls = fd_access around.fd_setsize (listen_fd ∷ []) s.calls;
      } in
      let s₁ = listener_ready env listen_fd ready looked in
      let b₁ = listener_ready-Balanced env listen_fd ready looked (omega (arith, b, acc, clo)) in
      let (acc₂, gone₂) = serve_slots-Kept env around ready s₁.slots s₁ in
      omega (arith, b₁, acc₂, gone₂)

  round-Balanced :
      (env : Env) (around : Surroundings) (listen_fd : ℕ) (s : Loop)
      → Balanced fd n s
      → Balanced fd n (round env around listen_fd s)
  unfolding round
  round-Balanced env around listen_fd s b =
      let same = fd_access-Same fd around.fd_setsize (listen_fd ∷ watched s.slots) s.calls in
      let nfds = max_fd listen_fd (watched s.slots) + 1 in
      let h = fd_access around.fd_setsize (listen_fd ∷ watched s.slots) s.calls in
      let ready = env.select h nfds (listen_fd ∷ watched s.slots) in
      selected-Balanced env around listen_fd ready
        (record s { calls = select nfds (listen_fd ∷ watched s.slots) ready ∷ h })
        (omega (arith, b, same.acc, same.clo))

  pub run_rounds-Balanced :
      (env : Env) (around : Surroundings) (listen_fd rounds : ℕ) (s end : Loop)
      → Balanced fd n s
      → run_rounds env around listen_fd rounds s ≡ some end
      → Balanced fd n end
  unfolding run_rounds
  run_rounds-Balanced env around listen_fd zero s end b e = absurd (cc e)
  run_rounds-Balanced env around listen_fd (suc rounds) s end b e =
      ended_one_of (Balanced fd n) (env.nervfs_running s.calls) _ s end b
        (run_rounds-Balanced env around listen_fd rounds (round env around listen_fd s) end
          (round-Balanced env around listen_fd s b))
        e

  close_all-closed :
      (slots : Slots) (h : History)
      → (gained fd (close_all slots h) ≡ gained fd h)
        × (closed fd (close_all slots h) ≡ count fd (watched slots) + closed fd h)
  close_all-closed [] h = (refl, omega arith)
  close_all-closed (none ∷ slots) h = close_all-closed slots h
  close_all-closed (some a ∷ slots) h =
      let (acc, clo) = close_all-closed slots (close a ∷ h) in (acc, omega (arith, clo))

  pub stopped-Balanced : (s : Loop) → Balanced fd n s → Balanced fd n (stopped s)
  unfolding stopped
  stopped-Balanced s b =
      let (acc, clo) = close_all-closed s.slots s.calls in
      omega (arith, b, acc, clo, ap (count fd) (watched-cleared s.slots))

pub watched-replicate : (n : ℕ) → watched (replicate n none) ≡ []
watched-replicate zero = refl
watched-replicate (suc n) = watched-replicate n
