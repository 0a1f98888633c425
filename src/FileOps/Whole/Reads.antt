-- ===== src/FileOps/Whole/Reads.antt =====
-- The loop of `fileops_read_file` against `recv_full` of src/protocol.c, and what it returns.
use nerv_fs.Base.{
  ℕ, zero, suc, ◌≤◌, ◌≡◌, ◌≢◌, refl, subst, ap, ◌∙◌, Bool, true, false, Option, none, some, inl,
  inr, [], ◌∷◌, ◌++◌, arith, Bytes, length, take, ltb, if◌then◌else◌, Bool-cases, length-take,
  le→ltb_false,
}
use nerv_fs.Os.{History, Env, malloc, open_read, fstat, close}
use nerv_fs.Protocol.Transfer.{Received, received, recv_chunk, recv_loop, recv_full}
use nerv_fs.Protocol.Transfer.Peer.{IsPeer, recv_full-peer, recv_full-ne-spinning}
use nerv_fs.FileOps.Whole.{
  read_step, read_rest, read_allocated, read_sized, read_opened, fileops_read_file,
}

-- The result of `recv_full`, with fewer bytes than were asked for as a failure.
abbrev pub all_or_failed : ℕ → Received → Received
all_or_failed size (received bs) = if ltb (length bs) size then Received.failed else received bs
all_or_failed size Received.failed = Received.failed
all_or_failed size Received.spinning = Received.spinning

abbrev pub like_recv : ℕ → Received × History → Received × History
like_recv size (r, h) = (all_or_failed size r, h)

module _ (env : Env) (fd size : ℕ) where
  read_step-like_recv :
      (next step : Bytes → History → Received × History) (acc : Bytes)
      → ((acc' : Bytes) (h : History) → step acc' h ≡ like_recv size (next acc' h))
      → ltb (length acc) size ≡ true
      → (h : History) (answer : Option Bytes)
      → read_step step acc h answer ≡ like_recv size (recv_chunk next acc h answer)
  unfolding recv_chunk
  read_step-like_recv next step acc same more h none = refl
  read_step-like_recv next step acc same more h (some []) = rw more refl
  read_step-like_recv next step acc same more h (some (b ∷ bs)) = same (acc ++ b ∷ bs) h

  read_rest-like_recv :
      (fuel : ℕ) (acc : Bytes) (h : History)
      → read_rest env fd size fuel acc h ≡ like_recv size (recv_loop env fd size fuel acc h)
  unfolding read_rest recv_loop
  read_rest-like_recv zero acc h = refl
  read_rest-like_recv (suc fuel) acc h = elim (Bool-cases (ltb (length acc) size)) [
    | inl more ↦
        rw (more, read_rest, recv_loop)
          (read_step-like_recv (λ a h'. recv_loop env fd size fuel a h')
            (λ a h'. read_rest env fd size fuel a h') acc (λ a h'. read_rest-like_recv fuel a h')
            more _ _)
    | inr full ↦ rw (full, read_rest, recv_loop) (rw full refl)
  ]

-- What `fileops_read_file` returns after the file has been opened, and that it closes the file.
abbrev pub ReadsWhole : ℕ → ℕ → Bytes → Received × History → Type 0
ReadsWhole fd size next r =
    (r.0 ≡ received (take size next)) × ((h' : History) × (r.1 ≡ close fd ∷ h'))

closes_after : (fd : ℕ) (r : Received × History) → (h' : History) × (close fd ∷ r.1 ≡ close fd ∷ h')
closes_after fd r = (r.1, refl)

read_allocated-ReadsWhole :
    (env : Env) (fd size : ℕ) (pending : History → Bytes) (h : History)
    → IsPeer env fd pending
    → size ≤ length (pending h)
    → ReadsWhole fd size (pending h) (read_allocated env fd size true h)
unfolding read_allocated recv_full
read_allocated-ReadsWhole env fd size pending h peer enough =
    let same : read_rest env fd size (suc size) [] h ≡ like_recv size (recv_full env fd size h) =
      unfold recv_full in read_rest-like_recv env fd size (suc size) [] h in
    let (got, left) = recv_full-peer peer size h in
    let full : ltb (length (take size (pending h))) size ≡ false =
      le→ltb_false (length (take size (pending h))) size
        (omega (arith, length-take size (pending h), enough)) in
    (
      ap (λ r. r.0) same ∙ ap (all_or_failed size) got ∙ rw full refl,
      closes_after fd (read_rest env fd size (suc size) [] h),
    )

-- If the file can be opened, `malloc` grants its buffer, no `read` fails and the file has the bytes
-- that `fstat` says: `fileops_read_file` returns exactly these and closes the file last.
pub fileops_read_file-ReadsWhole :
    (env : Env) (path : Bytes) (fd size : ℕ) (pending : History → Bytes) (h : History)
    → env.open_read h path ≡ some fd
    → env.fstat (open_read path (some fd) ∷ h) fd ≡ some size
    → ((h' : History) (n : ℕ) → env.malloc h' n ≡ true)
    → IsPeer env fd pending
    → size ≤ length (pending (fstat fd (some size) ∷ open_read path (some fd) ∷ h))
    → ReadsWhole fd size
        (pending (fstat fd (some size) ∷ open_read path (some fd) ∷ h))
        (fileops_read_file env path h)
unfolding fileops_read_file read_opened read_sized
fileops_read_file-ReadsWhole env path fd size pending h e₁ e₂ grants peer enough =
    let h₂ : History = fstat fd (some size) ∷ open_read path (some fd) ∷ h in
    let same = peer.steady h₂ size true in
    rw (e₁, read_opened, e₂, read_sized)
      (elim (Bool-cases (ltb 0 size)) [
        | inl some_bytes ↦
            rw (some_bytes, grants h₂ size)
              (subst
                (λ next.
                  ReadsWhole fd size next (read_allocated env fd size true (malloc size true ∷ h₂)))
                same
                (read_allocated-ReadsWhole env fd size pending (malloc size true ∷ h₂) peer
                  (omega (arith, ap length same, enough))))
        | inr empty ↦
            let zero_size : size ≡ 0 = ground arith in rw (empty, zero_size) (refl, (_, refl))
      ])

read_allocated-closes :
    (env : Env) (fd size : ℕ) (granted : Bool) (h : History)
    → (h' : History) × ((read_allocated env fd size granted h).1 ≡ close fd ∷ h')
unfolding read_allocated
read_allocated-closes env fd size false h = (h, refl)
read_allocated-closes env fd size true h = closes_after fd (read_rest env fd size (suc size) [] h)

read_sized-closes :
    (env : Env) (fd : ℕ) (size : Option ℕ) (h : History)
    → (h' : History) × ((read_sized env fd size h).1 ≡ close fd ∷ h')
unfolding read_sized
read_sized-closes env fd none h = (h, refl)
read_sized-closes env fd (some size) h = elim (Bool-cases (ltb 0 size)) [
  | inl some_bytes ↦
      rw some_bytes (
        read_allocated-closes env fd size (env.malloc h size) (malloc size (env.malloc h size) ∷ h))
  | inr empty ↦ rw empty (h, refl)
]

-- Whatever the system answers, the loop ends with what `recv_full` reads or with a failure.
like_recv-ends :
    (size : ℕ) (r : Received) → r ≢ Received.spinning → all_or_failed size r ≢ Received.spinning
like_recv-ends size Received.failed ends = ends
like_recv-ends size Received.spinning ends = ends
like_recv-ends size (received bs) ends = elim (Bool-cases (ltb (length bs) size)) [
  | inl short ↦ rw short (λ e. absurd (cc e))
  | inr full ↦ rw full (λ e. absurd (cc e))
]

read_allocated-ends :
    (env : Env) (fd size : ℕ) (granted : Bool) (h : History)
    → (read_allocated env fd size granted h).0 ≢ Received.spinning
unfolding read_allocated
read_allocated-ends env fd size false h = λ e. absurd (cc e)
read_allocated-ends env fd size true h =
    let same : read_rest env fd size (suc size) [] h ≡ like_recv size (recv_full env fd size h) =
      unfold recv_full in read_rest-like_recv env fd size (suc size) [] h in
    rw same (like_recv-ends size (recv_full env fd size h).0 (recv_full-ne-spinning env fd size h))

read_sized-ends :
    (env : Env) (fd : ℕ) (size : Option ℕ) (h : History)
    → (read_sized env fd size h).0 ≢ Received.spinning
unfolding read_sized
read_sized-ends env fd none h = λ e. absurd (cc e)
read_sized-ends env fd (some size) h = elim (Bool-cases (ltb 0 size)) [
  | inl some_bytes ↦
      rw some_bytes
        (read_allocated-ends env fd size (env.malloc h size) (malloc size (env.malloc h size) ∷ h))
  | inr empty ↦ rw empty (λ e. absurd (cc e))
]

-- Once the file has been opened, whatever `fstat`, `malloc` and `read` answer, `fileops_read_file`
-- returns, and closing the file is its last call.
pub fileops_read_file-closes :
    (env : Env) (path : Bytes) (fd : ℕ) (h : History)
    → env.open_read h path ≡ some fd
    → ((fileops_read_file env path h).0 ≢ Received.spinning)
      × ((h' : History) × ((fileops_read_file env path h).1 ≡ close fd ∷ h'))
unfolding fileops_read_file read_opened
fileops_read_file-closes env path fd h e =
    let h₁ : History = open_read path (some fd) ∷ h in
    let size = env.fstat h₁ fd in
    rw (e, read_opened)
      (
        read_sized-ends env fd size (fstat fd size ∷ h₁),
        read_sized-closes env fd size (fstat fd size ∷ h₁),
      )
