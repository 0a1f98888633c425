-- ===== src/Protocol/Transfer/Send.antt =====
-- What `send_full` hands to the socket.
use nerv_fs.Base.{
  ℕ, zero, suc, ◌+◌, ◌-◌, ◌≤◌, ◌<◌, ◌≡◌, refl, sym, ap, ◌∙◌, ◌⊎◌, inl, inr, Option, none, some, ◌∷◌,
  ◌++◌, append-nil, append_assoc, arith, Bytes, length, take, drop, ltb, ltb→lt, Bool-cases,
  take-split, take_all, length-drop, ==_refl,
}
use nerv_fs.Os.{History, Env, write}
use nerv_fs.Protocol.Transfer.{Sent, sent, send_chunk, send_loop, send_full, written}

-- A property of the history that writes to `fd` keep, `send_full` keeps.
module _ {ℓ} (P : History → Type ℓ) (env : Env) (fd : ℕ)
    (keep : (h : History) (bs : Bytes) (n : Option ℕ) → P h → P (write fd bs n ∷ h)) where
  send_chunk-keeps :
      (next : ℕ → History → Sent × History)
      → ((total : ℕ) (h : History) → P h → P (next total h).1)
      → (total : ℕ) (h : History) (answer : Option ℕ) → P h
      → P (send_chunk next total h answer).1
  unfolding send_chunk
  send_chunk-keeps next keep_next total h none p = p
  send_chunk-keeps next keep_next total h (some n) p = keep_next _ h p

  send_loop-keeps :
      (buf : Bytes) (fuel total : ℕ) (h : History) → P h → P (send_loop env fd buf fuel total h).1
  unfolding send_loop
  send_loop-keeps buf zero total h p = p
  send_loop-keeps buf (suc fuel) total h p = elim (Bool-cases (ltb total (length buf))) [
    | inl e ↦
        rw (e, send_loop)
          (send_chunk-keeps (λ total' h'. send_loop env fd buf fuel total' h')
            (send_loop-keeps buf fuel) total _ _ (keep h _ _ p))
    | inr e ↦ rw (e, send_loop) p
  ]

  pub send_full-keeps : (buf : Bytes) (h : History) → P h → P (send_full env fd buf h).1
  unfolding send_full
  send_full-keeps buf h p = send_loop-keeps buf (suc (length buf)) 0 h p

-- A blocking `write` of at least one byte: it fails or takes some of the bytes.
pub record IsSink (env : Env) (fd : ℕ) : Type 0 where
  pub bounded : (h : History) (bs : Bytes) (n : ℕ) → env.write h fd bs ≡ some n → n ≤ length bs
  pub progress :
      (h : History) (bs : Bytes) (n : ℕ) → 0 < length bs → env.write h fd bs ≡ some n → 0 < n

-- The last call was a `write` to the socket that failed.
abbrev pub FailedWrite : ℕ → History → Type 0
FailedWrite fd h = (h' : History) × (bs : Bytes) × (h ≡ write fd bs none ∷ h')

-- All bytes got through and the count is returned, or the call failed after a part of them.
abbrev pub Sends : ℕ → Bytes → History → Sent × History → Type 0
Sends fd buf h r =
    ((r.0 ≡ sent (length buf)) × (written fd r.1 ≡ written fd h ++ buf))
    ⊎ ((r.0 ≡ Sent.failed)
        × FailedWrite fd r.1
        × ((k : ℕ) × (k < length buf) × (written fd r.1 ≡ written fd h ++ take k buf)))

module _ {env : Env} {fd : ℕ} (sink : IsSink env fd) (buf : Bytes) (h₀ : History) where
  -- The first `total` bytes have got through.
  abbrev SentSoFar : ℕ → History → Type 0
  SentSoFar total h = (total ≤ length buf) × (written fd h ≡ written fd h₀ ++ take total buf)

  send_chunk-Sends :
      (next : ℕ → History → Sent × History) (total : ℕ) (h : History)
      → ((n : ℕ) (h' : History)
          → 0 < n
          → SentSoFar (total + n) h'
          → Sends fd buf h₀ (next (total + n) h'))
      → total < length buf
      → SentSoFar total h
      → (answer : Option ℕ) → env.write h fd (drop total buf) ≡ answer
      → Sends fd buf h₀ (send_chunk next total (write fd (drop total buf) answer ∷ h) answer)
  unfolding send_chunk
  send_chunk-Sends next total h later lt (le, so_far) none e =
      inr (refl, (h, drop total buf, refl), (total, lt, so_far))
  send_chunk-Sends next total h later lt (le, so_far) (some n) e =
      let left = length-drop total buf in
      let fits = sink.bounded h (drop total buf) n e in
      later n _ (sink.progress h (drop total buf) n (omega (arith, left)) e) (
        omega (arith, left, fits),
        rw (==_refl fd) (
            ap (λ w. w ++ take n (drop total buf)) so_far
            ∙ append_assoc (written fd h₀) (take total buf) _
            ∙ ap (◌++◌ (written fd h₀)) (sym (take-split total n (total + n) buf refl))),
      )

  send_loop-Sends :
      (fuel total : ℕ) (h : History)
      → length buf - total < fuel
      → SentSoFar total h
      → Sends fd buf h₀ (send_loop env fd buf fuel total h)
  unfolding send_loop
  send_loop-Sends zero total h enough so_far = absurd (omega arith)
  send_loop-Sends (suc fuel) total h enough so_far = elim (Bool-cases (ltb total (length buf))) [
    | inl e ↦
        rw (e, send_loop)
          (send_chunk-Sends (λ total' h'. send_loop env fd buf fuel total' h') total h
            (λ n h' pos more. send_loop-Sends fuel (total + n) h' (omega arith) more) (ltb→lt _ _ e)
            so_far (env.write h fd (drop total buf)) refl)
    | inr e ↦
        let all : total ≡ length buf = ground arith in
        rw (e, send_loop)
          (inl
            (ap sent all, so_far.1 ∙ ap (◌++◌ (written fd h₀)) (take_all total buf (omega arith))))
  ]

-- On a socket whose `write` fails or takes at least one of the bytes, `send_full` returns the length
-- of the buffer after all its bytes, in order, have got through, or it returns -1 right after a
-- failed `write`, its last call, when a proper prefix of them has got through; it does not spin.
pub send_full_lem :
    (env : Env) (fd : ℕ) (buf : Bytes) (h : History)
    → IsSink env fd
    → Sends fd buf h (send_full env fd buf h)
unfolding send_full
send_full_lem env fd buf h sink =
    send_loop-Sends sink buf h (suc (length buf)) 0 h (omega arith)
      (omega arith, sym (append-nil (written fd h)))
