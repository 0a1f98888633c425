-- ===== src/Protocol/Transfer/Peer.antt =====
-- Sockets that do not fail. `recv_full` never runs out of fuel, and on a socket whose reads do not
-- fail it gives the next bytes. `send_full` sends all bytes where writes do not fail.
use nerv_fs.Base.{
  Bool, ℕ, zero, suc, ◌+◌, ◌-◌, ◌<◌, ◌≡◌, ◌≢◌, refl, inl, inr, Option, none, some, [], ◌∷◌, ◌++◌,
  arith, Bytes, length, take, drop, ltb, Bool-cases, length-append,
}
use nerv_fs.Os.{Timespec, History, Env, malloc, clock_gettime}
use nerv_fs.Protocol.Transfer.{
  Received, received, recv_chunk, recv_loop, recv_full, Sent, sent, send_chunk, send_loop,
  send_full, written,
}
use nerv_fs.Protocol.Transfer.Send.{IsSink, send_full_lem}
use nerv_fs.Protocol.Transfer.Receive.{IsStream, recv_full_lem}

-- A stream socket whose reads do not fail; an allocation and a look at the clock take nothing from it.
pub record IsPeer (env : Env) (fd : ℕ) (pending : History → Bytes) : Type 0 where
  pub stream : IsStream env fd pending
  pub answers : (h : History) (n : ℕ) → env.read h fd n ≢ none
  pub steady : (h : History) (n : ℕ) (granted : Bool) → pending (malloc n granted ∷ h) ≡ pending h
  pub timeless : (h : History) (now : Timespec) → pending (clock_gettime now ∷ h) ≡ pending h

-- A property of the result that every way out of the loop has.
module _ {ℓ} (P : Received → Type ℓ) (returned : (bs : Bytes) → P (received bs)) (env : Env)
    (fd len : ℕ) where
  recv_chunk-ends :
      (next : Bytes → History → Received × History) (acc : Bytes)
      → ((b : ℕ) (bs : Bytes) (h : History) → P (next (acc ++ b ∷ bs) h).0)
      → (h : History) (answer : Option Bytes) → (answer ≡ none → P Received.failed)
      → P (recv_chunk next acc h answer).0
  unfolding recv_chunk
  recv_chunk-ends next acc later h none bad = bad refl
  recv_chunk-ends next acc later h (some []) bad = returned acc
  recv_chunk-ends next acc later h (some (b ∷ bs)) bad = later b bs h

  recv_loop-ends :
      ((h : History) (n : ℕ) → env.read h fd n ≡ none → P Received.failed)
      → (fuel : ℕ) (acc : Bytes) (h : History) → len - length acc < fuel
      → P (recv_loop env fd len fuel acc h).0
  unfolding recv_loop
  recv_loop-ends bad zero acc h enough = absurd (omega arith)
  recv_loop-ends bad (suc fuel) acc h enough = elim (Bool-cases (ltb (length acc) len)) [
    | inl more ↦
        rw (more, recv_loop)
          (recv_chunk-ends (λ acc' h'. recv_loop env fd len fuel acc' h') acc
            (λ b bs h'.
              recv_loop-ends bad fuel (acc ++ b ∷ bs) h'
                (ground (arith, length-append acc (b ∷ bs))))
            _ _ (bad h _))
    | inr done ↦ rw (done, recv_loop) (returned acc)
  ]

  pub recv_full-ends :
      ((h : History) (n : ℕ) → env.read h fd n ≡ none → P Received.failed)
      → (h : History) → P (recv_full env fd len h).0
  unfolding recv_full
  recv_full-ends bad h = recv_loop-ends bad (suc len) [] h (omega arith)

pub recv_full-ne-spinning :
    (env : Env) (fd len : ℕ) (h : History) → (recv_full env fd len h).0 ≢ Received.spinning
recv_full-ne-spinning env fd len h =
    recv_full-ends (λ r. r ≢ Received.spinning) (λ bs e. absurd (cc e)) env fd len
      (λ h n e e'. absurd (cc e')) h

-- The bytes that are next, or all that are left, and the rest stays.
pub recv_full-peer :
    {env : Env} {fd : ℕ} {pending : History → Bytes}
    → IsPeer env fd pending
    → (len : ℕ) (h : History)
    → ((recv_full env fd len h).0 ≡ received (take len (pending h)))
      × (pending (recv_full env fd len h).1 ≡ drop len (pending h))
recv_full-peer {env} {fd} peer len h = elim (recv_full_lem peer.stream len h) [
  | inl e ↦ absurd (
      recv_full-ends (λ r. r ≢ Received.failed) (λ bs e'. absurd (cc e')) env fd len
        (λ h' n e'. absurd (peer.answers h' n e')) h e.0)
  | inr found ↦ found
]

-- A socket that takes all that is written to it, in pieces or at once.
pub record TakesAll (env : Env) (fd : ℕ) : Type 0 where
  pub sink : IsSink env fd
  pub takes : (h : History) (bs : Bytes) → env.write h fd bs ≢ none

send_chunk-succeeds :
    (next : ℕ → History → Sent × History)
    → ((total : ℕ) (h : History) → (next total h).0 ≢ Sent.failed)
    → (total : ℕ) (h : History) (answer : Option ℕ) → answer ≢ none
    → (send_chunk next total h answer).0 ≢ Sent.failed
unfolding send_chunk
send_chunk-succeeds next later total h none ok = absurd (ok refl)
send_chunk-succeeds next later total h (some n) ok = later (total + n) h

module _ (env : Env) (fd : ℕ) (ok : TakesAll env fd) where
  send_loop-succeeds :
      (buf : Bytes) (fuel total : ℕ) (h : History)
      → (send_loop env fd buf fuel total h).0 ≢ Sent.failed
  unfolding send_loop
  send_loop-succeeds buf zero total h = λ e. absurd (cc e)
  send_loop-succeeds buf (suc fuel) total h = elim (Bool-cases (ltb total (length buf))) [
    | inl more ↦
        rw (more, send_loop)
          (send_chunk-succeeds (λ total' h'. send_loop env fd buf fuel total' h')
            (send_loop-succeeds buf fuel) total _ _ (ok.takes _ _))
    | inr done ↦ rw (done, send_loop) (λ e. absurd (cc e))
  ]

  pub send_full-whole :
      (buf : Bytes) (h : History)
      → ((send_full env fd buf h).0 ≡ sent (length buf))
        × (written fd (send_full env fd buf h).1 ≡ written fd h ++ buf)
  unfolding send_full
  send_full-whole buf h = elim (send_full_lem env fd buf h ok.sink) [
    | inl found ↦ found
    | inr (failed, lost, e) ↦ absurd (send_loop-succeeds buf (suc (length buf)) 0 h failed)
  ]

  pub send_full-written :
      (buf : Bytes) (h : History) → written fd (send_full env fd buf h).1 ≡ written fd h ++ buf
  send_full-written buf h = (send_full-whole buf h).1
