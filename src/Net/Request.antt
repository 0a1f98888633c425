-- ===== src/Net/Request.antt =====
-- A request's header on its way from the socket into the queue of jobs.
use nerv_fs.Base.{
  ℕ, ◌≡◌, refl, sym, ap, ◌∙◌, ◌⊎◌, inl, inr, true, false, some, List, [], ◌∷◌, ◌++◌, append-nil,
  arith, Bytes, length, take, drop, take-append, drop-append, ltb, le→ltb_false,
}
use nerv_fs.Os.{History, Env}
use nerv_fs.Protocol.Header.{Header, IsTyped, accepts, parse_header, serialize_header}
use nerv_fs.Protocol.RoundTrip.{length-serialize_header, parse_header-serialize_header}
use nerv_fs.Protocol.Transfer.{Received, received}
use nerv_fs.Protocol.Transfer.Receive.{IsStream, FailedRead, recv_full_lem}
use nerv_fs.ThreadPool.{Pool, Job, threadpool_submit}
use nerv_fs.ThreadPool.Queue.{Represents, IsFreshFor, submit-Represents}
use nerv_fs.Net.{
  Readable, closing, handed_over, header_parsed, header_received, handle_client_readable,
}

-- The test of `parse_header` on such a header.
accepts-true : (hd : Header) → hd.magic ≡ 0xAE → hd.version ≡ 1 → accepts hd ≡ true
unfolding accepts
accepts-true hd magic version = ground arith

header_received-accepted :
    (client p : ℕ) (s : Pool) (hd : Header) (h : History)
    → IsTyped hd
    → accepts hd ≡ true
    → header_received client (some p) s (received (serialize_header hd), h)
      ≡ (handed_over, threadpool_submit (some p) client hd s h)
unfolding header_received
header_received-accepted client p s hd h t good_header =
    let parsed : parse_header (serialize_header hd) ≡ some (true, hd) =
      ap parse_header (sym (append-nil (serialize_header hd)))
      ∙ parse_header-serialize_header hd [] t
      ∙ ap (λ b. some (b, hd)) good_header in
    let whole : ltb (length (serialize_header hd)) 16 ≡ false =
      le→ltb_false _ 16 (omega (arith, length-serialize_header hd)) in
    rw (whole, parsed, header_parsed) refl

submit-keeps :
    (p client : ℕ) (hd : Header) (s : Pool) (h : History)
    → (threadpool_submit (some p) client hd s h).1 ≡ h
unfolding threadpool_submit
submit-keeps p client hd s h = refl

-- A `read` has failed and the connection is to be closed, or the job is the last of the queue and
-- the payload is next on the socket.
abbrev pub Accepts : ℕ → (History → Bytes) → List Job → Bytes → Readable × (Pool × History) → Type 0
Accepts client pending js rest (r, (s, h)) =
    ((r ≡ closing) × FailedRead client h)
    ⊎ ((r ≡ handed_over) × Represents s js × (pending h ≡ rest))

received-Accepts :
    (pending : History → Bytes) (client p : ℕ) (s : Pool) (js : List Job) (hd : Header)
    (rest : Bytes) (r : Received) (h : History)
    → IsTyped hd
    → accepts hd ≡ true
    → Represents s js
    → IsFreshFor p s
    → ((r ≡ Received.failed) × FailedRead client h)
      ⊎ ((r ≡ received (serialize_header hd)) × (pending h ≡ rest))
    → Accepts client pending
        (js ++ record { client_fd = client; header = hd } ∷ [])
        rest
        (header_received client (some p) s (r, h))
unfolding header_received
received-Accepts pending client p s js hd rest r h t good_header represents fresh (inl (e, lost)) =
    rw e (inl (refl, lost))
received-Accepts pending client p s js hd rest r h t good_header represents fresh (inr (e, next)) =
    rw e (
      rw (header_received-accepted client p s hd h t good_header) (
        inr (
          refl,
          submit-Represents s p client hd h js represents fresh,
          ap pending (submit-keeps p client hd s h) ∙ next,
        )))

-- On a stream socket whose next 16 bytes are a typed header with magic 0xAE and version 1, with
-- memory for a job at an address that is none of the queue's: `handle_client_readable` has the
-- connection closed right after a failed `read`, or the job with this connection and header is the
-- last of the queue, behind the jobs that were there, and what followed the header on the socket is
-- still to be read.
pub handle_client_readable_lem :
    (env : Env) (pending : History → Bytes) (client p : ℕ) (s : Pool) (js : List Job) (hd : Header)
    (rest : Bytes) (h : History)
    → IsStream env client pending
    → pending h ≡ serialize_header hd ++ rest
    → IsTyped hd
    → hd.magic ≡ 0xAE
    → hd.version ≡ 1
    → Represents s js
    → IsFreshFor p s
    → Accepts client pending
        (js ++ record { client_fd = client; header = hd } ∷ [])
        rest
        (handle_client_readable env client (some p) s h)
unfolding handle_client_readable
handle_client_readable_lem env pending client p s js hd rest h stream next t magic version
      represents fresh =
    let good_header = accepts-true hd magic version in
    let len = length-serialize_header hd in
    received-Accepts pending client p s js hd rest _ _ t good_header represents fresh
      (elim (recv_full_lem stream 16 h) [
        | inl e ↦ inl e
        | inr (e, left) ↦ inr (
          e ∙ ap received (ap (take 16) next ∙ take-append 16 (serialize_header hd) rest len),
          left ∙ ap (drop 16) next ∙ drop-append 16 (serialize_header hd) rest len,
        )
      ])
