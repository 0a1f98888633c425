-- ===== src/Client/EndToEnd.antt =====
-- A request of the client on its way to the server, and the server's response on its way back.
use nerv_fs.Base.{
  ℕ, ◌≤◌, ◌≡◌, refl, sym, ap, ◌∙◌, true, none, [], ◌++◌, append-nil, append_assoc, arith, Bytes,
  length, drop, take_all, drop-append, ltb, Bool-cases, inl, inr,
}
use nerv_fs.Os.{History, Env}
use nerv_fs.Wire.Buffer.{load_total}
use nerv_fs.Protocol.Header.{serialize_header}
use nerv_fs.Protocol.Transfer.{Sent, sent, send_full, written}
use nerv_fs.Protocol.RoundTrip.{wire_header}
use nerv_fs.Protocol.Transfer.Peer.{IsPeer, TakesAll, send_full-whole}
use nerv_fs.Handlers.Usage.{Holds}
use nerv_fs.Handlers.Reply.{Reply, IsFit, suits, reply_bytes}
use nerv_fs.Handlers.Answer.{nil_of}
use nerv_fs.Handlers.Answer.Dispatch.{kind_of}
use nerv_fs.ThreadPool.{Job}
use nerv_fs.ThreadPool.Process.{process_job}
use nerv_fs.ThreadPool.Answers.{IsServer, process_job-answers}
use nerv_fs.Client.Exchange.{
  request_header, payload_sent, send_loaded, header_sent, send_request, read_response_header,
}
use nerv_fs.Client.Answers.Shown.{shown_of, answered, answered-shown_of}

module _ (env : Env) (fd : ℕ) (ok : TakesAll env fd) where
  abbrev Wrote : Bytes → Sent × History → Type 0
  Wrote bytes (r, h) = (r ≡ sent 0) × (written fd h ≡ bytes)

  payload_sent-Wrote :
      (n : ℕ) (bytes : Bytes) (r : Sent × History)
      → r.0 ≡ sent n
      → written fd r.1 ≡ bytes
      → Wrote bytes (payload_sent r)
  unfolding payload_sent
  payload_sent-Wrote n bytes (r, h) e w = rw e (refl, w)

  header_sent-Wrote :
      (payload : Bytes) (bytes : Bytes) (n : ℕ) (r : Sent × History)
      → r.0 ≡ sent n
      → written fd r.1 ≡ bytes
      → Wrote (bytes ++ payload) (header_sent env fd payload (length payload) r)
  unfolding header_sent send_loaded
  header_sent-Wrote payload bytes n (r, h) e w =
      rw (e, header_sent)
        (elim (Bool-cases (ltb 0 (length payload))) [
          | inl some_bytes ↦
              let (all, through) = send_full-whole env fd ok payload h in
              rw
                (
                  some_bytes,
                  load_total payload 0 (length payload) (omega arith),
                  take_all (length payload) payload (omega arith),
                )
                (payload_sent-Wrote _ _ (send_full env fd payload h) all
                  (through ∙ ap (λ x. x ++ payload) w))
          | inr empty ↦ rw empty (
            refl,
            w ∙ sym (append-nil bytes) ∙ ap (◌++◌ bytes) (sym (nil_of payload (ground arith))),
          )
        ])

  -- On a connection that takes all that is written to it, `send_request` returns 0, and what has got
  -- through is the header, magic 0xAE, version 1, the opcode, the length of the payload and a
  -- `reserved` of 0, and the payload.
  pub send_request_lem :
      (opcode : ℕ) (payload : Bytes) (h : History)
      → ((send_request env fd opcode payload (length payload) h).0 ≡ sent 0)
        × (written fd (send_request env fd opcode payload (length payload) h).1
            ≡ written fd h ++ (wire_header opcode (length payload) 0 ++ payload))
  unfolding send_request serialize_header
  send_request_lem opcode payload h =
      let hd = serialize_header (request_header opcode (length payload)) in
      let (all, through) = send_full-whole env fd ok hd h in
      let (done, w) =
        header_sent-Wrote payload (written fd h ++ hd) _ (send_full env fd hd h) all through in
      (done, w ∙ append_assoc (written fd h) hd payload)

-- If a reliable server processes a job whose payload is on the connection, and the client reads what
-- it has written there, with memory, a connection that does not fail and a local file that can be
-- created: the server has written one response, an error or the one for the request, and the client
-- prints that response, with its numbers, its entries or its size.
pub process_job-shown :
    (env : Env) (root : Bytes) (job : Job) (pending : History → Bytes) (h : History)
    → IsServer env job.client_fd pending
    → Holds root none none h
    → job.header.payload_len ≤ length (pending h)
    → (client_env : Env) (fd : ℕ) (answer : History → Bytes) → IsPeer client_env fd answer
    → ((h' : History) (n : ℕ) → client_env.malloc h' n ≡ true)
    → (local_file : Bytes) → ((h' : History) → client_env.fopen_write h' local_file ≡ true)
    → (h' : History)
    → answer h'
      ≡ drop (length (written job.client_fd h)) (written job.client_fd (process_job env root job h))
    → (r : Reply) × IsFit r
      × (suits (kind_of job.header.opcode) r ≡ true)
      × (written job.client_fd (process_job env root job h)
          ≡ written job.client_fd h ++ reply_bytes r)
      × ((answered
            (kind_of job.header.opcode)
            client_env
            fd
            local_file
            (read_response_header client_env fd h')).0
          ≡ shown_of r)
process_job-shown env root job pending h ok s enough client_env fd answer peer grants local_file
      creates h' next =
    let (h'', closed, (r, fit, suited, e)) =
      process_job-answers env root job pending h ok s enough in
    let before = written job.client_fd h in
    let arrives : answer h' ≡ reply_bytes r ++ [] =
      next
      ∙ ap (λ x. drop (length before) (written job.client_fd x)) closed
      ∙ ap (drop (length before)) e
      ∙ drop-append (length before) before (reply_bytes r) refl
      ∙ sym (append-nil (reply_bytes r)) in
    (
      r,
      fit,
      suited,
      ap (written job.client_fd) closed ∙ e,
      answered-shown_of client_env fd peer grants local_file creates (kind_of job.header.opcode) r
          [] h' fit suited arrives,
    )
