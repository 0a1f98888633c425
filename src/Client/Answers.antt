-- ===== src/Client/Answers.antt =====
-- How the client reads a header, a body, an error and metrics that the server has written.
pub mod Shown
use nerv_fs.Base.{
  ℕ, ◌+◌, ◌%◌, ◌^◌, ◌≤◌, ◌<◌, ◌≡◌, refl, sym, ap, ◌∙◌, Bool, true, false, Option, none, some, List,
  [], ◌∷◌, ◌++◌, ◌>>=◌, arith, Bytes, length, take, drop, append-nil, append_assoc, take-append,
  drop-append, take_all, length-append, All, ltb, ◌==◌, ==_refl, if◌then◌else◌,
}
use nerv_fs.Os.{History, Env, malloc}
use nerv_fs.Wire.{
  read_u16, read_u32, read_u64, write_u16, write_u32, write_u64, length-write_u16, length-write_u32,
  length-write_u64,
}
use nerv_fs.Wire.RoundTrip.{read_u16-write_u16, read_u64-write_u64}
use nerv_fs.Protocol.Header.{Header, IsTyped, accepts, parse_header, serialize_header}
use nerv_fs.Protocol.RoundTrip.{parse_header-serialize_header, length-serialize_header}
use nerv_fs.Protocol.Transfer.{received, recv_full}
use nerv_fs.Protocol.Transfer.Peer.{IsPeer, recv_full-peer}
use nerv_fs.Handlers.Respond.{response_header, error_payload}
use nerv_fs.Handlers.Upload.{metrics}
use nerv_fs.Handlers.Reply.{
  IsMessage, Reply, ok_reply, metrics_reply, error_reply, listing_reply, file_reply, reply_opcode,
  reply_us, reply_body, reply_bytes, IsFit, suits, Kind, upload_kind, download_kind, list_kind,
  change_kind, unknown_kind,
}
use nerv_fs.Handlers.Discipline.{length-error_payload, length-metrics}
use nerv_fs.Handlers.ListPayload.{encode_entries, length-encode_entries}
use nerv_fs.Client.Exchange.{
  error_message, ok_metrics, accepted, response_received, read_response_header, filled,
  recv_allocated, recv_body, print_text, show_error, show_metrics,
}
use nerv_fs.Client.Decode.{c_str-All, show_listing-encode_entries}
use nerv_fs.Client.Listing.{list_answered, list_body, show_listing}
use nerv_fs.Client.Commands.{
  download_answered, download_prefix, download_sized, save_file, save_opened,
}

response_received-header :
    (hd : Header)
    → IsTyped hd
    → accepts hd ≡ true
    → response_received (received (serialize_header hd)) ≡ some hd
unfolding response_received
response_received-header hd t good_header =
    let parsed : parse_header (serialize_header hd) ≡ some (true, hd) =
      ap parse_header (sym (append-nil (serialize_header hd)))
      ∙ parse_header-serialize_header hd [] t
      ∙ ap (λ b. some (b, hd)) good_header in
    rw (length-serialize_header hd, parsed) refl

module _ (env : Env) (fd : ℕ) {pending : History → Bytes} (peer : IsPeer env fd pending) where
  -- A response's header is read, and its body is next.
  pub read_response_header-next :
      (opcode len elapsed_us : ℕ) (rest : Bytes) (h : History)
      → opcode < 2 ^ 16
      → len < 2 ^ 32
      → elapsed_us < 2 ^ 64
      → pending h ≡ serialize_header (response_header opcode len elapsed_us) ++ rest
      → ((read_response_header env fd h).0 ≡ some (response_header opcode len elapsed_us))
        × (pending (read_response_header env fd h).1 ≡ rest)
  unfolding read_response_header accepts
  read_response_header-next opcode len elapsed_us rest h op_fits len_fits us_fits next =
      let hd = response_header opcode len elapsed_us in
      let (got, left) = recv_full-peer peer 16 h in
      let size = length-serialize_header hd in
      (
        ap response_received (
              got
              ∙ ap received (ap (take 16) next ∙ take-append 16 (serialize_header hd) rest size))
            ∙ response_received-header hd
                (record {
                  magic_fits = omega arith;
                  version_fits = omega arith;
                  opcode_fits = op_fits;
                  payload_len_fits = len_fits;
                  reserved_fits = us_fits;
                })
                refl,
        left ∙ ap (drop 16) next ∙ drop-append 16 (serialize_header hd) rest size,
      )

  -- A buffer is filled with the bytes that are next.
  pub filled-next :
      (bytes rest : Bytes) (n : ℕ) (h : History)
      → length bytes ≡ n
      → pending h ≡ bytes ++ rest
      → (filled n (recv_full env fd n h).0 ≡ some bytes) × (pending (recv_full env fd n h).1 ≡ rest)
  filled-next bytes rest n h size next =
      let (got, left) = recv_full-peer peer n h in
      let exact : take n (pending h) ≡ bytes = ap (take n) next ∙ take-append n bytes rest size in
      (
        ap (filled n) (got ∙ ap received exact) ∙ rw (size, ==_refl n) refl,
        left ∙ ap (drop n) next ∙ drop-append n bytes rest size,
      )

  pub recv_body-next :
      (bytes rest : Bytes) (n : ℕ) (h : History)
      → ((h : History) (m : ℕ) → env.malloc h m ≡ true)
      → length bytes ≡ n
      → pending h ≡ bytes ++ rest
      → ((recv_body env fd n h).0 ≡ some bytes) × (pending (recv_body env fd n h).1 ≡ rest)
  unfolding recv_body recv_allocated
  recv_body-next bytes rest n h grants size next =
      rw (grants h n)
        (filled-next bytes rest n (malloc n true ∷ h) size (peer.steady h n true ∙ next))

pub show_error-error_payload :
    (err_code : ℕ) (msg : Bytes)
    → IsMessage err_code msg
    → show_error (some (error_payload err_code msg)) ≡ error_message err_code msg
unfolding show_error error_payload print_text
show_error-error_payload err_code msg fit =
    let n = length msg in
    let n_eq : n % 2 ^ 16 ≡ n = omega (arith, fit.msg_fits) in
    let whole : take n msg ≡ msg = take_all n msg (omega arith) in
    let a = write_u16 err_code in
    let b = write_u16 n in
    let len_read : read_u16 (a ++ (b ++ msg)) 2 ≡ some n =
      read_u16-write_u16 a msg 2 n (length-write_u16 err_code) fit.msg_fits in
    let text : take n (drop 4 (a ++ (b ++ msg))) ≡ msg =
      ap (λ p. take n (drop 4 p)) (sym (append_assoc a b msg))
      ∙ ap (take n) (
          drop-append 4 (a ++ b) msg
            (omega (arith, length-append a b, length-write_u16 err_code, length-write_u16 n)))
      ∙ whole in
    rw
      (
        n_eq,
        whole,
        read_u16-write_u16 [] (b ++ msg) 0 err_code refl fit.code_fits,
        len_read,
        text,
        ==_refl n,
      )
      (ap (λ m. error_message err_code m) (c_str-All msg fit.no_nul))

pub show_metrics-metrics :
    (total_us network_us write_us sync_us : ℕ)
    → network_us < 2 ^ 64
    → write_us < 2 ^ 64
    → sync_us < 2 ^ 64
    → show_metrics total_us (some (metrics network_us write_us sync_us))
      ≡ ok_metrics total_us network_us write_us sync_us
unfolding show_metrics metrics
show_metrics-metrics total_us network_us write_us sync_us n w s =
    let a = write_u64 network_us in
    let b = write_u64 write_us in
    let c = write_u64 sync_us in
    let at_b : read_u64 (a ++ (b ++ c)) 8 ≡ some write_us =
      read_u64-write_u64 a c 8 write_us (length-write_u64 network_us) w in
    let at_c : read_u64 (a ++ (b ++ c)) 16 ≡ some sync_us =
      ap (λ p. read_u64 p 16) (simp append_assoc)
      ∙ ap (λ p. read_u64 p 16) (sym (append-nil ((a ++ b) ++ c)))
      ∙ ap (λ p. read_u64 p 16) (append_assoc (a ++ b) c [])
      ∙ read_u64-write_u64 (a ++ b) [] 16 sync_us
          (omega (arith, length-append a b, length-write_u64 network_us, length-write_u64 write_us))
          s in
    rw (read_u64-write_u64 [] (b ++ c) 0 network_us refl n, at_b, at_c) refl
