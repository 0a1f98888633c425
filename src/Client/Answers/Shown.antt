-- ===== src/Client/Answers/Shown.antt =====
-- What the client prints for each response of the server.
use nerv_fs.Wire.{write_u16, length-write_u16}
use nerv_fs.Base.{
  take, take_all, ℕ, ◌^◌, ◌<◌, ◌≡◌, refl, sym, ap, ◌∙◌, true, Option, none, some, List, [], ◌∷◌,
  ◌++◌, ◌>>=◌, arith, Bytes, length, append-nil, append_assoc, length-append, ltb, if◌then◌else◌,
}
use nerv_fs.Os.{History, Env, fopen_write, fwrite}
use nerv_fs.Wire.{read_u64, write_u32, write_u64, length-write_u32, length-write_u64}
use nerv_fs.Wire.RoundTrip.{read_u64-write_u64}
use nerv_fs.Protocol.Header.{Header, serialize_header}
use nerv_fs.Protocol.Transfer.{recv_full}
use nerv_fs.Protocol.Transfer.Peer.{IsPeer}
use nerv_fs.Handlers.Respond.{response_header}
use nerv_fs.Handlers.Upload.{metrics}
use nerv_fs.Handlers.Reply.{
  IsMessage, Reply, ok_reply, metrics_reply, error_reply, listing_reply, file_reply, reply_opcode,
  reply_us, reply_body, response_header-wire_header, error_payload-IsMessage, reply_bytes, IsFit,
  suits, Kind, upload_kind, download_kind, list_kind, change_kind, unknown_kind,
}
use nerv_fs.FileOps.Listing.{Dirent}
use nerv_fs.Handlers.Discipline.{length-metrics}
use nerv_fs.Handlers.ListPayload.{encode_entries, length-encode_entries}
use nerv_fs.Client.Exchange.{
  Shown, error_message, ok_metrics, ok_timed, listing, downloaded, result_of, print_simple_result,
  print_ok, print_error, read_response_header, recv_body, show_error,
}
use nerv_fs.Client.Decode.{show_listing-encode_entries}
use nerv_fs.Client.Listing.{list_answered, list_body, show_listing}
use nerv_fs.Client.Commands.{
  download_answered, download_prefix, download_sized, save_file, save_opened,
}
use nerv_fs.Client.Answers.{
  read_response_header-next, filled-next, recv_body-next, show_error-error_payload,
  show_metrics-metrics,
}

-- What the client prints for a response.
abbrev pub shown_of : Reply → Shown
shown_of (ok_reply total_us) = ok_timed total_us
shown_of (metrics_reply total_us network_us write_us sync_us) =
    ok_metrics total_us network_us write_us sync_us
shown_of (error_reply err_code msg) = error_message err_code msg
shown_of (listing_reply total_us entries) = listing (length entries) total_us entries
shown_of (file_reply total_us bytes) = downloaded (length bytes) total_us

-- What each command does with a response to its request.
abbrev pub answered : Kind → Env → ℕ → Bytes → Option Header × History → Shown × History
answered list_kind env fd local_file r = list_answered env fd r
answered download_kind env fd local_file r = download_answered env fd local_file r
answered _ env fd local_file r = result_of env fd r

-- What the local file holds after the calls made so far: what `fwrite` says it has written, for a stream
-- whose closing does not fail.
unfoldable pub local_content : History → Option Bytes
local_content [] = none
local_content (fopen_write path true ∷ h) = some []
local_content (fwrite bytes count ∷ h) = do
  content ← local_content h
  some (content ++ take count bytes)
local_content (e ∷ h) = local_content h

body_fits : (r : Reply) → IsFit r → length (reply_body r) < 2 ^ 32
body_fits (ok_reply total_us) fit = omega arith
body_fits (metrics_reply total_us network_us write_us sync_us) fit =
    unfold metrics in omega (arith, length-metrics network_us write_us sync_us)
body_fits (error_reply err_code msg) fit = omega (
  arith,
  fit.msg_fits,
  length-append (write_u16 err_code) (write_u16 (length msg) ++ msg),
  length-append (write_u16 (length msg)) msg,
  length-write_u16 err_code,
  length-write_u16 (length msg),
)
body_fits (listing_reply total_us entries) fit = omega (
  arith,
  fit.2,
  length-append (write_u32 (length entries)) (encode_entries entries),
  length-write_u32 (length entries),
  length-encode_entries entries,
)
body_fits (file_reply total_us bytes) fit =
    omega (
      arith,
      fit.1,
      length-append (write_u64 (length bytes)) bytes,
      length-write_u64 (length bytes),
    )

us_fits : (r : Reply) → IsFit r → reply_us r < 2 ^ 64
us_fits (ok_reply total_us) fit = fit
us_fits (metrics_reply total_us network_us write_us sync_us) fit = fit.0
us_fits (error_reply err_code msg) fit = omega arith
us_fits (listing_reply total_us entries) fit = fit.0
us_fits (file_reply total_us bytes) fit = fit.0

opcode_fits : (r : Reply) → reply_opcode r < 2 ^ 16
opcode_fits (ok_reply total_us) = omega arith
opcode_fits (metrics_reply total_us network_us write_us sync_us) = omega arith
opcode_fits (error_reply err_code msg) = omega arith
opcode_fits (listing_reply total_us entries) = omega arith
opcode_fits (file_reply total_us bytes) = omega arith

abbrev header_of : Reply → Header
header_of r = response_header (reply_opcode r) (length (reply_body r)) (reply_us r)

module _ (env : Env) (fd : ℕ) {pending : History → Bytes} (peer : IsPeer env fd pending)
    (grants : (h : History) (n : ℕ) → env.malloc h n ≡ true) (local_file : Bytes)
    (creates : (h : History) → env.fopen_write h local_file ≡ true) where
  abbrev Next : Reply → Bytes → History → Type 0
  Next r rest h = pending h ≡ reply_body r ++ rest

  ok-shown :
      (total_us : ℕ) (h : History)
      → (print_simple_result env fd (header_of (ok_reply total_us)) h).0 ≡ ok_timed total_us
  unfolding print_simple_result
  ok-shown total_us h = refl

  metrics-shown :
      (total_us network_us write_us sync_us : ℕ) (rest : Bytes) (h : History)
      → IsFit (metrics_reply total_us network_us write_us sync_us)
      → Next (metrics_reply total_us network_us write_us sync_us) rest h
      → (print_simple_result env fd
          (header_of (metrics_reply total_us network_us write_us sync_us))
          h).0
        ≡ ok_metrics total_us network_us write_us sync_us
  unfolding print_simple_result print_ok metrics
  metrics-shown total_us network_us write_us sync_us rest h (t, n, w, s) next =
      let size = length-metrics network_us write_us sync_us in
      let (got, left) =
        filled-next env fd peer (metrics network_us write_us sync_us) rest 24 h size next in
      rw (size, got) (show_metrics-metrics total_us network_us write_us sync_us n w s)

  error-shown :
      (err_code : ℕ) (msg : Bytes) (rest : Bytes) (h : History)
      → IsMessage err_code msg
      → Next (error_reply err_code msg) rest h
      → (print_simple_result env fd (header_of (error_reply err_code msg)) h).0
        ≡ error_message err_code msg
  unfolding print_simple_result print_error
  error-shown err_code msg rest h fit next =
      let (got, left) =
        recv_body-next env fd peer (reply_body (error_reply err_code msg)) rest _ h grants refl
          next in
      ap show_error (got ∙ ap some (sym (error_payload-IsMessage err_code msg fit)))
      ∙ show_error-error_payload err_code msg fit

  listing-shown :
      (total_us : ℕ) (entries : List Dirent) (rest : Bytes) (h : History)
      → IsFit (listing_reply total_us entries)
      → Next (listing_reply total_us entries) rest h
      → (list_body env fd (header_of (listing_reply total_us entries)) h).0
        ≡ listing (length entries) total_us entries
  unfolding list_body
  listing-shown total_us entries rest h (t, all_listed, small) next =
      let (got, left) =
        recv_body-next env fd peer (reply_body (listing_reply total_us entries)) rest _ h grants
          refl next in
      ap (show_listing total_us) got ∙ show_listing-encode_entries entries total_us all_listed small

  some_bytes : (b : ℕ) (bytes : Bytes) → ltb 0 (length (b ∷ bytes)) ≡ true
  some_bytes b bytes = ground arith

  -- What is printed, and what is in the file if `fwrite` writes all.
  abbrev Saved : ℕ → ℕ → Bytes → Shown × History → Type 0
  Saved size elapsed_us bytes r =
      (r.0 ≡ downloaded size elapsed_us)
      × (((h : History) → env.fwrite h bytes ≡ length bytes) → local_content r.1 ≡ some bytes)

  save_opened-Saved :
      (size elapsed_us : ℕ) (bytes : Bytes) (h : History)
      → length bytes ≡ size
      → Saved size elapsed_us bytes
          (save_opened env size elapsed_us bytes true (fopen_write local_file true ∷ h))
  unfolding save_opened local_content
  save_opened-Saved size elapsed_us [] h e = rw (sym e) (refl, λ whole. refl)
  save_opened-Saved size elapsed_us (b ∷ bytes) h e =
      rw (sym e, some_bytes b bytes, local_content)
        (
          refl,
          λ whole.
              rw
                (
                  whole (fopen_write local_file true ∷ h),
                  take_all (length (b ∷ bytes)) (b ∷ bytes) (omega arith),
                )
                refl,
        )

  save_file-Saved :
      (size elapsed_us : ℕ) (bytes : Bytes) (r : Option Bytes × History)
      → r.0 ≡ some bytes
      → length bytes ≡ size
      → Saved size elapsed_us bytes (save_file env local_file size elapsed_us r)
  unfolding save_file
  save_file-Saved size elapsed_us bytes (x, h) e len =
      rw (e, creates h) (save_opened-Saved size elapsed_us bytes h len)

  body_read :
      (bytes rest : Bytes) (h : History)
      → pending h ≡ bytes ++ rest
      → (if ltb 0 (length bytes) then recv_body env fd (length bytes) h else (some [], h)).0
        ≡ some bytes
  body_read [] rest h next = refl
  body_read (b ∷ bytes) rest h next =
      rw (some_bytes b bytes) (recv_body-next env fd peer (b ∷ bytes) rest _ h grants refl next).0

  file-Saved :
      (total_us : ℕ) (bytes rest : Bytes) (h : History)
      → IsFit (file_reply total_us bytes)
      → Next (file_reply total_us bytes) rest h
      → Saved
          (length bytes)
          total_us
          bytes
          (download_answered env fd local_file (some (header_of (file_reply total_us bytes)), h))
  unfolding download_answered download_prefix download_sized
  file-Saved total_us bytes rest h (t, small) next =
      let size = length bytes in
      let (got, left) =
        filled-next env fd peer (write_u64 size) (bytes ++ rest) 8 h (length-write_u64 size)
          (next ∙ append_assoc (write_u64 size) bytes rest) in
      let said : read_u64 (write_u64 size) 0 ≡ some size =
        ap (λ p. read_u64 p 0) (sym (append-nil (write_u64 size)))
        ∙ read_u64-write_u64 [] [] 0 size refl (omega arith) in
      rw (got, download_prefix, said, download_sized)
        (save_file-Saved size total_us bytes _ (body_read bytes rest (recv_full env fd 8 h).1 left)
          refl)

  -- After the header has been read.
  body-shown :
      (k : Kind) (reply : Reply) (rest : Bytes) (h : History)
      → IsFit reply
      → suits k reply ≡ true
      → Next reply rest h
      → (answered k env fd local_file (some (header_of reply), h)).0 ≡ shown_of reply
  unfolding list_answered download_answered result_of
  body-shown list_kind (error_reply c m) rest h fit suited next = error-shown c m rest h fit next
  body-shown list_kind (listing_reply t es) rest h fit suited next =
      listing-shown t es rest h fit next
  body-shown list_kind (ok_reply t) rest h fit suited next = absurd (cc suited)
  body-shown list_kind (metrics_reply t n w s) rest h fit suited next = absurd (cc suited)
  body-shown list_kind (file_reply t bytes) rest h fit suited next = absurd (cc suited)
  body-shown download_kind (error_reply c m) rest h fit suited next =
      error-shown c m rest h fit next
  body-shown download_kind (file_reply t bytes) rest h fit suited next =
      (file-Saved t bytes rest h fit next).0
  body-shown download_kind (listing_reply t es) rest h fit suited next = absurd (cc suited)
  body-shown download_kind (ok_reply t) rest h fit suited next = absurd (cc suited)
  body-shown download_kind (metrics_reply t n w s) rest h fit suited next = absurd (cc suited)
  body-shown upload_kind (error_reply c m) rest h fit suited next = error-shown c m rest h fit next
  body-shown upload_kind (metrics_reply t n w s) rest h fit suited next =
      metrics-shown t n w s rest h fit next
  body-shown upload_kind (ok_reply t) rest h fit suited next = absurd (cc suited)
  body-shown upload_kind (listing_reply t es) rest h fit suited next = absurd (cc suited)
  body-shown upload_kind (file_reply t bytes) rest h fit suited next = absurd (cc suited)
  body-shown change_kind (error_reply c m) rest h fit suited next = error-shown c m rest h fit next
  body-shown change_kind (ok_reply t) rest h fit suited next = ok-shown t h
  body-shown change_kind (metrics_reply t n w s) rest h fit suited next = absurd (cc suited)
  body-shown change_kind (listing_reply t es) rest h fit suited next = absurd (cc suited)
  body-shown change_kind (file_reply t bytes) rest h fit suited next = absurd (cc suited)
  body-shown unknown_kind (error_reply c m) rest h fit suited next = error-shown c m rest h fit next
  body-shown unknown_kind (ok_reply t) rest h fit suited next = absurd (cc suited)
  body-shown unknown_kind (metrics_reply t n w s) rest h fit suited next = absurd (cc suited)
  body-shown unknown_kind (listing_reply t es) rest h fit suited next = absurd (cc suited)
  body-shown unknown_kind (file_reply t bytes) rest h fit suited next = absurd (cc suited)

  header-read :
      (reply : Reply) (rest : Bytes) (h : History)
      → IsFit reply
      → pending h ≡ reply_bytes reply ++ rest
      → ((read_response_header env fd h).0 ≡ some (header_of reply))
        × Next reply rest (read_response_header env fd h).1
  header-read reply rest h fit next =
      read_response_header-next env fd peer (reply_opcode reply) (length (reply_body reply))
        (reply_us reply) (reply_body reply ++ rest) h (opcode_fits reply) (body_fits reply fit)
        (us_fits reply fit)
        (next
          ∙ ap (λ hd. (hd ++ reply_body reply) ++ rest)
              (sym (
                response_header-wire_header (reply_opcode reply) (length (reply_body reply))
                  (reply_us reply)))
          ∙ append_assoc (serialize_header (header_of reply)) (reply_body reply) rest)

  with_header :
      (P : Option Header × History → Type 0) (x : Option Header) (r : Option Header × History)
      → r.0 ≡ x
      → P (x, r.1)
      → P r
  with_header P x (y, h) e p = rw e p

  -- With memory, a connection whose reads do not fail and a local file that can be created: each
  -- response whose fields fit, and which is an error or the one for the command, is read and printed
  -- by the client with all that it says.
  pub answered-shown_of :
      (k : Kind) (reply : Reply) (rest : Bytes) (h : History)
      → IsFit reply
      → suits k reply ≡ true
      → pending h ≡ reply_bytes reply ++ rest
      → (answered k env fd local_file (read_response_header env fd h)).0 ≡ shown_of reply
  answered-shown_of k reply rest h fit suited next =
      let (got, left) = header-read reply rest h fit next in
      with_header (λ r. (answered k env fd local_file r).0 ≡ shown_of reply) _
        (read_response_header env fd h) got
        (body-shown k reply rest (read_response_header env fd h).1 fit suited left)

  -- With memory, a connection whose reads do not fail, a local file that can be created and an
  -- `fwrite` that writes all the bytes: after the response to a download has been read, the local
  -- file holds exactly the bytes that the response carries.
  pub download_answered-local_content :
      (total_us : ℕ) (bytes rest : Bytes) (h : History)
      → ((h' : History) → env.fwrite h' bytes ≡ length bytes)
      → IsFit (file_reply total_us bytes)
      → pending h ≡ reply_bytes (file_reply total_us bytes) ++ rest
      → local_content (download_answered env fd local_file (read_response_header env fd h)).1
        ≡ some bytes
  download_answered-local_content total_us bytes rest h all_written fit next =
      let (got, left) = header-read (file_reply total_us bytes) rest h fit next in
      with_header (λ r. local_content (download_answered env fd local_file r).1 ≡ some bytes) _
        (read_response_header env fd h) got
        ((file-Saved total_us bytes rest (read_response_header env fd h).1 fit left).1 all_written)
