-- ===== src/Tests/Exchanges.antt =====
-- Requests and responses between client and server at concrete inputs.
use nerv_fs.Base.{◌≡◌, refl, true, some, List, [], ◌∷◌, ◌++◌, arith, Bytes, length, drop}
use nerv_fs.Os.{History, close}
use nerv_fs.Wire.{write_u32}
use nerv_fs.FileOps.Resolve.{codes}
use nerv_fs.FileOps.Listing.{Dirent}
use nerv_fs.Protocol.RoundTrip.{wire_header}
use nerv_fs.Protocol.Transfer.{sent, written}
use nerv_fs.Handlers.Reply.{
  Reply, file_reply, reply_bytes, IsListed, IsFit, suits, upload_kind, download_kind,
}
use nerv_fs.Handlers.ListPayload.{encode_entries}
use nerv_fs.Handlers.Answer.{Answered}
use nerv_fs.ThreadPool.{Job}
use nerv_fs.ThreadPool.Process.{process_job}
use nerv_fs.ThreadPool.Answers.{process_job-answers}
use nerv_fs.Client.Exchange.{listing, send_request, read_response_header}
use nerv_fs.Client.Listing.{show_listing}
use nerv_fs.Client.Commands.{download_answered}
use nerv_fs.Client.Decode.{show_listing-encode_entries}
use nerv_fs.Client.Answers.Shown.{
  shown_of, answered, local_content, answered-shown_of, download_answered-local_content,
}
use nerv_fs.Client.EndToEnd.{send_request_lem, process_job-shown}
use nerv_fs.Tests.Samples.{calm_with, pending_of, calm-IsPeer, calm-TakesAll, calm-IsServer}

-- An upload of two bytes to the name "a".
abbrev payload : Bytes
payload = 0 ∷ 1 ∷ b'a' ∷ 0 ∷ 0 ∷ 0 ∷ 0 ∷ 0 ∷ 0 ∷ 0 ∷ 2 ∷ codes "hi"

abbrev job : Job
job = record {
  client_fd = 4;
  header = record { magic = 0xAE; version = 1; opcode = 1; payload_len = 13; reserved = 0 };
}

process_job-answers_example :
    (h' : History) × (process_job (calm_with payload) (codes "/srv") job [] ≡ close 4 ∷ h')
    × Answered 4 (written 4 []) upload_kind h'
process_job-answers_example =
    process_job-answers (calm_with payload) (codes "/srv") job (pending_of payload) []
      (calm-IsServer payload) (record { proper = tt; lock_eq = refl; file_eq = refl }) (omega arith)

send_request_lem_example :
    ((send_request (calm_with []) 4 1 payload 13 []).0 ≡ sent 0)
    × (written 4 (send_request (calm_with []) 4 1 payload 13 []).1
        ≡ written 4 [] ++ (wire_header 1 13 0 ++ payload))
send_request_lem_example = send_request_lem (calm_with []) 4 (calm-TakesAll []) 1 payload []

-- What the server writes to the connection of that job.
abbrev response : Bytes
response =
    drop (length (written 4 [])) (written 4 (process_job (calm_with payload) (codes "/srv") job []))

process_job-shown_example :
    (r : Reply) × IsFit r
    × (suits upload_kind r ≡ true)
    × (written 4 (process_job (calm_with payload) (codes "/srv") job [])
        ≡ written 4 [] ++ reply_bytes r)
    × ((answered upload_kind
          (calm_with response)
          4
          (codes "x")
          (read_response_header (calm_with response) 4 [])).0
        ≡ shown_of r)
process_job-shown_example =
    process_job-shown (calm_with payload) (codes "/srv") job (pending_of payload) []
      (calm-IsServer payload) (record { proper = tt; lock_eq = refl; file_eq = refl }) (omega arith)
      (calm_with response) 4 (pending_of response) (calm-IsPeer response) (λ h n. refl) (codes "x")
      (λ h. refl) [] refl

abbrev file : Reply
file = file_reply 7 (codes "hi")

answered-shown_of_example :
    (answered download_kind
      (calm_with (reply_bytes file ++ []))
      4
      (codes "x")
      (read_response_header (calm_with (reply_bytes file ++ [])) 4 [])).0
    ≡ shown_of file
answered-shown_of_example =
    answered-shown_of (calm_with (reply_bytes file ++ [])) 4 (calm-IsPeer (reply_bytes file ++ []))
      (λ h n. refl) (codes "x") (λ h. refl) download_kind file [] [] (omega arith, omega arith) refl
      refl

download_answered-local_content_example :
    local_content
      (download_answered
        (calm_with (reply_bytes file ++ []))
        4
        (codes "x")
        (read_response_header (calm_with (reply_bytes file ++ [])) 4 [])).1
    ≡ some (codes "hi")
download_answered-local_content_example =
    download_answered-local_content (calm_with (reply_bytes file ++ [])) 4
      (calm-IsPeer (reply_bytes file ++ [])) (λ h n. refl) (codes "x") (λ h. refl) 7 (codes "hi") []
      [] (λ h. refl) (omega arith, omega arith) refl

abbrev two_entries : List Dirent
two_entries =
    record { name = codes "a.txt"; size = 5; mode = 420 }
    ∷ record { name = codes "b"; size = 0; mode = 384 }
    ∷ []

a-IsListed : IsListed (record { name = codes "a.txt"; size = 5; mode = 420 })
a-IsListed = record {
  short = omega arith;
  no_nul = omega arith;
  size_fits = omega arith;
  mode_fits = omega arith;
}

b-IsListed : IsListed (record { name = codes "b"; size = 0; mode = 384 })
b-IsListed = record {
  short = omega arith;
  no_nul = omega arith;
  size_fits = omega arith;
  mode_fits = omega arith;
}

show_listing-encode_entries_example :
    show_listing 7 (some (write_u32 (length two_entries) ++ encode_entries two_entries))
    ≡ listing 2 7 two_entries
show_listing-encode_entries_example =
    show_listing-encode_entries two_entries 7 (a-IsListed, (b-IsListed, tt)) (omega arith)
