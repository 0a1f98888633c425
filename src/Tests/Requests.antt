-- ===== src/Tests/Requests.antt =====
-- Requests at concrete inputs.
use nerv_fs.Base.{◌+◌, ◌≡◌, refl, some, List, [], ◌∷◌, ◌++◌, arith, Bytes, length}
use nerv_fs.Wire.{write_u32}
use nerv_fs.FileOps.Resolve.{codes}
use nerv_fs.FileOps.Listing.{Dirent}
use nerv_fs.Protocol.Header.{Header}
use nerv_fs.Handlers.{dispatch_request_timed}
use nerv_fs.Handlers.Listing.{list_len, fill_list}
use nerv_fs.Handlers.ListPayload.{encode_entries, entries_size, fill_list_lem}
use nerv_fs.Protocol.Transfer.{written}
use nerv_fs.Handlers.Reply.{upload_kind}
use nerv_fs.Handlers.Answer.{Answered}
use nerv_fs.Handlers.Answer.Dispatch.{dispatch-Answered}
use nerv_fs.Tests.Samples.{
  stream_bytes, calm-IsStorage, calm-IsReliable, calm-HasShortFiles, calm, calm-Maps,
  calm-IsListable, tick_at,
}

-- An upload of two bytes to the name "a".
abbrev upload_payload : Bytes
upload_payload = 0 ∷ 1 ∷ b'a' ∷ 0 ∷ 0 ∷ 0 ∷ 0 ∷ 0 ∷ 0 ∷ 0 ∷ 2 ∷ codes "hi"

abbrev upload_header : Header
upload_header = record { magic = 0xAE; version = 1; opcode = 1; payload_len = 13; reserved = 0 }

dispatch-Answered_example :
    Answered 4
      (written 4 [])
      upload_kind
      (dispatch_request_timed calm (codes "/srv") 4 upload_header upload_payload tick_at [])
dispatch-Answered_example =
    dispatch-Answered calm 4 (calm-IsReliable stream_bytes) (calm-Maps stream_bytes)
      (calm-HasShortFiles stream_bytes) (calm-IsListable stream_bytes) (calm-IsStorage stream_bytes)
      (codes "/srv") upload_header upload_payload tick_at [] refl
      (record { proper = tt; lock_eq = refl; file_eq = refl })

abbrev two_entries : List Dirent
two_entries =
    record { name = codes "a.txt"; size = 5; mode = 420 }
    ∷ record { name = codes "b"; size = 0; mode = 384 }
    ∷ []

fill_list_lem_example :
    (list_len 4 two_entries ≡ 4 + entries_size two_entries)
    × (fill_list two_entries (list_len 4 two_entries)
        ≡ some (write_u32 (length two_entries) ++ encode_entries two_entries))
fill_list_lem_example = fill_list_lem two_entries (omega arith, (omega arith, tt)) (omega arith)
