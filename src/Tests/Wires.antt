-- ===== src/Tests/Wires.antt =====
-- Headers, transfers, names and the clock at concrete inputs.
use nerv_fs.Base.{◌-◌, ◌/◌, ◌<◌, ◌≡◌, refl, false, some, [], ◌∷◌, ◌++◌, arith, Bytes, length, take}
use mathlib.Core.Logic.{◌↔◌}
use nerv_fs.Wire.{read_u16, read_u32, read_u64}
use nerv_fs.Wire.Buffer.{load}
use nerv_fs.Tests.Samples.{stream_bytes, calm, calm-IsStream, calm-IsSink, pending}
use nerv_fs.Protocol.Header.{Header, accepts, parse_header, serialize_header}
use nerv_fs.Protocol.RoundTrip.{parse_header-serialize_header, serialize_header-parse_header}
use nerv_fs.Protocol.Transfer.{received, sent, recv_full, send_full}
use nerv_fs.Protocol.Transfer.Receive.{Delivers, recv_full_lem}
use nerv_fs.Protocol.Transfer.Send.{Sends, send_full_lem}
use nerv_fs.FileOps.Resolve.{resolved, refused, safe_resolve_path, codes}
use nerv_fs.FileOps.Resolve.Safe.{IsSafeName, safe_resolve_path_lem}
use nerv_fs.Clock.{elapsed_microseconds, elapsed_microseconds_lem, nanoseconds}

abbrev upload_header : Header
upload_header = record { magic = 0xAE; version = 1; opcode = 1; payload_len = 300; reserved = 0 }

parse_header-serialize_header_example :
    parse_header (serialize_header upload_header ++ 7 ∷ [])
    ≡ some (accepts upload_header, upload_header)
parse_header-serialize_header_example =
    parse_header-serialize_header upload_header (7 ∷ []) (record {
      magic_fits = omega arith;
      version_fits = omega arith;
      opcode_fits = omega arith;
      payload_len_fits = omega arith;
      reserved_fits = omega arith;
    })

-- A header with another magic number, and two bytes more.
abbrev other_magic : Bytes
other_magic = 9 ∷ 1 ∷ 0 ∷ 2 ∷ 0 ∷ 0 ∷ 1 ∷ 4 ∷ 0 ∷ 0 ∷ 0 ∷ 0 ∷ 0 ∷ 0 ∷ 0 ∷ 5 ∷ 6 ∷ 7 ∷ []

abbrev other_header : Header
other_header = record { magic = 9; version = 1; opcode = 2; payload_len = 260; reserved = 5 }

other_magic-parsed : parse_header other_magic ≡ some (false, other_header)
unfolding parse_header read_u16 read_u32 read_u64
other_magic-parsed = refl

serialize_header-parse_header_example : serialize_header other_header ≡ take 16 other_magic
serialize_header-parse_header_example =
    serialize_header-parse_header other_magic (omega arith) other_magic-parsed

elapsed_microseconds_lem_example :
    elapsed_microseconds (record { sec = 7; nsec = 999999000 }) (record { sec = 9; nsec = 1500 })
    ≡ (nanoseconds (record { sec = 9; nsec = 1500 })
        - nanoseconds (record { sec = 7; nsec = 999999000 }))
      / 1000
elapsed_microseconds_lem_example =
    elapsed_microseconds_lem (record { sec = 7; nsec = 999999000 })
      (record { sec = 9; nsec = 1500 }) (record { nsec_lt = omega arith; sec_lt = omega arith })
      (record { nsec_lt = omega arith; sec_lt = omega arith }) (omega arith)

abbrev name_payload : Bytes
name_payload = 0 ∷ 5 ∷ codes "a.txt"

safe_resolve_path_lem_example :
    (safe_resolve_path (codes "/srv") name_payload 2 5 4096 ≡ resolved (codes "/srv/a.txt")) ↔ (
      IsSafeName (codes "a.txt")
      × (codes "/srv/a.txt" ≡ codes "/srv" ++ b'/' ∷ codes "a.txt")
      × (length (codes "/srv/a.txt") < 4096))
unfolding load
safe_resolve_path_lem_example =
    safe_resolve_path_lem (codes "/srv") name_payload 2 5 4096 (codes "a.txt") (codes "/srv/a.txt")
      refl

recv_full_lem_example : Delivers 4 pending 3 [] [] (recv_full calm 4 3 [])
recv_full_lem_example = recv_full_lem (calm-IsStream stream_bytes) 3 []

send_full_lem_example : Sends 4 (codes "reply") [] (send_full calm 4 (codes "reply") [])
send_full_lem_example = send_full_lem calm 4 (codes "reply") [] (calm-IsSink stream_bytes)

-- Three reads of a byte each.
recv_full_run : (recv_full calm 4 3 []).0 ≡ received (0xAE ∷ 1 ∷ 0 ∷ [])
unfolding recv_full
recv_full_run = refl

send_full_run : (send_full calm 4 (codes "reply") []).0 ≡ sent 5
unfolding send_full
send_full_run = refl

-- A name with a slash is refused.
safe_resolve_path_run : safe_resolve_path (codes "/srv") (codes "../x") 0 4 4096 ≡ refused
unfolding safe_resolve_path load
safe_resolve_path_run = refl
