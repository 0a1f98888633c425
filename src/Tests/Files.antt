-- ===== src/Tests/Files.antt =====
-- Operations on whole files, and a header's types, at concrete inputs.
use nerv_fs.Wire.{write_u16, write_u32, write_u64}
use nerv_fs.Base.{Bool, true, take, ◌↔◌, ◌++◌, ◌≡◌, ◌≢◌, refl, some, [], ◌∷◌, arith}
use nerv_fs.Os.{History, Env, close, fstat, open_read}
use nerv_fs.FileOps.Resolve.{codes}
use nerv_fs.Protocol.Header.{Header, IsTyped, parse_header}
use nerv_fs.Protocol.Typed.{parse_header-IsTyped}
use nerv_fs.Protocol.Transfer.{Received, send_full}
use nerv_fs.FileOps.Whole.{fileops_write_fd, fileops_read_file}
use nerv_fs.FileOps.Whole.Writes.{like_send, fileops_write_fd-send_full}
use nerv_fs.FileOps.Whole.Reads.{ReadsWhole, fileops_read_file-ReadsWhole, fileops_read_file-closes}
use nerv_fs.Tests.Samples.{calm, pending, stream_bytes, calm-IsStream}
use nerv_fs.Protocol.Transfer.Peer.{IsPeer}

-- Files get descriptor 4, which the samples are about.
abbrev file_env : Env
file_env = record calm { open_read = λ h path. some 4; open_write = λ h path. some 4 }

file-IsPeer : IsPeer file_env 4 pending
file-IsPeer = record {
  stream = record {
    bounded = (calm-IsStream stream_bytes).bounded;
    in_order = (calm-IsStream stream_bytes).in_order;
    ends = (calm-IsStream stream_bytes).ends;
  };
  answers = λ h n e. absurd (cc e);
  steady = λ h n granted. refl;
  timeless = λ h now. refl;
}

fileops_read_file-ReadsWhole_example :
    ReadsWhole 4 5
      (pending (fstat 4 (some 5) ∷ open_read (codes "/srv/a") (some 4) ∷ []))
      (fileops_read_file file_env (codes "/srv/a") [])
fileops_read_file-ReadsWhole_example =
    fileops_read_file-ReadsWhole file_env (codes "/srv/a") 4 5 pending [] refl refl (λ h n. refl)
      file-IsPeer (omega arith)

fileops_read_file-closes_example :
    ((fileops_read_file file_env (codes "/srv/a") []).0 ≢ Received.spinning)
    × ((h' : History) × ((fileops_read_file file_env (codes "/srv/a") []).1 ≡ close 4 ∷ h'))
fileops_read_file-closes_example = fileops_read_file-closes file_env (codes "/srv/a") 4 [] refl

fileops_write_fd-send_full_example :
    fileops_write_fd calm 4 (codes "hi") [] ≡ like_send (send_full calm 4 (codes "hi") [])
fileops_write_fd-send_full_example = fileops_write_fd-send_full calm 4 (codes "hi") []

parse_header-IsTyped_example :
    (good : Bool) × (h : Header) × (parse_header stream_bytes ≡ some (good, h))
    × (take 16 stream_bytes
        ≡ h.magic ∷ h.version ∷ write_u16 h.opcode
          ++ (write_u32 h.payload_len ++ write_u64 h.reserved))
    × ((good ≡ true) ↔ ((h.magic ≡ 0xAE) × (h.version ≡ 1)))
    × IsTyped h
parse_header-IsTyped_example = parse_header-IsTyped stream_bytes (omega arith) (omega arith)
