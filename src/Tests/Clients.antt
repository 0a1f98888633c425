-- ===== src/Tests/Clients.antt =====
-- The client's requests at concrete inputs.
use nerv_fs.Base.{◌≡◌, some, arith, Bytes, length}
use nerv_fs.FileOps.Resolve.{codes}
use nerv_fs.FileOps.Resolve.Safe.{IsSafeName}
use nerv_fs.Handlers.Request.{good, parse_upload, parse_download, parse_delete, parse_chmod}
use nerv_fs.Client.{upload_payload, upload_payload_len, named_payload, chmod_payload}
use nerv_fs.Client.Requests.{
  upload_payload-parse_upload, named_payload-parse_named, chmod_payload-parse_chmod,
}

abbrev root : Bytes
root = codes "/srv"

abbrev name : Bytes
name = codes "a.txt"

name-IsSafeName : IsSafeName name
name-IsSafeName = record {
  nonempty = omega arith;
  short = omega arith;
  no_nul = omega arith;
  no_slash = omega arith;
  not_dot = λ e. absurd (cc e);
  not_dot_dot = λ e. absurd (cc e);
}

upload_payload-parse_upload_example :
    (payload : Bytes) × (upload_payload name (codes "hi") ≡ some payload)
    × (length payload ≡ upload_payload_len name 2)
    × (parse_upload root payload (length payload)
        ≡ good (record { path = codes "/srv/a.txt"; name = name; body = codes "hi" }))
upload_payload-parse_upload_example =
    upload_payload-parse_upload root name (codes "hi") name-IsSafeName (omega arith) (omega arith)

named_payload-parse_named_example :
    (payload : Bytes) × (named_payload name ≡ some payload)
    × (parse_download root payload (length payload)
        ≡ good (record { path = codes "/srv/a.txt"; name = name }))
    × (parse_delete root payload (length payload)
        ≡ good (record { path = codes "/srv/a.txt"; name = name }))
named_payload-parse_named_example =
    named_payload-parse_named root name name-IsSafeName (omega arith)

chmod_payload-parse_chmod_example :
    (payload : Bytes) × (chmod_payload name 420 ≡ some payload)
    × (parse_chmod root payload (length payload)
        ≡ good (record { path = codes "/srv/a.txt"; name = name; mode = 420 }))
chmod_payload-parse_chmod_example =
    chmod_payload-parse_chmod root name 420 name-IsSafeName (omega arith) (omega arith)
