-- ===== src/Client/Requests.antt =====
-- The server's parsers take the client's payloads apart again.
use Prim.Native.String.{String}
use nerv_fs.Base.{
  ℕ, ◌+◌, ◌-◌, ◌%◌, ◌^◌, ◌≤◌, ◌<◌, ◌≡◌, refl, sym, ap, ◌∙◌, true, false, some, [], ◌∷◌, ◌++◌, ◌>>=◌,
  append-nil, append_assoc, arith, Bytes, length, take, replicate, length-append, length-replicate,
  take_all, ltb, le→ltb_false, ◌==◌, ==_refl,
}
use nerv_fs.Wire.{
  write_u16, write_u32, write_u64, read_u16, read_u32, read_u64, length-write_u16, length-write_u32,
  length-write_u64,
}
use nerv_fs.Wire.Buffer.{load, load-append}
use nerv_fs.Wire.RoundTrip.{read_u16-write_u16, read_u32-write_u32, read_u64-write_u64}
use nerv_fs.FileOps.Resolve.{resolved, safe_resolve_path}
use nerv_fs.FileOps.Resolve.Safe.{IsSafeName, safe_resolve_path_lem}
use nerv_fs.Handlers.ListPayload.{store_piece}
use nerv_fs.Handlers.Request.{
  good, extract_name, parse_upload, parse_named, parse_download, parse_delete, parse_chmod,
}
use nerv_fs.Handlers.Sound.{extract_name-some}
use nerv_fs.Client.{upload_payload, upload_payload_len, named_payload, chmod_payload}

-- The form of an upload's payload.
abbrev upload_bytes : Bytes → Bytes → Bytes
upload_bytes name body = write_u16 (length name) ++ (name ++ (write_u64 (length body) ++ body))

drop_all_room : (left : Bytes) → length left ≡ 0 → left ≡ []
drop_all_room [] e = refl
drop_all_room (b ∷ left) e = absurd (omega arith)

module _ (name body : Bytes) (short : length name ≤ 255)
    (small : 10 + length name + length body < 2 ^ 32) where
  upload_payload-upload_bytes : upload_payload name body ≡ some (upload_bytes name body)
  unfolding upload_payload
  upload_payload-upload_bytes =
      let n = length name in
      let n_eq : n % 2 ^ 16 ≡ n = omega arith in
      let size_eq : (2 + n + 8 + length body % 2 ^ 32) % 2 ^ 32 ≡ 2 + n + 8 + length body =
        omega arith in
      let whole : take n name ≡ name = take_all n name (omega arith) in
      let (old₁, e₁, off₁, size₁) =
        store_piece [] (replicate (2 + n + 8 + length body) 0) (write_u16 n) 0 2
          (n + (8 + length body)) refl (length-write_u16 n)
          (length-replicate (2 + n + 8 + length body) 0 ∙ omega arith) in
      let (old₂, e₂, off₂, size₂) =
        store_piece (write_u16 n) old₁ name 2 n (8 + length body) off₁ refl size₁ in
      let (old₃, e₃, off₃, size₃) =
        store_piece (write_u16 n ++ name) old₂ (write_u64 (length body)) (2 + n) 8 (length body)
          off₂ (length-write_u64 (length body)) size₂ in
      let (old₄, e₄, off₄, size₄) =
        store_piece ((write_u16 n ++ name) ++ write_u64 (length body)) old₃ body (2 + n + 8)
          (length body) 0 off₃ refl (size₃ ∙ omega arith) in
      rw (n_eq, size_eq, whole, e₁, ◌>>=◌, e₂, ◌>>=◌, e₃, ◌>>=◌, e₄, drop_all_room old₄ size₄)
        (ap some (append-nil _ ∙ simp append_assoc))

-- What the two parsers have in common: a length, a name, and more.
module _ (root name more : Bytes) (safe : IsSafeName name)
    (fits : length (root ++ b'/' ∷ name) < 4096) where
  abbrev n : ℕ
  n = length name

  abbrev payload : Bytes
  payload = write_u16 (length name) ++ (name ++ more)

  name_len_read : read_u16 payload 0 ≡ some (length name)
  name_len_read =
      read_u16-write_u16 [] (name ++ more) 0 (length name) refl (omega (arith, safe.short))

  name_loaded : load payload 2 (length name) ≡ some name
  name_loaded =
      load-append (write_u16 (length name)) name more 2 (length name)
        (length-write_u16 (length name)) refl

  path_resolved :
      safe_resolve_path root payload 2 (length name) 4096 ≡ resolved (root ++ b'/' ∷ name)
  path_resolved =
      (safe_resolve_path_lem root payload 2 (length name) 4096 name (root ++ b'/' ∷ name)
          name_loaded).1
        (safe, refl, fits)

  name_extracted : extract_name payload 2 (length name) ≡ some name
  name_extracted = extract_name-some root payload 2 (length name) name name_loaded safe.short

  payload-length : length payload ≡ 2 + length name + length more
  payload-length = omega (
    arith,
    length-append (write_u16 (length name)) (name ++ more),
    length-append name more,
    length-write_u16 (length name),
  )

  before_more : length (write_u16 (length name) ++ name) ≡ 2 + length name
  before_more =
      omega (arith, length-append (write_u16 (length name)) name, length-write_u16 (length name))

module _ (root name body : Bytes) (safe : IsSafeName name)
    (fits : length (root ++ b'/' ∷ name) < 4096)
    (small : 10 + length name + length body < 2 ^ 32) where
  parse_upload-upload_bytes :
      parse_upload root (upload_bytes name body) (length (upload_bytes name body))
      ≡ good (record { path = root ++ b'/' ∷ name; name = name; body = body })
  unfolding parse_upload
  parse_upload-upload_bytes =
      let k = length name in
      let b = length body in
      let p = upload_bytes name body in
      let tail = write_u64 b ++ body in
      let len : length p ≡ 2 + k + 8 + b = omega (
        arith,
        payload-length root name tail safe fits,
        length-append (write_u64 b) body,
        length-write_u64 b,
      ) in
      let enough : ltb (2 + k + 8 + b) 2 ≡ false = le→ltb_false _ 2 (omega arith) in
      let whole : ltb (2 + k + 8 + b) (2 + k + 8) ≡ false =
        le→ltb_false _ (2 + k + 8) (omega arith) in
      let size : read_u64 p (2 + k) ≡ some b =
        ap (λ q. read_u64 q (2 + k)) (sym (append_assoc (write_u16 k) name tail))
        ∙ read_u64-write_u64 (write_u16 k ++ name) body (2 + k) b
            (before_more root name tail safe fits) (omega arith) in
      let exact : ((2 + k + 8 + b) - (2 + k + 8) == b) ≡ true =
        ap (λ m. m == b) (omega arith) ∙ ==_refl b in
      let loaded : load p (2 + k + 8) b ≡ some body =
        ap (λ q. load q (2 + k + 8) b) (sym (append-nil p) ∙ simp append_assoc)
        ∙ load-append ((write_u16 k ++ name) ++ write_u64 b) body [] (2 + k + 8) b
            (omega (
              arith,
              length-append (write_u16 k ++ name) (write_u64 b),
              before_more root name tail safe fits,
              length-write_u64 b,
            ))
            refl in
      rw
        (
          len,
          enough,
          name_len_read root name tail safe fits,
          whole,
          size,
          exact,
          path_resolved root name tail safe fits,
          name_extracted root name tail safe fits,
          loaded,
        )
        refl

-- For a safe name whose path fits and a file with which the payload is shorter than 4 GB: the
-- payload that `do_upload` builds is written inside its buffer, has the length that `do_upload`
-- announces, and `handle_upload_timed` takes it apart into that name, its path and the file's bytes.
pub upload_payload-parse_upload :
    (root name body : Bytes)
    → IsSafeName name
    → length (root ++ b'/' ∷ name) < 4096
    → 10 + length name + length body < 2 ^ 32
    → (payload : Bytes) × (upload_payload name body ≡ some payload)
      × (length payload ≡ upload_payload_len name (length body))
      × (parse_upload root payload (length payload)
          ≡ good (record { path = root ++ b'/' ∷ name; name = name; body = body }))
upload_payload-parse_upload root name body safe fits small =
    let tail = write_u64 (length body) ++ body in
    (
      upload_bytes name body,
      upload_payload-upload_bytes name body safe.short small,
      payload-length root name tail safe fits
          ∙ omega (
            arith,
            safe.short,
            length-append (write_u64 (length body)) body,
            length-write_u64 (length body),
          ),
      parse_upload-upload_bytes root name body safe fits small,
    )

module _ (name : Bytes) (short : length name ≤ 255) where
  named_payload-bytes : named_payload name ≡ some (write_u16 (length name) ++ (name ++ []))
  unfolding named_payload
  named_payload-bytes =
      let n = length name in
      let n_eq : n % 2 ^ 16 ≡ n = omega arith in
      let whole : take n name ≡ name = take_all n name (omega arith) in
      let (old₁, e₁, off₁, size₁) =
        store_piece [] (replicate (2 + n) 0) (write_u16 n) 0 2 n refl (length-write_u16 n)
          (length-replicate (2 + n) 0) in
      let (old₂, e₂, off₂, size₂) =
        store_piece (write_u16 n) old₁ name 2 n 0 off₁ refl (size₁ ∙ omega arith) in
      rw (n_eq, whole, e₁, ◌>>=◌, e₂, drop_all_room old₂ size₂)
        (ap some (append_assoc (write_u16 n) name []))

  chmod_payload-bytes :
      (mode : ℕ)
      → chmod_payload name mode ≡ some (write_u16 (length name) ++ (name ++ write_u32 mode))
  unfolding chmod_payload
  chmod_payload-bytes mode =
      let n = length name in
      let n_eq : n % 2 ^ 16 ≡ n = omega arith in
      let whole : take n name ≡ name = take_all n name (omega arith) in
      let (old₁, e₁, off₁, size₁) =
        store_piece [] (replicate (2 + n + 4) 0) (write_u16 n) 0 2 (n + 4) refl (length-write_u16 n)
          (length-replicate (2 + n + 4) 0 ∙ omega arith) in
      let (old₂, e₂, off₂, size₂) = store_piece (write_u16 n) old₁ name 2 n 4 off₁ refl size₁ in
      let (old₃, e₃, off₃, size₃) =
        store_piece (write_u16 n ++ name) old₂ (write_u32 mode) (2 + n) 4 0 off₂
          (length-write_u32 mode) (size₂ ∙ omega arith) in
      rw (n_eq, whole, e₁, ◌>>=◌, e₂, ◌>>=◌, e₃, drop_all_room old₃ size₃)
        (ap some (append-nil _ ∙ append_assoc (write_u16 n) name (write_u32 mode)))

module _ (root name : Bytes) (safe : IsSafeName name)
    (fits : length (root ++ b'/' ∷ name) < 4096) where
  abbrev named_bytes : Bytes
  named_bytes = write_u16 (length name) ++ (name ++ [])

  parse_named-named_bytes :
      (too_short malformed : String)
      → parse_named too_short malformed root named_bytes (length named_bytes)
        ≡ good (record { path = root ++ b'/' ∷ name; name = name })
  unfolding parse_named
  parse_named-named_bytes too_short malformed =
      let k = length name in
      let len : length named_bytes ≡ 2 + k = payload-length root name [] safe fits ∙ omega arith in
      let enough : ltb (2 + k) 2 ≡ false = le→ltb_false _ 2 (omega arith) in
      rw
        (
          len,
          enough,
          name_len_read root name [] safe fits,
          ==_refl (2 + k),
          path_resolved root name [] safe fits,
          name_extracted root name [] safe fits,
        )
        refl

  parse_chmod-bytes :
      (mode : ℕ)
      → mode < 2 ^ 32
      → parse_chmod root
          (write_u16 (length name) ++ (name ++ write_u32 mode))
          (length (write_u16 (length name) ++ (name ++ write_u32 mode)))
        ≡ good (record { path = root ++ b'/' ∷ name; name = name; mode = mode })
  unfolding parse_chmod
  parse_chmod-bytes mode typed =
      let k = length name in
      let p = write_u16 k ++ (name ++ write_u32 mode) in
      let len : length p ≡ 2 + k + 4 =
        payload-length root name (write_u32 mode) safe fits
        ∙ omega (arith, length-write_u32 mode) in
      let enough : ltb (2 + k + 4) 2 ≡ false = le→ltb_false _ 2 (omega arith) in
      let mode_read : read_u32 p (2 + k) ≡ some mode =
        ap (λ q. read_u32 q (2 + k))
          (ap (λ m. write_u16 k ++ (name ++ m)) (sym (append-nil (write_u32 mode)))
            ∙ sym (append_assoc (write_u16 k) name (write_u32 mode ++ [])))
        ∙ read_u32-write_u32 (write_u16 k ++ name) [] (2 + k) mode
            (before_more root name (write_u32 mode) safe fits) typed in
      rw
        (
          len,
          enough,
          name_len_read root name (write_u32 mode) safe fits,
          ==_refl (2 + k + 4),
          path_resolved root name (write_u32 mode) safe fits,
          mode_read,
          name_extracted root name (write_u32 mode) safe fits,
        )
        refl

-- For a safe name whose path fits, the payload that `do_download` and `do_delete` build is written
-- inside its buffer, and `handle_download` and `handle_delete` take it apart into that name and its
-- path.
pub named_payload-parse_named :
    (root name : Bytes)
    → IsSafeName name
    → length (root ++ b'/' ∷ name) < 4096
    → (payload : Bytes) × (named_payload name ≡ some payload)
      × (parse_download root payload (length payload)
          ≡ good (record { path = root ++ b'/' ∷ name; name = name }))
      × (parse_delete root payload (length payload)
          ≡ good (record { path = root ++ b'/' ∷ name; name = name }))
unfolding parse_download parse_delete
named_payload-parse_named root name safe fits = (
  named_bytes root name safe fits,
  named_payload-bytes name safe.short,
  parse_named-named_bytes root name safe fits _ _,
  parse_named-named_bytes root name safe fits _ _,
)

-- For a safe name whose path fits and a mode below 2^32, the payload that `do_chmod` builds is
-- written inside its buffer, and `handle_chmod` takes it apart into that name, its path and that
-- mode.
pub chmod_payload-parse_chmod :
    (root name : Bytes) (mode : ℕ)
    → IsSafeName name
    → length (root ++ b'/' ∷ name) < 4096
    → mode < 2 ^ 32
    → (payload : Bytes) × (chmod_payload name mode ≡ some payload)
      × (parse_chmod root payload (length payload)
          ≡ good (record { path = root ++ b'/' ∷ name; name = name; mode = mode }))
chmod_payload-parse_chmod root name mode safe fits typed = (
  write_u16 (length name) ++ (name ++ write_u32 mode),
  chmod_payload-bytes name safe.short mode,
  parse_chmod-bytes root name safe fits mode typed,
)
