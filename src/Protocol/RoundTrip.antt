-- ===== src/Protocol/RoundTrip.antt =====
-- `parse_header` and `serialize_header` undo one another.
use nerv_fs.Base.{
  ℕ, ◌≡◌, refl, ap, ◌∙◌, Bool, some, [], ◌∷◌, ◌++◌, append_assoc, arith, Bytes, AreBytes, length,
  get_elem?, take, drop, ◌>>=◌, take-split, drop-drop, length-append,
}
use nerv_fs.Wire.{
  read_u16, read_u32, read_u64, write_u16, write_u32, write_u64, length-write_u16, length-write_u32,
  length-write_u64,
}
use nerv_fs.Wire.RoundTrip.{
  read_u16-write_u16, read_u32-write_u32, read_u64-write_u64, write_u16-read_u16,
  write_u32-read_u32, write_u64-read_u64,
}
use nerv_fs.Protocol.Header.{Header, IsTyped, parse_header, serialize_header, accepts}

-- The 16 bytes of a header after docs/api_reference.md: magic, version, opcode, length of the payload, and
-- the field `reserved`.
abbrev pub wire_header : ℕ → ℕ → ℕ → Bytes
wire_header opcode payload_len reserved =
    0xAE ∷ 1 ∷ write_u16 opcode ++ (write_u32 payload_len ++ write_u64 reserved)

-- The fields as they stand in the buffer determine the result.
pub parse_header-fields :
    (buf : Bytes) (h : Header)
    → get_elem? buf 0 ≡ some h.magic
    → get_elem? buf 1 ≡ some h.version
    → read_u16 buf 2 ≡ some h.opcode
    → read_u32 buf 4 ≡ some h.payload_len
    → read_u64 buf 8 ≡ some h.reserved
    → parse_header buf ≡ some (accepts h, h)
unfolding parse_header
parse_header-fields buf h e0 e1 e2 e4 e8 = rw (e0, ◌>>=◌, e1, ◌>>=◌, e2, ◌>>=◌, e4, ◌>>=◌, e8)

-- A header whose fields fit their C types is read back from any buffer that starts with it, with the
-- flag for magic and version.
pub parse_header-serialize_header :
    (h : Header) (rest : Bytes)
    → IsTyped h
    → parse_header (serialize_header h ++ rest) ≡ some (accepts h, h)
unfolding serialize_header
parse_header-serialize_header h rest t =
    parse_header-fields (serialize_header h ++ rest) h refl refl
      (ap (λ buf. read_u16 buf 2) (append_assoc (m ∷ v ∷ op) (len ++ res) rest)
        ∙ read_u16-write_u16 (m ∷ v ∷ []) ((len ++ res) ++ rest) 2 h.opcode refl t.opcode_fits)
      (ap (λ buf. read_u32 buf 4) (simp append_assoc)
        ∙ read_u32-write_u32 (m ∷ v ∷ op) (res ++ rest) 4 h.payload_len before_len
            t.payload_len_fits)
      (ap (λ buf. read_u64 buf 8) (simp append_assoc)
        ∙ read_u64-write_u64 (m ∷ v ∷ op ++ len) rest 8 h.reserved before_res t.reserved_fits)
  where
    m : ℕ
    m = h.magic

    v : ℕ
    v = h.version

    op : Bytes
    op = write_u16 h.opcode

    len : Bytes
    len = write_u32 h.payload_len

    res : Bytes
    res = write_u64 h.reserved

    before_len : length (m ∷ v ∷ op) ≡ 4
    before_len = omega (arith, length-write_u16 h.opcode)

    before_res : length (m ∷ v ∷ op ++ len) ≡ 8
    before_res =
        omega
          (arith, length-append op len, length-write_u16 h.opcode, length-write_u32 h.payload_len)

record Fields (buf : Bytes) (h : Header) : Type 0 where
  magic : get_elem? buf 0 ≡ some h.magic
  version : get_elem? buf 1 ≡ some h.version
  opcode : read_u16 buf 2 ≡ some h.opcode
  payload_len : read_u32 buf 4 ≡ some h.payload_len
  reserved : read_u64 buf 8 ≡ some h.reserved

parse_header-Fields :
    (buf : Bytes) {ok : Bool} {h : Header} → parse_header buf ≡ some (ok, h) → Fields buf h
unfolding parse_header
parse_header-Fields buf e = ground arith

take_two :
    (buf : Bytes) {m v : ℕ}
    → get_elem? buf 0 ≡ some m
    → get_elem? buf 1 ≡ some v
    → take 2 buf ≡ m ∷ v ∷ []
take_two [] p q = absurd (cc p)
take_two (x ∷ []) p q = absurd (cc q)
take_two (x ∷ y ∷ buf) p q = ground arith

-- Every header that is parsed out of a buffer of bytes is written back as the buffer's first 16
-- bytes, also one that is rejected for its magic or version.
pub serialize_header-parse_header :
    (buf : Bytes) {ok : Bool} {h : Header}
    → AreBytes buf
    → parse_header buf ≡ some (ok, h)
    → serialize_header h ≡ take 16 buf
unfolding serialize_header
serialize_header-parse_header buf {ok} {h} bytes e =
    let f = parse_header-Fields buf e in
    rw (
      take-split 2 14 16 buf refl,
      take-split 2 12 14 (drop 2 buf) refl,
      take-split 4 8 12 (drop 2 (drop 2 buf)) refl,
      drop-drop 2 2 4 buf refl,
      drop-drop 4 4 8 buf refl,
      take_two buf f.magic f.version,
      ← write_u16-read_u16 buf 2 h.opcode bytes f.opcode,
      ← write_u32-read_u32 buf 4 h.payload_len bytes f.payload_len,
      ← write_u64-read_u64 buf 8 h.reserved bytes f.reserved,
    )

pub length-serialize_header : (hd : Header) → length (serialize_header hd) ≡ 16
unfolding serialize_header
length-serialize_header hd = omega (
  arith,
  length-append (write_u16 hd.opcode) (write_u32 hd.payload_len ++ write_u64 hd.reserved),
  length-append (write_u32 hd.payload_len) (write_u64 hd.reserved),
  length-write_u16 hd.opcode,
  length-write_u32 hd.payload_len,
  length-write_u64 hd.reserved,
)
