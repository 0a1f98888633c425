-- ===== src/Protocol/Typed.antt =====
-- `parse_header` on any buffer of 16 bytes.
use nerv_fs.Base.{
  Bool, true, sym, take, ◌↔◌, ◌++◌, ◌≤◌, ◌≡◌, refl, some, [], ◌∷◌, arith, Bytes, AreBytes, length,
}
use nerv_fs.Wire.{write_u16, write_u32, write_u64}
use nerv_fs.Wire.Bounds.{
  read_u16_total, read_u32_total, read_u64_total, read_u16-lt, read_u32-lt, read_u64-lt,
}
use nerv_fs.Protocol.Header.{Header, IsTyped, accepts, parse_header, serialize_header}
use nerv_fs.Protocol.RoundTrip.{parse_header-fields, serialize_header-parse_header}

pub parse_header_total :
    (buf : Bytes) → 16 ≤ length buf → (h : Header) × (parse_header buf ≡ some (accepts h, h))
parse_header_total [] len = absurd (omega arith)
parse_header_total (b ∷ []) len = absurd (omega arith)
parse_header_total (m ∷ v ∷ buf) len =
    let (opcode, e2) = read_u16_total (m ∷ v ∷ buf) 2 (omega arith) in
    let (payload_len, e4) = read_u32_total (m ∷ v ∷ buf) 4 (omega arith) in
    let (reserved, e8) = read_u64_total (m ∷ v ∷ buf) 8 (omega arith) in
    let h : Header = record {
      magic = m;
      version = v;
      opcode = opcode;
      payload_len = payload_len;
      reserved = reserved;
    } in
    (h, parse_header-fields (m ∷ v ∷ buf) h refl refl e2 e4 e8)

parse_header-fills :
    (buf : Bytes)
    → AreBytes buf
    → 16 ≤ length buf
    → (h : Header) × (parse_header buf ≡ some (accepts h, h)) × IsTyped h
parse_header-fills [] bytes len = absurd (omega arith)
parse_header-fills (b ∷ []) bytes len = absurd (omega arith)
parse_header-fills (m ∷ v ∷ buf) bytes len =
    let (opcode, e2, fits2) = read_u16-lt (m ∷ v ∷ buf) 2 bytes (omega arith) in
    let (payload_len, e4, fits4) = read_u32-lt (m ∷ v ∷ buf) 4 bytes (omega arith) in
    let (reserved, e8, fits8) = read_u64-lt (m ∷ v ∷ buf) 8 bytes (omega arith) in
    let h : Header = record {
      magic = m;
      version = v;
      opcode = opcode;
      payload_len = payload_len;
      reserved = reserved;
    } in
    (
      h,
      parse_header-fields (m ∷ v ∷ buf) h refl refl e2 e4 e8,
      record {
        magic_fits = bytes.0;
        version_fits = bytes.1.0;
        opcode_fits = fits2;
        payload_len_fits = fits4;
        reserved_fits = fits8;
      },
    )

accepts-good : (h : Header) → (accepts h ≡ true) ↔ ((h.magic ≡ 0xAE) × (h.version ≡ 1))
unfolding accepts
accepts-good h = ground arith

-- On any buffer of at least 16 bytes, `parse_header` reads inside the buffer; the five fields that
-- it fills in fit their C types and are, in big-endian and in the order of the protocol, the
-- buffer's first 16 bytes; and it accepts exactly the headers with magic 0xAE and version 1.
pub parse_header-IsTyped :
    (buf : Bytes)
    → AreBytes buf
    → 16 ≤ length buf
    → (good : Bool) × (h : Header) × (parse_header buf ≡ some (good, h))
      × (take 16 buf
          ≡ h.magic ∷ h.version ∷ write_u16 h.opcode
            ++ (write_u32 h.payload_len ++ write_u64 h.reserved))
      × ((good ≡ true) ↔ ((h.magic ≡ 0xAE) × (h.version ≡ 1)))
      × IsTyped h
parse_header-IsTyped buf bytes len =
    let (h, parsed, typed) = parse_header-fills buf bytes len in
    let layout : serialize_header h ≡ take 16 buf =
      serialize_header-parse_header buf bytes parsed in
    (accepts h, h, parsed, unfold serialize_header in sym layout, accepts-good h, typed)
