-- ===== src/Protocol/Header.antt =====
-- `nervfs_header_t`, `parse_header` and `serialize_header` of src/protocol.c.
use nerv_fs.Base.{ℕ, ◌^◌, ◌<◌, Bool, ◌&&◌, Option, some, ◌∷◌, ◌++◌, Bytes, get_elem?, ◌==◌, ◌>>=◌}
use nerv_fs.Wire.{read_u16, read_u32, read_u64, write_u16, write_u32, write_u64}

abbrev pub nervfs_magic : ℕ
nervfs_magic = 0xAE

abbrev pub nervfs_version : ℕ
nervfs_version = 1

abbrev pub nervfs_header_size : ℕ
nervfs_header_size = 16

pub record Header : Type 0 where
  pub magic : ℕ
  pub version : ℕ
  pub opcode : ℕ
  pub payload_len : ℕ
  pub reserved : ℕ

-- The fields are within their C types.
pub record IsTyped (h : Header) : Type 0 where
  pub magic_fits : h.magic < 2 ^ 8
  pub version_fits : h.version < 2 ^ 8
  pub opcode_fits : h.opcode < 2 ^ 16
  pub payload_len_fits : h.payload_len < 2 ^ 32
  pub reserved_fits : h.reserved < 2 ^ 64

-- The test on magic and version at the end of `parse_header`.
unfoldable pub accepts : Header → Bool
accepts h = h.magic == nervfs_magic && h.version == nervfs_version

-- The flag is true for a return of 0. All fields are filled in either way; `none` is a read outside
-- the buffer.
unfoldable pub parse_header : Bytes → Option (Bool × Header)
unfolding accepts
parse_header buf = do
  magic ← get_elem? buf 0
  version ← get_elem? buf 1
  opcode ← read_u16 buf 2
  payload_len ← read_u32 buf 4
  reserved ← read_u64 buf 8
  let h : Header = record {
    magic = magic;
    version = version;
    opcode = opcode;
    payload_len = payload_len;
    reserved = reserved;
  }
  some (accepts h, h)

unfoldable pub serialize_header : Header → Bytes
serialize_header h =
    h.magic ∷ h.version ∷ write_u16 h.opcode ++ (write_u32 h.payload_len ++ write_u64 h.reserved)
