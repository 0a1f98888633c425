-- ===== src/Wire.antt =====
-- Big-endian integers in byte buffers, as src/handlers.c and client/nervfs_client.c read and write
-- them: `memcpy` with `ntohs`, `ntohl` or `be64toh`, and back. An access outside the buffer is `none`.
pub mod Endian
pub mod Buffer
pub mod RoundTrip
pub mod Bounds
use nerv_fs.Base.{ℕ, ◌≡◌, Option, Bytes, length}
use mathlib.Core.Option
use Endian.{from_be, to_be, length-to_be}
use Buffer.{load}

unfoldable pub read_u16 : Bytes → ℕ → Option ℕ
unfolding load from_be
read_u16 p off = Option.map from_be (load p off 2)

unfoldable pub read_u32 : Bytes → ℕ → Option ℕ
unfolding load from_be
read_u32 p off = Option.map from_be (load p off 4)

unfoldable pub read_u64 : Bytes → ℕ → Option ℕ
unfolding load from_be
read_u64 p off = Option.map from_be (load p off 8)

unfoldable pub write_u16 : ℕ → Bytes
unfolding to_be
write_u16 v = to_be 2 v

unfoldable pub write_u32 : ℕ → Bytes
unfolding to_be
write_u32 v = to_be 4 v

unfoldable pub write_u64 : ℕ → Bytes
unfolding to_be
write_u64 v = to_be 8 v

pub length-write_u16 : (v : ℕ) → length (write_u16 v) ≡ 2
unfolding write_u16
length-write_u16 v = length-to_be 2 v

pub length-write_u32 : (v : ℕ) → length (write_u32 v) ≡ 4
unfolding write_u32
length-write_u32 v = length-to_be 4 v

pub length-write_u64 : (v : ℕ) → length (write_u64 v) ≡ 8
unfolding write_u64
length-write_u64 v = length-to_be 8 v
