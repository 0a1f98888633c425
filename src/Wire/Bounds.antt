-- ===== src/Wire/Bounds.antt =====
-- Reads inside a buffer of src/handlers.c give numbers, which fit their types if the buffer holds bytes.
use nerv_fs.Base.{
  ℕ, ◌+◌, ◌^◌, ◌≤◌, ◌<◌, ◌≡◌, ap, subst, some, arith, Bytes, AreBytes, length, take, drop,
  length-take, length-drop, All-take, All-drop,
}
use mathlib.Core.Option
use nerv_fs.Wire.{read_u16, read_u32, read_u64}
use nerv_fs.Wire.Buffer.{load_total}
use nerv_fs.Wire.Endian.{from_be, weight, from_be-lt}

module _ (p : Bytes) (off : ℕ) where
  pub read_u16_total : off + 2 ≤ length p → (v : ℕ) × (read_u16 p off ≡ some v)
  unfolding read_u16
  read_u16_total h = (_, ap (Option.map from_be) (load_total p off 2 h))

  pub read_u32_total : off + 4 ≤ length p → (v : ℕ) × (read_u32 p off ≡ some v)
  unfolding read_u32
  read_u32_total h = (_, ap (Option.map from_be) (load_total p off 4 h))

  pub read_u64_total : off + 8 ≤ length p → (v : ℕ) × (read_u64 p off ≡ some v)
  unfolding read_u64
  read_u64_total h = (_, ap (Option.map from_be) (load_total p off 8 h))

  read-lt : (n : ℕ) → AreBytes p → off + n ≤ length p → from_be (take n (drop off p)) < weight n
  read-lt n bytes h =
      let size : length (take n (drop off p)) ≡ n =
        omega (arith, length-take n (drop off p), length-drop off p) in
      subst (λ k. from_be (take n (drop off p)) < weight k) size
        (from_be-lt (take n (drop off p)) (All-take _ n (drop off p) (All-drop _ off p bytes)))

  pub read_u16-lt :
      AreBytes p → off + 2 ≤ length p → (v : ℕ) × (read_u16 p off ≡ some v) × (v < 2 ^ 16)
  unfolding read_u16
  read_u16-lt bytes h = (_, ap (Option.map from_be) (load_total p off 2 h), read-lt 2 bytes h)

  pub read_u32-lt :
      AreBytes p → off + 4 ≤ length p → (v : ℕ) × (read_u32 p off ≡ some v) × (v < 2 ^ 32)
  unfolding read_u32
  read_u32-lt bytes h = (_, ap (Option.map from_be) (load_total p off 4 h), read-lt 4 bytes h)

  pub read_u64-lt :
      AreBytes p → off + 8 ≤ length p → (v : ℕ) × (read_u64 p off ≡ some v) × (v < 2 ^ 64)
  unfolding read_u64
  read_u64-lt bytes h = (_, ap (Option.map from_be) (load_total p off 8 h), read-lt 8 bytes h)
