-- ===== src/Wire/RoundTrip.antt =====
-- The fixed-width reads and writes of a buffer undo one another.
use mathlib.Core.Option
use mathlib.Core.Option.{some-injective}
use nerv_fs.Base.{
  ℕ, ◌^◌, sym, Option-cases, ◌<◌, ◌≡◌, ap, ◌∙◌, some, ◌++◌, Bytes, AreBytes, length, take, drop,
  inl, inr, All-take, All-drop,
}
use nerv_fs.Wire.{read_u16, read_u32, read_u64, write_u16, write_u32, write_u64}
use nerv_fs.Wire.Endian.{weight, from_be, to_be, length-to_be, from_be-to_be, to_be-from_be}
use nerv_fs.Wire.Buffer.{load, load-append, load-some}

-- A number in the middle of a buffer is read back from there.
read_be-to_be :
    (n : ℕ) (pre post : Bytes) (off v : ℕ)
    → length pre ≡ off
    → v < weight n
    → Option.map from_be (load (pre ++ (to_be n v ++ post)) off n) ≡ some v
read_be-to_be n pre post off v hp hv =
    ap (Option.map from_be) (load-append pre (to_be n v) post off n hp (length-to_be n v))
    ∙ ap some (from_be-to_be n v hv)

module _ (pre post : Bytes) (off v : ℕ) (at_off : length pre ≡ off) where
  pub read_u16-write_u16 : v < 2 ^ 16 → read_u16 (pre ++ (write_u16 v ++ post)) off ≡ some v
  unfolding read_u16 write_u16
  read_u16-write_u16 hv = read_be-to_be 2 pre post off v at_off hv

  pub read_u32-write_u32 : v < 2 ^ 32 → read_u32 (pre ++ (write_u32 v ++ post)) off ≡ some v
  unfolding read_u32 write_u32
  read_u32-write_u32 hv = read_be-to_be 4 pre post off v at_off hv

  pub read_u64-write_u64 : v < 2 ^ 64 → read_u64 (pre ++ (write_u64 v ++ post)) off ≡ some v
  unfolding read_u64 write_u64
  read_u64-write_u64 hv = read_be-to_be 8 pre post off v at_off hv

to_be-read_be :
    (n : ℕ) (p : Bytes) (off v : ℕ)
    → AreBytes p
    → Option.map from_be (load p off n) ≡ some v
    → (to_be n v ≡ take n (drop off p))
to_be-read_be n p off v hp h = elim (Option-cases (load p off n)) [
  | inl e ↦ absurd (cc e)
  | inr (ys, e) ↦
      let (ys_eq, len) = load-some p off n ys e in
      let ys_bytes : AreBytes ys = rw ys_eq (All-take _ n (drop off p) (All-drop _ off p hp)) in
      let v_eq : v ≡ from_be ys = some-injective _ _ (sym h ∙ ap (Option.map from_be) e) in
      rw (v_eq, ← len) (to_be-from_be ys ys_bytes) ∙ ys_eq
]

module _ (p : Bytes) (off v : ℕ) (bytes : AreBytes p) where
  pub write_u16-read_u16 : read_u16 p off ≡ some v → write_u16 v ≡ take 2 (drop off p)
  unfolding read_u16 write_u16
  write_u16-read_u16 h = to_be-read_be 2 p off v bytes h

  pub write_u32-read_u32 : read_u32 p off ≡ some v → write_u32 v ≡ take 4 (drop off p)
  unfolding read_u32 write_u32
  write_u32-read_u32 h = to_be-read_be 4 p off v bytes h

  pub write_u64-read_u64 : read_u64 p off ≡ some v → write_u64 v ≡ take 8 (drop off p)
  unfolding read_u64 write_u64
  write_u64-read_u64 h = to_be-read_be 8 p off v bytes h
