-- ===== src/Wire/Buffer.antt =====
-- `memcpy` out of and into a buffer. `none` is an access outside the buffer.
use mathlib.Core.Option
use nerv_fs.Base.{
  ap, ◌∙◌, ◌+◌, inl, inr, Bool-cases, ==_iff, length-take, length-drop, ℕ, zero, suc, ◌≤◌, ◌≡◌,
  refl, Option, none, some, [], ◌∷◌, ◌++◌, arith, Bytes, length, take, drop, ◌==◌, ==_refl,
  if◌then◌else◌, take-append, drop-append,
}

-- `n` bytes from offset `off` on.
unfoldable pub load : Bytes → ℕ → ℕ → Option Bytes
load p off n = let xs = take n (drop off p) in if length xs == n then some xs else none

overwrite : Bytes → Bytes → Option Bytes
overwrite buf [] = some buf
overwrite [] (x ∷ xs) = none
overwrite (b ∷ buf) (x ∷ xs) = Option.map (◌∷◌ x) (overwrite buf xs)

-- Copies bytes into the buffer from offset `off` on.
unfoldable pub store : Bytes → ℕ → Bytes → Option Bytes
unfolding overwrite
store buf zero xs = overwrite buf xs
store [] (suc off) xs = none
store (b ∷ buf) (suc off) xs = Option.map (◌∷◌ b) (store buf off xs)

-- A copy out of the middle of a buffer gives the middle.
pub load-append :
    (pre mid post : Bytes) (off n : ℕ)
    → length pre ≡ off
    → length mid ≡ n
    → load (pre ++ (mid ++ post)) off n ≡ some mid
unfolding load
load-append pre mid post off n hp hm =
    rw (load, drop-append off pre (mid ++ post) hp, take-append n mid post hm, hm, ==_refl n)

overwrite_lem :
    (old xs : Bytes) → length xs ≤ length old → overwrite old xs ≡ some (xs ++ drop (length xs) old)
unfolding overwrite
overwrite_lem old [] h = refl
overwrite_lem [] (x ∷ xs) h = absurd (omega arith)
overwrite_lem (b ∷ old) (x ∷ xs) h = rw (overwrite_lem old xs (omega arith))

-- A copy that fits overwrites the bytes at its place and keeps those before and after.
pub store_lem :
    (done old xs : Bytes) (off : ℕ)
    → length done ≡ off
    → length xs ≤ length old
    → store (done ++ old) off xs ≡ some ((done ++ xs) ++ drop (length xs) old)
unfolding store
store_lem [] old xs zero hd hx = overwrite_lem old xs hx
store_lem [] old xs (suc off) hd hx = absurd (omega arith)
store_lem (d ∷ done) old xs zero hd hx = absurd (omega arith)
store_lem (d ∷ done) old xs (suc off) hd hx = rw (store_lem done old xs off (omega arith) hx)

pub load-some :
    (p : Bytes) (off n : ℕ) (ys : Bytes)
    → load p off n ≡ some ys
    → (ys ≡ take n (drop off p)) × (length ys ≡ n)
unfolding load
load-some p off n ys h = elim (Bool-cases (length (take n (drop off p)) == n)) [
  | inl e ↦
      let ys_eq : ys ≡ take n (drop off p) = ground arith in
      (ys_eq, ap length ys_eq ∙ (==_iff _ n).0 e)
  | inr e ↦ absurd (ground arith)
]

pub length-load : (p : Bytes) (off n : ℕ) (ys : Bytes) → load p off n ≡ some ys → length ys ≡ n
length-load p off n ys h = (load-some p off n ys h).1

-- A copy out succeeds inside the buffer.
pub load_total :
    (p : Bytes) (off n : ℕ) → off + n ≤ length p → load p off n ≡ some (take n (drop off p))
unfolding load
load_total p off n h =
    let len : length (take n (drop off p)) ≡ n =
      omega (arith, length-take n (drop off p), length-drop off p) in
    rw (len, ==_refl n)
