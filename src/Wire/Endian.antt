-- ===== src/Wire/Endian.antt =====
-- A number as `n` bytes, most significant first, and back.
use nerv_fs.Base.{
  ℕ, zero, suc, ◌+◌, ◌*◌, ◌/◌, ◌%◌, ◌<◌, ◌≡◌, refl, ap, ◌∙◌, [], ◌∷◌, ◌++◌, arith, Bytes, AreBytes,
  length, length-append, All-append,
}

-- weight n, in a form that computes at `suc n`.
abbrev pub weight : ℕ → ℕ
weight zero = 1
weight (suc n) = 256 * weight n

fold_be : ℕ → Bytes → ℕ
fold_be acc [] = acc
fold_be acc (b ∷ bs) = fold_be (acc * 256 + b) bs

unfoldable pub from_be : Bytes → ℕ
unfolding fold_be
from_be bs = fold_be 0 bs

-- Higher bytes than the last `n` are cut off.
unfoldable pub to_be : ℕ → ℕ → Bytes
to_be zero v = []
to_be (suc n) v = to_be n (v / 256) ++ v % 256 ∷ []

pub length-to_be : (n v : ℕ) → length (to_be n v) ≡ n
unfolding to_be
length-to_be zero v = refl
length-to_be (suc n) v =
    omega (arith, length-append (to_be n (v / 256)) (v % 256 ∷ []), length-to_be n (v / 256))

pub to_be-AreBytes : (n v : ℕ) → AreBytes (to_be n v)
unfolding to_be
to_be-AreBytes zero v = tt
to_be-AreBytes (suc n) v =
    All-append _ (to_be n (v / 256)) _ (to_be-AreBytes n (v / 256)) (omega arith)

fold_be-append :
    (acc : ℕ) (xs : Bytes) (b : ℕ) → fold_be acc (xs ++ b ∷ []) ≡ fold_be acc xs * 256 + b
unfolding fold_be
fold_be-append acc [] b = refl
fold_be-append acc (x ∷ xs) b = fold_be-append (acc * 256 + x) xs b

-- Writing a number that fits in `n` bytes and reading it back gives the number.
pub from_be-to_be : (n v : ℕ) → v < weight n → from_be (to_be n v) ≡ v
unfolding from_be to_be
from_be-to_be zero v h = omega arith
from_be-to_be (suc n) v h =
    omega (
      arith,
      fold_be-append 0 (to_be n (v / 256)) (v % 256),
      from_be-to_be n (v / 256) (omega arith),
    )

to_be-cons : (n b r : ℕ) → b < 256 → r < weight n → to_be (suc n) (b * weight n + r) ≡ b ∷ to_be n r
unfolding to_be
to_be-cons zero b r hb hr = ap (λ k. k ∷ []) (omega arith)
to_be-cons (suc n) b r hb hr = rw (carry, low, to_be-cons n b (r / 256) hb (omega arith))
  where
    carry : (b * weight (suc n) + r) / 256 ≡ b * weight n + r / 256
    carry = omega arith

    low : (b * weight (suc n) + r) % 256 ≡ r % 256
    low = omega arith

fold_be-split : (acc : ℕ) (bs : Bytes) → fold_be acc bs ≡ acc * weight (length bs) + fold_be 0 bs
unfolding fold_be
fold_be-split acc [] = omega arith
fold_be-split acc (b ∷ bs) =
    omega (arith, fold_be-split (acc * 256 + b) bs, fold_be-split (0 * 256 + b) bs)

from_be-cons : (b : ℕ) (bs : Bytes) → from_be (b ∷ bs) ≡ b * weight (length bs) + from_be bs
unfolding from_be
from_be-cons b bs = omega (arith, fold_be-split (0 * 256 + b) bs)

place_bound : (b w r : ℕ) → b < 256 → r < w → b * w + r < 256 * w
place_bound b w r hb hr = grind arith

pub from_be-lt : (bs : Bytes) → AreBytes bs → from_be bs < weight (length bs)
from_be-lt [] h = unfold from_be in omega arith
from_be-lt (b ∷ bs) h =
    rw (from_be-cons b bs) (place_bound b (weight (length bs)) (from_be bs) h.0 (from_be-lt bs h.1))

-- Reading bytes as a number and writing the number gives the bytes.
pub to_be-from_be : (bs : Bytes) → AreBytes bs → to_be (length bs) (from_be bs) ≡ bs
to_be-from_be [] h = unfold to_be in refl
to_be-from_be (b ∷ bs) h = rw (from_be-cons b bs) (
    to_be-cons (length bs) b (from_be bs) h.0 (from_be-lt bs h.1)
    ∙ ap (◌∷◌ b) (to_be-from_be bs h.1))
