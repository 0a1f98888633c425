-- ===== src/FileOps/Resolve/Safe.antt =====
-- Exactly the safe names are resolved, each to a path of its own right below the storage root.
use nerv_fs.Base.{
  ℕ, zero, suc, ◌≤◌, ◌<◌, ◌≡◌, refl, ap, ◌≢◌, ◌↔◌, false, some, [], ◌∷◌, ◌++◌, arith, Bytes, All,
  length, str_eq, str_eq_iff,
}
use nerv_fs.Wire.Buffer.{load, length-load}
use nerv_fs.FileOps.Resolve.{c_str, contains, dot, dot_dot, resolved, check_name, safe_resolve_path}

-- A name of 1 to 255 bytes, with no NUL and no slash, other than the two directory entries.
pub record IsSafeName (name : Bytes) : Type 0 where
  pub nonempty : 0 < length name
  pub short : length name ≤ 255
  pub no_nul : All (λ b. b ≢ 0) name
  pub no_slash : All (λ b. b ≢ b'/') name
  pub not_dot : name ≢ dot
  pub not_dot_dot : name ≢ dot_dot

c_str-append : (bs : Bytes) → All (λ b. b ≢ 0) bs → c_str (bs ++ 0 ∷ []) ≡ bs
c_str-append [] h = refl
c_str-append (zero ∷ bs) h = absurd (h.0 refl)
c_str-append (suc b ∷ bs) h = ap (◌∷◌ (suc b)) (c_str-append bs h.1)

length-c_str : (bs : Bytes) → length (c_str (bs ++ 0 ∷ [])) ≤ length bs
length-c_str [] = omega arith
length-c_str (zero ∷ bs) = omega arith
length-c_str (suc b ∷ bs) = omega (arith, length-c_str bs)

-- A string of the claimed length has no NUL in it.
c_str-full : (bs : Bytes) → length (c_str (bs ++ 0 ∷ [])) ≡ length bs → All (λ b. b ≢ 0) bs
c_str-full [] h = tt
c_str-full (zero ∷ bs) h = absurd (omega arith)
c_str-full (suc b ∷ bs) h = (λ e. omega arith, c_str-full bs (omega arith))

contains-false : (c : ℕ) (bs : Bytes) → All (λ b. b ≢ c) bs → contains c bs ≡ false
contains-false c [] h = refl
contains-false c (b ∷ bs) h = ground (arith, contains-false c bs h.1, h.0)

pub contains-none : (c : ℕ) (bs : Bytes) → contains c bs ≡ false → All (λ b. b ≢ c) bs
contains-none c [] h = tt
contains-none c (b ∷ bs) h = (ground arith, contains-none c bs (ground arith))

record Passes (root s : Bytes) (name_len out_size : ℕ) (path : Bytes) : Type 0 where
  whole : length s ≡ name_len
  no_slash : contains b'/' s ≡ false
  not_dot : str_eq s dot ≡ false
  not_dot_dot : str_eq s dot_dot ≡ false
  fits : length (root ++ b'/' ∷ s) < out_size
  path_eq : path ≡ root ++ b'/' ∷ s

check_name-Passes :
    (root s : Bytes) (name_len out_size : ℕ) (path : Bytes)
    → (check_name root s name_len out_size ≡ resolved path) ↔ Passes root s name_len out_size path
unfolding check_name
check_name-Passes root s name_len out_size path = (λ e. ground arith, λ p. ground arith)

safe_resolve_path-check_name :
    (root buf : Bytes) (off name_len out_size : ℕ) (name path : Bytes)
    → load buf off name_len ≡ some name
    → (safe_resolve_path root buf off name_len out_size ≡ resolved path) ↔ (
        (0 < name_len)
        × (name_len ≤ 255)
        × (check_name root (c_str (name ++ 0 ∷ [])) name_len out_size ≡ resolved path))
unfolding safe_resolve_path
safe_resolve_path-check_name root buf off name_len out_size name path e =
    (λ h. ground arith, λ h. ground arith)

str_eq-false : (xs ys : Bytes) → str_eq xs ys ≡ false → xs ≢ ys
str_eq-false xs ys h e = absurd (ground (arith, str_eq_iff xs ys))

ne→str_eq-false : (xs ys : Bytes) → xs ≢ ys → str_eq xs ys ≡ false
ne→str_eq-false xs ys h = ground (arith, str_eq_iff xs ys)

module _ (root name : Bytes) (out_size : ℕ) (path : Bytes) where
  safe-Passes :
      IsSafeName name
      → path ≡ root ++ b'/' ∷ name
      → length path < out_size
      → Passes root (c_str (name ++ 0 ∷ [])) (length name) out_size path
  safe-Passes safe path_eq fits = rw (c_str-append name safe.no_nul) (record {
    whole = refl;
    no_slash = contains-false b'/' name safe.no_slash;
    not_dot = ne→str_eq-false name dot safe.not_dot;
    not_dot_dot = ne→str_eq-false name dot_dot safe.not_dot_dot;
    fits = rw path_eq at fits;
    path_eq = path_eq;
  })

  Passes-safe :
      0 < length name
      → length name ≤ 255
      → Passes root (c_str (name ++ 0 ∷ [])) (length name) out_size path
      → IsSafeName name × (path ≡ root ++ b'/' ∷ name) × (length path < out_size)
  Passes-safe pos short p =
      let no_nul = c_str-full name p.whole in
      let q = rw (c_str-append name no_nul) at p in
      (
        record {
          nonempty = pos;
          short = short;
          no_nul = no_nul;
          no_slash = contains-none b'/' name q.no_slash;
          not_dot = str_eq-false name dot q.not_dot;
          not_dot_dot = str_eq-false name dot_dot q.not_dot_dot;
        },
        q.path_eq,
        rw q.path_eq q.fits,
      )

-- The name of `name_len` bytes in the buffer is resolved exactly when it is safe (1 to 255 bytes, no
-- NUL, no slash, not `.` or `..`) and its path fits with its NUL, and then to the path of that name
-- right below the root.
pub safe_resolve_path_lem :
    (root buf : Bytes) (off name_len out_size : ℕ) (name path : Bytes)
    → load buf off name_len ≡ some name
    → (safe_resolve_path root buf off name_len out_size ≡ resolved path)
      ↔ (IsSafeName name × (path ≡ root ++ b'/' ∷ name) × (length path < out_size))
safe_resolve_path_lem root buf off name_len out_size name path at_off =
    let len = length-load buf off name_len name at_off in
    let run = safe_resolve_path-check_name root buf off name_len out_size name path at_off in
    let passes = check_name-Passes root (c_str (name ++ 0 ∷ [])) name_len out_size path in
    (
      λ e.
          let (pos, short, checked) = run.0 e in
          Passes-safe root name out_size path (omega arith) (omega arith)
            (rw len (passes.0 checked)),
      λ (safe, path_eq, fits).
          let p = safe-Passes root name out_size path safe path_eq fits in
          run.1 (omega (arith, safe.nonempty), omega (arith, safe.short), passes.1 (rw len at p)),
    )
