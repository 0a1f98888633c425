-- ===== src/Handlers/Sound.antt =====
-- The payload parsers stay inside the payload, and what they accept is a safe name with its path.
use nerv_fs.Base.{
  ℕ, ◌+◌, ◌-◌, ◌≤◌, ◌≡◌, refl, ◌≢◌, ◌⊎◌, inl, inr, some, [], ◌∷◌, ◌++◌, arith, Bytes, length, ltb,
  le→ltb_false, ◌==◌, Bool-cases,
}
use Prim.Native.String.{String}
use nerv_fs.Wire.Bounds.{read_u16_total, read_u32_total, read_u64_total}
use nerv_fs.Wire.Buffer.{load, load_total, length-load}
use nerv_fs.Protocol.{err_bad_request, err_forbidden}
use nerv_fs.FileOps.Resolve.{
  codes, Resolved, resolved, refused, faulty, safe_resolve_path, check_name, c_str,
}
use nerv_fs.FileOps.Resolve.Safe.{IsSafeName, safe_resolve_path_lem}
use nerv_fs.FileOps.Listing.{path_max}
use nerv_fs.Handlers.Reply.{IsMessage, literal}
use nerv_fs.Handlers.Request.{
  Checked, good, bad, broken, extract_name, parse_upload, parse_named, parse_download, parse_delete,
  parse_chmod,
}

-- A name that a handler may go on with, and its path.
pub record IsPathOf (root path name : Bytes) : Type 0 where
  pub path_eq : path ≡ root ++ b'/' ∷ name
  pub safe : IsSafeName name

-- Good requests hold a safe name and its path, errors a message, and no access was outside the payload.
abbrev pub Sound {ℓ} : {A : Type ℓ} → (A → Type 0) → Checked A → Type 0
Sound P (good a) = P a
Sound P (bad err_code msg) = IsMessage err_code msg
Sound P broken = ⊥

Resolved-cases :
    (r : Resolved) → (r ≡ refused) ⊎ ((path : Bytes) × (r ≡ resolved path)) ⊎ (r ≡ faulty)
Resolved-cases refused = inl refl
Resolved-cases (resolved path) = inr (inl (path, refl))
Resolved-cases faulty = inr (inr refl)

check_name-not_faulty : (root s : Bytes) (n size : ℕ) → check_name root s n size ≢ faulty
unfolding check_name
check_name-not_faulty root s n size e = absurd (ground arith)

module _ (root payload : Bytes) (off n : ℕ) (name : Bytes)
    (at_off : load payload off n ≡ some name) where
  not_faulty : safe_resolve_path root payload off n path_max ≢ faulty
  unfolding safe_resolve_path
  not_faulty e =
      absurd (ground (arith, check_name-not_faulty root (c_str (name ++ 0 ∷ [])) n path_max))

  pub extract_name-some : n ≤ 255 → extract_name payload off n ≡ some name
  unfolding extract_name
  extract_name-some h = rw (le→ltb_false 255 n h) at_off

  resolve-cases :
      (safe_resolve_path root payload off n path_max ≡ refused)
      ⊎ ((path : Bytes) × (safe_resolve_path root payload off n path_max ≡ resolved path)
          × IsPathOf root path name
          × (extract_name payload off n ≡ some name))
  resolve-cases = elim (Resolved-cases (safe_resolve_path root payload off n path_max)) [
    | inl e ↦ inl e
    | inr (inl (path, e)) ↦
        let (safe, path_eq, fits) =
          (safe_resolve_path_lem root payload off n path_max name path at_off).0 e in
        let len = length-load payload off n name at_off in
        inr (
          path,
          e,
          record { path_eq = path_eq; safe = safe },
          extract_name-some (omega (arith, safe.short)),
        )
    | inr (inr e) ↦ absurd (not_faulty e)
  ]

-- The messages of the parsers.
forbidden : IsMessage err_forbidden (codes "invalid filename")
forbidden = literal _ _ refl

module _ (root payload : Bytes) where
  pub parse_named-Sound :
      (too_short malformed : String) (len : ℕ)
      → IsMessage err_bad_request (codes too_short)
      → IsMessage err_bad_request (codes malformed)
      → length payload ≡ len
      → Sound (λ r. IsPathOf root r.path r.name) (parse_named too_short malformed root payload len)
  unfolding parse_named
  parse_named-Sound too_short malformed len short_ok malformed_ok e =
      elim (Bool-cases (ltb len 2)) [
        | inl short ↦ rw short short_ok
        | inr enough ↦
            let (n, n_eq) = read_u16_total payload 0 (ground arith) in
            elim (Bool-cases (len == 2 + n)) [
              | inl exact ↦
                  elim (resolve-cases root payload 2 n _ (load_total payload 2 n (ground arith))) [
                    | inl r ↦ rw (enough, n_eq, exact, r) forbidden
                    | inr (path, r, ok, extracted) ↦ rw (enough, n_eq, exact, r, extracted) ok
                  ]
              | inr off ↦ rw (enough, n_eq, off) malformed_ok
            ]
      ]

  pub parse_chmod-Sound :
      (len : ℕ)
      → length payload ≡ len
      → Sound (λ r. IsPathOf root r.path r.name) (parse_chmod root payload len)
  unfolding parse_chmod
  parse_chmod-Sound len e = elim (Bool-cases (ltb len 2)) [
    | inl short ↦ rw short (literal _ _ refl)
    | inr enough ↦
        let (n, n_eq) = read_u16_total payload 0 (ground arith) in
        elim (Bool-cases (len == 2 + n + 4)) [
          | inl exact ↦
              let (mode, mode_eq) = read_u32_total payload (2 + n) (ground arith) in
              elim (resolve-cases root payload 2 n _ (load_total payload 2 n (ground arith))) [
                | inl r ↦ rw (enough, n_eq, exact, r) forbidden
                | inr (path, r, ok, extracted) ↦ rw (enough, n_eq, exact, r, mode_eq, extracted) ok
              ]
          | inr off ↦ rw (enough, n_eq, off) (literal _ _ refl)
        ]
  ]

  pub parse_upload-Sound :
      (len : ℕ)
      → length payload ≡ len
      → Sound (λ r. IsPathOf root r.path r.name) (parse_upload root payload len)
  unfolding parse_upload
  parse_upload-Sound len e = elim (Bool-cases (ltb len 2)) [
    | inl short ↦ rw short (literal _ _ refl)
    | inr enough ↦
        let (n, n_eq) = read_u16_total payload 0 (ground arith) in
        elim (Bool-cases (ltb len (2 + n + 8))) [
          | inl cut ↦ rw (enough, n_eq, cut) (literal _ _ refl)
          | inr whole ↦
              let (size, size_eq) = read_u64_total payload (2 + n) (ground arith) in
              elim (Bool-cases (len - (2 + n + 8) == size)) [
                | inl exact ↦
                    let body_eq = load_total payload (2 + n + 8) size (ground arith) in
                    elim (resolve-cases root payload 2 n _
                      (load_total payload 2 n (ground arith))) [
                        | inl r ↦ rw (enough, n_eq, whole, size_eq, exact, r) forbidden
                        | inr (path, r, ok, extracted) ↦
                            rw (enough, n_eq, whole, size_eq, exact, r, extracted, body_eq) ok
                      ]
                | inr off ↦ rw (enough, n_eq, whole, size_eq, off) (literal _ _ refl)
              ]
        ]
  ]

  pub parse_download-Sound :
      (len : ℕ)
      → length payload ≡ len
      → Sound (λ r. IsPathOf root r.path r.name) (parse_download root payload len)
  unfolding parse_download
  parse_download-Sound len =
      parse_named-Sound "download payload too short" "download payload malformed" len
        (literal _ _ refl) (literal _ _ refl)

  pub parse_delete-Sound :
      (len : ℕ)
      → length payload ≡ len
      → Sound (λ r. IsPathOf root r.path r.name) (parse_delete root payload len)
  unfolding parse_delete
  parse_delete-Sound len =
      parse_named-Sound "delete payload too short" "delete payload malformed" len (literal _ _ refl)
        (literal _ _ refl)
