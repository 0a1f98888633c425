-- ===== src/Client/Decode.antt =====
-- `do_list` reads back what `handle_list` of src/handlers.c has written.
use nerv_fs.Base.{
  ℕ, zero, suc, ◌+◌, ◌%◌, ◌^◌, ◌<◌, ◌≡◌, ◌≢◌, refl, sym, ap, ◌∙◌, some, List, [], ◌∷◌, ◌++◌, ◌>>=◌,
  append_assoc, arith, All, Bytes, length, le→ltb_false, length-append,
}
use nerv_fs.Wire.{
  read_u16, read_u32, read_u64, write_u16, write_u32, write_u64, length-write_u16, length-write_u32,
  length-write_u64,
}
use nerv_fs.Wire.Buffer.{load, load-append}
use nerv_fs.Wire.RoundTrip.{read_u16-write_u16, read_u32-write_u32, read_u64-write_u64}
use nerv_fs.FileOps.Resolve.{c_str}
use nerv_fs.FileOps.Listing.{Dirent}
use nerv_fs.Handlers.ListPayload.{
  encode_entry, encode_entries, entries_size, length-le-entries_size,
}
use nerv_fs.Handlers.Reply.{IsListed}
use nerv_fs.Client.Exchange.{listing}
use nerv_fs.Client.Listing.{entry_name, decode_entries, show_listing}

pub c_str-All : (bs : Bytes) → All (λ b. b ≢ 0) bs → c_str bs ≡ bs
c_str-All [] h = refl
c_str-All (zero ∷ bs) h = absurd (h.0 refl)
c_str-All (suc b ∷ bs) h = ap (◌∷◌ (suc b)) (c_str-All bs h.1)

module _ (e : Dirent) (ok : IsListed e) (done rest : Bytes) (off : ℕ)
    (at_off : length done ≡ off) where
  abbrev k : ℕ
  k = length e.name

  abbrev buf : Bytes
  buf = done ++ (encode_entry e ++ rest)

  nlen_read : read_u16 buf off ≡ some (length e.name)
  nlen_read =
      ap (λ p. read_u16 p off) (simp append_assoc)
      ∙ read_u16-write_u16 done (e.name ++ (write_u64 e.size ++ (write_u32 e.mode ++ rest))) off
          (length e.name) at_off (omega (arith, ok.short))

  name_read : load buf (off + 2) (length e.name) ≡ some e.name
  name_read =
      ap (λ p. load p (off + 2) (length e.name)) (simp append_assoc)
      ∙ load-append (done ++ write_u16 (length e.name)) e.name
          (write_u64 e.size ++ (write_u32 e.mode ++ rest)) (off + 2) (length e.name)
          (omega (
            arith,
            at_off,
            length-append done (write_u16 (length e.name)),
            length-write_u16 (length e.name),
          ))
          refl

  name_end : length ((done ++ write_u16 (length e.name)) ++ e.name) ≡ off + 2 + length e.name
  name_end = omega (
    arith,
    at_off,
    length-append (done ++ write_u16 (length e.name)) e.name,
    length-append done (write_u16 (length e.name)),
    length-write_u16 (length e.name),
  )

  size_end :
      length (((done ++ write_u16 (length e.name)) ++ e.name) ++ write_u64 e.size)
      ≡ off + 2 + length e.name + 8
  size_end = omega (
    arith,
    name_end,
    length-append ((done ++ write_u16 (length e.name)) ++ e.name) (write_u64 e.size),
    length-write_u64 e.size,
  )

  size_read : read_u64 buf (off + 2 + length e.name) ≡ some e.size
  size_read =
      ap (λ p. read_u64 p (off + 2 + length e.name)) (simp append_assoc)
      ∙ read_u64-write_u64 ((done ++ write_u16 (length e.name)) ++ e.name)
          (write_u32 e.mode ++ rest) (off + 2 + length e.name) e.size name_end ok.size_fits

  mode_read : read_u32 buf (off + 2 + length e.name + 8) ≡ some e.mode
  mode_read =
      ap (λ p. read_u32 p (off + 2 + length e.name + 8)) (simp append_assoc)
      ∙ read_u32-write_u32 (((done ++ write_u16 (length e.name)) ++ e.name) ++ write_u64 e.size)
          rest (off + 2 + length e.name + 8) e.mode size_end ok.mode_fits

  entry_end : length (done ++ encode_entry e) ≡ off + 2 + length e.name + 8 + 4
  entry_end =
      ap length (simp append_assoc)
      ∙ length-append (((done ++ write_u16 (length e.name)) ++ e.name) ++ write_u64 e.size)
          (write_u32 e.mode)
      ∙ omega (arith, size_end, length-write_u32 e.mode)

  entry_name_read : entry_name buf (off + 2) (length e.name) ≡ some e.name
  unfolding entry_name
  entry_name_read =
      rw (le→ltb_false 255 (length e.name) ok.short, name_read, ◌>>=◌)
        (ap some (c_str-All e.name ok.no_nul))

decode_entries-encode_entries :
    (entries : List Dirent) (done : Bytes) (off : ℕ)
    → All IsListed entries
    → length done ≡ off
    → off + entries_size entries < 2 ^ 32
    → decode_entries (length entries) off (done ++ encode_entries entries) ≡ some entries
unfolding decode_entries encode_entries
decode_entries-encode_entries [] done off ok at_off small = refl
decode_entries-encode_entries (e ∷ entries) done off ok at_off small =
    let more = encode_entries entries in
    let k = length e.name in
    let off₁ : (off + 2) % 2 ^ 32 ≡ off + 2 = omega arith in
    let off₂ : (off + 2 + k) % 2 ^ 32 ≡ off + 2 + k = omega arith in
    let off₃ : (off + 2 + k + 8) % 2 ^ 32 ≡ off + 2 + k + 8 = omega arith in
    let off₄ : (off + 2 + k + 8 + 4) % 2 ^ 32 ≡ off + 2 + k + 8 + 4 = omega arith in
    let rest : decode_entries (length entries) (off + 2 + k + 8 + 4)
          (done ++ (encode_entry e ++ more))
        ≡ some entries =
      ap (decode_entries (length entries) (off + 2 + k + 8 + 4))
        (sym (append_assoc done (encode_entry e) more))
      ∙ decode_entries-encode_entries entries (done ++ encode_entry e) (off + 2 + k + 8 + 4) ok.1
          (entry_end e ok.0 done more off at_off) (omega arith) in
    rw
      (
        nlen_read e ok.0 done more off at_off,
        off₁,
        off₂,
        off₃,
        off₄,
        entry_name_read e ok.0 done more off at_off,
        size_read e ok.0 done more off at_off,
        mode_read e ok.0 done more off at_off,
        rest,
      )
      refl

-- For entries with names that are C strings of at most 255 bytes and numbers within their types,
-- whose payload is shorter than 4 GB: `do_list` reads back from the payload that `handle_list`
-- writes exactly these entries, without leaving a buffer.
pub show_listing-encode_entries :
    (entries : List Dirent) (elapsed_us : ℕ)
    → All IsListed entries
    → 4 + entries_size entries < 2 ^ 32
    → show_listing elapsed_us (some (write_u32 (length entries) ++ encode_entries entries))
      ≡ listing (length entries) elapsed_us entries
unfolding show_listing
show_listing-encode_entries entries elapsed_us ok small =
    rw
      (
        read_u32-write_u32 [] (encode_entries entries) 0 (length entries) refl
            (omega (arith, length-le-entries_size entries)),
        decode_entries-encode_entries entries (write_u32 (length entries)) 4 ok
            (length-write_u32 (length entries)) small,
      )
      refl
