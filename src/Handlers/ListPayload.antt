-- ===== src/Handlers/ListPayload.antt =====
-- The payload that `handle_list` builds, against a description of its format.
use nerv_fs.Base.{
  ◌*◌, ℕ, ◌+◌, ◌%◌, ◌^◌, ◌≤◌, ◌<◌, ◌≡◌, refl, ap, ◌∙◌, some, List, [], ◌∷◌, ◌++◌, append_assoc,
  arith, All, Bytes, length, take, drop, replicate, length-append, length-drop, length-replicate,
  take_all,
}
use nerv_fs.Wire.{
  write_u16, write_u32, write_u64, length-write_u16, length-write_u32, length-write_u64,
}
use nerv_fs.Wire.Buffer.{store, store_lem}
use nerv_fs.FileOps.Listing.{Dirent}
use nerv_fs.Handlers.Listing.{list_len, fill_entries, fill_list}

-- `[2B name_len][name][8B size][4B mode]`
abbrev pub encode_entry : Dirent → Bytes
encode_entry e = write_u16 (length e.name) ++ (e.name ++ (write_u64 e.size ++ write_u32 e.mode))

unfoldable pub encode_entries : List Dirent → Bytes
encode_entries [] = []
encode_entries (e ∷ entries) = encode_entry e ++ encode_entries entries

-- The number of those bytes.
abbrev pub entries_size : List Dirent → ℕ
entries_size [] = 0
entries_size (e ∷ entries) = (14 + length e.name) + entries_size entries

abbrev pub HaveShortNames : List Dirent → Type 0
HaveShortNames = All (λ e. length e.name ≤ 255)

list_len-entries_size :
    (n : ℕ) (entries : List Dirent)
    → n + entries_size entries < 2 ^ 32
    → list_len n entries ≡ n + entries_size entries
unfolding list_len
list_len-entries_size n [] h = omega arith
list_len-entries_size n (e ∷ entries) h =
    let fits : (n + (2 + length e.name + 8 + 4)) % 2 ^ 32 ≡ n + (14 + length e.name) =
      omega arith in
    rw fits (list_len-entries_size (n + (14 + length e.name)) entries (omega arith) ∙ omega arith)

-- One copy: it moves the border between what is written and what is left.
pub store_piece :
    (done old xs : Bytes) (off n m : ℕ)
    → length done ≡ off
    → length xs ≡ n
    → length old ≡ n + m
    → (left : Bytes) × (store (done ++ old) off xs ≡ some ((done ++ xs) ++ left))
      × (length (done ++ xs) ≡ off + n)
      × (length left ≡ m)
store_piece done old xs off n m at_off size room = (
  drop (length xs) old,
  store_lem done old xs off at_off (omega arith),
  omega (arith, length-append done xs),
  omega (arith, length-drop (length xs) old),
)

-- A buffer with just room for the entries is filled with them.
fill_entries_lem :
    (entries : List Dirent) (done old : Bytes) (off : ℕ)
    → HaveShortNames entries
    → length done ≡ off
    → length old ≡ entries_size entries
    → fill_entries entries off (done ++ old) ≡ some (done ++ encode_entries entries)
unfolding fill_entries encode_entries
fill_entries_lem [] done [] off short at_off size = refl
fill_entries_lem [] done (b ∷ old) off short at_off size = absurd (omega arith)
fill_entries_lem (e ∷ entries) done old off short at_off size =
    let n = length e.name in
    let n_eq : n % 2 ^ 16 ≡ n = omega (arith, short.0) in
    let whole : take n e.name ≡ e.name = take_all n e.name (omega arith) in
    let a = write_u16 n in
    let c = write_u64 e.size in
    let d = write_u32 e.mode in
    let more = entries_size entries in
    let (old₁, e₁, off₁, size₁) =
      store_piece done old a off 2 (n + (8 + (4 + more))) at_off (length-write_u16 n)
        (omega arith) in
    let (old₂, e₂, off₂, size₂) =
      store_piece (done ++ a) old₁ e.name (off + 2) n (8 + (4 + more)) off₁ refl size₁ in
    let (old₃, e₃, off₃, size₃) =
      store_piece ((done ++ a) ++ e.name) old₂ c (off + 2 + n) 8 (4 + more) off₂
        (length-write_u64 e.size) size₂ in
    let (old₄, e₄, off₄, size₄) =
      store_piece (((done ++ a) ++ e.name) ++ c) old₃ d (off + 2 + n + 8) 4 more off₃
        (length-write_u32 e.mode) size₃ in
    rw (n_eq, whole, e₁, e₂, e₃, e₄)
      (fill_entries_lem entries ((((done ++ a) ++ e.name) ++ c) ++ d) old₄ (off + 2 + n + 8 + 4)
          short.1 off₄ size₄
        ∙ ap some (simp append_assoc))

-- The payload that `handle_list` sends for entries with names of at most 255 bytes: if it is shorter
-- than 4 GB, both loops agree on its length, no write leaves the buffer, and it holds the number of
-- the entries followed by the entries.
pub fill_list_lem :
    (entries : List Dirent)
    → HaveShortNames entries
    → 4 + entries_size entries < 2 ^ 32
    → (list_len 4 entries ≡ 4 + entries_size entries)
      × (fill_list entries (list_len 4 entries)
          ≡ some (write_u32 (length entries) ++ encode_entries entries))
unfolding fill_list
fill_list_lem entries short small =
    let len = list_len-entries_size 4 entries small in
    let count = write_u32 (length entries) in
    let (left, e, off, size) =
      store_piece [] (replicate (4 + entries_size entries) 0) count 0 4 (entries_size entries) refl
        (length-write_u32 (length entries)) (length-replicate (4 + entries_size entries) 0) in
    (
      len,
      rw (len, e)
          (fill_entries_lem entries count left 4 short (length-write_u32 (length entries)) size),
    )

-- The payload's length, from the number of the entries.
pub entries_size-bound :
    (entries : List Dirent) → HaveShortNames entries → entries_size entries ≤ 269 * length entries
entries_size-bound [] short = omega arith
entries_size-bound (e ∷ entries) short = omega (arith, short.0, entries_size-bound entries short.1)

pub length-encode_entries :
    (entries : List Dirent) → length (encode_entries entries) ≡ entries_size entries
unfolding encode_entries
length-encode_entries [] = refl
length-encode_entries (e ∷ entries) = omega (
  arith,
  length-append (encode_entry e) (encode_entries entries),
  length-append (write_u16 (length e.name)) (e.name ++ (write_u64 e.size ++ write_u32 e.mode)),
  length-append e.name (write_u64 e.size ++ write_u32 e.mode),
  length-append (write_u64 e.size) (write_u32 e.mode),
  length-write_u16 (length e.name),
  length-write_u64 e.size,
  length-write_u32 e.mode,
  length-encode_entries entries,
)

pub length-le-entries_size : (entries : List Dirent) → length entries ≤ entries_size entries
length-le-entries_size [] = omega arith
length-le-entries_size (e ∷ entries) = omega (arith, length-le-entries_size entries)
