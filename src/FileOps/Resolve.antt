-- ===== src/FileOps/Resolve.antt =====
-- `safe_resolve_path` of src/fileops.c: which names a client may use, and the paths they stand for.
pub mod Safe
use Prim.Native.String.{String}
use Prim.Native.Char.{code}
use nerv_fs.Base.{
  ℕ, zero, suc, Bool, true, false, not, ◌||◌, Option, none, some, [], ◌∷◌, ◌++◌, Bytes, length, ltb,
  leb, ◌==◌, str_eq, if◌then◌else◌,
}
use nerv_fs.Wire.Buffer.{load}

abbrev pub nervfs_max_name_len : ℕ
nervfs_max_name_len = 255

-- The C string that starts a buffer: the bytes before the first NUL.
abbrev pub c_str : Bytes → Bytes
c_str [] = []
c_str (zero ∷ bs) = []
c_str (suc b ∷ bs) = suc b ∷ c_str bs

-- `strchr(s, c) != NULL` on a C string, for `c` other than NUL.
abbrev pub contains : ℕ → Bytes → Bool
contains c [] = false
contains c (b ∷ bs) = b == c || contains c bs

-- The bytes of a text literal.
abbrev pub codes : String → Bytes
codes String.[] = []
codes (String.◌∷◌ c s) = code c ∷ codes s

abbrev pub dot : Bytes
dot = b'.' ∷ []

abbrev pub dot_dot : Bytes
dot_dot = b'.' ∷ b'.' ∷ []

-- A return of -1, or of 0 with the path written out. `faulty` is a read outside the payload.
pub data Resolved : Type 0 where
  refused : Resolved
  resolved : (path : Bytes) → Resolved
  faulty : Resolved

-- The checks after the copy into `safe_name`, and the `snprintf`.
unfoldable pub check_name : Bytes → Bytes → ℕ → ℕ → Resolved
check_name root safe_name name_len out_size =
    if not (length safe_name == name_len)
    then refused
    else if contains b'/' safe_name
    then refused
    else if str_eq safe_name dot || str_eq safe_name dot_dot
    then refused
    else if leb out_size (length (root ++ b'/' ∷ safe_name))
    then refused
    else resolved (root ++ b'/' ∷ safe_name)

check_copy : Bytes → Option Bytes → ℕ → ℕ → Resolved
unfolding check_name
check_copy root none name_len out_size = faulty
check_copy root (some raw) name_len out_size =
    check_name root (c_str (raw ++ 0 ∷ [])) name_len out_size

-- `name` points at offset `off` of the buffer; `root` is `storage_root_real`.
unfoldable pub safe_resolve_path : Bytes → Bytes → ℕ → ℕ → ℕ → Resolved
unfolding check_copy
safe_resolve_path root buf off name_len out_size =
    if name_len == 0 || ltb nervfs_max_name_len name_len
    then refused
    else check_copy root (load buf off name_len) name_len out_size
