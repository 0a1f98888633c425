-- ===== src/FileOps/Listing.antt =====
-- `fileops_list_dir` of src/fileops.c: the regular files right below the storage root.
use nerv_fs.Base.{
  ℕ, ◌*◌, ◌%◌, Bool, true, false, ◌||◌, Option, none, some, List, [], ◌∷◌, ◌++◌, Bytes, length,
  take, leb, ltb, ◌==◌, str_eq, if◌then◌else◌,
}
use nerv_fs.Os.{History, Env, Stat, opendir, closedir, stat, malloc, fault}
use nerv_fs.FileOps.Resolve.{dot, dot_dot, nervfs_max_name_len}

-- `nervfs_dirent_t`, with its name as a C string
pub record Dirent : Type 0 where
  pub name : Bytes
  pub size : ℕ
  pub mode : ℕ

abbrev pub path_max : ℕ
path_max = 4096

-- `sizeof(nervfs_dirent_t)`
abbrev pub dirent_size : ℕ
dirent_size = 272

-- A return of 0 with the entries, or of -1.
pub data Listed : Type 0 where
  listed : List Dirent → Listed
  list_failed : Listed

-- `st_mode & 07777`; the name is what `strncpy` keeps of it.
unfoldable pub regular : Bytes → Option Stat → Option Dirent
regular name none = none
regular name (some st) =
    if st.is_reg
    then some
        (record { name = take nervfs_max_name_len name; size = st.size; mode = st.mode % 4096 })
    else none

-- One round of the loop as far as the entry: none of the `continue`s is taken.
unfoldable pub read_entry : Env → Bytes → Bytes → History → Option Dirent × History
unfolding regular
read_entry env root name h =
    if str_eq name dot || str_eq name dot_dot
    then (none, h)
    else if leb path_max (length (root ++ b'/' ∷ name))
    then (none, h)
    else (
      regular name (env.stat h (root ++ b'/' ∷ name)),
      stat (root ++ b'/' ∷ name) (env.stat h (root ++ b'/' ∷ name)) ∷ h,
    )

-- The write of `entries[count]`, in an array with room for `capacity` entries.
unfoldable pub put_entry :
    (ℕ → List Dirent → History → Listed × History)
    → ℕ
    → List Dirent
    → Dirent
    → History
    → Listed × History
put_entry next capacity entries d h =
    if ltb (length entries) capacity
    then next capacity (entries ++ d ∷ []) h
    else (list_failed, fault ∷ h)

-- `realloc` to twice the capacity before an entry that does not fit.
unfoldable pub grow :
    (ℕ → List Dirent → History → Listed × History)
    → ℕ
    → List Dirent
    → Dirent
    → Bool
    → History
    → Listed × History
unfolding put_entry
grow next capacity entries d false h = (list_failed, closedir ∷ h)
grow next capacity entries d true h = put_entry next (2 * capacity) entries d h

unfoldable pub push_entry :
    Env
    → (ℕ → List Dirent → History → Listed × History)
    → ℕ
    → List Dirent
    → Option Dirent × History
    → Listed × History
unfolding grow put_entry
push_entry env next capacity entries (none, h) = next capacity entries h
push_entry env next capacity entries (some d, h) =
    if length entries == capacity
    then grow next capacity entries d (env.malloc h (2 * capacity * dirent_size))
        (malloc (2 * capacity * dirent_size) (env.malloc h (2 * capacity * dirent_size)) ∷ h)
    else put_entry next capacity entries d h

-- The loop over `readdir`. The names are what it returns, in its order.
unfoldable pub list_loop : Env → Bytes → List Bytes → ℕ → List Dirent → History → Listed × History
unfolding read_entry push_entry
list_loop env root [] capacity entries h = (listed entries, closedir ∷ h)
list_loop env root (name ∷ names) capacity entries h =
    push_entry env (λ cap es h'. list_loop env root names cap es h') capacity entries
      (read_entry env root name h)

unfoldable pub list_start : Env → Bytes → List Bytes → Bool → History → Listed × History
unfolding list_loop
list_start env root names false h = (list_failed, closedir ∷ h)
list_start env root names true h = list_loop env root names 16 [] h

unfoldable pub list_names : Env → Bytes → Option (List Bytes) → History → Listed × History
unfolding list_start
list_names env root none h = (list_failed, h)
list_names env root (some names) h =
    list_start env root names (env.malloc h (16 * dirent_size))
      (malloc (16 * dirent_size) (env.malloc h (16 * dirent_size)) ∷ h)

unfoldable pub fileops_list_dir : Env → Bytes → History → Listed × History
unfolding list_names
fileops_list_dir env root h = list_names env root (env.opendir h) (opendir (env.opendir h) ∷ h)
