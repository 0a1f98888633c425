-- ===== src/Handlers/Discipline/Listing.antt =====
-- The listing's use of locks and files, and what its entries are like.
use mathlib.Core.Option.{some-injective}
use nerv_fs.Base.{
  ◌*◌, ◌<◌, lt→ltb, sym, ◌%◌, if◌then◌else◌, ℕ, ◌+◌, ◌≤◌, ◌≡◌, refl, Bool, true, false, Option,
  none, some, List, [], ◌∷◌, ◌++◌, All, take, Bytes, length, ◌==◌, inl, inr, Bool-cases, arith, leb,
  str_eq, ◌||◌, length-take, length-append, All-append,
}
use nerv_fs.Os.{History, Env, Timespec, Stat, malloc, opendir, closedir, stat, clock_gettime}
use nerv_fs.Wire.{write_u32, length-write_u32}
use nerv_fs.FileOps.Resolve.{dot, dot_dot, nervfs_max_name_len}
use nerv_fs.FileOps.Listing.{
  Dirent, Listed, listed, list_failed, regular, read_entry, grow, put_entry, push_entry, list_loop,
  list_start, list_names, fileops_list_dir, path_max,
}
use nerv_fs.Handlers.Listing.{send_list, list_allocated, list_response, list_timed, handle_list}
use nerv_fs.Handlers.ListPayload.{
  HaveShortNames, encode_entries, fill_list_lem, entries_size-bound, length-encode_entries,
}
use nerv_fs.Handlers.Discipline.{Free, error, tick, send_message-Holds}

-- A directory whose listing is shorter than 4 GB: an entry takes at most 269 bytes.
abbrev pub IsListable : Env → Type 0
IsListable env =
    (h : History) (names : List Bytes) → env.opendir h ≡ some names → length names ≤ 15000000

if_some {ℓ} : {A : Type ℓ} (b : Bool) (x y : A) → (if b then some x else none) ≡ some y → x ≡ y
if_some true x y e = some-injective x y e
if_some false x y e = absurd (cc e)

-- An entry comes from a file that `stat` has found.
pub regular-some :
    (name : Bytes) (st : Option Stat) (d : Dirent)
    → regular name st ≡ some d
    → (s : Stat) × (st ≡ some s)
      × (record { name = take nervfs_max_name_len name; size = s.size; mode = s.mode % 4096 } ≡ d)
unfolding regular
regular-some name none d e = absurd (cc e)
regular-some name (some s) d e = (s, refl, if_some s.is_reg _ d e)

lt_of : (a b : ℕ) → a ≤ b → (a == b) ≡ false → a < b
lt_of a b le apart = ground arith

module _ (root : Bytes) (env : Env) (client : ℕ) (P : Dirent → Type 0) (Q : Bytes → Type 0)
    (made : (name : Bytes) (h : History) (d : Dirent)
      → Q name
      → regular name (env.stat h (root ++ b'/' ∷ name)) ≡ some d
      → P d) where
  -- At most `n` entries, which all have the property.
  abbrev pub FitListing : ℕ → Listed × History → Type 0
  FitListing n (listed entries, h) = (length entries ≤ n) × All P entries × Free root env client h
  FitListing n (list_failed, h) = Free root env client h

  record Entries (n capacity : ℕ) (entries : List Dirent) (h : History) : Type 0 where
    few : length entries ≤ n
    room : length entries ≤ capacity
    some_room : 0 < capacity
    fit : All P entries
    free : Free root env client h

  quiet_stat :
      (path : Bytes) (st : Option Stat) {h : History}
      → Free root env client h
      → Free root env client (stat path st ∷ h)
  quiet_stat path st s = record { proper = s.proper; lock_eq = s.lock_eq; file_eq = s.file_eq }

  quiet_malloc :
      (n : ℕ) (granted : Bool) {h : History}
      → Free root env client h
      → Free root env client (malloc n granted ∷ h)
  quiet_malloc n granted s = record { proper = s.proper; lock_eq = s.lock_eq; file_eq = s.file_eq }

  quiet_closedir : {h : History} → Free root env client h → Free root env client (closedir ∷ h)
  quiet_closedir s = record { proper = s.proper; lock_eq = s.lock_eq; file_eq = s.file_eq }

  quiet_opendir :
      (names : Option (List Bytes)) {h : History}
      → Free root env client h
      → Free root env client (opendir names ∷ h)
  quiet_opendir names s = record { proper = s.proper; lock_eq = s.lock_eq; file_eq = s.file_eq }

  abbrev FitEntry : Option Dirent × History → Type 0
  FitEntry (none, h) = Free root env client h
  FitEntry (some d, h) = P d × Free root env client h

  found-FitEntry :
      (d : Option Dirent) (h : History)
      → ((e : Dirent) → d ≡ some e → P e)
      → Free root env client h
      → FitEntry (d, h)
  found-FitEntry none h fit s = s
  found-FitEntry (some d) h fit s = (fit d refl, s)

  read_entry-FitEntry :
      (name : Bytes) (h : History)
      → Q name
      → Free root env client h
      → FitEntry (read_entry env root name h)
  unfolding read_entry
  read_entry-FitEntry name h q s = elim (Bool-cases (str_eq name dot || str_eq name dot_dot)) [
    | inl dots ↦ rw dots s
    | inr other ↦ elim (Bool-cases (leb path_max (length (root ++ b'/' ∷ name)))) [
      | inl long ↦ rw (other, long) s
      | inr fits ↦
          rw (other, fits)
            (found-FitEntry (regular name (env.stat h (root ++ b'/' ∷ name))) _
              (λ e. made name h e q) (quiet_stat _ _ s))
    ]
  ]

  abbrev Goes : ℕ → ℕ → (ℕ → List Dirent → History → Listed × History) → Type 0
  Goes n m next =
      (capacity : ℕ) (entries : List Dirent) (h : History)
      → Entries n capacity entries h
      → FitListing m (next capacity entries h)

  -- The write of an entry is inside the array where there is room for it.
  put_entry-FitListing :
      (n m : ℕ) (next : ℕ → List Dirent → History → Listed × History)
      → Goes (n + 1) m next
      → (capacity : ℕ) (entries : List Dirent) (d : Dirent) (h : History)
      → Entries n capacity entries h
      → length entries < capacity
      → P d
      → FitListing m (put_entry next capacity entries d h)
  unfolding put_entry
  put_entry-FitListing n m next goes capacity entries d h v lt short =
      rw (lt→ltb (length entries) capacity lt) (
        goes capacity (entries ++ d ∷ []) h (record {
          few = omega (arith, v.few, length-append entries (d ∷ []));
          room = omega (arith, lt, length-append entries (d ∷ []));
          some_room = v.some_room;
          fit = All-append P entries (d ∷ []) v.fit (short, tt);
          free = v.free;
        }))

  grow-FitListing :
      (n m : ℕ) (next : ℕ → List Dirent → History → Listed × History)
      → Goes (n + 1) m next
      → (capacity : ℕ) (entries : List Dirent) (d : Dirent) (size : ℕ) (granted : Bool)
        (h : History)
      → Entries n capacity entries h
      → P d
      → FitListing m (grow next capacity entries d granted (malloc size granted ∷ h))
  unfolding grow
  grow-FitListing n m next goes capacity entries d size false h v short =
      quiet_closedir (quiet_malloc size false v.free)
  grow-FitListing n m next goes capacity entries d size true h v short =
      put_entry-FitListing n m next goes (2 * capacity) entries d (malloc size true ∷ h)
        (record {
          few = v.few;
          room = omega (arith, v.room);
          some_room = omega (arith, v.some_room);
          fit = v.fit;
          free = quiet_malloc size true v.free;
        })
        (omega (arith, v.room, v.some_room)) short

  push_entry-FitListing :
      (n m : ℕ) (next : ℕ → List Dirent → History → Listed × History)
      → Goes (n + 1) m next
      → (capacity : ℕ) (entries : List Dirent) {h : History} (r : Option Dirent × History)
      → Entries n capacity entries h
      → FitEntry r
      → FitListing m (push_entry env next capacity entries r)
  unfolding push_entry
  push_entry-FitListing n m next goes capacity entries (none, h) v s =
      goes capacity entries h (record {
        few = omega (arith, v.few);
        room = v.room;
        some_room = v.some_room;
        fit = v.fit;
        free = s;
      })
  push_entry-FitListing n m next goes capacity entries (some d, h) v (short, s) =
      let v' : Entries n capacity entries h = record {
        few = v.few;
        room = v.room;
        some_room = v.some_room;
        fit = v.fit;
        free = s;
      } in
      elim (Bool-cases (length entries == capacity)) [
        | inl full ↦ rw full (grow-FitListing n m next goes capacity entries d _ _ h v' short)
        | inr room ↦ rw room (
            put_entry-FitListing n m next goes capacity entries d h v'
              (lt_of (length entries) capacity v.room room) short)
      ]

  list_loop-FitListing :
      (names : List Bytes) (n m : ℕ) (capacity : ℕ) (entries : List Dirent) (h : History)
      → n + length names ≤ m
      → All Q names
      → Entries n capacity entries h
      → FitListing m (list_loop env root names capacity entries h)
  unfolding list_loop
  list_loop-FitListing [] n m capacity entries h few q v =
      (omega (arith, v.few), v.fit, quiet_closedir v.free)
  list_loop-FitListing (name ∷ names) n m capacity entries h few q v =
      push_entry-FitListing n m _
        (λ cap es h' v'. list_loop-FitListing names (n + 1) m cap es h' (omega arith) q.1 v')
        capacity entries (read_entry env root name h) v (read_entry-FitEntry name h q.0 v.free)

  list_start-FitListing :
      (names : List Bytes) (m size : ℕ) (granted : Bool) (h : History)
      → length names ≤ m
      → All Q names
      → Free root env client h
      → FitListing m (list_start env root names granted (malloc size granted ∷ h))
  unfolding list_start
  list_start-FitListing names m size false h few q s = quiet_closedir (quiet_malloc size false s)
  list_start-FitListing names m size true h few q s =
      list_loop-FitListing names 0 m 16 [] _ (omega arith) q (record {
        few = omega arith;
        room = omega arith;
        some_room = omega arith;
        fit = tt;
        free = quiet_malloc size true s;
      })

  pub list_names-FitListing :
      (names : Option (List Bytes)) (h : History)
      → ((all : List Bytes) → names ≡ some all → (length all ≤ 15000000) × All Q all)
      → Free root env client h
      → FitListing 15000000 (list_names env root names (opendir names ∷ h))
  unfolding list_names
  list_names-FitListing none h few s = quiet_opendir none s
  list_names-FitListing (some names) h few s =
      list_start-FitListing names 15000000 _ _ _ (few names refl).0 (few names refl).1
        (quiet_opendir (some names) s)

module _ (root : Bytes) (env : Env) (client : ℕ) where
  abbrev Short : Dirent → Type 0
  Short e = length e.name ≤ 255

  regular-Short :
      (name : Bytes) (h : History) (d : Dirent)
      → Unit {0}
      → regular name (env.stat h (root ++ b'/' ∷ name)) ≡ some d
      → Short d
  regular-Short name h d q e =
      let (st, found, kept) = regular-some name (env.stat h (root ++ b'/' ∷ name)) d e in
      rw (sym kept) (omega (arith, length-take 255 name))

  All-Unit : (names : List Bytes) → All (λ _. Unit {0}) names
  All-Unit [] = tt
  All-Unit (name ∷ names) = (tt, All-Unit names)

  list_allocated-Free :
      (elapsed_us : ℕ) (entries : List Dirent) (granted : Bool) (h : History)
      → length entries ≤ 15000000
      → HaveShortNames entries
      → Free root env client h
      → Free root env client (list_allocated env client elapsed_us entries granted h)
  unfolding list_allocated send_list
  list_allocated-Free elapsed_us entries false h few short s = error root env client _ _ h s
  list_allocated-Free elapsed_us entries true h few short s =
      let (len, filled) =
        fill_list_lem entries short (omega (arith, entries_size-bound entries short)) in
      rw filled (
        send_message-Holds root none none env client _ _ _ _ h
          (omega (
            arith,
            len,
            length-append (write_u32 (length entries)) (encode_entries entries),
            length-write_u32 (length entries),
            length-encode_entries entries,
          ))
          s)

  list_timed-Free :
      (start : Timespec) (r : Listed × History)
      → FitListing root env client Short (λ _. Unit {0}) regular-Short 15000000 r
      → Free root env client (list_timed env client start r)
  unfolding list_timed list_response
  list_timed-Free start (list_failed, h) s = error root env client _ _ _ (tick root env client _ s)
  list_timed-Free start (listed entries, h) (few, short, s) =
      list_allocated-Free _ entries _ _ few short (
        quiet_malloc root env client Short (λ _. Unit {0}) regular-Short _ _
          (tick root env client _ s))

  pub handle_list-Free :
      IsListable env
      → (h : History) → Free root env client h
      → Free root env client (handle_list env root client h)
  unfolding handle_list fileops_list_dir
  handle_list-Free listable h s =
      let h₁ : History = clock_gettime (env.clock_gettime h) ∷ h in
      list_timed-Free _ _ (
        list_names-FitListing root env client Short (λ _. Unit {0}) regular-Short (env.opendir h₁)
          h₁ (λ names e. (listable h₁ names e, All-Unit names)) (tick root env client _ s))
