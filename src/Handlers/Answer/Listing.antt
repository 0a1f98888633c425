-- ===== src/Handlers/Answer/Listing.antt =====
-- The response to a listing.
use nerv_fs.Base.{
  ltb, ◌<◌, ◌^◌, ◌≢◌, All, All-take, length-take, subst, ℕ, ◌*◌, ◌≤◌, ◌≡◌, refl, ◌∙◌, inl, inr,
  Bool, true, false, Option, none, some, List, [], ◌∷◌, ◌++◌, arith, Bytes, length, length-append,
  leb, str_eq, ◌||◌, ◌==◌, Bool-cases,
}
use nerv_fs.Os.{Stat, Timespec, History, Env, malloc, clock_gettime, opendir}
use nerv_fs.Wire.{write_u32, length-write_u32}
use nerv_fs.Protocol.Transfer.{written}
use nerv_fs.FileOps.Resolve.{dot, dot_dot}
use nerv_fs.FileOps.Listing.{
  regular, Dirent, Listed, listed, list_failed, read_entry, grow, put_entry, push_entry, list_loop,
  list_start, list_names, fileops_list_dir, path_max, dirent_size,
}
use nerv_fs.Handlers.Listing.{send_list, list_allocated, list_response, list_timed, handle_list}
use nerv_fs.Handlers.ListPayload.{
  HaveShortNames, encode_entries, fill_list_lem, entries_size-bound, length-encode_entries,
}
use nerv_fs.Handlers.Discipline.{Free, tick}
use nerv_fs.Handlers.Answer.{IsReliable, Answered, send_message-written, send_error-Answered}
use nerv_fs.Handlers.Discipline.Listing.{
  IsListable, FitListing, regular-some, list_names-FitListing,
}
use nerv_fs.Handlers.Reply.{IsListed, listing_reply, literal, list_kind}
use nerv_fs.Clock.{elapsed_microseconds-lt}

module _ (env : Env) (root : Bytes) (client : ℕ) where
  read_entry-written :
      (name : Bytes) (h : History)
      → written client (read_entry env root name h).1 ≡ written client h
  unfolding read_entry
  read_entry-written name h = elim (Bool-cases (str_eq name dot || str_eq name dot_dot)) [
    | inl dots ↦ rw dots refl
    | inr other ↦ elim (Bool-cases (leb path_max (length (root ++ b'/' ∷ name)))) [
      | inl long ↦ rw (other, long) refl
      | inr fits ↦ rw (other, fits) refl
    ]
  ]

  abbrev Keeps : (ℕ → List Dirent → History → Listed × History) → Type 0
  Keeps next =
      (capacity : ℕ) (entries : List Dirent) (h : History)
      → written client (next capacity entries h).1 ≡ written client h

  put_entry-written :
      (next : ℕ → List Dirent → History → Listed × History)
      → Keeps next
      → (capacity : ℕ) (entries : List Dirent) (d : Dirent) (h : History)
      → written client (put_entry next capacity entries d h).1 ≡ written client h
  unfolding put_entry
  put_entry-written next keeps capacity entries d h =
      elim (Bool-cases (ltb (length entries) capacity)) [
        | inl room ↦ rw room (keeps capacity (entries ++ d ∷ []) h)
        | inr full ↦ rw full refl
      ]

  grow-written :
      (next : ℕ → List Dirent → History → Listed × History)
      → Keeps next
      → (capacity : ℕ) (entries : List Dirent) (d : Dirent) (size : ℕ) (granted : Bool)
        (h : History)
      → written client (grow next capacity entries d granted (malloc size granted ∷ h)).1
        ≡ written client h
  unfolding grow
  grow-written next keeps capacity entries d size false h = refl
  grow-written next keeps capacity entries d size true h =
      put_entry-written next keeps (2 * capacity) entries d (malloc size true ∷ h)

  push_entry-written :
      (next : ℕ → List Dirent → History → Listed × History)
      → Keeps next
      → (capacity : ℕ) (entries : List Dirent) (r : Option Dirent × History)
      → written client (push_entry env next capacity entries r).1 ≡ written client r.1
  unfolding push_entry
  push_entry-written next keeps capacity entries (none, h) = keeps capacity entries h
  push_entry-written next keeps capacity entries (some d, h) =
      elim (Bool-cases (length entries == capacity)) [
        | inl full ↦ rw full (grow-written next keeps capacity entries d _ _ h)
        | inr room ↦ rw room (put_entry-written next keeps capacity entries d h)
      ]

  list_loop-written :
      (names : List Bytes) (capacity : ℕ) (entries : List Dirent) (h : History)
      → written client (list_loop env root names capacity entries h).1 ≡ written client h
  unfolding list_loop
  list_loop-written [] capacity entries h = refl
  list_loop-written (name ∷ names) capacity entries h =
      push_entry-written (λ cap es h'. list_loop env root names cap es h') (list_loop-written names)
        capacity entries (read_entry env root name h)
      ∙ read_entry-written name h

  list_start-written :
      (names : List Bytes) (granted : Bool) (h : History)
      → written client (list_start env root names granted h).1 ≡ written client h
  unfolding list_start
  list_start-written names false h = refl
  list_start-written names true h = list_loop-written names 16 [] h

  list_names-written :
      (names : Option (List Bytes)) (h : History)
      → written client (list_names env root names h).1 ≡ written client h
  unfolding list_names
  list_names-written none h = refl
  list_names-written (some names) h =
      list_start-written names (env.malloc h (16 * dirent_size))
        (malloc (16 * dirent_size) (env.malloc h (16 * dirent_size)) ∷ h)

-- What the storage directory gives: names that are C strings, and sizes of type off_t.
pub record IsStorage (env : Env) : Type 0 where
  pub names_are_strings :
      (h : History) (names : List Bytes)
      → env.opendir h ≡ some names
      → All (λ name. All (λ b. b ≢ 0) name) names
  pub sizes_fit :
      (h : History) (path : Bytes) (st : Stat) → env.stat h path ≡ some st → st.size < 2 ^ 64

IsListed-short : (entries : List Dirent) → All IsListed entries → HaveShortNames entries
IsListed-short [] ok = tt
IsListed-short (e ∷ entries) ok = (ok.0.short, IsListed-short entries ok.1)

module _ (env : Env) (root : Bytes) (storage : IsStorage env) where
  regular-IsListed :
      (name : Bytes) (h : History) (d : Dirent)
      → All (λ b. b ≢ 0) name
      → regular name (env.stat h (root ++ b'/' ∷ name)) ≡ some d
      → IsListed d
  regular-IsListed name h d no_nul e =
      let (st, found, kept) = regular-some name (env.stat h (root ++ b'/' ∷ name)) d e in
      subst IsListed kept (record {
        short = omega (arith, length-take 255 name);
        no_nul = All-take (λ b. b ≢ 0) 255 name no_nul;
        size_fits = storage.sizes_fit h (root ++ b'/' ∷ name) st found;
        mode_fits = omega arith;
      })

module _ (env : Env) (root : Bytes) (client : ℕ) (ok : IsReliable env client) (before : Bytes)
    (storage : IsStorage env) where
  abbrev IsString : Bytes → Type 0
  IsString name = All (λ b. b ≢ 0) name

  list_allocated-Answered :
      (elapsed_us : ℕ) (entries : List Dirent) (granted : Bool) (h : History)
      → elapsed_us < 2 ^ 64
      → length entries ≤ 15000000
      → All IsListed entries
      → written client h ≡ before
      → Answered client before list_kind (list_allocated env client elapsed_us entries granted h)
  unfolding list_allocated send_list
  list_allocated-Answered elapsed_us entries false h in_time few listed_ok at_h =
      send_error-Answered env client ok before list_kind _ _ h (literal _ _ refl) at_h
  list_allocated-Answered elapsed_us entries true h in_time few listed_ok at_h =
      let short = IsListed-short entries listed_ok in
      let bound = entries_size-bound entries short in
      let (len, filled) = fill_list_lem entries short (omega (arith, bound)) in
      (
        listing_reply elapsed_us entries,
        (in_time, listed_ok, omega (arith, bound)),
        refl,
        rw filled (
            send_message-written env client ok before list_kind _ _ _ elapsed_us h
              (omega (
                arith,
                len,
                length-append (write_u32 (length entries)) (encode_entries entries),
                length-write_u32 (length entries),
                length-encode_entries entries,
              ))
              at_h),
      )

  list_timed-Answered :
      (start : Timespec) (r : Listed × History)
      → FitListing root env client IsListed IsString (regular-IsListed env root storage) 15000000 r
      → written client r.1 ≡ before
      → Answered client before list_kind (list_timed env client start r)
  unfolding list_timed list_response
  list_timed-Answered start (list_failed, h) s at_h =
      send_error-Answered env client ok before list_kind _ _ _ (literal _ _ refl) at_h
  list_timed-Answered start (listed entries, h) (few, listed_ok, s) at_h =
      list_allocated-Answered _ entries _ _ (elapsed_microseconds-lt _ _) few listed_ok at_h

  pub handle_list-Answered :
      IsListable env
      → (h : History) → Free root env client h
      → written client h ≡ before
      → Answered client before list_kind (handle_list env root client h)
  unfolding handle_list fileops_list_dir
  handle_list-Answered listable h s at_h =
      let h₁ : History = clock_gettime (env.clock_gettime h) ∷ h in
      list_timed-Answered _ _
        (list_names-FitListing root env client IsListed IsString (regular-IsListed env root storage)
          (env.opendir h₁) h₁
          (λ names e. (listable h₁ names e, storage.names_are_strings h₁ names e))
          (tick root env client _ s))
        (list_names-written env root client (env.opendir h₁) (opendir (env.opendir h₁) ∷ h₁) ∙ at_h)
