-- ===== src/Os.antt =====
-- What the program asks of the operating system and the C library's allocator. A history is the list of
-- the calls made so far, the newest first, each with its answer; an environment answers a call from
-- the history before it. Nothing is said here of how the calls behave: theorems name what they need.
-- The four lock calls are those of include/fileops.h; src/fileops.c implements them (LockTable).
use nerv_fs.Base.{ℕ, Bool, Option, List, Bytes}

-- `struct timespec`
pub record Timespec : Type 0 where
  pub sec : ℕ
  pub nsec : ℕ

-- The fields of `struct stat` that the program reads.
pub record Stat : Type 0 where
  pub is_reg : Bool
  pub size : ℕ
  pub mode : ℕ

-- `nervfs_lock_kind_t`
pub data LockKind : Type 0 where
  lock_read lock_write : LockKind

pub data Event : Type 0 where
  clock_gettime : Timespec → Event
  malloc : (size : ℕ) → (granted : Bool) → Event
  open_write : (path : Bytes) → (fd : Option ℕ) → Event
  open_read : (path : Bytes) → (fd : Option ℕ) → Event
  fstat : (fd : ℕ) → (size : Option ℕ) → Event
  mmap : (fd size : ℕ) → (mapped : Option Bytes) → Event
  munmap : (size : ℕ) → Event
  setlkw : (fd : ℕ) → LockKind → (granted : Bool) → Event
  setlk_unlock : (fd : ℕ) → (done : Bool) → Event
  read : (fd count : ℕ) → (bytes : Option Bytes) → Event
  write : (fd : ℕ) → (bytes : Bytes) → (count : Option ℕ) → Event
  fsync : (fd : ℕ) → Event
  close : (fd : ℕ) → Event
  unlink : (path : Bytes) → (done : Bool) → Event
  chmod : (path : Bytes) → (mode : ℕ) → (done : Bool) → Event
  opendir : (names : Option (List Bytes)) → Event
  closedir : Event
  stat : (path : Bytes) → (found : Option Stat) → Event
  acquire_write : (name : Bytes) → (locked : Bool) → Event
  release_write : (name : Bytes) → Event
  acquire_read : (name : Bytes) → (locked : Bool) → Event
  release_read : (name : Bytes) → Event
  socket : (fd : Option ℕ) → Event
  setsockopt : (fd : ℕ) → (done : Bool) → Event
  bind : (fd port : ℕ) → (done : Bool) → Event
  listen : (fd backlog : ℕ) → (done : Bool) → Event
  accept : (listen_fd : ℕ) → (fd : Option ℕ) → Event
  select : (nfds : ℕ) → (read_set : List ℕ) → (ready : Option (List ℕ)) → Event
  connect : (fd port : ℕ) → (done : Bool) → Event
  mkdir : (path : Bytes) → (done : Bool) → Event
  realpath : (path : Bytes) → (resolved : Option Bytes) → Event
  fopen_read : (path : Bytes) → (opened : Bool) → Event
  fopen_write : (path : Bytes) → (opened : Bool) → Event
  ftell : (size : Option ℕ) → Event
  fread : (size : ℕ) → (bytes : Bytes) → Event
  fwrite : (bytes : Bytes) → (count : ℕ) → Event
  fclose : Event
  -- an access outside a buffer: undefined behaviour
  fault : Event

abbrev pub History : Type 0
History = List Event

-- The answers. `none` and `false` stand for -1 with `errno` set, or for a null pointer.
pub record Env : Type 0 where
  pub clock_gettime : History → Timespec
  pub malloc : History → ℕ → Bool
  pub open_write : History → Bytes → Option ℕ
  pub open_read : History → Bytes → Option ℕ
  pub fstat : History → ℕ → Option ℕ
  pub mmap : History → ℕ → ℕ → Option Bytes
  pub setlkw : History → ℕ → LockKind → Bool
  pub setlk_unlock : History → ℕ → Bool
  pub read : History → ℕ → ℕ → Option Bytes
  pub write : History → ℕ → Bytes → Option ℕ
  pub unlink : History → Bytes → Bool
  pub chmod : History → Bytes → ℕ → Bool
  pub opendir : History → Option (List Bytes)
  pub stat : History → Bytes → Option Stat
  -- `false` if the call returns without the lock, for `malloc` has refused an entry for the name
  pub acquire_write : History → Bytes → Bool
  pub acquire_read : History → Bytes → Bool
  pub socket : History → Option ℕ
  pub setsockopt : History → ℕ → Bool
  pub bind : History → ℕ → ℕ → Bool
  pub listen : History → ℕ → ℕ → Bool
  pub accept : History → ℕ → Option ℕ
  -- `ready` is the set as the call leaves it.
  pub select : History → ℕ → List ℕ → Option (List ℕ)
  pub connect : History → ℕ → ℕ → Bool
  pub mkdir : History → Bytes → Bool
  pub realpath : History → Bytes → Option Bytes
  pub fopen_read : History → Bytes → Bool
  pub fopen_write : History → Bytes → Bool
  pub ftell : History → Option ℕ
  pub fread : History → ℕ → Bytes
  pub fwrite : History → Bytes → ℕ
  -- not a call: the value of `nervfs_running` when the loop looks at it
  pub nervfs_running : History → Bool
