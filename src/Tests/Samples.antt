-- ===== src/Tests/Samples.antt =====
-- Environments to run the code in, for the tests: the socket moves a byte at a time, the storage
-- directory holds two files of five bytes, and no call fails.
use nerv_fs.Base.{
  ◌≢◌, All, ◌+◌, ◌^◌, ℕ, zero, suc, ◌≤◌, ◌<◌, ◌≡◌, refl, subst, true, some, [], ◌∷◌, ◌++◌, Bytes,
  length, drop, replicate, length-replicate, arith, drop,
}
use mathlib.Core.Option.{some-injective}
use nerv_fs.Os.{History, Env, Timespec, read}
use nerv_fs.FileOps.Resolve.{codes}
use nerv_fs.Protocol.Transfer.Receive.{IsStream}
use nerv_fs.Protocol.Transfer.Send.{IsSink}
use nerv_fs.Handlers.Answer.{IsReliable}
use nerv_fs.Handlers.Answer.Download.{HasShortFiles}
use nerv_fs.Handlers.Answer.Listing.{IsStorage}
use nerv_fs.Protocol.Transfer.Peer.{IsPeer, TakesAll}
use nerv_fs.ThreadPool.Answers.{IsServer}
use nerv_fs.Handlers.Discipline.Download.{Maps}
use nerv_fs.Handlers.Discipline.Listing.{IsListable}

abbrev one_byte : ℕ → Bytes → Bytes
one_byte zero p = []
one_byte (suc n) [] = []
one_byte (suc n) (b ∷ p) = b ∷ []

abbrev one_of : Bytes → ℕ
one_of [] = 0
one_of (b ∷ bs) = 1

-- The header of a listing request, and five bytes more.
abbrev pub stream_bytes : Bytes
stream_bytes = 0xAE ∷ 1 ∷ 0 ∷ 3 ∷ 0 ∷ 0 ∷ 0 ∷ 0 ∷ 0 ∷ 0 ∷ 0 ∷ 0 ∷ 0 ∷ 0 ∷ 0 ∷ 0 ∷ codes "hello"

-- What a peer that sends `sent_bytes` has yet to send.
abbrev pub pending_of : Bytes → History → Bytes
pending_of sent_bytes [] = sent_bytes
pending_of sent_bytes (read fd n (some bs) ∷ h) = drop (length bs) (pending_of sent_bytes h)
pending_of sent_bytes (_ ∷ h) = pending_of sent_bytes h

abbrev pub pending : History → Bytes
pending = pending_of stream_bytes

abbrev pub tick_at : Timespec
tick_at = record { sec = 5; nsec = 0 }

abbrev pub calm_with : Bytes → Env
calm_with sent_bytes = record {
  clock_gettime = λ h. tick_at;
  malloc = λ h size. true;
  open_write = λ h path. some 9;
  open_read = λ h path. some 9;
  fstat = λ h fd. some 5;
  mmap = λ h fd size. some (replicate size b'x');
  setlkw = λ h fd kind. true;
  setlk_unlock = λ h fd. true;
  read = λ h fd n. some (one_byte n (pending_of sent_bytes h));
  write = λ h fd bs. some (one_of bs);
  unlink = λ h path. true;
  chmod = λ h path mode. true;
  opendir = λ h. some (codes "a.txt" ∷ codes "b" ∷ []);
  stat = λ h path. some (record { is_reg = true; size = 5; mode = 420 });
  acquire_write = λ h name. true;
  acquire_read = λ h name. true;
  socket = λ h. some 3;
  setsockopt = λ h fd. true;
  bind = λ h fd port. true;
  listen = λ h fd backlog. true;
  accept = λ h listen_fd. some 4;
  select = λ h nfds read_set. some read_set;
  connect = λ h fd port. true;
  mkdir = λ h path. true;
  realpath = λ h path. some (codes "/srv");
  fopen_read = λ h path. true;
  fopen_write = λ h path. true;
  ftell = λ h. some 2;
  fread = λ h size. replicate size b'y';
  fwrite = λ h bytes. length bytes;
  nervfs_running = λ h. true;
}

abbrev pub calm : Env
calm = calm_with stream_bytes

one_byte_short : (n : ℕ) (p : Bytes) → length (one_byte n p) ≤ n
one_byte_short zero p = omega arith
one_byte_short (suc n) [] = omega arith
one_byte_short (suc n) (b ∷ p) = omega arith

one_byte_first : (n : ℕ) (p : Bytes) → p ≡ one_byte n p ++ drop (length (one_byte n p)) p
one_byte_first zero p = refl
one_byte_first (suc n) [] = refl
one_byte_first (suc n) (b ∷ p) = refl

one_byte_end : (n : ℕ) (p : Bytes) → 0 < n → one_byte n p ≡ [] → p ≡ []
one_byte_end zero p pos e = absurd (omega arith)
one_byte_end (suc n) [] pos e = refl
one_byte_end (suc n) (b ∷ p) pos e = absurd (cc e)

one_of_fits : (bs : Bytes) → one_of bs ≤ length bs
one_of_fits [] = omega arith
one_of_fits (b ∷ bs) = omega arith

one_of_moves : (bs : Bytes) → 0 < length bs → 0 < one_of bs
one_of_moves [] pos = pos
one_of_moves (b ∷ bs) pos = omega arith

pub calm-IsStream : (bs : Bytes) → IsStream (calm_with bs) 4 (pending_of bs)
calm-IsStream sent_bytes = record {
  bounded = λ h n bs e.
      subst (λ x. length x ≤ n) (some-injective _ _ e) (one_byte_short n (pending_of sent_bytes h));
  in_order = λ h n bs e.
      subst (λ x. pending_of sent_bytes h ≡ x ++ drop (length x) (pending_of sent_bytes h))
        (some-injective _ _ e) (one_byte_first n (pending_of sent_bytes h));
  ends = λ h n pos e. one_byte_end n (pending_of sent_bytes h) pos (some-injective _ _ e);
}

pub calm-IsPeer : (bs : Bytes) → IsPeer (calm_with bs) 4 (pending_of bs)
calm-IsPeer bs = record {
  stream = calm-IsStream bs;
  answers = λ h n e. absurd (cc e);
  steady = λ h n granted. refl;
  timeless = λ h now. refl;
}

pub calm-IsSink : (bs : Bytes) → IsSink (calm_with bs) 4
calm-IsSink sent_bytes = record {
  bounded = λ h bs n e. subst (λ x. x ≤ length bs) (some-injective _ _ e) (one_of_fits bs);
  progress = λ h bs n pos e. subst (λ x. 0 < x) (some-injective _ _ e) (one_of_moves bs pos);
}

pub calm-TakesAll : (bs : Bytes) → TakesAll (calm_with bs) 4
calm-TakesAll sent_bytes = record { sink = calm-IsSink sent_bytes; takes = λ h bs e. absurd (cc e) }

pub calm-Maps : (bs : Bytes) → Maps (calm_with bs)
calm-Maps sent_bytes = record {
  size_eq = λ h fd size bytes e.
      subst (λ x. length x ≡ size) (some-injective _ _ e) (length-replicate size b'x');
}

pub calm-IsListable : (bs : Bytes) → IsListable (calm_with bs)
calm-IsListable sent_bytes h names e =
    subst (λ x. length x ≤ 15000000) (some-injective _ _ e) (omega arith)

pub calm-IsReliable : (bs : Bytes) → IsReliable (calm_with bs) 4
calm-IsReliable sent_bytes = record {
  taker = calm-TakesAll sent_bytes;
  grants = λ h n. refl;
  apart = λ h path fd e. subst (λ x. x ≢ 4) (some-injective _ _ e) (omega arith);
}

pub calm-HasShortFiles : (bs : Bytes) → HasShortFiles (calm_with bs)
calm-HasShortFiles sent_bytes h fd size e =
    subst (λ x. 8 + x < 2 ^ 32) (some-injective _ _ e) (omega arith)

pub calm-IsStorage : (bs : Bytes) → IsStorage (calm_with bs)
calm-IsStorage sent_bytes = record {
  names_are_strings = λ h names e.
      subst (λ x. All (λ name. All (λ b. b ≢ 0) name) x) (some-injective _ _ e) (omega arith);
  sizes_fit = λ h path st e. subst (λ x. x.size < 2 ^ 64) (some-injective _ _ e) (omega arith);
}

pub calm-IsServer : (bs : Bytes) → IsServer (calm_with bs) 4 (pending_of bs)
calm-IsServer bs = record {
  peer = calm-IsPeer bs;
  reliable = calm-IsReliable bs;
  maps = calm-Maps bs;
  short_files = calm-HasShortFiles bs;
  listable = calm-IsListable bs;
  storage = calm-IsStorage bs;
}
