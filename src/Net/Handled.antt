-- ===== src/Net/Handled.antt =====
-- The outcomes of `handle_client_readable`, whatever the connection delivers.
use nerv_fs.Base.{
  ℕ, ◌≡◌, ◌≢◌, refl, inl, inr, Bool, true, false, Option, none, some, ◌∷◌, arith, Bytes, length,
  ltb, Bool-cases,
}
use nerv_fs.Os.{History, Env, read, close}
use nerv_fs.Protocol.Header.{Header, accepts}
use nerv_fs.Protocol.Typed.{parse_header_total}
use nerv_fs.Protocol.Transfer.{Received, received, recv_full}
use nerv_fs.Protocol.Transfer.Receive.{recv_full-keeps}
use nerv_fs.Protocol.Transfer.Peer.{recv_full-ne-spinning}
use nerv_fs.ThreadPool.{Pool, threadpool_submit}
use nerv_fs.Net.{
  Readable, closing, handed_over, stuck, header_parsed, header_received, handle_client_readable,
}

-- The caller is to close the connection, or it is the pool's, or no memory was left for a job and it has
-- been closed. `P` holds of the history before.
abbrev pub Handled : (History → Type 0) → ℕ → Option ℕ → Readable × (Pool × History) → Type 0
Handled P fd block (closing, (s, h)) = P h
Handled P fd none (handed_over, (s, h)) = (h' : History) × (h ≡ close fd ∷ h') × P h'
Handled P fd (some p) (handed_over, (s, h)) = P h
Handled P fd block (stuck, (s, h)) = ⊥

module _ (P : History → Type 0) (fd : ℕ) where
  submit-Handled :
      (block : Option ℕ) (s : Pool) (header : Header) (h : History)
      → P h
      → Handled P fd block (handed_over, threadpool_submit block fd header s h)
  unfolding threadpool_submit
  submit-Handled none s header h p = (h, refl, p)
  submit-Handled (some a) s header h p = p

  header_parsed-Handled :
      (block : Option ℕ) (s : Pool) (good : Bool) (header : Header) (h : History)
      → P h
      → Handled P fd block (header_parsed fd block s (some (good, header)) h)
  unfolding header_parsed
  header_parsed-Handled block s true header h p = submit-Handled block s header h p
  header_parsed-Handled block s false header h p = p

  header_received-Handled :
      (block : Option ℕ) (s : Pool) (r : Received) (h : History)
      → r ≢ Received.spinning
      → P h
      → Handled P fd block (header_received fd block s (r, h))
  unfolding header_received
  header_received-Handled block s Received.failed h ends p = p
  header_received-Handled block s Received.spinning h ends p = absurd (ends refl)
  header_received-Handled block s (received buf) h ends p =
      elim (Bool-cases (ltb (length buf) 16)) [
        | inl short ↦ rw short p
        | inr whole ↦
            let (header, parsed) = parse_header_total buf (ground arith) in
            rw (whole, parsed) (header_parsed-Handled block s (accepts header) header h p)
      ]

  pub handle_client_readable-Handled :
      (env : Env)
      → ((h : History) (n : ℕ) (bs : Option Bytes) → P h → P (read fd n bs ∷ h))
      → (block : Option ℕ) (s : Pool) (h : History) → P h
      → Handled P fd block (handle_client_readable env fd block s h)
  unfolding handle_client_readable
  handle_client_readable-Handled env keeps block s h p =
      header_received-Handled block s (recv_full env fd 16 h).0 (recv_full env fd 16 h).1
        (recv_full-ne-spinning env fd 16 h) (recv_full-keeps P env fd keeps 16 h p)
