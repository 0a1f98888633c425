-- ===== src/Protocol/Transfer.antt =====
-- `recv_full` and `send_full` of src/protocol.c. The fuel is one more than the number of bytes:
-- each round but the last moves at least one byte.
pub mod Receive
pub mod Send
pub mod Peer
use nerv_fs.Base.{
  ℕ, zero, suc, ◌+◌, ◌-◌, Bool, true, false, Option, none, some, [], ◌∷◌, ◌++◌, Bytes, length, take,
  drop, ltb, ◌==◌, if◌then◌else◌,
}
use nerv_fs.Os.{History, Env, read, write}

-- What `recv_full` returns, with the bytes that it put into the buffer. `spinning` is out of fuel.
pub data Received : Type 0 where
  received : Bytes → Received
  failed : Received
  spinning : Received

-- What a round does with the answer of `read`; `next` makes the rounds that follow.
unfoldable pub recv_chunk :
    (Bytes → History → Received × History) → Bytes → History → Option Bytes → Received × History
recv_chunk next acc h none = (Received.failed, h)
recv_chunk next acc h (some []) = (received acc, h)
recv_chunk next acc h (some (b ∷ bs)) = next (acc ++ b ∷ bs) h

unfoldable pub recv_loop : Env → ℕ → ℕ → ℕ → Bytes → History → Received × History
unfolding recv_chunk
recv_loop env fd len zero acc h = (Received.spinning, h)
recv_loop env fd len (suc fuel) acc h =
    if ltb (length acc) len
    then recv_chunk (λ acc' h'. recv_loop env fd len fuel acc' h') acc
        (read fd (len - length acc) (env.read h fd (len - length acc)) ∷ h)
        (env.read h fd (len - length acc))
    else (received acc, h)

unfoldable pub recv_full : Env → ℕ → ℕ → History → Received × History
unfolding recv_loop
recv_full env fd len h = recv_loop env fd len (suc len) [] h

-- What `send_full` returns. `spinning` is out of fuel.
pub data Sent : Type 0 where
  sent : ℕ → Sent
  failed : Sent
  spinning : Sent

-- What a round does with the answer of `write`.
unfoldable pub send_chunk : (ℕ → History → Sent × History) → ℕ → History → Option ℕ → Sent × History
send_chunk next total h none = (Sent.failed, h)
send_chunk next total h (some n) = next (total + n) h

unfoldable pub send_loop : Env → ℕ → Bytes → ℕ → ℕ → History → Sent × History
unfolding send_chunk
send_loop env fd buf zero total h = (Sent.spinning, h)
send_loop env fd buf (suc fuel) total h =
    if ltb total (length buf)
    then send_chunk (λ total' h'. send_loop env fd buf fuel total' h') total
        (write fd (drop total buf) (env.write h fd (drop total buf)) ∷ h)
        (env.write h fd (drop total buf))
    else (sent total, h)

unfoldable pub send_full : Env → ℕ → Bytes → History → Sent × History
unfolding send_loop
send_full env fd buf h = send_loop env fd buf (suc (length buf)) 0 h

-- The bytes that writes to `fd` have got through, in order.
abbrev pub written : ℕ → History → Bytes
written fd [] = []
written fd (write g bs (some n) ∷ h) = if fd == g then written fd h ++ take n bs else written fd h
written fd (_ ∷ h) = written fd h
