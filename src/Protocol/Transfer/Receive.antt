-- ===== src/Protocol/Transfer/Receive.antt =====
-- What `recv_full` hands to its caller.
use nerv_fs.Base.{
  ℕ, zero, suc, ◌+◌, ◌-◌, ◌≤◌, ◌<◌, ◌≡◌, refl, ap, ◌∙◌, ◌⊎◌, inl, inr, Option, none, some, [], ◌∷◌,
  ◌++◌, append-nil, append_assoc, arith, Bytes, length, take, drop, ltb, Bool-cases, length-append,
  take-prefix, drop-prefix, take_nil, drop_nil, sym, subst, ltb→lt,
}
use nerv_fs.Os.{History, Env, read}
use nerv_fs.Protocol.Transfer.{Received, received, recv_chunk, recv_loop, recv_full}

-- `read` on a stream socket: at most as many bytes as asked for, the next ones of the stream, and
-- none only at its end. `pending` is what the peer has yet to deliver.
pub record IsStream (env : Env) (fd : ℕ) (pending : History → Bytes) : Type 0 where
  pub bounded : (h : History) (n : ℕ) (bs : Bytes) → env.read h fd n ≡ some bs → length bs ≤ n
  pub in_order :
      (h : History) (n : ℕ) (bs : Bytes)
      → env.read h fd n ≡ some bs
      → pending h ≡ bs ++ pending (read fd n (some bs) ∷ h)
  pub ends : (h : History) (n : ℕ) → 0 < n → env.read h fd n ≡ some [] → pending h ≡ []

-- A property of the history that reads keep, `recv_full` keeps.
module _ {ℓ} (P : History → Type ℓ) (env : Env) (fd : ℕ)
    (keep : (h : History) (n : ℕ) (bs : Option Bytes) → P h → P (read fd n bs ∷ h)) where
  recv_chunk-keeps :
      (next : Bytes → History → Received × History)
      → ((acc : Bytes) (h : History) → P h → P (next acc h).1)
      → (acc : Bytes) (h : History) (answer : Option Bytes) → P h
      → P (recv_chunk next acc h answer).1
  unfolding recv_chunk
  recv_chunk-keeps next keep_next acc h none p = p
  recv_chunk-keeps next keep_next acc h (some []) p = p
  recv_chunk-keeps next keep_next acc h (some (b ∷ bs)) p = keep_next _ h p

  recv_loop-keeps :
      (len fuel : ℕ) (acc : Bytes) (h : History) → P h → P (recv_loop env fd len fuel acc h).1
  unfolding recv_loop
  recv_loop-keeps len zero acc h p = p
  recv_loop-keeps len (suc fuel) acc h p = elim (Bool-cases (ltb (length acc) len)) [
    | inl e ↦
        rw (e, recv_loop)
          (recv_chunk-keeps (λ acc' h'. recv_loop env fd len fuel acc' h')
            (recv_loop-keeps len fuel) acc _ _ (keep h _ _ p))
    | inr e ↦ rw (e, recv_loop) p
  ]

  pub recv_full-keeps : (len : ℕ) (h : History) → P h → P (recv_full env fd len h).1
  unfolding recv_full
  recv_full-keeps len h p = recv_loop-keeps len (suc len) [] h p

-- The last call was a `read` of the socket that failed.
abbrev pub FailedRead : ℕ → History → Type 0
FailedRead fd h = (h' : History) × (n : ℕ) × (h ≡ read fd n none ∷ h')

-- The rounds from `acc` on: the rest of the bytes asked for, or as many as the stream still has.
abbrev pub Delivers : ℕ → (History → Bytes) → ℕ → Bytes → History → Received × History → Type 0
Delivers fd pending n acc h r =
    ((r.0 ≡ Received.failed) × FailedRead fd r.1)
    ⊎ ((r.0 ≡ received (acc ++ take n (pending h))) × (pending r.1 ≡ drop n (pending h)))

module _ {env : Env} {fd : ℕ} {pending : History → Bytes} (stream : IsStream env fd pending) where
  recv_chunk-Delivers :
      (next : Bytes → History → Received × History) (n : ℕ) (acc : Bytes) (h : History)
      → ((bs : Bytes) (m : ℕ) (h' : History)
          → 0 < length bs
          → length bs + m ≡ n
          → Delivers fd pending m (acc ++ bs) h' (next (acc ++ bs) h'))
      → 0 < n
      → (answer : Option Bytes) → env.read h fd n ≡ answer
      → Delivers fd pending n acc h (recv_chunk next acc (read fd n answer ∷ h) answer)
  unfolding recv_chunk
  recv_chunk-Delivers next n acc h later pos none e = inl (refl, (h, n, refl))
  recv_chunk-Delivers next n acc h later pos (some []) e =
      let over = stream.ends h n pos e in
      inr (
        ap received (sym (rw (over, take_nil n) (append-nil acc))),
        sym (stream.in_order h n [] e) ∙ over ∙ sym (ap (drop n) over ∙ drop_nil n),
      )
  recv_chunk-Delivers next n acc h later pos (some (b ∷ bs)) e =
      let size : length (b ∷ bs) + (n - length (b ∷ bs)) ≡ n =
        omega (arith, stream.bounded h n (b ∷ bs) e) in
      elim (later (b ∷ bs) (n - length (b ∷ bs)) (read fd n (some (b ∷ bs)) ∷ h) (omega arith)
        size) [
          | inl lost ↦ inl lost
          | inr (got, left) ↦ inr (
            got
                ∙ ap received (
                    append_assoc acc (b ∷ bs) _
                    ∙ ap (◌++◌ acc) (
                        sym (
                          ap (take n) (stream.in_order h n (b ∷ bs) e)
                          ∙ take-prefix n _ (b ∷ bs) _ size))),
            left
                ∙ sym (
                    ap (drop n) (stream.in_order h n (b ∷ bs) e) ∙ drop-prefix n _ (b ∷ bs) _ size),
          )
        ]

  recv_loop-Delivers :
      (len fuel : ℕ) (acc : Bytes) (h : History)
      → length acc ≤ len
      → len - length acc < fuel
      → Delivers fd pending (len - length acc) acc h (recv_loop env fd len fuel acc h)
  unfolding recv_loop
  recv_loop-Delivers len zero acc h le enough = absurd (omega arith)
  recv_loop-Delivers len (suc fuel) acc h le enough = elim (Bool-cases (ltb (length acc) len)) [
    | inl e ↦
        rw (e, recv_loop)
          (recv_chunk-Delivers (λ acc' h'. recv_loop env fd len fuel acc' h') (len - length acc) acc
            h
            (λ bs m h' some_bytes size.
              let total = length-append acc bs in
              let rest : len - length (acc ++ bs) ≡ m = omega (arith, total) in
              subst
                (λ k.
                  Delivers fd pending k (acc ++ bs) h' (recv_loop env fd len fuel (acc ++ bs) h'))
                rest
                (recv_loop-Delivers len fuel (acc ++ bs) h' (omega (arith, total))
                  (omega (arith, total))))
            (omega (arith, ltb→lt _ _ e)) (env.read h fd (len - length acc)) refl)
    | inr e ↦
        let full : len - length acc ≡ 0 = ground arith in
        rw (e, recv_loop, full) (inr (ap received (sym (append-nil acc)), refl))
  ]

  -- Whatever pieces the socket delivers, `recv_full` returns -1 right after a failed `read`, its
  -- last call, or it has read exactly the next `len` bytes of the stream, or all that were left if
  -- those were fewer.
  pub recv_full_lem :
      (len : ℕ) (h : History) → Delivers fd pending len [] h (recv_full env fd len h)
  unfolding recv_full
  recv_full_lem len h =
      let whole : len - 0 ≡ len = omega arith in
      subst (λ k. Delivers fd pending k [] h (recv_loop env fd len (suc len) [] h)) whole
        (recv_loop-Delivers len (suc len) [] h (omega arith) (omega arith))
