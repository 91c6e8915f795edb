-- ===== src/Tls/Sent.antt =====
-- net_443_file_write: what SSL_write takes, and what has been sent of a file.
use facows.Types.{DataCtx}
use facows.Tls.{
  WriteRet, taken, refused, SslErr, want_read, want_write, Peer, net_443_write, write_stop, s32_of,
}
use facows.Prelude.{
  ℕ, ◌^◌, ◌≤◌, ◌<◌, ◌≡◌, refl, ◌⊎◌, inl, inr, List, [], ◌∷◌, ◌++◌, arith, length, ℤ, pos, failure,
}
use facows.Mem.Run.{Bytes}

-- SSL_write only ever takes the buffer or asks to be called again.
abbrev pub Patient : List WriteRet → Type 0
Patient [] = Unit
Patient (taken ∷ writes) = Patient writes
Patient (refused want_read ∷ writes) = Patient writes
Patient (refused want_write ∷ writes) = Patient writes
Patient (refused _ ∷ writes) = ⊥

-- What a call comes to.
abbrev pub Wrote : Peer → Bytes → ℤ × Peer → Type 0
Wrote peer s (ret, p) =
    ((ret ≡ pos 1) × (p.sent ≡ peer.sent ++ s) × (Patient peer.writes → Patient p.writes))
    ⊎ ((ret ≡ pos 0) × (p.sent ≡ peer.sent))
    ⊎ ((ret ≡ failure) × (p.sent ≡ peer.sent) × ¬ Patient peer.writes)

pub write-Wrote : (peer : Peer) (s : Bytes) → Wrote peer s (net_443_write peer s)
unfolding net_443_write write_stop
write-Wrote peer s = go peer.writes
  where
    go :
        (writes : List WriteRet)
        → Wrote
            (record peer { writes = writes })
            s
            (net_443_write (record peer { writes = writes }) s)
    go [] = inr (inl (refl, refl))
    go (taken ∷ writes) = inl (refl, refl, λ h. h)
    go (refused want_read ∷ writes) = inr (inl (refl, refl))
    go (refused want_write ∷ writes) = inr (inl (refl, refl))
    go (refused SslErr.syscall ∷ writes) = inr (inr (refl, refl, λ h. h))
    go (refused SslErr.zero_return ∷ writes) = inr (inr (refl, refl, λ h. h))
    go (refused SslErr.ssl ∷ writes) = inr (inr (refl, refl, λ h. h))
    go (refused SslErr.other_error ∷ writes) = inr (inr (refl, refl, λ h. h))

-- After a call: the file is what has been sent of it, `front`, and what is left. The result is 0 when
-- nothing is left, 1 when the connection remembers where to go on, and a failure when SSL_write did
-- more than ask to be called again.
pub record Sent (base file : Bytes) (k : ℕ) (Asked : Type 0) (r : ℤ × DataCtx × Peer) : Type 0 where
  pub front : Bytes
  pub left : Bytes
  pub splits : file ≡ front ++ left
  pub sent : r.2.sent ≡ base ++ front
  pub no_less : k ≤ length front
  pub outcome :
      ((r.0 ≡ pos 0) × (r.1.file_len ≡ pos 0) × (left ≡ []))
      ⊎ ((r.0 ≡ pos 1) × (r.1.file_len ≡ pos (length front)) × (0 < length left))
      ⊎ ((r.0 ≡ failure) × (r.1.file_len ≡ pos 0) × ¬ Asked)

pub s32_of-small : (n : ℕ) → n < 2 ^ 31 → s32_of n ≡ pos n
unfolding s32_of
s32_of-small n h = ground arith
