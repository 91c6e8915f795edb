-- ===== src/Tls/Calls.antt =====
-- A call of net_443_file_write, from the place where the connection goes on.
use facows.Types.{DataCtx}
use facows.Tls.{Peer, file_loop, net_443_file_write, resume_at}
use facows.Tls.FileLoop.{file_loop-Loops, Moves, file_loop-Moves}
use facows.Tls.Sent.{Patient, s32_of-small, Sent}
use facows.Prelude.{
  suc, ◌+◌, ◌^◌, ◌≤◌, ◌<◌, min, ◌≡◌, refl, ◌∙◌, some, [], ◌∷◌, ◌++◌, arith, length, drop,
  length-append, length-drop, ℤ, pos,
}
use facows.Mem.Run.{ok, Bytes}

drop-append : (front left : Bytes) → drop (length front) (front ++ left) ≡ left
drop-append [] left = refl
drop-append (x ∷ front) left = drop-append front left

-- The connection goes on behind `front` of a file of less than 2^31 bytes, and has sent that much.
pub record Resumes (base front left : Bytes) (ctx : DataCtx) (peer : Peer) : Type 0 where
  pub small : length (front ++ left) < 2 ^ 31
  pub remembers : ctx.file_len ≡ pos (length front)
  pub has_sent : peer.sent ≡ base ++ front

-- A call of net_443_file_write is the loop over what is left.
file_write-loop :
    (base front left : Bytes) (ctx : DataCtx) (peer : Peer)
    → Resumes base front left ctx peer
    → net_443_file_write (some (front ++ left)) ctx peer
      ≡ file_loop (suc (length (front ++ left))) left (length front) ctx peer
unfolding net_443_file_write resume_at
file_write-loop base front left ctx peer rs =
    let n : length front < 2 ^ 31 = omega (arith, rs.small, length-append front left) in
    rw (rs.remembers, s32_of-small (length front) n, drop-append)

pub net_443_file_write-Sent :
    (base front left : Bytes) (ctx : DataCtx) (peer : Peer)
    → Resumes base front left ctx peer
    → (r : ℤ × DataCtx × Peer) × (net_443_file_write (some (front ++ left)) ctx peer ≡ ok r)
      × Sent base (front ++ left) (length front) (Patient peer.writes) r
net_443_file_write-Sent base front left ctx peer rs =
    let (r, q, o) =
      file_loop-Loops (suc (length (front ++ left))) base front left ctx peer
        (omega (arith, length-append front left)) rs.small rs.has_sent in
    (r, file_write-loop base front left ctx peer rs ∙ q, o)

pub net_443_file_write-Moves :
    (base front left : Bytes) (ctx : DataCtx) (peer : Peer)
    → Moves peer.writes
    → Resumes base front left ctx peer
    → (r : ℤ × DataCtx × Peer) × (net_443_file_write (some (front ++ left)) ctx peer ≡ ok r)
      × Sent base (front ++ left) (length front + min 4096 (length left)) (Patient peer.writes) r
net_443_file_write-Moves base front left ctx peer m rs =
    let (r, q, o) =
      file_loop-Moves (suc (length (front ++ left))) base front left ctx peer m
        (omega (arith, length-append front left)) rs.small rs.has_sent in
    (r, file_write-loop base front left ctx peer rs ∙ q, o)

-- A front of the file, against what has been read of it.
pub front_read :
    (front left s rest : Bytes)
    → front ++ left ≡ s ++ rest
    → length front ≤ length s
    → (m : Bytes) × (s ≡ front ++ m) × (left ≡ m ++ rest)
front_read [] left s rest e h = (s, refl, e)
front_read (x ∷ front) left [] rest e h = absurd (omega arith)
front_read (x ∷ front) left (y ∷ s) rest e h =
    let (m, a, b) = front_read front left s rest (ground arith) (omega (arith, h)) in
    (m, ground arith, b)

pub nil_of_length : (s : Bytes) → length s ≡ 0 → s ≡ []
nil_of_length [] h = refl
nil_of_length (x ∷ s) h = absurd (omega arith)

-- A call in which read fails in front of where it would go on.
pub file_write_short :
    (s front : Bytes) (ctx : DataCtx) (peer : Peer)
    → ctx.file_len ≡ pos (length front)
    → length front < 2 ^ 31
    → length s ≤ length front
    → net_443_file_write (some s) ctx peer ≡ ok (pos 0, record ctx { file_len = pos 0 }, peer)
unfolding net_443_file_write resume_at file_loop
file_write_short s front ctx peer e small h =
    let none_left : drop (length front) s ≡ [] =
      nil_of_length (drop (length front) s) (omega (arith, length-drop (length front) s, h)) in
    rw (e, s32_of-small (length front) small, none_left) refl
