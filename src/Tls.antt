-- ===== src/Tls.antt =====
-- src/net_443.c: reading requests from a TLS connection and writing to it.
pub mod Search
pub mod Gather
pub mod Resume
pub mod Cut
pub mod Sent
pub mod FileLoop
pub mod Calls
pub mod Events
pub mod Delivery
pub mod Answer
pub mod Parts
pub mod Header
pub mod Ends
use facows.Types.{DataCtx}
use facows.Prelude.{
  ℕ, zero, suc, ◌+◌, ◌-◌, ◌%◌, ◌^◌, min, Option, none, some, List, [], ◌∷◌, ◌++◌, ltb, leb,
  if◌then◌else◌, length, take, drop, ℤ, pos, negsuc, failure, is_negative,
}
use facows.Mem.Run.{Run, ok, out_of_fuel, ◌>>=◌, Bytes}
use facows.Mem.Libc.{store, write, memmem}

-- What SSL_get_error says of a call that has failed.
pub data SslErr : Type 0 where
  want_read : SslErr
  want_write : SslErr
  syscall : SslErr
  zero_return : SslErr
  ssl : SslErr
  other_error : SslErr

-- What a call of SSL_read comes to: bytes, or the error behind a result of 0 or less.
pub data ReadRet : Type 0 where
  got : Bytes → ReadRet
  stopped : SslErr → ReadRet

-- What a call of SSL_write comes to: the whole buffer is taken, or nothing of it.
pub data WriteRet : Type 0 where
  taken : WriteRet
  refused : SslErr → WriteRet

-- The events that epoll has been told to wait for.
pub data Interest : Type 0 where
  epollin : Interest
  epollout : Interest

-- The other side of a connection: what the next calls of SSL_read and SSL_write come to, the bytes
-- that SSL_write has taken so far, and the events waited for. Where a list has come to its end, the
-- calls ask to be repeated.
pub record Peer : Type 0 where
  pub reads : List ReadRet
  pub writes : List WriteRet
  pub sent : Bytes
  pub interest : Interest

-- "\r\n\r\n"
abbrev pub nl2_str : Bytes
nl2_str = b'\r' ∷ b'\n' ∷ b'\r' ∷ b'\n' ∷ []

-- The end of net_443_read with a result that is no 0: nothing is kept for a later call.
unfoldable pub read_close : ℤ → DataCtx → Peer → ℤ × DataCtx × Peer
read_close ret client_ctx peer =
    (ret, record client_ctx { acc_read_n = 0 }, record peer { interest = epollin })

-- SSL_read has failed after `acc_read_n` bytes.
unfoldable pub read_stop : SslErr → DataCtx → Peer → ℕ → ℤ × DataCtx × Peer
unfolding read_close
read_stop want_read client_ctx peer acc_read_n =
    (pos 0, record client_ctx { acc_read_n = acc_read_n }, record peer { interest = epollin })
read_stop want_write client_ctx peer acc_read_n =
    (pos 0, record client_ctx { acc_read_n = acc_read_n }, record peer { interest = epollout })
read_stop _ client_ctx peer acc_read_n = read_close failure client_ctx peer

-- The loop of net_443_read, a round for each result of SSL_read.
unfoldable pub read_loop : List ReadRet → DataCtx → Peer → ℕ → Run (ℤ × DataCtx × Peer)
unfolding read_stop
read_loop [] client_ctx peer acc_read_n =
    ok (read_stop want_read client_ctx (record peer { reads = [] }) acc_read_n)
read_loop (stopped err_code ∷ reads) client_ctx peer acc_read_n =
    ok (read_stop err_code client_ctx (record peer { reads = reads }) acc_read_n)
read_loop (got s ∷ reads) client_ctx peer acc_read_n =
    write client_ctx.req_buf acc_read_n s >>= λ req_buf.
    if leb 8191 (acc_read_n + length s)
    then ok (
        read_close (negsuc 430) (record client_ctx { req_buf = req_buf })
          (record peer { reads = reads }))
    else (memmem req_buf (acc_read_n + length s) nl2_str >>= λ end_ret. elim end_ret [
      | none ↦
          read_loop reads (record client_ctx { req_buf = req_buf }) peer (acc_read_n + length s)
      | some _ ↦ store req_buf (acc_read_n + length s) 0 >>= λ req_buf. ok (
          read_close (pos 1) (record client_ctx { req_buf = req_buf })
            (record peer { reads = reads }))
    ])

-- net_443_read: the return code, the connection, and the other side of it. Each end of the loop sets
-- the count, the events and the results of SSL_read that are left.
unfoldable pub net_443_read : DataCtx → Peer → Run (ℤ × DataCtx × Peer)
net_443_read client_ctx peer =
    read_loop peer.reads (record client_ctx { acc_read_n = 0 })
      (record peer { reads = []; interest = epollin }) client_ctx.acc_read_n

-- The end of net_443_write: err_code is 0 where SSL_write has taken the buffer.
unfoldable pub write_stop : SslErr → Peer → ℤ × Peer
write_stop want_write peer = (pos 0, record peer { interest = epollout })
write_stop want_read peer = (pos 0, record peer { interest = epollin })
write_stop _ peer = (failure, record peer { interest = epollin })

-- net_443_write
unfoldable pub net_443_write : Peer → Bytes → ℤ × Peer
unfolding write_stop
net_443_write peer src_buf = elim peer.writes [
  | [] ↦ write_stop want_write peer
  | refused err_code ∷ writes ↦ write_stop err_code (record peer { writes = writes })
  | taken ∷ writes ↦
      (pos 1, record peer { writes = writes; sent = peer.sent ++ src_buf; interest = epollin })
]

-- An unsigned value assigned to an s32
unfoldable pub s32_of : ℕ → ℤ
s32_of n = let r = n % 2 ^ 32 in if ltb r (2 ^ 31) then pos r else negsuc (2 ^ 32 - 1 - r)

-- Where net_443_file_write goes on: `file_len`, when it is positive.
unfoldable pub resume_at : ℤ → ℕ
resume_at (pos n) = n
resume_at (negsuc n) = 0

-- The loop of net_443_file_write: `file` is what is left to read, `read_acc_size` what has been
-- sent. A round takes at least one byte of the file.
unfoldable pub file_loop : ℕ → Bytes → ℕ → DataCtx → Peer → Run (ℤ × DataCtx × Peer)
file_loop zero file read_acc_size client_ctx peer = out_of_fuel
file_loop (suc fuel) [] read_acc_size client_ctx peer =
    ok (pos 0, record client_ctx { file_len = pos 0 }, peer)
file_loop (suc fuel) (c ∷ file) read_acc_size client_ctx peer =
    let read_size = min 4096 (length (c ∷ file)) in
    let (ret, peer) = net_443_write peer (take 4096 (c ∷ file)) in
    elim ret [
      | pos zero ↦ ok (pos 1, record client_ctx { file_len = s32_of read_acc_size }, peer)
      | negsuc _ ↦ ok (failure, record client_ctx { file_len = pos 0 }, peer)
      | pos (suc _) ↦
          file_loop fuel (drop 4096 (c ∷ file)) (read_acc_size + read_size) client_ctx peer
    ]

-- net_443_file_write: `file` is what open and read give of the path in this call: none where open fails,
-- else the bytes up to the end of the file or to the place where read fails, which ends the loop in the
-- same way. lseek gives back the offset, here as an s32.
unfoldable pub net_443_file_write : Option Bytes → DataCtx → Peer → Run (ℤ × DataCtx × Peer)
net_443_file_write none client_ctx peer = ok (failure, client_ctx, peer)
net_443_file_write (some file) client_ctx peer =
    let read_acc_size = resume_at client_ctx.file_len in
    if is_negative (s32_of read_acc_size)
    then ok (failure, client_ctx, peer)
    else file_loop (suc (length file)) (drop read_acc_size file) read_acc_size client_ctx peer

-- The calls of net_443_file_write for one file, as _fws_443_run of src/fws.c makes them: one when the
-- headers are sent, and one more for each event of the connection, as long as the result is 1.
-- `events` has what open and read give in each of them, and the results of SSL_write.
unfoldable pub file_events :
    List (Option Bytes × List WriteRet) → DataCtx → Peer → Run (ℤ × DataCtx × Peer)
file_events [] client_ctx peer = ok (pos 1, client_ctx, peer)
file_events ((file, writes) ∷ events) client_ctx peer =
    net_443_file_write file client_ctx (record peer { writes = writes }) >>= λ r.
    let (ret, client_ctx, peer) = r in
    elim ret [
      | pos (suc zero) ↦ file_events events client_ctx peer
      | code ↦ ok (code, client_ctx, peer)
    ]
