-- ===== src/Session/Keeps.antt =====
-- What the parts of the loop of _fws_443_run leave as it was.
use facows.Types.{DataCtx}
use facows.Tls.{
  got, stopped, ReadRet, SslErr, Peer, read_stop, read_close, read_loop, net_443_read,
  net_443_write, file_loop, net_443_file_write, resume_at, s32_of,
}
use facows.Session.Measure.{Safely, bind-Safely, if-Safely, Measured}
use facows.Prelude.{
  ℕ, zero, suc, ◌+◌, ◌<◌, min, ◌≡◌, refl, sym, ap, ◌∙◌, Option, none, some, List, [], ◌∷◌, ◌++◌,
  arith, leb, length, take, drop, length-append, ℤ, pos, negsuc, failure, is_negative,
}
use facows.Mem.Run.{ok, ◌>>=◌, Bytes, ok-injective}
use facows.Mem.Libc.{copy, store, write, text, memmem}
use facows.Mem.Laws.{copy-append, store-append, snoc-append, length-snoc, store_fault, text-append}

-- The connection is the one given but for what is left to send of the file.
abbrev KeepsSend : DataCtx → ℤ × DataCtx × Peer → Type 0
KeepsSend ctx r = r.1 ≡ record ctx { file_len = r.1.file_len }

file_loop-KeepsSend :
    (fuel : ℕ) (file : Bytes) (n : ℕ) (ctx : DataCtx) (peer : Peer)
    → Safely (KeepsSend ctx) (file_loop fuel file n ctx peer)
unfolding file_loop
file_loop-KeepsSend zero file n ctx peer = tt
file_loop-KeepsSend (suc fuel) [] n ctx peer = refl
file_loop-KeepsSend (suc fuel) (c ∷ file) n ctx peer =
    by_code (λ p. file_loop-KeepsSend fuel (drop 4096 (c ∷ file)) _ ctx p)
      (net_443_write peer (take 4096 (c ∷ file)))
  where
    by_code :
        ((p : Peer)
          → Safely
              (KeepsSend ctx)
              (file_loop fuel (drop 4096 (c ∷ file)) (n + min 4096 (length (c ∷ file))) ctx p))
        → (r : ℤ × Peer)
        → Safely (KeepsSend ctx) (elim r.0 [
          | pos zero ↦ ok (pos 1, record ctx { file_len = s32_of n }, r.1)
          | negsuc _ ↦ ok (failure, record ctx { file_len = pos 0 }, r.1)
          | pos (suc _) ↦
              file_loop fuel (drop 4096 (c ∷ file)) (n + min 4096 (length (c ∷ file))) ctx r.1
        ])
    by_code ih (pos zero, p) = refl
    by_code ih (negsuc k, p) = refl
    by_code ih (pos (suc k), p) = ih p

pub net_443_file_write-KeepsSend :
    (file : Option Bytes) (ctx : DataCtx) (peer : Peer)
    → Safely (KeepsSend ctx) (net_443_file_write file ctx peer)
unfolding net_443_file_write
net_443_file_write-KeepsSend none ctx peer = refl
net_443_file_write-KeepsSend (some file) ctx peer =
    if-Safely (KeepsSend ctx) (is_negative (s32_of (resume_at ctx.file_len))) _ _ (λ _. refl)
      (λ _. file_loop-KeepsSend (suc (length file)) _ _ ctx peer)

-- The connection is the one given but for the buffer and the count.
abbrev KeepsRead : DataCtx → ℤ × DataCtx × Peer → Type 0
KeepsRead ctx r = r.1 ≡ record ctx { req_buf = r.1.req_buf; acc_read_n = r.1.acc_read_n }

read_stop-KeepsRead :
    (e : SslErr) (ctx : DataCtx) (peer : Peer) (n : ℕ) → KeepsRead ctx (read_stop e ctx peer n)
unfolding read_stop read_close
read_stop-KeepsRead SslErr.want_read ctx peer n = refl
read_stop-KeepsRead SslErr.want_write ctx peer n = refl
read_stop-KeepsRead SslErr.syscall ctx peer n = refl
read_stop-KeepsRead SslErr.zero_return ctx peer n = refl
read_stop-KeepsRead SslErr.ssl ctx peer n = refl
read_stop-KeepsRead SslErr.other_error ctx peer n = refl

read_loop-KeepsRead :
    (reads : List ReadRet) (ctx : DataCtx) (peer : Peer) (n : ℕ)
    → Safely (KeepsRead ctx) (read_loop reads ctx peer n)
unfolding read_loop read_close
read_loop-KeepsRead [] ctx peer n =
    read_stop-KeepsRead SslErr.want_read ctx (record peer { reads = [] }) n
read_loop-KeepsRead (stopped e ∷ reads) ctx peer n =
    read_stop-KeepsRead e ctx (record peer { reads = reads }) n
read_loop-KeepsRead (got s ∷ reads) ctx peer n = bind-Safely _ (write ctx.req_buf n s) _ (λ buf _.
    if-Safely _ (leb 8191 (n + length s)) _ _ (λ _. refl)
      (λ _. bind-Safely _ (memmem buf (n + length s) _) _ (λ end_ret _.
        by_end buf (read_loop-KeepsRead reads (record ctx { req_buf = buf }) peer (n + length s))
          end_ret)))
  where
    by_end :
        (buf : Bytes)
        → Safely
            (KeepsRead ctx)
            (read_loop reads (record ctx { req_buf = buf }) peer (n + length s))
        → (end_ret : Option ℕ)
        → Safely (KeepsRead ctx) (elim end_ret [
          | none ↦ read_loop reads (record ctx { req_buf = buf }) peer (n + length s)
          | some _ ↦ store buf (n + length s) 0 >>= λ req_buf. ok (
              read_close (pos 1) (record ctx { req_buf = req_buf }) (record peer { reads = reads }))
        ])
    by_end buf ih none = ih
    by_end buf ih (some k) = bind-Safely _ (store buf (n + length s) 0) _ (λ b _. refl)

pub net_443_read-KeepsRead :
    (ctx : DataCtx) (peer : Peer) → Safely (KeepsRead ctx) (net_443_read ctx peer)
unfolding net_443_read
net_443_read-KeepsRead ctx peer = read_loop-KeepsRead peer.reads (record ctx { acc_read_n = 0 }) _ _

-- A text that has been written into an array stands in it.
write-eq-ok :
    (s pre post : Bytes) {d : Bytes}
    → write (pre ++ post) (length pre) s ≡ ok d
    → d ≡ pre ++ (s ++ drop (length s) post)
unfolding write
write-eq-ok [] pre post e = ok-injective (sym e)
write-eq-ok (c ∷ s) pre [] e =
    absurd (ground (arith, store_fault (pre ++ []) (length pre) c, length-append pre []))
write-eq-ok (c ∷ s) pre (y ∷ post) {d} e =
    let stored : write ((pre ++ c ∷ []) ++ post) (length (pre ++ c ∷ [])) s ≡ ok d =
      rw (snoc-append pre post c, length-snoc pre c) (rw (store-append pre post y c) at e) in
    write-eq-ok s (pre ++ c ∷ []) post stored ∙ snoc-append pre _ c

-- The path that is copied into the connection is the path of the file.
pub text-copied :
    (path file_path s d : Bytes) (n : ℕ)
    → Measured path 4096 n
    → n < 4096
    → copy path (n + 1) ≡ ok s
    → write file_path 0 s ≡ ok d
    → text d ≡ text path
text-copied path file_path s d n m short c w =
    let (rest, b) = m.ends short in
    let s0 = m.front ++ 0 ∷ [] in
    let held : path ≡ m.front ++ 0 ∷ rest = m.splits ∙ ap (◌++◌ m.front) b in
    let whole : path ≡ s0 ++ rest = held ∙ sym (snoc-append m.front rest 0) in
    let size : n + 1 ≡ length s0 = omega (arith, length-snoc m.front 0, m.size) in
    let copied : copy path (n + 1) ≡ ok s0 = rw (size, whole) (copy-append s0 rest) in
    let same : s ≡ s0 = ok-injective (sym c ∙ copied) in
    let after = drop (length s0) file_path in
    let put : d ≡ s0 ++ after = write-eq-ok s0 [] file_path (rw same at w) in
    let put' : d ≡ m.front ++ 0 ∷ after = put ∙ snoc-append m.front after 0 in
    rw (put', held, text-append m.front after m.no_nul, text-append m.front rest m.no_nul)
