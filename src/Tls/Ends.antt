-- ===== src/Tls/Ends.antt =====
-- net_443_read, net_443_file_write and net_443_res_write come to an end, and what they leave to read.
use facows.Types.{Conf, HttpReq, HttpRes, DataCtx}
use facows.Tls.{
  SslErr, ReadRet, WriteRet, Peer, got, stopped, taken, refused, epollin, want_read, want_write,
  read_close, read_stop, read_loop, net_443_read, write_stop, net_443_write, s32_of, resume_at,
  file_loop, net_443_file_write,
}
use facows.Tls.Answer.{
  nl, status_text, server_text, date_text, cache_text, hsts_text, print_if, headers_print,
  sent_or_failure, net_443_res_write, ErrPage, err_send, net_443_err_write,
}
use facows.Mem.Text.{c_str}
use facows.Mem.TextEnds.{c_str-Ends, print-Ends}
use facows.Prelude.{
  ℕ, zero, suc, ◌+◌, ◌≤◌, ◌<◌, min, ◌≡◌, refl, ap, ◌∙◌, Bool, true, false, not, Option, none, some,
  List, [], ◌∷◌, ◌++◌, arith, leb, ◌==◌, if◌then◌else◌, length, take, drop, length-drop, ℤ, pos,
  negsuc, failure, is_negative,
}
use facows.Mem.Run.{Run, ok, fault, out_of_fuel, Bytes}
use facows.Mem.Libc.{zeros}
use facows.Mem.Ends.{
  Ends, Gives, bind-Gives, bind-Ends, map_run-Ends, if-Gives, option-Gives, memmem-Ends,
  memcmp-Ends, strnlen-Ends, copy-Ends, store-Ends, write-Ends,
}

-- Writing leaves what there is to read.
write_stop-reads : (e : SslErr) (peer : Peer) → (write_stop e peer).1.reads ≡ peer.reads
unfolding write_stop
write_stop-reads SslErr.want_read peer = refl
write_stop-reads SslErr.want_write peer = refl
write_stop-reads SslErr.syscall peer = refl
write_stop-reads SslErr.zero_return peer = refl
write_stop-reads SslErr.ssl peer = refl
write_stop-reads SslErr.other_error peer = refl

pub net_443_write-reads : (peer : Peer) (s : Bytes) → (net_443_write peer s).1.reads ≡ peer.reads
unfolding net_443_write
net_443_write-reads peer s = by_writes peer.writes
  where
    by_writes :
        (w : List WriteRet)
        → (let r : ℤ × Peer = elim w [
          | [] ↦ write_stop want_write peer
          | refused err_code ∷ writes ↦ write_stop err_code (record peer { writes = writes })
          | taken ∷ writes ↦
              (pos 1, record peer { writes = writes; sent = peer.sent ++ s; interest = epollin })
        ] in
            r.1.reads ≡ peer.reads)
    by_writes [] = write_stop-reads want_write peer
    by_writes (refused e ∷ writes) = write_stop-reads e (record peer { writes = writes })
    by_writes (taken ∷ writes) = refl

-- What is read is taken from what there is.
abbrev pub ReadLess : List ReadRet → ℤ × DataCtx × Peer → Type 0
ReadLess reads (pos (suc k), ctx, peer) = suc (length peer.reads) ≤ length reads
ReadLess reads (pos zero, ctx, peer) = Unit
ReadLess reads (negsuc k, ctx, peer) = Unit

ReadLess-suc :
    (x : ReadRet) (reads : List ReadRet) (r : ℤ × DataCtx × Peer)
    → ReadLess reads r
    → ReadLess (x ∷ reads) r
ReadLess-suc x reads (pos (suc k), ctx, peer) h = omega (arith, h)
ReadLess-suc x reads (pos zero, ctx, peer) h = tt
ReadLess-suc x reads (negsuc k, ctx, peer) h = tt

read_stop-ReadLess :
    (e : SslErr) (reads : List ReadRet) (ctx : DataCtx) (peer : Peer) (n : ℕ)
    → ReadLess reads (read_stop e ctx peer n)
unfolding read_stop read_close
read_stop-ReadLess SslErr.want_read reads ctx peer n = tt
read_stop-ReadLess SslErr.want_write reads ctx peer n = tt
read_stop-ReadLess SslErr.syscall reads ctx peer n = tt
read_stop-ReadLess SslErr.zero_return reads ctx peer n = tt
read_stop-ReadLess SslErr.ssl reads ctx peer n = tt
read_stop-ReadLess SslErr.other_error reads ctx peer n = tt

Gives-map {ℓ} :
    {A : Type ℓ} (P Q : A → Type 0) (m : Run A) → ((a : A) → P a → Q a) → Gives P m → Gives Q m
Gives-map P Q (ok a) h g = h a g
Gives-map P Q fault h g = tt
Gives-map P Q out_of_fuel h g = absurd g

read_loop-ReadLess :
    (reads : List ReadRet) (ctx : DataCtx) (peer : Peer) (n : ℕ)
    → Gives (ReadLess reads) (read_loop reads ctx peer n)
unfolding read_loop read_close
read_loop-ReadLess [] ctx peer n =
    read_stop-ReadLess want_read [] ctx (record peer { reads = [] }) n
read_loop-ReadLess (stopped e ∷ reads) ctx peer n =
    read_stop-ReadLess e (stopped e ∷ reads) ctx (record peer { reads = reads }) n
read_loop-ReadLess (got s ∷ reads) ctx peer n =
    bind-Gives _ _ _ (write-Ends ctx.req_buf n s) (λ b _.
      if-Gives _ (leb 8191 (n + length s)) _ _ (λ _. tt)
        (λ _. bind-Gives _ _ _ (memmem-Ends b (n + length s) _) (λ end _.
          option-Gives _ end _ _
            (Gives-map (ReadLess reads) (ReadLess (got s ∷ reads))
              (read_loop reads (record ctx { req_buf = b }) peer (n + length s))
              (ReadLess-suc (got s) reads)
              (read_loop-ReadLess reads (record ctx { req_buf = b }) peer (n + length s)))
            (λ k. bind-Gives _ _ _ (store-Ends b (n + length s) 0) (λ d _. omega arith)))))

pub net_443_read-ReadLess :
    (ctx : DataCtx) (peer : Peer) → Gives (ReadLess peer.reads) (net_443_read ctx peer)
unfolding net_443_read
net_443_read-ReadLess ctx peer = read_loop-ReadLess peer.reads _ _ _

-- What there is to read is left as it was.
abbrev pub SameReads : Peer → ℤ × DataCtx × Peer → Type 0
SameReads peer r = r.2.reads ≡ peer.reads

file_loop-reads :
    (fuel : ℕ) (file : Bytes) (n : ℕ) (ctx : DataCtx) (peer : Peer)
    → length file < fuel
    → Gives (SameReads peer) (file_loop fuel file n ctx peer)
unfolding file_loop
file_loop-reads zero file n ctx peer h = absurd (omega arith)
file_loop-reads (suc fuel) [] n ctx peer h = refl
file_loop-reads (suc fuel) (c ∷ file) n ctx peer h =
    by_code (net_443_write peer (take 4096 (c ∷ file)))
      (net_443_write-reads peer (take 4096 (c ∷ file)))
      (λ p.
        file_loop-reads fuel (drop 4096 (c ∷ file)) (n + min 4096 (length (c ∷ file))) ctx p
          (omega (arith, h, length-drop 4096 (c ∷ file))))
  where
    by_code :
        (r : ℤ × Peer)
        → r.1.reads ≡ peer.reads
        → ((p : Peer)
            → Gives
                (SameReads p)
                (file_loop fuel (drop 4096 (c ∷ file)) (n + min 4096 (length (c ∷ file))) ctx p))
        → Gives (SameReads peer) (elim r.0 [
          | pos zero ↦ ok (pos 1, record ctx { file_len = s32_of n }, r.1)
          | negsuc _ ↦ ok (failure, record ctx { file_len = pos 0 }, r.1)
          | pos (suc _) ↦
              file_loop fuel (drop 4096 (c ∷ file)) (n + min 4096 (length (c ∷ file))) ctx r.1
        ])
    by_code (pos zero, p) e ih = e
    by_code (negsuc k, p) e ih = e
    by_code (pos (suc k), p) e ih = Gives-map (SameReads p) (SameReads peer) _ (λ x g. g ∙ e) (ih p)

pub net_443_file_write-reads :
    (file : Option Bytes) (ctx : DataCtx) (peer : Peer)
    → Gives (SameReads peer) (net_443_file_write file ctx peer)
unfolding net_443_file_write
net_443_file_write-reads none ctx peer = refl
net_443_file_write-reads (some file) ctx peer =
    if-Gives _ (is_negative (s32_of (resume_at ctx.file_len))) _ _ (λ _. refl)
      (λ _.
        file_loop-reads (suc (length file)) (drop (resume_at ctx.file_len) file) _ ctx peer
          (omega (arith, length-drop (resume_at ctx.file_len) file)))

print_if-Ends : (b : Bool) (r : Bytes × ℕ) (m : Run Bytes) → Ends m → Ends (print_if b r m)
print_if-Ends false r m h = tt
print_if-Ends true r m h = bind-Ends _ _ h (λ s _. print-Ends 8192 r.0 r.1 s)

headers_print-Ends :
    (conf : Conf) (res : HttpRes) (n : ℕ) (req : HttpReq) (same : Bool)
    → Ends (headers_print conf res n req same)
unfolding headers_print
headers_print-Ends conf res n req same =
    bind-Ends _ _ (print-Ends 8192 (zeros 8192) 0 (status_text same)) (λ r _.
      bind-Ends _ _ (print-Ends 8192 r.0 r.1 server_text) (λ r _.
        bind-Ends _ _ (c_str-Ends res.date) (λ date _.
          bind-Ends _ _ (print-Ends 8192 r.0 r.1 (date_text date)) (λ r _.
            bind-Ends _ _ (c_str-Ends res.etag) (λ etag _.
              bind-Ends _ _ (print-Ends 8192 r.0 r.1 (cache_text conf.cache_max_age etag)) (λ r _.
                bind-Ends _ _
                  (print_if-Ends (not same) r _
                    (map_run-Ends _ (c_str res.content) (c_str-Ends res.content)))
                  (λ r _.
                    bind-Ends _ _
                      (print_if-Ends (not (res.hsts_max_age == 0)) r
                        (ok (hsts_text res.hsts_max_age)) tt)
                      (λ r _.
                        print_if-Ends res.is_origin_self r _
                          (map_run-Ends _ (c_str req.origin) (c_str-Ends req.origin))))))))))

sent_or_failure-peer : (r : ℤ × Peer) → (sent_or_failure r).1 ≡ r.1
sent_or_failure-peer (pos zero, p) = refl
sent_or_failure-peer (pos (suc n), p) = refl
sent_or_failure-peer (negsuc n, p) = refl

sent_or_failure-reads :
    (peer : Peer) (s : Bytes) → (sent_or_failure (net_443_write peer s)).1.reads ≡ peer.reads
sent_or_failure-reads peer s =
    ap (λ (p : Peer). p.reads) (sent_or_failure-peer (net_443_write peer s))
    ∙ net_443_write-reads peer s

pub net_443_res_write-reads :
    (conf : Conf) (res : HttpRes) (n : ℕ) (req : HttpReq) (peer : Peer)
    → Gives (λ r. r.1.reads ≡ peer.reads) (net_443_res_write conf res n req peer)
unfolding net_443_res_write
net_443_res_write-reads conf res n req peer =
    bind-Gives _ _ _ (memcmp-Ends res.etag req.etag 32) (λ same _.
      bind-Gives _ _ _ (headers_print-Ends conf res n req same) (λ r _.
        bind-Gives _ _ _ (write-Ends r.0 r.1 nl) (λ b _.
          bind-Gives _ _ _ (strnlen-Ends b 8192) (λ k _.
            if-Gives _ (k == 8192) _ _ (λ _. refl)
              (λ _. bind-Gives _ _ _ (copy-Ends b k) (λ s _. sent_or_failure-reads peer s))))))

err_send-reads : (head page : Bytes) (peer : Peer) → (err_send head page peer).1.reads ≡ peer.reads
unfolding err_send
err_send-reads head page peer =
    by_head (sent_or_failure (net_443_write peer head)) (sent_or_failure-reads peer head)
  where
    by_head :
        (r : ℤ × Peer)
        → r.1.reads ≡ peer.reads
        → (if is_negative r.0
            then (failure, r.1)
            else sent_or_failure (net_443_write r.1 page)).1.reads
          ≡ peer.reads
    by_head (pos n, p) e = sent_or_failure-reads p page ∙ e
    by_head (negsuc n, p) e = e

pub net_443_err_write-reads :
    (page : ErrPage) (code : ℕ) (peer : Peer)
    → (net_443_err_write page code peer).1.reads ≡ peer.reads
unfolding net_443_err_write
net_443_err_write-reads none code peer = refl
net_443_err_write-reads (some page) code peer = err_send-reads _ _ peer
