-- ===== src/Tls/Resume.antt =====
-- net_443_read: a request that comes over several events.
use facows.Types.{DataCtx}
use facows.Tls.{got, want_read, epollin, ReadRet, Peer, nl2_str, read_loop, net_443_read, read_stop}
use facows.Tls.Gather.{
  gather, Fits, Reads, loop_on, read_loop-Reads, Gathered, waiting, whole, too_long,
}
use facows.Tls.Search.{holds}
use facows.Prelude.{
  ℕ, ◌+◌, ◌≤◌, ◌≡◌, refl, sym, ap, ◌∙◌, subst, inl, inr, List, [], ◌∷◌, ◌++◌, map, arith, leb,
  Bool-cases, length, drop, length-append, length-drop, ℤ, pos, negsuc,
}
use facows.Mem.Run.{Run, ok, Bytes, ok-injective}

-- The connection has a buffer of 8192 bytes, and `s` in it is what has come of a request.
pub record Ready (ctx : DataCtx) (s : Bytes) : Type 0 where
  pub post : Bytes
  pub holds_text : ctx.req_buf ≡ s ++ post
  pub size : length s + length post ≡ 8192
  pub count : ctx.acc_read_n ≡ length s

-- What holds of the buffer and the count holds of the connection.
at-Ready :
    (P : DataCtx → ℕ → Type 0) {ctx : DataCtx} {s : Bytes} (ready : Ready ctx s)
    → P (record ctx { req_buf = s ++ ready.post }) (length s)
    → P ctx ctx.acc_read_n
at-Ready P {ctx} {s} ready h =
    subst (P ctx) (sym ready.count)
      (subst (λ b. P (record ctx { req_buf = b }) (length s)) (sym ready.holds_text) h)

-- The count of the connection before the call shows nowhere.
Reads-count :
    (g : Gathered) (ctx : DataCtx) {m : Run (ℤ × DataCtx × Peer)}
    → Reads g (record ctx { acc_read_n = 0 }) m
    → Reads g ctx m
Reads-count (waiting s) ctx h = h
Reads-count (whole s pieces) ctx h = h
Reads-count (too_long pieces) ctx h = h

-- When SSL_read gives no more than it is asked for, net_443_read comes to an end without a fault, and
-- what it leaves is what `gather` makes of the text.
pub net_443_read-Reads :
    (ctx : DataCtx) (peer : Peer) (s : Bytes) (pieces : List Bytes)
    → Ready ctx s
    → Fits (length s) pieces
    → Reads (gather s pieces) ctx (net_443_read ctx (record peer { reads = map got pieces }))
unfolding net_443_read
net_443_read-Reads ctx peer s pieces ready fits =
    let idle = record peer { reads = []; interest = epollin } in
    at-Ready
      (λ c n.
        Reads (gather s pieces) ctx
          (read_loop (map got pieces) (record c { acc_read_n = 0 }) idle n))
      ready
      (Reads-count (gather s pieces) ctx
        (read_loop-Reads s ready.post pieces (record ctx { acc_read_n = 0 }) idle ready.size fits))

-- Where the text is not whole yet, the loop has stored it, and goes on with whatever comes next.
record Waits (s post t : Bytes) (pieces : List Bytes) (ctx : DataCtx) (peer : Peer) : Type 0 where
  post_t : Bytes
  stops :
      read_loop (map got pieces) (record ctx { req_buf = s ++ post }) peer (length s)
      ≡ ok (
          read_stop want_read
            (record ctx { req_buf = t ++ post_t })
            (record peer { reads = [] })
            (length t))
  goes_on :
      (rest : List ReadRet)
      → read_loop (map got pieces ++ rest) (record ctx { req_buf = s ++ post }) peer (length s)
        ≡ read_loop rest (record ctx { req_buf = t ++ post_t }) peer (length t)

abbrev waiting_text : Gathered → Bytes
waiting_text (waiting s) = s
waiting_text _ = []

loop-Waits :
    (s post t : Bytes) (pieces : List Bytes) (ctx : DataCtx) (peer : Peer)
    → length s + length post ≡ 8192
    → Fits (length s) pieces
    → gather s pieces ≡ waiting t
    → Waits s post t pieces ctx peer
unfolding read_loop
loop-Waits s post t [] ctx peer n fits g =
    let e : s ≡ t = ap waiting_text g in
    record { post_t = post; stops = rw e; goes_on = λ rest. rw e }
loop-Waits s post t (piece ∷ pieces) ctx peer n fits g =
    let fit : length piece ≤ length post = omega (arith, n, fits.0) in
    let l = length-append s piece in
    let d = length-drop (length piece) post in
    elim (Bool-cases (leb 8191 (length (s ++ piece)))) [
      | inl long ↦ absurd (ground arith)
      | inr short ↦ elim (Bool-cases (holds nl2_str (s ++ piece))) [
        | inl done ↦ absurd (ground arith)
        | inr more ↦
            let ih =
              loop-Waits (s ++ piece) (drop (length piece) post) t pieces ctx peer
                (omega (arith, n, l, d, fit)) (rw l fits.1) (rw (short, more) at g) in
            record {
              post_t = ih.post_t;
              stops = loop_on s piece post (map got pieces) ctx peer fit short more ∙ ih.stops;
              goes_on = λ rest.
                  loop_on s piece post (map got pieces ++ rest) ctx peer fit short more
                  ∙ ih.goes_on rest;
            }
      ]
    ]

-- The result of a call that asks to be called again.
waits_code :
    (g : Gathered) (ctx c : DataCtx) (p : Peer) {m : Run (ℤ × DataCtx × Peer)}
    → Reads g ctx m
    → m ≡ ok (pos 0, c, p)
    → g ≡ waiting (waiting_text g)
waits_code (waiting s) ctx c p r e = refl
waits_code (whole s pieces) ctx c p (r, q, shows) e =
    let k : pos 1 ≡ pos 0 = sym shows.0 ∙ ap (λ x. x.0) (ok-injective (sym q ∙ e)) in
    absurd (ground arith)
waits_code (too_long pieces) ctx c p (r, q, shows) e =
    let k : negsuc 430 ≡ pos 0 = sym shows.0 ∙ ap (λ x. x.0) (ok-injective (sym q ∙ e)) in
    absurd (cc)

-- For a connection whose buffer of 8192 bytes holds the text so far, and SSL_read that gives no more
-- than it is asked for: a call that asks to be called again, followed by the next call, is one call
-- that gets all the results of SSL_read.
pub net_443_read_again :
    (ctx c : DataCtx) (peer p : Peer) (s : Bytes) (pieces : List Bytes) (rest : List ReadRet)
    → Ready ctx s
    → Fits (length s) pieces
    → net_443_read ctx (record peer { reads = map got pieces }) ≡ ok (pos 0, c, p)
    → net_443_read c (record p { reads = rest })
      ≡ net_443_read ctx (record peer { reads = map got pieces ++ rest })
unfolding net_443_read read_stop
net_443_read_again ctx c peer p s pieces rest ready fits e =
    let idle = record peer { reads = []; interest = epollin } in
    let reads = net_443_read-Reads ctx peer s pieces ready fits in
    let g = waits_code (gather s pieces) ctx c p reads e in
    let t = waiting_text (gather s pieces) in
    let w =
      loop-Waits s ready.post t pieces (record ctx { acc_read_n = 0 }) idle ready.size fits g in
    let after = record ctx { acc_read_n = 0; req_buf = t ++ w.post_t } in
    let stops =
      at-Ready
        (λ c n.
          read_loop (map got pieces) (record c { acc_read_n = 0 }) idle n
          ≡ ok (pos 0, record after { acc_read_n = length t }, idle))
        ready w.stops in
    let goes_on =
      at-Ready
        (λ c n.
          read_loop (map got pieces ++ rest) (record c { acc_read_n = 0 }) idle n
          ≡ read_loop rest after idle (length t))
        ready (w.goes_on rest) in
    ap (λ x. net_443_read x.1 (record x.2 { reads = rest })) (ok-injective (sym e ∙ stops))
    ∙ sym goes_on
