-- ===== src/Tls/Gather.antt =====
-- net_443_read: the bytes of a request, in whatever pieces they come.
use facows.Types.{DataCtx}
use facows.Tls.{got, epollin, ReadRet, Peer, nl2_str, read_loop, read_stop, read_close}
use facows.Mem.Laws.{store-append, write-append, drop-cons}
use facows.Prelude.{
  ℕ, ◌+◌, ◌≤◌, ◌≡◌, refl, sym, inl, inr, true, false, List, [], ◌∷◌, ◌++◌, map, append_assoc, arith,
  leb, if◌then◌else◌, Bool-cases, length, drop, length-append, length-drop, ℤ, pos, negsuc,
}
use facows.Mem.Run.{Run, ok, Bytes}
use facows.Mem.Libc.{write}
use facows.Tls.Search.{holds, memmem-none, memmem-some}

-- What the pieces of a request come to: the text is not whole yet, or it is, or it does not fit. The
-- pieces that are left over are kept.
pub data Gathered : Type 0 where
  waiting : Bytes → Gathered
  whole : Bytes → List Bytes → Gathered
  too_long : List Bytes → Gathered

-- The pieces are put together behind `text` until an empty line ends it.
abbrev pub gather : Bytes → List Bytes → Gathered
gather s [] = waiting s
gather s (piece ∷ pieces) =
    let rest = gather (s ++ piece) pieces in
    if leb 8191 (length (s ++ piece))
    then too_long pieces
    else if holds nl2_str (s ++ piece)
    then whole (s ++ piece) pieces
    else rest

-- What net_443_read leaves for each of them.
abbrev pub Shows : Gathered → DataCtx → ℤ × DataCtx × Peer → Type 0
Shows (waiting s) ctx (ret, c, peer) =
    (ret ≡ pos 0)
    × (peer.reads ≡ [])
    × (peer.interest ≡ epollin)
    × ((post : Bytes) × (c ≡ record ctx { acc_read_n = length s; req_buf = s ++ post }))
Shows (whole s pieces) ctx (ret, c, peer) =
    (ret ≡ pos 1)
    × (peer.reads ≡ map got pieces)
    × ((post : Bytes) × (c ≡ record ctx { acc_read_n = 0; req_buf = s ++ 0 ∷ post }))
Shows (too_long pieces) ctx (ret, c, peer) =
    (ret ≡ negsuc 430) × (peer.reads ≡ map got pieces) × (c.acc_read_n ≡ 0)

-- SSL_read gives at most the bytes it is asked for: one byte of the buffer is left for the terminator.
abbrev pub Fits : ℕ → List Bytes → Type 0
Fits n [] = Unit
Fits n (piece ∷ pieces) = (n + length piece ≤ 8191) × Fits (n + length piece) pieces

-- The run gives a result that shows the text.
abbrev pub Reads : Gathered → DataCtx → Run (ℤ × DataCtx × Peer) → Type 0
Reads g ctx m = (r : ℤ × DataCtx × Peer) × (m ≡ ok r) × Shows g ctx r

-- A piece that is written behind the text.
write-piece :
    (s piece post : Bytes)
    → length piece ≤ length post
    → write (s ++ post) (length s) piece ≡ ok ((s ++ piece) ++ drop (length piece) post)
write-piece s piece post h = rw (write-append piece s post h, append_assoc)

-- A piece behind the text, without the empty line.
pub loop_on :
    (s piece post : Bytes) (reads : List ReadRet) (ctx : DataCtx) (peer : Peer)
    → length piece ≤ length post
    → leb 8191 (length (s ++ piece)) ≡ false
    → holds nl2_str (s ++ piece) ≡ false
    → read_loop (got piece ∷ reads) (record ctx { req_buf = s ++ post }) peer (length s)
      ≡ read_loop reads
          (record ctx { req_buf = (s ++ piece) ++ drop (length piece) post })
          peer
          (length (s ++ piece))
unfolding read_loop
loop_on s piece post reads ctx peer fit short h =
    let l : length s + length piece ≡ length (s ++ piece) = sym (length-append s piece) in
    rw (
      write-piece s piece post fit,
      l,
      short,
      memmem-none nl2_str (s ++ piece) (drop (length piece) post) h,
      l,
    )

pub loop_whole :
    (s piece post rest : Bytes) (y : ℕ) (reads : List ReadRet) (ctx : DataCtx) (peer : Peer)
    → length piece ≤ length post
    → leb 8191 (length (s ++ piece)) ≡ false
    → holds nl2_str (s ++ piece) ≡ true
    → drop (length piece) post ≡ y ∷ rest
    → read_loop (got piece ∷ reads) (record ctx { req_buf = s ++ post }) peer (length s)
      ≡ ok (
          read_close
            (pos 1)
            (record ctx { req_buf = (s ++ piece) ++ 0 ∷ rest })
            (record peer { reads = reads }))
unfolding read_loop
loop_whole s piece post rest y reads ctx peer fit short h d =
    let l : length s + length piece ≡ length (s ++ piece) = sym (length-append s piece) in
    let (k, found) = memmem-some nl2_str (s ++ piece) (drop (length piece) post) h in
    rw (write-piece s piece post fit, l, short, found, d, l, store-append (s ++ piece) rest y 0)

pub loop_long :
    (s piece post : Bytes) (reads : List ReadRet) (ctx : DataCtx) (peer : Peer)
    → length piece ≤ length post
    → leb 8191 (length (s ++ piece)) ≡ true
    → read_loop (got piece ∷ reads) (record ctx { req_buf = s ++ post }) peer (length s)
      ≡ ok (
          read_close
            (negsuc 430)
            (record ctx { req_buf = (s ++ piece) ++ drop (length piece) post })
            (record peer { reads = reads }))
unfolding read_loop
loop_long s piece post reads ctx peer fit long =
    let l : length s + length piece ≡ length (s ++ piece) = sym (length-append s piece) in
    rw (write-piece s piece post fit, l, long)

-- net_443_read does to the buffer what `gather` does to the text.
pub read_loop-Reads :
    (s post : Bytes) (pieces : List Bytes) (ctx : DataCtx) (peer : Peer)
    → length s + length post ≡ 8192
    → Fits (length s) pieces
    → Reads
        (gather s pieces)
        ctx
        (read_loop (map got pieces) (record ctx { req_buf = s ++ post }) peer (length s))
unfolding read_loop read_stop read_close
read_loop-Reads s post [] ctx peer n fits = (_, refl, (refl, refl, refl, (post, refl)))
read_loop-Reads s post (piece ∷ pieces) ctx peer n fits =
    let fit : length piece ≤ length post = omega (arith, n, fits.0) in
    let l = length-append s piece in
    let d = length-drop (length piece) post in
    elim (Bool-cases (leb 8191 (length (s ++ piece)))) [
      | inl long ↦
          rw long
            ((_, loop_long s piece post (map got pieces) ctx peer fit long, (refl, refl, refl)))
      | inr short ↦ elim (Bool-cases (holds nl2_str (s ++ piece))) [
        | inl done ↦
            let (y, e) = drop-cons (length piece) post (ground (arith, n, l)) in
            rw (short, done)
              ((
                _,
                loop_whole s piece post _ y (map got pieces) ctx peer fit short done e,
                (refl, refl, (_, refl)),
              ))
        | inr more ↦
            let ih =
              read_loop-Reads (s ++ piece) (drop (length piece) post) pieces ctx peer
                (omega (arith, n, l, d, fit)) (rw l fits.1) in
            rw (short, more, loop_on s piece post (map got pieces) ctx peer fit short more) ih
      ]
    ]
