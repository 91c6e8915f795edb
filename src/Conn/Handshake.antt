-- ===== src/Conn/Handshake.antt =====
-- _fws_443_run: a connection whose handshake is not done.
use facows.Types.{DataCtx}
use facows.Session.{State}
use facows.Tls.{SslErr}
use facows.Conn.{
  Visit, not_accepted, ssl_status_new, ssl_status_accept, accept_stop, accept_next, handshake,
  is_closing, conn_out, shaken_next, ktls_flag, conn_requests, fws_443_run, log_head,
}
use facows.Mem.Text.{print-filled, filled}
use facows.Prelude.{
  ℕ, ◌+◌, ◌<◌, ◌≡◌, refl, ◌≢◌, inl, inr, Bool, not, ◌&&◌, some, [], ◌∷◌, ◌++◌, append-nil, arith,
  ◌==◌, ne→not_==, Bool-cases, length, length-append, ℤ, failure,
}
use facows.Mem.Run.{Run, ok, Bytes}

-- Nothing has been read or sent, opened, counted or written to the parent.
pub record Untouched (st st' : State) : Type 0 where
  pub messages : st'.messages ≡ st.messages
  pub opened : st'.opened ≡ st.opened
  pub nft_arr : st'.nft_arr ≡ st.nft_arr
  pub sent : st'.peer.sent ≡ st.peer.sent
  pub reads : st'.peer.reads ≡ st.peer.reads
  pub status : st'.client_ctx.ssl_status ≢ ssl_status_accept

-- The call ends, touches nothing, and closes the connection or waits for another event.
abbrev pub EndsUntouched : State → Run (ℤ × Bool × State) → Type 0
EndsUntouched st m =
    (ret : ℤ) × (closed : Bool) × (st' : State) × (m ≡ ok (ret, closed, st'))
    × (closed ≡ is_closing ret)
    × Untouched st st'

conn_out-EndsUntouched :
    (head : Bytes × ℕ) (ret : ℤ) (log_flag : ℕ) (ctx : DataCtx) (st : State)
    → ctx.ssl_status ≢ ssl_status_accept
    → EndsUntouched st (conn_out head ret (record st { client_ctx = ctx; log_flag = log_flag }))
unfolding conn_out
conn_out-EndsUntouched head ret log_flag ctx st h = (
  ret,
  is_closing ret,
  record st { client_ctx = ctx; log_flag = log_flag; messages = st.messages ++ [] },
  rw (ne→not_== ctx.ssl_status ssl_status_accept h),
  refl,
  record {
    messages = append-nil st.messages;
    opened = refl;
    nft_arr = refl;
    sent = refl;
    reads = refl;
    status = h;
  },
)

module _ (visit : Visit) (head : Bytes × ℕ) (st : State) where
  accept_stop-EndsUntouched :
      (err_code : SslErr)
      → EndsUntouched st (shaken_next visit head st (accept_stop err_code st.client_ctx st.peer))
  unfolding shaken_next accept_stop
  accept_stop-EndsUntouched SslErr.want_read = (
    _,
    _,
    _,
    refl,
    refl,
    record {
      messages = refl;
      opened = refl;
      nft_arr = refl;
      sent = refl;
      reads = refl;
      status = omega arith;
    },
  )
  accept_stop-EndsUntouched SslErr.want_write = (
    _,
    _,
    _,
    refl,
    refl,
    record {
      messages = refl;
      opened = refl;
      nft_arr = refl;
      sent = refl;
      reads = refl;
      status = omega arith;
    },
  )
  accept_stop-EndsUntouched SslErr.syscall =
      conn_out-EndsUntouched head failure _ _ st (omega arith)
  accept_stop-EndsUntouched SslErr.zero_return =
      conn_out-EndsUntouched head failure _ _ st (omega arith)
  accept_stop-EndsUntouched SslErr.ssl = conn_out-EndsUntouched head failure _ _ st (omega arith)
  accept_stop-EndsUntouched SslErr.other_error =
      conn_out-EndsUntouched head failure _ _ st (omega arith)

  handshake-EndsUntouched :
      (err_code : SslErr)
      → visit.accept ≡ not_accepted err_code
      → st.client_ctx.ssl_status ≢ ssl_status_accept
      → EndsUntouched st (shaken_next visit head st (handshake visit st.client_ctx st.peer))
  unfolding handshake shaken_next accept_next ktls_flag conn_requests
  handshake-EndsUntouched err_code e h =
      elim (Bool-cases
        (st.client_ctx.ssl_status == ssl_status_new && not (visit.ssl_made && visit.fd_set))) [
          | inl no_ssl ↦ rw no_ssl (conn_out-EndsUntouched head failure _ st.client_ctx st h)
          | inr has_ssl ↦
              rw (has_ssl, ne→not_== st.client_ctx.ssl_status ssl_status_accept h, e)
                (accept_stop-EndsUntouched err_code)
        ]

-- A call for a connection whose handshake is not done, in which SSL_accept fails or asks to be called
-- again, comes to an end: nothing is read or sent, opened, counted or written to the parent, the
-- handshake is still not done, and the connection is closed when the result is 0 or less.
pub fws_443_run-EndsUntouched :
    (visit : Visit) (st : State) (err_code : SslErr) (time : Bytes)
    → visit.time_text ≡ some time
    → length time < 16
    → length visit.site.ip_text < 46
    → visit.accept ≡ not_accepted err_code
    → st.client_ctx.ssl_status ≢ ssl_status_accept
    → EndsUntouched st (fws_443_run visit st)
unfolding fws_443_run log_head filled handshake shaken_next ktls_flag conn_requests
fws_443_run-EndsUntouched visit st err_code time t short_time short_ip e h =
    let ip = visit.site.ip_text in
    let head = b'2' ∷ ip ++ b' ' ∷ time in
    let n : length (ip ++ b' ' ∷ time) ≡ length ip + length (b' ' ∷ time) =
      length-append ip (b' ' ∷ time) in
    rw (t, print-filled 1024 [] head (omega (arith, n, short_time, short_ip)))
      (handshake-EndsUntouched visit (filled 1024 head) st err_code e h)
