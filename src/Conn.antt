-- ===== src/Conn.antt =====
-- _fws_443_run of src/fws.c: the handshake, the loop over the requests, and the line of the log.
pub mod Log
pub mod Handshake
pub mod Ends
use facows.Types.{Conf, HttpReq, DataCtx}
use facows.Http.{blank_req}
use facows.Session.{Site, State, goes_on, leaves, flag_set, session_round}
use facows.Tls.{SslErr, Peer, epollin, epollout, want_read, want_write, syscall, ssl}
use facows.Mem.Text.{decimal, c_str, print}
use facows.Prelude.{
  ℕ, zero, suc, ◌+◌, ◌-◌, Bool, true, false, not, ◌&&◌, Option, none, some, List, [], ◌∷◌, ◌++◌,
  ltb, ◌==◌, if◌then◌else◌, length, ℤ, pos, negsuc, failure,
}
use facows.Mem.Run.{Run, ok, fault, out_of_fuel, ◌>>=◌, Bytes}
use facows.Mem.Libc.{copy, store, zeros}

-- enum ssl_stat
abbrev pub ssl_status_new : ℕ
ssl_status_new = 0

abbrev pub ssl_status_init : ℕ
ssl_status_init = 1

abbrev pub ssl_status_accept : ℕ
ssl_status_accept = 2

abbrev pub ssl_status_want_read : ℕ
ssl_status_want_read = 3

abbrev pub ssl_status_want_write : ℕ
ssl_status_want_write = 4

-- What a call of SSL_accept comes to.
pub data AcceptRet : Type 0 where
  accepted : AcceptRet
  not_accepted : SslErr → AcceptRet

-- What a call of _fws_443_run finds: the text of strftime, none where gmtime returns a null pointer;
-- whether SSL_new and SSL_set_fd succeed; what SSL_accept comes to; whether the kernel does TLS for
-- sending and for receiving; and what its loop finds.
pub record Visit : Type 0 where
  pub time_text : Option Bytes
  pub ssl_made : Bool
  pub fd_set : Bool
  pub accept : AcceptRet
  pub ktls_send : Bool
  pub ktls_recv : Bool
  pub site : Site

-- How the handshake goes on: with the requests; with `return ssl_err`; or with `goto out` and -1.
pub data Shaken : Type 0 where
  joined : DataCtx → Peer → Shaken
  waits : ℤ → DataCtx → Peer → Shaken
  leaves_out : ℕ → DataCtx → Shaken

-- SSL_accept has failed. 2 and 3 are SSL_ERROR_WANT_READ and SSL_ERROR_WANT_WRITE.
unfoldable pub accept_stop : SslErr → DataCtx → Peer → Shaken
accept_stop want_read ctx peer =
    waits (pos 2) (record ctx { ssl_status = ssl_status_want_read })
      (record peer { interest = epollin })
accept_stop want_write ctx peer =
    waits (pos 3) (record ctx { ssl_status = ssl_status_want_write })
      (record peer { interest = epollout })
accept_stop ssl ctx peer =
    leaves_out (flag_set 4 (flag_set 0 0)) (record ctx { ssl_status = ssl_status_init })
accept_stop syscall ctx peer =
    leaves_out (flag_set 5 (flag_set 0 0)) (record ctx { ssl_status = ssl_status_init })
accept_stop SslErr.zero_return ctx peer =
    leaves_out (flag_set 0 0) (record ctx { ssl_status = ssl_status_init })
accept_stop SslErr.other_error ctx peer =
    leaves_out (flag_set 0 0) (record ctx { ssl_status = ssl_status_init })

unfoldable pub accept_next : AcceptRet → DataCtx → Peer → Shaken
unfolding accept_stop
accept_next accepted ctx peer =
    joined (record ctx { ssl_status = ssl_status_accept }) (record peer { interest = epollin })
accept_next (not_accepted err_code) ctx peer = accept_stop err_code ctx peer

-- From the test of ssl_status for SSL_STATUS_NEW to the end of the handshake.
unfoldable pub handshake : Visit → DataCtx → Peer → Shaken
unfolding accept_next
handshake visit ctx peer =
    if ctx.ssl_status == ssl_status_new && not (visit.ssl_made && visit.fd_set)
    then leaves_out (flag_set 0 0) ctx
    else if ctx.ssl_status == ssl_status_accept
    then joined ctx peer
    else accept_next visit.accept ctx peer

-- The flag of a connection whose TLS is not done by the kernel.
unfoldable pub ktls_flag : Conf → Visit → ℕ
ktls_flag conf visit =
    if conf.use_ktls && not (visit.ktls_send && visit.ktls_recv) then flag_set 1 0 else 0

-- `snprintf(log_buf, sizeof(log_buf), "%d%s %s", 2, ip_buf, time_buf)`
unfoldable pub log_head : Bytes → Bytes → Run (Bytes × ℕ)
log_head ip time = print 1024 (zeros 1024, 0) (b'2' ∷ ip ++ b' ' ∷ time)

-- %02u
abbrev pub two_digits : ℕ → Bytes
two_digits n = if ltb n 10 then b'0' ∷ decimal n else decimal n

-- The words of the line with a space in front of each, and a newline behind them.
abbrev pub words : List Bytes → Bytes
words [] = b'\n' ∷ []
words (w ∷ ws) = b' ' ∷ w ++ words ws

-- What "%02u %s %s %s %s %s %s %s\n" prints.
unfoldable pub log_tail : ℕ → HttpReq → Run Bytes
log_tail log_flag http_req = c_str http_req.version >>= λ version.
    c_str http_req.method >>= λ method. c_str http_req.subdomain >>= λ subdomain.
    c_str http_req.uri >>= λ uri. c_str http_req.lang >>= λ lang. c_str http_req.os >>= λ os.
    c_str http_req.browser >>= λ browser.
    ok
      (two_digits log_flag ++ words (version ∷ method ∷ subdomain ∷ uri ∷ lang ∷ os ∷ browser ∷ []))

-- The rest of the line, and what is written to the parent: nothing where the line is too long.
unfoldable pub log_end : Bytes × ℕ → ℕ → HttpReq → Run (Option Bytes)
log_end (log_buf, log_acc) log_flag http_req =
    (if ltb 1023 log_acc
      then ok (log_buf, log_acc)
      else (log_tail log_flag http_req >>= λ s. print (1024 - log_acc) (log_buf, log_acc) s))
    >>= λ p.
        if ltb 1023 p.1
        then ok none
        else (store p.0 p.1 0 >>= λ log_buf. copy log_buf (p.1 + 1) >>= λ m. ok (some m))

-- `ret <= 0`: the connection is shut down, closed and freed.
abbrev pub is_closing : ℤ → Bool
is_closing (pos n) = n == 0
is_closing (negsuc n) = true

abbrev message_list : Option Bytes → List Bytes
message_list none = []
message_list (some m) = m ∷ []

-- The label `out`: the result, whether the connection is closed, and the state.
unfoldable pub conn_out : Bytes × ℕ → ℤ → State → Run (ℤ × Bool × State)
conn_out head ret st =
    (if st.client_ctx.ssl_status == ssl_status_accept
      then log_end head st.log_flag st.http_req
      else ok none)
    >>= λ m. ok (ret, is_closing ret, record st { messages = st.messages ++ message_list m })

-- The loop over the requests.
unfoldable pub session_loop : ℕ → Site → State → Run (ℤ × State)
session_loop zero site st = out_of_fuel
session_loop (suc fuel) site st = session_round site st >>= λ r. elim r [
  | goes_on st ↦ session_loop fuel site st
  | leaves ret st ↦ ok (ret, st)
]

-- The requests, and what is behind the loop. A round that goes on has taken a result of SSL_read, but
-- for a first one that has a file left to send.
unfoldable pub conn_requests : Visit → Bytes × ℕ → State → Run (ℤ × Bool × State)
conn_requests visit head st =
    session_loop (suc (suc (length st.peer.reads))) visit.site st >>= λ r. conn_out head r.0 r.1

-- What follows the handshake.
unfoldable pub shaken_next : Visit → Bytes × ℕ → State → Shaken → Run (ℤ × Bool × State)
shaken_next visit head st (joined ctx peer) = conn_requests visit head (record st {
  client_ctx = ctx;
  peer = peer;
  http_req = blank_req;
  log_flag = ktls_flag visit.site.conf visit;
})
shaken_next visit head st (waits ret ctx peer) =
    ok (ret, false, record st { client_ctx = ctx; peer = peer })
shaken_next visit head st (leaves_out log_flag ctx) =
    conn_out head failure (record st { client_ctx = ctx; log_flag = log_flag })

-- _fws_443_run. Where gmtime fails, `out` is reached with a log_acc that has no value, which is read
-- when the handshake has been done before.
unfoldable pub fws_443_run : Visit → State → Run (ℤ × Bool × State)
fws_443_run visit st = elim visit.time_text [
  | none ↦ if st.client_ctx.ssl_status == ssl_status_accept then fault else ok (failure, true, st)
  | some time ↦ log_head visit.site.ip_text time >>= λ head.
      shaken_next visit head st (handshake visit st.client_ctx st.peer)
]
