-- ===== src/Conn/Ends.antt =====
-- _fws_443_run comes to an end: the loop has the rounds it needs.
use facows.Types.{HttpReq, FwsFile, Conf, DataCtx}
use facows.File.Ends.{file_parse-Ends}
use facows.Http.RequestEnds.{http_req_parse-Ends}
use facows.Session.{
  web_root_build, file_send, parsed_answer, request_answer, read_answer, session_round, Site, State,
  Round, goes_on, leaves,
}
use facows.Session.Measure.{Safely-ok}
use facows.Session.Keeps.{net_443_read-KeepsRead}
use facows.Tls.{net_443_read, Peer}
use facows.Tls.Ends.{ReadLess, net_443_read-ReadLess}
use facows.Net.{http_path_redir}
use facows.Net.PlainEnds.{net_host_build-Ends}
use facows.Mem.TextEnds.{c_str-Ends, put-Ends}
use facows.Prelude.{
  ℕ, zero, suc, ◌+◌, ◌-◌, ◌≤◌, ◌≡◌, sym, ap, ◌∙◌, subst, inl, inr, false, ◌∷◌, ◌++◌, arith, ltb,
  ◌==◌, if◌then◌else◌, Bool-cases, length, ℤ, pos, negsuc, failure,
}
use facows.Mem.Run.{Run, ok, fault, out_of_fuel, ◌>>=◌, Bytes}
use facows.Mem.Libc.{zeros}
use facows.Mem.Ends.{
  Ends, Gives, Gives-Ends, Gives-ok, bind-Gives, bind-Ends, map_run-Gives, if-Ends, if-Gives,
  option-Ends, strnlen-Ends, copy-Ends, deref-Ends, store-Ends,
}
use facows.Session.Ends.{Ahead, file_send-Ahead, located_answer-Ahead}
use facows.Conn.{
  session_loop, conn_requests, conn_out, log_head, log_tail, log_end, shaken_next, handshake,
  fws_443_run, Visit, Shaken, joined, waits, leaves_out, ssl_status_accept,
}
use facows.Mem.TextEnds.{print-Ends}

web_root_build-Ends : (conf : Conf) (http_req : HttpReq) → Ends (web_root_build conf http_req)
unfolding web_root_build
web_root_build-Ends conf http_req = bind-Ends _ _ (strnlen-Ends conf.web_root 128) (λ n _.
    bind-Ends _ _ (copy-Ends conf.web_root n) (λ w _.
      bind-Ends _ _ (put-Ends (zeros 256) 0 w) (λ p _.
        bind-Ends _ _ (deref-Ends http_req.subdomain) (λ c _.
          if-Ends (c == 0) _ _ (λ _. tt)
            (λ _. bind-Ends _ _ (strnlen-Ends http_req.subdomain 64) (λ k _.
              bind-Ends _ _ (copy-Ends http_req.subdomain k)
                (λ s _. bind-Ends _ _ (put-Ends p.0 p.1 (b'/' ∷ s)) (λ _ _. tt))))))))

http_path_redir-Ends :
    (stack : Bytes) (http_req : HttpReq) (conf : Conf) (file : FwsFile) (peer : Peer)
    → Ends (http_path_redir stack http_req conf file peer)
unfolding http_path_redir
http_path_redir-Ends stack http_req conf file peer =
    bind-Ends _ _ (net_host_build-Ends stack http_req conf) (λ b _.
      bind-Ends _ _ (c_str-Ends b) (λ _ _. bind-Ends _ _ (c_str-Ends file.uri_path) (λ _ _. tt)))

-- A round that goes on leaves less than `n` results of SSL_read, and no file to send.
abbrev Fewer : ℕ → Round → Type 0
Fewer n (goes_on st) = (st.client_ctx.want_write ≡ false) × (suc (length st.peer.reads) ≤ n)
Fewer n (leaves ret st) = Unit

module _ (site : Site) where
  parsed_answer-Ahead :
      (n : ℕ) (http_req : HttpReq) (st : State) (ret : ℤ) (file : FwsFile)
      → st.client_ctx.want_write ≡ false
      → length st.peer.reads ≤ n
      → Gives (Ahead n) (parsed_answer site http_req st ret file)
  unfolding parsed_answer
  parsed_answer-Ahead n http_req st (negsuc k) file w h = tt
  parsed_answer-Ahead n http_req st (pos status_code) file w h =
      if-Gives _ (status_code == 301) _ _
        (λ _.
          map_run-Gives (λ _. Unit) (Ahead n) _
            (http_path_redir site.stack http_req site.conf file st.peer)
            (Ends-Gives _ (http_path_redir-Ends site.stack http_req site.conf file st.peer))
            (λ _ _. tt))
        (λ _. located_answer-Ahead site n http_req file status_code st w h)
    where
      Ends-Gives : (m : Run Peer) → Ends m → Gives (λ _. Unit) m
      Ends-Gives (ok a) e = tt
      Ends-Gives fault e = tt
      Ends-Gives out_of_fuel e = e

  request_answer-Ahead :
      (n : ℕ) (http_req : HttpReq) (st : State)
      → st.client_ctx.want_write ≡ false
      → length st.peer.reads ≤ n
      → Gives (Ahead n) (request_answer site http_req st)
  unfolding request_answer
  request_answer-Ahead n http_req st w h =
      bind-Gives _ _ _ (web_root_build-Ends site.conf http_req) (λ web_root _.
        bind-Gives _ _ _ (file_parse-Ends site.fs http_req web_root 256)
          (λ parsed _. parsed_answer-Ahead n http_req st parsed.0 parsed.1 w h))

  Ahead-Fewer : (k n : ℕ) → suc k ≤ n → (m : Run Round) → Gives (Ahead k) m → Gives (Fewer n) m
  Ahead-Fewer k n h (ok (goes_on st)) (w, l) = (w, omega (arith, h, l))
  Ahead-Fewer k n h (ok (leaves ret st)) g = tt
  Ahead-Fewer k n h fault g = tt
  Ahead-Fewer k n h out_of_fuel g = g

  read_answer-Fewer :
      (st : State) (r : ℤ × DataCtx × Peer)
      → r.1.want_write ≡ false
      → ReadLess st.peer.reads r
      → Gives
          (Fewer (length st.peer.reads))
          (read_answer site r.0 (record st { client_ctx = r.1; peer = r.2 }))
  unfolding read_answer
  read_answer-Fewer st (negsuc k, ctx, peer) w h = tt
  read_answer-Fewer st (pos zero, ctx, peer) w h = tt
  read_answer-Fewer st (pos (suc k), ctx, peer) w h =
      bind-Gives _ _ _ (http_req_parse-Ends ctx.req_buf site.conf.domain 128) (λ parsed _.
        Ahead-Fewer (length peer.reads) (length st.peer.reads) h _ (
          request_answer-Ahead (length peer.reads) parsed.1
            (record st {
              client_ctx = record ctx { req_buf = parsed.2 };
              peer = peer;
              http_req = parsed.1;
            })
            w (omega (arith))))

  session_round-Fewer :
      (st : State)
      → st.client_ctx.want_write ≡ false
      → Gives (Fewer (length st.peer.reads)) (session_round site st)
  unfolding session_round
  session_round-Fewer st w =
      if-Gives _ st.client_ctx.want_write _ _ (λ e. absurd (cc))
        (λ _.
          let less = net_443_read-ReadLess st.client_ctx st.peer in
          bind-Gives _ _ _
            (Gives-Ends (ReadLess st.peer.reads) (net_443_read st.client_ctx st.peer) less)
            (λ r e.
              let same = Safely-ok _ _ (net_443_read-KeepsRead st.client_ctx st.peer) e in
              read_answer-Fewer st r (ap (λ c. c.want_write) same ∙ w)
                (Gives-ok (ReadLess st.peer.reads) (net_443_read st.client_ctx st.peer) less e)))

  -- A first round that has a file left to send.
  session_round-Ahead : (st : State) → Gives (Ahead (length st.peer.reads)) (session_round site st)
  unfolding session_round
  session_round-Ahead st = elim (Bool-cases st.client_ctx.want_write) [
    | inl w ↦
        subst (λ b. Gives (Ahead (length st.peer.reads)) (if b then file_send site st else rest))
          (sym w) (file_send-Ahead site (length st.peer.reads) st (omega (arith)))
    | inr w ↦ Fewer-Ahead (length st.peer.reads) _ (session_round-Fewer st w)
  ]
    where
      rest : Run Round
      rest = net_443_read st.client_ctx st.peer >>= λ r.
          read_answer site r.0 (record st { client_ctx = r.1; peer = r.2 })

      Fewer-Ahead : (n : ℕ) (m : Run Round) → Gives (Fewer n) m → Gives (Ahead n) m
      Fewer-Ahead n (ok (goes_on st)) (w, l) = (w, omega (arith, l))
      Fewer-Ahead n (ok (leaves ret st)) g = tt
      Fewer-Ahead n fault g = tt
      Fewer-Ahead n out_of_fuel g = g

  -- A round, and the rounds behind it.
  round-Ends :
      (fuel : ℕ) (Q : Round → Type 0) (m : Run Round)
      → Gives Q m
      → ((st : State) → Q (goes_on st) → Ends (session_loop fuel site st))
      → Ends (
          m >>= λ r. elim r [
            | goes_on st ↦ session_loop fuel site st
            | leaves ret st ↦ ok (ret, st)
          ])
  round-Ends fuel Q (ok (goes_on st)) g later = later st g
  round-Ends fuel Q (ok (leaves ret st)) g later = tt
  round-Ends fuel Q fault g later = tt
  round-Ends fuel Q out_of_fuel g later = g

  -- The rounds after the first one.
  session_loop_idle :
      (fuel : ℕ) (st : State)
      → st.client_ctx.want_write ≡ false
      → length st.peer.reads ≤ fuel
      → Ends (session_loop (suc fuel) site st)
  unfolding session_loop
  session_loop_idle zero st w h =
      round-Ends zero (Fewer (length st.peer.reads)) (session_round site st)
        (session_round-Fewer st w) (λ st' f. absurd (omega (arith, h, f.1)))
  session_loop_idle (suc fuel) st w h =
      round-Ends (suc fuel) (Fewer (length st.peer.reads)) (session_round site st)
        (session_round-Fewer st w) (λ st' f. session_loop_idle fuel st' f.0 (omega (arith, h, f.1)))

  session_loop-Ends : (st : State) → Ends (session_loop (suc (suc (length st.peer.reads))) site st)
  unfolding session_loop
  session_loop-Ends st =
      round-Ends (suc (length st.peer.reads)) (Ahead (length st.peer.reads)) (session_round site st)
        (session_round-Ahead st) (λ st' f. session_loop_idle (length st.peer.reads) st' f.0 f.1)

log_end-Ends :
    (p : Bytes × ℕ) (log_flag : ℕ) (http_req : HttpReq) → Ends (log_end p log_flag http_req)
unfolding log_end log_tail
log_end-Ends (b, acc) log_flag r =
    bind-Ends _ _
      (if-Ends (ltb 1023 acc) _ _ (λ _. tt)
        (λ _.
          bind-Ends _ _
            (bind-Ends _ _ (c_str-Ends r.version) (λ _ _.
              bind-Ends _ _ (c_str-Ends r.method) (λ _ _.
                bind-Ends _ _ (c_str-Ends r.subdomain) (λ _ _.
                  bind-Ends _ _ (c_str-Ends r.uri) (λ _ _. bind-Ends _ _ (c_str-Ends r.lang) (λ _ _.
                    bind-Ends _ _ (c_str-Ends r.os)
                      (λ _ _. bind-Ends _ _ (c_str-Ends r.browser) (λ _ _. tt))))))))
            (λ s _. print-Ends (1024 - acc) b acc s)))
      (λ p _.
        if-Ends (ltb 1023 p.1) _ _ (λ _. tt)
          (λ _.
            bind-Ends _ _ (store-Ends p.0 p.1 0)
              (λ q _. bind-Ends _ _ (copy-Ends q (p.1 + 1)) (λ _ _. tt))))

conn_out-Ends : (head : Bytes × ℕ) (ret : ℤ) (st : State) → Ends (conn_out head ret st)
unfolding conn_out
conn_out-Ends head ret st =
    bind-Ends _ _
      (if-Ends (st.client_ctx.ssl_status == ssl_status_accept) _ _
        (λ _. log_end-Ends head st.log_flag st.http_req) (λ _. tt))
      (λ _ _. tt)

shaken_next-Ends :
    (visit : Visit) (head : Bytes × ℕ) (st : State) (s : Shaken)
    → Ends (shaken_next visit head st s)
unfolding shaken_next conn_requests
shaken_next-Ends visit head st (joined ctx peer) =
    bind-Ends _ _ (session_loop-Ends visit.site _) (λ r _. conn_out-Ends head r.0 r.1)
shaken_next-Ends visit head st (waits ret ctx peer) = tt
shaken_next-Ends visit head st (leaves_out log_flag ctx) = conn_out-Ends head failure _

-- A call of _fws_443_run in which SSL_read comes to any finite number of results, and then asks to be
-- called again, comes to an end, whatever the results are, and whatever SSL_write and SSL_accept come
-- to: it gives a result, or has left an object by then. The loop over the requests needs no more rounds
-- than two more than the results of SSL_read that there are.
pub fws_443_run-Ends : (visit : Visit) (st : State) → Ends (fws_443_run visit st)
unfolding fws_443_run log_head
fws_443_run-Ends visit st =
    option-Ends visit.time_text _ _
      (if-Ends (st.client_ctx.ssl_status == ssl_status_accept) _ _ (λ _. tt) (λ _. tt))
      (λ time.
        bind-Ends _ _ (print-Ends 1024 (zeros 1024) 0 (b'2' ∷ visit.site.ip_text ++ b' ' ∷ time))
          (λ head _. shaken_next-Ends visit head st (handshake visit st.client_ctx st.peer)))
