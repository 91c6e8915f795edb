-- ===== src/Net/PlainEnds.antt =====
-- src/net_80.c: the answer to a request on port 80 comes to an end.
use facows.Types.{Conf, HttpReq}
use facows.Http.{blank_req, tolower}
use facows.Http.Header.{skip_spaces}
use facows.Http.RequestEnds.{skip_spaces-Gives, item_parse-Ends}
use facows.Tls.Answer.{nl}
use facows.Net.Plain.{
  uri_take, line_skip, same_letters, subdomain_take, host_take, host_find, plain_parse,
  plain_answer, net_80_443_redir, RecvRet, received, again, recv_failed, recv_loop,
}
use facows.Mem.Text.{codes, decimal}
use facows.Mem.TextEnds.{c_str-Ends, put-Ends, print-Ends}
use facows.Net.{port_print, net_host_build}
use facows.Tls.{nl2_str}
use facows.Mem.Ends.{
  Ends, Gives, Gives-Ends, Gives-ok, bind-Gives, bind-Ends, map_run-Ends, if-Ends, option-Ends,
  option-Gives, memchr-Ends, memmem-Ends, memcmp-Ends, strnlen-Ends, copy-Ends, advance-Ends,
  deref-Ends, store-Ends, write-Ends, copy_text-Ends, length-advance,
}
use facows.Prelude.{
  ℕ, zero, suc, ◌+◌, ◌<◌, not, Option, none, some, List, [], ◌∷◌, ◌++◌, arith, leb, ◌==◌, length,
}
use facows.Mem.Run.{ok, Bytes}
use facows.Mem.Libc.{zeros}

uri_take-Ends : (p : Bytes) (r : HttpReq) → Ends (uri_take p r)
unfolding uri_take
uri_take-Ends p r = bind-Ends _ _ (memchr-Ends p b' ' 16) (λ end _. option-Ends end _ _ tt (λ n.
    if-Ends (leb 16 n) _ _ (λ _. tt)
      (λ _.
        bind-Ends _ _ (advance-Ends p (n + 1))
          (λ q _. bind-Ends _ _ (item_parse-Ends q b' ' 4096 r.uri) (λ _ _. tt)))))

same_letters-Ends : (p q : Bytes) → Ends (same_letters p q)
unfolding same_letters
same_letters-Ends p [] = tt
same_letters-Ends [] (y ∷ q) = tt
same_letters-Ends (x ∷ p) (y ∷ q) =
    if-Ends (tolower x == tolower y) _ _ (λ _. same_letters-Ends p q) (λ _. tt)

subdomain_take-Ends :
    (domain : Bytes) (n : ℕ) (p : Bytes) (r : HttpReq) → Ends (subdomain_take domain n p r)
unfolding subdomain_take
subdomain_take-Ends domain n p r = bind-Ends _ _ (copy-Ends domain n) (λ d _.
    bind-Ends _ _ (memcmp-Ends p d n) (λ same _.
      if-Ends same _ _
        (λ _. bind-Ends _ _ (write-Ends r.subdomain 0 (codes "www" ++ 0 ∷ [])) (λ _ _. tt))
        (λ _. bind-Ends _ _ (memchr-Ends p b'.' 64) (λ end _.
          bind-Ends _ _ (copy_text-Ends r.subdomain p (elim end [ none ↦ 0 | some n ↦ n ]))
            (λ _ _. tt)))))

host_take-Ends : (domain : Bytes) (n : ℕ) (p : Bytes) (r : HttpReq) → Ends (host_take domain n p r)
unfolding host_take
host_take-Ends domain n p r = bind-Ends _ _ (deref-Ends r.subdomain) (λ c _.
    if-Ends (not (c == 0)) _ _ (λ _. tt)
      (λ _. bind-Ends _ _ (memchr-Ends p b':' 64) (λ colon _. option-Ends colon _ _ tt (λ k.
        bind-Ends _ _ (advance-Ends p (k + 1)) (λ q _.
          bind-Ends _ _ (Gives-Ends _ (skip_spaces q) (skip_spaces-Gives q))
            (λ skipped _. subdomain_take-Ends domain n skipped.1 r))))))

-- What is left is shorter than what there was.
abbrev Shorter : Bytes → Option Bytes → Type 0
Shorter p none = Unit
Shorter p (some q) = length q < length p

line_skip-Gives : (p : Bytes) → Gives (Shorter p) (line_skip p)
unfolding line_skip
line_skip-Gives p = bind-Gives _ _ _ (memmem-Ends p 1024 nl) (λ end _.
    option-Gives _ end _ _ tt (λ k.
      bind-Gives _ _ _ (advance-Ends p (k + 2))
        (λ q eq. omega (arith, length-advance p (k + 2) eq))))

host_find-Ends :
    (fuel : ℕ) (domain : Bytes) (n : ℕ) (p : Bytes) (r : HttpReq)
    → length p < fuel
    → Ends (host_find fuel domain n p r)
unfolding host_find
host_find-Ends zero domain n p r h = absurd (omega arith)
host_find-Ends (suc fuel) domain n p r h = bind-Ends _ _ (memcmp-Ends p nl 2) (λ ends _.
    if-Ends ends _ _ (λ _. tt)
      (λ _. bind-Ends _ _ (same_letters-Ends p (codes "Host:")) (λ is_host _.
        if-Ends is_host _ _ (λ _. host_take-Ends domain n p r)
          (λ _. bind-Ends _ _ (Gives-Ends _ (line_skip p) (line_skip-Gives p)) (λ next e.
            further (λ q s. host_find-Ends fuel domain n q r (omega arith)) next
              (Gives-ok (Shorter p) (line_skip p) (line_skip-Gives p) e))))))
  where
    further :
        ((q : Bytes) → length q < length p → Ends (host_find fuel domain n q r))
        → (next : Option Bytes) → Shorter p next
        → Ends {A = Option HttpReq}
            (elim next [ none ↦ ok none | some q ↦ host_find fuel domain n q r ])
    further rest none s = tt
    further rest (some q) s = rest q s

plain_parse-Ends : (conf : Conf) (recv_buf : Bytes) → Ends (plain_parse conf recv_buf)
unfolding plain_parse
plain_parse-Ends conf recv_buf = bind-Ends _ _ (uri_take-Ends recv_buf blank_req) (λ taken _.
    option-Ends taken _ _ tt (λ r.
      bind-Ends _ _ (Gives-Ends _ (line_skip recv_buf) (line_skip-Gives recv_buf)) (λ next _.
        option-Ends next _ _ tt (λ p. bind-Ends _ _ (strnlen-Ends conf.domain 128) (λ n _.
          if-Ends (n == 128) _ _ (λ _. tt)
            (λ _. host_find-Ends (suc (length p)) conf.domain n p r (omega arith)))))))

recv_loop-Ends : (recvs : List RecvRet) (buf : Bytes) (n : ℕ) → Ends (recv_loop recvs buf n)
unfolding recv_loop
recv_loop-Ends [] buf n = tt
recv_loop-Ends (again ∷ recvs) buf n = tt
recv_loop-Ends (recv_failed ∷ recvs) buf n = tt
recv_loop-Ends (received [] ∷ recvs) buf n = tt
recv_loop-Ends (received (c ∷ s) ∷ recvs) buf n = bind-Ends _ _ (write-Ends buf 0 (c ∷ s)) (λ b _.
    bind-Ends _ _ (store-Ends b (n + length (c ∷ s)) 0) (λ b _.
      if-Ends (leb 8191 (n + length (c ∷ s))) _ _ (λ _. tt)
        (λ _. bind-Ends _ _ (memmem-Ends b (n + length (c ∷ s)) nl2_str) (λ found _.
          option-Ends found _ _ (recv_loop-Ends recvs b (n + length (c ∷ s))) (λ _. tt)))))

port_print-Ends : (port : ℕ) → Ends (port_print port)
unfolding port_print
port_print-Ends port =
    if-Ends (port == 443) _ _ (λ _. tt)
      (λ _. map_run-Ends _ _ (print-Ends 8 (zeros 8) 0 (b':' ∷ decimal port)))

-- The host of a redirect is built to an end.
pub net_host_build-Ends :
    (host_buf : Bytes) (r : HttpReq) (conf : Conf) → Ends (net_host_build host_buf r conf)
unfolding net_host_build
net_host_build-Ends host_buf r conf = bind-Ends _ _ (port_print-Ends conf.https_port) (λ port _.
    bind-Ends _ _ (strnlen-Ends r.subdomain 64) (λ n _.
      bind-Ends _ _ (store-Ends host_buf 0 0) (λ b _.
        bind-Ends _ _ (copy-Ends r.subdomain n) (λ s _.
          bind-Ends _ _ (put-Ends b 0 (s ++ b'.' ∷ [])) (λ p _.
            bind-Ends _ _ (strnlen-Ends conf.domain 128) (λ n _.
              bind-Ends _ _ (copy-Ends conf.domain n) (λ d _.
                bind-Ends _ _ (put-Ends p.0 p.1 d) (λ p _.
                  bind-Ends _ _ (strnlen-Ends port 8) (λ n _.
                    bind-Ends _ _ (copy-Ends port n)
                      (λ t _. bind-Ends _ _ (put-Ends p.0 p.1 t) (λ _ _. tt)))))))))))

plain_answer-Ends : (conf : Conf) (r : HttpReq) → Ends (plain_answer conf r)
unfolding plain_answer
plain_answer-Ends conf r =
    bind-Ends _ _ (net_host_build-Ends (zeros 512) r conf)
      (λ b _. bind-Ends _ _ (c_str-Ends b) (λ _ _. bind-Ends _ _ (c_str-Ends r.uri) (λ _ _. tt)))

-- Whatever the calls of recv come to, net_80_443_redir comes to an end: it gives a result, or has
-- left an object by then.
pub net_80_443_redir-Ends :
    (conf : Conf) (recvs : List RecvRet) → Ends (net_80_443_redir conf recvs)
unfolding net_80_443_redir
net_80_443_redir-Ends conf recvs = bind-Ends _ _ (recv_loop-Ends recvs (zeros 8192) 0) (λ got _.
    option-Ends got _ _ tt (λ recv_buf. bind-Ends _ _ (plain_parse-Ends conf recv_buf) (λ parsed _.
      option-Ends parsed _ _ tt (λ r. map_run-Ends some _ (plain_answer-Ends conf r)))))
