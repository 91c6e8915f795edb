-- ===== src/Net/Plain.antt =====
-- src/net_80.c: a request on port 80 is answered by a redirect to HTTPS.
use facows.Types.{Conf, HttpReq}
use facows.Http.{item_parse, blank_req, tolower}
use facows.Http.Header.{skip_spaces}
use facows.Tls.{nl2_str}
use facows.Tls.Answer.{nl}
use facows.Net.{net_host_build}
use facows.Mem.Text.{codes, c_str}
use facows.Prelude.{
  ℕ, zero, suc, ◌+◌, Bool, true, false, not, Option, none, some, List, [], ◌∷◌, ◌++◌, leb, ◌==◌,
  if◌then◌else◌, length,
}
use facows.Mem.Run.{Run, ok, fault, out_of_fuel, ◌>>=◌, map_run, Bytes}
use facows.Mem.Libc.{
  memchr, memcmp, strnlen, copy, advance, deref, store, write, copy_text, zeros, memmem,
}

-- What a call of recv comes to: bytes, none of them at the end of the connection; EAGAIN; or another
-- error.
pub data RecvRet : Type 0 where
  received : Bytes → RecvRet
  again : RecvRet
  recv_failed : RecvRet

-- The loop that receives the header. Each recv stores its bytes at the start of recv_buf, and recv_acc
-- counts all of them. none is `goto out` with -1; a list that has come to its end stands for EAGAIN.
unfoldable pub recv_loop : List RecvRet → Bytes → ℕ → Run (Option Bytes)
recv_loop [] recv_buf recv_acc = ok (some recv_buf)
recv_loop (again ∷ recvs) recv_buf recv_acc = ok (some recv_buf)
recv_loop (recv_failed ∷ recvs) recv_buf recv_acc = ok none
recv_loop (received [] ∷ recvs) recv_buf recv_acc = ok (some recv_buf)
recv_loop (received (c ∷ s) ∷ recvs) recv_buf recv_acc = write recv_buf 0 (c ∷ s) >>= λ recv_buf.
    store recv_buf (recv_acc + length (c ∷ s)) 0 >>= λ recv_buf.
    if leb 8191 (recv_acc + length (c ∷ s))
    then ok none
    else (memmem recv_buf (recv_acc + length (c ∷ s)) nl2_str >>= λ ret_p. elim ret_p [
      | none ↦ recv_loop recvs recv_buf (recv_acc + length (c ∷ s))
      | some _ ↦ ok (some recv_buf)
    ])

-- "Parsing URI": the method is passed over, and the URI is copied.
unfoldable pub uri_take : Bytes → HttpReq → Run (Option HttpReq)
uri_take p_start http_req = memchr p_start b' ' 16 >>= λ p_end. elim p_end [
  | none ↦ ok none
  | some n ↦
      if leb 16 n
      then ok none
      else (advance p_start (n + 1) >>= λ p_start.
          item_parse p_start b' ' 4096 http_req.uri >>= λ item.
          ok (elim item [ none ↦ none | some (d, n) ↦ some (record http_req { uri = d }) ]))
]

-- `memmem(p_start, 1024, "\r\n", 2)` and `p_start = p_end + 2`
unfoldable pub line_skip : Bytes → Run (Option Bytes)
line_skip p_start = memmem p_start 1024 nl >>= λ p_end. elim p_end [
  | none ↦ ok none
  | some k ↦ advance p_start (k + 2) >>= λ p. ok (some p)
]

-- `strncasecmp(p, q, n) == 0` for a text `q` of `n` bytes without a NUL
unfoldable pub same_letters : Bytes → Bytes → Run Bool
same_letters p [] = ok true
same_letters [] (y ∷ q) = fault
same_letters (x ∷ p) (y ∷ q) =
    let rest = same_letters p q in if tolower x == tolower y then rest else ok false

-- The subdomain of the value: `www` where it begins with the domain, else what stands before the first
-- dot of 64 bytes, nothing where there is none.
unfoldable pub subdomain_take : Bytes → ℕ → Bytes → HttpReq → Run (Option HttpReq)
subdomain_take domain domain_len p_start http_req = copy domain domain_len >>= λ domain.
    memcmp p_start domain domain_len >>= λ same.
    if same
    then (write http_req.subdomain 0 (codes "www" ++ 0 ∷ []) >>= λ d.
        ok (some (record http_req { subdomain = d })))
    else (memchr p_start b'.' 64 >>= λ p_end.
        copy_text http_req.subdomain p_start (elim p_end [ none ↦ 0 | some n ↦ n ]) >>= λ d.
        ok (some (record http_req { subdomain = d })))

-- The header Host has been found.
unfoldable pub host_take : Bytes → ℕ → Bytes → HttpReq → Run (Option HttpReq)
host_take domain domain_len p_start http_req = deref http_req.subdomain >>= λ c.
    if not (c == 0)
    then ok none
    else (memchr p_start b':' 64 >>= λ p_end. elim p_end [
      | none ↦ ok none
      | some k ↦ advance p_start (k + 1) >>= λ p.
          skip_spaces p >>= λ skipped. subdomain_take domain domain_len skipped.1 http_req
    ])

-- The loop over the headers. A round moves on by two bytes at least.
unfoldable pub host_find : ℕ → Bytes → ℕ → Bytes → HttpReq → Run (Option HttpReq)
host_find zero domain domain_len p_start http_req = out_of_fuel
host_find (suc fuel) domain domain_len p_start http_req = memcmp p_start nl 2 >>= λ ends.
    if ends
    then ok (some http_req)
    else (same_letters p_start (codes "Host:") >>= λ is_host.
        if is_host
        then host_take domain domain_len p_start http_req
        else (line_skip p_start >>= λ p. elim p [
          | none ↦ ok none
          | some p ↦ host_find fuel domain domain_len p http_req
        ]))

-- The request in recv_buf
unfoldable pub plain_parse : Conf → Bytes → Run (Option HttpReq)
plain_parse conf recv_buf = uri_take recv_buf blank_req >>= λ taken. elim taken [
  | none ↦ ok none
  | some http_req ↦ line_skip recv_buf >>= λ p. elim p [
    | none ↦ ok none
    | some p_start ↦ strnlen conf.domain 128 >>= λ domain_len.
        if domain_len == 128
        then ok none
        else host_find (suc (length p_start)) conf.domain domain_len p_start http_req
  ]
]

-- res_301_fmt
unfoldable pub plain_text : Bytes → Bytes → Bytes
plain_text host uri =
    codes "HTTP/1.1 301 Moved Permanently\r\nLocation: https://"
    ++ (host
        ++ (uri
            ++ codes
                "\r\nContent-Length: 0\r\nConnection: close\r\nServer: Facooya-Web-Server\r\n\r\n"))

-- "Send 301 response": the text that send is given.
unfoldable pub plain_answer : Conf → HttpReq → Run Bytes
plain_answer conf http_req = net_host_build (zeros 512) http_req conf >>= λ host_buf.
    c_str host_buf >>= λ host. c_str http_req.uri >>= λ uri. ok (plain_text host uri)

-- net_80_443_redir: what is sent, or none where -1 is returned before. send itself may still fail.
unfoldable pub net_80_443_redir : Conf → List RecvRet → Run (Option Bytes)
net_80_443_redir conf recvs = recv_loop recvs (zeros 8192) 0 >>= λ got. elim got [
  | none ↦ ok none
  | some recv_buf ↦ plain_parse conf recv_buf >>= λ parsed. elim parsed [
    | none ↦ ok none
    | some http_req ↦ map_run some (plain_answer conf http_req)
  ]
]
