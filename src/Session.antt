-- ===== src/Session.antt =====
-- The loop of _fws_443_run in src/fws.c: from the bytes of a request to what is sent for it. The
-- handshake in front of it and the log line behind it are in Conn.
pub mod Measure
pub mod Keeps
pub mod Kept
pub mod Inside
pub mod Limited
pub mod Ends
use facows.Types.{Conf, HttpReq, FwsFile, Nft, DataCtx}
use facows.File.{Fs, file_parse}
use facows.Http.{http_origin_self_check}
use facows.Http.Request.{http_req_parse}
use facows.Http.Response.{FileStat, http_res_build}
use facows.Limit.{slot_find, over_limit, blank_nft, limit_request}
use facows.Tls.{Peer, net_443_read, net_443_file_write}
use facows.Tls.Answer.{ErrPage, net_443_res_write, net_443_err_write}
use facows.Net.{http_path_redir}
use facows.Mem.Text.{codes, put}
use facows.Prelude.{
  ℕ, zero, suc, ◌+◌, ◌/◌, ◌%◌, ◌^◌, ◌≡◌, Bool, true, false, Option, List, [], ◌∷◌, ◌++◌, ◌==◌,
  if◌then◌else◌, get_or, ℤ, pos, negsuc, failure, is_negative,
}
use facows.Mem.Run.{Run, ok, ◌>>=◌, map_run, Bytes}
use facows.Mem.Libc.{memcmp, strnlen, copy, advance, deref, write, text, zeros}

-- What the loop finds around it: the configuration, the file system, the error page, the date, what
-- inet_ntop prints of the client's address, and what an array on the stack holds before it is written.
pub record Site : Type 0 where
  pub conf : Conf
  pub fs : Fs
  pub stat : Bytes → FileStat
  pub read_file : Bytes → Option Bytes
  pub err_page : ErrPage
  pub date : Bytes
  pub ip_text : Bytes
  pub stack : Bytes

-- What the loop changes: the connection, its other side, the table of clients, the messages that have
-- been written to the parent, the paths that net_443_file_write has been called with, and the request
-- and the flags that the line of the log is made of.
pub record State : Type 0 where
  pub client_ctx : DataCtx
  pub peer : Peer
  pub nft_arr : List Nft
  pub messages : List Bytes
  pub opened : List Bytes
  pub http_req : HttpReq
  pub log_flag : ℕ

-- The end of a round: the loop goes on, or `goto out` with the value of `ret`.
pub data Round : Type 0 where
  goes_on : State → Round
  leaves : ℤ → State → Round

-- web_root_buf: the web root, and the subdomain behind a slash when there is one
unfoldable pub web_root_build : Conf → HttpReq → Run Bytes
web_root_build conf http_req = strnlen conf.web_root 128 >>= λ n.
    copy conf.web_root n >>= λ web_root. put (zeros 256, 0) web_root >>= λ p.
    deref http_req.subdomain >>= λ c.
    if c == 0
    then ok p.0
    else (strnlen http_req.subdomain 64 >>= λ n.
        copy http_req.subdomain n >>= λ subdomain. put p (b'/' ∷ subdomain) >>= λ p. ok p.0)

-- The bytes of an s64, the lowest one first
unfoldable pub le_bytes : ℕ → ℕ → Bytes
le_bytes zero n = []
le_bytes (suc k) n = n % 256 ∷ le_bytes k (n / 256)

-- is_html: the last five bytes of the path and its terminator are ".html". A path of less than five
-- bytes is compared with the member in front of it, uri_path_n, as well.
unfoldable pub html_test : FwsFile → ℕ → Run Bool
html_test file path_n = advance (le_bytes 8 file.uri_path_n ++ file.path) (3 + path_n) >>= λ path_p.
    memcmp path_p (codes ".html" ++ 0 ∷ []) 6

-- `if (ret == 1)` behind net_443_file_write: the only result that is looked at.
unfoldable pub sent_round : ℤ → State → Round
sent_round (pos (suc zero)) st =
    leaves (pos 1) (record st { client_ctx = record st.client_ctx { want_write = true } })
sent_round _ st = goes_on st

-- The label `write`: the file is sent.
unfoldable pub file_send : Site → State → Run Round
unfolding sent_round
file_send site st =
    let path = text st.client_ctx.file_path in
    net_443_file_write (site.read_file path) (record st.client_ctx { want_write = false }) st.peer
    >>= λ r.
        ok (sent_round r.0 (record st { client_ctx = r.1; peer = r.2; opened = path ∷ st.opened }))

-- `res_ret == 304`
abbrev pub is_304 : ℤ → Bool
is_304 (pos c) = c == 304
is_304 (negsuc n) = false

-- The headers of a file, and the file itself unless the client has it.
unfoldable pub file_answer : Site → HttpReq → FwsFile → State → Run Round
file_answer site http_req file st =
    http_res_build site.conf site.date (site.stat (text file.path)) http_req file.path 4096
    >>= λ built. deref http_req.origin >>= λ c.
        (if c == 0 then ok false else http_origin_self_check http_req site.conf) >>= λ own.
        let hsts_max_age = if site.conf.use_hsts then site.conf.hsts_max_age else 0 in
        let http_res = record built.1 { is_origin_self = own; hsts_max_age = hsts_max_age } in
        net_443_res_write site.conf http_res file.size http_req st.peer >>= λ r.
        let sent = record st { peer = r.1 } in
        if is_negative r.0
        then ok (leaves failure sent)
        else if is_304 built.0
        then ok (leaves (pos 0) sent)
        else file_send site sent

-- An error page. `closes` tells whether the round ends with `goto out` whatever comes of it.
unfoldable pub err_answer : Site → ℕ → Bool → State → Round
err_answer site status_code closes st =
    let (ret, peer) = net_443_err_write site.err_page status_code st.peer in
    let sent = record st { peer = peer } in
    if is_negative ret
    then leaves failure sent
    else if closes
    then leaves ret sent
    else goes_on sent

-- Whether the client is over a limit before the request is counted.
unfoldable pub is_over : Site → State → Bool
is_over site st =
    let (nft_i, claimed) = slot_find st.nft_arr st.client_ctx.client_ip_buf 0 0 in
    over_limit site.conf (get_or claimed nft_i blank_nft)

-- The request is counted, and answered by an error page or by the file.
unfoldable pub counted_answer : Site → HttpReq → FwsFile → ℕ → Bool → State → Run Round
counted_answer site http_req file status_code is_html st =
    let (verdict, nft_arr) =
      limit_request site.conf st.client_ctx.client_ip_buf is_html status_code st.nft_arr in
    let ban = if verdict.ban then (b'1' ∷ site.ip_text ++ 0 ∷ []) ∷ [] else [] in
    let counted = record st { nft_arr = nft_arr; messages = st.messages ++ ban } in
    if verdict.status_code == 0
    then file_answer site http_req file counted
    else ok (err_answer site verdict.status_code (is_over site st) counted)

-- The file that has been looked for, found or not.
unfoldable pub located_answer : Site → HttpReq → FwsFile → ℕ → State → Run Round
located_answer site http_req file status_code st = strnlen file.path 4096 >>= λ path_n.
    if path_n == 4096
    then ok (leaves failure st)
    else (html_test file path_n >>= λ is_html. copy file.path (path_n + 1) >>= λ path.
        write st.client_ctx.file_path 0 path >>= λ file_path.
        counted_answer site http_req file status_code is_html
          (record st { client_ctx = record st.client_ctx { file_path = file_path } }))

-- What file_parse has returned.
unfoldable pub parsed_answer : Site → HttpReq → State → ℤ → FwsFile → Run Round
parsed_answer site http_req st (negsuc _) file = ok (leaves failure st)
parsed_answer site http_req st (pos status_code) file =
    if status_code == 301
    then map_run (λ peer. leaves failure (record st { peer = peer }))
        (http_path_redir site.stack http_req site.conf file st.peer)
    else located_answer site http_req file status_code st

-- A request that has been parsed.
unfoldable pub request_answer : Site → HttpReq → State → Run Round
unfolding parsed_answer
request_answer site http_req st = web_root_build site.conf http_req >>= λ web_root.
    file_parse site.fs http_req web_root 256 >>= λ parsed.
    parsed_answer site http_req st parsed.0 parsed.1

-- `log_flag |= (1 << bit)`
unfoldable pub flag_set : ℕ → ℕ → ℕ
flag_set bit log_flag = if (log_flag / 2 ^ bit) % 2 == 0 then log_flag + 2 ^ bit else log_flag

-- What net_443_read has returned.
unfoldable pub read_answer : Site → ℤ → State → Run Round
read_answer site (negsuc _) st = ok (
    leaves failure (record st {
      client_ctx = record st.client_ctx { want_write = false; file_len = pos 0 };
      log_flag = flag_set 2 st.log_flag;
    }))
read_answer site (pos zero) st = ok (leaves (pos 1) st)
read_answer site (pos (suc _)) st =
    http_req_parse st.client_ctx.req_buf site.conf.domain 128 >>= λ parsed.
    request_answer site parsed.1
      (record st { http_req = parsed.1; client_ctx = record st.client_ctx { req_buf = parsed.2 } })

-- A round of the loop.
unfoldable pub session_round : Site → State → Run Round
unfolding read_answer
session_round site st =
    if st.client_ctx.want_write
    then file_send site st
    else (net_443_read st.client_ctx st.peer >>= λ r.
        read_answer site r.0 (record st { client_ctx = r.1; peer = r.2 }))

-- What becomes of a connection: round after round, and when a round has returned 1, the next event,
-- with what SSL_read and SSL_write come to in it and the table as the other clients have left it.
pub data Goes (site : Site) : State → State → Type 0 where
  stay : (st : State) → Goes site st st
  go :
      {st st' st'' : State}
      → session_round site st ≡ ok (goes_on st')
      → Goes site st' st''
      → Goes site st st''
  wait :
      {st st' st'' : State} (peer : Peer) (nft_arr : List Nft)
      → session_round site st ≡ ok (leaves (pos 1) st')
      → Goes site (record st' { peer = peer; nft_arr = nft_arr }) st''
      → Goes site st st''
