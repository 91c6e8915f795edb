-- ===== src/Tls/Answer.antt =====
-- net_443_res_write and net_443_err_write of src/net_443.c: the headers of an answer, and error pages.
use facows.Types.{Conf, HttpReq, HttpRes}
use facows.Tls.{Peer, net_443_write}
use facows.Mem.Text.{codes, decimal, c_str, print}
use facows.Prelude.{
  ℕ, suc, Bool, true, false, not, Option, none, some, List, [], ◌∷◌, ◌++◌, ◌==◌, if◌then◌else◌,
  length, ℤ, pos, failure, is_negative,
}
use facows.Mem.Run.{Run, ok, ◌>>=◌, map_run, Bytes}
use facows.Mem.Libc.{memcmp, strnlen, copy, write, zeros}

-- "\r\n"
abbrev pub nl : Bytes
nl = b'\r' ∷ b'\n' ∷ []

-- res_status_fmt with the code and the message of res_status: 304 where the tags are the same
unfoldable pub status_text : Bool → Bytes
status_text true = codes "HTTP/1.1 304 Not Modified" ++ nl
status_text false = codes "HTTP/1.1 200 OK" ++ nl

-- res_server_str, res_connection_str
unfoldable pub server_text : Bytes
server_text =
    codes "Server: Facooya-Web-Server"
    ++ nl
    ++ codes "Connection: keep-alive"
    ++ nl
    ++ codes "Keep-Alive: timeout=3"
    ++ nl

-- res_date_fmt
unfoldable pub date_text : Bytes → Bytes
date_text date = codes "Date: " ++ (date ++ nl)

-- res_cache_fmt
unfoldable pub cache_text : ℕ → Bytes → Bytes
cache_text cache_max_age etag =
    codes "Cache-Control: max-age="
    ++ (decimal cache_max_age ++ (nl ++ (codes "ETag: \"" ++ (etag ++ b'"' ∷ nl))))

-- res_content_fmt
unfoldable pub content_text : Bytes → ℕ → Bytes
content_text content file_size =
    codes "Content-Type: "
    ++ (content ++ (nl ++ (codes "Content-Length: " ++ (decimal file_size ++ nl))))

-- res_hsts_fmt
unfoldable pub hsts_text : ℕ → Bytes
hsts_text hsts_max_age =
    codes "Strict-Transport-Security: max-age=" ++ (decimal hsts_max_age ++ b';' ∷ nl)

-- res_acao_fmt
unfoldable pub acao_text : Bytes → Bytes
acao_text origin = codes "Access-Control-Allow-Origin: " ++ (origin ++ nl)

-- A header that only some answers have.
abbrev pub print_if : Bool → Bytes × ℕ → Run Bytes → Run (Bytes × ℕ)
print_if false res_buf s = ok res_buf
print_if true res_buf s = s >>= λ s. print 8192 res_buf s

-- The headers, printed one behind the other into res_buf; each snprintf is given the size of the
-- whole array. `same` tells whether the two tags are equal.
unfoldable pub headers_print : Conf → HttpRes → ℕ → HttpReq → Bool → Run (Bytes × ℕ)
headers_print conf http_res file_size http_req same =
    print 8192 (zeros 8192, 0) (status_text same) >>= λ res_buf.
    print 8192 res_buf server_text >>= λ res_buf. c_str http_res.date >>= λ date.
    print 8192 res_buf (date_text date) >>= λ res_buf. c_str http_res.etag >>= λ etag.
    print 8192 res_buf (cache_text conf.cache_max_age etag) >>= λ res_buf.
    print_if (not same) res_buf (map_run (λ s. content_text s file_size) (c_str http_res.content))
    >>= λ res_buf.
        print_if (not (http_res.hsts_max_age == 0)) res_buf (ok (hsts_text http_res.hsts_max_age))
        >>= λ res_buf.
            print_if http_res.is_origin_self res_buf (map_run acao_text (c_str http_req.origin))

-- `ret = net_443_write(...); if (ret <= 0) ret = -1; else ret = 0`
abbrev pub sent_or_failure : ℤ × Peer → ℤ × Peer
sent_or_failure (pos (suc _), peer) = (pos 0, peer)
sent_or_failure (_, peer) = (failure, peer)

-- net_443_res_write
unfoldable pub net_443_res_write : Conf → HttpRes → ℕ → HttpReq → Peer → Run (ℤ × Peer)
net_443_res_write conf http_res file_size http_req peer =
    memcmp http_res.etag http_req.etag 32 >>= λ same.
    headers_print conf http_res file_size http_req same >>= λ printed.
    write printed.0 printed.1 nl >>= λ res_buf. strnlen res_buf 8192 >>= λ res_len.
    if res_len == 8192
    then ok (failure, peer)
    else (copy res_buf res_len >>= λ s. ok (sent_or_failure (net_443_write peer s)))

-- struct http_msg
pub record HttpMsg : Type 0 where
  pub code : ℕ
  pub msg : Bytes

abbrev msg_of : ℕ → Bytes → HttpMsg
msg_of code msg = record { code = code; msg = msg }

-- http_msg: the first entry is the default.
abbrev pub default_msg : HttpMsg
default_msg = msg_of 500 (codes "Internal Server Error")

abbrev pub http_msg : List HttpMsg
http_msg =
    default_msg
    ∷ msg_of 400 (codes "Bad Request")
    ∷ msg_of 403 (codes "Forbidden")
    ∷ msg_of 404 (codes "File Not Found")
    ∷ msg_of 405 (codes "Method Not Allowed")
    ∷ msg_of 414 (codes "URI Too Long")
    ∷ msg_of 429 (codes "Too Many Requests")
    ∷ msg_of 431 (codes "Request Header Fields Too Large")
    ∷ msg_of 501 (codes "Not Implemented")
    ∷ []

-- The loop over http_msg
unfoldable pub msg_find : List HttpMsg → ℕ → HttpMsg
msg_find [] code = default_msg
msg_find (m ∷ http_msg) code =
    let rest = msg_find http_msg code in if m.code == code then m else rest

-- res_429_fmt and res_err_fmt
unfoldable pub err_head : HttpMsg → ℕ → Bool → Bytes
err_head m html_n retry =
    codes "HTTP/1.1 "
    ++ decimal m.code
    ++ b' ' ∷ m.msg
    ++ nl
    ++ codes "Content-Type: text/html"
    ++ nl
    ++ codes "Content-Length: "
    ++ decimal html_n
    ++ nl
    ++ (if retry then codes "Retry-After: 60" ++ nl else [])
    ++ codes "Server: Facooya-Web-Server"
    ++ nl
    ++ codes "Connection: close"
    ++ nl
    ++ nl

-- What snprintf makes of the error page with the code, the code again and the message; none where
-- open, fstat, calloc or read fail.
abbrev pub ErrPage : Type 0
ErrPage = Option (ℕ → ℕ → Bytes → Bytes)

-- net_443_err_write, from the first call of net_443_write on
unfoldable pub err_send : Bytes → Bytes → Peer → ℤ × Peer
err_send res_buf html_buf peer =
    let (ret, peer) = sent_or_failure (net_443_write peer res_buf) in
    if is_negative ret then (failure, peer) else sent_or_failure (net_443_write peer html_buf)

-- net_443_err_write
unfoldable pub net_443_err_write : ErrPage → ℕ → Peer → ℤ × Peer
unfolding err_send msg_find
net_443_err_write none code peer = (failure, peer)
net_443_err_write (some html_fmt) code peer =
    let m = msg_find http_msg code in
    let html_buf = html_fmt m.code m.code m.msg in
    err_send (err_head m (length html_buf) (code == 429)) html_buf peer
