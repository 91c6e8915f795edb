-- ===== src/Tls/Header.antt =====
-- net_443_res_write: the headers that are sent.
use facows.Types.{Conf, HttpReq, HttpRes}
use facows.Tls.{Peer, net_443_write}
use facows.Tls.Answer.{
  nl, status_text, server_text, date_text, cache_text, content_text, hsts_text, acao_text,
  sent_or_failure, net_443_res_write,
}
use facows.Tls.Parts.{only_if, part-append, literal, printed_text, headers_print-filled, Printable}
use facows.Mem.Text.{codes, decimal, write-filled, strnlen-filled, copy-filled}
use facows.Prelude.{
  ℕ, ◌≡◌, refl, Bool, true, false, not, [], ◌∷◌, ◌++◌, append_assoc, arith, ◌==◌, if◌then◌else◌,
  ne→not_==, length,
}
use facows.Mem.Run.{ok, Bytes}
use facows.Mem.Libc.{memcmp}

-- A header line
abbrev pub line : Bytes → Bytes → Bytes
line name value = name ++ (b':' ∷ b' ' ∷ value ++ nl)

-- The header lines of an answer, in their order.
abbrev pub answer_header : Conf → HttpRes → ℕ → Bool → Bytes → Bytes → Bytes → Bytes → Bytes
answer_header conf http_res file_size same date etag content origin =
    (codes "HTTP/1.1 " ++ (if same then codes "304 Not Modified" else codes "200 OK") ++ nl)
    ++ (line (codes "Server") (codes "Facooya-Web-Server")
        ++ line (codes "Connection") (codes "keep-alive")
        ++ line (codes "Keep-Alive") (codes "timeout=3"))
    ++ line (codes "Date") date
    ++ (line (codes "Cache-Control") (codes "max-age=" ++ decimal conf.cache_max_age)
        ++ line (codes "ETag") (b'"' ∷ etag ++ b'"' ∷ []))
    ++ only_if (not same)
        (line (codes "Content-Type") content ++ line (codes "Content-Length") (decimal file_size))
    ++ only_if (not (http_res.hsts_max_age == 0)) (
        line (codes "Strict-Transport-Security")
          (codes "max-age=" ++ (decimal http_res.hsts_max_age ++ b';' ∷ [])))
    ++ only_if http_res.is_origin_self (line (codes "Access-Control-Allow-Origin") origin)
    ++ nl

-- What is printed, with the empty line behind it, is the header.
printed-answer_header :
    (conf : Conf) (http_res : HttpRes) (file_size : ℕ) (same : Bool)
    (date etag content origin : Bytes)
    → printed_text conf http_res file_size same date etag content origin ++ nl
      ≡ answer_header conf http_res file_size same date etag content origin
unfolding status_text server_text date_text cache_text content_text hsts_text acao_text
printed-answer_header conf http_res file_size true date etag content origin = rw (
  append_assoc (decimal conf.cache_max_age),
  append_assoc (decimal http_res.hsts_max_age),
  append_assoc etag,
)
printed-answer_header conf http_res file_size false date etag content origin = rw (
  append_assoc (decimal conf.cache_max_age),
  append_assoc (decimal http_res.hsts_max_age),
  append_assoc etag,
  append_assoc content,
)

-- When each array that is printed holds a text with its terminator, net_443_res_write hands one buffer to
-- net_443_write: the status, 304 where the 32 bytes of the two tags are equal and 200 otherwise, and the
-- header lines in their order, each ended by a line break, and an empty line. All of it fits the array.
pub net_443_res_write-answer_header :
    (conf : Conf) (http_res : HttpRes) (file_size : ℕ) (http_req : HttpReq) (peer : Peer)
    (same : Bool) (date etag content origin : Bytes)
    → Printable http_res http_req date etag content origin
    → memcmp http_res.etag http_req.etag 32 ≡ ok same
    → net_443_res_write conf http_res file_size http_req peer
      ≡ ok (
          sent_or_failure (
            net_443_write peer
              (answer_header conf http_res file_size same date etag content origin)))
unfolding net_443_res_write
net_443_res_write-answer_header conf http_res file_size http_req peer same date etag content origin
      p tags =
    let s = printed_text conf http_res file_size same date etag content origin in
    let (printed, part) =
      headers_print-filled conf http_res file_size http_req same date etag content origin p in
    let all = part-append part (literal nl refl) in
    rw (
      tags,
      printed,
      write-filled 8192 s nl (omega (arith, part.small)),
      strnlen-filled 8192 (s ++ nl) all.no_nul (omega (arith, all.small)),
      ne→not_== (length (s ++ nl)) 8192 (omega (arith, all.small)),
      copy-filled 8192 (s ++ nl),
      printed-answer_header conf http_res file_size same date etag content origin,
    )
