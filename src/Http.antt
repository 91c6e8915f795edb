-- ===== src/Http.antt =====
-- src/net_http.c: the request line, the headers and the parts of the answer that depend on them.
pub mod Header
pub mod Line
pub mod Agent
pub mod Origin
pub mod Response
pub mod Request
pub mod RequestEnds
pub mod ResponseEnds
use facows.Types.{Conf, HttpReq}
use facows.Prelude.{
  ℕ, [], zero, suc, ◌+◌, ◌-◌, Bool, false, not, ◌&&◌, ◌||◌, Option, none, some, ◌∷◌, leb, ◌==◌,
  if◌then◌else◌, ℤ, pos,
}
use facows.Mem.Run.{Run, ok, fault, ◌>>=◌, Bytes}
use facows.Mem.Libc.{memchr, strnlen, copy, advance, deref, copy_text, zeros, memmem}

-- One item of the request line: the bytes of `p1` up to `stop`, assigned to the array `dst` of
-- `size` bytes. `none` is `return 1`; otherwise the array and the length.
unfoldable pub item_parse : Bytes → ℕ → ℕ → Bytes → Run (Option (Bytes × ℕ))
item_parse p1 stop size dst = memchr p1 stop size >>= λ p2. elim p2 [
  | none ↦ ok none
  | some n ↦ if leb size n then ok none else (copy_text dst p1 n >>= λ d. ok (some (d, n)))
]

unfoldable pub version_parse : Bytes → HttpReq → Run (ℤ × HttpReq)
version_parse p1 http_req = item_parse p1 b'\r' 16 http_req.version >>= λ item. elim item [
  | none ↦ ok (pos 1, http_req)
  | some (d, n) ↦ ok (pos 0, record http_req { version = d })
]

unfoldable pub line_uri_parse : Bytes → HttpReq → Run (ℤ × HttpReq)
line_uri_parse p1 http_req = item_parse p1 b' ' 4096 http_req.uri >>= λ item. elim item [
  | none ↦ ok (pos 1, http_req)
  | some (d, n) ↦ advance p1 (n + 1) >>= λ p1. version_parse p1 (record http_req { uri = d })
]

-- _line_parse: the method, then the URI, then the version.
unfoldable pub line_parse : Bytes → HttpReq → Run (ℤ × HttpReq)
line_parse req_buf http_req = item_parse req_buf b' ' 16 http_req.method >>= λ item. elim item [
  | none ↦ ok (pos 1, http_req)
  | some (d, n) ↦
      advance req_buf (n + 1) >>= λ p1. line_uri_parse p1 (record http_req { method = d })
]

-- _uri_parse
unfoldable pub uri_parse : HttpReq → Run HttpReq
uri_parse http_req =
    let uri = http_req.uri in
    strnlen uri 4096 >>= λ uri_len. memchr uri b'?' uri_len >>= λ p2. elim p2 [
      | none ↦ ok (record http_req { path = uri; path_n = uri_len })
      | some n ↦ advance uri (n + 1) >>= λ query. ok (record http_req {
        path = uri;
        path_n = n;
        query = some query;
        query_n = uri_len - (n + 1);
      })
    ]

-- tolower, in the C locale
abbrev pub tolower : ℕ → ℕ
tolower c = if leb b'A' c && leb c b'Z' then c + 32 else c

-- The loop of net_http_req_parse over the text of the buffer.
unfoldable pub lower_text : Bytes → Bytes
lower_text [] = []
lower_text (c ∷ p) = let rest = lower_text p in if c == 0 then c ∷ p else tolower c ∷ rest

-- The request after memset.
abbrev pub blank_req : HttpReq
blank_req = record {
  lang = zeros 16;
  version = zeros 16;
  method = zeros 16;
  os = zeros 16;
  browser = zeros 16;
  etag = zeros 32;
  subdomain = zeros 64;
  origin = zeros 512;
  uri = zeros 4096;
  path = [];
  path_n = 0;
  query = none;
  query_n = 0;
}

-- net_http_origin_self_check
unfoldable pub http_origin_self_check : HttpReq → Conf → Run Bool
http_origin_self_check http_req conf = strnlen conf.domain 128 >>= λ domain_len.
    if domain_len == 128
    then ok false
    else (copy conf.domain domain_len >>= λ domain. memmem http_req.origin 512 domain >>= λ p_scan.
        elim p_scan [
          | none ↦ ok false
          | some zero ↦ fault
          | some (suc k) ↦ advance http_req.origin k >>= λ p. deref p >>= λ prev.
              if not (prev == b'.') && not (prev == b'/')
              then ok false
              else (advance http_req.origin (suc k + domain_len) >>= λ p.
                  deref p >>= λ next. ok (next == b':' || next == 0))
        ])
