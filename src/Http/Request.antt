-- ===== src/Http/Request.antt =====
-- net_http_req_parse of src/net_http.c.
use facows.Types.{HttpReq}
use facows.Http.{line_parse, uri_parse, lower_text, blank_req}
use facows.Http.Header.{header_parse}
use facows.Prelude.{ℕ, ℤ, pos}
use facows.Mem.Run.{Run, ok, ◌>>=◌, Bytes}
use facows.Mem.Libc.{strnlen}

-- net_http_req_parse: what _line_parse and _header_parse return is dropped. The request, and req_buf as
-- it is left.
unfoldable pub http_req_parse : Bytes → Bytes → ℕ → Run (ℤ × HttpReq × Bytes)
http_req_parse req_buf domain domain_n = line_parse req_buf blank_req >>= λ lined.
    uri_parse lined.1 >>= λ http_req. strnlen req_buf 8192 >>= λ _.
    header_parse (lower_text req_buf) http_req domain domain_n >>= λ parsed.
    ok (pos 0, parsed.1, lower_text req_buf)
