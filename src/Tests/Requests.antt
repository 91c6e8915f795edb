-- ===== src/Tests/Requests.antt =====
-- Requests: src/net_http.c.
use facows.Types.{HttpReq, Conf}
use facows.Mem.Text.{codes}
use facows.Http.{line_parse, http_origin_self_check, blank_req}
use facows.Http.Header.{ua_parse}
use facows.Http.Line.{lined, line_parse-append}
use facows.Http.Origin.{IsOwn, http_origin_self_check-IsOwn}
use facows.Http.Agent.{ua_parse_no_nul}
use facows.Tests.{lacks-Absent}
use facows.Start.{blank_conf}
use facows.Prelude.{◌≡◌, refl, true, some, [], ◌∷◌, ◌++◌, arith, length, pos}
use facows.Mem.Run.{ok, Bytes}
use facows.Mem.Libc.{memcmp, strnlen, copy, advance, zeros, memmem}

method_size : length blank_req.method ≡ 16
unfolding zeros
method_size = refl

uri_size : length blank_req.uri ≡ 4096
unfolding zeros
uri_size = refl

version_size : length blank_req.version ≡ 16
unfolding zeros
version_size = refl

line_parse-append_example :
    line_parse
      (codes "GET" ++ b' ' ∷ (codes "/a" ++ b' ' ∷ (codes "HTTP/1.1" ++ b'\r' ∷ b'\n' ∷ [])))
      blank_req
    ≡ ok (pos 0, lined blank_req (codes "GET") (codes "/a") (codes "HTTP/1.1"))
line_parse-append_example =
    line_parse-append blank_req (codes "GET") (codes "/a") (codes "HTTP/1.1") (b'\n' ∷ [])
      method_size uri_size version_size (lacks-Absent b' ' (codes "GET") refl, omega arith)
      (lacks-Absent b' ' (codes "/a") refl, omega arith)
      (lacks-Absent b'\r' (codes "HTTP/1.1") refl, omega arith)

abbrev asking : HttpReq
asking = record blank_req { uri = codes "/a?b=1" ++ 0 ∷ [] }

abbrev own_conf : Conf
own_conf = record blank_conf { domain = codes "ab.c" ++ 0 ∷ zeros 123 }

abbrev own_req : HttpReq
own_req = record blank_req { origin = codes "https://x.ab.c:443" ++ zeros 494 }

own_checked : http_origin_self_check own_req own_conf ≡ ok true
unfolding http_origin_self_check strnlen copy memmem memcmp advance zeros
own_checked = refl

http_origin_self_check-IsOwn_example : IsOwn own_req.origin (codes "ab.c")
http_origin_self_check-IsOwn_example =
    http_origin_self_check-IsOwn own_req own_conf (codes "ab.c") (zeros 123) refl
      (lacks-Absent 0 (codes "ab.c") refl) (omega arith) own_checked

abbrev agent : Bytes
agent = codes "Windows NT (Firefox)\r\nHost: a"

abbrev agent_req : HttpReq
agent_req = record blank_req { os = 0 ∷ 0 ∷ zeros 14; browser = 0 ∷ 0 ∷ zeros 14 }

ua_parse_no_nul_example :
    ua_parse (agent ++ 0 ∷ []) 19 agent_req
    ≡ ok (some (record agent_req { os = b'-' ∷ 0 ∷ zeros 14; browser = b'-' ∷ 0 ∷ zeros 14 }))
ua_parse_no_nul_example =
    ua_parse_no_nul agent (0 ∷ []) 19 agent_req (lacks-Absent 0 agent refl) (omega arith) refl refl
