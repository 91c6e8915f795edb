-- ===== src/Net/Redirect.antt =====
-- net_80_443_redir: where a request is sent to.
use facows.Types.{HttpReq}
use facows.Http.{blank_req}
use facows.Tls.{nl2_str}
use facows.Tls.Answer.{nl}
use facows.Tls.Search.{begins}
use facows.Mem.Text.{codes}
use facows.Prelude.{ℕ, suc, ◌+◌, ◌≤◌, ◌<◌, ◌≡◌, ◌≢◌, false, ◌∷◌, ◌++◌, length, drop}
use facows.Mem.Run.{Bytes}
use facows.Mem.Libc.{zeros}
use facows.Mem.Laws.{Absent}

-- The request line
abbrev pub request_line : Bytes → Bytes → Bytes → Bytes
request_line m u v = m ++ b' ' ∷ (u ++ b' ' ∷ v)

-- A request whose only header is Host
abbrev pub request : Bytes → Bytes → Bytes → Bytes → Bytes
request m u v host = (request_line m u v ++ nl) ++ (codes "Host: " ++ host) ++ nl2_str

-- What is asked of the parts of a request: they fit, and the bytes that end them do not stand in them.
pub record Plain (m u v subdomain domain : Bytes) : Type 0 where
  pub method_end : Absent b' ' m × (length m < 16)
  pub uri_end : Absent b' ' u × (length u < 4096)
  pub uri_text : Absent 0 u
  pub line_end : Absent b'\r' (request_line m u v) × (length (request_line m u v) + 2 ≤ 1024)
  pub subdomain_end : Absent b'.' subdomain × (length subdomain < 64)
  pub subdomain_text : Absent 0 subdomain
  pub first : ℕ
  pub others : Bytes
  pub subdomain_first : subdomain ≡ first ∷ others
  pub first_no_space : first ≢ b' '
  pub not_the_domain : begins domain (subdomain ++ b'.' ∷ domain) ≡ false

-- What is behind the request line, up to the end of the buffer.
abbrev headers : Bytes → Bytes → Bytes
headers host rest = codes "Host: " ++ (host ++ (nl2_str ++ rest))

-- What is read of the request
abbrev plain_req : Bytes → Bytes → HttpReq
plain_req u subdomain = record blank_req {
  uri = u ++ 0 ∷ drop (suc (length u)) (zeros 4096);
  subdomain = subdomain ++ 0 ∷ drop (suc (length subdomain)) (zeros 64);
}
