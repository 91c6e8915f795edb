-- ===== src/Net.antt =====
-- net_host_build of src/net.c, and net_http_path_redir of src/net_http.c: the redirects.
pub mod Host
pub mod Plain
pub mod Receive
pub mod Redirect
pub mod PlainEnds
use facows.Types.{Conf, HttpReq, FwsFile}
use facows.Tls.{Peer, net_443_write}
use facows.Mem.Text.{codes, decimal, c_str, print, put}
use facows.Prelude.{ℕ, [], ◌∷◌, ◌++◌, ◌==◌, if◌then◌else◌}
use facows.Mem.Run.{Run, ok, ◌>>=◌, map_run, Bytes}
use facows.Mem.Libc.{strnlen, copy, store, zeros}

-- port_buf: a colon and the port, when it is not 443
unfoldable pub port_print : ℕ → Run Bytes
port_print https_port =
    if https_port == 443
    then ok (zeros 8)
    else map_run (λ r. r.0) (print 8 (zeros 8, 0) (b':' ∷ decimal https_port))

-- net_host_build
unfoldable pub net_host_build : Bytes → HttpReq → Conf → Run Bytes
net_host_build host_buf http_req conf = port_print conf.https_port >>= λ port_buf.
    strnlen http_req.subdomain 64 >>= λ n. store host_buf 0 0 >>= λ host_buf.
    copy http_req.subdomain n >>= λ subdomain. put (host_buf, 0) (subdomain ++ b'.' ∷ []) >>= λ p.
    strnlen conf.domain 128 >>= λ n. copy conf.domain n >>= λ domain. put p domain >>= λ p.
    strnlen port_buf 8 >>= λ n. copy port_buf n >>= λ port. put p port >>= λ p. ok p.0

-- res_301_fmt of net_http_path_redir
unfoldable pub moved_text : Bytes → Bytes → Bytes
moved_text host uri_path =
    codes "HTTP/1.1 301 Moved permanently\r\nLocation: https://"
    ++ (host
        ++ (uri_path
            ++ codes
                "\r\nContent-Length: 0\r\nConnection: keep-alive\r\nKeep-Alive: timeout=3\r\n\r\n"))

-- net_http_path_redir: `host_buf` is whatever the array on the stack holds.
unfoldable pub http_path_redir : Bytes → HttpReq → Conf → FwsFile → Peer → Run Peer
http_path_redir host_buf http_req conf file peer =
    net_host_build host_buf http_req conf >>= λ host_buf. c_str host_buf >>= λ host.
    c_str file.uri_path >>= λ uri_path. ok (net_443_write peer (moved_text host uri_path)).1
