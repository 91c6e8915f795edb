-- ===== src/Net/Host.antt =====
-- net_host_build: the name that a client is sent to.
use facows.Types.{Conf, HttpReq}
use facows.Net.{port_print, net_host_build}
use facows.Mem.Text.{
  decimal, filled, print-filled, strnlen-filled, copy-filled, Absent-decimal, put-append,
  length-decimal_port,
}
use facows.Prelude.{
  ℕ, suc, ◌^◌, ◌≤◌, ◌<◌, ◌≡◌, refl, inl, inr, [], ◌∷◌, ◌++◌, arith, ◌==◌, if◌then◌else◌, Bool-cases,
  length, drop, length-drop,
}
use facows.Mem.Run.{ok, Bytes}
use facows.Mem.Laws.{
  Absent, copy-append, strnlen-append, store-append, length-snoc, Absent-append, Holds,
}

-- The port, when it has to be written.
abbrev pub port_text : ℕ → Bytes
port_text port = if port == 443 then [] else b':' ∷ decimal port

-- The name of the host: the subdomain, a dot, the domain, and the port when it is not 443.
abbrev pub host_name : Bytes → Bytes → ℕ → Bytes
host_name subdomain domain port = (subdomain ++ b'.' ∷ []) ++ domain ++ port_text port

-- A port has a colon and five digits at most.
port-facts : (port : ℕ) → port < 2 ^ 16 → Absent 0 (port_text port) × (length (port_text port) ≤ 6)
port-facts port h = elim (Bool-cases (port == 443)) [
  | inl tls ↦ rw tls (tt, omega arith)
  | inr other ↦
      rw other ((omega arith, Absent-decimal port), omega (arith, length-decimal_port port h))
]

port_print-filled : (port : ℕ) → port < 2 ^ 16 → port_print port ≡ ok (filled 8 (port_text port)).0
unfolding port_print filled
port_print-filled port h = elim (Bool-cases (port == 443)) [
  | inl tls ↦ rw tls
  | inr other ↦
      let printed =
        print-filled 8 [] (b':' ∷ decimal port) (omega (arith, length-decimal_port port h)) in
      rw (other, printed)
]

-- For arrays that hold the two names with their terminators and a port of 16 bits, net_host_build
-- leaves the subdomain, a dot, the domain, and the port when it is not 443, with a terminator, in a
-- buffer of 512 bytes, whatever that held.
pub net_host_build-Holds :
    (host_buf : Bytes) (http_req : HttpReq) (conf : Conf) (subdomain domain : Bytes)
    → length host_buf ≡ 512
    → Holds http_req.subdomain subdomain
    → length subdomain < 64
    → Holds conf.domain domain
    → length domain < 128
    → conf.https_port < 2 ^ 16
    → (p : Bytes) × (net_host_build host_buf http_req conf ≡ ok p)
      × Holds p (host_name subdomain domain conf.https_port)
unfolding net_host_build
net_host_build-Holds [] http_req conf subdomain domain n hs ls hd ld hp = absurd (omega arith)
net_host_build-Holds (x ∷ host_buf) http_req conf subdomain domain n hs ls hd ld hp =
    let port = port_text conf.https_port in
    let (port_nul, port_len) = port-facts conf.https_port hp in
    let first = subdomain ++ b'.' ∷ [] in
    let l1 = length-snoc subdomain b'.' in
    let rest1 = drop (suc (length first)) (0 ∷ host_buf) in
    let d1 = length-drop (suc (length first)) (0 ∷ host_buf) in
    let rest2 = drop (suc (length domain)) (0 ∷ rest1) in
    let d2 = length-drop (suc (length domain)) (0 ∷ rest1) in
    let strnlen_s = strnlen-append subdomain hs.rest 64 hs.no_nul ls in
    let strnlen_d = strnlen-append domain hd.rest 128 hd.no_nul ld in
    (
      _,
      rw (
        port_print-filled conf.https_port hp,
        hs.splits,
        strnlen_s,
        store-append [] host_buf x 0,
        copy-append subdomain (0 ∷ hs.rest),
        put-append [] first (0 ∷ host_buf) (omega (arith, l1, n, ls)),
        hd.splits,
        strnlen_d,
        copy-append domain (0 ∷ hd.rest),
        put-append first domain (0 ∷ rest1) (omega (arith, d1, l1, n, ls, ld)),
        strnlen-filled 8 port port_nul (omega (arith, port_len)),
        copy-filled 8 port,
        put-append (first ++ domain) port (0 ∷ rest2)
            (omega (arith, d1, d2, l1, n, ls, ld, port_len)),
      ),
      record {
        rest = drop (suc (length port)) (0 ∷ rest2);
        splits = refl;
        no_nul =
            Absent-append 0 (first ++ domain) port
              (Absent-append 0 first domain
                (Absent-append 0 subdomain (b'.' ∷ []) hs.no_nul (omega arith, tt)) hd.no_nul)
              port_nul;
      },
    )
