-- ===== src/Conn/Log.antt =====
-- _fws_443_run and fws_parent_run: the line of a connection on its way to the log file.
use facows.Types.{Conf, HttpReq}
use facows.Conn.{log_head, log_tail, log_end, two_digits, words}
use facows.Parent.{parent_event}
use facows.Parent.{write_log}
use facows.Parent.Frames.{log_of, parent_event-frames}
use facows.Mem.Text.{
  c_str-append, print, filled, print-filled, print_cap, zeros-suc, Absent-decimal,
}
use facows.Prelude.{
  ℕ, ◌+◌, ◌-◌, ◌≤◌, ◌<◌, ◌≡◌, sym, ◌∙◌, inl, inr, Option, none, some, List, [], ◌∷◌, ◌++◌, arith,
  ltb, lt→ltb, le→not_ltb, Bool-cases, length, take, length-append, length-take,
}
use facows.Mem.Run.{Run, ok, ◌>>=◌, Bytes}
use facows.Mem.Libc.{copy, store, zeros}
use facows.Mem.Laws.{
  Absent, copy-append, store-append, snoc-append, length-snoc, write-append, length-zeros,
  Absent-append, Holds,
}

abbrev All : (Bytes → Type 0) → List Bytes → Type 0
All P [] = Unit
All P (x ∷ xs) = P x × All P xs

-- The texts that the request holds of what is printed.
pub record Logged (http_req : HttpReq) : Type 0 where
  pub version : Bytes
  pub method : Bytes
  pub subdomain : Bytes
  pub uri : Bytes
  pub lang : Bytes
  pub os : Bytes
  pub browser : Bytes
  pub version_of : Holds http_req.version version
  pub method_of : Holds http_req.method method
  pub subdomain_of : Holds http_req.subdomain subdomain
  pub uri_of : Holds http_req.uri uri
  pub lang_of : Holds http_req.lang lang
  pub os_of : Holds http_req.os os
  pub browser_of : Holds http_req.browser browser

module _ {http_req : HttpReq} (l : Logged http_req) where
  abbrev pub words_of : List Bytes
  words_of = l.version ∷ l.method ∷ l.subdomain ∷ l.uri ∷ l.lang ∷ l.os ∷ l.browser ∷ []

  -- What log_tail prints.
  abbrev pub tail_of : ℕ → Bytes
  tail_of log_flag = two_digits log_flag ++ words words_of

  log_tail-tail_of : (log_flag : ℕ) → log_tail log_flag http_req ≡ ok (tail_of log_flag)
  unfolding log_tail
  log_tail-tail_of log_flag = rw (
    l.version_of.splits,
    c_str-append l.version l.version_of.rest l.version_of.no_nul,
    l.method_of.splits,
    c_str-append l.method l.method_of.rest l.method_of.no_nul,
    l.subdomain_of.splits,
    c_str-append l.subdomain l.subdomain_of.rest l.subdomain_of.no_nul,
    l.uri_of.splits,
    c_str-append l.uri l.uri_of.rest l.uri_of.no_nul,
    l.lang_of.splits,
    c_str-append l.lang l.lang_of.rest l.lang_of.no_nul,
    l.os_of.splits,
    c_str-append l.os l.os_of.rest l.os_of.no_nul,
    l.browser_of.splits,
    c_str-append l.browser l.browser_of.rest l.browser_of.no_nul,
  )

-- The line, from the address to the newline.
abbrev pub line_of : {r : HttpReq} → Bytes → Bytes → ℕ → Logged r → Bytes
line_of ip time log_flag l = (ip ++ b' ' ∷ time) ++ tail_of l log_flag

-- What the two calls of snprintf and the write come to.
abbrev pub log_message : Bytes → Bytes → ℕ → HttpReq → Run (Option Bytes)
log_message ip time log_flag http_req = log_head ip time >>= λ head. log_end head log_flag http_req

abbrev head_of : Bytes → Bytes → Bytes
head_of ip time = b'2' ∷ ip ++ b' ' ∷ time

log_head-filled :
    (ip time : Bytes)
    → length (head_of ip time) < 1024
    → log_head ip time ≡ ok (filled 1024 (head_of ip time))
unfolding log_head filled
log_head-filled ip time h = print-filled 1024 [] (head_of ip time) (omega (arith, h))

-- The terminator behind a text, and the copy of both.
message_copied :
    (s : Bytes)
    → length s < 1024
    → (store (filled 1024 s).0 (length s) 0 >>= λ log_buf.
        copy log_buf (length s + 1) >>= λ m. ok (some m))
      ≡ ok (some (s ++ 0 ∷ []))
unfolding filled
message_copied s h =
    let k = 1024 - length s - 1 in
    let z : zeros (1024 - length s) ≡ 0 ∷ zeros k = sym (zeros-suc (omega (arith, h))) in
    let n : length s + 1 ≡ length (s ++ 0 ∷ []) = sym (length-snoc s 0) in
    rw (
      z,
      store-append s (zeros k) 0 0,
      n,
      ← snoc-append s (zeros k) 0,
      copy-append (s ++ 0 ∷ []) (zeros k),
    )

module _ (ip time : Bytes) (log_flag : ℕ) {http_req : HttpReq} (l : Logged http_req) where
  -- A line of less than 1023 bytes is written whole.
  log_message-line :
      length (line_of ip time log_flag l) < 1023
      → log_message ip time log_flag http_req
        ≡ ok (some (b'2' ∷ line_of ip time log_flag l ++ 0 ∷ []))
  unfolding log_end filled
  log_message-line h =
      let head = head_of ip time in
      let t = tail_of l log_flag in
      let n : length (head ++ t) ≡ length head + length t = length-append head t in
      let printed : print (1024 - length head) (filled 1024 head) t ≡ ok (filled 1024 (head ++ t)) =
        print_cap (1024 - length head) 1024 (filled 1024 head) t (omega (arith, n, h))
          (omega (arith, n, h))
        ∙ print-filled 1024 head t (omega (arith, n, h)) in
      rw (
        log_head-filled ip time (omega (arith, n, h)),
        le→not_ltb 1023 (length head) (omega (arith, n, h)),
        log_tail-tail_of l log_flag,
        printed,
        le→not_ltb 1023 (length (head ++ t)) (omega (arith, h)),
        message_copied (head ++ t) (omega (arith, h)),
      )

  -- A line of 1023 bytes or more is not written at all, for an address and a time of the size that
  -- their arrays have.
  pub log_message_long :
      length ip < 46
      → length time < 16
      → 1023 ≤ length (line_of ip time log_flag l)
      → log_message ip time log_flag http_req ≡ ok none
  unfolding log_end filled print
  log_message_long short_ip short_time h =
      let head = head_of ip time in
      let t = tail_of l log_flag in
      let n : length (head ++ t) ≡ length head + length t = length-append head t in
      let m : length (ip ++ b' ' ∷ time) ≡ length ip + length (b' ' ∷ time) =
        length-append ip (b' ' ∷ time) in
      let cap = 1024 - length head in
      let room : length (take (cap - 1) t ++ 0 ∷ []) ≤ length (zeros (1024 - length head)) = omega (
        arith,
        length-snoc (take (cap - 1) t) 0,
        length-take (cap - 1) t,
        length-zeros cap,
        m,
        short_ip,
        short_time,
      ) in
      rw (
        log_head-filled ip time (omega (arith, m, short_ip, short_time)),
        le→not_ltb 1023 (length head) (omega (arith, m, short_ip, short_time)),
        log_tail-tail_of l log_flag,
        write-append (take (cap - 1) t ++ 0 ∷ []) head (zeros cap) room,
        lt→ltb 1023 (length head + length t) (omega (arith, n, h)),
      )

Absent-two_digits : (n : ℕ) → Absent 0 (two_digits n)
Absent-two_digits n = elim (Bool-cases (ltb n 10)) [
  | inl one ↦ rw one (omega arith, Absent-decimal n)
  | inr more ↦ rw more (Absent-decimal n)
]

Absent-words : (ws : List Bytes) → All (Absent 0) ws → Absent 0 (words ws)
Absent-words [] a = (omega arith, tt)
Absent-words (w ∷ ws) a = (omega arith, Absent-append 0 w (words ws) a.0 (Absent-words ws a.1))

-- A line of less than 1023 bytes, of an address and a time without a NUL, is written to the parent,
-- and what the parent does for it is to write that line to its file, byte for byte.
pub log_message-parent_event :
    (conf : Conf) (ip time : Bytes) (log_flag : ℕ) {http_req : HttpReq} (l : Logged http_req)
    → Absent 0 ip
    → Absent 0 time
    → length (line_of ip time log_flag l) < 1023
    → (m : Bytes) × (log_message ip time log_flag http_req ≡ ok (some m))
      × (parent_event conf (m ∷ []) ≡ ok (write_log (line_of ip time log_flag l) ∷ []))
log_message-parent_event conf ip time log_flag {http_req} l a b h =
    let line = line_of ip time log_flag l in
    let no_nul : Absent 0 line =
      Absent-append 0 (ip ++ b' ' ∷ time) (tail_of l log_flag)
        (Absent-append 0 ip (b' ' ∷ time) a (omega arith, b))
        (Absent-append 0 (two_digits log_flag) (words (words_of l)) (Absent-two_digits log_flag) (
          Absent-words (words_of l) (
            l.version_of.no_nul,
            (
              l.method_of.no_nul,
              (
                l.subdomain_of.no_nul,
                (l.uri_of.no_nul, (l.lang_of.no_nul, (l.os_of.no_nul, (l.browser_of.no_nul, tt)))),
              ),
            ),
          ))) in
    (
      b'2' ∷ line ++ 0 ∷ [],
      log_message-line ip time log_flag l h,
      parent_event-frames conf (log_of line ∷ []) ((omega arith, no_nul), tt)
          (omega (arith, h, length-append (b'2' ∷ line) (0 ∷ []))),
    )
