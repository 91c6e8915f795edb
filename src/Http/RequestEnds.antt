-- ===== src/Http/RequestEnds.antt =====
-- The request parser ends on every buffer: the loop over the headers moves on in each round.
use facows.Http.Request.{http_req_parse}
use facows.Types.{HttpReq}
use facows.Http.{
  item_parse, version_parse, line_uri_parse, line_parse, uri_parse, blank_req, lower_text,
}
use facows.Http.Header.{
  keyword, keyword_find, os_type, browser_type, name_scan, name_find, name_or_dash, host_parse,
  ua_parse, lang_end, al_parse, origin_parse, etag_parse, skip_spaces, value_parse,
  line_value_parse, next_line, header_loop, header_parse, Key,
}
use facows.Http.Header.{host, ua, al, origin, etag}
use facows.Mem.Ends.{
  Ends, Gives, Gives-Ends, Gives-ok, bind-Gives, bind-Ends, map_run-Ends, map_run-Gives, if-Ends,
  if-Gives, option-Ends, option-Gives, memchr-Ends, memcmp-Ends, strnlen-Ends, advance-Ends,
  deref-Ends, write-Ends, copy_text-Ends, length-advance,
}
use facows.Prelude.{
  ℕ, zero, suc, ◌+◌, ◌-◌, ◌≤◌, ◌<◌, not, ◌||◌, Option, none, some, List, [], ◌∷◌, ◌++◌, arith, leb,
  ◌==◌, length, get_or, ℤ, pos,
}
use facows.Mem.Run.{Run, ok, ◌>>=◌, Bytes}
use facows.Mem.Libc.{memchr, memcmp, strnlen, deref}

keyword_find-Ends : (ws : List (Bytes × Key)) (p1 : Bytes) → Ends (keyword_find ws p1)
unfolding keyword_find
keyword_find-Ends [] p1 = tt
keyword_find-Ends ((w, key) ∷ ws) p1 =
    bind-Ends (memcmp p1 w (length w)) _ (memcmp-Ends p1 w (length w))
      (λ b _. if-Ends b _ _ (λ _. tt) (λ _. keyword_find-Ends ws p1))

name_scan-Ends : (p : Bytes) (m : ℕ) (name : Bytes) → Ends (name_scan p m name)
unfolding name_scan
name_scan-Ends p zero name = tt
name_scan-Ends [] (suc m) name = tt
name_scan-Ends (x ∷ p) (suc m) name =
    let rest = name_scan-Ends p m name in
    if-Ends (x == get_or name 0 0) _ _
      (λ _.
        bind-Ends _ _ (memcmp-Ends (x ∷ p) (name ++ 0 ∷ []) (length name + 1))
          (λ b _. if-Ends b _ _ (λ _. tt) (λ _. rest)))
      (λ _. rest)

name_find-Ends : (names : List Bytes) (p : Bytes) (m : ℕ) → Ends (name_find names p m)
unfolding name_find
name_find-Ends [] p m = tt
name_find-Ends (name ∷ names) p m =
    bind-Ends (name_scan p m name) _ (name_scan-Ends p m name)
      (λ b _. if-Ends b _ _ (λ _. tt) (λ _. name_find-Ends names p m))

host_parse-Ends :
    (domain : Bytes) (n : ℕ) (p : Bytes) (r : HttpReq) → Ends (host_parse domain n p r)
unfolding host_parse
host_parse-Ends domain n p r = bind-Ends (deref r.subdomain) _ (deref-Ends r.subdomain) (λ first _.
    if-Ends (not (first == 0)) _ _ (λ _. tt)
      (λ _. bind-Ends (strnlen domain n) _ (strnlen-Ends domain n) (λ k _.
        bind-Ends (memcmp p domain k) _ (memcmp-Ends p domain k) (λ b _.
          if-Ends b _ _ (λ _. bind-Ends _ _ (write-Ends r.subdomain 0 _) (λ _ _. tt))
            (λ _.
              bind-Ends (memchr p b'.' 64) _ (memchr-Ends p b'.' 64)
                (λ dot _. bind-Ends _ _ (copy_text-Ends r.subdomain p _) (λ _ _. tt)))))))

ua_parse-Ends : (p : Bytes) (n : ℕ) (r : HttpReq) → Ends (ua_parse p n r)
unfolding ua_parse
ua_parse-Ends p n r = bind-Ends (deref r.os) _ (deref-Ends r.os) (λ a _.
    bind-Ends (deref r.browser) _ (deref-Ends r.browser) (λ b _.
      if-Ends (not (a == 0) || not (b == 0)) _ _ (λ _. tt)
        (λ _. bind-Ends _ _ (name_find-Ends os_type p (n + 1)) (λ found _.
          bind-Ends _ _ (write-Ends r.os 0 (name_or_dash found)) (λ os _.
            bind-Ends _ _ (name_find-Ends browser_type p (n + 1)) (λ found _.
              bind-Ends _ _ (write-Ends r.browser 0 (name_or_dash found)) (λ _ _. tt)))))))

lang_end-Ends : (p : Bytes) → Ends (lang_end p)
unfolding lang_end
lang_end-Ends [] = tt
lang_end-Ends (c ∷ p) =
    if-Ends (c == b',' || c == b';' || c == b'\n') _ _ (λ _. tt)
      (λ _. map_run-Ends suc (lang_end p) (lang_end-Ends p))

al_parse-Ends : (p : Bytes) (r : HttpReq) → Ends (al_parse p r)
unfolding al_parse
al_parse-Ends p r = bind-Ends (deref r.lang) _ (deref-Ends r.lang) (λ a _.
    if-Ends (not (a == 0)) _ _ (λ _. tt)
      (λ _.
        bind-Ends _ _ (lang_end-Ends p)
          (λ n _. bind-Ends _ _ (copy_text-Ends r.lang p n) (λ _ _. tt))))

etag_parse-Ends : (p : Bytes) (n : ℕ) (r : HttpReq) → Ends (etag_parse p n r)
unfolding etag_parse
etag_parse-Ends p n r = bind-Ends (deref p) _ (deref-Ends p) (λ quote _.
    if-Ends (not (quote == b'"')) _ _ (λ _. tt)
      (λ _. bind-Ends _ _ (advance-Ends p 1) (λ q _.
        bind-Ends _ _ (memchr-Ends q b'"' (n - 1)) (λ end _. option-Ends end _ _ tt (λ k.
          if-Ends (leb 32 k) _ _ (λ _. tt)
            (λ _. bind-Ends _ _ (copy_text-Ends r.etag q k) (λ _ _. tt)))))))

value_parse-Ends :
    (domain : Bytes) (domain_n : ℕ) (key : Key) (p : Bytes) (n : ℕ) (r : HttpReq)
    → Ends (value_parse domain domain_n key p n r)
unfolding value_parse origin_parse
value_parse-Ends domain domain_n host p n r = host_parse-Ends domain domain_n p r
value_parse-Ends domain domain_n ua p n r = ua_parse-Ends p n r
value_parse-Ends domain domain_n al p n r = al_parse-Ends p r
value_parse-Ends domain domain_n origin p n r =
    bind-Ends _ _ (copy_text-Ends r.origin p n) (λ _ _. tt)
value_parse-Ends domain domain_n etag p n r = etag_parse-Ends p n r

-- Blanks are skipped within what is left.
pub skip_spaces-Gives : (p : Bytes) → Gives (λ r. length r.1 ≤ length p) (skip_spaces p)
unfolding skip_spaces
skip_spaces-Gives [] = tt
skip_spaces-Gives (c ∷ p) =
    if-Gives _ (c == b' ') _ _
      (λ _.
        map_run-Gives (λ r. length r.1 ≤ length p) _ _ (skip_spaces p) (skip_spaces-Gives p)
          (λ r h. omega arith))
      (λ _. omega arith)

-- Where the line goes on is not in front of where it began.
abbrev Onward : Bytes → Option (Bytes × HttpReq) → Type 0
Onward p none = Unit
Onward p (some (q, r)) = length q ≤ length p

line_value_parse-Gives :
    (domain : Bytes) (domain_n : ℕ) (p : Bytes) (c : ℕ) (key : Option Key) (r : HttpReq)
    → Gives (Onward p) (line_value_parse domain domain_n p c key r)
unfolding line_value_parse
line_value_parse-Gives domain domain_n p c none r = omega arith
line_value_parse-Gives domain domain_n p c (some key) r =
    bind-Gives _ _ _ (advance-Ends p (c + 1)) (λ q eq.
      bind-Gives _ _ _ (memchr-Ends q b'\r' 1024) (λ end _. option-Gives _ end _ _ tt (λ k.
        bind-Gives _ _ _ (Gives-Ends _ (skip_spaces q) (skip_spaces-Gives q)) (λ skipped es.
          bind-Gives _ _ _ (value_parse-Ends domain domain_n key skipped.1 (k - skipped.0) r)
            (λ parsed _. onward p skipped.1 parsed (
              omega (
                arith,
                length-advance p (c + 1) eq,
                Gives-ok (λ (x : ℕ × Bytes). length x.1 ≤ length q) _ (skip_spaces-Gives q) es,
              )))))))
  where
    onward :
        (p q : Bytes) (parsed : Option HttpReq)
        → length q ≤ length p
        → Onward p (elim parsed [ none ↦ none | some r ↦ some (q, r) ])
    onward p q none h = tt
    onward p q (some r) h = h

-- The next line begins behind this one's start.
abbrev Further : Bytes → Option Bytes → Type 0
Further p none = Unit
Further p (some q) = length q < length p

next_line-Gives : (p : Bytes) → Gives (Further p) (next_line p)
unfolding next_line
next_line-Gives p = bind-Gives _ _ _ (memchr-Ends p b'\r' 1024) (λ end _.
    option-Gives _ end _ _ tt (λ k. bind-Gives _ _ _ (advance-Ends p (k + 1)) (λ q _.
      bind-Gives _ _ _ (deref-Ends q) (λ c _.
        if-Gives _ (not (c == b'\n')) _ _ (λ _. tt)
          (λ _.
            bind-Gives _ _ _ (advance-Ends p (k + 2))
              (λ q e. omega (arith, length-advance p (k + 2) e)))))))

-- The rest of a round, `loop` being what follows it: it is given less than the line.
round-Ends :
    (p : Bytes) (r : HttpReq) (loop : Bytes → HttpReq → Run (ℤ × HttpReq))
    → ((q : Bytes) (r : HttpReq) → length q < length p → Ends (loop q r))
    → (parsed : Option (Bytes × HttpReq)) → Onward p parsed
    → Ends {A = ℤ × HttpReq} (elim parsed [
      | none ↦ ok (pos 1, r)
      | some (p1, r) ↦
          next_line p1 >>= λ next. elim next [ none ↦ ok (pos 1, r) | some q ↦ loop q r ]
    ])
round-Ends p r loop ih none o = tt
round-Ends p r loop ih (some (p1, r')) o =
    bind-Ends _ _ (Gives-Ends _ _ (next_line-Gives p1))
      (λ next e. onwards next (Gives-ok (Further p1) _ (next_line-Gives p1) e))
  where
    onwards :
        (next : Option Bytes)
        → Further p1 next
        → Ends {A = ℤ × HttpReq} (elim next [ none ↦ ok (pos 1, r') | some q ↦ loop q r' ])
    onwards none f = tt
    onwards (some q) f = ih q r' (omega (arith, o))

-- Fuel for a round for each byte that is left is enough.
header_loop-Ends :
    (fuel : ℕ) (domain : Bytes) (domain_n : ℕ) (p : Bytes) (r : HttpReq)
    → length p < fuel
    → Ends (header_loop fuel domain domain_n p r)
unfolding header_loop
header_loop-Ends zero domain domain_n p r h = absurd (omega arith)
header_loop-Ends (suc fuel) domain domain_n p r h =
    let value = λ (c : ℕ) (key : Option Key). line_value_parse-Gives domain domain_n p c key r in
    bind-Ends _ _ (memcmp-Ends p _ 2) (λ end _.
      if-Ends end _ _ (λ _. tt)
        (λ _. bind-Ends _ _ (memchr-Ends p b':' 64) (λ colon _. option-Ends colon _ _ tt (λ c.
          bind-Ends _ _ (keyword_find-Ends keyword p) (λ key _.
            bind-Ends _ _ (Gives-Ends _ _ (value c key)) (λ parsed e.
              round-Ends p r (header_loop fuel domain domain_n)
                (λ q r l. header_loop-Ends fuel domain domain_n q r (omega arith)) parsed
                (Gives-ok (Onward p) _ (value c key) e)))))))

header_parse-Ends :
    (req_buf : Bytes) (r : HttpReq) (domain : Bytes) (domain_n : ℕ)
    → Ends (header_parse req_buf r domain domain_n)
unfolding header_parse
header_parse-Ends req_buf r domain domain_n =
    bind-Ends _ _ (Gives-Ends _ _ (next_line-Gives req_buf))
      (λ next e. headers next (Gives-ok (Further req_buf) _ (next_line-Gives req_buf) e))
  where
    headers :
        (next : Option Bytes)
        → Further req_buf next
        → Ends {A = ℤ × HttpReq} (elim next [
          | none ↦ ok (pos 1, r)
          | some p1 ↦ header_loop (suc (length req_buf)) domain domain_n p1 r
        ])
    headers none f = tt
    headers (some p1) f = header_loop-Ends (suc (length req_buf)) domain domain_n p1 r (omega arith)

pub item_parse-Ends : (p : Bytes) (stop size : ℕ) (dst : Bytes) → Ends (item_parse p stop size dst)
unfolding item_parse
item_parse-Ends p stop size dst = bind-Ends _ _ (memchr-Ends p stop size) (λ end _.
    option-Ends end _ _ tt (λ n.
      if-Ends (leb size n) _ _ (λ _. tt) (λ _. bind-Ends _ _ (copy_text-Ends dst p n) (λ _ _. tt))))

line_parse-Ends : (req_buf : Bytes) (r : HttpReq) → Ends (line_parse req_buf r)
unfolding line_parse line_uri_parse version_parse
line_parse-Ends req_buf r = bind-Ends _ _ (item_parse-Ends req_buf b' ' 16 r.method) (λ item _.
    option-Ends item _ _ tt (λ m. bind-Ends _ _ (advance-Ends req_buf (m.1 + 1)) (λ p _.
      bind-Ends _ _ (item_parse-Ends p b' ' 4096 r.uri) (λ item _. option-Ends item _ _ tt (λ u.
        bind-Ends _ _ (advance-Ends p (u.1 + 1)) (λ p _.
          bind-Ends _ _ (item_parse-Ends p b'\r' 16 r.version)
            (λ item _. option-Ends item _ _ tt (λ _. tt))))))))

uri_parse-Ends : (r : HttpReq) → Ends (uri_parse r)
unfolding uri_parse
uri_parse-Ends r = bind-Ends _ _ (strnlen-Ends r.uri 4096) (λ n _.
    bind-Ends _ _ (memchr-Ends r.uri b'?' n) (λ mark _.
      option-Ends mark _ _ tt (λ k. bind-Ends _ _ (advance-Ends r.uri (k + 1)) (λ _ _. tt))))

-- On every buffer and for every domain the parser of requests comes to an end: it gives a code and
-- a request, or reads or writes outside an array; its loop over the headers never runs on.
pub http_req_parse-Ends :
    (req_buf domain : Bytes) (domain_n : ℕ) → Ends (http_req_parse req_buf domain domain_n)
unfolding http_req_parse
http_req_parse-Ends req_buf domain domain_n =
    bind-Ends _ _ (line_parse-Ends req_buf blank_req) (λ lined _.
      bind-Ends _ _ (uri_parse-Ends lined.1) (λ r _.
        bind-Ends _ _ (strnlen-Ends req_buf 8192) (λ _ _.
          bind-Ends _ _ (header_parse-Ends (lower_text req_buf) r domain domain_n) (λ _ _. tt))))
