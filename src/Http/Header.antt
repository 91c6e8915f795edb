-- ===== src/Http/Header.antt =====
-- _header_parse of src/net_http.c, and net_http_req_parse around it.
use facows.Types.{HttpReq}
use facows.Prelude.{
  ℕ, zero, suc, ◌+◌, ◌-◌, Bool, true, false, not, ◌||◌, Option, none, some, List, [], ◌∷◌, ◌++◌,
  leb, ◌==◌, if◌then◌else◌, length, get_or, ℤ, pos,
}
use facows.Mem.Run.{Run, ok, fault, out_of_fuel, ◌>>=◌, map_run, Bytes}
use facows.Mem.Libc.{memchr, memcmp, strnlen, advance, deref, write, copy_text}

-- enum key_idx
pub data Key : Type 0 where
  host ua al origin etag : Key

-- The bytes of the keywords that are compared: `sizeof(keyword[i])` is the size of a pointer, so
-- that `strnlen` counts eight at most.
abbrev pub keyword : List (Bytes × Key)
keyword =
    (b'h' ∷ b'o' ∷ b's' ∷ b't' ∷ [], host)
    ∷ (b'u' ∷ b's' ∷ b'e' ∷ b'r' ∷ b'-' ∷ b'a' ∷ b'g' ∷ b'e' ∷ [], ua)
    ∷ (b'a' ∷ b'c' ∷ b'c' ∷ b'e' ∷ b'p' ∷ b't' ∷ b'-' ∷ b'l' ∷ [], al)
    ∷ (b'o' ∷ b'r' ∷ b'i' ∷ b'g' ∷ b'i' ∷ b'n' ∷ [], origin)
    ∷ (b'i' ∷ b'f' ∷ b'-' ∷ b'n' ∷ b'o' ∷ b'n' ∷ b'e' ∷ b'-' ∷ [], etag)
    ∷ []

-- The first keyword that the line begins with.
unfoldable pub keyword_find : List (Bytes × Key) → Bytes → Run (Option Key)
keyword_find [] p1 = ok none
keyword_find ((w, key) ∷ ws) p1 =
    let rest = keyword_find ws p1 in
    memcmp p1 w (length w) >>= λ same. if same then ok (some key) else rest

abbrev pub os_type : List Bytes
os_type =
    (b'a' ∷ b'n' ∷ b'd' ∷ b'r' ∷ b'o' ∷ b'i' ∷ b'd' ∷ [])
    ∷ (b'w' ∷ b'i' ∷ b'n' ∷ b'd' ∷ b'o' ∷ b'w' ∷ b's' ∷ [])
    ∷ (b'i' ∷ b'p' ∷ b'h' ∷ b'o' ∷ b'n' ∷ b'e' ∷ [])
    ∷ (b'i' ∷ b'p' ∷ b'a' ∷ b'd' ∷ [])
    ∷ (b'm' ∷ b'a' ∷ b'c' ∷ b'i' ∷ b'n' ∷ b't' ∷ b'o' ∷ b'c' ∷ b'h' ∷ [])
    ∷ (b'l' ∷ b'i' ∷ b'n' ∷ b'u' ∷ b'x' ∷ [])
    ∷ []

abbrev pub browser_type : List Bytes
browser_type =
    (b'f' ∷ b'x' ∷ b'i' ∷ b'o' ∷ b's' ∷ [])
    ∷ (b'c' ∷ b'r' ∷ b'i' ∷ b'o' ∷ b's' ∷ [])
    ∷ (b'f' ∷ b'i' ∷ b'r' ∷ b'e' ∷ b'f' ∷ b'o' ∷ b'x' ∷ [])
    ∷ (b'e' ∷ b'd' ∷ b'g' ∷ [])
    ∷ (b'c' ∷ b'h' ∷ b'r' ∷ b'o' ∷ b'm' ∷ b'e' ∷ [])
    ∷ (b's' ∷ b'a' ∷ b'f' ∷ b'a' ∷ b'r' ∷ b'i' ∷ [])
    ∷ []

-- The loop of memchr and memcmp for one name, over the `m` bytes from `p3`: the name is compared
-- with its terminator at every place where its first byte stands.
unfoldable pub name_scan : Bytes → ℕ → Bytes → Run Bool
name_scan p3 zero name = ok false
name_scan [] (suc m) name = fault
name_scan (x ∷ p3) (suc m) name =
    let rest = name_scan p3 m name in
    if x == get_or name 0 0
    then (memcmp (x ∷ p3) (name ++ 0 ∷ []) (length name + 1) >>= λ same.
        if same then ok true else rest)
    else rest

-- The first name of the table that is found.
unfoldable pub name_find : List Bytes → Bytes → ℕ → Run (Option Bytes)
name_find [] p1 m = ok none
name_find (name ∷ names) p1 m =
    let rest = name_find names p1 m in
    name_scan p1 m name >>= λ found. if found then ok (some name) else rest

-- What is copied into `os` or `browser`: the name found, or a dash.
abbrev pub name_or_dash : Option Bytes → Bytes
name_or_dash none = b'-' ∷ 0 ∷ []
name_or_dash (some name) = name ++ 0 ∷ []

-- case HOST. `none` is `return 1`.
unfoldable pub host_parse : Bytes → ℕ → Bytes → HttpReq → Run (Option HttpReq)
host_parse domain domain_n p1 http_req = deref http_req.subdomain >>= λ first.
    if not (first == 0)
    then ok none
    else (strnlen domain domain_n >>= λ domain_len. memcmp p1 domain domain_len >>= λ bare.
        if bare
        then (write http_req.subdomain 0 (b'w' ∷ b'w' ∷ b'w' ∷ 0 ∷ []) >>= λ subdomain.
            ok (some (record http_req { subdomain = subdomain })))
        else (memchr p1 b'.' 64 >>= λ dot.
            copy_text http_req.subdomain p1 (elim dot [ none ↦ 0 | some i ↦ i ]) >>= λ subdomain.
            ok (some (record http_req { subdomain = subdomain }))))

-- case UA, for a value of `n` bytes
unfoldable pub ua_parse : Bytes → ℕ → HttpReq → Run (Option HttpReq)
ua_parse p1 n http_req = deref http_req.os >>= λ os_first.
    deref http_req.browser >>= λ browser_first.
    if not (os_first == 0) || not (browser_first == 0)
    then ok none
    else (name_find os_type p1 (n + 1) >>= λ os_found.
        write http_req.os 0 (name_or_dash os_found) >>= λ os.
        name_find browser_type p1 (n + 1) >>= λ browser_found.
        write http_req.browser 0 (name_or_dash browser_found) >>= λ browser.
        ok (some (record http_req { os = os; browser = browser })))

-- The offset of the first `,`, `;` or newline, however far it is.
unfoldable pub lang_end : Bytes → Run ℕ
lang_end [] = fault
lang_end (c ∷ p2) =
    let rest = map_run suc (lang_end p2) in
    if c == b',' || c == b';' || c == b'\n' then ok 0 else rest

-- case AL
unfoldable pub al_parse : Bytes → HttpReq → Run (Option HttpReq)
al_parse p1 http_req = deref http_req.lang >>= λ first.
    if not (first == 0)
    then ok none
    else (lang_end p1 >>= λ n.
        copy_text http_req.lang p1 n >>= λ lang. ok (some (record http_req { lang = lang })))

-- case ORIGIN
unfoldable pub origin_parse : Bytes → ℕ → HttpReq → Run (Option HttpReq)
origin_parse p1 n http_req =
    copy_text http_req.origin p1 n >>= λ origin. ok (some (record http_req { origin = origin }))

-- case ETAG. What is no quoted text of less than 32 bytes is passed over.
unfoldable pub etag_parse : Bytes → ℕ → HttpReq → Run (Option HttpReq)
etag_parse p1 n http_req = deref p1 >>= λ quote.
    if not (quote == b'"')
    then ok (some http_req)
    else (advance p1 1 >>= λ p_etag_start. memchr p_etag_start b'"' (n - 1) >>= λ p_etag_end.
        elim p_etag_end [
          | none ↦ ok (some http_req)
          | some etag_len ↦
              if leb 32 etag_len
              then ok (some http_req)
              else (copy_text http_req.etag p_etag_start etag_len >>= λ etag.
                  ok (some (record http_req { etag = etag })))
        ])

-- `while (*p1 == ' ') p1++;` with the number of steps
unfoldable pub skip_spaces : Bytes → Run (ℕ × Bytes)
skip_spaces [] = fault
skip_spaces (c ∷ p1) =
    let rest = map_run (λ r. (suc r.0, r.1)) (skip_spaces p1) in
    if c == b' ' then rest else ok (0, c ∷ p1)

-- The switch over the keywords.
unfoldable pub value_parse : Bytes → ℕ → Key → Bytes → ℕ → HttpReq → Run (Option HttpReq)
value_parse domain domain_n host p1 n http_req = host_parse domain domain_n p1 http_req
value_parse domain domain_n ua p1 n http_req = ua_parse p1 n http_req
value_parse domain domain_n al p1 n http_req = al_parse p1 http_req
value_parse domain domain_n origin p1 n http_req = origin_parse p1 n http_req
value_parse domain domain_n etag p1 n http_req = etag_parse p1 n http_req

-- The body of the keyword loop for the line at `p1` whose colon is at `colon`: where the line goes
-- on, and the request.
unfoldable pub line_value_parse :
    Bytes → ℕ → Bytes → ℕ → Option Key → HttpReq → Run (Option (Bytes × HttpReq))
line_value_parse domain domain_n p1 colon none http_req = ok (some (p1, http_req))
line_value_parse domain domain_n p1 colon (some key) http_req = advance p1 (colon + 1) >>= λ p1.
    memchr p1 b'\r' 1024 >>= λ p2. elim p2 [
      | none ↦ ok none
      | some k ↦ skip_spaces p1 >>= λ skipped.
          value_parse domain domain_n key skipped.1 (k - skipped.0) http_req >>= λ parsed.
          ok (elim parsed [ none ↦ none | some r ↦ some (skipped.1, r) ])
    ]

-- `p1 = p2 + 2`, where `p2` is the end of the line; `none` is `return 1`.
unfoldable pub next_line : Bytes → Run (Option Bytes)
next_line p1 = memchr p1 b'\r' 1024 >>= λ p2. elim p2 [
  | none ↦ ok none
  | some k ↦ advance p1 (k + 1) >>= λ p. deref p >>= λ c.
      if not (c == b'\n') then ok none else (advance p1 (k + 2) >>= λ q. ok (some q))
]

-- The loop over the header lines.
unfoldable pub header_loop : ℕ → Bytes → ℕ → Bytes → HttpReq → Run (ℤ × HttpReq)
header_loop zero domain domain_n p1 http_req = out_of_fuel
header_loop (suc fuel) domain domain_n p1 http_req = memcmp p1 (b'\r' ∷ b'\n' ∷ []) 2 >>= λ end.
    if end
    then ok (pos 0, http_req)
    else (memchr p1 b':' 64 >>= λ colon. elim colon [
      | none ↦ ok (pos 1, http_req)
      | some c ↦ keyword_find keyword p1 >>= λ key.
          line_value_parse domain domain_n p1 c key http_req >>= λ parsed. elim parsed [
            | none ↦ ok (pos 1, http_req)
            | some (p1, http_req) ↦ next_line p1 >>= λ next. elim next [
              | none ↦ ok (pos 1, http_req)
              | some p1 ↦ header_loop fuel domain domain_n p1 http_req
            ]
          ]
    ])

-- _header_parse. Every round moves on by two bytes at least, so the length of the buffer is fuel.
unfoldable pub header_parse : Bytes → HttpReq → Bytes → ℕ → Run (ℤ × HttpReq)
header_parse req_buf http_req domain domain_n = next_line req_buf >>= λ next. elim next [
  | none ↦ ok (pos 1, http_req)
  | some p1 ↦ header_loop (suc (length req_buf)) domain domain_n p1 http_req
]
