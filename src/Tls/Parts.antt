-- ===== src/Tls/Parts.antt =====
-- net_443_res_write: the headers as they are printed into the array.
use facows.Types.{Conf, HttpReq, HttpRes}
use facows.Tls.Answer.{
  nl, status_text, server_text, date_text, cache_text, content_text, hsts_text, acao_text, print_if,
  headers_print,
}
use facows.Mem.Text.{
  codes, decimal, c_str, c_str-append, print, filled, print-filled, Absent-decimal, length-decimal,
}
use facows.Prelude.{
  ℕ, suc, ◌+◌, ◌≤◌, ◌<◌, ◌≡◌, refl, sym, ap, inl, inr, Bool, true, false, not, ◌&&◌, [], ◌∷◌, ◌++◌,
  append-nil, arith, ◌==◌, if◌then◌else◌, Bool-cases, length, length-append,
}
use facows.Mem.Run.{ok, Bytes}
use facows.Mem.Libc.{zeros}
use facows.Mem.Laws.{Absent, Absent-append, Holds}

-- The texts that the arrays hold of what is printed.
pub record Printable (http_res : HttpRes) (http_req : HttpReq) (date etag content origin : Bytes)
    : Type 0 where
  pub date_text_of : Holds http_res.date date
  pub etag_text_of : Holds http_res.etag etag
  pub content_text_of : Holds http_res.content content
  pub origin_text_of : Holds http_req.origin origin
  pub date_small : length date < 32
  pub etag_small : length etag < 32
  pub content_small : length content < 64
  pub origin_small : length origin < 512

-- The lines that are there under a condition.
abbrev pub only_if : Bool → Bytes → Bytes
only_if b s = if b then s else []

-- A text of `n` bytes at most, without a NUL.
pub record Part (n : ℕ) (s : Bytes) : Type 0 where
  pub small : length s ≤ n
  pub no_nul : Absent 0 s

pub part-append : {n m : ℕ} {s t : Bytes} → Part n s → Part m t → Part (n + m) (s ++ t)
part-append {s} {t} a b = record {
  small = omega (arith, a.small, b.small, length-append s t);
  no_nul = Absent-append 0 s t a.no_nul b.no_nul;
}

pub part_le : {n m : ℕ} {s : Bytes} → n ≤ m → Part n s → Part m s
part_le h a = record { small = omega (arith, h, a.small); no_nul = a.no_nul }

abbrev nul_free : Bytes → Bool
nul_free [] = true
nul_free (c ∷ s) = not (c == 0) && nul_free s

nul_free-Absent : (s : Bytes) → nul_free s ≡ true → Absent 0 s
nul_free-Absent [] h = tt
nul_free-Absent (c ∷ s) h = elim (Bool-cases (c == 0)) [
  | inl nul ↦ absurd (ground arith)
  | inr other ↦ (ground arith, nul_free-Absent s (rw other at h))
]

pub literal : (s : Bytes) → nul_free s ≡ true → Part (length s) s
literal s h = record { small = omega arith; no_nul = nul_free-Absent s h }

digits : (n : ℕ) → Part 20 (decimal n)
digits n = record { small = length-decimal n; no_nul = Absent-decimal n }

print-Part :
    {n m : ℕ} {s t : Bytes}
    → n + m < 8192
    → Part n s
    → Part m t
    → print 8192 (filled 8192 s) t ≡ ok (filled 8192 (s ++ t))
print-Part {s} {t} h a b = print-filled 8192 s t (omega (arith, h, a.small, b.small))

only_if-Part : (b : Bool) {n : ℕ} {s : Bytes} → Part n s → Part n (only_if b s)
only_if-Part true c = c
only_if-Part false c = record { small = omega arith; no_nul = tt }

print_if-Part :
    (b : Bool) {n m : ℕ} {s t : Bytes}
    → n + m < 8192
    → Part n s
    → Part m t
    → print_if b (filled 8192 s) (ok t) ≡ ok (filled 8192 (s ++ only_if b t))
print_if-Part true h a b = print-Part h a b
print_if-Part false {s} h a b = ap (λ x. ok (filled 8192 x)) (sym (append-nil s))

status-Part : (same : Bool) → Part 30 (status_text same)
unfolding status_text
status-Part true = part_le (omega arith) (literal _ refl)
status-Part false = part_le (omega arith) (literal _ refl)

server-Part : Part 100 server_text
unfolding server_text
server-Part = part_le (omega arith) (literal _ refl)

date-Part : {date : Bytes} → Part 31 date → Part 100 (date_text date)
unfolding date_text
date-Part d =
    part_le (omega arith)
      (part-append (literal (codes "Date: ") refl) (part-append d (literal nl refl)))

cache-Part : (n : ℕ) {etag : Bytes} → Part 31 etag → Part 200 (cache_text n etag)
unfolding cache_text
cache-Part n e = part_le (omega arith) (
    part-append (literal (codes "Cache-Control: max-age=") refl) (
      part-append (digits n) (
        part-append (literal nl refl) (
          part-append (literal (codes "ETag: \"") refl)
            (part-append e (literal (b'"' ∷ nl) refl))))))

content-Part : (n : ℕ) {content : Bytes} → Part 63 content → Part 200 (content_text content n)
unfolding content_text
content-Part n c = part_le (omega arith) (
    part-append (literal (codes "Content-Type: ") refl) (
      part-append c (
        part-append (literal nl refl) (
          part-append (literal (codes "Content-Length: ") refl)
            (part-append (digits n) (literal nl refl))))))

hsts-Part : (n : ℕ) → Part 200 (hsts_text n)
unfolding hsts_text
hsts-Part n = part_le (omega arith) (
    part-append (literal (codes "Strict-Transport-Security: max-age=") refl)
      (part-append (digits n) (literal (b';' ∷ nl) refl)))

acao-Part : {origin : Bytes} → Part 511 origin → Part 600 (acao_text origin)
unfolding acao_text
acao-Part o = part_le (omega arith) (
    part-append (literal (codes "Access-Control-Allow-Origin: ") refl)
      (part-append o (literal nl refl)))

pub c_str-Holds : {p s : Bytes} → Holds p s → c_str p ≡ ok s
c_str-Holds h = rw h.splits (c_str-append _ h.rest h.no_nul)

text-Part : {p s : Bytes} (n : ℕ) → Holds p s → length s < suc n → Part n s
text-Part n h l = record { small = omega (arith, l); no_nul = h.no_nul }

-- The first text that is printed into the cleared array
print_first : {s : Bytes} → Part 30 s → print 8192 (zeros 8192, 0) s ≡ ok (filled 8192 s)
unfolding filled
print_first {s} a = print-Part (omega arith) (literal [] refl) a

-- The headers as the code prints them.
abbrev pub printed_text : Conf → HttpRes → ℕ → Bool → Bytes → Bytes → Bytes → Bytes → Bytes
printed_text conf http_res file_size same date etag content origin =
    status_text same
    ++ server_text
    ++ date_text date
    ++ cache_text conf.cache_max_age etag
    ++ only_if (not same) (content_text content file_size)
    ++ only_if (not (http_res.hsts_max_age == 0)) (hsts_text http_res.hsts_max_age)
    ++ only_if http_res.is_origin_self (acao_text origin)

-- The array holds the headers, and they fit it.
pub headers_print-filled :
    (conf : Conf) (http_res : HttpRes) (file_size : ℕ) (http_req : HttpReq) (same : Bool)
    (date etag content origin : Bytes)
    → Printable http_res http_req date etag content origin
    → let s = printed_text conf http_res file_size same date etag content origin in
      (headers_print conf http_res file_size http_req same ≡ ok (filled 8192 s)) × Part 1430 s
unfolding headers_print
headers_print-filled conf http_res file_size http_req same date etag content origin p =
    let d = date-Part (text-Part 31 p.date_text_of p.date_small) in
    let e = cache-Part conf.cache_max_age (text-Part 31 p.etag_text_of p.etag_small) in
    let c = content-Part file_size (text-Part 63 p.content_text_of p.content_small) in
    let h = hsts-Part http_res.hsts_max_age in
    let o = acao-Part (text-Part 511 p.origin_text_of p.origin_small) in
    let b2 = part-append (status-Part same) server-Part in
    let b3 = part-append b2 d in
    let b4 = part-append b3 e in
    let b5 = part-append b4 (only_if-Part (not same) c) in
    let b6 = part-append b5 (only_if-Part (not (http_res.hsts_max_age == 0)) h) in
    (
      rw (
        print_first (status-Part same),
        print-Part (omega arith) (status-Part same) server-Part,
        c_str-Holds p.date_text_of,
        print-Part (omega arith) b2 d,
        c_str-Holds p.etag_text_of,
        print-Part (omega arith) b3 e,
        c_str-Holds p.content_text_of,
        print_if-Part (not same) (omega arith) b4 c,
        print_if-Part (not (http_res.hsts_max_age == 0)) (omega arith) b5 h,
        c_str-Holds p.origin_text_of,
        print_if-Part http_res.is_origin_self (omega arith) b6 o,
      ),
      part-append b6 (only_if-Part http_res.is_origin_self o),
    )
