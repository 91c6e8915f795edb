-- ===== src/Http/Line.antt =====
-- The request line: what _line_parse and _uri_parse make of a request that is formed as HTTP/1.1
-- has it.
use facows.Types.{HttpReq}
use facows.Http.{item_parse, version_parse, line_uri_parse, line_parse, uri_parse}
use facows.Mem.Laws.{
  Absent, memchr-append, memchr-Absent, advance-append, strnlen-append, snoc-append, length-snoc,
  copy_text-append,
}
use facows.Prelude.{
  ℕ, suc, ◌+◌, ◌<◌, ◌≡◌, sym, ◌∙◌, none, some, [], ◌∷◌, ◌++◌, append_assoc, arith, lt→not_leb,
  length, drop, length-append, pos,
}
use facows.Mem.Run.{ok, Bytes}
use facows.Mem.Libc.{memchr, strnlen, advance}

pub item_parse-append :
    (s rest : Bytes) (stop size : ℕ) (dst : Bytes)
    → Absent stop s
    → length s < size
    → length dst ≡ size
    → item_parse (s ++ stop ∷ rest) stop size dst
      ≡ ok (some (s ++ 0 ∷ drop (suc (length s)) dst, length s))
unfolding item_parse
item_parse-append s rest stop size dst a h e = rw (
  memchr-append s rest stop size a h,
  lt→not_leb size (length s) h,
  copy_text-append s (stop ∷ rest) dst (omega arith),
)

-- The rest of the buffer behind an item and the byte that ends it.
pub behind : (s rest : Bytes) (c : ℕ) → advance (s ++ c ∷ rest) (length s + 1) ≡ ok rest
behind s rest c = rw (← snoc-append s rest c, ← length-snoc s c) (advance-append (s ++ c ∷ []) rest)

-- The arrays behind a parsed request line.
abbrev pub lined : HttpReq → Bytes → Bytes → Bytes → HttpReq
lined r m u v = record r {
  method = m ++ 0 ∷ drop (suc (length m)) r.method;
  uri = u ++ 0 ∷ drop (suc (length u)) r.uri;
  version = v ++ 0 ∷ drop (suc (length v)) r.version;
}

module _ (r : HttpReq) (m u v rest : Bytes) where
  -- A request line whose method, URI and version fit their arrays, the first two holding no space
  -- and the third no carriage return, is taken apart into exactly these, and the code is 0.
  pub line_parse-append :
      length r.method ≡ 16
      → length r.uri ≡ 4096
      → length r.version ≡ 16
      → (Absent b' ' m × (length m < 16))
      → (Absent b' ' u × (length u < 4096))
      → (Absent b'\r' v × (length v < 16))
      → line_parse (m ++ b' ' ∷ (u ++ b' ' ∷ (v ++ b'\r' ∷ rest))) r ≡ ok (pos 0, lined r m u v)
  unfolding line_parse line_uri_parse version_parse
  line_parse-append em eu ev hm hu hv = rw (
    item_parse-append m _ b' ' 16 r.method hm.0 hm.1 em,
    behind m _ b' ',
    item_parse-append u _ b' ' 4096 r.uri hu.0 hu.1 eu,
    behind u _ b' ',
    item_parse-append v rest b'\r' 16 r.version hv.0 hv.1 ev,
  )

module _ (r : HttpReq) (p q rest : Bytes) where
  -- A URI of less than 4096 bytes is split at its first question mark: the path is what stands
  -- before it, and the query points right behind it, with the length of the rest.
  uri_parse_query :
      r.uri ≡ p ++ b'?' ∷ (q ++ 0 ∷ rest)
      → Absent 0 (p ++ b'?' ∷ q)
      → Absent b'?' p
      → length (p ++ b'?' ∷ q) < 4096
      → uri_parse r
        ≡ ok (record r {
          path = r.uri;
          path_n = length p;
          query = some (q ++ 0 ∷ rest);
          query_n = length q;
        })
  unfolding uri_parse
  uri_parse_query e n a h =
      let whole : r.uri ≡ (p ++ b'?' ∷ q) ++ 0 ∷ rest =
        e ∙ sym (append_assoc p (b'?' ∷ q) (0 ∷ rest)) in
      let len = length-append p (b'?' ∷ q) in
      let size : strnlen r.uri 4096 ≡ ok (length (p ++ b'?' ∷ q)) =
        rw whole (strnlen-append (p ++ b'?' ∷ q) rest 4096 n h) in
      let mark : memchr r.uri b'?' (length (p ++ b'?' ∷ q)) ≡ ok (some (length p)) =
        rw e
          (memchr-append p (q ++ 0 ∷ rest) b'?' (length (p ++ b'?' ∷ q)) a (omega (arith, len))) in
      let tail : advance r.uri (length p + 1) ≡ ok (q ++ 0 ∷ rest) =
        rw e (behind p (q ++ 0 ∷ rest) b'?') in
      ground (arith, size, mark, tail, len)

  -- Without a question mark the path is the whole URI.
  pub uri_parse_plain :
      r.uri ≡ p ++ 0 ∷ rest
      → Absent 0 p
      → Absent b'?' p
      → length p < 4096
      → uri_parse r ≡ ok (record r { path = r.uri; path_n = length p })
  unfolding uri_parse
  uri_parse_plain e n a h =
      let size : strnlen r.uri 4096 ≡ ok (length p) = rw e (strnlen-append p rest 4096 n h) in
      let mark : memchr r.uri b'?' (length p) ≡ ok none =
        rw e (memchr-Absent p (0 ∷ rest) b'?' (length p) a (omega arith)) in
      ground (arith, size, mark)
