-- ===== src/Http/ResponseEnds.antt =====
-- The content type is looked up to an end: the loops over the path and the table move on in each round.
use facows.Types.{Conf, HttpReq, HttpRes}
use facows.Http.Response.{invalid, found, missing}
use facows.Http.Response.{
  FileStat, etag_print, get_etag, ext_find, ext_end_find, ext_search, content_copy, content_default,
  content_found, mime_search, blank_res, http_res_build, Search,
}
use facows.Mem.Ends.{
  Ends, bind-Ends, if-Ends, option-Ends, memchr-Ends, memcmp-Ends, strnlen-Ends, copy-Ends,
  advance-Ends, deref-Ends, write-Ends,
}
use facows.Prelude.{
  ℕ, zero, suc, ◌+◌, ◌-◌, ◌<◌, none, some, [], ◌∷◌, ◌++◌, arith, leb, ◌==◌, if◌then◌else◌, ℤ, pos,
  negsuc, failure, is_negative,
}
use facows.Mem.Run.{Run, ok, ◌>>=◌, Bytes}
use facows.Mem.Libc.{memchr, memcmp, strnlen, advance, zeros}

etag_print-Ends : (dst : Bytes) (m n : ℕ) → Ends (etag_print dst m n)
unfolding etag_print
etag_print-Ends dst m n = write-Ends dst 0 _

get_etag-Ends : (dst src : Bytes) (stat : FileStat) → Ends (get_etag dst src stat)
unfolding get_etag
get_etag-Ends dst src stat =
    bind-Ends _ _ (strnlen-Ends src 32)
      (λ n _. if-Ends (n == 32) _ _ (λ _. tt) (λ _. tagged n stat))
  where
    tagged :
        (n : ℕ) (stat : FileStat)
        → Ends {A = ℤ × Bytes} (elim stat [
          | none ↦ ok (failure, dst)
          | some (st_mtime, st_size) ↦ etag_print dst st_mtime st_size >>= λ dst.
              memcmp dst src (n + 1) >>= λ same. ok (if same then pos 304 else pos 0, dst)
        ])
    tagged n none = tt
    tagged n (some (m, k)) =
        bind-Ends _ _ (etag_print-Ends dst m k)
          (λ d _. bind-Ends _ _ (memcmp-Ends d src (n + 1)) (λ _ _. tt))

ext_find-Ends : (fuel : ℕ) (p : Bytes) (n : ℕ) → n < fuel → Ends (ext_find fuel p n)
unfolding ext_find
ext_find-Ends zero p n h = absurd (omega arith)
ext_find-Ends (suc fuel) p zero h = unfold memchr in tt
ext_find-Ends (suc fuel) p (suc n) h = bind-Ends _ _ (memchr-Ends p b'.' (suc n)) (λ dot _.
    option-Ends dot _ _ tt (λ k.
      bind-Ends _ _ (advance-Ends p (k + 1))
        (λ q _. ext_find-Ends fuel q (suc n - (k + 1)) (omega arith))))

ext_search-Ends : (fuel : ℕ) (p1 p : Bytes) (n : ℕ) → n < fuel → Ends (ext_search fuel p1 p n)
unfolding ext_search ext_end_find
ext_search-Ends zero p1 p n h = absurd (omega arith)
ext_search-Ends (suc fuel) p1 p n h =
    if-Ends (n == 0) _ _ (λ _. tt)
      (λ some.
        bind-Ends _ _
          (bind-Ends _ _ (memchr-Ends p b',' n)
            (λ comma _. option-Ends comma _ _ (memchr-Ends p b']' n) (λ _. tt)))
          (λ end _. option-Ends end _ _ tt (λ k.
            if-Ends (leb 32 k) _ _ (λ _. tt)
              (λ _. bind-Ends _ _ (copy-Ends p k) (λ ext _.
                bind-Ends _ _ (memcmp-Ends p1 (ext ++ 0 ∷ []) (k + 1)) (λ same _.
                  if-Ends same _ _ (λ _. tt)
                    (λ _. bind-Ends _ _ (advance-Ends p (k + 1)) (λ q _.
                      bind-Ends _ _ (deref-Ends q) (λ c _.
                        if-Ends (c == b']') _ _ (λ _. tt)
                          (λ _. ext_search-Ends fuel p1 q (n - (k + 1)) (ground arith)))))))))))

content_copy-Ends : (r : HttpRes) (p : Bytes) (n : ℕ) → Ends (content_copy r p n)
unfolding content_copy
content_copy-Ends r p n =
    bind-Ends _ _ (copy-Ends p n) (λ s _. bind-Ends _ _ (write-Ends (zeros 64) 0 s) (λ _ _. tt))

content_default-Ends : (conf : Conf) (r : HttpRes) → Ends (content_default conf r)
unfolding content_default
content_default-Ends conf r =
    bind-Ends _ _ (strnlen-Ends conf.mime_default 128)
      (λ n _. content_copy-Ends r conf.mime_default n)

content_found-Ends : (r : HttpRes) (p : Bytes) (n : ℕ) → Ends (content_found r p n)
unfolding content_found
content_found-Ends r p n = if-Ends (leb 64 n) _ _ (λ _. tt) (λ _. content_copy-Ends r p n)

-- The rest of a round over the types.
searched-Ends :
    (p : Bytes) (r : HttpRes) (loop : Bytes → ℕ → HttpRes → Run (ℤ × HttpRes)) (m n e : ℕ)
    → ((t : Bytes) → Ends (loop t (n - (m + e + 1)) r))
    → (searched : Search)
    → Ends {A = ℤ × HttpRes} (elim searched [
      | invalid ↦ ok (failure, r)
      | found ↦ content_found r p m
      | missing ↦ advance p (m + e + 1) >>= λ t. loop t (n - (m + e + 1)) r
    ])
searched-Ends p r loop m n e ih invalid = tt
searched-Ends p r loop m n e ih found = content_found-Ends r p m
searched-Ends p r loop m n e ih missing = bind-Ends _ _ (advance-Ends p (m + e + 1)) (λ t _. ih t)

mime_search-Ends :
    (fuel : ℕ) (conf : Conf) (p1 p : Bytes) (n : ℕ) (r : HttpRes)
    → n < fuel
    → Ends (mime_search fuel conf p1 p n r)
unfolding mime_search
mime_search-Ends zero conf p1 p n r h = absurd (omega arith)
mime_search-Ends (suc fuel) conf p1 p n r h =
    if-Ends (n == 0) _ _ (λ _. content_default-Ends conf r)
      (λ some. bind-Ends _ _ (memchr-Ends p b'[' n) (λ open_at _. option-Ends open_at _ _ tt (λ m.
        bind-Ends _ _ (advance-Ends p m) (λ q _.
          bind-Ends _ _ (memchr-Ends q b']' (n - m)) (λ close_at _.
            option-Ends close_at _ _ tt (λ e. bind-Ends _ _ (advance-Ends q 1) (λ x _.
              bind-Ends _ _ (ext_search-Ends (suc e) p1 x e (omega arith)) (λ searched _.
                searched-Ends p r (mime_search fuel conf p1) m n e
                  (λ t. mime_search-Ends fuel conf p1 t (n - (m + e + 1)) r (ground arith))
                  searched))))))))

-- The part of the builder behind the entity tag.
coded-Ends :
    (conf : Conf) (path : Bytes) (path_n : ℕ) (r : HttpRes) (code : ℤ)
    → Ends {A = ℤ × HttpRes} (elim code [
      | negsuc _ ↦ ok (failure, r)
      | pos c ↦
          if c == 304
          then ok (pos 304, record r { code = 304 })
          else (strnlen path path_n >>= λ n. ext_find (suc n) path n >>= λ p1.
              strnlen conf.mime 1024 >>= λ mime_n.
              mime_search (suc mime_n) conf p1 conf.mime mime_n (record r { code = 200 }))
    ])
coded-Ends conf path path_n r (negsuc c) = tt
coded-Ends conf path path_n r (pos c) =
    if-Ends (c == 304) _ _ (λ _. tt)
      (λ _. bind-Ends _ _ (strnlen-Ends path path_n) (λ n _.
        bind-Ends _ _ (ext_find-Ends (suc n) path n (omega arith)) (λ p1 _.
          bind-Ends _ _ (strnlen-Ends conf.mime 1024) (λ k _.
            mime_search-Ends (suc k) conf p1 conf.mime k (record r { code = 200 }) (omega arith)))))

-- For every table, path and request the builder of answers comes to an end: it gives a code and an
-- answer, or reads or writes outside an array; its loops over the path, the types and their
-- extensions never run on.
pub http_res_build-Ends :
    (conf : Conf) (date : Bytes) (stat : FileStat) (req : HttpReq) (path : Bytes) (path_n : ℕ)
    → Ends (http_res_build conf date stat req path path_n)
unfolding http_res_build
http_res_build-Ends conf date stat req path path_n =
    bind-Ends _ _ (get_etag-Ends (zeros 32) req.etag stat) (λ tagged _.
      if-Ends (is_negative tagged.0) _ _ (λ _. tt)
        (λ _. coded-Ends conf path path_n (record (blank_res date) { etag = tagged.1 }) tagged.0))
