-- ===== src/Http/Response.antt =====
-- _get_etag and net_http_res_build of src/net_http.c: the entity tag and the content type.
use facows.Types.{Conf, HttpReq, HttpRes}
use facows.Prelude.{
  ℕ, zero, suc, ◌+◌, ◌-◌, false, Option, none, some, [], ◌∷◌, ◌++◌, leb, ◌==◌, if◌then◌else◌, take,
  ℤ, pos, negsuc, failure, is_negative,
}
use facows.Mem.Text.{decimal}
use facows.Mem.Run.{Run, ok, out_of_fuel, ◌>>=◌, Bytes}
use facows.Mem.Libc.{memchr, memcmp, strnlen, copy, advance, deref, write, zeros}

-- What open and fstat give of a file: st_mtime and st_size, or none where one of them fails.
abbrev pub FileStat : Type 0
FileStat = Option (ℕ × ℕ)

-- snprintf of "%lu_%lu" into the 32 bytes of `dst`
unfoldable pub etag_print : Bytes → ℕ → ℕ → Run Bytes
etag_print dst st_mtime st_size =
    let s = take 31 (decimal st_mtime ++ b'_' ∷ decimal st_size) in write dst 0 (s ++ 0 ∷ [])

-- _get_etag: the return code and `dst`.
unfoldable pub get_etag : Bytes → Bytes → FileStat → Run (ℤ × Bytes)
get_etag dst src stat = strnlen src 32 >>= λ etag_len.
    if etag_len == 32 then ok (failure, dst) else (elim stat [
      | none ↦ ok (failure, dst)
      | some (st_mtime, st_size) ↦ etag_print dst st_mtime st_size >>= λ dst.
          memcmp dst src (etag_len + 1) >>= λ same. ok (if same then pos 304 else pos 0, dst)
    ])

-- The loop that moves `p1` behind the last dot of the `n` bytes of the path. `n` falls.
unfoldable pub ext_find : ℕ → Bytes → ℕ → Run Bytes
ext_find zero p1 n = out_of_fuel
ext_find (suc fuel) p1 n = memchr p1 b'.' n >>= λ p2. elim p2 [
  | none ↦ ok p1
  | some k ↦ advance p1 (k + 1) >>= λ p. ext_find fuel p (n - (k + 1))
]

-- How the search in the table goes on: an error, a type found, or neither.
pub data Search : Type 0 where
  invalid : Search
  found : Search
  missing : Search

-- The end of an extension: a comma, or the bracket.
unfoldable pub ext_end_find : Bytes → ℕ → Run (Option ℕ)
ext_end_find p_ext_start ext_n = memchr p_ext_start b',' ext_n >>= λ comma. elim comma [
  | none ↦ memchr p_ext_start b']' ext_n
  | some k ↦ ok (some k)
]

-- The loop over the extensions of one type, `p1` being the extension of the path.
unfoldable pub ext_search : ℕ → Bytes → Bytes → ℕ → Run Search
ext_search zero p1 p_ext_start ext_n = out_of_fuel
ext_search (suc fuel) p1 p_ext_start ext_n =
    if ext_n == 0
    then ok missing
    else (ext_end_find p_ext_start ext_n >>= λ p_ext_end. elim p_ext_end [
      | none ↦ ok invalid
      | some ext_len ↦
          if leb 32 ext_len
          then ok invalid
          else (copy p_ext_start ext_len >>= λ ext.
              memcmp p1 (ext ++ 0 ∷ []) (ext_len + 1) >>= λ same.
              if same
              then ok found
              else (advance p_ext_start (ext_len + 1) >>= λ p. deref p >>= λ c.
                  if c == b']' then ok missing else ext_search fuel p1 p (ext_n - (ext_len + 1))))
    ])

-- The content type is copied into a cleared array.
unfoldable pub content_copy : HttpRes → Bytes → ℕ → Run (ℤ × HttpRes)
content_copy http_res p n = copy p n >>= λ s.
    write (zeros 64) 0 s >>= λ content. ok (pos 0, record http_res { content = content })

-- `!has_find`: the default type
unfoldable pub content_default : Conf → HttpRes → Run (ℤ × HttpRes)
content_default conf http_res =
    strnlen conf.mime_default 128 >>= λ n. content_copy http_res conf.mime_default n

-- A type of the table has been found to have the extension.
unfoldable pub content_found : HttpRes → Bytes → ℕ → Run (ℤ × HttpRes)
content_found http_res p_start mime_len =
    if leb 64 mime_len then ok (failure, http_res) else content_copy http_res p_start mime_len

-- The loop over the types of the table.
unfoldable pub mime_search : ℕ → Conf → Bytes → Bytes → ℕ → HttpRes → Run (ℤ × HttpRes)
mime_search zero conf p1 p_start mime_n http_res = out_of_fuel
mime_search (suc fuel) conf p1 p_start mime_n http_res =
    if mime_n == 0
    then content_default conf http_res
    else (memchr p_start b'[' mime_n >>= λ open_at. elim open_at [
      | none ↦ ok (failure, http_res)
      | some mime_len ↦ advance p_start mime_len >>= λ p_open.
          memchr p_open b']' (mime_n - mime_len) >>= λ close_at. elim close_at [
            | none ↦ ok (failure, http_res)
            | some ext_n ↦ advance p_open 1 >>= λ p_ext.
                ext_search (suc ext_n) p1 p_ext ext_n >>= λ searched. elim searched [
                  | invalid ↦ ok (failure, http_res)
                  | found ↦ content_found http_res p_start mime_len
                  | missing ↦ advance p_start (mime_len + ext_n + 1) >>= λ p.
                      mime_search fuel conf p1 p (mime_n - (mime_len + ext_n + 1)) http_res
                ]
          ]
    ])

-- The response after memset and strftime.
abbrev pub blank_res : Bytes → HttpRes
blank_res date = record {
  hsts_max_age = 0;
  code = 0;
  connection = 0;
  is_origin_self = false;
  content = zeros 64;
  date = date;
  etag = zeros 32;
}

-- net_http_res_build: `date` is what strftime prints, `stat` what fstat finds of the path.
unfoldable pub http_res_build : Conf → Bytes → FileStat → HttpReq → Bytes → ℕ → Run (ℤ × HttpRes)
http_res_build conf date stat http_req path path_n =
    get_etag (zeros 32) http_req.etag stat >>= λ tagged.
    let http_res = record (blank_res date) { etag = tagged.1 } in
    if is_negative tagged.0 then ok (failure, http_res) else (elim tagged.0 [
      | negsuc _ ↦ ok (failure, http_res)
      | pos c ↦
          if c == 304
          then ok (pos 304, record http_res { code = 304 })
          else (strnlen path path_n >>= λ n. ext_find (suc n) path n >>= λ p1.
              strnlen conf.mime 1024 >>= λ mime_n.
              mime_search (suc mime_n) conf p1 conf.mime mime_n (record http_res { code = 200 }))
    ])
