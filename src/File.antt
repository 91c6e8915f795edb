-- ===== src/File.antt =====
-- src/file.c: from the path of a request to the file that answers it.
pub mod Ends
pub mod Decode
pub mod Loop
pub mod RawPath
pub mod Overlong
pub mod Encoding
pub mod Containment
pub mod Redirect
use facows.Types.{FwsFile, HttpReq}
use Prim.Native.Nat.{bit_or}
use facows.Prelude.{
  ℕ, [], ◌+◌, ◌-◌, ◌*◌, ◌%◌, ◌^◌, Bool, false, ◌&&◌, ◌||◌, Option, none, some, ◌∷◌, ◌++◌, leb, ◌==◌,
  if◌then◌else◌, ℤ, pos, negsuc, failure,
}
use facows.Mem.Run.{Run, ok, fault, ◌>>=◌, Bytes}
use facows.Mem.Libc.{
  memchr, memrchr, memcmp, strnlen, copy, advance, deref, store, write, copy_text, text, zeros,
}

-- _chr_to_hex
unfoldable pub chr_to_hex : ℕ → ℤ
chr_to_hex c =
    if leb 0x30 c && leb c 0x39
    then pos (c - 0x30)
    else if leb 0x41 c && leb c 0x46
    then pos (c - 0x37)
    else if leb 0x61 c && leb c 0x66
    then pos (c - 0x57)
    else failure

-- `hex = (x1 << 4); hex |= x2;` on u8
abbrev pub join_hex : ℕ → ℕ → ℕ
join_hex x1 x2 = bit_or (x1 * 2 ^ 4 % 2 ^ 8) x2

-- The bytes that `%ab` stands for, or none where the code copies the `%` alone.
unfoldable pub hex_pair : ℕ → ℕ → Option ℕ
hex_pair a b = elim (chr_to_hex a) [
  | negsuc _ ↦ none
  | pos x1 ↦ elim (chr_to_hex b) [ negsuc _ ↦ none | pos x2 ↦ some (join_hex x1 x2) ]
]

-- The loop of _raw_path_build: `p` is `p1`, and `p2` points at index `i` of `buf`.
unfoldable pub raw_loop : Bytes → Bytes → ℕ → Run Bytes
raw_loop [] buf i = fault
raw_loop (c ∷ []) buf i =
    if c == 0 then store buf i 0 else if c == b'%' then fault else store buf i c >>= λ _. fault
raw_loop (c ∷ a ∷ []) buf i =
    let next = store buf i c >>= λ buf. raw_loop (a ∷ []) buf (i + 1) in
    if c == 0
    then store buf i 0
    else if c == b'%'
    then (if a == 0 then (store buf i c >>= λ buf. store buf (i + 1) 0) else fault)
    else next
raw_loop (c ∷ a ∷ b ∷ p) buf i =
    let next = store buf i c >>= λ buf. raw_loop (a ∷ b ∷ p) buf (i + 1) in
    let skip = λ (hex : ℕ). store buf i hex >>= λ buf. raw_loop p buf (i + 1) in
    if c == 0
    then store buf i 0
    else if c == b'%'
    then (if a == 0
        then (store buf i c >>= λ buf. store buf (i + 1) 0)
        else if b == 0
        then (store buf i c >>= λ buf. store buf (i + 1) a >>= λ buf. store buf (i + 2) 0)
        else elim (hex_pair a b) [ none ↦ next | some hex ↦ skip hex ])
    else next

-- _raw_path_build. It always returns 0: what counts is the path left in `path_buf`.
unfoldable pub raw_path_build : Bytes → Bytes → Bytes → ℕ → Run Bytes
raw_path_build path_buf uri_path web_root web_root_len = copy web_root web_root_len >>= λ root.
    write path_buf 0 root >>= λ buf. store buf web_root_len b'/' >>= λ buf.
    store buf (web_root_len + 1) 0 >>= λ buf. raw_loop uri_path buf (web_root_len + 1)

-- index_str, index_html_str and html_ext_str, without their terminators
abbrev pub index_str : Bytes
index_str = b'i' ∷ b'n' ∷ b'd' ∷ b'e' ∷ b'x' ∷ []

abbrev pub html_ext_str : Bytes
html_ext_str = b'.' ∷ b'h' ∷ b't' ∷ b'm' ∷ b'l' ∷ []

abbrev pub index_html_str : Bytes
index_html_str = index_str ++ html_ext_str

-- `file->uri_path_n -= n; file->uri_path[file->uri_path_n] = '\0'; return 301;`
unfoldable pub cut_uri_path : FwsFile → ℕ → Run (ℤ × FwsFile)
cut_uri_path file n = store file.uri_path (file.uri_path_n - n) 0 >>= λ uri_path.
    ok (pos 301, record file { uri_path = uri_path; uri_path_n = file.uri_path_n - n })

-- The test of the extension. `size <= 0` in the code: the name is the extension or shorter.
unfoldable pub html_ext_check : FwsFile → Run (ℤ × FwsFile)
html_ext_check file =
    if leb file.uri_path_n 5
    then ok (pos 0, file)
    else (advance file.uri_path (file.uri_path_n - 5) >>= λ p1.
        memcmp p1 html_ext_str 5 >>= λ html. if html then cut_uri_path file 5 else ok (pos 0, file))

-- The tests on the last name of the path, which begins behind the slash at `k`.
unfoldable pub name_check : FwsFile → ℕ → Run (ℤ × FwsFile)
name_check file k = advance file.uri_path (k + 1) >>= λ p1.
    memcmp p1 (index_str ++ 0 ∷ []) 6 >>= λ index.
    if index
    then cut_uri_path file 5
    else (memcmp p1 (index_html_str ++ 0 ∷ []) 11 >>= λ index_html.
        if index_html then cut_uri_path file 10 else html_ext_check file)

-- What follows the test for an empty path: a directory, or a name behind the last slash.
unfoldable pub last_check : FwsFile → ℕ → Run (ℤ × FwsFile)
last_check file last_chr =
    if last_chr == b'/'
    then ok (pos 1, file)
    else (memrchr file.uri_path b'/' file.uri_path_n >>= λ slash. elim slash [
      | none ↦ ok (failure, file)
      | some k ↦ name_check file k
    ])

-- _uri_path_build: the return code, and the file with the path to redirect to.
unfoldable pub uri_path_build : FwsFile → Run (ℤ × FwsFile)
uri_path_build file =
    if file.uri_path_n == 0
    then ok (failure, file)
    else (advance file.uri_path (file.uri_path_n - 1) >>= λ last.
        deref last >>= λ last_chr. last_check file last_chr)

-- The file system: the size of the file that stat finds, and the path that realpath resolves to.
pub record Fs : Type 0 where
  pub stat : Bytes → Option ℕ
  pub realpath : Bytes → Option Bytes

-- What follows stat on the path with an extension appended.
abbrev pub sized : FwsFile → Bytes → Option ℕ → ℤ × FwsFile × Bytes
sized file buf none = (pos 404, file, buf)
sized file buf (some st_size) = (pos 0, record file { size = st_size }, buf)

-- `memcpy(p, html_ext_str, ...)` and what follows it
unfoldable pub append_html : Fs → FwsFile → Bytes → ℕ → Run (ℤ × FwsFile × Bytes)
append_html fs file path_buf p =
    write path_buf p (html_ext_str ++ 0 ∷ []) >>= λ buf. ok (sized file buf (fs.stat (text buf)))

-- `memcpy(p, index_html_str, ...)` and what follows it
unfoldable pub append_index : Fs → FwsFile → Bytes → ℕ → Run (ℤ × FwsFile × Bytes)
append_index fs file path_buf p =
    write path_buf p (index_html_str ++ 0 ∷ []) >>= λ buf. ok (sized file buf (fs.stat (text buf)))

-- `dir == 1`
abbrev pub is_dir : ℤ → Bool
is_dir (pos d) = d == 1
is_dir (negsuc _) = false

-- _path_build: the return code, the file, and the path buffer. `p` is the end of the path.
unfoldable pub path_build : Fs → FwsFile → Bytes → ℤ → Run (ℤ × FwsFile × Bytes)
path_build fs file path_buf dir = memchr path_buf 0 4096 >>= λ end. elim end [
  | none ↦ ok (failure, file, path_buf)
  | some p ↦ elim (fs.stat (text path_buf)) [
    | none ↦ if is_dir dir then ok (pos 404, file, path_buf) else append_html fs file path_buf p
    | some st_size ↦
        if is_dir dir
        then append_index fs file path_buf p
        else ok (pos 0, record file { size = st_size }, path_buf)
  ]
]

-- The resolved path is copied, and must begin with the web root.
unfoldable pub settle : FwsFile → Bytes → Bytes → ℕ → ℕ → Run (ℤ × FwsFile)
settle file path_rp web_root web_root_len path_rp_n =
    copy (path_rp ++ 0 ∷ []) (path_rp_n + 1) >>= λ rp. write file.path 0 rp >>= λ path.
    memcmp path web_root web_root_len >>= λ inside.
    ok (if inside then pos 0 else pos 404, record file { path = path })

-- The end of file_parse, from realpath on.
unfoldable pub resolve : Fs → FwsFile → Bytes → Bytes → ℕ → Run (ℤ × FwsFile)
resolve fs file path_buf web_root web_root_len = elim (fs.realpath (text path_buf)) [
  | none ↦ ok (pos 404, file)
  | some path_rp ↦ strnlen (path_rp ++ 0 ∷ []) 4096 >>= λ path_rp_n.
      if leb 4096 path_rp_n
      then ok (failure, file)
      else settle file path_rp web_root web_root_len path_rp_n
]

-- `code == 0 || code == 204`
abbrev pub is_found : ℤ → Bool
is_found (pos n) = n == 0 || n == 204
is_found (negsuc _) = false

-- From the redirects to the file: what file_parse does with the code of _uri_path_build.
unfoldable pub locate : Fs → ℤ × FwsFile → Bytes → Bytes → ℕ → Run (ℤ × FwsFile)
locate fs (negsuc c, file) path_buf web_root web_root_len = ok (failure, file)
locate fs (pos c, file) path_buf web_root web_root_len =
    if c == 301
    then ok (pos 301, file)
    else (path_build fs file path_buf (pos c) >>= λ built.
        if is_found built.0
        then resolve fs built.1 built.2 web_root web_root_len
        else ok (built.0, built.1))

-- The file behind `memset` and the copy of the path.
abbrev pub blank_file : Bytes → ℕ → FwsFile
blank_file uri_path n = record { uri_path = uri_path; uri_path_n = n; path = zeros 4096; size = 0 }

-- file_parse
unfoldable pub file_parse : Fs → HttpReq → Bytes → ℕ → Run (ℤ × FwsFile)
file_parse fs http_req web_root web_root_n =
    copy_text (zeros 4096) http_req.path http_req.path_n >>= λ uri_path.
    let file = blank_file uri_path http_req.path_n in
    strnlen web_root web_root_n >>= λ web_root_len.
    if web_root_len == web_root_n
    then ok (failure, file)
    else (raw_path_build (zeros 4096) uri_path web_root web_root_len >>= λ path_buf.
        uri_path_build file >>= λ coded. locate fs coded path_buf web_root web_root_len)
