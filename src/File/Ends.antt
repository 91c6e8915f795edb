-- ===== src/File/Ends.antt =====
-- file_parse of src/file.c comes to an end.
use facows.Types.{HttpReq, FwsFile}
use facows.File.{
  raw_loop, raw_path_build, hex_pair, cut_uri_path, html_ext_check, name_check, last_check,
  uri_path_build, append_html, append_index, is_dir, path_build, settle, resolve, is_found, locate,
  blank_file, file_parse, Fs, index_str, index_html_str, html_ext_str,
}
use facows.Prelude.{ℕ, ◌+◌, ◌-◌, [], ◌∷◌, ◌++◌, leb, ◌==◌, ℤ, pos, negsuc}
use facows.Mem.Run.{Bytes}
use facows.Mem.Libc.{text, zeros}
use facows.Mem.Ends.{
  Ends, bind-Ends, if-Ends, option-Ends, memchr-Ends, memrchr-Ends, memcmp-Ends, strnlen-Ends,
  copy-Ends, advance-Ends, deref-Ends, store-Ends, write-Ends, copy_text-Ends,
}

raw_loop-Ends : (p buf : Bytes) (i : ℕ) → Ends (raw_loop p buf i)
unfolding raw_loop
raw_loop-Ends [] buf i = tt
raw_loop-Ends (c ∷ []) buf i =
    if-Ends (c == 0) _ _ (λ _. store-Ends buf i 0)
      (λ _. if-Ends (c == b'%') _ _ (λ _. tt) (λ _. bind-Ends _ _ (store-Ends buf i c) (λ _ _. tt)))
raw_loop-Ends (c ∷ a ∷ []) buf i =
    if-Ends (c == 0) _ _ (λ _. store-Ends buf i 0)
      (λ _.
        if-Ends (c == b'%') _ _
          (λ _.
            if-Ends (a == 0) _ _
              (λ _. bind-Ends _ _ (store-Ends buf i c) (λ b _. store-Ends b (i + 1) 0)) (λ _. tt))
          (λ _. bind-Ends _ _ (store-Ends buf i c) (λ b _. raw_loop-Ends (a ∷ []) b (i + 1))))
raw_loop-Ends (c ∷ a ∷ b ∷ p) buf i =
    if-Ends (c == 0) _ _ (λ _. store-Ends buf i 0)
      (λ _.
        if-Ends (c == b'%') _ _
          (λ _.
            if-Ends (a == 0) _ _
              (λ _. bind-Ends _ _ (store-Ends buf i c) (λ d _. store-Ends d (i + 1) 0))
              (λ _.
                if-Ends (b == 0) _ _
                  (λ _.
                    bind-Ends _ _ (store-Ends buf i c) (λ d _.
                      bind-Ends _ _ (store-Ends d (i + 1) a) (λ d _. store-Ends d (i + 2) 0)))
                  (λ _.
                    option-Ends (hex_pair a b) _ _
                      (bind-Ends _ _ (store-Ends buf i c)
                        (λ d _. raw_loop-Ends (a ∷ b ∷ p) d (i + 1)))
                      (λ hex.
                        bind-Ends _ _ (store-Ends buf i hex) (λ d _. raw_loop-Ends p d (i + 1))))))
          (λ _. bind-Ends _ _ (store-Ends buf i c) (λ d _. raw_loop-Ends (a ∷ b ∷ p) d (i + 1))))

raw_path_build-Ends :
    (path_buf uri_path web_root : Bytes) (n : ℕ)
    → Ends (raw_path_build path_buf uri_path web_root n)
unfolding raw_path_build
raw_path_build-Ends path_buf uri_path web_root n = bind-Ends _ _ (copy-Ends web_root n) (λ root _.
    bind-Ends _ _ (write-Ends path_buf 0 root) (λ b _.
      bind-Ends _ _ (store-Ends b n b'/')
        (λ b _. bind-Ends _ _ (store-Ends b (n + 1) 0) (λ b _. raw_loop-Ends uri_path b (n + 1)))))

cut_uri_path-Ends : (file : FwsFile) (n : ℕ) → Ends (cut_uri_path file n)
unfolding cut_uri_path
cut_uri_path-Ends file n =
    bind-Ends _ _ (store-Ends file.uri_path (file.uri_path_n - n) 0) (λ _ _. tt)

html_ext_check-Ends : (file : FwsFile) → Ends (html_ext_check file)
unfolding html_ext_check
html_ext_check-Ends file =
    if-Ends (leb file.uri_path_n 5) _ _ (λ _. tt)
      (λ _. bind-Ends _ _ (advance-Ends file.uri_path (file.uri_path_n - 5)) (λ p _.
        bind-Ends _ _ (memcmp-Ends p html_ext_str 5)
          (λ html _. if-Ends html _ _ (λ _. cut_uri_path-Ends file 5) (λ _. tt))))

name_check-Ends : (file : FwsFile) (k : ℕ) → Ends (name_check file k)
unfolding name_check
name_check-Ends file k = bind-Ends _ _ (advance-Ends file.uri_path (k + 1)) (λ p _.
    bind-Ends _ _ (memcmp-Ends p (index_str ++ 0 ∷ []) 6) (λ index _.
      if-Ends index _ _ (λ _. cut_uri_path-Ends file 5)
        (λ _. bind-Ends _ _ (memcmp-Ends p (index_html_str ++ 0 ∷ []) 11) (λ html _.
          if-Ends html _ _ (λ _. cut_uri_path-Ends file 10) (λ _. html_ext_check-Ends file)))))

uri_path_build-Ends : (file : FwsFile) → Ends (uri_path_build file)
unfolding uri_path_build last_check
uri_path_build-Ends file =
    if-Ends (file.uri_path_n == 0) _ _ (λ _. tt)
      (λ _. bind-Ends _ _ (advance-Ends file.uri_path (file.uri_path_n - 1)) (λ p _.
        bind-Ends _ _ (deref-Ends p) (λ c _.
          if-Ends (c == b'/') _ _ (λ _. tt)
            (λ _.
              bind-Ends _ _ (memrchr-Ends file.uri_path b'/' file.uri_path_n)
                (λ slash _. option-Ends slash _ _ tt (name_check-Ends file))))))

path_build-Ends :
    (fs : Fs) (file : FwsFile) (path_buf : Bytes) (dir : ℤ) → Ends (path_build fs file path_buf dir)
unfolding path_build append_html append_index
path_build-Ends fs file path_buf dir = bind-Ends _ _ (memchr-Ends path_buf 0 4096) (λ end _.
    option-Ends end _ _ tt (λ p.
      option-Ends (fs.stat (text path_buf)) _ _
        (if-Ends (is_dir dir) _ _ (λ _. tt)
          (λ _. bind-Ends _ _ (write-Ends path_buf p (html_ext_str ++ 0 ∷ [])) (λ _ _. tt)))
        (λ size.
          if-Ends (is_dir dir) _ _
            (λ _. bind-Ends _ _ (write-Ends path_buf p (index_html_str ++ 0 ∷ [])) (λ _ _. tt))
            (λ _. tt))))

resolve-Ends :
    (fs : Fs) (file : FwsFile) (path_buf web_root : Bytes) (n : ℕ)
    → Ends (resolve fs file path_buf web_root n)
unfolding resolve settle
resolve-Ends fs file path_buf web_root n = option-Ends (fs.realpath (text path_buf)) _ _ tt (λ rp.
    bind-Ends _ _ (strnlen-Ends (rp ++ 0 ∷ []) 4096) (λ k _.
      if-Ends (leb 4096 k) _ _ (λ _. tt)
        (λ _. bind-Ends _ _ (copy-Ends (rp ++ 0 ∷ []) (k + 1)) (λ s _.
          bind-Ends _ _ (write-Ends file.path 0 s)
            (λ path _. bind-Ends _ _ (memcmp-Ends path web_root n) (λ _ _. tt))))))

locate-Ends :
    (fs : Fs) (code : ℤ) (file : FwsFile) (path_buf web_root : Bytes) (n : ℕ)
    → Ends (locate fs (code, file) path_buf web_root n)
unfolding locate
locate-Ends fs (negsuc c) file path_buf web_root n = tt
locate-Ends fs (pos c) file path_buf web_root n =
    if-Ends (c == 301) _ _ (λ _. tt)
      (λ _. bind-Ends _ _ (path_build-Ends fs file path_buf (pos c)) (λ built _.
        if-Ends (is_found built.0) _ _ (λ _. resolve-Ends fs built.1 built.2 web_root n) (λ _. tt)))

-- The search for a file comes to an end, whatever is asked for and whatever the file system holds.
pub file_parse-Ends :
    (fs : Fs) (http_req : HttpReq) (web_root : Bytes) (n : ℕ)
    → Ends (file_parse fs http_req web_root n)
unfolding file_parse
file_parse-Ends fs http_req web_root n =
    bind-Ends _ _ (copy_text-Ends (zeros 4096) http_req.path http_req.path_n) (λ u _.
      bind-Ends _ _ (strnlen-Ends web_root n) (λ k _.
        if-Ends (k == n) _ _ (λ _. tt)
          (λ _. bind-Ends _ _ (raw_path_build-Ends (zeros 4096) u web_root k) (λ path_buf _.
            bind-Ends _ _ (uri_path_build-Ends (blank_file u http_req.path_n))
              (λ coded _. locate-Ends fs coded.0 coded.1 path_buf web_root k)))))
