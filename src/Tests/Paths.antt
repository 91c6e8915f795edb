-- ===== src/Tests/Paths.antt =====
-- Paths and files: src/file.c.
use facows.Types.{HttpReq, FwsFile}
use facows.Mem.Text.{codes}
use facows.File.{
  chr_to_hex, hex_pair, raw_loop, raw_path_build, cut_uri_path, html_ext_check, name_check,
  last_check, uri_path_build, append_html, append_index, path_build, settle, resolve, locate,
  blank_file, file_parse, Fs,
}
use facows.File.Decode.{decode, byte_value, digit_value}
use facows.File.Encoding.{escaped, decimal, plain, nil, Encodes, raw_path_build-Encodes, Encodes}
use facows.File.Containment.{file_parse-Inside, Inside}
use facows.File.Redirect.{uri_path_build-Redirects, Redirects}
use facows.File.RawPath.{raw_path_build-decode}
use facows.File.Overlong.{raw_path_build_overlong}
use facows.Limit.{same_ip}
use facows.Http.{blank_req}
use facows.Tests.{lacks-Absent}
use facows.Prelude.{
  ◌+◌, ◌≤◌, ◌<◌, ◌≡◌, refl, Bool, ◌||◌, none, some, [], ◌∷◌, ◌++◌, arith, if◌then◌else◌, length,
  drop, replicate, ℤ, pos, failure,
}
use facows.Mem.Run.{Run, ok, fault, Bytes, run_or}
use facows.Mem.Libc.{
  memchr, memrchr, memcmp, strnlen, copy, advance, store, write, copy_text, text, zeros,
}

-- The file system of a site with one page.
abbrev is_page : Bytes → Bool
is_page p = same_ip p (codes "/srv/www/a.html") || same_ip p (codes "/srv/www//a.html")

abbrev site : Fs
site = record {
  stat = λ p. if is_page p then some 42 else none;
  realpath = λ p. if is_page p then some (codes "/srv/www/a.html") else none;
}

abbrev request_a : HttpReq
request_a = record blank_req { path = codes "/a" ++ zeros 30; path_n = 2 }

abbrev served_a : Run (ℤ × FwsFile)
served_a = file_parse site request_a (codes "/srv/www" ++ 0 ∷ zeros 247) 256

abbrev file_a : FwsFile
file_a = (run_or (failure, blank_file [] 0) served_a).1

served_a_found : served_a ≡ ok (pos 0, file_a)
unfolding file_parse resolve settle locate path_build append_html append_index uri_path_build
    last_check name_check html_ext_check cut_uri_path raw_path_build raw_loop hex_pair chr_to_hex
    copy_text copy write store strnlen memchr memcmp memrchr advance zeros text same_ip
served_a_found = refl

file_parse-Inside_example : Inside (codes "/srv/www") file_a
file_parse-Inside_example =
    file_parse-Inside site request_a (codes "/srv/www") (zeros 247) 256
      (lacks-Absent 0 (codes "/srv/www") refl) (omega arith) served_a_found

-- `%41b` spells the text `Ab`.
spelled : Encodes (codes "%41b") (codes "Ab")
spelled =
    escaped (decimal {v = 4} (omega arith) refl) (decimal {v = 1} (omega arith) refl)
      (plain (omega arith) (omega arith) nil)

raw_path_build-Encodes_example :
    raw_path_build (replicate 12 9) (codes "%41b" ++ 0 ∷ []) (codes "/w" ++ 0 ∷ []) 2
    ≡ ok (codes "/w/Ab" ++ 0 ∷ replicate 6 9)
raw_path_build-Encodes_example =
    raw_path_build-Encodes (replicate 12 9) (codes "/w") [] (0 ∷ []) spelled (omega arith)

-- `%zz` is no escape, and `%2F` is a slash.
decoded : decode (codes "%zz%2Fa") ≡ codes "%zz/a"
unfolding decode byte_value digit_value
decoded = refl

decoded_short : 2 + 1 + length (decode (codes "a%zz")) < 12
unfolding decode byte_value digit_value
decoded_short = omega arith

raw_path_build-decode_example :
    raw_path_build (replicate 12 9) (codes "a%zz" ++ 0 ∷ []) (codes "/w" ++ 0 ∷ []) 2
    ≡ ok (
        codes "/w"
        ++ b'/'
          ∷ (decode (codes "a%zz")
              ++ 0 ∷ drop (2 + length (decode (codes "a%zz")) + 2) (replicate 12 9)))
raw_path_build-decode_example =
    raw_path_build-decode (replicate 12 9) (codes "/w") (codes "a%zz") [] (0 ∷ [])
      (lacks-Absent 0 (codes "a%zz") refl) decoded_short

abc_long : 5 ≤ 2 + 1 + length (decode (codes "abc"))
unfolding decode byte_value digit_value
abc_long = omega arith

raw_path_build_overlong_example :
    raw_path_build (replicate 5 9) (codes "abc" ++ 0 ∷ []) (codes "/w" ++ 0 ∷ []) 2 ≡ fault
raw_path_build_overlong_example =
    raw_path_build_overlong (replicate 5 9) (codes "/w") (codes "abc") [] (0 ∷ [])
      (lacks-Absent 0 (codes "abc") refl) (omega arith) abc_long

abbrev asked : FwsFile
asked = blank_file (codes "/b/index" ++ 0 ∷ []) 8

abbrev redirected : FwsFile
redirected = (run_or (failure, asked) (uri_path_build asked)).1

index_redirects : uri_path_build asked ≡ ok (pos 301, redirected)
unfolding uri_path_build last_check name_check html_ext_check cut_uri_path store memcmp memrchr
    advance
index_redirects = refl

uri_path_build-Redirects_example : Redirects (codes "/b/index") redirected
uri_path_build-Redirects_example =
    uri_path_build-Redirects asked (codes "/b/index") [] refl refl
      (lacks-Absent 0 (codes "/b/index") refl) index_redirects
