-- ===== src/Tests/Values.antt =====
-- Values and lines of the configuration: src/file_conf.c.
use facows.Conf.FileEnds.{file_conf_read-Ends}
use facows.Mem.Ends.{Ends}
use facows.Conf.{mime_t}
use facows.Conf.Keys.{Lookup, conf_list}
use facows.Conf.Dispatch.{line_parse-Listed}
use facows.Conf.Document.{Document, more, last, comment, entry, file_conf_read-Document}
use facows.Types.{Conf}
use facows.Mem.Strtol.{digits, skip_blank, strtol_signed, strtol}
use facows.Conf.{
  type_u16_parse, word_end_check, type_bool_parse, type_char_parse, ports_loop, type_ap_parse,
}
use facows.Mem.Text.{codes}
use facows.Conf.Values.{
  Accepted, type_u16_parse-digits, type_bool_parse-Accepted, type_char_parse_quoted,
  type_ap_parse_line,
}
use facows.Conf.Parse.{val_parse, file_conf_read, line_parse}
use facows.Tests.{lacks-Absent, all_digits-AllDigits}
use facows.Start.{blank_conf}
use facows.Prelude.{
  ℕ, ◌≡◌, refl, inl, inr, Bool, true, false, not, some, [], ◌∷◌, ◌++◌, arith, get_or, replicate,
  pos, is_negative,
}
use facows.Mem.Run.{ok, fault, ◌>>=◌, Bytes}
use facows.Mem.Libc.{memcmp, advance}

abbrev set_port : ℕ → Conf → Conf
set_port v c = record c { http_port = v }

type_u16_parse-digits_example :
    type_u16_parse set_port (codes "8080" ++ b'\n' ∷ []) blank_conf
    ≡ ok (pos 0, record blank_conf { http_port = 8080 })
type_u16_parse-digits_example =
    type_u16_parse-digits b'8' (codes "080") [] b'\n' set_port blank_conf
      (all_digits-AllDigits (codes "8080") refl) refl

abbrev set_nft : Bool → Conf → Conf
set_nft v c = record c { use_nft = v }

false_read :
    type_bool_parse set_nft (codes "false #") blank_conf ≡ ok (pos 0, set_nft false blank_conf)
unfolding type_bool_parse word_end_check memcmp advance
false_read = refl

type_bool_parse-Accepted_example :
    Accepted set_nft blank_conf (codes "false #") (set_nft false blank_conf)
type_bool_parse-Accepted_example =
    type_bool_parse-Accepted set_nft blank_conf (codes "false #") false_read

abbrev get_domain : Conf → Bytes
get_domain c = c.domain

abbrev set_domain : Bytes → Conf → Conf
set_domain v c = record c { domain = v }

abbrev small_conf : Conf
small_conf = record blank_conf { domain = replicate 6 9 }

type_char_parse_quoted_example :
    type_char_parse 6 get_domain set_domain (codes "\"ab\"" ++ b'\n' ∷ []) small_conf
    ≡ ok (pos 0, record small_conf { domain = codes "ab" ++ 0 ∷ replicate 3 9 })
type_char_parse_quoted_example =
    type_char_parse_quoted 6 get_domain set_domain small_conf (codes "ab") (b'\n' ∷ [])
      (lacks-Absent b'"' (codes "ab") refl) refl (omega arith)

ports_in_range : ports_loop 7 (codes "80,1" ++ b'\n' ∷ 0 ∷ []) ≡ ok true
unfolding ports_loop strtol strtol_signed skip_blank digits advance
ports_in_range = refl

-- Four bytes of ports and an array of six: the terminator is written behind the array.
type_ap_parse_line_example :
    type_ap_parse 6 get_domain set_domain (codes "80,1" ++ b'\n' ∷ 0 ∷ []) small_conf ≡ fault
type_ap_parse_line_example =
    type_ap_parse_line 6 get_domain set_domain small_conf (codes "80,1") (0 ∷ [])
      (lacks-Absent b'\n' (codes "80,1") refl) refl (omega arith) ports_in_range

file_conf_read-Ends_example :
    Ends (file_conf_read blank_conf (some (16, codes "HTTP_PORT 8080\n\n")))
file_conf_read-Ends_example = file_conf_read-Ends blank_conf (some (16, codes "HTTP_PORT 8080\n\n"))

-- The key of the HTTPS port.
abbrev https_key : Lookup
https_key = get_or conf_list 1 (record { key = []; member = mime_t 0 })

line_parse-Listed_example :
    line_parse (record { p_scan = codes "HTTPS_PORT  443\n"; total_n = 9; conf = blank_conf }) ≡ (
      val_parse https_key.member (codes "443\n") blank_conf >>= λ r.
      ok (not (is_negative r.0), record { p_scan = codes "443\n"; total_n = 21; conf = r.1 }))
line_parse-Listed_example =
    line_parse-Listed https_key 1 b'4' 9 (codes "43\n") blank_conf (inr (inl refl)) (omega arith)

port_value :
    (rest : Bytes)
    → val_parse https_key.member (codes "443" ++ b'\n' ∷ rest) blank_conf
      ≡ ok (pos 0, record blank_conf { https_port = 443 })
unfolding val_parse
port_value rest =
    type_u16_parse-digits b'4' (codes "43") rest b'\n' (λ v c. record c { https_port = v })
      blank_conf (all_digits-AllDigits (codes "443") refl) refl

-- A comment, an entry and an empty line.
document :
    Document 2 (codes "# a\nHTTPS_PORT 443\n\n") blank_conf (record blank_conf { https_port = 443 })
document = more 0 (comment {s = codes " a"} (lacks-Absent b'\n' (codes " a") refl)) (
    last 2 (
      entry https_key 0 b'4' (codes "43") (inr (inl refl)) (omega arith)
        (lacks-Absent b'\n' (codes "443") refl) port_value))

file_conf_read-Document_example :
    file_conf_read blank_conf (some (20, codes "# a\nHTTPS_PORT 443\n\n"))
    ≡ ok (pos 0, record blank_conf { https_port = 443 })
file_conf_read-Document_example = file_conf_read-Document document
