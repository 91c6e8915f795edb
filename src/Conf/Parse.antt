-- ===== src/Conf/Parse.antt =====
-- _conf_parse and file_conf_read of src/file_conf.c: the loop over the lines of the file.
use facows.Types.{Conf}
use facows.Conf.{
  Member, u32_t, u16_t, bool_t, char_t, ap_t, mime_t, type_u32_parse, type_u16_parse,
  type_bool_parse, type_char_parse, type_ap_parse,
}
use facows.Conf.Mime.{type_mime_parse}
use facows.Conf.Keys.{Lookup, conf_list}
use facows.Prelude.{
  ℕ, zero, suc, ◌+◌, ◌-◌, Bool, true, false, not, Option, none, some, List, [], ◌∷◌, leb, ◌==◌,
  if◌then◌else◌, length, set, ℤ, pos, failure, is_negative,
}
use facows.Mem.Run.{Run, ok, fault, out_of_fuel, ◌>>=◌, map_run, Bytes}
use facows.Mem.Libc.{memchr, memcmp, advance, deref, store, write, zeros}

-- _conf_parse_val_arr
unfoldable pub val_parse : Member → Bytes → Conf → Run (ℤ × Conf)
val_parse (u32_t set) p_base conf = type_u32_parse set p_base conf
val_parse (u16_t set) p_base conf = type_u16_parse set p_base conf
val_parse (bool_t set) p_base conf = type_bool_parse set p_base conf
val_parse (char_t size get set) p_base conf = type_char_parse size get set p_base conf
val_parse (ap_t size get set) p_base conf = type_ap_parse size get set p_base conf
val_parse (mime_t size) p_base conf = type_mime_parse size p_base conf

-- The entry whose key is the first `n` bytes of the line.
unfoldable pub key_find : List Lookup → Bytes → ℕ → Run (Option Lookup)
key_find [] p_scan n = ok none
key_find (l ∷ ls) p_scan n =
    let rest = key_find ls p_scan n in
    if not (n == length l.key)
    then rest
    else (memcmp p_scan l.key n >>= λ same. if same then ok (some l) else rest)

-- `while (*p_scan == c) { total_n++; p_scan++; }`, with the number of rounds
unfoldable pub skip_run : ℕ → Bytes → Run (ℕ × Bytes)
skip_run c [] = fault
skip_run c (x ∷ p) =
    let rest = map_run (λ r. (suc r.0, r.1)) (skip_run c p) in
    if x == c then rest else ok (0, x ∷ p)

-- Where the scan stands, and what was read.
pub record Scan : Type 0 where
  pub p_scan : Bytes
  pub total_n : ℕ
  pub conf : Conf

-- A line with a key that is known: `false` where the code returns -1.
unfoldable pub entry_parse : Lookup → ℕ → Scan → Run (Bool × Scan)
entry_parse l n s = advance s.p_scan n >>= λ p. skip_run b' ' p >>= λ skipped.
    val_parse l.member skipped.1 s.conf >>= λ r. ok (
      not (is_negative r.0),
      record { p_scan = skipped.1; total_n = s.total_n + n + skipped.0; conf = r.1 },
    )

-- The part of the body above next_line. The line's first space is looked for once: the code does it
-- again for each key, on the same bytes.
unfoldable pub line_parse : Scan → Run (Bool × Scan)
line_parse s = deref s.p_scan >>= λ c.
    if c == b'#'
    then ok (true, s)
    else (memchr s.p_scan b' ' 16 >>= λ p_end. elim p_end [
      | none ↦ ok (true, s)
      | some n ↦ key_find conf_list s.p_scan n >>= λ found. elim found [
        | none ↦ ok (true, s)
        | some l ↦ entry_parse l n s
      ]
    ])

-- next_line: to the next line that is not empty; `false` where the code returns -1.
unfoldable pub next_line : ℕ → Scan → Run (Bool × Scan)
next_line conf_len s = memchr s.p_scan b'\n' (conf_len - s.total_n) >>= λ p_end. elim p_end [
  | none ↦ ok (false, s)
  | some n ↦ advance s.p_scan (n + 1) >>= λ p. skip_run b'\n' p >>= λ skipped.
      ok (true, record s { p_scan = skipped.1; total_n = s.total_n + n + 1 + skipped.0 })
]

-- The loop. Every round moves on by a byte at least, so `conf_len` is fuel.
unfoldable pub conf_loop : ℕ → ℕ → Scan → Run (ℤ × Conf)
conf_loop zero conf_len s = if leb conf_len s.total_n then ok (pos 0, s.conf) else out_of_fuel
conf_loop (suc fuel) conf_len s =
    if leb conf_len s.total_n
    then ok (pos 0, s.conf)
    else (line_parse s >>= λ parsed.
        if not parsed.0
        then (let s' = parsed.1 in ok (failure, s'.conf))
        else (next_line conf_len parsed.1 >>= λ next.
            if not next.0
            then (let s' = next.1 in ok (failure, s'.conf))
            else conf_loop fuel conf_len next.1))

-- _conf_parse
unfoldable pub conf_parse : Conf → Bytes → ℕ → Run (ℤ × Conf)
conf_parse conf conf_buf conf_len =
    conf_loop conf_len conf_len (record { p_scan = conf_buf; total_n = 0; conf = conf })

-- What open, fstat, calloc and read give: the size of the file and the bytes that were read, or
-- none where one of them fails.
abbrev pub ReadFile : Type 0
ReadFile = Option (ℕ × Bytes)

-- file_conf_read. The buffer ends in a newline and a NUL behind the file.
unfoldable pub file_conf_read : Conf → ReadFile → Run (ℤ × Conf)
file_conf_read conf none = ok (failure, conf)
file_conf_read conf (some (st_size, bytes)) = write (zeros (st_size + 2)) 0 bytes >>= λ conf_buf.
    store conf_buf st_size b'\n' >>= λ conf_buf. store conf_buf (st_size + 1) 0 >>= λ conf_buf.
    conf_parse conf conf_buf (st_size + 1) >>= λ r.
    ok (if is_negative r.0 then failure else pos 0, r.1)
