-- ===== src/Conf/FileEnds.antt =====
-- The end of the loops of src/file_conf.c: the loop over the lines moves on in each round.
use facows.Conf.ValueEnds.{
  strtol-Ends, type_bool_parse-Ends, type_char_parse-Ends, type_ap_parse-Ends, type_mime_parse-Ends,
}
use facows.Types.{Conf}
use facows.Conf.{u32_t, u16_t, bool_t, char_t, ap_t, mime_t}
use facows.Conf.{type_u32_parse, type_u16_parse, Member}
use facows.Conf.Keys.{Lookup, conf_list}
use facows.Conf.Parse.{
  val_parse, key_find, skip_run, entry_parse, line_parse, next_line, conf_loop, conf_parse,
  ReadFile, file_conf_read, Scan,
}
use facows.Mem.Ends.{
  Ends, Gives, Gives-Ends, Gives-ok, bind-Gives, bind-Ends, map_run-Ends, if-Ends, if-Gives,
  option-Gives, memchr-Ends, memcmp-Ends, advance-Ends, deref-Ends, store-Ends, write-Ends,
}
use facows.Prelude.{
  ℕ, zero, suc, ◌+◌, ◌-◌, ◌≤◌, ◌<◌, Bool, true, false, not, none, some, List, [], ◌∷◌, arith, leb,
  ◌==◌, if◌then◌else◌, length, ℤ, failure,
}
use facows.Mem.Run.{Run, ok, Bytes}
use facows.Mem.Libc.{zeros}

val_parse-Ends : (member : Member) (p : Bytes) (conf : Conf) → Ends (val_parse member p conf)
unfolding val_parse type_u32_parse type_u16_parse
val_parse-Ends (u32_t put_in) p conf = bind-Ends _ _ (strtol-Ends p) (λ _ _. tt)
val_parse-Ends (u16_t put_in) p conf = bind-Ends _ _ (strtol-Ends p) (λ _ _. tt)
val_parse-Ends (bool_t put_in) p conf = type_bool_parse-Ends put_in p conf
val_parse-Ends (char_t size get put_in) p conf = type_char_parse-Ends size get put_in p conf
val_parse-Ends (ap_t size get put_in) p conf = type_ap_parse-Ends size get put_in p conf
val_parse-Ends (mime_t size) p conf = type_mime_parse-Ends size p conf

key_find-Ends : (ls : List Lookup) (p : Bytes) (n : ℕ) → Ends (key_find ls p n)
unfolding key_find
key_find-Ends [] p n = tt
key_find-Ends (l ∷ ls) p n =
    let rest = key_find-Ends ls p n in
    if-Ends (not (n == length l.key)) _ _ (λ _. rest)
      (λ _.
        bind-Ends _ _ (memcmp-Ends p l.key n) (λ same _. if-Ends same _ _ (λ _. tt) (λ _. rest)))

skip_run-Ends : (c : ℕ) (p : Bytes) → Ends (skip_run c p)
unfolding skip_run
skip_run-Ends c [] = tt
skip_run-Ends c (x ∷ p) =
    if-Ends (x == c) _ _ (λ _. map_run-Ends _ (skip_run c p) (skip_run-Ends c p)) (λ _. tt)

entry_parse-Gives :
    (l : Lookup) (n : ℕ) (s : Scan)
    → Gives (λ r. let t = r.1 in s.total_n ≤ t.total_n) (entry_parse l n s)
unfolding entry_parse
entry_parse-Gives l n s = bind-Gives _ _ _ (advance-Ends s.p_scan n) (λ p _.
    bind-Gives _ _ _ (skip_run-Ends b' ' p) (λ skipped _.
      bind-Gives _ _ _ (val_parse-Ends l.member skipped.1 s.conf) (λ r _. omega arith)))

line_parse-Gives : (s : Scan) → Gives (λ r. let t = r.1 in s.total_n ≤ t.total_n) (line_parse s)
unfolding line_parse
line_parse-Gives s = bind-Gives _ _ _ (deref-Ends s.p_scan) (λ c _.
    if-Gives _ (c == b'#') _ _ (λ _. omega arith)
      (λ _. bind-Gives _ _ _ (memchr-Ends s.p_scan b' ' 16) (λ end _.
        option-Gives _ end _ _ (omega arith) (λ n.
          bind-Gives _ _ _ (key_find-Ends conf_list s.p_scan n)
            (λ found _. option-Gives _ found _ _ (omega arith) (λ l. entry_parse-Gives l n s))))))

-- A line that is left has been counted, with its newline.
abbrev Counted : Scan → Bool × Scan → Type 0
Counted s (true, t) = s.total_n < t.total_n
Counted s (false, t) = Unit

next_line-Gives : (conf_len : ℕ) (s : Scan) → Gives (Counted s) (next_line conf_len s)
unfolding next_line
next_line-Gives conf_len s =
    bind-Gives _ _ _ (memchr-Ends s.p_scan b'\n' (conf_len - s.total_n)) (λ end _.
      option-Gives _ end _ _ tt (λ n.
        bind-Gives _ _ _ (advance-Ends s.p_scan (n + 1))
          (λ p _. bind-Gives _ _ _ (skip_run-Ends b'\n' p) (λ _ _. omega arith))))

round-Ends :
    (s : Scan) (loop : Scan → Run (ℤ × Conf))
    → ((t : Scan) → s.total_n < t.total_n → Ends (loop t))
    → (next : Bool × Scan) → Counted s next
    → let s' = next.1 in Ends (if not next.0 then ok (failure, s'.conf) else loop next.1)
round-Ends s loop ih (true, t) c = ih t c
round-Ends s loop ih (false, t) c = tt

-- Fuel for a round for each byte that is left is enough.
conf_loop-Ends :
    (fuel conf_len : ℕ) (s : Scan) → conf_len ≤ s.total_n + fuel → Ends (conf_loop fuel conf_len s)
unfolding conf_loop
conf_loop-Ends zero conf_len s h =
    if-Ends (leb conf_len s.total_n) _ _ (λ _. tt) (λ more. absurd (ground arith))
conf_loop-Ends (suc fuel) conf_len s h =
    if-Ends (leb conf_len s.total_n) _ _ (λ _. tt)
      (λ _. bind-Ends _ _ (Gives-Ends _ _ (line_parse-Gives s)) (λ (parsed : Bool × Scan) e.
        if-Ends (not parsed.0) _ _ (λ _. tt)
          (λ _.
            let t0 = parsed.1 in
            let below : s.total_n ≤ t0.total_n =
              Gives-ok (λ r. let t = r.1 in s.total_n ≤ t.total_n) _ (line_parse-Gives s) e in
            bind-Ends _ _ (Gives-Ends _ _ (next_line-Gives conf_len parsed.1)) (λ next f.
              round-Ends parsed.1 (conf_loop fuel conf_len)
                (λ t lt. conf_loop-Ends fuel conf_len t (omega (arith, lt, below, h))) next
                (Gives-ok (Counted parsed.1) _ (next_line-Gives conf_len parsed.1) f)))))

-- file_conf_read comes to an end, whatever the file holds: it gives a result, or has read or written
-- outside an array by then.
pub file_conf_read-Ends : (conf : Conf) (file : ReadFile) → Ends (file_conf_read conf file)
unfolding file_conf_read conf_parse
file_conf_read-Ends conf none = tt
file_conf_read-Ends conf (some (st_size, bytes)) =
    bind-Ends _ _ (write-Ends (zeros (st_size + 2)) 0 bytes) (λ b _.
      bind-Ends _ _ (store-Ends b st_size b'\n') (λ b _.
        bind-Ends _ _ (store-Ends b (st_size + 1) 0) (λ b _.
          bind-Ends _ _
            (conf_loop-Ends (st_size + 1) (st_size + 1)
              (record { p_scan = b; total_n = 0; conf = conf }) (omega arith))
            (λ _ _. tt))))
