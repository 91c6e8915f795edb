-- ===== src/Conf/Lines.antt =====
-- The lines of the configuration file: comments, and how far a line is read.
use facows.Conf.Parse.{skip_run, Scan, line_parse, next_line, conf_loop}
use facows.Mem.Laws.{Absent, memchr-append, advance-append, snoc-append, length-snoc, memchr_over}
use facows.Prelude.{
  ℕ, zero, suc, ◌+◌, ◌-◌, ◌≤◌, ◌<◌, ◌≡◌, refl, sym, ap, ◌∙◌, ◌≢◌, true, some, List, [], ◌∷◌, ◌++◌,
  append_assoc, arith, lt→not_leb, ne→not_==, length, length-append,
}
use facows.Mem.Run.{ok, fault, Bytes}
use facows.Mem.Libc.{memchr, advance}

-- Comments, one to a line, with the newlines that end them.
unfoldable pub comments : List Bytes → Bytes
comments [] = []
comments (s ∷ ss) = b'#' ∷ (s ++ b'\n' ∷ comments ss)

abbrev pub AreLines : List Bytes → Type 0
AreLines [] = Unit
AreLines (s ∷ ss) = Absent b'\n' s × AreLines ss

skip_run_other : (c x : ℕ) (p : Bytes) → x ≢ c → skip_run c (x ∷ p) ≡ ok (0, x ∷ p)
unfolding skip_run
skip_run_other c x p n = ground arith

line_parse_comment : (s : Scan) (p : Bytes) → s.p_scan ≡ b'#' ∷ p → line_parse s ≡ ok (true, s)
unfolding line_parse
line_parse_comment s p e = rw e

-- From the start of a line of which nothing is read to the start of the next.
next_line-append :
    (s : Scan) (t p : Bytes) (x conf_len : ℕ)
    → s.p_scan ≡ t ++ b'\n' ∷ x ∷ p
    → Absent b'\n' t
    → x ≢ b'\n'
    → s.total_n + length t < conf_len
    → next_line conf_len s
      ≡ ok (true, record s { p_scan = x ∷ p; total_n = s.total_n + length t + 1 + 0 })
unfolding next_line
next_line-append s t p x conf_len e a n h =
    let found : memchr s.p_scan b'\n' (conf_len - s.total_n) ≡ ok (some (length t)) =
      rw e (memchr-append t (x ∷ p) b'\n' (conf_len - s.total_n) a (omega arith)) in
    let behind : advance s.p_scan (length t + 1) ≡ ok (x ∷ p) =
      rw (e, ← snoc-append t (x ∷ p) b'\n', ← length-snoc t b'\n')
        (advance-append (t ++ b'\n' ∷ []) (x ∷ p)) in
    ground (arith, found, behind, skip_run_other b'\n' x p n)

-- What follows a line break is no empty line.
start :
    (cs : List Bytes) (x : ℕ) (p : Bytes)
    → x ≢ b'\n'
    → (y : ℕ) × (q : Bytes) × (comments cs ++ x ∷ p ≡ y ∷ q) × (y ≢ b'\n')
unfolding comments
start [] x p n = (x, p, refl, n)
start (c ∷ cs) x p n = (b'#', (c ++ b'\n' ∷ comments cs) ++ x ∷ p, refl, omega arith)

length-comments :
    (c : Bytes) (cs : List Bytes) → length (comments (c ∷ cs)) ≡ length c + length (comments cs) + 2
unfolding comments
length-comments c cs = omega (arith, length-append c (b'\n' ∷ comments cs))

comments_shape :
    (c : Bytes) (cs : List Bytes) (t : Bytes)
    → comments (c ∷ cs) ++ t ≡ (b'#' ∷ c) ++ b'\n' ∷ (comments cs ++ t)
unfolding comments
comments_shape c cs t = ap (◌∷◌ b'#') (append_assoc c (b'\n' ∷ comments cs) t)

loop_step :
    (j conf_len : ℕ) (s s' : Scan)
    → s.total_n < conf_len
    → line_parse s ≡ ok (true, s)
    → next_line conf_len s ≡ ok (true, s')
    → conf_loop (suc j) conf_len s ≡ conf_loop j conf_len s'
unfolding conf_loop
loop_step j conf_len s s' below parsed next = rw (lt→not_leb conf_len s.total_n below, parsed, next)

-- Comments in front of what follows them are passed over: the loop goes on behind them with the
-- configuration as it was, having counted their bytes.
comments_skip :
    (cs : List Bytes) (j fuel conf_len m x : ℕ) (p : Bytes) (s : Scan)
    → AreLines cs
    → s.p_scan ≡ comments cs ++ x ∷ p
    → x ≢ b'\n'
    → m ≡ s.total_n + length (comments cs)
    → m ≤ conf_len
    → j ≡ length cs + fuel
    → conf_loop j conf_len s ≡ conf_loop fuel conf_len (record s { p_scan = x ∷ p; total_n = m })
comments_skip [] j fuel conf_len m x p s a e n total fits f =
    unfold comments in skip_none j fuel conf_len m x p s e (omega (arith, total)) (omega arith)
  where
    skip_none :
        (j fuel conf_len m x : ℕ) (p : Bytes) (s : Scan)
        → s.p_scan ≡ x ∷ p
        → m ≡ s.total_n
        → j ≡ fuel
        → conf_loop j conf_len s
          ≡ conf_loop fuel conf_len (record s { p_scan = x ∷ p; total_n = m })
    skip_none j fuel conf_len m x p s e t f = ground arith
comments_skip (c ∷ cs) zero fuel conf_len m x p s a e n total fits f = absurd (omega arith)
comments_skip (c ∷ cs) (suc j) fuel conf_len m x p s a e n total fits f =
    let (y, q, eq, ny) = start cs x p n in
    let size = length-comments c cs in
    let shape : s.p_scan ≡ (b'#' ∷ c) ++ b'\n' ∷ y ∷ q =
      rw (← eq) (e ∙ comments_shape c cs (x ∷ p)) in
    let s' = record s { p_scan = y ∷ q; total_n = s.total_n + length (b'#' ∷ c) + 1 + 0 } in
    let next =
      next_line-append s (b'#' ∷ c) q y conf_len shape (omega arith, a.0) ny
        (omega (arith, size)) in
    let ih =
      comments_skip cs j fuel conf_len m x p s' a.1 (sym eq) n (omega (arith, size)) fits
        (omega arith) in
    let below : s.total_n < conf_len = omega (arith, size) in
    loop_step j conf_len s s' below (line_parse_comment s _ shape) next ∙ ih

-- A line that begins less than 16 bytes before the end of the buffer, is no comment and holds no
-- space is searched for one past the end of the buffer.
line_parse_over :
    (s : Scan) (x : ℕ) (p : Bytes)
    → s.p_scan ≡ x ∷ p
    → x ≢ b'#'
    → Absent b' ' (x ∷ p)
    → length (x ∷ p) < 16
    → line_parse s ≡ fault
unfolding line_parse
line_parse_over s x p e n a h = rw (e, ne→not_== x b'#' n, memchr_over (x ∷ p) b' ' 16 a h)
