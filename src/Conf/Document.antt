-- ===== src/Conf/Document.antt =====
-- A whole configuration file, as a sequence of comments and of entries.
use facows.Types.{Conf}
use facows.Conf.Keys.{Lookup, conf_list}
use facows.Conf.Dispatch.{Listed, Listed-start, skip_run-replicate, line_parse-Listed}
use facows.Conf.Parse.{
  val_parse, line_parse, next_line, conf_loop, conf_parse, file_conf_read, Scan,
}
use facows.Mem.Laws.{
  Absent, memchr-append, advance-append, store-append, snoc-append, length-snoc, write-append,
  length-zeros,
}
use facows.Prelude.{
  ℕ, zero, suc, ◌+◌, ◌-◌, ◌≤◌, ◌<◌, ◌≡◌, refl, ap, ◌∙◌, ◌≢◌, true, some, [], ◌∷◌, ◌++◌,
  append_assoc, arith, lt→not_leb, length, drop, replicate, length-append, pos,
}
use facows.Mem.Run.{ok, Bytes}
use facows.Mem.Libc.{advance, store, write, zeros}

-- A line without its newline, and what it does to the configuration. The value of an entry is read
-- in the same way whatever stands in the lines behind it.
pub data Line : Bytes → Conf → Conf → Type 0 where
  comment : {s : Bytes} {conf : Conf} → Absent b'\n' s → Line (b'#' ∷ s) conf conf
  entry :
      {conf out : Conf} (l : Lookup) (n v : ℕ) (t : Bytes)
      → Listed l conf_list
      → v ≢ b' '
      → Absent b'\n' (v ∷ t)
      → ((rest : Bytes) → val_parse l.member (v ∷ (t ++ b'\n' ∷ rest)) conf ≡ ok (pos 0, out))
      → Line (l.key ++ (replicate (suc n) b' ' ++ v ∷ t)) conf out

-- A file of `k` lines that begins with one of them: each has its newline, which the last one may lack,
-- and any number of empty lines behind it. A value stands on the line of its key.
pub data Document : ℕ → Bytes → Conf → Conf → Type 0 where
  last :
      {w : Bytes} {conf out : Conf} (g : ℕ)
      → Line w conf out
      → Document 1 (w ++ replicate g b'\n') conf out
  more :
      {w d : Bytes} {k : ℕ} {conf mid out : Conf} (g : ℕ)
      → Line w conf mid
      → Document k d mid out
      → Document (suc k) (w ++ b'\n' ∷ (replicate g b'\n' ++ d)) conf out

-- The scan in a configuration.
abbrev scan : Bytes → ℕ → Conf → Scan
scan p m conf = record { p_scan = p; total_n = m; conf = conf }

line_end :
    (t p : Bytes) (g x m conf_len : ℕ) (conf : Conf)
    → Absent b'\n' t
    → x ≢ b'\n'
    → m + length t < conf_len
    → next_line conf_len (scan (t ++ b'\n' ∷ (replicate g b'\n' ++ x ∷ p)) m conf)
      ≡ ok (true, scan (x ∷ p) (m + length t + 1 + g) conf)
unfolding next_line
line_end t p g x m conf_len conf a n h =
    let rest = replicate g b'\n' ++ x ∷ p in
    let behind : advance (t ++ b'\n' ∷ rest) (length t + 1) ≡ ok rest =
      rw (← snoc-append t rest b'\n', ← length-snoc t b'\n')
        (advance-append (t ++ b'\n' ∷ []) rest) in
    rw (
      memchr-append t rest b'\n' (conf_len - m) a (omega arith),
      behind,
      skip_run-replicate b'\n' g x p n,
    )

-- A round of the loop, from its two parts.
round :
    (fuel conf_len : ℕ) (s s1 s2 : Scan)
    → s.total_n < conf_len
    → line_parse s ≡ ok (true, s1)
    → next_line conf_len s1 ≡ ok (true, s2)
    → conf_loop (suc fuel) conf_len s ≡ conf_loop fuel conf_len s2
unfolding conf_loop
round fuel conf_len s s1 s2 below parsed next =
    rw (lt→not_leb conf_len s.total_n below, parsed, next)

length-replicate : (n c : ℕ) → length (replicate n c) ≡ n
length-replicate zero c = refl
length-replicate (suc n) c = omega (arith, length-replicate n c)

comment_parsed :
    (p : Bytes) (m : ℕ) (conf : Conf)
    → line_parse (scan (b'#' ∷ p) m conf) ≡ ok (true, scan (b'#' ∷ p) m conf)
unfolding line_parse
comment_parsed p m conf = refl

-- A line is read, and the loop goes on at the next one with what it did.
line_round :
    {w : Bytes} {conf out : Conf} (fuel g x m conf_len : ℕ) (p : Bytes)
    → Line w conf out
    → x ≢ b'\n'
    → m + length w < conf_len
    → conf_loop (suc fuel) conf_len (scan (w ++ b'\n' ∷ (replicate g b'\n' ++ x ∷ p)) m conf)
      ≡ conf_loop fuel conf_len (scan (x ∷ p) (m + length w + 1 + g) out)
line_round fuel g x m conf_len p (comment {s} {conf} a) n h =
    round fuel conf_len _ _ _ (omega (arith, h)) (comment_parsed _ m conf)
      (line_end (b'#' ∷ s) p g x m conf_len conf (omega arith, a) n h)
line_round fuel g x m conf_len p (entry {conf} {out} l i v t listed nv a value) n h =
    let rest = b'\n' ∷ (replicate g b'\n' ++ x ∷ p) in
    let shape : (l.key ++ (replicate (suc i) b' ' ++ v ∷ t)) ++ rest
        ≡ l.key ++ (replicate (suc i) b' ' ++ v ∷ (t ++ rest)) =
      append_assoc l.key (replicate (suc i) b' ' ++ v ∷ t) rest
      ∙ ap (◌++◌ l.key) (append_assoc (replicate (suc i) b' ') (v ∷ t) rest) in
    let size : length (l.key ++ (replicate (suc i) b' ' ++ v ∷ t))
        ≡ length l.key + suc i + length (v ∷ t) =
      omega (
        arith,
        length-append l.key (replicate (suc i) b' ' ++ v ∷ t),
        length-append (replicate (suc i) b' ') (v ∷ t),
        length-replicate (suc i) b' ',
      ) in
    let s1 = scan (v ∷ (t ++ rest)) (m + length l.key + suc i) out in
    let parsed : line_parse (scan (l.key ++ (replicate (suc i) b' ' ++ v ∷ (t ++ rest))) m conf)
        ≡ ok (true, s1) =
      line_parse-Listed l i v m (t ++ rest) conf listed nv
      ∙ rw (value (replicate g b'\n' ++ x ∷ p)) in
    let below = m + length l.key + suc i + length (v ∷ t) + 1 + g in
    rw shape (
      round fuel conf_len _ s1 (scan (x ∷ p) below out) (omega (arith, h)) parsed (
        line_end (v ∷ t) p g x (m + length l.key + suc i) conf_len out a n (omega (arith, h, size)))
      ∙ ap (λ k. conf_loop fuel conf_len (scan (x ∷ p) k out)) (omega (arith, size)))

-- What a line and what is behind it begin with.
line_start :
    {w : Bytes} {conf out : Conf} (p : Bytes)
    → Line w conf out
    → (y : ℕ) × (q : Bytes) × (w ++ p ≡ y ∷ q) × (y ≢ b'\n')
line_start p (comment {s} a) = (b'#', s ++ p, refl, omega arith)
line_start p (entry l n v t listed nv a value) =
    let (y, q, e, ne) = Listed-start l ((replicate n b' ' ++ v ∷ t) ++ p) listed in
    (y, q, append_assoc l.key (b' ' ∷ (replicate n b' ' ++ v ∷ t)) p ∙ e, ne)

Document-start :
    {k : ℕ} {d : Bytes} {conf out : Conf} (p : Bytes)
    → Document k d conf out
    → (y : ℕ) × (q : Bytes) × (d ++ p ≡ y ∷ q) × (y ≢ b'\n')
Document-start p (last {w} g line) =
    let (y, q, e, ne) = line_start (replicate g b'\n' ++ p) line in
    (y, q, append_assoc w (replicate g b'\n') p ∙ e, ne)
Document-start p (more {w} {d} g line doc) =
    let (y, q, e, ne) = line_start ((b'\n' ∷ (replicate g b'\n' ++ d)) ++ p) line in
    (y, q, append_assoc w (b'\n' ∷ (replicate g b'\n' ++ d)) p ∙ e, ne)

replicate-snoc : (g c : ℕ) (p : Bytes) → replicate g c ++ c ∷ p ≡ replicate (suc g) c ++ p
replicate-snoc zero c p = refl
replicate-snoc (suc g) c p = ap (◌∷◌ c) (replicate-snoc g c p)

loop_done :
    (fuel conf_len m : ℕ) (p : Bytes) (conf : Conf)
    → conf_len ≤ m
    → conf_loop fuel conf_len (scan p m conf) ≡ ok (pos 0, conf)
unfolding conf_loop
loop_done zero conf_len m p conf h = ground arith
loop_done (suc fuel) conf_len m p conf h = ground arith

length-line :
    (w : Bytes) (g : ℕ) (d : Bytes)
    → length (w ++ b'\n' ∷ (replicate g b'\n' ++ d)) ≡ length w + 1 + g + length d
length-line w g d = omega (
  arith,
  length-append w (b'\n' ∷ (replicate g b'\n' ++ d)),
  length-append (replicate g b'\n') d,
  length-replicate g b'\n',
)

conf_loop-Document :
    {k : ℕ} {d : Bytes} {conf out : Conf} (fuel m conf_len : ℕ)
    → Document k d conf out
    → k ≤ fuel
    → conf_len ≡ m + length d + 1
    → conf_loop fuel conf_len (scan (d ++ b'\n' ∷ 0 ∷ []) m conf) ≡ ok (pos 0, out)
conf_loop-Document zero m conf_len (last g line) f size = absurd (omega arith)
conf_loop-Document zero m conf_len (more g line doc) f size = absurd (omega arith)
conf_loop-Document (suc fuel) m conf_len (last {w} {conf} {out} g line) f size =
    let shape : (w ++ replicate g b'\n') ++ b'\n' ∷ 0 ∷ []
        ≡ w ++ b'\n' ∷ (replicate g b'\n' ++ 0 ∷ []) =
      append_assoc w (replicate g b'\n') (b'\n' ∷ 0 ∷ [])
      ∙ ap (◌++◌ w) (replicate-snoc g b'\n' (0 ∷ [])) in
    let n = length-append w (replicate g b'\n') in
    let g_is = length-replicate g b'\n' in
    rw shape (
      line_round fuel g 0 m conf_len [] line (omega arith) (omega (arith, n, g_is, size))
      ∙ loop_done fuel conf_len (m + length w + 1 + g) (0 ∷ []) out (omega (arith, n, g_is, size)))
conf_loop-Document (suc fuel) m conf_len (more {w} {d} {k} {conf} {mid} {out} g line doc) f size =
    let (y, q, e, ne) = Document-start (b'\n' ∷ 0 ∷ []) doc in
    let shape : (w ++ b'\n' ∷ (replicate g b'\n' ++ d)) ++ b'\n' ∷ 0 ∷ []
        ≡ w ++ b'\n' ∷ (replicate g b'\n' ++ (d ++ b'\n' ∷ 0 ∷ [])) =
      append_assoc w (b'\n' ∷ (replicate g b'\n' ++ d)) (b'\n' ∷ 0 ∷ [])
      ∙ ap (λ t. w ++ b'\n' ∷ t) (append_assoc (replicate g b'\n') d (b'\n' ∷ 0 ∷ [])) in
    let n = length-line w g d in
    let ih =
      conf_loop-Document fuel (m + length w + 1 + g) conf_len doc (omega (arith, f))
        (omega (arith, n, size)) in
    rw (shape, e) (line_round fuel g y m conf_len q line ne (omega (arith, n, size)) ∙ rw e at ih)

Document-lines : {k : ℕ} {d : Bytes} {conf out : Conf} → Document k d conf out → k ≤ suc (length d)
Document-lines (last {w} g line) = omega arith
Document-lines (more {w} {d} g line doc) = omega (arith, length-line w g d, Document-lines doc)

drop-zeros : (n : ℕ) → drop n (zeros (n + 2)) ≡ 0 ∷ 0 ∷ []
unfolding zeros
drop-zeros zero = refl
drop-zeros (suc n) = let s : suc n + 2 ≡ suc (n + 2) = omega arith in rw s (drop-zeros n)

-- The buffer that is parsed: the file, a newline and a terminator.
file_copied : (d : Bytes) → write (zeros (length d + 2)) 0 d ≡ ok (d ++ 0 ∷ 0 ∷ [])
file_copied d =
    write-append d [] (zeros (length d + 2)) (omega (arith, length-zeros (length d + 2)))
    ∙ rw (drop-zeros (length d))

file_terminated :
    (d : Bytes) → store (d ++ b'\n' ∷ 0 ∷ []) (length d + 1) 0 ≡ ok (d ++ b'\n' ∷ 0 ∷ [])
file_terminated d =
    rw (← snoc-append d (0 ∷ []) b'\n', ← length-snoc d b'\n')
      (store-append (d ++ b'\n' ∷ []) [] 0 0)

-- A file that begins with a comment or an entry, and is a sequence of these with empty lines behind any
-- of them, each entry having a key of the list, and on the line of its key a value that its parser
-- accepts whatever follows, is read with the code 0; the configuration is the one that the entries make
-- of the given one, each in its turn. The last newline may be missing.
pub file_conf_read-Document :
    {k : ℕ} {d : Bytes} {conf out : Conf}
    → Document k d conf out
    → file_conf_read conf (some (length d, d)) ≡ ok (pos 0, out)
unfolding file_conf_read conf_parse
file_conf_read-Document {d} doc = rw (
  file_copied d,
  store-append d (0 ∷ []) 0 b'\n',
  file_terminated d,
  conf_loop-Document (length d + 1) 0 (length d + 1) doc (omega (arith, Document-lines doc))
      (omega arith),
)
