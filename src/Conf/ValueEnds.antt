-- ===== src/Conf/ValueEnds.antt =====
-- The values of the configuration and its MIME table are read to an end: each loop moves on.
use facows.Types.{Conf}
use facows.Mem.Strtol.{skip_blank, digits, strtol_signed, strtol, is_digit, is_space}
use facows.Conf.Mime.{failed, exhausted, norm}
use facows.Conf.{
  out_of_port_range, true_str, false_str, word_end_check, type_bool_parse, type_char_parse,
  skip_comma, ports_loop, type_ap_parse,
}
use facows.Conf.Mime.{
  put, put_mark, tool_get_str_n, ext_loop, terminate, exts_parse, ends_in_bracket, mime_loop,
  type_mime_parse, Dst, ExtEnd,
}
use facows.Mem.Ends.{
  Ends, Gives, Gives-Ends, Gives-ok, bind-Gives, bind-Ends, map_run-Ends, if-Ends, option-Ends,
  option-Gives, memchr-Ends, memcmp-Ends, copy-Ends, advance-Ends, deref-Ends, store-Ends,
  write-Ends, copy_text-Ends, length-advance,
}
use facows.Prelude.{
  ℕ, zero, suc, ◌+◌, ◌-◌, ◌*◌, ◌≤◌, ◌<◌, Bool, true, false, not, ◌||◌, Option, none, some, [], ◌∷◌,
  arith, leb, ◌==◌, if◌then◌else◌, length, ℤ, failure,
}
use facows.Mem.Run.{ok, ◌>>=◌, Bytes}
use facows.Mem.Libc.{memchr, advance}

skip_blank-Ends : (p : Bytes) → Ends (skip_blank p)
unfolding skip_blank
skip_blank-Ends [] = tt
skip_blank-Ends (c ∷ p) =
    if-Ends (is_space c) _ _ (λ _. map_run-Ends _ (skip_blank p) (skip_blank-Ends p)) (λ _. tt)

digits-Ends : (p : Bytes) (acc : ℕ) → Ends (digits p acc)
unfolding digits
digits-Ends [] acc = tt
digits-Ends (c ∷ p) acc =
    if-Ends (is_digit c) _ _
      (λ _.
        map_run-Ends _ (digits p (acc * 10 + (c - b'0'))) (digits-Ends p (acc * 10 + (c - b'0'))))
      (λ _. tt)

strtol_signed-Ends : (n : ℕ) (p : Bytes) → Ends (strtol_signed n p)
unfolding strtol_signed
strtol_signed-Ends n [] = tt
strtol_signed-Ends n (c ∷ p) =
    if-Ends (c == b'-') _ _ (λ _. map_run-Ends _ (digits p 0) (digits-Ends p 0))
      (λ _.
        if-Ends (c == b'+') _ _ (λ _. map_run-Ends _ (digits p 0) (digits-Ends p 0))
          (λ _. map_run-Ends _ (digits (c ∷ p) 0) (digits-Ends (c ∷ p) 0)))

pub strtol-Ends : (p : Bytes) → Ends (strtol p)
unfolding strtol
strtol-Ends p = bind-Ends _ _ (skip_blank-Ends p) (λ r _. strtol_signed-Ends r.0 r.1)

skip_comma-Gives : (p : Bytes) → Gives (λ q. length q ≤ length p) (skip_comma p)
skip_comma-Gives [] = tt
skip_comma-Gives (c ∷ p) = skipped (c == b',')
  where
    skipped : (b : Bool) → length (if b then p else c ∷ p) ≤ suc (length p)
    skipped true = omega arith
    skipped false = omega arith

-- Fuel for a round for each byte that is left is enough.
ports_loop-Ends : (fuel : ℕ) (p : Bytes) → length p < fuel → Ends (ports_loop fuel p)
unfolding ports_loop
ports_loop-Ends zero p h = absurd (omega arith)
ports_loop-Ends (suc fuel) p h = bind-Ends _ _ (deref-Ends p) (λ c _.
    if-Ends (c == b'\n' || c == 0) _ _ (λ _. tt)
      (λ _. bind-Ends _ _ (strtol-Ends p) (λ r _.
        if-Ends (r.1 == 0) _ _
          (λ _.
            bind-Ends _ _ (advance-Ends p 1)
              (λ q e. ports_loop-Ends fuel q (omega (arith, length-advance p 1 e))))
          (λ some.
            if-Ends (out_of_port_range r.0) _ _ (λ _. tt)
              (λ _. bind-Ends _ _ (advance-Ends p r.1) (λ ep e.
                bind-Ends _ _ (Gives-Ends _ _ (skip_comma-Gives ep)) (λ q e2.
                  let step = length-advance p r.1 e in
                  let comma = Gives-ok (λ q. length q ≤ length ep) _ (skip_comma-Gives ep) e2 in
                  let moved : 1 ≤ r.1 = ground arith in ports_loop-Ends fuel q (omega arith))))))))

pub type_ap_parse-Ends :
    (size : ℕ) (get : Conf → Bytes) (put_in : Bytes → Conf → Conf) (p : Bytes) (conf : Conf)
    → Ends (type_ap_parse size get put_in p conf)
unfolding type_ap_parse
type_ap_parse-Ends size get put_in p conf = bind-Ends _ _ (memchr-Ends p b'\n' (size - 1)) (λ end _.
    option-Ends end _ _ tt (λ n.
      bind-Ends _ _ (ports_loop-Ends (suc (length p)) p (omega arith)) (λ in_range _.
        if-Ends (not in_range) _ _ (λ _. tt)
          (λ _. bind-Ends _ _ (write-Ends (get conf) 0 (b',' ∷ b' ' ∷ [])) (λ m _.
            bind-Ends _ _ (copy-Ends p n) (λ ports _.
              bind-Ends _ _ (write-Ends m 2 ports)
                (λ m _. bind-Ends _ _ (store-Ends m (n + 2) 0) (λ _ _. tt))))))))

pub type_char_parse-Ends :
    (size : ℕ) (get : Conf → Bytes) (put_in : Bytes → Conf → Conf) (p : Bytes) (conf : Conf)
    → Ends (type_char_parse size get put_in p conf)
unfolding type_char_parse
type_char_parse-Ends size get put_in p conf = bind-Ends _ _ (deref-Ends p) (λ quote _.
    if-Ends (not (quote == b'"')) _ _ (λ _. tt)
      (λ _. bind-Ends _ _ (advance-Ends p 1) (λ q _.
        bind-Ends _ _ (memchr-Ends q b'"' (size - 1)) (λ end _.
          option-Ends end _ _ tt
            (λ n. bind-Ends _ _ (copy_text-Ends (get conf) q n) (λ _ _. tt))))))

word_end_check-Ends :
    (put_in : Bool → Conf → Conf) (p : Bytes) (n : ℕ) (v : Bool) (conf : Conf)
    → Ends (word_end_check put_in p n v conf)
unfolding word_end_check
word_end_check-Ends put_in p n v conf =
    bind-Ends _ _ (advance-Ends p n) (λ q _. bind-Ends _ _ (deref-Ends q) (λ _ _. tt))

pub type_bool_parse-Ends :
    (put_in : Bool → Conf → Conf) (p : Bytes) (conf : Conf) → Ends (type_bool_parse put_in p conf)
unfolding type_bool_parse
type_bool_parse-Ends put_in p conf = bind-Ends _ _ (memcmp-Ends p true_str 4) (λ t _.
    bind-Ends _ _ (memcmp-Ends p false_str 5) (λ f _.
      if-Ends t _ _ (λ _. word_end_check-Ends put_in p 4 true conf)
        (λ _. if-Ends f _ _ (λ _. word_end_check-Ends put_in p 5 false conf) (λ _. tt))))

put-Ends : (dst : Dst) (s : Bytes) → Ends (put dst s)
unfolding put
put-Ends dst s = bind-Ends _ _ (write-Ends dst.mime dst.i s) (λ _ _. tt)

put_mark-Ends : (dst : Dst) (c : ℕ) → Ends (put_mark dst c)
unfolding put_mark
put_mark-Ends dst c = bind-Ends _ _ (write-Ends dst.mime dst.i (c ∷ 0 ∷ [])) (λ _ _. tt)

ext_loop-Ends : (fuel : ℕ) (p : Bytes) (n : ℕ) (dst : Dst) → n < fuel → Ends (ext_loop fuel p n dst)
unfolding ext_loop tool_get_str_n
ext_loop-Ends zero p n dst h = absurd (omega arith)
ext_loop-Ends (suc fuel) p n dst h =
    if-Ends (n == 0) _ _ (λ _. tt)
      (λ some. bind-Ends _ _ (memchr-Ends p b'"' n) (λ quote _. option-Ends quote _ _ tt (λ k.
        if-Ends (leb (n - k - 1) 0) _ _ (λ _. tt)
          (λ left. bind-Ends _ _ (advance-Ends p (k + 1)) (λ q _.
            bind-Ends _ _ (memchr-Ends q b'"' (n - k - 1)) (λ len _. option-Ends len _ _ tt (λ e.
              bind-Ends _ _ (copy-Ends q e) (λ ext _. bind-Ends _ _ (put-Ends dst ext) (λ dst _.
                bind-Ends _ _ (memchr-Ends q b',' (n - k - 1)) (λ comma _.
                  option-Ends comma _ _ (bind-Ends _ _ (put_mark-Ends dst b']') (λ _ _. tt)) (λ c.
                    bind-Ends _ _ (put_mark-Ends dst b',') (λ dst _.
                      bind-Ends _ _ (advance-Ends q c)
                        (λ p _. ext_loop-Ends fuel p (n - k - 1 - c) dst (ground arith))))))))))))))

terminate-Ends : (end : ExtEnd) (dst : Dst) → Ends (terminate end dst)
unfolding terminate
terminate-Ends failed dst = tt
terminate-Ends exhausted dst = bind-Ends _ _ (store-Ends dst.mime dst.i 0) (λ _ _. tt)
terminate-Ends norm dst = bind-Ends _ _ (store-Ends dst.mime dst.i 0) (λ _ _. tt)

exts_parse-Gives : (p : Bytes) (n : ℕ) (dst : Dst) → Gives (λ r. r.2 ≤ n) (exts_parse p n dst)
unfolding exts_parse
exts_parse-Gives p n dst = bind-Gives _ _ _ (memchr-Ends p b'[' n) (λ open_at _.
    option-Gives _ open_at _ _ (omega arith) (λ k. bind-Gives _ _ _ (advance-Ends p (k + 1)) (λ q _.
      bind-Gives _ _ _ (memchr-Ends q b']' (n - (k + 1))) (λ close_at _.
        option-Gives _ close_at _ _ (omega arith) (λ e.
          bind-Gives _ _ _ (put_mark-Ends dst b'[') (λ dst _.
            bind-Gives _ _ _ (advance-Ends q e) (λ next _.
              bind-Gives _ _ _ (ext_loop-Ends (suc e) q e dst (omega arith))
                (λ r _. bind-Gives _ _ _ (terminate-Ends r.0 r.1) (λ _ _. omega arith)))))))))

ends_in_bracket-Ends : (dst : Dst) → Ends (ends_in_bracket dst)
unfolding ends_in_bracket
ends_in_bracket-Ends dst =
    if-Ends (dst.i == 0) _ _ (λ _. tt)
      (λ _.
        bind-Ends _ _ (advance-Ends dst.mime (dst.i - 1))
          (λ p _. bind-Ends _ _ (deref-Ends p) (λ _ _. tt)))

mime_loop-Ends :
    (fuel : ℕ) (p : Bytes) (n : ℕ) (dst : Dst) → n < fuel → Ends (mime_loop fuel p n dst)
unfolding mime_loop tool_get_str_n
mime_loop-Ends zero p n dst h = absurd (omega arith)
mime_loop-Ends (suc fuel) p n dst h =
    if-Ends (n == 0) _ _ (λ _. tt)
      (λ some. bind-Ends _ _ (memchr-Ends p b'"' n) (λ quote _.
        option-Ends quote _ _ (bind-Ends _ _ (ends_in_bracket-Ends dst) (λ _ _. tt)) (λ k.
          bind-Ends _ _ (advance-Ends p (k + 1)) (λ q _.
            bind-Ends _ _ (memchr-Ends q b'"' (n - (k + 1))) (λ len _. option-Ends len _ _ tt (λ m.
              bind-Ends _ _ (copy-Ends q m) (λ name _. bind-Ends _ _ (put-Ends dst name) (λ dst _.
                bind-Ends _ _ (advance-Ends q (m + 1)) (λ p _.
                  let exts = exts_parse-Gives p (n - (k + 1) - m) dst in
                  bind-Ends _ _ (Gives-Ends _ _ exts) (λ r e.
                    let left = Gives-ok (λ r. r.2 ≤ n - (k + 1) - m) _ exts e in
                    if-Ends r.0 _ _ (λ _. mime_loop-Ends fuel r.1 r.2 r.3 (ground arith))
                      (λ _. tt)))))))))))

pub type_mime_parse-Ends : (size : ℕ) (p : Bytes) (conf : Conf) → Ends (type_mime_parse size p conf)
unfolding type_mime_parse
type_mime_parse-Ends size p conf =
    bind-Ends _ _ (memchr-Ends p b'{' (size - 1)) (λ brace _. go brace)
  where
    go :
        (brace : Option ℕ)
        → Ends {A = ℤ × Conf} (elim brace [
          | none ↦ ok (failure, conf)
          | some (suc _) ↦ ok (failure, conf)
          | some zero ↦ advance p 1 >>= λ p_start. memchr p_start b'}' (size - 1) >>= λ p_end.
              elim p_end [
                | none ↦ ok (failure, conf)
                | some mime_n ↦
                    if leb size mime_n
                    then ok (failure, conf)
                    else (mime_loop (suc mime_n) p_start mime_n (record { mime = conf.mime; i = 0 })
                        >>= λ r. let d = r.1 in ok (r.0, record conf { mime = d.mime }))
              ]
        ])
    go none = tt
    go (some (suc k)) = tt
    go (some zero) = bind-Ends _ _ (advance-Ends p 1) (λ q _.
        bind-Ends _ _ (memchr-Ends q b'}' (size - 1)) (λ end _. option-Ends end _ _ tt (λ n.
          if-Ends (leb size n) _ _ (λ _. tt)
            (λ _.
              bind-Ends _ _
                (mime_loop-Ends (suc n) q n (record { mime = conf.mime; i = 0 }) (omega arith))
                (λ _ _. tt)))))
