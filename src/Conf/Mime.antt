-- ===== src/Conf/Mime.antt =====
-- _type_mime_parse of src/file_conf.c: the MIME table, written into `mime` as "type[ext,ext]...".
use facows.Types.{Conf}
use facows.Prelude.{
  ℕ, zero, suc, ◌+◌, ◌-◌, Bool, true, false, Option, none, some, [], ◌∷◌, leb, ◌==◌, if◌then◌else◌,
  length, ℤ, pos, failure,
}
use facows.Mem.Run.{Run, ok, fault, out_of_fuel, ◌>>=◌, Bytes}
use facows.Mem.Libc.{memchr, copy, advance, deref, store, write}

-- What is left of `mime` and the index of `p_dst` in it.
pub record Dst : Type 0 where
  pub mime : Bytes
  pub i : ℕ

-- memcpy to `p_dst`, which moves behind the bytes.
unfoldable pub put : Dst → Bytes → Run Dst
put dst s = write dst.mime dst.i s >>= λ m. ok (record { mime = m; i = dst.i + length s })

-- memcpy of a mark with its terminator, `p_dst` moves on by one.
unfoldable pub put_mark : Dst → ℕ → Run Dst
put_mark dst c = write dst.mime dst.i (c ∷ 0 ∷ []) >>= λ m. ok (record { mime = m; i = dst.i + 1 })

-- _tool_get_str_n: the length of the text up to the quote; `none` is -1.
unfoldable pub tool_get_str_n : Bytes → ℕ → Run (Option ℕ)
tool_get_str_n p_start max_n = memchr p_start b'"' max_n

-- How the loop over the extensions ends: by `return -1`, with nothing left, or by the break that
-- sets `has_ext_norm`.
pub data ExtEnd : Type 0 where
  failed exhausted norm : ExtEnd

abbrev pub has_ext_norm : ExtEnd → Bool
has_ext_norm norm = true
has_ext_norm _ = false

-- The loop over the extensions of one type. `ext_n` falls in every round, and is fuel.
unfoldable pub ext_loop : ℕ → Bytes → ℕ → Dst → Run (ExtEnd × Dst)
ext_loop zero p_ext_scan ext_n dst = out_of_fuel
ext_loop (suc fuel) p_ext_scan ext_n dst =
    if ext_n == 0
    then ok (exhausted, dst)
    else (memchr p_ext_scan b'"' ext_n >>= λ quote. elim quote [
      | none ↦ ok (failed, dst)
      | some k ↦
          if leb (ext_n - k - 1) 0
          then ok (failed, dst)
          else (advance p_ext_scan (k + 1) >>= λ p_ext_scan.
              tool_get_str_n p_ext_scan (ext_n - k - 1) >>= λ len. elim len [
                | none ↦ ok (failed, dst)
                | some ext_len ↦ copy p_ext_scan ext_len >>= λ ext. put dst ext >>= λ dst.
                    memchr p_ext_scan b',' (ext_n - k - 1) >>= λ comma. elim comma [
                      | none ↦ put_mark dst b']' >>= λ dst. ok (norm, dst)
                      | some c ↦ put_mark dst b',' >>= λ dst.
                          advance p_ext_scan c >>= λ p. ext_loop fuel p (ext_n - k - 1 - c) dst
                    ]
              ])
    ])

-- `*p_dst = '\0'` behind the loop, which a `return -1` does not reach
unfoldable pub terminate : ExtEnd → Dst → Run Dst
terminate failed dst = ok dst
terminate _ dst = store dst.mime dst.i 0 >>= λ m. ok (record dst { mime = m })

-- The extensions of a type, from the bracket on: where the scan goes on, and what is left of it.
unfoldable pub exts_parse : Bytes → ℕ → Dst → Run (Bool × Bytes × ℕ × Dst)
exts_parse p_scan mime_n dst = memchr p_scan b'[' mime_n >>= λ open_at. elim open_at [
  | none ↦ ok (false, p_scan, mime_n, dst)
  | some k ↦ advance p_scan (k + 1) >>= λ p_ext.
      memchr p_ext b']' (mime_n - (k + 1)) >>= λ close_at. elim close_at [
        | none ↦ ok (false, p_scan, mime_n, dst)
        | some ext_n ↦ put_mark dst b'[' >>= λ dst. advance p_ext ext_n >>= λ p_next.
            ext_loop (suc ext_n) p_ext ext_n dst >>= λ r. terminate r.0 r.1 >>= λ dst.
            ok (has_ext_norm r.0, p_next, mime_n - (k + 1) - ext_n, dst)
      ]
]

-- `*(p_dst-1) == ']'`
unfoldable pub ends_in_bracket : Dst → Run Bool
ends_in_bracket dst =
    if dst.i == 0
    then fault
    else (advance dst.mime (dst.i - 1) >>= λ p. deref p >>= λ c. ok (c == b']'))

-- The loop over the types. `mime_n` falls in every round, and is fuel.
unfoldable pub mime_loop : ℕ → Bytes → ℕ → Dst → Run (ℤ × Dst)
mime_loop zero p_scan mime_n dst = out_of_fuel
mime_loop (suc fuel) p_scan mime_n dst =
    if mime_n == 0
    then ok (pos 0, dst)
    else (memchr p_scan b'"' mime_n >>= λ quote. elim quote [
      | none ↦ ends_in_bracket dst >>= λ closed. ok (if closed then pos 0 else failure, dst)
      | some k ↦ advance p_scan (k + 1) >>= λ p_start.
          tool_get_str_n p_start (mime_n - (k + 1)) >>= λ len. elim len [
            | none ↦ ok (failure, dst)
            | some mime_len ↦ copy p_start mime_len >>= λ type_name. put dst type_name >>= λ dst.
                advance p_start (mime_len + 1) >>= λ p_scan.
                exts_parse p_scan (mime_n - (k + 1) - mime_len) dst >>= λ r.
                if r.0 then mime_loop fuel r.1 r.2 r.3 else ok (failure, r.3)
          ]
    ])

-- _type_mime_parse. The value must begin with the brace: any other offset of it is negative.
unfoldable pub type_mime_parse : ℕ → Bytes → Conf → Run (ℤ × Conf)
type_mime_parse size p_base conf = memchr p_base b'{' (size - 1) >>= λ brace. elim brace [
  | none ↦ ok (failure, conf)
  | some (suc _) ↦ ok (failure, conf)
  | some zero ↦ advance p_base 1 >>= λ p_start. memchr p_start b'}' (size - 1) >>= λ p_end.
      elim p_end [
        | none ↦ ok (failure, conf)
        | some mime_n ↦
            if leb size mime_n
            then ok (failure, conf)
            else (mime_loop (suc mime_n) p_start mime_n (record { mime = conf.mime; i = 0 })
                >>= λ r. let d = r.1 in ok (r.0, record conf { mime = d.mime }))
      ]
]
