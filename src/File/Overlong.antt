-- ===== src/File/Overlong.antt =====
-- A path that does not fit the path buffer.
use facows.File.{raw_loop, raw_path_build}
use facows.File.Decode.{byte_value, decode, escape, raw_loop_literal, raw_loop_escape}
use facows.File.Loop.{decode-nil, decode-literal, decode-escape, escape-eq-some}
use facows.File.RawPath.{raw_loop_full}
use facows.Mem.Laws.{
  Absent, copy-append, store-append, snoc-append, length-snoc, write-append, drop-cons,
}
use facows.Prelude.{
  ℕ, suc, ◌+◌, ◌≤◌, ◌<◌, ◌≡◌, refl, ap, ◌∙◌, ◌≢◌, inl, inr, none, some, [], ◌∷◌, ◌++◌, append-nil,
  arith, Option-cases, length, drop, length-drop,
}
use facows.Mem.Run.{fault, ◌>>=◌, Bytes}
use facows.Mem.Libc.{store}

module _ (rest : Bytes) where
  literal_over :
      (c : ℕ) (p pre : Bytes) (y : ℕ) (post : Bytes)
      → c ≢ 0
      → Absent 0 p
      → escape (c ∷ p) ≡ none
      → raw_loop (p ++ 0 ∷ rest) ((pre ++ c ∷ []) ++ post) (length (pre ++ c ∷ [])) ≡ fault
      → raw_loop (c ∷ (p ++ 0 ∷ rest)) (pre ++ y ∷ post) (length pre) ≡ fault
  literal_over c p pre y post nz a n ih =
      raw_loop_literal c p rest _ _ nz a n (store-append pre post y c)
      ∙ rw (snoc-append pre post c, length-snoc pre c) at ih

  escape_over :
      (a b hex : ℕ) (p pre : Bytes) (y : ℕ) (post : Bytes)
      → a ≢ 0
      → b ≢ 0
      → byte_value a b ≡ some hex
      → raw_loop (p ++ 0 ∷ rest) ((pre ++ hex ∷ []) ++ post) (length (pre ++ hex ∷ [])) ≡ fault
      → raw_loop (b'%' ∷ a ∷ b ∷ (p ++ 0 ∷ rest)) (pre ++ y ∷ post) (length pre) ≡ fault
  escape_over a b hex p pre y post na nb h ih =
      raw_loop_escape a b hex (p ++ 0 ∷ rest) _ _ na nb h (store-append pre post y hex)
      ∙ rw (snoc-append pre post hex, length-snoc pre hex) at ih

  longer :
      (c : ℕ) (p post : Bytes) (y : ℕ)
      → escape (c ∷ p) ≡ none
      → length (y ∷ post) ≤ length (decode (c ∷ p))
      → length post ≤ length (decode p)
  longer c p post y n h = omega (arith, ap length (decode-literal c p n))

  raw_loop_over :
      (u pre post : Bytes)
      → Absent 0 u
      → length post ≤ length (decode u)
      → raw_loop (u ++ 0 ∷ rest) (pre ++ post) (length pre) ≡ fault
  raw_loop_over u pre [] a h = raw_loop_full u rest _ _ (omega (arith, ap length (append-nil pre)))
  raw_loop_over [] pre (y ∷ post) a h = absurd (omega (arith, ap length decode-nil))
  raw_loop_over (c ∷ []) pre (y ∷ post) a h =
      literal_over c [] pre y post a.0 tt refl
        (raw_loop_over [] (pre ++ c ∷ []) post tt (longer c [] post y refl h))
  raw_loop_over (c ∷ d ∷ []) pre (y ∷ post) a h =
      literal_over c (d ∷ []) pre y post a.0 a.1 refl
        (raw_loop_over (d ∷ []) (pre ++ c ∷ []) post a.1 (longer c (d ∷ []) post y refl h))
  raw_loop_over (c ∷ d ∷ e ∷ p) pre (y ∷ post) a h = elim (Option-cases (escape (c ∷ d ∷ e ∷ p))) [
    | inl n ↦
        literal_over c (d ∷ e ∷ p) pre y post a.0 a.1 n
          (raw_loop_over (d ∷ e ∷ p) (pre ++ c ∷ []) post a.1 (longer c (d ∷ e ∷ p) post y n h))
    | inr (hex, s) ↦
        let (percent, pair) = escape-eq-some c d e p s in
        rw percent (
          escape_over d e hex p pre y post a.1.0 a.1.1.0 pair (
            raw_loop_over p (pre ++ hex ∷ []) post a.1.1.1 (
              omega (
                arith,
                h,
                ap length (ap (λ k. decode (k ∷ d ∷ e ∷ p)) percent ∙ decode-escape d e hex p pair),
              ))))
  ]

-- From the terminator that _raw_path_build writes first.
over_slash :
    (u rest root post : Bytes) (z : ℕ)
    → Absent 0 u
    → length post < length (decode u)
    → (store (root ++ b'/' ∷ z ∷ post) (length root + 1) 0 >>= λ buf.
        raw_loop (u ++ 0 ∷ rest) buf (length root + 1))
      ≡ fault
over_slash u rest root post z a h =
    rw
      (
        ← snoc-append root (z ∷ post) b'/',
        ← length-snoc root b'/',
        store-append (root ++ b'/' ∷ []) post z 0,
      )
      (raw_loop_over rest u (root ++ b'/' ∷ []) (0 ∷ post) a (omega arith))

module _ (path_buf root u rest root_rest : Bytes) where
  -- When the web root and a slash fit the buffer, and the decoded path with its terminator does not
  -- fit behind them, _raw_path_build writes past the end of the buffer.
  pub raw_path_build_overlong :
      Absent 0 u
      → length root + 2 ≤ length path_buf
      → length path_buf ≤ length root + 1 + length (decode u)
      → raw_path_build path_buf (u ++ 0 ∷ rest) (root ++ root_rest) (length root) ≡ fault
  unfolding raw_path_build
  raw_path_build_overlong a fits h =
      let (y, ey) = drop-cons (length root) path_buf (omega arith) in
      let (z, ez) = drop-cons (suc (length root)) path_buf (omega arith) in
      rw
        (
          copy-append root root_rest,
          write-append root [] path_buf (omega arith),
          ey,
          store-append root (drop (suc (length root)) path_buf) y b'/',
          ez,
        )
        (over_slash u rest root (drop (suc (suc (length root))) path_buf) z a
          (omega (arith, length-drop (suc (suc (length root))) path_buf)))
