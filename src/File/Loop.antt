-- ===== src/File/Loop.antt =====
-- The loop of _raw_path_build writes the decoded path, its terminator behind it.
use facows.File.{raw_loop}
use facows.File.Decode.{byte_value, decode, escape, raw_loop_end, raw_loop_literal, raw_loop_escape}
use facows.Mem.Run.{ok, Bytes}
use facows.Mem.Laws.{Absent, store-append, snoc-append, length-snoc}
use facows.Prelude.{
  ℕ, suc, ◌+◌, ◌<◌, ◌≡◌, refl, ap, ◌∙◌, ◌≢◌, inl, inr, none, some, [], ◌∷◌, ◌++◌, arith,
  Option-cases, length, drop,
}
use facows.Mem.Run.{ok, Bytes}

pub decode-nil : decode [] ≡ []
unfolding decode
decode-nil = refl

pub decode-literal : (c : ℕ) (p : Bytes) → escape (c ∷ p) ≡ none → decode (c ∷ p) ≡ c ∷ decode p
unfolding decode
decode-literal c [] e = refl
decode-literal c (a ∷ []) e = refl
decode-literal c (a ∷ b ∷ p) e = ground arith

pub decode-escape :
    (a b hex : ℕ) (p : Bytes)
    → byte_value a b ≡ some hex
    → decode (b'%' ∷ a ∷ b ∷ p) ≡ hex ∷ decode p
unfolding decode
decode-escape a b hex p e = ground arith

-- An escape that decodes, taken apart.
pub escape-eq-some :
    (c a b : ℕ) (p : Bytes) {hex : ℕ}
    → escape (c ∷ a ∷ b ∷ p) ≡ some hex
    → (c ≡ b'%') × (byte_value a b ≡ some hex)
escape-eq-some c a b p e = ground arith

-- From the rest of the path to the whole of it, one byte further left in the buffer.
extend :
    (t d tail pre post : Bytes) (v : ℕ)
    → raw_loop t ((pre ++ v ∷ []) ++ post) (length (pre ++ v ∷ []))
      ≡ ok ((pre ++ v ∷ []) ++ (d ++ tail))
    → raw_loop t (pre ++ v ∷ post) (length pre + 1) ≡ ok (pre ++ v ∷ (d ++ tail))
extend t d tail pre post v ih =
    rw (← snoc-append pre post v, ← length-snoc pre v, ← snoc-append pre (d ++ tail) v) ih

module _ (rest : Bytes) where
  literal_step :
      (c : ℕ) (p pre : Bytes) (y : ℕ) (post : Bytes)
      → c ≢ 0
      → Absent 0 p
      → escape (c ∷ p) ≡ none
      → raw_loop (p ++ 0 ∷ rest) ((pre ++ c ∷ []) ++ post) (length (pre ++ c ∷ []))
        ≡ ok ((pre ++ c ∷ []) ++ (decode p ++ 0 ∷ drop (suc (length (decode p))) post))
      → raw_loop (c ∷ (p ++ 0 ∷ rest)) (pre ++ y ∷ post) (length pre)
        ≡ ok (pre ++ (decode (c ∷ p) ++ 0 ∷ drop (suc (length (decode (c ∷ p)))) (y ∷ post)))
  literal_step c p pre y post nz a n ih = rw (decode-literal c p n) (
      raw_loop_literal c p rest _ _ nz a n (store-append pre post y c)
      ∙ extend _ (decode p) _ pre post c ih)

  escape_step :
      (a b hex : ℕ) (p pre : Bytes) (y : ℕ) (post : Bytes)
      → a ≢ 0
      → b ≢ 0
      → byte_value a b ≡ some hex
      → raw_loop (p ++ 0 ∷ rest) ((pre ++ hex ∷ []) ++ post) (length (pre ++ hex ∷ []))
        ≡ ok ((pre ++ hex ∷ []) ++ (decode p ++ 0 ∷ drop (suc (length (decode p))) post))
      → raw_loop (b'%' ∷ a ∷ b ∷ (p ++ 0 ∷ rest)) (pre ++ y ∷ post) (length pre)
        ≡ ok (
            pre
            ++ (decode (b'%' ∷ a ∷ b ∷ p)
                ++ 0 ∷ drop (suc (length (decode (b'%' ∷ a ∷ b ∷ p)))) (y ∷ post)))
  escape_step a b hex p pre y post na nb h ih = rw (decode-escape a b hex p h) (
      raw_loop_escape a b hex (p ++ 0 ∷ rest) _ _ na nb h (store-append pre post y hex)
      ∙ extend _ (decode p) _ pre post hex ih)

  shorter :
      (c : ℕ) (p post : Bytes) (y : ℕ)
      → escape (c ∷ p) ≡ none
      → length (decode (c ∷ p)) < length (y ∷ post)
      → length (decode p) < length post
  shorter c p post y n h = omega (arith, ap length (decode-literal c p n))

  pub raw_loop-decode :
      (u pre post : Bytes)
      → Absent 0 u
      → length (decode u) < length post
      → raw_loop (u ++ 0 ∷ rest) (pre ++ post) (length pre)
        ≡ ok (pre ++ (decode u ++ 0 ∷ drop (suc (length (decode u))) post))
  raw_loop-decode u pre [] a h = absurd (omega arith)
  raw_loop-decode [] pre (y ∷ post) a h =
      rw decode-nil (raw_loop_end rest _ _ ∙ store-append pre post y 0)
  raw_loop-decode (c ∷ []) pre (y ∷ post) a h =
      literal_step c [] pre y post a.0 tt refl
        (raw_loop-decode [] (pre ++ c ∷ []) post tt (shorter c [] post y refl h))
  raw_loop-decode (c ∷ d ∷ []) pre (y ∷ post) a h =
      literal_step c (d ∷ []) pre y post a.0 a.1 refl
        (raw_loop-decode (d ∷ []) (pre ++ c ∷ []) post a.1 (shorter c (d ∷ []) post y refl h))
  raw_loop-decode (c ∷ d ∷ e ∷ p) pre (y ∷ post) a h =
      elim (Option-cases (escape (c ∷ d ∷ e ∷ p))) [
        | inl n ↦ literal_step c (d ∷ e ∷ p) pre y post a.0 a.1 n (
            raw_loop-decode (d ∷ e ∷ p) (pre ++ c ∷ []) post a.1 (shorter c (d ∷ e ∷ p) post y n h))
        | inr (hex, s) ↦
            let (percent, pair) = escape-eq-some c d e p s in
            rw percent (
              escape_step d e hex p pre y post a.1.0 a.1.1.0 pair (
                raw_loop-decode p (pre ++ hex ∷ []) post a.1.1.1 (
                  omega (
                    arith,
                    h,
                    ap length
                        (ap (λ k. decode (k ∷ d ∷ e ∷ p)) percent ∙ decode-escape d e hex p pair),
                  ))))
      ]
