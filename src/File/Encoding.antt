-- ===== src/File/Encoding.antt =====
-- The percent-encodings of a text, as RFC 3986 has them, are read back by _raw_path_build.
use facows.File.{raw_path_build}
use facows.File.Decode.{digit_value, byte_value, decode, escape}
use facows.File.Loop.{decode-nil, decode-literal, decode-escape}
use facows.File.RawPath.{raw_path_build-decode}
use facows.Mem.Laws.{Absent}
use facows.Prelude.{
  ℕ, ◌+◌, ◌*◌, ◌<◌, ◌≡◌, refl, ap, ◌∙◌, subst, ◌≢◌, none, some, [], ◌∷◌, ◌++◌, arith, length, drop,
}
use facows.Mem.Run.{ok, Bytes}

-- A hexadecimal digit, in either case, and its value.
pub data HexDigit : ℕ → ℕ → Type 0 where
  decimal : {c v : ℕ} → v < 10 → c ≡ b'0' + v → HexDigit c v
  upper : {c v : ℕ} → v < 6 → c ≡ b'A' + v → HexDigit c (10 + v)
  lower : {c v : ℕ} → v < 6 → c ≡ b'a' + v → HexDigit c (10 + v)

-- `Encodes u s`: the path `u` spells the text `s`, each byte as itself or as %XX.
pub data Encodes : Bytes → Bytes → Type 0 where
  nil : Encodes [] []
  plain : {c : ℕ} {u s : Bytes} → c ≢ 0 → c ≢ b'%' → Encodes u s → Encodes (c ∷ u) (c ∷ s)
  escaped :
      {hi lo x y : ℕ} {u s : Bytes}
      → HexDigit hi x
      → HexDigit lo y
      → Encodes u s
      → Encodes (b'%' ∷ hi ∷ lo ∷ u) ((16 * x + y) ∷ s)

HexDigit-facts : {c v : ℕ} → HexDigit c v → (digit_value c ≡ some v) × (c ≢ 0)
unfolding digit_value
HexDigit-facts (decimal h e) = ground arith
HexDigit-facts (upper h e) = ground arith
HexDigit-facts (lower h e) = ground arith

byte_value-HexDigit :
    {hi lo x y : ℕ} → HexDigit hi x → HexDigit lo y → byte_value hi lo ≡ some (16 * x + y)
unfolding byte_value
byte_value-HexDigit h l = rw ((HexDigit-facts h).0, (HexDigit-facts l).0, byte_value) refl

escape_ne : (c : ℕ) (p : Bytes) → c ≢ b'%' → escape (c ∷ p) ≡ none
escape_ne c [] n = refl
escape_ne c (a ∷ []) n = refl
escape_ne c (a ∷ b ∷ p) n = ground arith

-- The reference decoder undoes every encoding.
pub decode-Encodes : {u s : Bytes} → Encodes u s → decode u ≡ s
decode-Encodes nil = decode-nil
decode-Encodes (plain {c} {u} nz np e) =
    decode-literal c u (escape_ne c u np) ∙ ap (◌∷◌ c) (decode-Encodes e)
decode-Encodes (escaped {hi} {lo} {x} {y} {u} h l e) =
    decode-escape hi lo _ u (byte_value-HexDigit h l) ∙ ap (◌∷◌ (16 * x + y)) (decode-Encodes e)

pub Encodes-Absent : {u s : Bytes} → Encodes u s → Absent 0 u
Encodes-Absent nil = tt
Encodes-Absent (plain nz np e) = (nz, Encodes-Absent e)
Encodes-Absent (escaped h l e) =
    (omega arith, ((HexDigit-facts h).1, ((HexDigit-facts l).1, Encodes-Absent e)))

-- Whatever encoding of a text the client sends, if the web root, a slash, the text and a terminator
-- fit the buffer, _raw_path_build leaves the web root, a slash and that text in it, terminated.
pub raw_path_build-Encodes :
    (path_buf root rest root_rest : Bytes) {u s : Bytes}
    → Encodes u s
    → length root + 1 + length s < length path_buf
    → raw_path_build path_buf (u ++ 0 ∷ rest) (root ++ root_rest) (length root)
      ≡ ok (root ++ b'/' ∷ (s ++ 0 ∷ drop (length root + length s + 2) path_buf))
raw_path_build-Encodes path_buf root rest root_rest {u} {s} e h =
    let d = decode-Encodes e in
    subst
      (λ t.
        raw_path_build path_buf (u ++ 0 ∷ rest) (root ++ root_rest) (length root)
        ≡ ok (root ++ b'/' ∷ (t ++ 0 ∷ drop (length root + length t + 2) path_buf)))
      d
      (raw_path_build-decode path_buf root u rest root_rest (Encodes-Absent e)
        (omega (arith, h, ap length d)))
