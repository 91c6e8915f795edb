-- ===== src/Tls/Cut.antt =====
-- net_443_read: a request cut in pieces.
use facows.Types.{DataCtx}
use facows.Tls.{got, Peer, nl2_str, net_443_read}
use facows.Tls.Gather.{gather, Fits, Reads, whole}
use facows.Tls.Search.{begins, holds}
use facows.Tls.Resume.{net_443_read-Reads, Ready}
use facows.Prelude.{
  ℕ, ◌+◌, ◌≤◌, ◌<◌, ◌≡◌, refl, sym, ap, ◌∙◌, subst, inl, inr, true, false, List, [], ◌∷◌, ◌++◌, map,
  append-nil, append_assoc, arith, ◌==◌, lt→not_leb, Bool-cases, length, get_or, drop,
  length-append,
}
use facows.Mem.Run.{Bytes}

-- The pieces put together
abbrev pub concat : List Bytes → Bytes
concat [] = []
concat (piece ∷ pieces) = piece ++ concat pieces

-- SSL_read gives one byte at least.
abbrev pub NonEmpty : List Bytes → Type 0
NonEmpty [] = Unit
NonEmpty (piece ∷ pieces) = (0 < length piece) × NonEmpty pieces

begins-append : (q s t : Bytes) → begins q (s ++ t) ≡ false → begins q s ≡ false
begins-append [] s t h = absurd (cc)
begins-append (y ∷ q) [] t h = refl
begins-append (y ∷ q) (x ∷ s) t h = elim (Bool-cases (x == y)) [
  | inl same ↦ rw same (begins-append q s t (rw same at h))
  | inr other ↦ rw other
]

-- A text that does not hold `q` has no beginning that does.
holds-append : (q s t : Bytes) → holds q (s ++ t) ≡ false → holds q s ≡ false
holds-append q [] [] h = h
holds-append q [] (x ∷ t) h = begins-append q [] (x ∷ t) (ground arith)
holds-append q (x ∷ s) t h = elim (Bool-cases (begins q (x ∷ (s ++ t)))) [
  | inl here ↦ absurd (ground arith)
  | inr elsewhere ↦
      rw (begins-append q (x ∷ s) t elsewhere) (holds-append q s t (rw elsewhere at h))
]

-- A text that ends with `q` holds it.
begins_self : (q : Bytes) → begins q q ≡ true
begins_self [] = refl
begins_self (x ∷ q) = ground (arith, begins_self q)

pub holds-end : (q s : Bytes) → holds q (s ++ q) ≡ true
holds-end [] [] = refl
holds-end (y ∷ q) [] = rw (begins_self (y ∷ q))
holds-end q (x ∷ s) = ground (arith, holds-end q s)

-- What is cut off in front of the last byte.
cut_last :
    (s t a : Bytes) (x : ℕ) → 0 < length t → s ++ t ≡ a ++ x ∷ [] → (u : Bytes) × (s ++ u ≡ a)
cut_last [] t a x h e = (a, refl)
cut_last (c ∷ s) t [] x h e = absurd (omega (arith, h, ap length e, length-append s t))
cut_last (c ∷ s) t (d ∷ a) x h e =
    let (u, q) = cut_last s t a x h (ap (drop 1) e) in
    let same : c ≡ d = ap (λ p. get_or p 0 0) e in (u, rw (same, q))

-- The pieces are put together to the whole request, wherever it has been cut.
gather_cut :
    (s body : Bytes) (pieces : List Bytes)
    → NonEmpty pieces
    → 0 < length (concat pieces)
    → s ++ concat pieces ≡ body ++ nl2_str
    → holds nl2_str (body ++ b'\r' ∷ b'\n' ∷ b'\r' ∷ []) ≡ false
    → length body + 4 < 8191
    → gather s pieces ≡ whole (body ++ nl2_str) []
gather_cut s body [] ne some_left e once short = absurd (omega arith)
gather_cut s body (piece ∷ []) ne some_left e once short =
    let r : s ++ piece ≡ body ++ nl2_str = ap (◌++◌ s) (sym (append-nil piece)) ∙ e in
    rw (
      r,
      lt→not_leb 8191 (length (body ++ nl2_str)) (omega (arith, short, length-append body nl2_str)),
      holds-end nl2_str body,
    )
gather_cut s body (piece ∷ next ∷ pieces) ne some_left e once short =
    let rest = concat (next ∷ pieces) in
    let r : (s ++ piece) ++ rest ≡ body ++ nl2_str = append_assoc s piece rest ∙ e in
    let left : 0 < length rest = omega (arith, ne.1.0, length-append next (concat pieces)) in
    let all : (s ++ piece) ++ rest ≡ (body ++ b'\r' ∷ b'\n' ∷ b'\r' ∷ []) ++ b'\n' ∷ [] =
      r ∙ sym (append_assoc body _ _) in
    let (u, q) = cut_last (s ++ piece) rest (body ++ b'\r' ∷ b'\n' ∷ b'\r' ∷ []) b'\n' left all in
    let more : holds nl2_str (s ++ piece) ≡ false =
      holds-append nl2_str (s ++ piece) u (rw q once) in
    let size : length (s ++ piece) + length rest ≡ length body + 4 =
      sym (length-append (s ++ piece) rest) ∙ ap length r ∙ length-append body nl2_str in
    rw (lt→not_leb 8191 (length (s ++ piece)) (omega (arith, size, short)), more)
      (gather_cut (s ++ piece) body (next ∷ pieces) ne.1 left r once short)

Fits-concat : (n : ℕ) (pieces : List Bytes) → n + length (concat pieces) ≤ 8191 → Fits n pieces
Fits-concat n [] h = tt
Fits-concat n (piece ∷ pieces) h =
    let l = length-append piece (concat pieces) in
    (omega (arith, h, l), Fits-concat (n + length piece) pieces (omega (arith, h, l)))

-- A request of less than 8191 bytes that holds the empty line at its end alone, sent in any pieces to
-- a connection that has none of it yet: net_443_read returns 1, and the request stands in the buffer
-- with a NUL behind it, and no more than that is changed.
pub net_443_read_cut :
    (ctx : DataCtx) (peer : Peer) (body : Bytes) (pieces : List Bytes)
    → Ready ctx []
    → NonEmpty pieces
    → concat pieces ≡ body ++ nl2_str
    → holds nl2_str (body ++ b'\r' ∷ b'\n' ∷ b'\r' ∷ []) ≡ false
    → length body + 4 < 8191
    → Reads
        (whole (body ++ nl2_str) [])
        ctx
        (net_443_read ctx (record peer { reads = map got pieces }))
net_443_read_cut ctx peer body pieces ready ne e once short =
    let size : length (concat pieces) ≡ length body + 4 =
      ap length e ∙ length-append body nl2_str in
    let whole_text = gather_cut [] body pieces ne (omega (arith, size)) e once short in
    subst (λ g. Reads g ctx (net_443_read ctx (record peer { reads = map got pieces }))) whole_text
      (net_443_read-Reads ctx peer [] pieces ready
        (Fits-concat 0 pieces (omega (arith, size, short))))
