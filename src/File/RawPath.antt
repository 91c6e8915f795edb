-- ===== src/File/RawPath.antt =====
-- _raw_path_build as a whole: what it leaves in the path buffer, the room that it needs, and the
-- texts that an encoded path stands for.
use facows.File.{hex_pair, raw_loop, raw_path_build}
use facows.File.Decode.{decode}
use facows.File.Loop.{raw_loop-decode}
use facows.Mem.Laws.{
  Absent, copy-append, store-append, snoc-append, length-snoc, write-append, drop-cons, store_fault,
}
use facows.Prelude.{
  ℕ, suc, ◌+◌, ◌≤◌, ◌<◌, ◌≡◌, ap, ◌∙◌, inl, inr, [], ◌∷◌, ◌++◌, arith, Option-cases, length, drop,
  length-drop, drop-drop,
}
use facows.Mem.Run.{ok, fault, ◌>>=◌, Bytes}
use facows.Mem.Libc.{store}

-- From the terminator that _raw_path_build writes first to the end of its loop.
build_tail :
    (u rest pre post : Bytes) (z : ℕ)
    → Absent 0 u
    → length (decode u) ≤ length post
    → (store (pre ++ z ∷ post) (length pre) 0 >>= λ buf. raw_loop (u ++ 0 ∷ rest) buf (length pre))
      ≡ ok (pre ++ (decode u ++ 0 ∷ drop (length (decode u)) post))
build_tail u rest pre post z a h =
    rw (store-append pre post z 0) (raw_loop-decode rest u pre (0 ∷ post) a (omega arith))

build_slash :
    (u rest root post : Bytes) (z : ℕ)
    → Absent 0 u
    → length (decode u) ≤ length post
    → (store (root ++ b'/' ∷ z ∷ post) (length root + 1) 0 >>= λ buf.
        raw_loop (u ++ 0 ∷ rest) buf (length root + 1))
      ≡ ok (root ++ b'/' ∷ (decode u ++ 0 ∷ drop (length (decode u)) post))
build_slash u rest root post z a h =
    rw (← snoc-append root (z ∷ post) b'/', ← length-snoc root b'/')
      (build_tail u rest (root ++ b'/' ∷ []) post z a h
        ∙ ap ok (snoc-append root (decode u ++ 0 ∷ drop (length (decode u)) post) b'/'))

module _ (path_buf root u rest root_rest : Bytes) where
  -- When the web root, a slash, the decoded path and a terminator fit the buffer, _raw_path_build
  -- leaves exactly these in it, and what was in the buffer behind them.
  pub raw_path_build-decode :
      Absent 0 u
      → length root + 1 + length (decode u) < length path_buf
      → raw_path_build path_buf (u ++ 0 ∷ rest) (root ++ root_rest) (length root)
        ≡ ok (root ++ b'/' ∷ (decode u ++ 0 ∷ drop (length root + length (decode u) + 2) path_buf))
  unfolding raw_path_build
  raw_path_build-decode a h =
      let (y, ey) = drop-cons (length root) path_buf (omega arith) in
      let (z, ez) = drop-cons (suc (length root)) path_buf (omega arith) in
      rw
        (
          copy-append root root_rest,
          write-append root [] path_buf (omega arith),
          ey,
          store-append root (drop (suc (length root)) path_buf) y b'/',
          ez,
        )
        (build_slash u rest root (drop (suc (suc (length root))) path_buf) z a
            (omega (arith, length-drop (suc (suc (length root))) path_buf))
          ∙ ap (λ t. ok (root ++ b'/' ∷ (decode u ++ 0 ∷ t)))
              (drop-drop (suc (suc (length root))) (length (decode u))
                (length root + length (decode u) + 2) path_buf (omega arith)))

-- With no room left the loop writes past the end, whatever it writes.
pub raw_loop_full :
    (u rest buf : Bytes) (i : ℕ) → length buf ≤ i → raw_loop (u ++ 0 ∷ rest) buf i ≡ fault
unfolding raw_loop
raw_loop_full [] [] buf i h = store_fault buf i 0 h
raw_loop_full [] (a ∷ []) buf i h = store_fault buf i 0 h
raw_loop_full [] (a ∷ b ∷ p) buf i h = store_fault buf i 0 h
raw_loop_full (c ∷ []) [] buf i h = ground (arith, store_fault buf i 0 h, store_fault buf i c h)
raw_loop_full (c ∷ []) (a ∷ p) buf i h =
    ground (arith, store_fault buf i 0 h, store_fault buf i c h)
raw_loop_full (c ∷ a ∷ []) rest buf i h =
    ground (arith, store_fault buf i 0 h, store_fault buf i c h)
raw_loop_full (c ∷ a ∷ b ∷ p) rest buf i h = elim (Option-cases (hex_pair a b)) [
  | inl n ↦ ground (arith, store_fault buf i 0 h, store_fault buf i c h)
  | inr (hex, s) ↦
      ground (arith, store_fault buf i 0 h, store_fault buf i c h, store_fault buf i hex h)
]
