-- ===== src/File/Containment.antt =====
-- Only files whose resolved path begins with the web root are served, and all of these are.
use facows.File.{
  Fs, settle, resolve, locate, file_parse, uri_path_build, path_build, raw_path_build, is_found,
  blank_file,
}
use facows.Types.{FwsFile, HttpReq}
use facows.Mem.Laws.{
  Absent, copy-append, strnlen-append, memcmp-append, snoc-append, length-snoc, write-append,
  text-append, memcmp-eq-true, text-prefix,
}
use facows.Prelude.{
  ℕ, ◌+◌, ◌<◌, ◌≡◌, inl, inr, true, false, some, [], ◌∷◌, ◌++◌, append-nil, append_assoc, arith,
  leb, ◌==◌, Bool-cases, Option-cases, length, drop, ℤ, pos, negsuc,
}
use facows.Mem.Run.{ok, Bytes, Run-cases}
use facows.Mem.Libc.{memcmp, strnlen, copy, write, copy_text, text, zeros}

-- The path of the file that is served begins with the web root.
pub record Inside (root : Bytes) (file : FwsFile) : Type 0 where
  pub below : Bytes
  pub contained : text file.path ≡ root ++ below

settle-inside :
    (file : FwsFile) (rp root rest : Bytes) (n : ℕ) {out : FwsFile}
    → Absent 0 root
    → settle file rp (root ++ rest) (length root) n ≡ ok (pos 0, out)
    → (below : Bytes) × (text out.path ≡ root ++ below)
unfolding settle
settle-inside file rp root rest n {out} a e = elim (Run-cases (copy (rp ++ 0 ∷ []) (n + 1))) [
  | inl (s, es) ↦ elim (Run-cases (write file.path 0 s)) [
    | inl (p, ep) ↦ elim (Run-cases (memcmp p (root ++ rest) (length root))) [
      | inl (true, em) ↦
          let (t, et) = memcmp-eq-true root p rest em in
          let same : out.path ≡ p = ground arith in (text t, rw (same, et) (text-prefix root t a))
      | inl (false, em) ↦ absurd (ground arith)
      | inr (inl em) ↦ absurd (ground arith)
      | inr (inr em) ↦ absurd (ground arith)
    ]
    | inr (inl ep) ↦ absurd (ground arith)
    | inr (inr ep) ↦ absurd (ground arith)
  ]
  | inr (inl es) ↦ absurd (ground arith)
  | inr (inr es) ↦ absurd (ground arith)
]

resolve-Inside :
    (fs : Fs) (file : FwsFile) (buf root rest : Bytes) {out : FwsFile}
    → Absent 0 root
    → resolve fs file buf (root ++ rest) (length root) ≡ ok (pos 0, out)
    → Inside root out
unfolding resolve
resolve-Inside fs file buf root rest {out} a e = elim (Option-cases (fs.realpath (text buf))) [
  | inl n ↦ absurd (ground arith)
  | inr (rp, r) ↦ elim (Run-cases (strnlen (rp ++ 0 ∷ []) 4096)) [
    | inl (n, en) ↦ elim (Bool-cases (leb 4096 n)) [
      | inl long ↦ absurd (ground arith)
      | inr short ↦
          let (below, c) = settle-inside file rp root rest n {out = out} a (ground arith) in
          record { below = below; contained = c }
    ]
    | inr (inl en) ↦ absurd (ground arith)
    | inr (inr en) ↦ absurd (ground arith)
  ]
]

locate-Inside :
    (fs : Fs) (coded : ℤ × FwsFile) (buf root rest : Bytes) {out : FwsFile}
    → Absent 0 root
    → locate fs coded buf (root ++ rest) (length root) ≡ ok (pos 0, out)
    → Inside root out
unfolding locate
locate-Inside fs (negsuc c, file) buf root rest a e = absurd (ground arith)
locate-Inside fs (pos c, file) buf root rest {out} a e = elim (Bool-cases (c == 301)) [
  | inl redirect ↦ absurd (ground arith)
  | inr plain ↦ elim (Run-cases (path_build fs file buf (pos c))) [
    | inl ((code, f, b), eb) ↦ elim (Bool-cases (is_found code)) [
      | inl found ↦ resolve-Inside fs f b root rest a (ground arith)
      | inr lost ↦ absurd (not_found code lost (ground arith))
    ]
    | inr (inl eb) ↦ absurd (ground arith)
    | inr (inr eb) ↦ absurd (ground arith)
  ]
]
  where
    not_found : (code : ℤ) → is_found code ≡ false → code ≡ pos 0 → ⊥
    not_found (pos n) l z = ground arith
    not_found (negsuc n) l z = ground arith

-- When file_parse returns 0, the path of the file begins with the web root, byte for byte.
pub file_parse-Inside :
    (fs : Fs) (req : HttpReq) (root rest : Bytes) (web_root_n : ℕ) {out : FwsFile}
    → Absent 0 root
    → length root < web_root_n
    → file_parse fs req (root ++ 0 ∷ rest) web_root_n ≡ ok (pos 0, out)
    → Inside root out
unfolding file_parse
file_parse-Inside fs req root rest web_root_n {out} a lt e =
    elim (Run-cases (copy_text (zeros 4096) req.path req.path_n)) [
      | inl (u, eu) ↦
          let en = strnlen-append root rest web_root_n a lt in
          elim (Run-cases (raw_path_build (zeros 4096) u (root ++ 0 ∷ rest) (length root))) [
            | inl (b, eb) ↦ elim (Run-cases (uri_path_build (blank_file u req.path_n))) [
              | inl (coded, ec) ↦ locate-Inside fs coded b root (0 ∷ rest) a (ground (arith, en))
              | inr (inl ec) ↦ absurd (ground (arith, en))
              | inr (inr ec) ↦ absurd (ground (arith, en))
            ]
            | inr (inl eb) ↦ absurd (ground (arith, en))
            | inr (inr eb) ↦ absurd (ground (arith, en))
          ]
      | inr (inl eu) ↦ absurd (ground arith)
      | inr (inr eu) ↦ absurd (ground arith)
    ]

-- Nothing but these bytes is tested: whatever follows the web root in the resolved path, a slash or
-- the rest of a longer directory name, the path is accepted if it fits its array.
resolve_prefix :
    (fs : Fs) (file : FwsFile) (buf root rest below : Bytes)
    → Absent 0 (root ++ below)
    → length (root ++ below) < 4096
    → length file.path ≡ 4096
    → fs.realpath (text buf) ≡ some (root ++ below)
    → (path : Bytes) × (resolve fs file buf (root ++ rest) (length root)
        ≡ ok (pos 0, record file { path = path }))
      × (text path ≡ root ++ below)
unfolding resolve settle
resolve_prefix fs file buf root rest below a lt size r =
    let rp = root ++ below in
    let terminated = rp ++ 0 ∷ [] in
    let path = terminated ++ drop (length terminated) file.path in
    (
      path,
      ground (
        arith,
        r,
        strnlen-append rp [] 4096 a lt,
        length-snoc rp 0,
        copy-append terminated [],
        append-nil terminated,
        write-append terminated [] file.path,
        append_assoc root below (0 ∷ []),
        append_assoc root (below ++ 0 ∷ []) (drop (length terminated) file.path),
        memcmp-append root ((below ++ 0 ∷ []) ++ drop (length terminated) file.path) rest,
      ),
      rw (snoc-append rp (drop (length terminated) file.path) 0) (text-append rp _ a),
    )
