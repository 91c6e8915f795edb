-- ===== src/File/Redirect.antt =====
-- The redirects of _uri_path_build: a path that ends in an index name or in the extension.
use facows.File.{
  name_check, last_check, uri_path_build, index_str, index_html_str, html_ext_str, cut_uri_path,
  html_ext_check,
}
use mathlib.Core.List.{tail}
use facows.Types.{FwsFile}
use facows.Mem.Laws.{Absent, store-append, text-append, memcmp-eq-true}
use facows.Prelude.{
  ℕ, zero, suc, ◌+◌, ◌-◌, ◌≤◌, ◌<◌, ◌≡◌, refl, sym, ap, ◌∙◌, inl, inr, true, false, none, some, [],
  ◌∷◌, ◌++◌, append_assoc, arith, leb, ◌==◌, Bool-cases, length, length-append, ℤ, pos,
}
use facows.Mem.Run.{ok, Bytes, Run-cases, ok-injective}
use facows.Mem.Libc.{memrchr, memcmp, advance, store, text}

-- What is cut off: a name of the index, or the extension.
pub data Cut : Bytes → Type 0 where
  index : Cut index_str
  index_html : Cut index_html_str
  html_ext : Cut html_ext_str

-- A redirect from the path `s` leads to the path in `out`: `s` without one of the endings.
pub record Redirects (s : Bytes) (out : FwsFile) : Type 0 where
  pub target : Bytes
  pub ending : Bytes
  pub splits : s ≡ target ++ ending
  pub cut : Cut ending
  pub held : text out.uri_path ≡ target
  pub length_is : out.uri_path_n ≡ length target
  pub target_ne_nil : 0 < length target

advance-eq-ok :
    (p : Bytes) (n : ℕ) {q : Bytes}
    → advance p n ≡ ok q
    → (pre : Bytes) × (p ≡ pre ++ q) × (length pre ≡ n)
unfolding advance
advance-eq-ok p zero e = ([], ok-injective e, refl)
advance-eq-ok [] (suc n) e = absurd (cc)
advance-eq-ok (x ∷ p) (suc n) e =
    let (pre, s, l) = advance-eq-ok p n e in (x ∷ pre, ap (◌∷◌ x) s, ap suc l)

memrchr-lt : (p : Bytes) (c n : ℕ) {k : ℕ} → memrchr p c n ≡ ok (some k) → k < n
unfolding memrchr
memrchr-lt p c zero e = absurd (cc)
memrchr-lt [] c (suc n) e = absurd (cc)
memrchr-lt (x ∷ p) c (suc n) e = elim (Run-cases (memrchr p c n)) [
  | inl (none, m) ↦ ground arith
  | inl (some j, m) ↦ ground (arith, memrchr-lt p c n m)
  | inr (inl m) ↦ absurd (ground arith)
  | inr (inr m) ↦ absurd (ground arith)
]

-- A text in front of a NUL is cut where a pointer into it stands.
split_text :
    (pre q s rest : Bytes)
    → pre ++ q ≡ s ++ 0 ∷ rest
    → length pre ≤ length s
    → (m : Bytes) × (s ≡ pre ++ m) × (q ≡ m ++ 0 ∷ rest)
split_text [] q s rest e h = (s, refl, e)
split_text (x ∷ pre) q [] rest e h = absurd (omega arith)
split_text (x ∷ pre) q (y ∷ s) rest e h =
    let (m, a, b) = split_text pre q s rest (ap tail e) (omega arith) in (m, ground arith, b)

Absent-suffix : (c : ℕ) (pre m : Bytes) → Absent c (pre ++ m) → Absent c m
Absent-suffix c [] m a = a
Absent-suffix c (x ∷ pre) m a = Absent-suffix c pre m a.1

-- Two texts in front of the same NUL.
same_text : (m e rest t : Bytes) → m ++ 0 ∷ rest ≡ e ++ 0 ∷ t → Absent 0 m → Absent 0 e → m ≡ e
same_text m e rest t q a b = sym (text-append m rest a) ∙ ap text q ∙ text-append e t b

-- Two texts of one length in front of others.
same_length : (m e r t : Bytes) → m ++ r ≡ e ++ t → length m ≡ length e → m ≡ e
same_length [] [] r t q l = refl
same_length [] (y ∷ e) r t q l = absurd (omega arith)
same_length (x ∷ m) [] r t q l = absurd (omega arith)
same_length (x ∷ m) (y ∷ e) r t q l =
    let ih : m ≡ e = same_length m e r t (ap tail q) (omega arith) in ground arith

Absent-prefix : (c : ℕ) (pre m : Bytes) → Absent c (pre ++ m) → Absent c pre
Absent-prefix c [] m a = tt
Absent-prefix c (x ∷ pre) m a = (a.0, Absent-prefix c pre m a.1)

Cut-cons : {e : Bytes} → Cut e → (y : ℕ) × (t : Bytes) × (e ≡ y ∷ t)
Cut-cons index = (_, _, refl)
Cut-cons index_html = (_, _, refl)
Cut-cons html_ext = (_, _, refl)

abbrev uri_path_of : FwsFile → Bytes
uri_path_of f = f.uri_path

abbrev uri_path_n_of : FwsFile → ℕ
uri_path_n_of f = f.uri_path_n

-- The store of the terminator, and what the array holds then.
cut_uri_path-Redirects :
    (file : FwsFile) (s pre ending rest : Bytes) {out : FwsFile}
    → s ≡ pre ++ ending
    → file.uri_path ≡ s ++ 0 ∷ rest
    → file.uri_path_n ≡ length s
    → Absent 0 s
    → Cut ending
    → 0 < length pre
    → cut_uri_path file (length ending) ≡ ok (pos 301, out)
    → Redirects s out
unfolding cut_uri_path
cut_uri_path-Redirects file s pre ending rest {out} es eu en a c ne e =
    let (y, t, ey) = Cut-cons c in
    let size = length-append pre ending in
    let at : file.uri_path_n - length ending ≡ length pre = omega (arith, en, ap length es, size) in
    let shape : file.uri_path ≡ pre ++ y ∷ (t ++ 0 ∷ rest) =
      eu ∙ ap (λ k. k ++ 0 ∷ rest) (es ∙ ap (◌++◌ pre) ey) ∙ append_assoc pre (y ∷ t) (0 ∷ rest) in
    let stored : store file.uri_path (length pre) 0 ≡ ok (pre ++ 0 ∷ (t ++ 0 ∷ rest)) =
      rw shape (store-append pre (t ++ 0 ∷ rest) y 0) in
    let r = ok-injective (rw (at, stored, cut_uri_path) at e) in
    record {
      target = pre;
      ending = ending;
      splits = es;
      cut = c;
      held =
          rw (← ap (λ (x : ℤ × FwsFile). uri_path_of x.1) r)
            (text-append pre (t ++ 0 ∷ rest) (Absent-prefix 0 pre ending (rw es at a)));
      length_is = sym (ap (λ (x : ℤ × FwsFile). uri_path_n_of x.1) r);
      target_ne_nil = ne;
    }

-- A name of the index found behind the last slash.
name-Redirects :
    (file : FwsFile) (s rest p1 ending q : Bytes) (k : ℕ) {out : FwsFile}
    → file.uri_path ≡ s ++ 0 ∷ rest
    → file.uri_path_n ≡ length s
    → Absent 0 s
    → k < length s
    → advance file.uri_path (k + 1) ≡ ok p1
    → Cut ending
    → Absent 0 ending
    → p1 ≡ ending ++ 0 ∷ q
    → cut_uri_path file (length ending) ≡ ok (pos 301, out)
    → Redirects s out
name-Redirects file s rest p1 ending q k eu en a lt adv c ae ep e =
    let (pre, sp, lp) = advance-eq-ok file.uri_path (k + 1) adv in
    let (m, sm, qm) = split_text pre p1 s rest (sym sp ∙ eu) (omega (arith, lp)) in
    let same : m ≡ ending =
      same_text m ending rest q (sym qm ∙ ep) (Absent-suffix 0 pre m (rw sm at a)) ae in
    cut_uri_path-Redirects file s pre ending rest (sm ∙ ap (◌++◌ pre) same) eu en a c
      (omega (arith, lp)) e

ext-Redirects :
    (file : FwsFile) (s rest : Bytes) {out : FwsFile}
    → file.uri_path ≡ s ++ 0 ∷ rest
    → file.uri_path_n ≡ length s
    → Absent 0 s
    → html_ext_check file ≡ ok (pos 301, out)
    → Redirects s out
unfolding html_ext_check
ext-Redirects file s rest {out} eu en a e = elim (Bool-cases (leb file.uri_path_n 5)) [
  | inl short ↦ absurd (ground arith)
  | inr longer ↦ elim (Run-cases (advance file.uri_path (file.uri_path_n - 5))) [
    | inl (p1, ap1) ↦ elim (Run-cases (memcmp p1 html_ext_str 5)) [
      | inl (true, m) ↦
          let lt : 5 < file.uri_path_n = ground arith in
          let (pre, sp, lp) = advance-eq-ok file.uri_path (file.uri_path_n - 5) ap1 in
          let (t, st, qt) = split_text pre p1 s rest (sym sp ∙ eu) (omega (arith, lp, lt, en)) in
          let (u, pu) = memcmp-eq-true html_ext_str p1 [] m in
          let same : t ≡ html_ext_str =
            same_length t html_ext_str (0 ∷ rest) u (sym qt ∙ pu)
              (omega (arith, ap length st, length-append pre t, lp, lt, en)) in
          cut_uri_path-Redirects file s pre html_ext_str rest (st ∙ ap (◌++◌ pre) same) eu en a
            html_ext (omega (arith, lp, lt)) (rw (longer, ap1, m, html_ext_check) at e)
      | inl (false, m) ↦ absurd (ground arith)
      | inr (inl m) ↦ absurd (ground arith)
      | inr (inr m) ↦ absurd (ground arith)
    ]
    | inr (inl ap1) ↦ absurd (ground arith)
    | inr (inr ap1) ↦ absurd (ground arith)
  ]
]

name_check-Redirects :
    (file : FwsFile) (s rest : Bytes) (k : ℕ) {out : FwsFile}
    → file.uri_path ≡ s ++ 0 ∷ rest
    → file.uri_path_n ≡ length s
    → Absent 0 s
    → k < length s
    → name_check file k ≡ ok (pos 301, out)
    → Redirects s out
unfolding name_check
name_check-Redirects file s rest k {out} eu en a lt e =
    elim (Run-cases (advance file.uri_path (k + 1))) [
      | inl (p1, adv) ↦ elim (Run-cases (memcmp p1 (index_str ++ 0 ∷ []) 6)) [
        | inl (true, m) ↦
            let (q, ep) = memcmp-eq-true (index_str ++ 0 ∷ []) p1 [] m in
            name-Redirects file s rest p1 index_str q k eu en a lt adv index (omega arith) ep
              (rw (adv, m, name_check) at e)
        | inl (false, m) ↦ elim (Run-cases (memcmp p1 (index_html_str ++ 0 ∷ []) 11)) [
          | inl (true, m2) ↦
              let (q, ep) = memcmp-eq-true (index_html_str ++ 0 ∷ []) p1 [] m2 in
              name-Redirects file s rest p1 index_html_str q k eu en a lt adv index_html
                (omega arith) ep (rw (adv, m, m2, name_check) at e)
          | inl (false, m2) ↦ ext-Redirects file s rest eu en a (rw (adv, m, m2, name_check) at e)
          | inr (inl m2) ↦ absurd (ground arith)
          | inr (inr m2) ↦ absurd (ground arith)
        ]
        | inr (inl m) ↦ absurd (ground arith)
        | inr (inr m) ↦ absurd (ground arith)
      ]
      | inr (inl adv) ↦ absurd (ground arith)
      | inr (inr adv) ↦ absurd (ground arith)
    ]

last_check-Redirects :
    (file : FwsFile) (s rest : Bytes) (c : ℕ) {out : FwsFile}
    → file.uri_path ≡ s ++ 0 ∷ rest
    → file.uri_path_n ≡ length s
    → Absent 0 s
    → last_check file c ≡ ok (pos 301, out)
    → Redirects s out
unfolding last_check
last_check-Redirects file s rest c {out} eu en a e = elim (Bool-cases (c == b'/')) [
  | inl dir ↦ absurd (ground arith)
  | inr name ↦ elim (Run-cases (memrchr file.uri_path b'/' file.uri_path_n)) [
    | inl (some k, m) ↦
        name_check-Redirects file s rest k eu en a
          (omega (arith, memrchr-lt file.uri_path b'/' file.uri_path_n m, en))
          (rw (name, m, last_check) at e)
    | inl (none, m) ↦ absurd (ground arith)
    | inr (inl m) ↦ absurd (ground arith)
    | inr (inr m) ↦ absurd (ground arith)
  ]
]

-- When _uri_path_build asks for a redirect, the path ended in index, index.html or .html; the new
-- path is the old one without that ending, and is not empty. So every redirect makes the path
-- shorter, and a client that follows redirects reaches a path that has none.
pub uri_path_build-Redirects :
    (file : FwsFile) (s rest : Bytes) {out : FwsFile}
    → file.uri_path ≡ s ++ 0 ∷ rest
    → file.uri_path_n ≡ length s
    → Absent 0 s
    → uri_path_build file ≡ ok (pos 301, out)
    → Redirects s out
unfolding uri_path_build
uri_path_build-Redirects file s rest {out} eu en a e = elim (Bool-cases (file.uri_path_n == 0)) [
  | inl empty ↦ absurd (ground arith)
  | inr some_path ↦ elim (Run-cases (advance file.uri_path (file.uri_path_n - 1))) [
    | inl ([], adv) ↦ absurd (ground arith)
    | inl (c ∷ p, adv) ↦
        last_check-Redirects file s rest c eu en a (rw (some_path, adv, uri_path_build) at e)
    | inr (inl adv) ↦ absurd (ground arith)
    | inr (inr adv) ↦ absurd (ground arith)
  ]
]
