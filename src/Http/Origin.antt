-- ===== src/Http/Origin.antt =====
-- net_http_origin_self_check: the origins that are taken for the server's own.
use facows.Types.{Conf, HttpReq}
use facows.Http.{http_origin_self_check}
use facows.Mem.Laws.{
  Absent, copy-append, advance-append, strnlen-append, snoc-append, length-snoc, memcmp-eq-true,
}
use facows.Prelude.{
  ℕ, zero, suc, ◌+◌, ◌<◌, ◌≡◌, refl, ap, ◌∙◌, subst, ◌⊎◌, inl, inr, true, false, not, ◌&&◌, ◌||◌,
  none, some, [], ◌∷◌, ◌++◌, append-nil, append_assoc, arith, ltb, ◌==◌, if◌then◌else◌, ne→not_==,
  Bool-cases, length, length-append,
}
use facows.Mem.Run.{ok, ◌>>=◌, Bytes, Run-cases}
use facows.Mem.Libc.{memcmp, strnlen, copy, advance, deref, memmem}

-- What memmem finds.
record Place (p q : Bytes) (k : ℕ) : Type 0 where
  before : Bytes
  behind : Bytes
  splits : p ≡ before ++ (q ++ behind)
  offset : length before ≡ k

Place-suc : {p q : Bytes} {k : ℕ} (x : ℕ) → Place p q k → Place (x ∷ p) q (suc k)
Place-suc x f = record {
  before = x ∷ f.before;
  behind = f.behind;
  splits = ap (◌∷◌ x) f.splits;
  offset = ap suc f.offset;
}

-- The prefix of `p` that is `q`, compared with the needle itself.
memcmp_self : (q p : Bytes) → memcmp p q (length q) ≡ ok true → (t : Bytes) × (p ≡ q ++ t)
memcmp_self q p e = memcmp-eq-true q p [] (rw (append-nil q) e)

memmem-Place : (p : Bytes) (n : ℕ) (q : Bytes) {k : ℕ} → memmem p n q ≡ ok (some k) → Place p q k
unfolding memmem
memmem-Place p zero [] {k} e = record {
  before = [];
  behind = p;
  splits = refl;
  offset = ground arith;
}
memmem-Place p zero (y ∷ q) e = absurd (ground arith)
memmem-Place [] (suc n) q e = absurd (cc)
memmem-Place (x ∷ p) (suc n) q {k} e = elim (Bool-cases (ltb (suc n) (length q))) [
  | inl short ↦ absurd (ground arith)
  | inr enough ↦ elim (Run-cases (memcmp (x ∷ p) q (length q))) [
    | inl (true, m) ↦
        let (t, s) = memcmp_self q (x ∷ p) m in
        record { before = []; behind = t; splits = s; offset = ground arith }
    | inl (false, m) ↦ elim (Run-cases (memmem p n q)) [
      | inl (some j, r) ↦
          let here : suc j ≡ k = ground arith in
          subst (Place (x ∷ p) q) here (Place-suc x (memmem-Place p n q r))
      | inl (none, r) ↦ absurd (ground arith)
      | inr (inl r) ↦ absurd (ground arith)
      | inr (inr r) ↦ absurd (ground arith)
    ]
    | inr (inl m) ↦ absurd (ground arith)
    | inr (inr m) ↦ absurd (ground arith)
  ]
]

-- The domain stands somewhere in the array of the origin, behind a dot or a slash, and in front of a
-- colon or a NUL. What stands before the dot or slash, and behind the colon, is free.
pub record IsOwn (origin domain : Bytes) : Type 0 where
  pub before : Bytes
  pub mark : ℕ
  pub next : ℕ
  pub behind : Bytes
  pub splits : origin ≡ before ++ mark ∷ (domain ++ next ∷ behind)
  pub label : (mark ≡ b'.') ⊎ (mark ≡ b'/')
  pub ends : (next ≡ b':') ⊎ (next ≡ 0)

-- The last byte of a text.
unsnoc :
    (b : Bytes) (k : ℕ)
    → length b ≡ suc k
    → (pre : Bytes) × (c : ℕ) × (b ≡ pre ++ c ∷ []) × (length pre ≡ k)
unsnoc [] k e = absurd (omega arith)
unsnoc (x ∷ []) k e = ([], x, refl, omega arith)
unsnoc (x ∷ y ∷ b) zero e = absurd (omega arith)
unsnoc (x ∷ y ∷ b) (suc k) e =
    let (pre, c, s, l) = unsnoc (y ∷ b) k (omega arith) in (x ∷ pre, c, ap (◌∷◌ x) s, ap suc l)

-- Where the pointers of the two tests lead.
around :
    (o d pre behind : Bytes) (c k : ℕ)
    → o ≡ (pre ++ c ∷ []) ++ (d ++ behind)
    → length pre ≡ k
    → (advance o k ≡ ok (c ∷ (d ++ behind))) × (advance o (suc k + length d) ≡ ok behind)
around o d pre behind c k eo l =
    let whole : o ≡ pre ++ c ∷ (d ++ behind) = eo ∙ snoc-append pre (d ++ behind) c in
    let size : length ((pre ++ c ∷ []) ++ d) ≡ suc k + length d =
      omega (arith, length-append (pre ++ c ∷ []) d, length-snoc pre c, l) in
    (
      rw (whole, ← l) (advance-append pre (c ∷ (d ++ behind))),
      rw (eo, ← size, ← append_assoc (pre ++ c ∷ []) d behind)
          (advance-append ((pre ++ c ∷ []) ++ d) behind),
    )

-- The two tests of the check, on the byte before the domain and the one behind it.
marks-IsOwn :
    (o d pre behind : Bytes) (c k : ℕ)
    → o ≡ (pre ++ c ∷ []) ++ (d ++ behind)
    → length pre ≡ k
    → (advance o k >>= λ p. deref p >>= λ prev.
        if not (prev == b'.') && not (prev == b'/')
        then ok false
        else (advance o (suc k + length d) >>= λ p.
            deref p >>= λ next. ok (next == b':' || next == 0)))
      ≡ ok true
    → IsOwn o d
marks-IsOwn o d pre [] c k eo l e =
    let (at_mark, at_next) = around o d pre [] c k eo l in absurd (ground arith)
marks-IsOwn o d pre (next ∷ behind) c k eo l e =
    let whole : o ≡ pre ++ c ∷ (d ++ next ∷ behind) = eo ∙ snoc-append pre (d ++ next ∷ behind) c in
    let (at_mark, at_next) = around o d pre (next ∷ behind) c k eo l in
    let q = rw (at_mark, at_next) at e in
    record {
      before = pre;
      mark = c;
      next = next;
      behind = behind;
      splits = whole;
      label = ground arith;
      ends = ground arith;
    }

-- When the check says yes, the domain being `d` of less than 128 bytes, the array of the origin holds
-- `d` somewhere, with a dot or a slash in front of it and a colon or a NUL behind it.
pub http_origin_self_check-IsOwn :
    (req : HttpReq) (conf : Conf) (d rest : Bytes)
    → conf.domain ≡ d ++ 0 ∷ rest
    → Absent 0 d
    → length d < 128
    → http_origin_self_check req conf ≡ ok true
    → IsOwn req.origin d
unfolding http_origin_self_check
http_origin_self_check-IsOwn req conf d rest ed a lt e =
    let size : strnlen conf.domain 128 ≡ ok (length d) = rw ed (strnlen-append d rest 128 a lt) in
    let read : copy conf.domain (length d) ≡ ok d = rw ed (copy-append d (0 ∷ rest)) in
    let fits : (length d == 128) ≡ false = ne→not_== _ _ (omega arith) in
    elim (Run-cases (memmem req.origin 512 d)) [
      | inl (none, m) ↦ absurd (ground arith)
      | inl (some zero, m) ↦ absurd (ground arith)
      | inl (some (suc k), m) ↦
          let f = memmem-Place req.origin 512 d m in
          let (pre, c, s, l) = unsnoc f.before k f.offset in
          marks-IsOwn req.origin d pre f.behind c k (f.splits ∙ ap (λ t. t ++ (d ++ f.behind)) s) l
            (rw (size, fits, read, m, http_origin_self_check) at e)
      | inr (inl m) ↦ absurd (ground arith)
      | inr (inr m) ↦ absurd (ground arith)
    ]
