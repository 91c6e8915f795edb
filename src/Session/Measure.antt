-- ===== src/Session/Measure.antt =====
-- What holds of the result of code, if it gives one, and of the texts that _fws_443_run measures.
use facows.Mem.Ends.{Ends, Gives}
use facows.Types.{Conf, HttpReq}
use facows.Session.{web_root_build}
use facows.Mem.Text.{put-append}
use facows.Prelude.{
  ℕ, zero, suc, ◌≤◌, ◌<◌, ◌≡◌, refl, sym, ap, subst, inl, inr, Bool, true, false, [], ◌∷◌, ◌++◌,
  append-nil, arith, ◌==◌, if◌then◌else◌, Bool-cases, length, drop, length-append, length-drop,
}
use facows.Mem.Run.{Run, ok, fault, out_of_fuel, ◌>>=◌, Bytes, Run-cases, ok-injective}
use facows.Mem.Libc.{strnlen, copy, deref, zeros}
use facows.Mem.Laws.{Absent, copy-append, strnlen-append, length-zeros, Absent-append, Holds}

-- A value that the run gives has the property.
abbrev pub Safely {ℓ} : {A : Type ℓ} → (A → Type 0) → Run A → Type 0
Safely P (ok a) = P a
Safely P fault = Unit
Safely P out_of_fuel = Unit

pub bind-Safely {ℓ κ} :
    {A : Type ℓ} {B : Type κ} (P : B → Type 0) (m : Run A) (f : A → Run B)
    → ((a : A) → m ≡ ok a → Safely P (f a))
    → Safely P (m >>= f)
bind-Safely P (ok a) f h = h a refl
bind-Safely P fault f h = tt
bind-Safely P out_of_fuel f h = tt

pub if-Safely {ℓ} :
    {A : Type ℓ} (P : A → Type 0) (b : Bool) (x y : Run A)
    → (b ≡ true → Safely P x)
    → (b ≡ false → Safely P y)
    → Safely P (if b then x else y)
if-Safely P true x y h k = h refl
if-Safely P false x y h k = k refl

pub Safely-ok {ℓ} : {A : Type ℓ} (P : A → Type 0) (m : Run A) {a : A} → Safely P m → m ≡ ok a → P a
Safely-ok P (ok b) h e = subst P (ok-injective e) h
Safely-ok P fault h e = absurd (cc)
Safely-ok P out_of_fuel h e = absurd (cc)

-- What strnlen tells: the text in front of the first NUL, or of the bound.
pub record Measured (p : Bytes) (n k : ℕ) : Type 0 where
  pub front : Bytes
  pub behind : Bytes
  pub splits : p ≡ front ++ behind
  pub no_nul : Absent 0 front
  pub size : length front ≡ k
  pub bound : k ≤ n
  pub ends : k < n → (rest : Bytes) × (behind ≡ 0 ∷ rest)

pub strnlen-Measured : (p : Bytes) (n : ℕ) {k : ℕ} → strnlen p n ≡ ok k → Measured p n k
unfolding strnlen
strnlen-Measured p zero {k} e = record {
  front = [];
  behind = p;
  splits = refl;
  no_nul = tt;
  size = ok-injective e;
  bound = ground arith;
  ends = λ h. absurd (ground arith);
}
strnlen-Measured [] (suc n) e = absurd (cc)
strnlen-Measured (x ∷ p) (suc n) {k} e = elim (Bool-cases (x == 0)) [
  | inl nul ↦ record {
    front = [];
    behind = x ∷ p;
    splits = refl;
    no_nul = tt;
    size = ground arith;
    bound = ground arith;
    ends = λ h. (p, ground arith);
  }
  | inr other ↦ elim (Run-cases (strnlen p n)) [
    | inl (j, m) ↦
        let ih = strnlen-Measured p n m in
        let next : suc j ≡ k = ground arith in
        record {
          front = x ∷ ih.front;
          behind = ih.behind;
          splits = ap (◌∷◌ x) ih.splits;
          no_nul = (ground arith, ih.no_nul);
          size = omega (arith, ih.size, next);
          bound = omega (arith, ih.bound, next);
          ends = λ h. ih.ends (omega (arith, h, next));
        }
    | inr (inl m) ↦ absurd (ground arith)
    | inr (inr m) ↦ absurd (ground arith)
  ]
]

-- The text is what is copied.
pub copy-Measured : {p : Bytes} {n k : ℕ} (m : Measured p n k) → copy p k ≡ ok m.front
copy-Measured m = rw (← m.size, m.splits) (copy-append m.front m.behind)

-- A run that is not cut short gives what holds of its value.
pub Ends-Gives {ℓ} : {A : Type ℓ} (P : A → Type 0) (m : Run A) → Ends m → Safely P m → Gives P m
Ends-Gives P (ok a) e s = s
Ends-Gives P fault e s = tt
Ends-Gives P out_of_fuel e s = e

-- web_root_buf holds the web root, and what the subdomain adds to it.
pub web_root_build-Safely :
    (conf : Conf) (http_req : HttpReq) (root : Bytes)
    → Holds conf.web_root root
    → length root < 128
    → Safely
        (λ p. (below : Bytes) × Holds p (root ++ below) × (length (root ++ below) < 256))
        (web_root_build conf http_req)
unfolding web_root_build
web_root_build-Safely conf http_req root h l =
    let z = length-zeros 256 in
    let rest1 = drop (suc (length root)) (zeros 256) in
    let d1 = length-drop (suc (length root)) (zeros 256) in
    rw
      (
        h.splits,
        strnlen-append root h.rest 128 h.no_nul l,
        copy-append root (0 ∷ h.rest),
        put-append [] root (zeros 256) (omega (arith, z, l)),
      )
      (bind-Safely _ (deref http_req.subdomain) _ (λ c _.
        if-Safely _ (c == 0) _ _
          (λ _. (
            [],
            record {
              rest = rest1;
              splits = ap (λ x. x ++ 0 ∷ rest1) (sym (append-nil root));
              no_nul = rw (append-nil root) h.no_nul;
            },
            omega (arith, length-append root [], l),
          ))
          (λ _. bind-Safely _ (strnlen http_req.subdomain 64) _ (λ n en.
            let m = strnlen-Measured http_req.subdomain 64 en in
            let sub = b'/' ∷ m.front in
            rw
              (
                copy-Measured m,
                put-append root sub (0 ∷ rest1) (omega (arith, z, d1, l, m.size, m.bound)),
              )
              ((
                sub,
                record {
                  rest = drop (suc (length sub)) (0 ∷ rest1);
                  splits = refl;
                  no_nul = Absent-append 0 root sub h.no_nul (omega arith, m.no_nul);
                },
                omega (arith, length-append root sub, l, m.size, m.bound),
              ))))))
