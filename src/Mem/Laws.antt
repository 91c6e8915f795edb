-- ===== src/Mem/Laws.antt =====
-- Laws of the memory functions.
use facows.Prelude.{
  ℕ, zero, suc, ◌+◌, ◌≤◌, ◌<◌, ◌≡◌, refl, ap, ◌∙◌, ◌≢◌, inl, inr, true, false, Option, none, some,
  [], ◌∷◌, ◌++◌, arith, ◌==◌, Bool-cases, length, drop, length-append,
}
use facows.Mem.Run.{Run, ok, fault, out_of_fuel, map_run, Bytes, Run-cases}
use facows.Mem.Libc.{
  memchr, memcmp, strnlen, copy, advance, store, write, copy_text, text, zeros, shift,
}

-- No byte of the text is `c`.
abbrev pub Absent : ℕ → Bytes → Type 0
Absent c [] = Unit
Absent c (x ∷ s) = (x ≢ c) × Absent c s

-- The byte stands behind `s`, within the first `n`.
pub memchr-append :
    (s rest : Bytes) (c n : ℕ)
    → Absent c s
    → length s < n
    → memchr (s ++ c ∷ rest) c n ≡ ok (some (length s))
unfolding memchr
memchr-append s rest c zero a h = absurd (omega arith)
memchr-append [] rest c (suc n) a h = ground arith
memchr-append (x ∷ s) rest c (suc n) a h = ground (arith, memchr-append s rest c n a.1)

-- No byte of a long enough prefix is `c`.
pub memchr-Absent :
    (s rest : Bytes) (c n : ℕ) → Absent c s → n ≤ length s → memchr (s ++ rest) c n ≡ ok none
unfolding memchr
memchr-Absent s rest c zero a h = refl
memchr-Absent [] rest c (suc n) a h = absurd (omega arith)
memchr-Absent (x ∷ s) rest c (suc n) a h = ground (arith, memchr-Absent s rest c n a.1)

-- What a byte found says of the text.
pub record Found (p : Bytes) (c n k : ℕ) : Type 0 where
  pub before : Bytes
  pub after : Bytes
  pub splits : p ≡ before ++ c ∷ after
  pub absent : Absent c before
  pub offset : length before ≡ k
  pub within : k < n

Found-suc :
    {p : Bytes} {c n k : ℕ} (x : ℕ) → x ≢ c → Found p c n k → Found (x ∷ p) c (suc n) (suc k)
Found-suc x ne f = record {
  before = x ∷ f.before;
  after = f.after;
  splits = rw f.splits;
  absent = (ne, f.absent);
  offset = omega (arith, f.offset);
  within = omega (arith, f.within);
}

Found-shift :
    {p : Bytes} {c n k : ℕ} (x : ℕ) (m : Run (Option ℕ))
    → x ≢ c
    → ((j : ℕ) → m ≡ ok (some j) → Found p c n j)
    → map_run shift m ≡ ok (some k)
    → Found (x ∷ p) c (suc n) k
Found-shift x (ok none) ne ih e = absurd (cc)
Found-shift {p} {c} {n} {k} x (ok (some j)) ne ih e =
    let s : suc j ≡ k = ground arith in subst' s (Found-suc x ne (ih j refl))
  where
    subst' : {a b : ℕ} → a ≡ b → Found (x ∷ p) c (suc n) a → Found (x ∷ p) c (suc n) b
    subst' q f = rw q at f
Found-shift x fault ne ih e = absurd (cc)
Found-shift x Run.out_of_fuel ne ih e = absurd (cc)

pub memchr-Found : (p : Bytes) (c n : ℕ) {k : ℕ} → memchr p c n ≡ ok (some k) → Found p c n k
unfolding memchr
memchr-Found p c zero e = absurd (cc)
memchr-Found [] c (suc n) e = absurd (cc)
memchr-Found (x ∷ p) c (suc n) {k} e = elim (Bool-cases (x == c)) [
  | inl h ↦ record {
    before = [];
    after = p;
    splits = ground arith;
    absent = tt;
    offset = ground arith;
    within = ground arith;
  }
  | inr h ↦ Found-shift x (memchr p c n) (ground arith) (λ j q. memchr-Found p c n q) (rw h at e)
]

pub copy-append : (s rest : Bytes) → copy (s ++ rest) (length s) ≡ ok s
unfolding copy
copy-append [] rest = refl
copy-append (x ∷ s) rest = rw (copy-append s rest)

pub advance-append : (s rest : Bytes) → advance (s ++ rest) (length s) ≡ ok rest
unfolding advance
advance-append [] rest = refl
advance-append (x ∷ s) rest = advance-append s rest

-- A NUL-terminated text measured with room for its terminator.
pub strnlen-append :
    (s rest : Bytes) (n : ℕ) → Absent 0 s → length s < n → strnlen (s ++ 0 ∷ rest) n ≡ ok (length s)
unfolding strnlen
strnlen-append s rest zero a h = absurd (omega arith)
strnlen-append [] rest (suc n) a h = refl
strnlen-append (x ∷ s) rest (suc n) a h = ground (arith, strnlen-append s rest n a.1)

-- Comparing a text with itself, whatever follows on either side.
pub memcmp-append : (s p q : Bytes) → memcmp (s ++ p) (s ++ q) (length s) ≡ ok true
unfolding memcmp
memcmp-append [] p q = refl
memcmp-append (x ∷ s) p q = ground (arith, memcmp-append s p q)

pub store-append :
    (pre post : Bytes) (y v : ℕ) → store (pre ++ y ∷ post) (length pre) v ≡ ok (pre ++ v ∷ post)
unfolding store
store-append [] post y v = refl
store-append (x ∷ pre) post y v = rw (store-append pre post y v)

pub snoc-append : (pre post : Bytes) (v : ℕ) → (pre ++ v ∷ []) ++ post ≡ pre ++ v ∷ post
snoc-append [] post v = refl
snoc-append (x ∷ pre) post v = ap (◌∷◌ x) (snoc-append pre post v)

pub length-snoc : (pre : Bytes) (v : ℕ) → length (pre ++ v ∷ []) ≡ length pre + 1
length-snoc pre v = omega (arith, length-append pre (v ∷ []))

pub write-append :
    (s pre post : Bytes)
    → length s ≤ length post
    → write (pre ++ post) (length pre) s ≡ ok (pre ++ (s ++ drop (length s) post))
unfolding write
write-append [] pre post h = refl
write-append (c ∷ s) pre [] h = absurd (omega arith)
write-append (c ∷ s) pre (y ∷ post) h = rw (
  store-append pre post y c,
  ← snoc-append pre post c,
  ← length-snoc pre c,
  write-append s (pre ++ c ∷ []) post (omega arith),
  snoc-append,
)

pub drop-cons : (n : ℕ) (p : Bytes) → n < length p → (y : ℕ) × (drop n p ≡ y ∷ drop (suc n) p)
drop-cons n [] h = absurd (omega arith)
drop-cons zero (x ∷ p) h = (x, refl)
drop-cons (suc n) (x ∷ p) h = drop-cons n p (omega arith)

-- An array assigned a text that fits with its terminator.
pub copy_text-append :
    (s rest dst : Bytes)
    → length s < length dst
    → copy_text dst (s ++ rest) (length s) ≡ ok (s ++ 0 ∷ drop (suc (length s)) dst)
unfolding copy_text
copy_text-append s rest dst h =
    let (y, e) = drop-cons (length s) dst h in
    rw (
      copy-append s rest,
      write-append s [] dst (omega arith),
      e,
      store-append s (drop (suc (length s)) dst) y 0,
    )

-- A write past the end of the array.
pub store_fault : (p : Bytes) (i v : ℕ) → length p ≤ i → store p i v ≡ fault
unfolding store
store_fault [] i v h = refl
store_fault (x ∷ p) zero v h = absurd (omega arith)
store_fault (x ∷ p) (suc i) v h = rw (store_fault p i v (omega arith))

pub length-zeros : (n : ℕ) → length (zeros n) ≡ n
unfolding zeros
length-zeros zero = refl
length-zeros (suc n) = ap suc (length-zeros n)

-- What an array holds: the text, a NUL, and whatever was there before.
pub record Holds (p s : Bytes) : Type 0 where
  pub rest : Bytes
  pub splits : p ≡ s ++ 0 ∷ rest
  pub no_nul : Absent 0 s

pub text-append : (s rest : Bytes) → Absent 0 s → text (s ++ 0 ∷ rest) ≡ s
unfolding text
text-append [] rest a = refl
text-append (c ∷ s) rest a = ground (arith, text-append s rest a.1)

pub Absent-append : (c : ℕ) (s t : Bytes) → Absent c s → Absent c t → Absent c (s ++ t)
Absent-append c [] t a b = b
Absent-append c (x ∷ s) t a b = (a.0, Absent-append c s t a.1 b)

pub length-store : (p : Bytes) (i v : ℕ) {q : Bytes} → store p i v ≡ ok q → length q ≡ length p
unfolding store
length-store [] i v e = absurd (cc)
length-store (x ∷ p) zero v e = ground arith
length-store (x ∷ p) (suc i) v e = elim (Run-cases (store p i v)) [
  | inl (r, s) ↦ ground (arith, length-store p i v s)
  | inr (inl s) ↦ absurd (ground arith)
  | inr (inr s) ↦ absurd (ground arith)
]

-- Equal bytes: the first `length s` bytes are those of `s`.
pub memcmp-eq-true :
    (s p q : Bytes) → memcmp p (s ++ q) (length s) ≡ ok true → (t : Bytes) × (p ≡ s ++ t)
unfolding memcmp
memcmp-eq-true [] p q e = (p, refl)
memcmp-eq-true (y ∷ s) [] q e = absurd (cc)
memcmp-eq-true (y ∷ s) (x ∷ p) q e = elim (Run-cases (memcmp p (s ++ q) (length s))) [
  | inl (true, m) ↦ let (t, r) = memcmp-eq-true s p q m in (t, ground arith)
  | inl (false, m) ↦ absurd (ground arith)
  | inr (inl m) ↦ absurd (ground arith)
  | inr (inr m) ↦ absurd (ground arith)
]

-- A text found in front of another.
pub text-prefix : (s t : Bytes) → Absent 0 s → text (s ++ t) ≡ s ++ text t
unfolding text
text-prefix [] t a = refl
text-prefix (c ∷ s) t a = ground (arith, text-prefix s t a.1)

store_no_fuel : (p : Bytes) (i v : ℕ) → store p i v ≢ out_of_fuel
unfolding store
store_no_fuel [] i v e = cc
store_no_fuel (x ∷ p) zero v e = cc
store_no_fuel (x ∷ p) (suc i) v e = elim (Run-cases (store p i v)) [
  | inl (d, ed) ↦ ground arith
  | inr (inl ed) ↦ ground arith
  | inr (inr ed) ↦ store_no_fuel p i v ed
]

pub length-write :
    (p : Bytes) (i : ℕ) (s : Bytes) {q : Bytes} → write p i s ≡ ok q → length q ≡ length p
unfolding write
length-write p i [] e = ground arith
length-write p i (c ∷ s) {q} e = elim (Run-cases (store p i c)) [
  | inl (d, ed) ↦ length-write d (i + 1) s {q = q} (ground arith) ∙ length-store p i c ed
  | inr (inl ed) ↦ absurd (ground arith)
  | inr (inr ed) ↦ absurd (ground arith)
]

write_no_fuel : (p : Bytes) (i : ℕ) (s : Bytes) → write p i s ≢ out_of_fuel
unfolding write
write_no_fuel p i [] e = cc
write_no_fuel p i (c ∷ s) e = elim (Run-cases (store p i c)) [
  | inl (d, ed) ↦ write_no_fuel d (i + 1) s (ground arith)
  | inr (inl ed) ↦ ground arith
  | inr (inr ed) ↦ store_no_fuel p i c ed
]

-- A text that an array does not hold, with its terminator, is written past the end.
pub copy_text_over :
    (dst s rest : Bytes) → length dst ≤ length s → copy_text dst (s ++ rest) (length s) ≡ fault
unfolding copy_text
copy_text_over dst s rest h = elim (Run-cases (write dst 0 s)) [
  | inl (d, ed) ↦
      let over : length d ≤ length s = omega (arith, length-write dst 0 s ed, h) in
      rw (copy-append s rest, ed) (store_fault d (length s) 0 over)
  | inr (inl ed) ↦ rw (copy-append s rest, ed)
  | inr (inr ed) ↦ absurd (write_no_fuel dst 0 s ed)
]

-- A byte that stands nowhere in an object shorter than the bound.
pub memchr_over : (p : Bytes) (c n : ℕ) → Absent c p → length p < n → memchr p c n ≡ fault
unfolding memchr
memchr_over p c zero a h = absurd (omega arith)
memchr_over [] c (suc n) a h = refl
memchr_over (x ∷ p) c (suc n) a h = ground (arith, memchr_over p c n a.1)
