-- ===== src/Mem/Ends.antt =====
-- Code that ends: it gives a result or faults. The memory functions do, and so does what is put
-- together from code that does.
use facows.Prelude.{
  ℕ, zero, suc, ◌+◌, ◌≡◌, refl, ap, subst, Bool, true, false, Option, none, some, [], ◌∷◌, arith,
  ltb, ◌==◌, if◌then◌else◌, length,
}
use facows.Mem.Run.{Run, ok, fault, out_of_fuel, ◌>>=◌, map_run, Bytes, ok-injective}
use facows.Mem.Libc.{
  memchr, memrchr, memcmp, strnlen, copy, advance, deref, store, write, copy_text, memmem, shift,
}

-- The run is not cut short.
abbrev pub Ends {ℓ} : {A : Type ℓ} → Run A → Type 0
Ends (ok a) = Unit
Ends fault = Unit
Ends out_of_fuel = ⊥

-- A value that the run gives has the property, and the run is not cut short.
abbrev pub Gives {ℓ} : {A : Type ℓ} → (A → Type 0) → Run A → Type 0
Gives P (ok a) = P a
Gives P fault = Unit
Gives P out_of_fuel = ⊥

pub Gives-Ends {ℓ} : {A : Type ℓ} (P : A → Type 0) (m : Run A) → Gives P m → Ends m
Gives-Ends P (ok a) h = tt
Gives-Ends P fault h = tt
Gives-Ends P out_of_fuel h = absurd h

pub Gives-ok {ℓ} : {A : Type ℓ} (P : A → Type 0) (m : Run A) {a : A} → Gives P m → m ≡ ok a → P a
Gives-ok P (ok b) h e = subst P (ok-injective e) h
Gives-ok P fault h e = absurd (cc)
Gives-ok P out_of_fuel h e = absurd h

pub bind-Gives {ℓ κ} :
    {A : Type ℓ} {B : Type κ} (Q : B → Type 0) (m : Run A) (f : A → Run B)
    → Ends m
    → ((a : A) → m ≡ ok a → Gives Q (f a))
    → Gives Q (m >>= f)
bind-Gives Q (ok a) f h k = k a refl
bind-Gives Q fault f h k = tt
bind-Gives Q out_of_fuel f h k = absurd h

pub bind-Ends {ℓ κ} :
    {A : Type ℓ} {B : Type κ} (m : Run A) (f : A → Run B)
    → Ends m
    → ((a : A) → m ≡ ok a → Ends (f a))
    → Ends (m >>= f)
bind-Ends (ok a) f h k = k a refl
bind-Ends fault f h k = tt
bind-Ends out_of_fuel f h k = absurd h

pub map_run-Ends {ℓ κ} :
    {A : Type ℓ} {B : Type κ} (f : A → B) (m : Run A) → Ends m → Ends (map_run f m)
map_run-Ends f (ok a) h = tt
map_run-Ends f fault h = tt
map_run-Ends f out_of_fuel h = absurd h

pub map_run-Gives {ℓ κ} :
    {A : Type ℓ} {B : Type κ} (P : A → Type 0) (Q : B → Type 0) (f : A → B) (m : Run A)
    → Gives P m
    → ((a : A) → P a → Q (f a))
    → Gives Q (map_run f m)
map_run-Gives P Q f (ok a) h k = k a h
map_run-Gives P Q f fault h k = tt
map_run-Gives P Q f out_of_fuel h k = absurd h

pub if-Ends {ℓ} :
    {A : Type ℓ} (b : Bool) (x y : Run A)
    → (b ≡ true → Ends x)
    → (b ≡ false → Ends y)
    → Ends (if b then x else y)
if-Ends true x y h k = h refl
if-Ends false x y h k = k refl

pub if-Gives {ℓ} :
    {A : Type ℓ} (Q : A → Type 0) (b : Bool) (x y : Run A)
    → (b ≡ true → Gives Q x)
    → (b ≡ false → Gives Q y)
    → Gives Q (if b then x else y)
if-Gives Q true x y h k = h refl
if-Gives Q false x y h k = k refl

pub option-Ends {ℓ κ} :
    {A : Type ℓ} {B : Type κ} (o : Option A) (x : Run B) (f : A → Run B)
    → Ends x
    → ((a : A) → Ends (f a))
    → Ends (elim o [ none ↦ x | some a ↦ f a ])
option-Ends none x f h k = h
option-Ends (some a) x f h k = k a

pub option-Gives {ℓ κ} :
    {A : Type ℓ} {B : Type κ} (Q : B → Type 0) (o : Option A) (x : Run B) (f : A → Run B)
    → Gives Q x
    → ((a : A) → Gives Q (f a))
    → Gives Q (elim o [ none ↦ x | some a ↦ f a ])
option-Gives Q none x f h k = h
option-Gives Q (some a) x f h k = k a

pub memchr-Ends : (p : Bytes) (c n : ℕ) → Ends (memchr p c n)
unfolding memchr
memchr-Ends p c zero = tt
memchr-Ends [] c (suc n) = tt
memchr-Ends (x ∷ p) c (suc n) =
    if-Ends (x == c) _ _ (λ _. tt) (λ _. map_run-Ends shift (memchr p c n) (memchr-Ends p c n))

pub memcmp-Ends : (p q : Bytes) (n : ℕ) → Ends (memcmp p q n)
unfolding memcmp
memcmp-Ends p q zero = tt
memcmp-Ends [] q (suc n) = tt
memcmp-Ends (x ∷ p) [] (suc n) = tt
memcmp-Ends (x ∷ p) (y ∷ q) (suc n) = map_run-Ends _ (memcmp p q n) (memcmp-Ends p q n)

pub strnlen-Ends : (p : Bytes) (n : ℕ) → Ends (strnlen p n)
unfolding strnlen
strnlen-Ends p zero = tt
strnlen-Ends [] (suc n) = tt
strnlen-Ends (x ∷ p) (suc n) =
    if-Ends (x == 0) _ _ (λ _. tt) (λ _. map_run-Ends suc (strnlen p n) (strnlen-Ends p n))

pub copy-Ends : (p : Bytes) (n : ℕ) → Ends (copy p n)
unfolding copy
copy-Ends p zero = tt
copy-Ends [] (suc n) = tt
copy-Ends (x ∷ p) (suc n) = map_run-Ends (◌∷◌ x) (copy p n) (copy-Ends p n)

pub advance-Ends : (p : Bytes) (n : ℕ) → Ends (advance p n)
unfolding advance
advance-Ends p zero = tt
advance-Ends [] (suc n) = tt
advance-Ends (x ∷ p) (suc n) = advance-Ends p n

pub deref-Ends : (p : Bytes) → Ends (deref p)
deref-Ends [] = tt
deref-Ends (x ∷ p) = tt

pub store-Ends : (p : Bytes) (i v : ℕ) → Ends (store p i v)
unfolding store
store-Ends [] i v = tt
store-Ends (x ∷ p) zero v = tt
store-Ends (x ∷ p) (suc i) v = map_run-Ends (◌∷◌ x) (store p i v) (store-Ends p i v)

pub write-Ends : (p : Bytes) (i : ℕ) (s : Bytes) → Ends (write p i s)
unfolding write
write-Ends p i [] = tt
write-Ends p i (c ∷ s) =
    bind-Ends (store p i c) _ (store-Ends p i c) (λ q _. write-Ends q (i + 1) s)

pub copy_text-Ends : (dst src : Bytes) (n : ℕ) → Ends (copy_text dst src n)
unfolding copy_text
copy_text-Ends dst src n =
    bind-Ends (copy src n) _ (copy-Ends src n)
      (λ s _. bind-Ends (write dst 0 s) _ (write-Ends dst 0 s) (λ d _. store-Ends d n 0))

-- What is left behind a step.
pub length-advance : (p : Bytes) (n : ℕ) {q : Bytes} → advance p n ≡ ok q → length q + n ≡ length p
unfolding advance
length-advance p zero e = omega (arith, ap length (ok-injective e))
length-advance [] (suc n) e = absurd (cc)
length-advance (x ∷ p) (suc n) e = omega (arith, length-advance p n e)

pub memmem-Ends : (p : Bytes) (n : ℕ) (q : Bytes) → Ends (memmem p n q)
unfolding memmem
memmem-Ends p zero q = tt
memmem-Ends [] (suc n) q = tt
memmem-Ends (x ∷ p) (suc n) q =
    if-Ends (ltb (suc n) (length q)) _ _ (λ _. tt)
      (λ _. bind-Ends (memcmp (x ∷ p) q (length q)) _ (memcmp-Ends (x ∷ p) q (length q)) (λ e _.
        if-Ends e _ _ (λ _. tt) (λ _. map_run-Ends shift (memmem p n q) (memmem-Ends p n q))))

pub memrchr-Ends : (p : Bytes) (c n : ℕ) → Ends (memrchr p c n)
unfolding memrchr
memrchr-Ends p c zero = tt
memrchr-Ends [] c (suc n) = tt
memrchr-Ends (x ∷ p) c (suc n) = bind-Ends (memrchr p c n) _ (memrchr-Ends p c n) (λ _ _. tt)
