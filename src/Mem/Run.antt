-- ===== src/Mem/Run.antt =====
-- The result of code that reads and writes memory.
use facows.Prelude.{ℕ, ◌≡◌, refl, ap, ◌⊎◌, inl, inr, List}

-- `fault` is an access outside the object, `out_of_fuel` a loop that the model cut short.
pub data Run {ℓ} (A : Type ℓ) : Type ℓ where
  ok : A → Run A
  fault : Run A
  out_of_fuel : Run A

infixl 5 ◌>>=◌
abbrev pub ◌>>=◌ {ℓ κ} : {A : Type ℓ} {B : Type κ} → Run A → (A → Run B) → Run B
ok a >>= f = f a
fault >>= f = fault
out_of_fuel >>= f = out_of_fuel

abbrev pub map_run {ℓ κ} : {A : Type ℓ} {B : Type κ} → (A → B) → Run A → Run B
map_run f (ok a) = ok (f a)
map_run f fault = fault
map_run f out_of_fuel = out_of_fuel

-- Inversion of a successful bind.
pub bind-eq-ok {ℓ κ} :
    {A : Type ℓ} {B : Type κ} (m : Run A) (f : A → Run B) {b : B}
    → (m >>= f) ≡ ok b
    → (a : A) × (m ≡ ok a) × (f a ≡ ok b)
bind-eq-ok (ok a) f h = (a, refl, h)
bind-eq-ok fault f h = cc
bind-eq-ok out_of_fuel f h = cc

abbrev pub Bytes : Type 0
Bytes = List ℕ

-- To split on the result of an access and keep the equation.
pub Run-cases {ℓ} :
    {A : Type ℓ} (m : Run A) → ((a : A) × (m ≡ ok a)) ⊎ (m ≡ fault) ⊎ (m ≡ out_of_fuel)
Run-cases (ok a) = inl (a, refl)
Run-cases fault = inr (inl refl)
Run-cases out_of_fuel = inr (inr refl)

abbrev pub run_or {ℓ} : {A : Type ℓ} → A → Run A → A
run_or d (ok a) = a
run_or d fault = d
run_or d out_of_fuel = d

-- Equal results are equal values.
pub ok-injective {ℓ} : {A : Type ℓ} {a b : A} → ok a ≡ ok b → a ≡ b
ok-injective {a} e = ap (run_or a) e
