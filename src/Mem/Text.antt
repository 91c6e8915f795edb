-- ===== src/Mem/Text.antt =====
-- Printing: the texts that %s, %u and %lu print, and what snprintf writes into an array.
use Prim.Native.Char.{code}
use Prim.Native.String.{String}
use facows.Prelude.{
  ℕ, zero, suc, ◌+◌, ◌-◌, ◌*◌, ◌/◌, ◌%◌, ◌^◌, ◌≤◌, ◌<◌, ◌≡◌, refl, sym, ap, ◌∙◌, inl, inr, [], ◌∷◌,
  ◌++◌, append_assoc, arith, ltb, ◌==◌, if◌then◌else◌, lt→ltb, Bool-cases, length, take, drop,
  length-append,
}
use facows.Mem.Run.{Run, ok, fault, ◌>>=◌, map_run, Bytes}
use facows.Mem.Libc.{strnlen, copy, store, write, zeros}
use facows.Mem.Laws.{
  Absent, copy-append, strnlen-append, store-append, snoc-append, length-snoc, write-append,
  drop-cons, length-zeros,
}

-- The bytes of a text
abbrev pub codes : String → Bytes
codes String.[] = []
codes (String.◌∷◌ c s) = code c ∷ codes s

-- %lu
unfoldable pub decimal_onto : ℕ → ℕ → Bytes → Bytes
decimal_onto zero n s = s
decimal_onto (suc fuel) n s =
    let more = decimal_onto fuel (n / 10) ((b'0' + n % 10) ∷ s) in
    if ltb n 10 then (b'0' + n) ∷ s else more

-- The digits of an unsigned long, twenty at most.
unfoldable pub decimal : ℕ → Bytes
unfolding decimal_onto
decimal n = decimal_onto 20 n []

-- %s: the bytes before the first NUL, which must stand in the object
unfoldable pub c_str : Bytes → Run Bytes
c_str [] = fault
c_str (c ∷ p) = if c == 0 then ok [] else map_run (◌∷◌ c) (c_str p)

pub c_str-append : (s rest : Bytes) → Absent 0 s → c_str (s ++ 0 ∷ rest) ≡ ok s
unfolding c_str
c_str-append [] rest a = refl
c_str-append (c ∷ s) rest a = ground (arith, c_str-append s rest a.1)

-- `p += snprintf(p, cap, ...)` at the offset `n` of an array, for a text that is printed: the array and
-- the new offset.
unfoldable pub print : ℕ → Bytes × ℕ → Bytes → Run (Bytes × ℕ)
print cap (buf, n) s = write buf n (take (cap - 1) s ++ 0 ∷ []) >>= λ buf. ok (buf, n + length s)

-- An array of `size` bytes that holds the text and is cleared behind it.
unfoldable pub filled : ℕ → Bytes → Bytes × ℕ
filled size s = (s ++ zeros (size - length s), length s)

drop-zeros : (n m : ℕ) → drop n (zeros m) ≡ zeros (m - n)
unfolding zeros
drop-zeros zero m = ap zeros {x = m} (omega arith)
drop-zeros (suc n) zero = ap zeros {x = 0} (omega arith)
drop-zeros (suc n) (suc m) = drop-zeros n m ∙ ap zeros {x = m - n} (omega arith)

pub zeros-suc : {m n : ℕ} → n ≡ suc m → 0 ∷ zeros m ≡ zeros n
unfolding zeros
zeros-suc e = ap zeros (sym e)

pub take_all : (n : ℕ) (s : Bytes) → length s ≤ n → take n s ≡ s
take_all zero [] h = refl
take_all zero (c ∷ s) h = absurd (omega arith)
take_all (suc n) [] h = refl
take_all (suc n) (c ∷ s) h = ap (◌∷◌ c) (take_all n s (omega arith))

-- A text printed behind another, when both fit.
pub print-filled :
    (size : ℕ) (s t : Bytes)
    → length s + length t < size
    → print size (filled size s) t ≡ ok (filled size (s ++ t))
unfolding print filled
print-filled size s t h =
    let l = length-append s t in
    let z = length-zeros (size - length s) in
    let room : length (t ++ 0 ∷ []) ≤ length (zeros (size - length s)) =
      omega (arith, h, z, length-snoc t 0) in
    let rest : 0 ∷ zeros (size - length s - length (t ++ 0 ∷ [])) ≡ zeros (size - length (s ++ t)) =
      zeros-suc (omega (arith, h, l, length-snoc t 0)) in
    rw (
      take_all (size - 1) t (omega (arith, h)),
      write-append (t ++ 0 ∷ []) s (zeros (size - length s)) room,
      drop-zeros,
      snoc-append,
      rest,
      ← append_assoc s t (zeros (size - length (s ++ t))),
      l,
    )

-- A smaller room makes no difference where the text fits it.
pub print_cap :
    (cap size : ℕ) (p : Bytes × ℕ) (t : Bytes)
    → length t < cap
    → cap ≤ size
    → print cap p t ≡ print size p t
unfolding print
print_cap cap size p t h k =
    rw (take_all (cap - 1) t (omega (arith, h)), take_all (size - 1) t (omega (arith, h, k)))

-- Bytes copied behind a text.
pub write-filled :
    (size : ℕ) (s t : Bytes)
    → length s + length t ≤ size
    → write (filled size s).0 (filled size s).1 t ≡ ok (filled size (s ++ t)).0
unfolding filled
write-filled size s t h =
    let l = length-append s t in
    let z = length-zeros (size - length s) in
    let rest : size - length s - length t ≡ size - length (s ++ t) = omega (arith, h, l) in
    rw (
      write-append t s (zeros (size - length s)) (omega (arith, h, z)),
      drop-zeros,
      rest,
      append_assoc s t,
    )

-- The text is found to its end.
pub strnlen-filled :
    (size : ℕ) (s : Bytes)
    → Absent 0 s
    → length s < size
    → strnlen (filled size s).0 size ≡ ok (length s)
unfolding filled
strnlen-filled size s a h =
    let rest : 0 ∷ zeros (size - length s - 1) ≡ zeros (size - length s) =
      zeros-suc (omega (arith, h)) in
    rw⁻¹ rest (strnlen-append s (zeros (size - length s - 1)) size a h)

pub copy-filled : (size : ℕ) (s : Bytes) → copy (filled size s).0 (length s) ≡ ok s
unfolding filled
copy-filled size s = copy-append s (zeros (size - length s))

Absent-decimal_onto : (fuel n : ℕ) (s : Bytes) → Absent 0 s → Absent 0 (decimal_onto fuel n s)
unfolding decimal_onto
Absent-decimal_onto zero n s a = a
Absent-decimal_onto (suc fuel) n s a = elim (Bool-cases (ltb n 10)) [
  | inl one ↦ rw one (omega arith, a)
  | inr more ↦ rw more (Absent-decimal_onto fuel (n / 10) ((b'0' + n % 10) ∷ s) (omega arith, a))
]

length-decimal_onto : (fuel n : ℕ) (s : Bytes) → length (decimal_onto fuel n s) ≤ fuel + length s
unfolding decimal_onto
length-decimal_onto zero n s = omega arith
length-decimal_onto (suc fuel) n s = elim (Bool-cases (ltb n 10)) [
  | inl one ↦ rw one (omega arith)
  | inr more ↦ rw more (omega (arith, length-decimal_onto fuel (n / 10) ((b'0' + n % 10) ∷ s)))
]

-- The digits are no NUL, and twenty at most.
pub Absent-decimal : (n : ℕ) → Absent 0 (decimal n)
unfolding decimal
Absent-decimal n = Absent-decimal_onto 20 n [] tt

pub length-decimal : (n : ℕ) → length (decimal n) ≤ 20
unfolding decimal
length-decimal n = length-decimal_onto 20 n []

-- `memcpy(p, s, n); p += n; *p = '\0'` at the offset `n` of an array
unfoldable pub put : Bytes × ℕ → Bytes → Run (Bytes × ℕ)
put (buf, n) s =
    write buf n s >>= λ buf. store buf (n + length s) 0 >>= λ buf. ok (buf, n + length s)

pub put-append :
    (s t post : Bytes)
    → length t < length post
    → put (s ++ post, length s) t ≡ ok ((s ++ t) ++ 0 ∷ drop (suc (length t)) post, length (s ++ t))
unfolding put
put-append s t post h =
    let (y, e) = drop-cons (length t) post h in
    rw (
      write-append t s post (omega (arith, h)),
      e,
      ← append_assoc s t (y ∷ drop (suc (length t)) post),
      ← length-append s t,
      store-append (s ++ t) (drop (suc (length t)) post) y 0,
    )

abbrev power_ten : ℕ → ℕ
power_ten zero = 10
power_ten (suc k) = 10 * power_ten k

length-decimal_small :
    (fuel k n : ℕ) (s : Bytes) → n < power_ten k → length (decimal_onto fuel n s) ≤ suc k + length s
unfolding decimal_onto
length-decimal_small zero k n s h = omega arith
length-decimal_small (suc fuel) zero n s h = rw (lt→ltb n 10 h) (omega arith)
length-decimal_small (suc fuel) (suc k) n s h = elim (Bool-cases (ltb n 10)) [
  | inl one ↦ rw one (omega arith)
  | inr more ↦
      let less : n / 10 < power_ten k = omega (arith, h) in
      rw more (omega (arith, length-decimal_small fuel k (n / 10) ((b'0' + n % 10) ∷ s) less))
]

-- A port has five digits at most.
pub length-decimal_port : (n : ℕ) → n < 2 ^ 16 → length (decimal n) ≤ 5
unfolding decimal
length-decimal_port n h = length-decimal_small 20 4 n [] (omega (arith, h))
