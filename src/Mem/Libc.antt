-- ===== src/Mem/Libc.antt =====
-- The functions of <string.h> that the program calls, on pointers. A read past the end of the
-- object is a fault; memchr and strnlen stop at the byte that they look for.
use facows.Prelude.{
  ℕ, zero, suc, ◌+◌, Bool, true, ◌&&◌, Option, none, some, [], ◌∷◌, ltb, leb, ◌==◌, if◌then◌else◌,
  length,
}
use facows.Mem.Run.{Run, ok, fault, ◌>>=◌, map_run, Bytes}

abbrev pub shift : Option ℕ → Option ℕ
shift none = none
shift (some k) = some (suc k)

-- The offset of the first `c` among the first `n` bytes.
unfoldable pub memchr : Bytes → ℕ → ℕ → Run (Option ℕ)
memchr p c zero = ok none
memchr [] c (suc n) = fault
memchr (x ∷ p) c (suc n) = if x == c then ok (some 0) else map_run shift (memchr p c n)

-- Whether the first `n` bytes are equal: `memcmp(p, q, n) == 0`. All of them must be readable.
unfoldable pub memcmp : Bytes → Bytes → ℕ → Run Bool
memcmp p q zero = ok true
memcmp [] q (suc n) = fault
memcmp (x ∷ p) [] (suc n) = fault
memcmp (x ∷ p) (y ∷ q) (suc n) = map_run (λ r. x == y && r) (memcmp p q n)

-- The bytes before the first NUL, `n` at most.
unfoldable pub strnlen : Bytes → ℕ → Run ℕ
strnlen p zero = ok 0
strnlen [] (suc n) = fault
strnlen (x ∷ p) (suc n) = if x == 0 then ok 0 else map_run suc (strnlen p n)

-- The `n` bytes that a memcpy from `p` reads.
unfoldable pub copy : Bytes → ℕ → Run Bytes
copy p zero = ok []
copy [] (suc n) = fault
copy (x ∷ p) (suc n) = map_run (◌∷◌ x) (copy p n)

-- `p + n`, at most one past the end of the object.
unfoldable pub advance : Bytes → ℕ → Run Bytes
advance p zero = ok p
advance [] (suc n) = fault
advance (x ∷ p) (suc n) = advance p n

-- The offset of the last `c` among the first `n` bytes.
unfoldable pub memrchr : Bytes → ℕ → ℕ → Run (Option ℕ)
memrchr p c zero = ok none
memrchr [] c (suc n) = fault
memrchr (x ∷ p) c (suc n) = memrchr p c n >>= λ r.
    ok (elim r [ some k ↦ some (suc k) | none ↦ if x == c then some 0 else none ])

-- The offset of the first occurrence of the needle in the first `n` bytes.
unfoldable pub memmem : Bytes → ℕ → Bytes → Run (Option ℕ)
unfolding memcmp
memmem p zero q = ok (if leb (length q) 0 then some 0 else none)
memmem [] (suc n) q = fault
memmem (x ∷ p) (suc n) q =
    let rest = map_run shift (memmem p n q) in
    if ltb (suc n) (length q)
    then ok none
    else memcmp (x ∷ p) q (length q) >>= λ e. if e then ok (some 0) else rest

-- `*p`
abbrev pub deref : Bytes → Run ℕ
deref [] = fault
deref (x ∷ p) = ok x

-- `p[i] = v`
unfoldable pub store : Bytes → ℕ → ℕ → Run Bytes
store [] i v = fault
store (x ∷ p) zero v = ok (v ∷ p)
store (x ∷ p) (suc i) v = map_run (◌∷◌ x) (store p i v)

-- `memcpy(p + i, s, length s)`
unfoldable pub write : Bytes → ℕ → Bytes → Run Bytes
unfolding store
write p i [] = ok p
write p i (c ∷ s) = store p i c >>= λ q. write q (i + 1) s

-- `memcpy(dst, src, n); dst[n] = '\0';`
unfoldable pub copy_text : Bytes → Bytes → ℕ → Run Bytes
unfolding copy write
copy_text dst src n = copy src n >>= λ s. write dst 0 s >>= λ d. store d n 0

-- The text that an array holds: its bytes before the first NUL.
unfoldable pub text : Bytes → Bytes
text [] = []
text (c ∷ p) = let rest = text p in if c == 0 then [] else c ∷ rest

-- An array that memset has cleared.
unfoldable pub zeros : ℕ → Bytes
zeros zero = []
zeros (suc n) = 0 ∷ zeros n
