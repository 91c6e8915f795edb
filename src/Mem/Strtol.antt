-- ===== src/Mem/Strtol.antt =====
-- strtol of <stdlib.h> to the base 10, on a pointer: the value and the offset where it stopped.
use facows.Prelude.{
  ℕ, suc, ◌+◌, ◌-◌, ◌*◌, ◌^◌, min, Bool, true, false, ◌&&◌, ◌||◌, [], ◌∷◌, leb, ◌==◌, if◌then◌else◌,
  ℤ, pos, negate_ℕ,
}
use facows.Mem.Run.{Run, ok, fault, ◌>>=◌, map_run, Bytes}

-- isspace, in the C locale
abbrev pub is_space : ℕ → Bool
is_space c = c == 32 || leb 9 c && leb c 13

abbrev pub is_digit : ℕ → Bool
is_digit c = leb b'0' c && leb c b'9'

-- The number of white-space bytes, and what follows them.
unfoldable pub skip_blank : Bytes → Run (ℕ × Bytes)
skip_blank [] = fault
skip_blank (c ∷ p) =
    let rest = map_run (λ r. (suc r.0, r.1)) (skip_blank p) in
    if is_space c then rest else ok (0, c ∷ p)

-- The value of the digits, put behind `acc`, and their number.
unfoldable pub digits : Bytes → ℕ → Run (ℕ × ℕ)
digits [] acc = fault
digits (c ∷ p) acc =
    let rest = map_run (λ r. (r.0, suc r.1)) (digits p (acc * 10 + (c - b'0'))) in
    if is_digit c then rest else ok (acc, 0)

-- The value, cut to the range of a long.
abbrev pub saturate : Bool → ℕ → ℤ
saturate true v = negate_ℕ (min v (2 ^ 63))
saturate false v = pos (min v (2 ^ 63 - 1))

-- Without digits the value is 0 and nothing is consumed.
abbrev pub conclude : Bool → ℕ → ℕ × ℕ → ℤ × ℕ
conclude negative before (v, k) = if k == 0 then (pos 0, 0) else (saturate negative v, before + k)

-- Behind the white space: an optional sign, then the digits.
unfoldable pub strtol_signed : ℕ → Bytes → Run (ℤ × ℕ)
strtol_signed before [] = fault
strtol_signed before (c ∷ p) =
    if c == b'-'
    then map_run (conclude true (before + 1)) (digits p 0)
    else if c == b'+'
    then map_run (conclude false (before + 1)) (digits p 0)
    else map_run (conclude false before) (digits (c ∷ p) 0)

unfoldable pub strtol : Bytes → Run (ℤ × ℕ)
strtol p = skip_blank p >>= λ r. strtol_signed r.0 r.1
