-- ===== src/File/Decode.antt =====
-- Percent-decoding: _raw_path_build against a reference decoder, and the reference against the
-- encodings of a text.
use facows.File.{hex_pair, raw_loop, chr_to_hex, join_hex}
use facows.Mem.Laws.{Absent}
use facows.Prelude.{
  ℕ, zero, suc, ◌+◌, ◌-◌, ◌*◌, ◌/◌, ◌%◌, ◌≤◌, ◌<◌, ◌≡◌, refl, ◌∙◌, ◌≢◌, ◌⊎◌, inl, inr, Bool, true,
  ◌&&◌, Option, none, some, [], ◌∷◌, ◌++◌, arith, leb, ◌==◌, if◌then◌else◌, Bool-cases, length, pos,
  negsuc,
}
use facows.Mem.Run.{ok, fault, out_of_fuel, ◌>>=◌, Bytes, Run-cases}
use facows.Mem.Libc.{store}

-- The value of a hexadecimal digit, in either case.
unfoldable pub digit_value : ℕ → Option ℕ
digit_value c =
    if leb b'0' c && leb c b'9'
    then some (c - b'0')
    else if leb b'A' c && leb c b'F'
    then some (10 + (c - b'A'))
    else if leb b'a' c && leb c b'f'
    then some (10 + (c - b'a'))
    else none

-- The byte that two hexadecimal digits stand for, the first one counting for sixteen.
unfoldable pub byte_value : ℕ → ℕ → Option ℕ
byte_value hi lo = elim (digit_value hi) [
  | none ↦ none
  | some x ↦ elim (digit_value lo) [ none ↦ none | some y ↦ some (16 * x + y) ]
]

-- The text that a path stands for. A `%` without two hexadecimal digits stands for itself.
unfoldable pub decode : Bytes → Bytes
decode [] = []
decode (c ∷ []) = c ∷ []
decode (c ∷ a ∷ []) = c ∷ a ∷ []
decode (c ∷ a ∷ b ∷ p) =
    let next = c ∷ decode (a ∷ b ∷ p) in
    let skip = λ (hex : ℕ). hex ∷ decode p in
    if c == b'%' then (elim (byte_value a b) [ none ↦ next | some hex ↦ skip hex ]) else next

-- Whether each byte below `n` is put together from its two digits.
joins : ℕ → Bool
joins zero = true
joins (suc z) = joins z && join_hex (z / 16) (z % 16) == z

joins_sound : (n : ℕ) → joins n ≡ true → (z : ℕ) → z < n → join_hex (z / 16) (z % 16) ≡ z
unfolding joins
joins_sound zero every z below = absurd (omega arith)
joins_sound (suc n) every z below = ground (arith, joins_sound n (ground arith) z)

joins_all : joins 256 ≡ true
unfolding joins
joins_all = refl

pub join_hex-digits : (x y : ℕ) → x < 16 → y < 16 → join_hex x y ≡ 16 * x + y
join_hex-digits x y hx hy =
    let q : (16 * x + y) / 16 ≡ x = omega arith in
    let r : (16 * x + y) % 16 ≡ y = omega arith in
    rw (q, r) at (joins_sound 256 joins_all (16 * x + y) (omega arith))

-- _chr_to_hex gives a value below 16, that of the digit, or a failure for what is none.
chr_to_hex-digit_value :
    (c : ℕ)
    → ((n : ℕ) × (chr_to_hex c ≡ negsuc n) × (digit_value c ≡ none))
      ⊎ ((v : ℕ) × (chr_to_hex c ≡ pos v) × (digit_value c ≡ some v) × (v < 16))
unfolding chr_to_hex digit_value
chr_to_hex-digit_value c = elim (Bool-cases (leb b'0' c && leb c b'9')) [
  | inl number ↦ inr (c - b'0', ground arith, ground arith, ground arith)
  | inr no_number ↦ elim (Bool-cases (leb b'A' c && leb c b'F')) [
    | inl upper ↦ inr (c - 0x37, ground arith, ground arith, ground arith)
    | inr no_upper ↦ elim (Bool-cases (leb b'a' c && leb c b'f')) [
      | inl lower ↦ inr (c - 0x57, ground arith, ground arith, ground arith)
      | inr no_lower ↦ inl (
        0,
        rw (no_number, no_upper, no_lower, chr_to_hex) refl,
        rw (no_number, no_upper, no_lower, digit_value) refl,
      )
    ]
  ]
]

pub hex_pair-byte_value : (a b : ℕ) → hex_pair a b ≡ byte_value a b
unfolding hex_pair byte_value
hex_pair-byte_value a b = elim (chr_to_hex-digit_value a) [
  | inl (n, code, value) ↦ rw (code, value, hex_pair, byte_value) refl
  | inr (x, code, value, below) ↦ elim (chr_to_hex-digit_value b) [
    | inl (n, code', value') ↦ rw (code, value, code', value', hex_pair, byte_value) refl
    | inr (y, code', value', below') ↦
        rw (code, value, code', value', hex_pair, byte_value, join_hex-digits x y below below') refl
  ]
]

pub length-decode-le : (u : Bytes) → length (decode u) ≤ length u
unfolding decode
length-decode-le [] = omega arith
length-decode-le (c ∷ []) = omega arith
length-decode-le (c ∷ a ∷ []) = omega arith
length-decode-le (c ∷ a ∷ b ∷ p) = ground (arith, length-decode-le p, length-decode-le (a ∷ b ∷ p))

-- Whether the path begins with an escape that decodes.
abbrev pub escape : Bytes → Option ℕ
escape (c ∷ a ∷ b ∷ p) = if c == b'%' then byte_value a b else none
escape _ = none

pub raw_loop_end : (rest buf : Bytes) (i : ℕ) → raw_loop (0 ∷ rest) buf i ≡ store buf i 0
unfolding raw_loop
raw_loop_end [] buf i = refl
raw_loop_end (a ∷ []) buf i = refl
raw_loop_end (a ∷ b ∷ p) buf i = refl

last_ok :
    (d : ℕ) (rest buf : Bytes) (i : ℕ) {b : Bytes}
    → d ≢ 0
    → store buf i d ≡ ok b
    → raw_loop (d ∷ 0 ∷ rest) buf i ≡ store b (i + 1) 0
unfolding raw_loop
last_ok d [] buf i nz e = ground arith
last_ok d (r ∷ rest) buf i {b} nz e = ground (arith, raw_loop_end (r ∷ rest) b (i + 1))

last_fault :
    (d : ℕ) (rest buf : Bytes) (i : ℕ)
    → d ≢ 0
    → store buf i d ≡ fault
    → raw_loop (d ∷ 0 ∷ rest) buf i ≡ fault
unfolding raw_loop
last_fault d [] buf i nz e = ground arith
last_fault d (r ∷ rest) buf i nz e = ground arith

last_fuel :
    (d : ℕ) (rest buf : Bytes) (i : ℕ)
    → d ≢ 0
    → store buf i d ≡ out_of_fuel
    → raw_loop (d ∷ 0 ∷ rest) buf i ≡ out_of_fuel
unfolding raw_loop
last_fuel d [] buf i nz e = ground arith
last_fuel d (r ∷ rest) buf i nz e = ground arith

-- The last byte of a path, whatever it is, is copied.
raw_loop_last :
    (d : ℕ) (rest buf : Bytes) (i : ℕ)
    → d ≢ 0
    → raw_loop (d ∷ 0 ∷ rest) buf i ≡ (store buf i d >>= λ b. store b (i + 1) 0)
unfolding raw_loop
raw_loop_last d rest buf i nz = elim (Run-cases (store buf i d)) [
  | inl (b, e) ↦ rw e (last_ok d rest buf i nz e)
  | inr (inl e) ↦ rw e (last_fault d rest buf i nz e)
  | inr (inr e) ↦ rw e (last_fuel d rest buf i nz e)
]

literal_two :
    (c d : ℕ) (rest buf : Bytes) (i : ℕ) {buf' : Bytes}
    → c ≢ 0
    → d ≢ 0
    → store buf i c ≡ ok buf'
    → raw_loop (d ∷ 0 ∷ rest) buf' (i + 1) ≡ (store buf' (i + 1) d >>= λ b. store b (i + 1 + 1) 0)
    → raw_loop (c ∷ d ∷ 0 ∷ rest) buf i ≡ raw_loop (d ∷ 0 ∷ rest) buf' (i + 1)
literal_two c d rest buf i nz nd e last =
    let two : i + 1 + 1 ≡ i + 2 = omega arith in unfold raw_loop in ground (arith, rw two at last)

-- A byte that begins no escape is copied.
pub raw_loop_literal :
    (c : ℕ) (p rest buf : Bytes) (i : ℕ) {buf' : Bytes}
    → c ≢ 0
    → Absent 0 p
    → escape (c ∷ p) ≡ none
    → store buf i c ≡ ok buf'
    → raw_loop (c ∷ (p ++ 0 ∷ rest)) buf i ≡ raw_loop (p ++ 0 ∷ rest) buf' (i + 1)
unfolding raw_loop
raw_loop_literal c [] [] buf i nz a n e = ground (arith)
raw_loop_literal c [] (d ∷ rest) buf i {buf'} nz a n e =
    ground (arith, raw_loop_end (d ∷ rest) buf' (i + 1))
raw_loop_literal c (d ∷ []) rest buf i {buf'} nz a n e =
    literal_two c d rest buf i nz a.0 e (raw_loop_last d rest buf' (i + 1) a.0)
raw_loop_literal c (d ∷ b ∷ p) rest buf i nz a n e =
    let h = hex_pair-byte_value d b in ground (arith, h)

pub raw_loop_escape :
    (a b hex : ℕ) (p buf : Bytes) (i : ℕ) {buf' : Bytes}
    → a ≢ 0
    → b ≢ 0
    → byte_value a b ≡ some hex
    → store buf i hex ≡ ok buf'
    → raw_loop (b'%' ∷ a ∷ b ∷ p) buf i ≡ raw_loop p buf' (i + 1)
unfolding raw_loop
raw_loop_escape a b hex p buf i na nb h e =
    let same = hex_pair-byte_value a b ∙ h in ground (arith, same)
