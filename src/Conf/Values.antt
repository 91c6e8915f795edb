-- ===== src/Conf/Values.antt =====
-- The values of the configuration: numbers, words, quoted texts and port lists.
use facows.Types.{Conf}
use facows.Mem.Strtol.{is_digit, skip_blank, digits, strtol_signed, strtol}
use facows.Conf.{
  u16_of, out_of_port_range, type_u32_parse, type_u16_parse, true_str, false_str, word_end_check,
  type_bool_parse, type_char_parse, ports_loop, type_ap_parse,
}
use facows.Mem.Laws.{
  Absent, memchr-append, memchr-Absent, copy-append, advance-append, store-append, write-append,
  drop-cons, copy_text-append, store_fault, memcmp-eq-true,
}
use facows.Prelude.{
  ℕ, suc, ◌+◌, ◌-◌, ◌*◌, ◌%◌, ◌^◌, ◌≤◌, ◌<◌, min, ◌≡◌, refl, sym, ap, ◌⊎◌, inl, inr, Bool, true,
  false, ◌||◌, [], ◌∷◌, ◌++◌, arith, ltb, leb, ◌==◌, if◌then◌else◌, ltb→lt, ==_iff, Bool-cases,
  length, set, drop, length-append, length-drop, drop-drop, ℤ, pos, failure,
}
use facows.Mem.Run.{Run, ok, fault, Bytes, Run-cases, ok-injective}
use facows.Mem.Libc.{memcmp, advance, store, write}

abbrev pub AllDigits : Bytes → Type 0
AllDigits [] = Unit
AllDigits (c ∷ s) = (is_digit c ≡ true) × AllDigits s

-- The number that digits stand for, behind those of `acc`.
abbrev pub value : ℕ → Bytes → ℕ
value acc [] = acc
value acc (c ∷ s) = value (acc * 10 + (c - b'0')) s

digits-append :
    (s rest : Bytes) (c acc : ℕ)
    → AllDigits s
    → is_digit c ≡ false
    → digits (s ++ c ∷ rest) acc ≡ ok (value acc s, length s)
unfolding digits
digits-append [] rest c acc a n = ground arith
digits-append (x ∷ s) rest c acc a n =
    ground (arith, digits-append s rest c (acc * 10 + (x - b'0')) a.1 n)

strtol-digits :
    (d : ℕ) (s rest : Bytes) (c : ℕ)
    → AllDigits (d ∷ s)
    → is_digit c ≡ false
    → strtol (d ∷ (s ++ c ∷ rest)) ≡ ok (pos (min (value 0 (d ∷ s)) (2 ^ 63 - 1)), suc (length s))
unfolding strtol skip_blank strtol_signed
strtol-digits d s rest c a n = let read = digits-append (d ∷ s) rest c 0 a n in ground (arith, read)

module _ (d : ℕ) (s rest : Bytes) (c : ℕ) (set : ℕ → Conf → Conf) (conf : Conf) where
  -- A port is written in decimal, behind it any byte but a digit: below 65536 it is stored as it
  -- is, otherwise the code is -1 and nothing is stored.
  pub type_u16_parse-digits :
      AllDigits (d ∷ s)
      → is_digit c ≡ false
      → let v = value 0 (d ∷ s) in
        type_u16_parse set (d ∷ (s ++ c ∷ rest)) conf
        ≡ ok (if ltb v (2 ^ 16) then (pos 0, set v conf) else (failure, conf))
  unfolding type_u16_parse
  type_u16_parse-digits a n = rw (strtol-digits d s rest c a n) (go (value 0 (d ∷ s)))
    where
      go :
          (v : ℕ)
          → ◌≡◌ {A = Run (ℤ × Conf)}
              (ok (
                if out_of_port_range (pos (min v (2 ^ 63 - 1)))
                then (failure, conf)
                else (pos 0, set (u16_of (pos (min v (2 ^ 63 - 1)))) conf)))
              (ok (if ltb v (2 ^ 16) then (pos 0, set v conf) else (failure, conf)))
      go v = elim (Bool-cases (ltb v (2 ^ 16))) [
        | inl small ↦
            let m : min v (2 ^ 63 - 1) ≡ v = ground arith in
            let w : v % 2 ^ 16 ≡ v = ground arith in
            let l : leb 65536 v ≡ false = ground arith in rw (m, l, small, w)
        | inr big ↦ let l : leb 65536 (min v (2 ^ 63 - 1)) ≡ true = ground arith in rw (l, big)
      ]

  -- A 32-bit number is stored as it is below 2^32, and modulo 2^32 above, to the range of a long.
  type_u32_parse-digits :
      AllDigits (d ∷ s)
      → is_digit c ≡ false
      → type_u32_parse set (d ∷ (s ++ c ∷ rest)) conf
        ≡ ok (pos 0, set (min (value 0 (d ∷ s)) (2 ^ 63 - 1) % 2 ^ 32) conf)
  unfolding type_u32_parse
  type_u32_parse-digits a n = rw (strtol-digits d s rest c a n)

-- The word for a value.
abbrev pub word : Bool → Bytes
word true = true_str
word false = false_str

module _ (set : Bool → Conf → Conf) (conf : Conf) where
  -- The words "true" and "false" are read, with a space or a newline behind them.
  type_bool_parse-word :
      (b : Bool) (c : ℕ) (rest : Bytes)
      → (c ≡ b' ') ⊎ (c ≡ b'\n')
      → type_bool_parse set (word b ++ c ∷ rest) conf ≡ ok (pos 0, set b conf)
  unfolding type_bool_parse word_end_check memcmp advance
  type_bool_parse-word true c rest h = ground arith
  type_bool_parse-word false c rest h = ground arith

-- The array behind the comma, the space and the ports.
ports_written :
    (s arr : Bytes)
    → length s + 2 ≤ length arr
    → write (b',' ∷ b' ' ∷ drop 2 arr) 2 s ≡ ok (b',' ∷ b' ' ∷ (s ++ drop (length s) (drop 2 arr)))
ports_written s arr h =
    write-append s (b',' ∷ b' ' ∷ []) (drop 2 arr) (omega (arith, length-drop 2 arr))

ports_ended :
    (s arr : Bytes)
    → length s + 2 < length arr
    → store (b',' ∷ b' ' ∷ (s ++ drop (length s) (drop 2 arr))) (length s + 2) 0
      ≡ ok (b',' ∷ b' ' ∷ (s ++ 0 ∷ drop (length s + 3) arr))
ports_ended s arr h =
    let (y, e) = drop-cons (length s) (drop 2 arr) (omega (arith, length-drop 2 arr)) in
    let at : length s + 2 ≡ suc (suc (length s)) = omega arith in
    rw (e, at, ← drop-drop 2 (suc (length s)) (length s + 3) arr (omega arith))
      (store-append (b',' ∷ b' ' ∷ s) (drop (suc (length s)) (drop 2 arr)) y 0)

ports_over :
    (s arr : Bytes)
    → length s + 2 ≡ length arr
    → store (b',' ∷ b' ' ∷ (s ++ drop (length s) (drop 2 arr))) (length s + 2) 0 ≡ fault
ports_over s arr e =
    store_fault (b',' ∷ b' ' ∷ (s ++ drop (length s) (drop 2 arr))) (length s + 2) 0 (
      omega (
        arith,
        e,
        length-append s (drop (length s) (drop 2 arr)),
        length-drop (length s) (drop 2 arr),
        length-drop 2 arr,
      ))

-- What an accepted word looks like.
pub record Accepted (set : Bool → Conf → Conf) (conf : Conf) (p : Bytes) (out : Conf) : Type 0 where
  pub flag : Bool
  pub c : ℕ
  pub rest : Bytes
  pub text_is : p ≡ word flag ++ c ∷ rest
  pub ends : (c ≡ b' ') ⊎ (c ≡ b'\n')
  pub stored : out ≡ set flag conf

word_end-Accepted :
    (set : Bool → Conf → Conf) (conf : Conf) (flag : Bool) (t : Bytes) {out : Conf}
    → word_end_check set (word flag ++ t) (length (word flag)) flag conf ≡ ok (pos 0, out)
    → Accepted set conf (word flag ++ t) out
unfolding word_end_check
word_end-Accepted set conf flag [] e = absurd (ground (arith, advance-append (word flag) []))
word_end-Accepted set conf flag (c ∷ rest) {out} e =
    let q = rw (advance-append (word flag) (c ∷ rest), word_end_check) at e in
    elim (Bool-cases (c == b' ' || c == b'\n')) [
      | inl sep ↦
          let r : ◌≡◌ {A = ℤ × Conf} (pos 0, set flag conf) (pos 0, out) =
            rw sep at (ok-injective q) in
          record {
            flag = flag;
            c = c;
            rest = rest;
            text_is = refl;
            ends = ground arith;
            stored = sym (ap (λ (x : ℤ × Conf). x.1) r);
          }
      | inr other ↦
          let r : ◌≡◌ {A = ℤ × Conf} (failure, conf) (pos 0, out) = rw other at (ok-injective q) in
          absurd (code_differs (ap (λ (x : ℤ × Conf). x.0) r))
    ]
  where
    code_differs : failure ≡ pos 0 → ⊥
    code_differs h = cc

-- A value that is accepted is one of the two words with a space or a newline behind it, and it is
-- that word's value that is stored.
pub type_bool_parse-Accepted :
    (set : Bool → Conf → Conf) (conf : Conf) (p : Bytes) {out : Conf}
    → type_bool_parse set p conf ≡ ok (pos 0, out)
    → Accepted set conf p out
unfolding type_bool_parse
type_bool_parse-Accepted set conf p {out} e = elim (Run-cases (memcmp p true_str 4)) [
  | inl (true, m) ↦ elim (Run-cases (memcmp p false_str 5)) [
    | inl (b, m2) ↦
        let (t, q) = memcmp-eq-true true_str p [] m in
        let e2 : word_end_check set p 4 true conf ≡ ok (pos 0, out) =
          rw (m, m2, type_bool_parse) at e in
        rw q (word_end-Accepted set conf true t (rw q at e2))
    | inr (inl m2) ↦ absurd (ground arith)
    | inr (inr m2) ↦ absurd (ground arith)
  ]
  | inl (false, m) ↦ elim (Run-cases (memcmp p false_str 5)) [
    | inl (true, m2) ↦
        let (t, q) = memcmp-eq-true false_str p [] m2 in
        let e2 : word_end_check set p 5 false conf ≡ ok (pos 0, out) =
          rw (m, m2, type_bool_parse) at e in
        rw q (word_end-Accepted set conf false t (rw q at e2))
    | inl (false, m2) ↦ absurd (ground arith)
    | inr (inl m2) ↦ absurd (ground arith)
    | inr (inr m2) ↦ absurd (ground arith)
  ]
  | inr (inl m) ↦ absurd (ground arith)
  | inr (inr m) ↦ absurd (ground arith)
]

module _ (size : ℕ) (get : Conf → Bytes) (set : Bytes → Conf → Conf) (conf : Conf)
    (s rest : Bytes) where
  -- A text in double quotes is stored, with a NUL behind it, if it is shorter than the array less
  -- one byte; a longer one is refused, and nothing is stored.
  pub type_char_parse_quoted :
      Absent b'"' s
      → length (get conf) ≡ size
      → 1 < size
      → type_char_parse size get set (b'"' ∷ (s ++ b'"' ∷ rest)) conf
        ≡ ok (
            if ltb (length s) (size - 1)
            then (pos 0, set (s ++ 0 ∷ drop (suc (length s)) (get conf)) conf)
            else (failure, conf))
  unfolding type_char_parse advance
  type_char_parse_quoted a e pos_size = elim (Bool-cases (ltb (length s) (size - 1))) [
    | inl fits ↦ rw (
      fits,
      memchr-append s rest b'"' (size - 1) a (ground arith),
      copy_text-append s (b'"' ∷ rest) (get conf) (ground arith),
    )
    | inr long ↦ rw (long, memchr-Absent s (b'"' ∷ rest) b'"' (size - 1) a (ground arith))
  ]

  -- A line of ports that are all in range, of `length s` bytes, is stored behind a comma and a space
  -- if it is at least 2 + 1 bytes shorter than the array. A line one byte longer is accepted as
  -- well, and its terminator is written past the end of the array; a line longer than that is refused.
  pub type_ap_parse_line :
      Absent b'\n' s
      → length (get conf) ≡ size
      → 2 < size
      → ports_loop (suc (length (s ++ b'\n' ∷ rest))) (s ++ b'\n' ∷ rest) ≡ ok true
      → type_ap_parse size get set (s ++ b'\n' ∷ rest) conf ≡ (
          if ltb (length s + 2) size
          then ok (pos 0, set (b',' ∷ b' ' ∷ (s ++ 0 ∷ drop (length s + 3) (get conf))) conf)
          else if length s + 2 == size
          then fault
          else ok (failure, conf))
  unfolding type_ap_parse
  type_ap_parse_line a e big ports = elim (Bool-cases (ltb (length s + 2) size)) [
    | inl fits ↦
        let lt : length s + 2 < size = ltb→lt _ _ fits in
        rw (
          fits,
          memchr-append s rest b'\n' (size - 1) a (omega arith),
          ports,
          write-append (b',' ∷ b' ' ∷ []) [] (get conf) (omega arith),
          copy-append s (b'\n' ∷ rest),
          ports_written s (get conf) (omega arith),
          ports_ended s (get conf) (omega arith),
        )
    | inr over ↦ elim (Bool-cases (length s + 2 == size)) [
      | inl exact ↦
          let eq : length s + 2 ≡ size = (==_iff _ _).0 exact in
          rw
            (
              over,
              exact,
              memchr-append s rest b'\n' (size - 1) a (omega arith),
              ports,
              write-append (b',' ∷ b' ' ∷ []) [] (get conf) (omega arith),
              copy-append s (b'\n' ∷ rest),
              ports_written s (get conf) (omega arith),
            )
            (rw (ports_over s (get conf) (omega arith)))
      | inr longer ↦
          rw (over, longer, memchr-Absent s (b'\n' ∷ rest) b'\n' (size - 1) a (ground arith))
    ]
  ]
