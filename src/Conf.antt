-- ===== src/Conf.antt =====
-- src/file_conf.c: the configuration file. The values of each type are here, the MIME table in
-- Conf/Mime, the table of keys in Conf/Keys and the loop over the lines in Conf/Parse.
pub mod Mime
pub mod Keys
pub mod Values
pub mod Lines
pub mod Parse
pub mod ValueEnds
pub mod FileEnds
pub mod Dispatch
pub mod Document
use facows.Mem.Strtol.{strtol}
use facows.Types.{Conf}
use facows.Prelude.{
  ℕ, [], zero, suc, ◌+◌, ◌-◌, ◌%◌, ◌^◌, Bool, true, false, not, ◌||◌, none, some, ◌∷◌, leb, ◌==◌,
  if◌then◌else◌, length, set, ℤ, pos, negsuc, failure,
}
use facows.Mem.Run.{Run, ok, fault, out_of_fuel, ◌>>=◌, Bytes}
use facows.Mem.Libc.{memchr, memcmp, copy, advance, deref, store, write, copy_text}

-- (u32) of a long
abbrev pub u32_of : ℤ → ℕ
u32_of (pos n) = n % 2 ^ 32
u32_of (negsuc n) = 2 ^ 32 - 1 - n % 2 ^ 32

-- The member of a conf that a key stands for: its type, its size and the access that the offset
-- gives.
pub data Member : Type 0 where
  u32_t : (ℕ → Conf → Conf) → Member
  u16_t : (ℕ → Conf → Conf) → Member
  bool_t : (Bool → Conf → Conf) → Member
  char_t : ℕ → (Conf → Bytes) → (Bytes → Conf → Conf) → Member
  ap_t : ℕ → (Conf → Bytes) → (Bytes → Conf → Conf) → Member
  mime_t : ℕ → Member

-- _type_u32_parse
unfoldable pub type_u32_parse : (ℕ → Conf → Conf) → Bytes → Conf → Run (ℤ × Conf)
type_u32_parse set p_base conf = strtol p_base >>= λ r. ok (pos 0, set (u32_of r.0) conf)

-- `port < 0 || port >= 65536`
abbrev pub out_of_port_range : ℤ → Bool
out_of_port_range (pos n) = leb 65536 n
out_of_port_range (negsuc n) = true

-- (u16) of a long
abbrev pub u16_of : ℤ → ℕ
u16_of (pos n) = n % 2 ^ 16
u16_of (negsuc n) = 2 ^ 16 - 1 - n % 2 ^ 16

-- _type_u16_parse
unfoldable pub type_u16_parse : (ℕ → Conf → Conf) → Bytes → Conf → Run (ℤ × Conf)
type_u16_parse set p_base conf = strtol p_base >>= λ r.
    ok (if out_of_port_range r.0 then (failure, conf) else (pos 0, set (u16_of r.0) conf))

abbrev pub true_str : Bytes
true_str = b't' ∷ b'r' ∷ b'u' ∷ b'e' ∷ []

abbrev pub false_str : Bytes
false_str = b'f' ∷ b'a' ∷ b'l' ∷ b's' ∷ b'e' ∷ []

-- The byte behind the word must be a space or the end of the line.
unfoldable pub word_end_check : (Bool → Conf → Conf) → Bytes → ℕ → Bool → Conf → Run (ℤ × Conf)
word_end_check set p_base len value conf = advance p_base len >>= λ p. deref p >>= λ c.
    ok (if c == b' ' || c == b'\n' then (pos 0, set value conf) else (failure, conf))

-- _type_bool_parse
unfoldable pub type_bool_parse : (Bool → Conf → Conf) → Bytes → Conf → Run (ℤ × Conf)
type_bool_parse set p_base conf = memcmp p_base true_str 4 >>= λ true_cmp.
    memcmp p_base false_str 5 >>= λ false_cmp.
    if true_cmp
    then word_end_check set p_base 4 true conf
    else if false_cmp
    then word_end_check set p_base 5 false conf
    else ok (failure, conf)

-- _type_char_parse
unfoldable pub type_char_parse :
    ℕ → (Conf → Bytes) → (Bytes → Conf → Conf) → Bytes → Conf → Run (ℤ × Conf)
type_char_parse size get set p_base conf = deref p_base >>= λ quote.
    if not (quote == b'"')
    then ok (failure, conf)
    else (advance p_base 1 >>= λ p1. memchr p1 b'"' (size - 1) >>= λ p2. elim p2 [
      | none ↦ ok (failure, conf)
      | some n ↦ copy_text (get conf) p1 n >>= λ member. ok (pos 0, set member conf)
    ])

-- `if (*p_scan == ',') p_scan++;`
abbrev pub skip_comma : Bytes → Run Bytes
skip_comma [] = fault
skip_comma (c ∷ p) = ok (if c == b',' then p else c ∷ p)

-- The loop over the ports: whether all of them are in range. Every round moves on by a byte at
-- least, so the length of the text is fuel.
unfoldable pub ports_loop : ℕ → Bytes → Run Bool
ports_loop zero p_scan = out_of_fuel
ports_loop (suc fuel) p_scan = deref p_scan >>= λ c.
    if c == b'\n' || c == 0
    then ok true
    else (strtol p_scan >>= λ r.
        if r.1 == 0
        then (advance p_scan 1 >>= λ p. ports_loop fuel p)
        else if out_of_port_range r.0
        then ok false
        else (advance p_scan r.1 >>= λ ep. skip_comma ep >>= λ p. ports_loop fuel p))

-- _type_ap_parse
unfoldable pub type_ap_parse :
    ℕ → (Conf → Bytes) → (Bytes → Conf → Conf) → Bytes → Conf → Run (ℤ × Conf)
type_ap_parse size get set p_base conf = memchr p_base b'\n' (size - 1) >>= λ p_end. elim p_end [
  | none ↦ ok (failure, conf)
  | some n ↦ ports_loop (suc (length p_base)) p_base >>= λ in_range.
      if not in_range
      then ok (failure, conf)
      else (write (get conf) 0 (b',' ∷ b' ' ∷ []) >>= λ member. copy p_base n >>= λ ports.
          write member 2 ports >>= λ member.
          store member (n + 2) 0 >>= λ member. ok (pos 0, set member conf))
]
