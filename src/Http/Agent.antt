-- ===== src/Http/Agent.antt =====
-- The names of systems and browsers in a User-Agent value, and the fields that are copied without a
-- test of their length.
use facows.Types.{HttpReq}
use facows.Http.Header.{name_scan, name_find, os_type, browser_type, ua_parse, lang_end, al_parse}
use facows.Mem.Laws.{Absent, copy_text-append, copy_text_over}
use facows.Prelude.{
  ℕ, zero, suc, ◌+◌, ◌≤◌, ◌<◌, ◌≡◌, refl, ◌⊎◌, inl, inr, false, none, some, List, [], ◌∷◌, ◌++◌,
  arith, ltb, if◌then◌else◌, ltb→lt, Bool-cases, length, drop,
}
use facows.Mem.Run.{ok, fault, Bytes}
use facows.Mem.Libc.{memcmp, write}

-- A text is not found with its terminator where no NUL stands.
memcmp_no_nul :
    (s p rest : Bytes)
    → Absent 0 p
    → length s < length p
    → memcmp (p ++ rest) (s ++ 0 ∷ []) (suc (length s)) ≡ ok false
unfolding memcmp
memcmp_no_nul s [] rest a h = absurd (omega arith)
memcmp_no_nul [] (x ∷ p) rest a h = ground arith
memcmp_no_nul (y ∷ s) (x ∷ p) rest a h = ground (arith, memcmp_no_nul s p rest a.1)

name_scan_no_nul :
    (name p rest : Bytes) (m : ℕ)
    → Absent 0 p
    → m + length name ≤ length p
    → name_scan (p ++ rest) m name ≡ ok false
unfolding name_scan
name_scan_no_nul name p rest zero a h = refl
name_scan_no_nul name [] rest (suc m) a h = absurd (omega arith)
name_scan_no_nul name (x ∷ p) rest (suc m) a h =
    let one : length name + 1 ≡ suc (length name) = omega arith in
    rw one (
      ground (
        arith,
        memcmp_no_nul name (x ∷ p) rest a (omega arith),
        name_scan_no_nul name p rest m a.1 (omega arith),
      ))

-- The names of the table are no longer than `k`.
abbrev Within : ℕ → List Bytes → Type 0
Within k [] = Unit
Within k (name ∷ names) = (length name ≤ k) × Within k names

name_find_no_nul :
    (names : List Bytes) (k : ℕ) (p rest : Bytes) (m : ℕ)
    → Within k names
    → Absent 0 p
    → m + k ≤ length p
    → name_find names (p ++ rest) m ≡ ok none
unfolding name_find
name_find_no_nul [] k p rest m w a h = refl
name_find_no_nul (name ∷ names) k p rest m w a h =
    rw (name_scan_no_nul name p rest m a (omega arith)) (name_find_no_nul names k p rest m w.1 a h)

-- Every name is compared together with its terminator. So, if no NUL stands in the value, in its
-- carriage return or in the nine bytes behind that, no system and no browser is ever recognised:
-- both fields become a dash.
pub ua_parse_no_nul :
    (p rest : Bytes) (n : ℕ) (r : HttpReq) {os browser : Bytes}
    → Absent 0 p
    → n + 10 ≤ length p
    → r.os ≡ 0 ∷ 0 ∷ os
    → r.browser ≡ 0 ∷ 0 ∷ browser
    → ua_parse (p ++ rest) n r
      ≡ ok (some (record r { os = b'-' ∷ 0 ∷ os; browser = b'-' ∷ 0 ∷ browser }))
unfolding ua_parse write
ua_parse_no_nul p rest n r {os} {browser} a h eo eb =
    let no_os = name_find_no_nul os_type 9 p rest (n + 1) (omega arith) a (omega arith) in
    let no_browser = name_find_no_nul browser_type 9 p rest (n + 1) (omega arith) a (omega arith) in
    ground (arith, no_os, no_browser)

-- No separator of languages, and no end of line.
abbrev pub Unseparated : Bytes → Type 0
Unseparated s = Absent b',' s × Absent b';' s × Absent b'\n' s

lang_end-append :
    (s rest : Bytes) (c : ℕ)
    → Unseparated s
    → (c ≡ b',') ⊎ (c ≡ b';') ⊎ (c ≡ b'\n')
    → lang_end (s ++ c ∷ rest) ≡ ok (length s)
unfolding lang_end
lang_end-append [] rest c u h = ground arith
lang_end-append (x ∷ s) rest c u h =
    ground (arith, lang_end-append s rest c (u.0.1, u.1.1, u.2.1) h)

-- case AL copies the value up to the first comma, semicolon or newline, wherever that stands: it is
-- stored if it is shorter than `lang`, and otherwise written past the end of the array.
al_parse_lem :
    (s rest lang : Bytes) (c : ℕ) (r : HttpReq)
    → Unseparated s
    → (c ≡ b',') ⊎ (c ≡ b';') ⊎ (c ≡ b'\n')
    → r.lang ≡ 0 ∷ lang
    → al_parse (s ++ c ∷ rest) r ≡ (
        if ltb (length s) (length r.lang)
        then ok (some (record r { lang = s ++ 0 ∷ drop (suc (length s)) r.lang }))
        else fault)
unfolding al_parse
al_parse_lem s rest lang c r u h e = elim (Bool-cases (ltb (length s) (length r.lang))) [
  | inl short ↦ rw short (
      ground (
        arith,
        lang_end-append s rest c u h,
        copy_text-append s (c ∷ rest) r.lang (ltb→lt _ _ short),
      ))
  | inr long ↦ rw long (
      ground
        (arith, lang_end-append s rest c u h, copy_text_over r.lang s (c ∷ rest) (ground arith)))
]
