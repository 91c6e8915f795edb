-- ===== src/Nft/Route.antt =====
-- _name_get: the table of routes is read as the kernel prints it.
use facows.Nft.Init.{
  is_space, skip_space, word_scan, is_empty, two_words, is_default, routes_loop, some_name,
  name_get,
}
use facows.Prelude.{
  ℕ, zero, suc, ◌≤◌, ◌≡◌, refl, ap, ◌∙◌, inl, inr, Bool, true, false, ◌&&◌, Option, none, some,
  List, [], ◌∷◌, ◌++◌, map, arith, if◌then◌else◌, Bool-cases, length, replicate,
}
use facows.Tls.Search.{begins}
use facows.Mem.Text.{codes}
use facows.Mem.Run.{Bytes}

-- A word of 15 bytes at most, without a blank and not empty.
abbrev NoSpace : Bytes → Type 0
NoSpace [] = Unit
NoSpace (c ∷ s) = (is_space c ≡ false) × NoSpace s

pub record Word (s : Bytes) : Type 0 where
  pub first : ℕ
  pub others : Bytes
  pub whole : s ≡ first ∷ others
  pub no_space : NoSpace s
  pub small : length s ≤ 15

-- A route: the interface, the destination, and the columns behind them.
pub record Route : Type 0 where
  pub net : Bytes
  pub dst : Bytes
  pub columns : Bytes
  pub net_word : Word net
  pub dst_word : Word dst

-- Its line, with a tab between the columns.
abbrev pub route_line : Route → Bytes
route_line r = r.net ++ 9 ∷ (r.dst ++ 9 ∷ r.columns)

-- The interface of the first route to everywhere: the destination begins with eight zeros.
abbrev pub gateway : List Route → Option Bytes
gateway [] = none
gateway (r ∷ rs) = if begins (codes "00000000") r.dst then some r.net else gateway rs

is_default-begins : (n : ℕ) (s : Bytes) → is_default n s ≡ begins (replicate n b'0') s
unfolding is_default
is_default-begins zero s = refl
is_default-begins (suc n) [] = refl
is_default-begins (suc n) (c ∷ s) = rw (is_default-begins n s) refl

default_begins : (s : Bytes) → is_default 8 s ≡ begins (codes "00000000") s
default_begins s = is_default-begins 8 s

word_scan-append :
    (n : ℕ) (w : Bytes) (rest : Bytes)
    → NoSpace w
    → length w ≤ n
    → word_scan n (w ++ 9 ∷ rest) ≡ (w, 9 ∷ rest)
unfolding word_scan is_space
word_scan-append zero [] rest a h = refl
word_scan-append zero (x ∷ w) rest a h = absurd (omega arith)
word_scan-append (suc n) [] rest a h = refl
word_scan-append (suc n) (x ∷ w) rest a h =
    rw (word_scan-append n w rest a.1 (omega arith), a.0) refl

-- No blank stands in front of a word.
skip_space-Word : (w rest : Bytes) → Word w → skip_space (w ++ rest) ≡ w ++ rest
unfolding skip_space
skip_space-Word [] rest d = absurd (cc (d.whole))
skip_space-Word (x ∷ w) rest d = rw (d.no_space.0) refl

skip_space-tab : (s : Bytes) → skip_space (9 ∷ s) ≡ skip_space s
unfolding skip_space is_space
skip_space-tab s = refl

Word-is_empty : (w : Bytes) → Word w → is_empty w ≡ false
Word-is_empty [] d = absurd (cc (d.whole))
Word-is_empty (x ∷ w) d = refl

Word-some_name : (w : Bytes) → Word w → some_name w ≡ some w
Word-some_name [] d = absurd (cc (d.whole))
Word-some_name (x ∷ w) d = refl

two_words-route_line : (r : Route) → two_words (route_line r) ≡ some (r.net, r.dst)
unfolding two_words
two_words-route_line r =
    let behind = r.dst ++ 9 ∷ r.columns in
    rw
      (
        skip_space-Word r.net (9 ∷ behind) r.net_word,
        word_scan-append 15 r.net behind r.net_word.no_space r.net_word.small,
        skip_space-tab behind,
        skip_space-Word r.dst (9 ∷ r.columns) r.dst_word,
        word_scan-append 15 r.dst r.columns r.dst_word.no_space r.dst_word.small,
        Word-is_empty r.net r.net_word,
        Word-is_empty r.dst r.dst_word,
      )
      refl

abbrev or_empty : Option Bytes → Bytes
or_empty none = []
or_empty (some s) = s

routes_loop-gateway : (rs : List Route) → routes_loop (map route_line rs) ≡ or_empty (gateway rs)
unfolding routes_loop
routes_loop-gateway [] = refl
routes_loop-gateway (r ∷ rs) =
    rw (two_words-route_line r, default_begins r.dst)
      (elim (Bool-cases (begins (codes "00000000") r.dst)) [
        | inl here ↦ rw here
        | inr there ↦ rw there (routes_loop-gateway rs)
      ])

some_name-gateway : (rs : List Route) → some_name (or_empty (gateway rs)) ≡ gateway rs
some_name-gateway [] = refl
some_name-gateway (r ∷ rs) = elim (Bool-cases (begins (codes "00000000") r.dst)) [
  | inl here ↦ rw here (Word-some_name r.net r.net_word)
  | inr there ↦ rw there (some_name-gateway rs)
]

name_found :
    (name : Bytes) (read_error : Bool)
    → (if is_empty name && read_error then none else some_name name) ≡ some_name name
name_found [] true = refl
name_found [] false = refl
name_found (c ∷ s) read_error = refl

-- From the lines of any routes, whose interfaces and destinations are words of 15 bytes at most,
-- _name_get takes the interface of the first route whose destination begins with eight zeros, and
-- fails where there is none, whether or not there is an error behind the lines.
pub name_get-gateway :
    (rs : List Route) (read_error : Bool)
    → name_get (some (map route_line rs, read_error)) ≡ gateway rs
unfolding name_get
name_get-gateway rs read_error =
    name_found (routes_loop (map route_line rs)) read_error
    ∙ (ap some_name (routes_loop-gateway rs) ∙ some_name-gateway rs)
