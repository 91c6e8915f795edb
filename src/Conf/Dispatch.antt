-- ===== src/Conf/Dispatch.antt =====
-- The lines with a key: the value goes to the parser of the key's type and to the key's member.
use facows.Types.{Conf}
use facows.Conf.Keys.{Lookup, conf_list}
use facows.Conf.Parse.{val_parse, key_find, skip_run, entry_parse, line_parse}
use facows.Mem.Laws.{advance-append}
use facows.Prelude.{
  ℕ, zero, suc, ◌+◌, ◌≡◌, refl, sym, subst, ◌≢◌, ◌⊎◌, inl, inr, Bool, true, false, not, ◌&&◌, some,
  List, [], ◌∷◌, ◌++◌, arith, ◌==◌, length, replicate, is_negative,
}
use facows.Mem.Run.{ok, ◌>>=◌, Bytes}
use facows.Mem.Libc.{memchr, memcmp, deref}

-- The entry is one of the list.
abbrev pub Listed : Lookup → List Lookup → Type 0
Listed l [] = ⊥
Listed l (x ∷ xs) = (l ≡ x) ⊎ Listed l xs

-- The line is no comment, and is not empty.
abbrev is_entry : Bytes → Bool
is_entry [] = false
is_entry (c ∷ p) = not (c == b'#') && not (c == b'\n')

is_entry-deref :
    (p : Bytes) → is_entry p ≡ true → (c : ℕ) × (deref p ≡ ok c) × ((c == b'#') ≡ false)
is_entry-deref [] h = absurd (cc)
is_entry-deref (c ∷ p) h = (c, refl, ground arith)

-- The key begins like no comment, has no space, is short enough, and is found for itself alone.
abbrev Distinct : Lookup → Type 0
Distinct l =
    (rest : Bytes)
    → (is_entry (l.key ++ b' ' ∷ rest) ≡ true)
      × (memchr (l.key ++ b' ' ∷ rest) b' ' 16 ≡ ok (some (length l.key)))
      × (key_find conf_list (l.key ++ b' ' ∷ rest) (length l.key) ≡ ok (some l))

abbrev AreDistinct : List Lookup → Type 0
AreDistinct [] = Unit
AreDistinct (l ∷ ls) = Distinct l × AreDistinct ls

conf_list-AreDistinct : AreDistinct conf_list
unfolding memchr key_find memcmp
conf_list-AreDistinct = (
  λ rest. (refl, refl, refl),
  (
    λ rest. (refl, refl, refl),
    (
      λ rest. (refl, refl, refl),
      (
        λ rest. (refl, refl, refl),
        (
          λ rest. (refl, refl, refl),
          (
            λ rest. (refl, refl, refl),
            (
              λ rest. (refl, refl, refl),
              (
                λ rest. (refl, refl, refl),
                (
                  λ rest. (refl, refl, refl),
                  (
                    λ rest. (refl, refl, refl),
                    (
                      λ rest. (refl, refl, refl),
                      (
                        λ rest. (refl, refl, refl),
                        (
                          λ rest. (refl, refl, refl),
                          (
                            λ rest. (refl, refl, refl),
                            (
                              λ rest. (refl, refl, refl),
                              (
                                λ rest. (refl, refl, refl),
                                (
                                  λ rest. (refl, refl, refl),
                                  (
                                    λ rest. (refl, refl, refl),
                                    (
                                      λ rest. (refl, refl, refl),
                                      (
                                        λ rest. (refl, refl, refl),
                                        (
                                          λ rest. (refl, refl, refl),
                                          (λ rest. (refl, refl, refl), tt),
                                        ),
                                      ),
                                    ),
                                  ),
                                ),
                              ),
                            ),
                          ),
                        ),
                      ),
                    ),
                  ),
                ),
              ),
            ),
          ),
        ),
      ),
    ),
  ),
)

Listed-Distinct : (l : Lookup) (ls : List Lookup) → AreDistinct ls → Listed l ls → Distinct l
Listed-Distinct l [] d h = absurd h
Listed-Distinct l (x ∷ xs) d (inl e) = subst Distinct (sym e) d.0
Listed-Distinct l (x ∷ xs) d (inr h) = Listed-Distinct l xs d.1 h

pub skip_run-replicate :
    (c n v : ℕ) (rest : Bytes) → v ≢ c → skip_run c (replicate n c ++ v ∷ rest) ≡ ok (n, v ∷ rest)
unfolding skip_run
skip_run-replicate c zero v rest h = ground arith
skip_run-replicate c (suc n) v rest h = ground (arith, skip_run-replicate c n v rest h)

-- A key of the list begins with a byte that is no newline.
pub Listed-start :
    (l : Lookup) (p : Bytes)
    → Listed l conf_list
    → (y : ℕ) × (q : Bytes) × (l.key ++ b' ' ∷ p ≡ y ∷ q) × (y ≢ b'\n')
Listed-start l p h =
    start (l.key ++ b' ' ∷ p) (Listed-Distinct l conf_list conf_list-AreDistinct h p).0
  where
    start : (t : Bytes) → is_entry t ≡ true → (y : ℕ) × (q : Bytes) × (t ≡ y ∷ q) × (y ≢ b'\n')
    start [] e = absurd (cc)
    start (y ∷ q) e = (y, q, refl, ground arith)

-- A line with a key of the list, one space or more and a value that begins with no space has this
-- value read by the parser of the key's type, into the key's member; the scan stands at the value,
-- and the bytes in front of it are counted.
pub line_parse-Listed :
    (l : Lookup) (n v total_n : ℕ) (rest : Bytes) (conf : Conf)
    → Listed l conf_list
    → v ≢ b' '
    → line_parse (record {
      p_scan = l.key ++ (replicate (suc n) b' ' ++ v ∷ rest);
      total_n = total_n;
      conf = conf;
    })
      ≡ (val_parse l.member (v ∷ rest) conf >>= λ r. ok (
        not (is_negative r.0),
        record { p_scan = v ∷ rest; total_n = total_n + length l.key + suc n; conf = r.1 },
      ))
unfolding line_parse entry_parse
line_parse-Listed l n v total_n rest conf h ne =
    let d = Listed-Distinct l conf_list conf_list-AreDistinct h (replicate n b' ' ++ v ∷ rest) in
    let (c, first, other) = is_entry-deref (l.key ++ (replicate (suc n) b' ' ++ v ∷ rest)) d.0 in
    rw (
      first,
      other,
      d.1,
      d.2,
      advance-append l.key (replicate (suc n) b' ' ++ v ∷ rest),
      skip_run-replicate b' ' (suc n) v rest ne,
    )
