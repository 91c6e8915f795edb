-- ===== src/Tls/Search.antt =====
-- net_443_read: the search for the empty line.
use facows.Prelude.{
  ℕ, suc, ◌≤◌, ◌<◌, ◌≡◌, refl, ap, ◌∙◌, inl, inr, Bool, true, false, ◌&&◌, ◌||◌, Option, none, some,
  [], ◌∷◌, ◌++◌, arith, ltb, ◌==◌, ltb→lt, Bool-cases, length,
}
use facows.Mem.Run.{Run, ok, fault, out_of_fuel, map_run, Bytes}
use facows.Mem.Libc.{memcmp, memmem, shift}

-- The text begins with `q`.
abbrev pub begins : Bytes → Bytes → Bool
begins [] s = true
begins (y ∷ q) [] = false
begins (y ∷ q) (x ∷ s) = x == y && begins q s

-- The text holds `q`.
abbrev pub holds : Bytes → Bytes → Bool
holds q [] = begins q []
holds q (x ∷ s) = begins q (x ∷ s) || holds q s

pub memcmp-begins :
    (q s p : Bytes) → length q ≤ length s → memcmp (s ++ p) q (length q) ≡ ok (begins q s)
unfolding memcmp
memcmp-begins [] s p h = refl
memcmp-begins (y ∷ q) [] p h = absurd (omega arith)
memcmp-begins (y ∷ q) (x ∷ s) p h = rw (memcmp-begins q s p (omega arith))

pub begins_short : (q s : Bytes) → length s < length q → begins q s ≡ false
begins_short [] s h = absurd (omega arith)
begins_short (y ∷ q) [] h = refl
begins_short (y ∷ q) (x ∷ s) h = ground (arith, begins_short q s (omega arith))

pub holds_short : (q s : Bytes) → length s < length q → holds q s ≡ false
holds_short q [] h = begins_short q [] h
holds_short q (x ∷ s) h = rw (begins_short q (x ∷ s) h, holds_short q s (omega arith))

abbrev pub is_some {ℓ} : {A : Type ℓ} → Option A → Bool
is_some none = false
is_some (some a) = true

pub shift-is_some : (m : Run (Option ℕ)) → map_run is_some (map_run shift m) ≡ map_run is_some m
shift-is_some (ok none) = refl
shift-is_some (ok (some k)) = refl
shift-is_some fault = refl
shift-is_some out_of_fuel = refl

-- memmem tells whether the text holds the needle, whatever follows the text in memory.
pub memmem-holds : (q s p : Bytes) → map_run is_some (memmem (s ++ p) (length s) q) ≡ ok (holds q s)
unfolding memmem
memmem-holds [] [] p = refl
memmem-holds (y ∷ q) [] p = ground arith
memmem-holds q (x ∷ s) p = elim (Bool-cases (ltb (suc (length s)) (length q))) [
  | inl short ↦ rw (short, holds_short q (x ∷ s) (ltb→lt _ _ short))
  | inr enough ↦
      let same = memcmp-begins q (x ∷ s) p (ground arith) in
      elim (Bool-cases (begins q (x ∷ s))) [
        | inl here ↦ rw (enough, same, here)
        | inr elsewhere ↦
            rw (enough, same, elsewhere)
              (shift-is_some (memmem (s ++ p) (length s) q) ∙ memmem-holds q s p)
      ]
]

pub memmem-none : (q s p : Bytes) → holds q s ≡ false → memmem (s ++ p) (length s) q ≡ ok none
memmem-none q s p h = from (memmem (s ++ p) (length s) q) (memmem-holds q s p ∙ ap ok h)
  where
    from : (m : Run (Option ℕ)) → map_run is_some m ≡ ok false → m ≡ ok none
    from (ok none) e = refl
    from (ok (some k)) e = absurd (ground arith)
    from fault e = absurd (cc)
    from out_of_fuel e = absurd (cc)

pub memmem-some :
    (q s p : Bytes) → holds q s ≡ true → (k : ℕ) × (memmem (s ++ p) (length s) q ≡ ok (some k))
memmem-some q s p h = from (memmem (s ++ p) (length s) q) (memmem-holds q s p ∙ ap ok h)
  where
    from : (m : Run (Option ℕ)) → map_run is_some m ≡ ok true → (k : ℕ) × (m ≡ ok (some k))
    from (ok none) e = absurd (ground arith)
    from (ok (some k)) e = (k, refl)
    from fault e = absurd (cc)
    from out_of_fuel e = absurd (cc)
