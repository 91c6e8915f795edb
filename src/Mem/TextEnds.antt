-- ===== src/Mem/TextEnds.antt =====
-- What prints texts into an array ends.
use facows.Mem.Text.{c_str, print, put}
use facows.Mem.Ends.{Ends, bind-Ends, map_run-Ends, if-Ends, store-Ends, write-Ends}
use facows.Prelude.{ℕ, ◌+◌, ◌-◌, [], ◌∷◌, ◌++◌, ◌==◌, length, take}
use facows.Mem.Run.{Bytes}

pub c_str-Ends : (p : Bytes) → Ends (c_str p)
unfolding c_str
c_str-Ends [] = tt
c_str-Ends (c ∷ p) = if-Ends (c == 0) _ _ (λ _. tt) (λ _. map_run-Ends _ (c_str p) (c_str-Ends p))

pub print-Ends : (cap : ℕ) (buf : Bytes) (n : ℕ) (s : Bytes) → Ends (print cap (buf, n) s)
unfolding print
print-Ends cap buf n s = bind-Ends _ _ (write-Ends buf n (take (cap - 1) s ++ 0 ∷ [])) (λ _ _. tt)

pub put-Ends : (buf : Bytes) (n : ℕ) (s : Bytes) → Ends (put (buf, n) s)
unfolding put
put-Ends buf n s =
    bind-Ends _ _ (write-Ends buf n s)
      (λ b _. bind-Ends _ _ (store-Ends b (n + length s) 0) (λ _ _. tt))
