-- ===== src/Tests.antt =====
-- Runs of the model at concrete inputs, and the theorems at inputs that meet their hypotheses.
-- Shared here: hypotheses that a computation decides.
pub mod Paths
pub mod Requests
pub mod Values
pub mod Limits
pub mod Connections
pub mod Sessions
pub mod Servers
pub mod Starts
use facows.Mem.Strtol.{is_digit}
use facows.Mem.Laws.{Absent}
use facows.Conf.Values.{AllDigits}
use facows.Prelude.{ℕ, [], ◌≡◌, Bool, true, not, ◌&&◌, ◌∷◌, arith, ◌==◌}
use facows.Mem.Run.{Bytes}

abbrev pub lacks : ℕ → Bytes → Bool
lacks c [] = true
lacks c (x ∷ s) = not (x == c) && lacks c s

pub lacks-Absent : (c : ℕ) (s : Bytes) → lacks c s ≡ true → Absent c s
lacks-Absent c [] h = tt
lacks-Absent c (x ∷ s) h = (ground arith, lacks-Absent c s (ground arith))

abbrev pub all_digits : Bytes → Bool
all_digits [] = true
all_digits (x ∷ s) = is_digit x && all_digits s

pub all_digits-AllDigits : (s : Bytes) → all_digits s ≡ true → AllDigits s
all_digits-AllDigits [] h = tt
all_digits-AllDigits (x ∷ s) h = (ground arith, all_digits-AllDigits s (ground arith))
