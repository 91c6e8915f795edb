-- ===== src/Net/Receive.antt =====
-- net_80_443_redir: what is received, and the first line break.
use facows.Http.Header.{skip_spaces}
use facows.Tls.{nl2_str}
use facows.Tls.Answer.{nl}
use facows.Tls.Search.{holds, memmem-none, memmem-some}
use facows.Net.Plain.{recv_loop, RecvRet}
use facows.Net.Plain.{received}
use facows.Prelude.{
  ℕ, zero, suc, ◌+◌, ◌≤◌, ◌<◌, ◌≡◌, refl, ◌≢◌, Bool, true, false, some, List, [], ◌∷◌, ◌++◌, arith,
  le→not_ltb, lt→not_leb, ne→not_==, length, drop, length-append, length-drop,
}
use facows.Mem.Run.{ok, fault, Bytes}
use facows.Mem.Libc.{memcmp, write, zeros, memmem}
use facows.Mem.Laws.{
  Absent, store-append, write-append, drop-cons, store_fault, length-zeros, length-write,
}

-- A header that one recv gives whole
pub recv_one :
    (s : Bytes) (recvs : List RecvRet)
    → 0 < length s
    → length s < 8191
    → holds nl2_str s ≡ true
    → recv_loop (received s ∷ recvs) (zeros 8192) 0
      ≡ ok (some (s ++ 0 ∷ drop (suc (length s)) (zeros 8192)))
unfolding recv_loop
recv_one [] recvs ne h e = absurd (omega arith)
recv_one (c ∷ s) recvs ne h e =
    let t = c ∷ s in
    let R = drop (suc (length t)) (zeros 8192) in
    let z = length-zeros 8192 in
    let (y, d) = drop-cons (length t) (zeros 8192) (omega (arith, h, z)) in
    let n : 0 + length t ≡ length t = omega arith in
    let (k, found) = memmem-some nl2_str t (0 ∷ R) e in
    rw (
      write-append t [] (zeros 8192) (omega (arith, h, z)),
      d,
      n,
      store-append t R y 0,
      lt→not_leb 8191 (length t) h,
      found,
    )

pub next_byte : (s p : Bytes) → (b : Bool) × (memcmp (s ++ b'\r' ∷ b'\n' ∷ p) (b'\n' ∷ []) 1 ≡ ok b)
unfolding memcmp
next_byte [] p = (_, refl)
next_byte (x ∷ s) p = (_, refl)

-- The first line break
pub memmem-nl :
    (s p : Bytes) (n : ℕ)
    → Absent b'\r' s
    → length s + 2 ≤ n
    → memmem (s ++ b'\r' ∷ b'\n' ∷ p) n nl ≡ ok (some (length s))
unfolding memmem memcmp
memmem-nl s p zero a h = absurd (omega arith)
memmem-nl [] p (suc n) a h = rw (le→not_ltb (suc n) 2 h)
memmem-nl (x ∷ s) p (suc n) a h =
    let (b, e) = next_byte s p in
    rw (
      le→not_ltb (suc n) 2 (omega (arith, h)),
      e,
      ne→not_== x b'\r' a.0,
      memmem-nl s p n a.1 (omega (arith, h)),
    )

pub skip_one : (c : ℕ) (p : Bytes) → c ≢ b' ' → skip_spaces (b' ' ∷ c ∷ p) ≡ ok (1, c ∷ p)
unfolding skip_spaces
skip_one c p h = ground arith

-- When the first piece, of less than 8191 bytes, has no empty line, and the second one, of less than
-- 8192 bytes, comes to 8192 bytes or more together with it, the terminator is written outside the
-- buffer.
pub recv_loop_again :
    (first second : Bytes) (recvs : List RecvRet)
    → length first < 8191
    → length second < 8192
    → holds nl2_str first ≡ false
    → 8192 ≤ length first + length second
    → recv_loop (received first ∷ received second ∷ recvs) (zeros 8192) 0 ≡ fault
unfolding recv_loop
recv_loop_again [] second recvs l1 l2 e over = absurd (omega arith)
recv_loop_again (c ∷ s) [] recvs l1 l2 e over = absurd (omega arith)
recv_loop_again (c ∷ s) (b ∷ t) recvs l1 l2 e over =
    let first = c ∷ s in
    let second = b ∷ t in
    let R = drop (suc (length first)) (zeros 8192) in
    let one = first ++ 0 ∷ R in
    let z = length-zeros 8192 in
    let (y, d) = drop-cons (length first) (zeros 8192) (omega (arith, l1, z)) in
    let n : 0 + length first ≡ length first = omega arith in
    let size : length one ≡ 8192 =
      omega (
        arith,
        length-append first (0 ∷ R),
        length-drop (suc (length first)) (zeros 8192),
        z,
        l1,
      ) in
    let two = second ++ drop (length second) one in
    let w2 : write one 0 second ≡ ok two = write-append second [] one (omega (arith, l2, size)) in
    let outside : length two ≤ length first + length second =
      omega (arith, length-write one 0 second w2, size, over) in
    rw (
      write-append first [] (zeros 8192) (omega (arith, l1, z)),
      d,
      n,
      store-append first R y 0,
      lt→not_leb 8191 (length first) l1,
      memmem-none nl2_str first (0 ∷ R) e,
      w2,
      n,
      store_fault two (length first + length second) 0 outside,
    )
