-- ===== src/Tls/FileLoop.antt =====
-- The loop of net_443_file_write.
use facows.Types.{DataCtx}
use facows.Tls.{WriteRet, taken, refused, Peer, net_443_write, s32_of, file_loop}
use facows.Prelude.{
  ℕ, zero, suc, ◌+◌, ◌^◌, ◌≤◌, ◌<◌, min, ◌≡◌, refl, sym, ap, ◌∙◌, inl, inr, List, [], ◌∷◌, ◌++◌,
  append_assoc, arith, length, take, drop, length-append, take-append-drop, length-take,
  length-drop, ℤ, pos, failure,
}
use facows.Mem.Run.{ok, Bytes}
use facows.Tls.Sent.{Patient, write-Wrote, s32_of-small, Sent}

-- The result of a later round, for the round before it.
pub Sent-later :
    {base file file' : Bytes} {k k' : ℕ} {Asked Asked' : Type 0} {r : ℤ × DataCtx × Peer}
    → file ≡ file'
    → k ≤ k'
    → (Asked → Asked')
    → Sent base file k' Asked' r
    → Sent base file' k Asked r
Sent-later e l more o = record {
  front = o.front;
  left = o.left;
  splits = sym e ∙ o.splits;
  sent = o.sent;
  no_less = omega (arith, l, o.no_less);
  outcome = elim o.outcome [
    | inl d ↦ inl d
    | inr (inl d) ↦ inr (inl d)
    | inr (inr (e, z, refuses)) ↦ inr (inr (e, z, λ h. refuses (more h)))
  ];
}

-- A round of the loop, by what SSL_write did.
module _ (fuel : ℕ) (c : ℕ) (left : Bytes) (k : ℕ) (ctx : DataCtx) (peer : Peer) where
  loop_taken :
      (net_443_write peer (take 4096 (c ∷ left))).0 ≡ pos 1
      → file_loop (suc fuel) (c ∷ left) k ctx peer
        ≡ file_loop fuel
            (drop 4096 (c ∷ left))
            (k + min 4096 (length (c ∷ left)))
            ctx
            (net_443_write peer (take 4096 (c ∷ left))).1
  unfolding file_loop
  loop_taken e = rw (file_loop, e)

  loop_refused :
      (net_443_write peer (take 4096 (c ∷ left))).0 ≡ pos 0
      → file_loop (suc fuel) (c ∷ left) k ctx peer
        ≡ ok (
          pos 1,
          record ctx { file_len = s32_of k },
          (net_443_write peer (take 4096 (c ∷ left))).1,
        )
  unfolding file_loop
  loop_refused e = rw (file_loop, e)

  loop_failed :
      (net_443_write peer (take 4096 (c ∷ left))).0 ≡ failure
      → file_loop (suc fuel) (c ∷ left) k ctx peer
        ≡ ok (
          failure,
          record ctx { file_len = pos 0 },
          (net_443_write peer (take 4096 (c ∷ left))).1,
        )
  unfolding file_loop
  loop_failed e = rw (file_loop, e)

-- What a loop gives that starts behind `front`.
abbrev pub Loops : ℕ → Bytes → Bytes → Bytes → ℕ → DataCtx → Peer → Type 0
Loops fuel base front left k ctx peer =
    (r : ℤ × DataCtx × Peer) × (file_loop fuel left (length front) ctx peer ≡ ok r)
    × Sent base (front ++ left) k (Patient peer.writes) r

-- A piece that is taken has been sent once the rest of the loop is done.
loop-Loops :
    (fuel : ℕ) (base front : Bytes) (c : ℕ) (left : Bytes) (ctx : DataCtx) (peer : Peer)
    → (let piece = take 4096 (c ∷ left) in
        let (ret, p) = net_443_write peer piece in
        (ret ≡ pos 1) × (p.sent ≡ peer.sent ++ piece) × (Patient peer.writes → Patient p.writes))
    → (let front' = front ++ take 4096 (c ∷ left) in
        let left' = drop 4096 (c ∷ left) in
        let p = (net_443_write peer (take 4096 (c ∷ left))).1 in
        length left' < fuel
        → length (front' ++ left') < 2 ^ 31
        → p.sent ≡ base ++ front'
        → Loops fuel base front' left' (length front') ctx p)
    → length left < fuel
    → length (front ++ c ∷ left) < 2 ^ 31
    → peer.sent ≡ base ++ front
    → Loops (suc fuel) base front (c ∷ left) (length front + min 4096 (length (c ∷ left))) ctx peer
loop-Loops fuel base front c left ctx peer (e, w, more) rest h small s =
    let piece = take 4096 (c ∷ left) in
    let whole : (front ++ piece) ++ drop 4096 (c ∷ left) ≡ front ++ c ∷ left =
      append_assoc front piece _ ∙ ap (◌++◌ front) (take-append-drop 4096 (c ∷ left)) in
    let n : length (front ++ piece) ≡ length front + min 4096 (length (c ∷ left)) =
      length-append front piece ∙ ap (◌+◌ (length front)) (length-take 4096 (c ∷ left)) in
    let (r, q, o) =
      rest (omega (arith, h, length-drop 4096 (c ∷ left))) (rw whole small)
        (w ∙ ap (λ x. x ++ piece) s ∙ append_assoc base front piece) in
    (
      r,
      loop_taken fuel c left (length front) ctx peer e ∙ rw⁻¹ n q,
      Sent-later whole (omega (arith, n)) more o,
    )

pub file_loop-Loops :
    (fuel : ℕ) (base front left : Bytes) (ctx : DataCtx) (peer : Peer)
    → length left < fuel
    → length (front ++ left) < 2 ^ 31
    → peer.sent ≡ base ++ front
    → Loops fuel base front left (length front) ctx peer
unfolding file_loop
file_loop-Loops zero base front left ctx peer h small s = absurd (omega arith)
file_loop-Loops (suc fuel) base front [] ctx peer h small s = (
  _,
  refl,
  record {
    front = front;
    left = [];
    splits = refl;
    sent = s;
    no_less = omega arith;
    outcome = inl (refl, refl, refl);
  },
)
file_loop-Loops (suc fuel) base front (c ∷ left) ctx peer h small s =
    let piece = take 4096 (c ∷ left) in
    let l = length-append front (c ∷ left) in
    elim (write-Wrote peer piece) [
      | inl written ↦
          let (r, q, o) =
            loop-Loops fuel base front c left ctx peer written
              (file_loop-Loops fuel base (front ++ piece) (drop 4096 (c ∷ left)) ctx
                (net_443_write peer piece).1)
              (omega (arith, h)) small s in
          (r, q, Sent-later refl (omega arith) (λ a. a) o)
      | inr (inl (e, w)) ↦ (
        _,
        loop_refused fuel c left (length front) ctx peer e,
        record {
          front = front;
          left = c ∷ left;
          splits = refl;
          sent = w ∙ s;
          no_less = omega arith;
          outcome =
              inr (inl (refl, s32_of-small (length front) (omega (arith, small, l)), omega arith));
        },
      )
      | inr (inr (e, w, refuses)) ↦ (
        _,
        loop_failed fuel c left (length front) ctx peer e,
        record {
          front = front;
          left = c ∷ left;
          splits = refl;
          sent = w ∙ s;
          no_less = omega arith;
          outcome = inr (inr (refl, refl, refuses));
        },
      )
    ]

-- The first call of SSL_write takes the buffer.
abbrev pub Moves : List WriteRet → Type 0
Moves (taken ∷ writes) = Unit
Moves _ = ⊥

write-Moves :
    (peer : Peer) (s : Bytes)
    → Moves peer.writes
    → let (ret, p) = net_443_write peer s in
      (ret ≡ pos 1) × (p.sent ≡ peer.sent ++ s) × (Patient peer.writes → Patient p.writes)
unfolding net_443_write
write-Moves peer s h = go peer.writes h
  where
    go :
        (writes : List WriteRet)
        → Moves writes
        → let (ret, p) = net_443_write (record peer { writes = writes }) s in
          (ret ≡ pos 1) × (p.sent ≡ peer.sent ++ s) × (Patient writes → Patient p.writes)
    go [] h = elim h [ ]
    go (taken ∷ writes) h = (refl, refl, λ a. a)
    go (refused _ ∷ writes) h = elim h [ ]

-- A loop whose first piece is taken.
pub file_loop-Moves :
    (fuel : ℕ) (base front left : Bytes) (ctx : DataCtx) (peer : Peer)
    → Moves peer.writes
    → length left < fuel
    → length (front ++ left) < 2 ^ 31
    → peer.sent ≡ base ++ front
    → Loops fuel base front left (length front + min 4096 (length left)) ctx peer
file_loop-Moves zero base front left ctx peer m h small s = absurd (omega arith)
file_loop-Moves (suc fuel) base front [] ctx peer m h small s =
    let (r, q, o) = file_loop-Loops (suc fuel) base front [] ctx peer h small s in
    (r, q, Sent-later refl (omega arith) (λ a. a) o)
file_loop-Moves (suc fuel) base front (c ∷ left) ctx peer m h small s =
    loop-Loops fuel base front c left ctx peer (write-Moves peer (take 4096 (c ∷ left)) m)
      (file_loop-Loops fuel base (front ++ take 4096 (c ∷ left)) (drop 4096 (c ∷ left)) ctx
        (net_443_write peer (take 4096 (c ∷ left))).1)
      (omega (arith, h)) small s
