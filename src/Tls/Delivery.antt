-- ===== src/Tls/Delivery.antt =====
-- net_443_file_write: what has been sent of a file, over any number of calls.
use facows.Types.{DataCtx}
use facows.Tls.{WriteRet, Peer, file_events}
use facows.Tls.Calls.{Resumes, net_443_file_write-Moves}
use facows.Tls.Events.{AllPatient, AllMove, read_whole, events_go, events_done}
use facows.Prelude.{
  ◌+◌, ◌*◌, ◌≤◌, ◌<◌, ◌≡◌, sym, ap, ◌∙◌, subst, inl, inr, some, List, [], ◌∷◌, ◌++◌, append-nil,
  arith, length, length-append, ℤ, pos,
}
use facows.Mem.Run.{ok, Bytes}

-- The whole file has been sent.
abbrev pub Done : List (List WriteRet) → Bytes → Bytes → DataCtx → Peer → Type 0
Done events base file ctx peer =
    (r : ℤ × DataCtx × Peer) × (file_events (read_whole file events) ctx peer ≡ ok r)
    × (r.0 ≡ pos 0)
    × (r.2.sent ≡ base ++ file)
    × (r.1.file_len ≡ pos 0)

-- When the file is opened and read to its end in each event, no event brings an error, the first call
-- of SSL_write in each event takes the buffer, and there is an event for each 4096 bytes of what is
-- left of a file of less than 2^31 bytes, then the calls come to the result 0, the whole file has been
-- sent, and the connection is ready for the next one.
pub file_events-Done :
    (events : List (List WriteRet)) (base front left : Bytes) (ctx : DataCtx) (peer : Peer)
    → 0 < length left
    → length left ≤ 4096 * length events
    → AllMove events
    → AllPatient events
    → Resumes base front left ctx peer
    → Done events base (front ++ left) ctx peer
file_events-Done [] base front left ctx peer some_left n m p rs = absurd (omega arith)
file_events-Done (writes ∷ events) base front left ctx peer some_left n m p rs =
    let (r, q, o) =
      net_443_file_write-Moves base front left ctx (record peer { writes = writes }) m.0
        (record { small = rs.small; remembers = rs.remembers; has_sent = rs.has_sent }) in
    elim o.outcome [
      | inl (e, z, done) ↦
          let file : front ++ left ≡ o.front =
            o.splits ∙ ap (◌++◌ o.front) done ∙ append-nil o.front in
          let all : r.2.sent ≡ base ++ (front ++ left) = o.sent ∙ ap (◌++◌ base) (sym file) in
          (
            r,
            events_done (some (front ++ left)) writes (read_whole (front ++ left) events) ctx peer q
                e,
            e,
            all,
            z,
          )
      | inr (inl (e, z, more)) ↦
          let next : Resumes base o.front o.left r.1 r.2 = record {
            small = rw (← o.splits) rs.small;
            remembers = z;
            has_sent = o.sent;
          } in
          let size : length front + length left ≡ length o.front + length o.left =
            sym (length-append front left) ∙ ap length o.splits ∙ length-append o.front o.left in
          let ih =
            file_events-Done events base o.front o.left r.1 r.2 more
              (omega (arith, size, o.no_less, n)) m.1 p.1 next in
          let (r', q', code, all, kept) =
            subst (λ f. Done events base f r.1 r.2) (sym o.splits) ih in
          (
            r',
            events_go (some (front ++ left)) writes (read_whole (front ++ left) events) ctx peer q e
                ∙ q',
            code,
            all,
            kept,
          )
      | inr (inr (e, z, refuses)) ↦ absurd (refuses p.0)
    ]
