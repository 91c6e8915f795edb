-- ===== src/Tls/Events.antt =====
-- The calls of net_443_file_write for one file, an event at a time.
use facows.Types.{DataCtx}
use facows.Tls.{WriteRet, Peer, net_443_file_write, file_events}
use facows.Tls.Calls.{Resumes, net_443_file_write-Sent, file_write_short, nil_of_length}
use facows.Tls.FileLoop.{Moves}
use facows.Tls.Sent.{Patient}
use facows.Prelude.{
  ℕ, ◌^◌, ◌≤◌, ◌<◌, ◌≡◌, refl, sym, ap, ◌∙◌, ◌⊎◌, inl, inr, Option, none, some, List, [], ◌∷◌, ◌++◌,
  append_assoc, arith, length, length-append, ℤ, pos, failure,
}
use facows.Mem.Run.{ok, Bytes}

-- In no event does SSL_write do more than take the buffer or ask to be called again.
abbrev pub AllPatient : List (List WriteRet) → Type 0
AllPatient [] = Unit
AllPatient (writes ∷ events) = Patient writes × AllPatient events

-- Events in which the file is opened and read to its end.
abbrev pub read_whole : Bytes → List (List WriteRet) → List (Option Bytes × List WriteRet)
read_whole file [] = []
read_whole file (writes ∷ events) = (some file, writes) ∷ read_whole file events

-- In each event the file cannot be opened, or is read up to some place.
abbrev pub AllSeen : Bytes → List (Option Bytes × List WriteRet) → Type 0
AllSeen file [] = Unit
AllSeen file ((none, writes) ∷ events) = AllSeen file events
AllSeen file ((some s, writes) ∷ events) =
    ((rest : Bytes) × (file ≡ s ++ rest)) × AllSeen file events

-- In each event the file is read to its end, when it can be opened.
abbrev pub AllRead : Bytes → List (Option Bytes × List WriteRet) → Type 0
AllRead file [] = Unit
AllRead file ((none, writes) ∷ events) = AllRead file events
AllRead file ((some s, writes) ∷ events) = (s ≡ file) × AllRead file events

-- In each event the file can be opened, and SSL_write does no more than take the buffer or ask to be
-- called again.
abbrev pub AllOpen : List (Option Bytes × List WriteRet) → Type 0
AllOpen [] = Unit
AllOpen ((none, writes) ∷ events) = ⊥
AllOpen ((some s, writes) ∷ events) = Patient writes × AllOpen events

-- In each event the first call of SSL_write takes the buffer.
abbrev pub AllMove : List (List WriteRet) → Type 0
AllMove [] = Unit
AllMove (writes ∷ events) = Moves writes × AllMove events

-- The next event, by the result of the call.
module _ (file : Option Bytes) (writes : List WriteRet)
    (events : List (Option Bytes × List WriteRet)) (ctx : DataCtx) (peer : Peer)
    {r : ℤ × DataCtx × Peer}
    (e : net_443_file_write file ctx (record peer { writes = writes }) ≡ ok r) where
  pub events_go :
      r.0 ≡ pos 1 → file_events ((file, writes) ∷ events) ctx peer ≡ file_events events r.1 r.2
  unfolding file_events
  events_go code = rw (e, code)

  pub events_done : r.0 ≡ pos 0 → file_events ((file, writes) ∷ events) ctx peer ≡ ok r
  unfolding file_events
  events_done code = rw (e, code)

  events_failed : r.0 ≡ failure → file_events ((file, writes) ∷ events) ctx peer ≡ ok r
  unfolding file_events
  events_failed code = rw (e, code)

-- After the events: one front of the file has been sent. The result is 0 only when nothing is left or
-- read has failed, 1 only when the connection remembers where to go on, and a failure only when open has
-- failed or SSL_write has done more than ask to be called again.
pub record Delivered (events : List (Option Bytes × List WriteRet)) (base file : Bytes) (k : ℕ)
    (r : ℤ × DataCtx × Peer) : Type 0 where
  pub front : Bytes
  pub left : Bytes
  pub splits : file ≡ front ++ left
  pub sent : r.2.sent ≡ base ++ front
  pub no_less : k ≤ length front
  pub outcome :
      ((r.0 ≡ pos 0) × (r.1.file_len ≡ pos 0) × (AllRead file events → left ≡ []))
      ⊎ ((r.0 ≡ pos 1) × (r.1.file_len ≡ pos (length front)) × (0 < length left))
      ⊎ ((r.0 ≡ failure) × ¬ AllOpen events)

abbrev pub Delivers :
    List (Option Bytes × List WriteRet) → Bytes → Bytes → ℕ → DataCtx → Peer → Type 0
Delivers events base file k ctx peer =
    (r : ℤ × DataCtx × Peer) × (file_events events ctx peer ≡ ok r) × Delivered events base file k r

-- What is so after the later events is so after all of them, the first one being open for its file.
Delivered-later :
    {s : Bytes} {writes : List WriteRet} {events : List (Option Bytes × List WriteRet)}
    {base file : Bytes} {k k' : ℕ} {r : ℤ × DataCtx × Peer}
    → k ≤ k'
    → Delivered events base file k' r
    → Delivered ((some s, writes) ∷ events) base file k r
Delivered-later more d = record {
  front = d.front;
  left = d.left;
  splits = d.splits;
  sent = d.sent;
  no_less = omega (arith, d.no_less, more);
  outcome = elim d.outcome [
    | inl (c, z, all) ↦ inl (c, z, λ h. all h.1)
    | inr (inl d) ↦ inr (inl d)
    | inr (inr (c, refuses)) ↦ inr (inr (c, λ h. refuses h.1))
  ];
}

module _ (base : Bytes) where
  -- An event in which the file is read behind the place where it goes on, by what is behind it.
  pub event_read :
      (events : List (Option Bytes × List WriteRet)) (writes : List WriteRet) (front m rest : Bytes)
      (ctx : DataCtx) (peer : Peer)
      → Resumes base front (m ++ rest) ctx peer
      → ((front' left' : Bytes) (ctx' : DataCtx) (peer' : Peer)
          → front ++ (m ++ rest) ≡ front' ++ left'
          → 0 < length left'
          → Resumes base front' left' ctx' peer'
          → Delivers events base (front ++ (m ++ rest)) (length front') ctx' peer')
      → Delivers
          ((some (front ++ m), writes) ∷ events)
          base
          (front ++ (m ++ rest))
          (length front)
          ctx
          peer
  event_read events writes front m rest ctx peer rs later =
      let seen = some (front ++ m) in
      let whole : (front ++ m) ++ rest ≡ front ++ (m ++ rest) = append_assoc front m rest in
      let small : length (front ++ m) < 2 ^ 31 =
        omega (arith, rs.small, ap length whole, length-append (front ++ m) rest) in
      let (r, q, o) =
        net_443_file_write-Sent base front m ctx (record peer { writes = writes })
          (record { small = small; remembers = rs.remembers; has_sent = rs.has_sent }) in
      let splits : front ++ (m ++ rest) ≡ o.front ++ (o.left ++ rest) =
        sym whole ∙ ap (λ t. t ++ rest) o.splits ∙ append_assoc o.front o.left rest in
      elim o.outcome [
        | inl (e, z, done) ↦ (
          r,
          events_done seen writes events ctx peer q e,
          record {
            front = o.front;
            left = o.left ++ rest;
            splits = splits;
            sent = o.sent;
            no_less = o.no_less;
            outcome = inl (
              e,
              z,
              λ all. nil_of_length (o.left ++ rest) (
                  omega (
                    arith,
                    length-append o.left rest,
                    ap length done,
                    ap length all.0,
                    ap length whole,
                    length-append (front ++ m) rest,
                  )),
            );
          },
        )
        | inr (inl (e, z, more)) ↦
            let some_left : 0 < length (o.left ++ rest) =
              omega (arith, more, length-append o.left rest) in
            let (r', q', d) =
              later o.front (o.left ++ rest) r.1 r.2 splits some_left
                (record { small = rw (← splits) rs.small; remembers = z; has_sent = o.sent }) in
            (r', events_go seen writes events ctx peer q e ∙ q', Delivered-later o.no_less d)
        | inr (inr (e, z, refuses)) ↦ (
          r,
          events_failed seen writes events ctx peer q e,
          record {
            front = o.front;
            left = o.left ++ rest;
            splits = splits;
            sent = o.sent;
            no_less = o.no_less;
            outcome = inr (inr (e, λ h. refuses h.0));
          },
        )
      ]

  -- An event in which read fails in front of it.
  pub event_short :
      (events : List (Option Bytes × List WriteRet)) (writes : List WriteRet) (s front left : Bytes)
      (ctx : DataCtx) (peer : Peer)
      → Resumes base front left ctx peer
      → 0 < length left
      → length s ≤ length front
      → Delivers ((some s, writes) ∷ events) base (front ++ left) (length front) ctx peer
  event_short events writes s front left ctx peer rs some_left h =
      let n = length-append front left in
      let q =
        file_write_short s front ctx (record peer { writes = writes }) rs.remembers
          (omega (arith, rs.small, n)) h in
      (
        _,
        events_done (some s) writes events ctx peer q refl,
        record {
          front = front;
          left = left;
          splits = refl;
          sent = rs.has_sent;
          no_less = omega arith;
          outcome =
              inl (refl, refl, λ all. absurd (omega (arith, ap length all.0, n, h, some_left)));
        },
      )
