-- ===== src/Parent/Frames.antt =====
-- fws_parent_run: messages are taken apart as the children put them together.
use facows.Types.{Conf}
use facows.Nft.{net_nft_dos_ban, ban_text, ipv4_map_str}
use facows.Parent.{pipe_read, message_act, frames_loop, parent_event, Act}
use facows.Parent.{run_nft, write_log}
use facows.Tls.Search.{begins, memcmp-begins}
use facows.Mem.Text.{codes, c_str-append, put, put-append}
use facows.Prelude.{
  ℕ, zero, suc, ◌+◌, ◌-◌, ◌≤◌, ◌<◌, ◌≡◌, refl, sym, ap, ap₂, ◌∙◌, inl, inr, true, some, List, [],
  ◌∷◌, ◌++◌, map, append-nil, append_assoc, arith, ◌==◌, if◌then◌else◌, ne→not_==, Bool-cases,
  length, drop, length-append, length-drop,
}
use facows.Mem.Run.{ok, Bytes}
use facows.Mem.Libc.{memcmp, advance, store, write, zeros}
use facows.Mem.Laws.{
  Absent, copy-append, advance-append, strnlen-append, snoc-append, length-snoc, write-append,
  length-zeros, length-write,
}

-- A message of a child: a client to ban, or a line of the log.
pub data Message : Type 0 where
  ban_of : Bytes → Message
  log_of : Bytes → Message

-- A message is its header and its text, and ends with a NUL.
abbrev pub frame : Message → Bytes
frame (ban_of ip) = b'1' ∷ ip
frame (log_of line) = b'2' ∷ line

abbrev pub frames : List Message → Bytes
frames [] = []
frames (m ∷ ms) = frame m ++ 0 ∷ frames ms

abbrev pub NulFree : List Message → Type 0
NulFree [] = Unit
NulFree (m ∷ ms) = Absent 0 (frame m) × NulFree ms

-- How a client is banned: an address of IPv4 that is mapped into IPv6 is banned as what it is, without the
-- prefix; any other one as an address of IPv6.
abbrev pub ban_command : Conf → Bytes → Bytes
ban_command conf ip =
    if begins ipv4_map_str ip
    then ban_text conf.test_mode (codes "facows_ban4") (drop 7 ip) conf.ban_time
    else ban_text conf.test_mode (codes "facows_ban6") ip conf.ban_time

-- What is to be done for a message.
abbrev pub act_of : Conf → Message → Act
act_of conf (ban_of ip) = run_nft (ban_command conf ip)
act_of conf (log_of line) = write_log line

-- A NUL-free text is compared with one that stands in front of a NUL.
memcmp-begins_text :
    (q s p : Bytes)
    → Absent 0 q
    → length q ≤ length p
    → memcmp (s ++ 0 ∷ p) q (length q) ≡ ok (begins q s)
unfolding memcmp
memcmp-begins_text [] s p a h = refl
memcmp-begins_text (y ∷ q) [] p a h =
    let more : memcmp (p ++ []) q (length q) ≡ ok (begins q p) =
      memcmp-begins q p [] (omega (arith, h)) in
    ground (arith, append-nil p, more, a.0)
memcmp-begins_text (y ∷ q) (x ∷ s) p a h = rw (memcmp-begins_text q s p a.1 (omega (arith, h)))

begins-drop : (q s : Bytes) → begins q s ≡ true → s ≡ q ++ drop (length q) s
begins-drop [] s h = refl
begins-drop (y ∷ q) [] h = absurd (cc)
begins-drop (y ∷ q) (x ∷ s) h = elim (Bool-cases (x == y)) [
  | inl same ↦ ap₂ ◌∷◌ (ground arith) (begins-drop q s (rw same at h))
  | inr other ↦ absurd (ground arith)
]

Absent-drop : (n : ℕ) (s : Bytes) → Absent 0 s → Absent 0 (drop n s)
Absent-drop zero s a = a
Absent-drop (suc n) [] a = tt
Absent-drop (suc n) (x ∷ s) a = Absent-drop n s a.1

net_nft_dos_ban-ban_command :
    (conf : Conf) (ip rest : Bytes)
    → Absent 0 ip
    → 7 ≤ length rest
    → net_nft_dos_ban conf (ip ++ 0 ∷ rest) conf.ban_time ≡ ok (ban_command conf ip)
unfolding net_nft_dos_ban
net_nft_dos_ban-ban_command conf ip rest a h =
    let no_nul : Absent 0 ipv4_map_str = (
      omega arith,
      (omega arith, (omega arith, (omega arith, (omega arith, (omega arith, (omega arith, tt)))))),
    ) in
    let compared = memcmp-begins_text ipv4_map_str ip rest no_nul (omega (arith, h)) in
    elim (Bool-cases (begins ipv4_map_str ip)) [
      | inl mapped ↦
          let ip_p = drop 7 ip in
          let e : ip ≡ ipv4_map_str ++ ip_p = begins-drop ipv4_map_str ip mapped in
          let advanced : advance (ip ++ 0 ∷ rest) 7 ≡ ok (ip_p ++ 0 ∷ rest) =
            ap (λ s. advance (s ++ 0 ∷ rest) 7) e
            ∙ advance-append ipv4_map_str (ip_p ++ 0 ∷ rest) in
          rw (compared, mapped, advanced, c_str-append ip_p rest (Absent-drop 7 ip a))
      | inr other ↦ rw (compared, other, c_str-append ip rest a)
    ]

-- A message in front of a NUL
message_act-act_of :
    (conf : Conf) (m : Message) (rest : Bytes)
    → Absent 0 (frame m)
    → 7 ≤ length rest
    → message_act conf (frame m ++ 0 ∷ rest) (length (frame m)) ≡ ok (some (act_of conf m))
unfolding message_act advance
message_act-act_of conf (ban_of ip) rest a h = rw (net_nft_dos_ban-ban_command conf ip rest a.1 h)
message_act-act_of conf (log_of line) rest a h =
    let n : length (frame (log_of line)) - 1 ≡ length line = omega arith in
    rw (n, copy-append line (0 ∷ rest))

frames_loop-act_of :
    (fuel : ℕ) (conf : Conf) (ms : List Message) (rest : Bytes)
    → length (frames ms) < fuel
    → NulFree ms
    → 7 ≤ length rest
    → frames_loop fuel conf (frames ms ++ rest) (length (frames ms)) ≡ ok (map (act_of conf) ms)
unfolding frames_loop
frames_loop-act_of zero conf ms rest h a r = absurd (omega arith)
frames_loop-act_of (suc fuel) conf [] rest h a r = refl
frames_loop-act_of (suc fuel) conf (m ∷ ms) rest h a r =
    let t = frame m in
    let behind = frames ms ++ rest in
    let l : length (t ++ 0 ∷ frames ms) ≡ length t + suc (length (frames ms)) =
      length-append t (0 ∷ frames ms) in
    let measured = strnlen-append t behind (length (t ++ 0 ∷ frames ms)) a.0 (omega (arith, l)) in
    let acted =
      message_act-act_of conf m behind a.0 (omega (arith, r, length-append (frames ms) rest)) in
    let n : length t + 1 ≡ length (t ++ 0 ∷ []) = sym (length-snoc t 0) in
    let moved : advance (t ++ 0 ∷ behind) (length t + 1) ≡ ok behind =
      rw (n, ← snoc-append t behind 0) (advance-append (t ++ 0 ∷ []) behind) in
    let left : length (t ++ 0 ∷ frames ms) - (length t + 1) ≡ length (frames ms) =
      omega (arith, l) in
    let ih = frames_loop-act_of fuel conf ms rest (omega (arith, l, h)) a.1 r in
    rw (
      append_assoc t (0 ∷ frames ms) rest,
      ne→not_== (length (t ++ 0 ∷ frames ms)) 0 (omega (arith, l)),
      measured,
      acted,
      append_assoc t (0 ∷ frames ms) rest,
      moved,
      left,
      ih,
    )

-- One read of the pipe
pipe_read_one :
    (s : Bytes)
    → length s < 8192
    → pipe_read (s ∷ []) (zeros 8192) 0 ≡ ok (s ++ 0 ∷ drop (suc (length s)) (zeros 8192), length s)
unfolding pipe_read put
pipe_read_one s h = put-append [] s (zeros 8192) (omega (arith, h, length-zeros 8192))

-- Any messages without a NUL that come in one read, of 8184 bytes at most, are taken apart into what is
-- to be done for each, in their order.
pub parent_event-frames :
    (conf : Conf) (ms : List Message)
    → NulFree ms
    → length (frames ms) ≤ 8184
    → parent_event conf (frames ms ∷ []) ≡ ok (map (act_of conf) ms)
unfolding parent_event
parent_event-frames conf ms a h =
    let s = frames ms in
    let room = length-drop (suc (length s)) (zeros 8192) in
    rw (pipe_read_one s (omega (arith, h))) (
      frames_loop-act_of (suc (length s)) conf ms (0 ∷ drop (suc (length s)) (zeros 8192))
        (omega arith) a (omega (arith, room, h, length-zeros 8192)))

store_behind :
    (s p : Bytes) (i v : ℕ)
    → length s ≤ i
    → i < length (s ++ p)
    → (q : Bytes) × (store (s ++ p) i v ≡ ok (s ++ q))
unfolding store
store_behind [] [] i v h k = absurd (omega arith)
store_behind [] (x ∷ p) zero v h k = (v ∷ p, refl)
store_behind [] (x ∷ p) (suc i) v h k =
    let (q, e) = store_behind [] p i v (omega arith) (omega (arith, k)) in (x ∷ q, rw e)
store_behind (x ∷ s) p zero v h k = absurd (omega arith)
store_behind (x ∷ s) p (suc i) v h k =
    let (q, e) = store_behind s p i v (omega (arith, h)) (omega (arith, k)) in (q, rw e)

-- Messages that come in two reads, together of less than 8192 bytes, are not put together: the
-- bytes of the second read stand at the start of the buffer, over those of the first, while both are
-- counted.
pub pipe_read_again :
    (first second : Bytes)
    → length first + length second < 8192
    → (rest : Bytes) × (pipe_read (first ∷ second ∷ []) (zeros 8192) 0
        ≡ ok (second ++ rest, length first + length second))
unfolding pipe_read
pipe_read_again first second h =
    let z = length-zeros 8192 in
    let one = first ++ drop (length first) (zeros 8192) in
    let two = second ++ drop (length second) one in
    let w1 : write (zeros 8192) 0 first ≡ ok one =
      write-append first [] (zeros 8192) (omega (arith, h, z)) in
    let n1 : length one ≡ 8192 = length-write (zeros 8192) 0 first w1 ∙ z in
    let w2 : write one 0 second ≡ ok two = write-append second [] one (omega (arith, h, n1)) in
    let n2 : length two ≡ 8192 = length-write one 0 second w2 ∙ n1 in
    let i : 0 + length first + length second ≡ length first + length second = omega arith in
    let (q, e) =
      store_behind second (drop (length second) one) (length first + length second) 0 (omega arith)
        (omega (arith, h, n2)) in
    (q, rw (w1, w2, i, e))
