-- ===== src/Parent/Stream.antt =====
-- fws_parent_run: all the messages of a child, and those that are lost.
use facows.Types.{Conf}
use facows.Parent.{Act, pipe_read, parent_event, frames_loop}
use facows.Parent.Frames.{Message, frames, NulFree, act_of, parent_event-frames}
use facows.Parent.Watch.{PipeRead, Waited, reads_loop, pipe_event, watch_loop}
use facows.Parent.Watch.{came, pipe_end, again, readable, continues, ends_loop}
use facows.Prelude.{
  ℕ, suc, ◌+◌, ◌≤◌, ◌<◌, ◌≡◌, refl, ap, ◌∙◌, Bool, true, false, List, [], ◌∷◌, ◌++◌, map, arith,
  ◌==◌, if◌then◌else◌, length,
}
use facows.Mem.Run.{Run, ok, fault, out_of_fuel, ◌>>=◌, map_run, Bytes}
use facows.Mem.Libc.{store, write, zeros}
use facows.Mem.Laws.{write-append, length-zeros}

abbrev counted : ℕ → Bytes → Run (Bytes × ℕ)
counted n b = ok (b, n)

abbrev unflagged : ℕ → Bytes → Run (ℕ × Bytes × ℕ)
unflagged n b = ok (0, b, n)

-- An event with one read is what the loop over the messages makes of it.
pipe_event-parent_event :
    (conf : Conf) (hup : Bool) (s : Bytes)
    → pipe_event conf hup (came s ∷ again ∷ []) ≡ map_run continues (parent_event conf (s ∷ []))
unfolding pipe_event reads_loop parent_event pipe_read
pipe_event-parent_event conf hup s = by_write (write (zeros 8192) 0 s)
  where
    by_store :
        (n : ℕ) (m : Run Bytes)
        → (m >>= λ b. map_run continues (frames_loop (suc n) conf b n))
          ≡ map_run continues ((m >>= counted n) >>= λ r. frames_loop (suc r.1) conf r.0 r.1)
    by_store n (ok b) = refl
    by_store n fault = refl
    by_store n out_of_fuel = refl

    by_write :
        (m : Run Bytes)
        → ((m >>= unflagged (0 + length s)) >>= λ r.
            if r.0 == 1
            then ok (continues [])
            else if r.0 == 2
            then ok ends_loop
            else (store r.1 r.2 0 >>= λ b. map_run continues (frames_loop (suc r.2) conf b r.2)))
          ≡ map_run continues (
              (m >>= λ b. store b (0 + length s) 0 >>= counted (0 + length s)) >>= λ r.
              frames_loop (suc r.1) conf r.0 r.1)
    by_write (ok b) = by_store (0 + length s) (store b (0 + length s) 0)
    by_write fault = refl
    by_write out_of_fuel = refl

-- A number of messages that come in one read each: one at least, 8184 bytes at most, without a NUL.
abbrev pub Readable : List (List Message) → Type 0
Readable [] = Unit
Readable (ms ∷ reads) =
    NulFree ms × (1 ≤ length (frames ms)) × (length (frames ms) ≤ 8184) × Readable reads

abbrev pub events_of : List (List Message) → List Waited
events_of [] = readable true (pipe_end ∷ []) ∷ []
events_of (ms ∷ reads) = readable false (came (frames ms) ∷ again ∷ []) ∷ events_of reads

abbrev pub acts_of : Conf → List (List Message) → List Act
acts_of conf [] = []
acts_of conf (ms ∷ reads) = map (act_of conf) ms ++ acts_of conf reads

-- Messages that come in any number of events, each time in one read of 8184 bytes at most, are all
-- done, in their order, and the loop is left when the pipe ends.
pub watch_loop-acts_of :
    (conf : Conf) (reads : List (List Message))
    → Readable reads
    → watch_loop conf (events_of reads) ≡ ok (true, acts_of conf reads)
unfolding watch_loop pipe_event reads_loop
watch_loop-acts_of conf [] r = refl
watch_loop-acts_of conf (ms ∷ reads) r =
    let one =
      pipe_event-parent_event conf false (frames ms)
      ∙ ap (map_run continues) (parent_event-frames conf ms r.0 r.2) in
    rw (one) (rw (watch_loop-acts_of conf reads r.3) refl)

-- Messages that come in the event in which the pipe ends are lost: the loop is left and nothing is done
-- for them, whatever would follow.
watch_loop_lost :
    (conf : Conf) (hup : Bool) (s : Bytes) (reads : List PipeRead) (events : List Waited)
    → length s < 8192
    → watch_loop conf (readable hup (came s ∷ pipe_end ∷ reads) ∷ events) ≡ ok (true, [])
unfolding watch_loop pipe_event reads_loop
watch_loop_lost conf hup s reads events h =
    rw (write-append s [] (zeros 8192) (omega (arith, h, length-zeros 8192))) refl
