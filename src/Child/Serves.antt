-- ===== src/Child/Serves.antt =====
-- fws_child_run: any number of events, and the closes at the end.
use facows.Child.Loop.{child_event-Goes}
use facows.Child.Dispatch.{closes, child_serve}
use facows.Child.Events.{Unused, Held, Goes}
use facows.Child.Dispatch.{child_event, child_batch, child_loop, child_out}
use facows.Session.Measure.{Safely, bind-Safely, Safely-ok}
use facows.Types.{Conf}
use facows.Child.Sound.{Owns-close}
use facows.Child.Sound.{Owns, Sound, close_open}
use facows.Child.{Kind, Child, Came, After, update}
use facows.Child.{
  listen_http, listen_https, timer, epoll, pipe_in, pipe_out, plain, tls, next, breaks, gives_up,
}
use facows.Prelude.{
  ℕ, ◌≡◌, refl, ap, ◌∙◌, ◌≢◌, inl, Bool, true, false, Option, none, some, List, [], ◌∷◌, map,
  if◌then◌else◌, ℤ, pos, negsuc,
}
use facows.Mem.Run.{Run, ok, fault, out_of_fuel, ◌>>=◌}

-- What holds of the value, when the run gives one.
abbrev Then {ℓ} : {A : Type ℓ} → Run A → (A → Type 0) → Type 0
Then (ok a) P = P a
Then fault P = Unit
Then out_of_fuel P = Unit

-- epoll_wait gives each context once, and those that it has for a descriptor.
abbrev Apart : ℕ → List Came → Type 0
Apart ptr [] = Unit
Apart ptr (came ∷ batch) = (came.ptr ≢ ptr) × Apart ptr batch

abbrev Reported : List Came → Child → Type 0
Reported [] st = Unit
Reported (came ∷ batch) st =
    ((fd : ℕ) × (st.watch fd ≡ some came.ptr)) × Apart came.ptr batch × Reported batch st

abbrev AfterNext : (Child → Type 0) → After → Type 0
AfterNext P (next st) = P st
AfterNext P (breaks st) = Unit
AfterNext P (gives_up st) = Unit

-- accept4 gives descriptors, and calloc addresses, that are not in use when they are called.
abbrev Answered : Conf → List Came → Child → Type 0
Answered conf [] st = Unit
Answered conf (came ∷ batch) st =
    Unused st.table came.new_fd
    × Unused st.heap came.new_ptr
    × Then (child_event conf came st) (AfterNext (Answered conf batch))

-- The same of each call of epoll_wait.
abbrev pub Kernel : Conf → List (List Came) → Child → Type 0
Kernel conf [] st = Unit
Kernel conf (batch ∷ batches) st =
    Reported batch st
    × Answered conf batch st
    × Then (child_batch conf batch st) (λ r. Kernel conf batches r.1)

abbrev AllHeld : List Came → Child → Type 0
AllHeld [] st = Unit
AllHeld (came ∷ batch) st = Held st came.ptr × Apart came.ptr batch × AllHeld batch st

Reported-AllHeld :
    (batch : List Came) (st : Child) → Sound st → Reported batch st → AllHeld batch st
Reported-AllHeld [] st s r = tt
Reported-AllHeld (came ∷ batch) st s r =
    let (ctx, at, _) = s.contexts.watched r.0.0 came.ptr r.0.1 in
    ((ctx, at), r.1, Reported-AllHeld batch st s r.2)

AllHeld-keeps :
    (ptr : ℕ) (batch : List Came) (st st' : Child)
    → Apart ptr batch
    → ((q : ℕ) → q ≢ ptr → Held st q → Held st' q)
    → AllHeld batch st
    → AllHeld batch st'
AllHeld-keeps ptr [] st st' a k h = tt
AllHeld-keeps ptr (came ∷ batch) st st' a k h =
    (k came.ptr a.0 h.0, h.1, AllHeld-keeps ptr batch st st' a.1 k h.2)

child_batch-Sound :
    (conf : Conf) (batch : List Came) (st : Child)
    → Sound st
    → AllHeld batch st
    → Answered conf batch st
    → Safely (λ r. Sound r.1) (child_batch conf batch st)
unfolding child_batch
child_batch-Sound conf [] st s h a = s
child_batch-Sound conf (came ∷ batch) st s h a =
    by_event (child_event conf came st) (child_event-Goes conf came st s h.0 a.0 a.1) a.2
      (λ st' s' k an.
        child_batch-Sound conf batch st' s' (AllHeld-keeps came.ptr batch st st' h.1 k h.2) an)
  where
    by_event :
        (m : Run After)
        → Safely (Goes st came.ptr) m
        → Then m (AfterNext (Answered conf batch))
        → ((st' : Child)
            → Sound st'
            → ((q : ℕ) → q ≢ came.ptr → Held st q → Held st' q)
            → Answered conf batch st'
            → Safely (λ r. Sound r.1) (child_batch conf batch st'))
        → Safely
            (λ r. Sound r.1)
            (m >>= λ after. elim after [
              | next st ↦ child_batch conf batch st
              | breaks st ↦ ok (false, st)
              | gives_up st ↦ ok (true, st)
            ])
    by_event (ok (next st')) g an rest = rest st' g.0 g.1 an
    by_event (ok (breaks st')) g an rest = g
    by_event (ok (gives_up st')) g an rest = g
    by_event fault g an rest = tt
    by_event out_of_fuel g an rest = tt

-- Whatever the events are, the state is sound when the loop has ended.
pub child_loop-Sound :
    (conf : Conf) (batches : List (List Came)) (st : Child)
    → Sound st
    → Kernel conf batches st
    → Safely (λ r. Sound r.1) (child_loop conf batches st)
unfolding child_loop
child_loop-Sound conf [] st s k = s
child_loop-Sound conf (batch ∷ batches) st s k =
    by_batch (child_batch conf batch st)
      (child_batch-Sound conf batch st s (Reported-AllHeld batch st s k.0) k.1) k.2
      (λ st' s' k'. child_loop-Sound conf batches st' s' k')
  where
    by_batch :
        (m : Run (Bool × Child))
        → Safely (λ r. Sound r.1) m
        → Then m (λ r. Kernel conf batches r.1)
        → ((st' : Child)
            → Sound st'
            → Kernel conf batches st'
            → Safely (λ r. Sound r.1) (child_loop conf batches st'))
        → Safely
            (λ r. Sound r.1)
            (m >>= λ r.
              let rest = child_loop conf batches r.1 in if r.0 then ok (pos 1, r.1) else rest)
    by_batch (ok (true, st')) g k rest = g
    by_batch (ok (false, st')) g k rest = rest st' g k
    by_batch fault g k rest = tt
    by_batch out_of_fuel g k rest = tt

-- The variables of a list have descriptors of kinds that differ.
abbrev Differ : Kind → List (ℤ × Kind) → Type 0
Differ kind [] = Unit
Differ kind ((fd, k) ∷ fds) = (k ≢ kind) × Differ kind fds

abbrev HeldFds : (ℕ → Option Kind) → List (ℤ × Kind) → Type 0
HeldFds table [] = Unit
HeldFds table ((fd, kind) ∷ fds) = Owns table fd kind × Differ kind fds × HeldFds table fds

HeldFds-close :
    (table : ℕ → Option Kind) (m : ℕ) (kind : Kind) (fds : List (ℤ × Kind))
    → table m ≡ some kind
    → Differ kind fds
    → HeldFds table fds
    → HeldFds (update table m none) fds
HeldFds-close table m kind [] e d h = tt
HeldFds-close table m kind ((fd, k) ∷ fds) e d h =
    (Owns-close table m kind fd e (inl d.0) h.0, h.1, HeldFds-close table m kind fds e d.1 h.2)

-- Descriptors of kinds that differ are closed once each.
closes-right :
    (fds : List (ℤ × Kind)) (st : Child)
    → HeldFds st.table fds
    → (closes (map (λ x. x.0) fds) st).wrong ≡ st.wrong
unfolding closes
closes-right [] st h = refl
closes-right ((negsuc n, kind) ∷ fds) st h = closes-right fds st h.2
closes-right ((pos n, kind) ∷ fds) st h =
    let st' : Child = record st {
      table = update st.table n none;
      watch = update st.watch n none;
    } in
    ap (λ (x : Child). (closes (map (λ x. x.0) fds) x).wrong) (close_open n st h.0)
    ∙ closes-right fds st' (HeldFds-close st.table n kind fds h.0 h.1 h.2)

pub child_out-right : (st : Child) → Sound st → (child_out st).wrong ≡ 0
unfolding child_out
child_out-right st s =
    closes-right
      ((st.client_http_fd, plain)
        ∷ (st.client_fd, tls)
        ∷ (st.timer_fd, timer)
        ∷ (st.server_http_fd, listen_http)
        ∷ (st.server_https_fd, listen_https)
        ∷ (st.fws_epfd, epoll)
        ∷ (st.pipe_read_fd, pipe_in)
        ∷ (st.pipe_write_fd, pipe_out)
        ∷ [])
      st
      (
        s.client_http,
        (λ e. cc, (λ e. cc, (λ e. cc, (λ e. cc, (λ e. cc, (λ e. cc, (λ e. cc, tt))))))),
        (
          s.client,
          (λ e. cc, (λ e. cc, (λ e. cc, (λ e. cc, (λ e. cc, (λ e. cc, tt)))))),
          (
            s.servers.timers,
            (λ e. cc, (λ e. cc, (λ e. cc, (λ e. cc, (λ e. cc, tt))))),
            (
              s.servers.http,
              (λ e. cc, (λ e. cc, (λ e. cc, (λ e. cc, tt)))),
              (
                s.servers.https,
                (λ e. cc, (λ e. cc, (λ e. cc, tt))),
                (
                  s.servers.epolls,
                  (λ e. cc, (λ e. cc, tt)),
                  (s.servers.pipe_read, (λ e. cc, tt), (s.servers.pipe_write, tt, tt)),
                ),
              ),
            ),
          ),
        ),
      )
    ∙ s.right

-- From a sound state, whatever events come and whatever the connections do: no descriptor is closed
-- that is not open, also by the closes at the end, and no event is taken for a context that has been
-- freed. It is relied on that epoll_wait reports each context at most once in a call, and only for
-- descriptors that it has, and that accept4 and calloc give what is not in use.
pub child_serve-right :
    (conf : Conf) (batches : List (List Came)) (st : Child)
    → Sound st
    → Kernel conf batches st
    → Safely (λ r. r.1.wrong ≡ 0) (child_serve conf batches st)
unfolding child_serve
child_serve-right conf batches st s k = bind-Safely _ (child_loop conf batches st) _ (λ r e.
    child_out-right r.1
      (Safely-ok _ (child_loop conf batches st) (child_loop-Sound conf batches st s k) e))
