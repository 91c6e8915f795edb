-- ===== src/Start/Fds.antt =====
-- main and fws_parent_run: the descriptors, and the tables of the net filter.
use facows.Types.{Conf}
use facows.Nft.{net_nft_fini}
use facows.Parent.{Act}
use facows.Parent.Watch.{
  ParentSystem, Parted, FdOp, opens, closes, loop_next, log_step, watch_loop, log_path,
  fws_parent_run,
}
use facows.Start.{Boot, Forked, Ended, args_parse, conf_read, conf_next, mode_next, main, fork_next}
use facows.Start.{fork_failed, in_child, in_parent, exits, parted, serves}
use facows.Start.Ends.{main-Ends}
use facows.Mem.Ends.{Gives}
use facows.Session.Measure.{Ends-Gives, Safely, bind-Safely, if-Safely, Safely-ok}
use facows.Mem.Run.{ok}
use facows.Prelude.{
  ℕ, ◌≡◌, refl, ◌≢◌, Bool, true, false, not, ◌&&◌, Option, none, some, List, [], ◌∷◌, arith, ◌==◌,
  if◌then◌else◌, pos, is_negative,
}

-- The open descriptors without one of them, none where it is not among them.
abbrev cons_rest : ℕ → Option (List ℕ) → Option (List ℕ)
cons_rest m none = none
cons_rest m (some fds) = some (m ∷ fds)

abbrev fd_close : ℕ → List ℕ → Option (List ℕ)
fd_close fd [] = none
fd_close fd (m ∷ fds) = if m == fd then some fds else cons_rest m (fd_close fd fds)

-- The descriptors that are open after the operations, none where one is closed that is not open.
abbrev pub fds_after : List FdOp → Option (List ℕ) → Option (List ℕ)
fds_after [] fds = fds
fds_after (op ∷ ops) none = none
fds_after (opens fd ∷ ops) (some fds) = fds_after ops (some (fd ∷ fds))
fds_after (closes fd ∷ ops) (some fds) = fds_after ops (fd_close fd fds)

-- The descriptors of the log file and of epoll are not in use when they are given; the end of the pipe
-- for writing is closed by then.
abbrev pub LogUnused : ParentSystem → ℕ → Option ℕ → Type 0
LogUnused sys r none = Unit
LogUnused sys r (some l) = (l ≢ r) × (sys.ep_fd ≢ r) × (sys.ep_fd ≢ l)

-- Both ends of the pipe and all that has been opened are closed, each once.
abbrev Closed : ℕ → ℕ → List FdOp → Type 0
Closed r w ops = fds_after ops (some (w ∷ r ∷ [])) ≡ some []

-- The same from the start of main on, but for the process that serves.
abbrev pub EndsClosed : Ended → Type 0
EndsClosed (exits status ops) = fds_after ops (some []) ≡ some []
EndsClosed (parted status p) = fds_after p.fds (some []) ≡ some []
EndsClosed (serves conf read_fd write_fd) = Unit

-- The ends of the pipe differ, and the descriptors behind it are not in use.
abbrev pub PipeUnused : ParentSystem → Option (ℕ × ℕ) → Type 0
PipeUnused sys none = Unit
PipeUnused sys (some (r, w)) = (r ≢ w) × LogUnused sys r sys.log_fd

module _ (sys : ParentSystem) (r w : ℕ) (rw_apart : r ≢ w) where
  both-Closed : Closed r w (closes w ∷ closes r ∷ [])
  both-Closed = ground arith

  out-Closed : Closed r w (closes r ∷ closes w ∷ [])
  out-Closed = ground arith

  -- The log file and epoll, behind the loop and at `out`.
  left_loop :
      (l e : ℕ)
      → l ≢ r
      → e ≢ r
      → e ≢ l
      → Closed r w (closes w ∷ opens l ∷ opens e ∷ closes r ∷ closes e ∷ closes l ∷ [])
  left_loop l e lr er el = ground arith

  left_out :
      (l e : ℕ)
      → l ≢ r
      → e ≢ r
      → e ≢ l
      → Closed r w (closes w ∷ opens l ∷ opens e ∷ closes e ∷ closes l ∷ closes r ∷ [])
  left_out l e lr er el = ground arith

  module _ (conf : Conf) where
    loop_next-Closed :
        (l : ℕ)
        → LogUnused sys r (some l)
        → (x : Bool × List Act) → Closed r w (loop_next conf sys l (closes w ∷ []) (pos r) x).fds
    unfolding loop_next
    loop_next-Closed l u (true, acts) = left_loop l sys.ep_fd u.0 u.1 u.2
    loop_next-Closed l u (false, acts) = left_out l sys.ep_fd u.0 u.1 u.2

    log_step-Closed :
        (log_fd : Option ℕ)
        → LogUnused sys r log_fd
        → Safely (λ p. Closed r w p.fds) (log_step conf sys log_fd (closes w ∷ []) (pos r))
    unfolding log_step
    log_step-Closed none u = both-Closed
    log_step-Closed (some l) u =
        bind-Safely _ (watch_loop conf sys.events) _ (λ x _. loop_next-Closed l u x)

    fws_parent_run-Closed :
        LogUnused sys r sys.log_fd
        → Safely (λ p. Closed r w p.fds) (fws_parent_run conf sys (pos r) (pos w))
    unfolding fws_parent_run
    fws_parent_run-Closed u =
        if-Safely _ sys.nft_made _ _
          (λ _. bind-Safely _ (log_path conf) _ (λ _ _. log_step-Closed sys.log_fd u))
          (λ _. both-Closed)

    fork_next-EndsClosed :
        (forked : Forked)
        → LogUnused sys r sys.log_fd
        → Safely EndsClosed (fork_next forked sys conf r w)
    unfolding fork_next
    fork_next-EndsClosed fork_failed u = out-Closed
    fork_next-EndsClosed (in_child true) u = tt
    fork_next-EndsClosed (in_child false) u = out-Closed
    fork_next-EndsClosed (in_parent false) u = out-Closed
    fork_next-EndsClosed (in_parent true) u =
        bind-Safely _ (fws_parent_run conf sys (pos r) (pos w)) _ (λ p e.
          Safely-ok (λ x. Closed r w x.fds) (fws_parent_run conf sys (pos r) (pos w))
            (fws_parent_run-Closed u) e)

pipe_next-EndsClosed :
    (boot : Boot) (conf : Conf) (pipe_fds : Option (ℕ × ℕ))
    → PipeUnused boot.parent pipe_fds
    → Safely EndsClosed (elim pipe_fds [
      | none ↦ ok (exits 1 [])
      | some (read_fd, write_fd) ↦ fork_next boot.forked boot.parent conf read_fd write_fd
    ])
pipe_next-EndsClosed boot conf none u = refl
pipe_next-EndsClosed boot conf (some (r, w)) u =
    fork_next-EndsClosed boot.parent r w u.0 conf boot.forked u.1

main-Safely : (boot : Boot) → PipeUnused boot.parent boot.pipe_fds → Safely EndsClosed (main boot)
unfolding main mode_next conf_next
main-Safely boot u = bind-Safely _ (args_parse boot.args) _ (λ test_mode _. by_mode test_mode)
  where
    by_mode :
        (test_mode : Option Bool)
        → Safely EndsClosed
            (elim test_mode [ none ↦ ok (exits 1 []) | some test_mode ↦ mode_next boot test_mode ])
    by_mode none = refl
    by_mode (some test_mode) =
        if-Safely _ (boot.sigint_set && (boot.sigterm_set && boot.sigpipe_set)) _ _
          (λ _. bind-Safely _ (conf_read boot test_mode) _ (λ r _.
            if-Safely _ (is_negative r.0) _ _ (λ _. refl)
              (λ _.
                if-Safely _ (r.1.use_nft && not boot.nft_inited) _ _ (λ _. refl)
                  (λ _. pipe_next-EndsClosed boot r.1 boot.pipe_fds u))))
          (λ _. refl)

-- main comes to an end when the events of the parent do. Where the process does not serve, and no
-- access leaves an object, main and fws_parent_run close both ends of the pipe and whatever they have
-- opened, each exactly once, and close nothing else, whatever fails in between. It is relied on that the
-- ends of the pipe differ, and that new descriptors are not in use.
pub main-EndsClosed :
    (boot : Boot) → PipeUnused boot.parent boot.pipe_fds → Gives EndsClosed (main boot)
main-EndsClosed boot u = Ends-Gives EndsClosed (main boot) (main-Ends boot) (main-Safely boot u)

-- What is removed of the net filter, by the result.
abbrev pub Removed : Conf → Parted → Type 0
Removed conf p =
    p.fini ≡ (if is_negative p.ret then [] else if conf.use_nft then net_nft_fini conf else [])
