-- ===== src/Child/Whole.antt =====
-- fws_child_run: from its start to its end.
use facows.Child.Starts.{Early, Early-Sound, Apart3}
use facows.Child.Setup.{System, child_setup, fws_child_run}
use facows.Child.Serves.{Kernel, child_serve-right, child_out-right}
use facows.Child.Dispatch.{child_serve, child_out}
use facows.Session.Measure.{Ends-Gives, Safely, if-Safely}
use facows.Types.{Conf}
use facows.Child.Sound.{update_same, update_ne, Sound}
use facows.Types.{Nft}
use facows.Child.{Child, Came, update}
use facows.Child.{listen_http, listen_https, pipe_in, pipe_out}
use facows.Prelude.{
  ℕ, ◌≡◌, refl, ◌∙◌, ◌≢◌, Bool, true, false, ◌&&◌, none, some, List, [], if◌then◌else◌, ℤ, pos,
  failure,
}
use facows.Mem.Run.{Run, ok, fault, out_of_fuel, ◌>>=◌}
use facows.Child.Ends.{fws_child_run-Ends}
use facows.Mem.Ends.{Gives}
use facows.Child.Piped.{BoundOk, TimerOk}
use facows.Child.Steps.{bound_table, http_step-Sound}

-- The state in which the process begins: it has the two ends of the pipe, and nothing else.
abbrev pub start : ℕ → ℕ → List Nft → Child
start read_fd write_fd nft_arr = record {
  server_http_fd = failure;
  server_https_fd = failure;
  timer_fd = failure;
  fws_epfd = failure;
  client_http_fd = failure;
  client_fd = failure;
  pipe_read_fd = pos read_fd;
  pipe_write_fd = pos write_fd;
  table = update (update (λ _. none) read_fd (some pipe_in)) write_fd (some pipe_out);
  heap = λ _. none;
  watch = λ _. none;
  nft_arr = nft_arr;
  messages = [];
  wrong = 0;
}

start-Early : (r w : ℕ) (nft_arr : List Nft) → r ≢ w → Early (start r w nft_arr)
start-Early r w nft_arr h = record {
  right = refl;
  servers = record {
    http = tt;
    https = tt;
    timers = tt;
    epolls = tt;
    pipe_read =
        update_ne (update (λ _. none) r (some pipe_in)) w (some pipe_out) r h
        ∙ update_same (λ _. none) r (some pipe_in);
    pipe_write = update_same (update (λ _. none) r (some pipe_in)) w (some pipe_out);
  };
  no_http = refl;
  no_https = refl;
  no_ctx = λ _. refl;
  no_watch = λ _. refl;
}

-- What the system calls in front of the loop are relied on for: descriptors that are not in use, the
-- end of the pipe that has been closed being one that is not, and addresses that differ.
pub record Grants (sys : System) (r w : ℕ) : Type 0 where
  pub ends_differ : r ≢ w
  pub http_unused : BoundOk (start r w []).table sys.http
  pub https_unused : BoundOk (bound_table (start r w []).table listen_http sys.http) sys.https
  pub others_unused :
      TimerOk
        (update
          (bound_table
            (bound_table (start r w []).table listen_http sys.http)
            listen_https
            sys.https)
          r
          none)
        sys.timer_made
        sys.epfd
  pub ctxs_differ : Apart3 sys.ctxs

child_setup-Sound :
    (sys : System) (r w : ℕ) (nft_arr : List Nft)
    → Grants sys r w
    → Safely (λ x. Sound x.2) (child_setup sys (start r w nft_arr))
unfolding child_setup
child_setup-Sound sys r w nft_arr g =
    let early = start-Early r w nft_arr g.ends_differ in
    if-Safely _ (sys.nft_made && sys.ssl_ready) _ _
      (λ _.
        http_step-Sound sys sys.http (start r w nft_arr) early g.http_unused g.https_unused
          g.others_unused g.ctxs_differ)
      (λ _. Early-Sound (start r w nft_arr) early)

-- What is relied on in the loop, when it is begun.
abbrev pub Serving : Conf → List (List Came) → Run (ℤ × Bool × Child) → Type 0
Serving conf batches (ok (ret, begun, st)) = Kernel conf batches st
Serving conf batches _ = Unit

fws_child_run-Safely :
    (conf : Conf) (sys : System) (batches : List (List Came)) (r w : ℕ) (nft_arr : List Nft)
    → Grants sys r w
    → Serving conf batches (child_setup sys (start r w nft_arr))
    → Safely (λ x. x.1.wrong ≡ 0) (fws_child_run conf sys batches (start r w nft_arr))
unfolding fws_child_run
fws_child_run-Safely conf sys batches r w nft_arr g k =
    by_setup (child_setup sys (start r w nft_arr)) (child_setup-Sound sys r w nft_arr g) k
  where
    by_setup :
        (m : Run (ℤ × Bool × Child))
        → Safely (λ x. Sound x.2) m
        → Serving conf batches m
        → Safely
            (λ x. x.1.wrong ≡ 0)
            (m >>= λ x. if x.1 then child_serve conf batches x.2 else ok (x.0, child_out x.2))
    by_setup (ok (ret, true, st)) s k = child_serve-right conf batches st s k
    by_setup (ok (ret, false, st)) s k = child_out-right st s
    by_setup fault s k = tt
    by_setup out_of_fuel s k = tt

-- From its start to its end, whichever of the system calls fail, whatever events come and whatever the
-- connections do, unless an access leaves an object: the serving process comes to its end when the
-- events do, it closes no descriptor that is not open, and takes no event for a context that has been
-- freed. It is relied on that new descriptors and new addresses are not in use, and that epoll_wait
-- reports each context at most once in a call, and only for descriptors that it has.
pub fws_child_run-right :
    (conf : Conf) (sys : System) (batches : List (List Came)) (r w : ℕ) (nft_arr : List Nft)
    → Grants sys r w
    → Serving conf batches (child_setup sys (start r w nft_arr))
    → Gives (λ x. x.1.wrong ≡ 0) (fws_child_run conf sys batches (start r w nft_arr))
fws_child_run-right conf sys batches r w nft_arr g k =
    Ends-Gives (λ x. x.1.wrong ≡ 0) (fws_child_run conf sys batches (start r w nft_arr))
      (fws_child_run-Ends conf sys batches (start r w nft_arr))
      (fws_child_run-Safely conf sys batches r w nft_arr g k)
