-- ===== src/Child/Setup.antt =====
-- fws_child_run: what is set up before the loop, and the whole of it.
use facows.Types.{Conf}
use facows.Child.{Kind, Child, Came, update, close, close_if, new_ctx}
use facows.Child.Dispatch.{child_out, child_serve}
use facows.Child.{listen_http, listen_https, timer, epoll}
use facows.Prelude.{
  ℕ, Bool, true, false, ◌&&◌, Option, none, some, List, if◌then◌else◌, ℤ, pos, negsuc, failure,
}
use facows.Mem.Run.{Run, ok, fault, ◌>>=◌}
use facows.Mem.Libc.{zeros}

-- What socket and bind come to.
pub data Bound : Type 0 where
  no_socket : Bound
  unbound : ℕ → Bound
  bound : ℕ → Bound

-- net_server_init: a descriptor that cannot be bound is closed again.
unfoldable pub net_server_init : Kind → Bound → Child → ℤ × Child
net_server_init kind no_socket st = (failure, st)
net_server_init kind (unbound fd) st =
    (failure, close fd (record st { table = update st.table fd (some kind) }))
net_server_init kind (bound fd) st = (pos fd, record st { table = update st.table fd (some kind) })

-- What the calls in front of the loop come to: calloc and net_443_init; both sockets; getpwnam for one
-- of the four names, setgid and setuid; timerfd_create and timerfd_settime; epoll_create1; and the
-- addresses of the three contexts, none where calloc gives a null pointer.
pub record System : Type 0 where
  pub nft_made : Bool
  pub ssl_ready : Bool
  pub http : Bound
  pub https : Bound
  pub user_found : Bool
  pub group_set : Bool
  pub user_set : Bool
  pub timer_made : Option ℕ
  pub timer_set : Bool
  pub epfd : Option ℕ
  pub ctxs : Option (ℕ × ℕ × ℕ)

-- A context of a server or of the timer, which epoll is told of.
abbrev pub listen : ℕ → ℕ → Child → Child
listen ptr fd st = record st {
  heap = update st.heap ptr (some (new_ctx fd false (zeros 16)));
  watch = update st.watch fd (some ptr);
}

-- The steps, each with those behind it: true with the state that the loop begins with, false where
-- `goto out` is taken.
unfoldable pub epoll_step : Option ℕ → Option (ℕ × ℕ × ℕ) → ℕ → ℕ → ℕ → Child → Run (Bool × Child)
epoll_step epfd none http https timer_fd st = fault
epoll_step none (some _) http https timer_fd st = ok (false, st)
epoll_step (some fd) (some (a, b, c)) http https timer_fd st = ok (
  true,
  listen c timer_fd (
      listen b https
        (listen a http (record st { fws_epfd = pos fd; table = update st.table fd (some epoll) }))),
)

unfoldable pub timer_step : System → ℕ → ℕ → Option ℕ → Bool → Child → Run (ℤ × Bool × Child)
timer_step sys http https none timer_set st = ok (pos 1, false, st)
timer_step sys http https (some fd) false st =
    ok (pos 1, false, record st { timer_fd = pos fd; table = update st.table fd (some timer) })
timer_step sys http https (some fd) true st =
    epoll_step sys.epfd sys.ctxs http https fd
      (record st { timer_fd = pos fd; table = update st.table fd (some timer) })
    >>= λ r. ok (pos 0, r.0, r.1)

-- The user, and the end of the pipe that the child does not read
unfoldable pub user_step : System → ℕ → ℕ → Bool → Child → Run (ℤ × Bool × Child)
user_step sys http https false st = ok (pos 1, false, st)
user_step sys http https true st =
    timer_step sys http https sys.timer_made sys.timer_set
      (record (close_if st.pipe_read_fd st) { pipe_read_fd = failure })

unfoldable pub https_step : System → ℕ → ℤ × Child → Run (ℤ × Bool × Child)
https_step sys http (negsuc n, st) = ok (pos 1, false, record st { server_https_fd = negsuc n })
https_step sys http (pos fd, st) =
    user_step sys http fd (sys.user_found && (sys.group_set && sys.user_set))
      (record st { server_https_fd = pos fd })

unfoldable pub http_step : System → ℤ × Child → Run (ℤ × Bool × Child)
http_step sys (negsuc n, st) = ok (pos 1, false, record st { server_http_fd = negsuc n })
http_step sys (pos fd, st) =
    https_step sys fd
      (net_server_init listen_https sys.https (record st { server_http_fd = pos fd }))

-- All that stands in front of the loop: the status if it ends here, whether the loop is begun, and the
-- state. Where epoll_create1 fails, epoll_wait does at once, and the loop is left with 0.
unfoldable pub child_setup : System → Child → Run (ℤ × Bool × Child)
child_setup sys st =
    if sys.nft_made && sys.ssl_ready
    then http_step sys (net_server_init listen_http sys.http st)
    else ok (pos 1, false, st)

-- fws_child_run: the status that the process ends with, and what it leaves.
unfoldable pub fws_child_run : Conf → System → List (List Came) → Child → Run (ℤ × Child)
fws_child_run conf sys batches st = child_setup sys st >>= λ r.
    if r.1 then child_serve conf batches r.2 else ok (r.0, child_out r.2)
