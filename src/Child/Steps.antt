-- ===== src/Child/Steps.antt =====
-- fws_child_run: the steps in front of its loop, whichever of them fail.
use facows.Child.Starts.{
  Early, Early-Sound, Early-epoll, Early-timer, Early-http, Early-https, listening-Sound, Apart3,
}
use facows.Child.Setup.{
  Bound, no_socket, unbound, bound, net_server_init, System, epoll_step, timer_step, user_step,
  https_step, http_step,
}
use facows.Child.Events.{Unused}
use facows.Session.Measure.{Safely, bind-Safely, Safely-ok}
use facows.Child.Sound.{Sound}
use facows.Child.{Kind, Child, update, close_if}
use facows.Child.{listen_http, listen_https, timer, epoll}
use facows.Prelude.{
  ℕ, ◌≡◌, refl, sym, ◌∙◌, subst, Bool, true, false, ◌&&◌, Option, none, some, pos, negsuc, failure,
}
use facows.Child.Piped.{BoundOk, TimerOk, Early-closed, closed_table, pipe_closed, piped}

epoll_step-Sound :
    (epfd : Option ℕ) (ctxs : Option (ℕ × ℕ × ℕ)) (http https t : ℕ) (st : Child)
    → Early st
    → st.server_http_fd ≡ pos http
    → st.server_https_fd ≡ pos https
    → st.timer_fd ≡ pos t
    → Unused st.table epfd
    → Apart3 ctxs
    → Safely (λ r. Sound r.1) (epoll_step epfd ctxs http https t st)
unfolding epoll_step
epoll_step-Sound none none http https t st e eh es et u a = tt
epoll_step-Sound (some fd) none http https t st e eh es et u a = tt
epoll_step-Sound none (some ptrs) http https t st e eh es et u a = Early-Sound st e
epoll_step-Sound (some fd) (some (a, b, c)) http https t st e eh es et u (ba, ca, cb) =
    listening-Sound (record st { fws_epfd = pos fd; table = update st.table fd (some epoll) })
      (Early-epoll st e fd u) http https t a b c eh es et ba ca cb

timer_step-Sound :
    (sys : System) (http https : ℕ) (timer_made : Option ℕ) (timer_set : Bool) (st : Child)
    → Early st
    → st.server_http_fd ≡ pos http
    → st.server_https_fd ≡ pos https
    → TimerOk st.table timer_made sys.epfd
    → Apart3 sys.ctxs
    → Safely (λ r. Sound r.2) (timer_step sys http https timer_made timer_set st)
unfolding timer_step
timer_step-Sound sys http https none timer_set st e eh es u a = Early-Sound st e
timer_step-Sound sys http https (some fd) false st e eh es u a =
    Early-Sound _ (Early-timer st e fd u.0)
timer_step-Sound sys http https (some fd) true st e eh es u a =
    let st1 : Child = record st { timer_fd = pos fd; table = update st.table fd (some timer) } in
    let step = epoll_step sys.epfd sys.ctxs http https fd st1 in
    bind-Safely _ step _ (λ r eq.
      Safely-ok (λ x. Sound x.1) step
        (epoll_step-Sound sys.epfd sys.ctxs http https fd st1 (Early-timer st e fd u.0) eh es refl
          u.1 a)
        eq)

user_step-Sound :
    (sys : System) (http https : ℕ) (found : Bool) (st : Child)
    → Early st
    → st.server_http_fd ≡ pos http
    → st.server_https_fd ≡ pos https
    → TimerOk (closed_table st.pipe_read_fd st.table) sys.timer_made sys.epfd
    → Apart3 sys.ctxs
    → Safely (λ r. Sound r.2) (user_step sys http https found st)
unfolding user_step piped
user_step-Sound sys http https false st e eh es u a = Early-Sound st e
user_step-Sound sys http https true st e eh es u a =
    let p = pipe_closed st e st.pipe_read_fd e.servers.pipe_read in
    timer_step-Sound sys http https sys.timer_made sys.timer_set
      (record (close_if st.pipe_read_fd st) { pipe_read_fd = failure }) p.is_early
      (p.http_same ∙ eh) (p.https_same ∙ es)
      (subst (λ t. TimerOk t sys.timer_made sys.epfd) (sym p.table_same) u) a

Early-no_https : (st : Child) (n : ℕ) → Early st → Early (record st { server_https_fd = negsuc n })
Early-no_https st n e = record {
  right = e.right;
  servers = record {
    http = e.servers.http;
    https = tt;
    timers = e.servers.timers;
    epolls = e.servers.epolls;
    pipe_read = e.servers.pipe_read;
    pipe_write = e.servers.pipe_write;
  };
  no_http = e.no_http;
  no_https = e.no_https;
  no_ctx = e.no_ctx;
  no_watch = e.no_watch;
}

Early-no_http : (st : Child) (n : ℕ) → Early st → Early (record st { server_http_fd = negsuc n })
Early-no_http st n e = record {
  right = e.right;
  servers = record {
    http = tt;
    https = e.servers.https;
    timers = e.servers.timers;
    epolls = e.servers.epolls;
    pipe_read = e.servers.pipe_read;
    pipe_write = e.servers.pipe_write;
  };
  no_http = e.no_http;
  no_https = e.no_https;
  no_ctx = e.no_ctx;
  no_watch = e.no_watch;
}

-- The table behind a socket that has been bound.
abbrev pub bound_table : (ℕ → Option Kind) → Kind → Bound → ℕ → Option Kind
bound_table table kind (bound fd) = update table fd (some kind)
bound_table table kind _ = table

https_step-Sound :
    (sys : System) (http : ℕ) (b : Bound) (st : Child)
    → Early st
    → st.server_http_fd ≡ pos http
    → BoundOk st.table b
    → TimerOk
        (closed_table st.pipe_read_fd (bound_table st.table listen_https b))
        sys.timer_made
        sys.epfd
    → Apart3 sys.ctxs
    → Safely (λ r. Sound r.2) (https_step sys http (net_server_init listen_https b st))
unfolding https_step net_server_init
https_step-Sound sys http no_socket st e eh u t a = Early-Sound _ (Early-no_https st 0 e)
https_step-Sound sys http (unbound fd) st e eh u t a =
    Early-Sound _ (Early-no_https _ 0 (Early-closed st fd listen_https e u))
https_step-Sound sys http (bound fd) st e eh u t a =
    user_step-Sound sys http fd (sys.user_found && (sys.group_set && sys.user_set))
      (record st { server_https_fd = pos fd; table = update st.table fd (some listen_https) })
      (Early-https st e fd u) eh refl t a

pub http_step-Sound :
    (sys : System) (b : Bound) (st : Child)
    → Early st
    → BoundOk st.table b
    → BoundOk (bound_table st.table listen_http b) sys.https
    → TimerOk
        (closed_table st.pipe_read_fd
          (bound_table (bound_table st.table listen_http b) listen_https sys.https))
        sys.timer_made
        sys.epfd
    → Apart3 sys.ctxs
    → Safely (λ r. Sound r.2) (http_step sys (net_server_init listen_http b st))
unfolding http_step net_server_init
http_step-Sound sys no_socket st e u v t a = Early-Sound _ (Early-no_http st 0 e)
http_step-Sound sys (unbound fd) st e u v t a =
    Early-Sound _ (Early-no_http _ 0 (Early-closed st fd listen_http e u))
http_step-Sound sys (bound fd) st e u v t a =
    https_step-Sound sys fd sys.https
      (record st { server_http_fd = pos fd; table = update st.table fd (some listen_http) })
      (Early-http st e fd u) refl v t a
