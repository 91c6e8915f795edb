-- ===== src/Child/Ends.antt =====
-- fws_child_run comes to an end when the events do.
use facows.Types.{Conf}
use facows.Child.{Ctx, Child, Came, After, is_fd}
use facows.Child.{next, breaks, gives_up}
use facows.Child.Dispatch.{
  redir_run, fws_80_run, conn_state, fws_443_event, client_event, ctx_event, child_event,
  child_batch, child_loop, child_serve,
}
use facows.Child.Setup.{
  System, epoll_step, timer_step, user_step, https_step, http_step, child_setup, fws_child_run,
}
use facows.Conn.Ends.{fws_443_run-Ends}
use facows.Net.PlainEnds.{net_80_443_redir-Ends}
use facows.Mem.Ends.{Ends, bind-Ends, if-Ends, option-Ends}
use facows.Prelude.{ℕ, Bool, true, false, ◌&&◌, Option, none, some, List, [], ◌∷◌, ℤ, pos, negsuc}
use facows.Mem.Run.{ok}

module _ (conf : Conf) (came : Came) where
  fws_80_run-Ends : (ctx : Ctx) (st : Child) → Ends (fws_80_run conf came ctx st)
  unfolding fws_80_run redir_run
  fws_80_run-Ends ctx st =
      bind-Ends _ _
        (if-Ends came.timeout_set _ _
          (λ _. bind-Ends _ _ (net_80_443_redir-Ends conf came.recvs) (λ _ _. tt)) (λ _. tt))
        (λ _ _. tt)

  fws_443_event-Ends : (ctx : Ctx) (st : Child) → Ends (fws_443_event came ctx st)
  unfolding fws_443_event
  fws_443_event-Ends ctx st =
      bind-Ends _ _ (fws_443_run-Ends came.visit (conn_state came ctx st)) (λ _ _. tt)

  ctx_event-Ends : (ctx : Ctx) (st : Child) → Ends (ctx_event conf came ctx st)
  unfolding ctx_event client_event
  ctx_event-Ends ctx st =
      if-Ends (is_fd ctx.fd st.server_http_fd) _ _ (λ _. tt)
        (λ _.
          if-Ends (is_fd ctx.fd st.server_https_fd) _ _ (λ _. tt)
            (λ _.
              if-Ends (is_fd ctx.fd st.timer_fd) _ _ (λ _. tt)
                (λ _.
                  if-Ends ctx.has_ssl_ctx _ _
                    (λ _. bind-Ends _ _ (fws_443_event-Ends ctx _) (λ _ _. tt))
                    (λ _. bind-Ends _ _ (fws_80_run-Ends ctx _) (λ _ _. tt)))))

  child_event-Ends : (st : Child) → Ends (child_event conf came st)
  unfolding child_event
  child_event-Ends st = option-Ends (st.heap came.ptr) _ _ tt (λ ctx. ctx_event-Ends ctx st)

child_batch-Ends : (conf : Conf) (batch : List Came) (st : Child) → Ends (child_batch conf batch st)
unfolding child_batch
child_batch-Ends conf [] st = tt
child_batch-Ends conf (came ∷ batch) st =
    bind-Ends _ _ (child_event-Ends conf came st)
      (λ after _. by_after (λ st'. child_batch-Ends conf batch st') after)
  where
    by_after :
        ((st' : Child) → Ends (child_batch conf batch st'))
        → (after : After)
        → Ends (elim after [
          | next st ↦ child_batch conf batch st
          | breaks st ↦ ok (false, st)
          | gives_up st ↦ ok (true, st)
        ])
    by_after later (next st') = later st'
    by_after later (breaks st') = tt
    by_after later (gives_up st') = tt

child_loop-Ends :
    (conf : Conf) (batches : List (List Came)) (st : Child) → Ends (child_loop conf batches st)
unfolding child_loop
child_loop-Ends conf [] st = tt
child_loop-Ends conf (batch ∷ batches) st =
    bind-Ends _ _ (child_batch-Ends conf batch st)
      (λ r _. if-Ends r.0 _ _ (λ _. tt) (λ _. child_loop-Ends conf batches r.1))

module _ (sys : System) where
  epoll_step-Ends :
      (epfd : Option ℕ) (ctxs : Option (ℕ × ℕ × ℕ)) (http https fd : ℕ) (st : Child)
      → Ends (epoll_step epfd ctxs http https fd st)
  unfolding epoll_step
  epoll_step-Ends none none http https fd st = tt
  epoll_step-Ends (some e) none http https fd st = tt
  epoll_step-Ends none (some ptrs) http https fd st = tt
  epoll_step-Ends (some e) (some ptrs) http https fd st = tt

  timer_step-Ends :
      (http https : ℕ) (made : Option ℕ) (timer_set : Bool) (st : Child)
      → Ends (timer_step sys http https made timer_set st)
  unfolding timer_step
  timer_step-Ends http https none timer_set st = tt
  timer_step-Ends http https (some fd) false st = tt
  timer_step-Ends http https (some fd) true st =
      bind-Ends _ _ (epoll_step-Ends sys.epfd sys.ctxs http https fd _) (λ _ _. tt)

  user_step-Ends :
      (http https : ℕ) (user_found : Bool) (st : Child)
      → Ends (user_step sys http https user_found st)
  unfolding user_step
  user_step-Ends http https false st = tt
  user_step-Ends http https true st = timer_step-Ends http https sys.timer_made sys.timer_set _

  https_step-Ends : (http : ℕ) (made : ℤ × Child) → Ends (https_step sys http made)
  unfolding https_step
  https_step-Ends http (negsuc n, st) = tt
  https_step-Ends http (pos fd, st) = user_step-Ends http fd _ _

  http_step-Ends : (made : ℤ × Child) → Ends (http_step sys made)
  unfolding http_step
  http_step-Ends (negsuc n, st) = tt
  http_step-Ends (pos fd, st) = https_step-Ends fd _

  child_setup-Ends : (st : Child) → Ends (child_setup sys st)
  unfolding child_setup
  child_setup-Ends st =
      if-Ends (sys.nft_made && sys.ssl_ready) _ _ (λ _. http_step-Ends _) (λ _. tt)

pub fws_child_run-Ends :
    (conf : Conf) (sys : System) (batches : List (List Came)) (st : Child)
    → Ends (fws_child_run conf sys batches st)
unfolding fws_child_run child_serve
fws_child_run-Ends conf sys batches st = bind-Ends _ _ (child_setup-Ends sys st) (λ r _.
    if-Ends r.1 _ _ (λ _. bind-Ends _ _ (child_loop-Ends conf batches r.2) (λ _ _. tt)) (λ _. tt))
