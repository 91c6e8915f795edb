-- ===== src/Child/Dispatch.antt =====
-- fws_child_run and _fws_80_run of src/fws.c: what is done for an event, and the loop over the events.
use facows.Types.{Conf}
use facows.Http.{blank_req}
use facows.Session.{State}
use facows.Conn.{fws_443_run}
use facows.Net.Plain.{net_80_443_redir}
use facows.Prelude.{
  ℕ, ◌+◌, Bool, true, false, Option, none, some, List, [], ◌∷◌, if◌then◌else◌, ℤ, pos, failure,
}
use facows.Mem.Run.{Run, ok, ◌>>=◌, Bytes}
use facows.Child.{
  Ctx, Child, Came, After, update, close_if, is_fd, http_accept, https_accept, timer_event,
  ctx_drop,
}
use facows.Child.{next, breaks, gives_up}

-- net_80_443_redir and what it returns: -1 where nothing is sent, or send fails.
abbrev redir_ret : Bool → Option Bytes → ℤ
redir_ret is_sent none = failure
redir_ret is_sent (some _) = if is_sent then pos 0 else failure

-- setsockopt and net_80_443_redir: the result of _fws_80_run
unfoldable pub redir_run : Conf → Came → Run ℤ
redir_run conf came =
    if came.timeout_set
    then (net_80_443_redir conf came.recvs >>= λ r. ok (redir_ret came.is_sent r))
    else ok failure

-- _fws_80_run
unfoldable pub fws_80_run : Conf → Came → Ctx → Child → Run (ℤ × Child)
fws_80_run conf came ctx st = redir_run conf came >>= λ ret. ok (ret, ctx_drop came.ptr ctx st)

-- What _fws_443_run finds in a context.
abbrev pub conn_state : Came → Ctx → Child → State
conn_state came ctx st = record {
  client_ctx = ctx.conn;
  peer = came.peer;
  nft_arr = st.nft_arr;
  messages = st.messages;
  opened = [];
  http_req = blank_req;
  log_flag = 0;
}

-- What it leaves: the context, unless the connection is closed, the table of clients and the messages.
unfoldable pub conn_left : ℕ → Ctx → Child → Bool → State → Child
conn_left ptr ctx st closed left =
    let kept = record ctx { conn = left.client_ctx } in
    let st = record st {
      heap = update st.heap ptr (some kept);
      nft_arr = left.nft_arr;
      messages = left.messages;
    } in
    if closed then ctx_drop ptr kept st else st

-- _fws_443_run, called with a context of the heap
unfoldable pub fws_443_event : Came → Ctx → Child → Run (ℤ × Child)
fws_443_event came ctx st = fws_443_run came.visit (conn_state came ctx st) >>= λ r.
    ok (r.0, conn_left came.ptr ctx st r.1 r.2)

-- "Client"
unfoldable pub client_event : Conf → Came → Ctx → Child → Run After
client_event conf came ctx st =
    if ctx.has_ssl_ctx
    then (fws_443_event came ctx (record st { client_fd = failure }) >>= λ r. ok (next r.1))
    else (fws_80_run conf came ctx (record st { client_http_fd = failure }) >>= λ r. ok (next r.1))

-- An event: by the descriptor of its context
unfoldable pub ctx_event : Conf → Came → Ctx → Child → Run After
ctx_event conf came ctx st =
    if is_fd ctx.fd st.server_http_fd
    then ok (http_accept came.new_fd came.new_ptr came.added st)
    else if is_fd ctx.fd st.server_https_fd
    then ok (https_accept came.new_fd came.new_ptr came.addr came.added st)
    else if is_fd ctx.fd st.timer_fd
    then ok (timer_event came.timer_read st)
    else client_event conf came ctx st

unfoldable pub child_event : Conf → Came → Child → Run After
child_event conf came st = elim (st.heap came.ptr) [
  | none ↦ ok (next (record st { wrong = st.wrong + 1 }))
  | some ctx ↦ ctx_event conf came ctx st
]

-- The events that one call of epoll_wait has given: the state, and whether the loop is given up.
unfoldable pub child_batch : Conf → List Came → Child → Run (Bool × Child)
child_batch conf [] st = ok (false, st)
child_batch conf (came ∷ batch) st = child_event conf came st >>= λ after. elim after [
  | next st ↦ child_batch conf batch st
  | breaks st ↦ ok (false, st)
  | gives_up st ↦ ok (true, st)
]

-- The loop of epoll_wait. The end of the list stands for the call that fails, or the signal.
unfoldable pub child_loop : Conf → List (List Came) → Child → Run (ℤ × Child)
child_loop conf [] st = ok (pos 0, st)
child_loop conf (batch ∷ batches) st = child_batch conf batch st >>= λ r.
    let rest = child_loop conf batches r.1 in if r.0 then ok (pos 1, r.1) else rest

-- The closes of the label `out`, in their order
unfoldable pub closes : List ℤ → Child → Child
closes [] st = st
closes (fd ∷ fds) st = closes fds (close_if fd st)

-- The label `out`
unfoldable pub child_out : Child → Child
child_out st =
    record (closes
      (st.client_http_fd ∷ st.client_fd ∷ st.timer_fd ∷ st.server_http_fd ∷ st.server_https_fd
        ∷ st.fws_epfd ∷ st.pipe_read_fd ∷ st.pipe_write_fd ∷ [])
      st) {
        client_http_fd = failure;
        client_fd = failure;
        timer_fd = failure;
        server_http_fd = failure;
        server_https_fd = failure;
        fws_epfd = failure;
        pipe_read_fd = failure;
        pipe_write_fd = failure;
      }

-- The loop and what is behind it: the status that the process ends with, and what it leaves.
unfoldable pub child_serve : Conf → List (List Came) → Child → Run (ℤ × Child)
child_serve conf batches st = child_loop conf batches st >>= λ r. ok (r.0, child_out r.1)
