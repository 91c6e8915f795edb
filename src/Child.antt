-- ===== src/Child.antt =====
-- fws_child_run of src/fws.c: the descriptors and the contexts of the process that serves, and the
-- sections of its loop that take connections and the timer.
pub mod Dispatch
pub mod Sound
pub mod Taken
pub mod Events
pub mod Loop
pub mod Serves
pub mod Setup
pub mod Starts
pub mod Piped
pub mod Steps
pub mod Ends
pub mod Whole
use facows.Types.{DataCtx, Nft}
use facows.Limit.{limit_reset}
use facows.Conn.{Visit}
use facows.Net.Plain.{RecvRet}
use facows.Tls.{Peer}
use facows.Prelude.{
  ℕ, ◌+◌, Bool, true, false, Option, none, some, List, ◌==◌, if◌then◌else◌, ℤ, pos, negsuc, failure,
}
use facows.Mem.Run.{Bytes}
use facows.Mem.Libc.{zeros}

-- What a descriptor of the process stands for.
pub data Kind : Type 0 where
  listen_http : Kind
  listen_https : Kind
  timer : Kind
  epoll : Kind
  pipe_in : Kind
  pipe_out : Kind
  plain : Kind
  tls : Kind

-- struct fws_data_ctx as the event loop sees it: the descriptor, whether ssl_ctx_opq_p is set, and what
-- the connection keeps between two events.
pub record Ctx : Type 0 where
  pub fd : ℕ
  pub has_ssl_ctx : Bool
  pub conn : DataCtx

-- The variables of fws_child_run, a negative number for no descriptor; the descriptors that are open,
-- the contexts that are allocated, by their addresses, and the context that epoll has for a descriptor;
-- the table of clients, and the messages that have been written to the parent. `wrong` counts what must
-- not happen: a close of a descriptor that is not open, and an event of a context that has been freed.
pub record Child : Type 0 where
  pub server_http_fd : ℤ
  pub server_https_fd : ℤ
  pub timer_fd : ℤ
  pub fws_epfd : ℤ
  pub client_http_fd : ℤ
  pub client_fd : ℤ
  pub pipe_read_fd : ℤ
  pub pipe_write_fd : ℤ
  pub table : ℕ → Option Kind
  pub heap : ℕ → Option Ctx
  pub watch : ℕ → Option ℕ
  pub nft_arr : List Nft
  pub messages : List Bytes
  pub wrong : ℕ

abbrev pub update {ℓ} : {A : Type ℓ} → (ℕ → A) → ℕ → A → ℕ → A
update f i a j = if j == i then a else f j

-- `close(fd)`, which takes the descriptor from epoll as well
unfoldable pub close : ℕ → Child → Child
close fd st = elim (st.table fd) [
  | none ↦ record st { wrong = st.wrong + 1 }
  | some _ ↦ record st { table = update st.table fd none; watch = update st.watch fd none }
]

-- `if (fd >= 0) { close(fd); ... }`
abbrev pub close_if : ℤ → Child → Child
close_if (pos fd) st = close fd st
close_if (negsuc _) st = st

-- `data_ctx_p->fd == fd`
abbrev pub is_fd : ℕ → ℤ → Bool
is_fd fd (pos n) = fd == n
is_fd fd (negsuc _) = false

-- What an event brings: the context that epoll_wait gives; what accept4 and calloc return, and whether
-- epoll_ctl adds the connection; the client's address; whether the timer can be read; whether setsockopt
-- and send succeed, and what recv comes to; and what is read and written over TLS.
pub record Came : Type 0 where
  pub ptr : ℕ
  pub new_fd : Option ℕ
  pub new_ptr : Option ℕ
  pub added : Bool
  pub addr : Bytes
  pub timer_read : Bool
  pub timeout_set : Bool
  pub recvs : List RecvRet
  pub is_sent : Bool
  pub visit : Visit
  pub peer : Peer

-- How the loop over the events goes on: with the next one; with `break`; or with `goto out` and 1.
pub data After : Type 0 where
  next : Child → After
  breaks : Child → After
  gives_up : Child → After

-- A context as calloc leaves it, with the client's address.
abbrev pub blank_ctx : Bytes → DataCtx
blank_ctx addr = record {
  file_len = pos 0;
  req_buf = zeros 8192;
  acc_read_n = 0;
  want_write = false;
  ssl_status = 0;
  file_path = zeros 1024;
  client_ip_buf = addr;
}

abbrev pub new_ctx : ℕ → Bool → Bytes → Ctx
new_ctx fd has_ssl_ctx addr = record { fd = fd; has_ssl_ctx = has_ssl_ctx; conn = blank_ctx addr }

-- "Server 80": what accept4 and calloc return, and whether epoll_ctl adds the connection
unfoldable pub http_accept : Option ℕ → Option ℕ → Bool → Child → After
http_accept none new_ptr added st = breaks (record st { client_http_fd = failure })
http_accept (some fd) none added st =
    gives_up (record st { client_http_fd = pos fd; table = update st.table fd (some plain) })
http_accept (some fd) (some ptr) true st = next (record st {
  client_http_fd = pos fd;
  table = update st.table fd (some plain);
  heap = update st.heap ptr (some (new_ctx fd false (zeros 16)));
  watch = update st.watch fd (some ptr);
})
http_accept (some fd) (some ptr) false st =
    let heap = update st.heap ptr (some (new_ctx fd false (zeros 16))) in
    let st =
      close fd (record st { client_http_fd = pos fd; table = update st.table fd (some plain) }) in
    breaks (record st { client_http_fd = failure; heap = update heap ptr none })

-- "Server 443": what accept4 and calloc return, the client's address, and whether epoll_ctl adds the
-- connection
unfoldable pub https_accept : Option ℕ → Option ℕ → Bytes → Bool → Child → After
https_accept none new_ptr addr added st = breaks (record st { client_fd = failure })
https_accept (some fd) none addr added st =
    gives_up (record st { client_fd = pos fd; table = update st.table fd (some tls) })
https_accept (some fd) (some ptr) addr true st = next (record st {
  client_fd = pos fd;
  table = update st.table fd (some tls);
  heap = update st.heap ptr (some (new_ctx fd true addr));
  watch = update st.watch fd (some ptr);
})
https_accept (some fd) (some ptr) addr false st =
    let heap = update st.heap ptr (some (new_ctx fd true addr)) in
    let st = close fd (record st { client_fd = pos fd; table = update st.table fd (some tls) }) in
    breaks (record st { client_fd = failure; heap = update heap ptr none })

-- "Timer"
unfoldable pub timer_event : Bool → Child → After
timer_event true st = next (record st { nft_arr = limit_reset st.nft_arr })
timer_event false st = breaks st

-- `close(data_ctx_p->fd); free(data_ctx_p);`
unfoldable pub ctx_drop : ℕ → Ctx → Child → Child
ctx_drop ptr ctx st = let st = close ctx.fd st in record st { heap = update st.heap ptr none }
