-- ===== src/Parent/Watch.antt =====
-- fws_parent_run of src/fws.c: the loop over the events of the pipe, what is set up before it, and
-- what follows it.
use facows.Types.{Conf}
use facows.Nft.{net_nft_fini}
use facows.Parent.{Act, frames_loop}
use facows.Mem.Text.{codes, put}
use facows.Prelude.{
  ℕ, suc, ◌+◌, Bool, true, false, Option, none, some, List, [], ◌∷◌, ◌++◌, ◌==◌, if◌then◌else◌,
  length, ℤ, pos, negsuc, failure,
}
use facows.Mem.Run.{Run, ok, ◌>>=◌, map_run, Bytes}
use facows.Mem.Libc.{strnlen, copy, store, write, zeros}

-- What a call of read on the pipe comes to.
pub data PipeRead : Type 0 where
  came : Bytes → PipeRead
  pipe_end : PipeRead
  again : PipeRead
  read_failed : PipeRead

-- What a call of epoll_wait comes to: it fails, by a signal to end or otherwise; or it reports an event:
-- neither EPOLLIN nor EPOLLHUP; or one of them, whether EPOLLHUP, and what the reads come to.
pub data Waited : Type 0 where
  wait_failed : Bool → Waited
  other_event : Waited
  readable : Bool → List PipeRead → Waited

-- The loop of reads: read_flag, the buffer and read_acc. A list that has come to its end stands for
-- EAGAIN.
unfoldable pub reads_loop : Bool → List PipeRead → ℕ → Bytes → ℕ → Run (ℕ × Bytes × ℕ)
reads_loop hup [] read_flag read_buf read_acc = ok (read_flag, read_buf, read_acc)
reads_loop hup (again ∷ reads) read_flag read_buf read_acc = ok (read_flag, read_buf, read_acc)
reads_loop hup (pipe_end ∷ reads) read_flag read_buf read_acc = ok (2, read_buf, read_acc)
reads_loop hup (read_failed ∷ reads) read_flag read_buf read_acc =
    let rest = reads_loop hup reads 1 read_buf read_acc in
    if hup then ok (2, read_buf, read_acc) else rest
reads_loop hup (came s ∷ reads) read_flag read_buf read_acc =
    write read_buf 0 s >>= λ read_buf. reads_loop hup reads read_flag read_buf (read_acc + length s)

-- How the loop goes on after an event, with what has been done for it.
pub data Turn : Type 0 where
  continues : List Act → Turn
  ends_loop : Turn

-- The body of the loop on EPOLLIN or EPOLLHUP
unfoldable pub pipe_event : Conf → Bool → List PipeRead → Run Turn
pipe_event conf hup reads = reads_loop hup reads 0 (zeros 8192) 0 >>= λ r.
    let (read_flag, read_buf, read_acc) = r in
    if read_flag == 1
    then ok (continues [])
    else if read_flag == 2
    then ok ends_loop
    else (store read_buf read_acc 0 >>= λ read_buf.
        map_run continues (frames_loop (suc read_acc) conf read_buf read_acc))

-- The loop: whether it has been left by `break`, and not by `goto out` with -1, and what has been done.
-- The end of the list stands for the signal to end.
unfoldable pub watch_loop : Conf → List Waited → Run (Bool × List Act)
watch_loop conf [] = ok (true, [])
watch_loop conf (wait_failed by_signal ∷ events) = ok (by_signal, [])
watch_loop conf (other_event ∷ events) = ok (false, [])
watch_loop conf (readable hup reads ∷ events) = pipe_event conf hup reads >>= λ turn. elim turn [
  | ends_loop ↦ ok (true, [])
  | continues acts ↦ map_run (λ r. (r.0, acts ++ r.1)) (watch_loop conf events)
]

-- log_path_buf
unfoldable pub log_path : Conf → Run Bytes
log_path conf = strnlen conf.web_log 128 >>= λ n. copy conf.web_log n >>= λ web_log.
    put (zeros 256, 0) web_log >>= λ p. put p (codes "/facows.log") >>= λ p. ok p.0

-- What the other calls come to: nft_ctx_new, open of the log file, epoll_create1, which is not tested,
-- waitpid, and whether net_nft_fini has its context.
pub record ParentSystem : Type 0 where
  pub nft_made : Bool
  pub log_fd : Option ℕ
  pub ep_fd : ℕ
  pub is_waited : Bool
  pub nft_fini_made : Bool
  pub events : List Waited

-- What is done with descriptors.
pub data FdOp : Type 0 where
  opens : ℕ → FdOp
  closes : ℕ → FdOp

-- What the parent has done: the result, the messages, the commands of net_nft_fini, and the
-- descriptors that it has opened and closed, in their order.
pub record Parted : Type 0 where
  pub ret : ℤ
  pub acts : List Act
  pub fini : List Bytes
  pub fds : List FdOp

-- `if (fd >= 0) { close(fd); ... }`
abbrev pub shut : ℤ → List FdOp
shut (pos fd) = closes fd ∷ []
shut (negsuc n) = []

-- Behind the loop: waitpid, and the tables of the net filter when the configuration has it. The result
-- and the commands.
unfoldable pub wind_down : Bool → Bool → Bool → Conf → ℤ × List Bytes
wind_down false use_nft nft_fini_made conf = (failure, [])
wind_down true false nft_fini_made conf = (pos 0, [])
wind_down true true false conf = (failure, [])
wind_down true true true conf = (pos 0, net_nft_fini conf)

-- What follows the loop: it has been left by `break`, or by `goto out`.
unfoldable pub loop_next : Conf → ParentSystem → ℕ → List FdOp → ℤ → Bool × List Act → Parted
loop_next conf sys log_fd write_closed pipe_read_fd (true, acts) =
    let wound = wind_down sys.is_waited conf.use_nft sys.nft_fini_made conf in
    record {
      ret = wound.0;
      acts = acts;
      fini = wound.1;
      fds =
          write_closed
          ++ opens log_fd
            ∷ opens sys.ep_fd
            ∷ (shut pipe_read_fd ++ closes sys.ep_fd ∷ closes log_fd ∷ []);
    }
loop_next conf sys log_fd write_closed pipe_read_fd (false, acts) = record {
  ret = failure;
  acts = acts;
  fini = [];
  fds =
      write_closed
      ++ opens log_fd ∷ opens sys.ep_fd ∷ closes sys.ep_fd ∷ closes log_fd ∷ shut pipe_read_fd;
}

-- From the log file on: the end of the pipe for writing has been closed before.
unfoldable pub log_step : Conf → ParentSystem → Option ℕ → List FdOp → ℤ → Run Parted
log_step conf sys none write_closed pipe_read_fd =
    ok (record { ret = failure; acts = []; fini = []; fds = write_closed ++ shut pipe_read_fd })
log_step conf sys (some log_fd) write_closed pipe_read_fd =
    watch_loop conf sys.events >>= λ r. ok (loop_next conf sys log_fd write_closed pipe_read_fd r)

-- fws_parent_run
unfoldable pub fws_parent_run : Conf → ParentSystem → ℤ → ℤ → Run Parted
fws_parent_run conf sys pipe_read_fd pipe_write_fd =
    if sys.nft_made
    then (log_path conf >>= λ _. log_step conf sys sys.log_fd (shut pipe_write_fd) pipe_read_fd)
    else ok (record {
      ret = failure;
      acts = [];
      fini = [];
      fds = shut pipe_write_fd ++ shut pipe_read_fd;
    })
