-- ===== src/Start/Ends.antt =====
-- main and fws_parent_run come to an end when the events do.
use facows.Types.{Conf}
use facows.Conf.FileEnds.{file_conf_read-Ends}
use facows.Parent.{Act, frames_loop}
use facows.Parent.FramesEnds.{frames_loop-Ends}
use facows.Parent.Watch.{
  PipeRead, Waited, Turn, ParentSystem, reads_loop, pipe_event, watch_loop, log_path, log_step,
  shut, fws_parent_run,
}
use facows.Parent.Watch.{
  came, pipe_end, again, read_failed, wait_failed, other_event, readable, continues, ends_loop,
}
use facows.Start.{
  Boot, Forked, args_parse, conf_path, blank_conf, conf_next, mode_next, main, fork_next,
}
use facows.Start.{fork_failed, in_child, in_parent}
use facows.Mem.TextEnds.{put-Ends}
use facows.Mem.Ends.{
  Ends, bind-Ends, map_run-Ends, if-Ends, option-Ends, memcmp-Ends, strnlen-Ends, copy-Ends,
  store-Ends, write-Ends,
}
use facows.Mem.Text.{codes}
use facows.Prelude.{
  ℕ, suc, ◌+◌, Bool, true, false, not, ◌&&◌, Option, none, some, List, [], ◌∷◌, ◌++◌, arith, ◌==◌,
  length, ℤ, pos, is_negative,
}
use facows.Mem.Run.{ok, map_run, Bytes}
use facows.Mem.Libc.{zeros}

reads_loop-Ends :
    (hup : Bool) (reads : List PipeRead) (flag : ℕ) (buf : Bytes) (n : ℕ)
    → Ends (reads_loop hup reads flag buf n)
unfolding reads_loop
reads_loop-Ends hup [] flag buf n = tt
reads_loop-Ends hup (again ∷ reads) flag buf n = tt
reads_loop-Ends hup (pipe_end ∷ reads) flag buf n = tt
reads_loop-Ends hup (read_failed ∷ reads) flag buf n =
    if-Ends hup _ _ (λ _. tt) (λ _. reads_loop-Ends hup reads 1 buf n)
reads_loop-Ends hup (came s ∷ reads) flag buf n =
    bind-Ends _ _ (write-Ends buf 0 s) (λ b _. reads_loop-Ends hup reads flag b (n + length s))

pipe_event-Ends :
    (conf : Conf) (hup : Bool) (reads : List PipeRead) → Ends (pipe_event conf hup reads)
unfolding pipe_event
pipe_event-Ends conf hup reads = bind-Ends _ _ (reads_loop-Ends hup reads 0 (zeros 8192) 0) (λ r _.
    if-Ends (r.0 == 1) _ _ (λ _. tt)
      (λ _.
        if-Ends (r.0 == 2) _ _ (λ _. tt)
          (λ _. bind-Ends _ _ (store-Ends r.1 r.2 0) (λ b _.
            map_run-Ends continues (frames_loop (suc r.2) conf b r.2)
              (frames_loop-Ends (suc r.2) conf b r.2 (omega arith))))))

watch_loop-Ends : (conf : Conf) (events : List Waited) → Ends (watch_loop conf events)
unfolding watch_loop
watch_loop-Ends conf [] = tt
watch_loop-Ends conf (wait_failed by_signal ∷ events) = tt
watch_loop-Ends conf (other_event ∷ events) = tt
watch_loop-Ends conf (readable hup reads ∷ events) =
    bind-Ends _ _ (pipe_event-Ends conf hup reads)
      (λ turn _. by_turn (watch_loop-Ends conf events) turn)
  where
    by_turn :
        Ends (watch_loop conf events)
        → (turn : Turn)
        → Ends {A = Bool × List Act} (elim turn [
          | ends_loop ↦ ok (true, [])
          | continues acts ↦ map_run (λ r. (r.0, acts ++ r.1)) (watch_loop conf events)
        ])
    by_turn later ends_loop = tt
    by_turn later (continues acts) = map_run-Ends _ (watch_loop conf events) later

log_path-Ends : (conf : Conf) → Ends (log_path conf)
unfolding log_path
log_path-Ends conf = bind-Ends _ _ (strnlen-Ends conf.web_log 128) (λ n _.
    bind-Ends _ _ (copy-Ends conf.web_log n) (λ s _.
      bind-Ends _ _ (put-Ends (zeros 256) 0 s)
        (λ p _. bind-Ends _ _ (put-Ends p.0 p.1 (codes "/facows.log")) (λ _ _. tt))))

pub fws_parent_run-Ends :
    (conf : Conf) (sys : ParentSystem) (read_fd write_fd : ℤ)
    → Ends (fws_parent_run conf sys read_fd write_fd)
unfolding fws_parent_run log_step
fws_parent_run-Ends conf sys read_fd write_fd =
    if-Ends sys.nft_made _ _ (λ _. bind-Ends _ _ (log_path-Ends conf) (λ _ _. by_log sys.log_fd))
      (λ _. tt)
  where
    by_log : (log_fd : Option ℕ) → Ends (log_step conf sys log_fd (shut write_fd) read_fd)
    by_log none = tt
    by_log (some fd) = bind-Ends _ _ (watch_loop-Ends conf sys.events) (λ _ _. tt)

args_parse-Ends : (args : List Bytes) → Ends (args_parse args)
unfolding args_parse
args_parse-Ends [] = tt
args_parse-Ends (arg ∷ []) = bind-Ends _ _ (memcmp-Ends (codes "test" ++ 0 ∷ []) arg 5) (λ _ _. tt)
args_parse-Ends (arg ∷ other ∷ args) = tt

fork_next-Ends :
    (forked : Forked) (sys : ParentSystem) (conf : Conf) (r w : ℕ)
    → Ends (fork_next forked sys conf r w)
unfolding fork_next
fork_next-Ends fork_failed sys conf r w = tt
fork_next-Ends (in_child true) sys conf r w = tt
fork_next-Ends (in_child false) sys conf r w = tt
fork_next-Ends (in_parent false) sys conf r w = tt
fork_next-Ends (in_parent true) sys conf r w =
    bind-Ends _ _ (fws_parent_run-Ends conf sys (pos r) (pos w)) (λ _ _. tt)

pub main-Ends : (boot : Boot) → Ends (main boot)
unfolding main mode_next conf_next
main-Ends boot = bind-Ends _ _ (args_parse-Ends boot.args) (λ test_mode _.
    option-Ends test_mode _ _ tt (λ test_mode.
      if-Ends (boot.sigint_set && (boot.sigterm_set && boot.sigpipe_set)) _ _
        (λ _.
          bind-Ends _ _
            (file_conf_read-Ends (record blank_conf { test_mode = test_mode })
              (boot.read_file (conf_path test_mode)))
            (λ r _.
              if-Ends (is_negative r.0) _ _ (λ _. tt)
                (λ _.
                  if-Ends (r.1.use_nft && not boot.nft_inited) _ _ (λ _. tt)
                    (λ _.
                      option-Ends boot.pipe_fds _ _ tt
                        (λ fds. fork_next-Ends boot.forked boot.parent r.1 fds.0 fds.1)))))
        (λ _. tt)))
