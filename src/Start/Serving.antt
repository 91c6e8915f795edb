-- ===== src/Start/Serving.antt =====
-- main: what the process that serves begins with.
use facows.Types.{Conf}
use facows.Conf.Parse.{file_conf_read}
use facows.Mem.Text.{codes}
use facows.Mem.Libc.{memcmp, zeros}
use facows.Mem.Laws.{memcmp-append}
use facows.Start.{
  Boot, conf_path, Forked, Ended, args_parse, conf_read, conf_next, mode_next, main, fork_next,
}
use facows.Start.{fork_failed, in_child, in_parent, exits, parted, serves}
use facows.Parent.Watch.{fws_parent_run}
use facows.Start.Ends.{main-Ends}
use facows.Mem.Ends.{Gives}
use facows.Session.Measure.{Ends-Gives, Safely, bind-Safely, if-Safely}
use facows.Prelude.{
  ℕ, ◌≡◌, refl, sym, ap, ◌∙◌, subst, ◌≢◌, inl, inr, Bool, true, false, not, ◌&&◌, Option, none,
  some, List, [], ◌∷◌, ◌++◌, arith, if◌then◌else◌, length, replicate, ℤ, pos, negsuc, is_negative,
}
use facows.Mem.Run.{ok, Bytes, Run-cases}

-- The mode and the file of the configuration, by the arguments: the test mode is that of the one
-- argument "test".
pub data Mode : List Bytes → Bool → Bytes → Type 0 where
  bare : Mode [] false (codes "/etc/facows/facows.conf")
  for_test :
      (rest : Bytes)
      → Mode ((codes "test" ++ 0 ∷ rest) ∷ []) true (codes "/etc/facows/facows_test.conf")
  other_arg :
      (arg : Bytes)
      → ((rest : Bytes) → arg ≢ codes "test" ++ 0 ∷ rest)
      → Mode (arg ∷ []) false (codes "/etc/facows/facows.conf")

-- The configuration before the file is read: all numbers and texts are zero, and all flags are off,
-- but for the mode.
abbrev pub cleared : Bool → Conf
cleared test_mode = record {
  http_port = 0;
  https_port = 0;
  allow_ports = replicate 128 0;
  domain = replicate 128 0;
  web_root = replicate 128 0;
  web_log = replicate 128 0;
  ssl_cert = replicate 128 0;
  ssl_key = replicate 128 0;
  use_nft = false;
  pps_limit = 0;
  pps_burst = 0;
  ban_time = 0;
  ban_lim = 0;
  lim_swap_time = 0;
  lim_page = 0;
  lim_res = 0;
  use_hsts = false;
  hsts_max_age = 0;
  cache_max_age = 0;
  use_ktls = false;
  test_mode = test_mode;
  mime_default = replicate 128 0;
  mime = replicate 1024 0;
}

conf_read-cleared :
    (boot : Boot) (test_mode : Bool)
    → conf_read boot test_mode
      ≡ file_conf_read (cleared test_mode) (boot.read_file (conf_path test_mode))
unfolding zeros
conf_read-cleared boot test_mode = refl

-- Equal bytes: those of `s` stand in front of the other text.
memcmp-front : (s q : Bytes) → memcmp s q (length s) ≡ ok true → (t : Bytes) × (q ≡ s ++ t)
unfolding memcmp
memcmp-front [] q e = (q, refl)
memcmp-front (x ∷ s) [] e = absurd (cc)
memcmp-front (x ∷ s) (y ∷ q) e = elim (Run-cases (memcmp s q (length s))) [
  | inl (true, m) ↦ let (t, r) = memcmp-front s q m in (t, ground arith)
  | inl (false, m) ↦ absurd (ground arith)
  | inr (inl m) ↦ absurd (ground arith)
  | inr (inr m) ↦ absurd (ground arith)
]

arg-Mode :
    (arg : Bytes) (same : Bool)
    → memcmp (codes "test" ++ 0 ∷ []) arg 5 ≡ ok same
    → Mode (arg ∷ []) same (conf_path same)
arg-Mode arg true e =
    let (t, r) = memcmp-front (codes "test" ++ 0 ∷ []) arg e in
    subst (λ a. Mode (a ∷ []) true (codes "/etc/facows/facows_test.conf")) (sym r) (for_test t)
arg-Mode arg false e = other_arg arg (λ rest same.
    let yes : memcmp (codes "test" ++ 0 ∷ []) arg 5 ≡ ok true =
      ap (λ a. memcmp (codes "test" ++ 0 ∷ []) a 5) same
      ∙ memcmp-append (codes "test" ++ 0 ∷ []) [] rest in
    absurd (cc))

args_parse-Mode :
    (args : List Bytes) (test_mode : Bool)
    → args_parse args ≡ ok (some test_mode)
    → Mode args test_mode (conf_path test_mode)
unfolding args_parse
args_parse-Mode [] true e = absurd (cc)
args_parse-Mode [] false e = bare
args_parse-Mode (arg ∷ []) test_mode e = elim (Run-cases (memcmp (codes "test" ++ 0 ∷ []) arg 5)) [
  | inl (same, m) ↦
      let t : same ≡ test_mode = ground arith in
      subst (λ b. Mode (arg ∷ []) b (conf_path b)) t (arg-Mode arg same m)
  | inr (inl m) ↦ absurd (ground arith)
  | inr (inr m) ↦ absurd (ground arith)
]
args_parse-Mode (arg ∷ more ∷ args) test_mode e = absurd (cc)

-- What stands behind a process that serves with `conf` and the ends of a pipe: the signals are set, the
-- cleared configuration has been filled from the file of the mode without an error; the net filter has
-- been set when the configuration has it; the pipe is the one that was made, and the process is the child.
pub record Begun (boot : Boot) (conf : Conf) (read_fd write_fd : ℕ) : Type 0 where
  pub signals : (boot.sigint_set && (boot.sigterm_set && boot.sigpipe_set)) ≡ true
  pub test_mode : Bool
  pub path : Bytes
  pub code : ℕ
  pub mode : Mode boot.args test_mode path
  pub read : file_conf_read (cleared test_mode) (boot.read_file path) ≡ ok (pos code, conf)
  pub filter : (conf.use_nft && not boot.nft_inited) ≡ false
  pub pipe : boot.pipe_fds ≡ some (read_fd, write_fd)
  pub child : boot.forked ≡ in_child true

abbrev pub Serves : Boot → Ended → Type 0
Serves boot (serves conf read_fd write_fd) = Begun boot conf read_fd write_fd
Serves boot (exits status ops) = Unit
Serves boot (parted status p) = Unit

module _ (boot : Boot) where
  fork_next-Serves :
      (conf : Conf) (r w : ℕ) (forked : Forked)
      → (forked ≡ in_child true → Begun boot conf r w)
      → Safely (Serves boot) (fork_next forked boot.parent conf r w)
  unfolding fork_next
  fork_next-Serves conf r w fork_failed b = tt
  fork_next-Serves conf r w (in_child true) b = b refl
  fork_next-Serves conf r w (in_child false) b = tt
  fork_next-Serves conf r w (in_parent false) b = tt
  fork_next-Serves conf r w (in_parent true) b =
      bind-Safely _ (fws_parent_run conf boot.parent (pos r) (pos w)) _ (λ p _. tt)

  pipe_next-Serves :
      (conf : Conf) (pipe_fds : Option (ℕ × ℕ))
      → ((r w : ℕ) → pipe_fds ≡ some (r, w) → boot.forked ≡ in_child true → Begun boot conf r w)
      → Safely (Serves boot) (elim pipe_fds [
        | none ↦ ok (exits 1 [])
        | some (read_fd, write_fd) ↦ fork_next boot.forked boot.parent conf read_fd write_fd
      ])
  pipe_next-Serves conf none b = tt
  pipe_next-Serves conf (some (r, w)) b = fork_next-Serves conf r w boot.forked (b r w refl)

  code_next-Serves :
      (test_mode : Bool) (ret : ℤ) (conf : Conf)
      → (boot.sigint_set && (boot.sigterm_set && boot.sigpipe_set)) ≡ true
      → args_parse boot.args ≡ ok (some test_mode)
      → conf_read boot test_mode ≡ ok (ret, conf)
      → Safely (Serves boot) (if is_negative ret then ok (exits 1 []) else conf_next boot conf)
  unfolding conf_next
  code_next-Serves test_mode (negsuc n) conf signals args read = tt
  code_next-Serves test_mode (pos code) conf signals args read =
      if-Safely _ (conf.use_nft && not boot.nft_inited) _ _ (λ _. tt)
        (λ filter. pipe_next-Serves conf boot.pipe_fds (λ r w pipe child. record {
          signals = signals;
          test_mode = test_mode;
          code = code;
          path = conf_path test_mode;
          mode = args_parse-Mode boot.args test_mode args;
          read = sym (conf_read-cleared boot test_mode) ∙ read;
          filter = filter;
          pipe = pipe;
          child = child;
        }))

  mode_next-Serves :
      (test_mode : Option Bool)
      → args_parse boot.args ≡ ok test_mode
      → Safely
          (Serves boot)
          (elim test_mode [ none ↦ ok (exits 1 []) | some test_mode ↦ mode_next boot test_mode ])
  unfolding mode_next
  mode_next-Serves none args = tt
  mode_next-Serves (some test_mode) args =
      if-Safely _ (boot.sigint_set && (boot.sigterm_set && boot.sigpipe_set)) _ _
        (λ signals.
          bind-Safely _ (conf_read boot test_mode) _
            (λ r read. code_next-Serves test_mode r.0 r.1 signals args read))
        (λ _. tt)

main-Safely : (boot : Boot) → Safely (Serves boot) (main boot)
unfolding main
main-Safely boot =
    bind-Safely _ (args_parse boot.args) _ (λ test_mode args. mode_next-Serves boot test_mode args)

-- main comes to an end when the events of the parent do. When it goes on to serve, the signals are set;
-- the configuration is what file_conf_read makes, without an error, of one whose members are all zero but
-- for the mode: from facows_test.conf in test mode when the one argument is "test", and from facows.conf
-- when there is no argument or another one; the net filter has been set if the configuration has it, the
-- ends of the pipe are those that were made, and the process is the child.
pub main-Serves : (boot : Boot) → Gives (Serves boot) (main boot)
main-Serves boot = Ends-Gives (Serves boot) (main boot) (main-Ends boot) (main-Safely boot)
