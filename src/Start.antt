-- ===== src/Start.antt =====
-- main of src/facows.c: from the arguments to the two processes.
pub mod Ends
pub mod Fds
pub mod Serving
use facows.Types.{Conf}
use facows.Conf.Parse.{ReadFile, file_conf_read}
use facows.Parent.Watch.{ParentSystem, Parted, FdOp, opens, closes, fws_parent_run}
use facows.Mem.Text.{codes}
use facows.Prelude.{
  ℕ, Bool, true, false, not, ◌&&◌, Option, none, some, List, [], ◌∷◌, ◌++◌, if◌then◌else◌, ℤ, pos,
  is_negative,
}
use facows.Mem.Run.{Run, ok, ◌>>=◌, Bytes}
use facows.Mem.Libc.{memcmp, zeros}

-- What fork comes to: it fails; or it returns in one of the two processes, and calloc gives its context
-- or does not.
pub data Forked : Type 0 where
  fork_failed : Forked
  in_child : Bool → Forked
  in_parent : Bool → Forked

-- What main finds: the arguments behind the name of the program; whether the three signals can be set;
-- what a file of a name holds; whether net_nft_init succeeds; the ends of the pipe; fork; and what the
-- parent finds.
pub record Boot : Type 0 where
  pub args : List Bytes
  pub sigint_set : Bool
  pub sigterm_set : Bool
  pub sigpipe_set : Bool
  pub read_file : Bytes → ReadFile
  pub nft_inited : Bool
  pub pipe_fds : Option (ℕ × ℕ)
  pub forked : Forked
  pub parent : ParentSystem

-- How main ends: with a status, and what has been done with descriptors, in fws_parent_run as well; or
-- in fws_child_run, which does not return.
pub data Ended : Type 0 where
  exits : ℕ → List FdOp → Ended
  parted : ℕ → Parted → Ended
  serves : Conf → ℕ → ℕ → Ended

-- `struct fws_conf conf = {0}`
abbrev pub blank_conf : Conf
blank_conf = record {
  http_port = 0;
  https_port = 0;
  pps_limit = 0;
  pps_burst = 0;
  ban_time = 0;
  ban_lim = 0;
  hsts_max_age = 0;
  cache_max_age = 0;
  lim_swap_time = 0;
  lim_page = 0;
  lim_res = 0;
  use_nft = false;
  use_hsts = false;
  use_ktls = false;
  test_mode = false;
  allow_ports = zeros 128;
  domain = zeros 128;
  web_root = zeros 128;
  web_log = zeros 128;
  ssl_cert = zeros 128;
  ssl_key = zeros 128;
  mime_default = zeros 128;
  mime = zeros 1024;
}

-- test_mode by the arguments, none where there are too many of them
unfoldable pub args_parse : List Bytes → Run (Option Bool)
args_parse [] = ok (some false)
args_parse (arg ∷ []) = memcmp (codes "test" ++ 0 ∷ []) arg 5 >>= λ test. ok (some test)
args_parse (_ ∷ _ ∷ _) = ok none

-- conf_path_p
abbrev pub conf_path : Bool → Bytes
conf_path test_mode =
    if test_mode then codes "/etc/facows/facows_test.conf" else codes "/etc/facows/facows.conf"

-- `goto out` behind pipe2: both ends are closed.
abbrev at_out : ℕ → ℕ → Ended
at_out read_fd write_fd =
    exits 1 (opens read_fd ∷ opens write_fd ∷ closes read_fd ∷ closes write_fd ∷ [])

-- From fork on: the ends of the pipe are closed at `out`, unless a process has taken them.
unfoldable pub fork_next : Forked → ParentSystem → Conf → ℕ → ℕ → Run Ended
fork_next fork_failed sys conf read_fd write_fd = ok (at_out read_fd write_fd)
fork_next (in_child false) sys conf read_fd write_fd = ok (at_out read_fd write_fd)
fork_next (in_child true) sys conf read_fd write_fd = ok (serves conf read_fd write_fd)
fork_next (in_parent false) sys conf read_fd write_fd = ok (at_out read_fd write_fd)
fork_next (in_parent true) sys conf read_fd write_fd =
    fws_parent_run conf sys (pos read_fd) (pos write_fd) >>= λ p. ok (
      parted (if is_negative p.ret then 1 else 0)
        (record p { fds = opens read_fd ∷ opens write_fd ∷ p.fds }))

-- From the net filter on
unfoldable pub conf_next : Boot → Conf → Run Ended
conf_next boot conf =
    if conf.use_nft && not boot.nft_inited then ok (exits 1 []) else elim boot.pipe_fds [
      | none ↦ ok (exits 1 [])
      | some (read_fd, write_fd) ↦ fork_next boot.forked boot.parent conf read_fd write_fd
    ]

-- file_conf_read, on a configuration that only has its mode
abbrev pub conf_read : Boot → Bool → Run (ℤ × Conf)
conf_read boot test_mode =
    file_conf_read (record blank_conf { test_mode = test_mode })
      (boot.read_file (conf_path test_mode))

-- From the signals on
unfoldable pub mode_next : Boot → Bool → Run Ended
mode_next boot test_mode =
    if boot.sigint_set && (boot.sigterm_set && boot.sigpipe_set)
    then (conf_read boot test_mode >>= λ r.
        if is_negative r.0 then ok (exits 1 []) else conf_next boot r.1)
    else ok (exits 1 [])

-- main
unfoldable pub main : Boot → Run Ended
main boot = args_parse boot.args >>= λ test_mode. elim test_mode [
  | none ↦ ok (exits 1 [])
  | some test_mode ↦ mode_next boot test_mode
]
