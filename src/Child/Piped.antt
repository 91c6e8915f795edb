-- ===== src/Child/Piped.antt =====
-- fws_child_run: the descriptors that are closed in front of its loop.
use facows.Child.Starts.{Early}
use facows.Child.Setup.{Bound, no_socket, unbound, bound}
use facows.Child.Sound.{Owns-close}
use facows.Child.Events.{Unused}
use facows.Child.Sound.{update_same, update_ne, Owns, close_open}
use facows.Child.{Kind, Child, update, close, close_if}
use facows.Child.{listen_http, listen_https, timer, epoll, pipe_in, pipe_out}
use facows.Prelude.{
  ℕ, ◌≡◌, refl, sym, ◌∙◌, subst, ◌≢◌, inl, inr, Option, none, some, arith, ◌==◌, Bool-cases, ℤ, pos,
  negsuc, failure,
}

-- socket gives a descriptor that is not in use.
abbrev pub BoundOk : (ℕ → Option Kind) → Bound → Type 0
BoundOk table no_socket = Unit
BoundOk table (unbound fd) = table fd ≡ none
BoundOk table (bound fd) = table fd ≡ none

-- timerfd_create and then epoll_create1 do.
abbrev pub TimerOk : (ℕ → Option Kind) → Option ℕ → Option ℕ → Type 0
TimerOk table none epfd = Unit
TimerOk table (some fd) epfd = (table fd ≡ none) × Unused (update table fd (some timer)) epfd

Owns-round :
    (table : ℕ → Option Kind) (m : ℕ) (kind : Kind) (x : ℤ) (k : Kind)
    → table m ≡ none
    → Owns table x k
    → Owns (update (update table m (some kind)) m none) x k
Owns-round table m kind (negsuc n) k e o = tt
Owns-round table m kind (pos n) k e o =
    let ne : n ≢ m = λ h. absurd (ground (arith, h, e, o)) in
    update_ne (update table m (some kind)) m none n ne ∙ update_ne table m (some kind) n ne ∙ o

no_watch_left :
    (watch : ℕ → Option ℕ) (m : ℕ)
    → ((fd : ℕ) → watch fd ≡ none)
    → (fd : ℕ) → update watch m none fd ≡ none
no_watch_left watch m h fd = elim (Bool-cases (fd == m)) [
  | inl same ↦ rw same
  | inr other ↦ rw other (h fd)
]

-- A socket that cannot be bound is closed again.
pub Early-closed :
    (st : Child) (fd : ℕ) (kind : Kind)
    → Early st
    → st.table fd ≡ none
    → Early (close fd (record st { table = update st.table fd (some kind) }))
Early-closed st fd kind e u =
    rw
      (close_open fd (record st { table = update st.table fd (some kind) })
        (update_same st.table fd (some kind)))
      (record {
        right = e.right;
        servers = record {
          http = Owns-round st.table fd kind st.server_http_fd listen_http u e.servers.http;
          https = Owns-round st.table fd kind st.server_https_fd listen_https u e.servers.https;
          timers = Owns-round st.table fd kind st.timer_fd timer u e.servers.timers;
          epolls = Owns-round st.table fd kind st.fws_epfd epoll u e.servers.epolls;
          pipe_read = Owns-round st.table fd kind st.pipe_read_fd pipe_in u e.servers.pipe_read;
          pipe_write = Owns-round st.table fd kind st.pipe_write_fd pipe_out u e.servers.pipe_write;
        };
        no_http = e.no_http;
        no_https = e.no_https;
        no_ctx = e.no_ctx;
        no_watch = no_watch_left st.watch fd e.no_watch;
      })

-- The descriptors that are left when one is closed.
abbrev pub closed_table : ℤ → (ℕ → Option Kind) → ℕ → Option Kind
closed_table (pos fd) table = update table fd none
closed_table (negsuc n) table = table

-- The end of the pipe that the child does not read is closed.
module _ (st : Child) (early : Early st) where
  unfoldable pub piped : ℤ → Child
  piped x = record (close_if x st) { pipe_read_fd = failure }

  pub record Piped (x : ℤ) (after : Child) : Type 0 where
    pub is_early : Early after
    pub http_same : after.server_http_fd ≡ st.server_http_fd
    pub https_same : after.server_https_fd ≡ st.server_https_fd
    pub table_same : after.table ≡ closed_table x st.table

  pub pipe_closed : (x : ℤ) → Owns st.table x pipe_in → Piped x (piped x)
  unfolding piped
  pipe_closed (negsuc n) o = record {
    is_early = record {
      right = early.right;
      servers = record {
        http = early.servers.http;
        https = early.servers.https;
        timers = early.servers.timers;
        epolls = early.servers.epolls;
        pipe_read = tt;
        pipe_write = early.servers.pipe_write;
      };
      no_http = early.no_http;
      no_https = early.no_https;
      no_ctx = early.no_ctx;
      no_watch = early.no_watch;
    };
    http_same = refl;
    https_same = refl;
    table_same = refl;
  }
  pipe_closed (pos n) o =
      subst (λ (c : Child). Piped (pos n) (record c { pipe_read_fd = failure }))
        (sym (close_open n st o))
        (record {
          is_early = record {
            right = early.right;
            servers = record {
              http =
                  Owns-close st.table n pipe_in st.server_http_fd o (inl (λ e. cc))
                    early.servers.http;
              https =
                  Owns-close st.table n pipe_in st.server_https_fd o (inl (λ e. cc))
                    early.servers.https;
              timers =
                  Owns-close st.table n pipe_in st.timer_fd o (inl (λ e. cc)) early.servers.timers;
              epolls =
                  Owns-close st.table n pipe_in st.fws_epfd o (inl (λ e. cc)) early.servers.epolls;
              pipe_read = tt;
              pipe_write =
                  Owns-close st.table n pipe_in st.pipe_write_fd o (inl (λ e. cc))
                    early.servers.pipe_write;
            };
            no_http = early.no_http;
            no_https = early.no_https;
            no_ctx = early.no_ctx;
            no_watch = no_watch_left st.watch n early.no_watch;
          };
          http_same = refl;
          https_same = refl;
          table_same = refl;
        })
