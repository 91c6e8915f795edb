-- ===== src/Child/Starts.antt =====
-- fws_child_run: the state that the loop begins with is sound.
use facows.Child.Setup.{listen}
use facows.Child.Sound.{Owns-open}
use facows.Child.Sound.{Owns-open}
use facows.Mem.Libc.{zeros}
use facows.Child.Sound.{
  update_same, update_ne, update_found, Owns, kind_of, Servers, Contexts, Sound,
}
use facows.Child.{Kind, Ctx, Child, update, new_ctx}
use facows.Child.{listen_http, listen_https, timer, epoll, pipe_in, pipe_out, plain, tls}
use facows.Prelude.{
  ℕ, ◌≡◌, sym, ap, ◌∙◌, subst, ◌≢◌, inl, inr, false, Option, none, some, arith, ==_refl, ne→not_==,
  pos, failure,
}

-- Before the loop there are no contexts and no connections.
pub record Early (st : Child) : Type 0 where
  pub right : st.wrong ≡ 0
  pub servers : Servers st
  pub no_http : st.client_http_fd ≡ failure
  pub no_https : st.client_fd ≡ failure
  pub no_ctx : (ptr : ℕ) → st.heap ptr ≡ none
  pub no_watch : (fd : ℕ) → st.watch fd ≡ none

pub Early-Sound : (st : Child) → Early st → Sound st
Early-Sound st e = record {
  right = e.right;
  servers = e.servers;
  contexts = record {
    kinds = λ ptr ctx at. absurd (ground (arith, e.no_ctx ptr, at));
    own = λ p q a b at bt same. absurd (ground (arith, e.no_ctx p, at));
    watched = λ fd ptr at. absurd (ground (arith, e.no_watch fd, at));
  };
  client_http = subst (λ x. Owns st.table x plain) (sym e.no_http) tt;
  client = subst (λ x. Owns st.table x tls) (sym e.no_https) tt;
}

-- One more context that epoll is told of, with an open descriptor that no other context has.
module _ (st : Child) (ptr fd : ℕ) (kind : Kind) (free : st.heap ptr ≡ none)
    (open_now : st.table fd ≡ some kind) (its : kind_of st (new_ctx fd false (zeros 16)) ≡ kind)
    (apart : (q : ℕ) (b : Ctx) → st.heap q ≡ some b → b.fd ≢ fd) (c : Contexts st) where
  abbrev ctx : Ctx
  ctx = new_ctx fd false (zeros 16)

  listen-own :
      (p q : ℕ) (a b : Ctx)
      → update st.heap ptr (some ctx) p ≡ some a
      → update st.heap ptr (some ctx) q ≡ some b
      → a.fd ≡ b.fd
      → p ≡ q
  listen-own p q a b ep eq same = elim (update_found st.heap ptr ctx p ep) [
    | inl (at, e) ↦ elim (update_found st.heap ptr ctx q eq) [
      | inl (bt, _) ↦ at ∙ sym bt
      | inr (_, bt) ↦
          absurd (apart q b bt (sym same ∙ ap (λ (x : Ctx). x.fd) {x = a} {y = ctx} (sym e)))
    ]
    | inr (_, at) ↦ elim (update_found st.heap ptr ctx q eq) [
      | inl (_, e) ↦ absurd (apart p a at (same ∙ ap (λ (x : Ctx). x.fd) {x = b} {y = ctx} (sym e)))
      | inr (_, bt) ↦ c.own p q a b at bt same
    ]
  ]

  listen-Contexts : Contexts (listen ptr fd st)
  unfolding kind_of
  listen-Contexts = record {
    kinds = λ q b e. elim (update_found st.heap ptr ctx q e) [
      | inl (_, same) ↦
          subst (λ (x : Ctx). st.table x.fd ≡ some (kind_of st x)) same
            (open_now ∙ ap some (sym its))
      | inr (_, at) ↦ c.kinds q b at
    ];
    own = listen-own;
    watched = λ m q e. elim (update_found st.watch fd ptr m e) [
      | inl (at, same) ↦ (
        ctx,
        ap (update st.heap ptr (some ctx)) (sym same) ∙ update_same st.heap ptr (some ctx),
        sym at,
      )
      | inr (_, at) ↦
          let (b, there, x) = c.watched m q at in
          (
            b,
            update_ne st.heap ptr (some ctx) q (λ r. absurd (ground (arith, r, there, free)))
                ∙ there,
            x,
          )
    ];
  }

  -- The descriptors of the contexts there are now.
  listen-apart :
      (m : ℕ)
      → m ≢ fd
      → ((q : ℕ) (b : Ctx) → st.heap q ≡ some b → b.fd ≢ m)
      → (q : ℕ) (b : Ctx) → update st.heap ptr (some ctx) q ≡ some b
      → b.fd ≢ m
  listen-apart m ne old q b e = elim (update_found st.heap ptr ctx q e) [
    | inl (_, same) ↦ λ h. ne (sym h ∙ ap (λ (x : Ctx). x.fd) {x = b} {y = ctx} (sym same))
    | inr (_, at) ↦ old q b at
  ]

fds_apart :
    (table : ℕ → Option Kind) (m n : ℕ) (j k : Kind)
    → table m ≡ some j
    → table n ≡ some k
    → j ≢ k
    → m ≢ n
fds_apart table m n j k a b ne h = ne (ground (arith, a, b, h))

-- The addresses that calloc gives differ.
abbrev pub Apart3 : Option (ℕ × ℕ × ℕ) → Type 0
Apart3 none = Unit
Apart3 (some (a, b, c)) = (b ≢ a) × (c ≢ a) × (c ≢ b)

module _ (st : Child) (early : Early st) where
  pub Early-epoll :
      (fd : ℕ)
      → st.table fd ≡ none
      → Early (record st { fws_epfd = pos fd; table = update st.table fd (some epoll) })
  Early-epoll fd u = record {
    right = early.right;
    servers = record {
      http = Owns-open st.table fd epoll st.server_http_fd listen_http u early.servers.http;
      https = Owns-open st.table fd epoll st.server_https_fd listen_https u early.servers.https;
      timers = Owns-open st.table fd epoll st.timer_fd timer u early.servers.timers;
      epolls = update_same st.table fd (some epoll);
      pipe_read = Owns-open st.table fd epoll st.pipe_read_fd pipe_in u early.servers.pipe_read;
      pipe_write = Owns-open st.table fd epoll st.pipe_write_fd pipe_out u early.servers.pipe_write;
    };
    no_http = early.no_http;
    no_https = early.no_https;
    no_ctx = early.no_ctx;
    no_watch = early.no_watch;
  }

  pub Early-timer :
      (fd : ℕ)
      → st.table fd ≡ none
      → Early (record st { timer_fd = pos fd; table = update st.table fd (some timer) })
  Early-timer fd u = record {
    right = early.right;
    servers = record {
      http = Owns-open st.table fd timer st.server_http_fd listen_http u early.servers.http;
      https = Owns-open st.table fd timer st.server_https_fd listen_https u early.servers.https;
      timers = update_same st.table fd (some timer);
      epolls = Owns-open st.table fd timer st.fws_epfd epoll u early.servers.epolls;
      pipe_read = Owns-open st.table fd timer st.pipe_read_fd pipe_in u early.servers.pipe_read;
      pipe_write = Owns-open st.table fd timer st.pipe_write_fd pipe_out u early.servers.pipe_write;
    };
    no_http = early.no_http;
    no_https = early.no_https;
    no_ctx = early.no_ctx;
    no_watch = early.no_watch;
  }

  pub Early-http :
      (fd : ℕ)
      → st.table fd ≡ none
      → Early (record st { server_http_fd = pos fd; table = update st.table fd (some listen_http) })
  Early-http fd u = record {
    right = early.right;
    servers = record {
      http = update_same st.table fd (some listen_http);
      https =
          Owns-open st.table fd listen_http st.server_https_fd listen_https u early.servers.https;
      timers = Owns-open st.table fd listen_http st.timer_fd timer u early.servers.timers;
      epolls = Owns-open st.table fd listen_http st.fws_epfd epoll u early.servers.epolls;
      pipe_read =
          Owns-open st.table fd listen_http st.pipe_read_fd pipe_in u early.servers.pipe_read;
      pipe_write =
          Owns-open st.table fd listen_http st.pipe_write_fd pipe_out u early.servers.pipe_write;
    };
    no_http = early.no_http;
    no_https = early.no_https;
    no_ctx = early.no_ctx;
    no_watch = early.no_watch;
  }

  pub Early-https :
      (fd : ℕ)
      → st.table fd ≡ none
      → Early
          (record st { server_https_fd = pos fd; table = update st.table fd (some listen_https) })
  Early-https fd u = record {
    right = early.right;
    servers = record {
      http = Owns-open st.table fd listen_https st.server_http_fd listen_http u early.servers.http;
      https = update_same st.table fd (some listen_https);
      timers = Owns-open st.table fd listen_https st.timer_fd timer u early.servers.timers;
      epolls = Owns-open st.table fd listen_https st.fws_epfd epoll u early.servers.epolls;
      pipe_read =
          Owns-open st.table fd listen_https st.pipe_read_fd pipe_in u early.servers.pipe_read;
      pipe_write =
          Owns-open st.table fd listen_https st.pipe_write_fd pipe_out u early.servers.pipe_write;
    };
    no_http = early.no_http;
    no_https = early.no_https;
    no_ctx = early.no_ctx;
    no_watch = early.no_watch;
  }

  -- Three contexts, for the two servers and the timer.
  pub listening-Sound :
      (http https t a b c : ℕ)
      → st.server_http_fd ≡ pos http
      → st.server_https_fd ≡ pos https
      → st.timer_fd ≡ pos t
      → b ≢ a
      → c ≢ a
      → c ≢ b
      → Sound (listen c t (listen b https (listen a http st)))
  unfolding kind_of
  listening-Sound http https t a b c eh es et ba ca cb =
      let h : st.table http ≡ some listen_http =
        subst (λ x. Owns st.table x listen_http) eh early.servers.http in
      let s : st.table https ≡ some listen_https =
        subst (λ x. Owns st.table x listen_https) es early.servers.https in
      let k : st.table t ≡ some timer =
        subst (λ x. Owns st.table x timer) et early.servers.timers in
      let sh : https ≢ http =
        fds_apart st.table https http listen_https listen_http s h (λ e. cc) in
      let th : t ≢ http = fds_apart st.table t http timer listen_http k h (λ e. cc) in
      let ts : t ≢ https = fds_apart st.table t https timer listen_https k s (λ e. cc) in
      let nobody = λ (m q : ℕ) (x : Ctx) (at : st.heap q ≡ some x).
        absurd {A = x.fd ≢ m} (ground (arith, early.no_ctx q, at)) in
      let z = zeros 16 in
      let st1 = listen a http st in
      let st2 = listen b https st1 in
      let one : Contexts st1 =
        listen-Contexts st a http listen_http (early.no_ctx a) h (rw (eh, ==_refl http))
          (nobody http) (Early-Sound st early).contexts in
      let free2 : st1.heap b ≡ none =
        update_ne st.heap a (some (new_ctx http false z)) b ba ∙ early.no_ctx b in
      let apart2 =
        listen-apart st a http listen_http (early.no_ctx a) h (rw (eh, ==_refl http)) (nobody http)
          (Early-Sound st early).contexts in
      let kind2 : kind_of st1 (new_ctx https false z) ≡ listen_https =
        rw (eh, ne→not_== https http sh, es, ==_refl https) in
      let two : Contexts st2 =
        listen-Contexts st1 b https listen_https free2 s kind2 (apart2 https sh (nobody https))
          one in
      let free3 : st2.heap c ≡ none =
        update_ne st1.heap b (some (new_ctx https false z)) c cb
        ∙ update_ne st.heap a (some (new_ctx http false z)) c ca
        ∙ early.no_ctx c in
      let kind3 : kind_of st2 (new_ctx t false z) ≡ timer =
        rw (eh, ne→not_== t http th, es, ne→not_== t https ts, et, ==_refl t) in
      let apart3 =
        listen-apart st1 b https listen_https free2 s kind2 (apart2 https sh (nobody https)) one t
          ts (apart2 t th (nobody t)) in
      record {
        right = early.right;
        servers = record {
          http = early.servers.http;
          https = early.servers.https;
          timers = early.servers.timers;
          epolls = early.servers.epolls;
          pipe_read = early.servers.pipe_read;
          pipe_write = early.servers.pipe_write;
        };
        contexts = listen-Contexts st2 c t timer free3 k kind3 apart3 two;
        client_http = subst (λ x. Owns st.table x plain) (sym early.no_http) tt;
        client = subst (λ x. Owns st.table x tls) (sym early.no_https) tt;
      }
