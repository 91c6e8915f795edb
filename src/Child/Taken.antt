-- ===== src/Child/Taken.antt =====
-- fws_child_run: a connection is taken up.
use facows.Child.Sound.{
  update_same, update_ne, update_found, Owns, kind_of, Servers, Sound, Owns-open, ctx_drop-Sound,
  ctx_drop-dropped,
}
use facows.Child.{Kind, Ctx, Child, update, is_fd}
use facows.Child.{listen_http, listen_https, timer, epoll, pipe_in, pipe_out, plain, tls}
use facows.Prelude.{
  ℕ, ◌≡◌, refl, sym, ap, ◌∙◌, subst, ◌≢◌, ◌⊎◌, inl, inr, false, Option, none, some, arith,
  if◌then◌else◌, ne→not_==, ℤ, pos, negsuc, failure,
}

-- A connection is taken up: its descriptor and its context have not been in use.
module _ (st : Child) (s : Sound st) (fd : ℕ) (unused : st.table fd ≡ none) (kind : Kind) where
  abbrev opened : ℕ → Option Kind
  opened = update st.table fd (some kind)

  opened-Servers :
      (x y : ℤ) (heap : ℕ → Option Ctx) (watch : ℕ → Option ℕ)
      → Servers (record st {
        client_http_fd = x;
        client_fd = y;
        table = opened;
        heap = heap;
        watch = watch;
      })
  opened-Servers x y heap watch = record {
    http = Owns-open st.table fd kind st.server_http_fd listen_http unused s.servers.http;
    https = Owns-open st.table fd kind st.server_https_fd listen_https unused s.servers.https;
    timers = Owns-open st.table fd kind st.timer_fd timer unused s.servers.timers;
    epolls = Owns-open st.table fd kind st.fws_epfd epoll unused s.servers.epolls;
    pipe_read = Owns-open st.table fd kind st.pipe_read_fd pipe_in unused s.servers.pipe_read;
    pipe_write = Owns-open st.table fd kind st.pipe_write_fd pipe_out unused s.servers.pipe_write;
  }

  -- A descriptor that has not been in use is none of the servers'.
  is_fd_unused : (x : ℤ) (k : Kind) → Owns st.table x k → is_fd fd x ≡ false
  is_fd_unused (pos n) k o = ne→not_== fd n (λ e. ground (arith, e, o, unused))
  is_fd_unused (negsuc n) k o = refl

  kind_of_new :
      (ctx : Ctx)
      → ctx.fd ≡ fd
      → (if ctx.has_ssl_ctx then tls else plain) ≡ kind
      → kind_of st ctx ≡ kind
  unfolding kind_of
  kind_of_new ctx e k = rw (
    e,
    is_fd_unused st.server_http_fd listen_http s.servers.http,
    is_fd_unused st.server_https_fd listen_https s.servers.https,
    is_fd_unused st.timer_fd timer s.servers.timers,
    k,
  )

  -- The contexts there have been keep their descriptors, and none has the new one.
  fd_apart : (ptr : ℕ) (ctx : Ctx) → st.heap ptr ≡ some ctx → ctx.fd ≢ fd
  fd_apart ptr ctx at e = absurd (ground (arith, s.contexts.kinds ptr ctx at, e, unused))

  -- No memory for the context: the descriptor is open, and in the variable.
  pub opened-Sound :
      (x y : ℤ)
      → Owns opened x plain
      → Owns opened y tls
      → Sound (record st { client_http_fd = x; client_fd = y; table = opened })
  unfolding kind_of
  opened-Sound x y ox oy = record {
    right = s.right;
    servers = opened-Servers x y st.heap st.watch;
    contexts = record {
      kinds = λ q b at.
          update_ne st.table fd (some kind) b.fd (fd_apart q b at) ∙ s.contexts.kinds q b at;
      own = s.contexts.own;
      watched = s.contexts.watched;
    };
    client_http = ox;
    client = oy;
  }

  module _ (ptr : ℕ) (free : st.heap ptr ≡ none) (ctx : Ctx) (its : ctx.fd ≡ fd) where
    new_apart : (q : ℕ) (b : Ctx) → st.heap q ≡ some b → b.fd ≢ ctx.fd
    new_apart q b at e = fd_apart q b at (e ∙ its)

    added-own :
        (p q : ℕ) (a b : Ctx)
        → update st.heap ptr (some ctx) p ≡ some a
        → update st.heap ptr (some ctx) q ≡ some b
        → a.fd ≡ b.fd
        → p ≡ q
    added-own p q a b ep eq same = elim (update_found st.heap ptr ctx p ep) [
      | inl (at, e) ↦ elim (update_found st.heap ptr ctx q eq) [
        | inl (bt, _) ↦ at ∙ sym bt
        | inr (_, bt) ↦
            absurd (new_apart q b bt (sym same ∙ ap (λ (x : Ctx). x.fd) {x = a} {y = ctx} (sym e)))
      ]
      | inr (_, at) ↦ elim (update_found st.heap ptr ctx q eq) [
        | inl (_, e) ↦
            absurd (new_apart p a at (same ∙ ap (λ (x : Ctx). x.fd) {x = b} {y = ctx} (sym e)))
        | inr (_, bt) ↦ s.contexts.own p q a b at bt same
      ]
    ]

    added-kinds :
        (if ctx.has_ssl_ctx then tls else plain) ≡ kind
        → (q : ℕ) (b : Ctx) → update st.heap ptr (some ctx) q ≡ some b
        → opened b.fd ≡ some (kind_of st b)
    added-kinds k q b e = elim (update_found st.heap ptr ctx q e) [
      | inl (_, same) ↦
          subst (λ (c : Ctx). opened c.fd ≡ some (kind_of st c)) same
            (ap opened its
              ∙ update_same st.table fd (some kind)
              ∙ ap some (sym (kind_of_new ctx its k)))
      | inr (_, at) ↦
          update_ne st.table fd (some kind) b.fd (fd_apart q b at) ∙ s.contexts.kinds q b at
    ]

    added-watched :
        (m q : ℕ)
        → update st.watch fd (some ptr) m ≡ some q
        → (c : Ctx) × (update st.heap ptr (some ctx) q ≡ some c) × (c.fd ≡ m)
    added-watched m q e = elim (update_found st.watch fd ptr m e) [
      | inl (at, same) ↦ (
        ctx,
        ap (update st.heap ptr (some ctx)) (sym same) ∙ update_same st.heap ptr (some ctx),
        its ∙ sym at,
      )
      | inr (_, at) ↦
          let (b, there, x) = s.contexts.watched m q at in
          (
            b,
            update_ne st.heap ptr (some ctx) q (λ r. absurd (ground (arith, r, there, free)))
                ∙ there,
            x,
          )
    ]

    -- The context is in the heap; epoll has it, or has not been able to take it.
    pub added-Sound :
        (x y : ℤ)
        → (if ctx.has_ssl_ctx then tls else plain) ≡ kind
        → Owns opened x plain
        → Owns opened y tls
        → Sound (record st {
          client_http_fd = x;
          client_fd = y;
          table = opened;
          heap = update st.heap ptr (some ctx);
          watch = update st.watch fd (some ptr);
        })
    unfolding kind_of
    added-Sound x y k ox oy = record {
      right = s.right;
      servers = opened-Servers x y (update st.heap ptr (some ctx)) (update st.watch fd (some ptr));
      contexts = record { kinds = added-kinds k; own = added-own; watched = added-watched };
      client_http = ox;
      client = oy;
    }

    listed-Sound :
        (x y : ℤ)
        → (if ctx.has_ssl_ctx then tls else plain) ≡ kind
        → Owns opened x plain
        → Owns opened y tls
        → Sound (record st {
          client_http_fd = x;
          client_fd = y;
          table = opened;
          heap = update st.heap ptr (some ctx);
        })
    unfolding kind_of
    listed-Sound x y k ox oy = record {
      right = s.right;
      servers = opened-Servers x y (update st.heap ptr (some ctx)) st.watch;
      contexts = record {
        kinds = added-kinds k;
        own = added-own;
        watched = λ m q e.
            let (b, there, same) = s.contexts.watched m q e in
            (
              b,
              update_ne st.heap ptr (some ctx) q (λ r. absurd (ground (arith, r, there, free)))
                  ∙ there,
              same,
            );
      };
      client_http = ox;
      client = oy;
    }

    -- epoll has not taken it: the connection is closed and freed again.
    pub refused-Sound :
        (x y : ℤ)
        → (if ctx.has_ssl_ctx then tls else plain) ≡ kind
        → ((kind ≡ plain) × (x ≡ failure)) ⊎ ((kind ≡ tls) × (y ≡ failure))
        → Owns opened x plain
        → Owns opened y tls
        → Sound (record st {
          client_http_fd = x;
          client_fd = y;
          table = update opened fd none;
          heap = update (update st.heap ptr (some ctx)) ptr none;
          watch = update st.watch fd none;
        })
    refused-Sound x y k d ox oy =
        let st1 : Child = record st {
          client_http_fd = x;
          client_fd = y;
          table = opened;
          heap = update st.heap ptr (some ctx);
        } in
        let open_now : st1.table ctx.fd ≡ some kind =
          ap opened its ∙ update_same st.table fd (some kind) in
        let gone =
          ctx_drop-Sound ptr ctx st1 kind (listed-Sound x y k ox oy)
            (update_same st.heap ptr (some ctx)) open_now d in
        subst
          (λ (m : ℕ). Sound (record st1 {
            table = update opened m none;
            heap = update (update st.heap ptr (some ctx)) ptr none;
            watch = update st.watch m none;
          }))
          its (subst Sound (ctx_drop-dropped ptr ctx st1 kind open_now) gone)
