-- ===== src/Child/Sound.antt =====
-- fws_child_run: what holds between two events, and how a connection is taken up and dropped.
use facows.Types.{Nft}
use facows.Child.{Kind, Ctx, Child, update, close, is_fd, ctx_drop}
use facows.Child.{listen_http, listen_https, timer, epoll, pipe_in, pipe_out, plain, tls}
use facows.Prelude.{
  ℕ, ◌≡◌, sym, ap, ◌∙◌, subst, ◌≢◌, ◌⊎◌, inl, inr, Option, none, some, List, arith, ◌==◌,
  if◌then◌else◌, ==_iff, ==_refl, ne→not_==, Bool-cases, ℤ, pos, negsuc, failure,
}
use facows.Mem.Run.{Bytes}

module _ {ℓ} {A : Type ℓ} (f : ℕ → Option A) (i : ℕ) where
  pub update_same : (a : Option A) → update f i a i ≡ a
  update_same a = rw (==_refl i)

  pub update_ne : (a : Option A) (j : ℕ) → j ≢ i → update f i a j ≡ f j
  update_ne a j h = rw (ne→not_== j i h)

  -- What is found in a map after an entry was set, and after one was removed.
  pub update_found :
      (a : A) (j : ℕ) {b : A}
      → update f i (some a) j ≡ some b
      → ((j ≡ i) × (a ≡ b)) ⊎ ((j ≢ i) × (f j ≡ some b))
  update_found a j e = elim (Bool-cases (j == i)) [
    | inl same ↦ inl ((==_iff j i).0 same, ground (arith, same, e))
    | inr other ↦ inr (λ h. cc (other, ==_refl i, h), ground (arith, other, e))
  ]

  pub update_left : (j : ℕ) {b : A} → update f i none j ≡ some b → (j ≢ i) × (f j ≡ some b)
  update_left j e = elim (Bool-cases (j == i)) [
    | inl same ↦ absurd (ground (arith, same, e))
    | inr other ↦ (λ h. cc (other, ==_refl i, h), ground (arith, other, e))
  ]

-- The variable has no descriptor, or an open one of the kind.
abbrev pub Owns : (ℕ → Option Kind) → ℤ → Kind → Type 0
Owns table (pos fd) kind = table fd ≡ some kind
Owns table (negsuc _) kind = Unit

-- What the descriptor of a context stands for, by the tests of the loop.
unfoldable pub kind_of : Child → Ctx → Kind
kind_of st ctx =
    if is_fd ctx.fd st.server_http_fd
    then listen_http
    else if is_fd ctx.fd st.server_https_fd
    then listen_https
    else if is_fd ctx.fd st.timer_fd
    then timer
    else if ctx.has_ssl_ctx
    then tls
    else plain

-- The variables that the loop does not change.
pub record Servers (st : Child) : Type 0 where
  pub http : Owns st.table st.server_http_fd listen_http
  pub https : Owns st.table st.server_https_fd listen_https
  pub timers : Owns st.table st.timer_fd timer
  pub epolls : Owns st.table st.fws_epfd epoll
  pub pipe_read : Owns st.table st.pipe_read_fd pipe_in
  pub pipe_write : Owns st.table st.pipe_write_fd pipe_out

-- Each context has an open descriptor of its own, of its kind, and epoll knows no other contexts.
pub record Contexts (st : Child) : Type 0 where
  pub kinds :
      (ptr : ℕ) (ctx : Ctx) → st.heap ptr ≡ some ctx → st.table ctx.fd ≡ some (kind_of st ctx)
  pub own : (p q : ℕ) (a b : Ctx) → st.heap p ≡ some a → st.heap q ≡ some b → a.fd ≡ b.fd → p ≡ q
  pub watched :
      (fd ptr : ℕ) → st.watch fd ≡ some ptr → (ctx : Ctx) × (st.heap ptr ≡ some ctx) × (ctx.fd ≡ fd)

-- What holds between two events: nothing has gone wrong, and each variable and each context has what it
-- is meant to have.
pub record Sound (st : Child) : Type 0 where
  pub right : st.wrong ≡ 0
  pub servers : Servers st
  pub contexts : Contexts st
  pub client_http : Owns st.table st.client_http_fd plain
  pub client : Owns st.table st.client_fd tls

-- A descriptor that is closed is none of another kind, and one that is opened none that is open.
pub Owns-close :
    (table : ℕ → Option Kind) (m : ℕ) (kind : Kind) (x : ℤ) {k : Kind}
    → table m ≡ some kind
    → (k ≢ kind) ⊎ (x ≡ failure)
    → Owns table x k
    → Owns (update table m none) x k
Owns-close table m kind (negsuc n) e h o = tt
Owns-close table m kind (pos n) e (inl ne) o =
    update_ne table m none n (λ same. ne (ground (arith, same, e, o))) ∙ o
Owns-close table m kind (pos n) e (inr none_held) o = absurd (cc)

pub Owns-open :
    (table : ℕ → Option Kind) (m : ℕ) (kind : Kind) (x : ℤ) (k : Kind)
    → table m ≡ none
    → Owns table x k
    → Owns (update table m (some kind)) x k
Owns-open table m kind (negsuc n) k e o = tt
Owns-open table m kind (pos n) k e o =
    update_ne table m (some kind) n (λ same. absurd (ground (arith, same, e, o))) ∙ o

-- A descriptor that is open is closed.
pub close_open :
    (fd : ℕ) (st : Child) {kind : Kind}
    → st.table fd ≡ some kind
    → close fd st ≡ record st { table = update st.table fd none; watch = update st.watch fd none }
unfolding close
close_open fd st e = ground (arith, e)

-- Variables of connections, and what the loop says nothing of.
pub Contexts-vars :
    {st : Child} (x y : ℤ) (nft_arr : List Nft) (messages : List Bytes)
    → Contexts st
    → Contexts
        (record st { client_http_fd = x; client_fd = y; nft_arr = nft_arr; messages = messages })
unfolding kind_of
Contexts-vars x y nft_arr messages c = record { kinds = c.kinds; own = c.own; watched = c.watched }

pub Sound-vars :
    {st : Child} (x y : ℤ) (nft_arr : List Nft) (messages : List Bytes)
    → Owns st.table x plain
    → Owns st.table y tls
    → Sound st
    → Sound
        (record st { client_http_fd = x; client_fd = y; nft_arr = nft_arr; messages = messages })
Sound-vars x y nft_arr messages ox oy s = record {
  right = s.right;
  servers = record {
    http = s.servers.http;
    https = s.servers.https;
    timers = s.servers.timers;
    epolls = s.servers.epolls;
    pipe_read = s.servers.pipe_read;
    pipe_write = s.servers.pipe_write;
  };
  contexts = Contexts-vars x y nft_arr messages s.contexts;
  client_http = ox;
  client = oy;
}

-- The descriptor of a connection, which no variable holds any more.
abbrev pub Droppable : Child → Kind → Type 0
Droppable st kind =
    ((kind ≡ plain) × (st.client_http_fd ≡ failure)) ⊎ ((kind ≡ tls) × (st.client_fd ≡ failure))

module _ (ptr : ℕ) (ctx : Ctx) (st : Child) (kind : Kind) where
  abbrev pub dropped : Child
  dropped = record st {
    table = update st.table ctx.fd none;
    watch = update st.watch ctx.fd none;
    heap = update st.heap ptr none;
  }

  pub ctx_drop-dropped : st.table ctx.fd ≡ some kind → ctx_drop ptr ctx st ≡ dropped
  unfolding ctx_drop
  ctx_drop-dropped e =
      ap (λ (x : Child). record x { heap = update x.heap ptr none }) (close_open ctx.fd st e)

  not_server : Droppable st kind → (k : Kind) → k ≢ plain → k ≢ tls → k ≢ kind
  not_server (inl d) k a b = λ e. a (e ∙ d.0)
  not_server (inr d) k a b = λ e. b (e ∙ d.0)

  plain_apart : Droppable st kind → (plain ≢ kind) ⊎ (st.client_http_fd ≡ failure)
  plain_apart (inl d) = inr d.1
  plain_apart (inr d) = inl (λ e. cc (e, d.0))

  tls_apart : Droppable st kind → (tls ≢ kind) ⊎ (st.client_fd ≡ failure)
  tls_apart (inl d) = inl (λ e. cc (e, d.0))
  tls_apart (inr d) = inr d.1

  dropped-Servers : Servers st → st.table ctx.fd ≡ some kind → Droppable st kind → Servers dropped
  dropped-Servers s e d =
      let apart = λ (k : Kind) (a : k ≢ plain) (b : k ≢ tls). not_server d k a b in
      record {
        http =
            Owns-close st.table ctx.fd kind st.server_http_fd e
              (inl (apart listen_http (λ h. cc) (λ h. cc))) s.http;
        https =
            Owns-close st.table ctx.fd kind st.server_https_fd e
              (inl (apart listen_https (λ h. cc) (λ h. cc))) s.https;
        timers =
            Owns-close st.table ctx.fd kind st.timer_fd e (inl (apart timer (λ h. cc) (λ h. cc)))
              s.timers;
        epolls =
            Owns-close st.table ctx.fd kind st.fws_epfd e (inl (apart epoll (λ h. cc) (λ h. cc)))
              s.epolls;
        pipe_read =
            Owns-close st.table ctx.fd kind st.pipe_read_fd e
              (inl (apart pipe_in (λ h. cc) (λ h. cc))) s.pipe_read;
        pipe_write =
            Owns-close st.table ctx.fd kind st.pipe_write_fd e
              (inl (apart pipe_out (λ h. cc) (λ h. cc))) s.pipe_write;
      }

  dropped-Contexts : Contexts st → st.heap ptr ≡ some ctx → Contexts dropped
  unfolding kind_of
  dropped-Contexts c here = record {
    kinds = λ q b e.
        let (other, found) = update_left st.heap ptr q e in
        update_ne st.table ctx.fd none b.fd (λ same. other (c.own q ptr b ctx found here same))
        ∙ c.kinds q b found;
    own = λ p q a b ep eq.
        c.own p q a b (update_left st.heap ptr p ep).1 (update_left st.heap ptr q eq).1;
    watched = λ fd q e.
        let (other, found) = update_left st.watch ctx.fd fd e in
        let (b, at, same) = c.watched fd q found in
        (
          b,
          update_ne st.heap ptr none q (λ (r : q ≡ ptr).
                let met : b ≡ ctx = ground (arith, at, here, r) in
                other (sym same ∙ ap (λ (x : Ctx). x.fd) met))
              ∙ at,
          same,
        );
  }

  -- A connection is dropped.
  pub ctx_drop-Sound :
      Sound st
      → st.heap ptr ≡ some ctx
      → st.table ctx.fd ≡ some kind
      → Droppable st kind
      → Sound (ctx_drop ptr ctx st)
  ctx_drop-Sound s here e d = subst Sound (sym (ctx_drop-dropped e)) (record {
    right = s.right;
    servers = dropped-Servers s.servers e d;
    contexts = dropped-Contexts s.contexts here;
    client_http = Owns-close st.table ctx.fd kind st.client_http_fd e (plain_apart d) s.client_http;
    client = Owns-close st.table ctx.fd kind st.client_fd e (tls_apart d) s.client;
  })
