-- ===== src/Child/Loop.antt =====
-- fws_child_run: whatever the events are, descriptors and contexts are used as they are meant to be.
use facows.Child.Events.{Unused, Held, Goes, http_accept-Goes, https_accept-Goes, timer_event-Goes}
use facows.Session.{State}
use facows.Child.Dispatch.{
  ctx_event, redir_run, conn_left, conn_state, client_event, fws_80_run, fws_443_event, child_event,
}
use facows.Session.Measure.{Safely, bind-Safely, if-Safely}
use facows.Types.{Conf}
use facows.Conn.{fws_443_run}
use facows.Child.Sound.{
  update_same, update_ne, update_found, kind_of, Sound, Droppable, ctx_drop-Sound, ctx_drop-dropped,
  Sound-vars,
}
use facows.Types.{DataCtx}
use facows.Child.{Kind, Ctx, Child, Came, update, is_fd, ctx_drop}
use facows.Child.{plain, tls, next}
use facows.Prelude.{
  ℕ, ◌+◌, ◌≡◌, refl, sym, ap, ◌∙◌, subst, ◌≢◌, inl, inr, Bool, true, false, Option, none, some,
  arith, ◌==◌, if◌then◌else◌, ==_iff, Bool-cases, ℤ, failure,
}
use facows.Mem.Run.{Run, ok, fault, out_of_fuel, ◌>>=◌}

-- A connection that goes on keeps its place in the heap.
module _ {st : Child} (s : Sound st) (ptr : ℕ) (ctx : Ctx) (here : st.heap ptr ≡ some ctx)
    (conn : DataCtx) where
  abbrev kept : Ctx
  kept = record ctx { conn = conn }

  origin :
      (q : ℕ) (b : Ctx)
      → update st.heap ptr (some kept) q ≡ some b
      → (c : Ctx) × (st.heap q ≡ some c) × (c.fd ≡ b.fd)
  origin q b e = elim (update_found st.heap ptr kept q e) [
    | inl (at, same) ↦ (ctx, ap st.heap at ∙ here, ap (λ (x : Ctx). x.fd) {x = kept} {y = b} same)
    | inr (_, at) ↦ (b, at, refl)
  ]

  kept-kinds :
      (q : ℕ) (b : Ctx)
      → update st.heap ptr (some kept) q ≡ some b
      → st.table b.fd ≡ some (kind_of st b)
  unfolding kind_of
  kept-kinds q b e = elim (update_found st.heap ptr kept q e) [
    | inl (at, same) ↦
        subst (λ (c : Ctx). st.table c.fd ≡ some (kind_of st c)) same
          (s.contexts.kinds ptr ctx here)
    | inr (_, at) ↦ s.contexts.kinds q b at
  ]

  kept-watched :
      (m q : ℕ)
      → st.watch m ≡ some q
      → (c : Ctx) × (update st.heap ptr (some kept) q ≡ some c) × (c.fd ≡ m)
  kept-watched m q e =
      let (b, at, same) = s.contexts.watched m q e in
      elim (Bool-cases (q == ptr)) [
        | inl eq ↦
            let r : q ≡ ptr = (==_iff q ptr).0 eq in
            let met : b ≡ ctx = ground (arith, at, here, r) in
            (kept, rw eq, ap (λ (x : Ctx). x.fd) {x = ctx} {y = b} (sym met) ∙ same)
        | inr ne ↦ (b, rw ne at, same)
      ]

  kept-Sound : Sound (record st { heap = update st.heap ptr (some kept) })
  unfolding kind_of
  kept-Sound = record {
    right = s.right;
    servers = record {
      http = s.servers.http;
      https = s.servers.https;
      timers = s.servers.timers;
      epolls = s.servers.epolls;
      pipe_read = s.servers.pipe_read;
      pipe_write = s.servers.pipe_write;
    };
    contexts = record {
      kinds = kept-kinds;
      own = λ p q a b ep eq same.
          let (a0, at, fa) = origin p a ep in
          let (b0, bt, fb) = origin q b eq in s.contexts.own p q a0 b0 at bt (fa ∙ same ∙ sym fb);
      watched = kept-watched;
    };
    client_http = s.client_http;
    client = s.client;
  }

-- The other contexts, when one is set or removed.
others_held :
    (heap : ℕ → Option Ctx) (ptr : ℕ) (o : Option Ctx) (q : ℕ)
    → q ≢ ptr
    → (c : Ctx) × (heap q ≡ some c)
    → (c : Ctx) × (update heap ptr o q ≡ some c)
others_held heap ptr o q h (c, at) = (c, update_ne heap ptr o q h ∙ at)

drop-Goes :
    (st : Child) (ptr : ℕ) (ctx : Ctx) (kind : Kind)
    → Sound st
    → st.heap ptr ≡ some ctx
    → st.table ctx.fd ≡ some kind
    → Droppable st kind
    → Goes st ptr (next (ctx_drop ptr ctx st))
drop-Goes st ptr ctx kind s here e d = (
  ctx_drop-Sound ptr ctx st kind s here e d,
  λ q h held.
      subst (λ (x : Child). Held x q) (sym (ctx_drop-dropped ptr ctx st kind e))
        (others_held st.heap ptr none q h held),
)

module _ (conf : Conf) (came : Came) (ctx : Ctx) (st : Child) (s : Sound st)
    (here : st.heap came.ptr ≡ some ctx) where
  fws_80_run-Goes :
      st.table ctx.fd ≡ some plain
      → st.client_http_fd ≡ failure
      → Safely (λ r. Goes st came.ptr (next r.1)) (fws_80_run conf came ctx st)
  unfolding fws_80_run
  fws_80_run-Goes e d =
      bind-Safely _ (redir_run conf came) _
        (λ ret _. drop-Goes st came.ptr ctx plain s here e (inl (refl, d)))

  conn_left-Goes :
      st.table ctx.fd ≡ some tls
      → st.client_fd ≡ failure
      → (closed : Bool) (left : State)
      → Goes st came.ptr (next (conn_left came.ptr ctx st closed left))
  unfolding conn_left
  conn_left-Goes e d closed left =
      let kept = record ctx { conn = left.client_ctx } in
      let st1 : Child = record st { nft_arr = left.nft_arr; messages = left.messages } in
      let st2 : Child = record st1 { heap = update st.heap came.ptr (some kept) } in
      let s1 : Sound st1 =
        Sound-vars st.client_http_fd st.client_fd left.nft_arr left.messages s.client_http s.client
          s in
      let s2 : Sound st2 = kept-Sound s1 came.ptr ctx here left.client_ctx in
      let held = λ (q : ℕ) (h : q ≢ came.ptr) (was : Held st q).
        others_held st.heap came.ptr (some kept) q h was in
      let (gone, gone_held) =
        drop-Goes st2 came.ptr kept tls s2 (update_same st.heap came.ptr (some kept)) e
          (inr (refl, d)) in
      elim closed
        as (λ c. Goes st came.ptr (next (if c then ctx_drop came.ptr kept st2 else st2))) [
          | true ↦ (gone, λ q h was. gone_held q h (held q h was))
          | false ↦ (s2, held)
        ]

  fws_443_event-Goes :
      st.table ctx.fd ≡ some tls
      → st.client_fd ≡ failure
      → Safely (λ r. Goes st came.ptr (next r.1)) (fws_443_event came ctx st)
  unfolding fws_443_event
  fws_443_event-Goes e d =
      bind-Safely _ (fws_443_run came.visit (conn_state came ctx st)) _
        (λ r _. conn_left-Goes e d r.1 r.2)

Goes-next :
    (st : Child) (ptr : ℕ) (m : Run (ℤ × Child))
    → Safely (λ r. Goes st ptr (next r.1)) m
    → Safely (Goes st ptr) (m >>= λ r. ok (next r.1))
Goes-next st ptr (ok r) h = h
Goes-next st ptr fault h = tt
Goes-next st ptr out_of_fuel h = tt

client_event-Goes :
    (conf : Conf) (came : Came) (ctx : Ctx) (st : Child)
    → Sound st
    → st.heap came.ptr ≡ some ctx
    → st.table ctx.fd ≡ some (if ctx.has_ssl_ctx then tls else plain)
    → Safely (Goes st came.ptr) (client_event conf came ctx st)
unfolding client_event
client_event-Goes conf came ctx st s here e =
    let over_tls : Child = record st { client_fd = failure } in
    let in_plain : Child = record st { client_http_fd = failure } in
    if-Safely _ ctx.has_ssl_ctx _ _
      (λ c. Goes-next st came.ptr (fws_443_event came ctx over_tls) (
        fws_443_event-Goes conf came ctx over_tls
          (Sound-vars st.client_http_fd failure st.nft_arr st.messages s.client_http tt s) here
          (e ∙ ap (λ (b : Bool). some (if b then tls else plain)) c) refl))
      (λ c. Goes-next st came.ptr (fws_80_run conf came ctx in_plain) (
        fws_80_run-Goes conf came ctx in_plain
          (Sound-vars failure st.client_fd st.nft_arr st.messages tt s.client s) here
          (e ∙ ap (λ (b : Bool). some (if b then tls else plain)) c) refl))

ctx_event-Goes :
    (conf : Conf) (came : Came) (ctx : Ctx) (st : Child)
    → Sound st
    → st.heap came.ptr ≡ some ctx
    → Unused st.table came.new_fd
    → Unused st.heap came.new_ptr
    → Safely (Goes st came.ptr) (ctx_event conf came ctx st)
unfolding ctx_event kind_of
ctx_event-Goes conf came ctx st s here u v =
    let k = s.contexts.kinds came.ptr ctx here in
    if-Safely _ (is_fd ctx.fd st.server_http_fd) _ _
      (λ _. http_accept-Goes st s came.ptr came.new_fd came.new_ptr came.added u v)
      (λ n1.
        if-Safely _ (is_fd ctx.fd st.server_https_fd) _ _
          (λ _. https_accept-Goes st s came.ptr came.new_fd came.new_ptr came.addr came.added u v)
          (λ n2.
            if-Safely _ (is_fd ctx.fd st.timer_fd) _ _
              (λ _. timer_event-Goes st s came.ptr came.timer_read)
              (λ n3. client_event-Goes conf came ctx st s here (rw (n1, n2, n3) at k))))

-- An event of a context in the heap, where new descriptors and new memory have not been in use.
pub child_event-Goes :
    (conf : Conf) (came : Came) (st : Child)
    → Sound st
    → Held st came.ptr
    → Unused st.table came.new_fd
    → Unused st.heap came.new_ptr
    → Safely (Goes st came.ptr) (child_event conf came st)
unfolding child_event
child_event-Goes conf came st s (ctx, here) u v =
    by_heap (st.heap came.ptr) here (ctx_event-Goes conf came ctx st s here u v)
  where
    by_heap :
        (o : Option Ctx)
        → o ≡ some ctx
        → Safely (Goes st came.ptr) (ctx_event conf came ctx st)
        → Safely (Goes st came.ptr) (elim o [
          | none ↦ ok (next (record st { wrong = st.wrong + 1 }))
          | some c ↦ ctx_event conf came c st
        ])
    by_heap none e h = absurd (cc)
    by_heap (some c) e h =
        subst (λ (x : Ctx). Safely (Goes st came.ptr) (ctx_event conf came x st))
          (ground (arith, e)) h
