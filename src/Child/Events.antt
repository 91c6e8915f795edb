-- ===== src/Child/Events.antt =====
-- fws_child_run: the events of the loop.
use facows.Limit.{limit_reset}
use facows.Child.Sound.{Owns-open}
use facows.Mem.Libc.{zeros}
use facows.Child.Taken.{opened-Sound, added-Sound, refused-Sound}
use facows.Child.Sound.{update_same, update_ne, Sound, close_open, Sound-vars}
use facows.Child.{Ctx, Child, After, update, new_ctx, http_accept, https_accept, timer_event}
use facows.Child.{plain, tls, next, breaks, gives_up}
use facows.Prelude.{
  ℕ, ◌≡◌, refl, ◌∙◌, ◌≢◌, inl, inr, Bool, true, false, Option, none, some, arith, pos, failure,
}
use facows.Mem.Run.{Bytes}

-- What is promised of new descriptors and new memory: they have not been in use.
abbrev pub Unused {ℓ} : {A : Type ℓ} → (ℕ → Option A) → Option ℕ → Type ℓ
Unused f none = Unit
Unused f (some n) = f n ≡ none

-- The context is in the heap.
abbrev pub Held : Child → ℕ → Type 0
Held st ptr = (ctx : Ctx) × (st.heap ptr ≡ some ctx)

-- What holds of an event of the context at `ptr`: the state is sound behind it, and when the loop goes
-- on, the other contexts are still there.
abbrev pub Goes : Child → ℕ → After → Type 0
Goes st ptr (next st') = Sound st' × ((q : ℕ) → q ≢ ptr → Held st q → Held st' q)
Goes st ptr (breaks st') = Sound st'
Goes st ptr (gives_up st') = Sound st'

module _ (st : Child) (s : Sound st) (ptr : ℕ) where
  still-Held :
      (p : ℕ) (ctx : Ctx) (q : ℕ)
      → st.heap p ≡ none
      → Held st q
      → (c : Ctx) × (update st.heap p (some ctx) q ≡ some c)
  still-Held p ctx q free (c, at) =
      (c, update_ne st.heap p (some ctx) q (λ e. absurd (ground (arith, e, at, free))) ∙ at)

  pub http_accept-Goes :
      (new_fd new_ptr : Option ℕ) (added : Bool)
      → Unused st.table new_fd
      → Unused st.heap new_ptr
      → Goes st ptr (http_accept new_fd new_ptr added st)
  unfolding http_accept
  http_accept-Goes none new_ptr added u v =
      Sound-vars failure st.client_fd st.nft_arr st.messages tt s.client s
  http_accept-Goes (some fd) none added u v =
      opened-Sound st s fd u plain (pos fd) st.client_fd (update_same st.table fd (some plain))
        (Owns-open st.table fd plain st.client_fd tls u s.client)
  http_accept-Goes (some fd) (some p) true u v = (
    added-Sound st s fd u plain p v (new_ctx fd false (zeros 16)) refl (pos fd) st.client_fd refl
        (update_same st.table fd (some plain))
        (Owns-open st.table fd plain st.client_fd tls u s.client),
    λ q _ held. still-Held p (new_ctx fd false (zeros 16)) q v held,
  )
  http_accept-Goes (some fd) (some p) false u v =
      rw
        (close_open fd
          (record st { client_http_fd = pos fd; table = update st.table fd (some plain) })
          (update_same st.table fd (some plain)))
        (refused-Sound st s fd u plain p v (new_ctx fd false (zeros 16)) refl failure st.client_fd
          refl (inl (refl, refl)) tt (Owns-open st.table fd plain st.client_fd tls u s.client))

  pub https_accept-Goes :
      (new_fd new_ptr : Option ℕ) (addr : Bytes) (added : Bool)
      → Unused st.table new_fd
      → Unused st.heap new_ptr
      → Goes st ptr (https_accept new_fd new_ptr addr added st)
  unfolding https_accept
  https_accept-Goes none new_ptr addr added u v =
      Sound-vars st.client_http_fd failure st.nft_arr st.messages s.client_http tt s
  https_accept-Goes (some fd) none addr added u v =
      opened-Sound st s fd u tls st.client_http_fd (pos fd)
        (Owns-open st.table fd tls st.client_http_fd plain u s.client_http)
        (update_same st.table fd (some tls))
  https_accept-Goes (some fd) (some p) addr true u v = (
    added-Sound st s fd u tls p v (new_ctx fd true addr) refl st.client_http_fd (pos fd) refl
        (Owns-open st.table fd tls st.client_http_fd plain u s.client_http)
        (update_same st.table fd (some tls)),
    λ q _ held. still-Held p (new_ctx fd true addr) q v held,
  )
  https_accept-Goes (some fd) (some p) addr false u v =
      rw
        (close_open fd (record st { client_fd = pos fd; table = update st.table fd (some tls) })
          (update_same st.table fd (some tls)))
        (refused-Sound st s fd u tls p v (new_ctx fd true addr) refl st.client_http_fd failure refl
          (inr (refl, refl)) (Owns-open st.table fd tls st.client_http_fd plain u s.client_http) tt)

  pub timer_event-Goes : (timer_read : Bool) → Goes st ptr (timer_event timer_read st)
  unfolding timer_event
  timer_event-Goes true = (
    Sound-vars st.client_http_fd st.client_fd (limit_reset st.nft_arr) st.messages s.client_http
        s.client s,
    λ q _ held. held,
  )
  timer_event-Goes false = s
