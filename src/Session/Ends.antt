-- ===== src/Session/Ends.antt =====
-- The loop of _fws_443_run comes to an end: a round that goes on has read something.
use facows.Types.{HttpReq, FwsFile}
use facows.Http.{http_origin_self_check}
use facows.Http.ResponseEnds.{http_res_build-Ends}
use facows.Limit.{limit_request}
use facows.Session.{
  le_bytes, html_test, sent_round, file_send, is_304, file_answer, err_answer, is_over,
  counted_answer, located_answer, Site, State, Round, goes_on, leaves,
}
use facows.Session.Measure.{Safely-ok}
use facows.Session.Keeps.{net_443_file_write-KeepsSend}
use facows.Tls.{net_443_file_write, Peer}
use facows.Tls.Answer.{net_443_res_write, net_443_err_write}
use facows.Tls.Ends.{
  SameReads, net_443_file_write-reads, net_443_res_write-reads, net_443_err_write-reads,
}
use facows.Mem.Text.{codes}
use facows.Prelude.{
  ℕ, zero, suc, ◌+◌, ◌≤◌, ◌≡◌, ap, Bool, true, false, not, ◌&&◌, ◌||◌, Option, none, some, [], ◌∷◌,
  ◌++◌, ◌==◌, if◌then◌else◌, length, ℤ, pos, negsuc, failure, is_negative,
}
use facows.Mem.Run.{ok, fault, ◌>>=◌}
use facows.Mem.Libc.{advance, deref, text}
use facows.Mem.Ends.{
  Ends, Gives, Gives-Ends, Gives-ok, bind-Gives, bind-Ends, if-Ends, if-Gives, memmem-Ends,
  memcmp-Ends, strnlen-Ends, copy-Ends, advance-Ends, deref-Ends, write-Ends,
}

-- A round that goes on leaves `n` results of SSL_read at most, and no file to send.
abbrev pub Ahead : ℕ → Round → Type 0
Ahead n (goes_on st) = (st.client_ctx.want_write ≡ false) × (length st.peer.reads ≤ n)
Ahead n (leaves ret st) = Unit

sent_round-Ahead :
    (n : ℕ) (ret : ℤ) (st : State)
    → st.client_ctx.want_write ≡ false
    → length st.peer.reads ≤ n
    → Ahead n (sent_round ret st)
unfolding sent_round
sent_round-Ahead n (pos zero) st w h = (w, h)
sent_round-Ahead n (pos (suc zero)) st w h = tt
sent_round-Ahead n (pos (suc (suc k))) st w h = (w, h)
sent_round-Ahead n (negsuc k) st w h = (w, h)

module _ (site : Site) (n : ℕ) where
  pub file_send-Ahead :
      (st : State) → length st.peer.reads ≤ n → Gives (Ahead n) (file_send site st)
  unfolding file_send
  file_send-Ahead st h =
      let ctx = record st.client_ctx { want_write = false } in
      let file = site.read_file (text ctx.file_path) in
      let sent = net_443_file_write-reads file ctx st.peer in
      bind-Gives _ _ _ (Gives-Ends (SameReads st.peer) (net_443_file_write file ctx st.peer) sent)
        (λ r e.
          let same = Safely-ok _ _ (net_443_file_write-KeepsSend file ctx st.peer) e in
          let left = Gives-ok (SameReads st.peer) (net_443_file_write file ctx st.peer) sent e in
          sent_round-Ahead n r.0 _ (ap (λ c. c.want_write) same) (rw left h))

  err_answer-Ahead :
      (status_code : ℕ) (closes : Bool) (st : State)
      → st.client_ctx.want_write ≡ false
      → length st.peer.reads ≤ n
      → Ahead n (err_answer site status_code closes st)
  unfolding err_answer
  err_answer-Ahead status_code closes st w h =
      by_code (net_443_err_write site.err_page status_code st.peer)
        (net_443_err_write-reads site.err_page status_code st.peer) closes
    where
      by_code :
          (r : ℤ × Peer)
          → r.1.reads ≡ st.peer.reads
          → (closes : Bool)
          → Ahead n (
              let sent = record st { peer = r.1 } in
              if is_negative r.0
              then leaves failure sent
              else if closes
              then leaves r.0 sent
              else goes_on sent)
      by_code (negsuc k, p) e c = tt
      by_code (pos k, p) e true = tt
      by_code (pos k, p) e false = (w, rw e h)

  origin-Ends :
      (http_req : HttpReq) (c : ℕ)
      → Ends (if c == 0 then ok false else http_origin_self_check http_req site.conf)
  unfolding http_origin_self_check
  origin-Ends http_req c =
      if-Ends (c == 0) _ _ (λ _. tt)
        (λ _. bind-Ends _ _ (strnlen-Ends site.conf.domain 128) (λ m _.
          if-Ends (m == 128) _ _ (λ _. tt)
            (λ _. bind-Ends _ _ (copy-Ends site.conf.domain m) (λ domain _.
              bind-Ends _ _ (memmem-Ends http_req.origin 512 domain) (λ at _. by_place m at)))))
    where
      by_place :
          (m : ℕ) (at : Option ℕ)
          → Ends {A = Bool} (elim at [
            | none ↦ ok false
            | some zero ↦ fault
            | some (suc k) ↦ advance http_req.origin k >>= λ p. deref p >>= λ prev.
                if not (prev == b'.') && not (prev == b'/')
                then ok false
                else (advance http_req.origin (suc k + m) >>= λ p.
                    deref p >>= λ next. ok (next == b':' || next == 0))
          ])
      by_place m none = tt
      by_place m (some zero) = tt
      by_place m (some (suc k)) = bind-Ends _ _ (advance-Ends http_req.origin k) (λ p _.
          bind-Ends _ _ (deref-Ends p) (λ prev _.
            if-Ends (not (prev == b'.') && not (prev == b'/')) _ _ (λ _. tt)
              (λ _.
                bind-Ends _ _ (advance-Ends http_req.origin (suc k + m))
                  (λ q _. bind-Ends _ _ (deref-Ends q) (λ _ _. tt)))))

  file_answer-Ahead :
      (http_req : HttpReq) (file : FwsFile) (st : State)
      → length st.peer.reads ≤ n
      → Gives (Ahead n) (file_answer site http_req file st)
  unfolding file_answer
  file_answer-Ahead http_req file st h =
      bind-Gives _ _ _
        (http_res_build-Ends site.conf site.date (site.stat (text file.path)) http_req file.path
          4096)
        (λ built _. bind-Gives _ _ _ (deref-Ends http_req.origin) (λ c _.
          bind-Gives _ _ _ (origin-Ends http_req c) (λ own _.
            let hsts = if site.conf.use_hsts then site.conf.hsts_max_age else 0 in
            let res = record built.1 { is_origin_self = own; hsts_max_age = hsts } in
            let written = net_443_res_write-reads site.conf res file.size http_req st.peer in
            bind-Gives _ _ _
              (Gives-Ends (λ r. r.1.reads ≡ st.peer.reads)
                (net_443_res_write site.conf res file.size http_req st.peer) written)
              (λ r e.
                let left =
                  Gives-ok (λ r. r.1.reads ≡ st.peer.reads)
                    (net_443_res_write site.conf res file.size http_req st.peer) written e in
                if-Gives _ (is_negative r.0) _ _ (λ _. tt)
                  (λ _.
                    if-Gives _ (is_304 built.0) _ _ (λ _. tt)
                      (λ _. file_send-Ahead (record st { peer = r.1 }) (rw left h)))))))

  counted_answer-Ahead :
      (http_req : HttpReq) (file : FwsFile) (status_code : ℕ) (is_html : Bool) (st : State)
      → st.client_ctx.want_write ≡ false
      → length st.peer.reads ≤ n
      → Gives (Ahead n) (counted_answer site http_req file status_code is_html st)
  unfolding counted_answer
  counted_answer-Ahead http_req file status_code is_html st w h =
      let (verdict, nft_arr) =
        limit_request site.conf st.client_ctx.client_ip_buf is_html status_code st.nft_arr in
      let ban = if verdict.ban then (b'1' ∷ site.ip_text ++ 0 ∷ []) ∷ [] else [] in
      let counted = record st { nft_arr = nft_arr; messages = st.messages ++ ban } in
      if-Gives (Ahead n) (verdict.status_code == 0) (file_answer site http_req file counted)
        (ok (err_answer site verdict.status_code (is_over site st) counted))
        (λ _. file_answer-Ahead http_req file counted h)
        (λ _. err_answer-Ahead verdict.status_code (is_over site st) counted w h)

  pub located_answer-Ahead :
      (http_req : HttpReq) (file : FwsFile) (status_code : ℕ) (st : State)
      → st.client_ctx.want_write ≡ false
      → length st.peer.reads ≤ n
      → Gives (Ahead n) (located_answer site http_req file status_code st)
  unfolding located_answer html_test
  located_answer-Ahead http_req file status_code st w h =
      bind-Gives _ _ _ (strnlen-Ends file.path 4096) (λ k _.
        if-Gives _ (k == 4096) _ _ (λ _. tt)
          (λ _.
            bind-Gives _ _ _
              (bind-Ends _ _ (advance-Ends (le_bytes 8 file.uri_path_n ++ file.path) (3 + k))
                (λ p _. memcmp-Ends p (codes ".html" ++ 0 ∷ []) 6))
              (λ is_html _. bind-Gives _ _ _ (copy-Ends file.path (k + 1)) (λ s _.
                bind-Gives _ _ _ (write-Ends st.client_ctx.file_path 0 s)
                  (λ d _. counted_answer-Ahead http_req file status_code is_html _ w h)))))
