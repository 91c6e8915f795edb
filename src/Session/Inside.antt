-- ===== src/Session/Inside.antt =====
-- The loop of _fws_443_run: the paths of the files that are opened, and the web root.
use facows.Types.{Conf, HttpReq, FwsFile, Nft}
use facows.File.{file_parse}
use facows.Http.Request.{http_req_parse}
use facows.Session.{
  web_root_build, html_test, counted_answer, located_answer, parsed_answer, request_answer,
  read_answer, session_round, Site, State, Goes,
}
use facows.Session.{Goes, leaves, stay, go, wait}
use facows.Session.Measure.{
  Safely, bind-Safely, if-Safely, Safely-ok, strnlen-Measured, web_root_build-Safely,
}
use facows.Session.Keeps.{net_443_read-KeepsRead, text-copied}
use facows.Tls.{net_443_read, Peer}
use facows.Net.{http_path_redir}
use facows.File.Containment.{file_parse-Inside}
use facows.Limit.{limit_request, limit_check, count_check, dos_check}
use facows.Prelude.{
  ℕ, zero, suc, ◌+◌, ◌<◌, ◌≡◌, refl, ap, ◌∙◌, Bool, true, false, List, ◌++◌, append_assoc, arith,
  ◌==◌, length, ℤ, pos, negsuc, failure,
}
use facows.Mem.Run.{Run, ok, fault, out_of_fuel, map_run, Bytes}
use facows.Mem.Libc.{strnlen, copy, write, text}
use facows.Mem.Laws.{Holds}
use facows.Session.Kept.{
  AllBelow, Below, Kept, KeptAfter, idle-Kept, file_send-Kept, err_answer-Kept, file_answer-Kept,
}

module _ (site : Site) (root : Bytes) where
  -- A request is answered by the file only when it was found.
  found :
      (conf : Conf) (ip : Bytes) (is_html : Bool) (status_code : ℕ) (nft_arr : List Nft)
      → ((limit_request conf ip is_html status_code nft_arr).0.status_code == 0) ≡ true
      → status_code ≡ 0
  unfolding limit_request limit_check dos_check count_check
  found conf ip is_html status_code nft_arr e = ground arith

  counted_answer-Kept :
      (http_req : HttpReq) (file : FwsFile) (status_code : ℕ) (is_html : Bool) (st : State)
      → AllBelow root st.opened
      → st.client_ctx.want_write ≡ false
      → (status_code ≡ 0 → Below root (text st.client_ctx.file_path))
      → Safely (KeptAfter site root) (counted_answer site http_req file status_code is_html st)
  unfolding counted_answer
  counted_answer-Kept http_req file status_code is_html st h w b =
      if-Safely _ _ _ _
        (λ e.
          file_answer-Kept site root http_req file _ h w
            (b (found site.conf st.client_ctx.client_ip_buf is_html status_code st.nft_arr e)))
        (λ _. err_answer-Kept site root _ _ _ h w)

  located_answer-Kept :
      (http_req : HttpReq) (file : FwsFile) (status_code : ℕ) (st : State)
      → AllBelow root st.opened
      → st.client_ctx.want_write ≡ false
      → (status_code ≡ 0 → Below root (text file.path))
      → Safely (KeptAfter site root) (located_answer site http_req file status_code st)
  unfolding located_answer
  located_answer-Kept http_req file status_code st h w b =
      bind-Safely _ (strnlen file.path 4096) _ (λ n en.
        let m = strnlen-Measured file.path 4096 en in
        if-Safely _ (n == 4096) _ _ (λ _. idle-Kept site root h w)
          (λ short. bind-Safely _ (html_test file n) _ (λ is_html _.
            bind-Safely _ (copy file.path (n + 1)) _ (λ s es.
              bind-Safely _ (write st.client_ctx.file_path 0 s) _ (λ d ed.
                let same =
                  text-copied file.path st.client_ctx.file_path s d n m
                    (ground (arith, short, m.bound)) es ed in
                counted_answer-Kept http_req file status_code is_html _ h w
                  (λ z. rw same (b z)))))))

  parsed_answer-Kept :
      (http_req : HttpReq) (st : State) (ret : ℤ) (file : FwsFile)
      → AllBelow root st.opened
      → st.client_ctx.want_write ≡ false
      → (ret ≡ pos 0 → Below root (text file.path))
      → Safely (KeptAfter site root) (parsed_answer site http_req st ret file)
  unfolding parsed_answer
  parsed_answer-Kept http_req st (negsuc n) file h w b = idle-Kept site root h w
  parsed_answer-Kept http_req st (pos status_code) file h w b =
      if-Safely _ (status_code == 301) _ _
        (λ _. redirected (http_path_redir site.stack http_req site.conf file st.peer))
        (λ _. located_answer-Kept http_req file status_code st h w (λ z. b (ap pos z)))
    where
      redirected :
          (m : Run Peer)
          → Safely
              (KeptAfter site root)
              (map_run (λ peer. leaves failure (record st { peer = peer })) m)
      redirected (ok p) = idle-Kept site root h w
      redirected fault = tt
      redirected out_of_fuel = tt

  request_answer-Kept :
      (http_req : HttpReq) (st : State)
      → Holds site.conf.web_root root
      → length root < 128
      → AllBelow root st.opened
      → st.client_ctx.want_write ≡ false
      → Safely (KeptAfter site root) (request_answer site http_req st)
  unfolding request_answer
  request_answer-Kept http_req st r l h w =
      bind-Safely _ (web_root_build site.conf http_req) _ (λ p ep.
        let (below, held, size) =
          Safely-ok _ _ (web_root_build-Safely site.conf http_req root r l) ep in
        bind-Safely _ (file_parse site.fs http_req p 256) _ (λ parsed e.
          parsed_answer-Kept http_req st parsed.0 parsed.1 h w (λ z.
            let inside =
              file_parse-Inside site.fs http_req (root ++ below) held.rest 256 held.no_nul size
                (rw (held.splits, z) at e) in
            (below ++ inside.below, inside.contained ∙ append_assoc root below inside.below))))

  -- A round
  session_round-Kept :
      (st : State)
      → Holds site.conf.web_root root
      → length root < 128
      → Kept root st
      → Safely (KeptAfter site root) (session_round site st)
  unfolding session_round read_answer
  session_round-Kept st r l k =
      if-Safely _ st.client_ctx.want_write _ _
        (λ pending. file_send-Kept site root st k.opened_below (k.pending_below pending))
        (λ idle. bind-Safely _ (net_443_read st.client_ctx st.peer) _ (λ x e.
          let same = Safely-ok _ _ (net_443_read-KeepsRead st.client_ctx st.peer) e in
          by_code x.0 (record st { client_ctx = x.1; peer = x.2 }) k.opened_below
            (ap (λ c. c.want_write) same ∙ idle)))
    where
      by_code :
          (ret : ℤ) (st : State)
          → AllBelow root st.opened
          → st.client_ctx.want_write ≡ false
          → Safely (KeptAfter site root) (read_answer site ret st)
      by_code (negsuc n) st h w = idle-Kept site root h refl
      by_code (pos zero) st h w = idle-Kept site root h w
      by_code (pos (suc n)) st h w =
          bind-Safely _ (http_req_parse st.client_ctx.req_buf site.conf.domain 128) _ (λ parsed _.
            request_answer-Kept parsed.1
              (record st {
                http_req = parsed.1;
                client_ctx = record st.client_ctx { req_buf = parsed.2 };
              })
              r l h w)

  -- As long as no access leaves an object, in any of the rounds: whatever clients send, in whatever
  -- pieces, over any number of requests and events, every path that net_443_file_write has been called
  -- with begins with the web root of the configuration, when that holds a text of less than 128 bytes
  -- and the connection has nothing outside it left to send.
  pub session-Inside :
      (st st' : State)
      → Holds site.conf.web_root root
      → length root < 128
      → Kept root st
      → Goes site st st'
      → AllBelow root st'.opened
  session-Inside st st' r l k (stay _) = k.opened_below
  session-Inside st st' r l k (go e goes) =
      session-Inside _ st' r l (Safely-ok _ _ (session_round-Kept st r l k) e) goes
  session-Inside st st' r l k (wait peer nft_arr e goes) =
      let k' = Safely-ok _ _ (session_round-Kept st r l k) e in
      session-Inside _ st' r l
        (record { opened_below = k'.opened_below; pending_below = k'.pending_below }) goes
