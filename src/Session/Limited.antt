-- ===== src/Session/Limited.antt =====
-- The loop of _fws_443_run: a client that is over its limits.
use facows.Types.{HttpReq, FwsFile}
use facows.Limit.{limit_request, limit_check, dos_check}
use facows.Tls.{Peer}
use facows.Tls.Answer.{net_443_err_write}
use facows.Session.{err_answer, is_over, counted_answer, Site, State}
use facows.Session.{goes_on, leaves}
use facows.Prelude.{
  ℕ, ◌≡◌, refl, ap, Bool, true, [], ◌∷◌, ◌++◌, if◌then◌else◌, ℤ, pos, negsuc, failure, is_negative,
}
use facows.Mem.Run.{ok}

-- The status of the answer to a client that is over its limits.
over_status :
    (site : Site) (is_html : Bool) (status_code : ℕ) (st : State)
    → is_over site st ≡ true
    → (limit_request site.conf st.client_ctx.client_ip_buf is_html status_code
        st.nft_arr).0.status_code
      ≡ 429
unfolding is_over limit_request limit_check dos_check
over_status site is_html status_code st h = rw h

-- The error page is what is sent, and the connection is left.
err_answer_closes :
    (site : Site) (status_code : ℕ) (st : State)
    → let (ret, peer) = net_443_err_write site.err_page status_code st.peer in
      (r : ℤ) × (err_answer site status_code true st ≡ leaves r (record st { peer = peer }))
unfolding err_answer
err_answer_closes site status_code st =
    by_code (net_443_err_write site.err_page status_code st.peer)
  where
    by_code :
        (x : ℤ × Peer)
        → (r : ℤ) × ((let sent = record st { peer = x.1 } in
              if is_negative x.0
              then leaves failure sent
              else if true
              then leaves x.0 sent
              else goes_on sent)
            ≡ leaves r (record st { peer = x.1 }))
    by_code (pos n, p) = (pos n, refl)
    by_code (negsuc n, p) = (failure, refl)

-- A client that is over a limit before its request is counted gets the error page 429, whatever the
-- request and whether the file was found, no file is opened for it, and its connection is left.
pub counted_answer_over :
    (site : Site) (http_req : HttpReq) (file : FwsFile) (status_code : ℕ) (is_html : Bool)
    (st : State)
    → is_over site st ≡ true
    → (r : ℤ) × (st' : State) × (counted_answer site http_req file status_code is_html st
        ≡ ok (leaves r st'))
      × (st'.opened ≡ st.opened)
      × (st'.peer ≡ (net_443_err_write site.err_page 429 st.peer).1)
unfolding counted_answer
counted_answer_over site http_req file status_code is_html st h =
    let over = over_status site is_html status_code st h in
    let (verdict, nft_arr) =
      limit_request site.conf st.client_ctx.client_ip_buf is_html status_code st.nft_arr in
    let ban = if verdict.ban then (b'1' ∷ site.ip_text ++ 0 ∷ []) ∷ [] else [] in
    let counted = record st { nft_arr = nft_arr; messages = st.messages ++ ban } in
    let (r, e) = err_answer_closes site 429 counted in
    (
      r,
      record counted { peer = (net_443_err_write site.err_page 429 st.peer).1 },
      rw (over, h) (ap ok e),
      refl,
      refl,
    )
