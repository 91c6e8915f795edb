-- ===== src/Session/Kept.antt =====
-- The loop of _fws_443_run: the answers that leave the files below the web root.
use facows.Types.{HttpReq, FwsFile}
use facows.Http.{http_origin_self_check}
use facows.Http.Response.{http_res_build}
use facows.Session.{sent_round, file_send, is_304, file_answer, err_answer, Site, State, Round}
use facows.Session.{goes_on, leaves}
use facows.Session.Measure.{Safely, bind-Safely, if-Safely, Safely-ok}
use facows.Session.Keeps.{net_443_file_write-KeepsSend}
use facows.Tls.{net_443_file_write, Peer}
use facows.Tls.Answer.{net_443_res_write, net_443_err_write}
use facows.Prelude.{
  ℕ, zero, suc, ◌≡◌, sym, ap, subst, Bool, true, false, List, [], ◌∷◌, ◌++◌, arith, ◌==◌,
  if◌then◌else◌, ℤ, pos, negsuc, failure, is_negative,
}
use facows.Mem.Run.{ok, Bytes}
use facows.Mem.Libc.{deref, text}

-- The path begins with the web root.
abbrev pub Below : Bytes → Bytes → Type 0
Below root path = (below : Bytes) × (path ≡ root ++ below)

abbrev pub AllBelow : Bytes → List Bytes → Type 0
AllBelow root [] = Unit
AllBelow root (path ∷ paths) = Below root path × AllBelow root paths

-- Every path opened so far is below the web root, and so is the one that is yet to be sent.
pub record Kept (root : Bytes) (st : State) : Type 0 where
  pub opened_below : AllBelow root st.opened
  pub pending_below : st.client_ctx.want_write ≡ true → Below root (text st.client_ctx.file_path)

-- The state that a round ends with.
abbrev pub after : Round → State
after (goes_on st) = st
after (leaves ret st) = st

module _ (site : Site) (root : Bytes) where
  abbrev pub KeptAfter : Round → Type 0
  KeptAfter r = Kept root (after r)

  -- A state in which nothing is yet to be sent.
  pub idle-Kept :
      {st : State} → AllBelow root st.opened → st.client_ctx.want_write ≡ false → Kept root st
  idle-Kept h w = record { opened_below = h; pending_below = λ t. absurd (ground (arith, w, t)) }

  -- A state in which the file of the connection may be sent.
  pub sent_round-Kept :
      (ret : ℤ) (st : State)
      → AllBelow root st.opened
      → st.client_ctx.want_write ≡ false
      → Below root (text st.client_ctx.file_path)
      → KeptAfter (sent_round ret st)
  unfolding sent_round
  sent_round-Kept (pos zero) st h w b = idle-Kept h w
  sent_round-Kept (pos (suc zero)) st h w b = record { opened_below = h; pending_below = λ _. b }
  sent_round-Kept (pos (suc (suc n))) st h w b = idle-Kept h w
  sent_round-Kept (negsuc n) st h w b = idle-Kept h w

  pub file_send-Kept :
      (st : State)
      → AllBelow root st.opened
      → Below root (text st.client_ctx.file_path)
      → Safely KeptAfter (file_send site st)
  unfolding file_send
  file_send-Kept st h b =
      let ctx = record st.client_ctx { want_write = false } in
      let path = text ctx.file_path in
      bind-Safely _ (net_443_file_write (site.read_file path) ctx st.peer) _ (λ r e.
        let same =
          Safely-ok _ _ (net_443_file_write-KeepsSend (site.read_file path) ctx st.peer) e in
        sent_round-Kept r.0 _ (b, h) (ap (λ c. c.want_write) same)
          (subst (λ c. Below root (text c)) (sym (ap (λ c. c.file_path) same)) b))

  pub err_answer-Kept :
      (status_code : ℕ) (closes : Bool) (st : State)
      → AllBelow root st.opened
      → st.client_ctx.want_write ≡ false
      → KeptAfter (err_answer site status_code closes st)
  unfolding err_answer
  err_answer-Kept status_code closes st h w =
      ends (net_443_err_write site.err_page status_code st.peer)
    where
      ends :
          (r : ℤ × Peer)
          → KeptAfter (
              let sent = record st { peer = r.1 } in
              if is_negative r.0
              then leaves failure sent
              else if closes
              then leaves r.0 sent
              else goes_on sent)
      ends (negsuc n, p) = idle-Kept h w
      ends (pos n, p) =
          elim closes
            as (λ c. KeptAfter (
              if c
              then leaves (pos n) (record st { peer = p })
              else goes_on (record st { peer = p }))) [
                | true ↦ idle-Kept h w
                | false ↦ idle-Kept h w
              ]

  pub file_answer-Kept :
      (http_req : HttpReq) (file : FwsFile) (st : State)
      → AllBelow root st.opened
      → st.client_ctx.want_write ≡ false
      → Below root (text st.client_ctx.file_path)
      → Safely KeptAfter (file_answer site http_req file st)
  unfolding file_answer
  file_answer-Kept http_req file st h w b = bind-Safely _ (http_res_build _ _ _ _ _ _) _ (λ built _.
      bind-Safely _ (deref http_req.origin) _ (λ c _.
        bind-Safely _ (if c == 0 then ok false else http_origin_self_check http_req site.conf) _
          (λ own _. bind-Safely _ (net_443_res_write _ _ _ _ _) _ (λ r _.
            if-Safely _ (is_negative r.0) _ _ (λ _. idle-Kept h w)
              (λ _.
                if-Safely _ (is_304 built.0) _ _ (λ _. idle-Kept h w)
                  (λ _. file_send-Kept (record st { peer = r.1 }) h b))))))
