-- ===== src/Limit/Window.antt =====
-- What a client meets between two resets of the table: how many pages it is served, when it is
-- answered by 429, and when it is banned.
use facows.Types.{Conf, Nft}
use facows.Limit.{blank_nft, over_limit, dos_check, count_request, count_check, limit_check}
use facows.Prelude.{
  ℕ, zero, suc, ◌+◌, ◌-◌, ◌^◌, ◌≤◌, ◌<◌, min, ◌≡◌, Bool, true, false, ◌&&◌, arith, ltb,
  if◌then◌else◌,
}

-- The entry of a client after `n` requests for pages that are found.
pub pages : Conf → ℕ → Nft → Nft
unfolding limit_check over_limit dos_check count_check count_request
pages conf zero e = e
pages conf (suc n) e = let v = limit_check conf true 0 (pages conf n e) in v.entry

-- The entry after `n` pages.
record Counted (conf : Conf) (n : ℕ) (e : Nft) : Type 0 where
  html : e.html_cnt ≡ min n (conf.lim_page + 1)
  no_html : e.no_html_cnt ≡ 0
  dos : e.dos_cnt ≡ n - conf.lim_page

step-Counted :
    (conf : Conf) (n : ℕ) (e : Nft)
    → conf.lim_page < 2 ^ 16 - 1
    → n < conf.lim_page + 2 ^ 16 - 1
    → Counted conf n e
    → let v = limit_check conf true 0 e in Counted conf (suc n) v.entry
unfolding limit_check over_limit dos_check count_check count_request
step-Counted conf n e small few c = ground arith

pages-Counted :
    (conf : Conf) (n : ℕ)
    → conf.lim_page < 2 ^ 16 - 1
    → n < conf.lim_page + 2 ^ 16
    → Counted conf n (pages conf n blank_nft)
unfolding pages
pages-Counted conf zero small few = omega arith
pages-Counted conf (suc n) small few =
    step-Counted conf n (pages conf n blank_nft) small (omega arith)
      (pages-Counted conf n small (omega arith))

verdict-Counted :
    (conf : Conf) (n : ℕ) (e : Nft)
    → conf.lim_page < 2 ^ 16 - 1
    → n < conf.lim_page + 2 ^ 16 - 1
    → Counted conf n e
    → let v = limit_check conf true 0 e in
      (v.status_code ≡ (if ltb n conf.lim_page then 0 else 429))
      × (v.ban ≡ (conf.use_nft && ltb conf.lim_page n && ltb conf.ban_lim (n - conf.lim_page + 1)))
unfolding limit_check over_limit dos_check count_check count_request
verdict-Counted conf n e small few c = ground arith

-- With a page limit below 65535 and less than 65535 requests over it, a client whose counters start
-- at 0 is served its first `lim_page` pages and answered 429 from then on; and where the net
-- filter is used, it is banned at each request that is the (ban_lim + 1)-th over the limit or a
-- later one, the first one over the limit being excepted.
pub limit_check-pages :
    (conf : Conf) (n : ℕ)
    → conf.lim_page < 2 ^ 16 - 1
    → n < conf.lim_page + 2 ^ 16 - 1
    → let v = limit_check conf true 0 (pages conf n blank_nft) in
      (v.status_code ≡ (if ltb n conf.lim_page then 0 else 429))
      × (v.ban ≡ (conf.use_nft && ltb conf.lim_page n && ltb conf.ban_lim (n - conf.lim_page + 1)))
limit_check-pages conf n small few =
    verdict-Counted conf n (pages conf n blank_nft) small few
      (pages-Counted conf n small (omega arith))

-- The counters are 16 bits wide and the limits 32: with both limits at 65535 or more no request of
-- any client is ever answered by 429, or leads to a ban, and the counters stay within their width.
limit_check_wide :
    (conf : Conf) (is_html : Bool) (status_code : ℕ) (e : Nft)
    → 2 ^ 16 - 1 ≤ conf.lim_page
    → 2 ^ 16 - 1 ≤ conf.lim_res
    → e.html_cnt < 2 ^ 16
    → e.no_html_cnt < 2 ^ 16
    → let v = limit_check conf is_html status_code e in
      let after = v.entry in
      (v.status_code ≡ status_code)
      × (v.ban ≡ false)
      × (after.html_cnt < 2 ^ 16)
      × (after.no_html_cnt < 2 ^ 16)
      × (after.dos_cnt ≡ e.dos_cnt)
unfolding limit_check over_limit dos_check count_check count_request
limit_check_wide conf is_html status_code e p r h k = ground arith
