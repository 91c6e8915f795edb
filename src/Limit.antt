-- ===== src/Limit.antt =====
-- The request limits of _fws_443_run in src/fws.c: the table of clients, its counters, and the
-- answers that they lead to.
pub mod Slots
pub mod Window
use facows.Types.{Conf, Nft}
use facows.Prelude.{
  ℕ, [], ◌+◌, ◌%◌, ◌^◌, Bool, true, false, not, ◌&&◌, ◌||◌, List, ◌∷◌, ltb, ◌==◌, if◌then◌else◌,
  get_or, set,
}
use facows.Mem.Run.{Bytes}
use facows.Mem.Libc.{zeros}

-- `memcmp(a, b, 16) == 0` on two addresses
unfoldable pub same_ip : Bytes → Bytes → Bool
same_ip [] [] = true
same_ip (x ∷ a) (y ∷ b) = x == y && same_ip a b
same_ip _ _ = false

-- empty_ip_buf
abbrev pub empty_ip : Bytes
empty_ip = zeros 16

-- The loop under "get nft_i", from index `i` on; `last` is the value of `nft_i` so far. A client
-- that is not in the table takes the first free entry, or shares the last entry of a full table.
unfoldable pub slot_find : List Nft → Bytes → ℕ → ℕ → ℕ × List Nft
slot_find [] client_ip i last = (last, [])
slot_find (e ∷ nft_arr) client_ip i last =
    let rest = slot_find nft_arr client_ip (i + 1) i in
    if same_ip e.ip_buf client_ip
    then (i, e ∷ nft_arr)
    else if same_ip e.ip_buf empty_ip
    then (i, record e { ip_buf = client_ip } ∷ nft_arr)
    else (rest.0, e ∷ rest.1)

-- An increment of a u16
abbrev pub inc_u16 : ℕ → ℕ
inc_u16 n = (n + 1) % 2 ^ 16

abbrev pub blank_nft : Nft
blank_nft = record { ip_buf = empty_ip; html_cnt = 0; no_html_cnt = 0; dos_cnt = 0 }

-- `nft_arr[nft_i].html_cnt > conf_p->lim_page || nft_arr[nft_i].no_html_cnt > conf_p->lim_res`
unfoldable pub over_limit : Conf → Nft → Bool
over_limit conf e = ltb conf.lim_page e.html_cnt || ltb conf.lim_res e.no_html_cnt

-- What the check leads to: the status of the answer, and whether the parent is told to ban.
pub record Verdict : Type 0 where
  pub status_code : ℕ
  pub ban : Bool
  pub entry : Nft

-- "check dos at 429": the client is over a limit already.
unfoldable pub dos_check : Conf → Nft → Verdict
dos_check conf e =
    let dos_cnt = inc_u16 e.dos_cnt in
    record {
      status_code = 429;
      ban = conf.use_nft && ltb conf.ban_lim dos_cnt;
      entry = record e { dos_cnt = dos_cnt };
    }

-- `if (is_html || status_code != 0)`: the counter of the request
unfoldable pub count_request : Bool → ℕ → Nft → Nft
count_request is_html status_code e =
    if is_html || not (status_code == 0)
    then record e { html_cnt = inc_u16 e.html_cnt }
    else record e { no_html_cnt = inc_u16 e.no_html_cnt }

-- "check 429": the request is counted, and is the first over a limit or within both.
unfoldable pub count_check : Conf → Bool → ℕ → Nft → Verdict
count_check conf is_html status_code e =
    let counted = count_request is_html status_code e in
    if over_limit conf counted
    then record {
      status_code = 429;
      ban = false;
      entry = record counted { dos_cnt = inc_u16 counted.dos_cnt };
    }
    else record { status_code = status_code; ban = false; entry = counted }

-- Both checks, on the entry of the client.
unfoldable pub limit_check : Conf → Bool → ℕ → Nft → Verdict
limit_check conf is_html status_code e =
    if over_limit conf e then dos_check conf e else count_check conf is_html status_code e

-- A request of a client: its entry is found or made, and checked. The verdict and the table.
unfoldable pub limit_request : Conf → Bytes → Bool → ℕ → List Nft → Verdict × List Nft
limit_request conf client_ip is_html status_code nft_arr =
    let (nft_i, claimed) = slot_find nft_arr client_ip 0 0 in
    let verdict = limit_check conf is_html status_code (get_or claimed nft_i blank_nft) in
    (verdict, set claimed nft_i verdict.entry)

-- The timer's memset of the table
unfoldable pub limit_reset : List Nft → List Nft
limit_reset [] = []
limit_reset (e ∷ nft_arr) = blank_nft ∷ limit_reset nft_arr
