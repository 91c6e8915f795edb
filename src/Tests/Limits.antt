-- ===== src/Tests/Limits.antt =====
-- Limits: the table of clients of src/fws.c.
use facows.Types.{Conf, Nft}
use facows.Limit.{same_ip, blank_nft, limit_check, limit_request}
use facows.Limit.Slots.{Served, HasSlot, limit_request-Served}
use facows.Limit.Window.{pages, limit_check-pages}
use facows.Start.{blank_conf}
use facows.Prelude.{◌≡◌, refl, inl, inr, true, List, [], ◌∷◌, arith, replicate}
use facows.Mem.Run.{Bytes}
use facows.Mem.Libc.{zeros}

abbrev strict : Conf
strict = record blank_conf { lim_page = 2; lim_res = 5; ban_lim = 1; use_nft = true }

-- The fifth page of a client that may have two.
limit_check-pages_example :
    let v = limit_check strict true 0 (pages strict 4 blank_nft) in
    (v.status_code ≡ 429) × (v.ban ≡ true)
limit_check-pages_example = limit_check-pages strict 4 (omega arith) (omega arith)

abbrev client_b : Bytes
client_b = replicate 16 2

abbrev table : List Nft
table = record blank_nft { ip_buf = replicate 16 1; html_cnt = 1 } ∷ blank_nft ∷ []

room : HasSlot client_b table
unfolding same_ip zeros
room = inr (inr (inr (inl refl)))

limit_request-Served_example :
    Served strict client_b true 0 table (limit_request strict client_b true 0 table)
limit_request-Served_example = limit_request-Served strict client_b true 0 table room
