-- ===== src/Nft.antt =====
-- src/net_nft.c: the commands that libnftables is given to ban a client, and to remove the tables.
pub mod Init
pub mod Route
pub mod Rules
use facows.Types.{Conf}
use facows.Tls.{s32_of}
use facows.Mem.Text.{codes, decimal, c_str}
use facows.Prelude.{ℕ, ◌+◌, Bool, List, [], ◌∷◌, ◌++◌, if◌then◌else◌, set, ℤ, pos, negsuc}
use facows.Mem.Run.{Run, ok, ◌>>=◌, Bytes}
use facows.Mem.Libc.{memcmp, advance}

-- %d
abbrev pub signed : ℤ → Bytes
signed (pos n) = decimal n
signed (negsuc n) = b'-' ∷ decimal (n + 1)

-- ipv4_map_str
abbrev pub ipv4_map_str : Bytes
ipv4_map_str = codes "::ffff:"

-- The table, by the mode: `facows` or `facows_test`
abbrev table_name : Bool → Bytes
table_name test_mode = if test_mode then codes "facows_test" else codes "facows"

-- nft_ban4_fmt, nft_ban6_fmt and their test forms: `set` is the name of the set, and `ban_time` an
-- unsigned number that is printed as a signed one.
unfoldable pub ban_text : Bool → Bytes → Bytes → ℕ → Bytes
ban_text test_mode set ip ban_time =
    codes "add element netdev "
    ++ (table_name test_mode
        ++ (b' ' ∷ set
            ++ (codes " {"
                ++ (ip ++ (codes " timeout " ++ (signed (s32_of ban_time) ++ codes "m}"))))))

-- net_nft_dos_ban: the command that is run.
unfoldable pub net_nft_dos_ban : Conf → Bytes → ℕ → Run Bytes
net_nft_dos_ban conf ip_buf ban_time = memcmp ip_buf ipv4_map_str 7 >>= λ mapped.
    if mapped
    then (advance ip_buf 7 >>= λ ip_p.
        c_str ip_p >>= λ ip. ok (ban_text conf.test_mode (codes "facows_ban4") ip ban_time))
    else (c_str ip_buf >>= λ ip. ok (ban_text conf.test_mode (codes "facows_ban6") ip ban_time))

-- net_nft_fini: the commands that are run, in their order.
unfoldable pub net_nft_fini : Conf → List Bytes
net_nft_fini conf =
    if conf.test_mode
    then (codes "delete element inet facows facows_ports {"
        ++ (decimal conf.http_port ++ (codes ", " ++ (decimal conf.https_port ++ codes "};"))))
      ∷ codes "delete table netdev facows_test; delete table inet facows_test;"
      ∷ []
    else codes "delete table netdev facows; delete table inet facows;" ∷ []
