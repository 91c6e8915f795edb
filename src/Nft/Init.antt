-- ===== src/Nft/Init.antt =====
-- net_nft_init and _name_get of src/net_nft.c: the interface, and the rules that libnftables is given.
use facows.Types.{Conf}
use facows.Tls.{s32_of}
use facows.Nft.{signed}
use facows.Mem.Text.{codes, decimal, c_str}
use facows.Prelude.{
  ℕ, zero, suc, ◌-◌, Bool, true, false, ◌&&◌, ◌||◌, Option, none, some, List, [], ◌∷◌, ◌++◌, leb,
  ◌==◌, if◌then◌else◌, ℤ, pos, failure,
}
use facows.Mem.Run.{Run, ok, ◌>>=◌, Bytes}

-- nft_init_fmt
abbrev pub nft_init_fmt : Bytes
nft_init_fmt =
    codes "add table netdev facows;\n"
    ++ (codes "delete table netdev facows;\n"
        ++ (codes "add table inet facows;\n"
            ++ (codes "delete table inet facows;\n"
                ++ (codes "table netdev facows {\n"
                    ++ (codes "set facows_ban4 {type ipv4_addr; flags timeout;}\n"
                        ++ (codes "set facows_ban6 {type ipv6_addr; flags timeout;}\n"
                            ++ (codes "set facows_flood4 {type ipv4_addr; flags dynamic;}\n"
                                ++ (codes "set facows_flood6 {type ipv6_addr; flags dynamic;}\n"
                                    ++ (codes "chain facows_ingress {\n"
                                        ++ (codes
                                              "type filter hook ingress device \"%7$s\" priority -300; policy accept;\n"
                                            ++ (codes "ip saddr @facows_ban4 drop;\n"
                                                ++ (codes "ip6 saddr @facows_ban6 drop;\n"
                                                    ++ (codes
                                                          "ip protocol tcp tcp dport {%4$d, %5$d %6$s} update @facows_flood4 {ip saddr limit rate over %1$d/second burst %2$d packets} update @facows_ban4 {ip saddr timeout %3$dm} drop;\n"
                                                        ++ (codes
                                                            "ip6 nexthdr tcp tcp dport {%4$d, %5$d %6$s} update @facows_flood6 {ip6 saddr limit rate over %1$d/second burst %2$d packets} update @facows_ban6 {ip6 saddr timeout %3$dm} drop;\n"
                                                            ++ (codes "}\n"
                                                            ++ (codes "}\n"
                                                            ++ (codes "table inet facows {\n"
                                                            ++ (codes
                                                            "set facows_ports {type inet_service; flags interval; elements={%4$d, %5$d %6$s};}\n"
                                                            ++ (codes "chain facows_input {\n"
                                                            ++ (codes
                                                            "type filter hook input priority 0; policy drop;\n"
                                                            ++ (codes "iif \"lo\" accept;\n"
                                                            ++ (codes
                                                            "ct state established,related accept;\n"
                                                            ++ (codes
                                                            "tcp dport @facows_ports accept;\n"
                                                            ++ (codes "}\n"
                                                            ++ (codes "}")))))))))))))))))))))))))

-- nft_init_test_fmt
abbrev pub nft_init_test_fmt : Bytes
nft_init_test_fmt =
    codes "add table netdev facows_test;\n"
    ++ (codes "delete table netdev facows_test;\n"
        ++ (codes "add table inet facows_test;\n"
            ++ (codes "delete table inet facows_test;\n"
                ++ (codes "table netdev facows_test {\n"
                    ++ (codes "set facows_ban4 {type ipv4_addr; flags timeout;}\n"
                        ++ (codes "set facows_ban6 {type ipv6_addr; flags timeout;}\n"
                            ++ (codes "set facows_flood4 {type ipv4_addr; flags dynamic;}\n"
                                ++ (codes "set facows_flood6 {type ipv6_addr; flags dynamic;}\n"
                                    ++ (codes "chain facows_ingress {\n"
                                        ++ (codes
                                              "type filter hook ingress device \"%7$s\" priority -301; policy accept;\n"
                                            ++ (codes "ip saddr @facows_ban4 drop;\n"
                                                ++ (codes "ip6 saddr @facows_ban6 drop;\n"
                                                    ++ (codes
                                                          "ip protocol tcp tcp dport {%4$d, %5$d %6$s} update @facows_flood4 {ip saddr limit rate over %1$d/second burst %2$d packets} update @facows_ban4 {ip saddr timeout %3$dm} drop;\n"
                                                        ++ (codes
                                                            "ip6 nexthdr tcp tcp dport {%4$d, %5$d %6$s} update @facows_flood6 {ip6 saddr limit rate over %1$d/second burst %2$d packets} update @facows_ban6 {ip6 saddr timeout %3$dm} drop;\n"
                                                            ++ (codes "}\n"
                                                            ++ (codes "}\n"
                                                            ++ (codes "table inet facows_test {\n"
                                                            ++ (codes
                                                            "set facows_ports {type inet_service; flags interval; elements={%4$d, %5$d %6$s};}\n"
                                                            ++ (codes "chain facows_input {\n"
                                                            ++ (codes
                                                            "type filter hook input priority 0; policy drop;\n"
                                                            ++ (codes "iif \"lo\" accept;\n"
                                                            ++ (codes
                                                            "ct state established,related accept;\n"
                                                            ++ (codes
                                                            "tcp dport @facows_ports accept;\n"
                                                            ++ (codes "}\n"
                                                            ++ (codes "}")))))))))))))))))))))))))

-- What snprintf makes of a format whose conversions are all of the form %N$d or %N$s: `args` has what
-- the argument of a number prints.
unfoldable pub expand : (ℕ → Bytes) → Bytes → Bytes
expand args [] = []
expand args (x ∷ []) = x ∷ []
expand args (x ∷ y ∷ []) = x ∷ y ∷ []
expand args (x ∷ y ∷ z ∷ []) = x ∷ y ∷ z ∷ []
expand args (x ∷ n ∷ y ∷ c ∷ fmt) =
    let literal = x ∷ expand args (n ∷ y ∷ c ∷ fmt) in
    let printed = args (n - b'0') ++ expand args fmt in if x == b'%' then printed else literal

-- The arguments of the rules. pps_limit, pps_burst and ban_time are unsigned, and printed as signed.
unfoldable pub rule_args : Conf → Bytes → Bytes → ℕ → Bytes
rule_args conf allow_ports name n =
    if n == 1
    then signed (s32_of conf.pps_limit)
    else if n == 2
    then signed (s32_of conf.pps_burst)
    else if n == 3
    then signed (s32_of conf.ban_time)
    else if n == 4
    then decimal conf.http_port
    else if n == 5
    then decimal conf.https_port
    else if n == 6
    then allow_ports
    else name

-- nft_ports_fmt
unfoldable pub ports_text : Conf → Bytes
ports_text conf =
    codes "add element inet facows facows_ports { "
    ++ (decimal conf.http_port ++ (codes ", " ++ (decimal conf.https_port ++ codes " };")))

-- isspace, as sscanf asks it
unfoldable pub is_space : ℕ → Bool
is_space c = c == b' ' || (leb 9 c && leb c 13)

unfoldable pub skip_space : Bytes → Bytes
skip_space [] = []
skip_space (c ∷ s) = let rest = skip_space s in if is_space c then rest else c ∷ s

-- %15s behind the blanks: a word of `n` bytes at most, and what is behind it
unfoldable pub word_scan : ℕ → Bytes → Bytes × Bytes
word_scan zero s = ([], s)
word_scan (suc n) [] = ([], [])
word_scan (suc n) (c ∷ s) =
    let rest = word_scan n s in if is_space c then ([], c ∷ s) else (c ∷ rest.0, rest.1)

abbrev pub is_empty : Bytes → Bool
is_empty [] = true
is_empty (c ∷ s) = false

-- `sscanf(glp, "%15s %15s", net_buf, dst_buf) == 2`, by the two words
unfoldable pub two_words : Bytes → Option (Bytes × Bytes)
two_words line =
    let net = word_scan 15 (skip_space line) in
    let dst = word_scan 15 (skip_space net.1) in
    if is_empty net.0 || is_empty dst.0 then none else some (net.0, dst.0)

-- `memcmp(dst_buf, route_dst, 8) == 0`. dst_buf holds 16 bytes, and the NUL behind a shorter word
-- differs from a digit.
unfoldable pub is_default : ℕ → Bytes → Bool
is_default zero s = true
is_default (suc n) [] = false
is_default (suc n) (c ∷ s) = c == b'0' && is_default n s

-- A line: its interface when it is a route to everywhere, else what the other lines give.
abbrev pub route_take : Option (Bytes × Bytes) → Bytes → Bytes
route_take none rest = rest
route_take (some (net, dst)) rest = if is_default 8 dst then net else rest

-- The loop over the lines: the interface of the first route to everywhere, or nothing.
unfoldable pub routes_loop : List Bytes → Bytes
routes_loop [] = []
routes_loop (line ∷ lines) = route_take (two_words line) (routes_loop lines)

-- `if (buf[0] == '\0')`: the name that has been stored
abbrev pub some_name : Bytes → Option Bytes
some_name [] = none
some_name (c ∷ s) = some (c ∷ s)

-- _name_get: `file` is what getline gives of /proc/net/route, up to its end or an error, and whether
-- ferror holds there; none where it cannot be opened. Where a route is taken, the lines behind it are
-- not read, and no error is met. The name, none for -1.
unfoldable pub name_get : Option (List Bytes × Bool) → Option Bytes
name_get none = none
name_get (some (lines, read_error)) =
    let name = routes_loop lines in if is_empty name && read_error then none else some_name name

-- The loop over the tries, five at most
unfoldable pub name_tries : ℕ → List (Option (List Bytes × Bool)) → Option Bytes
name_tries zero tries = none
name_tries (suc n) [] = none
name_tries (suc n) (file ∷ tries) =
    let rest = name_tries n tries in elim (name_get file) [ none ↦ rest | some name ↦ some name ]

-- What nft_ctx_new and the calls behind it come to: the result, and the commands that are run.
unfoldable pub rules_run : Conf → Bool → Bytes → Run (ℤ × List Bytes)
rules_run conf false name = ok (failure, [])
rules_run conf true name = c_str conf.allow_ports >>= λ allow_ports. ok (
  pos 0,
  if conf.test_mode
      then ports_text conf ∷ expand (rule_args conf allow_ports name) nft_init_test_fmt ∷ []
      else expand (rule_args conf allow_ports name) nft_init_fmt ∷ [],
)

-- net_nft_init
unfoldable pub net_nft_init : Conf → List (Option (List Bytes × Bool)) → Bool → Run (ℤ × List Bytes)
net_nft_init conf tries nft_made = elim (name_tries 5 tries) [
  | none ↦ ok (failure, [])
  | some name ↦ rules_run conf nft_made name
]
