-- ===== src/Nft/Rules.antt =====
-- net_nft_init: the rules, written out for any table.
use facows.Types.{Conf}
use facows.Tls.Sent.{s32_of-small}
use facows.Nft.Init.{
  nft_init_fmt, nft_init_test_fmt, expand, rule_args, ports_text, name_get, name_tries, rules_run,
  net_nft_init,
}
use facows.Mem.Text.{codes, decimal, c_str-append}
use facows.Mem.Laws.{Holds}
use facows.Prelude.{
  ℕ, zero, suc, ◌^◌, ◌<◌, ◌≡◌, refl, Bool, true, Option, none, some, List, [], ◌∷◌, ◌++◌, arith,
  if◌then◌else◌, length, set, pos,
}
use facows.Mem.Run.{ok, Bytes}

abbrev joined : List Bytes → Bytes
joined [] = []
joined (s ∷ ss) = s ++ joined ss

-- What the rules are made of: the rate, its burst and the minutes of a ban, the two ports of the server,
-- the other ports, and the interface.
module _ (pps burst ban http https allow device : Bytes) where
  abbrev ports : List Bytes
  ports = http ∷ codes ", " ∷ https ∷ codes " " ∷ allow ∷ []

  -- A client that sends more than the rate to a port is banned.
  abbrev flood : (protocol saddr set : Bytes) → List Bytes
  flood protocol saddr set =
      protocol
      ∷ codes " tcp dport {"
      ∷ (ports
          ++ codes "} update @facows_flood"
            ∷ set
            ∷ codes " {"
            ∷ saddr
            ∷ codes " saddr limit rate over "
            ∷ pps
            ∷ codes "/second burst "
            ∷ burst
            ∷ codes " packets} update @facows_ban"
            ∷ set
            ∷ codes " {"
            ∷ saddr
            ∷ codes " saddr timeout "
            ∷ ban
            ∷ codes "m} drop;\n"
            ∷ [])

  -- A table is added and deleted, so that nothing of it is left.
  abbrev cleared : (family table : Bytes) → List Bytes
  cleared family table =
      codes "add table "
      ∷ family
      ∷ codes " "
      ∷ table
      ∷ codes ";\ndelete table "
      ∷ family
      ∷ codes " "
      ∷ table
      ∷ codes ";\n"
      ∷ []

  abbrev addresses : (name type flags : Bytes) → List Bytes
  addresses name type flags =
      codes "set facows_"
      ∷ name
      ∷ codes " {type "
      ∷ type
      ∷ codes "; flags "
      ∷ flags
      ∷ codes ";}\n"
      ∷ []

  -- The table that drops banned clients where packets come in.
  abbrev ingress : (table priority : Bytes) → List Bytes
  ingress table priority =
      codes "table netdev "
      ∷ table
      ∷ codes " {\n"
      ∷ (addresses (codes "ban4") (codes "ipv4_addr") (codes "timeout")
          ++ (addresses (codes "ban6") (codes "ipv6_addr") (codes "timeout")
              ++ (addresses (codes "flood4") (codes "ipv4_addr") (codes "dynamic")
                  ++ (addresses (codes "flood6") (codes "ipv6_addr") (codes "dynamic")
                      ++ codes "chain facows_ingress {\ntype filter hook ingress device \""
                        ∷ device
                        ∷ codes "\" priority "
                        ∷ priority
                        ∷ codes "; policy accept;\n"
                        ∷ codes "ip saddr @facows_ban4 drop;\nip6 saddr @facows_ban6 drop;\n"
                        ∷ (flood (codes "ip protocol tcp") (codes "ip") (codes "4")
                            ++ (flood (codes "ip6 nexthdr tcp") (codes "ip6") (codes "6")
                                ++ codes "}\n}\n" ∷ []))))))

  -- The table that lets nothing in but answers and the ports.
  abbrev input : (table : Bytes) → List Bytes
  input table =
      codes "table inet "
      ∷ table
      ∷ codes " {\nset facows_ports {type inet_service; flags interval; elements={"
      ∷ (ports
          ++ codes "};}\nchain facows_input {\n"
            ∷ codes "type filter hook input priority 0; policy drop;\niif \"lo\" accept;\n"
            ∷ codes "ct state established,related accept;\ntcp dport @facows_ports accept;\n}\n}"
            ∷ [])

  abbrev pub rules : (table priority : Bytes) → Bytes
  rules table priority = joined (
      cleared (codes "netdev") table
      ++ (cleared (codes "inet") table ++ (ingress table priority ++ input table)))

expand-rules :
    (args : ℕ → Bytes)
    → expand args nft_init_fmt
      ≡ rules
          (args 1)
          (args 2)
          (args 3)
          (args 4)
          (args 5)
          (args 6)
          (args 7)
          (codes "facows")
          (codes "-300")
unfolding expand
expand-rules args = refl

expand-rules_test :
    (args : ℕ → Bytes)
    → expand args nft_init_test_fmt
      ≡ rules
          (args 1)
          (args 2)
          (args 3)
          (args 4)
          (args 5)
          (args 6)
          (args 7)
          (codes "facows_test")
          (codes "-301")
unfolding expand
expand-rules_test args = refl

-- What is run, for the ports `allow` and the interface `name`: in test mode the ports of the server are
-- let in by the table of the other server first.
abbrev pub commands : Conf → (allow name : Bytes) → List Bytes
commands conf allow name =
    let conf_rules =
      rules (decimal conf.pps_limit) (decimal conf.pps_burst) (decimal conf.ban_time)
        (decimal conf.http_port) (decimal conf.https_port) allow name in
    if conf.test_mode
    then ports_text conf ∷ conf_rules (codes "facows_test") (codes "-301") ∷ []
    else conf_rules (codes "facows") (codes "-300") ∷ []

-- Tries that find no interface.
abbrev pub NoName : List (Option (List Bytes × Bool)) → Type 0
NoName [] = Unit
NoName (file ∷ tries) = (name_get file ≡ none) × NoName tries

name_tries-append :
    (n : ℕ) (failed : List (Option (List Bytes × Bool))) (file : Option (List Bytes × Bool))
    (later : List (Option (List Bytes × Bool))) (name : Bytes)
    → NoName failed
    → length failed < n
    → name_get file ≡ some name
    → name_tries n (failed ++ file ∷ later) ≡ some name
unfolding name_tries
name_tries-append zero failed file later name f h e = absurd (omega arith)
name_tries-append (suc n) [] file later name f h e = rw (e, name_tries) refl
name_tries-append (suc n) (x ∷ failed) file later name f h e =
    rw (f.0, name_tries) (name_tries-append n failed file later name f.1 (omega (arith, h)) e)

rules_run-commands :
    (conf : Conf) (allow name : Bytes)
    → Holds conf.allow_ports allow
    → conf.pps_limit < 2 ^ 31
    → conf.pps_burst < 2 ^ 31
    → conf.ban_time < 2 ^ 31
    → rules_run conf true name ≡ ok (pos 0, commands conf allow name)
unfolding rules_run rule_args
rules_run-commands conf allow name a limit burst time =
    rw
      (
        a.splits,
        c_str-append allow a.rest a.no_nul,
        expand-rules (rule_args conf allow name),
        expand-rules_test (rule_args conf allow name),
        s32_of-small conf.pps_limit limit,
        s32_of-small conf.pps_burst burst,
        s32_of-small conf.ban_time time,
      )
      refl

-- When the interface is found in one of the first five tries, and there is a context, net_nft_init
-- succeeds, and what it runs is the rules for that interface: with the rate, the burst and the time of
-- a ban of the configuration, each below 2^31, its two ports and the ports that it allows.
pub net_nft_init-commands :
    (conf : Conf) (failed : List (Option (List Bytes × Bool))) (file : Option (List Bytes × Bool))
    (later : List (Option (List Bytes × Bool))) (allow name : Bytes)
    → NoName failed
    → length failed < 5
    → name_get file ≡ some name
    → Holds conf.allow_ports allow
    → conf.pps_limit < 2 ^ 31
    → conf.pps_burst < 2 ^ 31
    → conf.ban_time < 2 ^ 31
    → net_nft_init conf (failed ++ file ∷ later) true ≡ ok (pos 0, commands conf allow name)
unfolding net_nft_init
net_nft_init-commands conf failed file later allow name f h e a limit burst time =
    rw (name_tries-append 5 failed file later name f h e, net_nft_init)
      (rules_run-commands conf allow name a limit burst time)
