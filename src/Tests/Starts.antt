-- ===== src/Tests/Starts.antt =====
-- main, the parent and the net filter.
use facows.Types.{Conf}
use facows.Mem.Ends.{Gives}
use facows.Parent.Watch.{ParentSystem}
use facows.Parent.Stream.{events_of}
use facows.Start.{Boot, main}
use facows.Start.{in_parent, in_child}
use facows.Start.Fds.{EndsClosed, main-EndsClosed}
use facows.Start.Serving.{Serves, main-Serves}
use facows.Nft.Rules.{commands, net_nft_init-commands}
use facows.Nft.Init.{is_space, is_default, name_get, net_nft_init}
use facows.Nft.Route.{Word, Route, route_line, gateway, name_get-gateway}
use facows.Tests.{lacks-Absent}
use facows.Tests.Connections.{text-Holds}
use facows.Tests.Sessions.{example_conf, messages}
use facows.Mem.Text.{codes}
use facows.Mem.Run.{ok, Bytes}
use facows.Prelude.{◌≡◌, refl, true, false, none, some, List, [], ◌∷◌, ◌++◌, map, arith, pos}

-- A parent that gets a message, and in the next event the end of the pipe
abbrev parent : ParentSystem
parent = record {
  nft_made = true;
  log_fd = some 4;
  ep_fd = 5;
  is_waited = true;
  nft_fini_made = true;
  events = events_of (messages ∷ []);
}

-- A start in test mode, with a configuration of one entry
abbrev boot : Boot
boot = record {
  args = (codes "test" ++ 0 ∷ []) ∷ [];
  sigint_set = true;
  sigterm_set = true;
  sigpipe_set = true;
  read_file = λ path. some (20, codes "# a\nHTTPS_PORT 443\n\n");
  nft_inited = true;
  pipe_fds = some (3, 4);
  forked = in_parent true;
  parent = record parent { log_fd = some 4 };
}

main-EndsClosed_example : Gives EndsClosed (main boot)
main-EndsClosed_example =
    main-EndsClosed boot (omega arith, (omega arith, omega arith, omega arith))

abbrev boot_child : Boot
boot_child = record boot { forked = in_child true }

main-Serves_example : Gives (Serves boot_child) (main boot_child)
main-Serves_example = main-Serves boot_child

-- A route of two words, with a column behind them
abbrev route : (net dst : Bytes) → Word net → Word dst → Route
route net dst n d = record {
  net = net;
  dst = dst;
  columns = codes "010AA8C0";
  net_word = n;
  dst_word = d;
}

eth0-Word : Word (codes "eth0")
unfolding is_space
eth0-Word = record {
  first = b'e';
  others = codes "th0";
  whole = refl;
  no_space = (refl, (refl, (refl, (refl, tt))));
  small = omega arith;
}

near-Word : Word (codes "0001A8C0")
unfolding is_space
near-Word = record {
  first = b'0';
  others = codes "001A8C0";
  whole = refl;
  no_space = (refl, (refl, (refl, (refl, (refl, (refl, (refl, (refl, tt))))))));
  small = omega arith;
}

everywhere-Word : Word (codes "00000000")
unfolding is_space
everywhere-Word = record {
  first = b'0';
  others = codes "0000000";
  whole = refl;
  no_space = (refl, (refl, (refl, (refl, (refl, (refl, (refl, (refl, tt))))))));
  small = omega arith;
}

abbrev routes : List Route
routes =
    route (codes "eth0") (codes "0001A8C0") eth0-Word near-Word
    ∷ route (codes "eth0") (codes "00000000") eth0-Word everywhere-Word
    ∷ []

name_get-gateway_example : name_get (some (map route_line routes, true)) ≡ gateway routes
name_get-gateway_example = name_get-gateway routes true

-- A configuration with the limits of packets and one more port
abbrev filter_conf : Conf
filter_conf = record example_conf {
  pps_limit = 200;
  pps_burst = 400;
  ban_time = 60;
  allow_ports = codes ", 22" ++ 0 ∷ [];
}

-- The table of routes cannot be read at first.
found : name_get (some (map route_line routes, false)) ≡ some (codes "eth0")
unfolding is_default
found = name_get-gateway routes false

net_nft_init-commands_example :
    net_nft_init filter_conf (none ∷ some (map route_line routes, false) ∷ []) true
    ≡ ok (pos 0, commands filter_conf (codes ", 22") (codes "eth0"))
unfolding name_get
net_nft_init-commands_example =
    net_nft_init-commands filter_conf (none ∷ []) (some (map route_line routes, false)) []
      (codes ", 22") (codes "eth0") (refl, tt) (omega arith) found
      (text-Holds (codes ", 22") (lacks-Absent 0 (codes ", 22") refl)) (omega arith) (omega arith)
      (omega arith)
