-- ===== src/Tests/Servers.antt =====
-- A connection of the process that serves, and the messages to the parent.
use facows.Types.{HttpReq}
use facows.Http.{blank_req}
use facows.Tls.{got, want_read}
use facows.Session.{State}
use facows.Conn.{Visit, not_accepted, accepted, fws_443_run}
use facows.Conn.Log.{Logged, line_of, log_message, log_message-parent_event, log_message_long}
use facows.Conn.Handshake.{EndsUntouched, fws_443_run-EndsUntouched}
use facows.Conn.Ends.{fws_443_run-Ends}
use facows.Child.{Came, http_accept, ctx_drop, close}
use facows.Child.Dispatch.{child_event, child_batch, ctx_event, client_event, fws_80_run, redir_run}
use facows.Child.Setup.{
  System, bound, net_server_init, epoll_step, timer_step, user_step, https_step, http_step,
  child_setup, fws_child_run,
}
use facows.Child.Whole.{start, Grants, Serving, fws_child_run-right}
use facows.Parent.{parent_event}
use facows.Parent.{write_log}
use facows.Parent.Watch.{watch_loop}
use facows.Parent.Frames.{NulFree}
use facows.Parent.Stream.{events_of, acts_of, watch_loop-acts_of}
use facows.Tests.{lacks-Absent}
use facows.Tests.Connections.{idle_peer, text-Holds}
use facows.Tests.Sessions.{example_conf, site, sending, messages}
use facows.Mem.Text.{codes, decimal}
use facows.Mem.Ends.{Ends, Gives}
use facows.Mem.Run.{ok, Bytes}
use facows.Mem.Libc.{zeros}
use facows.Mem.Laws.{Holds}
use facows.Prelude.{◌≡◌, refl, true, false, none, some, List, [], ◌∷◌, ◌++◌, arith, replicate}

-- The calls in front of the loop, all of which succeed: the timer is given the descriptor of the end of
-- the pipe that has been closed.
abbrev sys : System
sys = record {
  nft_made = true;
  ssl_ready = true;
  http = bound 5;
  https = bound 6;
  user_found = true;
  group_set = true;
  user_set = true;
  timer_made = some 3;
  timer_set = true;
  epfd = some 7;
  ctxs = some (100, 200, 300);
}

abbrev visit : Visit
visit = record {
  time_text = some (codes "0102030405");
  ssl_made = true;
  fd_set = true;
  accept = not_accepted want_read;
  ktls_send = true;
  ktls_recv = true;
  site = site;
}

-- A client connects to port 80.
abbrev connects : Came
connects = record {
  ptr = 100;
  new_fd = some 8;
  new_ptr = some 400;
  added = true;
  addr = zeros 16;
  timer_read = true;
  timeout_set = true;
  recvs = [];
  is_sent = true;
  visit = visit;
  peer = idle_peer;
}

-- Its connection, whose timeout cannot be set
abbrev fails : Came
fails = record connects { ptr = 400; new_fd = none; new_ptr = none; timeout_set = false }

abbrev batches : List (List Came)
batches = (connects ∷ []) ∷ (fails ∷ []) ∷ []

grants : Grants sys 3 4
grants = record {
  ends_differ = omega arith;
  http_unused = refl;
  https_unused = refl;
  others_unused = (refl, refl);
  ctxs_differ = (omega arith, omega arith, omega arith);
}

serving : Serving example_conf batches (child_setup sys (start 3 4 []))
unfolding child_setup http_step https_step user_step timer_step epoll_step net_server_init close
    child_event child_batch ctx_event client_event http_accept fws_80_run redir_run ctx_drop
serving = (((5, refl), tt, tt), (refl, refl, tt), (((8, refl), tt, tt), (tt, tt, tt), tt))

fws_child_run-right_example :
    Gives (λ x. x.1.wrong ≡ 0) (fws_child_run example_conf sys batches (start 3 4 []))
fws_child_run-right_example = fws_child_run-right example_conf sys batches 3 4 [] grants serving

-- A connection whose handshake is not done
abbrev unshaken : State
unshaken = record sending {
  client_ctx = record sending.client_ctx { ssl_status = 0; want_write = false };
}

fws_443_run-EndsUntouched_example : EndsUntouched unshaken (fws_443_run visit unshaken)
fws_443_run-EndsUntouched_example =
    fws_443_run-EndsUntouched visit unshaken want_read (codes "0102030405") refl (omega arith)
      (omega arith) refl (omega arith)

-- A request behind the handshake
abbrev shaken : Visit
shaken = record visit { accept = accepted }

abbrev asking : State
asking = record unshaken {
  peer = record idle_peer {
    reads = got (codes "GET / HTTP/1.1\r\nHost: www.example.org\r\n\r\n") ∷ [];
  };
}

fws_443_run-Ends_example : Ends (fws_443_run shaken asking)
fws_443_run-Ends_example = fws_443_run-Ends shaken asking

-- A request for a URI, as the line of the log has it
abbrev asked : Bytes → HttpReq
asked uri = record blank_req {
  version = codes "HTTP/1.1" ++ 0 ∷ [];
  method = codes "GET" ++ 0 ∷ [];
  subdomain = codes "www" ++ 0 ∷ [];
  uri = uri ++ 0 ∷ [];
  lang = codes "en" ++ 0 ∷ [];
  os = codes "-" ++ 0 ∷ [];
  browser = codes "-" ++ 0 ∷ [];
}

asked-Logged : (uri : Bytes) → Holds (uri ++ 0 ∷ []) uri → Logged (asked uri)
asked-Logged uri h = record {
  version = codes "HTTP/1.1";
  method = codes "GET";
  subdomain = codes "www";
  uri = uri;
  lang = codes "en";
  os = codes "-";
  browser = codes "-";
  version_of = text-Holds (codes "HTTP/1.1") (lacks-Absent 0 (codes "HTTP/1.1") refl);
  method_of = text-Holds (codes "GET") (lacks-Absent 0 (codes "GET") refl);
  subdomain_of = text-Holds (codes "www") (lacks-Absent 0 (codes "www") refl);
  uri_of = h;
  lang_of = text-Holds (codes "en") (lacks-Absent 0 (codes "en") refl);
  os_of = text-Holds (codes "-") (lacks-Absent 0 (codes "-") refl);
  browser_of = text-Holds (codes "-") (lacks-Absent 0 (codes "-") refl);
}

abbrev short_log : Logged (asked (codes "/a"))
short_log = asked-Logged (codes "/a") (text-Holds (codes "/a") (lacks-Absent 0 (codes "/a") refl))

log_message-parent_event_example :
    (m : Bytes) × (log_message (codes "::1") (codes "0102030405") 2 (asked (codes "/a"))
      ≡ ok (some m))
    × (parent_event example_conf (m ∷ [])
        ≡ ok (write_log (line_of (codes "::1") (codes "0102030405") 2 short_log) ∷ []))
unfolding decimal asked-Logged
log_message-parent_event_example =
    log_message-parent_event example_conf (codes "::1") (codes "0102030405") 2 short_log
      (lacks-Absent 0 (codes "::1") refl) (lacks-Absent 0 (codes "0102030405") refl) (omega arith)

abbrev long_uri : Bytes
long_uri = replicate 1000 b'a'

abbrev long_log : Logged (asked long_uri)
long_log = asked-Logged long_uri (text-Holds long_uri (lacks-Absent 0 long_uri refl))

log_message_long_example :
    log_message (codes "::1") (codes "0102030405") 2 (asked long_uri) ≡ ok none
unfolding decimal asked-Logged
log_message_long_example =
    log_message_long (codes "::1") (codes "0102030405") 2 long_log (omega arith) (omega arith)
      (omega arith)

free : NulFree messages
free =
    (lacks-Absent 0 (codes "1::ffff:1.2.3.4") refl, (lacks-Absent 0 (codes "2::1 GET /") refl, tt))

watch_loop-acts_of_example :
    watch_loop example_conf (events_of (messages ∷ messages ∷ []))
    ≡ ok (true, acts_of example_conf (messages ∷ messages ∷ []))
watch_loop-acts_of_example =
    watch_loop-acts_of example_conf (messages ∷ messages ∷ [])
      (free, omega arith, omega arith, (free, omega arith, omega arith, tt))
