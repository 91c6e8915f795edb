-- ===== src/Tests/Sessions.antt =====
-- Sessions, redirects and the messages to the parent.
use facows.Types.{Conf}
use facows.Http.{blank_req}
use facows.File.{blank_file}
use facows.Limit.{same_ip, slot_find, over_limit, blank_nft}
use facows.Tls.{taken, net_443_write, net_443_file_write, file_loop, s32_of, resume_at}
use facows.Tls.Answer.{net_443_err_write}
use facows.Session.{
  Site, State, goes_on, leaves, go, stay, session_round, file_send, sent_round, counted_answer,
  is_over,
}
use facows.Session.Kept.{Kept, AllBelow}
use facows.Session.Inside.{session-Inside}
use facows.Session.Limited.{counted_answer_over}
use facows.Net.PlainEnds.{net_80_443_redir-Ends}
use facows.Mem.Ends.{Ends}
use facows.Net.Plain.{again, received, recv_loop, net_80_443_redir}
use facows.Net.Redirect.{Plain}
use facows.Net.Receive.{recv_loop_again}
use facows.Parent.{pipe_read}
use facows.Parent.Frames.{Message, ban_of, log_of, pipe_read_again}
use facows.Mem.Text.{codes}
use facows.Tests.{lacks-Absent}
use facows.Start.{blank_conf}
use facows.Tests.Connections.{fresh_ctx, idle_peer, text-Holds}
use facows.Prelude.{◌≡◌, refl, true, none, some, List, [], ◌∷◌, ◌++◌, arith, ℤ}
use facows.Mem.Run.{ok, fault, Bytes}
use facows.Mem.Libc.{text, zeros}
use facows.Mem.Laws.{length-zeros}

abbrev example_org : Bytes
example_org = codes "example.org"

abbrev pub example_conf : Conf
example_conf = record blank_conf {
  https_port = 8443;
  domain = example_org ++ 0 ∷ [];
  web_root = codes "/srv" ++ 0 ∷ [];
  ban_time = 60;
}

abbrev pub site : Site
site = record {
  conf = example_conf;
  fs = record { stat = λ path. none; realpath = λ path. none };
  stat = λ path. none;
  read_file = λ path. some (codes "hello");
  err_page = none;
  date = codes "Thu" ++ 0 ∷ zeros 28;
  ip_text = codes "::1";
  stack = zeros 512;
}

-- A connection with a file left to send
abbrev pub sending : State
sending = record {
  client_ctx = record fresh_ctx { want_write = true; file_path = codes "/srv/a" ++ 0 ∷ [] };
  peer = record idle_peer { writes = taken ∷ [] };
  nft_arr = record blank_nft { html_cnt = 1 } ∷ [];
  messages = [];
  opened = [];
  http_req = blank_req;
  log_flag = 0;
}

abbrev sent : State
sent = record sending {
  client_ctx = record fresh_ctx { file_path = codes "/srv/a" ++ 0 ∷ [] };
  peer = record idle_peer { sent = codes "hello" };
  opened = codes "/srv/a" ∷ [];
}

sends : session_round site sending ≡ ok (goes_on sent)
unfolding session_round file_send sent_round net_443_file_write file_loop net_443_write s32_of
    resume_at text
sends = refl

sending-Kept : Kept (codes "/srv") sending
unfolding text
sending-Kept = record { opened_below = tt; pending_below = λ _. (codes "/a", refl) }

session-Inside_example : AllBelow (codes "/srv") sent.opened
session-Inside_example =
    session-Inside site (codes "/srv") sending sent
      (text-Holds (codes "/srv") (lacks-Absent 0 (codes "/srv") refl)) (omega arith) sending-Kept
      (go sends (stay sent))

over : is_over site sending ≡ true
unfolding is_over slot_find over_limit same_ip zeros
over = refl

counted_answer_over_example :
    (r : ℤ) × (st' : State) × (counted_answer site blank_req (blank_file [] 0) 0 true sending
      ≡ ok (leaves r st'))
    × (st'.opened ≡ [])
    × (st'.peer ≡ (net_443_err_write none 429 sending.peer).1)
counted_answer_over_example =
    counted_answer_over site blank_req (blank_file [] 0) 0 true sending over

net_80_443_redir-Ends_example : Ends (
    net_80_443_redir example_conf
      (received (codes "GET /a HTTP/1.1\r\nAccept: x\r\nHost: h:80\r\n\r\n") ∷ again ∷ []))
net_80_443_redir-Ends_example =
    net_80_443_redir-Ends example_conf
      (received (codes "GET /a HTTP/1.1\r\nAccept: x\r\nHost: h:80\r\n\r\n") ∷ again ∷ [])

recv_loop_again_example :
    recv_loop (received (codes "GET ") ∷ received (zeros 8190) ∷ []) (zeros 8192) 0 ≡ fault
recv_loop_again_example =
    recv_loop_again (codes "GET ") (zeros 8190) [] (omega arith) (omega (arith, length-zeros 8190))
      refl (omega (arith, length-zeros 8190))

abbrev pub messages : List Message
messages = ban_of (codes "::ffff:1.2.3.4") ∷ log_of (codes "::1 GET /") ∷ []

pipe_read_again_example :
    (rest : Bytes) × (pipe_read (codes "2a\n" ∷ codes "2b\n" ∷ []) (zeros 8192) 0
      ≡ ok (codes "2b\n" ++ rest, 6))
pipe_read_again_example = pipe_read_again (codes "2a\n") (codes "2b\n") (omega arith)
