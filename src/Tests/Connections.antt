-- ===== src/Tests/Connections.antt =====
-- Connections: reading and writing over TLS.
use facows.Types.{DataCtx, HttpReq, HttpRes}
use facows.Http.{blank_req}
use facows.Http.Response.{blank_res}
use facows.Tls.{
  got, want_write, taken, refused, epollin, Peer, WriteRet, net_443_read, net_443_write,
}
use facows.Tls.Answer.{net_443_res_write, sent_or_failure}
use facows.Tls.Gather.{Reads, gather, waiting, whole}
use facows.Tls.Resume.{Ready, net_443_read-Reads, net_443_read_again}
use facows.Tls.Cut.{net_443_read_cut}
use facows.Tls.Calls.{Resumes}
use facows.Tls.Delivery.{Done, file_events-Done}
use facows.Tls.Parts.{Printable}
use facows.Tls.Header.{answer_header, net_443_res_write-answer_header}
use facows.Mem.Text.{codes}
use facows.Tests.{lacks-Absent}
use facows.Start.{blank_conf}
use facows.Prelude.{◌≡◌, refl, ap, ◌∙◌, false, Option, some, List, [], ◌∷◌, ◌++◌, map, arith, pos}
use facows.Mem.Run.{ok, Bytes}
use facows.Mem.Libc.{memcmp, zeros}
use facows.Mem.Laws.{Absent, length-zeros, Holds}

abbrev pub fresh_ctx : DataCtx
fresh_ctx = record {
  file_len = pos 0;
  req_buf = zeros 8192;
  acc_read_n = 0;
  want_write = false;
  ssl_status = 2;
  file_path = zeros 1024;
  client_ip_buf = zeros 16;
}

abbrev pub idle_peer : Peer
idle_peer = record { reads = []; writes = []; sent = []; interest = epollin }

fresh-Ready : Ready fresh_ctx []
fresh-Ready = record {
  post = zeros 8192;
  holds_text = refl;
  size = omega (arith, length-zeros 8192);
  count = refl;
}

abbrev half : List Bytes
half = codes "GET / HT" ∷ []

net_443_read-Reads_example :
    Reads
      (gather [] half)
      fresh_ctx
      (net_443_read fresh_ctx (record idle_peer { reads = map got half }))
net_443_read-Reads_example =
    net_443_read-Reads fresh_ctx idle_peer [] half fresh-Ready (omega arith, tt)

-- A call that gets half of the request line
half_read :
    (c : DataCtx) × (p : Peer) × (net_443_read fresh_ctx (record idle_peer { reads = map got half })
      ≡ ok (pos 0, c, p))
half_read = let (r, e, shows) = call in (r.1, r.2, e ∙ ap (λ k. ok (k, r.1, r.2)) shows.0)
  where
    call :
        Reads
          (waiting (codes "GET / HT"))
          fresh_ctx
          (net_443_read fresh_ctx (record idle_peer { reads = map got half }))
    call = net_443_read-Reads fresh_ctx idle_peer [] half fresh-Ready (omega arith, tt)

net_443_read_again_example :
    net_443_read half_read.0 (record half_read.1 { reads = got (codes "TP/1.1") ∷ [] })
    ≡ net_443_read fresh_ctx
        (record idle_peer { reads = map got half ++ got (codes "TP/1.1") ∷ [] })
net_443_read_again_example =
    net_443_read_again fresh_ctx half_read.0 idle_peer half_read.1 [] half
      (got (codes "TP/1.1") ∷ []) fresh-Ready (omega arith, tt) half_read.2

abbrev cut : List Bytes
cut = codes "GET / HT" ∷ codes "TP/1.1\r\n\r" ∷ codes "\n" ∷ []

net_443_read_cut_example :
    Reads
      (whole (codes "GET / HTTP/1.1\r\n\r\n") [])
      fresh_ctx
      (net_443_read fresh_ctx (record idle_peer { reads = map got cut }))
net_443_read_cut_example =
    net_443_read_cut fresh_ctx idle_peer (codes "GET / HTTP/1.1") cut fresh-Ready
      (omega arith, (omega arith, (omega arith, tt))) refl refl (omega arith)

-- SSL_write is to be called again, and then read fails.
abbrev some_events : List (Option Bytes × List WriteRet)
some_events =
    (some (codes "hello"), refused want_write ∷ []) ∷ (some (codes "hel"), taken ∷ []) ∷ []

resumes : Resumes [] [] (codes "hello") fresh_ctx idle_peer
resumes = record { small = omega arith; remembers = refl; has_sent = refl }

file_events-Done_example : Done ((taken ∷ []) ∷ []) [] (codes "hello") fresh_ctx idle_peer
file_events-Done_example =
    file_events-Done ((taken ∷ []) ∷ []) [] [] (codes "hello") fresh_ctx idle_peer (omega arith)
      (omega arith) (tt, tt) (tt, tt) resumes

-- A text in an array, with nothing behind its terminator
pub text-Holds : (s : Bytes) → Absent 0 s → Holds (s ++ 0 ∷ []) s
text-Holds s a = record { rest = []; splits = refl; no_nul = a }

abbrev page_res : HttpRes
page_res = record (blank_res (codes "Thu" ++ 0 ∷ [])) {
  content = codes "text/html" ++ 0 ∷ [];
  etag = codes "1_2" ++ 0 ∷ zeros 28;
}

abbrev page_req : HttpReq
page_req = record blank_req { origin = 0 ∷ [] }

page-Printable : Printable page_res page_req (codes "Thu") (codes "1_2") (codes "text/html") []
page-Printable = record {
  date_text_of = text-Holds _ (lacks-Absent 0 (codes "Thu") refl);
  etag_text_of = record {
    rest = zeros 28;
    splits = refl;
    no_nul = lacks-Absent 0 (codes "1_2") refl;
  };
  content_text_of = text-Holds _ (lacks-Absent 0 (codes "text/html") refl);
  origin_text_of = text-Holds [] tt;
  date_small = omega arith;
  etag_small = omega arith;
  content_small = omega arith;
  origin_small = omega arith;
}

tags_differ : memcmp page_res.etag page_req.etag 32 ≡ ok false
unfolding memcmp zeros
tags_differ = refl

net_443_res_write-answer_header_example :
    net_443_res_write blank_conf page_res 5 page_req idle_peer
    ≡ ok (
        sent_or_failure (
          net_443_write idle_peer (
            answer_header blank_conf page_res 5 false
              (codes "Thu")
              (codes "1_2")
              (codes "text/html")
              [])))
net_443_res_write-answer_header_example =
    net_443_res_write-answer_header blank_conf page_res 5 page_req idle_peer false (codes "Thu")
      (codes "1_2") (codes "text/html") [] page-Printable tags_differ
