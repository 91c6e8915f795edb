-- ===== src/Lib.antt =====
-- facows, a web server with its own parsers, path handling and request limits.
--
-- The parts and how they work together. main (src/facows.c) reads a configuration file
-- (src/file_conf.c) into one structure (include/types.h) that every other part reads, has the rules of
-- the net filter set (src/net_nft.c), makes a pipe and forks. The child (fws_child_run in src/fws.c)
-- takes connections in a loop of epoll_wait, by the descriptors of their contexts. For a TLS connection
-- _fws_443_run (src/fws.c) does the handshake, and for each request has the line and the headers
-- taken apart
-- (src/net_http.c), looks for the file that answers it (src/file.c), counts the request against the
-- client's limits (src/fws.c again), builds the answer: its content type, its entity tag and
-- whether the origin is the server's own (src/net_http.c), and sends it, over as many events as the
-- socket needs (src/net_443.c). A request on port 80 is sent to HTTPS (src/net_80.c). The line of the
-- log, and a client that goes on over its limits, are written into the pipe to the parent
-- (fws_parent_run in src/fws.c), which writes its log file and bans the client in the net filter.
--
-- The files.
--   Prelude, with Tests, Lists and Int: names that the others share; Boolean tests on numbers, lists
--     measured by numbers, and integers for the return codes.
--   Mem/Run, Mem/Libc, Mem/Strtol: memory. A pointer is the list of the bytes from it to the end of
--     its object, an array the list of all its bytes. Code that reads or writes returns a Run: `ok`,
--     `fault` for an access outside the object, or `out_of_fuel`. memchr, strnlen and strtol stop
--     where the C library does; memcmp reads all the bytes it is given, as the C standard allows.
--     Mem/Laws has what is known of each; Mem/Ends is about runs that end; Mem/Text has
--     what snprintf prints and laws of it.
--   Types: the structures of include/types.h (fws_conf, fws_http_req, fws_http_res, fws_file,
--     fws_nft), a record each. Fields of a width carry natural numbers; the code that stores
--     them takes the remainder.
--   File: src/file.c. file_parse, and _raw_path_build (raw_loop), _uri_path_build, _path_build and
--     _chr_to_hex under their names. A return code and the changed structure are a pair. `Fs` stands
--     for stat and realpath. File/Decode, File/Loop and File/RawPath compare the percent-decoder with a
--     reference, File/Encoding with the encodings of a text, File/Overlong is about paths that
--     do not fit, File/Redirect about redirects, File/Containment about the web root.
--   Conf: the values of src/file_conf.c by their types (_type_u32_parse to _type_ap_parse);
--     Conf/Mime is _type_mime_parse, Conf/Keys CONF_LIST, Conf/Parse _conf_parse and
--     file_conf_read, where `ReadFile` stands for open, fstat and read. Conf/Values and Conf/Lines
--     are about values and comments, Conf/Dispatch about keys, Conf/Document about whole files,
--     Conf/ValueEnds and Conf/FileEnds about the end of the loops.
--   Http: src/net_http.c. Http has the request line, the URI and net_http_origin_self_check,
--     Http/Header _header_parse with a function for each case of its switch, Http/Request
--     net_http_req_parse, Http/Response _get_etag and net_http_res_build, where `FileStat` stands for
--     open and fstat and a text for strftime. Http/Line, Http/Agent and Http/Origin are
--     about what is read, Http/RequestEnds and Http/ResponseEnds about the end of the loops.
--   Limit: the table of clients in _fws_443_run of src/fws.c, its two checks, and the reset of the
--     table by the timer of fws_child_run. Limit/Slots is about the table, Limit/Window about
--     the requests of a client between two resets.
--   Tls: src/net_443.c. Tls has net_443_read, net_443_write and net_443_file_write, Tls/Answer
--     net_443_res_write and net_443_err_write. What SSL_read and SSL_write come to is a list of
--     results in `Peer`: SSL_read gives bytes or an error, SSL_write takes the whole buffer or nothing,
--     as it does without SSL_MODE_ENABLE_PARTIAL_WRITE. Tls/Search, Tls/Gather, Tls/Resume and Tls/Cut
--     are about reading, Tls/Sent, Tls/FileLoop, Tls/Calls, Tls/Events and Tls/Delivery about sending
--     files, where each call opens and reads its file anew, Tls/Parts and Tls/Header about the headers.
--   Net: net_host_build of src/net.c and net_http_path_redir of src/net_http.c; Net/Plain is
--     net_80_443_redir of src/net_80.c, where `RecvRet` stands for recv. Net/Host is about the name of
--     the host, Net/Receive, Net/Redirect and Net/PlainEnds about the redirect.
--   Session: the loop of _fws_443_run in src/fws.c, put together from the parts above, a function
--     for what follows each call. `Site` holds what the loop finds around it, `State` what it changes.
--     Session/Measure, Session/Keeps, Session/Kept and Session/Inside are about the files that are
--     opened, Session/Limited about clients over their limits, Session/Ends, with File/Ends and
--     Tls/Ends, about what a round of the loop reads.
--   Conn: _fws_443_run of src/fws.c: the handshake in front of the loop of Session, the loop, the
--     line of the log and the end of the connection. `Visit` stands for SSL_new, SSL_set_fd,
--     SSL_accept, BIO_get_ktls_send and BIO_get_ktls_recv, gmtime and strftime. Conn/Log is about the
--     line, Conn/Handshake about handshakes that are not done, Conn/Ends about the end of a call.
--   Child: the loop of fws_child_run in src/fws.c, a function for each of its sections;
--     Child/Dispatch has the rest of the loop, with _fws_80_run. `Child` has the variables of
--     fws_child_run and a store: the descriptors that are open, the contexts that are allocated by
--     their addresses, and the context that epoll has for a descriptor. It counts each close of a
--     descriptor that is not open and each event of a context that has been freed. `Came` has what an
--     event brings and what the calls for it come to. Child/Setup is what stands in front of the loop,
--     with net_server_init of src/net.c; `System` has what its calls come to. Child/Sound,
--     Child/Taken, Child/Events, Child/Loop and Child/Serves are about the loop, Child/Starts,
--     Child/Piped, Child/Steps, Child/Ends and Child/Whole about the rest.
--   Nft: src/net_nft.c. Nft has net_nft_dos_ban and net_nft_fini, Nft/Init net_nft_init and
--     _name_get, where the lines of the table of routes are an argument and the commands a list.
--     Nft/Route is about that table, Nft/Rules about the commands.
--   Parent: fws_parent_run of src/fws.c. Parent has the messages of an event, Parent/Watch the loop
--     over the events, with what stands in front of it and behind it; `Waited` stands for epoll_wait
--     and read, `ParentSystem` for the other calls. Parent/Frames, Parent/FramesEnds and Parent/Stream
--     are about the messages.
--   Start: main of src/facows.c; `Boot` has what its calls come to. Start/Fds is about the
--     descriptors of main and fws_parent_run, and the tables of the net filter, Start/Serving about
--     the process that serves, Start/Ends about the end of both.
--   Tests: runs at concrete inputs, and theorems at inputs that meet their hypotheses.
--
-- Fuel. Loops that walk a text byte by byte are recursion on that text. The others carry fuel:
-- ports_loop, header_loop and conf_loop move on by a byte at least in each round and have the length
-- of the text; ext_loop, mime_loop, ext_find, ext_search and mime_search have the number of bytes that
-- is left, which falls in each round. file_loop has the length of the file, of which a round takes a
-- byte at least; host_find and frames_loop move on by a byte at least and have the length of the text.
-- session_loop has two more than the number of results of SSL_read that are left: a round that goes on
-- has taken one, but for a first round that has a file left to send. The loops over events are recursion
-- on the list of what happens.
--
-- Not modelled: system calls, OpenSSL and libnftables, whose results are arguments; net_443_init of
-- src/net_443.c, which only calls OpenSSL; _fws_exit of src/facows.c, which stores the number of a
-- signal; messages to stderr and to stdout, the status of waitpid among them; the ip of fws_http_req,
-- which no code uses. The contexts of the three listening descriptors are never freed, nor are those
-- of the connections that are open at the end of the process: nothing is claimed of leaks. The
-- epoll_create1 of fws_parent_run is taken to succeed. A comparison of pointers whose outcome is settled
-- by the memchr in front of it is left out.
pub mod Prelude
pub mod Mem
pub mod Types
pub mod File
pub mod Http
pub mod Conf
pub mod Limit
pub mod Tls
pub mod Net
pub mod Session
pub mod Conn
pub mod Child
pub mod Start
pub mod Nft
pub mod Parent
pub mod Tests
