-- ===== src/Lib.antt =====
-- gfhttpd: an HTTP/2 and HTTP/3 server whose requests are answered by local files or by chains of
-- modules.
--
-- A request reaches the program through nghttp2 (main/http2) or quiche (main/http3). Its path is
-- checked by `check_path`, its stream is handed to `root_router` (main/router/router.c), which
-- looks the path up among the routes (main/config/routes.c) and either schedules the route's
-- modules (`module_cb`, main/router/module_cb.c) or opens a file; what is missing is a 404 page.
-- Everything that belongs to a request is allocated from a pool (main/mem/mem.c).
--
-- The files, one per part, each with child modules for what is proved:
--   Path      `ends_with` and `check_path` of main/router/router.c;
--   Decode    `hex_to_uint` and `percent_decode` of main/http2/event_cb.c;
--   Pool      main/mem/mem.c: `mp_new`, `mp_alloc`, `mp_calloc`, `mp_strndup`, `mp_free`,
--             `mp_delete`, `mp_has_left`, `align_size`. Pool.Heap is the memory below: live
--             blocks, headers, bytes and the two globals. A command takes a memory and gives a
--             result with the next one, a fault for an access out of a live block, or an abort
--             for a failed `assert`;
--   Token     `mint_token` and `validate_token` of main/http3/event_cb.c;
--   Routes    main/config/routes.c: `match_route`, `insert_route`, `create_route`, `add_route`,
--             `get_route`, `length_routes`, `delete_route`, `delete_routes_all`.
--             The table of uthash and the matcher of PCRE2 are interfaces (Routes.Interfaces),
--             which Routes.Listed fills for the examples;
--   Router    `error_html`, `get_socketpair`, `error_fd` and `root_router` of
--             main/router/router.c. A record answers the system calls of one run, and a reply
--             lists the calls made (Router.Calls);
--   Modules   `module_cb` of main/router/module_cb.c, in an event loop that fires a pending
--             event once;
--   Timer     `set_timeout` of main/http3/http3.c;
--   Http2     the callbacks of main/http2/event_cb.c that build, answer and close a request, and
--             `create_http_stream` and `remove_stream` of main/http2/http2_session.c.
--             Http2.Session is the rest of that file, `read_cb`, `write_cb`, `event_cb` and
--             `file_read_callback`, for one connection;
--   Http3     `for_each_header` of main/http3/event_cb.c and the headers event of
--             `http3_event_cb`; quiche's loop over the headers is an interface (Http3.Quiche);
--   Body      the body that `future_write_cb` of main/http3/http3.c sends of a regular file;
--   Response  `get_http3_headers` and the whole of `future_write_cb`: the headers, the body, the
--             flush of the connection, and the runs that are scheduled again. What quiche makes of
--             a connection is a parameter;
--   Connections  the table of connections of main/http_stream/http_stream.c, with its abstract
--             specification, a finite map, in Connections.Refines;
--   Quic      `flush_egress` and the clean-ups of main/http3/http3.c, main/http3/timeout_cb.c, and
--             of main/http3/event_cb.c `create_conn` and `http3_event_cb`, from a datagram to the
--             flush of every connection. quiche is the interface Quic.Api, which each function
--             takes as a parameter;
--   Config    `jsoneq` and `locations_parser` of main/config/config.c, over the tokens of jsmn;
--             Config.Load is `conf_load` with the keys that it requires, and `config_free`;
--   Headers   main/http_stream/headers.c, over the same interface of uthash as the routes;
--   Log       main/log/log.c: the messages that pass through the pipe, and what is printed of it;
--   Start     main/gfhttpd.c: the options, the run with the listeners of main/http2/listen.c and
--             main/http3/listen.c, and the shutdown.
-- Base holds what they share: outcomes of C code with the rules for what they ensure and for loops
-- that are not cut off, lists, strings as bytes, C's integers.
-- The modules Examples hold concrete runs.
--
-- Fuel: the loop of `mp_alloc` is cut off at a number of rounds, and `mp_free`'s, the event
-- loop's and `percent_decode`'s are too. The theorems show the bounds that are enough: THRESHOLD
-- + 2 rounds for `mp_alloc`, since at most THRESHOLD free chunks may be too small before a new
-- one is made; one more than the chunks for `mp_free`; one more than the modules for the event
-- loop; one more than the bytes left for a body; one more than the packets that quiche has for
-- `flush_egress`; one more than the packets and than the events of any connection for
-- `http3_event_cb`, which passes one fuel to both loops (Quic.Bounded); one more than the bytes,
-- which `percent_decode` takes itself.
--
-- Integers are natural numbers with the wrap-around of `size_t` and `int` written out (Base.Int
-- for the signed ones). A C string is the list of its bytes without the NUL.
--
-- Not modelled: what only calls libraries (`stop_cb`, `usage`, `next_proto_cb`,
-- `alpn_select_proto_cb`, `create_ssl`), main/http3/main.c, which the build leaves out, the text of
-- log messages, and the Go modules with main/modules/golang/golang_bridge.h, which is the header of
-- a cgo build: `module_cb` takes `Go_golang` as a parameter.
mod Base
pub mod Path
pub mod Decode
pub mod Pool
pub mod Token
pub mod Routes
pub mod Router
pub mod Modules
pub mod Timer
pub mod Http2
pub mod Http3
pub mod Body
pub mod Config
pub mod Headers
pub mod Connections
pub mod Quic
pub mod Response
pub mod Log
pub mod Start
