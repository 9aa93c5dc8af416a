-- ===== src/Http2/Examples.antt =====
-- Requests over HTTP/2.
use gfhttpd.Base.{◌≡◌, ◌>>=◌, refl, true, [], ◌∷◌, bytes, ok, abort, pos, none, some}
use gfhttpd.Path.{check_path}
use gfhttpd.Decode.{percent_decode}
use gfhttpd.Routes.Listed.{listed, prefixes}
use gfhttpd.Router.Calls.{opened}
use gfhttpd.Router.Sample.{one_file}
use gfhttpd.Http2.{
  H2Stream, Frame, Session, create_http_stream, field, Answer, set_user_data, on_header_callback,
  on_begin_headers_callback, on_frame_recv_callback, on_stream_close_callback,
}
use gfhttpd.Http2.Requests.{
  requested, whole_request, IsSafeAnswer, on_frame_recv_callback-IsSafeAnswer,
}
use gfhttpd.Http2.Aborts.{each_header, IsOther, on_frame_recv_callback-abort}

abbrev no_session : Session
no_session id = none

-- A stream that has an event base and a URL.
abbrev with_base : H2Stream
with_base = record create_http_stream { evbase = true; url = some (bytes "/a/b") }

abbrev served : Answer
served = record {
  rv = pos 0;
  stream = record with_base {
    sock = pos 5;
    router = record (create_http_stream.router) { url = bytes "/a/b"; content_length = 5 };
  };
  calls = opened (bytes "a/b") ∷ [];
}

serves :
    on_frame_recv_callback prefixes listed one_file
      (pos 0)
      (whole_request 1)
      (set_user_data 1 (some with_base) no_session)
    ≡ ok (
      set_user_data 1 (some (served.stream)) (set_user_data 1 (some with_base) no_session),
      some served,
    )
unfolding on_frame_recv_callback gfhttpd.Http2.on_request_recv gfhttpd.Http2.answer_request
    check_path gfhttpd.Router.root_router gfhttpd.Router.find_route gfhttpd.Routes.get_route
    gfhttpd.Routes.match_route gfhttpd.Routes.match_loop gfhttpd.Router.serve
    gfhttpd.Router.or_not_found gfhttpd.Router.open_file gfhttpd.Router.skip_slashes
serves = refl

on_frame_recv_callback-IsSafeAnswer_example :
    (hs : H2Stream) × (some with_base ≡ some hs) × IsSafeAnswer (requested hs) served
on_frame_recv_callback-IsSafeAnswer_example =
    on_frame_recv_callback-IsSafeAnswer prefixes listed one_file (pos 0) (whole_request 1)
      (set_user_data 1 (some with_base) no_session)
      (set_user_data 1 (some (served.stream)) (set_user_data 1 (some with_base) no_session)) served
      serves

decoded : field (bytes "/a?x=1") ≡ ok (bytes "/a")
unfolding percent_decode
decoded = refl

checked : check_path (bytes "/a") ≡ true
unfolding check_path
checked = refl

get-IsOther : IsOther (bytes ":method", bytes "GET")
unfolding percent_decode
get-IsOther = record { no_path = refl; text = bytes "GET"; decodes = refl }

https-IsOther : IsOther (bytes ":scheme", bytes "https")
unfolding percent_decode
https-IsOther = record { no_path = refl; text = bytes "https"; decodes = refl }

on_frame_recv_callback-abort_example :
    (each_header 1
        ((bytes ":method", bytes "GET")
          ∷ (bytes ":scheme", bytes "https")
          ∷ (bytes ":path", bytes "/a?x=1")
          ∷ (bytes "accept", bytes "*/*")
          ∷ [])
        (on_begin_headers_callback (whole_request 1) no_session)
      >>= on_frame_recv_callback prefixes listed one_file (pos 0) (whole_request 1))
    ≡ abort
on_frame_recv_callback-abort_example =
    on_frame_recv_callback-abort prefixes listed one_file (pos 0) 1
      ((bytes ":method", bytes "GET") ∷ (bytes ":scheme", bytes "https") ∷ [])
      ((bytes "accept", bytes "*/*") ∷ []) (bytes "/a?x=1") (bytes "/a") no_session
      (get-IsOther, (https-IsOther, tt)) decoded checked
