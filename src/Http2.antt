-- ===== src/Http2.antt =====
-- The callbacks of main/http2/event_cb.c that build and answer a request, and the streams of
-- main/http2/http2_session.c.
pub mod Requests
pub mod Aborts
pub mod Session
mod Examples
use gfhttpd.Base.{
  ℕ, zero, suc, ◌+◌, Bool, true, false, not, ◌&&◌, ◌||◌, Option, none, some, List, [], ◌∷◌, ◌++◌,
  Run, ok, fault, ◌>>=◌, Bytes, bytes, bytes_eq, c_str, length, ◌==◌, if◌then◌else◌, ℤ, pos, negsuc,
  is_negative, is_zero,
}
use gfhttpd.Decode.{percent_decode}
use gfhttpd.Path.{check_path}
use gfhttpd.Routes.Interfaces.{HashTable, Pcre2}
use gfhttpd.Routes.{Route}
use gfhttpd.Router.Calls.{System, Call, closed}
use gfhttpd.Router.{Stream, Reply, root_router}

-- What a `struct http_stream` keeps for HTTP/2: the request's fields that may be NULL, whether
-- `evbase` and `prev` are set, and the router's part, whose own URL counts for nothing.
pub record H2Stream : Type 0 where
  pub url : Option Bytes
  pub method : Option Bytes
  pub authority : Option Bytes
  pub scheme : Option Bytes
  pub evbase : Bool
  pub prev : Bool
  pub sock : ℤ
  pub router : Stream

pub data FrameType : Type 0 where
  data_frame : FrameType
  headers_frame : FrameType
  other_frame : FrameType

-- `nghttp2_frame`; `is_request` is the category NGHTTP2_HCAT_REQUEST.
pub record Frame : Type 0 where
  pub type : FrameType
  pub is_request : Bool
  pub end_stream : Bool
  pub stream_id : ℕ

-- The streams that nghttp2 keeps for the session as user data.
abbrev pub Session : Type 0
Session = ℕ → Option H2Stream

abbrev pub set_user_data : ℕ → Option H2Stream → Session → Session
set_user_data id hs session k = if k == id then hs else session k

abbrev pub no_stream : Stream
no_stream = record {
  url = [];
  modules_url = none;
  modules_chain = [];
  http_status = none;
  content_length = 0;
  response_fd = pos 0;
  module_cb_ev = false;
}

-- All zero but `sock`; `add_stream` is empty.
abbrev pub create_http_stream : H2Stream
create_http_stream = record {
  url = none;
  method = none;
  authority = none;
  scheme = none;
  evbase = false;
  prev = false;
  sock = negsuc 0;
  router = no_stream;
}

abbrev pub is_headers : FrameType → Bool
is_headers headers_frame = true
is_headers data_frame = false
is_headers other_frame = false

abbrev pub is_other : FrameType → Bool
is_other other_frame = true
is_other headers_frame = false
is_other data_frame = false

unfoldable pub on_begin_headers_callback : Frame → Session → Session
on_begin_headers_callback frame session =
    if not (is_headers (frame.type)) || not (frame.is_request)
    then session
    else set_user_data (frame.stream_id) (some create_http_stream) session

-- The bytes before the first '?'.
abbrev pub before_query : Bytes → Bytes
before_query [] = []
before_query (c ∷ s) = let rest = before_query s in if c == b'?' then [] else c ∷ rest

-- A field of the request, decoded up to the query; nghttp2 puts a NUL behind a value.
abbrev pub field : Bytes → Run Bytes
field value = percent_decode (value ++ 0 ∷ []) (length (before_query value)) >>= λ s. ok (c_str s)

-- The chain of tests on the name of a header.
unfoldable pub store_header : Bytes → Bytes → H2Stream → Run H2Stream
store_header name value hs =
    if bytes_eq name (bytes ":path")
    then field value >>= (λ s. ok (record hs { url = some s }))
    else if bytes_eq name (bytes ":method")
    then field value >>= (λ s. ok (record hs { method = some s }))
    else if bytes_eq name (bytes ":authority")
    then field value >>= (λ s. ok (record hs { authority = some s }))
    else if bytes_eq name (bytes ":scheme")
    then field value >>= (λ s. ok (record hs { scheme = some s }))
    else ok hs

abbrev pub is_some {ℓ} : {A : Type ℓ} → Option A → Bool
is_some none = false
is_some (some _) = true

unfoldable pub on_header_callback : Frame → Bytes → Bytes → Session → Run Session
on_header_callback frame name value session =
    if not (is_headers (frame.type)) || not (frame.is_request)
    then ok session
    else elim (session (frame.stream_id)) [
      | none ↦ ok session
      | some hs ↦
          if is_some (hs.url)
          then ok session
          else store_header name value hs >>= λ hs'.
              ok (set_user_data (frame.stream_id) (some hs') session)
    ]

-- What a callback returns, the stream after it, and the calls made.
pub record Answer : Type 0 where
  pub rv : ℤ
  pub stream : H2Stream
  pub calls : List Call

-- `fd == -1`
abbrev pub is_minus_one : ℤ → Bool
is_minus_one (pos n) = false
is_minus_one (negsuc n) = n == 0

-- NGHTTP2_ERR_CALLBACK_FAILURE
abbrev pub callback_failure : ℤ
callback_failure = negsuc 901

-- What follows the call of `root_router`. `submitted` is what `nghttp2_submit_response` returns.
unfoldable pub answer_request : ℤ → H2Stream → Reply → Answer
answer_request submitted hs reply =
    let hs' : H2Stream = record hs { router = reply.stream } in
    if is_minus_one (reply.fd)
    then record { rv = pos 0; stream = hs'; calls = reply.calls }
    else (let hs'' : H2Stream = record hs' { sock = reply.fd } in
        if not (is_zero submitted)
        then record {
          rv = callback_failure;
          stream = hs'';
          calls = reply.calls ++ closed (reply.fd) ∷ [];
        }
        else record { rv = pos 0; stream = hs''; calls = reply.calls })

module _ (p : Pcre2) (h : HashTable (Route p)) (sys : System) (submitted : ℤ) where
  unfoldable pub on_request_recv : H2Stream → Run Answer
  on_request_recv hs = elim (hs.url) [
    | none ↦ ok record { rv = pos 0; stream = hs; calls = [] }
    | some url ↦
        if not (check_path url)
        then ok record { rv = pos 0; stream = hs; calls = [] }
        else root_router p h sys (hs.evbase) (h.empty) record (hs.router) { url = url } >>= λ reply.
            ok (answer_request submitted hs reply)
  ]

  -- `none` where no request was complete.
  unfoldable pub on_frame_recv_callback : Frame → Session → Run (Session × Option Answer)
  on_frame_recv_callback frame session =
      if is_other (frame.type) || not (frame.end_stream)
      then ok (session, none)
      else elim (session (frame.stream_id)) [
        | none ↦ ok (session, none)
        | some hs ↦ on_request_recv hs >>= λ a.
            ok (set_user_data (frame.stream_id) (some (a.stream)) session, some a)
      ]

-- `remove_stream` reads `prev`.
unfoldable pub on_stream_close_callback : ℕ → Session → Run Session
on_stream_close_callback stream_id session = elim (session stream_id) [
  | none ↦ ok session
  | some hs ↦ if hs.prev then ok (set_user_data stream_id none session) else fault
]
