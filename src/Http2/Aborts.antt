-- ===== src/Http2/Aborts.antt =====
-- A request of HTTP/2 that is sent in one frame of headers, through the callbacks of
-- main/http2/event_cb.c.
use gfhttpd.Base.{
  ℕ, ◌≡◌, refl, ap, ◌∙◌, true, false, Option, none, some, List, [], ◌∷◌, ◌++◌, Run, ok, abort,
  ◌>>=◌, Bytes, bytes, bytes_eq, ℤ, All, Bool-cases, inl, inr,
}
use gfhttpd.Path.{check_path}
use gfhttpd.Routes.Interfaces.{HashTable, Pcre2}
use gfhttpd.Routes.{Route}
use gfhttpd.Router.Calls.{System}
use gfhttpd.Http2.{
  H2Stream, Session, create_http_stream, on_begin_headers_callback, on_header_callback,
  store_header, is_some, field, on_frame_recv_callback, set_user_data,
}
use gfhttpd.Http2.Requests.{whole_request, set_user_data-same, begun, header_path, frame_abort}

-- nghttp2 calls `on_header_callback` for each header in turn.
abbrev pub each_header : ℕ → List (Bytes × Bytes) → Session → Run Session
each_header id [] session = ok session
each_header id ((name, value) ∷ rest) session =
    on_header_callback (whole_request id) name value session >>= each_header id rest

-- A header that is not the path, whose value is decoded in bounds.
pub record IsOther (header : Bytes × Bytes) : Type 0 where
  pub no_path : bytes_eq header.0 (bytes ":path") ≡ false
  pub text : Bytes
  pub decodes : field header.1 ≡ ok text

-- A stream without an event base, with this URL.
record IsBegun (url : Option Bytes) (id : ℕ) (session : Session) : Type 0 where
  stream : H2Stream
  there : session id ≡ some stream
  same_url : stream.url ≡ url
  no_base : stream.evbase ≡ false

-- The header changes neither the URL nor the event base.
store_header-other :
    (header : Bytes × Bytes) (hs : H2Stream)
    → IsOther header
    → (hs' : H2Stream) × (store_header header.0 header.1 hs ≡ ok hs')
      × (hs'.url ≡ hs.url)
      × (hs'.evbase ≡ hs.evbase)
unfolding store_header
store_header-other (name, value) hs o = elim (Bool-cases (bytes_eq name (bytes ":method"))) [
  | inl method ↦
      (record hs { method = some (o.text) }, rw (o.no_path, method, o.decodes), refl, refl)
  | inr no_method ↦ elim (Bool-cases (bytes_eq name (bytes ":authority"))) [
    | inl authority ↦ (
      record hs { authority = some (o.text) },
      rw (o.no_path, no_method, authority, o.decodes),
      refl,
      refl,
    )
    | inr no_authority ↦ elim (Bool-cases (bytes_eq name (bytes ":scheme"))) [
      | inl scheme ↦ (
        record hs { scheme = some (o.text) },
        rw (o.no_path, no_method, no_authority, scheme, o.decodes),
        refl,
        refl,
      )
      | inr no_scheme ↦ (hs, rw (o.no_path, no_method, no_authority, no_scheme), refl, refl)
    ]
  ]
]

-- One header before the path.
header_before :
    (id : ℕ) (session : Session) (header : Bytes × Bytes)
    → IsOther header
    → IsBegun none id session
    → (session' : Session) × (on_header_callback (whole_request id) header.0 header.1 session
        ≡ ok session')
      × IsBegun none id session'
unfolding on_header_callback
header_before id session header o b =
    let unset : is_some ((b.stream).url) ≡ false = ap is_some (b.same_url) in
    let (hs', stored, url, base) = store_header-other header (b.stream) o in
    (
      set_user_data id (some hs') session,
      rw (b.there, unset, stored),
      record {
        stream = hs';
        there = set_user_data-same id (some hs') session;
        same_url = url ∙ b.same_url;
        no_base = base ∙ b.no_base;
      },
    )

-- A header behind the path is not looked at.
header_after :
    (id : ℕ) (session : Session) (name value url : Bytes)
    → IsBegun (some url) id session
    → on_header_callback (whole_request id) name value session ≡ ok session
unfolding on_header_callback
header_after id session name value url b = rw (b.there, b.same_url)

module _ (p : Pcre2) (h : HashTable (Route p)) (sys : System) (submitted : ℤ) (id : ℕ) where
  headers_after :
      (after : List (Bytes × Bytes)) (session : Session) (url : Bytes)
      → IsBegun (some url) id session
      → check_path url ≡ true
      → (each_header id after session
          >>= on_frame_recv_callback p h sys submitted (whole_request id))
        ≡ abort
  headers_after [] session url b safe =
      frame_abort p h sys submitted id session (b.stream) url (b.there) (b.same_url) (b.no_base)
        safe
  headers_after ((name, value) ∷ after) session url b safe =
      rw (header_after id session name value url b) (headers_after after session url b safe)

  headers_before :
      (before after : List (Bytes × Bytes)) (value url : Bytes) (session : Session)
      → All IsOther before
      → field value ≡ ok url
      → check_path url ≡ true
      → IsBegun none id session
      → (each_header id (before ++ (bytes ":path", value) ∷ after) session
          >>= on_frame_recv_callback p h sys submitted (whole_request id))
        ≡ abort
  headers_before [] after value url session os decoded safe b =
      let hs : H2Stream = record b.stream { url = some url } in
      rw (header_path id session (b.stream) value url (b.there) (b.same_url) decoded) (
        headers_after after (set_user_data id (some hs) session) url
          record {
            stream = hs;
            there = set_user_data-same id (some hs) session;
            same_url = refl;
            no_base = b.no_base;
          }
          safe)
  headers_before (header ∷ before) after value url session (o, os) decoded safe b =
      let (session', done, b') = header_before id session header o b in
      rw done (headers_before before after value url session' os decoded safe b')

  -- A request in one frame of headers ends the program if `check_path` accepts its path: whatever
  -- headers stand before the path, each with a value that is decoded in bounds, and behind it, the
  -- stream that `on_begin_headers_callback` makes has no event base, and `root_router` asserts one.
  pub on_frame_recv_callback-abort :
      (before after : List (Bytes × Bytes)) (value url : Bytes) (session : Session)
      → All IsOther before
      → field value ≡ ok url
      → check_path url ≡ true
      → (each_header id
            (before ++ (bytes ":path", value) ∷ after)
            (on_begin_headers_callback (whole_request id) session)
          >>= on_frame_recv_callback p h sys submitted (whole_request id))
        ≡ abort
  on_frame_recv_callback-abort before after value url session os decoded safe =
      headers_before before after value url (on_begin_headers_callback (whole_request id) session)
        os decoded safe
        record {
          stream = create_http_stream;
          there = begun (whole_request id) session refl refl;
          same_url = refl;
          no_base = refl;
        }
